-- ===== src/Airline/CallExamples.antt =====
-- contrib/airlineimpl at concrete inputs: the commands of the replica "h".
use airline_booking.Prelude.{
  ◌≡◌, refl, ◌≢◌, false, some, [], ◌∷◌, ◌++◌, arith, nat_eq, codes, text_beq, text_beq_iff, text_eq,
}
use airline_booking.Prelude.Assoc.{lookup, delete}
use airline_booking.Prelude.Strings.{itoa}
use airline_booking.Airline.Types.{AirlineServer, get_flight}
use airline_booking.Airline.Server.{init}
use airline_booking.Airline.Command.{
  at_sign, paxos_cmd, Command, parse_command, take_replyc, command_roundtrip,
}
use airline_booking.Airline.Rpc.{
  Codec, GetArgs, get_flight_call, command_text, paxos_response, handed,
}
use airline_booking.Airline.Rpc.Delivery.{delivered_own}
use airline_booking.Airline.Examples.{f1, server, args_of}

-- Commands of the replica "h"

command_roundtrip_example :
    parse_command (itoa 7 ++ (at_sign ++ paxos_cmd (codes "h") (codes "GF") (codes "{}")))
    ≡ some (record { cmd_no = 7; hostport = codes "h"; op = codes "GF"; args = codes "{}" })
command_roundtrip_example =
    command_roundtrip 7 (codes "h") (codes "GF") (codes "{}") (omega arith) (omega arith, tt)
      (omega arith, (omega arith, tt)) (omega arith, (omega arith, tt))

abbrev seventh : Command
seventh = record { cmd_no = 7; hostport = codes "h"; op = codes "GF"; args = codes "{}" }

abbrev asked : AirlineServer
asked = record server { old_replyc_map = (7, 70) ∷ (8, 80) ∷ [] }

abbrev answered_once : AirlineServer
answered_once = record server { old_replyc_map = (8, 80) ∷ [] }

seventh_taken : take_replyc seventh asked ≡ some (some 70, answered_once)
unfolding take_replyc lookup delete text_beq
seventh_taken = refl

-- The call GetFlight("F1") of the replica "h", under a codec that is right for it.
abbrev wanted : GetArgs
wanted = record { flight_id = codes "F1"; want_lease = false; lease_client = [] }

abbrev codec : Codec
codec = record {
  marshal_put = λ a. codes "{}";
  unmarshal_put = λ s. record { flight_id = codes "F1"; info = f1 };
  marshal_get = λ a. codes "{}";
  unmarshal_get = λ s. wanted;
  marshal_get_all = λ a. codes "{}";
  unmarshal_get_all = λ s. record { from = []; to = []; departure = [] };
  marshal_tran = λ a. codes "{}";
  unmarshal_tran = λ s. args_of [] [] 0 0;
}

delivered_own_example :
    paxos_response codec
      (itoa 7 ++ (at_sign ++ command_text codec (codes "h") (get_flight_call wanted)))
      asked
    ≡ handed
        (some 70)
        (get_flight (codes "F1"))
        (record asked { old_replyc_map = delete 7 asked.old_replyc_map })
unfolding lookup
delivered_own_example =
    delivered_own codec 7 (codes "h") (get_flight_call wanted) (get_flight (codes "F1")) asked 70
      (omega arith) (omega arith, tt) (omega arith, (omega arith, tt)) refl refl refl refl

abbrev elsewhere : AirlineServer
elsewhere = init (codes "AA") (codes "i")

not_h : codes "i" ≢ codes "h"
unfolding text_beq
not_h e = let same = (text_beq_iff (codes "i") (codes "h")).1 e in cc same
