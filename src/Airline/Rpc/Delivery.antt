-- ===== src/Airline/Rpc/Delivery.antt =====
-- contrib/airlineimpl/paxos.go: a call reaches storeHandler of every replica as the request it stands
-- for.
use airline_booking.Prelude.{
  ℕ, ◌<◌, ◌≡◌, refl, sym, ap, ◌∙◌, ◌≢◌, Bool, true, false, Option, none, some, ◌++◌, arith, ◌==◌,
  nat_eq, beq_ne, Text, codes, text_beq, text_beq_iff, text_eq,
}
use airline_booking.Prelude.Assoc.{lookup, delete}
use airline_booking.Prelude.Strings.{itoa, Lacks}
use airline_booking.Prelude.Words.{half}
use airline_booking.Airline.Types.{
  TranArgs, AirlineServer, Request, create_flight, get_flight, get_all_flights,
}
use airline_booking.Airline.Server.{get_all_flights_key}
use airline_booking.Airline.Command.{
  at_sign, paxos_cmd, Command, parse_command, take_replyc, command_roundtrip,
}
use airline_booking.Airline.Rpc.{
  Codec, Call, create_flight_call, get_flight_call, get_all_call, transaction_call, command_text,
  paxos_transaction, request_of, handed, hand, dispatch, paxos_response, PutArgs, GetArgs,
  GetAllArgs,
}

-- The encoded arguments of a call, and the name of its operation.
abbrev pub encoded : Codec → Call → Text
encoded k (create_flight_call a) = k.marshal_put a
encoded k (get_flight_call a) = k.marshal_get a
encoded k (get_all_call a) = k.marshal_get_all a
encoded k (transaction_call a) = k.marshal_tran a

abbrev pub operation : Call → Text
operation (create_flight_call a) = codes "CF"
operation (get_flight_call a) = codes "GF"
operation (get_all_call a) = codes "GA"
operation (transaction_call a) = codes "TA"

-- The decoder gives the arguments of this call back.
abbrev pub Inverts : Codec → Call → Type 0
Inverts k (create_flight_call a) = k.unmarshal_put (k.marshal_put a) ≡ a
Inverts k (get_flight_call a) = k.unmarshal_get (k.marshal_get a) ≡ a
Inverts k (get_all_call a) = k.unmarshal_get_all (k.marshal_get_all a) ≡ a
Inverts k (transaction_call a) = k.unmarshal_tran (k.marshal_tran a) ≡ a

-- The request that a call stands for.
abbrev pub meaning : Bool → Call → Option Request
meaning own (create_flight_call a) = some (create_flight a.flight_id a.info)
meaning own (get_flight_call a) = some (get_flight a.flight_id)
meaning own (get_all_call a) = some (get_all_flights (get_all_flights_key a.from a.to a.departure))
meaning own (transaction_call a) = paxos_transaction own a

request-meaning :
    (k : Codec) (own : Bool) (c : Call)
    → Inverts k c
    → request_of k own (operation c) (encoded k c) ≡ some (meaning own c)
unfolding request_of text_beq
request-meaning k own (create_flight_call a) e =
    ap (λ (b : PutArgs). some (some (create_flight b.flight_id b.info))) e
request-meaning k own (get_flight_call a) e =
    ap (λ (b : GetArgs). some (some (get_flight b.flight_id))) e
request-meaning k own (get_all_call a) e =
    ap
      (λ (b : GetAllArgs).
        some (some (get_all_flights (get_all_flights_key b.from b.to b.departure))))
      e
request-meaning k own (transaction_call a) e =
    ap (λ (b : TranArgs). some (paxos_transaction own b)) e

command_text-paxos_cmd :
    (k : Codec) (host : Text) (c : Call)
    → command_text k host c ≡ paxos_cmd host (operation c) (encoded k c)
unfolding command_text
command_text-paxos_cmd k host (create_flight_call a) = refl
command_text-paxos_cmd k host (get_flight_call a) = refl
command_text-paxos_cmd k host (get_all_call a) = refl
command_text-paxos_cmd k host (transaction_call a) = refl

operation-Lacks : (c : Call) → Lacks b'@' (operation c)
operation-Lacks (create_flight_call a) = (omega arith, (omega arith, tt))
operation-Lacks (get_flight_call a) = (omega arith, (omega arith, tt))
operation-Lacks (get_all_call a) = (omega arith, (omega arith, tt))
operation-Lacks (transaction_call a) = (omega arith, (omega arith, tt))

-- The command `n` of `host` for a call, as PaxosResponse sees it.
abbrev pub command : Codec → ℕ → Text → Call → Command
command k n host c = record { cmd_no = n; hostport = host; op = operation c; args = encoded k c }

paxos_response-parsed :
    (k : Codec) (cmd : Text) (c : Command) (srv : AirlineServer)
    → parse_command cmd ≡ some c
    → paxos_response k cmd srv ≡ dispatch k c srv
unfolding paxos_response
paxos_response-parsed k cmd c srv e = rw (e, paxos_response)

dispatch-known :
    (k : Codec) (c : Command) (srv : AirlineServer) (r : Option Request)
    → request_of k (c.hostport == srv.myhostport) c.op c.args ≡ some r
    → dispatch k c srv ≡ hand r (take_replyc c srv)
unfolding dispatch
dispatch-known k c srv r e = rw (e, dispatch)

module _ (k : Codec) (n : ℕ) (host : Text) (c : Call) (r : Request) (srv : AirlineServer) where
  response-dispatch :
      n < half
      → Lacks b'@' host
      → Lacks b'@' (encoded k c)
      → Inverts k c
      → paxos_response k (itoa n ++ (at_sign ++ command_text k host c)) srv
        ≡ hand (meaning (host == srv.myhostport) c) (take_replyc (command k n host c) srv)
  response-dispatch small h a e =
      let parsed : parse_command (itoa n ++ (at_sign ++ command_text k host c))
          ≡ some (command k n host c) =
        ap (λ t. parse_command (itoa n ++ (at_sign ++ t))) (command_text-paxos_cmd k host c)
        ∙ command_roundtrip n host (operation c) (encoded k c) small h (operation-Lacks c) a in
      paxos_response-parsed k _ (command k n host c) srv parsed
      ∙ dispatch-known k (command k n host c) srv (meaning (host == srv.myhostport) c)
          (request-meaning k (host == srv.myhostport) c e)

  -- A call by its own replica, of which the codec gives the arguments back and nothing holds an "@":
  -- when Paxos hands the numbered command back, storeHandler gets the request that the call stands for,
  -- with the channel of the call, which is forgotten.
  pub delivered_own :
      (replyc : ℕ)
      → n < half
      → Lacks b'@' host
      → Lacks b'@' (encoded k c)
      → Inverts k c
      → meaning true c ≡ some r
      → srv.myhostport ≡ host
      → lookup n srv.old_replyc_map ≡ some replyc
      → paxos_response k (itoa n ++ (at_sign ++ command_text k host c)) srv
        ≡ handed (some replyc) r (record srv { old_replyc_map = delete n srv.old_replyc_map })
  unfolding take_replyc hand
  delivered_own replyc small h a e m here chan =
      let own : text_beq host srv.myhostport ≡ true =
        (text_beq_iff host srv.myhostport).1 (sym here) in
      response-dispatch small h a e ∙ rw (own, m, chan) refl

  -- On every other replica storeHandler gets the request as one that it does not own, with no channel.
  pub delivered_elsewhere :
      n < half
      → Lacks b'@' host
      → Lacks b'@' (encoded k c)
      → Inverts k c
      → meaning false c ≡ some r
      → srv.myhostport ≢ host
      → paxos_response k (itoa n ++ (at_sign ++ command_text k host c)) srv ≡ handed none r srv
  unfolding take_replyc hand
  delivered_elsewhere small h a e m away =
      let other : text_beq host srv.myhostport ≡ false = beq_ne (λ same. away (sym same)) in
      response-dispatch small h a e ∙ rw (other, m) refl
