-- ===== src/Airline/Rpc.antt =====
-- contrib/airlineimpl/paxos.go and the Paxos functions of airlineimpl.go: from a client's call to a
-- command, and from a command to a request to storeHandler. The JSON codec is an argument.
pub mod Delivery
use airline_booking.Prelude.{
  ℕ, Bool, Option, none, some, [], leb, nat_beq, if◌then◌else◌, ◌==◌, nat_eq, Text, codes, text_eq,
}
use airline_booking.Airline.Types.{
  trans_init, trans_response, trans_old, trans_old_response, FlightInfo, TranArgs, AirlineServer,
  Request, create_flight, get_flight, get_all_flights, init_trans, response_trans, old_trans,
  old_response, paxos_request,
}
use airline_booking.Airline.Server.{get_all_flights_key}
use airline_booking.Airline.Command.{paxos_cmd, Command, parse_command, take_replyc}

-- The status codes of airlineproto.
abbrev pub ok : ℕ
ok = 0

abbrev pub eflightnotfound : ℕ
eflightnotfound = 1

abbrev pub eflightexists : ℕ
eflightexists = 3

pub record PutArgs : Type 0 where
  pub flight_id : Text
  pub info : FlightInfo

pub record GetArgs : Type 0 where
  pub flight_id : Text
  pub want_lease : Bool
  pub lease_client : Text

pub record GetAllArgs : Type 0 where
  pub from : Text
  pub to : Text
  pub departure : Text

-- json.Marshal and json.Unmarshal at the four types of arguments.
pub record Codec : Type 0 where
  pub marshal_put : PutArgs → Text
  pub unmarshal_put : Text → PutArgs
  pub marshal_get : GetArgs → Text
  pub unmarshal_get : Text → GetArgs
  pub marshal_get_all : GetAllArgs → Text
  pub unmarshal_get_all : Text → GetAllArgs
  pub marshal_tran : TranArgs → Text
  pub unmarshal_tran : Text → TranArgs

-- CreateFlight, GetFlight, GetAllFlightIDs and Transaction.
pub data Call : Type 0 where
  create_flight_call : PutArgs → Call
  get_flight_call : GetArgs → Call
  get_all_call : GetAllArgs → Call
  transaction_call : TranArgs → Call

unfoldable pub command_text : Codec → Text → Call → Text
command_text k host (create_flight_call a) = paxos_cmd host (codes "CF") (k.marshal_put a)
command_text k host (get_flight_call a) = paxos_cmd host (codes "GF") (k.marshal_get a)
command_text k host (get_all_call a) = paxos_cmd host (codes "GA") (k.marshal_get_all a)
command_text k host (transaction_call a) = paxos_cmd host (codes "TA") (k.marshal_tran a)

-- The channel that is nil in Go.
abbrev pub nil_channel : ℕ
nil_channel = 0

-- The channel of a transaction: only TRANS_OLD waits; `none` where Transaction sends nothing.
unfoldable pub tran_channel : ℕ → ℕ → Option ℕ
tran_channel replyc t =
    if nat_beq t trans_old
    then some replyc
    else if leb t trans_old_response
    then some nil_channel
    else none

unfoldable pub call_channel : ℕ → Call → Option ℕ
unfolding tran_channel
call_channel replyc (transaction_call a) = tran_channel replyc a.tran_type
call_channel replyc _ = some replyc

-- What a call puts on reqChan, with the new channel `replyc`.
unfoldable pub call_request : Codec → Text → ℕ → Call → Option Request
unfolding command_text call_channel
call_request k host replyc c = elim (call_channel replyc c) [
  | none ↦ none
  | some chan ↦ some (paxos_request (command_text k host c) chan)
]

-- The status that the caller gets.
abbrev pub create_flight_status : Bool → ℕ
create_flight_status created = if created then ok else eflightexists

unfoldable pub get_flight_status : Option FlightInfo → ℕ
get_flight_status none = eflightnotfound
get_flight_status (some info) = ok

-- PaxosTransaction; `none` is the panic on a type that no case has. storeHandler drops the last request, and
-- with it the *TranArgs that it carries, for which the vote stands here.
unfoldable pub paxos_transaction : Bool → TranArgs → Option Request
paxos_transaction own args =
    if nat_beq args.tran_type trans_init
    then some (init_trans own args)
    else if nat_beq args.tran_type trans_response
    then some (response_trans args)
    else if nat_beq args.tran_type trans_old
    then some (old_trans args)
    else if nat_beq args.tran_type trans_old_response
    then some (old_response [] args.vote)
    else none

-- The request that each operation makes; `none` for an unknown operation.
unfoldable pub request_of : Codec → Bool → Text → Text → Option (Option Request)
unfolding paxos_transaction
request_of k own op args =
    if op == codes "CF"
    then (let a = k.unmarshal_put args in some (some (create_flight a.flight_id a.info)))
    else if op == codes "GF"
    then some (some (get_flight (k.unmarshal_get args).flight_id))
    else if op == codes "GA"
    then (let a = k.unmarshal_get_all args in
        some (some (get_all_flights (get_all_flights_key a.from a.to a.departure))))
    else if op == codes "TA"
    then some (paxos_transaction own (k.unmarshal_tran args))
    else none

-- What PaxosResponse does with a command.
pub data Dispatch : Type 0 where
  crashed : Dispatch
  ignored : Dispatch
  dropped : Dispatch
  handed : Option ℕ → Request → AirlineServer → Dispatch

unfoldable pub hand : Option Request → Option (Option ℕ × AirlineServer) → Dispatch
hand r none = dropped
hand none (some (replyc, srv)) = crashed
hand (some r) (some (replyc, srv)) = handed replyc r srv

unfoldable pub dispatch : Codec → Command → AirlineServer → Dispatch
unfolding request_of hand
dispatch k c srv = elim (request_of k (c.hostport == srv.myhostport) c.op c.args) [
  | none ↦ ignored
  | some r ↦ hand r (take_replyc c srv)
]

unfoldable pub paxos_response : Codec → Text → AirlineServer → Dispatch
unfolding dispatch
paxos_response k cmd srv = elim (parse_command cmd) [ none ↦ crashed | some c ↦ dispatch k c srv ]
