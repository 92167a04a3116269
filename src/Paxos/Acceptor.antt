-- ===== src/Paxos/Acceptor.antt =====
-- contrib/libpaxos/acceptor.go: the acceptor of every instance.
pub mod Promise
pub mod Ballot
use airline_booking.Prelude.{
  ℕ, nat_eq, Text, [], List, ◌∷◌, Option, none, some, ltb, leb, nat_beq, not, ◌&&◌, if◌then◌else◌,
}
use airline_booking.Prelude.Assoc.{Assoc, lookup, insert}
use airline_booking.Paxos.Types.{
  MsgType, prepare, prepare_ok, prepare_reject, accept, accept_ok, accept_reject, Msg, Packet, msg,
}

-- What the acceptor holds of one instance.
pub record AcceptorProtocol : Type 0 where
  pub proposal : ℕ
  pub value : Text
  pub proposal_accepted : ℕ

abbrev pub init_protocol : AcceptorProtocol
init_protocol = record { proposal = 0; value = []; proposal_accepted = 0 }

pub record Acceptor : Type 0 where
  pub proto : Assoc ℕ AcceptorProtocol

abbrev pub init : Acceptor
init = record { proto = [] }

abbrev or_init : Option AcceptorProtocol → AcceptorProtocol
or_init none = init_protocol
or_init (some ap) = ap

-- The entry that `operate` works on: a new one where the instance is not known yet.
unfoldable pub protocol : Acceptor → ℕ → AcceptorProtocol
protocol ac i = or_init (lookup i ac.proto)

-- The switch on the message's type: the new entry and the reply.
unfoldable pub respond : MsgType → Msg → AcceptorProtocol → AcceptorProtocol × Option Msg
respond prepare m proto =
    if ltb proto.proposal m.proposal
    then (
      record proto { proposal = m.proposal },
      some (msg prepare_ok proto.proposal_accepted proto.value m.slot),
    )
    else (proto, some (msg prepare_reject proto.proposal [] m.slot))
respond accept m proto =
    if leb proto.proposal m.proposal && not (nat_beq m.proposal proto.proposal_accepted)
    then (
      record { proposal = m.proposal; value = m.value; proposal_accepted = m.proposal },
      some (msg accept_ok m.proposal m.value m.slot),
    )
    else if ltb m.proposal proto.proposal
    then (proto, some (msg accept_reject 0 [] 0))
    else (proto, none)
respond _ m proto = (proto, none)

unfoldable pub operate : Acceptor → Packet → Acceptor × Option Msg
operate ac p =
    let m = p.packet_msg in
    let (entry, reply) = respond m.msg_type m (protocol ac m.slot) in
    (record { proto = insert m.slot entry ac.proto }, reply)

-- The acceptor after a sequence of packets.
unfoldable pub run : Acceptor → List Packet → Acceptor
run ac [] = ac
run ac (p ∷ ps) = run (operate ac p).0 ps
