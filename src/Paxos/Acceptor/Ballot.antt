-- ===== src/Paxos/Acceptor/Ballot.antt =====
-- contrib/libpaxos/acceptor.go: what an acceptor has accepted.
use airline_booking.Prelude.{
  ℕ, ◌≤◌, ◌<◌, ◌≡◌, refl, ◌⊎◌, inr, some, List, [], arith, nat_eq, Text, text_eq,
}
use airline_booking.Prelude.Assoc.{lookup}
use airline_booking.Paxos.Types.{MsgType, prepare, prepare_reject, accept, Msg, Packet, msg, packet}
use airline_booking.Paxos.Acceptor.{
  Acceptor, AcceptorProtocol, init, protocol, respond, operate, run,
}
use airline_booking.Paxos.Acceptor.Promise.{run_induction, reply-operate, protocol-operate}

abbrev pub IsBounded : AcceptorProtocol → Type 0
IsBounded e = e.proposal_accepted ≤ e.proposal

respond-IsBounded :
    (t : MsgType) (m : Msg) (e : AcceptorProtocol) → IsBounded e → IsBounded (respond t m e).0
unfolding respond
respond-IsBounded prepare m e h = ground arith
respond-IsBounded accept m e h = ground arith
respond-IsBounded _ m e h = h

-- In every history the proposal accepted in an instance is at most the highest one seen.
pub run-IsBounded : (ps : List Packet) (i : ℕ) → IsBounded (protocol (run init ps) i)
unfolding protocol lookup
run-IsBounded ps i = run_induction IsBounded respond-IsBounded init ps i (omega arith)

-- `e` came after `a`: it holds the same value, or one accepted under a higher number.
abbrev pub Later : AcceptorProtocol → AcceptorProtocol → Type 0
Later a e =
    (a.proposal_accepted < e.proposal_accepted)
    ⊎ ((a.proposal_accepted ≡ e.proposal_accepted) × (a.value ≡ e.value))

respond-Later :
    (a : AcceptorProtocol) (t : MsgType) (m : Msg) (e : AcceptorProtocol)
    → IsBounded e × Later a e
    → IsBounded (respond t m e).0 × Later a (respond t m e).0
unfolding respond
respond-Later a prepare m e h = ground arith
respond-Later a accept m e h = ground arith
respond-Later a _ m e h = h

-- Between two points of a history the value accepted in an instance stays, or a value is accepted
-- under a strictly higher proposal number: no number ever holds two values.
pub accepted_stable :
    (ps qs : List Packet) (i : ℕ)
    → Later (protocol (run init ps) i) (protocol (run (run init ps) qs) i)
accepted_stable ps qs i =
    (run_induction (λ e. IsBounded e × Later a e) (respond-Later a) (run init ps) qs i
      (run-IsBounded ps i, inr (refl, refl))).1
  where
    a : AcceptorProtocol
    a = protocol (run init ps) i

-- A PREPARE with proposal 0 is rejected by every acceptor, and changes no instance.
pub prepare_zero_rejected :
    (ac : Acceptor) (v from : Text) (i : ℕ)
    → ((operate ac (packet prepare 0 v i from)).1
        ≡ some (msg prepare_reject (protocol ac i).proposal [] i))
      × ((j : ℕ) → protocol (operate ac (packet prepare 0 v i from)).0 j ≡ protocol ac j)
unfolding respond
prepare_zero_rejected ac v from i = (
  ground (arith, reply-operate ac (packet prepare 0 v i from)),
  λ j. ground (arith, protocol-operate ac (packet prepare 0 v i from) j),
)

-- PREPARE_OK does not say which proposal it answers: two granted PREPAREs of different numbers
-- and senders get the same reply.
pub prepare_ok_blind :
    (ac : Acceptor) (i n m : ℕ) (v w from peer : Text)
    → (protocol ac i).proposal < n
    → (protocol ac i).proposal < m
    → (operate ac (packet prepare n v i from)).1 ≡ (operate ac (packet prepare m w i peer)).1
unfolding respond
prepare_ok_blind ac i n m v w from peer hn hm = ground (
  arith,
  reply-operate ac (packet prepare n v i from),
  reply-operate ac (packet prepare m w i peer),
)
