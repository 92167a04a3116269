-- ===== src/Paxos/Acceptor/Promise.antt =====
-- contrib/libpaxos/acceptor.go: promises are kept, whatever arrives later.
use airline_booking.Prelude.{
  ℕ, ◌≤◌, ◌<◌, ◌≡◌, refl, sym, ap, subst, ◌∙◌, Bool, true, false, some, List, [], ◌∷◌, arith,
  nat_beq, if◌then◌else◌, nat_beq_iff, nat_eq, Text, text_eq,
}
use airline_booking.Prelude.Assoc.{lookup-insert}
use airline_booking.Paxos.Types.{
  MsgType, prepare, prepare_ok, accept, accept_reject, Msg, Packet, msg, packet,
}
use airline_booking.Paxos.Acceptor.{Acceptor, AcceptorProtocol, protocol, respond, operate, run}

module _ (ac : Acceptor) (p : Packet) where
  open p.packet_msg use {msg_type, slot}

  -- The reply is that of the entry that `operate` finds.
  pub reply-operate : (operate ac p).1 ≡ (respond msg_type p.packet_msg (protocol ac slot)).1
  unfolding operate
  reply-operate = refl

  -- A packet changes the entry of its own instance only.
  pub protocol-operate :
      (i : ℕ)
      → protocol (operate ac p).0 i ≡ (
          if nat_beq slot i
          then (respond msg_type p.packet_msg (protocol ac slot)).0
          else protocol ac i)
  unfolding protocol operate
  protocol-operate i =
      ground
        (arith, lookup-insert slot i (respond msg_type p.packet_msg (protocol ac slot)).0 ac.proto)

-- A predicate on the entry of one instance that `respond` keeps holds after every run.
pub run_induction :
    (P : AcceptorProtocol → Type 0)
    → ((t : MsgType) (m : Msg) (e : AcceptorProtocol) → P e → P (respond t m e).0)
    → (ac : Acceptor) (ps : List Packet) (i : ℕ) → P (protocol ac i)
    → P (protocol (run ac ps) i)
unfolding run
run_induction P keep ac [] i h = h
run_induction P keep ac (p ∷ ps) i h =
    run_induction P keep (operate ac p).0 ps i
      (rw (protocol-operate ac p i) (step (nat_beq p.packet_msg.slot i) refl))
  where
    open p.packet_msg use {msg_type, slot}

    step :
        (b : Bool)
        → nat_beq slot i ≡ b
        → P (if b then (respond msg_type p.packet_msg (protocol ac slot)).0 else protocol ac i)
    step true e =
        keep msg_type p.packet_msg (protocol ac slot)
          (subst (λ j. P (protocol ac j)) (sym ((nat_beq_iff slot i).0 e)) h)
    step false e = h

respond_mono :
    (n : ℕ) (t : MsgType) (m : Msg) (e : AcceptorProtocol)
    → n ≤ e.proposal
    → n ≤ (respond t m e).0.proposal
unfolding respond
respond_mono n prepare m e h = ground arith
respond_mono n accept m e h = ground arith
respond_mono n _ m e h = omega arith

-- The highest proposal number seen in an instance never falls, whatever packets arrive.
pub promise_mono :
    (ac : Acceptor) (ps : List Packet) (i : ℕ)
    → (protocol ac i).proposal ≤ (protocol (run ac ps) i).proposal
promise_mono ac ps i =
    run_induction (λ e. (protocol ac i).proposal ≤ e.proposal)
      (respond_mono (protocol ac i).proposal) ac ps i (omega arith)

prepared :
    (m : Msg) (e : AcceptorProtocol) (n : ℕ) (v : Text)
    → (respond prepare m e).1 ≡ some (msg prepare_ok n v m.slot)
    → (e.proposal < m.proposal) × ((respond prepare m e).0.proposal ≡ m.proposal)
unfolding respond
prepared m e n v h = ground arith

outbid :
    (m : Msg) (e : AcceptorProtocol)
    → m.proposal < e.proposal
    → respond accept m e ≡ (e, some (msg accept_reject 0 [] 0))
unfolding respond
outbid m e h = ground arith

module _ (ac : Acceptor) (i n : ℕ) (v from : Text) where
  abbrev granted : Acceptor
  granted = (operate ac (packet prepare n v i from)).0

  promised :
      (k : ℕ) (u : Text)
      → (operate ac (packet prepare n v i from)).1 ≡ some (msg prepare_ok k u i)
      → n ≤ (protocol granted i).proposal
  promised k u h = ground (
    arith,
    prepared (msg prepare n v i) (protocol ac i) k u,
    reply-operate ac (packet prepare n v i from),
    protocol-operate ac (packet prepare n v i from) i,
  )

  -- After PREPARE_OK for proposal n in an instance, and any further packets, an ACCEPT with a lower
  -- number is answered by ACCEPT_REJECT and leaves every instance as it was.
  pub promise_kept :
      (k : ℕ) (u : Text) (ps : List Packet) (m : ℕ) (w peer : Text)
      → (operate ac (packet prepare n v i from)).1 ≡ some (msg prepare_ok k u i)
      → m < n
      → let later = run (operate ac (packet prepare n v i from)).0 ps in
        ((operate later (packet accept m w i peer)).1 ≡ some (msg accept_reject 0 [] 0))
        × ((j : ℕ) → protocol (operate later (packet accept m w i peer)).0 j ≡ protocol later j)
  promise_kept k u ps m w peer h lt =
      let later = run granted ps in
      let refused =
        outbid (msg accept m w i) (protocol later i)
          (omega (arith, promised k u h, promise_mono granted ps i)) in
      (
        reply-operate later (packet accept m w i peer) ∙ ap (λ r. r.1) refused,
        λ j. ground (arith, protocol-operate later (packet accept m w i peer) j, refused),
      )
