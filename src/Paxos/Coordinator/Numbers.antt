-- ===== src/Paxos/Coordinator/Numbers.antt =====
-- contrib/libpaxos/coordinator.go: proposal numbers are fresh and differ between nodes.
use airline_booking.Prelude.{
  ℕ, zero, suc, ◌+◌, ◌-◌, ◌*◌, ◌≤◌, ◌<◌, ◌≡◌, refl, ◌⊎◌, inl, inr, Option, none, some, arith, ltb,
  nat_eq, Bool-cases, Text, text_eq,
}
use airline_booking.Paxos.Types.{MsgType, prepare, prepare_ok, prepare_reject, propose, learn, Msg}
use airline_booking.Paxos.Coordinator.{
  Coordinator, init, raise, new_proposal_number, start, on_prepare_ok, dispatch, operate, Packet,
}

-- What the loop reaches: the first number of the arithmetic progression that is not below `high`.
raise_total :
    (fuel nodes high next : ℕ)
    → 0 < nodes
    → high - next < fuel
    → (r : ℕ) × (k : ℕ) × (raise fuel nodes high next ≡ some r)
      × (r ≡ next + k * nodes)
      × (high ≤ r)
      × ((r ≡ next) ⊎ (r < high + nodes))
unfolding raise
raise_total zero nodes high next pos enough = absurd (omega arith)
raise_total (suc fuel) nodes high next pos enough = elim (Bool-cases (ltb next high)) [
  | inl more ↦
      let (r, k, e, s, ge, lt) = raise_total fuel nodes high (next + nodes) pos (ground arith) in
      (r, k + 1, rw more e, grind arith, ge, inr (ground arith))
  | inr done ↦ (next, 0, rw done refl, omega arith, ground arith, inl refl)
]

-- Node `nodepos` of `nodes` takes the numbers of one residue class.
pub record IsNumbered (c : Coordinator) : Type 0 where
  pub some_nodes : 0 < c.nodes
  pub rounds : ℕ
  pub ours : c.nextproposal ≡ c.nodepos + rounds * c.nodes

pub init-IsNumbered :
    (nodepos nodes quorum : ℕ) → 0 < nodes → IsNumbered (init nodepos nodes quorum)
init-IsNumbered nodepos nodes quorum h = record { some_nodes = h; rounds = 0; ours = omega arith }

-- The loop ends, the number given out is the one that was due, and the next one is larger, is not
-- below the proposal that a rejection named, and is either one round of the nodes after the number
-- given out or less than a round above the rejection's proposal.
pub record Issued (c : Coordinator) (n : ℕ) (c' : Coordinator) : Type 0 where
  pub due : n ≡ c.nextproposal
  pub larger : n < c'.nextproposal
  pub not_below : c.highproposal ≤ c'.nextproposal
  pub bounded : (c'.nextproposal ≡ n + c.nodes) ⊎ (c'.nextproposal < c.highproposal + c.nodes)
  pub numbered : IsNumbered c'
  pub same_place : (c'.nodepos ≡ c.nodepos) × (c'.nodes ≡ c.nodes)

-- newProposalNumber ends when there is at least one node and gives out the number that was due; the
-- next one is larger, is not below the proposal that a rejection named, and is either one round of
-- the nodes after the number given out or less than a round above the rejection's proposal.
pub new_proposal_number_total :
    (c : Coordinator)
    → IsNumbered c
    → (n : ℕ) × (c' : Coordinator) × (new_proposal_number c ≡ some (n, c')) × Issued c n c'
unfolding new_proposal_number
new_proposal_number_total c h =
    let (r, k, e, s, ge, lt) =
      raise_total (suc c.highproposal) c.nodes c.highproposal (c.nextproposal + c.nodes)
        h.some_nodes (omega arith) in
    (
      c.nextproposal,
      record c { nextproposal = r },
      rw (e, new_proposal_number),
      record {
        due = refl;
        larger = grind (arith, h.some_nodes);
        not_below = ge;
        bounded = lt;
        numbered = record {
          some_nodes = h.some_nodes;
          rounds = h.rounds + 1 + k;
          ours = grind (arith, h.ours, s);
        };
        same_place = (refl, refl);
      },
    )

-- The invariant across packets: the class is kept and the next number never falls.
pub record Advances (c c' : Coordinator) : Type 0 where
  pub numbered : IsNumbered c'
  pub place : c'.nodepos ≡ c.nodepos
  pub width : c'.nodes ≡ c.nodes
  pub not_less : c.nextproposal ≤ c'.nextproposal

-- A PREPARE carries the number that was due, and the next one due is larger.
abbrev pub Sends : Coordinator → Coordinator → Option Msg → Type 0
Sends c c' none = Unit
Sends c c' (some m) =
    m.msg_type ≡ prepare → (m.proposal ≡ c.nextproposal) × (m.proposal < c'.nextproposal)

-- PREPARE_OK moves no counter and sends no PREPARE.
record IsQuiet (c c' : Coordinator) (out : Option Msg) : Type 0 where
  place : c'.nodepos ≡ c.nodepos
  width : c'.nodes ≡ c.nodes
  next : c'.nextproposal ≡ c.nextproposal
  silent : Sends c c' out

on_prepare_ok-IsQuiet :
    (c : Coordinator) (m : Msg) (from : Text)
    → IsQuiet c (on_prepare_ok c m from).0 (on_prepare_ok c m from).1
unfolding on_prepare_ok
on_prepare_ok-IsQuiet c m from = ground arith

quiet-Advances :
    {c c' : Coordinator} {out : Option Msg} → IsNumbered c → IsQuiet c c' out → Advances c c'
quiet-Advances {c} {c'} h q = ground arith

dispatch_total :
    (t : MsgType) (c : Coordinator) (m : Msg) (from : Text)
    → IsNumbered c
    → (c' : Coordinator) × (out : Option Msg) × (dispatch t c m from ≡ some (c', out))
      × Advances c c'
      × Sends c c' out
unfolding dispatch
dispatch_total propose c m from h =
    let (n, c', e, i) = new_proposal_number_total c h in
    (
      (start m.value (n, c')).0,
      (start m.value (n, c')).1,
      rw (e, dispatch),
      unfold start in ground arith,
      unfold start in ground arith,
    )
dispatch_total prepare_ok c m from h =
    let q = on_prepare_ok-IsQuiet c m from in
    ((on_prepare_ok c m from).0, (on_prepare_ok c m from).1, refl, quiet-Advances h q, q.silent)
dispatch_total prepare_reject c m from h =
    (record c { highproposal = m.proposal }, none, refl, ground arith, tt)
dispatch_total learn c m from h = (c, _, refl, ground arith, λ e. cc)
dispatch_total _ c m from h = (c, none, refl, ground arith, tt)

-- Where there are nodes, every packet is handled: the loop ends, the numbers stay in the node's
-- class, the next one never falls, and a PREPARE that is sent takes the number that was due.
pub operate_total :
    (c : Coordinator) (p : Packet)
    → IsNumbered c
    → (c' : Coordinator) × (out : Option Msg) × (operate c p ≡ some (c', out))
      × Advances c c'
      × Sends c c' out
unfolding operate
operate_total c p h = dispatch_total p.packet_msg.msg_type c p.packet_msg p.packet_from h
