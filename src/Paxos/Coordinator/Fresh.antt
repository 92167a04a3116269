-- ===== src/Paxos/Coordinator/Fresh.antt =====
-- contrib/libpaxos/coordinator.go: the proposal numbers of a whole history.
use native.Mathlib.Nat.{add-mul-mod_self_right, mod-eq_of_lt}
use airline_booking.Prelude.{
  ℕ, suc, ◌%◌, ◌≤◌, ◌<◌, ◌≡◌, refl, subst, ◌∙◌, ◌≢◌, false, Option, none, some, List, [], ◌∷◌,
  arith, nat_eq, All, elem, text_eq,
}
use airline_booking.Paxos.Types.{MsgType, prepare, Msg, Packet}
use airline_booking.Paxos.Coordinator.{Coordinator, init, collect, run, issued, prepare_numbers}
use airline_booking.Paxos.Coordinator.Numbers.{IsNumbered, init-IsNumbered, Sends, operate_total}

-- Strictly increasing, from a bound on.
abbrev pub Ascends : ℕ → List ℕ → Type 0
Ascends lo [] = Unit {0}
Ascends lo (n ∷ ns) = (lo ≤ n) × Ascends (suc n) ns

Ascends-weaken : (lo hi : ℕ) (ns : List ℕ) → lo ≤ hi → Ascends hi ns → Ascends lo ns
Ascends-weaken lo hi [] h a = tt
Ascends-weaken lo hi (n ∷ ns) h a = (omega arith, a.1)

-- The numbers of one class.
abbrev pub InClass : ℕ → ℕ → ℕ → Type 0
InClass nodepos nodes n = n % nodes ≡ nodepos

due-InClass :
    (c : Coordinator)
    → IsNumbered c
    → c.nodepos < c.nodes
    → InClass c.nodepos c.nodes c.nextproposal
due-InClass c h lt = rw (h.ours, add-mul-mod_self_right c.nodepos h.rounds c.nodes, mod-eq_of_lt lt)

-- The PREPAREs among `ms` ascend from `lo` on, within one class.
record IsOrdered (nodepos nodes lo : ℕ) (ns : List ℕ) : Type 0 where
  ascends : Ascends lo ns
  in_class : All (InClass nodepos nodes) ns

module _ (nodepos nodes lo hi : ℕ) (le : lo ≤ hi) (due : InClass nodepos nodes lo) where
  issued-IsOrdered :
      (t : MsgType) (n : ℕ) (ns : List ℕ)
      → (t ≡ prepare → (n ≡ lo) × (n < hi))
      → IsOrdered nodepos nodes hi ns
      → IsOrdered nodepos nodes lo (issued t n ns)
  unfolding issued
  issued-IsOrdered prepare n ns h o =
      let (at, below) = h refl in
      record {
        ascends = (omega arith, Ascends-weaken (suc n) hi ns below o.ascends);
        in_class = (rw at due, o.in_class);
      }
  issued-IsOrdered _ n ns h o = record {
    ascends = Ascends-weaken lo hi ns le o.ascends;
    in_class = o.in_class;
  }

abbrev Result : Type 0
Result = Option (Coordinator × List Msg)

-- The run ends, and what it sends is in order.
abbrev EndsInOrder : ℕ → ℕ → ℕ → Result → Type 0
EndsInOrder nodepos nodes lo r =
    (c' : Coordinator) × (ms : List Msg) × (r ≡ some (c', ms))
    × IsOrdered nodepos nodes lo (prepare_numbers ms)

ends_cons :
    (nodepos nodes : ℕ) (c c' : Coordinator) (out : Option Msg) (r : Result)
    → c.nextproposal ≤ c'.nextproposal
    → InClass nodepos nodes c.nextproposal
    → Sends c c' out
    → EndsInOrder nodepos nodes c'.nextproposal r
    → EndsInOrder nodepos nodes c.nextproposal (collect out r)
unfolding collect prepare_numbers
ends_cons nodepos nodes c c' none r le due s (c'', ms, e, o) = (
  c'',
  ms,
  rw (e, collect),
  record {
    ascends = Ascends-weaken c.nextproposal c'.nextproposal (prepare_numbers ms) le o.ascends;
    in_class = o.in_class;
  },
)
ends_cons nodepos nodes c c' (some m) r le due s (c'', ms, e, o) = (
  c'',
  m ∷ ms,
  rw (e, collect),
  issued-IsOrdered nodepos nodes c.nextproposal c'.nextproposal le due m.msg_type m.proposal
      (prepare_numbers ms) s o,
)

run-EndsInOrder :
    (nodepos nodes : ℕ) (c : Coordinator) (ps : List Packet)
    → IsNumbered c
    → nodepos < nodes
    → c.nodepos ≡ nodepos
    → c.nodes ≡ nodes
    → EndsInOrder nodepos nodes c.nextproposal (run c ps)
unfolding run prepare_numbers
run-EndsInOrder nodepos nodes c [] h lt place width =
    (c, [], refl, record { ascends = tt; in_class = tt })
run-EndsInOrder nodepos nodes c (p ∷ ps) h lt place width =
    let (c', out, e, a, s) = operate_total c p h in
    let due : InClass nodepos nodes c.nextproposal =
      rw (← place, ← width) (due-InClass c h (rw (place, width) lt)) in
    rw (e, run)
      (ends_cons nodepos nodes c c' out (run c' ps) a.not_less due s
        (run-EndsInOrder nodepos nodes c' ps a.numbered lt (a.place ∙ place) (a.width ∙ width)))

-- Node `nodepos` of `nodes`, over any packets: every packet is handled, and the PREPAREs that the
-- coordinator sends carry strictly increasing numbers that leave the remainder `nodepos`.
pub proposal_numbers :
    (nodepos nodes quorum : ℕ) (ps : List Packet)
    → nodepos < nodes
    → (c : Coordinator) × (ms : List Msg) × (run (init nodepos nodes quorum) ps ≡ some (c, ms))
      × Ascends nodepos (prepare_numbers ms)
      × All (InClass nodepos nodes) (prepare_numbers ms)
proposal_numbers nodepos nodes quorum ps lt =
    let (c, ms, e, o) =
      run-EndsInOrder nodepos nodes (init nodepos nodes quorum) ps
        (init-IsNumbered nodepos nodes quorum (omega arith)) lt refl refl in
    (c, ms, e, o.ascends, o.in_class)

class-not-elem :
    (a b nodes n : ℕ) (ns : List ℕ)
    → a ≢ b
    → InClass a nodes n
    → All (InClass b nodes) ns
    → elem n ns ≡ false
class-not-elem a b nodes n [] h c cs = refl
class-not-elem a b nodes n (m ∷ ns) h c cs =
    ground (arith, class-not-elem a b nodes n ns h c cs.1, c, cs.0)

sent-InClass :
    (a nodes q : ℕ) (ps : List Packet) (c : Coordinator) (ms : List Msg)
    → a < nodes
    → run (init a nodes q) ps ≡ some (c, ms)
    → All (InClass a nodes) (prepare_numbers ms)
sent-InClass a nodes q ps c ms lt e =
    let (c', ms', e', up, all) = proposal_numbers a nodes q ps lt in
    let same : ms' ≡ ms = cc (e, e') in
    subst (λ x. All (InClass a nodes) (prepare_numbers x)) same all

none_shared :
    (a b nodes : ℕ) (ms ns : List ℕ)
    → a ≢ b
    → All (InClass a nodes) ms
    → All (InClass b nodes) ns
    → All (λ n. elem n ns ≡ false) ms
none_shared a b nodes [] ns h ca cb = tt
none_shared a b nodes (n ∷ ms) ns h ca cb =
    (class-not-elem a b nodes n ns h ca.0 cb, none_shared a b nodes ms ns h ca.1 cb)

-- No proposal number is issued by two coordinators of different positions, whatever packets each
-- of them gets.
pub proposals_unique :
    (a b nodes q r : ℕ) (ps qs : List Packet) (c d : Coordinator) (ms ns : List Msg)
    → a ≢ b
    → a < nodes
    → b < nodes
    → run (init a nodes q) ps ≡ some (c, ms)
    → run (init b nodes r) qs ≡ some (d, ns)
    → All (λ n. elem n (prepare_numbers ns) ≡ false) (prepare_numbers ms)
proposals_unique a b nodes q r ps qs c d ms ns h la lb ea eb =
    none_shared a b nodes (prepare_numbers ms) (prepare_numbers ns) h
      (sent-InClass a nodes q ps c ms la ea) (sent-InClass b nodes r qs d ns lb eb)
