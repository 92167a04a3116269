-- ===== src/Paxos/Coordinator/Choice.antt =====
-- contrib/libpaxos/coordinator.go: which value a coordinator sends in phase 2.
mod Evidence
pub mod Sent
use airline_booking.Prelude.{
  ℕ, zero, suc, ◌+◌, ◌-◌, ◌*◌, ◌/◌, ◌%◌, ◌≤◌, ◌<◌, ◌≡◌, refl, sym, ap, subst, ◌∙◌, ◌≢◌, ◌↔◌, ◌⊎◌,
  inl, inr, Bool, true, false, not, ◌&&◌, ◌||◌, Option, none, some, List, [], ◌∷◌, ◌++◌, map, arith,
  ltb, leb, nat_beq, if◌then◌else◌, ltb→lt, leb→le, nat_beq_iff, Eq, ◌==◌, nat_eq, Bool-cases,
  Option-cases, beq_self, beq_ne, length, get_elem?, length-append, All, All-append, All-mono, Any,
  Any-append_left, Any-append_right, elem, Distinct, Text, codes, text_beq, text_beq_iff, text_eq,
}
use airline_booking.Prelude.Assoc.{
  Assoc, lookup, insert, delete, lookup-insert, lookup-delete, length-insert_new, elem-missing,
}
use airline_booking.Paxos.Types.{prepare_ok, Msg, msg}
use airline_booking.Paxos.Coordinator.{CoordinatorProtocol, hear, prepared, record_response}

-- A PREPARE_OK: the accepted proposal, its value, and the replica that sent it.
pub record Reply : Type 0 where
  pub number : ℕ
  pub value : Text
  pub from : Text

unfoldable pub cons_some : Option Msg → List Msg → List Msg
cons_some none ms = ms
cons_some (some m) ms = m ∷ ms

-- The entry after a sequence of PREPARE_OKs, and the messages sent on the way.
unfoldable pub answers : ℕ → ℕ → CoordinatorProtocol → List Reply → CoordinatorProtocol × List Msg
unfolding cons_some
answers quorum i e [] = (e, [])
answers quorum i e (r ∷ rs) =
    let (e', out) = prepared quorum (msg prepare_ok r.number r.value i) r.from e in
    let (e'', ms) = answers quorum i e' rs in (e'', cons_some out ms)

-- Once a value has been chosen, further replies change nothing and send nothing.
pub sends_once :
    (quorum i : ℕ) (e : CoordinatorProtocol) (rs : List Reply)
    → e.nvalue ≢ []
    → answers quorum i e rs ≡ (e, [])
unfolding answers prepared
sends_once quorum i e [] h = refl
sends_once quorum i e (r ∷ rs) h = ground (arith, beq_ne h, sends_once quorum i e rs h)
