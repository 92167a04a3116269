-- ===== src/Tran/Layer/Verdict.antt =====
-- contrib/tranlayer/coordinator.go: what happens when a vote comes in.
use mathlib.Core.List.{append-nil}
use airline_booking.Prelude.{
  false, elem, ℕ, ◌≡◌, refl, subst, inl, inr, some, List, [], ◌∷◌, ◌++◌, arith, nat_beq, nat_eq,
  Bool-cases, All, Any, Any-append_left, Any-append_right, Text, text_eq,
}
use airline_booking.Prelude.Assoc.{Assoc, lookup}
use airline_booking.Airline.Types.{commit}
use airline_booking.Tran.Types.{ActiveTrans, TranLayer, Effect, call, reply_status}
use airline_booking.Tran.Layer.{decision_args, send_decision, tell_client, announce, answer}
use airline_booking.Tran.Layer.Tally.{IsTallied}

abbrev pub IsConnected : Assoc Text ℕ → Text × ℕ → Type 0
IsConnected conns e = (conn : ℕ) × (lookup e.0 conns ≡ some conn)

-- A transaction that the coordinator keeps: its votes are tallied, it has a connection to every
-- participant and a client that waits, since nothing was sent to it yet.
pub record IsOpen (tl : TranLayer) (t : Text) (client : ℕ) (a : ActiveTrans) : Type 0 where
  pub tallied : IsTallied a
  pub connected : All (IsConnected a.ppt_map) a.commit_grp
  pub waits : lookup t tl.defer_trans_map ≡ some client
  pub unanswered : elem client tl.answered ≡ false

-- The participant of the entry, if it voted COMMIT, is sent the decision `d`.
abbrev pub IsTold : Text → Text → ℕ → Assoc Text ℕ → List Effect → Text × ℕ → Type 0
IsTold self t d conns es e =
    e.1 ≡ commit
    → (conn : ℕ) × (lookup e.0 conns ≡ some conn)
      × Any (λ x. x ≡ call conn (decision_args self t e.0 d)) es

IsTold-more :
    (self t : Text) (d : ℕ) (conns : Assoc Text ℕ) (es fs gs : List Effect) (m : Assoc Text ℕ)
    → All (IsTold self t d conns es) m
    → All (IsTold self t d conns (fs ++ (es ++ gs))) m
IsTold-more self t d conns es fs gs [] a = tt
IsTold-more self t d conns es fs gs (e ∷ m) a = (
  λ v.
      let (conn, here, sent) = a.0 v in
      (conn, here, Any-append_right _ fs (es ++ gs) (Any-append_left _ es gs sent)),
  IsTold-more self t d conns es fs gs m a.1,
)

send_decision_total :
    (self t : Text) (d : ℕ) (conns m : Assoc Text ℕ)
    → All (IsConnected conns) m
    → (es : List Effect) × (send_decision self t d conns m ≡ some es)
      × All (IsTold self t d conns es) m
unfolding send_decision
send_decision_total self t d conns [] a = ([], refl, tt)
send_decision_total self t d conns ((p, v) ∷ m) a =
    let (es, e, told) = send_decision_total self t d conns m a.1 in
    let (conn, here) = a.0 in
    elim (Bool-cases (nat_beq v commit)) [
      | inl hit ↦ (
        call conn (decision_args self t p d) ∷ es,
        rw (hit, send_decision, here, e),
        (
          λ _. (conn, here, inl refl),
          subst (λ fs. All (IsTold self t d conns (call conn (decision_args self t p d) ∷ fs)) m)
              (append-nil es)
              (IsTold-more self t d conns es (call conn (decision_args self t p d) ∷ []) [] m told),
        ),
      )
      | inr miss ↦
          (es, rw (miss, send_decision, e), (λ v'. absurd (ground (arith, miss, v')), told))
    ]

-- The decision of an open transaction reaches its participants and its client.
pub record Announced (tl : TranLayer) (t : Text) (a : ActiveTrans) (client : ℕ) (es : List Effect)
    : Type 0 where
  pub told : All (IsTold tl.myhostport t a.decision a.ppt_map es) a.commit_grp
  pub answered : Any (λ x. x ≡ reply_status client (nat_beq a.decision commit)) es

told_client :
    (tl : TranLayer) (t : Text) (client d : ℕ) (a : ActiveTrans)
    → IsOpen tl t client a
    → tell_client t d tl ≡ some (answer client tl, reply_status client (nat_beq d commit))
unfolding tell_client
told_client tl t client d a o = rw (tell_client, o.waits, o.unanswered) refl

pub announce_total :
    (tl : TranLayer) (t : Text) (client : ℕ) (a : ActiveTrans)
    → IsOpen tl t client a
    → (es : List Effect) × (announce t a tl ≡ some (answer client tl, es))
      × Announced tl t a client es
unfolding announce tell_client
announce_total tl t client a o =
    let (es, e, told) =
      send_decision_total tl.myhostport t a.decision a.ppt_map a.commit_grp o.connected in
    let last : List Effect = reply_status client (nat_beq a.decision commit) ∷ [] in
    (
      es ++ last,
      rw (announce, e, told_client tl t client a.decision a o) refl,
      record {
        told = IsTold-more tl.myhostport t a.decision a.ppt_map es [] last a.commit_grp told;
        answered = Any-append_right _ es last (inl refl);
      },
    )
