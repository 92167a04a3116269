-- ===== src/Paxos/Coordinator/Choice/Evidence.antt =====
-- contrib/libpaxos/coordinator.go: what stands behind the entry of an open round.
use airline_booking.Prelude.{
  ℕ, ◌≤◌, ◌≡◌, refl, ◌⊎◌, inl, inr, Bool, true, some, List, [], ◌∷◌, ◌++◌, arith, ltb, nat_eq,
  Bool-cases, Option-cases, length, All, All-append, All-mono, Any, Any-append_left,
  Any-append_right, Distinct, Text, text_beq_iff, text_eq, text_beq, elem, false, ◌∙◌, subst, ◌<◌,
}
use airline_booking.Prelude.Assoc.{
  Assoc, lookup, insert, lookup-insert, length-insert_new, elem-missing, delete, lookup-delete,
}
use airline_booking.Paxos.Types.{prepare_ok, msg}
use airline_booking.Paxos.Coordinator.{CoordinatorProtocol, hear, record_response}
use airline_booking.Paxos.Coordinator.Choice.{Reply}

-- The replicas that have answered, each once.
pub record Electorate (hs : List Reply) (m : Assoc Text Bool) : Type 0 where
  pub voters : List Text
  pub distinct : Distinct voters
  pub size : length voters ≡ length m
  pub known : All (λ w. lookup w m ≡ some true) voters
  pub heard : All (λ w. Any (λ r. r.from ≡ w) hs) voters
  pub complete : All (λ r. (b : Bool) × (lookup r.from m ≡ some b)) hs

module _ (hs : List Reply) (r : Reply) (m : Assoc Text Bool) (v : Electorate hs m) where
  still_heard : All (λ w. Any (λ s. s.from ≡ w) (hs ++ r ∷ [])) v.voters
  still_heard =
      All-mono (λ w. Any (λ s. s.from ≡ w) hs) _
        (λ w. Any-append_left (λ s. s.from ≡ w) hs (r ∷ [])) v.voters v.heard

  still_known : All (λ w. lookup w (insert r.from true m) ≡ some true) v.voters
  still_known =
      All-mono (λ w. lookup w m ≡ some true) _
        (λ w k. ground (arith, lookup-insert r.from w true m)) v.voters v.known

  still_complete : All (λ s. (b : Bool) × (lookup s.from (insert r.from true m) ≡ some b)) hs
  still_complete =
      All-mono (λ s. (b : Bool) × (lookup s.from m ≡ some b)) _
        (λ s (b, k). elim (Bool-cases (text_beq r.from s.from)) [
          | inl same ↦ (true, ground (arith, lookup-insert r.from s.from true m, same))
          | inr other ↦ (b, ground (arith, lookup-insert r.from s.from true m, other) ∙ k)
        ])
        hs v.complete

  pub record_response-Electorate : Electorate (hs ++ r ∷ []) (record_response r.from m)
  unfolding record_response
  record_response-Electorate = elim (Option-cases (lookup r.from m)) [
    | inr (b, old) ↦
        rw (old, record_response)
          (record {
            voters = v.voters;
            distinct = v.distinct;
            size = v.size;
            known = v.known;
            heard = still_heard;
            complete = All-append _ hs (r ∷ []) v.complete ((b, old), tt);
          })
    | inl new ↦
        rw (new, record_response)
          (record {
            voters = r.from ∷ v.voters;
            distinct = (elem-missing r.from true m v.voters new v.known, v.distinct);
            size = omega (arith, length-insert_new r.from true m new, v.size);
            known = (
              ground (arith, lookup-insert r.from r.from true m, text_beq_iff r.from r.from),
              still_known,
            );
            heard = (Any-append_right (λ s. s.from ≡ r.from) hs (r ∷ []) (inl refl), still_heard);
            complete = All-append _ hs (r ∷ []) still_complete (
              (
                true,
                ground (arith, lookup-insert r.from r.from true m, text_beq_iff r.from r.from),
              ),
              tt,
            );
          })
  ]

length-delete_le : (k : Text) (m : Assoc Text Bool) → length (delete k m) ≤ length m
unfolding delete
length-delete_le k [] = omega arith
length-delete_le k ((j, b) ∷ m) = ground (arith, length-delete_le k m)

length-delete_present :
    (k : Text) (b : Bool) (m : Assoc Text Bool)
    → lookup k m ≡ some b
    → length (delete k m) < length m
unfolding lookup delete
length-delete_present k b [] h = cc
length-delete_present k b ((j, c) ∷ m) h = elim (Bool-cases (text_beq j k)) [
  | inl same ↦ ground (arith, same, length-delete_le k m)
  | inr other ↦ ground (arith, other, h, length-delete_present k b m)
]

-- Those that are left are in the map without `w`.
others_kept :
    (w : Text) (ws : List Text) (m : Assoc Text Bool)
    → elem w ws ≡ false
    → All (λ u. (b : Bool) × (lookup u m ≡ some b)) ws
    → All (λ u. (b : Bool) × (lookup u (delete w m) ≡ some b)) ws
others_kept w [] m out a = tt
others_kept w (u ∷ ws) m out ((b, here), a) = (
  (b, ground (arith, lookup-delete w u m, text_beq_iff w u, text_beq_iff u w, out) ∙ here),
  others_kept w ws m (ground (arith, out)) a,
)

-- A map has no fewer entries than it has different keys.
keys_bound :
    (ws : List Text) (m : Assoc Text Bool)
    → Distinct ws
    → All (λ u. (b : Bool) × (lookup u m ≡ some b)) ws
    → length ws ≤ length m
keys_bound [] m d a = omega arith
keys_bound (w ∷ ws) m (out, d) ((b, here), a) = omega (
  arith,
  keys_bound ws (delete w m) d (others_kept w ws m out a),
  length-delete_present w b m here,
)

answered_by :
    (hs : List Reply) (m : Assoc Text Bool) (w : Text)
    → All (λ r. (b : Bool) × (lookup r.from m ≡ some b)) hs
    → Any (λ r. r.from ≡ w) hs
    → (b : Bool) × (lookup w m ≡ some b)
answered_by [] m w a h = elim h [ ]
answered_by (r ∷ hs) m w a (inl e) = subst (λ u. (b : Bool) × (lookup u m ≡ some b)) e a.0
answered_by (r ∷ hs) m w a (inr h) = answered_by hs m w a.1 h

-- No more different replicas have answered than the coordinator has recorded.
pub recorded_bound :
    (hs : List Reply) (m : Assoc Text Bool) (ws : List Text)
    → Electorate hs m
    → Distinct ws
    → All (λ w. Any (λ r. r.from ≡ w) hs) ws
    → length ws ≤ length m
recorded_bound hs m ws v d a =
    keys_bound ws m d (All-mono _ _ (λ w h. answered_by hs m w v.complete h) ws a)

-- The number and the value that the replies heard so far stand for.
pub record Highest (hs : List Reply) (n : ℕ) (v : Text) : Type 0 where
  pub bound : All (λ r. r.number ≤ n) hs
  pub source : (n ≡ 0) ⊎ Any (λ r. (r.number ≡ n) × (r.value ≡ v)) hs

pub hear-Highest :
    (hs : List Reply) (r : Reply) (i : ℕ) (e : CoordinatorProtocol)
    → Highest hs e.aproposal e.avalue
    → Highest
        (hs ++ r ∷ [])
        (hear (msg prepare_ok r.number r.value i) e).aproposal
        (hear (msg prepare_ok r.number r.value i) e).avalue
unfolding hear
hear-Highest hs r i e h = elim (Bool-cases (ltb e.aproposal r.number)) [
  | inl up ↦ rw up (record {
    bound =
        All-append _ hs (r ∷ [])
          (All-mono (λ s. s.number ≤ e.aproposal) _ (λ s k. ground arith) hs h.bound)
          (omega arith, tt);
    source = inr (
        Any-append_right (λ s. (s.number ≡ r.number) × (s.value ≡ r.value)) hs (r ∷ [])
          (inl (refl, refl)));
  })
  | inr same ↦ rw same (record {
    bound = All-append _ hs (r ∷ []) h.bound (ground arith, tt);
    source = elim h.source [
      | inl z ↦ inl z
      | inr s ↦
          inr (Any-append_left (λ t. (t.number ≡ e.aproposal) × (t.value ≡ e.avalue)) hs (r ∷ []) s)
    ];
  })
]
