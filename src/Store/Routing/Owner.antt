-- ===== src/Store/Routing/Owner.antt =====
-- contrib/libstore and contrib/storageimpl: the loops find the owner of a key on the ring of IDs.
use airline_booking.Prelude.{
  ℕ, zero, suc, ◌+◌, ◌≤◌, ◌<◌, ◌≡◌, refl, sym, ap, subst, ◌∙◌, ◌⊎◌, inl, inr, Bool, true, false,
  ◌&&◌, some, List, [], ◌∷◌, arith, ltb, leb, if◌then◌else◌, nat_eq, Bool-cases, get_elem?, All,
  Any, text_eq,
}
use airline_booking.Store.Routing.{Node, id_at, lower, scan_large, owner_from}

-- The servers from index `i` on are `ns`.
abbrev pub IsSuffix : List Node → ℕ → List Node → Type 0
IsSuffix servers i ns = (j : ℕ) → get_elem? servers (i + j) ≡ get_elem? ns j

IsSuffix-next :
    (servers : List Node) (i : ℕ) (n : Node) (ns : List Node)
    → IsSuffix servers i (n ∷ ns)
    → IsSuffix servers (i + 1) ns
IsSuffix-next servers i n ns s j = ap (get_elem? servers) (omega arith) ∙ s (suc j)

id_at-get :
    (servers : List Node) (i : ℕ) (n : Node)
    → get_elem? servers i ≡ some n
    → id_at servers i ≡ n.node_id
unfolding id_at
id_at-get [] i n e = cc
id_at-get (m ∷ ms) zero n e = let one : m ≡ n = cc e in ap (λ (k : Node). k.node_id) one
id_at-get (m ∷ ms) (suc i) n e = id_at-get ms i n e

-- The candidate of a loop: lower than the one before, and than all that qualify.
pub record Lowest (qualifies : Node → Bool) (servers ns : List Node) (current r : ℕ) : Type 0 where
  pub not_above : id_at servers r ≤ id_at servers current
  pub least : All (λ n. qualifies n ≡ true → id_at servers r ≤ n.node_id) ns
  pub origin : (r ≡ current) ⊎ ((n : Node) × (get_elem? servers r ≡ some n) × (qualifies n ≡ true))

lower-Lowest :
    (qualifies : Node → Bool) (servers : List Node) (i : ℕ) (ns : List Node) (current : ℕ)
    → IsSuffix servers i ns
    → Lowest qualifies servers ns current (lower qualifies servers i ns current)
unfolding lower
lower-Lowest q servers i [] current s = record {
  not_above = omega arith;
  least = tt;
  origin = inl refl;
}
lower-Lowest q servers i (n ∷ ns) current s =
    let here : get_elem? servers i ≡ some n = ap (get_elem? servers) (omega arith) ∙ s 0 in
    let id : id_at servers i ≡ n.node_id = id_at-get servers i n here in
    let next = IsSuffix-next servers i n ns s in
    elim (Bool-cases (q n && ltb n.node_id (id_at servers current))) [
      | inl take ↦
          let k = lower-Lowest q servers (i + 1) ns i next in
          let k' : Lowest q servers (n ∷ ns) current (lower q servers (i + 1) ns i) = record {
            not_above = ground (arith, k.not_above, id, take);
            least = (λ _. omega (arith, k.not_above, id), k.least);
            origin = elim k.origin [
              | inl same ↦ inr (n, ap (get_elem? servers) same ∙ here, ground (arith, take))
              | inr found ↦ inr found
            ];
          } in
          rw (take) k'
      | inr leave ↦
          let k = lower-Lowest q servers (i + 1) ns current next in
          let k' : Lowest q servers (n ∷ ns) current (lower q servers (i + 1) ns current) = record {
            not_above = k.not_above;
            least = (λ ok. ground (arith, k.not_above, leave, ok), k.least);
            origin = k.origin;
          } in
          rw (leave) k'
    ]

-- What the first loop has found: a server whose ID is not below the key's.
abbrev pub Found : ℕ → List Node → ℕ × Bool → Type 0
Found keyid servers found =
    found.1 ≡ true
    → (n : Node) × (get_elem? servers found.0 ≡ some n) × (leb keyid n.node_id ≡ true)

pub scan-Found :
    (keyid : ℕ) (servers : List Node) (i : ℕ) (ns : List Node) (found : ℕ × Bool)
    → IsSuffix servers i ns
    → Found keyid servers found
    → Found keyid servers (scan_large keyid i ns found)
unfolding scan_large
scan-Found keyid servers i [] found s f = f
scan-Found keyid servers i (n ∷ ns) found s f =
    let here : get_elem? servers i ≡ some n = ap (get_elem? servers) (omega arith) ∙ s 0 in
    let next = IsSuffix-next servers i n ns s in
    elim (Bool-cases (leb keyid n.node_id)) [
      | inl hit ↦
          subst
            (λ b.
              Found keyid servers (scan_large keyid (i + 1) ns (if b then (i, true) else found)))
            (sym hit) (scan-Found keyid servers (i + 1) ns (i, true) next (λ _. (n, here, hit)))
      | inr miss ↦
          subst
            (λ b.
              Found keyid servers (scan_large keyid (i + 1) ns (if b then (i, true) else found)))
            (sym miss) (scan-Found keyid servers (i + 1) ns found next f)
    ]

-- The loop never forgets a server that it has found.
pub scan_kept :
    (keyid i : ℕ) (ns : List Node) (found : ℕ × Bool)
    → (scan_large keyid i ns found).1 ≡ false
    → (found.1 ≡ false)
      × ((scan_large keyid i ns found).0 ≡ found.0)
      × All (λ n. n.node_id < keyid) ns
unfolding scan_large
scan_kept keyid i [] found e = (e, refl, tt)
scan_kept keyid i (n ∷ ns) found e = elim (Bool-cases (leb keyid n.node_id)) [
  | inl hit ↦
      let (kept, _, _) =
        scan_kept keyid (i + 1) ns (i, true)
          (subst (λ b. (scan_large keyid (i + 1) ns (if b then (i, true) else found)).1 ≡ false) hit
            e) in
      cc kept
  | inr miss ↦
      let (kept, same, rest) = scan_kept keyid (i + 1) ns found (
        subst (λ b. (scan_large keyid (i + 1) ns (if b then (i, true) else found)).1 ≡ false) miss
          e) in
      (
        kept,
        subst (λ b. (scan_large keyid (i + 1) ns (if b then (i, true) else found)).0 ≡ found.0)
            (sym miss) same,
        (ground (arith, miss), rest),
      )
]

-- The successor of the key on the ring: the lowest ID that is not below the key's, or the lowest of all
-- where every ID is below it.
abbrev pub IsOwner : ℕ → List Node → ℕ → Type 0
IsOwner keyid servers id =
    Any (λ n. n.node_id ≡ id) servers
    × (((keyid ≤ id) × All (λ n. keyid ≤ n.node_id → id ≤ n.node_id) servers)
        ⊎ (All (λ n. n.node_id < keyid) servers × All (λ n. id ≤ n.node_id) servers))

at-Any :
    (servers : List Node) (i : ℕ) (n : Node)
    → get_elem? servers i ≡ some n
    → Any (λ m. m.node_id ≡ id_at servers i) servers
unfolding id_at
at-Any [] i n e = cc
at-Any (m ∷ ms) zero n e = inl refl
at-Any (m ∷ ms) (suc i) n e = inr (at-Any ms i n e)

pub whole : (servers : List Node) → IsSuffix servers 0 servers
whole servers j = ap (get_elem? servers) (omega arith)

least_of_all :
    (servers ns : List Node) (r : ℕ)
    → All (λ n. true ≡ true → id_at servers r ≤ n.node_id) ns
    → All (λ n. id_at servers r ≤ n.node_id) ns
least_of_all servers [] r a = tt
least_of_all servers (n ∷ ns) r a = (a.0 refl, least_of_all servers ns r a.1)

least_above :
    (keyid : ℕ) (servers ns : List Node) (r : ℕ)
    → All (λ n. leb keyid n.node_id ≡ true → id_at servers r ≤ n.node_id) ns
    → All (λ n. keyid ≤ n.node_id → id_at servers r ≤ n.node_id) ns
least_above keyid servers [] r a = tt
least_above keyid servers (n ∷ ns) r a =
    (λ le. a.0 (ground (arith, le)), least_above keyid servers ns r a.1)

pub IsOwner-large :
    (keyid : ℕ) (servers : List Node) (current : ℕ) (n : Node)
    → get_elem? servers current ≡ some n
    → leb keyid n.node_id ≡ true
    → IsOwner keyid servers (id_at servers (owner_from keyid servers (current, true)))
unfolding owner_from
IsOwner-large keyid servers current n here ok =
    let r = lower (λ m. leb keyid m.node_id) servers 0 servers current in
    let k = lower-Lowest (λ m. leb keyid m.node_id) servers 0 servers current (whole servers) in
    elim k.origin [
      | inl same ↦
          let at : get_elem? servers r ≡ some n = ap (get_elem? servers) same ∙ here in
          (
            at-Any servers r n at,
            inl (
              ground (arith, id_at-get servers r n at, ok),
              least_above keyid servers servers r k.least,
            ),
          )
      | inr (m, at, ok') ↦ (
        at-Any servers r m at,
        inl (
          ground (arith, id_at-get servers r m at, ok'),
          least_above keyid servers servers r k.least,
        ),
      )
    ]

pub IsOwner-wrapped :
    (keyid : ℕ) (servers : List Node) (current : ℕ) (n : Node)
    → get_elem? servers current ≡ some n
    → All (λ m. m.node_id < keyid) servers
    → IsOwner keyid servers (id_at servers (owner_from keyid servers (current, false)))
unfolding owner_from
IsOwner-wrapped keyid servers current n here below =
    let r = lower (λ m. true) servers 0 servers current in
    let k = lower-Lowest (λ m. true) servers 0 servers current (whole servers) in
    elim k.origin [
      | inl same ↦
          let at : get_elem? servers r ≡ some n = ap (get_elem? servers) same ∙ here in
          (at-Any servers r n at, inr (below, least_of_all servers servers r k.least))
      | inr (m, at, _) ↦
          (at-Any servers r m at, inr (below, least_of_all servers servers r k.least))
    ]
