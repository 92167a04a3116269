-- ===== src/Prelude/Assoc.antt =====
-- Go's maps as association lists; a write to a present key replaces its entry.
use mathlib.Core.Path.{◌≡◌, refl}
use mathlib.Core.List.{List, [], ◌∷◌, ◌++◌}
use mathlib.Core.Option.{Option, none, some}
use native.Mathlib.Omega.{arith}
use Prim.Native.Nat.{◌+◌}
use airline_booking.Prelude.Lists.{length, All, elem, Distinct}
use mathlib.Core.Bool.{true, false, ◌||◌}
use airline_booking.Prelude.Tests.{Eq, ◌==◌, if◌then◌else◌}

abbrev pub Assoc {ℓ κ} : Type ℓ → Type κ → Type (ℓ ⊔ κ)
Assoc K V = List (K × V)

module _ {ℓ κ} {K : Type ℓ} {V : Type κ} ⦃e : Eq K⦄ where
  -- v, ok := m[k]
  unfoldable pub lookup : K → Assoc K V → Option V
  lookup k [] = none
  lookup k ((j, v) ∷ m) = if j == k then some v else lookup k m

  -- m[k] = v
  unfoldable pub insert : K → V → Assoc K V → Assoc K V
  insert k v [] = (k, v) ∷ []
  insert k v ((j, w) ∷ rest) = if j == k then (k, v) ∷ rest else (j, w) ∷ insert k v rest

  -- delete(m, k)
  unfoldable pub delete : K → Assoc K V → Assoc K V
  delete k [] = []
  delete k ((j, w) ∷ m) = let rest = delete k m in if j == k then rest else (j, w) ∷ rest

  pub lookup-insert :
      (k j : K) (v : V) (m : Assoc K V)
      → lookup j (insert k v m) ≡ (if k == j then some v else lookup j m)
  unfolding lookup insert
  lookup-insert k j v [] = refl
  lookup-insert k j v ((first, old) ∷ m) =
      ground (arith, lookup-insert k j v m, e.beq_iff first k, e.beq_iff first j, e.beq_iff k j)

  pub lookup-delete :
      (k j : K) (m : Assoc K V) → lookup j (delete k m) ≡ (if k == j then none else lookup j m)
  unfolding lookup delete
  lookup-delete k j [] = ground arith
  lookup-delete k j ((i, w) ∷ m) =
      ground (arith, e.beq_iff k j, e.beq_iff i k, e.beq_iff i j, lookup-delete k j m)

  pub lookup-insert_here : (k : K) (v : V) (m : Assoc K V) → lookup k (insert k v m) ≡ some v
  lookup-insert_here k v m = ground (arith, lookup-insert k k v m, e.beq_iff k k)

  pub lookup-insert_other :
      (k j : K) (v : V) (m : Assoc K V) → (k == j) ≡ false → lookup j (insert k v m) ≡ lookup j m
  lookup-insert_other k j v m n = ground (arith, lookup-insert k j v m)

  pub lookup-delete_here : (k : K) (m : Assoc K V) → lookup k (delete k m) ≡ none
  lookup-delete_here k m = ground (arith, lookup-delete k k m, e.beq_iff k k)

  pub lookup-delete_other :
      (k j : K) (m : Assoc K V) → (k == j) ≡ false → lookup j (delete k m) ≡ lookup j m
  lookup-delete_other k j m n = ground (arith, lookup-delete k j m)

  pub length-insert_new :
      (k : K) (v : V) (m : Assoc K V) → lookup k m ≡ none → length (insert k v m) ≡ length m + 1
  unfolding lookup insert
  length-insert_new k v [] h = omega arith
  length-insert_new k v ((j, w) ∷ m) h = ground (arith, length-insert_new k v m)

  -- Keys that the map holds are different from one that it lacks.
  pub elem-missing :
      (k : K) (v : V) (m : Assoc K V) (ks : List K)
      → lookup k m ≡ none
      → All (λ j. lookup j m ≡ some v) ks
      → elem k ks ≡ false
  elem-missing k v m [] h a = refl
  elem-missing k v m (j ∷ ks) h a = ground (arith, e.beq_iff j k, elem-missing k v m ks h a.1)

  -- A write keeps what holds of every entry.
  pub All-insert :
      (P : K × V → Type 0) (k : K) (v : V) (m : Assoc K V)
      → P (k, v)
      → All P m
      → All P (insert k v m)
  unfolding insert
  All-insert P k v [] p a = (p, tt)
  All-insert P k v ((j, w) ∷ m) p a =
      elim (j == k) as (λ b. All P (if b then (k, v) ∷ m else (j, w) ∷ insert k v m)) [
        | true ↦ (p, a.1)
        | false ↦ (a.0, All-insert P k v m p a.1)
      ]

  -- No key has two entries.
  abbrev pub keys : Assoc K V → List K
  keys [] = []
  keys ((k, v) ∷ m) = k ∷ keys m

  elem-keys-insert :
      (k j : K) (v : V) (m : Assoc K V) → elem j (keys (insert k v m)) ≡ (k == j || elem j (keys m))
  unfolding insert
  elem-keys-insert k j v [] = refl
  elem-keys-insert k j v ((i, w) ∷ m) =
      ground (arith, e.beq_iff k j, e.beq_iff i k, e.beq_iff i j, elem-keys-insert k j v m)

  pub keys-insert-Distinct :
      (k : K) (v : V) (m : Assoc K V) → Distinct (keys m) → Distinct (keys (insert k v m))
  unfolding insert
  keys-insert-Distinct k v [] d = (refl, tt)
  keys-insert-Distinct k v ((i, w) ∷ m) d = ground (
    arith,
    e.beq_iff i k,
    e.beq_iff k i,
    elem-keys-insert k i v m,
    keys-insert-Distinct k v m d.1,
  )

  pub lookup-not_key : (k : K) (m : Assoc K V) → elem k (keys m) ≡ false → lookup k m ≡ none
  unfolding lookup
  lookup-not_key k [] h = refl
  lookup-not_key k ((i, w) ∷ m) h = ground (arith, lookup-not_key k m)

  pub keys-insert :
      (k : K) (v : V) (m : Assoc K V)
      → keys (insert k v m) ≡ (if elem k (keys m) then keys m else keys m ++ k ∷ [])
  unfolding insert
  keys-insert k v [] = refl
  keys-insert k v ((i, w) ∷ m) = ground (arith, keys-insert k v m, e.beq_iff i k)

  pub elem-lookup :
      (k : K) (m : Assoc K V) → elem k (keys m) ≡ elim (lookup k m) [ none ↦ false | some v ↦ true ]
  unfolding lookup
  elem-lookup k [] = refl
  elem-lookup k ((i, w) ∷ m) = ground (arith, elem-lookup k m)
