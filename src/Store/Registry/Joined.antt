-- ===== src/Store/Registry/Joined.antt =====
-- Who stands in the list of storage servers that RegisterServer of
-- contrib/storageimpl/storageimpl.go builds.
use mathlib.Core.List.{append-nil, append_assoc}
use airline_booking.Prelude.{
  ℕ, zero, suc, ◌+◌, ◌-◌, ◌≤◌, ◌<◌, ◌≡◌, refl, sym, ap, subst, ◌∙◌, inl, inr, true, false, some,
  List, [], ◌∷◌, ◌++◌, arith, ltb, nat_eq, Bool-cases, length, length-append, text_eq,
}
use airline_booking.Store.Routing.{Node}
use airline_booking.Store.Registry.{
  blanks, set_at, new_master, add_server, reply_of, register_server, get_servers, register_all,
  Registry, RegisterReply,
}

-- The first entries of a list.
unfoldable pub take : ℕ → List Node → List Node
take zero xs = []
take (suc n) [] = []
take (suc n) (x ∷ xs) = x ∷ take n xs

-- The slice of length `n` starts with those who have registered, and the rest of it is still blank.
pub record IsRegistry (n : ℕ) (g : Registry) (joined : List Node) : Type 0 where
  pub size : g.numnodes ≡ n
  pub filled : g.servers ≡ joined ++ blanks (n - length joined)
  pub counted : g.cntnodes ≡ length joined
  pub bounded : length joined ≤ n

set_at-end :
    (x : Node) (ns : List Node) (n : ℕ)
    → set_at (length ns) x (ns ++ blanks (suc n)) ≡ some ((ns ++ x ∷ []) ++ blanks n)
unfolding set_at blanks
set_at-end x [] n = refl
set_at-end x (y ∷ ns) n = rw (set_at-end x ns n) refl

length-take : (n : ℕ) (xs : List Node) → length xs ≤ n → take n xs ≡ xs
unfolding take
length-take zero [] b = refl
length-take zero (x ∷ xs) b = absurd (omega arith)
length-take (suc n) [] b = refl
length-take (suc n) (x ∷ xs) b = ap (λ l. x ∷ l) (length-take n xs (omega arith))

take_nil : (n : ℕ) → take n [] ≡ []
unfolding take
take_nil zero = refl
take_nil (suc n) = refl

take-append_full : (n : ℕ) (xs ys : List Node) → length xs ≡ n → take n (xs ++ ys) ≡ xs
unfolding take
take-append_full zero [] ys e = refl
take-append_full zero (x ∷ xs) ys e = absurd (omega arith)
take-append_full (suc n) [] ys e = absurd (omega arith)
take-append_full (suc n) (x ∷ xs) ys e = ap (λ l. x ∷ l) (take-append_full n xs ys (omega arith))

take-take_append : (n : ℕ) (xs ys : List Node) → take n (take n xs ++ ys) ≡ take n (xs ++ ys)
unfolding take
take-take_append zero xs ys = refl
take-take_append (suc n) [] ys = refl
take-take_append (suc n) (x ∷ xs) ys = ap (λ l. x ∷ l) (take-take_append n xs ys)

length-take_full : (n : ℕ) (xs : List Node) → n ≤ length xs → length (take n xs) ≡ n
unfolding take
length-take_full zero xs b = refl
length-take_full (suc n) [] b = absurd (omega arith)
length-take_full (suc n) (x ∷ xs) b = omega (arith, length-take_full n xs (omega arith))

module _ (n : ℕ) (x : Node) (g : Registry) (joined : List Node) (i : IsRegistry n g joined) where
  -- The state after a call of RegisterServer, given who has registered.
  Adds : Type 0
  Adds = (g' : Registry) × (add_server x g ≡ some g') × IsRegistry n g' (take n (joined ++ x ∷ []))

  add_room : length joined < n → Adds
  unfolding add_server Adds
  add_room room =
      let m = n - length joined - 1 in
      let spot : set_at g.cntnodes x g.servers ≡ some ((joined ++ x ∷ []) ++ blanks m) =
        ap (λ c. set_at c x g.servers) i.counted
        ∙ ap (set_at (length joined) x) (i.filled ∙ ap (λ d. joined ++ blanks d) (omega arith))
        ∙ set_at-end x joined m in
      let all_in : take n (joined ++ x ∷ []) ≡ joined ++ x ∷ [] =
        length-take n (joined ++ x ∷ []) (omega (arith, length-append joined (x ∷ []))) in
      let less : ltb g.cntnodes g.numnodes ≡ true = ground (arith, i.counted, i.size) in
      let g' : Registry = record g {
        servers = (joined ++ x ∷ []) ++ blanks m;
        cntnodes = g.cntnodes + 1;
      } in
      let ran : add_server x g ≡ some g' = rw (add_server, less, spot) refl in
      (
        g',
        ran,
        subst (IsRegistry n g') (sym all_in) (record {
          size = i.size;
          filled =
              ap (λ d. (joined ++ x ∷ []) ++ blanks d)
                (omega (arith, length-append joined (x ∷ [])));
          counted = omega (arith, i.counted, length-append joined (x ∷ []));
          bounded = omega (arith, length-append joined (x ∷ []));
        }),
      )

  add_full : n ≤ length joined → Adds
  unfolding add_server Adds
  add_full full =
      let same : take n (joined ++ x ∷ []) ≡ joined =
        take-append_full n joined (x ∷ []) (omega (arith, i.bounded)) in
      let less : ltb g.cntnodes g.numnodes ≡ false = ground (arith, i.counted, i.size) in
      let ran : add_server x g ≡ some g = rw (add_server, less) refl in
      (g, ran, subst (IsRegistry n g) (sym same) i)

  add_server-IsRegistry :
      (g' : Registry) × (add_server x g ≡ some g') × IsRegistry n g' (take n (joined ++ x ∷ []))
  unfolding Adds
  add_server-IsRegistry = elim (Bool-cases (ltb (length joined) n)) [
    | inl less ↦ add_room (ground arith)
    | inr more ↦ add_full (ground arith)
  ]

register_all-cons :
    (x : Node) (xs : List Node) (g g' g'' : Registry) (ys : List RegisterReply)
    → add_server x g ≡ some g'
    → register_all xs g' ≡ some (g'', ys)
    → register_all (x ∷ xs) g ≡ some (g'', reply_of g' ∷ ys)
unfolding register_all register_server
register_all-cons x xs g g' g'' ys added ran = rw (register_all, register_server, added, ran) refl

-- The calls fill the slice in their order, whoever makes them.
register_all-IsRegistry :
    (n : ℕ) (xs : List Node) (g : Registry) (l : List Node)
    → IsRegistry n g (take n l)
    → (g' : Registry) × (replies : List RegisterReply) × (register_all xs g ≡ some (g', replies))
      × IsRegistry n g' (take n (l ++ xs))
unfolding register_all
register_all-IsRegistry n [] g l i =
    (g, [], refl, subst (λ m. IsRegistry n g (take n m)) (sym (append-nil l)) i)
register_all-IsRegistry n (x ∷ xs) g l i =
    let (g', added, j) = add_server-IsRegistry n x g (take n l) i in
    let j' = subst (IsRegistry n g') (take-take_append n l (x ∷ [])) j in
    let (g'', replies, ran, k) = register_all-IsRegistry n xs g' (l ++ x ∷ []) j' in
    (
      g'',
      reply_of g' ∷ replies,
      register_all-cons x xs g g' g'' replies added ran,
      subst (λ m. IsRegistry n g'' (take n m)) (append_assoc l (x ∷ []) xs) k,
    )

get_servers-IsRegistry :
    (n : ℕ) (g : Registry) (l : List Node)
    → IsRegistry n g (take n l)
    → n ≤ length l
    → get_servers g ≡ record { ready = true; servers = take n l }
unfolding get_servers blanks
get_servers-IsRegistry n g l i b =
    let full = length-take_full n l b in
    let less : ltb g.cntnodes g.numnodes ≡ false = ground (arith, i.counted, i.size) in
    let none_left : n - length (take n l) ≡ 0 = omega (arith, full) in
    rw less (
      ap (λ ns. record { ready = true; servers = ns })
        (i.filled ∙ ap (λ d. take n l ++ blanks d) none_left ∙ append-nil (take n l)))

-- Whatever servers call RegisterServer on a new master, none of the calls panics; the master is ready
-- once it has had one call fewer than it expects servers, and then its list is itself and the first
-- callers in the order of their calls, a server that has called twice standing in it twice.
pub register_all-get_servers :
    (self : Node) (n : ℕ) (xs : List Node)
    → n ≤ length xs
    → (g g' : Registry) × (replies : List RegisterReply) × (new_master self (suc n) ≡ some g)
      × (register_all xs g ≡ some (g', replies))
      × (get_servers g' ≡ record { ready = true; servers = self ∷ take n xs })
unfolding new_master set_at blanks take
register_all-get_servers self n xs b =
    let g : Registry = record { numnodes = suc n; cntnodes = 1; servers = self ∷ blanks n } in
    let start : IsRegistry (suc n) g (self ∷ []) = record {
      size = refl;
      filled = ap (λ d. self ∷ blanks d) (omega arith);
      counted = refl;
      bounded = omega arith;
    } in
    let i = subst (IsRegistry (suc n) g) (ap (λ l. self ∷ l) (sym (take_nil n))) start in
    let (g', replies, ran, j) = register_all-IsRegistry (suc n) xs g (self ∷ []) i in
    (g, g', replies, refl, ran, get_servers-IsRegistry (suc n) g' (self ∷ xs) j (omega arith))
