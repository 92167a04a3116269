-- ===== src/Paxos/Wire.antt =====
-- contrib/libpaxos/libpaxos.go: the tag that makes proposed values unique.
use airline_booking.Prelude.{
  ℕ, ◌≡◌, ap, ◌∙◌, inl, false, Option, some, [], ◌∷◌, ◌++◌, arith, nat_eq, get_elem?, Text, codes,
  text_eq,
}
use airline_booking.Prelude.Strings.{
  split, split_from, occurs, itoa, Lacks, itoa-Lacks, split_from_piece, split_from_whole,
}

-- The separator "$$".
abbrev pub sep : Text
sep = codes "$$"

unfoldable pub get_modified_value : ℕ → ℕ → Text → Text
get_modified_value nodepos counter value = itoa nodepos ++ (sep ++ (itoa counter ++ (sep ++ value)))

-- `split[2]`; `none` is the panic of an index out of range.
unfoldable pub get_from_modified_value : Text → Option Text
unfolding split
get_from_modified_value mvalue = get_elem? (split mvalue sep) 2

tag-Lacks : (n : ℕ) → Lacks b'$' (itoa n)
tag-Lacks n = itoa-Lacks b'$' n (inl (omega arith))

-- The pieces of a tagged value, before what its own separators cut.
pieces :
    (nodepos counter : ℕ) (value : Text)
    → split (get_modified_value nodepos counter value) sep
      ≡ itoa nodepos ∷ itoa counter ∷ split_from sep 0 [] value
unfolding split get_modified_value
pieces nodepos counter value =
    split_from_piece b'$' (b'$' ∷ []) [] (itoa nodepos) (itoa counter ++ (sep ++ value))
      (tag-Lacks nodepos)
    ∙ ap (◌∷◌ (itoa nodepos))
        (split_from_piece b'$' (b'$' ∷ []) [] (itoa counter) value (tag-Lacks counter))

-- A value without "$$" comes back from its tagged form as it was.
pub value_roundtrip :
    (nodepos counter : ℕ) (value : Text)
    → occurs sep value ≡ false
    → get_from_modified_value (get_modified_value nodepos counter value) ≡ some value
unfolding get_from_modified_value
value_roundtrip nodepos counter value h =
    ap (λ ps. get_elem? ps 2)
      (pieces nodepos counter value
        ∙ ap (λ r. itoa nodepos ∷ itoa counter ∷ r) (split_from_whole sep [] value h))

-- A value that holds "$$" comes back cut off before it, where no "$" stands earlier.
pub value_truncated :
    (nodepos counter : ℕ) (before after : Text)
    → Lacks b'$' before
    → get_from_modified_value (get_modified_value nodepos counter (before ++ (sep ++ after)))
      ≡ some before
unfolding get_from_modified_value
value_truncated nodepos counter before after h =
    ap (λ ps. get_elem? ps 2)
      (pieces nodepos counter (before ++ (sep ++ after))
        ∙ ap (λ r. itoa nodepos ∷ itoa counter ∷ r)
            (split_from_piece b'$' (b'$' ∷ []) [] before after h))
