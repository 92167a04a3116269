-- ===== src/Store/Routing.antt =====
-- Which storage server a key belongs to: getServer of contrib/libstore/libstore-impl.go and
-- isKeyInRange of contrib/storageimpl/storageimpl.go, which compute it with the same loops.
pub mod Owner
pub mod Agreement
use airline_booking.Prelude.{
  ℕ, zero, suc, ◌+◌, ◌-◌, ◌*◌, ◌/◌, ◌%◌, ◌≤◌, ◌<◌, ◌≡◌, refl, sym, ap, subst, ◌∙◌, ◌≢◌, ◌↔◌, ◌⊎◌,
  inl, inr, Bool, true, false, not, ◌&&◌, ◌||◌, Option, none, some, List, [], ◌∷◌, ◌++◌, map, arith,
  ltb, leb, nat_beq, if◌then◌else◌, ltb→lt, leb→le, nat_beq_iff, Eq, ◌==◌, nat_eq, Bool-cases,
  Option-cases, beq_self, beq_ne, length, get_elem?, length-append, All, All-append, All-mono, Any,
  Any-append_left, Any-append_right, elem, Distinct, Text, codes, text_beq, text_beq_iff, text_eq,
}
use airline_booking.Prelude.Assoc.{
  Assoc, lookup, insert, delete, lookup-insert, lookup-delete, length-insert_new, elem-missing,
  keys, keys-insert-Distinct, lookup-not_key, All-insert,
}
use Prim.Native.Nat.{bit_xor}
use airline_booking.Prelude.Strings.{split}

pub record Node : Type 0 where
  pub host_port : Text
  pub node_id : ℕ

-- hash/fnv's New32: the product wraps at 32 bits, and then the byte is mixed in.
unfoldable pub fnv32 : ℕ → Text → ℕ
fnv32 h [] = h
fnv32 h (b ∷ s) = fnv32 (bit_xor ((h * 16777619) % 0x1_0000_0000) b) s

unfoldable pub storehash : Text → ℕ
unfolding fnv32
storehash key = fnv32 2166136261 key

unfoldable pub first_piece : List Text → Text
first_piece [] = []
first_piece (p ∷ ps) = p

-- The hash of what stands before the first ":" groups related keys together.
unfoldable pub key_id : Text → ℕ
unfolding storehash first_piece
key_id key = storehash (first_piece (split key (codes ":")))

-- servers[i].NodeID; the loops only look inside the list.
unfoldable pub id_at : List Node → ℕ → ℕ
id_at [] i = 0
id_at (n ∷ ns) zero = n.node_id
id_at (n ∷ ns) (suc i) = id_at ns i

-- The first loop, from index `i` on: the last server whose ID is not below the key's, if there is one.
unfoldable pub scan_large : ℕ → ℕ → List Node → ℕ × Bool → ℕ × Bool
scan_large keyid i [] found = found
scan_large keyid i (n ∷ ns) found =
    scan_large keyid (i + 1) ns (if leb keyid n.node_id then (i, true) else found)

-- The second and the third loop: a server that qualifies and has a lower ID is the new candidate.
unfoldable pub lower : (Node → Bool) → List Node → ℕ → List Node → ℕ → ℕ
lower qualifies servers i [] current = current
lower qualifies servers i (n ∷ ns) current =
    lower qualifies servers (i + 1) ns
      (if qualifies n && ltb n.node_id (id_at servers current) then i else current)

unfoldable pub owner_from : ℕ → List Node → ℕ × Bool → ℕ
unfolding lower
owner_from keyid servers (current, true) =
    lower (λ n. leb keyid n.node_id) servers 0 servers current
owner_from keyid servers (current, false) = lower (λ n. true) servers 0 servers current

-- The index of the server for a key.
unfoldable pub owner : ℕ → List Node → ℕ
unfolding owner_from scan_large
owner keyid servers = owner_from keyid servers (scan_large keyid 0 servers (0, false))

-- isKeyInRange, for a server that knows at least one server.
unfoldable pub is_key_in_range : Text → List Node → ℕ → Bool
is_key_in_range key servers nodeid = nat_beq (id_at servers (owner (key_id key) servers)) nodeid

-- getServer: the connection to the owner, from the cache or dialled and then cached.
unfoldable pub get_server :
    (Text → Option ℕ) → Text → List Node → Assoc ℕ ℕ → Option (ℕ × Assoc ℕ ℕ)
get_server dial key nodelist conn_map =
    let current = owner (key_id key) nodelist in
    elim (lookup current conn_map) [
      | some conn ↦ some (conn, conn_map)
      | none ↦ elim (get_elem? nodelist current) [
        | none ↦ none
        | some n ↦ elim (dial n.host_port) [
          | none ↦ none
          | some conn ↦ some (conn, insert current conn conn_map)
        ]
      ]
    ]
