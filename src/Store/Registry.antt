-- ===== src/Store/Registry.antt =====
-- How the storage servers of contrib/storageimpl/storageimpl.go find each other: the master's list of
-- servers, which the others register in (RegisterServer) and everybody asks for (GetServers).
pub mod Joined
use airline_booking.Prelude.{
  ℕ, zero, suc, ◌+◌, ◌-◌, ◌≤◌, ◌<◌, ◌≡◌, refl, sym, ap, subst, ◌∙◌, inl, inr, Bool, true, false,
  Option, none, some, List, [], ◌∷◌, ◌++◌, arith, ltb, if◌then◌else◌, ◌==◌, nat_eq, Bool-cases,
  length, length-append, text_eq,
}
use airline_booking.Store.Routing.{Node}

pub record Registry : Type 0 where
  pub numnodes : ℕ
  pub cntnodes : ℕ
  -- a slice of length numnodes, of which the first cntnodes entries are set
  pub servers : List Node

-- RegisterReply
pub record RegisterReply : Type 0 where
  pub ready : Bool
  pub servers : List Node

abbrev pub blank : Node
blank = record { host_port = []; node_id = 0 }

abbrev pub not_ready : RegisterReply
not_ready = record { ready = false; servers = [] }

-- make([]storageproto.Node, n)
unfoldable pub blanks : ℕ → List Node
blanks zero = []
blanks (suc n) = blank ∷ blanks n

-- servers[i] = x; outside of the slice it is a panic
unfoldable pub set_at : ℕ → Node → List Node → Option (List Node)
set_at i x [] = none
set_at zero x (n ∷ ns) = some (x ∷ ns)
set_at (suc i) x (n ∷ ns) = elim (set_at i x ns) [ none ↦ none | some ms ↦ some (n ∷ ms) ]

-- NewStorageserver, on the master
unfoldable pub new_master : Node → ℕ → Option Registry
new_master self numnodes = elim (set_at 0 self (blanks numnodes)) [
  | none ↦ none
  | some ns ↦ some (record { numnodes = numnodes; cntnodes = 1; servers = ns })
]

-- if ss.cntnodes < ss.numnodes { ... }
unfoldable pub add_server : Node → Registry → Option Registry
add_server x g =
    if ltb g.cntnodes g.numnodes
    then elim (set_at g.cntnodes x g.servers) [
      | none ↦ none
      | some ns ↦ some (record g { servers = ns; cntnodes = g.cntnodes + 1 })
    ]
    else some g

abbrev pub reply_of : Registry → RegisterReply
reply_of g =
    if g.cntnodes == g.numnodes then record { ready = true; servers = g.servers } else not_ready

-- RegisterServer
unfoldable pub register_server : Node → Registry → Option (Registry × RegisterReply)
register_server x g = elim (add_server x g) [ none ↦ none | some g' ↦ some (g', reply_of g') ]

-- GetServers
unfoldable pub get_servers : Registry → RegisterReply
get_servers g =
    if ltb g.cntnodes g.numnodes then not_ready else record { ready = true; servers = g.servers }

-- The calls of RegisterServer that arrive, one after the other.
unfoldable pub register_all : List Node → Registry → Option (Registry × List RegisterReply)
register_all [] g = some (g, [])
register_all (x ∷ xs) g = elim (register_server x g) [
  | none ↦ none
  | some p ↦ elim (register_all xs p.0) [ none ↦ none | some q ↦ some (q.0, p.1 ∷ q.1) ]
]
