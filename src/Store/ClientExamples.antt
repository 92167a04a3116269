-- ===== src/Store/ClientExamples.antt =====
-- contrib/libstore, and the lists, buffers and the registry of contrib/storageimpl, at concrete inputs.
use airline_booking.Prelude.{
  ℕ, ◌≤◌, ◌≡◌, refl, ◌↔◌, true, Option, none, some, List, [], ◌∷◌, arith, if◌then◌else◌, ◌==◌,
  nat_eq, Text, codes, text_beq, text_eq,
}
use airline_booking.Prelude.Assoc.{lookup, insert}
use airline_booking.Store.Routing.{
  Node, get_server, owner, owner_from, lower, scan_large, id_at, key_id, storehash, fnv32,
  first_piece,
}
use airline_booking.Prelude.Strings.{split}
use airline_booking.Store.HashList.{HashList, insert_value, remove_value}
use airline_booking.Store.HashList.Sequence.{without}
use airline_booking.Store.HashList.Refinement.{Represents, insert_value-Represents}
use airline_booking.Store.HashList.Removal.{remove_value-Represents}
use airline_booking.Store.Buffer.{Buf}
use airline_booking.Store.Buffer.Fifo.{Holds}
use airline_booking.Store.Registry.{Registry, RegisterReply, new_master, register_all, get_servers}
use airline_booking.Store.Registry.Joined.{register_all-get_servers, take}
use airline_booking.Store.Rpc.{ok, GetArgs, GetReply}
use airline_booking.Store.Client.{
  cached_text, create_cache, fetch_cache, new_query, query_collect, value_reply, Libstore,
  count_query, cache_handle, revoke_lease, value, is_ok, i_get, age_queries, nil_reply,
  fetch_cache_list,
}
use airline_booking.Store.Client.Leasing.{IsFresh, i_get_twice}
use airline_booking.Store.Client.Leasing.Fresh.{fetch-IsFresh}
use airline_booking.Store.Client.Queries.{count_query-lease, cache_run, queries_of}
use airline_booking.Store.HashList.Chain.{link, done}
use airline_booking.Store.Client.Revoked.{revoke_lease-cache_run}

abbrev key : Text
key = codes "a"

-- A list of one value.
abbrev one_list : HashList
one_list = record {
  head = 1;
  tail = 1;
  list_map = (codes "x", 1) ∷ [];
  cnt = 1;
  cells = λ p. if p == 1 then some (record { val = codes "x"; next = 0; before = 0 }) else none;
  allocated = 1;
}

one_list-Represents : Represents one_list (codes "x" ∷ [])
unfolding Represents lookup
one_list-Represents = (
  (1, codes "x") ∷ [],
  record {
    head = refl;
    tail = refl;
    cnt = refl;
    chain = link refl done;
    apart = (refl, refl, tt);
    below = λ p m. ground (arith, m);
    index = λ v. refl;
    distinct = (refl, tt);
  },
  refl,
)

insert_value-Represents_example :
    (hl' : HashList) × (insert_value (codes "y") one_list ≡ some hl')
    × Represents hl' (codes "x" ∷ codes "y" ∷ [])
unfolding text_beq
insert_value-Represents_example =
    insert_value-Represents (codes "y") one_list (codes "x" ∷ []) one_list-Represents refl

remove_value-Represents_example :
    (hl' : HashList) × (remove_value (codes "x") one_list ≡ some hl') × Represents hl' []
unfolding text_beq without
remove_value-Represents_example =
    remove_value-Represents (codes "x") one_list (codes "x" ∷ []) one_list-Represents

-- A buffer of one value.
abbrev one_buf : Buf ℕ
one_buf = record {
  head = 1;
  tail = 1;
  cells = λ p. if p == 1 then some (record { val = 7; next = 0 }) else none;
  allocated = 1;
}

one_buf-Holds : Holds one_buf (7 ∷ [])
unfolding Holds
one_buf-Holds = (
  (1, 7) ∷ [],
  record {
    head = refl;
    tail = refl;
    linked = (refl, tt);
    rising = (omega arith, tt);
    newest = omega arith;
  },
  refl,
)

abbrev node : ℕ → Node
node n = record { host_port = codes "s"; node_id = n }

-- One server that calls twice fills a list of three.
register_all-get_servers_example :
    (g g' : Registry) × (replies : List RegisterReply) × (new_master (node 1) 3 ≡ some g)
    × (register_all (node 2 ∷ node 2 ∷ node 3 ∷ []) g ≡ some (g', replies))
    × (get_servers g' ≡ record { ready = true; servers = node 1 ∷ node 2 ∷ node 2 ∷ [] })
unfolding take
register_all-get_servers_example =
    register_all-get_servers (node 1) 2 (node 2 ∷ node 2 ∷ node 3 ∷ []) (omega arith)

abbrev library : Libstore
library = record {
  nodelist = node 5 ∷ [];
  always_lease = true;
  myhostport = codes "c";
  cache_map = [];
  query_map = [];
  conn_map = [];
}

abbrev dial : Text → Option ℕ
dial host = some 4

abbrev never : Text → Option ℕ
never host = none

abbrev reply : GetReply Text
reply = record { status = ok; value = codes "v"; granted = true; valid_seconds = 10 }

abbrev call : ℕ → GetArgs → Option (GetReply Text)
call c args = some reply

abbrev no_call : ℕ → GetArgs → Option (GetReply Text)
no_call c args = none

i_get_twice_example :
    ((i_get dial call key 100 200 library).1 ≡ value (codes "v"))
    × ((i_get never no_call key 300 400 (i_get dial call key 100 200 library).0).1
        ≡ value (codes "v"))
unfolding lookup get_server owner owner_from lower scan_large id_at key_id storehash fnv32
    first_piece split insert is_ok
i_get_twice_example =
    i_get_twice dial never call no_call key 100 200 300 400 library (4, (0, 4) ∷ []) reply refl
      (λ e. ground (arith, e)) refl refl refl refl refl (omega arith)

fetch-IsFresh_example :
    ((cache_handle 5 (fetch_cache key) library).1 ≡ value_reply (cached_text (codes "v")))
    ↔ IsFresh library key (cached_text (codes "v")) 5
fetch-IsFresh_example = fetch-IsFresh key (codes "v") 5 library

-- Two keys, of which one is revoked, and the other cached anew.
abbrev cached_two : Libstore
cached_two =
    (cache_handle 60 (create_cache 10 (codes "b") (cached_text (codes "w")))
      (cache_handle 50 (create_cache 10 key (cached_text (codes "v"))) library).0).0

revoke_lease-cache_run_example :
    let ls =
      cache_run
        ((100, fetch_cache key) ∷ (110, create_cache 10 (codes "b") (cached_text (codes "u"))) ∷ [])
        (revoke_lease key cached_two) in
    ((cache_handle 200 (fetch_cache key) ls).1 ≡ nil_reply)
    × ((cache_handle 200 (fetch_cache_list key) ls).1 ≡ nil_reply)
unfolding cache_handle insert text_beq
revoke_lease-cache_run_example =
    revoke_lease-cache_run key
      ((100, fetch_cache key) ∷ (110, create_cache 10 (codes "b") (cached_text (codes "u"))) ∷ [])
      200 cached_two (refl, (refl, tt)) (tt, (refl, tt))

count_query-lease_example :
    2
    ≤ queries_of key
        ((1, new_query key) ∷ (2, query_collect) ∷ (3, new_query key) ∷ (4, new_query key) ∷ [])
unfolding cache_run cache_handle count_query lookup insert text_beq age_queries
count_query-lease_example =
    count_query-lease key
      ((1, new_query key) ∷ (2, query_collect) ∷ (3, new_query key) ∷ (4, new_query key) ∷ [])
      library refl refl
