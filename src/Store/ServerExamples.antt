-- ===== src/Store/ServerExamples.antt =====
-- contrib/storageimpl at concrete inputs: a server with one key that one client has a lease of.
use airline_booking.Prelude.{
  ℕ, ◌≡◌, refl, ◌≢◌, true, none, some, List, [], ◌∷◌, arith, if◌then◌else◌, ◌==◌, nat_eq, beq_self,
  All, elem, Text, codes, text_beq, text_eq,
}
use airline_booking.Prelude.Assoc.{lookup, insert, delete, keys}
use airline_booking.Store.Routing.{
  Node, is_key_in_range, owner, owner_from, lower, scan_large, id_at, key_id, storehash, fnv32,
  first_piece,
}
use airline_booking.Store.Server.{
  RequestType, put, put_lease, remove_lease, Request, text_value, Effect, State, initial, is_write,
  store_value, perform, drain, run_deferred, end_lease, expire, grant, pre_check, defer, deferring,
  process, handle, run, clients_of, Outcome,
}
use airline_booking.Store.Server.Content.{missing, string, Shows}
use airline_booking.Store.Server.View.{
  View, set, set-elim, view_step, IsServer, write_all, Queued, ban_of, IsWait,
}
use airline_booking.Store.Server.Steps.{Steps}
use airline_booking.Store.Server.Refinement.{handle-Steps, empty_view}
use airline_booking.Store.Server.Guard.{handle-leased, handle-waiting, clients_at}
use airline_booking.Store.Server.Answers.{run-answered, answered, expecting}
use airline_booking.Store.Server.Expiry.{run-expired, expire_all}
use airline_booking.Store.Rpc.{GetArgs, GetReply, ok, get_value}
use airline_booking.Store.Buffer.{Buf, insert_last, new_buf, empty, remove_first, load, write}
use airline_booking.Store.Buffer.Fifo.{Holds}
use airline_booking.Prelude.Strings.{split}
use airline_booking.Store.Rpc.Reads.Statuses.{found_text, get_value-found_text}
use airline_booking.Store.Rpc.Stale.{get_value-stale}

abbrev key : Text
key = codes "a"

abbrev client : Text
client = codes "c"

abbrev leased_state : State
leased_state = record {
  cache = (key, text_value (codes "v")) ∷ [];
  leases = (key, (client, 0) ∷ []) ∷ [];
  deferred = [];
  bans = [];
  channels = 1;
}

abbrev leased_view : View
leased_view = record {
  contents = set key (string (codes "v")) (λ k. missing);
  holders = set key (client ∷ []) (λ k. []);
  pending = λ k. [];
}

leased_IsServer : IsServer leased_state leased_view
unfolding lookup text_beq
leased_IsServer = record {
  shows = λ k.
      set-elim (λ j c. Shows (lookup j leased_state.cache) c) key k (string (codes "v"))
        (λ j. missing) refl (λ n. rw n tt);
  queues = λ k. tt;
  bans = λ k. refl;
  holders = λ k.
      set-elim (λ j hs. keys (clients_of (lookup j leased_state.leases)) ≡ hs) key k (client ∷ [])
        (λ j. []) refl (λ n. rw n refl);
  leased = λ k e. refl;
  held = λ k e. ground (arith, e);
  writes = λ k. tt;
}

abbrev request : RequestType → Text → ℕ → Request
request typ v c = record { typ = typ; key = key; value = v; replyc = c }

-- A write to the leased key.
abbrev new_write : Request
new_write = request put (codes "w") 1

handle-Steps_example :
    Steps new_write leased_state leased_view
      (view_step new_write leased_view)
      (handle new_write leased_state)
handle-Steps_example = handle-Steps new_write leased_state leased_view leased_IsServer

handle-leased_example :
    (s' : State) × (es : List Effect) × (handle new_write leased_state ≡ some (s', es))
    × ((k : Text) → lookup k s'.leases ≢ none → Shows (lookup k s'.cache) (leased_view.contents k))
handle-leased_example = handle-leased new_write leased_state leased_view leased_IsServer

handle-waiting_example :
    (s' : State) × (es : List Effect) × (handle new_write leased_state ≡ some (s', es))
    × ((k c : Text)
        → lookup k s'.bans ≢ none
        → elem c (clients_at k s') ≡ true
        → elem c (clients_at k leased_state) ≡ true)
handle-waiting_example = handle-waiting new_write leased_state leased_view leased_IsServer

-- A value, a lease, a write that waits, and the end of the lease.
abbrev session : List Request
session =
    request put (codes "v") 1
    ∷ request put_lease client 2
    ∷ request put (codes "w") 3
    ∷ request remove_lease client 4
    ∷ []

run-answered_example :
    (s : State) × (es : List Effect) × (run session initial ≡ some (s, es))
    × (lookup key s.leases ≡ none → answered 3 es ≡ expecting 3 session)
run-answered_example =
    run-answered 3 key session
      ((λ e. beq_self key), ((λ e. beq_self key), ((λ e. beq_self key), ((λ e. beq_self key), tt))))

-- The write that waits is answered, the third of the answers, once the lease has ended.
abbrev answers_to : ℕ → Outcome → ℕ
answers_to c none = 0
answers_to c (some o) = answered c o.1

session_answers : answers_to 3 (run session initial) ≡ 1
unfolding run handle pre_check deferring is_write process defer store_value grant expire end_lease
    run_deferred drain perform initial lookup insert delete answered text_beq insert_last new_buf
    empty remove_first load write
session_answers = refl

-- The same server with the write put off.
abbrev queue : Buf Request
queue = record {
  head = 1;
  tail = 1;
  cells = λ p. if p == 1 then some (record { val = new_write; next = 0 }) else none;
  allocated = 1;
}

abbrev waiting_state : State
waiting_state = record leased_state { deferred = (key, queue) ∷ []; bans = (key, 1) ∷ [] }

abbrev waiting_view : View
waiting_view = record leased_view { pending = set key (new_write ∷ []) (λ k. []) }

queue_Holds : Holds queue (new_write ∷ [])
unfolding Holds
queue_Holds = (
  (1, new_write) ∷ [],
  record {
    head = refl;
    tail = refl;
    linked = (refl, tt);
    rising = (omega arith, tt);
    newest = omega arith;
  },
  refl,
)

waiting_IsServer : IsServer waiting_state waiting_view
unfolding lookup text_beq is_write
waiting_IsServer = record {
  shows = leased_IsServer.shows;
  queues = λ k.
      set-elim (λ j rs. Queued (lookup j waiting_state.deferred) rs) key k (new_write ∷ [])
        (λ j. []) queue_Holds (λ n. rw n tt);
  bans = λ k.
      set-elim (λ j rs. lookup j waiting_state.bans ≡ ban_of rs) key k (new_write ∷ []) (λ j. [])
        refl (λ n. rw n refl);
  holders = leased_IsServer.holders;
  leased = λ k.
      set-elim (λ j rs. set key (client ∷ []) (λ i. []) j ≡ [] → rs ≡ []) key k (new_write ∷ [])
        (λ j. []) (λ e. ground (arith, e)) (λ n e. refl);
  held = leased_IsServer.held;
  writes = λ k.
      set-elim (λ j rs. All (IsWait j) rs) key k (new_write ∷ []) (λ j. []) ((refl, refl), tt)
        (λ n. tt);
}

run-expired_example :
    (s' : State) × (es : List Effect) × (run
        (expire_all key 9 (clients_at key waiting_state))
        waiting_state
      ≡ some (s', es))
    × (clients_at key s' ≡ [])
    × (lookup key s'.bans ≡ none)
    × Shows
        (lookup key s'.cache)
        (write_all (waiting_view.pending key) (waiting_view.contents key)).0
run-expired_example = run-expired key 9 waiting_state waiting_view waiting_IsServer

abbrev self : Node
self = record { host_port = codes "s:1"; node_id = 5 }

abbrev get_args : GetArgs
get_args = record { key = key; want_lease = true; lease_client = codes "d" }

in_range : is_key_in_range key (self ∷ []) 5 ≡ true
unfolding is_key_in_range owner owner_from lower scan_large id_at key_id storehash fnv32 first_piece
    split
in_range = refl

-- A server that holds the key and has given no lease of it.
abbrev free_state : State
free_state = record initial { cache = (key, text_value (codes "v")) ∷ [] }

abbrev free_view : View
free_view = record empty_view { contents = set key (string (codes "v")) (λ k. missing) }

free_IsServer : IsServer free_state free_view
unfolding initial empty_view lookup text_beq
free_IsServer = record {
  shows = leased_IsServer.shows;
  queues = λ k. tt;
  bans = λ k. refl;
  holders = λ k. refl;
  leased = λ k e. refl;
  held = λ k e. cc;
  writes = λ k. tt;
}

get_value-found_text_example :
    (s' : State) × (es : List Effect) × (reply : GetReply Text) × (get_value
        (self ∷ [])
        5
        get_args
        1
        2
        (request put (codes "w") 3 ∷ [])
        free_state
      ≡ some (s', es, reply))
    × ((reply.status ≡ ok)
        × (reply.value ≡ codes "v")
        × (reply.granted ≡ true → elem (codes "d") (clients_at key s') ≡ true))
unfolding empty_view text_beq found_text
get_value-found_text_example =
    get_value-found_text (self ∷ []) 5 get_args 1 2 (request put (codes "w") 3 ∷ []) free_state
      free_view free_IsServer in_range

get_value-stale_example :
    (s' : State) × (es : List Effect) × (get_value
        (self ∷ [])
        5
        get_args
        1
        2
        (request put (codes "w") 3 ∷ [])
        free_state
      ≡ some
          (s', es, record { status = ok; value = codes "v"; granted = true; valid_seconds = 10 }))
    × Shows (lookup key s'.cache) (string (codes "w"))
unfolding empty_view text_beq
get_value-stale_example =
    get_value-stale (self ∷ []) 5 get_args 1 2 3 (codes "v") (codes "w") free_state free_view
      free_IsServer in_range refl refl refl refl
