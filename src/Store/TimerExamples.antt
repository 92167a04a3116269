-- ===== src/Store/TimerExamples.antt =====
-- A storage server of contrib/storageimpl/storageimpl.go with its timers and revocations, run on
-- concrete events.
use airline_booking.Prelude.{ℕ, ◌≡◌, some, List, [], ◌∷◌, nat_eq, Text, codes, text_eq}
use airline_booking.Store.Server.{put, put_lease, Request}
use airline_booking.Store.Rpc.{ok}
use airline_booking.Store.Timers.{
  World, Event, arrives, elapses, submits, returns, world_run, start,
}
use airline_booking.Store.Timers.Running.{IsTimed, world_run-IsTimed}

abbrev key : Text
key = codes "k"

abbrev client : Text
client = codes "c:1"

abbrev lease_to : Text → ℕ → Request
lease_to c n = record { typ = put_lease; key = key; value = c; replyc = n }

abbrev write : Request
write = record { typ = put; key = key; value = codes "v"; replyc = 3 }

-- A client takes a lease and renews it, another takes one; a write waits; the first confirms that it
-- gives its lease up, and the timer of the other runs down.
abbrev session : List Event
session =
    arrives (lease_to client 0)
    ∷ arrives (lease_to client 1)
    ∷ arrives (lease_to (codes "d:2") 2)
    ∷ arrives write
    ∷ returns (λ cli k. some ok) key client (some 7) 4
    ∷ elapses 2
    ∷ submits 2 5
    ∷ []

world_run-IsTimed_example : (w : World) × (world_run session start ≡ some w) × IsTimed w
world_run-IsTimed_example =
    world_run-IsTimed session
      ((λ e. cc), ((λ e. cc), ((λ e. cc), ((λ e. cc), (tt, (tt, (tt, tt)))))))
