-- ===== src/Lib.antt =====
-- Airline booking: replicated airline servers over Paxos, with two-phase commit between them.
--
-- The program. Every airline is a group of replicas. A client's request becomes a command, a string,
-- that the replica proposes to its Paxos group; the group agrees on a log of commands, and every
-- replica executes the log in order (contrib/libpaxos). Executing a command sends a request to the
-- server's storeHandler (contrib/airlineimpl), which creates and finds flights and takes part in
-- two-phase commit for bookings: it locks the flights, votes, and applies or drops its logs when the
-- decision comes. A travel agency's transaction layer (contrib/tranlayer) coordinates: it sends the
-- orders, counts the votes and announces the decision. Airlines are published in storage
-- servers (contrib/storageimpl), whose keys are spread over a ring of server IDs; their clients
-- (contrib/libstore) cache values under leases, and a write to a leased key waits until its leases have
-- been given up or have run out. An agency's server (contrib/tribimpl) keeps its users' bookings there.
--
-- How it is modelled. State is a record per Go struct, a map is an association list, a handler is a
-- function from the state and the message to the new state and what it sends. Strings are lists of
-- bytes, integers are ℕ where the code never makes them negative. A replica's goroutines hand all
-- packets to one loop, so a replica is a fold over the packets that it gets; the theorems hold for any
-- packets in any order, so loss, repetition and reordering by the network need no model of their own.
-- What a handler sends or puts on its own channel is a list of effects; what the network does for it
-- (which peers can be reached, what they answer) is an argument. Go's int is a 64-bit word where the
-- code subtracts, with the wrap-around written out (Prelude/Words).
--
-- Files:
--   Prelude: Boolean tests, lists, byte strings, association lists, strings.Split and strconv.Itoa.
--   Paxos/Types: the messages of contrib/libpaxos/libpaxos.go.
--   Paxos/Acceptor: contrib/libpaxos/acceptor.go; Promise and Ballot hold what is proved of it.
--   Paxos/Learner: contrib/libpaxos/learner.go; Votes, Stable and Quorum.
--   Paxos/Coordinator: contrib/libpaxos/coordinator.go; Numbers, Fresh, Choice.
--   Paxos/Wire: getModifiedValue and getFromModifiedValue of contrib/libpaxos/libpaxos.go.
--   Paxos/Node: handleOperate and ProposeCommand of contrib/libpaxos/libpaxos.go; Log, Replay,
--     Execution and Consistency.
--   Paxos/Examples: runs at concrete inputs.
--   Airline/Types: contrib/airlineproto/airlineproto.go, official/transaction/transaction.go and the
--     state of contrib/airlineimpl/airlineimpl.go.
--   Airline/Participant: contrib/airlineimpl/participant.go; Vote, Booking and Outcome hold the loops
--     of initTrans and responseTrans, Expiry that of expireTrans.
--   Airline/Server: storeHandler of contrib/airlineimpl/airlineimpl.go; Consistency, Keep, Total and Run
--     hold the invariant and the runs, Slots and Seats the free slots, Leak and Stuck the locks that
--     are lost, Decision and Booked the transactions, Queries the lists of flights.
--   Airline/Command: the command strings of contrib/airlineimpl/paxos.go and their reply channels.
--   Airline/Rpc: the RPC methods and PaxosResponse of contrib/airlineimpl/paxos.go and the Paxos
--     functions of contrib/airlineimpl/airlineimpl.go; Delivery joins the two ends.
--   Airline/Examples, Airline/CallExamples: runs at concrete inputs.
--   Tran/Types, Tran/Layer: contrib/tranlayer/coordinator.go and requestHandler of
--     contrib/tranlayer/tranlayer.go; Tally and Verdict hold the votes and the announcement, Decide the
--     last vote, Expiry the timer
--     and what it blocks, Opening and Total the invariant, Orders the messages of a start.
--   Tran/Examples: runs at concrete inputs.
--   Store/Routing: getServer of contrib/libstore/libstore-impl.go, isKeyInRange of
--     contrib/storageimpl/storageimpl.go and Storehash of contrib/libstore/libstore-api.go; Owner holds
--     the loops, Agreement the two sides.
--   Store/HashList: contrib/storageimpl/hashlist.go over a heap of elements; Chain holds the links,
--     Sequence the abstract view, Refinement and Removal the operations against it.
--   Store/Buffer: contrib/storageimpl/bufi.go and its copy official/bufi/bufi.go; Fifo holds the queue.
--   Store/Server: appHandler of contrib/storageimpl/storageimpl.go. Content and View are the abstract
--     view of the server, what its keys hold, who has leases and which writes wait; Drain, Steps,
--     Leases, Release and Endings are the cases of the handler against it, Refinement all of them;
--     Cases, Guard, Answers and Expiry hold what follows for leases and answers.
--   Store/Rpc: Get, GetList, Put, AppendToList and RemoveFromList of the same file; Reads holds what a
--     Get returns, with its child Statuses, Stale the race between its two requests.
--   Store/Timers: the handler with leaseTimer and callCacheRPC of the same file; Matched, Quiet, Ends and
--     Steps hold which steps touch leases and timers, Running the runs of all of them.
--   Store/Registry: RegisterServer and GetServers of the same file; Joined holds who is in the list.
--   Store/Client: cacheHandler, RevokeLease, iGet, iGetList, iPut, iAppendToList and iRemoveFromList of
--     contrib/libstore/libstore-impl.go; Leasing holds the cache, Queries the count of queries, Revoked
--     the entries after a revocation.
--   Agency: contrib/tribimpl/trib-impl.go over an interface of the storage client and the airlines, of which
--     nothing is assumed; Booked holds the calls that a booking makes, Agency/Examples a run.
--   Store/Examples, Store/ServerExamples, Store/TimerExamples, Store/ClientExamples: runs at concrete
--     inputs.
--
-- Bounds and fuel. The loop of newProposalNumber runs on fuel, one more than highproposal, which is
-- enough since every round adds the number of nodes, at least 1. Overflow of 64-bit proposal and
-- instance numbers is not modelled. The loop of expireTrans runs over a list of what the network does.
-- requestHandler's rounds run on fuel, which is enough when there are more rounds than orders. The
-- loop over deferred requests runs on the number of elements that its buffer ever had, which is enough
-- since the buffer has no more. Clocks are ℕ, in nanoseconds.
--
-- Not modelled. JSON (a codec is an argument), the RPC transport, timers and goroutines
-- other than those of a storage server (they decide which packets arrive), logging, contrib/libairline and contrib/libconn, the servers' main
-- programs and the test programs.
mod Prelude
pub mod Paxos
pub mod Airline
pub mod Tran
pub mod Store
pub mod Agency
