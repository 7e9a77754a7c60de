-- ===== src/Lib.antt =====
-- EntroQ is a task queue with optimistic concurrency: a modification names tasks and docs at the
-- versions it read, and a backend applies all of it or none.
--
-- Files:
--   Base           shared helpers: order tests, lists, decided equality, integers, the clock, maps
--   Task           task.go and the task part of arrival.go: what a task is, and its arrival update
--   Doc            doc.go and the doc part of arrival.go: docs, references to them, doc sets
--   Errors         DependencyError and InvalidArgumentError of entroq.go, and a result type
--   Modification   entroq.go: NewModification, WithModification, EnsureModifyKeys, AllDependencies
--   Dependency     entroq.go: Modification.DependencyError and the methods of DependencyError
--   Validate       pkg/backend/internal/validate/validate.go, and the Validate methods it calls
--   Changes        task.go and arrival.go: the arguments that build changes, retries and arrivals,
--                  and pkg/backend/internal/arrival/arrival.go
--   DocSets        pkg/backend/internal/docset/docset.go: Lock, Claim, ClaimAll,
--                  ClaimedSets, Evaluate
--   Mem            pkg/backend/eqmem/eqmem.go: the state of the in-memory backend, locking, claims;
--                  Mem/Heap is claimheap.go, Mem/Heaps joins the two; Mem/Prepare, Mem/Found,
--                  Mem/Writes and Mem/Modify are modPrep and modifyImpl, with docnamespace.go;
--                  Mem/Eqmem is about the backend over its own claim heap
--   Queries        eqmem.go: the statistics of a queue
--   Paths          pkg/queues: components of a queue's path, their escapes and parameters
--   Codec          pkg/eqmr/intermediate_codec.go: the encoding of a run, and its reader
--   Waiting        entroq.go: PollTryClaim, WaitTryClaim, NotifyModified
--   Worker         pkg/worker/worker.go: the errors and options of a worker; Worker/Commit is
--                  fixVersions and releasing, Worker/Renewal the renewal of a hold, with
--                  doWhileRenewing's loop as a step relation, Worker/Sentinels is
--                  handleSentinelErrors, Worker/Finish is doModifyHandler.Finish, Worker/Rounds
--                  is runOne
--   Tests          runs on small inputs
--
-- How they interact: a backend checks a modification's keys and that no item is named twice, looks
-- up what is stored, asks for the dependency error of its task operations and for the doc sets'
-- plan, merges what either reports, and writes where nothing was found.
--
-- Numbers: an int32 version is its bit pattern below 2^32, and its increment wraps around. An
-- instant is a number of nanoseconds since Go's zero time, and a duration is an integer of them.
-- A doc count is an integer. A loop over a slice is a recursion on the list, so no fuel is needed.
-- A poll is on fuel for its tries, one more than the tries that find nothing.
-- A varint takes at most 10 bytes, which is its fuel; Next takes 2 turns, since a block is never
-- empty; a caller's loop over Next is on fuel for its turns, one more than there are records.
--
-- Texts: strings are compared and joined only. A message for people is the name of the place that
-- builds it. A nil JSON value and an empty one are the same.
--
-- Maps: a Go map that is written is an association list with one entry a key. A map or a callback
-- that is only read is a function. Where a loop ranges over a map, nothing depends on its order.
--
-- The in-memory backend: an operation holds the locks of the queues and namespaces that it writes, and
-- is one step from state to state. Its claim heap is behind the interface ClaimHeaps, which Mem/Heaps
-- fills: Mem/Heap is claimheap.go with the parts of Go's container/heap that it calls, over a store
-- of items by pointer. A sift is on fuel for its turns and a search for its depth, each at most the
-- size of the heap. A panic of the code is an outcome of its own, but for that of
-- queueUnsafeUpdateTask on a task that its heap lacks, which is left out. The journal and its
-- replay, the list queries, and the gap between modPrep and the queue locks are left out.
--
-- The worker: its client is a record of what the code calls (Modify, ctx.Err, the clock) over a state
-- of the client's own. An error is what errors.As and errors.Is find in it. Shutdown and the
-- registering of runs are left out, as are the metrics.
--
-- Not modelled: the other backends, whose logic is SQL or Redis commands, the network services and
-- their generated messages, and the command line tools.
pub mod Base
pub mod Task
pub mod Doc
pub mod Errors
pub mod Modification
pub mod Dependency
pub mod Validate
pub mod Changes
pub mod DocSets
pub mod Mem
pub mod Queries
pub mod Paths
pub mod Codec
pub mod Waiting
pub mod Worker
pub mod Tests
