-- ===== src/Mem.antt =====
-- The in-memory backend, pkg/backend/eqmem: its state, the locking of queues and namespaces, and
-- claims. The claim heap is behind the interface ClaimHeaps. No journal is kept. An operation holds the
-- locks of the queues that it writes, and the model runs it as one step; `dependents`, which keeps
-- a lock alive between steps, is 0 before and after it.
pub mod Heap
pub mod Heaps
pub mod Eqmem
pub mod Claims
pub mod Prepare
pub mod Found
pub mod Writes
pub mod Modify
use entroq.Base.{
  ℤ, pos_part, neg_part, sub_ℕ, ◌+ℤ◌, ◌≤ℤ◌, ltb_ℤ, +ℤ_parts, eq_of_parts, int_laws, +ℤ_assoc,
  +ℤ-zero, zero-+ℤ, pos, negsuc, Time, Duration, add, after, before, is_zero, is_positive,
  is_zero_duration, int32_mod, inc32, IsInt32, is_positive32, inc32_moves, inc32-IsInt32, le32,
  Dict, lookup, insert, erase, contains, lookup-insert, lookup-erase, contains-insert, contains-nil,
  get_or, get_or-insert, map_values, lookup-map_values, AreNew, AreNew-cons, AreNew-nil, ltb, leb,
  if◌then◌else◌, ltb→lt, lt→ltb, le→not-ltb, Bool-cases, Option-cases, is_some, length, All,
  is_empty, any, keep, length-append, All-append, is_empty-keep, Distinct, everywhere, append-nil,
  append_assoc, is_empty_iff, All-iff, All-implied, All-both, keep-All, text_discrete, Eq,
  string_eq, nat_eq, ◌==◌, pair_discrete, runs, ℕ, zero, suc, ◌+◌, ◌-◌, ◌*◌, ◌/◌, ◌%◌, ◌^◌, ◌≤◌,
  ◌<◌, String, ◌<>◌, len, ◌≡◌, refl, sym, ap, ◌∙◌, ◌≢◌, ◌↔◌, ◌⊎◌, inl, inr, Bool, true, false, not,
  ◌&&◌, ◌||◌, Option, none, some, List, [], ◌∷◌, ◌++◌, map, arith,
}
use entroq.Task.{
  TaskId, new_task_id, TaskData, Task, new_task, id_version, data_of, TaskArrival, arrival_change,
}
use entroq.Errors.{
  Message, DependencyError, no_failures, Invalid, Failure, Result, ◌>>=◌, ◌>>◌, refuse_if, for_each,
  no_message, queue_mismatch, set_held, missing_task, lapsed_task, lost_claim, nothing_to_do,
  insert_without_queue, change_without_queue, arrival_without_queue, doc_insert_without_namespace,
  arrival_of_doc, arrival_without_namespace, arrives_twice, task_twice, doc_twice, two_references,
  set_delete, place_taken_twice, too_long, no_queues, no_claimant, no_duration, duration_too_long,
  no_sets, no_namespace, no_key, duplicate_set, two_leases, no_lease, negative_duration,
  lease_and_task, task_without_place, hold_in_past, invalid, dependency, missing_id, err, ok,
}
use entroq.Doc.{
  DocId, new_doc_id, new_doc_set_ref, is_set_ref, DocData, Doc, DocArrival, DocSet, DocSetClaim,
  DocClaim,
}
use entroq.DocSets.{
  Lock, absent_lock, is_held_at, held_by_other, overlay, claim, written, set_ref, current,
  claimed_set, held_error, Plan, Evaluation, run, fail_insert, fail_change, fail_delete,
  fail_depend, fail_claim, fail_arrive, count_docs, latest, write, report_claimed, is_provided,
  stored_set, claim_or_insert, insert_step, change_step, delete_step, depend_step, arrive_step,
  evaluation, next_lock, evaluate,
}
use entroq.Validate.{
  max_claim_duration, arrival_past_window, max_id_bytes, max_claimant_bytes, max_namespace_bytes,
  max_doc_key_bytes, exceeds, is_negative, ClaimQuery, validate_claim, check_claim_sets,
  matches_no_place, validate_doc_claim, check, check_claimant, check_claim, check_doc_claim,
  check_doc, check_one, doc_refs, Place, place_eq, place_of, check_places, doc_places,
  writes_something, lengths, check_modification, normalize_arrival, renewal_duration_for,
}

-- What the backend asks of a heap of task IDs by arrival. `arrival` is what `byID` has, and the draws
-- are those of `rand.Float64`. Mem.Heaps fills it with the claim heap.
pub record ClaimHeaps : Type 1 where
  pub Heap : Type 0
  pub empty : Heap
  pub push_item : String → Time → Heap → Heap
  pub remove_id : String → Heap → Heap
  pub update_id : String → Time → Heap → Heap
  pub random_available : List Bool → Time → Heap → Option String
  pub arrival : String → Heap → Option Time
  pub IsSound : Heap → Type 0
  pub empty-IsSound : IsSound empty
  pub push-IsSound :
      (k : String) (at : Time) (h : Heap)
      → IsSound h
      → arrival k h ≡ none
      → IsSound (push_item k at h)
  pub remove-IsSound : (k : String) (h : Heap) → IsSound h → IsSound (remove_id k h)
  pub update-IsSound : (k : String) (at : Time) (h : Heap) → IsSound h → IsSound (update_id k at h)
  pub arrival-empty : (id : String) → arrival id empty ≡ none
  pub arrival-push :
      (k id : String) (at : Time) (h : Heap)
      → IsSound h
      → arrival id (push_item k at h) ≡ (if k == id then some at else arrival id h)
  pub arrival-remove :
      (k id : String) (h : Heap)
      → IsSound h
      → arrival id (remove_id k h) ≡ (if k == id then none else arrival id h)
  pub arrival-update :
      (k id : String) (at old : Time) (h : Heap)
      → IsSound h
      → arrival k h ≡ some old
      → arrival id (update_id k at h) ≡ (if k == id then some at else arrival id h)
  pub picks_available :
      (draws : List Bool) (now : Time) (h : Heap) (id : String)
      → IsSound h
      → random_available draws now h ≡ some id
      → (at : Time) × (arrival id h ≡ some at) × (at ≤ now)
  pub none_available :
      (draws : List Bool) (now : Time) (h : Heap)
      → IsSound h
      → random_available draws now h ≡ none
      → (id : String) (at : Time) → arrival id h ≡ some at
      → now < at

module _ (heaps : ClaimHeaps) where
  -- qLock, with its task store, taskQueue.byID
  pub record QueueLock : Type 0 where
    pub heap : heaps.Heap
    pub tasks : Dict String Task

  -- docNamespace; `byKey` indexes the docs of `byID` by key, and holds nothing else.
  pub record DocNamespace : Type 0 where
    pub by_id : Dict String Doc
    pub locks : Dict String Lock

  -- EQMem. The task stores of `queues` and the locks of `locksSuperUnsafe` go together.
  pub record EqMem : Type 0 where
    pub queues : Dict String QueueLock
    pub namespaces : Dict String DocNamespace
    pub q_by_id : Dict String String

  -- The new lock structure of lockForQueueUnsafe, over newTaskQueue
  abbrev pub new_queue : QueueLock
  new_queue = record { heap = heaps.empty; tasks = [] }

  -- lockForQueueUnsafe
  unfoldable pub lock_queue : String → Dict String QueueLock → Dict String QueueLock
  lock_queue q queues = if contains q queues then queues else insert q new_queue queues

  -- The loop of locksForQueues. A queue that is named twice is created once.
  unfoldable pub lock_queues : List String → Dict String QueueLock → Dict String QueueLock
  lock_queues [] queues = queues
  lock_queues (q ∷ qs) queues = lock_queues qs (lock_queue q queues)

  -- The cleanup of one queue when lockQueues unlocks
  unfoldable pub unlock_queue : String → Dict String QueueLock → Dict String QueueLock
  unlock_queue q queues = elim (lookup q queues) [
    | none ↦ queues
    | some ql ↦ if is_empty ql.tasks then erase q queues else queues
  ]

  unfoldable pub unlock_queues : List String → Dict String QueueLock → Dict String QueueLock
  unlock_queues [] queues = queues
  unlock_queues (q ∷ qs) queues = unlock_queue q (unlock_queues qs queues)

  -- queueLen, as a test
  abbrev pub has_no_tasks : String → EqMem → Bool
  has_no_tasks q st = elim (lookup q st.queues) [ none ↦ true | some ql ↦ is_empty ql.tasks ]

  -- The stored task of a queue
  unfoldable pub task_in : String → String → Dict String QueueLock → Option Task
  task_in q id queues = elim (lookup q queues) [ none ↦ none | some ql ↦ lookup id ql.tasks ]

  -- The task that a claim leaves
  abbrev pub claimed_task : ClaimQuery → Time → Task → Task
  claimed_task cq now t = record t {
    at = add now cq.duration;
    claimant = cq.claimant;
    version = inc32 t.version;
    claims = inc32 t.claims;
    modified = now;
  }

  -- What mustTryClaimOne comes to; `panicked` is its log.Panicf.
  pub data ClaimOutcome : Type 0 where
    nothing : EqMem → ClaimOutcome
    took : Task → EqMem → ClaimOutcome
    panicked : ClaimOutcome

  -- The update of the heap and of the task store
  unfoldable pub take_task : ClaimQuery → Time → String → QueueLock → Option (Task × QueueLock)
  take_task cq now id ql = elim (lookup id ql.tasks) [
    | none ↦ none
    | some t ↦
        let t' = claimed_task cq now t in
        some (
          t',
          record {
            heap = heaps.update_id id (add now cq.duration) ql.heap;
            tasks = insert id t' ql.tasks;
          },
        )
  ]

  -- mustTryClaimOne
  unfoldable pub must_try_claim_one : ClaimQuery → List Bool → Time → String → EqMem → ClaimOutcome
  must_try_claim_one cq draws now q st =
      if has_no_tasks q st then nothing st else elim (lookup q (lock_queue q st.queues)) [
        | none ↦ panicked
        | some ql ↦ elim (heaps.random_available draws now ql.heap) [
          | none ↦ nothing (record st { queues = unlock_queue q (lock_queue q st.queues) })
          | some id ↦ elim (take_task cq now id ql) [
            | none ↦ panicked
            | some (t, ql') ↦
                took t
                  (record st { queues = unlock_queue q (insert q ql' (lock_queue q st.queues)) })
          ]
        ]
      ]

  -- One turn of the loop of TryClaim: the queue, with the clock reading and the draws of the turn
  pub record Turn : Type 0 where
    pub queue : String
    pub now : Time
    pub draws : List Bool

  -- The loop of TryClaim, over the shuffled queues
  unfoldable pub try_claim_loop : ClaimQuery → List Turn → EqMem → ClaimOutcome
  try_claim_loop cq [] st = nothing st
  try_claim_loop cq (turn ∷ rest) st =
      elim (must_try_claim_one cq turn.draws turn.now turn.queue st) [
        | nothing st' ↦ try_claim_loop cq rest st'
        | took t st' ↦ took t st'
        | panicked ↦ panicked
      ]

  -- TryClaim
  unfoldable pub try_claim : ClaimQuery → List Turn → EqMem → Result ClaimOutcome
  try_claim cq turns st = do check_claim cq; ok (try_claim_loop cq turns st)
