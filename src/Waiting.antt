-- ===== src/Waiting.antt =====
-- Waiting for a task to claim, of entroq.go: PollTryClaim, WaitTryClaim and NotifyModified. The
-- backend's claim function and the waiter are parameters over a state of their own.
pub mod Notices
pub mod Polls
use entroq.Base.{
  ℤ, pos_part, neg_part, sub_ℕ, ◌+ℤ◌, ◌≤ℤ◌, ltb_ℤ, +ℤ_parts, eq_of_parts, int_laws, +ℤ_assoc,
  +ℤ-zero, zero-+ℤ, pos, negsuc, Time, Duration, add, after, before, is_zero, is_positive,
  is_zero_duration, int32_mod, inc32, IsInt32, is_positive32, inc32_moves, inc32-IsInt32, le32,
  Dict, lookup, insert, erase, contains, lookup-insert, lookup-erase, contains-insert, contains-nil,
  get_or, get_or-insert, map_values, lookup-map_values, AreNew, AreNew-cons, AreNew-nil, ltb, leb,
  if◌then◌else◌, ltb→lt, lt→ltb, le→not-ltb, Bool-cases, Option-cases, is_some, length, All,
  is_empty, any, keep, length-append, All-append, is_empty-keep, Distinct, everywhere, append-nil,
  append_assoc, is_empty_iff, All-iff, All-implied, All-both, keep-All, text_discrete, Eq,
  string_eq, nat_eq, ◌==◌, pair_discrete, runs, ℕ, zero, suc, ◌+◌, ◌-◌, ◌*◌, ◌/◌, ◌%◌, ◌^◌, ◌≤◌,
  ◌<◌, String, ◌<>◌, len, ◌≡◌, refl, sym, ap, ◌∙◌, ◌≢◌, ◌↔◌, ◌⊎◌, inl, inr, Bool, true, false, not,
  ◌&&◌, ◌||◌, Option, none, some, List, [], ◌∷◌, ◌++◌, map, arith,
}
use entroq.Task.{
  TaskId, new_task_id, TaskData, Task, new_task, id_version, data_of, TaskArrival, arrival_change,
}
use entroq.Errors.{
  Message, DependencyError, no_failures, Invalid, Failure, Result, ◌>>=◌, ◌>>◌, refuse_if, for_each,
  no_message, queue_mismatch, set_held, missing_task, lapsed_task, lost_claim, nothing_to_do,
  insert_without_queue, change_without_queue, arrival_without_queue, doc_insert_without_namespace,
  arrival_of_doc, arrival_without_namespace, arrives_twice, task_twice, doc_twice, two_references,
  set_delete, place_taken_twice, too_long, no_queues, no_claimant, no_duration, duration_too_long,
  no_sets, no_namespace, no_key, duplicate_set, two_leases, no_lease, negative_duration,
  lease_and_task, task_without_place, hold_in_past, invalid, dependency, missing_id, err, ok,
}

-- The body of the two loops of NotifyModified
abbrev pub is_available : Task → Bool
is_available t = not (after t.at t.modified)

unfoldable pub note_queue : Task → Dict String String → Dict String String
note_queue t qs = if is_available t then insert t.id t.queue qs else qs

unfoldable pub note_queues : List Task → Dict String String → Dict String String
note_queues [] qs = qs
note_queues (t ∷ rest) qs = note_queues rest (note_queue t qs)

-- NotifyModified: the queues that it notifies, by task ID, in no order
unfoldable pub notify_modified : List Task → List Task → Dict String String
notify_modified inserted changed = note_queues changed (note_queues inserted [])

-- What a BackendClaimFunc returns: an error, no task, or a task
pub data Try : Type 0 where
  try_failed : Failure → Try
  no_task : Try
  a_task : Task → Try

-- In seconds
abbrev pub max_check_interval : ℕ
max_check_interval = 30

abbrev pub start_interval : ℕ
start_interval = 1

-- `curWait` after a wait
unfoldable pub longer_wait : ℕ → ℕ
longer_wait wait = if ltb max_check_interval (wait * 2) then max_check_interval else wait * 2

-- The end of a poll, with the waits that it made; `context_ended` says that the context did.
pub data Polled : Type 0 where
  poll_failed : Failure → Polled
  polled : Task → Polled
  context_ended : Polled

module _ {W : Type 0} (try : W → Try × W) (wait_ends : ℕ → W → Bool × W) where
  -- The loop of PollTryClaim, on fuel for its tries: `none` while it goes on. `wait_ends` waits, and
  -- is true when the context has ended instead.
  unfoldable pub poll_loop : ℕ → ℕ → W → Option Polled × W
  poll_loop zero wait w = (none, w)
  poll_loop (suc k) wait w =
      let (t, w₁) = try w in
      let (ended, w₂) = wait_ends wait w₁ in
      let later = poll_loop k (longer_wait wait) w₂ in
      elim t [
        | try_failed e ↦ (some (poll_failed e), w₁)
        | a_task task ↦ (some (polled task), w₁)
        | no_task ↦ if ended then (some context_ended, w₂) else later
      ]

  -- PollTryClaim
  unfoldable pub poll_try_claim : ℕ → W → Option Polled × W
  poll_try_claim k w = poll_loop k start_interval w

-- WaitTryClaim over `Waiter.Wait`, which calls the condition until it holds and returns an error or
-- none. The condition keeps what its last try returned.
module _ {W : Type 0} (try : W → Try × W) where
  unfoldable pub try_condition : Try × W → Bool × (Try × W)
  try_condition (last, w) =
      let (t, w') = try w in
      (elim t [ try_failed e ↦ true | no_task ↦ false | a_task task ↦ true ], (t, w'))

  unfoldable pub wait_try_claim :
      ((Try × W → Bool × (Try × W)) → Try × W → Option Failure × (Try × W))
      → W
      → Result (Option Task) × W
  wait_try_claim wait w =
      let (e, (last, w')) = wait try_condition (no_task, w) in
      (
        elim e [
          | some why ↦ err why
          | none ↦ elim last [
            | try_failed why ↦ err why
            | no_task ↦ ok none
            | a_task task ↦ ok (some task)
          ]
        ],
        w',
      )
