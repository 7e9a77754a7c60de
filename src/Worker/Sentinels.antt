-- ===== src/Worker/Sentinels.antt =====
-- The dispositions of pkg/worker/worker.go: what a sentinel error makes of a task. The client is a
-- parameter over a state `W` of its own: `ctx_err` is `ctx.Err()`, `modify` is `eqc.Modify`, which
-- returns an error or none. `now` is the instant that Arriving reads.
pub mod Effects
use entroq.Base.{
  ℤ, pos_part, neg_part, sub_ℕ, ◌+ℤ◌, ◌≤ℤ◌, ltb_ℤ, +ℤ_parts, eq_of_parts, int_laws, +ℤ_assoc,
  +ℤ-zero, zero-+ℤ, pos, negsuc, Time, Duration, add, after, before, is_zero, is_positive,
  is_zero_duration, int32_mod, inc32, IsInt32, is_positive32, inc32_moves, inc32-IsInt32, le32,
  Dict, lookup, insert, erase, contains, lookup-insert, lookup-erase, contains-insert, contains-nil,
  get_or, get_or-insert, map_values, lookup-map_values, AreNew, AreNew-cons, AreNew-nil, ltb, leb,
  if◌then◌else◌, ltb→lt, lt→ltb, le→not-ltb, Bool-cases, Option-cases, is_some, length, All,
  is_empty, any, keep, length-append, All-append, is_empty-keep, Distinct, everywhere, append-nil,
  append_assoc, is_empty_iff, All-iff, All-implied, text_discrete, Eq, string_eq, nat_eq, ◌==◌,
  pair_discrete, runs, ℕ, zero, suc, ◌+◌, ◌-◌, ◌*◌, ◌/◌, ◌%◌, ◌^◌, ◌≤◌, ◌<◌, String, ◌<>◌, len, ◌≡◌,
  refl, sym, ap, ◌∙◌, ◌≢◌, ◌↔◌, ◌⊎◌, inl, inr, Bool, true, false, not, ◌&&◌, ◌||◌, Option, none,
  some, List, [], ◌∷◌, ◌++◌, map, arith,
}
use entroq.Task.{
  TaskId, new_task_id, TaskData, Task, new_task, id_version, data_of, TaskArrival, arrival_change,
}
use entroq.Doc.{
  DocId, new_doc_id, new_doc_set_ref, is_set_ref, DocData, Doc, DocArrival, DocSet, DocSetClaim,
  DocClaim,
}
use entroq.Errors.{
  Message, DependencyError, no_failures, Invalid, Failure, Result, ◌>>=◌, ◌>>◌, refuse_if, for_each,
  no_message, queue_mismatch, set_held, missing_task, lapsed_task, lost_claim, nothing_to_do,
  insert_without_queue, change_without_queue, arrival_without_queue, doc_insert_without_namespace,
  arrival_of_doc, arrival_without_namespace, arrives_twice, task_twice, doc_twice, two_references,
  set_delete, place_taken_twice, too_long, no_queues, no_claimant, no_duration, duration_too_long,
  no_sets, no_namespace, no_key, duplicate_set, two_leases, no_lease, negative_duration,
  lease_and_task, task_without_place, hold_in_past, invalid, dependency, missing_id, err, ok,
}
use entroq.Modification.{
  Modification, empty_modification, ModifyArg, new_modification, modify_as, reset_claims_of,
  resets_claims, with_modification, names_nothing, SetName, set_name_eq, check_doc_arrives,
  ensure_modify_keys, doc_key, Versions, add_dep, minus_one, add_deps, add_named_deps,
  mod_dependencies, all_dependencies,
}
use entroq.Changes.{
  ChangeArg, queue_to, arrival_time_by, raw_value_to, joined_err, appending_err, err_to,
  err_to_zero, resetting_claims, attempt_to_next, attempt_to_zero, apply_args, change,
  is_quarantining, retry_or_quarantine, retry, quarantine, delete_task, depend_task, inserting,
  delete_doc, depend_doc, putting_doc, Ready, ArrivalEntry, sub_time, entry_by, doc_set_ref,
  add_entry, arriving, arrival_changes, ready_in, ready_at,
}
use entroq.Worker.{
  RetryError, retry_errorf, retry_after, or_move_to, retry_then_stop, MoveError, move_errorf,
  move_to_queue, move_then_stop, WorkError, as_retry, as_move, as_fatal, is_sentinel_error, Outcome,
  sentinel_outcome, RunOpt, quarter, jitter_spread, jitter_later, contention_delay,
  default_err_qmap, error_queue_for, Held, docs_in, set_key, retry_error, move_error, fatal_error,
  lost_dependency, canceled, timed_out, shut_down, unsupported, other_error, done, retried, moved,
  failed, lost, released,
}
use entroq.Worker.Commit.{
  set_versions, doc_versions, version_in, fix_change, fix_task_id, fix_arrival, fix_doc_change,
  fix_doc_id, fix_doc_arrival, fix_versions, rewrites_task, arrives_task, only_arrives,
  decided_arrivals, decided_inserts, decided_changes, release_entry, releasing,
}

pub record Client (W : Type 0) : Type 0 where
  pub ctx_err : W → Option WorkError
  pub modify : Modification → W → Option WorkError × W
  pub now : W → Time
  pub claimant : String

-- AsDependency
abbrev pub as_dependency : WorkError → Option DependencyError
as_dependency (lost_dependency e) = some e
as_dependency _ = none

-- stopAfter; the error wraps ErrShutdown.
unfoldable pub stop_after : Bool → Option WorkError
stop_after stop = if stop then some shut_down else none

-- What handleSentinelErrors returns after its Modify: a dependency error is only logged.
unfoldable pub after_modify : Bool → Option WorkError → Bool × Option WorkError
after_modify stop none = (true, stop_after stop)
after_modify stop (some e) =
    if is_some (as_dependency e) then (true, stop_after stop) else (true, some e)

-- The modifications of a retry and of a move
unfoldable pub retry_modification :
    String → Time → RetryError → Task → List DocSet → String → RunOpt → Modification
retry_modification claimant now re task sets err_q opts =
    let delay : Duration = elim re.after [ none ↦ opts.base_retry_delay | some d ↦ d ] in
    let q = if re.move_to == "" then err_q else re.move_to in
    new_modification claimant (
      retry_or_quarantine task re.msg q opts.max_attempts (arrival_time_by delay ∷ [])
      ∷ arriving now (release_entry sets ∷ [])
      ∷ [])

unfoldable pub move_modification :
    String → Time → MoveError → Task → List DocSet → String → Modification
move_modification claimant now me task sets err_q =
    let q = if me.to == "" then err_q else me.to in
    new_modification claimant
      (quarantine task me.msg q [] ∷ arriving now (release_entry sets ∷ []) ∷ [])

module _ {W : Type 0} (c : Client W) where
  -- Modify, and what is returned after it
  unfoldable pub commit_disposition : Modification → Bool → W → (Bool × Option WorkError) × W
  commit_disposition m stop w = let (e, w') = c.modify m w in (after_modify stop e, w')

  -- handleSentinelErrors: whether the error is a sentinel, and an error
  unfoldable pub handle_sentinel_errors :
      WorkError → Task → List DocSet → String → RunOpt → W → (Bool × Option WorkError) × W
  handle_sentinel_errors (retry_error re) task sets err_q opts w = elim (c.ctx_err w) [
    | some cerr ↦ ((true, some cerr), w)
    | none ↦
        commit_disposition (retry_modification c.claimant (c.now w) re task sets err_q opts) re.stop
          w
  ]
  handle_sentinel_errors (move_error me) task sets err_q opts w = elim (c.ctx_err w) [
    | some cerr ↦ ((true, some cerr), w)
    | none ↦
        commit_disposition (move_modification c.claimant (c.now w) me task sets err_q) me.stop w
  ]
  handle_sentinel_errors (fatal_error fe) task sets err_q opts w =
      ((true, some (fatal_error fe)), w)
  handle_sentinel_errors _ task sets err_q opts w = ((false, none), w)

  -- quarantineAtLimit; the error that it records is a text.
  unfoldable pub quarantine_at_limit :
      Task → List DocSet → String → Option (String → String) → RunOpt → W → Bool × W
  quarantine_at_limit task sets msg err_qmap opts w =
      if not (is_positive32 opts.max_claims)
        || not (le32 opts.max_claims task.claims)
        || is_some (c.ctx_err w)
      then (false, w)
      else (let (r, w') =
            handle_sentinel_errors (move_error (move_errorf msg)) task sets
              (error_queue_for err_qmap task.queue) opts w in
          (not (is_some r.1), w'))
