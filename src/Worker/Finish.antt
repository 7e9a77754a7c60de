-- ===== src/Worker/Finish.antt =====
-- The end of a doModifyHandler's work, Finish and commitFailed of pkg/worker/worker.go. The hooks of
-- a result are functions over the client's state.
pub mod Commits
use entroq.Base.{
  ℤ, pos_part, neg_part, sub_ℕ, ◌+ℤ◌, ◌≤ℤ◌, ltb_ℤ, +ℤ_parts, eq_of_parts, int_laws, +ℤ_assoc,
  +ℤ-zero, zero-+ℤ, pos, negsuc, Time, Duration, add, after, before, is_zero, is_positive,
  is_zero_duration, int32_mod, inc32, IsInt32, is_positive32, inc32_moves, inc32-IsInt32, le32,
  Dict, lookup, insert, erase, contains, lookup-insert, lookup-erase, contains-insert, contains-nil,
  get_or, get_or-insert, map_values, lookup-map_values, AreNew, AreNew-cons, AreNew-nil, ltb, leb,
  if◌then◌else◌, ltb→lt, lt→ltb, le→not-ltb, Bool-cases, Option-cases, is_some, length, All,
  is_empty, any, keep, length-append, All-append, is_empty-keep, Distinct, everywhere, append-nil,
  append_assoc, is_empty_iff, All-iff, All-implied, All-both, keep-All, text_discrete, Eq,
  string_eq, nat_eq, ◌==◌, pair_discrete, runs, ℕ, zero, suc, ◌+◌, ◌-◌, ◌*◌, ◌/◌, ◌%◌, ◌^◌, ◌≤◌,
  ◌<◌, String, ◌<>◌, len, ◌≡◌, refl, sym, ap, ◌∙◌, ◌≢◌, ◌↔◌, ◌⊎◌, inl, inr, Bool, true, false, not,
  ◌&&◌, ◌||◌, Option, none, some, List, [], ◌∷◌, ◌++◌, map, arith,
}
use entroq.Task.{
  TaskId, new_task_id, TaskData, Task, new_task, id_version, data_of, TaskArrival, arrival_change,
}
use entroq.Doc.{
  DocId, new_doc_id, new_doc_set_ref, is_set_ref, DocData, Doc, DocArrival, DocSet, DocSetClaim,
  DocClaim,
}
use entroq.Errors.{
  Message, DependencyError, no_failures, Invalid, Failure, Result, ◌>>=◌, ◌>>◌, refuse_if, for_each,
  no_message, queue_mismatch, set_held, missing_task, lapsed_task, lost_claim, nothing_to_do,
  insert_without_queue, change_without_queue, arrival_without_queue, doc_insert_without_namespace,
  arrival_of_doc, arrival_without_namespace, arrives_twice, task_twice, doc_twice, two_references,
  set_delete, place_taken_twice, too_long, no_queues, no_claimant, no_duration, duration_too_long,
  no_sets, no_namespace, no_key, duplicate_set, two_leases, no_lease, negative_duration,
  lease_and_task, task_without_place, hold_in_past, invalid, dependency, missing_id, err, ok,
}
use entroq.Modification.{
  Modification, empty_modification, ModifyArg, new_modification, modify_as, reset_claims_of,
  resets_claims, with_modification, names_nothing, SetName, set_name_eq, check_doc_arrives,
  ensure_modify_keys, doc_key, Versions, add_dep, minus_one, add_deps, add_named_deps,
  mod_dependencies, all_dependencies,
}
use entroq.Worker.{
  RetryError, retry_errorf, retry_after, or_move_to, retry_then_stop, MoveError, move_errorf,
  move_to_queue, move_then_stop, WorkError, as_retry, as_move, as_fatal, is_sentinel_error, Outcome,
  sentinel_outcome, RunOpt, quarter, jitter_spread, jitter_later, contention_delay,
  default_err_qmap, error_queue_for, Held, docs_in, set_key, retry_error, move_error, fatal_error,
  lost_dependency, canceled, timed_out, shut_down, unsupported, other_error, done, retried, moved,
  failed, lost, released,
}
use entroq.Worker.Commit.{
  set_versions, doc_versions, version_in, fix_change, fix_task_id, fix_arrival, fix_doc_change,
  fix_doc_id, fix_doc_arrival, fix_versions, rewrites_task, arrives_task, only_arrives,
  decided_arrivals, decided_inserts, decided_changes, release_entry, releasing,
}
use entroq.Worker.Sentinels.{
  Client, as_dependency, stop_after, after_modify, retry_modification, move_modification,
  commit_disposition, handle_sentinel_errors, quarantine_at_limit,
}

-- Result, with its modifications and hooks
pub record WorkResult (W : Type 0) : Type 0 where
  pub mods : List ModifyArg
  pub on_success : Option (W → Option WorkError × W)
  pub on_dependency : Option (DependencyError → W → Option WorkError × W)
  pub stop : Bool

-- The loop that resets the claims of the task where a change names it
unfoldable pub reset_changed : String → List Task → Modification → Modification
reset_changed id [] m = m
reset_changed id (t ∷ rest) m =
    let later = reset_changed id rest (reset_claims_of t.id m) in
    let kept = reset_changed id rest m in if t.id == id then later else kept

-- The modification that a result asks for, at the final versions, with the releases
unfoldable pub finish_modification : List ModifyArg → Held → Time → Modification
finish_modification [] final now = releasing now final.sets (new_modification "" [])
finish_modification (a ∷ args) final now =
    let m = fix_versions final.task final.sets (new_modification "" (a ∷ args)) in
    releasing now final.sets (reset_changed final.task.id m.changes m)

module _ {W : Type 0} where
  -- commitFailed
  unfoldable pub commit_failed : Option (WorkResult W) → WorkError → W → Option WorkError × W
  commit_failed result (lost_dependency e) w = elim result [
    | none ↦ (some (lost_dependency e), w)
    | some r ↦ elim r.on_dependency [
      | none ↦ (some (lost_dependency e), w)
      | some hook ↦
          let (ferr, w') = hook e w in
          (elim ferr [ none ↦ some (lost_dependency e) | some f ↦ some f ], w')
    ]
  ]
  commit_failed result e w = (some e, w)

  -- The part of Finish after a commit: OnSuccess, of whose errors only a fatal one counts, and the
  -- stop that the result asks for
  unfoldable pub after_commit : Option (WorkResult W) → W → Option WorkError × W
  after_commit none w = (none, w)
  after_commit (some r) w =
      let (e, w') = elim r.on_success as (λ _. Option WorkError × W) [
        | none ↦ (none, w)
        | some hook ↦ hook w
      ] in
      (
        elim e [
          | none ↦ stop_after r.stop
          | some f ↦ if is_some (as_fatal f) then some f else stop_after r.stop
        ],
        w',
      )

  -- `h.result.mods`, none for a nil result
  abbrev pub mods_of : Option (WorkResult W) → List ModifyArg
  mods_of none = []
  mods_of (some r) = r.mods

module _ {W : Type 0} (c : Client W) where
  -- `eqc.Modify(ctx, entroq.WithModification(m))`
  abbrev pub commit_request : Modification → Modification
  commit_request m = new_modification c.claimant (with_modification m ∷ [])

  -- doModifyHandler.Finish, for a task that is not nil: its error, and whether it set `released`
  unfoldable pub finish : Task → Option (WorkResult W) → Held → W → (Option WorkError × Bool) × W
  finish initial result final w =
      if not (is_empty (mods_of result)) && not (le32 initial.version final.task.version)
      then ((some (other_error "task updated inside worker body"), false), w)
      else (let m = finish_modification (mods_of result) final (c.now w) in
          if names_nothing m
          then (let (e, w') = after_commit result w in ((e, false), w'))
          else (let (failure, w₁) = c.modify (commit_request m) w in
              elim failure [
                | some why ↦ (let (e, w₂) = commit_failed result why w₁ in ((e, false), w₂))
                | none ↦
                    (let (e, w₂) = after_commit result w₁ in
                      ((e, only_arrives m final.task.id), w₂))
              ]))
