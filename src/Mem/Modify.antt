-- ===== src/Mem/Modify.antt =====
-- Modify on the in-memory backend, eqmem.go: its preparation, its checks and its writes, when it is
-- called by a client; the branches that replay a journal are left out.
pub mod Refused
pub mod Accepted
pub mod Nameless
pub mod Indexes
use entroq.Base.{
  ℤ, pos_part, neg_part, sub_ℕ, ◌+ℤ◌, ◌≤ℤ◌, ltb_ℤ, +ℤ_parts, eq_of_parts, int_laws, +ℤ_assoc,
  +ℤ-zero, zero-+ℤ, pos, negsuc, Time, Duration, add, after, before, is_zero, is_positive,
  is_zero_duration, int32_mod, inc32, IsInt32, is_positive32, inc32_moves, inc32-IsInt32, le32,
  Dict, lookup, insert, erase, contains, lookup-insert, lookup-erase, contains-insert, contains-nil,
  get_or, get_or-insert, map_values, lookup-map_values, AreNew, AreNew-cons, AreNew-nil, ltb, leb,
  if◌then◌else◌, ltb→lt, lt→ltb, le→not-ltb, Bool-cases, Option-cases, is_some, length, All,
  is_empty, any, keep, length-append, All-append, is_empty-keep, Distinct, everywhere, append-nil,
  append_assoc, is_empty_iff, All-iff, text_discrete, Eq, string_eq, nat_eq, ◌==◌, pair_discrete,
  runs, ℕ, zero, suc, ◌+◌, ◌-◌, ◌*◌, ◌/◌, ◌%◌, ◌^◌, ◌≤◌, ◌<◌, String, ◌<>◌, len, ◌≡◌, refl, sym, ap,
  ◌∙◌, ◌≢◌, ◌↔◌, ◌⊎◌, inl, inr, Bool, true, false, not, ◌&&◌, ◌||◌, Option, none, some, List, [],
  ◌∷◌, ◌++◌, map, arith,
}
use entroq.Task.{
  TaskId, new_task_id, TaskData, Task, new_task, id_version, data_of, TaskArrival, arrival_change,
}
use entroq.Doc.{
  DocId, new_doc_id, new_doc_set_ref, is_set_ref, DocData, Doc, DocArrival, DocSet, DocSetClaim,
  DocClaim,
}
use entroq.Errors.{
  Message, DependencyError, no_failures, Invalid, Failure, Result, ◌>>=◌, ◌>>◌, refuse_if, for_each,
  no_message, queue_mismatch, set_held, missing_task, lapsed_task, nothing_to_do,
  insert_without_queue, change_without_queue, arrival_without_queue, doc_insert_without_namespace,
  arrival_of_doc, arrival_without_namespace, arrives_twice, task_twice, doc_twice, two_references,
  set_delete, place_taken_twice, too_long, no_queues, no_claimant, no_duration, duration_too_long,
  no_sets, no_namespace, no_key, duplicate_set, two_leases, no_lease, negative_duration,
  lease_and_task, task_without_place, hold_in_past, invalid, dependency, missing_id, err, ok,
}
use entroq.Modification.{
  Modification, empty_modification, ModifyArg, new_modification, modify_as, reset_claims_of,
  resets_claims, with_modification, names_nothing, SetName, set_name_eq, check_doc_arrives,
  ensure_modify_keys, doc_key, Versions, add_dep, minus_one, add_deps, add_named_deps,
  mod_dependencies, all_dependencies,
}
use entroq.Dependency.{
  otherwise_claimed, bad_inserts, Standing, task_standing, doc_standing, missing_claimed,
  bad_changes, bad_deletes, is_missing, missing_depends, bad_doc_inserts, bad_doc_changes,
  bad_doc_deletes, missing_doc_depends, has_missing, has_missing_docs, has_claimed_docs, has_claims,
  has_collisions, has_any, only_collisions, only_claims, implicates, found_failures,
  dependency_error, dedup_task_ids, DocName, doc_name_eq, doc_name, dedup_doc_ids, or_no_failures,
  merged_message, merged, merge, name_arrivals, absent, held, fine,
}
use entroq.DocSets.{
  Lock, absent_lock, is_held_at, held_by_other, overlay, claim, written, set_ref, current,
  claimed_set, held_error, Plan, Evaluation, run, fail_insert, fail_change, fail_delete,
  fail_depend, fail_claim, fail_arrive, count_docs, latest, write, report_claimed, is_provided,
  stored_set, claim_or_insert, insert_step, change_step, delete_step, depend_step, arrive_step,
  evaluation, next_lock, evaluate,
}
use entroq.Validate.{
  max_claim_duration, arrival_past_window, max_id_bytes, max_claimant_bytes, max_namespace_bytes,
  max_doc_key_bytes, exceeds, is_negative, ClaimQuery, validate_claim, check_claim_sets,
  matches_no_place, validate_doc_claim, check, check_claimant, check_claim, check_doc_claim,
  check_doc, check_one, doc_refs, Place, place_eq, place_of, check_places, doc_places,
  writes_something, lengths, check_modification, normalize_arrival, renewal_duration_for,
}
use entroq.Changes.{
  ChangeArg, queue_to, arrival_time_by, raw_value_to, joined_err, appending_err, err_to,
  err_to_zero, resetting_claims, attempt_to_next, attempt_to_zero, apply_args, change,
  is_quarantining, retry_or_quarantine, retry, quarantine, delete_task, depend_task, inserting,
  delete_doc, depend_doc, putting_doc, Ready, ArrivalEntry, sub_time, entry_by, doc_set_ref,
  add_entry, arriving, arrival_changes, ready_in, ready_at,
}
use entroq.Mem.{
  ClaimHeaps, QueueLock, DocNamespace, EqMem, new_queue, lock_queue, lock_queues, unlock_queue,
  unlock_queues, has_no_tasks, task_in, claimed_task, ClaimOutcome, take_task, must_try_claim_one,
  Turn, try_claim_loop, try_claim, nothing, took, panicked,
}
use entroq.Mem.Prepare.{
  is_misnamed, ensure_mod_queues, misplaced_inserts, queue_names, namespace_names, holder, or_now,
  ModifyResponse, empty_response, changed_task, inserted_task, with_lock, changed_doc, inserted_doc,
  task_part, all_failures,
}
use entroq.Mem.Found.{
  Queues, Namespaces, add_found, find_tasks, insert_places, task_places, doc_in, occupant_in,
  occupant_of, lock_of, lock_namespace, lock_namespaces, unlock_namespace, unlock_namespaces,
}
use entroq.Mem.Writes.{
  Tables, on_queue, delete_id, insert_task, update_task, apply_deletes, apply_change, apply_changes,
  apply_inserts, on_namespace, set_doc, delete_doc_id, set_lock, delete_docs, set_docs, set_locks,
  lock_after, changed_in, inserted_in, derefs_nil,
}

module _ (heaps : ClaimHeaps) where
  pub data ModifyOutcome : Type 0 where
    answered : Result ModifyResponse → EqMem heaps → ModifyOutcome
    crashed : ModifyOutcome

  -- modifyImpl from where it holds the locks, with the modification after arrival.Changes
  unfoldable pub commit :
      Modification → Time → Dict String Task → Plan → EqMem heaps → ModifyResponse × EqMem heaps
  commit m now found plan st =
      let nss = st.namespaces in
      let tables = apply_inserts heaps m now m.inserts (
        apply_changes heaps m now found m.changes
          (apply_deletes heaps m.deletes (st.queues, st.q_by_id))) in
      let changed_docs = map (changed_in heaps plan nss now) m.doc_changes in
      let inserted_docs = map (inserted_in heaps plan nss now) m.doc_inserts in
      (
        record {
          inserted_tasks = map (inserted_task m now) m.inserts;
          changed_tasks = map (λ c. changed_task m now (get_or c.id new_task found) c) m.changes;
          inserted_docs = inserted_docs;
          changed_docs = changed_docs;
          changed_sets = plan.arrived;
        },
        record {
          queues = tables.0;
          q_by_id = tables.1;
          namespaces = set_locks heaps plan.locks (
              set_docs heaps inserted_docs
                (set_docs heaps changed_docs (delete_docs heaps m.doc_deletes nss)));
        },
      )

  -- The deferred unlocks
  abbrev pub unlocked : List String → List String → EqMem heaps → EqMem heaps
  unlocked qs ns st = record st {
    queues = unlock_queues heaps qs st.queues;
    namespaces = unlock_namespaces heaps ns st.namespaces;
  }

  -- modifyImpl from where the locks are held, up to the unlocks
  unfoldable pub modify_locked :
      Modification
      → Time
      → Option DependencyError
      → Dict String String
      → EqMem heaps
      → ModifyOutcome
  modify_locked m now queue_deps misplaced st =
      let found = find_tasks heaps st.queues (task_places heaps m misplaced) [] in
      let m' = arrival_changes m (λ id. lookup id found) in
      let task_deps = dependency_error (task_part m') (λ id. lookup id found) (λ _. none) now in
      let plan =
        evaluate m' now (doc_in heaps st.namespaces) (occupant_of heaps st.namespaces)
          (lock_of heaps st.namespaces) in
      let (resp, st') = commit m' now found plan st in
      if derefs_nil heaps m'
      then crashed
      else elim (all_failures queue_deps task_deps plan.failed) [
        | some e ↦ answered (err (dependency e)) st
        | none ↦ answered (ok resp) st'
      ]

  abbrev pub unlock_outcome : List String → List String → ModifyOutcome → ModifyOutcome
  unlock_outcome qs ns (answered r st) = answered r (unlocked qs ns st)
  unlock_outcome qs ns crashed = crashed

  -- modifyImpl
  unfoldable pub modify_impl : Modification → Time → EqMem heaps → ModifyOutcome
  modify_impl m now st =
      let misplaced = misplaced_inserts st.q_by_id m.inserts in
      let queue_deps = ensure_mod_queues m st.q_by_id in
      let qs = queue_names m misplaced in
      let ns = namespace_names m in
      let locked : EqMem heaps = record st {
        queues = lock_queues heaps qs st.queues;
        namespaces = lock_namespaces heaps ns st.namespaces;
      } in
      if any (λ t. t.id == "") m.inserts || any (λ d. d.id == "") m.doc_inserts
      then answered (err missing_id) st
      else if not (is_some queue_deps)
          && is_empty qs
          && is_empty ns
          && is_empty m.deletes
          && is_empty m.depends
      then answered (ok empty_response) st
      else unlock_outcome qs ns (modify_locked m now queue_deps misplaced locked)

  -- Modify
  unfoldable pub modify : Modification → Time → EqMem heaps → ModifyOutcome
  modify m now st = elim (check_modification m) [
    | err why ↦ answered (err why) st
    | ok _ ↦ modify_impl m now st
  ]
