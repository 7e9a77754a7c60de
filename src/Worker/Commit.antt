-- ===== src/Worker/Commit.antt =====
-- The commit of a worker's result: fixVersions, releasing, and what a modification does to the task,
-- of pkg/worker/worker.go. A loop that sets the version of an entry through its pointer is a map.
pub mod Fixes
pub mod Releases
pub mod Named
use entroq.Base.{
  ℤ, pos_part, neg_part, sub_ℕ, ◌+ℤ◌, ◌≤ℤ◌, ltb_ℤ, +ℤ_parts, eq_of_parts, int_laws, +ℤ_assoc,
  +ℤ-zero, zero-+ℤ, pos, negsuc, Time, Duration, add, after, before, is_zero, is_positive,
  is_zero_duration, int32_mod, inc32, IsInt32, is_positive32, inc32_moves, inc32-IsInt32, le32,
  Dict, lookup, insert, erase, contains, lookup-insert, lookup-erase, contains-insert, contains-nil,
  get_or, get_or-insert, map_values, lookup-map_values, AreNew, AreNew-cons, AreNew-nil, ltb, leb,
  if◌then◌else◌, ltb→lt, lt→ltb, le→not-ltb, Bool-cases, Option-cases, is_some, length, All,
  is_empty, any, keep, length-append, All-append, is_empty-keep, Distinct, everywhere, append-nil,
  append_assoc, is_empty_iff, All-iff, text_discrete, Eq, string_eq, nat_eq, ◌==◌, pair_discrete,
  runs, ℕ, zero, suc, ◌+◌, ◌-◌, ◌*◌, ◌/◌, ◌%◌, ◌^◌, ◌≤◌, ◌<◌, String, ◌<>◌, len, ◌≡◌, refl, sym, ap,
  ◌∙◌, ◌≢◌, ◌↔◌, ◌⊎◌, inl, inr, Bool, true, false, not, ◌&&◌, ◌||◌, Option, none, some, List, [],
  ◌∷◌, ◌++◌, map, arith,
}
use entroq.Task.{
  TaskId, new_task_id, TaskData, Task, new_task, id_version, data_of, TaskArrival, arrival_change,
}
use entroq.Doc.{
  DocId, new_doc_id, new_doc_set_ref, is_set_ref, DocData, Doc, DocArrival, DocSet, DocSetClaim,
  DocClaim,
}
use entroq.Modification.{
  Modification, empty_modification, ModifyArg, new_modification, modify_as, reset_claims_of,
  resets_claims, with_modification, names_nothing, SetName, set_name_eq, check_doc_arrives,
  ensure_modify_keys, doc_key, Versions, add_dep, minus_one, add_deps, add_named_deps,
  mod_dependencies, all_dependencies,
}
use entroq.Changes.{
  ChangeArg, queue_to, arrival_time_by, raw_value_to, joined_err, appending_err, err_to,
  err_to_zero, resetting_claims, attempt_to_next, attempt_to_zero, apply_args, change,
  is_quarantining, retry_or_quarantine, retry, quarantine, delete_task, depend_task, inserting,
  delete_doc, depend_doc, putting_doc, Ready, ArrivalEntry, sub_time, entry_by, doc_set_ref,
  add_entry, arriving, arrival_changes, ready_in, ready_at,
}
use entroq.Worker.{
  RetryError, retry_errorf, retry_after, or_move_to, retry_then_stop, MoveError, move_errorf,
  move_to_queue, move_then_stop, WorkError, as_retry, as_move, as_fatal, is_sentinel_error, Outcome,
  sentinel_outcome, RunOpt, quarter, jitter_spread, jitter_later, contention_delay,
  default_err_qmap, error_queue_for, Held, docs_in, set_key, retry_error, move_error, fatal_error,
  lost_dependency, canceled, timed_out, shut_down, unsupported, other_error, done, retried, moved,
  failed, lost, released,
}

-- The maps setVers and docVers
unfoldable pub set_versions : List DocSet → Dict SetName ℕ → Dict SetName ℕ
set_versions [] seen = seen
set_versions (g ∷ sets) seen = set_versions sets (insert (set_key g) g.version seen)

unfoldable pub doc_versions : List Doc → Dict SetName ℕ → Dict SetName ℕ
doc_versions [] seen = seen
doc_versions (d ∷ docs) seen = doc_versions docs (insert (d.ns, d.id) d.version seen)

-- The version that a map has for a name, or else the version that is there
abbrev pub version_in : Dict SetName ℕ → SetName → ℕ → ℕ
version_in vers name old = get_or name old vers

-- The bodies of the loops of fixVersions
unfoldable pub fix_change : Task → Task → Task
fix_change task t = if t.id == task.id then record t { version = task.version } else t

unfoldable pub fix_task_id : Task → TaskId → TaskId
fix_task_id task t = if t.id == task.id then record t { version = task.version } else t

unfoldable pub fix_arrival : Task → TaskArrival → TaskArrival
fix_arrival task a = record a { task_id = fix_task_id task a.task_id }

unfoldable pub fix_doc_change : Dict SetName ℕ → Doc → Doc
fix_doc_change vers d = record d { version = version_in vers (d.ns, d.id) d.version }

unfoldable pub fix_doc_id : Dict SetName ℕ → DocId → DocId
fix_doc_id vers d = record d { version = version_in vers (d.ns, d.id) d.version }

unfoldable pub fix_doc_arrival : Dict SetName ℕ → DocArrival → DocArrival
fix_doc_arrival vers a = record a {
  doc_id = record a.doc_id { version = version_in vers (a.ns, a.key) a.version };
}

-- fixVersions
unfoldable pub fix_versions : Task → List DocSet → Modification → Modification
fix_versions task sets m =
    let set_vers = set_versions sets [] in
    let doc_vers = doc_versions (docs_in sets) [] in
    record m {
      changes = map (fix_change task) m.changes;
      depends = map (fix_task_id task) m.depends;
      deletes = map (fix_task_id task) m.deletes;
      arrives = map (fix_arrival task) m.arrives;
      doc_changes = map (fix_doc_change doc_vers) m.doc_changes;
      doc_deletes = map (fix_doc_id doc_vers) m.doc_deletes;
      doc_depends = map (fix_doc_id doc_vers) m.doc_depends;
      doc_arrives = map (fix_doc_arrival set_vers) m.doc_arrives;
    }

-- rewritesTask
unfoldable pub rewrites_task : Modification → String → Bool
rewrites_task m id = any (λ t. t.id == id) m.changes || any (λ t. t.id == id) m.deletes

-- arrives
unfoldable pub arrives_task : Modification → String → Bool
arrives_task m id = any (λ a. a.id == id) m.arrives

-- onlyArrives
unfoldable pub only_arrives : Modification → String → Bool
only_arrives m id = arrives_task m id && not (rewrites_task m id)

-- The three loops that build `decided`
unfoldable pub decided_arrivals : List DocArrival → Dict SetName Bool → Dict SetName Bool
decided_arrivals [] seen = seen
decided_arrivals (a ∷ rest) seen = decided_arrivals rest (insert (a.ns, a.key) true seen)

unfoldable pub decided_inserts : List DocData → Dict SetName Bool → Dict SetName Bool
decided_inserts [] seen = seen
decided_inserts (i ∷ rest) seen =
    decided_inserts rest (if is_positive i.by then insert (i.ns, i.key) true seen else seen)

unfoldable pub decided_changes : List Doc → Dict SetName Bool → Dict SetName Bool
decided_changes [] seen = seen
decided_changes (d ∷ rest) seen =
    decided_changes rest (if is_positive d.by then insert (d.ns, d.key) true seen else seen)

-- ReadyNow of arrival.go, an entry at the zero time, with docs
abbrev pub release_entry : List DocSet → ArrivalEntry
release_entry sets = record { ready = ready_at 0; tasks = []; sets = sets }

-- releasing; `now` is what Arriving reads and, for this entry, ignores.
unfoldable pub releasing : Time → List DocSet → Modification → Modification
releasing now sets m =
    let decided =
      decided_changes m.doc_changes
        (decided_inserts m.doc_inserts (decided_arrivals m.doc_arrives [])) in
    let free = keep (λ g. not (contains (set_key g) decided)) sets in
    if is_empty sets then m else arriving now (release_entry free ∷ []) m
