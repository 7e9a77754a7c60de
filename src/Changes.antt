-- ===== src/Changes.antt =====
-- The arguments that build a modification: task.go's inserts, changes, retries and quarantines,
-- doc.go's writes, and the arrivals of arrival.go. A value is its JSON text.
pub mod Source
pub mod Retry
use entroq.Base.{
  ℤ, pos_part, neg_part, sub_ℕ, ◌+ℤ◌, ◌≤ℤ◌, ltb_ℤ, +ℤ_parts, eq_of_parts, int_laws, +ℤ_assoc,
  +ℤ-zero, zero-+ℤ, pos, negsuc, Time, Duration, add, after, before, is_zero, is_positive,
  is_zero_duration, int32_mod, inc32, IsInt32, is_positive32, inc32_moves, inc32-IsInt32, le32,
  Dict, lookup, insert, erase, contains, lookup-insert, lookup-erase, contains-insert, contains-nil,
  get_or, get_or-insert, map_values, lookup-map_values, AreNew, AreNew-cons, AreNew-nil, ltb, leb,
  if◌then◌else◌, ltb→lt, lt→ltb, le→not-ltb, Bool-cases, Option-cases, is_some, length, All,
  is_empty, any, keep, length-append, All-append, is_empty-keep, Distinct, everywhere, append-nil,
  append_assoc, is_empty_iff, All-iff, text_discrete, Eq, string_eq, nat_eq, ◌==◌, pair_discrete,
  runs, ℕ, zero, suc, ◌+◌, ◌-◌, ◌*◌, ◌/◌, ◌%◌, ◌^◌, ◌≤◌, ◌<◌, String, ◌<>◌, len, ◌≡◌, refl, sym, ap,
  ◌∙◌, ◌≢◌, ◌↔◌, ◌⊎◌, inl, inr, Bool, true, false, not, ◌&&◌, ◌||◌, Option, none, some, List, [],
  ◌∷◌, ◌++◌, map, arith,
}
use entroq.Task.{
  TaskId, new_task_id, TaskData, Task, new_task, id_version, data_of, TaskArrival, arrival_change,
}
use entroq.Doc.{
  DocId, new_doc_id, new_doc_set_ref, is_set_ref, DocData, Doc, DocArrival, DocSet, DocSetClaim,
  DocClaim,
}
use entroq.Modification.{
  Modification, empty_modification, ModifyArg, new_modification, modify_as, reset_claims_of,
  resets_claims, with_modification, names_nothing, SetName, set_name_eq, check_doc_arrives,
  ensure_modify_keys, doc_key, Versions, add_dep, minus_one, add_deps, add_named_deps,
  mod_dependencies, all_dependencies,
}

-- ChangeArg writes to the modification and to the task that it changes.
abbrev pub ChangeArg : Type 0
ChangeArg = Modification → Task → Modification × Task

-- QueueTo
abbrev pub queue_to : String → ChangeArg
queue_to q m t = (m, record t { from_queue = t.queue; queue = q })

-- ArrivalTimeBy
abbrev pub arrival_time_by : Duration → ChangeArg
arrival_time_by d m t = (m, record t { by = d })

-- RawValueTo
abbrev pub raw_value_to : String → ChangeArg
raw_value_to v m t = (m, record t { value = v })

-- The text that AppendingErr leaves
abbrev pub joined_err : String → String → String
joined_err old new = if old == "" then new else if new == "" then old else old <> "\n" <> new

-- AppendingErr
abbrev pub appending_err : String → ChangeArg
appending_err e m t = (m, record t { err = joined_err t.err e })

-- ErrTo
abbrev pub err_to : String → ChangeArg
err_to e m t = (m, record t { err = e })

-- ErrToZero
abbrev pub err_to_zero : ChangeArg
err_to_zero = err_to ""

-- ResettingClaims
abbrev pub resetting_claims : ChangeArg
resetting_claims m t = (reset_claims_of t.id m, t)

-- AttemptToNext
abbrev pub attempt_to_next : ChangeArg
attempt_to_next m t = (m, record t { attempt = inc32 t.attempt })

-- AttemptToZero
abbrev pub attempt_to_zero : ChangeArg
attempt_to_zero m t = (m, record t { attempt = 0 })

-- The loop of Change over its arguments
unfoldable pub apply_args : List ChangeArg → Modification → Task → Modification × Task
apply_args [] m t = (m, t)
apply_args (a ∷ rest) m t = let (m', t') = a m t in apply_args rest m' t'

-- Task.Change
unfoldable pub change : Task → List ChangeArg → ModifyArg
change t args m =
    let (m', changed) = apply_args args m (record t { from_queue = t.queue; at = 0; by = pos 0 }) in
    record m' { changes = m'.changes ++ changed ∷ [] }

-- The condition of RetryOrQuarantine
unfoldable pub is_quarantining : Task → String → ℕ → Bool
is_quarantining t quarantine_to after_max_attempts =
    not (quarantine_to == "")
    && not (after_max_attempts == 0)
    && le32 after_max_attempts (inc32 t.attempt)

-- Task.RetryOrQuarantine
unfoldable pub retry_or_quarantine : Task → String → String → ℕ → List ChangeArg → ModifyArg
retry_or_quarantine t err_msg quarantine_to after_max_attempts overrides =
    let args = attempt_to_next ∷ appending_err err_msg ∷ resetting_claims ∷ [] in
    let quarantining = is_quarantining t quarantine_to after_max_attempts in
    let args' = if quarantining then args ++ queue_to quarantine_to ∷ [] else args in
    let args'' = args' ++ overrides in
    change t (if quarantining then args'' ++ arrival_time_by (pos 0) ∷ [] else args'')

-- Task.Retry
abbrev pub retry : Task → String → List ChangeArg → ModifyArg
retry t err_msg overrides = retry_or_quarantine t err_msg "" 0 overrides

-- Task.Quarantine
abbrev pub quarantine : Task → String → String → List ChangeArg → ModifyArg
quarantine t err_msg to_queue overrides = retry_or_quarantine t err_msg to_queue 1 overrides

-- TaskID.Delete and TaskID.Depend
abbrev pub delete_task : TaskId → ModifyArg
delete_task t m = record m { deletes = m.deletes ++ t ∷ [] }

abbrev pub depend_task : TaskId → ModifyArg
depend_task t m = record m { depends = m.depends ++ t ∷ [] }

-- Inserting
abbrev pub inserting : List TaskData → ModifyArg
inserting tds m = record m { inserts = m.inserts ++ tds }

-- DocID.Delete and DocID.Depend
abbrev pub delete_doc : DocId → ModifyArg
delete_doc r m = record m { doc_deletes = m.doc_deletes ++ r ∷ [] }

abbrev pub depend_doc : DocId → ModifyArg
depend_doc r m = record m { doc_depends = m.doc_depends ++ r ∷ [] }

-- PuttingDoc
abbrev pub putting_doc : DocData → ModifyArg
putting_doc d m = record m { doc_inserts = m.doc_inserts ++ d ∷ [] }

-- ArrivalEntry: an entry says in how long its items are ready again, or when, or nothing.
pub data Ready : Type 0 where
  ready_in : Duration → Ready
  ready_at : Time → Ready

pub record ArrivalEntry : Type 0 where
  pub ready : Ready
  pub tasks : List Task
  pub sets : List DocSet

-- `t.Sub(u)`, which does not saturate at the times that a process handles
abbrev pub sub_time : Time → Time → Duration
sub_time t u = sub_ℕ t u

-- ArrivalEntry.By
unfoldable pub entry_by : ArrivalEntry → Time → Duration
entry_by e now = elim e.ready [
  | ready_in d ↦ d
  | ready_at t ↦ if is_zero t then pos 0 else sub_time t now
]

-- DocSet.Ref
abbrev pub doc_set_ref : DocSet → DocId
doc_set_ref g = new_doc_set_ref g.ns g.key g.version

-- The body of the loop of Arriving
abbrev pub add_entry : Time → ArrivalEntry → ModifyArg
add_entry now e m =
    let by = entry_by e now in
    record m {
      arrives = m.arrives ++ map (λ t. record { task_id = id_version t; by = by }) e.tasks;
      doc_arrives = m.doc_arrives ++ map (λ g. record { doc_id = doc_set_ref g; by = by }) e.sets;
    }

-- Arriving, at the instant that it reads from the process's clock
unfoldable pub arriving : Time → List ArrivalEntry → ModifyArg
arriving now [] m = m
arriving now (e ∷ rest) m = arriving now rest (add_entry now e m)

-- arrival.Changes of pkg/backend/internal/arrival/arrival.go
unfoldable pub arrival_changes : Modification → (String → Option Task) → Modification
arrival_changes m stored = if is_empty m.arrives then m else record m {
  changes = m.changes ++ map (λ a. arrival_change a (stored a.id)) m.arrives;
  arrives = [];
}
