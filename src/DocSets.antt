-- ===== src/DocSets.antt =====
-- pkg/backend/internal/docset/docset.go: the claim and version rules for doc sets. A set is named by
-- its namespace and key; the errors of the callbacks, which eqmem never returns, are left out.
pub mod Claiming
pub mod Steps
pub mod Writes
pub mod Outcome
pub mod Locks
use entroq.Base.{
  ℤ, pos_part, neg_part, sub_ℕ, ◌+ℤ◌, ◌≤ℤ◌, ltb_ℤ, +ℤ_parts, eq_of_parts, int_laws, +ℤ_assoc,
  +ℤ-zero, zero-+ℤ, pos, negsuc, Time, Duration, add, after, before, is_zero, is_positive,
  is_zero_duration, int32_mod, inc32, IsInt32, is_positive32, inc32_moves, inc32-IsInt32, le32,
  Dict, lookup, insert, erase, contains, lookup-insert, lookup-erase, contains-insert, contains-nil,
  get_or, get_or-insert, map_values, lookup-map_values, ltb, leb, if◌then◌else◌, ltb→lt, lt→ltb,
  le→not-ltb, Bool-cases, Option-cases, is_some, length, All, is_empty, any, keep, length-append,
  All-append, is_empty-keep, Distinct, everywhere, text_discrete, Eq, string_eq, nat_eq, ◌==◌,
  pair_discrete, runs, ℕ, zero, suc, ◌+◌, ◌-◌, ◌*◌, ◌/◌, ◌%◌, ◌^◌, ◌≤◌, ◌<◌, String, ◌<>◌, len, ◌≡◌,
  refl, sym, ap, ◌∙◌, ◌≢◌, ◌↔◌, ◌⊎◌, inl, inr, Bool, true, false, not, ◌&&◌, ◌||◌, Option, none,
  some, List, [], ◌∷◌, ◌++◌, map, arith,
}
use entroq.Doc.{DocId, new_doc_id, new_doc_set_ref, is_set_ref, DocData, Doc, DocArrival, DocSet}
use entroq.Task.{
  TaskId, new_task_id, TaskData, Task, new_task, id_version, data_of, TaskArrival, arrival_change,
}
use entroq.Errors.{
  Message, DependencyError, no_failures, Invalid, Failure, Result, ◌>>=◌, ◌>>◌, refuse_if, for_each,
  no_message, queue_mismatch, set_held, missing_task, lapsed_task, nothing_to_do,
  insert_without_queue, change_without_queue, arrival_without_queue, doc_insert_without_namespace,
  arrival_of_doc, arrival_without_namespace, arrives_twice, task_twice, doc_twice, two_references,
  set_delete, place_taken_twice, too_long, no_queues, no_claimant, no_duration, duration_too_long,
  no_sets, no_namespace, no_key, duplicate_set, two_leases, no_lease, invalid, dependency,
  missing_id, ok, err,
}
use entroq.Modification.{
  Modification, empty_modification, ModifyArg, new_modification, modify_as, reset_claims_of,
  resets_claims, with_modification, names_nothing, SetName, set_name_eq, check_doc_arrives,
  ensure_modify_keys, doc_key, Versions, add_dep, minus_one, add_deps, add_named_deps,
  mod_dependencies, all_dependencies,
}
use entroq.Dependency.{
  otherwise_claimed, bad_inserts, Standing, task_standing, doc_standing, missing_claimed,
  bad_changes, bad_deletes, is_missing, missing_depends, bad_doc_inserts, bad_doc_changes,
  bad_doc_deletes, missing_doc_depends, has_missing, has_missing_docs, has_claimed_docs, has_claims,
  has_collisions, has_any, only_collisions, only_claims, implicates, found_failures,
  dependency_error, dedup_task_ids, DocName, doc_name_eq, doc_name, dedup_doc_ids, or_no_failures,
  merged_message, merged, merge, name_arrivals, absent, held, fine,
}

pub record Lock : Type 0 where
  pub stored : Bool
  pub version : ℕ
  pub claimant : String
  pub at : Time
  pub num_docs : ℤ

-- Absent
abbrev pub absent_lock : Lock
absent_lock = record { stored = false; version = 0; claimant = ""; at = 0; num_docs = pos 0 }

-- Lock.Held
abbrev pub is_held_at : Lock → Time → Bool
is_held_at l now = not (l.claimant == "") && before now l.at

-- Lock.HeldByOther
abbrev pub held_by_other : Lock → String → Time → Bool
held_by_other l claimant now = is_held_at l now && not (l.claimant == claimant)

-- Overlay
unfoldable pub overlay : Doc → Lock → Doc
overlay member l = record member { version = l.version; claimant = l.claimant; at = l.at }

-- Claim, where `none` is the false result
unfoldable pub claim : Lock → String → Time → Time → Option Lock
claim l claimant now until =
    if held_by_other l claimant now
    then none
    else some (record {
      stored = true;
      version = inc32 l.version;
      claimant = claimant;
      at = until;
      num_docs = l.num_docs;
    })

-- written
unfoldable pub written : Lock → ℕ
written l = if not l.stored then 0 else inc32 l.version

-- Ref
abbrev pub set_ref : SetName → Lock → DocId
set_ref g l = new_doc_set_ref g.0 g.1 l.version

-- Current
unfoldable pub current : SetName → Lock → DocSet
current g l = record {
  ns = g.0;
  key = g.1;
  version = l.version;
  claimant = l.claimant;
  at = l.at;
  num_docs = l.num_docs;
  docs = [];
}

-- Claimed
unfoldable pub claimed_set : SetName → Lock → List Doc → DocSet
claimed_set g l members = record {
  ns = g.0;
  key = g.1;
  version = l.version;
  claimant = l.claimant;
  at = l.at;
  num_docs = l.num_docs;
  docs = map (λ d. overlay d l) members;
}

-- HeldError
unfoldable pub held_error : SetName → Lock → List Doc → DependencyError
held_error g l members = record no_failures {
  message = set_held (set_ref g l);
  doc_claims = set_ref g l ∷ map (λ d. new_doc_id d.ns d.id l.version) members;
}

-- docset.Plan: what Evaluate decides
pub record Plan : Type 0 where
  pub failed : Option DependencyError
  pub locks : Dict SetName Lock
  pub arrived : List DocSet

-- The variables of Evaluate that its loops write.
pub record Evaluation : Type 0 where
  pub failures : DependencyError
  pub held : Dict SetName Time
  pub added : Dict SetName ℤ
  pub reported : Dict SetName Bool

-- A loop that updates its variables once for each entry.
unfoldable pub run {ℓ} :
    {A : Type ℓ} → (A → Evaluation → Evaluation) → List A → Evaluation → Evaluation
run step [] st = st
run step (x ∷ xs) st = run step xs (step x st)

-- `depErr.DocInserts = append(…)`, and so for the other kinds
unfoldable pub fail_insert : DocId → Evaluation → Evaluation
fail_insert id st = record st {
  failures = record (st.failures) { doc_inserts = st.failures.doc_inserts ++ id ∷ [] };
}

unfoldable pub fail_change : DocId → Evaluation → Evaluation
fail_change id st = record st {
  failures = record (st.failures) { doc_changes = st.failures.doc_changes ++ id ∷ [] };
}

unfoldable pub fail_delete : DocId → Evaluation → Evaluation
fail_delete id st = record st {
  failures = record (st.failures) { doc_deletes = st.failures.doc_deletes ++ id ∷ [] };
}

unfoldable pub fail_depend : DocId → Evaluation → Evaluation
fail_depend id st = record st {
  failures = record (st.failures) { doc_depends = st.failures.doc_depends ++ id ∷ [] };
}

unfoldable pub fail_claim : DocId → Evaluation → Evaluation
fail_claim id st = record st {
  failures = record (st.failures) { doc_claims = st.failures.doc_claims ++ id ∷ [] };
}

unfoldable pub fail_arrive : DocId → Evaluation → Evaluation
fail_arrive id st = record st {
  failures = record (st.failures) { doc_arrives = st.failures.doc_arrives ++ id ∷ [] };
}

-- `added[g] += n`
unfoldable pub count_docs : SetName → ℤ → Evaluation → Evaluation
count_docs g n st = record st { added = insert g (get_or g (pos 0) st.added +ℤ n) st.added }

-- The arrival that a write leaves, from the latest one so far
abbrev pub latest : Time → Duration → Time → Time
latest now by so_far = if is_positive by && after (add now by) so_far then add now by else so_far

-- The closure `write`
unfoldable pub write : Time → SetName → Duration → Evaluation → Evaluation
write now g by st = record st { held = insert g (latest now by (get_or g 0 st.held)) st.held }

-- The loops, over the modification, the clock reading and the stored docs and locks.
module _ (m : Modification) (now : Time) (member : String → String → Option Doc)
    (occupant : SetName → String → Option Doc) (lock : SetName → Lock) where
  -- The closure `claimed`
  unfoldable pub report_claimed : SetName → Evaluation → Bool × Evaluation
  report_claimed g st =
      if not (held_by_other (lock g) m.claimant now)
      then (false, st)
      else if contains g st.reported
      then (true, st)
      else (
        true,
        fail_claim (set_ref g (lock g)) (record st { reported = insert g true st.reported }),
      )

  -- The map `provided`
  unfoldable pub is_provided : SetName → Bool
  is_provided g =
      any (λ a. (a.ns, a.key) == g) m.doc_arrives
      || any (λ d. is_set_ref d && ((d.ns, d.key) == g)) m.doc_depends

  -- The closure `stored`
  unfoldable pub stored_set : String → String → ℕ → Option SetName
  stored_set ns id version = elim (member ns id) [
    | none ↦ none
    | some d ↦
        if version == 0 && is_provided (d.ns, d.key)
        then some (d.ns, d.key)
        else if (lock (d.ns, d.key)).version == version
        then some (d.ns, d.key)
        else none
  ]

  -- The body of the loop over inserts, from `if claimed(g)` on
  unfoldable pub claim_or_insert : DocData → Evaluation → Evaluation
  claim_or_insert ins st =
      let g : SetName = (ins.ns, ins.key) in
      let (taken, st') = report_claimed g st in
      if taken
      then fail_claim (new_doc_id ins.ns ins.id (lock g).version) st'
      else count_docs g (pos 1) (write now g ins.by st')

  unfoldable pub insert_step : DocData → Evaluation → Evaluation
  insert_step ins st =
      let g : SetName = (ins.ns, ins.key) in
      if not (ins.id == "") && is_some (member ins.ns ins.id)
      then fail_insert (new_doc_id ins.ns ins.id 0) st
      else if ltb_ℤ (pos 0) (lock g).num_docs
      then elim (occupant g ins.secondary_key) [
        | some there ↦ fail_insert (new_doc_id there.ns there.id (lock g).version) st
        | none ↦ claim_or_insert ins st
      ]
      else claim_or_insert ins st

  unfoldable pub change_step : Doc → Evaluation → Evaluation
  change_step chg st =
      let id = new_doc_id chg.ns chg.id chg.version in
      elim (stored_set chg.ns chg.id chg.version) [
        | none ↦ fail_change id st
        | some g ↦
            let (taken, st') = report_claimed g st in
            if taken then fail_claim id st' else write now g chg.by st'
      ]

  unfoldable pub delete_step : DocId → Evaluation → Evaluation
  delete_step del st = elim (stored_set del.ns del.id del.version) [
    | none ↦ fail_delete del st
    | some g ↦
        let (taken, st') = report_claimed g st in
        if taken then fail_claim del st' else count_docs g (negsuc 0) (write now g (pos 0) st')
  ]

  unfoldable pub depend_step : DocId → Evaluation → Evaluation
  depend_step dep st =
      if is_set_ref dep
      then (let l = lock (dep.ns, dep.key) in
          if not l.stored || not (l.version == dep.version) then fail_depend dep st else st)
      else elim (stored_set dep.ns dep.id dep.version) [ none ↦ fail_depend dep st | some _ ↦ st ]

  unfoldable pub arrive_step : DocArrival → Evaluation → Evaluation
  arrive_step a st =
      let g : SetName = (a.ns, a.key) in
      let l = lock g in
      if not l.stored || not (l.version == a.version)
      then fail_arrive (set_ref g l) st
      else let (taken, st') = report_claimed g st in if taken then st' else write now g a.by st'

  -- All the loops of Evaluate, in order
  unfoldable pub evaluation : Evaluation
  evaluation =
      let st₀ : Evaluation = record {
        failures = no_failures;
        held = [];
        added = [];
        reported = [];
      } in
      let st₁ = run insert_step m.doc_inserts st₀ in
      let st₂ = run change_step m.doc_changes st₁ in
      let st₃ = run delete_step m.doc_deletes st₂ in
      let st₄ = run depend_step m.doc_depends st₃ in run arrive_step m.doc_arrives st₄

  -- The lock that a written set ends with
  unfoldable pub next_lock : Dict SetName ℤ → SetName → Time → Lock
  next_lock added g at =
      let l = lock g in
      let next : Lock = record {
        stored = true;
        version = written l;
        claimant = "";
        at = now;
        num_docs = l.num_docs +ℤ get_or g (pos 0) added;
      } in
      if not (is_zero at) then record next { claimant = m.claimant; at = at } else next

  -- Evaluate
  unfoldable pub evaluate : Plan
  evaluate =
      let st = evaluation in
      let locks = map_values (next_lock st.added) st.held in
      if has_any st.failures
      then record { failed = some st.failures; locks = []; arrived = [] }
      else record {
        failed = none;
        locks = locks;
        arrived =
            map (λ a. current (a.ns, a.key) (get_or (a.ns, a.key) absent_lock locks)) m.doc_arrives;
      }
