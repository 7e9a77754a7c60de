-- ===== src/Dependency.antt =====
-- The dependency check of entroq.go: what DependencyError finds wrong with a modification, and the
-- operations on the error that it returns. A `found` map is the function that looks a key up.
pub mod Check
pub mod Merge
use entroq.Base.{
  ℤ, pos_part, neg_part, sub_ℕ, ◌+ℤ◌, ◌≤ℤ◌, ltb_ℤ, +ℤ_parts, eq_of_parts, int_laws, pos, negsuc,
  Time, Duration, add, after, before, is_zero, is_positive, is_zero_duration, int32_mod, inc32,
  IsInt32, is_positive32, inc32_moves, inc32-IsInt32, le32, Dict, lookup, insert, erase, contains,
  lookup-insert, lookup-erase, contains-insert, contains-nil, ltb, leb, if◌then◌else◌, ltb→lt,
  lt→ltb, le→not-ltb, Bool-cases, Option-cases, length, All, is_empty, any, keep, length-append,
  All-append, is_empty-keep, Distinct, everywhere, text_discrete, Eq, string_eq, nat_eq, ◌==◌,
  pair_discrete, runs, ℕ, zero, suc, ◌+◌, ◌-◌, ◌*◌, ◌/◌, ◌%◌, ◌^◌, ◌≤◌, ◌<◌, String, ◌<>◌, len, ◌≡◌,
  refl, sym, ap, ◌∙◌, ◌≢◌, ◌↔◌, ◌⊎◌, inl, inr, Bool, true, false, not, ◌&&◌, ◌||◌, Option, none,
  some, List, [], ◌∷◌, ◌++◌, map, arith,
}
use entroq.Doc.{DocId, new_doc_id, new_doc_set_ref, is_set_ref, DocData, Doc, DocArrival, DocSet}
use entroq.Task.{
  TaskId, new_task_id, TaskData, Task, new_task, id_version, data_of, TaskArrival, arrival_change,
}
use entroq.Errors.{
  Message, DependencyError, no_failures, Invalid, Failure, Result, ◌>>=◌, ◌>>◌, refuse_if, for_each,
  no_message, queue_mismatch, set_held, missing_task, lapsed_task, nothing_to_do,
  insert_without_queue, change_without_queue, arrival_without_queue, doc_insert_without_namespace,
  arrival_of_doc, arrival_without_namespace, arrives_twice, task_twice, doc_twice, two_references,
  set_delete, place_taken_twice, too_long, no_queues, no_claimant, no_duration, duration_too_long,
  no_sets, no_namespace, no_key, duplicate_set, two_leases, no_lease, invalid, dependency,
  missing_id, ok, err,
}
use entroq.Modification.{
  Modification, empty_modification, ModifyArg, new_modification, modify_as, reset_claims_of,
  resets_claims, with_modification, names_nothing, SetName, set_name_eq, check_doc_arrives,
  ensure_modify_keys, doc_key, Versions, add_dep, minus_one, add_deps, add_named_deps,
  mod_dependencies, all_dependencies,
}

-- otherwiseClaimed
unfoldable pub otherwise_claimed : Modification → Task → Time → Bool
otherwise_claimed m task now =
    after task.at now && not (task.claimant == "") && not (task.claimant == m.claimant)

-- badInserts
unfoldable pub bad_inserts : (String → Option Task) → List TaskData → List TaskId
bad_inserts found [] = []
bad_inserts found (t ∷ rest) = elim (found t.id) [
  | none ↦ bad_inserts found rest
  | some stored ↦ id_version stored ∷ bad_inserts found rest
]

-- How a change or a delete stands to what is stored.
pub data Standing : Type 0 where
  absent held fine : Standing

-- The tests in the loops of badChanges and badDeletes, on the stored task.
unfoldable pub task_standing : Modification → Time → ℕ → Option Task → Standing
task_standing m now version none = absent
task_standing m now version (some stored) =
    if not (stored.version == version)
    then absent
    else if otherwise_claimed m stored now
    then held
    else fine

-- Those of badDocChanges and badDocDeletes, on the stored doc.
unfoldable pub doc_standing : Modification → Time → ℕ → Option Doc → Standing
doc_standing m now version none = absent
doc_standing m now version (some stored) =
    if not (stored.version == version)
    then absent
    else if not (stored.claimant == "")
        && not (stored.claimant == m.claimant)
        && before now stored.at
    then held
    else fine

-- A loop that collects what is missing and what is claimed.
unfoldable pub missing_claimed {ℓ κ} :
    {A : Type ℓ} {B : Type κ} → (A → Standing) → (A → B) → List A → List B × List B
missing_claimed standing ref [] = ([], [])
missing_claimed standing ref (x ∷ rest) =
    let (missing, claimed) = missing_claimed standing ref rest in
    elim (standing x) [
      | absent ↦ (ref x ∷ missing, claimed)
      | held ↦ (missing, ref x ∷ claimed)
      | fine ↦ (missing, claimed)
    ]

-- badChanges
abbrev pub bad_changes : Modification → (String → Option Task) → Time → List TaskId × List TaskId
bad_changes m found now =
    missing_claimed (λ t. task_standing m now t.version (found t.id))
      (λ t. new_task_id t.id t.version "") m.changes

-- badDeletes
abbrev pub bad_deletes : Modification → (String → Option Task) → Time → List TaskId × List TaskId
bad_deletes m found now =
    missing_claimed (λ t. task_standing m now t.version (found t.id)) (λ t. t) m.deletes

-- `!ok || found.Version != version`
abbrev pub is_missing : {A : Type 0} → (A → ℕ) → ℕ → Option A → Bool
is_missing version_of version none = true
is_missing version_of version (some stored) = not (version_of stored == version)

-- missingDepends
abbrev pub missing_depends : Modification → (String → Option Task) → List TaskId
missing_depends m found = keep (λ t. is_missing (λ s. s.version) t.version (found t.id)) m.depends

-- badDocInserts
unfoldable pub bad_doc_inserts : (String → Option Doc) → List DocData → List DocId
bad_doc_inserts found [] = []
bad_doc_inserts found (ins ∷ rest) =
    let others = bad_doc_inserts found rest in
    if ins.id == "" then others else elim (found (doc_key ins.ns ins.id)) [
      | none ↦ others
      | some _ ↦ new_doc_id ins.ns ins.id 0 ∷ others
    ]

-- badDocChanges
abbrev pub bad_doc_changes : Modification → (String → Option Doc) → Time → List DocId × List DocId
bad_doc_changes m found now =
    missing_claimed (λ d. doc_standing m now d.version (found (doc_key d.ns d.id)))
      (λ d. new_doc_id d.ns d.id d.version) m.doc_changes

-- badDocDeletes
abbrev pub bad_doc_deletes : Modification → (String → Option Doc) → Time → List DocId × List DocId
bad_doc_deletes m found now =
    missing_claimed (λ d. doc_standing m now d.version (found (doc_key d.ns d.id))) (λ d. d)
      m.doc_deletes

-- missingDocDepends
abbrev pub missing_doc_depends : Modification → (String → Option Doc) → List DocId
missing_doc_depends m found =
    keep (λ d. is_missing (λ s. s.version) d.version (found (doc_key d.ns d.id))) m.doc_depends

-- HasMissing, HasMissingDocs, HasClaimedDocs, HasClaims, HasCollisions
abbrev pub has_missing : DependencyError → Bool
has_missing e =
    not (is_empty e.depends)
    || not (is_empty e.deletes)
    || not (is_empty e.changes)
    || not (is_empty e.arrives)

abbrev pub has_missing_docs : DependencyError → Bool
has_missing_docs e =
    not (is_empty e.doc_depends)
    || not (is_empty e.doc_deletes)
    || not (is_empty e.doc_changes)
    || not (is_empty e.doc_arrives)

abbrev pub has_claimed_docs : DependencyError → Bool
has_claimed_docs e = not (is_empty e.doc_claims)

abbrev pub has_claims : DependencyError → Bool
has_claims e = not (is_empty e.claims)

abbrev pub has_collisions : DependencyError → Bool
has_collisions e = not (is_empty e.inserts) || not (is_empty e.doc_inserts)

-- HasAny
unfoldable pub has_any : DependencyError → Bool
has_any e =
    has_missing e || has_collisions e || has_claims e || has_missing_docs e || has_claimed_docs e

-- OnlyCollisions
unfoldable pub only_collisions : DependencyError → Bool
only_collisions e =
    has_collisions e
    && not (has_missing e)
    && not (has_claims e)
    && not (has_missing_docs e)
    && not (has_claimed_docs e)

-- OnlyClaims
unfoldable pub only_claims : DependencyError → Bool
only_claims e = not (has_missing e) && not (has_collisions e) && not (has_missing_docs e)

-- Implicates
unfoldable pub implicates : DependencyError → String → Bool
implicates e id =
    named e.inserts
    || named e.depends
    || named e.deletes
    || named e.changes
    || named e.arrives
    || named e.claims
  where
    named : List TaskId → Bool
    named = any (λ t. t.id == id)

-- Modification.DependencyError, the error that its literal builds and the test in front of it
abbrev pub found_failures :
    Modification → (String → Option Task) → (String → Option Doc) → Time → DependencyError
found_failures m found found_docs now =
    let (missing_changes, claimed_changes) = bad_changes m found now in
    let (missing_deletes, claimed_deletes) = bad_deletes m found now in
    let (missing_doc_changes, claimed_doc_changes) = bad_doc_changes m found_docs now in
    let (missing_doc_deletes, claimed_doc_deletes) = bad_doc_deletes m found_docs now in
    record no_failures {
      inserts = bad_inserts found m.inserts;
      changes = missing_changes;
      deletes = missing_deletes;
      depends = missing_depends m found;
      claims = claimed_deletes ++ claimed_changes;
      doc_inserts = bad_doc_inserts found_docs m.doc_inserts;
      doc_changes = missing_doc_changes;
      doc_deletes = missing_doc_deletes;
      doc_depends = missing_doc_depends m found_docs;
      doc_claims = claimed_doc_deletes ++ claimed_doc_changes;
    }

unfoldable pub dependency_error :
    Modification → (String → Option Task) → (String → Option Doc) → Time → Option DependencyError
dependency_error m found found_docs now =
    let e = found_failures m found found_docs now in
    let (_, claimed_changes) = bad_changes m found now in
    let (_, claimed_deletes) = bad_deletes m found now in
    let (_, claimed_doc_changes) = bad_doc_changes m found_docs now in
    let (_, claimed_doc_deletes) = bad_doc_deletes m found_docs now in
    if not (is_empty e.inserts)
      || not (is_empty e.changes)
      || not (is_empty claimed_changes)
      || not (is_empty e.deletes)
      || not (is_empty claimed_deletes)
      || not (is_empty e.depends)
      || not (is_empty e.doc_inserts)
      || not (is_empty e.doc_changes)
      || not (is_empty claimed_doc_changes)
      || not (is_empty e.doc_deletes)
      || not (is_empty claimed_doc_deletes)
      || not (is_empty e.doc_depends)
    then some e
    else none

-- dedupTaskIDs, with the IDs seen so far
unfoldable pub dedup_task_ids : Dict String Bool → List TaskId → List TaskId
dedup_task_ids seen [] = []
dedup_task_ids seen (t ∷ rest) =
    let others = dedup_task_ids (insert t.id true seen) rest in
    let same = dedup_task_ids seen rest in if contains t.id seen then same else t ∷ others

-- What tells a doc or a doc set apart: namespace, ID and key.
abbrev pub DocName : Type 0
DocName = String × SetName

instance abbrev pub doc_name_eq : Eq DocName
doc_name_eq = record {
  dec = pair_discrete text_discrete (pair_discrete text_discrete text_discrete);
}

abbrev pub doc_name : DocId → DocName
doc_name d = (d.ns, (d.id, d.key))

-- dedupDocIDs, with those seen so far
unfoldable pub dedup_doc_ids : Dict DocName Bool → List DocId → List DocId
dedup_doc_ids seen [] = []
dedup_doc_ids seen (d ∷ rest) =
    let others = dedup_doc_ids (insert (doc_name d) true seen) rest in
    let same = dedup_doc_ids seen rest in if contains (doc_name d) seen then same else d ∷ others

abbrev pub or_no_failures : Option DependencyError → DependencyError
or_no_failures none = no_failures
or_no_failures (some e) = e

abbrev pub merged_message : Message → Message → Message
merged_message no_message other = other
merged_message m _ = m

-- The combined error of Merge.
abbrev pub merged : DependencyError → DependencyError → DependencyError
merged a b = record {
  inserts = dedup_task_ids [] (a.inserts ++ b.inserts);
  depends = dedup_task_ids [] (a.depends ++ b.depends);
  deletes = dedup_task_ids [] (a.deletes ++ b.deletes);
  changes = dedup_task_ids [] (a.changes ++ b.changes);
  claims = dedup_task_ids [] (a.claims ++ b.claims);
  arrives = dedup_task_ids [] (a.arrives ++ b.arrives);
  doc_inserts = dedup_doc_ids [] (a.doc_inserts ++ b.doc_inserts);
  doc_depends = dedup_doc_ids [] (a.doc_depends ++ b.doc_depends);
  doc_deletes = dedup_doc_ids [] (a.doc_deletes ++ b.doc_deletes);
  doc_changes = dedup_doc_ids [] (a.doc_changes ++ b.doc_changes);
  doc_claims = dedup_doc_ids [] (a.doc_claims ++ b.doc_claims);
  doc_arrives = dedup_doc_ids [] (a.doc_arrives ++ b.doc_arrives);
  message = merged_message a.message b.message;
}

-- Merge, where `none` is a nil error.
unfoldable pub merge : Option DependencyError → Option DependencyError → Option DependencyError
merge a b =
    let e = merged (or_no_failures a) (or_no_failures b) in if has_any e then some e else none

-- nameArrivals
unfoldable pub name_arrivals : Modification → DependencyError → DependencyError
name_arrivals m e = if is_empty m.arrives then e else record e {
  arrives = e.arrives ++ keep (λ c. arriving c.id) e.changes;
  changes = keep (λ c. not (arriving c.id)) e.changes;
}
  where
    arriving : String → Bool
    arriving id = any (λ a. a.id == id) m.arrives
