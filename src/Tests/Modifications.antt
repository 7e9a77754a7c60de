-- ===== src/Tests/Modifications.antt =====
-- The modification checks and the dependency errors on small inputs.
use entroq.Base.{
  pos, if◌then◌else◌, Distinct, string_eq, nat_eq, ◌==◌, runs, String, ◌≡◌, refl, ◌↔◌, false, ◌||◌,
  Option, none, some, [], ◌∷◌,
}
use entroq.Task.{new_task_id, TaskData, Task, new_task}
use entroq.Errors.{DependencyError, no_failures, Invalid, invalid, err, ok}
use entroq.Modification.{
  Modification, empty_modification, names_nothing, set_name_eq, check_doc_arrives,
  ensure_modify_keys, minus_one, all_dependencies,
}
use entroq.Modification.Keys.{KeysNamed, ensure_modify_keys-KeysNamed}
use entroq.Modification.Unique.{task_entries, doc_entries, keys, record_all, all_dependencies_iff}
use entroq.Dependency.{
  otherwise_claimed, bad_inserts, task_standing, missing_claimed, bad_doc_inserts, has_any,
  implicates, dependency_error, doc_name_eq, or_no_failures, merged, merge,
}
use entroq.Dependency.Check.{Proceeds, dependency_error-Proceeds}
use entroq.Dependency.Merge.{implicates-merged, merge-none}

abbrev stored_task : Task
stored_task = record new_task {
  queue = "/in";
  id = "t1";
  version = 3;
  at = 2_000;
  claimant = "worker";
  claims = 1;
}

abbrev found_tasks : String → Option Task
found_tasks id = if id == "t1" then some stored_task else none

abbrev insert_data : TaskData
insert_data = record {
  queue = "/out";
  by = pos 0;
  value = "1";
  attempt = 0;
  err = "";
  id = "t2";
  at = 0;
  created = 0;
  modified = 0;
}

abbrev finish : String → Modification
finish claimant = record (empty_modification claimant) {
  inserts = insert_data ∷ [];
  deletes = new_task_id "t1" 3 "/in" ∷ [];
}

accepts_keys : ensure_modify_keys (finish "worker") ≡ ok tt
unfolding runs ensure_modify_keys names_nothing check_doc_arrives
accepts_keys = refl

refuses_no_queue :
    ensure_modify_keys
      (record (empty_modification "w") { inserts = record insert_data { queue = "" } ∷ [] })
    ≡ err (invalid Invalid.insert_without_queue)
unfolding runs ensure_modify_keys names_nothing check_doc_arrives
refuses_no_queue = refl

ensure_modify_keys-KeysNamed_example :
    (ensure_modify_keys (finish "worker") ≡ ok tt) ↔ KeysNamed (finish "worker")
ensure_modify_keys-KeysNamed_example = ensure_modify_keys-KeysNamed (finish "worker")

all_dependencies_iff_example :
    (all_dependencies (finish "worker") ≡ ok (("t2", minus_one) ∷ [], [])) ↔ (
      Distinct (keys (task_entries (finish "worker")))
      × Distinct (keys (doc_entries (finish "worker")))
      × (("t2", minus_one) ∷ [] ≡ record_all (task_entries (finish "worker")) [])
      × ([] ≡ record_all (doc_entries (finish "worker")) []))
all_dependencies_iff_example = all_dependencies_iff (finish "worker") (("t2", minus_one) ∷ []) []

holder_proceeds : dependency_error (finish "worker") found_tasks (λ _. none) 1_000 ≡ none
unfolding runs dependency_error bad_inserts missing_claimed task_standing otherwise_claimed
    bad_doc_inserts has_any
holder_proceeds = refl

other_waits :
    dependency_error (finish "thief") found_tasks (λ _. none) 1_000
    ≡ some (record no_failures { claims = new_task_id "t1" 3 "/in" ∷ [] })
unfolding runs dependency_error bad_inserts missing_claimed task_standing otherwise_claimed
    bad_doc_inserts has_any
other_waits = refl

dependency_error-Proceeds_example :
    (dependency_error (finish "worker") found_tasks (λ _. none) 1_000 ≡ none)
    ↔ Proceeds (finish "worker") found_tasks (λ _. none) 1_000
dependency_error-Proceeds_example =
    dependency_error-Proceeds (finish "worker") found_tasks (λ _. none) 1_000

abbrev claim_failure : DependencyError
claim_failure = record no_failures { claims = new_task_id "t1" 3 "/in" ∷ [] }

abbrev insert_failure : DependencyError
insert_failure = record no_failures { inserts = new_task_id "t2" 0 "/out" ∷ [] }

implicates-merged_example :
    implicates (merged claim_failure insert_failure) "t2"
    ≡ (implicates claim_failure "t2" || implicates insert_failure "t2")
implicates-merged_example = implicates-merged claim_failure insert_failure "t2"

merge-none_example : (merge (some claim_failure) none ≡ none) ↔ (
    (has_any (or_no_failures (some claim_failure)) ≡ false)
    × (has_any (or_no_failures none) ≡ false))
merge-none_example = merge-none (some claim_failure) none
