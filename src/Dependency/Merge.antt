-- ===== src/Dependency/Merge.antt =====
-- What merging dependency errors keeps.
use entroq.Base.{
  Dict, insert, contains, contains-insert, contains-nil, All, is_empty, any, Distinct, string_eq,
  nat_eq, ◌==◌, String, ◌≡◌, refl, ◌≢◌, ◌↔◌, Bool, true, false, not, ◌&&◌, ◌||◌, Option, none, List,
  [], ◌∷◌, ◌++◌, map, arith,
}
use entroq.Doc.{DocId}
use entroq.Task.{TaskId}
use entroq.Errors.{DependencyError}
use entroq.Modification.{set_name_eq}
use entroq.Dependency.{
  has_any, implicates, dedup_task_ids, doc_name_eq, doc_name, dedup_doc_ids, or_no_failures, merged,
  merge,
}

-- An entry of the list names the task.
abbrev pub names : String → List TaskId → Bool
names id = any (λ t. t.id == id)

-- Deduplication keeps the tasks that are named and not seen before.
names-dedup :
    (id : String) (seen : Dict String Bool) (xs : List TaskId)
    → names id (dedup_task_ids seen xs) ≡ (names id xs && not (contains id seen))
unfolding dedup_task_ids
names-dedup id seen [] = refl
names-dedup id seen (t ∷ xs) = ground (
  arith,
  names-dedup id seen xs,
  names-dedup id (insert t.id true seen) xs,
  contains-insert t.id id true seen,
)

names-append :
    (id : String) (xs ys : List TaskId) → names id (xs ++ ys) ≡ (names id xs || names id ys)
names-append id [] ys = refl
names-append id (x ∷ xs) ys = ground (arith, names-append id xs ys)

names-merged :
    (id : String) (xs ys : List TaskId)
    → names id (dedup_task_ids [] (xs ++ ys)) ≡ (names id xs || names id ys)
names-merged id xs ys =
    ground (
      arith,
      names-dedup id [] (xs ++ ys),
      contains-nil {V = Bool} id [] refl,
      names-append id xs ys,
    )

-- The merged error implicates exactly the tasks that either error does.
pub implicates-merged :
    (a b : DependencyError) (id : String)
    → implicates (merged a b) id ≡ (implicates a id || implicates b id)
unfolding implicates
implicates-merged a b id = ground (
  arith,
  names-merged id a.inserts b.inserts,
  names-merged id a.depends b.depends,
  names-merged id a.deletes b.deletes,
  names-merged id a.changes b.changes,
  names-merged id a.arrives b.arrives,
  names-merged id a.claims b.claims,
)

-- Every entry's task differs from those of the entries behind it.
abbrev pub OnePerTask : List TaskId → Type 0
OnePerTask xs = Distinct (map (λ t. t.id) xs)

dedup-unseen :
    (k : String) (seen : Dict String Bool) (xs : List TaskId)
    → contains k seen ≡ true
    → All (λ j. j ≢ k) (map (λ t. t.id) (dedup_task_ids seen xs))
unfolding dedup_task_ids
dedup-unseen k seen [] h = tt
dedup-unseen k seen (t ∷ xs) h = ground (
  arith,
  dedup-unseen k seen xs h,
  dedup-unseen k (insert t.id true seen) xs,
  contains-insert t.id k true seen,
)

-- Deduplication leaves one entry a task.
pub dedup-OnePerTask :
    (seen : Dict String Bool) (xs : List TaskId) → OnePerTask (dedup_task_ids seen xs)
unfolding dedup_task_ids
dedup-OnePerTask seen [] = tt
dedup-OnePerTask seen (t ∷ xs) = ground (
  arith,
  dedup-OnePerTask seen xs,
  dedup-OnePerTask (insert t.id true seen) xs,
  dedup-unseen t.id (insert t.id true seen) xs,
  contains-insert t.id t.id true seen,
)

dedup-empty :
    (xs ys : List TaskId) → is_empty (dedup_task_ids [] (xs ++ ys)) ≡ (is_empty xs && is_empty ys)
unfolding dedup_task_ids
dedup-empty [] [] = refl
dedup-empty [] (y ∷ ys) = ground (arith, contains-nil {V = Bool} y.id [] refl)
dedup-empty (x ∷ xs) ys = ground (arith, contains-nil {V = Bool} x.id [] refl)

dedup_doc-empty :
    (xs ys : List DocId) → is_empty (dedup_doc_ids [] (xs ++ ys)) ≡ (is_empty xs && is_empty ys)
unfolding dedup_doc_ids
dedup_doc-empty [] [] = refl
dedup_doc-empty [] (y ∷ ys) = ground (arith, contains-nil {V = Bool} (doc_name y) [] refl)
dedup_doc-empty (x ∷ xs) ys = ground (arith, contains-nil {V = Bool} (doc_name x) [] refl)

pub has_any-merged : (a b : DependencyError) → has_any (merged a b) ≡ (has_any a || has_any b)
unfolding has_any
has_any-merged a b = simp (dedup-empty, dedup_doc-empty) (ground arith)

-- Merging gives no error exactly when neither side, a missing one included, has a failure.
pub merge-none :
    (a b : Option DependencyError)
    → (merge a b ≡ none)
      ↔ ((has_any (or_no_failures a) ≡ false) × (has_any (or_no_failures b) ≡ false))
unfolding merge
merge-none a b = (
  λ h. ground (arith, has_any-merged (or_no_failures a) (or_no_failures b)),
  λ h. ground (arith, has_any-merged (or_no_failures a) (or_no_failures b)),
)
