-- ===== src/Worker/Commit/Fixes.antt =====
-- Fixed versions: what fixVersions of pkg/worker/worker.go makes of a result's operations.
use entroq.Base.{
  Dict, lookup, insert, lookup-insert, All, Distinct, All-implied, string_eq, nat_eq, ℕ, String,
  ◌≡◌, refl, ◌≢◌, some, List, [], ◌∷◌, map, arith,
}
use entroq.Task.{Task}
use entroq.Doc.{Doc, DocSet}
use entroq.Modification.{Modification, SetName, set_name_eq}
use entroq.Worker.{docs_in, set_key}
use entroq.Worker.Commit.{
  set_versions, doc_versions, version_in, fix_change, fix_task_id, fix_arrival, fix_doc_change,
  fix_doc_id, fix_doc_arrival, fix_versions,
}

-- The operations of the list that are on the name have the version.
abbrev pub AreAt : {N A : Type 0} → (A → N) → (A → ℕ) → List A → N → ℕ → Type 0
AreAt name version xs n v = All (λ x. name x ≡ n → version x ≡ v) xs

abbrev pub doc_name : Doc → SetName
doc_name d = (d.ns, d.id)

set_versions-absent :
    (s : SetName) (sets : List DocSet) (seen : Dict SetName ℕ)
    → All (λ t. t ≢ s) (map set_key sets)
    → lookup s (set_versions sets seen) ≡ lookup s seen
unfolding set_versions
set_versions-absent s [] seen h = refl
set_versions-absent s (g ∷ sets) seen h = ground (
  arith,
  h.0,
  set_versions-absent s sets (insert (set_key g) g.version seen) h.1,
  lookup-insert (set_key g) s g.version seen,
)

lookup-set_versions :
    (sets : List DocSet) (seen : Dict SetName ℕ)
    → Distinct (map set_key sets)
    → All (λ g. lookup (set_key g) (set_versions sets seen) ≡ some g.version) sets
unfolding set_versions
lookup-set_versions [] seen h = tt
lookup-set_versions (g ∷ sets) seen h = (
  ground (
    arith,
    set_versions-absent (set_key g) sets (insert (set_key g) g.version seen) h.0,
    lookup-insert (set_key g) (set_key g) g.version seen,
  ),
  lookup-set_versions sets (insert (set_key g) g.version seen) h.1,
)

doc_versions-absent :
    (s : SetName) (docs : List Doc) (seen : Dict SetName ℕ)
    → All (λ t. t ≢ s) (map doc_name docs)
    → lookup s (doc_versions docs seen) ≡ lookup s seen
unfolding doc_versions
doc_versions-absent s [] seen h = refl
doc_versions-absent s (d ∷ docs) seen h = ground (
  arith,
  h.0,
  doc_versions-absent s docs (insert (doc_name d) d.version seen) h.1,
  lookup-insert (doc_name d) s d.version seen,
)

lookup-doc_versions :
    (docs : List Doc) (seen : Dict SetName ℕ)
    → Distinct (map doc_name docs)
    → All (λ d. lookup (doc_name d) (doc_versions docs seen) ≡ some d.version) docs
unfolding doc_versions
lookup-doc_versions [] seen h = tt
lookup-doc_versions (d ∷ docs) seen h = (
  ground (
    arith,
    doc_versions-absent (doc_name d) docs (insert (doc_name d) d.version seen) h.0,
    lookup-insert (doc_name d) (doc_name d) d.version seen,
  ),
  lookup-doc_versions docs (insert (doc_name d) d.version seen) h.1,
)

map-AreAt :
    {N A : Type 0} (name : A → N) (version : A → ℕ) (f : A → A) (n : N) (v : ℕ)
    → ((x : A) → name (f x) ≡ n → version (f x) ≡ v)
    → (xs : List A) → AreAt name version (map f xs) n v
map-AreAt name version f n v h [] = tt
map-AreAt name version f n v h (x ∷ xs) = (h x, map-AreAt name version f n v h xs)

-- What a modification does to a task names it at the version.
abbrev pub NamesTask : Modification → String → ℕ → Type 0
NamesTask m id v =
    AreAt (λ t. t.id) (λ t. t.version) m.changes id v
    × AreAt (λ t. t.id) (λ t. t.version) m.deletes id v
    × AreAt (λ t. t.id) (λ t. t.version) m.depends id v
    × AreAt (λ a. a.id) (λ a. a.version) m.arrives id v

-- What it does to a doc names it at the version.
abbrev pub NamesDoc : Modification → SetName → ℕ → Type 0
NamesDoc m s v =
    AreAt doc_name (λ d. d.version) m.doc_changes s v
    × AreAt (λ d. (d.ns, d.id)) (λ d. d.version) m.doc_deletes s v
    × AreAt (λ d. (d.ns, d.id)) (λ d. d.version) m.doc_depends s v

fix_versions-NamesTask :
    (task : Task) (sets : List DocSet) (m : Modification)
    → NamesTask (fix_versions task sets m) task.id task.version
unfolding fix_versions fix_change fix_task_id fix_arrival
fix_versions-NamesTask task sets m = (
  map-AreAt (λ t. t.id) (λ t. t.version) (fix_change task) task.id task.version
      (λ t e. ground (arith, e)) m.changes,
  map-AreAt (λ t. t.id) (λ t. t.version) (fix_task_id task) task.id task.version
      (λ t e. ground (arith, e)) m.deletes,
  map-AreAt (λ t. t.id) (λ t. t.version) (fix_task_id task) task.id task.version
      (λ t e. ground (arith, e)) m.depends,
  map-AreAt (λ a. a.id) (λ a. a.version) (fix_arrival task) task.id task.version
      (λ a e. ground (arith, e)) m.arrives,
)

fix_versions-NamesDoc :
    (task : Task) (sets : List DocSet) (m : Modification) (s : SetName) (v : ℕ)
    → lookup s (doc_versions (docs_in sets) []) ≡ some v
    → NamesDoc (fix_versions task sets m) s v
unfolding fix_versions fix_doc_change fix_doc_id
fix_versions-NamesDoc task sets m s v h =
    let vers = doc_versions (docs_in sets) [] in
    let found : (n : SetName) (old : ℕ) → n ≡ s → version_in vers n old ≡ v =
      λ n old e. ground (arith, h, e) in
    (
      map-AreAt doc_name (λ d. d.version) (fix_doc_change vers) s v
          (λ d e. found (d.ns, d.id) d.version e) m.doc_changes,
      map-AreAt (λ d. (d.ns, d.id)) (λ d. d.version) (fix_doc_id vers) s v
          (λ d e. found (d.ns, d.id) d.version e) m.doc_deletes,
      map-AreAt (λ d. (d.ns, d.id)) (λ d. d.version) (fix_doc_id vers) s v
          (λ d e. found (d.ns, d.id) d.version e) m.doc_depends,
    )

fix_versions-arrivals :
    (task : Task) (sets : List DocSet) (m : Modification) (s : SetName) (v : ℕ)
    → lookup s (set_versions sets []) ≡ some v
    → AreAt (λ a. (a.ns, a.key)) (λ a. a.version) (fix_versions task sets m).doc_arrives s v
unfolding fix_versions fix_doc_arrival
fix_versions-arrivals task sets m s v h =
    map-AreAt (λ a. (a.ns, a.key)) (λ a. a.version) (fix_doc_arrival (set_versions sets [])) s v
      (λ a e. ground (arith, h, e)) m.doc_arrives

-- Once the versions are fixed, every change, delete, dependence or arrival that names the task
-- names it at the task's final version, every change, delete or dependence on a doc of a held set
-- is at that doc's final version, and every arrival of a held set at the set's, for sets and docs
-- that are distinct. Inserts stay as they were.
pub fix_versions-current :
    (task : Task) (sets : List DocSet) (m : Modification)
    → Distinct (map set_key sets)
    → Distinct (map doc_name (docs_in sets))
    → NamesTask (fix_versions task sets m) task.id task.version
      × All (λ d. NamesDoc (fix_versions task sets m) (doc_name d) d.version) (docs_in sets)
      × All
          (λ g.
            AreAt
              (λ a. (a.ns, a.key))
              (λ a. a.version)
              (fix_versions task sets m).doc_arrives
              (set_key g)
              g.version)
          sets
      × ((fix_versions task sets m).inserts ≡ m.inserts)
      × ((fix_versions task sets m).doc_inserts ≡ m.doc_inserts)
unfolding fix_versions
fix_versions-current task sets m sets_distinct docs_distinct = (
  fix_versions-NamesTask task sets m,
  All-implied (λ d. fix_versions-NamesDoc task sets m (doc_name d) d.version) (docs_in sets)
      (lookup-doc_versions (docs_in sets) [] docs_distinct),
  All-implied (λ g. fix_versions-arrivals task sets m (set_key g) g.version) sets
      (lookup-set_versions sets [] sets_distinct),
  refl,
  refl,
)
