-- ===== src/Dependency/Check.antt =====
-- What the dependency check accepts.
use entroq.Base.{
  Time, All, is_empty, keep, is_empty-keep, All-iff, string_eq, nat_eq, ℕ, ◌<◌, String, ◌≡◌, refl,
  ◌≢◌, ◌↔◌, Bool, true, false, Option, none, some, List, [], ◌∷◌, arith,
}
use entroq.Doc.{DocData, Doc}
use entroq.Task.{TaskData, Task}
use entroq.Modification.{Modification, set_name_eq, doc_key}
use entroq.Dependency.{
  otherwise_claimed, bad_inserts, Standing, task_standing, doc_standing, missing_claimed,
  bad_changes, bad_deletes, is_missing, missing_depends, bad_doc_inserts, bad_doc_changes,
  bad_doc_deletes, missing_doc_depends, dependency_error, doc_name_eq, fine,
}

-- Nothing is collected exactly when every entry stands fine.
missing_claimed-empty {ℓ κ} :
    {A : Type ℓ} {B : Type κ} (standing : A → Standing) (ref : A → B) (xs : List A)
    → ((is_empty (missing_claimed standing ref xs).0 ≡ true)
        × (is_empty (missing_claimed standing ref xs).1 ≡ true))
      ↔ All (λ x. standing x ≡ fine) xs
unfolding missing_claimed
missing_claimed-empty standing ref [] = (λ h. tt, λ h. (refl, refl))
missing_claimed-empty standing ref (x ∷ xs) = (
  λ h. ground (arith, (missing_claimed-empty standing ref xs).0),
  λ h. ground (arith, (missing_claimed-empty standing ref xs).1 h.1),
)

-- Somebody else holds it: it is not ready yet, and its claimant is another one than `claimant`.
abbrev pub HeldByOther : String → Time → Time → String → Type 0
HeldByOther claimant now until holder = (now < until) × (holder ≢ "") × (holder ≢ claimant)

-- The stored task is at the version, and nobody else holds it.
abbrev pub TaskWritable : String → Time → ℕ → Option Task → Type 0
TaskWritable claimant now version none = ⊥
TaskWritable claimant now version (some t) =
    (t.version ≡ version) × (¬ HeldByOther claimant now t.at t.claimant)

abbrev pub DocWritable : String → Time → ℕ → Option Doc → Type 0
DocWritable claimant now version none = ⊥
DocWritable claimant now version (some d) =
    (d.version ≡ version) × (¬ HeldByOther claimant now d.at d.claimant)

task_standing-TaskWritable :
    (m : Modification) (now : Time) (version : ℕ) (t : Option Task)
    → (task_standing m now version t ≡ fine) ↔ TaskWritable m.claimant now version t
unfolding task_standing otherwise_claimed
task_standing-TaskWritable m now version none = (λ h. cc, λ h. absurd h)
task_standing-TaskWritable m now version (some t) = (
  λ h. (ground arith, λ (p, q, r). ground arith),
  λ (v, free). ground (
    arith,
    λ (p : now < t.at) (q : t.claimant ≢ "") (r : t.claimant ≢ m.claimant). free (p, q, r),
  ),
)

doc_standing-DocWritable :
    (m : Modification) (now : Time) (version : ℕ) (d : Option Doc)
    → (doc_standing m now version d ≡ fine) ↔ DocWritable m.claimant now version d
unfolding doc_standing
doc_standing-DocWritable m now version none = (λ h. cc, λ h. absurd h)
doc_standing-DocWritable m now version (some d) = (
  λ h. (ground arith, λ (p, q, r). ground arith),
  λ (v, free). ground (
    arith,
    λ (p : now < d.at) (q : d.claimant ≢ "") (r : d.claimant ≢ m.claimant). free (p, q, r),
  ),
)

-- What is stored is at the version.
abbrev pub AtVersion : {A : Type 0} → (A → ℕ) → ℕ → Option A → Type 0
AtVersion version_of version none = ⊥
AtVersion version_of version (some s) = version_of s ≡ version

is_missing-AtVersion :
    {A : Type 0} (version_of : A → ℕ) (version : ℕ) (s : Option A)
    → (is_missing version_of version s ≡ false) ↔ AtVersion version_of version s
is_missing-AtVersion version_of version none = (λ h. cc, λ h. absurd h)
is_missing-AtVersion version_of version (some s) = (λ h. ground arith, λ h. ground arith)

bad_inserts-empty :
    (found : String → Option Task) (xs : List TaskData)
    → (is_empty (bad_inserts found xs) ≡ true) ↔ All (λ i. found i.id ≡ none) xs
unfolding bad_inserts
bad_inserts-empty found [] = (λ h. tt, λ h. refl)
bad_inserts-empty found (x ∷ xs) = (
  λ h. ground (arith, (bad_inserts-empty found xs).0),
  λ h. ground (arith, (bad_inserts-empty found xs).1 h.1),
)

-- An insert with an ID of its own names a doc that is not stored.
abbrev pub NewDoc : (String → Option Doc) → DocData → Type 0
NewDoc found i = i.id ≢ "" → found (doc_key i.ns i.id) ≡ none

bad_doc_inserts-empty :
    (found : String → Option Doc) (xs : List DocData)
    → (is_empty (bad_doc_inserts found xs) ≡ true) ↔ All (NewDoc found) xs
unfolding bad_doc_inserts
bad_doc_inserts-empty found [] = (λ h. tt, λ h. refl)
bad_doc_inserts-empty found (x ∷ xs) = (
  λ h. (λ named. ground arith, ground (arith, (bad_doc_inserts-empty found xs).0)),
  λ h. ground (arith, h.0, (bad_doc_inserts-empty found xs).1 h.1),
)

-- Nothing missing, nothing claimed.
abbrev Quiet {κ} : {B : Type κ} → List B × List B → Type 0
Quiet r = (is_empty r.0 ≡ true) × (is_empty r.1 ≡ true)

Quiet-All {ℓ κ μ} :
    {A : Type ℓ} {B : Type κ} {P : A → Type μ} (standing : A → Standing) (ref : A → B)
    → ((x : A) → (standing x ≡ fine) ↔ P x)
    → (xs : List A) → Quiet (missing_claimed standing ref xs) ↔ All P xs
Quiet-All standing ref e xs =
    let p = missing_claimed-empty standing ref xs in
    let q = All-iff e xs in (λ h. q.0 (p.0 h), λ h. p.1 (q.1 h))

pub keep-All {ℓ μ} :
    {A : Type ℓ} {P : A → Type μ} (test : A → Bool)
    → ((x : A) → (test x ≡ false) ↔ P x)
    → (xs : List A) → (is_empty (keep test xs) ≡ true) ↔ All P xs
keep-All test e xs =
    let p = is_empty-keep test xs in let q = All-iff e xs in (λ h. q.0 (p.0 h), λ h. p.1 (q.1 h))

-- Every operation can proceed: what it inserts is new, and what it names is stored at its version
-- and, where it is written, not held by anybody else.
pub record Proceeds (m : Modification) (found : String → Option Task)
    (found_docs : String → Option Doc) (now : Time) : Type 0 where
  pub inserts : All (λ i. found i.id ≡ none) m.inserts
  pub changes : All (λ c. TaskWritable m.claimant now c.version (found c.id)) m.changes
  pub deletes : All (λ d. TaskWritable m.claimant now d.version (found d.id)) m.deletes
  pub depends : All (λ d. AtVersion (λ (s : Task). s.version) d.version (found d.id)) m.depends
  pub doc_inserts : All (NewDoc found_docs) m.doc_inserts
  pub doc_changes :
      All (λ d. DocWritable m.claimant now d.version (found_docs (doc_key d.ns d.id))) m.doc_changes
  pub doc_deletes :
      All (λ d. DocWritable m.claimant now d.version (found_docs (doc_key d.ns d.id))) m.doc_deletes
  pub doc_depends :
      All
        (λ d. AtVersion (λ (s : Doc). s.version) d.version (found_docs (doc_key d.ns d.id)))
        m.doc_depends

-- DependencyError returns nil exactly when every operation can proceed.
pub dependency_error-Proceeds :
    (m : Modification) (found : String → Option Task) (found_docs : String → Option Doc)
    (now : Time)
    → (dependency_error m found found_docs now ≡ none) ↔ Proceeds m found found_docs now
unfolding dependency_error
dependency_error-Proceeds m found found_docs now = (
  λ h. record {
    inserts = (bad_inserts-empty found m.inserts).0 (ground arith);
    changes = changes_iff.0 (ground arith);
    deletes = deletes_iff.0 (ground arith);
    depends = depends_iff.0 (ground arith);
    doc_inserts = (bad_doc_inserts-empty found_docs m.doc_inserts).0 (ground arith);
    doc_changes = doc_changes_iff.0 (ground arith);
    doc_deletes = doc_deletes_iff.0 (ground arith);
    doc_depends = doc_depends_iff.0 (ground arith);
  },
  λ p. ground (
    arith,
    (bad_inserts-empty found m.inserts).1 p.inserts,
    changes_iff.1 p.changes,
    deletes_iff.1 p.deletes,
    depends_iff.1 p.depends,
    (bad_doc_inserts-empty found_docs m.doc_inserts).1 p.doc_inserts,
    doc_changes_iff.1 p.doc_changes,
    doc_deletes_iff.1 p.doc_deletes,
    doc_depends_iff.1 p.doc_depends,
  ),
)
  where
    changes_iff :
        Quiet (bad_changes m found now)
        ↔ All (λ c. TaskWritable m.claimant now c.version (found c.id)) m.changes
    changes_iff = Quiet-All _ _ (λ c. task_standing-TaskWritable m now c.version (found c.id)) _

    deletes_iff :
        Quiet (bad_deletes m found now)
        ↔ All (λ c. TaskWritable m.claimant now c.version (found c.id)) m.deletes
    deletes_iff = Quiet-All _ _ (λ c. task_standing-TaskWritable m now c.version (found c.id)) _

    doc_changes_iff :
        Quiet (bad_doc_changes m found_docs now)
        ↔ All
            (λ d. DocWritable m.claimant now d.version (found_docs (doc_key d.ns d.id)))
            m.doc_changes
    doc_changes_iff =
        Quiet-All _ _
          (λ d. doc_standing-DocWritable m now d.version (found_docs (doc_key d.ns d.id))) _

    doc_deletes_iff :
        Quiet (bad_doc_deletes m found_docs now)
        ↔ All
            (λ d. DocWritable m.claimant now d.version (found_docs (doc_key d.ns d.id)))
            m.doc_deletes
    doc_deletes_iff =
        Quiet-All _ _
          (λ d. doc_standing-DocWritable m now d.version (found_docs (doc_key d.ns d.id))) _

    depends_iff :
        (is_empty (missing_depends m found) ≡ true)
        ↔ All (λ d. AtVersion (λ (s : Task). s.version) d.version (found d.id)) m.depends
    depends_iff = keep-All _ (λ d. is_missing-AtVersion _ d.version (found d.id)) m.depends

    doc_depends_iff :
        (is_empty (missing_doc_depends m found_docs) ≡ true)
        ↔ All
            (λ d. AtVersion (λ (s : Doc). s.version) d.version (found_docs (doc_key d.ns d.id)))
            m.doc_depends
    doc_depends_iff =
        keep-All _ (λ d. is_missing-AtVersion _ d.version (found_docs (doc_key d.ns d.id)))
          m.doc_depends
