-- ===== src/Validate/Accepts.antt =====
-- The modifications that a backend accepts.
use entroq.Base.{
  Dict, insert, AreNew, AreNew-cons, AreNew-nil, All, Distinct, All-iff, string_eq, nat_eq, String,
  ◌≡◌, refl, ◌↔◌, ◌⊎◌, Bool, true, false, List, [], ◌∷◌, map, arith,
}
use entroq.Task.{TaskData, Task}
use entroq.Doc.{DocId, is_set_ref, DocData, Doc}
use entroq.Errors.{Invalid, Result, ◌>>=◌, ◌>>◌, refuse_if, for_each, err, ok}
use entroq.Modification.{Modification, set_name_eq, all_dependencies}
use entroq.Modification.Keys.{>>-ok, for_each-ok, KeysNamed, ensure_modify_keys-KeysNamed}
use entroq.Modification.Unique.{task_entries, doc_entries, keys, record_all, all_dependencies_iff}
use entroq.Validate.{
  max_id_bytes, max_claimant_bytes, max_namespace_bytes, max_doc_key_bytes, check_doc, check_one,
  doc_refs, Place, place_eq, place_of, check_places, doc_places, writes_something, lengths,
  check_modification,
}
use entroq.Validate.Claims.{Fits, check-Fits}

for_each-All {ℓ κ} :
    {A : Type ℓ} {P : A → Type κ} {check_it : A → Result (Unit {0})}
    → ((x : A) → (check_it x ≡ ok tt) ↔ P x)
    → (xs : List A) → (for_each check_it xs ≡ ok tt) ↔ All P xs
for_each-All {check_it} e xs =
    let f = for_each-ok check_it xs in let a = All-iff e xs in (λ h. a.0 (f.0 h), λ h. f.1 (a.1 h))

-- A reference names a doc or a set, not both.
abbrev pub NamesOne : DocId → Type 0
NamesOne r = (r.id ≡ "") ⊎ (r.key ≡ "")

check_one-NamesOne : (r : DocId) → (check_one r ≡ ok tt) ↔ NamesOne r
check_one-NamesOne r = (λ h. ground arith, λ h. ground arith)

check_delete_iff :
    (r : DocId)
    → ((check_one r >> refuse_if (is_set_ref r) Invalid.set_delete) ≡ ok tt) ↔ (r.key ≡ "")
unfolding is_set_ref
check_delete_iff r = (λ h. ground arith, λ h. ground arith)

check_places-ok :
    (seen : Dict Place Bool) (xs : List DocData)
    → (check_places seen xs ≡ ok tt) ↔ AreNew place_of seen xs
unfolding check_places
check_places-ok seen [] = (λ h. (tt, tt), λ h. refl)
check_places-ok seen (d ∷ xs) =
    let rest = check_places-ok (insert (place_of d) true seen) xs in
    let new = AreNew-cons place_of d true seen xs in
    (λ h. ground (arith, rest.0, new.1), λ h. ground (arith, rest.1, new.0 h))

-- The texts of a doc that is written.
abbrev pub DocFits : String → String → String → String → Type 0
DocFits ns id key secondary_key =
    Fits max_namespace_bytes ns
    × Fits max_id_bytes id
    × Fits max_doc_key_bytes key
    × Fits max_doc_key_bytes secondary_key

check_doc-DocFits :
    (ns id key secondary_key : String)
    → (check_doc ns id key secondary_key ≡ ok tt) ↔ DocFits ns id key secondary_key
check_doc-DocFits ns id key secondary_key = (λ h. ground arith, λ h. ground arith)

-- What the checks leave of a modification.
pub record Accepted (m : Modification) : Type 0 where
  pub keys_named : KeysNamed m
  pub deletes_docs : All (λ r. r.key ≡ "") m.doc_deletes
  pub depends_one : All NamesOne m.doc_depends
  pub places : Distinct (map place_of m.doc_inserts)
  pub tasks : Distinct (keys (task_entries m))
  pub docs : Distinct (keys (doc_entries m))
  pub claimant : (writes_something m ≡ false) ⊎ Fits max_claimant_bytes m.claimant
  pub inserts : All (λ i. Fits max_id_bytes i.id) m.inserts
  pub changes : All (λ c. Fits max_id_bytes c.id) m.changes
  pub doc_inserts : All (λ d. DocFits d.ns d.id d.key d.secondary_key) m.doc_inserts
  pub doc_changes : All (λ d. DocFits d.ns d.id d.key d.secondary_key) m.doc_changes

lengths-ok :
    (m : Modification)
    → (lengths m ≡ ok tt) ↔ (
        (((writes_something m ≡ false) ⊎ Fits max_claimant_bytes m.claimant)
          × All (λ i. Fits max_id_bytes i.id) m.inserts
          × All (λ c. Fits max_id_bytes c.id) m.changes
          × All (λ d. DocFits d.ns d.id d.key d.secondary_key) m.doc_inserts
          × All (λ d. DocFits d.ns d.id d.key d.secondary_key) m.doc_changes))
unfolding lengths
lengths-ok m =
    let i = for_each-All (λ (t : TaskData). check-Fits t.id max_id_bytes) m.inserts in
    let c = for_each-All (λ (t : Task). check-Fits t.id max_id_bytes) m.changes in
    let di =
      for_each-All (λ (d : DocData). check_doc-DocFits d.ns d.id d.key d.secondary_key)
        m.doc_inserts in
    let dc =
      for_each-All (λ (d : Doc). check_doc-DocFits d.ns d.id d.key d.secondary_key) m.doc_changes in
    let w = check-Fits m.claimant max_claimant_bytes in
    (
      λ h. ground (arith, i.0, c.0, di.0, dc.0, w.0),
      λ h. ground (arith, i.1 h.1, c.1 h.2, di.1 h.3, dc.1 h.4, w.1),
    )

bind-ok {ℓ} :
    {V : Type ℓ} {W : Type 0} (first : Result V) (next : V → Result W) (w : W)
    → (first >>= next) ≡ ok w
    → (v : V) × (first ≡ ok v) × (next v ≡ ok w)
bind-ok (ok v) next w h = (v, refl, h)
bind-ok (err why) next w h = cc

dependencies-ok :
    (m : Modification) (next : Result (Unit {0}))
    → ((all_dependencies m >>= λ _. next) ≡ ok tt)
      ↔ (Distinct (keys (task_entries m)) × Distinct (keys (doc_entries m)) × (next ≡ ok tt))
dependencies-ok m next =
    let e = all_dependencies_iff m in
    (
      λ h.
          let (v, found, rest) = bind-ok (all_dependencies m) (λ _. next) tt h in
          let unique = (e v.0 v.1).0 found in (unique.0, unique.1, rest),
      λ h.
          rw
            ((e (record_all (task_entries m) []) (record_all (doc_entries m) [])).1
              (h.0, h.1, refl, refl))
            h.2,
    )

-- A backend accepts a modification exactly when its keys are named, its doc references are of one
-- doc or, in a depend, of one set, no two inserts take one place, no two operations have one task ID
-- or one doc key, and every text that it would store is within its limit.
pub check_modification-Accepted : (m : Modification) → (check_modification m ≡ ok tt) ↔ Accepted m
unfolding check_modification doc_refs
check_modification-Accepted m =
    let k = ensure_modify_keys-KeysNamed m in
    let dd = for_each-All check_delete_iff m.doc_deletes in
    let dp = for_each-All check_one-NamesOne m.doc_depends in
    let p = check_places-ok [] m.doc_inserts in
    let n = AreNew-nil {V = Bool} place_of [] m.doc_inserts refl in
    let d = dependencies-ok m (lengths m) in
    let l = lengths-ok m in
    (
      λ h.
          let (h₀, h₁) = (>>-ok _ _).0 h in
          let (h₂, h₃) = (>>-ok (doc_refs m) _).0 h₁ in
          let (h₄, h₅) = (>>-ok (doc_places m) _).0 h₃ in
          let (h₆, h₇) = (>>-ok _ _).0 h₂ in
          let u = d.0 h₅ in
          let f = l.0 u.2 in
          record {
            keys_named = k.0 h₀;
            deletes_docs = dd.0 h₆;
            depends_one = dp.0 h₇;
            places = n.0 (p.0 h₄);
            tasks = u.0;
            docs = u.1;
            claimant = f.0;
            inserts = f.1;
            changes = f.2;
            doc_inserts = f.3;
            doc_changes = f.4;
          },
      λ a.
          let fits = l.1 (a.claimant, a.inserts, a.changes, a.doc_inserts, a.doc_changes) in
          let refs = (>>-ok _ _).1 (dd.1 a.deletes_docs, dp.1 a.depends_one) in
          let rest = (>>-ok (doc_places m) _).1 (p.1 (n.1 a.places), d.1 (a.tasks, a.docs, fits)) in
          (>>-ok _ _).1 (k.1 a.keys_named, (>>-ok (doc_refs m) _).1 (refs, rest)),
    )
