-- ===== src/Modification/Keys.antt =====
-- What EnsureModifyKeys accepts.
use entroq.Base.{
  Dict, insert, contains, contains-insert, contains-nil, everywhere, All, Distinct, string_eq,
  nat_eq, ◌==◌, String, ◌≡◌, refl, ◌≢◌, ◌↔◌, Bool, true, false, List, [], ◌∷◌, map, arith,
}
use entroq.Doc.{is_set_ref, DocArrival}
use entroq.Errors.{Invalid, Result, ◌>>◌, refuse_if, for_each, ok, err}
use entroq.Modification.{
  Modification, names_nothing, SetName, set_name_eq, check_doc_arrives, ensure_modify_keys,
}

pub refuse_if-ok : (b : Bool) (why : Invalid) → (refuse_if b why ≡ ok tt) ↔ (b ≡ false)
refuse_if-ok true why = (λ h. cc, λ h. cc)
refuse_if-ok false why = (λ h. refl, λ h. refl)

pub >>-ok : (m k : Result (Unit {0})) → ((m >> k) ≡ ok tt) ↔ ((m ≡ ok tt) × (k ≡ ok tt))
>>-ok (ok tt) k = (λ h. (refl, h), λ h. h.1)
>>-ok (err e) k = (λ h. cc, λ h. cc)

-- A loop of checks passes exactly when every check does.
pub for_each-ok {ℓ} :
    {A : Type ℓ} (check : A → Result (Unit {0})) (xs : List A)
    → (for_each check xs ≡ ok tt) ↔ All (λ x. check x ≡ ok tt) xs
for_each-ok check [] = (λ h. tt, λ h. refl)
for_each-ok check (x ∷ xs) = (
  λ h. let p = (>>-ok (check x) (for_each check xs)).0 h in (p.0, (for_each-ok check xs).0 p.1),
  λ h. (>>-ok (check x) (for_each check xs)).1 (h.0, (for_each-ok check xs).1 h.1),
)

-- A loop that refuses on a text that is empty passes exactly when none is.
named-ok {ℓ} :
    {A : Type ℓ} (name : A → String) (why : Invalid) (xs : List A)
    → (for_each (λ x. refuse_if (name x == "") why) xs ≡ ok tt) ↔ All (λ x. name x ≢ "") xs
named-ok name why [] = (λ h. tt, λ h. refl)
named-ok name why (x ∷ xs) = (
  λ h. ground (arith, (named-ok name why xs).0),
  λ h. ground (arith, (named-ok name why xs).1 h.1),
)

abbrev pub set_of : DocArrival → SetName
set_of a = (a.ns, a.key)

-- An arrival that names a doc set in a namespace.
abbrev pub NamesSet : DocArrival → Type 0
NamesSet a = (is_set_ref a.doc_id ≡ true) × (a.ns ≢ "")

-- The sets that arrivals name are new, and differ from one another.
abbrev NewSets : Dict SetName Bool → List DocArrival → Type 0
NewSets seen xs = All (λ a. contains (set_of a) seen ≡ false) xs × Distinct (map set_of xs)

NewSets-insert :
    (k : SetName) (seen : Dict SetName Bool) (xs : List DocArrival)
    → All (λ a. contains (set_of a) (insert k true seen) ≡ false) xs
      ↔ (All (λ a. contains (set_of a) seen ≡ false) xs × All (λ s. s ≢ k) (map set_of xs))
NewSets-insert k seen [] = (λ h. (tt, tt), λ h. tt)
NewSets-insert k seen (a ∷ xs) = (
  λ h. ground (arith, contains-insert k (set_of a) true seen, (NewSets-insert k seen xs).0 h.1),
  λ h.
      ground (
        arith,
        contains-insert k (set_of a) true seen,
        (NewSets-insert k seen xs).1 (h.0.1, h.1.1),
      ),
)

check_doc_arrives-ok :
    (seen : Dict SetName Bool) (xs : List DocArrival)
    → (check_doc_arrives seen xs ≡ ok tt) ↔ (All NamesSet xs × NewSets seen xs)
unfolding check_doc_arrives
check_doc_arrives-ok seen [] = (λ h. (tt, (tt, tt)), λ h. refl)
check_doc_arrives-ok seen (a ∷ xs) = (
  λ h. ground (
    arith,
    (check_doc_arrives-ok (insert (set_of a) true seen) xs).0,
    (NewSets-insert (set_of a) seen xs).0,
  ),
  λ h. ground (
    arith,
    (check_doc_arrives-ok (insert (set_of a) true seen) xs).1,
    (NewSets-insert (set_of a) seen xs).1,
  ),
)

-- The modification names something, every write names the queue or the namespace that it writes
-- to, and the doc set arrivals name different sets.
pub record KeysNamed (m : Modification) : Type 0 where
  pub something : names_nothing m ≡ false
  pub inserts : All (λ i. i.queue ≢ "") m.inserts
  pub changes : All (λ c. c.queue ≢ "") m.changes
  pub arrives : All (λ a. a.queue ≢ "") m.arrives
  pub doc_inserts : All (λ i. i.ns ≢ "") m.doc_inserts
  pub doc_arrives : All NamesSet m.doc_arrives
  pub sets : Distinct (map set_of m.doc_arrives)

-- EnsureModifyKeys accepts a modification exactly when its keys are named.
pub ensure_modify_keys-KeysNamed : (m : Modification) → (ensure_modify_keys m ≡ ok tt) ↔ KeysNamed m
unfolding ensure_modify_keys
ensure_modify_keys-KeysNamed m = (
  λ h.
      let (e₀, h₁) = (>>-ok _ _).0 h in
      let (e₁, h₂) = (>>-ok _ _).0 h₁ in
      let (e₂, h₃) = (>>-ok _ _).0 h₂ in
      let (e₃, h₄) = (>>-ok _ _).0 h₃ in
      let (e₄, h₅) = (>>-ok _ _).0 h₄ in
      let (n, fresh) = (check_doc_arrives-ok [] m.doc_arrives).0 h₅ in
      record {
        something = (refuse_if-ok _ _).0 e₀;
        inserts = (named-ok (λ i. i.queue) _ m.inserts).0 e₁;
        changes = (named-ok (λ i. i.queue) _ m.changes).0 e₂;
        arrives = (named-ok (λ i. i.queue) _ m.arrives).0 e₃;
        doc_inserts = (named-ok (λ i. i.ns) _ m.doc_inserts).0 e₄;
        doc_arrives = n;
        sets = fresh.1;
      },
  λ k.
      let none_seen = everywhere (λ a. contains-nil (set_of a) [] refl) m.doc_arrives in
      let h₅ = (check_doc_arrives-ok [] m.doc_arrives).1 (k.doc_arrives, (none_seen, k.sets)) in
      let h₄ = (>>-ok _ _).1 ((named-ok (λ i. i.ns) _ m.doc_inserts).1 k.doc_inserts, h₅) in
      let h₃ = (>>-ok _ _).1 ((named-ok (λ i. i.queue) _ m.arrives).1 k.arrives, h₄) in
      let h₂ = (>>-ok _ _).1 ((named-ok (λ i. i.queue) _ m.changes).1 k.changes, h₃) in
      let h₁ = (>>-ok _ _).1 ((named-ok (λ i. i.queue) _ m.inserts).1 k.inserts, h₂) in
      (>>-ok _ _).1 ((refuse_if-ok _ _).1 k.something, h₁),
)
