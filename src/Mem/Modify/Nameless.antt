-- ===== src/Mem/Modify/Nameless.antt =====
-- Doc operations in the namespace with no name.
use entroq.Base.{
  Time, All, keep, append-nil, string_eq, nat_eq, ◌==◌, String, ◌≡◌, refl, Bool, not, List, [], ◌∷◌,
  ◌++◌, map, arith,
}
use entroq.Doc.{DocId, Doc}
use entroq.Errors.{ok}
use entroq.Modification.{Modification, set_name_eq}
use entroq.Validate.{place_eq, check_modification}
use entroq.Mem.{ClaimHeaps, EqMem}
use entroq.Mem.Prepare.{ensure_mod_queues, misplaced_inserts, namespace_names, empty_response}
use entroq.Mem.Modify.{modify_impl, modify, answered}

-- No task operation, no doc insert and no doc set arrival; every other doc operation has no
-- namespace.
pub record OnlyNameless (m : Modification) : Type 0 where
  pub inserts : m.inserts ≡ []
  pub changes : m.changes ≡ []
  pub deletes : m.deletes ≡ []
  pub depends : m.depends ≡ []
  pub arrives : m.arrives ≡ []
  pub doc_inserts : m.doc_inserts ≡ []
  pub doc_arrives : m.doc_arrives ≡ []
  pub doc_changes : All (λ c. c.ns ≡ "") m.doc_changes
  pub doc_deletes : All (λ d. d.ns ≡ "") m.doc_deletes
  pub doc_depends : All (λ d. d.ns ≡ "") m.doc_depends

keep-append {ℓ} :
    {A : Type ℓ} (p : A → Bool) (xs ys : List A) → keep p (xs ++ ys) ≡ keep p xs ++ keep p ys
keep-append p [] ys = refl
keep-append p (x ∷ xs) ys = ground (arith, keep-append p xs ys)

keep-nameless {ℓ} :
    {A : Type ℓ} (ns : A → String) (xs : List A)
    → All (λ x. ns x ≡ "") xs
    → keep (λ n. not (n == "")) (map ns xs) ≡ []
keep-nameless ns [] h = refl
keep-nameless ns (x ∷ xs) h = ground (arith, h.0, keep-nameless ns xs h.1)

namespace_names-nil : (m : Modification) → OnlyNameless m → namespace_names m ≡ []
namespace_names-nil m o =
    let named : String → Bool = λ n. not (n == "") in
    let cs = map (λ (c : Doc). c.ns) m.doc_changes in
    let ds = map (λ (d : DocId). d.ns) m.doc_deletes in
    let ps = map (λ (d : DocId). d.ns) m.doc_depends in
    ground (
      arith,
      o.doc_inserts,
      o.doc_arrives,
      keep-append named cs (ds ++ (ps ++ [])),
      keep-append named ds (ps ++ []),
      append-nil ps,
      keep-nameless (λ (c : Doc). c.ns) m.doc_changes o.doc_changes,
      keep-nameless (λ (d : DocId). d.ns) m.doc_deletes o.doc_deletes,
      keep-nameless (λ (d : DocId). d.ns) m.doc_depends o.doc_depends,
    )

-- A modification of doc operations alone that name no namespace, once it passes the checks of the
-- request, is answered with success and an empty response, whatever docs and versions it names and
-- whatever is stored, and changes nothing.
pub modify-OnlyNameless :
    (heaps : ClaimHeaps) (m : Modification) (now : Time) (st : EqMem heaps)
    → check_modification m ≡ ok tt
    → OnlyNameless m
    → modify heaps m now st ≡ answered (ok empty_response) st
unfolding modify modify_impl ensure_mod_queues misplaced_inserts
modify-OnlyNameless heaps m now st accepted o = ground (
  arith,
  accepted,
  o.inserts,
  o.changes,
  o.deletes,
  o.depends,
  o.arrives,
  o.doc_inserts,
  namespace_names-nil m o,
)
