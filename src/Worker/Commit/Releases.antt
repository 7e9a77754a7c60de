-- ===== src/Worker/Commit/Releases.antt =====
-- Releases: the doc sets that a commit gives back, of pkg/worker/worker.go and entroq.go.
use entroq.Base.{
  pos, Time, is_positive, Dict, lookup, insert, contains, contains-insert, All, any, keep,
  append-nil, All-implied, string_eq, nat_eq, ◌==◌, ◌≡◌, refl, ap, Bool, true, not, ◌&&◌, ◌||◌,
  List, [], ◌∷◌, ◌++◌, map, arith,
}
use entroq.Doc.{DocData, Doc, DocArrival, DocSet}
use entroq.Modification.{Modification, SetName, set_name_eq}
use entroq.Changes.{entry_by, doc_set_ref, arriving}
use entroq.Worker.{set_key}
use entroq.Worker.Commit.{decided_arrivals, decided_inserts, decided_changes, releasing}

-- A modification decides a set when it names it in an arrival or a write of its holds it past now.
abbrev pub decides_set : Modification → SetName → Bool
decides_set m s =
    any (λ d. is_positive d.by && (d.ns, d.key) == s) m.doc_changes
    || any (λ i. is_positive i.by && (i.ns, i.key) == s) m.doc_inserts
    || any (λ a. (a.ns, a.key) == s) m.doc_arrives

contains-decided_arrivals :
    (ars : List DocArrival) (seen : Dict SetName Bool) (s : SetName)
    → contains s (decided_arrivals ars seen)
      ≡ (any (λ a. (a.ns, a.key) == s) ars || contains s seen)
unfolding decided_arrivals
contains-decided_arrivals [] seen s = refl
contains-decided_arrivals (a ∷ ars) seen s = ground (
  arith,
  contains-decided_arrivals ars (insert (a.ns, a.key) true seen) s,
  contains-insert (a.ns, a.key) s true seen,
)

contains-decided_inserts :
    (is : List DocData) (seen : Dict SetName Bool) (s : SetName)
    → contains s (decided_inserts is seen)
      ≡ (any (λ i. is_positive i.by && (i.ns, i.key) == s) is || contains s seen)
unfolding decided_inserts
contains-decided_inserts [] seen s = refl
contains-decided_inserts (i ∷ is) seen s = ground (
  arith,
  contains-decided_inserts is seen s,
  contains-decided_inserts is (insert (i.ns, i.key) true seen) s,
  contains-insert (i.ns, i.key) s true seen,
)

contains-decided_changes :
    (ds : List Doc) (seen : Dict SetName Bool) (s : SetName)
    → contains s (decided_changes ds seen)
      ≡ (any (λ d. is_positive d.by && (d.ns, d.key) == s) ds || contains s seen)
unfolding decided_changes
contains-decided_changes [] seen s = refl
contains-decided_changes (d ∷ ds) seen s = ground (
  arith,
  contains-decided_changes ds seen s,
  contains-decided_changes ds (insert (d.ns, d.key) true seen) s,
  contains-insert (d.ns, d.key) s true seen,
)

contains-decided :
    (m : Modification) (s : SetName)
    → contains s (
        decided_changes m.doc_changes
          (decided_inserts m.doc_inserts (decided_arrivals m.doc_arrives [])))
      ≡ decides_set m s
unfolding lookup
contains-decided m s = ground (
  arith,
  contains-decided_changes m.doc_changes
      (decided_inserts m.doc_inserts (decided_arrivals m.doc_arrives [])) s,
  contains-decided_inserts m.doc_inserts (decided_arrivals m.doc_arrives []) s,
  contains-decided_arrivals m.doc_arrives [] s,
)

-- The arrival that releases a set at its version
abbrev pub release : DocSet → DocArrival
release g = record { doc_id = doc_set_ref g; by = pos 0 }

abbrev pub free_sets : Modification → List DocSet → List DocSet
free_sets m sets = keep (λ g. not (decides_set m (set_key g))) sets

keep-same {ℓ} :
    {A : Type ℓ} (p q : A → Bool) → ((x : A) → p x ≡ q x) → (xs : List A) → keep p xs ≡ keep q xs
keep-same p q h [] = refl
keep-same p q h (x ∷ xs) = ground (arith, h x, keep-same p q h xs)

pub releasing-free_sets :
    (now : Time) (sets : List DocSet) (m : Modification)
    → releasing now sets m
      ≡ record m { doc_arrives = m.doc_arrives ++ map release (free_sets m sets) }
unfolding releasing arriving entry_by
releasing-free_sets now [] m = ground (arith, append-nil m.doc_arrives)
releasing-free_sets now (g ∷ sets) m = ground (
  arith,
  append-nil m.arrives,
  keep-same
      (λ x. not (
        contains (set_key x) (
          decided_changes m.doc_changes
            (decided_inserts m.doc_inserts (decided_arrivals m.doc_arrives [])))))
      (λ x. not (decides_set m (set_key x))) (λ x. ap not (contains-decided m (set_key x)))
      (g ∷ sets),
)

any-append {ℓ} :
    {A : Type ℓ} (p : A → Bool) (xs ys : List A) → any p (xs ++ ys) ≡ (any p xs || any p ys)
any-append p [] ys = refl
any-append p (x ∷ xs) ys = ground (arith, any-append p xs ys)

set_key_refl : (g : DocSet) → ((set_key g) == (set_key g)) ≡ true
set_key_refl g = ground arith

abbrev IsCovered : (DocSet → Bool) → List DocSet → DocSet → Type 0
IsCovered p free g = (p g || any (λ a. (a.ns, a.key) == set_key g) (map release free)) ≡ true

keep-IsCovered :
    (p : DocSet → Bool) (sets : List DocSet) → All (IsCovered p (keep (λ g. not (p g)) sets)) sets
keep-IsCovered p [] = tt
keep-IsCovered p (x ∷ sets) = (
  ground (arith, set_key_refl x),
  All-implied {P = IsCovered p (keep (λ g. not (p g)) sets)} (λ g h. ground (arith, h)) sets
      (keep-IsCovered p sets),
)

-- The commit's own part is untouched, but for the arrivals that release, at its version, each set
-- that is held and not decided; after that every held set is decided.
pub releasing-decides_set :
    (now : Time) (sets : List DocSet) (m : Modification)
    → (releasing now sets m
        ≡ record m { doc_arrives = m.doc_arrives ++ map release (free_sets m sets) })
      × All (λ g. decides_set (releasing now sets m) (set_key g) ≡ true) sets
releasing-decides_set now sets m = (
  releasing-free_sets now sets m,
  All-implied {P = IsCovered (λ g. decides_set m (set_key g)) (free_sets m sets)}
      (λ g h. ground (
        arith,
        h,
        releasing-free_sets now sets m,
        any-append (λ a. (a.ns, a.key) == set_key g) m.doc_arrives (map release (free_sets m sets)),
      ))
      sets (keep-IsCovered (λ g. decides_set m (set_key g)) sets),
)
