-- ===== src/Worker/Commit/Named.antt =====
-- Releases and the checks of a request: EnsureModifyKeys of entroq.go on what releasing of
-- pkg/worker/worker.go makes.
use entroq.Base.{
  Time, if◌then◌else◌, Bool-cases, All, is_empty, any, keep, All-append, Distinct, string_eq,
  nat_eq, ◌==◌, ◌≡◌, refl, ap, ◌∙◌, ◌≢◌, inl, inr, Bool, true, false, not, ◌&&◌, List, [], ◌∷◌,
  ◌++◌, map, arith,
}
use entroq.Doc.{is_set_ref, DocArrival, DocSet}
use entroq.Errors.{ok}
use entroq.Modification.{Modification, names_nothing, SetName, set_name_eq, ensure_modify_keys}
use entroq.Modification.Keys.{set_of, NamesSet, KeysNamed, ensure_modify_keys-KeysNamed}
use entroq.Worker.{set_key}
use entroq.Worker.Commit.{releasing}
use entroq.Worker.Commit.Releases.{decides_set, release, free_sets, releasing-free_sets}

-- A set that a claim returned: it has a namespace and a key.
abbrev pub IsNamed : DocSet → Type 0
IsNamed g = (g.ns ≢ "") × (g.key ≢ "")

keep-avoids :
    (p : DocSet → Bool) (s : SetName) (sets : List DocSet)
    → All (λ t. t ≢ s) (map set_key sets)
    → All (λ t. t ≢ s) (map set_of (map release (keep p sets)))
keep-avoids p s [] h = tt
keep-avoids p s (g ∷ sets) h =
    elim (p g)
      as (λ b.
        All (λ t. t ≢ s) (map set_of (map release (if b then g ∷ keep p sets else keep p sets)))) [
          | true ↦ (h.0, keep-avoids p s sets h.1)
          | false ↦ keep-avoids p s sets h.1
        ]

keep-Distinct :
    (p : DocSet → Bool) (sets : List DocSet)
    → Distinct (map set_key sets)
    → Distinct (map set_of (map release (keep p sets)))
keep-Distinct p [] h = tt
keep-Distinct p (g ∷ sets) h =
    elim (p g)
      as (λ b. Distinct (map set_of (map release (if b then g ∷ keep p sets else keep p sets)))) [
        | true ↦ (keep-avoids p (set_key g) sets h.0, keep-Distinct p sets h.1)
        | false ↦ keep-Distinct p sets h.1
      ]

keep-NamesSet :
    (p : DocSet → Bool) (sets : List DocSet)
    → All IsNamed sets
    → All NamesSet (map release (keep p sets))
unfolding is_set_ref
keep-NamesSet p [] h = tt
keep-NamesSet p (g ∷ sets) h =
    elim (p g) as (λ b. All NamesSet (map release (if b then g ∷ keep p sets else keep p sets))) [
      | true ↦ ((ground (arith, h.0.1), h.0.0), keep-NamesSet p sets h.1)
      | false ↦ keep-NamesSet p sets h.1
    ]

append-avoids :
    (s : SetName) (arrivals more : List DocArrival)
    → All (λ t. t ≢ s) (map set_of arrivals)
    → All (λ b. set_of b ≢ s) more
    → All (λ t. t ≢ s) (map set_of (arrivals ++ more))
append-avoids s [] [] h k = tt
append-avoids s [] (b ∷ more) h k = (k.0, append-avoids s [] more tt k.1)
append-avoids s (a ∷ arrivals) more h k = (h.0, append-avoids s arrivals more h.1 k)

-- Two lists of different sets, the second of which has none of the first, are distinct together.
append-Distinct :
    (arrivals : List DocArrival) (more : List DocArrival)
    → Distinct (map set_of arrivals)
    → Distinct (map set_of more)
    → All (λ a. All (λ b. set_of b ≢ set_of a) more) arrivals
    → Distinct (map set_of (arrivals ++ more))
append-Distinct [] more h k apart = k
append-Distinct (a ∷ arrivals) more h k apart = (
  append-avoids (set_of a) arrivals more h.0 apart.0,
  append-Distinct arrivals more h.1 k apart.1,
)

keep-apart :
    (p : DocSet → Bool) (s : SetName)
    → ((g : DocSet) → p g ≡ true → set_key g ≢ s)
    → (sets : List DocSet) → All (λ b. set_of b ≢ s) (map release (keep p sets))
keep-apart p s h [] = tt
keep-apart p s h (g ∷ sets) = elim (Bool-cases (p g)) [
  | inl e ↦ rw e (h g e, keep-apart p s h sets)
  | inr e ↦ rw e (keep-apart p s h sets)
]

-- What is free is in no arrival of the modification's own.
free-apart :
    (m : Modification) (sets : List DocSet) (arrivals : List DocArrival)
    → ((s : SetName) → any (λ a. set_of a == s) arrivals ≡ true → decides_set m s ≡ true)
    → All (λ a. All (λ b. set_of b ≢ set_of a) (map release (free_sets m sets))) arrivals
free-apart m sets [] h = tt
free-apart m sets (a ∷ arrivals) h = (
  keep-apart (λ g. not (decides_set m (set_key g))) (set_of a)
      (λ g free e. ground (arith, free, ap (decides_set m) e, h (set_of a))) sets,
  free-apart m sets arrivals (λ s e. h s (ground (arith, e))),
)

is_empty-append {ℓ} :
    {A : Type ℓ} (xs ys : List A) → is_empty (xs ++ ys) ≡ (is_empty xs && is_empty ys)
is_empty-append [] ys = refl
is_empty-append (x ∷ xs) ys = refl

names_nothing-more :
    (m : Modification) (more : List DocArrival)
    → names_nothing m ≡ false
    → names_nothing (record m { doc_arrives = m.doc_arrives ++ more }) ≡ false
unfolding names_nothing
names_nothing-more m more h = ground (arith, is_empty-append m.doc_arrives more)

more-KeysNamed :
    (m : Modification) (more : List DocArrival)
    → KeysNamed m
    → All NamesSet more
    → Distinct (map set_of (m.doc_arrives ++ more))
    → KeysNamed (record m { doc_arrives = m.doc_arrives ++ more })
more-KeysNamed m more k named distinct = record {
  something = names_nothing-more m more k.something;
  inserts = k.inserts;
  changes = k.changes;
  arrives = k.arrives;
  doc_inserts = k.doc_inserts;
  doc_arrives = (All-append NamesSet m.doc_arrives more).1 (k.doc_arrives, named);
  sets = distinct;
}

-- The release of what a worker holds keeps a modification that names its keys: sets with a
-- namespace and a key each, no two the same, are no arrival that is there already, so the request
-- still passes the check of its keys.
pub releasing-ensure_modify_keys :
    (now : Time) (sets : List DocSet) (m : Modification)
    → All IsNamed sets
    → Distinct (map set_key sets)
    → ensure_modify_keys m ≡ ok tt
    → ensure_modify_keys (releasing now sets m) ≡ ok tt
releasing-ensure_modify_keys now sets m named distinct passes =
    let k = (ensure_modify_keys-KeysNamed m).0 passes in
    let p = λ (g : DocSet). not (decides_set m (set_key g)) in
    let apart = free-apart m sets m.doc_arrives (λ s e. ground (arith, e)) in
    let all_distinct =
      append-Distinct m.doc_arrives (map release (keep p sets)) k.sets
        (keep-Distinct p sets distinct) apart in
    ap ensure_modify_keys (releasing-free_sets now sets m)
    ∙ (ensure_modify_keys-KeysNamed _).1
        (more-KeysNamed m (map release (keep p sets)) k (keep-NamesSet p sets named) all_distinct)
