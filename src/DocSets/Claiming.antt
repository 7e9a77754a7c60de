-- ===== src/DocSets/Claiming.antt =====
-- Claims of doc sets: ClaimAll and ClaimedSets of docset.go, and what a claim excludes. The errors
-- of the callback that lists a set's members, which eqmem never returns, are left out.
use entroq.Base.{
  Time, after, inc32, if◌then◌else◌, Bool-cases, is_some, length, All, append-nil, append_assoc,
  string_eq, nat_eq, ◌<◌, String, ◌≡◌, refl, ◌≢◌, ◌↔◌, inl, inr, true, false, not, Option, none,
  some, List, [], ◌∷◌, ◌++◌, map, arith,
}
use entroq.Task.{TaskId}
use entroq.Doc.{Doc, DocSet, DocSetClaim, DocClaim}
use entroq.Errors.{
  Message, DependencyError, no_failures, Invalid, Result, lapsed_task, invalid, dependency, err, ok,
}
use entroq.Modification.{SetName, set_name_eq}
use entroq.Dependency.{has_any, doc_name_eq, merge}
use entroq.Dependency.Merge.{has_any-merged}
use entroq.DocSets.{
  Lock, absent_lock, held_by_other, overlay, claim, current, claimed_set, held_error,
}

-- SetsOf
abbrev pub sets_of : DocClaim → List SetName
sets_of cq = map (λ s. (s.ns, s.key)) cq.sets

-- MissingTaskErrorf and LapsedTaskErrorf
abbrev pub task_dep_error : Message → TaskId → DependencyError
task_dep_error what id = record no_failures { message = what; depends = id ∷ [] }

-- The error so far, with that of a set that somebody else holds.
unfoldable pub add_held :
    SetName → Lock → List Doc → Option DependencyError → Option DependencyError
add_held g l ms none = some (held_error g l ms)
add_held g l ms (some so_far) = merge (some so_far) (some (held_error g l ms))

module _ (cq : DocClaim) (now until : Time) (lock : SetName → Lock)
    (members : SetName → List Doc) where
  -- The loop of ClaimAll, with `claimed` and `held` (`refusal` here); a set that is held leaves the zero lock.
  unfoldable pub claim_loop : List SetName → List Lock → Option DependencyError → Result (List Lock)
  claim_loop [] claimed refusal = elim refusal [ none ↦ ok claimed | some e ↦ err (dependency e) ]
  claim_loop (g ∷ gs) claimed refusal =
      let (claimed', refusal') : List Lock × Option DependencyError =
        elim (claim (lock g) cq.claimant now until) [
          | some next ↦ (claimed ++ next ∷ [], refusal)
          | none ↦ (claimed ++ absent_lock ∷ [], add_held g (lock g) (members g) refusal)
        ] in
      claim_loop gs claimed' refusal'

  -- ClaimAll
  unfoldable pub claim_all : Result (List Lock)
  claim_all =
      if not (after until now)
      then elim cq.task_to_match [
        | some id ↦ err (dependency (task_dep_error lapsed_task id))
        | none ↦ err (invalid Invalid.hold_in_past)
      ]
      else claim_loop (sets_of cq) [] none

-- The loop of ClaimedSets over the sets named and their locks; `none` is the panic of `locks[i]`
-- where there are too few.
unfoldable pub claimed_sets_loop :
    (SetName → List Doc) → List DocSetClaim → List Lock → Option (List DocSet)
claimed_sets_loop members [] locks = some []
claimed_sets_loop members (s ∷ ss) [] = none
claimed_sets_loop members (s ∷ ss) (l ∷ ls) = elim (claimed_sets_loop members ss ls) [
  | none ↦ none
  | some rest ↦
      let g : SetName = (s.ns, s.key) in
      some ((if s.omit_members then current g l else claimed_set g l (members g)) ∷ rest)
]

-- ClaimedSets
abbrev pub claimed_sets : DocClaim → List Lock → (SetName → List Doc) → Option (List DocSet)
claimed_sets cq locks members = claimed_sets_loop members cq.sets locks

-- After a claim, another claim of the set is refused exactly when it is somebody else's and comes
-- before the end of the hold.
pub claim-exclusive :
    (l after_it : Lock) (a : String) (now until : Time)
    → claim l a now until ≡ some after_it
    → a ≢ ""
    → (b : String) (t u : Time) → (claim after_it b t u ≡ none) ↔ ((b ≢ a) × (t < until))
unfolding claim
claim-exclusive l after_it a now until h named b t u = (λ h'. ground arith, λ h'. ground arith)

-- The lock that a claim leaves.
abbrev pub taken : Lock → String → Time → Lock
taken l claimant until = record {
  stored = true;
  version = inc32 l.version;
  claimant = claimant;
  at = until;
  num_docs = l.num_docs;
}

has_any-held_error : (g : SetName) (l : Lock) (ms : List Doc) → has_any (held_error g l ms) ≡ true
unfolding has_any held_error
has_any-held_error g l ms = ground arith

add_held-some :
    (g : SetName) (l : Lock) (ms : List Doc) (so_far : Option DependencyError)
    → is_some (add_held g l ms so_far) ≡ true
unfolding add_held merge
add_held-some g l ms none = refl
add_held-some g l ms (some e) =
    ground (arith, has_any-merged e (held_error g l ms), has_any-held_error g l ms)

module _ (cq : DocClaim) (now until : Time) (lock : SetName → Lock)
    (members : SetName → List Doc) where
  abbrev loop : List SetName → List Lock → Option DependencyError → Result (List Lock)
  loop = claim_loop cq now until lock members

  loop-some :
      (gs : List SetName) (claimed : List Lock) (so_far : Option DependencyError)
      (locks : List Lock)
      → loop gs claimed so_far ≡ ok locks
      → so_far ≡ none
  unfolding claim_loop claim
  loop-some [] claimed none locks h = refl
  loop-some [] claimed (some e) locks h = ground arith
  loop-some (g ∷ gs) claimed so_far locks h = ground (
    arith,
    loop-some gs (claimed ++ taken (lock g) cq.claimant until ∷ []) so_far locks,
    loop-some gs (claimed ++ absent_lock ∷ []) (add_held g (lock g) (members g) so_far) locks,
    add_held-some g (lock g) (members g) so_far,
  )

  abbrev pub Free : SetName → Type 0
  Free g = held_by_other (lock g) cq.claimant now ≡ false

  abbrev pub all_taken : List SetName → List Lock
  all_taken gs = map (λ g. taken (lock g) cq.claimant until) gs

  loop-ok :
      (gs : List SetName) (claimed locks : List Lock)
      → (loop gs claimed none ≡ ok locks) ↔ (All Free gs × (locks ≡ claimed ++ all_taken gs))
  unfolding claim_loop claim
  loop-ok [] claimed locks =
      (λ h. ground (arith, append-nil claimed), λ h. ground (arith, append-nil claimed))
  loop-ok (g ∷ gs) claimed locks =
      let next = taken (lock g) cq.claimant until in
      let e = loop-ok gs (claimed ++ next ∷ []) locks in
      let a = append_assoc claimed (next ∷ []) (all_taken gs) in
      let n =
        loop-some gs (claimed ++ absent_lock ∷ []) (add_held g (lock g) (members g) none) locks in
      let t = add_held-some g (lock g) (members g) none in
      (λ h. ground (arith, e.0, a, n, t), λ h. ground (arith, e.1, a))

  -- ClaimAll takes every set that is named, or none: it succeeds exactly when the hold ends after
  -- now and nobody else holds any of the sets, and then every set's lock moves on by one version
  -- and is the claimant's until the end of the hold.
  pub claim_all-taken :
      (locks : List Lock)
      → (claim_all cq now until lock members ≡ ok locks)
        ↔ ((now < until) × All Free (sets_of cq) × (locks ≡ all_taken (sets_of cq)))
  unfolding claim_all
  claim_all-taken locks =
      let e = loop-ok (sets_of cq) [] locks in
      (λ h. ground (arith, e.0), λ h. ground (arith, e.1 (h.1, h.2)))

-- A doc at the version, the claimant and the arrival of a lock
abbrev pub doc_at : Lock → Doc → Doc
doc_at l d = record d { version = l.version; claimant = l.claimant; at = l.at }

-- The set that a request names comes back at its lock, with its docs in order at that lock, or
-- without docs where the request leaves them out.
abbrev pub CarriesLock : (SetName → List Doc) → DocSetClaim → Lock → DocSet → Type 0
CarriesLock members c l s =
    (s.ns ≡ c.ns)
    × (s.key ≡ c.key)
    × (s.version ≡ l.version)
    × (s.claimant ≡ l.claimant)
    × (s.at ≡ l.at)
    × (s.num_docs ≡ l.num_docs)
    × (c.omit_members ≡ true → s.docs ≡ [])
    × (c.omit_members ≡ false → s.docs ≡ map (doc_at l) (members (c.ns, c.key)))

abbrev pub CarryLocks : (SetName → List Doc) → List DocSetClaim → List Lock → List DocSet → Type 0
CarryLocks members [] [] [] = Unit
CarryLocks members (c ∷ cs) (l ∷ ls) (s ∷ ss) =
    CarriesLock members c l s × CarryLocks members cs ls ss
CarryLocks members _ _ _ = ⊥

returned-CarriesLock :
    (members : SetName → List Doc) (c : DocSetClaim) (l : Lock)
    → CarriesLock members c l (
        if c.omit_members
        then current (c.ns, c.key) l
        else claimed_set (c.ns, c.key) l (members (c.ns, c.key)))
unfolding current claimed_set overlay
returned-CarriesLock members c l = elim (Bool-cases c.omit_members) [
  | inl e ↦ rw e (refl, refl, refl, refl, refl, refl, (λ _. refl), (λ h. ground (arith, h)))
  | inr e ↦ rw e (refl, refl, refl, refl, refl, refl, (λ h. ground (arith, h)), (λ _. refl))
]

claimed_sets_loop-CarryLocks :
    (members : SetName → List Doc) (ss : List DocSetClaim) (ls : List Lock)
    → length ss ≡ length ls
    → (out : List DocSet) × (claimed_sets_loop members ss ls ≡ some out)
      × CarryLocks members ss ls out
unfolding claimed_sets_loop
claimed_sets_loop-CarryLocks members [] [] h = ([], refl, tt)
claimed_sets_loop-CarryLocks members [] (l ∷ ls) h = ground arith
claimed_sets_loop-CarryLocks members (s ∷ ss) [] h = ground arith
claimed_sets_loop-CarryLocks members (s ∷ ss) (l ∷ ls) h =
    let (out, e, c) = claimed_sets_loop-CarryLocks members ss ls (omega (arith, h)) in
    let g : SetName = (s.ns, s.key) in
    (
      (if s.omit_members then current g l else claimed_set g l (members g)) ∷ out,
      rw e refl,
      (returned-CarriesLock members s l, c),
    )

-- Given a lock for every set, ClaimedSets does not panic and returns the sets that the claim names,
-- in its order, each of them at its lock's version, claimant, arrival and doc count, with its docs
-- at the same, or with none where the claim leaves them out.
pub claimed_sets-CarryLocks :
    (cq : DocClaim) (locks : List Lock) (members : SetName → List Doc)
    → length cq.sets ≡ length locks
    → (out : List DocSet) × (claimed_sets cq locks members ≡ some out)
      × CarryLocks members cq.sets locks out
claimed_sets-CarryLocks cq locks members h = claimed_sets_loop-CarryLocks members cq.sets locks h
