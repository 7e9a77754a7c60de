-- ===== src/Worker/Renewal/Answers.antt =====
-- Answers to a renewal: what held.renewed of pkg/worker/worker.go makes of a response.
use entroq.Base.{
  Dict, lookup, insert, lookup-insert, Bool-cases, Option-cases, All, any, string_eq, nat_eq, ◌==◌,
  ℕ, String, ◌≡◌, refl, ◌⊎◌, inl, inr, Bool, true, false, ◌&&◌, none, some, List, [], ◌∷◌, map,
  arith,
}
use entroq.Task.{Task}
use entroq.Doc.{Doc, DocSet}
use entroq.Errors.{err, ok}
use entroq.Modification.{SetName, set_name_eq}
use entroq.Mem.Prepare.{ModifyResponse}
use entroq.Worker.{Held, set_key}
use entroq.Worker.Renewal.{
  relocked_doc, relocked, lost_claim_errorf, locks_of, renewed_sets, renewed,
}

-- The response names the set, or names it at the version.
abbrev pub names_set : List DocSet → SetName → Bool
names_set locks s = any (λ l. set_key l == s) locks

abbrev pub names_at : List DocSet → DocSet → Bool
names_at locks g = any (λ l. set_key l == set_key g && l.version == g.version) locks

names_at-names :
    (ls : List DocSet) (s : SetName) (v : ℕ)
    → any (λ x. set_key x == s && x.version == v) ls ≡ true
    → names_set ls s ≡ true
names_at-names (l ∷ ls) s v h = ground (arith, h, names_at-names ls s v)
names_at-names [] s v h = h

lookup-locks_of :
    (ls : List DocSet) (seen : Dict SetName DocSet) (s : SetName)
    → ((l : DocSet) × (lookup s (locks_of ls seen) ≡ some l)
        × ((any (λ x. set_key x == s && x.version == l.version) ls ≡ true)
            ⊎ (lookup s seen ≡ some l)))
      ⊎ ((lookup s (locks_of ls seen) ≡ none) × (names_set ls s ≡ false) × (lookup s seen ≡ none))
unfolding locks_of
lookup-locks_of [] seen s = elim (Option-cases (lookup s seen)) [
  | inl e ↦ inr (e, refl, e)
  | inr (l, e) ↦ inl (l, e, inr e)
]
lookup-locks_of (l ∷ ls) seen s = elim (lookup-locks_of ls (insert (set_key l) l seen) s) [
  | inl (x, e, inl n) ↦ inl (x, e, inl (ground (arith, n)))
  | inl (x, e, inr n) ↦ elim (Bool-cases (set_key l == s)) [
    | inl same ↦ inl (x, e, inl (ground (arith, same, n, lookup-insert (set_key l) s l seen)))
    | inr other ↦ inl (x, e, inr (ground (arith, other, n, lookup-insert (set_key l) s l seen)))
  ]
  | inr (e, n, m) ↦ inr (
    e,
    ground (arith, n, m, lookup-insert (set_key l) s l seen),
    ground (arith, n, m, lookup-insert (set_key l) s l seen),
  )
]

-- The docs of a set are at its version.
abbrev pub IsUniform : DocSet → Type 0
IsUniform g = All (λ d. d.version ≡ g.version) g.docs

relocked_doc-uniform :
    (l : DocSet) (ds : List Doc) → All (λ d. d.version ≡ l.version) (map (relocked_doc l) ds)
unfolding relocked_doc
relocked_doc-uniform l [] = tt
relocked_doc-uniform l (d ∷ ds) = (refl, relocked_doc-uniform l ds)

-- The docs of a set, by ID
abbrev pub doc_ids : DocSet → List String
doc_ids g = map (λ d. d.id) g.docs

relocked_doc-ids :
    (l : DocSet) (ds : List Doc) → map (λ d. d.id) (map (relocked_doc l) ds) ≡ map (λ d. d.id) ds
unfolding relocked_doc
relocked_doc-ids l [] = refl
relocked_doc-ids l (d ∷ ds) = ground (arith, relocked_doc-ids l ds)

-- What a renewal keeps, and what it takes from the locks of the response.
pub record AreRenewed (old new locks : List DocSet) : Type 0 where
  pub same_sets : map set_key new ≡ map set_key old
  pub same_docs : map doc_ids new ≡ map doc_ids old
  pub uniform : All IsUniform new
  pub at_locks : All (λ g. names_at locks g ≡ true) new

renewed_sets-AreRenewed :
    (h : Held) (locks : List DocSet) (sets : List DocSet)
    → ((new : List DocSet) × (renewed_sets h (locks_of locks []) sets ≡ ok new)
        × AreRenewed sets new locks
        × All (λ g. names_set locks (set_key g) ≡ true) sets)
      ⊎ ((renewed_sets h (locks_of locks []) sets ≡ err (lost_claim_errorf h))
          × (¬ All (λ g. names_set locks (set_key g) ≡ true) sets))
unfolding renewed_sets relocked lookup
renewed_sets-AreRenewed h locks [] =
    inl ([], refl, record { same_sets = refl; same_docs = refl; uniform = tt; at_locks = tt }, tt)
renewed_sets-AreRenewed h locks (g ∷ sets) = elim (lookup-locks_of locks [] (set_key g)) [
  | inr (e, n, m) ↦ inr (rw (e, renewed_sets) refl, λ all. ground (arith, n, all.0))
  | inl (l, e, inr m) ↦ ground (arith, m)
  | inl (l, e, inl n) ↦ elim (renewed_sets-AreRenewed h locks sets) [
    | inr (f, missing) ↦ inr (ground (arith, e, f), λ all. missing all.1)
    | inl (new, f, kept, all) ↦ inl (
      relocked g l ∷ new,
      ground (arith, e, f),
      record {
        same_sets = ground (arith, kept.same_sets);
        same_docs = ground (arith, kept.same_docs, relocked_doc-ids l g.docs);
        uniform = (relocked_doc-uniform l g.docs, kept.uniform);
        at_locks = (n, kept.at_locks);
      },
      (names_at-names locks (set_key g) l.version n, all),
    )
  ]
]

-- A response covers a hold when it changes the hold's task alone and names each of its sets.
abbrev pub Covers : ModifyResponse → Held → Type 0
Covers resp h =
    (t : Task) × (resp.changed_tasks ≡ t ∷ [])
    × (t.id ≡ h.task.id)
    × All (λ g. names_set resp.changed_sets (set_key g) ≡ true) h.sets

-- An answer that covers the hold renews it: the same task in the version of the answer, and the
-- same sets and docs in the same order, each set at a lock that the answer names and every doc at
-- its set's version. Any other answer is a lost claim, the failed dependence on the task.
pub renewed-Covers :
    (h : Held) (resp : ModifyResponse)
    → ((h' : Held) × (renewed h resp ≡ ok h')
        × Covers resp h
        × (resp.changed_tasks ≡ h'.task ∷ [])
        × AreRenewed h.sets h'.sets resp.changed_sets)
      ⊎ ((renewed h resp ≡ err (lost_claim_errorf h)) × (¬ Covers resp h))
unfolding renewed
renewed-Covers h resp =
    elim resp.changed_tasks
      as (λ ts.
        ((h' : Held) × (renewed h (record resp { changed_tasks = ts }) ≡ ok h')
          × Covers (record resp { changed_tasks = ts }) h
          × (ts ≡ h'.task ∷ [])
          × AreRenewed h.sets h'.sets resp.changed_sets)
        ⊎ ((renewed h (record resp { changed_tasks = ts }) ≡ err (lost_claim_errorf h))
            × (¬ Covers (record resp { changed_tasks = ts }) h))) [
              | [] ↦ inr (refl, λ (t, e, _, _). cc)
              | t ∷ [] ↦ elim (Bool-cases (t.id == h.task.id)) [
                | inr other ↦ inr (rw other refl, λ (u, e, same, _). ground (arith, other, e, same))
                | inl same ↦ elim (renewed_sets-AreRenewed h resp.changed_sets h.sets) [
                  | inl (new, f, kept, all) ↦ inl (
                    record { task = t; sets = new },
                    ground (arith, same, f),
                    (t, refl, ground (arith, same), all),
                    refl,
                    kept,
                  )
                  | inr (f, missing) ↦ inr (ground (arith, same, f), λ (u, _, _, all). missing all)
                ]
              ]
              | t ∷ u ∷ ts ↦ inr (refl, λ (v, e, _, _). cc)
            ]
