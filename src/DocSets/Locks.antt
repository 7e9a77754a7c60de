-- ===== src/DocSets/Locks.antt =====
-- The lock that each written set ends with, described from the modification's writes alone.
use entroq.Base.{
  ℤ, ◌+ℤ◌, +ℤ_assoc, +ℤ-zero, zero-+ℤ, pos, negsuc, Time, Duration, add, after, is_zero,
  is_positive, inc32, lookup, lookup-insert, get_or, get_or-insert, lookup-map_values,
  if◌then◌else◌, any, string_eq, nat_eq, ◌==◌, String, ◌≡◌, refl, sym, ap, ◌∙◌, Bool, true, false,
  ◌&&◌, ◌||◌, Option, none, some, List, [], ◌∷◌, ◌++◌, arith,
}
use entroq.Doc.{DocId, DocData, Doc, DocArrival}
use entroq.Errors.{no_failures}
use entroq.Modification.{Modification, SetName, set_name_eq}
use entroq.Dependency.{doc_name_eq}
use entroq.DocSets.{Lock, written, Evaluation, run, count_docs, latest, write, next_lock, evaluate}
use entroq.DocSets.Steps.{insert_effect}
use entroq.DocSets.Writes.{on_set, change_effect, delete_effect, arrive_effect}
use entroq.DocSets.Outcome.{DocsProceed, effects, evaluation-fine, effects-quiet}

-- A write to a set: for how long it asks to hold it, and how many docs it adds.
pub record SetWrite : Type 0 where
  pub set : SetName
  pub by : Duration
  pub docs : ℤ

-- A write to the set that a stored doc is in.
abbrev pub write_at : Option Doc → Duration → ℤ → List SetWrite
write_at none by n = []
write_at (some d) by n = record { set = (d.ns, d.key); by = by; docs = n } ∷ []

abbrev pub insert_writes : List DocData → List SetWrite
insert_writes [] = []
insert_writes (i ∷ is) = record { set = (i.ns, i.key); by = i.by; docs = pos 1 } ∷ insert_writes is

abbrev pub change_writes : (String → String → Option Doc) → List Doc → List SetWrite
change_writes member [] = []
change_writes member (c ∷ cs) = write_at (member c.ns c.id) c.by (pos 0) ++ change_writes member cs

abbrev pub delete_writes : (String → String → Option Doc) → List DocId → List SetWrite
delete_writes member [] = []
delete_writes member (d ∷ ds) =
    write_at (member d.ns d.id) (pos 0) (negsuc 0) ++ delete_writes member ds

abbrev pub arrive_writes : List DocArrival → List SetWrite
arrive_writes [] = []
arrive_writes (a ∷ as') =
    record { set = (a.ns, a.key); by = a.by; docs = pos 0 } ∷ arrive_writes as'

-- Every write of the modification, in order.
abbrev pub set_writes : Modification → (String → String → Option Doc) → List SetWrite
set_writes m member =
    insert_writes m.doc_inserts
    ++ (change_writes member m.doc_changes
        ++ (delete_writes member m.doc_deletes ++ arrive_writes m.doc_arrives))

abbrev pub writes_to : SetName → List SetWrite → Bool
writes_to g = any (λ w. w.set == g)

-- The later of two instants.
abbrev pub later : Time → Time → Time
later t u = if after t u then t else u

-- The latest instant until which a write to the set asks to hold it, 0 if none does.
unfoldable pub hold_until : Time → SetName → List SetWrite → Time
hold_until now g [] = 0
hold_until now g (w ∷ ws) =
    if w.set == g && is_positive w.by
    then later (add now w.by) (hold_until now g ws)
    else hold_until now g ws

-- Docs inserted less docs deleted.
unfoldable pub docs_added : SetName → List SetWrite → ℤ
docs_added g [] = pos 0
docs_added g (w ∷ ws) = if w.set == g then w.docs +ℤ docs_added g ws else docs_added g ws

-- The writes leave this in the maps `held` and `added`, over what they began with.
record After (now : Time) (ws : List SetWrite) (old new : Evaluation) : Type 0 where
  held :
      (g : SetName)
      → lookup g new.held ≡ (
          if writes_to g ws
          then some (later (hold_until now g ws) (get_or g 0 old.held))
          else lookup g old.held)
  added : (g : SetName) → get_or g (pos 0) new.added ≡ get_or g (pos 0) old.added +ℤ docs_added g ws

After-nil : (now : Time) (st : Evaluation) → After now [] st st
unfolding hold_until docs_added
After-nil now st = record { held = λ g. refl; added = λ g. sym (+ℤ-zero _) }

After-write :
    (now : Time) (g : SetName) (by : Duration) (st : Evaluation)
    → After now (record { set = g; by = by; docs = pos 0 } ∷ []) st (write now g by st)
unfolding write hold_until docs_added
After-write now g by st = record {
  held = λ k. ground (arith, lookup-insert g k (latest now by (get_or g 0 st.held)) st.held);
  added = λ k. ground (arith, +ℤ-zero (pos 0), +ℤ-zero (get_or k (pos 0) st.added));
}

After-count :
    (now : Time) (g : SetName) (by : Duration) (n : ℤ) (st : Evaluation)
    → After now (record { set = g; by = by; docs = n } ∷ []) st (count_docs g n (write now g by st))
unfolding count_docs write hold_until docs_added
After-count now g by n st = record {
  held = λ k. ground (arith, lookup-insert g k (latest now by (get_or g 0 st.held)) st.held);
  added = λ k. ground (
    arith,
    get_or-insert g k (get_or g (pos 0) st.added +ℤ n) (pos 0) st.added,
    +ℤ-zero n,
    +ℤ-zero (get_or k (pos 0) st.added),
  );
}

writes_to-append :
    (g : SetName) (ws vs : List SetWrite)
    → writes_to g (ws ++ vs) ≡ (writes_to g ws || writes_to g vs)
writes_to-append g [] vs = refl
writes_to-append g (w ∷ ws) vs = ground (arith, writes_to-append g ws vs)

hold_until-append :
    (now : Time) (g : SetName) (ws vs : List SetWrite)
    → hold_until now g (ws ++ vs) ≡ later (hold_until now g ws) (hold_until now g vs)
unfolding hold_until
hold_until-append now g [] vs = ground arith
hold_until-append now g (w ∷ ws) vs = ground (arith, hold_until-append now g ws vs)

docs_added-append :
    (g : SetName) (ws vs : List SetWrite)
    → docs_added g (ws ++ vs) ≡ docs_added g ws +ℤ docs_added g vs
unfolding docs_added
docs_added-append g [] vs = sym (zero-+ℤ _)
docs_added-append g (w ∷ ws) vs =
    ground (arith, docs_added-append g ws vs, +ℤ_assoc w.docs (docs_added g ws) (docs_added g vs))

-- A set that no write names is held until no time.
hold_until-unwritten :
    (now : Time) (g : SetName) (ws : List SetWrite)
    → writes_to g ws ≡ false
    → hold_until now g ws ≡ 0
unfolding hold_until
hold_until-unwritten now g [] h = refl
hold_until-unwritten now g (w ∷ ws) h = ground (arith, hold_until-unwritten now g ws)

After-append :
    (now : Time) (ws vs : List SetWrite) {a b c : Evaluation}
    → After now ws a b
    → After now vs b c
    → After now (ws ++ vs) a c
After-append now ws vs {a} {b} {c} p q = record {
  held = λ g. ground (
    arith,
    p.held g,
    q.held g,
    writes_to-append g ws vs,
    hold_until-append now g ws vs,
    hold_until-unwritten now g ws,
    hold_until-unwritten now g vs,
  );
  added = λ g.
      q.added g
      ∙ ap (λ z. z +ℤ docs_added g vs) (p.added g)
      ∙ +ℤ_assoc _ _ _
      ∙ ap (λ z. get_or g (pos 0) a.added +ℤ z) (sym (docs_added-append g ws vs));
}

module _ (m : Modification) (now : Time) (member : String → String → Option Doc)
    (occupant : SetName → String → Option Doc) (lock : SetName → Lock) where
  After-inserts :
      (xs : List DocData) (st : Evaluation)
      → After now (insert_writes xs) st (run (insert_effect m now member occupant lock) xs st)
  unfolding run
  After-inserts [] st = After-nil now st
  After-inserts (x ∷ xs) st =
      After-append now (_ ∷ []) (insert_writes xs) (After-count now (x.ns, x.key) x.by (pos 1) st)
        (After-inserts xs _)

  After-change :
      (c : Doc) (d : Option Doc) (st : Evaluation)
      → After now
          (write_at d c.by (pos 0))
          st
          (on_set m now member occupant lock (λ g. write now g c.by) d st)
  After-change c none st = After-nil now st
  After-change c (some d) st = After-write now (d.ns, d.key) c.by st

  After-changes :
      (xs : List Doc) (st : Evaluation)
      → After now
          (change_writes member xs)
          st
          (run (change_effect m now member occupant lock) xs st)
  unfolding run
  After-changes [] st = After-nil now st
  After-changes (x ∷ xs) st =
      After-append now _ (change_writes member xs) (After-change x (member x.ns x.id) st)
        (After-changes xs _)

  After-delete :
      (d : Option Doc) (st : Evaluation)
      → After now (write_at d (pos 0) (negsuc 0)) st (
          on_set m now member occupant lock
            (λ g s. count_docs g (negsuc 0) (write now g (pos 0) s))
            d
            st)
  After-delete none st = After-nil now st
  After-delete (some d) st = After-count now (d.ns, d.key) (pos 0) (negsuc 0) st

  After-deletes :
      (xs : List DocId) (st : Evaluation)
      → After now
          (delete_writes member xs)
          st
          (run (delete_effect m now member occupant lock) xs st)
  unfolding run
  After-deletes [] st = After-nil now st
  After-deletes (x ∷ xs) st =
      After-append now _ (delete_writes member xs) (After-delete (member x.ns x.id) st)
        (After-deletes xs _)

  run-same : (xs : List DocId) (st : Evaluation) → run (λ d s. s) xs st ≡ st
  unfolding run
  run-same [] st = refl
  run-same (x ∷ xs) st = run-same xs st

  After-arrives :
      (xs : List DocArrival) (st : Evaluation)
      → After now (arrive_writes xs) st (run (arrive_effect m now member occupant lock) xs st)
  unfolding run
  After-arrives [] st = After-nil now st
  After-arrives (x ∷ xs) st =
      After-append now (_ ∷ []) (arrive_writes xs) (After-write now (x.ns, x.key) x.by st)
        (After-arrives xs _)

  After-effects :
      After now
        (set_writes m member)
        (record { failures = no_failures; held = []; added = []; reported = [] })
        (effects m now member occupant lock)
  After-effects = After-append now _ _ (After-inserts m.doc_inserts _) (
      After-append now _ _ (After-changes m.doc_changes _) (
        After-append now _ _ (After-deletes m.doc_deletes _)
          (rw (run-same m.doc_depends _) (After-arrives m.doc_arrives _))))

  -- The lock that a written set ends with: stored, one version on (or at 0 when it was absent),
  -- held by the modification's claimant until the latest arrival that is asked for, or released now
  -- when none is, with its doc count moved by what is inserted and deleted.
  abbrev pub planned_lock : SetName → Lock
  planned_lock g =
      let until = hold_until now g (set_writes m member) in
      record {
        stored = true;
        version = if (lock g).stored then inc32 (lock g).version else 0;
        claimant = if is_zero until then "" else m.claimant;
        at = if is_zero until then now else until;
        num_docs = (lock g).num_docs +ℤ docs_added g (set_writes m member);
      }

  -- Where every doc operation can proceed, Evaluate plans a lock for exactly the sets that the
  -- modification writes, and it is the one described.
  pub evaluate-planned_lock :
      DocsProceed m now member occupant lock
      → (g : SetName)
      → lookup g (evaluate m now member occupant lock).locks
        ≡ (if writes_to g (set_writes m member) then some (planned_lock g) else none)
  unfolding evaluate next_lock written lookup
  evaluate-planned_lock p g =
      let e = effects m now member occupant lock in
      ground (
        arith,
        evaluation-fine m now member occupant lock p,
        effects-quiet m now member occupant lock,
        lookup-map_values (next_lock m now member occupant lock e.added) g e.held,
        After-effects.held g,
        After-effects.added g,
        zero-+ℤ (docs_added g (set_writes m member)),
      )
