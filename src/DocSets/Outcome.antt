-- ===== src/DocSets/Outcome.antt =====
-- What Evaluate refuses, and what it plans otherwise.
use entroq.Base.{
  Time, All, string_eq, nat_eq, String, ◌≡◌, refl, ◌∙◌, ◌↔◌, false, Option, none, List, [], ◌∷◌,
  arith,
}
use entroq.Doc.{DocId, DocData, Doc, DocArrival}
use entroq.Errors.{no_failures}
use entroq.Modification.{Modification, SetName, set_name_eq}
use entroq.Dependency.{has_any, doc_name_eq}
use entroq.DocSets.{Lock, Evaluation, run, evaluation, evaluate}
use entroq.DocSets.Steps.{
  failing, NoneReported, StepLaws, InsertFine, insert_effect, insert-StepLaws,
}
use entroq.DocSets.Writes.{
  ChangeFine, DeleteFine, change_effect, delete_effect, change-StepLaws, delete-StepLaws,
  DependFine, ArriveFine, arrive_effect, arrive-StepLaws, depend-StepLaws,
}

module _ {A : Type 0} {Fine : A → Type 0} {effect step : A → Evaluation → Evaluation}
    (laws : StepLaws Fine effect step) where
  run-fine : (xs : List A) (st : Evaluation) → All Fine xs → run step xs st ≡ run effect xs st
  unfolding run
  run-fine [] st h = refl
  run-fine (x ∷ xs) st h = rw (laws.fine x st h.0) (run-fine xs (effect x st) h.1)

  run-quiet :
      (xs : List A) (st : Evaluation)
      → (failing (run effect xs st) ≡ failing st) × ((run effect xs st).reported ≡ st.reported)
  unfolding run
  run-quiet [] st = (refl, refl)
  run-quiet (x ∷ xs) st =
      let (a, b) = run-quiet xs (effect x st) in let (c, d) = laws.quiet x st in (a ∙ c, b ∙ d)

  step-NoneReported : (x : A) (st : Evaluation) → NoneReported st → NoneReported (step x st)
  step-NoneReported x st r h =
      let (f, ok_before) = laws.only x st r h in
      rw (laws.fine x st f) ((laws.quiet x st).1 ∙ r ok_before)

  run-NoneReported :
      (xs : List A) (st : Evaluation) → NoneReported st → NoneReported (run step xs st)
  unfolding run
  run-NoneReported [] st r = r
  run-NoneReported (x ∷ xs) st r = run-NoneReported xs (step x st) (step-NoneReported x st r)

  -- A loop that fails nothing ran on fine entries, from where nothing had failed.
  run-only :
      (xs : List A) (st : Evaluation)
      → NoneReported st
      → failing (run step xs st) ≡ false
      → All Fine xs × (failing st ≡ false)
  unfolding run
  run-only [] st r h = (tt, h)
  run-only (x ∷ xs) st r h =
      let (fs, mid) = run-only xs (step x st) (step-NoneReported x st r) h in
      let (f, before_it) = laws.only x st r mid in ((f, fs), before_it)

module _ (m : Modification) (now : Time) (member : String → String → Option Doc)
    (occupant : SetName → String → Option Doc) (lock : SetName → Lock) where
  -- Every doc operation can proceed.
  pub record DocsProceed : Type 0 where
    pub inserts : All (InsertFine m now member occupant lock) m.doc_inserts
    pub changes : All (ChangeFine m now member occupant lock) m.doc_changes
    pub deletes : All (DeleteFine m now member occupant lock) m.doc_deletes
    pub depends : All (DependFine m now member occupant lock) m.doc_depends
    pub arrives : All (ArriveFine m now member occupant lock) m.doc_arrives

  abbrev start : Evaluation
  start = record { failures = no_failures; held = []; added = []; reported = [] }

  -- The writes of the modification, one after another, with no check.
  abbrev pub effects : Evaluation
  effects = run arrive_effect' m.doc_arrives (
      run (λ d st. st) m.doc_depends
        (run delete_effect' m.doc_deletes
          (run change_effect' m.doc_changes (run insert_effect' m.doc_inserts start))))
    where
      insert_effect' : DocData → Evaluation → Evaluation
      insert_effect' = insert_effect m now member occupant lock

      change_effect' : Doc → Evaluation → Evaluation
      change_effect' = change_effect m now member occupant lock

      delete_effect' : DocId → Evaluation → Evaluation
      delete_effect' = delete_effect m now member occupant lock

      arrive_effect' : DocArrival → Evaluation → Evaluation
      arrive_effect' = arrive_effect m now member occupant lock

  evaluation-only : failing (evaluation m now member occupant lock) ≡ false → DocsProceed
  unfolding evaluation
  evaluation-only h =
      let i = insert-StepLaws m now member occupant lock in
      let c = change-StepLaws m now member occupant lock in
      let d = delete-StepLaws m now member occupant lock in
      let w = depend-StepLaws m now member occupant lock in
      let a = arrive-StepLaws m now member occupant lock in
      let r₁ = run-NoneReported i m.doc_inserts start (λ _. refl) in
      let r₂ = run-NoneReported c m.doc_changes _ r₁ in
      let r₃ = run-NoneReported d m.doc_deletes _ r₂ in
      let r₄ = run-NoneReported w m.doc_depends _ r₃ in
      let (fa, h₄) = run-only a m.doc_arrives _ r₄ h in
      let (fw, h₃) = run-only w m.doc_depends _ r₃ h₄ in
      let (fd, h₂) = run-only d m.doc_deletes _ r₂ h₃ in
      let (fc, h₁) = run-only c m.doc_changes _ r₁ h₂ in
      let (fi, _) = run-only i m.doc_inserts start (λ _. refl) h₁ in
      record { inserts = fi; changes = fc; deletes = fd; depends = fw; arrives = fa }

  pub evaluation-fine : DocsProceed → evaluation m now member occupant lock ≡ effects
  unfolding evaluation
  evaluation-fine p =
      rw
        (
          run-fine (insert-StepLaws m now member occupant lock) m.doc_inserts start p.inserts,
          run-fine (change-StepLaws m now member occupant lock) m.doc_changes _ p.changes,
          run-fine (delete-StepLaws m now member occupant lock) m.doc_deletes _ p.deletes,
          run-fine (depend-StepLaws m now member occupant lock) m.doc_depends _ p.depends,
          run-fine (arrive-StepLaws m now member occupant lock) m.doc_arrives _ p.arrives,
        )
        refl

  pub effects-quiet : failing effects ≡ false
  unfolding has_any
  effects-quiet =
      (run-quiet (arrive-StepLaws m now member occupant lock) m.doc_arrives _).0
      ∙ (run-quiet (depend-StepLaws m now member occupant lock) m.doc_depends _).0
      ∙ (run-quiet (delete-StepLaws m now member occupant lock) m.doc_deletes _).0
      ∙ (run-quiet (change-StepLaws m now member occupant lock) m.doc_changes _).0
      ∙ (run-quiet (insert-StepLaws m now member occupant lock) m.doc_inserts start).0

  -- Evaluate finds no failure exactly when every doc operation can proceed.
  pub evaluate-DocsProceed : ((evaluate m now member occupant lock).failed ≡ none) ↔ DocsProceed
  unfolding evaluate
  evaluate-DocsProceed =
      (λ h. evaluation-only (ground arith), λ p. ground (arith, effects-quiet, evaluation-fine p))
