-- ===== src/DocSets/Steps.antt =====
-- One step of each loop of Evaluate: what makes it fail, and what it writes otherwise.
use entroq.Base.{
  ℤ, ltb_ℤ, pos, Time, Duration, insert, contains, contains-nil, Option-cases, is_empty, string_eq,
  nat_eq, String, ◌≡◌, refl, ◌≢◌, inl, inr, Bool, true, false, Option, none, List, [], ◌∷◌, ◌++◌,
  arith,
}
use entroq.Doc.{DocId, new_doc_id, DocData, Doc}
use entroq.Modification.{Modification, SetName, set_name_eq}
use entroq.Dependency.{has_any, doc_name_eq}
use entroq.DocSets.{
  Lock, held_by_other, set_ref, Evaluation, fail_insert, fail_change, fail_delete, fail_depend,
  fail_claim, fail_arrive, count_docs, write, report_claimed, claim_or_insert, insert_step,
}

abbrev pub failing : Evaluation → Bool
failing st = has_any st.failures

is_empty-concat {ℓ} : {A : Type ℓ} (xs : List A) (x : A) → is_empty (xs ++ x ∷ []) ≡ false
is_empty-concat [] x = refl
is_empty-concat (y ∷ xs) x = refl

module _ (id : DocId) (st : Evaluation) where
  pub failing-fail_insert : failing (fail_insert id st) ≡ true
  unfolding fail_insert has_any
  failing-fail_insert = ground (arith, is_empty-concat st.failures.doc_inserts id)

  pub failing-fail_change : failing (fail_change id st) ≡ true
  unfolding fail_change has_any
  failing-fail_change = ground (arith, is_empty-concat st.failures.doc_changes id)

  pub failing-fail_delete : failing (fail_delete id st) ≡ true
  unfolding fail_delete has_any
  failing-fail_delete = ground (arith, is_empty-concat st.failures.doc_deletes id)

  pub failing-fail_depend : failing (fail_depend id st) ≡ true
  unfolding fail_depend has_any
  failing-fail_depend = ground (arith, is_empty-concat st.failures.doc_depends id)

  pub failing-fail_claim : failing (fail_claim id st) ≡ true
  unfolding fail_claim has_any
  failing-fail_claim = ground (arith, is_empty-concat st.failures.doc_claims id)

  pub failing-fail_arrive : failing (fail_arrive id st) ≡ true
  unfolding fail_arrive has_any
  failing-fail_arrive = ground (arith, is_empty-concat st.failures.doc_arrives id)

pub failing-write :
    (now : Time) (g : SetName) (by : Duration) (st : Evaluation)
    → failing (write now g by st) ≡ failing st
unfolding write
failing-write now g by st = refl

pub failing-count_docs :
    (g : SetName) (n : ℤ) (st : Evaluation) → failing (count_docs g n st) ≡ failing st
unfolding count_docs
failing-count_docs g n st = refl

-- Everybody but the modification's claimant is kept out of the set.
abbrev pub Free : Modification → Time → Lock → Type 0
Free m now l = held_by_other l m.claimant now ≡ false

-- No set has been reported as long as nothing has failed.
abbrev pub NoneReported : Evaluation → Type 0
NoneReported st = failing st ≡ false → st.reported ≡ []

pub unreported : (g : SetName) (st : Evaluation) → st.reported ≡ [] → contains g st.reported ≡ false
unreported g st h = contains-nil g st.reported h

-- What the loops need of a step: on a fine entry it has its effect, which fails nothing; and it
-- fails nothing only on a fine entry, and if nothing has failed before.
pub record StepLaws {A : Type 0} (Fine : A → Type 0) (effect step : A → Evaluation → Evaluation)
    : Type 0 where
  pub fine : (x : A) (st : Evaluation) → Fine x → step x st ≡ effect x st
  pub only :
      (x : A) (st : Evaluation)
      → NoneReported st
      → failing (step x st) ≡ false
      → Fine x × (failing st ≡ false)
  pub quiet :
      (x : A) (st : Evaluation)
      → (failing (effect x st) ≡ failing st) × ((effect x st).reported ≡ st.reported)

module _ (m : Modification) (now : Time) (member : String → String → Option Doc)
    (occupant : SetName → String → Option Doc) (lock : SetName → Lock) where
  -- The insert's ID is new, nobody has its place in the set, and the set is not held.
  pub record InsertFine (ins : DocData) : Type 0 where
    pub new_id : ins.id ≢ "" → member ins.ns ins.id ≡ none
    pub new_place :
        ltb_ℤ (pos 0) (lock (ins.ns, ins.key)).num_docs ≡ true
        → occupant (ins.ns, ins.key) ins.secondary_key ≡ none
    pub free : Free m now (lock (ins.ns, ins.key))

  abbrev pub insert_effect : DocData → Evaluation → Evaluation
  insert_effect ins st =
      count_docs (ins.ns, ins.key) (pos 1) (write now (ins.ns, ins.key) ins.by st)

  claim_or_insert-only :
      (ins : DocData) (st : Evaluation)
      → failing (claim_or_insert m now member occupant lock ins st) ≡ false
      → Free m now (lock (ins.ns, ins.key)) × (failing st ≡ false)
  unfolding claim_or_insert report_claimed
  claim_or_insert-only ins st h =
      let g : SetName = (ins.ns, ins.key) in
      let st' : Evaluation =
        fail_claim (set_ref g (lock g)) (record st { reported = insert g true st.reported }) in
      let id = new_doc_id ins.ns ins.id (lock g).version in
      ground (
        arith,
        failing-fail_claim id st,
        failing-fail_claim id st',
        failing-count_docs g (pos 1) (write now g ins.by st),
        failing-write now g ins.by st,
      )

  insert-fine :
      (ins : DocData) (st : Evaluation)
      → InsertFine ins
      → insert_step m now member occupant lock ins st ≡ insert_effect ins st
  unfolding insert_step claim_or_insert report_claimed
  insert-fine ins st f = ground (arith, f.new_id, f.new_place, f.free)

  insert-only :
      (ins : DocData) (st : Evaluation)
      → failing (insert_step m now member occupant lock ins st) ≡ false
      → InsertFine ins × (failing st ≡ false)
  unfolding insert_step
  insert-only ins st h =
      let f₁ = failing-fail_insert (new_doc_id ins.ns ins.id 0) st in
      let f₂ = λ (there : Doc).
        failing-fail_insert (new_doc_id there.ns there.id (lock (ins.ns, ins.key)).version) st in
      elim (Option-cases (occupant (ins.ns, ins.key) ins.secondary_key)) [
        | inl e ↦ (
          record {
            new_id = λ n. ground (arith, f₁);
            new_place = λ p. e;
            free = ground (arith, f₁, claim_or_insert-only ins st);
          },
          ground (arith, f₁, claim_or_insert-only ins st),
        )
        | inr (there, e) ↦ (
          record {
            new_id = λ n. ground (arith, f₁);
            new_place = λ p. ground (arith, f₁, f₂ there);
            free = ground (arith, f₁, f₂ there, claim_or_insert-only ins st);
          },
          ground (arith, f₁, f₂ there, claim_or_insert-only ins st),
        )
      ]

  pub insert-StepLaws : StepLaws InsertFine insert_effect (insert_step m now member occupant lock)
  unfolding write count_docs
  insert-StepLaws = record {
    fine = insert-fine;
    only = λ ins st r h. insert-only ins st h;
    quiet = λ ins st. (refl, refl);
  }
