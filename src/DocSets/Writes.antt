-- ===== src/DocSets/Writes.antt =====
-- The loops of Evaluate over changes, deletes, depends and arrivals, a step at a time.
use entroq.Base.{
  pos, negsuc, Time, insert, contains, if◌then◌else◌, Bool-cases, Option-cases, string_eq, nat_eq,
  ◌==◌, ℕ, String, ◌≡◌, refl, ◌⊎◌, inl, inr, true, false, not, ◌&&◌, ◌||◌, Option, none, some,
  arith,
}
use entroq.Doc.{DocId, new_doc_id, is_set_ref, Doc, DocArrival}
use entroq.Modification.{Modification, SetName, set_name_eq}
use entroq.Dependency.{doc_name_eq}
use entroq.DocSets.{
  Lock, held_by_other, set_ref, Evaluation, fail_claim, count_docs, write, report_claimed,
  is_provided, stored_set, change_step, delete_step, depend_step, arrive_step,
}
use entroq.DocSets.Steps.{
  failing, failing-fail_change, failing-fail_delete, failing-fail_depend, failing-fail_claim,
  failing-fail_arrive, failing-write, failing-count_docs, Free, NoneReported, unreported, StepLaws,
}

module _ (m : Modification) (now : Time) (member : String → String → Option Doc)
    (occupant : SetName → String → Option Doc) (lock : SetName → Lock) where
  -- The version is that of the doc's set, or 0 where the modification names the set too.
  abbrev pub AtSetVersion : ℕ → Doc → Type 0
  AtSetVersion version d =
      ((version ≡ 0) × (is_provided m now member occupant lock (d.ns, d.key) ≡ true))
      ⊎ ((lock (d.ns, d.key)).version ≡ version)

  stored_set-some :
      (ns id : String) (version : ℕ) (d : Doc)
      → member ns id ≡ some d
      → (AtSetVersion version d
          × (stored_set m now member occupant lock ns id version ≡ some (d.ns, d.key)))
        ⊎ ((¬ AtSetVersion version d)
            × (stored_set m now member occupant lock ns id version ≡ none))
  unfolding stored_set
  stored_set-some ns id version d e =
      elim (Bool-cases (version == 0 && is_provided m now member occupant lock (d.ns, d.key))) [
        | inl t ↦ inl (inl (ground arith, ground arith), ground arith)
        | inr f ↦ elim (Bool-cases ((lock (d.ns, d.key)).version == version)) [
          | inl t ↦ inl (inr (ground arith), ground arith)
          | inr g ↦ inr (λ w. elim w [ inl z ↦ ground arith | inr z ↦ ground arith ], ground arith)
        ]
      ]

  -- The doc is stored, at the version named.
  abbrev pub StoredFine : ℕ → Option Doc → Type 0
  StoredFine version none = ⊥
  StoredFine version (some d) = AtSetVersion version d

  -- And its set is not held.
  abbrev pub WriteFine : ℕ → Option Doc → Type 0
  WriteFine version none = ⊥
  WriteFine version (some d) = AtSetVersion version d × Free m now (lock (d.ns, d.key))

  abbrev pub ChangeFine : Doc → Type 0
  ChangeFine c = WriteFine c.version (member c.ns c.id)

  abbrev pub DeleteFine : DocId → Type 0
  DeleteFine d = WriteFine d.version (member d.ns d.id)

  -- What a write to the set of a stored doc does.
  abbrev pub on_set : (SetName → Evaluation → Evaluation) → Option Doc → Evaluation → Evaluation
  on_set f none st = st
  on_set f (some d) st = f (d.ns, d.key) st

  abbrev pub change_effect : Doc → Evaluation → Evaluation
  change_effect c = on_set (λ g st. write now g c.by st) (member c.ns c.id)

  abbrev pub delete_effect : DocId → Evaluation → Evaluation
  delete_effect d =
      on_set (λ g st. count_docs g (negsuc 0) (write now g (pos 0) st)) (member d.ns d.id)

  change-fine :
      (c : Doc) (st : Evaluation)
      → ChangeFine c
      → change_step m now member occupant lock c st ≡ change_effect c st
  unfolding change_step report_claimed
  change-fine c st f = elim (Option-cases (member c.ns c.id)) [
    | inl e ↦ absurd (rw e at f)
    | inr (d, e) ↦
        let g = rw e at f in ground (arith, stored_set-some c.ns c.id c.version d e, g.0, g.1)
  ]

  delete-fine :
      (c : DocId) (st : Evaluation)
      → DeleteFine c
      → delete_step m now member occupant lock c st ≡ delete_effect c st
  unfolding delete_step report_claimed
  delete-fine c st f = elim (Option-cases (member c.ns c.id)) [
    | inl e ↦ absurd (rw e at f)
    | inr (d, e) ↦
        let g = rw e at f in ground (arith, stored_set-some c.ns c.id c.version d e, g.0, g.1)
  ]

  report_claimed-cases :
      (g : SetName) (st : Evaluation)
      → NoneReported st
      → (Free m now (lock g) × (report_claimed m now member occupant lock g st ≡ (false, st)))
        ⊎ ((st' : Evaluation) × (report_claimed m now member occupant lock g st ≡ (true, st'))
            × (failing st' ≡ true))
  unfolding report_claimed
  report_claimed-cases g st r =
      let st' : Evaluation =
        fail_claim (set_ref g (lock g)) (record st { reported = insert g true st.reported }) in
      elim (Bool-cases (held_by_other (lock g) m.claimant now)) [
        | inr free ↦ inl (free, ground arith)
        | inl taken ↦ elim (Bool-cases (contains g st.reported)) [
          | inr new ↦ inr (st', ground arith, failing-fail_claim _ _)
          | inl seen ↦ elim (Bool-cases (failing st)) [
            | inl bad ↦ inr (st, ground arith, bad)
            | inr good ↦ ground (arith, unreported g st (r good))
          ]
        ]
      ]

  stored_set-inv :
      (ns id : String) (version : ℕ) (g : SetName)
      → stored_set m now member occupant lock ns id version ≡ some g
      → (d : Doc) × (member ns id ≡ some d) × AtSetVersion version d × (g ≡ (d.ns, d.key))
  unfolding stored_set
  stored_set-inv ns id version g h = elim (Option-cases (member ns id)) [
    | inl e ↦ ground arith
    | inr (d, e) ↦ elim (stored_set-some ns id version d e) [
      | inl (at, s) ↦ (d, e, at, ground arith)
      | inr (bad, s) ↦ ground arith
    ]
  ]

  change-only :
      (c : Doc) (st : Evaluation)
      → NoneReported st
      → failing (change_step m now member occupant lock c st) ≡ false
      → ChangeFine c × (failing st ≡ false)
  unfolding change_step
  change-only c st r h =
      let id = new_doc_id c.ns c.id c.version in
      elim (Option-cases (stored_set m now member occupant lock c.ns c.id c.version)) [
        | inl e ↦ ground (arith, failing-fail_change id st)
        | inr (g, e) ↦
            let (d, at, v, same) = stored_set-inv c.ns c.id c.version g e in
            elim (report_claimed-cases g st r) [
              | inl (free, q) ↦
                  (rw at (v, ground arith), ground (arith, failing-write now g c.by st))
              | inr (st', q, bad) ↦ ground (arith, failing-fail_claim id st')
            ]
      ]

  delete-only :
      (c : DocId) (st : Evaluation)
      → NoneReported st
      → failing (delete_step m now member occupant lock c st) ≡ false
      → DeleteFine c × (failing st ≡ false)
  unfolding delete_step
  delete-only c st r h =
      elim (Option-cases (stored_set m now member occupant lock c.ns c.id c.version)) [
        | inl e ↦ ground (arith, failing-fail_delete c st)
        | inr (g, e) ↦
            let (d, at, v, same) = stored_set-inv c.ns c.id c.version g e in
            elim (report_claimed-cases g st r) [
              | inl (free, q) ↦ (
                rw at (v, ground arith),
                ground (
                  arith,
                  failing-count_docs g (negsuc 0) (write now g (pos 0) st),
                  failing-write now g (pos 0) st,
                ),
              )
              | inr (st', q, bad) ↦ ground (arith, failing-fail_claim c st')
            ]
      ]

  on_set-quiet :
      (f : SetName → Evaluation → Evaluation)
      → ((g : SetName) (st : Evaluation)
          → (failing (f g st) ≡ failing st) × ((f g st).reported ≡ st.reported))
      → (d : Option Doc) (st : Evaluation)
      → (failing (on_set f d st) ≡ failing st) × ((on_set f d st).reported ≡ st.reported)
  on_set-quiet f q none st = (refl, refl)
  on_set-quiet f q (some d) st = q (d.ns, d.key) st

  pub change-StepLaws : StepLaws ChangeFine change_effect (change_step m now member occupant lock)
  unfolding write
  change-StepLaws = record {
    fine = change-fine;
    only = change-only;
    quiet = λ c st.
        on_set-quiet (λ g s. write now g c.by s) (λ g s. (refl, refl)) (member c.ns c.id) st;
  }

  pub delete-StepLaws : StepLaws DeleteFine delete_effect (delete_step m now member occupant lock)
  unfolding write count_docs
  delete-StepLaws = record {
    fine = delete-fine;
    only = delete-only;
    quiet = λ c st.
        on_set-quiet (λ g s. count_docs g (negsuc 0) (write now g (pos 0) s)) (λ g s. (refl, refl))
          (member c.ns c.id) st;
  }

  -- A set reference names a stored set at its version, another one a stored doc.
  abbrev pub DependFine : DocId → Type 0
  DependFine d =
      if is_set_ref d
      then ((lock (d.ns, d.key)).stored ≡ true) × ((lock (d.ns, d.key)).version ≡ d.version)
      else StoredFine d.version (member d.ns d.id)

  depend-cases :
      (d : DocId) (st : Evaluation)
      → (DependFine d × (depend_step m now member occupant lock d st ≡ st))
        ⊎ (failing (depend_step m now member occupant lock d st) ≡ true)
  unfolding depend_step
  depend-cases d st = elim (Bool-cases (is_set_ref d)) [
    | inl s ↦
        elim (Bool-cases
          (not (lock (d.ns, d.key)).stored || not ((lock (d.ns, d.key)).version == d.version))) [
            | inl bad ↦ inr (ground (arith, failing-fail_depend d st))
            | inr good ↦ inl (rw s (ground arith, ground arith), ground arith)
          ]
    | inr s ↦ elim (Option-cases (stored_set m now member occupant lock d.ns d.id d.version)) [
      | inl e ↦ inr (ground (arith, failing-fail_depend d st))
      | inr (g, e) ↦
          let (stored, at, v, same) = stored_set-inv d.ns d.id d.version g e in
          inl (rw s (rw at v), ground arith)
    ]
  ]

  -- The set is stored at the version named, and not held.
  abbrev pub ArriveFine : DocArrival → Type 0
  ArriveFine a =
      ((lock (a.ns, a.key)).stored ≡ true)
      × ((lock (a.ns, a.key)).version ≡ a.version)
      × Free m now (lock (a.ns, a.key))

  abbrev pub arrive_effect : DocArrival → Evaluation → Evaluation
  arrive_effect a st = write now (a.ns, a.key) a.by st

  arrive-only :
      (a : DocArrival) (st : Evaluation)
      → NoneReported st
      → failing (arrive_step m now member occupant lock a st) ≡ false
      → ArriveFine a × (failing st ≡ false)
  unfolding arrive_step
  arrive-only a st r h =
      let g : SetName = (a.ns, a.key) in
      let f₁ = failing-fail_arrive (set_ref g (lock g)) st in
      elim (report_claimed-cases g st r) [
        | inl (free, q) ↦ (
          (ground (arith, f₁), ground (arith, f₁), free),
          ground (arith, f₁, failing-write now g a.by st),
        )
        | inr (st', q, bad) ↦ ground (arith, f₁)
      ]

  pub arrive-StepLaws : StepLaws ArriveFine arrive_effect (arrive_step m now member occupant lock)
  unfolding write arrive_step report_claimed
  arrive-StepLaws = record {
    fine = λ a st f. ground (arith, f.0, f.1, f.2);
    only = arrive-only;
    quiet = λ a st. (refl, refl);
  }

  depend-fine :
      (d : DocId) (st : Evaluation)
      → DependFine d
      → depend_step m now member occupant lock d st ≡ st
  unfolding depend_step
  depend-fine d st f = elim (Bool-cases (is_set_ref d)) [
    | inl s ↦ let g = rw s at f in ground (arith, g.0, g.1)
    | inr s ↦ elim (Option-cases (member d.ns d.id)) [
      | inl e ↦ absurd (rw (s, e) at f)
      | inr (x, e) ↦
          let g = rw (s, e) at f in ground (arith, stored_set-some d.ns d.id d.version x e, g)
    ]
  ]

  pub depend-StepLaws : StepLaws DependFine (λ d st. st) (depend_step m now member occupant lock)
  depend-StepLaws = record {
    fine = depend-fine;
    only = λ d st r h. elim (depend-cases d st) [ inl (f, e) ↦ (f, rw (← e) h) | inr bad ↦ cc ];
    quiet = λ d st. (refl, refl);
  }
