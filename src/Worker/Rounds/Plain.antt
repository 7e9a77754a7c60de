-- ===== src/Worker/Rounds/Plain.antt =====
-- Plain ends of a round of pkg/worker/worker.go: an error, or a task that was moved or retried.
use entroq.Base.{
  is_positive, if◌then◌else◌, Bool-cases, Option-cases, is_some, string_eq, nat_eq, String, ◌≡◌,
  refl, ◌≢◌, ◌⊎◌, inl, inr, Bool, true, false, ◌&&◌, Option, none, some, List, arith,
}
use entroq.Task.{Task}
use entroq.Doc.{DocSet}
use entroq.Modification.{set_name_eq}
use entroq.Worker.{
  WorkError, is_sentinel_error, Outcome, sentinel_outcome, retry_error, move_error, fatal_error,
  done, retried, moved, failed, lost, released,
}
use entroq.Worker.Sentinels.{handle_sentinel_errors}
use entroq.Worker.Rounds.{
  Occasion, Worked, Surroundings, Round, dispose, phase_failed, work_failed, move_unworked,
}

-- Ends that say nothing of Finish or of renewal: an error, or a task that was moved or retried.
unfoldable pub is_plain : Option WorkError → Option Outcome → Bool
is_plain none none = false
is_plain none (some moved) = true
is_plain none (some retried) = true
is_plain none (some _) = false
is_plain (some e) none = true
is_plain (some e) (some failed) = true
is_plain (some e) (some moved) = true
is_plain (some e) (some retried) = true
is_plain (some e) (some _) = false

pub plain_counts :
    (e : Option WorkError) (o : Option Outcome) → is_plain e o ≡ true → e ≡ none → is_some o ≡ true
unfolding is_plain
plain_counts none none h k = ground (arith, h)
plain_counts none (some o) h k = refl
plain_counts (some e) o h k = ground (arith, k)

pub plain_failures :
    (e : Option WorkError) (o : Option Outcome) → is_plain e o ≡ true → e ≡ none → o ≢ some failed
unfolding is_plain
plain_failures none none h k f = ground (arith, h)
plain_failures none (some o) h k f = ground (arith, h, f)
plain_failures (some e) o h k f = ground (arith, k)

pub plain_unfinished :
    (e : Option WorkError) (o : Option Outcome)
    → is_plain e o ≡ true
    → ¬ ((o ≡ some done) ⊎ (o ≡ some released))
unfolding is_plain
plain_unfinished none none h f = ground (arith, h)
plain_unfinished none (some o) h f = ground (arith, h, f)
plain_unfinished (some e) none h f = ground (arith, f)
plain_unfinished (some e) (some o) h f = ground (arith, h, f)

pub plain_unlost : (e : Option WorkError) (o : Option Outcome) → is_plain e o ≡ true → o ≢ some lost
unfolding is_plain
plain_unlost none none h f = ground (arith, h)
plain_unlost none (some o) h f = ground (arith, h, f)
plain_unlost (some e) none h f = ground (arith, f)
plain_unlost (some e) (some o) h f = ground (arith, h, f)

pub plain_moved : (e : Option WorkError) → is_plain e (some moved) ≡ true
unfolding is_plain
plain_moved none = refl
plain_moved (some e) = refl

pub plain_retried : (e : Option WorkError) → is_plain e (some retried) ≡ true
unfolding is_plain
plain_retried none = refl
plain_retried (some e) = refl

pub plain_or_moved :
    (e : WorkError) (b : Bool) → is_plain (some e) (some (if b then moved else failed)) ≡ true
unfolding is_plain
plain_or_moved e true = refl
plain_or_moved e false = refl

module _ {W : Type 0} (s : Surroundings W) where
  abbrev pub IsPlain : Round s → Type 0
  IsPlain r = is_plain r.0.0 r.0.1 ≡ true

  pub dispose-IsPlain :
      (e : WorkError) (task : Task) (sets : List DocSet) (inbox : String) (w : W)
      → is_sentinel_error e ≡ true
      → IsPlain (
        ((dispose s e task sets inbox w).0, some (sentinel_outcome e)),
        (dispose s e task sets inbox w).1,
      )
  unfolding is_plain dispose handle_sentinel_errors sentinel_outcome is_sentinel_error
  dispose-IsPlain (retry_error re) task sets inbox w h = plain_retried _
  dispose-IsPlain (move_error me) task sets inbox w h = plain_moved _
  dispose-IsPlain (fatal_error fe) task sets inbox w h = refl
  dispose-IsPlain e task sets inbox w h = ground (arith, h)

  pub phase_failed-IsPlain :
      (e : WorkError) (task : Task) (sets : List DocSet) (w : W)
      → IsPlain (phase_failed s e task sets w)
  unfolding phase_failed
  phase_failed-IsPlain e task sets w = elim (Bool-cases (is_sentinel_error e)) [
    | inl h ↦ rw (h, phase_failed) (dispose-IsPlain e task sets task.queue w h)
    | inr h ↦ rw (h, phase_failed) (plain_or_moved e _)
  ]

  pub work_failed-IsPlain :
      (e : WorkError) (task : Task) (d : Worked) (w : W) → IsPlain (work_failed s e task d w)
  unfolding work_failed
  work_failed-IsPlain e task d w =
      elim (Bool-cases (is_positive s.opts.work_timeout && d.past_deadline)) [
        | inl h ↦ rw (h, work_failed) (plain_retried _)
        | inr h ↦ elim (Option-cases d.work_err) [
          | inl k ↦ rw (h, k, work_failed) (plain_or_moved e false)
          | inr (we, k) ↦ rw (h, k, work_failed) (plain_or_moved e _)
        ]
      ]

  pub move_unworked-IsPlain :
      (why : Occasion) (o : Outcome) (task : Task) (w : W)
      → (o ≡ failed) ⊎ (o ≡ moved)
      → IsPlain (move_unworked s why o task w)
  unfolding move_unworked is_plain
  move_unworked-IsPlain why o task w h = ground (arith, h)
