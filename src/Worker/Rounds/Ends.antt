-- ===== src/Worker/Rounds/Ends.antt =====
-- Ends of a round: what runOne of pkg/worker/worker.go counts, writes and returns.
use entroq.Base.{
  is_positive32, le32, if◌then◌else◌, Bool-cases, Option-cases, is_some, string_eq, nat_eq, String,
  ◌≡◌, refl, ◌⊎◌, inl, inr, Bool, true, false, not, ◌&&◌, Option, none, some, List, [], arith,
}
use entroq.Task.{Task}
use entroq.Doc.{DocSet, DocSetClaim}
use entroq.Modification.{set_name_eq}
use entroq.Worker.{
  WorkError, is_sentinel_error, error_queue_for, Held, retry_error, move_error, fatal_error,
  lost_dependency, canceled, timed_out, shut_down, unsupported, other_error, done, moved, failed,
  lost, released,
}
use entroq.Worker.Sentinels.{as_dependency, handle_sentinel_errors}
use entroq.Worker.Rounds.Plain.{
  is_plain, plain_counts, plain_failures, plain_unfinished, plain_unlost, plain_retried,
  plain_or_moved, dispose-IsPlain, phase_failed-IsPlain, work_failed-IsPlain, move_unworked-IsPlain,
}
use entroq.Worker.Rounds.{
  Got, Surroundings, Round, after_finish, finish_phase, renewal_stopped, work_ladder, after_cue,
  after_acquire, after_take, after_handler, after_claim, after_start, run_one, failed_with, got,
  too_many_claims, undecodable_value,
}

module _ {W : Type 0} (s : Surroundings W) where
  -- What the outcome of a round is true to. A round that goes on has counted its task, as failed
  -- only where Finish returned a sentinel. A task counted as done or released is one whose Finish
  -- returned no error or the stop that it asked for, and nothing is done after it. A task counted as
  -- lost is left as renewal left it, and the run goes on.
  pub record IsAccounted (r : Round s) : Type 0 where
    pub counted : r.0.0 ≡ none → is_some r.0.1 ≡ true
    pub failed_on :
        r.0.0 ≡ none
        → r.0.1 ≡ some failed
        → (h : Held) × (v : W) × (e : WorkError) × ((s.finish_work h v).0.0 ≡ some e)
          × (is_sentinel_error e ≡ true)
    pub finished :
        (r.0.1 ≡ some done) ⊎ (r.0.1 ≡ some released)
        → (h : Held) × (v : W) × (((s.finish_work h v).0.0 ≡ none)
            ⊎ ((s.finish_work h v).0.0 ≡ some shut_down))
          × (r.1 ≡ (s.finish_work h v).1)
    pub lost_it :
        r.0.1 ≡ some lost → (h : Held) × (v : W) × (r.1 ≡ (s.do_work h v).1) × (r.0.0 ≡ none)

  is_plain-IsAccounted : (r : Round s) → is_plain r.0.0 r.0.1 ≡ true → IsAccounted r
  is_plain-IsAccounted ((e, o), w) h = record {
    counted = plain_counts e o h;
    failed_on = λ k f. absurd (plain_failures e o h k f);
    finished = λ f. absurd (plain_unfinished e o h f);
    lost_it = λ f. absurd (plain_unlost e o h f);
  }

  -- A round that Finish ends without an error but the stop
  finished-IsAccounted :
      (h : Held) (v : W) (x : Option WorkError) (b : Bool)
      → (x ≡ none) ⊎ (x ≡ some shut_down)
      → ((s.finish_work h v).0.0 ≡ none) ⊎ ((s.finish_work h v).0.0 ≡ some shut_down)
      → IsAccounted ((x, some (if b then released else done)), (s.finish_work h v).1)
  finished-IsAccounted h v x b k f = record {
    counted = λ _. refl;
    failed_on = λ _ e. absurd (not_failed b e);
    finished = λ _. (h, v, f, refl);
    lost_it = λ e. absurd (not_lost b e);
  }
    where
      not_failed : (b : Bool) → ¬ (some (if b then released else done) ≡ some failed)
      not_failed true e = ground (arith, e)
      not_failed false e = ground (arith, e)

      not_lost : (b : Bool) → ¬ (some (if b then released else done) ≡ some lost)
      not_lost true e = ground (arith, e)
      not_lost false e = ground (arith, e)

  -- A round that a sentinel of Finish ends
  sentinel-IsAccounted :
      (h : Held) (v : W) (e : WorkError) (r : Option WorkError) (w : W)
      → (s.finish_work h v).0.0 ≡ some e
      → is_sentinel_error e ≡ true
      → IsAccounted ((r, some failed), w)
  sentinel-IsAccounted h v e r w f k = record {
    counted = λ _. refl;
    failed_on = λ _ _. (h, v, e, f, k);
    finished = λ o. absurd (ground (arith, o));
    lost_it = λ o. absurd (ground (arith, o));
  }

  either_way :
      (h : Held) (v : W) (e : WorkError)
      → (s.finish_work h v).0.0 ≡ some e
      → is_sentinel_error e ≡ true
      → (x : (Bool × Option WorkError) × W)
      → IsAccounted (if x.0.0 then ((x.0.1, some failed), x.1) else ((some e, some failed), x.1))
  either_way h v e f k ((true, r), w) = sentinel-IsAccounted h v e r w f k
  either_way h v e f k ((false, r), w) = sentinel-IsAccounted h v e (some e) w f k

  after_finish-IsAccounted :
      (task : Task) (final : Held) (v : W) (e : Option WorkError) (b : Bool)
      → (s.finish_work final v).0.0 ≡ e
      → IsAccounted (after_finish s task final e b (s.finish_work final v).1)
  unfolding after_finish handle_sentinel_errors is_sentinel_error
  after_finish-IsAccounted task final v none b f =
      finished-IsAccounted final v none b (inl refl) (inl f)
  after_finish-IsAccounted task final v (some shut_down) b f =
      finished-IsAccounted final v (some shut_down) b (inr refl) (inr f)
  after_finish-IsAccounted task final v (some (retry_error re)) b f =
      either_way final v (retry_error re) f refl (
        handle_sentinel_errors s.client (retry_error re) final.task final.sets
          (error_queue_for s.err_qmap task.queue) s.opts (s.finish_work final v).1)
  after_finish-IsAccounted task final v (some (move_error me)) b f =
      either_way final v (move_error me) f refl (
        handle_sentinel_errors s.client (move_error me) final.task final.sets
          (error_queue_for s.err_qmap task.queue) s.opts (s.finish_work final v).1)
  after_finish-IsAccounted task final v (some (fatal_error fe)) b f =
      is_plain-IsAccounted _ (plain_or_moved _ false)
  after_finish-IsAccounted task final v (some (lost_dependency e)) b f =
      is_plain-IsAccounted _ (plain_retried _)
  after_finish-IsAccounted task final v (some canceled) b f =
      is_plain-IsAccounted _ (plain_or_moved _ false)
  after_finish-IsAccounted task final v (some timed_out) b f =
      is_plain-IsAccounted _ (plain_or_moved _ false)
  after_finish-IsAccounted task final v (some unsupported) b f =
      is_plain-IsAccounted _ (plain_or_moved _ false)
  after_finish-IsAccounted task final v (some (other_error e)) b f =
      is_plain-IsAccounted _ (plain_or_moved _ false)

  lost_or_not :
      (h : Held) (v : W) (why : WorkError) (b : Bool)
      → IsAccounted (
          if b
          then ((none, some lost), (s.do_work h v).1)
          else ((some why, some failed), (s.do_work h v).1))
  lost_or_not h v why true = record {
    counted = λ _. refl;
    failed_on = λ _ e. absurd (ground (arith, e));
    finished = λ e. absurd (ground (arith, e));
    lost_it = λ _. (h, v, refl, refl);
  }
  lost_or_not h v why false = is_plain-IsAccounted _ (plain_or_moved why false)

  renewal_stopped-IsAccounted :
      (why : WorkError) (sentinel : Option WorkError) (h : Held) (v : W)
      → IsAccounted (renewal_stopped s why sentinel (s.do_work h v).1)
  unfolding renewal_stopped
  renewal_stopped-IsAccounted why (some (fatal_error fe)) h v =
      is_plain-IsAccounted _ (plain_or_moved _ false)
  renewal_stopped-IsAccounted why none h v = lost_or_not h v why (is_some (as_dependency why))
  renewal_stopped-IsAccounted why (some e) h v = lost_or_not h v why (is_some (as_dependency why))

  -- The sentinels of DoWork are sentinels: doWhileRenewing's work sets them so.
  work_ladder-IsAccounted :
      (task : Task) (h : Held) (v : W)
      → ((e : WorkError) → (s.do_work h v).0.sentinel_err ≡ some e → is_sentinel_error e ≡ true)
      → IsAccounted (work_ladder s task (s.do_work h v).0 (s.do_work h v).1)
  unfolding work_ladder finish_phase
  work_ladder-IsAccounted task h v sentinels = elim (Option-cases (s.do_work h v).0.renew_err) [
    | inr (why, e) ↦
        rw (e, work_ladder) (renewal_stopped-IsAccounted why (s.do_work h v).0.sentinel_err h v)
    | inl e ↦ elim (Option-cases (s.do_work h v).0.sentinel_err) [
      | inr (k, f) ↦
          rw (e, f, work_ladder)
            (is_plain-IsAccounted _ (dispose-IsPlain s k _ _ _ _ (sentinels k f)))
      | inl f ↦ elim (Option-cases (s.do_work h v).0.handle_err) [
        | inr (k, g) ↦
            rw (e, f, g, work_ladder) (is_plain-IsAccounted _ (work_failed-IsPlain s k task _ _))
        | inl g ↦ rw (e, f, g, work_ladder) (after_finish-IsAccounted task _ _ _ _ refl)
      ]
    ]
  ]

  -- `sentinelErr` of runOne is only ever a sentinel.
  abbrev pub SetsSentinels : Type 0
  SetsSentinels =
      (h : Held) (v : W) (e : WorkError)
      → (s.do_work h v).0.sentinel_err ≡ some e
      → is_sentinel_error e ≡ true

  module _ (sentinels : SetsSentinels) where
    after_cue-IsAccounted :
        (task : Task) (sets : List DocSet) (e : Option WorkError) (w : W)
        → IsAccounted (after_cue s task sets e w)
    unfolding after_cue
    after_cue-IsAccounted task sets (some e) w =
        is_plain-IsAccounted _ (phase_failed-IsPlain s e task sets w)
    after_cue-IsAccounted task sets none w =
        let h : Held = record { task = task; sets = sets } in
        work_ladder-IsAccounted task h w (sentinels h w)

    after_acquire-IsAccounted :
        (task : Task) (x : Got (List DocSet)) (w : W) → IsAccounted (after_acquire s task x w)
    unfolding after_acquire
    after_acquire-IsAccounted task (got sets) w = after_cue-IsAccounted task sets _ _
    after_acquire-IsAccounted task (failed_with (lost_dependency e)) w =
        is_plain-IsAccounted _ (plain_retried _)
    after_acquire-IsAccounted task (failed_with e) w =
        is_plain-IsAccounted _ (plain_or_moved e false)

    after_take-IsAccounted :
        (task : Task) (x : Got (List DocSetClaim)) (w : W) → IsAccounted (after_take s task x w)
    unfolding after_take
    after_take-IsAccounted task (failed_with e) w =
        is_plain-IsAccounted _ (phase_failed-IsPlain s e task [] w)
    after_take-IsAccounted task (got cs) w = after_acquire-IsAccounted task _ _

    after_handler-IsAccounted :
        (task : Task) (x : Option String) (w : W) → IsAccounted (after_handler s task x w)
    unfolding after_handler
    after_handler-IsAccounted task (some why) w = is_plain-IsAccounted _ (plain_or_moved _ false)
    after_handler-IsAccounted task none w = elim (Bool-cases (not (s.decodes task))) [
      | inl h ↦
          rw (h, after_handler)
            (is_plain-IsAccounted _
              (move_unworked-IsPlain s undecodable_value moved task w (inr refl)))
      | inr h ↦ rw (h, after_handler) (after_take-IsAccounted task _ _)
    ]

    after_claim-IsAccounted : (x : Got Task) (w : W) → IsAccounted (after_claim s x w)
    unfolding after_claim is_plain
    after_claim-IsAccounted (failed_with e) w = is_plain-IsAccounted _ refl
    after_claim-IsAccounted (got task) w =
        elim (Bool-cases
          (is_positive32 s.opts.max_claims && not (le32 task.claims s.opts.max_claims))) [
            | inl h ↦
                rw (h, after_claim)
                  (is_plain-IsAccounted _
                    (move_unworked-IsPlain s too_many_claims failed task w (inl refl)))
            | inr h ↦ rw (h, after_claim) (after_handler-IsAccounted task _ _)
          ]

    after_start-IsAccounted : (x : Option WorkError) (w : W) → IsAccounted (after_start s x w)
    unfolding after_start is_plain
    after_start-IsAccounted (some e) w = is_plain-IsAccounted _ refl
    after_start-IsAccounted none w = after_claim-IsAccounted _ _

    -- Every round accounts for its task. A round that returns no error has counted one, and as
    -- failed only where Finish returned a sentinel; one counted as done or released is one whose
    -- Finish returned no error or the stop that it asked for, with nothing done after it; and one
    -- counted as lost ends without an error and leaves all as renewal left it. The sentinels that
    -- the work under renewal reports must be sentinels.
    pub run_one-IsAccounted : (w : W) → IsAccounted (run_one s w)
    unfolding run_one
    run_one-IsAccounted w = after_start-IsAccounted _ _
