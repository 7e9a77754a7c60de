-- ===== src/Worker/Rounds.antt =====
-- One round of a worker's run, runOne and acquireDocs of pkg/worker/worker.go, and the loop of Run.
-- What a round calls besides the client's Modify is a record of functions over the client's state:
-- claims, the handler's phases, and doWhileRenewing with DoWork. A handler returns the errors that
-- it makes; a wrapped error keeps its class.
pub mod Plain
pub mod Ends
use entroq.Base.{
  ℤ, pos_part, neg_part, sub_ℕ, ◌+ℤ◌, ◌≤ℤ◌, ltb_ℤ, +ℤ_parts, eq_of_parts, int_laws, +ℤ_assoc,
  +ℤ-zero, zero-+ℤ, pos, negsuc, Time, Duration, add, after, before, is_zero, is_positive,
  is_zero_duration, int32_mod, inc32, IsInt32, is_positive32, inc32_moves, inc32-IsInt32, le32,
  Dict, lookup, insert, erase, contains, lookup-insert, lookup-erase, contains-insert, contains-nil,
  get_or, get_or-insert, map_values, lookup-map_values, AreNew, AreNew-cons, AreNew-nil, ltb, leb,
  if◌then◌else◌, ltb→lt, lt→ltb, le→not-ltb, Bool-cases, Option-cases, is_some, length, All,
  is_empty, any, keep, length-append, All-append, is_empty-keep, Distinct, everywhere, append-nil,
  append_assoc, is_empty_iff, All-iff, All-implied, All-both, keep-All, text_discrete, Eq,
  string_eq, nat_eq, ◌==◌, pair_discrete, runs, ℕ, zero, suc, ◌+◌, ◌-◌, ◌*◌, ◌/◌, ◌%◌, ◌^◌, ◌≤◌,
  ◌<◌, String, ◌<>◌, len, ◌≡◌, refl, sym, ap, ◌∙◌, ◌≢◌, ◌↔◌, ◌⊎◌, inl, inr, Bool, true, false, not,
  ◌&&◌, ◌||◌, Option, none, some, List, [], ◌∷◌, ◌++◌, map, arith,
}
use entroq.Task.{
  TaskId, new_task_id, TaskData, Task, new_task, id_version, data_of, TaskArrival, arrival_change,
}
use entroq.Doc.{
  DocId, new_doc_id, new_doc_set_ref, is_set_ref, DocData, Doc, DocArrival, DocSet, DocSetClaim,
  DocClaim,
}
use entroq.Errors.{
  Message, DependencyError, no_failures, Invalid, Failure, Result, ◌>>=◌, ◌>>◌, refuse_if, for_each,
  no_message, queue_mismatch, set_held, missing_task, lapsed_task, lost_claim, nothing_to_do,
  insert_without_queue, change_without_queue, arrival_without_queue, doc_insert_without_namespace,
  arrival_of_doc, arrival_without_namespace, arrives_twice, task_twice, doc_twice, two_references,
  set_delete, place_taken_twice, too_long, no_queues, no_claimant, no_duration, duration_too_long,
  no_sets, no_namespace, no_key, duplicate_set, two_leases, no_lease, negative_duration,
  lease_and_task, task_without_place, hold_in_past, invalid, dependency, missing_id, err, ok,
}
use entroq.Modification.{
  Modification, empty_modification, ModifyArg, new_modification, modify_as, reset_claims_of,
  resets_claims, with_modification, names_nothing, SetName, set_name_eq, check_doc_arrives,
  ensure_modify_keys, doc_key, Versions, add_dep, minus_one, add_deps, add_named_deps,
  mod_dependencies, all_dependencies,
}
use entroq.Dependency.{
  otherwise_claimed, bad_inserts, Standing, task_standing, doc_standing, missing_claimed,
  bad_changes, bad_deletes, is_missing, missing_depends, bad_doc_inserts, bad_doc_changes,
  bad_doc_deletes, missing_doc_depends, has_missing, has_missing_docs, has_claimed_docs, has_claims,
  has_collisions, has_any, only_collisions, only_claims, implicates, found_failures,
  dependency_error, dedup_task_ids, DocName, doc_name_eq, doc_name, dedup_doc_ids, or_no_failures,
  merged_message, merged, merge, name_arrivals, absent, held, fine,
}
use entroq.Worker.{
  RetryError, retry_errorf, retry_after, or_move_to, retry_then_stop, MoveError, move_errorf,
  move_to_queue, move_then_stop, WorkError, as_retry, as_move, as_fatal, is_sentinel_error, Outcome,
  sentinel_outcome, RunOpt, quarter, jitter_spread, jitter_later, contention_delay,
  default_err_qmap, error_queue_for, Held, docs_in, set_key, retry_error, move_error, fatal_error,
  lost_dependency, canceled, timed_out, shut_down, unsupported, other_error, done, retried, moved,
  failed, lost, released,
}
use entroq.Worker.Sentinels.{
  Client, as_dependency, stop_after, after_modify, retry_modification, move_modification,
  commit_disposition, handle_sentinel_errors, quarantine_at_limit,
}

-- A value and no error, or an error
pub data Got (A : Type 0) : Type 0 where
  failed_with : WorkError → Got A
  got : A → Got A

-- What the texts of a round's own sentinels tell
pub data Occasion : Type 0 where
  too_many_claims undecodable_value : Occasion
  contention lapsed_lease : DependencyError → Occasion
  slow_work failed_at_limit : WorkError → Occasion

-- What doWhileRenewing and the work under it leave: its two errors, the handler's sentinel or its
-- other error, the hold that renewal left, and whether the work's deadline had passed.
pub record Worked : Type 0 where
  pub renew_err : Option WorkError
  pub handle_err : Option WorkError
  pub sentinel_err : Option WorkError
  pub work_err : Option WorkError
  pub final : Held
  pub past_deadline : Bool

pub record Surroundings (W : Type 0) : Type 0 where
  pub client : Client W
  pub start_claim : W → Option WorkError × W
  pub claim_task : W → Got Task × W
  pub make_handler : W → Option String × W
  pub decodes : Task → Bool
  pub take_docs : Task → W → Got (List DocSetClaim) × W
  pub claim_docs : List DocSetClaim → Task → W → Got (List DocSet) × W
  pub cue_work : Held → W → Option WorkError × W
  pub do_work : Held → W → Worked × W
  pub finish_work : Held → W → (Option WorkError × Bool) × W
  pub before_text : String → String → Bool
  pub tell : Occasion → String
  pub draw : ℕ
  pub err_qmap : Option (String → String)
  pub opts : RunOpt

-- The order of `sort.Slice` in acquireDocs: by namespace, then by key
abbrev pub claims_before : (String → String → Bool) → DocSetClaim → DocSetClaim → Bool
claims_before before_text a b =
    if not (a.ns == b.ns) then before_text a.ns b.ns else before_text a.key b.key

unfoldable pub insert_sorted :
    (DocSetClaim → DocSetClaim → Bool) → DocSetClaim → List DocSetClaim → List DocSetClaim
insert_sorted less x [] = x ∷ []
insert_sorted less x (y ∷ ys) =
    let rest = insert_sorted less x ys in if less y x then y ∷ rest else x ∷ y ∷ ys

unfoldable pub sort_claims :
    (DocSetClaim → DocSetClaim → Bool) → List DocSetClaim → List DocSetClaim
sort_claims less [] = []
sort_claims less (x ∷ xs) = insert_sorted less x (sort_claims less xs)

module _ {W : Type 0} (s : Surroundings W) where
  abbrev pub Round : Type 0
  Round = (Option WorkError × Option Outcome) × W

  -- acquireDocs
  unfoldable pub acquire_docs : Task → List DocSetClaim → W → Got (List DocSet) × W
  acquire_docs task [] w = (got [], w)
  acquire_docs task (c ∷ cs) w =
      s.claim_docs (sort_claims (claims_before s.before_text) (c ∷ cs)) task w

  -- handleSentinelErrors with the queue that runOne passes: its error
  unfoldable pub dispose : WorkError → Task → List DocSet → String → W → Option WorkError × W
  dispose e task sets inbox w =
      let (r, w') =
        handle_sentinel_errors s.client e task sets (error_queue_for s.err_qmap inbox) s.opts w in
      (r.1, w')

  -- The error path that TakeDocs and CueWork share
  unfoldable pub phase_failed : WorkError → Task → List DocSet → W → Round
  phase_failed e task sets w =
      if is_sentinel_error e
      then (let (r, w') = dispose e task sets task.queue w in ((r, some (sentinel_outcome e)), w'))
      else (let (moved_it, w') =
            quarantine_at_limit s.client task sets (s.tell (failed_at_limit e)) s.err_qmap s.opts
              w in
          ((some e, some (if moved_it then moved else failed)), w'))

  -- The end of a round after Finish, from its error and whether the commit only made the task arrive
  unfoldable pub after_finish : Task → Held → Option WorkError → Bool → W → Round
  after_finish task final none released_it w =
      ((none, some (if released_it then released else done)), w)
  after_finish task final (some shut_down) released_it w =
      ((some shut_down, some (if released_it then released else done)), w)
  after_finish task final (some f) released_it w =
      let ((is_sentinel, r), w') =
        handle_sentinel_errors s.client f final.task final.sets
          (error_queue_for s.err_qmap task.queue) s.opts w in
      if is_sentinel
      then ((r, some failed), w')
      else if is_some (as_dependency f)
      then ((none, some retried), w')
      else ((some f, some failed), w')

  unfoldable pub finish_phase : Task → Held → W → Round
  finish_phase task final w =
      let ((e, released_it), w') = s.finish_work final w in after_finish task final e released_it w'

  -- What comes of a work whose renewal stopped, by that error and the handler's sentinel
  unfoldable pub renewal_stopped : WorkError → Option WorkError → W → Round
  renewal_stopped why (some (fatal_error fe)) w = ((some (fatal_error fe), some failed), w)
  renewal_stopped why _ w =
      if is_some (as_dependency why) then ((none, some lost), w) else ((some why, some failed), w)

  -- What comes of a work that failed without a sentinel
  unfoldable pub work_failed : WorkError → Task → Worked → W → Round
  work_failed e task d w =
      if is_positive s.opts.work_timeout && d.past_deadline
      then (let (r, w') =
            dispose (retry_error (retry_errorf (s.tell (slow_work e)))) d.final.task d.final.sets
              task.queue w in
          ((r, some retried), w'))
      else elim d.work_err [
        | none ↦ ((some e, some failed), w)
        | some we ↦
            (let (moved_it, w') =
                quarantine_at_limit s.client d.final.task d.final.sets (s.tell (failed_at_limit we))
                  s.err_qmap s.opts w in
              ((some e, some (if moved_it then moved else failed)), w'))
      ]

  -- The ladder after DoWork
  unfoldable pub work_ladder : Task → Worked → W → Round
  work_ladder task d w = elim d.renew_err [
    | some why ↦ renewal_stopped why d.sentinel_err w
    | none ↦ elim d.sentinel_err [
      | some e ↦
          (let (r, w') = dispose e d.final.task d.final.sets task.queue w in
            ((r, some (sentinel_outcome e)), w'))
      | none ↦ elim d.handle_err [
        | none ↦ finish_phase task d.final w
        | some e ↦ work_failed e task d w
      ]
    ]
  ]

  -- Phases 3 to 5: CueWork, the work under renewal, and Finish
  unfoldable pub after_cue : Task → List DocSet → Option WorkError → W → Round
  after_cue task sets (some e) w = phase_failed e task sets w
  after_cue task sets none w =
      let (d, w') = s.do_work (record { task = task; sets = sets }) w in work_ladder task d w'

  -- What acquireDocs comes to
  unfoldable pub after_acquire : Task → Got (List DocSet) → W → Round
  after_acquire task (got sets) w =
      let (e, w') = s.cue_work (record { task = task; sets = sets }) w in after_cue task sets e w'
  after_acquire task (failed_with (lost_dependency e)) w =
      let why = if has_missing e then lapsed_lease e else contention e in
      let retry_it = retry_after (contention_delay s.draw s.opts) (retry_errorf (s.tell why)) in
      let (r, w') = dispose (retry_error retry_it) task [] task.queue w in ((r, some retried), w')
  after_acquire task (failed_with e) w = ((some e, some failed), w)

  -- Phase 2: TakeDocs and acquireDocs, then the rest
  unfoldable pub after_take : Task → Got (List DocSetClaim) → W → Round
  after_take task (failed_with e) w = phase_failed e task [] w
  after_take task (got cs) w = let (sets, w') = acquire_docs task cs w in after_acquire task sets w'

  -- A move of a task that is not worked on
  unfoldable pub move_unworked : Occasion → Outcome → Task → W → Round
  move_unworked why on_error task w =
      let (r, w') = dispose (move_error (move_errorf (s.tell why))) task [] task.queue w in
      ((r, some (if is_some r then on_error else moved)), w')

  -- The steps after the handler is made
  unfoldable pub after_handler : Task → Option String → W → Round
  after_handler task (some why) w = ((some (fatal_error why), some failed), w)
  after_handler task none w =
      let (wanted, w') = s.take_docs task w in
      let worked = after_take task wanted w' in
      if not (s.decodes task) then move_unworked undecodable_value moved task w else worked

  -- A round with the task that it claimed, or with the error of its claim
  unfoldable pub after_claim : Got Task → W → Round
  after_claim (failed_with e) w = ((some e, none), w)
  after_claim (got task) w =
      let (no_handler, w') = s.make_handler w in
      let handled = after_handler task no_handler w' in
      if is_positive32 s.opts.max_claims && not (le32 task.claims s.opts.max_claims)
      then move_unworked too_many_claims failed task w
      else handled

  unfoldable pub after_start : Option WorkError → W → Round
  after_start (some e) w = ((some e, none), w)
  after_start none w = let (claim, w') = s.claim_task w in after_claim claim w'

  -- runOne: its error, and the outcome that it counts for the task, if it claimed one
  unfoldable pub run_one : W → Round
  run_one w = let (closed, w') = s.start_claim w in after_start closed w'

  -- The loop of Run, on fuel for the rounds: `none` while it goes on.
  unfoldable pub run_rounds : ℕ → W → Option (Option WorkError) × W
  run_rounds zero w = (none, w)
  run_rounds (suc n) w =
      let (r, w') = run_one w in
      let later = run_rounds n w' in
      elim r.0 [
        | none ↦ later
        | some shut_down ↦ (some none, w')
        | some canceled ↦ (some none, w')
        | some timed_out ↦ (some none, w')
        | some e ↦ (some (some e), w')
      ]
