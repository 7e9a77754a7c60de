-- ===== src/Worker/Renewal.antt =====
-- The renewal of what a worker holds, of pkg/worker/worker.go: how a hold follows an answer, when
-- the next renewal comes, and doWhileRenewing's background loop as a step relation. Waits are
-- numbers of nanoseconds; a granted lease is below a third of the largest int64.
pub mod Answers
pub mod Waits
pub mod Runs
use entroq.Base.{
  ℤ, pos_part, neg_part, sub_ℕ, ◌+ℤ◌, ◌≤ℤ◌, ltb_ℤ, +ℤ_parts, eq_of_parts, int_laws, +ℤ_assoc,
  +ℤ-zero, zero-+ℤ, pos, negsuc, Time, Duration, add, after, before, is_zero, is_positive,
  is_zero_duration, int32_mod, inc32, IsInt32, is_positive32, inc32_moves, inc32-IsInt32, le32,
  Dict, lookup, insert, erase, contains, lookup-insert, lookup-erase, contains-insert, contains-nil,
  get_or, get_or-insert, map_values, lookup-map_values, AreNew, AreNew-cons, AreNew-nil, ltb, leb,
  if◌then◌else◌, ltb→lt, lt→ltb, le→not-ltb, Bool-cases, Option-cases, is_some, length, All,
  is_empty, any, keep, length-append, All-append, is_empty-keep, Distinct, everywhere, append-nil,
  append_assoc, is_empty_iff, All-iff, All-implied, text_discrete, Eq, string_eq, nat_eq, ◌==◌,
  pair_discrete, runs, ℕ, zero, suc, ◌+◌, ◌-◌, ◌*◌, ◌/◌, ◌%◌, ◌^◌, ◌≤◌, ◌<◌, String, ◌<>◌, len, ◌≡◌,
  refl, sym, ap, ◌∙◌, ◌≢◌, ◌↔◌, ◌⊎◌, inl, inr, Bool, true, false, not, ◌&&◌, ◌||◌, Option, none,
  some, List, [], ◌∷◌, ◌++◌, map, arith,
}
use entroq.Task.{
  TaskId, new_task_id, TaskData, Task, new_task, id_version, data_of, TaskArrival, arrival_change,
}
use entroq.Doc.{
  DocId, new_doc_id, new_doc_set_ref, is_set_ref, DocData, Doc, DocArrival, DocSet, DocSetClaim,
  DocClaim,
}
use entroq.Errors.{
  Message, DependencyError, no_failures, Invalid, Failure, Result, ◌>>=◌, ◌>>◌, refuse_if, for_each,
  no_message, queue_mismatch, set_held, missing_task, lapsed_task, lost_claim, nothing_to_do,
  insert_without_queue, change_without_queue, arrival_without_queue, doc_insert_without_namespace,
  arrival_of_doc, arrival_without_namespace, arrives_twice, task_twice, doc_twice, two_references,
  set_delete, place_taken_twice, too_long, no_queues, no_claimant, no_duration, duration_too_long,
  no_sets, no_namespace, no_key, duplicate_set, two_leases, no_lease, negative_duration,
  lease_and_task, task_without_place, hold_in_past, invalid, dependency, missing_id, err, ok,
}
use entroq.Modification.{
  Modification, empty_modification, ModifyArg, new_modification, modify_as, reset_claims_of,
  resets_claims, with_modification, names_nothing, SetName, set_name_eq, check_doc_arrives,
  ensure_modify_keys, doc_key, Versions, add_dep, minus_one, add_deps, add_named_deps,
  mod_dependencies, all_dependencies,
}
use entroq.Validate.{
  max_claim_duration, arrival_past_window, max_id_bytes, max_claimant_bytes, max_namespace_bytes,
  max_doc_key_bytes, exceeds, is_negative, ClaimQuery, validate_claim, check_claim_sets,
  matches_no_place, validate_doc_claim, check, check_claimant, check_claim, check_doc_claim,
  check_doc, check_one, doc_refs, Place, place_eq, place_of, check_places, doc_places,
  writes_something, lengths, check_modification, normalize_arrival, renewal_duration_for,
}
use entroq.Mem.Prepare.{
  is_misnamed, ensure_mod_queues, misplaced_inserts, queue_names, namespace_names, holder, or_now,
  ModifyResponse, empty_response, changed_task, inserted_task, with_lock, changed_doc, inserted_doc,
  task_part, all_failures,
}
use entroq.Worker.{
  RetryError, retry_errorf, retry_after, or_move_to, retry_then_stop, MoveError, move_errorf,
  move_to_queue, move_then_stop, WorkError, as_retry, as_move, as_fatal, is_sentinel_error, Outcome,
  sentinel_outcome, RunOpt, quarter, jitter_spread, jitter_later, contention_delay,
  default_err_qmap, error_queue_for, Held, docs_in, set_key, retry_error, move_error, fatal_error,
  lost_dependency, canceled, timed_out, shut_down, unsupported, other_error, done, retried, moved,
  failed, lost, released,
}

-- grantedLease; subtraction stops at 0, as `max(0, …)` does.
unfoldable pub granted_lease : Task → ℕ
granted_lease t = t.at - t.modified

-- renewInterval
unfoldable pub renew_interval : Task → ℕ
renew_interval t = renewal_duration_for (granted_lease t)

-- renewalMargin
unfoldable pub renewal_margin : Task → ℕ
renewal_margin t = granted_lease t - renew_interval t

abbrev pub min_ℕ : ℕ → ℕ → ℕ
min_ℕ a b = if ltb b a then b else a

-- nextRenewalRetry
unfoldable pub next_renewal_retry : ℕ → ℕ → ℕ → ℕ
next_renewal_retry last margin interval =
    if margin == 0 then interval else min_ℕ (if ltb 0 last then last * 2 else margin / 8) interval

-- relocked, and the loop over the docs
unfoldable pub relocked_doc : DocSet → Doc → Doc
relocked_doc l d = record d { version = l.version; claimant = l.claimant; at = l.at }

unfoldable pub relocked : DocSet → DocSet → DocSet
relocked g l = record g {
  version = l.version;
  claimant = l.claimant;
  at = l.at;
  num_docs = l.num_docs;
  docs = map (relocked_doc l) g.docs;
}

-- held.lostClaimErrorf
unfoldable pub lost_claim_errorf : Held → Failure
lost_claim_errorf h =
    dependency (record no_failures { depends = id_version h.task ∷ []; message = lost_claim })

-- The map `locks` of held.renewed
unfoldable pub locks_of : List DocSet → Dict SetName DocSet → Dict SetName DocSet
locks_of [] seen = seen
locks_of (l ∷ rest) seen = locks_of rest (insert (set_key l) l seen)

-- The loop over the sets of held.renewed
unfoldable pub renewed_sets : Held → Dict SetName DocSet → List DocSet → Result (List DocSet)
renewed_sets h locks [] = ok []
renewed_sets h locks (g ∷ sets) = elim (lookup (set_key g) locks) [
  | none ↦ err (lost_claim_errorf h)
  | some l ↦ do rest ← renewed_sets h locks sets; ok (relocked g l ∷ rest)
]

-- held.renewed
unfoldable pub renewed : Held → ModifyResponse → Result Held
renewed h resp = elim resp.changed_tasks [
  | [] ↦ err (lost_claim_errorf h)
  | t ∷ [] ↦
      if t.id == h.task.id
      then (do
        sets ← renewed_sets h (locks_of resp.changed_sets []) h.sets
        ok (record { task = t; sets = sets }))
      else err (lost_claim_errorf h)
  | _ ↦ err (lost_claim_errorf h)
]

-- The variables of the renewal goroutine of doWhileRenewing. `out` is whether `out` is a channel,
-- `hears_stop` and `hears_done` are whether `stopRenew` and `doneCh` are not nil yet.
pub record Renewing : Type 0 where
  pub cur : Held
  pub next : ℕ
  pub retry_delay : ℕ
  pub stop_err : Option WorkError
  pub out : Bool
  pub hears_stop : Bool
  pub hears_done : Bool

-- What the goroutine starts with; `since_claim` is how long the claim has been running.
unfoldable pub start_renewing : ℕ → ℕ → Held → Renewing
start_renewing interval since_claim h = record {
  cur = h;
  next = interval - since_claim;
  retry_delay = 0;
  stop_err = none;
  out = false;
  hears_stop = true;
  hears_done = true;
}

-- What UpdateArrival returns
pub data Answer : Type 0 where
  answered : ModifyResponse → Answer
  refused : WorkError → Answer

-- `stop`
unfoldable pub stop_renewing : WorkError → Renewing → Renewing
stop_renewing e r = record r { stop_err = some e; out = true }

-- The error of a response that does not name the hold
unfoldable pub as_work_error : Failure → WorkError
as_work_error (invalid why) = other_error "invalid argument"
as_work_error (dependency e) = lost_dependency e
as_work_error missing_id = other_error "missing ID"

-- The cases of an error of UpdateArrival; `draw` is what the jitter draws.
unfoldable pub after_refusal : ℕ → ℕ → ℕ → WorkError → Renewing → Renewing
after_refusal interval margin draw canceled r = record r { out = true }
after_refusal interval margin draw (lost_dependency e) r = stop_renewing (lost_dependency e) r
after_refusal interval margin draw unsupported r = stop_renewing unsupported r
after_refusal interval margin draw _ r =
    let delay = next_renewal_retry r.retry_delay margin interval in
    record r { retry_delay = delay; next = delay + draw % (delay / 4 + 1) }

-- The case of the tick
unfoldable pub on_tick : ℕ → ℕ → ℕ → Answer → Renewing → Renewing
on_tick interval margin draw answer r =
    if is_some r.stop_err then record r { next = interval } else elim answer [
      | refused e ↦ after_refusal interval margin draw e (record r { next = interval })
      | answered resp ↦ elim (renewed r.cur resp) [
        | err why ↦ stop_renewing (as_work_error why) (record r { next = interval })
        | ok h ↦ record r { next = interval; cur = h; retry_delay = 0 }
      ]
    ]

-- A case that the `select` takes.
pub data Event : Type 0 where
  stop_renew context_done : Event
  tick : ℕ → Answer → Event

-- One turn of the loop that does not end it: each channel is read while it is not nil, and there
-- are ticks only where the interval is above 0.
pub data Turns (interval margin : ℕ) : Renewing → Event → Renewing → Type 0 where
  stops :
      (r : Renewing)
      → r.hears_stop ≡ true
      → Turns interval margin r stop_renew (record r { out = true; hears_stop = false })
  ends :
      (r : Renewing)
      → r.hears_done ≡ true
      → Turns interval margin r context_done (record r { out = true; hears_done = false })
  ticks :
      (r : Renewing) (draw : ℕ) (answer : Answer)
      → 0 < interval
      → Turns interval margin r (tick draw answer) (on_tick interval margin draw answer r)

-- Some turns, in order.
pub data Run (interval margin : ℕ) : Renewing → List Event → Renewing → Type 0 where
  stay : (r : Renewing) → Run interval margin r [] r
  go_on :
      (r s t : Renewing) (e : Event) (es : List Event)
      → Turns interval margin r e s
      → Run interval margin s es t
      → Run interval margin r (e ∷ es) t

-- The send on `out`, which ends the loop with what is held and why renewal stopped.
unfoldable pub hand_over : Renewing → Option (Held × Option WorkError)
hand_over r = if r.out then some (r.cur, r.stop_err) else none
