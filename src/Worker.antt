-- ===== src/Worker.antt =====
-- pkg/worker/worker.go: the errors that direct a worker, the options of a run, and what a worker
-- holds. An error is what `errors.As` and `errors.Is` find in it, with one class each; a text that
-- `fmt` builds is kept where the code stores it.
pub mod Commit
pub mod Renewal
pub mod Sentinels
pub mod Finish
pub mod Rounds
use entroq.Base.{
  ℤ, pos_part, neg_part, sub_ℕ, ◌+ℤ◌, ◌≤ℤ◌, ltb_ℤ, +ℤ_parts, eq_of_parts, int_laws, +ℤ_assoc,
  +ℤ-zero, zero-+ℤ, pos, negsuc, Time, Duration, add, after, before, is_zero, is_positive,
  is_zero_duration, int32_mod, inc32, IsInt32, is_positive32, inc32_moves, inc32-IsInt32, le32,
  Dict, lookup, insert, erase, contains, lookup-insert, lookup-erase, contains-insert, contains-nil,
  get_or, get_or-insert, map_values, lookup-map_values, AreNew, AreNew-cons, AreNew-nil, ltb, leb,
  if◌then◌else◌, ltb→lt, lt→ltb, le→not-ltb, Bool-cases, Option-cases, is_some, length, All,
  is_empty, any, keep, length-append, All-append, is_empty-keep, Distinct, everywhere, append-nil,
  append_assoc, is_empty_iff, All-iff, text_discrete, Eq, string_eq, nat_eq, ◌==◌, pair_discrete,
  runs, ℕ, zero, suc, ◌+◌, ◌-◌, ◌*◌, ◌/◌, ◌%◌, ◌^◌, ◌≤◌, ◌<◌, String, ◌<>◌, len, ◌≡◌, refl, sym, ap,
  ◌∙◌, ◌≢◌, ◌↔◌, ◌⊎◌, inl, inr, Bool, true, false, not, ◌&&◌, ◌||◌, Option, none, some, List, [],
  ◌∷◌, ◌++◌, map, arith,
}
use entroq.Task.{
  TaskId, new_task_id, TaskData, Task, new_task, id_version, data_of, TaskArrival, arrival_change,
}
use entroq.Doc.{
  DocId, new_doc_id, new_doc_set_ref, is_set_ref, DocData, Doc, DocArrival, DocSet, DocSetClaim,
  DocClaim,
}
use entroq.Errors.{
  Message, DependencyError, no_failures, Invalid, Failure, Result, ◌>>=◌, ◌>>◌, refuse_if, for_each,
  no_message, queue_mismatch, set_held, missing_task, lapsed_task, nothing_to_do,
  insert_without_queue, change_without_queue, arrival_without_queue, doc_insert_without_namespace,
  arrival_of_doc, arrival_without_namespace, arrives_twice, task_twice, doc_twice, two_references,
  set_delete, place_taken_twice, too_long, no_queues, no_claimant, no_duration, duration_too_long,
  no_sets, no_namespace, no_key, duplicate_set, two_leases, no_lease, negative_duration,
  lease_and_task, task_without_place, hold_in_past, invalid, dependency, missing_id, err, ok,
}
use entroq.Modification.{
  Modification, empty_modification, ModifyArg, new_modification, modify_as, reset_claims_of,
  resets_claims, with_modification, names_nothing, SetName, set_name_eq, check_doc_arrives,
  ensure_modify_keys, doc_key, Versions, add_dep, minus_one, add_deps, add_named_deps,
  mod_dependencies, all_dependencies,
}
use entroq.Validate.{
  max_claim_duration, arrival_past_window, max_id_bytes, max_claimant_bytes, max_namespace_bytes,
  max_doc_key_bytes, exceeds, is_negative, ClaimQuery, validate_claim, check_claim_sets,
  matches_no_place, validate_doc_claim, check, check_claimant, check_claim, check_doc_claim,
  check_doc, check_one, doc_refs, Place, place_eq, place_of, check_places, doc_places,
  writes_something, lengths, check_modification, normalize_arrival, renewal_duration_for,
}

-- RetryError; `hasAfter` is whether there is an `after`.
pub record RetryError : Type 0 where
  pub msg : String
  pub after : Option Duration
  pub move_to : String
  pub stop : Bool

-- RetryErrorf
abbrev pub retry_errorf : String → RetryError
retry_errorf msg = record { msg = msg; after = none; move_to = ""; stop = false }

-- RetryError.After, RetryError.OrMoveTo and RetryError.ThenStop
abbrev pub retry_after : Duration → RetryError → RetryError
retry_after d e = record e { after = some d }

abbrev pub or_move_to : String → RetryError → RetryError
or_move_to queue e = record e { move_to = queue }

abbrev pub retry_then_stop : RetryError → RetryError
retry_then_stop e = record e { stop = true }

-- MoveError
pub record MoveError : Type 0 where
  pub msg : String
  pub to : String
  pub stop : Bool

-- MoveErrorf
abbrev pub move_errorf : String → MoveError
move_errorf msg = record { msg = msg; to = ""; stop = false }

-- MoveError.To and MoveError.ThenStop
abbrev pub move_to_queue : String → MoveError → MoveError
move_to_queue queue e = record e { to = queue }

abbrev pub move_then_stop : MoveError → MoveError
move_then_stop e = record e { stop = true }

-- What an error is: a sentinel, a dependency error, the end of a context, ErrShutdown, an operation
-- that the server does not have, or anything else.
pub data WorkError : Type 0 where
  retry_error : RetryError → WorkError
  move_error : MoveError → WorkError
  fatal_error : String → WorkError
  lost_dependency : DependencyError → WorkError
  canceled timed_out shut_down unsupported : WorkError
  other_error : String → WorkError

-- AsRetry, AsMove and AsFatal
abbrev pub as_retry : WorkError → Option RetryError
as_retry (retry_error e) = some e
as_retry _ = none

abbrev pub as_move : WorkError → Option MoveError
as_move (move_error e) = some e
as_move _ = none

abbrev pub as_fatal : WorkError → Option String
as_fatal (fatal_error e) = some e
as_fatal _ = none

-- isSentinelError
unfoldable pub is_sentinel_error : WorkError → Bool
is_sentinel_error e = is_some (as_retry e) || is_some (as_move e) || is_some (as_fatal e)

-- The outcomes that are counted for a task (metrics.go)
pub data Outcome : Type 0 where
  done retried moved failed lost released : Outcome

-- sentinelOutcome
unfoldable pub sentinel_outcome : WorkError → Outcome
sentinel_outcome e =
    if is_some (as_move e) then moved else if is_some (as_retry e) then retried else failed

-- runOpt
pub record RunOpt : Type 0 where
  pub qs : List String
  pub base_retry_delay : Duration
  pub doc_contention_delay : Duration
  pub max_attempts : ℕ
  pub max_claims : ℕ
  pub work_timeout : Duration
  pub claimant : String
  pub lease : Duration

-- `d / 4` of a duration, which Go rounds toward 0
abbrev pub quarter : Duration → Duration
quarter (pos n) = pos (n / 4)
quarter (negsuc n) = if leb 4 (suc n) then negsuc (suc n / 4 - 1) else pos 0

-- jitterSpread, for the number that `rand.N` draws
unfoldable pub jitter_spread : ℕ → Duration → Duration
jitter_spread draw (pos n) = pos (draw % (n + 1))
jitter_spread draw (negsuc n) = pos 0

-- jitterLater
unfoldable pub jitter_later : ℕ → Duration → Duration → Duration
jitter_later draw d spread = d +ℤ jitter_spread draw spread

-- runOpt.contentionDelay
unfoldable pub contention_delay : ℕ → RunOpt → Duration
contention_delay draw ro =
    let d =
      if is_positive ro.doc_contention_delay
      then ro.doc_contention_delay
      else ro.base_retry_delay in
    if is_positive d then jitter_later draw d (quarter d) else d

-- DefaultErrQMap
abbrev pub default_err_qmap : String → String
default_err_qmap inbox = inbox <> "/err"

-- Worker.ErrorQueueFor; `none` is a nil map.
unfoldable pub error_queue_for : Option (String → String) → String → String
error_queue_for none inbox = default_err_qmap inbox
error_queue_for (some err_qmap) inbox =
    if err_qmap inbox == "" then default_err_qmap inbox else err_qmap inbox

-- held, with a task; a nil one is refused before renewal starts.
pub record Held : Type 0 where
  pub task : Task
  pub sets : List DocSet

-- DocsIn of doc.go
unfoldable pub docs_in : List DocSet → List Doc
docs_in [] = []
docs_in (g ∷ sets) = g.docs ++ docs_in sets

-- setKey of a set
abbrev pub set_key : DocSet → SetName
set_key g = (g.ns, g.key)
