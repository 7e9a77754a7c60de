-- ===== src/Worker/Sentinels/Effects.antt =====
-- Effects of a sentinel: what handleSentinelErrors of pkg/worker/worker.go writes, and when.
use entroq.Base.{
  pos, Duration, inc32, if◌then◌else◌, is_some, string_eq, nat_eq, ◌==◌, String, ◌≡◌, Bool, true,
  false, Option, none, some, List, [], ◌∷◌, map,
}
use entroq.Task.{Task}
use entroq.Doc.{DocSet}
use entroq.Modification.{Modification, resets_claims, set_name_eq}
use entroq.Changes.Retry.{reaches}
use entroq.Worker.{
  RetryError, MoveError, WorkError, as_fatal, is_sentinel_error, RunOpt, retry_error, move_error,
  shut_down,
}
use entroq.Worker.Commit.Releases.{release}
use entroq.Worker.Sentinels.{Client, as_dependency}

-- A modification that lets go of the task and of its sets and does nothing else: it changes the task
-- alone, at its version, with one attempt more and its claims reset, to `queue` and in `by` from now,
-- and makes each set arrive now at its version.
pub record LetsGo (task : Task) (sets : List DocSet) (queue : String) (by : Duration)
    (m : Modification) : Type 0 where
  pub changed : Task
  pub changes : m.changes ≡ changed ∷ []
  pub same_id : changed.id ≡ task.id
  pub same_version : changed.version ≡ task.version
  pub next_attempt : changed.attempt ≡ inc32 task.attempt
  pub from : changed.from_queue ≡ task.queue
  pub to : changed.queue ≡ queue
  pub arrival : changed.by ≡ by
  pub resets : resets_claims m task.id ≡ true
  pub releases : m.doc_arrives ≡ map release sets
  pub nothing_else :
      (m.inserts ≡ [])
      × (m.deletes ≡ [])
      × (m.depends ≡ [])
      × (m.arrives ≡ [])
      × (m.doc_inserts ≡ [])
      × (m.doc_changes ≡ [])
      × (m.doc_deletes ≡ [])
      × (m.doc_depends ≡ [])

-- Where a retry goes, and in how long: at once where its attempts have reached their limit
abbrev pub quarantine_queue : RetryError → String → String
quarantine_queue re err_q = if re.move_to == "" then err_q else re.move_to

abbrev pub retry_queue : RetryError → Task → String → RunOpt → String
retry_queue re task err_q opts =
    if reaches task (quarantine_queue re err_q) opts.max_attempts
    then quarantine_queue re err_q
    else task.queue

abbrev pub retry_delay : RetryError → Task → String → RunOpt → Duration
retry_delay re task err_q opts =
    let delay : Duration = elim re.after [ none ↦ opts.base_retry_delay | some d ↦ d ] in
    if reaches task (quarantine_queue re err_q) opts.max_attempts then pos 0 else delay

abbrev pub move_queue : MoveError → Task → String → String
move_queue me task err_q =
    let q = if me.to == "" then err_q else me.to in if reaches task q 1 then q else task.queue

-- Where a sentinel sends the task, and in how long; a fatal error sends it nowhere.
abbrev pub destination : WorkError → Task → String → RunOpt → Option (String × Duration)
destination (retry_error re) task err_q opts =
    some (retry_queue re task err_q opts, retry_delay re task err_q opts)
destination (move_error me) task err_q opts = some (move_queue me task err_q, pos 0)
destination _ task err_q opts = none

abbrev asks_to_stop : WorkError → Bool
asks_to_stop (retry_error re) = re.stop
asks_to_stop (move_error me) = me.stop
asks_to_stop _ = false

module _ {W : Type 0} (c : Client W) where
  -- The state after one Modify that lets go of the task and its sets, and what is reported of it: a
  -- dependency error is none of the worker's, and a sentinel that asked to be the last ends the run.
  abbrev pub IsDisposed :
      WorkError
      → Task
      → List DocSet
      → String × Duration
      → W
      → (Bool × Option WorkError) × W
      → Type 0
  IsDisposed e task sets (queue, by) w result =
      (m : Modification) × LetsGo task sets queue by m
      × (result.1 ≡ (c.modify m w).1)
      × (result.0.1 ≡ elim (c.modify m w).0 [
        | none ↦ if asks_to_stop e then some shut_down else none
        | some why ↦
            if is_some (as_dependency why)
            then (if asks_to_stop e then some shut_down else none)
            else some why
      ])

  -- The end that an error comes to, by where it sends the task and whether the context has ended.
  abbrev pub HandledAs :
      Option (String × Duration)
      → Option WorkError
      → WorkError
      → Task
      → List DocSet
      → W
      → (Bool × Option WorkError) × W
      → Type 0
  HandledAs none ctx e task sets w result =
      result ≡ ((is_sentinel_error e, if is_some (as_fatal e) then some e else none), w)
  HandledAs (some to) none e task sets w result = IsDisposed e task sets to w result
  HandledAs (some to) (some cerr) e task sets w result = result ≡ ((true, some cerr), w)

  abbrev pub IsHandled :
      WorkError → Task → List DocSet → String → RunOpt → W → (Bool × Option WorkError) × W → Type 0
  IsHandled e task sets err_q opts w result =
      HandledAs (destination e task err_q opts) (c.ctx_err w) e task sets w result

  reported : Bool → Option WorkError → Option WorkError
  reported stop o = elim o [
    | none ↦ if stop then some shut_down else none
    | some why ↦
        if is_some (as_dependency why) then (if stop then some shut_down else none) else some why
  ]
