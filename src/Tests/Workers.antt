-- ===== src/Tests/Workers.antt =====
-- The worker on small inputs: one task with one doc set, and a client that records what it modifies.
use entroq.Base.{
  pos, lookup, insert, is_some, All, Distinct, string_eq, nat_eq, ◌==◌, runs, ℕ, ◌+◌, ◌*◌, ◌≤◌, ◌<◌,
  String, ◌≡◌, refl, ap, ◌≢◌, ◌⊎◌, true, false, Option, none, some, List, [], ◌∷◌, ◌++◌, map, arith,
}
use entroq.Task.{new_task_id, Task, new_task}
use entroq.Doc.{Doc, DocSet}
use entroq.Errors.{err, ok}
use entroq.Modification.{
  Modification, empty_modification, new_modification, with_modification, names_nothing, set_name_eq,
  check_doc_arrives, ensure_modify_keys,
}
use entroq.Changes.{entry_by, arriving}
use entroq.Mem.Prepare.{ModifyResponse, empty_response}
use entroq.Worker.{
  retry_errorf, WorkError, RunOpt, Held, docs_in, set_key, retry_error, timed_out, done,
}
use entroq.Worker.Commit.{
  set_versions, doc_versions, fix_change, fix_task_id, fix_arrival, fix_doc_change, fix_doc_id,
  fix_doc_arrival, fix_versions, rewrites_task, arrives_task, only_arrives, decided_arrivals,
  decided_inserts, decided_changes, releasing,
}
use entroq.Worker.Commit.Releases.{release}
use entroq.Worker.Commit.Named.{IsNamed, releasing-ensure_modify_keys}
use entroq.Worker.Renewal.{
  relocked, lost_claim_errorf, locks_of, renewed_sets, renewed, Renewing, start_renewing,
  after_refusal, on_tick, Event, Run, hand_over, answered, refused, stop_renew, tick, stops, ticks,
  stay, go_on,
}
use entroq.Worker.Renewal.Answers.{AreRenewed, Covers, renewed-Covers}
use entroq.Worker.Renewal.Waits.{retry_wait, longest, retry_wait-fits, retry_wait-overruns}
use entroq.Worker.Renewal.Runs.{IsSound, Run-start-IsSound, has_signal, Run-hand_over}
use entroq.Worker.Sentinels.{Client, stop_after}
use entroq.Worker.Finish.{
  WorkResult, reset_changed, finish_modification, after_commit, mods_of, commit_request, finish,
}
use entroq.Worker.Rounds.{
  Surroundings, acquire_docs, after_finish, finish_phase, work_ladder, after_cue, after_acquire,
  after_take, after_handler, after_claim, after_start, run_one, got,
}
use entroq.Worker.Rounds.Ends.{IsAccounted, SetsSentinels, run_one-IsAccounted}
use entroq.Worker.Finish.Commits.{finish-committed}

abbrev claimed : Task
claimed = record new_task {
  queue = "/in";
  id = "t1";
  version = 5;
  at = 3_000;
  modified = 1_500;
  claimant = "me";
}

abbrev held_doc : Doc
held_doc = record {
  ns = "n";
  id = "d1";
  version = 7;
  claimant = "me";
  by = pos 0;
  at = 3_000;
  key = "k";
  secondary_key = "";
  content = "";
  created = 1;
  modified = 2;
}

abbrev held_set : DocSet
held_set = record {
  ns = "n";
  key = "k";
  version = 7;
  claimant = "me";
  at = 3_000;
  num_docs = pos 1;
  docs = held_doc ∷ [];
}

abbrev empty_set : DocSet
empty_set = record {
  ns = "n";
  key = "e";
  version = 2;
  claimant = "me";
  at = 3_000;
  num_docs = pos 0;
  docs = [];
}

abbrev hold : Held
hold = record { task = claimed; sets = held_set ∷ empty_set ∷ [] }

-- What a handler asks for at the versions of its claim
abbrev stale : Modification
stale = record (empty_modification "") {
  deletes = new_task_id "t1" 3 "/in" ∷ [];
  doc_changes = record held_doc { version = 4 } ∷ [];
}

differs : (s t : String) → (s == t) ≡ false → s ≢ t
differs s t h e = ground (arith, h, e)

sets_apart : Distinct (map set_key hold.sets)
unfolding runs
sets_apart = ((λ e. differs "e" "k" refl (ap (λ s. s.1) e), tt), (tt, tt))

fixes_versions :
    fix_versions claimed hold.sets stale
    ≡ record stale { deletes = new_task_id "t1" 5 "/in" ∷ []; doc_changes = held_doc ∷ [] }
unfolding runs fix_versions fix_change fix_task_id fix_arrival fix_doc_change fix_doc_id
    fix_doc_arrival doc_versions set_versions docs_in lookup insert
fixes_versions = refl

releases_both :
    (releasing 2_000 hold.sets stale).doc_arrives ≡ release held_set ∷ release empty_set ∷ []
unfolding runs releasing decided_changes decided_inserts decided_arrivals lookup insert arriving
    entry_by
releases_both = refl

stale_passes : ensure_modify_keys stale ≡ ok tt
unfolding runs ensure_modify_keys names_nothing check_doc_arrives
stale_passes = refl

sets-IsNamed : All IsNamed hold.sets
unfolding runs
sets-IsNamed =
    ((differs "n" "" refl, differs "k" "" refl), ((differs "n" "" refl, differs "e" "" refl), tt))

releasing-ensure_modify_keys_example : ensure_modify_keys (releasing 2_000 hold.sets stale) ≡ ok tt
releasing-ensure_modify_keys_example =
    releasing-ensure_modify_keys 2_000 hold.sets stale sets-IsNamed sets_apart stale_passes

-- A renewal that answers with the task and both sets
abbrev renewal : ModifyResponse
renewal = record empty_response {
  changed_tasks = record claimed { version = 6; at = 4_500; modified = 3_000 } ∷ [];
  changed_sets = record held_set { version = 8; docs = [] } ∷ record empty_set { version = 3 } ∷ [];
}

renewed-Covers_example :
    ((h' : Held) × (renewed hold renewal ≡ ok h')
      × Covers renewal hold
      × (renewal.changed_tasks ≡ h'.task ∷ [])
      × AreRenewed hold.sets h'.sets renewal.changed_sets)
    ⊎ ((renewed hold renewal ≡ err (lost_claim_errorf hold)) × (¬ Covers renewal hold))
renewed-Covers_example = renewed-Covers hold renewal

retry_wait-fits_example :
    ((n : ℕ) → retry_wait 800 1_600 n ≤ 1_600)
    × (retry_wait 800 1_600 0 + retry_wait 800 1_600 1 + retry_wait 800 1_600 2 ≤ 800)
    × (longest (retry_wait 800 1_600 0) + longest (retry_wait 800 1_600 1) ≤ 800)
retry_wait-fits_example = retry_wait-fits 800 1_600 (omega arith)

retry_wait-overruns_example :
    32 * 25
    < longest (retry_wait (32 * 25) 1_600 0)
      + longest (retry_wait (32 * 25) 1_600 1)
      + longest (retry_wait (32 * 25) 1_600 2)
retry_wait-overruns_example = retry_wait-overruns 25 1_600 (omega arith) (omega arith)

-- One renewal that is answered, one that fails for now, and the stop.
abbrev started : Renewing
started = start_renewing 1_000 100 hold

abbrev events : List Event
events = tick 0 (answered renewal) ∷ tick 5 (refused timed_out) ∷ stop_renew ∷ []

abbrev after_answer : Renewing
after_answer = on_tick 1_000 500 0 (answered renewal) started

abbrev after_failure : Renewing
after_failure = on_tick 1_000 500 5 (refused timed_out) after_answer

abbrev at_end : Renewing
at_end = record after_failure { out = true; hears_stop = false }

hears : after_failure.hears_stop ≡ true
unfolding runs on_tick renewed renewed_sets locks_of start_renewing after_refusal lookup insert
hears = refl

some-Run : Run 1_000 500 started events at_end
some-Run =
    go_on started after_answer at_end (tick 0 (answered renewal))
      (tick 5 (refused timed_out) ∷ stop_renew ∷ [])
      (ticks started 0 (answered renewal) (omega arith))
      (go_on after_answer after_failure at_end (tick 5 (refused timed_out)) (stop_renew ∷ [])
        (ticks after_answer 5 (refused timed_out) (omega arith))
        (go_on after_failure at_end at_end stop_renew [] (stops after_failure hears) (stay at_end)))

renews_hold : at_end.cur.task.version ≡ 6
unfolding runs on_tick renewed renewed_sets locks_of start_renewing after_refusal lookup insert
    relocked
renews_hold = refl

Run-start-IsSound_example :
    IsSound hold at_end
    × ((draw : ℕ) (resp : ModifyResponse) (k : Held)
        → is_some at_end.stop_err ≡ false
        → renewed at_end.cur resp ≡ ok k
        → on_tick 1_000 500 draw (answered resp) at_end
          ≡ record at_end { next = 1_000; cur = k; retry_delay = 0 })
Run-start-IsSound_example = Run-start-IsSound 1_000 500 100 hold events at_end some-Run

Run-hand_over_example :
    (has_signal events ≡ true → hand_over at_end ≡ some (at_end.cur, at_end.stop_err))
    × (hand_over started ≡ some (started.cur, started.stop_err)
        → hand_over at_end ≡ some (at_end.cur, at_end.stop_err))
    × (is_some started.stop_err ≡ true
        → (at_end.cur ≡ started.cur) × (at_end.stop_err ≡ started.stop_err))
Run-hand_over_example = Run-hand_over 1_000 500 started events at_end some-Run

-- A client whose state is what it was asked to modify, and which does it all.
abbrev recorder : Client (List Modification)
recorder = record {
  ctx_err = λ _. none;
  modify = λ m w. (none, w ++ m ∷ []);
  now = λ _. 2_000;
  claimant = "me";
}

abbrev options : RunOpt
options = record {
  qs = "/in" ∷ [];
  base_retry_delay = pos 30;
  doc_contention_delay = pos 0;
  max_attempts = 3;
  max_claims = 10;
  work_timeout = pos 300;
  claimant = "me";
  lease = pos 1_500;
}

abbrev busy : WorkError
busy = retry_error (retry_errorf "busy")

abbrev work_done : Option (WorkResult (List Modification))
work_done = some (record {
  mods = with_modification stale ∷ [];
  on_success = none;
  on_dependency = none;
  stop = false;
})

finish-committed_example :
    ((finish recorder claimed work_done hold []).0.0 ≡ none
      → (names_nothing (finish_modification (mods_of work_done) hold 2_000) ≡ true)
        ⊎ ((recorder.modify
              (commit_request recorder (finish_modification (mods_of work_done) hold 2_000))
              []).0
            ≡ none))
    × ((finish recorder claimed work_done hold []).0.1 ≡ true
        → (only_arrives (finish_modification (mods_of work_done) hold 2_000) hold.task.id ≡ true)
          × ((recorder.modify
                (commit_request recorder (finish_modification (mods_of work_done) hold 2_000))
                []).0
              ≡ none))
finish-committed_example = finish-committed recorder claimed work_done hold []

-- A round that claims the task and the set, works, and commits what the handler asked for
abbrev surroundings : Surroundings (List Modification)
surroundings = record {
  client = recorder;
  start_claim = λ w. (none, w);
  claim_task = λ w. (got claimed, w);
  make_handler = λ w. (none, w);
  decodes = λ _. true;
  take_docs = λ t w. (got (record { ns = "n"; key = "k"; omit_members = false } ∷ []), w);
  claim_docs = λ cs t w. (got hold.sets, w);
  cue_work = λ h w. (none, w);
  do_work = λ h w. (
    record {
      renew_err = none;
      handle_err = none;
      sentinel_err = none;
      work_err = none;
      final = h;
      past_deadline = false;
    },
    w,
  );
  finish_work = finish recorder claimed work_done;
  before_text = λ a b. false;
  tell = λ _. "why";
  draw = 0;
  err_qmap = none;
  opts = options;
}

no_sentinels : SetsSentinels surroundings
no_sentinels h v e k = ground (arith, k)

does_round : (run_one surroundings []).0 ≡ (none, some done)
unfolding runs run_one after_start after_claim after_handler after_take after_acquire after_cue
    acquire_docs work_ladder finish_phase after_finish finish finish_modification names_nothing
    fix_versions releasing reset_changed decided_changes decided_inserts decided_arrivals lookup
    insert arriving entry_by only_arrives arrives_task rewrites_task new_modification
    with_modification after_commit stop_after
does_round = refl

run_one-IsAccounted_example : IsAccounted surroundings (run_one surroundings [])
run_one-IsAccounted_example = run_one-IsAccounted surroundings no_sentinels []
