-- ===== src/Tests/Requests.antt =====
-- The checks of requests, doc claims and changes on small inputs.
use entroq.Base.{
  pos, inc32, lookup, insert, if◌then◌else◌, All, string_eq, nat_eq, ◌==◌, runs, ◌+◌, ◌≤◌, ◌<◌,
  String, ◌≡◌, refl, ◌≢◌, ◌↔◌, ◌⊎◌, true, false, none, some, List, [], ◌∷◌, ◌++◌, map, arith,
}
use entroq.Doc.{Doc, DocSet, DocClaim}
use entroq.Task.{Task, new_task}
use entroq.Errors.{ok}
use entroq.Modification.{
  Modification, empty_modification, reset_claims_of, names_nothing, SetName, set_name_eq,
  check_doc_arrives, ensure_modify_keys, add_dep, add_deps, add_named_deps, mod_dependencies,
  all_dependencies,
}
use entroq.Dependency.{doc_name_eq}
use entroq.DocSets.{Lock, claim}
use entroq.DocSets.Claiming.{
  sets_of, claim_all, claimed_sets, claim-exclusive, taken, Free, all_taken, claim_all-taken,
  CarryLocks, claimed_sets-CarryLocks,
}
use entroq.Validate.{
  arrival_past_window, max_claimant_bytes, ClaimQuery, check_claim, check_doc_claim, doc_refs,
  place_eq, check_places, lengths, check_modification, normalize_arrival,
}
use entroq.Validate.Claims.{
  Fits, IsLease, check_claim_iff, DocClaimAccepted, check_doc_claim-DocClaimAccepted,
  normalize_arrival-lem,
}
use entroq.Validate.Accepts.{Accepted, check_modification-Accepted}
use entroq.Changes.{
  arrival_time_by, apply_args, change, is_quarantining, retry_or_quarantine, retry,
}
use entroq.Changes.Source.{change_arg, change-queues, to_queue}
use entroq.Changes.Retry.{retried, retry_or_quarantine-lem, quarantine-released}

abbrev failed_task : Task
failed_task = record new_task { queue = "/in"; id = "t1"; version = 3; attempt = 4; err = "first" }

abbrev requeue : Modification
requeue = retry failed_task "again" [] (empty_modification "worker")

accepts_retry : check_modification requeue ≡ ok tt
unfolding runs check_modification ensure_modify_keys names_nothing check_doc_arrives doc_refs
    check_places all_dependencies mod_dependencies add_deps add_dep add_named_deps lengths
    retry_or_quarantine is_quarantining change apply_args reset_claims_of lookup insert
accepts_retry = refl

check_modification-Accepted_example : (check_modification requeue ≡ ok tt) ↔ Accepted requeue
check_modification-Accepted_example = check_modification-Accepted requeue

abbrev claim_query : ClaimQuery
claim_query = record {
  queues = "/in" ∷ [];
  claimant = "worker";
  duration = pos 30_000_000_000;
  poll_time = pos 0;
}

check_claim_iff_example : (check_claim claim_query ≡ ok tt) ↔ (
    (claim_query.queues ≢ [])
    × (claim_query.claimant ≢ "")
    × IsLease claim_query.duration
    × Fits max_claimant_bytes claim_query.claimant)
check_claim_iff_example = check_claim_iff claim_query

abbrev worker : String
worker = "worker"

abbrev thief : String
thief = "thief"

abbrev swapped : String × String
swapped = ("/a", "/b")

abbrev doc_claim : DocClaim
doc_claim = record {
  sets = record { ns = "orders"; key = "k"; omit_members = false } ∷ [];
  claimant = "worker";
  duration = pos 1_000;
  task_to_match = none;
  leases = 1;
}

check_doc_claim-DocClaimAccepted_example :
    (check_doc_claim doc_claim ≡ ok tt) ↔ DocClaimAccepted doc_claim
check_doc_claim-DocClaimAccepted_example = check_doc_claim-DocClaimAccepted doc_claim

normalize_arrival-lem_example :
    (50 ≤ normalize_arrival 20 50 + arrival_past_window)
    × ((normalize_arrival 20 50 ≡ 20) ↔ (50 ≤ 20 + arrival_past_window))
    × ((normalize_arrival 20 50 ≡ 20) ⊎ (normalize_arrival 20 50 ≡ 50))
    × (normalize_arrival (normalize_arrival 20 50) 50 ≡ normalize_arrival 20 50)
normalize_arrival-lem_example = normalize_arrival-lem 20 50

abbrev orders_lock : SetName → Lock
orders_lock g = record {
  stored = true;
  version = 4;
  claimant = "worker";
  at = 900;
  num_docs = pos 1;
}

abbrev no_members : SetName → List Doc
no_members g = []

claim_all-taken_example :
    (claim_all doc_claim 1_000 2_000 orders_lock no_members
      ≡ ok (all_taken doc_claim 1_000 2_000 orders_lock no_members (sets_of doc_claim)))
    ↔ ((1_000 < 2_000)
        × All (Free doc_claim 1_000 2_000 orders_lock no_members) (sets_of doc_claim)
        × (all_taken doc_claim 1_000 2_000 orders_lock no_members (sets_of doc_claim)
            ≡ all_taken doc_claim 1_000 2_000 orders_lock no_members (sets_of doc_claim)))
claim_all-taken_example =
    claim_all-taken doc_claim 1_000 2_000 orders_lock no_members
      (all_taken doc_claim 1_000 2_000 orders_lock no_members (sets_of doc_claim))

abbrev orders_taken : Lock
orders_taken = taken (orders_lock ("orders", "k")) "worker" 2_000

takes : claim (orders_lock ("orders", "k")) "worker" 1_000 2_000 ≡ some orders_taken
unfolding runs claim
takes = refl

worker_test : (worker == "") ≡ false
unfolding runs
worker_test = refl

worker_named : worker ≢ ""
worker_named = ground (arith, worker_test)

claim-exclusive_example :
    (claim orders_taken "thief" 1_500 2_500 ≡ none) ↔ ((thief ≢ worker) × (1_500 < 2_000))
claim-exclusive_example =
    claim-exclusive (orders_lock ("orders", "k")) orders_taken "worker" 1_000 2_000 takes
      worker_named "thief" 1_500 2_500

abbrev order_doc : Doc
order_doc = record {
  ns = "orders";
  id = "d1";
  version = 1;
  claimant = "";
  by = pos 0;
  at = 0;
  key = "k";
  secondary_key = "";
  content = "1";
  created = 1;
  modified = 1;
}

abbrev order_docs : SetName → List Doc
order_docs g = if g.1 == "k" then order_doc ∷ [] else []

claimed_sets-CarryLocks_example :
    (out : List DocSet) × (claimed_sets doc_claim (orders_taken ∷ []) order_docs ≡ some out)
    × CarryLocks order_docs doc_claim.sets (orders_taken ∷ []) out
claimed_sets-CarryLocks_example =
    claimed_sets-CarryLocks doc_claim (orders_taken ∷ []) order_docs refl

retry_or_quarantine-lem_example :
    retry_or_quarantine failed_task "again" "/bad" 5 [] (empty_modification "worker")
    ≡ record (empty_modification "worker") {
      reset_claims = "t1" ∷ [];
      changes = retried failed_task "again" "/bad" 5 ∷ [];
    }
retry_or_quarantine-lem_example =
    retry_or_quarantine-lem failed_task "again" "/bad" 5 (empty_modification "worker") (omega arith)
      (omega arith)

reaches_limit : is_quarantining failed_task "/bad" 5 ≡ true
unfolding runs is_quarantining inc32
reaches_limit = refl

quarantine-released_example :
    (before_it : List Task) × (c : Task) × ((retry_or_quarantine failed_task "again" "/bad" 5
        (arrival_time_by (pos 60) ∷ [])
        (empty_modification "worker")).changes
      ≡ before_it ++ c ∷ [])
    × (c.by ≡ pos 0)
quarantine-released_example =
    quarantine-released failed_task "again" "/bad" 5 (arrival_time_by (pos 60) ∷ [])
      (empty_modification "worker") reaches_limit

change-queues_example :
    (c : Task) × ((change failed_task
        (map change_arg (to_queue "/a" ∷ to_queue "/b" ∷ []))
        (empty_modification "worker")).changes
      ≡ c ∷ [])
    × (c.id ≡ "t1")
    × (c.version ≡ 3)
    × (◌≡◌ {A = String × String} (c.from_queue, c.queue) swapped)
change-queues_example =
    change-queues failed_task (to_queue "/a" ∷ to_queue "/b" ∷ []) (empty_modification "worker")
