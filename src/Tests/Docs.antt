-- ===== src/Tests/Docs.antt =====
-- The doc set rules on a small store: one set, with one doc, claimed by "worker".
use entroq.Base.{
  ◌+ℤ◌, pos, lookup, insert, if◌then◌else◌, string_eq, nat_eq, ◌==◌, runs, String, ◌≡◌, refl, ◌↔◌,
  true, ◌&&◌, Option, none, some, [], ◌∷◌,
}
use entroq.Doc.{new_doc_id, is_set_ref, Doc}
use entroq.Modification.{Modification, empty_modification, SetName, set_name_eq}
use entroq.Dependency.{has_any, doc_name_eq}
use entroq.DocSets.{
  Lock, absent_lock, run, count_docs, write, report_claimed, is_provided, stored_set,
  claim_or_insert, insert_step, change_step, delete_step, depend_step, arrive_step, evaluation,
  evaluate,
}
use entroq.DocSets.Outcome.{DocsProceed, evaluate-DocsProceed}
use entroq.DocSets.Locks.{set_writes, writes_to, planned_lock, evaluate-planned_lock}

abbrev stored_doc : Doc
stored_doc = record {
  ns = "orders";
  id = "d1";
  version = 4;
  claimant = "worker";
  by = pos 0;
  at = 2_000;
  key = "k";
  secondary_key = "s";
  content = "{}";
  created = 1;
  modified = 1;
}

abbrev stored_lock : Lock
stored_lock = record {
  stored = true;
  version = 4;
  claimant = "worker";
  at = 2_000;
  num_docs = pos 1;
}

abbrev orders : SetName
orders = ("orders", "k")

abbrev member : String → String → Option Doc
member ns id = if ns == "orders" && id == "d1" then some stored_doc else none

abbrev occupant : SetName → String → Option Doc
occupant g s = if g == orders && s == "s" then some stored_doc else none

abbrev lock : SetName → Lock
lock g = if g == orders then stored_lock else absent_lock

abbrev rewrite : String → Modification
rewrite claimant = record (empty_modification claimant) {
  doc_inserts =
      record {
        ns = "orders";
        id = "d2";
        by = pos 500;
        at = 0;
        key = "k";
        secondary_key = "s2";
        content = "{}";
        created = 0;
        modified = 0;
      }
      ∷ [];
  doc_deletes = new_doc_id "orders" "d1" 4 ∷ [];
}

evaluates : (evaluate (rewrite "worker") 1_000 member occupant lock).failed ≡ none
unfolding runs evaluate evaluation run insert_step delete_step change_step depend_step arrive_step
    claim_or_insert report_claimed stored_set count_docs write lookup insert has_any ◌+ℤ◌
    is_provided is_set_ref
evaluates = refl

evaluate-DocsProceed_example :
    ((evaluate (rewrite "worker") 1_000 member occupant lock).failed ≡ none)
    ↔ DocsProceed (rewrite "worker") 1_000 member occupant lock
evaluate-DocsProceed_example = evaluate-DocsProceed (rewrite "worker") 1_000 member occupant lock

proceeds : DocsProceed (rewrite "worker") 1_000 member occupant lock
proceeds = (evaluate-DocsProceed (rewrite "worker") 1_000 member occupant lock).0 evaluates

abbrev rewritten : Lock
rewritten = planned_lock (rewrite "worker") 1_000 member occupant lock orders

evaluate-planned_lock_example :
    lookup orders (evaluate (rewrite "worker") 1_000 member occupant lock).locks
    ≡ (if writes_to orders (set_writes (rewrite "worker") member) then some rewritten else none)
evaluate-planned_lock_example =
    evaluate-planned_lock (rewrite "worker") 1_000 member occupant lock proceeds orders
