-- ===== src/Tests/Backend.antt =====
-- The in-memory backend with one queue and one task, over the claim heap.
use entroq.Base.{
  pos, lookup, insert, erase, if◌then◌else◌, All, string_eq, nat_eq, ◌==◌, runs, String, ◌≡◌, refl,
  sym, ap, ◌∙◌, ◌↔◌, ◌⊎◌, Bool, true, false, none, some, List, [], ◌∷◌, arith,
}
use entroq.Task.{new_task_id, Task, new_task, data_of}
use entroq.Doc.{new_doc_id, is_set_ref}
use entroq.Errors.{no_failures, Failure, queue_mismatch, dependency, err, ok}
use entroq.Modification.{
  Modification, empty_modification, names_nothing, set_name_eq, check_doc_arrives,
  ensure_modify_keys, add_dep, add_deps, add_named_deps, mod_dependencies, all_dependencies,
}
use entroq.Dependency.{
  otherwise_claimed, bad_inserts, task_standing, missing_claimed, bad_doc_inserts, has_any,
  dependency_error, dedup_task_ids, doc_name_eq, dedup_doc_ids, merge,
}
use entroq.DocSets.{run, evaluation, evaluate}
use entroq.Validate.{ClaimQuery, doc_refs, place_eq, check_places, lengths, check_modification}
use entroq.Changes.{arrival_changes}
use entroq.Mem.{
  nothing, QueueLock, EqMem, lock_queue, lock_queues, unlock_queue, unlock_queues, task_in,
  must_try_claim_one, Turn,
}
use entroq.Mem.Heap.{
  ClaimHeap, new_claim_heap, swap, push, pop, up_loop, down_loop, settle, remove_slot, push_item,
  remove_item, remove_id, set_at, update_item, update_id, look, candidate, rand_avail,
  random_available, arrival,
}
use entroq.Mem.Heap.Sound.{new-IsSound}
use entroq.Mem.Heap.Pushes.{push_item-IsSound, arrival-push_item}
use entroq.Mem.Heaps.{claim_heaps}
use entroq.Mem.Eqmem.{claim_one-Takes}
use entroq.Mem.Claims.{Indexed, IndexedIn, AllIndexed, is_available, Takes}
use entroq.Mem.Prepare.{ensure_mod_queues, misplaced_inserts, ModifyResponse, empty_response}
use entroq.Mem.Found.Stored.{IsFiled, FindsStored}
use entroq.Mem.Found.{find_tasks, lock_namespaces, unlock_namespaces}
use entroq.Mem.Writes.{
  Tables, delete_id, apply_deletes, apply_changes, apply_inserts, delete_docs, set_docs, set_locks,
}
use entroq.Mem.Modify.{answered, commit, modify_locked, modify_impl, modify}
use entroq.Mem.Modify.Refused.{SameStore, modify-SameStore}
use entroq.Mem.Modify.Nameless.{OnlyNameless, modify-OnlyNameless}
use entroq.Mem.Modify.Accepted.{
  ArrivalsAsChanges, InQueue, ensure_mod_queues-InQueue, found_for, MayCommit,
  modify_locked-MayCommit,
}

abbrev waiting : Task
waiting = record new_task { queue = "/in"; id = "t1"; version = 3; at = 50 }

abbrev in_queue : QueueLock claim_heaps
in_queue = record { heap = push_item "t1" 50 new_claim_heap; tasks = ("t1", waiting) ∷ [] }

abbrev one_task : EqMem claim_heaps
one_task = record { queues = ("/in", in_queue) ∷ []; namespaces = []; q_by_id = ("t1", "/in") ∷ [] }

no_arrival : arrival "t1" new_claim_heap ≡ none
unfolding arrival lookup
no_arrival = refl

in_queue-Indexed : Indexed claim_heaps in_queue
unfolding lookup
in_queue-Indexed = (
  push_item-IsSound "t1" 50 new_claim_heap new-IsSound no_arrival,
  λ id. ground (
    arith,
    arrival-push_item "t1" 50 new_claim_heap new-IsSound id,
    claim_heaps.arrival-empty id,
  ),
)

one_task-AllIndexed : AllIndexed claim_heaps one_task.queues
unfolding lookup
one_task-AllIndexed q = on_name ("/in" == q)
  where
    on_name : (b : Bool) → IndexedIn claim_heaps (if b then some in_queue else none)
    on_name true = in_queue-Indexed
    on_name false = tt

abbrev query : ClaimQuery
query = record { queues = "/in" ∷ []; claimant = "worker"; duration = pos 100; poll_time = pos 0 }

claim_one-Takes_example :
    ((must_try_claim_one claim_heaps query [] 60 "/in" one_task ≡ nothing one_task)
      × ((id : String)
          → is_available claim_heaps 60 (task_in claim_heaps "/in" id one_task.queues) ≡ false))
    ⊎ Takes claim_heaps query 60 "/in" one_task
        (must_try_claim_one claim_heaps query [] 60 "/in" one_task)
claim_one-Takes_example = claim_one-Takes query [] 60 "/in" one_task one_task-AllIndexed

abbrev turns : List (Turn claim_heaps)
turns =
    record { queue = "/other"; now = 40; draws = [] }
    ∷ record { queue = "/in"; now = 60; draws = [] }
    ∷ []

abbrev moved : Modification
moved = record (empty_modification "worker") { deletes = new_task_id "t1" 3 "/elsewhere" ∷ [] }

abbrev mismatch : Failure
mismatch = dependency (record no_failures {
  deletes = new_task_id "t1" 3 "/elsewhere" ∷ [];
  message = queue_mismatch;
})

refuses_moved : modify claim_heaps moved 60 one_task ≡ answered (err mismatch) one_task
unfolding runs modify modify_impl modify_locked check_modification ensure_modify_keys names_nothing
    check_doc_arrives doc_refs check_places all_dependencies mod_dependencies add_deps add_dep
    add_named_deps lengths lookup insert erase ensure_mod_queues misplaced_inserts lock_queues
    lock_queue unlock_queues unlock_queue lock_namespaces unlock_namespaces find_tasks task_in
    arrival_changes dependency_error bad_inserts missing_claimed task_standing otherwise_claimed
    bad_doc_inserts evaluate evaluation run commit apply_deletes delete_id apply_changes
    apply_inserts has_any merge dedup_task_ids dedup_doc_ids is_set_ref delete_docs set_docs
    set_locks
refuses_moved = refl

modify-SameStore_example : SameStore claim_heaps one_task one_task
modify-SameStore_example =
    modify-SameStore claim_heaps moved 60 one_task one_task mismatch refuses_moved

ensure_mod_queues-InQueue_example : (ensure_mod_queues moved one_task.q_by_id ≡ none) ↔ (
    All (λ d. InQueue one_task.q_by_id d.queue d.id) moved.deletes
    × All (λ d. InQueue one_task.q_by_id d.queue d.id) moved.depends
    × All (λ c. InQueue one_task.q_by_id c.from_queue c.id) moved.changes)
ensure_mod_queues-InQueue_example = ensure_mod_queues-InQueue moved one_task.q_by_id

abbrev nameless : Modification
nameless = record (empty_modification "worker") { doc_deletes = new_doc_id "" "d1" 7 ∷ [] }

accepts_nameless : check_modification nameless ≡ ok tt
unfolding runs check_modification ensure_modify_keys names_nothing check_doc_arrives doc_refs
    check_places all_dependencies mod_dependencies add_deps add_dep add_named_deps lengths lookup
    insert is_set_ref
accepts_nameless = refl

only_nameless : OnlyNameless nameless
only_nameless = record {
  inserts = refl;
  changes = refl;
  deletes = refl;
  depends = refl;
  arrives = refl;
  doc_inserts = refl;
  doc_arrives = refl;
  doc_changes = tt;
  doc_deletes = (refl, tt);
  doc_depends = tt;
}

modify-OnlyNameless_example :
    modify claim_heaps nameless 60 one_task ≡ answered (ok empty_response) one_task
modify-OnlyNameless_example =
    modify-OnlyNameless claim_heaps nameless 60 one_task accepts_nameless only_nameless

abbrev rewrite_task : Modification
rewrite_task = record (empty_modification "worker") {
  changes = record waiting { value = "1"; from_queue = "/in"; queue = "/out"; by = pos 30 } ∷ [];
  inserts = record (data_of waiting) { id = "t2" } ∷ [];
}

abbrev tables : Tables claim_heaps
tables = (one_task.queues, one_task.q_by_id)

-- A heap of three: the two that are available are found whatever the draws, and after the first is
-- removed and the second put off, nothing is.
abbrev three : ClaimHeap
three = push_item "c" 70 (push_item "b" 20 (push_item "a" 50 new_claim_heap))

picks_top : random_available (false ∷ false ∷ []) 60 three ≡ some "b"
unfolding runs push_item push up_loop swap insert lookup random_available rand_avail look candidate
picks_top = refl

picks_below : random_available (true ∷ false ∷ []) 60 three ≡ some "a"
unfolding runs push_item push up_loop swap insert lookup random_available rand_avail look candidate
picks_below = refl

none_left : random_available [] 60 (update_id "b" 80 (remove_id "a" three)) ≡ none
unfolding runs push_item push up_loop swap insert lookup random_available rand_avail look candidate
    update_id update_item set_at settle down_loop remove_id remove_item remove_slot pop erase
none_left = refl

-- The one stored task
stored_in_one :
    (q id : String) (t : Task)
    → task_in claim_heaps q id one_task.queues ≡ some t
    → (t ≡ waiting) × ("t1" ≡ id)
unfolding task_in lookup
stored_in_one q id t e = (ground (arith, e), ground (arith, e))

one_task-IsFiled : IsFiled claim_heaps one_task.queues
one_task-IsFiled = record {
  ids = λ q id t e. let (same, named) = stored_in_one q id t e in ap (λ x. x.id) same ∙ named;
  one_queue = λ p q id t u e f. (stored_in_one p id t e).0 ∙ sym (stored_in_one q id u f).0;
}

modify_locked-MayCommit_example :
    (((resp : ModifyResponse) × (st' : EqMem claim_heaps) × (modify_locked claim_heaps rewrite_task
            60
            (ensure_mod_queues rewrite_task one_task.q_by_id)
            (misplaced_inserts one_task.q_by_id rewrite_task.inserts)
            one_task
          ≡ answered (ok resp) st'))
      ↔ MayCommit claim_heaps rewrite_task 60 one_task)
    × FindsStored claim_heaps one_task.queues one_task.q_by_id rewrite_task
        (found_for claim_heaps rewrite_task 60 one_task)
    × ArrivalsAsChanges claim_heaps rewrite_task 60 one_task
modify_locked-MayCommit_example =
    modify_locked-MayCommit claim_heaps rewrite_task 60 one_task one_task-IsFiled
