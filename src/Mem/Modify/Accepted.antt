-- ===== src/Mem/Modify/Accepted.antt =====
-- When the in-memory backend accepts a modification.
use entroq.Base.{
  append-nil, Time, Dict, lookup, is_some, All, is_empty, keep, string_eq, nat_eq, String, ◌≡◌,
  refl, sym, ◌∙◌, ◌≢◌, ◌↔◌, true, false, ◌&&◌, ◌||◌, Option, none, some, List, [], ◌∷◌, ◌++◌, map,
  arith,
}
use entroq.Task.{TaskArrival, arrival_change, TaskId, new_task_id, Task}
use entroq.Doc.{Doc}
use entroq.Errors.{DependencyError, no_failures, ok}
use entroq.Modification.{Modification, SetName, set_name_eq}
use entroq.Dependency.{
  bad_changes, bad_deletes, bad_doc_changes, bad_doc_deletes, has_any, dependency_error,
  doc_name_eq, or_no_failures, merge,
}
use entroq.Dependency.Check.{keep-All, Proceeds, dependency_error-Proceeds}
use entroq.Dependency.Merge.{has_any-merged, merge-none}
use entroq.DocSets.{Lock, evaluate}
use entroq.DocSets.Outcome.{DocsProceed, evaluate-DocsProceed}
use entroq.Changes.{arrival_changes}
use entroq.Mem.{ClaimHeaps, EqMem, task_in}
use entroq.Mem.Prepare.{
  misplaced_inserts, is_misnamed, ensure_mod_queues, ModifyResponse, task_part, all_failures,
}
use entroq.Mem.Found.{find_tasks, task_places, doc_in, occupant_of, lock_of}
use entroq.Mem.Found.Stored.{Sees, IsFiled, FindsStored, find_tasks-FindsStored}
use entroq.Mem.Writes.{derefs_nil}
use entroq.Mem.Modify.{commit, modify_locked, answered}

-- An error that is returned has a failure.
abbrev Counts : Option DependencyError → Type 0
Counts e = has_any (or_no_failures e) ≡ is_some e

is_empty-append {ℓ} :
    {A : Type ℓ} (xs ys : List A) → is_empty (xs ++ ys) ≡ (is_empty xs && is_empty ys)
is_empty-append [] ys = refl
is_empty-append (x ∷ xs) ys = refl

ensure_mod_queues-Counts :
    (m : Modification) (q_by_id : Dict String String) → Counts (ensure_mod_queues m q_by_id)
unfolding ensure_mod_queues has_any
ensure_mod_queues-Counts m q_by_id = ground arith

dependency_error-Counts :
    (m : Modification) (found : String → Option Task) (found_docs : String → Option Doc)
    (now : Time)
    → Counts (dependency_error m found found_docs now)
unfolding dependency_error has_any
dependency_error-Counts m found found_docs now = ground (
  arith,
  is_empty-append (bad_deletes m found now).1 (bad_changes m found now).1,
  is_empty-append (bad_doc_deletes m found_docs now).1 (bad_doc_changes m found_docs now).1,
)

has_any-nothing : has_any no_failures ≡ false
unfolding has_any
has_any-nothing = refl

evaluate-Counts :
    (m : Modification) (now : Time) (member : String → String → Option Doc)
    (occupant : SetName → String → Option Doc) (lock : SetName → Lock)
    → Counts (evaluate m now member occupant lock).failed
unfolding evaluate
evaluate-Counts m now member occupant lock = ground (arith, has_any-nothing)

has_any-merge :
    (a b : Option DependencyError)
    → has_any (or_no_failures (merge a b))
      ≡ (has_any (or_no_failures a) || has_any (or_no_failures b))
unfolding merge
has_any-merge a b =
    ground (arith, has_any-merged (or_no_failures a) (or_no_failures b), has_any-nothing)

-- Errors that count are put together to none exactly when there is none of them.
all_failures-none :
    (a b c : Option DependencyError)
    → Counts a
    → Counts b
    → Counts c
    → (all_failures a b c ≡ none) ↔ ((a ≡ none) × (b ≡ none) × (c ≡ none))
all_failures-none a b c ca cb cc' = (
  λ h. ground (arith, all_merged.0, two_merged.0, has_any-merge b c, ca, cb, cc'),
  λ h. ground (arith, all_merged.1, two_merged.1, has_any-merge b c, ca, cb, cc'),
)
  where
    all_merged :
        (merge a (merge b c) ≡ none)
        ↔ ((has_any (or_no_failures a) ≡ false) × (has_any (or_no_failures (merge b c)) ≡ false))
    all_merged = merge-none a (merge b c)

    two_merged :
        (merge a b ≡ none)
        ↔ ((has_any (or_no_failures a) ≡ false) × (has_any (or_no_failures b) ≡ false))
    two_merged = merge-none a b

-- The queue named is the one that the index has for the task.
abbrev pub InQueue : Dict String String → String → String → Type 0
InQueue q_by_id queue id = (queue ≢ "") × (lookup id q_by_id ≡ some queue)

is_misnamed-InQueue :
    (q_by_id : Dict String String) (queue id : String)
    → (is_misnamed q_by_id queue id ≡ false) ↔ InQueue q_by_id queue id
is_misnamed-InQueue q_by_id queue id = (λ h. ground arith, λ h. ground arith)

is_empty-map {ℓ κ} :
    {A : Type ℓ} {B : Type κ} (f : A → B) (xs : List A) → is_empty (map f xs) ≡ is_empty xs
is_empty-map f [] = refl
is_empty-map f (x ∷ xs) = refl

-- A loop that collects what is misnamed finds nothing exactly when everything is in its queue.
misnamed-InQueue {ℓ} :
    {A : Type ℓ} (q_by_id : Dict String String) (queue id : A → String) (ref : A → TaskId)
    (xs : List A)
    → (is_empty (map ref (keep (λ x. is_misnamed q_by_id (queue x) (id x)) xs)) ≡ true)
      ↔ All (λ x. InQueue q_by_id (queue x) (id x)) xs
misnamed-InQueue q_by_id queue id ref xs =
    let k =
      keep-All (λ x. is_misnamed q_by_id (queue x) (id x))
        (λ x. is_misnamed-InQueue q_by_id (queue x) (id x)) xs in
    let e = is_empty-map ref (keep (λ x. is_misnamed q_by_id (queue x) (id x)) xs) in
    (λ h. k.0 (sym e ∙ h), λ h. e ∙ k.1 h)

-- ensureModQueues passes exactly the modifications whose deletes, depends and changes name the
-- queues that their tasks are in.
pub ensure_mod_queues-InQueue :
    (m : Modification) (q_by_id : Dict String String)
    → (ensure_mod_queues m q_by_id ≡ none) ↔ (
        All (λ d. InQueue q_by_id d.queue d.id) m.deletes
        × All (λ d. InQueue q_by_id d.queue d.id) m.depends
        × All (λ c. InQueue q_by_id c.from_queue c.id) m.changes)
unfolding ensure_mod_queues
ensure_mod_queues-InQueue m q_by_id =
    let d =
      misnamed-InQueue q_by_id (λ (t : TaskId). t.queue) (λ t. t.id)
        (λ t. new_task_id t.id t.version t.queue) m.deletes in
    let p =
      misnamed-InQueue q_by_id (λ (t : TaskId). t.queue) (λ t. t.id)
        (λ t. new_task_id t.id t.version t.queue) m.depends in
    let c =
      misnamed-InQueue q_by_id (λ (t : Task). t.from_queue) (λ t. t.id)
        (λ t. new_task_id t.id t.version t.from_queue) m.changes in
    (
      λ h. (d.0 (ground arith), p.0 (ground arith), c.0 (ground arith)),
      λ h. ground (arith, d.1 h.0, p.1 h.1, c.1 h.2),
    )

module _ (heaps : ClaimHeaps) (m : Modification) (now : Time) (st : EqMem heaps) where
  -- The stored tasks that the modification names
  abbrev pub found_for : Dict String Task
  found_for =
      find_tasks heaps st.queues (task_places heaps m (misplaced_inserts st.q_by_id m.inserts)) []

  -- The modification with its arrivals as changes
  abbrev pub with_changes : Modification
  with_changes = arrival_changes m (λ id. lookup id found_for)

  -- Every task operation names the queue that its task is in, every task and doc operation can
  -- proceed, and no doc operation asks for a set of the namespace with no name.
  pub record MayCommit : Type 0 where
    pub namespaces : derefs_nil heaps with_changes ≡ false
    pub deletes : All (λ d. InQueue st.q_by_id d.queue d.id) m.deletes
    pub depends : All (λ d. InQueue st.q_by_id d.queue d.id) m.depends
    pub changes : All (λ c. InQueue st.q_by_id c.from_queue c.id) m.changes
    pub tasks : Proceeds (task_part with_changes) (λ id. lookup id found_for) (λ _. none) now
    pub docs :
        DocsProceed with_changes now
          (doc_in heaps st.namespaces)
          (occupant_of heaps st.namespaces)
          (lock_of heaps st.namespaces)

  accepted_iff :
      ((resp : ModifyResponse) × (st' : EqMem heaps) × (modify_locked heaps m now
            (ensure_mod_queues m st.q_by_id)
            (misplaced_inserts st.q_by_id m.inserts)
            st
          ≡ answered (ok resp) st'))
      ↔ MayCommit
  unfolding modify_locked
  accepted_iff =
      let found : String → Option Task = λ id. lookup id found_for in
      let task_deps = dependency_error (task_part with_changes) found (λ _. none) now in
      let plan =
        evaluate with_changes now (doc_in heaps st.namespaces) (occupant_of heaps st.namespaces)
          (lock_of heaps st.namespaces) in
      let a =
        all_failures-none (ensure_mod_queues m st.q_by_id) task_deps plan.failed
          (ensure_mod_queues-Counts m st.q_by_id)
          (dependency_error-Counts (task_part with_changes) found (λ _. none) now)
          (evaluate-Counts with_changes now (doc_in heaps st.namespaces)
            (occupant_of heaps st.namespaces) (lock_of heaps st.namespaces)) in
      let q = ensure_mod_queues-InQueue m st.q_by_id in
      let t = dependency_error-Proceeds (task_part with_changes) found (λ _. none) now in
      let d =
        evaluate-DocsProceed with_changes now (doc_in heaps st.namespaces)
          (occupant_of heaps st.namespaces) (lock_of heaps st.namespaces) in
      (
        λ (resp, st', e).
            let (no_queue_deps, no_task_deps, no_doc_deps) = a.0 (ground (arith, e)) in
            let (deletes, depends, changes) = q.0 no_queue_deps in
            record {
              namespaces = ground (arith, e);
              deletes = deletes;
              depends = depends;
              changes = changes;
              tasks = t.0 no_task_deps;
              docs = d.0 no_doc_deps;
            },
        λ c.
            let passed = a.1 (q.1 (c.deletes, c.depends, c.changes), t.1 c.tasks, d.1 c.docs) in
            let done = commit heaps with_changes now found_for plan st in
            (done.0, done.1, ground (arith, c.namespaces, passed)),
      )

  -- The change leaves the stored task that arrives as it is, in its queue, but for the arrival and
  -- the version that the arrival names.
  abbrev pub KeepsStored : TaskArrival → Task → Type 0
  KeepsStored a c =
      a.queue ≢ ""
      → a.id ≢ ""
      → (t : Task) → task_in heaps a.queue a.id st.queues ≡ some t
      → (c.id ≡ t.id)
        × (c.value ≡ t.value)
        × (c.attempt ≡ t.attempt)
        × (c.err ≡ t.err)
        × (c.version ≡ a.version)
        × (c.queue ≡ a.queue)
        × (c.from_queue ≡ a.queue)
        × (c.by ≡ a.by)

  abbrev pub AllKeepStored : List TaskArrival → List Task → Type 0
  AllKeepStored [] [] = Unit
  AllKeepStored (a ∷ rest) (c ∷ cs) = KeepsStored a c × AllKeepStored rest cs
  AllKeepStored _ _ = ⊥

  arrival-KeepsStored :
      (a : TaskArrival)
      → Sees heaps st.queues found_for a.queue a.id
      → KeepsStored a (arrival_change a (lookup a.id found_for))
  unfolding arrival_change
  arrival-KeepsStored a sees named with_id t e =
      rw (sees named with_id t e, arrival_change) (refl, refl, refl, refl, refl, refl, refl, refl)

  arrivals-AllKeepStored :
      (arrives : List TaskArrival)
      → All (λ (a : TaskArrival). Sees heaps st.queues found_for a.queue a.id) arrives
      → AllKeepStored arrives (map (λ a. arrival_change a (lookup a.id found_for)) arrives)
  arrivals-AllKeepStored [] all = tt
  arrivals-AllKeepStored (a ∷ rest) all =
      (arrival-KeepsStored a all.0, arrivals-AllKeepStored rest all.1)

  -- The changes that are checked are those of the modification and one for each arrival.
  abbrev pub ArrivalsAsChanges : Type 0
  ArrivalsAsChanges =
      (cs : List Task) × (with_changes.changes ≡ m.changes ++ cs) × AllKeepStored m.arrives cs

  with_changes-ArrivalsAsChanges :
      (arrives : List TaskArrival)
      → m.arrives ≡ arrives
      → FindsStored heaps st.queues st.q_by_id m found_for
      → ArrivalsAsChanges
  unfolding arrival_changes
  with_changes-ArrivalsAsChanges arrives e finds = (
    map (λ a. arrival_change a (lookup a.id found_for)) m.arrives,
    by_arrives arrives e,
    arrivals-AllKeepStored m.arrives finds.arrives,
  )
    where
      by_arrives :
          (given : List TaskArrival)
          → m.arrives ≡ given
          → with_changes.changes
            ≡ m.changes ++ map (λ a. arrival_change a (lookup a.id found_for)) m.arrives
      by_arrives [] f = rw (f, arrival_changes) (sym (append-nil m.changes))
      by_arrives (a ∷ rest) f = rw (f, arrival_changes) refl

  -- Under its locks, on queues that file each task under its ID and each ID in one queue, the
  -- backend commits a modification exactly when MayCommit holds of it and of the tasks and docs that
  -- it finds. The tasks that it finds are stored, and among them are all that a delete, depend,
  -- change or arrival names in its queue, and for an insert the task with its ID in its own queue
  -- and in the queue that the index has. An arrival is checked as a change that leaves the stored
  -- task as it is, at the version and the arrival that are asked for.
  pub modify_locked-MayCommit :
      IsFiled heaps st.queues
      → (((resp : ModifyResponse) × (st' : EqMem heaps) × (modify_locked heaps m now
                (ensure_mod_queues m st.q_by_id)
                (misplaced_inserts st.q_by_id m.inserts)
                st
              ≡ answered (ok resp) st'))
          ↔ MayCommit)
        × FindsStored heaps st.queues st.q_by_id m found_for
        × ArrivalsAsChanges
  modify_locked-MayCommit filed =
      let finds = find_tasks-FindsStored heaps st.queues st.q_by_id m filed in
      (accepted_iff, finds, with_changes-ArrivalsAsChanges m.arrives refl finds)
