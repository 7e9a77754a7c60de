-- ===== src/Mem/Modify/Indexes.antt =====
-- The writes of a modification keep the heaps and the task stores in agreement.
use entroq.Base.{
  Time, Dict, lookup, insert, erase, lookup-insert, lookup-erase, get_or, is_some, All, Distinct,
  string_eq, nat_eq, ◌==◌, String, ◌≡◌, refl, sym, ap, ◌∙◌, ◌≢◌, Bool, true, false, Option, none,
  some, List, [], ◌∷◌, map, arith,
}
use entroq.Task.{TaskId, TaskData, Task, new_task}
use entroq.Modification.{Modification, set_name_eq}
use entroq.Mem.{ClaimHeaps, QueueLock, task_in}
use entroq.Mem.Claims.{Indexed, IndexedIn, AllIndexed, IndexedIn-insert}
use entroq.Mem.Prepare.{changed_task, inserted_task}
use entroq.Mem.Found.{Queues}
use entroq.Mem.Writes.{
  Tables, on_queue, delete_id, insert_task, update_task, apply_deletes, apply_change, apply_changes,
  apply_inserts,
}

module _ (heaps : ClaimHeaps) where
  AllIndexed-same : (a b : Queues heaps) → a ≡ b → AllIndexed heaps b → AllIndexed heaps a
  AllIndexed-same a b e all = rw e all

  -- A write of a queue's lock keeps the agreement where the lock that is written agrees.
  on_queue-AllIndexed :
      (q : String) (f : QueueLock heaps → QueueLock heaps) (queues : Queues heaps)
      → AllIndexed heaps queues
      → ((ql : QueueLock heaps)
          → lookup q queues ≡ some ql
          → Indexed heaps ql
          → Indexed heaps (f ql))
      → AllIndexed heaps (on_queue heaps q f queues)
  on_queue-AllIndexed q f queues all keeps = by_lookup (lookup q queues) refl (all q)
    where
      by_lookup :
          (o : Option (QueueLock heaps))
          → lookup q queues ≡ o
          → IndexedIn heaps o
          → AllIndexed heaps (on_queue heaps q f queues)
      by_lookup none e i = AllIndexed-same _ queues (ground (arith, e)) all
      by_lookup (some ql) e i =
          AllIndexed-same _ (insert q (f ql) queues) (ground (arith, e))
            (λ p. IndexedIn-insert heaps q p (f ql) queues (keeps ql e i) all)

  delete_id-AllIndexed :
      (q id : String) (tables : Tables heaps)
      → AllIndexed heaps tables.0
      → AllIndexed heaps (delete_id heaps q id tables).0
  unfolding delete_id
  delete_id-AllIndexed q id tables all = on_queue-AllIndexed q _ tables.0 all (λ ql e i. (
    heaps.remove-IsSound id ql.heap i.0,
    λ k. ground (arith, heaps.arrival-remove id k ql.heap i.0, lookup-erase id k ql.tasks, i.1 k),
  ))

  insert_task-AllIndexed :
      (t : Task) (tables : Tables heaps)
      → task_in heaps t.queue t.id tables.0 ≡ none
      → AllIndexed heaps tables.0
      → AllIndexed heaps (insert_task heaps t tables).0
  unfolding insert_task task_in
  insert_task-AllIndexed t tables absent all = on_queue-AllIndexed t.queue _ tables.0 all (λ ql e i.
      (
        heaps.push-IsSound t.id t.at ql.heap i.0 (ground (arith, i.1 t.id, absent, e)),
        λ k. ground (
          arith,
          heaps.arrival-push t.id k t.at ql.heap i.0,
          lookup-insert t.id k t ql.tasks,
          i.1 k,
        ),
      ))

  update_task-AllIndexed :
      (t old : Task) (tables : Tables heaps)
      → task_in heaps t.queue t.id tables.0 ≡ some old
      → AllIndexed heaps tables.0
      → AllIndexed heaps (update_task heaps t tables).0
  unfolding update_task task_in
  update_task-AllIndexed t old tables stored all =
      on_queue-AllIndexed t.queue _ tables.0 all (λ ql e i. (
        heaps.update-IsSound t.id t.at ql.heap i.0,
        λ k. ground (
          arith,
          e,
          stored,
          heaps.arrival-update t.id k t.at old.at ql.heap i.0,
          i.1 t.id,
          lookup-insert t.id k t ql.tasks,
          i.1 k,
        ),
      ))

  -- A write of one task's entry in a queue leaves the other tasks.
  task_in-on_queue :
      (p q id : String) (f : QueueLock heaps → QueueLock heaps) (queues : Queues heaps)
      → ((ql : QueueLock heaps) → lookup id (f ql).tasks ≡ lookup id ql.tasks)
      → task_in heaps q id (on_queue heaps p f queues) ≡ task_in heaps q id queues
  unfolding task_in
  task_in-on_queue p q id f queues keeps = by_lookup (lookup p queues) refl
    where
      by_lookup :
          (o : Option (QueueLock heaps))
          → lookup p queues ≡ o
          → task_in heaps q id (on_queue heaps p f queues) ≡ task_in heaps q id queues
      by_lookup none e = ground (arith, e)
      by_lookup (some ql) e = ground (arith, e, lookup-insert p q (f ql) queues, keeps ql)

  task_in-delete_id :
      (p q k id : String) (tables : Tables heaps)
      → k ≢ id
      → task_in heaps q id (delete_id heaps p k tables).0 ≡ task_in heaps q id tables.0
  unfolding delete_id
  task_in-delete_id p q k id tables other =
      task_in-on_queue p q id _ tables.0 (λ ql. ground (arith, other, lookup-erase k id ql.tasks))

  task_in-insert_task :
      (t : Task) (q id : String) (tables : Tables heaps)
      → t.id ≢ id
      → task_in heaps q id (insert_task heaps t tables).0 ≡ task_in heaps q id tables.0
  unfolding insert_task
  task_in-insert_task t q id tables other =
      task_in-on_queue t.queue q id _ tables.0
        (λ ql. ground (arith, other, lookup-insert t.id id t ql.tasks))

  task_in-update_task :
      (t : Task) (q id : String) (tables : Tables heaps)
      → t.id ≢ id
      → task_in heaps q id (update_task heaps t tables).0 ≡ task_in heaps q id tables.0
  unfolding update_task
  task_in-update_task t q id tables other =
      task_in-on_queue t.queue q id _ tables.0
        (λ ql. ground (arith, other, lookup-insert t.id id t ql.tasks))

  apply_deletes-AllIndexed :
      (ds : List TaskId) (tables : Tables heaps)
      → AllIndexed heaps tables.0
      → AllIndexed heaps (apply_deletes heaps ds tables).0
  unfolding apply_deletes
  apply_deletes-AllIndexed [] tables all = all
  apply_deletes-AllIndexed (d ∷ ds) tables all =
      apply_deletes-AllIndexed ds _ (delete_id-AllIndexed d.queue d.id tables all)

  -- A queue does not have the task.
  abbrev pub IsNew : Queues heaps → TaskData → Type 0
  IsNew queues td = task_in heaps td.queue td.id queues ≡ none

  inserted_task-names :
      (m : Modification) (now : Time) (td : TaskData)
      → ((inserted_task m now td).id ≡ td.id) × ((inserted_task m now td).queue ≡ td.queue)
  unfolding inserted_task
  inserted_task-names m now td = (refl, refl)

  still-IsNew :
      (t : Task) (tds : List TaskData) (tables : Tables heaps)
      → All (λ i. i ≢ t.id) (map (λ td. td.id) tds)
      → All (IsNew tables.0) tds
      → All (IsNew (insert_task heaps t tables).0) tds
  still-IsNew t [] tables others new = tt
  still-IsNew t (td ∷ tds) tables others new = (
    task_in-insert_task t td.queue td.id tables (λ e. others.0 (sym e)) ∙ new.0,
    still-IsNew t tds tables others.1 new.1,
  )

  apply_inserts-AllIndexed :
      (m : Modification) (now : Time) (tds : List TaskData) (tables : Tables heaps)
      → Distinct (map (λ td. td.id) tds)
      → All (IsNew tables.0) tds
      → AllIndexed heaps tables.0
      → AllIndexed heaps (apply_inserts heaps m now tds tables).0
  unfolding apply_inserts inserted_task
  apply_inserts-AllIndexed m now [] tables distinct new all = all
  apply_inserts-AllIndexed m now (td ∷ tds) tables distinct new all =
      let t = inserted_task m now td in
      apply_inserts-AllIndexed m now tds _ distinct.1 (still-IsNew t tds tables distinct.0 new.1)
        (insert_task-AllIndexed t tables new.0 all)

  -- The task that a change names is in the queue that it names as its source, and where that is
  -- another, not in its destination.
  abbrev pub Present : Queues heaps → Task → Type 0
  Present queues c =
      (is_some (task_in heaps c.from_queue c.id queues) ≡ true)
      × (c.from_queue ≢ c.queue → task_in heaps c.queue c.id queues ≡ none)

  task_in-other_queue :
      (p q k id : String) (tables : Tables heaps)
      → p ≢ q
      → task_in heaps q id (delete_id heaps p k tables).0 ≡ task_in heaps q id tables.0
  unfolding delete_id task_in
  task_in-other_queue p q k id tables other = by_lookup (lookup p tables.0) refl
    where
      by_lookup :
          (o : Option (QueueLock heaps))
          → lookup p tables.0 ≡ o
          → task_in heaps q id (delete_id heaps p k tables).0 ≡ task_in heaps q id tables.0
      by_lookup none e = ground (arith, e)
      by_lookup (some ql) e = ground (
        arith,
        e,
        other,
        lookup-insert p q (record { heap = heaps.remove_id k ql.heap; tasks = erase k ql.tasks })
            tables.0,
      )

  stored_of : (o : Option Task) → is_some o ≡ true → (t : Task) × (o ≡ some t)
  stored_of none h = ground arith
  stored_of (some t) h = (t, refl)

  apply_change-AllIndexed :
      (c t : Task) (tables : Tables heaps)
      → t.id ≡ c.id
      → t.queue ≡ c.queue
      → Present tables.0 c
      → AllIndexed heaps tables.0
      → AllIndexed heaps (apply_change heaps c t tables).0
  unfolding apply_change
  apply_change-AllIndexed c t tables same_id same_queue present all =
      by_queue (c.from_queue == c.queue) refl
    where
      by_queue :
          (b : Bool)
          → (c.from_queue == c.queue) ≡ b
          → AllIndexed heaps (apply_change heaps c t tables).0
      by_queue true e =
          let (old, stored) = stored_of _ present.0 in
          AllIndexed-same _ (update_task heaps t tables).0 (ground (arith, e)) (
            update_task-AllIndexed t old tables (ground (arith, e, stored, same_id, same_queue))
              all)
      by_queue false e =
          let apart : c.from_queue ≢ c.queue = ground (arith, e) in
          let gone = task_in-other_queue c.from_queue c.queue c.id c.id tables apart in
          let absent : task_in heaps t.queue t.id (delete_id heaps c.from_queue c.id tables).0
              ≡ none =
            rw (same_id, same_queue) (gone ∙ present.1 apart) in
          AllIndexed-same _ (insert_task heaps t (delete_id heaps c.from_queue c.id tables)).0
            (ground (arith, e))
            (insert_task-AllIndexed t (delete_id heaps c.from_queue c.id tables) absent
              (delete_id-AllIndexed c.from_queue c.id tables all))

  task_in-apply_change :
      (c t : Task) (q id : String) (tables : Tables heaps)
      → t.id ≡ c.id
      → id ≢ c.id
      → task_in heaps q id (apply_change heaps c t tables).0 ≡ task_in heaps q id tables.0
  unfolding apply_change
  task_in-apply_change c t q id tables same_id other =
      let moved = delete_id heaps c.from_queue c.id tables in
      let not_c : c.id ≢ id = λ e. other (sym e) in
      let not_t : t.id ≢ id = λ e. other (sym e ∙ same_id) in
      ground (
        arith,
        task_in-update_task t q id tables not_t,
        task_in-insert_task t q id moved not_t,
        task_in-delete_id c.from_queue q c.id id tables not_c,
      )

  still-Present :
      (c t : Task) (cs : List Task) (tables : Tables heaps)
      → t.id ≡ c.id
      → All (λ i. i ≢ c.id) (map (λ c'. c'.id) cs)
      → All (Present tables.0) cs
      → All (Present (apply_change heaps c t tables).0) cs
  still-Present c t [] tables same_id others present = tt
  still-Present c t (c' ∷ cs) tables same_id others present = (
    (
      ap is_some (task_in-apply_change c t c'.from_queue c'.id tables same_id others.0)
          ∙ present.0.0,
      λ apart. task_in-apply_change c t c'.queue c'.id tables same_id others.0 ∙ present.0.1 apart,
    ),
    still-Present c t cs tables same_id others.1 present.1,
  )

  changed_task-names :
      (m : Modification) (now : Time) (old c : Task)
      → ((changed_task m now old c).id ≡ c.id) × ((changed_task m now old c).queue ≡ c.queue)
  unfolding changed_task
  changed_task-names m now old c = (refl, refl)

  still-IsNew-change :
      (c t : Task) (tds : List TaskData) (tables : Tables heaps)
      → t.id ≡ c.id
      → All (λ i. i ≢ c.id) (map (λ td. td.id) tds)
      → All (IsNew tables.0) tds
      → All (IsNew (apply_change heaps c t tables).0) tds
  still-IsNew-change c t [] tables same_id others new = tt
  still-IsNew-change c t (td ∷ tds) tables same_id others new = (
    task_in-apply_change c t td.queue td.id tables same_id others.0 ∙ new.0,
    still-IsNew-change c t tds tables same_id others.1 new.1,
  )

  -- The loops that write tasks leave every queue's heap sound and in agreement with its tasks, where
  -- they were so, each change names a task that is in its source queue and in no other that it names
  -- once the deletes are done, no insert names a task that is in its queue then, and no two changes
  -- or inserts name one task.
  pub writes-AllIndexed :
      (m : Modification) (now : Time) (found : Dict String Task) (tables : Tables heaps)
      → AllIndexed heaps tables.0
      → Distinct (map (λ c. c.id) m.changes)
      → Distinct (map (λ i. i.id) m.inserts)
      → All (λ c. All (λ i. i ≢ c.id) (map (λ i. i.id) m.inserts)) m.changes
      → All (Present (apply_deletes heaps m.deletes tables).0) m.changes
      → All (IsNew (apply_deletes heaps m.deletes tables).0) m.inserts
      → AllIndexed heaps
          (apply_inserts heaps m now m.inserts
            (apply_changes heaps m now found m.changes (apply_deletes heaps m.deletes tables))).0
  unfolding apply_changes
  writes-AllIndexed m now found tables all distinct distinct_inserts apart present new =
      let (all', new') =
        over m.changes _ (apply_deletes-AllIndexed m.deletes tables all) distinct apart present
          new in
      apply_inserts-AllIndexed m now m.inserts _ distinct_inserts new' all'
    where
      over :
          (cs : List Task) (ts : Tables heaps)
          → AllIndexed heaps ts.0
          → Distinct (map (λ c. c.id) cs)
          → All (λ c. All (λ i. i ≢ c.id) (map (λ i. i.id) m.inserts)) cs
          → All (Present ts.0) cs
          → All (IsNew ts.0) m.inserts
          → AllIndexed heaps (apply_changes heaps m now found cs ts).0
            × All (IsNew (apply_changes heaps m now found cs ts).0) m.inserts
      over [] ts all' d a p n = (all', n)
      over (c ∷ cs) ts all' d a p n =
          let t = changed_task m now (get_or c.id new_task found) c in
          let (same_id, same_queue) = changed_task-names m now (get_or c.id new_task found) c in
          over cs _ (apply_change-AllIndexed c t ts same_id same_queue p.0 all') d.1 a.1
            (still-Present c t cs ts same_id d.0 p.1)
            (still-IsNew-change c t m.inserts ts same_id a.0 n)
