-- ===== src/Mem/Writes.antt =====
-- The writes of Modify on the in-memory backend: queueUnsafeInsertTask and its like in eqmem.go, and
-- docnamespace.go.
use entroq.Base.{
  Time, Dict, lookup, insert, erase, get_or, if◌then◌else◌, any, string_eq, nat_eq, ◌==◌, String,
  Bool, not, ◌&&◌, ◌||◌, none, some, List, [], ◌∷◌,
}
use entroq.Task.{TaskId, TaskData, Task, new_task}
use entroq.Doc.{DocId, is_set_ref, DocData, Doc}
use entroq.Modification.{Modification, SetName, set_name_eq}
use entroq.DocSets.{Lock, Plan}
use entroq.Mem.Prepare.{changed_task, inserted_task, changed_doc, inserted_doc}
use entroq.Mem.Found.{Queues, Namespaces, doc_in, lock_of}
use entroq.Mem.{ClaimHeaps, QueueLock, DocNamespace}

module _ (heaps : ClaimHeaps) where
  -- The queues and qByID, which the deferred steps write at the end and nothing reads in between
  abbrev pub Tables : Type 0
  Tables = Queues heaps × Dict String String

  -- A write under the lock of a queue, which the modification holds
  abbrev pub on_queue : String → (QueueLock heaps → QueueLock heaps) → Queues heaps → Queues heaps
  on_queue q f queues = elim (lookup q queues) [ none ↦ queues | some ql ↦ insert q (f ql) queues ]

  -- queueUnsafeDeleteID
  unfoldable pub delete_id : String → String → Tables → Tables
  delete_id q id (queues, index) = (
    on_queue q (λ ql. record { heap = heaps.remove_id id ql.heap; tasks = erase id ql.tasks })
        queues,
    erase id index,
  )

  -- queueUnsafeInsertTask
  unfoldable pub insert_task : Task → Tables → Tables
  insert_task t (queues, index) = (
    on_queue t.queue
        (λ ql. record { heap = heaps.push_item t.id t.at ql.heap; tasks = insert t.id t ql.tasks })
        queues,
    insert t.id t.queue index,
  )

  -- queueUnsafeUpdateTask, for a task that the heap has
  unfoldable pub update_task : Task → Tables → Tables
  update_task t (queues, index) = (
    on_queue t.queue
        (λ ql. record { heap = heaps.update_id t.id t.at ql.heap; tasks = insert t.id t ql.tasks })
        queues,
    index,
  )

  -- The loop over deletes
  unfoldable pub apply_deletes : List TaskId → Tables → Tables
  apply_deletes [] tables = tables
  apply_deletes (d ∷ rest) tables = apply_deletes rest (delete_id d.queue d.id tables)

  -- The end of the loop's body over changes
  unfoldable pub apply_change : Task → Task → Tables → Tables
  apply_change c t tables =
      if not (c.from_queue == c.queue)
      then insert_task t (delete_id c.from_queue c.id tables)
      else update_task t tables

  -- The loop over changes; what a change names is found, or the modification was refused.
  unfoldable pub apply_changes :
      Modification → Time → Dict String Task → List Task → Tables → Tables
  apply_changes m now found [] tables = tables
  apply_changes m now found (c ∷ rest) tables =
      apply_changes m now found rest
        (apply_change c (changed_task m now (get_or c.id new_task found) c) tables)

  -- The loop over inserts
  unfoldable pub apply_inserts : Modification → Time → List TaskData → Tables → Tables
  apply_inserts m now [] tables = tables
  apply_inserts m now (td ∷ rest) tables =
      apply_inserts m now rest (insert_task (inserted_task m now td) tables)

  abbrev pub on_namespace :
      String → (DocNamespace heaps → DocNamespace heaps) → Namespaces heaps → Namespaces heaps
  on_namespace n f nss = elim (lookup n nss) [ none ↦ nss | some nl ↦ insert n (f nl) nss ]

  -- docNamespace.Set, Delete and SetLock
  abbrev pub set_doc : Doc → Namespaces heaps → Namespaces heaps
  set_doc d = on_namespace d.ns (λ nl. record nl { by_id = insert d.id d nl.by_id })

  abbrev pub delete_doc_id : String → String → Namespaces heaps → Namespaces heaps
  delete_doc_id n id = on_namespace n (λ nl. record nl { by_id = erase id nl.by_id })

  abbrev pub set_lock : SetName → Lock → Namespaces heaps → Namespaces heaps
  set_lock g l = on_namespace g.0 (λ nl. record nl { locks = insert g.1 l nl.locks })

  unfoldable pub delete_docs : List DocId → Namespaces heaps → Namespaces heaps
  delete_docs [] nss = nss
  delete_docs (d ∷ rest) nss = delete_docs rest (delete_doc_id d.ns d.id nss)

  unfoldable pub set_docs : List Doc → Namespaces heaps → Namespaces heaps
  set_docs [] nss = nss
  set_docs (d ∷ rest) nss = set_docs rest (set_doc d nss)

  unfoldable pub set_locks : Dict SetName Lock → Namespaces heaps → Namespaces heaps
  set_locks [] nss = nss
  set_locks ((g, l) ∷ rest) nss = set_locks rest (set_lock g l nss)

  -- The lock that `withLock` reads
  abbrev pub lock_after : Plan → Namespaces heaps → SetName → Lock
  lock_after plan nss g = get_or g (lock_of heaps nss g) plan.locks

  -- The doc that a change leaves, under the key of the stored one
  abbrev pub changed_in : Plan → Namespaces heaps → Time → Doc → Doc
  changed_in plan nss now c = elim (doc_in heaps nss c.ns c.id) [
    | none ↦ changed_doc now (lock_after plan nss (c.ns, c.key)) none c
    | some old ↦ changed_doc now (lock_after plan nss (c.ns, old.key)) (some old) c
  ]

  abbrev pub inserted_in : Plan → Namespaces heaps → Time → DocData → Doc
  inserted_in plan nss now d = inserted_doc now (lock_after plan nss (d.ns, d.key)) d

  -- A doc operation that asks for the lock of a set in a namespace with no name, which no lock is
  -- taken of: Go's `byNS[g.Namespace].docs` is then a nil dereference.
  abbrev pub derefs_nil : Modification → Bool
  derefs_nil m =
      any (λ i. i.ns == "") m.doc_inserts
      || any (λ a. a.ns == "") m.doc_arrives
      || any (λ d. is_set_ref d && (d.ns == "")) m.doc_depends
