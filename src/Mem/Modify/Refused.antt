-- ===== src/Mem/Modify/Refused.antt =====
-- A modification that is refused leaves the in-memory backend as it was.
use entroq.Base.{
  Time, Dict, lookup, lookup-insert, lookup-erase, is_empty, string_eq, nat_eq, String, ◌≡◌, refl,
  ap, ◌∙◌, ◌⊎◌, inl, inr, true, Option, none, some, List, [], ◌∷◌, arith,
}
use entroq.Task.{Task}
use entroq.Doc.{Doc}
use entroq.Errors.{DependencyError, Failure, err}
use entroq.Modification.{Modification, set_name_eq}
use entroq.DocSets.{Lock}
use entroq.Mem.{
  ClaimHeaps, QueueLock, DocNamespace, EqMem, new_queue, lock_queue, lock_queues, unlock_queue,
  unlock_queues, task_in,
}
use entroq.Mem.Prepare.{ensure_mod_queues, misplaced_inserts, queue_names, namespace_names}
use entroq.Mem.Found.{
  Queues, Namespaces, lock_namespace, lock_namespaces, unlock_namespace, unlock_namespaces,
}
use entroq.Mem.Modify.{
  ModifyOutcome, unlocked, modify_locked, unlock_outcome, modify_impl, modify, answered, crashed,
}

module _ (heaps : ClaimHeaps) where
  task_in-lock_queue :
      (p q id : String) (queues : Queues heaps)
      → task_in heaps q id (lock_queue heaps p queues) ≡ task_in heaps q id queues
  unfolding task_in lock_queue lookup
  task_in-lock_queue p q id queues = ground (arith, lookup-insert p q (new_queue heaps) queues)

  task_in-lock_queues :
      (ps : List String) (q id : String) (queues : Queues heaps)
      → task_in heaps q id (lock_queues heaps ps queues) ≡ task_in heaps q id queues
  unfolding lock_queues
  task_in-lock_queues [] q id queues = refl
  task_in-lock_queues (p ∷ ps) q id queues =
      task_in-lock_queues ps q id (lock_queue heaps p queues) ∙ task_in-lock_queue p q id queues

  lookup-empty :
      (id : String) (tasks : Dict String Task) → is_empty tasks ≡ true → lookup id tasks ≡ none
  unfolding lookup
  lookup-empty id [] h = refl
  lookup-empty id (x ∷ tasks) h = ground arith

  task_in-unlock_queue :
      (p q id : String) (queues : Queues heaps)
      → task_in heaps q id (unlock_queue heaps p queues) ≡ task_in heaps q id queues
  unfolding task_in unlock_queue
  task_in-unlock_queue p q id queues = by_lookup (lookup p queues) refl
    where
      by_lookup :
          (o : Option (QueueLock heaps))
          → lookup p queues ≡ o
          → task_in heaps q id (unlock_queue heaps p queues) ≡ task_in heaps q id queues
      by_lookup none e = ground (arith, e)
      by_lookup (some ql) e = ground (arith, e, lookup-erase p q queues, lookup-empty id ql.tasks)

  task_in-unlock_queues :
      (ps : List String) (q id : String) (queues : Queues heaps)
      → task_in heaps q id (unlock_queues heaps ps queues) ≡ task_in heaps q id queues
  unfolding unlock_queues
  task_in-unlock_queues [] q id queues = refl
  task_in-unlock_queues (p ∷ ps) q id queues =
      task_in-unlock_queue p q id (unlock_queues heaps ps queues)
      ∙ task_in-unlock_queues ps q id queues

  -- A doc or a lock of a namespace that may be missing
  abbrev doc_at : String → Option (DocNamespace heaps) → Option Doc
  doc_at id none = none
  doc_at id (some nl) = lookup id nl.by_id

  abbrev lock_at : String → Option (DocNamespace heaps) → Option Lock
  lock_at key none = none
  lock_at key (some nl) = lookup key nl.locks

  -- What a namespace stores, found under a name
  unfoldable pub doc_found : String → String → Namespaces heaps → Option Doc
  doc_found n id nss = doc_at id (lookup n nss)

  unfoldable pub lock_found : String → String → Namespaces heaps → Option Lock
  lock_found n key nss = lock_at key (lookup n nss)

  lookup-is_empty :
      {V : Type 0} (k : String) (d : Dict String V) → is_empty d ≡ true → lookup k d ≡ none
  unfolding lookup
  lookup-is_empty k [] h = refl
  lookup-is_empty k (x ∷ d) h = ground arith

  same-lock_namespace :
      (p n k : String) (nss : Namespaces heaps)
      → (doc_found n k (lock_namespace heaps p nss) ≡ doc_found n k nss)
        × (lock_found n k (lock_namespace heaps p nss) ≡ lock_found n k nss)
  unfolding doc_found lock_found lock_namespace lookup
  same-lock_namespace p n k nss =
      let e = lookup-insert p n (record { by_id = []; locks = [] }) nss in
      (ground (arith, e), ground (arith, e))

  same-lock_namespaces :
      (ps : List String) (n k : String) (nss : Namespaces heaps)
      → (doc_found n k (lock_namespaces heaps ps nss) ≡ doc_found n k nss)
        × (lock_found n k (lock_namespaces heaps ps nss) ≡ lock_found n k nss)
  unfolding lock_namespaces
  same-lock_namespaces [] n k nss = (refl, refl)
  same-lock_namespaces (p ∷ ps) n k nss =
      let (a, b) = same-lock_namespaces ps n k (lock_namespace heaps p nss) in
      let (c, d) = same-lock_namespace p n k nss in (a ∙ c, b ∙ d)

  same-unlock_namespace :
      (p n k : String) (nss : Namespaces heaps)
      → (doc_found n k (unlock_namespace heaps p nss) ≡ doc_found n k nss)
        × (lock_found n k (unlock_namespace heaps p nss) ≡ lock_found n k nss)
  unfolding doc_found lock_found unlock_namespace
  same-unlock_namespace p n k nss = by_lookup (lookup p nss) refl
    where
      by_lookup :
          (o : Option (DocNamespace heaps))
          → lookup p nss ≡ o
          → (doc_found n k (unlock_namespace heaps p nss) ≡ doc_found n k nss)
            × (lock_found n k (unlock_namespace heaps p nss) ≡ lock_found n k nss)
      by_lookup none e = (ground (arith, e), ground (arith, e))
      by_lookup (some nl) e = (
        ground (arith, e, lookup-erase p n nss, lookup-is_empty k nl.by_id),
        ground (arith, e, lookup-erase p n nss, lookup-is_empty k nl.locks),
      )

  same-unlock_namespaces :
      (ps : List String) (n k : String) (nss : Namespaces heaps)
      → (doc_found n k (unlock_namespaces heaps ps nss) ≡ doc_found n k nss)
        × (lock_found n k (unlock_namespaces heaps ps nss) ≡ lock_found n k nss)
  unfolding unlock_namespaces
  same-unlock_namespaces [] n k nss = (refl, refl)
  same-unlock_namespaces (p ∷ ps) n k nss =
      let (a, b) = same-unlock_namespace p n k (unlock_namespaces heaps ps nss) in
      let (c, d) = same-unlock_namespaces ps n k nss in (a ∙ c, b ∙ d)

  -- The same tasks, the same index, the same docs and the same locks are found.
  pub record SameStore (st st' : EqMem heaps) : Type 0 where
    pub tasks : (q id : String) → task_in heaps q id st'.queues ≡ task_in heaps q id st.queues
    pub index : st'.q_by_id ≡ st.q_by_id
    pub docs : (n id : String) → doc_found n id st'.namespaces ≡ doc_found n id st.namespaces
    pub locks : (n key : String) → lock_found n key st'.namespaces ≡ lock_found n key st.namespaces

  abbrev locked : List String → List String → EqMem heaps → EqMem heaps
  locked qs ns st = record st {
    queues = lock_queues heaps qs st.queues;
    namespaces = lock_namespaces heaps ns st.namespaces;
  }

  relocked-SameStore :
      (qs ns : List String) (st st' : EqMem heaps)
      → st' ≡ unlocked heaps qs ns (locked qs ns st)
      → SameStore st st'
  relocked-SameStore qs ns st st' e = rw e (record {
    tasks = λ q id.
        task_in-unlock_queues qs q id (lock_queues heaps qs st.queues)
        ∙ task_in-lock_queues qs q id st.queues;
    index = refl;
    docs = λ n k.
        (same-unlock_namespaces ns n k (lock_namespaces heaps ns st.namespaces)).0
        ∙ (same-lock_namespaces ns n k st.namespaces).0;
    locks = λ n k.
        (same-unlock_namespaces ns n k (lock_namespaces heaps ns st.namespaces)).1
        ∙ (same-lock_namespaces ns n k st.namespaces).1;
  })

  same : (st st' : EqMem heaps) → st' ≡ st → SameStore st st'
  same st st' e =
      rw e (record { tasks = λ q id. refl; index = refl; docs = λ n k. refl; locks = λ n k. refl })

  unlock_outcome-refused :
      (qs ns : List String) (o : ModifyOutcome heaps) (why : Failure) (st' : EqMem heaps)
      → unlock_outcome heaps qs ns o ≡ answered (err why) st'
      → (st : EqMem heaps) × (o ≡ answered (err why) st) × (st' ≡ unlocked heaps qs ns st)
  unlock_outcome-refused qs ns (answered r st) why st' h = (st, ground arith, ground arith)
  unlock_outcome-refused qs ns crashed why st' h = ground arith

  modify_locked-refused :
      (m : Modification) (now : Time) (queue_deps : Option DependencyError)
      (misplaced : Dict String String) (st : EqMem heaps) (why : Failure) (st' : EqMem heaps)
      → modify_locked heaps m now queue_deps misplaced st ≡ answered (err why) st'
      → st' ≡ st
  unfolding modify_locked
  modify_locked-refused m now queue_deps misplaced st why st' h = ground arith

  abbrev misplaced_in : EqMem heaps → Modification → Dict String String
  misplaced_in st m = misplaced_inserts st.q_by_id m.inserts

  abbrev names_in : EqMem heaps → Modification → List String
  names_in st m = queue_names m (misplaced_in st m)

  refused-cases :
      (m : Modification) (now : Time) (st st' : EqMem heaps) (why : Failure)
      → modify heaps m now st ≡ answered (err why) st'
      → (st' ≡ st)
        ⊎ (unlock_outcome heaps (names_in st m) (namespace_names m) (
              modify_locked heaps m now
                (ensure_mod_queues m st.q_by_id)
                (misplaced_in st m)
                (locked (names_in st m) (namespace_names m) st))
            ≡ answered (err why) st')
  unfolding modify modify_impl
  refused-cases m now st st' why h = ground arith

  -- A modification that is refused, for whatever reason, changes nothing that is stored: every
  -- task, every doc and every lock is found as before, and so is the queue of every task.
  pub modify-SameStore :
      (m : Modification) (now : Time) (st st' : EqMem heaps) (why : Failure)
      → modify heaps m now st ≡ answered (err why) st'
      → SameStore st st'
  modify-SameStore m now st st' why h = elim (refused-cases m now st st' why h) [
    | inl e ↦ same st st' e
    | inr e ↦
        let (st₂, inner, unlocks) =
          unlock_outcome-refused (names_in st m) (namespace_names m) _ why st' e in
        let kept =
          modify_locked-refused m now (ensure_mod_queues m st.q_by_id) (misplaced_in st m)
            (locked (names_in st m) (namespace_names m) st) why st₂ inner in
        relocked-SameStore (names_in st m) (namespace_names m) st st'
          (unlocks ∙ ap (unlocked heaps (names_in st m) (namespace_names m)) kept)
  ]
