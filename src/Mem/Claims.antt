-- ===== src/Mem/Claims.antt =====
-- What a claim on the in-memory backend takes.
use entroq.Base.{
  Time, add, Dict, lookup, insert, lookup-insert, leb, if◌then◌else◌, All, is_empty, string_eq,
  nat_eq, ◌==◌, ◌≤◌, ◌<◌, String, ◌≡◌, refl, sym, ◌∙◌, ◌⊎◌, inl, inr, Bool, true, false, ◌&&◌,
  Option, none, some, List, [], ◌∷◌, arith,
}
use entroq.Task.{Task}
use entroq.Validate.{ClaimQuery, place_eq}
use entroq.Mem.{
  took, nothing, ClaimHeaps, QueueLock, EqMem, lock_queue, unlock_queue, task_in, claimed_task,
  ClaimOutcome, take_task, must_try_claim_one, Turn, try_claim_loop,
}

-- The arrival of a task that may be there
abbrev pub at_of : Option Task → Option Time
at_of none = none
at_of (some t) = some t.at

module _ (heaps : ClaimHeaps) where
  -- The heap is sound and holds the tasks of the queue, each at its arrival.
  abbrev pub Indexed : QueueLock heaps → Type 0
  Indexed ql =
      heaps.IsSound ql.heap
      × ((id : String) → heaps.arrival id ql.heap ≡ at_of (lookup id ql.tasks))

  abbrev pub IndexedIn : Option (QueueLock heaps) → Type 0
  IndexedIn none = Unit
  IndexedIn (some ql) = Indexed ql

  abbrev pub AllIndexed : Dict String (QueueLock heaps) → Type 0
  AllIndexed queues = (q : String) → IndexedIn (lookup q queues)

  take_task-Indexed :
      (cq : ClaimQuery) (now : Time) (id : String) (ql : QueueLock heaps) (t : Task)
      → Indexed ql
      → lookup id ql.tasks ≡ some t
      → (ql' : QueueLock heaps) × (take_task heaps cq now id ql
          ≡ some (claimed_task heaps cq now t, ql'))
        × Indexed ql'
        × ((k : String)
            → lookup k ql'.tasks
              ≡ (if id == k then some (claimed_task heaps cq now t) else lookup k ql.tasks))
  unfolding take_task
  take_task-Indexed cq now id ql t indexed stored =
      let t' = claimed_task heaps cq now t in
      let ql' : QueueLock heaps = record {
        heap = heaps.update_id id (add now cq.duration) ql.heap;
        tasks = insert id t' ql.tasks;
      } in
      (
        ql',
        rw (stored, take_task) refl,
        (
          heaps.update-IsSound id (add now cq.duration) ql.heap indexed.0,
          λ k. ground (
            arith,
            heaps.arrival-update id k (add now cq.duration) t.at ql.heap indexed.0,
            indexed.1 id,
            indexed.1 k,
            stored,
            lookup-insert id k t' ql.tasks,
          ),
        ),
        λ k. lookup-insert id k t' ql.tasks,
      )

  -- The task may be claimed now.
  abbrev pub is_available : Time → Option Task → Bool
  is_available now none = false
  is_available now (some t) = leb t.at now

  -- A claim on a queue either finds none of its tasks available, and changes nothing, or takes one
  -- that is: the task comes back one version on, with one more claim, the claimant's until the end
  -- of its lease, and it is the only one that changes.
  pub record Takes (cq : ClaimQuery) (now : Time) (q : String) (st : EqMem heaps)
      (outcome : ClaimOutcome heaps) : Type 0 where
    pub id : String
    pub task : Task
    pub after_it : EqMem heaps
    pub stored : task_in heaps q id st.queues ≡ some task
    pub available : task.at ≤ now
    pub taken : outcome ≡ took (claimed_task heaps cq now task) after_it
    pub index : after_it.q_by_id ≡ st.q_by_id
    pub docs : after_it.namespaces ≡ st.namespaces
    pub tasks :
        (p k : String)
        → task_in heaps p k after_it.queues ≡ (
            if (q == p) && (id == k)
            then some (claimed_task heaps cq now task)
            else task_in heaps p k st.queues)
    pub indexed : AllIndexed after_it.queues

  unavailable :
      (now : Time) (o : Option Task) (a : Option Time)
      → a ≡ at_of o
      → ((at : Time) → a ≡ some at → now < at)
      → is_available now o ≡ false
  unavailable now none a e later = refl
  unavailable now (some t) a e later = ground (arith, later t.at e)

  at_of-some :
      (o : Option Task) (a : Time) → at_of o ≡ some a → (t : Task) × (o ≡ some t) × (t.at ≡ a)
  at_of-some none a e = ground arith
  at_of-some (some t) a e = (t, refl, ground arith)

  is_empty-lookup :
      (id : String) (t : Task) (tasks : Dict String Task)
      → lookup id tasks ≡ some t
      → is_empty tasks ≡ false
  unfolding lookup
  is_empty-lookup id t [] e = ground arith
  is_empty-lookup id t (x ∷ tasks) e = refl

  -- Locking a queue that has tasks, and unlocking it, changes nothing.
  lock_queue-same :
      (q : String) (queues : Dict String (QueueLock heaps)) (ql : QueueLock heaps)
      → lookup q queues ≡ some ql
      → lock_queue heaps q queues ≡ queues
  unfolding lock_queue
  lock_queue-same q queues ql e = ground (arith, e)

  unlock_queue-same :
      (q id : String) (t : Task) (queues : Dict String (QueueLock heaps)) (ql : QueueLock heaps)
      → lookup q queues ≡ some ql
      → lookup id ql.tasks ≡ some t
      → unlock_queue heaps q queues ≡ queues
  unfolding unlock_queue
  unlock_queue-same q id t queues ql e stored =
      ground (arith, e, is_empty-lookup id t ql.tasks stored)

  claim_nothing :
      (cq : ClaimQuery) (draws : List Bool) (now : Time) (q : String) (st : EqMem heaps)
      (ql : QueueLock heaps)
      → lookup q st.queues ≡ some ql
      → heaps.random_available draws now ql.heap ≡ none
      → must_try_claim_one heaps cq draws now q st ≡ nothing st
  unfolding must_try_claim_one lock_queue unlock_queue
  claim_nothing cq draws now q st ql e picked = ground (arith, e, picked)

  pub IndexedIn-insert :
      (q p : String) (ql : QueueLock heaps) (queues : Dict String (QueueLock heaps))
      → Indexed ql
      → AllIndexed queues
      → IndexedIn (lookup p (insert q ql queues))
  IndexedIn-insert q p ql queues indexed all = rw (lookup-insert q p ql queues) (pick (q == p))
    where
      pick : (b : Bool) → IndexedIn (if b then some ql else lookup p queues)
      pick true = indexed
      pick false = all p

  claim-Takes :
      (cq : ClaimQuery) (draws : List Bool) (now : Time) (q id : String) (st : EqMem heaps)
      (ql : QueueLock heaps) (t : Task)
      → lookup q st.queues ≡ some ql
      → Indexed ql
      → AllIndexed st.queues
      → heaps.random_available draws now ql.heap ≡ some id
      → lookup id ql.tasks ≡ some t
      → t.at ≤ now
      → Takes cq now q st (must_try_claim_one heaps cq draws now q st)
  unfolding must_try_claim_one task_in
  claim-Takes cq draws now q id st ql t e indexed all picked stored available =
      let (ql', e', indexed', tasks) = take_task-Indexed cq now id ql t indexed stored in
      let t' = claimed_task heaps cq now t in
      let queues = insert q ql' st.queues in
      let at_q = lookup-insert q q ql' st.queues in
      let same =
        unlock_queue-same q id t' queues ql' (ground (arith, at_q)) (ground (arith, tasks id)) in
      record {
        id = id;
        task = t;
        after_it = record st { queues = queues };
        stored = ground (arith, e, stored);
        available = available;
        taken = ground (
          arith,
          e,
          picked,
          e',
          same,
          lock_queue-same q st.queues ql e,
          is_empty-lookup id t ql.tasks stored,
        );
        index = refl;
        docs = refl;
        tasks = λ p k. ground (arith, lookup-insert q p ql' st.queues, tasks k, e);
        indexed = λ p. IndexedIn-insert q p ql' st.queues indexed' all;
      }

  -- A claim on a queue whose heap and tasks agree does not panic. Either it finds none of the
  -- queue's tasks available and changes nothing, or it takes one that is, as Takes says.
  pub must_try_claim_one-Takes :
      (cq : ClaimQuery) (draws : List Bool) (now : Time) (q : String) (st : EqMem heaps)
      → AllIndexed st.queues
      → ((must_try_claim_one heaps cq draws now q st ≡ nothing st)
          × ((id : String) → is_available now (task_in heaps q id st.queues) ≡ false))
        ⊎ Takes cq now q st (must_try_claim_one heaps cq draws now q st)
  unfolding must_try_claim_one task_in
  must_try_claim_one-Takes cq draws now q st all = on_queue (lookup q st.queues) refl (all q)
    where
      on_pick :
          (ql : QueueLock heaps) (picked : Option String)
          → heaps.random_available draws now ql.heap ≡ picked
          → lookup q st.queues ≡ some ql
          → Indexed ql
          → ((must_try_claim_one heaps cq draws now q st ≡ nothing st)
              × ((id : String) → is_available now (task_in heaps q id st.queues) ≡ false))
            ⊎ Takes cq now q st (must_try_claim_one heaps cq draws now q st)
      on_pick ql none picked e indexed = inl (
        claim_nothing cq draws now q st ql e picked,
        λ id.
            let u =
              unavailable now (lookup id ql.tasks) (heaps.arrival id ql.heap) (indexed.1 id)
                (heaps.none_available draws now ql.heap indexed.0 picked id) in
            ground (arith, e, u),
      )
      on_pick ql (some id) picked e indexed =
          let (a, arrives, due) = heaps.picks_available draws now ql.heap id indexed.0 picked in
          let (t, stored, at_a) =
            at_of-some (lookup id ql.tasks) a (sym (indexed.1 id) ∙ arrives) in
          inr (
            claim-Takes cq draws now q id st ql t e indexed all picked stored
              (omega (arith, at_a, due)))

      on_queue :
          (o : Option (QueueLock heaps))
          → lookup q st.queues ≡ o
          → IndexedIn o
          → ((must_try_claim_one heaps cq draws now q st ≡ nothing st)
              × ((id : String) → is_available now (task_in heaps q id st.queues) ≡ false))
            ⊎ Takes cq now q st (must_try_claim_one heaps cq draws now q st)
      on_queue none e i = inl (ground (arith, e), λ id. ground (arith, e))
      on_queue (some ql) e i = on_pick ql _ refl e i

  -- No task of the turn's queue is available.
  abbrev pub NothingDue : EqMem heaps → Turn heaps → Type 0
  NothingDue st turn =
      (id : String) → is_available turn.now (task_in heaps turn.queue id st.queues) ≡ false

  Takes-same :
      (cq : ClaimQuery) (now : Time) (q : String) (st : EqMem heaps) (a b : ClaimOutcome heaps)
      → a ≡ b
      → Takes cq now q st b
      → Takes cq now q st a
  Takes-same cq now q st a b e takes = rw e takes

  -- A claim over several queues, whose heaps and tasks agree, does not panic. It takes an available
  -- task of one of them, as Takes says, or changes nothing, and then it found none in any of them.
  pub try_claim_loop-Takes :
      (cq : ClaimQuery) (turns : List (Turn heaps)) (st : EqMem heaps)
      → AllIndexed st.queues
      → ((try_claim_loop heaps cq turns st ≡ nothing st) × All (NothingDue st) turns)
        ⊎ ((turn : Turn heaps) × Takes cq turn.now turn.queue st (try_claim_loop heaps cq turns st))
  unfolding try_claim_loop
  try_claim_loop-Takes cq [] st all = inl (refl, tt)
  try_claim_loop-Takes cq (turn ∷ rest) st all =
      elim (must_try_claim_one-Takes cq turn.draws turn.now turn.queue st all) [
        | inl (e, none_due) ↦ elim (try_claim_loop-Takes cq rest st all) [
          | inl (e', none_due') ↦ inl (rw (e, try_claim_loop) e', (none_due, none_due'))
          | inr (later_turn, takes) ↦ inr (later_turn, rw (e, try_claim_loop) takes)
        ]
        | inr takes ↦
            let same : try_claim_loop heaps cq (turn ∷ rest) st
                ≡ must_try_claim_one heaps cq turn.draws turn.now turn.queue st =
              ground (arith, takes.taken) in
            inr (turn, Takes-same cq turn.now turn.queue st _ _ same takes)
      ]
