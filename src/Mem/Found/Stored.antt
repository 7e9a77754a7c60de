-- ===== src/Mem/Found/Stored.antt =====
-- What Modify on the in-memory backend finds of the tasks that are stored: addFound and its calls in
-- eqmem.go.
use entroq.Base.{
  Dict, lookup, lookup-insert, get_or, Bool-cases, All, All-append, All-implied, string_eq, nat_eq,
  ◌==◌, String, ◌≡◌, refl, sym, ◌∙◌, ◌≢◌, ◌⊎◌, inl, inr, ◌||◌, Option, none, some, List, [], ◌∷◌,
  map, arith,
}
use entroq.Task.{TaskId, TaskData, Task, TaskArrival}
use entroq.Modification.{Modification, set_name_eq}
use entroq.Mem.{ClaimHeaps, task_in}
use entroq.Mem.Prepare.{misplaced_inserts}
use entroq.Mem.Found.{Queues, add_found, find_tasks, insert_places, task_places}

module _ (heaps : ClaimHeaps) (queues : Queues heaps) where
  -- A stored task stands under its own ID, and no ID is in two queues.
  pub record IsFiled : Type 0 where
    pub ids : (q id : String) (t : Task) → task_in heaps q id queues ≡ some t → t.id ≡ id
    pub one_queue :
        (p q id : String) (t u : Task)
        → task_in heaps p id queues ≡ some t
        → task_in heaps q id queues ≡ some u
        → t ≡ u

  -- What is stored in a queue that is named is found.
  abbrev pub Sees : Dict String Task → String → String → Type 0
  Sees found q id =
      q ≢ "" → id ≢ "" → (t : Task) → task_in heaps q id queues ≡ some t → lookup id found ≡ some t

  module _ (filed : IsFiled) where
    add_found-keeps :
        (q k id : String) (t : Task) (found : Dict String Task)
        → lookup id found ≡ some t
        → ((p : String) (u : Task) → task_in heaps p id queues ≡ some u → u ≡ t)
        → lookup id (add_found heaps queues q k found) ≡ some t
    add_found-keeps q k id t found e only = by_task (task_in heaps q k queues) refl
      where
        by_task :
            (o : Option Task)
            → task_in heaps q k queues ≡ o
            → lookup id (add_found heaps queues q k found) ≡ some t
        by_task none f = ground (arith, e, f)
        by_task (some u) f =
            ground (arith, e, f, filed.ids q k u f, only q u, lookup-insert u.id id u found)

    find_tasks-keeps :
        (places : List (String × String)) (id : String) (t : Task) (found : Dict String Task)
        → lookup id found ≡ some t
        → ((p : String) (u : Task) → task_in heaps p id queues ≡ some u → u ≡ t)
        → lookup id (find_tasks heaps queues places found) ≡ some t
    unfolding find_tasks
    find_tasks-keeps [] id t found e only = e
    find_tasks-keeps ((q, k) ∷ places) id t found e only =
        find_tasks-keeps places id t _ (add_found-keeps q k id t found e only) only

    add_found-sees :
        (q id : String) (t : Task) (found : Dict String Task)
        → q ≢ ""
        → id ≢ ""
        → task_in heaps q id queues ≡ some t
        → lookup id (add_found heaps queues q id found) ≡ some t
    add_found-sees q id t found named with_id e =
        ground (arith, named, with_id, e, filed.ids q id t e, lookup-insert t.id id t found)

    find_tasks-Sees :
        (places : List (String × String)) (found : Dict String Task)
        → All (λ (p : String × String). Sees (find_tasks heaps queues places found) p.0 p.1) places
    unfolding find_tasks
    find_tasks-Sees [] found = tt
    find_tasks-Sees ((q, id) ∷ places) found = (
      λ named with_id t e.
          find_tasks-keeps places id t (add_found heaps queues q id found)
            (add_found-sees q id t found named with_id e) (λ p u f. filed.one_queue p q id u t f e),
      find_tasks-Sees places (add_found heaps queues q id found),
    )

    -- What is found is stored.
    find_tasks-stored :
        (places : List (String × String)) (found : Dict String Task) (id : String) (t : Task)
        → (lookup id found ≡ some t → (q : String) × (task_in heaps q id queues ≡ some t))
        → lookup id (find_tasks heaps queues places found) ≡ some t
        → (q : String) × (task_in heaps q id queues ≡ some t)
    unfolding find_tasks
    find_tasks-stored [] found id t before_it e = before_it e
    find_tasks-stored ((q, k) ∷ places) found id t before_it e =
        find_tasks-stored places (add_found heaps queues q k found) id t
          (by_task (task_in heaps q k queues) refl) e
      where
        by_task :
            (o : Option Task)
            → task_in heaps q k queues ≡ o
            → lookup id (add_found heaps queues q k found) ≡ some t
            → (p : String) × (task_in heaps p id queues ≡ some t)
        by_task none f g = before_it (ground (arith, f, g))
        by_task (some u) f g = elim (Bool-cases (q == "" || k == "")) [
          | inl h ↦ before_it (ground (arith, f, g, h))
          | inr h ↦
              let same = filed.ids q k u f in
              elim (Bool-cases (k == id)) [
                | inl i ↦ (q, ground (arith, f, g, h, i, same, lookup-insert u.id id u found))
                | inr i ↦
                    before_it (ground (arith, f, g, h, i, same, lookup-insert u.id id u found))
              ]
        ]

  places_of-All {ℓ} :
      {A : Type ℓ} (found : Dict String Task) (queue id : A → String) (xs : List A)
      → All (λ (p : String × String). Sees found p.0 p.1) (map (λ x. (queue x, id x)) xs)
      → All (λ x. Sees found (queue x) (id x)) xs
  places_of-All found queue id [] all = tt
  places_of-All found queue id (x ∷ xs) all = (all.0, places_of-All found queue id xs all.1)

  -- An insert sees the task with its ID in its own queue, and in the queue that the index has.
  abbrev pub SeesInsert : Dict String String → Dict String Task → TaskData → Type 0
  SeesInsert q_by_id found i =
      Sees found i.queue i.id × ((q : String) → lookup i.id q_by_id ≡ some q → Sees found q i.id)

  -- A queue that the index has for an insert is the insert's own, or the one that modPrep keeps.
  abbrev IsKept : Dict String String → Dict String String → TaskData → Type 0
  IsKept q_by_id misplaced i =
      i.id ≢ ""
      → (q : String) → lookup i.id q_by_id ≡ some q
      → (q ≡ i.queue) ⊎ (lookup i.id misplaced ≡ some q)

  misplaced_inserts-more :
      (q_by_id : Dict String String) (i : TaskData) (is : List TaskData) (id q : String)
      → lookup id q_by_id ≡ some q
      → lookup id (misplaced_inserts q_by_id is) ≡ some q
      → lookup id (misplaced_inserts q_by_id (i ∷ is)) ≡ some q
  unfolding misplaced_inserts
  misplaced_inserts-more q_by_id i is id q e f = by_index (lookup i.id q_by_id) refl
    where
      by_index :
          (o : Option String)
          → lookup i.id q_by_id ≡ o
          → lookup id (misplaced_inserts q_by_id (i ∷ is)) ≡ some q
      by_index none g = ground (arith, e, f, g)
      by_index (some r) g =
          ground (arith, e, f, g, lookup-insert i.id id r (misplaced_inserts q_by_id is))

  misplaced_inserts-IsKept :
      (q_by_id : Dict String String) (is : List TaskData)
      → All (IsKept q_by_id (misplaced_inserts q_by_id is)) is
  unfolding misplaced_inserts
  misplaced_inserts-IsKept q_by_id [] = tt
  misplaced_inserts-IsKept q_by_id (i ∷ is) = (
    λ named q e. elim (Bool-cases (q == i.queue)) [
      | inl f ↦ inl (ground (arith, f))
      | inr f ↦
          inr
            (ground (arith, named, e, f, lookup-insert i.id i.id q (misplaced_inserts q_by_id is)))
    ],
    All-implied
        (λ j kept named q e. elim (kept named q e) [
          | inl f ↦ inl f
          | inr f ↦ inr (misplaced_inserts-more q_by_id i is j.id q e f)
        ])
        is (misplaced_inserts-IsKept q_by_id is),
  )

  insert_places-Sees :
      (q_by_id misplaced : Dict String String) (found : Dict String Task) (is : List TaskData)
      → All (λ (p : String × String). Sees found p.0 p.1) (insert_places heaps misplaced is)
      → All (IsKept q_by_id misplaced) is
      → All (SeesInsert q_by_id found) is
  insert_places-Sees q_by_id misplaced found [] all kept = tt
  insert_places-Sees q_by_id misplaced found (i ∷ is) all kept = (
    (
      all.0,
      λ q e named with_id t f. elim (kept.0 with_id q e) [
        | inl same ↦ all.0 (λ g. named (same ∙ g)) with_id t (rw (sym same) f)
        | inr there ↦
            let place : get_or i.id "" misplaced ≡ q = ground (arith, there) in
            all.1.0 (λ g. named (sym place ∙ g)) with_id t (rw place f)
      ],
    ),
    insert_places-Sees q_by_id misplaced found is all.1.1 kept.1,
  )

  nothing_yet :
      (id : String) (t : Task)
      → lookup id [] ≡ some t
      → (q : String) × (task_in heaps q id queues ≡ some t)
  unfolding lookup
  nothing_yet id t e = ground (arith, e)

  -- The tasks that are found for a modification are stored, and among the stored ones are all that
  -- an operation names in their queue, and the one with an insert's ID wherever it is.
  pub record FindsStored (q_by_id : Dict String String) (m : Modification)
      (found : Dict String Task) : Type 0 where
    pub stored :
        (id : String) (t : Task)
        → lookup id found ≡ some t
        → (q : String) × (task_in heaps q id queues ≡ some t)
    pub deletes : All (λ (d : TaskId). Sees found d.queue d.id) m.deletes
    pub depends : All (λ (d : TaskId). Sees found d.queue d.id) m.depends
    pub changes : All (λ (c : Task). Sees found c.from_queue c.id) m.changes
    pub arrives : All (λ (a : TaskArrival). Sees found a.queue a.id) m.arrives
    pub inserts : All (SeesInsert q_by_id found) m.inserts

  pub find_tasks-FindsStored :
      (q_by_id : Dict String String) (m : Modification)
      → IsFiled
      → FindsStored q_by_id m
          (find_tasks heaps queues (task_places heaps m (misplaced_inserts q_by_id m.inserts)) [])
  find_tasks-FindsStored q_by_id m filed =
      let places = task_places heaps m (misplaced_inserts q_by_id m.inserts) in
      let found = find_tasks heaps queues places [] in
      let P : String × String → Type 0 = λ p. Sees found p.0 p.1 in
      let (deletes, rest) = (All-append P _ _).0 (find_tasks-Sees filed places []) in
      let (depends, rest') = (All-append P _ _).0 rest in
      let (changes, rest'') = (All-append P _ _).0 rest' in
      let (arrives, inserts) = (All-append P _ _).0 rest'' in
      record {
        stored = λ id t. find_tasks-stored filed places [] id t (λ e. nothing_yet id t e);
        deletes = places_of-All found (λ (d : TaskId). d.queue) (λ d. d.id) m.deletes deletes;
        depends = places_of-All found (λ (d : TaskId). d.queue) (λ d. d.id) m.depends depends;
        changes = places_of-All found (λ (c : Task). c.from_queue) (λ c. c.id) m.changes changes;
        arrives = places_of-All found (λ (a : TaskArrival). a.queue) (λ a. a.id) m.arrives arrives;
        inserts =
            insert_places-Sees q_by_id (misplaced_inserts q_by_id m.inserts) found m.inserts inserts
              (misplaced_inserts-IsKept q_by_id m.inserts);
      }
