-- ===== src/Tests/Waits.antt =====
-- Waiting for a task on small inputs: a backend whose state is the number of tries that find nothing.
use entroq.Base.{
  lookup, insert, string_eq, nat_eq, runs, ℕ, zero, suc, ◌+◌, ◌≤◌, ◌≡◌, refl, inl, Bool, false,
  some, [], ◌∷◌,
}
use entroq.Task.{Task, new_task}
use entroq.Waiting.{
  note_queue, note_queues, notify_modified, Try, max_check_interval, start_interval, poll_try_claim,
  no_task, a_task, polled,
}
use entroq.Waiting.Notices.{last_queue, notify_modified-last_queue}
use entroq.Waiting.Polls.{nth_wait, AreIdle, poll_try_claim-AreIdle}

abbrev ready_task : Task
ready_task = record new_task { queue = "/in"; id = "t1"; at = 5; modified = 7 }

abbrev moved_task : Task
moved_task = record ready_task { queue = "/next" }

abbrev held_task : Task
held_task = record ready_task { queue = "/held"; at = 9 }

notify_modified-last_queue_example :
    lookup "t1" (notify_modified (ready_task ∷ []) (moved_task ∷ held_task ∷ []))
    ≡ last_queue "t1" (ready_task ∷ moved_task ∷ held_task ∷ [])
notify_modified-last_queue_example =
    notify_modified-last_queue (ready_task ∷ []) (moved_task ∷ held_task ∷ []) "t1"

notifies_next :
    notify_modified (ready_task ∷ []) (moved_task ∷ held_task ∷ []) ≡ ("t1", "/next") ∷ []
unfolding runs notify_modified note_queues note_queue insert
notifies_next = refl

abbrev try_now : ℕ → Try × ℕ
try_now zero = (a_task ready_task, zero)
try_now (suc n) = (no_task, n)

abbrev keeps_waiting : ℕ → ℕ → Bool × ℕ
keeps_waiting wait n = (false, n)

idle_twice : AreIdle try_now keeps_waiting 2 0 2 0
idle_twice = (refl, refl, (refl, refl, refl))

poll_try_claim-AreIdle_example :
    (poll_try_claim try_now keeps_waiting (2 + 1) 2 ≡ (some (polled ready_task), 0))
    × ((m : ℕ) → (start_interval ≤ nth_wait m) × (nth_wait m ≤ max_check_interval))
poll_try_claim-AreIdle_example =
    poll_try_claim-AreIdle try_now keeps_waiting 2 2 0 (polled ready_task) idle_twice
      (inl (ready_task, refl, refl))
