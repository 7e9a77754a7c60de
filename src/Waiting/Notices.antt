-- ===== src/Waiting/Notices.antt =====
-- Notices of NotifyModified, entroq.go.
use entroq.Base.{
  Dict, lookup, insert, lookup-insert, if◌then◌else◌, string_eq, nat_eq, ◌==◌, String, ◌≡◌, refl,
  ◌&&◌, Option, none, some, List, [], ◌∷◌, ◌++◌, arith,
}
use entroq.Task.{Task}
use entroq.Waiting.{is_available, note_queue, note_queues, notify_modified}

-- The queue of the last available task with the ID
unfoldable pub last_queue : String → List Task → Option String
last_queue id [] = none
last_queue id (t ∷ ts) = elim (last_queue id ts) [
  | some q ↦ some q
  | none ↦ if is_available t && t.id == id then some t.queue else none
]

note_queues-last_queue :
    (id : String) (ts : List Task) (qs : Dict String String)
    → lookup id (note_queues ts qs)
      ≡ elim (last_queue id ts) as (λ _. Option String) [ some q ↦ some q | none ↦ lookup id qs ]
unfolding note_queues note_queue last_queue
note_queues-last_queue id [] qs = refl
note_queues-last_queue id (t ∷ ts) qs = ground (
  arith,
  note_queues-last_queue id ts qs,
  note_queues-last_queue id ts (insert t.id t.queue qs),
  lookup-insert t.id id t.queue qs,
)

last_queue-append :
    (id : String) (xs ys : List Task)
    → last_queue id (xs ++ ys) ≡ elim (last_queue id ys) as (λ _. Option String) [
      | some q ↦ some q
      | none ↦ last_queue id xs
    ]
unfolding last_queue
last_queue-append id [] ys = ground arith
last_queue-append id (x ∷ xs) ys = ground (arith, last_queue-append id xs ys)

-- The queue that is notified for a task ID is that of the last task with the ID, among the inserted
-- and then the changed, that is available rather than held; an ID without such a task is not
-- notified.
pub notify_modified-last_queue :
    (inserted changed : List Task) (id : String)
    → lookup id (notify_modified inserted changed) ≡ last_queue id (inserted ++ changed)
unfolding notify_modified lookup
notify_modified-last_queue inserted changed id = ground (
  arith,
  note_queues-last_queue id changed (note_queues inserted []),
  note_queues-last_queue id inserted [],
  last_queue-append id inserted changed,
)
