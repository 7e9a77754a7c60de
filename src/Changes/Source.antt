-- ===== src/Changes/Source.antt =====
-- The queue that a change names as its source.
use entroq.Base.{pos, Duration, string_eq, nat_eq, String, ◌≡◌, refl, List, [], ◌∷◌, ◌++◌, map}
use entroq.Task.{Task}
use entroq.Modification.{Modification, reset_claims_of, set_name_eq}
use entroq.Changes.{
  ChangeArg, queue_to, arrival_time_by, raw_value_to, appending_err, err_to, resetting_claims,
  attempt_to_next, attempt_to_zero, apply_args, change,
}

-- The arguments of task.go, by name.
pub data Argument : Type 0 where
  to_queue : String → Argument
  to_arrival : Duration → Argument
  to_value : String → Argument
  more_err : String → Argument
  to_err : String → Argument
  claims_reset next_attempt zero_attempt : Argument

abbrev pub change_arg : Argument → ChangeArg
change_arg (to_queue q) = queue_to q
change_arg (to_arrival d) = arrival_time_by d
change_arg (to_value v) = raw_value_to v
change_arg (more_err e) = appending_err e
change_arg (to_err e) = err_to e
change_arg claims_reset = resetting_claims
change_arg next_attempt = attempt_to_next
change_arg zero_attempt = attempt_to_zero

-- The queue that the arguments leave as the task's and as its source, from those before them.
abbrev pub queues_after : List Argument → String × String → String × String
queues_after [] qs = qs
queues_after (to_queue q ∷ rest) (source, dest) = queues_after rest (dest, q)
queues_after (_ ∷ rest) qs = queues_after rest qs

apply_args-queues :
    (args : List Argument) (m : Modification) (t : Task)
    → ((
      (apply_args (map change_arg args) m t).1.from_queue,
      (apply_args (map change_arg args) m t).1.queue,
    )
        ≡ queues_after args (t.from_queue, t.queue))
unfolding apply_args
apply_args-queues [] m t = refl
apply_args-queues (to_queue q ∷ rest) m t = apply_args-queues rest m _
apply_args-queues (to_arrival d ∷ rest) m t = apply_args-queues rest m _
apply_args-queues (to_value v ∷ rest) m t = apply_args-queues rest m _
apply_args-queues (more_err e ∷ rest) m t = apply_args-queues rest m _
apply_args-queues (to_err e ∷ rest) m t = apply_args-queues rest m _
apply_args-queues (claims_reset ∷ rest) m t = apply_args-queues rest _ t
apply_args-queues (next_attempt ∷ rest) m t = apply_args-queues rest m _
apply_args-queues (zero_attempt ∷ rest) m t = apply_args-queues rest m _

-- What no argument touches.
apply_args-kept :
    (args : List Argument) (m : Modification) (t : Task)
    → ((apply_args (map change_arg args) m t).0.changes ≡ m.changes)
      × ((apply_args (map change_arg args) m t).1.id ≡ t.id)
      × ((apply_args (map change_arg args) m t).1.version ≡ t.version)
unfolding apply_args reset_claims_of
apply_args-kept [] m t = (refl, refl, refl)
apply_args-kept (to_queue q ∷ rest) m t = apply_args-kept rest m _
apply_args-kept (to_arrival d ∷ rest) m t = apply_args-kept rest m _
apply_args-kept (to_value v ∷ rest) m t = apply_args-kept rest m _
apply_args-kept (more_err e ∷ rest) m t = apply_args-kept rest m _
apply_args-kept (to_err e ∷ rest) m t = apply_args-kept rest m _
apply_args-kept (claims_reset ∷ rest) m t = apply_args-kept rest _ t
apply_args-kept (next_attempt ∷ rest) m t = apply_args-kept rest m _
apply_args-kept (zero_attempt ∷ rest) m t = apply_args-kept rest m _

-- A change adds one entry, for the task at its version. The entry's destination is where the last
-- QueueTo goes, or the task's queue; its source is the task's queue where there is at most one
-- QueueTo, and where there are more it is the destination of the last but one.
pub change-queues :
    (t : Task) (args : List Argument) (m : Modification)
    → (c : Task) × ((change t (map change_arg args) m).changes ≡ m.changes ++ c ∷ [])
      × (c.id ≡ t.id)
      × (c.version ≡ t.version)
      × ((c.from_queue, c.queue) ≡ queues_after args (t.queue, t.queue))
unfolding change
change-queues t args m =
    let start : Task = record t { from_queue = t.queue; at = 0; by = pos 0 } in
    let (c, i, v) = apply_args-kept args m start in
    let changed = (apply_args (map change_arg args) m start).1 in
    (changed, rw c refl, i, v, apply_args-queues args m start)
