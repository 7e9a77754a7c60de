-- ===== src/Tests/Statistics.antt =====
-- The statistics of a small queue.
use entroq.Base.{after, All, string_eq, nat_eq, runs, ◌+◌, ◌≤◌, ◌≡◌, refl, not, [], ◌∷◌}
use entroq.Task.{Task, new_task}
use entroq.Queries.{QueueStat, add_task, add_tasks, queue_stat}
use entroq.Queries.Stats.{count, is_future, is_claimed, claims_of, queue_stat-lem}

abbrev held_task : Task
held_task = record new_task { queue = "/in"; id = "t1"; at = 90; claims = 2 }

abbrev ready_task : Task
ready_task = record new_task { queue = "/in"; id = "t2"; at = 10; claims = 5 }

abbrev stat : QueueStat
stat = queue_stat 50 "/in" (held_task ∷ ready_task ∷ [])

counts : stat.max_claims ≡ 5
unfolding runs add_tasks add_task
counts = refl

queue_stat-lem_example :
    (stat.size ≡ 2)
    × (stat.claimed ≡ count (is_claimed 50) (held_task ∷ ready_task ∷ []))
    × (stat.future ≡ count (is_future 50) (held_task ∷ ready_task ∷ []))
    × (stat.available ≡ count (λ t. not (after t.at 50)) (held_task ∷ ready_task ∷ []))
    × (stat.size ≡ stat.claimed + stat.future + stat.available)
    × All (λ t. claims_of t ≤ stat.max_claims) (held_task ∷ ready_task ∷ [])
queue_stat-lem_example = queue_stat-lem 50 "/in" (held_task ∷ ready_task ∷ [])
