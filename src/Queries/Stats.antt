-- ===== src/Queries/Stats.antt =====
-- What the statistics of a queue count.
use entroq.Base.{
  Time, after, is_positive32, if◌then◌else◌, length, All, string_eq, nat_eq, ℕ, suc, ◌+◌, ◌≤◌,
  String, ◌≡◌, refl, Bool, not, ◌&&◌, List, [], ◌∷◌, arith,
}
use entroq.Task.{Task}
use entroq.Queries.{QueueStat, new_stat, add_task, add_tasks, queue_stat}

-- How many tasks pass a test.
unfoldable pub count : (Task → Bool) → List Task → ℕ
count p [] = 0
count p (t ∷ rest) = if p t then suc (count p rest) else count p rest

abbrev pub is_future : Time → Task → Bool
is_future now t = after t.at now && not (is_positive32 t.claims)

abbrev pub is_claimed : Time → Task → Bool
is_claimed now t = after t.at now && is_positive32 t.claims

-- The claim count, 0 where it is negative.
abbrev pub claims_of : Task → ℕ
claims_of t = if is_positive32 t.claims then t.claims else 0

-- What the loop adds to the counters it begins with.
record Added (now : Time) (ts : List Task) (s s' : QueueStat) : Type 0 where
  size : s'.size ≡ s.size + length ts
  claimed : s'.claimed ≡ s.claimed + count (is_claimed now) ts
  future : s'.future ≡ s.future + count (is_future now) ts
  available : s'.available ≡ s.available + count (λ t. not (after t.at now)) ts
  grows : s.max_claims ≤ s'.max_claims
  max : All (λ t. claims_of t ≤ s'.max_claims) ts

add_task-max :
    (now : Time) (t : Task) (s : QueueStat)
    → (s.max_claims ≤ (add_task now t s).max_claims) × (claims_of t ≤ (add_task now t s).max_claims)
unfolding add_task
add_task-max now t s = (ground arith, ground arith)

abbrev one_if : Bool → ℕ
one_if b = if b then 1 else 0

-- What one task adds to the counters.
record AddedOne (now : Time) (t : Task) (s s' : QueueStat) : Type 0 where
  size : s'.size ≡ s.size + 1
  claimed : s'.claimed ≡ s.claimed + one_if (is_claimed now t)
  future : s'.future ≡ s.future + one_if (is_future now t)
  available : s'.available ≡ s.available + one_if (not (after t.at now))

add_task-AddedOne : (now : Time) (t : Task) (s : QueueStat) → AddedOne now t s (add_task now t s)
unfolding add_task
add_task-AddedOne now t s = record {
  size = ground arith;
  claimed = ground arith;
  future = ground arith;
  available = ground arith;
}

add_tasks-Added :
    (now : Time) (ts : List Task) (s : QueueStat) → Added now ts s (add_tasks now ts s)
unfolding add_tasks count
add_tasks-Added now [] s = record {
  size = omega arith;
  claimed = omega arith;
  future = omega arith;
  available = omega arith;
  grows = omega arith;
  max = tt;
}
add_tasks-Added now (t ∷ ts) s =
    let r = add_tasks-Added now ts (add_task now t s) in
    let (g, m) = add_task-max now t s in
    let o = add_task-AddedOne now t s in
    record {
      size = ground (arith, r.size, o.size);
      claimed = ground (arith, r.claimed, o.claimed);
      future = ground (arith, r.future, o.future);
      available = ground (arith, r.available, o.available);
      grows = omega (arith, g, r.grows);
      max = (omega (arith, m, r.grows), r.max);
    }

count-parts :
    (now : Time) (ts : List Task)
    → length ts
      ≡ count (is_claimed now) ts + count (is_future now) ts + count (λ t. not (after t.at now)) ts
unfolding count
count-parts now [] = refl
count-parts now (t ∷ ts) = ground (arith, count-parts now ts)

-- A queue's statistics count its tasks, those not yet available that have been claimed, those not
-- yet available that have not, and those available; every task is in exactly one of the three, and
-- none has more claims than the most that is reported.
pub queue_stat-lem :
    (now : Time) (q : String) (ts : List Task)
    → ((queue_stat now q ts).size ≡ length ts)
      × ((queue_stat now q ts).claimed ≡ count (is_claimed now) ts)
      × ((queue_stat now q ts).future ≡ count (is_future now) ts)
      × ((queue_stat now q ts).available ≡ count (λ t. not (after t.at now)) ts)
      × ((queue_stat now q ts).size
          ≡ (queue_stat now q ts).claimed
            + (queue_stat now q ts).future
            + (queue_stat now q ts).available)
      × All (λ t. claims_of t ≤ (queue_stat now q ts).max_claims) ts
queue_stat-lem now q ts =
    let r = add_tasks-Added now ts (new_stat q) in
    (
      omega (arith, r.size),
      omega (arith, r.claimed),
      omega (arith, r.future),
      omega (arith, r.available),
      omega (arith, r.size, r.claimed, r.future, r.available, count-parts now ts),
      r.max,
    )
