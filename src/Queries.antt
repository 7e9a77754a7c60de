-- ===== src/Queries.antt =====
-- The queue statistics of the in-memory backend: QueueStat of stats.go, and the loop of
-- EQMem.QueueStats of pkg/backend/eqmem/eqmem.go over one queue's tasks.
pub mod Stats
use entroq.Base.{
  ℤ, pos_part, neg_part, sub_ℕ, ◌+ℤ◌, ◌≤ℤ◌, ltb_ℤ, +ℤ_parts, eq_of_parts, int_laws, +ℤ_assoc,
  +ℤ-zero, zero-+ℤ, pos, negsuc, Time, Duration, add, after, before, is_zero, is_positive,
  is_zero_duration, int32_mod, inc32, IsInt32, is_positive32, inc32_moves, inc32-IsInt32, le32,
  Dict, lookup, insert, erase, contains, lookup-insert, lookup-erase, contains-insert, contains-nil,
  get_or, get_or-insert, map_values, lookup-map_values, AreNew, AreNew-cons, AreNew-nil, ltb, leb,
  if◌then◌else◌, ltb→lt, lt→ltb, le→not-ltb, Bool-cases, Option-cases, is_some, length, All,
  is_empty, any, keep, length-append, All-append, is_empty-keep, Distinct, everywhere, append-nil,
  append_assoc, is_empty_iff, All-iff, text_discrete, Eq, string_eq, nat_eq, ◌==◌, pair_discrete,
  runs, ℕ, zero, suc, ◌+◌, ◌-◌, ◌*◌, ◌/◌, ◌%◌, ◌^◌, ◌≤◌, ◌<◌, String, ◌<>◌, len, ◌≡◌, refl, sym, ap,
  ◌∙◌, ◌≢◌, ◌↔◌, ◌⊎◌, inl, inr, Bool, true, false, not, ◌&&◌, ◌||◌, Option, none, some, List, [],
  ◌∷◌, ◌++◌, map, arith,
}
use entroq.Task.{
  TaskId, new_task_id, TaskData, Task, new_task, id_version, data_of, TaskArrival, arrival_change,
}

pub record QueueStat : Type 0 where
  pub name : String
  pub size : ℕ
  pub claimed : ℕ
  pub available : ℕ
  pub future : ℕ
  pub max_claims : ℕ

-- `&QueueStat{Name: q}`
abbrev pub new_stat : String → QueueStat
new_stat q = record { name = q; size = 0; claimed = 0; available = 0; future = 0; max_claims = 0 }

-- The three counters of the function that Range calls
abbrev pub count_task : Time → Task → QueueStat → QueueStat
count_task now t s =
    if after t.at now
    then (if is_positive32 t.claims
        then record s { claimed = s.claimed + 1 }
        else record s { future = s.future + 1 })
    else record s { available = s.available + 1 }

-- The function that Range calls. Only a positive claim count can exceed one that is not negative.
unfoldable pub add_task : Time → Task → QueueStat → QueueStat
add_task now t s =
    let s₁ = count_task now t (record s { size = s.size + 1 }) in
    if is_positive32 t.claims && ltb s₁.max_claims t.claims
    then record s₁ { max_claims = t.claims }
    else s₁

-- Range over the tasks of a queue
unfoldable pub add_tasks : Time → List Task → QueueStat → QueueStat
add_tasks now [] s = s
add_tasks now (t ∷ rest) s = add_tasks now rest (add_task now t s)

-- The statistics of one queue
abbrev pub queue_stat : Time → String → List Task → QueueStat
queue_stat now q tasks = add_tasks now tasks (new_stat q)
