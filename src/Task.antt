-- ===== src/Task.antt =====
-- task.go and the task part of arrival.go: tasks, and what names or inserts them.
-- A task's value is its raw JSON text; a nil value and an empty one are the same here, as `Copy`
-- makes them.
use entroq.Base.{ℕ, String, Time, Duration, pos, Option, none, some}

pub record TaskId : Type 0 where
  pub id : String
  pub version : ℕ
  pub queue : String

-- NewTaskID
abbrev pub new_task_id : String → ℕ → String → TaskId
new_task_id id version queue = record { id = id; version = version; queue = queue }

pub record TaskData : Type 0 where
  pub queue : String
  pub by : Duration
  pub value : String
  pub attempt : ℕ
  pub err : String
  pub id : String
  pub at : Time
  pub created : Time
  pub modified : Time

pub record Task : Type 0 where
  pub queue : String
  pub id : String
  pub version : ℕ
  pub at : Time
  pub claimant : String
  pub claims : ℕ
  pub value : String
  pub created : Time
  pub modified : Time
  pub from_queue : String
  pub by : Duration
  pub attempt : ℕ
  pub err : String

-- The zero Task.
abbrev pub new_task : Task
new_task = record {
  queue = "";
  id = "";
  version = 0;
  at = 0;
  claimant = "";
  claims = 0;
  value = "";
  created = 0;
  modified = 0;
  from_queue = "";
  by = pos 0;
  attempt = 0;
  err = "";
}

-- Task.IDVersion
abbrev pub id_version : Task → TaskId
id_version t = new_task_id t.id t.version t.queue

-- Task.Data
unfoldable pub data_of : Task → TaskData
data_of t = record {
  queue = t.queue;
  at = t.at;
  by = t.by;
  value = t.value;
  id = t.id;
  attempt = t.attempt;
  err = t.err;
  created = t.created;
  modified = t.modified;
}

pub record TaskArrival : Type 0 where
  pub task_id : TaskId
  pub open task_id use *
  pub by : Duration

-- TaskArrival.Change, where `none` is a nil stored task.
unfoldable pub arrival_change : TaskArrival → Option Task → Task
arrival_change a none = record new_task {
  id = a.id;
  version = a.version;
  queue = a.queue;
  from_queue = a.queue;
  at = 0;
  by = a.by;
}
arrival_change a (some stored) = record stored {
  version = a.version;
  queue = a.queue;
  from_queue = a.queue;
  at = 0;
  by = a.by;
}
