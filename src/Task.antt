-- ===== src/Task.antt =====
-- task.h and task.cpp: a task, its requirements and its deadline. `W` is the type `double` and `J` the
-- type of JSON documents, both foreign to the repository. A clock reading is an argument, in ticks of
-- `std::chrono::system_clock`, a million to the millisecond.
pub mod Documents
use multi_constraint_iot_edg.Common.{
  ℕ, ◌≤◌, ◌≡◌, Bool, true, [], arith, ℤ, pos, sub_ℕ, ◌-ℤ◌, ltb_ℤ, Text, ◌↔◌, tdiv,
}

pub data TaskPriority : Type 0 where
  low medium high critical : TaskPriority

-- `static_cast<int>` of a priority, by which priorities are compared.
abbrev pub priority_rank : TaskPriority → ℕ
priority_rank low = 0
priority_rank medium = 1
priority_rank high = 2
priority_rank critical = 3

pub data TaskStatus : Type 0 where
  created queued running completed failed reallocated : TaskStatus

abbrev pub status_code : TaskStatus → ℕ
status_code TaskStatus.created = 0
status_code TaskStatus.queued = 1
status_code TaskStatus.running = 2
status_code TaskStatus.completed = 3
status_code TaskStatus.failed = 4
status_code TaskStatus.reallocated = 5

pub record TaskRequirements (W : Type 0) : Type 0 where
  pub cpu_percent : W
  pub ram_mb : W
  pub bandwidth_mbps : W
  pub deadline_ms : ℤ
  pub priority : TaskPriority

pub record Task (W J : Type 0) : Type 0 where
  pub task_id : Text
  pub device_id : Text
  pub sensor_type : Text
  pub requirements : TaskRequirements W
  pub sensor_data : J
  pub status : TaskStatus
  pub assigned_edge_id : Text
  pub creation_time : ℕ
  pub completion_time : ℕ

abbrev pub ticks_per_ms : ℕ
ticks_per_ms = 1_000_000

-- The clock may be set back, so the difference has a sign.
unfoldable pub elapsed_ms : ℕ → ℕ → ℤ
unfolding tdiv
elapsed_ms now since = tdiv (sub_ℕ now since) ticks_per_ms

module _ {W J : Type 0} where
  -- The constructor, at the clock reading `now`.
  unfoldable pub new_task : ℕ → Text → Text → Text → TaskRequirements W → J → Task W J
  new_task now id device sensor req payload = record {
    task_id = id;
    device_id = device;
    sensor_type = sensor;
    requirements = req;
    sensor_data = payload;
    status = TaskStatus.created;
    assigned_edge_id = [];
    creation_time = now;
    completion_time = 0;
  }

  unfoldable pub get_elapsed_time_ms : ℕ → Task W J → ℤ
  unfolding elapsed_ms
  get_elapsed_time_ms now task = elapsed_ms now task.creation_time

  unfoldable pub get_remaining_time_ms : ℕ → Task W J → ℤ
  unfolding get_elapsed_time_ms ◌-ℤ◌
  get_remaining_time_ms now task = task.requirements.deadline_ms -ℤ get_elapsed_time_ms now task

  unfoldable pub is_deadline_exceeded : ℕ → Task W J → Bool
  unfolding get_elapsed_time_ms
  is_deadline_exceeded now task = ltb_ℤ task.requirements.deadline_ms (get_elapsed_time_ms now task)

  abbrev pub set_status : TaskStatus → Task W J → Task W J
  set_status s task = record task { status = s }

  abbrev pub set_assigned_edge_id : Text → Task W J → Task W J
  set_assigned_edge_id e task = record task { assigned_edge_id = e }

  abbrev pub set_completion_time : ℕ → Task W J → Task W J
  set_completion_time now task = record task { completion_time = now }
