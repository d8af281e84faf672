-- ===== src/Task/Documents.antt =====
-- `Task::toJson` and `Task::fromJson` of task.cpp, and the documents on running tasks that
-- `TaskExecutor::getActiveTasks` of task_executor.cpp makes of them.
use multi_constraint_iot_edg.Common.{
  get_elem?, text_eq, ℕ, ◌≡◌, refl, List, [], ◌∷◌, Option, none, some, Text, codes, ℤ, pos, negsuc,
}
use multi_constraint_iot_edg.Double.{Double, IsNum}
use multi_constraint_iot_edg.Json.{Json, RealJson, IsJson, object, get-object}
use multi_constraint_iot_edg.Task.{
  Task, TaskRequirements, TaskPriority, TaskStatus, low, medium, high, critical, priority_rank,
  status_code, new_task, set_status, set_assigned_edge_id,
}

-- What is read from a document or a table: the value, an exception, a code that no enumerator has, for
-- which the program makes a value outside its enumeration, as this model does not, or a null pointer that
-- is taken for a string (undefined behaviour).
pub data Decoding (A : Type 0) : Type 0 where
  decoded : A → Decoding A
  throws unknown_code null_string : Decoding A

infixl 5 ◌>>=◌
abbrev pub ◌>>=◌ : {A B : Type 0} → Decoding A → (A → Decoding B) → Decoding B
decoded a >>= f = f a
throws >>= f = throws
unknown_code >>= f = unknown_code
null_string >>= f = null_string

-- What may throw, and what may lie outside an enumeration.
abbrev pub or_throw : {A : Type 0} → Option A → Decoding A
or_throw none = throws
or_throw (some a) = decoded a

abbrev pub or_unknown : {A : Type 0} → Option A → Decoding A
or_unknown none = unknown_code
or_unknown (some a) = decoded a

-- `static_cast` of a code to an enumeration.
unfoldable pub priority_of_code : ℤ → Option TaskPriority
priority_of_code (negsuc n) = none
priority_of_code (pos n) = get_elem? (low ∷ medium ∷ high ∷ critical ∷ []) n

unfoldable pub status_of_code : ℤ → Option TaskStatus
status_of_code (negsuc n) = none
status_of_code (pos n) =
    get_elem?
      (TaskStatus.created ∷ TaskStatus.queued ∷ TaskStatus.running ∷ TaskStatus.completed
        ∷ TaskStatus.failed ∷ TaskStatus.reallocated ∷ [])
      n

pub priority_of_code-priority_rank :
    (p : TaskPriority) → priority_of_code (pos (priority_rank p)) ≡ some p
unfolding priority_of_code
priority_of_code-priority_rank low = refl
priority_of_code-priority_rank medium = refl
priority_of_code-priority_rank high = refl
priority_of_code-priority_rank critical = refl

pub status_of_code-status_code : (s : TaskStatus) → status_of_code (pos (status_code s)) ≡ some s
unfolding status_of_code
status_of_code-status_code TaskStatus.created = refl
status_of_code-status_code TaskStatus.queued = refl
status_of_code-status_code TaskStatus.running = refl
status_of_code-status_code TaskStatus.completed = refl
status_of_code-status_code TaskStatus.failed = refl
status_of_code-status_code TaskStatus.reallocated = refl

module _ {J : Type 0} ⦃json : Json J⦄ where
  open json use {get, to_text, to_int, empty_object}

  -- `j.at(key)`, which throws where the key is missing.
  abbrev pub at_key : Text → J → Decoding J
  at_key key j = or_throw (get key j)

  abbrev pub text_at : Text → J → Decoding Text
  text_at key j = at_key key j >>= λ v. or_throw (to_text v)

  abbrev pub int_at : Text → J → Decoding ℤ
  int_at key j = at_key key j >>= λ v. or_throw (to_int v)

  -- `j.value("sensor_data", json::object())`.
  abbrev sensor_data_of : Option J → J
  sensor_data_of none = empty_object
  sensor_data_of (some v) = v

module _ {W J : Type 0} ⦃json : Json J⦄ ⦃real : RealJson W J⦄ where
  open json use {of_text, of_int, get, to_text, to_int}
  open real use {of_real, to_real}

  unfoldable pub task_fields : Task W J → List (Text × J)
  task_fields task =
      (codes "task_id", of_text task.task_id)
      ∷ (codes "device_id", of_text task.device_id)
      ∷ (codes "sensor_type", of_text task.sensor_type)
      ∷ (codes "cpu_percent", of_real task.requirements.cpu_percent)
      ∷ (codes "ram_mb", of_real task.requirements.ram_mb)
      ∷ (codes "bandwidth_mbps", of_real task.requirements.bandwidth_mbps)
      ∷ (codes "deadline_ms", of_int task.requirements.deadline_ms)
      ∷ (codes "priority", of_int (pos (priority_rank task.requirements.priority)))
      ∷ (codes "status", of_int (pos (status_code task.status)))
      ∷ (codes "assigned_edge_id", of_text task.assigned_edge_id)
      ∷ (codes "sensor_data", task.sensor_data)
      ∷ []

  unfoldable pub to_json : Task W J → J
  to_json task = object (task_fields task)

  abbrev pub real_at : Text → J → Decoding W
  real_at key j = at_key key j >>= λ v. or_throw (to_real v)

  unfoldable pub requirements_from_json : J → Decoding (TaskRequirements W)
  requirements_from_json j = real_at (codes "cpu_percent") j >>= λ cpu.
      real_at (codes "ram_mb") j >>= λ ram. real_at (codes "bandwidth_mbps") j >>= λ bandwidth.
      int_at (codes "deadline_ms") j >>= λ deadline. int_at (codes "priority") j >>= λ code.
      or_unknown (priority_of_code code) >>= λ priority. decoded (record {
        cpu_percent = cpu;
        ram_mb = ram;
        bandwidth_mbps = bandwidth;
        deadline_ms = deadline;
        priority = priority;
      })

  with_edge : Option J → Task W J → Decoding (Task W J)
  with_edge none task = decoded task
  with_edge (some v) task =
      or_throw (to_text v) >>= λ edge. decoded (set_assigned_edge_id edge task)

  with_status : Option J → Task W J → Decoding (Task W J)
  with_status none task = decoded task
  with_status (some v) task = or_throw (to_int v) >>= λ code.
      or_unknown (status_of_code code) >>= λ s. decoded (set_status s task)

  -- At the clock reading `now`.
  unfoldable pub from_json : ℕ → J → Decoding (Task W J)
  unfolding with_edge with_status
  from_json now j = requirements_from_json j >>= λ requirements.
      text_at (codes "task_id") j >>= λ id. text_at (codes "device_id") j >>= λ device.
      text_at (codes "sensor_type") j >>= λ sensor.
      with_edge (get (codes "assigned_edge_id") j)
        (new_task now id device sensor requirements (sensor_data_of (get (codes "sensor_data") j)))
      >>= λ task. with_status (get (codes "status") j) task

module _ {W J : Type 0} ⦃d : Double W⦄ ⦃json : Json J⦄ ⦃real : RealJson W J⦄
    (laws : IsJson W J) where
  -- A task that is written as a document and read back is the task, but for its times: the creation time
  -- is that of the reading, and the completion time is lost. The amounts are not NaN, and the JSON library
  -- keeps the laws of `IsJson`.
  pub from_json-to_json :
      (now : ℕ) (task : Task W J)
      → IsNum task.requirements.cpu_percent
      → IsNum task.requirements.ram_mb
      → IsNum task.requirements.bandwidth_mbps
      → from_json now (to_json task)
        ≡ decoded (record task { creation_time = now; completion_time = 0 })
  unfolding from_json to_json task_fields requirements_from_json new_task text_eq
  from_json-to_json now task c r b =
      rw
        (
          get-object laws (codes "cpu_percent") (task_fields task),
          get-object laws (codes "ram_mb") (task_fields task),
          get-object laws (codes "bandwidth_mbps") (task_fields task),
          get-object laws (codes "deadline_ms") (task_fields task),
          get-object laws (codes "priority") (task_fields task),
          get-object laws (codes "task_id") (task_fields task),
          get-object laws (codes "device_id") (task_fields task),
          get-object laws (codes "sensor_type") (task_fields task),
          get-object laws (codes "assigned_edge_id") (task_fields task),
          get-object laws (codes "sensor_data") (task_fields task),
          get-object laws (codes "status") (task_fields task),
        )
        (rw
          (
            laws.to_real-of_real task.requirements.cpu_percent c,
            laws.to_real-of_real task.requirements.ram_mb r,
            laws.to_real-of_real task.requirements.bandwidth_mbps b,
            laws.to_int-of_int task.requirements.deadline_ms,
            laws.to_int-of_int (pos (priority_rank task.requirements.priority)),
            priority_of_code-priority_rank task.requirements.priority,
            laws.to_text-of_text task.task_id,
            laws.to_text-of_text task.device_id,
            laws.to_text-of_text task.sensor_type,
            laws.to_text-of_text task.assigned_edge_id,
            laws.to_int-of_int (pos (status_code task.status)),
            status_of_code-status_code task.status,
          )
          refl)
