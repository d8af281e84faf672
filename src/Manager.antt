-- ===== src/Manager.antt =====
-- task_manager.h and task_manager.cpp: the tasks' identifiers and the queue of tasks that wait for the
-- controller. The profile of the sensor type is read from `TaskProfile`, the clock is an argument.
pub mod Identifiers
use multi_constraint_iot_edg.Common.{
  ℕ, zero, suc, ◌+◌, ◌-◌, ◌%◌, ◌/◌, Bool, List, [], ◌∷◌, ◌++◌, Option, none, some, u64, length, not,
  is_empty, if◌then◌else◌, Text, ltb,
}
use multi_constraint_iot_edg.Task.{Task, TaskRequirements, new_task}

pub record TaskManager (W J : Type 0) : Type 0 where
  pub task_queue : List (Task W J)
  pub total_tasks_created : ℕ
  pub total_tasks_processed : ℕ
  pub task_counter : ℕ

-- The decimal digits of a number, least significant first; `fuel` bounds their count.
unfoldable pub digits : ℕ → ℕ → List ℕ
digits zero n = []
digits (suc fuel) n =
    let rest = digits fuel (n / 10) in if ltb n 10 then (48 + n) ∷ [] else (48 + n % 10) ∷ rest

unfoldable pub reverse_onto : List ℕ → List ℕ → List ℕ
reverse_onto acc [] = acc
reverse_onto acc (x ∷ xs) = reverse_onto (x ∷ acc) xs

-- `<<` of an unsigned number; 20 digits are enough for 64 bits.
unfoldable pub decimal : ℕ → Text
decimal n = reverse_onto [] (digits 20 n)

unfoldable pub zeros : ℕ → Text
zeros zero = []
zeros (suc n) = 48 ∷ zeros n

-- `std::setfill('0') << std::setw(width)`.
unfoldable pub padded : ℕ → Text → Text
padded width t = zeros (width - length t) ++ t

unfoldable pub task_id_of : ℕ → Text
task_id_of n = 84 ∷ padded 6 (decimal n)

module _ {W J : Type 0} where
  unfoldable pub new_task_manager : TaskManager W J
  new_task_manager = record {
    task_queue = [];
    total_tasks_created = 0;
    total_tasks_processed = 0;
    task_counter = 0;
  }

  unfoldable pub generate_task_id : TaskManager W J → Text × TaskManager W J
  generate_task_id m =
      let n = u64 (m.task_counter + 1) in (task_id_of n, record m { task_counter = n })

  -- `callback` is the registered callback, or `none`.
  unfoldable pub create_task_from_sensor_data :
      ℕ
      → (Text → TaskRequirements W)
      → Option (Task W J → TaskManager W J → TaskManager W J)
      → Text
      → Text
      → J
      → TaskManager W J
      → Task W J × TaskManager W J
  create_task_from_sensor_data now profile callback device_id sensor_type sensor_data m =
      let (task_id, m') = generate_task_id m in
      let task = new_task now task_id device_id sensor_type (profile sensor_type) sensor_data in
      let m'' = record m' { total_tasks_created = u64 (m'.total_tasks_created + 1) } in
      elim callback [ none ↦ (task, m'') | some f ↦ (task, f task m'') ]

  unfoldable pub enqueue_waiting : Task W J → TaskManager W J → TaskManager W J
  enqueue_waiting task m = record m { task_queue = m.task_queue ++ task ∷ [] }

  dequeue_from : List (Task W J) → TaskManager W J → Option (Task W J) × TaskManager W J
  dequeue_from [] m = (none, m)
  dequeue_from (task ∷ rest) m = (
    some task,
    record m { task_queue = rest; total_tasks_processed = u64 (m.total_tasks_processed + 1) },
  )

  unfoldable pub dequeue_waiting : TaskManager W J → Option (Task W J) × TaskManager W J
  unfolding dequeue_from
  dequeue_waiting m = dequeue_from m.task_queue m

  unfoldable pub has_tasks_waiting : TaskManager W J → Bool
  has_tasks_waiting m = not (is_empty m.task_queue)

  unfoldable pub get_queue_size : TaskManager W J → ℕ
  get_queue_size m = length m.task_queue
