-- ===== src/Examples/Execution.antt =====
-- The theorems on nodes, tasks, their order and their execution, at concrete ones.
use multi_constraint_iot_edg.Common.{
  length, false, ◌⊎◌, ltb_ℤ, sub_ℕ, tdiv, ◌-ℤ◌, ◌+ℤ◌, ℕ, ◌+◌, ◌≡◌, refl, true, none, some, [], ◌∷◌,
  ◌++◌, u64, List, arith, Perm, Text, if◌then◌else◌, codes, text_eq,
}
use multi_constraint_iot_edg.Common.Dict.{lookup}
use multi_constraint_iot_edg.Double.{◌≼◌, nought}
use multi_constraint_iot_edg.Double.Fixed.{
  fixed_div, fixed_mul, Fixed, fixed_double, Fixed-IsOrdered, Fixed-IsExact,
}
use multi_constraint_iot_edg.Task.{TaskStatus, Task}
use multi_constraint_iot_edg.Edge.{
  can_allocate, allocate_resources, deallocate_resources, simulate_resource_fluctuation,
  get_queued_tasks, dequeue_task,
}
use multi_constraint_iot_edg.Edge.Accounting.{
  IsValid, allocate_resources-IsValid, deallocate_resources-IsValid,
  deallocate_resources-allocate_resources, simulate_resource_fluctuation_bounds, enqueue_all,
  enqueue_all_lem, dequeue_times, all_some,
}
use multi_constraint_iot_edg.Scheduler.{Readings, TaskScheduler, SchedulingStrategy, get_next_task}
use multi_constraint_iot_edg.Scheduler.Ranking.{IsSteady, Sooner, NotLater}
use multi_constraint_iot_edg.Scheduler.Order.{IsNextBy, get_next_task_lem, get_next_task-none}
use multi_constraint_iot_edg.Scheduler.Service.{serve, IsDescending, serve-perm, serve-IsDescending}
use multi_constraint_iot_edg.Executor.{estimate_execution_time, Execution, simulate_task_execution}
use multi_constraint_iot_edg.Executor.Completion.{
  Ended, simulate_task_execution-lem, simulate_task_execution-edge,
}
use multi_constraint_iot_edg.Examples.{
  first_node, second_node, urgent_task, plain_task, node-IsValid, request,
}
open fixed_double use {literal}

can : can_allocate (literal 10 1) (literal 50 1) (literal 1 1) first_node ≡ true
unfolding can_allocate ◌-ℤ◌
can = refl

allocate_resources-IsValid_example :
    IsValid Fixed-IsExact
      (allocate_resources (literal 10 1) (literal 50 1) (literal 1 1) first_node)
allocate_resources-IsValid_example =
    allocate_resources-IsValid Fixed-IsExact Fixed-IsOrdered (literal 10 1) (literal 50 1)
      (literal 1 1) first_node (request _ _ _) (node-IsValid _ _ _) can

deallocate_resources-IsValid_example :
    IsValid Fixed-IsExact
      (deallocate_resources (literal 10 1) (literal 50 1) (literal 1 1) first_node)
deallocate_resources-IsValid_example =
    deallocate_resources-IsValid Fixed-IsExact Fixed-IsOrdered (literal 10 1) (literal 50 1)
      (literal 1 1) first_node (request _ _ _) (node-IsValid _ _ _)

deallocate_resources-allocate_resources_example :
    deallocate_resources
      (literal 10 1)
      (literal 50 1)
      (literal 1 1)
      (allocate_resources (literal 10 1) (literal 50 1) (literal 1 1) first_node)
    ≡ record first_node { total_tasks_processed = u64 (first_node.total_tasks_processed + 1) }
deallocate_resources-allocate_resources_example =
    deallocate_resources-allocate_resources Fixed-IsExact Fixed-IsOrdered (literal 10 1)
      (literal 50 1) (literal 1 1) first_node (request _ _ _) (node-IsValid _ _ _) can

simulate_resource_fluctuation_bounds_example :
    let u = (simulate_resource_fluctuation (literal 4 1) (literal 3 1) first_node).current_usage in
    (nought ≼ u.cpu_percent)
    × (u.cpu_percent ≼ first_node.capacity.cpu_percent)
    × (nought ≼ u.ram_mb)
    × (u.ram_mb ≼ first_node.capacity.ram_mb)
    × (u.bandwidth_mbps ≡ first_node.current_usage.bandwidth_mbps)
unfolding ◌+ℤ◌ fixed_mul fixed_div
simulate_resource_fluctuation_bounds_example =
    simulate_resource_fluctuation_bounds Fixed-IsOrdered (literal 4 1) (literal 3 1) first_node refl
      refl refl refl

enqueue_all_lem_example :
    let waiting = first_node.task_queue ++ urgent_task ∷ [] in
    (get_queued_tasks (enqueue_all (urgent_task ∷ []) first_node) ≡ waiting)
    × (dequeue_times (length waiting) (enqueue_all (urgent_task ∷ []) first_node)
        ≡ (all_some waiting, record first_node { task_queue = [] }))
    × (dequeue_task (dequeue_times (length waiting) (enqueue_all (urgent_task ∷ []) first_node)).1
        ≡ (none, record first_node { task_queue = [] }))
enqueue_all_lem_example = enqueue_all_lem (urgent_task ∷ []) first_node

abbrev scheduler : TaskScheduler
scheduler = record { strategy = SchedulingStrategy.priority_based; total_tasks_scheduled = 2 }

abbrev by_deadline : TaskScheduler
by_deadline = record {
  strategy = SchedulingStrategy.earliest_deadline_first;
  total_tasks_scheduled = 2;
}

-- The second reading of a comparison is half a millisecond after the first.
abbrev standing : Readings
standing i = (6_000_000, 6_500_000)

plain_task-IsSteady : IsSteady standing 6_000_000 plain_task
unfolding tdiv
plain_task-IsSteady i = (refl, refl)

urgent_task-IsSteady : IsSteady standing 6_000_000 urgent_task
unfolding tdiv
urgent_task-IsSteady i = (refl, refl)

get_next_task_lem_example :
    (t : Task Fixed ℕ) × (rest : List (Task Fixed ℕ)) × (get_next_task standing by_deadline
        (some first_node)
      ≡ (some t, some (record first_node { task_queue = rest })))
    × IsNextBy
        (Sooner 6_000_000)
        (NotLater 6_000_000)
        SchedulingStrategy.earliest_deadline_first
        first_node.task_queue
        t
        rest
get_next_task_lem_example =
    get_next_task_lem standing 6_000_000 by_deadline first_node plain_task (urgent_task ∷ [])
      (plain_task-IsSteady, (urgent_task-IsSteady, tt)) refl

get_next_task-none_example :
    (get_next_task standing scheduler (some second_node) ≡ (none, some second_node))
    × (get_next_task {W = Fixed} {J = ℕ} standing scheduler none ≡ (none, none))
get_next_task-none_example = get_next_task-none standing scheduler second_node refl

serve-perm_example : Perm (serve 5 (λ n. standing) scheduler first_node) first_node.task_queue
serve-perm_example =
    serve-perm 5 (λ n. standing) scheduler first_node.task_queue first_node refl (omega arith)

serve-IsDescending_example : IsDescending (serve 5 (λ n. standing) scheduler first_node)
serve-IsDescending_example =
    serve-IsDescending 5 (λ n. standing) scheduler first_node.task_queue first_node refl refl

abbrev execution : Execution Fixed ℕ
execution = record {
  edge = allocate_resources (literal 10 1) (literal 50 1) (literal 1 1) first_node;
  task = urgent_task;
  executor = record {
    active_tasks = (codes "T000009", plain_task) ∷ [];
    total_tasks_executed = 4;
    total_tasks_failed = 1;
    total_execution_time_ms = literal 70 1;
  };
  database = [];
}

simulate_task_execution-lem_example :
    let y = simulate_task_execution 9_000_000 (literal 1 1) execution in
    let late =
      ltb_ℤ urgent_task.requirements.deadline_ms
        (tdiv (sub_ℕ 9_000_000 urgent_task.creation_time) 1_000_000) in
    let ms = estimate_execution_time (literal 1 1) urgent_task in
    ((k : Text)
      → lookup k y.executor.active_tasks ≡ (
          if text_eq urgent_task.task_id k then none else lookup k execution.executor.active_tasks))
    × (((late ≡ false) × Ended true TaskStatus.completed execution y (u64 (4 + 1)) 1 ms)
        ⊎ ((late ≡ true) × Ended false TaskStatus.failed execution y 4 (u64 (1 + 1)) ms))
simulate_task_execution-lem_example =
    simulate_task_execution-lem 9_000_000 (literal 1 1) execution (tt, tt)

simulate_task_execution-edge_example :
    (simulate_task_execution 9_000_000 (literal 1 1) execution).edge
    ≡ record first_node { total_tasks_processed = u64 (first_node.total_tasks_processed + 1) }
simulate_task_execution-edge_example =
    simulate_task_execution-edge Fixed-IsOrdered Fixed-IsExact 9_000_000 (literal 1 1) execution
      first_node (request _ _ _) (node-IsValid _ _ _) can refl
