-- ===== src/Executor.antt =====
-- task_executor.h and task_executor.cpp: the execution of tasks on an edge node. `simulateTaskExecution`
-- sleeps in its middle, so it is modelled in two halves, before and after the sleep. `worker_turn` is
-- one turn of the loop of a node's thread, and System has the threads. The draw of the generator, between
-- 0.9 and 1.3, is an argument. The messages to the logger are left out.
pub mod Completion
pub mod Active
use multi_constraint_iot_edg.Common.{
  ℕ, ◌+◌, ◌==◌, Bool, true, false, [], ◌∷◌, Option, none, some, u64, length, not, if◌then◌else◌,
  Text, ℤ, pos, is_empty,
}
use multi_constraint_iot_edg.Common.Dict.{Dict, insert, erase}
use multi_constraint_iot_edg.Double.{Double, nought}
use multi_constraint_iot_edg.Task.{
  Task, TaskStatus, set_status, set_completion_time, is_deadline_exceeded,
}
use multi_constraint_iot_edg.Edge.{EdgeNode, deallocate_resources}
use multi_constraint_iot_edg.Database.{
  DatabaseLog, record_call, update_task_status, save_task_execution,
}
use multi_constraint_iot_edg.Scheduler.{Readings, TaskScheduler, get_next_task}

pub record TaskExecutor (W J : Type 0) : Type 0 where
  pub active_tasks : Dict (Task W J)
  pub total_tasks_executed : ℕ
  pub total_tasks_failed : ℕ
  pub total_execution_time_ms : W

-- What an execution works on: the node, the task, the executor and the database.
pub record Execution (W J : Type 0) : Type 0 where
  pub edge : EdgeNode W J
  pub task : Task W J
  pub executor : TaskExecutor W J
  pub database : DatabaseLog W J

unfoldable pub final_status : Bool → TaskStatus
final_status met_deadline = if met_deadline then TaskStatus.completed else TaskStatus.failed

module _ {W J : Type 0} ⦃d : Double W⦄ where
  open d use {literal, add, mul, div, of_int, to_int}

  unfoldable pub new_task_executor : TaskExecutor W J
  new_task_executor = record {
    active_tasks = [];
    total_tasks_executed = 0;
    total_tasks_failed = 0;
    total_execution_time_ms = nought;
  }

  -- The null pointer is ignored.
  unfoldable pub register_executor_node :
      Option (EdgeNode W J) → Dict (EdgeNode W J) → Dict (EdgeNode W J)
  register_executor_node none nodes = nodes
  register_executor_node (some e) nodes = insert e.edge_id e nodes

  unfoldable pub unregister_executor_node : Text → Dict (EdgeNode W J) → Dict (EdgeNode W J)
  unregister_executor_node edge_id nodes = erase edge_id nodes

  unfoldable pub estimate_execution_time : W → Task W J → ℤ
  estimate_execution_time jitter task =
      to_int (mul (add (literal 5 1) (mul task.requirements.cpu_percent (literal 8 10))) jitter)

  -- Before the sleep.
  unfoldable pub begin_execution : Execution W J → Execution W J
  begin_execution x =
      let running = set_status TaskStatus.running x.task in
      record x {
        task = running;
        executor = record x.executor {
          active_tasks = insert running.task_id running x.executor.active_tasks;
        };
        database = record_call (update_task_status running.task_id TaskStatus.running) x.database;
      }

  unfoldable pub count_execution : Bool → ℤ → TaskExecutor W J → TaskExecutor W J
  count_execution met_deadline estimated_ms x = record x {
    total_tasks_executed =
        if met_deadline then u64 (x.total_tasks_executed + 1) else x.total_tasks_executed;
    total_tasks_failed =
        if met_deadline then x.total_tasks_failed else u64 (x.total_tasks_failed + 1);
    total_execution_time_ms = add x.total_execution_time_ms (of_int estimated_ms);
  }

  -- After the sleep of `estimated_ms`, at the clock reading `now`.
  unfoldable pub finish_execution : ℕ → ℤ → Execution W J → Execution W J
  finish_execution now estimated_ms x =
      let met_deadline = not (is_deadline_exceeded now x.task) in
      let ended = set_status (final_status met_deadline) (set_completion_time now x.task) in
      record {
        edge =
            deallocate_resources ended.requirements.cpu_percent ended.requirements.ram_mb
              ended.requirements.bandwidth_mbps x.edge;
        task = ended;
        executor =
            count_execution met_deadline estimated_ms
              (record x.executor { active_tasks = erase ended.task_id x.executor.active_tasks });
        database =
            record_call (save_task_execution ended.task_id estimated_ms met_deadline) (
              record_call (update_task_status ended.task_id (final_status met_deadline))
                x.database);
      }

  unfoldable pub simulate_task_execution : ℕ → W → Execution W J → Execution W J
  simulate_task_execution now jitter x =
      let begun = begin_execution x in
      finish_execution now (estimate_execution_time jitter begun.task) begun

  turn :
      ℕ
      → W
      → TaskExecutor W J
      → DatabaseLog W J
      → Option (Task W J) × Option (EdgeNode W J)
      → Option (EdgeNode W J) × TaskExecutor W J × DatabaseLog W J
  turn now jitter x log (some task, some edge) =
      let y =
        simulate_task_execution now jitter
          (record { edge = edge; task = task; executor = x; database = log }) in
      (some y.edge, y.executor, y.database)
  turn now jitter x log (_, edge) = (edge, x, log)

  -- The scheduler reads the clock as `now` says; the execution ends at `later`.
  unfoldable pub worker_turn :
      Readings
      → ℕ
      → W
      → TaskScheduler
      → EdgeNode W J
      → TaskExecutor W J
      → DatabaseLog W J
      → Option (EdgeNode W J) × TaskExecutor W J × DatabaseLog W J
  unfolding turn
  worker_turn now later jitter s edge x log =
      turn later jitter x log (get_next_task now s (some edge))

  unfoldable pub get_average_execution_time_ms : TaskExecutor W J → W
  get_average_execution_time_ms x =
      let completed = u64 (x.total_tasks_executed + x.total_tasks_failed) in
      if completed == 0 then nought else div x.total_execution_time_ms (of_int (pos completed))

  unfoldable pub sum_latency : W → Dict (EdgeNode W J) → W
  sum_latency total [] = total
  sum_latency total ((key, e) ∷ nodes) =
      sum_latency (add total (of_int e.capacity.latency_ms)) nodes

  unfoldable pub get_average_latency : Dict (EdgeNode W J) → W
  get_average_latency nodes =
      if is_empty nodes
      then nought
      else div (sum_latency nought nodes) (of_int (pos (length nodes)))
