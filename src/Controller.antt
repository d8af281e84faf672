-- ===== src/Controller.antt =====
-- resource_controller.h and resource_controller.cpp: the component that has tasks allocated and reacts to
-- the failures of nodes. Its thread is not modelled: `processing_step` is one turn of its loop. The
-- messages to the logger are left out.
pub mod Reallocation
pub mod Turns
pub mod Failure
pub mod Health
use multi_constraint_iot_edg.Common.{
  ℕ, zero, suc, ◌+◌, Bool, [], Option, none, some, u64, length, if◌then◌else◌, Text,
}
use multi_constraint_iot_edg.Common.Dict.{lookup, adjust}
use multi_constraint_iot_edg.Double.{Double}
use multi_constraint_iot_edg.Outcome.{Outcome, returns, ◌>>=◌}
use multi_constraint_iot_edg.Task.{Task, TaskStatus, set_status, set_assigned_edge_id}
use multi_constraint_iot_edg.Edge.{dequeue_task}
use multi_constraint_iot_edg.Database.{DatabaseLog}
use multi_constraint_iot_edg.Allocator.{ResourceAllocator, AllocationResult}
use multi_constraint_iot_edg.Allocator.Requests.{Cluster, allocate_task}
use multi_constraint_iot_edg.Monitor.{
  ResourceMonitor, put_nodes, get_edge_node, update_resource_metrics, check_edge_node_health,
  simulate_node_failure, recover_node_from_failure,
}
use multi_constraint_iot_edg.Manager.{TaskManager, dequeue_waiting, enqueue_waiting}

-- The controller's counters and the objects that it shares with the other components.
pub record Controller (W J : Type 0) : Type 0 where
  pub monitor : ResourceMonitor W J
  pub allocator : ResourceAllocator W
  pub task_manager : TaskManager W J
  pub database : DatabaseLog W J
  pub total_tasks_allocated : ℕ
  pub total_allocation_failures : ℕ
  pub total_reallocations : ℕ

module _ {W J : Type 0} where
  abbrev pub put_monitor : ResourceMonitor W J → Controller W J → Controller W J
  put_monitor m s = record s { monitor = m }

  abbrev pub monitor_of : Controller W J → ResourceMonitor W J
  monitor_of s = s.monitor

  -- The callback that the constructor registers at the task manager.
  unfoldable pub on_task_created : Task W J → TaskManager W J → TaskManager W J
  on_task_created task m = enqueue_waiting task m

  -- The counters of `allocateTaskNow`, and what the allocator changed.
  unfoldable pub count_allocation :
      AllocationResult W × Task W J × Cluster W J
      → Controller W J
      → AllocationResult W × Task W J × Controller W J
  count_allocation (r, task, c) s = (
    r,
    task,
    record s {
      monitor = put_nodes c.nodes s.monitor;
      allocator = c.allocator;
      database = c.database;
      total_tasks_allocated =
          if r.success then u64 (s.total_tasks_allocated + 1) else s.total_tasks_allocated;
      total_allocation_failures =
          if r.success then s.total_allocation_failures else u64 (s.total_allocation_failures + 1);
    },
  )

  unfoldable pub count_reallocation : Bool → Controller W J → Controller W J
  count_reallocation success s = record s {
    total_reallocations =
        if success then u64 (s.total_reallocations + 1) else s.total_reallocations;
  }

module _ {W J : Type 0} ⦃d : Double W⦄ where
  unfoldable pub allocate_task_now :
      Task W J → Controller W J → Outcome (AllocationResult W × Task W J × Controller W J)
  allocate_task_now task s =
      allocate_task task
        (record { nodes = s.monitor.edge_nodes; allocator = s.allocator; database = s.database })
      >>= λ e. returns (count_allocation e s)

  -- A task that the failed node gave up is marked and allocated anew.
  unfoldable pub reallocate_task : Task W J → Controller W J → Outcome (Controller W J)
  reallocate_task task s =
      allocate_task_now (set_assigned_edge_id [] (set_status TaskStatus.reallocated task)) s
      >>= λ (r, task', s'). returns (count_reallocation r.success s')

  pub take_failed : Text → Controller W J → Controller W J
  take_failed edge_id s =
      put_monitor
        (put_nodes (adjust edge_id (λ e. (dequeue_task e).1) s.monitor.edge_nodes) s.monitor) s

  -- The `while` loop over the queue of the failed node, on fuel.
  unfoldable pub reallocate_loop : ℕ → Text → Controller W J → Outcome (Controller W J)
  unfolding take_failed
  reallocate_loop zero edge_id s = returns s
  reallocate_loop (suc fuel) edge_id s = elim (lookup edge_id s.monitor.edge_nodes) [
    | none ↦ returns s
    | some node ↦ elim (dequeue_task node).0 [
      | none ↦ returns s
      | some task ↦ reallocate_task task (take_failed edge_id s) >>= reallocate_loop fuel edge_id
    ]
  ]

  unfoldable pub reallocate_tasks_from_failed_node :
      Text → Controller W J → Outcome (Controller W J)
  reallocate_tasks_from_failed_node edge_id s = get_edge_node edge_id s.monitor >>= λ found.
      elim found [
        | none ↦ returns s
        | some node ↦ reallocate_loop (suc (length node.task_queue)) edge_id s
      ]

  unfoldable pub handle_node_failure : Text → Controller W J → Outcome (Controller W J)
  handle_node_failure edge_id s = reallocate_tasks_from_failed_node edge_id s

  -- The callback that the constructor registers at the monitor.
  unfoldable pub on_node_status_changed : Text → Bool → Controller W J → Outcome (Controller W J)
  on_node_status_changed edge_id is_available s =
      if is_available then returns s else handle_node_failure edge_id s

  -- The monitor's operations with that callback.
  unfoldable pub check_health : Controller W J → Outcome (Controller W J)
  check_health s = check_edge_node_health monitor_of put_monitor (some on_node_status_changed) s

  unfoldable pub fail_node : Text → Controller W J → Outcome (Controller W J)
  fail_node edge_id s =
      simulate_node_failure monitor_of put_monitor (some on_node_status_changed) edge_id s

  unfoldable pub recover_node : Text → Controller W J → Outcome (Controller W J)
  recover_node edge_id s =
      recover_node_from_failure monitor_of put_monitor (some on_node_status_changed) edge_id s

  process_waiting : Option (Task W J) × TaskManager W J → Controller W J → Outcome (Controller W J)
  process_waiting (none, m) s = returns (record s { task_manager = m })
  process_waiting (some task, m) s =
      allocate_task_now task (record s { task_manager = m }) >>= λ (r, task', s'). returns s'

  -- One turn of `processingLoop`, with the draws of the fluctuation.
  unfoldable pub processing_step : (Text → W × W) → Controller W J → Outcome (Controller W J)
  unfolding process_waiting
  processing_step draws s = process_waiting (dequeue_waiting s.task_manager) s >>= λ s'.
      update_resource_metrics draws s'.monitor >>= λ m. returns (put_monitor m s')
