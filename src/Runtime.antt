-- ===== src/Runtime.antt =====
-- live_runtime.h and live_runtime.cpp: the run of a workload behind the dashboard, one turn of the loop
-- at a time. Its start, its end and the documents for the dashboard are in child modules. The lock on the
-- configuration is left out: no call holds it while it makes another one that takes it. The vector of the
-- nodes is read as the map of the monitor, which holds the same nodes.
pub mod Strategies
pub mod Submission
pub mod Draining
pub mod Ending
pub mod Startup
pub mod Queries
use multi_constraint_iot_edg.Common.{
  ℕ, ◌+◌, Bool, true, false, List, [], ◌∷◌, ◌++◌, Option, none, some, length, is_empty,
  if◌then◌else◌, Text, text_eq, codes, ℤ, pos,
}
use multi_constraint_iot_edg.Common.Dict.{lookup, adjust, insert}
use multi_constraint_iot_edg.Double.{Double, nought, hundred}
use multi_constraint_iot_edg.Outcome.{Outcome, returns, ◌>>=◌}
use multi_constraint_iot_edg.Task.{Task}
use multi_constraint_iot_edg.Edge.{EdgeNode, get_queue_length}
use multi_constraint_iot_edg.Database.{
  DatabaseLog, record_call, save_task, save_allocation, save_allocation_failure,
  save_resource_snapshot,
}
use multi_constraint_iot_edg.Allocator.{
  ResourceAllocator, AllocationStrategy, AllocationResult, Nodes,
}
use multi_constraint_iot_edg.Allocator as Allocator
use multi_constraint_iot_edg.Allocator.Requests.{Cluster, allocate_task_with_retry}
use multi_constraint_iot_edg.Scheduler.{TaskScheduler, SchedulingStrategy, schedule_task}
use multi_constraint_iot_edg.Scheduler as Scheduler

-- A strategy, and whether the name was one of a strategy.
unfoldable pub allocation_from_string : Text → AllocationStrategy × Bool
allocation_from_string value =
    if text_eq value (codes "round_robin")
    then (AllocationStrategy.round_robin, true)
    else if text_eq value (codes "least_load")
    then (AllocationStrategy.least_load, true)
    else if text_eq value (codes "priority_based")
    then (AllocationStrategy.priority_based, true)
    else if text_eq value (codes "multi_constraint")
    then (AllocationStrategy.multi_constraint, true)
    else (AllocationStrategy.multi_constraint, false)

unfoldable pub scheduling_from_string : Text → SchedulingStrategy × Bool
scheduling_from_string value =
    if text_eq value (codes "fifo")
    then (SchedulingStrategy.fifo, true)
    else if text_eq value (codes "priority_based")
    then (SchedulingStrategy.priority_based, true)
    else if text_eq value (codes "edf")
    then (SchedulingStrategy.earliest_deadline_first, true)
    else if text_eq value (codes "round_robin")
    then (SchedulingStrategy.round_robin_time_slice, true)
    else (SchedulingStrategy.priority_based, false)

unfoldable pub allocation_to_string : AllocationStrategy → Text
allocation_to_string AllocationStrategy.round_robin = codes "round_robin"
allocation_to_string AllocationStrategy.least_load = codes "least_load"
allocation_to_string AllocationStrategy.priority_based = codes "priority_based"
allocation_to_string AllocationStrategy.multi_constraint = codes "multi_constraint"
allocation_to_string AllocationStrategy.unknown = codes "multi_constraint"

unfoldable pub scheduling_to_string : SchedulingStrategy → Text
scheduling_to_string SchedulingStrategy.fifo = codes "fifo"
scheduling_to_string SchedulingStrategy.priority_based = codes "priority_based"
scheduling_to_string SchedulingStrategy.earliest_deadline_first = codes "edf"
scheduling_to_string SchedulingStrategy.round_robin_time_slice = codes "round_robin"
scheduling_to_string SchedulingStrategy.unknown = codes "priority_based"

unfoldable pub allocation_label : AllocationStrategy → Text
allocation_label AllocationStrategy.round_robin = codes "Round Robin"
allocation_label AllocationStrategy.least_load = codes "Least Load"
allocation_label AllocationStrategy.priority_based = codes "Priority Based"
allocation_label AllocationStrategy.multi_constraint = codes "Multi-Constraint"
allocation_label AllocationStrategy.unknown = codes "Multi-Constraint"

unfoldable pub scheduling_label : SchedulingStrategy → Text
scheduling_label SchedulingStrategy.fifo = codes "FIFO"
scheduling_label SchedulingStrategy.priority_based = codes "Priority Based"
scheduling_label SchedulingStrategy.earliest_deadline_first = codes "EDF (Earliest Deadline First)"
scheduling_label SchedulingStrategy.round_robin_time_slice = codes "Round Robin"
scheduling_label SchedulingStrategy.unknown = codes "Priority Based"

-- The part of the runtime that an initialized one works on, with the configuration's three fields.
pub record LiveRuntime (W J : Type 0) : Type 0 where
  pub cluster : Cluster W J
  pub scheduler : TaskScheduler
  pub automatic_mode : Bool
  pub strategy : Text
  pub scheduling : Text

module _ {W J : Type 0} where
  unfoldable pub use_strategies :
      AllocationStrategy → SchedulingStrategy → LiveRuntime W J → LiveRuntime W J
  use_strategies allocation scheduling r = record r {
    cluster = record r.cluster {
      allocator = Allocator.set_strategy allocation r.cluster.allocator;
    };
    scheduler = Scheduler.set_strategy scheduling r.scheduler;
  }

  record_snapshots : Nodes W J → DatabaseLog W J → DatabaseLog W J
  record_snapshots [] log = log
  record_snapshots ((key, e) ∷ nodes) log =
      record_snapshots nodes
        (record_call (save_resource_snapshot e.edge_id e.current_usage (get_queue_length e)) log)

  unfoldable pub record_resource_snapshots : LiveRuntime W J → LiveRuntime W J
  unfolding record_snapshots
  record_resource_snapshots r = record r {
    cluster = record r.cluster { database = record_snapshots r.cluster.nodes r.cluster.database };
  }

module _ {W : Type 0} ⦃d : Double W⦄ where
  open d use {literal, le}

  unfoldable pub recommended_allocation : W → AllocationStrategy
  recommended_allocation average =
      if le (literal 70 1) average
      then AllocationStrategy.least_load
      else AllocationStrategy.multi_constraint

  unfoldable pub recommended_scheduling : W → SchedulingStrategy
  recommended_scheduling average =
      if le (literal 60 1) average
      then SchedulingStrategy.earliest_deadline_first
      else SchedulingStrategy.priority_based

module _ {W J : Type 0} ⦃d : Double W⦄ where
  open d use {add, mul, div, lt, of_int}

  unfoldable pub total_cpu : W → Nodes W J → W
  total_cpu total [] = total
  total_cpu total ((key, e) ∷ nodes) =
      total_cpu
        (if lt nought e.capacity.cpu_percent
          then add total (mul (div e.current_usage.cpu_percent e.capacity.cpu_percent) hundred)
          else total)
        nodes

  unfoldable pub average_cpu : Nodes W J → W
  average_cpu nodes = div (total_cpu nought nodes) (of_int (pos (length nodes)))

  unfoldable pub choose_recommended_configuration : LiveRuntime W J → LiveRuntime W J
  choose_recommended_configuration r =
      if is_empty r.cluster.nodes
      then r
      else use_strategies (recommended_allocation (average_cpu r.cluster.nodes))
          (recommended_scheduling (average_cpu r.cluster.nodes)) r

  apply_scheduling :
      AllocationStrategy
      → Text
      → SchedulingStrategy × Bool
      → LiveRuntime W J
      → LiveRuntime W J × Option Text
  apply_scheduling allocation name (scheduling, valid) r =
      if valid
      then (
        record (use_strategies allocation scheduling r) {
          automatic_mode = false;
          strategy = allocation_to_string allocation;
          scheduling = scheduling_to_string scheduling;
        },
        none,
      )
      else (r, some (codes "Unsupported scheduling algorithm: " ++ name))

  apply_allocation :
      Text → AllocationStrategy × Bool → Text → LiveRuntime W J → LiveRuntime W J × Option Text
  unfolding apply_scheduling
  apply_allocation name (allocation, valid) scheduling r =
      if valid
      then apply_scheduling allocation scheduling (scheduling_from_string scheduling) r
      else (r, some (codes "Unsupported allocation strategy: " ++ name))

  -- The error is `none` where the call returns true. A runtime that is not initialized is not modelled.
  unfoldable pub apply_configuration :
      Bool → Text → Text → LiveRuntime W J → LiveRuntime W J × Option Text
  unfolding apply_allocation
  apply_configuration automatic allocation scheduling r =
      if automatic
      then (choose_recommended_configuration (record r { automatic_mode = true }), none)
      else apply_allocation allocation (allocation_from_string allocation) scheduling r

  put_back : Text → Option (EdgeNode W J) → Nodes W J → Nodes W J
  put_back key none nodes = nodes
  put_back key (some e) nodes = adjust key (λ old. e) nodes

  place :
      LiveRuntime W J
      → AllocationResult W
      → TaskScheduler × Option (EdgeNode W J) × Option (Task W J)
      → Cluster W J
      → Option (Task W J) × LiveRuntime W J
  unfolding put_back
  place r result (s, edge, scheduled) c = (
    scheduled,
    record r { cluster = record c { nodes = put_back result.edge_id edge c.nodes }; scheduler = s },
  )

  log_call :
      (DatabaseLog W J → DatabaseLog W J)
      → Option (Task W J) × LiveRuntime W J
      → Option (Task W J) × LiveRuntime W J
  log_call f (task, r) =
      (task, record r { cluster = record r.cluster { database = f r.cluster.database } })

  -- The end of a request: the task is put into the queue of the node that the result names.
  unfoldable pub dispatch :
      LiveRuntime W J
      → AllocationResult W × Task W J × Cluster W J
      → Option (Task W J) × LiveRuntime W J
  unfolding place log_call
  dispatch r (result, task, c) =
      if result.success
      then log_call
          (record_call (
            save_allocation task.task_id result.edge_id result.score
              (allocation_to_string c.allocator.strategy)))
          (place r result (schedule_task r.scheduler (lookup result.edge_id c.nodes) (some task)) c)
      else (
        some task,
        record r {
          cluster = record c {
            database = record_call (save_allocation_failure task.task_id result.reason) c.database;
          };
        },
      )

  recommend : LiveRuntime W J → LiveRuntime W J
  recommend r = if r.automatic_mode then choose_recommended_configuration r else r

  -- One turn of the loop of `processingLoop`, for a task that has just been created.
  unfoldable pub submit_task :
      (ℕ → Nodes W J → Nodes W J)
      → Task W J
      → LiveRuntime W J
      → Outcome (Option (Task W J) × LiveRuntime W J)
  unfolding recommend
  submit_task others task r0 =
      let r = recommend r0 in
      let told = record r.cluster { database = record_call (save_task task) r.cluster.database } in
      allocate_task_with_retry others 200 task told >>= λ e. returns (dispatch r e)
