-- ===== src/Allocator/Requests.antt =====
-- `ResourceAllocator::allocateTask` and `allocateTaskWithRetry` of resource_allocator.cpp: one request,
-- with its statistics, its effect on the task and its call of the database.
pub mod Agreement
use multi_constraint_iot_edg.Common.{
  ◌≡◌, refl, false, [], ℕ, zero, suc, ◌+◌, Bool, ◌||◌, is_empty, u64, if◌then◌else◌, text_eq,
}
use multi_constraint_iot_edg.Double.{Double, nought}
use multi_constraint_iot_edg.Outcome.{Outcome, returns, ◌>>=◌}
use multi_constraint_iot_edg.Task.{Task, TaskStatus, set_status, set_assigned_edge_id}
use multi_constraint_iot_edg.Database.{DatabaseLog, record_call, update_task_status}
use multi_constraint_iot_edg.Allocator.{
  AllocationResult, ResourceAllocator, Nodes, Attempt, attempt_by, unknown_strategy,
  AllocationStrategy, round_robin, least_load, priority_based, multi_constraint, unknown,
  allocate_round_robin, allocate_least_load, allocate_priority_based, allocate_multi_constraint,
}

-- What a request reads and changes: the nodes of the monitor, the allocator and the database.
pub record Cluster (W J : Type 0) : Type 0 where
  pub nodes : Nodes W J
  pub allocator : ResourceAllocator W
  pub database : DatabaseLog W J

abbrev pub count_request : {W : Type 0} → ResourceAllocator W → ResourceAllocator W
count_request a = record a { total_allocations = u64 (a.total_allocations + 1) }

module _ {W J : Type 0} where
  -- The bookkeeping after the last attempt.
  unfoldable pub settle :
      Task W J
      → DatabaseLog W J
      → AllocationResult W × ResourceAllocator W × Nodes W J
      → AllocationResult W × Task W J × Cluster W J
  settle task log (r, a, nodes) =
      if r.success
      then (
        r,
        set_status TaskStatus.queued (set_assigned_edge_id r.edge_id task),
        record {
          nodes = nodes;
          allocator = record a { successful_allocations = u64 (a.successful_allocations + 1) };
          database = record_call (update_task_status task.task_id TaskStatus.queued) log;
        },
      )
      else (
        r,
        task,
        record {
          nodes = nodes;
          allocator = record a { failed_allocations = u64 (a.failed_allocations + 1) };
          database = log;
        },
      )

module _ {W J : Type 0} ⦃d : Double W⦄ where
  -- The `switch` of `allocateTask`.
  allocate_once : AllocationStrategy → Task W J → ResourceAllocator W → Nodes W J → Attempt W J
  allocate_once round_robin task a nodes = allocate_round_robin task a nodes
  allocate_once least_load task a nodes = allocate_least_load task a nodes
  allocate_once priority_based task a nodes = allocate_priority_based task a nodes
  allocate_once multi_constraint task a nodes = allocate_multi_constraint task a nodes
  allocate_once unknown task a nodes = returns (
    record { success = false; edge_id = []; score = nought; reason = unknown_strategy },
    a,
    nodes,
  )

  -- Its end, behind the `switch`.
  conclude :
      Task W J
      → DatabaseLog W J
      → AllocationResult W × ResourceAllocator W × Nodes W J
      → AllocationResult W × Task W J × Cluster W J
  conclude task log (result, a, nodes) =
      let won = record a { successful_allocations = u64 (a.successful_allocations + 1) } in
      let lost = record a { failed_allocations = u64 (a.failed_allocations + 1) } in
      let log' = record_call (update_task_status task.task_id TaskStatus.queued) log in
      let queued = set_status TaskStatus.queued (set_assigned_edge_id result.edge_id task) in
      if result.success
      then (result, queued, record { nodes = nodes; allocator = won; database = log' })
      else (result, task, record { nodes = nodes; allocator = lost; database = log })

  unfoldable pub allocate_task :
      Task W J → Cluster W J → Outcome (AllocationResult W × Task W J × Cluster W J)
  unfolding allocate_once conclude
  allocate_task task c =
      let counted = record c.allocator {
        total_allocations = u64 (c.allocator.total_allocations + 1);
      } in
      allocate_once c.allocator.strategy task counted c.nodes >>= λ end.
      returns (conclude task c.database end)

  -- Retrying cannot help.
  unfoldable pub gives_up : AllocationResult W → Nodes W J → Bool
  gives_up r nodes = text_eq r.reason unknown_strategy || is_empty nodes

  -- The `for` loop, with the attempts that are left after this one. While the caller sleeps after
  -- attempt `k`, the other threads turn the nodes into `others k` of them.
  unfoldable pub retry_from :
      (ℕ → Nodes W J → Nodes W J) → ℕ → ℕ → Task W J → ResourceAllocator W → Nodes W J → Attempt W J
  unfolding gives_up
  retry_from others zero k task a nodes = attempt_by a.strategy task a nodes
  retry_from others (suc left) k task a nodes =
      attempt_by a.strategy task a nodes >>= λ (r, a', nodes').
      let next = retry_from others left (suc k) task a' (others k nodes') in
      if r.success || gives_up r nodes' then returns (r, a', nodes') else next

  unfoldable pub allocate_task_with_retry :
      (ℕ → Nodes W J → Nodes W J)
      → ℕ
      → Task W J
      → Cluster W J
      → Outcome (AllocationResult W × Task W J × Cluster W J)
  unfolding settle
  allocate_task_with_retry others max_retries task c =
      retry_from others max_retries 0 task (count_request c.allocator) c.nodes >>= λ end.
      returns (settle task c.database end)
