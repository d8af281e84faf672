-- ===== src/Allocator/Requests/Agreement.antt =====
-- `allocateTask` of resource_allocator.cpp against an attempt of `allocateTaskWithRetry`.
use multi_constraint_iot_edg.Common.{◌≡◌, refl}
use multi_constraint_iot_edg.Double.{Double}
use multi_constraint_iot_edg.Outcome.{returns, ◌>>=◌}
use multi_constraint_iot_edg.Task.{Task}
use multi_constraint_iot_edg.Database.{DatabaseLog}
use multi_constraint_iot_edg.Allocator.{
  AllocationResult, ResourceAllocator, Nodes, attempt_by, AllocationStrategy, round_robin,
  least_load, priority_based, multi_constraint, unknown,
}
use multi_constraint_iot_edg.Allocator.Requests.{
  Cluster, count_request, settle, allocate_once, conclude, allocate_task,
}

module _ {W J : Type 0} ⦃d : Double W⦄ where
  allocate_once-eq :
      (s : AllocationStrategy) (task : Task W J) (a : ResourceAllocator W) (nodes : Nodes W J)
      → allocate_once s task a nodes ≡ attempt_by s task a nodes
  unfolding allocate_once attempt_by
  allocate_once-eq round_robin task a nodes = refl
  allocate_once-eq least_load task a nodes = refl
  allocate_once-eq priority_based task a nodes = refl
  allocate_once-eq multi_constraint task a nodes = refl
  allocate_once-eq unknown task a nodes = refl

  conclude-eq :
      (task : Task W J) (log : DatabaseLog W J)
      (e : AllocationResult W × ResourceAllocator W × Nodes W J)
      → conclude task log e ≡ settle task log e
  unfolding conclude settle
  conclude-eq task log (r, a, nodes) = refl

  -- `allocateTask` does what a single attempt of `allocateTaskWithRetry` with its bookkeeping does, whose
  -- code the source writes out a second time.
  pub allocate_task-eq :
      (task : Task W J) (c : Cluster W J)
      → allocate_task task c ≡ (
          attempt_by c.allocator.strategy task (count_request c.allocator) c.nodes >>= λ end.
          returns (settle task c.database end))
  unfolding allocate_task conclude settle
  allocate_task-eq task c = rw allocate_once-eq refl
