-- ===== src/Allocator/Capacity.antt =====
-- What the requests of resource_allocator.cpp keep: the capacity of each edge node, the map of nodes, and
-- the sum of the statistics.
use multi_constraint_iot_edg.Common.{
  zero, suc, ◌∙◌, some-injective, sym, ℕ, ◌+◌, ◌≡◌, ◌≢◌, refl, subst, true, arith, u64, inl, inr,
  Text, and_true,
}
use multi_constraint_iot_edg.Common.Dict.{Values, Values-adjust, lookup}
use multi_constraint_iot_edg.Double.{Double, IsOrdered, IsExact}
use multi_constraint_iot_edg.Outcome.{Returns, Returns-weaken}
use multi_constraint_iot_edg.Task.{Task}
use multi_constraint_iot_edg.Edge.{EdgeNode}
use multi_constraint_iot_edg.Edge.Accounting.{IsValid, IsRequest, allocate_resources-IsValid}
use multi_constraint_iot_edg.Allocator.{
  some, AllocationResult, ResourceAllocator, AllocationStrategy, round_robin, least_load,
  priority_based, multi_constraint, unknown, Nodes, is_viable, reserve,
}
use multi_constraint_iot_edg.Allocator.Choice.{moved_on}
use multi_constraint_iot_edg.Allocator.Requests.{Cluster, count_request, allocate_task_with_retry}
use multi_constraint_iot_edg.Allocator.Served.{
  IsFine, IsCalm, IsServed, waited, allocate_task_with_retry-IsServed,
}

module _ {W J : Type 0} ⦃d : Double W⦄ (order : IsOrdered W) (exact : IsExact W) where
  -- The amounts that a task asks for.
  abbrev pub Asks : Task W J → Type 0
  Asks task =
      IsRequest exact task.requirements.cpu_percent task.requirements.ram_mb
        task.requirements.bandwidth_mbps

  -- No node of the map is over its capacity.
  abbrev pub IsWithin : Nodes W J → Type 0
  IsWithin = Values (IsValid exact)

  reserve-IsWithin :
      (task : Task W J) (key : Text) (edge : EdgeNode W J) (nodes : Nodes W J)
      → Asks task
      → IsWithin nodes
      → lookup key nodes ≡ some edge
      → is_viable task edge ≡ true
      → IsWithin (reserve task key nodes)
  unfolding reserve is_viable
  reserve-IsWithin task key edge nodes asks within found viable =
      Values-adjust (IsValid exact) key _ nodes within (λ v e valid.
        let same : edge ≡ v = some-injective _ _ (sym found ∙ e) in
        allocate_resources-IsValid exact order _ _ _ v asks valid
          (and_true (subst (λ n. is_viable task n ≡ true) same viable)).1)

  waited-IsWithin :
      (others : ℕ → Nodes W J → Nodes W J) (j k : ℕ) (nodes : Nodes W J)
      → ((k : ℕ) (nodes : Nodes W J) → IsWithin nodes → IsWithin (others k nodes))
      → IsWithin nodes
      → IsWithin (waited others k j nodes)
  unfolding waited
  waited-IsWithin others zero k nodes keep within = within
  waited-IsWithin others (suc j) k nodes keep within =
      waited-IsWithin others j (suc k) (others k nodes) keep (keep k nodes within)

  -- A request never overcommits a node: if no node is over its capacity, and the other threads keep it
  -- so, then no node is after the request, whether it succeeds or fails. The amounts asked for are not
  -- negative and, as the capacities and usages, on the grid of exact sums. The other conditions are those
  -- of `allocate_task_with_retry-IsServed`: the strategy is one of the enumerators, the nodes are a map,
  -- each viable edge beats the value with which the loop of the strategy starts, and the other threads
  -- keep that so.
  pub allocate_task_with_retry-IsWithin :
      (others : ℕ → Nodes W J → Nodes W J) (max_retries : ℕ) (task : Task W J) (c : Cluster W J)
      → c.allocator.strategy ≢ unknown
      → IsCalm c.allocator.strategy task (count_request c.allocator) others
      → IsFine c.allocator.strategy task (count_request c.allocator) c.nodes
      → Asks task
      → ((k : ℕ) (nodes : Nodes W J) → IsWithin nodes → IsWithin (others k nodes))
      → IsWithin c.nodes
      → Returns
          (λ (r, task', c'). IsWithin c'.nodes)
          (allocate_task_with_retry others max_retries task c)
  allocate_task_with_retry-IsWithin others max_retries task c known calm fine asks keep within =
      Returns-weaken (IsServed others max_retries task c) _
        (allocate_task_with_retry others max_retries task c) served
        (allocate_task_with_retry-IsServed order others max_retries task c known calm fine)
    where
      served :
          (e : AllocationResult W × Task W J × Cluster W J)
          → IsServed others max_retries task c e
          → IsWithin e.2.nodes
      served (r, task', c') (inl (_, _, _, _, _, (j, _, at, _))) =
          subst IsWithin (sym at) (waited-IsWithin others j 0 c.nodes keep within)
      served (r, task', c') (inr (j, moved, _, _, _, _, done)) =
          subst IsWithin (sym done.reserved) (
            reserve-IsWithin task done.key done.edge _ asks
              (waited-IsWithin others j 0 c.nodes keep within) done.found done.viable)

-- Each request that was counted has been counted as a success or as a failure, modulo the width of
-- the counters.
abbrev pub IsBalanced : {W : Type 0} → ResourceAllocator W → Type 0
IsBalanced a = a.total_allocations ≡ u64 (a.successful_allocations + a.failed_allocations)

moved_on-totals :
    {W : Type 0} (s : AllocationStrategy) (a : ResourceAllocator W)
    → ((moved_on s a).total_allocations ≡ a.total_allocations)
      × ((moved_on s a).successful_allocations ≡ a.successful_allocations)
      × ((moved_on s a).failed_allocations ≡ a.failed_allocations)
moved_on-totals round_robin a = (refl, refl, refl)
moved_on-totals least_load a = (refl, refl, refl)
moved_on-totals priority_based a = (refl, refl, refl)
moved_on-totals multi_constraint a = (refl, refl, refl)
moved_on-totals unknown a = (refl, refl, refl)

module _ {W J : Type 0} ⦃d : Double W⦄ (order : IsOrdered W) where
  -- A request counts once and keeps the statistics balanced, however many retries it takes. As for
  -- `allocate_task_with_retry-IsServed`, the strategy is one of the enumerators, the nodes are a map, each
  -- viable edge beats the value with which the loop of the strategy starts, and the other threads keep
  -- that so.
  pub allocate_task_with_retry-IsBalanced :
      (others : ℕ → Nodes W J → Nodes W J) (max_retries : ℕ) (task : Task W J) (c : Cluster W J)
      → c.allocator.strategy ≢ unknown
      → IsCalm c.allocator.strategy task (count_request c.allocator) others
      → IsFine c.allocator.strategy task (count_request c.allocator) c.nodes
      → IsBalanced c.allocator
      → Returns
          (λ (r, task', c').
            IsBalanced c'.allocator
            × (c'.allocator.total_allocations ≡ u64 (c.allocator.total_allocations + 1)))
          (allocate_task_with_retry others max_retries task c)
  allocate_task_with_retry-IsBalanced others max_retries task c known calm fine balanced =
      Returns-weaken (IsServed others max_retries task c) _
        (allocate_task_with_retry others max_retries task c) served
        (allocate_task_with_retry-IsServed order others max_retries task c known calm fine)
    where
      served :
          (e : AllocationResult W × Task W J × Cluster W J)
          → IsServed others max_retries task c e
          → IsBalanced e.2.allocator
            × (e.2.allocator.total_allocations ≡ u64 (c.allocator.total_allocations + 1))
      served (r, task', c') (inl (_, _, _, counted, _, _)) = rw counted (ground arith)
      served (r, task', c') (inr (j, moved, _, _, _, counted, done)) =
          let (total, won, lost) =
            moved_on-totals c.allocator.strategy (count_request c.allocator) in
          rw (counted, done.kept, total, won, lost) (ground arith)
