-- ===== src/Allocator.antt =====
-- resource_allocator.h and resource_allocator.cpp: the choice of an edge node for a task. `monitor_`,
-- which the allocator shares with others, is passed in as the map of its nodes and returned; a
-- `shared_ptr` to a node is the node's key. The lock that each public call takes is not modelled: no
-- call of the class makes another one that locks.
pub mod Score
pub mod Bounds
pub mod Viable
pub mod Requests
pub mod Choice
pub mod Served
pub mod Capacity
use Score.{AllocationWeights, default_weights, calculate_allocation_score}
use multi_constraint_iot_edg.Common.{
  ◌==◌, ℕ, zero, suc, ◌+◌, ◌-◌, ◌%◌, ◌^◌, ◌≡◌, Bool, true, false, List, [], ◌∷◌, ◌++◌, Option, none,
  some, ℤ, pos, negsuc, u64, length, get_elem?, is_empty, ltb, ltb_ℤ, if◌then◌else◌, Text, codes,
  ◌||◌, ◌&&◌, not,
}
use multi_constraint_iot_edg.Common.Dict
use multi_constraint_iot_edg.Common.Dict.{Dict, adjust, select}
use multi_constraint_iot_edg.Double.{Double, nought, hundred}
use multi_constraint_iot_edg.Outcome.{Outcome, returns, null_dereference, dereference, ◌>>=◌}
use multi_constraint_iot_edg.Task.{
  Task, TaskStatus, TaskPriority, low, medium, high, critical, TaskRequirements, set_status,
  set_assigned_edge_id,
}
use multi_constraint_iot_edg.Edge.{
  EdgeNode, can_allocate, allocate_resources, get_available_cpu_percent, get_queue_length,
}
use multi_constraint_iot_edg.Database.{DatabaseLog, record_call, update_task_status}

-- `unknown` is a value outside the enumerators, which the `default` of each `switch` handles.
pub data AllocationStrategy : Type 0 where
  round_robin least_load priority_based multi_constraint unknown : AllocationStrategy

unfoldable pub allocation_strategy_name : AllocationStrategy → Text
allocation_strategy_name round_robin = codes "ROUND_ROBIN"
allocation_strategy_name least_load = codes "LEAST_LOAD"
allocation_strategy_name priority_based = codes "PRIORITY_BASED"
allocation_strategy_name multi_constraint = codes "MULTI_CONSTRAINT"
allocation_strategy_name unknown = codes "UNKNOWN"

pub record AllocationResult (W : Type 0) : Type 0 where
  pub success : Bool
  pub edge_id : Text
  pub reason : Text
  pub score : W

pub record ResourceAllocator (W : Type 0) : Type 0 where
  pub strategy : AllocationStrategy
  pub weights : AllocationWeights W
  pub total_allocations : ℕ
  pub successful_allocations : ℕ
  pub failed_allocations : ℕ
  pub round_robin_index : ℕ

abbrev pub no_viable : Text
no_viable = codes "No viable edge node has sufficient resources"

abbrev pub unknown_strategy : Text
unknown_strategy = codes "Unknown allocation strategy"

module _ {W : Type 0} ⦃d : Double W⦄ where
  unfoldable pub new_resource_allocator : AllocationStrategy → ResourceAllocator W
  new_resource_allocator strategy = record {
    strategy = strategy;
    weights = default_weights;
    total_allocations = 0;
    successful_allocations = 0;
    failed_allocations = 0;
    round_robin_index = 0;
  }

  abbrev pub failure : Text → AllocationResult W
  failure reason = record { success = false; edge_id = []; reason = reason; score = nought }

  unfoldable pub get_success_rate : ResourceAllocator W → W
  get_success_rate a =
      if a.total_allocations == 0
      then nought
      else mul (div (of_int (pos a.successful_allocations)) (of_int (pos a.total_allocations)))
          hundred
    where
      open d use {mul, div, of_int}

module _ {W : Type 0} where
  abbrev pub set_strategy : AllocationStrategy → ResourceAllocator W → ResourceAllocator W
  set_strategy s a = record a { strategy = s }

  abbrev pub set_allocation_weights :
      AllocationWeights W → ResourceAllocator W → ResourceAllocator W
  set_allocation_weights w a = record a { weights = w }

abbrev pub Nodes : Type 0 → Type 0 → Type 0
Nodes W J = Dict (EdgeNode W J)

abbrev pub Attempt : Type 0 → Type 0 → Type 0
Attempt W J = Outcome (AllocationResult W × ResourceAllocator W × Nodes W J)

unfoldable pub is_high_priority : TaskPriority → Bool
is_high_priority high = true
is_high_priority critical = true
is_high_priority low = false
is_high_priority medium = false

-- The loop that three strategies share: `best` is replaced where the value of an edge beats the bound.
unfoldable pub best_edge {ℓ κ} :
    {E : Type ℓ} {V : Type κ} → (E → V) → (V → V → Bool) → V → Option E → List E → V × Option E
best_edge value beats bound best [] = (bound, best)
best_edge value beats bound best (edge ∷ edges) =
    let won = beats (value edge) bound in
    best_edge value beats (if won then value edge else bound) (if won then some edge else best)
      edges

abbrev pub int64_max : ℤ
int64_max = pos (2 ^ 63 - 1)

module _ {W J : Type 0} ⦃d : Double W⦄ where
  open d use {sub, lt, greatest, lowest, of_int}

  unfoldable pub is_viable : Task W J → EdgeNode W J → Bool
  is_viable task edge =
      edge.is_available
      && can_allocate task.requirements.cpu_percent task.requirements.ram_mb
          task.requirements.bandwidth_mbps edge

  unfoldable pub get_viable_edges : Task W J → Nodes W J → Nodes W J
  unfolding is_viable
  get_viable_edges task nodes = select (is_viable task) nodes

  -- `chosen->allocateResources(…)`.
  unfoldable pub reserve : Task W J → Text → Nodes W J → Nodes W J
  reserve task key nodes =
      adjust key
        (allocate_resources task.requirements.cpu_percent task.requirements.ram_mb
          task.requirements.bandwidth_mbps)
        nodes

  -- The tail of each strategy: the chosen edge, which may be the null pointer, gets the task.
  choose :
      Task W J
      → Text
      → W
      → ResourceAllocator W
      → Nodes W J
      → Option (Text × EdgeNode W J)
      → Attempt W J
  choose task reason score a nodes none = null_dereference
  choose task reason score a nodes (some (key, edge)) = returns (
    record { success = true; edge_id = edge.edge_id; reason = reason; score = score },
    a,
    reserve task key nodes,
  )

  unfoldable pub allocate_round_robin : Task W J → ResourceAllocator W → Nodes W J → Attempt W J
  unfolding choose
  allocate_round_robin task a nodes =
      let viable = get_viable_edges task nodes in
      if is_empty viable
      then returns (failure no_viable, a, nodes)
      else choose task (codes "Round-robin selection") nought
          (record a { round_robin_index = u64 (a.round_robin_index + 1) }) nodes
          (get_elem? viable (a.round_robin_index % length viable))

  unfoldable pub used_cpu : Text × EdgeNode W J → W
  used_cpu (key, edge) = sub edge.capacity.cpu_percent (get_available_cpu_percent edge)

  unfoldable pub allocate_least_load : Task W J → ResourceAllocator W → Nodes W J → Attempt W J
  unfolding choose
  allocate_least_load task a nodes =
      let viable = get_viable_edges task nodes in
      if is_empty viable
      then returns (failure no_viable, a, nodes)
      else let (lowest_cpu_usage, best) = best_edge used_cpu lt greatest none viable in
        choose task (codes "Lowest current CPU usage") lowest_cpu_usage a nodes best

  unfoldable pub queue_length : Text × EdgeNode W J → W
  queue_length (key, edge) = of_int (get_queue_length edge)

  unfoldable pub latency : Text × EdgeNode W J → ℤ
  latency (key, edge) = edge.capacity.latency_ms

  route_high : Task W J → ResourceAllocator W → Nodes W J → Nodes W J → Attempt W J
  route_high task a nodes viable =
      let (lowest_latency, best) = best_edge latency ltb_ℤ int64_max none viable in
      choose task (codes "High-priority task routed to lowest-latency edge") (of_int lowest_latency)
        a nodes best

  route_standard : Task W J → ResourceAllocator W → Nodes W J → Nodes W J → Attempt W J
  route_standard task a nodes viable =
      let (lowest_queue, best) = best_edge queue_length lt greatest none viable in
      choose task (codes "Standard-priority task routed to shortest queue") lowest_queue a nodes
        best

  unfoldable pub allocate_priority_based : Task W J → ResourceAllocator W → Nodes W J → Attempt W J
  unfolding choose is_high_priority route_high route_standard
  allocate_priority_based task a nodes =
      let viable = get_viable_edges task nodes in
      if is_empty viable
      then returns (failure no_viable, a, nodes)
      else if is_high_priority task.requirements.priority
      then route_high task a nodes viable
      else route_standard task a nodes viable

  unfoldable pub suitability : AllocationWeights W → Task W J → Text × EdgeNode W J → W
  suitability weights task (key, edge) = calculate_allocation_score weights edge task

  unfoldable pub allocate_multi_constraint :
      Task W J → ResourceAllocator W → Nodes W J → Attempt W J
  unfolding choose
  allocate_multi_constraint task a nodes =
      let viable = get_viable_edges task nodes in
      if is_empty viable
      then returns (failure no_viable, a, nodes)
      else let (best_score, best) =
          best_edge (suitability a.weights task) (λ score bound. lt bound score) lowest none
            viable in
        choose task (codes "Highest multi-constraint suitability score") best_score a nodes best

  -- The `switch` over the strategy.
  unfoldable pub attempt_by :
      AllocationStrategy → Task W J → ResourceAllocator W → Nodes W J → Attempt W J
  attempt_by round_robin task a nodes = allocate_round_robin task a nodes
  attempt_by least_load task a nodes = allocate_least_load task a nodes
  attempt_by priority_based task a nodes = allocate_priority_based task a nodes
  attempt_by multi_constraint task a nodes = allocate_multi_constraint task a nodes
  attempt_by unknown task a nodes = returns (failure unknown_strategy, a, nodes)
