-- ===== src/Examples/Allocation.antt =====
-- The theorems on requests for a node, at a concrete cluster.
use native.Mathlib.Nat.{div-le_of_le-mul}
use multi_constraint_iot_edg.Double.{nought, one, ◌≼◌}
use multi_constraint_iot_edg.Allocator.Bounds.{InUnit, IsMeasurable, scores-InUnit}
use multi_constraint_iot_edg.Allocator.Score.{
  normalize_cpu_score, normalize_ram_score, normalize_bandwidth_score, normalize_latency_score,
  normalize_queue_score, priority_score,
}
use multi_constraint_iot_edg.Task.{high}
use multi_constraint_iot_edg.Common.{
  ◌≤◌, ◌<◌, ◌*◌, ◌/◌, arith, tdiv, ◌*ℤ◌, false, text_lt, ◌-ℤ◌, ℕ, ◌+◌, ◌≡◌, ◌≢◌, refl, u64, [],
}
use multi_constraint_iot_edg.Common.Dict.{select}
use multi_constraint_iot_edg.Double.Fixed.{
  fixed_div, Fixed, fixed_double, Fixed-IsOrdered, Fixed-IsExact,
}
use multi_constraint_iot_edg.Outcome.{Returns}
use multi_constraint_iot_edg.Allocator.{
  latency, is_viable, is_high_priority, AllocationStrategy, attempt_by, get_viable_edges,
}
use multi_constraint_iot_edg.Allocator.Choice.{IsSound, attempt_by-IsSound}
use multi_constraint_iot_edg.Allocator.Requests.{
  count_request, allocate_task, allocate_task_with_retry,
}
use multi_constraint_iot_edg.Allocator.Served.{
  IsServed, IsFine, allocate_task_with_retry-IsServed, allocate_task-eq-allocate_task_with_retry,
}
use multi_constraint_iot_edg.Allocator.Capacity.{
  IsWithin, Asks, IsBalanced, allocate_task_with_retry-IsWithin,
  allocate_task_with_retry-IsBalanced,
}
use multi_constraint_iot_edg.Scheduler.{SchedulingStrategy}
use multi_constraint_iot_edg.Runtime.{LiveRuntime, submit_task}
use multi_constraint_iot_edg.Runtime.Submission.{IsSubmitted, submit_task-IsSubmitted}
use multi_constraint_iot_edg.Edge.{
  get_available_cpu_percent, get_available_ram_mb, get_available_bandwidth_mbps, get_queue_length,
  can_allocate,
}
use multi_constraint_iot_edg.Examples.{
  first_node, node-IsValid, request, two_nodes, urgent_task, cluster, quiet,
}

not_unknown : AllocationStrategy.priority_based ≢ AllocationStrategy.unknown
not_unknown e = cc

fine :
    IsFine AllocationStrategy.priority_based urgent_task (count_request cluster.allocator) two_nodes
unfolding text_lt get_viable_edges select is_viable can_allocate is_high_priority ◌-ℤ◌ latency
fine = (((refl, tt), (tt, tt)), (refl, (refl, tt)))

within : IsWithin Fixed-IsOrdered Fixed-IsExact two_nodes
within = (node-IsValid _ _ _, (node-IsValid _ _ _, tt))

asks : Asks Fixed-IsOrdered Fixed-IsExact urgent_task
asks = request _ _ _

abbrev runtime : LiveRuntime Fixed ℕ
runtime = record {
  cluster = cluster;
  scheduler = record { strategy = SchedulingStrategy.fifo; total_tasks_scheduled = 0 };
  automatic_mode = false;
  strategy = [];
  scheduling = [];
}

submit_task-IsSubmitted_example :
    Returns (IsSubmitted quiet urgent_task runtime) (submit_task quiet urgent_task runtime)
submit_task-IsSubmitted_example =
    submit_task-IsSubmitted Fixed-IsOrdered quiet urgent_task runtime refl not_unknown
      (λ k nodes h. h) fine (λ k nodes h. h) (refl, (refl, tt))

allocate_task_with_retry-IsServed_example :
    Returns
      (IsServed quiet 3 urgent_task cluster)
      (allocate_task_with_retry quiet 3 urgent_task cluster)
allocate_task_with_retry-IsServed_example =
    allocate_task_with_retry-IsServed Fixed-IsOrdered quiet 3 urgent_task cluster not_unknown
      (λ k nodes h. h) fine

allocate_task_with_retry-IsWithin_example :
    Returns
      (λ (r, task', c'). IsWithin Fixed-IsOrdered Fixed-IsExact c'.nodes)
      (allocate_task_with_retry quiet 3 urgent_task cluster)
allocate_task_with_retry-IsWithin_example =
    allocate_task_with_retry-IsWithin Fixed-IsOrdered Fixed-IsExact quiet 3 urgent_task cluster
      not_unknown (λ k nodes h. h) fine asks (λ k nodes h. h) within

allocate_task_with_retry-IsBalanced_example :
    Returns
      (λ (r, task', c').
        IsBalanced c'.allocator
        × (c'.allocator.total_allocations ≡ u64 (cluster.allocator.total_allocations + 1)))
      (allocate_task_with_retry quiet 3 urgent_task cluster)
allocate_task_with_retry-IsBalanced_example =
    allocate_task_with_retry-IsBalanced Fixed-IsOrdered quiet 3 urgent_task cluster not_unknown
      (λ k nodes h. h) fine refl

attempt_by-IsSound_example :
    Returns
      (IsSound AllocationStrategy.priority_based urgent_task cluster.allocator two_nodes)
      (attempt_by AllocationStrategy.priority_based urgent_task cluster.allocator two_nodes)
attempt_by-IsSound_example =
    attempt_by-IsSound Fixed-IsOrdered urgent_task cluster.allocator two_nodes fine.0
      AllocationStrategy.priority_based not_unknown fine.1

allocate_task-eq-allocate_task_with_retry_example :
    allocate_task urgent_task cluster ≡ allocate_task_with_retry quiet 0 urgent_task cluster
allocate_task-eq-allocate_task_with_retry_example =
    allocate_task-eq-allocate_task_with_retry Fixed-IsOrdered quiet urgent_task cluster

fractions :
    (n m : ℕ)
    → n ≤ m
    → 0 < m
    → (nought ≼ fixed_double.literal n m) × (fixed_double.literal n m ≼ one)
fractions n m h k =
    let small : n * 10_000 / m ≤ 10_000 = div-le_of_le-mul m (omega (arith, h)) in
    (ground arith, ground (arith, small))

measurable : IsMeasurable Fixed-IsOrdered fractions first_node
unfolding ◌-ℤ◌ ◌*ℤ◌ fixed_div get_available_cpu_percent get_available_ram_mb
    get_available_bandwidth_mbps tdiv get_queue_length
measurable = record { cpu = refl; ram = refl; bandwidth = refl; latency = refl; queue = refl }

scores-InUnit_example :
    InUnit Fixed-IsOrdered fractions (normalize_cpu_score first_node)
    × InUnit Fixed-IsOrdered fractions (normalize_ram_score first_node)
    × InUnit Fixed-IsOrdered fractions (normalize_bandwidth_score first_node)
    × InUnit Fixed-IsOrdered fractions (normalize_latency_score first_node)
    × (fixed_double.literal 1 100 ≼ normalize_latency_score first_node)
    × InUnit Fixed-IsOrdered fractions (normalize_queue_score first_node)
    × InUnit Fixed-IsOrdered fractions (priority_score high)
scores-InUnit_example = scores-InUnit Fixed-IsOrdered fractions first_node high measurable
