-- ===== src/Allocator/Score.antt =====
-- The suitability score of resource_allocator.cpp, and its default weights.
use multi_constraint_iot_edg.Common.{ℕ, pos, if◌then◌else◌}
use multi_constraint_iot_edg.Double.{Double, nought, one, hundred, clamp}
use multi_constraint_iot_edg.Task.{Task, TaskPriority, low, medium, high, critical}
use multi_constraint_iot_edg.Edge.{
  EdgeNode, get_available_cpu_percent, get_available_ram_mb, get_available_bandwidth_mbps,
  get_queue_length,
}

pub record AllocationWeights (W : Type 0) : Type 0 where
  pub cpu_weight : W
  pub ram_weight : W
  pub bandwidth_weight : W
  pub latency_weight : W
  pub queue_weight : W
  pub priority_weight : W

-- `constants::kMaxQueueLengthForScore`.
abbrev pub max_queue_length_for_score : ℕ
max_queue_length_for_score = 100

module _ {W : Type 0} ⦃d : Double W⦄ where
  open d use {literal, add, sub, mul, div, le, of_int}

  unfoldable pub default_weights : AllocationWeights W
  default_weights = record {
    cpu_weight = literal 25 100;
    ram_weight = literal 20 100;
    bandwidth_weight = literal 15 100;
    latency_weight = literal 15 100;
    queue_weight = literal 15 100;
    priority_weight = literal 10 100;
  }

  -- The share of a capacity that is free.
  unfoldable pub free_share : W → W → W
  free_share available capacity =
      if le capacity nought then nought else clamp (div available capacity) nought one

  unfoldable pub priority_score : TaskPriority → W
  priority_score critical = one
  priority_score high = literal 75 100
  priority_score medium = literal 5 10
  priority_score low = literal 25 100

  -- The weighted sum, in the order in which the code adds.
  unfoldable pub weighted_sum : AllocationWeights W → W → W → W → W → W → W → W
  weighted_sum w cpu ram bandwidth latency queue priority =
      add
        (add
          (add
            (add (add (mul w.cpu_weight cpu) (mul w.ram_weight ram))
              (mul w.bandwidth_weight bandwidth))
            (mul w.latency_weight latency))
          (mul w.queue_weight queue))
        (mul w.priority_weight priority)

  module _ {J : Type 0} where
    unfoldable pub normalize_cpu_score : EdgeNode W J → W
    unfolding free_share
    normalize_cpu_score e = free_share (get_available_cpu_percent e) e.capacity.cpu_percent

    unfoldable pub normalize_ram_score : EdgeNode W J → W
    unfolding free_share
    normalize_ram_score e = free_share (get_available_ram_mb e) e.capacity.ram_mb

    unfoldable pub normalize_bandwidth_score : EdgeNode W J → W
    unfolding free_share
    normalize_bandwidth_score e =
        free_share (get_available_bandwidth_mbps e) e.capacity.bandwidth_mbps

    unfoldable pub normalize_latency_score : EdgeNode W J → W
    normalize_latency_score e =
        clamp (sub one (div (of_int e.capacity.latency_ms) hundred)) (literal 1 100) one

    unfoldable pub normalize_queue_score : EdgeNode W J → W
    normalize_queue_score e =
        clamp
          (sub one (div (of_int (get_queue_length e)) (of_int (pos max_queue_length_for_score))))
          nought one

    unfoldable pub calculate_allocation_score : AllocationWeights W → EdgeNode W J → Task W J → W
    calculate_allocation_score w edge task =
        mul
          (weighted_sum w (normalize_cpu_score edge) (normalize_ram_score edge)
            (normalize_bandwidth_score edge) (normalize_latency_score edge)
            (normalize_queue_score edge) (priority_score task.requirements.priority))
          hundred
