-- ===== src/Metrics.antt =====
-- metrics_collector.h and metrics_collector.cpp: the figures of a run. The table that
-- main.cpp prints of them is not modelled.
use multi_constraint_iot_edg.Common.{
  ◌+◌, ◌==◌, List, [], ◌∷◌, length, is_empty, ltb, if◌then◌else◌, pos, u64,
}
use multi_constraint_iot_edg.Double.{Double, nought, hundred}
use multi_constraint_iot_edg.Allocator.{ResourceAllocator, Nodes, get_success_rate}
use multi_constraint_iot_edg.Executor.{
  TaskExecutor, get_average_latency, get_average_execution_time_ms,
}

pub record Snapshot (W : Type 0) : Type 0 where
  pub average_latency_ms : W
  pub average_waiting_time_ms : W
  pub deadline_miss_rate_percent : W
  pub average_cpu_utilization_percent : W
  pub load_imbalance_stddev : W
  pub throughput_tasks_per_second : W
  pub task_success_rate_percent : W

module _ {W : Type 0} ⦃d : Double W⦄ where
  open d use {add, sub, mul, div, square_root, lt, of_int}

  -- The two loops over the utilizations; `values.size()` is a `std::size_t`.
  unfoldable pub sum_values : W → List W → W
  sum_values total [] = total
  sum_values total (v ∷ vs) = sum_values (add total v) vs

  unfoldable pub sum_squares : W → W → List W → W
  sum_squares mean total [] = total
  sum_squares mean total (v ∷ vs) =
      let diff = sub v mean in sum_squares mean (add total (mul diff diff)) vs

module _ {W J : Type 0} ⦃d : Double W⦄ where
  open d use {add, sub, mul, div, square_root, lt, of_int}

  -- The utilizations of the nodes that have any CPU.
  unfoldable pub utilizations : Nodes W J → List W
  utilizations [] = []
  utilizations ((key, e) ∷ nodes) =
      let rest = utilizations nodes in
      if lt nought e.capacity.cpu_percent
      then mul (div e.current_usage.cpu_percent e.capacity.cpu_percent) hundred ∷ rest
      else rest

  unfoldable pub calculate_average_cpu_utilization : Nodes W J → W
  calculate_average_cpu_utilization nodes =
      let values = utilizations nodes in
      if is_empty nodes
      then nought
      else if length values == 0
      then nought
      else div (sum_values nought values) (of_int (pos (length values)))

  unfoldable pub calculate_load_imbalance : Nodes W J → W
  calculate_load_imbalance nodes =
      let values = utilizations nodes in
      let count = of_int (pos (length values)) in
      if is_empty nodes
      then nought
      else if ltb (length values) 2
      then nought
      else let mean = div (sum_values nought values) count in
        square_root (div (sum_squares mean nought values) count)

  unfoldable pub collect : W → ResourceAllocator W → TaskExecutor W J → Nodes W J → Snapshot W
  collect elapsed_seconds allocator executor nodes =
      let executed = executor.total_tasks_executed in
      let failed = executor.total_tasks_failed in
      let completed_total = u64 (executed + failed) in
      record {
        average_latency_ms = get_average_latency nodes;
        average_waiting_time_ms = get_average_execution_time_ms executor;
        deadline_miss_rate_percent =
            if ltb 0 completed_total
            then mul (div (of_int (pos failed)) (of_int (pos completed_total))) hundred
            else nought;
        average_cpu_utilization_percent = calculate_average_cpu_utilization nodes;
        load_imbalance_stddev = calculate_load_imbalance nodes;
        throughput_tasks_per_second =
            if lt nought elapsed_seconds
            then div (of_int (pos executed)) elapsed_seconds
            else nought;
        task_success_rate_percent = get_success_rate allocator;
      }
