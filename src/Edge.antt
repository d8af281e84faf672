-- ===== src/Edge.antt =====
-- edge_node.h and edge_node.cpp: an edge node, its capacity, its usage and its queue.
pub mod Accounting
use mathlib.Core.Bool.{◌&&◌}
use multi_constraint_iot_edg.Common.{
  ℕ, ◌+◌, ◌≡◌, refl, Bool, true, false, List, [], ◌∷◌, ◌++◌, Option, none, some, arith, ℤ, pos,
  Text, is_empty, u64, length, not, if◌then◌else◌,
}
use multi_constraint_iot_edg.Double.{Double, nought, hundred, max_of, clamp}
use multi_constraint_iot_edg.Task.{Task}

pub record ResourceCapacity (W : Type 0) : Type 0 where
  pub cpu_percent : W
  pub ram_mb : W
  pub bandwidth_mbps : W
  pub latency_ms : ℤ

pub record ResourceUsage (W : Type 0) : Type 0 where
  pub cpu_percent : W
  pub ram_mb : W
  pub bandwidth_mbps : W

pub record EdgeNode (W J : Type 0) : Type 0 where
  pub edge_id : Text
  pub capacity : ResourceCapacity W
  pub current_usage : ResourceUsage W
  pub task_queue : List (Task W J)
  pub is_available : Bool
  pub total_tasks_processed : ℕ
  pub total_tasks_failed : ℕ

module _ {W J : Type 0} ⦃d : Double W⦄ where
  open d use {literal, add, sub, mul, div, le}

  unfoldable pub new_edge_node : Text → ResourceCapacity W → EdgeNode W J
  new_edge_node id capacity = record {
    edge_id = id;
    capacity = capacity;
    current_usage = record { cpu_percent = nought; ram_mb = nought; bandwidth_mbps = nought };
    task_queue = [];
    is_available = true;
    total_tasks_processed = 0;
    total_tasks_failed = 0;
  }

  unfoldable pub get_available_cpu_percent : EdgeNode W J → W
  get_available_cpu_percent e = sub e.capacity.cpu_percent e.current_usage.cpu_percent

  unfoldable pub get_available_ram_mb : EdgeNode W J → W
  get_available_ram_mb e = sub e.capacity.ram_mb e.current_usage.ram_mb

  unfoldable pub get_available_bandwidth_mbps : EdgeNode W J → W
  get_available_bandwidth_mbps e = sub e.capacity.bandwidth_mbps e.current_usage.bandwidth_mbps

  unfoldable pub can_allocate : W → W → W → EdgeNode W J → Bool
  can_allocate cpu ram bandwidth e =
      e.is_available
      && (le cpu (sub e.capacity.cpu_percent e.current_usage.cpu_percent)
          && (le ram (sub e.capacity.ram_mb e.current_usage.ram_mb)
              && le bandwidth (sub e.capacity.bandwidth_mbps e.current_usage.bandwidth_mbps)))

  unfoldable pub allocate_resources : W → W → W → EdgeNode W J → EdgeNode W J
  allocate_resources cpu ram bandwidth e = record e {
    current_usage = record {
      cpu_percent = add e.current_usage.cpu_percent cpu;
      ram_mb = add e.current_usage.ram_mb ram;
      bandwidth_mbps = add e.current_usage.bandwidth_mbps bandwidth;
    };
    total_tasks_processed = u64 (e.total_tasks_processed + 1);
  }

  unfoldable pub deallocate_resources : W → W → W → EdgeNode W J → EdgeNode W J
  deallocate_resources cpu ram bandwidth e = record e {
    current_usage = record {
      cpu_percent = max_of nought (sub e.current_usage.cpu_percent cpu);
      ram_mb = max_of nought (sub e.current_usage.ram_mb ram);
      bandwidth_mbps = max_of nought (sub e.current_usage.bandwidth_mbps bandwidth);
    };
  }

  -- The two draws from the generator, which the code takes between -5.0 and 5.0, are arguments.
  unfoldable pub simulate_resource_fluctuation : W → W → EdgeNode W J → EdgeNode W J
  simulate_resource_fluctuation draw_cpu draw_ram e = record e {
    current_usage = record e.current_usage {
      cpu_percent = clamp (add e.current_usage.cpu_percent draw_cpu) nought e.capacity.cpu_percent;
      ram_mb =
          clamp (add e.current_usage.ram_mb (mul draw_ram (div e.capacity.ram_mb hundred))) nought
            e.capacity.ram_mb;
    };
  }

module _ {W J : Type 0} where
  unfoldable pub get_queue_length : EdgeNode W J → ℤ
  get_queue_length e = pos (length e.task_queue)

  unfoldable pub has_tasks_in_queue : EdgeNode W J → Bool
  has_tasks_in_queue e = not (is_empty e.task_queue)

  -- The loop that moves the front of the copy to the back of the result.
  copy_queue : List (Task W J) → List (Task W J) → List (Task W J)
  copy_queue result [] = result
  copy_queue result (t ∷ copy) = copy_queue (result ++ t ∷ []) copy

  unfoldable pub get_queued_tasks : EdgeNode W J → List (Task W J)
  unfolding copy_queue
  get_queued_tasks e = copy_queue [] e.task_queue

  unfoldable pub enqueue_task : Task W J → EdgeNode W J → EdgeNode W J
  enqueue_task t e = record e { task_queue = e.task_queue ++ t ∷ [] }

  pop_front : List (Task W J) → EdgeNode W J → Option (Task W J) × EdgeNode W J
  pop_front [] e = (none, e)
  pop_front (t ∷ rest) e = (some t, record e { task_queue = rest })

  -- `none` is the null pointer.
  unfoldable pub dequeue_task : EdgeNode W J → Option (Task W J) × EdgeNode W J
  unfolding pop_front
  dequeue_task e = pop_front e.task_queue e

  abbrev pub set_available : Bool → EdgeNode W J → EdgeNode W J
  set_available b e = record e { is_available = b }

  abbrev pub set_latency_ms : ℤ → EdgeNode W J → EdgeNode W J
  set_latency_ms l e = record e { capacity = record e.capacity { latency_ms = l } }
