-- ===== src/Examples.antt =====
-- The nodes, tasks and states at which the theorems of the other files are applied. Numbers are decimals
-- with four places, the sensor data of a task a number.
pub mod Allocation
pub mod Execution
pub mod Control
pub mod Interface
pub mod Threads
pub mod Documents
pub mod Storage
pub mod Links
pub mod Programs
use multi_constraint_iot_edg.Common.{
  some, ◌≤◌, arith, ℕ, [], ◌∷◌, ◌+◌, true, false, List, Text, codes, ℤ, pos,
}
use multi_constraint_iot_edg.Double.{Double}
use multi_constraint_iot_edg.Double.Fixed.{Fixed-IsExact, Fixed-Grid, Fixed, fixed_double}
use multi_constraint_iot_edg.Task.{
  Task, TaskRequirements, TaskStatus, TaskPriority, low, medium, high, critical,
}
use multi_constraint_iot_edg.Edge.{EdgeNode, ResourceCapacity, ResourceUsage}
use multi_constraint_iot_edg.Allocator.{
  ResourceAllocator, AllocationStrategy, Nodes, new_resource_allocator,
}
use multi_constraint_iot_edg.Allocator.Score.{AllocationWeights}
use multi_constraint_iot_edg.Allocator.Requests.{Cluster}
use multi_constraint_iot_edg.Edge.Accounting.{IsAmount, InBounds, IsRequest, IsValid}
open fixed_double use {literal}

abbrev pub requirements : ℕ → TaskPriority → TaskRequirements Fixed
requirements cpu p = record {
  cpu_percent = literal cpu 1;
  ram_mb = literal 50 1;
  bandwidth_mbps = literal 1 1;
  deadline_ms = pos 100;
  priority = p;
}

abbrev pub task : Text → TaskRequirements Fixed → Task Fixed ℕ
task id r = record {
  task_id = id;
  device_id = codes "DEV0001";
  sensor_type = codes "ultrasonic";
  requirements = r;
  sensor_data = 0;
  status = TaskStatus.created;
  assigned_edge_id = [];
  creation_time = 5_000_000;
  completion_time = 0;
}

abbrev pub urgent_task : Task Fixed ℕ
urgent_task = task (codes "T000001") (requirements 10 high)

abbrev pub plain_task : Task Fixed ℕ
plain_task = task (codes "T000002") (requirements 20 low)

abbrev pub node : Text → ℤ → List (Task Fixed ℕ) → EdgeNode Fixed ℕ
node id latency q = record {
  edge_id = id;
  capacity = record {
    cpu_percent = literal 100 1;
    ram_mb = literal 1000 1;
    bandwidth_mbps = literal 100 1;
    latency_ms = latency;
  };
  current_usage = record {
    cpu_percent = literal 30 1;
    ram_mb = literal 100 1;
    bandwidth_mbps = literal 2 1;
  };
  task_queue = q;
  is_available = true;
  total_tasks_processed = 2;
  total_tasks_failed = 0;
}

abbrev pub first_node : EdgeNode Fixed ℕ
first_node = node (codes "E01") (pos 20) (plain_task ∷ urgent_task ∷ [])

abbrev pub second_node : EdgeNode Fixed ℕ
second_node = node (codes "E02") (pos 10) []

abbrev pub two_nodes : Nodes Fixed ℕ
two_nodes = (codes "E01", first_node) ∷ (codes "E02", second_node) ∷ []

abbrev pub weights : AllocationWeights Fixed
weights = record {
  cpu_weight = literal 25 100;
  ram_weight = literal 20 100;
  bandwidth_weight = literal 15 100;
  latency_weight = literal 15 100;
  queue_weight = literal 15 100;
  priority_weight = literal 10 100;
}

abbrev pub allocator : AllocationStrategy → ResourceAllocator Fixed
allocator s = record {
  strategy = s;
  weights = weights;
  total_allocations = 3;
  successful_allocations = 2;
  failed_allocations = 1;
  round_robin_index = 7;
}

abbrev pub cluster : Cluster Fixed ℕ
cluster = record {
  nodes = two_nodes;
  allocator = allocator AllocationStrategy.priority_based;
  database = [];
}

-- The other threads leave the nodes alone.
abbrev pub quiet : ℕ → Nodes Fixed ℕ → Nodes Fixed ℕ
quiet k nodes = nodes

-- A decimal that is not negative is an amount that a task may ask for.
amount : (n : ℕ) → IsAmount Fixed-IsExact (some (pos n))
amount n = record { grid = Fixed-Grid n; nonneg = ground arith }

bounds : (c u : ℕ) → u ≤ c → InBounds Fixed-IsExact (some (pos c)) (some (pos u))
bounds c u h = record {
  grid_capacity = Fixed-Grid c;
  grid_usage = Fixed-Grid u;
  lower = ground arith;
  upper = ground arith;
}

pub request : (a b c : ℕ) → IsRequest Fixed-IsExact (some (pos a)) (some (pos b)) (some (pos c))
request a b c = record { cpu_amount = amount a; ram_amount = amount b; bandwidth_amount = amount c }

-- The nodes are within their capacity.
pub node-IsValid :
    (id : Text) (latency : ℤ) (q : List (Task Fixed ℕ)) → IsValid Fixed-IsExact (node id latency q)
node-IsValid id latency q = record {
  cpu = bounds 1000000 300000 (omega arith);
  ram = bounds 10000000 1000000 (omega arith);
  bandwidth = bounds 1000000 20000 (omega arith);
}
