-- ===== src/Examples/Control.antt =====
-- The theorems on failures, health checks and identifiers, at a concrete controller.
use multi_constraint_iot_edg.Common.{
  arith, text_eq, All, text_lt, ℕ, ◌≡◌, ◌≢◌, refl, false, [], ◌∷◌, Text, if◌then◌else◌, codes,
}
use multi_constraint_iot_edg.Common.Dict.{IsAscending, lookup, adjust-IsAscending}
use multi_constraint_iot_edg.Double.Fixed.{Fixed, fixed_double, Fixed-IsOrdered}
use multi_constraint_iot_edg.Manager.{TaskManager, generate_task_id}
use multi_constraint_iot_edg.Manager.Identifiers.{generate_task_id-distinct}
use multi_constraint_iot_edg.Outcome.{Returns, returns, deadlock}
use multi_constraint_iot_edg.Task.{Task}
use multi_constraint_iot_edg.Allocator.{
  AllocationStrategy, ResourceAllocator, Nodes, reserve, get_viable_edges,
}
use multi_constraint_iot_edg.Allocator.Choice.{Starts}
use multi_constraint_iot_edg.Controller.{Controller, fail_node, check_health}
use multi_constraint_iot_edg.Controller.Failure.{fail_node-IsDrained}
use multi_constraint_iot_edg.Controller.Turns.{IsDrained}
use multi_constraint_iot_edg.Controller.Health.{all_available, check_health-eq}
use multi_constraint_iot_edg.Examples.{two_nodes, first_node, allocator}

abbrev controller : Controller Fixed ℕ
controller = record {
  monitor = record {
    edge_nodes = two_nodes;
    nodes_mutex_held = false;
    total_node_failures = 0;
    total_node_recoveries = 0;
  };
  allocator = allocator AllocationStrategy.round_robin;
  task_manager = record {
    task_queue = [];
    total_tasks_created = 2;
    total_tasks_processed = 2;
    task_counter = 2;
  };
  database = [];
  total_tasks_allocated = 2;
  total_allocation_failures = 0;
  total_reallocations = 0;
}

ascending : IsAscending two_nodes
unfolding text_lt
ascending = ((refl, tt), (tt, tt))

not_unknown : AllocationStrategy.round_robin ≢ AllocationStrategy.unknown
not_unknown e = cc

in_turn :
    (task : Task Fixed ℕ) (a : ResourceAllocator Fixed) (v : Nodes Fixed ℕ)
    → All (Starts AllocationStrategy.round_robin task a) v
in_turn task a [] = tt
in_turn task a (e ∷ v) = (tt, in_turn task a v)

reserve-IsAscending :
    (task : Task Fixed ℕ) (key : Text) (nodes : Nodes Fixed ℕ)
    → IsAscending nodes
    → IsAscending (reserve task key nodes)
unfolding reserve
reserve-IsAscending task key nodes h = adjust-IsAscending key _ nodes h

fail_node-IsDrained_example :
    Returns
      (IsDrained (codes "E01") (record first_node { is_available = false }) 2 controller)
      (fail_node (codes "E01") controller)
unfolding lookup text_eq
fail_node-IsDrained_example =
    fail_node-IsDrained Fixed-IsOrdered AllocationStrategy.round_robin not_unknown IsAscending
      (λ task a nodes h. (h, in_turn task a (get_viable_edges task nodes))) reserve-IsAscending
      (λ key nodes h. adjust-IsAscending key _ nodes h)
      (λ key b nodes h. adjust-IsAscending key _ nodes h) (codes "E01") first_node controller refl
      refl ascending refl

check_health-eq_example :
    check_health controller ≡ (if all_available two_nodes then returns controller else deadlock)
check_health-eq_example = check_health-eq controller refl ascending

abbrev later_manager : TaskManager Fixed ℕ
later_manager = record controller.task_manager { task_counter = 1_000_000 }

generate_task_id-distinct_example :
    (generate_task_id controller.task_manager).0 ≢ (generate_task_id later_manager).0
generate_task_id-distinct_example =
    generate_task_id-distinct controller.task_manager later_manager (omega arith) (omega arith)
      (λ e. omega (arith, e))
