-- ===== src/Examples/Programs.antt =====
-- A fleet of three nodes, two experiments of five tasks, and a command line without devices.
use multi_constraint_iot_edg.Common.{
  ℕ, ◌+◌, ◌≡◌, refl, true, false, [], none, codes, arith, ℤ, pos, List, ◌∷◌, text_lt,
}
use multi_constraint_iot_edg.Double.Fixed.{Fixed, fixed_double, Fixed-IsOrdered}
use multi_constraint_iot_edg.Outcome.{Returns, returns, division_by_zero}
use multi_constraint_iot_edg.Config.{SimulationConfig, default_config}
use multi_constraint_iot_edg.Monitor.{new_resource_monitor}
use multi_constraint_iot_edg.Fleet.{
  create_edge_nodes, create_devices, Device, fleet_device, fleet_node,
}
use multi_constraint_iot_edg.Fleet.Nodes.{IsStocked, create_edge_nodes-IsStocked}
use multi_constraint_iot_edg.Allocator.{AllocationStrategy, new_resource_allocator}
use multi_constraint_iot_edg.Runtime.Startup.{Answers, initialize_runtime}
use multi_constraint_iot_edg.Main.{Surroundings, Experiment, run_workload}
use multi_constraint_iot_edg.Main.Program.{run_experiment}
use multi_constraint_iot_edg.Main.Devices.{run_experiment-no_devices}
use multi_constraint_iot_edg.Examples.Documents.{Document, document_json, document_reals}
use multi_constraint_iot_edg.Examples.Storage.{table_sqlite, manager}
use multi_constraint_iot_edg.Common.Dict.{IsAscending}
use multi_constraint_iot_edg.Manager.{new_task_manager}
use multi_constraint_iot_edg.Scheduler.{SchedulingStrategy, new_task_scheduler}
use multi_constraint_iot_edg.Allocator.Score.{default_weights}
use multi_constraint_iot_edg.Main.Turns.{IsUnderway}
use multi_constraint_iot_edg.Main.Workload.{run_workload-IsUnderway}
use multi_constraint_iot_edg.Main.RoundRobin.{round_robin-Keeps, run_experiment-round_robin}
open fixed_double use {literal}

abbrev drawn : ℕ → Fixed × Fixed × ℤ
drawn i = (literal (5000 + i) 1, literal 60 1, pos 10)

free : (new_resource_monitor {W = Fixed} {J = Document}).nodes_mutex_held ≡ false
unfolding new_resource_monitor
free = refl

empty : (new_resource_monitor {W = Fixed} {J = Document}).edge_nodes ≡ []
unfolding new_resource_monitor
empty = refl

create_edge_nodes-IsStocked_example :
    Returns
      (IsStocked {J = Document} table_sqlite drawn 3)
      (create_edge_nodes table_sqlite drawn 3 new_resource_monitor manager)
create_edge_nodes-IsStocked_example =
    create_edge_nodes-IsStocked table_sqlite drawn 3 new_resource_monitor manager (omega arith)
      empty free

abbrev no_devices : SimulationConfig
no_devices = record default_config { device_count = 0; task_count = 5; edge_node_count = 3 }

abbrev answers : Answers Fixed
answers = record { has_duplicate = λ t. true; profile_rows = none; draw = drawn; now = 0 }

abbrev calm : AllocationStrategy → ℕ → Surroundings Fixed Document
calm strategy i = record {
  now = 0;
  time = codes "12:00:00";
  draw = λ lo hi. lo;
  node_draws = λ key. (literal 0 1, literal 0 1);
  before = λ nodes. nodes;
  others = λ k nodes. nodes;
}

run_experiment-no_devices_example :
    (run_experiment table_sqlite answers calm no_devices [] AllocationStrategy.round_robin
        (create_devices table_sqlite answers.now no_devices.device_count manager).0
        manager
      ≡ division_by_zero)
    × (initialize_runtime {J = Document} table_sqlite answers no_devices manager
        ≡ returns (manager, none))
run_experiment-no_devices_example =
    run_experiment-no_devices table_sqlite answers calm no_devices 4 []
      AllocationStrategy.round_robin manager refl refl (omega arith)

abbrev two_devices : List (Device Fixed)
two_devices = fleet_device 0 0 ∷ fleet_device 0 1 ∷ []

abbrev start : Experiment Fixed Document
start = record {
  devices = two_devices;
  manager = new_task_manager;
  cluster = record {
    nodes = (codes "E001", fleet_node drawn 0) ∷ (codes "E002", fleet_node drawn 1) ∷ [];
    allocator = new_resource_allocator AllocationStrategy.round_robin;
    database = [];
  };
  scheduler = new_task_scheduler SchedulingStrategy.fifo;
}

ascending : IsAscending start.cluster.nodes
unfolding text_lt
ascending = ((refl, tt), (tt, tt))

fresh :
    start.cluster.allocator
    ≡ record (new_resource_allocator AllocationStrategy.round_robin) { weights = default_weights }
unfolding new_resource_allocator
fresh = refl

run_workload-IsUnderway_example :
    Returns
      (IsUnderway AllocationStrategy.round_robin default_weights IsAscending 2 5)
      (run_workload [] (codes "round_robin") (calm AllocationStrategy.round_robin) 5 start)
run_workload-IsUnderway_example =
    run_workload-IsUnderway Fixed-IsOrdered AllocationStrategy.round_robin default_weights
      (calm AllocationStrategy.round_robin) IsAscending
      (round_robin-Keeps default_weights (calm AllocationStrategy.round_robin) (λ i nodes h. h)
        (λ i k nodes h. h))
      (λ e. cc) 1 [] (codes "round_robin") 5 start refl fresh ascending

abbrev small_config : SimulationConfig
small_config = record default_config { device_count = 2; task_count = 5; edge_node_count = 3 }

run_experiment-round_robin_example :
    Returns
      (λ e. IsUnderway AllocationStrategy.round_robin default_weights IsAscending 2 5 e.0)
      (run_experiment table_sqlite answers calm small_config [] AllocationStrategy.round_robin
        two_devices manager)
run_experiment-round_robin_example =
    run_experiment-round_robin Fixed-IsOrdered table_sqlite answers calm small_config [] 1
      two_devices manager refl (omega arith) (λ i nodes h. h) (λ i k nodes h. h)
