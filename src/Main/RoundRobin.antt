-- ===== src/Main/RoundRobin.antt =====
-- The round robin of resource_allocator.cpp in the workload of main.cpp: it has no value that an edge would
-- have to beat.
use multi_constraint_iot_edg.Common.{
  ◌≡◌, ℕ, refl, some, Text, ◌∷◌, [], All, Option, none, suc, ◌<◌, ◌^◌, length, List,
}
use multi_constraint_iot_edg.Common.Dict.{lookup, IsAscending, adjust-IsAscending}
use multi_constraint_iot_edg.Double.{Double, IsOrdered}
use multi_constraint_iot_edg.Task.{Task}
use multi_constraint_iot_edg.Monitor.{
  new_resource_monitor, put_nodes, update_resource_metrics-IsAscending,
}
use multi_constraint_iot_edg.Scheduler.{schedule_task}
use multi_constraint_iot_edg.Allocator.{
  ResourceAllocator, Nodes, reserve, round_robin, AllocationStrategy, new_resource_allocator,
}
use multi_constraint_iot_edg.Allocator.Score.{AllocationWeights, default_weights}
use multi_constraint_iot_edg.Main.{Surroundings, put_node, run_workload}
use multi_constraint_iot_edg.Edge.{EdgeNode}
use multi_constraint_iot_edg.Allocator.Choice.{Starts}
use multi_constraint_iot_edg.Main.Turns.{Keeps, IsUnderway}
use multi_constraint_iot_edg.Json.{Json, RealJson}
use multi_constraint_iot_edg.Outcome.{Returns, Returns-bind, Returns-map}
use multi_constraint_iot_edg.Config.{SimulationConfig}
use multi_constraint_iot_edg.Profile.{Profiles}
use multi_constraint_iot_edg.Fleet.{Device, create_edge_nodes}
use multi_constraint_iot_edg.Fleet.Nodes.{IsStocked, create_edge_nodes-IsStocked}
use multi_constraint_iot_edg.Database.Sqlite.{Sqlite}
use multi_constraint_iot_edg.Database.Manager.{DatabaseManager}
use multi_constraint_iot_edg.Runtime.Startup.{Answers}
use multi_constraint_iot_edg.Main.Workload.{run_workload-IsUnderway}
use multi_constraint_iot_edg.Main.Program.{run_experiment}

module _ {W J : Type 0} ⦃d : Double W⦄ where
  All-Starts :
      (task : Task W J) (a : ResourceAllocator W) (v : Nodes W J)
      → All (Starts round_robin task a) v
  All-Starts task a [] = tt
  All-Starts task a (e ∷ v) = (tt, All-Starts task a v)

  put_node-IsAscending :
      (key : Text) (e : Option (EdgeNode W J)) (nodes : Nodes W J)
      → IsAscending nodes
      → IsAscending (put_node key e nodes)
  unfolding put_node
  put_node-IsAscending key none nodes h = h
  put_node-IsAscending key (some e) nodes h = adjust-IsAscending key _ nodes h

  -- The round robin works on every map of the nodes, if the other threads leave it a map.
  pub round_robin-Keeps :
      (w : AllocationWeights W) (around : ℕ → Surroundings W J)
      → ((i : ℕ) (nodes : Nodes W J) → IsAscending nodes → IsAscending ((around i).before nodes))
      → ((i k : ℕ) (nodes : Nodes W J)
          → IsAscending nodes
          → IsAscending ((around i).others k nodes))
      → Keeps round_robin w around IsAscending
  unfolding reserve new_resource_monitor
  round_robin-Keeps w around before others = record {
    fine = λ task a nodes same weights h. (h, All-Starts task a _);
    calm = λ i task a k nodes h. (others i k nodes h.0, All-Starts task a _);
    before = before;
    others = others;
    reserves = λ task key nodes h. adjust-IsAscending key _ nodes h;
    queues = λ scheduler key task nodes h.
        put_node-IsAscending key (schedule_task scheduler (lookup key nodes) (some task)).1 nodes h;
    fluctuates = λ draws nodes h.
        update_resource_metrics-IsAscending draws (put_nodes nodes new_resource_monitor) refl h;
  }

module _ {W J D R : Type 0} ⦃d : Double W⦄ ⦃json : Json J⦄ ⦃real : RealJson W J⦄
    (order : IsOrdered W) (sqlite : Sqlite W D R) (answers : Answers W)
    (around : AllocationStrategy → ℕ → Surroundings W J) where
  -- An experiment with the round robin and at least one device returns, and at its end the requests that
  -- are counted are as many as there are tasks, modulo the counters' width, and as many as the successes
  -- and failures together; the nodes are a map and the devices are as many as before. The number of nodes
  -- does not exceed 64 bits, and the other threads leave the nodes a map.
  pub run_experiment-round_robin :
      (config : SimulationConfig) (profiles : Profiles W) (count : ℕ) (devices : List (Device W))
      (m : DatabaseManager D)
      → length devices ≡ suc count
      → config.edge_node_count < 2 ^ 64
      → ((i : ℕ) (nodes : Nodes W J)
          → IsAscending nodes
          → IsAscending ((around round_robin i).before nodes))
      → ((i k : ℕ) (nodes : Nodes W J)
          → IsAscending nodes
          → IsAscending ((around round_robin i).others k nodes))
      → Returns
          (λ e.
            IsUnderway round_robin default_weights IsAscending (suc count) config.task_count e.0)
          (run_experiment sqlite answers around config profiles round_robin devices m)
  unfolding run_experiment new_resource_monitor new_resource_allocator
  run_experiment-round_robin config profiles count devices m some_devices small before others =
      Returns-bind (IsStocked sqlite answers.draw config.edge_node_count) _ _
        (create_edge_nodes sqlite answers.draw config.edge_node_count new_resource_monitor m)
        (λ fleet stocked.
          Returns-map
            (IsUnderway round_robin default_weights IsAscending (suc count) config.task_count) _ _
            (run_workload profiles config.strategy (around round_robin) config.task_count _)
            (λ x u. u)
            (run_workload-IsUnderway order round_robin default_weights (around round_robin)
              IsAscending (round_robin-Keeps default_weights (around round_robin) before others)
              (λ e. cc) count profiles config.strategy config.task_count _ some_devices refl
              stocked.ascending))
        (create_edge_nodes-IsStocked sqlite answers.draw config.edge_node_count new_resource_monitor
          m small refl refl)
