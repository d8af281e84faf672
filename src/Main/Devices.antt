-- ===== src/Main/Devices.antt =====
-- What the command line `-d 0` does to main.cpp and to live_runtime.cpp.
use multi_constraint_iot_edg.Common.{ℕ, suc, ◌<◌, ◌^◌, ◌≡◌, refl, none}
use multi_constraint_iot_edg.Double.{Double}
use multi_constraint_iot_edg.Json.{Json, RealJson}
use multi_constraint_iot_edg.Outcome.{
  Outcome, Returns, returns, division_by_zero, null_dereference, deadlock, ◌>>=◌,
}
use multi_constraint_iot_edg.Config.{SimulationConfig}
use multi_constraint_iot_edg.Profile.{Profiles}
use multi_constraint_iot_edg.Monitor.{new_resource_monitor}
use multi_constraint_iot_edg.Allocator.{AllocationStrategy}
use multi_constraint_iot_edg.Fleet.{create_devices, create_edge_nodes, repeat_from}
use multi_constraint_iot_edg.Fleet.Nodes.{IsStocked, create_edge_nodes-IsStocked}
use multi_constraint_iot_edg.Database.Sqlite.{Sqlite}
use multi_constraint_iot_edg.Database.Manager.{DatabaseManager}
use multi_constraint_iot_edg.Runtime.Startup.{Answers, initialize_runtime}
use multi_constraint_iot_edg.Main.{Surroundings, run_turn, run_workload}
use multi_constraint_iot_edg.Main.Program.{run_experiment}

returns→ends :
    {A B : Type 0} (P : A → Type 0) (f : A → Outcome B) (stop : Outcome B) (m : Outcome A)
    → Returns P m
    → ((a : A) → f a ≡ stop)
    → (m >>= f) ≡ stop
returns→ends P f stop (returns a) p h = h a
returns→ends P f stop null_dereference p h = absurd p
returns→ends P f stop deadlock p h = absurd p
returns→ends P f stop division_by_zero p h = absurd p

module _ {W J D R : Type 0} ⦃d : Double W⦄ ⦃json : Json J⦄ ⦃real : RealJson W J⦄
    (sqlite : Sqlite W D R) (answers : Answers W)
    (around : AllocationStrategy → ℕ → Surroundings W J) where
  -- Without devices an experiment with at least one task divides by zero at its first task, which the
  -- live runtime does not come to: it refuses the configuration and leaves the database alone. The number
  -- of nodes does not exceed 64 bits.
  pub run_experiment-no_devices :
      (config : SimulationConfig) (n : ℕ) (profiles : Profiles W) (strategy : AllocationStrategy)
      (m : DatabaseManager D)
      → config.device_count ≡ 0
      → config.task_count ≡ suc n
      → config.edge_node_count < 2 ^ 64
      → (run_experiment sqlite answers around config profiles strategy
            (create_devices sqlite answers.now config.device_count m).0
            m
          ≡ division_by_zero)
        × (initialize_runtime {J = J} sqlite answers config m ≡ returns (m, none))
  unfolding create_devices run_experiment run_workload run_turn repeat_from initialize_runtime
      new_resource_monitor
  run_experiment-no_devices config n profiles strategy m no_devices tasks small = (
    rw no_devices (
        returns→ends (IsStocked sqlite answers.draw config.edge_node_count) _ division_by_zero
          (create_edge_nodes sqlite answers.draw config.edge_node_count new_resource_monitor m)
          (create_edge_nodes-IsStocked sqlite answers.draw config.edge_node_count
            new_resource_monitor m small refl refl)
          (λ fleet. rw tasks refl)),
    rw no_devices refl,
  )
