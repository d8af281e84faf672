-- ===== src/Main/Program.antt =====
-- `runExperiment` and `main` of main.cpp: the experiments that a command line asks for, and the exit code.
use multi_constraint_iot_edg.Common.{ℕ, Bool, List, [], ◌∷◌, none, some, if◌then◌else◌}
use multi_constraint_iot_edg.Double.{Double}
use multi_constraint_iot_edg.Json.{Json, RealJson}
use multi_constraint_iot_edg.Outcome.{Outcome, returns, ◌>>=◌}
use multi_constraint_iot_edg.Config.{SimulationConfig}
use multi_constraint_iot_edg.Manager.{new_task_manager}
use multi_constraint_iot_edg.Monitor.{new_resource_monitor}
use multi_constraint_iot_edg.Profile.{Profiles, load_profiles}
use multi_constraint_iot_edg.Allocator.{AllocationStrategy, new_resource_allocator}
use multi_constraint_iot_edg.Scheduler.{new_task_scheduler}
use multi_constraint_iot_edg.Fleet.{Device, create_edge_nodes, create_devices}
use multi_constraint_iot_edg.Database.Sqlite.{Sqlite}
use multi_constraint_iot_edg.Database.Manager.{
  DatabaseManager, initialize, reset_simulation_data, close,
}
use multi_constraint_iot_edg.Database.Tasks.{perform_all}
use multi_constraint_iot_edg.Runtime.Startup.{Answers, initialize_runtime, save_profiles}
use multi_constraint_iot_edg.Main.{
  Experiment, Surroundings, run_workload, strategy_from_string, scheduling_of_name,
}

abbrev pub all_strategies : List AllocationStrategy
all_strategies =
    AllocationStrategy.round_robin ∷ AllocationStrategy.least_load
    ∷ AllocationStrategy.priority_based ∷ AllocationStrategy.multi_constraint ∷ []

module _ {W J D R : Type 0} ⦃d : Double W⦄ ⦃json : Json J⦄ ⦃real : RealJson W J⦄
    (sqlite : Sqlite W D R) (answers : Answers W)
    (around : AllocationStrategy → ℕ → Surroundings W J) where
  -- One experiment, with the readings of the devices and the database as the ones before left them. The
  -- calls to the database are performed in their order at the end, since no turn reads what they do. This
  -- is the code up to the wait for the queues, which is `wait_loop` of Runtime.Draining.
  unfoldable pub run_experiment :
      SimulationConfig
      → Profiles W
      → AllocationStrategy
      → List (Device W)
      → DatabaseManager D
      → Outcome (Experiment W J × DatabaseManager D)
  run_experiment config profiles strategy devices m =
      create_edge_nodes sqlite answers.draw config.edge_node_count new_resource_monitor m
      >>= λ fleet.
          run_workload profiles config.strategy (around strategy) config.task_count (record {
            devices = devices;
            manager = new_task_manager;
            cluster = record {
              nodes = fleet.monitor.edge_nodes;
              allocator = new_resource_allocator strategy;
              database = [];
            };
            scheduler = new_task_scheduler (scheduling_of_name config.scheduling);
          })
          >>= λ x. returns (x, perform_all sqlite x.cluster.database fleet.manager)

  -- The loop over the strategies; the results are in the order of the strategies.
  unfoldable pub run_experiments :
      SimulationConfig
      → Profiles W
      → List AllocationStrategy
      → List (Device W)
      → DatabaseManager D
      → Outcome (List (Experiment W J) × DatabaseManager D)
  run_experiments config profiles [] devices m = returns ([], m)
  run_experiments config profiles (strategy ∷ strategies) devices m =
      run_experiment config profiles strategy devices m >>= λ (x, m').
      run_experiments config profiles strategies x.devices m' >>= λ (xs, m''). returns (x ∷ xs, m'')

  run_prepared : SimulationConfig → DatabaseManager D → Outcome (ℕ × DatabaseManager D)
  run_prepared config m =
      let profiles = load_profiles answers.profile_rows [] in
      let (devices, m') =
        create_devices sqlite answers.now config.device_count (save_profiles sqlite profiles m) in
      run_experiments config profiles
        (if config.run_comparison
          then all_strategies
          else strategy_from_string config.strategy ∷ [])
        devices m'
      >>= λ (xs, m''). returns (0, close sqlite m'')

  -- The dashboard: the exit code 1 where the runtime cannot be initialized or the port cannot be bound.
  -- What the live workload writes until the server ends is left out.
  unfoldable pub run_web :
      Bool → SimulationConfig → DatabaseManager D → Outcome (ℕ × DatabaseManager D)
  run_web binds config m = initialize_runtime {J = J} sqlite answers config m >>= λ (m', started).
      elim started [
        | none ↦ returns (1, close sqlite m')
        | some s ↦ returns (if binds then 0 else 1, close sqlite m')
      ]

  -- `main`, behind the parse of its arguments: the exit code.
  unfoldable pub run_main :
      Bool → SimulationConfig → DatabaseManager D → Outcome (ℕ × DatabaseManager D)
  unfolding run_prepared
  run_main binds config m =
      let (opened, is_open) = initialize sqlite answers.has_duplicate config.db_path m in
      let (fresh, is_fresh) = reset_simulation_data sqlite opened in
      let web = run_web binds config m in
      let prepared = run_prepared config fresh in
      if config.web_mode
      then web
      else if is_open
      then if is_fresh then prepared else returns (1, close sqlite fresh)
      else returns (1, opened)
