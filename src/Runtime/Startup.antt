-- ===== src/Runtime/Startup.antt =====
-- `LiveRuntime::initialize` of live_runtime.cpp. The messages to the logger are left out; SQLite, what it
-- answers to the query of the profiles, and the draws of the generators are arguments.
use multi_constraint_iot_edg.Common.{
  ℕ, ◌==◌, ◌||◌, Bool, false, List, [], ◌∷◌, Option, none, some, Text, ℤ, if◌then◌else◌,
}
use multi_constraint_iot_edg.Common.Dict.{Dict}
use multi_constraint_iot_edg.Double.{Double}
use multi_constraint_iot_edg.Outcome.{Outcome, returns, ◌>>=◌}
use multi_constraint_iot_edg.Config.{SimulationConfig}
use multi_constraint_iot_edg.Edge.{EdgeNode}
use multi_constraint_iot_edg.Executor.{register_executor_node}
use multi_constraint_iot_edg.Manager.{TaskManager, new_task_manager}
use multi_constraint_iot_edg.Monitor.{new_resource_monitor}
use multi_constraint_iot_edg.Profile.{Profiles, ProfileRow, load_profiles}
use multi_constraint_iot_edg.Allocator.{AllocationStrategy, new_resource_allocator}
use multi_constraint_iot_edg.Scheduler.{SchedulingStrategy, new_task_scheduler}
use multi_constraint_iot_edg.Fleet.{Device, create_edge_nodes, create_devices}
use multi_constraint_iot_edg.Database.Sqlite.{Sqlite}
use multi_constraint_iot_edg.Database.Manager.{
  DatabaseManager, initialize, reset_simulation_data, save_task_profile,
}
use multi_constraint_iot_edg.Runtime.{
  LiveRuntime, allocation_from_string, scheduling_from_string, choose_recommended_configuration,
}

-- What an initialized runtime holds.
pub record Started (W J : Type 0) : Type 0 where
  pub runtime : LiveRuntime W J
  pub devices : List (Device W)
  pub task_manager : TaskManager W J
  pub executor_nodes : Dict (EdgeNode W J)
  pub profiles : Profiles W
  pub generated_tasks : ℕ
  pub processing_complete : Bool
  pub stop_requested : Bool

-- What the code outside the repository answers.
pub record Answers (W : Type 0) : Type 0 where
  -- Whether a text contains "duplicate column name".
  pub has_duplicate : Text → Bool
  pub profile_rows : Option (List (ProfileRow W))
  pub draw : ℕ → W × W × ℤ
  pub now : ℕ

module _ {W D R : Type 0} (sqlite : Sqlite W D R) where
  -- The profiles, in the order of their map.
  unfoldable pub save_profiles : Profiles W → DatabaseManager D → DatabaseManager D
  save_profiles [] m = m
  save_profiles ((sensor_type, requirements) ∷ rest) m =
      save_profiles rest (save_task_profile sqlite sensor_type requirements m).0

module _ {W J : Type 0} ⦃d : Double W⦄ where
  -- The loop that tells the executor of the nodes.
  unfoldable pub register_all : List (EdgeNode W J) → Dict (EdgeNode W J) → Dict (EdgeNode W J)
  register_all [] nodes = nodes
  register_all (e ∷ es) nodes = register_all es (register_executor_node (some e) nodes)

module _ {W J D R : Type 0} ⦃d : Double W⦄ (sqlite : Sqlite W D R) (answers : Answers W) where
  build :
      SimulationConfig
      → AllocationStrategy
      → SchedulingStrategy
      → Profiles W
      → DatabaseManager D
      → Outcome (DatabaseManager D × Option (Started W J))
  build config allocation scheduling profiles m =
      create_edge_nodes sqlite answers.draw config.edge_node_count new_resource_monitor m
      >>= λ fleet.
          let (devices, m') = create_devices sqlite answers.now config.device_count fleet.manager in
          let runtime : LiveRuntime W J = record {
            cluster = record {
              nodes = fleet.monitor.edge_nodes;
              allocator = new_resource_allocator allocation;
              database = [];
            };
            scheduler = new_task_scheduler scheduling;
            automatic_mode = config.automatic_mode;
            strategy = config.strategy;
            scheduling = config.scheduling;
          } in
          returns (
            m',
            some (record {
              runtime =
                  if config.automatic_mode
                  then choose_recommended_configuration runtime
                  else runtime;
              devices = devices;
              task_manager = new_task_manager;
              executor_nodes = register_all fleet.nodes [];
              profiles = profiles;
              generated_tasks = 0;
              processing_complete = false;
              stop_requested = false;
            }),
          )

  -- From the names of the strategies on.
  named :
      SimulationConfig
      → Profiles W
      → DatabaseManager D
      → Outcome (DatabaseManager D × Option (Started W J))
  unfolding build
  named config profiles m =
      let (allocation, valid_allocation) = allocation_from_string config.strategy in
      let (scheduling, valid_scheduling) = scheduling_from_string config.scheduling in
      let built = build config allocation scheduling profiles m in
      if valid_allocation
      then if valid_scheduling then built else returns (m, none)
      else returns (m, none)

  -- `none` is where the call returns false.
  unfoldable pub initialize_runtime :
      SimulationConfig → DatabaseManager D → Outcome (DatabaseManager D × Option (Started W J))
  unfolding named
  initialize_runtime config m =
      let (opened, is_open) = initialize sqlite answers.has_duplicate config.db_path m in
      let (fresh, is_fresh) = reset_simulation_data sqlite opened in
      let profiles = load_profiles answers.profile_rows [] in
      let ready = named config profiles (save_profiles sqlite profiles fresh) in
      if (config.device_count == 0) || (config.edge_node_count == 0)
      then returns (m, none)
      else if is_open
      then if is_fresh then ready else returns (fresh, none)
      else returns (opened, none)
