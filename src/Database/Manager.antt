-- ===== src/Database/Manager.antt =====
-- The calls of database_manager.cpp that open, prepare and change the database. The messages to the logger
-- are left out.
use multi_constraint_iot_edg.Common.{
  Bool, true, false, List, [], ◌∷◌, Option, none, some, Text, codes, ℤ, pos, if◌then◌else◌,
}
use multi_constraint_iot_edg.Database.Sqlite.{
  Sqlite, Bound, bind_text, bind_double, bind_int64, bind_int, c_str,
}
use multi_constraint_iot_edg.Database.Statements.{
  schemas, migration_sql, reset_sql, save_device_sql, save_task_profile_sql, save_edge_node_sql,
  save_task_sql, update_task_status_sql, save_allocation_sql, save_allocation_failure_sql,
  save_task_execution_sql, save_resource_snapshot_sql,
}
use multi_constraint_iot_edg.Task.{Task, TaskRequirements, TaskStatus, priority_rank, status_code}
use multi_constraint_iot_edg.Edge.{EdgeNode, ResourceUsage}

pub record DatabaseManager (D : Type 0) : Type 0 where
  pub db : D
  pub db_initialized : Bool

module _ {W D R : Type 0} (sqlite : Sqlite W D R) where
  open sqlite use {null_handle, is_null, open_file, exec, prepares, step}

  is_ok : Option (Option Text) → Bool
  is_ok none = true
  is_ok (some message) = false

  unfoldable pub execute_sql : Text → DatabaseManager D → DatabaseManager D × Bool
  unfolding is_ok
  execute_sql sql m = let (db, error) = exec sql m.db in (record m { db = db }, is_ok error)

  -- The loop over the schemas, which ends at the first that fails.
  run_schemas : List Text → DatabaseManager D → DatabaseManager D × Bool
  run_schemas [] m = (m, true)
  run_schemas (schema ∷ rest) m =
      let (after, done) = execute_sql schema m in
      let later = run_schemas rest after in if done then later else (after, false)

  -- Whether a message tells that the column is there already; no message reads as "unknown error".
  migrated : (Text → Bool) → Option (Option Text) → Bool
  migrated has_duplicate none = true
  migrated has_duplicate (some none) = has_duplicate (codes "unknown error")
  migrated has_duplicate (some (some message)) = has_duplicate message

  -- `has_duplicate` tells whether a text contains "duplicate column name".
  unfoldable pub create_schemas : (Text → Bool) → DatabaseManager D → DatabaseManager D × Bool
  unfolding run_schemas migrated
  create_schemas has_duplicate m =
      let (after, done) = run_schemas schemas m in
      let (db, error) = exec migration_sql after.db in
      if done then (record after { db = db }, migrated has_duplicate error) else (after, false)

  unfoldable pub initialize : (Text → Bool) → Text → DatabaseManager D → DatabaseManager D × Bool
  initialize has_duplicate db_path m =
      let (db, opened) = open_file (c_str db_path) in
      let connected = record m { db = db } in
      let foreign = (execute_sql (codes "PRAGMA foreign_keys = ON;") connected).0 in
      let wal = (execute_sql (codes "PRAGMA journal_mode = WAL;") foreign).0 in
      let (created, done) = create_schemas has_duplicate wal in
      if opened
      then (record created { db_initialized = done }, done)
      else (record connected { db_initialized = false }, false)

  unfoldable pub close : DatabaseManager D → DatabaseManager D
  close m = record { db = if is_null m.db then m.db else null_handle; db_initialized = false }

  unfoldable pub reset_simulation_data : DatabaseManager D → DatabaseManager D × Bool
  reset_simulation_data m = execute_sql reset_sql m

  -- Prepare, bind, step once and finalize: what every call below does with its statement.
  unfoldable pub run_statement :
      Text → List (Bound W) → DatabaseManager D → DatabaseManager D × Bool
  run_statement sql values m =
      let (db, done) = step sql values m.db in
      if prepares sql m.db then (record m { db = db }, done) else (m, false)

  unfoldable pub save_device : Text → Text → DatabaseManager D → DatabaseManager D × Bool
  save_device device_id device_type m =
      run_statement save_device_sql
        (bind_text (c_str device_id) ∷ bind_text (c_str device_type) ∷ []) m

  unfoldable pub save_task_profile :
      Text → TaskRequirements W → DatabaseManager D → DatabaseManager D × Bool
  save_task_profile sensor_type requirements m =
      run_statement save_task_profile_sql
        (bind_text (c_str sensor_type)
          ∷ bind_double requirements.cpu_percent
          ∷ bind_double requirements.ram_mb
          ∷ bind_double requirements.bandwidth_mbps
          ∷ bind_int64 requirements.deadline_ms
          ∷ bind_int (pos (priority_rank requirements.priority))
          ∷ [])
        m

  unfoldable pub update_task_status :
      Text → TaskStatus → DatabaseManager D → DatabaseManager D × Bool
  update_task_status task_id status m =
      run_statement update_task_status_sql
        (bind_int (pos (status_code status)) ∷ bind_text (c_str task_id) ∷ []) m

  unfoldable pub save_allocation :
      Text → Text → W → Text → DatabaseManager D → DatabaseManager D × Bool
  save_allocation task_id edge_id score strategy m =
      run_statement save_allocation_sql
        (bind_text (c_str task_id)
          ∷ bind_text (c_str edge_id)
          ∷ bind_double score
          ∷ bind_text (c_str strategy)
          ∷ [])
        m

  unfoldable pub save_allocation_failure :
      Text → Text → DatabaseManager D → DatabaseManager D × Bool
  save_allocation_failure task_id reason m =
      run_statement save_allocation_failure_sql
        (bind_text (c_str task_id) ∷ bind_text (c_str reason) ∷ []) m

  unfoldable pub save_task_execution :
      Text → ℤ → Bool → DatabaseManager D → DatabaseManager D × Bool
  save_task_execution task_id execution_time_ms success m =
      run_statement save_task_execution_sql
        (bind_text (c_str task_id)
          ∷ bind_int64 execution_time_ms
          ∷ bind_int (if success then pos 1 else pos 0)
          ∷ [])
        m

  unfoldable pub save_resource_snapshot :
      Text → ResourceUsage W → ℤ → DatabaseManager D → DatabaseManager D × Bool
  save_resource_snapshot edge_id usage queue_length m =
      run_statement save_resource_snapshot_sql
        (bind_text (c_str edge_id)
          ∷ bind_double usage.cpu_percent
          ∷ bind_double usage.ram_mb
          ∷ bind_double usage.bandwidth_mbps
          ∷ bind_int64 queue_length
          ∷ [])
        m

  -- `none` is the null pointer.
  unfoldable pub save_edge_node :
      {J : Type 0} → Option (EdgeNode W J) → DatabaseManager D → DatabaseManager D × Bool
  save_edge_node none m = (m, false)
  save_edge_node (some node) m =
      run_statement save_edge_node_sql
        (bind_text (c_str node.edge_id)
          ∷ bind_double node.capacity.cpu_percent
          ∷ bind_double node.capacity.ram_mb
          ∷ bind_double node.capacity.bandwidth_mbps
          ∷ bind_int64 node.capacity.latency_ms
          ∷ [])
        m

  unfoldable pub save_task :
      {J : Type 0} → Option (Task W J) → DatabaseManager D → DatabaseManager D × Bool
  save_task none m = (m, false)
  save_task (some task) m =
      run_statement save_task_sql
        (bind_text (c_str task.task_id)
          ∷ bind_text (c_str task.device_id)
          ∷ bind_text (c_str task.sensor_type)
          ∷ bind_double task.requirements.cpu_percent
          ∷ bind_double task.requirements.ram_mb
          ∷ bind_double task.requirements.bandwidth_mbps
          ∷ bind_int64 task.requirements.deadline_ms
          ∷ bind_int (pos (priority_rank task.requirements.priority))
          ∷ bind_int (pos (status_code task.status))
          ∷ [])
        m
