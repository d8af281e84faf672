-- ===== src/Database/Statements.antt =====
-- The statements of database_manager.cpp that make and change the tables.
use multi_constraint_iot_edg.Common.{List, [], ◌∷◌, Text, codes}

abbrev pub schemas : List Text
schemas =
    codes
      "CREATE TABLE IF NOT EXISTS devices (  device_id TEXT PRIMARY KEY,  device_type TEXT NOT NULL);"
    ∷ codes
        "CREATE TABLE IF NOT EXISTS task_profiles (  sensor_type TEXT PRIMARY KEY,  cpu_percent REAL NOT NULL,  ram_mb REAL NOT NULL,  bandwidth_mbps REAL NOT NULL,  deadline_ms INTEGER NOT NULL,  priority INTEGER NOT NULL);"
    ∷ codes
        "CREATE TABLE IF NOT EXISTS edge_nodes (  edge_id TEXT PRIMARY KEY,  cpu_capacity REAL NOT NULL,  ram_capacity_mb REAL NOT NULL,  bandwidth_capacity_mbps REAL NOT NULL,  latency_ms INTEGER NOT NULL);"
    ∷ codes
        "CREATE TABLE IF NOT EXISTS tasks (  task_id TEXT PRIMARY KEY,  device_id TEXT NOT NULL,  sensor_type TEXT NOT NULL,  cpu_percent REAL NOT NULL,  ram_mb REAL NOT NULL,  bandwidth_mbps REAL NOT NULL,  deadline_ms INTEGER NOT NULL,  priority INTEGER NOT NULL,  status INTEGER NOT NULL,  created_at TEXT DEFAULT CURRENT_TIMESTAMP,  FOREIGN KEY (device_id) REFERENCES devices(device_id));"
    ∷ codes
        "CREATE TABLE IF NOT EXISTS task_allocations (  id INTEGER PRIMARY KEY AUTOINCREMENT,  task_id TEXT NOT NULL,  edge_id TEXT,  score REAL,  success INTEGER NOT NULL,  strategy TEXT,  reason TEXT,  allocated_at TEXT DEFAULT CURRENT_TIMESTAMP,  FOREIGN KEY (task_id) REFERENCES tasks(task_id));"
    ∷ codes
        "CREATE TABLE IF NOT EXISTS task_execution (  id INTEGER PRIMARY KEY AUTOINCREMENT,  task_id TEXT NOT NULL,  execution_time_ms INTEGER NOT NULL,  success INTEGER NOT NULL,  executed_at TEXT DEFAULT CURRENT_TIMESTAMP,  FOREIGN KEY (task_id) REFERENCES tasks(task_id));"
    ∷ codes
        "CREATE TABLE IF NOT EXISTS resource_history (  id INTEGER PRIMARY KEY AUTOINCREMENT,  edge_id TEXT NOT NULL,  cpu_percent REAL NOT NULL,  ram_mb REAL NOT NULL,  bandwidth_mbps REAL NOT NULL,  queue_length INTEGER NOT NULL,  recorded_at TEXT DEFAULT CURRENT_TIMESTAMP,  FOREIGN KEY (edge_id) REFERENCES edge_nodes(edge_id));"
    ∷ codes "CREATE INDEX IF NOT EXISTS idx_tasks_device ON tasks(device_id);"
    ∷ codes "CREATE INDEX IF NOT EXISTS idx_allocations_task ON task_allocations(task_id);"
    ∷ codes "CREATE INDEX IF NOT EXISTS idx_execution_task ON task_execution(task_id);"
    ∷ codes "CREATE INDEX IF NOT EXISTS idx_resource_history_edge ON resource_history(edge_id);"
    ∷ []

abbrev pub migration_sql : Text
migration_sql = codes "ALTER TABLE task_allocations ADD COLUMN strategy TEXT;"

abbrev pub reset_sql : Text
reset_sql =
    codes
      "DELETE FROM task_execution;DELETE FROM task_allocations;DELETE FROM resource_history;DELETE FROM tasks;DELETE FROM edge_nodes;DELETE FROM devices;"

abbrev pub save_device_sql : Text
save_device_sql = codes "INSERT OR REPLACE INTO devices (device_id, device_type) VALUES (?, ?);"

abbrev pub save_task_profile_sql : Text
save_task_profile_sql =
    codes
      "INSERT OR REPLACE INTO task_profiles (sensor_type, cpu_percent, ram_mb, bandwidth_mbps, deadline_ms, priority) VALUES (?, ?, ?, ?, ?, ?);"

abbrev pub save_edge_node_sql : Text
save_edge_node_sql =
    codes
      "INSERT OR REPLACE INTO edge_nodes (edge_id, cpu_capacity, ram_capacity_mb, bandwidth_capacity_mbps, latency_ms) VALUES (?, ?, ?, ?, ?);"

abbrev pub save_task_sql : Text
save_task_sql =
    codes
      "INSERT OR REPLACE INTO tasks (task_id, device_id, sensor_type, cpu_percent, ram_mb, bandwidth_mbps,  deadline_ms, priority, status) VALUES (?, ?, ?, ?, ?, ?, ?, ?, ?);"

abbrev pub update_task_status_sql : Text
update_task_status_sql = codes "UPDATE tasks SET status = ? WHERE task_id = ?;"

abbrev pub save_allocation_sql : Text
save_allocation_sql =
    codes
      "INSERT INTO task_allocations (task_id, edge_id, score, success, reason, strategy) VALUES (?, ?, ?, 1, 'allocated', ?);"

abbrev pub save_allocation_failure_sql : Text
save_allocation_failure_sql =
    codes
      "INSERT INTO task_allocations (task_id, edge_id, score, success, reason) VALUES (?, NULL, NULL, 0, ?);"

abbrev pub save_task_execution_sql : Text
save_task_execution_sql =
    codes "INSERT INTO task_execution (task_id, execution_time_ms, success) VALUES (?, ?, ?);"

abbrev pub save_resource_snapshot_sql : Text
save_resource_snapshot_sql =
    codes
      "INSERT INTO resource_history (edge_id, cpu_percent, ram_mb, bandwidth_mbps, queue_length) VALUES (?, ?, ?, ?, ?);"
