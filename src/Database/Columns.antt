-- ===== src/Database/Columns.antt =====
-- The queries of database_manager.cpp: the text of each, and where the fields of its documents come from.
use multi_constraint_iot_edg.Common.{ℕ, List, [], ◌∷◌, Text, codes}

-- Where a field of a document comes from: a column that is text and not NULL, one that may be NULL and is
-- then empty, the numbers, a truth value, a constant, and a text that ends with a column.
pub data Source : Type 0 where
  text_column text_or_empty real_column int64_column int_column flag_column : ℕ → Source
  constant : Text → Source
  message : Text → ℕ → Source

abbrev pub Columns : Type 0
Columns = List (Text × Source)

abbrev pub get_task_allocation_history_sql : Text
get_task_allocation_history_sql =
    codes
      "SELECT task_id, edge_id, score, success, reason, allocated_at, strategy FROM task_allocations ORDER BY id DESC LIMIT 1000;"

abbrev pub task_allocation_columns : Columns
task_allocation_columns =
    (codes "task_id", text_column 0)
    ∷ (codes "edge_id", text_or_empty 1)
    ∷ (codes "score", real_column 2)
    ∷ (codes "success", flag_column 3)
    ∷ (codes "reason", text_or_empty 4)
    ∷ (codes "allocated_at", text_column 5)
    ∷ (codes "strategy", text_or_empty 6)
    ∷ []

abbrev pub get_edge_resource_history_sql : Text
get_edge_resource_history_sql =
    codes
      "SELECT cpu_percent, ram_mb, bandwidth_mbps, queue_length, recorded_at FROM resource_history WHERE edge_id = ? ORDER BY id DESC LIMIT 1000;"

abbrev pub edge_resource_columns : Columns
edge_resource_columns =
    (codes "cpu_percent", real_column 0)
    ∷ (codes "ram_mb", real_column 1)
    ∷ (codes "bandwidth_mbps", real_column 2)
    ∷ (codes "queue_length", int64_column 3)
    ∷ (codes "recorded_at", text_column 4)
    ∷ []

abbrev pub get_devices_json_sql : Text
get_devices_json_sql = codes "SELECT device_id, device_type FROM devices ORDER BY device_id;"

abbrev pub device_columns : Columns
device_columns =
    (codes "device_id", text_column 0)
    ∷ (codes "device_type", text_column 1)
    ∷ (codes "status", constant (codes "online"))
    ∷ []

abbrev pub get_edge_nodes_json_sql : Text
get_edge_nodes_json_sql =
    codes
      "SELECT edge_id, cpu_capacity, ram_capacity_mb, bandwidth_capacity_mbps, latency_ms FROM edge_nodes ORDER BY edge_id;"

abbrev pub edge_node_columns : Columns
edge_node_columns =
    (codes "edge_id", text_column 0)
    ∷ (codes "cpu_capacity", real_column 1)
    ∷ (codes "ram_capacity_mb", real_column 2)
    ∷ (codes "bandwidth_capacity_mbps", real_column 3)
    ∷ (codes "latency_ms", int64_column 4)
    ∷ (codes "status", constant (codes "online"))
    ∷ []

abbrev pub get_tasks_json_sql : Text
get_tasks_json_sql =
    codes
      "SELECT t.task_id, t.device_id, t.sensor_type, t.cpu_percent, t.ram_mb, t.bandwidth_mbps, t.deadline_ms, t.priority, t.status, t.created_at, COALESCE((SELECT a.edge_id FROM task_allocations a WHERE a.task_id=t.task_id AND a.success=1 ORDER BY a.id DESC LIMIT 1), '') AS edge_id, COALESCE((SELECT a.strategy FROM task_allocations a WHERE a.task_id=t.task_id AND a.success=1 ORDER BY a.id DESC LIMIT 1), '') AS strategy, COALESCE((SELECT e.executed_at FROM task_execution e WHERE e.task_id=t.task_id ORDER BY e.id DESC LIMIT 1), '') AS executed_at FROM tasks t ORDER BY t.rowid DESC LIMIT ?;"

abbrev pub task_columns : Columns
task_columns =
    (codes "task_id", text_column 0)
    ∷ (codes "device_id", text_column 1)
    ∷ (codes "sensor_type", text_column 2)
    ∷ (codes "cpu_percent", real_column 3)
    ∷ (codes "ram_mb", real_column 4)
    ∷ (codes "bandwidth_mbps", real_column 5)
    ∷ (codes "deadline_ms", int64_column 6)
    ∷ (codes "priority", int_column 7)
    ∷ (codes "status", int_column 8)
    ∷ (codes "created_at", text_column 9)
    ∷ (codes "edge_id", text_column 10)
    ∷ (codes "allocation_strategy", text_column 11)
    ∷ (codes "executed_at", text_column 12)
    ∷ []

abbrev pub get_active_tasks_json_sql : Text
get_active_tasks_json_sql =
    codes
      "SELECT t.task_id, t.device_id, t.sensor_type, t.cpu_percent, t.ram_mb, t.bandwidth_mbps, t.deadline_ms, t.priority, t.status, COALESCE((SELECT a.edge_id FROM task_allocations a WHERE a.task_id=t.task_id AND a.success=1 ORDER BY a.id DESC LIMIT 1), '') AS edge_id FROM tasks t WHERE t.status IN (1,2) ORDER BY t.rowid DESC LIMIT 500;"

abbrev pub active_task_columns : Columns
active_task_columns =
    (codes "task_id", text_column 0)
    ∷ (codes "device_id", text_column 1)
    ∷ (codes "sensor_type", text_column 2)
    ∷ (codes "cpu_percent", real_column 3)
    ∷ (codes "ram_mb", real_column 4)
    ∷ (codes "bandwidth_mbps", real_column 5)
    ∷ (codes "deadline_ms", int64_column 6)
    ∷ (codes "priority", int_column 7)
    ∷ (codes "status", int_column 8)
    ∷ (codes "edge_id", text_column 9)
    ∷ []

abbrev pub get_activities_json_sql : Text
get_activities_json_sql =
    codes
      "SELECT * FROM (SELECT 'allocation' AS type, 'Task ' || task_id || ' allocated to ' || COALESCE(edge_id,'') AS message, allocated_at AS occurred_at FROM task_allocations WHERE success=1 UNION ALL SELECT 'execution' AS type, 'Task ' || task_id || CASE WHEN success=1 THEN ' completed' ELSE ' failed' END AS message, executed_at AS occurred_at FROM task_execution ) ORDER BY occurred_at DESC LIMIT ?;"

abbrev pub activity_columns : Columns
activity_columns =
    (codes "type", text_column 0)
    ∷ (codes "message", text_column 1)
    ∷ (codes "occurred_at", text_column 2)
    ∷ []

abbrev pub get_alerts_json_sql : Text
get_alerts_json_sql =
    codes
      "SELECT edge_id, cpu_percent, ram_mb, queue_length, recorded_at FROM resource_history WHERE cpu_percent >= 80 ORDER BY id DESC LIMIT 20;"

abbrev pub alert_columns : Columns
alert_columns =
    (codes "type", constant (codes "high_cpu"))
    ∷ (codes "edge_id", text_column 0)
    ∷ (codes "cpu_percent", real_column 1)
    ∷ (codes "ram_mb", real_column 2)
    ∷ (codes "queue_length", int64_column 3)
    ∷ (codes "occurred_at", text_column 4)
    ∷ (codes "message", message (codes "High CPU usage on ") 0)
    ∷ []

abbrev pub get_resource_history_json_sql : Text
get_resource_history_json_sql =
    codes
      "SELECT edge_id, cpu_percent, ram_mb, bandwidth_mbps, queue_length, recorded_at FROM resource_history ORDER BY id DESC LIMIT ?;"

abbrev pub resource_columns : Columns
resource_columns =
    (codes "edge_id", text_column 0)
    ∷ (codes "cpu_percent", real_column 1)
    ∷ (codes "ram_mb", real_column 2)
    ∷ (codes "bandwidth_mbps", real_column 3)
    ∷ (codes "queue_length", int64_column 4)
    ∷ (codes "recorded_at", text_column 5)
    ∷ []

abbrev pub system_metrics_sql : Text
system_metrics_sql =
    codes
      "SELECT   (SELECT COUNT(*) FROM tasks) AS total_tasks,  (SELECT COUNT(*) FROM task_allocations WHERE success = 1) AS successful_allocations,  (SELECT COUNT(*) FROM task_allocations WHERE success = 0) AS failed_allocations,  (SELECT AVG(execution_time_ms) FROM task_execution) AS avg_execution_ms;"

abbrev pub metrics_columns : Columns
metrics_columns =
    (codes "total_tasks", int64_column 0)
    ∷ (codes "successful_allocations", int64_column 1)
    ∷ (codes "failed_allocations", int64_column 2)
    ∷ (codes "avg_execution_ms", real_column 3)
    ∷ []
