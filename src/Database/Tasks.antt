-- ===== src/Database/Tasks.antt =====
-- The tasks that database_manager.cpp reads back (`getTask`, `getAllTasks`), and the calls that the other
-- components make of it, one after the other.
use multi_constraint_iot_edg.Common.{
  ℕ, Bool, List, [], ◌∷◌, Option, none, some, Text, codes, if◌then◌else◌,
}
use multi_constraint_iot_edg.Json.{Json}
use multi_constraint_iot_edg.Task.{Task, new_task, set_status}
use multi_constraint_iot_edg.Task.Documents.{
  Decoding, decoded, ◌>>=◌, or_unknown, priority_of_code, status_of_code,
}
use multi_constraint_iot_edg.Database.{DatabaseCall, DatabaseLog}
use multi_constraint_iot_edg.Database as Call
use multi_constraint_iot_edg.Database.Sqlite.{Sqlite, bind_text, c_str}
use multi_constraint_iot_edg.Database.Manager.{
  DatabaseManager, save_task, update_task_status, save_allocation, save_allocation_failure,
  save_task_execution, save_resource_snapshot,
}
use multi_constraint_iot_edg.Database.Queries.{text_of}

abbrev pub get_task_sql : Text
get_task_sql =
    codes
      "SELECT task_id, device_id, sensor_type, cpu_percent, ram_mb, bandwidth_mbps, deadline_ms, priority, status FROM tasks WHERE task_id = ?;"

abbrev pub get_all_tasks_sql : Text
get_all_tasks_sql =
    codes
      "SELECT task_id, device_id, sensor_type, cpu_percent, ram_mb, bandwidth_mbps, deadline_ms, priority, status FROM tasks;"

module _ {W J D R : Type 0} ⦃json : Json J⦄ (sqlite : Sqlite W D R) where
  open sqlite use {prepares, rows, column_text, column_double, column_int64, column_int}

  -- The task of a row, under an identifier, at the clock reading `now`.
  unfoldable pub task_of_row : ℕ → Text → R → Decoding (Task W J)
  task_of_row now id row = or_unknown (priority_of_code (column_int row 7)) >>= λ priority.
      text_of (column_text row 1) >>= λ device. text_of (column_text row 2) >>= λ sensor.
      or_unknown (status_of_code (column_int row 8)) >>= λ status. decoded (
        set_status status (
          new_task now id device sensor
            (record {
              cpu_percent = column_double row 3;
              ram_mb = column_double row 4;
              bandwidth_mbps = column_double row 5;
              deadline_ms = column_int64 row 6;
              priority = priority;
            })
            json.empty_object))

  first_task : ℕ → Text → List R → Decoding (Option (Task W J))
  first_task now id [] = decoded none
  first_task now id (row ∷ rest) = task_of_row now id row >>= λ task. decoded (some task)

  -- `none` is the null pointer.
  unfoldable pub get_task : ℕ → Text → DatabaseManager D → Decoding (Option (Task W J))
  unfolding first_task
  get_task now id m =
      if prepares get_task_sql m.db
      then first_task now id (rows get_task_sql (bind_text (c_str id) ∷ []) m.db)
      else decoded none

  tasks_of_rows : ℕ → List R → Decoding (List (Task W J))
  tasks_of_rows now [] = decoded []
  tasks_of_rows now (row ∷ rest) = text_of (column_text row 0) >>= λ id.
      task_of_row now id row >>= λ task. tasks_of_rows now rest >>= λ tasks. decoded (task ∷ tasks)

  unfoldable pub get_all_tasks : ℕ → DatabaseManager D → Decoding (List (Task W J))
  unfolding tasks_of_rows
  get_all_tasks now m =
      if prepares get_all_tasks_sql m.db
      then tasks_of_rows now (rows get_all_tasks_sql [] m.db)
      else decoded []

module _ {W J D R : Type 0} (sqlite : Sqlite W D R) where
  -- A call that another component has made, and whether it has succeeded.
  unfoldable pub perform : DatabaseCall W J → DatabaseManager D → DatabaseManager D × Bool
  perform (Call.save_task task) m = save_task sqlite (some task) m
  perform (Call.update_task_status id status) m = update_task_status sqlite id status m
  perform (Call.save_allocation id edge score strategy) m =
      save_allocation sqlite id edge score strategy m
  perform (Call.save_allocation_failure id reason) m = save_allocation_failure sqlite id reason m
  perform (Call.save_task_execution id ms success) m = save_task_execution sqlite id ms success m
  perform (Call.save_resource_snapshot id usage queue) m =
      save_resource_snapshot sqlite id usage queue m

  unfoldable pub perform_all : DatabaseLog W J → DatabaseManager D → DatabaseManager D
  perform_all [] m = m
  perform_all (call ∷ log) m = perform_all log (perform call m).0

  -- The calls of a log that succeed.
  unfoldable pub succeeded : DatabaseLog W J → DatabaseManager D → DatabaseLog W J
  succeeded [] m = []
  succeeded (call ∷ log) m =
      let rest = succeeded log (perform call m).0 in
      if (perform call m).1 then call ∷ rest else rest
