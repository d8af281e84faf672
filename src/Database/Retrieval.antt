-- ===== src/Database/Retrieval.antt =====
-- What `getTask` of database_manager.cpp reads of the tasks table.
use multi_constraint_iot_edg.Common.{text_eq_refl, if_true, ℕ, ◌≡◌, refl, ◌∙◌, true, [], some, Text}
use multi_constraint_iot_edg.Common.Dict.{lookup, insert, lookup-insert}
use multi_constraint_iot_edg.Json.{Json}
use multi_constraint_iot_edg.Task.{Task, new_task}
use multi_constraint_iot_edg.Task.Documents.{
  decoded, priority_of_code-priority_rank, status_of_code-status_code,
}
use multi_constraint_iot_edg.Database.{DatabaseCall, DatabaseLog}
use multi_constraint_iot_edg.Database as Call
use multi_constraint_iot_edg.Database.Sqlite.{Sqlite, c_str}
use multi_constraint_iot_edg.Database.Manager.{DatabaseManager, save_task}
use multi_constraint_iot_edg.Database.Tasks.{get_task, get_task_sql, task_of_row, perform}
use multi_constraint_iot_edg.Database.Queries.{text_of}
use multi_constraint_iot_edg.Database.Refinement.{effect, KeepsTasks, row_of, perform-effect}

module _ {W D R : Type 0} (sqlite : Sqlite W D R) (laws : KeepsTasks sqlite) where
  open laws use {table}

  module _ {J : Type 0} ⦃json : Json J⦄ where
    -- What a row reads as.
    abbrev pub task_in : ℕ → Text → Task W J → Task W J
    task_in now id task = record task {
      task_id = id;
      device_id = c_str task.device_id;
      sensor_type = c_str task.sensor_type;
      sensor_data = json.empty_object;
      assigned_edge_id = [];
      creation_time = now;
      completion_time = 0;
    }

    pub get_task-row_of :
        (now : ℕ) (id : Text) (task : Task W J) (m : DatabaseManager D)
        → sqlite.prepares get_task_sql m.db ≡ true
        → laws.Kept task.requirements.cpu_percent
        → laws.Kept task.requirements.ram_mb
        → laws.Kept task.requirements.bandwidth_mbps
        → lookup (c_str id) (table m.db) ≡ some (row_of task)
        → get_task sqlite now id m ≡ decoded (some (task_in now id task))
    unfolding get_task task_of_row new_task text_of
    get_task-row_of now id task m prepared cpu ram bandwidth at =
        let (r, found, device, sensor, c, a, b, deadline, priority, status) =
          laws.get_task_some (c_str id) m.db (row_of task) at cpu ram bandwidth in
        rw (prepared, found)
          (rw (priority, device, sensor, status, c, a, b, deadline)
            (rw
              (
                priority_of_code-priority_rank task.requirements.priority,
                status_of_code-status_code task.status,
              )
              refl))

    -- A task that has been saved is read back with its requirements and its status. The sensor data, the
    -- edge and the times are lost, and texts end before their first zero byte. The call that saves it has
    -- succeeded, the query can be prepared, the amounts are such as a REAL column gives back, and SQLite
    -- keeps the table as `KeepsTasks` says.
    pub get_task-save_task :
        (now : ℕ) (task : Task W J) (m : DatabaseManager D)
        → (save_task sqlite (some task) m).1 ≡ true
        → sqlite.prepares get_task_sql (save_task sqlite (some task) m).0.db ≡ true
        → laws.Kept task.requirements.cpu_percent
        → laws.Kept task.requirements.ram_mb
        → laws.Kept task.requirements.bandwidth_mbps
        → get_task sqlite now task.task_id (save_task sqlite (some task) m).0
          ≡ decoded (some (task_in now task.task_id task))
    get_task-save_task now task m saved prepared cpu ram bandwidth =
        get_task-row_of now task.task_id task _ prepared cpu ram bandwidth stored
      where
        after :
            table (save_task sqlite (some task) m).0.db
            ≡ insert (c_str task.task_id) (row_of task) (table m.db)
        after =
            unfold perform effect in
            (perform-effect sqlite laws (Call.save_task task) m ∙ if_true _ _ _ saved)

        stored :
            lookup (c_str task.task_id) (table (save_task sqlite (some task) m).0.db)
            ≡ some (row_of task)
        stored = rw (after, lookup-insert, text_eq_refl) refl
