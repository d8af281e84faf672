-- ===== src/Database/Refinement.antt =====
-- The tasks table behind database_manager.cpp as a map of tasks: what the calls of the program do to it,
-- and what `getTask` reads of it.
use multi_constraint_iot_edg.Common.{
  if_false, if_true, ap, ◌≡◌, refl, sym, ◌∙◌, Bool, true, false, List, [], ◌∷◌, none, some, Text, ℤ,
  pos, if◌then◌else◌, All, inl, inr, Bool-cases,
}
use multi_constraint_iot_edg.Common.Dict.{Dict, lookup, insert, adjust}
use multi_constraint_iot_edg.Task.{Task, priority_rank, status_code}
use multi_constraint_iot_edg.Database.{DatabaseCall, DatabaseLog}
use multi_constraint_iot_edg.Database as Call
use multi_constraint_iot_edg.Database.Sqlite.{
  Sqlite, Bound, bind_text, bind_double, bind_int64, bind_int, c_str,
}
use multi_constraint_iot_edg.Database.Statements.{
  save_task_sql, update_task_status_sql, save_allocation_sql, save_allocation_failure_sql,
  save_task_execution_sql, save_resource_snapshot_sql,
}
use multi_constraint_iot_edg.Database.Manager.{
  DatabaseManager, save_task, update_task_status, save_allocation, save_allocation_failure,
  save_task_execution, save_resource_snapshot, run_statement,
}
use multi_constraint_iot_edg.Database.Tasks.{get_task_sql, perform, perform_all, succeeded}

-- A row of the table, without its key.
pub record TaskRow (W : Type 0) : Type 0 where
  pub device_id : Text
  pub sensor_type : Text
  pub cpu_percent : W
  pub ram_mb : W
  pub bandwidth_mbps : W
  pub deadline_ms : ℤ
  pub priority : ℤ
  pub status : ℤ

module _ {W J : Type 0} where
  abbrev pub row_of : Task W J → TaskRow W
  row_of task = record {
    device_id = c_str task.device_id;
    sensor_type = c_str task.sensor_type;
    cpu_percent = task.requirements.cpu_percent;
    ram_mb = task.requirements.ram_mb;
    bandwidth_mbps = task.requirements.bandwidth_mbps;
    deadline_ms = task.requirements.deadline_ms;
    priority = pos (priority_rank task.requirements.priority);
    status = pos (status_code task.status);
  }

  -- What a call means for the table.
  unfoldable pub effect : DatabaseCall W J → Dict (TaskRow W) → Dict (TaskRow W)
  effect (Call.save_task task) m = insert (c_str task.task_id) (row_of task) m
  effect (Call.update_task_status id status) m =
      adjust (c_str id) (λ row. record row { status = pos (status_code status) }) m
  effect (Call.save_allocation id edge score strategy) m = m
  effect (Call.save_allocation_failure id reason) m = m
  effect (Call.save_task_execution id ms success) m = m
  effect (Call.save_resource_snapshot id usage queue) m = m

  unfoldable pub effects : DatabaseLog W J → Dict (TaskRow W) → Dict (TaskRow W)
  effects [] m = m
  effects (call ∷ log) m = effects log (effect call m)

-- What SQLite documents of the statements on the table: `table` is its content. A statement that does not
-- succeed changes nothing. `Kept` holds of the doubles that a REAL column gives back as they are.
pub record KeepsTasks {W D R : Type 0} (sqlite : Sqlite W D R) : Type 1 where
  pub table : D → Dict (TaskRow W)
  pub Kept : W → Type 0
  pub save_task_steps :
      (id device sensor : Text) (cpu ram bandwidth : W) (deadline priority status : ℤ) (db : D)
      → let (db', done) =
          sqlite.step save_task_sql
            (bind_text id
              ∷ bind_text device
              ∷ bind_text sensor
              ∷ bind_double cpu
              ∷ bind_double ram
              ∷ bind_double bandwidth
              ∷ bind_int64 deadline
              ∷ bind_int priority
              ∷ bind_int status
              ∷ [])
            db in
        table db' ≡ (
          if done
          then insert id
              (record {
                device_id = device;
                sensor_type = sensor;
                cpu_percent = cpu;
                ram_mb = ram;
                bandwidth_mbps = bandwidth;
                deadline_ms = deadline;
                priority = priority;
                status = status;
              })
              (table db)
          else table db)
  pub update_status_steps :
      (status : ℤ) (id : Text) (db : D)
      → let (db', done) =
          sqlite.step update_task_status_sql (bind_int status ∷ bind_text id ∷ []) db in
        table db'
        ≡ (if done then adjust id (λ row. record row { status = status }) (table db) else table db)
  pub others :
      All
        (λ sql. (values : List (Bound W)) (db : D) → table (sqlite.step sql values db).0 ≡ table db)
        (save_allocation_sql ∷ save_allocation_failure_sql ∷ save_task_execution_sql
          ∷ save_resource_snapshot_sql ∷ [])
  pub get_task_none :
      (id : Text) (db : D)
      → lookup id (table db) ≡ none
      → sqlite.rows get_task_sql (bind_text id ∷ []) db ≡ []
  pub get_task_some :
      (id : Text) (db : D) (row : TaskRow W)
      → lookup id (table db) ≡ some row
      → Kept row.cpu_percent
      → Kept row.ram_mb
      → Kept row.bandwidth_mbps
      → (r : R) × (sqlite.rows get_task_sql (bind_text id ∷ []) db ≡ r ∷ [])
        × (sqlite.column_text r 1 ≡ some row.device_id)
        × (sqlite.column_text r 2 ≡ some row.sensor_type)
        × (sqlite.column_double r 3 ≡ row.cpu_percent)
        × (sqlite.column_double r 4 ≡ row.ram_mb)
        × (sqlite.column_double r 5 ≡ row.bandwidth_mbps)
        × (sqlite.column_int64 r 6 ≡ row.deadline_ms)
        × (sqlite.column_int r 7 ≡ row.priority)
        × (sqlite.column_int r 8 ≡ row.status)

module _ {W D R : Type 0} (sqlite : Sqlite W D R) (laws : KeepsTasks sqlite) where
  open laws use {table}

  -- What a bound step does to the table, a call does that prepares the statement first.
  run_statement-table :
      (sql : Text) (values : List (Bound W)) (m : DatabaseManager D) (after : Dict (TaskRow W))
      → table (sqlite.step sql values m.db).0
        ≡ (if (sqlite.step sql values m.db).1 then after else table m.db)
      → table (run_statement sqlite sql values m).0.db
        ≡ (if (run_statement sqlite sql values m).1 then after else table m.db)
  unfolding run_statement
  run_statement-table sql values m after h = elim (Bool-cases (sqlite.prepares sql m.db)) [
    | inl e ↦ rw e h
    | inr e ↦ rw e refl
  ]

  run_statement-kept :
      (sql : Text) (values : List (Bound W)) (m : DatabaseManager D)
      → table (sqlite.step sql values m.db).0 ≡ table m.db
      → table (run_statement sqlite sql values m).0.db
        ≡ (if (run_statement sqlite sql values m).1 then table m.db else table m.db)
  run_statement-kept sql values m h =
      run_statement-table sql values m (table m.db) (h ∙ sym (same (sqlite.step sql values m.db).1))
    where
      same : (b : Bool) → (if b then table m.db else table m.db) ≡ table m.db
      same true = refl
      same false = refl

  module _ {J : Type 0} where
    -- A call that succeeds has its effect on the table, and one that fails has none.
    pub perform-effect :
        (call : DatabaseCall W J) (m : DatabaseManager D)
        → table (perform sqlite call m).0.db
          ≡ (if (perform sqlite call m).1 then effect call (table m.db) else table m.db)
    unfolding perform effect save_task update_task_status save_allocation save_allocation_failure
        save_task_execution save_resource_snapshot
    perform-effect (Call.save_task task) m =
        run_statement-table _ _ m _ (laws.save_task_steps _ _ _ _ _ _ _ _ _ m.db)
    perform-effect (Call.update_task_status id status) m =
        run_statement-table _ _ m _ (laws.update_status_steps _ _ m.db)
    perform-effect (Call.save_allocation id edge score strategy) m =
        run_statement-kept _ _ m (laws.others.0 _ m.db)
    perform-effect (Call.save_allocation_failure id reason) m =
        run_statement-kept _ _ m (laws.others.1.0 _ m.db)
    perform-effect (Call.save_task_execution id ms success) m =
        run_statement-kept _ _ m (laws.others.1.1.0 _ m.db)
    perform-effect (Call.save_resource_snapshot id usage queue) m =
        run_statement-kept _ _ m (laws.others.1.1.1.0 _ m.db)

    -- After the calls of a log the table is what the calls that have succeeded make of the table before, in
    -- their order, whatever the other calls were and why they failed. SQLite keeps the table as `KeepsTasks`
    -- says.
    pub perform_all-refines :
        (log : DatabaseLog W J) (m : DatabaseManager D)
        → table (perform_all sqlite log m).db ≡ effects (succeeded sqlite log m) (table m.db)
    unfolding perform_all succeeded effects
    perform_all-refines [] m = refl
    perform_all-refines (call ∷ log) m =
        let rest = perform_all-refines log (perform sqlite call m).0 in
        let one = perform-effect call m in
        elim (Bool-cases (perform sqlite call m).1) [
          | inl e ↦ rw e (
              rest
              ∙ ap (effects (succeeded sqlite log (perform sqlite call m).0))
                  (one ∙ if_true _ _ _ e))
          | inr e ↦ rw e (
              rest
              ∙ ap (effects (succeeded sqlite log (perform sqlite call m).0))
                  (one ∙ if_false _ _ _ e))
        ]
