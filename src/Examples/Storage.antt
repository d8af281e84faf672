-- ===== src/Examples/Storage.antt =====
-- A database that holds the tasks table only, and the theorems on the database applied to it.
use multi_constraint_iot_edg.Common.{
  not, ◌==◌, ◌≡◌, refl, ℕ, Bool, true, false, List, [], ◌∷◌, Option, none, some, Text, text_eq,
  if◌then◌else◌, ℤ, codes, text_eq_refl,
}
use multi_constraint_iot_edg.Common.Dict.{Dict, lookup, insert, adjust}
use multi_constraint_iot_edg.Double.Fixed.{Fixed, fixed_double}
use multi_constraint_iot_edg.Task.{TaskStatus}
use multi_constraint_iot_edg.Task.Documents.{decoded}
use multi_constraint_iot_edg.Database as Call
use multi_constraint_iot_edg.Database.{DatabaseLog}
use multi_constraint_iot_edg.Database.Sqlite.{
  Sqlite, Bound, bind_text, bind_double, bind_int64, bind_int,
}
use multi_constraint_iot_edg.Database.Statements.{
  save_task_sql, update_task_status_sql, save_allocation_sql, save_allocation_failure_sql,
  save_task_execution_sql, save_resource_snapshot_sql,
}
use multi_constraint_iot_edg.Database.Manager.{run_statement, save_task, DatabaseManager}
use multi_constraint_iot_edg.Database.Tasks.{get_task_sql, perform_all, succeeded, get_task}
use multi_constraint_iot_edg.Database.Refinement.{KeepsTasks, TaskRow, effects, perform_all-refines}
use multi_constraint_iot_edg.Database.Retrieval.{task_in, get_task-save_task}
use multi_constraint_iot_edg.Examples.{plain_task}
use multi_constraint_iot_edg.Examples.Documents.{document_json, document_reals, described_task}

-- `none` is the null pointer.
abbrev pub Connection : Type 0
Connection = Option (Dict (TaskRow Fixed))

abbrev saved : List (Bound Fixed) → Dict (TaskRow Fixed) → Dict (TaskRow Fixed)
saved
      (bind_text id
        ∷ bind_text device
        ∷ bind_text sensor
        ∷ bind_double cpu
        ∷ bind_double ram
        ∷ bind_double bandwidth
        ∷ bind_int64 deadline
        ∷ bind_int priority
        ∷ bind_int status
        ∷ [])
      m =
    insert id
      (record {
        device_id = device;
        sensor_type = sensor;
        cpu_percent = cpu;
        ram_mb = ram;
        bandwidth_mbps = bandwidth;
        deadline_ms = deadline;
        priority = priority;
        status = status;
      })
      m
saved _ m = m

abbrev updated : List (Bound Fixed) → Dict (TaskRow Fixed) → Dict (TaskRow Fixed)
updated (bind_int status ∷ bind_text id ∷ []) m =
    adjust id (λ row. record row { status = status }) m
updated _ m = m

abbrev open_table : Connection → Dict (TaskRow Fixed)
open_table none = []
open_table (some m) = m

abbrev is_open : Connection → Bool
is_open none = false
is_open (some m) = true

abbrev change : Text → List (Bound Fixed) → Dict (TaskRow Fixed) → Dict (TaskRow Fixed)
change sql values m =
    if text_eq sql save_task_sql
    then saved values m
    else if text_eq sql update_task_status_sql
    then updated values m
    else m

abbrev change_open : Text → List (Bound Fixed) → Connection → Connection × Bool
change_open sql values none = (none, false)
change_open sql values (some m) = (some (change sql values m), true)

abbrev found_rows : Option (TaskRow Fixed) → List (TaskRow Fixed)
found_rows none = []
found_rows (some row) = row ∷ []

abbrev select_rows : List (Bound Fixed) → Connection → List (TaskRow Fixed)
select_rows (bind_text id ∷ []) db = found_rows (lookup id (open_table db))
select_rows _ db = []

abbrev text_at_column : TaskRow Fixed → ℕ → Option Text
text_at_column row i = if i == 1 then some row.device_id else some row.sensor_type

abbrev real_at_column : TaskRow Fixed → ℕ → Fixed
real_at_column row i =
    if i == 3 then row.cpu_percent else if i == 4 then row.ram_mb else row.bandwidth_mbps

abbrev int_at_column : TaskRow Fixed → ℕ → ℤ
int_at_column row i = if i == 7 then row.priority else row.status

abbrev pub table_sqlite : Sqlite Fixed Connection (TaskRow Fixed)
table_sqlite = record {
  null_handle = none;
  is_null = λ db. not (is_open db);
  open_file = λ path. (some [], true);
  exec = λ sql db. (db, none);
  prepares = λ sql db. is_open db;
  step = change_open;
  rows = λ sql values db. select_rows values db;
  column_text = text_at_column;
  column_double = real_at_column;
  column_int64 = λ row i. row.deadline_ms;
  column_int = int_at_column;
}

save_task_steps :
    (values : List (Bound Fixed)) (db : Connection)
    → open_table (change_open save_task_sql values db).0 ≡ (
        if (change_open save_task_sql values db).1
        then saved values (open_table db)
        else open_table db)
save_task_steps values none = refl
save_task_steps values (some m) = rw (text_eq_refl save_task_sql) refl

update_steps :
    (values : List (Bound Fixed)) (db : Connection)
    → open_table (change_open update_task_status_sql values db).0 ≡ (
        if (change_open update_task_status_sql values db).1
        then updated values (open_table db)
        else open_table db)
unfolding text_eq
update_steps values none = refl
update_steps values (some m) = refl

other_steps :
    (sql : Text) (values : List (Bound Fixed)) (db : Connection)
    → text_eq sql save_task_sql ≡ false
    → text_eq sql update_task_status_sql ≡ false
    → open_table (change_open sql values db).0 ≡ open_table db
other_steps sql values none p q = refl
other_steps sql values (some m) p q = rw (p, q) refl

unfoldable table_sqlite-KeepsTasks : KeepsTasks table_sqlite
unfolding text_eq save_task_steps update_steps other_steps
table_sqlite-KeepsTasks = record {
  table = open_table;
  Kept = λ x. Unit;
  save_task_steps = λ id device sensor cpu ram bandwidth deadline priority status db.
      save_task_steps
        (bind_text id
          ∷ bind_text device
          ∷ bind_text sensor
          ∷ bind_double cpu
          ∷ bind_double ram
          ∷ bind_double bandwidth
          ∷ bind_int64 deadline
          ∷ bind_int priority
          ∷ bind_int status
          ∷ [])
        db;
  update_status_steps = λ status id db. update_steps (bind_int status ∷ bind_text id ∷ []) db;
  others = (
    λ v db. other_steps save_allocation_sql v db refl refl,
    (
      λ v db. other_steps save_allocation_failure_sql v db refl refl,
      (
        λ v db. other_steps save_task_execution_sql v db refl refl,
        (λ v db. other_steps save_resource_snapshot_sql v db refl refl, tt),
      ),
    ),
  );
  get_task_none = λ id db h. rw h refl;
  get_task_some =
      λ id db row h k l n. (row, rw h refl, refl, refl, refl, refl, refl, refl, refl, refl);
}

abbrev pub manager : DatabaseManager Connection
manager = record { db = some []; db_initialized = true }

abbrev log : DatabaseLog Fixed ℕ
log =
    Call.save_task plain_task
    ∷ Call.update_task_status plain_task.task_id TaskStatus.queued
    ∷ Call.save_allocation_failure plain_task.task_id (codes "busy")
    ∷ Call.update_task_status plain_task.task_id TaskStatus.completed
    ∷ []

perform_all-refines_example :
    table_sqlite-KeepsTasks.table (perform_all table_sqlite log manager).db
    ≡ effects (succeeded table_sqlite log manager) (table_sqlite-KeepsTasks.table manager.db)
perform_all-refines_example = perform_all-refines table_sqlite table_sqlite-KeepsTasks log manager

plain_task_saved : (save_task table_sqlite (some described_task) manager).1 ≡ true
unfolding save_task run_statement
plain_task_saved = refl

plain_task_readable :
    table_sqlite.prepares get_task_sql (save_task table_sqlite (some described_task) manager).0.db
    ≡ true
unfolding save_task run_statement
plain_task_readable = refl

unit_kept : (x : Fixed) → table_sqlite-KeepsTasks.Kept x
unfolding table_sqlite-KeepsTasks
unit_kept x = tt

get_task-save_task_example :
    get_task table_sqlite 9 described_task.task_id
      (save_task table_sqlite (some described_task) manager).0
    ≡ decoded (
        some (task_in table_sqlite table_sqlite-KeepsTasks 9 described_task.task_id described_task))
get_task-save_task_example =
    get_task-save_task table_sqlite table_sqlite-KeepsTasks 9 described_task manager
      plain_task_saved plain_task_readable (unit_kept _) (unit_kept _) (unit_kept _)
