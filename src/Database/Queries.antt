-- ===== src/Database/Queries.antt =====
-- The queries of database_manager.cpp for the dashboard: each makes a document of every row.
use multi_constraint_iot_edg.Common.{
  negsuc, Bool, false, List, [], ◌∷◌, ◌++◌, Option, none, some, Text, ℤ, pos, if◌then◌else◌, ◌==◌,
  not, ℕ,
}
use multi_constraint_iot_edg.Json.{Json, RealJson, Field, object}
use multi_constraint_iot_edg.Task.Documents.{Decoding, decoded, null_string, ◌>>=◌}
use multi_constraint_iot_edg.Database.Sqlite.{Sqlite, Bound, bind_text, bind_int64, c_str, to_int64}
use multi_constraint_iot_edg.Database.Manager.{DatabaseManager}
use multi_constraint_iot_edg.Database.Columns.{
  Columns, get_task_allocation_history_sql, task_allocation_columns, get_edge_resource_history_sql,
  edge_resource_columns, get_devices_json_sql, device_columns, get_edge_nodes_json_sql,
  edge_node_columns, get_tasks_json_sql, task_columns, get_active_tasks_json_sql,
  active_task_columns, get_activities_json_sql, activity_columns, get_alerts_json_sql,
  alert_columns, get_resource_history_json_sql, resource_columns, system_metrics_sql, Source,
  metrics_columns, text_column, text_or_empty, real_column, int64_column, int_column, flag_column,
  constant, message,
}

unfoldable pub text_of : Option Text → Decoding Text
text_of none = null_string
text_of (some t) = decoded t

text_or : Option Text → Text
text_or none = []
text_or (some t) = t

module _ {W J D R : Type 0} ⦃json : Json J⦄ ⦃real : RealJson W J⦄ (sqlite : Sqlite W D R) where
  open sqlite use {prepares, rows, column_text, column_double, column_int64, column_int}

  value_of : R → Source → Decoding J
  unfolding text_of text_or
  value_of row (text_column i) = text_of (column_text row i) >>= λ t. decoded (json.of_text t)
  value_of row (text_or_empty i) = decoded (json.of_text (text_or (column_text row i)))
  value_of row (real_column i) = decoded (real.of_real (column_double row i))
  value_of row (int64_column i) = decoded (json.of_int (column_int64 row i))
  value_of row (int_column i) = decoded (json.of_int (column_int row i))
  value_of row (flag_column i) = decoded (json.of_bool (not (is_zero (column_int row i))))
    where
      is_zero : ℤ → Bool
      is_zero (pos n) = n == 0
      is_zero (negsuc n) = false
  value_of row (constant t) = decoded (json.of_text t)
  value_of row (message t i) =
      text_of (column_text row i) >>= λ name. decoded (json.of_text (t ++ name))

  fields_of : R → Columns → Decoding (List (Field J))
  unfolding value_of
  fields_of row [] = decoded []
  fields_of row ((key, source) ∷ columns) =
      value_of row source >>= λ v. fields_of row columns >>= λ fields. decoded ((key, v) ∷ fields)

  -- The body of each loop.
  unfoldable pub document_of : Columns → R → Decoding J
  unfolding fields_of
  document_of columns row = fields_of row columns >>= λ fields. decoded (object fields)

  documents : Columns → List R → Decoding (List J)
  documents columns [] = decoded []
  documents columns (row ∷ rest) =
      document_of columns row >>= λ v. documents columns rest >>= λ vs. decoded (v ∷ vs)

  -- What all queries have in common: nothing where the statement cannot be prepared.
  unfoldable pub query : Text → List (Bound W) → Columns → DatabaseManager D → Decoding (List J)
  unfolding documents
  query sql values columns m =
      if prepares sql m.db then documents columns (rows sql values m.db) else decoded []

  unfoldable pub get_task_allocation_history : DatabaseManager D → Decoding (List J)
  get_task_allocation_history m = query get_task_allocation_history_sql [] task_allocation_columns m

  unfoldable pub get_edge_resource_history : Text → DatabaseManager D → Decoding (List J)
  get_edge_resource_history edge_id m =
      query get_edge_resource_history_sql (bind_text (c_str edge_id) ∷ []) edge_resource_columns m

  unfoldable pub get_devices_json : DatabaseManager D → Decoding (List J)
  get_devices_json m = query get_devices_json_sql [] device_columns m

  unfoldable pub get_edge_nodes_json : DatabaseManager D → Decoding (List J)
  get_edge_nodes_json m = query get_edge_nodes_json_sql [] edge_node_columns m

  unfoldable pub get_tasks_json : ℕ → DatabaseManager D → Decoding (List J)
  get_tasks_json limit m =
      query get_tasks_json_sql (bind_int64 (to_int64 limit) ∷ []) task_columns m

  unfoldable pub get_active_tasks_json : DatabaseManager D → Decoding (List J)
  get_active_tasks_json m = query get_active_tasks_json_sql [] active_task_columns m

  unfoldable pub get_activities_json : ℕ → DatabaseManager D → Decoding (List J)
  get_activities_json limit m =
      query get_activities_json_sql (bind_int64 (to_int64 limit) ∷ []) activity_columns m

  unfoldable pub get_alerts_json : DatabaseManager D → Decoding (List J)
  get_alerts_json m = query get_alerts_json_sql [] alert_columns m

  unfoldable pub get_resource_history_json : ℕ → DatabaseManager D → Decoding (List J)
  get_resource_history_json limit m =
      query get_resource_history_json_sql (bind_int64 (to_int64 limit) ∷ []) resource_columns m

  first_document : List R → Decoding J
  first_document [] = decoded json.null
  first_document (row ∷ rest) = document_of metrics_columns row

  unfoldable pub get_system_metrics : DatabaseManager D → Decoding J
  unfolding first_document
  get_system_metrics m =
      if prepares system_metrics_sql m.db
      then first_document (rows system_metrics_sql [] m.db)
      else decoded json.null
