-- ===== src/Runtime/Queries.antt =====
-- The documents that live_runtime.cpp makes for the dashboard: the status, the configuration, the nodes,
-- the active tasks, the metrics and the life of a task. The seconds since the start are an argument.
use multi_constraint_iot_edg.Common.{
  ℕ, Bool, true, false, List, [], ◌∷◌, Option, none, some, Text, text_eq, codes, pos, length,
  if◌then◌else◌,
}
use multi_constraint_iot_edg.Double.{Double, nought, hundred, max_of}
use multi_constraint_iot_edg.Json.{Json, RealJson, Field, object, set_all}
use multi_constraint_iot_edg.Task.{Task}
use multi_constraint_iot_edg.Task.Documents.{Decoding, decoded, ◌>>=◌, or_throw, to_json}
use multi_constraint_iot_edg.Edge.{EdgeNode, get_queue_length}
use multi_constraint_iot_edg.Allocator.{Nodes}
use multi_constraint_iot_edg.Executor.{TaskExecutor}
use multi_constraint_iot_edg.Executor.Active.{get_active_tasks, snapshot_json}
use multi_constraint_iot_edg.Metrics.{collect}
use multi_constraint_iot_edg.Database.Sqlite.{Sqlite}
use multi_constraint_iot_edg.Database.Manager.{DatabaseManager}
use multi_constraint_iot_edg.Database.Tasks.{get_task}
use multi_constraint_iot_edg.Database.Queries.{get_task_allocation_history}
use multi_constraint_iot_edg.Runtime.{
  LiveRuntime, allocation_to_string, allocation_label, scheduling_to_string, scheduling_label,
}

-- What the queries read, besides the runtime.
pub record Live (W J : Type 0) : Type 0 where
  pub runtime : LiveRuntime W J
  pub executor : TaskExecutor W J
  pub running : Bool
  pub processing_complete : Bool
  pub device_count : ℕ
  pub task_count : ℕ
  pub generated_tasks : ℕ
  pub available_nodes : ℕ

module _ {W J : Type 0} ⦃json : Json J⦄ where
  open json use {of_text, of_int, of_bool}

  unfoldable pub configuration : LiveRuntime W J → J
  configuration r = object (
      (codes "automatic", of_bool r.automatic_mode)
      ∷ (
        codes "requested_allocation_strategy",
        of_text (if r.automatic_mode then codes "auto" else r.strategy),
      )
      ∷ (
        codes "requested_scheduling_algorithm",
        of_text (if r.automatic_mode then codes "auto" else r.scheduling),
      )
      ∷ (codes "allocation_strategy", of_text (allocation_to_string r.cluster.allocator.strategy))
      ∷ (codes "allocation_strategy_label", of_text (allocation_label r.cluster.allocator.strategy))
      ∷ (codes "scheduling_algorithm", of_text (scheduling_to_string r.scheduler.strategy))
      ∷ (codes "scheduling_algorithm_label", of_text (scheduling_label r.scheduler.strategy))
      ∷ [])

  unfoldable pub status : Live W J → J
  status live = object (
      (codes "backend_available", of_bool true)
      ∷ (codes "running", of_bool live.running)
      ∷ (codes "processing_complete", of_bool live.processing_complete)
      ∷ (codes "devices", of_int (pos live.device_count))
      ∷ (codes "edge_nodes", of_int (pos (length live.runtime.cluster.nodes)))
      ∷ (codes "tasks_configured", of_int (pos live.task_count))
      ∷ (codes "tasks_generated", of_int (pos live.generated_tasks))
      ∷ (codes "active_tasks", of_int (pos (length live.executor.active_tasks)))
      ∷ (codes "available_edge_nodes", of_int (pos live.available_nodes))
      ∷ (codes "configuration", configuration live.runtime)
      ∷ [])

module _ {J : Type 0} ⦃json : Json J⦄ where
  found_text : Option J → Decoding Text
  found_text none = decoded []
  found_text (some v) = or_throw (json.to_text v)

  -- `value<std::string>(key, "")`.
  unfoldable pub text_value : Text → J → Decoding Text
  unfolding found_text
  text_value key document = found_text (json.get key document)

  -- How many of the documents have a text under a key, and which.
  unfoldable pub matching : Text → Text → List J → Decoding (List J)
  matching key value [] = decoded []
  matching key value (v ∷ vs) = text_value key v >>= λ t.
      matching key value vs >>= λ rest. decoded (if text_eq t value then v ∷ rest else rest)

module _ {W : Type 0} ⦃d : Double W⦄ where
  open d use {lt, mul, div}

  unfoldable pub percent_of : W → W → W
  percent_of used capacity = if lt nought capacity then mul (div used capacity) hundred else nought

module _ {W J : Type 0} ⦃d : Double W⦄ ⦃json : Json J⦄ ⦃real : RealJson W J⦄ where
  open d use {literal}
  open json use {of_text, of_int, of_bool}
  open real use {of_real}

  unfoldable pub edge_node_fields : ℕ → EdgeNode W J → List (Field J)
  edge_node_fields executing e =
      (codes "edge_id", of_text e.edge_id)
      ∷ (codes "status", of_text (if e.is_available then codes "online" else codes "offline"))
      ∷ (codes "cpu_capacity", of_real e.capacity.cpu_percent)
      ∷ (codes "cpu_utilization", of_real e.current_usage.cpu_percent)
      ∷ (
        codes "cpu_utilization_percent",
        of_real (percent_of e.current_usage.cpu_percent e.capacity.cpu_percent),
      )
      ∷ (codes "ram_capacity_mb", of_real e.capacity.ram_mb)
      ∷ (codes "ram_utilization_mb", of_real e.current_usage.ram_mb)
      ∷ (
        codes "ram_utilization_percent",
        of_real (percent_of e.current_usage.ram_mb e.capacity.ram_mb),
      )
      ∷ (codes "bandwidth_capacity_mbps", of_real e.capacity.bandwidth_mbps)
      ∷ (codes "bandwidth_utilization_mbps", of_real e.current_usage.bandwidth_mbps)
      ∷ (
        codes "bandwidth_utilization_percent",
        of_real (percent_of e.current_usage.bandwidth_mbps e.capacity.bandwidth_mbps),
      )
      ∷ (codes "latency_ms", of_int e.capacity.latency_ms)
      ∷ (codes "active_tasks", of_int (pos executing))
      ∷ (codes "queue_length", of_int (get_queue_length e))
      ∷ (codes "load", of_real (percent_of e.current_usage.cpu_percent e.capacity.cpu_percent))
      ∷ []

  edge_documents : List J → Nodes W J → Decoding (List J)
  edge_documents active [] = decoded []
  edge_documents active ((key, e) ∷ nodes) =
      matching (codes "assigned_edge_id") e.edge_id active >>= λ executing.
      edge_documents active nodes >>= λ rest.
      decoded (object (edge_node_fields (length executing) e) ∷ rest)

  unfoldable pub edge_nodes : ℕ → Live W J → Decoding J
  unfolding edge_documents
  edge_nodes now live =
      edge_documents (get_active_tasks now live.executor.active_tasks) live.runtime.cluster.nodes
      >>= λ vs. decoded (json.array vs)

  unfoldable pub active_tasks : ℕ → Live W J → J
  active_tasks now live = json.array (get_active_tasks now live.executor.active_tasks)

  unfoldable pub metrics : W → Live W J → J
  metrics seconds live =
      set_all
        (snapshot_json (
          collect (max_of (literal 1 1000) seconds) live.runtime.cluster.allocator live.executor
            live.runtime.cluster.nodes))
        ((codes "tasks_generated", of_int (pos live.generated_tasks))
          ∷ (codes "tasks_completed", of_int (pos live.executor.total_tasks_executed))
          ∷ (codes "tasks_failed", of_int (pos live.executor.total_tasks_failed))
          ∷ [])

-- The last of several documents, under a key.
last_under : {J : Type 0} → Text → List J → List (Field J)
last_under key [] = []
last_under key (v ∷ vs) = (key, v) ∷ last_under key vs

module _ {W J D R : Type 0} ⦃d : Double W⦄ ⦃json : Json J⦄ ⦃real : RealJson W J⦄
    (sqlite : Sqlite W D R) where
  life_of : ℕ → Text → Live W J → DatabaseManager D → Option (Task W J) → Decoding J
  unfolding last_under
  life_of now id live m none = decoded (object ((codes "found", json.of_bool false) ∷ []))
  life_of now id live m (some task) = get_task_allocation_history sqlite m >>= λ history.
      matching (codes "task_id") id history >>= λ allocations.
      matching (codes "task_id") id (get_active_tasks now live.executor.active_tasks) >>= λ active.
      decoded (
        object (
          (codes "found", json.of_bool true)
          ∷ (codes "task", to_json task)
          ∷ (codes "allocations", json.array allocations)
          ∷ last_under (codes "active") active))

  unfoldable pub task_lifecycle : ℕ → Text → Live W J → DatabaseManager D → Decoding J
  unfolding life_of
  task_lifecycle now id live m = get_task sqlite now id m >>= λ task. life_of now id live m task
