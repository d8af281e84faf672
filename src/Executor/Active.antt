-- ===== src/Executor/Active.antt =====
-- `TaskExecutor::getActiveTasks` of task_executor.cpp, and `MetricsCollector::collectAsJson` of
-- metrics_collector.cpp: documents on what runs and on how it went.
use multi_constraint_iot_edg.Common.{ℕ, List, [], ◌∷◌, codes}
use multi_constraint_iot_edg.Common.Dict.{Dict}
use multi_constraint_iot_edg.Json.{Json, RealJson, object, set_all}
use multi_constraint_iot_edg.Task.{Task, get_elapsed_time_ms, get_remaining_time_ms}
use multi_constraint_iot_edg.Task.Documents.{to_json}
use multi_constraint_iot_edg.Metrics.{Snapshot}

module _ {W J : Type 0} ⦃json : Json J⦄ ⦃real : RealJson W J⦄ where
  open json use {of_int}
  open real use {of_real}

  -- At the clock reading `now`.
  unfoldable pub active_document : ℕ → Task W J → J
  active_document now task = set_all (to_json task) (
      (codes "elapsed_ms", of_int (get_elapsed_time_ms now task))
      ∷ (codes "remaining_ms", of_int (get_remaining_time_ms now task))
      ∷ [])

  unfoldable pub get_active_tasks : ℕ → Dict (Task W J) → List J
  get_active_tasks now [] = []
  get_active_tasks now ((id, task) ∷ tasks) = active_document now task ∷ get_active_tasks now tasks

  unfoldable pub snapshot_json : Snapshot W → J
  snapshot_json s = object (
      (codes "average_latency_ms", of_real s.average_latency_ms)
      ∷ (codes "average_waiting_time_ms", of_real s.average_waiting_time_ms)
      ∷ (codes "deadline_miss_rate_percent", of_real s.deadline_miss_rate_percent)
      ∷ (codes "average_cpu_utilization_percent", of_real s.average_cpu_utilization_percent)
      ∷ (codes "load_imbalance_stddev", of_real s.load_imbalance_stddev)
      ∷ (codes "throughput_tasks_per_second", of_real s.throughput_tasks_per_second)
      ∷ (codes "task_success_rate_percent", of_real s.task_success_rate_percent)
      ∷ [])
