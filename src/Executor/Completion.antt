-- ===== src/Executor/Completion.antt =====
-- What an execution of task_executor.cpp leaves behind.
use multi_constraint_iot_edg.Common.{
  Bool, ℕ, ◌+◌, ◌≡◌, refl, ap, ◌∙◌, true, false, none, u64, Text, text_eq, ℤ, Bool-cases, inl, inr,
  if◌then◌else◌, ◌⊎◌, sub_ℕ, ltb_ℤ, tdiv,
}
use multi_constraint_iot_edg.Common.Dict.{
  Dict, insert, lookup, IsAscending, insert-IsAscending, lookup-insert, lookup-erase,
}
use multi_constraint_iot_edg.Double.{Double, IsOrdered, IsExact}
use multi_constraint_iot_edg.Task.{
  TaskStatus, set_status, Task, is_deadline_exceeded, get_elapsed_time_ms, elapsed_ms,
}
use multi_constraint_iot_edg.Database.{record_call, update_task_status, save_task_execution}
use multi_constraint_iot_edg.Edge.{EdgeNode, can_allocate, allocate_resources, deallocate_resources}
use multi_constraint_iot_edg.Edge.Accounting.{
  IsValid, IsRequest, deallocate_resources-allocate_resources,
}
use multi_constraint_iot_edg.Executor.{
  Execution, begin_execution, finish_execution, simulate_task_execution, count_execution,
  final_status, estimate_execution_time,
}

module _ {W J : Type 0} ⦃d : Double W⦄ where
  -- A key that is taken out again may as well not have been put in.
  skip :
      (j k : Text) (v : Task W J) (m : Dict (Task W J))
      → (if text_eq j k then none else lookup k (insert j v m))
        ≡ (if text_eq j k then none else lookup k m)
  skip j k v m = elim (Bool-cases (text_eq j k)) [
    | inl e ↦ rw e refl
    | inr e ↦ rw (e, lookup-insert) (rw e refl)
  ]

  -- How a task ends: it is completed, and one more execution is counted, or it has failed, and one more
  -- failure is counted; the database is told the new status and how the execution ended.
  abbrev pub Ended : Bool → TaskStatus → Execution W J → Execution W J → ℕ → ℕ → ℤ → Type 0
  Ended success status x y executed failed ms =
      (y.task.status ≡ status)
      × (y.executor.total_tasks_executed ≡ executed)
      × (y.executor.total_tasks_failed ≡ failed)
      × (y.database
          ≡ record_call (save_task_execution x.task.task_id ms success)
              (record_call (update_task_status x.task.task_id status) (begin_execution x).database))

  -- After an execution the task is no longer active and no other task's entry has changed, if the active
  -- tasks were a map. Where the milliseconds from the task's creation to the end do not exceed its
  -- deadline, the task is completed and one more execution is counted; where they do, the task has failed
  -- and one more failure is counted. The other counter stays, and the database is told.
  pub simulate_task_execution-lem :
      (now : ℕ) (jitter : W) (x : Execution W J)
      → IsAscending x.executor.active_tasks
      → let y = simulate_task_execution now jitter x in
        let elapsed = tdiv (sub_ℕ now x.task.creation_time) 1_000_000 in
        let late = ltb_ℤ x.task.requirements.deadline_ms elapsed in
        let ms = estimate_execution_time jitter x.task in
        let executed = x.executor.total_tasks_executed in
        let failed = x.executor.total_tasks_failed in
        ((k : Text)
          → lookup k y.executor.active_tasks
            ≡ (if text_eq x.task.task_id k then none else lookup k x.executor.active_tasks))
        × (((late ≡ false) × Ended true TaskStatus.completed x y (u64 (executed + 1)) failed ms)
            ⊎ ((late ≡ true) × Ended false TaskStatus.failed x y executed (u64 (failed + 1)) ms))
  unfolding simulate_task_execution finish_execution begin_execution count_execution
      is_deadline_exceeded get_elapsed_time_ms elapsed_ms final_status estimate_execution_time
  simulate_task_execution-lem now jitter x ascending = (
    λ k. removed k,
    elim (Bool-cases
        (ltb_ℤ x.task.requirements.deadline_ms (tdiv (sub_ℕ now x.task.creation_time) 1_000_000))) [
          | inl late ↦ inr (late, rw late (refl, refl, refl, refl))
          | inr met ↦ inl (met, rw met (refl, refl, refl, refl))
        ],
  )
    where
      removed :
          (k : Text)
          → lookup k (simulate_task_execution now jitter x).executor.active_tasks
            ≡ (if text_eq x.task.task_id k then none else lookup k x.executor.active_tasks)
      removed k =
          rw
            (lookup-erase x.task.task_id k _ (
              insert-IsAscending x.task.task_id (set_status TaskStatus.running x.task) _ ascending))
            (skip x.task.task_id k (set_status TaskStatus.running x.task) x.executor.active_tasks)

  -- A node on which a task's resources were reserved has them back after the execution of the task: only
  -- the count of processed tasks has changed, if the node was within its capacity and could take the task,
  -- and the amounts are not negative and on the grid of exact sums.
  pub simulate_task_execution-edge :
      (order : IsOrdered W) (exact : IsExact W) (now : ℕ) (jitter : W) (x : Execution W J)
      (e : EdgeNode W J)
      → IsRequest exact x.task.requirements.cpu_percent x.task.requirements.ram_mb
          x.task.requirements.bandwidth_mbps
      → IsValid exact e
      → can_allocate x.task.requirements.cpu_percent x.task.requirements.ram_mb
          x.task.requirements.bandwidth_mbps e
        ≡ true
      → x.edge
        ≡ allocate_resources x.task.requirements.cpu_percent x.task.requirements.ram_mb
            x.task.requirements.bandwidth_mbps e
      → (simulate_task_execution now jitter x).edge
        ≡ record e { total_tasks_processed = u64 (e.total_tasks_processed + 1) }
  unfolding simulate_task_execution finish_execution begin_execution
  simulate_task_execution-edge order exact now jitter x e asks valid can reserved =
      ap (deallocate_resources _ _ _) reserved
      ∙ deallocate_resources-allocate_resources exact order _ _ _ e asks valid can
