-- ===== src/Scheduler.antt =====
-- task_scheduler.h and task_scheduler.cpp: the order in which the tasks of a node are executed. Each
-- comparison of deadlines reads the clock, once for either task: what it shows is an argument.
pub mod Selection
pub mod Ranking
pub mod Order
pub mod Service
use Selection.{pick_by}
use multi_constraint_iot_edg.Common.{
  ℕ, zero, suc, ◌+◌, ◌≡◌, Bool, true, false, List, [], ◌∷◌, ◌++◌, Option, none, some, ℤ, u64,
  length, ltb, ltb_ℤ, if◌then◌else◌, Text, codes, ◌||◌, not,
}
use multi_constraint_iot_edg.Task.{
  Task, TaskStatus, priority_rank, get_remaining_time_ms, set_status,
}
use multi_constraint_iot_edg.Edge.{EdgeNode, has_tasks_in_queue, enqueue_task, dequeue_task}

-- `unknown` is a value outside the enumerators, which the `default` of each `switch` handles.
pub data SchedulingStrategy : Type 0 where
  fifo priority_based earliest_deadline_first round_robin_time_slice unknown : SchedulingStrategy

unfoldable pub scheduling_strategy_name : SchedulingStrategy → Text
scheduling_strategy_name fifo = codes "FIFO"
scheduling_strategy_name priority_based = codes "PRIORITY_BASED"
scheduling_strategy_name earliest_deadline_first = codes "EARLIEST_DEADLINE_FIRST"
scheduling_strategy_name round_robin_time_slice = codes "ROUND_ROBIN_TIME_SLICE"
scheduling_strategy_name unknown = codes "UNKNOWN"

pub record TaskScheduler : Type 0 where
  pub strategy : SchedulingStrategy
  pub total_tasks_scheduled : ℕ

unfoldable pub new_task_scheduler : SchedulingStrategy → TaskScheduler
new_task_scheduler strategy = record { strategy = strategy; total_tasks_scheduled = 0 }

abbrev pub set_strategy : SchedulingStrategy → TaskScheduler → TaskScheduler
set_strategy s scheduler = record scheduler { strategy = s }

-- The readings of the clock in a call, two for each comparison by its number.
abbrev pub Readings : Type 0
Readings = ℕ → ℕ × ℕ

module _ {W J : Type 0} where
  -- The comparison that `std::max_element` is given.
  unfoldable pub less_urgent : Task W J → Task W J → Bool
  less_urgent a b =
      ltb (priority_rank a.requirements.priority) (priority_rank b.requirements.priority)

  -- The comparison that `std::min_element` is given, with the two readings of the clock.
  unfoldable pub less_time : ℕ × ℕ → Task W J → Task W J → Bool
  less_time (now_a, now_b) a b =
      ltb_ℤ (get_remaining_time_ms now_a a) (get_remaining_time_ms now_b b)

  enqueue_queued :
      TaskScheduler
      → EdgeNode W J
      → Task W J
      → TaskScheduler × Option (EdgeNode W J) × Option (Task W J)
  enqueue_queued s e t =
      let queued = set_status TaskStatus.queued t in
      (
        record s { total_tasks_scheduled = u64 (s.total_tasks_scheduled + 1) },
        some (enqueue_task queued e),
        some queued,
      )

  -- `none` is the null pointer: the call then returns at once.
  unfoldable pub schedule_task :
      TaskScheduler
      → Option (EdgeNode W J)
      → Option (Task W J)
      → TaskScheduler × Option (EdgeNode W J) × Option (Task W J)
  unfolding enqueue_queued
  schedule_task s none t = (s, none, t)
  schedule_task s (some e) none = (s, some e, none)
  schedule_task s (some e) (some t) = enqueue_queued s e t

  keep_task : Option (Task W J) → List (Task W J) → List (Task W J)
  keep_task none scratch = scratch
  keep_task (some t) scratch = scratch ++ t ∷ []

  -- The `while` loop that drains the queue into the scratch buffer, on fuel.
  unfoldable pub drain : ℕ → List (Task W J) → EdgeNode W J → List (Task W J) × EdgeNode W J
  unfolding keep_task
  drain zero scratch e = (scratch, e)
  drain (suc fuel) scratch e =
      let rest = drain fuel (keep_task (dequeue_task e).0 scratch) (dequeue_task e).1 in
      if has_tasks_in_queue e then rest else (scratch, e)

  -- The loop that puts the remaining tasks back.
  unfoldable pub restore : List (Task W J) → EdgeNode W J → EdgeNode W J
  restore [] e = e
  restore (t ∷ ts) e = restore ts (enqueue_task t e)

  take_front : List (Task W J) → Option (Task W J × List (Task W J))
  take_front [] = none
  take_front (t ∷ ts) = some (t, ts)

  -- The `switch`: the selected task and the scratch buffer without it. `none` where that is empty.
  select_task :
      Readings → SchedulingStrategy → List (Task W J) → Option (Task W J × List (Task W J))
  unfolding take_front
  select_task now priority_based scratch = pick_by (λ i. less_urgent) scratch
  select_task now earliest_deadline_first scratch = pick_by (λ i a b. less_time (now i) b a) scratch
  select_task now round_robin_time_slice scratch = take_front scratch
  select_task now fifo scratch = take_front scratch
  select_task now unknown scratch = take_front scratch

  put_back : Option (Task W J × List (Task W J)) → EdgeNode W J → Option (Task W J) × EdgeNode W J
  put_back none e = (none, e)
  put_back (some (t, rest)) e = (some t, restore rest e)

  -- Drain, select and restore.
  select_from_queue :
      Readings → SchedulingStrategy → EdgeNode W J → Option (Task W J) × EdgeNode W J
  unfolding put_back select_task
  select_from_queue now s e =
      let (scratch, emptied) = drain (suc (length e.task_queue)) [] e in
      put_back (select_task now s scratch) emptied

  next_by : Readings → SchedulingStrategy → EdgeNode W J → Option (Task W J) × EdgeNode W J
  unfolding select_from_queue
  next_by now fifo e = dequeue_task e
  next_by now priority_based e = select_from_queue now priority_based e
  next_by now earliest_deadline_first e = select_from_queue now earliest_deadline_first e
  next_by now round_robin_time_slice e = select_from_queue now round_robin_time_slice e
  next_by now unknown e = select_from_queue now unknown e

  unfoldable pub get_next_task :
      Readings → TaskScheduler → Option (EdgeNode W J) → Option (Task W J) × Option (EdgeNode W J)
  unfolding next_by
  get_next_task now s none = (none, none)
  get_next_task now s (some e) =
      if not (has_tasks_in_queue e)
      then (none, some e)
      else let (t, e') = next_by now s.strategy e in (t, some e')
