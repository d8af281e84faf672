-- ===== src/Scheduler/Order.antt =====
-- Which task `TaskScheduler::getNextTask` of task_scheduler.cpp hands out, and what it leaves behind.
use mathlib.Core.List.Perm
use multi_constraint_iot_edg.Common.{
  some-injective, ◌∙◌, ap, All, ℕ, zero, suc, ◌<◌, ◌≡◌, refl, sym, List, [], ◌∷◌, ◌++◌, Option,
  none, some, arith, length, append_assoc, append-nil, Perm, subst,
}
use multi_constraint_iot_edg.Task.{TaskStatus, set_status, Task}
use multi_constraint_iot_edg.Edge.{EdgeNode, has_tasks_in_queue, dequeue_task, enqueue_task}
use multi_constraint_iot_edg.Scheduler.Selection.{
  Selects, IsRanked, Selects-perm, Selects-length, Selects-All, pick_by-Selects,
}
use multi_constraint_iot_edg.Scheduler.{
  schedule_task, Readings, TaskScheduler, SchedulingStrategy, fifo, priority_based,
  earliest_deadline_first, round_robin_time_slice, unknown, drain, restore, select_task,
  select_from_queue, next_by, get_next_task,
}
use multi_constraint_iot_edg.Scheduler.Ranking.{
  Higher, AtLeast, Sooner, NotLater, Any, IsSteady, less_urgent-IsRanked, sooner, sooner-Any,
  All-Unit, sooner-IsRanked,
}

module _ {W J : Type 0} where
  abbrev with_queue : List (Task W J) → EdgeNode W J → EdgeNode W J
  with_queue q e = record e { task_queue = q }

  drain_lem :
      (q : List (Task W J)) (fuel : ℕ) (scratch : List (Task W J)) (e : EdgeNode W J)
      → e.task_queue ≡ q
      → length q < fuel
      → drain fuel scratch e ≡ (scratch ++ q, with_queue [] e)
  unfolding drain has_tasks_in_queue dequeue_task
  drain_lem q zero scratch e h n = absurd (omega arith)
  drain_lem [] (suc fuel) scratch e h n = rw append-nil (ground arith)
  drain_lem (t ∷ q) (suc fuel) scratch e h n = ground (
    arith,
    drain_lem q fuel (scratch ++ t ∷ []) (with_queue q e) refl,
    append_assoc scratch (t ∷ []) q,
  )

  restore_lem :
      (ts : List (Task W J)) (e : EdgeNode W J) → restore ts e ≡ with_queue (e.task_queue ++ ts) e
  unfolding restore enqueue_task
  restore_lem [] e = rw append-nil
  restore_lem (t ∷ ts) e = rw (restore_lem ts, append_assoc)

  -- What each strategy promises of the task that is handed out and of those that stay. `Over` and `Beside`
  -- are for EDF.
  abbrev pub IsNextBy :
      (Task W J → Task W J → Type 0)
      → (Task W J → Task W J → Type 0)
      → SchedulingStrategy
      → List (Task W J)
      → Task W J
      → List (Task W J)
      → Type 0
  IsNextBy Over Beside priority_based q t rest = Selects Higher AtLeast q t rest
  IsNextBy Over Beside earliest_deadline_first q t rest = Selects Over Beside q t rest
  IsNextBy Over Beside fifo q t rest = q ≡ t ∷ rest
  IsNextBy Over Beside round_robin_time_slice q t rest = q ≡ t ∷ rest
  IsNextBy Over Beside unknown q t rest = q ≡ t ∷ rest

  -- What holds whatever the clock shows.
  abbrev pub IsNext : SchedulingStrategy → List (Task W J) → Task W J → List (Task W J) → Type 0
  IsNext = IsNextBy Any Any

  module _ (Fit : Task W J → Type 0) (Over Beside : Task W J → Task W J → Type 0) (now : Readings)
      (ranked : IsRanked Fit (sooner now) Over Beside) where
    select_task_lem :
        (s : SchedulingStrategy) (x : Task W J) (xs : List (Task W J))
        → All Fit (x ∷ xs)
        → (t : Task W J) × (rest : List (Task W J)) × (select_task now s (x ∷ xs) ≡ some (t, rest))
          × IsNextBy Over Beside s (x ∷ xs) t rest
    unfolding select_task
    select_task_lem fifo x xs fit = (x, xs, refl, refl)
    select_task_lem priority_based x xs fit =
        pick_by-Selects Fit _ _ _ (less_urgent-IsRanked Fit) x xs fit
    select_task_lem earliest_deadline_first x xs fit = pick_by-Selects Fit _ _ _ ranked x xs fit
    select_task_lem round_robin_time_slice x xs fit = (x, xs, refl, refl)
    select_task_lem unknown x xs fit = (x, xs, refl, refl)

    -- What a call gives on a node whose queue is not empty.
    abbrev HandsOut : SchedulingStrategy → EdgeNode W J → Option (Task W J) × EdgeNode W J → Type 0
    HandsOut s e r =
        (t : Task W J) × (rest : List (Task W J)) × (r ≡ (some t, with_queue rest e))
        × IsNextBy Over Beside s e.task_queue t rest

    select_from_queue-HandsOut :
        (s : SchedulingStrategy) (e : EdgeNode W J) (x : Task W J) (xs : List (Task W J))
        → All Fit (x ∷ xs)
        → e.task_queue ≡ x ∷ xs
        → HandsOut s e (select_from_queue now s e)
    unfolding select_from_queue
    select_from_queue-HandsOut s e x xs fit h =
        let (t, rest, picked, next) = select_task_lem s x xs fit in
        (
          t,
          rest,
          ground (
            arith,
            drain_lem (x ∷ xs) (suc (length e.task_queue)) [] e h (rw h (omega arith)),
            restore_lem rest (with_queue [] e),
          ),
          subst (λ q. IsNextBy Over Beside s q t rest) (sym h) next,
        )

    next_by-HandsOut :
        (s : SchedulingStrategy) (e : EdgeNode W J) (x : Task W J) (xs : List (Task W J))
        → All Fit (x ∷ xs)
        → e.task_queue ≡ x ∷ xs
        → HandsOut s e (next_by now s e)
    unfolding next_by dequeue_task
    next_by-HandsOut fifo e x xs fit h = (x, xs, ground arith, h)
    next_by-HandsOut priority_based e x xs fit h =
        select_from_queue-HandsOut priority_based e x xs fit h
    next_by-HandsOut earliest_deadline_first e x xs fit h =
        select_from_queue-HandsOut earliest_deadline_first e x xs fit h
    next_by-HandsOut round_robin_time_slice e x xs fit h =
        select_from_queue-HandsOut round_robin_time_slice e x xs fit h
    next_by-HandsOut unknown e x xs fit h = select_from_queue-HandsOut unknown e x xs fit h

    get_next_task-IsNextBy :
        (scheduler : TaskScheduler) (e : EdgeNode W J) (x : Task W J) (xs : List (Task W J))
        → All Fit (x ∷ xs)
        → e.task_queue ≡ x ∷ xs
        → (t : Task W J) × (rest : List (Task W J)) × (get_next_task now scheduler (some e)
            ≡ (some t, some (record e { task_queue = rest })))
          × IsNextBy Over Beside scheduler.strategy e.task_queue t rest
    unfolding get_next_task has_tasks_in_queue
    get_next_task-IsNextBy scheduler e x xs fit h =
        let (t, rest, given, next) = next_by-HandsOut scheduler.strategy e x xs fit h in
        (t, rest, ground arith, next)

  -- On a node with waiting tasks, `get_next_task` hands out the task that the strategy asks for, and
  -- leaves the others in the queue in their order and the rest of the node as it was: the front of the
  -- queue for FIFO and for the round robin; for the priority strategy a task of higher priority than all
  -- before it and of at least that of all behind it; for EDF a task with less time left than all before it
  -- and with at most that of all behind it, in whole milliseconds. No waiting task's time left passes to
  -- the next millisecond between the readings of the clock in the call.
  pub get_next_task_lem :
      (now : Readings) (n : ℕ) (scheduler : TaskScheduler) (e : EdgeNode W J) (x : Task W J)
      (xs : List (Task W J))
      → All (IsSteady now n) (x ∷ xs)
      → e.task_queue ≡ x ∷ xs
      → (t : Task W J) × (rest : List (Task W J)) × (get_next_task now scheduler (some e)
          ≡ (some t, some (record e { task_queue = rest })))
        × IsNextBy (Sooner n) (NotLater n) scheduler.strategy e.task_queue t rest
  get_next_task_lem now n scheduler e x xs steady h =
      get_next_task-IsNextBy (IsSteady now n) (Sooner n) (NotLater n) now (sooner-IsRanked now n)
        scheduler e x xs steady h

  -- The same, whatever the clock shows, with nothing said of the deadlines.
  pub get_next_task-IsNext :
      (now : Readings) (scheduler : TaskScheduler) (e : EdgeNode W J) (x : Task W J)
      (xs : List (Task W J))
      → e.task_queue ≡ x ∷ xs
      → (t : Task W J) × (rest : List (Task W J)) × (get_next_task now scheduler (some e)
          ≡ (some t, some (record e { task_queue = rest })))
        × IsNext scheduler.strategy e.task_queue t rest
  get_next_task-IsNext now scheduler e x xs h =
      get_next_task-IsNextBy (λ t. Unit) Any Any now (sooner-Any now) scheduler e x xs
        (All-Unit (x ∷ xs)) h

  -- Without a node, or on a node whose queue is empty, there is no task and nothing changes.
  pub get_next_task-none :
      (now : Readings) (scheduler : TaskScheduler) (e : EdgeNode W J)
      → e.task_queue ≡ []
      → (get_next_task now scheduler (some e) ≡ (none, some e))
        × (get_next_task {W = W} {J = J} now scheduler none ≡ (none, none))
  unfolding get_next_task has_tasks_in_queue
  get_next_task-none now scheduler e h = ground arith

  -- What a call that hands out a task has done.
  pub get_next_task-handed :
      (now : Readings) (scheduler : TaskScheduler) (e e' : EdgeNode W J) (t : Task W J)
      → get_next_task now scheduler (some e) ≡ (some t, some e')
      → (rest : List (Task W J)) × (e' ≡ record e { task_queue = rest })
        × IsNext scheduler.strategy e.task_queue t rest
  get_next_task-handed now scheduler e e' t given = by_queue e.task_queue refl
    where
      by_queue :
          (q : List (Task W J))
          → e.task_queue ≡ q
          → (rest : List (Task W J)) × (e' ≡ record e { task_queue = rest })
            × IsNext scheduler.strategy e.task_queue t rest
      by_queue [] h =
          let empty = (get_next_task-none now scheduler e h).0 in
          let clash : some t ≡ none = ap (λ p. p.0) (sym given ∙ empty) in cc
      by_queue (x ∷ xs) h =
          let (u, rest, handed, next) = get_next_task-IsNext now scheduler e x xs h in
          let both = sym given ∙ handed in
          let same : t ≡ u = some-injective _ _ (ap (λ p. p.0) both) in
          (
            rest,
            some-injective _ _ (ap (λ p. p.1) both),
            subst (λ v. IsNext scheduler.strategy e.task_queue v rest) (sym same) next,
          )

  pub schedule_task-some :
      (s : TaskScheduler) (e : EdgeNode W J) (t : Task W J)
      → (schedule_task s (some e) (some t)).1
        ≡ some (enqueue_task (set_status TaskStatus.queued t) e)
  unfolding schedule_task
  schedule_task-some s e t = refl

  -- A strategy keeps every task: the task that is handed out and those that stay are the queue.
  pub IsNext-perm :
      (s : SchedulingStrategy) (q : List (Task W J)) (t : Task W J) (rest : List (Task W J))
      → IsNext s q t rest
      → Perm (t ∷ rest) q
  IsNext-perm fifo q t rest h = rw h (Perm.refl _)
  IsNext-perm priority_based q t rest h = Selects-perm h
  IsNext-perm earliest_deadline_first q t rest h = Selects-perm h
  IsNext-perm round_robin_time_slice q t rest h = rw h (Perm.refl _)
  IsNext-perm unknown q t rest h = rw h (Perm.refl _)

  pub IsNext-length :
      (s : SchedulingStrategy) (q : List (Task W J)) (t : Task W J) (rest : List (Task W J))
      → IsNext s q t rest
      → length q ≡ suc (length rest)
  IsNext-length fifo q t rest h = ap length h
  IsNext-length priority_based q t rest h = Selects-length h
  IsNext-length earliest_deadline_first q t rest h = Selects-length h
  IsNext-length round_robin_time_slice q t rest h = ap length h
  IsNext-length unknown q t rest h = ap length h

  pub IsNext-All :
      (P : Task W J → Type 0) (s : SchedulingStrategy) (q : List (Task W J)) (t : Task W J)
      (rest : List (Task W J))
      → IsNext s q t rest
      → All P q
      → P t × All P rest
  IsNext-All P fifo q t rest h a = subst (All P) h a
  IsNext-All P priority_based q t rest h a = Selects-All P h a
  IsNext-All P earliest_deadline_first q t rest h a = Selects-All P h a
  IsNext-All P round_robin_time_slice q t rest h a = subst (All P) h a
  IsNext-All P unknown q t rest h a = subst (All P) h a
