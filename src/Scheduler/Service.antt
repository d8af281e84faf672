-- ===== src/Scheduler/Service.antt =====
-- A worker that asks `TaskScheduler::getNextTask` (task_scheduler.cpp) for tasks until the queue of its
-- node is empty, as `TaskExecutor::executeTasksForEdge` (task_executor.cpp) does, with no arrivals.
use mathlib.Core.List.Perm
use multi_constraint_iot_edg.Common.{
  ℕ, zero, suc, ◌≤◌, ◌≡◌, refl, List, [], ◌∷◌, Option, none, some, arith, length, All, All-append,
  All-map, Perm, subst,
}
use multi_constraint_iot_edg.Task.{Task}
use multi_constraint_iot_edg.Edge.{EdgeNode}
use multi_constraint_iot_edg.Scheduler.{Readings, TaskScheduler, priority_based, get_next_task}
use multi_constraint_iot_edg.Scheduler.Selection.{Selects}
use multi_constraint_iot_edg.Scheduler.Ranking.{Higher, AtLeast}
use multi_constraint_iot_edg.Scheduler.Order.{
  IsNext, IsNext-perm, IsNext-length, IsNext-All, get_next_task-IsNext, get_next_task-none,
}

module _ {W J : Type 0} where
  node_or : EdgeNode W J → Option (EdgeNode W J) → EdgeNode W J
  node_or e none = e
  node_or e (some e') = e'

  -- At most `rounds` calls, with the clock readings that `clock` gives. A null pointer ends the service.
  pub serve : ℕ → (ℕ → Readings) → TaskScheduler → EdgeNode W J → List (Task W J)
  unfolding node_or
  serve zero clock s e = []
  serve (suc rounds) clock s e =
      let (next, e') = get_next_task (clock rounds) s (some e) in
      let others = serve rounds clock s (node_or e e') in
      elim next [ none ↦ [] | some t ↦ t ∷ others ]

  serve-nil :
      (n : ℕ) (clock : ℕ → Readings) (s : TaskScheduler) (e : EdgeNode W J)
      → e.task_queue ≡ []
      → serve n clock s e ≡ []
  unfolding serve
  serve-nil zero clock s e h = refl
  serve-nil (suc n) clock s e h = rw ((get_next_task-none (clock n) s e h).0, serve)

  serve-cons :
      (n : ℕ) (clock : ℕ → Readings) (s : TaskScheduler) (e : EdgeNode W J) (t : Task W J)
      (rest : List (Task W J))
      → get_next_task (clock n) s (some e) ≡ (some t, some (record e { task_queue = rest }))
      → serve (suc n) clock s e ≡ t ∷ serve n clock s (record e { task_queue = rest })
  unfolding serve node_or
  serve-cons n clock s e t rest h = ground arith

  handed_out :
      (n : ℕ) (clock : ℕ → Readings) (s : TaskScheduler) (x : Task W J) (xs : List (Task W J))
      (e : EdgeNode W J)
      → e.task_queue ≡ x ∷ xs
      → (t : Task W J) × (rest : List (Task W J)) × (get_next_task (clock n) s (some e)
          ≡ (some t, some (record e { task_queue = rest })))
        × IsNext s.strategy (x ∷ xs) t rest
  handed_out n clock s x xs e h =
      let (t, rest, given, next) = get_next_task-IsNext (clock n) s e x xs h in
      (t, rest, given, subst (λ q. IsNext s.strategy q t rest) h next)

  -- With as many rounds as tasks, or more, each waiting task is handed out, and exactly once, whatever
  -- the strategy and the clock.
  pub serve-perm :
      (n : ℕ) (clock : ℕ → Readings) (s : TaskScheduler) (q : List (Task W J)) (e : EdgeNode W J)
      → e.task_queue ≡ q
      → length q ≤ n
      → Perm (serve n clock s e) q
  serve-perm n clock s [] e h le = rw (serve-nil n clock s e h) Perm.rfl
  serve-perm zero clock s (x ∷ xs) e h le = absurd (omega arith)
  serve-perm (suc n) clock s (x ∷ xs) e h le =
      let (t, rest, given, next) = handed_out n clock s x xs e h in
      rw (serve-cons n clock s e t rest given) (
        Perm.trans
          (Perm.cons t (
            serve-perm n clock s rest (record e { task_queue = rest }) refl
              (omega (arith, IsNext-length s.strategy (x ∷ xs) t rest next))))
          (IsNext-perm s.strategy (x ∷ xs) t rest next))

  serve-All :
      (P : Task W J → Type 0) (n : ℕ) (clock : ℕ → Readings) (s : TaskScheduler)
      (q : List (Task W J)) (e : EdgeNode W J)
      → e.task_queue ≡ q
      → All P q
      → All P (serve n clock s e)
  serve-All P n clock s [] e h a = rw (serve-nil n clock s e h) tt
  serve-All P zero clock s (x ∷ xs) e h a = unfold serve in tt
  serve-All P (suc n) clock s (x ∷ xs) e h a =
      let (t, rest, given, next) = handed_out n clock s x xs e h in
      let (p, ps) = IsNext-All P s.strategy (x ∷ xs) t rest next a in
      rw (serve-cons n clock s e t rest given)
        (p, serve-All P n clock s rest (record e { task_queue = rest }) refl ps)

  -- No task has a higher priority than one that stands before it.
  abbrev pub IsDescending : List (Task W J) → Type 0
  IsDescending [] = Unit
  IsDescending (t ∷ ts) = All (AtLeast t) ts × IsDescending ts

  Selects-AtLeast :
      {q rest : List (Task W J)} {t : Task W J}
      → Selects Higher AtLeast q t rest
      → All (AtLeast t) rest
  Selects-AtLeast {t = t} h = rw h.others (
      All-append (AtLeast t) h.before h.behind
        (All-map _ _ h.before (λ u e. omega arith) h.over_before) h.beside_behind)

  -- Under the priority strategy tasks are handed out in descending order of priority.
  pub serve-IsDescending :
      (n : ℕ) (clock : ℕ → Readings) (s : TaskScheduler) (q : List (Task W J)) (e : EdgeNode W J)
      → s.strategy ≡ priority_based
      → e.task_queue ≡ q
      → IsDescending (serve n clock s e)
  serve-IsDescending n clock s [] e ps h = rw (serve-nil n clock s e h) tt
  serve-IsDescending zero clock s (x ∷ xs) e ps h = unfold serve in tt
  serve-IsDescending (suc n) clock s (x ∷ xs) e ps h =
      let (t, rest, given, next) = handed_out n clock s x xs e h in
      let below : All (AtLeast t) rest =
        Selects-AtLeast (subst (λ s. IsNext s (x ∷ xs) t rest) ps next) in
      rw (serve-cons n clock s e t rest given) (
        serve-All (AtLeast t) n clock s rest (record e { task_queue = rest }) refl below,
        serve-IsDescending n clock s rest (record e { task_queue = rest }) ps refl,
      )
