-- ===== src/Scheduler/Ranking.antt =====
-- The comparisons of task_scheduler.cpp as orders of tasks: by priority, and by the time that is left.
use multi_constraint_iot_edg.Common.{
  ◌∙◌, All, ℕ, ◌<◌, ◌≡◌, refl, sym, List, [], ◌∷◌, arith, Bool, true, false, ◌≤◌, ℤ, sub_ℕ, ltb_ℤ,
  ◌-ℤ◌, tdiv,
}
use multi_constraint_iot_edg.Task.{
  Task, priority_rank, get_remaining_time_ms, get_elapsed_time_ms, elapsed_ms,
}
use multi_constraint_iot_edg.Scheduler.Selection.{IsRanked}
use multi_constraint_iot_edg.Scheduler.{Readings, less_urgent, less_time}

lt_trans : (x y z : ℤ) → ltb_ℤ x y ≡ true → ltb_ℤ y z ≡ true → ltb_ℤ x z ≡ true
lt_trans x y z e h = ground arith

lt_ge_trans : (x y z : ℤ) → ltb_ℤ x y ≡ true → ltb_ℤ z y ≡ false → ltb_ℤ x z ≡ true
lt_ge_trans x y z e h = ground arith

module _ {W J : Type 0} where
  -- The first task has the higher priority, or at least the same.
  abbrev pub Higher : Task W J → Task W J → Type 0
  Higher t u = priority_rank u.requirements.priority < priority_rank t.requirements.priority

  abbrev pub AtLeast : Task W J → Task W J → Type 0
  AtLeast t u = priority_rank u.requirements.priority ≤ priority_rank t.requirements.priority

  -- The whole milliseconds from a clock reading to the end of a task's deadline, negative behind it.
  abbrev pub time_left : ℕ → Task W J → ℤ
  time_left now t = t.requirements.deadline_ms -ℤ tdiv (sub_ℕ now t.creation_time) 1_000_000

  -- The first task has less time left, or at most as much.
  abbrev pub Sooner : ℕ → Task W J → Task W J → Type 0
  Sooner now t u = ltb_ℤ (time_left now t) (time_left now u) ≡ true

  abbrev pub NotLater : ℕ → Task W J → Task W J → Type 0
  NotLater now t u = ltb_ℤ (time_left now u) (time_left now t) ≡ false

  abbrev pub Any : Task W J → Task W J → Type 0
  Any t u = Unit

  -- A reading of the clock gives a task the same whole milliseconds as the reading `n`, in the whole call.
  abbrev pub IsSteady : Readings → ℕ → Task W J → Type 0
  IsSteady now n t =
      (i : ℕ) → (time_left (now i).0 t ≡ time_left n t) × (time_left (now i).1 t ≡ time_left n t)

  pub less_urgent-IsRanked :
      (Fit : Task W J → Type 0) → IsRanked Fit (λ i. less_urgent {W = W} {J = J}) Higher AtLeast
  unfolding less_urgent
  less_urgent-IsRanked Fit = record {
    wins = λ i a b f g. ground arith;
    holds = λ i a b f g. ground arith;
    over = λ i a b c f g. ground arith;
    beside = λ i a b c f g. ground arith;
  }

  abbrev pub sooner : Readings → ℕ → Task W J → Task W J → Bool
  sooner now i a b = less_time (now i) b a

  pub sooner-Any : (now : Readings) → IsRanked (λ t. Unit) (sooner now) Any Any
  sooner-Any now = record {
    wins = λ i a b f g e. tt;
    holds = λ i a b f g e. tt;
    over = λ i a b c f g e h. tt;
    beside = λ i a b c f g e h. tt;
  }

  pub All-Unit : (q : List (Task W J)) → All {0, 0} (λ t. Unit) q
  All-Unit [] = tt
  All-Unit (t ∷ q) = (tt, All-Unit q)

  -- Between tasks whose time left is steady the comparison is that of the reading `n`.
  sooner-eq :
      (now : Readings) (n i : ℕ) (a b : Task W J)
      → IsSteady now n a
      → IsSteady now n b
      → sooner now i a b ≡ ltb_ℤ (time_left n b) (time_left n a)
  unfolding less_time get_remaining_time_ms get_elapsed_time_ms elapsed_ms
  sooner-eq now n i a b fa fb = rw ((fb i).0, (fa i).1) refl

  pub sooner-IsRanked :
      (now : Readings) (n : ℕ) → IsRanked (IsSteady now n) (sooner now) (Sooner n) (NotLater n)
  sooner-IsRanked now n = record {
    wins = λ i a b fa fb e. sym (sooner-eq now n i a b fa fb) ∙ e;
    holds = λ i a b fa fb e. sym (sooner-eq now n i a b fa fb) ∙ e;
    over = λ i a b c fa fb e h.
        lt_trans (time_left n b) (time_left n a) (time_left n c)
          (sym (sooner-eq now n i a b fa fb) ∙ e) h;
    beside = λ i a b c fa fb e h.
        lt_ge_trans (time_left n b) (time_left n a) (time_left n c)
          (sym (sooner-eq now n i a b fa fb) ∙ e) h;
  }
