-- ===== src/Runtime/Draining.antt =====
-- The loops that wait for the queues to run empty at the end of a workload: that of `processingLoop` in
-- live_runtime.cpp, and that of `runExperiment` in main.cpp. What the other threads have done by each turn
-- is an argument, as is the clock, in ticks of a nanosecond.
use multi_constraint_iot_edg.Common.{
  ℕ, zero, suc, Bool, true, false, not, ◌||◌, ◌&&◌, [], ◌∷◌, Option, none, some, is_empty, ltb,
  if◌then◌else◌,
}
use multi_constraint_iot_edg.Common.Dict.{Dict}
use multi_constraint_iot_edg.Task.{Task}
use multi_constraint_iot_edg.Edge.{has_tasks_in_queue}
use multi_constraint_iot_edg.Allocator.{Nodes}
use multi_constraint_iot_edg.Runtime.{LiveRuntime, record_resource_snapshots}

-- What a turn of a loop finds.
pub record Found (W J : Type 0) : Type 0 where
  pub now : ℕ
  pub stop_requested : Bool
  pub nodes : Nodes W J
  pub active_tasks : Dict (Task W J)

abbrev pub drain_seconds : ℕ
drain_seconds = 30_000_000_000

module _ {W J : Type 0} where
  -- The search for a node with waiting tasks, which both loops make.
  unfoldable pub any_queued : Nodes W J → Bool
  any_queued [] = false
  any_queued ((key, e) ∷ nodes) =
      let rest = any_queued nodes in if has_tasks_in_queue e then true else rest

  abbrev pub at_nodes : Nodes W J → LiveRuntime W J → LiveRuntime W J
  at_nodes nodes r = record r { cluster = record r.cluster { nodes = nodes } }

  -- The loop of `processingLoop`, on fuel, from its turn `k`; the result is the turn that ends it. `none`
  -- is where the fuel does not last.
  unfoldable pub drain_loop :
      ℕ → ℕ → (ℕ → Found W J) → ℕ → LiveRuntime W J → Option (ℕ × LiveRuntime W J)
  drain_loop zero deadline found k r = none
  drain_loop (suc fuel) deadline found k r =
      let f = found k in
      let rest =
        drain_loop fuel deadline found (suc k) (record_resource_snapshots (at_nodes f.nodes r)) in
      if f.stop_requested || not (ltb f.now deadline)
      then some (k, r)
      else if not (any_queued f.nodes) && is_empty f.active_tasks
      then some (k, r)
      else rest

  -- The loop of `runExperiment`, with the flag that it keeps; the result is the turn and the flag.
  unfoldable pub wait_loop : ℕ → ℕ → (ℕ → Found W J) → ℕ → Bool → Option (ℕ × Bool)
  wait_loop zero deadline found k queued = none
  wait_loop (suc fuel) deadline found k queued =
      let f = found k in
      let rest = wait_loop fuel deadline found (suc k) (any_queued f.nodes) in
      if queued && ltb f.now deadline then rest else some (k, queued)
