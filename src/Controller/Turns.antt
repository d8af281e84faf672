-- ===== src/Controller/Turns.antt =====
-- The turns of the loop over the queue of a failed node in resource_controller.cpp, one at a time, and
-- the counters over them.
use multi_constraint_iot_edg.Common.{
  [], ◌∷◌, ℕ, suc, ◌+◌, ◌≡◌, refl, false, List, some, arith, u64, Text, text_eq, length,
}
use multi_constraint_iot_edg.Common.Dict.{lookup-adjust_self, lookup}
use multi_constraint_iot_edg.Double.{Double}
use multi_constraint_iot_edg.Outcome.{returns, ◌>>=◌}
use multi_constraint_iot_edg.Task.{Task}
use multi_constraint_iot_edg.Edge.{set_available, EdgeNode, dequeue_task}
use multi_constraint_iot_edg.Monitor.{
  ResourceMonitor, simulate_node_failure, get_edge_node, mark_failed,
}
use multi_constraint_iot_edg.Controller.{
  put_monitor, Controller, reallocate_tasks_from_failed_node, handle_node_failure,
  on_node_status_changed, reallocate_task, fail_node, reallocate_loop, take_failed,
}
use multi_constraint_iot_edg.Controller.Reallocation.{queue_at, queue_at-other}

module _ {W J : Type 0} ⦃d : Double W⦄ where
  -- What becomes of `n` tasks that are taken from the queue of the node `key`, which is down and ends as
  -- `e`: no other node's queue has changed, each task was counted as allocated or as failed, and each
  -- allocation as a reallocation.
  pub record IsDrained (key : Text) (e : EdgeNode W J) (n : ℕ) (c c' : Controller W J)
      : Type 0 where
    pub emptied : lookup key c'.monitor.edge_nodes ≡ some (record e { task_queue = [] })
    pub others :
        (k : Text)
        → text_eq key k ≡ false
        → queue_at k c'.monitor.edge_nodes ≡ queue_at k c.monitor.edge_nodes
    pub total :
        u64 (c'.total_tasks_allocated + c'.total_allocation_failures)
        ≡ u64 (c.total_tasks_allocated + c.total_allocation_failures + n)
    pub moved :
        u64 (c'.total_reallocations + c.total_tasks_allocated)
        ≡ u64 (c.total_reallocations + c'.total_tasks_allocated)

module _ {W J : Type 0} ⦃d : Double W⦄ where
  pub loop_ends :
      (fuel : ℕ) (key : Text) (c : Controller W J) (e : EdgeNode W J)
      → lookup key c.monitor.edge_nodes ≡ some (record e { task_queue = [] })
      → reallocate_loop (suc fuel) key c ≡ returns c
  unfolding reallocate_loop dequeue_task
  loop_ends fuel key c e at = rw (at, reallocate_loop) refl

  pub loop_turns :
      (fuel : ℕ) (key : Text) (c : Controller W J) (e : EdgeNode W J) (t : Task W J)
      (q : List (Task W J))
      → lookup key c.monitor.edge_nodes ≡ some (record e { task_queue = t ∷ q })
      → reallocate_loop (suc fuel) key c
        ≡ (reallocate_task t (take_failed key c) >>= reallocate_loop fuel key)
  unfolding reallocate_loop dequeue_task
  loop_turns fuel key c e t q at = rw (at, reallocate_loop) refl

  pub take_failed-at :
      (key : Text) (c : Controller W J) (e : EdgeNode W J) (t : Task W J) (q : List (Task W J))
      → lookup key c.monitor.edge_nodes ≡ some (record e { task_queue = t ∷ q })
      → lookup key (take_failed key c).monitor.edge_nodes ≡ some (record e { task_queue = q })
  unfolding take_failed dequeue_task
  take_failed-at key c e t q at =
      lookup-adjust_self key _ c.monitor.edge_nodes (record e { task_queue = t ∷ q }) at

  pub take_failed-other :
      (key k : Text) (c : Controller W J)
      → text_eq key k ≡ false
      → queue_at k (take_failed key c).monitor.edge_nodes ≡ queue_at k c.monitor.edge_nodes
  unfolding take_failed
  take_failed-other key k c h = queue_at-other key k _ c.monitor.edge_nodes h

  pub total_onward :
      (c c1 c2 : Controller W J) (n : ℕ)
      → u64 (c1.total_tasks_allocated + c1.total_allocation_failures)
        ≡ u64 (c.total_tasks_allocated + c.total_allocation_failures + 1)
      → u64 (c2.total_tasks_allocated + c2.total_allocation_failures)
        ≡ u64 (c1.total_tasks_allocated + c1.total_allocation_failures + n)
      → u64 (c2.total_tasks_allocated + c2.total_allocation_failures)
        ≡ u64 (c.total_tasks_allocated + c.total_allocation_failures + suc n)
  total_onward c c1 c2 n h k = omega (arith, h, k)

  pub moved_onward :
      (c c1 c2 : Controller W J)
      → u64 (c1.total_reallocations + c.total_tasks_allocated)
        ≡ u64 (c.total_reallocations + c1.total_tasks_allocated)
      → u64 (c2.total_reallocations + c1.total_tasks_allocated)
        ≡ u64 (c1.total_reallocations + c2.total_tasks_allocated)
      → u64 (c2.total_reallocations + c.total_tasks_allocated)
        ≡ u64 (c.total_reallocations + c2.total_tasks_allocated)
  moved_onward c c1 c2 h k = omega (arith, h, k)

  get_edge_node-free :
      (key : Text) (m : ResourceMonitor W J) (e : EdgeNode W J)
      → m.nodes_mutex_held ≡ false
      → lookup key m.edge_nodes ≡ some e
      → get_edge_node key m ≡ returns (some e)
  unfolding get_edge_node
  get_edge_node-free key m e free at = rw (free, at) refl

  pub fail_node-eq :
      (key : Text) (e : EdgeNode W J) (c : Controller W J)
      → c.monitor.nodes_mutex_held ≡ false
      → lookup key c.monitor.edge_nodes ≡ some e
      → fail_node key c
        ≡ reallocate_loop
            (suc (length e.task_queue))
            key
            (put_monitor (mark_failed key c.monitor) c)
  unfolding fail_node simulate_node_failure on_node_status_changed handle_node_failure
      reallocate_tasks_from_failed_node mark_failed
  fail_node-eq key e c free at =
      let at0 = lookup-adjust_self key (set_available false) c.monitor.edge_nodes e at in
      let c0 = put_monitor (mark_failed key c.monitor) c in
      rw (get_edge_node-free key c.monitor e free at)
        (rw (get_edge_node-free key c0.monitor _ free at0) refl)
