-- ===== src/Controller/Health.antt =====
-- The periodic health check of resource_monitor.cpp with the callback of resource_controller.cpp.
use multi_constraint_iot_edg.Common.{
  subst, ◌≡◌, refl, Bool, true, false, [], ◌∷◌, some, if◌then◌else◌, ◌&&◌, inl, inr, Bool-cases,
  All,
}
use multi_constraint_iot_edg.Common.Dict.{keys, Dict, IsAscending, IsEntry, All-select, select}
use multi_constraint_iot_edg.Double.{Double}
use multi_constraint_iot_edg.Outcome.{returns, deadlock}
use multi_constraint_iot_edg.Edge.{EdgeNode}
use multi_constraint_iot_edg.Monitor.{
  check_edge_node_health, check_nodes, get_edge_node, is_node_healthy, hold,
}
use multi_constraint_iot_edg.Controller.{
  Controller, put_monitor, monitor_of, on_node_status_changed, check_health, handle_node_failure,
  reallocate_tasks_from_failed_node,
}

module _ {W J : Type 0} where
  -- All nodes of the map are up.
  unfoldable pub all_available : Dict (EdgeNode W J) → Bool
  all_available [] = true
  all_available ((key, e) ∷ nodes) = e.is_available && all_available nodes

  select-all : (m : Dict (EdgeNode W J)) → select (λ e. true) m ≡ m
  unfolding select
  select-all [] = refl
  select-all ((key, e) ∷ m) = rw (select-all m) refl

module _ {W J : Type 0} ⦃d : Double W⦄ where
  check_nodes-eq :
      (s : Controller W J) (es : Dict (EdgeNode W J))
      → s.monitor.nodes_mutex_held ≡ true
      → All (IsEntry (λ e. true) s.monitor.edge_nodes) es
      → check_nodes monitor_of put_monitor (some on_node_status_changed) (keys es) s
        ≡ (if all_available es then returns s else deadlock)
  unfolding check_nodes is_node_healthy on_node_status_changed handle_node_failure
      reallocate_tasks_from_failed_node get_edge_node all_available keys
  check_nodes-eq s [] held h = refl
  check_nodes-eq s ((key, e) ∷ es) held h = elim (Bool-cases e.is_available) [
    | inl up ↦ rw (h.0.0, up) (check_nodes-eq s es held h.1)
    | inr down ↦ rw (h.0.0, down, held) refl
  ]

  -- A check of the nodes' health, at which the mutex is free and the nodes are a map, leaves everything as
  -- it is if all nodes are up. If one of them is down, the check never ends: the callback asks the monitor
  -- for the node while the check holds the mutex.
  pub check_health-eq :
      (s : Controller W J)
      → s.monitor.nodes_mutex_held ≡ false
      → IsAscending s.monitor.edge_nodes
      → check_health s ≡ (if all_available s.monitor.edge_nodes then returns s else deadlock)
  unfolding check_health check_edge_node_health
  check_health-eq s free ascending =
      let nodes = s.monitor.edge_nodes in
      let held = put_monitor (hold true s.monitor) s in
      let entries : All (IsEntry (λ e. true) nodes) nodes =
        subst (All (IsEntry (λ e. true) nodes)) (select-all nodes)
          (All-select (λ e. true) nodes ascending) in
      let run = check_nodes-eq held nodes refl entries in
      elim (Bool-cases (all_available nodes)) [
        | inl up ↦ rw (free, run, up) refl
        | inr down ↦ rw (free, run, down) refl
      ]
