-- ===== src/Monitor.antt =====
-- resource_monitor.h and resource_monitor.cpp: the map of the edge nodes, which the other components
-- share, the failures and recoveries, and the callback that reports them. `nodes_mutex_` is a
-- `std::mutex`, so a thread that locks it again blocks for good. The messages to the logger are left out.
use multi_constraint_iot_edg.Common.{
  ℕ, ◌+◌, Bool, true, false, List, [], ◌∷◌, Option, none, some, u64, if◌then◌else◌, Text, not,
  length, ◌≡◌,
}
use multi_constraint_iot_edg.Common.Dict.{
  Above, IsAscending, keys, Dict, lookup, insert, erase, adjust, select,
}
use multi_constraint_iot_edg.Double.{Double}
use multi_constraint_iot_edg.Outcome.{Outcome, Returns, returns, deadlock, ◌>>=◌, dereference}
use multi_constraint_iot_edg.Edge.{EdgeNode, set_available, simulate_resource_fluctuation}

pub record ResourceMonitor (W J : Type 0) : Type 0 where
  pub edge_nodes : Dict (EdgeNode W J)
  pub nodes_mutex_held : Bool
  pub total_node_failures : ℕ
  pub total_node_recoveries : ℕ

-- A block under a `std::lock_guard`, which gives the mutex back at its end.
abbrev pub guard {ℓ} : {A : Type ℓ} → Bool → A → Outcome A
guard held block = if held then deadlock else returns block

module _ {W J : Type 0} where
  unfoldable pub new_resource_monitor : ResourceMonitor W J
  new_resource_monitor = record {
    edge_nodes = [];
    nodes_mutex_held = false;
    total_node_failures = 0;
    total_node_recoveries = 0;
  }

  abbrev pub put_nodes : Dict (EdgeNode W J) → ResourceMonitor W J → ResourceMonitor W J
  put_nodes nodes m = record m { edge_nodes = nodes }

  abbrev pub hold : Bool → ResourceMonitor W J → ResourceMonitor W J
  hold held m = record m { nodes_mutex_held = held }

  -- `none` is the null pointer, which is dereferenced for its key.
  unfoldable pub register_edge_node :
      Option (EdgeNode W J) → ResourceMonitor W J → Outcome (ResourceMonitor W J)
  register_edge_node node m =
      if m.nodes_mutex_held
      then deadlock
      else (dereference node >>= λ e. returns (put_nodes (insert e.edge_id e m.edge_nodes) m))

  unfoldable pub unregister_edge_node : Text → ResourceMonitor W J → Outcome (ResourceMonitor W J)
  unregister_edge_node edge_id m =
      guard m.nodes_mutex_held (put_nodes (erase edge_id m.edge_nodes) m)

  unfoldable pub get_edge_node : Text → ResourceMonitor W J → Outcome (Option (EdgeNode W J))
  get_edge_node edge_id m = guard m.nodes_mutex_held (lookup edge_id m.edge_nodes)

  unfoldable pub is_node_healthy : Option (EdgeNode W J) → Bool
  is_node_healthy none = false
  is_node_healthy (some e) = e.is_available

  unfoldable pub get_available_node_count : ResourceMonitor W J → Outcome ℕ
  get_available_node_count m =
      guard m.nodes_mutex_held (length (select (λ e. e.is_available) m.edge_nodes))

  unfoldable pub get_available_node_ids : ResourceMonitor W J → Outcome (List Text)
  get_available_node_ids m =
      guard m.nodes_mutex_held (keys (select (λ e. e.is_available) m.edge_nodes))

  unfoldable pub get_failed_node_ids : ResourceMonitor W J → Outcome (List Text)
  get_failed_node_ids m =
      guard m.nodes_mutex_held (keys (select (λ e. not e.is_available) m.edge_nodes))

  -- The node under the key fails or recovers, and is counted; `none` where there is no such node.
  unfoldable pub mark_failed : Text → ResourceMonitor W J → ResourceMonitor W J
  mark_failed edge_id m = record m {
    edge_nodes = adjust edge_id (set_available false) m.edge_nodes;
    total_node_failures = u64 (m.total_node_failures + 1);
  }

  unfoldable pub mark_recovered : Text → ResourceMonitor W J → ResourceMonitor W J
  mark_recovered edge_id m = record m {
    edge_nodes = adjust edge_id (set_available true) m.edge_nodes;
    total_node_recoveries = u64 (m.total_node_recoveries + 1);
  }

module _ {W J : Type 0} ⦃d : Double W⦄ where
  fluctuate : (Text → W × W) → Dict (EdgeNode W J) → Dict (EdgeNode W J)
  fluctuate draws [] = []
  fluctuate draws ((key, e) ∷ nodes) =
      (
        key,
        if e.is_available then simulate_resource_fluctuation (draws key).0 (draws key).1 e else e,
      )
      ∷ fluctuate draws nodes

  -- Each node draws two numbers from the generator.
  unfoldable pub update_resource_metrics :
      (Text → W × W) → ResourceMonitor W J → Outcome (ResourceMonitor W J)
  unfolding fluctuate
  update_resource_metrics draws m =
      guard m.nodes_mutex_held (put_nodes (fluctuate draws m.edge_nodes) m)

  fluctuate-Above :
      (draws : Text → W × W) (k : Text) (nodes : Dict (EdgeNode W J))
      → Above k nodes
      → Above k (fluctuate draws nodes)
  unfolding fluctuate
  fluctuate-Above draws k [] a = tt
  fluctuate-Above draws k ((key, e) ∷ nodes) a = (a.0, fluctuate-Above draws k nodes a.1)

  fluctuate-IsAscending :
      (draws : Text → W × W) (nodes : Dict (EdgeNode W J))
      → IsAscending nodes
      → IsAscending (fluctuate draws nodes)
  unfolding fluctuate
  fluctuate-IsAscending draws [] a = tt
  fluctuate-IsAscending draws ((key, e) ∷ nodes) a =
      (fluctuate-Above draws key nodes a.0, fluctuate-IsAscending draws nodes a.1)

  -- The background load leaves the keys of the map as they are.
  pub update_resource_metrics-IsAscending :
      (draws : Text → W × W) (m : ResourceMonitor W J)
      → m.nodes_mutex_held ≡ false
      → IsAscending m.edge_nodes
      → Returns (λ after. IsAscending after.edge_nodes) (update_resource_metrics draws m)
  unfolding update_resource_metrics
  update_resource_metrics-IsAscending draws m free a =
      rw free (fluctuate-IsAscending draws m.edge_nodes a)

-- The operations that call the callback, over the state `S` on which it works; `none` where no callback
-- is registered.
module _ {W J S : Type 0} (monitor : S → ResourceMonitor W J) (put : ResourceMonitor W J → S → S)
    (status_callback : Option (Text → Bool → S → Outcome S)) where
  notify : Text → Bool → S → Outcome S
  notify edge_id healthy s = elim status_callback [
    | none ↦ returns s
    | some callback ↦ callback edge_id healthy s
  ]

  -- The loop over the map, which holds the mutex: the keys stay as they are.
  unfoldable pub check_nodes : List Text → S → Outcome S
  unfolding notify is_node_healthy
  check_nodes [] s = returns s
  check_nodes (key ∷ keys) s =
      notify key (is_node_healthy (lookup key (monitor s).edge_nodes)) s >>= check_nodes keys

  unfoldable pub check_edge_node_health : S → Outcome S
  check_edge_node_health s =
      if (monitor s).nodes_mutex_held
      then deadlock
      else (check_nodes (keys (monitor s).edge_nodes) (put (hold true (monitor s)) s) >>= λ s'.
          returns (put (hold false (monitor s')) s'))

  unfoldable pub simulate_node_failure : Text → S → Outcome S
  unfolding notify
  simulate_node_failure edge_id s = get_edge_node edge_id (monitor s) >>= λ found. elim found [
    | none ↦ returns s
    | some e ↦ notify edge_id false (put (mark_failed edge_id (monitor s)) s)
  ]

  unfoldable pub recover_node_from_failure : Text → S → Outcome S
  unfolding notify
  recover_node_from_failure edge_id s = get_edge_node edge_id (monitor s) >>= λ found. elim found [
    | none ↦ returns s
    | some e ↦ notify edge_id true (put (mark_recovered edge_id (monitor s)) s)
  ]
