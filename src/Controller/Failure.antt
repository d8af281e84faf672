-- ===== src/Controller/Failure.antt =====
-- The failure of an edge node: `simulateNodeFailure` of resource_monitor.cpp, its callback and the
-- reallocation of resource_controller.cpp.
use multi_constraint_iot_edg.Common.{
  Bool, ◌≢◌, [], ◌∷◌, ℕ, zero, suc, ◌<◌, ◌≡◌, refl, sym, ◌∙◌, true, false, List, some, arith, Text,
  inl, inr, subst, All, length,
}
use multi_constraint_iot_edg.Common.Dict.{lookup-adjust_self, lookup, adjust}
use multi_constraint_iot_edg.Double.{IsOrdered, Double}
use multi_constraint_iot_edg.Outcome.{
  returns, null_dereference, deadlock, division_by_zero, ◌>>=◌, Returns, Returns-bind,
  Returns-weaken,
}
use multi_constraint_iot_edg.Task.{Task, TaskStatus, set_status, set_assigned_edge_id}
use multi_constraint_iot_edg.Edge.{set_available, EdgeNode, dequeue_task}
use multi_constraint_iot_edg.Allocator.{
  AllocationStrategy, unknown, Attempt, attempt_by, get_viable_edges, AllocationResult,
  ResourceAllocator, Nodes, reserve,
}
use multi_constraint_iot_edg.Allocator.Choice.{IsSound, Starts, attempt_by-IsSound}
use multi_constraint_iot_edg.Allocator.Requests.Agreement.{allocate_task-eq}
use multi_constraint_iot_edg.Allocator.Requests.{settle, count_request}
use multi_constraint_iot_edg.Allocator.Served.{IsFine}
use multi_constraint_iot_edg.Monitor.{mark_failed}
use multi_constraint_iot_edg.Controller.{
  put_monitor, Controller, allocate_task_now, reallocate_task, fail_node, reallocate_loop,
  take_failed, count_allocation, count_reallocation,
}
use multi_constraint_iot_edg.Controller.Reallocation.{
  queue_at-other, IsReallocated, finish, finish-IsReallocated,
}
use multi_constraint_iot_edg.Controller.Turns.{
  IsDrained, loop_ends, loop_turns, take_failed-at, take_failed-other, total_onward, moved_onward,
  fail_node-eq,
}

-- `Keeps` holds of the nodes at all times, and lets each attempt of the strategy `s` return.
module _ {W J : Type 0} ⦃d : Double W⦄ (order : IsOrdered W) (s : AllocationStrategy)
    (known : s ≢ unknown) (Keeps : Nodes W J → Type 0)
    (fine : (task : Task W J) (a : ResourceAllocator W) (nodes : Nodes W J)
      → Keeps nodes
      → IsFine s task a nodes)
    (keep_reserve : (task : Task W J) (key : Text) (nodes : Nodes W J)
      → Keeps nodes
      → Keeps (reserve task key nodes))
    (keep_dequeue : (key : Text) (nodes : Nodes W J)
      → Keeps nodes
      → Keeps (adjust key (λ e. (dequeue_task e).1) nodes))
    (keep_available : (key : Text) (b : Bool) (nodes : Nodes W J)
      → Keeps nodes
      → Keeps (adjust key (set_available b) nodes)) where
  Stays : Controller W J → Type 0
  Stays c = (c.allocator.strategy ≡ s) × Keeps c.monitor.edge_nodes

  take_failed-Stays : (key : Text) (c : Controller W J) → Stays c → Stays (take_failed key c)
  unfolding Stays take_failed
  take_failed-Stays key c stays = (stays.0, keep_dequeue key _ stays.1)

  finish-nodes :
      (b : Bool) (task : Task W J) (c : Controller W J) (r : AllocationResult W)
      (a : ResourceAllocator W) (nodes : Nodes W J)
      → (finish task c (record r { success = b }, a, nodes)).monitor.edge_nodes ≡ nodes
  unfolding finish settle count_allocation count_reallocation
  finish-nodes true task c r a nodes = refl
  finish-nodes false task c r a nodes = refl

  finish-Stays :
      (task : Task W J) (c : Controller W J)
      (e : AllocationResult W × ResourceAllocator W × Nodes W J)
      → Stays c
      → IsSound c.allocator.strategy task (count_request c.allocator) c.monitor.edge_nodes e
      → IsReallocated c (finish task c e) × Stays (finish task c e)
  unfolding Stays
  finish-Stays task c (r, a, nodes) stays sound =
      let done = finish-IsReallocated task c (r, a, nodes) sound in
      (
        done,
        (
          done.strategy ∙ stays.0,
          subst Keeps (sym (finish-nodes r.success task c r a nodes)) (kept sound),
        ),
      )
    where
      kept :
          IsSound c.allocator.strategy task
            (count_request c.allocator)
            c.monitor.edge_nodes
            (r, a, nodes)
          → Keeps nodes
      kept (inl (_, _, _, at, _)) = subst Keeps (sym at) stays.1
      kept (inr one) = subst Keeps (sym one.reserved) (keep_reserve task one.key _ stays.1)

  reallocate_task-lem :
      (task : Task W J) (c : Controller W J)
      → Stays c
      → Returns (λ c'. IsReallocated c c' × Stays c') (reallocate_task task c)
  unfolding reallocate_task allocate_task_now finish Stays
  reallocate_task-lem task c stays = rw allocate_task-eq (
      go (attempt_by c.allocator.strategy asked (count_request c.allocator) c.monitor.edge_nodes) (
        attempt_by-IsSound order asked (count_request c.allocator) c.monitor.edge_nodes now.0
          c.allocator.strategy (subst (λ t. t ≢ unknown) (sym stays.0) known)
          (subst
            (λ t.
              All (Starts t asked (count_request c.allocator))
                (get_viable_edges asked c.monitor.edge_nodes))
            (sym stays.0) now.1)))
    where
      asked : Task W J
      asked = set_assigned_edge_id [] (set_status TaskStatus.reallocated task)

      now : IsFine s asked (count_request c.allocator) c.monitor.edge_nodes
      now = fine asked (count_request c.allocator) c.monitor.edge_nodes stays.1

      go :
          (m : Attempt W J)
          → Returns
              (IsSound c.allocator.strategy asked (count_request c.allocator) c.monitor.edge_nodes)
              m
          → Returns
              (λ c'. IsReallocated c c' × Stays c')
              (m
                >>= (λ end. returns (settle asked c.database end))
                >>= (λ e. returns (count_allocation e c))
                >>= (λ (r, task', s'). returns (count_reallocation r.success s')))
      go (returns e) p = finish-Stays asked c e stays p
      go null_dereference p = p
      go deadlock p = p
      go division_by_zero p = p

  reallocate_loop-IsDrained :
      (q : List (Task W J)) (fuel : ℕ) (key : Text) (e : EdgeNode W J) (c : Controller W J)
      → length q < fuel
      → Stays c
      → lookup key c.monitor.edge_nodes ≡ some (record e { task_queue = q })
      → e.is_available ≡ false
      → Returns (IsDrained key e (length q) c) (reallocate_loop fuel key c)
  unfolding take_failed
  reallocate_loop-IsDrained q zero key e c enough stays at down = elim enough [ ]
  reallocate_loop-IsDrained [] (suc fuel) key e c enough stays at down =
      subst (Returns (IsDrained key e 0 c)) (sym (loop_ends fuel key c e at))
        (record { emptied = at; others = λ k h. refl; total = ground arith; moved = refl })
  reallocate_loop-IsDrained (t ∷ q) (suc fuel) key e c enough stays at down =
      subst (Returns (IsDrained key e (suc (length q)) c)) (sym (loop_turns fuel key c e t q at)) (
        Returns-bind (λ c1. IsReallocated c0 c1 × Stays c1) _ (reallocate_loop fuel key)
          (reallocate_task t c0)
          (λ c1 (done, stays1).
            Returns-weaken (IsDrained key e (length q) c1) _ (reallocate_loop fuel key c1)
              (λ c2 drained. onward c1 c2 done drained)
              (reallocate_loop-IsDrained q fuel key e c1 (omega (arith, enough)) stays1
                (done.down key _ at0 down) down))
          (reallocate_task-lem t c0 (take_failed-Stays key c stays)))
    where
      c0 : Controller W J
      c0 = take_failed key c

      at0 : lookup key c0.monitor.edge_nodes ≡ some (record e { task_queue = q })
      at0 = take_failed-at key c e t q at

      onward :
          (c1 c2 : Controller W J)
          → IsReallocated c0 c1
          → IsDrained key e (length q) c1 c2
          → IsDrained key e (suc (length q)) c c2
      onward c1 c2 done drained = record {
        emptied = drained.emptied;
        others = λ k h. drained.others k h ∙ done.queues k ∙ take_failed-other key k c h;
        total = total_onward c c1 c2 (length q) done.total drained.total;
        moved = moved_onward c c1 c2 done.moved drained.moved;
      }

  -- The failure of a node, at which the monitor's mutex is free, returns: the node is then down with an
  -- empty queue and all its usage, the other queues are as before, and each task that it held has been
  -- counted as allocated or as failed. This holds for a strategy among the enumerators whose attempts
  -- return on the nodes that `Keeps` describes, if that is kept by each change to them.
  pub fail_node-IsDrained :
      (key : Text) (e : EdgeNode W J) (c : Controller W J)
      → c.monitor.nodes_mutex_held ≡ false
      → c.allocator.strategy ≡ s
      → Keeps c.monitor.edge_nodes
      → lookup key c.monitor.edge_nodes ≡ some e
      → Returns
          (IsDrained key (record e { is_available = false }) (length e.task_queue) c)
          (fail_node key c)
  unfolding Stays mark_failed
  fail_node-IsDrained key e c free same keeps at =
      let c0 = put_monitor (mark_failed key c.monitor) c in
      let down = record e { is_available = false } in
      let n = length e.task_queue in
      let at0 = lookup-adjust_self key (set_available false) c.monitor.edge_nodes e at in
      subst (Returns (IsDrained key down n c)) (sym (fail_node-eq key e c free at)) (
        Returns-weaken (IsDrained key down n c0) _ (reallocate_loop (suc n) key c0)
          (λ c' drained. record {
            emptied = drained.emptied;
            others = λ k h. drained.others k h ∙ queue_at-other key k _ c.monitor.edge_nodes h;
            total = drained.total;
            moved = drained.moved;
          })
          (reallocate_loop-IsDrained e.task_queue (suc n) key down c0 (omega arith)
            (same, keep_available key false _ keeps) at0 refl))
