-- ===== src/Controller/Reallocation.antt =====
-- The reallocation of one task by resource_controller.cpp, and what it does to the nodes' queues.
use mathlib.Core.Option
use multi_constraint_iot_edg.Common.{
  ap, ◌+◌, ◌≡◌, refl, sym, ◌∙◌, true, false, List, Option, some, none, arith, u64, Text, text_eq,
  text_eq→eq, inl, inr, Bool-cases, some-injective, subst,
}
use multi_constraint_iot_edg.Common.Dict.{lookup, lookup-adjust, adjust}
use multi_constraint_iot_edg.Double.{Double}
use multi_constraint_iot_edg.Task.{Task}
use multi_constraint_iot_edg.Edge.{EdgeNode, allocate_resources}
use multi_constraint_iot_edg.Allocator.{
  AllocationStrategy, round_robin, least_load, priority_based, multi_constraint, unknown,
  AllocationResult, ResourceAllocator, Nodes, reserve, is_viable,
}
use multi_constraint_iot_edg.Allocator.Choice.{IsSound, moved_on}
use multi_constraint_iot_edg.Allocator.Requests.{settle, count_request}
use multi_constraint_iot_edg.Controller.{Controller, count_allocation, count_reallocation}

module _ {W J : Type 0} where
  -- The queue of the node under a key.
  unfoldable pub queue_at : Text → Nodes W J → Option (List (Task W J))
  queue_at key nodes = Option.map (λ e. e.task_queue) (lookup key nodes)

  pub queue_at-adjust :
      (j k : Text) (f : EdgeNode W J → EdgeNode W J) (nodes : Nodes W J)
      → ((e : EdgeNode W J) → (f e).task_queue ≡ e.task_queue)
      → queue_at k (adjust j f nodes) ≡ queue_at k nodes
  unfolding queue_at
  queue_at-adjust j k f nodes h = elim (Bool-cases (text_eq j k)) [
    | inl e ↦ rw (lookup-adjust, e) (kept (lookup k nodes))
    | inr e ↦ rw (lookup-adjust, e) refl
  ]
    where
      kept :
          (o : Option (EdgeNode W J))
          → Option.map (λ e. e.task_queue) (Option.map f o) ≡ Option.map (λ e. e.task_queue) o
      kept none = refl
      kept (some e) = ap some (h e)

module _ {W J : Type 0} where
  pub queue_at-other :
      (j k : Text) (f : EdgeNode W J → EdgeNode W J) (nodes : Nodes W J)
      → text_eq j k ≡ false
      → queue_at k (adjust j f nodes) ≡ queue_at k nodes
  unfolding queue_at
  queue_at-other j k f nodes other = rw (lookup-adjust, other) refl

moved_on-strategy :
    {W : Type 0} (s : AllocationStrategy) (a : ResourceAllocator W)
    → (moved_on s a).strategy ≡ a.strategy
moved_on-strategy round_robin a = refl
moved_on-strategy least_load a = refl
moved_on-strategy priority_based a = refl
moved_on-strategy multi_constraint a = refl
moved_on-strategy unknown a = refl

module _ {W J : Type 0} ⦃d : Double W⦄ where
  -- The reallocation of a task changes no queue and no node that is down, and the counters tell how it went.
  pub record IsReallocated (c c' : Controller W J) : Type 0 where
    pub strategy : c'.allocator.strategy ≡ c.allocator.strategy
    pub queues : (k : Text) → queue_at k c'.monitor.edge_nodes ≡ queue_at k c.monitor.edge_nodes
    pub down :
        (k : Text) (e : EdgeNode W J)
        → lookup k c.monitor.edge_nodes ≡ some e
        → e.is_available ≡ false
        → lookup k c'.monitor.edge_nodes ≡ some e
    pub total :
        u64 (c'.total_tasks_allocated + c'.total_allocation_failures)
        ≡ u64 (c.total_tasks_allocated + c.total_allocation_failures + 1)
    pub moved :
        u64 (c'.total_reallocations + c.total_tasks_allocated)
        ≡ u64 (c.total_reallocations + c'.total_tasks_allocated)

  reserve-down :
      (task : Task W J) (key k : Text) (edge e : EdgeNode W J) (nodes : Nodes W J)
      → lookup key nodes ≡ some edge
      → is_viable task edge ≡ true
      → lookup k nodes ≡ some e
      → e.is_available ≡ false
      → lookup k (reserve task key nodes) ≡ some e
  unfolding reserve is_viable
  reserve-down task key k edge e nodes found viable at down = elim (Bool-cases (text_eq key k)) [
    | inl same ↦
        let one : edge ≡ e =
          some-injective _ _
            (sym found ∙ subst (λ j. lookup j nodes ≡ some e) (sym (text_eq→eq key k same)) at) in
        absurd (clash (subst (λ n. is_viable task n ≡ true) one viable))
    | inr other ↦ rw (lookup-adjust, other) at
  ]
    where
      clash : is_viable task e ≡ true → ⊥
      clash h = ground arith

  reserve-queues :
      (task : Task W J) (key k : Text) (nodes : Nodes W J)
      → queue_at k (reserve task key nodes) ≡ queue_at k nodes
  unfolding reserve allocate_resources
  reserve-queues task key k nodes = queue_at-adjust key k _ nodes (λ e. refl)

  -- What the controller does with the outcome of a request.
  unfoldable pub finish :
      Task W J
      → Controller W J
      → AllocationResult W × ResourceAllocator W × Nodes W J
      → Controller W J
  unfolding settle count_allocation count_reallocation
  finish task c e =
      let (r, task', c') = count_allocation (settle task c.database e) c in
      count_reallocation r.success c'

  lost-IsReallocated :
      (task : Task W J) (c : Controller W J) (r : AllocationResult W) (a : ResourceAllocator W)
      → a ≡ count_request c.allocator
      → IsReallocated c (finish task c (record r { success = false }, a, c.monitor.edge_nodes))
  unfolding finish settle count_allocation count_reallocation
  lost-IsReallocated task c r a same = record {
    strategy = rw same refl;
    queues = λ k. refl;
    down = λ k e f h. f;
    total = ground arith;
    moved = refl;
  }

  won-IsReallocated :
      (task : Task W J) (c : Controller W J) (r : AllocationResult W) (a : ResourceAllocator W)
      (key : Text) (edge : EdgeNode W J)
      → a ≡ moved_on c.allocator.strategy (count_request c.allocator)
      → lookup key c.monitor.edge_nodes ≡ some edge
      → is_viable task edge ≡ true
      → IsReallocated c
          (finish task c (record r { success = true }, a, reserve task key c.monitor.edge_nodes))
  unfolding finish settle count_allocation count_reallocation
  won-IsReallocated task c r a key edge same found viable = record {
    strategy = rw same (moved_on-strategy _ _);
    queues = λ k. reserve-queues task key k c.monitor.edge_nodes;
    down = λ k e at h. reserve-down task key k edge e c.monitor.edge_nodes found viable at h;
    total = ground arith;
    moved = ground arith;
  }

  pub finish-IsReallocated :
      (task : Task W J) (c : Controller W J)
      (e : AllocationResult W × ResourceAllocator W × Nodes W J)
      → IsSound c.allocator.strategy task (count_request c.allocator) c.monitor.edge_nodes e
      → IsReallocated c (finish task c e)
  finish-IsReallocated task c (r, a, nodes) (inl (lost, _, same, at, _)) =
      subst (λ n. IsReallocated c (finish task c (r, a, n))) (sym at)
        (subst
          (λ b. IsReallocated c (finish task c (record r { success = b }, a, c.monitor.edge_nodes)))
          (sym lost) (lost-IsReallocated task c r a same))
  finish-IsReallocated task c (r, a, nodes) (inr done) =
      subst (λ n. IsReallocated c (finish task c (r, a, n))) (sym done.reserved)
        (subst
          (λ b. IsReallocated c (
            finish task c
              (record r { success = b }, a, reserve task done.key c.monitor.edge_nodes)))
          (sym done.succeeded)
          (won-IsReallocated task c r a done.key done.edge done.kept done.found done.viable))
