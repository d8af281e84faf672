-- ===== src/Edge/Accounting.antt =====
-- The resource accounting of an edge node: `allocateResources`, `deallocateResources` and
-- `simulateResourceFluctuation` of edge_node.cpp, and its queue.
use multi_constraint_iot_edg.Common.{
  ℕ, zero, suc, Option, some, none, length, refl, ◌∷◌, [], ◌+◌, ◌≡◌, true, List, ◌++◌, arith, u64,
  Bool-cases, inl, inr, append-nil, append_assoc, sym, ◌∙◌,
}
use multi_constraint_iot_edg.Double.{
  Double, IsOrdered, IsExact, ◌≼◌, IsNum, nought, hundred, max_of, clamp_bounds, max_of_bounds,
}
use multi_constraint_iot_edg.Task.{Task}
use multi_constraint_iot_edg.Edge.{
  dequeue_task, EdgeNode, can_allocate, allocate_resources, deallocate_resources,
  simulate_resource_fluctuation, get_queued_tasks, copy_queue, enqueue_task,
}

module _ {W : Type 0} ⦃d : Double W⦄ (exact : IsExact W) where
  open d use {add, sub, lt}
  open exact use {Grid}

  -- One resource: the usage lies between 0 and the capacity, both on the grid of exact sums.
  pub record InBounds (capacity usage : W) : Type 0 where
    pub grid_capacity : Grid capacity
    pub grid_usage : Grid usage
    pub lower : nought ≼ usage
    pub upper : usage ≼ capacity

  -- An amount that a task may ask for.
  pub record IsAmount (x : W) : Type 0 where
    pub grid : Grid x
    pub nonneg : nought ≼ x

  pub record IsValid {J : Type 0} (e : EdgeNode W J) : Type 0 where
    pub cpu : InBounds e.capacity.cpu_percent e.current_usage.cpu_percent
    pub ram : InBounds e.capacity.ram_mb e.current_usage.ram_mb
    pub bandwidth : InBounds e.capacity.bandwidth_mbps e.current_usage.bandwidth_mbps

  pub record IsRequest (cpu ram bandwidth : W) : Type 0 where
    pub cpu_amount : IsAmount cpu
    pub ram_amount : IsAmount ram
    pub bandwidth_amount : IsAmount bandwidth

  -- `std::max` gives one of its arguments.
  max_of-ind : (P : W → Type 0) (x y : W) → P x → P y → P (max_of x y)
  max_of-ind P x y p q = elim (Bool-cases (lt x y)) [ inl e ↦ rw e q | inr e ↦ rw e p ]

  module _ (order : IsOrdered W) where
    add-InBounds : (c u x : W) → InBounds c u → IsAmount x → x ≼ sub c u → InBounds c (add u x)
    add-InBounds c u x b a h =
        let up : add u x ≼ c = exact.add_le_of_le_sub c u x b.grid_capacity b.grid_usage a.grid h in
        record {
          grid_capacity = b.grid_capacity;
          grid_usage = exact.grid_add c u x b.grid_capacity b.grid_usage a.grid b.lower a.nonneg up;
          lower =
              order.le_trans _ _ _ b.lower
                (exact.le_add u x b.grid_usage a.grid a.nonneg (order.refl_of_le _ _ up).0);
          upper = up;
        }

    sub-InBounds : (c u x : W) → InBounds c u → IsAmount x → InBounds c (max_of nought (sub u x))
    sub-InBounds c u x b a =
        let g : Grid (sub u x) = exact.grid_sub u x b.grid_usage a.grid b.lower a.nonneg in
        let num : IsNum (sub u x) = exact.grid_num _ g in
        let less : sub u x ≼ u = exact.sub_le u x b.grid_usage a.grid a.nonneg num in
        let fits : sub u x ≼ c = order.le_trans _ _ _ less b.upper in
        let zero_fits : nought ≼ c = order.le_trans _ _ _ b.lower b.upper in
        record {
          grid_capacity = b.grid_capacity;
          grid_usage = max_of-ind Grid nought (sub u x) exact.grid_nought g;
          lower = (max_of_bounds order _ _ (exact.grid_num _ exact.grid_nought) num).0;
          upper = max_of-ind (λ v. v ≼ c) nought (sub u x) zero_fits fits;
        }

    -- A node within its capacity that passes `can_allocate` is within it after the allocation, if the
    -- amounts are not negative and on the grid of exact sums.
    pub allocate_resources-IsValid :
        {J : Type 0} (cpu ram bandwidth : W) (e : EdgeNode W J)
        → IsRequest cpu ram bandwidth
        → IsValid e
        → can_allocate cpu ram bandwidth e ≡ true
        → IsValid (allocate_resources cpu ram bandwidth e)
    unfolding can_allocate allocate_resources
    allocate_resources-IsValid cpu ram bandwidth e r v h = record {
      cpu = add-InBounds _ _ _ v.cpu r.cpu_amount (ground arith);
      ram = add-InBounds _ _ _ v.ram r.ram_amount (ground arith);
      bandwidth = add-InBounds _ _ _ v.bandwidth r.bandwidth_amount (ground arith);
    }

    -- Giving resources back keeps a node between 0 and its capacity, however much is given back, if the
    -- amounts are not negative and on the grid of exact sums.
    pub deallocate_resources-IsValid :
        {J : Type 0} (cpu ram bandwidth : W) (e : EdgeNode W J)
        → IsRequest cpu ram bandwidth
        → IsValid e
        → IsValid (deallocate_resources cpu ram bandwidth e)
    unfolding deallocate_resources
    deallocate_resources-IsValid cpu ram bandwidth e r v = record {
      cpu = sub-InBounds _ _ _ v.cpu r.cpu_amount;
      ram = sub-InBounds _ _ _ v.ram r.ram_amount;
      bandwidth = sub-InBounds _ _ _ v.bandwidth r.bandwidth_amount;
    }

    max_of-nought : {c : W} (u : W) → InBounds c u → max_of nought u ≡ u
    max_of-nought u b =
        let z = exact.grid_num nought exact.grid_nought in
        let n = exact.grid_num u b.grid_usage in
        ground (
          arith,
          order.lt-eq-not-le nought u z n,
          exact.grid_antisymm nought u exact.grid_nought b.grid_usage b.lower,
        )

    max_of-add-sub :
        (c u x : W) → InBounds c u → IsAmount x → x ≼ sub c u → max_of nought (sub (add u x) x) ≡ u
    max_of-add-sub c u x b a h =
        let up : add u x ≼ c = exact.add_le_of_le_sub c u x b.grid_capacity b.grid_usage a.grid h in
        rw (exact.add-sub c u x b.grid_capacity b.grid_usage a.grid up b.lower a.nonneg)
          (max_of-nought u b)

    -- What a task took is given back exactly: after `allocate_resources` and `deallocate_resources` with
    -- the same amounts only the count of processed tasks has changed, if the node was within its capacity
    -- and could take them, and they are not negative and on the grid of exact sums.
    pub deallocate_resources-allocate_resources :
        {J : Type 0} (cpu ram bandwidth : W) (e : EdgeNode W J)
        → IsRequest cpu ram bandwidth
        → IsValid e
        → can_allocate cpu ram bandwidth e ≡ true
        → deallocate_resources cpu ram bandwidth (allocate_resources cpu ram bandwidth e)
          ≡ record e { total_tasks_processed = u64 (e.total_tasks_processed + 1) }
    unfolding can_allocate allocate_resources deallocate_resources
    deallocate_resources-allocate_resources cpu ram bandwidth e r v h = ground (
      arith,
      max_of-add-sub _ _ cpu v.cpu r.cpu_amount (ground arith),
      max_of-add-sub _ _ ram v.ram r.ram_amount (ground arith),
      max_of-add-sub _ _ bandwidth v.bandwidth r.bandwidth_amount (ground arith),
    )

module _ {W J : Type 0} ⦃d : Double W⦄ (order : IsOrdered W) where
  open d use {add, mul, div}

  -- Background load moves the usage of CPU and RAM to a value between 0 and the capacity, whatever
  -- was drawn, and leaves the bandwidth alone, if the capacities are not negative and no sum is NaN.
  pub simulate_resource_fluctuation_bounds :
      (draw_cpu draw_ram : W) (e : EdgeNode W J)
      → nought ≼ e.capacity.cpu_percent
      → nought ≼ e.capacity.ram_mb
      → IsNum (add e.current_usage.cpu_percent draw_cpu)
      → IsNum (add e.current_usage.ram_mb (mul draw_ram (div e.capacity.ram_mb hundred)))
      → let u = (simulate_resource_fluctuation draw_cpu draw_ram e).current_usage in
        (nought ≼ u.cpu_percent)
        × (u.cpu_percent ≼ e.capacity.cpu_percent)
        × (nought ≼ u.ram_mb)
        × (u.ram_mb ≼ e.capacity.ram_mb)
        × (u.bandwidth_mbps ≡ e.current_usage.bandwidth_mbps)
  unfolding simulate_resource_fluctuation
  simulate_resource_fluctuation_bounds draw_cpu draw_ram e hc hr nc nr =
      let c = clamp_bounds order _ _ _ nc hc in
      let r = clamp_bounds order _ _ _ nr hr in (c.0, c.1, r.0, r.1, refl)

module _ {W J : Type 0} where
  copy_queue-append : (result ts : List (Task W J)) → copy_queue result ts ≡ result ++ ts
  unfolding copy_queue
  copy_queue-append result [] = sym (append-nil result)
  copy_queue-append result (t ∷ ts) =
      copy_queue-append (result ++ t ∷ []) ts ∙ append_assoc result (t ∷ []) ts

  pub enqueue_all : List (Task W J) → EdgeNode W J → EdgeNode W J
  enqueue_all [] e = e
  enqueue_all (t ∷ ts) e = enqueue_all ts (enqueue_task t e)

  enqueue_all-eq :
      (ts : List (Task W J)) (e : EdgeNode W J)
      → enqueue_all ts e ≡ record e { task_queue = e.task_queue ++ ts }
  unfolding enqueue_all enqueue_task
  enqueue_all-eq [] e = rw append-nil
  enqueue_all-eq (t ∷ ts) e = rw (enqueue_all-eq ts, append_assoc)

  -- So many calls of `dequeue_task`, one after the other: what they give, and the node that they leave.
  pub dequeue_times : ℕ → EdgeNode W J → List (Option (Task W J)) × EdgeNode W J
  dequeue_times zero e = ([], e)
  dequeue_times (suc n) e =
      let (taken, e') = dequeue_task e in
      let (others, left) = dequeue_times n e' in (taken ∷ others, left)

  abbrev pub all_some : List (Task W J) → List (Option (Task W J))
  all_some [] = []
  all_some (t ∷ ts) = some t ∷ all_some ts

  dequeue_times-eq :
      (q : List (Task W J)) (e : EdgeNode W J)
      → e.task_queue ≡ q
      → dequeue_times (length q) e ≡ (all_some q, record e { task_queue = [] })
  unfolding dequeue_times dequeue_task
  dequeue_times-eq [] e h = ground (arith, h)
  dequeue_times-eq (t ∷ q) e h =
      rw h (rw (dequeue_times-eq q (record e { task_queue = q }) refl) refl)

  -- The queue is first in, first out: after tasks have been enqueued one after the other, as many calls of
  -- `dequeueTask` as tasks wait give those that waited before and then the new ones, in the order of their
  -- arrival, and leave the queue empty and the rest of the node as it was; the next call gives none.
  pub enqueue_all_lem :
      (ts : List (Task W J)) (e : EdgeNode W J)
      → let waiting = e.task_queue ++ ts in
        (get_queued_tasks (enqueue_all ts e) ≡ waiting)
        × (dequeue_times (length waiting) (enqueue_all ts e)
            ≡ (all_some waiting, record e { task_queue = [] }))
        × (dequeue_task (dequeue_times (length waiting) (enqueue_all ts e)).1
            ≡ (none, record e { task_queue = [] }))
  unfolding get_queued_tasks dequeue_task
  enqueue_all_lem ts e =
      let emptied : dequeue_times (length (e.task_queue ++ ts)) (enqueue_all ts e)
          ≡ (all_some (e.task_queue ++ ts), record e { task_queue = [] }) =
        rw (enqueue_all-eq ts e) (
          dequeue_times-eq (e.task_queue ++ ts) (record e { task_queue = e.task_queue ++ ts })
            refl) in
      (
        rw (enqueue_all-eq ts e) (copy_queue-append [] (e.task_queue ++ ts)),
        emptied,
        rw emptied refl,
      )
