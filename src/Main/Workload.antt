-- ===== src/Main/Workload.antt =====
-- The loop of `runExperiment` of main.cpp as a whole: what a workload does to the statistics.
use multi_constraint_iot_edg.Common.{
  ℕ, zero, suc, ◌+◌, ◌%◌, ◌≡◌, refl, sym, subst, ◌≢◌, length, inl, inr, u64, arith, Text,
  Bool-cases, ◌==◌, get_elem?-lt,
}
use multi_constraint_iot_edg.Double.{Double, IsOrdered}
use multi_constraint_iot_edg.Json.{Json, RealJson}
use multi_constraint_iot_edg.Outcome.{Returns, Returns-bind, Returns-map}
use multi_constraint_iot_edg.Task.{Task}
use multi_constraint_iot_edg.Monitor.{new_resource_monitor, put_nodes, update_resource_metrics}
use multi_constraint_iot_edg.Profile.{Profiles}
use multi_constraint_iot_edg.Fleet.{Device, repeat_from}
use multi_constraint_iot_edg.Allocator.{
  new_resource_allocator, AllocationStrategy, AllocationResult, Nodes, unknown,
}
use multi_constraint_iot_edg.Allocator.Score.{AllocationWeights}
use multi_constraint_iot_edg.Allocator.Requests.{Cluster, allocate_task_with_retry}
use multi_constraint_iot_edg.Allocator.Capacity.{IsBalanced}
use multi_constraint_iot_edg.Main.{
  Experiment, Surroundings, enqueue_result, fluctuate_at, run_device, run_turn, run_workload,
}
use multi_constraint_iot_edg.Main.Turns.{
  Keeps, IsUnderway, IsKept, request-IsKept, not_empty, length-set_device,
}

module _ {W J : Type 0} ⦃d : Double W⦄ (order : IsOrdered W) (s : AllocationStrategy)
    (w : AllocationWeights W) (around : ℕ → Surroundings W J) (Good : Nodes W J → Type 0)
    (keeps : Keeps s w around Good) (known : s ≢ unknown) where
  module _ (count : ℕ) where
    Underway : ℕ → Experiment W J → Type 0
    Underway = IsUnderway s w Good (suc count)

    enqueue_result-keeps :
        (strategy : Text) (r : AllocationResult W) (task : Task W J) (c : Cluster W J)
        (x : Experiment W J)
        → Good c.nodes
        → let x' = enqueue_result strategy r task c x in
          (x'.cluster.allocator ≡ c.allocator) × (x'.devices ≡ x.devices) × Good x'.cluster.nodes
    unfolding enqueue_result
    enqueue_result-keeps strategy r task c x good = elim (Bool-cases r.success) [
      | inl won ↦ rw won (refl, refl, keeps.queues x.scheduler r.edge_id task c.nodes good)
      | inr lost ↦ rw lost (refl, refl, good)
    ]

    fluctuate_at-Underway :
        (i k : ℕ) (draws : Text → W × W) (x : Experiment W J)
        → Underway k x
        → Returns (Underway k) (fluctuate_at i draws x)
    unfolding fluctuate_at Underway
    fluctuate_at-Underway i k draws x u = elim (Bool-cases (i % 100 == 0)) [
      | inl now ↦ rw now (
          Returns-map (λ m. Good m.edge_nodes) (Underway k) _
            (update_resource_metrics draws (put_nodes x.cluster.nodes new_resource_monitor))
            (λ m good. record {
              strategy = u.strategy;
              weights = u.weights;
              good = good;
              total = u.total;
              balanced = u.balanced;
              devices = u.devices;
            })
            (keeps.fluctuates draws x.cluster.nodes u.good))
      | inr later ↦ rw later u
    ]

    u64-suc : (n i : ℕ) → n ≡ u64 i → u64 (n + 1) ≡ u64 (suc i)
    u64-suc n i e = omega arith

    module _ ⦃json : Json J⦄ ⦃real : RealJson W J⦄ (profiles : Profiles W) (strategy : Text) where
      run_device-Underway :
          (i position : ℕ) (device : Device W) (x : Experiment W J)
          → Underway i x
          → Returns (Underway (suc i)) (run_device profiles strategy (around i) i position device x)
      unfolding run_device Underway IsKept
      run_device-Underway i position device x u =
          Returns-bind
            (λ e.
              IsKept order s w around Good keeps known e
              × (IsBalanced e.2.allocator
                  × (e.2.allocator.total_allocations
                      ≡ u64 (x.cluster.allocator.total_allocations + 1))))
            (Underway (suc i)) _ (allocate_task_with_retry (around i).others 200 _ _)
            (λ (r, task', c') ((same, weights, good), (balanced, total)).
              let (kept, devices, good') = enqueue_result-keeps strategy r task' c' _ good in
              fluctuate_at-Underway i (suc i) (around i).node_draws _ (record {
                strategy = rw kept same;
                weights = rw kept weights;
                good = good';
                total = rw (kept, total) (u64-suc _ i u.total);
                balanced = subst IsBalanced (sym kept) balanced;
                devices = rw devices (rw length-set_device u.devices);
              }))
            (request-IsKept order s w around Good keeps known i _ _ u.strategy u.weights
              (keeps.before i x.cluster.nodes u.good) u.balanced)

      run_turn-Underway :
          (i : ℕ) (x : Experiment W J)
          → Underway i x
          → Returns (Underway (suc i)) (run_turn profiles strategy around i x)
      unfolding run_turn Underway
      run_turn-Underway i x u =
          let (device, found) =
            get_elem?-lt x.devices (i % length x.devices) (rw u.devices (omega arith)) in
          rw (not_empty x.devices u.devices, found)
            (run_device-Underway i (i % length x.devices) device x u)

      repeat_from-Underway :
          (left i : ℕ) (x : Experiment W J)
          → Underway i x
          → Returns (Underway (i + left)) (repeat_from (run_turn profiles strategy around) left i x)
      unfolding repeat_from
      repeat_from-Underway zero i x u = subst (λ n. Underway n x) (omega arith) u
      repeat_from-Underway (suc left) i x u =
          Returns-bind (Underway (suc i)) (Underway (i + suc left))
            (repeat_from (run_turn profiles strategy around) left (suc i))
            (run_turn profiles strategy around i x)
            (λ y t.
              subst
                (λ n.
                  Returns (Underway n)
                    (repeat_from (run_turn profiles strategy around) left (suc i) y))
                (omega arith) (repeat_from-Underway left (suc i) y t))
            (run_turn-Underway i x u)

      -- The workload of an experiment with at least one device returns, and at its end the requests that
      -- the allocator has counted are as many as there are tasks, modulo the counters' width, and as many
      -- as its successes and failures together; the devices are as many as before. The allocator is as at
      -- the start of an experiment but for its weights, its strategy is among the enumerators, and the
      -- nodes have a property under which the strategy can work and which everything keeps that a workload
      -- does to them.
      pub run_workload-IsUnderway :
          (task_count : ℕ) (x : Experiment W J)
          → length x.devices ≡ suc count
          → x.cluster.allocator ≡ record (new_resource_allocator s) { weights = w }
          → Good x.cluster.nodes
          → Returns
              (IsUnderway s w Good (suc count) task_count)
              (run_workload profiles strategy around task_count x)
      unfolding run_workload Underway new_resource_allocator
      run_workload-IsUnderway task_count x devices fresh good =
          subst
            (λ n.
              Returns (Underway n) (repeat_from (run_turn profiles strategy around) task_count 0 x))
            (omega arith)
            (repeat_from-Underway task_count 0 x (record {
              strategy = rw fresh refl;
              weights = rw fresh refl;
              good = good;
              total = rw fresh refl;
              balanced = rw fresh refl;
              devices = devices;
            }))
