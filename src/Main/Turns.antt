-- ===== src/Main/Turns.antt =====
-- What a request in the loop of `runExperiment` of main.cpp leaves behind.
use multi_constraint_iot_edg.Common.{
  ℕ, zero, suc, ◌+◌, ◌≡◌, refl, sym, subst, ◌≢◌, List, length, some, inl, inr, u64, arith, Text,
  is_empty, ◌∷◌, [], false,
}
use multi_constraint_iot_edg.Common.Dict.{lookup}
use multi_constraint_iot_edg.Double.{Double, IsOrdered}
use multi_constraint_iot_edg.Outcome.{Returns, Returns-weaken, Returns-both}
use multi_constraint_iot_edg.Task.{Task}
use multi_constraint_iot_edg.Monitor.{new_resource_monitor, put_nodes, update_resource_metrics}
use multi_constraint_iot_edg.Scheduler.{TaskScheduler, schedule_task}
use multi_constraint_iot_edg.Fleet.{Device}
use multi_constraint_iot_edg.Allocator.{
  AllocationStrategy, AllocationResult, ResourceAllocator, Nodes, reserve, round_robin, least_load,
  priority_based, multi_constraint, unknown,
}
use multi_constraint_iot_edg.Allocator.Score.{AllocationWeights}
use multi_constraint_iot_edg.Allocator.Requests.{Cluster, count_request, allocate_task_with_retry}
use multi_constraint_iot_edg.Allocator.Choice.{moved_on}
use multi_constraint_iot_edg.Allocator.Served.{
  IsFine, IsCalm, IsServed, waited, allocate_task_with_retry-IsServed,
}
use multi_constraint_iot_edg.Allocator.Capacity.{IsBalanced, allocate_task_with_retry-IsBalanced}
use multi_constraint_iot_edg.Main.{Experiment, Surroundings, put_node, set_device}

module _ {W : Type 0} where
  pub length-set_device :
      (i : ℕ) (v : Device W) (us : List (Device W)) → length (set_device i v us) ≡ length us
  unfolding set_device
  length-set_device i v [] = refl
  length-set_device zero v (u ∷ us) = refl
  length-set_device (suc i) v (u ∷ us) = omega (arith, length-set_device i v us)

pub not_empty : {A : Type 0} {n : ℕ} (xs : List A) → length xs ≡ suc n → is_empty xs ≡ false
not_empty [] e = ground (arith, e)
not_empty (x ∷ xs) e = refl

moved_on-weights :
    {W : Type 0} (s : AllocationStrategy) (a : ResourceAllocator W)
    → ((moved_on s a).weights ≡ a.weights) × ((moved_on s a).strategy ≡ a.strategy)
moved_on-weights round_robin a = (refl, refl)
moved_on-weights least_load a = (refl, refl)
moved_on-weights priority_based a = (refl, refl)
moved_on-weights multi_constraint a = (refl, refl)
moved_on-weights unknown a = (refl, refl)

module _ {W J : Type 0} ⦃d : Double W⦄ where
  -- A property of the nodes under which the strategy `s` with the weights `w` can work, and which
  -- everything keeps that a workload does to the nodes.
  pub record Keeps (s : AllocationStrategy) (w : AllocationWeights W)
      (around : ℕ → Surroundings W J) (Good : Nodes W J → Type 0) : Type 0 where
    pub fine :
        (task : Task W J) (a : ResourceAllocator W) (nodes : Nodes W J)
        → a.strategy ≡ s
        → a.weights ≡ w
        → Good nodes
        → IsFine s task a nodes
    pub calm :
        (i : ℕ) (task : Task W J) (a : ResourceAllocator W) → IsCalm s task a (around i).others
    pub before : (i : ℕ) (nodes : Nodes W J) → Good nodes → Good ((around i).before nodes)
    pub others : (i k : ℕ) (nodes : Nodes W J) → Good nodes → Good ((around i).others k nodes)
    pub reserves :
        (task : Task W J) (key : Text) (nodes : Nodes W J)
        → Good nodes
        → Good (reserve task key nodes)
    pub queues :
        (scheduler : TaskScheduler) (key : Text) (task : Task W J) (nodes : Nodes W J)
        → Good nodes
        → Good (put_node key (schedule_task scheduler (lookup key nodes) (some task)).1 nodes)
    pub fluctuates :
        (draws : Text → W × W) (nodes : Nodes W J)
        → Good nodes
        → Returns
            (λ m. Good m.edge_nodes)
            (update_resource_metrics draws (put_nodes nodes new_resource_monitor))

  -- The workload has come to the task `i`, and started with the statistics of `a`.
  pub record IsUnderway (s : AllocationStrategy) (w : AllocationWeights W)
      (Good : Nodes W J → Type 0) (count : ℕ) (i : ℕ) (x : Experiment W J) : Type 0 where
    pub strategy : x.cluster.allocator.strategy ≡ s
    pub weights : x.cluster.allocator.weights ≡ w
    pub good : Good x.cluster.nodes
    pub total : x.cluster.allocator.total_allocations ≡ u64 i
    pub balanced : IsBalanced x.cluster.allocator
    pub devices : length x.devices ≡ count

  waited-Good :
      (Good : Nodes W J → Type 0) (others : ℕ → Nodes W J → Nodes W J) (j k : ℕ) (nodes : Nodes W J)
      → ((k : ℕ) (nodes : Nodes W J) → Good nodes → Good (others k nodes))
      → Good nodes
      → Good (waited others k j nodes)
  unfolding waited
  waited-Good Good others zero k nodes keep good = good
  waited-Good Good others (suc j) k nodes keep good =
      waited-Good Good others j (suc k) (others k nodes) keep (keep k nodes good)

  module _ (order : IsOrdered W) (s : AllocationStrategy) (w : AllocationWeights W)
      (around : ℕ → Surroundings W J) (Good : Nodes W J → Type 0) (keeps : Keeps s w around Good)
      (known : s ≢ unknown) where
    -- What a request leaves behind.
    unfoldable pub IsKept : AllocationResult W × Task W J × Cluster W J → Type 0
    IsKept (r, task', c') = (c'.allocator.strategy ≡ s) × (c'.allocator.weights ≡ w) × Good c'.nodes

    served-IsKept :
        (i : ℕ) (task : Task W J) (c : Cluster W J)
        → c.allocator.strategy ≡ s
        → c.allocator.weights ≡ w
        → Good c.nodes
        → (e : AllocationResult W × Task W J × Cluster W J)
        → IsServed (around i).others 200 task c e
        → IsKept e
    unfolding IsKept
    served-IsKept i task c same weights good (r, task', c')
          (inl (_, _, _, counted, _, (j, _, at, _))) =
        (
          rw counted same,
          rw counted weights,
          subst Good (sym at)
              (waited-Good Good (around i).others j 0 c.nodes (keeps.others i) good),
        )
    served-IsKept i task c same weights good (r, task', c')
          (inr (j, moved, _, _, _, counted, done)) =
        let (w', s') = moved_on-weights c.allocator.strategy (count_request c.allocator) in
        (
          rw (counted, done.kept, s') same,
          rw (counted, done.kept, w') weights,
          subst Good (sym done.reserved) (
              keeps.reserves task done.key _
                (waited-Good Good (around i).others j 0 c.nodes (keeps.others i) good)),
        )

    pub request-IsKept :
        (i : ℕ) (task : Task W J) (c : Cluster W J)
        → c.allocator.strategy ≡ s
        → c.allocator.weights ≡ w
        → Good c.nodes
        → IsBalanced c.allocator
        → Returns
            (λ e.
              IsKept e
              × (IsBalanced e.2.allocator
                  × (e.2.allocator.total_allocations ≡ u64 (c.allocator.total_allocations + 1))))
            (allocate_task_with_retry (around i).others 200 task c)
    request-IsKept i task c same weights good balanced =
        let known' : c.allocator.strategy ≢ unknown = rw same known in
        let calm =
          subst (λ t. IsCalm t task (count_request c.allocator) (around i).others) (sym same)
            (keeps.calm i task (count_request c.allocator)) in
        let fine =
          subst (λ t. IsFine t task (count_request c.allocator) c.nodes) (sym same)
            (keeps.fine task (count_request c.allocator) c.nodes same weights good) in
        Returns-both IsKept _ (allocate_task_with_retry (around i).others 200 task c)
          (Returns-weaken (IsServed (around i).others 200 task c) IsKept
            (allocate_task_with_retry (around i).others 200 task c)
            (served-IsKept i task c same weights good)
            (allocate_task_with_retry-IsServed order (around i).others 200 task c known' calm fine))
          (allocate_task_with_retry-IsBalanced order (around i).others 200 task c known' calm fine
            balanced)
