-- ===== src/Allocator/Served.antt =====
-- What a request to resource_allocator.cpp comes to: `allocateTask` and `allocateTaskWithRetry` with the
-- retries, the statistics, the task and the database.
use multi_constraint_iot_edg.Common.{
  ◌+◌, if_true, if_false, is_empty→nil, ℕ, zero, suc, ◌≤◌, ◌≡◌, ◌≢◌, refl, true, false, [], arith,
  All, ◌⊎◌, if◌then◌else◌, Bool-cases, inl, inr, is_empty, text_eq, ◌||◌,
}
use multi_constraint_iot_edg.Common.Dict.{IsAscending}
use multi_constraint_iot_edg.Double.{Double, IsOrdered}
use multi_constraint_iot_edg.Outcome.{Returns-map, Returns-weaken, returns, Returns, Returns-bind}
use multi_constraint_iot_edg.Task.{Task}
use multi_constraint_iot_edg.Allocator.{
  update_task_status, record_call, set_assigned_edge_id, TaskStatus, set_status, u64,
  AllocationResult, ResourceAllocator, AllocationStrategy, unknown, Nodes, attempt_by,
  get_viable_edges,
}
use multi_constraint_iot_edg.Allocator.Choice.{IsSound, IsCommitted, Starts, attempt_by-IsSound}
use multi_constraint_iot_edg.Allocator.Requests.Agreement.{allocate_task-eq}
use multi_constraint_iot_edg.Allocator.Requests.{
  count_request, settle, allocate_task_with_retry, Cluster, allocate_task, gives_up, retry_from,
}

module _ {W J : Type 0} ⦃d : Double W⦄ where
  -- The nodes are a map, and each viable edge beats the value with which the loop starts.
  abbrev pub IsFine : AllocationStrategy → Task W J → ResourceAllocator W → Nodes W J → Type 0
  IsFine s task a nodes = IsAscending nodes × All (Starts s task a) (get_viable_edges task nodes)

  -- The other threads keep that so.
  abbrev pub IsCalm :
      AllocationStrategy → Task W J → ResourceAllocator W → (ℕ → Nodes W J → Nodes W J) → Type 0
  IsCalm s task a others =
      (k : ℕ) (nodes : Nodes W J) → IsFine s task a nodes → IsFine s task a (others k nodes)

  -- The nodes after `j` rounds in which only the other threads worked, the first of them round `k`.
  unfoldable pub waited : (ℕ → Nodes W J → Nodes W J) → ℕ → ℕ → Nodes W J → Nodes W J
  waited others k zero nodes = nodes
  waited others k (suc j) nodes = waited others (suc k) j (others k nodes)

  -- How a loop of at most `suc left` attempts ends: without an edge, in the last round or where there
  -- are no nodes at all; or with an edge that the strategy chose among the nodes of its round.
  abbrev pub IsRetried :
      AllocationStrategy
      → (ℕ → Nodes W J → Nodes W J)
      → ℕ
      → ℕ
      → Task W J
      → ResourceAllocator W
      → Nodes W J
      → AllocationResult W × ResourceAllocator W × Nodes W J
      → Type 0
  IsRetried s others left k task a nodes (r, a', nodes') =
      ((r.success ≡ false)
        × (a' ≡ a)
        × (get_viable_edges task nodes' ≡ [])
        × ((j : ℕ) × (j ≤ left)
            × (nodes' ≡ waited others k j nodes)
            × ((j ≡ left) ⊎ (nodes' ≡ []))))
      ⊎ ((j : ℕ) × (j ≤ left) × IsCommitted s task a (waited others k j nodes) r a' nodes')

  -- How a request ends that was sent to `c` and allows `max_retries` retries. Without an edge one more
  -- failure is counted, and the task and the database are as before. With an edge one more success is
  -- counted, the task is queued for that edge, and the database is told. The request counts once.
  abbrev pub IsServed :
      (ℕ → Nodes W J → Nodes W J)
      → ℕ
      → Task W J
      → Cluster W J
      → AllocationResult W × Task W J × Cluster W J
      → Type 0
  IsServed others max_retries task c (r, task', c') =
      let a = count_request c.allocator in
      ((r.success ≡ false)
        × (task' ≡ task)
        × (c'.database ≡ c.database)
        × (c'.allocator ≡ record a { failed_allocations = u64 (a.failed_allocations + 1) })
        × (get_viable_edges task c'.nodes ≡ [])
        × ((j : ℕ) × (j ≤ max_retries)
            × (c'.nodes ≡ waited others 0 j c.nodes)
            × ((j ≡ max_retries) ⊎ (c'.nodes ≡ []))))
      ⊎ ((j : ℕ) × (moved : ResourceAllocator W) × (j ≤ max_retries)
          × (task' ≡ set_status TaskStatus.queued (set_assigned_edge_id r.edge_id task))
          × (c'.database
              ≡ record_call (update_task_status task.task_id TaskStatus.queued) c.database)
          × (c'.allocator
              ≡ record moved { successful_allocations = u64 (moved.successful_allocations + 1) })
          × IsCommitted a.strategy task a (waited others 0 j c.nodes) r moved c'.nodes)

  -- A loop with one round less, which starts a round later, is the end of the loop.
  later :
      (s : AllocationStrategy) (others : ℕ → Nodes W J → Nodes W J) (left k : ℕ) (task : Task W J)
      (a : ResourceAllocator W) (nodes : Nodes W J)
      (e : AllocationResult W × ResourceAllocator W × Nodes W J)
      → IsRetried s others left (suc k) task a (others k nodes) e
      → IsRetried s others (suc left) k task a nodes e
  unfolding waited
  later s others left k task a nodes (r, a', nodes') (inl (f, same, empty, (j, le, at, why))) =
      inl (f, same, empty, (suc j, omega arith, at, ground arith))
  later s others left k task a nodes (r, a', nodes') (inr (j, le, c)) = inr (suc j, omega arith, c)

  module _ (order : IsOrdered W) (task : Task W J) (a : ResourceAllocator W)
      (known : a.strategy ≢ unknown) (others : ℕ → Nodes W J → Nodes W J)
      (calm : IsCalm a.strategy task a others) where
    -- What follows an attempt that is not the last.
    round :
        (left k : ℕ) (nodes : Nodes W J)
        → Returns
            (IsRetried a.strategy others left (suc k) task a (others k nodes))
            (retry_from others left (suc k) task a (others k nodes))
        → (r : AllocationResult W) (a' : ResourceAllocator W) (nodes' : Nodes W J)
        → IsSound a.strategy task a nodes (r, a', nodes')
        → Returns (IsRetried a.strategy others (suc left) k task a nodes) (
            if r.success || gives_up r nodes'
            then returns (r, a', nodes')
            else retry_from others left (suc k) task a' (others k nodes'))
    round left k nodes rest r a' nodes' (inl (f, why, same, at, empty)) =
        elim (Bool-cases (is_empty nodes')) [
          | inl none_left ↦
              let over : (r.success || gives_up r nodes') ≡ true =
                unfold gives_up text_eq in rw (f, why, none_left) in
              rw over (
                inl (
                  f,
                  same,
                  rw (← at) at empty,
                  (0, omega arith, unfold waited in at, inr (is_empty→nil nodes' none_left)),
                ))
          | inr some_left ↦
              let over : (r.success || gives_up r nodes') ≡ false =
                unfold gives_up text_eq in rw (f, why, some_left) in
              rw (over, same, at)
                (Returns-weaken _ _ (retry_from others left (suc k) task a (others k nodes))
                  (later a.strategy others left k task a nodes) rest)
        ]
    round left k nodes rest r a' nodes' (inr c) =
        let over : (r.success || gives_up r nodes') ≡ true = rw c.succeeded in
        rw over (inr (0, omega arith, unfold waited in c))

    last_round :
        (k : ℕ) (nodes : Nodes W J) (e : AllocationResult W × ResourceAllocator W × Nodes W J)
        → IsSound a.strategy task a nodes e
        → IsRetried a.strategy others zero k task a nodes e
    unfolding waited
    last_round k nodes (r, a', nodes') (inl (f, _, same, at, empty)) =
        inl (f, same, rw (← at) at empty, (0, omega arith, at, inl refl))
    last_round k nodes (r, a', nodes') (inr c) = inr (0, omega arith, c)

    retry_from-IsRetried :
        (left k : ℕ) (nodes : Nodes W J)
        → IsFine a.strategy task a nodes
        → Returns
            (IsRetried a.strategy others left k task a nodes)
            (retry_from others left k task a nodes)
    unfolding retry_from
    retry_from-IsRetried zero k nodes fine =
        Returns-weaken _ _ (attempt_by a.strategy task a nodes) (last_round k nodes)
          (attempt_by-IsSound order task a nodes fine.0 a.strategy known fine.1)
    retry_from-IsRetried (suc left) k nodes fine =
        Returns-bind (IsSound a.strategy task a nodes) _ _ (attempt_by a.strategy task a nodes)
          (λ (r, a', nodes').
            round left k nodes
              (retry_from-IsRetried left (suc k) (others k nodes) (calm k nodes fine)) r a' nodes')
          (attempt_by-IsSound order task a nodes fine.0 a.strategy known fine.1)

module _ {W J : Type 0} ⦃d : Double W⦄ (order : IsOrdered W) where
  settle-IsServed :
      (others : ℕ → Nodes W J → Nodes W J) (max_retries : ℕ) (task : Task W J) (c : Cluster W J)
      (e : AllocationResult W × ResourceAllocator W × Nodes W J)
      → IsRetried c.allocator.strategy others max_retries 0 task
          (count_request c.allocator)
          c.nodes
          e
      → IsServed others max_retries task c (settle task c.database e)
  unfolding settle
  settle-IsServed others max_retries task c (r, a', nodes') (inl (f, same, empty, ended)) =
      rw (if_false r.success _ _ f) (inl (f, refl, refl, rw same, empty, ended))
  settle-IsServed others max_retries task c (r, a', nodes') (inr (j, le, done)) =
      rw (if_true r.success _ _ done.succeeded) (inr (j, a', le, refl, refl, refl, done))

  -- A request with retries returns, if the strategy is one of the enumerators, the nodes are a map, each
  -- viable edge beats the value with which the loop of the strategy starts, and the other threads keep
  -- that so. It is then served after at most `max_retries` waits, with an edge that is the strategy's
  -- choice among the viable ones at that time; or it fails, in the last round or where there is no node
  -- at all, with no viable edge left.
  pub allocate_task_with_retry-IsServed :
      (others : ℕ → Nodes W J → Nodes W J) (max_retries : ℕ) (task : Task W J) (c : Cluster W J)
      → c.allocator.strategy ≢ unknown
      → IsCalm c.allocator.strategy task (count_request c.allocator) others
      → IsFine c.allocator.strategy task (count_request c.allocator) c.nodes
      → Returns
          (IsServed others max_retries task c)
          (allocate_task_with_retry others max_retries task c)
  unfolding allocate_task_with_retry
  allocate_task_with_retry-IsServed others max_retries task c known calm fine =
      Returns-map _ _ _ (retry_from others max_retries 0 task (count_request c.allocator) c.nodes)
        (settle-IsServed others max_retries task c)
        (retry_from-IsRetried order task (count_request c.allocator) known others calm max_retries 0
          c.nodes fine)

  -- `allocateTask`, which the source writes out a second time, is a request without retries.
  pub allocate_task-eq-allocate_task_with_retry :
      (others : ℕ → Nodes W J → Nodes W J) (task : Task W J) (c : Cluster W J)
      → allocate_task task c ≡ allocate_task_with_retry others 0 task c
  unfolding allocate_task_with_retry retry_from
  allocate_task-eq-allocate_task_with_retry others task c = allocate_task-eq task c
