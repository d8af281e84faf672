-- ===== src/Runtime/Submission.antt =====
-- What one turn of the loop of live_runtime.cpp does with a task: the request to the allocator and the
-- hand-over to the scheduler.
use multi_constraint_iot_edg.Common.{
  if_false, ℕ, zero, suc, ◌≤◌, ◌≡◌, ◌≢◌, refl, ap, sym, ◌∙◌, true, false, [], ◌∷◌, Option, some,
  ◌⊎◌, Bool-cases, inl, inr, Text, text_eq, text_eq→eq, subst, All, some-injective,
}
use multi_constraint_iot_edg.Common.Dict.{lookup-adjust_self, lookup-adjust_other, lookup, adjust}
use multi_constraint_iot_edg.Double.{Double, IsOrdered}
use multi_constraint_iot_edg.Outcome.{◌>>=◌, returns, Returns, Returns-map}
use multi_constraint_iot_edg.Task.{Task, TaskStatus, set_status, set_assigned_edge_id}
use multi_constraint_iot_edg.Edge.{EdgeNode, allocate_resources, enqueue_task}
use multi_constraint_iot_edg.Database.{record_call, save_task}
use multi_constraint_iot_edg.Scheduler.{schedule_task}
use multi_constraint_iot_edg.Allocator.{
  AllocationResult, unknown, Nodes, reserve, is_viable, get_viable_edges,
}
use multi_constraint_iot_edg.Allocator.Requests.{Cluster, count_request, allocate_task_with_retry}
use multi_constraint_iot_edg.Allocator.Served.{
  IsFine, IsCalm, IsServed, waited, allocate_task_with_retry-IsServed,
}
use multi_constraint_iot_edg.Runtime.{
  LiveRuntime, dispatch, place, log_call, put_back, submit_task, recommend,
}

module _ {W J : Type 0} where
  -- Each node stands in the map under its own identifier, as `registerEdgeNode` puts it there.
  abbrev pub IsKeyed : Nodes W J → Type 0
  IsKeyed = All (λ (key, e). e.edge_id ≡ key)

  IsKeyed-lookup :
      (key : Text) (nodes : Nodes W J) (e : EdgeNode W J)
      → IsKeyed nodes
      → lookup key nodes ≡ some e
      → e.edge_id ≡ key
  unfolding lookup
  IsKeyed-lookup key [] e keyed at = cc
  IsKeyed-lookup key ((j, v) ∷ nodes) e keyed at = elim (Bool-cases (text_eq j key)) [
    | inl same ↦
        ap (λ n. n.edge_id) (sym (some-injective _ _ (rw (same, lookup) at at)))
        ∙ keyed.0
        ∙ text_eq→eq j key same
    | inr other ↦ IsKeyed-lookup key nodes e keyed.1 (rw (other, lookup) at at)
  ]

module _ {W J : Type 0} ⦃d : Double W⦄ where
  waited-IsKeyed :
      (others : ℕ → Nodes W J → Nodes W J) (j k : ℕ) (nodes : Nodes W J)
      → ((k : ℕ) (nodes : Nodes W J) → IsKeyed nodes → IsKeyed (others k nodes))
      → IsKeyed nodes
      → IsKeyed (waited others k j nodes)
  unfolding waited
  waited-IsKeyed others zero k nodes keep keyed = keyed
  waited-IsKeyed others (suc j) k nodes keep keyed =
      waited-IsKeyed others j (suc k) (others k nodes) keep (keep k nodes keyed)

  reserve-at :
      (task : Task W J) (k : Text) (nodes : Nodes W J) (e : EdgeNode W J)
      → lookup k nodes ≡ some e
      → lookup k (reserve task k nodes)
        ≡ some (
            allocate_resources task.requirements.cpu_percent task.requirements.ram_mb
              task.requirements.bandwidth_mbps e)
  unfolding reserve
  reserve-at task k nodes e at = lookup-adjust_self k _ nodes e at

  reserve-other :
      (task : Task W J) (k j : Text) (nodes : Nodes W J)
      → text_eq k j ≡ false
      → lookup j (reserve task k nodes) ≡ lookup j nodes
  unfolding reserve
  reserve-other task k j nodes other = lookup-adjust_other k j _ nodes other

  -- How a turn ends: with the task as it was, where no node is viable; or with the task queued on a
  -- node that was viable when it was chosen, after at most 200 waits, and that has reserved the task's
  -- resources. The other nodes are as they were when the choice was made.
  abbrev pub IsSubmitted :
      (ℕ → Nodes W J → Nodes W J)
      → Task W J
      → LiveRuntime W J
      → Option (Task W J) × LiveRuntime W J
      → Type 0
  IsSubmitted others task r (task', r') =
      ((task' ≡ some task) × (get_viable_edges task r'.cluster.nodes ≡ []))
      ⊎ ((j : ℕ) × (key : Text) × (e : EdgeNode W J) × (j ≤ 200)
          × (lookup key (waited others 0 j r.cluster.nodes) ≡ some e)
          × (is_viable task e ≡ true)
          × (task' ≡ some (set_status TaskStatus.queued (set_assigned_edge_id key task)))
          × (lookup key r'.cluster.nodes
              ≡ some (
                  enqueue_task (set_status TaskStatus.queued (set_assigned_edge_id key task)) (
                    allocate_resources task.requirements.cpu_percent task.requirements.ram_mb
                      task.requirements.bandwidth_mbps e)))
          × ((k : Text)
              → text_eq key k ≡ false
              → lookup k r'.cluster.nodes ≡ lookup k (waited others 0 j r.cluster.nodes)))

  dispatch-lost :
      (r : LiveRuntime W J) (result : AllocationResult W) (task : Task W J) (c : Cluster W J)
      → let (task', r') = dispatch r (record result { success = false }, task, c) in
        (task' ≡ some task) × (r'.cluster.nodes ≡ c.nodes)
  unfolding dispatch
  dispatch-lost r result task c = (refl, refl)

  dispatch-won :
      (r : LiveRuntime W J) (result : AllocationResult W) (task : Task W J) (c : Cluster W J)
      (e : EdgeNode W J)
      → lookup result.edge_id c.nodes ≡ some e
      → let (task', r') = dispatch r (record result { success = true }, task, c) in
        (task' ≡ some (set_status TaskStatus.queued task))
        × (r'.cluster.nodes
            ≡ adjust result.edge_id
                (λ old. enqueue_task (set_status TaskStatus.queued task) e)
                c.nodes)
  unfolding dispatch place log_call put_back schedule_task
  dispatch-won r result task c e at = rw at (refl, refl)

  dispatch-IsSubmitted :
      (others : ℕ → Nodes W J → Nodes W J) (task : Task W J) (r : LiveRuntime W J)
      → ((k : ℕ) (nodes : Nodes W J) → IsKeyed nodes → IsKeyed (others k nodes))
      → IsKeyed r.cluster.nodes
      → (e : AllocationResult W × Task W J × Cluster W J)
      → IsServed others 200 task
          (record r.cluster { database = record_call (save_task task) r.cluster.database })
          e
      → IsSubmitted others task r (dispatch r e)
  dispatch-IsSubmitted others task r keep keyed (result, task', c')
        (inl (lost, same, _, _, none_left, _)) =
      let told = dispatch-lost r result task' c' in
      inl (
        subst (λ b. (dispatch r (record result { success = b }, task', c')).0 ≡ some task)
            (sym lost) (told.0 ∙ ap some same),
        subst
            (λ b.
              get_viable_edges task
                (dispatch r (record result { success = b }, task', c')).1.cluster.nodes
              ≡ [])
            (sym lost) (ap (get_viable_edges task) told.1 ∙ none_left),
      )
  dispatch-IsSubmitted others task r keep keyed (result, task', c')
        (inr (j, moved, le, same, _, _, done)) =
      let n = waited others 0 j r.cluster.nodes in
      let id : result.edge_id ≡ done.key =
        done.named
        ∙ IsKeyed-lookup done.key n done.edge (waited-IsKeyed others j 0 r.cluster.nodes keep keyed)
            done.found in
      let found : lookup result.edge_id n ≡ some done.edge =
        subst (λ k. lookup k n ≡ some done.edge) (sym id) done.found in
      let at : c'.nodes ≡ reserve task result.edge_id n =
        done.reserved ∙ ap (λ k. reserve task k n) (sym id) in
      let held = ap (lookup result.edge_id) at ∙ reserve-at task result.edge_id n done.edge found in
      let grown =
        allocate_resources task.requirements.cpu_percent task.requirements.ram_mb
          task.requirements.bandwidth_mbps done.edge in
      let won = dispatch-won r result task' c' grown held in
      subst (λ b. IsSubmitted others task r (dispatch r (record result { success = b }, task', c')))
        (sym done.succeeded)
        (inr (
          j,
          result.edge_id,
          done.edge,
          le,
          found,
          done.viable,
          won.0 ∙ ap (λ t. some (set_status TaskStatus.queued t)) same,
          ap (lookup result.edge_id) won.1
              ∙ lookup-adjust_self result.edge_id _ c'.nodes _ held
              ∙ ap (λ t. some (enqueue_task (set_status TaskStatus.queued t) grown)) same,
          λ k h.
              ap (lookup k) won.1
              ∙ lookup-adjust_other result.edge_id k _ c'.nodes h
              ∙ ap (lookup k) at
              ∙ reserve-other task result.edge_id k n h,
        ))

  recommend-off : (r : LiveRuntime W J) → r.automatic_mode ≡ false → recommend r ≡ r
  unfolding recommend
  recommend-off r manual = if_false r.automatic_mode _ r manual

  -- One turn without automatic mode returns, and ends as `IsSubmitted` says, if the strategy is one of the
  -- enumerators, the nodes are a map in which each stands under its identifier, each viable edge beats the
  -- value with which the loop of the strategy starts, and the other threads keep that so.
  pub submit_task-IsSubmitted :
      (order : IsOrdered W) (others : ℕ → Nodes W J → Nodes W J) (task : Task W J)
      (r : LiveRuntime W J)
      → r.automatic_mode ≡ false
      → r.cluster.allocator.strategy ≢ unknown
      → IsCalm r.cluster.allocator.strategy task (count_request r.cluster.allocator) others
      → IsFine r.cluster.allocator.strategy task (count_request r.cluster.allocator) r.cluster.nodes
      → ((k : ℕ) (nodes : Nodes W J) → IsKeyed nodes → IsKeyed (others k nodes))
      → IsKeyed r.cluster.nodes
      → Returns (IsSubmitted others task r) (submit_task others task r)
  unfolding submit_task
  submit_task-IsSubmitted order others task r manual known calm fine keep keyed =
      subst
        (λ s. Returns (IsSubmitted others task r) (
          allocate_task_with_retry others 200 task
            (record s.cluster { database = record_call (save_task task) s.cluster.database })
          >>= λ e. returns (dispatch s e)))
        (sym (recommend-off r manual))
        (Returns-map _ _ (dispatch r)
          (allocate_task_with_retry others 200 task
            (record r.cluster { database = record_call (save_task task) r.cluster.database }))
          (dispatch-IsSubmitted others task r keep keyed)
          (allocate_task_with_retry-IsServed order others 200 task
            (record r.cluster { database = record_call (save_task task) r.cluster.database }) known
            calm fine))
