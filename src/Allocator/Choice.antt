-- ===== src/Allocator/Choice.antt =====
-- What one attempt of a strategy of resource_allocator.cpp may do, and which edge it settles on.
use multi_constraint_iot_edg.Common.{
  ◌+◌, ◌%◌, ◌≡◌, ◌≢◌, refl, true, false, [], ◌∷◌, some, arith, All, ◌⊎◌, if◌then◌else◌, Bool-cases,
  inl, inr, Text, length, get_elem?, get_elem?-lt, All-get_elem?, u64, ltb_ℤ,
}
use multi_constraint_iot_edg.Common.Dict.{lookup, IsAscending, IsEntry, All-select}
use multi_constraint_iot_edg.Double.{Double, IsOrdered, nought}
use multi_constraint_iot_edg.Outcome.{returns, Returns}
use multi_constraint_iot_edg.Task.{Task}
use multi_constraint_iot_edg.Edge.{EdgeNode}
use multi_constraint_iot_edg.Allocator.Viable.{
  best_edge_lem, lt-IsStrict, gt-IsStrict, ltb_ℤ-IsStrict,
}
use multi_constraint_iot_edg.Allocator.{
  failure, no_viable, AllocationResult, ResourceAllocator, AllocationStrategy, round_robin,
  least_load, priority_based, multi_constraint, unknown, Nodes, Attempt, attempt_by, is_viable,
  get_viable_edges, reserve, choose, allocate_round_robin, allocate_least_load,
  allocate_priority_based, allocate_multi_constraint, route_high, route_standard, is_high_priority,
  used_cpu, queue_length, latency, suitability, int64_max,
}

-- The round robin moves its index on, and nothing else of the allocator changes in an attempt.
abbrev pub moved_on : {W : Type 0} → AllocationStrategy → ResourceAllocator W → ResourceAllocator W
moved_on round_robin a = record a { round_robin_index = u64 (a.round_robin_index + 1) }
moved_on least_load a = a
moved_on priority_based a = a
moved_on multi_constraint a = a
moved_on unknown a = a

module _ {W J : Type 0} ⦃d : Double W⦄ where
  open d use {lt, greatest, lowest}

  -- What makes an edge the choice of a strategy among the viable ones: none of them beats it, and the
  -- score is the value by which they are compared. The round robin takes the next one in turn.
  abbrev pub IsBest :
      AllocationStrategy
      → Task W J
      → ResourceAllocator W
      → Nodes W J
      → Text × EdgeNode W J
      → W
      → Type 0
  IsBest round_robin task a viable c score =
      (get_elem? viable (a.round_robin_index % length viable) ≡ some c) × (score ≡ nought)
  IsBest least_load task a viable c score =
      All (λ e. lt (used_cpu e) (used_cpu c) ≡ false) viable × (score ≡ used_cpu c)
  IsBest priority_based task a viable c score =
      if is_high_priority task.requirements.priority
      then All (λ e. ltb_ℤ (latency e) (latency c) ≡ false) viable × (score ≡ d.of_int (latency c))
      else All (λ e. lt (queue_length e) (queue_length c) ≡ false) viable × (score ≡ queue_length c)
  IsBest multi_constraint task a viable c score =
      All (λ e. lt (suitability a.weights task c) (suitability a.weights task e) ≡ false) viable
      × (score ≡ suitability a.weights task c)
  IsBest unknown task a viable c score = ⊥

  -- The edge under a key is viable and the strategy's choice, gets the task's resources and is named in
  -- the result; no other node changes.
  pub record IsCommitted (s : AllocationStrategy) (task : Task W J) (a : ResourceAllocator W)
      (nodes : Nodes W J) (r : AllocationResult W) (a' : ResourceAllocator W) (nodes' : Nodes W J)
      : Type 0 where
    pub key : Text
    pub edge : EdgeNode W J
    pub succeeded : r.success ≡ true
    pub named : r.edge_id ≡ edge.edge_id
    pub found : lookup key nodes ≡ some edge
    pub viable : is_viable task edge ≡ true
    pub reserved : nodes' ≡ reserve task key nodes
    pub kept : a' ≡ moved_on s a
    pub best : IsBest s task a (get_viable_edges task nodes) (key, edge) r.score

  -- An attempt fails only where no edge is viable, and then changes nothing.
  abbrev pub IsSound :
      AllocationStrategy
      → Task W J
      → ResourceAllocator W
      → Nodes W J
      → AllocationResult W × ResourceAllocator W × Nodes W J
      → Type 0
  IsSound s task a nodes (r, a', nodes') =
      ((r.success ≡ false)
        × (r.reason ≡ no_viable)
        × (a' ≡ a)
        × (nodes' ≡ nodes)
        × (get_viable_edges task nodes ≡ []))
      ⊎ IsCommitted s task a nodes r a' nodes'

  -- An edge beats the value with which the loop of the strategy starts.
  abbrev pub Starts :
      AllocationStrategy → Task W J → ResourceAllocator W → Text × EdgeNode W J → Type 0
  Starts least_load task a e = lt (used_cpu e) greatest ≡ true
  Starts priority_based task a e =
      if is_high_priority task.requirements.priority
      then ltb_ℤ (latency e) int64_max ≡ true
      else (lt (queue_length e) greatest ≡ true)
  Starts multi_constraint task a e = lt lowest (suitability a.weights task e) ≡ true
  Starts round_robin task a e = Unit
  Starts unknown task a e = ⊥

  -- `v` is the list of the viable edges.
  module _ (s : AllocationStrategy) (task : Task W J) (a : ResourceAllocator W)
      (nodes : Nodes W J) where
    Good : Attempt W J → Type 0
    Good = Returns (IsSound s task a nodes)

    choose-Good :
        (reason : Text) (score : W) (e : Text × EdgeNode W J)
        → IsEntry (is_viable task) nodes e
        → IsBest s task a (get_viable_edges task nodes) e score
        → Good (choose task reason score (moved_on s a) nodes (some e))
    unfolding choose Good
    choose-Good reason score (key, edge) h b = inr (record {
      key = key;
      edge = edge;
      succeeded = refl;
      named = refl;
      found = h.0;
      viable = h.1;
      reserved = refl;
      kept = refl;
      best = b;
    })

    none-Good : get_viable_edges task nodes ≡ [] → Good (returns (failure no_viable, a, nodes))
    unfolding Good
    none-Good e = inl (refl, refl, refl, refl, e)

  module _ (order : IsOrdered W) (task : Task W J) (a : ResourceAllocator W) (nodes : Nodes W J)
      (ascending : IsAscending nodes) where
    entries : All (IsEntry (is_viable task) nodes) (get_viable_edges task nodes)
    unfolding get_viable_edges
    entries = All-select (is_viable task) nodes ascending

    least_load-Good :
        (v : Nodes W J)
        → get_viable_edges task nodes ≡ v
        → All (Starts least_load task a) v
        → Good least_load task a nodes (allocate_least_load task a nodes)
    unfolding allocate_least_load
    least_load-Good [] e h = rw (e, allocate_least_load) (none-Good least_load task a nodes e)
    least_load-Good (x ∷ xs) e h =
        let (y, ends, p, top) =
          best_edge_lem used_cpu lt (lt-IsStrict order) (IsEntry (is_viable task) nodes) greatest x
            xs h.0 (rw e at entries) in
        rw e (rw ends (choose-Good least_load task a nodes _ (used_cpu y) y p (rw e (top, refl))))

    round_robin-Good :
        (v : Nodes W J)
        → get_viable_edges task nodes ≡ v
        → Good round_robin task a nodes (allocate_round_robin task a nodes)
    unfolding allocate_round_robin
    round_robin-Good [] e = rw (e, allocate_round_robin) (none-Good round_robin task a nodes e)
    round_robin-Good (x ∷ xs) e =
        let (y, at) = get_elem?-lt (x ∷ xs) (a.round_robin_index % length (x ∷ xs)) (omega arith) in
        rw e (
          rw at (
            choose-Good round_robin task a nodes _ nought y
              (All-get_elem? _ (x ∷ xs) _ (rw e at entries) at) (rw e (at, refl))))

    route_high-Good :
        (x : Text × EdgeNode W J) (xs : Nodes W J)
        → get_viable_edges task nodes ≡ x ∷ xs
        → is_high_priority task.requirements.priority ≡ true
        → Starts priority_based task a x
        → Good priority_based task a nodes (route_high task a nodes (x ∷ xs))
    unfolding route_high
    route_high-Good x xs e urgent h =
        let (y, ends, p, top) =
          best_edge_lem latency ltb_ℤ ltb_ℤ-IsStrict (IsEntry (is_viable task) nodes) int64_max x xs
            (rw urgent at h) (rw e at entries) in
        rw ends (choose-Good priority_based task a nodes _ _ y p (rw (urgent, e) (top, refl)))

    route_standard-Good :
        (x : Text × EdgeNode W J) (xs : Nodes W J)
        → get_viable_edges task nodes ≡ x ∷ xs
        → is_high_priority task.requirements.priority ≡ false
        → Starts priority_based task a x
        → Good priority_based task a nodes (route_standard task a nodes (x ∷ xs))
    unfolding route_standard
    route_standard-Good x xs e urgent h =
        let (y, ends, p, top) =
          best_edge_lem queue_length lt (lt-IsStrict order) (IsEntry (is_viable task) nodes)
            greatest x xs (rw urgent at h) (rw e at entries) in
        rw ends (choose-Good priority_based task a nodes _ _ y p (rw (urgent, e) (top, refl)))

    priority_based-Good :
        (v : Nodes W J)
        → get_viable_edges task nodes ≡ v
        → All (Starts priority_based task a) v
        → Good priority_based task a nodes (allocate_priority_based task a nodes)
    unfolding allocate_priority_based
    priority_based-Good [] e h =
        rw (e, allocate_priority_based) (none-Good priority_based task a nodes e)
    priority_based-Good (x ∷ xs) e h =
        elim (Bool-cases (is_high_priority task.requirements.priority)) [
          | inl urgent ↦ rw (e, urgent) (route_high-Good x xs e urgent h.0)
          | inr urgent ↦ rw (e, urgent) (route_standard-Good x xs e urgent h.0)
        ]

    multi_constraint-Good :
        (v : Nodes W J)
        → get_viable_edges task nodes ≡ v
        → All (Starts multi_constraint task a) v
        → Good multi_constraint task a nodes (allocate_multi_constraint task a nodes)
    unfolding allocate_multi_constraint
    multi_constraint-Good [] e h =
        rw (e, allocate_multi_constraint) (none-Good multi_constraint task a nodes e)
    multi_constraint-Good (x ∷ xs) e h =
        let (y, ends, p, top) =
          best_edge_lem (suitability a.weights task) (λ score bound. lt bound score)
            (gt-IsStrict order) (IsEntry (is_viable task) nodes) lowest x xs h.0
            (rw e at entries) in
        rw e (rw ends (choose-Good multi_constraint task a nodes _ _ y p (rw e (top, refl))))

    -- An attempt returns, if every viable edge beats the value with which the loop of the strategy
    -- starts, and if the strategy is one of the enumerators. It then either fails, where no edge is
    -- viable, and changes nothing; or it settles on the strategy's choice among the viable edges,
    -- reserves the task's resources there and nowhere else, and names that edge and its value.
    pub attempt_by-IsSound :
        (s : AllocationStrategy)
        → s ≢ unknown
        → All (Starts s task a) (get_viable_edges task nodes)
        → Returns (IsSound s task a nodes) (attempt_by s task a nodes)
    unfolding attempt_by Good
    attempt_by-IsSound round_robin k h = round_robin-Good _ refl
    attempt_by-IsSound least_load k h = least_load-Good _ refl h
    attempt_by-IsSound priority_based k h = priority_based-Good _ refl h
    attempt_by-IsSound multi_constraint k h = multi_constraint-Good _ refl h
    attempt_by-IsSound unknown k h = absurd (k refl)
