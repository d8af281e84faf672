-- ===== src/Runtime/Strategies.antt =====
-- The strategies of live_runtime.cpp: their names, and the choice of a configuration.
use multi_constraint_iot_edg.Common.{
  ◌≡◌, ◌≢◌, refl, sym, ◌∙◌, subst, true, false, none, some, ◌++◌, Text, text_eq, text_eq→eq,
  text_eq_refl, codes, Bool-cases, inl, inr, ◌⊎◌,
}
use multi_constraint_iot_edg.Double.{Double}
use multi_constraint_iot_edg.Allocator.{AllocationStrategy}
use multi_constraint_iot_edg.Scheduler.{SchedulingStrategy}
use multi_constraint_iot_edg.Runtime.{
  LiveRuntime, allocation_from_string, allocation_to_string, scheduling_from_string,
  scheduling_to_string, apply_configuration, apply_allocation, apply_scheduling, use_strategies,
}

-- The names that a user may ask for, and what they stand for.
abbrev pub IsAllocation : Text → AllocationStrategy → Type 0
IsAllocation name a =
    ((name ≡ codes "round_robin") × (a ≡ AllocationStrategy.round_robin))
    ⊎ ((name ≡ codes "least_load") × (a ≡ AllocationStrategy.least_load))
    ⊎ ((name ≡ codes "priority_based") × (a ≡ AllocationStrategy.priority_based))
    ⊎ ((name ≡ codes "multi_constraint") × (a ≡ AllocationStrategy.multi_constraint))

abbrev pub IsScheduling : Text → SchedulingStrategy → Type 0
IsScheduling name s =
    ((name ≡ codes "fifo") × (s ≡ SchedulingStrategy.fifo))
    ⊎ ((name ≡ codes "priority_based") × (s ≡ SchedulingStrategy.priority_based))
    ⊎ ((name ≡ codes "edf") × (s ≡ SchedulingStrategy.earliest_deadline_first))
    ⊎ ((name ≡ codes "round_robin") × (s ≡ SchedulingStrategy.round_robin_time_slice))

abbrev pub NoAllocation : Text → Type 0
NoAllocation name =
    (name ≢ codes "round_robin")
    × (name ≢ codes "least_load")
    × (name ≢ codes "priority_based")
    × (name ≢ codes "multi_constraint")

abbrev pub NoScheduling : Text → Type 0
NoScheduling name =
    (name ≢ codes "fifo")
    × (name ≢ codes "priority_based")
    × (name ≢ codes "edf")
    × (name ≢ codes "round_robin")

apart : (t k : Text) → text_eq t k ≡ false → t ≢ k
apart t k h e =
    let here : text_eq k k ≡ false = subst (λ v. text_eq v k ≡ false) e h in
    let clash : true ≡ false = sym (text_eq_refl k) ∙ here in cc

allocation_from_string-cases :
    (name : Text)
    → ((a : AllocationStrategy) × IsAllocation name a
        × (allocation_from_string name ≡ (a, true))
        × (allocation_to_string a ≡ name))
      ⊎ ((a : AllocationStrategy) × NoAllocation name × (allocation_from_string name ≡ (a, false)))
unfolding allocation_from_string allocation_to_string
allocation_from_string-cases name = elim (Bool-cases (text_eq name (codes "round_robin"))) [
  | inl y ↦
      let e = text_eq→eq name (codes "round_robin") y in
      inl (AllocationStrategy.round_robin, inl (e, refl), rw y refl, sym e)
  | inr n1 ↦ elim (Bool-cases (text_eq name (codes "least_load"))) [
    | inl y ↦
        let e = text_eq→eq name (codes "least_load") y in
        inl (AllocationStrategy.least_load, inr (inl (e, refl)), rw (n1, y) refl, sym e)
    | inr n2 ↦ elim (Bool-cases (text_eq name (codes "priority_based"))) [
      | inl y ↦
          let e = text_eq→eq name (codes "priority_based") y in
          inl (
            AllocationStrategy.priority_based,
            inr (inr (inl (e, refl))),
            rw (n1, n2, y) refl,
            sym e,
          )
      | inr n3 ↦ elim (Bool-cases (text_eq name (codes "multi_constraint"))) [
        | inl y ↦
            let e = text_eq→eq name (codes "multi_constraint") y in
            inl (
              AllocationStrategy.multi_constraint,
              inr (inr (inr (e, refl))),
              rw (n1, n2, n3, y) refl,
              sym e,
            )
        | inr n4 ↦ inr (
          AllocationStrategy.multi_constraint,
          (apart _ _ n1, apart _ _ n2, apart _ _ n3, apart _ _ n4),
          rw (n1, n2, n3, n4) refl,
        )
      ]
    ]
  ]
]

scheduling_from_string-cases :
    (name : Text)
    → ((s : SchedulingStrategy) × IsScheduling name s
        × (scheduling_from_string name ≡ (s, true))
        × (scheduling_to_string s ≡ name))
      ⊎ ((s : SchedulingStrategy) × NoScheduling name × (scheduling_from_string name ≡ (s, false)))
unfolding scheduling_from_string scheduling_to_string
scheduling_from_string-cases name = elim (Bool-cases (text_eq name (codes "fifo"))) [
  | inl y ↦
      let e = text_eq→eq name (codes "fifo") y in
      inl (SchedulingStrategy.fifo, inl (e, refl), rw y refl, sym e)
  | inr n1 ↦ elim (Bool-cases (text_eq name (codes "priority_based"))) [
    | inl y ↦
        let e = text_eq→eq name (codes "priority_based") y in
        inl (SchedulingStrategy.priority_based, inr (inl (e, refl)), rw (n1, y) refl, sym e)
    | inr n2 ↦ elim (Bool-cases (text_eq name (codes "edf"))) [
      | inl y ↦
          let e = text_eq→eq name (codes "edf") y in
          inl (
            SchedulingStrategy.earliest_deadline_first,
            inr (inr (inl (e, refl))),
            rw (n1, n2, y) refl,
            sym e,
          )
      | inr n3 ↦ elim (Bool-cases (text_eq name (codes "round_robin"))) [
        | inl y ↦
            let e = text_eq→eq name (codes "round_robin") y in
            inl (
              SchedulingStrategy.round_robin_time_slice,
              inr (inr (inr (e, refl))),
              rw (n1, n2, n3, y) refl,
              sym e,
            )
        | inr n4 ↦ inr (
          SchedulingStrategy.priority_based,
          (apart _ _ n1, apart _ _ n2, apart _ _ n3, apart _ _ n4),
          rw (n1, n2, n3, n4) refl,
        )
      ]
    ]
  ]
]

module _ {W J : Type 0} ⦃d : Double W⦄ where
  -- A manual configuration is taken over exactly where both names are among the known ones: the allocator
  -- and the scheduler then have the strategies that the names stand for, and the runtime reports the names
  -- that were asked for. Where the name of the allocation strategy is not among them, or else that of the
  -- scheduling algorithm, the error says so, and nothing changes.
  pub apply_configuration-lem :
      (allocation scheduling : Text) (r : LiveRuntime W J)
      → let (r', error) = apply_configuration false allocation scheduling r in
        ((a : AllocationStrategy) × (s : SchedulingStrategy) × IsAllocation allocation a
          × IsScheduling scheduling s
          × (error ≡ none)
          × (r'.cluster.allocator.strategy ≡ a)
          × (r'.scheduler.strategy ≡ s)
          × (r'.automatic_mode ≡ false)
          × (r'.strategy ≡ allocation)
          × (r'.scheduling ≡ scheduling))
        ⊎ (NoAllocation allocation
            × (error ≡ some (codes "Unsupported allocation strategy: " ++ allocation))
            × (r' ≡ r))
        ⊎ (NoScheduling scheduling
            × (error ≡ some (codes "Unsupported scheduling algorithm: " ++ scheduling))
            × (r' ≡ r))
  unfolding apply_configuration apply_allocation apply_scheduling use_strategies
  apply_configuration-lem allocation scheduling r = elim (allocation_from_string-cases allocation) [
    | inr (a, absent, bad) ↦ rw bad (inr (inl (absent, refl, refl)))
    | inl (a, is, good, named) ↦ elim (scheduling_from_string-cases scheduling) [
      | inr (s, absent, bad) ↦ rw good (rw bad (inr (inr (absent, refl, refl))))
      | inl (s, is', fine, named') ↦
          rw good (rw fine (inl (a, s, is, is', refl, refl, refl, refl, named, named')))
    ]
  ]
