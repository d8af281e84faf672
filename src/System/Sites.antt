-- ===== src/System/Sites.antt =====
-- What a step of the threads of live_runtime.cpp and task_executor.cpp makes of the accounts of the node at
-- which it happens.
use mathlib.Core.Option
use multi_constraint_iot_edg.Common.{
  ℕ, ◌+◌, ◌≤◌, ◌≡◌, refl, sym, ap, subst, true, false, List, [], ◌∷◌, Option, none, some, arith,
  Text, inl, inr, Bool-cases, All, All-append, text_eq, text_eq_refl, text_eq→eq, some-injective,
}
use multi_constraint_iot_edg.Common.Dict.{Dict, lookup, adjust, lookup-adjust}
use multi_constraint_iot_edg.Double.{Double, IsCounted, nought, max_of}
use multi_constraint_iot_edg.Task.{Task}
use multi_constraint_iot_edg.Allocator.{is_viable}
use multi_constraint_iot_edg.Edge.{
  enqueue_task, EdgeNode, can_allocate, allocate_resources, deallocate_resources,
}
use multi_constraint_iot_edg.Scheduler.Order.{IsNext, IsNext-All}
use multi_constraint_iot_edg.System.{
  SchedulingStrategy, Site, Placing, idle, checked, reserved, allocate_for, on_node,
}
use multi_constraint_iot_edg.System.Accounting.{
  part_asked, Resource, cpu, ram, bandwidth, usage, capacity, asked, units, IsMeasured, total,
  tasks_of, reserved_for, IsSettled, recount, promise, hold, release, total-append, total-IsNext,
}

map-some {ℓ} :
    {A : Type ℓ} (f : A → A) (o : Option A) (y : A)
    → Option.map f o ≡ some y
    → (x : A) × (o ≡ some x) × (f x ≡ y)
map-some f none y h = cc
map-some f (some x) y h = (x, refl, some-injective _ _ h)

module _ {W J : Type 0} ⦃d : Double W⦄ (counted : IsCounted W) (roof : Resource → Text → ℕ) where
  open d use {add, sub, le}
  open counted use {limit, amount}

  abbrev pub Settled : Placing W J → Dict (Site W J) → Type 0
  Settled p sites =
      (key : Text) (w : Site W J) → lookup key sites ≡ some w → IsSettled counted roof p key w

  -- A step at one node: what it makes of the node, and why the others stay settled.
  pub Settled-adjust :
      (p p' : Placing W J) (k : Text) (f : Site W J → Site W J) (sites : Dict (Site W J))
      → Settled p sites
      → ((w : Site W J)
          → lookup k sites ≡ some w
          → IsSettled counted roof p k w
          → IsSettled counted roof p' k (f w))
      → ((key : Text) (w : Site W J)
          → text_eq k key ≡ false
          → IsSettled counted roof p key w
          → IsSettled counted roof p' key w)
      → Settled p' (adjust k f sites)
  Settled-adjust p p' k f sites settled at other key w found = elim (Bool-cases (text_eq k key)) [
    | inl same ↦
        let one : k ≡ key = text_eq→eq k key same in
        let (v, before, e) = map-some f (lookup key sites) w (rw (lookup-adjust, same) at found) in
        let here_k : lookup k sites ≡ some v = rw one before in
        subst (λ i. IsSettled counted roof p' i w) one
          (subst (IsSettled counted roof p' k) e (at v here_k (settled k v here_k)))
    | inr apart ↦ other key w apart (settled key w (rw (lookup-adjust, apart) at found))
  ]

  can_allocate-le :
      (r : Resource) (task : Task W J) (e : EdgeNode W J)
      → is_viable task e ≡ true
      → le (asked r task) (sub (capacity r e) (usage r e)) ≡ true
  unfolding is_viable can_allocate
  can_allocate-le cpu task e h = ground arith
  can_allocate-le ram task e h = ground arith
  can_allocate-le bandwidth task e h = ground arith

  usage-allocate :
      (r : Resource) (task : Task W J) (e : EdgeNode W J)
      → usage r (allocate_for task e) ≡ add (usage r e) (asked r task)
  unfolding allocate_resources
  usage-allocate cpu task e = refl
  usage-allocate ram task e = refl
  usage-allocate bandwidth task e = refl

  abbrev pub IsRelease : Task W J → EdgeNode W J → EdgeNode W J → Type 0
  IsRelease task e e' =
      (r : Resource)
      → (usage r e' ≡ max_of nought (sub (usage r e) (asked r task)))
        × (capacity r e' ≡ capacity r e)

  pub deallocate-IsRelease :
      (task : Task W J) (e : EdgeNode W J)
      → IsRelease task e (
          deallocate_resources task.requirements.cpu_percent task.requirements.ram_mb
            task.requirements.bandwidth_mbps e)
  unfolding deallocate_resources
  deallocate-IsRelease task e cpu = (refl, refl)
  deallocate-IsRelease task e ram = (refl, refl)
  deallocate-IsRelease task e bandwidth = (refl, refl)

  -- The loop promises a node that it has found viable to a task.
  pub check-IsSettled :
      (task : Task W J) (k : Text) (w : Site W J)
      → IsMeasured counted task
      → is_viable task w.node ≡ true
      → IsSettled counted roof idle k w
      → IsSettled counted roof (checked k task) k w
  check-IsSettled task k w measured viable settled = record {
    accounts = λ r.
        let (whole, small) = measured r in
        rw (text_eq_refl k) (
          promise counted _ (units counted r task) _ _ (settled.accounts r) small
            (rw (sym whole) (can_allocate-le r task w.node viable)));
    queue = settled.queue;
    worker = settled.worker;
  }

  -- It reserves what was promised.
  pub reserve-IsSettled :
      (task : Task W J) (k : Text) (w : Site W J)
      → IsMeasured counted task
      → IsSettled counted roof (checked k task) k w
      → IsSettled counted roof (reserved k task) k (on_node (allocate_for task) w)
  unfolding allocate_resources
  reserve-IsSettled task k w measured settled = record {
    accounts = λ r.
        let (whole, small) = measured r in
        let promised = rw (text_eq_refl k) at (settled.accounts r) in
        rw (usage-allocate r task w.node, whole, text_eq_refl k)
          (recount counted _ _ 0 _ _ _ (hold counted _ (units counted r task) _ _ promised)
            (omega arith) refl);
    queue = settled.queue;
    worker = settled.worker;
  }

  units-same :
      (r : Resource) (t u : Task W J)
      → t.requirements ≡ u.requirements
      → units counted r t ≡ units counted r u
  units-same r t u same = ap (λ q. counted.count (part_asked r q)) same

  IsMeasured-same :
      (t u : Task W J)
      → t.requirements ≡ u.requirements
      → IsMeasured counted u
      → IsMeasured counted t
  IsMeasured-same t u same measured =
      subst
        (λ q.
          (r : Resource)
          → (part_asked r q ≡ amount (counted.count (part_asked r q)))
            × (counted.count (part_asked r q) ≤ limit))
        (sym same) measured

  -- It hands the task to the queue.
  pub schedule-IsSettled :
      (task queued : Task W J) (k : Text) (w : Site W J)
      → IsMeasured counted task
      → queued.requirements ≡ task.requirements
      → IsSettled counted roof (reserved k task) k w
      → IsSettled counted roof idle k (on_node (enqueue_task queued) w)
  unfolding enqueue_task
  schedule-IsSettled task queued k w measured same settled = record {
    accounts = λ r.
        recount counted _ _ 0 _ _ _ (rw (text_eq_refl k) at (settled.accounts r))
          (omega (
            arith,
            total-append counted r w.node.task_queue (queued ∷ []),
            units-same r queued task same,
          ))
          refl;
    queue = All-append _ _ _ settled.queue (IsMeasured-same queued task same measured, tt);
    worker = settled.worker;
  }

  -- A worker without a task takes one.
  pub take-IsSettled :
      (p : Placing W J) (k : Text) (w : Site W J) (task begun : Task W J) (s : SchedulingStrategy)
      (rest : List (Task W J))
      → w.running ≡ none
      → IsNext s w.node.task_queue task rest
      → begun.requirements ≡ task.requirements
      → IsSettled counted roof p k w
      → IsSettled counted roof p k
          (record { node = record w.node { task_queue = rest }; running = some begun })
  take-IsSettled p k w task begun s rest free chosen same settled =
      let (measured, others) = IsNext-All (IsMeasured counted) s _ task rest chosen settled.queue in
      record {
        accounts = λ r.
            recount counted _ _ _ _ _ _ (settled.accounts r)
              (omega (
                arith,
                ap (λ o. total counted r (tasks_of counted o)) free,
                total-IsNext counted r s w.node.task_queue task rest chosen,
                units-same r begun task same,
              ))
              refl;
        queue = others;
        worker = (IsMeasured-same begun task same measured, tt);
      }

  -- A worker gives back what its task has asked for.
  pub finish-IsSettled :
      (p : Placing W J) (k : Text) (w : Site W J) (e : EdgeNode W J) (task : Task W J)
      → w.running ≡ some task
      → IsRelease task w.node e
      → e.task_queue ≡ w.node.task_queue
      → IsSettled counted roof p k w
      → IsSettled counted roof p k (record { node = e; running = none })
  finish-IsSettled p k w e task busy released kept settled = record {
    accounts = λ r.
        let (measured, _) =
          subst (λ o. All (IsMeasured counted) (tasks_of counted o)) busy settled.worker in
        let (whole, small) = measured r in
        let before =
          recount counted _
            (total counted r w.node.task_queue + reserved_for counted r k p + units counted r task)
            _ _ _ _ (settled.accounts r)
            (omega (arith, ap (λ o. total counted r (tasks_of counted o)) busy)) refl in
        rw ((released r).0, (released r).1, whole)
          (recount counted _ _ _ _ _ _ (release counted _ (units counted r task) _ _ _ before)
            (omega (arith, ap (total counted r) kept)) refl);
    queue = rw kept settled.queue;
    worker = tt;
  }
