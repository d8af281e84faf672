-- ===== src/System/Accounting.antt =====
-- What the threads of live_runtime.cpp and task_executor.cpp keep of each resource of each node, in every
-- interleaving: the usage of a node is what its tasks have asked for, neither more nor less.
use multi_constraint_iot_edg.Common.{
  ◌-◌, ℕ, ◌+◌, ◌≤◌, ◌≡◌, refl, sym, ◌∙◌, ap, true, List, [], ◌∷◌, ◌++◌, Option, none, some, arith,
  Text, All, text_eq, if◌then◌else◌,
}
use multi_constraint_iot_edg.Common.Dict.{lookup}
use multi_constraint_iot_edg.Double.{Double, IsCounted, nought, max_of}
use multi_constraint_iot_edg.Task.{Task, TaskRequirements}
use multi_constraint_iot_edg.Edge.{ResourceUsage, ResourceCapacity, EdgeNode}
use multi_constraint_iot_edg.Scheduler.{
  SchedulingStrategy, fifo, priority_based, earliest_deadline_first, round_robin_time_slice,
  unknown,
}
use multi_constraint_iot_edg.Scheduler.Selection.{Selects}
use multi_constraint_iot_edg.Scheduler.Order.{IsNext}
use multi_constraint_iot_edg.System.{System, Site, Placing, idle, checked, reserved}

pub data Resource : Type 0 where
  cpu ram bandwidth : Resource

module _ {W : Type 0} where
  abbrev pub part_used : Resource → ResourceUsage W → W
  part_used cpu u = u.cpu_percent
  part_used ram u = u.ram_mb
  part_used bandwidth u = u.bandwidth_mbps

  abbrev pub part_offered : Resource → ResourceCapacity W → W
  part_offered cpu c = c.cpu_percent
  part_offered ram c = c.ram_mb
  part_offered bandwidth c = c.bandwidth_mbps

  abbrev pub part_asked : Resource → TaskRequirements W → W
  part_asked cpu q = q.cpu_percent
  part_asked ram q = q.ram_mb
  part_asked bandwidth q = q.bandwidth_mbps

module _ {W J : Type 0} where
  abbrev pub usage : Resource → EdgeNode W J → W
  usage r e = part_used r e.current_usage

  abbrev pub capacity : Resource → EdgeNode W J → W
  capacity r e = part_offered r e.capacity

  abbrev pub asked : Resource → Task W J → W
  asked r task = part_asked r task.requirements

module _ {W : Type 0} ⦃d : Double W⦄ (counted : IsCounted W) where
  open d use {add, sub, le}
  open counted use {limit, amount, count}

  module _ {J : Type 0} where
    -- The units of a resource that a task asks for.
    abbrev pub units : Resource → Task W J → ℕ
    units r task = count (asked r task)

    -- The amounts that a task asks for are whole numbers of units.
    abbrev pub IsMeasured : Task W J → Type 0
    IsMeasured task =
        (r : Resource) → (asked r task ≡ amount (units r task)) × (units r task ≤ limit)

    abbrev pub total : Resource → List (Task W J) → ℕ
    total r [] = 0
    total r (t ∷ ts) = units r t + total r ts

    abbrev pub tasks_of : Option (Task W J) → List (Task W J)
    tasks_of none = []
    tasks_of (some t) = t ∷ []

    -- What the tasks of a site ask for, those that wait and the one that runs.
    abbrev pub load : Resource → Site W J → ℕ
    load r w = total r w.node.task_queue + total r (tasks_of w.running)

    -- What the loop has reserved on the node under a key for a task that is not in the queue yet, and
    -- what it has checked but not yet reserved.
    abbrev pub reserved_for : Resource → Text → Placing W J → ℕ
    reserved_for r key (reserved k t) = if text_eq k key then units r t else 0
    reserved_for r key (checked k t) = 0
    reserved_for r key idle = 0

    abbrev pub checked_for : Resource → Text → Placing W J → ℕ
    checked_for r key (checked k t) = if text_eq k key then units r t else 0
    checked_for r key (reserved k t) = 0
    checked_for r key idle = 0

    abbrev pub placed : Placing W J → List (Task W J)
    placed (checked k t) = t ∷ []
    placed (reserved k t) = t ∷ []
    placed idle = []

  -- No amount that the test of a node lets through takes the sum above `roof` units. A capacity of
  -- `roof` units has this property; one that is not a whole number has it of a larger number.
  abbrev pub HasRoof : W → ℕ → Type 0
  HasRoof c roof =
      (u x : ℕ) → u ≤ roof → x ≤ limit → le (amount x) (sub c (amount u)) ≡ true → u + x ≤ roof

  pub amount-HasRoof : (n : ℕ) → n ≤ limit → HasRoof (amount n) n
  amount-HasRoof n small u x h k fits =
      let left : sub (amount n) (amount u) ≡ amount (n - u) = counted.amount-sub n u h small in
      let test = counted.amount-le x (n - u) k (omega (arith, small)) in
      let lower : le (amount x) (amount (n - u)) ≡ true = rw (sym left) fits in ground (arith, test)

  -- One resource of a node, where `held` units are taken and `promised` units have been checked, and no
  -- more than `roof` units are ever taken.
  pub record IsAccounted (roof held promised : ℕ) (c u : W) : Type 0 where
    pub within : roof ≤ limit
    pub roofed : HasRoof c roof
    pub exact : u ≡ amount held
    pub room : held + promised ≤ roof

  -- A site: each resource is accounted for, and the tasks ask for whole numbers of units.
  pub record IsSettled (roof : Resource → Text → ℕ) {J : Type 0} (p : Placing W J) (key : Text)
      (w : Site W J) : Type 0 where
    pub accounts :
        (r : Resource)
        → IsAccounted
            (roof r key)
            (load r w + reserved_for r key p)
            (checked_for r key p)
            (capacity r w.node)
            (usage r w.node)
    pub queue : All IsMeasured w.node.task_queue
    pub worker : All IsMeasured (tasks_of w.running)

  abbrev pub IsSound : (Resource → Text → ℕ) → {J : Type 0} → System W J → Type 0
  IsSound roof s =
      All IsMeasured (placed s.placing)
      × ((key : Text) (w : Site W _) → lookup key s.sites ≡ some w → IsSettled roof s.placing key w)

  module _ {J : Type 0} where
    pub total-append :
        (r : Resource) (xs ys : List (Task W J)) → total r (xs ++ ys) ≡ total r xs + total r ys
    total-append r [] ys = omega arith
    total-append r (x ∷ xs) ys = omega (arith, total-append r xs ys)

    total-Selects :
        (r : Resource) (Over Beside : Task W J → Task W J → Type 0) (q : List (Task W J))
        (t : Task W J) (rest : List (Task W J))
        → Selects Over Beside q t rest
        → total r q ≡ units r t + total r rest
    total-Selects r Over Beside q t rest h =
        rw (h.whole, h.others)
          (omega (arith, total-append r h.before (t ∷ h.behind), total-append r h.before h.behind))

    pub total-IsNext :
        (r : Resource) (s : SchedulingStrategy) (q : List (Task W J)) (t : Task W J)
        (rest : List (Task W J))
        → IsNext s q t rest
        → total r q ≡ units r t + total r rest
    total-IsNext r fifo q t rest h = rw h refl
    total-IsNext r priority_based q t rest h = total-Selects r _ _ q t rest h
    total-IsNext r earliest_deadline_first q t rest h = total-Selects r _ _ q t rest h
    total-IsNext r round_robin_time_slice q t rest h = rw h refl
    total-IsNext r unknown q t rest h = rw h refl

  pub recount :
      {roof : ℕ} (held held' promised promised' : ℕ) (c u : W)
      → IsAccounted roof held promised c u
      → held ≡ held'
      → promised ≡ promised'
      → IsAccounted roof held' promised' c u
  recount held held' promised promised' c u a h p = rw (sym h, sym p) a

  pub promise :
      {roof : ℕ} (held x : ℕ) (c u : W)
      → IsAccounted roof held 0 c u
      → x ≤ limit
      → le (amount x) (sub c u) ≡ true
      → IsAccounted roof held x c u
  promise held x c u a small fits = record {
    within = a.within;
    roofed = a.roofed;
    exact = a.exact;
    room = a.roofed held x (omega (arith, a.room)) small (rw (sym a.exact) fits);
  }

  pub hold :
      {roof : ℕ} (held x : ℕ) (c u : W)
      → IsAccounted roof held x c u
      → IsAccounted roof (held + x) 0 c (add u (amount x))
  hold held x c u a = record {
    within = a.within;
    roofed = a.roofed;
    exact = rw a.exact (counted.amount-add held x (omega (arith, a.room, a.within)));
    room = omega (arith, a.room);
  }

  max_of-amount : (n : ℕ) → n ≤ limit → max_of nought (amount n) ≡ amount n
  max_of-amount n h = ground (arith, sym counted.amount_zero, counted.amount-lt 0 n (omega arith) h)

  pub release :
      {roof : ℕ} (held x promised : ℕ) (c u : W)
      → IsAccounted roof (held + x) promised c u
      → IsAccounted roof held promised c (max_of nought (sub u (amount x)))
  release held x promised c u a = record {
    within = a.within;
    roofed = a.roofed;
    exact =
        let left : sub u (amount x) ≡ amount held = rw a.exact (
          counted.amount-sub (held + x) x (omega arith) (omega (arith, a.room, a.within))
          ∙ ap amount (omega arith)) in
        rw left (max_of-amount held (omega (arith, a.room, a.within)));
    room = omega (arith, a.room);
  }
