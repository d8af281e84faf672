-- ===== src/Examples/Threads.antt =====
-- A workload of one node and one task, step by step, and the theorems on the threads applied to it.
use multi_constraint_iot_edg.Common.{
  ◌-ℤ◌, text_eq, ◌≡◌, refl, ℕ, [], ◌∷◌, some, none, codes, arith, pos, Text, true,
}
use multi_constraint_iot_edg.Common.Dict.{adjust, lookup-adjust_self, Values-lookup, lookup}
use multi_constraint_iot_edg.Double.Fixed.{Fixed, Fixed-IsCounted, fixed_double}
use multi_constraint_iot_edg.Double.{◌≼◌, nought}
use multi_constraint_iot_edg.Allocator.{is_viable}
use multi_constraint_iot_edg.Scheduler.Selection.{pick_by}
use multi_constraint_iot_edg.Task.{TaskStatus, set_status, Task}
use multi_constraint_iot_edg.Edge.{
  can_allocate, allocate_resources, deallocate_resources, dequeue_task, has_tasks_in_queue,
  enqueue_task, EdgeNode, new_edge_node,
}
use multi_constraint_iot_edg.Scheduler.{
  restore, drain, schedule_task, get_next_task, new_task_scheduler, SchedulingStrategy,
}
use multi_constraint_iot_edg.Executor.{finish_execution, begin_execution, new_task_executor}
use multi_constraint_iot_edg.System.{
  on_node, begun, finished, allocate_for, System, Site, idle, checked, reserved, Reach, here, next,
  check, reserve, schedule, take, finish,
}
use multi_constraint_iot_edg.System.Accounting.{
  capacity, usage, amount-HasRoof, Resource, cpu, ram, bandwidth, IsMeasured, IsSound,
}
use multi_constraint_iot_edg.System.Safety.{IsFresh, Reach-IsSound, Reach-unused, Reach-within}
use multi_constraint_iot_edg.Examples.{plain_task}
open fixed_double use {literal}

abbrev offered_roof : Resource → Text → ℕ
offered_roof r key = 1_000_000

abbrev fresh_node : EdgeNode Fixed ℕ
fresh_node = new_edge_node (codes "E01") (record {
  cpu_percent = literal 100 1;
  ram_mb = literal 100 1;
  bandwidth_mbps = literal 100 1;
  latency_ms = pos 10;
})

abbrev fresh_system : System Fixed ℕ
fresh_system = record {
  sites = (codes "E01", record { node = fresh_node; running = none }) ∷ [];
  placing = idle;
  scheduler = new_task_scheduler SchedulingStrategy.priority_based;
  executor = new_task_executor;
  database = [];
}

plain_task-IsMeasured : IsMeasured Fixed-IsCounted plain_task
unfolding Fixed-IsCounted
plain_task-IsMeasured cpu = (refl, omega arith)
plain_task-IsMeasured ram = (refl, omega arith)
plain_task-IsMeasured bandwidth = (refl, omega arith)

IsUnused : Site Fixed ℕ → Type 0
IsUnused w =
    (w.running ≡ none)
    × (w.node.task_queue ≡ [])
    × ((r : Resource) → (usage r w.node ≡ nought) × (capacity r w.node ≡ some (pos 1_000_000)))

unused_site :
    (r : Resource) → (usage r fresh_node ≡ nought) × (capacity r fresh_node ≡ some (pos 1_000_000))
unfolding new_edge_node
unused_site cpu = (refl, refl)
unused_site ram = (refl, refl)
unused_site bandwidth = (refl, refl)

site-IsUnused :
    (key : Text) (w : Site Fixed ℕ) → lookup key fresh_system.sites ≡ some w → IsUnused w
unfolding IsUnused new_edge_node
site-IsUnused key w at =
    Values-lookup IsUnused key fresh_system.sites ((refl, refl, unused_site), tt) at

fresh_system-IsFresh : IsFresh Fixed-IsCounted offered_roof fresh_system
unfolding Fixed-IsCounted IsUnused
fresh_system-IsFresh = record {
  free = refl;
  workers = λ key w at. (site-IsUnused key w at).0;
  queues = λ key w at. (site-IsUnused key w at).1;
  unused = λ r key w at. ((site-IsUnused key w at).2 r).0;
  within = λ r key. omega arith;
  roofed = λ r key w at.
      rw ((site-IsUnused key w at).2 r).1 (amount-HasRoof Fixed-IsCounted 1_000_000 (omega arith));
}

-- The loop places the task on the node, whose worker executes it.
abbrev key : Text
key = codes "E01"

abbrev fresh_site : Site Fixed ℕ
fresh_site = record { node = fresh_node; running = none }

abbrev checked_system : System Fixed ℕ
checked_system = record fresh_system { placing = checked key plain_task }

abbrev reserved_system : System Fixed ℕ
reserved_system = record checked_system {
  sites = adjust key (on_node (allocate_for plain_task)) fresh_system.sites;
  placing = reserved key plain_task;
}

abbrev busy_node : EdgeNode Fixed ℕ
busy_node = allocate_for plain_task fresh_node

abbrev queued_task : Task Fixed ℕ
queued_task = set_status TaskStatus.queued plain_task

abbrev queued_node : EdgeNode Fixed ℕ
queued_node = enqueue_task queued_task busy_node

abbrev queued_system : System Fixed ℕ
queued_system = record reserved_system {
  sites = adjust key (on_node (λ old. queued_node)) reserved_system.sites;
  placing = idle;
  scheduler = record fresh_system.scheduler { total_tasks_scheduled = 1 };
}

abbrev running_system : System Fixed ℕ
running_system = begun key busy_node queued_task queued_system

abbrev running_task : Task Fixed ℕ
running_task = set_status TaskStatus.running queued_task

abbrev done_system : System Fixed ℕ
done_system = finished 9_000_000 (pos 4) key busy_node running_task running_system

at_fresh : lookup key fresh_system.sites ≡ some fresh_site
unfolding lookup text_eq
at_fresh = refl

at_reserved : lookup key reserved_system.sites ≡ some (record { node = busy_node; running = none })
at_reserved = lookup-adjust_self key _ fresh_system.sites fresh_site at_fresh

at_queued : lookup key queued_system.sites ≡ some (record { node = queued_node; running = none })
at_queued = lookup-adjust_self key _ reserved_system.sites _ at_reserved

at_running :
    lookup key running_system.sites
    ≡ some (record { node = busy_node; running = some running_task })
unfolding begin_execution
at_running = lookup-adjust_self key _ queued_system.sites _ at_queued

abbrev done_node : EdgeNode Fixed ℕ
done_node =
    deallocate_resources plain_task.requirements.cpu_percent plain_task.requirements.ram_mb
      plain_task.requirements.bandwidth_mbps busy_node

done_queue : done_node.task_queue ≡ []
unfolding deallocate_resources allocate_resources new_edge_node
done_queue = refl

queued_capacity : capacity cpu queued_node ≡ Fixed-IsCounted.amount (offered_roof cpu key)
unfolding enqueue_task allocate_resources new_edge_node Fixed-IsCounted
queued_capacity = refl

at_done : lookup key done_system.sites ≡ some (record { node = done_node; running = none })
unfolding begin_execution finish_execution
at_done = lookup-adjust_self key _ running_system.sites _ at_running

viable : is_viable plain_task fresh_node ≡ true
unfolding is_viable can_allocate new_edge_node ◌-ℤ◌
viable = refl

scheduled :
    schedule_task fresh_system.scheduler (some busy_node) (some plain_task)
    ≡ (queued_system.scheduler, some queued_node, some queued_task)
unfolding schedule_task new_task_scheduler
scheduled = refl

handed :
    get_next_task (λ i. (6_000_000, 6_000_000)) queued_system.scheduler (some queued_node)
    ≡ (some queued_task, some busy_node)
unfolding get_next_task new_task_scheduler has_tasks_in_queue enqueue_task dequeue_task
    allocate_resources new_edge_node drain restore pick_by
handed = refl

abbrev Run : System Fixed ℕ → Type 0
Run = Reach (IsMeasured Fixed-IsCounted) fresh_system

queued_system-Reach : Run queued_system
queued_system-Reach =
    next
      (next (next here (check plain_task key fresh_site plain_task-IsMeasured refl at_fresh viable))
        (reserve plain_task key refl))
      (schedule plain_task key _ _ queued_node _ refl at_reserved scheduled)

done_system-Reach : Run done_system
unfolding begin_execution
done_system-Reach =
    next
      (next queued_system-Reach
        (take (λ i. (6_000_000, 6_000_000)) key _ queued_task busy_node at_queued refl handed))
      (finish 9_000_000 (pos 4) key _ running_task at_running refl)

Reach-IsSound_example : IsSound Fixed-IsCounted offered_roof done_system
Reach-IsSound_example =
    Reach-IsSound Fixed-IsCounted offered_roof (IsMeasured Fixed-IsCounted) (λ t m. m) fresh_system
      done_system fresh_system-IsFresh done_system-Reach

Reach-unused_example : usage cpu done_node ≡ nought
Reach-unused_example =
    Reach-unused Fixed-IsCounted offered_roof (IsMeasured Fixed-IsCounted) (λ t m. m) fresh_system
      done_system cpu key (record { node = done_node; running = none }) fresh_system-IsFresh
      done_system-Reach refl at_done done_queue refl

Reach-within_example : usage cpu queued_node ≼ capacity cpu queued_node
Reach-within_example =
    Reach-within Fixed-IsCounted offered_roof (IsMeasured Fixed-IsCounted) (λ t m. m) fresh_system
      queued_system cpu key (record { node = queued_node; running = none }) fresh_system-IsFresh
      queued_system-Reach at_queued queued_capacity
