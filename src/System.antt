-- ===== src/System.antt =====
-- The live workload as a system of threads: the loop of live_runtime.cpp that places tasks, by
-- resource_allocator.cpp and task_scheduler.cpp, and one worker of task_executor.cpp for each edge node.
-- A step is what a thread does under one lock, so that every interleaving of the threads is a sequence of
-- steps. The loop holds no lock between the test of a node (`canAllocate`), the reservation
-- (`allocateResources`) and the entry into the queue (`scheduleTask`). `scheduleTask` and `getNextTask`
-- hold the scheduler's lock throughout, so each is one step; what a worker does alone with its task, at
-- the start and at the end of an execution, is one step as well.
pub mod Accounting
pub mod Sites
pub mod Interleaving
pub mod Safety
use multi_constraint_iot_edg.Common.{ℕ, ◌≡◌, Bool, true, Option, none, some, Text, ℤ}
use multi_constraint_iot_edg.Common.Dict.{Dict, lookup, adjust}
use multi_constraint_iot_edg.Double.{Double}
use multi_constraint_iot_edg.Task.{Task}
use multi_constraint_iot_edg.Edge.{EdgeNode, allocate_resources, set_available}
use multi_constraint_iot_edg.Allocator.{is_viable}
use multi_constraint_iot_edg.Database.{DatabaseLog}
use multi_constraint_iot_edg.Scheduler.{
  Readings, TaskScheduler, SchedulingStrategy, set_strategy, schedule_task, get_next_task,
}
use multi_constraint_iot_edg.Executor.{TaskExecutor, Execution, begin_execution, finish_execution}

-- A node with its worker, which executes at most one task at a time.
pub record Site (W J : Type 0) : Type 0 where
  pub node : EdgeNode W J
  pub running : Option (Task W J)

-- How far the loop has come with a task: it has found the node under the key viable, or has reserved
-- the node's resources but not yet put the task into its queue.
pub data Placing (W J : Type 0) : Type 0 where
  idle : Placing W J
  checked reserved : Text → Task W J → Placing W J

pub record System (W J : Type 0) : Type 0 where
  pub sites : Dict (Site W J)
  pub placing : Placing W J
  pub scheduler : TaskScheduler
  pub executor : TaskExecutor W J
  pub database : DatabaseLog W J

module _ {W J : Type 0} where
  abbrev pub on_node : (EdgeNode W J → EdgeNode W J) → Site W J → Site W J
  on_node f w = record w { node = f w.node }

  abbrev pub execution : EdgeNode W J → Task W J → System W J → Execution W J
  execution e task s = record {
    edge = e;
    task = task;
    executor = s.executor;
    database = s.database;
  }

module _ {W J : Type 0} ⦃d : Double W⦄ where
  abbrev pub allocate_for : Task W J → EdgeNode W J → EdgeNode W J
  allocate_for task =
      allocate_resources task.requirements.cpu_percent task.requirements.ram_mb
        task.requirements.bandwidth_mbps

  -- The worker of the node under a key begins to execute a task, and has left `e` of the node.
  abbrev pub begun : Text → EdgeNode W J → Task W J → System W J → System W J
  begun key e task s =
      let x = begin_execution (execution e task s) in
      record s {
        sites = adjust key (λ old. record { node = e; running = some x.task }) s.sites;
        executor = x.executor;
        database = x.database;
      }

  abbrev pub finished : ℕ → ℤ → Text → EdgeNode W J → Task W J → System W J → System W J
  finished now estimated_ms key e task s =
      let x = finish_execution now estimated_ms (execution e task s) in
      record s {
        sites = adjust key (λ old. record { node = x.edge; running = none }) s.sites;
        executor = x.executor;
        database = x.database;
      }

  -- The tasks that the loop is given are those that `Offered` describes. Which of the viable nodes is
  -- checked is the strategy's choice, which is left open here.
  pub data Step (Offered : Task W J → Type 0) (s : System W J) : System W J → Type 0 where
    check :
        (task : Task W J) (key : Text) (w : Site W J)
        → Offered task
        → s.placing ≡ idle
        → lookup key s.sites ≡ some w
        → is_viable task w.node ≡ true
        → Step Offered s (record s { placing = checked key task })
    reserve :
        (task : Task W J) (key : Text)
        → s.placing ≡ checked key task
        → Step Offered s (record s {
          sites = adjust key (on_node (allocate_for task)) s.sites;
          placing = reserved key task;
        })
    schedule :
        (task : Task W J) (key : Text) (w : Site W J) (scheduler : TaskScheduler) (e : EdgeNode W J)
        (queued : Option (Task W J))
        → s.placing ≡ reserved key task
        → lookup key s.sites ≡ some w
        → schedule_task s.scheduler (some w.node) (some task) ≡ (scheduler, some e, queued)
        → Step Offered s (record s {
          sites = adjust key (on_node (λ old. e)) s.sites;
          placing = idle;
          scheduler = scheduler;
        })
    -- The worker takes a task and begins to execute it.
    take :
        (now : Readings) (key : Text) (w : Site W J) (task : Task W J) (e : EdgeNode W J)
        → lookup key s.sites ≡ some w
        → w.running ≡ none
        → get_next_task now s.scheduler (some w.node) ≡ (some task, some e)
        → Step Offered s (begun key e task s)
    -- The worker ends the execution, after its sleep of `estimated_ms`.
    finish :
        (now : ℕ) (estimated_ms : ℤ) (key : Text) (w : Site W J) (task : Task W J)
        → lookup key s.sites ≡ some w
        → w.running ≡ some task
        → Step Offered s (finished now estimated_ms key w.node task s)
    -- Another thread changes the scheduling algorithm, or marks a node as failed or recovered.
    configure :
        (strategy : SchedulingStrategy)
        → Step Offered s (record s { scheduler = set_strategy strategy s.scheduler })
    mark :
        (available : Bool) (key : Text)
        → Step Offered s
            (record s { sites = adjust key (on_node (set_available available)) s.sites })

  pub data Reach (Offered : Task W J → Type 0) (start : System W J) : System W J → Type 0 where
    here : Reach Offered start start
    next : {s t : System W J} → Reach Offered start s → Step Offered s t → Reach Offered start t
