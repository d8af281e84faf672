-- ===== src/Lib.antt =====
-- An allocator of IoT tasks to edge nodes. Devices send sensor data; each piece becomes a task, whose
-- requirements come from the profile of the sensor type. The allocator chooses an edge node that has the
-- resources, by one of four strategies, and reserves them there; the scheduler puts the task into the
-- queue of the node, from which a worker takes and executes it and gives the resources back. A monitor
-- holds the nodes, a controller reacts to failures, the database records what happens, and the live
-- runtime runs a workload behind an HTTP interface. The sources are C++ in the root of the repository.
--
-- Which file models which part:
-- - Task: task.h, task.cpp, with Task.Documents for `toJson` and `fromJson`. Edge: edge_node.h,
--   edge_node.cpp, with Edge.Accounting for its resources.
-- - Scheduler: task_scheduler.h, task_scheduler.cpp. Scheduler.Selection is `std::max_element` and the
--   removal, Scheduler.Ranking the comparisons, Scheduler.Order what a call hands out, Scheduler.Service a
--   worker that asks again and again.
-- - Allocator: resource_allocator.h, resource_allocator.cpp. Allocator.Score is the suitability score, its
--   range in Allocator.Bounds,
--   Allocator.Requests `allocateTask` and `allocateTaskWithRetry`, with Allocator.Requests.Agreement; Allocator.Viable is the shared loop,
--   Allocator.Choice an attempt, Allocator.Served a request, Allocator.Capacity what requests preserve.
-- - Monitor: resource_monitor.h, resource_monitor.cpp. Controller: resource_controller.h,
--   resource_controller.cpp, with Controller.Failure (over Controller.Turns and
--   Controller.Reallocation) and Controller.Health.
-- - Manager: task_manager.h, task_manager.cpp, with Manager.Identifiers.
-- - Profile: task_profile.h, task_profile.cpp, with Profile.Loading for what a load leaves.
-- - Executor: task_executor.h, task_executor.cpp, with Executor.Completion and, for the documents on the
--   active tasks, Executor.Active.
-- - Runtime: live_runtime.h, live_runtime.cpp, one turn of its loop; Runtime.Startup is `initialize`,
--   Runtime.Draining the loop that waits for the queues, with Runtime.Ending, and Runtime.Queries the
--   documents for the dashboard. Runtime.Strategies and Runtime.Submission have its properties.
-- - System: the threads of a workload (the loop of live_runtime.cpp, the workers of task_executor.cpp) as
--   a step relation. System.Accounting counts what the tasks hold, System.Sites is one node,
--   System.Interleaving a step, System.Safety every sequence of steps.
-- - Fleet: the nodes and devices that main.cpp and live_runtime.cpp make, with Fleet.Nodes.
-- - Main: main.cpp, with Main.Names, Main.Program for the experiments and the exit codes, and
--   Main.Devices. Main.Turns is a request in the loop of the workload, Main.Workload the whole loop, and
--   Main.RoundRobin the loop with that strategy.
-- - Database: the calls that the parts make, kept in their order. Below it is database_manager.cpp:
--   Statements and Columns have the texts of the SQL, Sqlite what a statement is given, Manager the
--   writing calls, Tasks and Queries the reading ones; Refinement reads the tasks table as a map, and
--   Retrieval says what is read back.
-- - Logger: logger.h, logger.cpp. Mqtt: mqtt_client.h, mqtt_client.cpp, with Mqtt.Delivery.
-- - Config: simulation_config.h, simulation_config.cpp. Http: http_api_server.cpp. Metrics:
--   metrics_collector.h, metrics_collector.cpp. Sensors: iot_device.cpp, sensor_simulator.cpp.
-- - Outcome: how a call ends. Double: the type `double`. Json: the documents. Common: names, lists,
--   integers, texts and maps. Examples: concrete states.
--
-- How the model reads the code. A class is a record of its fields, a method a function on it; `getNextTask`
-- is `get_next_task`. A `shared_ptr` is an `Option`, whose `none` is the null pointer. A node that several
-- classes share lives in the map of the monitor, and a reference to it is its key. A lock that is held for
-- one call is one step; the mutex of the monitor, which a callback may meet again, is a field. The clock,
-- the random generator and `std::stoul` are arguments. So are the libraries: SQLite (`Sqlite`), the JSON
-- library (`Json`, `RealJson`) and Paho (`Paho`) are records of the operations that the code uses; what
-- they document and a theorem needs is a second record (`KeepsTasks`, `IsJson`), which an instance in
-- Examples shows to be possible. `double` is a type `W` with the operations that the code uses; laws of
-- IEEE 754 that a theorem needs are its hypotheses (`IsOrdered`, `IsExact`, and `IsCounted` for whole
-- multiples of a unit), and Double.Fixed shows that they can hold together. Counters wrap at 2 ^ 64.
--
-- Fuel. `drain` gets one round more than there are tasks in the queue, `reallocate_loop` one more than the
-- failed node has; Scheduler.Order and Controller.Failure prove that this is enough. `digits` gets 20
-- rounds, as many digits as a 64-bit number has. `drain_loop` gets 301 turns, one for each 100 ms of its 30
-- seconds and one more; Runtime.Ending proves that this is enough. `wait_loop` is the same loop of
-- main.cpp. The loop over retries recurs on the retries left, the other loops on what they go through.
--
-- Not modelled: sockets and header lines, what is printed, the start and stop of threads, the dashboard,
-- and the messages that the other parts give to the logger. Main takes what the workers do between the
-- calls of the main thread as an argument; System leaves open which viable node is chosen, and has neither
-- the fluctuation of the load nor the reallocation after a failure among its steps.
pub mod Allocator
pub mod Common
pub mod Config
pub mod Controller
pub mod Database
pub mod Double
pub mod Edge
pub mod Examples
pub mod Executor
pub mod Fleet
pub mod Http
pub mod Json
pub mod Logger
pub mod Main
pub mod Manager
pub mod Metrics
pub mod Monitor
pub mod Mqtt
pub mod Outcome
pub mod Profile
pub mod Runtime
pub mod Scheduler
pub mod Sensors
pub mod System
pub mod Task
