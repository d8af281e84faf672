-- ===== src/Main.antt =====
-- main.cpp: the names of the strategies, the workload of an experiment, and how the program ends. The
-- worker threads, the sockets and what is printed are not modelled: what the workers do to the nodes
-- between the calls of the main thread is an argument, and so is whether a socket can be bound.
pub mod Names
pub mod Program
pub mod Devices
pub mod Turns
pub mod Workload
pub mod RoundRobin
use multi_constraint_iot_edg.Common.{
  ℕ, zero, suc, ◌+◌, ◌%◌, ◌==◌, Bool, true, false, List, [], ◌∷◌, ◌++◌, Option, none, some, Text,
  text_eq, codes, if◌then◌else◌, length, get_elem?, ℤ, pos, is_empty,
}
use multi_constraint_iot_edg.Common.Dict.{Dict, lookup, adjust}
use multi_constraint_iot_edg.Double.{Double}
use multi_constraint_iot_edg.Json.{Json, RealJson, object}
use multi_constraint_iot_edg.Outcome.{Outcome, returns, division_by_zero, ◌>>=◌, dereference}
use multi_constraint_iot_edg.Task.{Task}
use multi_constraint_iot_edg.Edge.{EdgeNode}
use multi_constraint_iot_edg.Sensors.{
  Sensor, CameraSensor, Reading, CameraFrame, get_type_string, generate_ultrasonic,
  generate_temperature, generate_humidity, generate_pressure, generate_frame, IotDevice,
}
use multi_constraint_iot_edg.Fleet.{
  Device, ultrasonic, temperature, humidity, pressure, camera, repeat_from,
}
use multi_constraint_iot_edg.Manager.{TaskManager, create_task_from_sensor_data}
use multi_constraint_iot_edg.Profile.{Profiles, get_requirements}
use multi_constraint_iot_edg.Monitor.{new_resource_monitor, put_nodes, update_resource_metrics}
use multi_constraint_iot_edg.Database.{
  DatabaseLog, record_call, save_task, save_allocation, save_allocation_failure,
}
use multi_constraint_iot_edg.Allocator.{AllocationStrategy, AllocationResult, Nodes}
use multi_constraint_iot_edg.Allocator.Requests.{Cluster, allocate_task_with_retry}
use multi_constraint_iot_edg.Scheduler.{TaskScheduler, SchedulingStrategy, schedule_task}

unfoldable pub strategy_from_string : Text → AllocationStrategy
strategy_from_string name =
    if text_eq name (codes "round_robin")
    then AllocationStrategy.round_robin
    else if text_eq name (codes "least_load")
    then AllocationStrategy.least_load
    else if text_eq name (codes "priority_based")
    then AllocationStrategy.priority_based
    else AllocationStrategy.multi_constraint

unfoldable pub strategy_to_label : AllocationStrategy → Text
strategy_to_label AllocationStrategy.round_robin = codes "Round Robin"
strategy_to_label AllocationStrategy.least_load = codes "Least Load"
strategy_to_label AllocationStrategy.priority_based = codes "Priority Based"
strategy_to_label AllocationStrategy.multi_constraint = codes "Multi-Constraint"
strategy_to_label AllocationStrategy.unknown = codes "Unknown"

unfoldable pub scheduling_of_name : Text → SchedulingStrategy
scheduling_of_name name =
    if text_eq name (codes "fifo")
    then SchedulingStrategy.fifo
    else if text_eq name (codes "edf")
    then SchedulingStrategy.earliest_deadline_first
    else if text_eq name (codes "round_robin")
    then SchedulingStrategy.round_robin_time_slice
    else SchedulingStrategy.priority_based

unfoldable pub scheduling_to_label : SchedulingStrategy → Text
scheduling_to_label SchedulingStrategy.fifo = codes "FIFO"
scheduling_to_label SchedulingStrategy.priority_based = codes "Priority Based"
scheduling_to_label SchedulingStrategy.earliest_deadline_first =
    codes "Earliest Deadline First (EDF)"
scheduling_to_label SchedulingStrategy.round_robin_time_slice = codes "Round Robin Time Slice"
scheduling_to_label SchedulingStrategy.unknown = codes "Unknown"

-- What the main thread works on while it places tasks.
pub record Experiment (W J : Type 0) : Type 0 where
  pub devices : List (Device W)
  pub manager : TaskManager W J
  pub cluster : Cluster W J
  pub scheduler : TaskScheduler

-- The surroundings of a turn: the clock, the time of day, the generators of the devices and of the nodes,
-- and what the worker threads do to the nodes before the turn and while a request waits.
pub record Surroundings (W J : Type 0) : Type 0 where
  pub now : ℕ
  pub time : Text
  pub draw : W → W → W
  pub node_draws : Text → W × W
  pub before : Nodes W J → Nodes W J
  pub others : ℕ → Nodes W J → Nodes W J

module _ {W J : Type 0} ⦃json : Json J⦄ ⦃real : RealJson W J⦄ where
  open json use {of_text, of_int}

  unfoldable pub payload_of : Reading W → J
  payload_of r = object (
      (codes "device_id", of_text r.device_id)
      ∷ (codes "sensor_type", of_text r.sensor_type)
      ∷ (r.key, real.of_real r.value)
      ∷ (codes "timestamp", of_text r.timestamp)
      ∷ [])

module _ {J : Type 0} ⦃json : Json J⦄ where
  open json use {of_text, of_int}

  unfoldable pub payload_of_frame : CameraFrame → J
  payload_of_frame f = object (
      (codes "device_id", of_text f.device_id)
      ∷ (codes "sensor_type", of_text f.sensor_type)
      ∷ (codes "frame_number", of_int (pos f.frame_number))
      ∷ (codes "resolution_width", of_int (pos f.resolution_width))
      ∷ (codes "resolution_height", of_int (pos f.resolution_height))
      ∷ (codes "timestamp", of_text f.timestamp)
      ∷ [])

module _ {W : Type 0} where
  abbrev pub device_part : Device W → IotDevice W
  device_part (ultrasonic s) = s.device
  device_part (temperature s) = s.device
  device_part (humidity s) = s.device
  device_part (pressure s) = s.device
  device_part (camera s) = s.device

module _ {W J : Type 0} ⦃d : Double W⦄ ⦃json : Json J⦄ ⦃real : RealJson W J⦄ where
  unfoldable pub generate_sensor_data : (W → W → W) → Text → Device W → J × Device W
  generate_sensor_data draw time (ultrasonic s) =
      let (r, s') = generate_ultrasonic draw time s in (payload_of r, ultrasonic s')
  generate_sensor_data draw time (temperature s) =
      let (r, s') = generate_temperature draw time s in (payload_of r, temperature s')
  generate_sensor_data draw time (humidity s) =
      let (r, s') = generate_humidity draw time s in (payload_of r, humidity s')
  generate_sensor_data draw time (pressure s) =
      let (r, s') = generate_pressure draw time s in (payload_of r, pressure s')
  generate_sensor_data draw time (camera s) =
      let (f, s') = generate_frame time s in (payload_of_frame f, camera s')

module _ {W : Type 0} where
  unfoldable pub set_device : ℕ → Device W → List (Device W) → List (Device W)
  set_device i v [] = []
  set_device zero v (u ∷ us) = v ∷ us
  set_device (suc i) v (u ∷ us) = u ∷ set_device i v us

module _ {W J : Type 0} where
  unfoldable pub put_node : Text → Option (EdgeNode W J) → Nodes W J → Nodes W J
  put_node key none nodes = nodes
  put_node key (some e) nodes = adjust key (λ old. e) nodes

  -- The end of a request: the task goes to the node that the result names, and the database is told.
  unfoldable pub enqueue_result :
      Text → AllocationResult W → Task W J → Cluster W J → Experiment W J → Experiment W J
  unfolding put_node
  enqueue_result strategy result task c x =
      let (s, edge, queued) =
        schedule_task x.scheduler (lookup result.edge_id c.nodes) (some task) in
      if result.success
      then record x {
        scheduler = s;
        cluster = record c {
          nodes = put_node result.edge_id edge c.nodes;
          database =
              record_call (save_allocation task.task_id result.edge_id result.score strategy)
                c.database;
        };
      }
      else record x {
        cluster = record c {
          database = record_call (save_allocation_failure task.task_id result.reason) c.database;
        };
      }

module _ {W J : Type 0} ⦃d : Double W⦄ where
  -- The background load, in every hundredth turn.
  unfoldable pub fluctuate_at : ℕ → (Text → W × W) → Experiment W J → Outcome (Experiment W J)
  fluctuate_at i draws x =
      if i % 100 == 0
      then (update_resource_metrics draws (put_nodes x.cluster.nodes new_resource_monitor) >>= λ m.
          returns (record x { cluster = record x.cluster { nodes = m.edge_nodes } }))
      else returns x

module _ {W J : Type 0} ⦃d : Double W⦄ ⦃json : Json J⦄ ⦃real : RealJson W J⦄ (profiles : Profiles W)
    (strategy : Text) where
  -- A turn for the device at a position: a reading, a task for it, and a request with 200 retries.
  run_device : Surroundings W J → ℕ → ℕ → Device W → Experiment W J → Outcome (Experiment W J)
  run_device s i position device x =
      let (data_of_sensor, device') = generate_sensor_data s.draw s.time device in
      let (task, manager) =
        create_task_from_sensor_data s.now (get_requirements profiles) none
          (device_part device).device_id (get_type_string (device_part device).type) data_of_sensor
          x.manager in
      let cluster = record x.cluster {
        nodes = s.before x.cluster.nodes;
        database = record_call (save_task task) x.cluster.database;
      } in
      let ready = record x { devices = set_device position device' x.devices; manager = manager } in
      allocate_task_with_retry s.others 200 task cluster >>= λ (result, task', c).
      fluctuate_at i s.node_draws (enqueue_result strategy result task' c ready)

  -- The turn `i` of the loop: `devices[i % devices.size()]`.
  unfoldable pub run_turn : (ℕ → Surroundings W J) → ℕ → Experiment W J → Outcome (Experiment W J)
  unfolding run_device
  run_turn around i x =
      if is_empty x.devices
      then division_by_zero
      else (dereference (get_elem? x.devices (i % length x.devices)) >>= λ device.
          run_device (around i) i (i % length x.devices) device x)

  unfoldable pub run_workload :
      (ℕ → Surroundings W J) → ℕ → Experiment W J → Outcome (Experiment W J)
  run_workload around task_count x = repeat_from (run_turn around) task_count 0 x
