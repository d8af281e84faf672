-- ===== src/Fleet.antt =====
-- The nodes and devices of a workload: `createEdgeNodes` and `createDevices` of main.cpp, and `makeEdges`
-- and `makeDevices` of live_runtime.cpp, which do the same. The draws of the generators are arguments.
pub mod Nodes
use multi_constraint_iot_edg.Common.{
  ℕ, zero, suc, ◌+◌, ◌%◌, List, [], ◌∷◌, ◌++◌, Option, none, some, Text, codes, ℤ, get_elem?,
}
use multi_constraint_iot_edg.Double.{Double}
use multi_constraint_iot_edg.Outcome.{Outcome, returns, ◌>>=◌}
use multi_constraint_iot_edg.Edge.{EdgeNode, new_edge_node}
use multi_constraint_iot_edg.Monitor.{ResourceMonitor, register_edge_node}
use multi_constraint_iot_edg.Manager.{padded, decimal}
use multi_constraint_iot_edg.Sensors.{
  DeviceType, IotDevice, Sensor, CameraSensor, new_iot_device, get_type_string, ultrasonic_sensor,
  temperature_sensor, humidity_sensor, pressure_sensor,
}
use multi_constraint_iot_edg.Sensors as Sensors
use multi_constraint_iot_edg.Database.Sqlite.{Sqlite}
use multi_constraint_iot_edg.Database.Manager.{DatabaseManager, save_edge_node, save_device}

unfoldable pub edge_id_of : ℕ → Text
edge_id_of n = codes "E" ++ padded 2 (decimal n)

unfoldable pub device_id_of : ℕ → Text
device_id_of n = codes "DEV" ++ padded 4 (decimal n)

-- A loop that counts from `i` for as many turns as are left.
unfoldable pub repeat_from {ℓ} : {S : Type ℓ} → (ℕ → S → Outcome S) → ℕ → ℕ → S → Outcome S
repeat_from body zero i s = returns s
repeat_from body (suc left) i s = body i s >>= λ next. repeat_from body left (suc i) next

pub record Fleet (W J D : Type 0) : Type 0 where
  pub nodes : List (EdgeNode W J)
  pub monitor : ResourceMonitor W J
  pub manager : DatabaseManager D

module _ {W J : Type 0} ⦃d : Double W⦄ where
  open d use {literal}

  -- The node of the turn `i`, with the RAM, the bandwidth and the latency that are drawn in it.
  unfoldable pub fleet_node : (ℕ → W × W × ℤ) → ℕ → EdgeNode W J
  fleet_node draw i =
      let (ram, bandwidth, latency) = draw i in
      new_edge_node (edge_id_of (i + 1)) (record {
        cpu_percent = literal 100 1;
        ram_mb = ram;
        bandwidth_mbps = bandwidth;
        latency_ms = latency;
      })

module _ {W J D R : Type 0} ⦃d : Double W⦄ (sqlite : Sqlite W D R) where
  add_edge : (ℕ → W × W × ℤ) → ℕ → Fleet W J D → Outcome (Fleet W J D)
  add_edge draw i f =
      let node = fleet_node draw i in
      register_edge_node (some node) f.monitor >>= λ monitor. returns (record {
        nodes = f.nodes ++ node ∷ [];
        monitor = monitor;
        manager = (save_edge_node sqlite (some node) f.manager).0;
      })

  unfoldable pub create_edge_nodes :
      (ℕ → W × W × ℤ) → ℕ → ResourceMonitor W J → DatabaseManager D → Outcome (Fleet W J D)
  unfolding add_edge
  create_edge_nodes draw count monitor manager =
      repeat_from (add_edge draw) count 0
        (record { nodes = []; monitor = monitor; manager = manager })

-- A device of one of the kinds that the program simulates.
pub data Device (W : Type 0) : Type 0 where
  ultrasonic temperature humidity pressure : Sensor W → Device W
  camera : CameraSensor W → Device W

abbrev pub device_types : List DeviceType
device_types =
    DeviceType.ultrasonic ∷ DeviceType.temperature ∷ DeviceType.camera ∷ DeviceType.humidity
    ∷ DeviceType.pressure ∷ []

type_or_other : Option DeviceType → DeviceType
type_or_other none = DeviceType.other
type_or_other (some type) = type

-- `kTypes[i % kTypes.size()]`, an index that is always in range.
unfoldable pub type_of_turn : ℕ → DeviceType
unfolding type_or_other
type_of_turn i = type_or_other (get_elem? device_types (i % 5))

module _ {W : Type 0} ⦃d : Double W⦄ where
  open d use {literal}

  unfoldable pub device_of_type : DeviceType → IotDevice W → Device W
  device_of_type DeviceType.ultrasonic v = ultrasonic (ultrasonic_sensor v)
  device_of_type DeviceType.temperature v = temperature (temperature_sensor v)
  device_of_type DeviceType.camera v = camera (record { device = v; frame_count = 0 })
  device_of_type DeviceType.humidity v = humidity (humidity_sensor v)
  device_of_type DeviceType.pressure v = pressure (pressure_sensor v)
  device_of_type DeviceType.other v = ultrasonic (ultrasonic_sensor v)

  -- The device of the turn `i`, at the clock reading `now`.
  unfoldable pub fleet_device : ℕ → ℕ → Device W
  fleet_device now i =
      device_of_type (type_of_turn i)
        (new_iot_device now (device_id_of (i + 1)) (type_of_turn i) (literal 200 1) (literal 5 100))

module _ {W D R : Type 0} ⦃d : Double W⦄ (sqlite : Sqlite W D R) where
  -- The loop over the devices, from the turn `i`; a device is saved under the name of its type.
  devices_from :
      ℕ → ℕ → ℕ → List (Device W) → DatabaseManager D → List (Device W) × DatabaseManager D
  devices_from now zero i devices m = (devices, m)
  devices_from now (suc left) i devices m =
      devices_from now left (suc i) (devices ++ fleet_device now i ∷ [])
        (save_device sqlite (device_id_of (i + 1)) (get_type_string (type_of_turn i)) m).0

  unfoldable pub create_devices : ℕ → ℕ → DatabaseManager D → List (Device W) × DatabaseManager D
  unfolding devices_from
  create_devices now count m = devices_from now count 0 [] m
