-- ===== src/Sensors.antt =====
-- iot_device.h, iot_device.cpp, sensor_simulator.h and sensor_simulator.cpp: the simulated devices and
-- their readings. The draw of the generator and the time of day are arguments; a payload is the reading
-- under its key, with the device, the sensor type and the time.
use multi_constraint_iot_edg.Common.{
  negsuc, refl, ℕ, ◌+◌, ◌≡◌, Bool, true, false, if◌then◌else◌, Text, codes, u64, arith, not,
}
use multi_constraint_iot_edg.Double.{Double, IsOrdered, ◌≼◌, IsNum}
use multi_constraint_iot_edg.Task.{elapsed_ms}

-- `other` is a value outside the enumerators.
pub data DeviceType : Type 0 where
  ultrasonic temperature camera humidity pressure other : DeviceType

unfoldable pub get_type_string : DeviceType → Text
get_type_string ultrasonic = codes "ultrasonic"
get_type_string temperature = codes "temperature"
get_type_string camera = codes "camera"
get_type_string humidity = codes "humidity"
get_type_string pressure = codes "pressure"
get_type_string other = codes "unknown"

pub record IotDevice (W : Type 0) : Type 0 where
  pub device_id : Text
  pub type : DeviceType
  pub data_generation_interval_ms : W
  pub data_variance : W
  pub last_data_generation : ℕ
  pub is_active : Bool

-- A sensor that measures a number.
pub record Sensor (W : Type 0) : Type 0 where
  pub device : IotDevice W
  pub min_value : W
  pub max_value : W
  pub current : W

pub record Reading (V : Type 0) : Type 0 where
  pub device_id : Text
  pub sensor_type : Text
  pub key : Text
  pub value : V
  pub timestamp : Text

pub record CameraFrame : Type 0 where
  pub device_id : Text
  pub sensor_type : Text
  pub frame_number : ℕ
  pub resolution_width : ℕ
  pub resolution_height : ℕ
  pub timestamp : Text

pub record CameraSensor (W : Type 0) : Type 0 where
  pub device : IotDevice W
  pub frame_count : ℕ

module _ {W : Type 0} ⦃d : Double W⦄ where
  open d use {literal, add, sub, mul, div, lt, le, of_int}

  unfoldable pub new_iot_device : ℕ → Text → DeviceType → W → W → IotDevice W
  new_iot_device now id type interval variance = record {
    device_id = id;
    type = type;
    data_generation_interval_ms = interval;
    data_variance = variance;
    last_data_generation = now;
    is_active = true;
  }

  unfoldable pub should_generate_data : ℕ → IotDevice W → Bool
  should_generate_data now v =
      if not v.is_active
      then false
      else le v.data_generation_interval_ms (of_int (elapsed_ms now v.last_data_generation))

  unfoldable pub update_last_generation_time : ℕ → IotDevice W → IotDevice W
  update_last_generation_time now v = record v { last_data_generation = now }

  -- `draw lo hi` is what the generator gives between the two bounds. Where they are in the wrong order, as
  -- for a negative value, the distribution of the C++ library is undefined: `draw` may give anything.
  unfoldable pub add_variance : (W → W → W) → IotDevice W → W → W
  add_variance draw v base_value =
      let variance_range = mul base_value v.data_variance in
      add base_value (draw (sub (literal 0 1) variance_range) variance_range)

  -- The two tests of a reading, one after the other.
  unfoldable pub keep_within : W → W → W → W
  keep_within lo hi v =
      let raised = if lt v lo then lo else v in if lt hi raised then hi else raised

  unfoldable pub generate_reading :
      Text → Text → (W → W → W) → Text → Sensor W → Reading W × Sensor W
  generate_reading sensor_type key draw time s =
      let current = keep_within s.min_value s.max_value (add_variance draw s.device s.current) in
      (
        record {
          device_id = s.device.device_id;
          sensor_type = sensor_type;
          key = key;
          value = current;
          timestamp = time;
        },
        record s { current = current },
      )

  unfoldable pub ultrasonic_sensor : IotDevice W → Sensor W
  ultrasonic_sensor v = record {
    device = v;
    min_value = literal 5 1;
    max_value = literal 500 1;
    current = div (add (literal 5 1) (literal 500 1)) (literal 2 1);
  }

  unfoldable pub temperature_sensor : IotDevice W → Sensor W
  temperature_sensor v = record {
    device = v;
    min_value = of_int (negsuc 49);
    max_value = literal 100 1;
    current = literal 22 1;
  }

  unfoldable pub humidity_sensor : IotDevice W → Sensor W
  humidity_sensor v = record {
    device = v;
    min_value = literal 0 1;
    max_value = literal 100 1;
    current = literal 50 1;
  }

  unfoldable pub pressure_sensor : IotDevice W → Sensor W
  pressure_sensor v = record {
    device = v;
    min_value = literal 950 1;
    max_value = literal 1050 1;
    current = div (add (literal 950 1) (literal 1050 1)) (literal 2 1);
  }

  unfoldable pub generate_ultrasonic : (W → W → W) → Text → Sensor W → Reading W × Sensor W
  generate_ultrasonic = generate_reading (codes "ultrasonic") (codes "distance_cm")

  unfoldable pub generate_temperature : (W → W → W) → Text → Sensor W → Reading W × Sensor W
  generate_temperature = generate_reading (codes "temperature") (codes "temperature_celsius")

  unfoldable pub generate_humidity : (W → W → W) → Text → Sensor W → Reading W × Sensor W
  generate_humidity = generate_reading (codes "humidity") (codes "humidity_percent")

  unfoldable pub generate_pressure : (W → W → W) → Text → Sensor W → Reading W × Sensor W
  generate_pressure = generate_reading (codes "pressure") (codes "pressure_hpa")

  -- The frame counter has 64 bits.
  unfoldable pub generate_frame : Text → CameraSensor W → CameraFrame × CameraSensor W
  generate_frame time s =
      let frame = u64 (s.frame_count + 1) in
      (
        record {
          device_id = s.device.device_id;
          sensor_type = codes "camera";
          frame_number = frame;
          resolution_width = 1920;
          resolution_height = 1080;
          timestamp = time;
        },
        record s { frame_count = frame },
      )

  keep_within_bounds :
      IsOrdered W
      → (lo hi v : W) → lo ≼ hi
      → IsNum v
      → (lo ≼ keep_within lo hi v) × (keep_within lo hi v ≼ hi)
  unfolding keep_within
  keep_within_bounds order lo hi v h n =
      let (nl, nh) = order.refl_of_le lo hi h in
      ground (
        arith,
        order.lt-eq-not-le v lo n nl,
        order.lt-eq-not-le hi v nh n,
        order.lt-eq-not-le hi lo nh nl,
        order.le_total v lo n nl,
        order.le_total hi v nh n,
      )

  -- A reading, and the state of the sensor after it, lies between the sensor's bounds, if these are in
  -- order and the varied value is a number.
  pub generate_reading_bounds :
      IsOrdered W
      → (sensor_type key : Text) (draw : W → W → W) (time : Text) (s : Sensor W)
      → s.min_value ≼ s.max_value
      → IsNum (add_variance draw s.device s.current)
      → let (r, s') = generate_reading sensor_type key draw time s in
        (s.min_value ≼ r.value) × (r.value ≼ s.max_value) × (s'.current ≡ r.value)
  unfolding generate_reading
  generate_reading_bounds order sensor_type key draw time s h n =
      let (low, up) =
        keep_within_bounds order s.min_value s.max_value (add_variance draw s.device s.current) h
          n in
      (low, up, refl)
