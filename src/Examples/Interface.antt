-- ===== src/Examples/Interface.antt =====
-- The theorems on names, options, targets, profiles and readings, at concrete ones.
use multi_constraint_iot_edg.Common.{
  ◌+ℤ◌, ℕ, ◌^◌, ◌≡◌, refl, true, false, none, some, [], ◌∷◌, ◌⊎◌, codes, Text, Option, arith, List,
  ◌++◌, ltb, ◌<◌, if◌then◌else◌, All,
}
use multi_constraint_iot_edg.Common.Dict.{lookup}
use multi_constraint_iot_edg.Double.{◌≼◌}
use multi_constraint_iot_edg.Double.Fixed.{fixed_mul, Fixed, fixed_double, Fixed-IsOrdered}
use multi_constraint_iot_edg.Task.{high, TaskRequirements}
use multi_constraint_iot_edg.Scheduler.{SchedulingStrategy}
use multi_constraint_iot_edg.Runtime.{LiveRuntime, apply_configuration}
use multi_constraint_iot_edg.Runtime.Strategies.{
  IsAllocation, IsScheduling, NoAllocation, NoScheduling, apply_configuration-lem,
}
use multi_constraint_iot_edg.Allocator.{AllocationStrategy}
use multi_constraint_iot_edg.Config.{default_config, parse_args, parsed}
use multi_constraint_iot_edg.Config.Arguments.{
  Setting, devices, strategy, compare, port, all_arguments, put_all, parse_args-arguments,
}
use multi_constraint_iot_edg.Http.{url_decode}
use multi_constraint_iot_edg.Http.Decoding.{
  percent_encode, url_decode-percent_encode, url_decode-plain,
}
use multi_constraint_iot_edg.Profile.{ProfileRow, load_profiles}
use multi_constraint_iot_edg.Profile.Loading.{IsOther, IsLast, built_in, load_profiles-lookup}
use multi_constraint_iot_edg.Sensors.{
  add_variance, Sensor, DeviceType, generate_reading, generate_reading_bounds,
}
use multi_constraint_iot_edg.Examples.{cluster, requirements}
open fixed_double use {literal}

abbrev runtime : LiveRuntime Fixed ℕ
runtime = record {
  cluster = cluster;
  scheduler = record { strategy = SchedulingStrategy.fifo; total_tasks_scheduled = 0 };
  automatic_mode = true;
  strategy = codes "multi_constraint";
  scheduling = codes "priority_based";
}

apply_configuration-lem_example :
    let (r', error) = apply_configuration false (codes "least_load") (codes "edf") runtime in
    ((a : AllocationStrategy) × (s : SchedulingStrategy) × IsAllocation (codes "least_load") a
      × IsScheduling (codes "edf") s
      × (error ≡ none)
      × (r'.cluster.allocator.strategy ≡ a)
      × (r'.scheduler.strategy ≡ s)
      × (r'.automatic_mode ≡ false)
      × (r'.strategy ≡ codes "least_load")
      × (r'.scheduling ≡ codes "edf"))
    ⊎ (NoAllocation (codes "least_load")
        × (error ≡ some (codes "Unsupported allocation strategy: " ++ codes "least_load"))
        × (r' ≡ runtime))
    ⊎ (NoScheduling (codes "edf")
        × (error ≡ some (codes "Unsupported scheduling algorithm: " ++ codes "edf"))
        × (r' ≡ runtime))
apply_configuration-lem_example = apply_configuration-lem (codes "least_load") (codes "edf") runtime

-- Numbers written as so many tallies, and read back.
abbrev show_tally : ℕ → Text
show_tally n = n ∷ []

abbrev read_tally : Text → Option ℕ
read_tally [] = none
read_tally (n ∷ t) = if ltb n (2 ^ 64) then some n else none

read_tally-show_tally : (n : ℕ) → n < 2 ^ 64 → read_tally (show_tally n) ≡ some n
read_tally-show_tally n h = ground arith

abbrev settings : List Setting
settings =
    devices true 5
    ∷ strategy false (codes "least_load")
    ∷ compare true
    ∷ port 70000
    ∷ devices false 7
    ∷ []

parse_args-arguments_example :
    parse_args read_tally (all_arguments show_tally settings)
    ≡ parsed (put_all settings default_config)
parse_args-arguments_example =
    parse_args-arguments read_tally show_tally read_tally-show_tally settings
      (omega arith, (tt, (tt, (omega arith, (omega arith, tt)))))

url_decode-percent_encode_example :
    url_decode (percent_encode (37 ∷ 50 ∷ 53 ∷ [])) ≡ 37 ∷ 50 ∷ 53 ∷ []
url_decode-percent_encode_example =
    url_decode-percent_encode (37 ∷ 50 ∷ 53 ∷ []) (omega arith, (omega arith, (omega arith, tt)))

url_decode-plain_example : url_decode (codes "/api") ≡ codes "/api"
url_decode-plain_example = url_decode-plain (codes "/api") (refl, (refl, (refl, (refl, tt))))

abbrev rows : List (ProfileRow Fixed)
rows = (some (codes "camera"), requirements 40 high) ∷ (none, requirements 1 high) ∷ []

load_profiles-lookup_example :
    let found = lookup (codes "camera") (load_profiles (some rows) []) in
    let otherwise = built_in {W = Fixed} (codes "camera") (lookup (codes "camera") []) in
    (((asked : TaskRequirements Fixed) × IsLast rows (codes "camera") asked × (found ≡ some asked))
      ⊎ (All (IsOther (codes "camera")) rows × (found ≡ otherwise)))
    × (lookup (codes "camera") (load_profiles {W = Fixed} none []) ≡ otherwise)
load_profiles-lookup_example = load_profiles-lookup rows (codes "camera") []

abbrev sensor : Sensor Fixed
sensor = record {
  device = record {
    device_id = codes "DEV0001";
    type = DeviceType.ultrasonic;
    data_generation_interval_ms = literal 200 1;
    data_variance = literal 5 100;
    last_data_generation = 0;
    is_active = true;
  };
  min_value = literal 5 1;
  max_value = literal 500 1;
  current = literal 490 1;
}

generate_reading_bounds_example :
    let (r, s') =
      generate_reading
        (codes "ultrasonic")
        (codes "distance_cm")
        (λ lo hi. hi)
        (codes "12:00:00")
        sensor in
    (sensor.min_value ≼ r.value) × (r.value ≼ sensor.max_value) × (s'.current ≡ r.value)
unfolding add_variance ◌+ℤ◌ fixed_mul
generate_reading_bounds_example =
    generate_reading_bounds Fixed-IsOrdered (codes "ultrasonic") (codes "distance_cm") (λ lo hi. hi)
      (codes "12:00:00") sensor refl refl
