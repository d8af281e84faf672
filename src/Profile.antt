-- ===== src/Profile.antt =====
-- task_profile.h and task_profile.cpp: what a task of each sensor type requires. SQLite is no part of the
-- repository: what it answers to the query is an argument, `none` where the file or the table cannot be
-- read. The messages to the logger are left out.
pub mod Loading
use multi_constraint_iot_edg.Common.{
  ◌≡◌, refl, Bool, true, false, List, [], ◌∷◌, Option, none, some, if◌then◌else◌, Text, text_eq,
  codes, ℤ, pos,
}
use multi_constraint_iot_edg.Common.Dict.{Dict, lookup, insert, lookup-insert}
use multi_constraint_iot_edg.Double.{Double}
use multi_constraint_iot_edg.Task.{TaskRequirements, TaskPriority, low, medium, high, critical}

abbrev pub Profiles : Type 0 → Type 0
Profiles W = Dict (TaskRequirements W)

-- A row: the sensor type, which may be NULL, and the other columns.
abbrev pub ProfileRow : Type 0 → Type 0
ProfileRow W = Option Text × TaskRequirements W

module _ {W : Type 0} ⦃d : Double W⦄ where
  open d use {literal}

  abbrev pub light : ℤ → TaskPriority → TaskRequirements W
  light deadline_ms priority = record {
    cpu_percent = literal 5 1;
    ram_mb = literal 20 1;
    bandwidth_mbps = literal 5 10;
    deadline_ms = deadline_ms;
    priority = priority;
  }

  abbrev pub ultrasonic_profile : TaskRequirements W
  ultrasonic_profile = record {
    cpu_percent = literal 10 1;
    ram_mb = literal 50 1;
    bandwidth_mbps = literal 1 1;
    deadline_ms = pos 100;
    priority = high;
  }

  abbrev pub camera_profile : TaskRequirements W
  camera_profile = record {
    cpu_percent = literal 60 1;
    ram_mb = literal 1024 1;
    bandwidth_mbps = literal 20 1;
    deadline_ms = pos 50;
    priority = critical;
  }

  unfoldable pub initialize_default_profiles : Profiles W → Profiles W
  initialize_default_profiles m = insert (codes "pressure") (light (pos 500) low) (
      insert (codes "humidity") (light (pos 500) low) (
        insert (codes "camera") camera_profile (
          insert (codes "temperature") (light (pos 500) medium)
            (insert (codes "ultrasonic") ultrasonic_profile m))))

  unfoldable pub add_profile : Text → TaskRequirements W → Profiles W → Profiles W
  add_profile sensor_type requirements m = insert sensor_type requirements m

  load_row : ProfileRow W → Profiles W → Profiles W
  load_row (none, requirements) m = m
  load_row (some sensor_type, requirements) m = insert sensor_type requirements m

  -- The loop over the rows.
  unfoldable pub load_rows : List (ProfileRow W) → Profiles W → Profiles W
  unfolding load_row
  load_rows [] m = m
  load_rows (row ∷ rows) m = load_rows rows (load_row row m)

  unfoldable pub load_profiles : Option (List (ProfileRow W)) → Profiles W → Profiles W
  load_profiles none m = initialize_default_profiles m
  load_profiles (some rows) m = load_rows rows (initialize_default_profiles m)

  unfoldable pub get_requirements : Profiles W → Text → TaskRequirements W
  get_requirements m sensor_type = elim (lookup sensor_type m) [
    | some requirements ↦ requirements
    | none ↦ light (pos 1000) low
  ]

  unfoldable pub has_profile : Profiles W → Text → Bool
  has_profile m sensor_type = elim (lookup sensor_type m) [
    | some requirements ↦ true
    | none ↦ false
  ]
