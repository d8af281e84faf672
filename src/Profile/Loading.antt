-- ===== src/Profile/Loading.antt =====
-- Which profile `TaskProfile::loadProfiles` of task_profile.cpp leaves for a sensor type.
use multi_constraint_iot_edg.Common.{
  subst, ◌≡◌, refl, ap, false, List, [], ◌∷◌, ◌++◌, Option, none, some, if◌then◌else◌, Text,
  text_eq, text_eq→eq, codes, pos, All, Bool-cases, inl, inr, ◌⊎◌, ◌∙◌,
}
use multi_constraint_iot_edg.Common.Dict.{lookup, insert, lookup-insert}
use multi_constraint_iot_edg.Double.{Double}
use multi_constraint_iot_edg.Task.{TaskRequirements, low, medium, high, critical}
use multi_constraint_iot_edg.Profile.{
  Profiles, ProfileRow, initialize_default_profiles, load_row, load_rows, load_profiles,
}

module _ {W : Type 0} ⦃d : Double W⦄ where
  open d use {literal}

  -- A row that is for another sensor type, or for none.
  abbrev pub IsOther : Text → ProfileRow W → Type 0
  IsOther sensor_type (none, requirements) = Unit
  IsOther sensor_type (some name, requirements) = text_eq name sensor_type ≡ false

  -- The profiles that the program has without a database.
  abbrev pub built_in : Text → Option (TaskRequirements W) → Option (TaskRequirements W)
  built_in sensor_type before =
      if text_eq (codes "pressure") sensor_type
      then some (record {
        cpu_percent = literal 5 1;
        ram_mb = literal 20 1;
        bandwidth_mbps = literal 5 10;
        deadline_ms = pos 500;
        priority = low;
      })
      else if text_eq (codes "humidity") sensor_type
      then some (record {
        cpu_percent = literal 5 1;
        ram_mb = literal 20 1;
        bandwidth_mbps = literal 5 10;
        deadline_ms = pos 500;
        priority = low;
      })
      else if text_eq (codes "camera") sensor_type
      then some (record {
        cpu_percent = literal 60 1;
        ram_mb = literal 1024 1;
        bandwidth_mbps = literal 20 1;
        deadline_ms = pos 50;
        priority = critical;
      })
      else if text_eq (codes "temperature") sensor_type
      then some (record {
        cpu_percent = literal 5 1;
        ram_mb = literal 20 1;
        bandwidth_mbps = literal 5 10;
        deadline_ms = pos 500;
        priority = medium;
      })
      else if text_eq (codes "ultrasonic") sensor_type
      then some (record {
        cpu_percent = literal 10 1;
        ram_mb = literal 50 1;
        bandwidth_mbps = literal 1 1;
        deadline_ms = pos 100;
        priority = high;
      })
      else before

  initialize_default_profiles-lookup :
      (sensor_type : Text) (m : Profiles W)
      → lookup sensor_type (initialize_default_profiles m)
        ≡ built_in sensor_type (lookup sensor_type m)
  unfolding initialize_default_profiles
  initialize_default_profiles-lookup sensor_type m =
      rw (lookup-insert, lookup-insert, lookup-insert, lookup-insert, lookup-insert) refl

  -- The last row for the sensor type, with the rows on either side, or no row at all.
  abbrev pub IsLast : List (ProfileRow W) → Text → TaskRequirements W → Type 0
  IsLast rows sensor_type requirements =
      (before : List (ProfileRow W)) × (behind : List (ProfileRow W)) × (rows
        ≡ before ++ (some sensor_type, requirements) ∷ behind)
      × All (IsOther sensor_type) behind

  Found :
      List (ProfileRow W)
      → Text
      → Option (TaskRequirements W)
      → Option (TaskRequirements W)
      → Type 0
  Found rows sensor_type before found =
      ((requirements : TaskRequirements W) × IsLast rows sensor_type requirements
        × (found ≡ some requirements))
      ⊎ (All (IsOther sensor_type) rows × (found ≡ before))

  load_rows-Found :
      (rows : List (ProfileRow W)) (sensor_type : Text) (m : Profiles W)
      → Found rows sensor_type (lookup sensor_type m) (lookup sensor_type (load_rows rows m))
  unfolding load_rows load_row Found
  load_rows-Found [] sensor_type m = inr (tt, refl)
  load_rows-Found ((none, r) ∷ rows) sensor_type m = elim (load_rows-Found rows sensor_type m) [
    | inl (q, (before, behind, whole, others), found) ↦
        inl (q, ((none, r) ∷ before, behind, ap (◌∷◌ (none, r)) whole, others), found)
    | inr (others, found) ↦ inr ((tt, others), found)
  ]
  load_rows-Found ((some name, r) ∷ rows) sensor_type m =
      elim (load_rows-Found rows sensor_type (insert name r m)) [
        | inl (q, (before, behind, whole, others), found) ↦
            inl (q, ((some name, r) ∷ before, behind, ap (◌∷◌ (some name, r)) whole, others), found)
        | inr (others, found) ↦ elim (Bool-cases (text_eq name sensor_type)) [
          | inl same ↦ inl (
            r,
            ([], rows, rw (text_eq→eq name sensor_type same) refl, others),
            found ∙ rw (lookup-insert, same) refl,
          )
          | inr apart ↦ inr ((apart, others), found ∙ rw (lookup-insert, apart) refl)
        ]
      ]

  -- After a load the profile of a sensor type is that of the last row for it. Where no row is for it, and
  -- where the database cannot be read, it is the one that is built in for the five kinds of sensors, and
  -- for others what was there before.
  pub load_profiles-lookup :
      (rows : List (ProfileRow W)) (sensor_type : Text) (m : Profiles W)
      → let found = lookup sensor_type (load_profiles (some rows) m) in
        let otherwise = built_in sensor_type (lookup sensor_type m) in
        (((requirements : TaskRequirements W) × IsLast rows sensor_type requirements
            × (found ≡ some requirements))
          ⊎ (All (IsOther sensor_type) rows × (found ≡ otherwise)))
        × (lookup sensor_type (load_profiles none m) ≡ otherwise)
  unfolding load_profiles Found
  load_profiles-lookup rows sensor_type m =
      let base = initialize_default_profiles-lookup sensor_type m in
      (
        subst
            (λ o.
              Found rows sensor_type o
                (lookup sensor_type (load_rows rows (initialize_default_profiles m))))
            base (load_rows-Found rows sensor_type (initialize_default_profiles m)),
        base,
      )
