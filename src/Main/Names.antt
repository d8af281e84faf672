-- ===== src/Main/Names.antt =====
-- The names that main.cpp accepts, against those of live_runtime.cpp.
use multi_constraint_iot_edg.Common.{
  Bool-cases, inl, inr, refl, codes, text_eq, text_eq→eq, ◌≡◌, Text, arith,
}
use multi_constraint_iot_edg.Runtime.{allocation_from_string, scheduling_from_string}
use multi_constraint_iot_edg.Main.{strategy_from_string, scheduling_of_name}

-- The program and its live runtime read every name, known or not, as the same strategy; only the runtime
-- reports the names that it does not know.
pub names-agree :
    (name : Text)
    → (strategy_from_string name ≡ (allocation_from_string name).0)
      × (scheduling_of_name name ≡ (scheduling_from_string name).0)
unfolding strategy_from_string scheduling_of_name allocation_from_string scheduling_from_string
    text_eq
names-agree name = elim (Bool-cases (text_eq name (codes "priority_based"))) [
  | inl e ↦ rw (text_eq→eq name (codes "priority_based") e) (refl, refl)
  | inr e ↦ (ground arith, ground (arith, e))
]
