-- ===== src/Database.antt =====
-- The calls of database_manager.h by which the other components record what happened. SQLite, which
-- answers them, is no part of the repository: the model keeps the calls in the order in which they are
-- made. No component reads a result of them while tasks are processed.
pub mod Sqlite
pub mod Statements
pub mod Columns
pub mod Manager
pub mod Queries
pub mod Tasks
pub mod Refinement
pub mod Retrieval
use multi_constraint_iot_edg.Common.{ℤ, Bool, Text, List, [], ◌∷◌, ◌++◌}
use multi_constraint_iot_edg.Task.{Task, TaskStatus}
use multi_constraint_iot_edg.Edge.{ResourceUsage}

pub data DatabaseCall (W J : Type 0) : Type 0 where
  save_task : Task W J → DatabaseCall W J
  update_task_status : Text → TaskStatus → DatabaseCall W J
  save_allocation : Text → Text → W → Text → DatabaseCall W J
  save_allocation_failure : Text → Text → DatabaseCall W J
  save_task_execution : Text → ℤ → Bool → DatabaseCall W J
  save_resource_snapshot : Text → ResourceUsage W → ℤ → DatabaseCall W J

-- Oldest first.
abbrev pub DatabaseLog : Type 0 → Type 0 → Type 0
DatabaseLog W J = List (DatabaseCall W J)

module _ {W J : Type 0} where
  abbrev pub record_call : DatabaseCall W J → DatabaseLog W J → DatabaseLog W J
  record_call c log = log ++ c ∷ []
