-- ===== src/Database/Sqlite.antt =====
-- SQLite, which no code of the repository implements: the calls of its C interface that
-- database_manager.cpp makes are a parameter. `D` is a connection with its database, `R` a row of a result.
use multi_constraint_iot_edg.Common.{
  ℕ, ◌==◌, Bool, List, [], ◌∷◌, Option, Text, ℤ, pos, sub_ℕ, ltb, ◌^◌, if◌then◌else◌,
}

-- What is bound to a `?` of a statement, in the order of the statement.
pub data Bound (W : Type 0) : Type 0 where
  bind_text : Text → Bound W
  bind_double : W → Bound W
  bind_int64 bind_int : ℤ → Bound W

pub record Sqlite (W D R : Type 0) : Type 0 where
  -- The null pointer, and a comparison with it.
  pub null_handle : D
  pub is_null : D → Bool
  -- `sqlite3_open`, and whether it gives SQLITE_OK.
  pub open_file : Text → D × Bool
  -- `sqlite3_exec`: `none` is SQLITE_OK, otherwise the message is given, which may be a null pointer.
  pub exec : Text → D → D × Option (Option Text)
  -- `sqlite3_prepare_v2` gives SQLITE_OK.
  pub prepares : Text → D → Bool
  -- One `sqlite3_step` of a bound statement that gives no rows, and whether it gives SQLITE_DONE.
  pub step : Text → List (Bound W) → D → D × Bool
  -- The rows that `sqlite3_step` gives of a bound query until it gives no more.
  pub rows : Text → List (Bound W) → D → List R
  -- The columns; `none` is the null pointer.
  pub column_text : R → ℕ → Option Text
  pub column_double : R → ℕ → W
  pub column_int64 : R → ℕ → ℤ
  pub column_int : R → ℕ → ℤ

-- `c_str()`, of which SQLite reads the bytes before the first that is 0.
unfoldable pub c_str : Text → Text
c_str [] = []
c_str (c ∷ t) = let rest = c_str t in if c == 0 then [] else c ∷ rest

-- `static_cast<sqlite3_int64>` of a `std::size_t`.
unfoldable pub to_int64 : ℕ → ℤ
to_int64 n = if ltb n (2 ^ 63) then pos n else sub_ℕ n (2 ^ 64)
