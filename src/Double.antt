-- ===== src/Double.antt =====
-- The C++ type `double`, which no code under the repository defines: its operations are a parameter,
-- and what IEEE 754 documents of them stands in records of laws that the theorems take.
pub mod Fixed
use multi_constraint_iot_edg.Common.{
  ℕ, ◌+◌, ◌-◌, ◌≤◌, ltb, leb, ℤ, ◌≡◌, Bool, true, not, if◌then◌else◌, ◌⊎◌, refl, sym, ap, arith,
  Bool-cases, inl, inr,
}

-- `literal n d` is the constant whose decimal notation is worth n/d, as 0.25 is `literal 25 100`.
pub record Double (W : Type 0) : Type 0 where
  pub literal : ℕ → ℕ → W
  pub add : W → W → W
  pub sub : W → W → W
  pub mul : W → W → W
  pub div : W → W → W
  pub square_root : W → W
  pub lt : W → W → Bool
  pub le : W → W → Bool
  -- `std::numeric_limits<double>::max()`, and its negation.
  pub greatest : W
  pub lowest : W
  -- `static_cast<double>` of an integer, and `static_cast<int64_t>` of a double.
  pub of_int : ℤ → W
  pub to_int : W → ℤ

infix 4 ◌≼◌
abbrev pub ◌≼◌ : {W : Type 0} ⦃d : Double W⦄ → W → W → Type 0
◌≼◌ ⦃d⦄ x y = d.le x y ≡ true

-- NaN is the one value that is not `<=` itself.
abbrev pub IsNum : {W : Type 0} ⦃d : Double W⦄ → W → Type 0
IsNum x = x ≼ x

module _ {W : Type 0} ⦃d : Double W⦄ where
  open d use {literal, lt}

  abbrev pub nought : W
  nought = literal 0 1

  abbrev pub one : W
  one = literal 1 1

  abbrev pub hundred : W
  hundred = literal 100 1

  -- `std::max` and `std::clamp`, as the standard defines them.
  abbrev pub max_of : W → W → W
  max_of x y = if lt x y then y else x

  abbrev pub clamp : W → W → W → W
  clamp v lo hi = if lt v lo then lo else if lt hi v then hi else v

-- The comparisons of IEEE 754: an order that is total away from NaN.
pub record IsOrdered (W : Type 0) ⦃d : Double W⦄ : Type 0 where
  pub refl_of_le : (x y : W) → x ≼ y → IsNum x × IsNum y
  pub le_trans : (x y z : W) → x ≼ y → y ≼ z → x ≼ z
  pub le_total : (x y : W) → IsNum x → IsNum y → (x ≼ y) ⊎ (y ≼ x)
  pub lt-eq-not-le : (x y : W) → IsNum x → IsNum y → d.lt x y ≡ not (d.le y x)
  pub num_of_lt : (x y : W) → d.lt x y ≡ true → IsNum x × IsNum y
  pub of_int_num : (i : ℤ) → IsNum (d.of_int i)

-- Rounding is monotone: an operation whose exact result grows does not fall, where no NaN arises.
pub record IsMonotone (W : Type 0) ⦃d : Double W⦄ : Type 0 where
  pub add_mono :
      (x y u v : W) → x ≼ y → u ≼ v → IsNum (d.add x u) → IsNum (d.add y v) → d.add x u ≼ d.add y v
  pub mul_mono :
      (c x y : W)
      → nought ≼ c
      → x ≼ y
      → IsNum (d.mul c x)
      → IsNum (d.mul c y)
      → d.mul c x ≼ d.mul c y
  pub mul_mono_left :
      (c x y : W)
      → nought ≼ c
      → x ≼ y
      → IsNum (d.mul x c)
      → IsNum (d.mul y c)
      → d.mul x c ≼ d.mul y c

-- Sums and differences are exact on a set of values that are spaced evenly, as the multiples of
-- 1/1024 below 2^40 are: there the exact result can be represented. The negative zero is not among them.
pub record IsExact (W : Type 0) ⦃d : Double W⦄ : Type 1 where
  pub Grid : W → Type 0
  pub grid_nought : Grid nought
  pub grid_num : (x : W) → Grid x → IsNum x
  pub grid_antisymm : (x y : W) → Grid x → Grid y → x ≼ y → y ≼ x → x ≡ y
  pub add_le_of_le_sub : (c u x : W) → Grid c → Grid u → Grid x → x ≼ d.sub c u → d.add u x ≼ c
  pub le_add : (u x : W) → Grid u → Grid x → nought ≼ x → IsNum (d.add u x) → u ≼ d.add u x
  pub sub_le : (u x : W) → Grid u → Grid x → nought ≼ x → IsNum (d.sub u x) → d.sub u x ≼ u
  pub add-sub :
      (c u x : W)
      → Grid c
      → Grid u
      → Grid x
      → d.add u x ≼ c
      → nought ≼ u
      → nought ≼ x
      → d.sub (d.add u x) x ≡ u
  pub grid_add :
      (c u x : W)
      → Grid c
      → Grid u
      → Grid x
      → nought ≼ u
      → nought ≼ x
      → d.add u x ≼ c
      → Grid (d.add u x)
  pub grid_sub : (u x : W) → Grid u → Grid x → nought ≼ u → nought ≼ x → Grid (d.sub u x)

-- Sums and differences of multiples of a unit are exact and compare as numbers do, up to a limit: for
-- the unit 1/1024 and the limit 2^53 these are multiples of the unit below 2^43.
pub record IsCounted (W : Type 0) ⦃d : Double W⦄ : Type 0 where
  pub limit : ℕ
  pub amount : ℕ → W
  pub count : W → ℕ
  pub count-amount : (n : ℕ) → n ≤ limit → count (amount n) ≡ n
  pub amount_zero : amount 0 ≡ nought
  pub amount-add : (m n : ℕ) → m + n ≤ limit → d.add (amount m) (amount n) ≡ amount (m + n)
  pub amount-sub : (m n : ℕ) → n ≤ m → m ≤ limit → d.sub (amount m) (amount n) ≡ amount (m - n)
  pub amount-le : (m n : ℕ) → m ≤ limit → n ≤ limit → d.le (amount m) (amount n) ≡ leb m n
  pub amount-lt : (m n : ℕ) → m ≤ limit → n ≤ limit → d.lt (amount m) (amount n) ≡ ltb m n

module _ {W : Type 0} ⦃d : Double W⦄ (laws : IsOrdered W) where
  open laws use {refl_of_le, le_trans, le_total, lt-eq-not-le}

  -- The outcome of `std::clamp` lies between the bounds, if these are in order and no NaN comes in.
  pub clamp_bounds : (v lo hi : W) → IsNum v → lo ≼ hi → (lo ≼ clamp v lo hi) × (clamp v lo hi ≼ hi)
  clamp_bounds v lo hi n h =
      let (nl, nh) = refl_of_le lo hi h in
      ground (
        arith,
        lt-eq-not-le v lo n nl,
        lt-eq-not-le hi v nh n,
        le_total v lo n nl,
        le_total hi v nh n,
      )

  pub max_of_bounds : (x y : W) → IsNum x → IsNum y → (x ≼ max_of x y) × (y ≼ max_of x y)
  max_of_bounds x y n m = ground (arith, lt-eq-not-le x y n m, le_total x y n m)
