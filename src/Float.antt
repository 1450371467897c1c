-- ===== src/Float.antt =====
-- What the code does with a `double`. The type and its operations are the machine's: each module that
-- computes with doubles takes them as an instance of `Double`, and the laws that a theorem uses as a
-- hypothesis. All laws hold of IEEE 754 doubles, NaN included.
pub mod Fixed
use odds_engine.Base.{ℕ, ◌*◌, ◌≤◌, ◌<◌, ◌≡◌, Bool, true, false, not, ltb}

pub record Double (D : Type 0) : Type 0 where
  -- `static_cast<double>(n)`, and the decimal literal m * 10^-k.
  pub of_nat : ℕ → D
  pub literal : ℕ → ℕ → D
  pub add : D → D → D
  pub sub : D → D → D
  pub mul : D → D → D
  pub div : D → D → D
  pub lt : D → D → Bool
  pub le : D → D → Bool
  pub eq : D → D → Bool
  pub is_finite : D → Bool
  pub abs : D → D
  pub sqrt : D → D
  pub exp : D → D
  pub log : D → D

module _ {D : Type 0} ⦃d : Double D⦄ where
  open d use {lt, le}

  abbrev pub IsLt : D → D → Type 0
  IsLt x y = lt x y ≡ true

  abbrev pub IsLe : D → D → Type 0
  IsLe x y = le x y ≡ true

  -- Not NaN.
  abbrev pub IsNumber : D → Type 0
  IsNumber x = le x x ≡ true

-- Comparisons: false on NaN, and a total order elsewhere.
pub record IsOrdered (D : Type 0) ⦃d : Double D⦄ : Type 0 where
  pub number_of_finite : (x : D) → d.is_finite x ≡ true → IsNumber x
  pub number_of_lt : (x y : D) → IsLt x y → IsNumber x × IsNumber y
  pub number_of_le : (x y : D) → IsLe x y → IsNumber x × IsNumber y
  pub lt_asymm : (x y : D) → IsLt x y → d.lt y x ≡ false
  pub le_of_lt : (x y : D) → IsLt x y → IsLe x y
  pub lt-not-le : (x y : D) → IsLt x y → d.le y x ≡ false
  pub le_of_not_lt : (x y : D) → IsNumber x → IsNumber y → d.lt x y ≡ false → IsLe y x
  pub lt_of_not_le : (x y : D) → IsNumber x → IsNumber y → d.le x y ≡ false → IsLt y x
  pub le_trans : (x y z : D) → IsLe x y → IsLe y z → IsLe x z

-- Small whole numbers are exact, and a sum of positive numbers is positive.
pub record IsArithmetic (D : Type 0) ⦃d : Double D⦄ : Type 0 where
  pub lt-of_nat : (m n : ℕ) → m ≤ 2048 → n ≤ 2048 → d.lt (d.of_nat m) (d.of_nat n) ≡ ltb m n
  pub of_nat-number : (n : ℕ) → IsNumber (d.of_nat n)
  pub add_pos :
      (x y : D) → IsLe (d.of_nat 0) x → IsLt (d.of_nat 0) y → IsLt (d.of_nat 0) (d.add x y)
  pub mul-of_nat : (m n : ℕ) → m * n ≤ 2048 → d.mul (d.of_nat m) (d.of_nat n) ≡ d.of_nat (m * n)

-- Where the rounding of a bisection step may land, in the range that the solvers work in.
pub record IsBisecting (D : Type 0) ⦃d : Double D⦄ : Type 0 where
  pub half_way :
      (lo hi : D)
      → IsLe (d.of_nat 0) lo
      → IsLe lo hi
      → IsLe hi (d.of_nat 2048)
      → let mid = d.add lo (d.mul (d.sub hi lo) (d.literal 5 1)) in IsLe lo mid × IsLe mid hi
  pub mean_between :
      (lo hi : D)
      → IsLe (d.of_nat 0) lo
      → IsLe lo hi
      → IsLe hi (d.of_nat 2048)
      → let mid = d.mul (d.literal 5 1) (d.add lo hi) in IsLe lo mid × IsLe mid hi

-- Division of chances: it keeps the order, and a divisor above one does not enlarge.
pub record IsDividing (D : Type 0) ⦃d : Double D⦄ : Type 0 where
  pub inverse_unit :
      (x : D)
      → IsLt (d.of_nat 1) x
      → IsLe (d.of_nat 0) (d.div (d.of_nat 1) x) × IsLe (d.div (d.of_nat 1) x) (d.of_nat 1)
  pub inverse_antitone :
      (x y : D)
      → IsLt (d.of_nat 1) x
      → IsLe x y
      → IsLe (d.div (d.of_nat 1) y) (d.div (d.of_nat 1) x)
  pub div_mono :
      (x y t : D)
      → IsLe (d.of_nat 0) x
      → IsLe x y
      → IsLe y (d.of_nat 1)
      → IsLt (d.of_nat 1) t
      → IsLe (d.div x t) (d.div y t)
  pub div_lowers :
      (x t : D)
      → IsLe (d.of_nat 0) x
      → IsLe x (d.of_nat 1)
      → IsLt (d.of_nat 1) t
      → IsLe (d.of_nat 0) (d.div x t) × IsLe (d.div x t) x
  pub add_nonneg :
      (x y : D) → IsLe (d.of_nat 0) x → IsLe (d.of_nat 0) y → IsLe (d.of_nat 0) (d.add x y)
