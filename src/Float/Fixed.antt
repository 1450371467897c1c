-- ===== src/Float/Fixed.antt =====
-- A concrete instance of the arithmetic that the code does with doubles: thousandths that are not
-- negative, with a value that is not a number. It shows that the laws hold together.
use native.Mathlib.Nat.{
  mul_assoc, mul_comm, mul-div_cancel, div-le_of_le-mul, le-div_iff_mul-le, div-mul-le_self,
  mul-le-mul_left, mul-le-mul_right,
}
use odds_engine.Base.{
  ℕ, ◌+◌, ◌-◌, ◌*◌, ◌≡◌, ◌≤◌, Bool, true, false, Option, none, some, ltb, leb, ◌==◌, ◌^◌, ◌/◌,
  arith, if◌then◌else◌, ap, sym, ◌∙◌,
}
use odds_engine.Float.{Double, IsOrdered, IsArithmetic, IsBisecting, IsDividing}

abbrev pub Fixed : Type 0
Fixed = Option ℕ

abbrev pub both : (ℕ → ℕ → ℕ) → Fixed → Fixed → Fixed
both op (some a) (some b) = some (op a b)
both op _ _ = none

abbrev pub holds : (ℕ → ℕ → Bool) → Fixed → Fixed → Bool
holds test (some a) (some b) = test a b
holds test _ _ = false

abbrev pub divide : Fixed → Fixed → Fixed
divide (some a) (some b) = if b == 0 then none else some (a * 1000 / b)
divide _ _ = none

abbrev is_some : Fixed → Bool
is_some (some _) = true
is_some none = false

-- The first terms of the series of -log and of exp (-x) at one.
abbrev complement : Fixed → Fixed
complement (some a) = some (1000 - a)
complement none = none

instance abbrev pub fixed-Double : Double Fixed
fixed-Double = record {
  of_nat = λ n. some (n * 1000);
  literal = λ m k. some (m * 1000 / 10 ^ k);
  add = both (◌+◌);
  sub = both (◌-◌);
  mul = both (λ a b. a * b / 1000);
  div = divide;
  lt = holds ltb;
  le = holds leb;
  eq = holds (◌==◌);
  is_finite = is_some;
  abs = λ x. x;
  sqrt = λ x. x;
  exp = complement;
  log = complement;
}

pub fixed-IsOrdered : IsOrdered Fixed
fixed-IsOrdered = record {
  number_of_finite = λ x. number_of_finite_lem x;
  number_of_lt = λ x y. number_of_lt_lem x y;
  number_of_le = λ x y. number_of_le_lem x y;
  lt_asymm = λ x y. lt_asymm_lem x y;
  le_of_lt = λ x y. le_of_lt_lem x y;
  lt-not-le = λ x y. lt-not-le_lem x y;
  le_of_not_lt = λ x y. le_of_not_lt_lem x y;
  lt_of_not_le = λ x y. lt_of_not_le_lem x y;
  le_trans = λ x y z. le_trans_lem x y z;
}
  where
    number_of_finite_lem : (x : Fixed) → is_some x ≡ true → holds leb x x ≡ true
    number_of_finite_lem (some a) h = ground arith
    number_of_finite_lem none h = absurd cc

    number_of_lt_lem :
        (x y : Fixed) → holds ltb x y ≡ true → (holds leb x x ≡ true) × (holds leb y y ≡ true)
    number_of_lt_lem (some a) (some b) h = (ground arith, ground arith)
    number_of_lt_lem none y h = absurd cc
    number_of_lt_lem (some a) none h = absurd cc

    number_of_le_lem :
        (x y : Fixed) → holds leb x y ≡ true → (holds leb x x ≡ true) × (holds leb y y ≡ true)
    number_of_le_lem (some a) (some b) h = (ground arith, ground arith)
    number_of_le_lem none y h = absurd cc
    number_of_le_lem (some a) none h = absurd cc

    lt_asymm_lem : (x y : Fixed) → holds ltb x y ≡ true → holds ltb y x ≡ false
    lt_asymm_lem (some a) (some b) h = ground arith
    lt_asymm_lem none y h = absurd cc
    lt_asymm_lem (some a) none h = absurd cc

    le_of_lt_lem : (x y : Fixed) → holds ltb x y ≡ true → holds leb x y ≡ true
    le_of_lt_lem (some a) (some b) h = ground arith
    le_of_lt_lem none y h = absurd cc
    le_of_lt_lem (some a) none h = absurd cc

    lt-not-le_lem : (x y : Fixed) → holds ltb x y ≡ true → holds leb y x ≡ false
    lt-not-le_lem (some a) (some b) h = ground arith
    lt-not-le_lem none y h = absurd cc
    lt-not-le_lem (some a) none h = absurd cc

    le_of_not_lt_lem :
        (x y : Fixed)
        → holds leb x x ≡ true
        → holds leb y y ≡ true
        → holds ltb x y ≡ false
        → holds leb y x ≡ true
    le_of_not_lt_lem (some a) (some b) h k l = ground arith
    le_of_not_lt_lem none y h k l = absurd cc
    le_of_not_lt_lem (some a) none h k l = absurd cc

    lt_of_not_le_lem :
        (x y : Fixed)
        → holds leb x x ≡ true
        → holds leb y y ≡ true
        → holds leb x y ≡ false
        → holds ltb y x ≡ true
    lt_of_not_le_lem (some a) (some b) h k l = ground arith
    lt_of_not_le_lem none y h k l = absurd cc
    lt_of_not_le_lem (some a) none h k l = absurd cc

    le_trans_lem :
        (x y z : Fixed) → holds leb x y ≡ true → holds leb y z ≡ true → holds leb x z ≡ true
    le_trans_lem (some a) (some b) (some c) h k = ground arith
    le_trans_lem none y z h k = absurd cc
    le_trans_lem (some a) none z h k = absurd cc
    le_trans_lem (some a) (some b) none h k = absurd cc

pub fixed-IsArithmetic : IsArithmetic Fixed
fixed-IsArithmetic = record {
  lt-of_nat = λ m n h k. ltb_scaled m n;
  of_nat-number = λ n. number_of_some (n * 1000);
  add_pos = λ x y. add_pos_lem x y;
  mul-of_nat = λ m n h. ap some (mul_scaled m n);
}
  where
    number_of_some : (a : ℕ) → leb a a ≡ true
    number_of_some a = ground arith

    ltb_scaled : (m n : ℕ) → ltb (m * 1000) (n * 1000) ≡ ltb m n
    ltb_scaled m n = ground arith

    mul_scaled : (m n : ℕ) → m * 1000 * (n * 1000) / 1000 ≡ m * n * 1000
    mul_scaled m n =
        ap (◌/ 1000) (sym (mul_assoc (m * 1000) n 1000))
        ∙ mul-div_cancel (m * 1000 * n) (omega arith)
        ∙ mul_assoc m 1000 n
        ∙ ap (m *◌) (mul_comm 1000 n)
        ∙ sym (mul_assoc m n 1000)

    add_pos_lem :
        (x y : Fixed)
        → holds leb (some 0) x ≡ true
        → holds ltb (some 0) y ≡ true
        → holds ltb (some 0) (both (◌+◌) x y) ≡ true
    add_pos_lem (some a) (some b) h k = ground arith
    add_pos_lem none y h k = absurd cc
    add_pos_lem (some a) none h k = absurd cc

pub fixed-IsBisecting : IsBisecting Fixed
fixed-IsBisecting = record {
  half_way = λ lo hi. half_way_lem lo hi;
  mean_between = λ lo hi. mean_between_lem lo hi;
}
  where
    half_way_lem :
        (lo hi : Fixed)
        → holds leb (some 0) lo ≡ true
        → holds leb lo hi ≡ true
        → holds leb hi (some 2048000) ≡ true
        → let mid = both (◌+◌) lo (both (λ a b. a * b / 1000) (both (◌-◌) hi lo) (some 500)) in
          (holds leb lo mid ≡ true) × (holds leb mid hi ≡ true)
    half_way_lem (some a) (some b) z h k = (ground arith, ground arith)
    half_way_lem none y z h k = absurd cc
    half_way_lem (some a) none z h k = absurd cc

    mean_between_lem :
        (lo hi : Fixed)
        → holds leb (some 0) lo ≡ true
        → holds leb lo hi ≡ true
        → holds leb hi (some 2048000) ≡ true
        → let mid = both (λ a b. a * b / 1000) (some 500) (both (◌+◌) lo hi) in
          (holds leb lo mid ≡ true) × (holds leb mid hi ≡ true)
    mean_between_lem (some a) (some b) z h k = (ground arith, ground arith)
    mean_between_lem none y z h k = absurd cc
    mean_between_lem (some a) none z h k = absurd cc

pub fixed-IsDividing : IsDividing Fixed
fixed-IsDividing = record {
  inverse_unit = λ x. inverse_unit_lem x;
  inverse_antitone = λ x y. inverse_antitone_lem x y;
  div_mono = λ x y t. div_mono_lem x y t;
  div_lowers = λ x t. div_lowers_lem x t;
  add_nonneg = λ x y. add_nonneg_lem x y;
}
  where
    above_zero : (a b : ℕ) → ltb a b ≡ true → (b == 0) ≡ false
    above_zero a b h = ground arith

    inverse_unit_lem :
        (x : Fixed)
        → holds ltb (some 1000) x ≡ true
        → (holds leb (some 0) (divide (some 1000) x) ≡ true)
          × (holds leb (divide (some 1000) x) (some 1000) ≡ true)
    inverse_unit_lem none h = absurd cc
    inverse_unit_lem (some a) h =
        let small : 1000000 / a ≤ 1000 = div-le_of_le-mul a (ground (arith, h)) in
        rw (above_zero 1000 a h) (ground arith, ground (arith, small))

    inverse_antitone_lem :
        (x y : Fixed)
        → holds ltb (some 1000) x ≡ true
        → holds leb x y ≡ true
        → holds leb (divide (some 1000) y) (divide (some 1000) x) ≡ true
    inverse_antitone_lem none y h k = absurd cc
    inverse_antitone_lem (some a) none h k = absurd cc
    inverse_antitone_lem (some a) (some b) h k =
        let below : a ≤ b = ground (arith, k) in
        let quotient : 1000000 / b ≤ 1000000 / a =
          (le-div_iff_mul-le (ground (arith, h))).1
            (omega (arith, mul-le-mul_left (1000000 / b) below, div-mul-le_self 1000000 b)) in
        rw (above_zero 1000 a h, above_zero 1000 b (ground (arith, h, below)))
          (ground (arith, quotient))

    div_mono_lem :
        (x y t : Fixed)
        → holds leb (some 0) x ≡ true
        → holds leb x y ≡ true
        → holds leb y (some 1000) ≡ true
        → holds ltb (some 1000) t ≡ true
        → holds leb (divide x t) (divide y t) ≡ true
    div_mono_lem none y t z h k l = absurd cc
    div_mono_lem (some a) none t z h k l = absurd cc
    div_mono_lem (some a) (some b) none z h k l = absurd cc
    div_mono_lem (some a) (some b) (some t) z h k l =
        let below : a ≤ b = ground (arith, h) in
        let quotient : a * 1000 / t ≤ b * 1000 / t =
          (le-div_iff_mul-le (ground (arith, l))).1
            (omega (arith, below, div-mul-le_self (a * 1000) t)) in
        rw (above_zero 1000 t l) (ground (arith, quotient))

    div_lowers_lem :
        (x t : Fixed)
        → holds leb (some 0) x ≡ true
        → holds leb x (some 1000) ≡ true
        → holds ltb (some 1000) t ≡ true
        → (holds leb (some 0) (divide x t) ≡ true) × (holds leb (divide x t) x ≡ true)
    div_lowers_lem none t z h k = absurd cc
    div_lowers_lem (some a) none z h k = absurd cc
    div_lowers_lem (some a) (some t) z h k =
        let above : 1000 ≤ t = ground (arith, k) in
        let quotient : a * 1000 / t ≤ a =
          div-le_of_le-mul t (omega (arith, mul-le-mul_right a above)) in
        rw (above_zero 1000 t k) (ground arith, ground (arith, quotient))

    add_nonneg_lem :
        (x y : Fixed)
        → holds leb (some 0) x ≡ true
        → holds leb (some 0) y ≡ true
        → holds leb (some 0) (both (◌+◌) x y) ≡ true
    add_nonneg_lem none y h k = absurd cc
    add_nonneg_lem (some a) none h k = absurd cc
    add_nonneg_lem (some a) (some b) h k = ground arith
