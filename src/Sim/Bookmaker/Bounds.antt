-- ===== src/Sim/Bookmaker/Bounds.antt =====
-- sim/Bookmaker.hpp, `quote`: the clamp of the odds.
use odds_engine.Base.{if-P, ℕ, ◌≤◌, ◌^◌, ◌<◌, if◌then◌else◌, arith}
use odds_engine.Float.{Double, IsOrdered, IsLe, IsLt, IsNumber}
use odds_engine.Sim.{Random}
use odds_engine.Sim.Bookmaker.{Bookmaker, max_odds_milli, min_odds_milli, odds_of, quote}

-- Doubles as far as the clamp uses them: whole numbers keep their order, a division by a positive
-- number is a number, and half is rounded up by adding 0.5 and truncating.
pub record IsQuoting (D : Type 0) ⦃d : Double D⦄ (to_uint32 : D → ℕ) : Type 0 where
  pub le-of_nat : (m n : ℕ) → m ≤ n → n < 2 ^ 32 → IsLe (d.of_nat m) (d.of_nat n)
  pub div-number : (x : D) → IsLt (d.of_nat 0) x → IsNumber (d.div (d.of_nat 1000) x)
  pub to_uint32_between :
      (lo hi : ℕ) (x : D)
      → hi < 2 ^ 32
      → IsLe (d.of_nat lo) x
      → IsLe x (d.of_nat hi)
      → let n = to_uint32 (d.add x (d.literal 5 1)) in (lo ≤ n) × (n ≤ hi)

abbrev pub InRange : ℕ → Type 0
InRange o = (min_odds_milli ≤ o) × (o ≤ max_odds_milli)

module _ {D : Type 0} ⦃d : Double D⦄ (to_uint32 : D → ℕ) (ordered : IsOrdered D)
    (quoting : IsQuoting D to_uint32) where
  open d use {of_nat, div, lt}

  of_nat-IsNumber : (n : ℕ) → n < 2 ^ 32 → IsNumber (of_nat n)
  of_nat-IsNumber n h = quoting.le-of_nat n n (omega arith) h

  odds_of-InRange : (q : D) → InRange (odds_of to_uint32 q)
  unfolding odds_of
  odds_of-InRange q =
      let milli = if lt (of_nat 0) q then div (of_nat 1000) q else of_nat max_odds_milli in
      let capped = if lt (of_nat max_odds_milli) milli then of_nat max_odds_milli else milli in
      let is_number : IsNumber milli =
        if-P (λ (x : D). IsNumber x) (lt (of_nat 0) q) _ _ (λ h. quoting.div-number q h)
          (λ h. of_nat-IsNumber max_odds_milli (omega arith)) in
      let below : IsLe capped (of_nat max_odds_milli) =
        if-P (λ (x : D). IsLe x (of_nat max_odds_milli)) (lt (of_nat max_odds_milli) milli) _ _
          (λ h. of_nat-IsNumber max_odds_milli (omega arith))
          (λ h.
            ordered.le_of_not_lt (of_nat max_odds_milli) milli
              (of_nat-IsNumber max_odds_milli (omega arith)) is_number h) in
      let held =
        if-P (λ (x : D). IsLe (of_nat min_odds_milli) x × IsLe x (of_nat max_odds_milli))
          (lt capped (of_nat min_odds_milli)) _ _
          (λ h. (
            of_nat-IsNumber min_odds_milli (omega arith),
            quoting.le-of_nat min_odds_milli max_odds_milli (omega arith) (omega arith),
          ))
          (λ h. (
            ordered.le_of_not_lt capped (of_nat min_odds_milli)
                (ordered.number_of_le capped (of_nat max_odds_milli) below).0
                (of_nat-IsNumber min_odds_milli (omega arith)) h,
            below,
          )) in
      quoting.to_uint32_between min_odds_milli max_odds_milli _ (omega arith) held.0 held.1

module _ {G D : Type 0} ⦃d : Double D⦄ ⦃r : Random G D⦄ (pow : D → D → D) (to_uint32 : D → ℕ)
    (ordered : IsOrdered D) (quoting : IsQuoting D to_uint32) where
  -- Whatever the generator draws and the history holds, each of a book's odds is from 1001 to 1000000.
  pub quote-InRange :
      (s : Bookmaker G D)
      → let odds = (quote pow to_uint32 s).0 in InRange odds.o0 × InRange odds.o1 × InRange odds.o2
  unfolding quote
  quote-InRange s = (
    odds_of-InRange to_uint32 ordered quoting _,
    odds_of-InRange to_uint32 ordered quoting _,
    odds_of-InRange to_uint32 ordered quoting _,
  )
