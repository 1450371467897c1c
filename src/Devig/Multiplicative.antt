-- ===== src/Devig/Multiplicative.antt =====
-- engine/Devig.hpp, `multiplicative`: which odds it normalises.
use odds_engine.Base.{◌≤◌, ◌<◌, ◌≡◌, refl, ◌↔◌, true, false, List, [], ◌∷◌, arith, length, All}
use odds_engine.Float.{Double, IsLt}
use odds_engine.Devig.{
  usable_as_distribution, each_valid, valid_odds, booksum, no_margin, multiplicative, max_outcomes,
}

module _ {D : Type 0} ⦃d : Double D⦄ where
  open d use {of_nat, div, lt, le, is_finite}

  -- One to four odds, each finite and above one.
  abbrev pub AreOdds : List D → Type 0
  AreOdds odds =
      (0 < length odds)
      × (length odds ≤ max_outcomes)
      × All (λ o. (is_finite o ≡ true) × IsLt (of_nat 1) o) odds

  each_valid_iff :
      (odds : List D)
      → (each_valid odds ≡ true) ↔ All (λ o. (is_finite o ≡ true) × IsLt (of_nat 1) o) odds
  unfolding each_valid
  each_valid_iff [] = ((λ h. tt), λ h. refl)
  each_valid_iff (o ∷ os) =
      let (there, back) = each_valid_iff os in
      ((λ h. (ground arith, there (ground arith))), λ h. ground (arith, back h.1))

  -- The guard accepts exactly one to four odds that are finite and above one.
  pub valid_odds_iff : (odds : List D) → (valid_odds odds ≡ true) ↔ AreOdds odds
  unfolding valid_odds
  valid_odds_iff odds =
      let (there, back) = each_valid_iff odds in
      ((λ h. (ground arith, ground arith, there (ground arith))), λ h. ground (arith, back h.2))

  -- The multiplicative method gives a distribution exactly for odds whose implied probabilities sum
  -- to more than one.
  pub multiplicative-usable_iff :
      (odds : List D)
      → (usable_as_distribution (multiplicative odds) ≡ true)
        ↔ (AreOdds odds × (le (booksum odds) (of_nat 1) ≡ false))
  unfolding multiplicative no_margin usable_as_distribution
  multiplicative-usable_iff odds =
      let (there, back) = valid_odds_iff odds in
      ((λ h. (there (ground arith), ground arith)), λ h. ground (arith, back h.0))
