-- ===== src/Kelly/Choice.antt =====
-- engine/Kelly.hpp, the choice of the betting set.
use odds_engine.Base.{
  ℕ, zero, suc, ◌≤◌, ◌<◌, ◌+◌, ◌≡◌, refl, ◌⊎◌, inl, inr, true, false, List, [], ◌∷◌, arith, take,
  Bool-cases, length, length-take, Quad,
}
use odds_engine.Float.{Double}
use odds_engine.Kelly.{feasible, choose, reserve, stake_set, order}
use odds_engine.Kelly.Order.{length-order}

module _ {D : Type 0} ⦃d : Double D⦄ (fair odds : List D) where
  open d use {of_nat}

  -- k is the length of the longest feasible prefix of up to n outcomes, or 0 if none is feasible, and
  -- the rate is the reserve of that prefix.
  pub record IsLongest (ord : List ℕ) (n : ℕ) (best : ℕ × D) : Type 0 where
    pub within : best.0 ≤ n
    pub longest : (j : ℕ) → best.0 < j → j ≤ n → feasible fair odds ord j ≡ false
    pub chosen :
        ((best.0 ≡ 0) × (best.1 ≡ of_nat 1))
        ⊎ ((feasible fair odds ord best.0 ≡ true) × (best.1 ≡ reserve fair odds (take best.0 ord)))

  -- The scan finds the longest feasible prefix of any order.
  pub choose-IsLongest : (ord : List ℕ) (n : ℕ) → IsLongest ord n (choose fair odds ord n)
  unfolding choose
  choose-IsLongest ord zero = record {
    within = omega arith;
    longest = λ j l h. absurd (omega arith);
    chosen = inl (refl, refl);
  }
  choose-IsLongest ord (suc n) = elim (Bool-cases (feasible fair odds ord (suc n))) [
    | inl f ↦ rw f (record {
      within = omega arith;
      longest = λ j l h. absurd (omega arith);
      chosen = inr (f, refl);
    })
    | inr f ↦
        let ih = choose-IsLongest ord n in
        rw f (record {
          within = omega (arith, ih.within);
          longest = λ j l h. ground (arith, ih.longest j l);
          chosen = ih.chosen;
        })
  ]

  pub bets-stake_set :
      (rate : D) (is : List ℕ) (stakes : Quad D) (full : D) (bets : ℕ)
      → (stake_set fair odds rate is (stakes, full, bets)).2 ≡ bets + length is
  unfolding stake_set
  bets-stake_set rate [] stakes full bets = omega arith
  bets-stake_set rate (i ∷ is) stakes full bets =
      omega (arith, bets-stake_set rate is _ _ (bets + 1))

  pub length-betting_set : (k : ℕ) → k ≤ length fair → length (take k (order fair odds)) ≡ k
  length-betting_set k h = omega (arith, length-take k (order fair odds), length-order fair odds)
