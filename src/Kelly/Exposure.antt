-- ===== src/Kelly/Exposure.antt =====
-- engine/Kelly.hpp, whole calls of `allocate`: when there is a bet, and the cap.
use odds_engine.Base.{
  ℕ, ◌≤◌, ◌<◌, ◌≡◌, refl, sym, ap, subst, ◌∙◌, ◌⊎◌, inl, inr, true, false, List, ◌==◌, ==_iff,
  arith, take, Bool-cases, length, splat, Quad,
}
use odds_engine.Float.{Double, IsOrdered, IsLt, IsLe}
use odds_engine.Kelly.{
  AllocationResult, valid_input, order, choose, stake_set, capped_result, allocate, zeroed,
}
use odds_engine.Kelly.Stakes.{AreStakes, rate_of, reserve-rate_of, capped_result-AreStakes}
use odds_engine.Kelly.Choice.{choose-IsLongest, bets-stake_set, length-betting_set}

module _ {D : Type 0} ⦃d : Double D⦄ where
  open d use {of_nat, lt, mul}

  max_pos_of_valid :
      (fair odds : List D) (kf me : D) → valid_input fair odds kf me ≡ true → IsLt (of_nat 0) me
  unfolding valid_input
  max_pos_of_valid fair odds kf me h = ground arith

  size_of_valid :
      (fair odds : List D) (kf me : D)
      → valid_input fair odds kf me ≡ true
      → (0 < length fair) × (length fair ≤ 4) × (length odds ≡ length fair)
  unfolding valid_input
  size_of_valid fair odds kf me h = ground arith

  capped_result-le :
      (ordered : IsOrdered D) (n : ℕ) (rate : D) (stakes : Quad D) (full : D) (bets : ℕ) (kf me : D)
      → IsLt (of_nat 0) me
      → let r = capped_result n rate stakes full bets kf me in
        r.has_bet ≡ true → IsLt (of_nat 0) r.total_stake × IsLe r.total_stake me × (r.bets ≡ bets)
  unfolding capped_result
  capped_result-le ordered n rate stakes full bets kf me pos =
      elim (Bool-cases (lt me (mul full kf))) [
        | inl c ↦ rw c (λ h. (pos, (ordered.number_of_lt _ _ pos).1, refl))
        | inr c ↦ rw c (λ h. (
          h,
          ordered.le_of_not_lt _ _ (ordered.number_of_lt _ _ pos).1 (ordered.number_of_lt _ _ h).1
              c,
          refl,
        ))
      ]

  -- What a bet rests on.
  pub record IsSound (fair odds : List D) (kf me : D) (r : AllocationResult D) : Type 0 where
    pub valid : valid_input fair odds kf me ≡ true
    pub positive : IsLt (of_nat 0) r.total_stake
    pub capped_at : IsLe r.total_stake me
    pub bets_eq : r.bets ≡ (choose fair odds (order fair odds) (length fair)).0
    pub some_bet : 0 < r.bets
    pub few_bets : r.bets ≤ length fair
    pub staked :
        let set = take (choose fair odds (order fair odds) (length fair)).0 (order fair odds) in
        AreStakes fair odds kf me (rate_of fair odds set) set r

  abbrev best : List D → List D → ℕ × D
  best fair odds = choose fair odds (order fair odds) (length fair)

  abbrev betting_set : List D → List D → Quad D × D × ℕ
  betting_set fair odds =
      stake_set fair odds (best fair odds).1 (take (best fair odds).0 (order fair odds))
        (splat (of_nat 0), of_nat 0, 0)

  abbrev priced : List D → List D → D → D → AllocationResult D
  priced fair odds kf me =
      let (stakes, full, bets) = betting_set fair odds in
      capped_result (length fair) (best fair odds).1 stakes full bets kf me

  -- The three ways out of `allocate`.
  pub allocate-cases :
      (fair odds : List D) (kf me : D)
      → ((valid_input fair odds kf me ≡ false) × (allocate fair odds kf me ≡ zeroed))
        ⊎ (((best fair odds).0 ≡ 0)
            × (allocate fair odds kf me ≡ record zeroed { count = length fair }))
        ⊎ ((valid_input fair odds kf me ≡ true)
            × (0 < (best fair odds).0)
            × (allocate fair odds kf me ≡ priced fair odds kf me))
  unfolding allocate
  allocate-cases fair odds kf me = elim (Bool-cases (valid_input fair odds kf me)) [
    | inr v ↦ inl (v, rw v)
    | inl v ↦ elim (Bool-cases ((best fair odds).0 == 0)) [
      | inl z ↦ inr (inl ((==_iff _ _).0 z, rw (v, z)))
      | inr z ↦ inr (inr (v, ground arith, rw (v, z)))
    ]
  ]

  best-rate_of :
      (fair odds : List D)
      → 0 < (best fair odds).0
      → (best fair odds).1 ≡ rate_of fair odds (take (best fair odds).0 (order fair odds))
  best-rate_of fair odds some_best =
      elim ((choose-IsLongest fair odds (order fair odds) (length fair)).chosen) [
        | inl (z, e) ↦ absurd (omega (arith, z, some_best))
        | inr (f, e) ↦ e ∙ reserve-rate_of fair odds (take (best fair odds).0 (order fair odds))
      ]

  IsSound-of_priced :
      (ordered : IsOrdered D) (fair odds : List D) (kf me : D)
      → valid_input fair odds kf me ≡ true
      → 0 < (best fair odds).0
      → (priced fair odds kf me).has_bet ≡ true
      → IsSound fair odds kf me (priced fair odds kf me)
  IsSound-of_priced ordered fair odds kf me v some_best h =
      let (k, rate) = best fair odds in
      let (stakes, full, bets) = betting_set fair odds in
      let within = (choose-IsLongest fair odds (order fair odds) (length fair)).within in
      let (pos, cap, count) =
        capped_result-le ordered (length fair) rate stakes full bets kf me
          (max_pos_of_valid fair odds kf me v) h in
      let size =
        bets-stake_set fair odds rate (take k (order fair odds)) (splat (of_nat 0)) (of_nat 0) 0 in
      let taken = length-betting_set fair odds k within in
      record {
        valid = v;
        positive = pos;
        capped_at = cap;
        bets_eq = omega (arith, count, size, taken);
        some_bet = omega (arith, count, size, taken, some_best);
        few_bets = omega (arith, count, size, taken, within);
        staked =
            subst
              (λ R. AreStakes fair odds kf me R (take k (order fair odds)) (priced fair odds kf me))
              (best-rate_of fair odds some_best)
              (capped_result-AreStakes fair odds (size_of_valid fair odds kf me v).1 k rate bets kf
                me);
      }

  -- A result with a bet comes from valid input; it bets on the first outcomes of the order, as many as
  -- the longest feasible prefix has, at least one. With R = (1 - P) / (1 - B) of these, where P is the
  -- sum of their chances and B that of their inverse odds, the stake of each is p - R / o, or 0 where
  -- that is negative, times the Kelly fraction; the others have 0 times the fraction. If the sum before
  -- the fraction, times it, is above the cap, each is multiplied by the cap over that total and the
  -- total stake is the cap; and else the total stake is that total. The total stake is positive and
  -- within the cap.
  pub allocate-IsSound :
      IsOrdered D
      → (fair odds : List D) (kf me : D) → (allocate fair odds kf me).has_bet ≡ true
      → IsSound fair odds kf me (allocate fair odds kf me)
  allocate-IsSound ordered fair odds kf me h = elim (allocate-cases fair odds kf me) [
    | inl (v, e) ↦ cc (ap (λ (r : AllocationResult D). r.has_bet) e)
    | inr (inl (z, e)) ↦ cc (ap (λ (r : AllocationResult D). r.has_bet) e)
    | inr (inr (v, k, e)) ↦ subst (IsSound fair odds kf me) (sym e) (
        IsSound-of_priced ordered fair odds kf me v k
          (sym (ap (λ (r : AllocationResult D). r.has_bet) e) ∙ h))
  ]
