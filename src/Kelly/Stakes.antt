-- ===== src/Kelly/Stakes.antt =====
-- engine/Kelly.hpp: what each outcome's stake comes to, by a formula that knows of no loop.
use odds_engine.Base.{
  same_quad, ℕ, zero, suc, ◌+◌, ◌≤◌, ◌<◌, ◌≡◌, refl, sym, ap, subst, ◌∙◌, Bool, true, false, ◌||◌,
  List, [], ◌∷◌, ltb, ◌==◌, ==_iff, if◌then◌else◌, arith, take, length, Quad, quad, slot, set_slot,
  splat, get_or, Bool-cases, inl, inr,
}
use odds_engine.Float.{Double}
use odds_engine.Kelly.{
  AllocationResult, indices_from, sum_fair, sum_inverse, reserve, insert_key, insert_keys, order,
  stake_set, scale, capped_result,
}
use odds_engine.Kelly.Slots.{
  is_in, is_in-reverse, is_in-take, is_in-indices_from, slot-set_slot, join, past_end,
  past_end_twice, scale_slots,
}

module _ {D : Type 0} ⦃d : Double D⦄ where
  open d use {of_nat, add, sub, mul, div, lt}

  abbrev pub sum_of : (ℕ → D) → D → List ℕ → D
  sum_of value acc [] = acc
  sum_of value acc (i ∷ is) = sum_of value (add acc (value i)) is

  module _ (fair odds : List D) where
    -- What is left of the bankroll per unit of the odds that a betting set leaves open.
    abbrev pub rate_of : List ℕ → D
    rate_of set =
        div (sub (of_nat 1) (sum_of (λ i. get_or fair i (of_nat 0)) (of_nat 0) set))
          (sub (of_nat 1) (sum_of (λ i. div (of_nat 1) (get_or odds i (of_nat 0))) (of_nat 0) set))

    -- p - R / o, and not below zero.
    abbrev pub full_kelly : D → ℕ → D
    full_kelly rate i =
        let f = sub (get_or fair i (of_nat 0)) (div rate (get_or odds i (of_nat 0))) in
        if lt f (of_nat 0) then of_nat 0 else f

    abbrev pub fractional_total : D → D → List ℕ → D
    fractional_total kf rate set = mul (sum_of (full_kelly rate) (of_nat 0) set) kf

    -- The stake of an outcome: nothing outside of the betting set, its Kelly stake times the fraction
    -- in it, and all of them shrunk alike where they exceed the cap together.
    abbrev pub stake_of : D → D → D → List ℕ → ℕ → D
    stake_of kf me rate set i =
        let own = mul (if is_in i set then full_kelly rate i else of_nat 0) kf in
        let total = fractional_total kf rate set in
        if ltb i (length fair)
        then (if lt me total then mul own (div me total) else own)
        else of_nat 0

    abbrev pub stakes_of : D → D → D → List ℕ → Quad D
    stakes_of kf me rate set =
        quad (stake_of kf me rate set 0) (stake_of kf me rate set 1) (stake_of kf me rate set 2)
          (stake_of kf me rate set 3)

    -- All the numbers of a result with this betting set and this rate.
    pub record AreStakes (kf me rate : D) (set : List ℕ) (r : AllocationResult D) : Type 0 where
      pub stake_eq : r.stake ≡ stakes_of kf me rate set
      pub total_eq :
          r.total_stake
          ≡ (if lt me (fractional_total kf rate set) then me else fractional_total kf rate set)
      pub capped_eq : r.capped ≡ lt me (fractional_total kf rate set)
      pub rate_eq : r.reserve_rate ≡ rate
      pub count_eq : r.count ≡ length fair

    sum_fair-sum_of :
        (is : List ℕ) (acc : D)
        → sum_fair fair odds acc is ≡ sum_of (λ i. get_or fair i (of_nat 0)) acc is
    sum_fair-sum_of [] acc = refl
    sum_fair-sum_of (i ∷ is) acc = sum_fair-sum_of is _

    sum_inverse-sum_of :
        (is : List ℕ) (acc : D)
        → sum_inverse fair odds acc is
          ≡ sum_of (λ i. div (of_nat 1) (get_or odds i (of_nat 0))) acc is
    sum_inverse-sum_of [] acc = refl
    sum_inverse-sum_of (i ∷ is) acc = sum_inverse-sum_of is _

    pub reserve-rate_of : (set : List ℕ) → reserve fair odds set ≡ rate_of set
    reserve-rate_of set =
        ap (λ p. div (sub (of_nat 1) p) (sub (of_nat 1) (sum_inverse fair odds (of_nat 0) set)))
          (sum_fair-sum_of set (of_nat 0))
        ∙ ap
            (λ b.
              div (sub (of_nat 1) (sum_of (λ i. get_or fair i (of_nat 0)) (of_nat 0) set))
                (sub (of_nat 1) b))
            (sum_inverse-sum_of set (of_nat 0))

    slot-stake_set :
        (rate : D) (is : List ℕ) (stakes : Quad D) (total : D) (bets i : ℕ)
        → i < 4
        → slot (stake_set fair odds rate is (stakes, total, bets)).0 i
          ≡ (if is_in i is then full_kelly rate i else slot stakes i)
    unfolding stake_set
    slot-stake_set rate [] stakes total bets i h = refl
    slot-stake_set rate (j ∷ is) stakes total bets i h =
        slot-stake_set rate is (set_slot stakes j (full_kelly rate j)) _ (bets + 1) i h
        ∙ ap (λ x. if is_in i is then full_kelly rate i else x)
            (slot-set_slot stakes i j (full_kelly rate j) h)
        ∙ join (i == j) (is_in i is) _ _ _ (λ e. ap (full_kelly rate) (sym ((==_iff i j).0 e)))

    total-stake_set :
        (rate : D) (is : List ℕ) (stakes : Quad D) (total : D) (bets : ℕ)
        → (stake_set fair odds rate is (stakes, total, bets)).1 ≡ sum_of (full_kelly rate) total is
    unfolding stake_set
    total-stake_set rate [] stakes total bets = refl
    total-stake_set rate (j ∷ is) stakes total bets = total-stake_set rate is _ _ (bets + 1)

    scale-scale_slots :
        (n : ℕ) (c : D) (q : Quad D) → n ≤ 4 → scale n c q ≡ scale_slots n (λ s. mul s c) q
    unfolding scale_slots
    scale-scale_slots zero c q h = refl
    scale-scale_slots (suc zero) c q h = refl
    scale-scale_slots (suc (suc zero)) c q h = refl
    scale-scale_slots (suc (suc (suc zero))) c q h = refl
    scale-scale_slots (suc (suc (suc (suc zero)))) c q h = refl
    scale-scale_slots (suc (suc (suc (suc (suc n))))) c q h = absurd (omega arith)

    is_in-insert_key :
        (i key : ℕ) (rs : List ℕ) → is_in i (insert_key fair odds key rs) ≡ (i == key || is_in i rs)
    unfolding insert_key
    is_in-insert_key i key [] = refl
    is_in-insert_key i key (r ∷ rs) = ground (arith, is_in-insert_key i key rs)

    is_in-insert_keys :
        (i : ℕ) (keys sorted : List ℕ)
        → is_in i (insert_keys fair odds keys sorted) ≡ (is_in i keys || is_in i sorted)
    unfolding insert_keys
    is_in-insert_keys i [] sorted = refl
    is_in-insert_keys i (key ∷ keys) sorted =
        is_in-insert_keys i keys (insert_key fair odds key sorted)
        ∙ ground (arith, is_in-insert_key i key sorted)

    -- No outcome past the last one gets into a betting set.
    is_in-order : (i k : ℕ) → length fair ≤ i → is_in i (take k (order fair odds)) ≡ false
    unfolding order
    is_in-order i k h =
        let keys = indices_from 0 (length fair) in
        is_in-take i k (order fair odds) (
          is_in-reverse i (insert_keys fair odds keys [])
          ∙ is_in-insert_keys i keys []
          ∙ ground (arith, is_in-indices_from i 0 (length fair) (omega arith)))

    -- What an outcome has before the fraction and the cap.
    abbrev full_of : D → List ℕ → ℕ → D
    full_of rate set i = if is_in i set then full_kelly rate i else of_nat 0

    abbrev full_set : D → List ℕ → Quad D
    full_set rate set =
        quad (full_of rate set 0) (full_of rate set 1) (full_of rate set 2) (full_of rate set 3)

    full_stake_set :
        (rate : D) (set : List ℕ)
        → (stake_set fair odds rate set (splat (of_nat 0), of_nat 0, 0)).0 ≡ full_set rate set
    full_stake_set rate set =
        let at : (i : ℕ)
            → i < 4
            → slot (stake_set fair odds rate set (splat (of_nat 0), of_nat 0, 0)).0 i
              ≡ (if is_in i set then full_kelly rate i else slot (splat (of_nat 0)) i) =
          slot-stake_set rate set (splat (of_nat 0)) (of_nat 0) 0 in
        same_quad (at 0 (omega arith)) (at 1 (omega arith)) (at 2 (omega arith))
          (at 3 (omega arith))

    module _ (few : length fair ≤ 4) (k : ℕ) (rate : D) (bets : ℕ) (kf me : D) where
      abbrev set : List ℕ
      set = take k (order fair odds)

      none_past : (i : ℕ) → ltb i (length fair) ≡ false → full_of rate set i ≡ of_nat 0
      none_past i h =
          ap (λ b. if b then full_kelly rate i else of_nat 0) (is_in-order i k (ground (arith, h)))

      abbrev stake_if : Bool → ℕ → D
      stake_if capped i =
          let own = mul (full_of rate set i) kf in
          if ltb i (length fair)
          then (if capped then mul own (div me (fractional_total kf rate set)) else own)
          else of_nat 0

      once :
          (i : ℕ)
          → (if ltb i (length fair) then mul (full_of rate set i) kf else full_of rate set i)
            ≡ stake_if false i
      once i = past_end (ltb i (length fair)) (λ x. mul x kf) _ _ (none_past i)

      twice :
          (i : ℕ)
          → let own =
              if ltb i (length fair) then mul (full_of rate set i) kf else full_of rate set i in
            (if ltb i (length fair) then mul own (div me (fractional_total kf rate set)) else own)
            ≡ stake_if true i
      twice i =
          past_end_twice (ltb i (length fair)) (λ x. mul x kf)
            (λ x. mul x (div me (fractional_total kf rate set))) _ _ (none_past i)

      scaled :
          (capped : Bool)
          → (if capped
              then scale
                  (length fair)
                  (div me (fractional_total kf rate set))
                  (scale (length fair) kf (full_set rate set))
              else scale (length fair) kf (full_set rate set))
            ≡ quad (stake_if capped 0) (stake_if capped 1) (stake_if capped 2) (stake_if capped 3)
      unfolding scale_slots
      scaled true =
          let c = div me (fractional_total kf rate set) in
          ap (scale (length fair) c) (scale-scale_slots (length fair) kf (full_set rate set) few)
          ∙ scale-scale_slots (length fair) c
              (scale_slots (length fair) (λ s. mul s kf) (full_set rate set)) few
          ∙ same_quad (twice 0) (twice 1) (twice 2) (twice 3)
      scaled false =
          scale-scale_slots (length fair) kf (full_set rate set) few
          ∙ same_quad (once 0) (once 1) (once 2) (once 3)

      split :
          let total = fractional_total kf rate set in
          let r =
            capped_result
              (length fair)
              rate
              (full_set rate set)
              (sum_of (full_kelly rate) (of_nat 0) set)
              bets
              kf
              me in
          (r.stake ≡ (
            if lt me total
            then scale (length fair) (div me total) (scale (length fair) kf (full_set rate set))
            else scale (length fair) kf (full_set rate set)))
          × (r.total_stake ≡ (if lt me total then me else total))
          × (r.capped ≡ lt me total)
          × (r.reserve_rate ≡ rate)
          × (r.count ≡ length fair)
      unfolding capped_result
      split = elim (Bool-cases (lt me (fractional_total kf rate set))) [
        | inl c ↦ rw c (refl, refl, refl, refl, refl)
        | inr c ↦ rw c (refl, refl, refl, refl, refl)
      ]

      -- The result for a betting set has the numbers of the formulas.
      pub capped_result-AreStakes :
          let (stakes, full, count) =
            stake_set fair odds rate set (splat (of_nat 0), of_nat 0, 0) in
          AreStakes kf me rate set (capped_result (length fair) rate stakes full bets kf me)
      capped_result-AreStakes =
          let (e, t, c, r, n) = split in
          subst
            (λ q. AreStakes kf me rate set (
              capped_result (length fair) rate q
                (stake_set fair odds rate set (splat (of_nat 0), of_nat 0, 0)).1 bets kf me))
            (sym (full_stake_set rate set))
            (subst
              (λ f.
                AreStakes kf me rate set
                  (capped_result (length fair) rate (full_set rate set) f bets kf me))
              (sym (total-stake_set rate set (splat (of_nat 0)) (of_nat 0) 0))
              (record {
                stake_eq = e ∙ scaled (lt me (fractional_total kf rate set));
                total_eq = t;
                capped_eq = c;
                rate_eq = r;
                count_eq = n;
              }))
