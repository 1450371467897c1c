-- ===== src/Devig/Fair.antt =====
-- engine/Devig.hpp, `multiplicative`: what the chances that it gives are.
use odds_engine.Base.{
  ℕ, zero, suc, ◌<◌, ◌≡◌, refl, sym, ap, subst, ◌∙◌, true, false, List, [], ◌∷◌, map, ltb,
  if◌then◌else◌, length, get_or, All, All-imp, arith, quad, slot, same_quad,
}
use odds_engine.Float.{Double, IsOrdered, IsArithmetic, IsDividing, IsLt, IsLe}
use odds_engine.Devig.{
  DevigResult, usable_as_distribution, booksum, inverse, sum_from, fill, multiplicative, valid_odds,
}
use odds_engine.Devig.Multiplicative.{AreOdds, valid_odds_iff, multiplicative-usable_iff}

get_or-map :
    {A B : Type 0} (f : A → B) (xs : List A) (i : ℕ) (a : A) (b : B)
    → get_or (map f xs) i b ≡ (if ltb i (length xs) then f (get_or xs i a) else b)
get_or-map f [] i a b = ground arith
get_or-map f (x ∷ xs) zero a b = ground arith
get_or-map f (x ∷ xs) (suc i) a b = get_or-map f xs i a b ∙ ground arith

All-get_or :
    {A : Type 0} (P : A → Type 0) (xs : List A) (i : ℕ) (a : A)
    → All P xs
    → i < length xs
    → P (get_or xs i a)
All-get_or P [] i a h k = absurd (omega arith)
All-get_or P (x ∷ xs) zero a (p, ps) k = p
All-get_or P (x ∷ xs) (suc i) a (p, ps) k = All-get_or P xs i a ps (omega arith)

module _ {D : Type 0} ⦃d : Double D⦄ (odds : List D) where
  open d use {of_nat, add, div, le}

  -- 1 / o_0 + 1 / o_1 + ...
  abbrev pub inverse_sum : D → List D → D
  inverse_sum acc [] = acc
  inverse_sum acc (o ∷ os) = inverse_sum (add acc (div (of_nat 1) o)) os

  abbrev pub quoted_odds : ℕ → D
  quoted_odds i = get_or odds i (of_nat 0)

  abbrev pub share : ℕ → D
  share i =
      if ltb i (length odds)
      then div (div (of_nat 1) (quoted_odds i)) (inverse_sum (of_nat 0) odds)
      else of_nat 0

  pub record IsFair (r : DevigResult D) : Type 0 where
    pub odds_valid : AreOdds odds
    pub some_margin : le (inverse_sum (of_nat 0) odds) (of_nat 1) ≡ false
    pub shares : r.prob ≡ quad (share 0) (share 1) (share 2) (share 3)
    pub count_eq : r.count ≡ length odds
    -- No chance is below 0, or above what the odds imply before the margin is taken out.
    pub lowered :
        (i : ℕ)
        → i < length odds
        → IsLe (of_nat 0) (slot r.prob i) × IsLe (slot r.prob i) (div (of_nat 1) (quoted_odds i))
    -- Shorter odds never get the smaller chance.
    pub ordered :
        (i j : ℕ)
        → i < length odds
        → j < length odds
        → IsLe (quoted_odds i) (quoted_odds j)
        → IsLe (slot r.prob j) (slot r.prob i)

  sum_from-inverse_sum :
      (os : List D) (acc : D) → sum_from acc (map inverse os) ≡ inverse_sum acc os
  sum_from-inverse_sum [] acc = refl
  sum_from-inverse_sum (o ∷ os) acc = sum_from-inverse_sum os _

  module _ (ordered : IsOrdered D) (dividing : IsDividing D) where
    open ordered use {number_of_lt, number_of_le, lt_of_not_le, le_trans}
    open dividing use {inverse_unit, inverse_antitone, div_mono, div_lowers, add_nonneg}

    inverse_sum_nonneg :
        (os : List D) (acc : D)
        → IsLe (of_nat 0) acc
        → All (λ o. IsLt (of_nat 1) o) os
        → IsLe (of_nat 0) (inverse_sum acc os)
    inverse_sum_nonneg [] acc h valid = h
    inverse_sum_nonneg (o ∷ os) acc h (v, valid) =
        inverse_sum_nonneg os _ (add_nonneg _ _ h (inverse_unit o v).0) valid

    -- Valid odds with a margin, and the chances that come of them.
    module _ (valid : AreOdds odds) (zero_number : IsLe (of_nat 0) (of_nat 0))
        (margin : le (inverse_sum (of_nat 0) odds) (of_nat 1) ≡ false) where
      above_one : (i : ℕ) → i < length odds → IsLt (of_nat 1) (quoted_odds i)
      above_one i h = (All-get_or _ odds i (of_nat 0) valid.2 h).1

      sum_above_one : IsLt (of_nat 1) (inverse_sum (of_nat 0) odds)
      sum_above_one =
          let sum_number =
            (number_of_le _ _ (
              inverse_sum_nonneg odds (of_nat 0) zero_number
                (All-imp odds (λ o p. p.1) valid.2))).1 in
          let one_number = (number_of_lt _ _ (above_one 0 valid.0)).0 in
          lt_of_not_le _ _ sum_number one_number margin

      share_in :
          (i : ℕ)
          → i < length odds
          → share i ≡ div (div (of_nat 1) (quoted_odds i)) (inverse_sum (of_nat 0) odds)
      share_in i h = let there : ltb i (length odds) ≡ true = ground arith in rw there refl

      share_lowered :
          (i : ℕ)
          → i < length odds
          → IsLe (of_nat 0) (share i) × IsLe (share i) (div (of_nat 1) (quoted_odds i))
      share_lowered i h =
          let (low, high) = inverse_unit (quoted_odds i) (above_one i h) in
          rw (share_in i h) (div_lowers _ _ low high sum_above_one)

      share_ordered :
          (i j : ℕ)
          → i < length odds
          → j < length odds
          → IsLe (quoted_odds i) (quoted_odds j)
          → IsLe (share j) (share i)
      share_ordered i j h k shorter =
          rw (share_in i h, share_in j k)
            (div_mono _ _ _ (inverse_unit _ (above_one j k)).0
              (inverse_antitone _ _ (above_one i h) shorter) (inverse_unit _ (above_one i h)).1
              sum_above_one)

  booksum-inverse_sum : booksum odds ≡ inverse_sum (of_nat 0) odds
  unfolding booksum
  booksum-inverse_sum = sum_from-inverse_sum odds (of_nat 0)

  slot_of_four : (f : ℕ → D) (i : ℕ) → i < 4 → slot (quad (f 0) (f 1) (f 2) (f 3)) i ≡ f i
  slot_of_four f zero h = refl
  slot_of_four f (suc zero) h = refl
  slot_of_four f (suc (suc zero)) h = refl
  slot_of_four f (suc (suc (suc zero))) h = refl
  slot_of_four f (suc (suc (suc (suc i)))) h = absurd (omega arith)

  fill-shares :
      fill (map (λ o. div (inverse o) (booksum odds)) odds)
      ≡ quad (share 0) (share 1) (share 2) (share 3)
  fill-shares =
      let at : (i : ℕ)
          → get_or (map (λ o. div (inverse o) (booksum odds)) odds) i (of_nat 0) ≡ share i =
        λ i.
          get_or-map (λ o. div (inverse o) (booksum odds)) odds i (of_nat 0) (of_nat 0)
          ∙ ap (λ s. if ltb i (length odds) then div (inverse (quoted_odds i)) s else of_nat 0)
              booksum-inverse_sum in
      same_quad (at 0) (at 1) (at 2) (at 3)

  -- The chances of a result that passes as a distribution are the inverse odds over their sum. It comes
  -- from one to four finite odds above one whose inverses sum to more than one; no chance is below 0 or
  -- above the inverse odds; and of two outcomes the one with the shorter odds has no smaller chance.
  pub multiplicative-IsFair :
      IsOrdered D
      → IsArithmetic D
      → IsDividing D
      → usable_as_distribution (multiplicative odds) ≡ true
      → IsFair (multiplicative odds)
  unfolding multiplicative
  multiplicative-IsFair ordered arithmetic dividing h =
      let (valid, more) = (multiplicative-usable_iff odds).0 h in
      let accepted : valid_odds odds ≡ true = (valid_odds_iff odds).1 valid in
      let margin : le (inverse_sum (of_nat 0) odds) (of_nat 1) ≡ false =
        ap (λ s. le s (of_nat 1)) (sym booksum-inverse_sum) ∙ more in
      let zero_number = arithmetic.of_nat-number 0 in
      let filled = fill (map (λ o. div (inverse o) (booksum odds)) odds) in
      let chance : (i : ℕ) → i < length odds → slot filled i ≡ share i =
        λ i k. ap (λ q. slot q i) fill-shares ∙ slot_of_four share i (omega (arith, valid.1)) in
      rw (accepted, more)
        (record {
          odds_valid = valid;
          some_margin = margin;
          shares = fill-shares;
          count_eq = refl;
          lowered = λ i k.
              subst (λ x. IsLe (of_nat 0) x × IsLe x (div (of_nat 1) (quoted_odds i)))
                (sym (chance i k)) (share_lowered ordered dividing valid zero_number margin i k);
          ordered = λ i j k l shorter.
              subst (λ x. IsLe x (slot filled i)) (sym (chance j l))
                (subst (λ x. IsLe (share j) x) (sym (chance i k))
                  (share_ordered ordered dividing valid zero_number margin i j k l shorter));
        })
