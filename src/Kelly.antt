-- ===== src/Kelly.antt =====
-- engine/Kelly.hpp: stakes for mutually exclusive outcomes.
pub mod Order
pub mod Choice
pub mod Exposure
pub mod Stakes
pub mod Slots
use mathlib.Core.List.{reverse}
use odds_engine.Base.{
  ℕ, zero, suc, ◌+◌, ◌-◌, Bool, true, false, not, ◌||◌, ◌&&◌, List, [], ◌∷◌, ltb, ◌==◌,
  if◌then◌else◌, Quad, splat, slot, set_slot, zip_prefix, length, get_or, take,
}
use odds_engine.Float.{Double}

pub record AllocationResult (D : Type 0) : Type 0 where
  pub stake : Quad D
  pub count : ℕ
  pub total_stake : D
  pub reserve_rate : D
  pub bets : ℕ
  pub has_bet : Bool
  pub capped : Bool

-- The indices 0 .. n - 1.
abbrev pub indices_from : ℕ → ℕ → List ℕ
indices_from i zero = []
indices_from i (suc n) = i ∷ indices_from (i + 1) n

module _ {D : Type 0} ⦃d : Double D⦄ where
  open d use {of_nat, add, sub, mul, div, lt, le, is_finite}

  abbrev pub zeroed : AllocationResult D
  zeroed = record {
    stake = splat (of_nat 0);
    count = 0;
    total_stake = of_nat 0;
    reserve_rate = of_nat 1;
    bets = 0;
    has_bet = false;
    capped = false;
  }

  -- The pairs of spans that the loop over the inputs lets pass.
  unfoldable pub valid_pairs : List D → List D → Bool
  valid_pairs [] odds = true
  valid_pairs (p ∷ ps) [] = false
  valid_pairs (p ∷ ps) (o ∷ os) =
      let rest = valid_pairs ps os in
      not (not (is_finite p) || not (is_finite o))
      && not (lt p (of_nat 0) || not (lt (of_nat 1) o))
      && rest

  unfoldable pub valid_input : List D → List D → D → D → Bool
  valid_input fair odds kelly_fraction max_exposure =
      not (length fair == 0 || ltb 4 (length fair) || not (length odds == length fair))
      && not (not (lt (of_nat 0) kelly_fraction) || not (lt (of_nat 0) max_exposure))
      && valid_pairs fair odds

  module _ (fair odds : List D) where
    abbrev pub fair_at : ℕ → D
    fair_at i = get_or fair i (of_nat 0)

    abbrev pub odds_at : ℕ → D
    odds_at i = get_or odds i (of_nat 0)

    -- The expected revenue rate of an outcome.
    abbrev pub edge : ℕ → D
    edge i = mul (fair_at i) (odds_at i)

    -- One round of the insertion sort. The list is order[j - 1], order[j - 2], ... of the sorted part,
    -- the end that the inner loop starts from first.
    unfoldable pub insert_key : ℕ → List ℕ → List ℕ
    insert_key key [] = key ∷ []
    insert_key key (r ∷ rs) =
        let rest = insert_key key rs in if lt (edge r) (edge key) then r ∷ rest else key ∷ (r ∷ rs)

    unfoldable pub insert_keys : List ℕ → List ℕ → List ℕ
    insert_keys [] sorted = sorted
    insert_keys (key ∷ keys) sorted = insert_keys keys (insert_key key sorted)

    unfoldable pub order : List ℕ
    order = reverse (insert_keys (indices_from 0 (length fair)) [])

    -- P and B of a prefix of the order.
    abbrev pub sum_fair : D → List ℕ → D
    sum_fair acc [] = acc
    sum_fair acc (i ∷ is) = sum_fair (add acc (fair_at i)) is

    abbrev pub sum_inverse : D → List ℕ → D
    sum_inverse acc [] = acc
    sum_inverse acc (i ∷ is) = sum_inverse (add acc (div (of_nat 1) (odds_at i))) is

    abbrev pub denominator : List ℕ → D
    denominator is = sub (of_nat 1) (sum_inverse (of_nat 0) is)

    abbrev pub reserve : List ℕ → D
    reserve is = div (sub (of_nat 1) (sum_fair (of_nat 0) is)) (denominator is)

    -- A reserve exists for the prefix of length k, and its weakest member beats it.
    unfoldable pub feasible : List ℕ → ℕ → Bool
    feasible ord k =
        not (le (denominator (take k ord)) (of_nat 0))
        && lt (reserve (take k ord)) (edge (get_or ord (k - 1) 0))

    -- `for (k = n; k >= 1; --k)`, up to the first that is feasible: best_k and best_R.
    unfoldable pub choose : List ℕ → ℕ → ℕ × D
    choose ord zero = (0, of_nat 1)
    choose ord (suc k) =
        let rest = choose ord k in
        if feasible ord (suc k) then (suc k, reserve (take (suc k) ord)) else rest

    abbrev pub full_stake : D → ℕ → D
    full_stake rate i =
        let f = sub (fair_at i) (div rate (odds_at i)) in if lt f (of_nat 0) then of_nat 0 else f

    -- The loop over the betting set: the stakes, their sum and their number.
    unfoldable pub stake_set : D → List ℕ → Quad D × D × ℕ → Quad D × D × ℕ
    stake_set rate [] acc = acc
    stake_set rate (i ∷ is) (stakes, full_total, bets) =
        stake_set rate is
          (set_slot stakes i (full_stake rate i), add full_total (full_stake rate i), bets + 1)

  -- `stake[i] *= c` for i < n.
  abbrev pub scale : ℕ → D → Quad D → Quad D
  scale n c q = zip_prefix n (λ s _. mul s c) q q

  -- From the full-Kelly stakes to the result: fractional Kelly, then the cap.
  unfoldable pub capped_result : ℕ → D → Quad D → D → ℕ → D → D → AllocationResult D
  capped_result n rate stakes full_total bets kelly_fraction max_exposure =
      let fractional = scale n kelly_fraction stakes in
      let total = mul full_total kelly_fraction in
      if lt max_exposure total
      then record {
        stake = scale n (div max_exposure total) fractional;
        count = n;
        total_stake = max_exposure;
        reserve_rate = rate;
        bets = bets;
        has_bet = lt (of_nat 0) max_exposure;
        capped = true;
      }
      else record {
        stake = fractional;
        count = n;
        total_stake = total;
        reserve_rate = rate;
        bets = bets;
        has_bet = lt (of_nat 0) total;
        capped = false;
      }

  unfoldable pub allocate : List D → List D → D → D → AllocationResult D
  allocate fair odds kelly_fraction max_exposure =
      let n = length fair in
      let ord = order fair odds in
      let (best_k, best_rate) = choose fair odds ord n in
      let (stakes, full_total, bets) =
        stake_set fair odds best_rate (take best_k ord) (splat (of_nat 0), of_nat 0, 0) in
      if not (valid_input fair odds kelly_fraction max_exposure)
      then zeroed
      else (if best_k == 0
          then record zeroed { count = n }
          else capped_result n best_rate stakes full_total bets kelly_fraction max_exposure)
