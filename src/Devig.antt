-- ===== src/Devig.antt =====
-- engine/Devig.hpp: from quoted odds to implied beliefs. Here what the methods share, and the
-- multiplicative one; the two that solve an equation are children.
pub mod Power
pub mod Shin
pub mod Multiplicative
pub mod Fair
use odds_engine.Base.{
  ℕ, Bool, true, false, not, ◌||◌, ◌&&◌, List, [], ◌∷◌, map, ltb, ◌==◌, if◌then◌else◌, Quad, quad,
  splat, length, get_or,
}
use odds_engine.Float.{Double}

abbrev pub max_outcomes : ℕ
max_outcomes = 4

pub data Status : Type 0 where
  ok no_margin_to_remove invalid_input not_converged : Status

pub record DevigResult (D : Type 0) : Type 0 where
  pub prob : Quad D
  pub param : D
  pub iterations : ℕ
  pub count : ℕ
  pub status : Status
  pub normalized : Bool

abbrev pub is_ok : Status → Bool
is_ok ok = true
is_ok _ = false

unfoldable pub usable : {D : Type 0} → DevigResult D → Bool
usable r = is_ok r.status

unfoldable pub usable_as_distribution : {D : Type 0} → DevigResult D → Bool
usable_as_distribution r = is_ok r.status && r.normalized

module _ {D : Type 0} ⦃d : Double D⦄ where
  open d use {of_nat, add, sub, mul, div, lt, le, is_finite}

  abbrev pub blank : DevigResult D
  blank = record {
    prob = splat (of_nat 0);
    param = of_nat 1;
    iterations = 0;
    count = 0;
    status = invalid_input;
    normalized = false;
  }

  -- `out.prob[i] = xs[i]` for i below the length, at most 4; the other slots stay zero.
  abbrev pub fill : List D → Quad D
  fill xs =
      quad (get_or xs 0 (of_nat 0)) (get_or xs 1 (of_nat 0)) (get_or xs 2 (of_nat 0))
        (get_or xs 3 (of_nat 0))

  unfoldable pub each_valid : List D → Bool
  each_valid [] = true
  each_valid (o ∷ os) =
      let rest = each_valid os in not (not (is_finite o) || not (lt (of_nat 1) o)) && rest

  unfoldable pub valid_odds : List D → Bool
  valid_odds odds = not (length odds == 0 || ltb max_outcomes (length odds)) && each_valid odds

  abbrev pub inverse : D → D
  inverse o = div (of_nat 1) o

  abbrev pub sum_from : D → List D → D
  sum_from acc [] = acc
  sum_from acc (x ∷ xs) = sum_from (add acc x) xs

  unfoldable pub booksum : List D → D
  booksum odds = sum_from (of_nat 0) (map inverse odds)

  unfoldable pub overround : List D → D
  overround odds = sub (booksum odds) (of_nat 1)

  unfoldable pub implied : List D → DevigResult D
  implied odds =
      if not (valid_odds odds)
      then blank
      else record blank { count = length odds; prob = fill (map inverse odds); status = ok }

  unfoldable pub no_margin : List D → DevigResult D
  no_margin odds = record blank {
    count = length odds;
    prob = fill (map inverse odds);
    status = no_margin_to_remove;
  }

  unfoldable pub multiplicative : List D → DevigResult D
  multiplicative odds =
      let total = booksum odds in
      if not (valid_odds odds)
      then blank
      else (if le total (of_nat 1) then no_margin odds else record blank {
        count = length odds;
        prob = fill (map (λ o. div (inverse o) total) odds);
        status = ok;
        normalized = true;
      })
