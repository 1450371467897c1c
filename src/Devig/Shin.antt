-- ===== src/Devig/Shin.antt =====
-- engine/Devig.hpp, `shin`: bisection for the insider fraction.
use odds_engine.Base.{ℕ, zero, suc, ◌+◌, true, false, not, List, map, if◌then◌else◌, length}
use odds_engine.Float.{Double}
use odds_engine.Devig.{
  DevigResult, ok, not_converged, blank, fill, valid_odds, inverse, sum_from, booksum, no_margin,
}
use odds_engine.Devig.Power.{Solution}

module _ {D : Type 0} ⦃d : Double D⦄ where
  open d use {of_nat, literal, add, sub, mul, div, lt, le, abs, sqrt}

  -- `prob_at(z, p)`, of the implied probabilities q and their sum.
  unfoldable pub prob_at : D → List D → D → List D
  prob_at total q z =
      map
        (λ x.
          div
            (sub
              (sqrt (add (mul z z) (div (mul (mul (mul (of_nat 4) (sub (of_nat 1) z)) x) x) total)))
              z)
            (mul (of_nat 2) (sub (of_nat 1) z)))
        q

  unfoldable pub g : D → List D → D → D
  unfolding prob_at
  g total q z = sub (sum_from (of_nat 0) (prob_at total q z)) (of_nat 1)

  -- `1.0 - 1e-9`
  abbrev pub top : D
  top = sub (of_nat 1) (literal 1 9)

  unfoldable pub bisect : (D → D) → D → ℕ → ℕ → D → D → D → Solution D
  bisect h tolerance zero passed lo hi z = record {
    root = z;
    iterations = passed;
    converged = false;
  }
  bisect h tolerance (suc left) passed lo hi z =
      let above = lt (of_nat 0) (h z) in
      let lo' = if above then z else lo in
      let hi' = if above then hi else z in
      let rest = bisect h tolerance left (passed + 1) lo' hi' (mul (literal 5 1) (add lo' hi')) in
      if lt (abs (h z)) tolerance
      then record { root = z; iterations = passed + 1; converged = true }
      else rest

  unfoldable pub shin : D → ℕ → List D → DevigResult D
  shin tolerance max_iterations odds =
      let total = booksum odds in
      let q = map inverse odds in
      let s =
        bisect (g total q) tolerance max_iterations 0 (of_nat 0) top
          (mul (literal 5 1) (add (of_nat 0) top)) in
      if not (valid_odds odds)
      then blank
      else (if le total (of_nat 1)
          then no_margin odds
          else (if lt (of_nat 0) (g total q top)
              then record blank { count = length odds; status = not_converged }
              else record {
                prob = fill (prob_at total q s.root);
                param = s.root;
                iterations = s.iterations;
                count = length odds;
                status = if s.converged then ok else not_converged;
                normalized = s.converged;
              }))
