-- ===== src/Devig/Power.antt =====
-- engine/Devig.hpp, `power`: Newton's method, kept inside a bracket by bisection.
pub mod Bracket
pub mod Verdict
use odds_engine.Base.{
  ℕ, zero, suc, ◌+◌, Bool, true, false, not, ◌||◌, ◌&&◌, List, [], ◌∷◌, map, if◌then◌else◌, length,
}
use odds_engine.Float.{Double}
use odds_engine.Devig.{
  DevigResult, ok, not_converged, blank, fill, valid_odds, inverse, sum_from, no_margin,
}

-- What the loop leaves: `k`, `out.iterations`, and whether it broke on convergence.
pub record Solution (D : Type 0) : Type 0 where
  pub root : D
  pub iterations : ℕ
  pub converged : Bool

module _ {D : Type 0} ⦃d : Double D⦄ where
  open d use {of_nat, literal, add, sub, mul, div, lt, le, eq, is_finite, abs, exp, log}

  abbrev pub log_implied : List D → List D
  log_implied odds = map (λ o. log (inverse o)) odds

  module _ (log_q : List D) where
    unfoldable pub f : D → D
    f k = sub (sum_from (of_nat 0) (map (λ l. exp (mul k l)) log_q)) (of_nat 1)

    unfoldable pub df : D → D
    df k = sum_from (of_nat 0) (map (λ l. mul l (exp (mul k l))) log_q)

    abbrev pub must_grow : D → Bool
    must_grow hi = lt (of_nat 0) (f hi) && lt hi (of_nat 1024)

    -- `while (f(hi) > 0.0 && hi < 1024.0) hi *= 2.0`; from 2 ten rounds are enough (`Bracket`).
    unfoldable pub grow : ℕ → D → D
    grow zero hi = hi
    grow (suc fuel) hi =
        let more = grow fuel (mul hi (of_nat 2)) in if must_grow hi then more else hi

    -- The next iterate inside the bracket.
    unfoldable pub newton : D → D → D → D
    newton lo hi k =
        let slope = df k in
        let next = if not (eq slope (of_nat 0)) then sub k (div (f k) slope) else k in
        if not (is_finite next) || not (lt lo next && lt next hi)
        then add lo (mul (sub hi lo) (literal 5 1))
        else next

    -- The loop with `left` rounds to go and `passed` behind it.
    unfoldable pub refine : D → ℕ → ℕ → D → D → D → Solution D
    refine tolerance zero passed lo hi k = record {
      root = k;
      iterations = passed;
      converged = false;
    }
    refine tolerance (suc left) passed lo hi k =
        let above = lt (of_nat 0) (f k) in
        let lo' = if above then k else lo in
        let hi' = if above then hi else k in
        let rest = refine tolerance left (passed + 1) lo' hi' (newton lo' hi' k) in
        if lt (abs (f k)) tolerance
        then record { root = k; iterations = passed + 1; converged = true }
        else rest

    abbrev pub upper : D
    upper = grow 10 (of_nat 2)

    abbrev pub solve : D → ℕ → Solution D
    solve tolerance max_iterations =
        refine tolerance max_iterations 0 (of_nat 1) upper
          (add (of_nat 1) (mul (sub upper (of_nat 1)) (literal 5 1)))

  unfoldable pub power : D → ℕ → List D → DevigResult D
  power tolerance max_iterations odds =
      let log_q = log_implied odds in
      let s = solve log_q tolerance max_iterations in
      if not (valid_odds odds)
      then blank
      else (if le (f log_q (of_nat 1)) (of_nat 0)
          then no_margin odds
          else (if lt (of_nat 0) (f log_q (upper log_q))
              then record blank { count = length odds; status = not_converged }
              else record {
                prob = fill (map (λ l. exp (mul s.root l)) log_q);
                param = s.root;
                iterations = s.iterations;
                count = length odds;
                status = if s.converged then ok else not_converged;
                normalized = s.converged;
              }))
