-- ===== src/Devig/Power/Verdict.antt =====
-- engine/Devig.hpp, what the results of `power` and `shin` that pass as distributions rest on.
use odds_engine.Base.{
  ℕ, zero, suc, ◌+◌, ◌≤◌, ◌<◌, ◌≡◌, refl, inl, inr, true, false, List, map, arith, Bool-cases,
  length, if◌then◌else◌,
}
use odds_engine.Float.{Double, IsOrdered, IsArithmetic, IsBisecting, IsLe, IsLt}
use odds_engine.Devig.{DevigResult, usable_as_distribution, fill, valid_odds, no_margin}
use odds_engine.Devig.Multiplicative.{AreOdds, valid_odds_iff}
use odds_engine.Devig.Power.{Solution, log_implied, f, newton, refine, upper, solve, power}
use odds_engine.Devig.Power.Bracket.{solve-Within}
use odds_engine.Devig.Shin.{bisect}

module _ {D : Type 0} ⦃d : Double D⦄ where
  open d use {of_nat, literal, add, mul, lt, le, abs, exp}

  -- A loop that was given `left` rounds after `passed`: it used no more, and where it says that it
  -- converged it did, in a round of its own.
  abbrev pub IsHonest : (D → D) → D → ℕ → ℕ → Solution D → Type 0
  IsHonest h tolerance left passed s =
      (passed ≤ s.iterations)
      × (s.iterations ≤ passed + left)
      × (s.converged ≡ true → IsLt (abs (h s.root)) tolerance × (passed < s.iterations))

  refine-IsHonest :
      (log_q : List D) (tolerance : D) (left passed : ℕ) (lo hi k : D)
      → IsHonest (f log_q) tolerance left passed (refine log_q tolerance left passed lo hi k)
  unfolding refine
  refine-IsHonest log_q tol zero passed lo hi k = (omega arith, omega arith, λ h. cc)
  refine-IsHonest log_q tol (suc left) passed lo hi k =
      elim (Bool-cases (lt (abs (f log_q k)) tol)) [
        | inl near ↦ rw near (omega arith, omega arith, λ h. (near, omega arith))
        | inr far ↦
            let above = lt (of_nat 0) (f log_q k) in
            let lo' = if above then k else lo in
            let hi' = if above then hi else k in
            let ih = refine-IsHonest log_q tol left (passed + 1) lo' hi' (newton log_q lo' hi' k) in
            rw far (
              omega (arith, ih.0),
              omega (arith, ih.1),
              λ h. ((ih.2 h).0, omega (arith, (ih.2 h).1)),
            )
      ]

  bisect-IsHonest :
      (h : D → D) (tolerance : D) (left passed : ℕ) (lo hi z : D)
      → IsHonest h tolerance left passed (bisect h tolerance left passed lo hi z)
  unfolding bisect
  bisect-IsHonest h tol zero passed lo hi z = (omega arith, omega arith, λ h. cc)
  bisect-IsHonest h tol (suc left) passed lo hi z = elim (Bool-cases (lt (abs (h z)) tol)) [
    | inl near ↦ rw near (omega arith, omega arith, λ h. (near, omega arith))
    | inr far ↦
        let above = lt (of_nat 0) (h z) in
        let lo' = if above then z else lo in
        let hi' = if above then hi else z in
        let ih =
          bisect-IsHonest h tol left (passed + 1) lo' hi' (mul (literal 5 1) (add lo' hi')) in
        rw far
          (omega (arith, ih.0), omega (arith, ih.1), λ c. ((ih.2 c).0, omega (arith, (ih.2 c).1)))
  ]

  -- What stands behind a result of `power` that passes as a distribution.
  pub record IsPowerRoot (tolerance : D) (rounds : ℕ) (odds : List D) (r : DevigResult D)
      : Type 0 where
    pub odds_valid : AreOdds odds
    pub margin : le (f (log_implied odds) (of_nat 1)) (of_nat 0) ≡ false
    pub near : IsLt (abs (f (log_implied odds) r.param)) tolerance
    pub prob_eq : r.prob ≡ fill (map (λ l. exp (mul r.param l)) (log_implied odds))
    pub count_eq : r.count ≡ length odds
    pub some_round : 0 < r.iterations
    pub few_rounds : r.iterations ≤ rounds
    pub above_one : IsLe (of_nat 1) r.param
    pub bracketed : IsLe r.param (upper (log_implied odds))

  module _ (ordered : IsOrdered D) (arithmetic : IsArithmetic D) (bisecting : IsBisecting D) where
    -- A result of `power` that passes as a distribution comes from valid odds with a positive margin;
    -- its exponent solves the equation to within the tolerance and lies between 1 and the bracket's
    -- end, its probabilities are the powers of the implied ones, and it took 1 to `rounds` rounds.
    pub power-IsPowerRoot :
        (tolerance : D) (rounds : ℕ) (odds : List D)
        → usable_as_distribution (power tolerance rounds odds) ≡ true
        → IsPowerRoot tolerance rounds odds (power tolerance rounds odds)
    unfolding power usable_as_distribution no_margin
    power-IsPowerRoot tol rounds odds u =
        let log_q = log_implied odds in
        let honest =
          refine-IsHonest log_q tol rounds 0 (of_nat 1) (upper log_q)
            (add (of_nat 1) (mul (d.sub (upper log_q) (of_nat 1)) (literal 5 1))) in
        let within = solve-Within log_q ordered bisecting arithmetic tol rounds in
        elim (Bool-cases (valid_odds odds)) [
          | inr bad ↦ absurd (ground (arith, bad, u))
          | inl good ↦ elim (Bool-cases (le (f log_q (of_nat 1)) (of_nat 0))) [
            | inl none ↦ absurd (ground (arith, good, none, u))
            | inr some ↦ elim (Bool-cases (lt (of_nat 0) (f log_q (upper log_q)))) [
              | inl short ↦ absurd (ground (arith, good, some, short, u))
              | inr reached ↦ elim (Bool-cases (solve log_q tol rounds).converged) [
                | inr late ↦ absurd (ground (arith, good, some, reached, late, u))
                | inl done ↦
                    rw (good, some, reached)
                      (record {
                        odds_valid = (valid_odds_iff odds).0 good;
                        margin = some;
                        near = (honest.2 done).0;
                        prob_eq = refl;
                        count_eq = refl;
                        some_round = (honest.2 done).1;
                        few_rounds = omega (arith, honest.1);
                        above_one = within.0;
                        bracketed = within.1;
                      })
              ]
            ]
          ]
        ]
