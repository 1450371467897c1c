-- ===== src/Devig/Power/Bracket.antt =====
-- engine/Devig.hpp, the bracket of `power`: it is found in ten doublings, and no iterate leaves it.
use native.Mathlib.Nat.{mul_assoc, pow-succ'}
use odds_engine.Base.{
  ℕ, zero, suc, ◌+◌, ◌*◌, ◌≤◌, ◌<◌, ◌≡◌, refl, sym, ap, ◌∙◌, false, not, ◌||◌, ◌&&◌, List, lt→ltb,
  if◌then◌else◌, arith, Bool-cases, inl, inr, ◌^◌,
}
use odds_engine.Float.{Double, IsOrdered, IsArithmetic, IsBisecting, IsLe}
use odds_engine.Devig.Power.{f, df, must_grow, grow, newton, refine, upper, solve}

le_of_mul_pow : (m n : ℕ) → n * 2 ^ m ≡ 1024 → n ≤ 1024
le_of_mul_pow zero n e = omega arith
le_of_mul_pow (suc m) n e =
    omega (
      arith,
      le_of_mul_pow m (n * 2) (mul_assoc n 2 (2 ^ m) ∙ ap (◌*◌ n) (sym (pow-succ' 2 m)) ∙ e),
    )

-- Below 1024 there is another doubling to go.
doublings_left :
    (m n : ℕ) → n * 2 ^ m ≡ 1024 → n < 1024 → (m' : ℕ) × ((suc m' ≡ m) × (n * 2 * 2 ^ m' ≡ 1024))
doublings_left zero n e h = absurd (omega arith)
doublings_left (suc m) n e h =
    (m, (refl, mul_assoc n 2 (2 ^ m) ∙ ap (◌*◌ n) (sym (pow-succ' 2 m)) ∙ e))

module _ {D : Type 0} ⦃d : Double D⦄ (log_q : List D) where
  open d use {of_nat, literal, add, sub, mul, lt, abs}

  module _ (arithmetic : IsArithmetic D) where
    open arithmetic use {lt-of_nat, mul-of_nat}

    -- `hi` after the loop is a whole number from 2 to 1024 at which the loop's test fails.
    abbrev pub Grown : D → Type 0
    Grown hi = (n : ℕ) × (hi ≡ of_nat n) × (2 ≤ n) × (n ≤ 1024) × (must_grow log_q hi ≡ false)

    grow-Grown :
        (fuel m n : ℕ) → m < fuel → n * 2 ^ m ≡ 1024 → 2 ≤ n → Grown (grow log_q fuel (of_nat n))
    unfolding grow
    grow-Grown zero m n h e two = absurd (omega arith)
    grow-Grown (suc fuel) m n h e two = elim (Bool-cases (must_grow log_q (of_nat n))) [
      | inr stop ↦ rw stop (n, refl, two, le_of_mul_pow m n e, stop)
      | inl go ↦
          let below : n < 1024 =
            ground (arith, lt-of_nat n 1024 (omega (arith, le_of_mul_pow m n e)) (omega arith)) in
          let (m', more) = doublings_left m n e below in
          rw (go, mul-of_nat n 2 (omega arith))
            (grow-Grown fuel m' (n * 2) (omega (arith, more.0)) more.1 (omega arith))
    ]

    -- Ten rounds are enough for the doubling loop: it stops by its own test, at most at 1024.
    pub upper-Grown : Grown (upper log_q)
    upper-Grown = grow-Grown 10 9 2 (omega arith) refl (omega arith)

  module _ (ordered : IsOrdered D) (bisecting : IsBisecting D) where
    open ordered use {number_of_lt, le_of_lt, le_trans}
    open bisecting use {half_way}

    abbrev Within : D → D → D → Type 0
    Within lo hi x = IsLe lo x × IsLe x hi

    newton-Within :
        (lo hi k : D)
        → IsLe (of_nat 0) lo
        → IsLe lo hi
        → IsLe hi (of_nat 2048)
        → Within lo hi (newton log_q lo hi k)
    unfolding newton
    newton-Within lo hi k z o t =
        let slope = df log_q k in
        let next = if not (d.eq slope (of_nat 0)) then sub k (d.div (f log_q k) slope) else k in
        elim (Bool-cases (not (d.is_finite next) || not (lt lo next && lt next hi))) [
          | inl out ↦ rw out (half_way lo hi z o t)
          | inr inside ↦ rw inside (le_of_lt _ _ (ground arith), le_of_lt _ _ (ground arith))
        ]

    refine-Within :
        (low high tolerance : D) (left passed : ℕ) (lo hi k : D)
        → IsLe (of_nat 0) low
        → IsLe high (of_nat 2048)
        → IsLe low lo
        → Within lo hi k
        → IsLe hi high
        → Within low high (refine log_q tolerance left passed lo hi k).root
    unfolding refine
    refine-Within low high tol zero passed lo hi k z t l (a, b) h =
        (le_trans _ _ _ l a, le_trans _ _ _ b h)
    refine-Within low high tol (suc left) passed lo hi k z t l (a, b) h =
        elim (Bool-cases (lt (abs (f log_q k)) tol)) [
          | inl near ↦ rw near (le_trans _ _ _ l a, le_trans _ _ _ b h)
          | inr far ↦ rw far (elim (Bool-cases (lt (of_nat 0) (f log_q k))) [
            | inl above ↦ rw above (
                refine-Within low high tol left (passed + 1) k hi _ z t (le_trans _ _ _ l a)
                  (newton-Within k hi k (le_trans _ _ _ z (le_trans _ _ _ l a)) b
                    (le_trans _ _ _ h t))
                  h)
            | inr below ↦ rw below (
                refine-Within low high tol left (passed + 1) lo k _ z t l
                  (newton-Within lo k k (le_trans _ _ _ z l) a
                    (le_trans _ _ _ b (le_trans _ _ _ h t)))
                  (le_trans _ _ _ b h))
          ])
        ]

    module _ (arithmetic : IsArithmetic D) where
      open arithmetic use {lt-of_nat}

      of_nat-le : (m n : ℕ) → m < n → n ≤ 2048 → IsLe (of_nat m) (of_nat n)
      of_nat-le m n h t = le_of_lt _ _ (lt-of_nat m n (omega arith) t ∙ lt→ltb m n h)

      -- The exponent that the solver returns, converged or not, lies from 1 to the upper end of the
      -- bracket: the method never adds margin.
      pub solve-Within :
          (tolerance : D) (max_iterations : ℕ)
          → Within (of_nat 1) (upper log_q) (solve log_q tolerance max_iterations).root
      solve-Within tol rounds =
          let (n, e, two, small, _) = upper-Grown arithmetic in
          let up : IsLe (of_nat 1) (upper log_q) =
            rw e (of_nat-le 1 n (omega arith) (omega arith)) in
          let top : IsLe (upper log_q) (of_nat 2048) =
            rw e (of_nat-le n 2048 (omega arith) (omega arith)) in
          let zero_one = of_nat-le 0 1 (omega arith) (omega arith) in
          refine-Within (of_nat 1) (upper log_q) tol rounds 0 (of_nat 1) (upper log_q) _ zero_one
            top (arithmetic.of_nat-number 1) (half_way _ _ zero_one up top) (number_of_self up)
        where
          number_of_self : IsLe (of_nat 1) (upper log_q) → IsLe (upper log_q) (upper log_q)
          number_of_self h = (ordered.number_of_le _ _ h).1
