-- ===== src/Consensus/Mean.antt =====
-- engine/Consensus.hpp against a plain weighted mean of the books that count.
use mathlib.Core.List.{List}
use odds_engine.Base.{
  same_quad, ℕ, ◌<◌, ◌≡◌, refl, sym, ap, subst, ◌∙◌, inl, inr, ◌↔◌, Bool, true, false, not, ◌||◌,
  ◌&&◌, [], ◌∷◌, ◌==◌, if◌then◌else◌, arith, All, zip_prefix, Quad, quad, slot, ltb, length,
  Bool-cases, Option, none, some,
}
use odds_engine.Float.{Double, IsOrdered, IsArithmetic, IsLt}
use odds_engine.Consensus.Sums.{
  weighted_sum, weight_sum, total, slot-zip_prefix, slot-splat, slot-total, weight-total,
  books-total,
}
use odds_engine.Consensus.{
  BookInput, ConsensusResult, no_result, include, visit, visit_all, normalise, fair_price,
}

module _ {D : Type 0} ⦃d : Double D⦄ where
  open d use {of_nat, add, mul, div, le}

  -- A book that the caller trusts, with a weight.
  abbrev pub counts : BookInput D → Bool
  counts b = not (not b.available || le b.weight (of_nat 0))

  -- The trusted books of n outcomes.
  pub of_count : ℕ → List (BookInput D) → List (BookInput D)
  of_count n [] = []
  of_count n (b ∷ bs) =
      let rest = of_count n bs in if counts b && b.count == n then b ∷ rest else rest

  -- The number of outcomes that the first trusted book has.
  pub first_count : List (BookInput D) → Option ℕ
  first_count [] = none
  first_count (b ∷ bs) = let rest = first_count bs in if counts b then some b.count else rest

  -- The books that make up the price: trusted, and of the first one's shape.
  pub contributors : List (BookInput D) → List (BookInput D)
  contributors bs = elim (first_count bs) [ none ↦ [] | some n ↦ of_count n bs ]

  -- The weighted mean of books of n outcomes, with no test on any of them.
  pub mean : ℕ → List (BookInput D) → ConsensusResult D
  mean n bs = total (record no_result { count = n }) bs

  visit_all-shaped :
      (out : ConsensusResult D) (bs : List (BookInput D))
      → 0 < out.books_used
      → visit_all out bs ≡ total out (of_count out.count bs)
  unfolding visit_all visit of_count total
  visit_all-shaped out [] used = refl
  visit_all-shaped out (b ∷ bs) used =
      ground
        (arith, visit_all-shaped out bs used, visit_all-shaped (include out b) bs (omega arith))

  mean_of_first : Option ℕ → List (BookInput D) → ConsensusResult D
  mean_of_first none bs = no_result
  mean_of_first (some n) bs = mean n (of_count n bs)

  of_count-skip :
      (n : ℕ) (b : BookInput D) (bs : List (BookInput D))
      → counts b ≡ false
      → of_count n (b ∷ bs) ≡ of_count n bs
  unfolding of_count
  of_count-skip n b bs e = ground arith

  mean_of_first-skip :
      (o : Option ℕ) (b : BookInput D) (bs : List (BookInput D))
      → counts b ≡ false
      → mean_of_first o (b ∷ bs) ≡ mean_of_first o bs
  unfolding mean_of_first of_count
  mean_of_first-skip none b bs e = refl
  mean_of_first-skip (some n) b bs e = ground arith

  visit-first :
      (b : BookInput D)
      → counts b ≡ true
      → visit no_result b ≡ include (record no_result { count = b.count }) b
  unfolding visit
  visit-first b e = ground arith

  visit-skip : (out : ConsensusResult D) (b : BookInput D) → counts b ≡ false → visit out b ≡ out
  unfolding visit
  visit-skip out b e = ground arith

  mean-first :
      (b : BookInput D) (bs : List (BookInput D))
      → counts b ≡ true
      → mean b.count (of_count b.count (b ∷ bs))
        ≡ total (include (record no_result { count = b.count }) b) (of_count b.count bs)
  unfolding mean of_count total
  mean-first b bs e = ground arith

  -- What the loop accumulates is the plain sum over the contributors.
  visit_all-first :
      (bs : List (BookInput D)) → visit_all no_result bs ≡ mean_of_first (first_count bs) bs
  unfolding visit_all first_count mean_of_first
  visit_all-first [] = refl
  visit_all-first (b ∷ bs) = elim (Bool-cases (counts b)) [
    | inl c ↦ rw (c, visit-first b c, mean-first b bs c) (visit_all-shaped _ bs (omega arith))
    | inr c ↦
        rw (c, visit-skip no_result b c)
          (visit_all-first bs ∙ sym (mean_of_first-skip (first_count bs) b bs c))
  ]

  -- Every trusted book has a weight above zero (a weight that is NaN would pass the code's test).
  abbrev pub ArePositive : List (BookInput D) → Type 0
  ArePositive = All (λ b. counts b ≡ true → IsLt (of_nat 0) b.weight)

  -- The sum of the contributors, divided as `normalise` does.
  unfoldable divided : ℕ → List (BookInput D) → ConsensusResult D
  divided n bs =
      let m = mean n (of_count n bs) in
      record m {
        prob = zip_prefix n (λ p q. div p m.total_weight) m.prob m.prob;
        count = n;
        has_fair_price = true;
      }

  -- The chance of an outcome: the sum of w p over the sum of w, both over the books bs.
  abbrev pub mean_at : ℕ → List (BookInput D) → ℕ → D
  mean_at n bs i =
      if ltb i n then div (weighted_sum i (of_nat 0) bs) (weight_sum (of_nat 0) bs) else of_nat 0

  -- The price of the trusted books of the first one's shape, as a formula for each outcome.
  unfoldable pub price_of : Option ℕ → List (BookInput D) → ConsensusResult D
  price_of none bs = no_result
  price_of (some n) bs =
      let used = of_count n bs in
      record {
        prob = quad (mean_at n used 0) (mean_at n used 1) (mean_at n used 2) (mean_at n used 3);
        count = n;
        has_fair_price = true;
        total_weight = weight_sum (of_nat 0) used;
        books_used = length used;
      }

  of_count-shaped : (n : ℕ) (bs : List (BookInput D)) → All (λ b. b.count ≡ n) (of_count n bs)
  unfolding of_count
  of_count-shaped n [] = tt
  of_count-shaped n (b ∷ bs) = elim (Bool-cases (counts b && b.count == n)) [
    | inl c ↦ rw c (ground arith, of_count-shaped n bs)
    | inr c ↦ rw c (of_count-shaped n bs)
  ]

  share :
      (b : Bool) (x y z w v : D)
      → x ≡ (if b then y else z)
      → w ≡ v
      → (if b then div x w else x) ≡ (if b then div y v else z)
  share true x y z w v e f = ap (λ t. div t w) e ∙ ap (div y) f
  share false x y z w v e f = e

  abbrev priced : ℕ → Quad D → D → ℕ → ConsensusResult D
  priced n q w k = record {
    prob = q;
    count = n;
    has_fair_price = true;
    total_weight = w;
    books_used = k;
  }

  same_result :
      (n : ℕ) {q q' : Quad D} {w w' : D} {k k' : ℕ}
      → q ≡ q'
      → w ≡ w'
      → k ≡ k'
      → priced n q w k ≡ priced n q' w' k'
  same_result n e f g = cc

  slot-divided :
      (n : ℕ) (bs : List (BookInput D)) (i : ℕ)
      → i < 4
      → slot (divided n bs).prob i ≡ mean_at n (of_count n bs) i
  unfolding divided mean
  slot-divided n bs i h =
      let used = of_count n bs in
      let start : ConsensusResult D = record no_result { count = n } in
      let m = total start used in
      let sum : slot m.prob i
          ≡ (if ltb i n then weighted_sum i (slot start.prob i) used else slot start.prob i) =
        slot-total n i used start h (of_count-shaped n bs) in
      slot-zip_prefix n (λ p q. div p m.total_weight) m.prob m.prob i h
      ∙ share (ltb i n) _ _ _ _ _
          (sum ∙ ap (λ x. if ltb i n then weighted_sum i x used else x) (slot-splat (of_nat 0) i))
          (weight-total used start)

  divided-price_of : (n : ℕ) (bs : List (BookInput D)) → divided n bs ≡ price_of (some n) bs
  unfolding divided price_of mean
  divided-price_of n bs =
      let used = of_count n bs in
      let start : ConsensusResult D = record no_result { count = n } in
      let at = slot-divided n bs in
      same_result n
        (same_quad (at 0 (omega arith)) (at 1 (omega arith)) (at 2 (omega arith))
          (at 3 (omega arith)))
        (weight-total used start) (books-total used start ∙ omega arith)

  module _ (ordered : IsOrdered D) (arithmetic : IsArithmetic D) where
    open ordered use {lt-not-le, le_of_lt}
    open arithmetic use {of_nat-number, add_pos}

    count-total :
        (out : ConsensusResult D) (bs : List (BookInput D)) → (total out bs).count ≡ out.count
    unfolding total
    count-total out [] = refl
    count-total out (b ∷ bs) = count-total (include out b) bs

    total_pos :
        (n : ℕ) (out : ConsensusResult D) (bs : List (BookInput D))
        → ArePositive bs
        → IsLt (of_nat 0) out.total_weight
        → IsLt (of_nat 0) (total out (of_count n bs)).total_weight
    unfolding total of_count
    total_pos n out [] p w = w
    total_pos n out (b ∷ bs) (p, ps) w = elim (Bool-cases (counts b && b.count == n)) [
      | inl c ↦
          rw c (total_pos n (include out b) bs ps (add_pos _ _ (le_of_lt _ _ w) (p (ground arith))))
      | inr c ↦ rw c (total_pos n out bs ps w)
    ]

    mean_pos :
        (bs : List (BookInput D)) (n : ℕ)
        → ArePositive bs
        → first_count bs ≡ some n
        → IsLt (of_nat 0) (mean n (of_count n bs)).total_weight
    unfolding first_count
    mean_pos [] n p e = cc
    mean_pos (b ∷ bs) n (p, ps) e = elim (Bool-cases (counts b)) [
      | inl c ↦
          let same : b.count ≡ n = ground arith in
          subst (λ k. IsLt (of_nat 0) (mean k (of_count k (b ∷ bs))).total_weight) same
            (rw (mean-first b bs c)
              (total_pos b.count _ bs ps (add_pos _ _ (of_nat-number 0) (p c))))
      | inr c ↦ rw (of_count-skip n b bs c) (mean_pos bs n ps (ground arith))
    ]

    normalise-price_of :
        (o : Option ℕ) (bs : List (BookInput D))
        → first_count bs ≡ o
        → ArePositive bs
        → normalise (mean_of_first o bs) ≡ price_of o bs
    unfolding normalise mean_of_first price_of divided mean
    normalise-price_of none bs e p = rw (of_nat-number 0)
    normalise-price_of (some n) bs e p =
        rw
          (
            lt-not-le _ _ (mean_pos bs n p e),
            count-total (record no_result { count = n }) (of_count n bs),
          )
          (divided-price_of n bs)

    -- If every trusted book has a positive weight, the fair price is the weighted mean of exactly the
    -- trusted books of the first trusted book's number of outcomes; where no book is trusted it is
    -- the zeroed result with no fair price.
    pub fair_price-price_of :
        (bs : List (BookInput D)) → ArePositive bs → fair_price bs ≡ price_of (first_count bs) bs
    unfolding fair_price
    fair_price-price_of bs p =
        ap normalise (visit_all-first bs) ∙ normalise-price_of (first_count bs) bs refl p

    -- If every trusted book has a positive weight, there is a fair price exactly if some book is
    -- trusted.
    pub has_fair_price_iff :
        (bs : List (BookInput D))
        → ArePositive bs
        → ((fair_price bs).has_fair_price ≡ true) ↔ ((n : ℕ) × (first_count bs ≡ some n))
    unfolding price_of
    has_fair_price_iff bs p = rw (fair_price-price_of bs p) (go (first_count bs) refl)
      where
        go :
            (o : Option ℕ)
            → first_count bs ≡ o
            → ((price_of o bs).has_fair_price ≡ true) ↔ ((n : ℕ) × (first_count bs ≡ some n))
        go none e = ((λ h. cc), λ s. cc (s.1))
        go (some n) e = ((λ h. (n, e)), λ s. refl)
