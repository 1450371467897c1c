-- ===== src/Consensus/Sums.antt =====
-- engine/Consensus.hpp: the sums that the loop over the books comes to, one outcome at a time.
use odds_engine.Base.{
  ℕ, zero, suc, ◌+◌, ◌<◌, ◌≡◌, refl, ap, ◌∙◌, true, List, [], ◌∷◌, ltb, if◌then◌else◌, arith, All,
  Quad, splat, slot, zip_prefix, length, Bool-cases, inl, inr,
}
use odds_engine.Float.{Double}
use odds_engine.Consensus.{BookInput, ConsensusResult, include}

-- Which slots a loop over the first n of them writes.
pub slot-zip_prefix :
    {A B : Type 0} (n : ℕ) (f : A → B → A) (z : Quad A) (q : Quad B) (i : ℕ)
    → i < 4
    → slot (zip_prefix n f z q) i ≡ (if ltb i n then f (slot z i) (slot q i) else slot z i)
slot-zip_prefix zero f z q zero h = refl
slot-zip_prefix zero f z q (suc zero) h = refl
slot-zip_prefix zero f z q (suc (suc zero)) h = refl
slot-zip_prefix zero f z q (suc (suc (suc zero))) h = refl
slot-zip_prefix (suc zero) f z q zero h = refl
slot-zip_prefix (suc zero) f z q (suc zero) h = refl
slot-zip_prefix (suc zero) f z q (suc (suc zero)) h = refl
slot-zip_prefix (suc zero) f z q (suc (suc (suc zero))) h = refl
slot-zip_prefix (suc (suc zero)) f z q zero h = refl
slot-zip_prefix (suc (suc zero)) f z q (suc zero) h = refl
slot-zip_prefix (suc (suc zero)) f z q (suc (suc zero)) h = refl
slot-zip_prefix (suc (suc zero)) f z q (suc (suc (suc zero))) h = refl
slot-zip_prefix (suc (suc (suc zero))) f z q zero h = refl
slot-zip_prefix (suc (suc (suc zero))) f z q (suc zero) h = refl
slot-zip_prefix (suc (suc (suc zero))) f z q (suc (suc zero)) h = refl
slot-zip_prefix (suc (suc (suc zero))) f z q (suc (suc (suc zero))) h = refl
slot-zip_prefix (suc (suc (suc (suc n)))) f z q zero h =
    let under : ltb 0 (suc (suc (suc (suc n)))) ≡ true = ground arith in rw under refl
slot-zip_prefix (suc (suc (suc (suc n)))) f z q (suc zero) h =
    let under : ltb 1 (suc (suc (suc (suc n)))) ≡ true = ground arith in rw under refl
slot-zip_prefix (suc (suc (suc (suc n)))) f z q (suc (suc zero)) h =
    let under : ltb 2 (suc (suc (suc (suc n)))) ≡ true = ground arith in rw under refl
slot-zip_prefix (suc (suc (suc (suc n)))) f z q (suc (suc (suc zero))) h =
    let under : ltb 3 (suc (suc (suc (suc n)))) ≡ true = ground arith in rw under refl
slot-zip_prefix zero f z q (suc (suc (suc (suc i)))) h = absurd (omega arith)
slot-zip_prefix (suc zero) f z q (suc (suc (suc (suc i)))) h = absurd (omega arith)
slot-zip_prefix (suc (suc zero)) f z q (suc (suc (suc (suc i)))) h = absurd (omega arith)
slot-zip_prefix (suc (suc (suc zero))) f z q (suc (suc (suc (suc i)))) h = absurd (omega arith)
slot-zip_prefix (suc (suc (suc (suc n)))) f z q (suc (suc (suc (suc i)))) h = absurd (omega arith)

pub slot-splat : {A : Type 0} (x : A) (i : ℕ) → slot (splat x) i ≡ x
slot-splat x zero = refl
slot-splat x (suc zero) = refl
slot-splat x (suc (suc zero)) = refl
slot-splat x (suc (suc (suc i))) = refl

module _ {D : Type 0} ⦃d : Double D⦄ where
  open d use {of_nat, add, mul, div}

  -- acc + w_0 p_0 + w_1 p_1 + ..., the chances of outcome i weighted by their books.
  pub weighted_sum : ℕ → D → List (BookInput D) → D
  weighted_sum i acc [] = acc
  weighted_sum i acc (b ∷ bs) = weighted_sum i (add acc (mul b.weight (slot b.prob i))) bs

  pub weight_sum : D → List (BookInput D) → D
  weight_sum acc [] = acc
  weight_sum acc (b ∷ bs) = weight_sum (add acc b.weight) bs

  unfoldable pub total : ConsensusResult D → List (BookInput D) → ConsensusResult D
  total out [] = out
  total out (b ∷ bs) = total (include out b) bs

  pub slot-total :
      (n i : ℕ) (bs : List (BookInput D)) (out : ConsensusResult D)
      → i < 4
      → All (λ b. b.count ≡ n) bs
      → slot (total out bs).prob i
        ≡ (if ltb i n then weighted_sum i (slot out.prob i) bs else slot out.prob i)
  unfolding total weighted_sum
  slot-total n i [] out h shaped = elim (Bool-cases (ltb i n)) [
    | inl c ↦ rw c refl
    | inr c ↦ rw c refl
  ]
  slot-total n i (b ∷ bs) out h (same, shaped) =
      let more = add (slot out.prob i) (mul b.weight (slot b.prob i)) in
      let here : slot (include out b).prob i ≡ (if ltb i n then more else slot out.prob i) =
        slot-zip_prefix b.count (λ p q. add p (mul b.weight q)) out.prob b.prob i h
        ∙ ap (λ m. if ltb i m then more else slot out.prob i) same in
      slot-total n i bs (include out b) h shaped ∙ elim (Bool-cases (ltb i n)) [
        | inl c ↦
            rw c (
              ap (λ x. weighted_sum i x bs)
                (here ∙ ap (λ t. if t then more else slot out.prob i) c))
        | inr c ↦ rw c (here ∙ ap (λ t. if t then more else slot out.prob i) c)
      ]

  pub weight-total :
      (bs : List (BookInput D)) (out : ConsensusResult D)
      → (total out bs).total_weight ≡ weight_sum out.total_weight bs
  unfolding total weight_sum
  weight-total [] out = refl
  weight-total (b ∷ bs) out = weight-total bs (include out b)

  pub books-total :
      (bs : List (BookInput D)) (out : ConsensusResult D)
      → (total out bs).books_used ≡ out.books_used + length bs
  unfolding total
  books-total [] out = omega arith
  books-total (b ∷ bs) out = omega (arith, books-total bs (include out b))
