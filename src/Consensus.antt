-- ===== src/Consensus.antt =====
-- engine/Consensus.hpp: the weighted average of the books' distributions.
pub mod Mean
pub mod Sums
use odds_engine.Base.{
  ℕ, ◌+◌, Bool, true, false, not, ◌||◌, List, [], ◌∷◌, ◌==◌, if◌then◌else◌, Quad, splat, zip_prefix,
}
use odds_engine.Float.{Double}

pub record BookInput (D : Type 0) : Type 0 where
  pub prob : Quad D
  pub count : ℕ
  pub weight : D
  pub available : Bool

pub record ConsensusResult (D : Type 0) : Type 0 where
  pub prob : Quad D
  pub count : ℕ
  pub has_fair_price : Bool
  pub total_weight : D
  pub books_used : ℕ

module _ {D : Type 0} ⦃d : Double D⦄ where
  open d use {of_nat, add, mul, div, le}

  abbrev pub no_result : ConsensusResult D
  no_result = record {
    prob = splat (of_nat 0);
    count = 0;
    has_fair_price = false;
    total_weight = of_nat 0;
    books_used = 0;
  }

  -- `out.prob[i] += b.weight * b.prob[i]` for i < b.count, and the two sums. A count is at most 4,
  -- as `devig` makes it: the C++ indexes past the arrays above that.
  abbrev pub include : ConsensusResult D → BookInput D → ConsensusResult D
  include out b = record out {
    prob = zip_prefix b.count (λ p q. add p (mul b.weight q)) out.prob b.prob;
    total_weight = add out.total_weight b.weight;
    books_used = out.books_used + 1;
  }

  -- One round of the loop over the books.
  unfoldable pub visit : ConsensusResult D → BookInput D → ConsensusResult D
  visit out b =
      if not b.available || le b.weight (of_nat 0)
      then out
      else (if out.books_used == 0
          then include (record out { count = b.count }) b
          else (if not (b.count == out.count) then out else include out b))

  unfoldable pub visit_all : ConsensusResult D → List (BookInput D) → ConsensusResult D
  visit_all out [] = out
  visit_all out (b ∷ bs) = visit_all (visit out b) bs

  unfoldable pub normalise : ConsensusResult D → ConsensusResult D
  normalise out = if le out.total_weight (of_nat 0) then no_result else record out {
    prob = zip_prefix out.count (λ p q. div p out.total_weight) out.prob out.prob;
    has_fair_price = true;
  }

  unfoldable pub fair_price : List (BookInput D) → ConsensusResult D
  fair_price books = normalise (visit_all no_result books)
