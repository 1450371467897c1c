-- ===== src/Engine/Market.antt =====
-- engine/main.cpp, the body of the loop over markets in `process_tick`: the books' quotes, the fair
-- price and the bets of one market at one tick.
pub mod Best
pub mod Bets
use odds_engine.Base.{
  ℕ, zero, suc, ◌+◌, ◌*◌, ◌%◌, ◌^◌, Bool, true, false, not, ◌&&◌, List, [], ◌∷◌, map, ltb,
  if◌then◌else◌, Quad, splat, slot, prefix, zip_prefix,
}
use odds_engine.Float.{Double}
use odds_engine.BookTable.{BookTable, Quote, get, is_stale}
use odds_engine.Consensus.{BookInput, ConsensusResult, fair_price}
use odds_engine.Devig.{DevigResult, usable_as_distribution, multiplicative}
use odds_engine.Devig.Power.{power}
use odds_engine.Devig.Shin.{shin}
use odds_engine.Kelly.{AllocationResult, allocate}
use odds_engine.Engine.Control.{
  DevigMethod, multiplicative_method, power_method, shin_method, LiveConfig,
}

-- `kMinOddsMilli`
abbrev pub min_odds_milli : ℕ
min_odds_milli = 1001

-- engine/BetLog.hpp, without the padding.
pub record BetRecord (D : Type 0) : Type 0 where
  pub sim_timestamp_ns : ℕ
  pub market_id : ℕ
  pub outcome : ℕ
  pub stake : D
  pub odds_milli_taken : ℕ
  pub fair_prob : D

-- `if (q.odds_milli[i] > best[i]) best[i] = q.odds_milli[i]` for i < n and i < 4.
unfoldable pub raise : ℕ → Quad ℕ → Quad ℕ → Quad ℕ
raise n best odds = zip_prefix n (λ b o. if ltb b o then o else b) best odds

abbrev pub threshold_ns : ℕ → ℕ
threshold_ns stale_ms = stale_ms * 1000000 % 2 ^ 64

unfoldable pub all_quoted : Quad ℕ → ℕ → ℕ → Bool
all_quoted best i zero = true
all_quoted best i (suc n) =
    let rest = all_quoted best (i + 1) n in if ltb (slot best i) min_odds_milli then false else rest

module _ {D : Type 0} ⦃d : Double D⦄ where
  open d use {of_nat, literal, div, le}

  -- The default tolerances and rounds of the solvers.
  unfoldable pub run_devig : DevigMethod → List D → DevigResult D
  run_devig multiplicative_method odds = multiplicative odds
  run_devig power_method odds = power (literal 1 13) 100 odds
  run_devig shin_method odds = shin (literal 1 15) 200 odds

  -- `odds_milli / 1000.0`
  abbrev pub decimal : ℕ → D
  decimal o = div (of_nat o) (of_nat 1000)

  abbrev pub absent : BookInput D
  absent = record { prob = splat (of_nat 0); count = 0; weight = of_nat 0; available = false }

  -- A fresh quote of at most 4 outcomes: above that the C++ writes past its array.
  unfoldable pub book_input : DevigMethod → Quote → BookInput D
  book_input method q =
      let r = run_devig method (map decimal (prefix q.outcome_count q.odds_milli)) in
      if not (usable_as_distribution r) then absent else record {
        prob = zip_prefix r.count (λ _ p. p) (splat (of_nat 0)) r.prob;
        count = r.count;
        weight = of_nat 1;
        available = true;
      }

  module _ (table : BookTable) (cfg : LiveConfig D) (ts m : ℕ) where
    abbrev pub is_old : ℕ → Bool
    is_old b = is_stale table m b ts (threshold_ns cfg.stale_ms)

    -- The loop over the books from b on: the best odds and the inputs of the consensus.
    unfoldable pub walk : ℕ → ℕ → Quad ℕ → Quad ℕ × List (BookInput D)
    walk b zero best = (best, [])
    walk b (suc n) best =
        let q = get table m b in
        let (last, inputs) =
          walk (b + 1) n (if is_old b then best else raise q.outcome_count best q.odds_milli) in
        (last, (if is_old b then absent else book_input cfg.devig_method q) ∷ inputs)

    module _ (fair : ConsensusResult D) (best : Quad ℕ) where
      -- The loop over the outcomes from i on that logs the stakes.
      unfoldable pub bets_from : AllocationResult D → ℕ → ℕ → List (BetRecord D)
      bets_from alloc i zero = []
      bets_from alloc i (suc n) =
          let rest = bets_from alloc (i + 1) n in
          if le (slot alloc.stake i) (of_nat 0)
          then rest
          else record {
            sim_timestamp_ns = ts;
            market_id = m;
            outcome = i;
            stake = slot alloc.stake i;
            odds_milli_taken = slot best i;
            fair_prob = slot fair.prob i;
          }
            ∷ rest

      -- Sizing: the bets of a market with a fair price.
      unfoldable pub size_market : List (BetRecord D)
      size_market =
          let alloc =
            allocate (prefix fair.count fair.prob) (map decimal (prefix fair.count best))
              cfg.kelly_fraction cfg.max_exposure in
          if all_quoted best 0 fair.count
          then (if alloc.has_bet then bets_from alloc 0 fair.count else [])
          else []

  -- The fair price of a market and its best odds.
  abbrev pub price : BookTable → LiveConfig D → ℕ → ℕ → ℕ → ConsensusResult D × Quad ℕ
  price table cfg ts m books =
      let (best, inputs) = walk table cfg ts m 0 books (splat 0) in (fair_price inputs, best)
