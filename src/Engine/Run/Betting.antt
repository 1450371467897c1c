-- ===== src/Engine/Run/Betting.antt =====
-- engine/main.cpp, `process_tick`: what one tick adds to the bet log and to the counters.
use mathlib.Core.List.{append_assoc, append-nil}
use odds_engine.Base.{
  ℕ, zero, suc, ◌+◌, ◌^◌, ◌≤◌, ◌<◌, ◌≡◌, refl, sym, ap, subst, ◌∙◌, Bool, true, false, Option, List,
  [], ◌++◌, arith, if◌then◌else◌, length, length-append, All, All-append,
}
use odds_engine.Base.Bytes.{Bytes}
use odds_engine.Float.{Double}
use odds_engine.BookTable.{BookTable, increment}
use odds_engine.Engine.Control.{LiveConfig}
use odds_engine.Engine.Market.{BetRecord, price}
use odds_engine.Engine.Market.Bets.{IsTaken, size_market-IsTaken}
use odds_engine.Engine.Run.{
  Outputs, Engine, priced, process_market, process_markets, process_tick, service,
}

module _ {D : Type 0} ⦃d : Double D⦄ (strtod : Bytes → Option D) (to_u64 : D → ℕ)
    (image : D → Bytes) where
  module _ (out : Outputs) (markets books ts : ℕ) where
    -- From one state to a later one of the same tick: k more markets were priced or found to have no
    -- price, the table and the configuration stand, and the log got sound bets, all of them counted.
    pub record Adds (k : ℕ) (e e' : Engine D) : Type 0 where
      pub table_same : e'.table ≡ e.table
      pub cfg_same : e'.cfg ≡ e.cfg
      pub new : List (BetRecord D)
      pub bets_eq : e'.bets ≡ e.bets ++ new
      pub bets_placed_eq :
          e.bets_placed + length new < 2 ^ 64 → e'.bets_placed ≡ e.bets_placed + length new
      pub sound : All (IsTaken e.table e.cfg ts markets books) new
      pub counted :
          e.consensus_count + e.no_price_count + k < 2 ^ 64
          → e'.consensus_count + e'.no_price_count ≡ e.consensus_count + e.no_price_count + k

    if-Adds :
        {k : ℕ} {e x y : Engine D}
        → (b : Bool) → Adds k e x
        → Adds k e y
        → Adds k e (if b then x else y)
    if-Adds true h k = h
    if-Adds false h k = k

    no_price-Adds :
        (e : Engine D) → Adds 1 e (record e { no_price_count = increment e.no_price_count })
    no_price-Adds e = record {
      table_same = refl;
      cfg_same = refl;
      new = [];
      bets_eq = sym (append-nil e.bets);
      bets_placed_eq = λ b. omega arith;
      sound = tt;
      counted = λ b. omega arith;
    }

    priced-Adds :
        (betlog : Bool) (m : ℕ) (e : Engine D)
        → m < markets
        → let (fair, best) = price e.table e.cfg ts m books in
          Adds 1 e (priced strtod to_u64 image out betlog ts m fair best e)
    priced-Adds true m e h = record {
      table_same = refl;
      cfg_same = refl;
      new = _;
      bets_eq = refl;
      bets_placed_eq = λ b. omega arith;
      sound = size_market-IsTaken e.table e.cfg ts m markets books h;
      counted = λ b. omega arith;
    }
    priced-Adds false m e h = record {
      table_same = refl;
      cfg_same = refl;
      new = [];
      bets_eq = sym (append-nil e.bets);
      bets_placed_eq = λ b. omega arith;
      sound = tt;
      counted = λ b. omega arith;
    }

    process_market-Adds :
        (m : ℕ) (e : Engine D)
        → m < markets
        → Adds 1 e (process_market strtod to_u64 image out books ts m e)
    unfolding process_market
    process_market-Adds m e h = if-Adds _ (no_price-Adds e) (priced-Adds out.betlog m e h)

    Adds-trans :
        {j k l : ℕ} → (e e' e'' : Engine D) → l ≡ j + k → Adds j e e' → Adds k e' e'' → Adds l e e''
    Adds-trans e e' e'' total f g = record {
      table_same = g.table_same ∙ f.table_same;
      cfg_same = g.cfg_same ∙ f.cfg_same;
      new = f.new ++ g.new;
      bets_eq = g.bets_eq ∙ ap (◌++ g.new) f.bets_eq ∙ append_assoc e.bets f.new g.new;
      bets_placed_eq = λ b.
          let size = length-append f.new g.new in
          let first = f.bets_placed_eq (omega (arith, size)) in
          omega (arith, first, size, g.bets_placed_eq (omega (arith, first, size)));
      sound = All-append _ f.new g.new f.sound (
          subst (λ (c : BookTable × LiveConfig D). All (IsTaken c.0 c.1 ts markets books) g.new)
            (cc (f.table_same, f.cfg_same)) g.sound);
      counted = λ b.
          omega
            (arith, f.counted (omega arith), g.counted (omega (arith, f.counted (omega arith))));
    }

    process_markets-Adds :
        (m n : ℕ) (e : Engine D)
        → m + n ≤ markets
        → Adds n e (process_markets strtod to_u64 image out books ts m n e)
    unfolding process_markets
    process_markets-Adds m zero e h = record {
      table_same = refl;
      cfg_same = refl;
      new = [];
      bets_eq = sym (append-nil e.bets);
      bets_placed_eq = λ b. omega arith;
      sound = tt;
      counted = λ b. omega arith;
    }
    process_markets-Adds m (suc n) e h =
        Adds-trans e _ _ (omega arith) (process_market-Adds m e (omega arith))
          (process_markets-Adds (m + 1) n _ (omega arith))

  -- A tick leaves the table alone and logs bets that each rest on a fresh quote of the table: at
  -- no less than 1001, the best of the fresh quotes of the outcome, with a stake that is not at
  -- most zero. While the counters do not wrap, those of the prices grow together by the number of
  -- markets, and that of the bets by the number of bets. The configuration is that after the
  -- commands.
  pub process_tick-Adds :
      (out : Outputs) (markets books ts : ℕ) (e : Engine D)
      → Adds out markets books ts markets
          (service strtod to_u64 image out e)
          (process_tick strtod to_u64 image out markets books ts e)
  unfolding process_tick
  process_tick-Adds out markets books ts e =
      process_markets-Adds out markets books ts 0 markets _ (omega arith)
