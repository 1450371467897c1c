-- ===== src/Sim/Generate.antt =====
-- sim/main.cpp: the roster, the opening lines and the loop that generates a session. What the loop
-- gives its sinks is a list for each: the quotes, the ground truth and the jumps.
use odds_engine.Base.{
  ℕ, zero, suc, ◌+◌, ◌*◌, ◌/◌, ◌%◌, ◌^◌, List, [], ◌∷◌, ◌++◌, ◌==◌, if◌then◌else◌, get_or, set,
  length, replicate, quad,
}
use odds_engine.Float.{Double}
use odds_engine.Wire.{
  OddsUpdate, SessionHeader, tick_interval_ns, session_magic, session_version, odds_update_size,
}
use odds_engine.BookTable.{increment}
use odds_engine.Sim.{Triple, triple, outcomes, Random, each}
use odds_engine.Sim.Seeding.{derive_seed, domain_latent_market, domain_bookmaker, domain_settlement}
use odds_engine.Sim.Latent
use odds_engine.Sim.Latent.{LatentMarket, step}
use odds_engine.Sim.Bookmaker
use odds_engine.Sim.Bookmaker.{BookConfig, power_vig, Bookmaker, observe, quote}

pub record SimBookConfig (D : Type 0) : Type 0 where
  pub cfg : BookConfig D
  pub update_interval_ticks : ℕ

-- sim/TruthSink.hpp, without the padding; `prob` has a fourth slot that stays 0.
pub record TruthRecord (D : Type 0) : Type 0 where
  pub tick : ℕ
  pub market_id : ℕ
  pub outcome_count : ℕ
  pub prob : Triple D

-- sim/JumpSink.hpp
pub record JumpRecord : Type 0 where
  pub tick : ℕ
  pub market_id : ℕ

-- sim/SettlementSink.hpp
pub record SettlementRecord : Type 0 where
  pub market_id : ℕ
  pub winner : ℕ
  pub outcome_count : ℕ

pub record MarketSim (G D : Type 0) : Type 0 where
  pub latent : LatentMarket G D
  pub books : List (Bookmaker G D)

-- What a piece of the loop leaves: the books or markets after it, the sequence numbers, the output.
pub record BooksStep (G D : Type 0) : Type 0 where
  pub books : List (Bookmaker G D)
  pub seq_no : List ℕ
  pub odds : List OddsUpdate

pub record State (G D : Type 0) : Type 0 where
  pub sims : List (MarketSim G D)
  pub seq_no : List ℕ
  pub final_latent : List (Triple D)
  pub odds : List OddsUpdate
  pub truth : List (TruthRecord D)
  pub jumps : List JumpRecord

-- `seq_no[b]++`
abbrev pub bump : List ℕ → ℕ → List ℕ
bump seq_no b = set seq_no b (increment (get_or seq_no b 0))

abbrev pub quoted_update : ℕ → ℕ → ℕ → ℕ → Triple ℕ → OddsUpdate
quoted_update seq ts book market odds = record {
  seq_no = seq;
  sim_timestamp_ns = ts;
  book_id = book;
  market_id = market;
  outcome_count = outcomes;
  odds_milli = quad odds.o0 odds.o1 odds.o2 0;
}

abbrev pub timestamp : ℕ → ℕ
timestamp tick = tick * tick_interval_ns % 2 ^ 64

module _ {D : Type 0} ⦃d : Double D⦄ where
  open d use {of_nat, literal, add, sub, mul, div, lt}

  abbrev book_config : ℕ → ℕ → D → D → D → ℕ → SimBookConfig D
  book_config id lag overround sigma skew interval = record {
    cfg = record {
      book_id = id;
      lag_ticks = lag;
      overround = overround;
      noise_sigma = sigma;
      skew = skew;
      vig_model = power_vig;
    };
    update_interval_ticks = interval;
  }

  abbrev pub default_roster : List (SimBookConfig D)
  default_roster =
      book_config 0 1 (literal 20 3) (literal 10 3) (literal 100 2) 1
      ∷ book_config 1 5 (literal 30 3) (literal 20 3) (literal 102 2) 2
      ∷ book_config 2 20 (literal 45 3) (literal 35 3) (literal 105 2) 5
      ∷ book_config 3 60 (literal 60 3) (literal 50 3) (literal 108 2) 10
      ∷ book_config 4 150 (literal 80 3) (literal 70 3) (literal 112 2) 25
      ∷ []

  unfoldable pub opening_line : ℕ → ℕ → Triple D
  opening_line master market_id =
      let h = derive_seed master 99 market_id in
      let home = add (literal 25 2) (div (mul (literal 35 2) (of_nat (h % 1000))) (of_nat 1000)) in
      let draw =
        add (literal 20 2) (div (mul (literal 15 2) (of_nat (h / 2 ^ 20 % 1000))) (of_nat 1000)) in
      let away = sub (sub (of_nat 1) home) draw in
      let floor = literal 5 2 in
      if lt away floor
      then each (λ p. div p (add (add home draw) floor)) (triple home draw floor)
      else triple home draw away

  abbrev pub run_header : List (SimBookConfig D) → ℕ → ℕ → ℕ → SessionHeader
  run_header roster seed markets ticks = record {
    magic = session_magic;
    version = session_version;
    record_size = odds_update_size;
    seed = seed;
    markets = markets;
    books = length roster;
    ticks = ticks;
    record_count = 0;
  }

module _ (G : Type 0) {D : Type 0} ⦃r : Random G D⦄ where
  open r use {seeded, pick_weighted}

  -- The winners, each by a generator of its own.
  unfoldable pub settle : ℕ → ℕ → List (Triple D) → List SettlementRecord
  settle seed m [] = []
  settle seed m (p ∷ ps) =
      let (winner, _) = pick_weighted p (seeded (derive_seed seed domain_settlement m)) in
      record { market_id = m % 2 ^ 16; winner = winner % 256; outcome_count = outcomes }
      ∷ settle seed (m + 1) ps

module _ {G D : Type 0} ⦃d : Double D⦄ ⦃r : Random G D⦄ where
  -- The books of market m, from b on.
  unfoldable pub seat : ℕ → ℕ → ℕ → List (SimBookConfig D) → List (Bookmaker G D)
  seat seed m b [] = []
  seat seed m b (e ∷ es) =
      Bookmaker.new e.cfg (derive_seed seed domain_bookmaker ((m * 1000 + b) % 2 ^ 64))
      ∷ seat seed m (b + 1) es

  -- The markets from m on, `n` of them.
  unfoldable pub set_up : List (SimBookConfig D) → ℕ → ℕ → ℕ → List (MarketSim G D)
  set_up roster seed m zero = []
  set_up roster seed m (suc n) =
      record {
        latent = Latent.new (derive_seed seed domain_latent_market m) (opening_line seed m);
        books = seat seed m 0 roster;
      }
      ∷ set_up roster seed (m + 1) n

module _ {G D : Type 0} ⦃d : Double D⦄ ⦃r : Random G D⦄ (pow : D → D → D) (to_uint32 : D → ℕ) where
  open d use {of_nat}

  -- The loop over the books of market m, from book b on.
  unfoldable pub step_books :
      ℕ → ℕ → Triple D → ℕ → List (SimBookConfig D) → List (Bookmaker G D) → List ℕ → BooksStep G D
  step_books tick m latent b (e ∷ es) (k ∷ ks) seq_no =
      let k' = observe latent k in
      let due = tick % e.update_interval_ticks == 0 in
      let (odds, k'') = quote pow to_uint32 k' in
      let u = quoted_update (get_or seq_no b 0) (timestamp tick) e.cfg.book_id (m % 2 ^ 16) odds in
      let rest = step_books tick m latent (b + 1) es ks (if due then bump seq_no b else seq_no) in
      record {
        books = (if due then k'' else k') ∷ rest.books;
        seq_no = rest.seq_no;
        odds = if due then u ∷ rest.odds else rest.odds;
      }
  step_books tick m latent b _ ks seq_no = record { books = ks; seq_no = seq_no; odds = [] }

  -- The loop over the markets, from m on.
  unfoldable pub step_markets :
      List (SimBookConfig D) → ℕ → ℕ → List (MarketSim G D) → List ℕ → State G D
  step_markets roster tick m [] seq_no = record {
    sims = [];
    seq_no = seq_no;
    final_latent = [];
    odds = [];
    truth = [];
    jumps = [];
  }
  step_markets roster tick m (s ∷ ss) seq_no =
      let (p, latent) = step s.latent in
      let here = step_books tick m p 0 roster s.books seq_no in
      let rest = step_markets roster tick (m + 1) ss here.seq_no in
      record {
        sims = record { latent = latent; books = here.books } ∷ rest.sims;
        seq_no = rest.seq_no;
        final_latent = p ∷ rest.final_latent;
        odds = here.odds ++ rest.odds;
        truth =
            record { tick = tick; market_id = m % 2 ^ 16; outcome_count = outcomes; prob = p }
            ∷ rest.truth;
        jumps =
            if latent.jumped
            then record { tick = tick; market_id = m % 2 ^ 16 } ∷ rest.jumps
            else rest.jumps;
      }

  -- The loop over the ticks, from `tick` on, `n` of them.
  unfoldable pub step_ticks : List (SimBookConfig D) → ℕ → ℕ → State G D → State G D
  step_ticks roster tick zero s = s
  step_ticks roster tick (suc n) s =
      let here = step_markets roster tick 0 s.sims s.seq_no in
      step_ticks roster (tick + 1) n (record here {
        odds = s.odds ++ here.odds;
        truth = s.truth ++ here.truth;
        jumps = s.jumps ++ here.jumps;
      })

  unfoldable pub generate : List (SimBookConfig D) → ℕ → ℕ → ℕ → State G D
  generate roster seed markets ticks = step_ticks roster 0 ticks (record {
    sims = set_up roster seed 0 markets;
    seq_no = replicate (length roster) 0;
    final_latent = replicate markets (triple (of_nat 0) (of_nat 0) (of_nat 0));
    odds = [];
    truth = [];
    jumps = [];
  })
