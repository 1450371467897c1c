-- ===== src/Sim/Bookmaker.antt =====
-- sim/Bookmaker.hpp: how a book sees a market late and quotes it. `pow`, and the conversion of a
-- double to `uint32_t`, are parameters.
pub mod Bounds
pub mod Lag
use odds_engine.Base.{ℕ, ◌+◌, ◌-◌, ◌%◌, ◌^◌, leb, ◌==◌, if◌then◌else◌}
use odds_engine.Float.{Double}
use odds_engine.BookTable.{increment}
use odds_engine.Sim.{Triple, triple, Random, each, total, softmax}

pub data VigModel : Type 0 where
  power_vig additive_vig proportional_vig : VigModel

-- `lag_ticks` is an `int` that is not negative.
pub record BookConfig (D : Type 0) : Type 0 where
  pub book_id : ℕ
  pub lag_ticks : ℕ
  pub overround : D
  pub noise_sigma : D
  pub skew : D
  pub vig_model : VigModel

-- The array of the last 512 observations is a function of the index.
pub record Bookmaker (G D : Type 0) : Type 0 where
  pub cfg : BookConfig D
  pub history : ℕ → Triple D
  pub write_idx : ℕ
  pub rng : G

abbrev pub max_lag : ℕ
max_lag = 512

abbrev pub max_odds_milli : ℕ
max_odds_milli = 1000000

abbrev pub min_odds_milli : ℕ
min_odds_milli = 1001

-- `a - b` in 64 bits, for b below 2^64.
abbrev pub minus : ℕ → ℕ → ℕ
minus a b = (a + 2 ^ 64 - b) % 2 ^ 64

unfoldable pub observe : {G D : Type 0} → Triple D → Bookmaker G D → Bookmaker G D
observe latent s = record s {
  history = λ i. if i == s.write_idx % max_lag then latent else s.history i;
  write_idx = increment s.write_idx;
}

unfoldable pub lagged_view : {G D : Type 0} → Bookmaker G D → Triple D
lagged_view s =
    let available = s.write_idx in
    let lag = s.cfg.lag_ticks in
    let back = if leb available lag then minus available 1 else lag in
    s.history (minus (minus s.write_idx 1) back % max_lag)

module _ {D : Type 0} ⦃d : Double D⦄ where
  open d use {of_nat, literal, add, mul, div, lt}

  -- The margin, by the model of the book.
  unfoldable pub add_margin : (D → D → D) → BookConfig D → VigModel → Triple D → Triple D
  add_margin pow cfg power_vig p =
      let q = each (λ x. pow x (div (of_nat 1) cfg.skew)) p in
      each (λ x. mul (div x (total q)) (add (of_nat 1) cfg.overround)) q
  add_margin pow cfg proportional_vig p = each (λ x. mul x (add (of_nat 1) cfg.overround)) p
  add_margin pow cfg additive_vig p = each (λ x. add x (div cfg.overround (of_nat 3))) p

  -- The price of a probability with its margin, clamped.
  unfoldable pub odds_of : (D → ℕ) → D → ℕ
  odds_of to_uint32 q =
      let milli = if lt (of_nat 0) q then div (of_nat 1000) q else of_nat max_odds_milli in
      let capped = if lt (of_nat max_odds_milli) milli then of_nat max_odds_milli else milli in
      let held = if lt capped (of_nat min_odds_milli) then of_nat min_odds_milli else capped in
      to_uint32 (add held (literal 5 1))

module _ {G D : Type 0} ⦃d : Double D⦄ ⦃r : Random G D⦄ where
  open d use {of_nat, add, mul, log}
  open r use {seeded, normal}

  unfoldable pub new : BookConfig D → ℕ → Bookmaker G D
  new cfg seed = record {
    cfg = cfg;
    history = λ i. triple (of_nat 0) (of_nat 0) (of_nat 0);
    write_idx = 0;
    rng = seeded seed;
  }

  -- `std::log(lagged[i]) + noise_sigma * normal_(rng_)`
  unfoldable pub noisy : D → D → G → D × G
  noisy sigma p g = let (z, g') = normal g in (add (log p) (mul sigma z), g')

  unfoldable pub quote : (D → D → D) → (D → ℕ) → Bookmaker G D → Triple ℕ × Bookmaker G D
  quote pow to_uint32 s =
      let lagged = lagged_view s in
      let (a, g) = noisy s.cfg.noise_sigma lagged.o0 s.rng in
      let (b, g') = noisy s.cfg.noise_sigma lagged.o1 g in
      let (c, g'') = noisy s.cfg.noise_sigma lagged.o2 g' in
      let q = add_margin pow s.cfg s.cfg.vig_model (softmax (triple a b c)) in
      (
        triple (odds_of to_uint32 q.o0) (odds_of to_uint32 q.o1) (odds_of to_uint32 q.o2),
        record s { rng = g'' },
      )
