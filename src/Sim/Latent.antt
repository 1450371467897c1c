-- ===== src/Sim/Latent.antt =====
-- sim/LatentMarket.hpp: the true probabilities of a market, tick by tick.
use odds_engine.Base.{ℕ, Bool, true, false, if◌then◌else◌}
use odds_engine.Float.{Double}
use odds_engine.Sim.{Triple, triple, adjust, Random, each, softmax}

pub record LatentMarket (G D : Type 0) : Type 0 where
  pub initial_logits : Triple D
  pub logits : Triple D
  pub rng : G
  pub jumped : Bool

module _ {G D : Type 0} ⦃d : Double D⦄ ⦃r : Random G D⦄ where
  open d use {literal, add, sub, mul, lt, log}
  open r use {seeded, normal, uniform, pick}

  unfoldable pub new : ℕ → Triple D → LatentMarket G D
  new seed initial_probs =
      let start = each log initial_probs in
      record { initial_logits = start; logits = start; rng = seeded seed; jumped = false }

  -- One logit: back towards where it started, and noise.
  unfoldable pub drift : D → D → G → D × G
  drift initial logit g =
      let reversion = mul (literal 2 2) (sub initial logit) in
      let (z, g') = normal g in (add logit (add reversion (mul (literal 5 2) z)), g')

  unfoldable pub drift_all : LatentMarket G D → LatentMarket G D
  drift_all s =
      let (a, g) = drift s.initial_logits.o0 s.logits.o0 s.rng in
      let (b, g') = drift s.initial_logits.o1 s.logits.o1 g in
      let (c, g'') = drift s.initial_logits.o2 s.logits.o2 g' in
      record s { logits = triple a b c; rng = g''; jumped = false }

  unfoldable pub step : LatentMarket G D → Triple D × LatentMarket G D
  step s =
      let s' = drift_all s in
      let (x, g) = uniform s'.rng in
      let (winner, g') = pick 2 g in
      let after =
        if lt x (literal 5 3)
        then record s' {
          logits = adjust winner (λ l. add l (literal 15 1)) s'.logits;
          rng = g';
          jumped = true;
        }
        else record s' { rng = g } in
      (softmax after.logits, after)
