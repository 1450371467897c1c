-- ===== src/Sim/Run.antt =====
-- sim/main.cpp: the quotes of a run are a feed, whatever the generators draw.
use odds_engine.Base.{
  ℕ, zero, suc, ◌+◌, ◌*◌, ◌%◌, ◌^◌, ◌<◌, ◌≤◌, ◌≡◌, refl, sym, ap, subst, inl, inr, List, [], ◌∷◌,
  ◌++◌, ◌==◌, length, get_or, replicate, length-replicate, length-set, length-append, true, arith,
  Bool-cases,
}
use odds_engine.Float.{Double, IsOrdered}
use odds_engine.Wire.{tick_interval_ns}
use odds_engine.BookTable.{increment}
use odds_engine.Sim.{Triple, triple, Random}
use odds_engine.Sim.Bookmaker.{Bookmaker, observe, quote}
use odds_engine.Sim.Bookmaker.Bounds.{IsQuoting, quote-InRange}
use odds_engine.Sim.Seeding.{derive_seed, domain_latent_market, domain_bookmaker}
use odds_engine.Sim.Latent
use odds_engine.Sim.Bookmaker
use odds_engine.Sim.Latent.{LatentMarket, step}
use odds_engine.Sim.Generate.{
  SimBookConfig, MarketSim, State, bump, timestamp, set_up, seat, step_books, step_markets,
  step_ticks, generate, opening_line,
}
use odds_engine.Sim.Feed.{Feed, Feed-append, length-Feed}

-- The books of a roster are numbered from b on.
abbrev pub Numbered : {D : Type 0} → ℕ → List (SimBookConfig D) → Type 0
Numbered b [] = Unit
Numbered b (e ∷ es) = (e.cfg.book_id ≡ b) × Numbered (b + 1) es

module _ {G D : Type 0} ⦃d : Double D⦄ ⦃r : Random G D⦄ (pow : D → D → D) (to_uint32 : D → ℕ)
    (ordered : IsOrdered D) (quoting : IsQuoting D to_uint32) (markets : ℕ)
    (few : markets < 2 ^ 16) where
  step_books-Feed :
      (tick m : ℕ) (latent : Triple D) (es : List (SimBookConfig D)) (b : ℕ)
      (ks : List (Bookmaker G D)) (seq_no : List ℕ) (hi : ℕ)
      → Numbered b es
      → b + length es ≤ length seq_no
      → m < markets
      → timestamp tick ≤ hi
      → let after = step_books pow to_uint32 tick m latent b es ks seq_no in
        Feed markets seq_no (timestamp tick) hi after.odds after.seq_no
  unfolding step_books
  step_books-Feed tick m latent [] b ks seq_no hi n room hm h = refl
  step_books-Feed tick m latent (e ∷ es) b [] seq_no hi n room hm h = refl
  step_books-Feed tick m latent (e ∷ es) b (k ∷ ks) seq_no hi (id, n) room hm h =
      elim (Bool-cases (tick % e.update_interval_ticks == 0)) [
        | inr early ↦
            rw early (step_books-Feed tick m latent es (b + 1) ks seq_no hi n (omega arith) hm h)
        | inl due ↦
            let inside = quote-InRange pow to_uint32 ordered quoting (observe latent k) in
            let later =
              step_books-Feed tick m latent es (b + 1) ks (bump seq_no b) hi n
                (omega (arith, length-set seq_no b (increment (get_or seq_no b 0)))) hm h in
            rw due (
              record {
                next_number = ap (λ c. get_or seq_no c 0) (sym id);
                not_before = omega arith;
                not_after = h;
                has_book = omega (arith, id);
                has_market = omega arith;
                three = refl;
                range0 = inside.0;
                range1 = inside.1;
                range2 = inside.2;
                unused = refl;
              },
              rw id later,
            )
      ]

  step_markets-Feed :
      (roster : List (SimBookConfig D)) (tick m : ℕ) (ss : List (MarketSim G D)) (seq_no : List ℕ)
      (hi : ℕ)
      → Numbered 0 roster
      → length roster ≤ length seq_no
      → m + length ss ≤ markets
      → timestamp tick ≤ hi
      → let after = step_markets pow to_uint32 roster tick m ss seq_no in
        Feed markets seq_no (timestamp tick) hi after.odds after.seq_no
        × (length after.sims ≡ length ss)
  unfolding step_markets
  step_markets-Feed roster tick m [] seq_no hi n room hm h = (refl, refl)
  step_markets-Feed roster tick m (s ∷ ss) seq_no hi n room hm h =
      let now = timestamp tick in
      let here = step_books pow to_uint32 tick m (step s.latent).0 0 roster s.books seq_no in
      let rest = step_markets pow to_uint32 roster tick (m + 1) ss here.seq_no in
      let f =
        step_books-Feed tick m (step s.latent).0 roster 0 s.books seq_no now n (omega arith)
          (omega arith) (omega arith) in
      let same = length-Feed markets here.odds now now seq_no here.seq_no f in
      let later =
        step_markets-Feed roster tick (m + 1) ss here.seq_no hi n (omega (arith, same))
          (omega arith) h in
      (
        Feed-append markets here.odds rest.odds now now hi seq_no here.seq_no rest.seq_no
            (omega arith) h f later.0,
        ap suc later.1,
      )

  -- `q` are the numbers that the run began with.
  step_ticks-Feed :
      (roster : List (SimBookConfig D)) (q : List ℕ) (tick n : ℕ) (s : State G D)
      → Numbered 0 roster
      → length roster ≤ length q
      → length s.sims ≤ markets
      → (tick + n) * tick_interval_ns < 2 ^ 64
      → Feed markets q 0 (timestamp tick) s.odds s.seq_no
      → let after = step_ticks pow to_uint32 roster tick n s in
        Feed markets q 0 (timestamp (tick + n)) after.odds after.seq_no
  unfolding step_ticks
  step_ticks-Feed roster q tick zero s num room hm ht f =
      let same : tick + 0 ≡ tick = omega arith in rw same f
  step_ticks-Feed roster q tick (suc n) s num room hm ht f =
      let here = step_markets pow to_uint32 roster tick 0 s.sims s.seq_no in
      let next : State G D = record here {
        odds = s.odds ++ here.odds;
        truth = s.truth ++ here.truth;
        jumps = s.jumps ++ here.jumps;
      } in
      let now = timestamp tick in
      let later = timestamp (tick + 1) in
      let size = length-Feed markets s.odds 0 now q s.seq_no f in
      let g =
        step_markets-Feed roster tick 0 s.sims s.seq_no later num (omega (arith, size))
          (omega arith) (omega arith) in
      let joined =
        Feed-append markets s.odds here.odds 0 now later q s.seq_no here.seq_no (omega arith)
          (omega arith) f g.0 in
      let shift : tick + suc n ≡ tick + 1 + n = omega arith in
      rw shift (
        step_ticks-Feed roster q (tick + 1) n next num room (omega (arith, g.1)) (omega arith)
          joined)

module _ (G : Type 0) {D : Type 0} ⦃d : Double D⦄ ⦃r : Random G D⦄ where
  length-set_up :
      (roster : List (SimBookConfig D)) (seed m n : ℕ) → length (set_up {G = G} roster seed m n) ≡ n
  unfolding set_up
  length-set_up roster seed m zero = refl
  length-set_up roster seed m (suc n) = ap suc (length-set_up roster seed (m + 1) n)

module _ (G : Type 0) {D : Type 0} ⦃d : Double D⦄ ⦃r : Random G D⦄ (pow : D → D → D)
    (to_uint32 : D → ℕ) (ordered : IsOrdered D) (quoting : IsQuoting D to_uint32) where
  -- Whatever the generators draw: the quotes of a run are a feed. Each book numbers its own from 0 on,
  -- the times never go back, the markets and books are those of the run, and each has three odds
  -- from 1001 to 1000000 and an unused slot of 0. For a roster that is numbered from 0, fewer than 2^16
  -- markets and a last time below 2^64.
  pub generate-Feed :
      (roster : List (SimBookConfig D)) (seed markets ticks : ℕ)
      → Numbered 0 roster
      → markets < 2 ^ 16
      → ticks * tick_interval_ns < 2 ^ 64
      → let run : State G D = generate pow to_uint32 roster seed markets ticks in
        Feed markets (replicate (length roster) 0) 0 (timestamp ticks) run.odds run.seq_no
  unfolding generate
  generate-Feed roster seed markets ticks num few ht =
      let run : State G D = generate pow to_uint32 roster seed markets ticks in
      let start : State G D = record {
        sims = set_up roster seed 0 markets;
        seq_no = replicate (length roster) 0;
        final_latent = replicate markets (triple (d.of_nat 0) (d.of_nat 0) (d.of_nat 0));
        odds = [];
        truth = [];
        jumps = [];
      } in
      let last : timestamp (0 + ticks) ≡ timestamp ticks = omega arith in
      subst (λ hi. Feed markets (replicate (length roster) 0) 0 hi run.odds run.seq_no) last
        (step_ticks-Feed pow to_uint32 ordered quoting markets few roster
          (replicate (length roster) 0) 0 ticks start num
          (omega (arith, length-replicate {A = ℕ} (length roster) 0))
          (omega (arith, length-set_up G roster seed 0 markets)) (omega arith) refl)

module _ {G D : Type 0} ⦃d : Double D⦄ ⦃r : Random G D⦄ (pow : D → D → D) (to_uint32 : D → ℕ) where
  step_ticks_grows :
      (roster : List (SimBookConfig D)) (tick n : ℕ) (s : State G D)
      → length s.odds ≤ length (step_ticks pow to_uint32 roster tick n s).odds
  unfolding step_ticks
  step_ticks_grows roster tick zero s = omega arith
  step_ticks_grows roster tick (suc n) s =
      let here = step_markets pow to_uint32 roster tick 0 s.sims s.seq_no in
      omega (
        arith,
        length-append s.odds here.odds,
        step_ticks_grows roster (tick + 1) n (record here {
          odds = s.odds ++ here.odds;
          truth = s.truth ++ here.truth;
          jumps = s.jumps ++ here.jumps;
        }),
      )

  -- The quotes of the first tick stay.
  step_ticks_some :
      (roster : List (SimBookConfig D)) (n : ℕ) (s : State G D)
      → 0 < length (step_markets pow to_uint32 roster 0 0 s.sims s.seq_no).odds
      → 0 < length (step_ticks pow to_uint32 roster 0 (suc n) s).odds
  unfolding step_ticks
  step_ticks_some roster n s some_here =
      let here = step_markets pow to_uint32 roster 0 0 s.sims s.seq_no in
      let next : State G D = record here {
        odds = s.odds ++ here.odds;
        truth = s.truth ++ here.truth;
        jumps = s.jumps ++ here.jumps;
      } in
      let kept : length (s.odds ++ here.odds)
          ≤ length (step_ticks pow to_uint32 roster 1 n next).odds =
        step_ticks_grows roster 1 n next in
      omega (arith, length-append s.odds here.odds, some_here, kept)

  step_books_some :
      (m : ℕ) (latent : Triple D) (e : SimBookConfig D) (es : List (SimBookConfig D))
      (k : Bookmaker G D) (ks : List (Bookmaker G D)) (seq_no : List ℕ)
      → 0 < length (step_books pow to_uint32 0 m latent 0 (e ∷ es) (k ∷ ks) seq_no).odds
  unfolding step_books
  step_books_some m latent e es k ks seq_no =
      let due : (0 % e.update_interval_ticks == 0) ≡ true = ground arith in rw due (omega arith)

module _ (G : Type 0) {D : Type 0} ⦃d : Double D⦄ ⦃r : Random G D⦄ (pow : D → D → D)
    (to_uint32 : D → ℕ) where
  step_markets_some :
      (e : SimBookConfig D) (es : List (SimBookConfig D)) (seed n : ℕ) (seq_no : List ℕ)
      → let ss : List (MarketSim G D) = set_up (e ∷ es) seed 0 (suc n) in
        0 < length (step_markets pow to_uint32 (e ∷ es) 0 0 ss seq_no).odds
  unfolding step_markets set_up seat
  step_markets_some e es seed n seq_no =
      let first : Bookmaker G D = Bookmaker.new e.cfg (derive_seed seed domain_bookmaker 0) in
      let latent : LatentMarket G D =
        Latent.new (derive_seed seed domain_latent_market 0) (opening_line seed 0) in
      omega (
        arith,
        length-append
            (step_books pow to_uint32 0 0 (step latent).0 0 (e ∷ es) (first ∷ seat seed 0 1 es)
              seq_no).odds
            _,
        step_books_some pow to_uint32 0 (step latent).0 e es first (seat seed 0 1 es) seq_no,
      )

  -- Every book quotes at tick 0, so a run is not empty.
  pub generate_some :
      (roster : List (SimBookConfig D)) (seed markets ticks : ℕ)
      → 0 < length roster
      → 0 < markets
      → 0 < ticks
      → let run : State G D = generate pow to_uint32 roster seed markets ticks in
        0 < length run.odds
  unfolding generate
  generate_some [] seed markets ticks hr hm ht = absurd (omega arith)
  generate_some (e ∷ es) seed zero ticks hr hm ht = absurd (omega arith)
  generate_some (e ∷ es) seed (suc n) zero hr hm ht = absurd (omega arith)
  generate_some (e ∷ es) seed (suc n) (suc t) hr hm ht =
      step_ticks_some pow to_uint32 (e ∷ es) t
        (record {
          sims = set_up (e ∷ es) seed 0 (suc n);
          seq_no = replicate (length (e ∷ es)) 0;
          final_latent = replicate (suc n) (triple (d.of_nat 0) (d.of_nat 0) (d.of_nat 0));
          odds = [];
          truth = [];
          jumps = [];
        })
        (step_markets_some e es seed n (replicate (length (e ∷ es)) 0))
