-- ===== src/Tests/Simulated.antt =====
-- Runs of the simulator, in thousandths.
use odds_engine.Base.{
  ℕ, ◌+◌, ◌*◌, ◌/◌, ◌%◌, ◌≤◌, ◌≡◌, refl, Bool, true, none, some, List, [], ◌∷◌, ltb, leb, length,
  get_or, replicate, arith,
}
use odds_engine.Base.Bytes.{Bytes}
use odds_engine.Float.Fixed.{Fixed, holds, divide, both, fixed-Double, fixed-IsOrdered}
use odds_engine.Session.Recorded.{record_session}
use odds_engine.Sim.{Triple, triple, Random}
use odds_engine.Sim.Bookmaker
use odds_engine.Sim.Bookmaker.{
  Bookmaker, BookConfig, power_vig, additive_vig, observe, lagged_view, add_margin, odds_of, noisy,
  quote,
}
use odds_engine.Sim.Bookmaker.Bounds.{IsQuoting, InRange, quote-InRange}
use odds_engine.Sim.Bookmaker.Lag.{observe_all, lagged_view-observe_all}
use odds_engine.Sim.Generate.{
  SimBookConfig, State, timestamp, seat, set_up, step_books, step_markets, step_ticks, generate,
  run_header,
}
use odds_engine.Sim.Feed.{Feed}
use odds_engine.Sim.Run.{generate-Feed}
use odds_engine.Verify.{verify_session}
use odds_engine.Verify.Whole.{verify_session-generate}

-- Generators that count.
instance abbrev counting : Random ℕ Fixed
counting = record {
  seeded = λ s. s % 7;
  normal = λ g. (some (g % 3 * 100), g + 1);
  uniform = λ g. (some (g % 2 * 10), g + 1);
  pick = λ n g. (g % (n + 1), g + 1);
  pick_weighted = λ w g. (g % 3, g + 1);
}

abbrev whole : Fixed → ℕ
whole (some a) = a / 1000
whole none = 0

abbrev flat : Fixed → Fixed → Fixed
flat x y = x

whole-IsQuoting : IsQuoting Fixed whole
whole-IsQuoting = record {
  le-of_nat = λ m n h k. scaled m n h;
  div-number = λ x h. divided x h;
  to_uint32_between = λ lo hi x k h l. rounded lo hi x h l;
}
  where
    scaled : (m n : ℕ) → m ≤ n → leb (m * 1000) (n * 1000) ≡ true
    scaled m n h = ground arith

    divided :
        (x : Fixed)
        → holds ltb (some 0) x ≡ true
        → holds leb (divide (some 1000000) x) (divide (some 1000000) x) ≡ true
    divided (some a) h = ground arith
    divided none h = absurd cc

    rounded :
        (lo hi : ℕ) (x : Fixed)
        → holds leb (some (lo * 1000)) x ≡ true
        → holds leb x (some (hi * 1000)) ≡ true
        → (lo ≤ whole (both (◌+◌) x (some 500))) × (whole (both (◌+◌) x (some 500)) ≤ hi)
    rounded lo hi (some a) h l = (ground arith, ground arith)
    rounded lo hi none h l = absurd cc

abbrev entry : ℕ → ℕ → SimBookConfig Fixed
entry id interval = record {
  cfg = record {
    book_id = id;
    lag_ticks = 1;
    overround = some 20;
    noise_sigma = some 10;
    skew = some 1000;
    vig_model = power_vig;
  };
  update_interval_ticks = interval;
}

abbrev small_roster : List (SimBookConfig Fixed)
small_roster = entry 0 1 ∷ entry 1 2 ∷ []

abbrev small_run : State ℕ Fixed
small_run = generate flat whole small_roster 42 2 2

small_run_size : length small_run.odds ≡ 6
unfolding generate step_ticks set_up seat step_markets step_books
small_run_size = refl

abbrev every_write : Bytes → Bool
every_write bs = true

generate-Feed_example : Feed 2 (replicate 2 0) 0 (timestamp 2) small_run.odds small_run.seq_no
generate-Feed_example =
    generate-Feed ℕ flat whole fixed-IsOrdered whole-IsQuoting small_roster 42 2 2
      (refl, (refl, tt)) (omega arith) (omega arith)

verify_session-generate_example :
    (file : Bytes) × (record_session every_write (run_header small_roster 42 2 2) small_run.odds
      ≡ some file)
    × (verify_session file ≡ 0)
verify_session-generate_example =
    verify_session-generate ℕ flat whole every_write small_roster 42 2 2 fixed-IsOrdered
      whole-IsQuoting (λ bs. refl) (refl, (refl, tt)) (omega arith) (omega arith) (omega arith)
      (omega arith) (omega arith) (omega arith) (omega arith) (omega (arith, small_run_size))

abbrev late_book : Bookmaker ℕ Fixed
late_book = Bookmaker.new (entry 3 1).cfg 9

abbrev seen_prices : List (Triple Fixed)
seen_prices =
    triple (some 500) (some 300) (some 200)
    ∷ triple (some 510) (some 290) (some 200)
    ∷ triple (some 400) (some 350) (some 250)
    ∷ []

quote-InRange_example :
    let odds = (quote flat whole (observe_all seen_prices late_book)).0 in
    InRange odds.o0 × InRange odds.o1 × InRange odds.o2
quote-InRange_example =
    quote-InRange flat whole fixed-IsOrdered whole-IsQuoting (observe_all seen_prices late_book)

lagged_view-observe_all_example :
    lagged_view (observe_all seen_prices late_book)
    ≡ get_or seen_prices 1 (triple (some 0) (some 0) (some 0))
unfolding Bookmaker.new
lagged_view-observe_all_example =
    lagged_view-observe_all seen_prices late_book (triple (some 0) (some 0) (some 0)) refl
      (omega arith) (omega arith) (omega arith)
