-- ===== src/Verify/Whole.antt =====
-- sim/main.cpp, sim/OutputSink.hpp and tools/verify_session.cpp together: what is simulated and
-- recorded passes the checks.
use odds_engine.Base.{
  ℕ, zero, suc, ◌*◌, ◌^◌, ◌<◌, ◌≤◌, ◌≡◌, refl, ap, ◌∙◌, Bool, true, some, List, length, replicate,
  length-replicate, get_or, arith,
}
use odds_engine.Base.Bytes.{Bytes}
use odds_engine.Float.{Double, IsOrdered}
use odds_engine.Wire.{OddsUpdate, SessionHeader, tick_interval_ns}
use odds_engine.Wire.RoundTrip.{IsSession}
use odds_engine.Session.Recorded.{counted, record_session}
use odds_engine.Session.Replay.{IsReadable, record_session-Replays}
use odds_engine.Sim.{Random}
use odds_engine.Sim.Bookmaker.Bounds.{IsQuoting}
use odds_engine.Sim.Generate.{SimBookConfig, State, timestamp, generate, run_header}
use odds_engine.Sim.Feed.{Feed, Below, Feed-IsUpdate}
use odds_engine.Sim.Run.{Numbered, generate-Feed, generate_some}
use odds_engine.Verify.{no_checks, verdict, exit_code, check_loop, verify_session}
use odds_engine.Verify.Accepts.{check_all, check_all-Feed, check_loop-read_all, on_ok, IsClean}

Below-replicate : (n : ℕ) → Below 0 (replicate n 0)
Below-replicate n b = go n b
  where
    go : (n b : ℕ) → get_or (replicate n 0) b 0 ≤ 0
    go zero b = omega arith
    go (suc n) zero = omega arith
    go (suc n) (suc b) = go n b

-- A recorded feed passes.
verify_session-Feed :
    (write_ok : Bytes → Bool) (h : SessionHeader) (us : List OddsUpdate) (hi : ℕ) (seq_no : List ℕ)
    → ((bs : Bytes) → write_ok bs ≡ true)
    → IsSession (counted (length us) h)
    → IsReadable h
    → h.markets < 2 ^ 16
    → h.books < 2 ^ 16
    → hi < 2 ^ 64
    → 0 < length us
    → length us < 2 ^ 64
    → Feed h.markets (replicate h.books 0) 0 hi us seq_no
    → (file : Bytes) × (record_session write_ok h us ≡ some file) × (verify_session file ≡ 0)
unfolding verify_session
verify_session-Feed write_ok h us hi seq_no writes fits readable hm hb ht some_record few f =
    let size = length-replicate {A = ℕ} h.books 0 in
    let updates =
      Feed-IsUpdate h.markets hi us 0 0 (replicate h.books 0) seq_no hm (omega (arith, size)) ht
        (omega arith) (Below-replicate h.books) f in
    let (file, recorded, r, opened, same, read) =
      record_session-Replays write_ok h us writes fits readable updates some_record few in
    let start : IsClean (replicate h.books 0) 0 no_checks = record {
      seen = λ m b k. tt;
      ts = omega arith;
      none_failed = refl;
      below = Below-replicate h.books;
    } in
    let (clean, count) =
      check_all-Feed h.markets us 0 hi (replicate h.books 0) seq_no no_checks (omega (arith, size))
        (omega arith) start f in
    let h' = counted (length us) h in
    let loop =
      check_loop-read_all h.markets (suc (length us)) r no_checks
      ∙ ap (on_ok (λ us. check_all h.markets us no_checks)) read in
    (
      file,
      recorded,
      ap exit_code opened
          ∙ ap
              (λ (g : SessionHeader).
                verdict g.record_count (check_loop (suc g.record_count) g.markets r no_checks))
              same
          ∙ ap (verdict (length us)) loop
          ∙ ground (arith, clean, count),
    )

module _ (G : Type 0) {D : Type 0} ⦃d : Double D⦄ ⦃r : Random G D⦄ (pow : D → D → D)
    (to_uint32 : D → ℕ) where
  -- Whatever the generators draw: a run of the simulator that is recorded on a disk that takes every
  -- write gives a file, and `verify_session` accepts it with exit code 0. For a roster that is not
  -- empty and numbered from 0, at least one market and one tick, fewer than 2^16 books and markets,
  -- and times and a number of records below 2^64.
  pub verify_session-generate :
      (write_ok : Bytes → Bool) (roster : List (SimBookConfig D)) (seed markets ticks : ℕ)
      → IsOrdered D
      → IsQuoting D to_uint32
      → ((bs : Bytes) → write_ok bs ≡ true)
      → Numbered 0 roster
      → 0 < length roster
      → length roster < 2 ^ 16
      → 0 < markets
      → markets < 2 ^ 16
      → seed < 2 ^ 64
      → 0 < ticks
      → ticks * tick_interval_ns < 2 ^ 64
      → let run : State G D = generate pow to_uint32 roster seed markets ticks in
        length run.odds < 2 ^ 64
        → (file : Bytes) × (record_session write_ok (run_header roster seed markets ticks) run.odds
            ≡ some file)
          × (verify_session file ≡ 0)
  verify_session-generate write_ok roster seed markets ticks ordered quoting writes num hr hb hm fm
        hs ht last few =
      let run : State G D = generate pow to_uint32 roster seed markets ticks in
      verify_session-Feed write_ok (run_header roster seed markets ticks) run.odds (timestamp ticks)
        run.seq_no writes
        (
          omega arith,
          (
            omega arith,
            (
              omega arith,
              (
                omega arith,
                (omega arith, (omega arith, (omega arith, (omega arith, (omega arith, tt))))),
              ),
            ),
          ),
        )
        (refl, refl, refl) fm hb (omega arith)
        (generate_some G pow to_uint32 roster seed markets ticks hr hm ht) few
        (generate-Feed G pow to_uint32 ordered quoting roster seed markets ticks num fm last)
