-- ===== src/Tests.antt =====
-- The theorems at concrete inputs, and the data of these runs.
mod Feed
mod Pricing
mod Live
mod Simulated
mod Served
mod Captured
mod Scored
use odds_engine.Base.{
  ℕ, ◌+◌, ◌^◌, ◌<◌, ◌≡◌, ◌≢◌, refl, Bool, true, false, ◌&&◌, not, List, [], ◌∷◌, ltb, ltb→lt, ◌==◌,
  ==_iff, All, arith, quad, sym,
}
use odds_engine.Base.Bytes.{Bytes, Field, Fits, width, value}
use odds_engine.Wire.{OddsUpdate, SessionHeader, session_magic, session_version, odds_update_size}

abbrev pub update : ℕ → ℕ → ℕ → ℕ → OddsUpdate
update seq ts market book = record {
  seq_no = seq;
  sim_timestamp_ns = ts;
  book_id = book;
  market_id = market;
  outcome_count = 3;
  odds_milli = quad (2100 + book) 3300 3900 0;
}

-- Two ticks, the second with a late duplicate of the first's number.
abbrev pub three_updates : List OddsUpdate
three_updates = update 5 100000000 1 0 ∷ update 6 100000000 1 1 ∷ update 6 200000000 1 0 ∷ []

abbrev pub header : SessionHeader
header = record {
  magic = session_magic;
  version = session_version;
  record_size = odds_update_size;
  seed = 42;
  markets = 2;
  books = 2;
  ticks = 2;
  record_count = 0;
}

-- The ranges of a record's fields, computed.
abbrev pub fit : List Field → Bool
fit [] = true
fit (f ∷ fs) = let rest = fit fs in ltb (value f) (256 ^ width f) && rest

pub fit-Fits : (fs : List Field) → fit fs ≡ true → All Fits fs
fit-Fits [] h = tt
fit-Fits (f ∷ fs) h = (ltb→lt _ _ (ground arith), fit-Fits fs (ground arith))

abbrev pub plain : Bytes → Bool
plain [] = true
plain (c ∷ s) = let rest = plain s in not (c == 34) && rest

pub plain-IsPlain : (s : Bytes) → plain s ≡ true → All (λ c. c ≢ 34) s
plain-IsPlain [] h = tt
plain-IsPlain (c ∷ s) h = (ground arith, plain-IsPlain s (ground arith))
