-- ===== src/BookTable/Staleness.antt =====
-- engine/BookTable.hpp, `is_stale`: the threshold, and the sentinel.
use odds_engine.Base.{ℕ, ◌+◌, ◌≤◌, ◌<◌, ◌≡◌, ◌↔◌, ◌⊎◌, true, arith}
use odds_engine.Wire.{OddsUpdate}
use odds_engine.BookTable.{BookTable, applied, empty_seq, apply, get, is_stale}

-- A slot is stale exactly when it was never written, or when the clock is past its receipt by the
-- threshold at least; at or before the receipt nothing is stale, whatever the threshold.
is_stale_iff :
    (t : BookTable) (m b now after : ℕ)
    → (is_stale t m b now after ≡ true)
      ↔ ((get t m b).seq_no ≡ empty_seq)
        ⊎ (((get t m b).recv_timestamp_ns < now) × ((get t m b).recv_timestamp_ns + after ≤ now))
unfolding is_stale get
is_stale_iff t m b now after = ground arith

-- Later clocks and tighter thresholds only make more slots stale.
is_stale_mono :
    (t : BookTable) (m b now now' after after' : ℕ)
    → now ≤ now'
    → after' ≤ after
    → is_stale t m b now after ≡ true
    → is_stale t m b now' after' ≡ true
unfolding is_stale
is_stale_mono t m b now now' after after' h k s = ground arith

-- An update in range that carries the sentinel as its number is taken if it is not refused, and the
-- slot that it fills reads as never written at every clock and threshold: the quote is lost.
pub is_stale-apply_sentinel :
    (markets books : ℕ) (u : OddsUpdate) (recv now after : ℕ) (t : BookTable)
    → u.seq_no ≡ empty_seq
    → (apply markets books u recv t).0 ≡ applied
    → is_stale (apply markets books u recv t).1 u.market_id u.book_id now after ≡ true
unfolding is_stale apply
is_stale-apply_sentinel markets books u recv now after t e a = ground arith
