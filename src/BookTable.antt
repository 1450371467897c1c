-- ===== src/BookTable.antt =====
-- engine/BookTable.hpp: the newest quote of each (market, book), behind `apply`, `get` and
-- `is_stale`. The template parameters are the arguments `max_markets` and `max_books`.
pub mod Branches
pub mod History
pub mod Staleness
use odds_engine.Base.{
  ℕ, ◌+◌, ◌-◌, ◌%◌, ◌^◌, Bool, true, false, ◌&&◌, ◌||◌, not, List, [], ◌∷◌, ltb, leb, ◌==◌,
  if◌then◌else◌, Quad, splat,
}
use odds_engine.Wire.{OddsUpdate}

pub record Quote : Type 0 where
  pub odds_milli : Quad ℕ
  pub recv_timestamp_ns : ℕ
  pub seq_no : ℕ
  pub outcome_count : ℕ

-- `std::numeric_limits<uint64_t>::max()`.
abbrev pub empty_seq : ℕ
empty_seq = 2 ^ 64 - 1

abbrev pub empty_quote : Quote
empty_quote = record {
  odds_milli = splat 0;
  recv_timestamp_ns = 0;
  seq_no = empty_seq;
  outcome_count = 0;
}

pub data ApplyResult : Type 0 where
  applied rejected_out_of_range rejected_stale_seq : ApplyResult

-- The array is a function of the two indices.
pub record BookTable : Type 0 where
  pub table : ℕ → ℕ → Quote
  pub out_of_range : ℕ
  pub stale_seq : ℕ

abbrev pub new : BookTable
new = record { table = λ m b. empty_quote; out_of_range = 0; stale_seq = 0 }

abbrev pub quote_of : OddsUpdate → ℕ → Quote
quote_of u recv_ns = record {
  odds_milli = u.odds_milli;
  recv_timestamp_ns = recv_ns;
  seq_no = u.seq_no;
  outcome_count = u.outcome_count;
}

abbrev pub store : (ℕ → ℕ → Quote) → ℕ → ℕ → Quote → ℕ → ℕ → Quote
store t m b q m' b' = if m' == m && b' == b then q else t m' b'

abbrev pub increment : ℕ → ℕ
increment n = (n + 1) % 2 ^ 64

module _ (max_markets max_books : ℕ) where
  unfoldable pub apply : OddsUpdate → ℕ → BookTable → ApplyResult × BookTable
  apply u recv_ns t =
      if leb max_markets u.market_id || leb max_books u.book_id
      then (rejected_out_of_range, record t { out_of_range = increment t.out_of_range })
      else (if not ((t.table u.market_id u.book_id).seq_no == empty_seq)
            && leb u.seq_no (t.table u.market_id u.book_id).seq_no
          then (rejected_stale_seq, record t { stale_seq = increment t.stale_seq })
          else (
            applied,
            record t { table = store t.table u.market_id u.book_id (quote_of u recv_ns) },
          ))

unfoldable pub get : BookTable → ℕ → ℕ → Quote
get t market_id book_id = t.table market_id book_id

unfoldable pub is_stale : BookTable → ℕ → ℕ → ℕ → ℕ → Bool
is_stale t market_id book_id now_ns stale_after_ns =
    let q = t.table market_id book_id in
    if q.seq_no == empty_seq
    then true
    else (if leb now_ns q.recv_timestamp_ns
        then false
        else leb stale_after_ns (now_ns - q.recv_timestamp_ns))
