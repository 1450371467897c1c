-- ===== src/BetLog.antt =====
-- engine/BetLog.hpp: the bets of a run as a file. A file is its bytes; `fwrite` is the parameter
-- `write_ok`, whether it writes all of its block, and a failure is the exception that the C++ throws.
pub mod Written
use odds_engine.Base.{
  ℕ, ◌+◌, Bool, Option, none, some, List, [], ◌∷◌, ◌++◌, ◌==◌, if◌then◌else◌, length,
}
use odds_engine.Base.Bytes.{Bytes, Field, encode, le_bytes}
use odds_engine.BookTable.{increment}
use odds_engine.Session.{patch, ◌>>=◌}
use odds_engine.Engine.Market.{BetRecord}

abbrev pub bet_record_size : ℕ
bet_record_size = 40

abbrev pub bet_log_magic : ℕ
bet_log_magic = 0x5354454B

abbrev pub bet_log_version : ℕ
bet_log_version = 1

-- `offsetof(BetLogHeader, record_count)`
abbrev pub bet_count_offset : ℕ
bet_count_offset = 16

-- The header of a log of `count` records.
unfoldable pub encode_log_header : ℕ → ℕ → Bytes
encode_log_header seed count =
    encode (
      (4, bet_log_magic)
      ∷ (2, bet_log_version)
      ∷ (2, bet_record_size)
      ∷ (8, seed)
      ∷ (8, count)
      ∷ [])

-- `buffer` holds buffer_[0 .. fill_).
pub record BetLogSink (D : Type 0) : Type 0 where
  pub file : Bytes
  pub buffer : List (BetRecord D)
  pub record_count : ℕ

abbrev pub bet_buffer_records : ℕ
bet_buffer_records = 4096

-- `image` gives the eight bytes of a double in memory.
module _ {D : Type 0} (image : D → Bytes) where
  unfoldable pub encode_bet : BetRecord D → Bytes
  encode_bet r =
      encode ((8, r.sim_timestamp_ns) ∷ (2, r.market_id) ∷ (1, r.outcome) ∷ (5, 0) ∷ [])
      ++ (image r.stake ++ (encode ((4, r.odds_milli_taken) ∷ (4, 0) ∷ []) ++ image r.fair_prob))

  unfoldable pub encode_bets : List (BetRecord D) → Bytes
  encode_bets [] = []
  encode_bets (r ∷ rs) = encode_bet r ++ encode_bets rs

  module _ (write_ok : Bytes → Bool) where
    unfoldable pub open_log : ℕ → Option (BetLogSink D)
    open_log seed =
        let block = encode_log_header seed 0 in
        if write_ok block
        then some (record { file = block; buffer = []; record_count = 0 })
        else none

    unfoldable pub flush_log : BetLogSink D → Option (BetLogSink D)
    flush_log s =
        if length s.buffer == 0
        then some s
        else (if write_ok (encode_bets s.buffer)
            then some (record s { file = s.file ++ encode_bets s.buffer; buffer = [] })
            else none)

    unfoldable pub accept_bet : BetRecord D → BetLogSink D → Option (BetLogSink D)
    accept_bet r s =
        let t = record s { buffer = s.buffer ++ (r ∷ []) } in
        (if length t.buffer == bet_buffer_records then flush_log t else some t) >>= λ t'.
        some (record t' { record_count = increment t'.record_count })

    -- The file that is left when it is closed.
    unfoldable pub finish_log : BetLogSink D → Option Bytes
    finish_log s = flush_log s >>= λ t.
        if write_ok (le_bytes 8 t.record_count)
        then some (patch bet_count_offset (le_bytes 8 t.record_count) t.file)
        else none

    abbrev pub accept_bets : List (BetRecord D) → BetLogSink D → Option (BetLogSink D)
    accept_bets [] s = some s
    accept_bets (r ∷ rs) s = accept_bet r s >>= accept_bets rs

    -- A whole log, as `run` writes it.
    unfoldable pub log_file : ℕ → List (BetRecord D) → Option Bytes
    log_file seed rs = open_log seed >>= accept_bets rs >>= finish_log
