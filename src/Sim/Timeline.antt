-- ===== src/Sim/Timeline.antt =====
-- sim/JumpSink.hpp and sim/SettlementSink.hpp: the files of the jumps and of the winners. A file is its
-- bytes; `fwrite` is the parameter `write_ok`, as in Session.
use odds_engine.Base.{ℕ, Bool, Option, none, some, List, [], ◌∷◌, ◌++◌, if◌then◌else◌, get_or}
use odds_engine.Base.Bytes.{Bytes, Field, encode, decode}
use odds_engine.Session.{◌>>=◌}
use odds_engine.Sim.Generate.{JumpRecord, SettlementRecord}

abbrev pub jump_magic : ℕ
jump_magic = 0x504D554A

abbrev pub jump_version : ℕ
jump_version = 1

abbrev pub settlement_magic : ℕ
settlement_magic = 0x4C545453

abbrev pub settlement_version : ℕ
settlement_version = 1

abbrev pub jump_record_size : ℕ
jump_record_size = 16

abbrev pub settlement_record_size : ℕ
settlement_record_size = 8

-- The two headers have one layout.
abbrev pub timeline_header_size : ℕ
timeline_header_size = 24

abbrev pub timeline_widths : List ℕ
timeline_widths = 4 ∷ 2 ∷ 2 ∷ 8 ∷ 4 ∷ 4 ∷ []

abbrev pub timeline_fields : ℕ → ℕ → ℕ → ℕ → List Field
timeline_fields magic version seed markets =
    (4, magic) ∷ (2, version) ∷ (2, 0) ∷ (8, seed) ∷ (4, markets) ∷ (4, 0) ∷ []

unfoldable pub encode_timeline : ℕ → ℕ → ℕ → ℕ → Bytes
encode_timeline magic version seed markets = encode (timeline_fields magic version seed markets)

unfoldable pub decode_magic : Bytes → ℕ
decode_magic bs = get_or (decode timeline_widths bs) 0 0

abbrev pub jump_widths : List ℕ
jump_widths = 8 ∷ 2 ∷ 6 ∷ []

abbrev pub jump_fields : JumpRecord → List Field
jump_fields r = (8, r.tick) ∷ (2, r.market_id) ∷ (6, 0) ∷ []

abbrev pub jump_of : List ℕ → JumpRecord
jump_of vs = record { tick = get_or vs 0 0; market_id = get_or vs 1 0 }

unfoldable pub encode_jump : JumpRecord → Bytes
encode_jump r = encode (jump_fields r)

unfoldable pub decode_jump : Bytes → JumpRecord
decode_jump bs = jump_of (decode jump_widths bs)

abbrev pub settlement_widths : List ℕ
settlement_widths = 2 ∷ 1 ∷ 1 ∷ 4 ∷ []

abbrev pub settlement_fields : SettlementRecord → List Field
settlement_fields r = (2, r.market_id) ∷ (1, r.winner) ∷ (1, r.outcome_count) ∷ (4, 0) ∷ []

abbrev pub settlement_of : List ℕ → SettlementRecord
settlement_of vs = record {
  market_id = get_or vs 0 0;
  winner = get_or vs 1 0;
  outcome_count = get_or vs 2 0;
}

unfoldable pub encode_settlement : SettlementRecord → Bytes
encode_settlement r = encode (settlement_fields r)

unfoldable pub decode_settlement : Bytes → SettlementRecord
decode_settlement bs = settlement_of (decode settlement_widths bs)

module _ (write_ok : Bytes → Bool) where
  -- One `fwrite` at the end of the file.
  unfoldable pub write : Bytes → Bytes → Option Bytes
  write block file = if write_ok block then some (file ++ block) else none

  -- The calls of `accept`, by the encoding of the record.
  unfoldable pub write_each : {A : Type 0} → (A → Bytes) → List A → Bytes → Option Bytes
  write_each image [] file = some file
  write_each image (r ∷ rs) file = write (image r) file >>= write_each image rs

  -- A whole file, from the constructor to `finish`.
  unfoldable pub jump_file : ℕ → ℕ → List JumpRecord → Option Bytes
  jump_file seed markets rs =
      write (encode_timeline jump_magic jump_version seed markets) [] >>= write_each encode_jump rs

  unfoldable pub settlement_file : ℕ → ℕ → List SettlementRecord → Option Bytes
  settlement_file seed markets rs =
      write (encode_timeline settlement_magic settlement_version seed markets) []
      >>= write_each encode_settlement rs
