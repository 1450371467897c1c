-- ===== src/Session.antt =====
-- sim/OutputSink.hpp, `FileSink`, and engine/SessionReader.hpp: a session as a file. A file is its
-- bytes; `fwrite` is the parameter `write_ok`, whether it writes all of its block, and a failure is the
-- exception that the C++ throws.
pub mod Recorded
pub mod Replay
use odds_engine.Base.{
  ℕ, zero, suc, ◌+◌, Bool, true, false, not, Option, none, some, List, [], ◌∷◌, ◌++◌, ltb, leb,
  ◌==◌, if◌then◌else◌, length, take, drop,
}
use odds_engine.Base.Bytes.{Bytes, le_bytes}
use odds_engine.Wire.{
  OddsUpdate, SessionHeader, encode_session, decode_session, decode_update, session_magic,
  session_version, session_header_size, odds_update_size,
}
use odds_engine.BookTable.{increment}
use odds_engine.UdpSink.{encode_updates}

-- `buffer` holds buffer_[0 .. fill_).
pub record FileSink : Type 0 where
  pub file : Bytes
  pub buffer : List OddsUpdate
  pub record_count : ℕ

abbrev pub buffer_records : ℕ
buffer_records = 4096

-- `offsetof(SessionHeader, record_count)`
abbrev pub count_offset : ℕ
count_offset = 32

-- `fseek` to the offset, and a write over what is there.
abbrev pub patch : ℕ → Bytes → Bytes → Bytes
patch offset bs file = take offset file ++ (bs ++ drop (offset + length bs) file)

infixl 5 ◌>>=◌
abbrev pub ◌>>=◌ : {A B : Type 0} → Option A → (A → Option B) → Option B
none >>= f = none
some a >>= f = f a

module _ (write_ok : Bytes → Bool) where
  unfoldable pub create : SessionHeader → Option FileSink
  create header =
      let block = encode_session (record header { record_count = 0 }) in
      if write_ok block then some (record { file = block; buffer = []; record_count = 0 }) else none

  unfoldable pub flush : FileSink → Option FileSink
  flush s =
      if length s.buffer == 0
      then some s
      else (if write_ok (encode_updates s.buffer)
          then some (record s { file = s.file ++ encode_updates s.buffer; buffer = [] })
          else none)

  unfoldable pub accept : OddsUpdate → FileSink → Option FileSink
  accept update s =
      let t = record s { buffer = s.buffer ++ (update ∷ []) } in
      (if length t.buffer == buffer_records then flush t else some t) >>= λ t'.
      some (record t' { record_count = increment t'.record_count })

  -- The file that is left when it is closed.
  unfoldable pub finish : FileSink → Option Bytes
  finish s = flush s >>= λ t.
      if write_ok (le_bytes 8 t.record_count)
      then some (patch count_offset (le_bytes 8 t.record_count) t.file)
      else none

  abbrev pub accept_all : List OddsUpdate → FileSink → Option FileSink
  accept_all [] s = some s
  accept_all (u ∷ us) s = accept u s >>= accept_all us

-- The exceptions of the reader.
pub data ReadError : Type 0 where
  too_short bad_magic bad_version size_mismatch no_records truncated : ReadError

pub data Outcome (A : Type 0) : Type 0 where
  ok : A → Outcome A
  failed : ReadError → Outcome A

-- `rest` is the file from its read position on.
pub record SessionReader : Type 0 where
  pub header : SessionHeader
  pub rest : Bytes
  pub read : ℕ

unfoldable pub open_session : Bytes → Outcome SessionReader
open_session file =
    let header = decode_session file in
    if ltb (length file) session_header_size
    then failed too_short
    else (if not (header.magic == session_magic)
        then failed bad_magic
        else (if not (header.version == session_version)
            then failed bad_version
            else (if not (header.record_size == odds_update_size)
                then failed size_mismatch
                else (if header.record_count == 0
                    then failed no_records
                    else ok (record {
                      header = header;
                      rest = drop session_header_size file;
                      read = 0;
                    })))))

-- none is the end of the session, `false` in the C++.
unfoldable pub next : SessionReader → Outcome (Option (OddsUpdate × SessionReader))
next r =
    if leb r.header.record_count r.read
    then ok none
    else (if ltb (length r.rest) odds_update_size
        then failed truncated
        else ok (
            some (
              decode_update r.rest,
              record r { rest = drop odds_update_size r.rest; read = increment r.read },
            )))
