-- ===== src/Session/Replay.antt =====
-- sim/OutputSink.hpp and engine/SessionReader.hpp together: what is recorded is what is replayed.
use odds_engine.Base.{
  ℕ, zero, suc, ◌+◌, ◌^◌, ◌<◌, ◌≡◌, refl, ap, ◌∙◌, Bool, true, false, none, some, List, [], ◌∷◌,
  ◌++◌, ltb, leb, ◌==◌, if◌then◌else◌, length, All, arith, length-append, drop-append_of_length,
}
use odds_engine.Base.Bytes.{Bytes}
use odds_engine.Wire.{
  OddsUpdate, SessionHeader, encode_update, encode_session, session_magic, session_version,
  session_header_size, odds_update_size,
}
use odds_engine.Wire.RoundTrip.{
  IsUpdate, IsSession, decode-encode_update, decode-encode_session, length-encode_update,
  length-encode_session,
}
use odds_engine.BookTable.{increment}
use odds_engine.UdpSink.{encode_updates}
use odds_engine.Session.{
  no_records, truncated, Outcome, ok, failed, SessionReader, open_session, next,
}
use odds_engine.Session.Recorded.{
  counted, record_session, record_unfinished, record_session_lem, record_unfinished_lem,
}

-- The calls of the reader's `next`, up to the end or an exception; `fuel` is more than the records.
unfoldable pub read_all : ℕ → SessionReader → Outcome (List OddsUpdate)
read_all zero r = failed truncated
read_all (suc fuel) r = elim (next r) [
  | failed e ↦ failed e
  | ok none ↦ ok []
  | ok (some (u, r')) ↦ elim (read_all fuel r') [ failed e ↦ failed e | ok us ↦ ok (u ∷ us) ]
]

abbrev pub reader : SessionHeader → ℕ → Bytes → SessionReader
reader h n rest = record { header = h; rest = rest; read = n }

next_end :
    (h : SessionHeader) (n : ℕ) (rest : Bytes)
    → h.record_count ≡ n
    → next (reader h n rest) ≡ ok none
unfolding next
next_end h n rest e = ground arith

next_record :
    (h : SessionHeader) (n : ℕ) (u : OddsUpdate) (us : List OddsUpdate)
    → IsUpdate u
    → n < h.record_count
    → h.record_count < 2 ^ 64
    → next (reader h n (encode_updates (u ∷ us)))
      ≡ ok (some (u, reader h (n + 1) (encode_updates us)))
unfolding next encode_updates
next_record h n u us fit more small =
    let tail = encode_updates us in
    let got = decode-encode_update u tail fit in
    let left =
      drop-append_of_length odds_update_size (encode_update u) tail (length-encode_update u) in
    let size : ltb (length (encode_update u ++ tail)) odds_update_size ≡ false =
      ground (arith, length-append (encode_update u) tail, length-encode_update u) in
    let on : leb h.record_count n ≡ false = ground arith in
    let step : increment n ≡ n + 1 = omega arith in rw (on, size, got, left, step) refl

-- With the last `length us` records ahead, the calls give them and then the end.
pub read_all-reader :
    (h : SessionHeader) (us : List OddsUpdate) (n : ℕ)
    → All IsUpdate us
    → h.record_count ≡ n + length us
    → h.record_count < 2 ^ 64
    → read_all (suc (length us)) (reader h n (encode_updates us)) ≡ ok us
unfolding read_all
read_all-reader h [] n fits total small =
    rw (read_all, next_end h n (encode_updates []) (omega arith)) refl
read_all-reader h (u ∷ us) n (fit, fits) total small =
    rw
      (
        read_all,
        next_record h n u us fit (omega arith) small,
        read_all-reader h us (n + 1) fits (omega arith) small,
      )
      refl

abbrev pub IsReadable : SessionHeader → Type 0
IsReadable h =
    (h.magic ≡ session_magic) × (h.version ≡ session_version) × (h.record_size ≡ odds_update_size)

pub open_session_lem :
    (h : SessionHeader) (rest : Bytes)
    → IsSession h
    → IsReadable h
    → open_session (encode_session h ++ rest)
      ≡ (if h.record_count == 0 then failed no_records else ok (reader h 0 rest))
unfolding open_session
open_session_lem h rest fits (m, v, z) =
    let size : ltb (length (encode_session h ++ rest)) session_header_size ≡ false =
      ground (arith, length-append (encode_session h) rest, length-encode_session h) in
    let left =
      drop-append_of_length session_header_size (encode_session h) rest (length-encode_session h) in
    rw (size, decode-encode_session h rest fits, left, m, v, z) refl

-- A recording of at least one record, on a disk that takes every write, gives a file; the reader opens
-- it, and its calls give the recorded updates in order and then the end.
pub record_session-Replays :
    (write_ok : Bytes → Bool) (h : SessionHeader) (us : List OddsUpdate)
    → ((bs : Bytes) → write_ok bs ≡ true)
    → IsSession (counted (length us) h)
    → IsReadable h
    → All IsUpdate us
    → 0 < length us
    → length us < 2 ^ 64
    → (file : Bytes) × (record_session write_ok h us ≡ some file)
      × (r : SessionReader) × (open_session file ≡ ok r)
      × (r.header ≡ counted (length us) h)
      × (read_all (suc (length us)) r ≡ ok us)
record_session-Replays write_ok h us writes fits readable updates some_record few =
    let h' = counted (length us) h in
    let counts : (length us == 0) ≡ false = ground arith in
    (
      encode_session h' ++ encode_updates us,
      record_session_lem write_ok writes h us few,
      reader h' 0 (encode_updates us),
      open_session_lem h' (encode_updates us) fits readable
          ∙ ap (λ b. if b then failed no_records else ok (reader h' 0 (encode_updates us))) counts,
      refl,
      read_all-reader h' us 0 updates (omega arith) few,
    )

-- On a disk that takes every write, a recording that was not finished leaves a file that the
-- reader refuses as truncated, whatever was accepted.
pub record_unfinished-refused :
    (write_ok : Bytes → Bool) (h : SessionHeader) (us : List OddsUpdate)
    → ((bs : Bytes) → write_ok bs ≡ true)
    → IsSession (counted 0 h)
    → IsReadable h
    → (file : Bytes) × (record_unfinished write_ok h us ≡ some file)
      × (open_session file ≡ failed no_records)
record_unfinished-refused write_ok h us writes fits readable =
    let (rest, e) = record_unfinished_lem write_ok writes h us in
    (encode_session (counted 0 h) ++ rest, e, open_session_lem (counted 0 h) rest fits readable)
