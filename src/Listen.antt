-- ===== src/Listen.antt =====
-- tools/udp_listen.cpp: the capture of a live feed to a session file, with `--out`. What the socket
-- delivers is a list; the capture file is its bytes, and `fwrite` is the parameter `write_ok`.
pub mod Whole
use odds_engine.Base.{
  ℕ, zero, suc, ◌+◌, ◌-◌, ◌%◌, ◌^◌, Bool, true, false, not, ◌||◌, Option, none, some, List, [], ◌∷◌,
  ◌++◌, ltb, ◌==◌, if◌then◌else◌, length, take, drop,
}
use odds_engine.Base.Bytes.{Bytes, le_bytes}
use odds_engine.Wire.{
  UdpDatagramHeader, SessionHeader, decode_update, decode_header, decode_announce, encode_session,
  session_magic, session_version, udp_header_size, odds_update_size, max_datagram_bytes,
  type_announce,
}
use odds_engine.BookTable.{increment}
use odds_engine.Session.{patch, count_offset, ◌>>=◌}
use odds_engine.UdpSource.{is_well_formed}

-- What a call of `recv` gives: a datagram, the timeout, or an error.
pub data Heard : Type 0 where
  datagram : Bytes → Heard
  silence broke : Heard

pub record Capture : Type 0 where
  pub file : Bytes
  pub datagrams : ℕ
  pub records : ℕ
  pub expected_seq : ℕ
  pub gaps : ℕ
  pub reordered : ℕ
  pub malformed : ℕ
  pub announces : ℕ
  pub max_market : ℕ
  pub max_book : ℕ
  pub ann_seed : ℕ
  pub ann_markets : ℕ
  pub ann_books : ℕ
  pub have_announce : Bool

abbrev pub blank_capture_header : SessionHeader
blank_capture_header = record {
  magic = session_magic;
  version = session_version;
  record_size = odds_update_size;
  seed = 0;
  markets = 0;
  books = 0;
  ticks = 0;
  record_count = 0;
}

abbrev pub no_capture : Capture
no_capture = record {
  file = encode_session blank_capture_header;
  datagrams = 0;
  records = 0;
  expected_seq = 0;
  gaps = 0;
  reordered = 0;
  malformed = 0;
  announces = 0;
  max_market = 0;
  max_book = 0;
  ann_seed = 0;
  ann_markets = 0;
  ann_books = 0;
  have_announce = false;
}

abbrev pub seed_offset : ℕ
seed_offset = 8

abbrev pub markets_offset : ℕ
markets_offset = 16

abbrev pub books_offset : ℕ
books_offset = 20

abbrev pub greater : ℕ → ℕ → ℕ
greater old new = if ltb old new then new else old

unfoldable pub note_seq : ℕ → Capture → Capture
note_seq seq c =
    if ltb c.expected_seq seq
    then record c {
      gaps = (c.gaps + (seq - c.expected_seq)) % 2 ^ 64;
      expected_seq = increment seq;
    }
    else if ltb seq c.expected_seq
    then record c { reordered = increment c.reordered }
    else record c { expected_seq = increment c.expected_seq }

unfoldable pub note_announce : Bytes → Capture → Capture
note_announce d c =
    let a = decode_announce (drop udp_header_size d) in
    record c {
      ann_seed = a.seed;
      ann_markets = a.markets;
      ann_books = a.books;
      have_announce = true;
      announces = increment c.announces;
      datagrams = increment c.datagrams;
    }

-- The patches of the header before the file is closed; the program does not look at their results.
unfoldable pub close_capture : Capture → Bytes
close_capture c =
    let markets = if c.have_announce then c.ann_markets else (c.max_market + 1) % 2 ^ 32 in
    let books = if c.have_announce then c.ann_books else (c.max_book + 1) % 2 ^ 32 in
    let seeded =
      if c.have_announce then patch seed_offset (le_bytes 8 c.ann_seed) c.file else c.file in
    patch count_offset (le_bytes 8 c.records)
      (patch books_offset (le_bytes 4 books) (patch markets_offset (le_bytes 4 markets) seeded))

module _ (write_ok : Bytes → Bool) where
  -- The records of a batch, `n` of them from these bytes on; none is a short write.
  unfoldable pub save_records : ℕ → Bytes → Capture → Option Capture
  save_records zero bs c = some c
  save_records (suc n) bs c =
      let u = decode_update bs in
      let raw = take odds_update_size bs in
      let rest = save_records n (drop odds_update_size bs) (record c {
        file = c.file ++ raw;
        max_market = greater c.max_market u.market_id;
        max_book = greater c.max_book u.book_id;
        records = increment c.records;
      }) in
      if write_ok raw then rest else none

  unfoldable pub on_datagram : Bytes → Capture → Option Capture
  on_datagram d c =
      let h = decode_header d in
      if ltb (length d) udp_header_size || not (is_well_formed (length d) h)
      then some (record c { malformed = increment c.malformed })
      else if h.type == type_announce
      then some (note_announce d (note_seq h.datagram_seq c))
      else save_records h.record_count (drop udp_header_size d) (note_seq h.datagram_seq c)
        >>= λ c'. some (record c' { datagrams = increment c'.datagrams })

  -- The loop; it goes on where the list ends.
  unfoldable pub listen : List Heard → Capture → Option Capture
  listen [] c = some c
  listen (broke ∷ hs) c = some c
  listen (silence ∷ hs) c = let rest = listen hs c in if c.datagrams == 0 then rest else some c
  listen (datagram d ∷ hs) c = on_datagram (take max_datagram_bytes d) c >>= listen hs

  -- The capture file of a run; none where it ends early.
  unfoldable pub capture : List Heard → Option Bytes
  capture hs =
      if write_ok (encode_session blank_capture_header)
      then (listen hs no_capture >>= λ c. some (close_capture c))
      else none
