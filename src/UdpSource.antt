-- ===== src/UdpSource.antt =====
-- engine/UdpSource.hpp: the receiver of the live feed. What the socket will deliver is an argument, a
-- list of datagrams; when it is used up, `recv` times out.
pub mod Accounting
use odds_engine.Base.{
  ℕ, zero, suc, ◌+◌, ◌-◌, ◌*◌, ◌%◌, ◌^◌, Bool, true, false, ◌&&◌, ◌||◌, not, List, [], ◌∷◌, ◌++◌,
  ltb, ◌==◌, if◌then◌else◌, length, take, drop, replicate,
}
use odds_engine.Base.Bytes.{Bytes}
use odds_engine.Wire.{
  OddsUpdate, UdpDatagramHeader, AnnounceRecord, SessionHeader, decode_update, decode_header,
  decode_announce, udp_magic, udp_version, type_announce, odds_update_size, udp_header_size,
  announce_size, records_per_datagram, max_datagram_bytes, session_magic, session_version,
}
use odds_engine.BookTable.{increment}

pub record UdpSource : Type 0 where
  pub header : SessionHeader
  pub buf : Bytes
  pub in_buffer : ℕ
  pub cursor : ℕ
  pub last_count : ℕ
  pub expected_seq : ℕ
  pub datagrams : ℕ
  pub records : ℕ
  pub lost : ℕ
  pub reordered : ℕ
  pub malformed : ℕ
  pub pre_announce : ℕ
  pub announces : ℕ

-- The `int` of `read_datagram`: -2, -1, 0 and 1.
pub data Kind : Type 0 where
  timeout unusable data_kind announce_kind : Kind

abbrev pub blank_header : SessionHeader
blank_header = record {
  magic = 0;
  version = 0;
  record_size = 0;
  seed = 0;
  markets = 0;
  books = 0;
  ticks = 0;
  record_count = 0;
}

abbrev pub fresh : UdpSource
fresh = record {
  header = blank_header;
  buf = replicate max_datagram_bytes 0;
  in_buffer = 0;
  cursor = 0;
  last_count = 0;
  expected_seq = 0;
  datagrams = 0;
  records = 0;
  lost = 0;
  reordered = 0;
  malformed = 0;
  pre_announce = 0;
  announces = 0;
}

-- The checks of a datagram of `n` bytes: is it one of the feed's, and of the size that it declares?
unfoldable pub is_well_formed : ℕ → UdpDatagramHeader → Bool
is_well_formed n h =
    let announce = h.type == type_announce in
    not (not (h.magic == udp_magic) || not (h.version == udp_version))
    && not (h.record_count == 0)
    && not (not announce && ltb records_per_datagram h.record_count)
    && n == (
        if announce
        then udp_header_size + announce_size
        else udp_header_size + h.record_count * odds_update_size)

unfoldable pub account : ℕ → UdpSource → UdpSource
account seq s =
    if ltb s.expected_seq seq
    then record s {
      lost = (s.lost + (seq - s.expected_seq)) % 2 ^ 64;
      expected_seq = increment seq;
    }
    else (if ltb seq s.expected_seq
        then record s { reordered = increment s.reordered }
        else record s { expected_seq = increment s.expected_seq })

-- `read_datagram` on the datagram that `recv` cut to the buffer.
unfoldable pub read_bytes : Bytes → UdpSource → Kind × UdpSource
read_bytes d s =
    let s' = record s { buf = d ++ drop (length d) s.buf } in
    let bad = record s' { malformed = increment s.malformed } in
    let h = decode_header s'.buf in
    if ltb (length d) udp_header_size || not (is_well_formed (length d) h)
    then (unusable, bad)
    else (let t = account h.datagram_seq s' in
        (
          (if h.type == type_announce then announce_kind else data_kind),
          record t { datagrams = increment t.datagrams; last_count = h.record_count },
        ))

unfoldable pub read_announce_payload : UdpSource → AnnounceRecord
read_announce_payload s = decode_announce (drop udp_header_size s.buf)

pub data Opened : Type 0 where
  timed_out size_mismatch zero_shape : Opened
  ready : UdpSource → List Bytes → Opened

-- The receiver that has taken its shape from an announce.
abbrev pub adopted : AnnounceRecord → UdpSource → UdpSource
adopted a s = record s {
  header = record {
    magic = session_magic;
    version = session_version;
    record_size = odds_update_size;
    seed = a.seed;
    markets = a.markets;
    books = a.books;
    ticks = 0;
    record_count = 0;
  };
  announces = increment s.announces;
  lost = 0;
  reordered = 0;
  in_buffer = 0;
  cursor = 0;
}

-- What `await_announce` does with the announce that it found.
unfoldable pub adopt : UdpSource → List Bytes → Opened
adopt s ds =
    let a = read_announce_payload s in
    if not (a.record_size == odds_update_size)
    then size_mismatch
    else (if a.markets == 0 || a.books == 0 then zero_shape else ready (adopted a s) ds)

unfoldable pub await_announce : List Bytes → UdpSource → Opened
await_announce [] s = timed_out
await_announce (d ∷ ds) s =
    let (k, s') = read_bytes (take max_datagram_bytes d) s in
    elim k [
      | announce_kind ↦ adopt s' ds
      | data_kind ↦ await_announce ds (record s' { pre_announce = increment s'.pre_announce })
      | unusable ↦ await_announce ds s'
      | timeout ↦ timed_out
    ]

pub data Received : Type 0 where
  idle : UdpSource → Received
  reconfigured : Received
  batch : UdpSource → List Bytes → Received

unfoldable pub receive_one : List Bytes → UdpSource → Received
receive_one [] s = idle s
receive_one (d ∷ ds) s =
    let (k, s') = read_bytes (take max_datagram_bytes d) s in
    let a = read_announce_payload s' in
    let skip = receive_one ds s' in
    let counted = receive_one ds (record s' { announces = increment s'.announces }) in
    elim k [
      | announce_kind ↦
          if not (a.markets == s'.header.markets)
            || not (a.books == s'.header.books)
            || not (a.seed == s'.header.seed)
          then reconfigured
          else counted
      | data_kind ↦ batch (record s' { in_buffer = s'.last_count; cursor = 0 }) ds
      | unusable ↦ skip
      | timeout ↦ idle s'
    ]

-- `out_of_fuel` is no outcome of the code: `Accounting` shows that two rounds are enough.
pub data Next : Type 0 where
  got : OddsUpdate → UdpSource → List Bytes → Next
  ended : UdpSource → Next
  thrown out_of_fuel : Next

unfoldable pub next_loop : ℕ → List Bytes → UdpSource → Next
next_loop zero ds s = out_of_fuel
next_loop (suc f) ds s =
    if ltb s.cursor s.in_buffer
    then got (decode_update (drop (udp_header_size + s.cursor * odds_update_size) s.buf))
        (record s { cursor = s.cursor + 1; records = increment s.records }) ds
    else elim (receive_one ds s) [
      | idle s' ↦ ended s'
      | reconfigured ↦ thrown
      | batch s' ds' ↦ next_loop f ds' s'
    ]

unfoldable pub next : List Bytes → UdpSource → Next
unfolding next_loop
next ds s = next_loop 2 ds s
