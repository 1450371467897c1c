-- ===== src/Delivery.antt =====
-- sim/UdpSink.hpp and engine/UdpSource.hpp joined by a network that loses nothing: what the receiver
-- makes of one datagram that the sender made.
pub mod Loop
pub mod Stream
pub mod Whole
use mathlib.Core.List.{append_assoc}
use odds_engine.Base.{
  ℕ, zero, suc, ◌+◌, ◌-◌, ◌*◌, ◌%◌, ◌^◌, ◌≤◌, ◌<◌, ◌≡◌, refl, sym, ap, ◌∙◌, Bool, true, false, List,
  [], ◌∷◌, ◌++◌, ltb, ◌==◌, if◌then◌else◌, arith, length, length-append, take, drop, take_all,
  drop-add, drop-append_of_length, All,
}
use odds_engine.Base.Bytes.{Bytes, Fits}
use odds_engine.Wire.{
  OddsUpdate, UdpDatagramHeader, AnnounceRecord, decode_update, encode_update, decode_header,
  encode_header, encode_announce, decode_announce, type_data, type_announce, records_per_datagram,
  max_datagram_bytes, udp_header_size, odds_update_size, announce_size,
}
use odds_engine.Wire.RoundTrip.{
  IsUpdate, IsHeader, IsAnnounce, decode-encode_update, decode-encode_header,
  decode-encode_announce, length-encode_update, length-encode_header, length-encode_announce,
}
use odds_engine.BookTable.{increment}
use odds_engine.UdpSink.{encode_updates, feed_header, announce_record}
use odds_engine.UdpSink.Shape.{Datagram, announce, batch, datagram_bytes}
use odds_engine.UdpSource.{
  UdpSource, Kind, data_kind, announce_kind, is_well_formed, account, read_bytes,
  read_announce_payload,
}

-- The receiver after a well-formed datagram with the number that it expects.
abbrev pub in_order : Bytes → UdpDatagramHeader → UdpSource → UdpSource
in_order d h s = record s {
  buf = d ++ drop (length d) s.buf;
  expected_seq = increment s.expected_seq;
  datagrams = increment s.datagrams;
  last_count = h.record_count;
}

read_bytes-in_order :
    (d : Bytes) (h : UdpDatagramHeader) (s : UdpSource)
    → decode_header (d ++ drop (length d) s.buf) ≡ h
    → ltb (length d) udp_header_size ≡ false
    → is_well_formed (length d) h ≡ true
    → h.datagram_seq ≡ s.expected_seq
    → read_bytes d s
      ≡ ((if h.type == type_announce then announce_kind else data_kind), in_order d h s)
unfolding read_bytes account
read_bytes-in_order d h s e long good seq = rw (e, long, good, seq) (ground arith)

pub length-encode_updates :
    (us : List OddsUpdate) → length (encode_updates us) ≡ length us * odds_update_size
unfolding encode_updates
length-encode_updates [] = omega arith
length-encode_updates (u ∷ us) = omega (
  arith,
  length-append (encode_update u) (encode_updates us),
  length-encode_update u,
  length-encode_updates us,
)

module _ (seed markets books : ℕ) where
  pub length-announce : (n : ℕ) → length (datagram_bytes seed markets books (announce n)) ≡ 48
  unfolding datagram_bytes
  length-announce n = omega (
    arith,
    length-append (encode_header (feed_header type_announce 1 n))
        (encode_announce (announce_record seed markets books)),
    length-encode_header (feed_header type_announce 1 n),
    length-encode_announce (announce_record seed markets books),
  )

  pub length-batch :
      (n : ℕ) (us : List OddsUpdate)
      → length (datagram_bytes seed markets books (batch n us)) ≡ 16 + length us * 64
  unfolding datagram_bytes
  length-batch n us = omega (
    arith,
    length-append (encode_header (feed_header type_data (length us) n)) (encode_updates us),
    length-encode_header (feed_header type_data (length us) n),
    length-encode_updates us,
  )

  pub header-announce :
      (n : ℕ) (junk : Bytes)
      → n < 2 ^ 64
      → decode_header (datagram_bytes seed markets books (announce n) ++ junk)
        ≡ feed_header type_announce 1 n
  unfolding datagram_bytes
  header-announce n junk small =
      rw
        (append_assoc (encode_header (feed_header type_announce 1 n))
          (encode_announce (announce_record seed markets books)) junk)
        (decode-encode_header (feed_header type_announce 1 n) _ (omega arith))

  pub header-batch :
      (n : ℕ) (us : List OddsUpdate) (junk : Bytes)
      → n < 2 ^ 64
      → length us ≤ records_per_datagram
      → decode_header (datagram_bytes seed markets books (batch n us) ++ junk)
        ≡ feed_header type_data (length us) n
  unfolding datagram_bytes
  header-batch n us junk small few =
      rw
        (append_assoc (encode_header (feed_header type_data (length us) n)) (encode_updates us)
          junk)
        (decode-encode_header (feed_header type_data (length us) n) _ (omega arith))

  -- An announce in order is read as one.
  pub read-announce :
      (n : ℕ) (s : UdpSource)
      → s.expected_seq ≡ n
      → n < 2 ^ 64
      → let d = datagram_bytes seed markets books (announce n) in
        read_bytes (take max_datagram_bytes d) s
        ≡ (announce_kind, in_order d (feed_header type_announce 1 n) s)
  unfolding is_well_formed
  read-announce n s e small =
      let d = datagram_bytes seed markets books (announce n) in
      rw (take_all max_datagram_bytes d (omega (arith, length-announce n))) (
        read_bytes-in_order d (feed_header type_announce 1 n) s (header-announce n _ small)
          (rw (length-announce n)) (rw (length-announce n)) (sym e))

  -- The shape that an announce declares is the sender's.
  pub payload-announce :
      (n : ℕ) (s : UdpSource)
      → IsAnnounce (announce_record seed markets books)
      → read_announce_payload (
          in_order
            (datagram_bytes seed markets books (announce n))
            (feed_header type_announce 1 n)
            s)
        ≡ announce_record seed markets books
  unfolding read_announce_payload datagram_bytes
  payload-announce n s a =
      let h = feed_header type_announce 1 n in
      let p = encode_announce (announce_record seed markets books) in
      let junk = drop (length (encode_header h ++ p)) s.buf in
      rw
        (
          append_assoc (encode_header h) p junk,
          drop-append_of_length udp_header_size (encode_header h) (p ++ junk)
              (length-encode_header h),
        )
        (decode-encode_announce (announce_record seed markets books) junk a)

  -- A batch in order is read as data.
  pub read-batch :
      (n : ℕ) (us : List OddsUpdate) (s : UdpSource)
      → s.expected_seq ≡ n
      → n < 2 ^ 64
      → 0 < length us
      → length us ≤ records_per_datagram
      → let d = datagram_bytes seed markets books (batch n us) in
        read_bytes (take max_datagram_bytes d) s
        ≡ (data_kind, in_order d (feed_header type_data (length us) n) s)
  unfolding is_well_formed
  read-batch n us s e small some_records few =
      let d = datagram_bytes seed markets books (batch n us) in
      rw (take_all max_datagram_bytes d (omega (arith, length-batch n us))) (
        read_bytes-in_order d (feed_header type_data (length us) n) s
          (header-batch n us _ small few) (rw (length-batch n us) (ground arith))
          (rw (length-batch n us) (ground arith)) (sym e))

drop-encode_updates :
    (pre post : List OddsUpdate) (u : OddsUpdate) (junk : Bytes)
    → drop (length pre * odds_update_size) (encode_updates (pre ++ (u ∷ post)) ++ junk)
      ≡ encode_update u ++ (encode_updates post ++ junk)
unfolding encode_updates
drop-encode_updates [] post u junk = append_assoc (encode_update u) (encode_updates post) junk
drop-encode_updates (v ∷ pre) post u junk =
    let rest = encode_updates (pre ++ (u ∷ post)) in
    let sizes : length (v ∷ pre) * odds_update_size
        ≡ odds_update_size + length pre * odds_update_size =
      omega arith in
    rw
      (
        sizes,
        append_assoc (encode_update v) rest junk,
        drop-add odds_update_size (length pre * odds_update_size)
            (encode_update v ++ (rest ++ junk)),
        drop-append_of_length odds_update_size (encode_update v) (rest ++ junk)
            (length-encode_update v),
      )
      (drop-encode_updates pre post u junk)

-- The k-th record of a batch in the buffer is the k-th that was sent.
pub record_at :
    (h : UdpDatagramHeader) (pre post : List OddsUpdate) (u : OddsUpdate) (junk : Bytes)
    → IsUpdate u
    → decode_update (
        drop
          (udp_header_size + length pre * odds_update_size)
          (encode_header h ++ (encode_updates (pre ++ (u ∷ post)) ++ junk)))
      ≡ u
record_at h pre post u junk f =
    rw
      (
        drop-add udp_header_size (length pre * odds_update_size)
            (encode_header h ++ (encode_updates (pre ++ (u ∷ post)) ++ junk)),
        drop-append_of_length udp_header_size (encode_header h)
            (encode_updates (pre ++ (u ∷ post)) ++ junk) (length-encode_header h),
        drop-encode_updates pre post u junk,
      )
      (decode-encode_update u _ f)
