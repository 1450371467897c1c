-- ===== src/Listen/Whole.antt =====
-- sim/UdpSink.hpp, tools/udp_listen.cpp and engine/SessionReader.hpp together: what is broadcast and
-- captured is what is replayed.
use mathlib.Core.List.{append_assoc, append-nil}
use odds_engine.Base.{
  ℕ, suc, ◌+◌, ◌*◌, ◌^◌, ◌<◌, ◌≡◌, refl, sym, ap, ◌∙◌, Bool, true, false, not, ◌||◌, none, some,
  List, [], ◌∷◌, ◌++◌, map, ltb, ◌==◌, if◌then◌else◌, length, take, drop, take_all,
  take-append_of_length, drop-append_of_length, length-append, All, All-append_split, arith, subst,
}
use odds_engine.Base.Bytes.{Bytes, le_bytes, encode}
use odds_engine.Wire.{
  OddsUpdate, SessionHeader, AnnounceRecord, session_magic, session_version, encode_update,
  decode_header, decode_announce, encode_header, encode_announce, encode_session, type_data,
  type_announce, udp_header_size, odds_update_size, max_datagram_bytes,
}
use odds_engine.Wire.RoundTrip.{
  IsUpdate, IsAnnounce, decode-encode_update, decode-encode_announce, length-encode_update,
  length-encode_header,
}
use odds_engine.BookTable.{increment}
use odds_engine.Session.{patch, count_offset, ◌>>=◌}
use odds_engine.UdpSink.{encode_updates, feed_header, announce_record}
use odds_engine.UdpSink.Shape.{
  Datagram, announce, batch, datagram_bytes, Numbered, IsSized, contents, broadcast,
  broadcast-Carries,
}
use odds_engine.Session.{SessionReader, ok, failed, no_records, open_session}
use odds_engine.Session.Replay.{reader, read_all, open_session_lem, read_all-reader}
use odds_engine.Session.Recorded.{encode_updates-append}
use odds_engine.UdpSource.{is_well_formed}
use odds_engine.Delivery.{length-announce, length-batch, header-announce, header-batch}
use odds_engine.Listen.{
  datagram, silence, Capture, blank_capture_header, no_capture, note_seq, note_announce,
  save_records, on_datagram, listen, close_capture, capture, greater, seed_offset, markets_offset,
  books_offset,
}

-- The capture with a batch in it.
abbrev saved : List OddsUpdate → Capture → Capture
saved [] c = c
saved (u ∷ us) c = saved us (record c {
  file = c.file ++ encode_update u;
  max_market = greater c.max_market u.market_id;
  max_book = greater c.max_book u.book_id;
  records = increment c.records;
})

-- All but the file, the records and the observed shape are as before.
record Keeps (us : List OddsUpdate) (c t : Capture) : Type 0 where
  file_eq : t.file ≡ c.file ++ encode_updates us
  records_eq : c.records + length us < 2 ^ 64 → t.records ≡ c.records + length us
  datagrams_eq : t.datagrams ≡ c.datagrams
  expected_eq : t.expected_seq ≡ c.expected_seq
  seed_eq : t.ann_seed ≡ c.ann_seed
  markets_eq : t.ann_markets ≡ c.ann_markets
  books_eq : t.ann_books ≡ c.ann_books
  have_eq : t.have_announce ≡ c.have_announce

saved-Keeps : (us : List OddsUpdate) (c : Capture) → Keeps us c (saved us c)
unfolding encode_updates
saved-Keeps [] c = record {
  file_eq = sym (append-nil c.file);
  records_eq = λ h. omega arith;
  datagrams_eq = refl;
  expected_eq = refl;
  seed_eq = refl;
  markets_eq = refl;
  books_eq = refl;
  have_eq = refl;
}
saved-Keeps (u ∷ us) c =
    let next : Capture = record c {
      file = c.file ++ encode_update u;
      max_market = greater c.max_market u.market_id;
      max_book = greater c.max_book u.book_id;
      records = increment c.records;
    } in
    let k = saved-Keeps us next in
    record {
      file_eq = k.file_eq ∙ append_assoc c.file (encode_update u) (encode_updates us);
      records_eq = λ h. k.records_eq (omega arith) ∙ omega arith;
      datagrams_eq = k.datagrams_eq;
      expected_eq = k.expected_eq;
      seed_eq = k.seed_eq;
      markets_eq = k.markets_eq;
      books_eq = k.books_eq;
      have_eq = k.have_eq;
    }

module _ (write_ok : Bytes → Bool) (all_ok : (bs : Bytes) → write_ok bs ≡ true) where
  save_records-saved :
      (us : List OddsUpdate) (c : Capture)
      → All IsUpdate us
      → save_records write_ok (length us) (encode_updates us) c ≡ some (saved us c)
  unfolding save_records encode_updates
  save_records-saved [] c f = refl
  save_records-saved (u ∷ us) c (f, fs) =
      let tail = encode_updates us in
      let got = decode-encode_update u tail f in
      let raw =
        take-append_of_length odds_update_size (encode_update u) tail (length-encode_update u) in
      let left =
        drop-append_of_length odds_update_size (encode_update u) tail (length-encode_update u) in
      rw (got, raw, left, all_ok (encode_update u)) (save_records-saved us _ fs)

-- What was captured of a feed: its records `us`, up to number n.
record Caught (seed markets books n : ℕ) (us : List OddsUpdate) (c : Capture) : Type 0 where
  file_eq : c.file ≡ encode_session blank_capture_header ++ encode_updates us
  records_eq : c.records ≡ length us
  datagrams_eq : c.datagrams ≡ n
  expected_eq : c.expected_seq ≡ n
  seed_eq : c.ann_seed ≡ seed
  markets_eq : c.ann_markets ≡ markets
  books_eq : c.ann_books ≡ books
  have_eq : c.have_announce ≡ true

-- In order, a sequence number moves on by one and nothing else.
note_seq-expected :
    (c : Capture) (n : ℕ)
    → c.expected_seq ≡ n
    → note_seq n c ≡ record c { expected_seq = increment c.expected_seq }
unfolding note_seq
note_seq-expected c n e = ground (arith, e)

module _ (seed markets books : ℕ) (write_ok : Bytes → Bool)
    (all_ok : (bs : Bytes) → write_ok bs ≡ true) where
  on_datagram-announce :
      (n : ℕ) (c : Capture)
      → n < 2 ^ 64
      → let d = datagram_bytes seed markets books (announce n) in
        on_datagram write_ok (take max_datagram_bytes d) c ≡ some (note_announce d (note_seq n c))
  unfolding on_datagram is_well_formed
  on_datagram-announce n c small =
      let d = datagram_bytes seed markets books (announce n) in
      let size = length-announce seed markets books n in
      let head : decode_header d ≡ feed_header type_announce 1 n =
        ap decode_header (sym (append-nil d)) ∙ header-announce seed markets books n [] small in
      rw (take_all max_datagram_bytes d (omega (arith, size)), head, size) refl

  payload_of_announce :
      (n : ℕ)
      → IsAnnounce (announce_record seed markets books)
      → decode_announce (drop udp_header_size (datagram_bytes seed markets books (announce n)))
        ≡ announce_record seed markets books
  unfolding datagram_bytes
  payload_of_announce n a =
      let h = feed_header type_announce 1 n in
      let p = encode_announce (announce_record seed markets books) in
      ap decode_announce (
        drop-append_of_length udp_header_size (encode_header h) p (length-encode_header h)
        ∙ sym (append-nil p))
      ∙ decode-encode_announce (announce_record seed markets books) [] a

  on_datagram-batch :
      (n : ℕ) (us : List OddsUpdate) (c : Capture)
      → n < 2 ^ 64
      → IsSized (batch n us)
      → All IsUpdate us
      → let d = datagram_bytes seed markets books (batch n us) in
        let t = saved us (note_seq n c) in
        on_datagram write_ok (take max_datagram_bytes d) c
        ≡ some (record t { datagrams = increment t.datagrams })
  unfolding on_datagram is_well_formed datagram_bytes
  on_datagram-batch n us c small (some_records, few) f =
      let d = datagram_bytes seed markets books (batch n us) in
      let size = length-batch seed markets books n us in
      let head : decode_header d ≡ feed_header type_data (length us) n =
        ap decode_header (sym (append-nil d)) ∙ header-batch seed markets books n us [] small few in
      let good : (ltb (16 + length us * 64) udp_header_size
            || not (is_well_formed (16 + length us * 64) (feed_header type_data (length us) n)))
          ≡ false =
        ground arith in
      let body : drop udp_header_size d ≡ encode_updates us =
        drop-append_of_length udp_header_size (encode_header (feed_header type_data (length us) n))
          (encode_updates us) (length-encode_header (feed_header type_data (length us) n)) in
      rw (take_all max_datagram_bytes d (omega (arith, size)), head, size, good, body)
        (ap (◌>>= (λ (c' : Capture). some (record c' { datagrams = increment c'.datagrams })))
          (save_records-saved write_ok all_ok us (note_seq n c) f))

  -- One datagram more.
  abbrev Steps : ℕ → List OddsUpdate → Bytes → Capture → Type 0
  Steps n us d c =
      (c' : Capture) × (on_datagram write_ok (take max_datagram_bytes d) c ≡ some c')
      × Caught seed markets books n us c'

  announce-Steps :
      (n : ℕ) (us : List OddsUpdate) (c : Capture)
      → (c.expected_seq ≡ n) × (c.datagrams ≡ n)
      → c.file ≡ encode_session blank_capture_header ++ encode_updates us
      → c.records ≡ length us
      → n + 1 < 2 ^ 64
      → IsAnnounce (announce_record seed markets books)
      → Steps (n + 1) us (datagram_bytes seed markets books (announce n)) c
  unfolding note_announce
  announce-Steps n us c (expected, count) file records small a =
      let d = datagram_bytes seed markets books (announce n) in
      let next : Capture = record c { expected_seq = increment c.expected_seq } in
      let p = payload_of_announce n a in
      (
        note_announce d next,
        on_datagram-announce n c (omega arith)
            ∙ ap (λ t. some (note_announce d t)) (note_seq-expected c n expected),
        record {
          file_eq = file;
          records_eq = records;
          datagrams_eq = omega (arith, count);
          expected_eq = omega (arith, expected);
          seed_eq = ap (λ (r : AnnounceRecord). r.seed) p;
          markets_eq = ap (λ (r : AnnounceRecord). r.markets) p;
          books_eq = ap (λ (r : AnnounceRecord). r.books) p;
          have_eq = refl;
        },
      )

  batch-Steps :
      (n : ℕ) (us vs : List OddsUpdate) (c : Capture)
      → Caught seed markets books n us c
      → IsSized (batch n vs)
      → All IsUpdate vs
      → n + 1 < 2 ^ 64
      → length us + length vs < 2 ^ 64
      → Steps (n + 1) (us ++ vs) (datagram_bytes seed markets books (batch n vs)) c
  batch-Steps n us vs c h size f small few =
      let next : Capture = record c { expected_seq = increment c.expected_seq } in
      let t = saved vs next in
      let k = saved-Keeps vs next in
      (
        record t { datagrams = increment t.datagrams },
        on_datagram-batch n vs c (omega arith) size f
            ∙ ap
                (λ (s : Capture).
                  let t = saved vs s in some (record t { datagrams = increment t.datagrams }))
                (note_seq-expected c n h.expected_eq),
        record {
          file_eq =
              k.file_eq
              ∙ ap (◌++ encode_updates vs) h.file_eq
              ∙ append_assoc (encode_session blank_capture_header) (encode_updates us)
                  (encode_updates vs)
              ∙ ap (encode_session blank_capture_header ++◌) (sym (encode_updates-append us vs));
          records_eq =
              k.records_eq (omega (arith, h.records_eq))
              ∙ omega (arith, h.records_eq, length-append us vs);
          datagrams_eq = omega (arith, k.datagrams_eq, h.datagrams_eq);
          expected_eq = omega (arith, k.expected_eq, h.expected_eq);
          seed_eq = k.seed_eq ∙ h.seed_eq;
          markets_eq = k.markets_eq ∙ h.markets_eq;
          books_eq = k.books_eq ∙ h.books_eq;
          have_eq = k.have_eq ∙ h.have_eq;
        },
      )

  -- The whole wire from number n on is captured.
  listen-Caught :
      (ds : List Datagram) (n : ℕ) (us : List OddsUpdate) (c : Capture)
      → Caught seed markets books n us c
      → 0 < n
      → Numbered n ds
      → All IsSized ds
      → All IsUpdate (contents ds)
      → n + length ds < 2 ^ 64
      → length us + length (contents ds) < 2 ^ 64
      → IsAnnounce (announce_record seed markets books)
      → (c' : Capture) × (listen write_ok
            (map datagram (map (datagram_bytes seed markets books) ds) ++ (silence ∷ []))
            c
          ≡ some c')
        × Caught seed markets books (n + length ds) (us ++ contents ds) c'
  unfolding listen
  listen-Caught [] n us c h pos num sized f small few a =
      let heard : (c.datagrams == 0) ≡ false = ground (arith, h.datagrams_eq) in
      (
        c,
        rw heard refl,
        record {
          file_eq =
              h.file_eq
              ∙ ap (λ vs. encode_session blank_capture_header ++ encode_updates vs)
                  (sym (append-nil us));
          records_eq = h.records_eq ∙ ap length (sym (append-nil us));
          datagrams_eq = omega (arith, h.datagrams_eq);
          expected_eq = omega (arith, h.expected_eq);
          seed_eq = h.seed_eq;
          markets_eq = h.markets_eq;
          books_eq = h.books_eq;
          have_eq = h.have_eq;
        },
      )
  listen-Caught (announce k ∷ ds) n us c h pos (e, num) (_, sized) f small few a =
      let (c', one, h') =
        announce-Steps n us c (h.expected_eq, h.datagrams_eq) h.file_eq h.records_eq (omega arith)
          a in
      let (c'', rest, h'') =
        listen-Caught ds (n + 1) us c' h' (omega arith) num sized f (omega arith) few a in
      let count : n + 1 + length ds ≡ n + suc (length ds) = omega arith in
      (
        c'',
        ap
              (λ k.
                on_datagram write_ok
                  (take max_datagram_bytes (datagram_bytes seed markets books (announce k))) c
                >>= listen write_ok
                    (map datagram (map (datagram_bytes seed markets books) ds) ++ (silence ∷ [])))
              e
            ∙ ap
                (◌>>= listen write_ok
                  (map datagram (map (datagram_bytes seed markets books) ds) ++ (silence ∷ [])))
                one
            ∙ rest,
        subst (λ m. Caught seed markets books m (us ++ contents ds) c'') count h'',
      )
  listen-Caught (batch k vs ∷ ds) n us c h pos (e, num) (size, sized) f small few a =
      let (fv, fs) = All-append_split IsUpdate vs (contents ds) f in
      let total = length-append vs (contents ds) in
      let (c', one, h') = batch-Steps n us vs c h size fv (omega arith) (omega (arith, total)) in
      let (c'', rest, h'') =
        listen-Caught ds (n + 1) (us ++ vs) c' h' (omega arith) num sized fs (omega arith)
          (omega (arith, total, length-append us vs)) a in
      let count : n + 1 + length ds ≡ n + suc (length ds) = omega arith in
      (
        c'',
        ap
              (λ k.
                on_datagram write_ok
                  (take max_datagram_bytes (datagram_bytes seed markets books (batch k vs))) c
                >>= listen write_ok
                    (map datagram (map (datagram_bytes seed markets books) ds) ++ (silence ∷ [])))
              e
            ∙ ap
                (◌>>= listen write_ok
                  (map datagram (map (datagram_bytes seed markets books) ds) ++ (silence ∷ [])))
                one
            ∙ rest,
        subst (λ us'. Caught seed markets books (n + suc (length ds)) us' c'')
            (append_assoc us vs (contents ds))
            (subst (λ m. Caught seed markets books m ((us ++ vs) ++ contents ds) c'') count h''),
      )

-- The header of a capture: the announced shape, and no length in ticks.
abbrev pub captured_header : ℕ → ℕ → ℕ → ℕ → SessionHeader
captured_header seed markets books n = record {
  magic = session_magic;
  version = session_version;
  record_size = odds_update_size;
  seed = seed;
  markets = markets;
  books = books;
  ticks = 0;
  record_count = n;
}

patches-header :
    (seed markets books n : ℕ) (rest : Bytes)
    → patch count_offset (le_bytes 8 n) (
        patch books_offset (le_bytes 4 books) (
          patch markets_offset
            (le_bytes 4 markets)
            (patch seed_offset (le_bytes 8 seed) (encode_session blank_capture_header ++ rest))))
      ≡ encode_session (captured_header seed markets books n) ++ rest
unfolding encode_session encode le_bytes
patches-header seed markets books n rest = refl

close_capture-Caught :
    (seed markets books n : ℕ) (us : List OddsUpdate) (c : Capture)
    → Caught seed markets books n us c
    → close_capture c
      ≡ encode_session (captured_header seed markets books (length us)) ++ encode_updates us
unfolding close_capture
close_capture-Caught seed markets books n us c h =
    rw (h.have_eq, h.seed_eq, h.markets_eq, h.books_eq, h.records_eq, h.file_eq)
      (patches-header seed markets books (length us) (encode_updates us))

module _ (seed markets books : ℕ) where
  -- On a network that loses nothing and a disk that takes every write: the capture of a broadcast, up
  -- to the timeout behind it, is a session file that the reader opens; its header has the
  -- announced seed and shape and no length in ticks, and the reader gives the records that the
  -- sender accepted, in order, and then the end. For 1 to 2^62 - 1 records with fields in range.
  pub capture-broadcast :
      (write_ok : Bytes → Bool) (us : List OddsUpdate)
      → ((bs : Bytes) → write_ok bs ≡ true)
      → 0 < length us
      → length us < 2 ^ 62
      → All IsUpdate us
      → IsAnnounce (announce_record seed markets books)
      → (file : Bytes) × (capture write_ok
            (map datagram (broadcast seed markets books us).wire ++ (silence ∷ []))
          ≡ some file)
        × (r : SessionReader) × (open_session file ≡ ok r)
        × (r.header ≡ captured_header seed markets books (length us))
        × (read_all (suc (length us)) r ≡ ok us)
  unfolding capture listen encode_updates
  capture-broadcast write_ok us writes some_record small f a =
      let (ds, wire, num, sized, carried, few) = broadcast-Carries seed markets books us small in
      let h = captured_header seed markets books (length us) in
      let heard = map datagram (broadcast seed markets books us).wire ++ (silence ∷ []) in
      let after = map datagram (map (datagram_bytes seed markets books) ds) ++ (silence ∷ []) in
      let (c, first, caught) =
        announce-Steps seed markets books write_ok writes 0 [] no_capture (refl, refl)
          (sym (append-nil _)) refl (omega arith) a in
      let (c', rest, caught') =
        listen-Caught seed markets books write_ok writes ds 1 [] c caught (omega arith) num sized
          (rw carried f) (omega arith) (omega (arith, ap length carried)) a in
      let counts : (length us == 0) ≡ false = ground arith in
      (
        close_capture c',
        ap
              (λ b.
                if b
                then (listen write_ok heard no_capture >>= λ c. some (close_capture c))
                else none)
              (writes (encode_session blank_capture_header))
            ∙ ap
                (λ w. listen write_ok (map datagram w ++ (silence ∷ [])) no_capture >>= λ c.
                  some (close_capture c))
                wire
            ∙ ap (λ o. (o >>= listen write_ok after) >>= λ c. some (close_capture c)) first
            ∙ ap (◌>>= (λ c. some (close_capture c))) rest,
        reader h 0 (encode_updates us),
        ap open_session (
              close_capture-Caught seed markets books _ us c'
                (subst (λ vs. Caught seed markets books (1 + length ds) vs c') carried caught'))
            ∙ open_session_lem h (encode_updates us)
                (
                  omega arith,
                  (
                    omega arith,
                    (
                      omega arith,
                      (
                        a.0,
                        (a.1.1.0, (a.1.1.1.0, (omega arith, (omega arith, (omega arith, tt))))),
                      ),
                    ),
                  ),
                )
                (refl, refl, refl)
            ∙ ap (λ b. if b then failed no_records else ok (reader h 0 (encode_updates us))) counts,
        refl,
        read_all-reader h us 0 f (omega arith) (omega arith),
      )
