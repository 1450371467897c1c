-- ===== src/UdpSink/Shape.antt =====
-- sim/UdpSink.hpp on a network that takes every datagram: what goes on the wire.
use mathlib.Core.List.{append_assoc, append-nil, map-append}
use native.Mathlib.Nat.{mod-eq_of_lt}
use odds_engine.Base.{
  ℕ, ◌+◌, ◌*◌, ◌^◌, ◌≤◌, ◌<◌, ◌≡◌, refl, sym, ap, ◌∙◌, inl, inr, Bool, true, List, [], ◌∷◌, ◌++◌,
  map, ◌==◌, ==_iff, leb, arith, length, length-append, nil_of_length, All, All-append, Bool-cases,
}
use odds_engine.Base.Bytes.{Bytes}
use odds_engine.Wire.{
  OddsUpdate, encode_header, encode_announce, type_data, type_announce, records_per_datagram,
  announce_interval,
}
use odds_engine.UdpSink.{
  UdpSink, encode_updates, feed_header, announce_record, send_packet, send_announce, send_data,
  flush, accept, finish, new, accept_all,
}

-- A datagram of the feed, by its sequence number.
pub data Datagram : Type 0 where
  announce : ℕ → Datagram
  batch : ℕ → List OddsUpdate → Datagram

abbrev pub number : Datagram → ℕ
number (announce n) = n
number (batch n us) = n

abbrev pub contents : List Datagram → List OddsUpdate
contents [] = []
contents (announce n ∷ ds) = contents ds
contents (batch n us ∷ ds) = us ++ contents ds

abbrev pub IsSized : Datagram → Type 0
IsSized (announce n) = Unit
IsSized (batch n us) = (0 < length us) × (length us ≤ records_per_datagram)

-- The sequence numbers are n, n + 1, ...
abbrev pub Numbered : ℕ → List Datagram → Type 0
Numbered n [] = Unit
Numbered n (d ∷ ds) = (number d ≡ n) × Numbered (n + 1) ds

module _ (seed markets books : ℕ) where
  unfoldable pub datagram_bytes : Datagram → Bytes
  datagram_bytes (announce n) =
      encode_header (feed_header type_announce 1 n)
      ++ encode_announce (announce_record seed markets books)
  datagram_bytes (batch n us) =
      encode_header (feed_header type_data (length us) n) ++ encode_updates us

pub contents-append : (ds es : List Datagram) → contents (ds ++ es) ≡ contents ds ++ contents es
contents-append [] es = refl
contents-append (announce n ∷ ds) es = contents-append ds es
contents-append (batch n us ∷ ds) es =
    ap (◌++◌ us) (contents-append ds es) ∙ sym (append_assoc us (contents ds) (contents es))

Numbered-append :
    (n : ℕ) (ds : List Datagram) (d : Datagram)
    → Numbered n ds
    → number d ≡ n + length ds
    → Numbered n (ds ++ (d ∷ []))
Numbered-append n [] d h e = (omega arith, tt)
Numbered-append n (c ∷ ds) d (h, hs) e = (h, Numbered-append (n + 1) ds d hs (omega arith))

lossless : ℕ → Bytes → Bool
lossless n p = true

-- The wire holds an announce and `ds`, which carry `sent` but for what the buffer still holds.
-- `slack` is 1 where an announce went out whose batch has not.
pub record Sent (seed markets books slack : ℕ) (sent : List OddsUpdate) (s : UdpSink) : Type 0 where
  pub ds : List Datagram
  pub wire_eq : s.wire ≡ map (datagram_bytes seed markets books) (announce 0 ∷ ds)
  pub numbered : Numbered 1 ds
  pub next_seq : s.datagram_seq ≡ 1 + length ds
  pub sized : All IsSized ds
  pub carried : contents ds ++ s.buffer ≡ sent
  pub room : length s.buffer ≤ records_per_datagram
  pub few : length ds ≤ slack + 2 * length (contents ds)
  pub seed_eq : s.seed ≡ seed
  pub markets_eq : s.markets ≡ markets
  pub books_eq : s.books ≡ books

contents-announce : (ds : List Datagram) (n : ℕ) → contents (ds ++ (announce n ∷ [])) ≡ contents ds
contents-announce ds n = contents-append ds (announce n ∷ []) ∙ append-nil (contents ds)

contents-batch :
    (ds : List Datagram) (n : ℕ) (us : List OddsUpdate)
    → contents (ds ++ (batch n us ∷ [])) ≡ contents ds ++ us
contents-batch ds n us =
    contents-append ds (batch n us ∷ []) ∙ ap (◌++◌ (contents ds)) (append-nil us)

module _ (seed markets books : ℕ) where
  -- The wire after one more datagram.
  wire-append :
      (ds : List Datagram) (d : Datagram) (w : List Bytes)
      → w ≡ map (datagram_bytes seed markets books) (announce 0 ∷ ds)
      → w ++ (datagram_bytes seed markets books d ∷ [])
        ≡ map (datagram_bytes seed markets books) (announce 0 ∷ (ds ++ (d ∷ [])))
  wire-append ds d w e = rw (e, map-append (datagram_bytes seed markets books) ds (d ∷ []))

  contents_le :
      (ds : List Datagram) (s : UdpSink) {sent : List OddsUpdate}
      → contents ds ++ s.buffer ≡ sent
      → length (contents ds) + length s.buffer ≡ length sent
  contents_le ds s e = sym (length-append (contents ds) s.buffer) ∙ ap length e

  send_announce-Sent :
      {sent : List OddsUpdate} (s : UdpSink)
      → Sent seed markets books 0 sent s
      → length sent < 2 ^ 62
      → Sent seed markets books 1 sent (send_announce lossless s)
  unfolding send_announce send_packet lossless datagram_bytes
  send_announce-Sent {sent} s h small = record {
    ds = h.ds ++ (announce (1 + length h.ds) ∷ []);
    wire_eq =
        rw (h.seed_eq, h.markets_eq, h.books_eq, h.next_seq)
          (wire-append h.ds (announce (1 + length h.ds)) s.wire h.wire_eq);
    numbered = Numbered-append 1 h.ds (announce (1 + length h.ds)) h.numbered refl;
    next_seq = omega (
      arith,
      length-append h.ds (announce (1 + length h.ds) ∷ []),
      contents_le h.ds s h.carried,
      h.next_seq,
      h.few,
    );
    sized = All-append IsSized h.ds (announce (1 + length h.ds) ∷ []) h.sized (tt, tt);
    carried = ap (λ c. c ++ s.buffer) (contents-announce h.ds (1 + length h.ds)) ∙ h.carried;
    room = h.room;
    few = omega (
      arith,
      length-append h.ds (announce (1 + length h.ds) ∷ []),
      ap length (contents-announce h.ds (1 + length h.ds)),
      h.few,
    );
    seed_eq = h.seed_eq;
    markets_eq = h.markets_eq;
    books_eq = h.books_eq;
  }

  send_data-Sent :
      {sent : List OddsUpdate} {slack : ℕ} (s : UdpSink)
      → Sent seed markets books slack sent s
      → slack ≤ 1
      → 0 < length s.buffer
      → length sent < 2 ^ 62
      → Sent seed markets books 0 sent (send_data lossless s)
  unfolding send_data send_packet lossless datagram_bytes
  send_data-Sent {sent} s h k full small = record {
    ds = h.ds ++ (batch (1 + length h.ds) s.buffer ∷ []);
    wire_eq =
        rw (h.next_seq, mod-eq_of_lt {n = length s.buffer} {m = 256} (omega (arith, h.room)))
          (wire-append h.ds (batch (1 + length h.ds) s.buffer) s.wire h.wire_eq);
    numbered = Numbered-append 1 h.ds (batch (1 + length h.ds) s.buffer) h.numbered refl;
    next_seq = omega (
      arith,
      length-append h.ds (batch (1 + length h.ds) s.buffer ∷ []),
      contents_le h.ds s h.carried,
      h.next_seq,
      h.few,
    );
    sized =
        All-append IsSized h.ds (batch (1 + length h.ds) s.buffer ∷ []) h.sized
          ((full, h.room), tt);
    carried = append-nil _ ∙ contents-batch h.ds (1 + length h.ds) s.buffer ∙ h.carried;
    room = omega arith;
    few = omega (
      arith,
      length-append h.ds (batch (1 + length h.ds) s.buffer ∷ []),
      ap length (contents-batch h.ds (1 + length h.ds) s.buffer),
      length-append (contents h.ds) s.buffer,
      h.few,
    );
    seed_eq = h.seed_eq;
    markets_eq = h.markets_eq;
    books_eq = h.books_eq;
  }

  buffer-send_data : (s : UdpSink) → length (send_data lossless s).buffer ≡ 0
  unfolding send_data
  buffer-send_data s = refl

  buffer-send_announce : (s : UdpSink) → (send_announce lossless s).buffer ≡ s.buffer
  unfolding send_announce send_packet lossless
  buffer-send_announce s = refl

  flush-Sent :
      {sent : List OddsUpdate} (s : UdpSink)
      → Sent seed markets books 0 sent s
      → length sent < 2 ^ 62
      → Sent seed markets books 0 sent (flush lossless s) × (length (flush lossless s).buffer ≡ 0)
  unfolding flush
  flush-Sent s h small = elim (Bool-cases (length s.buffer == 0)) [
    | inl e ↦ rw e (h, (==_iff _ _).0 e)
    | inr full ↦ elim (Bool-cases (leb announce_interval s.since_announce)) [
      | inl due ↦
          rw (full, due)
            (
              send_data-Sent (send_announce lossless s) (send_announce-Sent s h small) (omega arith)
                  (rw (buffer-send_announce s) (ground arith)) small,
              buffer-send_data (send_announce lossless s),
            )
      | inr not_due ↦
          rw (full, not_due)
            (send_data-Sent s h (omega arith) (ground arith) small, buffer-send_data s)
    ]
  ]

  -- The buffer with one more record.
  push-Sent :
      {sent : List OddsUpdate} (u : OddsUpdate) (s : UdpSink)
      → Sent seed markets books 0 sent s
      → length s.buffer < records_per_datagram
      → Sent seed markets books 0 (sent ++ (u ∷ [])) (record s { buffer = s.buffer ++ (u ∷ []) })
  push-Sent u s h room = record {
    ds = h.ds;
    wire_eq = h.wire_eq;
    numbered = h.numbered;
    next_seq = h.next_seq;
    sized = h.sized;
    carried =
        sym (append_assoc (contents h.ds) s.buffer (u ∷ [])) ∙ ap (λ c. c ++ (u ∷ [])) h.carried;
    room = omega (arith, length-append s.buffer (u ∷ []));
    few = h.few;
    seed_eq = h.seed_eq;
    markets_eq = h.markets_eq;
    books_eq = h.books_eq;
  }

  accept-Sent :
      {sent : List OddsUpdate} (u : OddsUpdate) (s : UdpSink)
      → Sent seed markets books 0 sent s
      → length s.buffer < records_per_datagram
      → length sent + 1 < 2 ^ 62
      → Sent seed markets books 0 (sent ++ (u ∷ [])) (accept lossless u s)
        × (length (accept lossless u s).buffer < records_per_datagram)
  unfolding accept
  accept-Sent {sent} u s h room small =
      let s' : UdpSink = record s { buffer = s.buffer ++ (u ∷ []) } in
      let h' = push-Sent u s h room in
      let (f, e) = flush-Sent s' h' (omega (arith, length-append sent (u ∷ []))) in
      elim (Bool-cases (length s'.buffer == records_per_datagram)) [
        | inl full ↦ rw full (f, omega arith)
        | inr more ↦ rw more (h', ground (arith, h'.room))
      ]

  accept_all-Sent :
      (us sent : List OddsUpdate) (s : UdpSink)
      → Sent seed markets books 0 sent s
      → length s.buffer < records_per_datagram
      → length sent + length us < 2 ^ 62
      → Sent seed markets books 0 (sent ++ us) (accept_all lossless us s)
  unfolding accept_all
  accept_all-Sent [] sent s h room small = rw (append-nil sent) h
  accept_all-Sent (u ∷ us) sent s h room small =
      let (h', room') = accept-Sent u s h room (omega arith) in
      rw (← append_assoc sent (u ∷ []) us) (
        accept_all-Sent us (sent ++ (u ∷ [])) (accept lossless u s) h' room'
          (omega (arith, length-append sent (u ∷ []))))

  new-Sent : Sent seed markets books 0 [] (new lossless seed markets books)
  unfolding new send_announce send_packet lossless datagram_bytes
  new-Sent = record {
    ds = [];
    wire_eq = refl;
    numbered = tt;
    next_seq = refl;
    sized = tt;
    carried = refl;
    room = omega arith;
    few = omega arith;
    seed_eq = refl;
    markets_eq = refl;
    books_eq = refl;
  }

  buffer-new : length (new lossless seed markets books).buffer ≡ 0
  unfolding new send_announce send_packet lossless
  buffer-new = refl

  -- What a whole broadcast leaves on the wire: an announce, then datagrams numbered from 1 of 1 to 16
  -- records each that carry exactly the records accepted, in order.
  abbrev pub Carries : List OddsUpdate → List Bytes → Type 0
  Carries us wire =
      (ds : List Datagram) × (wire ≡ map (datagram_bytes seed markets books) (announce 0 ∷ ds))
      × Numbered 1 ds
      × All IsSized ds
      × (contents ds ≡ us)
      × (length ds ≤ 2 * length us)

  pub broadcast : List OddsUpdate → UdpSink
  broadcast us = finish lossless (accept_all lossless us (new lossless seed markets books))

  -- On a network that takes every datagram, a run that accepts fewer than 2^62 records and finishes
  -- leaves an announce on the wire, then datagrams numbered from 1 of 1 to 16 records each, which carry
  -- exactly these records in order; they are at most twice as many as the records.
  pub broadcast-Carries :
      (us : List OddsUpdate) → length us < 2 ^ 62 → Carries us (broadcast us).wire
  unfolding broadcast finish
  broadcast-Carries us small =
      let all =
        accept_all-Sent us [] (new lossless seed markets books) new-Sent (omega (arith, buffer-new))
          (omega arith) in
      let (h, e) =
        flush-Sent (accept_all lossless us (new lossless seed markets books)) all small in
      let done : contents h.ds ≡ us =
        sym (append-nil (contents h.ds))
        ∙ ap (◌++◌ (contents h.ds)) (sym (nil_of_length _ e))
        ∙ h.carried in
      (h.ds, h.wire_eq, h.numbered, h.sized, done, omega (arith, h.few, ap length done))
