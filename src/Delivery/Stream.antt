-- ===== src/Delivery/Stream.antt =====
-- sim/UdpSink.hpp and engine/UdpSource.hpp, whole runs: what the engine's loop over `next` sees of a
-- broadcast on a network that loses nothing.
use mathlib.Core.List.{append_assoc}
use odds_engine.Base.{
  ℕ, suc, ◌+◌, ◌*◌, ◌^◌, ◌≤◌, ◌<◌, ◌≡◌, refl, sym, ap, subst, ◌∙◌, List, [], ◌∷◌, ◌++◌, map, arith,
  length, length-append, drop, All, All-append_split,
}
use odds_engine.Base.Bytes.{Bytes}
use odds_engine.Wire.{
  OddsUpdate, UdpDatagramHeader, decode_update, encode_header, type_data, type_announce,
  udp_header_size, odds_update_size,
}
use odds_engine.Wire.RoundTrip.{IsUpdate, IsAnnounce}
use odds_engine.BookTable.{increment}
use odds_engine.UdpSink.{encode_updates, feed_header, announce_record}
use odds_engine.UdpSink.Shape.{
  Datagram, announce, batch, datagram_bytes, Numbered, IsSized, contents,
}
use odds_engine.UdpSource.{UdpSource, Received, receive_one, got, next}
use odds_engine.Delivery.{in_order, read-announce, read-batch, payload-announce, record_at}
use odds_engine.Delivery.Loop.{
  Reads, done, more, receive_one-announce, receive_one-batch, next-drained, next-batch,
  next-buffered, next-idle,
}

module _ (seed markets books : ℕ) where
  -- A receiver of this feed that has read what it was given, and expects number n.
  pub record Clean (n : ℕ) (s : UdpSource) : Type 0 where
    pub expected : s.expected_seq ≡ n
    pub seed_eq : s.header.seed ≡ seed
    pub markets_eq : s.header.markets ≡ markets
    pub books_eq : s.header.books ≡ books
    pub lost_eq : s.lost ≡ 0
    pub reordered_eq : s.reordered ≡ 0
    pub malformed_eq : s.malformed ≡ 0

  unfoldable pub wires : List Datagram → List Bytes
  wires = map (datagram_bytes seed markets books)

  -- What an announce that arrives in order leaves.
  after_announce : ℕ → UdpSource → UdpSource
  after_announce n s =
      let t =
        in_order (datagram_bytes seed markets books (announce n)) (feed_header type_announce 1 n)
          s in
      record t { announces = increment t.announces }

  next-announce :
      (n : ℕ) (ds : List Bytes) (s : UdpSource)
      → Clean n s
      → s.in_buffer ≤ s.cursor
      → n < 2 ^ 64
      → IsAnnounce (announce_record seed markets books)
      → next (datagram_bytes seed markets books (announce n) ∷ ds) s ≡ next ds (after_announce n s)
  unfolding after_announce
  next-announce n ds s c empty small a = next-drained _ _ s _ empty empty (
      receive_one-announce _ ds s _ (announce_record seed markets books)
        (read-announce seed markets books n s c.expected small)
        (payload-announce seed markets books n s a) (sym c.markets_eq) (sym c.books_eq)
        (sym c.seed_eq))

  Clean-after_announce :
      (n : ℕ) (s : UdpSource) → Clean n s → n + 1 < 2 ^ 64 → Clean (n + 1) (after_announce n s)
  unfolding after_announce
  Clean-after_announce n s c small = record {
    expected = omega (arith, c.expected);
    seed_eq = c.seed_eq;
    markets_eq = c.markets_eq;
    books_eq = c.books_eq;
    lost_eq = c.lost_eq;
    reordered_eq = c.reordered_eq;
    malformed_eq = c.malformed_eq;
  }

  -- A receiver that holds `post` of a batch whose first records it has handed out.
  record Holding (n : ℕ) (post : List OddsUpdate) (s : UdpSource) : Type 0 where
    clean : Clean n s
    head : UdpDatagramHeader
    pre : List OddsUpdate
    junk : Bytes
    buf_eq : s.buf ≡ encode_header head ++ (encode_updates (pre ++ post) ++ junk)
    cursor_eq : s.cursor ≡ length pre
    in_buffer_eq : s.in_buffer ≡ length pre + length post

  -- One record further.
  handed : UdpSource → UdpSource
  handed s = record s { cursor = s.cursor + 1; records = increment s.records }

  next-Holding :
      (n : ℕ) (u : OddsUpdate) (post : List OddsUpdate) (ds : List Bytes) (s : UdpSource)
      → Holding n (u ∷ post) s
      → IsUpdate u
      → (next ds s ≡ got u (handed s) ds) × Holding n post (handed s)
  unfolding handed
  next-Holding n u post ds s h f =
      let here : decode_update (drop (udp_header_size + s.cursor * odds_update_size) s.buf) ≡ u =
        rw (h.buf_eq, h.cursor_eq) (record_at h.head h.pre post u h.junk f) in
      (
        next-buffered ds s (omega (arith, h.cursor_eq, h.in_buffer_eq))
            ∙ ap (λ v. got v (handed s) ds) here,
        record {
          clean = record {
            expected = h.clean.expected;
            seed_eq = h.clean.seed_eq;
            markets_eq = h.clean.markets_eq;
            books_eq = h.clean.books_eq;
            lost_eq = h.clean.lost_eq;
            reordered_eq = h.clean.reordered_eq;
            malformed_eq = h.clean.malformed_eq;
          };
          head = h.head;
          pre = h.pre ++ (u ∷ []);
          junk = h.junk;
          buf_eq = rw (append_assoc h.pre (u ∷ []) post) h.buf_eq;
          cursor_eq = omega (arith, length-append h.pre (u ∷ []), h.cursor_eq);
          in_buffer_eq = omega (arith, length-append h.pre (u ∷ []), h.in_buffer_eq);
        },
      )

  -- A batch that arrives in order, before any of it is handed out.
  opened_batch : ℕ → List OddsUpdate → UdpSource → UdpSource
  opened_batch n us s =
      let t =
        in_order (datagram_bytes seed markets books (batch n us))
          (feed_header type_data (length us) n) s in
      record t { in_buffer = length us; cursor = 0 }

  receive_one-opened :
      (n : ℕ) (us : List OddsUpdate) (ds : List Bytes) (s : UdpSource)
      → Clean n s
      → n + 1 < 2 ^ 64
      → IsSized (batch n us)
      → (receive_one (datagram_bytes seed markets books (batch n us) ∷ ds) s
          ≡ Received.batch (opened_batch n us s) ds)
        × Holding (n + 1) us (opened_batch n us s)
  unfolding opened_batch datagram_bytes
  receive_one-opened n us ds s c small (some_records, few) = (
    receive_one-batch _ ds s _
        (read-batch seed markets books n us s c.expected (omega arith) some_records few),
    record {
      clean = record {
        expected = omega (arith, c.expected);
        seed_eq = c.seed_eq;
        markets_eq = c.markets_eq;
        books_eq = c.books_eq;
        lost_eq = c.lost_eq;
        reordered_eq = c.reordered_eq;
        malformed_eq = c.malformed_eq;
      };
      head = feed_header type_data (length us) n;
      pre = [];
      junk = drop (length (datagram_bytes seed markets books (batch n us))) s.buf;
      buf_eq =
          append_assoc (encode_header (feed_header type_data (length us) n)) (encode_updates us) _;
      cursor_eq = refl;
      in_buffer_eq = omega arith;
    },
  )

  -- A loop from the first state on the first datagrams that hands out `us` and ends clean.
  abbrev pub Delivers : ℕ → List Bytes → UdpSource → List OddsUpdate → Type 0
  Delivers n ds s us = (s' : UdpSource) × Reads ds s us s' × Clean n s'

  Reads-cong :
      {us : List OddsUpdate} {s' : UdpSource} (ds es : List Bytes) (s t : UdpSource)
      → next ds s ≡ next es t
      → Reads es t us s'
      → Reads ds s us s'
  Reads-cong ds es s t e (done d) = done (e ∙ d)
  Reads-cong ds es s t e (more d r) = more (e ∙ d) r

  Holding-Delivers :
      (n m : ℕ) (post rest : List OddsUpdate) (ds : List Bytes) (s : UdpSource)
      → Holding n post s
      → All IsUpdate post
      → ((t : UdpSource) → Clean n t → t.in_buffer ≤ t.cursor → Delivers m ds t rest)
      → Delivers m ds s (post ++ rest)
  Holding-Delivers n m [] rest ds s h f k = k s h.clean (omega (arith, h.cursor_eq, h.in_buffer_eq))
  Holding-Delivers n m (u ∷ post) rest ds s h (f, fs) k =
      let (e, h') = next-Holding n u post ds s h f in
      let (s', r, c) = Holding-Delivers n m post rest ds (handed s) h' fs k in (s', more e r, c)

  next-opened :
      (n : ℕ) (us : List OddsUpdate) (ds : List Bytes) (s : UdpSource)
      → s.in_buffer ≤ s.cursor
      → 0 < length us
      → receive_one (datagram_bytes seed markets books (batch n us) ∷ ds) s
        ≡ Received.batch (opened_batch n us s) ds
      → next (datagram_bytes seed markets books (batch n us) ∷ ds) s ≡ next ds (opened_batch n us s)
  unfolding opened_batch
  next-opened n us ds s empty full e =
      next-batch _ ds s _ empty e full ∙ sym (next-buffered ds _ full)

  -- Everything on the wire from number n on is handed out, in order, and nothing else.
  pub stream-Delivers :
      (ds : List Datagram) (n : ℕ) (s : UdpSource)
      → Clean n s
      → s.in_buffer ≤ s.cursor
      → Numbered n ds
      → All IsSized ds
      → All IsUpdate (contents ds)
      → n + length ds < 2 ^ 64
      → IsAnnounce (announce_record seed markets books)
      → Delivers (n + length ds) (wires ds) s (contents ds)
  unfolding wires after_announce
  stream-Delivers [] n s c empty num sized f small a =
      let e : n ≡ n + 0 = omega arith in (s, done (next-idle s empty), subst (λ k. Clean k s) e c)
  stream-Delivers (announce k ∷ ds) n s c empty (e, num) (_, sized) f small a =
      let t = after_announce n s in
      let (s', r, c') =
        stream-Delivers ds (n + 1) t (Clean-after_announce n s c (omega arith)) empty num sized f
          (omega arith) a in
      let count : n + 1 + length ds ≡ n + suc (length ds) = omega arith in
      (
        s',
        Reads-cong _ _ s t (rw e (next-announce n (wires ds) s c empty (omega arith) a)) r,
        subst (λ k. Clean k s') count c',
      )
  stream-Delivers (batch k us ∷ ds) n s c empty (e, num) (size, sized) f small a =
      let (fu, fs) = All-append_split IsUpdate us (contents ds) f in
      let (opens, h) = receive_one-opened n us (wires ds) s c (omega arith) size in
      let (s', r, c') =
        Holding-Delivers (n + 1) (n + 1 + length ds) us (contents ds) (wires ds)
          (opened_batch n us s) h fu
          (λ t ct et. stream-Delivers ds (n + 1) t ct et num sized fs (omega arith) a) in
      let count : n + 1 + length ds ≡ n + suc (length ds) = omega arith in
      (
        s',
        Reads-cong _ _ s (opened_batch n us s)
            (rw e (next-opened n us (wires ds) s empty size.0 opens)) r,
        subst (λ k. Clean k s') count c',
      )
