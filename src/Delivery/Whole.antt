-- ===== src/Delivery/Whole.antt =====
-- sim/UdpSink.hpp and engine/UdpSource.hpp, whole runs on a network that loses nothing.
use native.Mathlib.Nat.{zero-add}
use odds_engine.Base.{ℕ, ◌^◌, ◌<◌, ◌≡◌, refl, ◌∙◌, List, ◌∷◌, map, arith, length, take, All}
use odds_engine.Base.Bytes.{Bytes}
use odds_engine.Wire.{
  OddsUpdate, AnnounceRecord, max_datagram_bytes, type_announce, odds_update_size,
}
use odds_engine.Wire.RoundTrip.{IsUpdate, IsAnnounce}
use odds_engine.UdpSink.{feed_header, announce_record}
use odds_engine.UdpSink.Shape.{announce, datagram_bytes, broadcast, broadcast-Carries}
use odds_engine.UdpSource.{
  announce_kind, read_bytes, UdpSource, fresh, ready, await_announce, adopt, read_announce_payload,
}
use odds_engine.Delivery.{in_order, read-announce, payload-announce}
use odds_engine.UdpSource.{fresh, adopted}
use odds_engine.Delivery.Loop.{Reads, records-Reads}
use odds_engine.Delivery.Stream.{Clean, stream-Delivers, wires}

await_announce-adopt :
    (d : Bytes) (ds : List Bytes) (s t : UdpSource) (a : AnnounceRecord)
    → read_bytes (take max_datagram_bytes d) s ≡ (announce_kind, t)
    → read_announce_payload t ≡ a
    → a.record_size ≡ odds_update_size
    → 0 < a.markets
    → 0 < a.books
    → await_announce (d ∷ ds) s ≡ ready (adopted a t) ds
unfolding await_announce adopt
await_announce-adopt d ds s t a e p z m b = ground arith

module _ (seed markets books : ℕ) where
  -- The receiver that the first announce of the feed opens.
  abbrev opened : UdpSource
  opened = adopted (announce_record seed markets books) (
      in_order (datagram_bytes seed markets books (announce 0)) (feed_header type_announce 1 0)
        fresh)

  opened-Clean : Clean seed markets books 1 opened
  opened-Clean = record {
    expected = refl;
    seed_eq = refl;
    markets_eq = refl;
    books_eq = refl;
    lost_eq = refl;
    reordered_eq = refl;
    malformed_eq = refl;
  }

  -- What a receiver makes of the whole wire: it opens on the first announce, the engine's loop gets
  -- `us` and then the end, and the counters say so.
  abbrev pub HearsAll : List OddsUpdate → List Bytes → Type 0
  HearsAll us wire =
      (s s' : UdpSource) × (rest : List Bytes) × (await_announce wire fresh ≡ ready s rest)
      × Reads rest s us s'
      × (s'.records ≡ length us)
      × (s'.lost ≡ 0)
      × (s'.reordered ≡ 0)
      × (s'.malformed ≡ 0)
      × (s'.header.seed ≡ seed)
      × (s'.header.markets ≡ markets)
      × (s'.header.books ≡ books)

  -- On a network that loses nothing, a receiver hears exactly the records that the sender accepted,
  -- in order, and then the end; it reports no loss, no reordering and no malformed datagram, and it has
  -- the sender's seed and shape. For feeds of less than 2^62 records with fields in range, and a shape
  -- that is not zero.
  pub broadcast-HearsAll :
      (us : List OddsUpdate)
      → length us < 2 ^ 62
      → All IsUpdate us
      → IsAnnounce (announce_record seed markets books)
      → 0 < markets
      → 0 < books
      → HearsAll us (broadcast seed markets books us).wire
  unfolding wires
  broadcast-HearsAll us small f a m b =
      let (ds, wire, num, sized, carried, few) = broadcast-Carries seed markets books us small in
      let opens =
        await_announce-adopt _ (map (datagram_bytes seed markets books) ds) fresh _
          (announce_record seed markets books)
          (read-announce seed markets books 0 fresh refl (omega arith))
          (payload-announce seed markets books 0 fresh a) refl m b in
      let (s', r, c) =
        stream-Delivers seed markets books ds 1 opened opened-Clean (omega arith) num sized
          (rw carried f) (omega arith) a in
      let r' : Reads (map (datagram_bytes seed markets books) ds) opened us s' = rw carried at r in
      (
        opened,
        s',
        map (datagram_bytes seed markets books) ds,
        rw wire opens,
        r',
        records-Reads r' (omega arith) ∙ zero-add (length us),
        c.lost_eq,
        c.reordered_eq,
        c.malformed_eq,
        c.seed_eq,
        c.markets_eq,
        c.books_eq,
      )
