-- ===== src/Delivery/Loop.antt =====
-- engine/UdpSource.hpp: the steps of the engine's loop over `next`.
use odds_engine.Base.{◌+◌, ◌*◌, ◌^◌, ◌≤◌, ◌<◌, ◌≡◌, subst, List, [], ◌∷◌, arith, length, take, drop}
use odds_engine.Base.Bytes.{Bytes}
use odds_engine.Wire.{
  OddsUpdate, AnnounceRecord, decode_update, max_datagram_bytes, udp_header_size, odds_update_size,
}
use odds_engine.BookTable.{increment}
use odds_engine.UdpSource.{
  announce_kind, data_kind, read_bytes, UdpSource, Received, receive_one, got, ended, next,
  read_announce_payload,
}
use odds_engine.UdpSource.Accounting.{AfterNext, next-AfterNext}

-- The loop `while (src.next(u))` hands out `us` and ends in the second state: one call of `next` for
-- each record and one that ends, so the loop is finite.
pub data Reads : List Bytes → UdpSource → List OddsUpdate → UdpSource → Type 0 where
  done : {ds : List Bytes} {s s' : UdpSource} → next ds s ≡ ended s' → Reads ds s [] s'
  more :
      {ds ds' : List Bytes} {s t s' : UdpSource} {u : OddsUpdate} {us : List OddsUpdate}
      → next ds s ≡ got u t ds'
      → Reads ds' t us s'
      → Reads ds s (u ∷ us) s'

-- `receive_one` passes over an announce of the shape that it knows.
pub receive_one-announce :
    (d : Bytes) (ds : List Bytes) (s t : UdpSource) (a : AnnounceRecord)
    → read_bytes (take max_datagram_bytes d) s ≡ (announce_kind, t)
    → read_announce_payload t ≡ a
    → a.markets ≡ t.header.markets
    → a.books ≡ t.header.books
    → a.seed ≡ t.header.seed
    → receive_one (d ∷ ds) s ≡ receive_one ds (record t { announces = increment t.announces })
unfolding receive_one
receive_one-announce d ds s t a e p m b z = ground arith

pub receive_one-batch :
    (d : Bytes) (ds : List Bytes) (s t : UdpSource)
    → read_bytes (take max_datagram_bytes d) s ≡ (data_kind, t)
    → receive_one (d ∷ ds) s ≡ Received.batch (record t { in_buffer = t.last_count; cursor = 0 }) ds
unfolding receive_one
receive_one-batch d ds s t e = ground arith

-- At the end of what was received, `next` depends on `receive_one` alone.
pub next-drained :
    (ds es : List Bytes) (s t : UdpSource)
    → s.in_buffer ≤ s.cursor
    → t.in_buffer ≤ t.cursor
    → receive_one ds s ≡ receive_one es t
    → next ds s ≡ next es t
unfolding next
next-drained ds es s t hs ht e = rw e (ground arith)

pub next-batch :
    (ds ds' : List Bytes) (s t : UdpSource)
    → s.in_buffer ≤ s.cursor
    → receive_one ds s ≡ Received.batch t ds'
    → t.cursor < t.in_buffer
    → next ds s
      ≡ got
          (decode_update (drop (udp_header_size + t.cursor * odds_update_size) t.buf))
          (record t { cursor = t.cursor + 1; records = increment t.records })
          ds'
unfolding next
next-batch ds ds' s t hs e ht = rw e (ground arith)

pub next-buffered :
    (ds : List Bytes) (s : UdpSource)
    → s.cursor < s.in_buffer
    → next ds s
      ≡ got
          (decode_update (drop (udp_header_size + s.cursor * odds_update_size) s.buf))
          (record s { cursor = s.cursor + 1; records = increment s.records })
          ds
unfolding next
next-buffered ds s h = ground arith

pub next-idle : (s : UdpSource) → s.in_buffer ≤ s.cursor → next [] s ≡ ended s
unfolding next receive_one
next-idle s h = ground arith

-- Each record that the loop hands out is counted, on any feed.
pub records-Reads :
    {ds : List Bytes} {s s' : UdpSource} {us : List OddsUpdate}
    → Reads ds s us s'
    → s.records + length us < 2 ^ 64
    → s'.records ≡ s.records + length us
records-Reads {ds} {s} (done e) h = omega (arith, (subst (AfterNext s) e (next-AfterNext ds s)).1)
records-Reads {ds} {s} (more {us = us} e r) h =
    let (_, counted, _) = subst (AfterNext s) e (next-AfterNext ds s) in
    omega (arith, records-Reads r (omega arith))
