-- ===== src/Tests/Captured.antt =====
-- Runs of the capture of a feed.
use odds_engine.Base.{◌==◌, ℕ, ◌≡◌, ◌↔◌, refl, Bool, true, some, [], ◌∷◌, ◌++◌, map, All, arith}
use odds_engine.Base.Bytes.{Bytes}
use odds_engine.Wire.{announce_fields, update_fields, encode_session}
use odds_engine.Wire.RoundTrip.{IsUpdate}
use odds_engine.Session.{SessionReader, ok, open_session}
use odds_engine.Session.Replay.{read_all}
use odds_engine.UdpSink.{Sockets, announce_record, encode_updates}
use odds_engine.Engine.Json.{codes}
use odds_engine.UdpSink.Shape.{broadcast}
use odds_engine.Listen.{datagram, silence, capture}
use odds_engine.Listen.Whole.{captured_header, capture-broadcast}
use odds_engine.Session.Recorded.{counted, record_session, record_session_lem}
use odds_engine.Sim.Fanout.{run_sinks, run_feed, IsFeedOf, run_sinks_iff}
use odds_engine.Tests.{header, update, three_updates, fit-Fits}

abbrev any_write : Bytes → Bool
any_write bs = true

three_fit : All IsUpdate three_updates
three_fit = (
  fit-Fits (update_fields (update 5 100000000 1 0)) refl,
  (
    fit-Fits (update_fields (update 6 100000000 1 1)) refl,
    (fit-Fits (update_fields (update 6 200000000 1 0)) refl, tt),
  ),
)

capture-broadcast_example :
    (file : Bytes) × (capture any_write
        (map datagram (broadcast 42 2 2 three_updates).wire ++ (silence ∷ []))
      ≡ some file)
    × (r : SessionReader) × (open_session file ≡ ok r)
    × (r.header ≡ captured_header 42 2 2 3)
    × (read_all 4 r ≡ ok three_updates)
capture-broadcast_example =
    capture-broadcast 42 2 2 any_write three_updates (λ bs. refl) (omega arith) (omega arith)
      three_fit (fit-Fits (announce_fields (announce_record 42 2 2)) refl)

abbrev lossy : ℕ → Bytes → Bool
lossy n bs = n == 1

-- The kernel gives a socket that connects to anything, and reads every host as one address.
abbrev open_kernel : Sockets ℕ
open_kernel = record {
  socket_ok = true;
  inet_pton = λ host. some 2130706433;
  connect_ok = λ address port. true;
}

abbrev target : Bytes
target = codes "127.0.0.1:9000"

abbrev port_number : Bytes → ℕ
port_number text = 9000

abbrev recorded_bytes : Bytes
recorded_bytes = encode_session (counted 3 header) ++ encode_updates three_updates

recording : record_session any_write header three_updates ≡ some recorded_bytes
recording = record_session_lem any_write (λ bs. refl) header three_updates (omega arith)

-- A disk that takes every write, and a network that takes one datagram.
run_sinks_iff_example :
    (run_sinks any_write open_kernel lossy port_number target header three_updates
      ≡ some (recorded_bytes, some (run_feed any_write lossy header three_updates)))
    ↔ ((record_session any_write header three_updates ≡ some recorded_bytes)
        × IsFeedOf any_write open_kernel lossy port_number target header three_updates
            (some (run_feed any_write lossy header three_updates)))
run_sinks_iff_example =
    run_sinks_iff any_write open_kernel lossy port_number target header three_updates recorded_bytes
      (some (run_feed any_write lossy header three_updates))
