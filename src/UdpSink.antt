-- ===== src/UdpSink.antt =====
-- sim/UdpSink.hpp: batching, announces and sequence numbers of the live feed. The kernel's `send` is
-- the parameter `send_ok`: whether it took the whole datagram of that sequence number. What it took
-- is the wire.
pub mod Shape
use odds_engine.Base.{
  ℕ, ◌+◌, ◌%◌, Bool, true, false, not, Option, none, some, List, [], ◌∷◌, ◌++◌, leb, ◌==◌,
  if◌then◌else◌, length,
}
use odds_engine.Base.Bytes.{Bytes}
use odds_engine.Wire.{
  OddsUpdate, UdpDatagramHeader, AnnounceRecord, encode_update, encode_header, encode_announce,
  udp_magic, udp_version, type_data, type_announce, tick_interval_ns, odds_update_size,
  records_per_datagram, announce_interval,
}
use odds_engine.BookTable.{increment}

-- `buffer` holds buffer_[0 .. fill_).
pub record UdpSink : Type 0 where
  pub seed : ℕ
  pub markets : ℕ
  pub books : ℕ
  pub buffer : List OddsUpdate
  pub datagram_seq : ℕ
  pub since_announce : ℕ
  pub announces : ℕ
  pub send_errors : ℕ
  pub is_open : Bool
  pub wire : List Bytes

unfoldable pub encode_updates : List OddsUpdate → Bytes
encode_updates [] = []
encode_updates (u ∷ us) = encode_update u ++ encode_updates us

abbrev pub feed_header : ℕ → ℕ → ℕ → UdpDatagramHeader
feed_header type count seq = record {
  magic = udp_magic;
  version = udp_version;
  type = type;
  record_count = count;
  datagram_seq = seq;
}

abbrev pub announce_record : ℕ → ℕ → ℕ → AnnounceRecord
announce_record seed markets books = record {
  seed = seed;
  tick_interval_ns = tick_interval_ns;
  markets = markets;
  books = books;
  record_size = odds_update_size;
}

module _ (send_ok : ℕ → Bytes → Bool) where
  unfoldable pub send_packet : Bytes → UdpSink → UdpSink
  send_packet p s =
      if send_ok s.datagram_seq p
      then record s { datagram_seq = increment s.datagram_seq; wire = s.wire ++ (p ∷ []) }
      else record s {
        datagram_seq = increment s.datagram_seq;
        send_errors = increment s.send_errors;
      }

  unfoldable pub send_announce : UdpSink → UdpSink
  send_announce s =
      let h = feed_header type_announce 1 s.datagram_seq in
      let a = announce_record s.seed s.markets s.books in
      let s' = send_packet (encode_header h ++ encode_announce a) s in
      record s' { announces = increment s'.announces; since_announce = 0 }

  -- The rest of `flush`, after the announce that may go first.
  unfoldable pub send_data : UdpSink → UdpSink
  send_data s =
      let h = feed_header type_data (length s.buffer % 256) s.datagram_seq in
      let s' = send_packet (encode_header h ++ encode_updates s.buffer) s in
      record s' { since_announce = increment s'.since_announce; buffer = [] }

  unfoldable pub flush : UdpSink → UdpSink
  flush s =
      if length s.buffer == 0
      then s
      else (if leb announce_interval s.since_announce
          then send_data (send_announce s)
          else send_data s)

  unfoldable pub accept : OddsUpdate → UdpSink → UdpSink
  accept u s =
      let s' = record s { buffer = s.buffer ++ (u ∷ []) } in
      if length s'.buffer == records_per_datagram then flush s' else s'

  unfoldable pub finish : UdpSink → UdpSink
  finish s = let s' = flush s in record s' { is_open = false }

  -- The constructor: an announce before any data.
  unfoldable pub new : ℕ → ℕ → ℕ → UdpSink
  new seed markets books = send_announce (record {
    seed = seed;
    markets = markets;
    books = books;
    buffer = [];
    datagram_seq = 0;
    since_announce = 0;
    announces = 0;
    send_errors = 0;
    is_open = true;
    wire = [];
  })

  unfoldable pub accept_all : List OddsUpdate → UdpSink → UdpSink
  accept_all [] s = s
  accept_all (u ∷ us) s = accept_all us (accept u s)

-- What the kernel says to the constructor: whether it gives a socket, the address that `inet_pton` reads
-- out of the host, and whether the socket can be connected to an address and a port.
pub record Sockets (Address : Type 0) : Type 0 where
  pub socket_ok : Bool
  pub inet_pton : Bytes → Option Address
  pub connect_ok : Address → ℕ → Bool

module _ {Address : Type 0} (kernel : Sockets Address) (send_ok : ℕ → Bytes → Bool) where
  -- The constructor with its system calls; none is an exception.
  unfoldable pub connect : Bytes → ℕ → ℕ → ℕ → ℕ → Option UdpSink
  connect host port seed markets books =
      if not kernel.socket_ok then none else elim (kernel.inet_pton host) [
        | none ↦ none
        | some address ↦
            if not (kernel.connect_ok address port)
            then none
            else some (new send_ok seed markets books)
      ]
