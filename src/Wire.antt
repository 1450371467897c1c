-- ===== src/Wire.antt =====
-- proto/messages.hpp, proto/udp_framing.hpp and the session header of sim/OutputSink.hpp: the
-- records of the program's formats, and their layouts. Padding is zero, as in the value-initialised
-- structs that the senders copy out.
pub mod RoundTrip
use odds_engine.Base.{ℕ, ◌+◌, ◌*◌, ◌^◌, ◌<◌, List, [], ◌∷◌, get_or, Quad, quad}
use odds_engine.Base.Bytes.{Bytes, Field, encode, decode}

pub record OddsUpdate : Type 0 where
  pub seq_no : ℕ
  pub sim_timestamp_ns : ℕ
  pub book_id : ℕ
  pub market_id : ℕ
  pub outcome_count : ℕ
  pub odds_milli : Quad ℕ

pub record UdpDatagramHeader : Type 0 where
  pub magic : ℕ
  pub version : ℕ
  pub type : ℕ
  pub record_count : ℕ
  pub datagram_seq : ℕ

pub record AnnounceRecord : Type 0 where
  pub seed : ℕ
  pub tick_interval_ns : ℕ
  pub markets : ℕ
  pub books : ℕ
  pub record_size : ℕ

pub record SessionHeader : Type 0 where
  pub magic : ℕ
  pub version : ℕ
  pub record_size : ℕ
  pub seed : ℕ
  pub markets : ℕ
  pub books : ℕ
  pub ticks : ℕ
  pub record_count : ℕ

abbrev pub odds_update_size : ℕ
odds_update_size = 64

abbrev pub udp_header_size : ℕ
udp_header_size = 16

abbrev pub announce_size : ℕ
announce_size = 32

abbrev pub session_header_size : ℕ
session_header_size = 64

abbrev pub max_markets_supported : ℕ
max_markets_supported = 65535

abbrev pub tick_interval_ns : ℕ
tick_interval_ns = 100_000_000

abbrev pub type_data : ℕ
type_data = 0

abbrev pub type_announce : ℕ
type_announce = 1

abbrev pub udp_magic : ℕ
udp_magic = 0x50444F55

abbrev pub udp_version : ℕ
udp_version = 2

abbrev pub records_per_datagram : ℕ
records_per_datagram = 16

abbrev pub max_datagram_bytes : ℕ
max_datagram_bytes = udp_header_size + records_per_datagram * odds_update_size

abbrev pub announce_interval : ℕ
announce_interval = 64

abbrev pub session_magic : ℕ
session_magic = 0x5344444F

abbrev pub session_version : ℕ
session_version = 1

-- The widths of the fields, padding included.
abbrev pub update_widths : List ℕ
update_widths = 8 ∷ 8 ∷ 2 ∷ 2 ∷ 1 ∷ 3 ∷ 4 ∷ 4 ∷ 4 ∷ 4 ∷ 24 ∷ []

abbrev pub update_fields : OddsUpdate → List Field
update_fields u =
    (8, u.seq_no)
    ∷ (8, u.sim_timestamp_ns)
    ∷ (2, u.book_id)
    ∷ (2, u.market_id)
    ∷ (1, u.outcome_count)
    ∷ (3, 0)
    ∷ (4, u.odds_milli.s0)
    ∷ (4, u.odds_milli.s1)
    ∷ (4, u.odds_milli.s2)
    ∷ (4, u.odds_milli.s3)
    ∷ (24, 0)
    ∷ []

abbrev pub update_of : List ℕ → OddsUpdate
update_of vs = record {
  seq_no = get_or vs 0 0;
  sim_timestamp_ns = get_or vs 1 0;
  book_id = get_or vs 2 0;
  market_id = get_or vs 3 0;
  outcome_count = get_or vs 4 0;
  odds_milli = quad (get_or vs 6 0) (get_or vs 7 0) (get_or vs 8 0) (get_or vs 9 0);
}

unfoldable pub encode_update : OddsUpdate → Bytes
encode_update u = encode (update_fields u)

unfoldable pub decode_update : Bytes → OddsUpdate
decode_update bs = update_of (decode update_widths bs)

abbrev pub header_widths : List ℕ
header_widths = 4 ∷ 2 ∷ 1 ∷ 1 ∷ 8 ∷ []

abbrev pub header_fields : UdpDatagramHeader → List Field
header_fields h =
    (4, h.magic) ∷ (2, h.version) ∷ (1, h.type) ∷ (1, h.record_count) ∷ (8, h.datagram_seq) ∷ []

abbrev pub header_of : List ℕ → UdpDatagramHeader
header_of vs = record {
  magic = get_or vs 0 0;
  version = get_or vs 1 0;
  type = get_or vs 2 0;
  record_count = get_or vs 3 0;
  datagram_seq = get_or vs 4 0;
}

unfoldable pub encode_header : UdpDatagramHeader → Bytes
encode_header h = encode (header_fields h)

unfoldable pub decode_header : Bytes → UdpDatagramHeader
decode_header bs = header_of (decode header_widths bs)

abbrev pub announce_widths : List ℕ
announce_widths = 8 ∷ 8 ∷ 4 ∷ 4 ∷ 4 ∷ 4 ∷ []

abbrev pub announce_fields : AnnounceRecord → List Field
announce_fields a =
    (8, a.seed)
    ∷ (8, a.tick_interval_ns)
    ∷ (4, a.markets)
    ∷ (4, a.books)
    ∷ (4, a.record_size)
    ∷ (4, 0)
    ∷ []

abbrev pub announce_of : List ℕ → AnnounceRecord
announce_of vs = record {
  seed = get_or vs 0 0;
  tick_interval_ns = get_or vs 1 0;
  markets = get_or vs 2 0;
  books = get_or vs 3 0;
  record_size = get_or vs 4 0;
}

unfoldable pub encode_announce : AnnounceRecord → Bytes
encode_announce a = encode (announce_fields a)

unfoldable pub decode_announce : Bytes → AnnounceRecord
decode_announce bs = announce_of (decode announce_widths bs)

abbrev pub session_widths : List ℕ
session_widths = 4 ∷ 2 ∷ 2 ∷ 8 ∷ 4 ∷ 4 ∷ 8 ∷ 8 ∷ 24 ∷ []

abbrev pub session_fields : SessionHeader → List Field
session_fields h =
    (4, h.magic)
    ∷ (2, h.version)
    ∷ (2, h.record_size)
    ∷ (8, h.seed)
    ∷ (4, h.markets)
    ∷ (4, h.books)
    ∷ (8, h.ticks)
    ∷ (8, h.record_count)
    ∷ (24, 0)
    ∷ []

abbrev pub session_of : List ℕ → SessionHeader
session_of vs = record {
  magic = get_or vs 0 0;
  version = get_or vs 1 0;
  record_size = get_or vs 2 0;
  seed = get_or vs 3 0;
  markets = get_or vs 4 0;
  books = get_or vs 5 0;
  ticks = get_or vs 6 0;
  record_count = get_or vs 7 0;
}

unfoldable pub encode_session : SessionHeader → Bytes
encode_session h = encode (session_fields h)

unfoldable pub decode_session : Bytes → SessionHeader
decode_session bs = session_of (decode session_widths bs)
