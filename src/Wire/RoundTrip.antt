-- ===== src/Wire/RoundTrip.antt =====
-- The wire and file records of proto/messages.hpp, proto/udp_framing.hpp and sim/OutputSink.hpp:
-- sizes, and that a copy out of a buffer gives back what was copied in.
use odds_engine.Base.{◌≡◌, ap, ◌++◌, length, All}
use odds_engine.Base.Bytes.{Bytes, Fits, decode-encode, length-encode}
use odds_engine.Wire.{
  OddsUpdate, UdpDatagramHeader, AnnounceRecord, SessionHeader, update_fields, update_of,
  encode_update, decode_update, header_fields, header_of, encode_header, decode_header,
  announce_fields, announce_of, encode_announce, decode_announce, session_fields, session_of,
  encode_session, decode_session, odds_update_size, udp_header_size, announce_size,
  session_header_size,
}

-- Every field is in the range of its C++ type.
abbrev pub IsUpdate : OddsUpdate → Type 0
IsUpdate u = All Fits (update_fields u)

abbrev pub IsHeader : UdpDatagramHeader → Type 0
IsHeader h = All Fits (header_fields h)

abbrev pub IsAnnounce : AnnounceRecord → Type 0
IsAnnounce a = All Fits (announce_fields a)

abbrev pub IsSession : SessionHeader → Type 0
IsSession h = All Fits (session_fields h)

pub decode-encode_update :
    (u : OddsUpdate) (rest : Bytes) → IsUpdate u → decode_update (encode_update u ++ rest) ≡ u
unfolding encode_update decode_update
decode-encode_update u rest h = ap update_of (decode-encode (update_fields u) rest h)

pub decode-encode_header :
    (h : UdpDatagramHeader) (rest : Bytes)
    → IsHeader h
    → decode_header (encode_header h ++ rest) ≡ h
unfolding encode_header decode_header
decode-encode_header h rest f = ap header_of (decode-encode (header_fields h) rest f)

pub decode-encode_announce :
    (a : AnnounceRecord) (rest : Bytes)
    → IsAnnounce a
    → decode_announce (encode_announce a ++ rest) ≡ a
unfolding encode_announce decode_announce
decode-encode_announce a rest f = ap announce_of (decode-encode (announce_fields a) rest f)

pub decode-encode_session :
    (h : SessionHeader) (rest : Bytes) → IsSession h → decode_session (encode_session h ++ rest) ≡ h
unfolding encode_session decode_session
decode-encode_session h rest f = ap session_of (decode-encode (session_fields h) rest f)

pub length-encode_update : (u : OddsUpdate) → length (encode_update u) ≡ odds_update_size
unfolding encode_update
length-encode_update u = length-encode (update_fields u)

pub length-encode_header : (h : UdpDatagramHeader) → length (encode_header h) ≡ udp_header_size
unfolding encode_header
length-encode_header h = length-encode (header_fields h)

pub length-encode_announce : (a : AnnounceRecord) → length (encode_announce a) ≡ announce_size
unfolding encode_announce
length-encode_announce a = length-encode (announce_fields a)

pub length-encode_session : (h : SessionHeader) → length (encode_session h) ≡ session_header_size
unfolding encode_session
length-encode_session h = length-encode (session_fields h)
