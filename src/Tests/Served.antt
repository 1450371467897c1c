-- ===== src/Tests/Served.antt =====
-- Runs of the dashboard's server.
use odds_engine.Base.{
  ℕ, ◌+◌, ◌%◌, ◌≡◌, refl, false, List, [], ◌∷◌, ◌++◌, ltb, if◌then◌else◌, length, arith,
}
use odds_engine.Base.Bytes.{Bytes}
use odds_engine.BookTable.{increment}
use odds_engine.Engine.Json.{codes, strip, after}
use odds_engine.Dashboard.{encode_text, scan, scan_body, unmask, decode_frames, handle_frame}
use odds_engine.Dashboard.Digest.{sha1, padded, schedule, rounds, chunks, base64}
use odds_engine.Dashboard.Server.{
  Peer, Sent, took, would_block, Server, crlf, header_value, up_to_crlf, accept_response,
  page_response, flush_loop, flush, push, serve_page, handshake, decode_input, take_chunk, take_up,
  on_readable, poll_one, poll_all, reply_to, dispatch, send_each, reap, broadcast, service,
  client_count,
}
use odds_engine.Dashboard.Health.{
  IsSettled, no_clients, Call, serve, tell, run_calls, run_calls-Settled,
}
use odds_engine.Dashboard.Flush.{stream}
use odds_engine.Dashboard.Frames.{client_frame}
use odds_engine.Dashboard.Answer.{listening, hears, service-answers}

-- The example of RFC 6455, 1.3.
rfc_key :
    base64 (sha1 (codes "dGhlIHNhbXBsZSBub25jZQ==" ++ codes "258EAFA5-E914-47DA-95CA-C5AB0DC85B11"))
    ≡ codes "s3pPLMBiTxaQ9kYGzzhZRbK+xOo="
unfolding sha1 padded schedule rounds chunks base64
rfc_key = refl

-- A kernel that takes 100 bytes of a call, and nothing of each third one.
abbrev hundreds : ℕ → ℕ → Bytes → Sent
hundreds fd n bs = if ltb (n % 3) 2 then took 100 else would_block

abbrev no_digits : ℕ → Bytes
no_digits n = codes "3"

abbrev small_page : Bytes
small_page = codes "<p>"

-- A handler that says yes, and counts.
abbrev says_yes : Bytes → ℕ → Bytes × ℕ
says_yes text n = (codes "yes", n + 1)

abbrev request : Bytes
request = codes "GET / HTTP/1.1" ++ crlf ++ codes "Sec-WebSocket-Key: abc" ++ crlf ++ crlf

abbrev hello : Bytes
hello = client_frame (1 ∷ 2 ∷ 3 ∷ 4 ∷ []) (codes "hi")

abbrev session : List Call
session =
    serve (7 ∷ []) (hears request ∷ []) ∷ tell (codes "prices") ∷ serve [] (hears hello ∷ []) ∷ []

abbrev after_session : Server × ℕ
after_session = run_calls hundreds 4096 no_digits small_page says_yes session no_clients 0

-- The client of the session is there, open, and its command was counted.
session_runs :
    (client_count after_session.0.clients ≡ 1)
    × (after_session.0.tally.commands ≡ 1)
    × (after_session.1 ≡ 1)
unfolding service broadcast poll_all poll_one on_readable take_chunk handshake serve_page
    decode_input dispatch reply_to send_each push flush flush_loop take_up reap client_count
    header_value up_to_crlf strip after accept_response sha1 padded schedule rounds chunks base64
    encode_text decode_frames scan scan_body unmask handle_frame
session_runs = (refl, refl, refl)

page_fits : length (page_response no_digits small_page) ≡ 100
unfolding page_response
page_fits = refl

run_calls-Settled_example : IsSettled 4096 after_session.0
run_calls-Settled_example =
    run_calls-Settled hundreds 4096 no_digits small_page says_yes session 0
      (omega (arith, page_fits)) (omega arith)

abbrev waiting : Server
waiting = record {
  clients = listening 7 false [] (codes "old") 0 [] ∷ [];
  tally = record { pending = []; dropped = 0; pages = 0; commands = 5 };
}

reply_size : length (encode_text (codes "yes")) ≡ 5
unfolding encode_text
reply_size = refl

service-answers_example :
    let r = service hundreds 4096 no_digits small_page says_yes [] (hears hello ∷ []) waiting 0 in
    (q : Peer) × (r.0.clients ≡ reap (q ∷ []))
    × (stream q ≡ codes "old" ++ encode_text (codes "yes"))
    × (r.0.tally.commands ≡ increment 5)
    × (r.1 ≡ 1)
service-answers_example =
    service-answers hundreds 4096 no_digits small_page 7 false (codes "old") 0 [] says_yes
      (1 ∷ 2 ∷ 3 ∷ 4 ∷ []) (codes "hi") [] 0 0 5 0 refl (omega arith)
      (omega arith, (omega arith, (omega arith, (omega arith, tt))))
      (omega arith, (omega arith, tt)) (omega arith) (omega (arith, reply_size))
