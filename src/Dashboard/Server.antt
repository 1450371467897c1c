-- ===== src/Dashboard/Server.antt =====
-- engine/WsServer.hpp, `Server`: the clients, their handshakes, and the passes of `service` and
-- `broadcast`. The kernel is a parameter: what `accept`, `poll` and `recv` give in a pass are
-- arguments of it, and `send` is a function of the socket, the number of the call and the bytes. The
-- page and `std::to_string` are parameters too.
use odds_engine.Base.{
  ℕ, zero, suc, ◌+◌, ◌-◌, ◌*◌, Bool, true, false, not, ◌&&◌, ◌||◌, Option, none, some, List, [],
  ◌∷◌, ◌++◌, map, ltb, leb, ◌==◌, if◌then◌else◌, length, take, drop,
}
use odds_engine.Base.Bytes.{Bytes}
use odds_engine.BookTable.{increment}
use odds_engine.Engine.Json.{codes, strip, after}
use odds_engine.Dashboard.{encode_text, max_frame_payload, decode_frames}
use odds_engine.Dashboard.Digest.{sha1, base64}

-- `Client`. `sends` counts the calls of `send` on the socket, and `sent` is what these took.
pub record Peer : Type 0 where
  pub fd : ℕ
  pub is_open : Bool
  pub dead : Bool
  pub serve_only : Bool
  pub input : Bytes
  pub out : Bytes
  pub sends : ℕ
  pub sent : Bytes

abbrev pub newcomer : ℕ → Peer
newcomer fd = record {
  fd = fd;
  is_open = false;
  dead = false;
  serve_only = false;
  input = [];
  out = [];
  sends = 0;
  sent = [];
}

-- What a call of `send` does: it takes bytes, the kernel's buffer is full, or the peer is gone.
pub data Sent : Type 0 where
  took : ℕ → Sent
  would_block broken : Sent

pub data Recv : Type 0 where
  chunk : Bytes → Recv
  drained hung_up : Recv

-- What `poll` says of a client, and what `recv` will give; `recv` has nothing more at the end.
pub record Ready : Type 0 where
  pub failed : Bool
  pub readable : Bool
  pub writable : Bool
  pub reads : List Recv

-- The members that the clients share.
pub record Tally : Type 0 where
  pub pending : List (ℕ × Bytes)
  pub dropped : ℕ
  pub pages : ℕ
  pub commands : ℕ

pub record Server : Type 0 where
  pub clients : List Peer
  pub tally : Tally

abbrev pub crlf : Bytes
crlf = 13 ∷ 10 ∷ []

abbrev to_lower : ℕ → ℕ
to_lower c = if leb 65 c && leb c 90 then c + 32 else c

abbrev skip_blank : Bytes → Bytes
skip_blank [] = []
skip_blank (c ∷ s) = let rest = skip_blank s in if c == 32 || c == 9 then rest else c ∷ s

-- The text before the first line end; none where there is no line end.
unfoldable pub up_to_crlf : Bytes → Option Bytes
up_to_crlf [] = none
up_to_crlf (c ∷ s) =
    let rest = up_to_crlf s in
    elim (strip crlf (c ∷ s)) [
      | some _ ↦ some []
      | none ↦ elim rest [ none ↦ none | some t ↦ some (c ∷ t) ]
    ]

-- Empty where the header is not there. A name has no colon, so the colon behind it is the first one.
unfoldable pub header_value : Bytes → Bytes → Bytes
header_value req name = elim (after (name ++ codes ":") (map to_lower req)) [
  | none ↦ []
  | some rest ↦ elim (up_to_crlf (skip_blank (drop (length req - length rest) req))) [
    | none ↦ []
    | some value ↦ value
  ]
]

abbrev pub max_request : ℕ
max_request = 16384

unfoldable pub accept_response : Bytes → Bytes
accept_response key =
    codes "HTTP/1.1 101 Switching Protocols"
    ++ (crlf
        ++ (codes "Upgrade: websocket"
            ++ (crlf
                ++ (codes "Connection: Upgrade"
                    ++ (crlf
                        ++ (codes "Sec-WebSocket-Accept: "
                            ++ (base64 (sha1 (key ++ codes "258EAFA5-E914-47DA-95CA-C5AB0DC85B11"))
                                ++ (crlf ++ crlf))))))))

unfoldable pub page_response : (ℕ → Bytes) → Bytes → Bytes
page_response to_string page =
    codes "HTTP/1.1 200 OK"
    ++ (crlf
        ++ (codes "Content-Type: text/html; charset=utf-8"
            ++ (crlf
                ++ (codes "Content-Length: "
                    ++ (to_string (length page)
                        ++ (crlf ++ (codes "Connection: close" ++ (crlf ++ (crlf ++ page)))))))))

-- What a call of `send` leaves, and whether the loop of `flush` goes on.
unfoldable pub take_up : Sent → Peer → Bool × Peer
take_up would_block p = (false, p)
take_up broken p = (false, record p { dead = true })
take_up (took zero) p = (false, record p { dead = true })
take_up (took (suc n)) p =
    (true, record p { out = drop (suc n) p.out; sent = p.sent ++ take (suc n) p.out })

module _ (send : ℕ → ℕ → Bytes → Sent) where
  -- The loop of `flush`. Each round but the last takes a byte at least, so one round more than there
  -- are bytes is enough.
  unfoldable pub flush_loop : ℕ → Peer → Peer
  flush_loop zero p = p
  flush_loop (suc fuel) p =
      let (on, q) = take_up (send p.fd p.sends p.out) (record p { sends = suc p.sends }) in
      let rest = flush_loop fuel q in
      if length p.out == 0
      then (if p.serve_only then record p { dead = true } else p)
      else if on
      then rest
      else q

  unfoldable pub flush : Peer → Peer
  flush p = flush_loop (suc (length p.out)) p

  module _ (max_backlog : ℕ) where
    -- A frame for a client: whole, or not at all where it would overflow the backlog.
    unfoldable pub push : Bytes → Peer → Bool × Peer
    push f p =
        if ltb max_backlog (length p.out + length f)
        then (false, p)
        else (true, flush (record p { out = p.out ++ f }))

    module _ (to_string : ℕ → Bytes) (page : Bytes) where
      unfoldable pub serve_page : Peer → Tally → Peer × Tally
      serve_page p t = (
        flush (record p { out = page_response to_string page; input = []; serve_only = true }),
        record t { pages = increment t.pages },
      )

      unfoldable pub handshake : Peer → Tally → Peer × Tally
      handshake p t =
          let key = header_value p.input (codes "sec-websocket-key") in
          if length key == 0
          then serve_page p t
          else (flush (record p { out = accept_response key; input = []; is_open = true }), t)

      -- `decode_frames`, with the server's queue and counter.
      unfoldable pub decode_input : Peer → Tally → Peer × Tally
      decode_input p t =
          let c = decode_frames max_backlog (suc (length p.input)) (record {
            input = p.input;
            out = p.out;
            dead = p.dead;
            pending = [];
            commands = t.commands;
          }) in
          (
            record p { input = c.input; out = c.out; dead = c.dead },
            record t {
              pending = t.pending ++ map (λ text. (p.fd, text)) c.pending;
              commands = c.commands;
            },
          )

      -- What is read goes to the request, or to the frames; the flag is whether to read on.
      unfoldable pub take_chunk : Bytes → Peer → Tally → Bool × Peer × Tally
      take_chunk bs p0 t =
          let p = record p0 { input = p0.input ++ bs } in
          if not p.is_open
          then (if ltb max_request (length p.input)
              then (false, record p { dead = true }, t)
              else elim (after (crlf ++ crlf) p.input) [
                | some _ ↦ (let (q, t') = handshake p t in (false, q, t'))
                | none ↦ (true, p, t)
              ])
          else if ltb (max_frame_payload * 2) (length p.input)
          then (false, record p { dead = true }, t)
          else (let (q, t') = decode_input p t in (not q.dead, q, t'))

      unfoldable pub on_readable : List Recv → Peer → Tally → Peer × Tally
      on_readable [] p t = (p, t)
      on_readable (drained ∷ rs) p t = (p, t)
      on_readable (hung_up ∷ rs) p t = (record p { dead = true }, t)
      on_readable (chunk bs ∷ rs) p t =
          let (on, q, t') = take_chunk bs p t in
          let rest = on_readable rs q t' in if on then rest else (q, t')

      unfoldable pub poll_one : Ready → Peer → Tally → Peer × Tally
      poll_one r p t =
          let (q, t') = if r.readable then on_readable r.reads p t else (p, t) in
          if r.failed
          then (record p { dead = true }, t)
          else ((if r.writable then flush q else q), t')

      -- The clients in their order; past the end of the list a client is not ready.
      unfoldable pub poll_all : List Ready → List Peer → Tally → List Peer × Tally
      poll_all rs [] t = ([], t)
      poll_all [] ps t = (ps, t)
      poll_all (r ∷ rs) (p ∷ ps) t =
          let (q, t') = poll_one r p t in let (qs, t'') = poll_all rs ps t' in (q ∷ qs, t'')

    -- The reply to the first client that is open and has the socket.
    unfoldable pub reply_to : ℕ → Bytes → List Peer → ℕ → List Peer × ℕ
    reply_to fd f [] dropped = ([], dropped)
    reply_to fd f (p ∷ ps) dropped =
        let (qs, n) = reply_to fd f ps dropped in
        let (fits, q) = push f p in
        if not (p.fd == fd) || p.dead || not p.is_open
        then (p ∷ qs, n)
        else (q ∷ ps, (if fits then dropped else increment dropped))

    module _ {S : Type 0} (handler : Bytes → S → Bytes × S) where
      -- The handler's state is the engine's; an empty reply is not sent.
      unfoldable pub dispatch : List (ℕ × Bytes) → List Peer → ℕ → S → List Peer × ℕ × S
      dispatch [] ps dropped s = (ps, dropped, s)
      dispatch ((fd, text) ∷ rest) ps dropped s =
          let (reply, s') = handler text s in
          let (qs, n) =
            if length reply == 0
            then (ps, dropped)
            else reply_to fd (encode_text reply) ps dropped in
          dispatch rest qs n s'

    -- `broadcast` to each client that is open.
    unfoldable pub send_each : Bytes → List Peer → ℕ → List Peer × ℕ
    send_each f [] dropped = ([], dropped)
    send_each f (p ∷ ps) dropped =
        let (fits, q) = push f p in
        let skip = p.dead || not p.is_open in
        let (qs, n) = send_each f ps (if skip || fits then dropped else increment dropped) in
        ((if skip then p else q) ∷ qs, n)

unfoldable pub reap : List Peer → List Peer
reap [] = []
reap (p ∷ ps) = let rest = reap ps in if p.dead then rest else p ∷ rest

unfoldable pub client_count : List Peer → ℕ
client_count [] = 0
client_count (p ∷ ps) = let n = client_count ps in if p.is_open && not p.dead then n + 1 else n

module _ (send : ℕ → ℕ → Bytes → Sent) (max_backlog : ℕ) where
  unfoldable pub broadcast : Bytes → Server → Server
  broadcast text s =
      let t = s.tally in
      let (ps, n) = send_each send max_backlog (encode_text text) s.clients t.dropped in
      if length s.clients == 0
      then s
      else record { clients = reap ps; tally = record t { dropped = n } }

  -- A pass of `service`: the sockets that `accept` gave, what `poll` says, and the handler.
  unfoldable pub service :
      (ℕ → Bytes)
      → Bytes
      → {S : Type 0} → (Bytes → S → Bytes × S)
      → List ℕ
      → List Ready
      → Server
      → S
      → Server × S
  service to_string page handler fds ready s e =
      let clients = s.clients ++ map newcomer fds in
      let (ps, t) = poll_all send max_backlog to_string page ready clients s.tally in
      let (qs, n, e') = dispatch send max_backlog handler t.pending ps t.dropped e in
      if length clients == 0
      then (s, e)
      else (record { clients = reap qs; tally = record t { pending = []; dropped = n } }, e')
