-- ===== src/Dashboard/Answer.antt =====
-- engine/WsServer.hpp: a command is answered within the pass that reads it.
use mathlib.Core.List.{append-nil, append_assoc}
use odds_engine.Base.{
  ℕ, suc, ◌+◌, ◌*◌, ◌≤◌, ◌<◌, ◌≡◌, refl, sym, ap, ◌∙◌, Bool, true, false, not, List, [], ◌∷◌, ◌++◌,
  map, ltb, ◌==◌, if◌then◌else◌, length, arith, length-append,
}
use odds_engine.Base.Bytes.{Bytes}
use odds_engine.BookTable.{increment}
use odds_engine.Dashboard.{
  Client, Scan, partial, violation, frame, scan, unmask, handle_frame, decode_frames,
  max_frame_payload, encode_text,
}
use odds_engine.Dashboard.Frames.{AreBytes, client_frame, scan-client_frame, length-unmask}
use odds_engine.Dashboard.Server.{
  Peer, Sent, chunk, Ready, Tally, Server, flush, push, decode_input, take_chunk, on_readable,
  poll_one, poll_all, reply_to, dispatch, reap, service,
}
use odds_engine.Dashboard.Flush.{stream, flush-Flushed}

-- The buffers of a client that lives, with `bs` to decode_input.
abbrev buffers : Bytes → Bytes → List Bytes → ℕ → Client
buffers bs out pending commands = record {
  input = bs;
  out = out;
  dead = false;
  pending = pending;
  commands = commands;
}

decode_frames-client_frame :
    (max_backlog fuel : ℕ) (mask text out : Bytes) (commands : ℕ)
    → length mask ≡ 4
    → length text < 126
    → AreBytes mask
    → AreBytes text
    → decode_frames max_backlog (suc (suc fuel)) (buffers (client_frame mask text) out [] commands)
      ≡ buffers [] out (text ∷ []) (increment commands)
unfolding decode_frames handle_frame scan
decode_frames-client_frame max_backlog fuel mask text out commands four short hm ht =
    ap
      (λ (found : Scan). elim found as (λ _. Client) [
        | partial ↦ buffers (client_frame mask text) out [] commands
        | violation ↦ record (buffers (client_frame mask text) out [] commands) { dead = true }
        | frame opcode payload rest ↦
            let c' = handle_frame max_backlog opcode payload (buffers rest out [] commands) in
            let more = decode_frames max_backlog (suc fuel) c' in if c'.dead then c' else more
      ])
      (ap scan (sym (append-nil (client_frame mask text)))
        ∙ scan-client_frame mask text [] four short hm ht)

abbrev settled : List Peer → Tally → Server
settled ps t = record { clients = ps; tally = t }

-- A client that lives and has shaken hands.
abbrev pub listening : ℕ → Bool → Bytes → Bytes → ℕ → Bytes → Peer
listening fd serve_only input out sends sent = record {
  fd = fd;
  is_open = true;
  dead = false;
  serve_only = serve_only;
  input = input;
  out = out;
  sends = sends;
  sent = sent;
}

abbrev pub hears : Bytes → Ready
hears bs = record { failed = false; readable = true; writable = false; reads = chunk bs ∷ [] }

length-client_frame :
    (mask text : Bytes) → length mask ≡ 4 → length (client_frame mask text) ≡ 6 + length text
length-client_frame mask text four =
    omega (arith, length-append mask (unmask mask 0 text), length-unmask mask 0 text, four)

module _ (send : ℕ → ℕ → Bytes → Sent) (max_backlog : ℕ) (to_string : ℕ → Bytes) (page : Bytes)
    (fd : ℕ) (serve_only : Bool) (out : Bytes) (sends : ℕ) (sent : Bytes) where
  abbrev here : Bytes → Peer
  here input = listening fd serve_only input out sends sent

  decode_input-client_frame :
      (mask text : Bytes) (t : Tally)
      → length mask ≡ 4
      → length text < 126
      → AreBytes mask
      → AreBytes text
      → decode_input send max_backlog to_string page (here (client_frame mask text)) t ≡ (
        here [],
        record t { pending = t.pending ++ ((fd, text) ∷ []); commands = increment t.commands },
      )
  unfolding decode_input
  decode_input-client_frame mask text t four short hm ht =
      let size : length (client_frame mask text) ≡ suc (5 + length text) =
        omega (arith, length-client_frame mask text four) in
      ap
        (λ (c : Client). (
          record (here (client_frame mask text)) { input = c.input; out = c.out; dead = c.dead },
          record t {
            pending = t.pending ++ map (λ text. (fd, text)) c.pending;
            commands = c.commands;
          },
        ))
        (ap
            (λ n.
              decode_frames max_backlog (suc n)
                (buffers (client_frame mask text) out [] t.commands))
            size
          ∙ decode_frames-client_frame max_backlog (5 + length text) mask text out t.commands four
              short hm ht)

  take_chunk-client_frame :
      (mask text : Bytes) (t : Tally)
      → length mask ≡ 4
      → length text < 126
      → AreBytes mask
      → AreBytes text
      → take_chunk send max_backlog to_string page (client_frame mask text) (here []) t ≡ (
        true,
        here [],
        record t { pending = t.pending ++ ((fd, text) ∷ []); commands = increment t.commands },
      )
  unfolding take_chunk
  take_chunk-client_frame mask text t four short hm ht =
      let small : ltb (max_frame_payload * 2) (length (client_frame mask text)) ≡ false =
        ground (arith, length-client_frame mask text four) in
      let done = decode_input-client_frame mask text t four short hm ht in
      rw small (ap (λ (r : Peer × Tally). (not (r.0).dead, r.0, r.1)) done)

  poll_one-client_frame :
      (mask text : Bytes) (t : Tally)
      → length mask ≡ 4
      → length text < 126
      → AreBytes mask
      → AreBytes text
      → poll_one send max_backlog to_string page (hears (client_frame mask text)) (here []) t ≡ (
        here [],
        record t { pending = t.pending ++ ((fd, text) ∷ []); commands = increment t.commands },
      )
  unfolding poll_one on_readable
  poll_one-client_frame mask text t four short hm ht =
      ap (λ (r : Bool × Peer × Tally). if r.0 then (r.1, r.2) else (r.1, r.2))
        (take_chunk-client_frame mask text t four short hm ht)

  -- Clients that `poll` says nothing of.
  poll_all-idle :
      (ps : List Peer) (t : Tally) → poll_all send max_backlog to_string page [] ps t ≡ (ps, t)
  unfolding poll_all
  poll_all-idle [] t = refl
  poll_all-idle (p ∷ ps) t = refl

  -- The answer to the client at the head of the list.
  reply_to-here :
      (f : Bytes) (ps : List Peer) (dropped : ℕ)
      → length out + length f ≤ max_backlog
      → reply_to send max_backlog fd f (here [] ∷ ps) dropped
        ≡ (flush send (record (here []) { out = out ++ f }) ∷ ps, dropped)
  unfolding reply_to push
  reply_to-here f ps dropped fits =
      let same : (fd == fd) ≡ true = ground arith in
      let room : ltb max_backlog (length out + length f) ≡ false = ground arith in
      rw (same, room) refl

  module _ {S : Type 0} (handler : Bytes → S → Bytes × S) where
    dispatch-here :
        (text : Bytes) (ps : List Peer) (dropped : ℕ) (e : S)
        → 0 < length (handler text e).0
        → length out + length (encode_text (handler text e).0) ≤ max_backlog
        → dispatch send max_backlog handler ((fd, text) ∷ []) (here [] ∷ ps) dropped e ≡ (
          flush send (record (here []) { out = out ++ encode_text (handler text e).0 }) ∷ ps,
          dropped,
          (handler text e).1,
        )
    unfolding dispatch
    dispatch-here text ps dropped e some_reply fits =
        let full : (length (handler text e).0 == 0) ≡ false = ground arith in
        rw full (
          ap (λ (r : List Peer × ℕ). (r.0, r.1, (handler text e).1))
            (reply_to-here (encode_text (handler text e).0) ps dropped fits))

    service-client_frame :
        (mask text : Bytes) (ps : List Peer) (dropped pages commands : ℕ) (e : S)
        → length mask ≡ 4
        → length text < 126
        → AreBytes mask
        → AreBytes text
        → 0 < length (handler text e).0
        → length out + length (encode_text (handler text e).0) ≤ max_backlog
        → service send max_backlog to_string page handler []
            (hears (client_frame mask text) ∷ [])
            (record {
              clients = here [] ∷ ps;
              tally = record {
                pending = [];
                dropped = dropped;
                pages = pages;
                commands = commands;
              };
            })
            e
          ≡ (
            record {
              clients = reap (
                  flush send (record (here []) { out = out ++ encode_text (handler text e).0 })
                  ∷ ps);
              tally = record {
                pending = [];
                dropped = dropped;
                pages = pages;
                commands = increment commands;
              };
            },
            (handler text e).1,
          )
    unfolding service poll_all
    service-client_frame mask text ps dropped pages commands e four short hm ht some_reply fits =
        let t : Tally = record {
          pending = [];
          dropped = dropped;
          pages = pages;
          commands = commands;
        } in
        let t' : Tally = record t { pending = (fd, text) ∷ []; commands = increment commands } in
        let heard = poll_one-client_frame mask text t four short hm ht in
        let polled : poll_all send max_backlog to_string page (hears (client_frame mask text) ∷ [])
              (here [] ∷ ps) t
            ≡ (here [] ∷ ps, t') =
          ap
            (λ (r : Peer × Tally).
              let (qs, t'') = poll_all send max_backlog to_string page [] ps r.1 in (r.0 ∷ qs, t''))
            heard
          ∙ ap (λ (r : List Peer × Tally). (here [] ∷ r.0, r.1)) (poll_all-idle ps t') in
        let answered = dispatch-here text ps dropped e some_reply fits in
        let finish : List Peer × Tally → Server × S = λ r.
          let (qs, n, e') = dispatch send max_backlog handler (r.1).pending r.0 (r.1).dropped e in
          (record { clients = reap qs; tally = record (r.1) { pending = []; dropped = n } }, e') in
        let some_client : (length (here [] ∷ (ps ++ [])) == 0) ≡ false = ground arith in
        rw some_client (
          ap
            (λ xs. finish (
              poll_all send max_backlog to_string page (hears (client_frame mask text) ∷ [])
                (here [] ∷ xs) t))
            (append-nil ps)
          ∙ ap finish polled
          ∙ ap
              (λ (r : List Peer × ℕ × S).
                (settled (reap r.0) (record t' { pending = []; dropped = r.1 }), r.2))
              answered)

    -- Whatever the kernel takes and the other clients are: when the server hears a whole masked text
    -- frame of fewer than 126 bytes from the client at the head of its list, which lives and has
    -- shaken hands, the same pass counts the command, gives it to the handler, and puts the whole
    -- reply behind all that the client has been sent or waits for. For a reply that is not empty and
    -- fits in the backlog.
    pub service-answers :
        (mask text : Bytes) (ps : List Peer) (dropped pages commands : ℕ) (e : S)
        → length mask ≡ 4
        → length text < 126
        → AreBytes mask
        → AreBytes text
        → 0 < length (handler text e).0
        → length out + length (encode_text (handler text e).0) ≤ max_backlog
        → let before : Server = record {
          clients = here [] ∷ ps;
          tally = record { pending = []; dropped = dropped; pages = pages; commands = commands };
        } in
          let r =
            service send max_backlog to_string page handler []
              (hears (client_frame mask text) ∷ [])
              before
              e in
          (q : Peer) × (r.0.clients ≡ reap (q ∷ ps))
          × (stream q ≡ stream (here []) ++ encode_text (handler text e).0)
          × (r.0.tally.commands ≡ increment commands)
          × (r.1 ≡ (handler text e).1)
    service-answers mask text ps dropped pages commands e four short hm ht some_reply fits =
        let reply = encode_text (handler text e).0 in
        let said : Peer = record (here []) { out = out ++ reply } in
        let q = flush send said in
        let done =
          service-client_frame mask text ps dropped pages commands e four short hm ht some_reply
            fits in
        (
          q,
          ap (λ (r : Server × S). r.0.clients) done,
          (flush-Flushed send said).same_stream ∙ sym (append_assoc sent out reply),
          ap (λ (r : Server × S). r.0.tally.commands) done,
          ap (λ (r : Server × S). r.1) done,
        )
