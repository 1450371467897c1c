-- ===== src/Dashboard/Health.antt =====
-- engine/WsServer.hpp: what a pass of the server keeps bounded, whatever its clients and the kernel do.
use odds_engine.Base.{
  ℕ, zero, suc, ◌+◌, ◌*◌, ◌≤◌, ◌≡◌, refl, ap, Bool, true, false, not, ◌||◌, Option, none, some,
  List, [], ◌∷◌, ◌++◌, map, ltb, ◌==◌, if-P, length, length-append, All, All-append, All-imp, arith,
  Bool-cases, inl, inr,
}
use odds_engine.Base.Bytes.{Bytes}
use odds_engine.Engine.Json.{codes, after}
use odds_engine.Dashboard.{max_frame_payload, encode_text}
use odds_engine.Dashboard.Backlog.{decode_frames-Bounded, decode_frames_shrinks}
use odds_engine.Dashboard.Server.{
  Peer, newcomer, Sent, Recv, chunk, drained, hung_up, Ready, Tally, Server, crlf, header_value,
  max_request, accept_response, page_response, flush, push, serve_page, handshake, decode_input,
  take_chunk, on_readable, poll_one, poll_all, reply_to, dispatch, send_each, reap, broadcast,
  service,
}
use odds_engine.Dashboard.Digest.{be_bytes, sha1, base64}
use odds_engine.Dashboard.Flush.{Flushed, flush-Flushed}

-- A client's output is within the backlog, and its input within two frames while it lives.
pub record IsHealthy (max_backlog : ℕ) (p : Peer) : Type 0 where
  pub out_fits : length p.out ≤ max_backlog
  pub input_fits : p.dead ≡ false → length p.input ≤ max_frame_payload * 2

pub Flushed-IsHealthy :
    {max_backlog : ℕ} (p q : Peer) → Flushed p q → IsHealthy max_backlog p → IsHealthy max_backlog q
Flushed-IsHealthy p q f h = record {
  out_fits = omega (arith, f.no_more, h.out_fits);
  input_fits = λ e. elim (Bool-cases p.dead) [
    | inl dead ↦ absurd (cc (f.stays_dead dead, e))
    | inr alive ↦ omega (arith, h.input_fits alive, ap length f.same_input)
  ];
}

dead-IsHealthy :
    {max_backlog : ℕ} (p : Peer)
    → length p.out ≤ max_backlog
    → IsHealthy max_backlog (record p { dead = true })
dead-IsHealthy p h = record { out_fits = h; input_fits = λ e. absurd cc }

module _ (send : ℕ → ℕ → Bytes → Sent) (max_backlog : ℕ) where
  abbrev Healthy : Peer → Type 0
  Healthy p = IsHealthy max_backlog p

  flush-IsHealthy : (p : Peer) → Healthy p → Healthy (flush send p)
  flush-IsHealthy p h = Flushed-IsHealthy p (flush send p) (flush-Flushed send p) h

  push-IsHealthy : (f : Bytes) (p : Peer) → Healthy p → Healthy (push send max_backlog f p).1
  unfolding push
  push-IsHealthy f p h =
      if-P (λ (r : Bool × Peer). Healthy r.1) (ltb max_backlog (length p.out + length f)) _ _
        (λ _. h)
        (λ fits. flush-IsHealthy _ (record {
          out_fits = ground (arith, length-append p.out f, fits);
          input_fits = h.input_fits;
        }))

  reply_to-IsHealthy :
      (fd : ℕ) (f : Bytes) (ps : List Peer) (dropped : ℕ)
      → All Healthy ps
      → All Healthy (reply_to send max_backlog fd f ps dropped).0
  unfolding reply_to
  reply_to-IsHealthy fd f [] dropped h = tt
  reply_to-IsHealthy fd f (p ∷ ps) dropped (h, hs) =
      if-P (λ (r : List Peer × ℕ). All Healthy r.0) (not (p.fd == fd) || p.dead || not p.is_open) _
        _ (λ _. (h, reply_to-IsHealthy fd f ps dropped hs)) (λ _. (push-IsHealthy f p h, hs))

  send_each-IsHealthy :
      (f : Bytes) (ps : List Peer) (dropped : ℕ)
      → All Healthy ps
      → All Healthy (send_each send max_backlog f ps dropped).0
  unfolding send_each
  send_each-IsHealthy f [] dropped h = tt
  send_each-IsHealthy f (p ∷ ps) dropped (h, hs) = (
    if-P Healthy (p.dead || not p.is_open) _ _ (λ _. h) (λ _. push-IsHealthy f p h),
    send_each-IsHealthy f ps _ hs,
  )

  module _ {S : Type 0} (handler : Bytes → S → Bytes × S) where
    dispatch-IsHealthy :
        (pending : List (ℕ × Bytes)) (ps : List Peer) (dropped : ℕ) (e : S)
        → All Healthy ps
        → All Healthy (dispatch send max_backlog handler pending ps dropped e).0
    unfolding dispatch
    dispatch-IsHealthy [] ps dropped e h = h
    dispatch-IsHealthy ((fd, text) ∷ rest) ps dropped e h = dispatch-IsHealthy rest _ _ _ (
        if-P (λ (r : List Peer × ℕ). All Healthy r.0) (length (handler text e).0 == 0) _ _ (λ _. h)
          (λ _. reply_to-IsHealthy fd (encode_text (handler text e).0) ps dropped h))

  module _ (to_string : ℕ → Bytes) (page : Bytes)
      (page_fits : length (page_response to_string page) ≤ max_backlog)
      (key_fits : (key : Bytes) → length (accept_response key) ≤ max_backlog) where
    handshake-IsHealthy :
        (p : Peer) (t : Tally) → Healthy (handshake send max_backlog to_string page p t).0
    unfolding handshake serve_page
    handshake-IsHealthy p t =
        let key = header_value p.input (codes "sec-websocket-key") in
        let upgraded : Peer = record p { out = accept_response key; input = []; is_open = true } in
        let served : Peer = record p {
          out = page_response to_string page;
          input = [];
          serve_only = true;
        } in
        if-P (λ (r : Peer × Tally). Healthy r.0) (length key == 0)
          (serve_page send max_backlog to_string page p t) (flush send upgraded, t)
          (λ _.
            flush-IsHealthy served (record { out_fits = page_fits; input_fits = λ e. omega arith }))
          (λ _.
            flush-IsHealthy upgraded
              (record { out_fits = key_fits key; input_fits = λ e. omega arith }))

    decode_input-IsHealthy :
        (p : Peer) (t : Tally)
        → length p.out ≤ max_backlog
        → length p.input ≤ max_frame_payload * 2
        → Healthy (decode_input send max_backlog to_string page p t).0
    unfolding decode_input
    decode_input-IsHealthy p t h k = record {
      out_fits = (decode_frames-Bounded max_backlog (suc (length p.input)) _ (h, tt)).0;
      input_fits = λ e. omega (
        arith,
        decode_frames_shrinks max_backlog (suc (length p.input)) (record {
          input = p.input;
          out = p.out;
          dead = p.dead;
          pending = [];
          commands = t.commands;
        }),
        k,
      );
    }

    take_chunk-IsHealthy :
        (bs : Bytes) (p : Peer) (t : Tally)
        → Healthy p
        → Healthy (take_chunk send max_backlog to_string page bs p t).1
    unfolding take_chunk
    take_chunk-IsHealthy bs p0 t h =
        let p : Peer = record p0 { input = p0.input ++ bs } in
        if-P (λ (r : Bool × Peer × Tally). Healthy r.1) (not p.is_open) _ _
          (λ _.
            if-P (λ (r : Bool × Peer × Tally). Healthy r.1) (ltb max_request (length p.input)) _ _
              (λ _. dead-IsHealthy p h.out_fits)
              (λ small.
                request (after (crlf ++ crlf) p.input) p (ground (arith, small)) h.out_fits))
          (λ _.
            if-P (λ (r : Bool × Peer × Tally). Healthy r.1)
              (ltb (max_frame_payload * 2) (length p.input)) _ _ (λ _. dead-IsHealthy p h.out_fits)
              (λ small. decode_input-IsHealthy p t h.out_fits (ground (arith, small))))
      where
        request :
            (found : Option Bytes) (p : Peer)
            → length p.input ≤ max_request
            → length p.out ≤ max_backlog
            → Healthy
                (elim found as (λ _. Bool × Peer × Tally) [
                  | some _ ↦
                      (let (q, t') = handshake send max_backlog to_string page p t in
                        (false, q, t'))
                  | none ↦ (true, p, t)
                ]).1
        request (some rest) p small fits = handshake-IsHealthy p t
        request none p small fits = record { out_fits = fits; input_fits = λ e. omega arith }

    on_readable-IsHealthy :
        (rs : List Recv) (p : Peer) (t : Tally)
        → Healthy p
        → Healthy (on_readable send max_backlog to_string page rs p t).0
    unfolding on_readable
    on_readable-IsHealthy [] p t h = h
    on_readable-IsHealthy (drained ∷ rs) p t h = h
    on_readable-IsHealthy (hung_up ∷ rs) p t h = dead-IsHealthy p h.out_fits
    on_readable-IsHealthy (chunk bs ∷ rs) p t h =
        let r = take_chunk send max_backlog to_string page bs p t in
        let q = take_chunk-IsHealthy bs p t h in
        if-P (λ (r : Peer × Tally). Healthy r.0) r.0
          (on_readable send max_backlog to_string page rs r.1 r.2) (r.1, r.2)
          (λ _. on_readable-IsHealthy rs r.1 r.2 q) (λ _. q)

    poll_one-IsHealthy :
        (r : Ready) (p : Peer) (t : Tally)
        → Healthy p
        → Healthy (poll_one send max_backlog to_string page r p t).0
    unfolding poll_one
    poll_one-IsHealthy r p t h =
        let read =
          if-P (λ (r : Peer × Tally). Healthy r.0) r.readable _ _
            (λ _. on_readable-IsHealthy r.reads p t h) (λ _. h) in
        if-P (λ (r : Peer × Tally). Healthy r.0) r.failed _ _ (λ _. dead-IsHealthy p h.out_fits)
          (λ _. if-P Healthy r.writable _ _ (λ _. flush-IsHealthy _ read) (λ _. read))

    poll_all-IsHealthy :
        (rs : List Ready) (ps : List Peer) (t : Tally)
        → All Healthy ps
        → All Healthy (poll_all send max_backlog to_string page rs ps t).0
    unfolding poll_all
    poll_all-IsHealthy rs [] t h = tt
    poll_all-IsHealthy [] (p ∷ ps) t h = h
    poll_all-IsHealthy (r ∷ rs) (p ∷ ps) t (h, hs) =
        (poll_one-IsHealthy r p t h, poll_all-IsHealthy rs ps _ hs)

-- The clients that stay are those that live.
reap-All :
    (P : Peer → Type 0) (ps : List Peer) → All P ps → All (λ p. P p × (p.dead ≡ false)) (reap ps)
unfolding reap
reap-All P [] h = tt
reap-All P (p ∷ ps) (h, hs) =
    if-P (All (λ p. P p × (p.dead ≡ false))) p.dead (reap ps) (p ∷ reap ps) (λ _. reap-All P ps hs)
      (λ alive. ((h, alive), reap-All P ps hs))

-- Between two passes: every client lives and is healthy, and no command waits.
pub record IsSettled (max_backlog : ℕ) (s : Server) : Type 0 where
  pub clients_fine : All (λ p. IsHealthy max_backlog p × (p.dead ≡ false)) s.clients
  pub none_pending : s.tally.pending ≡ []

abbrev pub no_clients : Server
no_clients = record {
  clients = [];
  tally = record { pending = []; dropped = 0; pages = 0; commands = 0 };
}

-- The calls of the engine: `service`, in what the kernel then gives, and `broadcast`.
pub data Call : Type 0 where
  serve : List ℕ → List Ready → Call
  tell : Bytes → Call

module _ (send : ℕ → ℕ → Bytes → Sent) (max_backlog : ℕ) (to_string : ℕ → Bytes) (page : Bytes)
    {S : Type 0} (handler : Bytes → S → Bytes × S) where
  abbrev pub run_calls : List Call → Server → S → Server × S
  run_calls [] s e = (s, e)
  run_calls (serve fds ready ∷ cs) s e =
      let (s', e') = service send max_backlog to_string page handler fds ready s e in
      run_calls cs s' e'
  run_calls (tell text ∷ cs) s e = run_calls cs (broadcast send max_backlog text s) e

  newcomer-IsHealthy : (fds : List ℕ) → All (IsHealthy max_backlog) (map newcomer fds)
  newcomer-IsHealthy [] = tt
  newcomer-IsHealthy (fd ∷ fds) =
      (record { out_fits = omega arith; input_fits = λ e. omega arith }, newcomer-IsHealthy fds)

  broadcast-IsSettled :
      (text : Bytes) (s : Server)
      → IsSettled max_backlog s
      → IsSettled max_backlog (broadcast send max_backlog text s)
  unfolding broadcast
  broadcast-IsSettled text s h =
      if-P (IsSettled max_backlog) (length s.clients == 0) _ _ (λ _. h)
        (λ _. record {
          clients_fine = reap-All (IsHealthy max_backlog) _ (
              send_each-IsHealthy send max_backlog (encode_text text) s.clients _
                (All-imp s.clients (λ p k. k.0) h.clients_fine));
          none_pending = h.none_pending;
        })

  module _ (page_fits : length (page_response to_string page) ≤ max_backlog)
      (key_fits : (key : Bytes) → length (accept_response key) ≤ max_backlog) where
    service-IsSettled :
        (fds : List ℕ) (ready : List Ready) (s : Server) (e : S)
        → IsSettled max_backlog s
        → IsSettled max_backlog (service send max_backlog to_string page handler fds ready s e).0
    unfolding service
    service-IsSettled fds ready s e h =
        let clients = s.clients ++ map newcomer fds in
        let fine =
          All-append (IsHealthy max_backlog) s.clients (map newcomer fds)
            (All-imp s.clients (λ p k. k.0) h.clients_fine) (newcomer-IsHealthy fds) in
        let polled =
          poll_all-IsHealthy send max_backlog to_string page page_fits key_fits ready clients
            s.tally fine in
        if-P (λ (r : Server × S). IsSettled max_backlog r.0) (length clients == 0) _ _ (λ _. h)
          (λ _. record {
            clients_fine =
                reap-All (IsHealthy max_backlog) _
                  (dispatch-IsHealthy send max_backlog handler _ _ _ e polled);
            none_pending = refl;
          })

    run_calls-IsSettled :
        (cs : List Call) (s : Server) (e : S)
        → IsSettled max_backlog s
        → IsSettled max_backlog (run_calls cs s e).0
    run_calls-IsSettled [] s e h = h
    run_calls-IsSettled (serve fds ready ∷ cs) s e h =
        run_calls-IsSettled cs _ _ (service-IsSettled fds ready s e h)
    run_calls-IsSettled (tell text ∷ cs) s e h =
        run_calls-IsSettled cs _ e (broadcast-IsSettled text s h)

length-be_bytes : (k v : ℕ) → length (be_bytes k v) ≡ k
length-be_bytes zero v = refl
length-be_bytes (suc k) v = omega (arith, length-be_bytes k v)

length-sha1 : (m : Bytes) → length (sha1 m) ≡ 20
unfolding sha1
length-sha1 m = refl

length-base64 : (ds : Bytes) → length (base64 ds) ≤ 2 * length ds + 2
unfolding base64
length-base64 [] = omega arith
length-base64 (x ∷ []) = omega arith
length-base64 (x ∷ y ∷ []) = omega arith
length-base64 (x ∷ y ∷ z ∷ ds) = omega (arith, length-base64 ds)

accept_response_fits : (key : Bytes) → length (accept_response key) ≤ 256
unfolding accept_response
accept_response_fits key =
    let digest = sha1 (key ++ codes "258EAFA5-E914-47DA-95CA-C5AB0DC85B11") in
    omega (arith, length-append (base64 digest) (crlf ++ crlf), length-base64 digest, length-sha1 _)

module _ (send : ℕ → ℕ → Bytes → Sent) (max_backlog : ℕ) (to_string : ℕ → Bytes) (page : Bytes)
    {S : Type 0} (handler : Bytes → S → Bytes × S) where
  -- Whatever the clients send, `send` takes and the handler replies: between two passes of a server
  -- that began with no client, every client lives, has an output within the backlog and an input
  -- within two frames, and no command waits. For a backlog of 256 bytes at least that the page fits in.
  pub run_calls-Settled :
      (cs : List Call) (e : S)
      → length (page_response to_string page) ≤ max_backlog
      → 256 ≤ max_backlog
      → IsSettled max_backlog (run_calls send max_backlog to_string page handler cs no_clients e).0
  run_calls-Settled cs e page_fits large =
      run_calls-IsSettled send max_backlog to_string page handler page_fits
        (λ key. omega (arith, accept_response_fits key, large)) cs no_clients e
        (record { clients_fine = tt; none_pending = refl })
