-- ===== src/Dashboard/Backlog.antt =====
-- engine/WsServer.hpp, `decode_frames`: progress, and the bounds on what a client can make grow.
use odds_engine.Base.{
  ℕ, zero, suc, ◌+◌, ◌%◌, ◌≤◌, ◌<◌, ◌==◌, leb, leb→le, not, ◌≡◌, refl, ap, Bool, true, false, [],
  ◌∷◌, arith, length, get_or, take, drop, ltb, All, All-append, length-append, length-take,
  length-drop, if◌then◌else◌,
}
use odds_engine.Base.Bytes.{Bytes}
use odds_engine.Dashboard.{
  Scan, partial, violation, frame, scan, scan_body, unmask, max_frame_payload, Client, pong,
  handle_frame, decode_frames,
}

length-unmask : (mask : Bytes) (i : ℕ) (ps : Bytes) → length (unmask mask i ps) ≡ length ps
unfolding unmask
length-unmask mask i [] = refl
length-unmask mask i (p ∷ ps) = omega (arith, length-unmask mask (i + 1) ps)

-- A frame that was found has a payload within the limit, and leaves less behind it than there was.
unfoldable Shrinks : Bytes → Scan → Type 0
Shrinks s partial = Unit
Shrinks s violation = Unit
Shrinks s (frame opcode payload rest) =
    (length payload ≤ max_frame_payload) × (length rest < length s)

partial-Shrinks : (s : Bytes) → Shrinks s partial
unfolding Shrinks
partial-Shrinks s = tt

violation-Shrinks : (s : Bytes) → Shrinks s violation
unfolding Shrinks
violation-Shrinks s = tt

if-Shrinks :
    (s : Bytes) (b : Bool) (x y : Scan)
    → (b ≡ true → Shrinks s x)
    → (b ≡ false → Shrinks s y)
    → Shrinks s (if b then x else y)
if-Shrinks s true x y left right = left refl
if-Shrinks s false x y left right = right refl

whole_frame-Shrinks :
    (s : Bytes) (opcode len off : ℕ)
    → ltb max_frame_payload len ≡ false
    → ltb (length s) (off + 4 + len) ≡ false
    → Shrinks s (
        frame opcode
          (unmask (take 4 (drop off s)) 0 (take len (drop (off + 4) s)))
          (drop (off + 4 + len) s))
unfolding Shrinks
whole_frame-Shrinks s opcode len off small whole =
    let limit : len ≤ max_frame_payload = ground (arith, small) in
    let covers : off + 4 + len ≤ length s = ground (arith, whole) in
    (
      omega (
        arith,
        length-unmask (take 4 (drop off s)) 0 (take len (drop (off + 4) s)),
        length-take len (drop (off + 4) s),
        limit,
      ),
      omega (arith, length-drop (off + 4 + len) s, covers),
    )

scan_body-Shrinks : (s : Bytes) (len off : ℕ) → Shrinks s (scan_body s len off)
unfolding scan_body
scan_body-Shrinks s len off =
    if-Shrinks s (ltb max_frame_payload len) _ _ (λ _. violation-Shrinks s)
      (λ small.
        if-Shrinks s (not (leb 128 (get_or s 1 0))) _ _ (λ _. violation-Shrinks s)
          (λ _.
            if-Shrinks s (ltb (length s) (off + 4)) _ _ (λ _. partial-Shrinks s)
              (λ _.
                if-Shrinks s (ltb (length s) (off + 4 + len)) _ _ (λ _. partial-Shrinks s)
                  (λ whole. whole_frame-Shrinks s (get_or s 0 0 % 16) len off small whole))))

scan-Shrinks : (s : Bytes) → Shrinks s (scan s)
unfolding scan
scan-Shrinks s =
    let len = get_or s 1 0 % 128 in
    if-Shrinks s (ltb (length s) 2) _ _ (λ _. partial-Shrinks s)
      (λ _.
        if-Shrinks s (len == 126) _ _
          (λ _.
            if-Shrinks s (ltb (length s) 4) _ _ (λ _. partial-Shrinks s)
              (λ _. scan_body-Shrinks s _ 4))
          (λ _.
            if-Shrinks s (len == 127) _ _
              (λ _.
                if-Shrinks s (ltb (length s) 10) _ _ (λ _. partial-Shrinks s)
                  (λ _. scan_body-Shrinks s _ 10))
              (λ _. scan_body-Shrinks s _ 2)))

module _ (max_backlog : ℕ) where
  -- The client's reply buffer is within the backlog and each queued command within a frame.
  abbrev pub Bounded : Client → Type 0
  Bounded c = (length c.out ≤ max_backlog) × All (λ p. length p ≤ max_frame_payload) c.pending

  if-Bounded :
      (b : Bool) (x y : Client) → (b ≡ true → Bounded x) → Bounded y → Bounded (if b then x else y)
  if-Bounded true x y h k = h refl
  if-Bounded false x y h k = k

  pong-Bounded : (payload : Bytes) (c : Client) → Bounded c → Bounded (pong max_backlog payload c)
  unfolding pong
  pong-Bounded payload c b =
      let f = 138 ∷ (if ltb (length payload) 125 then length payload else 125) ∷ take 125 payload in
      if-Bounded (leb (length c.out + length f) max_backlog) _ c
        (λ fits. (omega (arith, length-append c.out f, leb→le _ _ fits), b.1)) b

  handle_frame-Bounded :
      (opcode : ℕ) (payload : Bytes) (c : Client)
      → length payload ≤ max_frame_payload
      → Bounded c
      → Bounded (handle_frame max_backlog opcode payload c)
  unfolding handle_frame
  handle_frame-Bounded opcode payload c small b =
      if-Bounded (opcode == 8) _ _ (λ _. b)
        (if-Bounded (opcode == 9) _ _ (λ _. pong-Bounded payload c b)
          (if-Bounded (opcode == 1) _ _
            (λ _. (b.0, All-append _ c.pending (payload ∷ []) b.1 (small, tt))) b))

  -- However many bytes a client sends and however they are framed, its replies stay within the
  -- backlog and every command that is queued for it within the frame limit.
  pub decode_frames-Bounded :
      (fuel : ℕ) (c : Client) → Bounded c → Bounded (decode_frames max_backlog fuel c)
  unfolding decode_frames Shrinks
  decode_frames-Bounded zero c b = b
  decode_frames-Bounded (suc fuel) c b =
      go (scan c.input) (scan-Shrinks c.input) (λ c'. decode_frames-Bounded fuel c')
    where
      go :
          (found : Scan)
          → Shrinks c.input found
          → ((c' : Client) → Bounded c' → Bounded (decode_frames max_backlog fuel c'))
          → Bounded (elim found [
            | partial ↦ c
            | violation ↦ record c { dead = true }
            | frame opcode payload rest ↦
                let c' = handle_frame max_backlog opcode payload (record c { input = rest }) in
                let more = decode_frames max_backlog fuel c' in if c'.dead then c' else more
          ])
      go partial h later = b
      go violation h later = b
      go (frame opcode payload rest) h later =
          let next = handle_frame-Bounded opcode payload (record c { input = rest }) h.0 b in
          if-Bounded _ _ _ (λ _. next) (later _ next)

  input-handle_frame :
      (opcode : ℕ) (payload : Bytes) (c : Client)
      → (handle_frame max_backlog opcode payload c).input ≡ c.input
  unfolding handle_frame pong
  input-handle_frame opcode payload c = ground arith

  -- What is left in the buffer was there.
  pub decode_frames_shrinks :
      (fuel : ℕ) (c : Client) → length (decode_frames max_backlog fuel c).input ≤ length c.input
  unfolding decode_frames Shrinks
  decode_frames_shrinks zero c = omega arith
  decode_frames_shrinks (suc fuel) c =
      go (scan c.input) (scan-Shrinks c.input) (λ c'. decode_frames_shrinks fuel c')
    where
      go :
          (found : Scan)
          → Shrinks c.input found
          → ((c' : Client) → length (decode_frames max_backlog fuel c').input ≤ length c'.input)
          → length
              (elim found as (λ _. Client) [
                | partial ↦ c
                | violation ↦ record c { dead = true }
                | frame opcode payload rest ↦
                    let c' = handle_frame max_backlog opcode payload (record c { input = rest }) in
                    let more = decode_frames max_backlog fuel c' in if c'.dead then c' else more
              ]).input
            ≤ length c.input
      go partial h later = omega arith
      go violation h later = omega arith
      go (frame opcode payload rest) h later =
          let c' = handle_frame max_backlog opcode payload (record c { input = rest }) in
          let same = ap length (input-handle_frame opcode payload (record c { input = rest })) in
          ground (arith, same, h.1, later c')

  -- More fuel than the buffer has bytes is enough: any two such amounts give the same result.
  pub decode_frames_fuel :
      (fuel other : ℕ) (c : Client)
      → length c.input < fuel
      → length c.input < other
      → decode_frames max_backlog fuel c ≡ decode_frames max_backlog other c
  unfolding decode_frames Shrinks
  decode_frames_fuel zero other c h k = absurd (omega arith)
  decode_frames_fuel (suc fuel) zero c h k = absurd (omega arith)
  decode_frames_fuel (suc fuel) (suc other) c h k =
      go (scan c.input) (scan-Shrinks c.input) (λ c'. decode_frames_fuel fuel other c')
    where
      rest_of : ℕ → Client → Scan → Client
      rest_of n c found = elim found [
        | partial ↦ c
        | violation ↦ record c { dead = true }
        | frame opcode payload rest ↦
            let c' = handle_frame max_backlog opcode payload (record c { input = rest }) in
            let more = decode_frames max_backlog n c' in if c'.dead then c' else more
      ]

      go :
          (found : Scan)
          → Shrinks c.input found
          → ((c' : Client)
              → length c'.input < fuel
              → length c'.input < other
              → decode_frames max_backlog fuel c' ≡ decode_frames max_backlog other c')
          → rest_of fuel c found ≡ rest_of other c found
      go partial h' later = refl
      go violation h' later = refl
      go (frame opcode payload rest) h' later =
          let c' = handle_frame max_backlog opcode payload (record c { input = rest }) in
          let same = ap length (input-handle_frame opcode payload (record c { input = rest })) in
          ap (λ r. if c'.dead then c' else r)
            (later c' (omega (arith, same, h'.1)) (omega (arith, same, h'.1)))
