-- ===== src/Dashboard.antt =====
-- engine/WsServer.hpp, the frames of the dashboard's socket: the text frames that go out, and the
-- decoding of what a client has sent. Server holds the rest.
pub mod Backlog
pub mod Digest
pub mod Server
pub mod Flush
pub mod Health
pub mod Frames
pub mod Answer
use Prim.Native.Nat.{bit_xor}
use odds_engine.Base.{
  ℕ, zero, suc, ◌+◌, ◌*◌, ◌/◌, ◌%◌, ◌^◌, Bool, true, false, not, List, [], ◌∷◌, ◌++◌, ltb, leb,
  ◌==◌, if◌then◌else◌, length, get_or, take, drop,
}
use odds_engine.Base.Bytes.{Bytes}
use odds_engine.BookTable.{increment}

-- The most significant byte first.
abbrev pub of_be : ℕ → Bytes → ℕ
of_be acc [] = acc
of_be acc (b ∷ bs) = of_be (acc * 256 + b) bs

unfoldable pub encode_text : Bytes → Bytes
encode_text payload =
    let n = length payload in
    let size =
      if ltb n 126
      then n ∷ []
      else if leb n 65535
      then 126 ∷ (n / 256 % 256) ∷ (n % 256) ∷ []
      else 127
        ∷ (n / 2 ^ 56 % 256)
        ∷ (n / 2 ^ 48 % 256)
        ∷ (n / 2 ^ 40 % 256)
        ∷ (n / 2 ^ 32 % 256)
        ∷ (n / 2 ^ 24 % 256)
        ∷ (n / 2 ^ 16 % 256)
        ∷ (n / 2 ^ 8 % 256)
        ∷ (n % 256)
        ∷ [] in
    129 ∷ (size ++ payload)

abbrev pub max_frame_payload : ℕ
max_frame_payload = 65536

-- `payload[i] = p[off + i] ^ mask[i % 4]`, from i on.
unfoldable pub unmask : Bytes → ℕ → Bytes → Bytes
unmask mask i [] = []
unmask mask i (p ∷ ps) = bit_xor p (get_or mask (i % 4) 0) ∷ unmask mask (i + 1) ps

-- What the head of the buffer is: not yet a whole frame, a protocol violation, or a frame with its
-- opcode, its payload and the bytes behind it.
pub data Scan : Type 0 where
  partial violation : Scan
  frame : ℕ → Bytes → Bytes → Scan

-- From the mask on, of a frame that declares `len` bytes of payload.
unfoldable pub scan_body : Bytes → ℕ → ℕ → Scan
scan_body s len off =
    if ltb max_frame_payload len
    then violation
    else if not (leb 128 (get_or s 1 0))
    then violation
    else if ltb (length s) (off + 4)
    then partial
    else if ltb (length s) (off + 4 + len)
    then partial
    else frame (get_or s 0 0 % 16) (unmask (take 4 (drop off s)) 0 (take len (drop (off + 4) s)))
        (drop (off + 4 + len) s)

unfoldable pub scan : Bytes → Scan
scan s =
    let len = get_or s 1 0 % 128 in
    if ltb (length s) 2
    then partial
    else if len == 126
    then (if ltb (length s) 4 then partial else scan_body s (of_be 0 (take 2 (drop 2 s))) 4)
    else if len == 127
    then (if ltb (length s) 10 then partial else scan_body s (of_be 0 (take 8 (drop 2 s))) 10)
    else scan_body s len 2

-- A client's buffers, and the commands of it that the server has queued and counted.
pub record Client : Type 0 where
  pub input : Bytes
  pub out : Bytes
  pub dead : Bool
  pub pending : List Bytes
  pub commands : ℕ

module _ (max_backlog : ℕ) where
  -- At most 125 bytes come back, and none where they would overflow the backlog.
  unfoldable pub pong : Bytes → Client → Client
  pong payload c =
      let f = 138 ∷ (if ltb (length payload) 125 then length payload else 125) ∷ take 125 payload in
      if leb (length c.out + length f) max_backlog then record c { out = c.out ++ f } else c

  -- What one frame does, by its opcode.
  unfoldable pub handle_frame : ℕ → Bytes → Client → Client
  handle_frame opcode payload c =
      if opcode == 8
      then record c { dead = true }
      else if opcode == 9
      then pong payload c
      else if opcode == 1
      then record c { commands = increment c.commands; pending = c.pending ++ (payload ∷ []) }
      else c

  -- The loop over the frames; `Backlog` shows which fuel is enough.
  unfoldable pub decode_frames : ℕ → Client → Client
  decode_frames zero c = c
  decode_frames (suc fuel) c = elim (scan c.input) [
    | partial ↦ c
    | violation ↦ record c { dead = true }
    | frame opcode payload rest ↦
        let c' = handle_frame opcode payload (record c { input = rest }) in
        let more = decode_frames fuel c' in if c'.dead then c' else more
  ]
