-- ===== src/Dashboard/Digest.antt =====
-- engine/WsServer.hpp, `sha1` and `base64`: the answer to a handshake's key. A `uint32_t` is below
-- 2^32; `|` of numbers with no common bit is their sum.
use Prim.Native.Nat.{bit_and, bit_or, bit_xor}
use odds_engine.Base.{
  ℕ, zero, suc, ◌+◌, ◌-◌, ◌*◌, ◌/◌, ◌%◌, ◌^◌, List, [], ◌∷◌, ◌++◌, ltb, if◌then◌else◌, length,
  get_or, take, drop, replicate,
}
use odds_engine.Base.Bytes.{Bytes}
use odds_engine.Engine.Json.{codes}

-- The five words of the state.
pub record Words : Type 0 where
  pub a : ℕ
  pub b : ℕ
  pub c : ℕ
  pub d : ℕ
  pub e : ℕ

abbrev rotate : ℕ → ℕ → ℕ
rotate k v = v * 2 ^ k % 2 ^ 32 + v / 2 ^ (32 - k)

abbrev inverted : ℕ → ℕ
inverted v = 2 ^ 32 - 1 - v

-- `width` bytes, the most significant first.
abbrev pub be_bytes : ℕ → ℕ → Bytes
be_bytes zero v = []
be_bytes (suc n) v = v / 256 ^ n % 256 ∷ be_bytes n v

-- The message with the bit, the zeros up to 56 modulo 64, and its length in bits.
unfoldable pub padded : Bytes → Bytes
padded m =
    let zeros = (55 + 64 - length m % 64) % 64 in
    m ++ 128 ∷ (replicate zeros 0 ++ be_bytes 8 (length m * 8 % 2 ^ 64))

abbrev pub word_at : Bytes → ℕ → ℕ
word_at m i =
    get_or m (i * 4) 0 * 2 ^ 24
    + get_or m (i * 4 + 1) 0 * 2 ^ 16
    + get_or m (i * 4 + 2) 0 * 2 ^ 8
    + get_or m (i * 4 + 3) 0

abbrev first_words : Bytes → ℕ → ℕ → List ℕ
first_words m i zero = []
first_words m i (suc n) = word_at m i ∷ first_words m (i + 1) n

-- `w[i]` for the next n values of i; the newest word is the first of the list.
abbrev more_words : ℕ → List ℕ → List ℕ
more_words zero ws = ws
more_words (suc n) ws = more_words n (
    rotate 1 (
      bit_xor (get_or ws 2 0) (bit_xor (get_or ws 7 0) (bit_xor (get_or ws 13 0) (get_or ws 15 0))))
    ∷ ws)

abbrev reversed : List ℕ → List ℕ → List ℕ
reversed [] acc = acc
reversed (w ∷ ws) acc = reversed ws (w ∷ acc)

-- The 80 words of a chunk.
unfoldable pub schedule : Bytes → List ℕ
schedule chunk = reversed (more_words 64 (reversed (first_words chunk 0 16) [])) []

-- `f` and `k` of a round.
abbrev round_of : ℕ → Words → ℕ × ℕ
round_of i s =
    let parity = bit_xor s.b (bit_xor s.c s.d) in
    if ltb i 20
    then (bit_or (bit_and s.b s.c) (bit_and (inverted s.b) s.d), 0x5A827999)
    else if ltb i 40
    then (parity, 0x6ED9EBA1)
    else if ltb i 60
    then (bit_or (bit_and s.b s.c) (bit_or (bit_and s.b s.d) (bit_and s.c s.d)), 0x8F1BBCDC)
    else (parity, 0xCA62C1D6)

unfoldable pub rounds : ℕ → List ℕ → Words → Words
rounds i [] s = s
rounds i (w ∷ ws) s =
    let (f, k) = round_of i s in
    rounds (i + 1) ws (record {
      a = (rotate 5 s.a + f + s.e + k + w) % 2 ^ 32;
      b = s.a;
      c = rotate 30 s.b;
      d = s.c;
      e = s.d;
    })

-- The chunks of 64 bytes, `n` of them.
unfoldable pub chunks : ℕ → Bytes → Words → Words
chunks zero m h = h
chunks (suc n) m h =
    let s = rounds 0 (schedule (take 64 m)) h in
    chunks n (drop 64 m) (record {
      a = (h.a + s.a) % 2 ^ 32;
      b = (h.b + s.b) % 2 ^ 32;
      c = (h.c + s.c) % 2 ^ 32;
      d = (h.d + s.d) % 2 ^ 32;
      e = (h.e + s.e) % 2 ^ 32;
    })

unfoldable pub sha1 : Bytes → Bytes
sha1 input =
    let m = padded input in
    let h =
      chunks (length m / 64) m (record {
        a = 0x67452301;
        b = 0xEFCDAB89;
        c = 0x98BADCFE;
        d = 0x10325476;
        e = 0xC3D2E1F0;
      }) in
    be_bytes 4 h.a ++ (be_bytes 4 h.b ++ (be_bytes 4 h.c ++ (be_bytes 4 h.d ++ be_bytes 4 h.e)))

abbrev pub alphabet : Bytes
alphabet = codes "ABCDEFGHIJKLMNOPQRSTUVWXYZabcdefghijklmnopqrstuvwxyz0123456789+/"

-- The letter of the low six bits.
abbrev pub letter : ℕ → ℕ
letter v = get_or alphabet (v % 64) 0

abbrev pub equals_sign : ℕ
equals_sign = 61

unfoldable pub base64 : Bytes → Bytes
base64 [] = []
base64 (x ∷ []) =
    let v = x * 2 ^ 16 in letter (v / 2 ^ 18) ∷ letter (v / 2 ^ 12) ∷ equals_sign ∷ equals_sign ∷ []
base64 (x ∷ y ∷ []) =
    let v = x * 2 ^ 16 + y * 2 ^ 8 in
    letter (v / 2 ^ 18) ∷ letter (v / 2 ^ 12) ∷ letter (v / 2 ^ 6) ∷ equals_sign ∷ []
base64 (x ∷ y ∷ z ∷ ds) =
    let v = x * 2 ^ 16 + y * 2 ^ 8 + z in
    letter (v / 2 ^ 18) ∷ letter (v / 2 ^ 12) ∷ letter (v / 2 ^ 6) ∷ letter v ∷ base64 ds
