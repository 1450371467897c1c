-- ===== src/Base/Bytes.antt =====
-- Structs as they stand in memory on the little-endian machines the program runs on: a layout is a
-- list of fields, each a width in bytes and a value.
use native.Mathlib.Nat.{pow-suc}
use mathlib.Core.List.{append_assoc}
use odds_engine.Base.{
  ℕ, zero, suc, ◌+◌, ◌*◌, ◌/◌, ◌%◌, ◌^◌, ◌<◌, ◌≡◌, refl, ap, List, [], ◌∷◌, ◌++◌, map, arith,
  length, take, drop, All, length-append,
}

abbrev pub Bytes : Type 0
Bytes = List ℕ

unfoldable pub le_bytes : ℕ → ℕ → Bytes
le_bytes zero v = []
le_bytes (suc k) v = (v % 256) ∷ le_bytes k (v / 256)

pub of_le : Bytes → ℕ
of_le [] = 0
of_le (b ∷ bs) = b + 256 * of_le bs

abbrev pub Field : Type 0
Field = ℕ × ℕ

abbrev pub width : Field → ℕ
width f = f.0

abbrev pub value : Field → ℕ
value f = f.1

unfoldable pub encode : List Field → Bytes
unfolding le_bytes
encode [] = []
encode (f ∷ fs) = le_bytes (width f) (value f) ++ encode fs

-- `memcpy` out of a buffer, field by field.
unfoldable pub decode : List ℕ → Bytes → List ℕ
unfolding of_le
decode [] bs = []
decode (w ∷ ws) bs = of_le (take w bs) ∷ decode ws (drop w bs)

abbrev pub Fits : Field → Type 0
Fits f = value f < 256 ^ width f

abbrev pub total_width : List ℕ → ℕ
total_width [] = 0
total_width (w ∷ ws) = w + total_width ws

pub length-le_bytes : (k v : ℕ) → length (le_bytes k v) ≡ k
unfolding le_bytes
length-le_bytes zero v = refl
length-le_bytes (suc k) v = ap suc (length-le_bytes k (v / 256))

pub le_bytes-are_bytes : (k v : ℕ) → All (λ b. b < 256) (le_bytes k v)
unfolding le_bytes
le_bytes-are_bytes zero v = tt
le_bytes-are_bytes (suc k) v = (omega arith, le_bytes-are_bytes k (v / 256))

pub of_le-le_bytes : (k v : ℕ) → v < 256 ^ k → of_le (le_bytes k v) ≡ v
unfolding le_bytes of_le
of_le-le_bytes zero v h = omega arith
of_le-le_bytes (suc k) v h =
    let small : v / 256 < 256 ^ k = omega (arith, pow-suc 256 k) in
    omega (arith, of_le-le_bytes k (v / 256) small)

take-le_bytes : (k v : ℕ) (rest : Bytes) → take k (le_bytes k v ++ rest) ≡ le_bytes k v
unfolding le_bytes
take-le_bytes zero v rest = refl
take-le_bytes (suc k) v rest = ap (◌∷◌ (v % 256)) (take-le_bytes k (v / 256) rest)

drop-le_bytes : (k v : ℕ) (rest : Bytes) → drop k (le_bytes k v ++ rest) ≡ rest
unfolding le_bytes
drop-le_bytes zero v rest = refl
drop-le_bytes (suc k) v rest = drop-le_bytes k (v / 256) rest

pub length-encode : (fs : List Field) → length (encode fs) ≡ total_width (map width fs)
unfolding encode
length-encode [] = refl
length-encode ((w, v) ∷ fs) =
    omega (arith, length-append (le_bytes w v) (encode fs), length-le_bytes w v, length-encode fs)

-- What a sender lays out, a receiver that copies it out by the same widths gets back.
pub decode-encode :
    (fs : List Field) (rest : Bytes)
    → All Fits fs
    → decode (map width fs) (encode fs ++ rest) ≡ map value fs
unfolding encode decode
decode-encode [] rest h = refl
decode-encode ((w, v) ∷ fs) rest (h, hs) = rw (
  append_assoc (le_bytes w v) (encode fs) rest,
  take-le_bytes w v (encode fs ++ rest),
  drop-le_bytes w v (encode fs ++ rest),
  of_le-le_bytes w v h,
  decode-encode fs rest hs,
)
