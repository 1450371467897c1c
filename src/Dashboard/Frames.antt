-- ===== src/Dashboard/Frames.antt =====
-- engine/WsServer.hpp: a whole text frame of a client is decoded to the text that was masked into it.
use Prim.Native.Nat.{bit_xor}
use mathlib.Core.List.{append_assoc}
use odds_engine.Base.{
  ℕ, zero, suc, ◌+◌, ◌%◌, ◌<◌, ◌≡◌, refl, ap, ◌∙◌, Bool, true, false, ◌&&◌, [], ◌∷◌, ◌++◌, ltb, leb,
  ◌==◌, ==_iff, length, get_or, take, drop, All, arith, length-append, take-append_of_length,
  drop-append_of_length, drop-add,
}
use odds_engine.Base.Bytes.{Bytes}
use odds_engine.Dashboard.{scan, scan_body, unmask, frame, max_frame_payload}

all_below : ℕ → (ℕ → Bool) → Bool
all_below zero p = true
all_below (suc n) p = let rest = all_below n p in p n && rest

all_below_lem : (n : ℕ) (p : ℕ → Bool) (x : ℕ) → all_below n p ≡ true → x < n → p x ≡ true
unfolding all_below
all_below_lem zero p x h lt = absurd (omega arith)
all_below_lem (suc n) p x h lt = ground (arith, all_below_lem n p x)

table : all_below 256 (λ a. all_below 256 (λ b. bit_xor (bit_xor a b) b == a)) ≡ true
unfolding all_below
table = refl

-- A byte that is masked twice is the byte.
bit_xor_twice : (a b : ℕ) → a < 256 → b < 256 → bit_xor (bit_xor a b) b ≡ a
bit_xor_twice a b ha hb = (==_iff _ a).0 (
    all_below_lem 256 (λ b. bit_xor (bit_xor a b) b == a) b
      (all_below_lem 256 (λ a. all_below 256 (λ b. bit_xor (bit_xor a b) b == a)) a table ha) hb)

abbrev pub AreBytes : Bytes → Type 0
AreBytes bs = All (λ b. b < 256) bs

get_or_byte : (bs : Bytes) (i : ℕ) → AreBytes bs → get_or bs i 0 < 256
get_or_byte [] i h = omega arith
get_or_byte (b ∷ bs) zero (h, hs) = h
get_or_byte (b ∷ bs) (suc i) (h, hs) = get_or_byte bs i hs

unmask_twice :
    (mask : Bytes) (i : ℕ) (ps : Bytes)
    → AreBytes mask
    → AreBytes ps
    → unmask mask i (unmask mask i ps) ≡ ps
unfolding unmask
unmask_twice mask i [] h hs = refl
unmask_twice mask i (p ∷ ps) h (hp, hs) =
    ap (◌∷ unmask mask (i + 1) (unmask mask (i + 1) ps))
      (bit_xor_twice p (get_or mask (i % 4) 0) hp (get_or_byte mask (i % 4) h))
    ∙ ap (◌∷◌ p) (unmask_twice mask (i + 1) ps h hs)

pub length-unmask : (mask : Bytes) (i : ℕ) (ps : Bytes) → length (unmask mask i ps) ≡ length ps
unfolding unmask
length-unmask mask i [] = refl
length-unmask mask i (p ∷ ps) = omega (arith, length-unmask mask (i + 1) ps)

-- RFC 6455, 5.2: a final text frame of fewer than 126 bytes, masked.
abbrev pub client_frame : Bytes → Bytes → Bytes
client_frame mask text = 129 ∷ (128 + length text) ∷ (mask ++ unmask mask 0 text)

scan_body-client_frame :
    (mask text rest : Bytes)
    → length mask ≡ 4
    → length text < 126
    → AreBytes mask
    → AreBytes text
    → scan_body (client_frame mask text ++ rest) (length text) 2 ≡ frame 1 text rest
unfolding scan_body
scan_body-client_frame mask text rest four short hm ht =
    let masked = unmask mask 0 text in
    let tail = masked ++ rest in
    let s = client_frame mask text ++ rest in
    let n = length text in
    let same : length masked ≡ n = length-unmask mask 0 text in
    let shape : (mask ++ masked) ++ rest ≡ mask ++ tail = append_assoc mask masked rest in
    let size : length s ≡ 2 + (4 + (n + length rest)) =
      omega (arith, length-append (mask ++ masked) rest, length-append mask masked, four, same) in
    let small : ltb max_frame_payload n ≡ false = ground arith in
    let marked : leb 128 (128 + n) ≡ true = ground arith in
    let has_mask : ltb (length s) (2 + 4) ≡ false = ground (arith, size) in
    let has_all : ltb (length s) (2 + 4 + n) ≡ false = ground (arith, size) in
    let the_mask : take 4 (drop 2 s) ≡ mask =
      ap (take 4) shape ∙ take-append_of_length 4 mask tail four in
    let behind : drop (2 + 4) s ≡ tail =
      ap (drop 4) shape ∙ drop-append_of_length 4 mask tail four in
    let body : take n (drop (2 + 4) s) ≡ masked =
      ap (take n) behind ∙ take-append_of_length n masked rest same in
    let left : drop (2 + 4 + n) s ≡ rest =
      drop-add 6 n s ∙ ap (drop n) behind ∙ drop-append_of_length n masked rest same in
    rw (small, marked, has_mask, has_all, the_mask, body, left)
      (ap (λ t. frame 1 t rest) (unmask_twice mask 0 text hm ht))

pub scan-client_frame :
    (mask text rest : Bytes)
    → length mask ≡ 4
    → length text < 126
    → AreBytes mask
    → AreBytes text
    → scan (client_frame mask text ++ rest) ≡ frame 1 text rest
unfolding scan
scan-client_frame mask text rest four short hm ht =
    let n = length text in
    let s = client_frame mask text ++ rest in
    let two : ltb (length s) 2 ≡ false = ground arith in
    let len : (128 + n) % 128 ≡ n = omega arith in
    let short1 : (n == 126) ≡ false = ground arith in
    let short2 : (n == 127) ≡ false = ground arith in
    rw (two, len, short1, short2) (scan_body-client_frame mask text rest four short hm ht)
