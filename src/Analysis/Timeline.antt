-- ===== src/Analysis/Timeline.antt =====
-- analytics/analyze_bets.cpp: the reading of the files of sim/JumpSink.hpp and sim/SettlementSink.hpp,
-- and that it gives what those wrote. A sequence of `fread` calls is a function of the bytes ahead.
use odds_engine.Base.{
  ℕ, zero, suc, ◌^◌, ◌<◌, ◌≤◌, ◌≡◌, refl, sym, ap, ◌∙◌, Bool, true, false, Option, none, some, List,
  [], ◌∷◌, ◌++◌, ltb, ◌==◌, if◌then◌else◌, length, drop, get_or, All, arith, length-append,
  drop-append_of_length,
}
use mathlib.Core.List.{append_assoc, append-nil}
use odds_engine.Base.Bytes.{Bytes, Fits, encode, decode-encode, length-encode}
use odds_engine.Session.{◌>>=◌}
use odds_engine.Sim.Generate.{JumpRecord, SettlementRecord}
use odds_engine.Sim.Timeline.{
  jump_magic, jump_version, settlement_magic, settlement_version, jump_record_size,
  settlement_record_size, timeline_header_size, timeline_fields, encode_timeline, decode_magic,
  jump_fields, jump_of, encode_jump, decode_jump, settlement_fields, settlement_of,
  encode_settlement, decode_settlement, write, write_each, jump_file, settlement_file,
}

module _ {A : Type 0} (size : ℕ) (decode_record : Bytes → A) where
  -- The loop of `fread`, up to a call that does not fill a record; no file has more records than bytes.
  unfoldable pub read_records : ℕ → Bytes → List A
  read_records zero bs = []
  read_records (suc fuel) bs =
      let rest = read_records fuel (drop size bs) in
      if ltb (length bs) size then [] else decode_record bs ∷ rest

  -- none is an exception: a header that is too short, or another magic number.
  unfoldable pub read_timeline : ℕ → Bytes → Option (List A)
  read_timeline magic file =
      let rest = drop timeline_header_size file in
      if ltb (length file) timeline_header_size
      then none
      else if decode_magic file == magic
      then some (read_records (length rest) rest)
      else none

abbrev pub read_jump_file : Bytes → Option (List JumpRecord)
read_jump_file file = read_timeline jump_record_size decode_jump jump_magic file

abbrev pub read_settlement_file : Bytes → Option (List SettlementRecord)
read_settlement_file file =
    read_timeline settlement_record_size decode_settlement settlement_magic file

-- The records of a file, one after another.
abbrev images : {A : Type 0} → (A → Bytes) → List A → Bytes
images image [] = []
images image (r ∷ rs) = image r ++ images image rs

write_each-images :
    {A : Type 0} (write_ok : Bytes → Bool) (image : A → Bytes) (rs : List A) (file : Bytes)
    → ((bs : Bytes) → write_ok bs ≡ true)
    → write_each write_ok image rs file ≡ some (file ++ images image rs)
unfolding write_each write
write_each-images write_ok image [] file all_ok = ap some (sym (append-nil file))
write_each-images write_ok image (r ∷ rs) file all_ok =
    ap (λ b. (if b then some (file ++ image r) else none) >>= write_each write_ok image rs)
      (all_ok (image r))
    ∙ write_each-images write_ok image rs (file ++ image r) all_ok
    ∙ ap some (append_assoc file (image r) (images image rs))

module _ {A : Type 0} (size : ℕ) (decode_record : Bytes → A) (image : A → Bytes) (Good : A → Type 0)
    (some_byte : 0 < size) (sized : (r : A) → length (image r) ≡ size)
    (back : (r : A) (rest : Bytes) → Good r → decode_record (image r ++ rest) ≡ r) where
  read_records-images :
      (fuel : ℕ) (rs : List A)
      → All Good rs
      → length (images image rs) ≤ fuel
      → read_records size decode_record fuel (images image rs) ≡ rs
  unfolding read_records
  read_records-images zero [] good enough = refl
  read_records-images zero (r ∷ rs) good enough =
      absurd (omega (arith, length-append (image r) (images image rs), sized r))
  read_records-images (suc fuel) [] good enough =
      let short : ltb 0 size ≡ true = ground arith in rw short refl
  read_records-images (suc fuel) (r ∷ rs) (good, goods) enough =
      let tail = images image rs in
      let whole : ltb (length (image r ++ tail)) size ≡ false =
        ground (arith, length-append (image r) tail, sized r) in
      let left = drop-append_of_length size (image r) tail (sized r) in
      let fits : length tail ≤ fuel = omega (arith, length-append (image r) tail, sized r) in
      rw (whole, left, back r tail good, read_records-images fuel rs goods fits) refl

  read_timeline-images :
      (magic version seed markets : ℕ) (rs : List A)
      → All Fits (timeline_fields magic version seed markets)
      → All Good rs
      → read_timeline size decode_record magic
          (encode_timeline magic version seed markets ++ images image rs)
        ≡ some rs
  unfolding read_timeline encode_timeline decode_magic
  read_timeline-images magic version seed markets rs fits good =
      let head = timeline_fields magic version seed markets in
      let tail = images image rs in
      let sized_head = length-encode head in
      let whole : ltb (length (encode head ++ tail)) timeline_header_size ≡ false =
        ground (arith, length-append (encode head) tail, sized_head) in
      let left = drop-append_of_length timeline_header_size (encode head) tail sized_head in
      let got = ap (λ vs. get_or vs 0 0) (decode-encode head tail fits) in
      let same : (magic == magic) ≡ true = ground arith in
      rw (whole, left, got, same, read_records-images (length tail) rs good (omega arith)) refl

abbrev pub IsJump : JumpRecord → Type 0
IsJump r = All Fits (jump_fields r)

abbrev pub IsSettlement : SettlementRecord → Type 0
IsSettlement r = All Fits (settlement_fields r)

-- On a disk that takes every write, the jumps that the simulator records are a file, and the analysis
-- reads them back from it in order.
pub read_jump_file-jump_file :
    (write_ok : Bytes → Bool) (seed markets : ℕ) (rs : List JumpRecord)
    → ((bs : Bytes) → write_ok bs ≡ true)
    → seed < 2 ^ 64
    → markets < 2 ^ 32
    → All IsJump rs
    → (file : Bytes) × (jump_file write_ok seed markets rs ≡ some file)
      × (read_jump_file file ≡ some rs)
unfolding jump_file write encode_jump decode_jump
read_jump_file-jump_file write_ok seed markets rs all_ok s m good =
    let head = encode_timeline jump_magic jump_version seed markets in
    (
      head ++ images encode_jump rs,
      ap (λ b. (if b then some head else none) >>= write_each write_ok encode_jump rs) (all_ok head)
          ∙ write_each-images write_ok encode_jump rs head all_ok,
      read_timeline-images jump_record_size decode_jump encode_jump IsJump (omega arith)
          (λ r. length-encode (jump_fields r))
          (λ r rest fits. ap jump_of (decode-encode (jump_fields r) rest fits)) jump_magic
          jump_version seed markets rs
          (
            omega arith,
            (omega arith, (omega arith, (omega arith, (omega arith, (omega arith, tt))))),
          )
          good,
    )

-- The same of the winners.
pub read_settlement_file-settlement_file :
    (write_ok : Bytes → Bool) (seed markets : ℕ) (rs : List SettlementRecord)
    → ((bs : Bytes) → write_ok bs ≡ true)
    → seed < 2 ^ 64
    → markets < 2 ^ 32
    → All IsSettlement rs
    → (file : Bytes) × (settlement_file write_ok seed markets rs ≡ some file)
      × (read_settlement_file file ≡ some rs)
unfolding settlement_file write encode_settlement decode_settlement
read_settlement_file-settlement_file write_ok seed markets rs all_ok s m good =
    let head = encode_timeline settlement_magic settlement_version seed markets in
    (
      head ++ images encode_settlement rs,
      ap (λ b. (if b then some head else none) >>= write_each write_ok encode_settlement rs)
            (all_ok head)
          ∙ write_each-images write_ok encode_settlement rs head all_ok,
      read_timeline-images settlement_record_size decode_settlement encode_settlement IsSettlement
          (omega arith) (λ r. length-encode (settlement_fields r))
          (λ r rest fits. ap settlement_of (decode-encode (settlement_fields r) rest fits))
          settlement_magic settlement_version seed markets rs
          (
            omega arith,
            (omega arith, (omega arith, (omega arith, (omega arith, (omega arith, tt))))),
          )
          good,
    )
