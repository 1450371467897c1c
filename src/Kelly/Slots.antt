-- ===== src/Kelly/Slots.antt =====
-- engine/Kelly.hpp: which outcomes are in a betting set, and the array of stakes slot by slot.
use mathlib.Core.List.{reverse, reverse-append}
use odds_engine.Base.{
  ℕ, zero, suc, ◌+◌, ◌≤◌, ◌<◌, ◌≡◌, refl, ap, ◌∙◌, Bool, true, false, ◌||◌, List, [], ◌∷◌, ◌++◌,
  ltb, ◌==◌, if◌then◌else◌, arith, take, Quad, quad, slot, set_slot,
}
use odds_engine.Kelly.{indices_from}

abbrev pub is_in : ℕ → List ℕ → Bool
is_in i [] = false
is_in i (j ∷ js) = i == j || is_in i js

pub is_in-append : (i : ℕ) (is js : List ℕ) → is_in i (is ++ js) ≡ (is_in i is || is_in i js)
is_in-append i [] js = refl
is_in-append i (j ∷ is) js = ground (arith, is_in-append i is js)

pub is_in-reverse : (i : ℕ) (is : List ℕ) → is_in i (reverse is) ≡ is_in i is
is_in-reverse i [] = refl
is_in-reverse i (j ∷ is) =
    ap (is_in i) (reverse-append (j ∷ []) is)
    ∙ is_in-append i (reverse is) (j ∷ [])
    ∙ ground (arith, is_in-reverse i is)

pub is_in-take : (i k : ℕ) (is : List ℕ) → is_in i is ≡ false → is_in i (take k is) ≡ false
is_in-take i zero is h = refl
is_in-take i (suc k) [] h = refl
is_in-take i (suc k) (j ∷ is) h = ground (arith, is_in-take i k is)

pub is_in-indices_from : (i j n : ℕ) → j + n ≤ i → is_in i (indices_from j n) ≡ false
is_in-indices_from i j zero h = refl
is_in-indices_from i j (suc n) h = ground (arith, is_in-indices_from i (j + 1) n (omega arith))

pub slot-set_slot :
    {A : Type 0} (q : Quad A) (i j : ℕ) (v : A)
    → i < 4
    → slot (set_slot q j v) i ≡ (if i == j then v else slot q i)
slot-set_slot q zero zero v h = refl
slot-set_slot q zero (suc zero) v h = refl
slot-set_slot q zero (suc (suc zero)) v h = refl
slot-set_slot q zero (suc (suc (suc zero))) v h = refl
slot-set_slot q zero (suc (suc (suc (suc j)))) v h =
    let past : (0 == suc (suc (suc (suc j)))) ≡ false = ground arith in rw past refl
slot-set_slot q (suc zero) zero v h = refl
slot-set_slot q (suc zero) (suc zero) v h = refl
slot-set_slot q (suc zero) (suc (suc zero)) v h = refl
slot-set_slot q (suc zero) (suc (suc (suc zero))) v h = refl
slot-set_slot q (suc zero) (suc (suc (suc (suc j)))) v h =
    let past : (1 == suc (suc (suc (suc j)))) ≡ false = ground arith in rw past refl
slot-set_slot q (suc (suc zero)) zero v h = refl
slot-set_slot q (suc (suc zero)) (suc zero) v h = refl
slot-set_slot q (suc (suc zero)) (suc (suc zero)) v h = refl
slot-set_slot q (suc (suc zero)) (suc (suc (suc zero))) v h = refl
slot-set_slot q (suc (suc zero)) (suc (suc (suc (suc j)))) v h =
    let past : (2 == suc (suc (suc (suc j)))) ≡ false = ground arith in rw past refl
slot-set_slot q (suc (suc (suc zero))) zero v h = refl
slot-set_slot q (suc (suc (suc zero))) (suc zero) v h = refl
slot-set_slot q (suc (suc (suc zero))) (suc (suc zero)) v h = refl
slot-set_slot q (suc (suc (suc zero))) (suc (suc (suc zero))) v h = refl
slot-set_slot q (suc (suc (suc zero))) (suc (suc (suc (suc j)))) v h =
    let past : (3 == suc (suc (suc (suc j)))) ≡ false = ground arith in rw past refl
slot-set_slot q (suc (suc (suc (suc i)))) j v h = absurd (omega arith)

pub join :
    {A : Type 0} (a b : Bool) (x y z : A)
    → (a ≡ true → y ≡ x)
    → (if b then x else (if a then y else z)) ≡ (if a || b then x else z)
join true true x y z h = refl
join true false x y z h = h refl
join false true x y z h = refl
join false false x y z h = refl

pub past_end :
    {A : Type 0} (b : Bool) (f : A → A) (x z : A)
    → (b ≡ false → x ≡ z)
    → (if b then f x else x) ≡ (if b then f x else z)
past_end true f x z h = refl
past_end false f x z h = h refl

pub past_end_twice :
    {A : Type 0} (b : Bool) (f g : A → A) (x z : A)
    → (b ≡ false → x ≡ z)
    → (if b then g (if b then f x else x) else (if b then f x else x)) ≡ (if b then g (f x) else z)
past_end_twice true f g x z h = refl
past_end_twice false f g x z h = h refl

-- A multiplied array, slot by slot.
unfoldable pub scale_slots : {A : Type 0} → ℕ → (A → A) → Quad A → Quad A
scale_slots n f q =
    quad (if ltb 0 n then f q.s0 else q.s0) (if ltb 1 n then f q.s1 else q.s1)
      (if ltb 2 n then f q.s2 else q.s2) (if ltb 3 n then f q.s3 else q.s3)
