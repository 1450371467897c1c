-- ===== src/Base/Slots.antt =====
-- `std::array<T, 4>`: the four outcome slots of a market, and loops over the first `n` of them.
use Prim.Native.Nat.{ℕ, zero, suc}
use mathlib.Core.Path.{◌≡◌}
use mathlib.Core.List.{List, [], ◌∷◌}

pub record Quad {ℓ} (A : Type ℓ) : Type ℓ where
  pub s0 : A
  pub s1 : A
  pub s2 : A
  pub s3 : A

module _ {ℓ} {A : Type ℓ} where
  abbrev pub quad : A → A → A → A → Quad A
  quad a b c d = record { s0 = a; s1 = b; s2 = c; s3 = d }

  abbrev pub splat : A → Quad A
  splat a = quad a a a a

  -- The slot with the given index; an index past the end reads the last slot.
  abbrev pub slot : Quad A → ℕ → A
  slot q zero = q.s0
  slot q (suc zero) = q.s1
  slot q (suc (suc zero)) = q.s2
  slot q _ = q.s3

  -- A write past the end changes nothing.
  abbrev pub set_slot : Quad A → ℕ → A → Quad A
  set_slot q zero v = record q { s0 = v }
  set_slot q (suc zero) v = record q { s1 = v }
  set_slot q (suc (suc zero)) v = record q { s2 = v }
  set_slot q (suc (suc (suc zero))) v = record q { s3 = v }
  set_slot q _ v = q

  abbrev pub slots : Quad A → List A
  slots q = q.s0 ∷ q.s1 ∷ q.s2 ∷ q.s3 ∷ []

  -- `std::span(q.data(), n)`, for n up to 4.
  abbrev pub prefix : ℕ → Quad A → List A
  prefix zero q = []
  prefix (suc zero) q = q.s0 ∷ []
  prefix (suc (suc zero)) q = q.s0 ∷ q.s1 ∷ []
  prefix (suc (suc (suc zero))) q = q.s0 ∷ q.s1 ∷ q.s2 ∷ []
  prefix _ q = slots q

module _ {ℓ κ} {A : Type ℓ} {B : Type κ} where
  -- `for (i < n) out[i] = f(out[i], a[i])`, for n up to 4; the other slots keep `z`.
  abbrev pub zip_prefix : ℕ → (A → B → A) → Quad A → Quad B → Quad A
  zip_prefix zero f z q = z
  zip_prefix (suc zero) f z q = record z { s0 = f z.s0 q.s0 }
  zip_prefix (suc (suc zero)) f z q = record z { s0 = f z.s0 q.s0; s1 = f z.s1 q.s1 }
  zip_prefix (suc (suc (suc zero))) f z q = record z {
    s0 = f z.s0 q.s0;
    s1 = f z.s1 q.s1;
    s2 = f z.s2 q.s2;
  }
  zip_prefix _ f z q = quad (f z.s0 q.s0) (f z.s1 q.s1) (f z.s2 q.s2) (f z.s3 q.s3)

pub same_quad :
    {A : Type 0} {a b c d a' b' c' d' : A}
    → a ≡ a'
    → b ≡ b'
    → c ≡ c'
    → d ≡ d'
    → quad a b c d ≡ quad a' b' c' d'
same_quad p q r s = cc
