-- ===== src/Kelly/Order.antt =====
-- engine/Kelly.hpp, the insertion sort: a permutation of the outcomes, by falling revenue rate.
use mathlib.Core.List.{
  reverse, reverse-append, reverse_perm, append_assoc, append-nil, Perm, perm_middle,
}
use mathlib.Core.List.Perm
use odds_engine.Base.{
  ℕ, zero, suc, ◌+◌, ◌≡◌, refl, ap, ◌∙◌, false, List, [], ◌∷◌, ◌++◌, arith, length, length-append,
  inl, inr, Bool-cases,
}
use odds_engine.Float.{Double, IsOrdered}
use odds_engine.Kelly.{edge, insert_key, insert_keys, order, indices_from}

length-reverse_all : (xs : List ℕ) → length (reverse xs) ≡ length xs
length-reverse_all [] = refl
length-reverse_all (x ∷ xs) =
    ap length (reverse-append (x ∷ []) xs)
    ∙ omega (arith, length-append (reverse xs) (x ∷ []), length-reverse_all xs)

length-indices_from : (i n : ℕ) → length (indices_from i n) ≡ n
length-indices_from i zero = refl
length-indices_from i (suc n) = ap suc (length-indices_from (i + 1) n)

module _ {D : Type 0} ⦃d : Double D⦄ (fair odds : List D) where
  open d use {lt}

  insert_key-perm : (key : ℕ) (rs : List ℕ) → Perm (insert_key fair odds key rs) (key ∷ rs)
  unfolding insert_key
  insert_key-perm key [] = Perm.refl _
  insert_key-perm key (r ∷ rs) = elim (Bool-cases (lt (edge fair odds r) (edge fair odds key))) [
    | inl c ↦ rw c (Perm.trans (Perm.cons r (insert_key-perm key rs)) (Perm.swap key r rs))
    | inr c ↦ rw c (Perm.refl _)
  ]

  insert_keys-perm :
      (keys sorted : List ℕ) → Perm (insert_keys fair odds keys sorted) (keys ++ sorted)
  unfolding insert_keys
  insert_keys-perm [] sorted = Perm.refl _
  insert_keys-perm (key ∷ keys) sorted =
      Perm.trans (insert_keys-perm keys (insert_key fair odds key sorted))
        (Perm.trans (Perm.append_left keys (insert_key-perm key sorted)) (perm_middle keys sorted))

  -- Each element is in the relation to the next.
  abbrev pub ChainFrom : (ℕ → ℕ → Type 0) → ℕ → List ℕ → Type 0
  ChainFrom P x [] = Unit
  ChainFrom P x (y ∷ ys) = P x y × ChainFrom P y ys

  abbrev pub Chain : (ℕ → ℕ → Type 0) → List ℕ → Type 0
  Chain P [] = Unit
  Chain P (x ∷ xs) = ChainFrom P x xs

  -- An outcome does not stand before one of a greater revenue rate.
  abbrev pub NotBelow : ℕ → ℕ → Type 0
  NotBelow i j = lt (edge fair odds i) (edge fair odds j) ≡ false

  abbrev NotAbove : ℕ → ℕ → Type 0
  NotAbove i j = NotBelow j i

  reverse-Chain :
      (xs : List ℕ) (x : ℕ) (zs : List ℕ)
      → ChainFrom NotAbove x xs
      → ChainFrom NotBelow x zs
      → Chain NotBelow (reverse xs ++ (x ∷ zs))
  reverse-Chain [] x zs c d = d
  reverse-Chain (y ∷ xs) x zs (p, c) d =
      rw (reverse-append (y ∷ []) xs, append_assoc (reverse xs) (y ∷ []) (x ∷ zs))
        (reverse-Chain xs y (x ∷ zs) c (p, d))

  module _ (ordered : IsOrdered D) where
    open ordered use {lt_asymm}

    insert_key-ChainFrom :
        (key x : ℕ) (rs : List ℕ)
        → ChainFrom NotAbove x rs
        → NotAbove x key
        → ChainFrom NotAbove x (insert_key fair odds key rs)
    unfolding insert_key
    insert_key-ChainFrom key x [] c h = (h, tt)
    insert_key-ChainFrom key x (r ∷ rs) (p, c) h =
        elim (Bool-cases (lt (edge fair odds r) (edge fair odds key))) [
          | inl less ↦ rw less (p, insert_key-ChainFrom key r rs c (lt_asymm _ _ less))
          | inr more ↦ rw more (h, (more, c))
        ]

    insert_key-Chain :
        (key : ℕ) (rs : List ℕ) → Chain NotAbove rs → Chain NotAbove (insert_key fair odds key rs)
    unfolding insert_key
    insert_key-Chain key [] c = tt
    insert_key-Chain key (r ∷ rs) c =
        elim (Bool-cases (lt (edge fair odds r) (edge fair odds key))) [
          | inl less ↦ rw less (insert_key-ChainFrom key r rs c (lt_asymm _ _ less))
          | inr more ↦ rw more (more, c)
        ]

    insert_keys-Chain :
        (keys sorted : List ℕ)
        → Chain NotAbove sorted
        → Chain NotAbove (insert_keys fair odds keys sorted)
    unfolding insert_keys
    insert_keys-Chain [] sorted c = c
    insert_keys-Chain (key ∷ keys) sorted c =
        insert_keys-Chain keys (insert_key fair odds key sorted) (insert_key-Chain key sorted c)

    reverse_all-Chain : (xs : List ℕ) → Chain NotAbove xs → Chain NotBelow (reverse xs)
    reverse_all-Chain [] c = tt
    reverse_all-Chain (x ∷ xs) c = rw (reverse-append (x ∷ []) xs) (reverse-Chain xs x [] c tt)

    -- The order that the allocator works in holds every outcome once, and no outcome in it stands
    -- directly before one of a greater revenue rate; NaN rates compare as the machine compares them.
    pub order-sorted :
        Perm (order fair odds) (indices_from 0 (length fair)) × Chain NotBelow (order fair odds)
    unfolding order
    order-sorted = (
      Perm.trans (reverse_perm (insert_keys fair odds (indices_from 0 (length fair)) []))
          (rw append-nil at (insert_keys-perm (indices_from 0 (length fair)) [])),
      reverse_all-Chain _ (insert_keys-Chain (indices_from 0 (length fair)) [] tt),
    )

  length-insert_key :
      (key : ℕ) (rs : List ℕ) → length (insert_key fair odds key rs) ≡ suc (length rs)
  unfolding insert_key
  length-insert_key key [] = refl
  length-insert_key key (r ∷ rs) = ground (arith, length-insert_key key rs)

  length-insert_keys :
      (keys sorted : List ℕ)
      → length (insert_keys fair odds keys sorted) ≡ length keys + length sorted
  unfolding insert_keys
  length-insert_keys [] sorted = omega arith
  length-insert_keys (key ∷ keys) sorted = omega (
    arith,
    length-insert_keys keys (insert_key fair odds key sorted),
    length-insert_key key sorted,
  )

  pub length-order : length (order fair odds) ≡ length fair
  unfolding order
  length-order = omega (
    arith,
    length-reverse_all (insert_keys fair odds (indices_from 0 (length fair)) []),
    length-insert_keys (indices_from 0 (length fair)) [],
    length-indices_from 0 (length fair),
  )
