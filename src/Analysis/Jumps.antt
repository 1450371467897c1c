-- ===== src/Analysis/Jumps.antt =====
-- analytics/analyze_bets.cpp, `ticks_since_jump`: the distance to the newest jump.
use odds_engine.Base.{
  ℕ, ◌-◌, ◌≤◌, ◌<◌, ◌≡◌, refl, sym, ap, subst, ◌∙◌, ◌⊎◌, inl, inr, ltb, if◌then◌else◌, Option, none,
  some, List, [], ◌∷◌, All, All-imp, arith, Bool-cases,
}
use odds_engine.Sim.Generate.{JumpRecord}
use odds_engine.Analysis.{
  distance, last_until, ticks_since_jump, jumps_of, insert, sort, sorted_jumps,
}

-- Not descending.
abbrev pub IsSorted : List ℕ → Type 0
IsSorted [] = Unit
IsSorted (j ∷ js) = All (λ k. j ≤ k) js × IsSorted js

abbrev pub Occurs : ℕ → List ℕ → Type 0
Occurs j [] = ⊥
Occurs j (k ∷ ks) = (j ≡ k) ⊎ Occurs j ks

-- Each of the jumps is after the tick, or not after j.
abbrev pub NoneBetween : ℕ → ℕ → List ℕ → Type 0
NoneBetween j tick jt = All (λ k. (tick < k) ⊎ (k ≤ j)) jt

-- -1 where every jump is after the tick, and else the distance to a jump that is not, with no other
-- jump in between.
abbrev pub IsDistance : List ℕ → ℕ → Option ℕ → Type 0
IsDistance jt tick none = All (λ k. tick < k) jt
IsDistance jt tick (some t) =
    (j : ℕ) × Occurs j jt × (j ≤ tick) × (t ≡ tick - j) × NoneBetween j tick jt

-- Where the search stops behind a jump that is not after the tick.
abbrev Stops : ℕ → ℕ → List ℕ → Type 0
Stops tick before jt =
    (j : ℕ) × (last_until tick (some before) jt ≡ some j)
    × ((j ≡ before) ⊎ Occurs j jt)
    × (j ≤ tick)
    × (before ≤ j)
    × NoneBetween j tick jt

last_until-Stops :
    (tick before : ℕ) (jt : List ℕ) → IsSorted (before ∷ jt) → before ≤ tick → Stops tick before jt
unfolding last_until
last_until-Stops tick before [] h b = (before, refl, inl refl, b, omega arith, tt)
last_until-Stops tick before (k ∷ ks) ((up, _), (least, h)) b = elim (Bool-cases (ltb tick k)) [
  | inl after ↦ (
    before,
    ap (λ c. if c then some before else last_until tick (some k) ks) after,
    inl refl,
    b,
    omega arith,
    (inl (ground (arith, after)), All-imp ks (λ k' l. inl (ground (arith, after, l))) least),
  )
  | inr here ↦
      let (j, e, from, b', up', rest) =
        last_until-Stops tick k ks (least, h) (ground (arith, here)) in
      (
        j,
        ap (λ c. if c then some before else last_until tick (some k) ks) here ∙ e,
        inr from,
        b',
        omega (arith, up, up'),
        (inr up', rest),
      )
]

-- On jumps in order, `ticks_since_jump` is -1 where every jump is after the tick, and else the
-- distance from the newest jump that is not after it.
pub ticks_since_jump-IsDistance :
    (jt : List ℕ) (tick : ℕ) → IsSorted jt → IsDistance jt tick (ticks_since_jump jt tick)
unfolding ticks_since_jump last_until
ticks_since_jump-IsDistance [] tick h = tt
ticks_since_jump-IsDistance (k ∷ ks) tick (least, h) = elim (Bool-cases (ltb tick k)) [
  | inl after ↦
      let all_after : All (λ k'. tick < k') (k ∷ ks) =
        (ground (arith, after), All-imp ks (λ k' l. ground (arith, after, l)) least) in
      subst (λ o. IsDistance (k ∷ ks) tick (distance tick o))
        (sym (ap (λ c. if c then none else last_until tick (some k) ks) after)) all_after
  | inr here ↦
      let (j, e, from, b, up, rest) =
        last_until-Stops tick k ks (least, h) (ground (arith, here)) in
      subst (λ o. IsDistance (k ∷ ks) tick (distance tick o))
        (sym (ap (λ c. if c then none else last_until tick (some k) ks) here ∙ e))
        (j, from, b, refl, (inr up, rest))
]

module _ (P : ℕ → Type 0) where
  All-insert : (j : ℕ) (ks : List ℕ) → P j → All P ks → All P (insert j ks)
  unfolding insert
  All-insert j [] p ps = (p, tt)
  All-insert j (k ∷ ks) p (q, qs) = elim (Bool-cases (ltb k j)) [
    | inl later ↦ rw later (q, All-insert j ks p qs)
    | inr here ↦ rw here (p, (q, qs))
  ]

  All-of_insert : (j : ℕ) (ks : List ℕ) → All P (insert j ks) → P j × All P ks
  unfolding insert
  All-of_insert j [] (p, ps) = (p, tt)
  All-of_insert j (k ∷ ks) h = elim (Bool-cases (ltb k j)) [
    | inl later ↦
        let (q, rest) = subst (λ c. All P (if c then k ∷ insert j ks else j ∷ k ∷ ks)) later h in
        let (p, qs) = All-of_insert j ks rest in (p, (q, qs))
    | inr here ↦ subst (λ c. All P (if c then k ∷ insert j ks else j ∷ k ∷ ks)) here h
  ]

  All-of_sort : (js : List ℕ) → All P (sort js) → All P js
  unfolding sort
  All-of_sort [] h = tt
  All-of_sort (j ∷ js) h = let (p, ps) = All-of_insert j (sort js) h in (p, All-of_sort js ps)

insert-IsSorted : (j : ℕ) (ks : List ℕ) → IsSorted ks → IsSorted (insert j ks)
unfolding insert
insert-IsSorted j [] h = (tt, tt)
insert-IsSorted j (k ∷ ks) (least, h) = elim (Bool-cases (ltb k j)) [
  | inl later ↦ rw later (All-insert _ j ks (ground (arith, later)) least, insert-IsSorted j ks h)
  | inr here ↦
      let le : j ≤ k = ground (arith, here) in
      rw here ((le, All-imp ks (λ k' l. omega (arith, le, l)) least), (least, h))
]

sort-IsSorted : (js : List ℕ) → IsSorted (sort js)
unfolding sort
sort-IsSorted [] = tt
sort-IsSorted (j ∷ js) = insert-IsSorted j (sort js) (sort-IsSorted js)

Occurs-of_insert : (i j : ℕ) (ks : List ℕ) → Occurs i (insert j ks) → (i ≡ j) ⊎ Occurs i ks
unfolding insert
Occurs-of_insert i j [] h = h
Occurs-of_insert i j (k ∷ ks) h = elim (Bool-cases (ltb k j)) [
  | inl later ↦ elim (subst (λ c. Occurs i (if c then k ∷ insert j ks else j ∷ k ∷ ks)) later h) [
    | inl e ↦ inr (inl e)
    | inr rest ↦ elim (Occurs-of_insert i j ks rest) [ inl e ↦ inl e | inr o ↦ inr (inr o) ]
  ]
  | inr here ↦ subst (λ c. Occurs i (if c then k ∷ insert j ks else j ∷ k ∷ ks)) here h
]

Occurs-of_sort : (i : ℕ) (js : List ℕ) → Occurs i (sort js) → Occurs i js
unfolding sort
Occurs-of_sort i [] h = h
Occurs-of_sort i (j ∷ js) h = elim (Occurs-of_insert i j (sort js) h) [
  | inl e ↦ inl e
  | inr o ↦ inr (Occurs-of_sort i js o)
]

-- What the order of the jumps does not matter to.
IsDistance-of_sort :
    (js : List ℕ) (tick : ℕ) (t : Option ℕ) → IsDistance (sort js) tick t → IsDistance js tick t
IsDistance-of_sort js tick none h = All-of_sort _ js h
IsDistance-of_sort js tick (some t) (j, o, b, e, between) =
    (j, Occurs-of_sort j js o, b, e, All-of_sort _ js between)

-- Of the jumps of a file in any order, the search in the sorted ticks of a market gives -1 where each
-- of its jumps is after the tick, and else the distance from the newest of them that is not after it.
pub sorted_jumps-IsDistance :
    (markets : ℕ) (rs : List JumpRecord) (m tick : ℕ)
    → IsDistance (jumps_of markets rs m) tick (ticks_since_jump (sorted_jumps markets rs m) tick)
unfolding sorted_jumps
sorted_jumps-IsDistance markets rs m tick =
    let js = jumps_of markets rs m in
    IsDistance-of_sort js tick (ticks_since_jump (sort js) tick)
      (ticks_since_jump-IsDistance (sort js) tick (sort-IsSorted js))
