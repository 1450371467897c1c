-- ===== src/Sim/Bookmaker/Lag.antt =====
-- sim/Bookmaker.hpp, `observe` and `lagged_view`: a ring of the last observations, read late.
use mathlib.Core.List.{append_assoc, append-nil}
use odds_engine.Base.{
  ℕ, zero, suc, ◌+◌, ◌-◌, ◌%◌, ◌^◌, ◌<◌, ◌≤◌, ◌≡◌, refl, sym, ap, subst, ◌∙◌, inl, inr, true, false,
  List, [], ◌∷◌, ◌++◌, leb, ◌==◌, if◌then◌else◌, length, length-append, get_or, arith, Bool-cases,
}
use odds_engine.Sim.{Triple}
use odds_engine.Sim.Bookmaker.{Bookmaker, max_lag, minus, observe, lagged_view}

get_or-append {ℓ} :
    {A : Type ℓ} (xs : List A) (y : A) (i : ℕ) (z : A)
    → i < length xs
    → get_or (xs ++ (y ∷ [])) i z ≡ get_or xs i z
get_or-append [] y i z h = absurd (omega arith)
get_or-append (x ∷ xs) y zero z h = refl
get_or-append (x ∷ xs) y (suc i) z h = get_or-append xs y i z (omega arith)

get_or-append_last {ℓ} :
    {A : Type ℓ} (xs : List A) (y : A) (i : ℕ) (z : A)
    → i ≡ length xs
    → get_or (xs ++ (y ∷ [])) i z ≡ y
get_or-append_last [] y zero z h = refl
get_or-append_last [] y (suc i) z h = absurd (omega arith)
get_or-append_last (x ∷ xs) y zero z h = absurd (omega arith)
get_or-append_last (x ∷ xs) y (suc i) z h = get_or-append_last xs y i z (omega arith)

module _ {G D : Type 0} where
  abbrev pub observe_all : List (Triple D) → Bookmaker G D → Bookmaker G D
  observe_all [] s = s
  observe_all (p ∷ ps) s = observe_all ps (observe p s)

  -- The ring holds the last 512 of the observations, each in its place.
  pub record Remembers (lag : ℕ) (seen : List (Triple D)) (s : Bookmaker G D) : Type 0 where
    pub idx : s.write_idx ≡ length seen
    pub lag_eq : s.cfg.lag_ticks ≡ lag
    pub held :
        (j : ℕ) (z : Triple D)
        → j < length seen
        → length seen ≤ j + max_lag
        → s.history (j % max_lag) ≡ get_or seen j z

  observe_held :
      {lag : ℕ} (p : Triple D) (seen : List (Triple D)) (s : Bookmaker G D)
      → Remembers lag seen s
      → (j : ℕ) (z : Triple D) → j < length seen + 1
      → length seen + 1 ≤ j + max_lag
      → (observe p s).history (j % max_lag) ≡ get_or (seen ++ (p ∷ [])) j z
  unfolding observe
  observe_held p seen s h j z small near = elim (Bool-cases (j == length seen)) [
    | inl last ↦
        let here : (j % max_lag == s.write_idx % max_lag) ≡ true = ground (arith, h.idx, last) in
        rw here (sym (get_or-append_last seen p j z (ground (arith, last))))
    | inr old ↦
        let apart : (j % max_lag == s.write_idx % max_lag) ≡ false = ground (arith, h.idx, old) in
        rw apart
          (h.held j z (ground arith) (omega arith) ∙ sym (get_or-append seen p j z (ground arith)))
  ]

  observe-Remembers :
      {lag : ℕ} (p : Triple D) (seen : List (Triple D)) (s : Bookmaker G D)
      → length seen + 1 < 2 ^ 64
      → Remembers lag seen s
      → Remembers lag (seen ++ (p ∷ [])) (observe p s)
  unfolding observe
  observe-Remembers p seen s small h =
      let more = length-append seen (p ∷ []) in
      record {
        idx = omega (arith, h.idx, more);
        lag_eq = h.lag_eq;
        held =
            λ j z near far. observe_held p seen s h j z (omega (arith, more)) (omega (arith, more));
      }

  observe_all-Remembers :
      {lag : ℕ} (ps seen : List (Triple D)) (s : Bookmaker G D)
      → length seen + length ps < 2 ^ 64
      → Remembers lag seen s
      → Remembers lag (seen ++ ps) (observe_all ps s)
  observe_all-Remembers {lag} [] seen s small h =
      subst (λ xs. Remembers lag xs s) (sym (append-nil seen)) h
  observe_all-Remembers {lag} (p ∷ ps) seen s small h =
      subst (λ xs. Remembers lag xs (observe_all ps (observe p s))) (append_assoc seen (p ∷ []) ps)
        (observe_all-Remembers ps (seen ++ (p ∷ [])) (observe p s)
          (omega (arith, length-append seen (p ∷ []))) (observe-Remembers p seen s (omega arith) h))

  lagged_view-Remembers :
      {lag : ℕ} (seen : List (Triple D)) (s : Bookmaker G D) (z : Triple D)
      → Remembers lag seen s
      → lag < max_lag
      → 0 < length seen
      → length seen < 2 ^ 64
      → lagged_view s ≡ get_or seen (length seen - 1 - lag) z
  unfolding lagged_view
  lagged_view-Remembers {lag} seen s z h near some_seen few =
      let place : minus (minus s.write_idx 1)
            (if leb s.write_idx s.cfg.lag_ticks then minus s.write_idx 1 else s.cfg.lag_ticks)
          ≡ length seen - 1 - lag =
        ground (arith, h.idx, h.lag_eq) in
      ap (λ i. s.history (i % max_lag)) place
      ∙ h.held (length seen - 1 - lag) z (omega arith) (omega arith)

  -- After one to 2^64 - 1 observations, a book whose lag is below 512 sees the one that was newest
  -- `lag` ticks ago, or the first one while there is none so old.
  pub lagged_view-observe_all :
      (ps : List (Triple D)) (s : Bookmaker G D) (z : Triple D)
      → s.write_idx ≡ 0
      → s.cfg.lag_ticks < max_lag
      → 0 < length ps
      → length ps < 2 ^ 64
      → lagged_view (observe_all ps s) ≡ get_or ps (length ps - 1 - s.cfg.lag_ticks) z
  lagged_view-observe_all ps s z fresh near some_seen few =
      lagged_view-Remembers ps (observe_all ps s) z
        (observe_all-Remembers ps [] s (omega arith)
          (record { idx = fresh; lag_eq = refl; held = λ j z' h k. absurd (omega arith) }))
        near some_seen few
