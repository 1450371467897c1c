-- ===== src/Sim/Target.antt =====
-- sim/main.cpp, `split_host_port`: which texts are a target.
use odds_engine.Base.{
  ℕ, ◌+◌, ◌-◌, ◌%◌, ◌^◌, ◌≤◌, ◌<◌, ◌≡◌, ◌≢◌, refl, sym, ap, subst, ◌∙◌, ◌↔◌, inl, inr, false, ◌||◌,
  none, some, [], ◌∷◌, ◌++◌, ltb, ◌==◌, ==_iff, length, length-append, take-append, All, arith,
  Bool-cases, Option-cases,
}
use odds_engine.Base.Bytes.{Bytes}
use odds_engine.Engine.Json.{colon}
use odds_engine.Sim.Args.{behind_colon, host_and_port, split_host_port}

abbrev pub NoColon : Bytes → Type 0
NoColon = All (λ c. c ≢ colon)

behind_colon-NoColon : (s : Bytes) → NoColon s → behind_colon s ≡ none
unfolding behind_colon
behind_colon-NoColon [] n = refl
behind_colon-NoColon (c ∷ s) (n, ns) =
    let off : (c == colon) ≡ false = ground (arith, n) in rw (behind_colon-NoColon s ns, off) refl

NoColon-of_none : (s : Bytes) → behind_colon s ≡ none → NoColon s
unfolding behind_colon
NoColon-of_none [] e = tt
NoColon-of_none (c ∷ s) e = elim (Option-cases (behind_colon s)) [
  | inr (t, later) ↦ absurd cc
  | inl later ↦ elim (Bool-cases (c == colon)) [
    | inl at ↦ absurd cc
    | inr off ↦ (ground (arith, off), NoColon-of_none s later)
  ]
]

behind_colon-append : (host t : Bytes) → NoColon t → behind_colon (host ++ (colon ∷ t)) ≡ some t
unfolding behind_colon
behind_colon-append [] t n = rw (behind_colon-NoColon t n) refl
behind_colon-append (c ∷ host) t n = rw (behind_colon-append host t n) refl

-- The text in front of the last colon.
behind_colon-splits :
    (s t : Bytes) → behind_colon s ≡ some t → (host : Bytes) × (s ≡ host ++ (colon ∷ t)) × NoColon t
unfolding behind_colon
behind_colon-splits [] t e = absurd cc
behind_colon-splits (c ∷ s) t e = elim (Option-cases (behind_colon s)) [
  | inr (t', later) ↦
      let same : t' ≡ t = cc in
      let (host, e', n) = behind_colon-splits s t (later ∙ ap some same) in
      (c ∷ host, ap (c ∷◌) e', n)
  | inl later ↦ elim (Bool-cases (c == colon)) [
    | inl at ↦
        let same : s ≡ t = cc in
        let here : c ≡ colon = (==_iff c colon).0 at in
        ([], cc, subst NoColon same (NoColon-of_none s later))
    | inr off ↦ absurd cc
  ]
]

-- The text is the host, a colon and the port, which has no colon of its own; neither is empty; and the
-- port is a number from 1 to 65535.
pub record IsTarget (strtoul : Bytes → ℕ) (s host : Bytes) (port : ℕ) : Type 0 where
  pub tail : Bytes
  pub text_eq : s ≡ host ++ (colon ∷ tail)
  pub no_colon : NoColon tail
  pub some_host : 0 < length host
  pub some_tail : 0 < length tail
  pub some_port : 0 < strtoul tail
  pub port_fits : strtoul tail ≤ 65535
  pub port_eq : port ≡ strtoul tail

split_host_port-append :
    (strtoul : Bytes → ℕ) (host tail : Bytes)
    → NoColon tail
    → split_host_port strtoul (host ++ (colon ∷ tail)) ≡ host_and_port strtoul host tail
unfolding split_host_port
split_host_port-append strtoul host tail n =
    let text = host ++ (colon ∷ tail) in
    let at : length text - (length tail + 1) ≡ length host =
      omega (arith, length-append host (colon ∷ tail)) in
    rw (split_host_port, behind_colon-append host tail n, at, take-append host (colon ∷ tail)) refl

host_and_port-some :
    (strtoul : Bytes → ℕ) (host tail : Bytes)
    → 0 < length host
    → 0 < length tail
    → 0 < strtoul tail
    → strtoul tail ≤ 65535
    → host_and_port strtoul host tail ≡ some (host, strtoul tail)
unfolding host_and_port
host_and_port-some strtoul host tail h t p q =
    let ends : (length host == 0 || length tail == 0) ≡ false = ground (arith, h, t) in
    let port : (strtoul tail == 0 || ltb 65535 (strtoul tail)) ≡ false = ground (arith, p, q) in
    let small : strtoul tail % 2 ^ 16 ≡ strtoul tail = omega (arith, q) in
    rw (ends, port, small) refl

pub split_host_port_iff :
    (strtoul : Bytes → ℕ) (s host : Bytes) (port : ℕ)
    → (split_host_port strtoul s ≡ some (host, port)) ↔ IsTarget strtoul s host port
unfolding host_and_port split_host_port
split_host_port_iff strtoul s host port = (there, back)
  where
    back : IsTarget strtoul s host port → split_host_port strtoul s ≡ some (host, port)
    back h =
        ap (split_host_port strtoul) h.text_eq
        ∙ split_host_port-append strtoul host h.tail h.no_colon
        ∙ host_and_port-some strtoul host h.tail h.some_host h.some_tail h.some_port h.port_fits
        ∙ ap (λ p. some (host, p)) (sym h.port_eq)

    of_parts :
        (front tail : Bytes)
        → s ≡ front ++ (colon ∷ tail)
        → NoColon tail
        → host_and_port strtoul front tail ≡ some (host, port)
        → IsTarget strtoul s host port
    of_parts front tail e n f = elim (Bool-cases (length front == 0 || length tail == 0)) [
      | inl bad ↦ absurd cc
      | inr ends ↦ elim (Bool-cases (strtoul tail == 0 || ltb 65535 (strtoul tail))) [
        | inl bad ↦ absurd cc
        | inr fits ↦
            let same : front ≡ host = cc in
            let port_same : strtoul tail % 2 ^ 16 ≡ port = cc in
            record {
              tail = tail;
              text_eq = e ∙ ap (◌++ (colon ∷ tail)) same;
              no_colon = n;
              some_host = subst (λ x. 0 < length x) same (ground (arith, ends));
              some_tail = ground (arith, ends);
              some_port = ground (arith, fits, port_same);
              port_fits = ground (arith, fits, port_same);
              port_eq = ground (arith, fits, port_same);
            }
      ]
    ]

    there : split_host_port strtoul s ≡ some (host, port) → IsTarget strtoul s host port
    there e = elim (Option-cases (behind_colon s)) [
      | inl none_there ↦ absurd cc
      | inr (tail, found) ↦
          let (front, text_eq, n) = behind_colon-splits s tail found in
          of_parts front tail text_eq n (
            sym (split_host_port-append strtoul front tail n)
            ∙ ap (split_host_port strtoul) (sym text_eq)
            ∙ e)
    ]
