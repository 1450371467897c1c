-- ===== src/Sim.antt =====
-- sim/: the simulator of the bookmakers. This file holds what its parts share: the arrays of the
-- three outcomes, and the random numbers of the C++ library, which are a parameter.
pub mod Seeding
pub mod Latent
pub mod Bookmaker
pub mod Generate
pub mod Feed
pub mod Run
pub mod Fanout
pub mod Args
pub mod Target
pub mod Timeline
use odds_engine.Base.{ℕ, zero, suc, if◌then◌else◌}
use odds_engine.Float.{Double}

-- `std::array<T, kOutcomes>`
pub record Triple {ℓ} (A : Type ℓ) : Type ℓ where
  pub o0 : A
  pub o1 : A
  pub o2 : A

abbrev pub outcomes : ℕ
outcomes = 3

module _ {ℓ} {A : Type ℓ} where
  abbrev pub triple : A → A → A → Triple A
  triple a b c = record { o0 = a; o1 = b; o2 = c }

  -- A write past the end changes nothing.
  abbrev pub adjust : ℕ → (A → A) → Triple A → Triple A
  adjust zero f t = record t { o0 = f t.o0 }
  adjust (suc zero) f t = record t { o1 = f t.o1 }
  adjust (suc (suc zero)) f t = record t { o2 = f t.o2 }
  adjust _ f t = t

-- A generator is `std::mt19937_64` together with the state of its `std::normal_distribution`.
pub record Random (G D : Type 0) : Type 0 where
  pub seeded : ℕ → G
  pub normal : G → D × G
  -- `uniform_real_distribution(0.0, 1.0)`, `uniform_int_distribution(0, n)`, `discrete_distribution`
  pub uniform : G → D × G
  pub pick : ℕ → G → ℕ × G
  pub pick_weighted : Triple D → G → ℕ × G

module _ {D : Type 0} ⦃d : Double D⦄ where
  open d use {of_nat, add, sub, mul, div, lt, exp, log}

  abbrev pub each : (D → D) → Triple D → Triple D
  each f t = triple (f t.o0) (f t.o1) (f t.o2)

  -- `sum = 0.0; for (...) sum += t[i]`
  abbrev pub total : Triple D → D
  total t = add (add (add (of_nat 0) t.o0) t.o1) t.o2

  abbrev pub larger : D → D → D
  larger m x = if lt m x then x else m

  unfoldable pub softmax : Triple D → Triple D
  softmax logits =
      let max_l = larger (larger logits.o0 logits.o1) logits.o2 in
      let exps = each (λ l. exp (sub l max_l)) logits in each (λ e. div e (total exps)) exps
