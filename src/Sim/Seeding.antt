-- ===== src/Sim/Seeding.antt =====
-- sim/Seeding.hpp: the seeds of the generators.
use Prim.Native.Nat.{bit_xor}
use odds_engine.Base.{ℕ, ◌+◌, ◌*◌, ◌/◌, ◌%◌, ◌^◌}

-- One round: `(x ^ (x >> shift)) * factor`.
abbrev mix : ℕ → ℕ → ℕ → ℕ
mix shift factor x = bit_xor x (x / 2 ^ shift) * factor % 2 ^ 64

unfoldable pub splitmix64 : ℕ → ℕ
splitmix64 x0 =
    let x = (x0 + 0x9E3779B97F4A7C15) % 2 ^ 64 in
    let y = mix 27 0x94D049BB133111EB (mix 30 0xBF58476D1CE4E5B9 x) in bit_xor y (y / 2 ^ 31)

unfoldable pub derive_seed : ℕ → ℕ → ℕ → ℕ
derive_seed master domain index =
    splitmix64 (bit_xor master (splitmix64 ((domain * 0x1000193 + index) % 2 ^ 64)))

abbrev pub domain_latent_market : ℕ
domain_latent_market = 1

abbrev pub domain_bookmaker : ℕ
domain_bookmaker = 2

abbrev pub domain_settlement : ℕ
domain_settlement = 3
