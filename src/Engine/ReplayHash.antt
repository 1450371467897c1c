-- ===== src/Engine/ReplayHash.antt =====
-- engine/ReplayHash.hpp: FNV-1a over the bytes of what the engine computes.
use Prim.Native.Nat.{bit_xor}
use odds_engine.Base.{ℕ, ◌*◌, ◌%◌, ◌^◌, [], ◌∷◌}
use odds_engine.Base.Bytes.{Bytes, le_bytes}

abbrev pub offset_basis : ℕ
offset_basis = 14695981039346656037

abbrev pub prime : ℕ
prime = 1099511628211

unfoldable pub mix_bytes : Bytes → ℕ → ℕ
mix_bytes [] state = state
mix_bytes (p ∷ ps) state = mix_bytes ps (bit_xor state p * prime % 2 ^ 64)

unfoldable pub mix_u16 : ℕ → ℕ → ℕ
mix_u16 v state = mix_bytes (le_bytes 2 v) state

unfoldable pub mix_u64 : ℕ → ℕ → ℕ
mix_u64 v state = mix_bytes (le_bytes 8 v) state

-- `image` gives the eight bytes of a double in memory.
unfoldable pub mix_double : {D : Type 0} → (D → Bytes) → D → ℕ → ℕ
mix_double image v state = mix_bytes (image v) state
