-- ===== src/Engine/Control/Bounds.antt =====
-- engine/main.cpp, `apply_command`: what a command can do to the configuration.
use odds_engine.Base.{
  ℕ, ◌≤◌, ◌≡◌, refl, ap, ◌∙◌, Bool, true, false, not, ◌||◌, Option, none, some, List, [], ◌∷◌,
  arith, if◌then◌else◌,
}
use odds_engine.Base.Bytes.{Bytes}
use odds_engine.Float.{Double, IsOrdered, IsArithmetic, IsNumber, IsLt, IsLe}
use odds_engine.BookTable.{increment}
use odds_engine.Engine.Json.{codes, json_string}
use odds_engine.Engine.Control.{
  LiveConfig, DevigMethod, Reply, nack, ack_devig, ack_stale_ms, ack_kelly_fraction,
  ack_max_exposure, parse_devig, same_text, set_devig, set_number, set_key, obey, apply_command,
  apply_commands,
}

module _ {D : Type 0} ⦃d : Double D⦄ where
  open d use {of_nat, lt, is_finite}

  -- The ranges that keep the engine's later steps meaningful.
  pub record InBounds (cfg : LiveConfig D) : Type 0 where
    pub stale_least : 1 ≤ cfg.stale_ms
    pub stale_most : cfg.stale_ms ≤ 3600000
    pub kelly_pos : IsLt (of_nat 0) cfg.kelly_fraction
    pub kelly_most : IsLe cfg.kelly_fraction (of_nat 1)
    pub exposure_pos : IsLt (of_nat 0) cfg.max_exposure
    pub exposure_most : IsLe cfg.max_exposure (of_nat 1)

  -- A conversion to `uint64_t` that keeps the range of `stale-ms`.
  abbrev pub Truncates : (D → ℕ) → Type 0
  Truncates to_u64 =
      (v : D) → IsLe (of_nat 1) v → IsLe v (of_nat 3600000) → (1 ≤ to_u64 v) × (to_u64 v ≤ 3600000)

  -- What a command may do: nothing, or set one field to a value in its range and count the change.
  pub data Step (to_u64 : D → ℕ) (cfg : LiveConfig D) : Reply D × LiveConfig D → Type 0 where
    refused : (key why : Bytes) → Step to_u64 cfg (nack key why, cfg)
    new_devig :
        (v : Bytes) (m : DevigMethod)
        → parse_devig v ≡ some m
        → Step to_u64 cfg
            (ack_devig v, record cfg { devig_method = m; changes = increment cfg.changes })
    new_stale_ms :
        (v : D)
        → IsLe (of_nat 1) v
        → IsLe v (of_nat 3600000)
        → Step to_u64 cfg (
          ack_stale_ms (to_u64 v),
          record cfg { stale_ms = to_u64 v; changes = increment cfg.changes },
        )
    new_kelly_fraction :
        (v : D)
        → IsLt (of_nat 0) v
        → IsLe v (of_nat 1)
        → Step to_u64 cfg (
          ack_kelly_fraction v,
          record cfg { kelly_fraction = v; changes = increment cfg.changes },
        )
    new_max_exposure :
        (v : D)
        → IsLt (of_nat 0) v
        → IsLe v (of_nat 1)
        → Step to_u64 cfg
            (ack_max_exposure v, record cfg { max_exposure = v; changes = increment cfg.changes })

  module _ (ordered : IsOrdered D) (arithmetic : IsArithmetic D) (strtod : Bytes → Option D)
      (to_u64 : D → ℕ) where
    open ordered use {number_of_finite, le_of_not_lt}
    open arithmetic use {of_nat-number}

    if-Step :
        {to_u64 : D → ℕ} {cfg : LiveConfig D}
        → (b : Bool) (x y : Reply D × LiveConfig D) → (b ≡ true → Step to_u64 cfg x)
        → (b ≡ false → Step to_u64 cfg y)
        → Step to_u64 cfg (if b then x else y)
    if-Step true x y left right = left refl
    if-Step false x y left right = right refl

    set_devig-Step :
        (value : Option Bytes) (cfg : LiveConfig D)
        → Step to_u64 cfg (set_devig strtod to_u64 value cfg)
    set_devig-Step none cfg = refused _ _
    set_devig-Step (some v) cfg = go (parse_devig v) refl
      where
        go :
            (m : Option DevigMethod)
            → parse_devig v ≡ m
            → Step to_u64 cfg (set_devig strtod to_u64 (some v) cfg)
        go none e = rw (set_devig, e) (refused _ _)
        go (some m) e = rw (set_devig, e) (new_devig v m e)

    -- The test that guards both fractions.
    in_unit :
        (v : D)
        → IsNumber v
        → (not (lt (of_nat 0) v) || lt (of_nat 1) v) ≡ false
        → IsLt (of_nat 0) v × IsLe v (of_nat 1)
    in_unit v number e =
        (ground arith, le_of_not_lt (of_nat 1) v (of_nat-number 1) number (ground arith))

    set_number-Step :
        (key : Bytes) (value : Option D) (cfg : LiveConfig D)
        → Step to_u64 cfg (set_number strtod to_u64 key value cfg)
    set_number-Step key none cfg = refused _ _
    set_number-Step key (some v) cfg =
        if-Step (not (is_finite v)) _ _ (λ _. refused _ _)
          (λ f.
            let number = number_of_finite v (ground (arith, f)) in
            if-Step (same_text key (codes "stale-ms")) _ _
              (λ _.
                if-Step (lt v (of_nat 1) || lt (of_nat 3600000) v) _ _ (λ _. refused _ _)
                  (λ e.
                    new_stale_ms v
                      (le_of_not_lt v (of_nat 1) number (of_nat-number 1) (ground (arith, e)))
                      (le_of_not_lt (of_nat 3600000) v (of_nat-number 3600000) number
                        (ground (arith, e)))))
              (λ _.
                if-Step (same_text key (codes "kelly-fraction")) _ _
                  (λ _.
                    if-Step (not (lt (of_nat 0) v) || lt (of_nat 1) v) _ _ (λ _. refused _ _)
                      (λ e. let (low, high) = in_unit v number e in new_kelly_fraction v low high))
                  (λ _.
                    if-Step (same_text key (codes "max-exposure")) _ _
                      (λ _.
                        if-Step (not (lt (of_nat 0) v) || lt (of_nat 1) v) _ _ (λ _. refused _ _)
                          (λ e.
                            let (low, high) = in_unit v number e in new_max_exposure v low high))
                      (λ _. if-Step _ _ _ (λ _. refused _ _) (λ _. refused _ _)))))

    set_key-Step :
        (msg : Bytes) (hash_mode : Bool) (key : Option Bytes) (cfg : LiveConfig D)
        → Step to_u64 cfg (set_key strtod to_u64 msg hash_mode key cfg)
    set_key-Step msg hash_mode none cfg = refused _ _
    set_key-Step msg hash_mode (some key) cfg =
        if-Step hash_mode _ _ (λ _. refused _ _)
          (λ _.
            if-Step (same_text key (codes "devig")) _ _ (λ _. set_devig-Step _ cfg)
              (λ _. set_number-Step key _ cfg))

    -- Whatever the message, a command is refused and changes nothing, or sets one field to a value in
    -- its range and counts the change.
    pub apply_command-Step :
        (msg : Bytes) (hash_mode : Bool) (cfg : LiveConfig D)
        → Step to_u64 cfg (apply_command strtod to_u64 msg hash_mode cfg)
    unfolding apply_command
    apply_command-Step msg hash_mode cfg = go (json_string msg (codes "cmd"))
      where
        go : (cmd : Option Bytes) → Step to_u64 cfg (obey strtod to_u64 msg hash_mode cmd cfg)
        go none = refused _ _
        go (some cmd) =
            if-Step (not (same_text cmd (codes "set"))) _ _ (λ _. refused _ _)
              (λ _. set_key-Step msg hash_mode _ cfg)

    Step-InBounds :
        {to_u64 : D → ℕ} {cfg : LiveConfig D} {r : Reply D × LiveConfig D}
        → Truncates to_u64
        → Step to_u64 cfg r
        → InBounds cfg
        → InBounds r.1
    Step-InBounds t (refused key why) b = b
    Step-InBounds t (new_devig v m e) b = record {
      stale_least = b.stale_least;
      stale_most = b.stale_most;
      kelly_pos = b.kelly_pos;
      kelly_most = b.kelly_most;
      exposure_pos = b.exposure_pos;
      exposure_most = b.exposure_most;
    }
    Step-InBounds t (new_stale_ms v low high) b =
        let (least, most) = t v low high in
        record {
          stale_least = least;
          stale_most = most;
          kelly_pos = b.kelly_pos;
          kelly_most = b.kelly_most;
          exposure_pos = b.exposure_pos;
          exposure_most = b.exposure_most;
        }
    Step-InBounds t (new_kelly_fraction v low high) b = record {
      stale_least = b.stale_least;
      stale_most = b.stale_most;
      kelly_pos = low;
      kelly_most = high;
      exposure_pos = b.exposure_pos;
      exposure_most = b.exposure_most;
    }
    Step-InBounds t (new_max_exposure v low high) b = record {
      stale_least = b.stale_least;
      stale_most = b.stale_most;
      kelly_pos = b.kelly_pos;
      kelly_most = b.kelly_most;
      exposure_pos = low;
      exposure_most = high;
    }

    -- No run of commands brings a configuration out of its ranges, if the conversion of a double
    -- to uint64_t keeps the range from 1 to 3600000.
    pub apply_commands-InBounds :
        Truncates to_u64
        → (hash_mode : Bool) (msgs : List Bytes) (cfg : LiveConfig D) → InBounds cfg
        → InBounds (apply_commands strtod to_u64 hash_mode msgs cfg)
    apply_commands-InBounds t hash_mode [] cfg b = b
    apply_commands-InBounds t hash_mode (msg ∷ msgs) cfg b =
        apply_commands-InBounds t hash_mode msgs _
          (Step-InBounds t (apply_command-Step msg hash_mode cfg) b)

    apply_command_locked :
        (msg : Bytes) (cfg : LiveConfig D) → (apply_command strtod to_u64 msg true cfg).1 ≡ cfg
    unfolding apply_command
    apply_command_locked msg cfg = ground arith

    -- In hash mode no run of commands changes the configuration.
    pub apply_commands_locked :
        (msgs : List Bytes) (cfg : LiveConfig D) → apply_commands strtod to_u64 true msgs cfg ≡ cfg
    apply_commands_locked [] cfg = refl
    apply_commands_locked (msg ∷ msgs) cfg =
        ap (apply_commands strtod to_u64 true msgs) (apply_command_locked msg cfg)
        ∙ apply_commands_locked msgs cfg
