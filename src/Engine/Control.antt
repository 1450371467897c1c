-- ===== src/Engine/Control.antt =====
-- engine/main.cpp, `apply_command`: the configuration that a running engine lets a dashboard change.
pub mod Bounds
use odds_engine.Base.{
  ℕ, ◌+◌, ◌%◌, ◌^◌, ◌≤◌, ◌≡◌, refl, ◌⊎◌, inl, inr, Bool, true, false, not, ◌&&◌, ◌||◌, Option, none,
  some, List, [], ◌∷◌, arith, ◌==◌, if◌then◌else◌, Bool-cases,
}
use odds_engine.Base.Bytes.{Bytes}
use odds_engine.Float.{Double, IsOrdered, IsLt, IsLe}
use odds_engine.BookTable.{increment}
use odds_engine.Engine.Json.{codes, json_string, json_number}

pub data DevigMethod : Type 0 where
  multiplicative_method power_method shin_method : DevigMethod

-- `std::string`'s `==`.
unfoldable pub same_text : Bytes → Bytes → Bool
same_text [] [] = true
same_text [] (y ∷ ys) = false
same_text (x ∷ xs) [] = false
same_text (x ∷ xs) (y ∷ ys) = let rest = same_text xs ys in x == y && rest

unfoldable pub parse_devig : Bytes → Option DevigMethod
parse_devig s =
    if same_text s (codes "multiplicative")
    then some multiplicative_method
    else (if same_text s (codes "power")
        then some power_method
        else (if same_text s (codes "shin") then some shin_method else none))

unfoldable pub devig_name : DevigMethod → Bytes
devig_name multiplicative_method = codes "multiplicative"
devig_name power_method = codes "power"
devig_name shin_method = codes "shin"

pub record LiveConfig (D : Type 0) : Type 0 where
  pub stale_ms : ℕ
  pub kelly_fraction : D
  pub max_exposure : D
  pub devig_method : DevigMethod
  pub changes : ℕ

-- What the reply says: the JSON text around it is not modelled.
pub data Reply (D : Type 0) : Type 0 where
  nack : Bytes → Bytes → Reply D
  ack_devig : Bytes → Reply D
  ack_stale_ms : ℕ → Reply D
  ack_kelly_fraction ack_max_exposure : D → Reply D

-- `strtod` and the conversion of a double to `uint64_t` are the platform's.
module _ {D : Type 0} ⦃d : Double D⦄ (strtod : Bytes → Option D) (to_u64 : D → ℕ) where
  open d use {of_nat, lt, is_finite}

  abbrev pub set_devig : Option Bytes → LiveConfig D → Reply D × LiveConfig D
  set_devig none cfg = (nack (codes "devig") (codes "value must be a string"), cfg)
  set_devig (some v) cfg = elim (parse_devig v) [
    | none ↦ (nack (codes "devig") (codes "expected multiplicative, power, or shin"), cfg)
    | some m ↦ (ack_devig v, record cfg { devig_method = m; changes = increment cfg.changes })
  ]

  abbrev pub set_number : Bytes → Option D → LiveConfig D → Reply D × LiveConfig D
  set_number key none cfg = (nack key (codes "value must be a number"), cfg)
  set_number key (some v) cfg =
      if not (is_finite v)
      then (nack key (codes "value must be finite"), cfg)
      else (if same_text key (codes "stale-ms")
          then (if lt v (of_nat 1) || lt (of_nat 3600000) v
              then (nack key (codes "expected 1 to 3600000"), cfg)
              else (
                ack_stale_ms (to_u64 v),
                record cfg { stale_ms = to_u64 v; changes = increment cfg.changes },
              ))
          else (if same_text key (codes "kelly-fraction")
              then (if not (lt (of_nat 0) v) || lt (of_nat 1) v
                  then (nack key (codes "expected 0 < value <= 1"), cfg)
                  else (
                    ack_kelly_fraction v,
                    record cfg { kelly_fraction = v; changes = increment cfg.changes },
                  ))
              else (if same_text key (codes "max-exposure")
                  then (if not (lt (of_nat 0) v) || lt (of_nat 1) v
                      then (nack key (codes "expected 0 < value <= 1"), cfg)
                      else (
                        ack_max_exposure v,
                        record cfg { max_exposure = v; changes = increment cfg.changes },
                      ))
                  else (if same_text key (codes "seed")
                        || same_text key (codes "markets")
                        || same_text key (codes "books")
                        || same_text key (codes "ticks")
                      then (
                        nack key (codes "immutable mid-run: belongs to the feed, not the engine"),
                        cfg,
                      )
                      else (nack key (codes "unknown key"), cfg)))))

  abbrev pub set_key : Bytes → Bool → Option Bytes → LiveConfig D → Reply D × LiveConfig D
  set_key msg hash_mode none cfg = (nack [] (codes "missing key"), cfg)
  set_key msg hash_mode (some key) cfg =
      if hash_mode
      then (nack key (codes "configuration is locked in --hash mode"), cfg)
      else (if same_text key (codes "devig")
          then set_devig (json_string msg (codes "value")) cfg
          else set_number key (json_number strtod msg (codes "value")) cfg)

  abbrev pub obey : Bytes → Bool → Option Bytes → LiveConfig D → Reply D × LiveConfig D
  obey msg hash_mode none cfg = (nack [] (codes "malformed command"), cfg)
  obey msg hash_mode (some cmd) cfg =
      if not (same_text cmd (codes "set"))
      then (nack cmd (codes "unknown command"), cfg)
      else set_key msg hash_mode (json_string msg (codes "key")) cfg

  unfoldable pub apply_command : Bytes → Bool → LiveConfig D → Reply D × LiveConfig D
  apply_command msg hash_mode cfg = obey msg hash_mode (json_string msg (codes "cmd")) cfg

  -- The commands that are dispatched at one tick, in their order.
  abbrev pub apply_commands : Bool → List Bytes → LiveConfig D → LiveConfig D
  apply_commands hash_mode [] cfg = cfg
  apply_commands hash_mode (msg ∷ msgs) cfg =
      apply_commands hash_mode msgs (apply_command msg hash_mode cfg).1
