-- ===== src/Sim/Args.antt =====
-- sim/main.cpp, `Options`, `parse_args` and `split_host_port`: the command line of the simulator.
use odds_engine.Base.{
  ℕ, ◌+◌, ◌-◌, ◌%◌, ◌^◌, ◌||◌, Option, none, some, List, [], ◌∷◌, ltb, ◌==◌, if◌then◌else◌, length,
  take,
}
use odds_engine.Base.Bytes.{Bytes}
use odds_engine.Float.{Double}
use odds_engine.Wire.{max_markets_supported}
use odds_engine.Engine.Json.{codes, colon}
use odds_engine.Engine.Control.{same_text}

pub record SimOptions (D : Type 0) : Type 0 where
  pub seed : ℕ
  pub markets : ℕ
  pub ticks : ℕ
  pub out : Bytes
  pub truth_out : Bytes
  pub settle_out : Bytes
  pub jumps_out : Bytes
  pub udp_target : Bytes
  pub pace_factor : D

module _ {D : Type 0} ⦃d : Double D⦄ where
  abbrev pub default_sim_options : SimOptions D
  default_sim_options = record {
    seed = 42;
    markets = 5;
    ticks = 10000;
    out = codes "data/session.bin";
    truth_out = [];
    settle_out = [];
    jumps_out = [];
    udp_target = [];
    pace_factor = d.of_nat 0;
  }

module _ {D : Type 0} (strtoul : Bytes → ℕ) (strtod : Bytes → D) where
  -- none for an unknown option, and for `--help`.
  unfoldable pub set_sim_option : Bytes → Bytes → SimOptions D → Option (SimOptions D)
  set_sim_option a v opt =
      if same_text a (codes "--seed")
      then some (record opt { seed = strtoul v })
      else if same_text a (codes "--markets")
      then some (record opt { markets = strtoul v % 2 ^ 32 })
      else if same_text a (codes "--ticks")
      then some (record opt { ticks = strtoul v })
      else if same_text a (codes "--out")
      then some (record opt { out = v })
      else if same_text a (codes "--truth")
      then some (record opt { truth_out = v })
      else if same_text a (codes "--settle")
      then some (record opt { settle_out = v })
      else if same_text a (codes "--jumps")
      then some (record opt { jumps_out = v })
      else if same_text a (codes "--udp")
      then some (record opt { udp_target = v })
      else if same_text a (codes "--pace")
      then some (record opt { pace_factor = strtod v })
      else none

  -- The checks behind the loop.
  unfoldable pub checked_sim : SimOptions D → Option (SimOptions D)
  checked_sim opt =
      if opt.markets == 0 || opt.ticks == 0
      then none
      else if ltb max_markets_supported opt.markets
      then none
      else some opt

  -- none is `false`.
  unfoldable pub parse_sim_args : List Bytes → SimOptions D → Option (SimOptions D)
  parse_sim_args [] opt = checked_sim opt
  parse_sim_args (a ∷ []) opt = none
  parse_sim_args (a ∷ v ∷ rest) opt = elim (set_sim_option a v opt) [
    | none ↦ none
    | some opt' ↦ parse_sim_args rest opt'
  ]

-- What stands behind the last colon.
unfoldable pub behind_colon : Bytes → Option Bytes
behind_colon [] = none
behind_colon (c ∷ s) =
    let later = behind_colon s in
    elim later [ some t ↦ some t | none ↦ if c == colon then some s else none ]

-- The text in front of the colon, and the number behind it.
unfoldable pub host_and_port : (Bytes → ℕ) → Bytes → Bytes → Option (Bytes × ℕ)
host_and_port strtoul host tail =
    let p = strtoul tail in
    if length host == 0 || length tail == 0
    then none
    else if p == 0 || ltb 65535 p
    then none
    else some (host, p % 2 ^ 16)

-- The host and the port; a colon at either end is refused.
unfoldable pub split_host_port : (Bytes → ℕ) → Bytes → Option (Bytes × ℕ)
split_host_port strtoul s = elim (behind_colon s) [
  | none ↦ none
  | some tail ↦ host_and_port strtoul (take (length s - (length tail + 1)) s) tail
]
