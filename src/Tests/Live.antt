-- ===== src/Tests/Live.antt =====
-- Runs of the engine's loop and of its live configuration.
use odds_engine.Base.{
  ◌⊎◌, ◌&&◌, not, ◌==◌, ◌≡◌, ◌*◌, ◌/◌, ℕ, refl, true, false, List, [], ◌∷◌, ◌++◌, Option, none,
  some, arith, slot, splat,
}
use odds_engine.Base.Bytes.{Bytes}
use odds_engine.Float.Fixed.{Fixed, fixed-Double, fixed-IsOrdered, fixed-IsArithmetic}
use odds_engine.BookTable.{BookTable, apply}
use odds_engine.BookTable.History.{apply_all}
use odds_engine.BookTable
use odds_engine.Engine.Json.{
  codes, command, quoted, skip_space, json_string, json_number, json-command,
}
use odds_engine.Engine.Control.{
  LiveConfig, apply_commands, multiplicative_method, power_method, same_text, parse_devig,
}
use odds_engine.Engine.Control.Bounds.{
  InBounds, apply_commands-InBounds, apply_commands_locked, Truncates,
}
use odds_engine.Engine.Market.{walk}
use odds_engine.Engine.Market.Best.{IsBest, walk_all-IsBest}
use odds_engine.Engine.Run.{Outputs, Engine, process_tick, service, run_loop}
use odds_engine.Engine.Run.Betting.{Adds, process_tick-Adds}
use odds_engine.Engine.Run.Ticks.{ticks_of, run_ticks, run_loop-ticks}
use odds_engine.Engine.Market.{BetRecord}
use odds_engine.Engine.Args.{
  Options, default_options, parse_args, set_option, checked, parse_args-refuses,
}
use odds_engine.Dashboard.{Client, decode_frames, scan, scan_body, unmask, handle_frame}
use odds_engine.Dashboard.Backlog.{Bounded, decode_frames-Bounded, decode_frames_fuel}
use odds_engine.BetLog.{log_file, encode_log_header, encode_bets}
use odds_engine.BetLog.Written.{log_file_lem}
use odds_engine.Tests.{three_updates, plain-IsPlain}

-- Stand-ins for the platform's functions.
abbrev strtod : Bytes → Option Fixed
strtod [] = none
strtod (c ∷ s) = some (some (c * 1000))

abbrev to_u64 : Fixed → ℕ
to_u64 none = 0
to_u64 (some a) = a / 1000

abbrev image : Fixed → Bytes
image x = []

abbrev config : LiveConfig Fixed
config = record {
  stale_ms = 3000;
  kelly_fraction = some 250;
  max_exposure = some 50;
  devig_method = multiplicative_method;
  changes = 0;
}

config-InBounds : InBounds config
config-InBounds = record {
  stale_least = omega arith;
  stale_most = omega arith;
  kelly_pos = refl;
  kelly_most = refl;
  exposure_pos = refl;
  exposure_most = refl;
}

to_u64-Truncates : Truncates to_u64
to_u64-Truncates none h k = absurd cc
to_u64-Truncates (some a) h k = (ground arith, ground arith)

abbrev messages : List Bytes
messages = command (codes "stale-ms") (codes "7") ∷ command (codes "seed") (codes "7") ∷ []

apply_commands-InBounds_example : InBounds (apply_commands strtod to_u64 false messages config)
apply_commands-InBounds_example =
    apply_commands-InBounds fixed-IsOrdered fixed-IsArithmetic strtod to_u64 to_u64-Truncates false
      messages config config-InBounds

apply_commands_locked_example : apply_commands strtod to_u64 true messages config ≡ config
apply_commands_locked_example =
    apply_commands_locked fixed-IsOrdered fixed-IsArithmetic strtod to_u64 messages config

json-command_example :
    (json_string (command (codes "devig") (codes "7")) (codes "cmd") ≡ some (codes "set"))
    × (json_string (command (codes "devig") (codes "7")) (codes "key") ≡ some (codes "devig"))
    × (json_string (command (codes "devig") (quoted (codes "shin"))) (codes "value")
        ≡ some (codes "shin"))
    × (json_number strtod (command (codes "devig") (codes "7")) (codes "value")
        ≡ strtod (skip_space (codes "7" ++ codes "}")))
json-command_example =
    json-command strtod (codes "devig") (codes "7") (codes "shin")
      (plain-IsPlain (codes "devig") refl) (plain-IsPlain (codes "shin") refl)
      (λ e. absurd (ground arith))

abbrev outputs : Outputs
outputs = record { betlog = true; hash = false }

abbrev engine : Engine Fixed
engine = record {
  table = apply_all 4 4 three_updates odds_engine.BookTable.new;
  cfg = config;
  arrivals = messages ∷ [];
  consensus_count = 0;
  no_price_count = 0;
  bets_placed = 0;
  bets = [];
  digest = 0;
}

walk_all-IsBest_example :
    IsBest engine.table config 200000000 1 0 2 0 0
      (slot (walk engine.table config 200000000 1 0 2 (splat 0)).0 0)
walk_all-IsBest_example = walk_all-IsBest engine.table config 200000000 1 2 0 (omega arith)

process_tick-Adds_example :
    Adds strtod to_u64 image outputs 2 2 200000000 2
      (service strtod to_u64 image outputs engine)
      (process_tick strtod to_u64 image outputs 2 2 200000000 engine)
process_tick-Adds_example = process_tick-Adds strtod to_u64 image outputs 2 2 200000000 engine

run_loop-ticks_example :
    run_loop strtod to_u64 image outputs 2 2 three_updates engine
    ≡ run_ticks strtod to_u64 image outputs 2 2 (ticks_of three_updates) engine
run_loop-ticks_example = run_loop-ticks strtod to_u64 image outputs 2 2 three_updates engine

abbrev one_bet : BetRecord Fixed
one_bet = record {
  sim_timestamp_ns = 200000000;
  market_id = 1;
  outcome = 2;
  stake = some 20;
  odds_milli_taken = 3900;
  fair_prob = some 300;
}

log_file_lem_example :
    log_file image (λ _. true) 42 (one_bet ∷ [])
    ≡ some (encode_log_header 42 1 ++ encode_bets image (one_bet ∷ []))
log_file_lem_example = log_file_lem image (λ _. true) (λ _. refl) 42 (one_bet ∷ []) (omega arith)

abbrev read_number : Bytes → ℕ
read_number [] = 0
read_number (c ∷ s) = c

abbrev read_double : Bytes → Fixed
read_double s = some 0

abbrev start : Options Fixed ℕ
start = default_options (λ n. n)

abbrev arguments : List Bytes
arguments = codes "--listen" ∷ codes "9" ∷ codes "--devig" ∷ codes "power" ∷ []

abbrev parsed : Options Fixed ℕ
parsed = record start { listen_port = 57; devig_method = power_method }

arguments_accepted : parse_args read_number read_number read_double arguments start ≡ some parsed
unfolding parse_args set_option checked same_text parse_devig
arguments_accepted = refl

parse_args-refuses_example :
    (parsed.help ≡ true) ⊎ ((parsed.hash && not (parsed.listen_port == 0)) ≡ false)
parse_args-refuses_example =
    parse_args-refuses read_number read_number read_double arguments start parsed arguments_accepted

-- A masked text frame of two bytes, and the beginning of a second frame.
abbrev client : Client
client = record {
  input = 129 ∷ 130 ∷ 1 ∷ 2 ∷ 3 ∷ 4 ∷ 105 ∷ 107 ∷ 129 ∷ [];
  out = [];
  dead = false;
  pending = [];
  commands = 0;
}

decode_frames-Bounded_example : Bounded 1000 (decode_frames 1000 10 client)
decode_frames-Bounded_example = decode_frames-Bounded 1000 10 client (omega arith, tt)

decode_frames_fuel_example : decode_frames 1000 10 client ≡ decode_frames 1000 20 client
decode_frames_fuel_example = decode_frames_fuel 1000 10 20 client (omega arith) (omega arith)

client_read : (decode_frames 1000 10 client).pending ≡ (104 ∷ 105 ∷ []) ∷ []
unfolding decode_frames scan scan_body unmask handle_frame
client_read = refl
