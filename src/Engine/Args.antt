-- ===== src/Engine/Args.antt =====
-- engine/main.cpp, `Options` and `parse_args`: the command line of the engine.
use odds_engine.Base.{
  ℕ, ◌%◌, ◌^◌, ◌≡◌, ap, sym, ◌⊎◌, inl, inr, Bool, true, false, not, ◌&&◌, Option, none, some, List,
  [], ◌∷◌, ◌==◌, if◌then◌else◌, arith,
}
use odds_engine.Base.Bytes.{Bytes}
use odds_engine.Float.{Double}
use odds_engine.Engine.Json.{codes}
use odds_engine.Engine.Control.{DevigMethod, shin_method, same_text, parse_devig}

-- `L` is the type `long`.
pub record Options (D L : Type 0) : Type 0 where
  pub in_path : Bytes
  pub listen_port : ℕ
  pub announce_timeout_ms : L
  pub idle_ms : L
  pub ws_port : ℕ
  pub ws_interval_ms : L
  pub ws_markets : ℕ
  pub bets_out : Bytes
  pub hash : Bool
  pub stale_ms : ℕ
  pub summary_every : ℕ
  pub devig_method : DevigMethod
  pub kelly_fraction : D
  pub max_exposure : D
  pub help : Bool

module _ {D L : Type 0} ⦃d : Double D⦄ (of_long : ℕ → L) where
  abbrev pub default_options : Options D L
  default_options = record {
    in_path = codes "data/session.bin";
    listen_port = 0;
    announce_timeout_ms = of_long 10000;
    idle_ms = of_long 5000;
    ws_port = 0;
    ws_interval_ms = of_long 100;
    ws_markets = 20;
    bets_out = [];
    hash = false;
    stale_ms = 3000;
    summary_every = 1000;
    devig_method = shin_method;
    kelly_fraction = d.literal 25 2;
    max_exposure = d.literal 5 2;
    help = false;
  }

-- `strtoul` is also `strtoull`: both give 64 bits.
module _ {D L : Type 0} (strtoul : Bytes → ℕ) (strtol : Bytes → L) (strtod : Bytes → D) where
  abbrev with_method : Option DevigMethod → Options D L → Option (Options D L)
  with_method none opt = none
  with_method (some m) opt = some (record opt { devig_method = m })

  -- An option that takes a value; none for an unknown option and for an unknown devig method.
  unfoldable pub set_option : Bytes → Bytes → Options D L → Option (Options D L)
  set_option a v opt =
      if same_text a (codes "--in")
      then some (record opt { in_path = v })
      else if same_text a (codes "--listen")
      then some (record opt { listen_port = strtoul v % 2 ^ 16 })
      else if same_text a (codes "--announce-timeout-ms")
      then some (record opt { announce_timeout_ms = strtol v })
      else if same_text a (codes "--idle-ms")
      then some (record opt { idle_ms = strtol v })
      else if same_text a (codes "--ws")
      then some (record opt { ws_port = strtoul v % 2 ^ 16 })
      else if same_text a (codes "--ws-interval-ms")
      then some (record opt { ws_interval_ms = strtol v })
      else if same_text a (codes "--ws-markets")
      then some (record opt { ws_markets = strtoul v % 2 ^ 32 })
      else if same_text a (codes "--bets")
      then some (record opt { bets_out = v })
      else if same_text a (codes "--stale-ms")
      then some (record opt { stale_ms = strtoul v })
      else if same_text a (codes "--summary-every")
      then some (record opt { summary_every = strtoul v })
      else if same_text a (codes "--kelly-fraction")
      then some (record opt { kelly_fraction = strtod v })
      else if same_text a (codes "--max-exposure")
      then some (record opt { max_exposure = strtod v })
      else if same_text a (codes "--devig")
      then with_method (parse_devig v) opt
      else none

  -- The check behind the loop: a digest of a lossy feed is refused.
  unfoldable pub checked : Options D L → Option (Options D L)
  checked opt = if opt.hash && not (opt.listen_port == 0) then none else some opt

  -- The arguments from one on; none is `false`. Only `--hash` and `--help` may stand without a value.
  unfoldable pub parse_args : List Bytes → Options D L → Option (Options D L)
  parse_args [] opt = checked opt
  parse_args (a ∷ []) opt =
      if same_text a (codes "--hash")
      then checked (record opt { hash = true })
      else if same_text a (codes "--help")
      then some (record opt { help = true })
      else none
  parse_args (a ∷ v ∷ rest) opt =
      let on = parse_args (v ∷ rest) (record opt { hash = true }) in
      if same_text a (codes "--hash")
      then on
      else if same_text a (codes "--help")
      then some (record opt { help = true })
      else elim (set_option a v opt) [ none ↦ none | some opt' ↦ parse_args rest opt' ]

  -- What an accepted command line is bound to.
  abbrev pub IsConsistent : Option (Options D L) → Type 0
  IsConsistent r =
      (opt : Options D L)
      → r ≡ some opt
      → (opt.help ≡ true) ⊎ ((opt.hash && not (opt.listen_port == 0)) ≡ false)

  checked-IsConsistent : (opt : Options D L) → IsConsistent (checked opt)
  unfolding checked
  checked-IsConsistent opt opt' h = inr (ground arith)

  none-IsConsistent : IsConsistent none
  none-IsConsistent opt h = absurd cc

  abbrev helps : Option (Options D L) → Bool
  helps none = true
  helps (some opt) = opt.help

  help-IsConsistent : (opt : Options D L) → IsConsistent (some (record opt { help = true }))
  help-IsConsistent opt opt' h = inl (sym (ap helps h))

  if-IsConsistent :
      (b : Bool) (x y : Option (Options D L))
      → IsConsistent x
      → IsConsistent y
      → IsConsistent (if b then x else y)
  if-IsConsistent true x y h k = h
  if-IsConsistent false x y h k = k

  parse_args-IsConsistent :
      (args : List Bytes) (opt : Options D L) → IsConsistent (parse_args args opt)
  unfolding parse_args
  parse_args-IsConsistent [] opt = checked-IsConsistent opt
  parse_args-IsConsistent (a ∷ []) opt =
      if-IsConsistent (same_text a (codes "--hash")) _ _ (checked-IsConsistent _) (
        if-IsConsistent (same_text a (codes "--help")) _ _ (help-IsConsistent opt)
          none-IsConsistent)
  parse_args-IsConsistent (a ∷ v ∷ rest) opt =
      if-IsConsistent (same_text a (codes "--hash")) _ _ (parse_args-IsConsistent (v ∷ rest) _) (
        if-IsConsistent (same_text a (codes "--help")) _ _ (help-IsConsistent opt)
          (go (λ opt'. parse_args-IsConsistent rest opt') (set_option a v opt)))
    where
      go :
          ((opt' : Options D L) → IsConsistent (parse_args rest opt'))
          → (o : Option (Options D L))
          → IsConsistent (elim o [ none ↦ none | some opt' ↦ parse_args rest opt' ])
      go later none = none-IsConsistent
      go later (some opt') = later opt'

  -- A command line that is accepted without `--help` never asks for the digest of a live feed.
  pub parse_args-refuses :
      (args : List Bytes) (opt opt' : Options D L)
      → parse_args args opt ≡ some opt'
      → (opt'.help ≡ true) ⊎ ((opt'.hash && not (opt'.listen_port == 0)) ≡ false)
  parse_args-refuses args opt opt' h = parse_args-IsConsistent args opt opt' h
