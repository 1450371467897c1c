-- ===== src/Engine/Run.antt =====
-- engine/main.cpp, `run`: records into the table, and the markets priced where a tick ends.
pub mod Ticks
pub mod Betting
use odds_engine.Base.{
  ℕ, zero, suc, ◌+◌, ◌%◌, ◌^◌, Bool, true, false, not, ◌&&◌, ◌||◌, Option, none, some, List, [],
  ◌∷◌, ◌++◌, ltb, ◌==◌, if◌then◌else◌, length, Quad, prefix,
}
use odds_engine.Base.Bytes.{Bytes}
use odds_engine.Float.{Double}
use odds_engine.Wire.{OddsUpdate, SessionHeader}
use odds_engine.BookTable.{BookTable, apply, increment}
use odds_engine.Consensus.{ConsensusResult}
use odds_engine.Engine.Control.{LiveConfig, apply_commands}
use odds_engine.Engine.ReplayHash.{offset_basis, mix_bytes, mix_u16, mix_double}
use odds_engine.Engine.Market.{BetRecord, price, size_market}

abbrev pub max_markets : ℕ
max_markets = 1024

abbrev pub max_books : ℕ
max_books = 16

-- Which outputs the command line asks for: `--bets` and `--hash`.
pub record Outputs : Type 0 where
  pub betlog : Bool
  pub hash : Bool

-- The locals of `run`. The bet log is the list of the records that it accepted; `arrivals` holds the
-- commands that clients will have sent by each tick to come.
pub record Engine (D : Type 0) : Type 0 where
  pub table : BookTable
  pub cfg : LiveConfig D
  pub arrivals : List (List Bytes)
  pub consensus_count : ℕ
  pub no_price_count : ℕ
  pub bets_placed : ℕ
  pub bets : List (BetRecord D)
  pub digest : ℕ

-- The variables that find where a tick ends.
pub record Loop (D : Type 0) : Type 0 where
  pub engine : Engine D
  pub have_tick : Bool
  pub cur_ts : ℕ

module _ {D : Type 0} ⦃d : Double D⦄ (strtod : Bytes → Option D) (to_u64 : D → ℕ)
    (image : D → Bytes) where
  abbrev pub mix_probs : List D → ℕ → ℕ
  mix_probs [] state = state
  mix_probs (p ∷ ps) state = mix_probs ps (mix_double image p state)

  abbrev pub mix_price : ℕ → ConsensusResult D → ℕ → ℕ
  mix_price m fair state =
      mix_probs (prefix fair.count fair.prob) (mix_bytes (fair.count ∷ []) (mix_u16 m state))

  module _ (out : Outputs) where
    -- `wsrv->service()`: the commands that have arrived are obeyed.
    abbrev pub service : Engine D → Engine D
    service e = elim e.arrivals [
      | [] ↦ e
      | msgs ∷ later ↦ record e {
        cfg = apply_commands strtod to_u64 out.hash msgs e.cfg;
        arrivals = later;
      }
    ]

    -- What a market with a fair price does, given whether there is a bet log.
    abbrev pub priced : Bool → ℕ → ℕ → ConsensusResult D → Quad ℕ → Engine D → Engine D
    priced betlog ts m fair best e =
        let new = size_market e.table e.cfg ts m fair best in
        record e {
          consensus_count = increment e.consensus_count;
          bets = if betlog then e.bets ++ new else e.bets;
          bets_placed = if betlog then (e.bets_placed + length new) % 2 ^ 64 else e.bets_placed;
          digest = if out.hash then mix_price m fair e.digest else e.digest;
        }

    -- One round of the loop over the markets.
    unfoldable pub process_market : ℕ → ℕ → ℕ → Engine D → Engine D
    process_market books ts m e =
        let (fair, best) = price e.table e.cfg ts m books in
        if not fair.has_fair_price
        then record e { no_price_count = increment e.no_price_count }
        else priced out.betlog ts m fair best e

    unfoldable pub process_markets : ℕ → ℕ → ℕ → ℕ → Engine D → Engine D
    process_markets books ts m zero e = e
    process_markets books ts m (suc n) e =
        process_markets books ts (m + 1) n (process_market books ts m e)

    module _ (markets books : ℕ) where
      unfoldable pub process_tick : ℕ → Engine D → Engine D
      process_tick ts e = process_markets books ts 0 markets (service e)

      abbrev pub absorb : OddsUpdate → Engine D → Engine D
      absorb u e = record e { table = (apply max_markets max_books u u.sim_timestamp_ns e.table).1 }

      -- One round of `while (src.next(u))`.
      unfoldable pub on_record : OddsUpdate → Loop D → Loop D
      on_record u s =
          let before =
            if s.have_tick && not (u.sim_timestamp_ns == s.cur_ts)
            then process_tick s.cur_ts s.engine
            else s.engine in
          record { engine = absorb u before; have_tick = true; cur_ts = u.sim_timestamp_ns }

      abbrev pub on_records : List OddsUpdate → Loop D → Loop D
      on_records [] s = s
      on_records (u ∷ us) s = on_records us (on_record u s)

      unfoldable pub run_loop : List OddsUpdate → Engine D → Engine D
      run_loop us e =
          let s = on_records us (record { engine = e; have_tick = false; cur_ts = 0 }) in
          if s.have_tick then process_tick s.cur_ts s.engine else s.engine

    -- `run`: none is the exit status 1 for a feed that the table does not hold.
    unfoldable pub run : SessionHeader → List OddsUpdate → Engine D → Option (Engine D)
    run h us e =
        if ltb max_markets h.markets
        then none
        else (if ltb max_books h.books then none else some (run_loop h.markets h.books us e))
