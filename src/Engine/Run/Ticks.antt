-- ===== src/Engine/Run/Ticks.antt =====
-- engine/main.cpp, `run`: the loop over records against a description by whole ticks.
use odds_engine.Base.{
  ℕ, ◌≡◌, refl, sym, ap, ◌∙◌, true, false, not, Option, inl, inr, List, [], ◌∷◌, ◌==◌, ==_iff,
  if◌then◌else◌, Bool-cases, arith,
}
use odds_engine.Base.Bytes.{Bytes}
use odds_engine.Float.{Double}
use odds_engine.Wire.{OddsUpdate}
use odds_engine.Engine.Run.{
  Outputs, Engine, Loop, process_tick, absorb, on_record, on_records, run_loop,
}

-- The feed cut where the timestamp changes: each tick's timestamp with its records, in order.
abbrev begin_with : OddsUpdate → List (ℕ × List OddsUpdate) → List (ℕ × List OddsUpdate)
begin_with u [] = (u.sim_timestamp_ns, u ∷ []) ∷ []
begin_with u ((t, us) ∷ rest) =
    if u.sim_timestamp_ns == t
    then (t, u ∷ us) ∷ rest
    else (u.sim_timestamp_ns, u ∷ []) ∷ ((t, us) ∷ rest)

abbrev pub ticks_of : List OddsUpdate → List (ℕ × List OddsUpdate)
ticks_of [] = []
ticks_of (u ∷ us) = begin_with u (ticks_of us)

module _ {D : Type 0} ⦃d : Double D⦄ (strtod : Bytes → Option D) (to_u64 : D → ℕ)
    (image : D → Bytes) where
  module _ (out : Outputs) (markets books : ℕ) where
    abbrev at_end : ℕ → Engine D → Engine D
    at_end = process_tick strtod to_u64 image out markets books

    abbrev put : OddsUpdate → Engine D → Engine D
    put = absorb strtod to_u64 image out markets books

    abbrev put_all : List OddsUpdate → Engine D → Engine D
    put_all [] e = e
    put_all (u ∷ us) e = put_all us (put u e)

    -- Each tick: its records into the table, then all the markets once.
    abbrev pub run_ticks : List (ℕ × List OddsUpdate) → Engine D → Engine D
    run_ticks [] e = e
    run_ticks ((t, us) ∷ rest) e = run_ticks rest (at_end t (put_all us e))

    -- A tick that is open at t, before the ticks to come.
    abbrev open_at : ℕ → List (ℕ × List OddsUpdate) → List (ℕ × List OddsUpdate)
    open_at t [] = (t, []) ∷ []
    open_at t ((t', us) ∷ rest) = if t == t' then (t', us) ∷ rest else (t, []) ∷ ((t', us) ∷ rest)

    run_ticks-begin_with :
        (u : OddsUpdate) (ts : List (ℕ × List OddsUpdate)) (e : Engine D)
        → run_ticks (begin_with u ts) e ≡ run_ticks (open_at u.sim_timestamp_ns ts) (put u e)
    run_ticks-begin_with u [] e = refl
    run_ticks-begin_with u ((t, us) ∷ rest) e = elim (Bool-cases (u.sim_timestamp_ns == t)) [
      | inl same ↦ rw same refl
      | inr other ↦ rw other refl
    ]

    open_at_same :
        (u : OddsUpdate) (t : ℕ) (ts : List (ℕ × List OddsUpdate))
        → u.sim_timestamp_ns ≡ t
        → open_at t (begin_with u ts) ≡ begin_with u ts
    open_at_same u t [] e = ground arith
    open_at_same u t ((t', us) ∷ rest) e = ground arith

    open_at_other :
        (u : OddsUpdate) (t : ℕ) (ts : List (ℕ × List OddsUpdate))
        → (u.sim_timestamp_ns == t) ≡ false
        → open_at t (begin_with u ts) ≡ (t, []) ∷ begin_with u ts
    open_at_other u t [] e = ground arith
    open_at_other u t ((t', us) ∷ rest) e = ground arith

    abbrev finish : Loop D → Engine D
    finish s = if s.have_tick then at_end s.cur_ts s.engine else s.engine

    abbrev step : List OddsUpdate → Loop D → Loop D
    step = on_records strtod to_u64 image out markets books

    abbrev opened : ℕ → Engine D → Loop D
    opened t e = record { engine = e; have_tick = true; cur_ts = t }

    on_record_same :
        (u : OddsUpdate) (t : ℕ) (e : Engine D)
        → (u.sim_timestamp_ns == t) ≡ true
        → on_record strtod to_u64 image out markets books u (opened t e)
          ≡ opened u.sim_timestamp_ns (put u e)
    unfolding on_record
    on_record_same u t e same = rw (not, same) refl

    on_record_other :
        (u : OddsUpdate) (t : ℕ) (e : Engine D)
        → (u.sim_timestamp_ns == t) ≡ false
        → on_record strtod to_u64 image out markets books u (opened t e)
          ≡ opened u.sim_timestamp_ns (put u (at_end t e))
    unfolding on_record
    on_record_other u t e other = rw (not, other) refl

    finish-on_records :
        (us : List OddsUpdate) (t : ℕ) (e : Engine D)
        → finish (step us (opened t e)) ≡ run_ticks (open_at t (ticks_of us)) e
    finish-on_records [] t e = refl
    finish-on_records (u ∷ us) t e = elim (Bool-cases (u.sim_timestamp_ns == t)) [
      | inl same ↦
          ap (λ s. finish (step us s)) (on_record_same u t e same)
          ∙ finish-on_records us u.sim_timestamp_ns (put u e)
          ∙ sym (run_ticks-begin_with u (ticks_of us) e)
          ∙ ap (λ ts. run_ticks ts e) (sym (open_at_same u t (ticks_of us) ((==_iff _ _).0 same)))
      | inr other ↦
          ap (λ s. finish (step us s)) (on_record_other u t e other)
          ∙ finish-on_records us u.sim_timestamp_ns (put u (at_end t e))
          ∙ sym (run_ticks-begin_with u (ticks_of us) (at_end t e))
          ∙ ap (λ ts. run_ticks ts e) (sym (open_at_other u t (ticks_of us) other))
    ]

    -- The loop does what a run by whole ticks does: for each stretch of records with one timestamp, all
    -- of them go into the table and then all markets are priced, once, at that timestamp; the last tick
    -- is not left out.
    pub run_loop-ticks :
        (us : List OddsUpdate) (e : Engine D)
        → run_loop strtod to_u64 image out markets books us e ≡ run_ticks (ticks_of us) e
    unfolding run_loop on_record
    run_loop-ticks [] e = refl
    run_loop-ticks (u ∷ us) e =
        finish-on_records us u.sim_timestamp_ns (put u e)
        ∙ sym (run_ticks-begin_with u (ticks_of us) e)
