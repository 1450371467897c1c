-- ===== src/Analysis.antt =====
-- analytics/analyze_bets.cpp: the scoring of a bet log against its session. The three files that it
-- reads are their records here, and the negation of a double is a parameter. A bet has an outcome below 4.
pub mod Jumps
pub mod Closing
pub mod Timeline
use odds_engine.Base.{
  ℕ, zero, suc, ◌+◌, ◌-◌, ◌*◌, ◌/◌, ◌%◌, ◌^◌, Bool, true, false, not, ◌&&◌, ◌||◌, Option, none,
  some, List, [], ◌∷◌, ◌++◌, ltb, leb, ◌==◌, if◌then◌else◌, length, Quad, quad, splat, slot,
  set_slot,
}
use odds_engine.Base.Bytes.{Bytes}
use odds_engine.Float.{Double}
use odds_engine.Wire.{OddsUpdate, tick_interval_ns}
use odds_engine.BookTable.{increment}
use odds_engine.Engine.Json.{codes}
use odds_engine.Engine.Control.{same_text}
use odds_engine.Engine.Market.{BetRecord, raise}
use odds_engine.Sim.Generate.{JumpRecord, SettlementRecord}

pub record Args : Type 0 where
  pub bets : Bytes
  pub session : Bytes
  pub settle_path : Bytes
  pub jumps : Bytes

-- none for an argument that is not known.
unfoldable pub set_path : Bytes → Bytes → Args → Option Args
set_path s v a =
    if same_text s (codes "--bets")
    then some (record a { bets = v })
    else if same_text s (codes "--session")
    then some (record a { session = v })
    else if same_text s (codes "--settle")
    then some (record a { settle_path = v })
    else if same_text s (codes "--jumps")
    then some (record a { jumps = v })
    else none

-- none is `false`: an unknown argument, a missing value, or no log or session.
unfoldable pub parse_paths : List Bytes → Args → Option Args
parse_paths [] a = if length a.bets == 0 || length a.session == 0 then none else some a
parse_paths (s ∷ []) a = none
parse_paths (s ∷ v ∷ rest) a = elim (set_path s v a) [ none ↦ none | some a' ↦ parse_paths rest a' ]

-- The last element before the first that is greater, from `before` on.
unfoldable pub last_until : ℕ → Option ℕ → List ℕ → Option ℕ
last_until tick before [] = before
last_until tick before (j ∷ js) = if ltb tick j then before else last_until tick (some j) js

-- none is -1.
abbrev pub distance : ℕ → Option ℕ → Option ℕ
distance tick none = none
distance tick (some j) = some (tick - j)

-- `std::upper_bound` on a sorted list is at the first element that is greater.
unfoldable pub ticks_since_jump : List ℕ → ℕ → Option ℕ
ticks_since_jump jt tick = distance tick (last_until tick none jt)

unfoldable pub bucket_of : Option ℕ → ℕ
bucket_of none = 7
bucket_of (some tsj) =
    if ltb tsj 10
    then 0
    else if ltb tsj 25
    then 1
    else if ltb tsj 50
    then 2
    else if ltb tsj 100
    then 3
    else if ltb tsj 200
    then 4
    else if ltb tsj 500
    then 5
    else 6

-- The arrays of the last odds and counts are functions of the market and the book.
pub record LastQuotes : Type 0 where
  pub last_odds : ℕ → ℕ → Quad ℕ
  pub last_count : ℕ → ℕ → ℕ

abbrev pub no_quotes : LastQuotes
no_quotes = record { last_odds = λ m b. splat 0; last_count = λ m b. 0 }

abbrev pub assign {ℓ} : {A : Type ℓ} → (ℕ → ℕ → A) → ℕ → ℕ → A → ℕ → ℕ → A
assign f m b v m' b' = if m' == m && b' == b then v else f m' b'

-- A record out of the session's shape is passed over.
unfoldable pub note_quote : ℕ → ℕ → OddsUpdate → LastQuotes → LastQuotes
note_quote markets books u q =
    if leb markets u.market_id || leb books u.book_id then q else record {
      last_odds = assign q.last_odds u.market_id u.book_id u.odds_milli;
      last_count = assign q.last_count u.market_id u.book_id u.outcome_count;
    }

unfoldable pub note_quotes : ℕ → ℕ → List OddsUpdate → LastQuotes → LastQuotes
note_quotes markets books [] q = q
note_quotes markets books (u ∷ us) q = note_quotes markets books us (note_quote markets books u q)

-- The best of the last odds of market m, over `n` books from b on.
unfoldable pub closing_from : LastQuotes → ℕ → ℕ → ℕ → Quad ℕ → Quad ℕ
closing_from q m b zero best = best
closing_from q m b (suc n) best =
    closing_from q m (b + 1) n (raise (q.last_count m b) best (q.last_odds m b))

unfoldable pub closing_best : ℕ → ℕ → List OddsUpdate → ℕ → Quad ℕ
closing_best markets books us m =
    closing_from (note_quotes markets books us no_quotes) m 0 books (splat 0)

-- `winner[m]`; none is -1. The last record of a market counts.
unfoldable pub winner_of : ℕ → List SettlementRecord → ℕ → Option ℕ
winner_of markets [] m = none
winner_of markets (r ∷ rs) m =
    let later = winner_of markets rs m in
    elim later [
      | some w ↦ some w
      | none ↦ if ltb r.market_id markets && r.market_id == m then some r.winner else none
    ]

-- The ticks of a market's jumps, as they stand in the file.
unfoldable pub jumps_of : ℕ → List JumpRecord → ℕ → List ℕ
jumps_of markets [] m = []
jumps_of markets (r ∷ rs) m =
    let later = jumps_of markets rs m in
    if ltb r.market_id markets && r.market_id == m then r.tick ∷ later else later

unfoldable pub insert : ℕ → List ℕ → List ℕ
insert j [] = j ∷ []
insert j (k ∷ ks) = let rest = insert j ks in if ltb k j then k ∷ rest else j ∷ k ∷ ks

-- `std::sort`
unfoldable pub sort : List ℕ → List ℕ
sort [] = []
sort (j ∷ js) = insert j (sort js)

-- `jump_ticks[m]`
unfoldable pub sorted_jumps : ℕ → List JumpRecord → ℕ → List ℕ
sorted_jumps markets rs m = sort (jumps_of markets rs m)

-- A bucket's sums.
pub record Bucket (D : Type 0) : Type 0 where
  pub cnt : ℕ
  pub stake : D
  pub edge_sum : D
  pub pnl : D
  pub pnl_stake : D

pub record Scores (D : Type 0) : Type 0 where
  pub n_bets : ℕ
  pub n_clv : ℕ
  pub beat : ℕ
  pub total_stake : D
  pub believed_edge : D
  pub clv_sum : D
  pub clv_stake_sum : D
  pub stake_for_clv : D
  pub beat_stake : D
  pub pnl_market : ℕ → D
  pub market_bet : ℕ → Bool
  pub total_pnl : D
  pub total_stake_settled : D
  pub buckets : ℕ → Bucket D
  pub episodes : List (ℕ × D)
  pub total_edge_mass : D

-- `(market << 40) ^ (last_jump + 1)`, of a tick below 2^40.
abbrev pub episode_key : ℕ → ℕ → Option ℕ → ℕ
episode_key m tick none = m * 2 ^ 40
episode_key m tick (some tsj) = m * 2 ^ 40 + (tick - tsj + 1)

-- Without a settlement file no market has a winner.
abbrev winner_in : Option (ℕ → Option ℕ) → ℕ → Option ℕ
winner_in none m = none
winner_in (some w) m = w m

module _ {D : Type 0} ⦃d : Double D⦄ where
  open d use {of_nat, add, sub, mul, div, lt, abs}

  -- `map[key] += x`; a new key starts from 0.
  unfoldable pub add_at : ℕ → D → List (ℕ × D) → List (ℕ × D)
  add_at key x [] = (key, add (of_nat 0) x) ∷ []
  add_at key x ((k, y) ∷ rest) =
      let later = add_at key x rest in if k == key then (k, add y x) ∷ rest else (k, y) ∷ later

  -- The closing line of a bet.
  unfoldable pub score_clv : BetRecord D → D → ℕ → Scores D → Scores D
  score_clv br o_take cb s =
      let o_close = div (of_nat cb) (of_nat 1000) in
      let clv = sub (div o_take o_close) (of_nat 1) in
      let t = record s {
        clv_sum = add s.clv_sum clv;
        clv_stake_sum = add s.clv_stake_sum (mul br.stake clv);
        stake_for_clv = add s.stake_for_clv br.stake;
        n_clv = increment s.n_clv;
      } in
      if ltb cb 1001
      then s
      else if lt o_close o_take
      then record t { beat = increment t.beat; beat_stake = add t.beat_stake br.stake }
      else t

module _ {D : Type 0} ⦃d : Double D⦄ (neg : D → D) where
  open d use {of_nat, add, sub, mul, div, abs}

  -- The profit of a bet, by the winner of its market.
  abbrev pub profit : BetRecord D → D → ℕ → D
  profit br o_take w =
      if w == br.outcome then mul br.stake (sub o_take (of_nat 1)) else neg br.stake

  unfoldable pub score_pnl : BetRecord D → D → Option ℕ → Scores D → Scores D
  score_pnl br o_take none s = s
  score_pnl br o_take (some w) s =
      let m = br.market_id in
      let pnl = profit br o_take w in
      record s {
        market_bet = λ k. if k == m then true else s.market_bet k;
        pnl_market = λ k. if k == m then add (s.pnl_market m) pnl else s.pnl_market k;
        total_pnl = add s.total_pnl pnl;
        total_stake_settled = add s.total_stake_settled br.stake;
      }

  abbrev settled_bucket : BetRecord D → D → Option ℕ → Bucket D → Bucket D
  settled_bucket br o_take none k = k
  settled_bucket br o_take (some w) k = record k {
    pnl = add k.pnl (profit br o_take w);
    pnl_stake = add k.pnl_stake br.stake;
  }

  unfoldable pub score_jump : BetRecord D → D → D → Option ℕ → List ℕ → Scores D → Scores D
  score_jump br o_take mass winner jt s =
      let tick = br.sim_timestamp_ns / tick_interval_ns in
      let tsj = ticks_since_jump jt tick in
      let bk = bucket_of tsj in
      let old = s.buckets bk in
      let new = settled_bucket br o_take winner (record old {
        cnt = increment old.cnt;
        stake = add old.stake br.stake;
        edge_sum = add old.edge_sum mass;
      }) in
      record s {
        buckets = λ k. if k == bk then new else s.buckets k;
        total_edge_mass = add s.total_edge_mass mass;
        episodes = add_at (episode_key br.market_id tick tsj) (abs mass) s.episodes;
      }

  module _ (markets : ℕ) (closing : ℕ → Quad ℕ) (winners : Option (ℕ → Option ℕ))
      (jumps : Option (ℕ → List ℕ)) where
    abbrev jump_scored : BetRecord D → D → D → Option ℕ → Option (ℕ → List ℕ) → Scores D → Scores D
    jump_scored br o_take mass winner none s = s
    jump_scored br o_take mass winner (some jt) s =
        score_jump br o_take mass winner (jt br.market_id) s

    unfoldable pub score_bet : BetRecord D → Scores D → Scores D
    score_bet br s =
        let o_take = div (of_nat br.odds_milli_taken) (of_nat 1000) in
        let edge = sub (mul br.fair_prob o_take) (of_nat 1) in
        let mass = mul br.stake edge in
        let t = record s {
          n_bets = increment s.n_bets;
          total_stake = add s.total_stake br.stake;
          believed_edge = add s.believed_edge mass;
        } in
        let winner = winner_in winners br.market_id in
        if ltb br.market_id markets
        then jump_scored br o_take mass winner jumps (
            score_pnl br o_take winner
              (score_clv br o_take (slot (closing br.market_id) br.outcome) t))
        else t

    unfoldable pub score_bets : List (BetRecord D) → Scores D → Scores D
    score_bets [] s = s
    score_bets (br ∷ brs) s = score_bets brs (score_bet br s)
