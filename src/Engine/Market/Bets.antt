-- ===== src/Engine/Market/Bets.antt =====
-- engine/main.cpp: what a logged bet rests on, and that no index leaves the four outcome slots.
use odds_engine.Base.{
  ℕ, zero, suc, ◌+◌, ◌≤◌, ◌<◌, ◌≡◌, refl, sym, subst, ◌∙◌, ◌⊎◌, inl, inr, Bool, true, false, List,
  [], ◌∷◌, map, arith, if◌then◌else◌, Quad, slot, splat, prefix, All, All-imp, Bool-cases, ltb,
}
use odds_engine.Float.{Double}
use odds_engine.BookTable.{BookTable, Quote, get}
use odds_engine.Consensus.{
  BookInput, ConsensusResult, visit, visit_all, normalise, fair_price, no_result,
}
use odds_engine.Devig.{valid_odds, no_margin, multiplicative}
use odds_engine.Devig.Power.{power}
use odds_engine.Devig.Shin.{shin}
use odds_engine.Kelly.{AllocationResult}
use odds_engine.Engine.Control.{
  DevigMethod, multiplicative_method, power_method, shin_method, LiveConfig,
}
use odds_engine.Engine.Market.{
  BetRecord, min_odds_milli, all_quoted, run_devig, book_input, absent, decimal, is_old, walk,
  bets_from, size_market, price,
}
use odds_engine.Engine.Market.Best.{Quotes, quoted_odds, walk_all-IsBest}

All-if :
    {A : Type 0} (P : A → Type 0)
    → (b : Bool) (xs : List A) → All P xs
    → All P (if b then xs else [])
All-if P true xs h = h
All-if P false xs h = tt

module _ {D : Type 0} ⦃d : Double D⦄ where
  open d use {of_nat, le}

  multiplicative-few : (odds : List D) → (multiplicative odds).count ≤ 4
  unfolding multiplicative valid_odds no_margin
  multiplicative-few odds = ground arith

  power-few : (tol : D) (rounds : ℕ) (odds : List D) → (power tol rounds odds).count ≤ 4
  unfolding power valid_odds no_margin
  power-few tol rounds odds = ground arith

  shin-few : (tol : D) (rounds : ℕ) (odds : List D) → (shin tol rounds odds).count ≤ 4
  unfolding shin valid_odds no_margin
  shin-few tol rounds odds = ground arith

  run_devig-few : (method : DevigMethod) (odds : List D) → (run_devig method odds).count ≤ 4
  unfolding run_devig
  run_devig-few multiplicative_method odds = multiplicative-few odds
  run_devig-few power_method odds = power-few _ _ odds
  run_devig-few shin_method odds = shin-few _ _ odds

  abbrev pub HasFew : BookInput D → Type 0
  HasFew b = b.count ≤ 4

  book_input-HasFew :
      (cfg : LiveConfig D) (q : Quote) → HasFew (book_input {D = D} cfg.devig_method q)
  unfolding book_input
  book_input-HasFew cfg q =
      ground
        (arith, run_devig-few cfg.devig_method (map decimal (prefix q.outcome_count q.odds_milli)))

  visit_all-few :
      (bs : List (BookInput D)) (out : ConsensusResult D)
      → All HasFew bs
      → out.count ≤ 4
      → (visit_all out bs).count ≤ 4
  unfolding visit_all visit
  visit_all-few [] out h k = k
  visit_all-few (b ∷ bs) out (h, hs) k = visit_all-few bs (visit out b) hs (ground arith)

  fair_price-few : (bs : List (BookInput D)) → All HasFew bs → (fair_price bs).count ≤ 4
  unfolding fair_price normalise
  fair_price-few bs h = ground (arith, visit_all-few bs no_result h (omega arith))

  module _ (table : BookTable) (cfg : LiveConfig D) (ts m : ℕ) where
    walk-HasFew : (b n : ℕ) (best : Quad ℕ) → All HasFew (walk table cfg ts m b n best).1
    unfolding walk
    walk-HasFew b zero best = tt
    walk-HasFew b (suc n) best = (few (is_old table cfg ts m b), walk-HasFew (b + 1) n _)
      where
        few :
            (old : Bool)
            → HasFew (if old then absent else book_input cfg.devig_method (get table m b))
        few true = omega arith
        few false = book_input-HasFew cfg (get table m b)

    -- A fair price has at most four outcomes.
    pub price-few : (books : ℕ) → (price table cfg ts m books).0.count ≤ 4
    price-few books = fair_price-few _ (walk-HasFew 0 books (splat 0))

    module _ (fair : ConsensusResult D) (best : Quad ℕ) where
      -- What `bets_from` takes over from its arguments.
      abbrev Copies : BetRecord D → Type 0
      Copies r =
          (r.sim_timestamp_ns ≡ ts)
          × (r.market_id ≡ m)
          × (r.outcome < fair.count)
          × (le r.stake (of_nat 0) ≡ false)
          × (r.odds_milli_taken ≡ slot best r.outcome)
          × (r.fair_prob ≡ slot fair.prob r.outcome)

      bets_from-Copies :
          (alloc : AllocationResult D) (i n : ℕ)
          → i + n ≤ fair.count
          → All Copies (bets_from table cfg ts m fair best alloc i n)
      unfolding bets_from
      bets_from-Copies alloc i zero h = tt
      bets_from-Copies alloc i (suc n) h = elim (Bool-cases (le (slot alloc.stake i) (of_nat 0))) [
        | inl none ↦ rw none (bets_from-Copies alloc (i + 1) n (omega arith))
        | inr some ↦ rw some (
          (refl, refl, omega arith, some, refl, refl),
          bets_from-Copies alloc (i + 1) n (omega arith),
        )
      ]

      size_market-Copies : All Copies (size_market table cfg ts m fair best)
      unfolding size_market
      size_market-Copies =
          All-if Copies (all_quoted best 0 fair.count) _
            (All-if Copies _ _ (bets_from-Copies _ 0 fair.count (omega arith)))

      -- Where there is a bet, all outcomes were quoted.
      size_market_none :
          all_quoted best 0 fair.count ≡ false → size_market table cfg ts m fair best ≡ []
      unfolding size_market
      size_market_none e = rw e refl

all_quoted-le :
    (best : Quad ℕ) (i n k : ℕ)
    → all_quoted best i n ≡ true
    → i ≤ k
    → k < i + n
    → min_odds_milli ≤ slot best k
unfolding all_quoted
all_quoted-le best i zero k q l u = absurd (omega arith)
all_quoted-le best i (suc n) k q l u = elim (Bool-cases (ltb (slot best i) min_odds_milli)) [
  | inl low ↦ absurd (ground arith)
  | inr high ↦ elim (here_or_after i k l) [
    | inl e ↦ subst (λ j. min_odds_milli ≤ slot best j) (sym e) (ground (arith, high))
    | inr l' ↦ all_quoted-le best (i + 1) n k (ground (arith, q, high)) l' (omega arith)
  ]
]
  where
    here_or_after : (i k : ℕ) → i ≤ k → (k ≡ i) ⊎ (i + 1 ≤ k)
    here_or_after i k h = ground arith

module _ {D : Type 0} ⦃d : Double D⦄ where
  open d use {of_nat, le}

  -- A bet of the tick at ts: in a market of the feed, with a positive stake, at odds of at least 1001
  -- that a fresh book quotes for the outcome and that no fresh book beats.
  pub record IsTaken (table : BookTable) (cfg : LiveConfig D) (ts markets books : ℕ)
      (r : BetRecord D) : Type 0 where
    pub at_tick : r.sim_timestamp_ns ≡ ts
    pub in_feed : r.market_id < markets
    pub in_slots : r.outcome < 4
    pub staked : le r.stake (of_nat 0) ≡ false
    pub real_odds : min_odds_milli ≤ r.odds_milli_taken
    pub quoted_by :
        (b : ℕ) × (b < books)
        × Quotes table cfg ts r.market_id b r.outcome
        × (r.odds_milli_taken ≡ quoted_odds table cfg ts r.market_id b r.outcome)
    pub unbeaten :
        (b : ℕ)
        → b < books
        → Quotes table cfg ts r.market_id b r.outcome
        → quoted_odds table cfg ts r.market_id b r.outcome ≤ r.odds_milli_taken

  module _ (table : BookTable) (cfg : LiveConfig D) (ts m markets books : ℕ)
      (inside : m < markets) where
    abbrev fair : ConsensusResult D
    fair = (price table cfg ts m books).0

    abbrev best : Quad ℕ
    best = (price table cfg ts m books).1

    IsTaken-of_copied :
        (r : BetRecord D)
        → all_quoted best 0 fair.count ≡ true
        → Copies table cfg ts m fair best r
        → IsTaken table cfg ts markets books r
    IsTaken-of_copied r quoted (e_ts, e_m, few, pos, e_odds, e_prob) =
        let four : r.outcome < 4 = omega (arith, price-few table cfg ts m books) in
        let top = walk_all-IsBest table cfg ts m books r.outcome four in
        let real = all_quoted-le best 0 fair.count r.outcome quoted (omega arith) (omega arith) in
        record {
          at_tick = e_ts;
          in_feed = omega arith;
          in_slots = four;
          staked = pos;
          real_odds = omega arith;
          quoted_by = elim top.source [
            | inl none ↦ absurd (omega (arith, none, real))
            | inr (b, u, q, e) ↦
                subst
                  (λ k.
                    (b : ℕ) × (b < books)
                    × Quotes table cfg ts k b r.outcome
                    × (r.odds_milli_taken ≡ quoted_odds table cfg ts k b r.outcome))
                  (sym e_m) (b, omega (arith, u), q, e_odds ∙ e)
          ];
          unbeaten = λ b u.
              subst
                (λ k.
                  Quotes table cfg ts k b r.outcome
                  → quoted_odds table cfg ts k b r.outcome ≤ r.odds_milli_taken)
                (sym e_m)
                (λ q. omega (arith, top.above_books b (omega arith) (omega (arith, u)) q));
        }

    -- The bets of a market rest on the quotes of the table.
    pub size_market-IsTaken :
        All (IsTaken table cfg ts markets books) (size_market table cfg ts m fair best)
    size_market-IsTaken = elim (Bool-cases (all_quoted best 0 fair.count)) [
      | inr missing ↦ rw (size_market_none table cfg ts m fair best missing) tt
      | inl quoted ↦
          All-imp _ (λ r. IsTaken-of_copied r quoted) (size_market-Copies table cfg ts m fair best)
    ]
