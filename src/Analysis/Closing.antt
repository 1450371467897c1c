-- ===== src/Analysis/Closing.antt =====
-- analytics/analyze_bets.cpp: the closing line is the best of the books' last quotes.
use odds_engine.Base.{
  ℕ, zero, suc, ◌+◌, ◌≤◌, ◌<◌, ◌≡◌, refl, ap, subst, ◌∙◌, ◌⊎◌, inl, inr, false, ◌&&◌, ◌||◌, Option,
  none, some, List, [], ◌∷◌, leb, ◌==◌, if◌then◌else◌, arith, Quad, slot, splat, Bool-cases,
  Option-cases,
}
use odds_engine.Wire.{OddsUpdate}
use odds_engine.Engine.Market.{raise}
use odds_engine.Engine.Market.Best.{raise-slot, slot-splat}
use odds_engine.Analysis.{
  LastQuotes, no_quotes, note_quote, note_quotes, closing_from, closing_best,
}

-- The last record of a market and a book.
abbrev pub last_of : ℕ → ℕ → List OddsUpdate → Option OddsUpdate → Option OddsUpdate
last_of m b [] before = before
last_of m b (u ∷ us) before =
    last_of m b us (if m == u.market_id && b == u.book_id then some u else before)

abbrev count_of : Option OddsUpdate → ℕ
count_of none = 0
count_of (some u) = u.outcome_count

abbrev odds_in : Option OddsUpdate → Quad ℕ
odds_in none = splat 0
odds_in (some u) = u.odds_milli

module _ (markets books m b : ℕ) (has_market : m < markets) (has_book : b < books) where
  -- The arrays hold the record.
  abbrev Holds : LastQuotes → Option OddsUpdate → Type 0
  Holds q o = (q.last_count m b ≡ count_of o) × (q.last_odds m b ≡ odds_in o)

  note_quote-Holds :
      (u : OddsUpdate) (q : LastQuotes) (o : Option OddsUpdate)
      → Holds q o
      → Holds
          (note_quote markets books u q)
          (if m == u.market_id && b == u.book_id then some u else o)
  unfolding note_quote
  note_quote-Holds u q o h = elim (Bool-cases (m == u.market_id && b == u.book_id)) [
    | inl same ↦
        let inside : (leb markets u.market_id || leb books u.book_id) ≡ false =
          ground (arith, same) in
        rw (inside, same) (refl, refl)
    | inr other ↦ elim (Bool-cases (leb markets u.market_id || leb books u.book_id)) [
      | inl out ↦ rw (out, other) h
      | inr inside ↦ rw (inside, other) h
    ]
  ]

  note_quotes-Holds :
      (us : List OddsUpdate) (q : LastQuotes) (o : Option OddsUpdate)
      → Holds q o
      → Holds (note_quotes markets books us q) (last_of m b us o)
  unfolding note_quotes
  note_quotes-Holds [] q o h = h
  note_quotes-Holds (u ∷ us) q o h =
      note_quotes-Holds us (note_quote markets books u q) _ (note_quote-Holds u q o h)

-- The best of what was best before and of the last quotes of the books from b to b + n - 1.
record IsBestOf (q : LastQuotes) (m b n i before x : ℕ) : Type 0 where
  above_before : before ≤ x
  above_books :
      (b' : ℕ) → b ≤ b' → b' < b + n → i < q.last_count m b' → slot (q.last_odds m b') i ≤ x
  source :
      (x ≡ before)
      ⊎ ((b' : ℕ) × (b' < b + n) × (i < q.last_count m b') × (x ≡ slot (q.last_odds m b') i))

at_or_after : (b b' : ℕ) → b ≤ b' → (b ≡ b') ⊎ (b + 1 ≤ b')
at_or_after b b' h = ground arith

closing_from-IsBestOf :
    (q : LastQuotes) (m b n i : ℕ) (best : Quad ℕ)
    → i < 4
    → IsBestOf q m b n i (slot best i) (slot (closing_from q m b n best) i)
unfolding closing_from
closing_from-IsBestOf q m b zero i best h = record {
  above_before = omega arith;
  above_books = λ b' l u k. absurd (omega arith);
  source = inl refl;
}
closing_from-IsBestOf q m b (suc n) i best h =
    let next = raise (q.last_count m b) best (q.last_odds m b) in
    let x = slot (closing_from q m (b + 1) n next) i in
    let (up, own, from) = raise-slot (q.last_count m b) i best (q.last_odds m b) h in
    let r = closing_from-IsBestOf q m (b + 1) n i next h in
    record {
      above_before = omega (arith, up, r.above_before);
      above_books = λ b' l u. elim (at_or_after b b' l) [
        | inl e ↦
            subst (λ k. i < q.last_count m k → slot (q.last_odds m k) i ≤ x) e
              (λ c. omega (arith, own c, r.above_before))
        | inr l' ↦ r.above_books b' l' (omega arith)
      ];
      source = elim r.source [
        | inl e ↦ elim from [
          | inl e' ↦ inl (e ∙ e')
          | inr (c, e') ↦ inr (b, omega arith, c, e ∙ e')
        ]
        | inr (b', u, c, e) ↦ inr (b', omega (arith, u), c, e)
      ];
    }

-- At least the odds of each book's last record that has the outcome, and 0 or the odds of one of them.
pub record IsClosing (books : ℕ) (us : List OddsUpdate) (m i x : ℕ) : Type 0 where
  pub above :
      (b : ℕ) (u : OddsUpdate)
      → b < books
      → last_of m b us none ≡ some u
      → i < u.outcome_count
      → slot u.odds_milli i ≤ x
  pub attained :
      (x ≡ 0)
      ⊎ ((b : ℕ) × (u : OddsUpdate) × (b < books)
          × (last_of m b us none ≡ some u)
          × (i < u.outcome_count)
          × (x ≡ slot u.odds_milli i))

-- The closing line of an outcome is at least the odds of every book's last record for the market that
-- has the outcome, and it is 0 or the odds of one of these; earlier records and records out of the
-- session's shape do not count. For a market and an outcome in range.
pub closing_best-IsClosing :
    (markets books : ℕ) (us : List OddsUpdate) (m i : ℕ)
    → m < markets
    → i < 4
    → IsClosing books us m i (slot (closing_best markets books us m) i)
unfolding closing_best
closing_best-IsClosing markets books us m i has_market h =
    let q = note_quotes markets books us no_quotes in
    let r = closing_from-IsBestOf q m 0 books i (splat 0) h in
    let holds = λ (b : ℕ) (k : b < books).
      note_quotes-Holds markets books m b has_market k us no_quotes none (refl, refl) in
    record {
      above = λ b u k e c.
          let (count, odds) = holds b k in
          omega (
            arith,
            r.above_books b (omega arith) (omega (arith, k))
                (omega (arith, count, ap count_of e, c)),
            ap (λ o. slot o i) (odds ∙ ap odds_in e),
          );
      attained = elim r.source [
        | inl e ↦ inl (e ∙ slot-splat i h)
        | inr (b, k, c, e) ↦
            let k' : b < books = omega (arith, k) in
            let (count, odds) = holds b k' in
            elim (Option-cases (last_of m b us none)) [
              | inl nothing ↦ absurd (omega (arith, count, ap count_of nothing, c))
              | inr (u, found) ↦ inr (
                b,
                u,
                k',
                found,
                omega (arith, count, ap count_of found, c),
                e ∙ ap (λ o. slot o i) (odds ∙ ap odds_in found),
              )
            ]
      ];
    }
