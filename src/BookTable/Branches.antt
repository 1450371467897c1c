-- ===== src/BookTable/Branches.antt =====
-- engine/BookTable.hpp, `apply`: what each branch does and leaves alone.
use odds_engine.Base.{ℕ, ◌≤◌, ◌<◌, ◌≡◌, ◌≢◌, ◌⊎◌, ◌&&◌, arith, ◌==◌, if◌then◌else◌}
use odds_engine.Wire.{OddsUpdate}
use odds_engine.BookTable.{
  BookTable, ApplyResult, applied, rejected_out_of_range, rejected_stale_seq, empty_seq, quote_of,
  increment, apply, get, Quote,
}

-- Every slot of the second table is that of the first.
abbrev pub SameSlots : BookTable → BookTable → Type 0
SameSlots t t' = (m b : ℕ) → get t' m b ≡ get t m b

-- The slot was never written, or the update's number is above the slot's.
abbrev pub Advances : OddsUpdate → Quote → Type 0
Advances u q = (q.seq_no ≡ empty_seq) ⊎ (q.seq_no < u.seq_no)

module _ (max_markets max_books : ℕ) where
  abbrev pub InRange : OddsUpdate → Type 0
  InRange u = (u.market_id < max_markets) × (u.book_id < max_books)

  -- What the table owes its caller for one update.
  abbrev pub Outcome : OddsUpdate → ℕ → BookTable → ApplyResult → BookTable → Type 0
  Outcome u recv_ns t applied t' =
      InRange u
      × Advances u (get t u.market_id u.book_id)
      × ((m b : ℕ)
          → get t' m b
            ≡ (if m == u.market_id && b == u.book_id then quote_of u recv_ns else get t m b))
      × (t'.out_of_range ≡ t.out_of_range)
      × (t'.stale_seq ≡ t.stale_seq)
  Outcome u recv_ns t rejected_out_of_range t' =
      ¬ InRange u
      × SameSlots t t'
      × (t'.out_of_range ≡ increment t.out_of_range)
      × (t'.stale_seq ≡ t.stale_seq)
  Outcome u recv_ns t rejected_stale_seq t' =
      InRange u
      × ((get t u.market_id u.book_id).seq_no ≢ empty_seq)
      × (u.seq_no ≤ (get t u.market_id u.book_id).seq_no)
      × SameSlots t t'
      × (t'.out_of_range ≡ t.out_of_range)
      × (t'.stale_seq ≡ increment t.stale_seq)

  -- The result of `apply` and the table it leaves stand in the relation of that result: a quote is
  -- taken exactly in range on an unwritten slot or with a greater number, and then it fills its
  -- slot and no other; a rejection changes one counter and no slot.
  pub apply-Outcome :
      (u : OddsUpdate) (recv_ns : ℕ) (t : BookTable)
      → let (r, t') = apply max_markets max_books u recv_ns t in Outcome u recv_ns t r t'
  unfolding apply get
  apply-Outcome u recv_ns t = ground arith
