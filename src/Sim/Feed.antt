-- ===== src/Sim/Feed.antt =====
-- What the simulator promises of the quotes that it sends, one after the other.
use odds_engine.Base.{
  ℕ, suc, ◌+◌, ◌^◌, ◌<◌, ◌≤◌, ◌≡◌, ap, subst, sym, ◌∙◌, List, [], ◌∷◌, ◌++◌, length, get_or, All,
  arith, if◌then◌else◌, length-set, get_or-set_self, get_or-set_ne, Bool-cases, ◌==◌, ==_iff, inl,
  inr,
}
use odds_engine.Wire.{OddsUpdate}
use odds_engine.Wire.RoundTrip.{IsUpdate}
use odds_engine.BookTable.{increment}
use odds_engine.Sim.{outcomes}
use odds_engine.Sim.Bookmaker.Bounds.{InRange}
use odds_engine.Sim.Generate.{bump}

-- A quote of one of the first `markets` markets, at a time from `lo` to `hi`, that takes the next
-- number of its book; `seq_no` holds the next numbers.
pub record IsQuote (markets : ℕ) (seq_no : List ℕ) (lo hi : ℕ) (u : OddsUpdate) : Type 0 where
  pub next_number : u.seq_no ≡ get_or seq_no u.book_id 0
  pub not_before : lo ≤ u.sim_timestamp_ns
  pub not_after : u.sim_timestamp_ns ≤ hi
  pub has_book : u.book_id < length seq_no
  pub has_market : u.market_id < markets
  pub three : u.outcome_count ≡ outcomes
  pub range0 : InRange u.odds_milli.s0
  pub range1 : InRange u.odds_milli.s1
  pub range2 : InRange u.odds_milli.s2
  pub unused : u.odds_milli.s3 ≡ 0

-- Each quote is one, at a time not before the last one's; the numbers end at `seq_no'`.
abbrev pub Feed : ℕ → List ℕ → ℕ → ℕ → List OddsUpdate → List ℕ → Type 0
Feed markets seq_no lo hi [] seq_no' = seq_no ≡ seq_no'
Feed markets seq_no lo hi (u ∷ us) seq_no' =
    IsQuote markets seq_no lo hi u
    × Feed markets (bump seq_no u.book_id) u.sim_timestamp_ns hi us seq_no'

IsQuote-widen :
    {markets lo lo' hi hi' : ℕ} {seq_no : List ℕ} (u : OddsUpdate)
    → lo' ≤ lo
    → hi ≤ hi'
    → IsQuote markets seq_no lo hi u
    → IsQuote markets seq_no lo' hi' u
IsQuote-widen u h k q = record {
  next_number = q.next_number;
  not_before = omega (arith, q.not_before);
  not_after = omega (arith, q.not_after);
  has_book = q.has_book;
  has_market = q.has_market;
  three = q.three;
  range0 = q.range0;
  range1 = q.range1;
  range2 = q.range2;
  unused = q.unused;
}

module _ (markets : ℕ) where
  Feed-widen :
      (us : List OddsUpdate) (seq_no seq_no' : List ℕ) (lo lo' hi : ℕ)
      → lo' ≤ lo
      → Feed markets seq_no lo hi us seq_no'
      → Feed markets seq_no lo' hi us seq_no'
  Feed-widen [] seq_no seq_no' lo lo' hi h f = f
  Feed-widen (u ∷ us) seq_no seq_no' lo lo' hi h f = (IsQuote-widen u h (omega arith) f.0, f.1)

  -- One feed behind the other.
  pub Feed-append :
      (us vs : List OddsUpdate) (lo mid hi : ℕ) (seq_no seq_no' seq_no'' : List ℕ)
      → lo ≤ mid
      → mid ≤ hi
      → Feed markets seq_no lo mid us seq_no'
      → Feed markets seq_no' mid hi vs seq_no''
      → Feed markets seq_no lo hi (us ++ vs) seq_no''
  Feed-append [] vs lo mid hi seq_no seq_no' seq_no'' h k same f =
      subst (λ q. Feed markets q lo hi vs seq_no'') (sym same)
        (Feed-widen vs seq_no' seq_no'' mid lo hi h f)
  Feed-append (u ∷ us) vs lo mid hi seq_no seq_no' seq_no'' h k (q, f) g = (
    IsQuote-widen u (omega arith) k q,
    Feed-append us vs u.sim_timestamp_ns mid hi (bump seq_no u.book_id) seq_no' seq_no''
        (omega (arith, q.not_after)) k f g,
  )

  pub length-Feed :
      (us : List OddsUpdate) (lo hi : ℕ) (seq_no seq_no' : List ℕ)
      → Feed markets seq_no lo hi us seq_no'
      → length seq_no' ≡ length seq_no
  length-Feed [] lo hi seq_no seq_no' same = ap length (sym same)
  length-Feed (u ∷ us) lo hi seq_no seq_no' (q, f) =
      length-Feed us u.sim_timestamp_ns hi (bump seq_no u.book_id) seq_no' f
      ∙ length-set seq_no u.book_id (increment (get_or seq_no u.book_id 0))

-- No number of a book is above n.
abbrev pub Below : ℕ → List ℕ → Type 0
Below n seq_no = (b : ℕ) → get_or seq_no b 0 ≤ n

-- The numbers after one more quote of book b.
pub get_or-bump :
    {n : ℕ} (seq_no : List ℕ) (b c : ℕ)
    → b < length seq_no
    → n + 1 < 2 ^ 64
    → Below n seq_no
    → get_or (bump seq_no b) c 0 ≡ (if b == c then get_or seq_no c 0 + 1 else get_or seq_no c 0)
get_or-bump seq_no b c h small below =
    let v = increment (get_or seq_no b 0) in
    elim (Bool-cases (b == c)) [
      | inl e ↦
          let same : b ≡ c = (==_iff b c).0 e in
          rw e (
            subst (λ c. get_or (bump seq_no b) c 0 ≡ get_or seq_no c 0 + 1) same
              (get_or-set_self seq_no b v 0 h ∙ omega (arith, below b)))
      | inr apart ↦ rw apart (get_or-set_ne seq_no b c v 0 (λ e. ground (arith, apart, e)))
    ]

pub bump-Below :
    {n : ℕ} (seq_no : List ℕ) (b : ℕ)
    → b < length seq_no
    → n + 1 < 2 ^ 64
    → Below n seq_no
    → Below (suc n) (bump seq_no b)
bump-Below seq_no b h small below c = ground (arith, get_or-bump seq_no b c h small below, below c)

IsQuote-IsUpdate :
    {markets lo hi n : ℕ} {seq_no : List ℕ} (u : OddsUpdate)
    → markets < 2 ^ 16
    → length seq_no < 2 ^ 16
    → hi < 2 ^ 64
    → n < 2 ^ 64
    → Below n seq_no
    → IsQuote markets seq_no lo hi u
    → IsUpdate u
IsQuote-IsUpdate u hm hb ht hn below i = (
  omega (arith, i.next_number, below u.book_id),
  (
    omega (arith, i.not_after),
    (
      omega (arith, i.has_book),
      (
        omega (arith, i.has_market),
        (
          omega (arith, i.three),
          (
            omega arith,
            (
              omega (arith, i.range0),
              (
                omega (arith, i.range1),
                (omega (arith, i.range2), (omega (arith, i.unused), (omega arith, tt))),
              ),
            ),
          ),
        ),
      ),
    ),
  ),
)

-- The fields of the quotes of a feed are in the ranges of their types.
pub Feed-IsUpdate :
    (markets hi : ℕ) (us : List OddsUpdate) (lo n : ℕ) (seq_no seq_no' : List ℕ)
    → markets < 2 ^ 16
    → length seq_no < 2 ^ 16
    → hi < 2 ^ 64
    → n + length us < 2 ^ 64
    → Below n seq_no
    → Feed markets seq_no lo hi us seq_no'
    → All IsUpdate us
Feed-IsUpdate markets hi [] lo n seq_no seq_no' hm hb ht hn below f = tt
Feed-IsUpdate markets hi (u ∷ us) lo n seq_no seq_no' hm hb ht hn below (i, f) = (
  IsQuote-IsUpdate u hm hb ht (omega arith) below i,
  Feed-IsUpdate markets hi us u.sim_timestamp_ns (suc n) (bump seq_no u.book_id) seq_no' hm
      (omega (arith, length-set seq_no u.book_id (increment (get_or seq_no u.book_id 0)))) ht
      (omega arith) (bump-Below seq_no u.book_id i.has_book (omega arith) below) f,
)
