-- ===== src/Verify/Accepts.antt =====
-- tools/verify_session.cpp: what the checks make of a feed of the simulator.
use odds_engine.Base.{
  if-P, ℕ, zero, suc, ◌+◌, ◌*◌, ◌^◌, ◌<◌, ◌≤◌, ◌≡◌, refl, ap, ◌∙◌, Option, none, some, List, [],
  ◌∷◌, ◌==◌, length, length-set, get_or, arith,
}
use odds_engine.Wire.{OddsUpdate}
use odds_engine.BookTable.{increment}
use odds_engine.Session.{Outcome, ok, failed, SessionReader, next}
use odds_engine.Session.Replay.{read_all}
use odds_engine.Sim.Generate.{bump}
use odds_engine.Sim.Feed.{Feed, IsQuote, Below, bump-Below, get_or-bump}
use odds_engine.Verify.{Checks, seq_fault, slot_of, check, check_loop}

abbrev pub check_all : ℕ → List OddsUpdate → Checks → Checks
check_all markets [] st = st
check_all markets (u ∷ us) st = check_all markets us (check markets u st)

-- A number that a book gave out before its next one, `n`.
abbrev Before : ℕ → Option ℕ → Type 0
Before n none = Unit
Before n (some last) = last < n

seq_fault-none : (o : Option ℕ) (n : ℕ) → Before n o → seq_fault o n ≡ 0
seq_fault-none none n h = refl
seq_fault-none (some last) n h = ground arith

Before-mono : (o : Option ℕ) (n n' : ℕ) → n ≤ n' → Before n o → Before n' o
Before-mono none n n' h k = tt
Before-mono (some last) n n' h k = omega arith

-- The checks have found nothing so far, and every number they remember is behind its book's next one.
pub record IsClean (seq_no : List ℕ) (lo : ℕ) (st : Checks) : Type 0 where
  pub seen : (m b : ℕ) → b < 2 ^ 16 → Before (get_or seq_no b 0) (st.last_seq (m * 2 ^ 16 + b))
  pub ts : st.last_ts ≤ lo
  pub none_failed : st.failures ≡ 0
  pub below : Below st.count seq_no

abbrev pub on_ok : (List OddsUpdate → Checks) → Outcome (List OddsUpdate) → Outcome Checks
on_ok f (failed e) = failed e
on_ok f (ok us) = ok (f us)

module _ (markets : ℕ) where
  check-seen :
      {seq_no : List ℕ} {lo hi : ℕ} (u : OddsUpdate) (st : Checks)
      → IsQuote markets seq_no lo hi u
      → length seq_no < 2 ^ 16
      → st.count + 1 < 2 ^ 64
      → IsClean seq_no lo st
      → (m b : ℕ) → b < 2 ^ 16
      → Before (get_or (bump seq_no u.book_id) b 0) ((check markets u st).last_seq (m * 2 ^ 16 + b))
  unfolding check
  check-seen {seq_no} u st q hb small c m b h =
      let after = get_or-bump seq_no u.book_id b q.has_book small c.below in
      if-P (Before (get_or (bump seq_no u.book_id) b 0)) (m * 2 ^ 16 + b == slot_of u) _ _
        (λ e.
          let same : u.book_id ≡ b = ground (arith, e, q.has_book) in
          ground (arith, after, same, q.next_number, ap (λ c. get_or seq_no c 0) same))
        (λ e. Before-mono (st.last_seq (m * 2 ^ 16 + b)) _ _ (ground (arith, after)) (c.seen m b h))

  check-failures :
      {seq_no : List ℕ} {lo hi : ℕ} (u : OddsUpdate) (st : Checks)
      → IsQuote markets seq_no lo hi u
      → length seq_no < 2 ^ 16
      → IsClean seq_no lo st
      → (check markets u st).failures ≡ 0
  unfolding check
  check-failures {seq_no} u st q hb c =
      let before = c.seen u.market_id u.book_id (omega (arith, q.has_book)) in
      let s : seq_fault (st.last_seq (slot_of u)) u.seq_no ≡ 0 =
        seq_fault-none (st.last_seq (slot_of u)) u.seq_no
          (Before-mono (st.last_seq (slot_of u)) _ _ (omega (arith, q.next_number)) before) in
      ground (
        arith, s, q.not_before, c.ts, c.none_failed, q.has_market, q.three, q.range0, q.range1,
        q.range2, q.unused,
      )

  check-IsClean :
      {seq_no : List ℕ} {lo hi : ℕ} (u : OddsUpdate) (st : Checks)
      → IsQuote markets seq_no lo hi u
      → length seq_no < 2 ^ 16
      → st.count + 1 < 2 ^ 64
      → IsClean seq_no lo st
      → IsClean (bump seq_no u.book_id) u.sim_timestamp_ns (check markets u st)
        × ((check markets u st).count ≡ st.count + 1)
  unfolding check
  check-IsClean {seq_no} u st q hb small c = (
    record {
      seen = check-seen u st q hb small c;
      ts = omega arith;
      none_failed = check-failures u st q hb c;
      below = λ b. omega (arith, bump-Below seq_no u.book_id q.has_book small c.below b);
    },
    omega arith,
  )

  -- The checks of a feed find nothing and count its quotes.
  pub check_all-Feed :
      (us : List OddsUpdate) (lo hi : ℕ) (seq_no seq_no' : List ℕ) (st : Checks)
      → length seq_no < 2 ^ 16
      → st.count + length us < 2 ^ 64
      → IsClean seq_no lo st
      → Feed markets seq_no lo hi us seq_no'
      → ((check_all markets us st).failures ≡ 0)
        × ((check_all markets us st).count ≡ st.count + length us)
  check_all-Feed [] lo hi seq_no seq_no' st hb small c f = (c.none_failed, omega arith)
  check_all-Feed (u ∷ us) lo hi seq_no seq_no' st hb small c (q, f) =
      let (c', n) = check-IsClean u st q hb (omega arith) c in
      let (none_failed, total) =
        check_all-Feed us u.sim_timestamp_ns hi (bump seq_no u.book_id) seq_no' (check markets u st)
          (omega (arith, length-set seq_no u.book_id (increment (get_or seq_no u.book_id 0))))
          (omega (arith, n)) c' f in
      (none_failed, omega (arith, n, total))

  one_more :
      (u : OddsUpdate) (st : Checks) (o : Outcome (List OddsUpdate))
      → on_ok (λ us. check_all markets us (check markets u st)) o
        ≡ on_ok
            (λ us. check_all markets us st)
            (elim o [ failed e ↦ failed e | ok us ↦ ok (u ∷ us) ])
  one_more u st (failed e) = refl
  one_more u st (ok us) = refl

  -- The loop of the tool is the reader's calls, with the checks on what they give.
  pub check_loop-read_all :
      (fuel : ℕ) (r : SessionReader) (st : Checks)
      → check_loop fuel markets r st ≡ on_ok (λ us. check_all markets us st) (read_all fuel r)
  unfolding check_loop read_all
  check_loop-read_all zero r st = refl
  check_loop-read_all (suc fuel) r st = go (λ r' st'. check_loop-read_all fuel r' st') (next r)
    where
      go :
          ((r' : SessionReader) (st' : Checks)
            → check_loop fuel markets r' st'
              ≡ on_ok (λ us. check_all markets us st') (read_all fuel r'))
          → (o : Outcome (Option (OddsUpdate × SessionReader)))
          → (elim o [
            | failed e ↦ failed e
            | ok none ↦ ok st
            | ok (some (u, r')) ↦ check_loop fuel markets r' (check markets u st)
          ])
            ≡ on_ok
                (λ us. check_all markets us st)
                (elim o [
                  | failed e ↦ failed e
                  | ok none ↦ ok []
                  | ok (some (u, r')) ↦ elim (read_all fuel r') [
                    | failed e ↦ failed e
                    | ok us ↦ ok (u ∷ us)
                  ]
                ])
      go ih (failed e) = refl
      go ih (ok none) = refl
      go ih (ok (some (u, r'))) = ih r' (check markets u st) ∙ one_more u st (read_all fuel r')
