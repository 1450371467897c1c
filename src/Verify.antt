-- ===== src/Verify.antt =====
-- tools/verify_session.cpp: the checks of a session file. The text of the failures is left out.
pub mod Accepts
pub mod Whole
use odds_engine.Base.{
  ℕ, zero, suc, ◌+◌, ◌*◌, ◌^◌, Bool, not, ◌||◌, Option, none, some, ltb, leb, ◌==◌, if◌then◌else◌,
}
use odds_engine.Base.Bytes.{Bytes}
use odds_engine.Wire.{OddsUpdate}
use odds_engine.BookTable.{increment}
use odds_engine.Session.{Outcome, ok, failed, truncated, SessionReader, open_session, next}

-- The map of the newest sequence numbers is a function of the slot. `failures` is an `int` there.
pub record Checks : Type 0 where
  pub last_seq : ℕ → Option ℕ
  pub last_ts : ℕ
  pub count : ℕ
  pub failures : ℕ

abbrev pub no_checks : Checks
no_checks = record { last_seq = λ s. none; last_ts = 0; count = 0; failures = 0 }

abbrev pub fault : Bool → ℕ
fault b = if b then 1 else 0

-- `(market_id << 16) | book_id`, of two 16-bit numbers.
abbrev pub slot_of : OddsUpdate → ℕ
slot_of u = u.market_id * 2 ^ 16 + u.book_id

abbrev pub seq_fault : Option ℕ → ℕ → ℕ
seq_fault none seq = 0
seq_fault (some last) seq = fault (leb seq last)

-- The odds in slot i, of n outcomes.
abbrev pub odds_fault : ℕ → ℕ → ℕ → ℕ
odds_fault i n o = if ltb i n then fault (ltb o 1001 || ltb 1000000 o) else fault (not (o == 0))

unfoldable pub check : ℕ → OddsUpdate → Checks → Checks
check markets u st =
    let n = u.outcome_count in
    let q = u.odds_milli in
    let slot = slot_of u in
    record {
      last_seq = λ s. if s == slot then some u.seq_no else st.last_seq s;
      last_ts = u.sim_timestamp_ns;
      count = increment st.count;
      failures =
          st.failures
          + fault (leb markets u.market_id)
          + fault (ltb n 2 || ltb 4 n)
          + seq_fault (st.last_seq slot) u.seq_no
          + fault (ltb u.sim_timestamp_ns st.last_ts)
          + odds_fault 0 n q.s0
          + odds_fault 1 n q.s1
          + odds_fault 2 n q.s2
          + odds_fault 3 n q.s3;
    }

-- The loop over the records; `fuel` is more than the records.
unfoldable pub check_loop : ℕ → ℕ → SessionReader → Checks → Outcome Checks
check_loop zero markets r st = failed truncated
check_loop (suc fuel) markets r st = elim (next r) [
  | failed e ↦ failed e
  | ok none ↦ ok st
  | ok (some (u, r')) ↦ check_loop fuel markets r' (check markets u st)
]

abbrev pub verdict : ℕ → Outcome Checks → ℕ
verdict record_count (failed e) = 1
verdict record_count (ok st) =
    if st.failures + fault (not (st.count == record_count)) == 0 then 0 else 1

-- From the reader on that opened the file, or its exception.
abbrev pub exit_code : Outcome SessionReader → ℕ
exit_code (failed e) = 1
exit_code (ok r) =
    verdict r.header.record_count
      (check_loop (suc r.header.record_count) r.header.markets r no_checks)

-- The exit code of `verify_session` on a file.
unfoldable pub verify_session : Bytes → ℕ
verify_session file = exit_code (open_session file)
