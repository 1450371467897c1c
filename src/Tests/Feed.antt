-- ===== src/Tests/Feed.antt =====
-- Runs of the feed, the table and the session file.
use odds_engine.Base.{◌≡◌, ◌+◌, refl, true, [], ◌∷◌, ◌++◌, All, arith, some}
use odds_engine.Base.Bytes.{Bytes}
use odds_engine.Wire.{
  update_fields, session_fields, announce_fields, encode_update, decode_update, encode_session,
  decode_session,
}
use odds_engine.Wire.RoundTrip.{IsUpdate, decode-encode_update, decode-encode_session}
use odds_engine.BookTable.{new, apply, applied, empty_seq, get, is_stale}
use odds_engine.BookTable.Branches.{Outcome, apply-Outcome}
use odds_engine.BookTable.History.{
  apply_all, apply_all-newest, apply_all_counts, applied_count, HoldsNewest,
}
use odds_engine.BookTable.Staleness.{is_stale-apply_sentinel}
use odds_engine.UdpSink.{announce_record}
use odds_engine.UdpSink.Shape.{broadcast, broadcast-Carries, Carries}
use odds_engine.UdpSource.{fresh, next}
use odds_engine.UdpSource.Accounting.{AfterNext, next-AfterNext}
use odds_engine.Delivery.Whole.{HearsAll, broadcast-HearsAll}
use odds_engine.Session.{SessionReader, ok, failed, no_records, open_session}
use odds_engine.Session.Recorded.{counted, record_session, record_unfinished}
use odds_engine.Session.Replay.{read_all, record_session-Replays, record_unfinished-refused}
use odds_engine.Tests.{update, three_updates, header, fit-Fits}

updates_fit : All IsUpdate three_updates
updates_fit = (
  fit-Fits (update_fields (update 5 100000000 1 0)) refl,
  (
    fit-Fits (update_fields (update 6 100000000 1 1)) refl,
    (fit-Fits (update_fields (update 6 200000000 1 0)) refl, tt),
  ),
)

broadcast-HearsAll_example : HearsAll 42 2 2 three_updates (broadcast 42 2 2 three_updates).wire
broadcast-HearsAll_example =
    broadcast-HearsAll 42 2 2 three_updates (omega arith) updates_fit
      (fit-Fits (announce_fields (announce_record 42 2 2)) refl) (omega arith) (omega arith)

broadcast-Carries_example : Carries 42 2 2 three_updates (broadcast 42 2 2 three_updates).wire
broadcast-Carries_example = broadcast-Carries 42 2 2 three_updates (omega arith)

next-AfterNext_example : AfterNext fresh (next ((1 ∷ 2 ∷ []) ∷ []) fresh)
next-AfterNext_example = next-AfterNext ((1 ∷ 2 ∷ []) ∷ []) fresh

apply_all-newest_example : HoldsNewest 1 0 three_updates (get (apply_all 4 4 three_updates new) 1 0)
apply_all-newest_example =
    apply_all-newest 1 0 4 4 three_updates (omega arith) (omega arith)
      (omega arith, (omega arith, (omega arith, tt)))

apply_all_counts_example :
    let t' = apply_all 4 1 three_updates new in
    applied_count 4 1 three_updates new + t'.out_of_range + t'.stale_seq ≡ 3
apply_all_counts_example = apply_all_counts 4 1 three_updates new (omega arith)

apply-Outcome_example :
    let (r, t') = apply 4 4 (update 5 100 1 0) 100 new in
    Outcome 4 4 (update 5 100 1 0) 100 new r t'
apply-Outcome_example = apply-Outcome 4 4 (update 5 100 1 0) 100 new

old_quote : is_stale (apply_all 4 4 three_updates new) 1 1 300000000 200000000 ≡ true
unfolding is_stale apply_all apply
old_quote = refl

sentinel_taken : (apply 4 4 (update empty_seq 100 1 0) 100 new).0 ≡ applied
unfolding apply
sentinel_taken = refl

is_stale-apply_sentinel_example :
    is_stale (apply 4 4 (update empty_seq 100 1 0) 100 new).1 1 0 100 3000 ≡ true
is_stale-apply_sentinel_example =
    is_stale-apply_sentinel 4 4 (update empty_seq 100 1 0) 100 100 3000 new refl sentinel_taken

decode-encode_update_example :
    decode_update (encode_update (update 5 100 1 0) ++ (7 ∷ [])) ≡ update 5 100 1 0
decode-encode_update_example =
    decode-encode_update (update 5 100 1 0) (7 ∷ [])
      (fit-Fits (update_fields (update 5 100 1 0)) refl)

decode-encode_session_example : decode_session (encode_session header ++ []) ≡ header
decode-encode_session_example =
    decode-encode_session header [] (fit-Fits (session_fields header) refl)

record_session-Replays_example :
    (file : Bytes) × (record_session (λ _. true) header three_updates ≡ some file)
    × (r : SessionReader) × (open_session file ≡ ok r)
    × (r.header ≡ counted 3 header)
    × (read_all 4 r ≡ ok three_updates)
record_session-Replays_example =
    record_session-Replays (λ _. true) header three_updates (λ _. refl)
      (fit-Fits (session_fields (counted 3 header)) refl) (refl, refl, refl) updates_fit
      (omega arith) (omega arith)

record_unfinished-refused_example :
    (file : Bytes) × (record_unfinished (λ _. true) header three_updates ≡ some file)
    × (open_session file ≡ failed no_records)
record_unfinished-refused_example =
    record_unfinished-refused (λ _. true) header three_updates (λ _. refl)
      (fit-Fits (session_fields (counted 0 header)) refl) (refl, refl, refl)
