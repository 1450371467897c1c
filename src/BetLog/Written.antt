-- ===== src/BetLog/Written.antt =====
-- engine/BetLog.hpp: what a log file holds at its end.
use mathlib.Core.List.{append_assoc, append-nil}
use odds_engine.Base.{
  ℕ, ◌%◌, ◌^◌, ◌<◌, ◌≡◌, refl, sym, ap, subst, ◌∙◌, Bool, true, none, some, inl, inr, List, [], ◌∷◌,
  ◌++◌, ◌==◌, if◌then◌else◌, length, arith, Bool-cases, length-append, nil_of_length,
}
use odds_engine.Base.Bytes.{Bytes, le_bytes, encode}
use odds_engine.BookTable.{increment}
use odds_engine.Session.{patch, ◌>>=◌}
use odds_engine.Engine.Market.{BetRecord}
use odds_engine.BetLog.{
  BetLogSink, bet_count_offset, bet_buffer_records, encode_log_header, encode_bet, encode_bets,
  open_log, flush_log, accept_bet, finish_log, accept_bets, log_file,
}

module _ {D : Type 0} (image : D → Bytes) where
  encode_bets-append :
      (us vs : List (BetRecord D))
      → encode_bets image (us ++ vs) ≡ encode_bets image us ++ encode_bets image vs
  unfolding encode_bets
  encode_bets-append [] vs = refl
  encode_bets-append (u ∷ us) vs =
      ap (encode_bet image u ++◌) (encode_bets-append us vs)
      ∙ sym (append_assoc (encode_bet image u) (encode_bets image us) (encode_bets image vs))

  -- The patch meets the field that the header's first write left at 0.
  patch-encode_log_header :
      (seed : ℕ) (n : ℕ) (rest : Bytes)
      → patch bet_count_offset (le_bytes 8 n) (encode_log_header seed 0 ++ rest)
        ≡ encode_log_header seed n ++ rest
  unfolding encode_log_header encode le_bytes
  patch-encode_log_header seed n rest = refl

  -- The sink has accepted `us`: the first of them are in the file, the others in the buffer.
  pub record Holds (seed : ℕ) (us : List (BetRecord D)) (s : BetLogSink D) : Type 0 where
    pub flushed : List (BetRecord D)
    pub all : us ≡ flushed ++ s.buffer
    pub file_eq : s.file ≡ encode_log_header seed 0 ++ encode_bets image flushed

  file_with_buffer :
      (seed : ℕ) (us : List (BetRecord D)) (s : BetLogSink D)
      → (holds : Holds seed us s)
      → s.file ++ encode_bets image s.buffer ≡ encode_log_header seed 0 ++ encode_bets image us
  file_with_buffer seed us s holds =
      ap (◌++ encode_bets image s.buffer) holds.file_eq
      ∙ append_assoc (encode_log_header seed 0) (encode_bets image holds.flushed)
          (encode_bets image s.buffer)
      ∙ ap (encode_log_header seed 0 ++◌)
          (sym (encode_bets-append holds.flushed s.buffer) ∙ ap (encode_bets image) (sym holds.all))

  module _ (write_ok : Bytes → Bool) (all_ok : (bs : Bytes) → write_ok bs ≡ true) where
    flush-Holds :
        (seed : ℕ) (us : List (BetRecord D)) (s : BetLogSink D)
        → Holds seed us s
        → (s' : BetLogSink D) × (flush_log image write_ok s ≡ some s')
          × Holds seed us s'
          × (s'.buffer ≡ [])
          × (s'.record_count ≡ s.record_count)
    unfolding flush_log
    flush-Holds seed us s holds = elim (Bool-cases (length s.buffer == 0)) [
      | inl empty ↦ (s, rw empty refl, holds, nil_of_length s.buffer (ground (arith, empty)), refl)
      | inr full ↦ (
        record s { file = s.file ++ encode_bets image s.buffer; buffer = [] },
        rw (full, all_ok (encode_bets image s.buffer)) refl,
        record {
          flushed = us;
          all = sym (append-nil us);
          file_eq = file_with_buffer seed us s holds;
        },
        refl,
        refl,
      )
    ]

    accept-Holds :
        (seed : ℕ) (us : List (BetRecord D)) (u : BetRecord D) (s : BetLogSink D)
        → Holds seed us s
        → (s' : BetLogSink D) × (accept_bet image write_ok u s ≡ some s')
          × Holds seed (us ++ (u ∷ [])) s'
          × (s'.record_count ≡ increment s.record_count)
    unfolding accept_bet
    accept-Holds seed us u s holds =
        let t : BetLogSink D = record s { buffer = s.buffer ++ (u ∷ []) } in
        let more : Holds seed (us ++ (u ∷ [])) t = record {
          flushed = holds.flushed;
          all = ap (◌++ (u ∷ [])) holds.all ∙ append_assoc holds.flushed s.buffer (u ∷ []);
          file_eq = holds.file_eq;
        } in
        elim (Bool-cases (length t.buffer == bet_buffer_records)) [
          | inr room ↦ (
            record t { record_count = increment s.record_count },
            rw room refl,
            record { flushed = more.flushed; all = more.all; file_eq = more.file_eq },
            refl,
          )
          | inl full ↦
              let (t', e, after, empty, same) = flush-Holds seed (us ++ (u ∷ [])) t more in
              (
                record t' { record_count = increment t'.record_count },
                rw (full, e) refl,
                record { flushed = after.flushed; all = after.all; file_eq = after.file_eq },
                ap increment same,
              )
        ]

    accept_all-Holds :
        (seed : ℕ) (before us : List (BetRecord D)) (s : BetLogSink D)
        → Holds seed before s
        → s.record_count ≡ length before % 2 ^ 64
        → (s' : BetLogSink D) × (accept_bets image write_ok us s ≡ some s')
          × Holds seed (before ++ us) s'
          × (s'.record_count ≡ length (before ++ us) % 2 ^ 64)
    accept_all-Holds seed before [] s holds count = rw (append-nil before) (s, refl, holds, count)
    accept_all-Holds seed before (u ∷ us) s holds count =
        let (t, e, holds', count') = accept-Holds seed before u s holds in
        let (s', e', holds'', count'') =
          accept_all-Holds seed (before ++ (u ∷ [])) us t holds'
            (count' ∙ ap increment count ∙ omega (arith, length-append before (u ∷ []))) in
        let same = append_assoc before (u ∷ []) us in
        (
          s',
          ap (◌>>= accept_bets image write_ok us) e ∙ e',
          subst (λ vs. Holds seed vs s') same holds'',
          count'' ∙ ap (λ (vs : List (BetRecord D)). length vs % 2 ^ 64) same,
        )

    finish-Holds :
        (seed : ℕ) (us : List (BetRecord D)) (s : BetLogSink D)
        → Holds seed us s
        → finish_log image write_ok s
          ≡ some (encode_log_header seed s.record_count ++ encode_bets image us)
    unfolding finish_log encode_bets
    finish-Holds seed us s holds =
        let (t, e, after, empty, same) = flush-Holds seed us s holds in
        let whole : t.file ≡ encode_log_header seed 0 ++ encode_bets image us =
          sym (append-nil t.file)
          ∙ ap (λ us'. t.file ++ encode_bets image us') (sym empty)
          ∙ file_with_buffer seed us t after in
        ap
          (◌>>= (λ (t : BetLogSink D).
            if write_ok (le_bytes 8 t.record_count)
            then some (patch bet_count_offset (le_bytes 8 t.record_count) t.file)
            else none))
          e
        ∙ ap
            (λ b.
              if b then some (patch bet_count_offset (le_bytes 8 t.record_count) t.file) else none)
            (all_ok _)
        ∙ ap (λ f. some (patch bet_count_offset (le_bytes 8 t.record_count) f)) whole
        ∙ ap some (patch-encode_log_header seed t.record_count (encode_bets image us))
        ∙ ap (λ n. some (encode_log_header seed n ++ encode_bets image us)) same

    create_lem :
        (seed : ℕ)
        → open_log image write_ok seed
          ≡ some (record { file = encode_log_header seed 0; buffer = []; record_count = 0 })
    unfolding open_log
    create_lem seed = rw (all_ok (encode_log_header seed 0)) refl

    -- On a disk that takes every write, the file of a log is its header, with the seed and the number of
    -- its records, and then every accepted bet in order, however the buffer was flushed.
    pub log_file_lem :
        (seed : ℕ) (us : List (BetRecord D))
        → length us < 2 ^ 64
        → log_file image write_ok seed us
          ≡ some (encode_log_header seed (length us) ++ encode_bets image us)
    unfolding encode_bets log_file
    log_file_lem seed us few =
        let s0 : BetLogSink D = record {
          file = encode_log_header seed 0;
          buffer = [];
          record_count = 0;
        } in
        let start : Holds seed [] s0 = record {
          flushed = [];
          all = refl;
          file_eq = sym (append-nil _);
        } in
        let (s, e, holds, count) = accept_all-Holds seed [] us s0 start (omega arith) in
        ap (λ o. o >>= accept_bets image write_ok us >>= finish_log image write_ok)
          (create_lem seed)
        ∙ ap (◌>>= finish_log image write_ok) e
        ∙ finish-Holds seed us s holds
        ∙ ap (λ n. some (encode_log_header seed n ++ encode_bets image us)) (count ∙ omega arith)
