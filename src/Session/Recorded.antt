-- ===== src/Session/Recorded.antt =====
-- sim/OutputSink.hpp: what a recording leaves in its file, finished and unfinished.
use mathlib.Core.List.{append_assoc, append-nil}
use odds_engine.Base.{
  ℕ, ◌%◌, ◌^◌, ◌<◌, ◌≡◌, refl, sym, ap, subst, ◌∙◌, Bool, true, Option, none, some, inl, inr, List,
  [], ◌∷◌, ◌++◌, ◌==◌, if◌then◌else◌, length, arith, Bool-cases, length-append, nil_of_length,
}
use odds_engine.Base.Bytes.{Bytes, le_bytes, encode}
use odds_engine.Wire.{OddsUpdate, SessionHeader, encode_update, encode_session}
use odds_engine.BookTable.{increment}
use odds_engine.UdpSink.{encode_updates}
use odds_engine.Session.{
  FileSink, patch, count_offset, buffer_records, ◌>>=◌, create, flush, accept, accept_all, finish,
}

pub encode_updates-append :
    (us vs : List OddsUpdate) → encode_updates (us ++ vs) ≡ encode_updates us ++ encode_updates vs
unfolding encode_updates
encode_updates-append [] vs = refl
encode_updates-append (u ∷ us) vs =
    ap (encode_update u ++◌) (encode_updates-append us vs)
    ∙ sym (append_assoc (encode_update u) (encode_updates us) (encode_updates vs))

abbrev pub counted : ℕ → SessionHeader → SessionHeader
counted n h = record h { record_count = n }

-- The patch meets the field that the header's first write left at 0.
patch-encode_session :
    (h : SessionHeader) (n : ℕ) (rest : Bytes)
    → patch count_offset (le_bytes 8 n) (encode_session (counted 0 h) ++ rest)
      ≡ encode_session (counted n h) ++ rest
unfolding encode_session encode le_bytes
patch-encode_session h n rest = refl

-- The sink has accepted `us`: the first of them are in the file, the others in the buffer.
pub record Holds (h : SessionHeader) (us : List OddsUpdate) (s : FileSink) : Type 0 where
  pub flushed : List OddsUpdate
  pub all : us ≡ flushed ++ s.buffer
  pub file_eq : s.file ≡ encode_session (counted 0 h) ++ encode_updates flushed

file_with_buffer :
    (h : SessionHeader) (us : List OddsUpdate) (s : FileSink)
    → (holds : Holds h us s)
    → s.file ++ encode_updates s.buffer ≡ encode_session (counted 0 h) ++ encode_updates us
file_with_buffer h us s holds =
    ap (◌++ encode_updates s.buffer) holds.file_eq
    ∙ append_assoc (encode_session (counted 0 h)) (encode_updates holds.flushed)
        (encode_updates s.buffer)
    ∙ ap (encode_session (counted 0 h) ++◌)
        (sym (encode_updates-append holds.flushed s.buffer) ∙ ap encode_updates (sym holds.all))

-- A whole recording, and one that was not finished: what is in its file then.
abbrev pub record_session : (Bytes → Bool) → SessionHeader → List OddsUpdate → Option Bytes
record_session write_ok h us = create write_ok h >>= accept_all write_ok us >>= finish write_ok

abbrev pub record_unfinished : (Bytes → Bool) → SessionHeader → List OddsUpdate → Option Bytes
record_unfinished write_ok h us = create write_ok h >>= accept_all write_ok us >>= λ s. some s.file

module _ (write_ok : Bytes → Bool) (all_ok : (bs : Bytes) → write_ok bs ≡ true) where
  flush-Holds :
      (h : SessionHeader) (us : List OddsUpdate) (s : FileSink)
      → Holds h us s
      → (s' : FileSink) × (flush write_ok s ≡ some s')
        × Holds h us s'
        × (s'.buffer ≡ [])
        × (s'.record_count ≡ s.record_count)
  unfolding flush
  flush-Holds h us s holds = elim (Bool-cases (length s.buffer == 0)) [
    | inl empty ↦ (s, rw empty refl, holds, nil_of_length s.buffer (ground (arith, empty)), refl)
    | inr full ↦ (
      record s { file = s.file ++ encode_updates s.buffer; buffer = [] },
      rw (full, all_ok (encode_updates s.buffer)) refl,
      record { flushed = us; all = sym (append-nil us); file_eq = file_with_buffer h us s holds },
      refl,
      refl,
    )
  ]

  accept-Holds :
      (h : SessionHeader) (us : List OddsUpdate) (u : OddsUpdate) (s : FileSink)
      → Holds h us s
      → (s' : FileSink) × (accept write_ok u s ≡ some s')
        × Holds h (us ++ (u ∷ [])) s'
        × (s'.record_count ≡ increment s.record_count)
  unfolding accept
  accept-Holds h us u s holds =
      let t : FileSink = record s { buffer = s.buffer ++ (u ∷ []) } in
      let more : Holds h (us ++ (u ∷ [])) t = record {
        flushed = holds.flushed;
        all = ap (◌++ (u ∷ [])) holds.all ∙ append_assoc holds.flushed s.buffer (u ∷ []);
        file_eq = holds.file_eq;
      } in
      elim (Bool-cases (length t.buffer == buffer_records)) [
        | inr room ↦ (
          record t { record_count = increment s.record_count },
          rw room refl,
          record { flushed = more.flushed; all = more.all; file_eq = more.file_eq },
          refl,
        )
        | inl full ↦
            let (t', e, after, empty, same) = flush-Holds h (us ++ (u ∷ [])) t more in
            (
              record t' { record_count = increment t'.record_count },
              rw (full, e) refl,
              record { flushed = after.flushed; all = after.all; file_eq = after.file_eq },
              ap increment same,
            )
      ]

  accept_all-Holds :
      (h : SessionHeader) (before us : List OddsUpdate) (s : FileSink)
      → Holds h before s
      → s.record_count ≡ length before % 2 ^ 64
      → (s' : FileSink) × (accept_all write_ok us s ≡ some s')
        × Holds h (before ++ us) s'
        × (s'.record_count ≡ length (before ++ us) % 2 ^ 64)
  accept_all-Holds h before [] s holds count = rw (append-nil before) (s, refl, holds, count)
  accept_all-Holds h before (u ∷ us) s holds count =
      let (t, e, holds', count') = accept-Holds h before u s holds in
      let (s', e', holds'', count'') =
        accept_all-Holds h (before ++ (u ∷ [])) us t holds'
          (count' ∙ ap increment count ∙ omega (arith, length-append before (u ∷ []))) in
      let same = append_assoc before (u ∷ []) us in
      (
        s',
        ap (◌>>= accept_all write_ok us) e ∙ e',
        subst (λ vs. Holds h vs s') same holds'',
        count'' ∙ ap (λ (vs : List OddsUpdate). length vs % 2 ^ 64) same,
      )

  finish-Holds :
      (h : SessionHeader) (us : List OddsUpdate) (s : FileSink)
      → Holds h us s
      → finish write_ok s ≡ some (encode_session (counted s.record_count h) ++ encode_updates us)
  unfolding finish encode_updates
  finish-Holds h us s holds =
      let (t, e, after, empty, same) = flush-Holds h us s holds in
      let whole : t.file ≡ encode_session (counted 0 h) ++ encode_updates us =
        sym (append-nil t.file)
        ∙ ap (λ us'. t.file ++ encode_updates us') (sym empty)
        ∙ file_with_buffer h us t after in
      ap
        (◌>>= (λ (t : FileSink).
          if write_ok (le_bytes 8 t.record_count)
          then some (patch count_offset (le_bytes 8 t.record_count) t.file)
          else none))
        e
      ∙ ap (λ b. if b then some (patch count_offset (le_bytes 8 t.record_count) t.file) else none)
          (all_ok _)
      ∙ ap (λ f. some (patch count_offset (le_bytes 8 t.record_count) f)) whole
      ∙ ap some (patch-encode_session h t.record_count (encode_updates us))
      ∙ ap (λ n. some (encode_session (counted n h) ++ encode_updates us)) same

  create_lem :
      (h : SessionHeader)
      → create write_ok h
        ≡ some (record { file = encode_session (counted 0 h); buffer = []; record_count = 0 })
  unfolding create
  create_lem h = rw (all_ok (encode_session (counted 0 h))) refl

  pub record_session_lem :
      (h : SessionHeader) (us : List OddsUpdate)
      → length us < 2 ^ 64
      → record_session write_ok h us
        ≡ some (encode_session (counted (length us) h) ++ encode_updates us)
  unfolding encode_updates
  record_session_lem h us few =
      let s0 : FileSink = record {
        file = encode_session (counted 0 h);
        buffer = [];
        record_count = 0;
      } in
      let start : Holds h [] s0 = record {
        flushed = [];
        all = refl;
        file_eq = sym (append-nil _);
      } in
      let (s, e, holds, count) = accept_all-Holds h [] us s0 start (omega arith) in
      ap (λ o. o >>= accept_all write_ok us >>= finish write_ok) (create_lem h)
      ∙ ap (◌>>= finish write_ok) e
      ∙ finish-Holds h us s holds
      ∙ ap (λ n. some (encode_session (counted n h) ++ encode_updates us)) (count ∙ omega arith)

-- What an unfinished recording leaves begins with a header that counts no records.
module _ (write_ok : Bytes → Bool) (all_ok : (bs : Bytes) → write_ok bs ≡ true) where
  pub record_unfinished_lem :
      (h : SessionHeader) (us : List OddsUpdate)
      → (rest : Bytes) × (record_unfinished write_ok h us
          ≡ some (encode_session (counted 0 h) ++ rest))
  unfolding encode_updates
  record_unfinished_lem h us =
      let s0 : FileSink = record {
        file = encode_session (counted 0 h);
        buffer = [];
        record_count = 0;
      } in
      let start : Holds h [] s0 = record {
        flushed = [];
        all = refl;
        file_eq = sym (append-nil _);
      } in
      let (s, e, holds, count) = accept_all-Holds write_ok all_ok h [] us s0 start (omega arith) in
      (
        encode_updates holds.flushed,
        ap (λ o. o >>= accept_all write_ok us >>= λ (s : FileSink). some s.file)
              (create_lem write_ok all_ok h)
            ∙ ap (◌>>= (λ (s : FileSink). some s.file)) e
            ∙ ap some holds.file_eq,
      )
