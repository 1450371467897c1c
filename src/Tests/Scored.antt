-- ===== src/Tests/Scored.antt =====
-- Runs of the scoring.
use odds_engine.Base.{ℕ, ◌≡◌, ◌<◌, ◌^◌, refl, true, some, List, [], ◌∷◌, slot, All, arith}
use odds_engine.Analysis.{
  last_until, ticks_since_jump, jumps_of, insert, sort, sorted_jumps, bucket_of, note_quote,
  note_quotes, closing_from, closing_best,
}
use odds_engine.Engine.Market.{raise}
use odds_engine.Analysis.Jumps.{IsDistance, sorted_jumps-IsDistance}
use odds_engine.Analysis.Timeline.{IsJump, read_jump_file, read_jump_file-jump_file}
use odds_engine.Sim.Generate.{JumpRecord, TruthRecord}
use odds_engine.Truth.{TruthReader, open_truth, find, first_at, open_truth-finds}
use odds_engine.Sim.Timeline.{jump_file}
use odds_engine.Base.Bytes.{Bytes}
use odds_engine.Analysis.Closing.{IsClosing, closing_best-IsClosing}
use odds_engine.Tests.{three_updates}

abbrev jump_ticks : List ℕ
jump_ticks = 10 ∷ 50 ∷ 90 ∷ []

since_fifty : ticks_since_jump jump_ticks 74 ≡ some 24
unfolding ticks_since_jump last_until
since_fifty = refl

bucket_of_24 : bucket_of (some 24) ≡ 1
unfolding bucket_of
bucket_of_24 = refl

-- The file has another market's jump, and is not in order.
abbrev recorded : List JumpRecord
recorded =
    record { tick = 50; market_id = 1 }
    ∷ record { tick = 70; market_id = 0 }
    ∷ record { tick = 90; market_id = 1 }
    ∷ record { tick = 10; market_id = 1 }
    ∷ []

sorted_recorded : sorted_jumps 2 recorded 1 ≡ jump_ticks
unfolding sorted_jumps jumps_of sort insert
sorted_recorded = refl

sorted_jumps-IsDistance_example :
    IsDistance (jumps_of 2 recorded 1) 74 (ticks_since_jump (sorted_jumps 2 recorded 1) 74)
sorted_jumps-IsDistance_example = sorted_jumps-IsDistance 2 recorded 1 74

recorded-IsJump : All IsJump recorded
recorded-IsJump =
    let fits : (t m : ℕ) → t < 2 ^ 64 → m < 2 ^ 16 → IsJump (record { tick = t; market_id = m }) =
      λ t m h k. (omega arith, (omega arith, (omega arith, tt))) in
    (
      fits 50 1 (omega arith) (omega arith),
      (
        fits 70 0 (omega arith) (omega arith),
        (fits 90 1 (omega arith) (omega arith), (fits 10 1 (omega arith) (omega arith), tt)),
      ),
    )

read_jump_file-jump_file_example :
    (file : Bytes) × (jump_file (λ bs. true) 42 2 recorded ≡ some file)
    × (read_jump_file file ≡ some recorded)
read_jump_file-jump_file_example =
    read_jump_file-jump_file (λ bs. true) 42 2 recorded (λ bs. refl) (omega arith) (omega arith)
      recorded-IsJump

-- Book 1 has the better odds.
best_of_three : slot (closing_best 2 2 three_updates 1) 0 ≡ 2101
unfolding closing_best note_quotes note_quote closing_from raise
best_of_three = refl

closing_best-IsClosing_example :
    IsClosing 2 three_updates 1 0 (slot (closing_best 2 2 three_updates 1) 0)
closing_best-IsClosing_example =
    closing_best-IsClosing 2 2 three_updates 1 0 (omega arith) (omega arith)

abbrev truth_at : ℕ → ℕ → ℕ → TruthRecord ℕ
truth_at t m p = record {
  tick = t;
  market_id = m;
  outcome_count = 3;
  prob = record { o0 = p; o1 = 300; o2 = 200 };
}

-- The record of the first tick stands twice, with other numbers.
abbrev truths : List (TruthRecord ℕ)
truths = truth_at 1 0 500 ∷ truth_at 1 1 400 ∷ truth_at 1 0 600 ∷ []

first_truth : first_at 1 0 truths ≡ some (truth_at 1 0 500)
first_truth = refl

open_truth-finds_example :
    (t : TruthReader ℕ) × (open_truth truths ≡ some t) × (find 1 0 t ≡ first_at 1 0 truths)
open_truth-finds_example =
    open_truth-finds truths 1 0
      ((omega arith, omega arith), ((omega arith, omega arith), ((omega arith, omega arith), tt)))
      (omega arith) (omega arith) (omega arith) (omega arith)
