-- ===== src/Tests/Pricing.antt =====
-- Runs of the pricing and the sizing, in thousandths.
use mathlib.Core.List.{Perm}
use odds_engine.Base.{◌≡◌, ◌↔◌, ℕ, refl, true, List, [], ◌∷◌, some, quad}
use odds_engine.Float.Fixed.{
  Fixed, fixed-Double, fixed-IsOrdered, fixed-IsArithmetic, fixed-IsBisecting, fixed-IsDividing,
}
use odds_engine.Consensus.{BookInput, fair_price}
use odds_engine.Consensus.Mean.{
  ArePositive, first_count, price_of, fair_price-price_of, has_fair_price_iff,
}
use odds_engine.Kelly.{
  allocate, order, choose, valid_input, valid_pairs, insert_key, insert_keys, feasible, stake_set,
  capped_result,
}
use odds_engine.Kelly.Order.{NotBelow, Chain, order-sorted}
use odds_engine.Kelly.Choice.{IsLongest, choose-IsLongest}
use odds_engine.Kelly.Exposure.{IsSound, allocate-IsSound}
use odds_engine.Devig.{
  usable_as_distribution, multiplicative, booksum, no_margin, valid_odds, each_valid,
}
use odds_engine.Devig.Fair.{IsFair, multiplicative-IsFair}
use odds_engine.Devig.Power.{power, upper, f, df, grow, newton, refine}
use odds_engine.Devig.Power.Bracket.{Grown, upper-Grown}
use odds_engine.Devig.Power.Verdict.{IsPowerRoot, power-IsPowerRoot}

abbrev even_odds : List Fixed
even_odds = some 1900 ∷ some 1900 ∷ []

abbrev long_odds : List Fixed
long_odds = some 2500 ∷ some 2800 ∷ some 3000 ∷ []

abbrev chances : List Fixed
chances = some 500 ∷ some 300 ∷ some 250 ∷ []

abbrev book : Fixed → BookInput Fixed
book w = record {
  prob = quad (some 500) (some 300) (some 200) (some 0);
  count = 3;
  weight = w;
  available = true;
}

abbrev two_books : List (BookInput Fixed)
two_books = book (some 1000) ∷ book (some 2000) ∷ []

weights_positive : ArePositive two_books
weights_positive = ((λ _. refl), ((λ _. refl), tt))

fair_price-price_of_example : fair_price two_books ≡ price_of (first_count two_books) two_books
fair_price-price_of_example =
    fair_price-price_of fixed-IsOrdered fixed-IsArithmetic two_books weights_positive

has_fair_price_iff_example :
    ((fair_price two_books).has_fair_price ≡ true) ↔ ((n : ℕ) × (first_count two_books ≡ some n))
has_fair_price_iff_example =
    has_fair_price_iff fixed-IsOrdered fixed-IsArithmetic two_books weights_positive

bet_found : (allocate chances long_odds (some 250) (some 50)).has_bet ≡ true
unfolding allocate order choose valid_input valid_pairs insert_key insert_keys feasible stake_set
    capped_result
bet_found = refl

allocate-IsSound_example :
    IsSound chances long_odds (some 250) (some 50) (allocate chances long_odds (some 250) (some 50))
allocate-IsSound_example =
    allocate-IsSound fixed-IsOrdered chances long_odds (some 250) (some 50) bet_found

choose-IsLongest_example :
    IsLongest chances long_odds (0 ∷ 1 ∷ 2 ∷ []) 3 (choose chances long_odds (0 ∷ 1 ∷ 2 ∷ []) 3)
choose-IsLongest_example = choose-IsLongest chances long_odds (0 ∷ 1 ∷ 2 ∷ []) 3

order-sorted_example :
    Perm (order chances long_odds) (0 ∷ 1 ∷ 2 ∷ [])
    × Chain chances long_odds (NotBelow chances long_odds) (order chances long_odds)
order-sorted_example = order-sorted chances long_odds fixed-IsOrdered

even_usable : usable_as_distribution (multiplicative even_odds) ≡ true
unfolding usable_as_distribution multiplicative valid_odds each_valid booksum no_margin
even_usable = refl

multiplicative-IsFair_example : IsFair even_odds (multiplicative even_odds)
multiplicative-IsFair_example =
    multiplicative-IsFair even_odds fixed-IsOrdered fixed-IsArithmetic fixed-IsDividing even_usable

upper-Grown_example :
    Grown (some 474 ∷ some 474 ∷ []) fixed-IsArithmetic (upper (some 474 ∷ some 474 ∷ []))
upper-Grown_example = upper-Grown (some 474 ∷ some 474 ∷ []) fixed-IsArithmetic

power_usable : usable_as_distribution (power (some 1) 100 even_odds) ≡ true
unfolding usable_as_distribution power valid_odds each_valid f df grow newton refine no_margin
power_usable = refl

power-IsPowerRoot_example : IsPowerRoot (some 1) 100 even_odds (power (some 1) 100 even_odds)
power-IsPowerRoot_example =
    power-IsPowerRoot fixed-IsOrdered fixed-IsArithmetic fixed-IsBisecting (some 1) 100 even_odds
      power_usable
