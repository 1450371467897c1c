-- ===== src/Engine/Market/Best.antt =====
-- engine/main.cpp: the best odds of a market are those of a fresh book, and no fresh book has better.
use odds_engine.Base.{
  ℕ, zero, suc, ◌+◌, ◌≤◌, ◌<◌, ◌≡◌, refl, sym, ap, subst, ◌∙◌, ◌⊎◌, inl, inr, true, false, arith,
  ltb, if◌then◌else◌, Quad, slot, zip_prefix, Bool-cases, splat,
}
use odds_engine.Float.{Double}
use odds_engine.BookTable.{BookTable, get}
use odds_engine.Engine.Control.{LiveConfig}
use odds_engine.Engine.Market.{raise, is_old, walk}

slot-zip_prefix :
    (n i : ℕ) (f : ℕ → ℕ → ℕ) (z q : Quad ℕ)
    → i < 4
    → slot (zip_prefix n f z q) i ≡ (if ltb i n then f (slot z i) (slot q i) else slot z i)
slot-zip_prefix zero zero f z q h = refl
slot-zip_prefix zero (suc zero) f z q h = refl
slot-zip_prefix zero (suc (suc zero)) f z q h = refl
slot-zip_prefix zero (suc (suc (suc zero))) f z q h = refl
slot-zip_prefix (suc zero) zero f z q h = refl
slot-zip_prefix (suc zero) (suc zero) f z q h = refl
slot-zip_prefix (suc zero) (suc (suc zero)) f z q h = refl
slot-zip_prefix (suc zero) (suc (suc (suc zero))) f z q h = refl
slot-zip_prefix (suc (suc zero)) zero f z q h = refl
slot-zip_prefix (suc (suc zero)) (suc zero) f z q h = refl
slot-zip_prefix (suc (suc zero)) (suc (suc zero)) f z q h = refl
slot-zip_prefix (suc (suc zero)) (suc (suc (suc zero))) f z q h = refl
slot-zip_prefix (suc (suc (suc zero))) zero f z q h = refl
slot-zip_prefix (suc (suc (suc zero))) (suc zero) f z q h = refl
slot-zip_prefix (suc (suc (suc zero))) (suc (suc zero)) f z q h = refl
slot-zip_prefix (suc (suc (suc zero))) (suc (suc (suc zero))) f z q h = refl
slot-zip_prefix (suc (suc (suc (suc n)))) zero f z q h = ground arith
slot-zip_prefix (suc (suc (suc (suc n)))) (suc zero) f z q h = ground arith
slot-zip_prefix (suc (suc (suc (suc n)))) (suc (suc zero)) f z q h = ground arith
slot-zip_prefix (suc (suc (suc (suc n)))) (suc (suc (suc zero))) f z q h = ground arith
slot-zip_prefix n (suc (suc (suc (suc i)))) f z q h = absurd (omega arith)

pub slot-splat : (i : ℕ) → i < 4 → slot {A = ℕ} (splat 0) i ≡ 0
slot-splat zero h = refl
slot-splat (suc zero) h = refl
slot-splat (suc (suc zero)) h = refl
slot-splat (suc (suc (suc i))) h = refl

-- What `raise` leaves in a slot.
pub raise-slot :
    (n i : ℕ) (best odds : Quad ℕ)
    → i < 4
    → let r = slot (raise n best odds) i in
      (slot best i ≤ r)
      × (i < n → slot odds i ≤ r)
      × ((r ≡ slot best i) ⊎ ((i < n) × (r ≡ slot odds i)))
unfolding raise
raise-slot n i best odds h =
    rw (slot-zip_prefix n i (λ b o. if ltb b o then o else b) best odds h) (ground arith)

module _ {D : Type 0} ⦃d : Double D⦄ (table : BookTable) (cfg : LiveConfig D) (ts m : ℕ) where
  -- Book b quotes outcome i and its quote is not stale.
  abbrev pub Quotes : ℕ → ℕ → Type 0
  Quotes b i = (is_old table cfg ts m b ≡ false) × (i < (get table m b).outcome_count)

  abbrev pub quoted_odds : ℕ → ℕ → ℕ
  quoted_odds b i = slot (get table m b).odds_milli i

  -- The best of what was best before and of the books from b to b + n - 1.
  pub record IsBest (b n i before x : ℕ) : Type 0 where
    pub above_before : before ≤ x
    pub above_books : (b' : ℕ) → b ≤ b' → b' < b + n → Quotes b' i → quoted_odds b' i ≤ x
    pub source : (x ≡ before) ⊎ ((b' : ℕ) × (b' < b + n) × Quotes b' i × (x ≡ quoted_odds b' i))

  at_or_after : (b b' : ℕ) → b ≤ b' → (b' ≡ b) ⊎ (b + 1 ≤ b')
  at_or_after b b' h = ground arith

  IsBest-old :
      (b n i before x : ℕ)
      → is_old table cfg ts m b ≡ true
      → IsBest (b + 1) n i before x
      → IsBest b (suc n) i before x
  IsBest-old b n i before x old r = record {
    above_before = r.above_before;
    above_books = λ b' l u q. elim (at_or_after b b' l) [
      | inl e ↦ absurd (cc (ap (is_old table cfg ts m) e, q.0, old))
      | inr l' ↦ r.above_books b' l' (omega arith) q
    ];
    source = elim r.source [ inl e ↦ inl e | inr (b', u, q, e) ↦ inr (b', omega (arith, u), q, e) ];
  }

  IsBest-fresh :
      (b n i before between x : ℕ)
      → is_old table cfg ts m b ≡ false
      → before ≤ between
      → (i < (get table m b).outcome_count → quoted_odds b i ≤ between)
      → (between ≡ before) ⊎ ((i < (get table m b).outcome_count) × (between ≡ quoted_odds b i))
      → IsBest (b + 1) n i between x
      → IsBest b (suc n) i before x
  IsBest-fresh b n i before between x fresh up own from r = record {
    above_before = omega (arith, up, r.above_before);
    above_books = λ b' l u q. elim (at_or_after b b' l) [
      | inl e ↦
          subst (λ k. Quotes k i → quoted_odds k i ≤ x) (sym e)
            (λ q'. omega (arith, own q'.1, r.above_before)) q
      | inr l' ↦ r.above_books b' l' (omega arith) q
    ];
    source = elim r.source [
      | inl e ↦ elim from [
        | inl e' ↦ inl (e ∙ e')
        | inr (few, e') ↦ inr (b, omega arith, (fresh, few), e ∙ e')
      ]
      | inr (b', u, q, e) ↦ inr (b', omega (arith, u), q, e)
    ];
  }

  walk-IsBest :
      (b n i : ℕ) (best : Quad ℕ)
      → i < 4
      → IsBest b n i (slot best i) (slot (walk table cfg ts m b n best).0 i)
  unfolding walk
  walk-IsBest b zero i best h = record {
    above_before = omega arith;
    above_books = λ b' l u q. absurd (omega arith);
    source = inl refl;
  }
  walk-IsBest b (suc n) i best h = elim (Bool-cases (is_old table cfg ts m b)) [
    | inl old ↦ rw old (IsBest-old b n i _ _ old (walk-IsBest (b + 1) n i best h))
    | inr fresh ↦
        let q = get table m b in
        let next = raise q.outcome_count best q.odds_milli in
        let (up, own, from) = raise-slot q.outcome_count i best q.odds_milli h in
        rw fresh
          (IsBest-fresh b n i _ (slot next i) _ fresh up own from (walk-IsBest (b + 1) n i next h))
  ]

  -- The best odds of an outcome are at least those of every fresh book that quotes it, and where they
  -- are not 0 they are the odds of one of them.
  pub walk_all-IsBest :
      (books i : ℕ) → i < 4 → IsBest 0 books i 0 (slot (walk table cfg ts m 0 books (splat 0)).0 i)
  walk_all-IsBest books i h =
      subst (λ k. IsBest 0 books i k (slot (walk table cfg ts m 0 books (splat 0)).0 i))
        (slot-splat i h) (walk-IsBest 0 books i (splat 0) h)
