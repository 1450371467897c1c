-- ===== src/BookTable/History.antt =====
-- engine/BookTable.hpp as engine/main.cpp feeds it: what a slot holds after a whole feed.
use mathlib.Core.List.{append_assoc, append-nil}
use odds_engine.Base.{
  ℕ, suc, ◌+◌, ◌^◌, ◌≤◌, ◌<◌, ◌≡◌, refl, ap, ◌∙◌, ◌⊎◌, inl, inr, ◌&&◌, List, [], ◌∷◌, ◌++◌, arith,
  ◌==◌, ltb, if◌then◌else◌, All, All-append, All-imp, length,
}
use odds_engine.Wire.{OddsUpdate}
use odds_engine.BookTable.{
  BookTable, applied, Quote, empty_seq, empty_quote, quote_of, apply, get, new,
}

-- `table.apply(u, u.sim_timestamp_ns)` for each record of the feed.
unfoldable pub apply_all : ℕ → ℕ → List OddsUpdate → BookTable → BookTable
apply_all max_markets max_books [] t = t
apply_all max_markets max_books (u ∷ us) t =
    apply_all max_markets max_books us (apply max_markets max_books u u.sim_timestamp_ns t).1

abbrev pub own_quote : OddsUpdate → Quote
own_quote u = quote_of u u.sim_timestamp_ns

module _ (m b : ℕ) where
  abbrev pub Addresses : OddsUpdate → Type 0
  Addresses u = (u.market_id ≡ m) × (u.book_id ≡ b)

  -- The first update of the slot with the greatest number.
  pub record IsFirstMax (us : List OddsUpdate) (x : OddsUpdate) : Type 0 where
    pub pre : List OddsUpdate
    pub post : List OddsUpdate
    pub split : us ≡ pre ++ (x ∷ post)
    pub addressed : Addresses x
    pub below : All (λ u. Addresses u → u.seq_no < x.seq_no) pre
    pub at_most : All (λ u. Addresses u → u.seq_no ≤ x.seq_no) post

  -- What the slot owes its reader: nothing if no update names it, and else the quote of that update.
  abbrev pub HoldsNewest : List OddsUpdate → Quote → Type 0
  HoldsNewest us q =
      (All (λ u. ¬ Addresses u) us × (q ≡ empty_quote))
      ⊎ ((x : OddsUpdate) × IsFirstMax us x × (q ≡ own_quote x))

  slot_step : OddsUpdate → Quote → Quote
  slot_step u q =
      if u.market_id == m && u.book_id == b
      then (if q.seq_no == empty_seq
          then own_quote u
          else (if ltb q.seq_no u.seq_no then own_quote u else q))
      else q

  -- A slot in range reads nothing of the other slots' updates.
  get-apply :
      (max_markets max_books : ℕ) (u : OddsUpdate) (t : BookTable)
      → m < max_markets
      → b < max_books
      → get (apply max_markets max_books u u.sim_timestamp_ns t).1 m b ≡ slot_step u (get t m b)
  unfolding get apply slot_step
  get-apply max_markets max_books u t hm hb = ground arith

  slot_step_other : (u : OddsUpdate) (q : Quote) → ¬ Addresses u → slot_step u q ≡ q
  unfolding slot_step
  slot_step_other u q n = ground arith

  slot_step_empty : (u : OddsUpdate) → Addresses u → slot_step u empty_quote ≡ own_quote u
  unfolding slot_step
  slot_step_empty u a = ground arith

  slot_step_written :
      (u x : OddsUpdate)
      → x.seq_no < empty_seq
      → Addresses u
      → ((x.seq_no < u.seq_no) × (slot_step u (own_quote x) ≡ own_quote u))
        ⊎ ((u.seq_no ≤ x.seq_no) × (slot_step u (own_quote x) ≡ own_quote x))
  unfolding slot_step
  slot_step_written u x r a = ground arith

  Addresses-cases : (u : OddsUpdate) → Addresses u ⊎ (¬ Addresses u)
  Addresses-cases u = ground arith

  extend :
      {us : List OddsUpdate} {x : OddsUpdate} (u : OddsUpdate)
      → IsFirstMax us x
      → (Addresses u → u.seq_no ≤ x.seq_no)
      → IsFirstMax (us ++ (u ∷ [])) x
  extend {us} {x} u f h = record {
    pre = f.pre;
    post = f.post ++ (u ∷ []);
    split = rw f.split (append_assoc f.pre (x ∷ f.post) (u ∷ []));
    addressed = f.addressed;
    below = f.below;
    at_most = All-append _ f.post (u ∷ []) f.at_most (h, tt);
  }

  each_below :
      {us : List OddsUpdate} {x : OddsUpdate} (u : OddsUpdate)
      → IsFirstMax us x
      → x.seq_no < u.seq_no
      → All (λ v. Addresses v → v.seq_no < u.seq_no) us
  each_below {us} {x} u f h = rw f.split (
      All-append _ f.pre (x ∷ f.post) (All-imp f.pre (λ v p a. omega (arith, p a)) f.below)
        ((λ a. h), All-imp f.post (λ v p a. omega (arith, p a)) f.at_most))

  -- An update with the greatest number yet, behind updates of smaller numbers.
  new_max :
      (us : List OddsUpdate) (u : OddsUpdate)
      → Addresses u
      → All (λ v. Addresses v → v.seq_no < u.seq_no) us
      → IsFirstMax (us ++ (u ∷ [])) u
  new_max us u a h = record {
    pre = us;
    post = [];
    split = refl;
    addressed = a;
    below = h;
    at_most = tt;
  }

  -- A number that the sentinel does not shadow.
  abbrev pub IsReal : OddsUpdate → Type 0
  IsReal u = u.seq_no < empty_seq

  IsReal-of_first_max :
      {us : List OddsUpdate} {x : OddsUpdate} → All IsReal us → IsFirstMax us x → IsReal x
  IsReal-of_first_max {us} {x} r f = All-member f.pre (rw f.split at r)
    where
      All-member : (pre : List OddsUpdate) → All IsReal (pre ++ (x ∷ f.post)) → IsReal x
      All-member [] h = h.0
      All-member (v ∷ vs) h = All-member vs h.1

  slot_step-HoldsNewest :
      (us : List OddsUpdate) (u : OddsUpdate) {q : Quote}
      → All IsReal us
      → HoldsNewest us q
      → HoldsNewest (us ++ (u ∷ [])) (slot_step u q)
  slot_step-HoldsNewest us u r (inl (none_yet, e)) = elim (Addresses-cases u) [
    | inl a ↦ inr (
      u,
      new_max us u a (All-imp us (λ v n w. absurd (n w)) none_yet),
      ap (slot_step u) e ∙ slot_step_empty u a,
    )
    | inr n ↦ inl (All-append _ us (u ∷ []) none_yet (n, tt), slot_step_other u _ n ∙ e)
  ]
  slot_step-HoldsNewest us u {q} r (inr (x, f, e)) = elim (Addresses-cases u) [
    | inl a ↦ elim (slot_step_written u x (IsReal-of_first_max r f) a) [
      | inl (lt, s) ↦ inr (u, new_max us u a (each_below u f lt), ap (slot_step u) e ∙ s)
      | inr (le, s) ↦ inr (x, extend u f (λ _. le), ap (slot_step u) e ∙ s)
    ]
    | inr n ↦ inr (x, extend u f (λ a. absurd (n a)), slot_step_other u q n ∙ e)
  ]

  apply_all-HoldsNewest :
      (max_markets max_books : ℕ) (before us : List OddsUpdate) (t : BookTable)
      → m < max_markets
      → b < max_books
      → All IsReal before
      → All IsReal us
      → HoldsNewest before (get t m b)
      → HoldsNewest (before ++ us) (get (apply_all max_markets max_books us t) m b)
  unfolding apply_all
  apply_all-HoldsNewest mm mb before [] t hm hb rb ru h = rw (append-nil before) h
  apply_all-HoldsNewest mm mb before (u ∷ us) t hm hb rb (r, ru) h =
      rw (← append_assoc before (u ∷ []) us) (
        apply_all-HoldsNewest mm mb (before ++ (u ∷ [])) us (apply mm mb u u.sim_timestamp_ns t).1
          hm hb (All-append _ before (u ∷ []) rb (r, tt)) ru
          (rw (get-apply mm mb u t hm hb) (slot_step-HoldsNewest before u rb h)))

  -- After any feed whose numbers stay below the sentinel, a slot of the table in range is empty if no
  -- update named it, and else holds the quote of the first update of the greatest number among those
  -- that named it: whatever the order, the duplicates and the other slots' records.
  pub apply_all-newest :
      (max_markets max_books : ℕ) (us : List OddsUpdate)
      → m < max_markets
      → b < max_books
      → All IsReal us
      → HoldsNewest us (get (apply_all max_markets max_books us new) m b)
  unfolding get
  apply_all-newest mm mb us hm hb r =
      apply_all-HoldsNewest mm mb [] us new hm hb tt r (inl (tt, refl))

-- Every record is counted once: the slots' writes and the two rejection counters add up.
pub applied_count : ℕ → ℕ → List OddsUpdate → BookTable → ℕ
applied_count max_markets max_books [] t = 0
applied_count max_markets max_books (u ∷ us) t =
    let (r, t') = apply max_markets max_books u u.sim_timestamp_ns t in
    let rest = applied_count max_markets max_books us t' in elim r [ applied ↦ suc rest | _ ↦ rest ]

-- Until a counter would wrap, the records taken and the two counters of the rejected add up to the
-- length of the feed.
pub apply_all_counts :
    (max_markets max_books : ℕ) (us : List OddsUpdate) (t : BookTable)
    → t.out_of_range + t.stale_seq + length us < 2 ^ 64
    → let t' = apply_all max_markets max_books us t in
      applied_count max_markets max_books us t + t'.out_of_range + t'.stale_seq
      ≡ t.out_of_range + t.stale_seq + length us
unfolding apply_all applied_count apply
apply_all_counts mm mb [] t h = omega arith
apply_all_counts mm mb (u ∷ us) t h =
    ground (arith, apply_all_counts mm mb us (apply mm mb u u.sim_timestamp_ns t).1)
