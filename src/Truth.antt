-- ===== src/Truth.antt =====
-- engine/TruthReader.hpp: the index of the recorded probabilities by tick and market. The records of
-- the file are a list; the hash map is an association list, in which a key stands once.
use odds_engine.Base.{
  ℕ, ◌+◌, ◌*◌, ◌%◌, ◌^◌, ◌<◌, ◌≡◌, refl, sym, ap, ◌∙◌, Bool, true, false, ◌&&◌, Option, none, some,
  inl, inr, List, [], ◌∷◌, ◌==◌, if◌then◌else◌, length, All, arith, Bool-cases,
}
use odds_engine.BookTable.{increment}
use odds_engine.Sim.Generate.{TruthRecord}

-- `(tick << 16) | market_id`, of a market of 16 bits.
unfoldable pub make_key : ℕ → ℕ → ℕ
make_key tick market_id = tick * 2 ^ 16 % 2 ^ 64 + market_id

pub record TruthReader (D : Type 0) : Type 0 where
  pub index : List (ℕ × TruthRecord D)
  pub count : ℕ

make_key-same :
    (t m t' m' : ℕ)
    → t < 2 ^ 48
    → m < 2 ^ 16
    → t' < 2 ^ 48
    → m' < 2 ^ 16
    → (make_key t m == make_key t' m') ≡ (t == t' && m == m')
unfolding make_key
make_key-same t m t' m' h k h' k' = ground arith

module _ {D : Type 0} where
  unfoldable pub lookup : ℕ → List (ℕ × TruthRecord D) → Option (TruthRecord D)
  lookup key [] = none
  lookup key ((k, r) ∷ rest) = let later = lookup key rest in if k == key then some r else later

  -- A key that is there keeps its record.
  abbrev pub emplaced :
      Option (TruthRecord D)
      → ℕ
      → TruthRecord D
      → List (ℕ × TruthRecord D)
      → List (ℕ × TruthRecord D)
  emplaced (some old) key r index = index
  emplaced none key r index = (key, r) ∷ index

  unfoldable pub emplace : ℕ → TruthRecord D → List (ℕ × TruthRecord D) → List (ℕ × TruthRecord D)
  emplace key r index = emplaced (lookup key index) key r index

  unfoldable pub load : List (TruthRecord D) → TruthReader D → TruthReader D
  load [] t = t
  load (r ∷ rs) t = load rs (record {
    index = emplace (make_key r.tick r.market_id) r t.index;
    count = increment t.count;
  })

  -- none is the exception of an empty file.
  unfoldable pub open_truth : List (TruthRecord D) → Option (TruthReader D)
  open_truth rs =
      let t = load rs (record { index = []; count = 0 }) in if t.count == 0 then none else some t

  unfoldable pub find : ℕ → ℕ → TruthReader D → Option (TruthRecord D)
  find tick market_id t = lookup (make_key tick market_id) t.index

  -- The reference: the first record of the file for the tick and the market.
  abbrev pub first_at : ℕ → ℕ → List (TruthRecord D) → Option (TruthRecord D)
  first_at tick m [] = none
  first_at tick m (r ∷ rs) =
      let later = first_at tick m rs in if r.tick == tick && r.market_id == m then some r else later

  abbrev or_else : Option (TruthRecord D) → Option (TruthRecord D) → Option (TruthRecord D)
  or_else none later = later
  or_else (some r) later = some r

  -- The range in which the packing keeps two records apart.
  abbrev pub IsKeyed : TruthRecord D → Type 0
  IsKeyed r = (r.tick < 2 ^ 48) × (r.market_id < 2 ^ 16)

  or_else-none : (o : Option (TruthRecord D)) → or_else o none ≡ o
  or_else-none none = refl
  or_else-none (some r) = refl

  at_key :
      (key k : ℕ) (r : TruthRecord D) (index : List (ℕ × TruthRecord D))
      (old : Option (TruthRecord D))
      → lookup key index ≡ old
      → (k == key) ≡ true
      → lookup key (emplaced old k r index)
        ≡ or_else (lookup key index) (if k == key then some r else none)
  unfolding lookup
  at_key key k r index none here e = rw (e, here) refl
  at_key key k r index (some o) here e = rw (e, here) refl

  off_key :
      (key k : ℕ) (r : TruthRecord D) (index : List (ℕ × TruthRecord D))
      (old : Option (TruthRecord D))
      → (k == key) ≡ false
      → lookup key (emplaced old k r index)
        ≡ or_else (lookup key index) (if k == key then some r else none)
  unfolding lookup
  off_key key k r index none e = rw e (sym (or_else-none (lookup key index)))
  off_key key k r index (some o) e = rw e (sym (or_else-none (lookup key index)))

  lookup-emplaced :
      (key k : ℕ) (r : TruthRecord D) (index : List (ℕ × TruthRecord D))
      (old : Option (TruthRecord D))
      → lookup k index ≡ old
      → lookup key (emplaced old k r index)
        ≡ or_else (lookup key index) (if k == key then some r else none)
  unfolding lookup
  lookup-emplaced key k r index old h = elim (Bool-cases (k == key)) [
    | inl e ↦
        let same : k ≡ key = ground (arith, e) in
        let here : lookup key index ≡ old = ap (λ n. lookup n index) (sym same) ∙ h in
        at_key key k r index old here e
    | inr e ↦ off_key key k r index old e
  ]

  or_else_assoc :
      (a b c : Option (TruthRecord D)) → or_else (or_else a b) c ≡ or_else a (or_else b c)
  or_else_assoc none b c = refl
  or_else_assoc (some a) b c = refl

  or_else_if :
      (b : Bool) (r : TruthRecord D) (c : Option (TruthRecord D))
      → or_else (if b then some r else none) c ≡ (if b then some r else c)
  or_else_if true r c = refl
  or_else_if false r c = refl

  find-emplace :
      (t : TruthReader D) (r : TruthRecord D) (tick m : ℕ)
      → IsKeyed r
      → tick < 2 ^ 48
      → m < 2 ^ 16
      → find tick m (record {
        index = emplace (make_key r.tick r.market_id) r t.index;
        count = increment t.count;
      })
        ≡ or_else (find tick m t) (if r.tick == tick && r.market_id == m then some r else none)
  unfolding find emplace
  find-emplace t r tick m (h', k') h k =
      let key = make_key r.tick r.market_id in
      lookup-emplaced (make_key tick m) key r t.index (lookup key t.index) refl
      ∙ ap (λ b. or_else (lookup (make_key tick m) t.index) (if b then some r else none))
          (make_key-same r.tick r.market_id tick m h' k' h k)

  find-load :
      (rs : List (TruthRecord D)) (t : TruthReader D) (tick m : ℕ)
      → All IsKeyed rs
      → tick < 2 ^ 48
      → m < 2 ^ 16
      → find tick m (load rs t) ≡ or_else (find tick m t) (first_at tick m rs)
  unfolding load
  find-load [] t tick m keyed h k = sym (or_else-none (find tick m t))
  find-load (r ∷ rs) t tick m ((h', k'), keyed) h k =
      let next : TruthReader D = record {
        index = emplace (make_key r.tick r.market_id) r t.index;
        count = increment t.count;
      } in
      let there = r.tick == tick && r.market_id == m in
      find-load rs next tick m keyed h k
      ∙ ap (λ o. or_else o (first_at tick m rs)) (find-emplace t r tick m (h', k') h k)
      ∙ or_else_assoc (find tick m t) (if there then some r else none) (first_at tick m rs)
      ∙ ap (or_else (find tick m t)) (or_else_if there r (first_at tick m rs))

  load_count :
      (rs : List (TruthRecord D)) (t : TruthReader D)
      → t.count + length rs < 2 ^ 64
      → (load rs t).count ≡ t.count + length rs
  unfolding load
  load_count [] t few = omega arith
  load_count (r ∷ rs) t few =
      let step : increment t.count ≡ t.count + 1 = omega arith in
      let next : TruthReader D = record {
        index = emplace (make_key r.tick r.market_id) r t.index;
        count = increment t.count;
      } in
      load_count rs next (omega (arith, step)) ∙ omega (arith, step)

  -- A file of at least one record opens, and for ticks below 2^48 and markets of 16 bits the index
  -- gives the first record of the file for the tick and the market, and none where it has none.
  pub open_truth-finds :
      (rs : List (TruthRecord D)) (tick m : ℕ)
      → All IsKeyed rs
      → 0 < length rs
      → length rs < 2 ^ 64
      → tick < 2 ^ 48
      → m < 2 ^ 16
      → (t : TruthReader D) × (open_truth rs ≡ some t) × (find tick m t ≡ first_at tick m rs)
  unfolding open_truth find lookup
  open_truth-finds rs tick m keyed some_record few h k =
      let blank : TruthReader D = record { index = []; count = 0 } in
      let full : ((load rs blank).count == 0) ≡ false =
        ground (arith, load_count rs blank (omega arith)) in
      (load rs blank, rw full refl, find-load rs blank tick m keyed h k)
