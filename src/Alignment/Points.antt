-- ===== src/Alignment/Points.antt =====
-- The latest point on or before a date, among points in the order of their dates.
use mathlib.Core.List.{Memᴰ}
use qdii_observatory.Common.{
  ℕ, ◌≤◌, ◌≡◌, refl, sym, ap, ◌∙◌, ◌⊎◌, inl, inr, true, false, none, some, List, [], ◌∷◌, arith,
  leb, Bool-cases, Option-cases, All, insert_by, sort_by,
}
use qdii_observatory.Common.Rows.{All-mono, All-mem, All-insert_by}
use qdii_observatory.Alignment.Series.{MarketPoint, latest_on_or_before}

module _ {ℓ} {A : Type ℓ} (key : A → ℕ) where
  abbrev pub IsSorted : List A → Type 0
  IsSorted [] = Unit {0}
  IsSorted (x ∷ xs) = All (λ y. key x ≤ key y) xs × IsSorted xs

  insert_by-IsSorted :
      (x : A) (xs : List A) → IsSorted xs → IsSorted (insert_by (λ a b. leb (key a) (key b)) x xs)
  unfolding insert_by
  insert_by-IsSorted x [] h = (tt, tt)
  insert_by-IsSorted x (y ∷ ys) (hy, hs) = elim (Bool-cases (leb (key x) (key y))) [
    | inl e ↦
        let first : key x ≤ key y = ground (arith, e) in
        rw e ((first, All-mono ys (λ z h. omega (arith, h, first)) hy), (hy, hs))
    | inr e ↦ rw e (
      All-insert_by (λ z. key y ≤ key z) (λ a b. leb (key a) (key b)) x ys (ground (arith, e)) hy,
      insert_by-IsSorted x ys hs,
    )
  ]

  pub sort_by-IsSorted : (xs : List A) → IsSorted (sort_by (λ a b. leb (key a) (key b)) xs)
  unfolding sort_by
  sort_by-IsSorted [] = tt
  sort_by-IsSorted (x ∷ xs) = insert_by-IsSorted x _ (sort_by-IsSorted xs)

abbrev pub date_of : MarketPoint → ℕ
date_of p = p.trade_date

module _ (p : MarketPoint) (ps : List MarketPoint) (c : ℕ) where
  latest_in :
      leb p.trade_date c ≡ true
      → latest_on_or_before (p ∷ ps) c
        ≡ elim (latest_on_or_before ps c) [ none ↦ some p | some q ↦ some q ]
  unfolding latest_on_or_before
  latest_in h = rw h refl

  latest_out : leb p.trade_date c ≡ false → latest_on_or_before (p ∷ ps) c ≡ none
  unfolding latest_on_or_before
  latest_out h = rw h refl

  -- The latest point of a longer list is its head or the latest of the rest.
  latest_on_or_before-cases :
      (q : MarketPoint)
      → latest_on_or_before (p ∷ ps) c ≡ some q
      → (p.trade_date ≤ c) × ((p ≡ q) ⊎ (latest_on_or_before ps c ≡ some q))
  latest_on_or_before-cases q h = elim (Bool-cases (leb p.trade_date c)) [
    | inl e ↦ elim (Option-cases (latest_on_or_before ps c)) [
      | inl n ↦ (
        ground (arith, e),
        let same : some p ≡ some q =
              sym (latest_in e ∙ ap (λ o. elim o [ none ↦ some p | some r ↦ some r ]) n) ∙ h in
            inl (cc same),
      )
      | inr (r, s) ↦ (
        ground (arith, e),
        let same : some r ≡ some q =
              sym (latest_in e ∙ ap (λ o. elim o [ none ↦ some p | some r ↦ some r ]) s) ∙ h in
            inr (s ∙ same),
      )
    ]
    | inr e ↦ absurd (cc (latest_out e, h))
  ]

pub latest_on_or_before-le :
    (ps : List MarketPoint) (c : ℕ) (q : MarketPoint)
    → latest_on_or_before ps c ≡ some q
    → q.trade_date ≤ c
unfolding latest_on_or_before
latest_on_or_before-le [] c q h = absurd (cc h)
latest_on_or_before-le (p ∷ ps) c q h =
    let (early, which) = latest_on_or_before-cases p ps c q h in
    elim which [ inl e ↦ rw (← e) early | inr e ↦ latest_on_or_before-le ps c q e ]

pub latest_on_or_before-Mem :
    (ps : List MarketPoint) (c : ℕ) (q : MarketPoint)
    → latest_on_or_before ps c ≡ some q
    → Memᴰ q ps
unfolding latest_on_or_before
latest_on_or_before-Mem [] c q h = absurd (cc h)
latest_on_or_before-Mem (p ∷ ps) c q h =
    let (early, which) = latest_on_or_before-cases p ps c q h in
    elim which [ inl e ↦ Memᴰ.head (sym e) | inr e ↦ Memᴰ.tail (latest_on_or_before-Mem ps c q e) ]

-- Every point on or before the date is at most as late.
pub latest_on_or_before_max :
    (ps : List MarketPoint) (c : ℕ) (x : MarketPoint)
    → IsSorted date_of ps
    → Memᴰ x ps
    → x.trade_date ≤ c
    → (q : MarketPoint) × (latest_on_or_before ps c ≡ some q) × (x.trade_date ≤ q.trade_date)
latest_on_or_before_max [] c x sorted m h = elim m [ ]
latest_on_or_before_max (p ∷ ps) c x (hp, sorted) (Memᴰ.head e) h =
    let at_head : x.trade_date ≡ p.trade_date = ap date_of e in
    let early : leb p.trade_date c ≡ true = ground (arith, h, at_head) in
    elim (Option-cases (latest_on_or_before ps c)) [
      | inl n ↦ (
        p,
        latest_in p ps c early ∙ ap (λ o. elim o [ none ↦ some p | some r ↦ some r ]) n,
        omega (arith, at_head),
      )
      | inr (q, s) ↦
          let later : p.trade_date ≤ q.trade_date =
            All-mem (λ y. p.trade_date ≤ y.trade_date) ps hp (latest_on_or_before-Mem ps c q s) in
          (
            q,
            latest_in p ps c early ∙ ap (λ o. elim o [ none ↦ some p | some r ↦ some r ]) s,
            omega (arith, at_head, later),
          )
    ]
latest_on_or_before_max (p ∷ ps) c x (hp, sorted) (Memᴰ.tail m) h =
    let (q, s, later) = latest_on_or_before_max ps c x sorted m h in
    let first : p.trade_date ≤ x.trade_date = All-mem (λ y. p.trade_date ≤ y.trade_date) ps hp m in
    let early : leb p.trade_date c ≡ true = ground (arith, h, first) in
    (q, latest_in p ps c early ∙ ap (λ o. elim o [ none ↦ some p | some r ↦ some r ]) s, later)

-- A later date has a point that is as late.
pub latest_on_or_before_mono :
    (ps : List MarketPoint) (c c' : ℕ) (x : MarketPoint)
    → IsSorted date_of ps
    → c ≤ c'
    → latest_on_or_before ps c ≡ some x
    → (q : MarketPoint) × (latest_on_or_before ps c' ≡ some q) × (x.trade_date ≤ q.trade_date)
latest_on_or_before_mono ps c c' x sorted le h =
    latest_on_or_before_max ps c' x sorted (latest_on_or_before-Mem ps c x h)
      (omega (arith, le, latest_on_or_before-le ps c x h))
