-- ===== src/Alignment/Returned.antt =====
-- The returns of a round of `align_returns`: between which points they are.
use mathlib.Core.List.{Memᴰ}
use mathlib.Core.Option
use qdii_observatory.Common.{
  ℕ, ◌≡◌, refl, ap, ◌∙◌, ◌⊎◌, inl, inr, Bool, true, false, ◌&&◌, Option, none, some, List, arith,
  ◌==◌,
}
use qdii_observatory.Common.Decimal.{Decimal}
use qdii_observatory.Alignment.Series.{
  MarketPoint, AlignmentPolicy, return_pct, latest_on_or_before, RoundReturns, no_returns,
  without_fx, convert_at, convert, returns_at, returns_between, returns_of,
}
use qdii_observatory.Alignment.Points.{date_of, latest_on_or_before-Mem}

-- The return of a series between the two dates of a row.
abbrev pub Spans : List MarketPoint → Option ℕ → Option ℕ → Decimal → Type 0
Spans points from to r =
    (a : MarketPoint) × (b : MarketPoint) × Memᴰ a points
    × Memᴰ b points
    × (from ≡ some a.trade_date)
    × (to ≡ some b.trade_date)
    × (return_pct a.adjusted_close b.adjusted_close ≡ some r)

abbrev pub date_in : Option MarketPoint → Option ℕ
date_in = Option.map date_of

pub date_in-inv :
    (o : Option MarketPoint) (d : ℕ)
    → date_in o ≡ some d
    → (a : MarketPoint) × (o ≡ some a) × (a.trade_date ≡ d)
date_in-inv none d h = absurd (cc h)
date_in-inv (some a) d h = (a, refl, cc h)

module _ (policy : AlignmentPolicy) (same_currency : Bool) (prices rates : List MarketPoint) where
  -- What holds of the returns between two points.
  record Between (a b : MarketPoint) (returns : RoundReturns) : Type 0 where
    local :
        (r : Decimal)
        → returns.local_return ≡ some r
        → return_pct a.adjusted_close b.adjusted_close ≡ some r
    fx :
        (r : Decimal)
        → returns.fx_return ≡ some r
        → Spans rates (some a.trade_date) (some b.trade_date) r
    converted :
        (r : Decimal)
        → returns.converted_return ≡ some r
        → ((same_currency ≡ true) × (returns.local_return ≡ some r))
          ⊎ ((same_currency ≡ false) × ((f : Decimal) × (returns.fx_return ≡ some f)))

  without_fx-Between :
      (a b : MarketPoint) (l : Decimal) (converted : Option Decimal) (returns : RoundReturns)
      → return_pct a.adjusted_close b.adjusted_close ≡ some l
      → ((r : Decimal) → converted ≡ some r → (same_currency ≡ true) × (some l ≡ some r))
      → some (without_fx policy same_currency prices rates l converted) ≡ some returns
      → Between a b returns
  without_fx-Between a b l converted returns hl hc e =
      let same : without_fx policy same_currency prices rates l converted ≡ returns = cc e in
      rw (← same) (record {
        local = λ r k. hl ∙ k;
        fx = λ r k. absurd (cc k);
        converted = λ r k. inl (hc r k);
      })

  abbrev both_returns : Decimal → Decimal → Decimal → RoundReturns
  both_returns l f c = record {
    local_return = some l;
    fx_return = some f;
    converted_return = some c;
  }

  convert_at-Between :
      (a b x y : MarketPoint) (l : Decimal) (exact : Bool) (fx converted : Option Decimal)
      (returns : RoundReturns)
      → return_pct a.adjusted_close b.adjusted_close ≡ some l
      → same_currency ≡ false
      → (x.trade_date == a.trade_date && y.trade_date == b.trade_date) ≡ exact
      → Memᴰ x rates
      → Memᴰ y rates
      → return_pct x.adjusted_close y.adjusted_close ≡ fx
      → convert_at policy same_currency prices rates l exact fx converted ≡ some returns
      → Between a b returns
  unfolding convert_at
  convert_at-Between a b x y l false fx converted returns hl differ h mx my hf e =
      without_fx-Between a b l none returns hl (λ r k. absurd (cc k)) e
  convert_at-Between a b x y l true none converted returns hl differ h mx my hf e = absurd (cc e)
  convert_at-Between a b x y l true (some f) none returns hl differ h mx my hf e = absurd (cc e)
  convert_at-Between a b x y l true (some f) (some c) returns hl differ h mx my hf e =
      let same : both_returns l f c ≡ returns = cc e in
      let at_a : a.trade_date ≡ x.trade_date = ground (arith, h) in
      let at_b : b.trade_date ≡ y.trade_date = ground (arith, h) in
      rw (← same) (record {
        local = λ r k. hl ∙ k;
        fx = λ r k. (x, y, mx, my, ap some at_a, ap some at_b, hf ∙ k);
        converted = λ r k. inr (differ, (f, refl));
      })

  returns_at-Between :
      (a b : MarketPoint) (local : Option Decimal) (same : Bool) (x y : Option MarketPoint)
      (returns : RoundReturns)
      → return_pct a.adjusted_close b.adjusted_close ≡ local
      → same_currency ≡ same
      → latest_on_or_before rates a.trade_date ≡ x
      → latest_on_or_before rates b.trade_date ≡ y
      → returns_at policy same_currency prices rates a b local same x y ≡ some returns
      → Between a b returns
  unfolding returns_at convert
  returns_at-Between a b none same x y returns hl hs hx hy e = absurd (cc e)
  returns_at-Between a b (some l) true x y returns hl hs hx hy e =
      without_fx-Between a b l (some l) returns hl (λ r k. (hs, k)) e
  returns_at-Between a b (some l) false none y returns hl hs hx hy e =
      without_fx-Between a b l none returns hl (λ r k. absurd (cc k)) e
  returns_at-Between a b (some l) false (some x) none returns hl hs hx hy e =
      without_fx-Between a b l none returns hl (λ r k. absurd (cc k)) e
  returns_at-Between a b (some l) false (some x) (some y) returns hl hs hx hy e =
      convert_at-Between a b x y l _ _ _ returns hl hs refl
        (latest_on_or_before-Mem rates a.trade_date x hx)
        (latest_on_or_before-Mem rates b.trade_date y hy) refl e

  returns_between-Between :
      (a b : MarketPoint) (returns : RoundReturns)
      → returns_between policy same_currency prices rates a b ≡ some returns
      → Between a b returns
  unfolding returns_between
  returns_between-Between a b returns e =
      returns_at-Between a b _ same_currency _ _ returns refl refl refl refl e

  -- The same of the returns of a round.
  pub record Given (previous : Option MarketPoint) (current : MarketPoint) (carried : Bool)
      (returns : RoundReturns) : Type 0 where
    pub stale :
        carried ≡ true
        → (returns.local_return ≡ none)
          × (returns.fx_return ≡ none)
          × (returns.converted_return ≡ none)
    pub priced :
        (r : Decimal)
        → returns.local_return ≡ some r
        → Spans prices (date_in previous) (some current.trade_date) r
    pub exact :
        (r : Decimal)
        → returns.fx_return ≡ some r
        → Spans rates (date_in previous) (some current.trade_date) r
    pub converted :
        (r : Decimal)
        → returns.converted_return ≡ some r
        → ((same_currency ≡ true) × (returns.local_return ≡ some r))
          ⊎ ((same_currency ≡ false) × ((f : Decimal) × (returns.fx_return ≡ some f)))

  no_returns-Given :
      (previous : Option MarketPoint) (current : MarketPoint) (carried : Bool)
      (returns : RoundReturns)
      → some no_returns ≡ some returns
      → Given previous current carried returns
  no_returns-Given previous current carried returns e =
      let same : no_returns ≡ returns = cc e in
      rw (← same) (record {
        stale = λ h. (refl, refl, refl);
        priced = λ r k. absurd (cc k);
        exact = λ r k. absurd (cc k);
        converted = λ r k. absurd (cc k);
      })

  pub returns_of-Given :
      (previous : Option MarketPoint) (current : MarketPoint) (carried : Bool)
      (returns : RoundReturns)
      → ((a : MarketPoint) → previous ≡ some a → Memᴰ a prices)
      → Memᴰ current prices
      → returns_of policy same_currency prices rates previous current carried ≡ some returns
      → Given previous current carried returns
  unfolding returns_of
  returns_of-Given none current carried returns hp hc e =
      no_returns-Given none current carried returns e
  returns_of-Given (some a) current true returns hp hc e =
      no_returns-Given (some a) current true returns e
  returns_of-Given (some a) current false returns hp hc e =
      let between = returns_between-Between a current returns e in
      record {
        stale = λ h. absurd (cc h);
        priced = λ r k. (a, current, hp a refl, hc, refl, refl, between.local r k);
        exact = λ r k. between.fx r k;
        converted = λ r k. between.converted r k;
      }
