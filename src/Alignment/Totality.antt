-- ===== src/Alignment/Totality.antt =====
-- `align_returns` as a whole: for positive prices and rates it returns a sound row for each date.
use mathlib.Core.List.{Memᴰ}
use qdii_observatory.Common.{
  ℕ, ◌<◌, ◌≡◌, refl, ap, ◌∙◌, String, Bool, true, false, Option, none, some, List, [], ◌∷◌, arith,
  leb, ◌==◌, memb, map, if◌then◌else◌, All, countb, str_eq, sort_by, distinct,
}
use qdii_observatory.Common.Rows.{
  All-mem, All-sort_by, All-everywhere, countb-sort_by, countb-distinct, memb-distinct, anyb-ltb,
}
use qdii_observatory.Common.Decimal.{Decimal, whole, subtract, multiply}
use qdii_observatory.Common.Digits.{multiply_pos, divide_returns}
use qdii_observatory.Alignment.Series.{
  MarketPoint, AlignedMarketReturn, AlignmentPolicy, effective_policy, return_pct, previous_before,
  RoundReturns, convert_at, convert, returns_at, returns_between, previous_of, by_date, rates_of,
  returns_of, end_round, align_at, align_date, prepend, align_dates, align_returns,
}
use qdii_observatory.Alignment.Points.{IsSorted, date_of, latest_on_or_before-Mem, sort_by-IsSorted}
use qdii_observatory.Alignment.Soundness.{IsSound, align_dates-IsSound}

abbrev pub ArePositive : List MarketPoint → Type 0
ArePositive points = All (λ (p : MarketPoint). 0 < p.adjusted_close.coefficient) points

abbrev Returned {ℓ} : {A : Type ℓ} → Option A → Type ℓ
Returned {A = A} o = (a : A) × (o ≡ some a)

return_pct_returns : (a b : Decimal) → 0 < a.coefficient → Returned (return_pct a b)
unfolding return_pct
return_pct_returns a b h =
    let (q, e) = divide_returns b a h in
    (
      _,
      ap
          (λ o. elim o [
            | none ↦ none
            | some ratio ↦ some (multiply (subtract ratio (whole 1)) (whole 100))
          ])
          e,
    )

module _ (policy : AlignmentPolicy) (same_currency : Bool) (prices rates : List MarketPoint)
    (priced : ArePositive prices) (rated : ArePositive rates) where
  positive :
      (points : List MarketPoint) (x : MarketPoint)
      → ArePositive points
      → Memᴰ x points
      → 0 < x.adjusted_close.coefficient
  positive points x h m = All-mem (λ (p : MarketPoint). 0 < p.adjusted_close.coefficient) points h m

  convert_at_returns :
      (l : Decimal) (exact : Bool) (fx converted : Option Decimal)
      → Returned fx
      → Returned converted
      → Returned (convert_at policy same_currency prices rates l exact fx converted)
  unfolding convert_at
  convert_at_returns l false fx converted f c = (_, refl)
  convert_at_returns l true none converted (f, h) c = absurd (cc h)
  convert_at_returns l true (some f) none h (c, k) = absurd (cc k)
  convert_at_returns l true (some f) (some c) h k = (_, refl)

  convert_returns :
      (l : Decimal) (a b x y : MarketPoint)
      → Memᴰ a prices
      → Memᴰ x rates
      → Returned (convert policy same_currency prices rates l a b x y)
  unfolding convert
  convert_returns l a b x y ma mx =
      convert_at_returns l _ _ _
        (return_pct_returns x.adjusted_close y.adjusted_close (positive rates x rated mx))
        (return_pct_returns (multiply a.adjusted_close x.adjusted_close)
          (multiply b.adjusted_close y.adjusted_close)
          (multiply_pos a.adjusted_close x.adjusted_close (positive prices a priced ma)
            (positive rates x rated mx)))

  returns_at_returns :
      (a b : MarketPoint) (local : Option Decimal) (same : Bool) (x y : Option MarketPoint)
      → Returned local
      → Memᴰ a prices
      → ((p : MarketPoint) → x ≡ some p → Memᴰ p rates)
      → Returned (returns_at policy same_currency prices rates a b local same x y)
  unfolding returns_at
  returns_at_returns a b none same x y (l, h) ma mx = absurd (cc h)
  returns_at_returns a b (some l) true x y h ma mx = (_, refl)
  returns_at_returns a b (some l) false none y h ma mx = (_, refl)
  returns_at_returns a b (some l) false (some x) none h ma mx = (_, refl)
  returns_at_returns a b (some l) false (some x) (some y) h ma mx =
      convert_returns l a b x y ma (mx x refl)

  returns_of_returns :
      (previous : Option MarketPoint) (current : MarketPoint) (carried : Bool)
      → ((p : MarketPoint) → previous ≡ some p → Memᴰ p prices)
      → Returned (returns_of policy same_currency prices rates previous current carried)
  unfolding returns_of returns_between
  returns_of_returns none current carried h = (_, refl)
  returns_of_returns (some a) current true h = (_, refl)
  returns_of_returns (some a) current false h =
      returns_at_returns a current _ same_currency _ _
        (return_pct_returns a.adjusted_close current.adjusted_close
          (positive prices a priced (h a refl)))
        (h a refl) (λ p e. latest_on_or_before-Mem rates a.trade_date p e)

  abbrev Listed : Option MarketPoint → Type 0
  Listed last = (p : MarketPoint) → last ≡ some p → Memᴰ p prices

  previous_of-Listed :
      (last : Option MarketPoint) (current : MarketPoint)
      → Listed last
      → Listed (previous_of policy same_currency prices rates last current)
  unfolding previous_of previous_before
  previous_of-Listed none current listed p e = latest_on_or_before-Mem prices _ p e
  previous_of-Listed (some a) current listed p e = listed p e

  end_round_returns :
      (nav_date : ℕ) (current : MarketPoint) (previous : Option MarketPoint) (carried : Bool)
      (returns : Option RoundReturns)
      → Memᴰ current prices
      → Returned returns
      → (row : AlignedMarketReturn) × (next : Option MarketPoint) × (end_round policy same_currency
            prices rates nav_date current previous carried returns
          ≡ some (row, next))
        × Listed next
  end_round_returns nav_date current previous carried none m (r, h) = absurd (cc h)
  end_round_returns nav_date current previous carried (some returns) m h =
      (_, some current, refl, λ p e. let same : current ≡ p = cc e in rw (← same) m)

  align_at_returns :
      (nav_date : ℕ) (last current : Option MarketPoint)
      → Listed last
      → Listed current
      → (row : AlignedMarketReturn) × (next : Option MarketPoint) × (align_at policy same_currency
            prices rates nav_date last current
          ≡ some (row, next))
        × Listed next
  unfolding align_at
  align_at_returns nav_date last none listed found = (_, last, refl, listed)
  align_at_returns nav_date last (some current) listed found =
      end_round_returns nav_date current _ _ _ (found current refl) (
        returns_of_returns (previous_of policy same_currency prices rates last current) current _
          (previous_of-Listed last current listed))

  align_date_returns :
      (nav_date : ℕ) (last : Option MarketPoint)
      → Listed last
      → (row : AlignedMarketReturn) × (next : Option MarketPoint) × (align_date policy same_currency
            prices rates nav_date last
          ≡ some (row, next))
        × Listed next
  unfolding align_date
  align_date_returns nav_date last listed =
      align_at_returns nav_date last _ listed (λ p e. latest_on_or_before-Mem prices _ p e)

  align_dates_returns :
      (dates : List ℕ) (last : Option MarketPoint)
      → Listed last
      → Returned (align_dates policy same_currency prices rates dates last)
  unfolding align_dates
  align_dates_returns [] last listed = (_, refl)
  align_dates_returns (n ∷ rest) last listed =
      let (row, next, e, listed') = align_date_returns n last listed in
      let (rows, e') = align_dates_returns rest next listed' in
      (
        row ∷ rows,
        ap
              (λ o. elim o [
                | none ↦ none
                | some (row, next) ↦
                    prepend policy same_currency prices rates row
                      (align_dates policy same_currency prices rates rest next)
              ])
              e
            ∙ ap (prepend policy same_currency prices rates row) e',
      )

-- What `align_returns` returns: sound rows, one for each of the dates, in their order.
pub record Aligned (policy : AlignmentPolicy) (same_currency : Bool)
    (prices rates : List MarketPoint) (nav_dates : List ℕ) (rows : List AlignedMarketReturn)
    : Type 0 where
  pub sound : All (IsSound policy same_currency prices rates) rows
  pub ordered : IsSorted (λ n. n) (map (λ (row : AlignedMarketReturn). row.nav_date) rows)
  pub each_date :
      (n : ℕ)
      → countb (λ m. m == n) (map (λ (row : AlignedMarketReturn). row.nav_date) rows)
        ≡ (if memb n nav_dates then 1 else 0)

sorted_dates :
    (nav_dates : List ℕ) (n : ℕ)
    → countb (λ m. m == n) (sort_by leb (distinct nav_dates)) ≡ (if memb n nav_dates then 1 else 0)
sorted_dates nav_dates n = ground (
  arith,
  countb-sort_by (λ m. m == n) leb (distinct nav_dates),
  countb-distinct n nav_dates,
  memb-distinct n nav_dates,
  anyb-ltb (λ m. m == n) (distinct nav_dates),
)

rates_of-ArePositive :
    (fx : Option (List MarketPoint))
    → ((points : List MarketPoint) → fx ≡ some points → ArePositive points)
    → ArePositive (rates_of fx)
rates_of-ArePositive none h = tt
rates_of-ArePositive (some points) h =
    All-sort_by (λ (p : MarketPoint). 0 < p.adjusted_close.coefficient)
      (λ a b. leb a.trade_date b.trade_date) points (h points refl)

module _ (upper : String → String) (nav_dates : List ℕ) (prices : List MarketPoint)
    (market : Option String) (security_currency share_currency : String)
    (fx : Option (List MarketPoint)) (policy : AlignmentPolicy) where
  -- Where the prices and the rates are positive and dates are positive: `align_returns` returns one
  -- row for each of the given dates, in their order. The price of a row is of the latest trading day
  -- up to the date, or before it by the policy for the previous session, and none later is used; the
  -- price it is compared with is of an earlier day, unless the row carries a price forward, and such
  -- a row has no return; a local return is that between the prices of the two days, a return of the
  -- rate is that between the rates of these very days, and a converted return is the local one if
  -- the currencies are the same and else comes with a return of the rate.
  pub align_returns-Aligned :
      ArePositive prices
      → All (λ (p : MarketPoint). 0 < p.trade_date) prices
      → ((points : List MarketPoint) → fx ≡ some points → ArePositive points)
      → (rows : List AlignedMarketReturn) × (align_returns upper nav_dates prices market
            security_currency share_currency fx policy
          ≡ some rows)
        × Aligned
            (effective_policy policy market)
            (str_eq (upper security_currency) (upper share_currency))
            (by_date prices)
            (rates_of fx)
            nav_dates
            rows
  unfolding align_returns
  align_returns-Aligned positive_prices dated positive_rates =
      let same = str_eq (upper security_currency) (upper share_currency) in
      let sorted = sort_by-IsSorted date_of prices in
      let dates = sort_by leb (distinct nav_dates) in
      let (rows, e) =
        align_dates_returns (effective_policy policy market) same (by_date prices) (rates_of fx)
          (All-sort_by (λ (p : MarketPoint). 0 < p.adjusted_close.coefficient)
            (λ a b. leb a.trade_date b.trade_date) prices positive_prices)
          (rates_of-ArePositive fx positive_rates) dates none (λ p h. absurd (cc h)) in
      let (sound, ats) =
        align_dates-IsSound (effective_policy policy market) same (by_date prices) (rates_of fx)
          sorted
          (All-sort_by (λ (p : MarketPoint). 0 < p.trade_date)
            (λ a b. leb a.trade_date b.trade_date) prices dated)
          dates none rows (sort_by-IsSorted (λ n. n) (distinct nav_dates))
          (All-everywhere dates (λ n x h. absurd (cc h))) e in
      (
        rows,
        e,
        record {
          sound = sound;
          ordered = rw ats (sort_by-IsSorted (λ n. n) (distinct nav_dates));
          each_date = λ n. ap (countb (λ m. m == n)) ats ∙ sorted_dates nav_dates n;
        },
      )
