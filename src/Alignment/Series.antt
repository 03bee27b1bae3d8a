-- ===== src/Alignment/Series.antt =====
-- q2_analysis/alignment.py. A date is its proleptic ordinal. `sorted` is a stable sort.
use Prim.Native.Nat.{◌-◌}
use mathlib.Core.Option
use qdii_observatory.Common.{
  ℕ, String, Bool, true, false, ◌&&◌, ◌||◌, Option, none, some, List, [], ◌∷◌, ◌==◌, str_eq, leb,
  if◌then◌else◌, sort_by, distinct,
}
use qdii_observatory.Common.Decimal.{Decimal, whole, divide, subtract, multiply}

pub data AlignmentPolicy : Type 0 where
  us_previous_completed_session asia_same_or_previous_session : AlignmentPolicy
  qdii_same_valuation_session mixed_by_security_market : AlignmentPolicy

-- The columns of q2_analysis/market_provider.py that the alignment reads.
pub record MarketPoint : Type 0 where
  pub trade_date : ℕ
  pub adjusted_close : Decimal

pub record AlignedMarketReturn : Type 0 where
  pub nav_date : ℕ
  pub trade_date : Option ℕ
  pub previous_trade_date : Option ℕ
  pub local_return_pct : Option Decimal
  pub fx_return_pct : Option Decimal
  pub share_currency_return_pct : Option Decimal
  pub alignment_policy : AlignmentPolicy
  pub carried_forward : Bool

-- `clean` is `value.strip().upper()`; `none` is the ValueError.
unfoldable pub normalize_policy : (String → String) → String → Option AlignmentPolicy
normalize_policy clean value =
    if str_eq (clean value) "US_PREVIOUS_COMPLETED_SESSION"
    then some us_previous_completed_session
    else if str_eq (clean value) "ASIA_SAME_OR_PREVIOUS_SESSION"
    then some asia_same_or_previous_session
    else if str_eq (clean value) "QDII_SAME_VALUATION_SESSION"
    then some qdii_same_valuation_session
    else if str_eq (clean value) "MIXED_BY_SECURITY_MARKET"
    then some mixed_by_security_market
    else none

unfoldable pub policy_for_market : Option String → AlignmentPolicy
policy_for_market none = asia_same_or_previous_session
policy_for_market (some market) =
    if str_eq market "US" || str_eq market "UK"
    then us_previous_completed_session
    else asia_same_or_previous_session

unfoldable pub effective_policy : AlignmentPolicy → Option String → AlignmentPolicy
unfolding policy_for_market
effective_policy us_previous_completed_session market = us_previous_completed_session
effective_policy asia_same_or_previous_session market = asia_same_or_previous_session
effective_policy qdii_same_valuation_session market = qdii_same_valuation_session
effective_policy mixed_by_security_market market = policy_for_market market

-- `none` is a division by zero.
unfoldable pub return_pct : Decimal → Decimal → Option Decimal
unfolding divide subtract multiply
return_pct previous current = elim (divide current previous) [
  | none ↦ none
  | some ratio ↦ some (multiply (subtract ratio (whole 1)) (whole 100))
]

-- `points[bisect_right(point_dates, cutoff) - 1]` of points in the order of their dates.
unfoldable pub latest_on_or_before : List MarketPoint → ℕ → Option MarketPoint
latest_on_or_before [] cutoff = none
latest_on_or_before (p ∷ ps) cutoff =
    let rest = latest_on_or_before ps cutoff in
    if leb p.trade_date cutoff then elim rest [ none ↦ some p | some q ↦ some q ] else none

-- Ordinals start at 1: the day before date.min, where Python raises OverflowError, is 0 here and in
-- `cutoff`, and no point is on or before it.
unfoldable pub previous_before : List MarketPoint → ℕ → Option MarketPoint
unfolding latest_on_or_before
previous_before points current_date = latest_on_or_before points (current_date - 1)

unfoldable pub cutoff : AlignmentPolicy → ℕ → ℕ
cutoff us_previous_completed_session nav_date = nav_date - 1
cutoff asia_same_or_previous_session nav_date = nav_date
cutoff qdii_same_valuation_session nav_date = nav_date
cutoff mixed_by_security_market nav_date = nav_date

abbrev pub by_date : List MarketPoint → List MarketPoint
by_date points = sort_by (λ a b. leb a.trade_date b.trade_date) points

-- The local variables of a round: the returns in both currencies.
pub record RoundReturns : Type 0 where
  pub local_return : Option Decimal
  pub fx_return : Option Decimal
  pub converted_return : Option Decimal

abbrev pub no_returns : RoundReturns
no_returns = record { local_return = none; fx_return = none; converted_return = none }

-- `prices` and `rates` are in the order of their dates.
module _ (policy : AlignmentPolicy) (same_currency : Bool) (prices rates : List MarketPoint) where
  abbrev pub without_fx : Decimal → Option Decimal → RoundReturns
  without_fx local converted = record {
    local_return = some local;
    fx_return = none;
    converted_return = converted;
  }

  -- Both returns, if the rates are those of the dates of the two prices.
  unfoldable pub convert_at : Decimal → Bool → Option Decimal → Option Decimal → Option RoundReturns
  convert_at local false fx converted = some (without_fx local none)
  convert_at local true none converted = none
  convert_at local true (some fx) none = none
  convert_at local true (some fx) (some converted) =
      some (record {
        local_return = some local;
        fx_return = some fx;
        converted_return = some converted;
      })

  unfoldable pub convert :
      Decimal → MarketPoint → MarketPoint → MarketPoint → MarketPoint → Option RoundReturns
  unfolding return_pct multiply convert_at
  convert local previous current previous_fx current_fx =
      convert_at local
        (previous_fx.trade_date == previous.trade_date
          && current_fx.trade_date == current.trade_date)
        (return_pct previous_fx.adjusted_close current_fx.adjusted_close)
        (return_pct (multiply previous.adjusted_close previous_fx.adjusted_close)
          (multiply current.adjusted_close current_fx.adjusted_close))

  -- The returns for the local one and the rates that are found, if the currencies differ.
  unfoldable pub returns_at :
      MarketPoint
      → MarketPoint
      → Option Decimal
      → Bool
      → Option MarketPoint
      → Option MarketPoint
      → Option RoundReturns
  unfolding convert
  returns_at previous current none same previous_fx current_fx = none
  returns_at previous current (some local) true previous_fx current_fx =
      some (without_fx local (some local))
  returns_at previous current (some local) false none current_fx = some (without_fx local none)
  returns_at previous current (some local) false (some previous_fx) none =
      some (without_fx local none)
  returns_at previous current (some local) false (some previous_fx) (some current_fx) =
      convert local previous current previous_fx current_fx

  unfoldable pub returns_between : MarketPoint → MarketPoint → Option RoundReturns
  unfolding return_pct latest_on_or_before returns_at
  returns_between previous current =
      returns_at previous current (return_pct previous.adjusted_close current.adjusted_close)
        same_currency (latest_on_or_before rates previous.trade_date)
        (latest_on_or_before rates current.trade_date)

  abbrev pub is_carried : Option MarketPoint → MarketPoint → Bool
  is_carried none current = false
  is_carried (some last) current = current.trade_date == last.trade_date

  unfoldable pub previous_of : Option MarketPoint → MarketPoint → Option MarketPoint
  unfolding previous_before
  previous_of none current = previous_before prices current.trade_date
  previous_of (some last) current = some last

  unfoldable pub returns_of : Option MarketPoint → MarketPoint → Bool → Option RoundReturns
  unfolding returns_between
  returns_of none current carried = some no_returns
  returns_of (some previous) current true = some no_returns
  returns_of (some previous) current false = returns_between previous current

  abbrev pub row_of :
      ℕ → MarketPoint → Option MarketPoint → Bool → RoundReturns → AlignedMarketReturn
  row_of nav_date current previous carried returns = record {
    nav_date = nav_date;
    trade_date = some current.trade_date;
    previous_trade_date = Option.map (λ (p : MarketPoint). p.trade_date) previous;
    local_return_pct = returns.local_return;
    fx_return_pct = returns.fx_return;
    share_currency_return_pct = returns.converted_return;
    alignment_policy = policy;
    carried_forward = carried;
  }

  abbrev pub empty_row : ℕ → AlignedMarketReturn
  empty_row nav_date = record {
    nav_date = nav_date;
    trade_date = none;
    previous_trade_date = none;
    local_return_pct = none;
    fx_return_pct = none;
    share_currency_return_pct = none;
    alignment_policy = policy;
    carried_forward = false;
  }

  abbrev pub end_round :
      ℕ
      → MarketPoint
      → Option MarketPoint
      → Bool
      → Option RoundReturns
      → Option (AlignedMarketReturn × Option MarketPoint)
  end_round nav_date current previous carried none = none
  end_round nav_date current previous carried (some returns) =
      some (row_of nav_date current previous carried returns, some current)

  -- The body of the loop for the current point, with the point that the next round has as
  -- `last_selected`.
  unfoldable pub align_at :
      ℕ
      → Option MarketPoint
      → Option MarketPoint
      → Option (AlignedMarketReturn × Option MarketPoint)
  unfolding previous_of returns_of
  align_at nav_date last none = some (empty_row nav_date, last)
  align_at nav_date last (some current) =
      end_round nav_date current (previous_of last current) (is_carried last current)
        (returns_of (previous_of last current) current (is_carried last current))

  unfoldable pub align_date :
      ℕ → Option MarketPoint → Option (AlignedMarketReturn × Option MarketPoint)
  unfolding cutoff latest_on_or_before align_at
  align_date nav_date last =
      align_at nav_date last (latest_on_or_before prices (cutoff policy nav_date))

  abbrev pub prepend :
      AlignedMarketReturn → Option (List AlignedMarketReturn) → Option (List AlignedMarketReturn)
  prepend row none = none
  prepend row (some rows) = some (row ∷ rows)

  unfoldable pub align_dates : List ℕ → Option MarketPoint → Option (List AlignedMarketReturn)
  unfolding align_date
  align_dates [] last = some []
  align_dates (nav_date ∷ rest) last = elim (align_date nav_date last) [
    | none ↦ none
    | some (row, next) ↦ prepend row (align_dates rest next)
  ]

-- An absent series of rates is the empty one.
abbrev pub rates_of : Option (List MarketPoint) → List MarketPoint
rates_of none = []
rates_of (some points) = by_date points

-- `upper` is `str.upper`.
unfoldable pub align_returns :
    (String → String)
    → List ℕ
    → List MarketPoint
    → Option String
    → String
    → String
    → Option (List MarketPoint)
    → AlignmentPolicy
    → Option (List AlignedMarketReturn)
unfolding effective_policy sort_by distinct align_dates
align_returns upper nav_dates price_points security_market security_currency share_currency
      fx_points policy =
    align_dates (effective_policy policy security_market)
      (str_eq (upper security_currency) (upper share_currency)) (by_date price_points)
      (rates_of fx_points) (sort_by leb (distinct nav_dates)) none
