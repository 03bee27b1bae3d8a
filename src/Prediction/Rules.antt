-- ===== src/Prediction/Rules.antt =====
-- The helpers of q2_analysis/predictor.py. Its numbers are finite.
use Prim.Native.Nat.{◌-◌}
use qdii_observatory.Common.{
  ℕ, zero, suc, String, Bool, false, not, ◌&&◌, ◌||◌, Option, none, some, List, [], ◌∷◌, map,
  str_eq, ltb, leb, if◌then◌else◌, length,
}
use qdii_observatory.Common.Decimal.{
  Decimal, whole, scaled, add, subtract, multiply, divide, quantize, half_up, absolute, less,
  maximum, sum_from,
}
use qdii_observatory.Common.Outcomes.{Outcome, done, ◌>>=◌, require, value_or}
use qdii_observatory.Prediction.Schema.{
  HoldingReturnInput, FundHoldingReturnInput, Contribution, Confidence, high, medium,
  low_confidence, AnalysisMode, q2_ex_post, q2_live, WeightName, PredictError, invalid_weight,
  invalid_operation,
}

-- `_q`
unfoldable pub quantized : Decimal → Outcome PredictError Decimal
unfolding quantize half_up
quantized value = value_or invalid_operation (quantize half_up 8 value)

-- `_q(value) if value is not None else None`
unfoldable pub quantized_option : Option Decimal → Outcome PredictError (Option Decimal)
unfolding quantized
quantized_option none = done none
quantized_option (some value) = do let result = (← quantized value); done (some result)

-- `_validate_weight`
unfoldable pub is_weight : Decimal → Bool
unfolding less
is_weight value = not (less value (whole 0)) && not (less (scaled 10005 2) value)

unfoldable pub validate_weight : WeightName → Decimal → Outcome PredictError (Unit {0})
unfolding is_weight
validate_weight name value = require (is_weight value) (invalid_weight name)

unfoldable pub total : List Decimal → Decimal
unfolding sum_from
total values = sum_from (whole 0) values

abbrev pub present : List (Option Decimal) → List Decimal
present [] = []
present (none ∷ values) = present values
present (some value ∷ values) = value ∷ present values

abbrev pub sum_or_none : List Decimal → Option Decimal
sum_or_none [] = none
sum_or_none (value ∷ values) = some (total (value ∷ values))

-- `_sum_optional`
unfoldable pub sum_optional : List (Option Decimal) → Option Decimal
unfolding total
sum_optional values = sum_or_none (present values)

-- `_contribution`
unfoldable pub weighted_return : Decimal → Decimal → Outcome PredictError Decimal
unfolding multiply divide quantized
weighted_return weight_pct return_pct =
    value_or invalid_operation (divide (multiply weight_pct return_pct) (whole 100)) >>= quantized

unfoldable pub weighted_option : Decimal → Option Decimal → Outcome PredictError (Option Decimal)
unfolding weighted_return
weighted_option weight_pct none = done none
weighted_option weight_pct (some return_pct) = do
  let contribution = (← weighted_return weight_pct return_pct)
  done (some contribution)

unfoldable pub security_contribution : HoldingReturnInput → Outcome PredictError Contribution
unfolding quantized quantized_option weighted_option
security_contribution item = do
  let weight = (← quantized item.weight_pct)
  let return = (← quantized_option item.return_pct)
  let contribution = (← weighted_option item.weight_pct item.return_pct)
  done (record {
    name = item.name;
    symbol = item.provider_symbol;
    weight_pct = weight;
    return_pct = return;
    contribution_pct = contribution;
    trade_date = item.trade_date;
    previous_trade_date = item.previous_trade_date;
    source = item.mapping_source;
    note = some item.mapping_reason;
  })

-- The return that a fund holding contributes by.
unfoldable pub usable_return : FundHoldingReturnInput → Option Decimal
usable_return item = if item.is_unresolved then none else item.return_pct

unfoldable pub fund_holding_contribution :
    FundHoldingReturnInput → Outcome PredictError Contribution
unfolding quantized quantized_option weighted_option usable_return
fund_holding_contribution item = do
  let weight = (← quantized item.weight_pct)
  let return = (← quantized_option item.return_pct)
  let contribution = (← weighted_option item.weight_pct (usable_return item))
  done (record {
    name = item.name;
    symbol = item.resolved_fund_code;
    weight_pct = weight;
    return_pct = return;
    contribution_pct = contribution;
    trade_date = item.nav_date;
    previous_trade_date = none;
    source = if item.is_unresolved then "UNRESOLVED_FUND_HOLDING" else "UNDERLYING_FUND_NAV";
    note = if item.is_unresolved then some "底层基金未可靠解析，未填入 0 收益" else none;
  })

abbrev pub last_ten : List Decimal → List Decimal
last_ten residuals = go (length residuals - 10) residuals
  where
    go : ℕ → List Decimal → List Decimal
    go zero xs = xs
    go (suc n) [] = []
    go (suc n) (x ∷ xs) = go n xs

unfoldable pub base_mae : List Decimal → Outcome PredictError Decimal
unfolding divide total absolute
base_mae recent =
    if leb 3 (length recent)
    then value_or invalid_operation (divide (total (map absolute recent)) (whole (length recent)))
    else done (scaled 150 2)

-- The weights of a day that `_prediction_interval` takes.
unfoldable pub half_width : ℕ → Decimal → Decimal → Decimal → Decimal → Decimal → Decimal
unfolding maximum add subtract multiply
half_width history mae unresolved_security undisclosed_equity priced_proxy unresolved_fund =
    let proxy_gap = maximum (whole 0) (subtract undisclosed_equity priced_proxy) in
    let width =
      add
        (add
          (add (add (maximum mae (scaled 50 2)) (multiply unresolved_security (scaled 3 2)))
            (multiply priced_proxy (scaled 15 3)))
          (multiply proxy_gap (scaled 4 2)))
        (multiply unresolved_fund (scaled 3 2)) in
    if ltb history 3 then add width (scaled 75 2) else width

unfoldable pub prediction_interval :
    Option Decimal
    → List Decimal
    → Decimal
    → Decimal
    → Decimal
    → Decimal
    → Outcome PredictError (Option Decimal × Option Decimal)
unfolding base_mae half_width subtract add quantized
prediction_interval none residuals unresolved_security undisclosed_equity priced_proxy
      unresolved_fund =
    done (none, none)
prediction_interval (some predicted) residuals unresolved_security undisclosed_equity priced_proxy
      unresolved_fund =
    do
      let recent = last_ten residuals
      let mae = (← base_mae recent)
      let width =
          half_width (length recent) mae unresolved_security undisclosed_equity priced_proxy
            unresolved_fund
      let lower = (← quantized (subtract predicted width))
      let upper = (← quantized (add predicted width))
      done (some lower, some upper)

abbrev pub is_text : String → Option String → Bool
is_text text none = false
is_text text (some other) = str_eq other text

-- `_confidence`
unfoldable pub confidence_of : Decimal → ℕ → Option String → Decimal → Confidence
confidence_of total_explained history_count proxy_confidence proxy_weight =
    if less (whole 0) proxy_weight && is_text "LOW" proxy_confidence
    then low_confidence
    else if ltb history_count 5 || less total_explained (whole 50)
    then low_confidence
    else if ltb history_count 10
        || less total_explained (whole 80)
        || (less (whole 0) proxy_weight && is_text "MEDIUM" proxy_confidence)
    then medium
    else high

-- `analysis_mode`, of the day of publication.
unfoldable pub mode_of : ℕ → ℕ → AnalysisMode
mode_of public_available_at nav_date =
    if ltb nav_date public_available_at then q2_ex_post else q2_live
