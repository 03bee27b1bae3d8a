-- ===== src/Prediction/Days.antt =====
-- `predict_day` of q2_analysis/predictor.py.
use qdii_observatory.Common.{
  String, Bool, true, false, Option, none, some, List, [], map, if◌then◌else◌, length,
}
use qdii_observatory.Common.Decimal.{
  Decimal, whole, scaled, add, subtract, less, at_most, minimum, is_zero,
}
use qdii_observatory.Common.Outcomes.{Outcome, done, ◌>>=◌, ◌>>◌, require}
use qdii_observatory.Prediction.Schema.{
  FundProxyConfig, ProxyReturnInput, Contribution, PredictionCoverage, DailyPrediction, DayInput,
  PredictError, disclosed_above_equity, weights_above_total, explained_above_total,
}
use qdii_observatory.Prediction.Rules.{
  quantized, quantized_option, sum_optional, security_contribution, fund_holding_contribution,
  prediction_interval, confidence_of, mode_of,
}
use qdii_observatory.Prediction.Weights.{
  validate_day, all_of, disclosed_weight, mapped_weight, priced_weight, unresolved_security_weight,
  missing_market_weight, undisclosed_equity_weight, fund_weight, resolved_fund_weight,
  unresolved_fund_weight, proxy_return_of, proxy_contribution, priced_from,
}

-- The contributions, and the weights of the proxies.
pub record Parts : Type 0 where
  pub securities : List Contribution
  pub proxies : List Contribution
  pub funds : List Contribution
  pub configured_proxy_weight : Decimal
  pub priced_proxy_weight : Decimal

unfoldable pub proxy_items :
    Decimal
    → List ProxyReturnInput
    → Option FundProxyConfig
    → Outcome PredictError (List Contribution × Decimal × Decimal)
unfolding all_of proxy_contribution proxy_return_of priced_from
proxy_items undisclosed returns none = done ([], whole 0, whole 0)
proxy_items undisclosed returns (some config) = do
  let items =
      (← all_of
        (λ definition.
          proxy_contribution undisclosed config.reason definition
            (proxy_return_of returns definition.symbol))
        config.proxies)
  done (items, undisclosed, priced_from undisclosed config.reason returns config.proxies (whole 0))

abbrev pub explained_weight : DayInput → Decimal → Decimal
explained_weight input priced_proxy =
    add (add (add (priced_weight input) priced_proxy) (resolved_fund_weight input))
      input.cash_weight_pct

unfoldable pub parts_of : DayInput → Outcome PredictError Parts
unfolding all_of security_contribution fund_holding_contribution proxy_items
parts_of input = do
  let securities = (← all_of security_contribution input.holdings)
  require (at_most (disclosed_weight input) (add input.equity_nav_pct (scaled 5 2)))
      disclosed_above_equity
  let (proxies, configured, priced) =
      (← proxy_items (undisclosed_equity_weight input) input.proxy_returns input.proxy_config)
  let funds = (← all_of fund_holding_contribution input.fund_holdings)
  require
      (at_most (add (add input.equity_nav_pct (fund_weight input)) input.cash_weight_pct)
        (scaled 10005 2))
      weights_above_total
  require (at_most (explained_weight input priced) (scaled 10005 2)) explained_above_total
  done (record {
    securities = securities;
    proxies = proxies;
    funds = funds;
    configured_proxy_weight = configured;
    priced_proxy_weight = priced;
  })

abbrev pub contribution_of : List Contribution → Option Decimal
contribution_of items = sum_optional (map (λ (item : Contribution). item.contribution_pct) items)

-- `value or Decimal("0")`
abbrev pub or_zero : Option Decimal → Decimal
or_zero none = whole 0
or_zero (some value) = if is_zero value then whole 0 else value

unfoldable pub coverage_of : DayInput → Parts → Outcome PredictError PredictionCoverage
unfolding quantized
coverage_of input parts = do
  let disclosed = (← quantized (disclosed_weight input))
  let mapped = (← quantized (mapped_weight input))
  let priced = (← quantized (priced_weight input))
  let unresolved_security = (← quantized (unresolved_security_weight input))
  let missing = (← quantized (missing_market_weight input))
  let undisclosed = (← quantized (undisclosed_equity_weight input))
  let proxy = (← quantized parts.configured_proxy_weight)
  let fund = (← quantized (fund_weight input))
  let resolved_fund = (← quantized (resolved_fund_weight input))
  let unresolved_fund = (← quantized (unresolved_fund_weight input))
  let cash = (← quantized input.cash_weight_pct)
  let explained =
      (← quantized (minimum (whole 100) (explained_weight input parts.priced_proxy_weight)))
  done (record {
    disclosed_security_weight_pct = disclosed;
    mapped_security_weight_pct = mapped;
    priced_security_weight_pct = priced;
    unresolved_security_weight_pct = unresolved_security;
    missing_market_data_weight_pct = missing;
    undisclosed_equity_weight_pct = undisclosed;
    proxy_weight_pct = proxy;
    fund_holding_weight_pct = fund;
    resolved_fund_holding_weight_pct = resolved_fund;
    unresolved_fund_weight_pct = unresolved_fund;
    cash_weight_pct = cash;
    total_explained_weight_pct = explained;
  })

abbrev pub risk_weight : DayInput → Parts → Decimal
risk_weight input parts =
    add (add (priced_weight input) parts.priced_proxy_weight) (resolved_fund_weight input)

-- The sum of the three contributions.
unfoldable pub sum_of : List Contribution → List Contribution → List Contribution → Decimal
unfolding add sum_optional
sum_of securities proxies funds =
    add (add (or_zero (contribution_of securities)) (or_zero (contribution_of proxies)))
      (or_zero (contribution_of funds))

abbrev pub quantized_if : Bool → Decimal → Outcome PredictError (Option Decimal)
quantized_if false value = done none
quantized_if true value = quantized_option (some value)

unfoldable pub residual_of : Option Decimal → Option Decimal → Outcome PredictError (Option Decimal)
unfolding quantized_option subtract
residual_of none predicted = done none
residual_of (some actual) none = done none
residual_of (some actual) (some predicted) = quantized_option (some (subtract actual predicted))

abbrev pub confidence_in : Option FundProxyConfig → Option String
confidence_in none = none
confidence_in (some config) = some config.confidence

unfoldable pub prediction_of : DayInput → Parts → Outcome PredictError DailyPrediction
unfolding coverage_of sum_of quantized_option prediction_interval residual_of confidence_of mode_of
prediction_of input parts = do
  let coverage = (← coverage_of input parts)
  let predicted =
      (← quantized_if (less (whole 0) (risk_weight input parts))
        (sum_of parts.securities parts.proxies parts.funds))
  let (lower, upper) =
      (← prediction_interval predicted input.prior_residuals
        (add (unresolved_security_weight input) (missing_market_weight input))
        (undisclosed_equity_weight input) parts.priced_proxy_weight (unresolved_fund_weight input))
  let residual = (← residual_of input.actual_return_pct predicted)
  let actual = (← quantized_option input.actual_return_pct)
  let known = (← quantized_option (contribution_of parts.securities))
  let proxy = (← quantized_option (contribution_of parts.proxies))
  let fund = (← quantized_option (contribution_of parts.funds))
  done (record {
    nav_date = input.nav_date;
    actual_return_pct = actual;
    actual_return_source = input.actual_return_source;
    predicted_return_pct = predicted;
    lower_bound_pct = lower;
    upper_bound_pct = upper;
    known_contribution_pct = known;
    proxy_contribution_pct = proxy;
    fund_holding_contribution_pct = fund;
    cash_contribution_pct = scaled 0 8;
    residual_pct = residual;
    analysis_mode = mode_of input.report_public_available_at input.nav_date;
    confidence =
        confidence_of (minimum (whole 100) (explained_weight input parts.priced_proxy_weight))
          (length input.prior_residuals) (confidence_in input.proxy_config)
          parts.configured_proxy_weight;
    coverage = coverage;
    security_contributions = parts.securities;
    proxy_contributions = parts.proxies;
    fund_holding_contributions = parts.funds;
  })

unfoldable pub predict_day : DayInput → Outcome PredictError DailyPrediction
unfolding validate_day parts_of prediction_of
predict_day input = do validate_day input; let parts = (← parts_of input); prediction_of input parts
