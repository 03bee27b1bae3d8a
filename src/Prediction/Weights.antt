-- ===== src/Prediction/Weights.antt =====
-- The checks, the weights and the proxies of `predict_day` in q2_analysis/predictor.py.
use qdii_observatory.Common.{
  ℕ, String, Bool, not, Option, none, some, List, [], ◌∷◌, map, str_eq, if◌then◌else◌, is_some,
  filterb,
}
use qdii_observatory.Common.Decimal.{Decimal, whole, add, subtract, multiply, maximum}
use qdii_observatory.Common.Outcomes.{Outcome, done, ◌>>=◌, ◌>>◌}
use qdii_observatory.Prediction.Schema.{
  ProxyDefinition, HoldingReturnInput, ProxyReturnInput, FundHoldingReturnInput, Contribution,
  DayInput, equity_nav_name, cash_weight_name, security_name, fund_holding_name, PredictError,
}
use qdii_observatory.Prediction.Rules.{
  quantized, quantized_option, validate_weight, total, weighted_option, usable_return,
}

unfoldable pub validate_holdings : List HoldingReturnInput → Outcome PredictError (Unit {0})
unfolding validate_weight
validate_holdings [] = done tt
validate_holdings (item ∷ items) = do
  validate_weight (security_name item.name) item.weight_pct
  validate_holdings items

unfoldable pub validate_fund_holdings :
    List FundHoldingReturnInput → Outcome PredictError (Unit {0})
unfolding validate_weight
validate_fund_holdings [] = done tt
validate_fund_holdings (item ∷ items) = do
  validate_weight (fund_holding_name item.name) item.weight_pct
  validate_fund_holdings items

unfoldable pub validate_day : DayInput → Outcome PredictError (Unit {0})
unfolding validate_weight validate_holdings validate_fund_holdings
validate_day input = do
  validate_weight equity_nav_name input.equity_nav_pct
  validate_weight cash_weight_name input.cash_weight_pct
  validate_holdings input.holdings
  validate_fund_holdings input.fund_holdings

-- `tuple(f(item) for item in items)`
unfoldable pub all_of {ℓ κ} :
    {A : Type ℓ} {B : Type κ}
    → (A → Outcome PredictError B)
    → List A
    → Outcome PredictError (List B)
all_of f [] = done []
all_of f (item ∷ items) = do
  let result = (← f item)
  let results = (← all_of f items)
  done (result ∷ results)

-- The weights of a day.
module _ (input : DayInput) where
  abbrev pub disclosed_weight : Decimal
  disclosed_weight = total (map (λ (item : HoldingReturnInput). item.weight_pct) input.holdings)

  abbrev pub mapped_weight : Decimal
  mapped_weight = total (
      map (λ (item : HoldingReturnInput). item.weight_pct)
        (filterb (λ item. is_some item.provider_symbol) input.holdings))

  abbrev pub priced_weight : Decimal
  priced_weight = total (
      map (λ (item : HoldingReturnInput). item.weight_pct)
        (filterb (λ item. is_some item.return_pct) input.holdings))

  abbrev pub unresolved_security_weight : Decimal
  unresolved_security_weight = maximum (whole 0) (subtract disclosed_weight mapped_weight)

  abbrev pub missing_market_weight : Decimal
  missing_market_weight = maximum (whole 0) (subtract mapped_weight priced_weight)

  abbrev pub undisclosed_equity_weight : Decimal
  undisclosed_equity_weight = maximum (whole 0) (subtract input.equity_nav_pct disclosed_weight)

  abbrev pub fund_weight : Decimal
  fund_weight = total (map (λ (item : FundHoldingReturnInput). item.weight_pct) input.fund_holdings)

  abbrev pub is_resolved : FundHoldingReturnInput → Bool
  unfolding usable_return
  is_resolved item = is_some (usable_return item)

  abbrev pub resolved_fund_weight : Decimal
  resolved_fund_weight = total (
      map (λ (item : FundHoldingReturnInput). item.weight_pct)
        (filterb is_resolved input.fund_holdings))

  abbrev pub unresolved_fund_weight : Decimal
  unresolved_fund_weight = total (
      map (λ (item : FundHoldingReturnInput). item.weight_pct)
        (filterb (λ item. not (is_resolved item)) input.fund_holdings))

-- `by_symbol.get(symbol)`: of equal keys the last.
unfoldable pub proxy_return_of : List ProxyReturnInput → String → Option ProxyReturnInput
proxy_return_of [] symbol = none
proxy_return_of (item ∷ items) symbol = elim (proxy_return_of items symbol) [
  | some later ↦ some later
  | none ↦ if str_eq item.symbol symbol then some item else none
]

abbrev pub return_of : Option ProxyReturnInput → Option Decimal
return_of none = none
return_of (some item) = item.return_pct

abbrev pub trade_date_of : Option ProxyReturnInput → Option ℕ
trade_date_of none = none
trade_date_of (some item) = item.trade_date

abbrev pub previous_trade_date_of : Option ProxyReturnInput → Option ℕ
previous_trade_date_of none = none
previous_trade_date_of (some item) = item.previous_trade_date

module _ (undisclosed : Decimal) (reason : String) where
  unfoldable pub proxy_contribution :
      ProxyDefinition → Option ProxyReturnInput → Outcome PredictError Contribution
  unfolding multiply quantized quantized_option weighted_option
  proxy_contribution definition found = do
    let weight = (← quantized (multiply undisclosed definition.weight))
    let return = (← quantized_option (return_of found))
    let contribution =
        (← weighted_option (multiply undisclosed definition.weight) (return_of found))
    done (record {
      name = definition.symbol;
      symbol = some definition.symbol;
      weight_pct = weight;
      return_pct = return;
      contribution_pct = contribution;
      trade_date = trade_date_of found;
      previous_trade_date = previous_trade_date_of found;
      source = "UNDISCLOSED_EQUITY_PROXY";
      note = some reason;
    })

  -- `priced_proxy_weight` is summed up in the order of the definitions.
  unfoldable pub priced_from : List ProxyReturnInput → List ProxyDefinition → Decimal → Decimal
  unfolding add multiply proxy_return_of
  priced_from returns [] sum = sum
  priced_from returns (definition ∷ definitions) sum = priced_from returns definitions (
      if is_some (return_of (proxy_return_of returns definition.symbol))
      then add sum (multiply undisclosed definition.weight)
      else sum)
