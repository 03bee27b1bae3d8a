-- ===== src/Prediction/Schema.antt =====
-- The records of q2_analysis/predictor.py. A date is its proleptic ordinal.
use qdii_observatory.Common.{ℕ, String, Bool, Option, List}
use qdii_observatory.Common.Decimal.{Decimal}

pub record ProxyDefinition : Type 0 where
  pub symbol : String
  pub currency : String
  pub weight : Decimal

pub record FundProxyConfig : Type 0 where
  pub representative_code : String
  pub proxies : List ProxyDefinition
  pub reason : String
  pub confidence : String

pub record HoldingReturnInput : Type 0 where
  pub name : String
  pub raw_code : Option String
  pub provider_symbol : Option String
  pub market : Option String
  pub currency : Option String
  pub mapping_source : String
  pub mapping_reason : String
  pub weight_pct : Decimal
  pub trade_date : Option ℕ
  pub previous_trade_date : Option ℕ
  pub return_pct : Option Decimal
  pub alignment_policy : Option String

pub record ProxyReturnInput : Type 0 where
  pub symbol : String
  pub currency : String
  pub basket_weight : Decimal
  pub trade_date : Option ℕ
  pub previous_trade_date : Option ℕ
  pub return_pct : Option Decimal
  pub alignment_policy : String

pub record FundHoldingReturnInput : Type 0 where
  pub name : String
  pub raw_code : Option String
  pub resolved_fund_code : Option String
  pub weight_pct : Decimal
  pub nav_date : Option ℕ
  pub return_pct : Option Decimal
  pub is_unresolved : Bool

pub record Contribution : Type 0 where
  pub name : String
  pub symbol : Option String
  pub weight_pct : Decimal
  pub return_pct : Option Decimal
  pub contribution_pct : Option Decimal
  pub trade_date : Option ℕ
  pub previous_trade_date : Option ℕ
  pub source : String
  pub note : Option String

pub record PredictionCoverage : Type 0 where
  pub disclosed_security_weight_pct : Decimal
  pub mapped_security_weight_pct : Decimal
  pub priced_security_weight_pct : Decimal
  pub unresolved_security_weight_pct : Decimal
  pub missing_market_data_weight_pct : Decimal
  pub undisclosed_equity_weight_pct : Decimal
  pub proxy_weight_pct : Decimal
  pub fund_holding_weight_pct : Decimal
  pub resolved_fund_holding_weight_pct : Decimal
  pub unresolved_fund_weight_pct : Decimal
  pub cash_weight_pct : Decimal
  pub total_explained_weight_pct : Decimal

pub data Confidence : Type 0 where
  high medium low low_confidence : Confidence

pub data AnalysisMode : Type 0 where
  q2_ex_post q2_live : AnalysisMode

pub record DailyPrediction : Type 0 where
  pub nav_date : ℕ
  pub actual_return_pct : Option Decimal
  pub actual_return_source : Option String
  pub predicted_return_pct : Option Decimal
  pub lower_bound_pct : Option Decimal
  pub upper_bound_pct : Option Decimal
  pub known_contribution_pct : Option Decimal
  pub proxy_contribution_pct : Option Decimal
  pub fund_holding_contribution_pct : Option Decimal
  pub cash_contribution_pct : Decimal
  pub residual_pct : Option Decimal
  pub analysis_mode : AnalysisMode
  pub confidence : Confidence
  pub coverage : PredictionCoverage
  pub security_contributions : List Contribution
  pub proxy_contributions : List Contribution
  pub fund_holding_contributions : List Contribution

-- The arguments of `predict_day`; of the time of publication the day is used.
pub record DayInput : Type 0 where
  pub nav_date : ℕ
  pub actual_return_pct : Option Decimal
  pub actual_return_source : Option String
  pub report_public_available_at : ℕ
  pub holdings : List HoldingReturnInput
  pub equity_nav_pct : Decimal
  pub fund_holdings : List FundHoldingReturnInput
  pub cash_weight_pct : Decimal
  pub proxy_config : Option FundProxyConfig
  pub proxy_returns : List ProxyReturnInput
  pub prior_residuals : List Decimal

-- What a ValueError of `_validate_weight` names.
pub data WeightName : Type 0 where
  equity_nav_name cash_weight_name : WeightName
  security_name fund_holding_name : String → WeightName

-- The ValueErrors of `predict_day`, and an InvalidOperation of Decimal.
pub data PredictError : Type 0 where
  invalid_weight : WeightName → PredictError
  disclosed_above_equity weights_above_total explained_above_total invalid_operation : PredictError
