-- ===== src/Prediction/Samples.antt =====
-- A day of a fund that holds a security, equity that is not disclosed, and a fund that is not
-- resolved.
use qdii_observatory.Common.{◌≡◌, refl, true, none, some, [], ◌∷◌}
use qdii_observatory.Common.Decimal.{whole, scaled, less, minimum, is_zero}
use qdii_observatory.Common.Outcomes.{thrown, done}
use qdii_observatory.Prediction.Schema.{
  HoldingReturnInput, FundHoldingReturnInput, FundProxyConfig, DailyPrediction, DayInput,
  disclosed_above_equity,
}
use qdii_observatory.Prediction.Days.{predict_day}

abbrev security : HoldingReturnInput
security = record {
  name = "NVIDIA";
  raw_code = some "NVDA";
  provider_symbol = some "NVDA";
  market = some "US";
  currency = some "USD";
  mapping_source = "OVERRIDE";
  mapping_reason = "exact";
  weight_pct = whole 60;
  trade_date = some 11;
  previous_trade_date = some 10;
  return_pct = some (whole 2);
  alignment_policy = none;
}

abbrev held_fund : FundHoldingReturnInput
held_fund = record {
  name = "Fund";
  raw_code = none;
  resolved_fund_code = none;
  weight_pct = whole 10;
  nav_date = none;
  return_pct = some (whole 50);
  is_unresolved = true;
}

abbrev proxy : FundProxyConfig
proxy = record {
  representative_code = "017436";
  proxies = record { symbol = "QQQ"; currency = "USD"; weight = whole 1 } ∷ [];
  reason = "index";
  confidence = "MEDIUM";
}

abbrev day : DayInput
day = record {
  nav_date = 12;
  actual_return_pct = some (scaled 15 1);
  actual_return_source = none;
  report_public_available_at = 20;
  holdings = security ∷ [];
  equity_nav_pct = whole 80;
  fund_holdings = held_fund ∷ [];
  cash_weight_pct = whole 5;
  proxy_config = some proxy;
  proxy_returns =
      record {
        symbol = "QQQ";
        currency = "USD";
        basket_weight = whole 1;
        trade_date = some 11;
        previous_trade_date = some 10;
        return_pct = some (whole 1);
        alignment_policy = "US_PREVIOUS_COMPLETED_SESSION";
      }
      ∷ [];
  prior_residuals = [];
}

predicted_day : (p : DailyPrediction) × (predict_day day ≡ done p)
unfolding predict_day less minimum is_zero
predicted_day = (_, refl)

-- 60 % of 2 and 20 % of 1.
predicted_return : predicted_day.0.predicted_return_pct ≡ some (scaled 140000000 8)
unfolding predicted_day
predicted_return = refl

-- A weight of the securities above that of the equity is refused.
refused_day : predict_day (record day { equity_nav_pct = whole 50 }) ≡ thrown disclosed_above_equity
unfolding predict_day less minimum is_zero
refused_day = refl
