-- ===== src/Prediction/Totals.antt =====
-- `predict_day` as a whole.
use qdii_observatory.Common.{◌≤◌, ◌≡◌, true, false, none, some, length}
use qdii_observatory.Common.Decimal.{Decimal, whole, scaled, subtract, less, minimum}
use qdii_observatory.Common.Outcomes.{done}
use qdii_observatory.Prediction.Schema.{DailyPrediction, DayInput, high, q2_live}
use qdii_observatory.Prediction.Rules.{quantized, is_text}
use qdii_observatory.Prediction.Days.{Parts, explained_weight, risk_weight, sum_of, confidence_in}

pub record IsConsistent (input : DayInput) (parts : Parts) (p : DailyPrediction) : Type 0 where
  -- Without a weight that is priced nothing is predicted.
  pub without_data :
      less (whole 0) (risk_weight input parts) ≡ false
      → (p.predicted_return_pct ≡ none)
        × (p.lower_bound_pct ≡ none)
        × (p.upper_bound_pct ≡ none)
        × (p.residual_pct ≡ none)
  pub with_data :
      less (whole 0) (risk_weight input parts) ≡ true
      → (x : Decimal) × (p.predicted_return_pct ≡ some x)
        × (quantized
              (sum_of p.security_contributions p.proxy_contributions p.fund_holding_contributions)
            ≡ done x)
  pub residual :
      (a x : Decimal)
      → input.actual_return_pct ≡ some a
      → p.predicted_return_pct ≡ some x
      → (r : Decimal) × (p.residual_pct ≡ some r) × (quantized (subtract a x) ≡ done r)
  pub cash : p.cash_contribution_pct ≡ scaled 0 8
  pub shown :
      (p.security_contributions ≡ parts.securities)
      × (p.proxy_contributions ≡ parts.proxies)
      × (p.fund_holding_contributions ≡ parts.funds)
  pub confident :
      p.confidence ≡ high
      → (10 ≤ length input.prior_residuals)
        × (less (minimum (whole 100) (explained_weight input parts.priced_proxy_weight)) (whole 80)
            ≡ false)
        × (less (whole 0) parts.configured_proxy_weight ≡ true
            → (is_text "LOW" (confidence_in input.proxy_config) ≡ false)
              × (is_text "MEDIUM" (confidence_in input.proxy_config) ≡ false))
  pub live : (p.analysis_mode ≡ q2_live) → input.report_public_available_at ≤ input.nav_date
