-- ===== src/Consistency/Evaluation.antt =====
-- `evaluate_consistency` and `cumulative_points` of q2_analysis/consistency.py, on the predictions of
-- q2_analysis/predictor.py. `square` is the power of Decimal by 2, and `root` the square root by way
-- of a float.
use qdii_observatory.Common.{
  ℕ, String, Bool, true, false, ◌&&◌, ◌||◌, not, Option, none, some, List, [], ◌∷◌, map, leb, ltb,
  ◌==◌, if◌then◌else◌, length, is_some, filterb, sort_by,
}
use qdii_observatory.Common.Decimal.{
  Decimal, whole, add, subtract, multiply, divide, is_zero, sum_from,
}
use qdii_observatory.Common.Outcomes.{Outcome, done, ◌>>=◌, value_or}
use qdii_observatory.Prediction.Schema.{DailyPrediction, PredictError, invalid_operation}
use qdii_observatory.Prediction.Rules.{present, quantized_option}
use qdii_observatory.Consistency.Rules.{
  ConsistencyStatus, consistent, slightly_diverging, likely_exposure_changed, insufficient_data,
  not_applicable, ConsistencyRules, Evidence, status_of, residual_streak, last_of, mean, mae, bias,
}

pub record ConsistencyResult : Type 0 where
  pub status : ConsistencyStatus
  pub observation_count : ℕ
  pub mae_5_pct : Option Decimal
  pub mae_10_pct : Option Decimal
  pub mae_20_pct : Option Decimal
  pub signed_bias_5_pct : Option Decimal
  pub signed_bias_10_pct : Option Decimal
  pub cumulative_residual_pct : Option Decimal
  pub actual_predicted_correlation : Option Decimal
  pub same_direction_residual_streak : ℕ
  pub recent_coverage_pct : Option Decimal
  pub explanation : String

unfoldable pub explanation_of : ConsistencyStatus → String
explanation_of consistent = "近期实际收益与 Q2 静态披露持仓基线的误差仍在配置阈值内。"
explanation_of slightly_diverging = "近期误差有所扩大，但证据不足以判断基金暴露已经发生显著变化。"
explanation_of likely_exposure_changed =
    "近期基金实际收益与基于 2026 Q2 期末披露持仓的静态模型持续偏离。偏离可能来自调仓、未披露持仓、现金、基金投资、汇率时点、衍生品或其他组合因素，不能据此识别具体证券买卖。"
explanation_of insufficient_data = "有效观测或近期解释覆盖不足，暂不判断 Q2 持仓一致性。"
explanation_of not_applicable = "ETF、指数基金或 ETF 联接基金不运行主动调仓偏离模型。"

abbrev pub is_paired : DailyPrediction → Bool
is_paired p = is_some p.actual_return_pct && is_some p.predicted_return_pct

unfoldable pub residual_between : Option Decimal → Option Decimal → Option Decimal
unfolding subtract
residual_between none predicted = none
residual_between (some actual) none = none
residual_between (some actual) (some predicted) = some (subtract actual predicted)

unfoldable pub residual_in : DailyPrediction → Option Decimal
unfolding residual_between
residual_in p = residual_between p.actual_return_pct p.predicted_return_pct

unfoldable pub in_order : List DailyPrediction → List DailyPrediction
unfolding sort_by
in_order predictions = sort_by (λ a b. leb a.nav_date b.nav_date) predictions

-- `_recent_coverage`, of the predictions in order.
unfoldable pub recent_coverage_of : List DailyPrediction → Outcome PredictError (Option Decimal)
unfolding mean
recent_coverage_of [] = done none
recent_coverage_of (p ∷ ps) =
    let values =
      last_of 5 (map (λ (d : DailyPrediction). d.coverage.total_explained_weight_pct) (p ∷ ps)) in
    value_or invalid_operation (mean values (length values)) >>= λ value. done (some value)

-- The differences from a mean, and the sum of their products.
unfoldable pub sum_of_products : Decimal → Decimal → List Decimal → List Decimal → Decimal → Decimal
unfolding add subtract multiply
sum_of_products a b [] ys sum = sum
sum_of_products a b (x ∷ xs) [] sum = sum
sum_of_products a b (x ∷ xs) (y ∷ ys) sum =
    sum_of_products a b xs ys (add sum (multiply (subtract x a) (subtract y b)))

module _ (square root : Decimal → Decimal) where
  unfoldable pub variance : Decimal → List Decimal → Decimal
  unfolding sum_from subtract
  variance center values = sum_from (whole 0) (map (λ v. square (subtract v center)) values)

  -- `_pearson`, of lists of one length.
  unfoldable pub pearson : List Decimal → List Decimal → Outcome PredictError (Option Decimal)
  unfolding sum_from divide multiply variance sum_of_products quantized_option is_zero
  pearson left right =
      if not (length left == length right) || ltb (length left) 2 then done none else do
        let left_mean =
            (← value_or invalid_operation (divide (sum_from (whole 0) left) (whole (length left))))
        let right_mean =
            (← value_or invalid_operation
              (divide (sum_from (whole 0) right) (whole (length right))))
        let left_variance = variance left_mean left
        let right_variance = variance right_mean right
        if is_zero left_variance || is_zero right_variance
            then done none
            else (value_or invalid_operation (
                  divide (sum_of_products left_mean right_mean left right (whole 0))
                    (root (multiply left_variance right_variance)))
                >>= λ quotient. quantized_option (some quotient))

  -- The sum of the residuals, if there are any.
  abbrev pub sum_if_any : List Decimal → Option Decimal
  sum_if_any [] = none
  sum_if_any (x ∷ xs) = some (sum_from (whole 0) (x ∷ xs))

  unfoldable pub not_evaluated : ConsistencyResult
  unfolding explanation_of
  not_evaluated = record {
    status = not_applicable;
    observation_count = 0;
    mae_5_pct = none;
    mae_10_pct = none;
    mae_20_pct = none;
    signed_bias_5_pct = none;
    signed_bias_10_pct = none;
    cumulative_residual_pct = none;
    actual_predicted_correlation = none;
    same_direction_residual_streak = 0;
    recent_coverage_pct = none;
    explanation = explanation_of not_applicable;
  }

  unfoldable pub judged :
      ConsistencyRules
      → Evidence
      → Option Decimal
      → Option Decimal
      → Option Decimal
      → ConsistencyResult
  unfolding status_of explanation_of
  judged rules e mae_10 mae_20 bias_10 = record {
    status = status_of rules e;
    observation_count = e.observation_count;
    mae_5_pct = e.mae_5;
    mae_10_pct = mae_10;
    mae_20_pct = mae_20;
    signed_bias_5_pct = e.bias_5;
    signed_bias_10_pct = bias_10;
    cumulative_residual_pct = e.cumulative;
    actual_predicted_correlation = e.correlation;
    same_direction_residual_streak = e.streak;
    recent_coverage_pct = e.recent_coverage;
    explanation = explanation_of (status_of rules e);
  }

  -- The rest for the predictions in order.
  unfoldable pub evaluate_ordered :
      List DailyPrediction → ConsistencyRules → Outcome PredictError ConsistencyResult
  unfolding residual_in recent_coverage_of mae bias pearson quantized_option judged
  evaluate_ordered ordered rules = do
    let paired = filterb is_paired ordered
    let residuals = present (map residual_in paired)
    let coverage = (← recent_coverage_of ordered)
    let mae_5 = (← value_or invalid_operation (mae residuals 5))
    let mae_10 = (← value_or invalid_operation (mae residuals 10))
    let mae_20 = (← value_or invalid_operation (mae residuals 20))
    let bias_5 = (← value_or invalid_operation (bias residuals 5))
    let bias_10 = (← value_or invalid_operation (bias residuals 10))
    let cumulative = (← quantized_option (sum_if_any residuals))
    let correlation =
        (← pearson (present (map (λ (p : DailyPrediction). p.actual_return_pct) paired))
          (present (map (λ (p : DailyPrediction). p.predicted_return_pct) paired)))
    let evidence : Evidence = record {
      observation_count = length paired;
      recent_coverage = coverage;
      mae_5 = mae_5;
      bias_5 = bias_5;
      cumulative = cumulative;
      correlation = correlation;
      streak = residual_streak (map residual_in ordered);
    }
    done (judged rules evidence mae_10 mae_20 bias_10)

  unfoldable pub evaluate_consistency :
      List DailyPrediction → ConsistencyRules → Bool → Outcome PredictError ConsistencyResult
  unfolding not_evaluated in_order evaluate_ordered
  evaluate_consistency predictions rules true = done not_evaluated
  evaluate_consistency predictions rules false = evaluate_ordered (in_order predictions) rules
