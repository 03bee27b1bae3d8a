-- ===== src/Consistency/Samples.antt =====
-- The theorems on consistency at four residuals, the latest last.
use qdii_observatory.Common.{
  ℕ, ◌≡◌, refl, filterb, true, false, Option, none, some, List, [], ◌∷◌, ◌++◌,
}
use qdii_observatory.Common.Decimal.{Decimal, whole, scaled, is_zero, less, multiply, absolute}
use qdii_observatory.Common.Outcomes.{done}
use qdii_observatory.Prediction.Schema.{DailyPrediction, q2_live, medium}
use qdii_observatory.Consistency.Evaluation.{ConsistencyResult, in_order, evaluate_consistency}
use qdii_observatory.Consistency.Compounding.{
  CumulativePoint, compounded, cumulative_return, cumulative_points, points_from, has_both,
  compounding, cumulative_points-compounding,
}
use qdii_observatory.Consistency.Judgement.{Judged, evaluate_consistency-Judged}
use qdii_observatory.Consistency.Rules.{
  ConsistencyRules, Evidence, likely_exposure_changed, is_positive, newest_first, streak_of_latest,
  residual_streak, status_of,
}
use qdii_observatory.Consistency.Streaks.{Splits, residual_streak-Splits}
use qdii_observatory.Consistency.Grounds.{Grounds, status_of_lem}

abbrev earlier : List (Option Decimal)
earlier =
    some (whole 2)
    ∷ some (record { negative = true; coefficient = 3; scale = 1 })
    ∷ some (scaled 12 1)
    ∷ []

streak_of_two : residual_streak (earlier ++ some (scaled 4 1) ∷ []) ≡ 2
unfolding streak_of_latest less
streak_of_two = refl

nonzero : is_zero (scaled 4 1) ≡ false
unfolding is_zero
nonzero = refl

residual_streak-Splits_example :
    Splits
      (is_positive (scaled 4 1))
      (some (scaled 4 1) ∷ newest_first earlier)
      (residual_streak (earlier ++ some (scaled 4 1) ∷ []))
residual_streak-Splits_example = residual_streak-Splits (scaled 4 1) earlier nonzero

abbrev rules : ConsistencyRules
rules = record {
  minimum_observations = 5;
  likely_minimum_observations = 10;
  minimum_recent_coverage_pct = whole 50;
  slightly_mae_5_pct = scaled 5 1;
  slightly_abs_bias_5_pct = scaled 3 1;
  slightly_correlation = scaled 8 1;
  likely_mae_5_pct = whole 1;
  likely_abs_bias_5_pct = scaled 8 1;
  likely_residual_streak = 4;
  likely_cumulative_residual_pct = whole 3;
}

abbrev evidence : Evidence
evidence = record {
  observation_count = 12;
  recent_coverage = some (whole 70);
  mae_5 = some (scaled 15 1);
  bias_5 = none;
  cumulative = none;
  correlation = none;
  streak = 5;
}

judged_likely : status_of rules evidence ≡ likely_exposure_changed
unfolding status_of less
judged_likely = refl

status_of_lem_example : Grounds rules evidence (status_of rules evidence)
status_of_lem_example = status_of_lem rules evidence

-- Two days of one residual, given with the later one first, and a day without an actual return.
abbrev day : ℕ → Option Decimal → DailyPrediction
day nav_date actual = record {
  nav_date = nav_date;
  actual_return_pct = actual;
  actual_return_source = none;
  predicted_return_pct = some (whole 1);
  lower_bound_pct = none;
  upper_bound_pct = none;
  known_contribution_pct = none;
  proxy_contribution_pct = none;
  fund_holding_contribution_pct = none;
  cash_contribution_pct = scaled 0 8;
  residual_pct = none;
  analysis_mode = q2_live;
  confidence = medium;
  coverage = record {
    disclosed_security_weight_pct = whole 90;
    mapped_security_weight_pct = whole 90;
    priced_security_weight_pct = whole 90;
    unresolved_security_weight_pct = whole 0;
    missing_market_data_weight_pct = whole 0;
    undisclosed_equity_weight_pct = whole 0;
    proxy_weight_pct = whole 0;
    fund_holding_weight_pct = whole 0;
    resolved_fund_holding_weight_pct = whole 0;
    unresolved_fund_weight_pct = whole 0;
    cash_weight_pct = whole 0;
    total_explained_weight_pct = whole 90;
  };
  security_contributions = [];
  proxy_contributions = [];
  fund_holding_contributions = [];
}

abbrev days : List DailyPrediction
days = day 12 (some (whole 3)) ∷ day 11 (some (whole 3)) ∷ day 10 none ∷ []

abbrev square : Decimal → Decimal
square a = multiply a a

judged_days :
    (r : ConsistencyResult) × (evaluate_consistency square absolute days rules false ≡ done r)
unfolding evaluate_consistency multiply absolute less is_zero
judged_days = (_, refl)

two_days : judged_days.0.same_direction_residual_streak ≡ 2
unfolding judged_days streak_of_latest
two_days = refl

evaluate_consistency-Judged_example : Judged days rules judged_days.0
evaluate_consistency-Judged_example =
    evaluate_consistency-Judged square absolute days rules judged_days.0 judged_days.1

compounded_days : (points : List CumulativePoint) × (cumulative_points days ≡ done points)
unfolding cumulative_points compounded cumulative_return
compounded_days = (_, refl)

cumulative_points-compounding_example :
    points_from (whole 1) (whole 1) (filterb has_both (in_order days))
    ≡ done (compounding compounded_days.0)
cumulative_points-compounding_example =
    cumulative_points-compounding days compounded_days.0 compounded_days.1
