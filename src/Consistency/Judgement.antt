-- ===== src/Consistency/Judgement.antt =====
-- What a result of `evaluate_consistency` rests on.
use mathlib.Core.Path.{subst}
use qdii_observatory.Common.{
  sym, Bool, ◌≡◌, refl, ◌∙◌, false, Option, List, map, length, filterb, countb, leb,
}
use qdii_observatory.Common.Rows.{length-filterb, countb-sort_by}
use qdii_observatory.Common.Decimal.{Decimal}
use qdii_observatory.Common.Outcomes.{done, value_or, bind-inv, done_inj}
use qdii_observatory.Prediction.Schema.{DailyPrediction, PredictError, invalid_operation}
use qdii_observatory.Prediction.Rules.{present, quantized_option}
use qdii_observatory.Consistency.Rules.{ConsistencyRules, Evidence, residual_streak, mae, bias}
use qdii_observatory.Consistency.Streaks.{IsStreak, residual_streak-IsStreak}
use qdii_observatory.Consistency.Grounds.{Grounds, status_of_lem}
use qdii_observatory.Alignment.Points.{IsSorted, sort_by-IsSorted}
use qdii_observatory.Consistency.Evaluation.{
  ConsistencyResult, is_paired, residual_in, in_order, recent_coverage_of, pearson, sum_if_any,
  judged, evaluate_ordered, evaluate_consistency,
}

-- The evidence that a result shows.
abbrev pub evidence_of : ConsistencyResult → Evidence
evidence_of r = record {
  observation_count = r.observation_count;
  recent_coverage = r.recent_coverage_pct;
  mae_5 = r.mae_5_pct;
  bias_5 = r.signed_bias_5_pct;
  cumulative = r.cumulative_residual_pct;
  correlation = r.actual_predicted_correlation;
  streak = r.same_direction_residual_streak;
}

-- A list in the order of time, with exactly the same days as another.
pub record IsInOrder (predictions ordered : List DailyPrediction) : Type 0 where
  pub sorted : IsSorted (λ (p : DailyPrediction). p.nav_date) ordered
  pub same : (p : DailyPrediction → Bool) → countb p ordered ≡ countb p predictions

pub record Judged (predictions : List DailyPrediction) (rules : ConsistencyRules)
    (r : ConsistencyResult) : Type 0 where
  -- The days with both returns.
  pub observed : r.observation_count ≡ countb is_paired predictions
  pub ordered : List DailyPrediction
  pub in_time : IsInOrder predictions ordered
  pub streak : IsStreak (map residual_in ordered) r.same_direction_residual_streak
  pub grounds : Grounds rules (evidence_of r) r.status

in_order-IsInOrder :
    (predictions : List DailyPrediction) → IsInOrder predictions (in_order predictions)
unfolding in_order
in_order-IsInOrder predictions = record {
  sorted = sort_by-IsSorted (λ (p : DailyPrediction). p.nav_date) predictions;
  same = λ p. countb-sort_by p (λ a b. leb a.nav_date b.nav_date) predictions;
}

module _ (square root : Decimal → Decimal) (predictions : List DailyPrediction)
    (rules : ConsistencyRules) where
  judged-Judged :
      (e : Evidence) (mae_10 mae_20 bias_10 : Option Decimal)
      → e.observation_count ≡ length (filterb is_paired (in_order predictions))
      → e.streak ≡ residual_streak (map residual_in (in_order predictions))
      → Judged predictions rules (judged square root rules e mae_10 mae_20 bias_10)
  unfolding judged
  judged-Judged e mae_10 mae_20 bias_10 count streak =
      let in_time = in_order-IsInOrder predictions in
      record {
        observed = count ∙ length-filterb is_paired (in_order predictions) ∙ in_time.same is_paired;
        ordered = in_order predictions;
        in_time = in_time;
        streak =
            subst (IsStreak (map residual_in (in_order predictions))) (sym streak)
              (residual_streak-IsStreak (map residual_in (in_order predictions)));
        grounds = status_of_lem rules e;
      }

  evaluate_ordered-Judged :
      (r : ConsistencyResult)
      → evaluate_ordered square root (in_order predictions) rules ≡ done r
      → Judged predictions rules r
  unfolding evaluate_ordered
  evaluate_ordered-Judged r e =
      let ordered = in_order predictions in
      let paired = filterb is_paired ordered in
      let residuals = present (map residual_in paired) in
      let (coverage, _, e1) = bind-inv (recent_coverage_of ordered) _ e in
      let (mae_5, _, e2) = bind-inv (value_or invalid_operation (mae residuals 5)) _ e1 in
      let (mae_10, _, e3) = bind-inv (value_or invalid_operation (mae residuals 10)) _ e2 in
      let (mae_20, _, e4) = bind-inv (value_or invalid_operation (mae residuals 20)) _ e3 in
      let (bias_5, _, e5) = bind-inv (value_or invalid_operation (bias residuals 5)) _ e4 in
      let (bias_10, _, e6) = bind-inv (value_or invalid_operation (bias residuals 10)) _ e5 in
      let (cumulative, _, e7) =
        bind-inv (quantized_option (sum_if_any square root residuals)) _ e6 in
      let (correlation, _, e8) =
        bind-inv
          (pearson square root (present (map (λ (p : DailyPrediction). p.actual_return_pct) paired))
            (present (map (λ (p : DailyPrediction). p.predicted_return_pct) paired)))
          _ e7 in
      subst (Judged predictions rules) (done_inj {E = PredictError} _ r e8)
        (judged-Judged _ mae_10 mae_20 bias_10 refl refl)

  -- If `evaluate_consistency` of a fund to which it applies returns a result: it counts the days with
  -- an actual and a predicted return, in whatever order the predictions are given; with the same
  -- predictions in the order of their dates, its streak is 0 if there is no latest residual or it is
  -- zero, and otherwise the number of residuals from the latest back that are present, not zero and
  -- of its sign, up to the first that is not; and its status has its grounds in the numbers that the
  -- result shows: insufficient data means too few such days, or a recent coverage that is unknown or
  -- too low, a likely change of the exposure that there are enough days, with a long streak and a
  -- large mean error or with a large cumulative residual at a low correlation, a slight divergence
  -- that none of this holds but an error, a bias or a low correlation is seen, and consistency that
  -- neither is; the result never says that the fund is not evaluated.
  pub evaluate_consistency-Judged :
      (r : ConsistencyResult)
      → evaluate_consistency square root predictions rules false ≡ done r
      → Judged predictions rules r
  unfolding evaluate_consistency
  evaluate_consistency-Judged r e = evaluate_ordered-Judged r e
