-- ===== src/Consistency/Compounding.antt =====
-- `cumulative_points` of q2_analysis/consistency.py: the returns compounded over the days that have
-- both.
use mathlib.Core.Path.{subst}
use qdii_observatory.Common.{
  ℕ, ◌≡◌, refl, sym, ap, ◌∙◌, Bool, true, false, ◌&&◌, Option, none, some, List, [], ◌∷◌, ◌⊎◌, inl,
  inr, is_some, filterb,
}
use qdii_observatory.Common.Decimal.{Decimal, whole, add, subtract, multiply, divide}
use qdii_observatory.Common.Outcomes.{Outcome, done, ◌>>=◌, value_or, bind-inv, done_inj}
use qdii_observatory.Prediction.Schema.{
  DailyPrediction, AnalysisMode, PredictError, invalid_operation,
}
use qdii_observatory.Prediction.Rules.{quantized}
use qdii_observatory.Consistency.Evaluation.{in_order}

pub record CumulativePoint : Type 0 where
  pub nav_date : ℕ
  pub actual_return_pct : Option Decimal
  pub predicted_return_pct : Option Decimal
  pub cumulative_actual_return_pct : Option Decimal
  pub cumulative_predicted_return_pct : Option Decimal
  pub analysis_mode : AnalysisMode

-- `factor * (1 + value / 100)`
unfoldable pub compounded : Decimal → Decimal → Outcome PredictError Decimal
unfolding divide multiply add
compounded factor value = value_or invalid_operation (divide value (whole 100)) >>= λ part.
    done (multiply factor (add (whole 1) part))

-- `_q((factor - 1) * 100)`
unfoldable pub cumulative_return : Decimal → Outcome PredictError Decimal
unfolding subtract multiply quantized
cumulative_return factor = quantized (multiply (subtract factor (whole 1)) (whole 100))

abbrev pub point_of : DailyPrediction → Option Decimal → Option Decimal → CumulativePoint
point_of p actual predicted = record {
  nav_date = p.nav_date;
  actual_return_pct = p.actual_return_pct;
  predicted_return_pct = p.predicted_return_pct;
  cumulative_actual_return_pct = actual;
  cumulative_predicted_return_pct = predicted;
  analysis_mode = p.analysis_mode;
}

-- The two factors after a day, with its point.
pub record Compounded : Type 0 where
  pub actual_factor : Decimal
  pub predicted_factor : Decimal
  pub point : CumulativePoint

-- The body of the loop, for the two returns of the day.
unfoldable pub compound_at :
    DailyPrediction
    → Decimal
    → Decimal
    → Option Decimal
    → Option Decimal
    → Outcome PredictError Compounded
compound_at p actual_factor predicted_factor (some actual) (some predicted) = do
  let actual_factor = (← compounded actual_factor actual)
  let predicted_factor = (← compounded predicted_factor predicted)
  let cumulative_actual = (← cumulative_return actual_factor)
  let cumulative_predicted = (← cumulative_return predicted_factor)
  done (record {
    actual_factor = actual_factor;
    predicted_factor = predicted_factor;
    point = point_of p (some cumulative_actual) (some cumulative_predicted);
  })
compound_at p actual_factor predicted_factor (some actual) none = done (record {
  actual_factor = actual_factor;
  predicted_factor = predicted_factor;
  point = point_of p none none;
})
compound_at p actual_factor predicted_factor none predicted = done (record {
  actual_factor = actual_factor;
  predicted_factor = predicted_factor;
  point = point_of p none none;
})

unfoldable pub points_from :
    Decimal → Decimal → List DailyPrediction → Outcome PredictError (List CumulativePoint)
unfolding compound_at
points_from actual_factor predicted_factor [] = done []
points_from actual_factor predicted_factor (p ∷ ps) = do
  let day =
      (← compound_at p actual_factor predicted_factor p.actual_return_pct p.predicted_return_pct)
  let points = (← points_from day.actual_factor day.predicted_factor ps)
  done (day.point ∷ points)

unfoldable pub cumulative_points :
    List DailyPrediction → Outcome PredictError (List CumulativePoint)
unfolding in_order points_from
cumulative_points predictions = points_from (whole 1) (whole 1) (in_order predictions)

-- The days and the points that have both values.
abbrev pub has_both : DailyPrediction → Bool
has_both p = is_some p.actual_return_pct && is_some p.predicted_return_pct

abbrev pub is_cumulative : CumulativePoint → Bool
is_cumulative c =
    is_some c.cumulative_actual_return_pct && is_some c.cumulative_predicted_return_pct

-- The points of the days that have both returns.
abbrev pub compounding : List CumulativePoint → List CumulativePoint
compounding points = filterb is_cumulative points

-- A day: its point has values if it has both returns, and else the factors stay.
compound_at-cases :
    (p : DailyPrediction) (f g : Decimal) (actual predicted : Option Decimal) (day : Compounded)
    → compound_at p f g actual predicted ≡ done day
    → ((is_some actual && is_some predicted) ≡ true) × (is_cumulative day.point ≡ true)
      ⊎ ((is_some actual && is_some predicted) ≡ false)
        × (is_cumulative day.point ≡ false)
        × (day.actual_factor ≡ f)
        × (day.predicted_factor ≡ g)
unfolding compound_at
compound_at-cases p f g none predicted day e =
    let same = done_inj {E = PredictError} _ day e in
    inr (
      refl,
      ap (λ (d : Compounded). is_cumulative d.point) (sym same),
      ap (λ (d : Compounded). d.actual_factor) (sym same),
      ap (λ (d : Compounded). d.predicted_factor) (sym same),
    )
compound_at-cases p f g (some a) none day e =
    let same = done_inj {E = PredictError} _ day e in
    inr (
      refl,
      ap (λ (d : Compounded). is_cumulative d.point) (sym same),
      ap (λ (d : Compounded). d.actual_factor) (sym same),
      ap (λ (d : Compounded). d.predicted_factor) (sym same),
    )
compound_at-cases p f g (some a) (some b) day e =
    let (f', _, e1) = bind-inv (compounded f a) _ e in
    let (g', _, e2) = bind-inv (compounded g b) _ e1 in
    let (x, _, e3) = bind-inv (cumulative_return f') _ e2 in
    let (y, _, e4) = bind-inv (cumulative_return g') _ e3 in
    let same = done_inj {E = PredictError} _ day e4 in
    inl (refl, ap (λ (d : Compounded). is_cumulative d.point) (sym same))

-- If the compounding returns points, then from the days that have both returns alone it returns
-- the points that have values.
points_from-filterb :
    (f g : Decimal) (ps : List DailyPrediction) (points : List CumulativePoint)
    → points_from f g ps ≡ done points
    → points_from f g (filterb has_both ps) ≡ done (compounding points)
unfolding points_from
points_from-filterb f g [] points e =
    ap (λ xs. done (compounding xs)) (done_inj {E = PredictError} [] points e)
points_from-filterb f g (p ∷ ps) points e =
    let (day, h1, e1) =
      bind-inv (compound_at p f g p.actual_return_pct p.predicted_return_pct) _ e in
    let (rest, h2, e2) = bind-inv (points_from day.actual_factor day.predicted_factor ps) _ e1 in
    let ih = points_from-filterb day.actual_factor day.predicted_factor ps rest h2 in
    let same = done_inj {E = PredictError} (day.point ∷ rest) points e2 in
    subst (λ xs. points_from f g (filterb has_both (p ∷ ps)) ≡ done (compounding xs)) same
      (elim (compound_at-cases p f g p.actual_return_pct p.predicted_return_pct day h1) [
        | inl (both, shown) ↦
            rw (both, shown) (step p (filterb has_both ps) day (compounding rest) h1 ih)
        | inr (lacks, hidden, in_actual, in_predicted) ↦
            rw (lacks, hidden)
              (ap (λ x. points_from x g (filterb has_both ps)) (sym in_actual)
                ∙ ap (λ y. points_from day.actual_factor y (filterb has_both ps)) (sym in_predicted)
                ∙ ih)
      ])
  where
    step :
        (p : DailyPrediction) (qs : List DailyPrediction) (day : Compounded)
        (rest : List CumulativePoint)
        → compound_at p f g p.actual_return_pct p.predicted_return_pct ≡ done day
        → points_from day.actual_factor day.predicted_factor qs ≡ done rest
        → points_from f g (p ∷ qs) ≡ done (day.point ∷ rest)
    step p qs day rest h k =
        ap
          (λ o. o >>= λ (d : Compounded).
            points_from d.actual_factor d.predicted_factor qs >>= λ points. done (d.point ∷ points))
          h
        ∙ ap (λ o. o >>= λ points. done (day.point ∷ points)) k

-- If `cumulative_points` returns points, then compounding the days that have both returns alone, in
-- the order of time, returns the points that have cumulative values: the other days neither reset
-- nor change them.
pub cumulative_points-compounding :
    (predictions : List DailyPrediction) (points : List CumulativePoint)
    → cumulative_points predictions ≡ done points
    → points_from (whole 1) (whole 1) (filterb has_both (in_order predictions))
      ≡ done (compounding points)
unfolding cumulative_points
cumulative_points-compounding predictions points e =
    points_from-filterb (whole 1) (whole 1) (in_order predictions) points e
