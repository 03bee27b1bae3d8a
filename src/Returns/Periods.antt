-- ===== src/Returns/Periods.antt =====
-- The functions of period_returns.py. A date is the number yyyymmdd, so that dates compare as
-- numbers.
use qdii_observatory.Common.{
  ℕ, ◌+◌, ◌-◌, ◌*◌, ◌/◌, ◌%◌, Bool, true, false, Option, none, some, List, [], ◌∷◌, ◌++◌, leb, ltb,
  filterb, first, sort_by,
}
use qdii_observatory.Common.Decimal.{
  Decimal, whole, subtract, multiply, divide, quantize, half_even,
}

pub data ReturnPeriod : Type 0 where
  daily mtd qtd : ReturnPeriod

pub record NavObservation : Type 0 where
  pub nav_date : ℕ
  pub unit_nav : Decimal
  pub accumulated_nav : Option Decimal

pub data ReturnStatus : Type 0 where
  ready missing_nav missing_baseline : ReturnStatus

pub record PeriodReturn : Type 0 where
  pub return_pct : Option Decimal
  pub baseline_date : Option ℕ
  pub end_date : Option ℕ
  pub uses_accumulated_nav : Bool
  pub status : ReturnStatus

-- The first day of the month, and of the quarter.
unfoldable pub period_boundary : ℕ → ReturnPeriod → Option ℕ
period_boundary as_of daily = none
period_boundary as_of mtd = some (as_of / 100 * 100 + 1)
period_boundary as_of qtd =
    some (as_of / 10000 * 10000 + ((as_of / 100 % 100 - 1) / 3 * 3 + 1) * 100 + 1)

abbrev pub date_le : NavObservation → NavObservation → Bool
date_le a b = leb a.nav_date b.nav_date

abbrev pub up_to : ℕ → NavObservation → Bool
up_to end_date row = leb row.nav_date end_date

abbrev pub reversed : List NavObservation → List NavObservation
reversed [] = []
reversed (x ∷ xs) = reversed xs ++ x ∷ []

-- `reversed(rows)`, the latest row first.
unfoldable pub latest_first : ℕ → List NavObservation → List NavObservation
unfolding sort_by
latest_first end_date observations =
    reversed (sort_by date_le (filterb (up_to end_date) observations))

unfoldable pub find_baseline : ReturnPeriod → Option ℕ → List NavObservation → Option NavObservation
find_baseline daily boundary (last ∷ previous ∷ rest) = some previous
find_baseline daily boundary (last ∷ []) = none
find_baseline daily boundary [] = none
find_baseline mtd (some boundary) rows = first (λ row. ltb row.nav_date boundary) rows
find_baseline mtd none rows = none
find_baseline qtd (some boundary) rows = first (λ row. ltb row.nav_date boundary) rows
find_baseline qtd none rows = none

-- The two values that are divided, and whether they are the accumulated NAVs.
unfoldable pub values : NavObservation → NavObservation → Decimal × Decimal × Bool
values baseline end = elim baseline.accumulated_nav [
  | none ↦ (baseline.unit_nav, end.unit_nav, false)
  | some b ↦ elim end.accumulated_nav [
    | none ↦ (baseline.unit_nav, end.unit_nav, false)
    | some e ↦ (b, e, true)
  ]
]

-- `((end / baseline) - 1) * 100`, quantized; `none` is an exception.
unfoldable pub return_between : Decimal → Decimal → Option Decimal
unfolding divide subtract multiply quantize half_even
return_between baseline end = elim (divide end baseline) [
  | none ↦ none
  | some ratio ↦ quantize half_even 8 (multiply (subtract ratio (whole 1)) (whole 100))
]

unfoldable pub ready_return : NavObservation → NavObservation → Option PeriodReturn
unfolding values return_between
ready_return baseline end =
    let (baseline_value, end_value, uses_accumulated) = values baseline end in
    elim (return_between baseline_value end_value) [
      | none ↦ none
      | some pct ↦ some (record {
        return_pct = some pct;
        baseline_date = some baseline.nav_date;
        end_date = some end.nav_date;
        uses_accumulated_nav = uses_accumulated;
        status = ready;
      })
    ]

unfoldable pub return_of_rows : ReturnPeriod → Option ℕ → List NavObservation → Option PeriodReturn
unfolding find_baseline ready_return
return_of_rows period boundary [] = some (record {
  return_pct = none;
  baseline_date = none;
  end_date = none;
  uses_accumulated_nav = false;
  status = missing_nav;
})
return_of_rows period boundary (end ∷ rest) = elim (find_baseline period boundary (end ∷ rest)) [
  | none ↦ some (record {
    return_pct = none;
    baseline_date = none;
    end_date = some end.nav_date;
    uses_accumulated_nav = false;
    status = missing_baseline;
  })
  | some baseline ↦ ready_return baseline end
]

-- `as_of` is `period_as_of or end_date`.
unfoldable pub calculate_period_return :
    ReturnPeriod → ℕ → ℕ → List NavObservation → Option PeriodReturn
unfolding return_of_rows period_boundary latest_first
calculate_period_return period end_date as_of observations =
    return_of_rows period (period_boundary as_of period) (latest_first end_date observations)
