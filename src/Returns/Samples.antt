-- ===== src/Returns/Samples.antt =====
-- The theorems on period returns at three NAVs around the start of a month.
use qdii_observatory.Common.{ℕ, ◌<◌, ◌≡◌, refl, false, none, some, List, [], ◌∷◌, arith, sort_by}
use qdii_observatory.Common.Decimal.{scaled}
use qdii_observatory.Returns.Periods.{
  mtd, qtd, NavObservation, ready, PeriodReturn, period_boundary, calculate_period_return,
}
use qdii_observatory.Returns.Baselines.{
  Compares, calculate_period_return-Compares, calculate_period_return_blind,
}

abbrev nav_at : ℕ → ℕ → NavObservation
nav_at date nav = record { nav_date = date; unit_nav = scaled nav 4; accumulated_nav = none }

abbrev june : List NavObservation
june = nav_at 20260602 12600 ∷ nav_at 20260529 12000 ∷ []

abbrev later : NavObservation
later = nav_at 20260605 99999

abbrev result : PeriodReturn
result = record {
  return_pct = some (scaled 500000000 8);
  baseline_date = some 20260529;
  end_date = some 20260602;
  uses_accumulated_nav = false;
  status = ready;
}

-- From 1.2000 to 1.2600 is 5 %.
calculated : calculate_period_return mtd 20260603 20260603 june ≡ some result
unfolding calculate_period_return sort_by
calculated = refl

bounded : period_boundary 20260603 mtd ≡ some 20260601
unfolding period_boundary
bounded = refl

quarter : period_boundary 20260603 qtd ≡ some 20260401
unfolding period_boundary
quarter = refl

calculate_period_return-Compares_example : Compares 20260603 20260601 june result
calculate_period_return-Compares_example =
    calculate_period_return-Compares mtd 20260603 20260603 20260601 june result bounded refl
      calculated

after : 20260603 < later.nav_date
after = omega arith

calculate_period_return_blind_example :
    calculate_period_return mtd 20260603 20260603 (later ∷ june)
    ≡ calculate_period_return mtd 20260603 20260603 june
calculate_period_return_blind_example =
    calculate_period_return_blind mtd 20260603 20260603 later [] june after
