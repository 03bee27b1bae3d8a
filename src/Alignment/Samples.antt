-- ===== src/Alignment/Samples.antt =====
-- The alignment of three NAV dates with the prices of a share in New York, and the rates of the
-- dollar.
use qdii_observatory.Common.{
  ℕ, ◌<◌, All, ◌≡◌, refl, false, true, none, some, List, [], ◌∷◌, arith, str_eq, sort_by, distinct,
}
use qdii_observatory.Common.Decimal.{whole, scaled}
use qdii_observatory.Alignment.Series.{
  MarketPoint, AlignedMarketReturn, mixed_by_security_market, us_previous_completed_session,
  by_date, rates_of, effective_policy, align_returns,
}
use qdii_observatory.Alignment.Totality.{ArePositive, Aligned, align_returns-Aligned}

abbrev close_at : ℕ → ℕ → MarketPoint
close_at day price = record { trade_date = day; adjusted_close = whole price }

abbrev prices : List MarketPoint
prices = close_at 11 110 ∷ close_at 10 100 ∷ close_at 14 121 ∷ []

abbrev rates : List MarketPoint
rates = close_at 10 7 ∷ close_at 11 7 ∷ []

abbrev nav_dates : List ℕ
nav_dates = 13 ∷ 12 ∷ 15 ∷ 12 ∷ []

-- On day 12 the price is of day 11; day 13 has no newer price, and day 15 no rate.
abbrev rows : List AlignedMarketReturn
rows =
    record {
      nav_date = 12;
      trade_date = some 11;
      previous_trade_date = some 10;
      local_return_pct = some (scaled 1000000000000000000000000000 26);
      fx_return_pct = some (scaled 0 27);
      share_currency_return_pct = some (scaled 1000000000000000000000000000 26);
      alignment_policy = us_previous_completed_session;
      carried_forward = false;
    }
    ∷ record {
      nav_date = 13;
      trade_date = some 11;
      previous_trade_date = some 11;
      local_return_pct = none;
      fx_return_pct = none;
      share_currency_return_pct = none;
      alignment_policy = us_previous_completed_session;
      carried_forward = true;
    }
    ∷ record {
      nav_date = 15;
      trade_date = some 14;
      previous_trade_date = some 11;
      local_return_pct = some (scaled 1000000000000000000000000000 26);
      fx_return_pct = none;
      share_currency_return_pct = none;
      alignment_policy = us_previous_completed_session;
      carried_forward = false;
    }
    ∷ []

aligned :
    align_returns
      (λ s. s)
      nav_dates
      prices
      (some "US")
      "USD"
      "CNY"
      (some rates)
      mixed_by_security_market
    ≡ some rows
unfolding align_returns sort_by distinct
aligned = refl

positive_prices : ArePositive prices
positive_prices = (omega arith, (omega arith, (omega arith, tt)))

positive_days : All (λ (p : MarketPoint). 0 < p.trade_date) prices
positive_days = (omega arith, (omega arith, (omega arith, tt)))

positive_rates : (points : List MarketPoint) → some rates ≡ some points → ArePositive points
positive_rates points h =
    let same : rates ≡ points = cc h in rw (← same) (omega arith, (omega arith, tt))

align_returns-Aligned_example :
    (result : List AlignedMarketReturn) × (align_returns
        (λ s. s)
        nav_dates
        prices
        (some "US")
        "USD"
        "CNY"
        (some rates)
        mixed_by_security_market
      ≡ some result)
    × Aligned
        (effective_policy mixed_by_security_market (some "US"))
        (str_eq "USD" "CNY")
        (by_date prices)
        (rates_of (some rates))
        nav_dates
        result
align_returns-Aligned_example =
    align_returns-Aligned (λ s. s) nav_dates prices (some "US") "USD" "CNY" (some rates)
      mixed_by_security_market positive_prices positive_days positive_rates
