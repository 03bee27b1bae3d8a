-- ===== src/Consistency/Rules.antt =====
-- The rules of q2_analysis/consistency.py: the status, the windows of the residuals and the streak.
use qdii_observatory.Common.{
  ℕ, zero, suc, ◌-◌, Bool, true, false, not, ◌&&◌, ◌||◌, Option, none, some, List, [], ◌∷◌, ◌++◌,
  leb, ltb, if◌then◌else◌, length, map,
}
use qdii_observatory.Common.Decimal.{
  Decimal, whole, absolute, divide, quantize, half_up, less, at_most, is_zero, sum_from,
}

pub data ConsistencyStatus : Type 0 where
  consistent slightly_diverging likely_exposure_changed insufficient_data not_applicable :
      ConsistencyStatus

pub record ConsistencyRules : Type 0 where
  pub minimum_observations : ℕ
  pub likely_minimum_observations : ℕ
  pub minimum_recent_coverage_pct : Decimal
  pub slightly_mae_5_pct : Decimal
  pub slightly_abs_bias_5_pct : Decimal
  pub slightly_correlation : Decimal
  pub likely_mae_5_pct : Decimal
  pub likely_abs_bias_5_pct : Decimal
  pub likely_residual_streak : ℕ
  pub likely_cumulative_residual_pct : Decimal

-- The keyword arguments of `_status`.
pub record Evidence : Type 0 where
  pub observation_count : ℕ
  pub recent_coverage : Option Decimal
  pub mae_5 : Option Decimal
  pub bias_5 : Option Decimal
  pub cumulative : Option Decimal
  pub correlation : Option Decimal
  pub streak : ℕ

-- `value is not None and value >= limit`, and the same of the absolute value.
abbrev pub reaches : Decimal → Option Decimal → Bool
reaches limit none = false
reaches limit (some value) = at_most limit value

abbrev pub size_reaches : Decimal → Option Decimal → Bool
size_reaches limit none = false
size_reaches limit (some value) = at_most limit (absolute value)

-- `value is not None and value < limit`
abbrev pub falls_below : Decimal → Option Decimal → Bool
falls_below limit none = false
falls_below limit (some value) = less value limit

unfoldable pub is_insufficient : ConsistencyRules → Evidence → Bool
is_insufficient rules e =
    ltb e.observation_count rules.minimum_observations || elim e.recent_coverage [
      | none ↦ true
      | some coverage ↦ less coverage rules.minimum_recent_coverage_pct
    ]

unfoldable pub is_likely_streak : ConsistencyRules → Evidence → Bool
is_likely_streak rules e =
    leb rules.likely_residual_streak e.streak
    && (reaches rules.likely_mae_5_pct e.mae_5 || size_reaches rules.likely_abs_bias_5_pct e.bias_5)

unfoldable pub is_likely_cumulative : ConsistencyRules → Evidence → Bool
is_likely_cumulative rules e =
    size_reaches rules.likely_cumulative_residual_pct e.cumulative
    && falls_below rules.slightly_correlation e.correlation

unfoldable pub is_slight : ConsistencyRules → Evidence → Bool
is_slight rules e =
    reaches rules.slightly_mae_5_pct e.mae_5
    || size_reaches rules.slightly_abs_bias_5_pct e.bias_5
    || falls_below rules.slightly_correlation e.correlation

-- `_status`
unfoldable pub status_of : ConsistencyRules → Evidence → ConsistencyStatus
unfolding is_insufficient is_likely_streak is_likely_cumulative is_slight
status_of rules e =
    if is_insufficient rules e
    then insufficient_data
    else if leb rules.likely_minimum_observations e.observation_count
        && (is_likely_streak rules e || is_likely_cumulative rules e)
    then likely_exposure_changed
    else if is_slight rules e
    then slightly_diverging
    else consistent

-- `value > 0`
abbrev pub is_positive : Decimal → Bool
is_positive value = less (whole 0) value

-- Whether a value goes on with the streak: it is present, not zero, and of the expected sign.
unfoldable pub continues : Bool → Option Decimal → Bool
unfolding is_zero
continues positive none = false
continues positive (some value) =
    not (is_zero value) && (if is_positive value then positive else not positive)

-- The loop over `reversed(residuals)`.
unfoldable pub streak_from : Bool → List (Option Decimal) → ℕ
unfolding continues
streak_from positive [] = 0
streak_from positive (value ∷ rest) =
    let count = streak_from positive rest in if continues positive value then suc count else 0

-- `reversed(residuals)`
abbrev pub newest_first : List (Option Decimal) → List (Option Decimal)
newest_first [] = []
newest_first (x ∷ xs) = newest_first xs ++ x ∷ []

unfoldable pub streak_of_latest : List (Option Decimal) → ℕ
unfolding streak_from is_zero
streak_of_latest [] = 0
streak_of_latest (none ∷ rest) = 0
streak_of_latest (some last ∷ rest) =
    if is_zero last then 0 else streak_from (is_positive last) (some last ∷ rest)

-- `_residual_streak`, of the residuals in the order of time.
abbrev pub residual_streak : List (Option Decimal) → ℕ
residual_streak residuals = streak_of_latest (newest_first residuals)

abbrev pub drop_first : ℕ → List Decimal → List Decimal
drop_first zero xs = xs
drop_first (suc n) [] = []
drop_first (suc n) (x ∷ xs) = drop_first n xs

-- `residuals[-window:]`, for a window that is not longer.
abbrev pub last_of : ℕ → List Decimal → List Decimal
last_of window xs = drop_first (length xs - window) xs

-- `_q`; `none` is an exception.
unfoldable pub q : Decimal → Option Decimal
unfolding quantize half_up
q value = quantize half_up 8 value

unfoldable pub mean : List Decimal → ℕ → Option Decimal
unfolding sum_from divide q
mean values count = elim (divide (sum_from (whole 0) values) (whole count)) [
  | none ↦ none
  | some quotient ↦ q quotient
]

-- `_mae` and `_bias`: an exception, or None for too few residuals, or the value.
unfoldable pub mae : List Decimal → ℕ → Option (Option Decimal)
unfolding mean
mae residuals window =
    if ltb (length residuals) window
    then some none
    else elim (mean (map absolute (last_of window residuals)) window) [
      | none ↦ none
      | some value ↦ some (some value)
    ]

unfoldable pub bias : List Decimal → ℕ → Option (Option Decimal)
unfolding mean
bias residuals window =
    if ltb (length residuals) window
    then some none
    else elim (mean (last_of window residuals) window) [
      | none ↦ none
      | some value ↦ some (some value)
    ]
