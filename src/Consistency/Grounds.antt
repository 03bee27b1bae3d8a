-- ===== src/Consistency/Grounds.antt =====
-- What each status of q2_analysis/consistency.py says of the evidence.
use mathlib.Core.Path.{subst}
use qdii_observatory.Common.{
  not, ℕ, ◌≤◌, ◌≡◌, refl, Bool, true, false, ◌&&◌, ◌||◌, ◌⊎◌, inl, inr, Option, none, some, arith,
  leb, ltb, Bool-cases, if◌then◌else◌,
}
use qdii_observatory.Common.Decimal.{Decimal, absolute, less, at_most}
use qdii_observatory.Consistency.Rules.{
  ConsistencyRules, Evidence, ConsistencyStatus, consistent, slightly_diverging,
  likely_exposure_changed, insufficient_data, reaches, size_reaches, falls_below, status_of,
  is_likely_streak, is_likely_cumulative, is_slight, is_insufficient,
}

-- `value` is known, and it is at least `limit`, its size is at least `limit`, or it is below `limit`.
abbrev pub Reaches : Decimal → Option Decimal → Type 0
Reaches limit value = (x : Decimal) × (value ≡ some x) × (at_most limit x ≡ true)

abbrev pub Outgrows : Decimal → Option Decimal → Type 0
Outgrows limit value = (x : Decimal) × (value ≡ some x) × (at_most limit (absolute x) ≡ true)

abbrev pub FallsBelow : Decimal → Option Decimal → Type 0
FallsBelow limit value = (x : Decimal) × (value ≡ some x) × (less x limit ≡ true)

-- There are enough observations, and enough of the fund is covered.
abbrev pub Covered : ConsistencyRules → Evidence → Type 0
Covered rules e =
    (rules.minimum_observations ≤ e.observation_count)
    × Reaches rules.minimum_recent_coverage_pct e.recent_coverage

-- A long streak of one sign with a large error, in the mean of the sizes or in the mean.
abbrev pub LongStreak : ConsistencyRules → Evidence → Type 0
LongStreak rules e =
    (rules.likely_residual_streak ≤ e.streak)
    × (Reaches rules.likely_mae_5_pct e.mae_5 ⊎ Outgrows rules.likely_abs_bias_5_pct e.bias_5)

-- A large cumulative residual at a low correlation.
abbrev pub Drifted : ConsistencyRules → Evidence → Type 0
Drifted rules e =
    Outgrows rules.likely_cumulative_residual_pct e.cumulative
    × FallsBelow rules.slightly_correlation e.correlation

abbrev pub Likely : ConsistencyRules → Evidence → Type 0
Likely rules e =
    (rules.likely_minimum_observations ≤ e.observation_count)
    × (LongStreak rules e ⊎ Drifted rules e)

abbrev pub Slight : ConsistencyRules → Evidence → Type 0
Slight rules e =
    (Reaches rules.slightly_mae_5_pct e.mae_5 ⊎ Outgrows rules.slightly_abs_bias_5_pct e.bias_5)
    ⊎ FallsBelow rules.slightly_correlation e.correlation

-- The grounds of a status; that a fund is not evaluated is none of them.
pub data Grounds (rules : ConsistencyRules) (e : Evidence) : ConsistencyStatus → Type 0 where
  insufficient : (Covered rules e → ⊥) → Grounds rules e insufficient_data
  changed : Covered rules e → Likely rules e → Grounds rules e likely_exposure_changed
  diverging :
      Covered rules e → (Likely rules e → ⊥) → Slight rules e → Grounds rules e slightly_diverging
  steady :
      Covered rules e → (Likely rules e → ⊥) → (Slight rules e → ⊥) → Grounds rules e consistent

-- A test of the code against what it stands for.
abbrev Decides : Type 0 → Bool → Type 0
Decides A b = (A × (b ≡ true)) ⊎ ((A → ⊥) × (b ≡ false))

Decides-and : {A B : Type 0} (a b : Bool) → Decides A a → Decides B b → Decides (A × B) (a && b)
Decides-and a b (inl (x, h)) (inl (y, k)) = inl ((x, y), ground (arith, h, k))
Decides-and a b (inl (x, h)) (inr (n, k)) = inr (λ p. n p.1, ground (arith, h, k))
Decides-and a b (inr (n, h)) d = inr (λ p. n p.0, ground (arith, h))

Decides-or : {A B : Type 0} (a b : Bool) → Decides A a → Decides B b → Decides (A ⊎ B) (a || b)
Decides-or a b (inl (x, h)) d = inl (inl x, ground (arith, h))
Decides-or a b (inr (n, h)) (inl (y, k)) = inl (inr y, ground (arith, h, k))
Decides-or a b (inr (n, h)) (inr (m, k)) =
    inr (λ p. elim p [ inl x ↦ n x | inr y ↦ m y ], ground (arith, h, k))

Decides-leb : (m n : ℕ) → Decides (m ≤ n) (leb m n)
Decides-leb m n = elim (Bool-cases (leb m n)) [
  | inl h ↦ inl (ground (arith, h), h)
  | inr h ↦ inr (λ k. absurd (ground (arith, h, k)), h)
]

reaches-Decides :
    (limit : Decimal) (v : Option Decimal) → Decides (Reaches limit v) (reaches limit v)
reaches-Decides limit none = inr (λ (x, e, h). absurd (cc e), refl)
reaches-Decides limit (some y) = elim (Bool-cases (at_most limit y)) [
  | inl h ↦ inl ((y, refl, h), h)
  | inr h ↦ inr (λ (x, e, k). absurd (cc (e, h, k)), h)
]

size_reaches-Decides :
    (limit : Decimal) (v : Option Decimal) → Decides (Outgrows limit v) (size_reaches limit v)
size_reaches-Decides limit none = inr (λ (x, e, h). absurd (cc e), refl)
size_reaches-Decides limit (some y) = elim (Bool-cases (at_most limit (absolute y))) [
  | inl h ↦ inl ((y, refl, h), h)
  | inr h ↦ inr (λ (x, e, k). absurd (cc (e, h, k)), h)
]

falls_below-Decides :
    (limit : Decimal) (v : Option Decimal) → Decides (FallsBelow limit v) (falls_below limit v)
falls_below-Decides limit none = inr (λ (x, e, h). absurd (cc e), refl)
falls_below-Decides limit (some y) = elim (Bool-cases (less y limit)) [
  | inl h ↦ inl ((y, refl, h), h)
  | inr h ↦ inr (λ (x, e, k). absurd (cc (e, h, k)), h)
]

not_or : (a b : Bool) → (not a && not b) ≡ not (a || b)
not_or true b = refl
not_or false b = refl

Decides-not-ltb : (m n : ℕ) → Decides (m ≤ n) (not (ltb n m))
Decides-not-ltb m n = elim (Bool-cases (ltb n m)) [
  | inl h ↦ inr (λ k. absurd (ground (arith, h, k)), ground (arith, h))
  | inr h ↦ inl (ground (arith, h), ground (arith, h))
]

Covered-Decides :
    (n least : ℕ) (limit : Decimal) (v : Option Decimal)
    → Decides
        ((least ≤ n) × Reaches limit v)
        (not (ltb n least || elim v [ none ↦ true | some x ↦ less x limit ]))
Covered-Decides n least limit none = inr (λ p. no_value p.1, ground arith)
  where
    no_value : Reaches limit none → ⊥
    no_value (x, e, h) = absurd (cc e)
Covered-Decides n least limit (some y) =
    subst (Decides ((least ≤ n) × Reaches limit (some y))) (not_or (ltb n least) (less y limit))
      (Decides-and _ _ (Decides-not-ltb least n) (reaches-Decides limit (some y)))

-- The chain of tests of `_status`.
Grounds-tests :
    (rules : ConsistencyRules) (e : Evidence) (few likely slight : Bool)
    → Decides (Covered rules e) (not few)
    → Decides (Likely rules e) likely
    → Decides (Slight rules e) slight
    → Grounds rules e (
        if few
        then insufficient_data
        else (if likely
            then likely_exposure_changed
            else (if slight then slightly_diverging else consistent)))
Grounds-tests rules e true l s (inl (c, h)) d k = absurd (cc h)
Grounds-tests rules e true l s (inr (n, h)) d k = Grounds.insufficient n
Grounds-tests rules e false l s (inr (n, h)) d k = absurd (cc h)
Grounds-tests rules e false true s (inl (c, h)) (inl (x, g)) k = Grounds.changed c x
Grounds-tests rules e false true s (inl (c, h)) (inr (n, g)) k = absurd (cc g)
Grounds-tests rules e false false s (inl (c, h)) (inl (x, g)) k = absurd (cc g)
Grounds-tests rules e false false true (inl (c, h)) (inr (n, g)) (inl (y, i)) =
    Grounds.diverging c n y
Grounds-tests rules e false false true (inl (c, h)) (inr (n, g)) (inr (m, i)) = absurd (cc i)
Grounds-tests rules e false false false (inl (c, h)) (inr (n, g)) (inl (y, i)) = absurd (cc i)
Grounds-tests rules e false false false (inl (c, h)) (inr (n, g)) (inr (m, i)) =
    Grounds.steady c n m

module _ (rules : ConsistencyRules) (e : Evidence) where
  is_insufficient-Decides : Decides (Covered rules e) (not (is_insufficient rules e))
  unfolding is_insufficient
  is_insufficient-Decides =
      Covered-Decides e.observation_count rules.minimum_observations
        rules.minimum_recent_coverage_pct e.recent_coverage

  is_likely_streak-Decides : Decides (LongStreak rules e) (is_likely_streak rules e)
  unfolding is_likely_streak
  is_likely_streak-Decides = Decides-and _ _ (Decides-leb rules.likely_residual_streak e.streak) (
      Decides-or _ _ (reaches-Decides rules.likely_mae_5_pct e.mae_5)
        (size_reaches-Decides rules.likely_abs_bias_5_pct e.bias_5))

  is_likely_cumulative-Decides : Decides (Drifted rules e) (is_likely_cumulative rules e)
  unfolding is_likely_cumulative
  is_likely_cumulative-Decides =
      Decides-and _ _ (size_reaches-Decides rules.likely_cumulative_residual_pct e.cumulative)
        (falls_below-Decides rules.slightly_correlation e.correlation)

  is_slight-Decides : Decides (Slight rules e) (is_slight rules e)
  unfolding is_slight
  is_slight-Decides =
      Decides-or _ _
        (Decides-or _ _ (reaches-Decides rules.slightly_mae_5_pct e.mae_5)
          (size_reaches-Decides rules.slightly_abs_bias_5_pct e.bias_5))
        (falls_below-Decides rules.slightly_correlation e.correlation)

  -- The status that `_status` gives has its grounds in the evidence: insufficient data means that
  -- there are too few observations or that the recent coverage is unknown or too low; with every
  -- other status there are enough of both. A likely change of the exposure means that the
  -- observations also are enough for that rule, with a long streak and a large mean error, in size or
  -- with its sign, or with a large cumulative residual at a low correlation; a slight divergence that
  -- none of this holds but a slight error, bias or low correlation is seen; consistency that neither
  -- is.
  pub status_of_lem : Grounds rules e (status_of rules e)
  unfolding status_of
  status_of_lem =
      Grounds-tests rules e _ _ _ is_insufficient-Decides
        (Decides-and _ _ (Decides-leb rules.likely_minimum_observations e.observation_count)
          (Decides-or _ _ is_likely_streak-Decides is_likely_cumulative-Decides))
        is_slight-Decides
