-- ===== src/Consistency/Streaks.antt =====
-- What a streak of q2_analysis/consistency.py says of the residuals.
use mathlib.Core.Path.{subst}
use qdii_observatory.Common.{
  ℕ, suc, ◌≡◌, refl, sym, ap, ◌∙◌, Bool, true, false, ◌||◌, ◌⊎◌, inl, inr, Option, none, some, List,
  [], ◌∷◌, ◌++◌, Bool-cases, length, All,
}
use qdii_observatory.Common.Decimal.{Decimal, is_zero}
use qdii_observatory.Consistency.Rules.{
  is_positive, continues, streak_from, newest_first, streak_of_latest, residual_streak,
}

or_true : (b : Bool) → (b || true) ≡ true
or_true true = refl
or_true false = refl

-- A list split where the streak ends: `before` goes on with it, and what follows, if anything, does
-- not.
pub record Splits (positive : Bool) (values : List (Option Decimal)) (count : ℕ) : Type 0 where
  pub before : List (Option Decimal)
  pub after : List (Option Decimal)
  pub whole_list : values ≡ before ++ after
  pub counted : length before ≡ count
  pub same_sign : All (λ v. continues positive v ≡ true) before
  pub stopped :
      (after ≡ [])
      ⊎ ((v : Option Decimal) × (rest : List (Option Decimal)) × (after ≡ v ∷ rest)
          × (continues positive v ≡ false))

streak_from-go :
    (positive : Bool) (v : Option Decimal) (rest : List (Option Decimal))
    → continues positive v ≡ true
    → streak_from positive (v ∷ rest) ≡ suc (streak_from positive rest)
unfolding streak_from
streak_from-go positive v rest h = rw h refl

streak_from-stop :
    (positive : Bool) (v : Option Decimal) (rest : List (Option Decimal))
    → continues positive v ≡ false
    → streak_from positive (v ∷ rest) ≡ 0
unfolding streak_from
streak_from-stop positive v rest h = rw h refl

streak_from-Splits :
    (positive : Bool) (values : List (Option Decimal))
    → Splits positive values (streak_from positive values)
streak_from-Splits positive [] = record {
  before = [];
  after = [];
  whole_list = refl;
  counted = unfold streak_from in refl;
  same_sign = tt;
  stopped = inl refl;
}
streak_from-Splits positive (v ∷ rest) =
    let ih = streak_from-Splits positive rest in
    elim (Bool-cases (continues positive v)) [
      | inl h ↦ rw (streak_from-go positive v rest h) (record {
        before = v ∷ ih.before;
        after = ih.after;
        whole_list = ap (λ xs. v ∷ xs) ih.whole_list;
        counted = ap suc ih.counted;
        same_sign = (h, ih.same_sign);
        stopped = ih.stopped;
      })
      | inr h ↦ rw (streak_from-stop positive v rest h) (record {
        before = [];
        after = v ∷ rest;
        whole_list = refl;
        counted = refl;
        same_sign = tt;
        stopped = inr (v, rest, refl, h);
      })
    ]

newest_first-append :
    (earlier : List (Option Decimal)) (v : Option Decimal)
    → newest_first (earlier ++ v ∷ []) ≡ v ∷ newest_first earlier
newest_first-append [] v = refl
newest_first-append (x ∷ xs) v = ap (λ ys. ys ++ x ∷ []) (newest_first-append xs v)

streak_of_latest-eq :
    (last : Decimal) (rest : List (Option Decimal))
    → is_zero last ≡ false
    → streak_of_latest (some last ∷ rest) ≡ streak_from (is_positive last) (some last ∷ rest)
unfolding streak_of_latest
streak_of_latest-eq last rest h = rw h refl

residual_streak-eq :
    (last : Decimal) (earlier : List (Option Decimal))
    → is_zero last ≡ false
    → residual_streak (earlier ++ some last ∷ [])
      ≡ streak_from (is_positive last) (some last ∷ newest_first earlier)
residual_streak-eq last earlier h =
    ap (λ xs. streak_of_latest xs) (newest_first-append earlier (some last))
    ∙ streak_of_latest-eq last (newest_first earlier) h

-- Where the latest residual is not zero, `_residual_streak` counts exactly the residuals, from the
-- latest back, that are present, not zero and of its sign, up to the first that is not.
pub residual_streak-Splits :
    (last : Decimal) (earlier : List (Option Decimal))
    → is_zero last ≡ false
    → Splits
        (is_positive last)
        (some last ∷ newest_first earlier)
        (residual_streak (earlier ++ some last ∷ []))
residual_streak-Splits last earlier h =
    rw (residual_streak-eq last earlier h)
      (streak_from-Splits (is_positive last) (some last ∷ newest_first earlier))

-- The streak of residuals in the order of time: none where there is no residual, or the latest is
-- missing or zero, and otherwise the longest run of its sign from the latest back.
pub record IsStreak (residuals : List (Option Decimal)) (count : ℕ) : Type 0 where
  pub none_at_all : residuals ≡ [] → count ≡ 0
  pub missing : (earlier : List (Option Decimal)) → residuals ≡ earlier ++ none ∷ [] → count ≡ 0
  pub zero_latest :
      (earlier : List (Option Decimal)) (last : Decimal)
      → residuals ≡ earlier ++ some last ∷ []
      → is_zero last ≡ true
      → count ≡ 0
  pub run :
      (earlier : List (Option Decimal)) (last : Decimal)
      → residuals ≡ earlier ++ some last ∷ []
      → is_zero last ≡ false
      → Splits (is_positive last) (some last ∷ newest_first earlier) count

streak_of_latest-none : (rest : List (Option Decimal)) → streak_of_latest (none ∷ rest) ≡ 0
unfolding streak_of_latest
streak_of_latest-none rest = refl

streak_of_latest-zero :
    (last : Decimal) (rest : List (Option Decimal))
    → is_zero last ≡ true
    → streak_of_latest (some last ∷ rest) ≡ 0
unfolding streak_of_latest
streak_of_latest-zero last rest h = rw h refl

pub residual_streak-IsStreak :
    (residuals : List (Option Decimal)) → IsStreak residuals (residual_streak residuals)
residual_streak-IsStreak residuals = record {
  none_at_all = λ e. ap (λ xs. residual_streak xs) e ∙ (unfold streak_of_latest in refl);
  missing = λ earlier e.
      ap (λ xs. residual_streak xs) e
      ∙ ap (λ xs. streak_of_latest xs) (newest_first-append earlier none)
      ∙ streak_of_latest-none (newest_first earlier);
  zero_latest = λ earlier last e h.
      ap (λ xs. residual_streak xs) e
      ∙ ap (λ xs. streak_of_latest xs) (newest_first-append earlier (some last))
      ∙ streak_of_latest-zero last (newest_first earlier) h;
  run = λ earlier last e h.
      subst
        (λ xs. Splits (is_positive last) (some last ∷ newest_first earlier) (residual_streak xs))
        (sym e) (residual_streak-Splits last earlier h);
}
