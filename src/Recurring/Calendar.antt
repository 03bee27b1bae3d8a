-- ===== src/Recurring/Calendar.antt =====
-- `_add_weekdays` of portfolio_recurring.py. A date is its proleptic Gregorian ordinal, as in
-- Python's `date.toordinal`, so that a day is added by adding one.
use qdii_observatory.Common.{
  ℕ, zero, suc, ◌+◌, ◌-◌, ◌*◌, ◌%◌, ◌≤◌, ◌<◌, ◌≡◌, refl, Bool, true, false, inl, inr, Bool-cases,
  arith, ltb, if◌then◌else◌,
}

-- `date.weekday`: Monday is 0.
unfoldable pub weekday : ℕ → ℕ
weekday date = (date + 6) % 7

unfoldable pub is_weekday : ℕ → Bool
unfolding weekday
is_weekday date = ltb (weekday date) 5

-- The `while` loop, with fuel. Its state is `result` and `remaining`.
unfoldable pub add_loop : ℕ → ℕ → ℕ → ℕ
unfolding is_weekday
add_loop zero result remaining = result
add_loop (suc fuel) result zero = result
add_loop (suc fuel) result (suc remaining) =
    add_loop fuel (result + 1) (if is_weekday (result + 1) then remaining else suc remaining)

-- No three days in a row lie on a weekend, so three rounds for each weekday suffice.
unfoldable pub add_weekdays : ℕ → ℕ → ℕ
unfolding add_loop
add_weekdays value days = add_loop (3 * days) value days

-- The number of weekdays among the `n` days after `date`.
abbrev pub weekdays_after : ℕ → ℕ → ℕ
weekdays_after date zero = 0
weekdays_after date (suc n) = (if is_weekday (date + 1) then 1 else 0) + weekdays_after (date + 1) n

-- The rounds that a weekend may still cost.
slack : ℕ → ℕ
unfolding weekday
slack date = weekday date - 4

-- What the loop returns: `n` days later, with the remaining weekdays in between, and, if there
-- were any, on a weekday.
abbrev Lands : ℕ → ℕ → ℕ → Type 0
Lands result remaining final =
    (n : ℕ) × (final ≡ result + n)
    × (weekdays_after result n ≡ remaining)
    × (0 < remaining → is_weekday final ≡ true)

add_loop_zero : (fuel date : ℕ) → add_loop fuel date 0 ≡ date
unfolding add_loop
add_loop_zero zero date = refl
add_loop_zero (suc fuel) date = refl

module _ (fuel result remaining : ℕ) where
  counted_slack :
      is_weekday (result + 1) ≡ true
      → 3 * suc remaining ≤ suc fuel + slack result
      → 3 * remaining ≤ fuel + slack (result + 1)
  unfolding is_weekday slack
  counted_slack e h = ground arith

  skipped_slack :
      is_weekday (result + 1) ≡ false
      → 3 * suc remaining ≤ suc fuel + slack result
      → 3 * suc remaining ≤ fuel + slack (result + 1)
  unfolding is_weekday slack
  skipped_slack e h = ground arith

  counted :
      is_weekday (result + 1) ≡ true
      → Lands (result + 1) remaining (add_loop fuel (result + 1) remaining)
      → Lands result (suc remaining) (
          add_loop fuel (result + 1) (if is_weekday (result + 1) then remaining else suc remaining))
  counted e (n, at, count, last) = rw e (
    suc n,
    omega (arith, at),
    rw e (omega (arith, count)),
    λ pos.
        elim remaining
            as (λ r.
              (0 < r → is_weekday (add_loop fuel (result + 1) r) ≡ true)
              → is_weekday (add_loop fuel (result + 1) r) ≡ true) [
                | zero ↦ λ _. rw (add_loop_zero fuel (result + 1)) e
                | suc r ↦ λ k. k (omega arith)
              ]
          last,
  )

  skipped :
      is_weekday (result + 1) ≡ false
      → Lands (result + 1) (suc remaining) (add_loop fuel (result + 1) (suc remaining))
      → Lands result (suc remaining) (
          add_loop fuel (result + 1) (if is_weekday (result + 1) then remaining else suc remaining))
  skipped e (n, at, count, last) =
      rw e (suc n, omega (arith, at), rw e (omega (arith, count)), last)

add_loop-Lands :
    (fuel result remaining : ℕ)
    → 3 * remaining ≤ fuel + slack result
    → Lands result remaining (add_loop fuel result remaining)
unfolding add_loop slack
add_loop-Lands zero result remaining h = (0, omega arith, omega arith, λ pos. absurd (omega arith))
add_loop-Lands (suc fuel) result zero h = (0, omega arith, refl, λ pos. absurd (omega arith))
add_loop-Lands (suc fuel) result (suc remaining) h = elim (Bool-cases (is_weekday (result + 1))) [
  | inl e ↦
      counted fuel result remaining e
        (add_loop-Lands fuel (result + 1) remaining (counted_slack fuel result remaining e h))
  | inr e ↦
      skipped fuel result remaining e
        (add_loop-Lands fuel (result + 1) (suc remaining) (skipped_slack fuel result remaining e h))
]

-- `_add_weekdays` ends, on the date with exactly `days` weekdays after `value` up to it, which is
-- itself a weekday if `days` is not 0.
pub add_weekdays_lem :
    (value days : ℕ)
    → (n : ℕ) × (add_weekdays value days ≡ value + n)
      × (weekdays_after value n ≡ days)
      × (0 < days → is_weekday (add_weekdays value days) ≡ true)
unfolding add_weekdays
add_weekdays_lem value days = add_loop-Lands (3 * days) value days (omega arith)
