-- ===== src/Common/Decimal.antt =====
-- Python's `Decimal` under the default context: 28 significant digits, ROUND_HALF_EVEN.
-- A number is its sign, its coefficient and the digits after the point. A positive exponent is
-- written out as zeros, which changes no value. Infinities, NaN and exponents beyond the context's
-- limits do not occur in the columns that the program reads. `none` is InvalidOperation or
-- DivisionByZero.
use Prim.Native.Nat.{ℕ, zero, suc, ◌+◌, ◌-◌, ◌*◌, ◌/◌, ◌%◌, ◌^◌, max}
use mathlib.Core.Path.{◌≡◌, refl}
use native.Mathlib.Omega.{arith}
use mathlib.Core.Bool.{Bool, true, false, not, ◌&&◌, ◌||◌}
use mathlib.Core.Option.{Option, none, some}
use mathlib.Core.List.{List, [], ◌∷◌}
use qdii_observatory.Common.Tests.{ltb, leb, ◌==◌, if◌then◌else◌}

pub record Decimal : Type 0 where
  pub negative : Bool
  pub coefficient : ℕ
  pub scale : ℕ

-- `Decimal(str(n))` of a natural number, and n / 10 ^ s.
abbrev pub whole : ℕ → Decimal
whole n = record { negative = false; coefficient = n; scale = 0 }

abbrev pub scaled : ℕ → ℕ → Decimal
scaled n s = record { negative = false; coefficient = n; scale = s }

abbrev pub differ : Bool → Bool → Bool
differ true b = not b
differ false b = b

-- The number of decimal digits, at most `fuel`; `n` of fuel is enough for `n`.
unfoldable pub digits_from : ℕ → ℕ → ℕ
digits_from zero n = 0
digits_from (suc fuel) n = elim (n == 0) [ true ↦ 0 | false ↦ suc (digits_from fuel (n / 10)) ]

unfoldable pub digits : ℕ → ℕ
unfolding digits_from
digits n = digits_from n n

-- A quotient rounded half to even, and half up (half away from zero).
unfoldable pub half_even : ℕ → ℕ → ℕ
half_even n d =
    if ltb d (2 * (n % d)) || (d == 2 * (n % d) && (n / d) % 2 == 1) then n / d + 1 else n / d

unfoldable pub half_up : ℕ → ℕ → ℕ
half_up n d = if leb d (2 * (n % d)) then n / d + 1 else n / d

-- c / 10 ^ p * 10 ^ q
unfoldable pub place : Bool → ℕ → ℕ → ℕ → Decimal
place negative c p q =
    if leb q p
    then record { negative = negative; coefficient = c; scale = p - q }
    else record { negative = negative; coefficient = c * 10 ^ (q - p); scale = 0 }

-- Rounding to the 28 digits of the context.
unfoldable pub fix : Decimal → Decimal
unfolding digits half_even place
fix a =
    let k = digits a.coefficient in
    if leb k 28
    then a
    else place a.negative (half_even a.coefficient (10 ^ (k - 28))) a.scale (k - 28)

-- The coefficients at a common scale.
unfoldable pub common_scale : Decimal → Decimal → ℕ
common_scale a b = max a.scale b.scale

unfoldable pub coefficient_at : ℕ → Decimal → ℕ
coefficient_at s a = a.coefficient * 10 ^ (s - a.scale)

add_signed : Bool → ℕ → Bool → ℕ → ℕ → Decimal
add_signed sa ca sb cb s =
    if differ sa sb
    then (if leb cb ca
        then record { negative = sa; coefficient = ca - cb; scale = s }
        else record { negative = sb; coefficient = cb - ca; scale = s })
    else record { negative = sa; coefficient = ca + cb; scale = s }

unfoldable pub add : Decimal → Decimal → Decimal
unfolding fix common_scale coefficient_at add_signed
add a b =
    let s = common_scale a b in
    fix (add_signed a.negative (coefficient_at s a) b.negative (coefficient_at s b) s)

unfoldable pub negate : Decimal → Decimal
negate a = record a { negative = not a.negative }

unfoldable pub subtract : Decimal → Decimal → Decimal
unfolding add negate
subtract a b = add a (negate b)

unfoldable pub multiply : Decimal → Decimal → Decimal
unfolding fix
multiply a b = fix (record {
  negative = differ a.negative b.negative;
  coefficient = a.coefficient * b.coefficient;
  scale = a.scale + b.scale;
})

-- The digit that keeps an inexact quotient off the half: `if coeff % 5 == 0: coeff += 1`.
unfoldable pub sticky : ℕ → ℕ → ℕ
sticky n d = if n % d == 0 then n / d else (if (n / d) % 5 == 0 then n / d + 1 else n / d)

-- The quotient is computed with 29 digits at least, and rounded to 28. An exact quotient keeps its
-- zeros at the end, which changes no value.
unfoldable pub divide : Decimal → Decimal → Option Decimal
unfolding fix sticky place digits
divide a b =
    let up = digits b.coefficient + 29 - digits a.coefficient in
    let down = digits a.coefficient - (digits b.coefficient + 29) in
    if b.coefficient == 0
    then none
    else some (
        fix (
          place (differ a.negative b.negative)
            (sticky (a.coefficient * 10 ^ up) (b.coefficient * 10 ^ down)) (a.scale + up)
            (b.scale + down)))

-- `quantize` to `s` digits after the point, by a rounding of quotients.
unfoldable pub quantize : (ℕ → ℕ → ℕ) → ℕ → Decimal → Option Decimal
unfolding digits
quantize rounding s a =
    let c =
      (if leb a.scale s
        then a.coefficient * 10 ^ (s - a.scale)
        else rounding a.coefficient (10 ^ (a.scale - s))) in
    if leb (digits c) 28
    then some (record { negative = a.negative; coefficient = c; scale = s })
    else none

unfoldable pub absolute : Decimal → Decimal
unfolding fix
absolute a = fix (record a { negative = false })

-- Comparisons are exact. A zero has no sign.
less_at : ℕ → Decimal → Decimal → Bool
less_at s a b =
    let x = coefficient_at s a in
    let y = coefficient_at s b in
    if a.negative
    then (if b.negative then ltb y x else ltb 0 (x + y))
    else (if b.negative then false else ltb x y)

unfoldable pub less : Decimal → Decimal → Bool
unfolding less_at common_scale coefficient_at
less a b = less_at (common_scale a b) a b

abbrev pub at_most : Decimal → Decimal → Bool
at_most a b = not (less b a)

-- `min(a, b)` and `max(a, b)`: the first unless the second is less (greater).
unfoldable pub minimum : Decimal → Decimal → Decimal
minimum a b = if less b a then b else a

unfoldable pub maximum : Decimal → Decimal → Decimal
maximum a b = if less a b then b else a

unfoldable pub is_zero : Decimal → Bool
is_zero a = a.coefficient == 0

-- `sum(values, Decimal("0"))`
unfoldable pub sum_from : Decimal → List Decimal → Decimal
sum_from acc [] = acc
sum_from acc (x ∷ xs) = sum_from (add acc x) xs

pub less_irrefl : (a : Decimal) → less a a ≡ false
unfolding less
less_irrefl a = ground arith

common_scale_comm : (a b : Decimal) → common_scale a b ≡ common_scale b a
unfolding common_scale
common_scale_comm a b = omega arith

less_at_asymm : (s : ℕ) (a b : Decimal) → less_at s a b ≡ true → less_at s b a ≡ false
unfolding less_at
less_at_asymm s a b h = ground arith

pub less_asymm : (a b : Decimal) → less a b ≡ true → less b a ≡ false
less_asymm a b h =
    unfold less in
    (rw (common_scale_comm b a) (less_at_asymm (common_scale a b) a b (unfold less in h)))

-- A bound by `min`, and by `max`.
pub minimum-at_most : (a b : Decimal) → at_most (minimum a b) a ≡ true
unfolding minimum
minimum-at_most a b = ground (arith, less_irrefl a, less_asymm b a)

pub at_most-maximum : (a b : Decimal) → at_most a (maximum a b) ≡ true
unfolding maximum
at_most-maximum a b = ground (arith, less_irrefl a, less_asymm a b)

third : divide (whole 2) (whole 3) ≡ some (scaled 6666666666666666666666666667 28)
unfolding divide
third = refl

units :
    (b : Decimal)
    → b ≡ scaled 12345 4
    → divide (whole 100) (scaled 12345 4) ≡ some (scaled 8100445524503847711624139328 26)
unfolding divide
units b e = refl
