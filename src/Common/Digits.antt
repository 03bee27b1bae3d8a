-- ===== src/Common/Digits.antt =====
-- Rounding to the 28 digits of the context makes no number zero (Common.Decimal, fix).
use Prim.Native.Nat.{◌-◌}
use native.Mathlib.Nat.{div-lt_iff_lt-mul, mul-pos}
use qdii_observatory.Common.{
  ℕ, zero, suc, ◌*◌, ◌/◌, ◌^◌, ◌≤◌, ◌<◌, ◌≡◌, refl, inl, inr, Bool, true, false, arith, leb, ◌==◌,
  if◌then◌else◌, Bool-cases, Option, some, none,
}
use qdii_observatory.Common.Decimal.{
  Decimal, digits_from, digits, half_even, place, fix, multiply, divide,
}

pow_pos : (n : ℕ) → 0 < 10 ^ n
pow_pos zero = omega arith
pow_pos (suc n) = omega (arith, pow_pos n)

pow_le : (m n : ℕ) → m ≤ n → 10 ^ m ≤ 10 ^ n
pow_le zero n h = omega (arith, pow_pos n)
pow_le (suc m) zero h = absurd (omega (arith, h))
pow_le (suc m) (suc n) h = omega (arith, pow_le m n (omega (arith, h)))

no_digits : (fuel : ℕ) → digits_from fuel 0 ≡ 0
unfolding digits_from
no_digits zero = refl
no_digits (suc fuel) = refl

-- 10 to the number of digits, less one, is at most the number.
digits_from-pow : (fuel n : ℕ) → 0 < n → n ≤ fuel → 10 ^ digits_from fuel n ≤ 10 * n
unfolding digits_from
digits_from-pow zero n h le = absurd (omega (arith, h, le))
digits_from-pow (suc fuel) n h le = elim (Bool-cases (n == 0)) [
  | inl e ↦ absurd (ground (arith, e, h))
  | inr e ↦
      rw (e, digits_from)
        (elim (Bool-cases (n / 10 == 0)) [
          | inl z ↦
              let small : n / 10 ≡ 0 = ground (arith, z) in
              rw small (rw (no_digits fuel) (omega (arith, h)))
          | inr z ↦
              let more = digits_from-pow fuel (n / 10) (ground (arith, z)) (omega (arith, h, le)) in
              omega (arith, more)
        ])
]

div_pos : (n d : ℕ) → 0 < d → d ≤ n → 0 < n / d
div_pos n d h le = elim (Bool-cases (n / d == 0)) [
  | inl e ↦
      let zero_quotient : n / d < 1 = ground (arith, e) in
      absurd (omega (arith, le, (div-lt_iff_lt-mul h).0 zero_quotient))
  | inr e ↦ ground (arith, e)
]

half_even_pos : (n d : ℕ) → 0 < n / d → 0 < half_even n d
unfolding half_even
half_even_pos n d h = ground (arith, h)

place_pos : (negative : Bool) (c p q : ℕ) → 0 < c → 0 < (place negative c p q).coefficient
unfolding place
place_pos negative c p q h = elim (Bool-cases (leb q p)) [
  | inl e ↦ rw (e, place) h
  | inr e ↦ rw (e, place) (mul-pos h (pow_pos (q - p)))
]

rounded_pos : (c : ℕ) → 0 < c → leb (digits c) 28 ≡ false → 0 < half_even c (10 ^ (digits c - 28))
unfolding digits
rounded_pos c h many =
    let powers = digits_from-pow c c h (omega arith) in
    let fewer = pow_le (suc (digits c - 28)) (digits c) (ground (arith, many)) in
    half_even_pos c (10 ^ (digits c - 28))
      (div_pos c (10 ^ (digits c - 28)) (pow_pos (digits c - 28)) (omega (arith, powers, fewer)))

fix_pos : (a : Decimal) → 0 < a.coefficient → 0 < (fix a).coefficient
unfolding fix
fix_pos a h = elim (Bool-cases (leb (digits a.coefficient) 28)) [
  | inl e ↦ rw (e, fix) h
  | inr e ↦
      rw (e, fix)
        (place_pos a.negative _ a.scale (digits a.coefficient - 28) (rounded_pos a.coefficient h e))
]

pub multiply_pos :
    (a b : Decimal) → 0 < a.coefficient → 0 < b.coefficient → 0 < (multiply a b).coefficient
unfolding multiply
multiply_pos a b h k = fix_pos _ (mul-pos h k)

guard_some {ℓ} :
    {A : Type ℓ} (test : Bool) (value : A)
    → test ≡ false
    → (q : A) × (if◌then◌else◌ {A = Option A} test none (some value) ≡ some q)
guard_some true value h = absurd (cc h)
guard_some false value h = (value, refl)

pub divide_returns : (a b : Decimal) → 0 < b.coefficient → (q : Decimal) × (divide a b ≡ some q)
unfolding divide
divide_returns a b h = guard_some (b.coefficient == 0) _ (ground (arith, h))
