-- ===== src/Common/Rows/Counts.antt =====
-- Laws of counts, and of rows by their keys.
use mathlib.Core.List.{Memᴰ}
use qdii_observatory.Common.{
  ℕ, ◌≤◌, ◌≡◌, refl, inl, inr, Bool, true, false, List, [], ◌∷◌, arith, ltb, not, ◌==◌, memb,
  distinct, Bool-cases, filterb, first, countb, anyb, All, ◌<◌, update_first, is_some, ◌&&◌,
}

module _ {ℓ} {A : Type ℓ} where
  pub countb-filterb :
      (p q : A → Bool) (xs : List A) → countb p (filterb q xs) ≡ countb (λ x. q x && p x) xs
  countb-filterb p q [] = refl
  countb-filterb p q (x ∷ xs) = ground (arith, countb-filterb p q xs)

  pub countb-le :
      (p q : A → Bool) (xs : List A)
      → ((x : A) → p x ≡ true → q x ≡ true)
      → countb p xs ≤ countb q xs
  countb-le p q [] h = omega arith
  countb-le p q (x ∷ xs) h = ground (arith, h x, countb-le p q xs h)

  pub All-filterb_of {κ} :
      (P : A → Type κ) (p : A → Bool) (xs : List A)
      → ((x : A) → p x ≡ true → P x)
      → All P (filterb p xs)
  All-filterb_of P p [] h = tt
  All-filterb_of P p (x ∷ xs) h = elim (Bool-cases (p x)) [
    | inl e ↦ rw e (h x e, All-filterb_of P p xs h)
    | inr e ↦ rw e (All-filterb_of P p xs h)
  ]

  pub All-listed {κ} : {P : A → Type κ} (xs : List A) → ((x : A) → Memᴰ x xs → P x) → All P xs
  All-listed [] h = tt
  All-listed (x ∷ xs) h = (h x (Memᴰ.head refl), All-listed xs (λ y m. h y (Memᴰ.tail m)))

  pub All-zip {κ μ ν} :
      {P : A → Type κ} {Q : A → Type μ} {R : A → Type ν} (xs : List A)
      → ((x : A) → P x → Q x → R x)
      → All P xs
      → All Q xs
      → All R xs
  All-zip [] f h k = tt
  All-zip (x ∷ xs) f (hx, hs) (kx, ks) = (f x hx kx, All-zip xs f hs ks)

  pub All-countb-false : (p : A → Bool) (xs : List A) → countb p xs ≡ 0 → All (λ x. p x ≡ false) xs
  All-countb-false p [] h = tt
  All-countb-false p (x ∷ xs) h = (ground (arith, h), All-countb-false p xs (omega arith))

  -- An update of the only row that passes the test.
  pub All-update_only {κ} :
      (Q : A → Type κ) (p : A → Bool) (f : A → A) (xs : List A)
      → countb p xs ≤ 1
      → All (λ x. p x ≡ true → Q (f x)) xs
      → All (λ x. p x ≡ false → Q x) xs
      → All Q (update_first p f xs)
  All-update_only Q p f [] one h k = tt
  All-update_only Q p f (x ∷ xs) one (hx, hs) (kx, ks) = elim (Bool-cases (p x)) [
    | inl e ↦ rw e (
      hx e,
      All-zip {P = λ y. p y ≡ false} {Q = λ y. p y ≡ false → Q y} {R = Q} xs (λ y n q. q n)
          (All-countb-false p xs (rest_zero e)) ks,
    )
    | inr e ↦ rw e (kx e, All-update_only Q p f xs (omega arith) hs ks)
  ]
    where
      rest_zero : p x ≡ true → countb p xs ≡ 0
      rest_zero e = ground arith

  pub mem-update_first_ne :
      (p : A → Bool) (f : A → A) {x : A} (xs : List A)
      → Memᴰ x xs
      → p x ≡ false
      → Memᴰ x (update_first p f xs)
  mem-update_first_ne p f [] m h = elim m [ ]
  mem-update_first_ne p f (y ∷ ys) (Memᴰ.head e) h =
      let other : p y ≡ false = rw (← e) h in rw other (Memᴰ.head e)
  mem-update_first_ne p f (y ∷ ys) (Memᴰ.tail m) h = elim (Bool-cases (p y)) [
    | inl e ↦ rw e (Memᴰ.tail m)
    | inr e ↦ rw e (Memᴰ.tail (mem-update_first_ne p f ys m h))
  ]

  pub anyb-of_countb : (p : A → Bool) (xs : List A) → 0 < countb p xs → anyb p xs ≡ true
  anyb-of_countb p [] h = absurd (omega arith)
  anyb-of_countb p (x ∷ xs) h = ground (arith, anyb-of_countb p xs)

  -- A selection does not see updates and deletions of other rows.
  pub filterb-update_first_out :
      (q p : A → Bool) (f : A → A) (xs : List A)
      → ((x : A) → p x ≡ true → q x ≡ false)
      → ((x : A) → p x ≡ true → q (f x) ≡ false)
      → filterb q (update_first p f xs) ≡ filterb q xs
  filterb-update_first_out q p f [] h k = refl
  filterb-update_first_out q p f (x ∷ xs) h k =
      ground (arith, h x, k x, filterb-update_first_out q p f xs h k)

  pub filterb-filterb_out :
      (q p : A → Bool) (xs : List A)
      → ((x : A) → p x ≡ true → q x ≡ false)
      → filterb q (filterb (λ x. not (p x)) xs) ≡ filterb q xs
  filterb-filterb_out q p [] h = refl
  filterb-filterb_out q p (x ∷ xs) h = ground (arith, h x, filterb-filterb_out q p xs h)

countb-filterb-le {ℓ} :
    {A : Type ℓ} (p q : A → Bool) (xs : List A) → countb p (filterb q xs) ≤ countb p xs
countb-filterb-le p q [] = omega arith
countb-filterb-le p q (x ∷ xs) = ground (arith, countb-filterb-le p q xs)

countb-filterb_zero {ℓ} :
    {A : Type ℓ} (p q : A → Bool) (xs : List A)
    → ((x : A) → p x ≡ true → q x ≡ false)
    → countb p (filterb q xs) ≡ 0
countb-filterb_zero p q [] h = refl
countb-filterb_zero p q (x ∷ xs) h = ground (arith, h x, countb-filterb_zero p q xs h)

-- A key stands once among the distinct keys, and only the keys of the list stand there.
pub countb-distinct : (n : ℕ) (ns : List ℕ) → countb (λ m. m == n) (distinct ns) ≤ 1
unfolding distinct
countb-distinct n [] = omega arith
countb-distinct n (k ∷ ns) = ground (
  arith,
  countb-distinct n ns,
  countb-filterb-le (λ m. m == n) (λ m. not (m == k)) (distinct ns),
  countb-filterb_zero (λ m. m == n) (λ m. not (m == k)) (distinct ns),
)

anyb-filterb_ne :
    (n k : ℕ) (ns : List ℕ) → (n == k) ≡ false → memb n (filterb (λ m. not (m == k)) ns) ≡ memb n ns
anyb-filterb_ne n k [] h = refl
anyb-filterb_ne n k (m ∷ ns) h = ground (arith, h, anyb-filterb_ne n k ns h)

pub memb-distinct : (n : ℕ) (ns : List ℕ) → memb n (distinct ns) ≡ memb n ns
unfolding distinct
memb-distinct n [] = refl
memb-distinct n (k ∷ ns) = ground (arith, memb-distinct n ns, anyb-filterb_ne n k (distinct ns))

module _ {ℓ} {A : Type ℓ} where
  pub countb-update_first_same :
      (q p : A → Bool) (f : A → A) (xs : List A)
      → ((x : A) → q (f x) ≡ q x)
      → countb q (update_first p f xs) ≡ countb q xs
  countb-update_first_same q p f [] same = refl
  countb-update_first_same q p f (x ∷ xs) same =
      ground (arith, same x, countb-update_first_same q p f xs same)

  -- A deletion that hits the counted rows, and one that hits none of them.
  pub countb-filterb_none :
      (q p : A → Bool) (xs : List A)
      → ((x : A) → q x ≡ true → p x ≡ true)
      → countb q (filterb (λ x. not (p x)) xs) ≡ 0
  countb-filterb_none q p [] h = refl
  countb-filterb_none q p (x ∷ xs) h = ground (arith, h x, countb-filterb_none q p xs h)

  pub countb-filterb_all :
      (q p : A → Bool) (xs : List A)
      → ((x : A) → q x ≡ true → p x ≡ false)
      → countb q (filterb (λ x. not (p x)) xs) ≡ countb q xs
  countb-filterb_all q p [] h = refl
  countb-filterb_all q p (x ∷ xs) h = ground (arith, h x, countb-filterb_all q p xs h)

  pub is_some-first : (p : A → Bool) (xs : List A) → is_some (first p xs) ≡ ltb 0 (countb p xs)
  is_some-first p [] = refl
  is_some-first p (x ∷ xs) = ground (arith, is_some-first p xs)

  pub anyb-ltb : (p : A → Bool) (xs : List A) → anyb p xs ≡ ltb 0 (countb p xs)
  anyb-ltb p [] = refl
  anyb-ltb p (x ∷ xs) = ground (arith, anyb-ltb p xs)

  pub countb_congr :
      (p q : A → Bool) (xs : List A) → ((x : A) → p x ≡ q x) → countb p xs ≡ countb q xs
  countb_congr p q [] h = refl
  countb_congr p q (x ∷ xs) h = ground (arith, h x, countb_congr p q xs h)
