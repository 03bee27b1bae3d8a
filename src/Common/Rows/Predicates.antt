-- ===== src/Common/Rows/Predicates.antt =====
-- Laws of predicates over all rows, and of updates.
use mathlib.Core.List.{Memᴰ}
use mathlib.Core.Option
use qdii_observatory.Common.{
  ℕ, ◌≤◌, ◌≡◌, refl, sym, inl, inr, Bool, true, false, some, List, [], ◌∷◌, arith, ltb,
  if◌then◌else◌, Bool-cases, Option-cases, filterb, first, update_where, countb, All, min_by,
  update_first,
}

module _ {ℓ} {A : Type ℓ} where
  pub All-update_first {κ} :
      (P : A → Type κ) (p : A → Bool) (f : A → A) (xs : List A)
      → All (λ x. p x ≡ true → P x → P (f x)) xs
      → All P xs
      → All P (update_first p f xs)
  All-update_first P p f [] keep h = tt
  All-update_first P p f (x ∷ xs) (keep, keeps) (hx, hs) = elim (Bool-cases (p x)) [
    | inl e ↦ rw e (keep e hx, hs)
    | inr e ↦ rw e (hx, All-update_first P p f xs keeps hs)
  ]

  pub All-everywhere {κ} : {P : A → Type κ} (xs : List A) → ((x : A) → P x) → All P xs
  All-everywhere [] h = tt
  All-everywhere (x ∷ xs) h = (h x, All-everywhere xs h)

  pub All-mono {κ} : {P Q : A → Type κ} (xs : List A) → ((x : A) → P x → Q x) → All P xs → All Q xs
  All-mono [] f h = tt
  All-mono (x ∷ xs) f (hx, hs) = (f x hx, All-mono xs f hs)

  pub All-mem {κ} : (P : A → Type κ) {x : A} (xs : List A) → All P xs → Memᴰ x xs → P x
  All-mem P [] h m = elim m [ ]
  All-mem P (x ∷ xs) (hx, hs) (Memᴰ.head e) = rw e hx
  All-mem P (x ∷ xs) (hx, hs) (Memᴰ.tail m) = All-mem P xs hs m

  pub countb-update_first-le :
      (q p : A → Bool) (f : A → A) (xs : List A)
      → ((x : A) → q (f x) ≡ true → q x ≡ true)
      → countb q (update_first p f xs) ≤ countb q xs
  countb-update_first-le q p f [] keep = omega arith
  countb-update_first-le q p f (x ∷ xs) keep =
      ground (arith, keep x, countb-update_first-le q p f xs keep)

  pub countb-update_where-le :
      (q p : A → Bool) (f : A → A) (xs : List A)
      → ((x : A) → q (f x) ≡ true → q x ≡ true)
      → countb q (update_where p f xs) ≤ countb q xs
  countb-update_where-le q p f [] keep = omega arith
  countb-update_where-le q p f (x ∷ xs) keep =
      ground (arith, keep x, countb-update_where-le q p f xs keep)

  pub first-update_first :
      (p : A → Bool) (f : A → A) (xs : List A)
      → ((x : A) → p (f x) ≡ p x)
      → first p (update_first p f xs) ≡ Option.map f (first p xs)
  first-update_first p f [] keep = refl
  first-update_first p f (x ∷ xs) keep = ground (arith, keep x, first-update_first p f xs keep)

  pub update_first-update_first :
      (p : A → Bool) (f g : A → A) (xs : List A)
      → ((x : A) → p (f x) ≡ p x)
      → update_first p g (update_first p f xs) ≡ update_first p (λ x. g (f x)) xs
  update_first-update_first p f g [] keep = refl
  update_first-update_first p f g (x ∷ xs) keep =
      ground (arith, keep x, update_first-update_first p f g xs keep)

  pub first-eq-some :
      (p : A → Bool) (xs : List A) (x : A) → first p xs ≡ some x → Memᴰ x xs × (p x ≡ true)
  first-eq-some p [] x e = ground arith
  first-eq-some p (y ∷ ys) x e = elim (Bool-cases (p y)) [
    | inl h ↦ let same : y ≡ x = ground arith in (Memᴰ.head (sym same), rw (← same) h)
    | inr h ↦ let (m, hx) = first-eq-some p ys x (rw h at e) in (Memᴰ.tail m, hx)
  ]

  mem-filterb_cons :
      (p : A → Bool) {x : A} (y : A) (ys : List A) (b : Bool)
      → p y ≡ b
      → Memᴰ x (if b then y ∷ filterb p ys else filterb p ys)
      → (Memᴰ x (filterb p ys) → Memᴰ x ys × (p x ≡ true))
      → Memᴰ x (y ∷ ys) × (p x ≡ true)
  mem-filterb_cons p y ys true e (Memᴰ.head h) ih = (Memᴰ.head h, rw h e)
  mem-filterb_cons p y ys true e (Memᴰ.tail m) ih = let (k, hx) = ih m in (Memᴰ.tail k, hx)
  mem-filterb_cons p y ys false e m ih = let (k, hx) = ih m in (Memᴰ.tail k, hx)

  pub mem-filterb :
      (p : A → Bool) {x : A} (xs : List A) → Memᴰ x (filterb p xs) → Memᴰ x xs × (p x ≡ true)
  mem-filterb p [] m = elim m [ ]
  mem-filterb p (y ∷ ys) m = mem-filterb_cons p y ys (p y) refl m (λ k. mem-filterb p ys k)

  pub min_by-mem : (key : A → ℕ) (xs : List A) (x : A) → min_by key xs ≡ some x → Memᴰ x xs
  unfolding min_by
  min_by-mem key [] x e = ground arith
  min_by-mem key (y ∷ ys) x e = elim (Option-cases (min_by key ys)) [
    | inl h ↦ Memᴰ.head (ground arith)
    | inr (z, h) ↦ elim (Bool-cases (ltb (key z) (key y))) [
      | inl less ↦ Memᴰ.tail (min_by-mem key ys x (ground arith))
      | inr more ↦ Memᴰ.head (ground arith)
    ]
  ]

  pub countb_pos : (p : A → Bool) {x : A} (xs : List A) → Memᴰ x xs → p x ≡ true → 1 ≤ countb p xs
  countb_pos p [] m h = elim m [ ]
  countb_pos p (y ∷ ys) (Memᴰ.head e) h =
      let same : p y ≡ true = rw (← e) h in rw same (omega arith)
  countb_pos p (y ∷ ys) (Memᴰ.tail m) h = omega (arith, countb_pos p ys m h)

  pub All-countb_zero {κ} :
      (Q : A → Type κ) (p : A → Bool) (xs : List A)
      → countb p xs ≡ 0
      → All (λ x. p x ≡ true → Q x) xs
  All-countb_zero Q p [] h = tt
  All-countb_zero Q p (x ∷ xs) h =
      (λ e. absurd (ground (arith, e)), All-countb_zero Q p xs (omega arith))

  -- Where at most one row passes the test, every row that passes it is the listed one.
  pub All-unique :
      (p : A → Bool) {x : A} (xs : List A)
      → countb p xs ≤ 1
      → Memᴰ x xs
      → p x ≡ true
      → All (λ y. p y ≡ true → y ≡ x) xs
  All-unique p [] one m h = tt
  All-unique p {x} (y ∷ ys) one (Memᴰ.head e) h =
      let same : p y ≡ true = rw (← e) h in
      (λ _. sym e, All-countb_zero (λ z. z ≡ x) p ys (one_rest same))
    where
      one_rest : p y ≡ true → countb p ys ≡ 0
      one_rest q = ground arith
  All-unique p (y ∷ ys) one (Memᴰ.tail m) h =
      (λ q. absurd (ground (arith, countb_pos p ys m h)), All-unique p ys (omega arith) m h)

  -- Only the selected row matters for what an update does.
  pub update_first_congr :
      (p : A → Bool) (f g : A → A) (xs : List A) {x : A}
      → first p xs ≡ some x
      → f x ≡ g x
      → update_first p f xs ≡ update_first p g xs
  update_first_congr p f g [] e h = refl
  update_first_congr p f g (y ∷ ys) {x} e h = elim (Bool-cases (p y)) [
    | inl q ↦ let same : y ≡ x = ground arith in rw (q, same) (rw h)
    | inr q ↦ rw q (rw (update_first_congr p f g ys (rw q at e) h))
  ]

  pub update_first_id :
      (p : A → Bool) (f : A → A) (xs : List A) → ((x : A) → f x ≡ x) → update_first p f xs ≡ xs
  update_first_id p f [] h = refl
  update_first_id p f (x ∷ xs) h = ground (arith, h x, update_first_id p f xs h)
