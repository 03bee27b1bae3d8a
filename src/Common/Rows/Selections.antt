-- ===== src/Common/Rows/Selections.antt =====
-- Laws of selections, of the least and the greatest row, and of sorting.
use mathlib.Core.List.{Memᴰ}
use qdii_observatory.Common.{
  ℕ, ◌+◌, ◌≤◌, ◌≡◌, refl, ap, inl, inr, Bool, true, false, none, some, List, [], ◌∷◌, arith, ltb,
  if◌then◌else◌, Bool-cases, Option-cases, filterb, first, countb, All, length, min_by, max_by,
  update_first, insert_by, sort_by,
}
use qdii_observatory.Common.Rows.Predicates.{All-mono}

module _ {ℓ} {A : Type ℓ} where
  -- An update that takes the updated row out of a selection counts it out.
  pub countb-update_first_out :
      (q p : A → Bool) (f : A → A) (xs : List A) {x : A}
      → first p xs ≡ some x
      → q x ≡ true
      → q (f x) ≡ false
      → countb q (update_first p f xs) + 1 ≡ countb q xs
  countb-update_first_out q p f [] e h k = ground arith
  countb-update_first_out q p f (y ∷ ys) {x} e h k = elim (Bool-cases (p y)) [
    | inl s ↦ let same : y ≡ x = ground arith in rw (s, same) (rw (h, k) (omega arith))
    | inr s ↦ rw s (omega (arith, countb-update_first_out q p f ys (rw s at e) h k))
  ]

  pub max_by-mem : (key : A → ℕ) (xs : List A) (x : A) → max_by key xs ≡ some x → Memᴰ x xs
  unfolding max_by
  max_by-mem key [] x e = ground arith
  max_by-mem key (y ∷ ys) x e = elim (Option-cases (max_by key ys)) [
    | inl h ↦ Memᴰ.head (ground arith)
    | inr (z, h) ↦ elim (Bool-cases (ltb (key y) (key z))) [
      | inl less ↦ Memᴰ.tail (max_by-mem key ys x (ground arith))
      | inr more ↦ Memᴰ.head (ground arith)
    ]
  ]

  pub max_by-eq-none : (key : A → ℕ) (xs : List A) → max_by key xs ≡ none → xs ≡ []
  unfolding max_by
  max_by-eq-none key [] e = refl
  max_by-eq-none key (y ∷ ys) e = ground (arith, max_by-eq-none key ys)

  pub min_by-eq-none : (key : A → ℕ) (xs : List A) → min_by key xs ≡ none → xs ≡ []
  unfolding min_by
  min_by-eq-none key [] e = refl
  min_by-eq-none key (y ∷ ys) e = ground (arith, min_by-eq-none key ys)

  -- The greatest row is greatest.
  pub max_by-le :
      (key : A → ℕ) (xs : List A) (x : A) → max_by key xs ≡ some x → All (λ y. key y ≤ key x) xs
  unfolding max_by
  max_by-le key [] x e = tt
  max_by-le key (y ∷ ys) x e = elim (Option-cases (max_by key ys)) [
    | inl h ↦
        let same : key y ≡ key x = ap key (ground arith) in
        (omega (arith, same), rw (max_by-eq-none key ys h) tt)
    | inr (z, h) ↦
        let greatest = max_by-le key ys z h in
        elim (Bool-cases (ltb (key y) (key z))) [
          | inl less ↦
              let same : key z ≡ key x = ap key (ground arith) in
              (ground (arith, same, less), All-mono ys (λ w k. omega (arith, same, k)) greatest)
          | inr more ↦
              let same : key y ≡ key x = ap key (ground arith) in
              (omega (arith, same), All-mono ys (λ w k. ground (arith, same, k, more)) greatest)
        ]
  ]

  -- The least row is least.
  pub min_by-le :
      (key : A → ℕ) (xs : List A) (x : A) → min_by key xs ≡ some x → All (λ y. key x ≤ key y) xs
  unfolding min_by
  min_by-le key [] x e = tt
  min_by-le key (y ∷ ys) x e = elim (Option-cases (min_by key ys)) [
    | inl h ↦ (ground arith, rw (min_by-eq-none key ys h) tt)
    | inr (z, h) ↦
        let least = min_by-le key ys z h in
        elim (Bool-cases (ltb (key z) (key y))) [
          | inl less ↦
              let same : key z ≡ key x = ap key (ground arith) in
              (ground arith, All-mono ys (λ w k. omega (arith, same, k)) least)
          | inr more ↦
              let same : key y ≡ key x = ap key (ground arith) in
              (omega arith, All-mono ys (λ w k. ground (arith, same, k)) least)
        ]
  ]

  pub mem-filterb_of :
      (p : A → Bool) {x : A} (xs : List A) → Memᴰ x xs → p x ≡ true → Memᴰ x (filterb p xs)
  mem-filterb_of p [] m h = elim m [ ]
  mem-filterb_of p (y ∷ ys) (Memᴰ.head e) h =
      let same : p y ≡ true = rw (← e) h in rw same (Memᴰ.head e)
  mem-filterb_of p (y ∷ ys) (Memᴰ.tail m) h =
      let rest = mem-filterb_of p ys m h in
      elim (Bool-cases (p y)) [ inl s ↦ rw s (Memᴰ.tail rest) | inr s ↦ rw s rest ]

  pub filterb-eq-nil : (p : A → Bool) (xs : List A) → filterb p xs ≡ [] → All (λ x. p x ≡ false) xs
  filterb-eq-nil p [] e = tt
  filterb-eq-nil p (x ∷ xs) e = elim (Bool-cases (p x)) [
    | inl s ↦ absurd (ground arith)
    | inr s ↦ (s, filterb-eq-nil p xs (rw s at e))
  ]

  pub All-filterb {κ} :
      (Q : A → Type κ) (p : A → Bool) (xs : List A)
      → All Q (filterb p xs)
      → All (λ x. p x ≡ true → Q x) xs
  All-filterb Q p [] h = tt
  All-filterb Q p (x ∷ xs) h = elim (Bool-cases (p x)) [
    | inl s ↦ let k : All Q (x ∷ filterb p xs) = rw s at h in ((λ _. k.0), All-filterb Q p xs k.1)
    | inr s ↦ ((λ t. absurd (ground arith)), All-filterb Q p xs (rw s at h))
  ]

  pub length-filterb : (p : A → Bool) (xs : List A) → length (filterb p xs) ≡ countb p xs
  length-filterb p [] = refl
  length-filterb p (x ∷ xs) = ground (arith, length-filterb p xs)

  -- A sort keeps the rows: every property of all of them, and every count.
  pub All-insert_by {κ} :
      (P : A → Type κ) (le : A → A → Bool) (x : A) (xs : List A)
      → P x
      → All P xs
      → All P (insert_by le x xs)
  unfolding insert_by
  All-insert_by P le x [] hx hs = (hx, tt)
  All-insert_by P le x (y ∷ ys) hx (hy, hs) = elim (Bool-cases (le x y)) [
    | inl e ↦ rw e (hx, (hy, hs))
    | inr e ↦ rw e (hy, All-insert_by P le x ys hx hs)
  ]

  pub All-sort_by {κ} :
      (P : A → Type κ) (le : A → A → Bool) (xs : List A) → All P xs → All P (sort_by le xs)
  unfolding sort_by
  All-sort_by P le [] h = tt
  All-sort_by P le (x ∷ xs) (hx, hs) = All-insert_by P le x _ hx (All-sort_by P le xs hs)

  countb-insert_by :
      (p : A → Bool) (le : A → A → Bool) (x : A) (xs : List A)
      → countb p (insert_by le x xs) ≡ (if p x then 1 else 0) + countb p xs
  unfolding insert_by
  countb-insert_by p le x [] = omega arith
  countb-insert_by p le x (y ∷ ys) = ground (arith, countb-insert_by p le x ys)

  pub countb-sort_by :
      (p : A → Bool) (le : A → A → Bool) (xs : List A) → countb p (sort_by le xs) ≡ countb p xs
  unfolding sort_by
  countb-sort_by p le [] = refl
  countb-sort_by p le (x ∷ xs) =
      omega (arith, countb-insert_by p le x (sort_by le xs), countb-sort_by p le xs)
