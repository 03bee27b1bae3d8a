-- ===== src/Returns/Baselines.antt =====
-- Which NAVs a period return compares (period_returns.py).
use mathlib.Core.List.{Memᴰ}
use mathlib.Core.Path.{subst}
use qdii_observatory.Common.{
  ℕ, ◌≤◌, ◌<◌, ◌≡◌, refl, sym, ap, ◌∙◌, Bool, true, false, inl, inr, Option, none, some, List, [],
  ◌∷◌, ◌++◌, ltb, arith, Bool-cases, Option-cases, All, All-append, filterb, first, insert_by,
  sort_by,
}
use qdii_observatory.Common.Rows.{
  All-mono, All-mem, All-listed, All-sort_by, first-eq-some, mem-filterb, mem-filterb_of,
}
use qdii_observatory.Common.Decimal.{Decimal}
use qdii_observatory.Returns.Periods.{
  ReturnPeriod, daily, mtd, qtd, NavObservation, ready, missing_nav, missing_baseline, ReturnStatus,
  PeriodReturn, period_boundary, date_le, up_to, reversed, latest_first, find_baseline, values,
  return_between, ready_return, return_of_rows, calculate_period_return,
}

-- Each row is at least as late as those after it, and at most as late.
abbrev Descending : List NavObservation → Type 0
Descending [] = Unit
Descending (x ∷ xs) = All (λ y. y.nav_date ≤ x.nav_date) xs × Descending xs

abbrev Ascending : List NavObservation → Type 0
Ascending [] = Unit
Ascending (x ∷ xs) = All (λ y. x.nav_date ≤ y.nav_date) xs × Ascending xs

All-insert :
    (P : NavObservation → Type 0) (x : NavObservation) (xs : List NavObservation)
    → P x
    → All P xs
    → All P (insert_by date_le x xs)
unfolding insert_by
All-insert P x [] hx hs = (hx, tt)
All-insert P x (y ∷ ys) hx (hy, hs) = elim (Bool-cases (date_le x y)) [
  | inl e ↦ rw e (hx, (hy, hs))
  | inr e ↦ rw e (hy, All-insert P x ys hx hs)
]

insert_by-Ascending :
    (x : NavObservation) (xs : List NavObservation)
    → Ascending xs
    → Ascending (insert_by date_le x xs)
unfolding insert_by
insert_by-Ascending x [] h = (tt, tt)
insert_by-Ascending x (y ∷ ys) (hy, hs) = elim (Bool-cases (date_le x y)) [
  | inl e ↦ rw e ((ground arith, All-mono ys (λ z k. ground (arith, k)) hy), (hy, hs))
  | inr e ↦ rw e (
    All-insert (λ z. y.nav_date ≤ z.nav_date) x ys (ground arith) hy,
    insert_by-Ascending x ys hs,
  )
]

sort_by-Ascending : (xs : List NavObservation) → Ascending (sort_by date_le xs)
unfolding sort_by
sort_by-Ascending [] = tt
sort_by-Ascending (x ∷ xs) = insert_by-Ascending x _ (sort_by-Ascending xs)

Descending-append_one :
    (xs : List NavObservation) (x : NavObservation)
    → Descending xs
    → All (λ y. x.nav_date ≤ y.nav_date) xs
    → Descending (xs ++ x ∷ [])
Descending-append_one [] x h k = (tt, tt)
Descending-append_one (y ∷ ys) x (hy, hs) (ky, ks) = (
  All-append (λ z. z.nav_date ≤ y.nav_date) ys (x ∷ []) hy (ky, tt),
  Descending-append_one ys x hs ks,
)

All-reversed :
    (P : NavObservation → Type 0) (xs : List NavObservation) → All P xs → All P (reversed xs)
All-reversed P [] h = tt
All-reversed P (x ∷ xs) (hx, hs) =
    All-append P (reversed xs) (x ∷ []) (All-reversed P xs hs) (hx, tt)

reversed-Descending : (xs : List NavObservation) → Ascending xs → Descending (reversed xs)
reversed-Descending [] h = tt
reversed-Descending (x ∷ xs) (hx, hs) =
    Descending-append_one (reversed xs) x (reversed-Descending xs hs)
      (All-reversed (λ y. x.nav_date ≤ y.nav_date) xs hx)

-- The first row that passes a test is the latest that does.
first-latest :
    (p : NavObservation → Bool) (xs : List NavObservation) (x : NavObservation)
    → Descending xs
    → first p xs ≡ some x
    → All (λ y. p y ≡ true → y.nav_date ≤ x.nav_date) xs
first-latest p [] x h e = tt
first-latest p (y ∷ ys) x (hy, hs) e = elim (Bool-cases (p y)) [
  | inl k ↦
      let same : y ≡ x = ground arith in
      subst (λ w. All (λ z. p z ≡ true → z.nav_date ≤ w.nav_date) (y ∷ ys)) same
        ((λ _. omega arith), All-mono ys (λ z le _. le) hy)
  | inr k ↦ ((λ t. absurd (ground arith)), first-latest p ys x hs (rw k at e))
]

mem-append_left : {x : NavObservation} (xs ys : List NavObservation) → Memᴰ x xs → Memᴰ x (xs ++ ys)
mem-append_left [] ys m = elim m [ ]
mem-append_left (y ∷ xs) ys (Memᴰ.head e) = Memᴰ.head e
mem-append_left (y ∷ xs) ys (Memᴰ.tail m) = Memᴰ.tail (mem-append_left xs ys m)

mem-append_last : (x : NavObservation) (xs : List NavObservation) → Memᴰ x (xs ++ x ∷ [])
mem-append_last x [] = Memᴰ.head refl
mem-append_last x (y ∷ xs) = Memᴰ.tail (mem-append_last x xs)

mem-reversed : {x : NavObservation} (xs : List NavObservation) → Memᴰ x xs → Memᴰ x (reversed xs)
mem-reversed [] m = elim m [ ]
mem-reversed (y ∷ xs) (Memᴰ.head e) = rw e (mem-append_last y (reversed xs))
mem-reversed (y ∷ xs) (Memᴰ.tail m) = mem-append_left (reversed xs) (y ∷ []) (mem-reversed xs m)

mem-insert_by :
    {x : NavObservation} (y : NavObservation) (xs : List NavObservation)
    → Memᴰ x (y ∷ xs)
    → Memᴰ x (insert_by date_le y xs)
unfolding insert_by
mem-insert_by y [] m = m
mem-insert_by y (z ∷ xs) (Memᴰ.head h) = elim (Bool-cases (date_le y z)) [
  | inl e ↦ rw e (Memᴰ.head h)
  | inr e ↦ rw e (Memᴰ.tail (mem-insert_by y xs (Memᴰ.head h)))
]
mem-insert_by y (z ∷ xs) (Memᴰ.tail (Memᴰ.head h)) = elim (Bool-cases (date_le y z)) [
  | inl e ↦ rw e (Memᴰ.tail (Memᴰ.head h))
  | inr e ↦ rw e (Memᴰ.head h)
]
mem-insert_by y (z ∷ xs) (Memᴰ.tail (Memᴰ.tail h)) = elim (Bool-cases (date_le y z)) [
  | inl e ↦ rw e (Memᴰ.tail (Memᴰ.tail h))
  | inr e ↦ rw e (Memᴰ.tail (mem-insert_by y xs (Memᴰ.tail h)))
]

mem-sort_by :
    {x : NavObservation} (xs : List NavObservation) → Memᴰ x xs → Memᴰ x (sort_by date_le xs)
unfolding sort_by
mem-sort_by [] m = elim m [ ]
mem-sort_by (y ∷ xs) (Memᴰ.head e) = mem-insert_by y _ (Memᴰ.head e)
mem-sort_by (y ∷ xs) (Memᴰ.tail m) = mem-insert_by y _ (Memᴰ.tail (mem-sort_by xs m))

-- The rows that a return is computed from: all observations up to the end date, the latest first.
module _ (end_date : ℕ) (observations : List NavObservation) where
  latest_first-Descending : Descending (latest_first end_date observations)
  unfolding latest_first
  latest_first-Descending =
      reversed-Descending (sort_by date_le (filterb (up_to end_date) observations))
        (sort_by-Ascending (filterb (up_to end_date) observations))

  latest_first-listed :
      All (λ o. Memᴰ o observations × (o.nav_date ≤ end_date)) (latest_first end_date observations)
  unfolding latest_first
  latest_first-listed =
      let P = λ (o : NavObservation). Memᴰ o observations × (o.nav_date ≤ end_date) in
      All-reversed P _ (
        All-sort_by P date_le _ (
          All-listed (filterb (up_to end_date) observations)
            (λ o m. let (k, h) = mem-filterb (up_to end_date) observations m in (k, ground arith))))

  mem-latest_first :
      {o : NavObservation}
      → Memᴰ o observations
      → o.nav_date ≤ end_date
      → Memᴰ o (latest_first end_date observations)
  unfolding latest_first
  mem-latest_first m le =
      mem-reversed _ (mem-sort_by _ (mem-filterb_of (up_to end_date) observations m (ground arith)))

-- How a period return is formed: from the latest observation up to the end date, and the latest of
-- those before the boundary of the period.
pub record Compares (end_date boundary : ℕ) (observations : List NavObservation)
    (result : PeriodReturn) : Type 0 where
  pub end : NavObservation
  pub baseline : NavObservation
  pub end_listed : Memᴰ end observations
  pub baseline_listed : Memᴰ baseline observations
  pub in_time : end.nav_date ≤ end_date
  pub before : baseline.nav_date < boundary
  pub end_latest : All (λ o. o.nav_date ≤ end_date → o.nav_date ≤ end.nav_date) observations
  pub baseline_latest :
      All
        (λ o. o.nav_date ≤ end_date → o.nav_date < boundary → o.nav_date ≤ baseline.nav_date)
        observations
  pub pct : return_between (values baseline end).0 (values baseline end).1 ≡ result.return_pct
  pub end_reported : result.end_date ≡ some end.nav_date
  pub baseline_reported : result.baseline_date ≡ some baseline.nav_date

find_baseline-boundary :
    (period : ReturnPeriod) (as_of boundary : ℕ) (rows : List NavObservation)
    → period_boundary as_of period ≡ some boundary
    → find_baseline period (some boundary) rows ≡ first (λ row. ltb row.nav_date boundary) rows
unfolding period_boundary find_baseline
find_baseline-boundary daily as_of boundary rows h = absurd (cc h)
find_baseline-boundary mtd as_of boundary rows h = refl
find_baseline-boundary qtd as_of boundary rows h = refl

ready_return-none :
    (baseline end : NavObservation)
    → return_between (values baseline end).0 (values baseline end).1 ≡ none
    → ready_return baseline end ≡ none
unfolding ready_return
ready_return-none baseline end h = rw (h, ready_return)

ready_return-some :
    (baseline end : NavObservation) {pct : Decimal}
    → return_between (values baseline end).0 (values baseline end).1 ≡ some pct
    → ready_return baseline end
      ≡ some (record {
        return_pct = some pct;
        baseline_date = some baseline.nav_date;
        end_date = some end.nav_date;
        uses_accumulated_nav = (values baseline end).2;
        status = ready;
      })
unfolding ready_return
ready_return-some baseline end h = rw (h, ready_return)

abbrev no_return : Option ℕ → ReturnStatus → PeriodReturn
no_return end_date status = record {
  return_pct = none;
  baseline_date = none;
  end_date = end_date;
  uses_accumulated_nav = false;
  status = status;
}

return_of_rows-nil :
    (period : ReturnPeriod) (boundary : Option ℕ)
    → return_of_rows period boundary [] ≡ some (no_return none missing_nav)
unfolding return_of_rows
return_of_rows-nil period boundary = refl

return_of_rows-none :
    (period : ReturnPeriod) (boundary : Option ℕ) (end : NavObservation)
    (rest : List NavObservation)
    → find_baseline period boundary (end ∷ rest) ≡ none
    → return_of_rows period boundary (end ∷ rest)
      ≡ some (no_return (some end.nav_date) missing_baseline)
unfolding return_of_rows
return_of_rows-none period boundary end rest h = rw (h, return_of_rows)

return_of_rows-some :
    (period : ReturnPeriod) (boundary : Option ℕ) (end : NavObservation)
    (rest : List NavObservation) {baseline : NavObservation}
    → find_baseline period boundary (end ∷ rest) ≡ some baseline
    → return_of_rows period boundary (end ∷ rest) ≡ ready_return baseline end
unfolding return_of_rows
return_of_rows-some period boundary end rest h = rw (h, return_of_rows)

module _ (period : ReturnPeriod) (end_date as_of boundary : ℕ) (observations : List NavObservation)
    (result : PeriodReturn) (bounded : period_boundary as_of period ≡ some boundary)
    (done : result.status ≡ ready) where
  compared :
      (end baseline : NavObservation) (rest : List NavObservation)
      → latest_first end_date observations ≡ end ∷ rest
      → first (λ row. ltb row.nav_date boundary) (end ∷ rest) ≡ some baseline
      → ready_return baseline end ≡ some result
      → Compares end_date boundary observations result
  compared end baseline rest rows found e =
      elim (Option-cases (return_between (values baseline end).0 (values baseline end).1)) [
        | inl h ↦ absurd (cc (ready_return-none baseline end h, e))
        | inr (pct, h) ↦
            let same : record {
              return_pct = some pct;
              baseline_date = some baseline.nav_date;
              end_date = some end.nav_date;
              uses_accumulated_nav = (values baseline end).2;
              status = ready;
            }
                ≡ result =
              cc (ready_return-some baseline end h, e) in
            let down : Descending (end ∷ rest) =
              rw rows at (latest_first-Descending end_date observations) in
            let listed : All (λ o. Memᴰ o observations × (o.nav_date ≤ end_date)) (end ∷ rest) =
              rw rows at (latest_first-listed end_date observations) in
            let (m, passes) =
              first-eq-some (λ row. ltb row.nav_date boundary) (end ∷ rest) baseline found in
            let latest =
              first-latest (λ row. ltb row.nav_date boundary) (end ∷ rest) baseline down found in
            record {
              end = end;
              baseline = baseline;
              end_listed = listed.0.0;
              baseline_listed =
                  (All-mem (λ o. Memᴰ o observations × (o.nav_date ≤ end_date)) (end ∷ rest) listed
                    m).0;
              in_time = listed.0.1;
              before = ground arith;
              end_latest = All-listed observations (λ o k le.
                  All-mem (λ y. y.nav_date ≤ end.nav_date) (end ∷ rest) (omega arith, down.0)
                    (rw rows at (mem-latest_first end_date observations k le)));
              baseline_latest = All-listed observations (λ o k le lt.
                  All-mem (λ y. ltb y.nav_date boundary ≡ true → y.nav_date ≤ baseline.nav_date)
                    (end ∷ rest) latest (rw rows at (mem-latest_first end_date observations k le))
                    (ground arith));
              pct = h ∙ ap (λ (r : PeriodReturn). r.return_pct) same;
              end_reported = ap (λ (r : PeriodReturn). r.end_date) (sym same);
              baseline_reported = ap (λ (r : PeriodReturn). r.baseline_date) (sym same);
            }
      ]

  of_rows :
      (rows : List NavObservation)
      → latest_first end_date observations ≡ rows
      → return_of_rows period (some boundary) rows ≡ some result
      → Compares end_date boundary observations result
  of_rows [] same e =
      let r : no_return none missing_nav ≡ result =
        cc (return_of_rows-nil period (some boundary), e) in
      absurd (cc (ap (λ (x : PeriodReturn). x.status) r, done))
  of_rows (end ∷ rest) same e =
      elim (Option-cases (find_baseline period (some boundary) (end ∷ rest))) [
        | inl h ↦
            let r : no_return (some end.nav_date) missing_baseline ≡ result =
              cc (return_of_rows-none period (some boundary) end rest h, e) in
            absurd (cc (ap (λ (x : PeriodReturn). x.status) r, done))
        | inr (baseline, h) ↦
            compared end baseline rest same
              (sym (find_baseline-boundary period as_of boundary (end ∷ rest) bounded) ∙ h)
              (sym (return_of_rows-some period (some boundary) end rest h) ∙ e)
      ]

  -- For a period with a boundary (month or quarter to date): if `calculate_period_return` returns a
  -- ready result, it compares the latest observation up to the end date with the latest of those
  -- before the boundary, and reports their dates.
  pub calculate_period_return-Compares :
      calculate_period_return period end_date as_of observations ≡ some result
      → Compares end_date boundary observations result
  calculate_period_return-Compares e = of_rows (latest_first end_date observations) refl (
      ap (λ b. return_of_rows period b (latest_first end_date observations)) (sym bounded)
      ∙ (unfold calculate_period_return in e))

filterb-later :
    (end_date : ℕ) (x : NavObservation) (xs ys : List NavObservation)
    → end_date < x.nav_date
    → filterb (up_to end_date) (xs ++ x ∷ ys) ≡ filterb (up_to end_date) (xs ++ ys)
filterb-later end_date x [] ys later = ground (arith, later)
filterb-later end_date x (y ∷ xs) ys later = ground (arith, filterb-later end_date x xs ys later)

-- An observation after the end date changes nothing, wherever it stands: no return looks ahead.
pub calculate_period_return_blind :
    (period : ReturnPeriod) (end_date as_of : ℕ) (x : NavObservation) (xs ys : List NavObservation)
    → end_date < x.nav_date
    → calculate_period_return period end_date as_of (xs ++ x ∷ ys)
      ≡ calculate_period_return period end_date as_of (xs ++ ys)
unfolding calculate_period_return
calculate_period_return_blind period end_date as_of x xs ys later =
    ap
      (λ rows.
        return_of_rows period (period_boundary as_of period) (reversed (sort_by date_le rows)))
      (filterb-later end_date x xs ys later)
