-- ===== src/Ingestion/Closing.antt =====
-- What `resolve_issues` of ingestion/runs.py closes and what it leaves.
use mathlib.Core.List.{Memᴰ}
use qdii_observatory.Common.{
  ℕ, ◌≡◌, refl, sym, ◌∙◌, String, Bool, true, false, some, List, [], ◌∷◌, arith, countb,
  update_where,
}
use qdii_observatory.Common.Rows.{length-filterb, countb-le, countb-update_where-le}
use qdii_observatory.Ingestion.Issues.{
  Context, DataQualityIssue, Report, is_match, has_issue_id, record_issue, is_resolvable, close,
  resolve_issues,
}
use qdii_observatory.Ingestion.OpenIssues.{IsSingle, record_issue-IsSingle}

module _ {ℓ} {A : Type ℓ} where
  -- An update that takes its rows out of its own selection empties that.
  countb-update_where_out :
      (p : A → Bool) (f : A → A) (xs : List A)
      → ((x : A) → p (f x) ≡ false)
      → countb p (update_where p f xs) ≡ 0
  countb-update_where_out p f [] out = refl
  countb-update_where_out p f (x ∷ xs) out =
      ground (arith, out x, countb-update_where_out p f xs out)

  mem-update_where_ne :
      (p : A → Bool) (f : A → A) (xs : List A) {x : A}
      → Memᴰ x xs
      → p x ≡ false
      → Memᴰ x (update_where p f xs)
  mem-update_where_ne p f [] m h = elim m [ ]
  mem-update_where_ne p f (y ∷ ys) (Memᴰ.head e) h =
      let kept : p y ≡ false = rw (← e) h in rw kept (Memᴰ.head e)
  mem-update_where_ne p f (y ∷ ys) (Memᴰ.tail m) h = Memᴰ.tail (mem-update_where_ne p f ys m h)

module _ (now : ℕ) (codes : List String) (context : Context) where
  close-not_resolvable : (x : DataQualityIssue) → is_resolvable codes context (close now x) ≡ false
  unfolding is_resolvable close
  close-not_resolvable x = refl

  close-not_match :
      (code : String) (k : Context) (x : DataQualityIssue)
      → is_match code k (close now x) ≡ true
      → is_match code k x ≡ true
  unfolding is_match close
  close-not_match code k x h = ground (arith, h)

  close-id :
      (i : ℕ) (x : DataQualityIssue) → has_issue_id i (close now x) ≡ true → has_issue_id i x ≡ true
  unfolding close
  close-id i x h = h

  -- `resolve_issues` returns the number of open issues of the context with one of the codes, and
  -- none of them is open after it; every other issue is still in the table as it was, and where at
  -- most one issue was open for each code and context, that still holds.
  pub resolve_issues_lem :
      (table : List DataQualityIssue)
      → ((resolve_issues now codes context table).0 ≡ countb (is_resolvable codes context) table)
        × (countb (is_resolvable codes context) (resolve_issues now codes context table).1 ≡ 0)
        × ((x : DataQualityIssue)
            → Memᴰ x table
            → is_resolvable codes context x ≡ false
            → Memᴰ x (resolve_issues now codes context table).1)
        × (IsSingle table → IsSingle (resolve_issues now codes context table).1)
  unfolding resolve_issues
  resolve_issues_lem table = (
    length-filterb (is_resolvable codes context) table,
    countb-update_where_out (is_resolvable codes context) (close now) table close-not_resolvable,
    (λ x m h. mem-update_where_ne (is_resolvable codes context) (close now) table m h),
    (λ single. record {
      open_one = λ code k. omega (
        arith,
        single.open_one code k,
        countb-update_where-le (is_match code k) (is_resolvable codes context) (close now) table
            (close-not_match code k),
      );
      ids_one = λ i. omega (
        arith,
        single.ids_one i,
        countb-update_where-le (has_issue_id i) (is_resolvable codes context) (close now) table
            (close-id i),
      );
    }),
  )

module _ (code : String) (context : Context) where
  resolvable_of_match :
      (x : DataQualityIssue)
      → is_match code context x ≡ true
      → is_resolvable (code ∷ []) context x ≡ true
  unfolding is_match is_resolvable
  resolvable_of_match x h = ground (arith, h)

  match_of_resolvable :
      (x : DataQualityIssue)
      → is_resolvable (code ∷ []) context x ≡ true
      → is_match code context x ≡ true
  unfolding is_match is_resolvable
  match_of_resolvable x h = ground (arith, h)

  pub countb-resolvable :
      (table : List DataQualityIssue)
      → countb (is_resolvable (code ∷ []) context) table ≡ countb (is_match code context) table
  countb-resolvable table = omega (
    arith,
    countb-le (is_match code context) (is_resolvable (code ∷ []) context) table resolvable_of_match,
    countb-le (is_resolvable (code ∷ []) context) (is_match code context) table match_of_resolvable,
  )

-- Where at most one issue is open for a code and a context, ids are unique, and the drawn id is new:
-- if `record_issue` returns, then `resolve_issues` for its code and context closes one issue, and no
-- issue is open for them after it.
pub record_issue-resolve_issues :
    (id now now' : ℕ) (report : Report) (table : List DataQualityIssue)
    → countb (has_issue_id id) table ≡ 0
    → IsSingle table
    → (issue : DataQualityIssue) (table' : List DataQualityIssue)
    → record_issue id now report table ≡ some (issue, table')
    → ((resolve_issues now' (report.issue_code ∷ []) report.context table').0 ≡ 1)
      × (countb
            (is_match report.issue_code report.context)
            (resolve_issues now' (report.issue_code ∷ []) report.context table').1
          ≡ 0)
record_issue-resolve_issues id now now' report table fresh single issue table' e =
    let (_, holds) = record_issue-IsSingle id now report table fresh single issue table' e in
    let closed = resolve_issues_lem now' (report.issue_code ∷ []) report.context table' in
    let counted = countb-resolvable report.issue_code report.context in
    (
      closed.0 ∙ counted table' ∙ holds.only,
      sym (counted (resolve_issues now' (report.issue_code ∷ []) report.context table').1)
          ∙ closed.1,
    )
