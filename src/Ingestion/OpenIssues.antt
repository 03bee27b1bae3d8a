-- ===== src/Ingestion/OpenIssues.antt =====
-- One open issue for each code and context (ingestion/runs.py).
use mathlib.Core.List.{Memᴰ}
use qdii_observatory.Common.{
  ℕ, ◌≤◌, ◌≡◌, refl, sym, ap, ◌∙◌, String, Bool, true, ◌||◌, is_some, inl, inr, Option, none, some,
  List, [], ◌∷◌, ==_iff, same_id_refl, str_eq, eq_iff, arith, Bool-cases, Option-cases, filterb,
  length, countb, min_by, update_first, if◌then◌else◌, same_id,
}
use qdii_observatory.Common.Rows.{
  min_by-mem, min_by-eq-none, mem-filterb, countb-update_first-le, length-filterb, countb_pos,
  countb-le,
}
use qdii_observatory.Ingestion.Issues.{
  Context, DataQualityIssue, Report, same_context, is_match, has_issue_id, check_issue, new_issue,
  renew, record_issue,
}

-- At most one issue is open for a code and a context, and the ids are unique.
pub record IsSingle (table : List DataQualityIssue) : Type 0 where
  pub open_one : (code : String) (context : Context) → countb (is_match code context) table ≤ 1
  pub ids_one : (id : ℕ) → countb (has_issue_id id) table ≤ 1

countb-eq-zero :
    (p : DataQualityIssue → Bool) (xs : List DataQualityIssue) → filterb p xs ≡ [] → countb p xs ≡ 0
countb-eq-zero p xs e = sym (length-filterb p xs) ∙ ap length e

module _ (id now : ℕ) (report : Report) (table : List DataQualityIssue) where
  abbrev pub mine : DataQualityIssue → Bool
  mine = is_match report.issue_code report.context

  abbrev pub latest : Option DataQualityIssue
  latest = min_by (λ issue. issue.id) (filterb mine table)

  abbrev pub flushed :
      DataQualityIssue → List DataQualityIssue → Option (DataQualityIssue × List DataQualityIssue)
  flushed issue rows = if check_issue issue then some (issue, rows) else none

  pub record_issue-new :
      latest ≡ none
      → record_issue id now report table
        ≡ flushed (new_issue id now report) (new_issue id now report ∷ table)
  unfolding record_issue
  record_issue-new e = rw (e, record_issue)

  pub record_issue-known :
      (issue : DataQualityIssue)
      → latest ≡ some issue
      → record_issue id now report table
        ≡ flushed
            (renew now report issue)
            (update_first (has_issue_id issue.id) (renew now report) table)
  unfolding record_issue
  record_issue-known issue e = rw (e, record_issue)

same_id_trans : (a b c : Option ℕ) → same_id a b ≡ true → same_id c b ≡ true → same_id c a ≡ true
same_id_trans none none none h k = refl
same_id_trans none none (some c) h k = absurd (ground arith)
same_id_trans none (some b) c h k = absurd (ground arith)
same_id_trans (some a) none c h k = absurd (ground arith)
same_id_trans (some a) (some b) none h k = absurd (ground arith)
same_id_trans (some a) (some b) (some c) h k = ground (arith, h, k)

same_context_trans :
    (a b c : Context) → same_context a b ≡ true → same_context c b ≡ true → same_context c a ≡ true
unfolding same_context
same_context_trans a b c h k = ground (
  arith,
  same_id_trans a.fund_contract_id b.fund_contract_id c.fund_contract_id,
  same_id_trans a.fund_report_id b.fund_report_id c.fund_report_id,
  same_id_trans a.fund_share_id b.fund_share_id c.fund_share_id,
)

pub str_eq_trans : (a b c : String) → str_eq a b ≡ true → str_eq c b ≡ true → str_eq c a ≡ true
str_eq_trans a b c h k =
    let e : a ≡ c = (eq_iff a b).0 h ∙ sym ((eq_iff c b).0 k) in (eq_iff c a).1 (sym e)

-- Two rows that match the same code and context match each other's.
is_match_trans :
    (code : String) (context : Context) (a b : DataQualityIssue)
    → is_match code context a ≡ true
    → is_match code context b ≡ true
    → is_match a.issue_code a.context b ≡ true
unfolding is_match
is_match_trans code context a b h k = ground (
  arith,
  str_eq_trans a.issue_code code b.issue_code,
  same_context_trans a.context context b.context,
  h,
  k,
)

module _ (id now : ℕ) (report : Report) (table : List DataQualityIssue) where
  abbrev matching : DataQualityIssue → Bool
  matching = is_match report.issue_code report.context

  new_issue-matches : matching (new_issue id now report) ≡ true
  unfolding is_match new_issue same_context
  new_issue-matches =
      rw
        (
          same_id_refl report.context.fund_contract_id,
          same_id_refl report.context.fund_report_id,
          same_id_refl report.context.fund_share_id,
        )
        (rw ((eq_iff report.issue_code report.issue_code).1 refl) refl)

  pub renew-is_match :
      (code : String) (context : Context) (issue : DataQualityIssue)
      → is_match code context (renew now report issue) ≡ is_match code context issue
  unfolding is_match renew
  renew-is_match code context issue = refl

  new-IsSingle :
      countb matching table ≡ 0
      → countb (has_issue_id id) table ≡ 0
      → IsSingle table
      → IsSingle (new_issue id now report ∷ table)
  new-IsSingle absent fresh single = record {
    open_one = λ code context. elim (Bool-cases (is_match code context (new_issue id now report))) [
      | inl e ↦ rw e (
          omega (
            arith,
            absent,
            countb-le (is_match code context) matching table (λ x h.
                unfold new_issue in is_match_trans code context (new_issue id now report) x e h),
          ))
      | inr e ↦ rw e (omega (arith, single.open_one code context))
    ];
    ids_one = λ i. unfold new_issue in ground (arith, fresh, single.ids_one i, ==_iff id i);
  }

  renew-IsSingle :
      (i : ℕ) → IsSingle table → IsSingle (update_first (has_issue_id i) (renew now report) table)
  renew-IsSingle i single = record {
    open_one = λ code context. omega (
      arith,
      single.open_one code context,
      countb-update_first-le (is_match code context) (has_issue_id i) (renew now report) table
          (λ x h. sym (renew-is_match code context x) ∙ h),
    );
    ids_one = λ j. omega (
      arith,
      single.ids_one j,
      countb-update_first-le (has_issue_id j) (has_issue_id i) (renew now report) table
          (unfold renew in λ x h. h),
    );
  }

  pub flush-inv :
      (issue issue' : DataQualityIssue) (rows rows' : List DataQualityIssue)
      → if◌then◌else◌ {A = Option (DataQualityIssue × List DataQualityIssue)}
          (check_issue issue)
          (some (issue, rows))
          none
        ≡ some (issue', rows')
      → (issue ≡ issue') × (rows ≡ rows')
  flush-inv issue issue' rows rows' e = elim (Bool-cases (check_issue issue)) [
    | inl h ↦ let same = rw h at e in (cc same, cc same)
    | inr h ↦ absurd (cc (rw h at e))
  ]

  -- The row that an update reaches, where ids are unique.
  mem-update_first :
      (f : DataQualityIssue → DataQualityIssue) (rows : List DataQualityIssue)
      (x : DataQualityIssue)
      → Memᴰ x rows
      → countb (has_issue_id x.id) rows ≤ 1
      → Memᴰ (f x) (update_first (has_issue_id x.id) f rows)
  mem-update_first f [] x m one = elim m [ ]
  mem-update_first f (y ∷ ys) x (Memᴰ.head e) one =
      let same : has_issue_id x.id y ≡ true = rw e (ground arith) in rw same (Memᴰ.head (ap f e))
  mem-update_first f (y ∷ ys) x (Memᴰ.tail m) one = elim (Bool-cases (has_issue_id x.id y)) [
    | inl h ↦ absurd (ground (arith, countb_pos (has_issue_id x.id) ys m (ground arith), h))
    | inr h ↦ rw h (Memᴰ.tail (mem-update_first f ys x m (ground (arith, h))))
  ]

-- What a call of `record_issue` leaves: the issue is listed, open for its code and context with the
-- evidence of the report, and no other issue is.
pub record Holds (report : Report) (now : ℕ) (issue : DataQualityIssue)
    (rows : List DataQualityIssue) : Type 0 where
  pub listed : Memᴰ issue rows
  pub matches : is_match report.issue_code report.context issue ≡ true
  pub only : countb (is_match report.issue_code report.context) rows ≡ 1
  pub severity : issue.severity ≡ report.severity
  pub message : issue.message ≡ report.message
  pub details : issue.details ≡ report.details
  pub detected_at : issue.detected_at ≡ now

module _ (id now : ℕ) (report : Report) (table : List DataQualityIssue)
    (fresh : countb (has_issue_id id) table ≡ 0) (single : IsSingle table) where
  new-Holds :
      countb (matching id now report table) table ≡ 0
      → Holds report now (new_issue id now report) (new_issue id now report ∷ table)
  new-Holds absent = record {
    listed = Memᴰ.head refl;
    matches = new_issue-matches id now report table;
    only = rw (new_issue-matches id now report table) (omega (arith, absent));
    severity = unfold new_issue in refl;
    message = unfold new_issue in refl;
    details = unfold new_issue in refl;
    detected_at = unfold new_issue in refl;
  }

  renew-Holds :
      (issue : DataQualityIssue)
      → Memᴰ issue table
      → is_match report.issue_code report.context issue ≡ true
      → Holds report now
          (renew now report issue)
          (update_first (has_issue_id issue.id) (renew now report) table)
  renew-Holds issue m h =
      let rows = update_first (has_issue_id issue.id) (renew now report) table in
      let kept : Memᴰ (renew now report issue) rows =
        mem-update_first id now report table (renew now report) table issue m
          (single.ids_one issue.id) in
      let matches = renew-is_match id now report table report.issue_code report.context issue ∙ h in
      record {
        listed = kept;
        matches = matches;
        only = omega (
          arith,
          countb_pos (is_match report.issue_code report.context) rows kept matches,
          (renew-IsSingle id now report table issue.id single).open_one report.issue_code
              report.context,
        );
        severity = unfold renew in refl;
        message = unfold renew in refl;
        details = unfold renew in refl;
        detected_at = unfold renew in refl;
      }

  -- Where at most one issue is open for a code and a context, ids are unique, and the drawn id is
  -- new: if `record_issue` returns, the same holds of the new table, and exactly one issue is open
  -- for the code and the context of the report: the returned one, which is listed with the
  -- severity, message, details and time of the report.
  pub record_issue-IsSingle :
      (issue : DataQualityIssue) (table' : List DataQualityIssue)
      → record_issue id now report table ≡ some (issue, table')
      → IsSingle table' × Holds report now issue table'
  record_issue-IsSingle issue table' e = elim (Option-cases (latest id now report table)) [
    | inl h ↦
        let absent =
          countb-eq-zero (matching id now report table) table (min_by-eq-none (λ i. i.id) _ h) in
        let (same, rows) =
          flush-inv id now report table _ issue _ table'
            (sym (record_issue-new id now report table h) ∙ e) in
        rw (← same, ← rows) (new-IsSingle id now report table absent fresh single, new-Holds absent)
    | inr (old, h) ↦
        let (m, matches) =
          mem-filterb (matching id now report table) table (min_by-mem (λ i. i.id) _ old h) in
        let (same, rows) =
          flush-inv id now report table _ issue _ table'
            (sym (record_issue-known id now report table old h) ∙ e) in
        rw (← same, ← rows)
          (renew-IsSingle id now report table old.id single, renew-Holds old m matches)
  ]

same_id_some : (a b : Option ℕ) → same_id a b ≡ true → is_some b ≡ true → is_some a ≡ true
same_id_some none none h k = absurd (cc k)
same_id_some none (some b) h k = absurd (cc h)
same_id_some (some a) b h k = refl

check_new :
    (id now : ℕ) (report : Report)
    → (is_some report.context.fund_contract_id
        || is_some report.context.fund_report_id
        || is_some report.context.fund_share_id)
      ≡ true
    → check_issue (new_issue id now report) ≡ true
unfolding check_issue new_issue
check_new id now report h = ground (arith, h)

check_renewed :
    (now : ℕ) (report : Report) (issue : DataQualityIssue)
    → (is_some report.context.fund_contract_id
        || is_some report.context.fund_report_id
        || is_some report.context.fund_share_id)
      ≡ true
    → is_match report.issue_code report.context issue ≡ true
    → check_issue (renew now report issue) ≡ true
unfolding check_issue renew is_match same_context
check_renewed now report issue h k = ground (
  arith,
  h,
  k,
  same_id_some issue.context.fund_contract_id report.context.fund_contract_id,
  same_id_some issue.context.fund_report_id report.context.fund_report_id,
  same_id_some issue.context.fund_share_id report.context.fund_share_id,
)

-- The CHECK on the context of an issue does not refuse a report about a fund contract, a fund report
-- or a fund share, on any table.
pub record_issue_accepted :
    (id now : ℕ) (report : Report) (table : List DataQualityIssue)
    → (is_some report.context.fund_contract_id
        || is_some report.context.fund_report_id
        || is_some report.context.fund_share_id)
      ≡ true
    → (issue : DataQualityIssue) × (rows : List DataQualityIssue) × (record_issue id now report
          table
        ≡ some (issue, rows))
record_issue_accepted id now report table h = elim (Option-cases (latest id now report table)) [
  | inl e ↦ (
    new_issue id now report,
    new_issue id now report ∷ table,
    record_issue-new id now report table e ∙ (rw (check_new id now report h) refl),
  )
  | inr (old, e) ↦
      let (_, matches) =
        mem-filterb (matching id now report table) table (min_by-mem (λ i. i.id) _ old e) in
      (
        renew now report old,
        update_first (has_issue_id old.id) (renew now report) table,
        record_issue-known id now report table old e
            ∙ (rw (check_renewed now report old h matches) refl),
      )
]

-- A report about a fund contract, a fund report or a fund share is always recorded: where at most one
-- issue is open for a code and a context, ids are unique, and the drawn id is new, `record_issue`
-- returns a table of which the same holds, and in it exactly one issue is open for the code and the
-- context of the report: the returned one, which is listed with the severity, message, details and
-- time of the report.
pub record_issue-Holds :
    (id now : ℕ) (report : Report) (table : List DataQualityIssue)
    → (is_some report.context.fund_contract_id
        || is_some report.context.fund_report_id
        || is_some report.context.fund_share_id)
      ≡ true
    → countb (has_issue_id id) table ≡ 0
    → IsSingle table
    → (issue : DataQualityIssue) × (rows : List DataQualityIssue) × (record_issue id now report
          table
        ≡ some (issue, rows))
      × IsSingle rows
      × Holds report now issue rows
record_issue-Holds id now report table about fresh single =
    let (issue, rows, e) = record_issue_accepted id now report table about in
    let (kept, holds) = record_issue-IsSingle id now report table fresh single issue rows e in
    (issue, rows, e, kept, holds)
