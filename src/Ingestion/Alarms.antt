-- ===== src/Ingestion/Alarms.antt =====
-- `if bad: record_issue(…) else: resolve_issues(…)`, by which the pipelines keep an issue open as
-- long as its cause lasts (ingestion/runs.py and its callers).
use qdii_observatory.Common.{
  ℕ, ◌≡◌, refl, sym, ◌∙◌, String, Bool, true, false, ◌&&◌, ◌||◌, inl, inr, Option, none, some, List,
  [], ◌∷◌, str_eq, same_id, eq_iff, arith, Bool-cases, Option-cases, if◌then◌else◌, is_some, countb,
  update_where,
}
use qdii_observatory.Common.Rows.{countb-update_first_same}
use qdii_observatory.Ingestion.Issues.{
  Context, DataQualityIssue, Report, has_issue_id, is_match, new_issue, renew, same_context,
  record_issue, is_resolvable, close, resolve_issues,
}
use qdii_observatory.Ingestion.OpenIssues.{
  IsSingle, record_issue-IsSingle, record_issue_accepted, record_issue-new, record_issue-known,
  flush-inv, renew-is_match, latest,
}
use qdii_observatory.Ingestion.Closing.{resolve_issues_lem, countb-resolvable}

-- `ids` draws the id of a new row of a table.
unfoldable pub record_or_resolve :
    (List DataQualityIssue → ℕ)
    → ℕ
    → Bool
    → Report
    → List DataQualityIssue
    → Option (List DataQualityIssue)
unfolding record_issue resolve_issues
record_or_resolve ids now bad report table =
    if bad
    then elim (record_issue (ids table) now report table) [
      | none ↦ none
      | some recorded ↦ some recorded.1
    ]
    else some (resolve_issues now (report.issue_code ∷ []) report.context table).1

-- What a database promises of the ids that it draws.
abbrev pub Fresh : (List DataQualityIssue → ℕ) → Type 0
Fresh ids = (table : List DataQualityIssue) → countb (has_issue_id (ids table)) table ≡ 0

-- A report about a fund contract, a report or a share.
abbrev pub has_context : Report → Bool
has_context report =
    is_some report.context.fund_contract_id
    || is_some report.context.fund_report_id
    || is_some report.context.fund_share_id

module _ {ℓ} {A : Type ℓ} where
  countb-update_where_same :
      (q p : A → Bool) (f : A → A) (xs : List A)
      → ((x : A) → p x ≡ true → q (f x) ≡ q x)
      → countb q (update_where p f xs) ≡ countb q xs
  countb-update_where_same q p f [] same = refl
  countb-update_where_same q p f (x ∷ xs) same =
      ground (arith, same x, countb-update_where_same q p f xs same)

same_id_join : (a b c : Option ℕ) → same_id a b ≡ true → same_id a c ≡ true → same_id b c ≡ true
same_id_join none none none h k = refl
same_id_join none none (some c) h k = absurd (cc k)
same_id_join none (some b) c h k = absurd (cc h)
same_id_join (some a) none c h k = absurd (cc h)
same_id_join (some a) (some b) none h k = absurd (cc k)
same_id_join (some a) (some b) (some c) h k = ground (arith, h, k)

same_context_join :
    (a b c : Context) → same_context a b ≡ true → same_context a c ≡ true → same_context b c ≡ true
unfolding same_context
same_context_join a b c h k = ground (
  arith,
  h,
  k,
  same_id_join a.fund_contract_id b.fund_contract_id c.fund_contract_id,
  same_id_join a.fund_report_id b.fund_report_id c.fund_report_id,
  same_id_join a.fund_share_id b.fund_share_id c.fund_share_id,
)

-- Whether a report is about the issues of a code and a context.
abbrev pub concerns : Report → String → Context → Bool
concerns report code context = str_eq report.issue_code code && same_context report.context context

module _ (id now : ℕ) (report : Report) (table : List DataQualityIssue) (code : String)
    (context : Context) (other : concerns report code context ≡ false) where
  new_issue-other : is_match code context (new_issue id now report) ≡ false
  unfolding is_match new_issue
  new_issue-other = ground (arith, other)

  -- A report leaves the other issues.
  record_issue-other :
      (issue : DataQualityIssue) (table' : List DataQualityIssue)
      → record_issue id now report table ≡ some (issue, table')
      → countb (is_match code context) table' ≡ countb (is_match code context) table
  record_issue-other issue table' e = elim (Option-cases (latest id now report table)) [
    | inl h ↦
        let (_, rows) =
          flush-inv id now report table _ issue _ table'
            (sym (record_issue-new id now report table h) ∙ e) in
        rw (← rows) (rw new_issue-other (omega arith))
    | inr (old, h) ↦
        let (_, rows) =
          flush-inv id now report table _ issue _ table'
            (sym (record_issue-known id now report table old h) ∙ e) in
        rw (← rows) (
          countb-update_first_same (is_match code context) (has_issue_id old.id) (renew now report)
            table (λ x. renew-is_match id now report table code context x))
  ]

  resolvable-other :
      (x : DataQualityIssue)
      → is_resolvable (report.issue_code ∷ []) report.context x ≡ true
      → is_match code context x ≡ false
  unfolding is_resolvable is_match
  resolvable-other x h = elim (Bool-cases (is_match code context x)) [
    | inl e ↦
        let same_code : report.issue_code ≡ code =
          sym ((eq_iff x.issue_code report.issue_code).0 (ground (arith, h)))
          ∙ (eq_iff x.issue_code code).0 (ground (arith, e)) in
        let context_too : same_context report.context context ≡ true =
          same_context_join x.context report.context context (ground (arith, h))
            (ground (arith, e)) in
        absurd (ground (arith, other, context_too, (eq_iff report.issue_code code).1 same_code))
    | inr e ↦ e
  ]

  close-other :
      (x : DataQualityIssue)
      → is_resolvable (report.issue_code ∷ []) report.context x ≡ true
      → is_match code context (close now x) ≡ is_match code context x
  unfolding is_match close
  close-other x h = ground (arith, resolvable-other x h)

  resolve_issues-other :
      countb
        (is_match code context)
        (resolve_issues now (report.issue_code ∷ []) report.context table).1
      ≡ countb (is_match code context) table
  unfolding resolve_issues
  resolve_issues-other =
      countb-update_where_same (is_match code context)
        (is_resolvable (report.issue_code ∷ []) report.context) (close now) table close-other

-- What a call leaves in the table: one open issue of the report's code and context if the cause
-- lasts, none otherwise, and those of other codes and contexts as they were.
pub record Alarmed (bad : Bool) (report : Report) (table table' : List DataQualityIssue)
    : Type 0 where
  pub single : IsSingle table'
  pub raised : countb (is_match report.issue_code report.context) table' ≡ (if bad then 1 else 0)
  pub others :
      (code : String) (context : Context)
      → concerns report code context ≡ false
      → countb (is_match code context) table' ≡ countb (is_match code context) table

module _ (ids : List DataQualityIssue → ℕ) (now : ℕ) (report : Report)
    (table : List DataQualityIssue) (fresh : Fresh ids) (about : has_context report ≡ true)
    (single : IsSingle table) where
  recorded-Alarmed :
      (table' : List DataQualityIssue) × (record_or_resolve ids now true report table ≡ some table')
      × Alarmed true report table table'
  recorded-Alarmed =
      let (issue, rows, e) = record_issue_accepted (ids table) now report table about in
      let (kept, holds) =
        record_issue-IsSingle (ids table) now report table (fresh table) single issue rows e in
      (
        rows,
        (unfold record_or_resolve in rw e refl),
        record {
          single = kept;
          raised = holds.only;
          others = λ code context other.
              record_issue-other (ids table) now report table code context other issue rows e;
        },
      )

  resolved-Alarmed :
      (table' : List DataQualityIssue) × (record_or_resolve ids now false report table
        ≡ some table')
      × Alarmed false report table table'
  resolved-Alarmed =
      let (_, closed, _, kept) =
        resolve_issues_lem now (report.issue_code ∷ []) report.context table in
      (
        (resolve_issues now (report.issue_code ∷ []) report.context table).1,
        (unfold record_or_resolve in refl),
        record {
          single = kept single;
          raised = sym (countb-resolvable report.issue_code report.context _) ∙ closed;
          others = λ code context other. resolve_issues-other 0 now report table code context other;
        },
      )

  -- Where the ids that the database draws are new, a report names a contract, a report or a share, and
  -- at most one issue is open for a code and a context: recording it if its cause lasts and resolving
  -- it otherwise always returns; one issue of its code and context is then open if the cause lasts and
  -- none otherwise, and as many as before for every other code or context.
  pub record_or_resolve-Alarmed :
      (bad : Bool)
      → (table' : List DataQualityIssue) × (record_or_resolve ids now bad report table
          ≡ some table')
        × Alarmed bad report table table'
  record_or_resolve-Alarmed true = recorded-Alarmed
  record_or_resolve-Alarmed false = resolved-Alarmed
