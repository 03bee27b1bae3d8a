-- ===== src/Ingestion/Limits/Audit.antt =====
-- `_audit_share_coverage` of ingestion/limit_pipeline.py: what the limits of a share leave open.
use qdii_observatory.Common.{
  ℕ, ◌≡◌, String, Bool, true, false, not, ◌&&◌, ◌||◌, Option, none, some, List, [], ◌∷◌, ◌==◌,
  str_eq, filterb, anyb, ap, if◌then◌else◌, countb, refl, ◌∙◌,
}
use qdii_observatory.Ingestion.Issues.{Context, DataQualityIssue, Report, same_context, is_match}
use qdii_observatory.Ingestion.OpenIssues.{IsSingle}
use qdii_observatory.Ingestion.Alarms.{record_or_resolve, Fresh, record_or_resolve-Alarmed}
use qdii_observatory.Ingestion.Limits.Schema.{DailyPurchaseLimit, one_of}

pub record FundShare : Type 0 where
  pub id : ℕ
  pub fund_contract_id : ℕ
  pub share_code : String
  pub is_exchange_traded : Bool
  pub currency : String

abbrev pub context_of : FundShare → Context
context_of share = record {
  fund_contract_id = some share.fund_contract_id;
  fund_report_id = none;
  fund_share_id = some share.id;
}

-- The rows that the audit of a share reads.
unfoldable pub audited_rows :
    FundShare → Option ℕ → List DailyPurchaseLimit → List DailyPurchaseLimit
audited_rows share none limits = []
audited_rows share (some date) limits =
    filterb
      (λ row.
        row.fund_share_id == share.id
        && row.snapshot_date == date
        && str_eq row.business_type "PURCHASE")
      limits

unfoldable pub missing_channels : List DailyPurchaseLimit → List String
missing_channels rows =
    filterb (λ channel. not (anyb (λ row. str_eq row.channel_type channel) rows))
      ("DIRECT" ∷ "DISTRIBUTION" ∷ [])

unfoldable pub is_unknown : DailyPurchaseLimit → Bool
is_unknown row =
    str_eq row.availability_state "UNKNOWN"
    || (str_eq row.cap_state "UNKNOWN"
        && not (one_of ("PAUSED" ∷ "NOT_SOLD" ∷ "NOT_APPLICABLE" ∷ []) row.availability_state))

unfoldable pub is_ambiguous : DailyPurchaseLimit → Bool
is_ambiguous row = str_eq row.cap_state "LIMITED" && str_eq row.share_scope "UNKNOWN"

abbrev pub some_of {ℓ} : {A : Type ℓ} → List A → Bool
some_of [] = false
some_of (x ∷ xs) = true

-- `missing or unknown`
unfoldable pub is_incomplete : List DailyPurchaseLimit → Bool
unfolding missing_channels is_unknown
is_incomplete rows = some_of (missing_channels rows) || some_of (filterb is_unknown rows)

-- The formatted texts of the issues: the message for a code and a share code, and the JSON details.
pub record Texts : Type 0 where
  pub message : String → String → String
  pub incomplete_details : Option ℕ → List String → List DailyPurchaseLimit → String
  pub ambiguous_details : List DailyPurchaseLimit → String

module _ (texts : Texts) (ids : List DataQualityIssue → ℕ) (now run_id : ℕ)
    (share : FundShare) where
  abbrev pub report_on : String → String → String → Report
  report_on code severity details = record {
    issue_code = code;
    severity = severity;
    message = texts.message code share.share_code;
    details = details;
    ingestion_run_id = some run_id;
    context = context_of share;
  }

  abbrev pub report_incomplete : Option ℕ → List DailyPurchaseLimit → Report
  unfolding is_unknown missing_channels
  report_incomplete date rows =
      report_on "SALES_LIMIT_COVERAGE_INCOMPLETE" "WARNING"
        (texts.incomplete_details date (missing_channels rows) (filterb is_unknown rows))

  abbrev pub report_ambiguous : List DailyPurchaseLimit → Report
  unfolding is_ambiguous
  report_ambiguous rows =
      report_on "SALES_LIMIT_CHANNEL_SCOPE_AMBIGUOUS" "WARNING"
        (texts.ambiguous_details (filterb is_ambiguous rows))

  -- `none` is an error of the database.
  unfoldable pub audit_share_coverage :
      Option ℕ → List DailyPurchaseLimit → List DataQualityIssue → Option (List DataQualityIssue)
  unfolding audited_rows is_incomplete is_ambiguous record_or_resolve
  audit_share_coverage date limits issues =
      let rows = audited_rows share date limits in
      elim (record_or_resolve ids now (is_incomplete rows) (report_incomplete date rows) issues) [
        | none ↦ none
        | some issues ↦
            record_or_resolve ids now (some_of (filterb is_ambiguous rows)) (report_ambiguous rows)
              issues
      ]

-- The issues that the audit leaves open for a share.
pub record Audited (share : FundShare) (date : Option ℕ) (limits : List DailyPurchaseLimit)
    (issues issues' : List DataQualityIssue) : Type 0 where
  pub single : IsSingle issues'
  pub incomplete :
      countb (is_match "SALES_LIMIT_COVERAGE_INCOMPLETE" (context_of share)) issues'
      ≡ (if is_incomplete (audited_rows share date limits) then 1 else 0)
  pub ambiguous :
      countb (is_match "SALES_LIMIT_CHANNEL_SCOPE_AMBIGUOUS" (context_of share)) issues'
      ≡ (if some_of (filterb is_ambiguous (audited_rows share date limits)) then 1 else 0)
  pub others :
      (code : String) (context : Context)
      → (str_eq "SALES_LIMIT_COVERAGE_INCOMPLETE" code && same_context (context_of share) context)
        ≡ false
      → (str_eq "SALES_LIMIT_CHANNEL_SCOPE_AMBIGUOUS" code
          && same_context (context_of share) context)
        ≡ false
      → countb (is_match code context) issues' ≡ countb (is_match code context) issues

module _ (texts : Texts) (ids : List DataQualityIssue → ℕ) (now run_id : ℕ) (share : FundShare)
    (date : Option ℕ) (limits : List DailyPurchaseLimit) (fresh : Fresh ids) where
  audit_share_coverage_steps :
      (issues middle last : List DataQualityIssue)
      → record_or_resolve ids now
          (is_incomplete (audited_rows share date limits))
          (report_incomplete texts ids now run_id share date (audited_rows share date limits))
          issues
        ≡ some middle
      → record_or_resolve ids now
          (some_of (filterb is_ambiguous (audited_rows share date limits)))
          (report_ambiguous texts ids now run_id share (audited_rows share date limits))
          middle
        ≡ some last
      → audit_share_coverage texts ids now run_id share date limits issues ≡ some last
  unfolding audit_share_coverage
  audit_share_coverage_steps issues middle last e e' =
      ap
        (λ o. elim o [
          | none ↦ none
          | some issues ↦
              record_or_resolve ids now
                (some_of (filterb is_ambiguous (audited_rows share date limits)))
                (report_ambiguous texts ids now run_id share (audited_rows share date limits))
                issues
        ])
        e
      ∙ e'

  -- Where the ids that the database draws are new and at most one issue is open for a code and a
  -- context: the audit of a share always returns; an issue of incomplete coverage is then open for
  -- the share if a channel has no row or a row is unknown, and none otherwise; an issue of an
  -- ambiguous scope is open if a limited row has an unknown scope, and none otherwise; and the other
  -- issues are as many as before.
  pub audit_share_coverage-Audited :
      (issues : List DataQualityIssue)
      → IsSingle issues
      → (issues' : List DataQualityIssue) × (audit_share_coverage texts ids now run_id share date
            limits issues
          ≡ some issues')
        × Audited share date limits issues issues'
  unfolding report_incomplete report_ambiguous
  audit_share_coverage-Audited issues single =
      let rows = audited_rows share date limits in
      let (middle, e, incomplete) =
        record_or_resolve-Alarmed ids now (report_incomplete texts ids now run_id share date rows)
          issues fresh refl single (is_incomplete rows) in
      let (last, e', ambiguous) =
        record_or_resolve-Alarmed ids now (report_ambiguous texts ids now run_id share rows) middle
          fresh refl incomplete.single (some_of (filterb is_ambiguous rows)) in
      (
        last,
        audit_share_coverage_steps issues middle last e e',
        record {
          single = ambiguous.single;
          incomplete =
              ambiguous.others "SALES_LIMIT_COVERAGE_INCOMPLETE" (context_of share) refl
              ∙ incomplete.raised;
          ambiguous = ambiguous.raised;
          others = λ code context h k.
              ambiguous.others code context k ∙ incomplete.others code context h;
        },
      )
