-- ===== src/Ingestion/Limits/Rounds.antt =====
-- The last loop of `sync_purchase_limits`: it reports on every share, and always ends.
use qdii_observatory.Common.{
  ℕ, ◌≡◌, refl, ap, ◌∙◌, String, false, Option, none, some, List, [], ◌∷◌, ◌==◌, arith,
  if◌then◌else◌, countb, anyb, filterb, All,
}
use qdii_observatory.Ingestion.Issues.{DataQualityIssue, same_context, is_match}
use qdii_observatory.Ingestion.OpenIssues.{IsSingle}
use qdii_observatory.Ingestion.Alarms.{record_or_resolve, Fresh, record_or_resolve-Alarmed}
use qdii_observatory.Ingestion.Limits.Schema.{DailyPurchaseLimit}
use qdii_observatory.Ingestion.Limits.Audit.{
  FundShare, context_of, audited_rows, is_incomplete, is_ambiguous, some_of, audit_share_coverage,
  audit_share_coverage-Audited,
}
use qdii_observatory.Ingestion.Limits.Sync.{
  Failure, Calls, failures_of, report_failed, report_share, report_shares,
}

-- The ids of the shares are distinct.
abbrev pub IsDistinct : List FundShare → Type 0
IsDistinct [] = Unit {0}
IsDistinct (share ∷ shares) =
    (anyb (λ (s : FundShare). s.id == share.id) shares ≡ false) × IsDistinct shares

-- The number of issues open for a code and a share.
abbrev pub open_for : String → FundShare → List DataQualityIssue → ℕ
open_for code share issues = countb (is_match code (context_of share)) issues

module _ (calls : Calls) (run_id now : ℕ) (date : Option ℕ) (limits : List DailyPurchaseLimit)
    (failures : List Failure) where
  -- The issues of a share are open as long as their causes last.
  pub record Raises (issues : List DataQualityIssue) (share : FundShare) : Type 0 where
    pub failed :
        open_for "SALES_LIMIT_SYNC_FAILED" share issues
        ≡ (if some_of (failures_of calls run_id share failures) then 1 else 0)
    pub incomplete :
        open_for "SALES_LIMIT_COVERAGE_INCOMPLETE" share issues
        ≡ (if is_incomplete (audited_rows share date limits) then 1 else 0)
    pub ambiguous :
        open_for "SALES_LIMIT_CHANNEL_SCOPE_AMBIGUOUS" share issues
        ≡ (if some_of (filterb is_ambiguous (audited_rows share date limits)) then 1 else 0)

  -- As many issues are open as before, for each code and a share that is not in the list.
  abbrev Leaves : List FundShare → List DataQualityIssue → List DataQualityIssue → Type 0
  Leaves shares issues issues' =
      (code : String) (other : FundShare)
      → anyb (λ (s : FundShare). s.id == other.id) shares ≡ false
      → open_for code other issues' ≡ open_for code other issues

  abbrev failing : FundShare → List Failure
  failing share = failures_of calls run_id share failures

  apart :
      (share other : FundShare)
      → (share.id == other.id) ≡ false
      → same_context (context_of share) (context_of other) ≡ false
  unfolding same_context
  apart share other h = ground (arith, h)

  report_share_steps :
      (share : FundShare) (issues middle last : List DataQualityIssue)
      → record_or_resolve calls.issue_ids now
          (some_of (failing share))
          (report_failed calls run_id now share (failing share))
          issues
        ≡ some middle
      → audit_share_coverage calls.texts calls.issue_ids now run_id share date limits middle
        ≡ some last
      → report_share calls run_id now date limits failures share issues ≡ some last
  unfolding report_share
  report_share_steps share issues middle last e e' =
      ap
        (λ o. elim o [
          | none ↦ none
          | some issues ↦
              audit_share_coverage calls.texts calls.issue_ids now run_id share date limits issues
        ])
        e
      ∙ e'

  module _ (fresh : Fresh calls.issue_ids) where
    report_share-Raises :
        (share : FundShare) (issues : List DataQualityIssue)
        → IsSingle issues
        → (issues' : List DataQualityIssue) × (report_share calls run_id now date limits failures
              share issues
            ≡ some issues')
          × IsSingle issues'
          × Raises issues' share
          × Leaves (share ∷ []) issues issues'
    report_share-Raises share issues single =
        let (middle, e, failed) =
          record_or_resolve-Alarmed calls.issue_ids now
            (report_failed calls run_id now share (failing share)) issues fresh refl single
            (some_of (failing share)) in
        let (last, e', audited) =
          audit_share_coverage-Audited calls.texts calls.issue_ids now run_id share date limits
            fresh middle failed.single in
        (
          last,
          report_share_steps share issues middle last e e',
          audited.single,
          record {
            failed =
                audited.others "SALES_LIMIT_SYNC_FAILED" (context_of share) refl refl
                ∙ failed.raised;
            incomplete = audited.incomplete;
            ambiguous = audited.ambiguous;
          },
          λ code other h.
              let elsewhere : same_context (context_of share) (context_of other) ≡ false =
                apart share other (ground (arith, h)) in
              audited.others code (context_of other) (ground (arith, elsewhere))
                (ground (arith, elsewhere))
              ∙ failed.others code (context_of other) (ground (arith, elsewhere)),
        )

    Raises-Leaves :
        (shares : List FundShare) (issues issues' : List DataQualityIssue) (share : FundShare)
        → Leaves shares issues issues'
        → anyb (λ (s : FundShare). s.id == share.id) shares ≡ false
        → Raises issues share
        → Raises issues' share
    Raises-Leaves shares issues issues' share leaves h raises = record {
      failed = leaves "SALES_LIMIT_SYNC_FAILED" share h ∙ raises.failed;
      incomplete = leaves "SALES_LIMIT_COVERAGE_INCOMPLETE" share h ∙ raises.incomplete;
      ambiguous = leaves "SALES_LIMIT_CHANNEL_SCOPE_AMBIGUOUS" share h ∙ raises.ambiguous;
    }

    report_shares_step :
        (share : FundShare) (shares : List FundShare) (issues middle : List DataQualityIssue)
        → report_share calls run_id now date limits failures share issues ≡ some middle
        → report_shares calls run_id now date limits failures (share ∷ shares) issues
          ≡ report_shares calls run_id now date limits failures shares middle
    unfolding report_shares
    report_shares_step share shares issues middle e =
        ap
          (λ o. elim o [
            | none ↦ none
            | some issues ↦ report_shares calls run_id now date limits failures shares issues
          ])
          e

    -- Where the ids that the database draws are new, those of the shares are distinct, and at most
    -- one issue is open for a code and a context: the loop ends without an error, at most one issue
    -- is still open for each code and context, the issues of every share are open exactly as long as
    -- their causes last, and those of shares that are not in the list are as many as before.
    pub report_shares-Raises :
        (shares : List FundShare) (issues : List DataQualityIssue)
        → IsDistinct shares
        → IsSingle issues
        → (issues' : List DataQualityIssue) × (report_shares calls run_id now date limits failures
              shares issues
            ≡ some issues')
          × IsSingle issues'
          × All (Raises issues') shares
          × Leaves shares issues issues'
    unfolding report_shares
    report_shares-Raises [] issues distinct single =
        (issues, refl, single, tt, λ code other h. refl)
    report_shares-Raises (share ∷ shares) issues (once, distinct) single =
        let (middle, e, single', raises, leaves) = report_share-Raises share issues single in
        let (last, e', single'', all_raise, leaves') =
          report_shares-Raises shares middle distinct single' in
        (
          last,
          report_shares_step share shares issues middle e ∙ e',
          single'',
          (Raises-Leaves shares middle last share leaves' once raises, all_raise),
          λ code other h.
              leaves' code other (ground (arith, h)) ∙ leaves code other (ground (arith, h)),
        )
