-- ===== src/Ingestion/Limits/Sync.antt =====
-- `sync_purchase_limits` of ingestion/limit_pipeline.py. What the providers and `archive_bytes` do
-- is a parameter. A rollback leaves the tables of the last commit.
use mathlib.Core.Option
use qdii_observatory.Common.{
  ℕ, ◌+◌, String, Bool, ◌&&◌, Option, none, some, List, [], ◌∷◌, ◌++◌, map, ◌⊎◌, inl, inr, ◌==◌,
  memb, str_eq, if◌then◌else◌, length, filterb, anyb, max_by,
}
use qdii_observatory.Ingestion.Issues.{
  IngestionRun, DataQualityIssue, Report, start_run, finish_run,
}
use qdii_observatory.Ingestion.Alarms.{record_or_resolve}
use qdii_observatory.Common.Outcomes.{thrown, done}
use qdii_observatory.Ingestion.Limits.Schema.{PurchaseLimitSnapshot, DailyPurchaseLimit}
use qdii_observatory.Ingestion.Limits.Store.{
  SnapshotError, SharesByCode, Archived, Tables, store_snapshot,
}
use qdii_observatory.Ingestion.Limits.Audit.{
  FundShare, Texts, report_on, some_of, audit_share_coverage,
}

-- The shares of a fund are in the order of their codes.
pub record FundContract : Type 0 where
  pub id : ℕ
  pub representative_code : String
  pub is_user_selected : Bool
  pub shares : List FundShare

pub data Raised : Type 0 where
  fetch_failed : String → Raised
  store_failed : SnapshotError → Raised

-- An entry of `failures_by_share`, with the id of the share.
pub record Failure : Type 0 where
  pub share_id : ℕ
  pub provider : String
  pub error : Raised

-- The code that the synchronisation calls. A fetch raises an error with a text, or returns a
-- snapshot; `archive` is `archive_bytes` of its payload under a key, which raises an error with a
-- text, or returns what it has archived.
pub record Calls : Type 0 where
  pub direct_name : String
  pub distribution_name : String
  pub fetch_direct : String → List FundShare → String ⊎ PurchaseLimitSnapshot
  pub fetch_distribution : String → String ⊎ PurchaseLimitSnapshot
  pub archive : String → PurchaseLimitSnapshot → String ⊎ Archived
  pub artifact_id : Tables → ℕ
  pub issue_ids : List DataQualityIssue → ℕ
  pub check_texts : DailyPurchaseLimit → Bool
  pub texts : Texts
  pub failed_details : List Failure → String
  pub parameters : String

-- The tables and the local variables of the loops over the providers.
pub record Progress : Type 0 where
  pub tables : Tables
  pub failures : List Failure
  pub written : ℕ
  pub failed_calls : ℕ

abbrev pub codes_of : List FundShare → SharesByCode
codes_of shares = map (λ (share : FundShare). (share.share_code, share.id)) shares

abbrev pub all_shares : List FundContract → List FundShare
all_shares [] = []
all_shares (fund ∷ funds) = fund.shares ++ all_shares funds

-- `funds`, in the order of their codes: the selected ones, of the given codes if there are any.
unfoldable pub selected_funds : Option (List String) → List FundContract → List FundContract
selected_funds none funds = filterb (λ fund. fund.is_user_selected) funds
selected_funds (some codes) funds =
    filterb
      (λ fund. fund.is_user_selected && anyb (λ code. str_eq code fund.representative_code) codes)
      funds

module _ (calls : Calls) (run_id : ℕ) where
  -- The body of a `try`: what it raises, or the records written and the tables committed.
  unfoldable pub store_fetched :
      ℕ
      → List FundShare
      → String
      → Option ℕ
      → String ⊎ PurchaseLimitSnapshot
      → Tables
      → Raised ⊎ (ℕ × Tables)
  unfolding store_snapshot
  store_fetched contract_id shares key artifact_share (inl text) tables = inl (fetch_failed text)
  store_fetched contract_id shares key artifact_share (inr snapshot) tables =
      elim (store_snapshot calls.check_texts (codes_of shares) (calls.artifact_id tables) run_id
        contract_id artifact_share snapshot (calls.archive key snapshot) tables) [
          | done stored ↦ inr stored
          | thrown error ↦ inl (store_failed error)
        ]

  -- The rest of the round: the `except` clause for the shares, or the sum of the records written.
  unfoldable pub end_call : String → List FundShare → Progress → Raised ⊎ (ℕ × Tables) → Progress
  end_call provider shares progress (inl error) = record progress {
    failures =
        progress.failures
        ++ map
            (λ (share : FundShare). record {
              share_id = share.id;
              provider = provider;
              error = error;
            })
            shares;
    failed_calls = progress.failed_calls + 1;
  }
  end_call provider shares progress (inr (written, tables)) = record progress {
    tables = tables;
    written = progress.written + written;
  }

  unfoldable pub direct_rounds : List FundContract → Progress → Progress
  unfolding store_fetched end_call
  direct_rounds [] progress = progress
  direct_rounds (fund ∷ funds) progress = direct_rounds funds (
      end_call calls.direct_name fund.shares progress (
        store_fetched fund.id fund.shares fund.representative_code none
          (calls.fetch_direct fund.representative_code fund.shares) progress.tables))

  unfoldable pub distribution_rounds : List FundShare → Progress → Progress
  unfolding store_fetched end_call
  distribution_rounds [] progress = progress
  distribution_rounds (share ∷ shares) progress = distribution_rounds shares (
      end_call calls.distribution_name (share ∷ []) progress (
        store_fetched share.fund_contract_id (share ∷ []) share.share_code (some share.id)
          (calls.fetch_distribution share.share_code) progress.tables))

  unfoldable pub fetch_all : List FundContract → Tables → Progress
  unfolding direct_rounds distribution_rounds
  fetch_all funds tables = distribution_rounds (all_shares funds) (
      direct_rounds funds
        (record { tables = tables; failures = []; written = 0; failed_calls = 0 }))

  abbrev pub failures_of : FundShare → List Failure → List Failure
  failures_of share failures = filterb (λ failure. failure.share_id == share.id) failures

  abbrev pub report_failed : ℕ → FundShare → List Failure → Report
  report_failed now share failures =
      report_on calls.texts calls.issue_ids now run_id share "SALES_LIMIT_SYNC_FAILED" "ERROR"
        (calls.failed_details failures)

  -- The body of the last loop. `none` is an error of the database.
  unfoldable pub report_share :
      ℕ
      → Option ℕ
      → List DailyPurchaseLimit
      → List Failure
      → FundShare
      → List DataQualityIssue
      → Option (List DataQualityIssue)
  unfolding record_or_resolve audit_share_coverage
  report_share now date limits failures share issues =
      elim (record_or_resolve calls.issue_ids now (some_of (failures_of share failures))
        (report_failed now share (failures_of share failures)) issues) [
          | none ↦ none
          | some issues ↦
              audit_share_coverage calls.texts calls.issue_ids now run_id share date limits issues
        ]

  unfoldable pub report_shares :
      ℕ
      → Option ℕ
      → List DailyPurchaseLimit
      → List Failure
      → List FundShare
      → List DataQualityIssue
      → Option (List DataQualityIssue)
  unfolding report_share
  report_shares now date limits failures [] issues = some issues
  report_shares now date limits failures (share ∷ shares) issues =
      elim (report_share now date limits failures share issues) [
        | none ↦ none
        | some issues ↦ report_shares now date limits failures shares issues
      ]

-- The latest date of the limits of the shares.
unfoldable pub latest_snapshot_date : List FundShare → List DailyPurchaseLimit → Option ℕ
unfolding max_by
latest_snapshot_date shares limits =
    Option.map (λ (row : DailyPurchaseLimit). row.snapshot_date)
      (max_by (λ row. row.snapshot_date)
        (filterb (λ row. memb row.fund_share_id (map (λ (s : FundShare). s.id) shares)) limits))

unfoldable pub sync_purchase_limits :
    Calls
    → ℕ
    → ℕ
    → Option (List String)
    → List FundContract
    → List IngestionRun
    → Tables
    → List DataQualityIssue
    → Option (IngestionRun × Tables × List DataQualityIssue)
unfolding start_run finish_run selected_funds fetch_all latest_snapshot_date report_shares
sync_purchase_limits calls run_id now codes all_funds runs tables issues =
    let (run, runs) = start_run run_id "sync_sales_limits" calls.parameters runs in
    let funds = selected_funds codes all_funds in
    let shares = all_shares funds in
    let progress = fetch_all calls run.id funds tables in
    let date = latest_snapshot_date shares progress.tables.limits in
    elim (report_shares calls run.id now date progress.tables.limits progress.failures shares
      issues) [
        | none ↦ none
        | some issues ↦ some (
          finish_run now (if progress.failed_calls == 0 then "succeeded" else "partial")
              (length funds + length shares) progress.written progress.failed_calls none run,
          progress.tables,
          issues,
        )
      ]
