-- ===== src/Ingestion/Limits/Synced.antt =====
-- `sync_purchase_limits` as a whole: it always ends, and what it leaves.
use qdii_observatory.Common.{
  ℕ, ◌+◌, ◌≡◌, refl, ap, ◌∙◌, String, Option, none, some, List, ◌==◌, if◌then◌else◌, length, All,
  anyb, filterb,
}
use qdii_observatory.Common.Rows.{All-mono}
use qdii_observatory.Ingestion.Issues.{IngestionRun, DataQualityIssue, start_run, finish_run}
use qdii_observatory.Ingestion.OpenIssues.{IsSingle}
use qdii_observatory.Ingestion.Alarms.{Fresh}
use qdii_observatory.Ingestion.Limits.Store.{Tables}
use qdii_observatory.Ingestion.Limits.Audit.{
  FundShare, some_of, audited_rows, is_incomplete, is_ambiguous,
}
use qdii_observatory.Ingestion.Limits.Sync.{
  FundContract, Calls, Progress, all_shares, selected_funds, fetch_all, report_shares,
  latest_snapshot_date, sync_purchase_limits,
}
use qdii_observatory.Ingestion.Limits.Rounds.{IsDistinct, open_for, Raises, report_shares-Raises}
use qdii_observatory.Ingestion.Limits.Trace.{Call, is_about, planned, Trace}
use qdii_observatory.Ingestion.Limits.Fetches.{Fetches, fetch_all-Fetches}
use qdii_observatory.Ingestion.Limits.Schema.{DailyPurchaseLimit}
use qdii_observatory.Ingestion.Limits.Invariant.{IsValid, fetch_all-Holds}

module _ (calls : Calls) (run_id now : ℕ) (codes : Option (List String))
    (all_funds : List FundContract) (runs : List IngestionRun) (tables : Tables)
    (issues : List DataQualityIssue) where
  abbrev funds : List FundContract
  funds = selected_funds codes all_funds

  abbrev fetched : Progress
  fetched = fetch_all calls run_id funds tables

  abbrev date : Option ℕ
  date = latest_snapshot_date (all_shares funds) fetched.tables.limits

  -- The issues of a share: one of a failed call just if a call about it has raised, and the other two
  -- as the limits in the tables give cause.
  pub record Reports (raised : List Call) (limits : List DailyPurchaseLimit)
      (issues' : List DataQualityIssue) (share : FundShare) : Type 0 where
    pub failed :
        open_for "SALES_LIMIT_SYNC_FAILED" share issues'
        ≡ (if anyb (is_about share.id) raised then 1 else 0)
    pub incomplete : open_for "SALES_LIMIT_COVERAGE_INCOMPLETE" share issues' ≡ (
        if is_incomplete
          (audited_rows share (latest_snapshot_date (all_shares funds) limits) limits)
        then 1
        else 0)
    pub ambiguous : open_for "SALES_LIMIT_CHANNEL_SCOPE_AMBIGUOUS" share issues' ≡ (
        if some_of (
          filterb is_ambiguous
            (audited_rows share (latest_snapshot_date (all_shares funds) limits) limits))
        then 1
        else 0)

  -- What the synchronisation leaves: `run` is the row of the run, and `raised` are the calls that
  -- raised.
  pub record Synced (run : IngestionRun) (tables' : Tables) (issues' : List DataQualityIssue)
      : Type 0 where
    pub raised : List Call
    pub trace :
        Trace calls run_id (planned calls run_id funds) tables raised run.records_written tables'
    pub counted : run.records_failed ≡ length raised
    pub status : run.status ≡ (if length raised == 0 then "succeeded" else "partial")
    pub finished : run.finished_at ≡ some now
    pub valid : IsValid calls.check_texts tables'
    pub single : IsSingle issues'
    pub reports : All (Reports raised tables'.limits issues') (all_shares funds)

  abbrev finished_run : IngestionRun
  unfolding finish_run start_run
  finished_run =
      finish_run now (if fetched.failed_calls == 0 then "succeeded" else "partial")
        (length funds + length (all_shares funds)) fetched.written fetched.failed_calls none
        (start_run run_id "sync_sales_limits" calls.parameters runs).0

  sync_purchase_limits_ends :
      (issues' : List DataQualityIssue)
      → report_shares calls run_id now date fetched.tables.limits fetched.failures
          (all_shares funds)
          issues
        ≡ some issues'
      → sync_purchase_limits calls run_id now codes all_funds runs tables issues
        ≡ some (finished_run, fetched.tables, issues')
  unfolding sync_purchase_limits finished_run
  sync_purchase_limits_ends issues' e =
      ap (λ o. elim o [ none ↦ none | some issues ↦ some (finished_run, fetched.tables, issues) ]) e

  Raises-Reports :
      (fetches : Fetches calls run_id funds tables fetched) (issues' : List DataQualityIssue)
      (share : FundShare)
      → Raises calls run_id now date fetched.tables.limits fetched.failures issues' share
      → Reports fetches.raised fetched.tables.limits issues' share
  Raises-Reports fetches issues' share r = record {
    failed = r.failed ∙ ap (λ b. if◌then◌else◌ {A = ℕ} b 1 0) (fetches.failures share);
    incomplete = r.incomplete;
    ambiguous = r.ambiguous;
  }

  -- Where the ids that the database draws are new, those of the shares are distinct, the tables meet
  -- their constraints, and at most one issue is open for a code and a context: whatever the
  -- providers and the archive return or raise, the synchronisation ends without an error. It has
  -- made the calls of the direct channel for each selected fund and then those of the distribution
  -- channel for each share, one after the other; a call has raised just if its provider raised or
  -- the storing of its snapshot did, and has left the tables then, and stored its snapshot in them
  -- otherwise. The run counts the calls that raised and the records that the others wrote; it has
  -- succeeded if none raised and is partial otherwise. The tables meet their constraints and at most
  -- one issue is open for a code and a context; for every share of the selected funds, an issue of a
  -- failed call is open just if a call about the share raised, and those of an incomplete coverage
  -- and of an ambiguous scope just if the limits of the latest date give cause.
  pub sync_purchase_limits-Synced :
      Fresh calls.issue_ids
      → IsDistinct (all_shares funds)
      → IsValid calls.check_texts tables
      → IsSingle issues
      → (run : IngestionRun) × (tables' : Tables) × (issues' : List DataQualityIssue)
        × (sync_purchase_limits calls run_id now codes all_funds runs tables issues
            ≡ some (run, tables', issues'))
        × Synced run tables' issues'
  unfolding finished_run
  sync_purchase_limits-Synced fresh distinct valid single =
      let holds = fetch_all-Holds calls run_id funds tables distinct valid in
      let fetches = fetch_all-Fetches calls run_id funds tables in
      let (issues', e, single', raises, _) =
        report_shares-Raises calls run_id now date fetched.tables.limits fetched.failures fresh
          (all_shares funds) issues distinct single in
      (
        finished_run,
        fetched.tables,
        issues',
        sync_purchase_limits_ends issues' e,
        record {
          raised = fetches.raised;
          trace = fetches.trace;
          counted = fetches.failed_calls;
          status =
              ap (λ n. if◌then◌else◌ {A = String} (n == 0) "succeeded" "partial")
                fetches.failed_calls;
          finished = refl;
          valid = holds.valid;
          single = single';
          reports = All-mono (all_shares funds) (Raises-Reports fetches issues') raises;
        },
      )
