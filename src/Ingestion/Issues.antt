-- ===== src/Ingestion/Issues.antt =====
-- ingestion/runs.py and the tables ingestion_run and data_quality_issue of models.py.
use qdii_observatory.Common.{
  ℕ, zero, suc, String, Bool, true, false, ◌&&◌, ◌||◌, Option, none, some, List, ◌∷◌, ◌==◌, str_eq,
  same_id, is_some, if◌then◌else◌, length, filterb, anyb, min_by, update_first, update_where,
}

-- The status of a run: "running" until `finish_run` sets the one of its caller.
pub record IngestionRun : Type 0 where
  pub id : ℕ
  pub job_type : String
  pub status : String
  pub parameters : String
  pub finished_at : Option ℕ
  pub records_seen : ℕ
  pub records_written : ℕ
  pub records_failed : ℕ
  pub error_message : Option String

pub data IssueStatus : Type 0 where
  opened resolved : IssueStatus

-- What an issue is about.
pub record Context : Type 0 where
  pub fund_contract_id : Option ℕ
  pub fund_report_id : Option ℕ
  pub fund_share_id : Option ℕ

-- The columns of an issue; `details` is its JSON text.
pub record DataQualityIssue : Type 0 where
  pub id : ℕ
  pub ingestion_run_id : Option ℕ
  pub context : Context
  pub issue_code : String
  pub severity : String
  pub status : IssueStatus
  pub message : String
  pub details : String
  pub detected_at : ℕ
  pub resolved_at : Option ℕ

-- The arguments of `record_issue`.
pub record Report : Type 0 where
  pub issue_code : String
  pub severity : String
  pub message : String
  pub details : String
  pub ingestion_run_id : Option ℕ
  pub context : Context

unfoldable pub start_run :
    ℕ → String → String → List IngestionRun → IngestionRun × List IngestionRun
start_run id job_type parameters runs =
    let run : IngestionRun = record {
      id = id;
      job_type = job_type;
      status = "running";
      parameters = parameters;
      finished_at = none;
      records_seen = 0;
      records_written = 0;
      records_failed = 0;
      error_message = none;
    } in
    (run, run ∷ runs)

unfoldable pub finish_run : ℕ → String → ℕ → ℕ → ℕ → Option String → IngestionRun → IngestionRun
finish_run now status seen written failed error run = record run {
  status = status;
  finished_at = some now;
  records_seen = seen;
  records_written = written;
  records_failed = failed;
  error_message = error;
}

-- In SQL, a comparison with None is IS NULL.
unfoldable pub same_context : Context → Context → Bool
same_context a b =
    same_id a.fund_contract_id b.fund_contract_id
    && same_id a.fund_report_id b.fund_report_id
    && same_id a.fund_share_id b.fund_share_id

abbrev pub is_open : DataQualityIssue → Bool
is_open issue = elim issue.status [ opened ↦ true | resolved ↦ false ]

-- The filters of `record_issue`.
unfoldable pub is_match : String → Context → DataQualityIssue → Bool
unfolding same_context
is_match code context issue =
    str_eq issue.issue_code code && is_open issue && same_context issue.context context

abbrev pub has_issue_id : ℕ → DataQualityIssue → Bool
has_issue_id id issue = issue.id == id

-- CHECK issue_has_context
unfoldable pub check_issue : DataQualityIssue → Bool
check_issue issue =
    is_some issue.context.fund_contract_id
    || is_some issue.context.fund_report_id
    || is_some issue.context.fund_share_id
    || is_some issue.ingestion_run_id

-- `ingestion_run_id or issue.ingestion_run_id`: None and 0 are false.
unfoldable pub run_or : Option ℕ → Option ℕ → Option ℕ
run_or none old = old
run_or (some zero) old = old
run_or (some (suc n)) old = some (suc n)

unfoldable pub new_issue : ℕ → ℕ → Report → DataQualityIssue
new_issue id now report = record {
  id = id;
  ingestion_run_id = report.ingestion_run_id;
  context = report.context;
  issue_code = report.issue_code;
  severity = report.severity;
  status = opened;
  message = report.message;
  details = report.details;
  detected_at = now;
  resolved_at = none;
}

unfoldable pub renew : ℕ → Report → DataQualityIssue → DataQualityIssue
unfolding run_or
renew now report issue = record issue {
  ingestion_run_id = run_or report.ingestion_run_id issue.ingestion_run_id;
  severity = report.severity;
  message = report.message;
  details = report.details;
  detected_at = now;
}

-- `id` is what the database draws for a new row, and `none` the IntegrityError of the flush.
unfoldable pub record_issue :
    ℕ → ℕ → Report → List DataQualityIssue → Option (DataQualityIssue × List DataQualityIssue)
unfolding min_by is_match new_issue renew check_issue
record_issue id now report table =
    elim (min_by (λ issue. issue.id) (filterb (is_match report.issue_code report.context) table)) [
      | none ↦
          let issue = new_issue id now report in
          if check_issue issue then some (issue, issue ∷ table) else none
      | some issue ↦
          let renewed = renew now report issue in
          if check_issue renewed
          then some (renewed, update_first (has_issue_id issue.id) (renew now report) table)
          else none
    ]

-- The condition of the query of `resolve_issues`.
unfoldable pub is_resolvable : List String → Context → DataQualityIssue → Bool
unfolding same_context
is_resolvable codes context issue =
    is_open issue
    && anyb (λ code. str_eq issue.issue_code code) codes
    && same_context issue.context context

unfoldable pub close : ℕ → DataQualityIssue → DataQualityIssue
close now issue = record issue { status = resolved; resolved_at = some now }

unfoldable pub resolve_issues :
    ℕ → List String → Context → List DataQualityIssue → ℕ × List DataQualityIssue
unfolding is_resolvable close
resolve_issues now codes context table = (
  length (filterb (is_resolvable codes context) table),
  update_where (is_resolvable codes context) (close now) table,
)
