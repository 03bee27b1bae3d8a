-- ===== src/Queue/Stages.antt =====
-- Claiming an operation and running its stages (operation_queue.py), and the worker's round
-- (operation_worker.py). What a stage does outside of the table is a parameter: `Tasks` stands
-- for the four functions of data_operations.py that the stages call.
use qdii_observatory.Common.{
  ℕ, ◌+◌, String, Bool, true, false, Option, none, some, List, [], ◌∷◌, ◌++◌, map, ◌==◌,
  if◌then◌else◌, filterb, first, allb, min_by, update_first,
}
use qdii_observatory.Queue.Rows.{
  Operation, prepare, sync_daily, sync_sales_limits, sync_reports, parse_reports, Status, running,
  queued, succeeded, partial, failed, Stage, daily, limits, reports, parse, ErrorMessage,
  no_report_period, disappeared, DataOperation, Table, has_status,
}

-- The columns of an `IngestionRun` that are added up.
pub record Run : Type 0 where
  pub id : ℕ
  pub records_written : ℕ
  pub records_failed : ℕ

-- `DataOperationResult` of data_operations.py. Its status is one of the three that
-- `_combined_status` and `finish_run` write.
pub record DataOperationResult : Type 0 where
  pub status : Status
  pub runs : List Run
  pub recurring_orders_created : ℕ
  pub recurring_orders_settled : ℕ
  pub recurring_executions_written : ℕ
  pub recurring_positions_updated : ℕ
  pub recurring_latest_nav_date : Option ℕ

-- A value, or the exception that was raised.
pub data Result (A : Type 0) : Type 0 where
  ok : A → Result A
  raised : ErrorMessage → Result A

pub record Tasks : Type 0 where
  pub sync_daily_data : List String → ℕ → Result DataOperationResult
  pub sync_sales_limits_data : List String → Result DataOperationResult
  pub sync_reports_data : List String → ℕ → ℕ → Result DataOperationResult
  pub parse_reports_data : List String → ℕ → ℕ → Result DataOperationResult

abbrev pub has_id : ℕ → DataOperation → Bool
has_id id row = row.id == id

unfoldable pub stages : Operation → List Stage
stages prepare = daily ∷ reports ∷ parse ∷ []
stages sync_daily = daily ∷ []
stages sync_sales_limits = limits ∷ []
stages sync_reports = reports ∷ []
stages parse_reports = parse ∷ []

-- `_stages(item.operation)[0][0]`
unfoldable pub first_stage : Operation → Stage
first_stage prepare = daily
first_stage sync_daily = daily
first_stage sync_sales_limits = limits
first_stage sync_reports = reports
first_stage parse_reports = parse

unfoldable pub claim_row : ℕ → DataOperation → DataOperation
unfolding first_stage
claim_row now row = record row {
  status = running;
  started_at = some now;
  current_stage = some (first_stage row.operation);
}

-- Of the queued rows the least id. With one worker no row is locked by another session, so that
-- `skip_locked` passes over none.
unfoldable pub claim_next_operation : ℕ → Table → Option ℕ × Table
unfolding min_by claim_row
claim_next_operation now table = elim (min_by (λ row. row.id) (filterb (has_status queued) table)) [
  | none ↦ (none, table)
  | some item ↦ (some item.id, update_first (has_id item.id) (claim_row now) table)
]

-- `_required_period`
unfoldable pub with_period :
    (ℕ → ℕ → Result DataOperationResult) → Option ℕ → Option ℕ → Result DataOperationResult
with_period task (some year) (some quarter) = task year quarter
with_period task none quarter = raised no_report_period
with_period task (some year) none = raised no_report_period

-- `_execute_daily`, `_execute_limits`, `_execute_reports` and `_execute_parse`
unfoldable pub execute_stage : Tasks → Stage → DataOperation → Result DataOperationResult
unfolding with_period
execute_stage tasks daily item = tasks.sync_daily_data item.fund_codes item.lookback_days
execute_stage tasks limits item = tasks.sync_sales_limits_data item.fund_codes
execute_stage tasks reports item =
    with_period (tasks.sync_reports_data item.fund_codes) item.report_year item.report_quarter
execute_stage tasks parse item =
    with_period (tasks.parse_reports_data item.fund_codes) item.report_year item.report_quarter

abbrev pub total : (Run → ℕ) → List Run → ℕ
total field [] = 0
total field (run ∷ runs) = field run + total field runs

abbrev pub newer : Option ℕ → Option ℕ → Option ℕ
newer none old = old
newer (some date) old = some date

-- The assignments before and after a stage.
unfoldable pub begin_stage : Stage → DataOperation → DataOperation
begin_stage stage row = record row { current_stage = some stage }

unfoldable pub end_stage : ℕ → DataOperationResult → DataOperation → DataOperation
end_stage index result row = record row {
  stage_completed = index;
  run_ids = row.run_ids ++ map (λ run. run.id) result.runs;
  records_written = row.records_written + total (λ run. run.records_written) result.runs;
  records_failed = row.records_failed + total (λ run. run.records_failed) result.runs;
  recurring_orders_created = row.recurring_orders_created + result.recurring_orders_created;
  recurring_orders_settled = row.recurring_orders_settled + result.recurring_orders_settled;
  recurring_executions_written =
      row.recurring_executions_written + result.recurring_executions_written;
  recurring_positions_updated =
      row.recurring_positions_updated + result.recurring_positions_updated;
  recurring_latest_nav_date = newer result.recurring_latest_nav_date row.recurring_latest_nav_date;
}

unfoldable pub fail_row : ℕ → ErrorMessage → DataOperation → DataOperation
fail_row now error row = record row {
  status = failed;
  active_slot = none;
  current_stage = none;
  finished_at = some now;
  error_message = some error;
}

abbrev pub is_succeeded : DataOperationResult → Bool
is_succeeded result = elim result.status [ succeeded ↦ true | _ ↦ false ]

abbrev pub is_failed : DataOperationResult → Bool
is_failed result = elim result.status [ failed ↦ true | _ ↦ false ]

-- `_combined_result_status`: the set of the statuses is {"succeeded"}, or {"failed"}, or another.
unfoldable pub combined_status : List DataOperationResult → Status
combined_status [] = partial
combined_status (r ∷ rs) =
    if allb is_succeeded (r ∷ rs)
    then succeeded
    else if allb is_failed (r ∷ rs)
    then failed
    else partial

unfoldable pub complete_row : ℕ → List DataOperationResult → DataOperation → DataOperation
unfolding combined_status
complete_row now results row = record row {
  status = combined_status results;
  active_slot = none;
  current_stage = none;
  finished_at = some now;
}

-- The loop over `enumerate(_stages(…), start=1)`, inside its `try`. Each commit is in the table
-- that comes back; what an exception leaves uncommitted is rolled back.
unfoldable pub run_stages :
    Tasks
    → ℕ
    → ℕ
    → List Stage
    → List DataOperationResult
    → Table
    → Result (List DataOperationResult) × Table
unfolding begin_stage end_stage
run_stages tasks id index [] results table = (ok results, table)
run_stages tasks id index (stage ∷ rest) results table = elim (first (has_id id) table) [
  | none ↦ (raised (disappeared id), table)
  | some row ↦
      let begun = update_first (has_id id) (begin_stage stage) table in
      elim (execute_stage tasks stage (begin_stage stage row)) [
        | raised error ↦ (raised error, begun)
        | ok result ↦
            run_stages tasks id (index + 1) rest (results ++ result ∷ [])
              (update_first (has_id id) (end_stage index result) begun)
      ]
]

-- What follows the loop: the `except` block, or the completion.
unfoldable pub finish_operation : ℕ → ℕ → Result (List DataOperationResult) → Table → Table
unfolding fail_row complete_row
finish_operation id now (raised error) table = update_first (has_id id) (fail_row now error) table
finish_operation id now (ok results) table =
    update_first (has_id id) (complete_row now results) table

-- `none` is the RuntimeError for an operation that is not running. Otherwise the row is the one
-- that is returned.
unfoldable pub execute_operation : Tasks → ℕ → ℕ → Table → Option DataOperation × Table
unfolding run_stages finish_operation stages
execute_operation tasks id now table = elim (first (has_id id) table) [
  | none ↦ (none, table)
  | some item ↦
      if has_status running item
      then (let (outcome, ran) = run_stages tasks id 1 (stages item.operation) [] table in
          let finished = finish_operation id now outcome ran in
          (first (has_id id) finished, finished))
      else (none, table)
]

-- One round of the worker: true if there was an operation to run.
unfoldable pub run_once : Tasks → ℕ → ℕ → Table → Bool × Table
unfolding claim_next_operation execute_operation
run_once tasks started finished table =
    let (claimed, table') = claim_next_operation started table in
    elim claimed [
      | none ↦ (false, table')
      | some id ↦ (true, (execute_operation tasks id finished table').1)
    ]
