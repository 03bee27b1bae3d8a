-- ===== src/Queue/Rows.antt =====
-- The rows of the table `data_operation` (models.py), its constraints, and the functions of
-- operation_queue.py that enqueue, look up, claim and recover operations.
use qdii_observatory.Common.{
  ℕ, String, Bool, true, false, not, ◌&&◌, ◌||◌, Option, none, some, List, [], ◌∷◌, leb, str_eq,
  same_id, if◌then◌else◌, length, filterb, update_where, anyb, max_by,
}

-- CHECK operation_allowed
pub data Operation : Type 0 where
  prepare sync_daily sync_sales_limits sync_reports parse_reports : Operation

-- CHECK status_allowed
pub data Status : Type 0 where
  queued running succeeded partial failed : Status

-- The names of the stages.
pub data Stage : Type 0 where
  daily limits reports parse : Stage

-- What is written to `error_message`: the text of `recover_interrupted_operations`, or the
-- exception that ended a stage.
pub data ErrorMessage : Type 0 where
  worker_restarted : ErrorMessage
  no_report_period : ErrorMessage
  disappeared : ℕ → ErrorMessage
  stage_error : String → ErrorMessage

-- Dates and times are numbers, in the order of time.
pub record DataOperation : Type 0 where
  pub id : ℕ
  pub operation : Operation
  pub status : Status
  pub active_slot : Option ℕ
  pub fund_codes : List String
  pub lookback_days : ℕ
  pub report_year : Option ℕ
  pub report_quarter : Option ℕ
  pub current_stage : Option Stage
  pub stage_completed : ℕ
  pub stage_total : ℕ
  pub run_ids : List ℕ
  pub records_written : ℕ
  pub records_failed : ℕ
  pub recurring_orders_created : ℕ
  pub recurring_orders_settled : ℕ
  pub recurring_executions_written : ℕ
  pub recurring_positions_updated : ℕ
  pub recurring_latest_nav_date : Option ℕ
  pub started_at : Option ℕ
  pub finished_at : Option ℕ
  pub error_message : Option ErrorMessage

abbrev pub Table : Type 0
Table = List DataOperation

-- CHECK active_slot_matches_status
unfoldable pub slot_matches_status : Status → Option ℕ → Bool
slot_matches_status queued slot = same_id slot (some 1)
slot_matches_status running slot = same_id slot (some 1)
slot_matches_status succeeded slot = same_id slot none
slot_matches_status partial slot = same_id slot none
slot_matches_status failed slot = same_id slot none

-- CHECK report_quarter_range
unfoldable pub quarter_in_range : Option ℕ → Bool
quarter_in_range none = true
quarter_in_range (some q) = leb 1 q && leb q 4

-- The CHECK constraints of a row.
unfoldable pub check_row : DataOperation → Bool
unfolding slot_matches_status quarter_in_range
check_row row =
    slot_matches_status row.status row.active_slot
    && (leb 1 row.lookback_days && leb row.lookback_days 100)
    && quarter_in_range row.report_quarter
    && (leb 1 row.stage_total && leb row.stage_completed row.stage_total)

abbrev pub holds_slot : DataOperation → Bool
holds_slot row = same_id row.active_slot (some 1)

abbrev pub has_status : Status → DataOperation → Bool
has_status queued row = elim row.status [ queued ↦ true | _ ↦ false ]
has_status running row = elim row.status [ running ↦ true | _ ↦ false ]
has_status succeeded row = elim row.status [ succeeded ↦ true | _ ↦ false ]
has_status partial row = elim row.status [ partial ↦ true | _ ↦ false ]
has_status failed row = elim row.status [ failed ↦ true | _ ↦ false ]

-- The keys of STAGE_TOTALS; any other name is a KeyError.
unfoldable pub operation_named : String → Option Operation
operation_named name =
    if str_eq name "prepare"
    then some prepare
    else if str_eq name "sync-daily"
    then some sync_daily
    else if str_eq name "sync-sales-limits"
    then some sync_sales_limits
    else if str_eq name "sync-reports"
    then some sync_reports
    else if str_eq name "parse-reports"
    then some parse_reports
    else none

unfoldable pub stage_totals : Operation → ℕ
stage_totals prepare = 3
stage_totals sync_daily = 1
stage_totals sync_sales_limits = 1
stage_totals sync_reports = 1
stage_totals parse_reports = 1

-- The arguments of `enqueue_operation`.
pub record Request : Type 0 where
  pub operation : String
  pub fund_codes : List String
  pub lookback_days : ℕ
  pub report_year : ℕ
  pub report_quarter : ℕ

-- How `enqueue_operation` ends.
pub data Enqueued : Type 0 where
  created : DataOperation → Enqueued
  in_progress : ℕ → Operation → Status → Enqueued
  integrity_error : Enqueued
  key_error : Enqueued

-- The row that `enqueue_operation` adds. Its id is drawn by the database.
unfoldable pub new_row : ℕ → Operation → Request → DataOperation
unfolding stage_totals
new_row id operation request = record {
  id = id;
  operation = operation;
  status = queued;
  active_slot = some 1;
  fund_codes = request.fund_codes;
  lookback_days = request.lookback_days;
  report_year = some request.report_year;
  report_quarter = some request.report_quarter;
  current_stage = none;
  stage_completed = 0;
  stage_total = stage_totals operation;
  run_ids = [];
  records_written = 0;
  records_failed = 0;
  recurring_orders_created = 0;
  recurring_orders_settled = 0;
  recurring_executions_written = 0;
  recurring_positions_updated = 0;
  recurring_latest_nav_date = none;
  started_at = none;
  finished_at = none;
  error_message = none;
}

-- `except IntegrityError`: the session is rolled back, and the latest active row is reported.
unfoldable pub refused : Table → Enqueued
unfolding max_by
refused table = elim (max_by (λ row. row.id) (filterb holds_slot table)) [
  | some row ↦ in_progress row.id row.operation row.status
  | none ↦ integrity_error
]

-- The commit checks UNIQUE(active_slot) and the CHECK constraints.
unfoldable pub insert_row : DataOperation → Table → Enqueued × Table
unfolding refused check_row
insert_row row table =
    if anyb holds_slot table || not (check_row row)
    then (refused table, table)
    else (created row, row ∷ table)

unfoldable pub enqueue_operation : ℕ → Request → Table → Enqueued × Table
unfolding operation_named new_row insert_row
enqueue_operation id request table = elim (operation_named request.operation) [
  | none ↦ (key_error, table)
  | some operation ↦ insert_row (new_row id operation request) table
]

unfoldable pub latest_operation : Table → Option DataOperation
unfolding max_by
latest_operation table = max_by (λ row. row.id) table

unfoldable pub fail_interrupted : ℕ → DataOperation → DataOperation
fail_interrupted now row = record row {
  status = failed;
  active_slot = none;
  finished_at = some now;
  error_message = some worker_restarted;
}

unfoldable pub recover_interrupted_operations : ℕ → Table → ℕ × Table
unfolding fail_interrupted
recover_interrupted_operations now table = (
  length (filterb (has_status running) table),
  update_where (has_status running) (fail_interrupted now) table,
)
