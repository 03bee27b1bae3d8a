-- ===== src/Lib.antt =====
-- QDII Observatory: the back end of a local research and portfolio tool for Chinese QDII funds.
--
-- A user's request enters the durable queue of backend/app/operation_queue.py; one worker
-- (backend/app/operation_worker.py) claims it and runs its stages, which call
-- backend/app/data_operations.py. The daily stage creates and settles the recurring purchases of
-- backend/app/portfolio_recurring.py on the tables of backend/app/models.py.
--
-- The daily analysis of backend/app/q2_analysis aligns market returns with the dates of NAVs
-- (alignment.py), predicts a fund's return from the holdings of its report (predictor.py), and judges
-- the residuals of the predictions (consistency.py).
--
-- Common: shared names. Common.Tests has Boolean tests, Common.Lists the selections and updates of
-- rows that stand for SQL statements, Common.Rows their laws, and Common.Decimal Python's Decimal
-- with 28 digits: coefficient, scale and sign, with the rounding of quotients and of quantize.
--
-- Queue: operation_queue.py, operation_worker.py and the table data_operation. Queue.Rows has the
-- row, its CHECK and UNIQUE constraints, and enqueue_operation, latest_operation and
-- recover_interrupted_operations under their names; Queue.Stages has claim_next_operation,
-- execute_operation (the loop over the stages is run_stages, the two ends are fail_row and
-- complete_row) and run_once. A table is the list of its committed rows. There is one worker and no
-- other session locks a row, so that the skip_locked of the claim passes over none. What data_operations.py
-- returns or raises is the parameter Tasks. Queue.Steps has the commits as a step relation.
--
-- Recurring: portfolio_recurring.py. Recurring.Schema has the columns it uses, Recurring.Calendar
-- _add_weekdays, Recurring.Plans create_recurring_orders, Recurring.Settlement
-- settle_recurring_plans and recurring_plans_pending. Dates are proleptic ordinals. The ids that
-- the database draws and the clock are parameters. The loop of _add_weekdays has 3 * days rounds
-- of fuel: of three days in a row one is a weekday.
--
-- Ingestion: backend/app/ingestion. Ingestion.Issues has runs.py, by which every pipeline reports and
-- closes data-quality issues; a JSON column is its text. Ingestion.Lookthrough has
-- weighted_lookthrough of lookthrough.py, whose inner visit recurs on the levels that are left,
-- max_depth - depth, so that no fuel is needed.
--
-- Ingestion.Alarms has the branch by which a pipeline records an issue while its cause lasts and
-- resolves it otherwise. Ingestion.Limits: backend/app/ingestion/limit_pipeline.py, whose functions
-- keep their names without the leading underscore; sync_purchase_limits has its two loops over
-- the providers as direct_rounds and distribution_rounds and the last one as report_shares. The
-- providers, archive_bytes and the formatted texts are the parameter Calls; an exception is a value
-- of Raised, after which the tables are those of the last commit. Ingestion.Limits.Trace has the
-- calls as a sequence of steps. The model of a payload is its
-- hash, and metadata_json of an artifact is left out.
--
-- Alignment: backend/app/q2_analysis/alignment.py. Alignment.Series has its functions; the body of the
-- loop of align_returns is align_date, with the point selected last as its state. Dates are
-- proleptic ordinals, which start at 1; the day before date.min, where Python raises
-- OverflowError, is the number 0, on or before which there is no point. Common.Digits shows that a rounded product is not zero.
--
-- Prediction: backend/app/q2_analysis/predictor.py. Prediction.Rules has its helpers (_q is quantized,
-- _contribution weighted_return, _confidence confidence_of, analysis_mode mode_of), Prediction.Weights
-- its weights and proxies, and Prediction.Days predict_day in three steps: validate_day, parts_of for
-- the contributions, and prediction_of. An exception is a value of PredictError; Common.Outcomes has
-- the do-notation, which Ingestion.Limits.Store uses as well. The numbers are
-- finite.
--
-- Consistency: backend/app/q2_analysis/consistency.py. Consistency.Rules has _status (status_of, whose
-- keyword arguments are the record Evidence), _residual_streak, _mae and _bias;
-- Consistency.Evaluation has evaluate_consistency on the predictions of Prediction.Schema, and
-- Consistency.Compounding cumulative_points.
--
-- Returns: backend/app/period_returns.py. Returns.Periods has period_boundary and
-- calculate_period_return; a date is the number yyyymmdd.
--
-- Not modelled: the other analytical modules, network clients, files and archives, HTTP routes, the
-- command line, the front end and the migrations.
pub mod Alignment
pub mod Common
pub mod Consistency
pub mod Ingestion
pub mod Prediction
pub mod Queue
pub mod Recurring
pub mod Returns
