-- ===== src/Queue/Outcomes.antt =====
-- What an executed operation records: the sums over its stages when all return, and the progress
-- that stays when one raises.
use qdii_observatory.Common.{
  ℕ, ◌+◌, ◌≡◌, refl, sym, ap, ◌∙◌, true, Option, none, some, List, [], ◌∷◌, ◌++◌, map, arith, first,
  length,
}
use mathlib.Core.List.{append_assoc, append-nil}
use native.Mathlib.Nat.{add-zero}
use qdii_observatory.Queue.Rows.{
  ErrorMessage, Stage, Status, failed, DataOperation, Table, has_status, running,
}
use qdii_observatory.Queue.Stages.{
  DataOperationResult, ok, raised, Tasks, has_id, begin_stage, end_stage, fail_row, complete_row,
  execute_stage, stages, execute_operation, combined_status, total, newer,
}
use qdii_observatory.Queue.Runs.{
  run_row, finish_row, execute_row, run_row-ok, run_row-raised, execute_operation-eq-execute_row,
}

-- The stages return these results, in order, on the arguments of the operation.
abbrev pub Returns : Tasks → DataOperation → List Stage → List DataOperationResult → Type 0
Returns tasks item [] [] = Unit
Returns tasks item [] (result ∷ results) = ⊥
Returns tasks item (stage ∷ ss) [] = ⊥
Returns tasks item (stage ∷ ss) (result ∷ results) =
    (execute_stage tasks stage item ≡ ok result) × Returns tasks item ss results

abbrev pub sum_over : (DataOperationResult → ℕ) → List DataOperationResult → ℕ
sum_over field [] = 0
sum_over field (result ∷ results) = field result + sum_over field results

abbrev pub all_run_ids : List DataOperationResult → List ℕ
all_run_ids [] = []
all_run_ids (result ∷ results) = map (λ run. run.id) result.runs ++ all_run_ids results

-- The date of the last result that has one, or else the date before.
abbrev pub last_nav_date : List DataOperationResult → Option ℕ → Option ℕ
last_nav_date [] date = date
last_nav_date (result ∷ results) date =
    last_nav_date results (newer result.recurring_latest_nav_date date)

-- The row after stages that returned, the first of them being number `index`.
unfoldable pub advance : ℕ → List Stage → List DataOperationResult → DataOperation → DataOperation
advance index [] results row = row
advance index (stage ∷ ss) [] row = row
advance index (stage ∷ ss) (result ∷ results) row =
    advance (index + 1) ss results (end_stage index result (begin_stage stage row))

-- The arguments of a stage are not changed by the stages before it.
execute_stage-begin :
    (tasks : Tasks) (s stage : Stage) (row : DataOperation)
    → execute_stage tasks s (begin_stage stage row) ≡ execute_stage tasks s row
unfolding execute_stage begin_stage
execute_stage-begin tasks Stage.daily stage row = refl
execute_stage-begin tasks Stage.limits stage row = refl
execute_stage-begin tasks Stage.reports stage row = refl
execute_stage-begin tasks Stage.parse stage row = refl

execute_stage-end :
    (tasks : Tasks) (s : Stage) (index : ℕ) (result : DataOperationResult) (row : DataOperation)
    → execute_stage tasks s (end_stage index result row) ≡ execute_stage tasks s row
unfolding execute_stage end_stage
execute_stage-end tasks Stage.daily index result row = refl
execute_stage-end tasks Stage.limits index result row = refl
execute_stage-end tasks Stage.reports index result row = refl
execute_stage-end tasks Stage.parse index result row = refl

Returns-staged :
    (tasks : Tasks) (stage : Stage) (index : ℕ) (result : DataOperationResult) (row : DataOperation)
    (ss : List Stage) (results : List DataOperationResult)
    → Returns tasks row ss results
    → Returns tasks (end_stage index result (begin_stage stage row)) ss results
Returns-staged tasks stage index result row [] [] h = tt
Returns-staged tasks stage index result row [] (r ∷ rs) h = h
Returns-staged tasks stage index result row (s ∷ ss) [] h = h
Returns-staged tasks stage index result row (s ∷ ss) (r ∷ rs) (h, hs) = (
  execute_stage-end tasks s index result (begin_stage stage row)
      ∙ execute_stage-begin tasks s stage row
      ∙ h,
  Returns-staged tasks stage index result row ss rs hs,
)

execute_stage-advance :
    (tasks : Tasks) (stage : Stage) (index : ℕ) (ss : List Stage)
    (results : List DataOperationResult) (row : DataOperation)
    → execute_stage tasks stage (advance index ss results row) ≡ execute_stage tasks stage row
unfolding advance
execute_stage-advance tasks stage index [] results row = refl
execute_stage-advance tasks stage index (s ∷ ss) [] row = refl
execute_stage-advance tasks stage index (s ∷ ss) (r ∷ rs) row =
    execute_stage-advance tasks stage (index + 1) ss rs (end_stage index r (begin_stage s row))
    ∙ execute_stage-end tasks stage index r (begin_stage s row)
    ∙ execute_stage-begin tasks stage s row

-- The rest of a list of stages runs from the row as far as it has come.
run_row-append :
    (tasks : Tasks) (index : ℕ) (done rest : List Stage) (results acc : List DataOperationResult)
    (row : DataOperation)
    → Returns tasks row done results
    → run_row tasks index (done ++ rest) acc row
      ≡ run_row tasks
          (index + length results)
          rest
          (acc ++ results)
          (advance index done results row)
run_row-append tasks index [] rest [] acc row h =
    unfold advance in rw (append-nil acc, add-zero index)
run_row-append tasks index [] rest (r ∷ rs) acc row h = absurd h
run_row-append tasks index (s ∷ ss) rest [] acc row h = absurd h
run_row-append tasks index (s ∷ ss) rest (r ∷ rs) acc row (h, hs) =
    run_row-ok tasks index s (ss ++ rest) acc row r (execute_stage-begin tasks s s row ∙ h)
    ∙ run_row-append tasks (index + 1) ss rest rs (acc ++ r ∷ [])
        (end_stage index r (begin_stage s row)) (Returns-staged tasks s index r row ss rs hs)
    ∙ (unfold advance in rw (append_assoc acc (r ∷ []) rs, shift))
  where
    shift : index + 1 + length rs ≡ index + length (r ∷ rs)
    shift = omega arith

-- What the stages have recorded.
pub record Recorded (results : List DataOperationResult) (before after : DataOperation)
    : Type 0 where
  pub stage_completed : after.stage_completed ≡ before.stage_completed + length results
  pub run_ids : after.run_ids ≡ before.run_ids ++ all_run_ids results
  pub records_written :
      after.records_written
      ≡ before.records_written + sum_over (λ r. total (λ run. run.records_written) r.runs) results
  pub records_failed :
      after.records_failed
      ≡ before.records_failed + sum_over (λ r. total (λ run. run.records_failed) r.runs) results
  pub orders_created :
      after.recurring_orders_created
      ≡ before.recurring_orders_created + sum_over (λ r. r.recurring_orders_created) results
  pub orders_settled :
      after.recurring_orders_settled
      ≡ before.recurring_orders_settled + sum_over (λ r. r.recurring_orders_settled) results
  pub executions_written :
      after.recurring_executions_written
      ≡ before.recurring_executions_written + sum_over (λ r. r.recurring_executions_written) results
  pub positions_updated :
      after.recurring_positions_updated
      ≡ before.recurring_positions_updated + sum_over (λ r. r.recurring_positions_updated) results
  pub latest_nav_date :
      after.recurring_latest_nav_date ≡ last_nav_date results before.recurring_latest_nav_date

advance-Recorded :
    (tasks : Tasks) (item : DataOperation) (index : ℕ) (ss : List Stage)
    (results : List DataOperationResult) (row : DataOperation)
    → Returns tasks item ss results
    → row.stage_completed + 1 ≡ index
    → Recorded results row (advance index ss results row)
unfolding advance begin_stage end_stage
advance-Recorded tasks item index [] [] row h e = record {
  stage_completed = omega arith;
  run_ids = sym (append-nil row.run_ids);
  records_written = omega arith;
  records_failed = omega arith;
  orders_created = omega arith;
  orders_settled = omega arith;
  executions_written = omega arith;
  positions_updated = omega arith;
  latest_nav_date = refl;
}
advance-Recorded tasks item index [] (r ∷ rs) row h e = absurd h
advance-Recorded tasks item index (s ∷ ss) [] row h e = absurd h
advance-Recorded tasks item index (s ∷ ss) (r ∷ rs) row (h, hs) e =
    let ih =
      advance-Recorded tasks item (index + 1) ss rs (end_stage index r (begin_stage s row)) hs
        refl in
    record {
      stage_completed = omega (arith, ih.stage_completed, e);
      run_ids = ih.run_ids ∙ append_assoc row.run_ids (map (λ run. run.id) r.runs) (all_run_ids rs);
      records_written = omega (arith, ih.records_written);
      records_failed = omega (arith, ih.records_failed);
      orders_created = omega (arith, ih.orders_created);
      orders_settled = omega (arith, ih.orders_settled);
      executions_written = omega (arith, ih.executions_written);
      positions_updated = omega (arith, ih.positions_updated);
      latest_nav_date = ih.latest_nav_date;
    }

-- How an operation ended.
pub record Ended (status : Status) (message : Option ErrorMessage) (now : ℕ) (row : DataOperation)
    : Type 0 where
  pub final : row.status ≡ status
  pub released : row.active_slot ≡ none
  pub no_stage : row.current_stage ≡ none
  pub finished : row.finished_at ≡ some now
  pub error : row.error_message ≡ message

same_error :
    (index : ℕ) (ss : List Stage) (results : List DataOperationResult) (row : DataOperation)
    → (advance index ss results row).error_message ≡ row.error_message
unfolding advance begin_stage end_stage
same_error index [] results row = refl
same_error index (s ∷ ss) [] row = refl
same_error index (s ∷ ss) (r ∷ rs) row =
    same_error (index + 1) ss rs (end_stage index r (begin_stage s row))

run_row-Returns :
    (tasks : Tasks) (ss : List Stage) (results : List DataOperationResult) (item : DataOperation)
    → Returns tasks item ss results
    → run_row tasks 1 ss [] item ≡ (ok results, advance 1 ss results item)
unfolding run_row
run_row-Returns tasks ss results item h =
    rw (append-nil ss) at (run_row-append tasks 1 ss [] results [] item h)

run_row-stops :
    (tasks : Tasks) (ss : List Stage) (stage : Stage) (rest : List Stage)
    (results : List DataOperationResult) (error : ErrorMessage) (item : DataOperation)
    → Returns tasks item ss results
    → execute_stage tasks stage item ≡ raised error
    → run_row tasks 1 (ss ++ stage ∷ rest) [] item
      ≡ (raised error, begin_stage stage (advance 1 ss results item))
run_row-stops tasks ss stage rest results error item h e =
    run_row-append tasks 1 ss (stage ∷ rest) results [] item h
    ∙ run_row-raised tasks (1 + length results) stage rest results (advance 1 ss results item) error
        (execute_stage-begin tasks stage stage (advance 1 ss results item)
          ∙ execute_stage-advance tasks stage 1 ss results item
          ∙ e)

module _ (tasks : Tasks) (id now : ℕ) (t : Table) (item : DataOperation)
    (found : first (has_id id) t ≡ some item) (active : has_status running item ≡ true)
    (fresh : item.stage_completed ≡ 0) where
  returned_row :
      {row : DataOperation}
      → execute_row tasks now item ≡ row
      → (execute_operation tasks id now t).0 ≡ some row
  returned_row e =
      ap (λ (x : Option DataOperation × Table). x.0)
        (execute_operation-eq-execute_row tasks id now t item found active)
      ∙ ap some e

  -- If every stage of a running operation that has completed none returns, `execute_operation`
  -- returns its row with the combined status of the results, their run ids and their sums, and
  -- with the slot and the stage cleared.
  pub execute_operation_completed :
      (results : List DataOperationResult)
      → Returns tasks item (stages item.operation) results
      → (row : DataOperation) × ((execute_operation tasks id now t).0 ≡ some row)
        × Recorded results item row
        × Ended (combined_status results) item.error_message now row
  unfolding complete_row
  execute_operation_completed results returns =
      let ss = stages item.operation in
      let done = advance 1 ss results item in
      let rec = advance-Recorded tasks item 1 ss results item returns (omega arith) in
      (
        complete_row now results done,
        returned_row
            (unfold execute_row finish_row in rw (run_row-Returns tasks ss results item returns)),
        record {
          stage_completed = rec.stage_completed;
          run_ids = rec.run_ids;
          records_written = rec.records_written;
          records_failed = rec.records_failed;
          orders_created = rec.orders_created;
          orders_settled = rec.orders_settled;
          executions_written = rec.executions_written;
          positions_updated = rec.positions_updated;
          latest_nav_date = rec.latest_nav_date;
        },
        record {
          final = refl;
          released = refl;
          no_stage = refl;
          finished = refl;
          error = same_error 1 ss results item;
        },
      )

  -- If a stage of a running operation that has completed none raises, after stages that returned,
  -- `execute_operation` returns its row as failed with that exception, with the record of the
  -- stages before, and with the slot and the stage cleared.
  pub execute_operation_failed :
      (before rest : List Stage) (stage : Stage) (results : List DataOperationResult)
      (error : ErrorMessage)
      → stages item.operation ≡ before ++ stage ∷ rest
      → Returns tasks item before results
      → execute_stage tasks stage item ≡ raised error
      → (row : DataOperation) × ((execute_operation tasks id now t).0 ≡ some row)
        × Recorded results item row
        × Ended failed (some error) now row
  unfolding fail_row begin_stage
  execute_operation_failed before rest stage results error split returns raises =
      let done = advance 1 before results item in
      let rec = advance-Recorded tasks item 1 before results item returns (omega arith) in
      (
        fail_row now error (begin_stage stage done),
        returned_row (
            unfold execute_row finish_row in
            rw split
              (rw (run_row-stops tasks before stage rest results error item returns raises))),
        record {
          stage_completed = rec.stage_completed;
          run_ids = rec.run_ids;
          records_written = rec.records_written;
          records_failed = rec.records_failed;
          orders_created = rec.orders_created;
          orders_settled = rec.orders_settled;
          executions_written = rec.executions_written;
          positions_updated = rec.positions_updated;
          latest_nav_date = rec.latest_nav_date;
        },
        record { final = refl; released = refl; no_stage = refl; finished = refl; error = refl },
      )
