-- ===== src/Queue/Samples.antt =====
-- Small runs of the queue, and its theorems at concrete inputs.
use mathlib.Core.List.{Memᴰ}
use qdii_observatory.Common.{
  ℕ, ◌≤◌, ◌≡◌, refl, true, false, Option, none, some, List, [], ◌∷◌, arith, first, update_first,
  countb, All,
}
use qdii_observatory.Queue.Rows.{
  prepare, Status, queued, running, succeeded, partial, failed, daily, reports, parse, stage_error,
  DataOperation, Table, Request, created, in_progress, operation_named, new_row, holds_slot,
  has_status, enqueue_operation, recover_interrupted_operations,
}
use qdii_observatory.Queue.Stages.{
  DataOperationResult, ok, raised, Tasks, has_id, claim_row, claim_next_operation,
  execute_operation, run_once, combined_status, stages, execute_stage,
}
use qdii_observatory.Queue.Runs.{execute_row, execute_operation-eq-execute_row}
use qdii_observatory.Queue.Outcomes.{
  Returns, Recorded, Ended, execute_operation_completed, execute_operation_failed,
}
use qdii_observatory.Queue.Invariant.{IsValid}
use qdii_observatory.Queue.Steps.{
  enqueue, claim, Steps, here, next, Steps-IsValid, execute_operation-Steps, run_once-IsValid,
}
use qdii_observatory.Queue.Requests.{
  enqueue_operation_conflict, enqueue_operation_accepted, claim_next_operation_oldest,
  claim_next_operation_idle, recover_interrupted_operations_lem, execute_operation_frees_slot,
}

abbrev request : Request
request = record {
  operation = "prepare";
  fund_codes = "017436" ∷ [];
  lookback_days = 10;
  report_year = 2026;
  report_quarter = 2;
}

abbrev result : Status → ℕ → DataOperationResult
result status id = record {
  status = status;
  runs = record { id = id; records_written = 5; records_failed = 1 } ∷ [];
  recurring_orders_created = 2;
  recurring_orders_settled = 1;
  recurring_executions_written = 1;
  recurring_positions_updated = 1;
  recurring_latest_nav_date = none;
}

-- Tasks that all return, and tasks whose reports cannot be fetched.
abbrev working : Tasks
working = record {
  sync_daily_data = λ codes days. ok (result partial 11);
  sync_sales_limits_data = λ codes. ok (result succeeded 12);
  sync_reports_data = λ codes year quarter. ok (result succeeded 13);
  parse_reports_data = λ codes year quarter. ok (result succeeded 14);
}

abbrev offline : Tasks
offline = record working {
  sync_reports_data = λ codes year quarter. raised (stage_error "TimeoutError: eid.csrc.gov.cn");
}

waiting : Table
unfolding enqueue_operation
waiting = (enqueue_operation 1 request []).1

claimed : Table
unfolding waiting claim_next_operation
claimed = (claim_next_operation 100 waiting).1

abbrev at_row {ℓ} : {A : Type ℓ} → A → (DataOperation → A) → Option DataOperation → A
at_row a f none = a
at_row a f (some row) = f row

run_working :
    (at_row [] (λ row. row.run_ids) (execute_operation working 1 200 claimed).0 ≡ 11 ∷ 13 ∷ 14 ∷ [])
    × (at_row failed (λ row. row.status) (execute_operation working 1 200 claimed).0 ≡ partial)
    × (at_row 0 (λ row. row.records_written) (execute_operation working 1 200 claimed).0 ≡ 15)
unfolding claimed execute_operation execute_stage
run_working = (refl, refl, refl)

run_offline :
    (at_row 0 (λ row. row.stage_completed) (execute_operation offline 1 200 claimed).0 ≡ 1)
    × (at_row none (λ row. row.error_message) (execute_operation offline 1 200 claimed).0
        ≡ some (stage_error "TimeoutError: eid.csrc.gov.cn"))
unfolding claimed execute_operation execute_stage
run_offline = (refl, refl)

empty-IsValid : IsValid []
empty-IsValid = record { consistent = tt; one_active = omega arith; unique_ids = λ id. omega arith }

Steps-IsValid_example : IsValid claimed
unfolding claimed
Steps-IsValid_example =
    Steps-IsValid (next (enqueue 1 request [] refl) (next (claim 100 waiting) here)) empty-IsValid

claimed-IsValid : IsValid claimed
unfolding claimed
claimed-IsValid =
    Steps-IsValid (next (enqueue 1 request [] refl) (next (claim 100 waiting) here)) empty-IsValid

waiting-IsValid : IsValid waiting
unfolding waiting
waiting-IsValid = Steps-IsValid (next (enqueue 1 request [] refl) here) empty-IsValid

abbrev waiting_item : DataOperation
unfolding new_row
waiting_item = new_row 1 prepare request

abbrev item : DataOperation
unfolding claim_row waiting_item
item = claim_row 100 waiting_item

item-found : first (has_id 1) claimed ≡ some item
unfolding claimed item
item-found = refl

execute_operation-Steps_example : Steps claimed (execute_operation offline 1 200 claimed).1
execute_operation-Steps_example = execute_operation-Steps offline 1 200 claimed claimed-IsValid

run_once-IsValid_example : IsValid (run_once offline 100 200 waiting).1
run_once-IsValid_example = run_once-IsValid offline 100 200 waiting waiting-IsValid

item-active : has_status running item ≡ true
unfolding item
item-active = refl

execute_operation-eq-execute_row_example : execute_operation working 1 200 claimed ≡ (
  some (execute_row working 200 item),
  update_first (has_id 1) (execute_row working 200) claimed,
)
execute_operation-eq-execute_row_example =
    execute_operation-eq-execute_row working 1 200 claimed item item-found item-active

item-fresh : item.stage_completed ≡ 0
unfolding item
item-fresh = refl

abbrev all_results : List DataOperationResult
all_results = result partial 11 ∷ result succeeded 13 ∷ result succeeded 14 ∷ []

working-Returns : Returns working item (stages item.operation) all_results
unfolding item stages execute_stage
working-Returns = (refl, (refl, (refl, tt)))

execute_operation_completed_example :
    (row : DataOperation) × ((execute_operation working 1 200 claimed).0 ≡ some row)
    × Recorded all_results item row
    × Ended (combined_status all_results) item.error_message 200 row
execute_operation_completed_example =
    execute_operation_completed working 1 200 claimed item item-found item-active item-fresh
      all_results working-Returns

offline-Returns : Returns offline item (daily ∷ []) (result partial 11 ∷ [])
unfolding item execute_stage
offline-Returns = (refl, tt)

offline-raises :
    execute_stage offline reports item ≡ raised (stage_error "TimeoutError: eid.csrc.gov.cn")
unfolding item execute_stage
offline-raises = refl

prepare-split : stages item.operation ≡ daily ∷ reports ∷ parse ∷ []
unfolding item stages
prepare-split = refl

execute_operation_failed_example :
    (row : DataOperation) × ((execute_operation offline 1 200 claimed).0 ≡ some row)
    × Recorded (result partial 11 ∷ []) item row
    × Ended failed (some (stage_error "TimeoutError: eid.csrc.gov.cn")) 200 row
execute_operation_failed_example =
    execute_operation_failed offline 1 200 claimed item item-found item-active item-fresh
      (daily ∷ []) (parse ∷ []) reports (result partial 11 ∷ [])
      (stage_error "TimeoutError: eid.csrc.gov.cn") prepare-split offline-Returns offline-raises

request-named : operation_named request.operation ≡ some prepare
unfolding operation_named
request-named = refl

waiting_item-listed : Memᴰ waiting_item waiting
unfolding waiting waiting_item
waiting_item-listed = Memᴰ.head refl

waiting_item-holds : holds_slot waiting_item ≡ true
unfolding waiting_item
waiting_item-holds = refl

enqueue_operation_conflict_example :
    enqueue_operation 2 request waiting
    ≡ (in_progress waiting_item.id waiting_item.operation waiting_item.status, waiting)
enqueue_operation_conflict_example =
    enqueue_operation_conflict 2 request prepare waiting waiting_item request-named waiting-IsValid
      waiting_item-listed waiting_item-holds

enqueue_operation_accepted_example :
    (row : DataOperation) × (enqueue_operation 1 request [] ≡ (created row, row ∷ []))
    × (row.status ≡ queued)
    × (row.operation ≡ prepare)
    × (holds_slot row ≡ true)
enqueue_operation_accepted_example =
    enqueue_operation_accepted 1 request prepare [] request-named refl (omega arith) (omega arith)
      (omega arith) (omega arith)

waiting-claims : (claim_next_operation 100 waiting).0 ≡ some 1
unfolding waiting claim_next_operation
waiting-claims = refl

claim_next_operation_oldest_example :
    (row : DataOperation) × Memᴰ row waiting
    × (row.id ≡ 1)
    × (has_status queued row ≡ true)
    × All (λ other. has_status queued other ≡ true → 1 ≤ other.id) waiting
    × ((claim_next_operation 100 waiting).1 ≡ update_first (has_id 1) (claim_row 100) waiting)
claim_next_operation_oldest_example = claim_next_operation_oldest 100 waiting 1 waiting-claims

claimed-idle : (claim_next_operation 101 claimed).0 ≡ none
unfolding claimed claim_next_operation
claimed-idle = refl

claim_next_operation_idle_example :
    All (λ row. has_status queued row ≡ false) claimed
    × ((claim_next_operation 101 claimed).1 ≡ claimed)
claim_next_operation_idle_example = claim_next_operation_idle 101 claimed claimed-idle

recover_interrupted_operations_example :
    ((recover_interrupted_operations 300 claimed).0 ≡ countb (has_status running) claimed)
    × (countb (has_status running) (recover_interrupted_operations 300 claimed).1 ≡ 0)
    × (countb (has_status queued) (recover_interrupted_operations 300 claimed).1
        ≡ countb (has_status queued) claimed)
    × (countb holds_slot (recover_interrupted_operations 300 claimed).1
        ≡ countb (has_status queued) claimed)
recover_interrupted_operations_example =
    recover_interrupted_operations_lem 300 claimed claimed-IsValid

execute_operation_frees_slot_example :
    countb holds_slot (execute_operation offline 1 200 claimed).1 ≡ 0
execute_operation_frees_slot_example =
    execute_operation_frees_slot offline 1 200 claimed item claimed-IsValid item-found item-active
