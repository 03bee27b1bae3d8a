-- ===== src/Queue/Steps.antt =====
-- The commits of the queue as a step relation: API requests, the worker's claims, the commits of a
-- running operation and the recovery after a crash may come in any order.
use mathlib.Core.Option
use qdii_observatory.Common.{
  ℕ, suc, ◌+◌, ◌≤◌, ◌≡◌, refl, ap, ◌∙◌, true, inl, inr, some, List, [], ◌∷◌, ◌++◌, arith,
  Bool-cases, Option-cases, length, first, countb, update_first,
}
use qdii_observatory.Common.Rows.{first-update_first, first-eq-some, All-mem}
use qdii_observatory.Queue.Rows.{
  Operation, prepare, sync_daily, sync_sales_limits, sync_reports, parse_reports, running, Stage,
  DataOperation, Table, check_row, has_status, Request, enqueue_operation,
  recover_interrupted_operations, stage_totals, ErrorMessage,
}
use qdii_observatory.Queue.Stages.{
  DataOperationResult, Result, ok, raised, Tasks, has_id, claim_next_operation, begin_stage,
  end_stage, fail_row, complete_row, run_stages, finish_operation, execute_operation, execute_stage,
  run_once, stages,
}
use qdii_observatory.Queue.Runs.{Result-cases, run_stages-ok_commits, run_stages-raised}
use qdii_observatory.Queue.Invariant.{
  IsConsistent, IsValid, enqueue_operation-IsValid, claim_next_operation-IsValid,
  recover_interrupted_operations-IsValid, update_id-IsValid,
}

pub data Step : Table → Table → Type 0 where
  enqueue :
      (id : ℕ) (request : Request) (t : Table)
      → countb (has_id id) t ≡ 0
      → Step t (enqueue_operation id request t).1
  claim : (now : ℕ) (t : Table) → Step t (claim_next_operation now t).1
  recover : (now : ℕ) (t : Table) → Step t (recover_interrupted_operations now t).1
  begin :
      (id : ℕ) (stage : Stage) (t : Table) (item : DataOperation)
      → first (has_id id) t ≡ some item
      → has_status running item ≡ true
      → Step t (update_first (has_id id) (begin_stage stage) t)
  stage_done :
      (id index : ℕ) (result : DataOperationResult) (t : Table) (item : DataOperation)
      → first (has_id id) t ≡ some item
      → has_status running item ≡ true
      → index ≤ item.stage_total
      → Step t (update_first (has_id id) (end_stage index result) t)
  finish :
      (id now : ℕ) (outcome : Result (List DataOperationResult)) (t : Table) (item : DataOperation)
      → first (has_id id) t ≡ some item
      → has_status running item ≡ true
      → Step t (finish_operation id now outcome t)

pub data Steps : Table → Table → Type 0 where
  here : {t : Table} → Steps t t
  next : {t u w : Table} → Step t u → Steps u w → Steps t w

then-Step : {t u w : Table} → Steps t u → Step u w → Steps t w
then-Step here s = next s here
then-Step (next r rs) s = next r (then-Step rs s)

begin_stage-IsConsistent :
    (stage : Stage) (row : DataOperation) → IsConsistent row → IsConsistent (begin_stage stage row)
unfolding begin_stage check_row
begin_stage-IsConsistent stage row h = h

end_stage-IsConsistent :
    (index : ℕ) (result : DataOperationResult) (row : DataOperation)
    → index ≤ row.stage_total
    → IsConsistent row
    → IsConsistent (end_stage index result row)
unfolding end_stage check_row
end_stage-IsConsistent index result row le h = (ground (arith, h.0), h.1)

fail_row-IsConsistent :
    (now : ℕ) (error : ErrorMessage) (row : DataOperation)
    → IsConsistent row
    → IsConsistent (fail_row now error row)
unfolding fail_row check_row
fail_row-IsConsistent now error row h = (ground (arith, h.0), h.1)

complete_row-IsConsistent :
    (now : ℕ) (results : List DataOperationResult) (row : DataOperation)
    → IsConsistent row
    → IsConsistent (complete_row now results row)
unfolding complete_row check_row
complete_row-IsConsistent now [] row h = (ground (arith, h.0), h.1)
complete_row-IsConsistent now (r ∷ rs) row h = (ground (arith, h.0), h.1)

-- Every commit keeps the constraints of the table.
pub Step-IsValid : {t u : Table} → Step t u → IsValid t → IsValid u
Step-IsValid (enqueue id request t fresh) v = enqueue_operation-IsValid id request t fresh v
Step-IsValid (claim now t) v = claim_next_operation-IsValid now t v
Step-IsValid (recover now t) v = recover_interrupted_operations-IsValid now t v
Step-IsValid (begin id stage t item found active) v =
    update_id-IsValid (begin_stage stage) id t item found (unfold begin_stage in λ row h. h)
      (unfold begin_stage in λ row. refl) (begin_stage-IsConsistent stage item) v
Step-IsValid (stage_done id index result t item found active le) v =
    update_id-IsValid (end_stage index result) id t item found (unfold end_stage in λ row h. h)
      (unfold end_stage in λ row. refl) (end_stage-IsConsistent index result item le) v
Step-IsValid (finish id now (ok results) t item found active) v =
    unfold finish_operation in
    update_id-IsValid (complete_row now results) id t item found
      (unfold complete_row in λ row h. ground (arith, h)) (unfold complete_row in λ row. refl)
      (complete_row-IsConsistent now results item) v
Step-IsValid (finish id now (raised error) t item found active) v =
    unfold finish_operation in
    update_id-IsValid (fail_row now error) id t item found
      (unfold fail_row in λ row h. ground (arith, h)) (unfold fail_row in λ row. refl)
      (fail_row-IsConsistent now error item) v

-- From a table that meets the constraints, every table that the commits reach meets them: at most
-- one operation holds the active slot.
pub Steps-IsValid : {t u : Table} → Steps t u → IsValid t → IsValid u
Steps-IsValid here v = v
Steps-IsValid (next s ss) v = Steps-IsValid ss (Step-IsValid s v)

-- Where a running operation stands between two stages.
record At (id remaining index : ℕ) (t : Table) : Type 0 where
  item : DataOperation
  found : first (has_id id) t ≡ some item
  active : has_status running item ≡ true
  fits : index + remaining ≤ item.stage_total + 1

module _ (tasks : Tasks) (id : ℕ) where
  begin-At :
      (remaining index : ℕ) (stage : Stage) (t : Table)
      → At id remaining index t
      → At id remaining index (update_first (has_id id) (begin_stage stage) t)
  begin-At remaining index stage t a = record {
    item = begin_stage stage a.item;
    found =
        first-update_first (has_id id) (begin_stage stage) t (unfold begin_stage in λ row. refl)
        ∙ ap (Option.map (begin_stage stage)) a.found;
    active = unfold begin_stage in a.active;
    fits = unfold begin_stage in a.fits;
  }

  end-At :
      (remaining index : ℕ) (result : DataOperationResult) (t : Table)
      → At id (suc remaining) index t
      → At id remaining (index + 1) (update_first (has_id id) (end_stage index result) t)
  end-At remaining index result t a = record {
    item = end_stage index result a.item;
    found =
        first-update_first (has_id id) (end_stage index result) t (unfold end_stage in λ row. refl)
        ∙ ap (Option.map (end_stage index result)) a.found;
    active = unfold end_stage in a.active;
    fits = unfold end_stage in omega (arith, a.fits);
  }

  -- The loop ends on the row of the running operation, by commits alone.
  abbrev Runs : Table → Table → Type 0
  Runs t u = Steps t u × ((n i : ℕ) × At id n i u)

  run_stages-Steps :
      (index : ℕ) (ss : List Stage) (results : List DataOperationResult) (t : Table)
      → At id (length ss) index t
      → Runs t (run_stages tasks id index ss results t).1
  run_stages-Steps index [] results t a = unfold run_stages in (here, (0, index, a))
  run_stages-Steps index (stage ∷ rest) results t a =
      let begun = update_first (has_id id) (begin_stage stage) t in
      let a' = begin-At (suc (length rest)) index stage t a in
      elim (Result-cases (execute_stage tasks stage (begin_stage stage a.item))) [
        | inl (result, d) ↦
            let ended = update_first (has_id id) (end_stage index result) begun in
            rw (run_stages-ok_commits tasks id index stage rest results t a.found result d) (
              after_stage t begun ended _ (begin id stage t a.item a.found a.active)
                (stage_done id index result begun a'.item a'.found a'.active
                  (omega (arith, a'.fits)))
                (run_stages-Steps (index + 1) rest (results ++ result ∷ []) ended
                  (end-At (length rest) index result begun a')))
        | inr (error, d) ↦
            rw (run_stages-raised tasks id index stage rest results t a.found error d) (
              stopped t begun (begin id stage t a.item a.found a.active) (suc (length rest)) index
                a')
      ]
    where
      after_stage : (t u v w : Table) → Step t u → Step u v → Runs v w → Runs t w
      after_stage t u v w s s' (ss, at) = (next s (next s' ss), at)

      stopped : (t u : Table) → Step t u → (n i : ℕ) → At id n i u → Runs t u
      stopped t u s n i at = (next s here, (n, i, at))

length-stages : (operation : Operation) → length (stages operation) ≡ stage_totals operation
unfolding stages stage_totals
length-stages prepare = refl
length-stages sync_daily = refl
length-stages sync_sales_limits = refl
length-stages sync_reports = refl
length-stages parse_reports = refl

-- On a table that meets the constraints, and whatever its stages return or raise,
-- `execute_operation` changes the table by the commits of `Step` alone.
pub execute_operation-Steps :
    (tasks : Tasks) (id now : ℕ) (t : Table)
    → IsValid t
    → Steps t (execute_operation tasks id now t).1
execute_operation-Steps tasks id now t v = elim (Option-cases (first (has_id id) t)) [
  | inl e ↦ unfold execute_operation in rw (e, execute_operation) here
  | inr (item, e) ↦ elim (Bool-cases (has_status running item)) [
    | inl active ↦
        let (listed, named) = first-eq-some (has_id id) t item e in
        let total = (All-mem IsConsistent t v.consistent listed).1 in
        let (steps, (n, i, at)) = run_stages-Steps tasks id 1 (stages item.operation) [] t (record {
          item = item;
          found = e;
          active = active;
          fits = omega (arith, total, length-stages item.operation);
        }) in
        unfold execute_operation in
        rw (e, execute_operation)
          (rw active (then-Step steps (finish id now _ _ at.item at.found at.active)))
    | inr idle ↦ unfold execute_operation in rw (e, execute_operation) (rw idle here)
  ]
]

-- A round of the worker keeps the constraints of the table, also when its stages raise.
pub run_once-IsValid :
    (tasks : Tasks) (started finished : ℕ) (t : Table)
    → IsValid t
    → IsValid (run_once tasks started finished t).1
run_once-IsValid tasks started finished t v =
    let claimed = claim_next_operation-IsValid started t v in
    elim (Option-cases (claim_next_operation started t).0) [
      | inl e ↦ unfold run_once in rw (e, run_once) claimed
      | inr (id, e) ↦
          unfold run_once in
          rw (e, run_once)
            (Steps-IsValid (execute_operation-Steps tasks id finished _ claimed) claimed)
    ]
