-- ===== src/Queue/Runs.antt =====
-- `execute_operation` acts on one row: a reference definition of what it does to that row, without
-- the table and its commits, and the theorem that the two agree.
use mathlib.Core.Option
use mathlib.Core.Path.{ap₂}
use qdii_observatory.Common.{
  ℕ, ◌+◌, ◌≡◌, refl, sym, ap, ◌∙◌, true, ◌⊎◌, inl, inr, Option, some, List, [], ◌∷◌, ◌++◌, first,
  update_first,
}
use qdii_observatory.Common.Rows.{
  first-update_first, update_first-update_first, update_first_congr, update_first_id,
}
use qdii_observatory.Queue.Rows.{ErrorMessage, Stage, DataOperation, Table, has_status, running}
use qdii_observatory.Queue.Stages.{
  DataOperationResult, Result, ok, raised, Tasks, has_id, begin_stage, end_stage, fail_row,
  complete_row, run_stages, finish_operation, execute_operation, execute_stage, stages,
}

pub Result-cases :
    {A : Type 0} (r : Result A) → ((a : A) × (r ≡ ok a)) ⊎ ((e : ErrorMessage) × (r ≡ raised e))
Result-cases (ok a) = inl (a, refl)
Result-cases (raised e) = inr (e, refl)

module _ (tasks : Tasks) where
  unfoldable pub run_row :
      ℕ
      → List Stage
      → List DataOperationResult
      → DataOperation
      → Result (List DataOperationResult) × DataOperation
  run_row index [] results row = (ok results, row)
  run_row index (stage ∷ rest) results row =
      elim (execute_stage tasks stage (begin_stage stage row)) [
        | raised error ↦ (raised error, begin_stage stage row)
        | ok result ↦
            run_row (index + 1) rest (results ++ result ∷ [])
              (end_stage index result (begin_stage stage row))
      ]

  unfoldable pub finish_row : ℕ → Result (List DataOperationResult) → DataOperation → DataOperation
  finish_row now (raised error) row = fail_row now error row
  finish_row now (ok results) row = complete_row now results row

  unfoldable pub execute_row : ℕ → DataOperation → DataOperation
  unfolding run_row finish_row
  execute_row now row =
      let (outcome, ran) = run_row 1 (stages row.operation) [] row in finish_row now outcome ran

  -- What a stage that returns does to its row.
  abbrev staged : ℕ → Stage → DataOperationResult → DataOperation → DataOperation
  staged index stage result row = end_stage index result (begin_stage stage row)

  abbrev ran : ℕ → List Stage → List DataOperationResult → DataOperation → DataOperation
  ran index ss results row = (run_row index ss results row).1

  pub run_row-ok :
      (index : ℕ) (stage : Stage) (rest : List Stage) (results : List DataOperationResult)
      (row : DataOperation) (result : DataOperationResult)
      → execute_stage tasks stage (begin_stage stage row) ≡ ok result
      → run_row index (stage ∷ rest) results row
        ≡ run_row (index + 1) rest (results ++ result ∷ []) (staged index stage result row)
  unfolding run_row
  run_row-ok index stage rest results row result d = rw (d, run_row)

  pub run_row-raised :
      (index : ℕ) (stage : Stage) (rest : List Stage) (results : List DataOperationResult)
      (row : DataOperation) (error : ErrorMessage)
      → execute_stage tasks stage (begin_stage stage row) ≡ raised error
      → run_row index (stage ∷ rest) results row ≡ (raised error, begin_stage stage row)
  unfolding run_row
  run_row-raised index stage rest results row error d = rw (d, run_row)

  module _ (id index : ℕ) (stage : Stage) (rest : List Stage) (results : List DataOperationResult)
      (t : Table) {row : DataOperation} (e : first (has_id id) t ≡ some row) where
    -- The two commits of a stage that returns.
    pub run_stages-ok_commits :
        (result : DataOperationResult)
        → execute_stage tasks stage (begin_stage stage row) ≡ ok result
        → run_stages tasks id index (stage ∷ rest) results t
          ≡ run_stages tasks id (index + 1) rest (results ++ result ∷ []) (
              update_first
                (has_id id)
                (end_stage index result)
                (update_first (has_id id) (begin_stage stage) t))
    unfolding run_stages
    run_stages-ok_commits result d = rw (e, run_stages) (rw (d, run_stages))

    run_stages-ok :
        (result : DataOperationResult)
        → execute_stage tasks stage (begin_stage stage row) ≡ ok result
        → run_stages tasks id index (stage ∷ rest) results t
          ≡ run_stages tasks id
              (index + 1)
              rest
              (results ++ result ∷ [])
              (update_first (has_id id) (staged index stage result) t)
    run_stages-ok result d =
        run_stages-ok_commits result d
        ∙ ap (run_stages tasks id (index + 1) rest (results ++ result ∷ [])) (
            update_first-update_first (has_id id) (begin_stage stage) (end_stage index result) t
              (unfold begin_stage in λ x. refl))

    pub run_stages-raised :
        (error : ErrorMessage)
        → execute_stage tasks stage (begin_stage stage row) ≡ raised error
        → run_stages tasks id index (stage ∷ rest) results t
          ≡ (raised error, update_first (has_id id) (begin_stage stage) t)
    unfolding run_stages
    run_stages-raised error d = rw (e, run_stages) (rw (d, run_stages))

  has_id-staged :
      (id index : ℕ) (stage : Stage) (result : DataOperationResult) (row : DataOperation)
      → has_id id (staged index stage result row) ≡ has_id id row
  unfolding begin_stage end_stage
  has_id-staged id index stage result row = refl

  run_stages-eq-run_row :
      (id index : ℕ) (ss : List Stage) (results : List DataOperationResult) (t : Table)
      {row : DataOperation}
      → first (has_id id) t ≡ some row
      → run_stages tasks id index ss results t
        ≡ ((run_row index ss results row).0, update_first (has_id id) (ran index ss results) t)
  run_stages-eq-run_row id index [] results t e =
      unfold run_stages run_row in
      ap (λ (u : Table). (ok results, u)) (sym (update_first_id (has_id id) (λ r. r) t (λ r. refl)))
  run_stages-eq-run_row id index (stage ∷ rest) results t {row} e =
      elim (Result-cases (execute_stage tasks stage (begin_stage stage row))) [
        | inl (result, d) ↦
            let g = staged index stage result in
            let step = run_row-ok index stage rest results row result d in
            let ih =
              run_stages-eq-run_row id (index + 1) rest (results ++ result ∷ [])
                (update_first (has_id id) g t) {row = g row}
                (first-update_first (has_id id) g t (has_id-staged id index stage result)
                  ∙ ap (Option.map g) e) in
            run_stages-ok id index stage rest results t e result d
            ∙ ih
            ∙ ap₂ (λ (o : Result (List DataOperationResult)) (u : Table). (o, u))
                (sym (ap (λ (x : Result (List DataOperationResult) × DataOperation). x.0) step))
                (update_first-update_first (has_id id) g
                    (ran (index + 1) rest (results ++ result ∷ [])) t
                    (has_id-staged id index stage result)
                  ∙ update_first_congr (has_id id) _ _ t e (
                      sym
                        (ap (λ (x : Result (List DataOperationResult) × DataOperation). x.1) step)))
        | inr (error, d) ↦
            let step = run_row-raised index stage rest results row error d in
            run_stages-raised id index stage rest results t e error d
            ∙ ap₂ (λ (o : Result (List DataOperationResult)) (u : Table). (o, u))
                (sym (ap (λ (x : Result (List DataOperationResult) × DataOperation). x.0) step))
                (update_first_congr (has_id id) _ _ t e
                  (sym (ap (λ (x : Result (List DataOperationResult) × DataOperation). x.1) step)))
      ]

  finish_operation-eq :
      (id now : ℕ) (outcome : Result (List DataOperationResult)) (t : Table)
      → finish_operation id now outcome t ≡ update_first (has_id id) (finish_row now outcome) t
  unfolding finish_operation finish_row
  finish_operation-eq id now (ok results) t = refl
  finish_operation-eq id now (raised error) t = refl

  id-run_row :
      (index : ℕ) (ss : List Stage) (results : List DataOperationResult) (row : DataOperation)
      → (ran index ss results row).id ≡ row.id
  id-run_row index [] results row = unfold run_row in refl
  id-run_row index (stage ∷ rest) results row =
      elim (Result-cases (execute_stage tasks stage (begin_stage stage row))) [
        | inl (result, d) ↦
            ap (λ (x : Result (List DataOperationResult) × DataOperation). x.1.id)
              (run_row-ok index stage rest results row result d)
            ∙ id-run_row (index + 1) rest (results ++ result ∷ []) (staged index stage result row)
            ∙ (unfold begin_stage end_stage in refl)
        | inr (error, d) ↦
            ap (λ (x : Result (List DataOperationResult) × DataOperation). x.1.id)
              (run_row-raised index stage rest results row error d)
            ∙ (unfold begin_stage in refl)
      ]

  pub id-execute_row : (now : ℕ) (row : DataOperation) → (execute_row now row).id ≡ row.id
  id-execute_row now row =
      unfold execute_row in
      (id-finish (run_row 1 (stages row.operation) [] row).0 (ran 1 (stages row.operation) [] row)
        ∙ id-run_row 1 (stages row.operation) [] row)
    where
      id-finish :
          (outcome : Result (List DataOperationResult)) (r : DataOperation)
          → (finish_row now outcome r).id ≡ r.id
      id-finish (ok results) r = unfold finish_row complete_row in refl
      id-finish (raised error) r = unfold finish_row fail_row in refl

  -- Where the first row with the id is running, `execute_operation` replaces its row by the finished one, changes no
  -- other row, and returns the finished row.
  pub execute_operation-eq-execute_row :
      (id now : ℕ) (t : Table) (item : DataOperation)
      → first (has_id id) t ≡ some item
      → has_status running item ≡ true
      → execute_operation tasks id now t
        ≡ (some (execute_row now item), update_first (has_id id) (execute_row now) t)
  execute_operation-eq-execute_row id now t item e running_item =
      unfold execute_operation in
      rw (e, execute_operation)
        (rw running_item (
          rw (run_stages-eq-run_row id 1 (stages item.operation) [] t e) (
            rw finished (
              ap (λ (o : Option DataOperation). (o, update_first (has_id id) (execute_row now) t))
                (first-update_first (has_id id) (execute_row now) t same_id
                  ∙ ap (Option.map (execute_row now)) e)))))
    where
      same_id : (row : DataOperation) → has_id id (execute_row now row) ≡ has_id id row
      same_id row = rw (id-execute_row now row)

      outcome : Result (List DataOperationResult)
      outcome = (run_row 1 (stages item.operation) [] item).0

      execute_row-item :
          finish_row now outcome (ran 1 (stages item.operation) [] item) ≡ execute_row now item
      execute_row-item = unfold execute_row in refl

      finished :
          finish_operation id now outcome
            (update_first (has_id id) (ran 1 (stages item.operation) []) t)
          ≡ update_first (has_id id) (execute_row now) t
      finished =
          finish_operation-eq id now outcome _
          ∙ update_first-update_first (has_id id) (ran 1 (stages item.operation) [])
              (finish_row now outcome) t (λ row. rw (id-run_row 1 (stages item.operation) [] row))
          ∙ update_first_congr (has_id id) _ (execute_row now) t e execute_row-item
