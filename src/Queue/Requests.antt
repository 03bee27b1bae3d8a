-- ===== src/Queue/Requests.antt =====
-- What the API and the worker see of the queue: when a request is accepted, which operation is
-- claimed, what a restart recovers, and that a finished operation frees the slot.
use mathlib.Core.List.{Memᴰ}
use qdii_observatory.Common.{
  ℕ, ◌≤◌, ◌≡◌, refl, ap, Bool, true, false, inl, inr, Option, none, some, List, [], ◌∷◌, arith,
  Option-cases, filterb, first, update_where, update_first, countb, anyb, All, min_by, max_by,
}
use qdii_observatory.Common.Rows.{
  All-unique, All-mem, All-filterb, length-filterb, countb-update_first_out, filterb-eq-nil,
  first-eq-some, max_by-mem, max_by-eq-none, mem-filterb, min_by-le, min_by-mem, min_by-eq-none,
}
use qdii_observatory.Queue.Rows.{
  Operation, running, queued, DataOperation, Table, check_row, holds_slot, has_status, Request,
  Enqueued, created, in_progress, refused, insert_row, enqueue_operation, operation_named, new_row,
  recover_interrupted_operations, fail_interrupted,
}
use qdii_observatory.Queue.Stages.{
  Result, ok, raised, DataOperationResult, Tasks, has_id, claim_row, claim_next_operation,
  execute_operation, complete_row, fail_row,
}
use qdii_observatory.Queue.Runs.{execute_row, finish_row, execute_operation-eq-execute_row}
use qdii_observatory.Queue.Invariant.{IsConsistent, IsValid}

-- The conflict names the one active operation.
refused_lem :
    (t : Table) (row : DataOperation)
    → IsValid t
    → Memᴰ row t
    → holds_slot row ≡ true
    → refused t ≡ in_progress row.id row.operation row.status
refused_lem t row v m h = elim (Option-cases (max_by (λ r. r.id) (filterb holds_slot t))) [
  | inl e ↦ absurd (none_left (max_by-eq-none (λ r. r.id) _ e))
  | inr (found, e) ↦
      let (listed, holds) = mem-filterb holds_slot t (max_by-mem (λ r. r.id) _ found e) in
      let same : found ≡ row =
        All-mem _ t (All-unique holds_slot t v.one_active m h) listed holds in
      unfold refused in
      rw (e, refused) (ap (λ (r : DataOperation). in_progress r.id r.operation r.status) same)
]
  where
    none_left : filterb holds_slot t ≡ [] → ⊥
    none_left e =
        absurd (cc (All-mem (λ r. holds_slot r ≡ false) t (filterb-eq-nil holds_slot t e) m))

anyb-mem :
    (p : DataOperation → Bool) (t : Table) {row : DataOperation}
    → Memᴰ row t
    → p row ≡ true
    → anyb p t ≡ true
anyb-mem p [] m h = elim m [ ]
anyb-mem p (x ∷ xs) (Memᴰ.head e) h = let same : p x ≡ true = rw (← e) h in ground arith
anyb-mem p (x ∷ xs) (Memᴰ.tail m) h = ground (arith, anyb-mem p xs m h)

-- On a table that meets the constraints, while a row holds the active slot: a request for a known
-- operation is refused with the id, the operation and the status of that row, and the table stays
-- as it is.
pub enqueue_operation_conflict :
    (id : ℕ) (request : Request) (operation : Operation) (t : Table) (row : DataOperation)
    → operation_named request.operation ≡ some operation
    → IsValid t
    → Memᴰ row t
    → holds_slot row ≡ true
    → enqueue_operation id request t ≡ (in_progress row.id row.operation row.status, t)
enqueue_operation_conflict id request operation t row named v m h =
    unfold enqueue_operation in
    rw (named, enqueue_operation)
      (rw (anyb-mem holds_slot t m h, insert_row)
        (ap (λ (e : Enqueued). (e, t)) (refused_lem t row v m h)))

anyb-of_countb_zero : (p : DataOperation → Bool) (t : Table) → countb p t ≡ 0 → anyb p t ≡ false
anyb-of_countb_zero p [] h = refl
anyb-of_countb_zero p (x ∷ xs) h = ground (arith, anyb-of_countb_zero p xs)

new_row-check_row :
    (id : ℕ) (request : Request) (operation : Operation)
    → 1 ≤ request.lookback_days
    → request.lookback_days ≤ 100
    → 1 ≤ request.report_quarter
    → request.report_quarter ≤ 4
    → check_row (new_row id operation request) ≡ true
unfolding new_row check_row
new_row-check_row id request operation lo hi qlo qhi = ground arith

-- On a free slot, a request for a known operation within the ranges of the CHECK constraints is
-- accepted: its row is added as queued, holding the slot.
pub enqueue_operation_accepted :
    (id : ℕ) (request : Request) (operation : Operation) (t : Table)
    → operation_named request.operation ≡ some operation
    → countb holds_slot t ≡ 0
    → 1 ≤ request.lookback_days
    → request.lookback_days ≤ 100
    → 1 ≤ request.report_quarter
    → request.report_quarter ≤ 4
    → (row : DataOperation) × (enqueue_operation id request t ≡ (created row, row ∷ t))
      × (row.status ≡ queued)
      × (row.operation ≡ operation)
      × (holds_slot row ≡ true)
enqueue_operation_accepted id request operation t named free lo hi qlo qhi = (
  new_row id operation request,
  unfold enqueue_operation in
      rw (named, enqueue_operation)
        (rw (anyb-of_countb_zero holds_slot t free, insert_row)
          (rw (new_row-check_row id request operation lo hi qlo qhi, insert_row) refl)),
  (unfold new_row in refl),
  (unfold new_row in refl),
  (unfold new_row in refl),
)

claim-none :
    (now : ℕ) (t : Table)
    → min_by (λ row. row.id) (filterb (has_status queued) t) ≡ none
    → claim_next_operation now t ≡ (none, t)
unfolding claim_next_operation
claim-none now t e = rw (e, claim_next_operation)

claim-some :
    (now : ℕ) (t : Table) (item : DataOperation)
    → min_by (λ row. row.id) (filterb (has_status queued) t) ≡ some item
    → claim_next_operation now t ≡ (some item.id, update_first (has_id item.id) (claim_row now) t)
unfolding claim_next_operation
claim-some now t item e = rw (e, claim_next_operation)

-- `claim_next_operation` claims the queued operation with the least id, and only that one.
pub claim_next_operation_oldest :
    (now : ℕ) (t : Table) (id : ℕ)
    → (claim_next_operation now t).0 ≡ some id
    → (item : DataOperation) × Memᴰ item t
      × (item.id ≡ id)
      × (has_status queued item ≡ true)
      × All (λ row. has_status queued row ≡ true → id ≤ row.id) t
      × ((claim_next_operation now t).1 ≡ update_first (has_id id) (claim_row now) t)
claim_next_operation_oldest now t id claimed =
    elim (Option-cases (min_by (λ row. row.id) (filterb (has_status queued) t))) [
      | inl e ↦ absurd (nothing (ap (λ (x : Option ℕ × Table). x.0) (claim-none now t e)))
      | inr (item, e) ↦
          let (listed, waits) =
            mem-filterb (has_status queued) t (min_by-mem (λ row. row.id) _ item e) in
          let same : item.id ≡ id =
            claimed_id item.id (ap (λ (x : Option ℕ × Table). x.0) (claim-some now t item e)) in
          (
            item,
            listed,
            same,
            waits,
            rw (← same) (
                All-filterb (λ row. item.id ≤ row.id) (has_status queued) t
                  (min_by-le (λ row. row.id) _ item e)),
            rw (← same) (ap (λ (x : Option ℕ × Table). x.1) (claim-some now t item e)),
          )
    ]
  where
    nothing : (claim_next_operation now t).0 ≡ none → ⊥
    nothing e = cc

    claimed_id : (i : ℕ) → (claim_next_operation now t).0 ≡ some i → i ≡ id
    claimed_id i e = cc

-- `claim_next_operation` claims nothing only if no operation is queued, and then changes nothing.
pub claim_next_operation_idle :
    (now : ℕ) (t : Table)
    → (claim_next_operation now t).0 ≡ none
    → All (λ row. has_status queued row ≡ false) t × ((claim_next_operation now t).1 ≡ t)
claim_next_operation_idle now t idle =
    elim (Option-cases (min_by (λ row. row.id) (filterb (has_status queued) t))) [
      | inl e ↦ (
        filterb-eq-nil (has_status queued) t (min_by-eq-none (λ row. row.id) _ e),
        ap (λ (x : Option ℕ × Table). x.1) (claim-none now t e),
      )
      | inr (item, e) ↦
          absurd (clash item.id (ap (λ (x : Option ℕ × Table). x.0) (claim-some now t item e)))
    ]
  where
    clash : (i : ℕ) → (claim_next_operation now t).0 ≡ some i → ⊥
    clash i e = cc

-- What is left after the rows that run are failed.
module _ (now : ℕ) where
  abbrev recovered : Table → Table
  recovered = update_where (has_status running) (fail_interrupted now)

  running-recovered : (t : Table) → countb (has_status running) (recovered t) ≡ 0
  unfolding fail_interrupted
  running-recovered [] = refl
  running-recovered (x ∷ xs) = ground (arith, running-recovered xs)

  queued-recovered :
      (t : Table) → countb (has_status queued) (recovered t) ≡ countb (has_status queued) t
  unfolding fail_interrupted
  queued-recovered [] = refl
  queued-recovered (x ∷ xs) = ground (arith, queued-recovered xs)

  slots-recovered :
      (t : Table)
      → All IsConsistent t
      → countb holds_slot (recovered t) ≡ countb (has_status queued) t
  unfolding fail_interrupted check_row
  slots-recovered [] h = refl
  slots-recovered (x ∷ xs) (h, hs) = ground (arith, h.0, slots-recovered xs hs)

-- On a table that meets the constraints: `recover_interrupted_operations` leaves no operation
-- running and returns how many there were; the number of queued ones stays, and is that of the
-- rows that hold the active slot.
pub recover_interrupted_operations_lem :
    (now : ℕ) (t : Table)
    → IsValid t
    → ((recover_interrupted_operations now t).0 ≡ countb (has_status running) t)
      × (countb (has_status running) (recover_interrupted_operations now t).1 ≡ 0)
      × (countb (has_status queued) (recover_interrupted_operations now t).1
          ≡ countb (has_status queued) t)
      × (countb holds_slot (recover_interrupted_operations now t).1 ≡ countb (has_status queued) t)
unfolding recover_interrupted_operations
recover_interrupted_operations_lem now t v = (
  length-filterb (has_status running) t,
  running-recovered now t,
  queued-recovered now t,
  slots-recovered now t v.consistent,
)

finish_row_frees :
    (tasks : Tasks) (now : ℕ) (outcome : Result (List DataOperationResult)) (row : DataOperation)
    → holds_slot (finish_row tasks now outcome row) ≡ false
unfolding finish_row complete_row fail_row
finish_row_frees tasks now (ok results) row = refl
finish_row_frees tasks now (raised error) row = refl

running_holds :
    (row : DataOperation) → IsConsistent row → has_status running row ≡ true → holds_slot row ≡ true
unfolding check_row
running_holds row h e = ground (arith, h.0)

-- On a table that meets the constraints: however the stages of a running operation end, after
-- `execute_operation` no row holds the active slot, so the next request finds it free.
pub execute_operation_frees_slot :
    (tasks : Tasks) (id now : ℕ) (t : Table) (item : DataOperation)
    → IsValid t
    → first (has_id id) t ≡ some item
    → has_status running item ≡ true
    → countb holds_slot (execute_operation tasks id now t).1 ≡ 0
execute_operation_frees_slot tasks id now t item v found active =
    let (listed, named) = first-eq-some (has_id id) t item found in
    let held = running_holds item (All-mem IsConsistent t v.consistent listed) active in
    let freed : holds_slot (execute_row tasks now item) ≡ false =
      unfold execute_row in finish_row_frees tasks now _ _ in
    let out =
      countb-update_first_out holds_slot (has_id id) (execute_row tasks now) t found held freed in
    rw (execute_operation-eq-execute_row tasks id now t item found active)
      (omega (arith, out, v.one_active))
