-- ===== src/Queue/Invariant.antt =====
-- The constraints of the table `data_operation` hold after every commit of operation_queue.py,
-- so that no commit of the worker is refused by the database.
use mathlib.Core.List.{Memᴰ}
use qdii_observatory.Common.{
  ℕ, ◌≤◌, ◌≡◌, refl, Bool, true, false, some, [], ◌∷◌, arith, ==_iff, Bool-cases, Option-cases, inl,
  inr, filterb, first, update_where, countb, anyb, All, All-update_where, min_by, update_first,
}
use qdii_observatory.Common.Rows.{
  All-update_first, All-mono, All-unique, countb-update_first-le, countb-update_where-le,
  first-eq-some, mem-filterb, min_by-mem,
}
use qdii_observatory.Queue.Rows.{
  running, queued, DataOperation, Table, check_row, holds_slot, has_status, Request,
  enqueue_operation, recover_interrupted_operations, fail_interrupted, operation_named, insert_row,
  new_row, stage_totals,
}
use qdii_observatory.Queue.Stages.{has_id, claim_row, claim_next_operation}

-- The CHECK constraints of a row, and the number of stages that `enqueue_operation` wrote.
abbrev pub IsConsistent : DataOperation → Type 0
IsConsistent row = (check_row row ≡ true) × (row.stage_total ≡ stage_totals row.operation)

-- What the database enforces: the CHECK constraints, UNIQUE(active_slot) and the primary key.
pub record IsValid (t : Table) : Type 0 where
  pub consistent : All IsConsistent t
  pub one_active : countb holds_slot t ≤ 1
  pub unique_ids : (id : ℕ) → countb (has_id id) t ≤ 1

countb-zero : (p : DataOperation → Bool) (t : Table) → anyb p t ≡ false → countb p t ≡ 0
countb-zero p [] h = refl
countb-zero p (x ∷ xs) h = ground (arith, countb-zero p xs)

-- The row that is inserted takes the free slot, under an id of its own.
insert_row-IsValid :
    (row : DataOperation) (t : Table)
    → holds_slot row ≡ true
    → row.stage_total ≡ stage_totals row.operation
    → countb (has_id row.id) t ≡ 0
    → IsValid t
    → IsValid (insert_row row t).1
unfolding insert_row
insert_row-IsValid row t slot total fresh v = elim (Bool-cases (anyb holds_slot t)) [
  | inl taken ↦ rw (taken, insert_row) v
  | inr free ↦ elim (Bool-cases (check_row row)) [
    | inl good ↦
        rw (free, good, insert_row)
          (record {
            consistent = ((good, total), v.consistent);
            one_active = ground (arith, countb-zero holds_slot t free);
            unique_ids = λ id. ground (arith, v.unique_ids id);
          })
    | inr bad ↦ rw (free, bad, insert_row) v
  ]
]

-- A fresh id is drawn for each insertion.
pub enqueue_operation-IsValid :
    (id : ℕ) (request : Request) (t : Table)
    → countb (has_id id) t ≡ 0
    → IsValid t
    → IsValid (enqueue_operation id request t).1
unfolding enqueue_operation
enqueue_operation-IsValid id request t fresh v =
    elim (Option-cases (operation_named request.operation)) [
      | inl e ↦ rw (e, enqueue_operation) v
      | inr (operation, e) ↦
          rw (e, enqueue_operation)
            (insert_row-IsValid (new_row id operation request) t refl refl fresh v)
    ]

-- An update of one row, or of all that a test selects, keeps the constraints if it keeps the
-- CHECKs of the rows and their ids and takes no slot.
module _ (f : DataOperation → DataOperation)
    (slot : (row : DataOperation) → holds_slot (f row) ≡ true → holds_slot row ≡ true)
    (ids : (row : DataOperation) → (f row).id ≡ row.id) where
  pub update_first-IsValid :
      (p : DataOperation → Bool) (t : Table)
      → All (λ row. p row ≡ true → IsConsistent row → IsConsistent (f row)) t
      → IsValid t
      → IsValid (update_first p f t)
  update_first-IsValid p t keep v = record {
    consistent = All-update_first IsConsistent p f t keep v.consistent;
    one_active = omega (arith, v.one_active, countb-update_first-le holds_slot p f t slot);
    unique_ids = λ id. omega (
      arith,
      v.unique_ids id,
      countb-update_first-le (has_id id) p f t (λ row h. rw (ids row) at h),
    );
  }

  pub update_where-IsValid :
      (p : DataOperation → Bool) (t : Table)
      → ((row : DataOperation) → p row ≡ true → IsConsistent row → IsConsistent (f row))
      → IsValid t
      → IsValid (update_where p f t)
  update_where-IsValid p t keep v = record {
    consistent = All-update_where IsConsistent p f t keep v.consistent;
    one_active = omega (arith, v.one_active, countb-update_where-le holds_slot p f t slot);
    unique_ids = λ id. omega (
      arith,
      v.unique_ids id,
      countb-update_where-le (has_id id) p f t (λ row h. rw (ids row) at h),
    );
  }

pub recover_interrupted_operations-IsValid :
    (now : ℕ) (t : Table) → IsValid t → IsValid (recover_interrupted_operations now t).1
unfolding recover_interrupted_operations check_row
recover_interrupted_operations-IsValid now t =
    update_where-IsValid (fail_interrupted now) (λ row h. ground arith) (λ row. refl)
      (has_status running) t (λ row p h. (ground (arith, h.0), h.1))

-- By the primary key, an update of the row with a given id is an update of the listed row.
pub update_listed-IsValid :
    (f : DataOperation → DataOperation) (item : DataOperation) (t : Table)
    → ((row : DataOperation) → holds_slot (f row) ≡ true → holds_slot row ≡ true)
    → ((row : DataOperation) → (f row).id ≡ row.id)
    → Memᴰ item t
    → (IsConsistent item → IsConsistent (f item))
    → IsValid t
    → IsValid (update_first (has_id item.id) f t)
update_listed-IsValid f item t slot ids listed keep v =
    update_first-IsValid f slot ids (has_id item.id) t
      (All-mono t (λ row same p h. rw (same p) (keep (rw (same p) at h)))
        (All-unique (has_id item.id) t (v.unique_ids item.id) listed (ground arith)))
      v

-- A claimed row was queued.
claim_row-IsConsistent :
    (now : ℕ) (row : DataOperation)
    → has_status queued row ≡ true
    → IsConsistent row
    → IsConsistent (claim_row now row)
unfolding claim_row check_row
claim_row-IsConsistent now row p h = (ground (arith, h.0), h.1)

module _ (now : ℕ) (t : Table) (v : IsValid t) where
  claim-update-IsValid :
      (item : DataOperation)
      → Memᴰ item (filterb (has_status queued) t)
      → IsValid (update_first (has_id item.id) (claim_row now) t)
  claim-update-IsValid item m =
      let (listed, waits) = mem-filterb (has_status queued) t m in
      update_listed-IsValid (claim_row now) item t (unfold claim_row in λ row h. h)
        (unfold claim_row in λ row. refl) listed (claim_row-IsConsistent now item waits) v

  pub claim_next_operation-IsValid : IsValid (claim_next_operation now t).1
  unfolding claim_next_operation
  claim_next_operation-IsValid =
      elim (Option-cases (min_by (λ row. row.id) (filterb (has_status queued) t))) [
        | inl e ↦ rw (e, claim_next_operation) v
        | inr (item, e) ↦
            rw (e, claim_next_operation)
              (claim-update-IsValid item (min_by-mem (λ row. row.id) _ item e))
      ]

-- The commits inside `execute_operation`, on the row of a running operation.
module _ (f : DataOperation → DataOperation) (id : ℕ) (t : Table) (item : DataOperation)
    (found : first (has_id id) t ≡ some item)
    (slot : (row : DataOperation) → holds_slot (f row) ≡ true → holds_slot row ≡ true)
    (ids : (row : DataOperation) → (f row).id ≡ row.id)
    (keep : IsConsistent item → IsConsistent (f item)) where
  pub update_id-IsValid : IsValid t → IsValid (update_first (has_id id) f t)
  update_id-IsValid v =
      let (listed, named) = first-eq-some (has_id id) t item found in
      let same : item.id ≡ id = (==_iff item.id id).0 named in
      rw same at (update_listed-IsValid f item t slot ids listed keep v)
