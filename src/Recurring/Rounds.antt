-- ===== src/Recurring/Rounds.antt =====
-- The loop of `settle_recurring_plans`, round by round: what is left to visit between two rounds.
use mathlib.Core.List.{Memᴰ}
use qdii_observatory.Common.{
  ℕ, ◌≤◌, ◌≡◌, refl, sym, ap, ◌∙◌, String, Bool, true, false, ◌&&◌, ◌⊎◌, inl, inr, none, some, List,
  [], ◌∷◌, is_some, arith, Bool-cases, Option-cases, filterb, first, countb, anyb, All,
  update_first, length,
}
use qdii_observatory.Common.Rows.{
  All-mono, All-zip, All-listed, All-unique, All-sort_by, All-update_only, All-everywhere,
  All-countb-false, anyb-of_countb, countb_pos, countb-sort_by, countb-filterb, countb-le,
  countb-update_first-le, mem-filterb, mem-filterb_of, mem-update_first_ne,
}
use qdii_observatory.Recurring.Schema.{
  PortfolioPosition, DailyFundNav, Order, Execution, Database, is_execution, position_of,
}
use qdii_observatory.Recurring.Settlement.{
  SettlementResult, Settling, has_order_id, is_selected, order_le, selected_orders, order_nav,
  order_units, settle_row, settle_at, settle_order, settle_orders, start_settling,
  settle_recurring_plans, unique_citations,
}

-- The source has a NAV of the position's share for the date of the order.
unfoldable pub has_nav : Database → Order → Bool
has_nav db order = elim (position_of db order) [
  | none ↦ false
  | some position ↦ is_some (order_nav db position order)
]

-- An order that the settlement is meant to settle.
unfoldable pub is_ready : Database → List String → Order → Bool
is_ready db codes order = is_selected db codes order && has_nav db order

module _ (ids : List Execution → ℕ) (now : ℕ) (db : Database) where
  -- What one round does to the table of orders.
  abbrev pub Round : Order → Settling → Settling → Type 0
  Round order st st' =
      ((has_nav db order ≡ false) × (st' ≡ st))
      ⊎ ((id : ℕ) × (st'.orders
            ≡ update_first (has_order_id order.id) (settle_row id now) st.orders))

  settle_at-Round :
      (position : PortfolioPosition) (order : Order) (nav : DailyFundNav) (st st' : Settling)
      → settle_at ids now position order (some nav) st ≡ some st'
      → (id : ℕ) × (st'.orders ≡ update_first (has_order_id order.id) (settle_row id now) st.orders)
  unfolding settle_at
  settle_at-Round position order nav st st' e =
      elim (Option-cases (first (is_execution position.id order.order_date) st.executions)) [
        | inl h ↦ elim (Option-cases (order_units order nav)) [
          | inl k ↦ absurd (ground arith)
          | inr (units, k) ↦ (ids st.executions, ground arith)
        ]
        | inr (execution, h) ↦ (execution.id, ground arith)
      ]

  pub settle_order-at :
      (order : Order) (st : Settling) {position : PortfolioPosition}
      → position_of db order ≡ some position
      → settle_order ids now db order st
        ≡ settle_at ids now position order (order_nav db position order) st
  unfolding settle_order
  settle_order-at order st h = rw (h, settle_order)

  has_nav-at :
      (order : Order) {position : PortfolioPosition}
      → position_of db order ≡ some position
      → has_nav db order ≡ is_some (order_nav db position order)
  unfolding has_nav
  has_nav-at order h = rw (h, has_nav)

  pub settle_order-none :
      (order : Order) (st : Settling)
      → position_of db order ≡ none
      → settle_order ids now db order st ≡ none
  unfolding settle_order
  settle_order-none order st h = rw (h, settle_order)

  pub settle_order-no_nav :
      (order : Order) (st : Settling) {position : PortfolioPosition}
      → position_of db order ≡ some position
      → order_nav db position order ≡ none
      → settle_order ids now db order st ≡ some st
  settle_order-no_nav order st h k = settle_order-at order st h ∙ (unfold settle_at in rw k)

  pub settle_order-Round :
      (order : Order) (st st' : Settling)
      → settle_order ids now db order st ≡ some st'
      → Round order st st'
  settle_order-Round order st st' e = elim (Option-cases (position_of db order)) [
    | inl h ↦ absurd (cc (settle_order-none order st h))
    | inr (position, h) ↦ elim (Option-cases (order_nav db position order)) [
      | inl k ↦ inl (has_nav-at order h ∙ (rw k), cc (settle_order-no_nav order st h k))
      | inr (nav, k) ↦ inr (
          settle_at-Round position order nav st st'
            (rw k at (sym (settle_order-at order st h) ∙ e)))
    ]
  ]

  module _ (codes : List String) where
    pub settle_orders-stop :
        (x : Order) (rest : List Order) (st : Settling)
        → settle_order ids now db x st ≡ none
        → settle_orders ids now db (x ∷ rest) st ≡ none
    unfolding settle_orders
    settle_orders-stop x rest st h = rw (h, settle_orders)

    pub settle_orders-go :
        (x : Order) (rest : List Order) (st mid : Settling)
        → settle_order ids now db x st ≡ some mid
        → settle_orders ids now db (x ∷ rest) st ≡ settle_orders ids now db rest mid
    unfolding settle_orders
    settle_orders-go x rest st mid h = rw (h, settle_orders)

    selected_of_ready : (o : Order) → is_ready db codes o ≡ true → is_selected db codes o ≡ true
    unfolding is_ready
    selected_of_ready o h = ground arith

    pub selected_has_position :
        (o : Order) → position_of db o ≡ none → is_selected db codes o ≡ false
    unfolding is_selected
    selected_has_position o h = ground arith

    settle-stop :
        settle_orders ids now db (selected_orders db codes) (start_settling ids now db) ≡ none
        → settle_recurring_plans ids now codes db ≡ none
    settle-stop h = unfold settle_recurring_plans in rw (h, settle_recurring_plans)

    -- Between two rounds: the orders still to visit are unchanged rows of the table, and every
    -- order that is ready is among them.
    pub record Left (rest : List Order) (st : Settling) : Type 0 where
      pub unique : (id : ℕ) → countb (has_order_id id) st.orders ≤ 1
      distinct : (id : ℕ) → countb (has_order_id id) rest ≤ 1
      pub listed : All (λ o. Memᴰ o st.orders) rest
      ready : All (λ o. is_ready db codes o ≡ true → anyb (has_order_id o.id) rest ≡ true) st.orders

    not_ready : (order : Order) → has_nav db order ≡ false → is_ready db codes order ≡ false
    unfolding is_ready
    not_ready order h = ground arith

    settled-not_ready :
        (id : ℕ) (order : Order) → is_ready db codes (settle_row id now order) ≡ false
    unfolding is_ready is_selected settle_row
    settled-not_ready id order = refl

    rest-other :
        (x : Order) (rest : List Order)
        → countb (has_order_id x.id) (x ∷ rest) ≤ 1
        → All (λ o. has_order_id x.id o ≡ false) rest
    rest-other x rest h = All-countb-false (has_order_id x.id) rest (ground arith)

    pub Round-Left :
        (x : Order) (rest : List Order) (st st' : Settling)
        → Round x st st'
        → Left (x ∷ rest) st
        → Left rest st'
    Round-Left x rest st st' (inl (no_nav, same)) inv = rw same (record {
      unique = inv.unique;
      distinct = λ id. ground (arith, inv.distinct id);
      listed = inv.listed.1;
      ready =
          All-zip st.orders
            (λ o same h ready. elim (Bool-cases (has_order_id o.id x)) [
              | inl e ↦ absurd (
                  cc (ap (is_ready db codes) (same (ground (arith, e))), ready, not_ready x no_nav))
              | inr e ↦ ground (arith, h ready)
            ])
            (All-unique (has_order_id x.id) st.orders (inv.unique x.id) inv.listed.0 (ground arith))
            inv.ready;
    })
    Round-Left x rest st st' (inr (id, updated)) inv = record {
      unique = λ i. rw updated (
          omega (
            arith,
            inv.unique i,
            countb-update_first-le (has_order_id i) (has_order_id x.id) (settle_row id now)
                st.orders (unfold settle_row in λ row h. h),
          ));
      distinct = λ i. ground (arith, inv.distinct i);
      listed = rw updated (
          All-zip rest
            (λ o m other.
              mem-update_first_ne (has_order_id x.id) (settle_row id now) st.orders m other)
            inv.listed.1 (rest-other x rest (inv.distinct x.id)));
      ready = rw updated (
          All-update_only (λ o. is_ready db codes o ≡ true → anyb (has_order_id o.id) rest ≡ true)
            (has_order_id x.id) (settle_row id now) st.orders (inv.unique x.id)
            (All-everywhere st.orders (λ o _ ready. absurd (cc (settled-not_ready id o))))
            (All-mono st.orders (λ o h other ready. ground (arith, h ready)) inv.ready));
    }

    pub settle_orders-Left :
        (rest : List Order) (st st' : Settling)
        → settle_orders ids now db rest st ≡ some st'
        → Left rest st
        → Left [] st'
    unfolding settle_orders
    settle_orders-Left [] st st' e inv = let same : st ≡ st' = ground arith in rw (← same) inv
    settle_orders-Left (x ∷ rest) st st' e inv =
        elim (Option-cases (settle_order ids now db x st)) [
          | inl h ↦ absurd (cc (settle_orders-stop x rest st h))
          | inr (mid, h) ↦
              settle_orders-Left rest mid st' (sym (settle_orders-go x rest st mid h) ∙ e)
                (Round-Left x rest st mid (settle_order-Round x st mid h) inv)
        ]

    pub start-Left :
        ((id : ℕ) → countb (has_order_id id) db.orders ≤ 1)
        → Left (selected_orders db codes) (start_settling ids now db)
    unfolding selected_orders
    start-Left u = record {
      unique = u;
      distinct = λ id.
          rw
            (
              countb-sort_by (has_order_id id) order_le (filterb (is_selected db codes) db.orders),
              countb-filterb (has_order_id id) (is_selected db codes) db.orders,
            )
            (omega (
              arith,
              u id,
              countb-le (λ o. is_selected db codes o && has_order_id id o) (has_order_id id)
                  db.orders (λ o h. ground arith),
            ));
      listed =
          All-sort_by (λ o. Memᴰ o db.orders) order_le (filterb (is_selected db codes) db.orders)
            (All-listed (filterb (is_selected db codes) db.orders)
              (λ o m. (mem-filterb (is_selected db codes) db.orders m).0));
      ready = All-listed db.orders (λ o m ready. anyb-of_countb (has_order_id o.id) _ (
          rw
            (countb-sort_by (has_order_id o.id) order_le (filterb (is_selected db codes) db.orders))
            (countb_pos (has_order_id o.id) _
              (mem-filterb_of (is_selected db codes) db.orders m (selected_of_ready o ready))
              (ground arith))));
    }

    pub none_ready : (st : Settling) → Left [] st → All (λ o. is_ready db codes o ≡ false) st.orders
    none_ready st inv =
        All-mono st.orders
          (λ o h. elim (Bool-cases (is_ready db codes o)) [ inl e ↦ absurd (cc (h e)) | inr e ↦ e ])
          inv.ready

    -- A list of orders without a NAV is passed over.
    pub settle_orders-idle :
        (rest : List Order) (st : Settling)
        → All (λ o. (is_selected db codes o ≡ true) × (has_nav db o ≡ false)) rest
        → settle_orders ids now db rest st ≡ some st
    settle_orders-idle [] st h = unfold settle_orders in refl
    settle_orders-idle (x ∷ rest) st (h, hs) = elim (Option-cases (position_of db x)) [
      | inl e ↦ absurd (cc (selected_has_position x e, h.0))
      | inr (position, e) ↦ elim (Option-cases (order_nav db position x)) [
        | inl k ↦
            settle_orders-go x rest st st (settle_order-no_nav x st e k)
            ∙ settle_orders-idle rest st hs
        | inr (nav, k) ↦ absurd (cc (has_nav-at x e, ap is_some k, h.1))
      ]
    ]

    module _ (st : Settling) where
      -- How a settlement ends, from how its loop ends.
      pub settle-state :
          settle_orders ids now db (selected_orders db codes) (start_settling ids now db) ≡ some st
          → unique_citations st.orders ≡ true
          → settle_recurring_plans ids now codes db
            ≡ some (
              record {
                orders_settled = st.settled_orders;
                executions_written = st.written;
                positions_updated = length st.updated;
                latest_nav_date = st.latest_settled;
              },
              record db { orders = st.orders; executions = st.executions },
            )
      settle-state e u = unfold settle_recurring_plans in rw (e, settle_recurring_plans) (rw u refl)

      settle-refused :
          settle_orders ids now db (selected_orders db codes) (start_settling ids now db) ≡ some st
          → unique_citations st.orders ≡ false
          → settle_recurring_plans ids now codes db ≡ none
      settle-refused e u =
          unfold settle_recurring_plans in rw (e, settle_recurring_plans) (rw u refl)

    pub settle-inv :
        (result : SettlementResult) (db' : Database)
        → settle_recurring_plans ids now codes db ≡ some (result, db')
        → (st : Settling) × (settle_orders ids now db
              (selected_orders db codes)
              (start_settling ids now db)
            ≡ some st)
          × (db' ≡ record db { orders = st.orders; executions = st.executions })
          × (unique_citations st.orders ≡ true)
    settle-inv result db' e =
        elim (Option-cases
          (settle_orders ids now db (selected_orders db codes) (start_settling ids now db))) [
            | inl h ↦ absurd (cc (settle-stop h))
            | inr (st, h) ↦ elim (Bool-cases (unique_citations st.orders)) [
              | inl u ↦ (st, h, cc (settle-state st h u), u)
              | inr u ↦ absurd (cc (settle-refused st h u))
            ]
          ]
