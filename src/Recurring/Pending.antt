-- ===== src/Recurring/Pending.antt =====
-- `recurring_plans_pending` against `settle_recurring_plans`: the two select different orders.
use mathlib.Core.List.{Memᴰ}
use qdii_observatory.Common.{
  ℕ, ◌≤◌, ◌≡◌, refl, sym, ap, ◌∙◌, String, Bool, true, false, ◌||◌, inl, inr, some, List, [], ◌∷◌,
  arith, Bool-cases, Option-cases, countb, anyb, All, filterb,
}
use qdii_observatory.Common.Rows.{
  All-mem, All-listed, All-sort_by, All-unique, mem-filterb, mem-update_first_ne, anyb-of_countb,
  countb_pos,
}
use qdii_observatory.Recurring.Schema.{
  PortfolioPosition, Order, Execution, Database, in_scope, is_pending, is_nav, position_of,
}
use qdii_observatory.Recurring.Settlement.{
  SettlementResult, Settling, has_order_id, is_selected, order_le, selected_orders, settle_row,
  settle_order, settle_orders, settle_recurring_plans, can_settle, recurring_plans_pending,
}
use qdii_observatory.Recurring.Rounds.{
  settle_order-Round, settle_orders-go, settle_orders-stop, settle-inv,
}

-- An order that the loop does not visit stays as it is.
settle_orders-keeps :
    (ids : List Execution → ℕ) (now : ℕ) (db : Database) (order : Order) (rest : List Order)
    (st st' : Settling)
    → settle_orders ids now db rest st ≡ some st'
    → All (λ x. has_order_id x.id order ≡ false) rest
    → Memᴰ order st.orders
    → Memᴰ order st'.orders
settle_orders-keeps ids now db order [] st st' e other m =
    let same : st ≡ st' = done e in rw (← same) m
  where
    done : settle_orders ids now db [] st ≡ some st' → st ≡ st'
    done h = unfold settle_orders in ground (arith, h)
settle_orders-keeps ids now db order (x ∷ rest) st st' e (other, others) m =
    elim (Option-cases (settle_order ids now db x st)) [
      | inl h ↦ absurd (cc (settle_orders-stop ids now db [] x rest st h))
      | inr (mid, h) ↦
          settle_orders-keeps ids now db order rest mid st'
            (sym (settle_orders-go ids now db [] x rest st mid h) ∙ e) others
            (elim (settle_order-Round ids now db x st mid h) [
              | inl (no_nav, same) ↦ rw same m
              | inr (id, updated) ↦
                  rw updated
                    (mem-update_first_ne (has_order_id x.id) (settle_row id now) st.orders m other)
            ])
    ]

or_true : (b : Bool) → (b || true) ≡ true
or_true true = refl
or_true false = refl

module _ (codes : List String) (db : Database) (order : Order) (position : PortfolioPosition)
    (unique : (id : ℕ) → countb (has_order_id id) db.orders ≤ 1) (listed : Memᴰ order db.orders)
    (pending : is_pending order ≡ true) (owner : position_of db order ≡ some position)
    (inactive : position.is_active ≡ false) where
  not_selected : is_selected db codes order ≡ false
  unfolding is_selected
  not_selected = rw owner (rw (pending, inactive))

  not_visited : All (λ x. has_order_id x.id order ≡ false) (selected_orders db codes)
  unfolding selected_orders
  not_visited =
      All-sort_by (λ x. has_order_id x.id order ≡ false) order_le
        (filterb (is_selected db codes) db.orders)
        (All-listed (filterb (is_selected db codes) db.orders) (λ x m.
          let (x_listed, selected) = mem-filterb (is_selected db codes) db.orders m in
          elim (Bool-cases (has_order_id x.id order)) [
            | inl e ↦
                let same : order ≡ x =
                  All-mem (λ y. has_order_id x.id y ≡ true → y ≡ x) db.orders
                    (All-unique (has_order_id x.id) db.orders (unique x.id) x_listed (ground arith))
                    listed e in
                absurd (cc (ap (is_selected db codes) same, selected, not_selected))
            | inr e ↦ e
          ]))

  -- Where the ids of the orders are unique: a pending order of a position in scope that is no longer
  -- active, with the NAV of its date in the table, is reported by `recurring_plans_pending` both
  -- before and after every settlement that returns, on any date: the one counts it, and
  -- `settle_recurring_plans` does not select it.
  pub recurring_plans_pending_stuck :
      (ids : List Execution → ℕ) (now date : ℕ) (result : SettlementResult) (db' : Database)
      → in_scope db codes position ≡ true
      → anyb (is_nav position.fund_share_id order.order_date) db.navs ≡ true
      → settle_recurring_plans ids now codes db ≡ some (result, db')
      → (recurring_plans_pending codes date db ≡ true)
        × (recurring_plans_pending codes date db' ≡ true)
  recurring_plans_pending_stuck ids now date result db' scope nav ended =
      let (st, e, same, _) = settle-inv ids now db codes result db' ended in
      let kept =
        settle_orders-keeps ids now db order (selected_orders db codes) _ st e not_visited listed in
      (
        reported db codes date order listed counted,
        rw same (reported _ codes date order kept (still_counted st.orders st.executions)),
      )
    where
      counted : can_settle db codes order ≡ true
      counted = unfold can_settle in rw owner (rw (pending, scope, nav))

      still_counted :
          (orders : List Order) (executions : List Execution)
          → can_settle (record db { orders = orders; executions = executions }) codes order ≡ true
      still_counted orders executions = unfold can_settle in counted

      reported :
          (d : Database) (c : List String) (day : ℕ) (o : Order)
          → Memᴰ o d.orders
          → can_settle d c o ≡ true
          → recurring_plans_pending c day d ≡ true
      reported d c day o m h =
          unfold recurring_plans_pending in
          rw (anyb-of_countb (can_settle d c) d.orders (countb_pos (can_settle d c) d.orders m h))
            (or_true _)
