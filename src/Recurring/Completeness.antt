-- ===== src/Recurring/Completeness.antt =====
-- A settlement leaves no order behind that it could settle, so that a second one changes nothing.

use qdii_observatory.Common.{
  ℕ, ◌≤◌, ◌≡◌, refl, ◌∙◌, String, true, false, none, some, List, arith, filterb, countb, All,
}
use qdii_observatory.Common.Rows.{All-mono, All-listed, All-mem, All-sort_by, mem-filterb}
use qdii_observatory.Recurring.Schema.{Order, Execution, Database}
use qdii_observatory.Recurring.Settlement.{
  SettlementResult, has_order_id, is_selected, order_le, selected_orders, order_nav, start_settling,
  settle_recurring_plans, unique_citations,
}
use qdii_observatory.Recurring.Rounds.{
  has_nav, is_ready, settle_orders-Left, start-Left, none_ready, settle_orders-idle, settle-state,
  settle-inv,
}

no_nav_of_not_ready :
    (db : Database) (codes : List String) (o : Order)
    → is_selected db codes o ≡ true
    → is_ready db codes o ≡ false
    → has_nav db o ≡ false
unfolding is_ready
no_nav_of_not_ready db codes o s h = ground arith

is_ready-unchanged :
    (db : Database) (codes : List String) (orders : List Order) (executions : List Execution)
    (o : Order)
    → is_ready (record db { orders = orders; executions = executions }) codes o
      ≡ is_ready db codes o
unfolding is_ready is_selected has_nav order_nav
is_ready-unchanged db codes orders executions o = refl

module _ (ids : List Execution → ℕ) (now : ℕ) (codes : List String) (db : Database)
    (result : SettlementResult) (db' : Database)
    (unique : (id : ℕ) → countb (has_order_id id) db.orders ≤ 1)
    (ended : settle_recurring_plans ids now codes db ≡ some (result, db')) where
  -- Where the ids of the orders are unique: after a settlement that returns, no pending order of an
  -- active position in scope has a NAV of its date, so every order that could settle is settled.
  pub settle_recurring_plans_complete : All (λ o. is_ready db' codes o ≡ false) db'.orders
  settle_recurring_plans_complete =
      let (st, e, same, _) = settle-inv ids now db codes result db' ended in
      let left =
        settle_orders-Left ids now db codes _ _ st e (start-Left ids now db codes unique) in
      rw same (
        All-mono st.orders (λ o h. is_ready-unchanged db codes st.orders st.executions o ∙ h)
          (none_ready ids now db codes st left))

  -- Where the ids of the orders are unique: after a settlement that returns, a second one in the
  -- same scope, whatever ids and time it draws, settles nothing, writes nothing and changes nothing.
  pub settle_recurring_plans_twice :
      (ids' : List Execution → ℕ) (now' : ℕ)
      → settle_recurring_plans ids' now' codes db'
        ≡ some (
          record {
            orders_settled = 0;
            executions_written = 0;
            positions_updated = 0;
            latest_nav_date = none;
          },
          db',
        )
  settle_recurring_plans_twice ids' now' =
      settle-state ids' now' db' codes (start_settling ids' now' db')
        (settle_orders-idle ids' now' db' codes (selected_orders db' codes)
          (start_settling ids' now' db') passed)
        cited
    where
      cited : unique_citations db'.orders ≡ true
      cited = let (st, e, same, once) = settle-inv ids now db codes result db' ended in rw same once

      passed :
          All
            (λ o. (is_selected db' codes o ≡ true) × (has_nav db' o ≡ false))
            (selected_orders db' codes)
      passed =
          unfold selected_orders in
          All-sort_by (λ o. (is_selected db' codes o ≡ true) × (has_nav db' o ≡ false)) order_le _
            (All-listed (filterb (is_selected db' codes) db'.orders) (λ o m.
              let (listed, selected) = mem-filterb (is_selected db' codes) db'.orders m in
              (
                selected,
                no_nav_of_not_ready db' codes o selected (
                    All-mem (λ x. is_ready db' codes x ≡ false) db'.orders
                      settle_recurring_plans_complete listed),
              )))
