-- ===== src/Recurring/Prices.antt =====
-- At which NAV `settle_recurring_plans` of portfolio_recurring.py writes an execution.
use mathlib.Core.List.{Memᴰ}
use mathlib.Core.Path.{subst}
use qdii_observatory.Common.{
  ℕ, ◌≤◌, ◌≡◌, refl, sym, ◌∙◌, String, true, inl, inr, none, some, List, [], ◌∷◌, ◌==◌, ◌⊎◌, arith,
  Option-cases, first, All, filterb,
}
use qdii_observatory.Common.Decimal.{Decimal}
use qdii_observatory.Common.Rows.{
  All-listed, All-sort_by, first-eq-some, max_by-mem, mem-filterb, max_by-le, mem-filterb_of,
  All-mem,
}
use qdii_observatory.Recurring.Schema.{
  PortfolioPosition, DailyFundNav, Order, Execution, Database, is_nav, is_execution, position_of,
}
use qdii_observatory.Recurring.Settlement.{
  Settling, is_selected, order_le, selected_orders, order_nav, order_units, new_execution,
  mark_settled, write_execution, settle_at, settle_order, settle_orders, start_settling,
}
use qdii_observatory.Recurring.Rounds.{
  settle_order-no_nav, settle_order-at, settle_order-none, settle_orders-go, settle_orders-stop,
}

-- An execution that a settlement writes: for an order and a position of the tables, at a NAV of the
-- position's share at the order's date.
pub record Written (db : Database) (execution : Execution) : Type 0 where
  pub order : Order
  pub order_listed : Memᴰ order db.orders
  pub position : PortfolioPosition
  pub position_listed : Memᴰ position db.positions
  pub owner : position.id ≡ order.portfolio_position_id
  pub nav : DailyFundNav
  pub nav_listed : Memᴰ nav db.navs
  pub of_share : nav.fund_share_id ≡ position.fund_share_id
  pub of_date : nav.nav_date ≡ order.order_date
  pub latest :
      (n : DailyFundNav)
      → Memᴰ n db.navs
      → is_nav position.fund_share_id order.order_date n ≡ true
      → n.id ≤ nav.id
  pub at_position : execution.portfolio_position_id ≡ order.portfolio_position_id
  pub at_date : execution.nav_date ≡ order.order_date
  pub unit_nav : execution.unit_nav ≡ nav.unit_nav
  pub source_provider : execution.source_provider ≡ nav.source_provider
  pub gross_amount : execution.gross_amount ≡ order.gross_amount
  pub fee_pct : execution.fee_pct ≡ order.fee_pct
  pub net_amount : execution.net_amount ≡ order.net_amount
  pub units : order_units order nav ≡ some execution.units

module _ (ids : List Execution → ℕ) (now : ℕ) where
  -- The cases of `settle_at` for an order with a NAV.
  pub settle_at-reuse :
      (position : PortfolioPosition) (order : Order) (nav : DailyFundNav) (st : Settling)
      {execution : Execution}
      → first (is_execution position.id order.order_date) st.executions ≡ some execution
      → settle_at ids now position order (some nav) st
        ≡ some (mark_settled execution.id now position order nav st)
  unfolding settle_at
  settle_at-reuse position order nav st h = rw (h, settle_at)

  pub settle_at-fails :
      (position : PortfolioPosition) (order : Order) (nav : DailyFundNav) (st : Settling)
      → first (is_execution position.id order.order_date) st.executions ≡ none
      → order_units order nav ≡ none
      → settle_at ids now position order (some nav) st ≡ none
  unfolding settle_at
  settle_at-fails position order nav st h k = rw (h, settle_at) (rw k)

  pub settle_at-new :
      (position : PortfolioPosition) (order : Order) (nav : DailyFundNav) (st : Settling)
      {units : Decimal}
      → first (is_execution position.id order.order_date) st.executions ≡ none
      → order_units order nav ≡ some units
      → settle_at ids now position order (some nav) st
        ≡ some (
            mark_settled
              (ids st.executions)
              now
              position
              order
              nav
              (write_execution (new_execution (ids st.executions) position order nav units) st))
  unfolding settle_at
  settle_at-new position order nav st h k = rw (h, settle_at) (rw k)

  module _ (db : Database) where
    abbrev Accounted : Execution → Type 0
    Accounted e = Memᴰ e db.executions ⊎ Written db e

    new_execution-Written :
        (id : ℕ) (position : PortfolioPosition) (order : Order) (nav : DailyFundNav)
        (units : Decimal)
        → Memᴰ order db.orders
        → position_of db order ≡ some position
        → order_nav db position order ≡ some nav
        → order_units order nav ≡ some units
        → Written db (new_execution id position order nav units)
    unfolding new_execution order_nav
    new_execution-Written id position order nav units listed h k u =
        let (in_positions, owner) =
          first-eq-some (λ p. p.id == order.portfolio_position_id) db.positions position h in
        let selected = is_nav position.fund_share_id order.order_date in
        let (in_navs, is_of) =
          mem-filterb selected db.navs (max_by-mem (λ n. n.id) (filterb selected db.navs) nav k) in
        let same_position : position.id ≡ order.portfolio_position_id = ground (arith, owner) in
        let same_date : nav.nav_date ≡ order.order_date = ground (arith, is_of) in
        record {
          order = order;
          order_listed = listed;
          position = position;
          position_listed = in_positions;
          owner = same_position;
          nav = nav;
          nav_listed = in_navs;
          of_share = ground (arith, is_of);
          of_date = same_date;
          latest = λ n m t.
              All-mem (λ (x : DailyFundNav). x.id ≤ nav.id) (filterb selected db.navs)
                (max_by-le (λ x. x.id) (filterb selected db.navs) nav k)
                (mem-filterb_of selected db.navs m t);
          at_position = same_position;
          at_date = same_date;
          unit_nav = refl;
          source_provider = refl;
          gross_amount = refl;
          fee_pct = refl;
          net_amount = refl;
          units = u;
        }

    settle_at-Written :
        (position : PortfolioPosition) (order : Order) (nav : DailyFundNav) (st st' : Settling)
        → Memᴰ order db.orders
        → position_of db order ≡ some position
        → order_nav db position order ≡ some nav
        → settle_at ids now position order (some nav) st ≡ some st'
        → All Accounted st.executions
        → All Accounted st'.executions
    unfolding mark_settled write_execution
    settle_at-Written position order nav st st' listed h k e inv =
        elim (Option-cases (first (is_execution position.id order.order_date) st.executions)) [
          | inl f ↦ elim (Option-cases (order_units order nav)) [
            | inl u ↦ absurd (cc (settle_at-fails position order nav st f u, e))
            | inr (units, u) ↦
                let execution = new_execution (ids st.executions) position order nav units in
                let same : mark_settled (ids st.executions) now position order nav
                      (write_execution execution st)
                    ≡ st' =
                  cc (settle_at-new position order nav st f u, e) in
                subst (λ (s : Settling). All Accounted s.executions) same
                  (
                    inr (
                        new_execution-Written (ids st.executions) position order nav units listed h
                          k u),
                    inv,
                  )
          ]
          | inr (execution, f) ↦
              let same : mark_settled execution.id now position order nav st ≡ st' =
                cc (settle_at-reuse position order nav st f, e) in
              subst (λ (s : Settling). All Accounted s.executions) same inv
        ]

    settle_order-Written :
        (order : Order) (st st' : Settling)
        → Memᴰ order db.orders
        → settle_order ids now db order st ≡ some st'
        → All Accounted st.executions
        → All Accounted st'.executions
    settle_order-Written order st st' listed e inv = elim (Option-cases (position_of db order)) [
      | inl h ↦ absurd (cc (settle_order-none ids now db order st h, e))
      | inr (position, h) ↦ elim (Option-cases (order_nav db position order)) [
        | inl k ↦
            let same : st ≡ st' = cc (settle_order-no_nav ids now db order st h k, e) in
            subst (λ (s : Settling). All Accounted s.executions) same inv
        | inr (nav, k) ↦
            settle_at-Written position order nav st st' listed h k
              (rw k at (sym (settle_order-at ids now db order st h) ∙ e)) inv
      ]
    ]

    settle_rest-Written :
        (codes : List String) (rest : List Order) (st st' : Settling)
        → All (λ o. Memᴰ o db.orders) rest
        → settle_orders ids now db rest st ≡ some st'
        → All Accounted st.executions
        → All Accounted st'.executions
    settle_rest-Written codes [] st st' listed e inv =
        subst (λ (s : Settling). All Accounted s.executions) (ended e) inv
      where
        ended : settle_orders ids now db [] st ≡ some st' → st ≡ st'
        ended h = unfold settle_orders in ground (arith, h)
    settle_rest-Written codes (x ∷ rest) st st' (here, listed) e inv =
        elim (Option-cases (settle_order ids now db x st)) [
          | inl h ↦ absurd (cc (settle_orders-stop ids now db codes x rest st h, e))
          | inr (mid, h) ↦
              settle_rest-Written codes rest mid st' listed
                (sym (settle_orders-go ids now db codes x rest st mid h) ∙ e)
                (settle_order-Written x st mid here h inv)
        ]

    -- After the loop each execution was in the table before or is at the NAV of its order.
    pub settle_orders-Written :
        (codes : List String) (st : Settling)
        → settle_orders ids now db (selected_orders db codes) (start_settling ids now db) ≡ some st
        → All (λ e. Memᴰ e db.executions ⊎ Written db e) st.executions
    unfolding selected_orders
    settle_orders-Written codes st e =
        settle_rest-Written codes _ (start_settling ids now db) st
          (All-sort_by (λ o. Memᴰ o db.orders) order_le (filterb (is_selected db codes) db.orders)
            (All-listed (filterb (is_selected db codes) db.orders)
              (λ o m. (mem-filterb (is_selected db codes) db.orders m).0)))
          e (All-listed db.executions (λ x m. inl m))
