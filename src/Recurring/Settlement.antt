-- ===== src/Recurring/Settlement.antt =====
-- `settle_recurring_plans` and `recurring_plans_pending` of portfolio_recurring.py.
use qdii_observatory.Common.{
  ℕ, ◌+◌, String, Bool, true, false, not, ◌&&◌, ◌||◌, Option, none, some, List, [], ◌∷◌, ◌==◌, leb,
  ltb, if◌then◌else◌, length, filterb, first, anyb, memb, max_by, update_first, sort_by,
}
use qdii_observatory.Common.Decimal.{Decimal, whole, less, divide, quantize, half_up}
use qdii_observatory.Recurring.Calendar.{weekday}
use qdii_observatory.Recurring.Schema.{
  PortfolioPosition, DailyFundNav, Order, Execution, settled, Database, in_scope, plan_positions,
  is_pending, is_nav, is_execution, position_of,
}
use qdii_observatory.Recurring.Plans.{existing_position_ids}

pub record SettlementResult : Type 0 where
  pub orders_settled : ℕ
  pub executions_written : ℕ
  pub positions_updated : ℕ
  pub latest_nav_date : Option ℕ

-- The variables of the loop, with the two tables that it changes. `updated` is a set.
pub record Settling : Type 0 where
  pub orders : List Order
  pub executions : List Execution
  pub settled_orders : ℕ
  pub written : ℕ
  pub updated : List ℕ
  pub latest_settled : Option ℕ

abbrev pub has_order_id : ℕ → Order → Bool
has_order_id id order = order.id == id

-- The condition of the query for orders.
unfoldable pub is_selected : Database → List String → Order → Bool
unfolding in_scope
is_selected db codes order = is_pending order && elim (position_of db order) [
  | none ↦ false
  | some position ↦ position.is_active && in_scope db codes position
]

-- ORDER BY order_date, id
abbrev pub order_le : Order → Order → Bool
order_le a b = ltb a.order_date b.order_date || (a.order_date == b.order_date && leb a.id b.id)

unfoldable pub selected_orders : Database → List String → List Order
unfolding is_selected
selected_orders db codes = sort_by order_le (filterb (is_selected db codes) db.orders)

-- The NAV of the order's date with the greatest id.
unfoldable pub order_nav : Database → PortfolioPosition → Order → Option DailyFundNav
unfolding max_by
order_nav db position order =
    max_by (λ nav. nav.id) (filterb (is_nav position.fund_share_id order.order_date) db.navs)

-- `(order.net_amount / nav.unit_nav).quantize(QUANTITY_SCALE, rounding=ROUND_HALF_UP)`, and the
-- CHECK that the units are positive; `none` is an exception.
unfoldable pub order_units : Order → DailyFundNav → Option Decimal
unfolding divide quantize half_up less
order_units order nav = elim (divide order.net_amount nav.unit_nav) [
  | none ↦ none
  | some quotient ↦ elim (quantize half_up 8 quotient) [
    | none ↦ none
    | some units ↦ if less (whole 0) units then some units else none
  ]
]

unfoldable pub new_execution : ℕ → PortfolioPosition → Order → DailyFundNav → Decimal → Execution
new_execution id position order nav units = record {
  id = id;
  portfolio_position_id = position.id;
  nav_date = nav.nav_date;
  unit_nav = nav.unit_nav;
  gross_amount = order.gross_amount;
  fee_pct = order.fee_pct;
  net_amount = order.net_amount;
  units = units;
  source_provider = nav.source_provider;
}

unfoldable pub settle_row : ℕ → ℕ → Order → Order
settle_row execution_id now order = record order {
  status = settled;
  settled_execution_id = some execution_id;
  confirmed_at = some now;
}

unfoldable pub later : Option ℕ → ℕ → Option ℕ
later none date = some date
later (some old) date = if ltb old date then some date else some old

abbrev pub with_member : ℕ → List ℕ → List ℕ
with_member n set = if memb n set then set else n ∷ set

-- `order` is settled by the execution with this id.
unfoldable pub mark_settled : ℕ → ℕ → PortfolioPosition → Order → DailyFundNav → Settling → Settling
unfolding settle_row later
mark_settled execution_id now position order nav state = record state {
  orders = update_first (has_order_id order.id) (settle_row execution_id now) state.orders;
  settled_orders = state.settled_orders + 1;
  updated = with_member position.id state.updated;
  latest_settled = later state.latest_settled nav.nav_date;
}

unfoldable pub write_execution : Execution → Settling → Settling
write_execution execution state = record state {
  executions = execution ∷ state.executions;
  written = state.written + 1;
}

-- UNIQUE (settled_execution_id) of the orders, which the commit checks: no two cite one execution.
abbrev pub cites : ℕ → Order → Bool
cites id order = elim order.settled_execution_id [ none ↦ false | some i ↦ i == id ]

unfoldable pub unique_citations : List Order → Bool
unique_citations [] = true
unique_citations (order ∷ orders) =
    elim order.settled_execution_id [ none ↦ true | some id ↦ not (anyb (cites id) orders) ]
    && unique_citations orders

-- `ids` is what the database draws for a new row, and `now` the clock; `none` is an exception,
-- which leaves the session uncommitted.
module _ (ids : List Execution → ℕ) (now : ℕ) where
  unfoldable pub settle_at :
      PortfolioPosition → Order → Option DailyFundNav → Settling → Option Settling
  unfolding mark_settled write_execution new_execution order_units
  settle_at position order none state = some state
  settle_at position order (some nav) state =
      elim (first (is_execution position.id order.order_date) state.executions) [
        | some execution ↦ some (mark_settled execution.id now position order nav state)
        | none ↦ elim (order_units order nav) [
          | none ↦ none
          | some units ↦
              let execution = new_execution (ids state.executions) position order nav units in
              some
                (mark_settled execution.id now position order nav (write_execution execution state))
        ]
      ]

  -- The body of the loop. An order has a position, by the join that selected it.
  unfoldable pub settle_order : Database → Order → Settling → Option Settling
  unfolding settle_at order_nav
  settle_order db order state = elim (position_of db order) [
    | none ↦ none
    | some position ↦ settle_at position order (order_nav db position order) state
  ]

  unfoldable pub settle_orders : Database → List Order → Settling → Option Settling
  unfolding settle_order
  settle_orders db [] state = some state
  settle_orders db (order ∷ rest) state = elim (settle_order db order state) [
    | none ↦ none
    | some state' ↦ settle_orders db rest state'
  ]

  abbrev pub start_settling : Database → Settling
  start_settling db = record {
    orders = db.orders;
    executions = db.executions;
    settled_orders = 0;
    written = 0;
    updated = [];
    latest_settled = none;
  }

  -- `none` is an exception of the loop, or the IntegrityError of a commit with two citations.
  unfoldable pub settle_recurring_plans :
      List String → Database → Option (SettlementResult × Database)
  unfolding settle_orders selected_orders unique_citations
  settle_recurring_plans codes db =
      elim (settle_orders db (selected_orders db codes) (start_settling db)) [
        | none ↦ none
        | some state ↦
            if unique_citations state.orders
            then some (
              record {
                orders_settled = state.settled_orders;
                executions_written = state.written;
                positions_updated = length state.updated;
                latest_nav_date = state.latest_settled;
              },
              record db { orders = state.orders; executions = state.executions },
            )
            else none
      ]

-- The condition of the query of `recurring_plans_pending` for an order that can settle.
unfoldable pub can_settle : Database → List String → Order → Bool
unfolding in_scope
can_settle db codes order = is_pending order && elim (position_of db order) [
  | none ↦ false
  | some position ↦
      in_scope db codes position && anyb (is_nav position.fund_share_id order.order_date) db.navs
]

unfoldable pub recurring_plans_pending : List String → ℕ → Database → Bool
unfolding plan_positions existing_position_ids
recurring_plans_pending codes current_date db =
    let positions = plan_positions db codes in
    let existing = existing_position_ids positions current_date db.orders in
    (ltb (weekday current_date) 5 && anyb (λ position. not (memb position.id existing)) positions)
    || anyb (can_settle db codes) db.orders
