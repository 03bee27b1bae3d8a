-- ===== src/Recurring/Plans.antt =====
-- `create_recurring_orders` of portfolio_recurring.py.
use qdii_observatory.Common.{
  ℕ, ◌+◌, String, ◌&&◌, Option, none, some, List, [], ◌∷◌, ◌==◌, leb, if◌then◌else◌, filterb, memb,
  map,
}
use qdii_observatory.Common.Decimal.{Decimal}
use qdii_observatory.Recurring.Calendar.{weekday, add_weekdays}
use qdii_observatory.Recurring.Schema.{PortfolioPosition, Order, pending, Database, plan_positions}

pub record CreationResult : Type 0 where
  pub orders_created : ℕ
  pub positions_ordered : ℕ
  pub order_date : ℕ

-- The ids of the planned positions that have an order for the date already.
unfoldable pub existing_position_ids : List PortfolioPosition → ℕ → List Order → List ℕ
existing_position_ids positions date orders =
    map (λ order. order.portfolio_position_id)
      (filterb
        (λ order.
          memb order.portfolio_position_id (map (λ p. p.id) positions) && order.order_date == date)
        orders)

-- The plan of a position, if all three amounts are set.
unfoldable pub amounts : PortfolioPosition → Option (Decimal × Decimal × Decimal)
amounts position = elim position.recurring_gross_amount [
  | none ↦ none
  | some gross ↦ elim position.recurring_fee_pct [
    | none ↦ none
    | some fee ↦ elim position.recurring_net_amount [
      | none ↦ none
      | some net ↦ some (gross, fee, net)
    ]
  ]
]

unfoldable pub new_order : ℕ → ℕ → PortfolioPosition → Decimal × Decimal × Decimal → Order
new_order id date position (gross, fee, net) = record {
  id = id;
  portfolio_position_id = position.id;
  order_date = date;
  expected_confirmation_date = add_weekdays date position.recurring_confirmation_lag_days;
  status = pending;
  gross_amount = gross;
  fee_pct = fee;
  net_amount = net;
  settled_execution_id = none;
  confirmed_at = none;
}

-- `ids` is what the database draws for a new row of the table.
module _ (ids : List Order → ℕ) (date : ℕ) (existing : List ℕ) where
  -- The body of the loop.
  unfoldable pub order_position : PortfolioPosition → ℕ × List Order → ℕ × List Order
  unfolding amounts new_order
  order_position position (created, orders) =
      if memb position.id existing then (created, orders) else elim (amounts position) [
        | none ↦ (created, orders)
        | some plan ↦ (created + 1, new_order (ids orders) date position plan ∷ orders)
      ]

  unfoldable pub order_positions : List PortfolioPosition → ℕ × List Order → ℕ × List Order
  unfolding order_position
  order_positions [] state = state
  order_positions (position ∷ rest) state = order_positions rest (order_position position state)

unfoldable pub nothing_created : ℕ → Database → CreationResult × Database
nothing_created date db =
    (record { orders_created = 0; positions_ordered = 0; order_date = date }, db)

-- `if not positions: return`, and what follows it.
unfoldable pub create_planned :
    (List Order → ℕ) → ℕ → Database → List PortfolioPosition → CreationResult × Database
unfolding nothing_created order_positions existing_position_ids
create_planned ids date db [] = nothing_created date db
create_planned ids date db (position ∷ rest) =
    let positions = position ∷ rest in
    let (created, orders) =
      order_positions ids date (existing_position_ids positions date db.orders) positions
        (0, db.orders) in
    (
      record { orders_created = created; positions_ordered = created; order_date = date },
      record db { orders = orders },
    )

-- `current_date` is `order_date or _local_today()`.
unfoldable pub create_recurring_orders :
    (List Order → ℕ) → List String → ℕ → Database → CreationResult × Database
unfolding create_planned plan_positions
create_recurring_orders ids codes current_date db =
    if leb 5 (weekday current_date)
    then nothing_created current_date db
    else create_planned ids current_date db (plan_positions db codes)
