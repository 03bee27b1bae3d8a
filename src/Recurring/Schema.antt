-- ===== src/Recurring/Schema.antt =====
-- The tables of models.py that the recurring plans use, with the columns that they read and write,
-- and the selections that portfolio_recurring.py makes of them.
use qdii_observatory.Common.{
  ℕ, String, Bool, true, false, ◌&&◌, Option, none, some, List, str_eq, ◌==◌, leb, is_some, filterb,
  first, anyb, sort_by,
}
use qdii_observatory.Common.Decimal.{Decimal}

pub record FundContract : Type 0 where
  pub id : ℕ
  pub representative_code : String

pub record FundShare : Type 0 where
  pub id : ℕ
  pub fund_contract_id : ℕ

-- CHECK recurring_frequency_allowed: NULL or 'DAILY'.
pub data Frequency : Type 0 where
  daily : Frequency

pub record PortfolioPosition : Type 0 where
  pub id : ℕ
  pub fund_share_id : ℕ
  pub is_active : Bool
  pub recurring_frequency : Option Frequency
  pub recurring_gross_amount : Option Decimal
  pub recurring_fee_pct : Option Decimal
  pub recurring_net_amount : Option Decimal
  pub recurring_confirmation_lag_days : ℕ

pub record DailyFundNav : Type 0 where
  pub id : ℕ
  pub fund_share_id : ℕ
  pub nav_date : ℕ
  pub unit_nav : Decimal
  pub source_provider : String

-- CHECK status_allowed
pub data OrderStatus : Type 0 where
  pending settled : OrderStatus

pub record Order : Type 0 where
  pub id : ℕ
  pub portfolio_position_id : ℕ
  pub order_date : ℕ
  pub expected_confirmation_date : ℕ
  pub status : OrderStatus
  pub gross_amount : Decimal
  pub fee_pct : Decimal
  pub net_amount : Decimal
  pub settled_execution_id : Option ℕ
  pub confirmed_at : Option ℕ

pub record Execution : Type 0 where
  pub id : ℕ
  pub portfolio_position_id : ℕ
  pub nav_date : ℕ
  pub unit_nav : Decimal
  pub gross_amount : Decimal
  pub fee_pct : Decimal
  pub net_amount : Decimal
  pub units : Decimal
  pub source_provider : String

pub record Database : Type 0 where
  pub contracts : List FundContract
  pub shares : List FundShare
  pub positions : List PortfolioPosition
  pub navs : List DailyFundNav
  pub orders : List Order
  pub executions : List Execution

-- `representative_code IN fund_codes`
unfoldable pub code_in : List String → String → Bool
code_in codes code = anyb (λ c. str_eq c code) codes

-- The joins of a position to its share and of that to its contract, by primary keys, and the
-- condition on the contract's code.
unfoldable pub in_scope : Database → List String → PortfolioPosition → Bool
unfolding code_in
in_scope db codes position = elim (first (λ share. share.id == position.fund_share_id) db.shares) [
  | none ↦ false
  | some share ↦ elim (first (λ contract. contract.id == share.fund_contract_id) db.contracts) [
    | none ↦ false
    | some contract ↦ code_in codes contract.representative_code
  ]
]

-- The condition of `_plan_positions`.
unfoldable pub has_plan : Database → List String → PortfolioPosition → Bool
unfolding in_scope
has_plan db codes position =
    position.is_active
    && is_some position.recurring_frequency
    && is_some position.recurring_gross_amount
    && is_some position.recurring_fee_pct
    && is_some position.recurring_net_amount
    && in_scope db codes position

unfoldable pub plan_positions : Database → List String → List PortfolioPosition
unfolding has_plan
plan_positions db codes = sort_by (λ a b. leb a.id b.id) (filterb (has_plan db codes) db.positions)

abbrev pub is_pending : Order → Bool
is_pending order = elim order.status [ pending ↦ true | settled ↦ false ]

-- The order of a position for a date.
abbrev pub is_order : ℕ → ℕ → Order → Bool
is_order position_id date order =
    order.portfolio_position_id == position_id && order.order_date == date

-- The NAV of a share on a date, and the execution of a position on a date.
abbrev pub is_nav : ℕ → ℕ → DailyFundNav → Bool
is_nav share_id date nav = nav.fund_share_id == share_id && nav.nav_date == date

abbrev pub is_execution : ℕ → ℕ → Execution → Bool
is_execution position_id date execution =
    execution.portfolio_position_id == position_id && execution.nav_date == date

-- The relation `order.portfolio_position`.
abbrev pub position_of : Database → Order → Option PortfolioPosition
position_of db order = first (λ position. position.id == order.portfolio_position_id) db.positions
