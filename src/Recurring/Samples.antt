-- ===== src/Recurring/Samples.antt =====
-- The theorems on recurring plans at a small database: one fund with its share, an active position
-- with a daily plan, and a closed position whose last order is still pending.
use mathlib.Core.List.{Memᴰ}
use qdii_observatory.Common.{
  ℕ, ◌⊎◌, ◌+◌, ◌≤◌, ◌<◌, ◌≡◌, refl, String, true, false, Option, none, some, List, [], ◌∷◌, ◌==◌,
  arith, countb, All, first, length, sort_by,
}
use qdii_observatory.Common.Decimal.{whole, scaled}
use qdii_observatory.Recurring.Calendar.{
  weekday, is_weekday, weekdays_after, add_weekdays, add_weekdays_lem,
}
use qdii_observatory.Recurring.Schema.{
  daily, PortfolioPosition, Order, pending, Execution, Database, has_plan, in_scope, is_order,
}
use qdii_observatory.Recurring.Plans.{create_recurring_orders}
use qdii_observatory.Recurring.Creation.{
  IsUnique, create_recurring_orders-IsUnique, create_recurring_orders_once,
  create_recurring_orders_twice,
}
use qdii_observatory.Recurring.Settlement.{
  SettlementResult, settle_recurring_plans, recurring_plans_pending, has_order_id,
}
use qdii_observatory.Recurring.Rounds.{is_ready}
use qdii_observatory.Recurring.Completeness.{
  settle_recurring_plans_complete, settle_recurring_plans_twice,
}
use qdii_observatory.Recurring.Pending.{recurring_plans_pending_stuck}
use qdii_observatory.Recurring.Prices.{Written}
use qdii_observatory.Recurring.Backing.{IsBacked, settle_recurring_plans-IsBacked}

abbrev codes : List String
codes = "017436" ∷ []

-- A Wednesday.
abbrev today : ℕ
today = 739700

abbrev position : PortfolioPosition
position = record {
  id = 1;
  fund_share_id = 5;
  is_active = true;
  recurring_frequency = some daily;
  recurring_gross_amount = some (whole 100);
  recurring_fee_pct = some (scaled 12 2);
  recurring_net_amount = some (scaled 9988 2);
  recurring_confirmation_lag_days = 4;
}

abbrev closed : PortfolioPosition
closed = record position { id = 2; is_active = false }

abbrev order : Order
order = record {
  id = 1;
  portfolio_position_id = 1;
  order_date = 739699;
  expected_confirmation_date = 739703;
  status = pending;
  gross_amount = whole 100;
  fee_pct = scaled 12 2;
  net_amount = scaled 9988 2;
  settled_execution_id = none;
  confirmed_at = none;
}

abbrev closed_order : Order
closed_order = record order { id = 2; portfolio_position_id = 2 }

abbrev db : Database
db = record {
  contracts = record { id = 3; representative_code = "017436" } ∷ [];
  shares = record { id = 5; fund_contract_id = 3 } ∷ [];
  positions = position ∷ closed ∷ [];
  navs =
      record {
        id = 9;
        fund_share_id = 5;
        nav_date = 739699;
        unit_nav = scaled 12345 4;
        source_provider = "eastmoney";
      }
      ∷ [];
  orders = order ∷ closed_order ∷ [];
  executions = [];
}

abbrev row_ids {ℓ} : {A : Type ℓ} → List A → ℕ
row_ids rows = length rows + 1

-- Four weekdays after a Wednesday is the next Tuesday.
added : add_weekdays today 4 ≡ 739706
unfolding add_weekdays
added = refl

ordered :
    (create_recurring_orders row_ids codes today db).0
    ≡ record { orders_created = 1; positions_ordered = 1; order_date = today }
unfolding create_recurring_orders weekday sort_by
ordered = refl

abbrev settled_result : SettlementResult
settled_result = record {
  orders_settled = 1;
  executions_written = 1;
  positions_updated = 1;
  latest_nav_date = some 739699;
}

abbrev at_result {ℓ κ} : {A : Type ℓ} {B : Type κ} → B → (A → B) → Option A → B
at_result b f none = b
at_result b f (some a) = f a

abbrev settled_db : Database
settled_db =
    at_result db (λ (r : SettlementResult × Database). r.1)
      (settle_recurring_plans row_ids 1000 codes db)

settles : settle_recurring_plans row_ids 1000 codes db ≡ some (settled_result, settled_db)
unfolding settle_recurring_plans sort_by
settles = refl

-- 99.88 at a NAV of 1.2345 are 80.90725 units.
units :
    at_result
      (whole 0)
      (λ (x : Execution). x.units)
      (first (λ x. x.nav_date == 739699) settled_db.executions)
    ≡ scaled 8090724990 8
unfolding settle_recurring_plans sort_by
units = refl

add_weekdays_lem_example :
    (n : ℕ) × (add_weekdays today 4 ≡ today + n)
    × (weekdays_after today n ≡ 4)
    × (0 < 4 → is_weekday (add_weekdays today 4) ≡ true)
add_weekdays_lem_example = add_weekdays_lem today 4

unique_orders : (id : ℕ) → countb (has_order_id id) db.orders ≤ 1
unique_orders id = ground arith

db-IsUnique : IsUnique db
db-IsUnique = record { orders = λ q d. ground arith; positions = λ q. ground arith }

position-listed : Memᴰ position db.positions
position-listed = Memᴰ.head refl

position-planned : has_plan db codes position ≡ true
unfolding has_plan
position-planned = refl

create_recurring_orders-IsUnique_example :
    IsUnique (create_recurring_orders row_ids codes today db).1
create_recurring_orders-IsUnique_example =
    create_recurring_orders-IsUnique row_ids codes today db db-IsUnique

today-workday : weekday today < 5
unfolding weekday
today-workday = omega arith

create_recurring_orders_once_example :
    countb (is_order 1 today) (create_recurring_orders row_ids codes today db).1.orders ≡ 1
create_recurring_orders_once_example =
    create_recurring_orders_once row_ids codes today db position db-IsUnique today-workday
      position-listed position-planned

create_recurring_orders_twice_example :
    create_recurring_orders row_ids codes today (create_recurring_orders row_ids codes today db).1
    ≡ (
      record { orders_created = 0; positions_ordered = 0; order_date = today },
      (create_recurring_orders row_ids codes today db).1,
    )
create_recurring_orders_twice_example =
    create_recurring_orders_twice row_ids row_ids codes today db db-IsUnique

settle_recurring_plans_complete_example :
    All (λ o. is_ready settled_db codes o ≡ false) settled_db.orders
settle_recurring_plans_complete_example =
    settle_recurring_plans_complete row_ids 1000 codes db settled_result settled_db unique_orders
      settles

settle_recurring_plans_twice_example :
    settle_recurring_plans row_ids 2000 codes settled_db
    ≡ some (
      record {
        orders_settled = 0;
        executions_written = 0;
        positions_updated = 0;
        latest_nav_date = none;
      },
      settled_db,
    )
settle_recurring_plans_twice_example =
    settle_recurring_plans_twice row_ids 1000 codes db settled_result settled_db unique_orders
      settles row_ids 2000

db-IsBacked : IsBacked db.orders db.executions
db-IsBacked = record {
  backed = ((λ h. absurd (ground arith)), ((λ h. absurd (ground arith)), tt));
  one_each = λ q d. omega arith;
}

settle_recurring_plans-IsBacked_example :
    IsBacked settled_db.orders settled_db.executions
    × All (λ e. Memᴰ e db.executions ⊎ Written db e) settled_db.executions
settle_recurring_plans-IsBacked_example =
    settle_recurring_plans-IsBacked row_ids 1000 codes db settled_db settled_result unique_orders
      db-IsBacked settles

closed-in_scope : in_scope db codes closed ≡ true
unfolding in_scope
closed-in_scope = refl

recurring_plans_pending_stuck_example :
    (recurring_plans_pending codes today db ≡ true)
    × (recurring_plans_pending codes today settled_db ≡ true)
recurring_plans_pending_stuck_example =
    recurring_plans_pending_stuck codes db closed_order closed unique_orders
      (Memᴰ.tail (Memᴰ.head refl)) refl refl refl row_ids 1000 today settled_result settled_db
      closed-in_scope refl settles
