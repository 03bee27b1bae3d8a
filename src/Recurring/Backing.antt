-- ===== src/Recurring/Backing.antt =====
-- Every settled order is backed by an execution at the NAV of exactly its date, and a position has
-- at most one execution for a date.
use mathlib.Core.List.{Memᴰ}
use mathlib.Core.Path.{subst}
use qdii_observatory.Common.{
  ℕ, ◌≤◌, ◌≡◌, refl, sym, ◌∙◌, String, Bool, true, false, inl, inr, none, some, List, [], ◌∷◌, ◌==◌,
  arith, ◌⊎◌, Bool-cases, Option-cases, first, countb, All, filterb,
}
use qdii_observatory.Common.Decimal.{Decimal}
use qdii_observatory.Common.Rows.{
  All-mono, All-unique, All-update_first, first-eq-some, max_by-mem, mem-filterb,
}
use qdii_observatory.Recurring.Schema.{
  PortfolioPosition, DailyFundNav, Order, Execution, Database, is_pending, is_nav, is_execution,
  position_of,
}
use qdii_observatory.Recurring.Settlement.{
  SettlementResult, Settling, has_order_id, order_nav, order_units, new_execution, settle_row,
  mark_settled, write_execution, settle_at, settle_order, settle_orders, settle_recurring_plans,
}
use qdii_observatory.Recurring.Prices.{
  Written, settle_at-reuse, settle_at-fails, settle_at-new, settle_orders-Written,
}
use qdii_observatory.Recurring.Rounds.{
  Left, settle_order-no_nav, Round-Left, settle_order-Round, start-Left, settle_order-at,
  settle_order-none, settle_orders-go, settle_orders-stop, settle-inv,
}

-- The execution that settled an order: of its position, at its date.
pub record Backs (executions : List Execution) (order : Order) : Type 0 where
  pub execution : Execution
  pub listed : Memᴰ execution executions
  pub cited : order.settled_execution_id ≡ some execution.id
  pub exact : is_execution order.portfolio_position_id order.order_date execution ≡ true

pub record IsBacked (orders : List Order) (executions : List Execution) : Type 0 where
  pub backed : All (λ o. is_pending o ≡ false → Backs executions o) orders
  pub one_each : (q d : ℕ) → countb (is_execution q d) executions ≤ 1

countb-first-none :
    (p : Execution → Bool) (xs : List Execution) → first p xs ≡ none → countb p xs ≡ 0
countb-first-none p [] h = refl
countb-first-none p (x ∷ xs) h = ground (arith, countb-first-none p xs)

Backs-more :
    (execution : Execution) (executions : List Execution) (o : Order)
    → Backs executions o
    → Backs (execution ∷ executions) o
Backs-more execution executions o b = record {
  execution = b.execution;
  listed = Memᴰ.tail b.listed;
  cited = b.cited;
  exact = b.exact;
}

abbrev Backed : Settling → Type 0
Backed st = IsBacked st.orders st.executions

-- What the database holds for a listed order, where ids are unique.
abbrev Only : Order → Settling → Type 0
Only order st = All (λ o. has_order_id order.id o ≡ true → o ≡ order) st.orders

abbrev Settles : ℕ → List Execution → Order → Type 0
Settles now executions o = is_pending o ≡ false → Backs executions o

settled-Backs :
    (now : ℕ) (order : Order) (execution : Execution) (executions : List Execution)
    → Memᴰ execution executions
    → is_execution order.portfolio_position_id order.order_date execution ≡ true
    → Backs executions (settle_row execution.id now order)
unfolding settle_row
settled-Backs now order execution executions listed exact = record {
  execution = execution;
  listed = listed;
  cited = refl;
  exact = exact;
}

-- Settling by a listed execution of the position and the date.
mark_settled-Backed :
    (now : ℕ) (position : PortfolioPosition) (order : Order) (execution : Execution)
    (nav : DailyFundNav) (st : Settling)
    → Memᴰ execution st.executions
    → is_execution order.portfolio_position_id order.order_date execution ≡ true
    → Only order st
    → Backed st
    → Backed (mark_settled execution.id now position order nav st)
unfolding mark_settled
mark_settled-Backed now position order execution nav st listed exact only inv = record {
  backed =
      All-update_first (Settles now st.executions) (has_order_id order.id)
        (settle_row execution.id now) st.orders
        (All-mono st.orders
          (λ o same h _ _.
            rw (same h) (settled-Backs now order execution st.executions listed exact))
          only)
        inv.backed;
  one_each = inv.one_each;
}

write_execution-Backed :
    (execution : Execution) (st : Settling)
    → countb (is_execution execution.portfolio_position_id execution.nav_date) st.executions ≡ 0
    → Backed st
    → Backed (write_execution execution st)
unfolding write_execution
write_execution-Backed execution st absent inv = record {
  backed =
      All-mono st.orders (λ o h done. Backs-more execution st.executions o (h done)) inv.backed;
  one_each = λ q d. elim (Bool-cases (is_execution q d execution)) [
    | inl e ↦
        let at_q : execution.portfolio_position_id ≡ q = ground arith in
        let at_d : execution.nav_date ≡ d = ground arith in
        let gone : countb (is_execution q d) st.executions ≡ 0 = rw (at_q, at_d) at absent in
        rw e (omega (arith, gone))
    | inr e ↦ ground (arith, inv.one_each q d)
  ];
}

is_execution_refl :
    (q d : ℕ) (e : Execution)
    → e.portfolio_position_id ≡ q
    → e.nav_date ≡ d
    → is_execution q d e ≡ true
is_execution_refl q d e h k = ground (arith, h, k)

order_nav-date :
    (db : Database) (position : PortfolioPosition) (order : Order) (nav : DailyFundNav)
    → order_nav db position order ≡ some nav
    → nav.nav_date ≡ order.order_date
unfolding order_nav
order_nav-date db position order nav e =
    let selected = is_nav position.fund_share_id order.order_date in
    let (_, h) =
      mem-filterb selected db.navs (max_by-mem (λ n. n.id) (filterb selected db.navs) nav e) in
    ground (arith, h)

position_of-id :
    (db : Database) (order : Order) (position : PortfolioPosition)
    → position_of db order ≡ some position
    → position.id ≡ order.portfolio_position_id
position_of-id db order position e =
    let (_, h) = first-eq-some (λ p. p.id == order.portfolio_position_id) db.positions position e in
    ground (arith, h)

module _ (ids : List Execution → ℕ) (now : ℕ) where
  new-Backed :
      (id : ℕ) (position : PortfolioPosition) (order : Order) (nav : DailyFundNav) (units : Decimal)
      (st : Settling)
      → position.id ≡ order.portfolio_position_id
      → nav.nav_date ≡ order.order_date
      → first (is_execution position.id order.order_date) st.executions ≡ none
      → Only order st
      → Backed st
      → Backed (
          mark_settled id now position order nav
            (write_execution (new_execution id position order nav units) st))
  new-Backed id position order nav units st owner date absent only inv =
      unfold new_execution in
      let execution = new_execution id position order nav units in
      mark_settled-Backed now position order execution nav (write_execution execution st)
        (unfold write_execution in Memᴰ.head refl)
        (is_execution_refl order.portfolio_position_id order.order_date execution owner date)
        (unfold write_execution in only)
        (write_execution-Backed execution st
          (rw date
            (countb-first-none (is_execution position.id order.order_date) st.executions absent))
          inv)

  settle_at-Backed :
      (position : PortfolioPosition) (order : Order) (nav : DailyFundNav) (st st' : Settling)
      → position.id ≡ order.portfolio_position_id
      → nav.nav_date ≡ order.order_date
      → settle_at ids now position order (some nav) st ≡ some st'
      → Only order st
      → Backed st
      → Backed st'
  settle_at-Backed position order nav st st' owner date e only inv =
      elim (Option-cases (first (is_execution position.id order.order_date) st.executions)) [
        | inl h ↦ elim (Option-cases (order_units order nav)) [
          | inl k ↦ absurd (cc (settle_at-fails ids now position order nav st h k, e))
          | inr (units, k) ↦
              let same : mark_settled (ids st.executions) now position order nav (
                    write_execution (new_execution (ids st.executions) position order nav units) st)
                  ≡ st' =
                cc (settle_at-new ids now position order nav st h k, e) in
              subst Backed same
                (new-Backed (ids st.executions) position order nav units st owner date h only inv)
        ]
        | inr (execution, h) ↦
            let same : mark_settled execution.id now position order nav st ≡ st' =
              cc (settle_at-reuse ids now position order nav st h, e) in
            let (listed, exact) =
              first-eq-some (is_execution position.id order.order_date) st.executions execution h in
            subst Backed same (
              mark_settled-Backed now position order execution nav st listed (rw owner at exact)
                only inv)
      ]

  settle_order-Backed :
      (db : Database) (order : Order) (st st' : Settling)
      → settle_order ids now db order st ≡ some st'
      → Only order st
      → Backed st
      → Backed st'
  settle_order-Backed db order st st' e only inv = elim (Option-cases (position_of db order)) [
    | inl h ↦ absurd (cc (settle_order-none ids now db order st h, e))
    | inr (position, h) ↦ elim (Option-cases (order_nav db position order)) [
      | inl k ↦
          let same : st ≡ st' = cc (settle_order-no_nav ids now db order st h k, e) in
          subst Backed same inv
      | inr (nav, k) ↦
          settle_at-Backed position order nav st st' (position_of-id db order position h)
            (order_nav-date db position order nav k)
            (rw k at (sym (settle_order-at ids now db order st h) ∙ e)) only inv
    ]
  ]

  settle_orders-Backed :
      (db : Database) (codes : List String) (rest : List Order) (st st' : Settling)
      → settle_orders ids now db rest st ≡ some st'
      → Left ids now db codes rest st
      → Backed st
      → Backed st'
  settle_orders-Backed db codes [] st st' e left inv = subst Backed (done e) inv
    where
      done : settle_orders ids now db [] st ≡ some st' → st ≡ st'
      done h = unfold settle_orders in ground (arith, h)
  settle_orders-Backed db codes (x ∷ rest) st st' e left inv =
      elim (Option-cases (settle_order ids now db x st)) [
        | inl h ↦ absurd (cc (settle_orders-stop ids now db codes x rest st h, e))
        | inr (mid, h) ↦
            settle_orders-Backed db codes rest mid st'
              (sym (settle_orders-go ids now db codes x rest st mid h) ∙ e)
              (Round-Left ids now db codes x rest st mid (settle_order-Round ids now db x st mid h)
                left)
              (settle_order-Backed db x st mid h
                (All-unique (has_order_id x.id) st.orders (left.unique x.id) left.listed.0
                  (ground arith))
                inv)
      ]

-- A settlement that returns keeps the tables backed, where the ids of the orders are unique: each
-- settled order cites an execution that is in the table, of its position and at its date, and no
-- position has two executions for one date. An execution in the new table either was there before,
-- or is of the position of an order of the table, at the order's date, with the unit NAV and the
-- source of a NAV of the table, of that position's share and of exactly that date, that has the
-- greatest id of these; its amounts are those of the order, and its units the rounded quotient.
pub settle_recurring_plans-IsBacked :
    (ids : List Execution → ℕ) (now : ℕ) (codes : List String) (db db' : Database)
    (result : SettlementResult)
    → ((id : ℕ) → countb (has_order_id id) db.orders ≤ 1)
    → IsBacked db.orders db.executions
    → settle_recurring_plans ids now codes db ≡ some (result, db')
    → IsBacked db'.orders db'.executions
      × All (λ e. Memᴰ e db.executions ⊎ Written db e) db'.executions
settle_recurring_plans-IsBacked ids now codes db db' result unique backed e =
    let (st, ended, same, _) = settle-inv ids now db codes result db' e in
    rw same (
      settle_orders-Backed ids now db codes _ _ st ended (start-Left ids now db codes unique)
          backed,
      settle_orders-Written ids now db codes st ended,
    )
