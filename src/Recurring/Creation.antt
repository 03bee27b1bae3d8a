-- ===== src/Recurring/Creation.antt =====
-- What `create_recurring_orders` does to the table of orders: at most one order for a position and
-- a date, exactly one for a planned position, and nothing on a second run.
use mathlib.Core.List.{Memᴰ}
use mathlib.Core.Path.{subst}
use qdii_observatory.Common.{
  ℕ, ◌+◌, ◌≤◌, ◌<◌, ◌≡◌, refl, sym, ap, ◌∙◌, String, Bool, true, false, not, ◌&&◌, ◌||◌, inl, inr,
  some, List, [], ◌∷◌, ◌==◌, ==_iff, leb, ltb, if◌then◌else◌, filterb, memb, map, arith, Bool-cases,
  Option-cases, countb, anyb, All, is_some,
}
use qdii_observatory.Common.Rows.{
  All-listed, All-sort_by, All-filterb_of, countb-sort_by, countb-filterb, countb-le, countb_pos,
  mem-filterb_of,
}
use qdii_observatory.Common.Decimal.{Decimal}
use qdii_observatory.Recurring.Calendar.{weekday}
use qdii_observatory.Recurring.Schema.{
  PortfolioPosition, Order, Database, has_plan, plan_positions, is_order,
}
use qdii_observatory.Recurring.Plans.{
  CreationResult, existing_position_ids, amounts, new_order, order_position, order_positions,
  create_planned, create_recurring_orders,
}

abbrev has_position_id : ℕ → PortfolioPosition → Bool
has_position_id id position = position.id == id

has_plan-amounts :
    (db : Database) (codes : List String) (position : PortfolioPosition)
    → has_plan db codes position ≡ true
    → is_some (amounts position) ≡ true
unfolding has_plan amounts
has_plan-amounts db codes position h = ground arith

plan_positions-amounts :
    (db : Database) (codes : List String)
    → All (λ p. is_some (amounts p) ≡ true) (plan_positions db codes)
plan_positions-amounts db codes =
    unfold plan_positions in
    All-sort_by (λ p. is_some (amounts p) ≡ true) _ _
      (All-filterb_of _ (has_plan db codes) db.positions (has_plan-amounts db codes))

module _ (ids : List Order → ℕ) (date : ℕ) (existing : List ℕ) where
  abbrev orders_after : List PortfolioPosition → ℕ × List Order → List Order
  orders_after ps s = (order_positions ids date existing ps s).1

  -- How many orders the loop adds for a position and a date.
  abbrev added : ℕ → ℕ → List PortfolioPosition → ℕ
  added q d ps = if d == date && not (memb q existing) then countb (has_position_id q) ps else 0

  order-existing :
      (p : PortfolioPosition) (s : ℕ × List Order)
      → memb p.id existing ≡ true
      → order_position ids date existing p s ≡ s
  unfolding order_position
  order-existing p s h = rw h

  order-new :
      (p : PortfolioPosition) (plan : Decimal × Decimal × Decimal) (s : ℕ × List Order)
      → amounts p ≡ some plan
      → memb p.id existing ≡ false
      → order_position ids date existing p s ≡ (s.0 + 1, new_order (ids s.1) date p plan ∷ s.1)
  order-new p plan s e h = unfold order_position in rw (h, order_position) (rw (e, order_position))

  abbrev Counts : ℕ → ℕ → PortfolioPosition → ℕ × List Order → Type 0
  Counts q d p s =
      countb (is_order q d) (order_position ids date existing p s).1
      ≡ countb (is_order q d) s.1 + added q d (p ∷ [])

  module _ (d : ℕ) (p : PortfolioPosition) (s : ℕ × List Order) where
    count-existing : (q : ℕ) → memb q existing ≡ true → memb p.id existing ≡ true → Counts q d p s
    count-existing q e h =
        ap (λ (x : ℕ × List Order). countb (is_order q d) x.1) (order-existing p s h)
        ∙ (rw e (ground arith))

    count-existing_other :
        (q : ℕ) → (p.id == q) ≡ false → memb p.id existing ≡ true → Counts q d p s
    count-existing_other q e h =
        ap (λ (x : ℕ × List Order). countb (is_order q d) x.1) (order-existing p s h)
        ∙ (rw e (ground arith))

    module _ (plan : Decimal × Decimal × Decimal) (planned : amounts p ≡ some plan)
        (new : memb p.id existing ≡ false) where
      count-new_self : Counts p.id d p s
      unfolding new_order
      count-new_self =
          ap (λ (x : ℕ × List Order). countb (is_order p.id d) x.1) (order-new p plan s planned new)
          ∙ (rw new (ground arith))

      count-new_other : (q : ℕ) → (p.id == q) ≡ false → Counts q d p s
      unfolding new_order
      count-new_other q e =
          ap (λ (x : ℕ × List Order). countb (is_order q d) x.1) (order-new p plan s planned new)
          ∙ (rw e (ground arith))

  count-order_position :
      (q d : ℕ) (p : PortfolioPosition) (s : ℕ × List Order)
      → is_some (amounts p) ≡ true
      → Counts q d p s
  count-order_position q d p s h = elim (Option-cases (amounts p)) [
    | inl e ↦ absurd (ground (arith, e))
    | inr (plan, e) ↦ elim (Bool-cases (memb p.id existing)) [
      | inl old ↦ elim (Bool-cases (p.id == q)) [
        | inl same ↦
            subst (λ r. Counts r d p s) ((==_iff p.id q).0 same) (count-existing d p s p.id old old)
        | inr other ↦ count-existing_other d p s q other old
      ]
      | inr new ↦ elim (Bool-cases (p.id == q)) [
        | inl same ↦
            subst (λ r. Counts r d p s) ((==_iff p.id q).0 same) (count-new_self d p s plan e new)
        | inr other ↦ count-new_other d p s plan e new q other
      ]
    ]
  ]

  count-orders_after :
      (q d : ℕ) (ps : List PortfolioPosition) (s : ℕ × List Order)
      → All (λ p. is_some (amounts p) ≡ true) ps
      → countb (is_order q d) (orders_after ps s) ≡ countb (is_order q d) s.1 + added q d ps
  unfolding order_positions
  count-orders_after q d [] s h = ground arith
  count-orders_after q d (p ∷ ps) s (h, hs) = ground (
    arith,
    count-orders_after q d ps (order_position ids date existing p s) hs,
    count-order_position q d p s h,
  )

  -- Positions that all have an order change nothing.
  order_positions-existing :
      (ps : List PortfolioPosition) (s : ℕ × List Order)
      → All (λ p. memb p.id existing ≡ true) ps
      → order_positions ids date existing ps s ≡ s
  unfolding order_positions
  order_positions-existing [] s h = refl
  order_positions-existing (p ∷ ps) s (h, hs) =
      ap (order_positions ids date existing ps) (order-existing p s h)
      ∙ order_positions-existing ps s hs

module _ (date : ℕ) (ps : List PortfolioPosition) where
  abbrev Holds : ℕ → List Order → Type 0
  Holds q orders =
      memb q (existing_position_ids ps date orders)
      ≡ (memb q (map (λ p. p.id) ps) && anyb (is_order q date) orders)

  memb-existing_cons :
      (q : ℕ) (o : Order) (os : List Order)
      → memb q (existing_position_ids ps date (o ∷ os)) ≡ (
          if memb o.portfolio_position_id (map (λ p. p.id) ps) && o.order_date == date
          then o.portfolio_position_id == q || memb q (existing_position_ids ps date os)
          else memb q (existing_position_ids ps date os))
  unfolding existing_position_ids
  memb-existing_cons q o os =
      elim (Bool-cases
        (memb o.portfolio_position_id (map (λ p. p.id) ps) && o.order_date == date)) [
          | inl e ↦ rw e
          | inr e ↦ rw e
        ]

  Holds-self :
      (o : Order) (os : List Order)
      → Holds o.portfolio_position_id os
      → Holds o.portfolio_position_id (o ∷ os)
  Holds-self o os ih = rw memb-existing_cons (ground (arith, ih))

  Holds-other :
      (q : ℕ) (o : Order) (os : List Order)
      → (o.portfolio_position_id == q) ≡ false
      → Holds q os
      → Holds q (o ∷ os)
  Holds-other q o os e ih = rw memb-existing_cons (ground (arith, ih))

  -- `existing_position_ids` holds the planned positions with an order for the date.
  memb-existing : (q : ℕ) (orders : List Order) → Holds q orders
  memb-existing q [] = unfold existing_position_ids in ground arith
  memb-existing q (o ∷ os) = elim (Bool-cases (o.portfolio_position_id == q)) [
    | inl e ↦
        subst (λ r. Holds r (o ∷ os)) ((==_iff o.portfolio_position_id q).0 e)
          (Holds-self o os (memb-existing o.portfolio_position_id os))
    | inr e ↦ Holds-other q o os e (memb-existing q os)
  ]

anyb-eq-ltb {ℓ} : {A : Type ℓ} (p : A → Bool) (xs : List A) → anyb p xs ≡ ltb 0 (countb p xs)
anyb-eq-ltb p [] = refl
anyb-eq-ltb p (x ∷ xs) = ground (arith, anyb-eq-ltb p xs)

memb-map_ids :
    (q : ℕ) (ps : List PortfolioPosition)
    → memb q (map (λ p. p.id) ps) ≡ anyb (has_position_id q) ps
memb-map_ids q [] = refl
memb-map_ids q (p ∷ ps) = ground (arith, memb-map_ids q ps)

-- UNIQUE(portfolio_position_id, order_date), and the primary key of the positions.
pub record IsUnique (db : Database) : Type 0 where
  pub orders : (q d : ℕ) → countb (is_order q d) db.orders ≤ 1
  pub positions : (q : ℕ) → countb (has_position_id q) db.positions ≤ 1

countb-plan_positions-le :
    (q : ℕ) (db : Database) (codes : List String)
    → countb (has_position_id q) (plan_positions db codes) ≤ countb (has_position_id q) db.positions
countb-plan_positions-le q db codes =
    unfold plan_positions in
    rw
      (
        countb-sort_by (has_position_id q) _ (filterb (has_plan db codes) db.positions),
        countb-filterb (has_position_id q) (has_plan db codes) db.positions,
      )
      (countb-le _ (has_position_id q) db.positions (λ p h. ground arith))

listed-planned :
    (db : Database) (codes : List String) (position : PortfolioPosition)
    → Memᴰ position db.positions
    → has_plan db codes position ≡ true
    → 0 < countb (has_position_id position.id) (plan_positions db codes)
listed-planned db codes position listed plan =
    unfold plan_positions in
    rw (countb-sort_by (has_position_id position.id) _ (filterb (has_plan db codes) db.positions)) (
      countb_pos (has_position_id position.id) (filterb (has_plan db codes) db.positions)
        (mem-filterb_of (has_plan db codes) db.positions listed plan) (ground arith))

module _ (ids : List Order → ℕ) (codes : List String) (date : ℕ) (db : Database) where
  abbrev planned : List PortfolioPosition
  planned = plan_positions db codes

  abbrev already : List ℕ
  already = existing_position_ids planned date db.orders

  abbrev looped : ℕ × List Order
  looped = order_positions ids date already planned (0, db.orders)

  -- How many orders there are after the loop.
  count-looped :
      (q d : ℕ)
      → countb (is_order q d) looped.1
        ≡ countb (is_order q d) db.orders + added ids date already q d planned
  count-looped q d =
      count-orders_after ids date already q d planned (0, db.orders)
        (plan_positions-amounts db codes)

  memb-already :
      (q : ℕ)
      → memb q already
        ≡ (ltb 0 (countb (has_position_id q) planned) && ltb 0 (countb (is_order q date) db.orders))
  memb-already q =
      memb-existing date planned q db.orders
      ∙ (rw (
        memb-map_ids q planned,
        anyb-eq-ltb (has_position_id q) planned,
        anyb-eq-ltb (is_order q date) db.orders,
      ))

  module _ (u : IsUnique db) (q : ℕ) where
    looped-unique_date : countb (is_order q date) looped.1 ≤ 1
    looped-unique_date = ground (
      arith,
      count-looped q date,
      memb-already q,
      u.orders q date,
      u.positions q,
      countb-plan_positions-le q db codes,
    )

    looped_unique : (d : ℕ) → countb (is_order q d) looped.1 ≤ 1
    looped_unique d = elim (Bool-cases (d == date)) [
      | inl e ↦
          subst (λ r. countb (is_order q r) looped.1 ≤ 1) (sym ((==_iff d date).0 e))
            looped-unique_date
      | inr e ↦ ground (arith, count-looped q d, u.orders q d)
    ]

    looped-once : 0 < countb (has_position_id q) planned → countb (is_order q date) looped.1 ≡ 1
    looped-once h = ground (
      arith,
      count-looped q date,
      memb-already q,
      u.orders q date,
      u.positions q,
      countb-plan_positions-le q db codes,
    )

  create_planned-eq :
      (ps : List PortfolioPosition)
      → create_planned ids date db ps ≡ (
          let s =
            order_positions ids date (existing_position_ids ps date db.orders) ps (0, db.orders) in
          (
            record { orders_created = s.0; positions_ordered = s.0; order_date = date },
            record db { orders = s.1 },
          ))
  unfolding create_planned
  create_planned-eq [] = refl
  create_planned-eq (p ∷ ps) = refl

  -- The result on a weekday: what the loop returns, also when no position is planned.
  create-weekday :
      leb 5 (weekday date) ≡ false
      → create_recurring_orders ids codes date db ≡ (
        record { orders_created = looped.0; positions_ordered = looped.0; order_date = date },
        record db { orders = looped.1 },
      )
  create-weekday e = create-open ∙ create_planned-eq planned
    where
      create-open : create_recurring_orders ids codes date db ≡ create_planned ids date db planned
      create-open = unfold create_recurring_orders in rw e

  create-weekend :
      leb 5 (weekday date) ≡ true
      → create_recurring_orders ids codes date db
        ≡ (record { orders_created = 0; positions_ordered = 0; order_date = date }, db)
  unfolding create_recurring_orders
  create-weekend e = rw e

-- If each position has at most one order for each date, and the ids of the positions are unique,
-- the same holds after `create_recurring_orders`, so the commit meets
-- UNIQUE(portfolio_position_id, order_date).
pub create_recurring_orders-IsUnique :
    (ids : List Order → ℕ) (codes : List String) (date : ℕ) (db : Database)
    → IsUnique db
    → IsUnique (create_recurring_orders ids codes date db).1
create_recurring_orders-IsUnique ids codes date db u = elim (Bool-cases (leb 5 (weekday date))) [
  | inl e ↦ rw (create-weekend ids codes date db e) u
  | inr e ↦
      rw (create-weekday ids codes date db e)
        (record { orders = looped_unique ids codes date db u; positions = u.positions })
]

-- On a weekday, from a database in which each position has at most one order for each date and the
-- ids of the positions are unique: after `create_recurring_orders`, a position with a complete
-- active plan in scope has exactly one order for the date.
pub create_recurring_orders_once :
    (ids : List Order → ℕ) (codes : List String) (date : ℕ) (db : Database)
    (position : PortfolioPosition)
    → IsUnique db
    → weekday date < 5
    → Memᴰ position db.positions
    → has_plan db codes position ≡ true
    → countb (is_order position.id date) (create_recurring_orders ids codes date db).1.orders ≡ 1
create_recurring_orders_once ids codes date db position u workday listed plan =
    ap (λ (x : CreationResult × Database). countb (is_order position.id date) x.1.orders)
      (create-weekday ids codes date db (ground arith))
    ∙ looped-once ids codes date db u position.id (listed-planned db codes position listed plan)

-- A second loop finds an order for each position.
looped-again :
    (ids ids' : List Order → ℕ) (codes : List String) (date : ℕ) (db : Database)
    → IsUnique db
    → looped ids' codes date (record db { orders = (looped ids codes date db).1 })
      ≡ (0, (looped ids codes date db).1)
unfolding plan_positions
looped-again ids ids' codes date db u =
    order_positions-existing ids' date _ (planned ids codes date db)
      (0, (looped ids codes date db).1)
      (All-listed (planned ids codes date db)
        (λ p m. found p.id (countb_pos (has_position_id p.id) _ m (ground arith))))
  where
    found :
        (q : ℕ)
        → 0 < countb (has_position_id q) (planned ids codes date db)
        → memb q
            (existing_position_ids (planned ids codes date db) date (looped ids codes date db).1)
          ≡ true
    found q h =
        memb-existing date (planned ids codes date db) q (looped ids codes date db).1
        ∙ (rw
            (
              memb-map_ids q (planned ids codes date db),
              anyb-eq-ltb (has_position_id q) (planned ids codes date db),
              anyb-eq-ltb (is_order q date) (looped ids codes date db).1,
              looped-once ids codes date db u q h,
            )
            (ground arith))

-- From a database in which each position has at most one order for each date and the ids of the
-- positions are unique: a second call of `create_recurring_orders` for the same date and scope
-- creates nothing and changes nothing.
pub create_recurring_orders_twice :
    (ids ids' : List Order → ℕ) (codes : List String) (date : ℕ) (db : Database)
    → IsUnique db
    → create_recurring_orders ids' codes date (create_recurring_orders ids codes date db).1 ≡ (
      record { orders_created = 0; positions_ordered = 0; order_date = date },
      (create_recurring_orders ids codes date db).1,
    )
create_recurring_orders_twice ids ids' codes date db u = elim (Bool-cases (leb 5 (weekday date))) [
  | inl e ↦ rw (create-weekend ids codes date db e) (create-weekend ids' codes date db e)
  | inr e ↦ rw (create-weekday ids codes date db e) (
      create-weekday ids' codes date (record db { orders = (looped ids codes date db).1 }) e
      ∙ ap
          (λ (s : ℕ × List Order). (
            record { orders_created = s.0; positions_ordered = s.0; order_date = date },
            record db { orders = s.1 },
          ))
          (looped-again ids ids' codes date db u))
]
