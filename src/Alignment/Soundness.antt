-- ===== src/Alignment/Soundness.antt =====
-- What a row of `align_returns` says: it looks at no price after its date, and a return is one
-- between the two dates of the row.
use mathlib.Core.List.{Memᴰ}
use qdii_observatory.Common.{
  ℕ, ◌≤◌, ◌<◌, ◌≡◌, refl, ap, ◌∙◌, ◌⊎◌, Bool, true, false, Option, none, some, List, [], ◌∷◌, arith,
  map, All,
}
use qdii_observatory.Common.Rows.{All-mem, All-mono}
use qdii_observatory.Common.Decimal.{Decimal}
use qdii_observatory.Alignment.Series.{
  MarketPoint, AlignedMarketReturn, AlignmentPolicy, us_previous_completed_session,
  asia_same_or_previous_session, qdii_same_valuation_session, mixed_by_security_market,
  latest_on_or_before, previous_before, cutoff, RoundReturns, is_carried, previous_of, returns_of,
  row_of, empty_row, end_round, align_at, align_date, prepend, align_dates,
}
use qdii_observatory.Alignment.Points.{
  IsSorted, date_of, latest_on_or_before-le, latest_on_or_before-Mem, latest_on_or_before_max,
  latest_on_or_before_mono,
}
use qdii_observatory.Alignment.Returned.{Spans, date_in-inv, returns_of-Given}

cutoff_mono : (policy : AlignmentPolicy) (m n : ℕ) → m ≤ n → cutoff policy m ≤ cutoff policy n
unfolding cutoff
cutoff_mono us_previous_completed_session m n h = omega (arith, h)
cutoff_mono asia_same_or_previous_session m n h = h
cutoff_mono qdii_same_valuation_session m n h = h
cutoff_mono mixed_by_security_market m n h = h

module _ (policy : AlignmentPolicy) (same_currency : Bool) (prices rates : List MarketPoint) where
  pub record IsSound (row : AlignedMarketReturn) : Type 0 where
    -- The price is of a day up to the last one that the policy allows, and none of them is later.
    pub timely : (d : ℕ) → row.trade_date ≡ some d → d ≤ cutoff policy row.nav_date
    pub up_to_date :
        (p : MarketPoint)
        → Memᴰ p prices
        → p.trade_date ≤ cutoff policy row.nav_date
        → (d : ℕ) × (row.trade_date ≡ some d) × (p.trade_date ≤ d)
    pub earlier :
        (p d : ℕ)
        → row.previous_trade_date ≡ some p
        → row.trade_date ≡ some d
        → row.carried_forward ≡ false
        → p < d
    -- A price that was used before gives no return.
    pub stale :
        row.carried_forward ≡ true
        → (row.local_return_pct ≡ none)
          × (row.fx_return_pct ≡ none)
          × (row.share_currency_return_pct ≡ none)
    pub priced :
        (r : Decimal)
        → row.local_return_pct ≡ some r
        → Spans prices row.previous_trade_date row.trade_date r
    -- A rate is that of the very date of the price.
    pub exact :
        (r : Decimal)
        → row.fx_return_pct ≡ some r
        → Spans rates row.previous_trade_date row.trade_date r
    pub converted :
        (r : Decimal)
        → row.share_currency_return_pct ≡ some r
        → ((same_currency ≡ true) × (row.local_return_pct ≡ some r))
          ⊎ ((same_currency ≡ false) × ((fx : Decimal) × (row.fx_return_pct ≡ some fx)))

  module _ (sorted : IsSorted date_of prices)
      (dated : All (λ (p : MarketPoint). 0 < p.trade_date) prices) where
    -- `last_selected` is the point of an earlier date.
    abbrev Reached : ℕ → Option MarketPoint → Type 0
    Reached nav_date last =
        (x : MarketPoint)
        → last ≡ some x
        → (c : ℕ) × (c ≤ cutoff policy nav_date) × (latest_on_or_before prices c ≡ some x)

    Reached-later : (m n : ℕ) (last : Option MarketPoint) → m ≤ n → Reached m last → Reached n last
    Reached-later m n last le reached x e =
        let (c, early, h) = reached x e in (c, omega (arith, early, cutoff_mono policy m n le), h)

    previous_of-earlier :
        (nav_date : ℕ) (last : Option MarketPoint) (current a : MarketPoint)
        → Reached nav_date last
        → latest_on_or_before prices (cutoff policy nav_date) ≡ some current
        → previous_of policy same_currency prices rates last current ≡ some a
        → Memᴰ a prices
          × (is_carried policy same_currency prices rates last current ≡ false
              → a.trade_date < current.trade_date)
    unfolding previous_of previous_before
    previous_of-earlier nav_date none current a reached h e =
        let here : 0 < current.trade_date =
          All-mem (λ (p : MarketPoint). 0 < p.trade_date) prices dated
            (latest_on_or_before-Mem prices _ current h) in
        (
          latest_on_or_before-Mem prices _ a e,
          λ k. omega (arith, here, latest_on_or_before-le prices _ a e),
        )
    previous_of-earlier nav_date (some x) current a reached h e =
        let same : x ≡ a = cc e in
        let (c, early, found) = reached x refl in
        let (q, s, later) =
          latest_on_or_before_mono prices c (cutoff policy nav_date) x sorted early found in
        let at : q ≡ current = cc (s, h) in
        let dates : q.trade_date ≡ current.trade_date = ap date_of at in
        let starts : x.trade_date ≡ a.trade_date = ap date_of same in
        (
          rw (← same) (latest_on_or_before-Mem prices c x found),
          λ k. ground (arith, k, later, dates, starts),
        )

    row_of-IsSound :
        (nav_date : ℕ) (last : Option MarketPoint) (current : MarketPoint) (returns : RoundReturns)
        → Reached nav_date last
        → latest_on_or_before prices (cutoff policy nav_date) ≡ some current
        → returns_of policy same_currency prices rates
            (previous_of policy same_currency prices rates last current)
            current
            (is_carried policy same_currency prices rates last current)
          ≡ some returns
        → IsSound (
            row_of policy same_currency prices rates nav_date current
              (previous_of policy same_currency prices rates last current)
              (is_carried policy same_currency prices rates last current)
              returns)
    row_of-IsSound nav_date last current returns reached h e =
        let given =
          returns_of-Given policy same_currency prices rates _ current _ returns
            (λ a k. (previous_of-earlier nav_date last current a reached h k).0)
            (latest_on_or_before-Mem prices _ current h) e in
        record {
          timely = λ d k.
              let same : current.trade_date ≡ d = cc k in
              omega (arith, same, latest_on_or_before-le prices _ current h);
          up_to_date = λ p m k.
              let (q, s, later) =
                latest_on_or_before_max prices (cutoff policy nav_date) p sorted m k in
              let at : q ≡ current = cc (s, h) in
              let dates : q.trade_date ≡ current.trade_date = ap date_of at in
              (current.trade_date, refl, omega (arith, later, dates));
          earlier = λ p d k k' fresh.
              let (a, chosen, starts) = date_in-inv _ p k in
              let ends : current.trade_date ≡ d = cc k' in
              omega (
                arith,
                starts,
                ends,
                (previous_of-earlier nav_date last current a reached h chosen).1 fresh,
              );
          stale = given.stale;
          priced = given.priced;
          exact = given.exact;
          converted = given.converted;
        }

    -- What holds after a round.
    abbrev Next : ℕ → AlignedMarketReturn × Option MarketPoint → Type 0
    Next nav_date (row, next) = IsSound row × (row.nav_date ≡ nav_date) × Reached nav_date next

    empty_row-IsSound :
        (nav_date : ℕ)
        → latest_on_or_before prices (cutoff policy nav_date) ≡ none
        → IsSound (empty_row policy same_currency prices rates nav_date)
    empty_row-IsSound nav_date h = record {
      timely = λ d k. absurd (cc k);
      up_to_date = λ p m k.
          let (q, s, later) =
            latest_on_or_before_max prices (cutoff policy nav_date) p sorted m k in
          absurd (cc (s, h));
      earlier = λ p d k k' fresh. absurd (cc k);
      stale = λ k. absurd (cc k);
      priced = λ r k. absurd (cc k);
      exact = λ r k. absurd (cc k);
      converted = λ r k. absurd (cc k);
    }

    end_round-Next :
        (nav_date : ℕ) (last : Option MarketPoint) (current : MarketPoint)
        (returns : Option RoundReturns) (result : AlignedMarketReturn × Option MarketPoint)
        → Reached nav_date last
        → latest_on_or_before prices (cutoff policy nav_date) ≡ some current
        → returns_of policy same_currency prices rates
            (previous_of policy same_currency prices rates last current)
            current
            (is_carried policy same_currency prices rates last current)
          ≡ returns
        → end_round policy same_currency prices rates nav_date current
            (previous_of policy same_currency prices rates last current)
            (is_carried policy same_currency prices rates last current)
            returns
          ≡ some result
        → Next nav_date result
    end_round-Next nav_date last current none result reached h hr e = absurd (cc e)
    end_round-Next nav_date last current (some returns) (row, next) reached h hr e =
        let same : row_of policy same_currency prices rates nav_date current
              (previous_of policy same_currency prices rates last current)
              (is_carried policy same_currency prices rates last current) returns
            ≡ row =
          cc e in
        let at : some current ≡ next = cc e in
        (
          rw (← same) (row_of-IsSound nav_date last current returns reached h hr),
          rw (← same) refl,
          rw (← at) (λ x k.
              let found : current ≡ x = cc k in
              (cutoff policy nav_date, omega arith, h ∙ ap some found)),
        )

    align_at-Next :
        (nav_date : ℕ) (last : Option MarketPoint) (current : Option MarketPoint)
        (result : AlignedMarketReturn × Option MarketPoint)
        → Reached nav_date last
        → latest_on_or_before prices (cutoff policy nav_date) ≡ current
        → align_at policy same_currency prices rates nav_date last current ≡ some result
        → Next nav_date result
    unfolding align_at
    align_at-Next nav_date last none (row, next) reached h e =
        let same : empty_row policy same_currency prices rates nav_date ≡ row = cc e in
        let at : last ≡ next = cc e in
        (rw (← same) (empty_row-IsSound nav_date h), rw (← same) refl, rw (← at) reached)
    align_at-Next nav_date last (some current) result reached h e =
        end_round-Next nav_date last current _ result reached h refl e

    align_date-Next :
        (nav_date : ℕ) (last : Option MarketPoint)
        (result : AlignedMarketReturn × Option MarketPoint)
        → Reached nav_date last
        → align_date policy same_currency prices rates nav_date last ≡ some result
        → Next nav_date result
    unfolding align_date
    align_date-Next nav_date last result reached e =
        align_at-Next nav_date last _ result reached refl e

    prepend-inv :
        (row : AlignedMarketReturn) (o : Option (List AlignedMarketReturn))
        (rows : List AlignedMarketReturn)
        → prepend policy same_currency prices rates row o ≡ some rows
        → (rest : List AlignedMarketReturn) × (o ≡ some rest) × (row ∷ rest ≡ rows)
    prepend-inv row none rows h = absurd (cc h)
    prepend-inv row (some rest) rows h = (rest, refl, cc h)

    after-round :
        (nav_date : ℕ) (rest : List ℕ) (last : Option MarketPoint)
        (round : Option (AlignedMarketReturn × Option MarketPoint))
        (rows : List AlignedMarketReturn)
        → elim round [
          | none ↦ none
          | some (row, next) ↦
              prepend policy same_currency prices rates row
                (align_dates policy same_currency prices rates rest next)
        ]
          ≡ some rows
        → (row : AlignedMarketReturn) × (next : Option MarketPoint) × (others : List
            AlignedMarketReturn)
          × (round ≡ some (row, next))
          × (align_dates policy same_currency prices rates rest next ≡ some others)
          × (row ∷ others ≡ rows)
    after-round nav_date rest last none rows h = absurd (cc h)
    after-round nav_date rest last (some (row, next)) rows h =
        let (others, e, same) = prepend-inv row _ rows h in (row, next, others, refl, e, same)

    -- Where the prices are in the order of their dates, which are positive, and so are the dates: if
    -- the loop returns, there is a row for each date.
    pub align_dates-IsSound :
        (dates : List ℕ) (last : Option MarketPoint) (rows : List AlignedMarketReturn)
        → IsSorted (λ n. n) dates
        → All (λ n. Reached n last) dates
        → align_dates policy same_currency prices rates dates last ≡ some rows
        → All IsSound rows × (map (λ (row : AlignedMarketReturn). row.nav_date) rows ≡ dates)
    unfolding align_dates
    align_dates-IsSound [] last rows ordered reached e =
        let same : [] ≡ rows = cc e in (rw (← same) tt, rw (← same) refl)
    align_dates-IsSound (n ∷ rest) last rows (hn, ordered) (here, reached) e =
        let (row, next, others, e1, e2, same) = after-round n rest last _ rows e in
        let (sound, at, reached') = align_date-Next n last (row, next) here e1 in
        let (all_sound, ats) =
          align_dates-IsSound rest next others ordered
            (All-mono rest (λ m le. Reached-later n m next le reached') hn) e2 in
        (
          rw (← same) (sound, all_sound),
          rw (← same) (
              ap (λ m. m ∷ map (λ (r : AlignedMarketReturn). r.nav_date) others) at
              ∙ ap (λ ms. n ∷ ms) ats),
        )
