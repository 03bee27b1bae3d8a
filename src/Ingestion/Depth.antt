-- ===== src/Ingestion/Depth.antt =====
-- The bounds of `weighted_lookthrough` (ingestion/lookthrough.py), which always returns.
use qdii_observatory.Common.{
  ℕ, zero, suc, ◌+◌, ◌≤◌, ◌≡◌, refl, ap, ◌∙◌, String, Bool, true, false, ◌||◌, inl, inr, Option,
  none, some, List, [], ◌∷◌, ◌++◌, arith, Bool-cases, Option-cases, memb,
}
use qdii_observatory.Common.Decimal.{
  Decimal, whole, add, subtract, maximum, divide, at_most, less, minimum-at_most,
}
use qdii_observatory.Ingestion.Lookthrough.{
  HoldingEdge, Exposure, LookthroughResult, Nodes, Visit, Visitor, node_of, part, add_label,
  add_exposure, max_of, start_visit, leave_unresolved, merge_child, visit_edge, visit_edges,
  end_visit, nothing_resolved, visit_node, visit, weighted_lookthrough,
}

part-Some : (weight share : Decimal) → (x : Decimal) × (part weight share ≡ some x)
unfolding part divide
part-Some weight share = (_, refl)

add_exposure-cons :
    (weight : Decimal) (label : String) (share amount : Decimal) (rest exposure : Exposure)
    → part weight share ≡ some amount
    → add_exposure weight ((label, share) ∷ rest) exposure
      ≡ add_exposure weight rest (add_label label amount exposure)
unfolding add_exposure
add_exposure-cons weight label share amount rest exposure h =
    ap
      (λ (o : Option Decimal). elim o [
        | none ↦ none
        | some a ↦ add_exposure weight rest (add_label label a exposure)
      ])
      h

add_exposure-Some :
    (weight : Decimal) (shares exposure : Exposure)
    → (e : Exposure) × (add_exposure weight shares exposure ≡ some e)
add_exposure-Some weight [] exposure = (exposure, unfold add_exposure in refl)
add_exposure-Some weight ((label, share) ∷ rest) exposure =
    let (amount, p) = part-Some weight share in
    let (e, q) = add_exposure-Some weight rest (add_label label amount exposure) in
    (e, add_exposure-cons weight label share amount rest exposure p ∙ q)

-- What `merge_child` returns.
abbrev merged : HoldingEdge → LookthroughResult → Visit → Exposure → Decimal → Visit
merged edge child state exposure nested = record {
  exposure = exposure;
  coverage = add state.coverage (maximum (whole 0) (subtract edge.weight_pct nested));
  unresolved = add state.unresolved nested;
  deepest = max_of state.deepest child.max_depth;
  circular = state.circular || child.circular_relation_detected;
}

-- The percentages of a result are at most 100, and its depth is between two levels.
pub record IsBounded (low high : ℕ) (result : LookthroughResult) : Type 0 where
  pub coverage : at_most result.coverage_pct (whole 100) ≡ true
  pub unresolved : at_most result.unresolved_fund_weight_pct (whole 100) ≡ true
  pub above : low ≤ result.max_depth
  pub below : result.max_depth ≤ high

abbrev Between : ℕ → ℕ → Visit → Type 0
Between low high state = (low ≤ state.deepest) × (state.deepest ≤ high)

module _ (low high : ℕ) (le : low ≤ high) where
  abbrev Ends : Option Visit → Type 0
  Ends o = (state : Visit) × (o ≡ some state) × Between low high state

  abbrev Visits : Visitor → Type 0
  Visits f = (id : ℕ) → (r : LookthroughResult) × (f id ≡ some r) × IsBounded (low + 1) high r

  abbrev Sound : Option Visitor → Type 0
  Sound none = Unit
  Sound (some f) = Visits f

  merge_child-some :
      (edge : HoldingEdge) (child : LookthroughResult) (state : Visit) (e : Exposure) (n : Decimal)
      → add_exposure edge.weight_pct child.exposure state.exposure ≡ some e
      → part edge.weight_pct child.unresolved_fund_weight_pct ≡ some n
      → merge_child edge child state ≡ some (merged edge child state e n)
  unfolding merge_child
  merge_child-some edge child state e n p q =
      rw (p, merge_child)
        (ap
          (λ (o : Option Decimal). elim o [
            | none ↦ none
            | some x ↦ some (merged edge child state e x)
          ])
          q)

  merge_child-Ends :
      (edge : HoldingEdge) (child : LookthroughResult) (state : Visit)
      → child.max_depth ≤ high
      → Between low high state
      → Ends (merge_child edge child state)
  merge_child-Ends edge child state below between =
      let (e, p) = add_exposure-Some edge.weight_pct child.exposure state.exposure in
      let (n, q) = part-Some edge.weight_pct child.unresolved_fund_weight_pct in
      (
        merged edge child state e n,
        merge_child-some edge child state e n p q,
        (ground (arith, between.0), ground (arith, between.1, below)),
      )

  leave-Between :
      (edge : HoldingEdge) (state : Visit)
      → Between low high state
      → Between low high (leave_unresolved low edge state)
  unfolding leave_unresolved
  leave-Between edge state between = (ground (arith, between.0), ground (arith, between.1, le))

  followed-Ends :
      (f : Visitor) (edge : HoldingEdge) (target : ℕ) (state : Visit)
      → Visits f
      → Between low high state
      → Ends (elim (f target) [ none ↦ none | some child ↦ merge_child edge child state ])
  followed-Ends f edge target state sound between =
      let (r, p, bounded) = sound target in
      rw p (merge_child-Ends edge r state bounded.below between)

  visit_edge-Ends :
      (visitor : Option Visitor) (edge : HoldingEdge) (state : Visit)
      → Sound visitor
      → Between low high state
      → Ends (visit_edge visitor low edge state)
  unfolding visit_edge
  visit_edge-Ends visitor edge state sound between =
      elim (Bool-cases (at_most edge.weight_pct (whole 0))) [
        | inl skip ↦ rw skip (state, refl, between)
        | inr go ↦ rw go (elim (Option-cases edge.target) [
          | inl h ↦ rw h (_, refl, leave-Between edge state between)
          | inr (target, h) ↦ rw h (targeted visitor target sound)
        ])
      ]
    where
      targeted :
          (v : Option Visitor) (target : ℕ)
          → Sound v
          → Ends (elim v [
            | none ↦ some (leave_unresolved low edge state)
            | some f ↦ elim (f target) [ none ↦ none | some child ↦ merge_child edge child state ]
          ])
      targeted none target s = (_, refl, leave-Between edge state between)
      targeted (some f) target s = followed-Ends f edge target state s between

  visit_edges-Ends :
      (visitor : Option Visitor) (edges : List HoldingEdge) (state : Visit)
      → Sound visitor
      → Between low high state
      → Ends (visit_edges visitor low edges state)
  unfolding visit_edges
  visit_edges-Ends visitor [] state sound between = (state, refl, between)
  visit_edges-Ends visitor (edge ∷ rest) state sound between =
      let (state', p, between') = visit_edge-Ends visitor edge state sound between in
      rw (p, visit_edges) (visit_edges-Ends visitor rest state' sound between')

  end_visit-IsBounded :
      (state : Visit) → Between low high state → IsBounded low high (end_visit state)
  unfolding end_visit
  end_visit-IsBounded state between = record {
    coverage = minimum-at_most (whole 100) state.coverage;
    unresolved = minimum-at_most (whole 100) state.unresolved;
    above = between.0;
    below = between.1;
  }

  nothing-IsBounded : (circular : Bool) → IsBounded low high (nothing_resolved low circular)
  nothing-IsBounded circular = record {
    coverage = unfold less in refl;
    unresolved = unfold less in refl;
    above = omega arith;
    below = le;
  }

  visit_node-IsBounded :
      (nodes : Nodes) (visitor : Option Visitor) (path : List ℕ) (id : ℕ)
      → Sound visitor
      → (r : LookthroughResult) × (visit_node nodes visitor path low id ≡ some r)
        × IsBounded low high r
  unfolding visit_node start_visit
  visit_node-IsBounded nodes visitor path id sound = elim (Bool-cases (memb id path)) [
    | inl h ↦ rw h (_, refl, nothing-IsBounded true)
    | inr h ↦ rw h (elim (Option-cases (node_of nodes id)) [
      | inl k ↦ rw k (_, refl, nothing-IsBounded false)
      | inr (node, k) ↦
          let (state, p, between) =
            visit_edges-Ends visitor node.holdings (start_visit node low) sound (omega arith, le) in
          rw k (rw p (_, refl, end_visit-IsBounded state between))
    ])
  ]

visit-IsBounded :
    (nodes : Nodes) (levels depth : ℕ) (path : List ℕ) (id : ℕ)
    → (r : LookthroughResult) × (visit nodes levels path depth id ≡ some r)
      × IsBounded depth (depth + levels) r
unfolding visit
visit-IsBounded nodes zero depth path id =
    visit_node-IsBounded depth (depth + 0) (omega arith) nodes none path id tt
visit-IsBounded nodes (suc levels) depth path id =
    visit_node-IsBounded depth (depth + suc levels) (omega arith) nodes
      (some (visit nodes levels (path ++ id ∷ []) (depth + 1))) path id
      (λ target.
        let (r, p, b) = visit-IsBounded nodes levels (depth + 1) (path ++ id ∷ []) target in
        (
          r,
          p,
          record {
            coverage = b.coverage;
            unresolved = b.unresolved;
            above = b.above;
            below = omega (arith, b.below);
          },
        ))

-- `weighted_lookthrough` returns for every graph, also one with cycles: no decimal operation fails,
-- the coverage and the unresolved weight are at most 100, and the depth at most `max_depth`.
pub weighted_lookthrough-IsBounded :
    (nodes : Nodes) (root max_depth : ℕ)
    → (r : LookthroughResult) × (weighted_lookthrough nodes root max_depth ≡ some r)
      × IsBounded 0 max_depth r
unfolding weighted_lookthrough
weighted_lookthrough-IsBounded nodes root max_depth =
    let (r, p, b) = visit-IsBounded nodes max_depth 0 [] root in
    (
      r,
      p,
      record {
        coverage = b.coverage;
        unresolved = b.unresolved;
        above = b.above;
        below = omega (arith, b.below);
      },
    )
