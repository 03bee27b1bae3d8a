-- ===== src/Ingestion/Lookthrough.antt =====
-- `weighted_lookthrough` of ingestion/lookthrough.py. A node is named by a number; `None` and an
-- exception (of a decimal operation) are both `none`, in an edge and in a result.
use qdii_observatory.Common.{
  ℕ, zero, suc, ◌+◌, String, Bool, true, false, ◌||◌, Option, none, some, List, [], ◌∷◌, ◌++◌, ◌==◌,
  str_eq, ltb, if◌then◌else◌, first, memb,
}
use qdii_observatory.Common.Decimal.{
  Decimal, whole, add, subtract, multiply, divide, at_most, minimum, maximum,
}

pub record HoldingEdge : Type 0 where
  pub target : Option ℕ
  pub weight_pct : Decimal

abbrev pub Exposure : Type 0
Exposure = List (String × Decimal)

pub record ExposureNode : Type 0 where
  pub direct : Exposure
  pub holdings : List HoldingEdge

pub record LookthroughResult : Type 0 where
  pub exposure : Exposure
  pub coverage_pct : Decimal
  pub unresolved_fund_weight_pct : Decimal
  pub max_depth : ℕ
  pub circular_relation_detected : Bool

abbrev pub Nodes : Type 0
Nodes = List (ℕ × ExposureNode)

-- The local variables of `visit`.
pub record Visit : Type 0 where
  pub exposure : Exposure
  pub coverage : Decimal
  pub unresolved : Decimal
  pub deepest : ℕ
  pub circular : Bool

unfoldable pub node_of : Nodes → ℕ → Option ExposureNode
node_of nodes id = elim (first (λ entry. entry.0 == id) nodes) [
  | none ↦ none
  | some entry ↦ some entry.1
]

-- `exposure[label] = exposure.get(label, Decimal("0")) + amount`
unfoldable pub add_label : String → Decimal → Exposure → Exposure
unfolding add
add_label label amount [] = (label, add (whole 0) amount) ∷ []
add_label label amount ((l, value) ∷ rest) =
    if str_eq l label
    then (l, add value amount) ∷ rest
    else (l, value) ∷ add_label label amount rest

-- `weight * share / Decimal("100")`
unfoldable pub part : Decimal → Decimal → Option Decimal
unfolding divide multiply
part weight share = divide (multiply weight share) (whole 100)

unfoldable pub add_exposure : Decimal → Exposure → Exposure → Option Exposure
unfolding part add_label
add_exposure weight [] exposure = some exposure
add_exposure weight ((label, share) ∷ rest) exposure = elim (part weight share) [
  | none ↦ none
  | some amount ↦ add_exposure weight rest (add_label label amount exposure)
]

unfoldable pub direct_total : Decimal → Exposure → Decimal
unfolding add
direct_total total [] = total
direct_total total ((label, value) ∷ rest) = direct_total (add total value) rest

abbrev pub max_of : ℕ → ℕ → ℕ
max_of a b = if ltb a b then b else a

unfoldable pub start_visit : ExposureNode → ℕ → Visit
unfolding direct_total minimum
start_visit node depth = record {
  exposure = node.direct;
  coverage = minimum (whole 100) (direct_total (whole 0) node.direct);
  unresolved = whole 0;
  deepest = depth;
  circular = false;
}

-- An edge without a target, or at the greatest depth.
unfoldable pub leave_unresolved : ℕ → HoldingEdge → Visit → Visit
unfolding add
leave_unresolved depth edge state = record state {
  unresolved = add state.unresolved edge.weight_pct;
  deepest = max_of state.deepest depth;
}

unfoldable pub merge_child : HoldingEdge → LookthroughResult → Visit → Option Visit
unfolding add_exposure part add maximum subtract
merge_child edge child state = elim (add_exposure edge.weight_pct child.exposure state.exposure) [
  | none ↦ none
  | some exposure ↦ elim (part edge.weight_pct child.unresolved_fund_weight_pct) [
    | none ↦ none
    | some nested_unresolved ↦ some (record {
      exposure = exposure;
      coverage =
          add state.coverage (maximum (whole 0) (subtract edge.weight_pct nested_unresolved));
      unresolved = add state.unresolved nested_unresolved;
      deepest = max_of state.deepest child.max_depth;
      circular = state.circular || child.circular_relation_detected;
    })
  ]
]

abbrev pub Visitor : Type 0
Visitor = ℕ → Option LookthroughResult

-- The body of the loop over the holdings. There is no visitor at the greatest depth.
unfoldable pub visit_edge : Option Visitor → ℕ → HoldingEdge → Visit → Option Visit
unfolding leave_unresolved merge_child
visit_edge visitor depth edge state =
    if at_most edge.weight_pct (whole 0) then some state else elim edge.target [
      | none ↦ some (leave_unresolved depth edge state)
      | some target ↦ elim visitor [
        | none ↦ some (leave_unresolved depth edge state)
        | some visit ↦ elim (visit target) [
          | none ↦ none
          | some child ↦ merge_child edge child state
        ]
      ]
    ]

unfoldable pub visit_edges : Option Visitor → ℕ → List HoldingEdge → Visit → Option Visit
unfolding visit_edge
visit_edges visitor depth [] state = some state
visit_edges visitor depth (edge ∷ rest) state = elim (visit_edge visitor depth edge state) [
  | none ↦ none
  | some state' ↦ visit_edges visitor depth rest state'
]

unfoldable pub end_visit : Visit → LookthroughResult
unfolding minimum
end_visit state = record {
  exposure = state.exposure;
  coverage_pct = minimum (whole 100) state.coverage;
  unresolved_fund_weight_pct = minimum (whole 100) state.unresolved;
  max_depth = state.deepest;
  circular_relation_detected = state.circular;
}

abbrev pub nothing_resolved : ℕ → Bool → LookthroughResult
nothing_resolved depth circular = record {
  exposure = [];
  coverage_pct = whole 0;
  unresolved_fund_weight_pct = whole 100;
  max_depth = depth;
  circular_relation_detected = circular;
}

unfoldable pub visit_node : Nodes → Option Visitor → List ℕ → ℕ → Visitor
unfolding node_of start_visit visit_edges end_visit
visit_node nodes visitor path depth id =
    if memb id path then some (nothing_resolved depth true) else elim (node_of nodes id) [
      | none ↦ some (nothing_resolved depth false)
      | some node ↦ elim (visit_edges visitor depth node.holdings (start_visit node depth)) [
        | none ↦ none
        | some state ↦ some (end_visit state)
      ]
    ]

-- `visit`, by recursion on `max_depth - depth`.
unfoldable pub visit : Nodes → ℕ → List ℕ → ℕ → Visitor
unfolding visit_node
visit nodes zero path depth id = visit_node nodes none path depth id
visit nodes (suc levels) path depth id =
    visit_node nodes (some (visit nodes levels (path ++ id ∷ []) (depth + 1))) path depth id

unfoldable pub weighted_lookthrough : Nodes → ℕ → ℕ → Option LookthroughResult
unfolding visit
weighted_lookthrough nodes root max_depth = visit nodes max_depth [] 0 root
