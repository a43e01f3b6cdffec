-- ===== src/TeamGraph.antt =====
-- apps/web/components/graph/TeamGraph.tsx: the data that the canvas draws, and its handlers.
--
-- `TeamGraph.Canvas` models the two drawing callbacks. The layout library itself
-- (react-force-graph-2d) is not under the repository.
pub mod Canvas
pub mod Merge
pub mod Legend
pub mod Interaction
pub mod Collide
pub mod Collision
pub mod Tooltip
pub mod Overlays
pub mod View
mod Tests
use socio_technical_alignmen.Prelude.{
  ℕ, String, Bool, true, false, Option, none, some, List, [], ◌∷◌, ◌++◌, map, filter, length,
  is_empty, ltb, str_eq, if◌then◌else◌,
}
use socio_technical_alignmen.Number.{Number}
use socio_technical_alignmen.Api.{
  ForceGraphNode, ForceGraphLink, ForceGraphData, RelationshipType, reviews_pr_of,
  resolves_doubt_for, pair_programs_with, blocks_ticket_of, shares_domain_with,
}
use socio_technical_alignmen.GraphUtils.{node_radius}
use socio_technical_alignmen.Store.Graph.{
  GraphState, CandidateForceNode, PredictedForceLink, AnyNode, engineer, candidate, node_id,
  compute_predicted_edges, set_hovered_node_id, set_selected_node_id,
}

-- A link of the drawn graph.
pub data AnyLink (F : Type 0) : Type 0 where
  base : ForceGraphLink F → AnyLink F
  predicted : PredictedForceLink F → AnyLink F

pub record MergedData (F : Type 0) : Type 0 where
  pub nodes : List (AnyNode F)
  pub links : List (AnyLink F)

-- `new Set(links.map((l) => l.relationship)).has(r)`.
abbrev pub same_type : RelationshipType → RelationshipType → Bool
same_type reviews_pr_of reviews_pr_of = true
same_type resolves_doubt_for resolves_doubt_for = true
same_type pair_programs_with pair_programs_with = true
same_type blocks_ticket_of blocks_ticket_of = true
same_type shares_domain_with shares_domain_with = true
same_type _ _ = false

-- The keys of `RELATIONSHIP_META`, in the order of the source.
abbrev pub relationship_types : List RelationshipType
relationship_types =
    reviews_pr_of ∷ resolves_doubt_for ∷ pair_programs_with ∷ blocks_ticket_of ∷ shares_domain_with
    ∷ []

-- `cooldownTicks`; `none` leaves the library's default.
unfoldable pub cooldown_ticks : ℕ → Option ℕ
cooldown_ticks node_count = if ltb 500 node_count then some 0 else none

abbrev pub is_selected : Option String → String → Bool
is_selected none id = false
is_selected (some chosen) id = str_eq chosen id

module _ {F : Type 0} where
  abbrev pub link_of : AnyLink F → ForceGraphLink F
  link_of (base l) = l
  link_of (predicted l) = l.link

  abbrev pub listed : Option (CandidateForceNode F) → List (CandidateForceNode F)
  listed none = []
  listed (some c) = c ∷ []

  -- The candidates of the two slots, without the empty ones.
  unfoldable pub active_candidates : GraphState F → List (CandidateForceNode F)
  active_candidates s = listed s.candidate_a ++ listed s.candidate_b

  unfoldable pub has_type : RelationshipType → List (AnyLink F) → Bool
  has_type r [] = false
  has_type r (l ∷ ls) = if same_type (link_of l).relationship r then true else has_type r ls

  abbrev links_of : Option (MergedData F) → List (AnyLink F)
  links_of none = []
  links_of (some d) = d.links

  -- The relationship types of the legend.
  unfoldable pub present_rel_types : Option (MergedData F) → List RelationshipType
  present_rel_types o = filter (λ r. has_type r (links_of o)) relationship_types

module _ {F : Type 0} ⦃n : Number F⦄ where
  unfoldable pub predicted_links :
      List (CandidateForceNode F) → List (ForceGraphNode F) → List (PredictedForceLink F)
  predicted_links [] nodes = []
  predicted_links (c ∷ cs) nodes = compute_predicted_edges c nodes ++ predicted_links cs nodes

  unfoldable pub merge : List (CandidateForceNode F) → ForceGraphData F → MergedData F
  merge [] g = record { nodes = map engineer g.nodes; links = map base g.links }
  merge (c ∷ cs) g = record {
    nodes = map engineer g.nodes ++ map candidate (c ∷ cs);
    links = map base g.links ++ map predicted (predicted_links (c ∷ cs) g.nodes);
  }

  -- The base graph with the overlay of the candidates and their predicted edges.
  unfoldable pub merged_data : GraphState F → Option (MergedData F)
  unfolding merge
  merged_data s = elim s.graph_data [ none ↦ none | some g ↦ some (merge (active_candidates s) g) ]

  -- The repulsion by the number of nodes, and the collision radius of a node.
  unfoldable pub charge_strength : ℕ → F
  charge_strength node_count = n.sub (n.lit 0 0) (
      if ltb 30 node_count
      then n.lit 1100 0
      else if ltb 15 node_count
      then n.lit 650 0
      else n.lit 420 0)

  unfoldable pub collision_radius : F → F → F
  collision_radius betweenness mx_betweenness =
      n.add (node_radius betweenness mx_betweenness) (n.lit 28 0)

-- The coordinates that a handler reads from what the layout library calls it with; a property that
-- the given object does not have is `undefined`.
pub record Pointer (F : Type 0) : Type 0 where
  pub client_x : Option F
  pub client_y : Option F

-- The state that the canvas handlers work on.
pub record CanvasState (F : Type 0) : Type 0 where
  pub graph : GraphState F
  pub tooltip_pos : Option (Pointer F)
  pub is_drag_over : Bool

module _ {F : Type 0} where
  abbrev hovered_id : Option (AnyNode F) → Option String
  hovered_id none = none
  hovered_id (some v) = some (node_id v)

  -- `if (n && event)`: the tooltip stands over a node, if there is a second argument.
  abbrev tooltip_at : Option (AnyNode F) → Option (Pointer F) → Option (Pointer F)
  tooltip_at none event = none
  tooltip_at (some v) event = event

  -- The second argument is the library's: the source reads `clientX` and `clientY` from it.
  unfoldable pub handle_node_hover :
      Option (AnyNode F) → Option (Pointer F) → CanvasState F → CanvasState F
  handle_node_hover node event s = record s {
    graph = set_hovered_node_id (hovered_id node) s.graph;
    tooltip_pos = tooltip_at node event;
  }

  -- A click on the selected node takes the selection away.
  unfoldable pub handle_node_click : AnyNode F → CanvasState F → CanvasState F
  handle_node_click node s = record s {
    graph =
        set_selected_node_id
          (if is_selected s.graph.selected_node_id (node_id node)
            then none
            else some (node_id node))
          s.graph;
  }
