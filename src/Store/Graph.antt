-- ===== src/Store/Graph.antt =====
-- apps/web/lib/store/graph.ts: the base graph, the candidate overlay and the interaction state.
pub mod Selection
pub mod Prediction
mod Tests
use socio_technical_alignmen.Prelude.{
  ℕ, zero, String, Bool, true, false, not, ◌&&◌, Option, none, some, List, [], ◌∷◌, ◌++◌, map,
  filter, find?, length, lookup, includes, insert, str_eq, if◌then◌else◌,
}
use socio_technical_alignmen.Number.{Number}
use socio_technical_alignmen.Value.{is_set}
use socio_technical_alignmen.Api.{
  EngineerNode, GraphEdge, GraphSnapshot, SnapshotMeta, CentralityScore, ForceGraphNode,
  ForceGraphLink, ForceGraphData, RelationshipType, shares_domain_with,
}
use socio_technical_alignmen.Store.Simulation.{Slot, slot_a, slot_b}

pub record CandidateForceNode (F : Type 0) : Type 0 where
  pub node : ForceGraphNode F
  pub open node use *
  pub slot : Slot

pub record PredictedForceLink (F : Type 0) : Type 0 where
  pub link : ForceGraphLink F
  pub open link use *
  pub slot : Slot

-- `centrality[id]`, the argument of `setSnapshot`.
pub record Centrality (F : Type 0) : Type 0 where
  pub closeness : F
  pub betweenness : F

pub record GraphState (F : Type 0) : Type 0 where
  pub graph_data : Option (ForceGraphData F)
  pub snapshot : Option (GraphSnapshot F)
  pub snapshots : List SnapshotMeta
  pub active_snapshot_id : Option String
  pub candidate_a : Option (CandidateForceNode F)
  pub candidate_b : Option (CandidateForceNode F)
  pub hovered_node_id : Option String
  pub selected_node_id : Option String

-- A node of the drawn graph: `getSelectedNode` and the canvas callbacks meet both kinds.
pub data AnyNode (F : Type 0) : Type 0 where
  engineer : ForceGraphNode F → AnyNode F
  candidate : CandidateForceNode F → AnyNode F

module _ {F : Type 0} where
  abbrev pub node_id : AnyNode F → String
  node_id (engineer e) = e.id
  node_id (candidate c) = c.id

  pub initial : GraphState F
  initial = record {
    graph_data = none;
    snapshot = none;
    snapshots = [];
    active_snapshot_id = none;
    candidate_a = none;
    candidate_b = none;
    hovered_node_id = none;
    selected_node_id = none;
  }

  abbrev pub force_link : GraphEdge F → ForceGraphLink F
  force_link e = record {
    source = e.source_id;
    target = e.target_id;
    weight = e.weight;
    relationship = e.relationship;
  }

  unfoldable pub set_snapshots : List SnapshotMeta → GraphState F → GraphState F
  set_snapshots snapshots s = record s { snapshots = snapshots }

  unfoldable pub set_active_snapshot_id : String → GraphState F → GraphState F
  set_active_snapshot_id id s = record s { active_snapshot_id = some id }

  unfoldable pub set_hovered_node_id : Option String → GraphState F → GraphState F
  set_hovered_node_id id s = record s { hovered_node_id = id }

  unfoldable pub set_selected_node_id : Option String → GraphState F → GraphState F
  set_selected_node_id id s = record s { selected_node_id = id }

  -- `candidateNodes.A?.id === id ? candidateNodes.A : null`.
  abbrev pub matching : String → Option (CandidateForceNode F) → Option (CandidateForceNode F)
  matching id none = none
  matching id (some c) = if str_eq c.id id then some c else none

  -- `graphData?.nodes.find((n) => n.id === id) ?? null`.
  abbrev find_base : String → Option (ForceGraphData F) → Option (AnyNode F)
  find_base id none = none
  find_base id (some g) = elim (find? (λ n. str_eq n.id id) g.nodes) [
    | none ↦ none
    | some n ↦ some (engineer n)
  ]

  -- `getSelectedNode` once an id is given.
  unfoldable pub select : String → GraphState F → Option (AnyNode F)
  select id s = elim (matching id s.candidate_a) [
    | some c ↦ some (candidate c)
    | none ↦ elim (matching id s.candidate_b) [
      | some c ↦ some (candidate c)
      | none ↦ find_base id s.graph_data
    ]
  ]

  select_some : Option String → GraphState F → Option (AnyNode F)
  select_some none s = none
  select_some (some id) s = if str_eq id "" then none else select id s

  unfoldable pub get_selected_node : GraphState F → Option (AnyNode F)
  unfolding select_some
  get_selected_node s = select_some s.selected_node_id s

  unfoldable pub set_candidate_node :
      Slot → Option (CandidateForceNode F) → GraphState F → GraphState F
  set_candidate_node slot_a c s = record s { candidate_a = c }
  set_candidate_node slot_b c s = record s { candidate_b = c }

  unfoldable pub clear_candidate_node : Slot → GraphState F → GraphState F
  clear_candidate_node slot_a s = record s { candidate_a = none }
  clear_candidate_node slot_b s = record s { candidate_b = none }

  unfoldable pub clear_all_candidates : GraphState F → GraphState F
  clear_all_candidates s = record s { candidate_a = none; candidate_b = none }

module _ {F : Type 0} ⦃n : Number F⦄ where
  -- `centrality[id]?.closeness ?? 0`.
  abbrev pub closeness_of : Option (Centrality F) → F
  closeness_of none = n.lit 0 0
  closeness_of (some c) = c.closeness

  abbrev pub betweenness_of : Option (Centrality F) → F
  betweenness_of none = n.lit 0 0
  betweenness_of (some c) = c.betweenness

  abbrev pub force_node : List (String × Centrality F) → EngineerNode → ForceGraphNode F
  force_node centrality e = record {
    engineer = e;
    closeness = closeness_of (lookup e.id centrality);
    betweenness = betweenness_of (lookup e.id centrality);
    x = none;
    y = none;
    vx = none;
    vy = none;
    fx = none;
    fy = none;
  }

  unfoldable pub build_force_graph_data :
      GraphSnapshot F → List (String × Centrality F) → ForceGraphData F
  build_force_graph_data snapshot centrality = record {
    nodes = map (force_node centrality) snapshot.nodes;
    links = map force_link snapshot.edges;
  }

  unfoldable pub set_snapshot :
      GraphSnapshot F → List (String × Centrality F) → GraphState F → GraphState F
  unfolding build_force_graph_data
  set_snapshot snapshot centrality s = record s {
    snapshot = some snapshot;
    graph_data = some (build_force_graph_data snapshot centrality);
    active_snapshot_id = some snapshot.snapshot_id;
  }

  -- The number of the engineer's skills that the candidate has.
  unfoldable pub overlap : CandidateForceNode F → ForceGraphNode F → ℕ
  overlap c e = length (filter (λ s. includes s c.skills) e.skills)

  abbrev pub predicted_link : CandidateForceNode F → ForceGraphNode F → ℕ → PredictedForceLink F
  predicted_link c e weight = record {
    link = record {
      source = c.id;
      target = e.id;
      weight = n.lit weight 0;
      relationship = shares_domain_with;
    };
    slot = c.slot;
  }

  -- `if (overlap > 0) links.push({...})`.
  abbrev predicted : CandidateForceNode F → ForceGraphNode F → ℕ → List (PredictedForceLink F)
  predicted c e zero = []
  predicted c e weight = predicted_link c e weight ∷ []

  unfoldable pub compute_predicted_edges :
      CandidateForceNode F → List (ForceGraphNode F) → List (PredictedForceLink F)
  compute_predicted_edges c [] = []
  compute_predicted_edges c (e ∷ es) = predicted c e (overlap c e) ++ compute_predicted_edges c es
