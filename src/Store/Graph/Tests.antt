-- ===== src/Store/Graph/Tests.antt =====
-- The graph store on a small team.
use mathlib.Core.List.{Memᴰ}
use socio_technical_alignmen.Prelude.{ℕ, ◌≡◌, ◌↔◌, refl, none, some, List, [], ◌∷◌}
use socio_technical_alignmen.Number.Scaled.{scaled}
use socio_technical_alignmen.Api.{ForceGraphNode}
use socio_technical_alignmen.Store.Simulation.{slot_a}
use socio_technical_alignmen.Samples.{node, newcomer}
use socio_technical_alignmen.Store.Graph.{
  GraphState, CandidateForceNode, candidate, predicted_link, select, compute_predicted_edges,
  get_selected_node,
}
use socio_technical_alignmen.Store.Graph.Prediction.{Predicts, compute_predicted_edges_iff}

abbrev eva : CandidateForceNode ℕ
eva = newcomer slot_a "c1" ("go" ∷ "sql" ∷ [])

abbrev team : List (ForceGraphNode ℕ)
team = node "e1" "web" 3 ∷ node "e2" "api" 9 ∷ []

abbrev shown : GraphState ℕ
shown = record {
  graph_data = none;
  snapshot = none;
  snapshots = [];
  active_snapshot_id = none;
  candidate_a = some eva;
  candidate_b = none;
  hovered_node_id = none;
  selected_node_id = some "c1";
}

eva_selected : get_selected_node shown ≡ some (candidate eva)
unfolding get_selected_node select
eva_selected = refl

compute_predicted_edges_iff_example :
    Memᴰ (predicted_link eva (node "e1" "web" 3) 1) (compute_predicted_edges eva team)
    ↔ Predicts eva team (predicted_link eva (node "e1" "web" 3) 1)
compute_predicted_edges_iff_example =
    compute_predicted_edges_iff eva team (predicted_link eva (node "e1" "web" 3) 1)
