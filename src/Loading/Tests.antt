-- ===== src/Loading/Tests.antt =====
-- Loading a snapshot of one engineer.
use socio_technical_alignmen.Prelude.{ℕ, ◌≡◌, false, none, some, [], ◌∷◌, All}
use socio_technical_alignmen.Number.Scaled.{scaled}
use socio_technical_alignmen.Api.{GraphSnapshot, CentralityScore}
use socio_technical_alignmen.Samples.{person}
use socio_technical_alignmen.Store.Graph.{GraphState, build_force_graph_data}
use socio_technical_alignmen.Loading.{SelectorState, select_answered, hydrate}
use socio_technical_alignmen.Loading.Snapshots.{IsFlat, Draws, select_answered-IsFlat, hydrate_lem}

abbrev web : GraphSnapshot ℕ
web = record {
  snapshot_id = "s1";
  team_id = "web";
  captured_at = "";
  nodes = person "e1" "web" ∷ [];
  edges = [];
}

abbrev score : CentralityScore ℕ
score = record { engineer_id = "e1"; closeness = 500000; betweenness = 100000; degree = 1000000 }

abbrev empty : GraphState ℕ
empty = record {
  graph_data = none;
  snapshot = none;
  snapshots = [];
  active_snapshot_id = none;
  candidate_a = none;
  candidate_b = none;
  hovered_node_id = none;
  selected_node_id = none;
}

abbrev selector : SelectorState ℕ
selector = record { graph = empty; is_pending = false; error = none }

select_answered-IsFlat_example :
    ((select_answered "s1" (some web) selector).graph.graph_data
      ≡ some (build_force_graph_data web []))
    × All (IsFlat {F = ℕ}) (build_force_graph_data web []).nodes
select_answered-IsFlat_example = select_answered-IsFlat "s1" web selector

hydrate_lem_example :
    let after = hydrate web (score ∷ []) [] empty in
    Draws web (score ∷ []) after.graph_data
    × (after.snapshots ≡ [])
    × (after.active_snapshot_id ≡ some "s1")
    × (after.candidate_a ≡ none)
    × (after.candidate_b ≡ none)
hydrate_lem_example = hydrate_lem web (score ∷ []) [] empty
