-- ===== src/Workspace/Tests.antt =====
-- The workspace with a loaded team of one.
use socio_technical_alignmen.Prelude.{
  ℕ, String, true, false, not, ◌&&◌, ◌≡◌, ◌≢◌, none, some, List, [], ◌∷◌, All, is_empty,
  if◌then◌else◌,
}
use socio_technical_alignmen.Prelude.Text.{trim, utf16}
use socio_technical_alignmen.Number.Scaled.{scaled}
use socio_technical_alignmen.Api.{GraphSnapshot, CentralityScore}
use socio_technical_alignmen.Samples.{person}
use socio_technical_alignmen.Store.Simulation.{slot_a, slot_b, empty_slot, is_comparison_mode}
use socio_technical_alignmen.Store.Graph.{GraphState}
use socio_technical_alignmen.Workspace.{
  WorkspaceState, FormState, select_team, finish_load, handle_clear, handle_candidate_drop,
  stage_form, can_stage, parse_skills, panels, shows,
}
use socio_technical_alignmen.Api.Client.{value}
use socio_technical_alignmen.Workspace.Handlers.{
  IsEmpty, Keeps, Drops, handle_clear_lem, handle_candidate_drop_lem,
}
use socio_technical_alignmen.Workspace.Invariant.{
  PageEvent, dropped_on_slot, dropped_on_graph, completed, escaped, happen_all, IsLinked,
  happen_all-IsLinked,
}
use socio_technical_alignmen.Value.{str}
use socio_technical_alignmen.Workspace.Form.{
  stage_form_lem, panels_lem, has_results, has_comparison,
}

abbrev web : GraphSnapshot ℕ
web = record {
  snapshot_id = "s1";
  team_id = "web";
  captured_at = "";
  nodes = person "e1" "web" ∷ [];
  edges = [];
}

abbrev scored : String → ℕ → CentralityScore ℕ
scored id c = record { engineer_id = id; closeness = c; betweenness = 1; degree = 1 }

abbrev team : GraphState ℕ
team = record {
  graph_data = none;
  snapshot = some web;
  snapshots = [];
  active_snapshot_id = none;
  candidate_a = none;
  candidate_b = none;
  hovered_node_id = none;
  selected_node_id = none;
}

abbrev page : WorkspaceState ℕ
page = record {
  selected_team = "web";
  is_loading_graph = false;
  graph_error = none;
  staged_a = none;
  staged_b = none;
  graph = team;
  simulation = record { a = empty_slot; b = empty_slot; history = [] };
}

abbrev form : FormState
form = record { name = utf16 " Eva "; skills = utf16 "go, ,sql" }

abbrev late_page : WorkspaceState ℕ
late_page =
    let loaded = (finish_load (value (web, [])) (select_team "api" page)).0 in
    (finish_load (value (web, [])) loaded).0

handle_clear_lem_example :
    IsEmpty slot_a (handle_clear slot_a page).0
    × ((handle_clear slot_a page).1 ≡ [])
    × Keeps slot_b (handle_clear slot_a page).0 page
    × ((handle_clear slot_a page).0.graph.graph_data ≡ none)
    × ((handle_clear slot_a page).0.simulation.history ≡ [])
handle_clear_lem_example = handle_clear_lem slot_a page

loaded : page.graph.snapshot ≢ none
loaded h = cc

handle_candidate_drop_lem_example :
    Drops slot_b "c1" "Eva"
      ("go" ∷ [])
      4
      5
      7
      page
      (handle_candidate_drop slot_b "c1" "Eva" ("go" ∷ []) 4 5 7 page)
handle_candidate_drop_lem_example =
    handle_candidate_drop_lem slot_b "c1" "Eva" ("go" ∷ []) 4 5 7 page loaded

stage_form_lem_example :
    (can_stage form none ≡ not (is_empty (trim form.name)))
    × (stage_form form
        ≡ (if can_stage form none then some (trim form.name, parse_skills form.skills) else none))
    × All (λ t. not (is_empty t) ≡ true) (parse_skills form.skills)
stage_form_lem_example = stage_form_lem form

panels_lem_example :
    (has_results slot_a (panels page) ≡ shows page.simulation.a)
    × (has_results slot_b (panels page) ≡ shows page.simulation.b)
    × (has_comparison (panels page) ≡ (
        is_comparison_mode page.simulation && shows page.simulation.a && shows page.simulation.b))
panels_lem_example = panels_lem page

abbrev visit : List (PageEvent ℕ)
visit =
    dropped_on_slot slot_a "c1" "Eva" []
    ∷ dropped_on_graph slot_a "c1" "Eva" [] 4 5 7
    ∷ completed slot_a (str "done")
    ∷ escaped
    ∷ []

happen_all-IsLinked_example : IsLinked (happen_all visit page)
happen_all-IsLinked_example = happen_all-IsLinked visit page (tt, tt)
