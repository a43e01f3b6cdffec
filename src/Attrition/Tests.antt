-- ===== src/Attrition/Tests.antt =====
-- Attrition on a small team.
use mathlib.Core.List.{Permᴰ}
use socio_technical_alignmen.Prelude.{ℕ, ◌≡◌, true, false, none, List, [], ◌∷◌, ◌++◌}
use socio_technical_alignmen.Number.Scaled.{scaled}
use socio_technical_alignmen.Api.{EngineerNode, junior, mid, senior, staff}
use socio_technical_alignmen.Attrition.{AttritionState, AttritionResult, by_seniority}
use socio_technical_alignmen.Attrition.Order.{those, by_seniority_lem}
use socio_technical_alignmen.Prelude.{not, ◌&&◌, if◌then◌else◌}
use socio_technical_alignmen.Html.Queries.{clicks}
use socio_technical_alignmen.Attrition.{run_clicked, can_run, act}
use socio_technical_alignmen.Attrition.Parts.{run_button}
use socio_technical_alignmen.Attrition.Buttons.{run_button_lem}

abbrev staffed : List EngineerNode
staffed =
    record { id = "e1"; name = "Ann"; skills = []; seniority = junior; team = "web" }
    ∷ record { id = "e2"; name = "Bob"; skills = []; seniority = staff; team = "web" }
    ∷ []

abbrev loss : AttritionResult ℕ
loss = record {
  team_id = "web";
  removed_engineer_id = "e2";
  removed_engineer_name = "Bob";
  removed_engineer_seniority = "staff";
  removed_engineer_skills = [];
  baseline_avg_closeness = 500000;
  post_removal_avg_closeness = 400000;
  closeness_drop_pct = 20000000;
  baseline_components = 1000000;
  post_removal_components = 2000000;
  graph_fragmented = true;
  engineer_impacts =
      record {
        engineer_id = "e1";
        name = "Ann";
        closeness_before = 500000;
        closeness_after = 400000;
        closeness_delta_pct = 20000000;
        betweenness_before = 0;
        betweenness_after = 0;
      }
      ∷ [];
}

abbrev page : AttritionState ℕ
page = record {
  teams = "web" ∷ "api" ∷ [];
  selected_team = "web";
  engineers = staffed;
  selected_eng = "e2";
  running = false;
  result = none;
  error = "";
}

by_seniority_lem_example :
    Permᴰ (by_seniority staffed) staffed
    × (by_seniority staffed
        ≡ those staff staffed
          ++ (those senior staffed ++ (those mid staffed ++ those junior staffed)))
by_seniority_lem_example = by_seniority_lem staffed

run_button_lem_example :
    (clicks (run_button page) ≡ (if can_run page && not page.running then run_clicked ∷ [] else []))
    × (act run_clicked page ≡ (
        if can_run page then record page { running = true; result = none; error = "" } else page))
    × (clicks (run_button (act run_clicked page)) ≡ [])
run_button_lem_example = run_button_lem page
