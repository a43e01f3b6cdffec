-- ===== src/TeamPages/Tests.antt =====
-- The pages of the teams on a small graph.
use socio_technical_alignmen.Prelude.{
  ℕ, String, ◌≡◌, true, List, [], ◌∷◌, map, if◌then◌else◌, str_eq,
}
use socio_technical_alignmen.Number.Scaled.{scaled}
use socio_technical_alignmen.Api.{CentralityScore}
use socio_technical_alignmen.Api.Client.{Outcome, value, rejected, Response}
use socio_technical_alignmen.Loading.{TeamHealth, health_color}
use socio_technical_alignmen.Dashboard.{all_health, engineers_total}
use socio_technical_alignmen.TeamPages.{summaries, total_engineers, health_badge}
use socio_technical_alignmen.TeamPages.Agreement.{without_hub, outcome_map, pages_agree}

-- One engineer in each team; the scores of the second team cannot be fetched.
abbrev team_scores : String → Outcome (Response (List (CentralityScore ℕ)))
team_scores team =
    if str_eq team "web"
    then value (record {
      ok = true;
      status = 200;
      status_text = "OK";
      json = value (
          record { engineer_id = "e1"; closeness = 600000; betweenness = 0; degree = 1000000 }
          ∷ []);
    })
    else rejected "offline"

abbrev counted : List (TeamHealth ℕ)
counted =
    record { team_id = "web"; engineer_count = 1; avg_closeness = 600000; top_hub = "e1" } ∷ []

abbrev listed : List String
listed = "web" ∷ "api" ∷ []

pages_agree_example :
    (summaries team_scores listed ≡ outcome_map (map without_hub) (all_health team_scores listed))
    × (total_engineers 0 (map without_hub counted) ≡ engineers_total counted)
    × ((health_badge {F = ℕ} 600000).fill ≡ (health_color {F = ℕ} 600000).fill)
    × ((health_badge {F = ℕ} 600000).label ≡ (health_color {F = ℕ} 600000).label)
pages_agree_example = pages_agree team_scores listed counted 600000
