-- ===== src/Risk/Tests.antt =====
-- The risk page on two teams.
use socio_technical_alignmen.Prelude.{
  ℕ, ◌≡◌, refl, true, false, none, some, [], ◌∷◌, str_eq, if◌then◌else◌,
}
use socio_technical_alignmen.Number.Scaled.{scaled}
use socio_technical_alignmen.Html.Queries.{clicks}
use socio_technical_alignmen.Risk.{RiskState, TeamRisk, choose_team}
use socio_technical_alignmen.Risk.View.{hero}
use socio_technical_alignmen.Risk.Tabs.{tabs_lem}

abbrev page : RiskState ℕ
page = record {
  teams = "web" ∷ "api" ∷ [];
  selected_team = "web";
  risk = none;
  loading = false;
  error = "HTTP 500";
}

tabs_lem_example :
    (clicks (hero page) ≡ "web" ∷ "api" ∷ [])
    × (choose_team "api" page ≡ (
        if str_eq "api" page.selected_team
        then page
        else record page { selected_team = "api"; loading = true; error = "" }))
    × (clicks (hero (choose_team "api" page)) ≡ clicks (hero page))
tabs_lem_example = tabs_lem "api" page refl

abbrev api_risk : TeamRisk ℕ
api_risk = record {
  team_id = "api";
  resilience_score = 700000;
  bus_factor = 1;
  graph_density = 500000;
  engineer_count = 0;
  engineers = [];
}

abbrev shown : RiskState ℕ
shown = record page { risk = some api_risk }
