-- ===== src/Dashboard/Tests.antt =====
-- The dashboard on a small graph.
use socio_technical_alignmen.Prelude.{
  ℕ, String, ◌≡◌, true, List, [], ◌∷◌, if◌then◌else◌, str_eq, inl, inr, Bool-cases,
}
use socio_technical_alignmen.Number.Scaled.{scaled}
use socio_technical_alignmen.Api.{CentralityScore, CandidateProfile}
use socio_technical_alignmen.Api.Client.{Outcome, value, rejected, Response}
use socio_technical_alignmen.Dashboard.{load_dashboard, engineers_total}
use socio_technical_alignmen.Dashboard.Totals.{
  list_of, IsReadable, health_of, count_scores, load_dashboard_lem,
}

-- One engineer in each team; the scores of the second team cannot be fetched.
abbrev scores : String → Outcome (Response (List (CentralityScore ℕ)))
scores team =
    if str_eq team "web"
    then value (record {
      ok = true;
      status = 200;
      status_text = "OK";
      json = value (
          record { engineer_id = "e1"; closeness = 600000; betweenness = 0; degree = 1000000 }
          ∷ []);
    })
    else rejected "offline"

abbrev teams : Outcome (Response (List String))
teams =
    value
      (record { ok = true; status = 200; status_text = "OK"; json = value ("web" ∷ "api" ∷ []) })

abbrev candidates : Outcome (Response (List (CandidateProfile ℕ)))
candidates = rejected "offline"

scores-IsReadable : (t : String) → IsReadable (scores t)
scores-IsReadable t = elim (Bool-cases (str_eq t "web")) [
  | inl web ↦ rw web tt
  | inr other ↦ rw other tt
]

load_dashboard_lem_example :
    (load_dashboard teams candidates scores
      ≡ value (record {
        teams = list_of teams;
        candidates = list_of candidates;
        health_data = health_of scores (list_of teams);
      }))
    × (engineers_total (health_of scores (list_of teams)) ≡ count_scores scores 0 (list_of teams))
load_dashboard_lem_example = load_dashboard_lem teams candidates scores tt tt scores-IsReadable
