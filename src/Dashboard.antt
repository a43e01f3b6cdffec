-- ===== src/Dashboard.antt =====
-- apps/web/app/dashboard/page.tsx: the data of the page.
--
-- The helpers `computeHealth` and `healthColor` are in Loading.
pub mod Teams
pub mod Candidates
pub mod View
pub mod Totals
mod Tests
use socio_technical_alignmen.Prelude.{ℕ, ◌+◌, String, Bool, List, [], ◌∷◌}
use socio_technical_alignmen.Number.{Number}
use socio_technical_alignmen.Api.{
  CandidateProfile, CentralityScore, GraphPosition, knowledge_hub, cross_team_connector,
  domain_specialist, emerging_contributor, generalist,
}
use socio_technical_alignmen.Api.Client.{Outcome, value, rejected, Response}
use socio_technical_alignmen.Loading.{TeamHealth, compute_health, fetch_list}

-- What the page is rendered from.
pub record DashboardProps (F : Type 0) : Type 0 where
  pub teams : List String
  pub candidates : List (CandidateProfile F)
  pub health_data : List (TeamHealth F)

-- The text that stands for a position in the API.
unfoldable pub position_name : GraphPosition → String
position_name knowledge_hub = "knowledge hub"
position_name cross_team_connector = "cross-team connector"
position_name domain_specialist = "domain specialist"
position_name emerging_contributor = "emerging contributor"
position_name generalist = "generalist"

-- `POSITION_COLORS`.
unfoldable pub position_color : GraphPosition → String
position_color knowledge_hub = "#27B97C"
position_color cross_team_connector = "#7C4DBD"
position_color domain_specialist = "#003366"
position_color emerging_contributor = "#F07020"
position_color generalist = "#6B7280"

-- `healthData.reduce((s, h) => s + h.engineerCount, 0)`.
unfoldable pub sum_engineers : {F : Type 0} → ℕ → List (TeamHealth F) → ℕ
sum_engineers acc [] = acc
sum_engineers acc (h ∷ hs) = sum_engineers (acc + h.engineer_count) hs

unfoldable pub engineers_total : {F : Type 0} → List (TeamHealth F) → ℕ
unfolding sum_engineers
engineers_total hs = sum_engineers 0 hs

module _ {F : Type 0} ⦃n : Number F⦄ where
  -- One team more, with its scores.
  abbrev pub more_health :
      String
      → Outcome (List (CentralityScore F))
      → Outcome (List (TeamHealth F))
      → Outcome (List (TeamHealth F))
  more_health t o q = elim o [
    | rejected m ↦ rejected m
    | value cs ↦ elim q [ rejected m ↦ rejected m | value hs ↦ value (compute_health t cs ∷ hs) ]
  ]

  -- `scores` is the answer of the request for a team's scores.
  unfoldable pub all_health :
      (String → Outcome (Response (List (CentralityScore F))))
      → List String
      → Outcome (List (TeamHealth F))
  all_health scores [] = value []
  all_health scores (t ∷ ts) = more_health t (fetch_list (scores t)) (all_health scores ts)

  abbrev pub assemble :
      Outcome (List String)
      → Outcome (List (CandidateProfile F))
      → (List String → Outcome (List (TeamHealth F)))
      → Outcome (DashboardProps F)
  assemble teams candidates health = elim teams [
    | rejected m ↦ rejected m
    | value ts ↦ elim candidates [
      | rejected m ↦ rejected m
      | value cs ↦ elim (health ts) [
        | rejected m ↦ rejected m
        | value hs ↦ value (record { teams = ts; candidates = cs; health_data = hs })
      ]
    ]
  ]

  -- The data of the page; the two requests for the lists are independent.
  unfoldable pub load_dashboard :
      Outcome (Response (List String))
      → Outcome (Response (List (CandidateProfile F)))
      → (String → Outcome (Response (List (CentralityScore F))))
      → Outcome (DashboardProps F)
  load_dashboard teams candidates scores =
      assemble (fetch_list teams) (fetch_list candidates) (all_health scores)
