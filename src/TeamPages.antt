-- ===== src/TeamPages.antt =====
-- apps/web/app/teams/page.tsx and apps/web/app/teams/[id]/page.tsx: the team overview and the page
-- of a team.
pub mod Overview
pub mod Team
pub mod Agreement
mod Tests
use socio_technical_alignmen.Prelude.{
  ℕ, ◌+◌, String, Bool, Option, none, some, List, [], ◌∷◌, length, if◌then◌else◌,
}
use socio_technical_alignmen.Number.{Number}
use socio_technical_alignmen.Api.{CentralityScore, GraphSnapshot}
use socio_technical_alignmen.Api.Client.{Outcome, value, rejected, Response}
use socio_technical_alignmen.Loading.{fetch_list}
use socio_technical_alignmen.CandidatePages.{fetch_candidate}

pub record TeamSummary (F : Type 0) : Type 0 where
  pub team_id : String
  pub engineer_count : ℕ
  pub avg_closeness : F

-- What the overview is rendered from.
pub record TeamsProps (F : Type 0) : Type 0 where
  pub teams : List String
  pub health_data : List (TeamSummary F)

pub record HealthBadge : Type 0 where
  pub fill : String
  pub label : String
  pub bg : String
  pub letters : String

-- The style `card`.
unfoldable pub card : List String
card =
    ("backgroundColor: #ffffff; borderRadius: 12; overflow: hidden; boxShadow: 0 1px 4px rgba(0,51,102,0.08)"
      ∷ [])

-- `healthData.reduce((s, h) => s + h.engineerCount, 0)`, from a start.
unfoldable pub total_engineers : {F : Type 0} → ℕ → List (TeamSummary F) → ℕ
total_engineers acc [] = acc
total_engineers acc (h ∷ hs) = total_engineers (acc + h.engineer_count) hs

module _ {F : Type 0} ⦃n : Number F⦄ where
  unfoldable pub health_badge : F → HealthBadge
  health_badge avg =
      if n.le (n.lit 55 2) avg
      then record {
        fill = "#27B97C";
        label = "Highly connected";
        bg = "#E0F7EF";
        letters = "#0D5C3A";
      }
      else if n.le (n.lit 40 2) avg
      then record {
        fill = "#F07020";
        label = "Moderate cohesion";
        bg = "#FEF0E6";
        letters = "#7A3800";
      }
      else record { fill = "#E03448"; label = "Low cohesion"; bg = "#FDEAEA"; letters = "#7A1020" }

  abbrev sum_scores : F → List (CentralityScore F) → F
  sum_scores acc [] = acc
  sum_scores acc (c ∷ cs) = sum_scores (n.add acc c.closeness) cs

  -- A team without scores has the average 0.
  unfoldable pub summary : String → List (CentralityScore F) → TeamSummary F
  summary team [] = record { team_id = team; engineer_count = 0; avg_closeness = n.lit 0 0 }
  summary team (c ∷ cs) = record {
    team_id = team;
    engineer_count = length (c ∷ cs);
    avg_closeness = n.div (sum_scores (n.lit 0 0) (c ∷ cs)) (n.lit (length (c ∷ cs)) 0);
  }

  unfoldable pub summaries :
      (String → Outcome (Response (List (CentralityScore F))))
      → List String
      → Outcome (List (TeamSummary F))
  summaries scores [] = value []
  summaries scores (t ∷ ts) = elim (fetch_list (scores t)) [
    | rejected m ↦ rejected m
    | value cs ↦ elim (summaries scores ts) [
      | rejected m ↦ rejected m
      | value hs ↦ value (summary t cs ∷ hs)
    ]
  ]

-- What the page of a team is rendered from.
pub record TeamProps (F : Type 0) : Type 0 where
  pub team_id : String
  pub snapshot : GraphSnapshot F
  pub centrality : List (CentralityScore F)

-- The loading of the page: no snapshot is "not found", and then no scores are requested.
unfoldable pub load_team :
    {F : Type 0}
    → String
    → Outcome (Response (GraphSnapshot F))
    → Outcome (Response (List (CentralityScore F)))
    → Outcome (Option (TeamProps F))
load_team team snapshot scores = elim (fetch_candidate snapshot) [
  | rejected m ↦ rejected m
  | value none ↦ value none
  | value (some snap) ↦ elim (fetch_list scores) [
    | rejected m ↦ rejected m
    | value cs ↦ value (some (record { team_id = team; snapshot = snap; centrality = cs }))
  ]
]
