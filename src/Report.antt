-- ===== src/Report.antt =====
-- How a result is judged: apps/web/app/report/[token]/page.tsx and
-- apps/web/components/simulator/SimulationResultsPanel.tsx.
pub mod Judgement
pub mod Metrics
pub mod View
mod Tests
use socio_technical_alignmen.Prelude.{
  ℕ, String, Bool, true, false, ◌&&◌, Option, none, some, List, filter, take, if◌then◌else◌, ◌==◌,
}
use socio_technical_alignmen.Number.{Number}
use socio_technical_alignmen.Api.{SimulationResult, SkillGapMatch}
use socio_technical_alignmen.Api.Client.{Outcome, value, rejected, Response, ◌<>◌}

-- `fetchReport`: a failed request and an error status give no report; the body is not awaited
-- inside the `try`, so its failure rejects.
unfoldable pub fetch_report : {R : Type 0} → Outcome (Response R) → Outcome (Option R)
fetch_report (rejected message) = value none
fetch_report (value res) =
    if res.status == 404
    then value none
    else if res.ok
    then elim res.json [ value r ↦ value (some r) | rejected message ↦ rejected message ]
    else value none

-- The three badges; each stands for its label and colours.
pub data Silo : Type 0 where
  low_risk moderate high_risk : Silo

pub record Badge : Type 0 where
  pub label : String
  pub color : String
  pub bg : String

unfoldable pub badge : Silo → Badge
badge low_risk = record { label = "Low risk"; color = "#0D5C3A"; bg = "#E0F7EF" }
badge moderate = record { label = "Moderate"; color = "#7A3800"; bg = "#FEF0E6" }
badge high_risk = record { label = "High risk"; color = "#7A1020"; bg = "#FDEAEA" }

-- The four recommendations.
pub data Recommendation : Type 0 where
  strong positive caution neutral : Recommendation

unfoldable pub recommendation_text : Recommendation → String
recommendation_text strong =
    "Strong hire signal. This candidate is predicted to become a knowledge hub quickly, reducing team isolation and covering key skill gaps with low integration risk."
recommendation_text positive =
    "Positive hire signal. The candidate shows good integration potential. Monitor early onboarding milestones against the predicted Time-to-Value window."
recommendation_text caution =
    "Proceed with caution. High silo risk suggests this candidate may not integrate well with the team's current knowledge flow. Consider pairing with a high-centrality mentor."
recommendation_text neutral =
    "Neutral signal. The candidate is predicted to integrate at an average rate. Validate against the identified skill gaps and team structure changes."

module _ {F : Type 0} ⦃n : Number F⦄ where
  unfoldable pub silo_label : F → Silo
  silo_label mean =
      if n.lt mean (n.lit 33 2)
      then low_risk
      else if n.lt mean (n.lit 66 2)
      then moderate
      else high_risk

  unfoldable pub recommend : F → F → F → Recommendation
  recommend cc ttv silo =
      if n.le (n.lit 55 2) cc && n.le ttv (n.lit 6 0) && n.lt silo (n.lit 33 2)
      then strong
      else if n.le (n.lit 45 2) cc && n.lt silo (n.lit 66 2)
      then positive
      else if n.le (n.lit 66 2) silo
      then caution
      else neutral

  unfoldable pub recommendation : SimulationResult F → Recommendation
  unfolding recommend
  recommendation r =
      recommend r.closeness_centrality.mean r.time_to_value_weeks.mean r.silo_risk_score.mean

  -- The gaps that the candidate covers: ten in the report, eight in the panel.
  abbrev pub is_covered : SkillGapMatch F → Bool
  is_covered g = g.candidate_has_skill && n.lt (n.lit 0 0) g.coverage_delta

  unfoldable pub top_gaps : SimulationResult F → List (SkillGapMatch F)
  top_gaps r = take 10 (filter is_covered r.knowledge_gap_coverage)

  unfoldable pub panel_gaps : SimulationResult F → List (SkillGapMatch F)
  panel_gaps r = take 8 (filter is_covered r.knowledge_gap_coverage)

-- The share button. Its state goes back to idle after three seconds.
pub data ShareState : Type 0 where
  idle loading copied failed : ShareState

pub data ShareEvent : Type 0 where
  click : ShareEvent
  -- The token that the request gave, and whether the clipboard took the link.
  answered : Outcome (Response String) → Bool → ShareEvent
  timeout : ShareEvent

unfoldable pub share_label : ShareState → String
share_label loading = "Sharing…"
share_label copied = "Link copied ✓"
share_label failed = "Error — retry"
share_label idle = "Share report"

-- The link is written when the request and its body succeed.
unfoldable pub share_url : String → Outcome (Response String) → Option String
share_url app_url (rejected m) = none
share_url app_url (value res) =
    if res.ok
    then elim res.json [ value token ↦ some (app_url <> "/report/" <> token) | rejected m ↦ none ]
    else none

unfoldable pub share : String → ShareEvent → ShareState → ShareState
share app_url click loading = loading
share app_url click s = loading
share app_url (answered res written) s = elim (share_url app_url res) [
  | none ↦ failed
  | some url ↦ if written then copied else failed
]
share app_url timeout s = idle
