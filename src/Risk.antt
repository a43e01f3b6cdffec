-- ===== src/Risk.antt =====
-- apps/web/app/risk/page.tsx: the state of the risk page, and the effects that change it.
pub mod Table
pub mod Metrics
pub mod View
pub mod Levels
pub mod Tabs
mod Tests
use socio_technical_alignmen.Prelude.{
  ℕ, String, Bool, true, false, Option, none, some, List, [], ◌∷◌, if◌then◌else◌, str_eq, lookup,
}
use socio_technical_alignmen.Number.{Number}
use socio_technical_alignmen.Api.Client.{Outcome, value, rejected, Response, ◌<>◌}
use socio_technical_alignmen.GraphUtils.{max_of}

pub record EngineerRisk (F : Type 0) : Type 0 where
  pub engineer_id : String
  pub name : String
  pub seniority : String
  pub skills : List String
  pub closeness : F
  pub betweenness : F
  pub degree : ℕ
  pub removal_impact_pct : F
  pub is_critical_path : Bool

pub record TeamRisk (F : Type 0) : Type 0 where
  pub team_id : String
  pub resilience_score : F
  pub bus_factor : ℕ
  pub graph_density : F
  pub engineer_count : ℕ
  pub engineers : List (EngineerRisk F)

pub record RiskState (F : Type 0) : Type 0 where
  pub teams : List String
  pub selected_team : String
  pub risk : Option (TeamRisk F)
  pub loading : Bool
  pub error : String

abbrev color_or : Option String → String
color_or none = "var(--mid)"
color_or (some c) = c

unfoldable pub seniority_color : String → String
unfolding lookup
seniority_color s = color_or (
    lookup s (
      ("junior", "#6b7280")
      ∷ ("mid", "#336699")
      ∷ ("senior", "#003366")
      ∷ ("staff", "#c8982a")
      ∷ []))

module _ (print : ℕ → String) {F : Type 0} where
  -- What the request for a team's risk gives: an error status throws.
  abbrev pub risk_body : Outcome (Response (TeamRisk F)) → Outcome (TeamRisk F)
  risk_body (rejected m) = rejected m
  risk_body (value r) = if r.ok then r.json else rejected ("HTTP " <> print r.status)

module _ {F : Type 0} where
  -- `setSelectedTeam`, and the effect up to its request: it runs when the chosen team changes.
  unfoldable pub choose_team : String → RiskState F → RiskState F
  choose_team team s =
      if str_eq team s.selected_team
      then s
      else if str_eq team ""
      then record s { selected_team = team }
      else record s { selected_team = team; loading = true; error = "" }

  -- The teams arrive, and the first is chosen.
  unfoldable pub teams_loaded : Outcome (List String) → RiskState F → RiskState F
  unfolding choose_team
  teams_loaded (rejected m) s = record s { error = "Cannot reach API" }
  teams_loaded (value []) s = record s { teams = [] }
  teams_loaded (value (t ∷ ts)) s = choose_team t (record s { teams = t ∷ ts })

  -- The risk of a team arrives: a failure keeps the risk that is there.
  unfoldable pub risk_answered : Outcome (TeamRisk F) → RiskState F → RiskState F
  risk_answered (rejected m) s = record s { error = m; loading = false }
  risk_answered (value r) s = record s { risk = some r; loading = false }

module _ {F : Type 0} ⦃n : Number F⦄ where
  -- The scales of the bars.
  unfoldable pub max_impact : Option (TeamRisk F) → F
  max_impact none = n.lit 1 0
  max_impact (some r) = max_of (λ e. e.removal_impact_pct) (n.lit 1 1) r.engineers

  unfoldable pub max_betweenness : Option (TeamRisk F) → F
  max_betweenness none = n.lit 1 0
  max_betweenness (some r) = max_of (λ e. e.betweenness) (n.lit 1 3) r.engineers
