-- ===== src/Attrition.antt =====
-- apps/web/app/attrition/page.tsx: what a team loses when an engineer leaves. The levels of
-- apps/web/app/risk/page.tsx stand beside those of this page.
pub mod Parts
pub mod Headline
pub mod Impacts
pub mod View
pub mod Buttons
pub mod Order
pub mod Scales
mod Tests
use socio_technical_alignmen.Prelude.{
  ℕ, String, Bool, true, false, ◌&&◌, ◌||◌, Option, none, some, List, [], ◌∷◌, leb, if◌then◌else◌,
  str_eq,
}
use socio_technical_alignmen.Prelude.Sort.{sort}
use socio_technical_alignmen.Number.{Number}
use socio_technical_alignmen.Api.{
  EngineerNode, GraphSnapshot, Seniority, junior, mid, senior, staff,
}
use socio_technical_alignmen.Api.Client.{Outcome, value, rejected, Response, ◌<>◌}
use socio_technical_alignmen.GraphUtils.{max_of}

pub record EngineerImpact (F : Type 0) : Type 0 where
  pub engineer_id : String
  pub name : String
  pub closeness_before : F
  pub closeness_after : F
  pub closeness_delta_pct : F
  pub betweenness_before : F
  pub betweenness_after : F

pub record AttritionResult (F : Type 0) : Type 0 where
  pub team_id : String
  pub removed_engineer_id : String
  pub removed_engineer_name : String
  pub removed_engineer_seniority : String
  pub removed_engineer_skills : List String
  pub baseline_avg_closeness : F
  pub post_removal_avg_closeness : F
  pub closeness_drop_pct : F
  pub baseline_components : F
  pub post_removal_components : F
  pub graph_fragmented : Bool
  pub engineer_impacts : List (EngineerImpact F)

abbrev pub seniority_rank : Seniority → ℕ
seniority_rank junior = 0
seniority_rank mid = 1
seniority_rank senior = 2
seniority_rank staff = 3

abbrev pub seniority_name : Seniority → String
seniority_name junior = "junior"
seniority_name mid = "mid"
seniority_name senior = "senior"
seniority_name staff = "staff"

-- The comparison of the sort: the higher rank comes first.
abbrev pub ranks_before : EngineerNode → EngineerNode → Bool
ranks_before a b = leb (seniority_rank b.seniority) (seniority_rank a.seniority)

unfoldable pub by_seniority : List EngineerNode → List EngineerNode
by_seniority nodes = sort ranks_before nodes

pub record AttritionState (F : Type 0) : Type 0 where
  pub teams : List String
  pub selected_team : String
  pub engineers : List EngineerNode
  pub selected_eng : String
  pub running : Bool
  pub result : Option (AttritionResult F)
  pub error : String

-- What the user can do on the page.
pub data AttritionEvent : Type 0 where
  pick_team pick_engineer : String → AttritionEvent
  run_clicked : AttritionEvent

-- What the analysis answers: `detail` of an error body may be missing.
pub data Analysis (F : Type 0) : Type 0 where
  unreachable : Analysis F
  analysed : AttritionResult F → Analysis F
  refused : Option String → Analysis F

abbrev detail_or : Option String → String
detail_or none = "Analysis failed"
detail_or (some d) = d

module _ {F : Type 0} where
  unfoldable pub teams_loaded : Outcome (List String) → AttritionState F → AttritionState F
  teams_loaded (value ts) s = record s { teams = ts }
  teams_loaded (rejected m) s = record s { error = "Cannot reach API" }

  -- `setSelectedTeam`, and the effect with `loadEngineers` up to its request: it runs when the
  -- chosen team changes.
  unfoldable pub choose_team : String → AttritionState F → AttritionState F
  choose_team team s =
      if str_eq team s.selected_team
      then s
      else if str_eq team ""
      then record s { selected_team = team }
      else record s { selected_team = team; selected_eng = ""; result = none; error = "" }

  unfoldable pub choose_engineer : String → AttritionState F → AttritionState F
  choose_engineer id s = record s { selected_eng = id; result = none }

  -- And the answer to `loadEngineers`: an error status changes nothing.
  unfoldable pub engineers_loaded :
      Outcome (Response (GraphSnapshot F)) → AttritionState F → AttritionState F
  engineers_loaded (rejected m) s = record s { error = "Failed to load team engineers" }
  engineers_loaded (value r) s =
      if r.ok
      then elim r.json [
        | value snap ↦ record s { engineers = by_seniority snap.nodes }
        | rejected m ↦ record s { error = "Failed to load team engineers" }
      ]
      else s

  abbrev pub can_run : AttritionState F → Bool
  can_run s = if str_eq s.selected_team "" || str_eq s.selected_eng "" then false else true

  -- `runAnalysis` up to its request, and its answer with the `finally`.
  unfoldable pub start_analysis : AttritionState F → AttritionState F
  start_analysis s = if can_run s then record s { running = true; result = none; error = "" } else s

  unfoldable pub analysis_answered : Analysis F → AttritionState F → AttritionState F
  analysis_answered unreachable s = record s { error = "Cannot reach API"; running = false }
  analysis_answered (analysed r) s = record s { result = some r; running = false }
  analysis_answered (refused detail) s = record s { error = detail_or detail; running = false }

module _ {F : Type 0} where
  unfoldable pub act : AttritionEvent → AttritionState F → AttritionState F
  act (pick_team t) s = choose_team t s
  act (pick_engineer id) s = choose_engineer id s
  act run_clicked s = start_analysis s

-- The levels of a drop; both pages use the same limits for their colours.
pub data Level : Type 0 where
  critical high moderate low : Level

abbrev pub level_color : Level → String
level_color critical = "var(--status-red)"
level_color high = "var(--status-orange)"
level_color moderate = "#e8a020"
level_color low = "var(--status-green)"

-- The labels of the resilience levels, from the best.
pub data Resilience : Type 0 where
  resilient medium fragile broken : Resilience

abbrev pub resilience_text : Resilience → String
resilience_text resilient = "Resilient"
resilience_text medium = "Moderate"
resilience_text fragile = "Fragile"
resilience_text broken = "Critical"

module _ {F : Type 0} ⦃n : Number F⦄ where
  unfoldable pub drop_color : F → String
  drop_color pct =
      if n.le (n.lit 20 0) pct
      then level_color critical
      else if n.le (n.lit 10 0) pct
      then level_color high
      else if n.le (n.lit 5 0) pct
      then level_color moderate
      else level_color low

  unfoldable pub drop_label : F → String
  drop_label pct =
      if n.le (n.lit 20 0) pct
      then "Critical risk"
      else if n.le (n.lit 10 0) pct
      then "High risk"
      else if n.le (n.lit 5 0) pct
      then "Moderate risk"
      else "Low risk"

  unfoldable pub resilience_color : F → String
  resilience_color score =
      if n.le (n.lit 8 1) score
      then "var(--status-green)"
      else if n.le (n.lit 6 1) score
      then "#e8a020"
      else if n.le (n.lit 4 1) score
      then "var(--status-orange)"
      else "var(--status-red)"

  unfoldable pub resilience_label : F → Resilience
  resilience_label score =
      if n.le (n.lit 8 1) score
      then resilient
      else if n.le (n.lit 6 1) score
      then medium
      else if n.le (n.lit 4 1) score
      then fragile
      else broken

  -- The scale of the bars: the largest impact, or 0.1 if that is more; 1 without a result.
  unfoldable pub max_impact : Option (AttritionResult F) → F
  max_impact none = n.lit 1 0
  max_impact (some r) = max_of (λ e. e.closeness_delta_pct) (n.lit 1 1) r.engineer_impacts

  -- `DeltaBar`: the width of the bar in percent.
  unfoldable pub delta_fill : F → F → F
  delta_fill pct mx =
      if n.lt (n.lit 0 0) mx
      then n.mul (n.min (n.lit 1 0) (n.div pct mx)) (n.lit 100 0)
      else n.lit 0 0
