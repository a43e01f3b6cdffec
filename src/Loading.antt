-- ===== src/Loading.antt =====
-- apps/web/components/graph/GraphSnapshotSelector.tsx, apps/web/app/teams/[id]/GraphLoader.tsx and
-- the summaries of apps/web/app/dashboard/page.tsx: how snapshots and scores reach the pages.
pub mod Snapshots
pub mod Health
pub mod View
mod Tests
use socio_technical_alignmen.Prelude.{
  ℕ, String, Bool, true, false, Option, none, some, List, [], ◌∷◌, if◌then◌else◌, str_eq, length,
  insert,
}
use socio_technical_alignmen.Number.{Number}
use socio_technical_alignmen.Api.{GraphSnapshot, SnapshotMeta, CentralityScore}
use socio_technical_alignmen.Api.Client.{Outcome, value, rejected, Response}
use socio_technical_alignmen.Store.Graph.{
  GraphState, Centrality, set_snapshot, set_snapshots, set_active_snapshot_id,
}
use socio_technical_alignmen.Workspace.{centrality_map}

-- The selector's own state beside the store.
pub record SelectorState (F : Type 0) : Type 0 where
  pub graph : GraphState F
  pub is_pending : Bool
  pub error : Option String

abbrev pub is_active : Option String → String → Bool
is_active none id = false
is_active (some active) id = str_eq id active

module _ {F : Type 0} where
  -- `handleSelect` up to its request: nothing for the active snapshot. `isPending` is true only
  -- until the transition's function first waits, so it is false again while the request runs.
  unfoldable pub handle_select : String → SelectorState F → SelectorState F
  handle_select id s =
      if is_active s.graph.active_snapshot_id id
      then s
      else record s { is_pending = false; error = none }

  -- The body of the answer, where an error status throws.
  abbrev pub snapshot_body : Outcome (Response (GraphSnapshot F)) → Option (GraphSnapshot F)
  snapshot_body (rejected m) = none
  snapshot_body (value r) =
      if r.ok then elim r.json [ value snap ↦ some snap | rejected m ↦ none ] else none

module _ {F : Type 0} ⦃n : Number F⦄ where
  -- `setSnapshot(snapshot)` is called without scores.
  unfoldable pub select_answered :
      String → Option (GraphSnapshot F) → SelectorState F → SelectorState F
  select_answered id none s = record s { error = some "Failed to load snapshot." }
  select_answered id (some snap) s = record s {
    graph = set_active_snapshot_id id (set_snapshot snap [] s.graph);
  }

  -- The effect of `GraphLoader`.
  unfoldable pub hydrate :
      GraphSnapshot F → List (CentralityScore F) → List SnapshotMeta → GraphState F → GraphState F
  hydrate snap centrality snapshots g =
      set_snapshots snapshots (set_snapshot snap (centrality_map centrality []) g)

-- The dashboard's summary of a team.
pub record TeamHealth (F : Type 0) : Type 0 where
  pub team_id : String
  pub engineer_count : ℕ
  pub avg_closeness : F
  pub top_hub : String

pub record HealthColor : Type 0 where
  pub fill : String
  pub label : String

-- `r.ok ? r.json() : []`, and the empty list where the request fails.
unfoldable pub fetch_list : {A : Type 0} → Outcome (Response (List A)) → Outcome (List A)
fetch_list (rejected m) = value []
fetch_list (value r) = if r.ok then r.json else value []

module _ {F : Type 0} ⦃n : Number F⦄ where
  unfoldable pub sum_closeness : F → List (CentralityScore F) → F
  sum_closeness acc [] = acc
  sum_closeness acc (c ∷ cs) = sum_closeness (n.add acc c.closeness) cs

  -- `scores.reduce((a, b) => (a.closeness > b.closeness ? a : b))`.
  unfoldable pub top_of : CentralityScore F → List (CentralityScore F) → CentralityScore F
  top_of a [] = a
  top_of a (b ∷ bs) = top_of (if n.lt b.closeness a.closeness then a else b) bs

  unfoldable pub compute_health : String → List (CentralityScore F) → TeamHealth F
  unfolding sum_closeness
  compute_health team [] = record {
    team_id = team;
    engineer_count = 0;
    avg_closeness = n.lit 0 0;
    top_hub = "—";
  }
  compute_health team (c ∷ cs) = record {
    team_id = team;
    engineer_count = length (c ∷ cs);
    avg_closeness = n.div (sum_closeness (n.lit 0 0) (c ∷ cs)) (n.lit (length (c ∷ cs)) 0);
    top_hub = (top_of c cs).engineer_id;
  }

  unfoldable pub health_color : F → HealthColor
  health_color avg =
      if n.le (n.lit 55 2) avg
      then record { fill = "#27B97C"; label = "Highly connected" }
      else if n.le (n.lit 40 2) avg
      then record { fill = "#F07020"; label = "Moderate cohesion" }
      else record { fill = "#E03448"; label = "Low cohesion" }
