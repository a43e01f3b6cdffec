-- ===== src/Workspace.antt =====
-- apps/web/app/simulate/SimulatorWorkspace.tsx: the state of the simulator's page, the effects and
-- handlers that change it, and which result panels are shown.
--
-- Handlers that abort streams return the controllers that they abort. An asynchronous effect is
-- one function for each part between two waits.
pub mod Handlers
pub mod Loading
pub mod Form
pub mod Invariant
pub mod Section
pub mod View
mod Tests
use socio_technical_alignmen.Prelude.{
  ℕ, String, Bool, true, false, not, ◌&&◌, ◌||◌, Option, none, some, List, [], ◌∷◌, ◌++◌, map,
  filter, if◌then◌else◌, str_eq, is_empty, insert,
}
use socio_technical_alignmen.Prelude.Text.{Text, trim, split}
use socio_technical_alignmen.Number.{Number}
use socio_technical_alignmen.Value.{Value, truthy}
use socio_technical_alignmen.Api.{GraphSnapshot, CentralityScore, mid}
use socio_technical_alignmen.Api.Client.{Outcome, value, rejected, Response, ◌<>◌}
use socio_technical_alignmen.Store.Simulation.{
  Slot, slot_a, slot_b, SlotState, SimulationState, SimulationStatus, idle, running, complete,
  error, stage_candidate, start_slot, clear_slot, reset_all, is_comparison_mode, get_slot,
}
use socio_technical_alignmen.Store.Graph.{
  GraphState, CandidateForceNode, Centrality, set_snapshot, set_candidate_node,
  clear_all_candidates,
}
use socio_technical_alignmen.Stream.{StreamRunOptions, CandidatePayload}

pub record StagedCandidate : Type 0 where
  pub candidate_id : String
  pub name : String
  pub skills : List String

pub record WorkspaceState (F : Type 0) : Type 0 where
  pub selected_team : String
  pub is_loading_graph : Bool
  pub graph_error : Option String
  pub staged_a : Option StagedCandidate
  pub staged_b : Option StagedCandidate
  pub graph : GraphState F
  pub simulation : SimulationState F

abbrev pub slot_letter : Slot → String
slot_letter slot_a = "a"
slot_letter slot_b = "b"

-- `Promise.all`: of two rejections the earlier counts.
abbrev pub both : {A B : Type 0} → Bool → Outcome A → Outcome B → Outcome (A × B)
both first_is_earlier (value a) (value b) = value (a, b)
both first_is_earlier (value a) (rejected m) = rejected m
both first_is_earlier (rejected m) (value b) = rejected m
both first_is_earlier (rejected m) (rejected k) = rejected (if first_is_earlier then m else k)

abbrev pub is_complete : SimulationStatus → Bool
is_complete complete = true
is_complete _ = false

module _ {F : Type 0} where
  -- The effect on the selected team before its requests, as it runs when the page is opened.
  unfoldable pub start_loading : WorkspaceState F → WorkspaceState F
  start_loading s =
      if str_eq s.selected_team ""
      then s
      else record s { is_loading_graph = true; graph_error = none }

  -- `setSelectedTeam`: the effect runs again if the team changes.
  unfoldable pub select_team : String → WorkspaceState F → WorkspaceState F
  unfolding start_loading
  select_team team s =
      if str_eq team s.selected_team then s else start_loading (record s { selected_team = team })

  abbrev pub get_staged : Slot → WorkspaceState F → Option StagedCandidate
  get_staged slot_a s = s.staged_a
  get_staged slot_b s = s.staged_b

  unfoldable pub set_staged : Slot → Option StagedCandidate → WorkspaceState F → WorkspaceState F
  set_staged slot_a c s = record s { staged_a = c }
  set_staged slot_b c s = record s { staged_b = c }

  -- `handleSlotDrop`; `handleStage` does the same with an id of the slot and the time.
  unfoldable pub handle_slot_drop :
      Slot → String → String → List String → WorkspaceState F → WorkspaceState F
  handle_slot_drop slot id name skills s =
      let staged =
        set_staged slot (some (record { candidate_id = id; name = name; skills = skills })) s in
      record staged { simulation = stage_candidate slot id name s.simulation }

  unfoldable pub handle_stage :
      String → Slot → String → List String → WorkspaceState F → WorkspaceState F
  handle_stage now slot name skills s =
      handle_slot_drop slot ("cand_" <> slot_letter slot <> "_" <> now) name skills s

  -- `scores.reduce(...)`: of two scores for an engineer the later counts.
  unfoldable pub centrality_map :
      List (CentralityScore F) → List (String × Centrality F) → List (String × Centrality F)
  centrality_map [] acc = acc
  centrality_map (c ∷ cs) acc =
      centrality_map cs
        (insert c.engineer_id (record { closeness = c.closeness; betweenness = c.betweenness }) acc)

module _ {F : Type 0} ⦃n : Number F⦄ where
  -- `handleReset`, also run by the Escape key.
  unfoldable pub handle_reset : WorkspaceState F → WorkspaceState F × List ℕ
  handle_reset s =
      let (simulation, aborts) = reset_all s.simulation in
      (
        record s {
          graph = clear_all_candidates s.graph;
          simulation = simulation;
          staged_a = none;
          staged_b = none;
        },
        aborts,
      )

  unfoldable pub handle_clear : Slot → WorkspaceState F → WorkspaceState F × List ℕ
  handle_clear slot s =
      let (simulation, aborts) = clear_slot slot s.simulation in
      let unstaged = set_staged slot none s in
      (
        record unstaged { simulation = simulation; graph = set_candidate_node slot none s.graph },
        aborts,
      )

  -- The two requests: an error status of the first rejects, one of the second gives no scores.
  abbrev pub snapshot_of : Outcome (Response (GraphSnapshot F)) → Outcome (GraphSnapshot F)
  snapshot_of (rejected m) = rejected m
  snapshot_of (value r) =
      if r.ok then r.json else rejected ("Graph fetch failed: " <> r.status_text)

  abbrev pub scores_of :
      Outcome (Response (List (CentralityScore F))) → Outcome (List (CentralityScore F))
  scores_of (rejected m) = rejected m
  scores_of (value r) = if r.ok then r.json else value []

  -- The `then`, `catch` and `finally` of the effect.
  unfoldable pub finish_load :
      Outcome (GraphSnapshot F × List (CentralityScore F))
      → WorkspaceState F
      → WorkspaceState F × List ℕ
  finish_load (rejected m) s = (record s { graph_error = some m; is_loading_graph = false }, [])
  finish_load (value (snap, scores)) s =
      let loaded = record s { graph = set_snapshot snap (centrality_map scores []) s.graph } in
      let (cleared, aborts) = handle_reset loaded in
      (record cleared { is_loading_graph = false }, aborts)

  abbrev pub dropped_node : Slot → String → String → List String → F → F → CandidateForceNode F
  dropped_node slot id name skills x y = record {
    node = record {
      engineer = record {
        id = id;
        name = name;
        skills = skills;
        seniority = mid;
        team = "candidate";
      };
      closeness = n.lit 0 0;
      betweenness = n.lit 0 0;
      x = some x;
      y = some y;
      vx = none;
      vy = none;
      fx = some x;
      fy = some y;
    };
    slot = slot;
  }

  abbrev pub run_options : String → String → String → List String → StreamRunOptions F
  run_options team id name skills = record {
    candidate = record {
      id = id;
      name = name;
      skills = skills;
      github_url = some "";
      collaboration_vector = some [];
      team_id = team;
    };
    team_id = team;
    n_iterations = some (n.lit 1000 0);
    seed = some (n.lit 42 0);
  }

  -- `handleCandidateDrop` once a snapshot is loaded: the overlay, the staging and the start of a
  -- run, whose request is returned.
  unfoldable pub launch :
      Slot
      → String
      → String
      → List String
      → F
      → F
      → ℕ
      → WorkspaceState F
      → WorkspaceState F × Option (StreamRunOptions F)
  launch slot id name skills x y controller s = (
    record s {
      graph = set_candidate_node slot (some (dropped_node slot id name skills x y)) s.graph;
      simulation = start_slot slot controller (stage_candidate slot id name s.simulation);
    },
    some (run_options s.selected_team id name skills),
  )

  -- `if (!snapshot) return`.
  unfoldable pub handle_candidate_drop :
      Slot
      → String
      → String
      → List String
      → F
      → F
      → ℕ
      → WorkspaceState F
      → WorkspaceState F × Option (StreamRunOptions F)
  handle_candidate_drop slot id name skills x y controller s = elim s.graph.snapshot [
    | none ↦ (s, none)
    | some snapshot ↦ launch slot id name skills x y controller s
  ]

  -- `showA` and `showB`.
  abbrev pub shows : SlotState F → Bool
  shows slot = is_complete slot.status && truthy slot.result

-- The panels on the right.
pub data Panel (F : Type 0) : Type 0 where
  comparison : Value F → Value F → Panel F
  results : Slot → Value F → Panel F

module _ {F : Type 0} ⦃n : Number F⦄ where
  abbrev panel_if : Slot → SlotState F → List (Panel F)
  panel_if slot state = if shows state then results slot state.result ∷ [] else []

  unfoldable pub panels : WorkspaceState F → List (Panel F)
  panels s =
      let a = s.simulation.a in
      let b = s.simulation.b in
      if is_comparison_mode s.simulation && shows a && shows b
      then comparison a.result b.result ∷ results slot_a a.result ∷ results slot_b b.result ∷ []
      else panel_if slot_a a ++ panel_if slot_b b

-- The form of a slot. `print` is the string of a list of code units.
pub record FormState : Type 0 where
  pub name : Text
  pub skills : Text

abbrev pieces : Text → List Text
pieces s = let (first, rest) = split b',' s in first ∷ rest

unfoldable pub parse_skills : Text → List Text
parse_skills s = filter (λ t. not (is_empty t)) (map trim (pieces s))

-- The form's `handleStage`: the arguments of `onStage`, if it is called.
unfoldable pub stage_form : FormState → Option (Text × List Text)
stage_form form =
    if is_empty (trim form.name) then none else some (trim form.name, parse_skills form.skills)

unfoldable pub can_stage : FormState → Option StagedCandidate → Bool
can_stage form none = not (is_empty (trim form.name))
can_stage form (some c) = false
