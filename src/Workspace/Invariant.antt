-- ===== src/Workspace/Invariant.antt =====
-- The candidates on the graph against the slots of the simulation store.
use socio_technical_alignmen.Prelude.{
  ℕ, String, Option, none, some, List, [], ◌∷◌, arith, inl, inr, Option-cases, Bool-cases, str_eq,
}
use mathlib.Core.Path.{subst}
use socio_technical_alignmen.Stream.{StreamRunOptions}
use socio_technical_alignmen.Workspace.Handlers.{drop_loaded}
use socio_technical_alignmen.Number.{Number}
use socio_technical_alignmen.Value.{Value}
use socio_technical_alignmen.Api.{GraphSnapshot, CentralityScore}
use socio_technical_alignmen.Api.Client.{Outcome, value, rejected}
use socio_technical_alignmen.Store.Simulation.{
  Slot, slot_a, slot_b, SimulationState, stage_candidate, start_slot, update_slot_progress,
  set_slot_result, set_slot_error, clear_slot, reset_all,
}
use socio_technical_alignmen.Store.Graph.{
  CandidateForceNode, set_candidate_node, clear_all_candidates, set_snapshot,
}
use socio_technical_alignmen.Workspace.{
  WorkspaceState, start_loading, select_team, finish_load, handle_reset, handle_clear, handle_stage,
  handle_slot_drop, handle_candidate_drop, launch, set_staged,
}

-- What can happen on the page: the handlers, the end of a load, and the events of a stream.
pub data PageEvent (F : Type 0) : Type 0 where
  page_opened : PageEvent F
  team_selected : String → PageEvent F
  load_finished : Outcome (GraphSnapshot F × List (CentralityScore F)) → PageEvent F
  staged : String → Slot → String → List String → PageEvent F
  dropped_on_slot : Slot → String → String → List String → PageEvent F
  dropped_on_graph : Slot → String → String → List String → F → F → ℕ → PageEvent F
  cleared : Slot → PageEvent F
  escaped : PageEvent F
  progressed : Slot → Value F → Value F → PageEvent F
  completed : Slot → Value F → PageEvent F
  stream_failed : Slot → Value F → PageEvent F

module _ {F : Type 0} ⦃n : Number F⦄ where
  abbrev in_store : (SimulationState F → SimulationState F) → WorkspaceState F → WorkspaceState F
  in_store f s = record s { simulation = f s.simulation }

  unfoldable pub happen : PageEvent F → WorkspaceState F → WorkspaceState F
  happen page_opened s = start_loading s
  happen (team_selected team) s = select_team team s
  happen (load_finished o) s = (finish_load o s).0
  happen (staged now slot name skills) s = handle_stage now slot name skills s
  happen (dropped_on_slot slot id name skills) s = handle_slot_drop slot id name skills s
  happen (dropped_on_graph slot id name skills x y c) s =
      (handle_candidate_drop slot id name skills x y c s).0
  happen (cleared slot) s = (handle_clear slot s).0
  happen escaped s = (handle_reset s).0
  happen (progressed slot pct k) s = in_store (update_slot_progress slot pct k) s
  happen (completed slot r) s = in_store (set_slot_result slot r) s
  happen (stream_failed slot m) s = in_store (set_slot_error slot m) s

  unfoldable pub happen_all : List (PageEvent F) → WorkspaceState F → WorkspaceState F
  happen_all [] s = s
  happen_all (e ∷ es) s = happen_all es (happen e s)

-- A node on the graph goes with a candidate in the store.
abbrev Linked : {F : Type 0} → Option (CandidateForceNode F) → Option String → Type 0
Linked none id = Unit
Linked (some c) none = ⊥
Linked (some c) (some id) = Unit

abbrev pub IsLinked : {F : Type 0} → WorkspaceState F → Type 0
IsLinked s =
    Linked s.graph.candidate_a s.simulation.a.candidate_id
    × Linked s.graph.candidate_b s.simulation.b.candidate_id

Linked-some : {F : Type 0} (o : Option (CandidateForceNode F)) (id : String) → Linked o (some id)
Linked-some none id = tt
Linked-some (some c) id = tt

module _ {F : Type 0} ⦃n : Number F⦄ where
  slot_drop-IsLinked :
      (slot : Slot) (id name : String) (skills : List String) (s : WorkspaceState F)
      → IsLinked s
      → IsLinked (handle_slot_drop slot id name skills s)
  unfolding handle_slot_drop set_staged stage_candidate
  slot_drop-IsLinked slot_a id name skills s (a, b) = (Linked-some s.graph.candidate_a id, b)
  slot_drop-IsLinked slot_b id name skills s (a, b) = (a, Linked-some s.graph.candidate_b id)

  launch-IsLinked :
      (slot : Slot) (id name : String) (skills : List String) (x y : F) (c : ℕ)
      (s : WorkspaceState F)
      → IsLinked s
      → IsLinked (launch slot id name skills x y c s).0
  unfolding launch set_candidate_node start_slot stage_candidate
  launch-IsLinked slot_a id name skills x y c s (a, b) = (tt, b)
  launch-IsLinked slot_b id name skills x y c s (a, b) = (a, tt)

  graph_drop-IsLinked :
      (slot : Slot) (id name : String) (skills : List String) (x y : F) (c : ℕ)
      (s : WorkspaceState F)
      → IsLinked s
      → IsLinked (handle_candidate_drop slot id name skills x y c s).0
  unfolding handle_candidate_drop
  graph_drop-IsLinked slot id name skills x y c s h = elim (Option-cases s.graph.snapshot) [
    | inl missing ↦ rw missing h
    | inr (g, given) ↦
        subst (λ (o : WorkspaceState F × Option (StreamRunOptions F)). IsLinked o.0)
          (drop_loaded slot id name skills x y c s
            (λ missing. absurd (ground (arith, given, missing))))
          (launch-IsLinked slot id name skills x y c s h)
  ]

  start_loading-IsLinked : (s : WorkspaceState F) → IsLinked s → IsLinked (start_loading s)
  unfolding start_loading
  start_loading-IsLinked s h = elim (Bool-cases (str_eq s.selected_team "")) [
    | inl blank ↦ rw blank h
    | inr set ↦ rw set h
  ]

  select_team-IsLinked :
      (team : String) (s : WorkspaceState F) → IsLinked s → IsLinked (select_team team s)
  unfolding select_team
  select_team-IsLinked team s h = elim (Bool-cases (str_eq team s.selected_team)) [
    | inl same ↦ rw same h
    | inr other ↦ rw other (start_loading-IsLinked (record s { selected_team = team }) h)
  ]

  finish_load-IsLinked :
      (o : Outcome (GraphSnapshot F × List (CentralityScore F))) (s : WorkspaceState F)
      → IsLinked s
      → IsLinked (finish_load o s).0
  unfolding finish_load handle_reset clear_all_candidates set_snapshot
  finish_load-IsLinked (rejected m) s h = h
  finish_load-IsLinked (value (snap, scores)) s h = (tt, tt)

  happen-IsLinked : (e : PageEvent F) (s : WorkspaceState F) → IsLinked s → IsLinked (happen e s)
  unfolding happen handle_stage handle_clear handle_reset clear_slot reset_all set_candidate_node
      set_staged clear_all_candidates update_slot_progress set_slot_result set_slot_error
  happen-IsLinked page_opened s h = start_loading-IsLinked s h
  happen-IsLinked (team_selected team) s h = select_team-IsLinked team s h
  happen-IsLinked (load_finished o) s h = finish_load-IsLinked o s h
  happen-IsLinked (staged now slot name skills) s h = slot_drop-IsLinked slot _ name skills s h
  happen-IsLinked (dropped_on_slot slot id name skills) s h =
      slot_drop-IsLinked slot id name skills s h
  happen-IsLinked (dropped_on_graph slot id name skills x y c) s h =
      graph_drop-IsLinked slot id name skills x y c s h
  happen-IsLinked (cleared slot_a) s (a, b) = (tt, b)
  happen-IsLinked (cleared slot_b) s (a, b) = (a, tt)
  happen-IsLinked escaped s h = (tt, tt)
  happen-IsLinked (progressed slot_a pct k) s h = h
  happen-IsLinked (progressed slot_b pct k) s h = h
  happen-IsLinked (completed slot_a r) s h = h
  happen-IsLinked (completed slot_b r) s h = h
  happen-IsLinked (stream_failed slot_a m) s h = h
  happen-IsLinked (stream_failed slot_b m) s h = h

  -- In every sequence of handlers, loads and stream events each candidate on the graph is in a slot
  -- that holds a candidate in the simulation store, if it was so before.
  pub happen_all-IsLinked :
      (es : List (PageEvent F)) (s : WorkspaceState F) → IsLinked s → IsLinked (happen_all es s)
  unfolding happen_all
  happen_all-IsLinked [] s h = h
  happen_all-IsLinked (e ∷ es) s h = happen_all-IsLinked es (happen e s) (happen-IsLinked e s h)
