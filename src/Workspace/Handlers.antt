-- ===== src/Workspace/Handlers.antt =====
-- The handlers of the workspace and the three places where a slot's candidate is kept.
use mathlib.Core.Path.{subst}
use socio_technical_alignmen.Stream.{StreamRunOptions}
use socio_technical_alignmen.Prelude.{
  inl, inr, Option-cases, ℕ, String, ◌≡◌, ◌≢◌, refl, ◌++◌, Option, none, some, List, arith,
}
use socio_technical_alignmen.Number.{Number}
use socio_technical_alignmen.Store.Simulation.{
  Slot, slot_a, slot_b, running, empty_slot, get_slot, aborted, clear_slot, reset_all, start_slot,
  stage_candidate,
}
use socio_technical_alignmen.Store.Graph.{
  CandidateForceNode, set_candidate_node, clear_all_candidates,
}
use socio_technical_alignmen.Workspace.{
  WorkspaceState, get_staged, set_staged, handle_reset, handle_clear, handle_candidate_drop, launch,
  dropped_node, run_options,
}

abbrev pub other : Slot → Slot
other slot_a = slot_b
other slot_b = slot_a

module _ {F : Type 0} where
  -- The overlay node of a slot.
  abbrev pub get_candidate : Slot → WorkspaceState F → Option (CandidateForceNode F)
  get_candidate slot_a s = s.graph.candidate_a
  get_candidate slot_b s = s.graph.candidate_b

  abbrev pub controller_of : Slot → WorkspaceState F → Option ℕ
  controller_of slot s = (get_slot slot s.simulation).stream_controller

module _ {F : Type 0} ⦃n : Number F⦄ where
  -- The slot holds no candidate: none staged in the form, none in the store, none on the graph.
  abbrev pub IsEmpty : Slot → WorkspaceState F → Type 0
  IsEmpty slot s =
      (get_staged slot s ≡ none)
      × (get_slot slot s.simulation ≡ empty_slot)
      × (get_candidate slot s ≡ none)

  -- The slot is the same in the three places.
  abbrev pub Keeps : Slot → WorkspaceState F → WorkspaceState F → Type 0
  Keeps slot s t =
      (get_staged slot s ≡ get_staged slot t)
      × (get_slot slot s.simulation ≡ get_slot slot t.simulation)
      × (get_candidate slot s ≡ get_candidate slot t)

  -- Clearing a slot empties it in the form, the store and the overlay, aborts the stream that it
  -- held, and keeps the other slot in all three, the base graph and the history.
  pub handle_clear_lem :
      (slot : Slot) (s : WorkspaceState F)
      → IsEmpty slot (handle_clear slot s).0
        × ((handle_clear slot s).1 ≡ aborted (controller_of slot s))
        × Keeps (other slot) (handle_clear slot s).0 s
        × ((handle_clear slot s).0.graph.graph_data ≡ s.graph.graph_data)
        × ((handle_clear slot s).0.simulation.history ≡ s.simulation.history)
  unfolding handle_clear clear_slot set_candidate_node set_staged
  handle_clear_lem slot_a s = ((refl, refl, refl), refl, (refl, refl, refl), refl, refl)
  handle_clear_lem slot_b s = ((refl, refl, refl), refl, (refl, refl, refl), refl, refl)

  -- A reset empties both slots, aborts the streams that they held, and keeps the base graph, the
  -- selected team and the history.
  handle_reset_lem :
      (s : WorkspaceState F)
      → IsEmpty slot_a (handle_reset s).0
        × IsEmpty slot_b (handle_reset s).0
        × ((handle_reset s).1
            ≡ aborted (controller_of slot_a s) ++ aborted (controller_of slot_b s))
        × ((handle_reset s).0.graph.graph_data ≡ s.graph.graph_data)
        × ((handle_reset s).0.selected_team ≡ s.selected_team)
        × ((handle_reset s).0.simulation.history ≡ s.simulation.history)
  unfolding handle_reset reset_all clear_all_candidates
  handle_reset_lem s = ((refl, refl, refl), (refl, refl, refl), refl, refl, refl, refl)

  -- What a slot is after a drop on the canvas.
  abbrev pub Launched :
      Slot → String → String → ℕ → CandidateForceNode F → WorkspaceState F → Type 0
  Launched slot id name controller node s =
      ((get_slot slot s.simulation).candidate_id ≡ some id)
      × ((get_slot slot s.simulation).candidate_name ≡ name)
      × ((get_slot slot s.simulation).status ≡ running)
      × (controller_of slot s ≡ some controller)
      × (get_candidate slot s ≡ some node)

  -- The state and the request after a drop that counts.
  abbrev pub Drops :
      Slot
      → String
      → String
      → List String
      → F
      → F
      → ℕ
      → WorkspaceState F
      → WorkspaceState F × Option (StreamRunOptions F)
      → Type 0
  Drops slot id name skills x y controller s (t, request) =
      Launched slot id name controller (dropped_node slot id name skills x y) t
      × (request ≡ some (run_options s.selected_team id name skills))
      × Keeps (other slot) t s

  launches :
      (slot : Slot) (id name : String) (skills : List String) (x y : F) (controller : ℕ)
      (s : WorkspaceState F)
      → Drops slot id name skills x y controller s (launch slot id name skills x y controller s)
  unfolding launch stage_candidate start_slot set_candidate_node
  launches slot_a id name skills x y controller s =
      ((refl, refl, refl, refl, refl), refl, (refl, refl, refl))
  launches slot_b id name skills x y controller s =
      ((refl, refl, refl, refl, refl), refl, (refl, refl, refl))

  pub drop_loaded :
      (slot : Slot) (id name : String) (skills : List String) (x y : F) (controller : ℕ)
      (s : WorkspaceState F)
      → s.graph.snapshot ≢ none
      → launch slot id name skills x y controller s
        ≡ handle_candidate_drop slot id name skills x y controller s
  unfolding handle_candidate_drop
  drop_loaded slot id name skills x y controller s loaded = elim (Option-cases s.graph.snapshot) [
    | inl missing ↦ absurd (loaded missing)
    | inr (g, given) ↦ ground (arith, given)
  ]

  -- A drop on the canvas of a loaded graph leaves the slot running with the dropped candidate, in
  -- the store and on the graph, requests a run for the selected team, and keeps the other slot.
  pub handle_candidate_drop_lem :
      (slot : Slot) (id name : String) (skills : List String) (x y : F) (controller : ℕ)
      (s : WorkspaceState F)
      → s.graph.snapshot ≢ none
      → Drops slot id name skills x y controller s
          (handle_candidate_drop slot id name skills x y controller s)
  handle_candidate_drop_lem slot id name skills x y controller s loaded =
      subst (Drops slot id name skills x y controller s)
        (drop_loaded slot id name skills x y controller s loaded)
        (launches slot id name skills x y controller s)
