-- ===== src/Store/Simulation/Frame.antt =====
-- What the actions on one slot leave alone, and what they abort.
use socio_technical_alignmen.Prelude.{
  ℕ, ◌≡◌, refl, ◌∙◌, ◌↔◌, Bool, true, false, ◌&&◌, none, some, List, [], ◌∷◌, String, arith,
}
use socio_technical_alignmen.Number.{Number}
use socio_technical_alignmen.Value.{Value}
use socio_technical_alignmen.Store.Simulation.{
  SimulationState, Slot, slot_a, slot_b, complete, Action, stage, start, advance, finish, fail,
  clear, reset, empty_slot, get_slot, aborted, active_slot_count, is_comparison_mode, perform,
  perform_all,
}

abbrev pub other : Slot → Slot
other slot_a = slot_b
other slot_b = slot_a

abbrev pub is_same : Slot → Slot → Bool
is_same slot_a slot_a = true
is_same slot_b slot_b = true
is_same _ _ = false

module _ {F : Type 0} where
  -- The action is one of the given slot, so not `resetAll` and not one of the other slot.
  abbrev pub is_on : Slot → Action F → Bool
  is_on slot (stage t id name) = is_same slot t
  is_on slot (start t c) = is_same slot t
  is_on slot (advance t p k) = is_same slot t
  is_on slot (finish t r) = is_same slot t
  is_on slot (fail t e) = is_same slot t
  is_on slot (clear t) = is_same slot t
  is_on slot reset = false

  abbrev pub all_on : Slot → List (Action F) → Bool
  all_on slot [] = true
  all_on slot (x ∷ xs) = is_on slot x && all_on slot xs

module _ {F : Type 0} ⦃n : Number F⦄ where
  perform-frame :
      (slot : Slot) (x : Action F) (s : SimulationState F)
      → is_on slot x ≡ true
      → get_slot (other slot) (perform x s).0 ≡ get_slot (other slot) s
  unfolding perform
  perform-frame slot_a (stage t id name) s h = ground arith
  perform-frame slot_a x s h = ground arith
  perform-frame slot_b x s h = ground arith

  -- A sequence of actions that all address one slot leaves the other slot as it was.
  pub perform_all-frame :
      (slot : Slot) (xs : List (Action F)) (s : SimulationState F)
      → all_on slot xs ≡ true
      → get_slot (other slot) (perform_all xs s).0 ≡ get_slot (other slot) s
  unfolding perform_all
  perform_all-frame slot [] s h = refl
  perform_all-frame slot (x ∷ xs) s h =
      perform_all-frame slot xs (perform x s).0 (ground arith)
      ∙ perform-frame slot x s (ground arith)

  -- `clearSlot` empties its slot, aborts exactly the controller that the slot held, and keeps the
  -- other slot and the history.
  pub clear_lem :
      (slot : Slot) (s : SimulationState F)
      → (get_slot slot (perform (clear slot) s).0 ≡ empty_slot)
        × ((perform (clear slot) s).1 ≡ aborted (get_slot slot s).stream_controller)
        × (get_slot (other slot) (perform (clear slot) s).0 ≡ get_slot (other slot) s)
        × ((perform (clear slot) s).0.history ≡ s.history)
  unfolding perform
  clear_lem slot_a s = (refl, refl, refl, refl)
  clear_lem slot_b s = (refl, refl, refl, refl)

  -- `resetAll` does what clearing the two slots one after the other does, in the state and in the
  -- controllers that it aborts.
  pub reset_lem :
      (s : SimulationState F) → perform reset s ≡ perform_all (clear slot_a ∷ clear slot_b ∷ []) s
  unfolding perform perform_all
  reset_lem s = ground arith

  -- A candidate dropped while the slot still streams, then the first stream's result: no action
  -- aborts the first stream, and its result completes the slot under the second candidate.
  pub restart_keeps_stale_stream :
      (slot : Slot) (id name : String) (first second : ℕ) (stale : Value F) (s : SimulationState F)
      → let out =
          perform_all
            (start slot first ∷ stage slot id name ∷ start slot second ∷ finish slot stale ∷ [])
            s in
        (out.1 ≡ [])
        × ((get_slot slot out.0).candidate_id ≡ some id)
        × ((get_slot slot out.0).status ≡ complete)
        × ((get_slot slot out.0).result ≡ stale)
        × ((get_slot slot out.0).stream_controller ≡ none)
  unfolding perform perform_all
  restart_keeps_stale_stream slot_a id name first second stale s = (refl, refl, refl, refl, refl)
  restart_keeps_stale_stream slot_b id name first second stale s = (refl, refl, refl, refl, refl)

-- Comparison mode is on exactly when both slots count as active.
is_comparison_mode_iff :
    {F : Type 0} (s : SimulationState F) → (is_comparison_mode s ≡ true) ↔ (active_slot_count s ≡ 2)
unfolding is_comparison_mode active_slot_count
is_comparison_mode_iff s = ground arith
