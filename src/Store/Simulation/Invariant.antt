-- ===== src/Store/Simulation/Invariant.antt =====
-- What holds of a slot in every state that the store's actions reach.
use socio_technical_alignmen.Prelude.{◌≡◌, ◌≢◌, none, List, [], ◌∷◌, arith}
use socio_technical_alignmen.Number.{Number}
use socio_technical_alignmen.Value.{null}
use socio_technical_alignmen.Store.Simulation.{
  SlotState, SimulationState, running, complete, error, slot_a, slot_b, Action, stage, start,
  advance, finish, fail, clear, reset, initial, perform, perform_all,
}

-- A running slot holds its stream's controller and no outcome of an earlier run; a slot that has
-- finished, either way, holds no controller.
pub record SlotIsValid {F : Type 0} (c : SlotState F) : Type 0 where
  pub streaming : c.status ≡ running → c.stream_controller ≢ none
  pub no_result : c.status ≡ running → c.result ≡ null
  pub no_failure : c.status ≡ running → c.failure ≡ null
  pub released : c.status ≡ complete → c.stream_controller ≡ none
  pub stopped : c.status ≡ error → c.stream_controller ≡ none

pub record IsValid {F : Type 0} (s : SimulationState F) : Type 0 where
  pub a : SlotIsValid s.a
  pub b : SlotIsValid s.b

module _ {F : Type 0} ⦃n : Number F⦄ where
  pub initial-IsValid : IsValid (initial {F = F})
  initial-IsValid = ground arith

  pub perform-IsValid : (x : Action F) (s : SimulationState F) → IsValid s → IsValid (perform x s).0
  unfolding perform
  perform-IsValid (stage slot_a id name) s v = ground arith
  perform-IsValid (stage slot_b id name) s v = ground arith
  perform-IsValid (start slot_a c) s v = ground arith
  perform-IsValid (start slot_b c) s v = ground arith
  perform-IsValid (advance slot_a p k) s v = ground arith
  perform-IsValid (advance slot_b p k) s v = ground arith
  perform-IsValid (finish slot_a r) s v = ground arith
  perform-IsValid (finish slot_b r) s v = ground arith
  perform-IsValid (fail slot_a e) s v = ground arith
  perform-IsValid (fail slot_b e) s v = ground arith
  perform-IsValid (clear slot_a) s v = ground arith
  perform-IsValid (clear slot_b) s v = ground arith
  perform-IsValid reset s v = ground arith

  -- Every sequence of store actions leaves both slots well formed if they were: a running slot
  -- holds a controller and neither a result nor an error, a finished one holds no controller.
  pub perform_all-IsValid :
      (xs : List (Action F)) (s : SimulationState F) → IsValid s → IsValid (perform_all xs s).0
  unfolding perform_all
  perform_all-IsValid [] s v = v
  perform_all-IsValid (x ∷ xs) s v = perform_all-IsValid xs (perform x s).0 (perform-IsValid x s v)
