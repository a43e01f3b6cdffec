-- ===== src/Store/Simulation.antt =====
-- apps/web/lib/store/simulation.ts: two candidate slots and the history of results.
--
-- An action of the store is a function from the state to the new state. `abort()` on a stream's
-- controller is an effect outside the store, so the two actions that call it also return the
-- controllers that they abort, in order. A controller is named by a number.
pub mod Invariant
pub mod History
pub mod Frame
mod Tests
use socio_technical_alignmen.Prelude.{
  ℕ, ◌+◌, String, Bool, ◌&&◌, Option, none, some, List, [], ◌∷◌, ◌++◌, take, if◌then◌else◌,
}
use socio_technical_alignmen.Number.{Number}
use socio_technical_alignmen.Value.{Value, num, null, is_set}

pub data SimulationStatus : Type 0 where
  idle running complete error : SimulationStatus

pub data Slot : Type 0 where
  slot_a slot_b : Slot

pub record SlotState (F : Type 0) : Type 0 where
  pub candidate_id : Option String
  pub candidate_name : String
  pub status : SimulationStatus
  pub progress : Value F
  pub iteration_count : Value F
  pub result : Value F
  pub failure : Value F
  pub stream_controller : Option ℕ

pub record SimulationState (F : Type 0) : Type 0 where
  pub a : SlotState F
  pub b : SlotState F
  pub history : List (Value F)

-- `controller?.abort()`.
abbrev pub aborted : Option ℕ → List ℕ
aborted none = []
aborted (some c) = c ∷ []

module _ {F : Type 0} ⦃n : Number F⦄ where
  abbrev pub empty_slot : SlotState F
  empty_slot = record {
    candidate_id = none;
    candidate_name = "";
    status = idle;
    progress = num (n.lit 0 0);
    iteration_count = num (n.lit 0 0);
    result = null;
    failure = null;
    stream_controller = none;
  }

  abbrev pub initial : SimulationState F
  initial = record { a = empty_slot; b = empty_slot; history = [] }

module _ {F : Type 0} where
  -- `getSlot`.
  abbrev pub get_slot : Slot → SimulationState F → SlotState F
  get_slot slot_a s = s.a
  get_slot slot_b s = s.b

  -- `withSlot`: the partial update is a function on the slot.
  abbrev pub with_slot : Slot → (SlotState F → SlotState F) → SimulationState F → SimulationState F
  with_slot slot_a update s = record s { a = update s.a }
  with_slot slot_b update s = record s { b = update s.b }

  unfoldable pub stage_candidate : Slot → String → String → SimulationState F → SimulationState F
  stage_candidate slot id name =
      with_slot slot
        (λ c. record c { candidate_id = some id; candidate_name = name; status = idle })

  unfoldable pub update_slot_progress :
      Slot → Value F → Value F → SimulationState F → SimulationState F
  update_slot_progress slot progress iterations =
      with_slot slot (λ c. record c { progress = progress; iteration_count = iterations })

  unfoldable pub set_slot_error : Slot → Value F → SimulationState F → SimulationState F
  set_slot_error slot message =
      with_slot slot (λ c. record c { status = error; failure = message; stream_controller = none })

  unfoldable pub active_slot_count : SimulationState F → ℕ
  active_slot_count s =
      (if is_set s.a.candidate_id then 1 else 0) + (if is_set s.b.candidate_id then 1 else 0)

  unfoldable pub is_comparison_mode : SimulationState F → Bool
  is_comparison_mode s = is_set s.a.candidate_id && is_set s.b.candidate_id

module _ {F : Type 0} ⦃n : Number F⦄ where
  unfoldable pub start_slot : Slot → ℕ → SimulationState F → SimulationState F
  start_slot slot controller = with_slot slot (λ c. record c {
    status = running;
    progress = num (n.lit 0 0);
    iteration_count = num (n.lit 0 0);
    result = null;
    failure = null;
    stream_controller = some controller;
  })

  unfoldable pub set_slot_result : Slot → Value F → SimulationState F → SimulationState F
  set_slot_result slot result s =
      let updated =
        with_slot slot
          (λ c. record c {
            status = complete;
            progress = num (n.lit 1 0);
            result = result;
            stream_controller = none;
          })
          s in
      record updated { history = take 10 (result ∷ s.history) }

  unfoldable pub clear_slot : Slot → SimulationState F → SimulationState F × List ℕ
  clear_slot slot s =
      (with_slot slot (λ _. empty_slot) s, aborted (get_slot slot s).stream_controller)

  unfoldable pub reset_all : SimulationState F → SimulationState F × List ℕ
  reset_all s = (
    record s { a = empty_slot; b = empty_slot },
    aborted s.a.stream_controller ++ aborted s.b.stream_controller,
  )

-- The actions as data, to speak of every sequence of them.
pub data Action (F : Type 0) : Type 0 where
  stage : Slot → String → String → Action F
  start : Slot → ℕ → Action F
  advance : Slot → Value F → Value F → Action F
  finish : Slot → Value F → Action F
  fail : Slot → Value F → Action F
  clear : Slot → Action F
  reset : Action F

module _ {F : Type 0} ⦃n : Number F⦄ where
  unfoldable pub perform : Action F → SimulationState F → SimulationState F × List ℕ
  unfolding stage_candidate start_slot update_slot_progress set_slot_result set_slot_error
      clear_slot reset_all
  perform (stage slot id name) s = (stage_candidate slot id name s, [])
  perform (start slot c) s = (start_slot slot c s, [])
  perform (advance slot p k) s = (update_slot_progress slot p k s, [])
  perform (finish slot r) s = (set_slot_result slot r s, [])
  perform (fail slot e) s = (set_slot_error slot e s, [])
  perform (clear slot) s = clear_slot slot s
  perform reset s = reset_all s

  -- A sequence of actions, and the controllers that it aborts.
  unfoldable pub perform_all : List (Action F) → SimulationState F → SimulationState F × List ℕ
  perform_all [] s = (s, [])
  perform_all (x ∷ xs) s =
      let (s', gone) = perform x s in let (t, later) = perform_all xs s' in (t, gone ++ later)
