-- ===== src/Store/Simulation/Tests.antt =====
-- Runs of the simulation store on concrete inputs.
use socio_technical_alignmen.Prelude.{ℕ, ◌≡◌, refl, some, none, List, [], ◌∷◌, take}
use socio_technical_alignmen.Number.Scaled.{scaled}
use socio_technical_alignmen.Value.{num, str}
use socio_technical_alignmen.Store.Simulation.{
  SimulationState, complete, slot_a, slot_b, Action, stage, start, advance, finish, clear, initial,
  get_slot, perform, perform_all,
}
use socio_technical_alignmen.Store.Simulation.Invariant.{
  IsValid, initial-IsValid, perform_all-IsValid,
}
use socio_technical_alignmen.Store.Simulation.History.{logged, perform_all-history}
use socio_technical_alignmen.Store.Simulation.Frame.{perform_all-frame, restart_keeps_stale_stream}

-- A candidate staged, run and finished in slot A.
abbrev session : List (Action ℕ)
session =
    stage slot_a "c1" "Ada"
    ∷ start slot_a 7
    ∷ advance slot_a (num 250000) (num 250)
    ∷ finish slot_a (str "r1")
    ∷ []

abbrev start_state : SimulationState ℕ
start_state = initial

session_result : (perform_all session start_state).0.a.result ≡ str "r1"
unfolding perform_all perform
session_result = refl

running_slot :
    (perform_all (stage slot_a "c1" "Ada" ∷ start slot_a 7 ∷ clear slot_a ∷ []) start_state).1
    ≡ 7 ∷ []
unfolding perform_all perform
running_slot = refl

perform_all-IsValid_example : IsValid (perform_all session start_state).0
perform_all-IsValid_example = perform_all-IsValid session start_state initial-IsValid

perform_all-history_example :
    (perform_all session start_state).0.history ≡ take 10 (logged session [])
perform_all-history_example = perform_all-history session start_state [] refl

perform_all-frame_example :
    get_slot slot_b (perform_all session start_state).0 ≡ get_slot slot_b start_state
perform_all-frame_example = perform_all-frame slot_a session start_state refl

restart_keeps_stale_stream_example :
    let out =
      perform_all
        (start slot_a 1 ∷ stage slot_a "c2" "Bea" ∷ start slot_a 2 ∷ finish slot_a (str "old") ∷ [])
        start_state in
    (out.1 ≡ [])
    × ((get_slot slot_a out.0).candidate_id ≡ some "c2")
    × ((get_slot slot_a out.0).status ≡ complete)
    × ((get_slot slot_a out.0).result ≡ str "old")
    × ((get_slot slot_a out.0).stream_controller ≡ none)
restart_keeps_stale_stream_example =
    restart_keeps_stale_stream slot_a "c2" "Bea" 1 2 (str "old") start_state
