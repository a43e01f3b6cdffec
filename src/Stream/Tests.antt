-- ===== src/Stream/Tests.antt =====
-- A stream in two chunks that are cut inside a line.
use socio_technical_alignmen.Prelude.{
  ℕ, ◌≡◌, refl, Bool, true, false, Option, none, some, List, [], ◌∷◌, map, take, if◌then◌else◌,
  ◌==◌, ◌&&◌,
}
use socio_technical_alignmen.Prelude.Text.{Text, utf16, trim, starts_with}
use socio_technical_alignmen.Number.Scaled.{scaled}
use socio_technical_alignmen.Value.{Value, num, str, obj, field, end}
use socio_technical_alignmen.Store.Simulation.{
  SimulationState, running, complete, slot_a, slot_b, initial, get_slot, start_slot,
  set_slot_result, update_slot_progress,
}
use socio_technical_alignmen.Store.Simulation.Invariant.{IsValid, initial-IsValid}
use socio_technical_alignmen.Stream.{
  Failure, chunk, streaming, no_body, cut, payload, dispatch, process, feed, read_all, run,
}
use socio_technical_alignmen.Stream.Chunks.{store_of, joined, run_streaming}
use socio_technical_alignmen.Stream.Refinement.{IsTrace, run-IsTrace, run_keeps}
use socio_technical_alignmen.Stream.Ending.{run_unfinished, run_completes}

abbrev same_text : Text → Text → Bool
same_text [] [] = true
same_text (c ∷ s) (d ∷ t) = c == d && same_text s t
same_text _ _ = false

-- A parser that knows two texts.
abbrev parse : Text → Option (Value ℕ)
parse t =
    if same_text t (utf16 "p")
    then some (obj (field "type" (str "progress") (field "pct" (num 250000) end)))
    else if same_text t (utf16 "r")
    then some (obj (field "type" (str "result") (field "data" (str "done") end)))
    else none

abbrev type_error : Failure
type_error = record { name = "TypeError"; message = some "no type" }

abbrev start_state : SimulationState ℕ
start_state = initial

abbrev chunks : List Text
chunks = utf16 "data: p\n\nda" ∷ utf16 "ta: r\n\n" ∷ []

abbrev half : List Text
half = utf16 "data: p\n\nda" ∷ []

lines_of_chunks : cut (joined chunks) ≡ (utf16 "data: p" ∷ [] ∷ utf16 "data: r" ∷ [] ∷ [], [])
unfolding cut
lines_of_chunks = refl

chunks_complete :
    (run parse type_error slot_a 1 (streaming (map chunk chunks)) start_state).a.result ≡ str "done"
unfolding run read_all feed process cut payload dispatch start_slot set_slot_result
    update_slot_progress trim starts_with
chunks_complete = refl

run_streaming_example :
    run parse type_error slot_a 1 (streaming (map chunk chunks)) start_state
    ≡ store_of (
        process parse type_error slot_a []
          (cut (joined chunks)).0
          (start_slot slot_a 1 start_state))
run_streaming_example = run_streaming parse type_error slot_a 1 chunks start_state

run-IsTrace_example : IsTrace slot_a start_state (run parse type_error slot_a 1 no_body start_state)
run-IsTrace_example = run-IsTrace parse type_error slot_a 1 no_body start_state

run_keeps_example :
    let t = run parse type_error slot_a 1 (streaming (map chunk chunks)) start_state in
    IsValid t
    × (get_slot slot_b t ≡ get_slot slot_b start_state)
    × ((get_slot slot_a t).candidate_id ≡ (get_slot slot_a start_state).candidate_id)
    × ((get_slot slot_a t).candidate_name ≡ (get_slot slot_a start_state).candidate_name)
run_keeps_example =
    run_keeps parse type_error slot_a 1 (streaming (map chunk chunks)) start_state initial-IsValid

run_unfinished_example :
    (get_slot slot_a
      (run parse type_error slot_a 1 (streaming (map chunk half)) start_state)).status
    ≡ running
unfolding cut payload trim starts_with
run_unfinished_example =
    run_unfinished parse type_error slot_a 1 half start_state ((refl, refl, refl), (tt, tt))

run_completes_example :
    let end = run parse type_error slot_a 1 (streaming (map chunk chunks)) start_state in
    ((get_slot slot_a end).status ≡ complete)
    × ((get_slot slot_a end).result ≡ str "done")
    × (end.history ≡ take 10 (str "done" ∷ start_state.history))
unfolding cut payload trim starts_with
run_completes_example =
    run_completes parse type_error slot_a 1 chunks start_state
      (obj (field "type" (str "result") (field "data" (str "done") end)))
      (utf16 "data: p" ∷ [] ∷ []) ([] ∷ []) (utf16 "data: r") refl ((refl, refl, refl), (tt, tt))
      refl (refl, refl, refl) (tt, tt)
