-- ===== src/Stream.antt =====
-- apps/web/lib/hooks/useSimulationStream.ts: a simulation run over a server-sent event stream.
--
-- `run` takes the slot, the controller that it makes, what the network answers, and the store's
-- state. `JSON.parse` (`parse`, `none` where it throws) and the error that reading a property of
-- `null` throws (`type_error`) are the runtime's, so they are parameters. The answer's body is the
-- list of what `reader.read()` gives until `done`: decoded chunks, or a rejection at the end.
pub mod Lines
pub mod Chunks
pub mod Refinement
pub mod Ending
mod Tests
use socio_technical_alignmen.Prelude.{
  ℕ, String, Bool, true, false, Option, none, some, List, [], ◌∷◌, ◌++◌, drop, is_empty, not,
  str_eq, if◌then◌else◌, zero, suc,
}
use socio_technical_alignmen.Prelude.Text.{Text, utf16, trim, starts_with, split}
use socio_technical_alignmen.Api.Client.{◌<>◌}
use socio_technical_alignmen.Number.{Number}
use socio_technical_alignmen.Value.{
  Value, undefined, null, obj, num, str, arr, nil, cons, Items, end, field, get_field, or_default,
  is_text,
}
use socio_technical_alignmen.Store.Simulation.{
  Slot, SimulationState, start_slot, update_slot_progress, set_slot_result, set_slot_error,
}

-- An error that a promise rejects with or that the loop throws: its name and message.
pub record Failure : Type 0 where
  pub name : String
  pub message : Option String

pub data Read : Type 0 where
  chunk : Text → Read
  broken : Failure → Read

-- What `fetch` gives, as far as `run` looks at it.
pub data Answer : Type 0 where
  refused : Failure → Answer
  http_error : String → String → Answer
  no_body : Answer
  streaming : List Read → Answer

-- The state of the loop: the buffer and the store, or the store after an exception was caught.
pub data Run (F : Type 0) : Type 0 where
  going : Text → SimulationState F → Run F
  thrown : SimulationState F → Run F

-- `buffer.split("\n")` and `lines.pop()`: the complete lines, and what follows the last line end.
unfoldable pub pop : Text → List Text → List Text × Text
pop l [] = ([], l)
pop l (m ∷ ms) = let (lines, last) = pop m ms in (l ∷ lines, last)

unfoldable pub cut : Text → List Text × Text
unfolding pop split
cut buffer = let (first, rest) = split b'\n' buffer in pop first rest

abbrev data_prefix : Text
data_prefix = utf16 "data: "

module _ {F : Type 0} where
  -- `event.k`, for an event that is neither `null` nor `undefined`.
  abbrev pub member : String → Value F → Value F
  member k (obj fs) = get_field k fs
  member k v = undefined

  abbrev pub is_nullish : Value F → Bool
  is_nullish undefined = true
  is_nullish null = true
  is_nullish v = false

  -- The `catch` of `run`: an abort is silent.
  unfoldable pub catch : Slot → Failure → SimulationState F → SimulationState F
  catch slot e s =
      if str_eq e.name "AbortError"
      then s
      else set_slot_error slot (elim e.message [ none ↦ str "Unknown error" | some m ↦ str m ]) s

module _ {F : Type 0} ⦃n : Number F⦄ (parse : Text → Option (Value F)) (type_error : Failure) where
  -- The three event types; any other is ignored.
  unfoldable pub dispatch : Slot → Value F → SimulationState F → SimulationState F
  dispatch slot event s =
      if is_text "progress" (member "type" event)
      then update_slot_progress slot (or_default (member "pct" event) (num (n.lit 0 0)))
          (or_default (member "n" event) (num (n.lit 0 0))) s
      else if is_text "result" (member "type" event)
      then set_slot_result slot (member "data" event) s
      else if is_text "error" (member "type" event)
      then set_slot_error slot (or_default (member "detail" event) (str "Simulation failed")) s
      else s

  -- The payload of a line of the stream, if it is a data line with one.
  unfoldable pub payload : Text → Option (Value F)
  payload line =
      if starts_with data_prefix line
      then (if is_empty (trim (drop 6 line)) then none else parse (trim (drop 6 line)))
      else none

  -- The body of the loop over the lines. `buffer` is what the loop over the reads goes on with.
  unfoldable pub process : Slot → Text → List Text → SimulationState F → Run F
  process slot buffer [] s = going buffer s
  process slot buffer (line ∷ lines) s = elim (payload line) [
    | none ↦ process slot buffer lines s
    | some event ↦ elim (is_nullish event) [
      | true ↦ thrown (catch slot type_error s)
      | false ↦ process slot buffer lines (dispatch slot event s)
    ]
  ]

  -- One round of `while (true)`.
  unfoldable pub feed : Slot → Run F → Text → Run F
  feed slot (thrown s) text = thrown s
  feed slot (going buffer s) text =
      let (lines, last) = cut (buffer ++ text) in process slot last lines s

  unfoldable pub read_all : Slot → Run F → List Read → SimulationState F
  read_all slot (thrown s) reads = s
  read_all slot (going buffer s) [] = s
  read_all slot (going buffer s) (broken e ∷ reads) = catch slot e s
  read_all slot (going buffer s) (chunk text ∷ reads) =
      read_all slot (feed slot (going buffer s) text) reads

  unfoldable pub answered : Slot → Answer → SimulationState F → SimulationState F
  answered slot (refused e) s = catch slot e s
  answered slot (http_error status text) s =
      set_slot_error slot (str ("HTTP " <> status <> ": " <> text)) s
  answered slot no_body s = set_slot_error slot (str "No response body from simulation stream") s
  answered slot (streaming reads) s = read_all slot (going [] s) reads

  unfoldable pub run : Slot → ℕ → Answer → SimulationState F → SimulationState F
  unfolding answered
  run slot controller answer s = answered slot answer (start_slot slot controller s)

-- The request that `run` sends.
pub record CandidatePayload (F : Type 0) : Type 0 where
  pub id : String
  pub name : String
  pub skills : List String
  pub github_url : Option String
  pub collaboration_vector : Option (List F)
  pub team_id : String

pub record StreamRunOptions (F : Type 0) : Type 0 where
  pub candidate : CandidatePayload F
  pub team_id : String
  pub n_iterations : Option F
  pub seed : Option F

-- `o ?? d`.
abbrev with_default {ℓ} : {A : Type ℓ} → Option A → A → A
with_default none d = d
with_default (some a) d = a

module _ {F : Type 0} where
  abbrev strings : List String → Items F
  strings [] = nil
  strings (s ∷ ss) = cons (str s) (strings ss)

  abbrev numbers : List F → Items F
  numbers [] = nil
  numbers (x ∷ xs) = cons (num x) (numbers xs)

  unfoldable pub request_body : ⦃n : Number F⦄ → StreamRunOptions F → Value F
  request_body ⦃n⦄ opts = obj (
      field "candidate"
        (obj (
          field "id" (str opts.candidate.id) (
            field "name" (str opts.candidate.name) (
              field "skills" (arr (strings opts.candidate.skills)) (
                field "github_url" (str (with_default opts.candidate.github_url "")) (
                  field "collaboration_vector"
                    (arr (numbers (with_default opts.candidate.collaboration_vector [])))
                    (field "team_id" (str opts.candidate.team_id) end)))))))
        (field "team_id" (str opts.team_id) (
          field "n_iterations" (num (with_default opts.n_iterations (n.lit 1000 0)))
            (field "seed" (num (with_default opts.seed (n.lit 42 0))) end))))
