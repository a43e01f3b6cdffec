-- ===== src/Stream/Refinement.antt =====
-- A run of the stream against the actions of the store.
use socio_technical_alignmen.Prelude.{
  ℕ, Bool, true, false, ◌&&◌, ◌≡◌, refl, ap, ◌∙◌, Option, List, [], ◌∷◌, ◌++◌, arith, Option-cases,
  Bool-cases, inl, inr, str_eq,
}
use socio_technical_alignmen.Prelude.Text.{Text}
use socio_technical_alignmen.Number.{Number}
use socio_technical_alignmen.Value.{Value, is_text}
use socio_technical_alignmen.Store.Simulation.{
  Slot, slot_a, slot_b, SimulationState, Action, stage, start, advance, finish, fail, clear, reset,
  start_slot, update_slot_progress, set_slot_result, set_slot_error, get_slot, perform, perform_all,
}
use socio_technical_alignmen.Store.Simulation.Invariant.{IsValid, perform_all-IsValid}
use socio_technical_alignmen.Store.Simulation.Frame.{other, is_same, perform_all-frame, all_on}
use socio_technical_alignmen.Stream.{
  Failure, Read, chunk, broken, Answer, refused, http_error, no_body, streaming, Run, going, thrown,
  member, is_nullish, cut, payload, dispatch, catch, process, feed, read_all, answered, run,
}
use socio_technical_alignmen.Stream.Lines.{process-skip, process-throw, process-dispatch}
use socio_technical_alignmen.Stream.Chunks.{store_of}

same : (slot : Slot) → is_same slot slot ≡ true
same slot_a = refl
same slot_b = refl

module _ {F : Type 0} where
  -- The actions that a stream of the slot performs.
  abbrev pub is_stream : Slot → Action F → Bool
  is_stream slot (start t c) = is_same slot t
  is_stream slot (advance t p k) = is_same slot t
  is_stream slot (finish t r) = is_same slot t
  is_stream slot (fail t e) = is_same slot t
  is_stream slot (stage t id name) = false
  is_stream slot (clear t) = false
  is_stream slot reset = false

  abbrev pub all_stream : Slot → List (Action F) → Bool
  all_stream slot [] = true
  all_stream slot (x ∷ xs) = is_stream slot x && all_stream slot xs

  all_stream-append :
      (slot : Slot) (xs ys : List (Action F))
      → all_stream slot xs ≡ true
      → all_stream slot ys ≡ true
      → all_stream slot (xs ++ ys) ≡ true
  all_stream-append slot [] ys h k = k
  all_stream-append slot (x ∷ xs) ys h k =
      ground (arith, all_stream-append slot xs ys (ground arith) k)

module _ {F : Type 0} ⦃n : Number F⦄ where
  -- The second state is reached from the first by stream actions of the slot.
  abbrev pub IsTrace : Slot → SimulationState F → SimulationState F → Type 0
  IsTrace slot s t =
      (xs : List (Action F)) × (all_stream slot xs ≡ true) × ((perform_all xs s).0 ≡ t)

  IsTrace-refl : (slot : Slot) (s : SimulationState F) → IsTrace slot s s
  unfolding perform_all
  IsTrace-refl slot s = ([], refl, refl)

  perform_all-append :
      (xs ys : List (Action F)) (s : SimulationState F)
      → (perform_all (xs ++ ys) s).0 ≡ (perform_all ys (perform_all xs s).0).0
  unfolding perform_all
  perform_all-append [] ys s = refl
  perform_all-append (x ∷ xs) ys s = perform_all-append xs ys (perform x s).0

  IsTrace-trans :
      (slot : Slot) (s t u : SimulationState F)
      → IsTrace slot s t
      → IsTrace slot t u
      → IsTrace slot s u
  IsTrace-trans slot s t u (xs, on, h) (ys, on', k) = (
    xs ++ ys,
    all_stream-append slot xs ys on on',
    perform_all-append xs ys s ∙ ap (λ (r : SimulationState F). (perform_all ys r).0) h ∙ k,
  )

  one :
      (slot : Slot) (x : Action F) (s : SimulationState F)
      → is_stream slot x ≡ true
      → IsTrace slot s (perform x s).0
  unfolding perform_all
  one slot x s on = (x ∷ [], ground arith, refl)

  -- Actions of one slot's stream are on that slot, and abort nothing.
  all_stream-all_on :
      (slot : Slot) (xs : List (Action F)) → all_stream slot xs ≡ true → all_on slot xs ≡ true
  all_stream-all_on slot [] h = refl
  all_stream-all_on slot (stage t id name ∷ xs) h = cc
  all_stream-all_on slot (start t c ∷ xs) h = ground (arith, all_stream-all_on slot xs)
  all_stream-all_on slot (advance t p k ∷ xs) h = ground (arith, all_stream-all_on slot xs)
  all_stream-all_on slot (finish t r ∷ xs) h = ground (arith, all_stream-all_on slot xs)
  all_stream-all_on slot (fail t e ∷ xs) h = ground (arith, all_stream-all_on slot xs)
  all_stream-all_on slot (clear t ∷ xs) h = cc
  all_stream-all_on slot (reset ∷ xs) h = cc

  start-IsTrace :
      (slot : Slot) (c : ℕ) (s : SimulationState F) → IsTrace slot s (start_slot slot c s)
  unfolding perform
  start-IsTrace slot c s = one slot (start slot c) s (same slot)

  fail-IsTrace :
      (slot : Slot) (v : Value F) (s : SimulationState F) → IsTrace slot s (set_slot_error slot v s)
  unfolding perform
  fail-IsTrace slot v s = one slot (fail slot v) s (same slot)

  advance-IsTrace :
      (slot : Slot) (p k : Value F) (s : SimulationState F)
      → IsTrace slot s (update_slot_progress slot p k s)
  unfolding perform
  advance-IsTrace slot p k s = one slot (advance slot p k) s (same slot)

  finish-IsTrace :
      (slot : Slot) (r : Value F) (s : SimulationState F)
      → IsTrace slot s (set_slot_result slot r s)
  unfolding perform
  finish-IsTrace slot r s = one slot (finish slot r) s (same slot)

  catch-IsTrace :
      (slot : Slot) (e : Failure) (s : SimulationState F) → IsTrace slot s (catch slot e s)
  unfolding catch
  catch-IsTrace slot e s = elim (Bool-cases (str_eq e.name "AbortError")) [
    | inl silent ↦ rw silent (IsTrace-refl slot s)
    | inr loud ↦ rw loud (fail-IsTrace slot _ s)
  ]

  step :
      (slot : Slot) (x : Action F) (s : SimulationState F)
      → is_stream slot x ≡ true
      → ((get_slot slot (perform x s).0).candidate_id ≡ (get_slot slot s).candidate_id)
        × ((get_slot slot (perform x s).0).candidate_name ≡ (get_slot slot s).candidate_name)
  unfolding perform
  step slot_a (start t c) s h = ground arith
  step slot_a x s h = ground arith
  step slot_b x s h = ground arith

  stream_keeps_candidate :
      (slot : Slot) (xs : List (Action F)) (s : SimulationState F)
      → all_stream slot xs ≡ true
      → ((get_slot slot (perform_all xs s).0).candidate_id ≡ (get_slot slot s).candidate_id)
        × ((get_slot slot (perform_all xs s).0).candidate_name ≡ (get_slot slot s).candidate_name)
  unfolding perform_all
  stream_keeps_candidate slot [] s h = (refl, refl)
  stream_keeps_candidate slot (x ∷ xs) s h =
      let (id, name) = stream_keeps_candidate slot xs (perform x s).0 (ground arith) in
      let (id', name') = step slot x s (ground arith) in (id ∙ id', name ∙ name')

module _ {F : Type 0} ⦃n : Number F⦄ (parse : Text → Option (Value F)) (type_error : Failure) where
  dispatch-IsTrace :
      (slot : Slot) (v : Value F) (s : SimulationState F)
      → IsTrace slot s (dispatch parse type_error slot v s)
  unfolding dispatch
  dispatch-IsTrace slot v s = elim (Bool-cases (is_text "progress" (member "type" v))) [
    | inl p ↦ rw p (advance-IsTrace slot _ _ s)
    | inr np ↦ elim (Bool-cases (is_text "result" (member "type" v))) [
      | inl r ↦ rw (np, r) (finish-IsTrace slot _ s)
      | inr nr ↦ elim (Bool-cases (is_text "error" (member "type" v))) [
        | inl e ↦ rw (np, nr, e) (fail-IsTrace slot _ s)
        | inr ne ↦ rw (np, nr, ne) (IsTrace-refl slot s)
      ]
    ]
  ]

  process-IsTrace :
      (slot : Slot) (buffer : Text) (lines : List Text) (s : SimulationState F)
      → IsTrace slot s (store_of (process parse type_error slot buffer lines s))
  process-IsTrace slot buffer [] s = unfold process in IsTrace-refl slot s
  process-IsTrace slot buffer (line ∷ lines) s =
      elim (Option-cases (payload parse type_error line)) [
        | inl skip ↦
            rw (process-skip parse type_error slot buffer line lines s skip)
              (process-IsTrace slot buffer lines s)
        | inr (v, event) ↦ elim (Bool-cases (is_nullish v)) [
          | inl bad ↦
              rw (process-throw parse type_error slot buffer line lines s v event bad)
                (catch-IsTrace slot type_error s)
          | inr good ↦
              rw (process-dispatch parse type_error slot buffer line lines s v event good) (
                IsTrace-trans slot s (dispatch parse type_error slot v s) _
                  (dispatch-IsTrace slot v s)
                  (process-IsTrace slot buffer lines (dispatch parse type_error slot v s)))
        ]
      ]

  read_all-IsTrace :
      (slot : Slot) (r : Run F) (reads : List Read)
      → IsTrace slot (store_of r) (read_all parse type_error slot r reads)
  unfolding read_all
  read_all-IsTrace slot (going b s) [] = IsTrace-refl slot s
  read_all-IsTrace slot (going b s) (broken e ∷ reads) = catch-IsTrace slot e s
  read_all-IsTrace slot (going b s) (chunk text ∷ reads) =
      IsTrace-trans slot s (store_of (feed parse type_error slot (going b s) text)) _
        (unfold feed in process-IsTrace slot (cut (b ++ text)).1 (cut (b ++ text)).0 s)
        (read_all-IsTrace slot (feed parse type_error slot (going b s) text) reads)
  read_all-IsTrace slot (thrown s) [] = IsTrace-refl slot s
  read_all-IsTrace slot (thrown s) (x ∷ reads) = IsTrace-refl slot s

  answered-IsTrace :
      (slot : Slot) (answer : Answer) (s : SimulationState F)
      → IsTrace slot s (answered parse type_error slot answer s)
  unfolding answered
  answered-IsTrace slot (refused e) s = catch-IsTrace slot e s
  answered-IsTrace slot (http_error status text) s = fail-IsTrace slot _ s
  answered-IsTrace slot no_body s = fail-IsTrace slot _ s
  answered-IsTrace slot (streaming reads) s = read_all-IsTrace slot (going [] s) reads

  -- Whatever the network answers, the state after a run is the state after some sequence of the
  -- store's start, progress, result and error actions on the run's own slot.
  pub run-IsTrace :
      (slot : Slot) (controller : ℕ) (answer : Answer) (s : SimulationState F)
      → IsTrace slot s (run parse type_error slot controller answer s)
  unfolding run
  run-IsTrace slot controller answer s =
      IsTrace-trans slot s (start_slot slot controller s) _ (start-IsTrace slot controller s)
        (answered-IsTrace slot answer (start_slot slot controller s))

  -- A run keeps the other slot, the candidate staged in its own, and the well-formedness of both.
  pub run_keeps :
      (slot : Slot) (controller : ℕ) (answer : Answer) (s : SimulationState F)
      → IsValid s
      → let t = run parse type_error slot controller answer s in
        IsValid t
        × (get_slot (other slot) t ≡ get_slot (other slot) s)
        × ((get_slot slot t).candidate_id ≡ (get_slot slot s).candidate_id)
        × ((get_slot slot t).candidate_name ≡ (get_slot slot s).candidate_name)
  run_keeps slot controller answer s v =
      let (xs, on, end) = run-IsTrace slot controller answer s in
      let (id, name) = stream_keeps_candidate slot xs s on in
      (
        rw (← end) (perform_all-IsValid xs s v),
        rw (← end) (perform_all-frame slot xs s (all_stream-all_on slot xs on)),
        rw (← end) id,
        rw (← end) name,
      )
