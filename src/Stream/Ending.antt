-- ===== src/Stream/Ending.antt =====
-- How a stream that delivers its whole text leaves the slot.
use socio_technical_alignmen.Prelude.{
  ℕ, ◌≡◌, refl, ap, ◌∙◌, Option, none, some, true, false, List, [], ◌∷◌, ◌++◌, map, take, All,
  arith, Option-cases, append-nil, inl, inr, sym,
}
use socio_technical_alignmen.Prelude.Text.{Text}
use socio_technical_alignmen.Number.{Number}
use socio_technical_alignmen.Value.{Value, is_text}
use socio_technical_alignmen.Store.Simulation.{
  Slot, slot_a, slot_b, SimulationState, running, complete, get_slot, update_slot_progress,
  set_slot_result, start_slot,
}
use socio_technical_alignmen.Stream.{
  Failure, chunk, streaming, member, is_nullish, cut, payload, dispatch, process, run,
}
use socio_technical_alignmen.Stream.Lines.{process-skip, process-dispatch}
use socio_technical_alignmen.Stream.Chunks.{store_of, joined, run_streaming}

module _ {F : Type 0} where
  -- The event is an object (or another value that is not null) that ends nothing.
  abbrev pub IsQuiet : Option (Value F) → Type 0
  IsQuiet none = Unit
  IsQuiet (some v) =
      (is_nullish v ≡ false)
      × (is_text "result" (member "type" v) ≡ false)
      × (is_text "error" (member "type" v) ≡ false)

  -- The event is a result.
  abbrev pub IsResult : Value F → Type 0
  IsResult v =
      (is_nullish v ≡ false)
      × (is_text "progress" (member "type" v) ≡ false)
      × (is_text "result" (member "type" v) ≡ true)

  -- Only progress may differ.
  pub record Keeps (slot : Slot) (s t : SimulationState F) : Type 0 where
    pub status : (get_slot slot t).status ≡ (get_slot slot s).status
    pub result : (get_slot slot t).result ≡ (get_slot slot s).result
    pub history : t.history ≡ s.history

  Keeps-refl : (slot : Slot) (s : SimulationState F) → Keeps slot s s
  Keeps-refl slot s = record { status = refl; result = refl; history = refl }

  Keeps-trans :
      (slot : Slot) (s t u : SimulationState F) → Keeps slot s t → Keeps slot t u → Keeps slot s u
  Keeps-trans slot s t u h k = record {
    status = k.status ∙ h.status;
    result = k.result ∙ h.result;
    history = k.history ∙ h.history;
  }

module _ {F : Type 0} ⦃n : Number F⦄ (parse : Text → Option (Value F)) (type_error : Failure) where
  dispatch_quiet :
      (slot : Slot) (v : Value F) (s : SimulationState F)
      → IsQuiet (some v)
      → Keeps slot s (dispatch parse type_error slot v s)
  unfolding dispatch update_slot_progress
  dispatch_quiet slot_a v s q = ground arith
  dispatch_quiet slot_b v s q = ground arith

  -- Quiet lines lead to the lines behind them, with only progress changed.
  quiet_lines :
      (slot : Slot) (b : Text) (xs ys : List Text) (s : SimulationState F)
      → All (λ line. IsQuiet (payload parse type_error line)) xs
      → (t : SimulationState F) × (process parse type_error slot b (xs ++ ys) s
          ≡ process parse type_error slot b ys t)
        × Keeps slot s t
  quiet_lines slot b [] ys s q = (s, refl, Keeps-refl slot s)
  quiet_lines slot b (x ∷ xs) ys s (q, qs) = elim (Option-cases (payload parse type_error x)) [
    | inl skip ↦
        let (t, eq, keeps) = quiet_lines slot b xs ys s qs in
        (t, process-skip parse type_error slot b x (xs ++ ys) s skip ∙ eq, keeps)
    | inr (v, event) ↦
        let quiet : IsQuiet (some v) = rw event at q in
        let (t, eq, keeps) = quiet_lines slot b xs ys (dispatch parse type_error slot v s) qs in
        (
          t,
          process-dispatch parse type_error slot b x (xs ++ ys) s v event quiet.0 ∙ eq,
          Keeps-trans slot s (dispatch parse type_error slot v s) t (dispatch_quiet slot v s quiet)
              keeps,
        )
  ]

  started-running :
      (slot : Slot) (controller : ℕ) (s : SimulationState F)
      → (get_slot slot (start_slot slot controller s)).status ≡ running
  unfolding start_slot
  started-running slot_a controller s = refl
  started-running slot_b controller s = refl

  start-history :
      (slot : Slot) (controller : ℕ) (s : SimulationState F)
      → (start_slot slot controller s).history ≡ s.history
  unfolding start_slot
  start-history slot_a controller s = refl
  start-history slot_b controller s = refl

  -- The store after the lines, from where the quiet lines lead.
  settle :
      (slot : Slot) (xs : List Text) (s t : SimulationState F)
      → process parse type_error slot [] (xs ++ []) s ≡ process parse type_error slot [] [] t
      → store_of (process parse type_error slot [] xs s) ≡ t
  unfolding process
  settle slot xs s t eq =
      ap (λ (r : List Text). store_of (process parse type_error slot [] r s)) (sym (append-nil xs))
      ∙ ap store_of eq

  -- A stream that ends, without an exception, before any complete line with a result or an error
  -- event leaves its slot running, however it is cut into chunks.
  pub run_unfinished :
      (slot : Slot) (controller : ℕ) (cs : List Text) (s : SimulationState F)
      → All (λ line. IsQuiet (payload parse type_error line)) (cut (joined cs)).0
      → (get_slot slot (run parse type_error slot controller (streaming (map chunk cs)) s)).status
        ≡ running
  run_unfinished slot controller cs s q =
      let s' = start_slot slot controller s in
      let (t, eq, keeps) = quiet_lines slot [] (cut (joined cs)).0 [] s' q in
      ap (λ (r : SimulationState F). (get_slot slot r).status)
        (run_streaming parse type_error slot controller cs s
          ∙ settle slot (cut (joined cs)).0 s' t eq)
      ∙ keeps.status
      ∙ started-running slot controller s

  after_result :
      (slot : Slot) (v : Value F) (s : SimulationState F)
      → IsResult v
      → dispatch parse type_error slot v s ≡ set_slot_result slot (member "data" v) s
  unfolding dispatch
  after_result slot v s r = ground arith

  result_lem :
      (slot : Slot) (r : Value F) (s : SimulationState F)
      → ((get_slot slot (set_slot_result slot r s)).status ≡ complete)
        × ((get_slot slot (set_slot_result slot r s)).result ≡ r)
        × ((set_slot_result slot r s).history ≡ take 10 (r ∷ s.history))
  unfolding set_slot_result
  result_lem slot_a r s = (refl, refl, refl)
  result_lem slot_b r s = (refl, refl, refl)

  -- The store after quiet lines, a result, and quiet lines again.
  with_result :
      (slot : Slot) (v : Value F) (pre post : List Text) (line : Text) (s : SimulationState F)
      → All (λ l. IsQuiet (payload parse type_error l)) pre
      → payload parse type_error line ≡ some v
      → IsResult v
      → All (λ l. IsQuiet (payload parse type_error l)) post
      → (t : SimulationState F) × (u : SimulationState F) × (store_of
            (process parse type_error slot [] (pre ++ (line ∷ post)) s)
          ≡ u)
        × Keeps slot s t
        × Keeps slot (set_slot_result slot (member "data" v) t) u
  with_result slot v pre post line s before event result after =
      let (t, eq, keeps) = quiet_lines slot [] pre (line ∷ post) s before in
      let done = set_slot_result slot (member "data" v) t in
      let (u, eq', keeps') = quiet_lines slot [] post [] done after in
      (
        t,
        u,
        ap store_of (
              eq
              ∙ process-dispatch parse type_error slot [] line post t v event result.0
              ∙ ap (process parse type_error slot [] post) (after_result slot v t result))
            ∙ settle slot post done u eq',
        keeps,
        keeps',
      )

  -- If the complete lines of the stream hold one result event, and otherwise only lines without
  -- an event and progress or unknown events, then however the text is cut into chunks the slot
  -- ends complete with that event's data, and the history is the data before the earlier results,
  -- ten at most.
  pub run_completes :
      (slot : Slot) (controller : ℕ) (cs : List Text) (s : SimulationState F) (v : Value F)
      (pre post : List Text) (line : Text)
      → (cut (joined cs)).0 ≡ pre ++ (line ∷ post)
      → All (λ l. IsQuiet (payload parse type_error l)) pre
      → payload parse type_error line ≡ some v
      → IsResult v
      → All (λ l. IsQuiet (payload parse type_error l)) post
      → let end = run parse type_error slot controller (streaming (map chunk cs)) s in
        ((get_slot slot end).status ≡ complete)
        × ((get_slot slot end).result ≡ member "data" v)
        × (end.history ≡ take 10 (member "data" v ∷ s.history))
  run_completes slot controller cs s v pre post line lines before event result after =
      let s' = start_slot slot controller s in
      let (t, u, eq, keeps, keeps') =
        with_result slot v pre post line s' before event result after in
      let (status, stored, history) = result_lem slot (member "data" v) t in
      let whole =
        run_streaming parse type_error slot controller cs s
        ∙ ap (λ (r : List Text). store_of (process parse type_error slot [] r s')) lines
        ∙ eq in
      rw whole (
        keeps'.status ∙ status,
        keeps'.result ∙ stored,
        keeps'.history
            ∙ history
            ∙ ap (λ (h : List (Value F)). take 10 (member "data" v ∷ h))
                (keeps.history ∙ start-history slot controller s),
      )
