-- ===== src/Stream/Lines.antt =====
-- The loop over the lines, one line at a time.
use socio_technical_alignmen.Prelude.{◌≡◌, Option, none, some, true, false, List, ◌∷◌, arith}
use socio_technical_alignmen.Prelude.Text.{Text}
use socio_technical_alignmen.Number.{Number}
use socio_technical_alignmen.Value.{Value}
use socio_technical_alignmen.Store.Simulation.{Slot, SimulationState}
use socio_technical_alignmen.Stream.{Failure, thrown, is_nullish, payload, dispatch, catch, process}

module _ {F : Type 0} ⦃n : Number F⦄ (parse : Text → Option (Value F)) (type_error : Failure)
    (slot : Slot) (buffer line : Text) (lines : List Text) (s : SimulationState F) where
  pub process-skip :
      payload parse type_error line ≡ none
      → process parse type_error slot buffer (line ∷ lines) s
        ≡ process parse type_error slot buffer lines s
  unfolding process
  process-skip h = ground (arith, h)

  pub process-throw :
      (v : Value F)
      → payload parse type_error line ≡ some v
      → is_nullish v ≡ true
      → process parse type_error slot buffer (line ∷ lines) s ≡ thrown (catch slot type_error s)
  unfolding process
  process-throw v h k = ground (arith, h, k)

  pub process-dispatch :
      (v : Value F)
      → payload parse type_error line ≡ some v
      → is_nullish v ≡ false
      → process parse type_error slot buffer (line ∷ lines) s
        ≡ process parse type_error slot buffer lines (dispatch parse type_error slot v s)
  unfolding process
  process-dispatch v h k = ground (arith, h, k)
