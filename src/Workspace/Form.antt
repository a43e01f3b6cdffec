-- ===== src/Workspace/Form.antt =====
-- The form of a slot, and the panels.
use socio_technical_alignmen.Prelude.{
  arith, Bool, true, false, not, ◌&&◌, ◌≡◌, refl, inl, inr, none, some, List, [], ◌∷◌, map,
  Bool-cases, is_empty, All, All-filter, if◌then◌else◌,
}
use socio_technical_alignmen.Prelude.Text.{trim}
use socio_technical_alignmen.Number.{Number}
use socio_technical_alignmen.Store.Simulation.{Slot, slot_a, slot_b, is_comparison_mode}
use socio_technical_alignmen.Workspace.{
  FormState, stage_form, can_stage, parse_skills, pieces, Panel, comparison, results, panels, shows,
  WorkspaceState,
}

-- With no candidate staged, the button of a form is enabled exactly when the form's name is not
-- blank, and exactly then the form stages, with the trimmed name and skills none of which is empty.
pub stage_form_lem :
    (form : FormState)
    → (can_stage form none ≡ not (is_empty (trim form.name)))
      × (stage_form form
          ≡ (if can_stage form none then some (trim form.name, parse_skills form.skills) else none))
      × All (λ t. not (is_empty t) ≡ true) (parse_skills form.skills)
unfolding stage_form can_stage parse_skills
stage_form_lem form = (
  refl,
  elim (Bool-cases (is_empty (trim form.name))) [
    | inl blank ↦ rw blank refl
    | inr set ↦ rw set refl
  ],
  All-filter (λ t. not (is_empty t)) (map trim (pieces form.skills)),
)

module _ {F : Type 0} ⦃n : Number F⦄ where
  -- The results of a slot are among the panels.
  abbrev pub has_results : Slot → List (Panel F) → Bool
  has_results slot [] = false
  has_results slot_a (results slot_a v ∷ ps) = true
  has_results slot_b (results slot_b v ∷ ps) = true
  has_results slot_a (_ ∷ ps) = has_results slot_a ps
  has_results slot_b (_ ∷ ps) = has_results slot_b ps

  abbrev pub has_comparison : List (Panel F) → Bool
  has_comparison [] = false
  has_comparison (comparison v w ∷ ps) = true
  has_comparison (_ ∷ ps) = has_comparison ps

  -- A slot's results are shown exactly when it is complete with a result, in comparison mode and
  -- outside it; the comparison is shown exactly when both slots' results are and both slots have a
  -- candidate.
  pub panels_lem :
      (s : WorkspaceState F)
      → (has_results slot_a (panels s) ≡ shows s.simulation.a)
        × (has_results slot_b (panels s) ≡ shows s.simulation.b)
        × (has_comparison (panels s)
            ≡ (is_comparison_mode s.simulation && shows s.simulation.a && shows s.simulation.b))
  unfolding panels
  panels_lem s = (ground arith, ground arith, ground arith)
