-- ===== src/Attrition/Buttons.antt =====
-- apps/web/app/attrition/page.tsx: what the controls of the page offer.
use mathlib.Core.Path.{subst}
use socio_technical_alignmen.Prelude.{
  ◌≡◌, refl, sym, ◌∙◌, true, not, ◌&&◌, [], ◌∷◌, none, arith, Bool-cases, if◌then◌else◌, str_eq,
  inl, inr,
}
use socio_technical_alignmen.Html.Queries.{clicks}
use socio_technical_alignmen.Attrition.{AttritionState, run_clicked, can_run, act, start_analysis}
use socio_technical_alignmen.Attrition.Parts.{run_button}

module _ {F : Type 0} where
  run_button_offers :
      (s : AttritionState F)
      → clicks (run_button s) ≡ (if can_run s && not s.running then run_clicked ∷ [] else [])
  unfolding clicks run_button
  run_button_offers s = ground (
    arith,
    Bool-cases (str_eq s.selected_team ""),
    Bool-cases (str_eq s.selected_eng ""),
    Bool-cases s.running,
  )

  run_clicked-act :
      (s : AttritionState F)
      → act run_clicked s
        ≡ (if can_run s then record s { running = true; result = none; error = "" } else s)
  unfolding act start_analysis
  run_clicked-act s = refl

  -- The button offers a click exactly if a team and an engineer are chosen and no analysis is
  -- running. A click starts an analysis, with no result and no error left of an earlier one, if both
  -- are chosen, and otherwise changes nothing; after it the button offers nothing, so that no second
  -- analysis starts beside the first.
  pub run_button_lem :
      (s : AttritionState F)
      → (clicks (run_button s) ≡ (if can_run s && not s.running then run_clicked ∷ [] else []))
        × (act run_clicked s
            ≡ (if can_run s then record s { running = true; result = none; error = "" } else s))
        × (clicks (run_button (act run_clicked s)) ≡ [])
  run_button_lem s = (
    run_button_offers s,
    run_clicked-act s,
    elim (Bool-cases (can_run s)) [
      | inl ready ↦
          let started : AttritionState F = record s { running = true; result = none; error = "" } in
          subst (λ (t : AttritionState F). clicks (run_button t) ≡ [])
            (sym (run_clicked-act s ∙ rw ready refl))
            (run_button_offers started ∙ ground (arith, Bool-cases (can_run s)))
      | inr not_ready ↦
          subst (λ (t : AttritionState F). clicks (run_button t) ≡ [])
            (sym (run_clicked-act s ∙ rw not_ready refl)) (run_button_offers s ∙ rw not_ready refl)
    ],
  )
