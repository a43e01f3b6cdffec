-- ===== src/Simulator/Parts.antt =====
-- apps/web/components/simulator: the share button of SimulationResultsPanel.tsx, and
-- SimulationProgressBar.tsx.
use socio_technical_alignmen.Api.Client.{◌<>◌}
use socio_technical_alignmen.Html.{Html, disabled, on, style, tag, text}
use socio_technical_alignmen.Number.{Number}
use socio_technical_alignmen.Prelude.{Bool, String, [], false, if◌then◌else◌, true, ◌∷◌}
use socio_technical_alignmen.Report.{ShareEvent, ShareState, share_label}
use socio_technical_alignmen.Store.Simulation.{Slot, slot_a, slot_b}

-- `SLOT_COLOR`.
abbrev pub slot_color : Slot → String
slot_color slot_a = "var(--gold)"
slot_color slot_b = "var(--primary-60)"

abbrev is_sharing : ShareState → Bool
is_sharing ShareState.loading = true
is_sharing s = false

abbrev is_copied : ShareState → Bool
is_copied ShareState.copied = true
is_copied s = false

-- `ShareButton`.
unfoldable pub share_button : ShareState → Html ShareEvent
share_button st =
    tag "button"
      (on "onClick" ShareEvent.click
        ∷ disabled (is_sharing st)
        ∷ style (
            "fontFamily: var(--fb); fontSize: 9; fontWeight: 700; letterSpacing: 2px; textTransform: uppercase"
            ∷ ("color: " <> (if (is_copied st) then "#0D5C3A" else "var(--primary)"))
            ∷ ("backgroundColor: " <> (if (is_copied st) then "#E0F7EF" else "var(--primary-10)"))
            ∷ "border: none; borderRadius: 8; padding: 8px 14px"
            ∷ ("cursor: " <> (if (is_sharing st) then "not-allowed" else "pointer"))
            ∷ "width: 100%; transition: background-color 0.15s, color 0.15s"
            ∷ [])
        ∷ [])
      ((text ((share_label st))) ∷ [])

module _ {F : Type 0} ⦃n : Number F⦄ where
  -- `pct`.
  unfoldable pub progress_pct : F → F
  progress_pct progress =
      n.round (n.mul (n.min (n.lit 1 0) (n.max (n.lit 0 0) progress)) (n.lit 100 0))

  -- `SimulationProgressBar`.
  unfoldable pub progress_bar : {A : Type 0} → F → F → Html A
  progress_bar progress iterations = tag "div" [] (
      (tag "div"
        (style (
            "display: flex; justifyContent: space-between; alignItems: baseline; marginBottom: 6"
            ∷ [])
          ∷ [])
        ((tag "div"
            (style (
                "fontFamily: var(--fb); fontSize: 9; fontWeight: 700; letterSpacing: 3px; textTransform: uppercase; color: var(--gold)"
                ∷ [])
              ∷ [])
            ((text "Simulating") ∷ []))
          ∷ (tag "div"
              (style (
                  "fontFamily: 'Fraunces', Georgia, serif; fontSize: 13; fontWeight: 300; color: var(--dark)"
                  ∷ [])
                ∷ [])
              ((text ((n.to_locale iterations)))
                ∷ (tag "span"
                    (style (
                        "fontFamily: var(--fb); fontSize: 10; color: var(--mid); marginLeft: 3"
                        ∷ [])
                      ∷ [])
                    ((text "iter") ∷ []))
                ∷ []))
          ∷ []))
      ∷ (tag "div"
          (style (
              "height: 4; backgroundColor: var(--primary-10); borderRadius: 4; overflow: hidden"
              ∷ [])
            ∷ [])
          ((tag "div"
              (style (
                  "height: 100%"
                  ∷ ("width: " <> ((n.to_text (progress_pct progress)) <> "%"))
                  ∷ "backgroundColor: var(--gold); borderRadius: 4; transition: width 0.3s ease"
                  ∷ [])
                ∷ [])
              [])
            ∷ []))
      ∷ (tag "div"
          (style (
              "textAlign: right; marginTop: 4; fontFamily: var(--fb); fontSize: 10; color: var(--mid)"
              ∷ [])
            ∷ [])
          ((text ((n.to_text (progress_pct progress)))) ∷ (text "%") ∷ []))
      ∷ [])
