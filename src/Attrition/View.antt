-- ===== src/Attrition/View.antt =====
-- apps/web/app/attrition/page.tsx: the page.
use socio_technical_alignmen.Api.Client.{◌<>◌}
use socio_technical_alignmen.Attrition.{AttritionEvent, AttritionResult, AttritionState, max_impact}
use socio_technical_alignmen.Attrition.Headline.{
  engineer_details, fragmentation_warning, impact_number,
}
use socio_technical_alignmen.Attrition.Impacts.{closeness_change, fragmentation, impact_list}
use socio_technical_alignmen.Attrition.Parts.{engineer_picker, run_button, team_picker}
use socio_technical_alignmen.Html.{Html, nothing, style, tag, text, when}
use socio_technical_alignmen.Number.{Number}
use socio_technical_alignmen.Prelude.{Option, String, [], none, not, some, str_eq, true, ◌∷◌}
use socio_technical_alignmen.Ui.{NavProps, eyebrow, footer, nav}

-- The header.
unfoldable pub hero : {A : Type 0} → Html A
hero =
    tag "section"
      (style (
          "backgroundColor: var(--primary)"
          ∷ ("backgroundImage: "
              <> ("linear-gradient(rgba(255,255,255,.025) 1px, transparent 1px),"
                  <> "linear-gradient(90deg, rgba(255,255,255,.025) 1px, transparent 1px)"))
          ∷ "backgroundSize: 48px 48px; padding: 56px 48px 48px"
          ∷ [])
        ∷ [])
      ((tag "div" (style ("maxWidth: 1300; margin: 0 auto" ∷ []) ∷ []) (
          (eyebrow true ((text "Simulation") ∷ []))
          ∷ (tag "h1"
              (style (
                  "fontFamily: var(--fd); fontSize: 40; fontWeight: 300; color: #ffffff; lineHeight: 1.2; marginBottom: 12"
                  ∷ [])
                ∷ [])
              ((text "Attrition")
                ∷ (text (" "))
                ∷ (tag "em" (style ("fontStyle: italic; color: var(--gold-light)" ∷ []) ∷ [])
                    ((text "impact.") ∷ []))
                ∷ []))
          ∷ (tag "p"
              (style (
                  "fontFamily: var(--fb); fontSize: 14; color: rgba(255,255,255,0.6); lineHeight: 1.75; maxWidth: 520"
                  ∷ [])
                ∷ [])
              ((text
                  "Select an engineer and simulate their departure. See exactly how team connectivity degrades and which colleagues lose the most knowledge access.")
                ∷ []))
          ∷ []))
        ∷ [])

module _ {F : Type 0} ⦃n : Number F⦄ where
  -- The headline and the metrics beside it.
  unfoldable pub headline : AttritionResult F → Html AttritionEvent
  headline r =
      tag "div" (style ("display: grid; gridTemplateColumns: auto 1fr 1fr 1fr; gap: 20" ∷ []) ∷ [])
        ((impact_number r) ∷ (engineer_details r) ∷ (closeness_change r) ∷ (fragmentation r) ∷ [])

  -- What is shown of a result.
  unfoldable pub results : AttritionResult F → Html AttritionEvent
  results r = tag "div" (style ("display: flex; flexDirection: column; gap: 20" ∷ []) ∷ []) (
      ((when r.graph_fragmented (fragmentation_warning r)))
      ∷ (headline r)
      ∷ (impact_list (max_impact (some r)) r)
      ∷ [])

  abbrev pub results_of : Option (AttritionResult F) → Html AttritionEvent
  results_of none = nothing
  results_of (some r) = results r

  -- The body of the page.
  unfoldable pub body : AttritionState F → Html AttritionEvent
  body s =
      tag "section"
        (style
            ("flex: 1; maxWidth: 1300; margin: 0 auto; padding: 48px 48px 64px; width: 100%" ∷ [])
          ∷ [])
        ((tag "div"
            (style ("display: grid; gridTemplateColumns: 1fr 1fr; gap: 20; marginBottom: 32" ∷ [])
              ∷ [])
            ((team_picker s) ∷ (engineer_picker s) ∷ []))
          ∷ (run_button s)
          ∷ (when ((not (str_eq s.error ""))) (
              tag "div"
                (style (
                    "backgroundColor: #fdeaea; borderRadius: 8; padding: 12px 16px; fontFamily: var(--fb); fontSize: 12; color: #7a1020; marginBottom: 24"
                    ∷ [])
                  ∷ [])
                ((text s.error) ∷ [])))
          ∷ ((results_of s.result))
          ∷ [])

  -- The page.
  unfoldable pub attrition_page : NavProps → String → AttritionState F → Html AttritionEvent
  attrition_page props date s =
      tag "main" (style ("minHeight: 100vh; display: flex; flexDirection: column" ∷ []) ∷ [])
        ((nav props) ∷ hero ∷ (body s) ∷ (footer date) ∷ [])
