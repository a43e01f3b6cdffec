-- ===== src/Attrition/Impacts.antt =====
-- apps/web/app/attrition/page.tsx: the impacts of a result.
use socio_technical_alignmen.Api.Client.{◌<>◌}
use socio_technical_alignmen.Attrition.{AttritionEvent, AttritionResult, drop_color}
use socio_technical_alignmen.Attrition.Parts.{delta_bar}
use socio_technical_alignmen.Html.{Html, each, style, tag, text}
use socio_technical_alignmen.Number.{Number}
use socio_technical_alignmen.Prelude.{[], if◌then◌else◌, ◌∷◌}

module _ {F : Type 0} ⦃n : Number F⦄ where
  -- The average closeness before and after.
  unfoldable pub closeness_change : AttritionResult F → Html AttritionEvent
  closeness_change r =
      tag "div"
        (style (
            "backgroundColor: #ffffff; borderRadius: 12; padding: 24px 28px; boxShadow: 0 1px 4px rgba(0,51,102,0.08); borderTop: 3px solid var(--gold)"
            ∷ [])
          ∷ [])
        ((tag "div"
            (style (
                "fontFamily: var(--fb); fontSize: 9; fontWeight: 700; letterSpacing: 2px; textTransform: uppercase; color: var(--mid); marginBottom: 16"
                ∷ [])
              ∷ [])
            ((text "Team avg closeness") ∷ []))
          ∷ (tag "div" (style ("display: flex; gap: 24" ∷ []) ∷ []) (
              (tag "div" [] (
                (tag "div"
                  (style (
                      "fontFamily: var(--fb); fontSize: 9; color: var(--mid); marginBottom: 4" ∷ [])
                    ∷ [])
                  ((text "Before") ∷ []))
                ∷ (tag "div"
                    (style (
                        "fontFamily: var(--fd); fontSize: 26; fontWeight: 300; color: var(--status-green)"
                        ∷ [])
                      ∷ [])
                    ((text ((n.to_fixed 3 r.baseline_avg_closeness))) ∷ []))
                ∷ []))
              ∷ (tag "div" (style ("alignSelf: center; color: var(--mid); fontSize: 18" ∷ []) ∷ [])
                  ((text "→") ∷ []))
              ∷ (tag "div" [] (
                  (tag "div"
                    (style (
                        "fontFamily: var(--fb); fontSize: 9; color: var(--mid); marginBottom: 4"
                        ∷ [])
                      ∷ [])
                    ((text "After") ∷ []))
                  ∷ (tag "div"
                      (style (
                          "fontFamily: var(--fd); fontSize: 26; fontWeight: 300"
                          ∷ ("color: " <> (drop_color r.closeness_drop_pct))
                          ∷ [])
                        ∷ [])
                      ((text ((n.to_fixed 3 r.post_removal_avg_closeness))) ∷ []))
                  ∷ []))
              ∷ []))
          ∷ [])

  -- The components before and after.
  unfoldable pub fragmentation : AttritionResult F → Html AttritionEvent
  fragmentation r =
      tag "div"
        (style (
            "backgroundColor: #ffffff; borderRadius: 12; padding: 24px 28px; boxShadow: 0 1px 4px rgba(0,51,102,0.08); borderTop: 3px solid var(--gold)"
            ∷ [])
          ∷ [])
        ((tag "div"
            (style (
                "fontFamily: var(--fb); fontSize: 9; fontWeight: 700; letterSpacing: 2px; textTransform: uppercase; color: var(--mid); marginBottom: 16"
                ∷ [])
              ∷ [])
            ((text "Graph components") ∷ []))
          ∷ (tag "div" (style ("display: flex; gap: 24" ∷ []) ∷ []) (
              (tag "div" [] (
                (tag "div"
                  (style (
                      "fontFamily: var(--fb); fontSize: 9; color: var(--mid); marginBottom: 4" ∷ [])
                    ∷ [])
                  ((text "Before") ∷ []))
                ∷ (tag "div"
                    (style (
                        "fontFamily: var(--fd); fontSize: 26; fontWeight: 300; color: var(--dark)"
                        ∷ [])
                      ∷ [])
                    ((text ((n.to_text r.baseline_components))) ∷ []))
                ∷ []))
              ∷ (tag "div" (style ("alignSelf: center; color: var(--mid); fontSize: 18" ∷ []) ∷ [])
                  ((text "→") ∷ []))
              ∷ (tag "div" [] (
                  (tag "div"
                    (style (
                        "fontFamily: var(--fb); fontSize: 9; color: var(--mid); marginBottom: 4"
                        ∷ [])
                      ∷ [])
                    ((text "After") ∷ []))
                  ∷ (tag "div"
                      (style (
                          "fontFamily: var(--fd); fontSize: 26; fontWeight: 300"
                          ∷ ("color: "
                              <> (if r.graph_fragmented
                                  then "var(--status-red)"
                                  else "var(--dark)"))
                          ∷ [])
                        ∷ [])
                      ((text ((n.to_text r.post_removal_components))) ∷ []))
                  ∷ []))
              ∷ []))
          ∷ [])

  -- The impacts on the others.
  unfoldable pub impact_list : F → AttritionResult F → Html AttritionEvent
  impact_list mi r =
      tag "div"
        (style (
            "backgroundColor: #ffffff; borderRadius: 12; overflow: hidden; boxShadow: 0 1px 4px rgba(0,51,102,0.08)"
            ∷ [])
          ∷ [])
        ((tag "div" (style ("height: 3; backgroundColor: var(--gold)" ∷ []) ∷ []) [])
          ∷ (tag "div" (style ("padding: 24px 28px" ∷ []) ∷ []) (
              (tag "div"
                (style (
                    "fontFamily: var(--fb); fontSize: 9; fontWeight: 700; letterSpacing: 2px; textTransform: uppercase; color: var(--mid); marginBottom: 20"
                    ∷ [])
                  ∷ [])
                ((text "Individual connectivity loss") ∷ []))
              ∷ (tag "div"
                  (style (
                      "display: grid; gridTemplateColumns: 200px 1fr 80px 80px; gap: 16; padding: 0 4px 10px; borderBottom: 1px solid var(--primary-10); marginBottom: 8"
                      ∷ [])
                    ∷ [])
                  ((each
                      (λ h.
                        tag "div"
                          (style (
                              "fontFamily: var(--fb); fontSize: 8; fontWeight: 700; letterSpacing: 1.5px; textTransform: uppercase; color: var(--mid)"
                              ∷ [])
                            ∷ [])
                          ((text h) ∷ []))
                      (("Engineer" ∷ "Closeness drop" ∷ "Before" ∷ "After" ∷ [])))
                    ∷ []))
              ∷ (each
                  (λ e.
                    tag "div"
                      (style (
                          "display: grid; gridTemplateColumns: 200px 1fr 80px 80px; gap: 16; padding: 10px 4px; borderBottom: 1px solid var(--primary-10); alignItems: center"
                          ∷ [])
                        ∷ [])
                      ((tag "div"
                          (style (
                              "fontFamily: var(--fb); fontSize: 13; color: var(--dark); fontWeight: 500"
                              ∷ [])
                            ∷ [])
                          ((text e.name) ∷ []))
                        ∷ (delta_bar e.closeness_delta_pct mi)
                        ∷ (tag "div"
                            (style (
                                "fontFamily: Courier New, monospace; fontSize: 11; color: var(--mid)"
                                ∷ [])
                              ∷ [])
                            ((text ((n.to_fixed 3 e.closeness_before))) ∷ []))
                        ∷ (tag "div"
                            (style (
                                "fontFamily: Courier New, monospace; fontSize: 11"
                                ∷ ("color: "
                                    <> (if (n.lt (n.lit 10 0) e.closeness_delta_pct)
                                        then "var(--status-red)"
                                        else "var(--mid)"))
                                ∷ [])
                              ∷ [])
                            ((text ((n.to_fixed 3 e.closeness_after))) ∷ []))
                        ∷ []))
                  r.engineer_impacts)
              ∷ []))
          ∷ [])
