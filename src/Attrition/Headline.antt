-- ===== src/Attrition/Headline.antt =====
-- apps/web/app/attrition/page.tsx: the head of a result.
use socio_technical_alignmen.Api.Client.{◌<>◌}
use socio_technical_alignmen.Attrition.{AttritionEvent, AttritionResult, drop_color, drop_label}
use socio_technical_alignmen.Attrition.Parts.{seniority_badge}
use socio_technical_alignmen.Html.{Html, choose, each, style, tag, text, when}
use socio_technical_alignmen.Number.{Number}
use socio_technical_alignmen.Prelude.{[], if◌then◌else◌, length, ltb, take, ◌-◌, ◌∷◌}

module _ {F : Type 0} ⦃n : Number F⦄ where
  -- The warning of a team that falls apart.
  unfoldable pub fragmentation_warning : AttritionResult F → Html AttritionEvent
  fragmentation_warning r =
      tag "div"
        (style (
            "backgroundColor: #fdeaea; borderLeft: 4px solid var(--status-red); borderRadius: 0 8px 8px 0; padding: 16px 20px; display: flex; alignItems: flex-start; gap: 12"
            ∷ [])
          ∷ [])
        ((tag "div"
            (style (
                "width: 8; height: 8; borderRadius: 50%; backgroundColor: var(--status-red); marginTop: 3; flexShrink: 0"
                ∷ [])
              ∷ [])
            [])
          ∷ (tag "div" [] (
              (tag "div"
                (style (
                    "fontFamily: var(--fb); fontSize: 11; fontWeight: 700; color: #7a1020; letterSpacing: 1px; textTransform: uppercase; marginBottom: 4"
                    ∷ [])
                  ∷ [])
                ((text "Graph fragmentation") ∷ []))
              ∷ (tag "p"
                  (style
                      ("fontFamily: var(--fb); fontSize: 12; color: #7a1020; lineHeight: 1.6" ∷ [])
                    ∷ [])
                  ((text "Removing ")
                    ∷ (text r.removed_engineer_name)
                    ∷ (text " splits the team into")
                    ∷ (text (" "))
                    ∷ (text ((n.to_text r.post_removal_components)))
                    ∷ (text " disconnected components (was")
                    ∷ (text (" "))
                    ∷ (text ((n.to_text r.baseline_components)))
                    ∷ (text "). Some engineers will lose all direct collaboration paths.")
                    ∷ []))
              ∷ []))
          ∷ [])

  -- The headline number.
  unfoldable pub impact_number : AttritionResult F → Html AttritionEvent
  impact_number r =
      tag "div"
        (style (
            "backgroundColor: #ffffff; borderRadius: 12; padding: 28px 36px; boxShadow: 0 1px 4px rgba(0,51,102,0.08); borderTop: 3px solid var(--gold); display: flex; flexDirection: column; justifyContent: center; alignItems: center; minWidth: 200"
            ∷ [])
          ∷ [])
        ((tag "div"
            (style (
                "fontFamily: var(--fd); fontSize: 56; fontWeight: 300"
                ∷ ("color: " <> (drop_color r.closeness_drop_pct))
                ∷ "lineHeight: 1; marginBottom: 8"
                ∷ [])
              ∷ [])
            ((choose ((n.lt (n.lit 0 0) r.closeness_drop_pct))
                (text (("−" <> (n.to_fixed 1 r.closeness_drop_pct) <> "%"))) (text ("0%")))
              ∷ []))
          ∷ (tag "div"
              (style (
                  "fontFamily: var(--fb); fontSize: 9; fontWeight: 700; letterSpacing: 2px; textTransform: uppercase; color: var(--mid); marginBottom: 6"
                  ∷ [])
                ∷ [])
              ((text "Connectivity drop") ∷ []))
          ∷ (tag "div"
              (style (
                  "display: inline-flex; alignItems: center; gap: 4"
                  ∷ ("backgroundColor: "
                      <> (if (n.le (n.lit 20 0) r.closeness_drop_pct)
                          then "#fdeaea"
                          else (if (n.le (n.lit 10 0) r.closeness_drop_pct)
                              then "#fef0e6"
                              else "#e0f7ef")))
                  ∷ "borderRadius: 20; padding: 3px 10px"
                  ∷ [])
                ∷ [])
              ((tag "div"
                  (style (
                      "width: 6; height: 6; borderRadius: 50%"
                      ∷ ("backgroundColor: " <> (drop_color r.closeness_drop_pct))
                      ∷ [])
                    ∷ [])
                  [])
                ∷ (tag "span"
                    (style (
                        "fontFamily: var(--fb); fontSize: 8; fontWeight: 700; letterSpacing: 1px; textTransform: uppercase"
                        ∷ ("color: " <> (drop_color r.closeness_drop_pct))
                        ∷ [])
                      ∷ [])
                    ((text ((drop_label r.closeness_drop_pct))) ∷ []))
                ∷ []))
          ∷ [])

  -- The engineer who leaves.
  unfoldable pub engineer_details : AttritionResult F → Html AttritionEvent
  engineer_details r =
      tag "div"
        (style (
            "backgroundColor: #ffffff; borderRadius: 12; padding: 24px 28px; boxShadow: 0 1px 4px rgba(0,51,102,0.08); borderTop: 3px solid var(--gold)"
            ∷ [])
          ∷ [])
        ((tag "div"
            (style (
                "fontFamily: var(--fb); fontSize: 9; fontWeight: 700; letterSpacing: 2px; textTransform: uppercase; color: var(--mid); marginBottom: 10"
                ∷ [])
              ∷ [])
            ((text "Engineer leaving") ∷ []))
          ∷ (tag "div"
              (style (
                  "fontFamily: var(--fd); fontSize: 22; fontWeight: 400; color: var(--dark); marginBottom: 8"
                  ∷ [])
                ∷ [])
              ((text r.removed_engineer_name) ∷ []))
          ∷ (tag "div" (style ("marginBottom: 12" ∷ []) ∷ [])
              ((seniority_badge r.removed_engineer_seniority) ∷ []))
          ∷ (tag "div" (style ("display: flex; flexWrap: wrap; gap: 4" ∷ []) ∷ []) (
              (each
                (λ k.
                  tag "span"
                    (style (
                        "fontFamily: var(--fb); fontSize: 10; color: var(--primary-60); backgroundColor: var(--primary-10); borderRadius: 4; padding: 2px 7px"
                        ∷ [])
                      ∷ [])
                    ((text k) ∷ []))
                ((take 6 r.removed_engineer_skills)))
              ∷ (when ((ltb 6 (length r.removed_engineer_skills))) (
                  tag "span"
                    (style (
                        "fontFamily: var(--fb); fontSize: 10; color: var(--mid); padding: 2px 4px"
                        ∷ [])
                      ∷ [])
                    ((text "+")
                      ∷ (text ((n.to_text (n.lit (length r.removed_engineer_skills - 6) 0))))
                      ∷ (text " more")
                      ∷ [])))
              ∷ []))
          ∷ [])
