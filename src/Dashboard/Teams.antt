-- ===== src/Dashboard/Teams.antt =====
-- apps/web/app/dashboard/page.tsx: the health of a team.
use socio_technical_alignmen.Api.Client.{◌<>◌}
use socio_technical_alignmen.Html.{Html, attr, style, tag, text, when}
use socio_technical_alignmen.Loading.{TeamHealth, health_color}
use socio_technical_alignmen.Number.{Number}
use socio_technical_alignmen.Prelude.{[], if◌then◌else◌, not, str_eq, ◌∷◌}

-- The links of a team.
unfoldable pub health_actions : {A : Type 0} → {F : Type 0} → TeamHealth F → Html A
health_actions h = tag "div" (style ("display: flex; gap: 8; marginTop: 16" ∷ []) ∷ []) (
    (tag "Link"
      (attr "href" ("/teams/" <> h.team_id)
        ∷ style (
            "flex: 1; fontFamily: var(--fb); fontSize: 9; fontWeight: 700; letterSpacing: 2px; textTransform: uppercase; color: var(--primary); textDecoration: none; border: 1px solid var(--primary-30); borderRadius: 6; padding: 6px 0; textAlign: center"
            ∷ [])
        ∷ [])
      ((text "View Graph") ∷ []))
    ∷ (tag "Link"
        (attr "href" "/simulate"
          ∷ style (
              "flex: 1; fontFamily: var(--fb); fontSize: 9; fontWeight: 700; letterSpacing: 2px; textTransform: uppercase; color: #ffffff; textDecoration: none; backgroundColor: var(--primary); borderRadius: 6; padding: 6px 0; textAlign: center"
              ∷ [])
          ∷ [])
        ((text "Simulate →") ∷ []))
    ∷ [])

module _ {F : Type 0} ⦃n : Number F⦄ where
  -- `barPct`.
  unfoldable pub bar_pct : F → F
  bar_pct avg = n.round (n.mul (n.min (n.lit 1 0) avg) (n.lit 100 0))

  -- The status of a team and its hub.
  unfoldable pub health_status : {A : Type 0} → TeamHealth F → Html A
  health_status h =
      tag "div"
        (style ("display: flex; justifyContent: space-between; alignItems: center" ∷ []) ∷ [])
        ((tag "div"
            (style (
                "display: inline-flex; alignItems: center; gap: 5"
                ∷ ("backgroundColor: "
                    <> (if (str_eq (health_color h.avg_closeness).fill "#27B97C")
                        then "#E0F7EF"
                        else (if (str_eq (health_color h.avg_closeness).fill "#F07020")
                            then "#FEF0E6"
                            else "#FDEAEA")))
                ∷ "borderRadius: 20; padding: 3px 10px"
                ∷ [])
              ∷ [])
            ((tag "div"
                (style (
                    "width: 6; height: 6; borderRadius: 50%"
                    ∷ ("backgroundColor: " <> (health_color h.avg_closeness).fill)
                    ∷ [])
                  ∷ [])
                [])
              ∷ (tag "span"
                  (style (
                      "fontFamily: var(--fb); fontSize: 9; fontWeight: 600"
                      ∷ ("color: "
                          <> (if (str_eq (health_color h.avg_closeness).fill "#27B97C")
                              then "#0D5C3A"
                              else (if (str_eq (health_color h.avg_closeness).fill "#F07020")
                                  then "#7A3800"
                                  else "#7A1020")))
                      ∷ "textTransform: uppercase; letterSpacing: 1px"
                      ∷ [])
                    ∷ [])
                  ((text ((health_color h.avg_closeness).label)) ∷ []))
              ∷ []))
          ∷ (when ((not (str_eq h.top_hub "—"))) (
              tag "div" (style ("fontFamily: var(--fb); fontSize: 10; color: var(--mid)" ∷ []) ∷ [])
                ((text "Hub: ")
                  ∷ (tag "strong" (style ("color: var(--primary)" ∷ []) ∷ [])
                      ((text h.top_hub) ∷ []))
                  ∷ [])))
          ∷ [])

  -- The card of a team.
  unfoldable pub health_card : {A : Type 0} → TeamHealth F → Html A
  health_card h =
      tag "div"
        (style (
            "backgroundColor: #ffffff; borderRadius: 12; overflow: hidden; boxShadow: 0 1px 4px rgba(0,51,102,0.08)"
            ∷ [])
          ∷ [])
        ((tag "div" (style ("height: 3; backgroundColor: var(--gold)" ∷ []) ∷ []) [])
          ∷ (tag "div" (style ("padding: 22px 24px" ∷ []) ∷ []) (
              (tag "div"
                (style (
                    "width: 28; height: 3; backgroundColor: var(--gold); borderRadius: 2; margin: 6px 0 12px"
                    ∷ [])
                  ∷ [])
                [])
              ∷ (tag "div"
                  (style (
                      "fontFamily: 'Fraunces', Georgia, serif; fontSize: 18; fontWeight: 400; color: #0a1628; marginBottom: 14"
                      ∷ [])
                    ∷ [])
                  ((text h.team_id) ∷ []))
              ∷ (tag "div" (style ("display: flex; gap: 16; marginBottom: 16" ∷ []) ∷ []) (
                  (tag "div" [] (
                    (tag "div"
                      (style (
                          "fontFamily: var(--fb); fontSize: 9; fontWeight: 700; letterSpacing: 2px; textTransform: uppercase; color: var(--mid); marginBottom: 2"
                          ∷ [])
                        ∷ [])
                      ((text "Engineers") ∷ []))
                    ∷ (tag "div"
                        (style (
                            "fontFamily: 'Fraunces', Georgia, serif; fontSize: 22; fontWeight: 300; color: var(--dark)"
                            ∷ [])
                          ∷ [])
                        ((text ((n.to_text (n.lit h.engineer_count 0)))) ∷ []))
                    ∷ []))
                  ∷ (tag "div" [] (
                      (tag "div"
                        (style (
                            "fontFamily: var(--fb); fontSize: 9; fontWeight: 700; letterSpacing: 2px; textTransform: uppercase; color: var(--mid); marginBottom: 2"
                            ∷ [])
                          ∷ [])
                        ((text "Avg closeness") ∷ []))
                      ∷ (tag "div"
                          (style (
                              "fontFamily: 'Fraunces', Georgia, serif; fontSize: 22; fontWeight: 300"
                              ∷ ("color: " <> (health_color h.avg_closeness).fill)
                              ∷ [])
                            ∷ [])
                          ((text ((n.to_fixed 3 h.avg_closeness))) ∷ []))
                      ∷ []))
                  ∷ []))
              ∷ (tag "div"
                  (style (
                      "backgroundColor: var(--primary-10); borderRadius: 4; height: 5; marginBottom: 8; overflow: hidden"
                      ∷ [])
                    ∷ [])
                  ((tag "div"
                      (style (
                          ("width: " <> ((n.to_text (bar_pct h.avg_closeness)) <> "%"))
                          ∷ "height: 100%"
                          ∷ ("backgroundColor: " <> (health_color h.avg_closeness).fill)
                          ∷ "borderRadius: 4"
                          ∷ [])
                        ∷ [])
                      [])
                    ∷ []))
              ∷ (health_status h)
              ∷ (health_actions h)
              ∷ []))
          ∷ [])
