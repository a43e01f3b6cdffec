-- ===== src/Risk/Table.antt =====
-- apps/web/app/risk/page.tsx: the bars and the table of engineers.
use socio_technical_alignmen.Api.Client.{◌<>◌}
use socio_technical_alignmen.Html.{Html, attr, each, each_at, style, tag, text, when}
use socio_technical_alignmen.Number.{Number}
use socio_technical_alignmen.Prelude.{
  String, [], if◌then◌else◌, length, ltb, take, ℕ, ◌&&◌, ◌-◌, ◌==◌, ◌∷◌,
}
use socio_technical_alignmen.Risk.{EngineerRisk, TeamRisk, seniority_color}

module _ {F : Type 0} ⦃n : Number F⦄ where
  unfoldable pub impact_color : F → String
  impact_color pct =
      if n.le (n.lit 20 0) pct
      then "var(--status-red)"
      else if n.le (n.lit 10 0) pct
      then "var(--status-orange)"
      else if n.le (n.lit 5 0) pct
      then "#e8a020"
      else "var(--status-green)"

  -- The filled part of a bar, in percent.
  unfoldable pub bar_fill : F → F → F
  bar_fill amount mx =
      if n.lt (n.lit 0 0) mx
      then n.mul (n.min (n.lit 1 0) (n.div amount mx)) (n.lit 100 0)
      else n.lit 0 0

  -- `HBar`.
  unfoldable pub h_bar : {A : Type 0} → F → F → String → F → Html A
  h_bar amount mx color width =
      tag "div"
        (style (
            ("width: " <> (n.to_text width))
            ∷ "height: 6; backgroundColor: var(--primary-10); borderRadius: 3; overflow: hidden"
            ∷ [])
          ∷ [])
        ((tag "div"
            (style (
                ("width: " <> ((n.to_text (bar_fill amount mx)) <> "%"))
                ∷ "height: 100%"
                ∷ ("backgroundColor: " <> color)
                ∷ "borderRadius: 3; transition: width 0.4s ease"
                ∷ [])
              ∷ [])
            [])
          ∷ [])

  -- A row of the table, by its place.
  unfoldable pub engineer_row : TeamRisk F → F → F → ℕ → EngineerRisk F → Html String
  engineer_row r mi mb idx e =
      tag "div"
        (style (
            "display: grid; gridTemplateColumns: 220px 80px 60px 180px 180px 120px; gap: 16; padding: 12px 32px"
            ∷ ("borderBottom: "
                <> (if (ltb idx (length r.engineers - 1))
                    then "1px solid var(--primary-10)"
                    else "none"))
            ∷ "alignItems: center"
            ∷ ("backgroundColor: "
                <> (if ((idx == 0) && (ltb 0 r.bus_factor))
                    then "rgba(224, 52, 72, 0.03)"
                    else "transparent"))
            ∷ [])
          ∷ [])
        ((tag "div" [] (
            (tag "div"
              (style (
                  "fontFamily: var(--fb); fontSize: 13; color: var(--dark); fontWeight: 500; marginBottom: 2"
                  ∷ [])
                ∷ [])
              ((text e.name) ∷ []))
            ∷ (tag "div" (style ("display: flex; flexWrap: wrap; gap: 3; marginTop: 4" ∷ []) ∷ []) (
                (each
                  (λ k.
                    tag "span"
                      (style (
                          "fontFamily: var(--fb); fontSize: 9; color: var(--primary-60); backgroundColor: var(--primary-10); borderRadius: 3; padding: 1px 5px"
                          ∷ [])
                        ∷ [])
                      ((text k) ∷ []))
                  ((take 4 e.skills)))
                ∷ (when ((ltb 4 (length e.skills))) (
                    tag "span"
                      (style ("fontFamily: var(--fb); fontSize: 9; color: var(--mid)" ∷ []) ∷ [])
                      ((text "+") ∷ (text ((n.to_text (n.lit (length e.skills - 4) 0)))) ∷ [])))
                ∷ []))
            ∷ []))
          ∷ (tag "span"
              (style (
                  "fontFamily: var(--fb); fontSize: 8; fontWeight: 700; letterSpacing: 1px; textTransform: uppercase"
                  ∷ ("color: " <> (seniority_color e.seniority))
                  ∷ [])
                ∷ [])
              ((text e.seniority) ∷ []))
          ∷ (tag "span"
              (style
                  ("fontFamily: var(--fd); fontSize: 18; fontWeight: 300; color: var(--dark)" ∷ [])
                ∷ [])
              ((text ((n.to_text (n.lit e.degree 0)))) ∷ []))
          ∷ (tag "div" (style ("display: flex; flexDirection: column; gap: 4" ∷ []) ∷ []) (
              (h_bar e.betweenness mb
                (if e.is_critical_path then "var(--status-orange)" else "var(--primary-60)")
                (n.lit 160 0))
              ∷ (tag "span"
                  (style
                      ("fontFamily: Courier New, monospace; fontSize: 10; color: var(--mid)" ∷ [])
                    ∷ [])
                  ((text ((n.to_fixed 4 e.betweenness))) ∷ []))
              ∷ []))
          ∷ (tag "div" (style ("display: flex; flexDirection: column; gap: 4" ∷ []) ∷ []) (
              (h_bar e.removal_impact_pct mi (impact_color e.removal_impact_pct) (n.lit 160 0))
              ∷ (tag "span"
                  (style (
                      "fontFamily: Courier New, monospace; fontSize: 10"
                      ∷ ("color: " <> (impact_color e.removal_impact_pct))
                      ∷ ("fontWeight: "
                          <> (if (n.le (n.lit 15 0) e.removal_impact_pct) then "600" else "400"))
                      ∷ [])
                    ∷ [])
                  ((text "−") ∷ (text ((n.to_fixed 1 e.removal_impact_pct))) ∷ (text "%") ∷ []))
              ∷ []))
          ∷ (tag "div"
              (style ("display: flex; flexDirection: column; gap: 6; alignItems: flex-start" ∷ [])
                ∷ [])
              ((when e.is_critical_path (
                  tag "span"
                    (style (
                        "fontFamily: var(--fb); fontSize: 8; fontWeight: 700; letterSpacing: 1px; textTransform: uppercase; color: #7a3800; backgroundColor: #fef0e6; borderRadius: 4; padding: 2px 7px"
                        ∷ [])
                      ∷ [])
                    ((text "Critical path") ∷ [])))
                ∷ (when ((n.le (n.lit 15 0) e.removal_impact_pct)) (
                    tag "span"
                      (style (
                          "fontFamily: var(--fb); fontSize: 8; fontWeight: 700; letterSpacing: 1px; textTransform: uppercase; color: #7a1020; backgroundColor: #fdeaea; borderRadius: 4; padding: 2px 7px"
                          ∷ [])
                        ∷ [])
                      ((text "Bus factor") ∷ [])))
                ∷ (tag "Link"
                    (attr "href" ("/attrition?team=" <> r.team_id <> "&engineer=" <> e.engineer_id)
                      ∷ style (
                          "fontFamily: var(--fb); fontSize: 8; fontWeight: 700; letterSpacing: 1.5px; textTransform: uppercase; color: var(--primary); textDecoration: none; border: 1px solid var(--primary-30); borderRadius: 4; padding: 3px 8px"
                          ∷ [])
                      ∷ [])
                    ((text "Simulate →") ∷ []))
                ∷ []))
          ∷ [])

  -- The table of engineers, with the scales of its bars.
  unfoldable pub engineer_table : TeamRisk F → F → F → Html String
  engineer_table r mi mb =
      tag "div"
        (style (
            "backgroundColor: #ffffff; borderRadius: 12; overflow: hidden; boxShadow: 0 1px 4px rgba(0,51,102,0.08)"
            ∷ [])
          ∷ [])
        ((tag "div" (style ("height: 3; backgroundColor: var(--gold)" ∷ []) ∷ []) [])
          ∷ (tag "div" (style ("padding: 24px 28px 8px" ∷ []) ∷ []) (
              (tag "div"
                (style (
                    "display: flex; justifyContent: space-between; alignItems: baseline; marginBottom: 20"
                    ∷ [])
                  ∷ [])
                ((tag "div"
                    (style (
                        "fontFamily: var(--fb); fontSize: 9; fontWeight: 700; letterSpacing: 2px; textTransform: uppercase; color: var(--mid)"
                        ∷ [])
                      ∷ [])
                    ((text "Engineer risk ranking — sorted by removal impact") ∷ []))
                  ∷ (tag "div"
                      (style ("fontFamily: var(--fb); fontSize: 11; color: var(--mid)" ∷ []) ∷ [])
                      ((text "Critical path = betweenness > mean + 1σ") ∷ []))
                  ∷ []))
              ∷ (tag "div"
                  (style (
                      "display: grid; gridTemplateColumns: 220px 80px 60px 180px 180px 120px; gap: 16; padding: 0 4px 10px; borderBottom: 1px solid var(--primary-10); marginBottom: 4"
                      ∷ [])
                    ∷ [])
                  ((each
                      (λ h.
                        tag "div"
                          (style (
                              "fontFamily: var(--fb); fontSize: 8; fontWeight: 700; letterSpacing: 1.5px; textTransform: uppercase; color: var(--mid)"
                              ∷ [])
                            ∷ [])
                          ((text h) ∷ []))
                      (("Engineer" ∷ "Seniority" ∷ "Edges" ∷ "Betweenness" ∷ "Removal impact" ∷ ""
                        ∷ [])))
                    ∷ []))
              ∷ []))
          ∷ (each_at (λ idx e. engineer_row r mi mb idx e) r.engineers)
          ∷ [])
