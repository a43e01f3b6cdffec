-- ===== src/Risk/Metrics.antt =====
-- apps/web/app/risk/page.tsx: the metrics of a team.
use socio_technical_alignmen.Api.Client.{◌<>◌}
use socio_technical_alignmen.Attrition.{resilience_color, resilience_label, resilience_text}
use socio_technical_alignmen.Html.{Html, choose, each, style, tag, text}
use socio_technical_alignmen.Number.{Number}
use socio_technical_alignmen.Prelude.{String, [], if◌then◌else◌, leb, not, ◌==◌, ◌∷◌}
use socio_technical_alignmen.Risk.{TeamRisk}

module _ {F : Type 0} ⦃n : Number F⦄ where
  -- The key metrics.
  unfoldable pub metrics_row : TeamRisk F → Html String
  metrics_row r =
      tag "div" (style ("display: grid; gridTemplateColumns: repeat(4, 1fr); gap: 20" ∷ []) ∷ []) (
        (tag "div"
          (style (
              "backgroundColor: #ffffff; borderRadius: 12; padding: 24px 28px; boxShadow: 0 1px 4px rgba(0,51,102,0.08); borderTop: 3px solid var(--gold)"
              ∷ [])
            ∷ [])
          ((tag "div"
              (style (
                  "fontFamily: var(--fb); fontSize: 9; fontWeight: 700; letterSpacing: 2px; textTransform: uppercase; color: var(--mid); marginBottom: 12"
                  ∷ [])
                ∷ [])
              ((text "Resilience score") ∷ []))
            ∷ (tag "div"
                (style (
                    "height: 6; backgroundColor: var(--primary-10); borderRadius: 3; overflow: hidden; marginBottom: 12"
                    ∷ [])
                  ∷ [])
                ((tag "div"
                    (style (
                        ("width: " <> ((n.to_text (n.mul r.resilience_score (n.lit 100 0))) <> "%"))
                        ∷ "height: 100%"
                        ∷ ("backgroundColor: " <> (resilience_color r.resilience_score))
                        ∷ "borderRadius: 3; transition: width 0.6s ease"
                        ∷ [])
                      ∷ [])
                    [])
                  ∷ []))
            ∷ (tag "div"
                (style (
                    "fontFamily: var(--fd); fontSize: 34; fontWeight: 300"
                    ∷ ("color: " <> (resilience_color r.resilience_score))
                    ∷ "lineHeight: 1; marginBottom: 6"
                    ∷ [])
                  ∷ [])
                ((text ((n.to_fixed 0 (n.mul r.resilience_score (n.lit 100 0)))))
                  ∷ (tag "span" (style ("fontSize: 18" ∷ []) ∷ []) ((text "/100") ∷ []))
                  ∷ []))
            ∷ (tag "div"
                (style (
                    "display: inline-flex; alignItems: center; gap: 4"
                    ∷ ("backgroundColor: "
                        <> (if (n.le (n.lit 8 1) r.resilience_score)
                            then "#e0f7ef"
                            else (if (n.le (n.lit 6 1) r.resilience_score)
                                then "#fff9e6"
                                else (if (n.le (n.lit 4 1) r.resilience_score)
                                    then "#fef0e6"
                                    else "#fdeaea"))))
                    ∷ "borderRadius: 20; padding: 3px 10px"
                    ∷ [])
                  ∷ [])
                ((tag "div"
                    (style (
                        "width: 5; height: 5; borderRadius: 50%"
                        ∷ ("backgroundColor: " <> (resilience_color r.resilience_score))
                        ∷ [])
                      ∷ [])
                    [])
                  ∷ (tag "span"
                      (style (
                          "fontFamily: var(--fb); fontSize: 8; fontWeight: 700; letterSpacing: 1px; textTransform: uppercase"
                          ∷ ("color: " <> (resilience_color r.resilience_score))
                          ∷ [])
                        ∷ [])
                      ((text ((resilience_text (resilience_label r.resilience_score)))) ∷ []))
                  ∷ []))
            ∷ []))
        ∷ (tag "div"
            (style (
                "backgroundColor: #ffffff; borderRadius: 12; padding: 24px 28px; boxShadow: 0 1px 4px rgba(0,51,102,0.08); borderTop: 3px solid var(--gold)"
                ∷ [])
              ∷ [])
            ((tag "div"
                (style (
                    "fontFamily: var(--fb); fontSize: 9; fontWeight: 700; letterSpacing: 2px; textTransform: uppercase; color: var(--mid); marginBottom: 12"
                    ∷ [])
                  ∷ [])
                ((text "Bus factor") ∷ []))
              ∷ (tag "div"
                  (style (
                      "fontFamily: var(--fd); fontSize: 56; fontWeight: 300"
                      ∷ ("color: "
                          <> (if (r.bus_factor == 0)
                              then "var(--status-green)"
                              else (if (leb r.bus_factor 2)
                                  then "var(--status-orange)"
                                  else "var(--status-red)")))
                      ∷ "lineHeight: 1; marginBottom: 6"
                      ∷ [])
                    ∷ [])
                  ((text ((n.to_text (n.lit r.bus_factor 0)))) ∷ []))
              ∷ (tag "p"
                  (style (
                      "fontFamily: var(--fb); fontSize: 11; color: var(--mid); lineHeight: 1.5"
                      ∷ [])
                    ∷ [])
                  ((choose ((r.bus_factor == 0)) (text ("No single points of failure")) (
                      text (
                        ("engineer"
                          <> (if (not (r.bus_factor == 1)) then "s" else "")
                          <> " whose departure drops connectivity >15%"))))
                    ∷ []))
              ∷ []))
        ∷ (tag "div"
            (style (
                "backgroundColor: #ffffff; borderRadius: 12; padding: 24px 28px; boxShadow: 0 1px 4px rgba(0,51,102,0.08); borderTop: 3px solid var(--gold)"
                ∷ [])
              ∷ [])
            ((tag "div"
                (style (
                    "fontFamily: var(--fb); fontSize: 9; fontWeight: 700; letterSpacing: 2px; textTransform: uppercase; color: var(--mid); marginBottom: 12"
                    ∷ [])
                  ∷ [])
                ((text "Graph density") ∷ []))
              ∷ (tag "div"
                  (style (
                      "height: 6; backgroundColor: var(--primary-10); borderRadius: 3; overflow: hidden; marginBottom: 12"
                      ∷ [])
                    ∷ [])
                  ((tag "div"
                      (style (
                          ("width: " <> ((n.to_text (n.mul r.graph_density (n.lit 100 0))) <> "%"))
                          ∷ "height: 100%; backgroundColor: var(--primary-60); borderRadius: 3"
                          ∷ [])
                        ∷ [])
                      [])
                    ∷ []))
              ∷ (tag "div"
                  (style (
                      "fontFamily: var(--fd); fontSize: 34; fontWeight: 300; color: var(--dark); lineHeight: 1; marginBottom: 4"
                      ∷ [])
                    ∷ [])
                  ((text ((n.to_fixed 1 (n.mul r.graph_density (n.lit 100 0))))) ∷ (text "%") ∷ []))
              ∷ (tag "div"
                  (style ("fontFamily: var(--fb); fontSize: 11; color: var(--mid)" ∷ []) ∷ [])
                  ((text "of possible edges exist") ∷ []))
              ∷ []))
        ∷ (tag "div"
            (style (
                "backgroundColor: #ffffff; borderRadius: 12; padding: 24px 28px; boxShadow: 0 1px 4px rgba(0,51,102,0.08); borderTop: 3px solid var(--gold)"
                ∷ [])
              ∷ [])
            ((tag "div"
                (style (
                    "fontFamily: var(--fb); fontSize: 9; fontWeight: 700; letterSpacing: 2px; textTransform: uppercase; color: var(--mid); marginBottom: 12"
                    ∷ [])
                  ∷ [])
                ((text "Team size") ∷ []))
              ∷ (tag "div"
                  (style (
                      "fontFamily: var(--fd); fontSize: 56; fontWeight: 300; color: var(--dark); lineHeight: 1; marginBottom: 6"
                      ∷ [])
                    ∷ [])
                  ((text ((n.to_text (n.lit r.engineer_count 0)))) ∷ []))
              ∷ (tag "div"
                  (style ("fontFamily: var(--fb); fontSize: 11; color: var(--mid)" ∷ []) ∷ [])
                  ((text "engineers in graph") ∷ []))
              ∷ []))
        ∷ [])

  -- The interpretation of the metrics.
  unfoldable pub guide : TeamRisk F → Html String
  guide r =
      tag "div" (style ("display: grid; gridTemplateColumns: 1fr 1fr 1fr; gap: 16" ∷ []) ∷ []) (
        (each
          (λ (term, desc).
            tag "div"
              (style (
                  "backgroundColor: #ffffff; borderRadius: 10; padding: 16px 20px; boxShadow: 0 1px 4px rgba(0,51,102,0.06); borderLeft: 3px solid var(--gold)"
                  ∷ [])
                ∷ [])
              ((tag "div"
                  (style (
                      "fontFamily: var(--fb); fontSize: 9; fontWeight: 700; letterSpacing: 1.5px; textTransform: uppercase; color: var(--mid); marginBottom: 6"
                      ∷ [])
                    ∷ [])
                  ((text term) ∷ []))
                ∷ (tag "p"
                    (style (
                        "fontFamily: var(--fb); fontSize: 12; color: var(--dark); lineHeight: 1.65"
                        ∷ [])
                      ∷ [])
                    ((text desc) ∷ []))
                ∷ []))
          (((
            "Resilience score",
            "1 − (max removal impact / 100). A score of 100 means no single engineer collapses connectivity. Below 60 is a hiring signal.",
          )
            ∷ (
              "Bus factor",
              "Count of engineers whose departure drops team average closeness by more than 15%. A bus factor of 1 means one resignation triggers a crisis.",
            )
            ∷ (
              "Critical path",
              "Engineers with betweenness centrality above mean + 1σ. They sit on the shortest knowledge paths between the most pairs of colleagues.",
            )
            ∷ [])))
        ∷ [])
