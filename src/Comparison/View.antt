-- ===== src/Comparison/View.antt =====
-- apps/web/components/simulator/ComparisonPanel.tsx: what the panel shows.
use socio_technical_alignmen.Api.{SimulationResult}
use socio_technical_alignmen.Api.Client.{◌<>◌}
use socio_technical_alignmen.Comparison.{MetricRowProps, a_wins, b_wins, metric_rows}
use socio_technical_alignmen.Html.{Html, attr, each, style, tag, text, when}
use socio_technical_alignmen.Number.{Number}
use socio_technical_alignmen.Prelude.{Option, String, [], if◌then◌else◌, none, some, ◌∷◌}

abbrev name_or : Option String → String → String
name_or none d = d
name_or (some name) d = name

module _ {F : Type 0} ⦃n : Number F⦄ where
  -- One row; a winner is marked.
  unfoldable pub metric_row : {A : Type 0} → MetricRowProps F → Html A
  metric_row p =
      tag "div"
        (style (
            "display: grid; gridTemplateColumns: 1fr auto 1fr; alignItems: center; gap: 10; padding: 8px 0; borderBottom: 1px solid var(--primary-10)"
            ∷ [])
          ∷ [])
        ((tag "div"
            (style (
                "textAlign: right; display: flex; alignItems: center; justifyContent: flex-end; gap: 4"
                ∷ [])
              ∷ [])
            ((tag "span"
                (style (
                    "fontFamily: 'Fraunces', Georgia, serif; fontSize: 17; fontWeight: 300"
                    ∷ ("color: " <> (if (a_wins p) then "var(--dark)" else "var(--mid)"))
                    ∷ [])
                  ∷ [])
                ((text ((n.to_fixed 3 p.value_a))) ∷ []))
              ∷ (when ((a_wins p)) (
                  tag "span" (style ("fontSize: 9; color: #27B97C; fontWeight: 700" ∷ []) ∷ [])
                    ((text "▲") ∷ [])))
              ∷ []))
          ∷ (tag "div"
              (style (
                  "fontFamily: var(--fb); fontSize: 8; fontWeight: 700; letterSpacing: 2px; textTransform: uppercase; color: var(--mid); textAlign: center; minWidth: 70"
                  ∷ [])
                ∷ [])
              ((text p.label) ∷ []))
          ∷ (tag "div"
              (style ("textAlign: left; display: flex; alignItems: center; gap: 4" ∷ []) ∷ [])
              ((when ((b_wins p)) (
                  tag "span" (style ("fontSize: 9; color: #27B97C; fontWeight: 700" ∷ []) ∷ [])
                    ((text "▲") ∷ [])))
                ∷ (tag "span"
                    (style (
                        "fontFamily: 'Fraunces', Georgia, serif; fontSize: 17; fontWeight: 300"
                        ∷ ("color: " <> (if (b_wins p) then "var(--dark)" else "var(--mid)"))
                        ∷ [])
                      ∷ [])
                    ((text ((n.to_fixed 3 p.value_b))) ∷ []))
                ∷ []))
          ∷ [])

  -- The ring chart of a result, as the element that stands for it.
  abbrev ring_of : {A : Type 0} → String → SimulationResult F → Html A
  ring_of slot r =
      let d = r.closeness_centrality in
      tag "CentralityRingChart"
        (attr "mean" (n.to_text d.mean)
          ∷ attr "low" (n.to_text d.ci_95.0)
          ∷ attr "high" (n.to_text d.ci_95.1)
          ∷ attr "size" "90"
          ∷ attr "slot" slot
          ∷ [])
        []

  -- The panel.
  unfoldable pub comparison_panel :
      {A : Type 0}
      → SimulationResult F
      → SimulationResult F
      → Option String
      → Option String
      → Html A
  comparison_panel a b name_a name_b =
      tag "div"
        (attr "data-testid" "comparison-panel"
          ∷ style (
              "backgroundColor: #ffffff; borderRadius: 12; boxShadow: 0 1px 6px rgba(0,51,102,0.09); overflow: hidden"
              ∷ [])
          ∷ [])
        ((tag "div" (style ("display: flex; height: 3" ∷ []) ∷ []) (
            (tag "div" (style ("flex: 1; backgroundColor: var(--gold)" ∷ []) ∷ []) [])
            ∷ (tag "div" (style ("flex: 1; backgroundColor: var(--primary-60)" ∷ []) ∷ []) [])
            ∷ []))
          ∷ (tag "div" (style ("padding: 18px 20px" ∷ []) ∷ []) (
              (tag "div"
                (style (
                    "fontFamily: var(--fb); fontSize: 9; fontWeight: 700; letterSpacing: 3px; textTransform: uppercase; color: var(--mid); marginBottom: 16; display: flex; alignItems: center; gap: 8"
                    ∷ [])
                  ∷ [])
                ((tag "div" (style ("width: 24; height: 1; backgroundColor: var(--gold)" ∷ []) ∷ [])
                    [])
                  ∷ (text "Head-to-head")
                  ∷ []))
              ∷ (tag "div"
                  (style (
                      "display: grid; gridTemplateColumns: 1fr auto 1fr; gap: 10; marginBottom: 4"
                      ∷ [])
                    ∷ [])
                  ((tag "div"
                      (style (
                          "textAlign: right; fontFamily: var(--fb); fontSize: 9; fontWeight: 700; letterSpacing: 2px; textTransform: uppercase; color: var(--gold)"
                          ∷ [])
                        ∷ [])
                      ((text ((name_or name_a "Candidate A"))) ∷ []))
                    ∷ (tag "div" (style ("minWidth: 70" ∷ []) ∷ []) [])
                    ∷ (tag "div"
                        (style (
                            "textAlign: left; fontFamily: var(--fb); fontSize: 9; fontWeight: 700; letterSpacing: 2px; textTransform: uppercase; color: var(--primary-60)"
                            ∷ [])
                          ∷ [])
                        ((text ((name_or name_b "Candidate B"))) ∷ []))
                    ∷ []))
              ∷ (tag "div"
                  (style (
                      "display: grid; gridTemplateColumns: 1fr 1fr; gap: 12; marginBottom: 16" ∷ [])
                    ∷ [])
                  ((tag "div" (style ("display: flex; justifyContent: flex-end" ∷ []) ∷ [])
                      ((ring_of "A" a) ∷ []))
                    ∷ (tag "div" (style ("display: flex; justifyContent: flex-start" ∷ []) ∷ [])
                        ((ring_of "B" b) ∷ []))
                    ∷ []))
              ∷ (each metric_row (metric_rows a b))
              ∷ []))
          ∷ [])
