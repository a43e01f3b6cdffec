-- ===== src/Simulator/Results.antt =====
-- apps/web/components/simulator/SimulationResultsPanel.tsx: the panel.
use socio_technical_alignmen.Api.{SimulationResult}
use socio_technical_alignmen.Api.Client.{◌<>◌}
use socio_technical_alignmen.Drag.{slot_name}
use socio_technical_alignmen.Html.{
  Html, attr, children, choose, each, fragment, style, tag, text, when,
}
use socio_technical_alignmen.Number.{Number}
use socio_technical_alignmen.Prelude.{String, [], is_empty, not, str_eq, ◌∷◌}
use socio_technical_alignmen.Report.{ShareEvent, ShareState, badge, panel_gaps, silo_label}
use socio_technical_alignmen.Simulator.Parts.{share_button, slot_color}
use socio_technical_alignmen.Store.Simulation.{Slot}

module _ {F : Type 0} ⦃n : Number F⦄ where
  abbrev panel_ring : {A : Type 0} → Slot → SimulationResult F → Html A
  panel_ring slot r =
      let d = r.closeness_centrality in
      tag "CentralityRingChart"
        (attr "mean" (n.to_text d.mean)
          ∷ attr "low" (n.to_text d.ci_95.0)
          ∷ attr "high" (n.to_text d.ci_95.1)
          ∷ attr "size" "110"
          ∷ attr "slot" (slot_name slot)
          ∷ [])
        []

  -- The ring chart and the figures beside it.
  unfoldable pub panel_kpis : {A : Type 0} → Slot → SimulationResult F → Html A
  panel_kpis slot r =
      tag "div" (style ("display: flex; gap: 18; alignItems: center; marginBottom: 14" ∷ []) ∷ []) (
        (panel_ring slot r)
        ∷ (tag "div" (style ("flex: 1; minWidth: 0" ∷ []) ∷ []) (
            (tag "div" (style ("marginBottom: 12" ∷ []) ∷ []) (
              (tag "div"
                (style (
                    "fontFamily: var(--fb); fontSize: 9; fontWeight: 700; letterSpacing: 3px; textTransform: uppercase; color: var(--mid); marginBottom: 2"
                    ∷ [])
                  ∷ [])
                ((text "Time to Value") ∷ []))
              ∷ (tag "div" (style ("display: flex; alignItems: baseline; gap: 4" ∷ []) ∷ []) (
                  (tag "span"
                    (style (
                        "fontFamily: 'Fraunces', Georgia, serif; fontSize: 26; fontWeight: 300; color: var(--dark); lineHeight: 1"
                        ∷ [])
                      ∷ [])
                    ((text ((n.to_fixed 1 r.time_to_value_weeks.mean))) ∷ []))
                  ∷ (tag "span"
                      (style ("fontFamily: var(--fb); fontSize: 11; color: var(--mid)" ∷ []) ∷ [])
                      ((text "wks") ∷ []))
                  ∷ []))
              ∷ (tag "div"
                  (style
                      ("fontFamily: var(--fb); fontSize: 10; color: var(--mid); marginTop: 2" ∷ [])
                    ∷ [])
                  ((text "95% CI [")
                    ∷ (text ((n.to_fixed 1 r.time_to_value_weeks.ci_95.0)))
                    ∷ (text ",")
                    ∷ (text (" "))
                    ∷ (text ((n.to_fixed 1 r.time_to_value_weeks.ci_95.1)))
                    ∷ (text "]")
                    ∷ []))
              ∷ []))
            ∷ (tag "div"
                (style (
                    "display: inline-flex; alignItems: center; gap: 6"
                    ∷ ("backgroundColor: " <> (badge (silo_label r.silo_risk_score.mean)).bg)
                    ∷ "borderRadius: 20; padding: 4px 12px"
                    ∷ [])
                  ∷ [])
                ((tag "div"
                    (style (
                        "width: 6; height: 6; borderRadius: 50%"
                        ∷ ("backgroundColor: " <> (badge (silo_label r.silo_risk_score.mean)).color)
                        ∷ "flexShrink: 0"
                        ∷ [])
                      ∷ [])
                    [])
                  ∷ (tag "span"
                      (style (
                          "fontFamily: var(--fb); fontSize: 10; fontWeight: 500"
                          ∷ ("color: " <> (badge (silo_label r.silo_risk_score.mean)).color)
                          ∷ "textTransform: uppercase; letterSpacing: 1px"
                          ∷ [])
                        ∷ [])
                      ((text ((badge (silo_label r.silo_risk_score.mean)).label)) ∷ []))
                  ∷ []))
            ∷ []))
        ∷ [])

  -- The panel; without a name, `name` is empty.
  unfoldable pub results_panel : ShareState → Slot → String → SimulationResult F → Html ShareEvent
  results_panel st slot name r =
      tag "div"
        (attr "data-testid" ("simulation-results-" <> (slot_name slot))
          ∷ style (
              "backgroundColor: #ffffff; borderRadius: 12; boxShadow: 0 1px 6px rgba(0,51,102,0.09); overflow: hidden"
              ∷ [])
          ∷ [])
        ((tag "div" (style ("height: 3" ∷ ("backgroundColor: " <> (slot_color slot)) ∷ []) ∷ []) [])
          ∷ (tag "div" (style ("padding: 18px 20px" ∷ []) ∷ []) (
              (tag "div"
                (style ("display: flex; alignItems: center; gap: 8; marginBottom: 16" ∷ []) ∷ [])
                ((tag "div"
                    (style (
                        "width: 8; height: 8; borderRadius: 50%"
                        ∷ ("backgroundColor: " <> (slot_color slot))
                        ∷ "flexShrink: 0"
                        ∷ [])
                      ∷ [])
                    [])
                  ∷ (tag "div"
                      (style (
                          "fontFamily: var(--fb); fontSize: 9; fontWeight: 700; letterSpacing: 3px; textTransform: uppercase"
                          ∷ ("color: " <> (slot_color slot))
                          ∷ [])
                        ∷ [])
                      ((text "Candidate ")
                        ∷ (text ((slot_name slot)))
                        ∷ (choose ((not (str_eq name ""))) (text ((" · " <> name))) (text ("")))
                        ∷ []))
                  ∷ []))
              ∷ (panel_kpis slot r)
              ∷ (tag "div"
                  (style (
                      "fontFamily: var(--fb); fontSize: 10; color: var(--mid); marginBottom: 14"
                      ∷ [])
                    ∷ [])
                  ((text "Closeness 95% CI [")
                    ∷ (text ((n.to_fixed 3 r.closeness_centrality.ci_95.0)))
                    ∷ (text ",")
                    ∷ (text (" "))
                    ∷ (text ((n.to_fixed 3 r.closeness_centrality.ci_95.1)))
                    ∷ (text "] · σ")
                    ∷ (text (" "))
                    ∷ (text ((n.to_fixed 4 r.closeness_centrality.std)))
                    ∷ []))
              ∷ (when ((not (is_empty (panel_gaps r)))) (
                  fragment (
                    children (
                      (tag "div"
                        (style ("display: flex; alignItems: center; gap: 8; marginBottom: 8" ∷ [])
                          ∷ [])
                        ((tag "div"
                            (style (
                                "width: 24; height: 1; backgroundColor: var(--gold); flexShrink: 0"
                                ∷ [])
                              ∷ [])
                            [])
                          ∷ (tag "div"
                              (style (
                                  "fontFamily: var(--fb); fontSize: 9; fontWeight: 700; letterSpacing: 3px; textTransform: uppercase; color: var(--gold)"
                                  ∷ [])
                                ∷ [])
                              ((text "Skill gaps covered") ∷ []))
                          ∷ []))
                      ∷ (tag "div" (style ("display: flex; flexWrap: wrap; gap: 6" ∷ []) ∷ []) (
                          (each
                            (λ g.
                              tag "span"
                                (style (
                                    "fontFamily: var(--fb); fontSize: 10; fontWeight: 500; color: #0D5C3A; backgroundColor: #E0F7EF; borderRadius: 20; padding: 3px 10px"
                                    ∷ [])
                                  ∷ [])
                                ((text g.skill)
                                  ∷ (text " +")
                                  ∷ (text ((n.to_fixed 0 (n.mul g.coverage_delta (n.lit 100 0)))))
                                  ∷ (text "%")
                                  ∷ []))
                            ((panel_gaps r)))
                          ∷ []))
                      ∷ []))))
              ∷ (tag "div" (style ("marginTop: 16" ∷ []) ∷ []) ((share_button st) ∷ []))
              ∷ []))
          ∷ [])
