-- ===== src/Report/Metrics.antt =====
-- apps/web/app/report/[token]/page.tsx: the metrics of the report.
use socio_technical_alignmen.Api.{MetricDistribution, SimulationResult}
use socio_technical_alignmen.Api.Client.{◌<>◌}
use socio_technical_alignmen.Html.{Html, attr, choose, style, tag, text}
use socio_technical_alignmen.Number.{Number}
use socio_technical_alignmen.Prelude.{String, [], false, if◌then◌else◌, lookup, none, some, ℕ, ◌∷◌}
use socio_technical_alignmen.Report.{badge, silo_label}
use socio_technical_alignmen.Ui.{eyebrow}

-- `MetricDetail`.
unfoldable pub metric_detail : {A : Type 0} → String → String → Html A
metric_detail label shown =
    tag "div"
      (style (
          "display: flex; justifyContent: space-between; alignItems: baseline; paddingBottom: 6; marginBottom: 6; borderBottom: 1px solid var(--primary-10)"
          ∷ [])
        ∷ [])
      ((tag "span" (style ("fontFamily: var(--fb); fontSize: 11; color: var(--mid)" ∷ []) ∷ [])
          ((text label) ∷ []))
        ∷ (tag "span"
            (style (
                "fontFamily: 'Fraunces', Georgia, serif; fontSize: 13; fontWeight: 300; color: var(--dark)"
                ∷ [])
              ∷ [])
            ((text shown) ∷ []))
        ∷ [])

module _ {F : Type 0} ⦃n : Number F⦄ where
  -- An entry of the percentiles, if there is one.
  abbrev percentile : ℕ → String → MetricDistribution F → String
  percentile k name d = elim (lookup name d.percentiles) [ none ↦ "—" | some v ↦ n.to_fixed k v ]

  abbrev ring_of : {A : Type 0} → SimulationResult F → Html A
  ring_of r =
      let d = r.closeness_centrality in
      tag "CentralityRingChart"
        (attr "mean" (n.to_text d.mean)
          ∷ attr "low" (n.to_text d.ci_95.0)
          ∷ attr "high" (n.to_text d.ci_95.1)
          ∷ attr "size" "140"
          ∷ attr "slot" "A"
          ∷ [])
        []

  -- The centrality.
  unfoldable pub centrality : {A : Type 0} → SimulationResult F → Html A
  centrality r =
      tag "div"
        (style (
            "backgroundColor: #ffffff; borderRadius: 12; boxShadow: 0 1px 4px rgba(0,51,102,0.08); overflow: hidden"
            ∷ [])
          ∷ [])
        ((tag "div" (style ("height: 3; backgroundColor: var(--gold)" ∷ []) ∷ []) [])
          ∷ (tag "div" (style ("padding: 24px 28px" ∷ []) ∷ []) (
              (eyebrow false ((text "Closeness Centrality") ∷ []))
              ∷ (tag "div" (style ("display: flex; gap: 24; alignItems: center" ∷ []) ∷ []) (
                  (ring_of r)
                  ∷ (tag "div" [] (
                      (metric_detail "Mean" (n.to_fixed 4 r.closeness_centrality.mean))
                      ∷ (metric_detail "Std dev" (n.to_fixed 4 r.closeness_centrality.std))
                      ∷ (metric_detail "95% CI" (
                          "["
                          <> (n.to_fixed 3 r.closeness_centrality.ci_95.0)
                          <> ", "
                          <> (n.to_fixed 3 r.closeness_centrality.ci_95.1)
                          <> "]"))
                      ∷ (metric_detail "p50" (percentile 4 "p50" r.closeness_centrality))
                      ∷ (metric_detail "p95" (percentile 4 "p95" r.closeness_centrality))
                      ∷ []))
                  ∷ []))
              ∷ []))
          ∷ [])

  -- The time to value.
  unfoldable pub time_to_value : {A : Type 0} → SimulationResult F → Html A
  time_to_value r =
      tag "div"
        (style (
            "backgroundColor: #ffffff; borderRadius: 12; boxShadow: 0 1px 4px rgba(0,51,102,0.08); overflow: hidden"
            ∷ [])
          ∷ [])
        ((tag "div" (style ("height: 3; backgroundColor: var(--gold)" ∷ []) ∷ []) [])
          ∷ (tag "div" (style ("padding: 24px 28px" ∷ []) ∷ []) (
              (eyebrow false ((text "Time to Value") ∷ []))
              ∷ (tag "div"
                  (style (
                      "display: flex; alignItems: baseline; gap: 6; marginBottom: 16; marginTop: 8"
                      ∷ [])
                    ∷ [])
                  ((tag "span"
                      (style (
                          "fontFamily: 'Fraunces', Georgia, serif; fontSize: 52; fontWeight: 300; color: var(--dark); lineHeight: 1"
                          ∷ [])
                        ∷ [])
                      ((text ((n.to_fixed 1 r.time_to_value_weeks.mean))) ∷ []))
                    ∷ (tag "span"
                        (style ("fontFamily: var(--fb); fontSize: 16; color: var(--mid)" ∷ []) ∷ [])
                        ((text "weeks") ∷ []))
                    ∷ []))
              ∷ (metric_detail "95% CI" (
                  "["
                  <> (n.to_fixed 1 r.time_to_value_weeks.ci_95.0)
                  <> ", "
                  <> (n.to_fixed 1 r.time_to_value_weeks.ci_95.1)
                  <> "] wks"))
              ∷ (metric_detail "Std dev" ((n.to_fixed 2 r.time_to_value_weeks.std) <> " wks"))
              ∷ (metric_detail "Best case (p5)"
                  ((percentile 1 "p5" r.time_to_value_weeks) <> " wks"))
              ∷ (metric_detail "Worst case (p95)"
                  ((percentile 1 "p95" r.time_to_value_weeks) <> " wks"))
              ∷ []))
          ∷ [])

  -- The silo risk.
  unfoldable pub silo_risk : {A : Type 0} → SimulationResult F → Html A
  silo_risk r =
      tag "div"
        (style (
            "backgroundColor: #ffffff; borderRadius: 12; boxShadow: 0 1px 4px rgba(0,51,102,0.08); overflow: hidden"
            ∷ [])
          ∷ [])
        ((tag "div" (style ("height: 3; backgroundColor: var(--gold)" ∷ []) ∷ []) [])
          ∷ (tag "div" (style ("padding: 24px 28px" ∷ []) ∷ []) (
              (eyebrow false ((text "Silo Risk") ∷ []))
              ∷ (tag "div"
                  (style (
                      "display: inline-flex; alignItems: center; gap: 8"
                      ∷ ("backgroundColor: " <> (badge (silo_label r.silo_risk_score.mean)).bg)
                      ∷ "borderRadius: 20; padding: 6px 16px; marginBottom: 14; marginTop: 4"
                      ∷ [])
                    ∷ [])
                  ((tag "div"
                      (style (
                          "width: 8; height: 8; borderRadius: 50%"
                          ∷ ("backgroundColor: "
                              <> (badge (silo_label r.silo_risk_score.mean)).color)
                          ∷ "flexShrink: 0"
                          ∷ [])
                        ∷ [])
                      [])
                    ∷ (tag "span"
                        (style (
                            "fontFamily: var(--fb); fontSize: 12; fontWeight: 600"
                            ∷ ("color: " <> (badge (silo_label r.silo_risk_score.mean)).color)
                            ∷ "textTransform: uppercase; letterSpacing: 1px"
                            ∷ [])
                          ∷ [])
                        ((text ((badge (silo_label r.silo_risk_score.mean)).label)) ∷ []))
                    ∷ []))
              ∷ (tag "div"
                  (style (
                      "backgroundColor: var(--primary-10); borderRadius: 4; height: 6; overflow: hidden; marginBottom: 12"
                      ∷ [])
                    ∷ [])
                  ((tag "div"
                      (style (
                          ("width: "
                            <> ((n.to_text (n.round (n.mul r.silo_risk_score.mean (n.lit 100 0))))
                                <> "%"))
                          ∷ "height: 100%"
                          ∷ ("backgroundColor: "
                              <> (badge (silo_label r.silo_risk_score.mean)).color)
                          ∷ "borderRadius: 4"
                          ∷ [])
                        ∷ [])
                      [])
                    ∷ []))
              ∷ (metric_detail "Mean score" (n.to_fixed 3 r.silo_risk_score.mean))
              ∷ (metric_detail "95% CI" (
                  "["
                  <> (n.to_fixed 3 r.silo_risk_score.ci_95.0)
                  <> ", "
                  <> (n.to_fixed 3 r.silo_risk_score.ci_95.1)
                  <> "]"))
              ∷ []))
          ∷ [])

  -- The betweenness.
  unfoldable pub betweenness : {A : Type 0} → SimulationResult F → Html A
  betweenness r =
      tag "div"
        (style (
            "backgroundColor: #ffffff; borderRadius: 12; boxShadow: 0 1px 4px rgba(0,51,102,0.08); overflow: hidden"
            ∷ [])
          ∷ [])
        ((tag "div" (style ("height: 3; backgroundColor: var(--gold)" ∷ []) ∷ []) [])
          ∷ (tag "div" (style ("padding: 24px 28px" ∷ []) ∷ []) (
              (eyebrow false ((text "Betweenness Delta") ∷ []))
              ∷ (tag "div"
                  (style (
                      "display: flex; alignItems: baseline; gap: 6; marginBottom: 16; marginTop: 8"
                      ∷ [])
                    ∷ [])
                  ((tag "span"
                      (style (
                          "fontFamily: 'Fraunces', Georgia, serif; fontSize: 42; fontWeight: 300"
                          ∷ ("color: "
                              <> (if (n.le (n.lit 0 0) r.betweenness_delta.mean)
                                  then "#0D5C3A"
                                  else "#7A1020"))
                          ∷ "lineHeight: 1"
                          ∷ [])
                        ∷ [])
                      ((choose ((n.le (n.lit 0 0) r.betweenness_delta.mean)) (text ("+"))
                          (text ("")))
                        ∷ (text ((n.to_fixed 3 r.betweenness_delta.mean)))
                        ∷ []))
                    ∷ []))
              ∷ (tag "div"
                  (style (
                      "fontFamily: var(--fb); fontSize: 11; color: var(--mid); lineHeight: 1.55; marginBottom: 12"
                      ∷ [])
                    ∷ [])
                  ((text
                      "Change in team betweenness centrality after candidate insertion. Positive values indicate improved knowledge flow paths across the team graph.")
                    ∷ []))
              ∷ (metric_detail "95% CI" (
                  "["
                  <> (n.to_fixed 3 r.betweenness_delta.ci_95.0)
                  <> ", "
                  <> (n.to_fixed 3 r.betweenness_delta.ci_95.1)
                  <> "]"))
              ∷ []))
          ∷ [])
