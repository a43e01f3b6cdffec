-- ===== src/Report/View.antt =====
-- apps/web/app/report/[token]/page.tsx: the report.
use socio_technical_alignmen.Api.{SimulationResult}
use socio_technical_alignmen.Api.Client.{◌<>◌}
use socio_technical_alignmen.Html.{Html, attr, each, style, tag, text, when}
use socio_technical_alignmen.Number.{Number}
use socio_technical_alignmen.Prelude.{
  List, String, [], false, if◌then◌else◌, is_empty, not, true, ◌∷◌,
}
use socio_technical_alignmen.Prelude.Text.{prefix}
use socio_technical_alignmen.Report.{
  badge, recommendation, recommendation_text, silo_label, top_gaps,
}
use socio_technical_alignmen.Report.Metrics.{betweenness, centrality, silo_risk, time_to_value}
use socio_technical_alignmen.Ui.{NavProps, eyebrow, footer, nav}

module _ {F : Type 0} ⦃n : Number F⦄ where
  abbrev kpis : SimulationResult F → List (String × String)
  kpis r =
      (n.to_fixed 3 r.closeness_centrality.mean, "Closeness centrality")
      ∷ (n.to_fixed 1 r.time_to_value_weeks.mean <> " wks", "Time to value")
      ∷ ((badge (silo_label r.silo_risk_score.mean)).label, "Silo risk")
      ∷ (
        (if n.le (n.lit 0 0) r.betweenness_delta.mean then "+" else "")
            <> n.to_fixed 3 r.betweenness_delta.mean,
        "Betweenness Δ",
      )
      ∷ []

  -- The header.
  unfoldable pub hero : {A : Type 0} → SimulationResult F → Html A
  hero r =
      tag "section"
        (style (
            "backgroundColor: var(--primary)"
            ∷ ("backgroundImage: "
                <> ("linear-gradient(rgba(255,255,255,.025) 1px, transparent 1px),"
                    <> "linear-gradient(90deg, rgba(255,255,255,.025) 1px, transparent 1px)"))
            ∷ "backgroundSize: 48px 48px; padding: 56px 48px 48px"
            ∷ [])
          ∷ [])
        ((tag "div" (style ("maxWidth: 1100; margin: 0 auto" ∷ []) ∷ []) (
            (eyebrow true ((text "Simulation Report") ∷ []))
            ∷ (tag "h1"
                (style (
                    "fontFamily: 'Fraunces', Georgia, serif; fontSize: 36; fontWeight: 300; color: #ffffff; lineHeight: 1.2; marginBottom: 12"
                    ∷ [])
                  ∷ [])
                ((text "Candidate")
                  ∷ (text (" "))
                  ∷ (tag "em" (style ("fontStyle: italic; color: var(--gold-light)" ∷ []) ∷ [])
                      ((text r.candidate_id) ∷ []))
                  ∷ []))
            ∷ (tag "p"
                (style (
                    "fontFamily: var(--fb); fontSize: 14; color: rgba(255,255,255,0.6); lineHeight: 1.75; maxWidth: 600; marginBottom: 28"
                    ∷ [])
                  ∷ [])
                ((text "Monte Carlo simulation across ")
                  ∷ (text ((n.to_locale r.n_iterations)))
                  ∷ (text " iterations against snapshot")
                  ∷ (text (" "))
                  ∷ (tag "span"
                      (style (
                          "color: rgba(255,255,255,0.85); fontFamily: monospace; fontSize: 12" ∷ [])
                        ∷ [])
                      ((text ((prefix 8 r.snapshot_id))) ∷ (text "…") ∷ []))
                  ∷ []))
            ∷ (tag "div" (style ("display: flex; gap: 32; flexWrap: wrap" ∷ []) ∷ []) (
                (each
                  (λ s.
                    tag "div"
                      (style ("borderLeft: 2px solid var(--gold); paddingLeft: 14" ∷ []) ∷ [])
                      ((tag "div"
                          (style (
                              "fontFamily: 'Fraunces', Georgia, serif; fontSize: 18; fontWeight: 300; color: var(--gold-light); lineHeight: 1; marginBottom: 4"
                              ∷ [])
                            ∷ [])
                          ((text s.0) ∷ []))
                        ∷ (tag "div"
                            (style (
                                "fontFamily: var(--fb); fontSize: 11; color: rgba(255,255,255,0.5)"
                                ∷ [])
                              ∷ [])
                            ((text s.1) ∷ []))
                        ∷ []))
                  ((kpis r)))
                ∷ []))
            ∷ []))
          ∷ [])

  -- The gaps that the candidate covers.
  unfoldable pub gap_list : {A : Type 0} → SimulationResult F → Html A
  gap_list r =
      tag "div"
        (style (
            "backgroundColor: #ffffff; borderRadius: 12; boxShadow: 0 1px 4px rgba(0,51,102,0.08); overflow: hidden; marginBottom: 24"
            ∷ [])
          ∷ [])
        ((tag "div" (style ("height: 3; backgroundColor: var(--gold)" ∷ []) ∷ []) [])
          ∷ (tag "div" (style ("padding: 24px 28px" ∷ []) ∷ []) (
              (eyebrow false ((text "Knowledge Gap Coverage") ∷ []))
              ∷ (tag "p"
                  (style (
                      "fontFamily: var(--fb); fontSize: 12; color: var(--mid); lineHeight: 1.6; marginBottom: 16"
                      ∷ [])
                    ∷ [])
                  ((text
                      "Skills this candidate brings that the team currently lacks, with predicted coverage increase.")
                    ∷ []))
              ∷ (tag "div" (style ("display: flex; flexWrap: wrap; gap: 8" ∷ []) ∷ []) (
                  (each
                    (λ g.
                      tag "div"
                        (style ("backgroundColor: #E0F7EF; borderRadius: 8; padding: 8px 14px" ∷ [])
                          ∷ [])
                        ((tag "div"
                            (style (
                                "fontFamily: var(--fb); fontSize: 12; fontWeight: 600; color: #0D5C3A; marginBottom: 2"
                                ∷ [])
                              ∷ [])
                            ((text g.skill) ∷ []))
                          ∷ (tag "div"
                              (style ("fontFamily: var(--fb); fontSize: 10; color: #27B97C" ∷ [])
                                ∷ [])
                              ((text "+")
                                ∷ (text ((n.to_fixed 0 (n.mul g.coverage_delta (n.lit 100 0)))))
                                ∷ (text "% coverage")
                                ∷ []))
                          ∷ []))
                    ((top_gaps r)))
                  ∷ []))
              ∷ []))
          ∷ [])

  -- The recommendation.
  unfoldable pub advice : {A : Type 0} → SimulationResult F → Html A
  advice r =
      tag "div"
        (style (
            "backgroundColor: #ffffff; borderRadius: 12; boxShadow: 0 1px 4px rgba(0,51,102,0.08); overflow: hidden; marginBottom: 24"
            ∷ [])
          ∷ [])
        ((tag "div" (style ("height: 3; backgroundColor: var(--gold)" ∷ []) ∷ []) [])
          ∷ (tag "div" (style ("padding: 24px 28px" ∷ []) ∷ []) (
              (eyebrow false ((text "Recommendation") ∷ []))
              ∷ (tag "p"
                  (style (
                      "fontFamily: 'Fraunces', Georgia, serif; fontSize: 18; fontWeight: 300; color: var(--dark); lineHeight: 1.6; marginTop: 8"
                      ∷ [])
                    ∷ [])
                  ((text ((recommendation_text (recommendation r)))) ∷ []))
              ∷ []))
          ∷ [])

  -- The closing line.
  unfoldable pub callout : {A : Type 0} → SimulationResult F → Html A
  callout r =
      tag "div"
        (style (
            "display: flex; gap: 16; alignItems: center; justifyContent: space-between; flexWrap: wrap"
            ∷ [])
          ∷ [])
        ((tag "div"
            (style ("fontFamily: var(--fb); fontSize: 11; color: var(--mid); lineHeight: 1.55" ∷ [])
              ∷ [])
            ((text "Simulation ID:")
              ∷ (text (" "))
              ∷ (tag "span"
                  (style ("fontFamily: monospace; fontSize: 11; color: var(--dark)" ∷ []) ∷ [])
                  ((text r.result_id) ∷ []))
              ∷ (text (" "))
              ∷ (text "· ")
              ∷ (text ((n.to_locale r.n_iterations)))
              ∷ (text " iterations · seed ")
              ∷ (text ((n.to_text r.seed)))
              ∷ []))
          ∷ (tag "Link" (attr "href" "/simulate" ∷ style ("textDecoration: none" ∷ []) ∷ []) (
              (tag "div"
                (style (
                    "display: inline-flex; alignItems: center; gap: 8; backgroundColor: var(--primary); color: #ffffff; fontFamily: var(--fb); fontSize: 10; fontWeight: 700; letterSpacing: 2px; textTransform: uppercase; padding: 10px 20px; borderRadius: 8"
                    ∷ [])
                  ∷ [])
                ((text "Run New Simulation →") ∷ []))
              ∷ []))
          ∷ [])

  -- The page.
  unfoldable pub report_page : {A : Type 0} → NavProps → String → SimulationResult F → Html A
  report_page props date r =
      tag "main" (style ("minHeight: 100vh; display: flex; flexDirection: column" ∷ []) ∷ []) (
        (nav props)
        ∷ (hero r)
        ∷ (tag "section"
            (style ("maxWidth: 1100; margin: 0 auto; padding: 56px 48px; flex: 1; width: 100%" ∷ [])
              ∷ [])
            ((tag "div"
                (style
                    ("display: grid; gridTemplateColumns: 1fr 1fr; gap: 24; marginBottom: 24" ∷ [])
                  ∷ [])
                ((centrality r) ∷ (time_to_value r) ∷ (silo_risk r) ∷ (betweenness r) ∷ []))
              ∷ (when ((not (is_empty (top_gaps r)))) (gap_list r))
              ∷ (advice r)
              ∷ (callout r)
              ∷ []))
        ∷ (footer date)
        ∷ [])
