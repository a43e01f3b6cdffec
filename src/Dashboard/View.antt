-- ===== src/Dashboard/View.antt =====
-- apps/web/app/dashboard/page.tsx: the page.
use socio_technical_alignmen.Api.Client.{◌<>◌}
use socio_technical_alignmen.Dashboard.{DashboardProps, engineers_total}
use socio_technical_alignmen.Dashboard.Candidates.{recent_candidates}
use socio_technical_alignmen.Dashboard.Teams.{health_card}
use socio_technical_alignmen.Html.{Html, attr, choose, each, style, tag, text, when}
use socio_technical_alignmen.Number.{Number}
use socio_technical_alignmen.Prelude.{List, String, [], false, is_empty, length, not, ◌∷◌}
use socio_technical_alignmen.Ui.{NavProps, eyebrow, footer, nav, section_title}

-- The quick actions.
unfoldable pub quick_actions : {A : Type 0} → Html A
quick_actions =
    tag "section"
      (style ("maxWidth: 1300; margin: 0 auto; padding: 48px 48px 0; width: 100%" ∷ []) ∷ [])
      ((tag "div" (style ("display: flex; gap: 12" ∷ []) ∷ []) (
          (tag "Link" (attr "href" "/simulate" ∷ style ("textDecoration: none" ∷ []) ∷ []) (
            (tag "div"
              (style (
                  "backgroundColor: var(--primary); color: #ffffff; fontFamily: var(--fb); fontSize: 10; fontWeight: 700; letterSpacing: 2px; textTransform: uppercase; padding: 10px 20px; borderRadius: 8; cursor: pointer"
                  ∷ [])
                ∷ [])
              ((text "Run Simulation →") ∷ []))
            ∷ []))
          ∷ (tag "Link" (attr "href" "/candidates/new" ∷ style ("textDecoration: none" ∷ []) ∷ []) (
              (tag "div"
                (style (
                    "backgroundColor: #ffffff; color: var(--primary); border: 1px solid var(--primary-30); fontFamily: var(--fb); fontSize: 10; fontWeight: 700; letterSpacing: 2px; textTransform: uppercase; padding: 10px 20px; borderRadius: 8; cursor: pointer"
                    ∷ [])
                  ∷ [])
                ((text "Extract Candidate Profile →") ∷ []))
              ∷ []))
          ∷ []))
        ∷ [])

module _ {F : Type 0} ⦃n : Number F⦄ where
  abbrev kpis : DashboardProps F → List (String × String)
  kpis p =
      (n.to_text (n.lit (engineers_total p.health_data) 0), "Engineers in graph")
      ∷ (n.to_text (n.lit (length p.teams) 0), "Active teams")
      ∷ (n.to_text (n.lit (length p.candidates) 0), "Candidate profiles")
      ∷ []

  -- The header.
  unfoldable pub hero : {A : Type 0} → DashboardProps F → Html A
  hero p =
      tag "section"
        (style (
            "backgroundColor: var(--primary)"
            ∷ ("backgroundImage: "
                <> ("linear-gradient(rgba(255,255,255,.025) 1px, transparent 1px),"
                    <> "linear-gradient(90deg, rgba(255,255,255,.025) 1px, transparent 1px)"))
            ∷ "backgroundSize: 48px 48px; padding: 64px 48px 48px"
            ∷ [])
          ∷ [])
        ((tag "div" (style ("maxWidth: 1300; margin: 0 auto" ∷ []) ∷ []) (
            (tag "h1"
              (style (
                  "fontFamily: 'Fraunces', Georgia, serif; fontSize: 40; fontWeight: 300; color: #ffffff; lineHeight: 1.2; marginBottom: 12"
                  ∷ [])
                ∷ [])
              ((text "Recruiter")
                ∷ (text (" "))
                ∷ (tag "em" (style ("fontStyle: italic; color: var(--gold-light)" ∷ []) ∷ [])
                    ((text "command centre.") ∷ []))
                ∷ []))
            ∷ (tag "p"
                (style (
                    "fontFamily: var(--fb); fontSize: 14; color: rgba(255,255,255,0.6); lineHeight: 1.75; maxWidth: 540; marginBottom: 32"
                    ∷ [])
                  ∷ [])
                ((text
                    "Team topology health, candidate profiles, and simulation history — all in one place.")
                  ∷ []))
            ∷ (tag "div" (style ("display: flex; gap: 32; flexWrap: wrap" ∷ []) ∷ []) (
                (each
                  (λ s.
                    tag "div"
                      (style ("borderLeft: 2px solid var(--gold); paddingLeft: 18" ∷ []) ∷ [])
                      ((tag "div"
                          (style (
                              "fontFamily: 'Fraunces', Georgia, serif; fontSize: 34; fontWeight: 300; color: var(--gold-light); lineHeight: 1; marginBottom: 6"
                              ∷ [])
                            ∷ [])
                          ((text s.0) ∷ []))
                        ∷ (tag "div"
                            (style (
                                "fontFamily: var(--fb); fontSize: 11; color: rgba(255,255,255,0.5); lineHeight: 1.55"
                                ∷ [])
                              ∷ [])
                            ((text s.1) ∷ []))
                        ∷ []))
                  ((kpis p)))
                ∷ []))
            ∷ []))
          ∷ [])

  -- The teams.
  unfoldable pub team_grid : {A : Type 0} → DashboardProps F → Html A
  team_grid p =
      tag "section"
        (style ("maxWidth: 1300; margin: 0 auto; padding: 48px 48px; width: 100%" ∷ []) ∷ [])
        ((eyebrow false ((text "Team health") ∷ []))
          ∷ (section_title ((text "Topology cohesion by team") ∷ []))
          ∷ (tag "p"
              (style
                  ("fontFamily: var(--fb); fontSize: 13; color: var(--mid); marginBottom: 28" ∷ [])
                ∷ [])
              ((text
                  "Average closeness centrality measures how quickly knowledge flows across the team.")
                ∷ []))
          ∷ (choose ((is_empty p.health_data))
              (tag "div"
                (style (
                    "backgroundColor: #ffffff; borderRadius: 12; padding: 40px 32px; boxShadow: 0 1px 4px rgba(0,51,102,0.08); textAlign: center; color: var(--mid); fontFamily: var(--fb); fontSize: 14"
                    ∷ [])
                  ∷ [])
                ((text "No teams available — seed the graph with")
                  ∷ (text (" "))
                  ∷ (tag "code" (style ("fontFamily: Courier New; fontSize: 13" ∷ []) ∷ [])
                      ((text "make graph-seed") ∷ []))
                  ∷ []))
              (tag "div"
                (style (
                    "display: grid; gridTemplateColumns: repeat(auto-fill, minmax(280px, 1fr)); gap: 16"
                    ∷ [])
                  ∷ [])
                ((each (λ h. health_card h) p.health_data) ∷ [])))
          ∷ [])

  -- The page.
  unfoldable pub dashboard_page : {A : Type 0} → NavProps → String → DashboardProps F → Html A
  dashboard_page props date p =
      tag "main" (style ("minHeight: 100vh; display: flex; flexDirection: column" ∷ []) ∷ []) (
        (nav props)
        ∷ (hero p)
        ∷ quick_actions
        ∷ (team_grid p)
        ∷ (when ((not (is_empty p.candidates))) (recent_candidates p))
        ∷ (footer date)
        ∷ [])
