-- ===== src/TeamPages/Overview.antt =====
-- apps/web/app/teams/page.tsx: the overview.
use socio_technical_alignmen.Api.Client.{◌<>◌}
use socio_technical_alignmen.Dashboard.Teams.{bar_pct}
use socio_technical_alignmen.Html.{Html, attr, choose, each, style, tag, text, when}
use socio_technical_alignmen.Number.{Number}
use socio_technical_alignmen.Prelude.{List, String, [], is_empty, length, true, ◌∷◌}
use socio_technical_alignmen.TeamPages.{
  TeamSummary, TeamsProps, card, health_badge, total_engineers,
}
use socio_technical_alignmen.Ui.{NavProps, eyebrow, footer, nav}

-- The links of a card.
unfoldable pub summary_footer : {F : Type 0} → {A : Type 0} → TeamSummary F → Html A
summary_footer h = tag "div" (style ("display: flex; gap: 8" ∷ []) ∷ []) (
    (tag "Link"
      (attr "href" ("/teams/" <> h.team_id)
        ∷ style (
            "flex: 1; fontFamily: var(--fb); fontSize: 9; fontWeight: 700; letterSpacing: 2px; textTransform: uppercase; color: var(--primary); textDecoration: none; border: 1px solid var(--primary-30); borderRadius: 6; padding: 8px 0; textAlign: center"
            ∷ [])
        ∷ [])
      ((text "View Graph") ∷ []))
    ∷ (tag "Link"
        (attr "href" "/simulate"
          ∷ style (
              "flex: 1; fontFamily: var(--fb); fontSize: 9; fontWeight: 700; letterSpacing: 2px; textTransform: uppercase; color: #ffffff; textDecoration: none; backgroundColor: var(--primary); borderRadius: 6; padding: 8px 0; textAlign: center"
              ∷ [])
          ∷ [])
        ((text "Simulate →") ∷ []))
    ∷ [])

module _ {F : Type 0} ⦃n : Number F⦄ where
  -- The numbers of a card.
  unfoldable pub summary_metrics : {A : Type 0} → TeamSummary F → Html A
  summary_metrics h =
      tag "div"
        (style (
            "display: flex; justifyContent: space-between; alignItems: center; marginBottom: 20"
            ∷ [])
          ∷ [])
        ((choose ((n.lt (n.lit 0 0) h.avg_closeness))
            (tag "div"
              (style (
                  "display: inline-flex; alignItems: center; gap: 5"
                  ∷ ("backgroundColor: " <> (health_badge h.avg_closeness).bg)
                  ∷ "borderRadius: 20; padding: 3px 10px"
                  ∷ [])
                ∷ [])
              ((tag "div"
                  (style (
                      "width: 6; height: 6; borderRadius: 50%"
                      ∷ ("backgroundColor: " <> (health_badge h.avg_closeness).fill)
                      ∷ [])
                    ∷ [])
                  [])
                ∷ (tag "span"
                    (style (
                        "fontFamily: var(--fb); fontSize: 9; fontWeight: 600"
                        ∷ ("color: " <> (health_badge h.avg_closeness).letters)
                        ∷ "textTransform: uppercase; letterSpacing: 1px"
                        ∷ [])
                      ∷ [])
                    ((text ((health_badge h.avg_closeness).label)) ∷ []))
                ∷ []))
            (tag "span" (style ("fontFamily: var(--fb); fontSize: 11; color: var(--mid)" ∷ []) ∷ [])
              ((text "No metrics yet") ∷ [])))
          ∷ [])

  -- The card of a team.
  unfoldable pub team_card : {A : Type 0} → TeamSummary F → Html A
  team_card h = tag "div" (style card ∷ []) (
      (tag "div" (style ("height: 3; backgroundColor: var(--gold)" ∷ []) ∷ []) [])
      ∷ (tag "div" (style ("padding: 24px 28px" ∷ []) ∷ []) (
          (tag "div"
            (style (
                "fontFamily: var(--fd); fontSize: 20; fontWeight: 400; color: var(--dark); marginBottom: 16"
                ∷ [])
              ∷ [])
            ((text h.team_id) ∷ []))
          ∷ (tag "div" (style ("display: flex; gap: 24; marginBottom: 16" ∷ []) ∷ []) (
              (tag "div" [] (
                (tag "div"
                  (style (
                      "fontFamily: var(--fb); fontSize: 9; fontWeight: 700; letterSpacing: 2px; textTransform: uppercase; color: var(--mid); marginBottom: 3"
                      ∷ [])
                    ∷ [])
                  ((text "Engineers") ∷ []))
                ∷ (tag "div"
                    (style (
                        "fontFamily: var(--fd); fontSize: 26; fontWeight: 300; color: var(--dark)"
                        ∷ [])
                      ∷ [])
                    ((text ((n.to_text (n.lit h.engineer_count 0)))) ∷ []))
                ∷ []))
              ∷ (tag "div" [] (
                  (tag "div"
                    (style (
                        "fontFamily: var(--fb); fontSize: 9; fontWeight: 700; letterSpacing: 2px; textTransform: uppercase; color: var(--mid); marginBottom: 3"
                        ∷ [])
                      ∷ [])
                    ((text "Avg closeness") ∷ []))
                  ∷ (tag "div"
                      (style (
                          "fontFamily: var(--fd); fontSize: 26; fontWeight: 300"
                          ∷ ("color: " <> (health_badge h.avg_closeness).fill)
                          ∷ [])
                        ∷ [])
                      ((choose ((n.lt (n.lit 0 0) h.avg_closeness))
                          (text ((n.to_fixed 3 h.avg_closeness))) (text ("—")))
                        ∷ []))
                  ∷ []))
              ∷ []))
          ∷ (when ((n.lt (n.lit 0 0) h.avg_closeness)) (
              tag "div"
                (style (
                    "backgroundColor: var(--primary-10); borderRadius: 4; height: 5; marginBottom: 14; overflow: hidden"
                    ∷ [])
                  ∷ [])
                ((tag "div"
                    (style (
                        ("width: " <> ((n.to_text (bar_pct h.avg_closeness)) <> "%"))
                        ∷ "height: 100%"
                        ∷ ("backgroundColor: " <> (health_badge h.avg_closeness).fill)
                        ∷ "borderRadius: 4"
                        ∷ [])
                      ∷ [])
                    [])
                  ∷ [])))
          ∷ (summary_metrics h)
          ∷ (summary_footer h)
          ∷ []))
      ∷ [])

  abbrev kpis : TeamsProps F → List (String × String)
  kpis p =
      (n.to_text (n.lit (length p.teams) 0), "Active teams")
      ∷ (n.to_text (n.lit (total_engineers 0 p.health_data) 0), "Engineers in graph")
      ∷ []

  -- The header.
  unfoldable pub hero : {A : Type 0} → TeamsProps F → Html A
  hero p =
      tag "section"
        (style (
            "backgroundColor: var(--primary)"
            ∷ ("backgroundImage: "
                <> ("linear-gradient(rgba(255,255,255,.025) 1px, transparent 1px),"
                    <> "linear-gradient(90deg, rgba(255,255,255,.025) 1px, transparent 1px)"))
            ∷ "backgroundSize: 48px 48px; padding: 56px 48px 48px"
            ∷ [])
          ∷ [])
        ((tag "div" (style ("maxWidth: 1300; margin: 0 auto" ∷ []) ∷ []) (
            (eyebrow true ((text "Knowledge Graph") ∷ []))
            ∷ (tag "h1"
                (style (
                    "fontFamily: var(--fd); fontSize: 40; fontWeight: 300; color: #ffffff; lineHeight: 1.2; marginBottom: 12"
                    ∷ [])
                  ∷ [])
                ((text "Engineering")
                  ∷ (text (" "))
                  ∷ (tag "em" (style ("fontStyle: italic; color: var(--gold-light)" ∷ []) ∷ [])
                      ((text "teams.") ∷ []))
                  ∷ []))
            ∷ (tag "p"
                (style (
                    "fontFamily: var(--fb); fontSize: 14; color: rgba(255,255,255,0.6); lineHeight: 1.75; maxWidth: 520; marginBottom: 32"
                    ∷ [])
                  ∷ [])
                ((text
                    "Select a team to explore its knowledge graph topology and run candidate simulations.")
                  ∷ []))
            ∷ (tag "div" (style ("display: flex; gap: 32" ∷ []) ∷ []) (
                (each
                  (λ s.
                    tag "div"
                      (style ("borderLeft: 2px solid var(--gold); paddingLeft: 18" ∷ []) ∷ [])
                      ((tag "div"
                          (style (
                              "fontFamily: var(--fd); fontSize: 34; fontWeight: 300; color: var(--gold-light); lineHeight: 1; marginBottom: 6"
                              ∷ [])
                            ∷ [])
                          ((text s.0) ∷ []))
                        ∷ (tag "div"
                            (style (
                                "fontFamily: var(--fb); fontSize: 11; color: rgba(255,255,255,0.5)"
                                ∷ [])
                              ∷ [])
                            ((text s.1) ∷ []))
                        ∷ []))
                  ((kpis p)))
                ∷ []))
            ∷ []))
          ∷ [])

  -- The page.
  unfoldable pub teams_page : {A : Type 0} → NavProps → String → TeamsProps F → Html A
  teams_page props date p =
      tag "main" (style ("minHeight: 100vh; display: flex; flexDirection: column" ∷ []) ∷ []) (
        (nav props)
        ∷ (hero p)
        ∷ (tag "section"
            (style (
                "flex: 1; maxWidth: 1300; margin: 0 auto; padding: 48px 48px 64px; width: 100%"
                ∷ [])
              ∷ [])
            ((choose ((is_empty p.health_data))
                (tag "div"
                  (style (
                      "backgroundColor: #ffffff; borderRadius: 12; padding: 48px 32px; boxShadow: 0 1px 4px rgba(0,51,102,0.08); textAlign: center; color: var(--mid); fontFamily: var(--fb); fontSize: 14"
                      ∷ [])
                    ∷ [])
                  ((text "No teams found — seed the graph with")
                    ∷ (text (" "))
                    ∷ (tag "code" (style ("fontFamily: Courier New; fontSize: 13" ∷ []) ∷ [])
                        ((text "make graph-seed") ∷ []))
                    ∷ []))
                (tag "div"
                  (style (
                      "display: grid; gridTemplateColumns: repeat(auto-fill, minmax(300px, 1fr)); gap: 20"
                      ∷ [])
                    ∷ [])
                  ((each (λ h. team_card h) p.health_data) ∷ [])))
              ∷ []))
        ∷ (footer date)
        ∷ [])
