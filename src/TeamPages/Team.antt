-- ===== src/TeamPages/Team.antt =====
-- apps/web/app/teams/[id]/page.tsx: the page. `loader` stands for the graph that `GraphLoader`
-- draws; it is given an empty list of snapshots.
use socio_technical_alignmen.Html.{Html, each, style, tag, text}
use socio_technical_alignmen.Number.{Number}
use socio_technical_alignmen.Prelude.{List, String, [], length, true, ◌∷◌}
use socio_technical_alignmen.TeamPages.{TeamProps}
use socio_technical_alignmen.Ui.{NavProps, eyebrow, footer, nav}

module _ {F : Type 0} ⦃n : Number F⦄ where
  -- The header's facts; `locale_date` is the formatting of a date.
  abbrev facts : (String → String) → TeamProps F → List (String × String)
  facts locale_date p =
      (n.to_text (n.lit (length p.snapshot.nodes) 0), "Engineers")
      ∷ (n.to_text (n.lit (length p.snapshot.edges) 0), "Collaboration edges")
      ∷ (locale_date p.snapshot.captured_at, "Snapshot date")
      ∷ []

  -- The page.
  unfoldable pub team_page :
      {A : Type 0}
      → NavProps
      → String
      → (String → String)
      → (TeamProps F → Html A)
      → TeamProps F
      → Html A
  team_page props date locale_date loader p =
      tag "main" (style ("minHeight: 100vh; display: flex; flexDirection: column" ∷ []) ∷ []) (
        (nav props)
        ∷ (tag "section"
            (style (
                "backgroundColor: var(--primary); backgroundImage: linear-gradient(rgba(255,255,255,.025) 1px, transparent 1px), linear-gradient(90deg, rgba(255,255,255,.025) 1px, transparent 1px); backgroundSize: 48px 48px; padding: 48px 48px 40px"
                ∷ [])
              ∷ [])
            ((tag "div" (style ("maxWidth: 1300; margin: 0 auto" ∷ []) ∷ []) (
                (eyebrow true ((text "Knowledge Graph") ∷ []))
                ∷ (tag "h1"
                    (style (
                        "fontFamily: 'Fraunces', Georgia, serif; fontSize: 32; fontWeight: 300; color: #ffffff; lineHeight: 1.25; marginBottom: 8"
                        ∷ [])
                      ∷ [])
                    ((text p.team_id)
                      ∷ (text (" "))
                      ∷ (tag "em" (style ("fontStyle: italic; color: var(--gold-light)" ∷ []) ∷ [])
                          ((text "topology") ∷ []))
                      ∷ []))
                ∷ (tag "div" (style ("display: flex; gap: 32; marginTop: 20" ∷ []) ∷ []) (
                    (each
                      (λ s.
                        tag "div"
                          (style ("borderLeft: 2px solid var(--gold); paddingLeft: 14" ∷ []) ∷ [])
                          ((tag "div"
                              (style (
                                  "fontFamily: 'Fraunces', Georgia, serif; fontSize: 22; fontWeight: 300; color: var(--gold-light); lineHeight: 1; marginBottom: 4"
                                  ∷ [])
                                ∷ [])
                              ((text s.0) ∷ []))
                            ∷ (tag "div"
                                (style (
                                    "fontFamily: var(--fb); fontSize: 11; color: rgba(255,255,255,0.5)"
                                    ∷ [])
                                  ∷ [])
                                ((text s.1) ∷ []))
                            ∷ []))
                      ((facts locale_date p)))
                    ∷ []))
                ∷ []))
              ∷ []))
        ∷ (tag "section"
            (style (
                "maxWidth: 1300; margin: 0 auto; padding: 32px 48px 64px; flex: 1; width: 100%; boxSizing: border-box"
                ∷ [])
              ∷ [])
            ((loader p) ∷ []))
        ∷ (footer date)
        ∷ [])
