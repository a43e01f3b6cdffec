-- ===== src/CandidatePages/Detail.antt =====
-- apps/web/app/candidates/[id]/page.tsx: the page.
use socio_technical_alignmen.Api.{CandidateProfile}
use socio_technical_alignmen.Api.Client.{◌<>◌}
use socio_technical_alignmen.CandidatePages.Profile.{collab_card, position_card, skill_list}
use socio_technical_alignmen.Dashboard.{position_name}
use socio_technical_alignmen.Html.{Html, attr, each, style, tag, text, when}
use socio_technical_alignmen.Number.{Number}
use socio_technical_alignmen.Prelude.{
  List, String, [], if◌then◌else◌, length, not, str_eq, true, ◌∷◌,
}
use socio_technical_alignmen.Prelude.Text.{join}
use socio_technical_alignmen.Ui.{NavProps, eyebrow, footer, nav}

-- The links; `locale_date` is the formatting of a date.
unfoldable pub links_card :
    {F : Type 0} → {A : Type 0} → (String → String) → CandidateProfile F → Html A
links_card locale_date c =
    tag "div"
      (style (
          "backgroundColor: #ffffff; borderRadius: 12; boxShadow: 0 1px 4px rgba(0,51,102,0.08); padding: 20px 22px; display: flex; flexDirection: column; gap: 12"
          ∷ [])
        ∷ [])
      ((when ((not (str_eq c.github_url ""))) (
          tag "a"
            (attr "href" c.github_url
              ∷ attr "target" "_blank"
              ∷ attr "rel" "noopener noreferrer"
              ∷ style (
                  "fontFamily: var(--fb); fontSize: 12; color: var(--primary); textDecoration: none; borderBottom: 1px solid var(--primary-30); paddingBottom: 2"
                  ∷ [])
              ∷ [])
            ((text c.github_url) ∷ (text " ↗") ∷ [])))
        ∷ (tag "Link" (attr "href" "/simulate" ∷ style ("textDecoration: none" ∷ []) ∷ []) (
            (tag "div"
              (style (
                  "fontFamily: var(--fb); fontSize: 10; fontWeight: 700; letterSpacing: 2px; textTransform: uppercase; color: #ffffff; backgroundColor: var(--primary); borderRadius: 8; padding: 10px 0; textAlign: center"
                  ∷ [])
                ∷ [])
              ((text "Run New Simulation →") ∷ []))
            ∷ []))
        ∷ (tag "div"
            (style ("fontFamily: var(--fb); fontSize: 10; color: var(--mid); lineHeight: 1.55" ∷ [])
              ∷ [])
            ((text "Extracted ") ∷ (text ((locale_date c.extracted_at))) ∷ []))
        ∷ [])

module _ {F : Type 0} ⦃n : Number F⦄ where
  abbrev kpis : CandidateProfile F → List (String × String)
  kpis c =
      (n.to_text (n.lit (length c.skills) 0), "Skills extracted")
      ∷ (position_name c.graph_position_estimate, "Graph position")
      ∷ (
        let domains = join ", " c.domain_expertise in if str_eq domains "" then "N/A" else domains,
        "Domain expertise",
      )
      ∷ []

  -- The header.
  unfoldable pub hero : {A : Type 0} → CandidateProfile F → Html A
  hero c =
      tag "section"
        (style (
            "backgroundColor: var(--primary)"
            ∷ ("backgroundImage: "
                <> ("linear-gradient(rgba(255,255,255,.025) 1px, transparent 1px),"
                    <> "linear-gradient(90deg, rgba(255,255,255,.025) 1px, transparent 1px)"))
            ∷ "backgroundSize: 48px 48px; padding: 56px 48px 48px"
            ∷ [])
          ∷ [])
        ((tag "div" (style ("maxWidth: 1200; margin: 0 auto" ∷ []) ∷ []) (
            (eyebrow true ((text "Candidate Profile") ∷ []))
            ∷ (tag "h1"
                (style (
                    "fontFamily: 'Fraunces', Georgia, serif; fontSize: 36; fontWeight: 300; color: #ffffff; lineHeight: 1.2; marginBottom: 12"
                    ∷ [])
                  ∷ [])
                ((text c.candidate_id)
                  ∷ (text (" "))
                  ∷ (tag "em" (style ("fontStyle: italic; color: var(--gold-light)" ∷ []) ∷ [])
                      ((text "profile") ∷ []))
                  ∷ []))
            ∷ (tag "p"
                (style (
                    "fontFamily: var(--fb); fontSize: 14; color: rgba(255,255,255,0.6); lineHeight: 1.75; maxWidth: 600; marginBottom: 28"
                    ∷ [])
                  ∷ [])
                ((text c.extraction_summary) ∷ []))
            ∷ (tag "div"
                (style ("display: flex; gap: 32; flexWrap: wrap; marginBottom: 28" ∷ []) ∷ [])
                ((each
                    (λ s.
                      tag "div"
                        (style ("borderLeft: 2px solid var(--gold); paddingLeft: 14" ∷ []) ∷ [])
                        ((tag "div"
                            (style (
                                "fontFamily: 'Fraunces', Georgia, serif; fontSize: 16; fontWeight: 300; color: var(--gold-light); lineHeight: 1; marginBottom: 4"
                                ∷ [])
                              ∷ [])
                            ((text s.0) ∷ []))
                          ∷ (tag "div"
                              (style (
                                  "fontFamily: var(--fb); fontSize: 11; color: rgba(255,255,255,0.5)"
                                  ∷ [])
                                ∷ [])
                              ((text s.1) ∷ []))
                          ∷ []))
                    ((kpis c)))
                  ∷ []))
            ∷ (tag "Link" (attr "href" "/simulate" ∷ style ("textDecoration: none" ∷ []) ∷ []) (
                (tag "div"
                  (style (
                      "display: inline-flex; alignItems: center; gap: 8; backgroundColor: var(--gold); color: #ffffff; fontFamily: var(--fb); fontSize: 10; fontWeight: 700; letterSpacing: 2px; textTransform: uppercase; padding: 10px 20px; borderRadius: 8"
                      ∷ [])
                    ∷ [])
                  ((text "Run Simulation →") ∷ []))
                ∷ []))
            ∷ []))
          ∷ [])

  -- The page.
  unfoldable pub candidate_page :
      {A : Type 0} → NavProps → String → (String → String) → CandidateProfile F → Html A
  candidate_page props date locale_date c =
      tag "main" (style ("minHeight: 100vh; display: flex; flexDirection: column" ∷ []) ∷ []) (
        (nav props)
        ∷ (hero c)
        ∷ (tag "section"
            (style ("maxWidth: 1200; margin: 0 auto; padding: 56px 48px; flex: 1; width: 100%" ∷ [])
              ∷ [])
            ((tag "div" (style ("display: grid; gridTemplateColumns: 3fr 2fr; gap: 24" ∷ []) ∷ []) (
                (skill_list c)
                ∷ (tag "div" (style ("display: flex; flexDirection: column; gap: 20" ∷ []) ∷ [])
                    ((position_card c) ∷ (collab_card c) ∷ (links_card locale_date c) ∷ []))
                ∷ []))
              ∷ []))
        ∷ (footer date)
        ∷ [])
