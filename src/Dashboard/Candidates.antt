-- ===== src/Dashboard/Candidates.antt =====
-- apps/web/app/dashboard/page.tsx: the recent candidates.
use socio_technical_alignmen.Api.{CandidateProfile}
use socio_technical_alignmen.Api.Client.{◌<>◌}
use socio_technical_alignmen.Dashboard.{DashboardProps, position_color, position_name}
use socio_technical_alignmen.Html.{Html, attr, each, style, tag, text}
use socio_technical_alignmen.Prelude.{[], false, take, ◌∷◌}
use socio_technical_alignmen.Ui.{eyebrow, section_title}

-- The card of a candidate.
unfoldable pub candidate_link : {F : Type 0} → {A : Type 0} → CandidateProfile F → Html A
candidate_link c =
    tag "Link"
      (attr "href" ("/candidates/" <> c.candidate_id) ∷ style ("textDecoration: none" ∷ []) ∷ [])
      ((tag "div"
          (style (
              "backgroundColor: #ffffff; borderRadius: 12; overflow: hidden; boxShadow: 0 1px 4px rgba(0,51,102,0.08); cursor: pointer"
              ∷ [])
            ∷ [])
          ((tag "div" (style ("height: 3; backgroundColor: var(--gold)" ∷ []) ∷ []) [])
            ∷ (tag "div" (style ("padding: 16px 18px" ∷ []) ∷ []) (
                (tag "div"
                  (style ("display: inline-flex; alignItems: center; gap: 5; marginBottom: 10" ∷ [])
                    ∷ [])
                  ((tag "div"
                      (style (
                          "width: 6; height: 6; borderRadius: 50%"
                          ∷ ("backgroundColor: " <> (position_color c.graph_position_estimate))
                          ∷ [])
                        ∷ [])
                      [])
                    ∷ (tag "span"
                        (style (
                            "fontFamily: var(--fb); fontSize: 9; fontWeight: 600; letterSpacing: 1px; textTransform: uppercase"
                            ∷ ("color: " <> (position_color c.graph_position_estimate))
                            ∷ [])
                          ∷ [])
                        ((text ((position_name c.graph_position_estimate))) ∷ []))
                    ∷ []))
                ∷ (tag "div"
                    (style (
                        "fontFamily: 'Fraunces', Georgia, serif; fontSize: 15; fontWeight: 400; color: #0a1628; marginBottom: 6; overflow: hidden; textOverflow: ellipsis; whiteSpace: nowrap"
                        ∷ [])
                      ∷ [])
                    ((text c.candidate_id) ∷ []))
                ∷ (tag "div"
                    (style ("display: flex; flexWrap: wrap; gap: 4; marginBottom: 8" ∷ []) ∷ [])
                    ((each
                        (λ s.
                          tag "span"
                            (style (
                                "fontFamily: var(--fb); fontSize: 9; fontWeight: 500; color: var(--primary); backgroundColor: var(--primary-10); borderRadius: 20; padding: 2px 8px"
                                ∷ [])
                              ∷ [])
                            ((text s.skill) ∷ []))
                        ((take 4 c.skills)))
                      ∷ []))
                ∷ (tag "div"
                    (style (
                        "fontFamily: var(--fb); fontSize: 10; color: var(--gold); fontWeight: 700; letterSpacing: 1px; textTransform: uppercase"
                        ∷ [])
                      ∷ [])
                    ((text "View profile →") ∷ []))
                ∷ []))
            ∷ []))
        ∷ [])

-- The card that adds a candidate.
unfoldable pub add_new : {A : Type 0} → Html A
add_new = tag "Link" (attr "href" "/candidates/new" ∷ style ("textDecoration: none" ∷ []) ∷ []) (
    (tag "div"
      (style (
          "backgroundColor: #ffffff; borderRadius: 12; boxShadow: 0 1px 4px rgba(0,51,102,0.08); padding: 16px 18px; border: 2px dashed var(--primary-30); cursor: pointer; display: flex; flexDirection: column; alignItems: center; justifyContent: center; minHeight: 140; gap: 8"
          ∷ [])
        ∷ [])
      ((tag "div"
          (style (
              "fontFamily: 'Fraunces', Georgia, serif; fontSize: 32; fontWeight: 300; color: var(--primary-30)"
              ∷ [])
            ∷ [])
          ((text "+") ∷ []))
        ∷ (tag "div"
            (style (
                "fontFamily: var(--fb); fontSize: 10; fontWeight: 700; letterSpacing: 2px; textTransform: uppercase; color: var(--primary-60)"
                ∷ [])
              ∷ [])
            ((text "Extract new profile") ∷ []))
        ∷ []))
    ∷ [])

-- The recent candidates.
unfoldable pub recent_candidates : {F : Type 0} → {A : Type 0} → DashboardProps F → Html A
recent_candidates p =
    tag "section"
      (style ("maxWidth: 1300; margin: 0 auto; padding: 0 48px 64px; width: 100%" ∷ []) ∷ [])
      ((tag "div"
          (style ("height: 1; backgroundColor: var(--primary-10); marginBottom: 48" ∷ []) ∷ []) [])
        ∷ (eyebrow false ((text "Candidate profiles") ∷ []))
        ∷ (section_title ((text "Recently extracted") ∷ []))
        ∷ (tag "p"
            (style ("fontFamily: var(--fb); fontSize: 13; color: var(--mid); marginBottom: 28" ∷ [])
              ∷ [])
            ((text
                "Profiles extracted by the NLP agent from GitHub repositories. Click to view details.")
              ∷ []))
        ∷ (tag "div"
            (style (
                "display: grid; gridTemplateColumns: repeat(auto-fill, minmax(260px, 1fr)); gap: 14"
                ∷ [])
              ∷ [])
            ((each (λ c. candidate_link c) p.candidates) ∷ add_new ∷ []))
        ∷ [])
