-- ===== src/CandidatePages/Profile.antt =====
-- apps/web/app/candidates/[id]/page.tsx: the cards of a profile.
use socio_technical_alignmen.Api.{CandidateProfile}
use socio_technical_alignmen.Api.Client.{◌<>◌}
use socio_technical_alignmen.CandidatePages.{
  collab_entries, collab_label, position_style, proficiency_name, proficiency_style,
}
use socio_technical_alignmen.Dashboard.{position_name}
use socio_technical_alignmen.Html.{Html, each, style, tag, text, when}
use socio_technical_alignmen.Number.{Number}
use socio_technical_alignmen.Prelude.{[], false, is_empty, not, str_eq, ◌∷◌}
use socio_technical_alignmen.Ui.{eyebrow}

-- The skills.
unfoldable pub skill_list : {F : Type 0} → {A : Type 0} → CandidateProfile F → Html A
skill_list c =
    tag "div"
      (style (
          "backgroundColor: #ffffff; borderRadius: 12; boxShadow: 0 1px 4px rgba(0,51,102,0.08); overflow: hidden"
          ∷ [])
        ∷ [])
      ((tag "div" (style ("height: 3; backgroundColor: var(--gold)" ∷ []) ∷ []) [])
        ∷ (tag "div" (style ("padding: 28px" ∷ []) ∷ []) (
            (eyebrow false ((text "Skills") ∷ []))
            ∷ (tag "div" (style ("display: flex; flexDirection: column; gap: 12" ∷ []) ∷ []) (
                (each
                  (λ s.
                    tag "div"
                      (style (
                          "display: flex; justifyContent: space-between; alignItems: flex-start; paddingBottom: 12; borderBottom: 1px solid var(--primary-10)"
                          ∷ [])
                        ∷ [])
                      ((tag "div" (style ("flex: 1; minWidth: 0" ∷ []) ∷ []) (
                          (tag "span"
                            (style (
                                "fontFamily: 'Fraunces', Georgia, serif; fontSize: 15; fontWeight: 400; color: #0a1628"
                                ∷ [])
                              ∷ [])
                            ((text s.skill) ∷ []))
                          ∷ (when ((not (str_eq s.evidence ""))) (
                              tag "p"
                                (style (
                                    "fontFamily: var(--fb); fontSize: 11; color: var(--mid); marginTop: 3; lineHeight: 1.5"
                                    ∷ [])
                                  ∷ [])
                                ((text s.evidence) ∷ [])))
                          ∷ []))
                        ∷ (tag "span"
                            (style (
                                ("backgroundColor: " <> (proficiency_style s.proficiency).bg)
                                ∷ ("color: " <> (proficiency_style s.proficiency).letters)
                                ∷ "fontSize: 9; fontFamily: var(--fb); fontWeight: 600; letterSpacing: 1px; textTransform: uppercase; padding: 3px 8px; borderRadius: 4; flexShrink: 0; marginLeft: 12"
                                ∷ [])
                              ∷ [])
                            ((text ((proficiency_name s.proficiency))) ∷ []))
                        ∷ []))
                  c.skills)
                ∷ []))
            ∷ []))
        ∷ [])

-- The position in the graph.
unfoldable pub position_card : {F : Type 0} → {A : Type 0} → CandidateProfile F → Html A
position_card c =
    tag "div"
      (style (
          "backgroundColor: #ffffff; borderRadius: 12; boxShadow: 0 1px 4px rgba(0,51,102,0.08); overflow: hidden"
          ∷ [])
        ∷ [])
      ((tag "div" (style ("height: 3; backgroundColor: var(--gold)" ∷ []) ∷ []) [])
        ∷ (tag "div" (style ("padding: 20px 22px" ∷ []) ∷ []) (
            (eyebrow false ((text "Graph position") ∷ []))
            ∷ (tag "div"
                (style (
                    "display: inline-flex; alignItems: center; gap: 8"
                    ∷ ("backgroundColor: " <> (position_style c.graph_position_estimate).bg)
                    ∷ "borderRadius: 20; padding: 6px 14px; marginBottom: 12"
                    ∷ [])
                  ∷ [])
                ((tag "div"
                    (style (
                        "width: 8; height: 8; borderRadius: 50%"
                        ∷ ("backgroundColor: " <> (position_style c.graph_position_estimate).dot)
                        ∷ [])
                      ∷ [])
                    [])
                  ∷ (tag "span"
                      (style (
                          "fontFamily: var(--fb); fontSize: 12; fontWeight: 500"
                          ∷ ("color: " <> (position_style c.graph_position_estimate).letters)
                          ∷ "textTransform: uppercase; letterSpacing: 1px"
                          ∷ [])
                        ∷ [])
                      ((text ((position_name c.graph_position_estimate))) ∷ []))
                  ∷ []))
            ∷ (when ((not (is_empty c.domain_expertise))) (
                tag "div" (style ("display: flex; flexWrap: wrap; gap: 6" ∷ []) ∷ []) (
                  (each
                    (λ d.
                      tag "span"
                        (style (
                            "fontFamily: var(--fb); fontSize: 10; fontWeight: 500; color: var(--primary); backgroundColor: var(--primary-10); borderRadius: 20; padding: 3px 10px"
                            ∷ [])
                          ∷ [])
                        ((text d) ∷ []))
                    c.domain_expertise)
                  ∷ [])))
            ∷ []))
        ∷ [])

module _ {F : Type 0} ⦃n : Number F⦄ where
  -- The collaboration vector.
  unfoldable pub collab_card : {A : Type 0} → CandidateProfile F → Html A
  collab_card c =
      tag "div"
        (style (
            "backgroundColor: #ffffff; borderRadius: 12; boxShadow: 0 1px 4px rgba(0,51,102,0.08); overflow: hidden"
            ∷ [])
          ∷ [])
        ((tag "div" (style ("height: 3; backgroundColor: var(--gold)" ∷ []) ∷ []) [])
          ∷ (tag "div" (style ("padding: 20px 22px" ∷ []) ∷ []) (
              (eyebrow false ((text "Collaboration vector") ∷ []))
              ∷ (tag "div" (style ("display: flex; flexDirection: column; gap: 12" ∷ []) ∷ []) (
                  (each
                    (λ entry. tag "div" [] (
                      (tag "div"
                        (style
                            ("display: flex; justifyContent: space-between; marginBottom: 5" ∷ [])
                          ∷ [])
                        ((tag "span"
                            (style ("fontFamily: var(--fb); fontSize: 12; color: #0a1628" ∷ [])
                              ∷ [])
                            ((text ((collab_label entry.0))) ∷ []))
                          ∷ (tag "span"
                              (style (
                                  "fontFamily: 'Fraunces', Georgia, serif; fontSize: 13; fontWeight: 300; color: var(--primary)"
                                  ∷ [])
                                ∷ [])
                              ((text ((n.to_fixed 2 entry.1))) ∷ []))
                          ∷ []))
                      ∷ (tag "div"
                          (style (
                              "backgroundColor: var(--primary-10); borderRadius: 4; height: 5; overflow: hidden"
                              ∷ [])
                            ∷ [])
                          ((tag "div"
                              (style (
                                  ("width: "
                                    <> ((n.to_text (n.round (n.mul entry.1 (n.lit 100 0)))) <> "%"))
                                  ∷ "height: 100%; backgroundColor: var(--primary); borderRadius: 4"
                                  ∷ [])
                                ∷ [])
                              [])
                            ∷ []))
                      ∷ []))
                    ((collab_entries c.collaboration_vector)))
                  ∷ []))
              ∷ []))
          ∷ [])
