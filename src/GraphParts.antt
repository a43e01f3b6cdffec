-- ===== src/GraphParts.antt =====
-- apps/web/components/graph: EngineerPanel.tsx and NodeTooltip.tsx.
pub mod Selector
use socio_technical_alignmen.Api.{ForceGraphNode}
use socio_technical_alignmen.Api.Client.{◌<>◌}
use socio_technical_alignmen.Attrition.{seniority_name}
use socio_technical_alignmen.Html.{Html, attr, each, nothing, on, style, tag, text, when}
use socio_technical_alignmen.Number.{Number}
use socio_technical_alignmen.Prelude.{
  List, Option, String, [], if◌then◌else◌, is_empty, none, not, some, str_eq, take, ◌∷◌,
}

-- `nodes.find((n) => n.id === nodeId)`.
unfoldable pub find_node :
    {F : Type 0} → String → List (ForceGraphNode F) → Option (ForceGraphNode F)
find_node id [] = none
find_node id (v ∷ vs) = if str_eq v.id id then some v else find_node id vs

module _ {F : Type 0} ⦃n : Number F⦄ where
  abbrev metrics : ForceGraphNode F → List (String × String)
  metrics v =
      ("Closeness", n.to_fixed 3 v.closeness) ∷ ("Betweenness", n.to_fixed 3 v.betweenness) ∷ []

  -- The panel of an engineer.
  unfoldable pub engineer_details : {A : Type 0} → A → ForceGraphNode F → Html A
  engineer_details close v =
      tag "div"
        (attr "data-testid" "engineer-panel"
          ∷ style (
              "position: absolute; top: 0; right: 0; bottom: 0; width: 300; backgroundColor: #ffffff; borderLeft: 1px solid var(--primary-10); display: flex; flexDirection: column; boxShadow: -4px 0 16px rgba(0,51,102,0.08); zIndex: 50"
              ∷ [])
          ∷ [])
        ((tag "div"
            (style (
                "backgroundColor: var(--primary); backgroundImage: linear-gradient(rgba(255,255,255,.025) 1px, transparent 1px), linear-gradient(90deg, rgba(255,255,255,.025) 1px, transparent 1px); backgroundSize: 24px 24px; padding: 20px 20px 16px; position: relative"
                ∷ [])
              ∷ [])
            ((tag "button"
                (on "onClick" close
                  ∷ attr "aria-label" "Close engineer panel"
                  ∷ style (
                      "position: absolute; top: 12; right: 12; background: none; border: none; color: rgba(255,255,255,0.5); fontSize: 18; cursor: pointer; lineHeight: 1; padding: 4"
                      ∷ [])
                  ∷ [])
                ((text "×") ∷ []))
              ∷ (tag "div"
                  (style (
                      "fontFamily: var(--fb); fontSize: 9; fontWeight: 700; letterSpacing: 3px; textTransform: uppercase; color: var(--gold-light); marginBottom: 6"
                      ∷ [])
                    ∷ [])
                  ((text "Engineer Profile") ∷ []))
              ∷ (tag "div"
                  (style (
                      "fontFamily: 'Fraunces', Georgia, serif; fontSize: 18; fontWeight: 300; color: #ffffff; lineHeight: 1.2"
                      ∷ [])
                    ∷ [])
                  ((text v.name) ∷ []))
              ∷ (tag "div"
                  (style (
                      "fontFamily: var(--fb); fontSize: 10; color: rgba(255,255,255,0.5); marginTop: 4; letterSpacing: 1px; textTransform: uppercase"
                      ∷ [])
                    ∷ [])
                  ((text ((seniority_name v.seniority))) ∷ (text " · ") ∷ (text v.team) ∷ []))
              ∷ []))
          ∷ (tag "div" (style ("flex: 1; overflowY: auto; padding: 20px" ∷ []) ∷ []) (
              (tag "div"
                (style
                    ("display: grid; gridTemplateColumns: 1fr 1fr; gap: 10; marginBottom: 20" ∷ [])
                  ∷ [])
                ((each
                    (λ m.
                      tag "div"
                        (style (
                            "backgroundColor: var(--light); borderRadius: 8; padding: 12px 14px; borderLeft: 3px solid var(--gold)"
                            ∷ [])
                          ∷ [])
                        ((tag "div"
                            (style (
                                "fontFamily: 'Fraunces', Georgia, serif; fontSize: 22; fontWeight: 300; color: var(--dark); lineHeight: 1; marginBottom: 4"
                                ∷ [])
                              ∷ [])
                            ((text m.1) ∷ []))
                          ∷ (tag "div"
                              (style (
                                  "fontFamily: var(--fb); fontSize: 9; fontWeight: 700; letterSpacing: 2px; textTransform: uppercase; color: var(--mid)"
                                  ∷ [])
                                ∷ [])
                              ((text m.0) ∷ []))
                          ∷ []))
                    ((metrics v)))
                  ∷ []))
              ∷ (tag "div" (style ("marginBottom: 20" ∷ []) ∷ []) (
                  (tag "div"
                    (style (
                        "fontFamily: var(--fb); fontSize: 9; fontWeight: 700; letterSpacing: 3px; textTransform: uppercase; color: var(--gold); marginBottom: 10; display: flex; alignItems: center; gap: 8"
                        ∷ [])
                      ∷ [])
                    ((tag "div"
                        (style ("width: 24; height: 1; backgroundColor: var(--gold)" ∷ []) ∷ []) [])
                      ∷ (text "Skills")
                      ∷ []))
                  ∷ (tag "div" (style ("display: flex; gap: 6; flexWrap: wrap" ∷ []) ∷ []) (
                      (each
                        (λ skill.
                          tag "span"
                            (style (
                                "backgroundColor: var(--primary-10); color: var(--primary); fontSize: 9; fontFamily: var(--fb); fontWeight: 600; letterSpacing: 1px; textTransform: uppercase; padding: 4px 8px; borderRadius: 4"
                                ∷ [])
                              ∷ [])
                            ((text skill) ∷ []))
                        v.skills)
                      ∷ (when ((is_empty v.skills)) (
                          tag "span"
                            (style ("fontFamily: var(--fb); fontSize: 12; color: var(--mid)" ∷ [])
                              ∷ [])
                            ((text "No skills recorded") ∷ [])))
                      ∷ []))
                  ∷ []))
              ∷ (tag "div"
                  (style (
                      "borderTop: 1px solid var(--primary-10); paddingTop: 14; fontFamily: var(--fb); fontSize: 11; color: var(--mid)"
                      ∷ [])
                    ∷ [])
                  ((tag "span" (style ("fontWeight: 600" ∷ []) ∷ []) ((text "ID: ") ∷ []))
                    ∷ (tag "code" (style ("fontFamily: Courier New; fontSize: 12" ∷ []) ∷ [])
                        ((text v.id) ∷ []))
                    ∷ []))
              ∷ []))
          ∷ [])

  -- A coordinate moved by a number; the sum with `undefined` is not a number.
  unfoldable pub moved : (F → F) → Option F → String
  moved f none = "NaN"
  moved f (some x) = n.to_text (f x)

  -- The tooltip of a node.
  unfoldable pub tooltip_of : {A : Type 0} → Option F → Option F → ForceGraphNode F → Html A
  tooltip_of x y v =
      tag "div"
        (style (
            "position: fixed"
            ∷ ("left: " <> (moved (λ v. n.add v (n.lit 14 0)) x))
            ∷ ("top: " <> (moved (λ v. n.sub v (n.lit 10 0)) y))
            ∷ "zIndex: 200; backgroundColor: #ffffff; borderRadius: 10; padding: 12px 16px; boxShadow: 0 4px 16px rgba(0,51,102,0.14); borderTop: 3px solid var(--gold); pointerEvents: none; minWidth: 180"
            ∷ [])
          ∷ [])
        ((tag "div"
            (style (
                "fontFamily: 'Fraunces', Georgia, serif; fontSize: 14; fontWeight: 400; color: #0a1628; marginBottom: 4"
                ∷ [])
              ∷ [])
            ((text v.name) ∷ []))
          ∷ (tag "div"
              (style (
                  "fontFamily: var(--fb); fontSize: 9; fontWeight: 700; letterSpacing: 2px; textTransform: uppercase; color: var(--gold); marginBottom: 8"
                  ∷ [])
                ∷ [])
              ((text ((seniority_name v.seniority))) ∷ (text " · ") ∷ (text v.team) ∷ []))
          ∷ (when ((not (is_empty (take 3 v.skills)))) (
              tag "div" (style ("display: flex; gap: 4; flexWrap: wrap; marginBottom: 8" ∷ []) ∷ [])
                ((each
                    (λ skill.
                      tag "span"
                        (style (
                            "backgroundColor: var(--primary-10); color: var(--primary); fontSize: 9; fontFamily: var(--fb); fontWeight: 600; letterSpacing: 1px; textTransform: uppercase; padding: 2px 6px; borderRadius: 4"
                            ∷ [])
                          ∷ [])
                        ((text skill) ∷ []))
                    ((take 3 v.skills)))
                  ∷ [])))
          ∷ (tag "div"
              (style (
                  "borderTop: 1px solid var(--primary-10); paddingTop: 8; fontFamily: var(--fb); fontSize: 11; color: var(--mid)"
                  ∷ [])
                ∷ [])
              ((tag "span" [] ((text "Closeness: ") ∷ []))
                ∷ (tag "strong" (style ("color: var(--dark); fontWeight: 600" ∷ []) ∷ [])
                    ((text ((n.to_fixed 3 v.closeness))) ∷ []))
                ∷ (text (" · "))
                ∷ (tag "span" [] ((text "Betweenness: ") ∷ []))
                ∷ (tag "strong" (style ("color: var(--dark); fontWeight: 600" ∷ []) ∷ [])
                    ((text ((n.to_fixed 3 v.betweenness))) ∷ []))
                ∷ []))
          ∷ [])

  -- `EngineerPanel`: nothing without a node.
  unfoldable pub engineer_panel : {A : Type 0} → A → Option (ForceGraphNode F) → Html A
  engineer_panel close none = nothing
  engineer_panel close (some v) = engineer_details close v

  abbrev tooltip_for : {A : Type 0} → Option F → Option F → Option (ForceGraphNode F) → Html A
  tooltip_for x y none = nothing
  tooltip_for x y (some v) = tooltip_of x y v

  -- `NodeTooltip`.
  unfoldable pub node_tooltip :
      {A : Type 0} → String → List (ForceGraphNode F) → Option F → Option F → Html A
  node_tooltip id nodes x y = tooltip_for x y (find_node id nodes)
