-- ===== src/TeamGraph/Overlays.antt =====
-- apps/web/components/graph/TeamGraph.tsx: the zoom buttons and the legend.
use socio_technical_alignmen.Api.{RelationshipType}
use socio_technical_alignmen.Api.Client.{◌<>◌}
use socio_technical_alignmen.GraphUtils.{get_team_color, relationship_meta}
use socio_technical_alignmen.Html.{Html, attr, each, on, style, tag, text, when}
use socio_technical_alignmen.Prelude.{
  List, String, [], if◌then◌else◌, is_empty, not, str_eq, ℕ, ◌∷◌,
}

-- What a zoom button does: `zoomToFit(400, 110)`, or `zoom` by a factor in tenths.
pub data ZoomAction : Type 0 where
  fit : ZoomAction
  zoom_by : ℕ → ZoomAction

pub record ZoomButton : Type 0 where
  pub symbol : String
  pub title : String
  pub action : ZoomAction

unfoldable pub zoom_buttons : List ZoomButton
zoom_buttons =
    record { symbol = "⊞"; title = "Fit graph to screen"; action = fit }
    ∷ record { symbol = "+"; title = "Zoom in"; action = zoom_by 14 }
    ∷ record { symbol = "−"; title = "Zoom out"; action = zoom_by 7 }
    ∷ []

-- `canvas` is the drawing component; `close` empties the selection.
pub record Controls (A : Type 0) : Type 0 where
  pub canvas : Html A
  pub zoom : ZoomAction → A
  pub close : A

-- The zoom buttons.
unfoldable pub zoom_controls : {A : Type 0} → Controls A → Html A
zoom_controls controls =
    tag "div"
      (style (
          "position: absolute; top: 12; right: 12; display: flex; flexDirection: column; gap: 4; zIndex: 10"
          ∷ [])
        ∷ [])
      ((each
          (λ b.
            tag "button"
              (attr "title" b.title
                ∷ on "onClick" (controls.zoom b.action)
                ∷ style (
                    "width: 30; height: 30; borderRadius: 6; border: 1px solid var(--primary-30); backgroundColor: rgba(255,255,255,0.92); color: var(--primary)"
                    ∷ ("fontSize: " <> (if (str_eq b.symbol "⊞") then "14" else "16"))
                    ∷ "fontWeight: 600; cursor: pointer; display: flex; alignItems: center; justifyContent: center; boxShadow: 0 1px 3px rgba(0,51,102,0.10)"
                    ∷ [])
                ∷ [])
              ((text b.symbol) ∷ []))
          zoom_buttons)
        ∷ [])

-- The legend: the teams and the kinds of edges that the graph has.
unfoldable pub legend : {A : Type 0} → List String → List RelationshipType → Html A
legend teams rels =
    tag "div"
      (style (
          "position: absolute; bottom: 12; left: 12; backgroundColor: rgba(255,255,255,0.93); borderRadius: 8; padding: 10px 14px; boxShadow: 0 1px 6px rgba(0,51,102,0.10); border: 1px solid var(--primary-10); zIndex: 10; minWidth: 160"
          ∷ [])
        ∷ [])
      ((when ((not (is_empty teams))) (
          tag "div"
            (style (("marginBottom: " <> (if (not (is_empty rels)) then "8" else "0")) ∷ []) ∷ [])
            ((tag "div"
                (style (
                    "fontFamily: var(--fb); fontSize: 8; fontWeight: 700; letterSpacing: 2px; textTransform: uppercase; color: var(--mid); marginBottom: 5"
                    ∷ [])
                  ∷ [])
                ((text "Teams") ∷ []))
              ∷ (each
                  (λ t.
                    tag "div"
                      (style ("display: flex; alignItems: center; gap: 6; marginBottom: 3" ∷ [])
                        ∷ [])
                      ((tag "div"
                          (style (
                              "width: 10; height: 10; borderRadius: 50%"
                              ∷ ("backgroundColor: " <> (get_team_color t teams))
                              ∷ "flexShrink: 0"
                              ∷ [])
                            ∷ [])
                          [])
                        ∷ (tag "span"
                            (style ("fontFamily: var(--fb); fontSize: 10; color: var(--dark)" ∷ [])
                              ∷ [])
                            ((text t) ∷ []))
                        ∷ []))
                  teams)
              ∷ [])))
        ∷ (when ((not (is_empty rels))) (
            tag "div" [] (
              (tag "div"
                (style (
                    "fontFamily: var(--fb); fontSize: 8; fontWeight: 700; letterSpacing: 2px; textTransform: uppercase; color: var(--mid); marginBottom: 5"
                    ∷ ("marginTop: " <> (if (not (is_empty teams)) then "6" else "0"))
                    ∷ ("paddingTop: " <> (if (not (is_empty teams)) then "6" else "0"))
                    ∷ ("borderTop: "
                        <> (if (not (is_empty teams))
                            then "1px solid var(--primary-10)"
                            else "none"))
                    ∷ [])
                  ∷ [])
                ((text "Edges") ∷ []))
              ∷ (each
                  (λ k.
                    tag "div"
                      (style ("display: flex; alignItems: center; gap: 6; marginBottom: 3" ∷ [])
                        ∷ [])
                      ((tag "div"
                          (style (
                              "width: 18; height: 2"
                              ∷ ("backgroundColor: " <> (relationship_meta k).color)
                              ∷ "borderRadius: 1; flexShrink: 0"
                              ∷ [])
                            ∷ [])
                          [])
                        ∷ (tag "span"
                            (style ("fontFamily: var(--fb); fontSize: 10; color: var(--dark)" ∷ [])
                              ∷ [])
                            ((text ((relationship_meta k).label)) ∷ []))
                        ∷ []))
                  rels)
              ∷ [])))
        ∷ (tag "div"
            (style (
                "marginTop: 6; paddingTop: 6; borderTop: 1px solid var(--primary-10); fontFamily: var(--fb); fontSize: 9; color: var(--mid); lineHeight: 1.5"
                ∷ [])
              ∷ [])
            ((text "Node size = betweenness")
              ∷ (tag "br" [] [])
              ∷ (text "Gold ring = staff · white ring = senior")
              ∷ []))
        ∷ [])

-- Without nodes.
unfoldable pub no_graph : {A : Type 0} → Html A
no_graph =
    tag "div"
      (style (
          "display: flex; alignItems: center; justifyContent: center; height: 400; backgroundColor: var(--light); borderRadius: 12; color: var(--mid); fontFamily: var(--fb); fontSize: 14"
          ∷ [])
        ∷ [])
      ((text "No graph data — select a team to load the graph.") ∷ [])
