-- ===== src/TeamGraph/View.antt =====
-- apps/web/components/graph/TeamGraph.tsx: what the component shows.
use socio_technical_alignmen.Api.{ForceGraphNode, RelationshipType}
use socio_technical_alignmen.Api.Client.{◌<>◌}
use socio_technical_alignmen.GraphParts.{engineer_panel, node_tooltip}
use socio_technical_alignmen.GraphUtils.{extract_teams}
use socio_technical_alignmen.Html.{Html, attr, flag, nothing, style, tag, text, when}
use socio_technical_alignmen.Number.{Number}
use socio_technical_alignmen.Prelude.{
  List, Option, String, [], if◌then◌else◌, is_empty, none, some, str_eq, true, ◌∷◌,
}
use socio_technical_alignmen.Store.Graph.{
  AnyNode, GraphState, candidate, engineer, get_selected_node,
}
use socio_technical_alignmen.TeamGraph.{CanvasState, merged_data, present_rel_types}
use socio_technical_alignmen.TeamGraph.Overlays.{Controls, legend, no_graph, zoom_controls}

module _ {F : Type 0} ⦃n : Number F⦄ where
  -- `graphData?.nodes ?? []`.
  abbrev pub base_nodes : GraphState F → List (ForceGraphNode F)
  base_nodes g = elim g.graph_data [ none ↦ [] | some d ↦ d.nodes ]

  -- `{tooltipPos && hoveredNodeId && …}`.
  abbrev pub tooltip_part : {A : Type 0} → CanvasState F → Html A
  tooltip_part s = elim s.tooltip_pos [
    | none ↦ nothing
    | some at_point ↦ elim s.graph.hovered_node_id [
      | none ↦ nothing
      | some id ↦
          if str_eq id ""
          then nothing
          else node_tooltip id (base_nodes s.graph) at_point.client_x at_point.client_y
    ]
  ]

  -- The panel takes a candidate's node as any node.
  abbrev plain_node : AnyNode F → ForceGraphNode F
  plain_node (engineer v) = v
  plain_node (candidate c) = c.node

  abbrev shown_node : Option (AnyNode F) → Option (ForceGraphNode F)
  shown_node none = none
  shown_node (some v) = some (plain_node v)

  -- `{selectedNodeId && …}`.
  abbrev panel_part : {A : Type 0} → A → CanvasState F → Html A
  panel_part close s = elim s.graph.selected_node_id [
    | none ↦ nothing
    | some id ↦
        if str_eq id ""
        then nothing
        else engineer_panel close (shown_node (get_selected_node s.graph))
  ]

  -- The canvas with its overlays.
  unfoldable pub canvas_view :
      {A : Type 0}
      → Controls A
      → F × F
      → List String
      → List RelationshipType
      → CanvasState F
      → Html A
  canvas_view controls dims teams rels s =
      tag "div"
        (style (
            "position: relative; backgroundColor: var(--light); borderRadius: 12; overflow: hidden; boxShadow: 0 1px 6px rgba(0,51,102,0.09)"
            ∷ [])
          ∷ [])
        ((tag "div"
            (attr "data-testid" "team-graph-canvas"
              ∷ flag "onDragOver" true
              ∷ flag "onDragLeave" true
              ∷ flag "onDrop" true
              ∷ style (
                  "width: 100%"
                  ∷ ("height: " <> (n.to_text dims.1))
                  ∷ ("outline: "
                      <> (if s.is_drag_over
                          then "2px dashed var(--gold)"
                          else "2px solid transparent"))
                  ∷ "outlineOffset: -2; borderRadius: 12; transition: outline-color 0.15s"
                  ∷ [])
              ∷ [])
            (controls.canvas ∷ []))
          ∷ (zoom_controls controls)
          ∷ (legend teams rels)
          ∷ (when s.is_drag_over (
              tag "div"
                (style (
                    "position: absolute; inset: 0; display: flex; alignItems: center; justifyContent: center; backgroundColor: rgba(200,152,42,0.08); borderRadius: 12; pointerEvents: none"
                    ∷ [])
                  ∷ [])
                ((tag "div"
                    (style (
                        "fontFamily: var(--fb); fontSize: 14; fontWeight: 600; color: var(--gold); letterSpacing: 1px"
                        ∷ [])
                      ∷ [])
                    ((text "Release to insert candidate") ∷ []))
                  ∷ [])))
          ∷ (tooltip_part s)
          ∷ (panel_part controls.close s)
          ∷ [])

  -- `TeamGraph`: the teams of the legend are those of the nodes, of which there is at least one.
  unfoldable pub team_graph : {A : Type 0} → Controls A → F × F → CanvasState F → Html A
  team_graph controls dims s = elim (merged_data s.graph) [
    | none ↦ no_graph
    | some merged ↦
        if is_empty merged.nodes
        then no_graph
        else canvas_view controls dims (extract_teams (base_nodes s.graph))
            (present_rel_types (some merged)) s
  ]
