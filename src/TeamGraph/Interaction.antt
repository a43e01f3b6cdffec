-- ===== src/TeamGraph/Interaction.antt =====
-- The pointer on the canvas: clicks, and the labels that the drawing shows.
use socio_technical_alignmen.Prelude.{
  String, Bool, true, false, ◌||◌, ◌≡◌, refl, ◌∙◌, none, some, List, [], ◌∷◌, ◌++◌, arith, leb,
  eq_refl, if◌then◌else◌, inl, inr, Bool-cases,
}
use socio_technical_alignmen.Number.{Number}
use socio_technical_alignmen.Api.{ForceGraphNode, Seniority, junior, mid, senior, staff}
use socio_technical_alignmen.GraphUtils.{node_radius, get_team_color}
use socio_technical_alignmen.Store.Graph.{AnyNode, node_id, set_selected_node_id}
use socio_technical_alignmen.TeamGraph.{CanvasState, handle_node_click, is_selected}
use socio_technical_alignmen.TeamGraph.Canvas.{
  Draw, Scene, draw_engineer, fill_text, glow, seniority_ring, body, label,
}

module _ {F : Type 0} where
  selected_after :
      (v : AnyNode F) (s : CanvasState F)
      → (handle_node_click v s).graph.selected_node_id
        ≡ (if is_selected s.graph.selected_node_id (node_id v) then none else some (node_id v))
  unfolding handle_node_click set_selected_node_id
  selected_after v s = refl

  -- Two clicks on a node leave it selected if it was selected before, and leave nothing selected
  -- if it was not.
  handle_node_click_twice :
      (v : AnyNode F) (s : CanvasState F)
      → (handle_node_click v (handle_node_click v s)).graph.selected_node_id
        ≡ (if is_selected s.graph.selected_node_id (node_id v) then some (node_id v) else none)
  handle_node_click_twice v s =
      elim (Bool-cases (is_selected s.graph.selected_node_id (node_id v))) [
        | inl chosen ↦
            rw (selected_after v (handle_node_click v s), selected_after v s, chosen) refl
        | inr free ↦
            rw
              (
                selected_after v (handle_node_click v s),
                selected_after v s,
                free,
                eq_refl (node_id v),
              )
              refl
      ]

  is_text_command : Draw F → Bool
  is_text_command (fill_text t x y) = true
  is_text_command _ = false

  -- Some text is drawn.
  unfoldable pub writes : List (Draw F) → Bool
  unfolding is_text_command
  writes [] = false
  writes (d ∷ ds) = is_text_command d || writes ds

  writes-append : (cs ds : List (Draw F)) → writes (cs ++ ds) ≡ (writes cs || writes ds)
  unfolding writes
  writes-append [] ds = refl
  writes-append (c ∷ cs) ds = ground (arith, writes-append cs ds)

module _ {F : Type 0} ⦃n : Number F⦄ where
  writes-glow : (h s : Bool) (r x y : F) → writes (glow h s r x y) ≡ false
  unfolding writes
  writes-glow true s r x y = refl
  writes-glow false true r x y = refl
  writes-glow false false r x y = refl

  writes-ring : (g : Seniority) (r x y : F) → writes (seniority_ring g r x y) ≡ false
  unfolding writes
  writes-ring staff r x y = refl
  writes-ring senior r x y = refl
  writes-ring mid r x y = refl
  writes-ring junior r x y = refl

  writes-label :
      (show s : Bool) (e : ForceGraphNode F) (r x y scale : F)
      → writes (label show s e r x y scale) ≡ show
  unfolding writes
  writes-label true s e r x y scale = refl
  writes-label false s e r x y scale = refl

  bare_body : (h s : Bool) (color : String) (r x y : F) → writes (body h s color r x y) ≡ false
  unfolding writes
  bare_body h s color r x y = refl

  writes-parts :
      (h s show : Bool) (e : ForceGraphNode F) (color : String) (r x y scale : F)
      → writes (
          glow h s r x y
          ++ (seniority_ring e.seniority r x y
              ++ (body h s color r x y ++ label show s e r x y scale)))
        ≡ show
  writes-parts h s show e color r x y scale =
      let bare : writes (body h s color r x y) ≡ false = bare_body h s color r x y in
      writes-append (glow h s r x y) _
      ∙ rw
          (
            writes-glow h s r x y,
            writes-append (seniority_ring e.seniority r x y)
                (body h s color r x y ++ label show s e r x y scale),
            writes-ring e.seniority r x y,
            writes-append (body h s color r x y) (label show s e r x y scale),
            bare,
            writes-label show s e r x y scale,
          )
          refl

  -- An engineer's name is drawn exactly when the node is hovered or selected, the zoom is at least
  -- 1.2, or the graph has at most 12 nodes.
  pub writes-draw_engineer :
      (scene : Scene F) (e : ForceGraphNode F) (x y scale : F)
      → writes (draw_engineer scene e x y scale) ≡ (
          is_selected scene.hovered_node_id e.id
          || is_selected scene.selected_node_id e.id
          || n.le (n.lit 12 1) scale
          || leb scene.node_count 12)
  unfolding draw_engineer
  writes-draw_engineer scene e x y scale =
      writes-parts (is_selected scene.hovered_node_id e.id)
        (is_selected scene.selected_node_id e.id) _ e (get_team_color e.team scene.teams)
        (node_radius e.betweenness scene.mx_betweenness) x y scale
