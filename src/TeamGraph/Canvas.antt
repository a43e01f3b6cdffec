-- ===== src/TeamGraph/Canvas.antt =====
-- The drawing callbacks of the canvas, as lists of drawing commands.
use socio_technical_alignmen.Prelude.{
  ℕ, String, Bool, ◌||◌, Option, none, some, List, [], ◌∷◌, ◌++◌, take, leb, if◌then◌else◌,
}
use socio_technical_alignmen.Prelude.Text.{Text, utf16, split}
use socio_technical_alignmen.Number.{Number}
use socio_technical_alignmen.Api.{ForceGraphNode, Seniority, junior, mid, senior, staff}
use socio_technical_alignmen.GraphUtils.{
  node_radius, get_team_color, edge_opacity, edge_width, edge_color,
}
use socio_technical_alignmen.Store.Simulation.{Slot, slot_a, slot_b}
use socio_technical_alignmen.Store.Graph.{CandidateForceNode, AnyNode, engineer, candidate}
use socio_technical_alignmen.TeamGraph.{AnyLink, base, predicted, is_selected}

-- A colour: a CSS text, or a hexadecimal colour at an opacity (`rgba(r,g,b,opacity)`).
pub data Style (F : Type 0) : Type 0 where
  css : String → Style F
  fade : String → F → Style F

-- The commands on the canvas context; `arc` is the full circle, `font` the weight and the size.
pub data Draw (F : Type 0) : Type 0 where
  begin_path close_path fill stroke : Draw F
  arc : F → F → F → Draw F
  move_to line_to : F → F → Draw F
  fill_style stroke_style : Style F → Draw F
  line_width line_dash_offset global_alpha shadow_blur : F → Draw F
  line_dash : List F → Draw F
  font : String → F → Draw F
  text_top_center : Draw F
  shadow_color : String → Draw F
  fill_text : Text → F → F → Draw F

-- What the node callback closes over.
pub record Scene (F : Type 0) : Type 0 where
  pub hovered_node_id : Option String
  pub selected_node_id : Option String
  pub teams : List String
  pub mx_betweenness : F
  pub node_count : ℕ

abbrev pub slot_canvas_color : Slot → String
slot_canvas_color slot_a = "#C8982A"
slot_canvas_color slot_b = "#336699"

abbrev glow_color : Slot → String
glow_color slot_a = "rgba(200,152,42,0.18)"
glow_color slot_b = "rgba(51,102,153,0.18)"

-- `pieces.join(" ")`, and the first two words of a name.
abbrev join_space : List Text → Text
join_space [] = []
join_space (w ∷ []) = w
join_space (w ∷ v ∷ ws) = w ++ (b' ' ∷ join_space (v ∷ ws))

abbrev first_word : String → Text
first_word name = (split b' ' (utf16 name)).0

abbrev two_words : String → Text
two_words name = let (w, ws) = split b' ' (utf16 name) in join_space (take 2 (w ∷ ws))

module _ {F : Type 0} ⦃n : Number F⦄ where
  -- The diamond of a candidate.
  unfoldable pub draw_candidate : CandidateForceNode F → F → F → F → List (Draw F)
  draw_candidate c x y global_scale =
      let r = n.lit 10 0 in
      let tall = n.mul r (n.lit 145 2) in
      begin_path
      ∷ arc x y (n.add r (n.lit 7 0))
      ∷ fill_style (css (glow_color c.slot))
      ∷ fill
      ∷ begin_path
      ∷ move_to x (n.sub y tall)
      ∷ line_to (n.add x r) y
      ∷ line_to x (n.add y tall)
      ∷ line_to (n.sub x r) y
      ∷ close_path
      ∷ fill_style (css (slot_canvas_color c.slot))
      ∷ fill
      ∷ stroke_style (css "#ffffff")
      ∷ line_width (n.lit 15 1)
      ∷ stroke
      ∷ font "600 " (n.max (n.div (n.lit 10 0) global_scale) (n.lit 25 1))
      ∷ fill_style (css (slot_canvas_color c.slot))
      ∷ text_top_center
      ∷ fill_text (first_word c.name) x (n.add (n.add y tall) (n.lit 3 0))
      ∷ []

  -- The glow behind a hovered or selected node.
  abbrev pub glow : Bool → Bool → F → F → F → List (Draw F)
  glow hovered selected r x y =
      if hovered || selected
      then begin_path
        ∷ arc x y (n.add r (n.lit 5 0))
        ∷ fill_style (css (if selected then "rgba(200,152,42,0.22)" else "rgba(232,196,106,0.14)"))
        ∷ fill
        ∷ []
      else []

  -- The ring of a staff or senior engineer.
  abbrev pub seniority_ring : Seniority → F → F → F → List (Draw F)
  seniority_ring staff r x y =
      begin_path
      ∷ arc x y (n.add r (n.lit 3 0))
      ∷ stroke_style (css "#C8982A")
      ∷ line_width (n.lit 2 0)
      ∷ stroke
      ∷ []
  seniority_ring senior r x y =
      begin_path
      ∷ arc x y (n.add r (n.lit 25 1))
      ∷ stroke_style (css "rgba(255,255,255,0.55)")
      ∷ line_width (n.lit 15 1)
      ∷ stroke
      ∷ []
  seniority_ring mid r x y = []
  seniority_ring junior r x y = []

  abbrev pub body : Bool → Bool → String → F → F → F → List (Draw F)
  body hovered selected color r x y =
      begin_path
      ∷ arc x y r
      ∷ fill_style (css color)
      ∷ fill
      ∷ stroke_style (
          css (
            if selected
            then "#C8982A"
            else if hovered
            then "rgba(232,196,106,0.9)"
            else "rgba(255,255,255,0.35)"))
      ∷ line_width (if selected then n.lit 25 1 else n.lit 15 1)
      ∷ stroke
      ∷ []

  abbrev pub label : Bool → Bool → ForceGraphNode F → F → F → F → F → List (Draw F)
  label show selected e r x y global_scale =
      if show
      then font "" (n.max (n.div (n.lit 11 0) global_scale) (n.lit 25 1))
        ∷ shadow_color "rgba(255,255,255,0.9)"
        ∷ shadow_blur (n.lit 4 0)
        ∷ fill_style (css (if selected then "#C8982A" else "#1C1C2E"))
        ∷ text_top_center
        ∷ fill_text (two_words e.name) x (n.add (n.add y r) (n.lit 25 1))
        ∷ shadow_blur (n.lit 0 0)
        ∷ []
      else []

  unfoldable pub draw_engineer : Scene F → ForceGraphNode F → F → F → F → List (Draw F)
  draw_engineer scene e x y global_scale =
      let r = node_radius e.betweenness scene.mx_betweenness in
      let hovered = is_selected scene.hovered_node_id e.id in
      let selected = is_selected scene.selected_node_id e.id in
      let show = hovered || selected || n.le (n.lit 12 1) global_scale || leb scene.node_count 12 in
      glow hovered selected r x y
      ++ (seniority_ring e.seniority r x y
          ++ (body hovered selected (get_team_color e.team scene.teams) r x y
              ++ label show selected e r x y global_scale))

  -- A node that the layout has not placed yet is not drawn.
  abbrev at : Option F → Option F → (F → F → List (Draw F)) → List (Draw F)
  at none y draw = []
  at (some x) none draw = []
  at (some x) (some y) draw = draw x y

  unfoldable pub node_canvas_object : Scene F → AnyNode F → F → List (Draw F)
  node_canvas_object scene (candidate c) scale = at c.x c.y (λ x y. draw_candidate c x y scale)
  node_canvas_object scene (engineer e) scale = at e.x e.y (λ x y. draw_engineer scene e x y scale)

  -- A link between placed end points; the dash offset of a predicted one follows the clock.
  draw_link : (F → F) → F → F → AnyLink F → F → F → F → F → List (Draw F)
  draw_link log1p mx phase (predicted l) sx sy tx ty =
      begin_path
      ∷ move_to sx sy
      ∷ line_to tx ty
      ∷ line_dash (n.lit 5 0 ∷ n.lit 4 0 ∷ [])
      ∷ line_dash_offset (n.mul (n.sub (n.lit 0 0) phase) (n.lit 9 0))
      ∷ stroke_style (css (slot_canvas_color l.slot))
      ∷ line_width (n.lit 15 1)
      ∷ global_alpha (n.lit 75 2)
      ∷ stroke
      ∷ line_dash []
      ∷ global_alpha (n.lit 1 0)
      ∷ []
  draw_link log1p mx phase (base l) sx sy tx ty =
      begin_path
      ∷ move_to sx sy
      ∷ line_to tx ty
      ∷ stroke_style (fade (edge_color l.relationship) (edge_opacity log1p l.weight mx))
      ∷ line_width (edge_width l.weight mx)
      ∷ stroke
      ∷ []

  unfoldable pub link_canvas_object :
      (F → F) → F → F → AnyLink F → Option F → Option F → Option F → Option F → List (Draw F)
  unfolding draw_link
  link_canvas_object log1p mx phase l sx sy tx ty =
      at sx sy (λ x y. at tx ty (λ u v. draw_link log1p mx phase l x y u v))
