-- ===== src/TeamGraph/Tooltip.antt =====
-- apps/web/components/graph/TeamGraph.tsx and NodeTooltip.tsx: which tooltip a hovered node has.
use mathlib.Core.List.{Memᴰ}
use socio_technical_alignmen.Prelude.{
  ◌≡◌, refl, sym, ◌∙◌, ap, String, true, false, Option, none, some, List, [], ◌∷◌, All, inl, inr,
  arith, Bool-cases, str_eq, eq_refl,
}
use socio_technical_alignmen.Number.{Number}
use socio_technical_alignmen.Html.{nothing}
use socio_technical_alignmen.Api.{ForceGraphNode}
use socio_technical_alignmen.Store.Graph.{
  CandidateForceNode, engineer, candidate, set_hovered_node_id,
}
use socio_technical_alignmen.TeamGraph.{CanvasState, Pointer, handle_node_hover}
use socio_technical_alignmen.TeamGraph.View.{base_nodes, tooltip_part}
use socio_technical_alignmen.GraphParts.{find_node, node_tooltip, tooltip_of}

module _ {F : Type 0} where
  -- Without a node of the id there is none to find.
  find_node_absent :
      (id : String) (vs : List (ForceGraphNode F))
      → All (λ v. str_eq v.id id ≡ false) vs
      → find_node id vs ≡ none
  unfolding find_node
  find_node_absent id [] h = refl
  find_node_absent id (v ∷ vs) (other, rest) = rw other (find_node_absent id vs rest)

  -- A listed node is found by its id if no other node has it.
  find_node_listed :
      (e : ForceGraphNode F) (vs : List (ForceGraphNode F))
      → Memᴰ e vs
      → All (λ v. str_eq v.id e.id ≡ true → v ≡ e) vs
      → find_node e.id vs ≡ some e
  unfolding find_node
  find_node_listed e [] m h = elim m [ ]
  find_node_listed e (v ∷ vs) m (one, rest) = elim (Bool-cases (str_eq v.id e.id)) [
    | inl same ↦ rw same (ap some (one same))
    | inr other ↦ elim m [
      | Memᴰ.head p ↦
          let same = sym (ap (λ (x : ForceGraphNode F). str_eq x.id e.id) p) ∙ eq_refl e.id in
          absurd (ground (arith, other, same))
      | Memᴰ.tail t ↦ rw other (find_node_listed e vs t rest)
    ]
  ]

module _ {F : Type 0} ⦃n : Number F⦄ where
  -- An engineer that the pointer is over, with an id that is not empty and no other node's, gets
  -- the tooltip of the engineer at the coordinates of the handler's second argument, with none
  -- where the argument has no such coordinates, and no tooltip if there is no second argument.
  -- Without a node there is none either.
  pub engineer_has_tooltip :
      {A : Type 0}
      → (e : ForceGraphNode F) (event : Option (Pointer F)) (s : CanvasState F)
      → Memᴰ e (base_nodes s.graph)
      → All (λ (v : ForceGraphNode F). str_eq v.id e.id ≡ true → v ≡ e) (base_nodes s.graph)
      → str_eq e.id "" ≡ false
      → (tooltip_part {A = A} (handle_node_hover (some (engineer e)) event s)
          ≡ (elim event [ none ↦ nothing | some p ↦ tooltip_of p.client_x p.client_y e ]))
        × (tooltip_part {A = A} (handle_node_hover none event s) ≡ nothing)
  unfolding handle_node_hover set_hovered_node_id node_tooltip
  engineer_has_tooltip e none s m only named = (refl, refl)
  engineer_has_tooltip e (some p) s m only named =
      (rw (named, find_node_listed e (base_nodes s.graph) m only) refl, refl)

  -- A candidate that the pointer is over gets no tooltip if no engineer has its id, whatever the
  -- second argument of the handler is: the tooltip looks for the id among the engineers only.
  pub candidate_has_no_tooltip :
      {A : Type 0}
      → (c : CandidateForceNode F) (event : Option (Pointer F)) (s : CanvasState F)
      → All (λ (v : ForceGraphNode F). str_eq v.id c.node.id ≡ false) (base_nodes s.graph)
      → tooltip_part {A = A} (handle_node_hover (some (candidate c)) event s) ≡ nothing
  unfolding handle_node_hover set_hovered_node_id node_tooltip
  candidate_has_no_tooltip c none s h = refl
  candidate_has_no_tooltip c (some p) s h = elim (Bool-cases (str_eq c.node.id "")) [
    | inl unnamed ↦ rw unnamed refl
    | inr named ↦ rw (named, find_node_absent c.node.id (base_nodes s.graph) h) refl
  ]
