-- ===== src/TeamGraph/Merge.antt =====
-- The merge of the base graph with the candidates, and the legend.
use mathlib.Core.List.{Memᴰ}
use mathlib.Core.Path.{subst}
use socio_technical_alignmen.Prelude.{
  String, ◌≡◌, sym, ap, refl, inl, inr, List, [], ◌∷◌, ◌++◌, map, append-nil,
}
use socio_technical_alignmen.Prelude.Members.{
  mem-map_sound, mem-map_complete, mem-append_left, mem-append_right, mem-append_split,
}
use socio_technical_alignmen.Number.{Number}
use socio_technical_alignmen.Api.{ForceGraphNode, ForceGraphLink, ForceGraphData}
use socio_technical_alignmen.Store.Graph.{
  GraphState, CandidateForceNode, PredictedForceLink, AnyNode, engineer, candidate, node_id,
  compute_predicted_edges,
}
use socio_technical_alignmen.Store.Graph.Prediction.{compute_predicted_edges_iff}
use socio_technical_alignmen.TeamGraph.{
  AnyLink, base, predicted, link_of, active_candidates, merge, predicted_links,
}

-- A node of the list has the id.
abbrev pub HasNode : {F : Type 0} → String → List (AnyNode F) → Type 0
HasNode {F} id nodes = (v : AnyNode F) × Memᴰ v nodes × (node_id v ≡ id)

abbrev pub HasEngineer : {F : Type 0} → String → List (ForceGraphNode F) → Type 0
HasEngineer {F} id nodes = (e : ForceGraphNode F) × Memᴰ e nodes × (e.id ≡ id)

-- Both ends of every link of the base graph are engineers of it.
abbrev pub IsClosed : {F : Type 0} → ForceGraphData F → Type 0
IsClosed {F} g =
    (l : ForceGraphLink F)
    → Memᴰ l g.links
    → HasEngineer l.source g.nodes × HasEngineer l.target g.nodes

module _ {F : Type 0} ⦃n : Number F⦄ where
  -- A predicted link leads from one of the candidates to an engineer.
  ends :
      (cs : List (CandidateForceNode F)) (es : List (ForceGraphNode F)) (l : PredictedForceLink F)
      → Memᴰ l (predicted_links cs es)
      → ((c : CandidateForceNode F) × Memᴰ c cs × (c.id ≡ l.source)) × HasEngineer l.target es
  unfolding predicted_links
  ends [] es l m = elim m [ ]
  ends (c ∷ cs) es l m = elim (mem-append_split (compute_predicted_edges c es) _ m) [
    | inl here ↦
        let (e, k, listed, shared, counted, same) = (compute_predicted_edges_iff c es l).0 here in
        (
          (c, Memᴰ.head refl, sym (ap (λ (k : PredictedForceLink F). k.source) same)),
          (e, listed, sym (ap (λ (k : PredictedForceLink F). k.target) same)),
        )
    | inr later ↦
        let ((d, listed, same), target) = ends cs es l later in
        ((d, Memᴰ.tail listed, same), target)
  ]

  as_node :
      (id : String) (es : List (ForceGraphNode F)) (vs : List (AnyNode F))
      → HasEngineer id es
      → HasNode id (map engineer es ++ vs)
  as_node id es vs (e, listed, same) = (
    engineer e,
    mem-append_left (map engineer es) vs (mem-map_complete engineer es e listed),
    same,
  )

  -- The merged graph in one form for no candidates and for some.
  merge_closed :
      (cs : List (CandidateForceNode F)) (g : ForceGraphData F) (l : AnyLink F)
      → IsClosed g
      → Memᴰ l (map base g.links ++ map predicted (predicted_links cs g.nodes))
      → HasNode (link_of l).source (map engineer g.nodes ++ map candidate cs)
        × HasNode (link_of l).target (map engineer g.nodes ++ map candidate cs)
  merge_closed cs g l closed m = elim (mem-append_split (map base g.links) _ m) [
    | inl here ↦
        let (k, listed, same) = mem-map_sound base g.links l here in
        let (source, target) = closed k listed in
        subst
          (λ (j : AnyLink F).
            HasNode (link_of j).source (map engineer g.nodes ++ map candidate cs)
            × HasNode (link_of j).target (map engineer g.nodes ++ map candidate cs))
          same (as_node k.source g.nodes _ source, as_node k.target g.nodes _ target)
    | inr later ↦
        let (k, listed, same) = mem-map_sound predicted (predicted_links cs g.nodes) l later in
        let ((c, mine, id), target) = ends cs g.nodes k listed in
        subst
          (λ (j : AnyLink F).
            HasNode (link_of j).source (map engineer g.nodes ++ map candidate cs)
            × HasNode (link_of j).target (map engineer g.nodes ++ map candidate cs))
          same
          (
            (
              candidate c,
              mem-append_right (map engineer g.nodes) _ (mem-map_complete candidate cs c mine),
              id,
            ),
            as_node k.target g.nodes _ target,
          )
  ]

  nodes-merge :
      (cs : List (CandidateForceNode F)) (g : ForceGraphData F)
      → map engineer g.nodes ++ map candidate cs ≡ (merge cs g).nodes
  unfolding merge
  nodes-merge [] g = append-nil (map engineer g.nodes)
  nodes-merge (c ∷ cs) g = refl

  links-merge :
      (cs : List (CandidateForceNode F)) (g : ForceGraphData F)
      → (merge cs g).links ≡ map base g.links ++ map predicted (predicted_links cs g.nodes)
  unfolding merge predicted_links
  links-merge [] g = sym (append-nil (map base g.links))
  links-merge (c ∷ cs) g = refl

  -- If both ends of every base link are engineers of the base graph, both ends of every link that
  -- is drawn, predicted ones included, are drawn nodes.
  pub merged_data-HasNode :
      (s : GraphState F) (g : ForceGraphData F) (l : AnyLink F)
      → IsClosed g
      → Memᴰ l (merge (active_candidates s) g).links
      → HasNode (link_of l).source (merge (active_candidates s) g).nodes
        × HasNode (link_of l).target (merge (active_candidates s) g).nodes
  merged_data-HasNode s g l closed m =
      let cs = active_candidates s in
      subst
        (λ (vs : List (AnyNode F)). HasNode (link_of l).source vs × HasNode (link_of l).target vs)
        (nodes-merge cs g)
        (merge_closed cs g l closed
          (subst (λ (ls : List (AnyLink F)). Memᴰ l ls) (links-merge cs g) m))
