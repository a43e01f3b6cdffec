-- ===== src/Loading/Snapshots.antt =====
-- The centrality of the nodes after a load.
use socio_technical_alignmen.Prelude.{
  ◌≡◌, refl, ap, ◌∙◌, String, Option, none, some, List, [], ◌∷◌, map, All, lookup,
}
use socio_technical_alignmen.Number.{Number}
use socio_technical_alignmen.Api.{
  EngineerNode, GraphSnapshot, SnapshotMeta, CentralityScore, ForceGraphNode, ForceGraphLink,
  ForceGraphData, GraphEdge, RelationshipType,
}
use socio_technical_alignmen.Store.Graph.{
  GraphState, set_snapshot, set_snapshots, set_active_snapshot_id, build_force_graph_data,
  force_node, force_link, Centrality, closeness_of, betweenness_of,
}
use socio_technical_alignmen.Workspace.{centrality_map}
use socio_technical_alignmen.Workspace.Loading.{last_score, lookup-centrality_map}
use socio_technical_alignmen.Loading.{SelectorState, select_answered, hydrate}

module _ {F : Type 0} ⦃n : Number F⦄ where
  abbrev pub IsFlat : ForceGraphNode F → Type 0
  IsFlat e = (e.closeness ≡ n.lit 0 0) × (e.betweenness ≡ n.lit 0 0)

flat :
    (F : Type 0) ⦃n : Number F⦄ (es : List EngineerNode)
    → All (IsFlat {F = F}) (map (force_node {F = F} []) es)
unfolding lookup
flat F [] = tt
flat F (e ∷ es) = ((refl, refl), flat F es)

module _ {F : Type 0} ⦃n : Number F⦄ where
  nothing : (id : String) → lookup {V = Centrality F} id [] ≡ none
  unfolding lookup
  nothing id = refl

  -- A snapshot that the selector loads is shown with the closeness and the betweenness of all its
  -- engineers set to 0, since no scores are loaded with it.
  pub select_answered-IsFlat :
      (id : String) (snap : GraphSnapshot F) (s : SelectorState F)
      → ((select_answered id (some snap) s).graph.graph_data
          ≡ some (build_force_graph_data snap []))
        × All IsFlat (build_force_graph_data snap []).nodes
  unfolding select_answered set_active_snapshot_id set_snapshot build_force_graph_data
  select_answered-IsFlat id snap s = (refl, flat F snap.nodes)

  -- The node has the last score of its engineer, and 0 without one.
  abbrev pub HasScore : List (CentralityScore F) → ForceGraphNode F → Type 0
  HasScore scores e =
      (e.closeness ≡ closeness_of (last_score e.id scores none))
      × (e.betweenness ≡ betweenness_of (last_score e.id scores none))

  scored :
      (scores : List (CentralityScore F)) (es : List EngineerNode)
      → All (HasScore scores) (map (force_node (centrality_map scores [])) es)
  scored scores [] = tt
  scored scores (e ∷ es) =
      let entry =
        lookup-centrality_map e.id scores [] ∙ ap (last_score e.id scores) (nothing e.id) in
      ((ap closeness_of entry, ap betweenness_of entry), scored scores es)

  -- The ends of a link, with its weight and its relationship.
  abbrev pub drawn_link : ForceGraphLink F → String × String × F × RelationshipType
  drawn_link l = (l.source, l.target, l.weight, l.relationship)

  abbrev pub given_link : GraphEdge F → String × String × F × RelationshipType
  given_link e = (e.source_id, e.target_id, e.weight, e.relationship)

  -- The graph draws the engineers of the snapshot in its order, with their scores, and its edges.
  abbrev pub Draws : GraphSnapshot F → List (CentralityScore F) → Option (ForceGraphData F) → Type 0
  Draws snap scores drawn =
      (d : ForceGraphData F) × (drawn ≡ some d)
      × (map (λ (v : ForceGraphNode F). v.engineer) d.nodes ≡ snap.nodes)
      × All (HasScore scores) d.nodes
      × (map drawn_link d.links ≡ map given_link snap.edges)

  same_edges : (es : List (GraphEdge F)) → map drawn_link (map force_link es) ≡ map given_link es
  same_edges [] = refl
  same_edges (e ∷ es) = ap (λ l. given_link e ∷ l) (same_edges es)

  same_engineers :
      (c : List (String × Centrality F)) (es : List EngineerNode)
      → map (λ (v : ForceGraphNode F). v.engineer) (map (force_node c) es) ≡ es
  same_engineers c [] = refl
  same_engineers c (e ∷ es) = ap (λ (l : List EngineerNode). e ∷ l) (same_engineers c es)

  -- A page that is opened with its scores draws exactly the engineers of the snapshot, in its
  -- order, each with the last score that has the engineer's id, and with 0 where there is none; its
  -- links are the edges of the snapshot. The snapshot is the active one, the list of snapshots is
  -- the given one, and the candidates are kept.
  pub hydrate_lem :
      (snap : GraphSnapshot F) (scores : List (CentralityScore F)) (metas : List SnapshotMeta)
      (g : GraphState F)
      → let after = hydrate snap scores metas g in
        Draws snap scores after.graph_data
        × (after.snapshots ≡ metas)
        × (after.active_snapshot_id ≡ some snap.snapshot_id)
        × (after.candidate_a ≡ g.candidate_a)
        × (after.candidate_b ≡ g.candidate_b)
  unfolding hydrate set_snapshots set_snapshot build_force_graph_data
  hydrate_lem snap scores metas g = (
    (
      build_force_graph_data snap (centrality_map scores []),
      refl,
      same_engineers (centrality_map scores []) snap.nodes,
      scored scores snap.nodes,
      same_edges snap.edges,
    ),
    refl,
    refl,
    refl,
    refl,
  )
