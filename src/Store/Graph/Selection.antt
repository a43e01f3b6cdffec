-- ===== src/Store/Graph/Selection.antt =====
-- What `getSelectedNode` finds, and when.
use mathlib.Core.List.{Memᴰ}
use mathlib.Core.Path.{subst}
use socio_technical_alignmen.Prelude.{
  ◌≡◌, ◌≢◌, refl, sym, ◌∙◌, ap, ◌⊎◌, inl, inr, String, true, Option, none, some, List, [], ◌∷◌,
  find?, str_eq, eq_iff, arith, Bool-cases, Option-cases,
}
use socio_technical_alignmen.Api.{ForceGraphNode, ForceGraphData}
use socio_technical_alignmen.Store.Graph.{
  GraphState, CandidateForceNode, AnyNode, engineer, candidate, node_id, matching, find_base,
  select, get_selected_node,
}

module _ {F : Type 0} where
  -- The node is drawn: a candidate of the overlay or an engineer of the base graph.
  abbrev pub IsShown : GraphState F → AnyNode F → Type 0
  IsShown s (candidate c) = (s.candidate_a ≡ some c) ⊎ (s.candidate_b ≡ some c)
  IsShown s (engineer e) = (g : ForceGraphData F) × (s.graph_data ≡ some g) × Memᴰ e g.nodes

  find?_sound :
      (id : String) (es : List (ForceGraphNode F)) (e : ForceGraphNode F)
      → find? (λ n. str_eq n.id id) es ≡ some e
      → (e.id ≡ id) × Memᴰ e es
  find?_sound id [] e h = cc
  find?_sound id (d ∷ es) e h = elim (Bool-cases (str_eq d.id id)) [
    | inl same ↦
        let here : d ≡ e = ground (arith, same) in
        (
          ap (λ (n : ForceGraphNode F). n.id) (sym here) ∙ (eq_iff d.id id).0 same,
          Memᴰ.head (sym here),
        )
    | inr differs ↦
        let (named, later) = find?_sound id es e (ground (arith, differs)) in
        (named, Memᴰ.tail later)
  ]

  find?_complete :
      (id : String) (es : List (ForceGraphNode F)) (e : ForceGraphNode F)
      → Memᴰ e es
      → e.id ≡ id
      → find? (λ n. str_eq n.id id) es ≢ none
  find?_complete id [] e m h = elim m [ ]
  find?_complete id (d ∷ es) e (Memᴰ.head same) h =
      let hit : str_eq d.id id ≡ true =
        (eq_iff d.id id).1 (ap (λ (n : ForceGraphNode F). n.id) (sym same) ∙ h) in
      ground (arith, hit)
  find?_complete id (d ∷ es) e (Memᴰ.tail m) h = ground (arith, find?_complete id es e m h)

  matching_sound :
      (id : String) (o : Option (CandidateForceNode F)) (c : CandidateForceNode F)
      → matching id o ≡ some c
      → (o ≡ some c) × (c.id ≡ id)
  matching_sound id none c h = cc
  matching_sound id (some d) c h = elim (Bool-cases (str_eq d.id id)) [
    | inl same ↦
        let here : d ≡ c = ground (arith, same) in
        (ap some here, ap (λ (n : CandidateForceNode F). n.id) (sym here) ∙ (eq_iff d.id id).0 same)
    | inr differs ↦ ground (arith, differs)
  ]

  matching_complete :
      (id : String) (o : Option (CandidateForceNode F)) (c : CandidateForceNode F)
      → o ≡ some c
      → c.id ≡ id
      → matching id o ≡ some c
  matching_complete id none c h e = cc
  matching_complete id (some d) c h e =
      let here : d ≡ c = cc in
      let same : str_eq d.id id ≡ true =
        (eq_iff d.id id).1 (ap (λ (n : CandidateForceNode F). n.id) here ∙ e) in
      rw same h

  -- What the selection returns has the id and is drawn.
  abbrev Good : String → GraphState F → AnyNode F → Type 0
  Good id s v = (node_id v ≡ id) × IsShown s v

  find_base_sound :
      (id : String) (s : GraphState F) (o : Option (ForceGraphData F)) (v : AnyNode F)
      → s.graph_data ≡ o
      → find_base id o ≡ some v
      → Good id s v
  find_base_sound id s none v given h = cc
  find_base_sound id s (some g) v given h =
      elim (Option-cases (find? (λ n. str_eq n.id id) g.nodes)) [
        | inl missing ↦ absurd (ground (arith, missing))
        | inr (e, hit) ↦
            let (named, listed) = find?_sound id g.nodes e hit in
            let same : engineer e ≡ v = ground (arith, hit) in
            subst (Good id s) same (named, (g, given, listed))
      ]

  select_sound :
      (id : String) (s : GraphState F) (v : AnyNode F) → select id s ≡ some v → Good id s v
  unfolding select
  select_sound id s v h = elim (Option-cases (matching id s.candidate_a)) [
    | inl no_a ↦ elim (Option-cases (matching id s.candidate_b)) [
      | inl no_b ↦ find_base_sound id s s.graph_data v refl (ground (arith, no_a, no_b))
      | inr (c, is_b) ↦
          let (given, named) = matching_sound id s.candidate_b c is_b in
          let same : candidate c ≡ v = ground (arith, no_a, is_b) in
          subst (Good id s) same (named, inr given)
    ]
    | inr (c, is_a) ↦
        let (given, named) = matching_sound id s.candidate_a c is_a in
        let same : candidate c ≡ v = ground (arith, is_a) in
        subst (Good id s) same (named, inl given)
  ]

  -- A node that the store returns as selected has the selected id, and is the candidate of one of
  -- the two slots or an engineer of the base graph.
  pub get_selected_node_sound :
      (s : GraphState F) (v : AnyNode F)
      → get_selected_node s ≡ some v
      → (s.selected_node_id ≡ some (node_id v)) × IsShown s v
  unfolding get_selected_node
  get_selected_node_sound s v h = elim (Option-cases s.selected_node_id) [
    | inl unset ↦ absurd (ground (arith, unset))
    | inr (id, chosen) ↦
        let (named, shown) = select_sound id s v (ground (arith, chosen)) in
        (chosen ∙ ap some (sym named), shown)
  ]

  select_complete :
      (id : String) (s : GraphState F) (v : AnyNode F)
      → IsShown s v
      → node_id v ≡ id
      → select id s ≢ none
  unfolding select
  select_complete id s (candidate c) (inl given) named =
      ground (arith, matching_complete id s.candidate_a c given named)
  select_complete id s (candidate c) (inr given) named =
      ground (arith, matching_complete id s.candidate_b c given named)
  select_complete id s (engineer e) (g, given, listed) named =
      ground (arith, find?_complete id g.nodes e listed named)

  -- If a drawn node has the selected id, and that is not empty, some node is returned.
  pub get_selected_node_complete :
      (s : GraphState F) (v : AnyNode F)
      → s.selected_node_id ≡ some (node_id v)
      → node_id v ≢ ""
      → IsShown s v
      → get_selected_node s ≢ none
  unfolding get_selected_node
  get_selected_node_complete s v chosen proper shown =
      ground (arith, eq_iff (node_id v) "", select_complete (node_id v) s v shown refl)
