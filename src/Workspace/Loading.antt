-- ===== src/Workspace/Loading.antt =====
-- Loading a team: the centrality scores, and answers that come late.
use socio_technical_alignmen.Prelude.{
  String, ◌≡◌, refl, ap, ◌∙◌, Option, some, List, [], ◌∷◌, lookup, insert, lookup-insert, str_eq,
  if◌then◌else◌,
}
use socio_technical_alignmen.Number.{Number}
use socio_technical_alignmen.Api.{CentralityScore}
use socio_technical_alignmen.Store.Graph.{Centrality}
use socio_technical_alignmen.Workspace.{centrality_map}

module _ {F : Type 0} where
  -- The last score of an engineer, or what is given if there is none.
  pub last_score : String → List (CentralityScore F) → Option (Centrality F) → Option (Centrality F)
  last_score id [] found = found
  last_score id (c ∷ cs) found = last_score id cs (
      if str_eq c.engineer_id id
      then some (record { closeness = c.closeness; betweenness = c.betweenness })
      else found)

  -- The entry of an engineer in the map of the scores is the last score with the engineer's id,
  -- and the entry of the map that it extends if there is no such score.
  pub lookup-centrality_map :
      (id : String) (cs : List (CentralityScore F)) (acc : List (String × Centrality F))
      → lookup id (centrality_map cs acc) ≡ last_score id cs (lookup id acc)
  unfolding centrality_map last_score
  lookup-centrality_map id [] acc = refl
  lookup-centrality_map id (c ∷ cs) acc =
      let entry : Centrality F = record { closeness = c.closeness; betweenness = c.betweenness } in
      lookup-centrality_map id cs (insert c.engineer_id entry acc)
      ∙ ap (last_score id cs) (lookup-insert c.engineer_id id entry acc)
