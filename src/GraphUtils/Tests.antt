-- ===== src/GraphUtils/Tests.antt =====
-- Colours, teams and maxima of a small graph.
use mathlib.Core.List.{Memᴰ}
use socio_technical_alignmen.Prelude.{
  ℕ, ◌≡◌, ◌↔◌, ◌⊎◌, refl, String, includes, false, List, [], ◌∷◌, All, arith, eq_iff,
}
use socio_technical_alignmen.Prelude.Sort.{sort, IsSorted}
use socio_technical_alignmen.Prelude.Members.{Distinct}
use socio_technical_alignmen.Number.Scaled.{scaled, scaled-IsOrdered}
use socio_technical_alignmen.Api.{ForceGraphNode, ForceGraphLink, shares_domain_with}
use socio_technical_alignmen.GraphUtils.{
  sorts_before, extract_teams, unique, max_betweenness, max_edge_weight, text_le,
}
use socio_technical_alignmen.Samples.{node}
use socio_technical_alignmen.GraphUtils.Teams.{extract_teams_lem}
use socio_technical_alignmen.GraphUtils.Maxima.{maxima}

abbrev nodes : List (ForceGraphNode ℕ)
nodes = node "e1" "web" 3 ∷ node "e2" "api" 9 ∷ node "e3" "web" 4 ∷ []

abbrev link : ForceGraphLink ℕ
link = record { source = "e1"; target = "e2"; weight = 5; relationship = shares_domain_with }

teams_of_nodes : extract_teams nodes ≡ "api" ∷ "web" ∷ []
unfolding extract_teams unique sort text_le includes
teams_of_nodes = refl

extract_teams_lem_example :
    IsSorted sorts_before (extract_teams nodes)
    × Distinct (extract_teams nodes)
    × (Memᴰ "api" (extract_teams nodes)
        ↔ ((e : ForceGraphNode ℕ) × Memᴰ e nodes × (e.team ≡ "api")))
extract_teams_lem_example = extract_teams_lem nodes "api"

abbrev two_teams : List String
two_teams = "api" ∷ "web" ∷ []

two_teams-Distinct : Distinct two_teams
two_teams-Distinct = ((ground (arith, eq_iff "api" "web"), tt), (tt, tt))

maxima_example :
    All (λ e. scaled.lt (max_betweenness nodes) e.betweenness ≡ false) nodes
    × (scaled.lt (max_betweenness nodes) (scaled.lit 0 0) ≡ false)
    × ((max_betweenness nodes ≡ scaled.lit 0 0)
        ⊎ ((e : ForceGraphNode ℕ) × Memᴰ e nodes × (max_betweenness nodes ≡ e.betweenness)))
    × All (λ l. scaled.lt (max_edge_weight (link ∷ [])) l.weight ≡ false) (link ∷ [])
    × (scaled.lt (max_edge_weight (link ∷ [])) (scaled.lit 0 0) ≡ false)
    × ((max_edge_weight (link ∷ []) ≡ scaled.lit 0 0)
        ⊎ ((l : ForceGraphLink ℕ) × Memᴰ l (link ∷ []) × (max_edge_weight (link ∷ []) ≡ l.weight)))
maxima_example = maxima scaled-IsOrdered nodes (link ∷ [])
