-- ===== src/GraphUtils.antt =====
-- apps/web/lib/graph-utils.ts: colours, sizes and the list of teams for the graph.
pub mod Teams
pub mod Colors
pub mod Maxima
mod Tests
use socio_technical_alignmen.Prelude.{
  ℕ, zero, suc, ◌+◌, ◌%◌, String, Bool, true, false, Option, none, some, List, [], ◌∷◌, ◌++◌, map,
  get_elem?, length, includes, str_eq, if◌then◌else◌, ltb, ◌==◌, ◌||◌, ◌&&◌,
}
use socio_technical_alignmen.Prelude.Text.{Text, utf16}
use socio_technical_alignmen.Prelude.Sort.{sort}
use socio_technical_alignmen.Number.{Number}
use socio_technical_alignmen.Api.{
  RelationshipType, reviews_pr_of, resolves_doubt_for, blocks_ticket_of, pair_programs_with,
  shares_domain_with, ForceGraphNode, ForceGraphLink,
}

abbrev pub team_colors : List String
team_colors = "#003366" ∷ "#27B97C" ∷ "#7C4DBD" ∷ "#F07020" ∷ "#E05080" ∷ []

-- `allTeams.indexOf(team)`; `none` is -1.
unfoldable pub index_of : String → List String → Option ℕ
index_of x [] = none
index_of x (y ∷ ys) = elim (str_eq y x) [
  | true ↦ some 0
  | false ↦ elim (index_of x ys) [ none ↦ none | some i ↦ some (suc i) ]
]

-- `o ?? d`.
abbrev pub or_else : Option String → String → String
or_else none d = d
or_else (some c) d = c

-- A team that is not listed has index -1; `-1 % 5` is -1, where the array holds nothing.
unfoldable pub get_team_color : String → List String → String
get_team_color team all_teams = elim (index_of team all_teams) [
  | none ↦ "#003366"
  | some i ↦ or_else (get_elem? team_colors (i % length team_colors)) "#003366"
]

module _ {F : Type 0} ⦃n : Number F⦄ where
  abbrev pub is_equal : F → F → Bool
  is_equal a b = n.le a b && n.le b a

  -- `maxBetweenness === 0` gives the minimum radius; the ratio is cut off at 1.
  unfoldable pub node_radius : F → F → F
  node_radius betweenness max_betweenness =
      if is_equal max_betweenness (n.lit 0 0)
      then n.lit 7 0
      else n.add (n.lit 7 0) (
          n.mul (n.min (n.lit 1 0) (n.div betweenness max_betweenness))
            (n.sub (n.lit 22 0) (n.lit 7 0)))

  -- `Math.log1p` is the runtime's.
  unfoldable pub edge_opacity : (F → F) → F → F → F
  edge_opacity log1p weight max_weight =
      if is_equal max_weight (n.lit 0 0)
      then n.lit 25 2
      else n.add (n.lit 22 2) (n.mul (n.div (log1p weight) (log1p max_weight)) (n.lit 63 2))

  unfoldable pub edge_width : F → F → F
  edge_width weight max_weight =
      if is_equal max_weight (n.lit 0 0)
      then n.lit 1 0
      else n.add (n.lit 1 0) (n.mul (n.div weight max_weight) (n.lit 3 0))

  -- `xs.reduce((m, x) => Math.max(m, key(x)), 0)`.
  pub max_of {ℓ} : {A : Type ℓ} → (A → F) → F → List A → F
  max_of key m [] = m
  max_of key m (x ∷ xs) = max_of key (n.max m (key x)) xs

  unfoldable pub max_betweenness : List (ForceGraphNode F) → F
  max_betweenness nodes = max_of (λ e. e.betweenness) (n.lit 0 0) nodes

  unfoldable pub max_edge_weight : List (ForceGraphLink F) → F
  max_edge_weight links = max_of (λ l. l.weight) (n.lit 0 0) links

-- The colour and label of a relationship type.
pub record Meta : Type 0 where
  pub color : String
  pub label : String

unfoldable pub relationship_meta : RelationshipType → Meta
relationship_meta reviews_pr_of = record { color = "#003366"; label = "PR Review" }
relationship_meta resolves_doubt_for = record { color = "#27B97C"; label = "Knowledge Help" }
relationship_meta pair_programs_with = record { color = "#C8982A"; label = "Pair Programming" }
relationship_meta blocks_ticket_of = record { color = "#E03448"; label = "Ticket Block" }
relationship_meta shares_domain_with = record { color = "#7C4DBD"; label = "Shared Domain" }

unfoldable pub edge_color : RelationshipType → String
unfolding relationship_meta
edge_color r = (relationship_meta r).color

-- The order of `sort()`: by UTF-16 code units.
pub text_le : Text → Text → Bool
text_le [] t = true
text_le (c ∷ s) [] = false
text_le (c ∷ s) (d ∷ t) = ltb c d || c == d && text_le s t

abbrev pub sorts_before : String → String → Bool
sorts_before a b = text_le (utf16 a) (utf16 b)

-- `[...new Set(xs)]`: each string once, in the order of first occurrence.
unfoldable pub unique_from : List String → List String → List String
unique_from seen [] = []
unique_from seen (x ∷ xs) = elim (includes x seen) [
  | true ↦ unique_from seen xs
  | false ↦ x ∷ unique_from (x ∷ seen) xs
]

unfoldable pub unique : List String → List String
unfolding unique_from
unique xs = unique_from [] xs

unfoldable pub extract_teams : {F : Type 0} → List (ForceGraphNode F) → List String
extract_teams nodes = sort sorts_before (unique (map (λ e. e.team) nodes))
