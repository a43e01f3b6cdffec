-- ===== src/TeamGraph/Tests.antt =====
-- The canvas on a team of two and a candidate.
use mathlib.Core.List.{Memᴰ}
use socio_technical_alignmen.Prelude.{
  ℕ, arith, ◌≡◌, ◌↔◌, refl, sym, ap, false, none, some, [], ◌∷◌, includes,
}
use socio_technical_alignmen.Number.Scaled.{scaled}
use socio_technical_alignmen.Api.{ForceGraphNode, ForceGraphLink, ForceGraphData, reviews_pr_of}
use socio_technical_alignmen.Store.Simulation.{slot_a}
use socio_technical_alignmen.Samples.{node, newcomer}
use socio_technical_alignmen.Store.Graph.{
  GraphState, engineer, predicted_link, compute_predicted_edges, overlap,
}
use socio_technical_alignmen.TeamGraph.{
  CanvasState, MergedData, AnyLink, base, predicted, merge, active_candidates, present_rel_types,
  predicted_links,
}
use socio_technical_alignmen.TeamGraph.Canvas.{Scene}
use socio_technical_alignmen.TeamGraph.Merge.{HasNode, IsClosed, merged_data-HasNode}
use socio_technical_alignmen.TeamGraph.Legend.{Occurs, present_rel_types_iff}
use socio_technical_alignmen.Html.{nothing}
use socio_technical_alignmen.Store.Graph.{candidate}
use socio_technical_alignmen.TeamGraph.{Pointer, handle_node_hover}
use socio_technical_alignmen.TeamGraph.View.{tooltip_part}
use socio_technical_alignmen.TeamGraph.Tooltip.{engineer_has_tooltip, candidate_has_no_tooltip}
use socio_technical_alignmen.GraphParts.{tooltip_of}
use socio_technical_alignmen.Prelude.{map}
use socio_technical_alignmen.TeamGraph.Collide.{force, overlaps, distance}
use socio_technical_alignmen.TeamGraph.Collision.{at_rest, force-at_rest, force-IsApart}

abbrev ann : ForceGraphNode ℕ
ann = node "e1" "web" 3

abbrev bob : ForceGraphNode ℕ
bob = node "e2" "api" 9

abbrev review : ForceGraphLink ℕ
review = record { source = "e1"; target = "e2"; weight = 2; relationship = reviews_pr_of }

abbrev team : ForceGraphData ℕ
team = record { nodes = ann ∷ bob ∷ []; links = review ∷ [] }

abbrev shown : GraphState ℕ
shown = record {
  graph_data = some team;
  snapshot = none;
  snapshots = [];
  active_snapshot_id = none;
  candidate_a = some (newcomer slot_a "c1" ("go" ∷ []));
  candidate_b = none;
  hovered_node_id = none;
  selected_node_id = none;
}

team-IsClosed : IsClosed team
team-IsClosed l (Memᴰ.head e) = (
  (ann, Memᴰ.head refl, ap (λ (k : ForceGraphLink ℕ). k.source) (sym e)),
  (bob, Memᴰ.tail (Memᴰ.head refl), ap (λ (k : ForceGraphLink ℕ). k.target) (sym e)),
)
team-IsClosed l (Memᴰ.tail m) = elim m [ ]

abbrev drawn : AnyLink ℕ
drawn = predicted (predicted_link (newcomer slot_a "c1" ("go" ∷ [])) bob 1)

drawn_listed : Memᴰ drawn (merge (active_candidates shown) team).links
unfolding merge active_candidates predicted_links compute_predicted_edges overlap includes
drawn_listed = Memᴰ.tail (Memᴰ.tail (Memᴰ.head refl))

merged_data-HasNode_example :
    HasNode "c1" (merge (active_candidates shown) team).nodes
    × HasNode "e2" (merge (active_candidates shown) team).nodes
merged_data-HasNode_example = merged_data-HasNode shown team drawn team-IsClosed drawn_listed

abbrev data_drawn : MergedData ℕ
data_drawn = record { nodes = engineer ann ∷ engineer bob ∷ []; links = base review ∷ [] }

present_rel_types_iff_example :
    Memᴰ reviews_pr_of (present_rel_types (some data_drawn))
    ↔ Occurs reviews_pr_of (base review ∷ [])
present_rel_types_iff_example = present_rel_types_iff data_drawn reviews_pr_of

abbrev hovering : CanvasState ℕ
hovering = record { graph = shown; tooltip_pos = none; is_drag_over = false }

abbrev scene : Scene ℕ
scene = record {
  hovered_node_id = none;
  selected_node_id = some "e1";
  teams = "api" ∷ "web" ∷ [];
  mx_betweenness = 9;
  node_count = 40;
}

abbrev at_ann : CanvasState ℕ
at_ann = record { graph = shown; tooltip_pos = none; is_drag_over = false }

abbrev five_seven : Pointer ℕ
five_seven = record { client_x = some 5; client_y = some 7 }

engineer_has_tooltip_example :
    (tooltip_part {A = ℕ} (handle_node_hover (some (engineer ann)) (some five_seven) at_ann)
      ≡ tooltip_of (some 5) (some 7) ann)
    × (tooltip_part {A = ℕ} (handle_node_hover none (some five_seven) at_ann) ≡ nothing)
engineer_has_tooltip_example =
    engineer_has_tooltip ann (some five_seven) at_ann (Memᴰ.head refl)
      (λ h. refl, (λ h. absurd (ground (arith, h)), tt)) refl

candidate_has_no_tooltip_example :
    tooltip_part {A = ℕ} (
      handle_node_hover
        (some (candidate (newcomer slot_a "c1" ("go" ∷ []))))
        (some five_seven)
        at_ann)
    ≡ nothing
candidate_has_no_tooltip_example =
    candidate_has_no_tooltip (newcomer slot_a "c1" ("go" ∷ [])) (some five_seven) at_ann
      (refl, (refl, tt))

-- All nodes of the sample stand at the same place; with these radii they overlap.
abbrev wide : ForceGraphNode ℕ → ℕ
wide v = 30000000

abbrev same_size : ℕ → ℕ
same_size d = d

force-at_rest_example :
    map at_rest (force same_size wide 900000 4 (ann ∷ bob ∷ [])) ≡ map at_rest (ann ∷ bob ∷ [])
force-at_rest_example = force-at_rest same_size wide 900000 4 (ann ∷ bob ∷ [])

abbrev point : ForceGraphNode ℕ → ℕ
point v = 0

force-IsApart_example : force same_size point 900000 4 (ann ∷ bob ∷ []) ≡ ann ∷ bob ∷ []
unfolding overlaps distance
force-IsApart_example =
    force-IsApart same_size point 900000 4 (ann ∷ bob ∷ []) ((refl, tt), (tt, tt))
