-- ===== src/Comparison.antt =====
-- apps/web/components/simulator/ComparisonPanel.tsx: two results side by side.
pub mod View
pub mod Winners
use socio_technical_alignmen.Prelude.{
  String, Bool, true, false, Option, none, some, List, [], ◌∷◌, ◌++◌, if◌then◌else◌,
}
use socio_technical_alignmen.Number.{Number}
use socio_technical_alignmen.Api.{SimulationResult}

pub record MetricRowProps (F : Type 0) : Type 0 where
  pub label : String
  pub value_a : F
  pub value_b : F
  pub lower_is_better : Bool

module _ {F : Type 0} ⦃n : Number F⦄ where
  unfoldable pub a_wins : MetricRowProps F → Bool
  a_wins p = if p.lower_is_better then n.lt p.value_a p.value_b else n.lt p.value_b p.value_a

  unfoldable pub b_wins : MetricRowProps F → Bool
  b_wins p = if p.lower_is_better then n.lt p.value_b p.value_a else n.lt p.value_a p.value_b

  -- The four rows of the panel.
  unfoldable pub metric_rows : SimulationResult F → SimulationResult F → List (MetricRowProps F)
  metric_rows a b =
      record {
        label = "Closeness";
        value_a = a.closeness_centrality.mean;
        value_b = b.closeness_centrality.mean;
        lower_is_better = false;
      }
      ∷ record {
        label = "TTV (wks)";
        value_a = a.time_to_value_weeks.mean;
        value_b = b.time_to_value_weeks.mean;
        lower_is_better = true;
      }
      ∷ record {
        label = "Silo risk";
        value_a = a.silo_risk_score.mean;
        value_b = b.silo_risk_score.mean;
        lower_is_better = true;
      }
      ∷ record {
        label = "Betweenness Δ";
        value_a = a.betweenness_delta.mean;
        value_b = b.betweenness_delta.mean;
        lower_is_better = false;
      }
      ∷ []
