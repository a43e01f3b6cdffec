-- ===== src/Samples.antt =====
-- Sample data for the tests.
use socio_technical_alignmen.Prelude.{ℕ, String, true, none, some, List, [], ◌∷◌}
use socio_technical_alignmen.Api.{
  ForceGraphNode, EngineerNode, MetricDistribution, SimulationResult, mid,
}
use socio_technical_alignmen.Store.Graph.{CandidateForceNode}
use socio_technical_alignmen.Store.Simulation.{Slot}

abbrev pub person : String → String → EngineerNode
person id team = record { id = id; name = id; skills = "go" ∷ []; seniority = mid; team = team }

abbrev pub node : String → String → ℕ → ForceGraphNode ℕ
node id team betweenness = record {
  engineer = person id team;
  closeness = 0;
  betweenness = betweenness;
  x = none;
  y = none;
  vx = none;
  vy = none;
  fx = none;
  fy = none;
}

abbrev pub newcomer : Slot → String → List String → CandidateForceNode ℕ
newcomer slot id skills = record {
  node = record {
    engineer = record { id = id; name = id; skills = skills; seniority = mid; team = "candidate" };
    closeness = 0;
    betweenness = 0;
    x = some 1;
    y = some 1;
    vx = none;
    vy = none;
    fx = some 1;
    fy = some 1;
  };
  slot = slot;
}

abbrev pub spread : ℕ → MetricDistribution ℕ
spread mean = record { mean = mean; std = 100; ci_95 = (mean, mean); percentiles = [] }

abbrev pub outcome : SimulationResult ℕ
outcome = record {
  result_id = "r1";
  candidate_id = "c1";
  snapshot_id = "s1";
  n_iterations = 1000000000;
  seed = 42000000;
  closeness_centrality = spread 600000;
  betweenness_delta = spread 100;
  silo_risk_score = spread 700000;
  time_to_value_weeks = spread 5000000;
  knowledge_gap_coverage =
      record {
        skill = "go";
        engineer_count_with_skill = 1;
        candidate_has_skill = true;
        coverage_delta = 200000;
      }
      ∷ [];
  topology_change_map = [];
}
