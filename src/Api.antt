-- ===== src/Api.antt =====
-- apps/web/lib/api/types.ts: the data that crosses the API boundary.
--
-- `F` is the type of the numbers (`Number`). Counts that the pages only print or compare with
-- integers are natural numbers. A timestamp is its ISO-8601 text.
pub mod Client
use socio_technical_alignmen.Prelude.{ℕ, String, Bool, List, Option}

pub data Seniority : Type 0 where
  junior mid senior staff : Seniority

pub data RelationshipType : Type 0 where
  reviews_pr_of resolves_doubt_for blocks_ticket_of pair_programs_with : RelationshipType
  shares_domain_with : RelationshipType

pub data GraphPosition : Type 0 where
  knowledge_hub cross_team_connector domain_specialist emerging_contributor : GraphPosition
  generalist : GraphPosition

pub record EngineerNode : Type 0 where
  pub id : String
  pub name : String
  pub skills : List String
  pub seniority : Seniority
  pub team : String

pub record GraphEdge (F : Type 0) : Type 0 where
  pub source_id : String
  pub target_id : String
  pub relationship : RelationshipType
  pub weight : F

pub record GraphSnapshot (F : Type 0) : Type 0 where
  pub team_id : String
  pub snapshot_id : String
  pub captured_at : String
  pub nodes : List EngineerNode
  pub edges : List (GraphEdge F)

pub record CentralityScore (F : Type 0) : Type 0 where
  pub engineer_id : String
  pub closeness : F
  pub betweenness : F
  pub degree : F

pub record SnapshotMeta : Type 0 where
  pub snapshot_id : String
  pub team_id : String
  pub captured_at : String
  pub node_count : ℕ
  pub edge_count : ℕ

pub data Proficiency : Type 0 where
  beginner intermediate advanced expert : Proficiency

pub record SkillWithProficiency : Type 0 where
  pub skill : String
  pub proficiency : Proficiency
  pub evidence : String

pub record CollaborationVector (F : Type 0) : Type 0 where
  pub async_preference : F
  pub pr_review_depth : F
  pub documentation_habit : F
  pub pairing_affinity : F
  pub mentoring_tendency : F

pub record CandidateProfile (F : Type 0) : Type 0 where
  pub candidate_id : String
  pub github_url : String
  pub skills : List SkillWithProficiency
  pub collaboration_vector : CollaborationVector F
  pub domain_expertise : List String
  pub graph_position_estimate : GraphPosition
  pub extraction_summary : String
  pub extracted_at : String

pub record MetricDistribution (F : Type 0) : Type 0 where
  pub mean : F
  pub std : F
  pub ci_95 : F × F
  pub percentiles : List (String × F)

pub record SkillGapMatch (F : Type 0) : Type 0 where
  pub skill : String
  pub engineer_count_with_skill : ℕ
  pub candidate_has_skill : Bool
  pub coverage_delta : F

pub record SimulationResult (F : Type 0) : Type 0 where
  pub result_id : String
  pub candidate_id : String
  pub snapshot_id : String
  pub n_iterations : F
  pub seed : F
  pub closeness_centrality : MetricDistribution F
  pub betweenness_delta : MetricDistribution F
  pub silo_risk_score : MetricDistribution F
  pub time_to_value_weeks : MetricDistribution F
  pub knowledge_gap_coverage : List (SkillGapMatch F)
  pub topology_change_map : List (String × F)

-- The six coordinates are set by the force layout at run time.
pub record ForceGraphNode (F : Type 0) : Type 0 where
  pub engineer : EngineerNode
  pub open engineer use *
  pub closeness : F
  pub betweenness : F
  pub x : Option F
  pub y : Option F
  pub vx : Option F
  pub vy : Option F
  pub fx : Option F
  pub fy : Option F

-- The end points by id, as the stores build them; the layout library later replaces an id by the
-- node itself.
pub record ForceGraphLink (F : Type 0) : Type 0 where
  pub source : String
  pub target : String
  pub weight : F
  pub relationship : RelationshipType

pub record ForceGraphData (F : Type 0) : Type 0 where
  pub nodes : List (ForceGraphNode F)
  pub links : List (ForceGraphLink F)
