-- ===== src/Store/Candidate/Tests.antt =====
-- The candidate store with one added profile.
use socio_technical_alignmen.Prelude.{ℕ, []}
use socio_technical_alignmen.Api.{CandidateProfile, generalist}

abbrev profile : CandidateProfile ℕ
profile = record {
  candidate_id = "c1";
  github_url = "";
  skills = [];
  collaboration_vector = record {
    async_preference = 1;
    pr_review_depth = 2;
    documentation_habit = 3;
    pairing_affinity = 4;
    mentoring_tendency = 5;
  };
  domain_expertise = [];
  graph_position_estimate = generalist;
  extraction_summary = "";
  extracted_at = "";
}
