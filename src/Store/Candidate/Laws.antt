-- ===== src/Store/Candidate/Laws.antt =====
-- What the staged profile is after profiles are added.
use socio_technical_alignmen.Prelude.{
  ◌≡◌, String, none, some, lookup-insert, arith, eq_iff, str_eq, if◌then◌else◌,
}
use socio_technical_alignmen.Api.{CandidateProfile}
use socio_technical_alignmen.Store.Candidate.{
  CandidateState, add_profile, set_staged_candidate, get_staged_profile,
}

module _ {F : Type 0} where
  -- After a profile is added and a candidate is staged, the staged profile is none for the empty
  -- id, the added one if the ids agree, and otherwise what it would have been without the addition.
  pub get_staged_profile-add_profile :
      (p : CandidateProfile F) (id : String) (s : CandidateState F)
      → get_staged_profile (set_staged_candidate (some id) (add_profile p s)) ≡ (
          if str_eq id ""
          then none
          else if str_eq p.candidate_id id
          then some p
          else get_staged_profile (set_staged_candidate (some id) s))
  unfolding get_staged_profile set_staged_candidate add_profile
  get_staged_profile-add_profile p id s =
      ground (arith, eq_iff id "", lookup-insert p.candidate_id id p s.profiles)
