-- ===== src/Store/Candidate.antt =====
-- apps/web/lib/store/candidate.ts: the candidates of this session and the staged one.
pub mod Laws
mod Tests
use socio_technical_alignmen.Prelude.{
  String, Option, none, some, List, [], lookup, insert, if◌then◌else◌, str_eq,
}
use socio_technical_alignmen.Api.{CandidateProfile}

pub record CandidateState (F : Type 0) : Type 0 where
  pub profiles : List (String × CandidateProfile F)
  pub staged_candidate_id : Option String

module _ {F : Type 0} where
  pub initial : CandidateState F
  initial = record { profiles = []; staged_candidate_id = none }

  unfoldable pub add_profile : CandidateProfile F → CandidateState F → CandidateState F
  add_profile p s = record s { profiles = insert p.candidate_id p s.profiles }

  unfoldable pub set_staged_candidate : Option String → CandidateState F → CandidateState F
  set_staged_candidate id s = record s { staged_candidate_id = id }

  find_staged : Option String → List (String × CandidateProfile F) → Option (CandidateProfile F)
  find_staged none profiles = none
  find_staged (some id) profiles = if str_eq id "" then none else lookup id profiles

  unfoldable pub get_staged_profile : CandidateState F → Option (CandidateProfile F)
  unfolding find_staged
  get_staged_profile s = find_staged s.staged_candidate_id s.profiles
