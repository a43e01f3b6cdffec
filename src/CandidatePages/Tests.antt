-- ===== src/CandidatePages/Tests.antt =====
-- The intake form on small inputs.
use socio_technical_alignmen.Prelude.{ℕ, String, ◌≡◌, true, false, none, some, refl}
use socio_technical_alignmen.Value.{Value}
use socio_technical_alignmen.CandidatePages.Intake.{
  IntakeState, intake_start, ExtractAnswer, unreachable, extract_request, submit, submit_answered,
}
use socio_technical_alignmen.CandidatePages.Submitting.{
  IsSent, submit_lem, Settles, submit_answered_lem,
}

abbrev filled : IntakeState
filled = record intake_start { github_url = " https://github.com/ann "; candidate_id = "  " }

submit_lem_example :
    IsSent filled (extract_request filled)
    × (submit filled ≡ (elim (extract_request filled) [
      | none ↦ filled
      | some r ↦ record filled { loading = true; error = none }
    ]))
submit_lem_example = submit_lem filled

abbrev print : Value ℕ → String
print v = "?"

abbrev down : ExtractAnswer ℕ
down = unreachable "Failed to fetch"

submit_answered_lem_example :
    ((submit_answered print "null" down filled).loading ≡ false)
    × ((submit_answered print "null" down filled).github_url ≡ filled.github_url)
    × ((submit_answered print "null" down filled).candidate_id ≡ filled.candidate_id)
    × ((submit_answered print "null" down filled).transcript ≡ filled.transcript)
    × Settles print "null" down (submit_answered print "null" down filled)
submit_answered_lem_example = submit_answered_lem print "null" down filled refl refl
