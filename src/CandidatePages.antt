-- ===== src/CandidatePages.antt =====
-- apps/web/app/candidates/[id]/page.tsx and apps/web/app/candidates/new/page.tsx: the page of a
-- candidate and the intake form.
pub mod Profile
pub mod Detail
pub mod Intake
pub mod Form
pub mod Submitting
mod Tests
use socio_technical_alignmen.Api.{
  CollaborationVector, GraphPosition, Proficiency, advanced, beginner, cross_team_connector,
  domain_specialist, emerging_contributor, expert, generalist, intermediate, knowledge_hub,
}
use socio_technical_alignmen.Api.Client.{Outcome, Response, rejected, value}
use socio_technical_alignmen.Prelude.{
  List, Option, String, [], if◌then◌else◌, lookup, none, some, ◌∷◌,
}

pub record Palette : Type 0 where
  pub bg : String
  pub letters : String
  pub dot : String

-- `POSITION_COLORS`.
unfoldable pub position_style : GraphPosition → Palette
position_style knowledge_hub = record { bg = "#E0F7EF"; letters = "#0D5C3A"; dot = "#27B97C" }
position_style cross_team_connector = record {
  bg = "#F0EBF9";
  letters = "#3D1F70";
  dot = "#7C4DBD";
}
position_style domain_specialist = record { bg = "#E0EAF4"; letters = "#001F4D"; dot = "#003366" }
position_style emerging_contributor = record {
  bg = "#FEF0E6";
  letters = "#7A3800";
  dot = "#F07020";
}
position_style generalist = record { bg = "#F4F6F9"; letters = "#6B7280"; dot = "#9CA3AF" }

-- `PROFICIENCY_COLORS`, without dots.
unfoldable pub proficiency_style : Proficiency → Palette
proficiency_style expert = record { bg = "#E0F7EF"; letters = "#0D5C3A"; dot = "" }
proficiency_style advanced = record { bg = "#E0EAF4"; letters = "#001F4D"; dot = "" }
proficiency_style intermediate = record { bg = "#FEF0E6"; letters = "#7A3800"; dot = "" }
proficiency_style beginner = record { bg = "#F4F6F9"; letters = "#6B7280"; dot = "" }

abbrev pub proficiency_name : Proficiency → String
proficiency_name expert = "expert"
proficiency_name advanced = "advanced"
proficiency_name intermediate = "intermediate"
proficiency_name beginner = "beginner"

-- `Object.entries` of the vector.
unfoldable pub collab_entries : {F : Type 0} → CollaborationVector F → List (String × F)
collab_entries v =
    ("async_preference", v.async_preference)
    ∷ ("pr_review_depth", v.pr_review_depth)
    ∷ ("documentation_habit", v.documentation_habit)
    ∷ ("pairing_affinity", v.pairing_affinity)
    ∷ ("mentoring_tendency", v.mentoring_tendency)
    ∷ []

-- `COLLAB_LABELS`.
abbrev collab_labels : List (String × String)
collab_labels =
    ("async_preference", "Async preference")
    ∷ ("pr_review_depth", "PR review depth")
    ∷ ("documentation_habit", "Documentation habit")
    ∷ ("pairing_affinity", "Pairing affinity")
    ∷ ("mentoring_tendency", "Mentoring tendency")
    ∷ []

-- `COLLAB_LABELS[dim] ?? dim`.
unfoldable pub collab_label : String → String
collab_label dim = elim (lookup dim collab_labels) [ none ↦ dim | some label ↦ label ]

-- `fetchCandidate`: a failed request and an error status give no candidate; the body is read
-- outside the `try`.
unfoldable pub fetch_candidate : {R : Type 0} → Outcome (Response R) → Outcome (Option R)
fetch_candidate (rejected m) = value none
fetch_candidate (value res) =
    if res.ok
    then elim res.json [ value r ↦ value (some r) | rejected m ↦ rejected m ]
    else value none
