-- ===== src/CandidatePages/Intake.antt =====
-- apps/web/app/candidates/new/page.tsx: the state of the intake form and its submission.
--
-- A submission is two functions: up to the request, and from the answer on. `print` is the text of
-- a value in a template; `no_fields` is the message of the error for a property of `null`.
use socio_technical_alignmen.Prelude.{String, Bool, true, false, Option, none, some, if◌then◌else◌}
use socio_technical_alignmen.Prelude.Text.{Text, utf16, trim, is_blank}
use socio_technical_alignmen.Value.{Value, str, or_default}
use socio_technical_alignmen.Api.Client.{◌<>◌, Outcome, value, rejected}
use socio_technical_alignmen.Admin.{field_of, is_absent}

-- `location` is where the router was sent.
pub record IntakeState : Type 0 where
  pub github_url : String
  pub transcript : String
  pub candidate_id : String
  pub loading : Bool
  pub error : Option String
  pub location : Option String

abbrev pub intake_start : IntakeState
intake_start = record {
  github_url = "";
  transcript = "";
  candidate_id = "";
  loading = false;
  error = none;
  location = none;
}

-- The body of the request; a field that is `undefined` is not sent.
pub record ExtractRequest : Type 0 where
  pub github_url : Text
  pub candidate_id : Option Text
  pub transcript : Option Text

pub data IntakeEvent : Type 0 where
  type_url : String → IntakeEvent
  type_transcript : String → IntakeEvent
  type_id : String → IntakeEvent
  submit_clicked : IntakeEvent

-- The answer: the request fails, or there is a status and a body.
pub data ExtractAnswer (F : Type 0) : Type 0 where
  unreachable : String → ExtractAnswer F
  answered : Bool → String → Outcome (Value F) → ExtractAnswer F

-- `s.trim() || undefined`.
abbrev pub given : String → Option Text
given s = if is_blank s then none else some (trim (utf16 s))

-- What `handleSubmit` sends, if it sends anything.
unfoldable pub extract_request : IntakeState → Option ExtractRequest
extract_request s =
    if is_blank s.github_url
    then none
    else some (record {
      github_url = trim (utf16 s.github_url);
      candidate_id = given s.candidate_id;
      transcript = given s.transcript;
    })

-- `handleSubmit` up to the request.
unfoldable pub submit : IntakeState → IntakeState
submit s = if is_blank s.github_url then s else record s { loading = true; error = none }

unfoldable pub step : IntakeEvent → IntakeState → IntakeState
unfolding submit
step (type_url t) s = record s { github_url = t }
step (type_transcript t) s = record s { transcript = t }
step (type_id t) s = record s { candidate_id = t }
step submit_clicked s = submit s

abbrev pub fail : String → IntakeState → IntakeState
fail message s = record s { loading = false; error = some message }

module _ {F : Type 0} (print : Value F → String) (no_fields : String) where
  -- The text of an error status: the detail of the body, or the status where the body cannot be
  -- read or has none.
  unfoldable pub error_text : String → Outcome (Value F) → String
  error_text status (rejected m) = "HTTP " <> status
  error_text status (value body) =
      if is_absent body
      then no_fields
      else print (or_default (field_of "detail" body) (str ("HTTP " <> status)))

  -- The rest, on every path through `catch` and `finally`.
  unfoldable pub submit_answered : ExtractAnswer F → IntakeState → IntakeState
  submit_answered (unreachable m) s = fail m s
  submit_answered (answered ok status body) s =
      if ok
      then elim body [
        | rejected m ↦ fail m s
        | value profile ↦ if is_absent profile then fail no_fields s else record s {
          loading = false;
          location = some ("/candidates/" <> print (field_of "candidate_id" profile));
        }
      ]
      else fail (error_text status body) s
