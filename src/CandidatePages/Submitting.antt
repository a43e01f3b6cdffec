-- ===== src/CandidatePages/Submitting.antt =====
-- apps/web/app/candidates/new/page.tsx: what a submission does.
use socio_technical_alignmen.Prelude.{
  String, true, false, ◌≡◌, refl, Option, none, some, ◌⊎◌, inl, inr, Bool-cases,
}
use socio_technical_alignmen.Prelude.Text.{Text, utf16, trim, is_blank}
use socio_technical_alignmen.Value.{Value, undefined, null, bool, num, str, arr, obj, or_default}
use socio_technical_alignmen.Api.Client.{◌<>◌, value, rejected}
use socio_technical_alignmen.Admin.{field_of, is_absent}
use socio_technical_alignmen.CandidatePages.Intake.{
  IntakeState, ExtractRequest, ExtractAnswer, unreachable, answered, extract_request, submit,
  submit_answered, given, error_text,
}

-- What is sent for an optional field with this raw text.
abbrev pub IsGiven : String → Option Text → Type 0
IsGiven raw none = is_blank raw ≡ true
IsGiven raw (some t) = (is_blank raw ≡ false) × (t ≡ trim (utf16 raw))

abbrev pub IsSent : IntakeState → Option ExtractRequest → Type 0
IsSent s none = is_blank s.github_url ≡ true
IsSent s (some r) =
    (is_blank s.github_url ≡ false)
    × (r.github_url ≡ trim (utf16 s.github_url))
    × IsGiven s.candidate_id r.candidate_id
    × IsGiven s.transcript r.transcript

given-IsGiven : (raw : String) → IsGiven raw (given raw)
given-IsGiven raw = elim (Bool-cases (is_blank raw)) [
  | inl blank ↦ rw blank blank
  | inr set ↦ rw set (set, refl)
]

-- A request is sent exactly if the URL is not blank. It has the trimmed URL, and the trimmed
-- candidate id and the trimmed transcript of the form, each left out exactly if it is blank. The
-- click shows the page as loading, without an error, exactly then, and otherwise changes nothing.
pub submit_lem :
    (s : IntakeState)
    → IsSent s (extract_request s)
      × (submit s ≡ (elim (extract_request s) [
        | none ↦ s
        | some r ↦ record s { loading = true; error = none }
      ]))
unfolding submit extract_request
submit_lem s = elim (Bool-cases (is_blank s.github_url)) [
  | inl blank ↦ rw blank (blank, refl)
  | inr set ↦ rw set ((set, refl, given-IsGiven s.candidate_id, given-IsGiven s.transcript), refl)
]

module _ {F : Type 0} where
  -- `detail ?? d` is `d` if there is no detail, and otherwise the detail.
  is_absent-or_default :
      (v d : Value F)
      → ((is_absent v ≡ true) × (or_default v d ≡ d))
        ⊎ ((is_absent v ≡ false) × (or_default v d ≡ v))
  is_absent-or_default undefined d = inl (refl, refl)
  is_absent-or_default null d = inl (refl, refl)
  is_absent-or_default (bool b) d = inr (refl, refl)
  is_absent-or_default (num x) d = inr (refl, refl)
  is_absent-or_default (str t) d = inr (refl, refl)
  is_absent-or_default (arr xs) d = inr (refl, refl)
  is_absent-or_default (obj fs) d = inr (refl, refl)

  -- An answer ends the loading and changes none of the texts.
  submit_answered-texts :
      (print : Value F → String) (no_fields : String) (a : ExtractAnswer F) (s : IntakeState)
      → let after = submit_answered print no_fields a s in
        (after.loading ≡ false)
        × (after.github_url ≡ s.github_url)
        × (after.candidate_id ≡ s.candidate_id)
        × (after.transcript ≡ s.transcript)
  unfolding submit_answered
  submit_answered-texts print no_fields (unreachable m) s = (refl, refl, refl, refl)
  submit_answered-texts print no_fields (answered true status (rejected m)) s =
      (refl, refl, refl, refl)
  submit_answered-texts print no_fields (answered true status (value v)) s =
      elim (Bool-cases (is_absent v)) [
        | inl gone ↦ rw gone (refl, refl, refl, refl)
        | inr there ↦ rw there (refl, refl, refl, refl)
      ]
  submit_answered-texts print no_fields (answered false status body) s = (refl, refl, refl, refl)

module _ {F : Type 0} (print : Value F → String) (no_fields : String) where
  -- The answer has a success status and a body with properties, that of the location.
  abbrev pub RoutesTo : ExtractAnswer F → String → Type 0
  RoutesTo a to =
      (status : String) × (v : Value F) × (a ≡ answered true status (value v))
      × (is_absent v ≡ false)
      × (to ≡ "/candidates/" <> print (field_of "candidate_id" v))

  -- Why a submission fails, with the message.
  pub data Fails : ExtractAnswer F → String → Type 0 where
    lost : {m : String} → Fails (unreachable m) m
    unread : {status m : String} → Fails (answered true status (rejected m)) m
    empty :
        {status : String} {v : Value F}
        → is_absent v ≡ true
        → Fails (answered true status (value v)) no_fields
    refused_unread :
        {status m : String} → Fails (answered false status (rejected m)) ("HTTP " <> status)
    refused_empty :
        {status : String} {v : Value F}
        → is_absent v ≡ true
        → Fails (answered false status (value v)) no_fields
    refused_plain :
        {status : String} {v : Value F}
        → is_absent v ≡ false
        → is_absent (field_of "detail" v) ≡ true
        → Fails (answered false status (value v)) (print (str ("HTTP " <> status)))
    refused_detail :
        {status : String} {v : Value F}
        → is_absent v ≡ false
        → is_absent (field_of "detail" v) ≡ false
        → Fails (answered false status (value v)) (print (field_of "detail" v))

  -- The state of the page as the answer leaves it: it was sent on, or it has an error.
  abbrev pub Settles : ExtractAnswer F → IntakeState → Type 0
  Settles a t =
      ((to : String) × RoutesTo a to × (t.location ≡ some to) × (t.error ≡ none))
      ⊎ ((m : String) × Fails a m × (t.location ≡ none) × (t.error ≡ some m))

  refused :
      (status : String) (v : Value F)
      → is_absent v ≡ false
      → Fails
          (answered false status (value v))
          (print (or_default (field_of "detail" v) (str ("HTTP " <> status))))
  refused status v there =
      elim (is_absent-or_default (field_of "detail" v) (str ("HTTP " <> status))) [
        | inl (gone, same) ↦ rw same (refused_plain there gone)
        | inr (given, same) ↦ rw same (refused_detail there given)
      ]

  settles :
      (a : ExtractAnswer F) (s : IntakeState)
      → s.location ≡ none
      → s.error ≡ none
      → Settles a (submit_answered print no_fields a s)
  unfolding submit_answered error_text
  settles (unreachable m) s here clean = inr (m, lost, here, refl)
  settles (answered true status (rejected m)) s here clean = inr (m, unread, here, refl)
  settles (answered true status (value v)) s here clean = elim (Bool-cases (is_absent v)) [
    | inl gone ↦ rw gone (inr (no_fields, empty gone, here, refl))
    | inr there ↦ rw there (inl (_, (status, v, refl, there, refl), refl, clean))
  ]
  settles (answered false status (rejected m)) s here clean = inr (_, refused_unread, here, refl)
  settles (answered false status (value v)) s here clean = elim (Bool-cases (is_absent v)) [
    | inl gone ↦ rw gone (inr (no_fields, refused_empty gone, here, refl))
    | inr there ↦ rw there (inr (_, refused status v there, here, refl))
  ]

  -- If neither an error nor a new location stands, then whatever a submission is answered, the page
  -- is no longer loading and its texts are as they were. An answer with a success status and a body
  -- that can be read and is neither null nor undefined sends the router to /candidates/ and the text
  -- of the body's candidate_id, whatever that field is, and leaves no error. Every other answer
  -- leaves the page where it is with the error of its case: the message of the failed request or of
  -- the failed reading, the message for a property of null, the detail of an error status, or the
  -- status where there is no detail.
  pub submit_answered_lem :
      (a : ExtractAnswer F) (s : IntakeState)
      → s.location ≡ none
      → s.error ≡ none
      → ((submit_answered print no_fields a s).loading ≡ false)
        × ((submit_answered print no_fields a s).github_url ≡ s.github_url)
        × ((submit_answered print no_fields a s).candidate_id ≡ s.candidate_id)
        × ((submit_answered print no_fields a s).transcript ≡ s.transcript)
        × Settles a (submit_answered print no_fields a s)
  submit_answered_lem a s here clean =
      let (done, url, id, words) = submit_answered-texts print no_fields a s in
      (done, url, id, words, settles a s here clean)
