-- ===== src/CandidatePages/Form.antt =====
-- apps/web/app/candidates/new/page.tsx: the page.
use socio_technical_alignmen.Api.Client.{◌<>◌}
use socio_technical_alignmen.CandidatePages.Intake.{
  IntakeEvent, IntakeState, submit_clicked, type_id, type_transcript, type_url,
}
use socio_technical_alignmen.Html.{
  Html, attr, choose, disabled, flag, on, on_text, spread, style, tag, text, when,
}
use socio_technical_alignmen.Prelude.{
  Bool, List, Option, String, [], false, if◌then◌else◌, none, not, some, str_eq, true, ◌||◌, ◌∷◌,
}
use socio_technical_alignmen.Prelude.Text.{is_blank}
use socio_technical_alignmen.Ui.{NavProps, eyebrow, footer, nav}

abbrev shows : Option String → Bool
shows none = false
shows (some m) = not (str_eq m "")

abbrev message_of : Option String → String
message_of none = ""
message_of (some m) = m

-- `inputStyle`.
unfoldable pub input_style : List String
input_style =
    ("fontFamily: var(--fb); fontSize: 14; color: var(--dark); border: 1px solid var(--primary-10); borderRadius: 10; padding: 12px 16px; backgroundColor: #ffffff; outline: none; width: 100%; boxSizing: border-box"
      ∷ [])

-- `labelStyle`.
unfoldable pub label_style : List String
label_style =
    ("fontFamily: var(--fb); fontSize: 9; fontWeight: 700; letterSpacing: 3px; textTransform: uppercase; color: var(--mid); marginBottom: 8; display: block"
      ∷ [])

-- The form.
unfoldable pub intake_form : IntakeState → Html IntakeEvent
intake_form s = tag "form" (on "onSubmit" submit_clicked ∷ style ("padding: 32px 36px" ∷ []) ∷ []) (
    (tag "div" (style ("display: flex; flexDirection: column; gap: 24" ∷ []) ∷ []) (
      (tag "div" [] (
        (tag "label" (style label_style ∷ attr "htmlFor" "github-url" ∷ [])
          ((text "GitHub Repository URL *") ∷ []))
        ∷ (tag "input"
            (attr "id" "github-url"
              ∷ attr "type" "url"
              ∷ flag "required" true
              ∷ attr "placeholder" "https://github.com/username/repository"
              ∷ attr "value" s.github_url
              ∷ on_text "onChange" type_url
              ∷ disabled s.loading
              ∷ style input_style
              ∷ attr "data-testid" "github-url-input"
              ∷ [])
            [])
        ∷ (tag "div"
            (style ("fontFamily: var(--fb); fontSize: 11; color: var(--mid); marginTop: 6" ∷ [])
              ∷ [])
            ((text
                "The agent will read the README, top source files, and language data. Public repositories only.")
              ∷ []))
        ∷ []))
      ∷ (tag "div" [] (
          (tag "label" (style label_style ∷ attr "htmlFor" "candidate-id" ∷ []) (
            (text "Candidate ID")
            ∷ (tag "span"
                (style (
                    "fontWeight: 400; textTransform: none; letterSpacing: 0; color: var(--mid); marginLeft: 8"
                    ∷ [])
                  ∷ [])
                ((text "(optional — auto-generated if blank)") ∷ []))
            ∷ []))
          ∷ (tag "input"
              (attr "id" "candidate-id"
                ∷ attr "type" "text"
                ∷ attr "placeholder" "e.g. alice_backend_2026"
                ∷ attr "value" s.candidate_id
                ∷ on_text "onChange" type_id
                ∷ disabled s.loading
                ∷ style input_style
                ∷ attr "data-testid" "candidate-id-input"
                ∷ [])
              [])
          ∷ []))
      ∷ (tag "div" [] (
          (tag "label" (style label_style ∷ attr "htmlFor" "transcript" ∷ []) (
            (text "Interview transcript")
            ∷ (tag "span"
                (style (
                    "fontWeight: 400; textTransform: none; letterSpacing: 0; color: var(--mid); marginLeft: 8"
                    ∷ [])
                  ∷ [])
                ((text "(optional — improves collaboration vector accuracy)") ∷ []))
            ∷ []))
          ∷ (tag "textarea"
              (attr "id" "transcript"
                ∷ attr "placeholder" "Paste interview notes or transcript here…"
                ∷ attr "value" s.transcript
                ∷ on_text "onChange" type_transcript
                ∷ disabled s.loading
                ∷ attr "rows" "6"
                ∷ style (spread input_style ("resize: vertical; lineHeight: 1.6" ∷ []))
                ∷ attr "data-testid" "transcript-input"
                ∷ [])
              [])
          ∷ []))
      ∷ (when ((shows s.error)) (
          tag "div"
            (style (
                "backgroundColor: #FDEAEA; borderRadius: 8; padding: 12px 16px; fontFamily: var(--fb); fontSize: 13; color: #7A1020; borderLeft: 3px solid #E03448"
                ∷ [])
              ∷ [])
            ((text ((message_of s.error))) ∷ [])))
      ∷ (when s.loading (
          tag "div"
            (style (
                "backgroundColor: var(--primary-10); borderRadius: 8; padding: 12px 16px; fontFamily: var(--fb); fontSize: 13; color: var(--primary); borderLeft: 3px solid var(--primary); display: flex; alignItems: center; gap: 10"
                ∷ [])
              ∷ [])
            ((tag "span" (style ("fontSize: 16" ∷ []) ∷ []) ((text "⚙") ∷ []))
              ∷ (text "Analysing repository with Claude NLP agent… this takes 10–30 seconds.")
              ∷ [])))
      ∷ (tag "button"
          (attr "type" "submit"
            ∷ disabled (s.loading || (not (not (is_blank s.github_url))))
            ∷ attr "data-testid" "extract-btn"
            ∷ style (
                "fontFamily: var(--fb); fontSize: 10; fontWeight: 700; letterSpacing: 2px; textTransform: uppercase; color: #ffffff"
                ∷ ("backgroundColor: "
                    <> (if (s.loading || (not (not (is_blank s.github_url))))
                        then "var(--mid)"
                        else "var(--primary)"))
                ∷ "border: none; borderRadius: 10; padding: 14px 0"
                ∷ ("cursor: "
                    <> (if (s.loading || (not (not (is_blank s.github_url))))
                        then "not-allowed"
                        else "pointer"))
                ∷ "transition: background-color 0.15s"
                ∷ [])
            ∷ [])
          ((choose s.loading (text ("Extracting profile…")) (text ("Extract candidate profile →")))
            ∷ []))
      ∷ []))
    ∷ [])

-- The note below the form.
unfoldable pub info_callout : {A : Type 0} → Html A
info_callout =
    tag "div"
      (style (
          "marginTop: 20; backgroundColor: #ffffff; borderRadius: 10; padding: 14px 18px; boxShadow: 0 1px 3px rgba(0,51,102,0.07); borderLeft: 3px solid var(--gold)"
          ∷ [])
        ∷ [])
      ((tag "div"
          (style (
              "fontFamily: var(--fb); fontSize: 9; fontWeight: 700; letterSpacing: 1.5px; textTransform: uppercase; color: var(--gold); marginBottom: 6"
              ∷ [])
            ∷ [])
          ((text "How it works") ∷ []))
        ∷ (tag "div"
            (style ("fontFamily: var(--fb); fontSize: 12; color: var(--mid); lineHeight: 1.65" ∷ [])
              ∷ [])
            ((text
                "The Claude API agent reads the repository README, top source files, and language metadata. It extracts skills with proficiency evidence, derives a collaboration vector from code patterns, and estimates graph position — predicting how the candidate will integrate into your team topology.")
              ∷ []))
        ∷ [])

-- The header.
unfoldable pub hero : {A : Type 0} → Html A
hero =
    tag "section"
      (style (
          "backgroundColor: var(--primary)"
          ∷ ("backgroundImage: "
              <> ("linear-gradient(rgba(255,255,255,.025) 1px, transparent 1px),"
                  <> "linear-gradient(90deg, rgba(255,255,255,.025) 1px, transparent 1px)"))
          ∷ "backgroundSize: 48px 48px; padding: 56px 48px 48px"
          ∷ [])
        ∷ [])
      ((tag "div" (style ("maxWidth: 720; margin: 0 auto" ∷ []) ∷ []) (
          (eyebrow true ((text "NLP Extraction") ∷ []))
          ∷ (tag "h1"
              (style (
                  "fontFamily: 'Fraunces', Georgia, serif; fontSize: 36; fontWeight: 300; color: #ffffff; lineHeight: 1.2; marginBottom: 12"
                  ∷ [])
                ∷ [])
              ((text "Extract a")
                ∷ (text (" "))
                ∷ (tag "em" (style ("fontStyle: italic; color: var(--gold-light)" ∷ []) ∷ [])
                    ((text "candidate profile.") ∷ []))
                ∷ []))
          ∷ (tag "p"
              (style (
                  "fontFamily: var(--fb); fontSize: 14; color: rgba(255,255,255,0.6); lineHeight: 1.75; maxWidth: 540"
                  ∷ [])
                ∷ [])
              ((text
                  "The Claude NLP agent analyses the candidate's GitHub repository and optional interview transcript to build a structured engineering profile — skills, collaboration style, and graph position estimate.")
                ∷ []))
          ∷ []))
        ∷ [])

-- The page.
unfoldable pub new_candidate_page : NavProps → String → IntakeState → Html IntakeEvent
new_candidate_page props date s =
    tag "main" (style ("minHeight: 100vh; display: flex; flexDirection: column" ∷ []) ∷ []) (
      (nav props)
      ∷ hero
      ∷ (tag "section"
          (style ("flex: 1; maxWidth: 720; margin: 0 auto; width: 100%; padding: 56px 48px" ∷ [])
            ∷ [])
          ((tag "div"
              (style (
                  "backgroundColor: #ffffff; borderRadius: 14; boxShadow: 0 1px 6px rgba(0,51,102,0.09); overflow: hidden"
                  ∷ [])
                ∷ [])
              ((tag "div" (style ("height: 3; backgroundColor: var(--gold)" ∷ []) ∷ []) [])
                ∷ (intake_form s)
                ∷ []))
            ∷ info_callout
            ∷ []))
      ∷ (footer date)
      ∷ [])
