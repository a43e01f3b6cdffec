-- ===== src/Workspace/Section.antt =====
-- apps/web/app/simulate/SimulatorWorkspace.tsx: the form of a slot.
use socio_technical_alignmen.Api.Client.{◌<>◌}
use socio_technical_alignmen.Drag.{slot_name}
use socio_technical_alignmen.Html.{
  Html, attr, choose, disabled, nothing, on, on_text, spread, style, tag, text,
}
use socio_technical_alignmen.Prelude.{
  Bool, List, Option, String, [], false, if◌then◌else◌, none, not, some, true, ◌∷◌,
}
use socio_technical_alignmen.Prelude.Text.{Text}
use socio_technical_alignmen.Simulator.Parts.{slot_color}
use socio_technical_alignmen.Store.Simulation.{Slot}
use socio_technical_alignmen.Workspace.{FormState, StagedCandidate, can_stage}

-- `labelStyle`.
unfoldable pub label_style : List String
label_style =
    ("fontFamily: var(--fb); fontSize: 9; fontWeight: 700; letterSpacing: 3px; textTransform: uppercase; color: var(--gold); marginBottom: 8; display: flex; alignItems: center; gap: 8"
      ∷ [])

-- `inputStyle`.
unfoldable pub input_style : List String
input_style =
    ("fontFamily: var(--fb); fontSize: 13; color: var(--dark); border: 1px solid var(--primary-10); borderRadius: 8; padding: 8px 12px; backgroundColor: #ffffff; outline: none; width: 100%; boxSizing: border-box"
      ∷ [])

-- `btnStyle`.
unfoldable pub btn_style : List String
btn_style =
    ("fontFamily: var(--fb); fontSize: 9; fontWeight: 700; letterSpacing: 2px; textTransform: uppercase; color: #ffffff; backgroundColor: var(--primary); border: none; borderRadius: 8; padding: 8px 0; cursor: pointer; width: 100%"
      ∷ [])

-- `btnDisabledStyle`.
unfoldable pub btn_disabled_style : List String
btn_disabled_style = (spread btn_style ("opacity: 0.4; cursor: not-allowed" ∷ []))

-- What the form of a slot fires.
pub record FormActs (A : Type 0) : Type 0 where
  pub set_name : String → A
  pub set_skills : String → A
  pub press_key : String → A
  pub stage : A

abbrev pub is_staged : Option StagedCandidate → Bool
is_staged none = false
is_staged (some c) = true

-- The form of a slot above the slot, `slot_view`; `print` is the string of a text.
unfoldable pub form_section :
    {A : Type 0}
    → (Text → String)
    → FormActs A
    → Html A
    → Slot
    → FormState
    → Option StagedCandidate
    → Html A
form_section print acts slot_view slot form staged = tag "div" [] (
    (tag "div" (style (spread label_style (("color: " <> (slot_color slot)) ∷ [])) ∷ []) (
      (tag "div"
        (style ("width: 24; height: 1" ∷ ("backgroundColor: " <> (slot_color slot)) ∷ []) ∷ []) [])
      ∷ (text "Candidate ")
      ∷ (text ((slot_name slot)))
      ∷ []))
    ∷ (choose ((not (is_staged staged)))
        (tag "div" (style ("display: flex; flexDirection: column; gap: 8" ∷ []) ∷ []) (
          (tag "input"
            (attr "placeholder" "Name"
              ∷ attr "value" (print form.name)
              ∷ on_text "onChange" acts.set_name
              ∷ on_text "onKeyDown" acts.press_key
              ∷ style input_style
              ∷ attr "data-testid" ("candidate-name-input-" <> (slot_name slot))
              ∷ [])
            [])
          ∷ (tag "input"
              (attr "placeholder" "Skills (comma-separated)"
                ∷ attr "value" (print form.skills)
                ∷ on_text "onChange" acts.set_skills
                ∷ on_text "onKeyDown" acts.press_key
                ∷ style input_style
                ∷ attr "data-testid" ("candidate-skills-input-" <> (slot_name slot))
                ∷ [])
              [])
          ∷ (tag "button"
              (disabled (not (can_stage form staged))
                ∷ on "onClick" acts.stage
                ∷ style (if (can_stage form staged) then btn_style else btn_disabled_style)
                ∷ attr "data-testid" ("stage-btn-" <> (slot_name slot))
                ∷ [])
              ((text "Stage Candidate ") ∷ (text ((slot_name slot))) ∷ []))
          ∷ []))
        nothing)
    ∷ (tag "div" (style (("marginTop: " <> (if (is_staged staged) then "0" else "10")) ∷ []) ∷ [])
        (slot_view ∷ []))
    ∷ [])
