-- ===== src/Simulator/Cards.antt =====
-- apps/web/components/simulator/CandidateCard.tsx and CandidateSlot.tsx: what they show.
use socio_technical_alignmen.Api.Client.{◌<>◌}
use socio_technical_alignmen.Drag.{CandidateCardData, slot_name}
use socio_technical_alignmen.Html.{Html, attr, choose, each, flag, on, style, tag, text, when}
use socio_technical_alignmen.Prelude.{
  Bool, Option, String, [], false, if◌then◌else◌, is_empty, none, not, some, str_eq, take, true,
  ◌∷◌,
}
use socio_technical_alignmen.Simulator.Parts.{slot_color}
use socio_technical_alignmen.Store.Simulation.{SimulationStatus, Slot, SlotState, slot_a, slot_b}
use socio_technical_alignmen.Value.{Value}
use socio_technical_alignmen.Workspace.{StagedCandidate}

-- A click on "Clear ✕". The drag handlers, which Drag models, are attached by name.
pub data SlotClick : Type 0 where
  slot_cleared : Slot → SlotClick

abbrev shows : Option String → Bool
shows none = false
shows (some u) = not (str_eq u "")

abbrev url_of : Option String → String
url_of none = ""
url_of (some u) = u

abbrev is_idle : SimulationStatus → Bool
is_idle SimulationStatus.idle = true
is_idle s = false

abbrev is_running : SimulationStatus → Bool
is_running SimulationStatus.running = true
is_running s = false

abbrev is_complete : SimulationStatus → Bool
is_complete SimulationStatus.complete = true
is_complete s = false

abbrev is_failed : SimulationStatus → Bool
is_failed SimulationStatus.error = true
is_failed s = false

abbrev slot_background : Slot → String
slot_background slot_a = "rgba(200,152,42,0.06)"
slot_background slot_b = "rgba(51,102,153,0.06)"

-- The card of a staged candidate, which the workspace stages without a URL.
abbrev card_of : {F : Type 0} → StagedCandidate → CandidateCardData F
card_of c = record {
  candidate_id = c.candidate_id;
  name = c.name;
  skills = c.skills;
  github_url = none;
  collaboration_vector = none;
}

abbrev is_staged : Option StagedCandidate → Bool
is_staged none = false
is_staged (some c) = true

-- `CandidateCard`.
unfoldable pub candidate_card :
    {F : Type 0} → {A : Type 0} → CandidateCardData F → Slot → Bool → Html A
candidate_card c slot can_drag =
    tag "div"
      (attr "draggable" (if can_drag then "true" else "false")
        ∷ flag "onDragStart" true
        ∷ attr "data-testid" ("candidate-card-" <> (slot_name slot))
        ∷ style (
            "backgroundColor: #ffffff; borderRadius: 10; boxShadow: 0 1px 4px rgba(0,51,102,0.08); overflow: hidden"
            ∷ ("cursor: " <> (if can_drag then "grab" else "default"))
            ∷ "userSelect: none"
            ∷ [])
        ∷ [])
      ((tag "div" (style ("height: 3" ∷ ("backgroundColor: " <> (slot_color slot)) ∷ []) ∷ []) [])
        ∷ (tag "div" (style ("padding: 14px 16px" ∷ []) ∷ []) (
            (tag "div"
              (style (
                  "fontFamily: var(--fb); fontSize: 9; fontWeight: 700; letterSpacing: 3px; textTransform: uppercase"
                  ∷ ("color: " <> (slot_color slot))
                  ∷ "marginBottom: 8"
                  ∷ [])
                ∷ [])
              ((text "Candidate ") ∷ (text ((slot_name slot))) ∷ []))
            ∷ (tag "div"
                (style (
                    "fontFamily: 'Fraunces', Georgia, serif; fontSize: 16; fontWeight: 400; color: var(--dark)"
                    ∷ ("marginBottom: " <> (if (shows c.github_url) then "2" else "10"))
                    ∷ [])
                  ∷ [])
                ((text c.name) ∷ []))
            ∷ (when ((shows c.github_url)) (
                tag "div"
                  (style (
                      "fontFamily: var(--fb); fontSize: 11; color: var(--mid); marginBottom: 10"
                      ∷ [])
                    ∷ [])
                  ((text ((url_of c.github_url))) ∷ [])))
            ∷ (when ((not (is_empty (take 5 c.skills)))) (
                tag "div"
                  (style ("display: flex; flexWrap: wrap; gap: 6; marginBottom: 10" ∷ []) ∷ [])
                  ((each
                      (λ skill.
                        tag "span"
                          (style (
                              "fontFamily: var(--fb); fontSize: 10; fontWeight: 500; color: var(--primary); backgroundColor: var(--primary-10); borderRadius: 20; padding: 3px 10px; letterSpacing: 0.5px"
                              ∷ [])
                            ∷ [])
                          ((text skill) ∷ []))
                      ((take 5 c.skills)))
                    ∷ [])))
            ∷ (when can_drag (
                tag "div"
                  (style (
                      "fontFamily: var(--fb); fontSize: 9; fontWeight: 500; letterSpacing: 2px; textTransform: uppercase; color: var(--mid); opacity: 0.7"
                      ∷ [])
                    ∷ [])
                  ((text "↕ Drag onto graph") ∷ [])))
            ∷ []))
        ∷ [])

-- A slot with a candidate.
unfoldable pub filled_slot :
    {F : Type 0}
    → (Value F → String)
    → (Value F → Value F → Html SlotClick)
    → Slot
    → SlotState F
    → StagedCandidate
    → Html SlotClick
filled_slot {F = F} print bar slot s c = tag "div" [] (
    (candidate_card (card_of {F = F} c) slot (is_idle s.status))
    ∷ (tag "div"
        (style (
            "display: flex; justifyContent: space-between; alignItems: center; padding: 8px 16px"
            ∷ [])
          ∷ [])
        ((tag "div"
            (style (
                "fontFamily: var(--fb); fontSize: 10"
                ∷ ("color: "
                    <> (if (is_running s.status)
                        then "var(--gold)"
                        else (if (is_complete s.status)
                            then "#27B97C"
                            else (if (is_failed s.status) then "#E03448" else "var(--mid)"))))
                ∷ [])
              ∷ [])
            ((choose ((is_running s.status)) (text ("Simulating…")) (
                choose ((is_complete s.status)) (text ("Simulation complete")) (
                  choose ((is_failed s.status)) (text ((print s.failure)))
                    (text ("Staged — drag onto graph to run")))))
              ∷ []))
          ∷ (tag "button"
              (on "onClick" (slot_cleared slot)
                ∷ style (
                    "background: none; border: none; cursor: pointer; fontFamily: var(--fb); fontSize: 9; letterSpacing: 2px; textTransform: uppercase; color: var(--mid); padding: 2px 6px"
                    ∷ [])
                ∷ [])
              ((text "Clear ✕") ∷ []))
          ∷ []))
    ∷ (when ((is_running s.status)) (
        tag "div" (style ("padding: 0 16px 14px" ∷ []) ∷ [])
          ((bar s.progress s.iteration_count) ∷ [])))
    ∷ [])

-- A slot without one.
unfoldable pub vacant_slot : {A : Type 0} → Bool → Slot → Html A
vacant_slot over slot =
    tag "div"
      (style (
          "fontFamily: var(--fb); fontSize: 12; color: var(--mid); textAlign: center; paddingTop: 6"
          ∷ ("opacity: " <> (if over then "1" else "0.6"))
          ∷ [])
        ∷ [])
      ((choose over (text ("Release to stage candidate"))
          (text (("Drop a candidate card here — Slot " <> (slot_name slot)))))
        ∷ [])

abbrev slot_content :
    {F : Type 0}
    → (Value F → String)
    → (Value F → Value F → Html SlotClick)
    → Bool
    → Slot
    → SlotState F
    → Option StagedCandidate
    → Html SlotClick
slot_content print bar over slot s none = vacant_slot over slot
slot_content print bar over slot s (some c) = filled_slot print bar slot s c

-- `CandidateSlot`. `print` is how a value shows as a child, `bar` the progress bar of two values.
unfoldable pub candidate_slot :
    {F : Type 0}
    → (Value F → String)
    → (Value F → Value F → Html SlotClick)
    → Bool
    → Slot
    → SlotState F
    → Option StagedCandidate
    → Html SlotClick
candidate_slot print bar over slot s staged =
    tag "div"
      (flag "onDragOver" true
        ∷ flag "onDragLeave" true
        ∷ flag "onDrop" true
        ∷ attr "data-testid" ("candidate-slot-" <> (slot_name slot))
        ∷ style (
            "borderRadius: 10"
            ∷ ("border: "
                <> ("2px dashed "
                    <> (if over
                        then (slot_color slot)
                        else (if (is_staged staged)
                            then (slot_color slot)
                            else "rgba(0,51,102,0.15)"))))
            ∷ ("backgroundColor: "
                <> (if over
                    then (slot_background slot)
                    else (if (is_staged staged) then (slot_background slot) else "#ffffff")))
            ∷ ("padding: " <> (if (is_staged staged) then "0" else "14px 16px"))
            ∷ "transition: border-color 0.15s, background-color 0.15s; minHeight: 72"
            ∷ [])
        ∷ [])
      ((slot_content print bar over slot s staged) ∷ [])
