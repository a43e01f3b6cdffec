-- ===== src/Drag.antt =====
-- Dragging a candidate: components/simulator/CandidateCard.tsx sets the data of the drag, and
-- CandidateSlot.tsx and components/graph/TeamGraph.tsx read it when the card is dropped.
--
-- `JSON.stringify` and `JSON.parse` of a list of strings are the runtime's: parameters. The first
-- is named `print`, the second `parse`, `none` where it throws.
mod RoundTrip
mod Tests
use socio_technical_alignmen.Prelude.{
  ℕ, String, Bool, true, false, not, ◌||◌, Option, none, some, List, [], ◌∷◌, lookup, insert, take,
  str_eq, if◌then◌else◌,
}
use socio_technical_alignmen.Store.Simulation.{Slot, slot_a, slot_b}

pub record CandidateCardData (F : Type 0) : Type 0 where
  pub candidate_id : String
  pub name : String
  pub skills : List String
  pub github_url : Option String
  pub collaboration_vector : Option (List F)

-- `dataTransfer`: a dictionary from format to text.
abbrev pub DataTransfer : Type 0
DataTransfer = List (String × String)

-- `getData`: the empty text for a format that is not there.
unfoldable pub get_data : String → DataTransfer → String
get_data format d = elim (lookup format d) [ none ↦ "" | some s ↦ s ]

abbrev pub slot_name : Slot → String
slot_name slot_a = "A"
slot_name slot_b = "B"

-- `if (candidate.githubUrl) setData(…)`.
abbrev set_url : Option String → DataTransfer → DataTransfer
set_url none d = d
set_url (some url) d = if str_eq url "" then d else insert "application/x-github-url" url d

abbrev set_vector : {F : Type 0} → (List F → String) → Option (List F) → DataTransfer → DataTransfer
set_vector print_vector none d = d
set_vector print_vector (some v) d = insert "application/x-collab-vector" (print_vector v) d

module _ (print : List String → String) where
  -- `handleDragStart` of a card.
  unfoldable pub handle_drag_start :
      {F : Type 0} → (List F → String) → CandidateCardData F → Slot → DataTransfer → DataTransfer
  handle_drag_start print_vector c slot d = set_vector print_vector c.collaboration_vector (
      set_url c.github_url (
        insert "application/x-slot" (slot_name slot) (
          insert "application/x-candidate-skills" (print c.skills) (
            insert "application/x-candidate-name" c.name
              (insert "application/x-candidate-id" c.candidate_id d)))))

-- What a drop hands on: `onStage(slot, id, name, skills)`, `onCandidateDrop(slot, …)` less the
-- coordinates. A slot is what the text of the drag says, unchecked.
pub record Dropped : Type 0 where
  pub slot : String
  pub candidate_id : String
  pub name : String
  pub skills : List String

abbrev or_empty : Option (List String) → List String
or_empty none = []
or_empty (some skills) = skills

module _ (parse : String → Option (List String)) where
  -- `handleDrop` of a slot: the slot is its own, whatever slot the card came from.
  unfoldable pub slot_drop : Slot → DataTransfer → Option Dropped
  slot_drop slot d =
      if str_eq (get_data "application/x-candidate-id" d) ""
      then none
      else some (record {
        slot = slot_name slot;
        candidate_id = get_data "application/x-candidate-id" d;
        name = get_data "application/x-candidate-name" d;
        skills = or_empty (parse (get_data "application/x-candidate-skills" d));
      })

  -- `handleDrop` of the graph canvas: the slot is the one of the card.
  unfoldable pub canvas_drop : DataTransfer → Option Dropped
  canvas_drop d =
      if str_eq (get_data "application/x-candidate-id" d) ""
        || str_eq (get_data "application/x-slot" d) ""
      then none
      else some (record {
        slot = get_data "application/x-slot" d;
        candidate_id = get_data "application/x-candidate-id" d;
        name = get_data "application/x-candidate-name" d;
        skills = or_empty (parse (get_data "application/x-candidate-skills" d));
      })

-- The drop zone's highlight: `dragover` sets it; `dragleave` clears it unless the pointer went to
-- an element inside; a drop clears it.
pub data DragEvent : Type 0 where
  drag_over : DragEvent
  drag_leave : Bool → DragEvent
  drop : DragEvent

unfoldable pub highlight : DragEvent → Bool → Bool
highlight drag_over over = true
highlight (drag_leave inside) over = if inside then over else false
highlight drop over = false
