-- ===== src/Drag/RoundTrip.antt =====
-- A card from its drag to its drop.
use socio_technical_alignmen.Prelude.{
  ◌≡◌, ◌≢◌, refl, ap, ◌∙◌, String, Option, none, some, List, insert, lookup-insert, str_eq, eq_iff,
  arith, if◌then◌else◌, false,
}
use socio_technical_alignmen.Store.Simulation.{Slot, slot_a, slot_b}
use socio_technical_alignmen.Drag.{
  CandidateCardData, DataTransfer, get_data, slot_name, set_url, set_vector, handle_drag_start,
  slot_drop, canvas_drop,
}

get_data-insert :
    (k j v : String) (d : DataTransfer)
    → get_data j (insert k v d) ≡ (if str_eq k j then v else get_data j d)
unfolding get_data
get_data-insert k j v d = ground (arith, lookup-insert k j v d)

-- The two optional formats do not touch the other four.
get_data-set_url :
    (j : String) (url : Option String) (d : DataTransfer)
    → str_eq "application/x-github-url" j ≡ false
    → get_data j (set_url url d) ≡ get_data j d
get_data-set_url j none d h = refl
get_data-set_url j (some url) d h =
    ground (arith, get_data-insert "application/x-github-url" j url d)

get_data-set_vector :
    {F : Type 0} (print_vector : List F → String) (j : String) (o : Option (List F))
    (d : DataTransfer)
    → str_eq "application/x-collab-vector" j ≡ false
    → get_data j (set_vector print_vector o d) ≡ get_data j d
get_data-set_vector print_vector j none d h = refl
get_data-set_vector print_vector j (some v) d h =
    ground (arith, get_data-insert "application/x-collab-vector" j (print_vector v) d)

module _ {F : Type 0} (print : List String → String) (print_vector : List F → String)
    (c : CandidateCardData F) (slot : Slot) (d : DataTransfer) where
  dragged : DataTransfer
  dragged = handle_drag_start print print_vector c slot d

  dragged_id : get_data "application/x-candidate-id" dragged ≡ c.candidate_id
  unfolding dragged handle_drag_start
  dragged_id =
      get_data-set_vector print_vector _ c.collaboration_vector _ refl
      ∙ get_data-set_url _ c.github_url _ refl
      ∙ simp get_data-insert

  dragged_name : get_data "application/x-candidate-name" dragged ≡ c.name
  unfolding dragged handle_drag_start
  dragged_name =
      get_data-set_vector print_vector _ c.collaboration_vector _ refl
      ∙ get_data-set_url _ c.github_url _ refl
      ∙ simp get_data-insert

  dragged_skills : get_data "application/x-candidate-skills" dragged ≡ print c.skills
  unfolding dragged handle_drag_start
  dragged_skills =
      get_data-set_vector print_vector _ c.collaboration_vector _ refl
      ∙ get_data-set_url _ c.github_url _ refl
      ∙ simp get_data-insert

  dragged_slot : get_data "application/x-slot" dragged ≡ slot_name slot
  unfolding dragged handle_drag_start
  dragged_slot =
      get_data-set_vector print_vector _ c.collaboration_vector _ refl
      ∙ get_data-set_url _ c.github_url _ refl
      ∙ simp get_data-insert

slot_name-set : (slot : Slot) → str_eq (slot_name slot) "" ≡ false
slot_name-set slot_a = refl
slot_name-set slot_b = refl

-- If `JSON.parse` undoes `JSON.stringify` on the card's skills and the card's id is not empty, a
-- dragged card that is dropped on the canvas hands on its own slot, id, name and skills, and one
-- dropped on a slot hands on that slot with the card's id, name and skills.
pub drop-drag :
    {F : Type 0} (print : List String → String) (print_vector : List F → String)
    (parse : String → Option (List String)) (c : CandidateCardData F) (slot target : Slot)
    (d : DataTransfer)
    → parse (print c.skills) ≡ some c.skills
    → c.candidate_id ≢ ""
    → (canvas_drop parse (handle_drag_start print print_vector c slot d)
        ≡ some (record {
          slot = slot_name slot;
          candidate_id = c.candidate_id;
          name = c.name;
          skills = c.skills;
        }))
      × (slot_drop parse target (handle_drag_start print print_vector c slot d)
          ≡ some (record {
            slot = slot_name target;
            candidate_id = c.candidate_id;
            name = c.name;
            skills = c.skills;
          }))
unfolding canvas_drop slot_drop dragged
drop-drag print print_vector parse c slot target d undo proper =
    let id = dragged_id print print_vector c slot d in
    let name = dragged_name print print_vector c slot d in
    let skills = ap parse (dragged_skills print print_vector c slot d) ∙ undo in
    let home = dragged_slot print print_vector c slot d in
    let set : str_eq c.candidate_id "" ≡ false = ground (arith, eq_iff c.candidate_id "") in
    let named : str_eq (slot_name slot) "" ≡ false = slot_name-set slot in
    (rw (skills, id, name, home, set, named), rw (skills, id, name, set))
