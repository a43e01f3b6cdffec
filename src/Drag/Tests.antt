-- ===== src/Drag/Tests.antt =====
-- A card dragged from slot A.
use socio_technical_alignmen.Prelude.{
  ℕ, ◌≡◌, refl, String, Option, none, some, List, [], ◌∷◌, arith, eq_iff, str_eq, if◌then◌else◌,
}
use socio_technical_alignmen.Store.Simulation.{slot_a, slot_b}
use socio_technical_alignmen.Drag.{
  CandidateCardData, DataTransfer, handle_drag_start, slot_drop, canvas_drop,
}
use socio_technical_alignmen.Drag.RoundTrip.{drop-drag}

abbrev card : CandidateCardData ℕ
card = record {
  candidate_id = "c1";
  name = "Ada";
  skills = "go" ∷ [];
  github_url = some "https://example.org";
  collaboration_vector = none;
}

abbrev print : List String → String
print skills = "[go]"

abbrev parse : String → Option (List String)
parse s = if str_eq s "[go]" then some ("go" ∷ []) else none

abbrev empty : DataTransfer
empty = []

drop-drag_example :
    (canvas_drop parse (handle_drag_start print (λ (v : List ℕ). "") card slot_a empty)
      ≡ some (record { slot = "A"; candidate_id = "c1"; name = "Ada"; skills = "go" ∷ [] }))
    × (slot_drop parse slot_b (handle_drag_start print (λ (v : List ℕ). "") card slot_a empty)
        ≡ some (record { slot = "B"; candidate_id = "c1"; name = "Ada"; skills = "go" ∷ [] }))
drop-drag_example =
    drop-drag print (λ (v : List ℕ). "") parse card slot_a slot_b empty refl
      (ground (arith, eq_iff "c1" ""))
