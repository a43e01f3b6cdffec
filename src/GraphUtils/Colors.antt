-- ===== src/GraphUtils/Colors.antt =====
-- Which teams share a colour.
use mathlib.Core.Path.{subst}
use socio_technical_alignmen.Prelude.{
  ℕ, zero, suc, ◌%◌, ◌<◌, ◌≡◌, ◌↔◌, ◌≢◌, refl, sym, ap, ◌∙◌, true, String, some, List, [], ◌∷◌, All,
  get_elem?, str_eq, eq_iff, arith, if◌then◌else◌,
}
use socio_technical_alignmen.Prelude.Members.{Distinct}
use socio_technical_alignmen.GraphUtils.{team_colors, index_of, or_else, get_team_color}

get_elem?-All :
    (P : String → Type 0) (xs : List String) (i : ℕ) (a : String)
    → All P xs
    → get_elem? xs i ≡ some a
    → P a
get_elem?-All P [] i a h e = cc
get_elem?-All P (x ∷ xs) zero a h e = let same : x ≡ a = cc in subst P same h.0
get_elem?-All P (x ∷ xs) (suc i) a h e = get_elem?-All P xs i a h.1 e

-- In a list without repetitions `indexOf` finds the one place.
index_of-get_elem? :
    (xs : List String) (i : ℕ) (a : String)
    → Distinct xs
    → get_elem? xs i ≡ some a
    → index_of a xs ≡ some i
unfolding index_of
index_of-get_elem? [] i a d e = cc
index_of-get_elem? (x ∷ xs) zero a d e =
    let same : x ≡ a = cc in
    let hit : str_eq x a ≡ true = (eq_iff x a).1 same in ground (arith, hit)
index_of-get_elem? (x ∷ xs) (suc i) a d e =
    let miss : x ≢ a = get_elem?-All (λ y. x ≢ y) xs i a d.0 e in
    ground (arith, eq_iff x a, index_of-get_elem? xs i a d.1 e)

-- The place of a colour in the palette.
place : String → ℕ
place c =
    if str_eq c "#003366"
    then 0
    else if str_eq c "#27B97C"
    then 1
    else if str_eq c "#7C4DBD"
    then 2
    else if str_eq c "#F07020"
    then 3
    else 4

color_at : ℕ → String
color_at k = or_else (get_elem? team_colors k) "#003366"

place-color_at : (k : ℕ) → k < 5 → place (color_at k) ≡ k
unfolding place color_at
place-color_at zero h = refl
place-color_at (suc zero) h = refl
place-color_at (suc (suc zero)) h = refl
place-color_at (suc (suc (suc zero))) h = refl
place-color_at (suc (suc (suc (suc zero)))) h = refl
place-color_at (suc (suc (suc (suc (suc k))))) h = absurd (omega arith)

get_team_color-at :
    (all_teams : List String) (i : ℕ) (a : String)
    → Distinct all_teams
    → get_elem? all_teams i ≡ some a
    → get_team_color a all_teams ≡ color_at (i % 5)
unfolding get_team_color color_at
get_team_color-at all_teams i a d e = ground (arith, index_of-get_elem? all_teams i a d e)

-- In a list of teams without repetitions two teams have the same colour exactly when their places
-- differ by a multiple of five, so the first five teams have five colours.
pub get_team_color_iff :
    (all_teams : List String) (i j : ℕ) (a b : String)
    → Distinct all_teams
    → get_elem? all_teams i ≡ some a
    → get_elem? all_teams j ≡ some b
    → (get_team_color a all_teams ≡ get_team_color b all_teams) ↔ (i % 5 ≡ j % 5)
get_team_color_iff all_teams i j a b d p q =
    let at_a = get_team_color-at all_teams i a d p in
    let at_b = get_team_color-at all_teams j b d q in
    (
      λ same.
          sym (place-color_at (i % 5) (omega arith))
          ∙ ap place (sym at_a ∙ same ∙ at_b)
          ∙ place-color_at (j % 5) (omega arith),
      λ same. at_a ∙ ap color_at same ∙ sym at_b,
    )
