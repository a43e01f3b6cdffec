-- ===== src/GraphUtils/Teams.antt =====
-- The list of teams, `extractTeams`.
use mathlib.Core.List.{Memᴰ}
use socio_technical_alignmen.Prelude.{
  ◌≡◌, refl, sym, ◌∙◌, ◌⊎◌, inl, inr, ◌↔◌, ◌≢◌, true, false, String, List, [], ◌∷◌, map, includes,
  All, arith, Bool-cases,
}
use socio_technical_alignmen.Prelude.Text.{Text, utf16}
use socio_technical_alignmen.Prelude.Sort.{sort-perm, sort-IsSorted, IsSorted}
use socio_technical_alignmen.Prelude.Members.{
  Distinct, Distinct-perm, mem-perm, mem-uncons, perm_sym, includes_sound, includes_complete,
  mem-map_sound, mem-map_complete,
}
use mathlib.Core.Path.{subst}
use mathlib.Core.Bool.{false≢true}
use socio_technical_alignmen.Api.{ForceGraphNode}
use socio_technical_alignmen.GraphUtils.{text_le, sorts_before, unique_from, unique, extract_teams}

text_le_total : (s t : Text) → (text_le s t ≡ true) ⊎ (text_le t s ≡ true)
unfolding text_le
text_le_total [] t = inl refl
text_le_total (c ∷ s) [] = inr refl
text_le_total (c ∷ s) (d ∷ t) = ground (arith, text_le_total s t)

text_le_trans : (s t u : Text) → text_le s t ≡ true → text_le t u ≡ true → text_le s u ≡ true
unfolding text_le
text_le_trans [] t u h k = refl
text_le_trans (c ∷ s) [] u h k = cc
text_le_trans (c ∷ s) (d ∷ t) [] h k = cc
text_le_trans (c ∷ s) (d ∷ t) (e ∷ u) h k = ground (arith, text_le_trans s t u)

unique_from-skip :
    (seen : List String) (x : String) (xs : List String)
    → includes x seen ≡ true
    → unique_from seen (x ∷ xs) ≡ unique_from seen xs
unfolding unique_from
unique_from-skip seen x xs h = ground (arith, h)

unique_from-keep :
    (seen : List String) (x : String) (xs : List String)
    → includes x seen ≡ false
    → unique_from seen (x ∷ xs) ≡ x ∷ unique_from (x ∷ seen) xs
unfolding unique_from
unique_from-keep seen x xs h = ground (arith, h)

-- What was seen does not come again.
unique_from-fresh :
    (z : String) (seen xs : List String) → Memᴰ z seen → All (λ y. z ≢ y) (unique_from seen xs)
unique_from-fresh z seen [] m = unfold unique_from in tt
unique_from-fresh z seen (x ∷ xs) m = elim (Bool-cases (includes x seen)) [
  | inl old ↦ rw (unique_from-skip seen x xs old) (unique_from-fresh z seen xs m)
  | inr new ↦ rw (unique_from-keep seen x xs new) (
    λ e. false≢true (sym new ∙ includes_complete x seen (subst (λ (s : String). Memᴰ s seen) e m)),
    unique_from-fresh z (x ∷ seen) xs (Memᴰ.tail m),
  )
]

unique_from-Distinct : (seen xs : List String) → Distinct (unique_from seen xs)
unique_from-Distinct seen [] = unfold unique_from in tt
unique_from-Distinct seen (x ∷ xs) = elim (Bool-cases (includes x seen)) [
  | inl old ↦ rw (unique_from-skip seen x xs old) (unique_from-Distinct seen xs)
  | inr new ↦
      rw (unique_from-keep seen x xs new)
        (unique_from-fresh x (x ∷ seen) xs (Memᴰ.head refl), unique_from-Distinct (x ∷ seen) xs)
]

unique_from-sound : (z : String) (seen xs : List String) → Memᴰ z (unique_from seen xs) → Memᴰ z xs
unique_from-sound z seen [] m = unfold unique_from in m
unique_from-sound z seen (x ∷ xs) m = elim (Bool-cases (includes x seen)) [
  | inl old ↦ Memᴰ.tail (unique_from-sound z seen xs (rw (unique_from-skip seen x xs old) at m))
  | inr new ↦ elim (mem-uncons (rw (unique_from-keep seen x xs new) at m)) [
    | inl e ↦ Memᴰ.head e
    | inr later ↦ Memᴰ.tail (unique_from-sound z (x ∷ seen) xs later)
  ]
]

unique_from-complete :
    (z : String) (seen xs : List String) → Memᴰ z xs → Memᴰ z seen ⊎ Memᴰ z (unique_from seen xs)
unique_from-complete z seen [] m = elim m [ ]
unique_from-complete z seen (x ∷ xs) m = elim (Bool-cases (includes x seen)) [
  | inl old ↦ rw (unique_from-skip seen x xs old) (elim (mem-uncons m) [
    | inl e ↦ inl (subst (λ (s : String). Memᴰ s seen) (sym e) (includes_sound x seen old))
    | inr later ↦ unique_from-complete z seen xs later
  ])
  | inr new ↦ rw (unique_from-keep seen x xs new) (elim (mem-uncons m) [
    | inl e ↦ inr (Memᴰ.head e)
    | inr later ↦ elim (unique_from-complete z (x ∷ seen) xs later) [
      | inl known ↦ elim (mem-uncons known) [ inl e ↦ inr (Memᴰ.head e) | inr old ↦ inl old ]
      | inr listed ↦ inr (Memᴰ.tail listed)
    ]
  ])
]

unique_iff : (z : String) (xs : List String) → Memᴰ z (unique xs) ↔ Memᴰ z xs
unfolding unique
unique_iff z xs = (
  unique_from-sound z [] xs,
  λ m. elim (unique_from-complete z [] xs m) [ inl none ↦ elim none [ ] | inr listed ↦ listed ],
)

-- The team list is sorted by UTF-16 code units, holds no team twice, and holds exactly the teams
-- of the nodes.
pub extract_teams_lem :
    {F : Type 0} (nodes : List (ForceGraphNode F)) (team : String)
    → IsSorted sorts_before (extract_teams nodes)
      × Distinct (extract_teams nodes)
      × (Memᴰ team (extract_teams nodes)
          ↔ ((e : ForceGraphNode F) × Memᴰ e nodes × (e.team ≡ team)))
unfolding extract_teams unique
extract_teams_lem nodes team =
    let names = map (λ e. e.team) nodes in
    let perm = sort-perm sorts_before (unique names) in
    (
      sort-IsSorted sorts_before (λ a b. text_le_total (utf16 a) (utf16 b))
          (λ a b c. text_le_trans (utf16 a) (utf16 b) (utf16 c)) (unique names),
      Distinct-perm (perm_sym perm) (unique_from-Distinct [] names),
      (
        λ m. mem-map_sound (λ e. e.team) nodes team ((unique_iff team names).0 (mem-perm perm m)),
        λ (e, listed, same). mem-perm (perm_sym perm) (
            (unique_iff team names).1 (
              subst (λ (s : String). Memᴰ s names) same
                (mem-map_complete (λ d. d.team) nodes e listed))),
      ),
    )
