-- ===== src/TeamGraph/Legend.antt =====
-- The legend of the canvas: the relationship types that are drawn.
use mathlib.Core.List.{Memᴰ}
use mathlib.Core.Path.{subst}
use socio_technical_alignmen.Prelude.{
  true, ◌≡◌, sym, ◌∙◌, ap, refl, inl, inr, ◌↔◌, some, List, [], ◌∷◌, arith, Bool-cases,
}
use socio_technical_alignmen.Prelude.Members.{mem-filter_sound, mem-filter_complete}
use socio_technical_alignmen.Api.{
  RelationshipType, reviews_pr_of, resolves_doubt_for, pair_programs_with, blocks_ticket_of,
  shares_domain_with,
}
use socio_technical_alignmen.TeamGraph.{
  AnyLink, MergedData, link_of, present_rel_types, has_type, relationship_types, same_type,
}

same_type_refl : (r : RelationshipType) → same_type r r ≡ true
same_type_refl reviews_pr_of = refl
same_type_refl resolves_doubt_for = refl
same_type_refl pair_programs_with = refl
same_type_refl blocks_ticket_of = refl
same_type_refl shares_domain_with = refl

same_type-eq : (q r : RelationshipType) → same_type q r ≡ true → q ≡ r
same_type-eq reviews_pr_of reviews_pr_of h = refl
same_type-eq resolves_doubt_for resolves_doubt_for h = refl
same_type-eq pair_programs_with pair_programs_with h = refl
same_type-eq blocks_ticket_of blocks_ticket_of h = refl
same_type-eq shares_domain_with shares_domain_with h = refl
same_type-eq _ _ h = ground (arith, h)

listed_type : (r : RelationshipType) → Memᴰ r relationship_types
listed_type reviews_pr_of = Memᴰ.head refl
listed_type resolves_doubt_for = Memᴰ.tail (Memᴰ.head refl)
listed_type pair_programs_with = Memᴰ.tail (Memᴰ.tail (Memᴰ.head refl))
listed_type blocks_ticket_of = Memᴰ.tail (Memᴰ.tail (Memᴰ.tail (Memᴰ.head refl)))
listed_type shares_domain_with = Memᴰ.tail (Memᴰ.tail (Memᴰ.tail (Memᴰ.tail (Memᴰ.head refl))))

module _ {F : Type 0} where
  -- A link of the list has the type.
  abbrev pub Occurs : RelationshipType → List (AnyLink F) → Type 0
  Occurs r ls = (l : AnyLink F) × Memᴰ l ls × ((link_of l).relationship ≡ r)

  has_type_sound :
      (r : RelationshipType) (ls : List (AnyLink F)) → has_type r ls ≡ true → Occurs r ls
  unfolding has_type
  has_type_sound r [] h = absurd (ground (arith, h))
  has_type_sound r (l ∷ ls) h = elim (Bool-cases (same_type (link_of l).relationship r)) [
    | inl same ↦ (l, Memᴰ.head refl, same_type-eq (link_of l).relationship r same)
    | inr differs ↦
        let (k, listed, e) = has_type_sound r ls (ground (arith, differs)) in
        (k, Memᴰ.tail listed, e)
  ]

  has_type_complete :
      (r : RelationshipType) (ls : List (AnyLink F)) (l : AnyLink F)
      → Memᴰ l ls
      → (link_of l).relationship ≡ r
      → has_type r ls ≡ true
  unfolding has_type
  has_type_complete r [] l m h = elim m [ ]
  has_type_complete r (k ∷ ls) l (Memᴰ.head e) h =
      let same : (link_of k).relationship ≡ r =
        sym (ap (λ (j : AnyLink F). (link_of j).relationship) e) ∙ h in
      let hit : same_type (link_of k).relationship r ≡ true =
        subst (λ (q : RelationshipType). same_type (link_of k).relationship q ≡ true) same
          (same_type_refl (link_of k).relationship) in
      ground (arith, hit)
  has_type_complete r (k ∷ ls) l (Memᴰ.tail m) h = ground (arith, has_type_complete r ls l m h)

  -- The legend of drawn data lists a relationship type exactly when some drawn link has it.
  pub present_rel_types_iff :
      (d : MergedData F) (r : RelationshipType)
      → Memᴰ r (present_rel_types (some d)) ↔ Occurs r d.links
  unfolding present_rel_types
  present_rel_types_iff d r = (
    λ m.
        has_type_sound r d.links
          (mem-filter_sound (λ q. has_type q d.links) relationship_types r m).1,
    λ (l, listed, e).
        mem-filter_complete (λ q. has_type q d.links) relationship_types r (listed_type r)
          (has_type_complete r d.links l listed e),
  )
