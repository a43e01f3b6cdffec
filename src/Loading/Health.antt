-- ===== src/Loading/Health.antt =====
-- The top hub of a team.
use mathlib.Core.List.{Memᴰ}
use mathlib.Core.Path.{subst}
use socio_technical_alignmen.Prelude.{
  ◌≡◌, refl, sym, String, true, false, List, [], ◌∷◌, All, inl, inr, Bool-cases,
}
use socio_technical_alignmen.Number.{Number, IsOrdered, not_lt_trans, lt_irrefl}
use socio_technical_alignmen.Api.{CentralityScore}
use socio_technical_alignmen.Loading.{compute_health, top_of}

module _ {F : Type 0} ⦃n : Number F⦄ where
  top_kept :
      (a b : CentralityScore F) (bs : List (CentralityScore F))
      → n.lt b.closeness a.closeness ≡ true
      → top_of a (b ∷ bs) ≡ top_of a bs
  unfolding top_of
  top_kept a b bs h = rw h refl

  top_replaced :
      (a b : CentralityScore F) (bs : List (CentralityScore F))
      → n.lt b.closeness a.closeness ≡ false
      → top_of a (b ∷ bs) ≡ top_of b bs
  unfolding top_of
  top_replaced a b bs h = rw h refl

  -- A score that is listed and not below any listed one.
  abbrev pub IsTop : CentralityScore F → List (CentralityScore F) → Type 0
  IsTop t cs = Memᴰ t cs × All (λ c. n.lt t.closeness c.closeness ≡ false) cs

  module _ (ord : IsOrdered F) where
    top_of-IsTop :
        (a : CentralityScore F) (bs : List (CentralityScore F)) → IsTop (top_of a bs) (a ∷ bs)
    top_of-IsTop a [] = unfold top_of in (Memᴰ.head refl, (lt_irrefl ord a.closeness, tt))
    top_of-IsTop a (b ∷ bs) = elim (Bool-cases (n.lt b.closeness a.closeness)) [
      | inl less ↦
          let (listed, (first, later)) = top_of-IsTop a bs in
          let below =
            not_lt_trans ord b.closeness a.closeness (top_of a bs).closeness
              (ord.lt_asymm b.closeness a.closeness less) first in
          subst (λ (t : CentralityScore F). IsTop t (a ∷ b ∷ bs)) (sym (top_kept a b bs less))
            (skip a b bs (top_of a bs) listed, (first, (below, later)))
      | inr more ↦
          let (listed, (first, later)) = top_of-IsTop b bs in
          let below = not_lt_trans ord a.closeness b.closeness (top_of b bs).closeness more first in
          subst (λ (t : CentralityScore F). IsTop t (a ∷ b ∷ bs)) (sym (top_replaced a b bs more))
            (Memᴰ.tail listed, (below, (first, later)))
    ]
      where
        skip :
            (a b : CentralityScore F) (bs : List (CentralityScore F)) (t : CentralityScore F)
            → Memᴰ t (a ∷ bs)
            → Memᴰ t (a ∷ b ∷ bs)
        skip a b bs t (Memᴰ.head e) = Memᴰ.head e
        skip a b bs t (Memᴰ.tail m) = Memᴰ.tail (Memᴰ.tail m)

    -- If the numbers are ordered, the top hub of a team with scores is the engineer of one of the
    -- scores, and no score of the team has a greater closeness than that one.
    pub compute_health_lem :
        (team : String) (c : CentralityScore F) (cs : List (CentralityScore F))
        → (t : CentralityScore F) × IsTop t (c ∷ cs)
          × ((compute_health team (c ∷ cs)).top_hub ≡ t.engineer_id)
    unfolding compute_health
    compute_health_lem team c cs = (top_of c cs, top_of-IsTop c cs, refl)
