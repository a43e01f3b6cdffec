-- ===== src/GraphUtils/Maxima.antt =====
-- The two maxima over nodes and links.
use mathlib.Core.List.{Memᴰ}
use socio_technical_alignmen.Prelude.{◌≡◌, refl, ◌∙◌, ◌⊎◌, inl, inr, false, List, [], ◌∷◌, All}
use socio_technical_alignmen.Number.{Number, IsOrdered, not_lt_trans, lt_irrefl}
use socio_technical_alignmen.Api.{ForceGraphNode, ForceGraphLink}
use socio_technical_alignmen.GraphUtils.{max_of, max_betweenness, max_edge_weight}

module _ {F : Type 0} ⦃n : Number F⦄ (ord : IsOrdered F) where
  module _ {ℓ} {A : Type ℓ} (key : A → F) where
    pub max_of_start : (m : F) (xs : List A) → n.lt (max_of key m xs) m ≡ false
    unfolding max_of
    max_of_start m [] = lt_irrefl ord m
    max_of_start m (x ∷ xs) =
        not_lt_trans ord m (n.max m (key x)) _ (ord.max_left m (key x))
          (max_of_start (n.max m (key x)) xs)

    pub max_of_upper : (m : F) (xs : List A) → All (λ x. n.lt (max_of key m xs) (key x) ≡ false) xs
    unfolding max_of
    max_of_upper m [] = tt
    max_of_upper m (x ∷ xs) = (
      not_lt_trans ord (key x) (n.max m (key x)) _ (ord.max_right m (key x))
          (max_of_start (n.max m (key x)) xs),
      max_of_upper (n.max m (key x)) xs,
    )

    max_of_attained :
        (m : F) (xs : List A)
        → (max_of key m xs ≡ m) ⊎ ((x : A) × Memᴰ x xs × (max_of key m xs ≡ key x))
    unfolding max_of
    max_of_attained m [] = inl refl
    max_of_attained m (x ∷ xs) = elim (max_of_attained (n.max m (key x)) xs) [
      | inl first ↦ elim (ord.max_cases m (key x)) [
        | inl old ↦ inl (first ∙ old)
        | inr new ↦ inr (x, Memᴰ.head refl, first ∙ new)
      ]
      | inr (y, listed, top) ↦ inr (y, Memᴰ.tail listed, top)
    ]

  -- No node has a betweenness above the maximum, which is not below 0, and is 0 or the betweenness
  -- of some node; and so for the weights of the links.
  pub maxima :
      (nodes : List (ForceGraphNode F)) (links : List (ForceGraphLink F))
      → All (λ e. n.lt (max_betweenness nodes) e.betweenness ≡ false) nodes
        × (n.lt (max_betweenness nodes) (n.lit 0 0) ≡ false)
        × ((max_betweenness nodes ≡ n.lit 0 0)
            ⊎ ((e : ForceGraphNode F) × Memᴰ e nodes × (max_betweenness nodes ≡ e.betweenness)))
        × All (λ l. n.lt (max_edge_weight links) l.weight ≡ false) links
        × (n.lt (max_edge_weight links) (n.lit 0 0) ≡ false)
        × ((max_edge_weight links ≡ n.lit 0 0)
            ⊎ ((l : ForceGraphLink F) × Memᴰ l links × (max_edge_weight links ≡ l.weight)))
  unfolding max_betweenness max_edge_weight
  maxima nodes links = (
    max_of_upper _ (n.lit 0 0) nodes,
    max_of_start _ (n.lit 0 0) nodes,
    max_of_attained _ (n.lit 0 0) nodes,
    max_of_upper _ (n.lit 0 0) links,
    max_of_start _ (n.lit 0 0) links,
    max_of_attained _ (n.lit 0 0) links,
  )
