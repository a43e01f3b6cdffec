-- ===== src/TeamGraph/Collision.antt =====
-- What the collision force of the graph leaves alone.
use socio_technical_alignmen.Prelude.{
  ℕ, zero, suc, ◌≡◌, refl, ◌∙◌, ap, false, none, List, [], ◌∷◌, All, map, length, inl, inr,
  Bool-cases,
}
use socio_technical_alignmen.Number.{Number}
use socio_technical_alignmen.Api.{ForceGraphNode}
use socio_technical_alignmen.TeamGraph.Collide.{overlaps, separate, separate_from, pass, force}

module _ {F : Type 0} where
  -- The node without its velocity.
  abbrev pub at_rest : ForceGraphNode F → ForceGraphNode F
  at_rest v = record v { vx = none; vy = none }

module _ {F : Type 0} ⦃n : Number F⦄ (sqrt : F → F) (radius : ForceGraphNode F → F) where
  -- No node overlaps a later one.
  abbrev pub IsApart : List (ForceGraphNode F) → Type 0
  IsApart [] = Unit
  IsApart (a ∷ bs) = All (λ b. overlaps sqrt radius a b ≡ false) bs × IsApart bs

  separate_from-apart :
      (strength : F) (a : ForceGraphNode F) (bs : List (ForceGraphNode F))
      → All (λ b. overlaps sqrt radius a b ≡ false) bs
      → separate_from sqrt radius strength a bs ≡ (a, bs)
  unfolding separate_from separate
  separate_from-apart strength a [] h = refl
  separate_from-apart strength a (b ∷ bs) (free, rest) =
      rw (free, separate_from-apart strength a bs rest) refl

  pass-IsApart :
      (strength : F) (k : ℕ) (ns : List (ForceGraphNode F))
      → IsApart ns
      → pass sqrt radius strength k ns ≡ ns
  unfolding pass
  pass-IsApart strength zero ns h = refl
  pass-IsApart strength (suc k) [] h = refl
  pass-IsApart strength (suc k) (a ∷ bs) (free, rest) =
      rw (separate_from-apart strength a bs free)
        (ap (λ (l : List (ForceGraphNode F)). a ∷ l) (pass-IsApart strength k bs rest))

  -- If no two nodes are closer than their radii together, the force changes nothing, however
  -- often it iterates.
  pub force-IsApart :
      (strength : F) (k : ℕ) (ns : List (ForceGraphNode F))
      → IsApart ns
      → force sqrt radius strength k ns ≡ ns
  unfolding force
  force-IsApart strength zero ns h = refl
  force-IsApart strength (suc k) ns h =
      rw (pass-IsApart strength (length ns) ns h) (force-IsApart strength k ns h)

  separate-at_rest :
      (strength : F) (a b : ForceGraphNode F)
      → (at_rest (separate sqrt radius strength a b).0 ≡ at_rest a)
        × (at_rest (separate sqrt radius strength a b).1 ≡ at_rest b)
  unfolding separate
  separate-at_rest strength a b = elim (Bool-cases (overlaps sqrt radius a b)) [
    | inl close ↦ rw close (refl, refl)
    | inr apart ↦ rw apart (refl, refl)
  ]

  separate_from-at_rest :
      (strength : F) (a : ForceGraphNode F) (bs : List (ForceGraphNode F))
      → (at_rest (separate_from sqrt radius strength a bs).0 ≡ at_rest a)
        × (map at_rest (separate_from sqrt radius strength a bs).1 ≡ map at_rest bs)
  unfolding separate_from
  separate_from-at_rest strength a [] = (refl, refl)
  separate_from-at_rest strength a (b ∷ bs) =
      let (same_a, same_b) = separate-at_rest strength a b in
      let (last, others) =
        separate_from-at_rest strength (separate sqrt radius strength a b).0 bs in
      (last ∙ same_a, cc (same_b, others))

  pass-at_rest :
      (strength : F) (k : ℕ) (ns : List (ForceGraphNode F))
      → map at_rest (pass sqrt radius strength k ns) ≡ map at_rest ns
  unfolding pass
  pass-at_rest strength zero ns = refl
  pass-at_rest strength (suc k) [] = refl
  pass-at_rest strength (suc k) (a ∷ bs) =
      let (same, others) = separate_from-at_rest strength a bs in
      cc (same, others, pass-at_rest strength k (separate_from sqrt radius strength a bs).1)

  -- The force changes nothing of the nodes but their velocities: however often it iterates, there
  -- are the same nodes in the same order at the same positions, so that each iteration meets the
  -- positions of the first.
  pub force-at_rest :
      (strength : F) (k : ℕ) (ns : List (ForceGraphNode F))
      → map at_rest (force sqrt radius strength k ns) ≡ map at_rest ns
  unfolding force
  force-at_rest strength zero ns = refl
  force-at_rest strength (suc k) ns =
      force-at_rest strength k (pass sqrt radius strength (length ns) ns)
      ∙ pass-at_rest strength (length ns) ns
