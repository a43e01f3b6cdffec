-- ===== src/TeamGraph/Collide.antt =====
-- apps/web/components/graph/TeamGraph.tsx, `makeCollideForce`: the collision force.
--
-- The force works on the nodes in place; here it gives the changed nodes. A candidate stands as the
-- node that it has. `sqrt` is `Math.sqrt`, `radius` the function given by the component, which reads
-- only the betweenness: it gives the same whenever it is read.
use socio_technical_alignmen.Prelude.{
  ℕ, zero, suc, Bool, ◌&&◌, Option, none, some, List, [], ◌∷◌, length, if◌then◌else◌,
}
use socio_technical_alignmen.Number.{Number}
use socio_technical_alignmen.Api.{ForceGraphNode}

module _ {F : Type 0} ⦃n : Number F⦄ where
  -- `v ?? 0`.
  abbrev or_zero : Option F → F
  or_zero none = n.lit 0 0
  or_zero (some v) = v

  -- `d || 1e-6`.
  abbrev or_tiny : F → F
  or_tiny d = if n.le d (n.lit 0 0) && n.le (n.lit 0 0) d then n.lit 1 6 else d

module _ {F : Type 0} ⦃n : Number F⦄ (sqrt : F → F) (radius : ForceGraphNode F → F) where
  unfoldable pub distance : ForceGraphNode F → ForceGraphNode F → F
  distance a b =
      let dx = n.sub (or_zero b.x) (or_zero a.x) in
      let dy = n.sub (or_zero b.y) (or_zero a.y) in
      or_tiny (sqrt (n.add (n.mul dx dx) (n.mul dy dy)))

  -- `dist < minDist`.
  unfoldable pub overlaps : ForceGraphNode F → ForceGraphNode F → Bool
  overlaps a b = n.lt (distance a b) (n.add (radius a) (radius b))

  -- `((minDist - dist) / dist) * strength * 0.5`.
  unfoldable pub push : F → ForceGraphNode F → ForceGraphNode F → F
  push strength a b =
      let dist = distance a b in
      let least = n.add (radius a) (radius b) in
      n.mul (n.mul (n.div (n.sub least dist) dist) strength) (n.lit 5 1)

  -- The body of the inner loop: both nodes of the pair.
  unfoldable pub separate :
      F → ForceGraphNode F → ForceGraphNode F → ForceGraphNode F × ForceGraphNode F
  separate strength a b =
      let amount = push strength a b in
      let ox = n.mul (n.sub (or_zero b.x) (or_zero a.x)) amount in
      let oy = n.mul (n.sub (or_zero b.y) (or_zero a.y)) amount in
      if overlaps a b
      then (
        record a { vx = some (n.sub (or_zero a.vx) ox); vy = some (n.sub (or_zero a.vy) oy) },
        record b { vx = some (n.add (or_zero b.vx) ox); vy = some (n.add (or_zero b.vy) oy) },
      )
      else (a, b)

  -- The loop over `j`: a node against the ones after it.
  unfoldable pub separate_from :
      F → ForceGraphNode F → List (ForceGraphNode F) → ForceGraphNode F × List (ForceGraphNode F)
  separate_from strength a [] = (a, [])
  separate_from strength a (b ∷ bs) =
      let (first, second) = separate strength a b in
      let (last, others) = separate_from strength first bs in (last, second ∷ others)

  -- The loop over `i`, on as many nodes as `k`: all of them, since it runs with the length.
  unfoldable pub pass : F → ℕ → List (ForceGraphNode F) → List (ForceGraphNode F)
  pass strength zero ns = ns
  pass strength (suc k) [] = []
  pass strength (suc k) (a ∷ bs) =
      let (done, others) = separate_from strength a bs in done ∷ pass strength k others

  -- The loop over `k`.
  unfoldable pub force : F → ℕ → List (ForceGraphNode F) → List (ForceGraphNode F)
  force strength zero ns = ns
  force strength (suc k) ns = force strength k (pass strength (length ns) ns)
