-- ===== src/RingChart.antt =====
-- apps/web/components/simulator/CentralityRingChart.tsx: the shapes of the ring chart.
--
-- `Math.PI`, `Math.cos` and `Math.sin` are parameters. Line caps and fonts are left out.
use socio_technical_alignmen.Prelude.{
  String, Bool, Option, none, some, List, [], ◌∷◌, ◌++◌, if◌then◌else◌,
}
use socio_technical_alignmen.Number.{Number}
use socio_technical_alignmen.Api.Client.{◌<>◌}
use socio_technical_alignmen.Store.Simulation.{Slot, slot_a, slot_b}

pub record Distribution (F : Type 0) : Type 0 where
  pub mean : F
  pub ci_95 : F × F

pub record Trigonometry (F : Type 0) : Type 0 where
  pub pi : F
  pub cos : F → F
  pub sin : F → F

-- An arc's path: where it starts, its radius, the large-arc flag and where it ends.
pub record Arc (F : Type 0) : Type 0 where
  pub start : F × F
  pub radius : F
  pub large : Bool
  pub end : F × F

-- The shapes: a circle with a fill or with a stroke and its width, an arc (an empty path draws
-- nothing), a text with its size and colour.
pub data Shape (F : Type 0) : Type 0 where
  ring : F × F → F → String → F → Shape F
  disc : F × F → F → String → Shape F
  path : Option (Arc F) → String → F → Shape F
  label : F × F → F → String → String → Shape F

pub record Chart (F : Type 0) : Type 0 where
  pub size : F
  pub aria_label : String
  pub shapes : List (Shape F)

abbrev pub main_color : Slot → String
main_color slot_a = "#C8982A"
main_color slot_b = "#336699"

abbrev pub ci_color : Slot → String
ci_color slot_a = "rgba(200,152,42,0.30)"
ci_color slot_b = "rgba(51,102,153,0.30)"

module _ {F : Type 0} ⦃n : Number F⦄ (t : Trigonometry F) where
  -- From the top, clockwise.
  abbrev pub angle : F → F
  angle v = n.sub (n.mul (n.mul v (n.lit 2 0)) t.pi) (n.div t.pi (n.lit 2 0))

  abbrev pub polar_xy : F → F → F → F × F
  polar_xy c a radius = (n.add c (n.mul radius (t.cos a)), n.add c (n.mul radius (t.sin a)))

  -- `Math.abs(to - from) < 0.0001` gives the empty path.
  unfoldable pub arc_path : F → F → F → F → Option (Arc F)
  arc_path c from to radius =
      let d = n.sub to from in
      if n.lt (n.max d (n.sub (n.lit 0 0) d)) (n.lit 1 4)
      then none
      else some (record {
        start = polar_xy c (angle from) radius;
        radius = radius;
        large = n.lt (n.lit 5 1) d;
        end = polar_xy c (angle (n.min to (n.lit 9999 4))) radius;
      })

  abbrev pub clamp : F → F
  clamp v = n.min (n.max v (n.lit 0 0)) (n.lit 1 0)

  unfoldable pub ring_chart : Distribution F → F → Slot → Chart F
  ring_chart d size slot =
      let c = n.div size (n.lit 2 0) in
      let r = n.mul size (n.lit 37 2) in
      let track = n.mul size (n.lit 10 2) in
      let low = clamp d.ci_95.0 in
      let high = clamp d.ci_95.1 in
      let mean = clamp d.mean in
      record {
        size = size;
        aria_label =
            "Closeness centrality "
            <> n.to_fixed 3 d.mean
            <> ", 95% CI ["
            <> n.to_fixed 3 d.ci_95.0
            <> ", "
            <> n.to_fixed 3 d.ci_95.1
            <> "]";
        shapes =
            ring (c, c) r "var(--primary-10)" track
            ∷ ((if n.lt low high
                  then path (arc_path c low high r) (ci_color slot) track ∷ []
                  else [])
                ++ ((if n.lt (n.lit 0 0) mean
                      then path (arc_path c (n.lit 0 0) mean r) (main_color slot)
                          (n.mul size (n.lit 65 3))
                        ∷ []
                      else [])
                    ++ (disc (polar_xy c (angle d.mean) r) (n.mul track (n.lit 42 2))
                          (main_color slot)
                        ∷ label (c, n.sub c (n.mul size (n.lit 6 2))) (n.mul size (n.lit 175 3))
                            "var(--dark)" (n.to_fixed 3 d.mean)
                        ∷ label (c, n.add c (n.mul size (n.lit 13 2))) (n.mul size (n.lit 75 3))
                            "var(--mid)" "closeness"
                        ∷ [])));
      }
