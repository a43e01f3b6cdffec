-- ===== src/Risk/Levels.antt =====
-- apps/web/app/risk/page.tsx: the scales of the bars, and a risk that stays.
use socio_technical_alignmen.Prelude.{◌≡◌, false, some, All}
use socio_technical_alignmen.Number.{Number, IsOrdered}
use socio_technical_alignmen.GraphUtils.Maxima.{max_of_start, max_of_upper}
use socio_technical_alignmen.Risk.{TeamRisk, max_impact, max_betweenness}

module _ {F : Type 0} ⦃n : Number F⦄ (ord : IsOrdered F) where
  -- If the numbers are ordered, no engineer's removal impact is above the end of the scale of the
  -- impacts, which is at least 0.1, and no engineer's betweenness is above the end of its scale,
  -- which is at least 0.001.
  scales_lem :
      (r : TeamRisk F)
      → All (λ e. n.lt (max_impact (some r)) e.removal_impact_pct ≡ false) r.engineers
        × (n.lt (max_impact (some r)) (n.lit 1 1) ≡ false)
        × All (λ e. n.lt (max_betweenness (some r)) e.betweenness ≡ false) r.engineers
        × (n.lt (max_betweenness (some r)) (n.lit 1 3) ≡ false)
  unfolding max_impact max_betweenness
  scales_lem r = (
    max_of_upper ord _ (n.lit 1 1) r.engineers,
    max_of_start ord _ (n.lit 1 1) r.engineers,
    max_of_upper ord _ (n.lit 1 3) r.engineers,
    max_of_start ord _ (n.lit 1 3) r.engineers,
  )
