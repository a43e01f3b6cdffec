-- ===== src/Report/Tests.antt =====
-- The judgement of a sample result.
use socio_technical_alignmen.Prelude.{ℕ}
use socio_technical_alignmen.Number.Scaled.{scaled, scaled-IsOrdered}
use socio_technical_alignmen.Samples.{outcome}
use socio_technical_alignmen.Report.{recommendation, silo_label}
use socio_technical_alignmen.Report.Judgement.{Fits, recommendation-Fits}

recommendation-Fits_example :
    Fits scaled-IsOrdered (recommendation outcome) (silo_label {F = ℕ} 700000)
recommendation-Fits_example = recommendation-Fits scaled-IsOrdered outcome
