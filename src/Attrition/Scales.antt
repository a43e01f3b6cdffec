-- ===== src/Attrition/Scales.antt =====
-- The scale of the bars, and the levels that colours and labels stand for.
use socio_technical_alignmen.Prelude.{◌≡◌, refl, String, false, some, All, inl, inr, Bool-cases}
use socio_technical_alignmen.Number.{Number, IsOrdered}
use socio_technical_alignmen.GraphUtils.Maxima.{max_of_start, max_of_upper}
use socio_technical_alignmen.Attrition.{
  AttritionResult, max_impact, drop_color, drop_label, resilience_color, resilience_label, Level,
  critical, high, moderate, low, level_color, Resilience, resilient, medium, fragile, broken,
}

abbrev pub label_text : Level → String
label_text critical = "Critical risk"
label_text high = "High risk"
label_text moderate = "Moderate risk"
label_text low = "Low risk"

abbrev pub resilience_level : Resilience → Level
resilience_level resilient = low
resilience_level medium = moderate
resilience_level fragile = high
resilience_level broken = critical

module _ {F : Type 0} ⦃n : Number F⦄ where
  -- If the numbers are ordered, the scale of a result's bars is not below 0.1 and not below any
  -- engineer's impact.
  pub max_impact_bounds :
      (ord : IsOrdered F) (r : AttritionResult F)
      → (n.lt (max_impact (some r)) (n.lit 1 1) ≡ false)
        × All (λ e. n.lt (max_impact (some r)) e.closeness_delta_pct ≡ false) r.engineer_impacts
  unfolding max_impact
  max_impact_bounds ord r = (
    max_of_start ord (λ e. e.closeness_delta_pct) (n.lit 1 1) r.engineer_impacts,
    max_of_upper ord (λ e. e.closeness_delta_pct) (n.lit 1 1) r.engineer_impacts,
  )

  -- The colour and the label of a drop are those of one level; the colour of a resilience score is
  -- the colour of the level that its label stands for.
  levels_agree :
      (pct score : F)
      → ((l : Level) × (drop_color pct ≡ level_color l) × (drop_label pct ≡ label_text l))
        × (resilience_color score ≡ level_color (resilience_level (resilience_label score)))
  unfolding drop_color drop_label resilience_color resilience_label
  levels_agree pct score = (
    elim (Bool-cases (n.le (n.lit 20 0) pct)) [
      | inl a ↦ rw a (critical, refl, refl)
      | inr a ↦ elim (Bool-cases (n.le (n.lit 10 0) pct)) [
        | inl b ↦ rw (a, b) (high, refl, refl)
        | inr b ↦ elim (Bool-cases (n.le (n.lit 5 0) pct)) [
          | inl c ↦ rw (a, b, c) (moderate, refl, refl)
          | inr c ↦ rw (a, b, c) (low, refl, refl)
        ]
      ]
    ],
    elim (Bool-cases (n.le (n.lit 8 1) score)) [
      | inl a ↦ rw a refl
      | inr a ↦ elim (Bool-cases (n.le (n.lit 6 1) score)) [
        | inl b ↦ rw (a, b) refl
        | inr b ↦ elim (Bool-cases (n.le (n.lit 4 1) score)) [
          | inl c ↦ rw (a, b, c) refl
          | inr c ↦ rw (a, b, c) refl
        ]
      ]
    ],
  )
