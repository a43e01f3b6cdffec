-- ===== src/Report/Judgement.antt =====
-- The recommendation against the silo badge, and the gaps that are listed.
use socio_technical_alignmen.Prelude.{
  ◌≤◌, ◌≡◌, refl, sym, Bool, true, false, not, ◌&&◌, arith, inl, inr, ◌⊎◌, if◌then◌else◌, All,
  All-take, All-filter, length, length-take, take, take-take, filter,
}
use socio_technical_alignmen.Number.{Number, IsOrdered, not_lt_trans}
use socio_technical_alignmen.Api.{SimulationResult}
use socio_technical_alignmen.Report.{
  silo_label, Silo, low_risk, moderate, high_risk, Recommendation, strong, positive, caution,
  neutral, recommend, recommendation, top_gaps, panel_gaps, is_covered,
}

module _ {F : Type 0} ⦃n : Number F⦄ (ord : IsOrdered F) where
  -- Which silo badges a recommendation goes with.
  abbrev pub Fits : Recommendation → Silo → Type 0
  Fits strong s = s ≡ low_risk
  Fits positive s = (s ≡ low_risk) ⊎ (s ≡ moderate)
  Fits caution s = s ≡ high_risk
  Fits neutral s = (s ≡ low_risk) ⊎ (s ≡ moderate)

  -- The branches over the five tests; a risk below 0.33 is below 0.66.
  Fits-tests :
      (a b q l33 l66 : Bool)
      → (l66 ≡ false → l33 ≡ false)
      → Fits
          (if a && b && l33
            then strong
            else if q && l66
            then positive
            else if not l66
            then caution
            else neutral)
          (if l33 then low_risk else if l66 then moderate else high_risk)
  Fits-tests a b q true false below = absurd (ground (arith, below refl))
  Fits-tests true true q true true below = refl
  Fits-tests true false true true true below = inl refl
  Fits-tests true false false true true below = inl refl
  Fits-tests false b true true true below = inl refl
  Fits-tests false b false true true below = inl refl
  Fits-tests true true true false true below = inr refl
  Fits-tests true true false false true below = inr refl
  Fits-tests true false true false true below = inr refl
  Fits-tests true false false false true below = inr refl
  Fits-tests false b true false true below = inr refl
  Fits-tests false b false false true below = inr refl
  Fits-tests true true true false false below = refl
  Fits-tests true true false false false below = refl
  Fits-tests true false true false false below = refl
  Fits-tests true false false false false below = refl
  Fits-tests false b true false false below = refl
  Fits-tests false b false false false below = refl

  high : (x : F) → n.lt x (n.lit 66 2) ≡ false → n.lt x (n.lit 33 2) ≡ false
  high x h =
      let up = ord.lit_mono 33 66 2 (omega arith) (omega arith) (omega arith) in
      not_lt_trans ord (n.lit 33 2) (n.lit 66 2) x (ord.lt_asymm (n.lit 33 2) (n.lit 66 2) up) h

  -- If the numbers are ordered, the recommendation fits the silo badge: a strong signal goes with
  -- low risk only, a caution with high risk only, and a positive or neutral one never with high.
  pub recommendation-Fits :
      (r : SimulationResult F) → Fits (recommendation r) (silo_label r.silo_risk_score.mean)
  unfolding recommendation recommend silo_label
  recommendation-Fits r =
      let silo = r.silo_risk_score.mean in
      rw (ord.le_lt (n.lit 66 2) silo) (
        Fits-tests (n.le (n.lit 55 2) r.closeness_centrality.mean)
          (n.le r.time_to_value_weeks.mean (n.lit 6 0))
          (n.le (n.lit 45 2) r.closeness_centrality.mean) (n.lt silo (n.lit 33 2))
          (n.lt silo (n.lit 66 2)) (high silo))

module _ {F : Type 0} ⦃n : Number F⦄ where
  -- The panel lists the first eight of the report's gaps, which are ten at most; the candidate has
  -- each of their skills, and each improves the coverage.
  pub panel_gaps_lem :
      (r : SimulationResult F)
      → (panel_gaps r ≡ take 8 (top_gaps r))
        × (length (top_gaps r) ≤ 10)
        × All (λ g. is_covered g ≡ true) (top_gaps r)
  unfolding panel_gaps top_gaps
  panel_gaps_lem r =
      let kept = filter is_covered r.knowledge_gap_coverage in
      (
        sym (take-take 8 10 kept (omega arith)),
        ground (arith, length-take 10 kept),
        All-take _ 10 kept (All-filter is_covered r.knowledge_gap_coverage),
      )
