-- ===== src/Comparison/Winners.antt =====
-- Which side of a comparison wins.
use socio_technical_alignmen.Prelude.{◌≡◌, refl, false, ◌&&◌, arith, inl, inr, Bool-cases}
use socio_technical_alignmen.Number.{Number, IsOrdered}
use socio_technical_alignmen.Comparison.{MetricRowProps, a_wins, b_wins}

module _ {F : Type 0} ⦃n : Number F⦄ where
  -- The row with its sides changed.
  abbrev pub swapped : MetricRowProps F → MetricRowProps F
  swapped p = record p { value_a = p.value_b; value_b = p.value_a }

  module _ (ord : IsOrdered F) where
    lt_exclusive : (a b : F) → (n.lt a b && n.lt b a) ≡ false
    lt_exclusive a b = elim (Bool-cases (n.lt a b)) [
      | inl h ↦ ground (arith, h, ord.lt_asymm a b h)
      | inr h ↦ ground (arith, h)
    ]

    -- If the numbers are ordered, never do both sides of a row win; changing the sides changes the
    -- winner.
    pub wins_exclusive :
        (p : MetricRowProps F)
        → ((a_wins p && b_wins p) ≡ false)
          × (a_wins (swapped p) ≡ b_wins p)
          × (b_wins (swapped p) ≡ a_wins p)
    unfolding a_wins b_wins
    wins_exclusive p = elim (Bool-cases p.lower_is_better) [
      | inl low ↦ rw low (lt_exclusive p.value_a p.value_b, refl, refl)
      | inr high ↦ rw high (lt_exclusive p.value_b p.value_a, refl, refl)
    ]
