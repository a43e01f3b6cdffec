-- ===== src/Number.antt =====
-- JavaScript's numbers, as the program uses them: an interface, and the laws of their order.
--
-- `F` stands for the doubles other than NaN (the values that the API sends). The program reads
-- them only through comparison, arithmetic, `Math.min`, `Math.max`, `Math.round` and `toFixed`.
-- `Number.Scaled` is an instance to run definitions on.
pub mod Scaled
use socio_technical_alignmen.Prelude.{
  ℕ, ◌<◌, ◌^◌, ◌≤◌, String, ◌≡◌, refl, sym, ◌∙◌, ap, ◌⊎◌, inl, inr, Bool, true, false, not, arith,
  Bool-cases,
}

-- The operations. `lit n k` is the literal with the digits `n`, the last `k` behind the point.
pub record Number (F : Type 0) : Type 0 where
  pub lit : ℕ → ℕ → F
  pub lt : F → F → Bool
  pub le : F → F → Bool
  pub add : F → F → F
  pub sub : F → F → F
  pub mul : F → F → F
  pub div : F → F → F
  pub min : F → F → F
  pub max : F → F → F
  pub round : F → F
  pub to_fixed : ℕ → F → String
  pub to_locale : F → String
  -- The text of a number in a template or as a child.
  pub to_text : F → String

-- What the order is relied on for: it is total up to ties, `<=` is the negation of the converse
-- `<`, the extrema are one of their arguments, and short literals keep the order of their digits.
pub record IsOrdered (F : Type 0) ⦃n : Number F⦄ : Type 0 where
  pub le_lt : (a b : F) → n.le a b ≡ not (n.lt b a)
  pub lt_asymm : (a b : F) → n.lt a b ≡ true → n.lt b a ≡ false
  pub lt_split : (a b c : F) → n.lt a c ≡ true → (n.lt a b ≡ true) ⊎ (n.lt b c ≡ true)
  pub max_left : (a b : F) → n.lt (n.max a b) a ≡ false
  pub max_right : (a b : F) → n.lt (n.max a b) b ≡ false
  pub max_cases : (a b : F) → (n.max a b ≡ a) ⊎ (n.max a b ≡ b)
  pub lit_mono : (a b k : ℕ) → a < b → b < 1000000 → k ≤ 4 → n.lt (n.lit a k) (n.lit b k) ≡ true

module _ {F : Type 0} ⦃n : Number F⦄ (ord : IsOrdered F) where
  -- "Not below" is transitive.
  pub not_lt_trans : (a b c : F) → n.lt b a ≡ false → n.lt c b ≡ false → n.lt c a ≡ false
  not_lt_trans a b c p q = elim (Bool-cases (n.lt c a)) [
    | inl less ↦ elim (ord.lt_split c b a less) [
      | inl cb ↦ ground (arith, cb, q)
      | inr ba ↦ ground (arith, ba, p)
    ]
    | inr done ↦ done
  ]

  -- A number below `b` is below every number that is not below `b`.
  pub lt_of_lt_of_not_lt : (a b c : F) → n.lt a b ≡ true → n.lt c b ≡ false → n.lt a c ≡ true
  lt_of_lt_of_not_lt a b c p q = elim (ord.lt_split a c b p) [
    | inl ac ↦ ac
    | inr cb ↦ ground (arith, cb, q)
  ]

  pub lt_irrefl : (a : F) → n.lt a a ≡ false
  lt_irrefl a = elim (Bool-cases (n.lt a a)) [ inl h ↦ ord.lt_asymm a a h | inr h ↦ h ]
