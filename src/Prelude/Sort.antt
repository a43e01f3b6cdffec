-- ===== src/Prelude/Sort.antt =====
-- `Array.prototype.sort` by a Boolean order, as a stable insertion sort.
use mathlib.Core.List.{Permᴰ}
use mathlib.Core.List.Permᴰ as PermD
use mathlib.Core.Path.{◌≡◌, refl}
use mathlib.Core.Bool.{Bool, true, false}
use mathlib.Core.Logic.{◌⊎◌, inl, inr}
use mathlib.Core.List.{List, [], ◌∷◌}
use native.Mathlib.Omega.{arith}
use socio_technical_alignmen.Prelude.Lists.{All}
use socio_technical_alignmen.Prelude.Tests.{Bool-cases}

-- Insertion sort: elements that tie keep their order, which fixes the result of any stable sort.
module _ {ℓ} {A : Type ℓ} (le : A → A → Bool) where
  unfoldable pub insert_sorted : A → List A → List A
  insert_sorted x [] = x ∷ []
  insert_sorted x (y ∷ ys) = elim (le x y) [ true ↦ x ∷ y ∷ ys | false ↦ y ∷ insert_sorted x ys ]

  unfoldable pub sort : List A → List A
  unfolding insert_sorted
  sort [] = []
  sort (x ∷ xs) = insert_sorted x (sort xs)

  -- Every element is in order with all behind it.
  abbrev pub IsSorted : List A → Type ℓ
  IsSorted [] = Unit
  IsSorted (x ∷ xs) = All (λ y. le x y ≡ true) xs × IsSorted xs

module _ {ℓ} {A : Type ℓ} (le : A → A → Bool) where
  insert_sorted-perm : (x : A) (xs : List A) → Permᴰ (insert_sorted le x xs) (x ∷ xs)
  unfolding insert_sorted
  insert_sorted-perm x [] = PermD.refl (x ∷ [])
  insert_sorted-perm x (y ∷ ys) = go (le x y) (insert_sorted-perm x ys)
    where
      go :
          (b : Bool)
          → Permᴰ (insert_sorted le x ys) (x ∷ ys)
          → Permᴰ (elim b [ true ↦ x ∷ y ∷ ys | false ↦ y ∷ insert_sorted le x ys ]) (x ∷ y ∷ ys)
      go true p = PermD.refl (x ∷ y ∷ ys)
      go false p = Permᴰ.trans (Permᴰ.cons refl p) (Permᴰ.swap refl refl)

  pub sort-perm : (xs : List A) → Permᴰ (sort le xs) xs
  unfolding sort
  sort-perm [] = PermD.refl []
  sort-perm (x ∷ xs) =
      Permᴰ.trans (insert_sorted-perm x (sort le xs)) (Permᴰ.cons refl (sort-perm xs))

  insert_sorted-before :
      (x y : A) (ys : List A) → le x y ≡ true → insert_sorted le x (y ∷ ys) ≡ x ∷ y ∷ ys
  unfolding insert_sorted
  insert_sorted-before x y ys h = ground (arith, h)

  insert_sorted-after :
      (x y : A) (ys : List A)
      → le x y ≡ false
      → insert_sorted le x (y ∷ ys) ≡ y ∷ insert_sorted le x ys
  unfolding insert_sorted
  insert_sorted-after x y ys h = ground (arith, h)

  module _ (total : (a b : A) → (le a b ≡ true) ⊎ (le b a ≡ true))
      (trans : (a b c : A) → le a b ≡ true → le b c ≡ true → le a c ≡ true) where
    All-le :
        (x y : A) (ys : List A)
        → le x y ≡ true
        → All (λ z. le y z ≡ true) ys
        → All (λ z. le x z ≡ true) ys
    All-le x y [] h k = tt
    All-le x y (z ∷ zs) h (p, k) = (trans x y z h p, All-le x y zs h k)

    insert_sorted-All :
        (y x : A) (xs : List A)
        → le y x ≡ true
        → All (λ z. le y z ≡ true) xs
        → All (λ z. le y z ≡ true) (insert_sorted le x xs)
    insert_sorted-All y x [] h k = unfold insert_sorted in (h, tt)
    insert_sorted-All y x (z ∷ zs) h (p, k) = elim (Bool-cases (le x z)) [
      | inl before ↦ rw (insert_sorted-before x z zs before) (h, (p, k))
      | inr after ↦ rw (insert_sorted-after x z zs after) (p, insert_sorted-All y x zs h k)
    ]

    insert_sorted-IsSorted :
        (x : A) (xs : List A) → IsSorted le xs → IsSorted le (insert_sorted le x xs)
    insert_sorted-IsSorted x [] s = unfold insert_sorted in (tt, tt)
    insert_sorted-IsSorted x (y ∷ ys) (least, s) = elim (Bool-cases (le x y)) [
      | inl before ↦
          rw (insert_sorted-before x y ys before) ((before, All-le x y ys before least), (least, s))
      | inr after ↦
          let lower : le y x ≡ true = ground (arith, after, total x y) in
          rw (insert_sorted-after x y ys after)
            (insert_sorted-All y x ys lower least, insert_sorted-IsSorted x ys s)
    ]

    pub sort-IsSorted : (xs : List A) → IsSorted le (sort le xs)
    unfolding sort
    sort-IsSorted [] = tt
    sort-IsSorted (x ∷ xs) = insert_sorted-IsSorted x (sort le xs) (sort-IsSorted xs)
