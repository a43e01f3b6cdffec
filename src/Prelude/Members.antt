-- ===== src/Prelude/Members.antt =====
-- Membership and distinctness, through permutations.
use mathlib.Core.List.{Memᴰ, Permᴰ}
use mathlib.Core.Path.{◌≡◌, refl, sym, ap, ◌∙◌, subst}
use mathlib.Core.Bool.{Bool, true, false}
use mathlib.Core.Logic.{◌≢◌, ◌⊎◌, inl, inr}
use mathlib.Core.List.{List, [], ◌∷◌, ◌++◌, map}
use Prim.Native.String.{String}
use native.Mathlib.Omega.{arith}
use text.Mathlib.Text.{◌==◌}
use text.Mathlib.TextEquality.{eq_iff}
use socio_technical_alignmen.Prelude.Lists.{All, filter}
use socio_technical_alignmen.Prelude.Tests.{Bool-cases}
use socio_technical_alignmen.Prelude.Dict.{includes}

-- No element stands twice.
abbrev pub Distinct {ℓ} : {A : Type ℓ} → List A → Type ℓ
Distinct [] = Unit
Distinct (x ∷ xs) = All (λ y. x ≢ y) xs × Distinct xs

module _ {ℓ} {A : Type ℓ} where
  pub All-perm {κ} : (P : A → Type κ) {xs ys : List A} → Permᴰ xs ys → All P xs → All P ys
  All-perm P Permᴰ.nil h = h
  All-perm P (Permᴰ.cons e p) h = (subst P e h.0, All-perm P p h.1)
  All-perm P (Permᴰ.swap e d) h = (subst P d h.1.0, (subst P e h.0, h.1.1))
  All-perm P (Permᴰ.trans p q) h = All-perm P q (All-perm P p h)

  pub Distinct-perm : {xs ys : List A} → Permᴰ xs ys → Distinct xs → Distinct ys
  Distinct-perm Permᴰ.nil h = h
  Distinct-perm (Permᴰ.cons {l₁ = l} e p) h =
      (All-perm _ p (subst (λ v. All (λ y. v ≢ y) l) e h.0), Distinct-perm p h.1)
  Distinct-perm (Permᴰ.swap {l = l} e d) h = (
    (λ q. h.0.0 (e ∙ sym q ∙ sym d), subst (λ v. All (λ y. v ≢ y) l) d h.1.0),
    (subst (λ v. All (λ y. v ≢ y) l) e h.0.1, h.1.1),
  )
  Distinct-perm (Permᴰ.trans p q) h = Distinct-perm q (Distinct-perm p h)

  pub mem-perm : {x : A} {xs ys : List A} → Permᴰ xs ys → Memᴰ x xs → Memᴰ x ys
  mem-perm Permᴰ.nil m = m
  mem-perm (Permᴰ.cons e p) (Memᴰ.head q) = Memᴰ.head (q ∙ e)
  mem-perm (Permᴰ.cons e p) (Memᴰ.tail m) = Memᴰ.tail (mem-perm p m)
  mem-perm (Permᴰ.swap e d) (Memᴰ.head q) = Memᴰ.tail (Memᴰ.head (q ∙ e))
  mem-perm (Permᴰ.swap e d) (Memᴰ.tail (Memᴰ.head q)) = Memᴰ.head (q ∙ d)
  mem-perm (Permᴰ.swap e d) (Memᴰ.tail (Memᴰ.tail m)) = Memᴰ.tail (Memᴰ.tail m)
  mem-perm (Permᴰ.trans p q) m = mem-perm q (mem-perm p m)

  pub perm_sym : {xs ys : List A} → Permᴰ xs ys → Permᴰ ys xs
  perm_sym Permᴰ.nil = Permᴰ.nil
  perm_sym (Permᴰ.cons e p) = Permᴰ.cons (sym e) (perm_sym p)
  perm_sym (Permᴰ.swap e d) = Permᴰ.swap (sym d) (sym e)
  perm_sym (Permᴰ.trans p q) = Permᴰ.trans (perm_sym q) (perm_sym p)

  pub mem-uncons : {x y : A} {ys : List A} → Memᴰ x (y ∷ ys) → (x ≡ y) ⊎ Memᴰ x ys
  mem-uncons (Memᴰ.head e) = inl e
  mem-uncons (Memᴰ.tail m) = inr m

  pub mem-map_sound {κ} :
      {B : Type κ} (f : A → B) (xs : List A) (y : B)
      → Memᴰ y (map f xs)
      → (x : A) × Memᴰ x xs × (f x ≡ y)
  mem-map_sound f [] y m = elim m [ ]
  mem-map_sound f (x ∷ xs) y (Memᴰ.head e) = (x, Memᴰ.head refl, sym e)
  mem-map_sound f (x ∷ xs) y (Memᴰ.tail m) =
      let (z, listed, e) = mem-map_sound f xs y m in (z, Memᴰ.tail listed, e)

  pub mem-map_complete {κ} :
      {B : Type κ} (f : A → B) (xs : List A) (x : A) → Memᴰ x xs → Memᴰ (f x) (map f xs)
  mem-map_complete f [] x m = elim m [ ]
  mem-map_complete f (y ∷ xs) x (Memᴰ.head e) = Memᴰ.head (ap f e)
  mem-map_complete f (y ∷ xs) x (Memᴰ.tail m) = Memᴰ.tail (mem-map_complete f xs x m)

pub mem-append_left {ℓ} : {A : Type ℓ} {x : A} (xs ys : List A) → Memᴰ x xs → Memᴰ x (xs ++ ys)
mem-append_left [] ys m = elim m [ ]
mem-append_left (z ∷ xs) ys (Memᴰ.head e) = Memᴰ.head e
mem-append_left (z ∷ xs) ys (Memᴰ.tail m) = Memᴰ.tail (mem-append_left xs ys m)

pub mem-append_right {ℓ} : {A : Type ℓ} {x : A} (xs ys : List A) → Memᴰ x ys → Memᴰ x (xs ++ ys)
mem-append_right [] ys m = m
mem-append_right (z ∷ xs) ys m = Memᴰ.tail (mem-append_right xs ys m)

pub mem-append_split {ℓ} :
    {A : Type ℓ} {x : A} (xs ys : List A) → Memᴰ x (xs ++ ys) → Memᴰ x xs ⊎ Memᴰ x ys
mem-append_split [] ys m = inr m
mem-append_split (z ∷ xs) ys (Memᴰ.head e) = inl (Memᴰ.head e)
mem-append_split (z ∷ xs) ys (Memᴰ.tail m) = elim (mem-append_split xs ys m) [
  | inl l ↦ inl (Memᴰ.tail l)
  | inr r ↦ inr r
]

pub includes_sound : (x : String) (ys : List String) → includes x ys ≡ true → Memᴰ x ys
unfolding includes
includes_sound x [] h = cc
includes_sound x (y ∷ ys) h = elim (Bool-cases (y == x)) [
  | inl same ↦ Memᴰ.head (sym ((eq_iff y x).0 same))
  | inr differs ↦ Memᴰ.tail (includes_sound x ys (ground (arith, differs)))
]

pub includes_complete : (x : String) (ys : List String) → Memᴰ x ys → includes x ys ≡ true
unfolding includes
includes_complete x [] m = elim m [ ]
includes_complete x (y ∷ ys) (Memᴰ.head e) = rw ((eq_iff y x).1 (sym e)) refl
includes_complete x (y ∷ ys) (Memᴰ.tail m) = ground (arith, includes_complete x ys m)

-- Membership in a filtered list.
module _ {ℓ} {A : Type ℓ} (test : A → Bool) where
  filter-kept : (y : A) (xs : List A) → test y ≡ true → filter test (y ∷ xs) ≡ y ∷ filter test xs
  filter-kept y xs h = ground (arith, h)

  filter-dropped : (y : A) (xs : List A) → test y ≡ false → filter test (y ∷ xs) ≡ filter test xs
  filter-dropped y xs h = ground (arith, h)

  pub mem-filter_sound :
      (xs : List A) (x : A) → Memᴰ x (filter test xs) → Memᴰ x xs × (test x ≡ true)
  mem-filter_sound [] x m = elim m [ ]
  mem-filter_sound (y ∷ xs) x m = elim (Bool-cases (test y)) [
    | inl kept ↦ elim (mem-uncons (subst (λ (l : List A). Memᴰ x l) (filter-kept y xs kept) m)) [
      | inl same ↦ (Memᴰ.head same, ap test same ∙ kept)
      | inr later ↦ let (listed, passes) = mem-filter_sound xs x later in (Memᴰ.tail listed, passes)
    ]
    | inr dropped ↦
        let later = subst (λ (l : List A). Memᴰ x l) (filter-dropped y xs dropped) m in
        let (listed, passes) = mem-filter_sound xs x later in (Memᴰ.tail listed, passes)
  ]

  pub mem-filter_complete :
      (xs : List A) (x : A) → Memᴰ x xs → test x ≡ true → Memᴰ x (filter test xs)
  mem-filter_complete [] x m h = elim m [ ]
  mem-filter_complete (y ∷ xs) x (Memᴰ.head e) h =
      let kept : test y ≡ true = sym (ap test e) ∙ h in
      subst (λ (l : List A). Memᴰ x l) (sym (filter-kept y xs kept)) (Memᴰ.head e)
  mem-filter_complete (y ∷ xs) x (Memᴰ.tail m) h = elim (Bool-cases (test y)) [
    | inl kept ↦
        subst (λ (l : List A). Memᴰ x l) (sym (filter-kept y xs kept))
          (Memᴰ.tail (mem-filter_complete xs x m h))
    | inr dropped ↦
        subst (λ (l : List A). Memᴰ x l) (sym (filter-dropped y xs dropped))
          (mem-filter_complete xs x m h)
  ]
