-- ===== src/Html/Queries.antt =====
-- What can be read off a rendered tree: its texts, and the events that a click can fire.
use mathlib.Core.List.{Memᴰ}
use socio_technical_alignmen.Prelude.{
  String, Bool, true, false, ◌≡◌, refl, List, [], ◌∷◌, ◌++◌, ap, if◌then◌else◌, inl, inr,
}
use socio_technical_alignmen.Prelude.Members.{mem-append_split}
use socio_technical_alignmen.Html.{
  Attr, disabled, on, Html, Nodes, nothing, text, el, fragment, none_left, node, when, each,
}

module _ {A : Type 0} where
  unfoldable mutual
    pub texts : Html A → List String
    texts nothing = []
    texts (text s) = s ∷ []
    texts (el name attrs ns) = texts_of ns
    texts (fragment ns) = texts_of ns

    pub texts_of : Nodes A → List String
    texts_of none_left = []
    texts_of (node h ns) = texts h ++ texts_of ns

  -- The element is disabled.
  abbrev pub is_disabled : List (Attr A) → Bool
  is_disabled [] = false
  is_disabled (disabled b ∷ more) = if b then true else is_disabled more
  is_disabled (a ∷ more) = is_disabled more

  -- What a click on the element fires.
  abbrev pub handlers : List (Attr A) → List A
  handlers [] = []
  handlers (on name a ∷ more) = a ∷ handlers more
  handlers (a ∷ more) = handlers more

  abbrev pub own_clicks : List (Attr A) → List A
  own_clicks attrs = if is_disabled attrs then [] else handlers attrs

  unfoldable mutual
    pub clicks : Html A → List A
    clicks nothing = []
    clicks (text s) = []
    clicks (el name attrs ns) = own_clicks attrs ++ clicks_of ns
    clicks (fragment ns) = clicks_of ns

    pub clicks_of : Nodes A → List A
    clicks_of none_left = []
    clicks_of (node h ns) = clicks h ++ clicks_of ns

  -- A conditional part offers what it offers when it is there.
  pub clicks-when : (c : Bool) (h : Html A) → clicks (when c h) ≡ (if c then clicks h else [])
  unfolding clicks
  clicks-when true h = refl
  clicks-when false h = refl

  pub texts-when : (c : Bool) (h : Html A) → texts (when c h) ≡ (if c then texts h else [])
  unfolding texts
  texts-when true h = refl
  texts-when false h = refl

  -- A repeated part offers what it offers for one of the items.
  pub clicks-each :
      {B : Type 0} (f : B → Html A) (xs : List B) (a : A)
      → Memᴰ a (clicks (each f xs))
      → (x : B) × Memᴰ x xs × Memᴰ a (clicks (f x))
  unfolding clicks
  clicks-each f [] a m = elim m [ ]
  clicks-each f (x ∷ xs) a m = elim (mem-append_split (clicks (f x)) (clicks (each f xs)) m) [
    | inl here ↦ (x, Memᴰ.head refl, here)
    | inr later ↦ let (y, listed, fires) = clicks-each f xs a later in (y, Memᴰ.tail listed, fires)
  ]

  -- A repeated part offers nothing if it offers nothing for any item.
  pub clicks-each_none :
      {B : Type 0} (f : B → Html A) (xs : List B)
      → ((x : B) → clicks (f x) ≡ [])
      → clicks (each f xs) ≡ []
  unfolding clicks
  clicks-each_none f [] quiet = refl
  clicks-each_none f (x ∷ xs) quiet = rw (quiet x) (clicks-each_none f xs quiet)

  -- A part repeated for each event, whose one click fires that event, offers them in their order.
  pub clicks-each_self :
      (f : A → Html A) (xs : List A) → ((x : A) → clicks (f x) ≡ x ∷ []) → clicks (each f xs) ≡ xs
  unfolding clicks
  clicks-each_self f [] one = refl
  clicks-each_self f (x ∷ xs) one =
      rw (one x) (ap (λ (more : List A). x ∷ more) (clicks-each_self f xs one))
