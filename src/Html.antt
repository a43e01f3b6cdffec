-- ===== src/Html.antt =====
-- What a component renders: a tree of elements, texts and the events that they fire.
--
-- `A` is the type of a page's events. A style is the text of its declarations in the source's
-- names, cut where one is computed; a number in it stands as its decimal text. `key` attributes,
-- which React keeps to itself, are left out. A component of another package (`Link`) stands as an
-- element of its name. Handlers of drags stand as flags: Drag models what they do.
pub mod Queries
use socio_technical_alignmen.Prelude.{ℕ, suc, String, Bool, List, [], ◌∷◌, ◌++◌, if◌then◌else◌}

pub data Attr (A : Type 0) : Type 0 where
  attr : String → String → Attr A
  disabled : Bool → Attr A
  flag : String → Bool → Attr A
  style : List String → Attr A
  -- A handler of `onClick` or `onSubmit`, and one that takes the text of an input.
  on : String → A → Attr A
  on_text : String → (String → A) → Attr A

mutual
  pub data Html (A : Type 0) : Type 0 where
    nothing : Html A
    text : String → Html A
    el : String → List (Attr A) → Nodes A → Html A
    fragment : Nodes A → Html A

  pub data Nodes (A : Type 0) : Type 0 where
    none_left : Nodes A
    node : Html A → Nodes A → Nodes A

module _ {A : Type 0} where
  abbrev pub children : List (Html A) → Nodes A
  children [] = none_left
  children (h ∷ hs) = node h (children hs)

  abbrev pub tag : String → List (Attr A) → List (Html A) → Html A
  tag name attrs hs = el name attrs (children hs)

  -- `{c && h}`, `{c ? h : k}` and `{xs.map(f)}`.
  abbrev pub when : Bool → Html A → Html A
  when c h = if c then h else nothing

  abbrev pub choose : Bool → Html A → Html A → Html A
  choose c h k = if c then h else k

  abbrev each_node {ℓ} : {B : Type ℓ} → (B → Html A) → List B → Nodes A
  each_node f [] = none_left
  each_node f (x ∷ xs) = node (f x) (each_node f xs)

  abbrev pub each {ℓ} : {B : Type ℓ} → (B → Html A) → List B → Html A
  each f xs = fragment (each_node f xs)

  -- The same, with the place of each item.
  abbrev each_from {ℓ} : {B : Type ℓ} → ℕ → (ℕ → B → Html A) → List B → Nodes A
  each_from k f [] = none_left
  each_from k f (x ∷ xs) = node (f k x) (each_from (suc k) f xs)

  abbrev pub each_at {ℓ} : {B : Type ℓ} → (ℕ → B → Html A) → List B → Html A
  each_at f xs = fragment (each_from 0 f xs)

-- `{ ...base, ...more }`: of two entries for a property the later one counts.
abbrev pub spread : List String → List String → List String
spread first more = first ++ more
