-- ===== src/Prelude/Text.antt =====
-- JavaScript strings that the program walks: lists of UTF-16 code units.
use Prim.Native.Nat.{ℕ, ◌+◌, ◌-◌, ◌/◌, ◌%◌}
use Prim.Native.Char.{code}
use Prim.Native.String.{String, ◌++◌ as str_append}
use mathlib.Core.Bool.{Bool, true, false, ◌&&◌, ◌||◌}
use mathlib.Core.List.{List, [], ◌∷◌, ◌++◌, reverse}
use socio_technical_alignmen.Prelude.Lists.{is_empty}
use socio_technical_alignmen.Prelude.Tests.{if◌then◌else◌, ltb, leb, ◌==◌}

abbrev pub Text : Type 0
Text = List ℕ

-- A code point above 0xffff is two units.
abbrev units : ℕ → List ℕ
units c =
    if ltb c 0x10000
    then c ∷ []
    else (0xd800 + (c - 0x10000) / 0x400) ∷ (0xdc00 + (c - 0x10000) % 0x400) ∷ []

abbrev pub utf16 : String → Text
utf16 String.[] = []
utf16 (String.◌∷◌ c s) = units (code c) ++ utf16 s

-- The white space and line ends that `trim` removes.
abbrev pub is_space : ℕ → Bool
is_space c =
    leb 9 c && leb c 13
    || c == 32
    || c == 0xa0
    || c == 0x1680
    || leb 0x2000 c && leb c 0x200a
    || c == 0x2028
    || c == 0x2029
    || c == 0x202f
    || c == 0x205f
    || c == 0x3000
    || c == 0xfeff

unfoldable pub trim_start : Text → Text
trim_start [] = []
trim_start (c ∷ s) = if is_space c then trim_start s else c ∷ s

-- `s.trim()`.
unfoldable pub trim : Text → Text
unfolding trim_start
trim s = reverse (trim_start (reverse (trim_start s)))

-- `s.startsWith(p)`.
unfoldable pub starts_with : Text → Text → Bool
starts_with [] s = true
starts_with (c ∷ p) [] = false
starts_with (c ∷ p) (d ∷ s) = c == d && starts_with p s

-- `s.split(sep)` at a separator of one unit: at least one piece, given as the first and the rest.
unfoldable pub split : ℕ → Text → Text × List Text
split sep [] = ([], [])
split sep (c ∷ s) =
    let (first, rest) = split sep s in if c == sep then ([], first ∷ rest) else (c ∷ first, rest)

-- `s.slice(0, k)`; half a surrogate pair, which is no text, is dropped.
unfoldable pub prefix : ℕ → String → String
prefix k String.[] = String.[]
prefix k (String.◌∷◌ c s) =
    let width = if ltb (code c) 0x10000 then 1 else 2 in
    let rest = prefix (k - width) s in if leb width k then String.◌∷◌ c rest else String.[]

-- `xs.join(sep)`.
unfoldable pub join : String → List String → String
join sep [] = ""
join sep (x ∷ []) = x
join sep (x ∷ y ∷ more) = str_append x (str_append sep (join sep (y ∷ more)))

-- `!s.trim()`.
abbrev pub is_blank : String → Bool
is_blank s = is_empty (trim (utf16 s))
