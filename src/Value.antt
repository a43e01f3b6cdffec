-- ===== src/Value.antt =====
-- Dynamic values: what `JSON.parse` returns and a TypeScript `as` lets through unchecked.
use socio_technical_alignmen.Prelude.{
  String, Bool, true, false, not, ◌||◌, Option, none, some, str_eq, if◌then◌else◌,
}
use socio_technical_alignmen.Number.{Number}

mutual
  pub data Value (F : Type 0) : Type 0 where
    undefined null : Value F
    bool : Bool → Value F
    num : F → Value F
    str : String → Value F
    arr : Items F → Value F
    obj : Fields F → Value F

  pub data Items (F : Type 0) : Type 0 where
    nil : Items F
    cons : Value F → Items F → Items F

  pub data Fields (F : Type 0) : Type 0 where
    end : Fields F
    field : String → Value F → Fields F → Fields F

module _ {F : Type 0} where
  -- `o.k`: a missing field is `undefined`.
  abbrev pub get_field : String → Fields F → Value F
  get_field k end = undefined
  get_field k (field j v fs) = if str_eq j k then v else get_field k fs

  -- `v ?? d`.
  abbrev pub or_default : Value F → Value F → Value F
  or_default undefined d = d
  or_default null d = d
  or_default v d = v

  -- `v === "text"`.
  abbrev pub is_text : String → Value F → Bool
  is_text t (str s) = str_eq s t
  is_text t v = false

  -- `!!v`.
  abbrev pub truthy : ⦃n : Number F⦄ → Value F → Bool
  truthy undefined = false
  truthy null = false
  truthy (bool b) = b
  truthy ⦃n⦄ (num x) = n.lt x (n.lit 0 0) || n.lt (n.lit 0 0) x
  truthy (str s) = not (str_eq s "")
  truthy (arr xs) = true
  truthy (obj fs) = true

-- `!!s`, for a `string | null`.
abbrev pub is_set : Option String → Bool
is_set none = false
is_set (some s) = not (str_eq s "")
