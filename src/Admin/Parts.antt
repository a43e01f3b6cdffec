-- ===== src/Admin/Parts.antt =====
-- apps/web/app/admin/page.tsx: its buttons and cards.
use socio_technical_alignmen.Api.Client.{◌<>◌}
use socio_technical_alignmen.Html.{
  Html, children, choose, disabled, fragment, on, style, tag, text, when,
}
use socio_technical_alignmen.Number.{Number}
use socio_technical_alignmen.Prelude.{
  Bool, List, String, [], false, if◌then◌else◌, not, str_eq, ◌&&◌, ◌∷◌,
}

-- A text or a number to show.
pub data Shown (F : Type 0) : Type 0 where
  words : String → Shown F
  count : F → Shown F

-- `PrimaryBtn`.
unfoldable pub primary_btn : {A : Type 0} → Bool → A → List (Html A) → Html A
primary_btn off act content =
    tag "button"
      (on "onClick" act
        ∷ disabled off
        ∷ style (
            "fontFamily: var(--fb); fontSize: 9; fontWeight: 700; letterSpacing: 2px; textTransform: uppercase"
            ∷ ("color: " <> (if off then "rgba(255,255,255,0.5)" else "#ffffff"))
            ∷ ("backgroundColor: " <> (if off then "rgba(0,51,102,0.3)" else "var(--primary)"))
            ∷ "border: none; borderRadius: 6; padding: 9px 18px"
            ∷ ("cursor: " <> (if off then "not-allowed" else "pointer"))
            ∷ "transition: opacity 0.15s"
            ∷ [])
        ∷ [])
      ((fragment (children content)) ∷ [])

-- `DangerBtn`.
unfoldable pub danger_btn : {A : Type 0} → Bool → A → List (Html A) → Html A
danger_btn off act content =
    tag "button"
      (on "onClick" act
        ∷ disabled off
        ∷ style (
            "fontFamily: var(--fb); fontSize: 9; fontWeight: 700; letterSpacing: 2px; textTransform: uppercase"
            ∷ ("color: " <> (if off then "var(--mid)" else "#c0192c"))
            ∷ "backgroundColor: transparent"
            ∷ ("border: " <> ("1px solid " <> (if off then "var(--primary-30)" else "#e03448")))
            ∷ "borderRadius: 6; padding: 9px 18px"
            ∷ ("cursor: " <> (if off then "not-allowed" else "pointer"))
            ∷ "transition: opacity 0.15s"
            ∷ [])
        ∷ [])
      ((fragment (children content)) ∷ [])

-- `GhostBtn`.
unfoldable pub ghost_btn : {A : Type 0} → Bool → A → List (Html A) → Html A
ghost_btn off act content =
    tag "button"
      (on "onClick" act
        ∷ disabled off
        ∷ style (
            "fontFamily: var(--fb); fontSize: 9; fontWeight: 700; letterSpacing: 2px; textTransform: uppercase"
            ∷ ("color: " <> (if off then "var(--mid)" else "var(--primary)"))
            ∷ "backgroundColor: transparent; border: 1px solid var(--primary-30); borderRadius: 6; padding: 9px 18px"
            ∷ ("cursor: " <> (if off then "not-allowed" else "pointer"))
            ∷ "transition: opacity 0.15s"
            ∷ [])
        ∷ [])
      ((fragment (children content)) ∷ [])

-- `OpCard`.
unfoldable pub op_card : {A : Type 0} → String → String → Html A → Html A
op_card title description actions =
    tag "div"
      (style (
          "backgroundColor: #ffffff; borderRadius: 12; overflow: hidden; boxShadow: 0 1px 4px rgba(0,51,102,0.08)"
          ∷ [])
        ∷ [])
      ((tag "div" (style ("height: 3; backgroundColor: var(--gold)" ∷ []) ∷ []) [])
        ∷ (tag "div" (style ("padding: 24px 28px" ∷ []) ∷ []) (
            (tag "div"
              (style (
                  "fontFamily: var(--fd); fontSize: 18; fontWeight: 400; color: var(--dark); marginBottom: 8"
                  ∷ [])
                ∷ [])
              ((text title) ∷ []))
            ∷ (tag "p"
                (style (
                    "fontFamily: var(--fb); fontSize: 12; color: var(--mid); lineHeight: 1.7; marginBottom: 20"
                    ∷ [])
                  ∷ [])
                ((text description) ∷ []))
            ∷ (tag "div" (style ("display: flex; gap: 8; flexWrap: wrap" ∷ []) ∷ []) (actions ∷ []))
            ∷ []))
        ∷ [])

module _ {F : Type 0} ⦃n : Number F⦄ where
  abbrev pub shown_text : Shown F → String
  shown_text (words t) = t
  shown_text (count v) = n.to_text v

  abbrev is_negative : Shown F → Bool
  is_negative (words t) = false
  is_negative (count v) = n.lt v (n.lit 0 0)

  -- `value === -1`.
  abbrev pub is_minus_one : Shown F → Bool
  is_minus_one (words t) = false
  is_minus_one (count v) =
      let one_less = n.sub (n.lit 0 0) (n.lit 1 0) in n.le v one_less && n.le one_less v

  -- `StatCard`; without a `sub`, it is empty.
  unfoldable pub stat_card : {A : Type 0} → Shown F → String → String → Html A
  stat_card shown label sub =
      tag "div"
        (style (
            "backgroundColor: #ffffff; borderRadius: 12; padding: 20px 24px; boxShadow: 0 1px 4px rgba(0,51,102,0.08); borderTop: 3px solid var(--gold); minWidth: 120"
            ∷ [])
          ∷ [])
        ((tag "div"
            (style (
                "fontFamily: var(--fd); fontSize: 34; fontWeight: 300"
                ∷ ("color: " <> (if (is_negative shown) then "var(--mid)" else "var(--dark)"))
                ∷ "lineHeight: 1; marginBottom: 6"
                ∷ [])
              ∷ [])
            ((choose ((is_negative shown)) (text ("—")) (text ((shown_text shown)))) ∷ []))
          ∷ (tag "div"
              (style (
                  "fontFamily: var(--fb); fontSize: 9; fontWeight: 700; letterSpacing: 2px; textTransform: uppercase; color: var(--mid)"
                  ∷ [])
                ∷ [])
              ((text label) ∷ []))
          ∷ (when ((not (str_eq sub ""))) (
              tag "div"
                (style ("fontFamily: var(--fb); fontSize: 10; color: var(--mid); marginTop: 2" ∷ [])
                  ∷ [])
                ((text sub) ∷ [])))
          ∷ [])
