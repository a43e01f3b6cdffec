-- ===== src/GraphParts/Selector.antt =====
-- apps/web/components/graph/GraphSnapshotSelector.tsx: what it shows.
use socio_technical_alignmen.Api.Client.{◌<>◌}
use socio_technical_alignmen.Html.{
  Html, attr, disabled, each, nothing, on_text, style, tag, text, when,
}
use socio_technical_alignmen.Loading.{SelectorState}
use socio_technical_alignmen.Number.{Number}
use socio_technical_alignmen.Prelude.{
  Bool, Option, String, [], false, if◌then◌else◌, is_empty, none, not, some, str_eq, ◌∷◌,
}

abbrev id_or_empty : Option String → String
id_or_empty none = ""
id_or_empty (some id) = id

abbrev shows : Option String → Bool
shows none = false
shows (some m) = not (str_eq m "")

module _ {F : Type 0} ⦃n : Number F⦄ where
  -- The list of the snapshots.
  unfoldable pub snapshot_select :
      {A : Type 0} → (String → String) → (String → A) → SelectorState F → Html A
  snapshot_select format_date select_event s =
      tag "div" (style ("display: flex; alignItems: center; gap: 12" ∷ []) ∷ []) (
        (tag "label"
          (attr "htmlFor" "snapshot-select"
            ∷ style (
                "fontFamily: var(--fb); fontSize: 9; fontWeight: 700; letterSpacing: 2px; textTransform: uppercase; color: var(--mid); flexShrink: 0"
                ∷ [])
            ∷ [])
          ((text "Snapshot") ∷ []))
        ∷ (tag "select"
            (attr "id" "snapshot-select"
              ∷ attr "data-testid" "snapshot-selector"
              ∷ attr "value" (id_or_empty s.graph.active_snapshot_id)
              ∷ on_text "onChange" select_event
              ∷ disabled s.is_pending
              ∷ style (
                  "fontFamily: var(--fb); fontSize: 12; color: var(--dark); backgroundColor: #ffffff; border: 1px solid var(--primary-10); borderRadius: 6; padding: 6px 10px; cursor: pointer"
                  ∷ ("opacity: " <> (if s.is_pending then "0.5" else "1"))
                  ∷ "transition: opacity 0.15s; maxWidth: 240"
                  ∷ [])
              ∷ [])
            ((each
                (λ m. tag "option" (attr "value" m.snapshot_id ∷ []) (
                  (text ((format_date m.captured_at)))
                  ∷ (text " (")
                  ∷ (text ((n.to_text (n.lit m.node_count 0))))
                  ∷ (text " engineers)")
                  ∷ []))
                s.graph.snapshots)
              ∷ []))
        ∷ (when s.is_pending (
            tag "span"
              (style (
                  "fontFamily: var(--fb); fontSize: 10; color: var(--gold); letterSpacing: 1px"
                  ∷ [])
                ∷ [])
              ((text "Loading…") ∷ [])))
        ∷ (when ((shows s.error)) (
            tag "span" (style ("fontFamily: var(--fb); fontSize: 10; color: #E03448" ∷ []) ∷ [])
              ((text ((id_or_empty s.error))) ∷ [])))
        ∷ [])

  -- `GraphSnapshotSelector`; `format_date` is the formatting of a date.
  unfoldable pub snapshot_selector :
      {A : Type 0} → (String → String) → (String → A) → SelectorState F → Html A
  snapshot_selector format_date select_event s =
      if is_empty s.graph.snapshots then nothing else snapshot_select format_date select_event s
