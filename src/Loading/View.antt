-- ===== src/Loading/View.antt =====
-- apps/web/app/teams/[id]/GraphLoader.tsx: what it shows.
use socio_technical_alignmen.Api.{GraphSnapshot}
use socio_technical_alignmen.Html.{Html, style, tag, text}
use socio_technical_alignmen.Number.{Number}
use socio_technical_alignmen.Prelude.{[], length, ◌∷◌}

module _ {F : Type 0} ⦃n : Number F⦄ where
  -- `GraphLoader`, around the selector and the graph.
  unfoldable pub graph_loader : {A : Type 0} → Html A → Html A → GraphSnapshot F → Html A
  graph_loader selector graph snap =
      tag "div" (style ("display: flex; flexDirection: column; gap: 16; height: 100%" ∷ []) ∷ []) (
        (tag "div"
          (style (
              "display: flex; alignItems: center; justifyContent: space-between; flexWrap: wrap; gap: 12; padding: 12px 16px; backgroundColor: #ffffff; borderRadius: 10; boxShadow: 0 1px 4px rgba(0,51,102,0.06)"
              ∷ [])
            ∷ [])
          ((tag "div" (style ("display: flex; alignItems: center; gap: 12" ∷ []) ∷ []) (
              (tag "span"
                (style (
                    "fontFamily: var(--fb); fontSize: 9; fontWeight: 700; letterSpacing: 3px; textTransform: uppercase; color: var(--mid)"
                    ∷ [])
                  ∷ [])
                ((text ((n.to_text (n.lit (length snap.nodes) 0))))
                  ∷ (text " engineers · ")
                  ∷ (text ((n.to_text (n.lit (length snap.edges) 0))))
                  ∷ (text " edges")
                  ∷ []))
              ∷ []))
            ∷ selector
            ∷ []))
        ∷ (tag "div" (style ("flex: 1; minHeight: 680" ∷ []) ∷ []) (graph ∷ []))
        ∷ [])
