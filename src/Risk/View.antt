-- ===== src/Risk/View.antt =====
-- apps/web/app/risk/page.tsx: the page.
use socio_technical_alignmen.Api.Client.{◌<>◌}
use socio_technical_alignmen.Html.{Html, each, nothing, on, style, tag, text, when}
use socio_technical_alignmen.Number.{Number}
use socio_technical_alignmen.Prelude.{
  Option, String, [], if◌then◌else◌, none, not, some, str_eq, true, ◌∷◌,
}
use socio_technical_alignmen.Risk.{RiskState, TeamRisk, max_betweenness, max_impact}
use socio_technical_alignmen.Risk.Metrics.{guide, metrics_row}
use socio_technical_alignmen.Risk.Table.{engineer_table}
use socio_technical_alignmen.Ui.{NavProps, eyebrow, footer, nav}

module _ {F : Type 0} ⦃n : Number F⦄ where
  -- The tab of a team.
  unfoldable pub team_tab : RiskState F → String → Html String
  team_tab s t =
      tag "button"
        (on "onClick" t
          ∷ style (
              "fontFamily: var(--fb); fontSize: 9; fontWeight: 700; letterSpacing: 2px; textTransform: uppercase; padding: 10px 18px; border: none; borderRadius: 6px 6px 0 0; cursor: pointer"
              ∷ ("backgroundColor: "
                  <> (if (str_eq s.selected_team t) then "#ffffff" else "rgba(255,255,255,0.08)"))
              ∷ ("color: "
                  <> (if (str_eq s.selected_team t)
                      then "var(--primary)"
                      else "rgba(255,255,255,0.5)"))
              ∷ ("marginBottom: " <> (if (str_eq s.selected_team t) then "-1" else "0"))
              ∷ "position: relative"
              ∷ ("zIndex: " <> (if (str_eq s.selected_team t) then "1" else "0"))
              ∷ [])
          ∷ [])
        ((text t) ∷ [])

  -- The header, with a tab for each team.
  unfoldable pub hero : RiskState F → Html String
  hero s =
      tag "section"
        (style (
            "backgroundColor: var(--primary)"
            ∷ ("backgroundImage: "
                <> ("linear-gradient(rgba(255,255,255,.025) 1px, transparent 1px),"
                    <> "linear-gradient(90deg, rgba(255,255,255,.025) 1px, transparent 1px)"))
            ∷ "backgroundSize: 48px 48px; padding: 56px 48px 0"
            ∷ [])
          ∷ [])
        ((tag "div" (style ("maxWidth: 1300; margin: 0 auto" ∷ []) ∷ []) (
            (eyebrow true ((text "Analysis") ∷ []))
            ∷ (tag "h1"
                (style (
                    "fontFamily: var(--fd); fontSize: 40; fontWeight: 300; color: #ffffff; lineHeight: 1.2; marginBottom: 12"
                    ∷ [])
                  ∷ [])
                ((text "Silo")
                  ∷ (text (" "))
                  ∷ (tag "em" (style ("fontStyle: italic; color: var(--gold-light)" ∷ []) ∷ [])
                      ((text "& risk.") ∷ []))
                  ∷ []))
            ∷ (tag "p"
                (style (
                    "fontFamily: var(--fb); fontSize: 14; color: rgba(255,255,255,0.6); lineHeight: 1.75; maxWidth: 520; marginBottom: 36"
                    ∷ [])
                  ∷ [])
                ((text
                    "Engineers whose removal collapses team connectivity are single points of failure. Betweenness outliers sit on critical knowledge paths — they're the first hire priority when a team shows fragility.")
                  ∷ []))
            ∷ (tag "div" (style ("display: flex; gap: 4" ∷ []) ∷ [])
                ((each (λ t. team_tab s t) s.teams) ∷ []))
            ∷ []))
          ∷ [])

  -- What is shown of a team.
  unfoldable pub results : TeamRisk F → F → F → Html String
  results r mi mb =
      tag "div" (style ("display: flex; flexDirection: column; gap: 24" ∷ []) ∷ [])
        ((metrics_row r) ∷ (engineer_table r mi mb) ∷ (guide r) ∷ [])

  abbrev pub results_of : RiskState F → Option (TeamRisk F) → Html String
  results_of s none = nothing
  results_of s (some r) =
      when (not s.loading) (results r (max_impact (some r)) (max_betweenness (some r)))

  -- The body of the page.
  unfoldable pub body : RiskState F → Html String
  body s =
      tag "section"
        (style
            ("flex: 1; maxWidth: 1300; margin: 0 auto; padding: 40px 48px 64px; width: 100%" ∷ [])
          ∷ [])
        ((when s.loading (
            tag "div"
              (style (
                  "fontFamily: var(--fb); fontSize: 12; color: var(--mid); padding: 48px 0; textAlign: center"
                  ∷ [])
                ∷ [])
              ((text "Computing risk analysis…") ∷ [])))
          ∷ (when ((not (str_eq s.error ""))) (
              tag "div"
                (style (
                    "backgroundColor: #fdeaea; borderRadius: 8; padding: 12px 16px; fontFamily: var(--fb); fontSize: 12; color: #7a1020; marginBottom: 24"
                    ∷ [])
                  ∷ [])
                ((text s.error) ∷ [])))
          ∷ ((results_of s s.risk))
          ∷ [])

  -- The page.
  unfoldable pub risk_page : NavProps → String → RiskState F → Html String
  risk_page props date s =
      tag "main" (style ("minHeight: 100vh; display: flex; flexDirection: column" ∷ []) ∷ [])
        ((nav props) ∷ (hero s) ∷ (body s) ∷ (footer date) ∷ [])
