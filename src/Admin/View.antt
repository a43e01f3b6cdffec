-- ===== src/Admin/View.antt =====
-- apps/web/app/admin/page.tsx: the page.
use socio_technical_alignmen.Admin.{AdminState, Level, LogEntry, Stats, failure, info, success}
use socio_technical_alignmen.Admin.Controls.{
  Action, empty_log, operations_section, refresh_stats, reset_section,
}
use socio_technical_alignmen.Admin.Parts.{Shown, count, is_minus_one, shown_text, words}
use socio_technical_alignmen.Api.Client.{◌<>◌}
use socio_technical_alignmen.Html.{Html, choose, disabled, each, on, style, tag, text, when}
use socio_technical_alignmen.Number.{Number}
use socio_technical_alignmen.Prelude.{
  List, String, [], if◌then◌else◌, is_empty, none, not, reverse, some, str_eq, true, ◌∷◌,
}
use socio_technical_alignmen.Ui.{NavProps, eyebrow, footer, nav}

pub record LogColors : Type 0 where
  pub bg : String
  pub letters : String
  pub dot : String

-- `LOG_COLORS`.
unfoldable pub log_colors : Level → LogColors
log_colors info = record {
  bg = "var(--primary-10)";
  letters = "var(--primary-60)";
  dot = "var(--primary-60)";
}
log_colors success = record { bg = "#e0f7ef"; letters = "#0d5c3a"; dot = "var(--status-green)" }
log_colors failure = record { bg = "#fdeaea"; letters = "#7a1020"; dot = "var(--status-red)" }

abbrev level_name : Level → String
level_name info = "info"
level_name success = "success"
level_name failure = "error"

-- An entry of the log.
unfoldable pub log_entry : {A : Type 0} → LogEntry → Html A
log_entry e =
    tag "div"
      (style (
          "display: flex; alignItems: baseline; gap: 12; padding: 10px 24px; borderBottom: 1px solid rgba(0,51,102,0.04)"
          ∷ [])
        ∷ [])
      ((tag "span"
          (style (
              "fontFamily: Courier New, monospace; fontSize: 10; color: var(--mid); flexShrink: 0; minWidth: 58"
              ∷ [])
            ∷ [])
          ((text e.ts) ∷ []))
        ∷ (tag "span"
            (style (
                "display: inline-flex; alignItems: center; gap: 4"
                ∷ ("backgroundColor: " <> (log_colors e.level).bg)
                ∷ "borderRadius: 20; padding: 2px 8px; flexShrink: 0"
                ∷ [])
              ∷ [])
            ((tag "span"
                (style (
                    "width: 5; height: 5; borderRadius: 50%"
                    ∷ ("backgroundColor: " <> (log_colors e.level).dot)
                    ∷ "display: inline-block"
                    ∷ [])
                  ∷ [])
                [])
              ∷ (tag "span"
                  (style (
                      "fontFamily: var(--fb); fontSize: 8; fontWeight: 700; letterSpacing: 1.5px; textTransform: uppercase"
                      ∷ ("color: " <> (log_colors e.level).letters)
                      ∷ [])
                    ∷ [])
                  ((text ((level_name e.level))) ∷ []))
              ∷ []))
        ∷ (tag "span"
            (style ("fontFamily: var(--fb); fontSize: 12; color: var(--dark); lineHeight: 1.5" ∷ [])
              ∷ [])
            ((text e.message) ∷ []))
        ∷ [])

-- The log, its latest entry first.
unfoldable pub log_section : {F : Type 0} → AdminState F → Html Action
log_section s = tag "div" [] (
    (tag "div"
      (style (
          "display: flex; justifyContent: space-between; alignItems: center; marginBottom: 12" ∷ [])
        ∷ [])
      ((tag "div"
          (style (
              "fontFamily: var(--fb); fontSize: 9; fontWeight: 700; letterSpacing: 2px; textTransform: uppercase; color: var(--mid)"
              ∷ [])
            ∷ [])
          ((text "Activity log") ∷ []))
        ∷ (when ((not (is_empty s.log))) (
            tag "button"
              (on "onClick" empty_log
                ∷ style (
                    "background: none; border: none; cursor: pointer; fontFamily: var(--fb); fontSize: 9; letterSpacing: 2px; textTransform: uppercase; color: var(--mid); padding: 0"
                    ∷ [])
                ∷ [])
              ((text "Clear") ∷ [])))
        ∷ []))
    ∷ (tag "div"
        (style (
            "backgroundColor: #ffffff; borderRadius: 12; overflow: hidden; boxShadow: 0 1px 4px rgba(0,51,102,0.08); minHeight: 120"
            ∷ [])
          ∷ [])
        ((choose ((is_empty s.log))
            (tag "div"
              (style (
                  "padding: 32px 28px; fontFamily: var(--fb); fontSize: 12; color: var(--mid); textAlign: center"
                  ∷ [])
                ∷ [])
              ((text "No activity yet — run an operation above.") ∷ []))
            (tag "div" (style ("padding: 8px 0" ∷ []) ∷ [])
              ((each (λ e. log_entry e) ((reverse s.log))) ∷ [])))
          ∷ []))
    ∷ [])

pub record StatItem (F : Type 0) : Type 0 where
  pub shown : Shown F
  pub label : String
  pub sub : String

module _ {F : Type 0} ⦃n : Number F⦄ where
  abbrev stat : AdminState F → (Stats F → F) → F → Shown F
  stat s get missing =
      if s.stats_loading
      then words "…"
      else count (elim s.stats [ none ↦ missing | some x ↦ get x ])

  -- The items of the header.
  abbrev pub stat_items : AdminState F → List (StatItem F)
  stat_items s =
      let zero_count = n.lit 0 0 in
      record { shown = stat s (λ x. x.teams) zero_count; label = "Teams"; sub = "" }
      ∷ record { shown = stat s (λ x. x.engineers) zero_count; label = "Engineers"; sub = "" }
      ∷ record { shown = stat s (λ x. x.edges) zero_count; label = "Edges"; sub = "" }
      ∷ record {
        shown = stat s (λ x. x.candidates) zero_count;
        label = "Candidates";
        sub = "temporary";
      }
      ∷ record {
        shown = stat s (λ x. x.redis_keys) (n.sub zero_count (n.lit 1 0));
        label = "Redis keys";
        sub = "stas:*";
      }
      ∷ []

  -- A number of the header.
  unfoldable pub stat_view : {A : Type 0} → StatItem F → Html A
  stat_view item =
      tag "div" (style ("borderLeft: 2px solid var(--gold); paddingLeft: 18" ∷ []) ∷ []) (
        (tag "div"
          (style (
              "fontFamily: var(--fd); fontSize: 34; fontWeight: 300; color: var(--gold-light); lineHeight: 1; marginBottom: 4"
              ∷ [])
            ∷ [])
          ((choose ((is_minus_one item.shown)) (text ("—")) (text ((shown_text item.shown)))) ∷ []))
        ∷ (tag "div"
            (style ("fontFamily: var(--fb); fontSize: 11; color: rgba(255,255,255,0.5)" ∷ []) ∷ [])
            ((text item.label)
              ∷ (when ((not (str_eq item.sub ""))) (
                  tag "span" (style ("opacity: 0.6; marginLeft: 4" ∷ []) ∷ [])
                    ((text item.sub) ∷ [])))
              ∷ []))
        ∷ [])

  -- The header with the statistics.
  unfoldable pub hero : AdminState F → Html Action
  hero s =
      tag "section"
        (style (
            "backgroundColor: var(--primary)"
            ∷ ("backgroundImage: "
                <> ("linear-gradient(rgba(255,255,255,.025) 1px, transparent 1px),"
                    <> "linear-gradient(90deg, rgba(255,255,255,.025) 1px, transparent 1px)"))
            ∷ "backgroundSize: 48px 48px; padding: 56px 48px 48px"
            ∷ [])
          ∷ [])
        ((tag "div" (style ("maxWidth: 1300; margin: 0 auto" ∷ []) ∷ []) (
            (eyebrow true ((text "System") ∷ []))
            ∷ (tag "h1"
                (style (
                    "fontFamily: var(--fd); fontSize: 40; fontWeight: 300; color: #ffffff; lineHeight: 1.2; marginBottom: 12"
                    ∷ [])
                  ∷ [])
                ((text "Admin")
                  ∷ (text (" "))
                  ∷ (tag "em" (style ("fontStyle: italic; color: var(--gold-light)" ∷ []) ∷ [])
                      ((text "console.") ∷ []))
                  ∷ []))
            ∷ (tag "p"
                (style (
                    "fontFamily: var(--fb); fontSize: 14; color: rgba(255,255,255,0.6); lineHeight: 1.75; maxWidth: 480; marginBottom: 36"
                    ∷ [])
                  ∷ [])
                ((text "Manage the graph database, seed synthetic demo data, and flush caches.")
                  ∷ []))
            ∷ (tag "div" (style ("display: flex; gap: 20; flexWrap: wrap" ∷ []) ∷ []) (
                (each (λ item. stat_view item) ((stat_items s)))
                ∷ (tag "button"
                    (on "onClick" refresh_stats
                      ∷ disabled s.stats_loading
                      ∷ style (
                          "alignSelf: flex-end; background: none; border: 1px solid rgba(255,255,255,0.25); borderRadius: 6; color: rgba(255,255,255,0.5)"
                          ∷ ("cursor: " <> (if s.stats_loading then "not-allowed" else "pointer"))
                          ∷ "fontFamily: var(--fb); fontSize: 9; letterSpacing: 2px; textTransform: uppercase; padding: 7px 14px"
                          ∷ [])
                      ∷ [])
                    ((choose s.stats_loading (text ("Refreshing…")) (text ("Refresh"))) ∷ []))
                ∷ []))
            ∷ []))
          ∷ [])

  -- The page.
  unfoldable pub admin_page : NavProps → String → AdminState F → Html Action
  admin_page props date s =
      tag "main" (style ("minHeight: 100vh; display: flex; flexDirection: column" ∷ []) ∷ []) (
        (nav props)
        ∷ (hero s)
        ∷ (tag "section"
            (style (
                "flex: 1; maxWidth: 1300; margin: 0 auto; padding: 48px 48px 64px; width: 100%"
                ∷ [])
              ∷ [])
            ((operations_section s) ∷ (reset_section s) ∷ (log_section s) ∷ []))
        ∷ (footer date)
        ∷ [])
