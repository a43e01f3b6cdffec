-- ===== src/Attrition/Parts.antt =====
-- apps/web/app/attrition/page.tsx: the badge, the bar and the controls.
use socio_technical_alignmen.Api.Client.{◌<>◌}
use socio_technical_alignmen.Attrition.{
  AttritionEvent, AttritionState, delta_fill, drop_color, pick_engineer, pick_team, run_clicked,
  seniority_name,
}
use socio_technical_alignmen.Html.{Html, choose, disabled, each, on, style, tag, text, when}
use socio_technical_alignmen.Number.{Number}
use socio_technical_alignmen.Prelude.{String, [], if◌then◌else◌, is_empty, not, str_eq, ◌||◌, ◌∷◌}
use socio_technical_alignmen.Risk.{seniority_color}

-- `SeniorityBadge`.
unfoldable pub seniority_badge : {A : Type 0} → String → Html A
seniority_badge s =
    tag "span"
      (style (
          "fontFamily: var(--fb); fontSize: 8; fontWeight: 700; letterSpacing: 1.5px; textTransform: uppercase"
          ∷ ("color: " <> (seniority_color s))
          ∷ ("border: " <> ("1px solid " <> (seniority_color s)))
          ∷ "borderRadius: 4; padding: 2px 6px"
          ∷ [])
        ∷ [])
      ((text s) ∷ [])

module _ {F : Type 0} ⦃n : Number F⦄ where
  -- `DeltaBar`.
  unfoldable pub delta_bar : {A : Type 0} → F → F → Html A
  delta_bar amount mx =
      tag "div" (style ("display: flex; alignItems: center; gap: 10; flex: 1" ∷ []) ∷ []) (
        (tag "div"
          (style (
              "flex: 1; height: 6; backgroundColor: var(--primary-10); borderRadius: 3; overflow: hidden"
              ∷ [])
            ∷ [])
          ((tag "div"
              (style (
                  ("width: " <> ((n.to_text (delta_fill amount mx)) <> "%"))
                  ∷ "height: 100%"
                  ∷ ("backgroundColor: " <> (drop_color amount))
                  ∷ "borderRadius: 3; transition: width 0.4s ease"
                  ∷ [])
                ∷ [])
              [])
            ∷ []))
        ∷ (tag "span"
            (style (
                "fontFamily: var(--fd); fontSize: 13; fontWeight: 300"
                ∷ ("color: " <> (drop_color amount))
                ∷ "minWidth: 42; textAlign: right"
                ∷ [])
              ∷ [])
            ((choose ((n.lt (n.lit 0 0) amount)) (text (("−" <> (n.to_fixed 1 amount) <> "%")))
                (text ("0%")))
              ∷ []))
        ∷ [])

-- The team picker.
unfoldable pub team_picker : {F : Type 0} → AttritionState F → Html AttritionEvent
team_picker s =
    tag "div"
      (style (
          "backgroundColor: #ffffff; borderRadius: 12; overflow: hidden; boxShadow: 0 1px 4px rgba(0,51,102,0.08)"
          ∷ [])
        ∷ [])
      ((tag "div" (style ("height: 3; backgroundColor: var(--gold)" ∷ []) ∷ []) [])
        ∷ (tag "div" (style ("padding: 24px 28px" ∷ []) ∷ []) (
            (tag "div"
              (style (
                  "fontFamily: var(--fb); fontSize: 9; fontWeight: 700; letterSpacing: 2px; textTransform: uppercase; color: var(--mid); marginBottom: 12"
                  ∷ [])
                ∷ [])
              ((text "Step 1 — Select team") ∷ []))
            ∷ (tag "div" (style ("display: flex; flexWrap: wrap; gap: 8" ∷ []) ∷ []) (
                (when ((is_empty s.teams)) (
                  tag "span"
                    (style ("fontFamily: var(--fb); fontSize: 12; color: var(--mid)" ∷ []) ∷ [])
                    ((text "No teams — seed the graph first.") ∷ [])))
                ∷ (each
                    (λ t.
                      tag "button"
                        (on "onClick" (pick_team t)
                          ∷ style (
                              "fontFamily: var(--fb); fontSize: 11"
                              ∷ ("fontWeight: "
                                  <> (if (str_eq s.selected_team t) then "700" else "400"))
                              ∷ "padding: 6px 14px; borderRadius: 6"
                              ∷ ("border: "
                                  <> ("1px solid "
                                      <> (if (str_eq s.selected_team t)
                                          then "var(--primary)"
                                          else "var(--primary-30)")))
                              ∷ ("backgroundColor: "
                                  <> (if (str_eq s.selected_team t)
                                      then "var(--primary)"
                                      else "transparent"))
                              ∷ ("color: "
                                  <> (if (str_eq s.selected_team t)
                                      then "#ffffff"
                                      else "var(--primary)"))
                              ∷ "cursor: pointer"
                              ∷ [])
                          ∷ [])
                        ((text t) ∷ []))
                    s.teams)
                ∷ []))
            ∷ []))
        ∷ [])

-- The engineer picker.
unfoldable pub engineer_picker : {F : Type 0} → AttritionState F → Html AttritionEvent
engineer_picker s =
    tag "div"
      (style (
          "backgroundColor: #ffffff; borderRadius: 12; overflow: hidden; boxShadow: 0 1px 4px rgba(0,51,102,0.08)"
          ∷ [])
        ∷ [])
      ((tag "div" (style ("height: 3; backgroundColor: var(--gold)" ∷ []) ∷ []) [])
        ∷ (tag "div" (style ("padding: 24px 28px" ∷ []) ∷ []) (
            (tag "div"
              (style (
                  "fontFamily: var(--fb); fontSize: 9; fontWeight: 700; letterSpacing: 2px; textTransform: uppercase; color: var(--mid); marginBottom: 12"
                  ∷ [])
                ∷ [])
              ((text "Step 2 — Select engineer") ∷ []))
            ∷ (choose ((not (not (str_eq s.selected_team ""))))
                (tag "span"
                  (style ("fontFamily: var(--fb); fontSize: 12; color: var(--mid)" ∷ []) ∷ [])
                  ((text "Pick a team first.") ∷ []))
                (tag "div" (style ("display: flex; flexDirection: column; gap: 6" ∷ []) ∷ []) (
                  (each
                    (λ e.
                      tag "button"
                        (on "onClick" (pick_engineer e.id)
                          ∷ style (
                              "display: flex; alignItems: center; justifyContent: space-between; padding: 8px 12px; borderRadius: 6"
                              ∷ ("border: "
                                  <> ("1px solid "
                                      <> (if (str_eq s.selected_eng e.id)
                                          then "var(--primary)"
                                          else "var(--primary-30)")))
                              ∷ ("backgroundColor: "
                                  <> (if (str_eq s.selected_eng e.id)
                                      then "var(--primary-10)"
                                      else "transparent"))
                              ∷ "cursor: pointer; textAlign: left"
                              ∷ [])
                          ∷ [])
                        ((tag "span"
                            (style (
                                "fontFamily: var(--fb); fontSize: 13; color: var(--dark)"
                                ∷ ("fontWeight: "
                                    <> (if (str_eq s.selected_eng e.id) then "600" else "400"))
                                ∷ [])
                              ∷ [])
                            ((text e.name) ∷ []))
                          ∷ (seniority_badge (seniority_name e.seniority))
                          ∷ []))
                    s.engineers)
                  ∷ [])))
            ∷ []))
        ∷ [])

-- The button that runs the analysis.
unfoldable pub run_button : {F : Type 0} → AttritionState F → Html AttritionEvent
run_button s = tag "div" (style ("marginBottom: 40" ∷ []) ∷ []) (
    (tag "button"
      (on "onClick" run_clicked
        ∷ disabled (
            (not (not (str_eq s.selected_team "")))
            || ((not (not (str_eq s.selected_eng ""))) || s.running))
        ∷ style (
            "fontFamily: var(--fb); fontSize: 9; fontWeight: 700; letterSpacing: 2px; textTransform: uppercase"
            ∷ ("color: "
                <> (if ((not (not (str_eq s.selected_team "")))
                      || ((not (not (str_eq s.selected_eng ""))) || s.running))
                    then "rgba(255,255,255,0.4)"
                    else "#ffffff"))
            ∷ ("backgroundColor: "
                <> (if ((not (not (str_eq s.selected_team "")))
                      || ((not (not (str_eq s.selected_eng ""))) || s.running))
                    then "rgba(0,51,102,0.3)"
                    else "var(--primary)"))
            ∷ "border: none; borderRadius: 6; padding: 11px 28px"
            ∷ ("cursor: "
                <> (if ((not (not (str_eq s.selected_team "")))
                      || ((not (not (str_eq s.selected_eng ""))) || s.running))
                    then "not-allowed"
                    else "pointer"))
            ∷ [])
        ∷ [])
      ((choose s.running (text ("Computing…")) (text ("Run impact analysis →"))) ∷ []))
    ∷ [])
