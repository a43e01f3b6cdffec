-- ===== src/Ui.antt =====
-- apps/web/components/ui: the components that the pages share.
use socio_technical_alignmen.Api.Client.{◌<>◌}
use socio_technical_alignmen.Html.{
  Html, attr, children, choose, each, fragment, spread, style, tag, text,
}
use socio_technical_alignmen.Prelude.{
  Bool, List, Option, String, [], if◌then◌else◌, none, some, ◌∷◌,
}
use socio_technical_alignmen.Prelude.Text.{starts_with, utf16}

-- What the navigation reads from its environment.
pub record NavProps : Type 0 where
  pub has_valid_clerk_key : Bool
  pub pathname : String

unfoldable pub nav_links : List (String × String)
nav_links =
    ("/dashboard", "Dashboard")
    ∷ ("/teams", "Teams")
    ∷ ("/simulate", "Simulate")
    ∷ ("/attrition", "Attrition")
    ∷ ("/risk", "Risk")
    ∷ ("/info", "Info")
    ∷ ("/admin", "Admin")
    ∷ []

abbrev nav_link : List String
nav_link =
    ("background: none; backgroundColor: transparent; border: none; color: rgba(255,255,255,0.45); cursor: pointer; fontFamily: var(--fb); fontSize: 9; letterSpacing: 2px; textTransform: uppercase; padding: 5px 8px; borderRadius: 6; transition: color 0.15s, background-color 0.15s; textDecoration: none"
      ∷ [])

abbrev nav_link_active : List String
nav_link_active = ("color: var(--gold-light); backgroundColor: rgba(201,168,76,0.12)" ∷ [])

-- `ClerkAuthCluster`.
unfoldable pub clerk_auth_cluster : {A : Type 0} → String → Html A
clerk_auth_cluster pathname = fragment (
    children (
      (tag "SignedIn" [] (
        (each
          (λ (href, label).
            tag "Link"
              (attr "href" href
                ∷ style (
                    if starts_with (utf16 href) (utf16 pathname)
                    then spread nav_link nav_link_active
                    else nav_link)
                ∷ [])
              ((text label) ∷ []))
          nav_links)
        ∷ (tag "UserButton"
            (attr "appearance" "elements: { avatarBox: { width: 26; height: 26 } }" ∷ []) [])
        ∷ []))
      ∷ (tag "SignedOut" [] (
          (tag "SignInButton" (attr "mode" "modal" ∷ []) (
            (tag "button"
              (style (
                  "background: none; border: 1px solid rgba(255,255,255,0.2); borderRadius: 6; color: rgba(255,255,255,0.5); cursor: pointer; fontFamily: var(--fb); fontSize: 9; letterSpacing: 2px; textTransform: uppercase; padding: 5px 10px"
                  ∷ [])
                ∷ [])
              ((text "Sign in") ∷ []))
            ∷ []))
          ∷ []))
      ∷ []))

-- `DevNavLinks`.
unfoldable pub dev_nav_links : {A : Type 0} → String → Html A
dev_nav_links pathname = fragment (
    children (
      (each
        (λ (href, label).
          tag "Link"
            (attr "href" href
              ∷ style (
                  if starts_with (utf16 href) (utf16 pathname)
                  then spread nav_link nav_link_active
                  else nav_link)
              ∷ [])
            ((text label) ∷ []))
        nav_links)
      ∷ []))

-- `Nav`.
unfoldable pub nav : {A : Type 0} → NavProps → Html A
nav props =
    tag "nav"
      (style (
          "backgroundColor: rgba(0,51,102,.97); backdropFilter: blur(12px); height: 52; position: sticky; top: 0; display: flex; alignItems: center; padding: 0 40px; borderBottom: 1px solid rgba(255,255,255,.08); justifyContent: space-between; zIndex: 100"
          ∷ [])
        ∷ [])
      ((tag "Link"
          (attr "href" "/dashboard"
            ∷ style ("textDecoration: none; display: flex; alignItems: center; gap: 14" ∷ [])
            ∷ [])
          ((tag "span" [] (
              (tag "span"
                (style (
                    "fontFamily: 'Fraunces', Georgia, serif; fontSize: 20; fontWeight: 300; color: #ffffff"
                    ∷ [])
                  ∷ [])
                ((text "O") ∷ []))
              ∷ (tag "em"
                  (style (
                      "fontFamily: 'Fraunces', Georgia, serif; fontSize: 20; fontWeight: 300; fontStyle: italic; color: var(--gold-light)"
                      ∷ [])
                    ∷ [])
                  ((text "PB") ∷ []))
              ∷ []))
            ∷ (tag "span"
                (style (
                    "fontFamily: var(--fb); fontSize: 9; letterSpacing: 3px; textTransform: uppercase; color: rgba(255,255,255,.4)"
                    ∷ [])
                  ∷ [])
                ((text "Socio-Technical Alignment Simulator") ∷ []))
            ∷ []))
        ∷ (tag "div" (style ("display: flex; alignItems: center; gap: 16" ∷ []) ∷ []) (
            (choose props.has_valid_clerk_key (clerk_auth_cluster props.pathname)
              (dev_nav_links props.pathname))
            ∷ []))
        ∷ [])

-- `Footer`; `date` is the formatted month.
unfoldable pub footer : {A : Type 0} → String → Html A
footer date =
    tag "footer"
      (style (
          "backgroundColor: var(--primary); padding: 20px 48px; display: flex; justifyContent: space-between; alignItems: center; fontFamily: var(--fb); fontSize: 9; letterSpacing: 3px; textTransform: uppercase; color: rgba(255,255,255,0.4)"
          ∷ [])
        ∷ [])
      ((tag "span" [] ((text "OPB · Octavio Pérez Bravo · STAS") ∷ []))
        ∷ (tag "span" [] ((text date) ∷ []))
        ∷ [])

-- `Eyebrow`.
unfoldable pub eyebrow : {A : Type 0} → Bool → List (Html A) → Html A
eyebrow light kids =
    tag "div"
      (style (
          "display: inline-flex; alignItems: center; gap: 8; fontSize: 9; fontFamily: var(--fb); fontWeight: 500; letterSpacing: 4px; textTransform: uppercase"
          ∷ ("color: " <> (if light then "var(--gold-light)" else "var(--gold)"))
          ∷ "marginBottom: 10"
          ∷ [])
        ∷ [])
      ((tag "div"
          (style (
              "width: 24; height: 1; flexShrink: 0"
              ∷ ("backgroundColor: " <> (if light then "var(--gold-light)" else "var(--gold)"))
              ∷ [])
            ∷ [])
          [])
        ∷ (fragment (children kids))
        ∷ [])

-- `SectionTitle`.
unfoldable pub section_title : {A : Type 0} → List (Html A) → Html A
section_title kids =
    tag "h2"
      (style (
          "fontFamily: 'Fraunces', Georgia, serif; fontSize: 22; fontWeight: 300; color: #0a1628; margin: 0 0 4px; lineHeight: 1.25"
          ∷ [])
        ∷ [])
      ((fragment (children kids)) ∷ [])

pub data Status : Type 0 where
  complete in_progress pending failed warning : Status

abbrev status_text : Status → String
status_text complete = "complete"
status_text in_progress = "in-progress"
status_text pending = "pending"
status_text failed = "error"
status_text warning = "warning"

pub record StatusColors : Type 0 where
  pub bg : String
  pub fg : String
  pub dot : String

unfoldable pub status_colors : Status → StatusColors
status_colors complete = record { bg = "#E0F7EF"; fg = "#0D5C3A"; dot = "#27B97C" }
status_colors in_progress = record { bg = "#FEF0E6"; fg = "#7A3800"; dot = "#F07020" }
status_colors pending = record { bg = "#E0EAF4"; fg = "#001F4D"; dot = "#003366" }
status_colors failed = record { bg = "#FDEAEA"; fg = "#7A1020"; dot = "#E03448" }
status_colors warning = record { bg = "#FEF0E6"; fg = "#7A3800"; dot = "#F07020" }

abbrev label_or : Option String → String → String
label_or none d = d
label_or (some l) d = l

-- `StatusBadge`.
unfoldable pub status_badge : {A : Type 0} → Status → Option String → Html A
status_badge status label =
    tag "span"
      (style (
          ("backgroundColor: " <> (status_colors status).bg)
          ∷ ("color: " <> (status_colors status).fg)
          ∷ "fontSize: 10; fontFamily: var(--fb); fontWeight: 500; letterSpacing: 1px; padding: 4px 10px; borderRadius: 20; display: inline-flex; alignItems: center; gap: 5"
          ∷ [])
        ∷ [])
      ((tag "span"
          (style (
              "width: 6; height: 6; borderRadius: 50%"
              ∷ ("backgroundColor: " <> (status_colors status).dot)
              ∷ "flexShrink: 0"
              ∷ [])
            ∷ [])
          [])
        ∷ (text ((label_or label (status_text status))))
        ∷ [])
