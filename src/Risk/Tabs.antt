-- ===== src/Risk/Tabs.antt =====
-- apps/web/app/risk/page.tsx: the tabs of the teams.
use socio_technical_alignmen.Prelude.{
  ◌≡◌, refl, ◌∙◌, String, true, false, [], ◌∷◌, sym, str_eq, append-nil, if◌then◌else◌, inl, inr,
  Bool-cases,
}
use socio_technical_alignmen.Number.{Number}
use socio_technical_alignmen.Html.Queries.{clicks, clicks-each_self}
use socio_technical_alignmen.Ui.{eyebrow}
use socio_technical_alignmen.Risk.{RiskState, choose_team}
use socio_technical_alignmen.Risk.View.{hero, team_tab}

module _ {F : Type 0} ⦃n : Number F⦄ where
  team_tab_offers : (s : RiskState F) (t : String) → clicks (team_tab s t) ≡ t ∷ []
  unfolding clicks team_tab
  team_tab_offers s t = refl

  hero_offers : (s : RiskState F) → clicks (hero s) ≡ s.teams
  unfolding clicks hero eyebrow
  hero_offers s = rw (clicks-each_self (team_tab s) s.teams (team_tab_offers s)) (simp append-nil)

  clicked :
      (t : String) (s : RiskState F)
      → str_eq t "" ≡ false
      → choose_team t s ≡ (
          if str_eq t s.selected_team
          then s
          else record s { selected_team = t; loading = true; error = "" })
  unfolding choose_team
  clicked t s named = rw named refl

  choose_team-teams :
      (t : String) (s : RiskState F) → str_eq t "" ≡ false → (choose_team t s).teams ≡ s.teams
  choose_team-teams t s named = elim (Bool-cases (str_eq t s.selected_team)) [
    | inl chosen ↦ rw (clicked t s named, chosen) refl
    | inr other ↦ rw (clicked t s named, other) refl
  ]

  -- The header offers one click for each team, in the order of the teams. If the name
  -- of a team is not empty, a click on it changes nothing where it is the chosen one, and otherwise
  -- chooses it and starts loading its risk, with no error left of an earlier team; either leaves the
  -- header with the same clicks.
  pub tabs_lem :
      (t : String) (s : RiskState F)
      → str_eq t "" ≡ false
      → (clicks (hero s) ≡ s.teams)
        × (choose_team t s ≡ (
            if str_eq t s.selected_team
            then s
            else record s { selected_team = t; loading = true; error = "" }))
        × (clicks (hero (choose_team t s)) ≡ clicks (hero s))
  tabs_lem t s named = (
    hero_offers s,
    clicked t s named,
    hero_offers (choose_team t s) ∙ choose_team-teams t s named ∙ sym (hero_offers s),
  )
