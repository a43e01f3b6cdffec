-- ===== src/Admin/Offers.antt =====
-- apps/web/app/admin/page.tsx: what the page can be asked for.
use socio_technical_alignmen.Prelude.{
  String, Bool, ◌||◌, ◌≡◌, refl, none, some, List, [], ◌∷◌, ◌++◌, if◌then◌else◌, arith, inl, inr,
  Bool-cases, is_empty, str_eq, reverse, append_assoc, append-nil,
}
use socio_technical_alignmen.Number.{Number}
use socio_technical_alignmen.Html.Queries.{clicks, clicks-each_none}
use socio_technical_alignmen.Ui.{
  NavProps, nav, footer, eyebrow, clerk_auth_cluster, dev_nav_links, nav_links,
}
use socio_technical_alignmen.Admin.{
  AdminState, LogEntry, Target, graph, redis, reset, is_busy, seed, clear_graph, clear_redis,
}
use socio_technical_alignmen.Admin.Parts.{is_minus_one, primary_btn, danger_btn, ghost_btn, op_card}
use socio_technical_alignmen.Admin.Controls.{
  Action, press, ask, refresh_stats, empty_log, confirm_reset, is_open, operations_section,
  reset_section,
}
use socio_technical_alignmen.Admin.View.{
  admin_page, hero, log_section, log_entry, StatItem, stat_view, stat_items,
}

abbrev pub unless : {A : Type 0} → Bool → A → List A
unless off a = if off then [] else a ∷ []

offers_entry : (e : LogEntry) → clicks {A = Action} (log_entry e) ≡ []
unfolding clicks log_entry
offers_entry e = refl

-- The navigation has links only.
offers_nav : {A : Type 0} → (props : NavProps) → clicks {A = A} (nav props) ≡ []
unfolding clicks nav clerk_auth_cluster dev_nav_links nav_links
offers_nav props = elim (Bool-cases props.has_valid_clerk_key) [
  | inl clerk ↦ rw clerk refl
  | inr dev ↦ rw dev refl
]

module _ {F : Type 0} where
  -- A deletion asks for a confirmation, and is offered in the confirmation while it is not busy.
  abbrev pub guarded : Target → Action → Bool → AdminState F → List Action
  guarded t a busy s =
      if is_open t s.confirm_target then unless busy a ++ (ask none ∷ []) else ask (some t) ∷ []

  abbrev pub any_busy : AdminState F → Bool
  any_busy s = is_busy clear_graph s || is_busy clear_redis s || is_busy seed s

  -- What the page should offer, from its top to its bottom.
  abbrev pub offered : AdminState F → List Action
  offered s =
      unless s.stats_loading refresh_stats
      ++ (unless (is_busy seed s) (press seed)
          ++ (guarded graph (press clear_graph) (is_busy clear_graph s) s
              ++ (guarded redis (press clear_redis) (is_busy clear_redis s) s
                  ++ (guarded reset confirm_reset (any_busy s) s
                      ++ unless (is_empty s.log) empty_log))))

  offers_operations :
      (s : AdminState F)
      → clicks (operations_section s) ≡ (
          unless (is_busy seed s) (press seed)
          ++ (guarded graph (press clear_graph) (is_busy clear_graph s) s
              ++ guarded redis (press clear_redis) (is_busy clear_redis s) s))
  unfolding clicks operations_section primary_btn danger_btn ghost_btn op_card
  offers_operations s = ground (
    arith,
    Bool-cases (is_busy seed s),
    Bool-cases (is_busy clear_graph s),
    Bool-cases (is_busy clear_redis s),
    Bool-cases (is_open graph s.confirm_target),
    Bool-cases (is_open redis s.confirm_target),
  )

  offers_reset :
      (s : AdminState F) → clicks (reset_section s) ≡ guarded reset confirm_reset (any_busy s) s
  unfolding clicks reset_section danger_btn ghost_btn
  offers_reset s = ground (
    arith,
    Bool-cases (is_busy seed s),
    Bool-cases (is_busy clear_graph s),
    Bool-cases (is_busy clear_redis s),
    Bool-cases (is_open reset s.confirm_target),
  )

  offers_log : (s : AdminState F) → clicks (log_section s) ≡ unless (is_empty s.log) empty_log
  unfolding clicks log_section
  offers_log s = elim (Bool-cases (is_empty s.log)) [
    | inl none_yet ↦ rw none_yet refl
    | inr some_log ↦
        rw (some_log, clicks-each_none {A = Action} log_entry (reverse s.log) offers_entry) refl
  ]

module _ {F : Type 0} ⦃n : Number F⦄ where
  offers_stat : (i : StatItem F) → clicks {A = Action} (stat_view i) ≡ []
  unfolding clicks stat_view
  offers_stat i = ground (arith, Bool-cases (is_minus_one i.shown), Bool-cases (str_eq i.sub ""))

  offers_hero : (s : AdminState F) → clicks (hero s) ≡ unless s.stats_loading refresh_stats
  unfolding clicks hero eyebrow
  offers_hero s =
      rw (clicks-each_none {A = Action} stat_view (stat_items s) offers_stat)
        (ground (arith, Bool-cases s.stats_loading))

  -- What a click on the page can fire is exactly this, from the top of the page to its bottom: the
  -- statistics unless they are loading; seeding unless it is busy; for each of the two deletions and
  -- the quick reset the opening of its confirmation, or, once that is open, the operation itself
  -- (unless it, or for the reset any of the three, is busy) and the way back; and the emptying of a
  -- log that has an entry.
  pub admin_page_offers :
      (props : NavProps) (date : String) (s : AdminState F)
      → clicks (admin_page props date s) ≡ offered s
  unfolding clicks admin_page footer
  admin_page_offers props date s =
      rw
        (
          offers_nav {A = Action} props,
          offers_hero s,
          offers_operations s,
          offers_reset s,
          offers_log s,
        )
        (simp (append_assoc, append-nil))
