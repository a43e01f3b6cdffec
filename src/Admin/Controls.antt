-- ===== src/Admin/Controls.antt =====
-- apps/web/app/admin/page.tsx: the controls.
use socio_technical_alignmen.Admin.{
  AdminState, Operation, Target, clear_graph, clear_redis, graph, is_busy, redis, reset, seed,
}
use socio_technical_alignmen.Admin.Parts.{danger_btn, ghost_btn, op_card, primary_btn}
use socio_technical_alignmen.Html.{Html, children, choose, fragment, style, tag, text}
use socio_technical_alignmen.Prelude.{Bool, Option, [], false, none, not, some, true, ◌||◌, ◌∷◌}

-- What the page can be asked for: an operation, the opening of a confirmation or its
-- closing, the statistics, an empty log, and the confirmed quick reset.
pub data Action : Type 0 where
  press : Operation → Action
  ask : Option Target → Action
  refresh_stats : Action
  empty_log : Action
  confirm_reset : Action

abbrev pub is_open : Target → Option Target → Bool
is_open graph (some graph) = true
is_open redis (some redis) = true
is_open reset (some reset) = true
is_open t u = false

-- The cards of the three operations.
unfoldable pub operations_section : {F : Type 0} → AdminState F → Html Action
operations_section s =
    tag "div"
      (style (
          "display: grid; gridTemplateColumns: repeat(auto-fill, minmax(340px, 1fr)); gap: 20; marginBottom: 40"
          ∷ [])
        ∷ [])
      ((op_card "Seed demo data"
          "Insert 4 teams (Platform, Data Engineering, Frontend, Backend API) with 24 engineers and ~150 collaboration edges. Uses MERGE — safe to run on an existing graph."
          (primary_btn (not (not (is_busy seed s))) (press seed) (
            (choose ((is_busy seed s)) (text ("Seeding…")) (text ("Seed synthetic data →"))) ∷ [])))
        ∷ (op_card "Clear graph database"
            "Delete every node and relationship in Neo4j. This removes all engineers, candidates, and edges. Use before re-seeding for a clean slate."
            (choose ((is_open graph s.confirm_target))
              (fragment (
                children (
                  (danger_btn (not (not (is_busy clear_graph s))) (press clear_graph) (
                    (choose ((is_busy clear_graph s)) (text ("Clearing…"))
                      (text ("Confirm delete")))
                    ∷ []))
                  ∷ (ghost_btn false (ask none) ((text "Cancel") ∷ []))
                  ∷ [])))
              (danger_btn false (ask (some graph)) ((text "Clear database") ∷ []))))
        ∷ (op_card "Flush Redis cache"
            "Delete all stas:* keys — candidate profiles, simulation results, NLP extraction cache. Does not affect the graph database. Useful after data model changes."
            (choose ((is_open redis s.confirm_target))
              (fragment (
                children (
                  (danger_btn (not (not (is_busy clear_redis s))) (press clear_redis) (
                    (choose ((is_busy clear_redis s)) (text ("Flushing…")) (text ("Confirm flush")))
                    ∷ []))
                  ∷ (ghost_btn false (ask none) ((text "Cancel") ∷ []))
                  ∷ [])))
              (ghost_btn false (ask (some redis)) ((text "Flush cache") ∷ []))))
        ∷ [])

-- The quick reset.
unfoldable pub reset_section : {F : Type 0} → AdminState F → Html Action
reset_section s =
    tag "div"
      (style (
          "backgroundColor: #ffffff; borderRadius: 12; padding: 20px 28px; boxShadow: 0 1px 4px rgba(0,51,102,0.08); display: flex; alignItems: center; justifyContent: space-between; gap: 24; marginBottom: 40; flexWrap: wrap"
          ∷ [])
        ∷ [])
      ((tag "div" [] (
          (tag "div"
            (style (
                "fontFamily: var(--fb); fontSize: 9; fontWeight: 700; letterSpacing: 2px; textTransform: uppercase; color: var(--mid); marginBottom: 4"
                ∷ [])
              ∷ [])
            ((text "Quick reset") ∷ []))
          ∷ (tag "p" (style ("fontFamily: var(--fb); fontSize: 12; color: var(--mid)" ∷ []) ∷ []) (
              (text "Clear the graph and Redis, then immediately re-seed with fresh demo data.")
              ∷ []))
          ∷ []))
        ∷ (choose ((is_open reset s.confirm_target))
            (tag "div" (style ("display: flex; gap: 8" ∷ []) ∷ []) (
              (danger_btn
                ((not (not (is_busy clear_graph s)))
                  || ((not (not (is_busy clear_redis s))) || (not (not (is_busy seed s)))))
                confirm_reset ((text "Confirm reset") ∷ []))
              ∷ (ghost_btn false (ask none) ((text "Cancel") ∷ []))
              ∷ []))
            (danger_btn false (ask (some reset)) ((text "Clear + reseed") ∷ [])))
        ∷ [])
