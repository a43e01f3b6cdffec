-- ===== src/Admin/ResetLaws.antt =====
-- What the quick reset leaves behind.
use socio_technical_alignmen.Prelude.{
  ◌≡◌, refl, ◌∙◌, ap, String, Bool, true, false, none, List, inl, inr, arith, Bool-cases, insert,
  lookup-insert,
}
use socio_technical_alignmen.Value.{Value}
use socio_technical_alignmen.Admin.{
  AdminState, Operation, seed, clear_graph, clear_redis, Answer, failed, responded, StatsAnswer,
  unreachable, stats_ok, stats_error, add_log, fetch_stats, stats_answered, set_busy, is_busy, key,
  is_absent, info, reset_announcement, reset_report,
}
use socio_technical_alignmen.Admin.Log.{
  IsNumbered, add_log-IsNumbered, reset_report-IsNumbered, stats_answered-IsNumbered,
}
use socio_technical_alignmen.Admin.Reset.{Script, was_busy, phase, goes_on, quick_reset}

module _ {F : Type 0} where
  -- Nothing runs: no operation is busy.
  abbrev pub IsIdle : AdminState F → Type 0
  IsIdle s =
      (is_busy seed s ≡ false) × (is_busy clear_graph s ≡ false) × (is_busy clear_redis s ≡ false)

  -- Idle with the confirmation closed, and numbered.
  abbrev pub IsReady : AdminState F → Type 0
  IsReady s = IsIdle s × (s.confirm_target ≡ none) × IsNumbered s

  is_busy-around :
      (op asked : Operation) (s : AdminState F)
      → is_busy asked s ≡ false
      → is_busy asked (set_busy op false (set_busy op true s)) ≡ false
  is_busy-around op asked s h =
      let after = lookup-insert (key op) (key asked) false (insert (key op) true s.busy) in
      let before = lookup-insert (key op) (key asked) true s.busy in
      ground (arith, after, before, h)

  stats_answered-frame :
      (time : String) (a : StatsAnswer F) (s : AdminState F)
      → ((stats_answered time a s).busy ≡ s.busy)
        × ((stats_answered time a s).confirm_target ≡ s.confirm_target)
        × ((stats_answered time a s).stats_loading ≡ false)
  unfolding stats_answered add_log
  stats_answered-frame time unreachable s = (refl, refl, refl)
  stats_answered-frame time (stats_ok x) s = (refl, refl, refl)
  stats_answered-frame time (stats_error m) s = (refl, refl, refl)

module _ {F : Type 0} (print : Value F → String) where
  reset_report-frame :
      (time : String) (op : Operation) (a : Answer F) (s : AdminState F)
      → ((reset_report print time op a s).busy ≡ s.busy)
        × ((reset_report print time op a s).confirm_target ≡ s.confirm_target)
  unfolding reset_report add_log
  reset_report-frame time op failed s = (refl, refl)
  reset_report-frame time op (responded ok status body) s = elim (Bool-cases (is_absent body)) [
    | inl gone ↦ rw gone (refl, refl)
    | inr given ↦ elim (Bool-cases ok) [
      | inl fine ↦ rw (given, fine) (refl, refl)
      | inr bad ↦ rw (given, bad) (refl, refl)
    ]
  ]

  -- `busy` after a phase: the phase's own flag is put and taken away.
  phase-busy :
      (time : String) (c : Script F) (op : Operation) (s : AdminState F)
      (busy : List (String × Bool))
      → was_busy op busy ≡ false
      → ((phase print busy time c op s).busy ≡ (set_busy op false (set_busy op true s)).busy)
        × ((phase print busy time c op s).confirm_target ≡ s.confirm_target)
        × ((phase print busy time c op s).stats_loading ≡ false)
        × (IsNumbered s → IsNumbered (phase print busy time c op s))
  unfolding phase fetch_stats add_log
  phase-busy time c op s busy idle = rw idle (
      let logged = add_log time info (reset_announcement op) (set_busy op true s) in
      let reported = reset_report print time op (c.answer op) logged in
      let (same_busy, same_target) = reset_report-frame time op (c.answer op) logged in
      let (end_busy, end_target, loaded) =
        stats_answered-frame time (c.stats op) (fetch_stats (set_busy op false reported)) in
      (
        end_busy ∙ ap (insert (key op) false) same_busy,
        end_target ∙ same_target,
        loaded,
        λ h.
            stats_answered-IsNumbered time (c.stats op) (fetch_stats (set_busy op false reported)) (
              reset_report-IsNumbered print time op (c.answer op) logged
                (add_log-IsNumbered time info (reset_announcement op) (set_busy op true s) h)),
      ))

  -- A phase leaves its operation idle, and the others as they were.
  phase-IsIdle :
      (time : String) (c : Script F) (op : Operation) (s : AdminState F)
      (busy : List (String × Bool))
      → was_busy op busy ≡ false
      → IsIdle s
      → IsIdle (phase print busy time c op s)
  phase-IsIdle time c op s busy idle (i, j, k) =
      let (same, _, _, _) = phase-busy time c op s busy idle in
      rw same (
        is_busy-around op seed s i,
        is_busy-around op clear_graph s j,
        is_busy-around op clear_redis s k,
      )

  phase-IsReady :
      (time : String) (c : Script F) (op : Operation) (s : AdminState F)
      (busy : List (String × Bool))
      → was_busy op busy ≡ false
      → IsReady s
      → IsReady (phase print busy time c op s)
        × ((phase print busy time c op s).stats_loading ≡ false)
  phase-IsReady time c op s busy idle (free, closed, numbered) =
      let (_, same_target, loaded, keeps) = phase-busy time c op s busy idle in
      ((phase-IsIdle time c op s busy idle free, same_target ∙ closed, keeps numbered), loaded)

  -- If no operation is busy when the confirmed quick reset starts, then whatever its requests are
  -- answered with, also when it stops half-way, afterwards no operation is busy, the confirmation
  -- is closed, the log is still numbered in its order and the statistics are not loading.
  pub quick_reset-IsReady :
      (time : String) (c : Script F) (s : AdminState F)
      → IsIdle s
      → IsNumbered s
      → IsReady (quick_reset print time c s) × ((quick_reset print time c s).stats_loading ≡ false)
  unfolding quick_reset
  quick_reset-IsReady time c s free numbered =
      let (no_seed, no_graph, no_redis) = free in
      let opened : AdminState F = record s { confirm_target = none } in
      let one = phase-IsReady time c clear_graph opened s.busy no_graph (free, refl, numbered) in
      let two = phase-IsReady time c clear_redis _ s.busy no_redis one.0 in
      let three = phase-IsReady time c seed _ s.busy no_seed two.0 in
      elim (Bool-cases (goes_on s.busy c clear_graph)) [
        | inl on_to_redis ↦ elim (Bool-cases (goes_on s.busy c clear_redis)) [
          | inl on_to_seed ↦ rw (on_to_redis, on_to_seed) three
          | inr stops ↦ rw (on_to_redis, stops) two
        ]
        | inr stops ↦ rw stops one
      ]
