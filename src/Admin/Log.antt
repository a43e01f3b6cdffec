-- ===== src/Admin/Log.antt =====
-- The numbering of the log.
use mathlib.Core.Path.{subst}
use socio_technical_alignmen.Prelude.{
  none, ℕ, suc, ◌<◌, ◌≤◌, ◌≡◌, refl, String, true, false, List, [], ◌∷◌, ◌++◌, arith, inl, inr,
  Bool-cases,
}
use socio_technical_alignmen.Value.{Value}
use socio_technical_alignmen.Admin.{
  AdminState, LogEntry, Level, Operation, Event, click, answered, refresh, stats_fetched, confirm,
  clear_log, Answer, failed, responded, StatsAnswer, unreachable, stats_ok, stats_error, add_log,
  start, finish, report, step, step_all, fetch_stats, set_busy, stats_answered, is_busy, is_absent,
  seed, clear_graph, clear_redis, announce, reset_started, reset_answered, reset_announcement,
  reset_report, info,
}

-- The ids rise, all above the given number and none above the second.
abbrev pub Rises : ℕ → List LogEntry → ℕ → Type 0
Rises low [] high = low ≤ high
Rises low (e ∷ es) high = (low < e.id) × Rises e.id es high

Rises-end :
    (low : ℕ) (es : List LogEntry) (high : ℕ) (e : LogEntry)
    → Rises low es high
    → e.id ≡ suc high
    → Rises low (es ++ (e ∷ [])) (suc high)
Rises-end low [] high e h next = (omega (arith, h, next), omega (arith, next))
Rises-end low (d ∷ es) high e (first, later) next = (first, Rises-end d.id es high e later next)

module _ {F : Type 0} where
  -- The log is numbered in its order, and no number is above the counter.
  abbrev pub IsNumbered : AdminState F → Type 0
  IsNumbered s = Rises 0 s.log s.log_id

  pub start_busy :
      (time : String) (op : Operation) (s : AdminState F)
      → is_busy op s ≡ true
      → s ≡ start time op s
  unfolding start
  start_busy time op s busy = rw busy refl

  pub start_idle :
      (time : String) (op : Operation) (s : AdminState F)
      → is_busy op s ≡ false
      → announce time op (set_busy op true s) ≡ start time op s
  unfolding start
  start_idle time op s idle = rw idle refl

  pub add_log-IsNumbered :
      (time : String) (level : Level) (message : String) (s : AdminState F)
      → IsNumbered s
      → IsNumbered (add_log time level message s)
  unfolding add_log
  add_log-IsNumbered time level message s h =
      Rises-end 0 s.log s.log_id
        (record { id = suc s.log_id; ts = time; level = level; message = message }) h refl

  announce-IsNumbered :
      (time : String) (op : Operation) (s : AdminState F)
      → IsNumbered s
      → IsNumbered (announce time op s)
  announce-IsNumbered time seed s h = add_log-IsNumbered time _ _ s h
  announce-IsNumbered time clear_graph s h =
      add_log-IsNumbered time _ _ (record s { confirm_target = none }) h
  announce-IsNumbered time clear_redis s h =
      add_log-IsNumbered time _ _ (record s { confirm_target = none }) h

  start-IsNumbered :
      (time : String) (op : Operation) (s : AdminState F)
      → IsNumbered s
      → IsNumbered (start time op s)
  start-IsNumbered time op s h = elim (Bool-cases (is_busy op s)) [
    | inl busy ↦ subst IsNumbered (start_busy time op s busy) h
    | inr idle ↦
        subst IsNumbered (start_idle time op s idle)
          (announce-IsNumbered time op (set_busy op true s) h)
  ]

  pub stats_answered-IsNumbered :
      (time : String) (a : StatsAnswer F) (s : AdminState F)
      → IsNumbered s
      → IsNumbered (stats_answered time a s)
  unfolding stats_answered
  stats_answered-IsNumbered time unreachable s h = add_log-IsNumbered time _ _ s h
  stats_answered-IsNumbered time (stats_ok a) s h = h
  stats_answered-IsNumbered time (stats_error m) s h = add_log-IsNumbered time _ _ s h

module _ {F : Type 0} (print : Value F → String) where
  pub reset_report-IsNumbered :
      (time : String) (op : Operation) (a : Answer F) (s : AdminState F)
      → IsNumbered s
      → IsNumbered (reset_report print time op a s)
  unfolding reset_report
  reset_report-IsNumbered time op failed s h = h
  reset_report-IsNumbered time op (responded ok status body) s h =
      elim (Bool-cases (is_absent body)) [
        | inl gone ↦ rw gone h
        | inr given ↦ elim (Bool-cases ok) [
          | inl fine ↦ rw (given, fine) (add_log-IsNumbered time _ _ s h)
          | inr bad ↦ rw (given, bad) (add_log-IsNumbered time _ _ s h)
        ]
      ]

module _ {F : Type 0} (print : Value F → String) (join : Value F → String) where
  report-IsNumbered :
      (time : String) (op : Operation) (a : Answer F) (s : AdminState F)
      → IsNumbered s
      → IsNumbered (report print join time op a s)
  unfolding report
  report-IsNumbered time op failed s h = h
  report-IsNumbered time op (responded ok status body) s h = elim (Bool-cases (is_absent body)) [
    | inl gone ↦ rw gone h
    | inr given ↦ elim (Bool-cases ok) [
      | inl fine ↦ rw (given, fine) (add_log-IsNumbered time _ _ s h)
      | inr bad ↦ rw (given, bad) (add_log-IsNumbered time _ _ s h)
    ]
  ]

  step-IsNumbered :
      (e : Event F) (s : AdminState F) → IsNumbered s → IsNumbered (step print join e s)
  unfolding step finish fetch_stats
  step-IsNumbered (click time op) s h = start-IsNumbered time op s h
  step-IsNumbered (answered time op a) s h = report-IsNumbered time op a s h
  step-IsNumbered refresh s h = h
  step-IsNumbered (stats_fetched time a) s h = stats_answered-IsNumbered time a s h
  step-IsNumbered (confirm t) s h = h
  step-IsNumbered clear_log s h = omega arith
  step-IsNumbered (reset_started time op) s h =
      add_log-IsNumbered time info (reset_announcement op) (set_busy op true s) h
  step-IsNumbered (reset_answered time op a) s h = reset_report-IsNumbered print time op a s h

  -- In every sequence of clicks, answers, refreshes and phases of the quick reset the
  -- ids of the log stay strictly rising in its order, and none is above the counter that the next id
  -- is taken from.
  pub step_all-IsNumbered :
      (es : List (Event F)) (s : AdminState F)
      → IsNumbered s
      → IsNumbered (step_all print join es s)
  unfolding step_all
  step_all-IsNumbered [] s h = h
  step_all-IsNumbered (e ∷ es) s h =
      step_all-IsNumbered es (step print join e s) (step-IsNumbered e s h)
