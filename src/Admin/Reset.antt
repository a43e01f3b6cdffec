-- ===== src/Admin/Reset.antt =====
-- apps/web/app/admin/page.tsx: the quick reset, three operations in a row.
--
-- The handler is one asynchronous function; it is modelled as it runs when nothing else happens in
-- between. `Script` says what each request is answered with. The handler reads the `busy` of the
-- render in which it was clicked.
use socio_technical_alignmen.Prelude.{
  not, String, Bool, true, false, none, some, List, lookup, if◌then◌else◌,
}
use socio_technical_alignmen.Value.{Value}
use socio_technical_alignmen.Admin.{
  AdminState, Operation, seed, clear_graph, clear_redis, Answer, failed, responded, StatsAnswer,
  fetch_stats, stats_answered, set_busy, key, is_absent, reset_start, reset_report,
}

pub record Script (F : Type 0) : Type 0 where
  pub answer : Operation → Answer F
  pub stats : Operation → StatsAnswer F

-- `busy[key]` of the click's render.
abbrev pub was_busy : Operation → List (String × Bool) → Bool
was_busy op busy = elim (lookup (key op) busy) [ none ↦ false | some b ↦ b ]

module _ {F : Type 0} where
  -- Whether the function given to `run` throws: the request fails, or its body has no properties.
  unfoldable pub throws : Answer F → Bool
  throws failed = true
  throws (responded ok status body) = is_absent body

  -- Whether the handler goes on after a phase.
  unfoldable pub goes_on : List (String × Bool) → Script F → Operation → Bool
  goes_on busy c op = if was_busy op busy then true else not (throws (c.answer op))

module _ {F : Type 0} (print : Value F → String) where
  -- One `run`, with the state after it; the statistics are fetched before it returns or throws.
  unfoldable pub phase :
      List (String × Bool) → String → Script F → Operation → AdminState F → AdminState F
  phase busy time c op s =
      if was_busy op busy
      then s
      else stats_answered time (c.stats op) (
          fetch_stats
            (set_busy op false (reset_report print time op (c.answer op) (reset_start time op s))))

  -- The whole handler.
  unfoldable pub quick_reset : String → Script F → AdminState F → AdminState F
  quick_reset time c s =
      let cleared = phase s.busy time c clear_graph (record s { confirm_target = none }) in
      let flushed = phase s.busy time c clear_redis cleared in
      if goes_on s.busy c clear_graph
      then (if goes_on s.busy c clear_redis then phase s.busy time c seed flushed else flushed)
      else cleared
