-- ===== src/Admin/Operations.antt =====
-- The operations of the console: when they are busy, and what they log.
use mathlib.Core.Path.{subst}
use socio_technical_alignmen.Prelude.{
  ◌+◌, ◌≡◌, refl, sym, ◌∙◌, String, Bool, true, false, arith, inl, inr, Bool-cases, length,
  length-append, lookup-insert, eq_refl,
}
use socio_technical_alignmen.Value.{Value}
use socio_technical_alignmen.Admin.{
  AdminState, Operation, Answer, failed, add_log, start, finish, report, fetch_stats, is_busy,
  set_busy, key, announce, seed, clear_graph, clear_redis,
}
use socio_technical_alignmen.Admin.Log.{start_busy, start_idle}

module _ {F : Type 0} where
  is_busy-set_busy :
      (op : Operation) (b : Bool) (s : AdminState F) → is_busy op (set_busy op b s) ≡ b
  is_busy-set_busy op b s =
      ground (arith, lookup-insert (key op) (key op) b s.busy, eq_refl (key op))

  announces :
      (time : String) (op : Operation) (s : AdminState F)
      → (is_busy op (announce time op s) ≡ is_busy op s)
        × (length (announce time op s).log ≡ length s.log + 1)
  unfolding add_log
  announces time seed s = (refl, length-append s.log _)
  announces time clear_graph s = (refl, length-append s.log _)
  announces time clear_redis s = (refl, length-append s.log _)

  -- A click makes its operation busy; it logs one entry if the operation was idle, and changes
  -- nothing if it was busy.
  start_lem :
      (time : String) (op : Operation) (s : AdminState F)
      → (is_busy op (start time op s) ≡ true)
        × (is_busy op s ≡ true → start time op s ≡ s)
        × (is_busy op s ≡ false → length (start time op s).log ≡ length s.log + 1)
  start_lem time op s = elim (Bool-cases (is_busy op s)) [
    | inl busy ↦ (
      subst (λ (t : AdminState F). is_busy op t ≡ true) (start_busy time op s busy) busy,
      λ h. sym (start_busy time op s busy),
      λ h. absurd (ground (arith, h, busy)),
    )
    | inr idle ↦
        let (flagged, longer) = announces time op (set_busy op true s) in
        (
          subst (λ (t : AdminState F). is_busy op t ≡ true) (start_idle time op s idle)
              (flagged ∙ is_busy-set_busy op true s),
          λ h. absurd (ground (arith, h, idle)),
          λ h.
              subst (λ (t : AdminState F). length t.log ≡ length s.log + 1)
                (start_idle time op s idle) longer,
        )
  ]

module _ {F : Type 0} (print : Value F → String) (join : Value F → String) where
  -- Whatever a request is answered with, its operation is idle again and the statistics are being
  -- fetched; a failed request leaves the log as it was.
  pub finish_lem :
      (time : String) (op : Operation) (a : Answer F) (s : AdminState F)
      → (is_busy op (finish print join time op a s) ≡ false)
        × ((finish print join time op a s).stats_loading ≡ true)
        × ((finish print join time op failed s).log ≡ s.log)
  unfolding finish fetch_stats report
  finish_lem time op a s = (is_busy-set_busy op false (report print join time op a s), refl, refl)
