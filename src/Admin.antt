-- ===== src/Admin.antt =====
-- apps/web/app/admin/page.tsx: the state of the admin console and its operations.
--
-- An operation is two functions: what happens up to its request, and what its answer does. The
-- `busy` that a click reads is the one of the current state. `time` is the formatted time of day.
pub mod Log
pub mod Operations
pub mod Reset
pub mod Parts
pub mod Controls
pub mod View
pub mod Offers
pub mod ResetLaws
mod Tests
use socio_technical_alignmen.Prelude.{
  ℕ, suc, String, Bool, true, false, Option, none, some, List, [], ◌∷◌, ◌++◌, lookup, insert,
  if◌then◌else◌, str_eq,
}
use socio_technical_alignmen.Value.{Value, undefined, null, str, get_field, obj, or_default}
use socio_technical_alignmen.Api.Client.{◌<>◌}

pub record Stats (F : Type 0) : Type 0 where
  pub teams : F
  pub engineers : F
  pub candidates : F
  pub edges : F
  pub redis_keys : F

pub data Level : Type 0 where
  info success failure : Level

pub record LogEntry : Type 0 where
  pub id : ℕ
  pub ts : String
  pub level : Level
  pub message : String

-- What a confirmation is open for; the quick reset sets and tests `reset`, which
-- the declared type leaves out.
pub data Target : Type 0 where
  graph redis reset : Target

-- `log_id` is the module's `_logId`.
pub record AdminState (F : Type 0) : Type 0 where
  pub stats : Option (Stats F)
  pub stats_loading : Bool
  pub busy : List (String × Bool)
  pub log : List LogEntry
  pub confirm_target : Option Target
  pub log_id : ℕ

-- What a request of an operation is answered with; a failure is one of the request or the body.
pub data Answer (F : Type 0) : Type 0 where
  failed : Answer F
  responded : Bool → String → Value F → Answer F

pub data StatsAnswer (F : Type 0) : Type 0 where
  unreachable : StatsAnswer F
  stats_ok : Stats F → StatsAnswer F
  stats_error : String → StatsAnswer F

-- The three operations.
pub data Operation : Type 0 where
  seed clear_graph clear_redis : Operation

abbrev pub key : Operation → String
key seed = "seed"
key clear_graph = "clearGraph"
key clear_redis = "clearRedis"

-- The events of the page. The last two are those of a phase of the confirmed quick reset that the
-- check of `busy` lets through; `Admin.Reset` puts its three phases together.
pub data Event (F : Type 0) : Type 0 where
  click : String → Operation → Event F
  answered : String → Operation → Answer F → Event F
  refresh : Event F
  stats_fetched : String → StatsAnswer F → Event F
  confirm : Option Target → Event F
  clear_log : Event F
  reset_started : String → Operation → Event F
  reset_answered : String → Operation → Answer F → Event F

abbrev pub reset_announcement : Operation → String
reset_announcement clear_graph = "Quick reset: clearing graph…"
reset_announcement clear_redis = "Quick reset: flushing Redis…"
reset_announcement seed = "Quick reset: seeding…"

module _ {F : Type 0} where
  unfoldable pub add_log : String → Level → String → AdminState F → AdminState F
  add_log time level message s = record s {
    log_id = suc s.log_id;
    log = s.log ++ (record { id = suc s.log_id; ts = time; level = level; message = message } ∷ []);
  }

  -- `busy[key]`.
  abbrev pub is_busy : Operation → AdminState F → Bool
  is_busy op s = elim (lookup (key op) s.busy) [ none ↦ false | some b ↦ b ]

  abbrev pub set_busy : Operation → Bool → AdminState F → AdminState F
  set_busy op b s = record s { busy = insert (key op) b s.busy }

  -- `fetchStats` up to its request, and from the answer on.
  unfoldable pub fetch_stats : AdminState F → AdminState F
  fetch_stats s = record s { stats_loading = true }

  unfoldable pub stats_answered : String → StatsAnswer F → AdminState F → AdminState F
  stats_answered time unreachable s =
      let logged = add_log time failure "Cannot reach API — is the docker stack running?" s in
      record logged { stats_loading = false }
  stats_answered time (stats_ok stats) s = record s { stats = some stats; stats_loading = false }
  stats_answered time (stats_error status) s =
      let logged = add_log time failure ("Stats fetch failed: HTTP " <> status) s in
      record logged { stats_loading = false }

  -- What an operation does before its request: the two deletions close the confirmation.
  abbrev pub announce : String → Operation → AdminState F → AdminState F
  announce time seed s = add_log time info "Seeding synthetic data…" s
  announce time clear_graph s =
      add_log time info "Clearing graph database…" (record s { confirm_target = none })
  announce time clear_redis s =
      add_log time info "Flushing Redis cache…" (record s { confirm_target = none })

  -- A click: nothing while the operation is busy.
  unfoldable pub start : String → Operation → AdminState F → AdminState F
  start time op s = if is_busy op s then s else announce time op (set_busy op true s)

  abbrev pub field_of : String → Value F → Value F
  field_of k (obj fs) = get_field k fs
  field_of k v = undefined

  abbrev pub is_absent : Value F → Bool
  is_absent undefined = true
  is_absent null = true
  is_absent v = false

  -- A phase of the quick reset up to its request.
  abbrev pub reset_start : String → Operation → AdminState F → AdminState F
  reset_start time op s = add_log time info (reset_announcement op) (set_busy op true s)

module _ {F : Type 0} (print : Value F → String) where
  abbrev reset_success : Operation → Value F → String
  reset_success clear_graph b =
      "Graph cleared — " <> print (field_of "nodes_deleted" b) <> " nodes deleted"
  reset_success clear_redis b =
      "Redis flushed — " <> print (field_of "keys_deleted" b) <> " keys deleted"
  reset_success seed b =
      "Seeded "
      <> print (field_of "engineers_seeded" b)
      <> " engineers, "
      <> print (field_of "edges_seeded" b)
      <> " edges"

  abbrev reset_prefix : Operation → String
  reset_prefix clear_graph = "Clear failed: "
  reset_prefix clear_redis = "Redis flush failed: "
  reset_prefix seed = "Seed failed: "

  -- What a phase logs of its answer.
  unfoldable pub reset_report : String → Operation → Answer F → AdminState F → AdminState F
  reset_report time op failed s = s
  reset_report time op (responded ok status body) s =
      if is_absent body
      then s
      else if ok
      then add_log time success (reset_success op body) s
      else add_log time failure (reset_prefix op <> print (field_of "detail" body)) s

  -- And from the answer on.
  abbrev pub reset_finish : String → Operation → Answer F → AdminState F → AdminState F
  reset_finish time op a s = fetch_stats (set_busy op false (reset_report time op a s))

module _ {F : Type 0} (print : Value F → String) (join : Value F → String) where
  -- The success messages; `print` is the text of a value in a template, and `join` that of
  -- `teams?.join(", ")`.
  abbrev success_message : Operation → Value F → String
  success_message seed body =
      "Seeded "
      <> print (field_of "engineers_seeded" body)
      <> " engineers · "
      <> print (field_of "edges_seeded" body)
      <> " edges · teams: "
      <> join (field_of "teams" body)
  success_message clear_graph body =
      "Graph cleared — "
      <> print (field_of "nodes_deleted" body)
      <> " nodes, "
      <> print (field_of "edges_deleted" body)
      <> " edges deleted"
  success_message clear_redis body =
      "Redis flushed — " <> print (field_of "keys_deleted" body) <> " stas:* keys deleted"

  abbrev error_prefix : Operation → String
  error_prefix seed = "Seed failed: "
  error_prefix clear_graph = "Clear failed: "
  error_prefix clear_redis = "Redis clear failed: "

  -- The rest of an operation; reading a property of `null` throws as a failed request does.
  unfoldable pub report : String → Operation → Answer F → AdminState F → AdminState F
  report time op failed s = s
  report time op (responded ok status_text body) s =
      if is_absent body
      then s
      else if ok
      then add_log time success (success_message op body) s
      else add_log time failure
          (error_prefix op <> print (or_default (field_of "detail" body) (str status_text))) s

  -- The `finally` of `run`: not busy, and the statistics are fetched again.
  unfoldable pub finish : String → Operation → Answer F → AdminState F → AdminState F
  finish time op answer s = fetch_stats (set_busy op false (report time op answer s))

  unfoldable pub step : Event F → AdminState F → AdminState F
  step (click time op) s = start time op s
  step (answered time op a) s = finish time op a s
  step refresh s = fetch_stats s
  step (stats_fetched time a) s = stats_answered time a s
  step (confirm t) s = record s { confirm_target = t }
  step clear_log s = record s { log = [] }
  step (reset_started time op) s = reset_start time op s
  step (reset_answered time op a) s = reset_finish print time op a s

  unfoldable pub step_all : List (Event F) → AdminState F → AdminState F
  step_all [] s = s
  step_all (e ∷ es) s = step_all es (step e s)
