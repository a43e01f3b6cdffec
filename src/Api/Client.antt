-- ===== src/Api/Client.antt =====
-- apps/web/lib/api/graph.ts and simulation.ts: the request paths and the treatment of a response.
--
-- The network is a parameter: a request is answered by a response or fails with a message. The
-- body is read by `res.json()`, whose failure is such a failure too.
use Prim.Native.String.{◌++◌ as str_append}
use socio_technical_alignmen.Prelude.{
  ℕ, String, Bool, Option, none, some, if◌then◌else◌, str_eq, ◌==◌,
}

infixl 65 ◌<>◌
abbrev pub ◌<>◌ : String → String → String
s <> t = str_append s t

-- A promise's outcome: a value, or the message of the error that rejects it.
pub data Outcome (A : Type 0) : Type 0 where
  value : A → Outcome A
  rejected : String → Outcome A

-- What `fetch` gives: a status, its text, and what reading the body by `json()` gives.
pub record Response (B : Type 0) : Type 0 where
  pub ok : Bool
  pub status : ℕ
  pub status_text : String
  pub json : Outcome B

module _ (print : ℕ → String) where
  -- `apiFetch`: an error status rejects with the status and the path.
  unfoldable pub api_fetch : {B : Type 0} → String → Outcome (Response B) → Outcome B
  api_fetch path (rejected message) = rejected message
  api_fetch path (value res) =
      if res.ok then res.json else rejected ("API " <> print res.status <> ": " <> path)

-- The path of `getTeamGraph`; an empty snapshot id counts as none.
unfoldable pub get_team_graph_path : String → Option String → String
get_team_graph_path team_id none = "/graph/teams/" <> team_id <> "/snapshot"
get_team_graph_path team_id (some snapshot_id) =
    if str_eq snapshot_id ""
    then "/graph/teams/" <> team_id <> "/snapshot"
    else "/graph/teams/" <> team_id <> "/snapshot/" <> snapshot_id

unfoldable pub list_snapshots_path : String → String
list_snapshots_path team_id = "/graph/teams/" <> team_id <> "/snapshots"

unfoldable pub get_centrality_scores_path : String → String → String
get_centrality_scores_path team_id snapshot_id =
    "/graph/teams/" <> team_id <> "/snapshot/" <> snapshot_id <> "/centrality"

unfoldable pub list_teams_path : String
list_teams_path = "/graph/teams"

abbrev found : {R : Type 0} → Outcome R → Outcome (Option R)
found (value r) = value (some r)
found (rejected message) = rejected message

-- `fetchSimulationResult`: 404 is "no such result", any other error status rejects.
unfoldable pub fetch_simulation_result : {R : Type 0} → Outcome (Response R) → Outcome (Option R)
fetch_simulation_result (rejected message) = rejected message
fetch_simulation_result (value res) =
    if res.status == 404
    then value none
    else if res.ok
    then found res.json
    else rejected ("Failed to fetch simulation result: " <> res.status_text)
