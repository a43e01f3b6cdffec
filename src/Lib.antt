-- ===== src/Lib.antt =====
-- The web client of the socio-technical alignment simulator (apps/web), in TypeScript.
--
-- The client shows a team's collaboration graph, lets the user stage one or two candidates, runs
-- a simulation for each over a stream of events, and shows the results. Its state is in three
-- stores; hooks and components call the stores' operations, and pages keep a state of their own
-- beside them.
--
-- The parts and their files:
--   Prelude       lists, options, text as UTF-16 code units, dictionaries, a stable sort
--   Number        JavaScript's numbers as an interface, with the laws of their order apart;
--                 Number.Scaled is an instance, on which the tests run
--   Value         dynamic values, what JSON.parse returns
--   Api           apps/web/lib/api/types.ts; Api.Client is graph.ts and simulation.ts beside it
--   Store         apps/web/lib/store: Store.Simulation (useSimulationStore), Store.Graph
--                 (useGraphStore), Store.Candidate (useCandidateStore)
--   Stream        apps/web/lib/hooks/useSimulationStream.ts; `run` calls Store.Simulation
--   GraphUtils    apps/web/lib/graph-utils.ts
--   Drag          the drags between CandidateCard, CandidateSlot (apps/web/components/simulator)
--                 and TeamGraph (apps/web/components/graph)
--   TeamGraph     apps/web/components/graph/TeamGraph.tsx, its drawing in TeamGraph.Canvas
--   Workspace     apps/web/app/simulate/SimulatorWorkspace.tsx, which joins the two stores, the
--                 stream and the drags
--   Loading       GraphSnapshotSelector.tsx, GraphLoader.tsx and the health of a team
--   Report        the report page (apps/web/app/report), and how a result is judged
--   Comparison    ComparisonPanel.tsx
--   RingChart     CentralityRingChart.tsx
--   Attrition     apps/web/app/attrition/page.tsx
--   Risk          apps/web/app/risk/page.tsx
--   Dashboard     apps/web/app/dashboard/page.tsx
--   TeamPages     apps/web/app/teams
--   CandidatePages  apps/web/app/candidates: a candidate's page and the intake form
--   Simulator     the views of SimulationResultsPanel, SimulationProgressBar, CandidateCard and
--                 CandidateSlot (apps/web/components/simulator)
--   GraphParts    EngineerPanel, NodeTooltip and the view of GraphSnapshotSelector
--                 (apps/web/components/graph)
--   Ui            apps/web/components/ui, what the pages share
--   Html          the tree that a component renders, its texts, and what a click on it can fire
--   Admin         apps/web/app/admin/page.tsx
--
-- A store's operation is a function from state to state, under the name of the source in snake
-- case (setSlotResult is set_slot_result). An operation that aborts streams returns the numbers of
-- the AbortControllers it aborts as well. A handler that waits is one function for each part
-- between two waits, so an interleaving is an order of calls. `null` and a missing value are
-- `none`; where a cast lets an unchecked value through, the value is a dynamic one.
--
-- Loops are structural recursion on their input. The read loop of the stream runs over the list of
-- reads that the body delivers before it ends. The collision force counts its iterations down, and
-- its loop over the nodes is bounded by their number. The quick reset of the console and the data of
-- a page rendered on the server are one function each, of everything that the network answers; the
-- phases of the quick reset are events of the console as well.
--
-- An effect on a chosen team is part of the function that chooses the team, and runs when the choice
-- changes. The transition of the snapshot selector is taken as React 18 documents it: it counts as
-- pending until its function first waits.
--
-- Parameters stand for what is not in the repository: the answers of the network, JSON.parse and
-- JSON.stringify, the formatting of numbers and times, Math.sqrt, Math.log1p and the trigonometric
-- functions. Numbers are the interface Number; a theorem that needs their order takes the laws
-- IsOrdered, which leave NaN out and say nothing of rounding.
--
-- A view is a function from what the component reads to a tree, cut where the source's JSX has a
-- part of its own. Styles stand in it as the source writes them; a number that is computed goes
-- through `to_text`. A handler stands as the event that the component's state reacts to.
--
-- Not modelled: the Python services (apps/api, simulation, pipelines), the graph migrations, the
-- deployment, the browser tests, the layout library of the graph and the effect that sets its
-- strengths, and the pages of sign-in and information.
pub mod Prelude
pub mod Number
pub mod Value
pub mod Api
pub mod Simulator
pub mod Store
pub mod Stream
pub mod GraphParts
pub mod GraphUtils
pub mod Samples
pub mod Dashboard
pub mod Drag
pub mod TeamGraph
pub mod TeamPages
pub mod Workspace
pub mod Admin
pub mod Report
pub mod Html
pub mod CandidatePages
pub mod Comparison
pub mod RingChart
pub mod Attrition
pub mod Loading
pub mod Ui
pub mod Risk
