-- ===== src/Workspace/View.antt =====
-- apps/web/app/simulate/SimulatorWorkspace.tsx: the page.
use socio_technical_alignmen.Html.{
  Html, attr, choose, each, on_text, spread, style, tag, text, when,
}
use socio_technical_alignmen.Number.{Number}
use socio_technical_alignmen.Prelude.{
  Bool, List, Option, String, [], false, none, not, some, str_eq, true, ◌||◌, ◌∷◌,
}
use socio_technical_alignmen.Store.Graph.{GraphState}
use socio_technical_alignmen.Workspace.{Panel, WorkspaceState, panels, shows}
use socio_technical_alignmen.Workspace.Section.{input_style, label_style}

-- The components that the page puts together, and what it fires.
pub record PageParts (F : Type 0) (A : Type 0) : Type 0 where
  pub section_a : Html A
  pub section_b : Html A
  pub graph : Html A
  pub panel : Panel F → Html A
  pub pick_team : String → A

abbrev has_text : Option String → Bool
has_text none = false
has_text (some m) = not (str_eq m "")

abbrev message_of : Option String → String
message_of none = ""
message_of (some m) = m

-- `candidateNodes.A ?? candidateNodes.B`.
abbrev has_candidate : {F : Type 0} → GraphState F → Bool
has_candidate g = elim g.candidate_a [
  | some c ↦ true
  | none ↦ elim g.candidate_b [ some c ↦ true | none ↦ false ]
]

-- The sidebar.
unfoldable pub sidebar :
    {F : Type 0} → {A : Type 0} → PageParts F A → List String → WorkspaceState F → Html A
sidebar parts teams s =
    tag "div"
      (style (
          "width: 272; flexShrink: 0; backgroundColor: #ffffff; borderRight: 1px solid var(--primary-10); overflowY: auto; padding: 20px 16px; display: flex; flexDirection: column; gap: 20"
          ∷ [])
        ∷ [])
      ((tag "div" [] (
          (tag "div" (style label_style ∷ []) (
            (tag "div" (style ("width: 24; height: 1; backgroundColor: var(--gold)" ∷ []) ∷ []) [])
            ∷ (text "Team")
            ∷ []))
          ∷ (tag "select"
              (attr "value" s.selected_team
                ∷ on_text "onChange" parts.pick_team
                ∷ style (spread input_style ("cursor: pointer" ∷ []))
                ∷ [])
              ((each (λ t. tag "option" (attr "value" t ∷ []) ((text t) ∷ [])) teams) ∷ []))
          ∷ (when ((has_text s.graph_error)) (
              tag "div"
                (style ("marginTop: 6; fontFamily: var(--fb); fontSize: 11; color: #E03448" ∷ [])
                  ∷ [])
                ((text ((message_of s.graph_error))) ∷ [])))
          ∷ []))
        ∷ (tag "div" (style ("height: 1; backgroundColor: var(--primary-10)" ∷ []) ∷ []) [])
        ∷ parts.section_a
        ∷ (tag "div" (style ("height: 1; backgroundColor: var(--primary-10)" ∷ []) ∷ []) [])
        ∷ parts.section_b
        ∷ (when ((has_candidate s.graph)) (
            tag "div"
              (style (
                  "fontFamily: var(--fb); fontSize: 10; color: var(--mid); textAlign: center; paddingTop: 4"
                  ∷ [])
                ∷ [])
              ((text "Press")
                ∷ (text (" "))
                ∷ (tag "kbd"
                    (style (
                        "fontFamily: Courier New; border: 1px solid var(--primary-10); borderRadius: 4; padding: 1px 5px; fontSize: 10"
                        ∷ [])
                      ∷ [])
                    ((text "Esc") ∷ []))
                ∷ (text (" "))
                ∷ (text "to reset graph")
                ∷ [])))
        ∷ [])

-- The graph.
unfoldable pub graph_area : {F : Type 0} → {A : Type 0} → PageParts F A → WorkspaceState F → Html A
graph_area parts s =
    tag "div"
      (style ("flex: 1; padding: 16; overflow: hidden; display: flex; flexDirection: column" ∷ [])
        ∷ [])
      ((choose s.is_loading_graph
          (tag "div"
            (style (
                "flex: 1; display: flex; alignItems: center; justifyContent: center; fontFamily: var(--fb); color: var(--mid); fontSize: 14"
                ∷ [])
              ∷ [])
            ((text "Loading team graph…") ∷ []))
          (tag "div" (style ("flex: 1; minHeight: 0" ∷ []) ∷ []) (parts.graph ∷ [])))
        ∷ [])

module _ {F : Type 0} ⦃n : Number F⦄ where
  -- The results; which panels are there is said by `panels`.
  unfoldable pub result_area : {A : Type 0} → PageParts F A → WorkspaceState F → Html A
  result_area parts s =
      tag "div"
        (style (
            "width: 308; flexShrink: 0; backgroundColor: var(--light); borderLeft: 1px solid var(--primary-10); overflowY: auto; padding: 14; display: flex; flexDirection: column; gap: 14"
            ∷ [])
          ∷ [])
        ((each parts.panel (panels s)) ∷ [])

  -- The page.
  unfoldable pub workspace_page :
      {A : Type 0} → PageParts F A → List String → WorkspaceState F → Html A
  workspace_page parts teams s =
      tag "div"
        (style (
            "display: flex; height: calc(100vh - 52px); backgroundColor: var(--light); overflow: hidden"
            ∷ [])
          ∷ [])
        ((sidebar parts teams s)
          ∷ (graph_area parts s)
          ∷ (when ((shows s.simulation.a || shows s.simulation.b)) (result_area parts s))
          ∷ [])
