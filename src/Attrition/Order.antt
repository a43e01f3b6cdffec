-- ===== src/Attrition/Order.antt =====
-- The order of the engineers, and an analysis that is answered late.
use mathlib.Core.List.{Permᴰ}
use socio_technical_alignmen.Prelude.{
  ◌≡◌, refl, sym, ap, ◌∙◌, String, Bool, true, false, inl, inr, some, List, [], ◌∷◌, ◌++◌, filter,
  All, All-append, if◌then◌else◌, arith, leb, Bool-cases, str_eq,
}
use socio_technical_alignmen.Prelude.Sort.{sort, sort-perm, insert_sorted}
use socio_technical_alignmen.Api.{EngineerNode, Seniority, junior, mid, senior, staff}
use socio_technical_alignmen.Attrition.{
  AttritionState, AttritionResult, analysed, by_seniority, ranks_before, seniority_rank,
  choose_team, analysis_answered, start_analysis, can_run,
}

abbrev pub same_seniority : Seniority → Seniority → Bool
same_seniority junior junior = true
same_seniority mid mid = true
same_seniority senior senior = true
same_seniority staff staff = true
same_seniority _ _ = false

-- The engineers of one seniority, in the order of the list.
abbrev pub those : Seniority → List EngineerNode → List EngineerNode
those k nodes = filter (λ e. same_seniority k e.seniority) nodes

abbrev mid_on : List EngineerNode → List EngineerNode
mid_on nodes = those mid nodes ++ those junior nodes

abbrev senior_on : List EngineerNode → List EngineerNode
senior_on nodes = those senior nodes ++ mid_on nodes

abbrev blocks : List EngineerNode → List EngineerNode
blocks nodes = those staff nodes ++ senior_on nodes

same_seniority_sound : (j k : Seniority) → same_seniority j k ≡ true → j ≡ k
same_seniority_sound junior junior h = refl
same_seniority_sound mid mid h = refl
same_seniority_sound senior senior h = refl
same_seniority_sound staff staff h = refl
same_seniority_sound junior mid h = cc
same_seniority_sound junior senior h = cc
same_seniority_sound junior staff h = cc
same_seniority_sound mid junior h = cc
same_seniority_sound mid senior h = cc
same_seniority_sound mid staff h = cc
same_seniority_sound senior junior h = cc
same_seniority_sound senior mid h = cc
same_seniority_sound senior staff h = cc
same_seniority_sound staff junior h = cc
same_seniority_sound staff mid h = cc
same_seniority_sound staff senior h = cc

module _ (x : EngineerNode) where
  -- How the new engineer compares with those of one seniority.
  compares :
      (k : Seniority) (b : Bool) (nodes : List EngineerNode)
      → leb (seniority_rank k) (seniority_rank x.seniority) ≡ b
      → All (λ y. ranks_before x y ≡ b) (those k nodes)
  compares k b [] h = tt
  compares k b (e ∷ es) h = elim (Bool-cases (same_seniority k e.seniority)) [
    | inl same ↦
        rw (same, All, filter)
          (
            ap (λ (j : Seniority). leb (seniority_rank j) (seniority_rank x.seniority))
                  (sym (same_seniority_sound k e.seniority same))
                ∙ h,
            compares k b es h,
          )
    | inr other ↦ rw (other, All, filter) (compares k b es h)
  ]

  -- It goes behind the ones that it does not rank before, and in front of the others.
  skips :
      (above rest : List EngineerNode)
      → All (λ y. ranks_before x y ≡ false) above
      → insert_sorted ranks_before x (above ++ rest) ≡ above ++ insert_sorted ranks_before x rest
  unfolding insert_sorted
  skips [] rest h = refl
  skips (a ∷ above) rest (after, h) =
      rw (after, insert_sorted) (ap (λ (l : List EngineerNode). a ∷ l) (skips above rest h))

  stops :
      (rest : List EngineerNode)
      → All (λ y. ranks_before x y ≡ true) rest
      → insert_sorted ranks_before x rest ≡ x ∷ rest
  unfolding insert_sorted
  stops [] h = refl
  stops (y ∷ rest) (before, h) = rw (before, insert_sorted) refl

  those-cons_of :
      (j : Seniority) (b : Bool) (nodes : List EngineerNode)
      → same_seniority j x.seniority ≡ b
      → those j (x ∷ nodes) ≡ (if b then x ∷ those j nodes else those j nodes)
  those-cons_of j true nodes h = rw (h, filter) refl
  those-cons_of j false nodes h = rw (h, filter) refl

  -- A new engineer comes first among those of its seniority, and is not among the others.
  those-cons :
      (j k : Seniority) (nodes : List EngineerNode)
      → x.seniority ≡ k
      → those j (x ∷ nodes) ≡ (if same_seniority j k then x ∷ those j nodes else those j nodes)
  those-cons j k nodes h = those-cons_of j (same_seniority j k) nodes (ap (same_seniority j) h)

  module _ (nodes : List EngineerNode) where
    from_junior :
        leb 0 (seniority_rank x.seniority) ≡ true
        → All (λ y. ranks_before x y ≡ true) (those junior nodes)
    from_junior h = compares junior true nodes h

    from_mid :
        leb 1 (seniority_rank x.seniority) ≡ true
        → All (λ y. ranks_before x y ≡ true) (those mid nodes ++ those junior nodes)
    from_mid h =
        All-append _ (those mid nodes) _ (compares mid true nodes h)
          (from_junior (ground (arith, h)))

    from_senior :
        leb 2 (seniority_rank x.seniority) ≡ true
        → All
            (λ y. ranks_before x y ≡ true)
            (those senior nodes ++ (those mid nodes ++ those junior nodes))
    from_senior h =
        All-append _ (those senior nodes) _ (compares senior true nodes h)
          (from_mid (ground (arith, h)))

  -- The seniorities from the highest to the lowest, with the new engineer in front of its own.
  each_cons :
      (k : Seniority) (nodes : List EngineerNode)
      → x.seniority ≡ k
      → (if same_seniority staff k then x ∷ those staff nodes else those staff nodes)
          ++ ((if same_seniority senior k then x ∷ those senior nodes else those senior nodes)
              ++ ((if same_seniority mid k then x ∷ those mid nodes else those mid nodes)
                  ++ (if same_seniority junior k
                      then x ∷ those junior nodes
                      else those junior nodes)))
        ≡ blocks (x ∷ nodes)
  each_cons k nodes h = cc (
    those-cons staff k nodes h,
    those-cons senior k nodes h,
    those-cons mid k nodes h,
    those-cons junior k nodes h,
  )

  -- The engineer is put in front of its own seniority.
  places :
      (k : Seniority) (nodes : List EngineerNode)
      → x.seniority ≡ k
      → insert_sorted ranks_before x (blocks nodes) ≡ blocks (x ∷ nodes)
  places staff nodes h =
      stops (blocks nodes) (
        All-append _ (those staff nodes) (senior_on nodes) (compares staff true nodes (rw h refl))
          (from_senior nodes (rw h refl)))
      ∙ each_cons staff nodes h
  places senior nodes h =
      skips (those staff nodes) (senior_on nodes) (compares staff false nodes (rw h refl))
      ∙ ap (λ l. those staff nodes ++ l) (stops (senior_on nodes) (from_senior nodes (rw h refl)))
      ∙ each_cons senior nodes h
  places mid nodes h =
      skips (those staff nodes) (senior_on nodes) (compares staff false nodes (rw h refl))
      ∙ ap (λ l. those staff nodes ++ l)
          (skips (those senior nodes) (mid_on nodes) (compares senior false nodes (rw h refl))
            ∙ ap (λ l. those senior nodes ++ l) (stops (mid_on nodes) (from_mid nodes (rw h refl))))
      ∙ each_cons mid nodes h
  places junior nodes h =
      skips (those staff nodes) (senior_on nodes) (compares staff false nodes (rw h refl))
      ∙ ap (λ l. those staff nodes ++ l)
          (skips (those senior nodes) (mid_on nodes) (compares senior false nodes (rw h refl))
            ∙ ap (λ l. those senior nodes ++ l)
                (skips (those mid nodes) (those junior nodes) (compares mid false nodes (rw h refl))
                  ∙ ap (λ l. those mid nodes ++ l)
                      (stops (those junior nodes) (from_junior nodes (rw h refl)))))
      ∙ each_cons junior nodes h

by_seniority-perm : (nodes : List EngineerNode) → Permᴰ (by_seniority nodes) nodes
unfolding by_seniority
by_seniority-perm nodes = sort-perm ranks_before nodes

by_seniority-blocks : (nodes : List EngineerNode) → by_seniority nodes ≡ blocks nodes
unfolding by_seniority sort
by_seniority-blocks [] = refl
by_seniority-blocks (x ∷ nodes) =
    ap (insert_sorted ranks_before x) (by_seniority-blocks nodes) ∙ places x x.seniority nodes refl

-- The list of engineers holds the nodes of the snapshot, each as often as there: first the staff
-- engineers, then the senior, then the mid and last the junior ones, the engineers of one
-- seniority in the order of the snapshot.
pub by_seniority_lem :
    (nodes : List EngineerNode)
    → Permᴰ (by_seniority nodes) nodes
      × (by_seniority nodes
          ≡ those staff nodes ++ (those senior nodes ++ (those mid nodes ++ those junior nodes)))
by_seniority_lem nodes = (by_seniority-perm nodes, by_seniority-blocks nodes)

module _ {F : Type 0} where
  -- An analysis that is answered after another team was chosen shows its result under that team.
  analysis_answered_late :
      (team : String) (r : AttritionResult F) (s : AttritionState F)
      → str_eq team s.selected_team ≡ false
      → let after = analysis_answered (analysed r) (choose_team team (start_analysis s)) in
        (after.selected_team ≡ team) × (after.result ≡ some r)
  unfolding analysis_answered choose_team start_analysis
  analysis_answered_late team r s other = elim (Bool-cases (can_run s)) [
    | inl ready ↦ elim (Bool-cases (str_eq team "")) [
      | inl blank ↦ rw (ready, other, blank) (refl, refl)
      | inr set ↦ rw (ready, other, set) (refl, refl)
    ]
    | inr idle ↦ elim (Bool-cases (str_eq team "")) [
      | inl blank ↦ rw (idle, other, blank) (refl, refl)
      | inr set ↦ rw (idle, other, set) (refl, refl)
    ]
  ]
