-- ===== src/TeamPages/Agreement.antt =====
-- apps/web/app/teams/page.tsx and apps/web/app/dashboard/page.tsx: the same numbers.
use socio_technical_alignmen.Prelude.{
  ℕ, ◌+◌, ◌≡◌, refl, ap, ◌∙◌, String, List, [], ◌∷◌, length, map, inl, inr, Bool-cases,
}
use socio_technical_alignmen.Number.{Number}
use socio_technical_alignmen.Api.{CentralityScore}
use socio_technical_alignmen.Api.Client.{Outcome, value, rejected, Response}
use socio_technical_alignmen.Loading.{
  TeamHealth, compute_health, sum_closeness, health_color, fetch_list,
}
use socio_technical_alignmen.Dashboard.{all_health, more_health, engineers_total, sum_engineers}
use socio_technical_alignmen.TeamPages.{
  TeamSummary, summary, summaries, health_badge, total_engineers, sum_scores,
}

abbrev pub outcome_map : {A B : Type 0} → (A → B) → Outcome A → Outcome B
outcome_map f (rejected m) = rejected m
outcome_map f (value a) = value (f a)

module _ {F : Type 0} ⦃n : Number F⦄ where
  -- What the dashboard computes, without the hub.
  abbrev pub without_hub : TeamHealth F → TeamSummary F
  without_hub h = record {
    team_id = h.team_id;
    engineer_count = h.engineer_count;
    avg_closeness = h.avg_closeness;
  }

  sums_agree : (acc : F) (cs : List (CentralityScore F)) → sum_scores acc cs ≡ sum_closeness acc cs
  unfolding sum_closeness
  sums_agree acc [] = refl
  sums_agree acc (c ∷ cs) = sums_agree (n.add acc c.closeness) cs

  summary_agrees :
      (team : String) (cs : List (CentralityScore F))
      → summary team cs ≡ without_hub (compute_health team cs)
  unfolding summary compute_health
  summary_agrees team [] = refl
  summary_agrees team (c ∷ cs) =
      ap
        (λ (total : F). record {
          team_id = team;
          engineer_count = length (c ∷ cs);
          avg_closeness = n.div total (n.lit (length (c ∷ cs)) 0);
        })
        (sums_agree (n.lit 0 0) (c ∷ cs))

  -- One team more on either page.
  abbrev more_summaries :
      String
      → Outcome (List (CentralityScore F))
      → Outcome (List (TeamSummary F))
      → Outcome (List (TeamSummary F))
  more_summaries t o p = elim o [
    | rejected m ↦ rejected m
    | value cs ↦ elim p [ rejected m ↦ rejected m | value hs ↦ value (summary t cs ∷ hs) ]
  ]

  one_more :
      (t : String) (o : Outcome (List (CentralityScore F))) (q : Outcome (List (TeamHealth F)))
      → more_summaries t o (outcome_map (map without_hub) q)
        ≡ outcome_map (map without_hub) (more_health t o q)
  one_more t (rejected m) q = refl
  one_more t (value cs) (rejected m) = refl
  one_more t (value cs) (value hs) =
      ap (λ (s : TeamSummary F). value (s ∷ map without_hub hs)) (summary_agrees t cs)

  summaries_agree :
      (scores : String → Outcome (Response (List (CentralityScore F)))) (ts : List String)
      → summaries scores ts ≡ outcome_map (map without_hub) (all_health scores ts)
  unfolding summaries all_health
  summaries_agree scores [] = refl
  summaries_agree scores (t ∷ ts) =
      ap (more_summaries t (fetch_list (scores t))) (summaries_agree scores ts)
      ∙ one_more t (fetch_list (scores t)) (all_health scores ts)

  totals_agree :
      (acc : ℕ) (hs : List (TeamHealth F))
      → total_engineers acc (map without_hub hs) ≡ sum_engineers acc hs
  unfolding total_engineers sum_engineers
  totals_agree acc [] = refl
  totals_agree acc (h ∷ hs) = totals_agree (acc + h.engineer_count) hs

  badges_agree :
      (avg : F)
      → ((health_badge avg).fill ≡ (health_color avg).fill)
        × ((health_badge avg).label ≡ (health_color avg).label)
  unfolding health_badge health_color
  badges_agree avg = elim (Bool-cases (n.le (n.lit 55 2) avg)) [
    | inl high ↦ rw high (refl, refl)
    | inr less ↦ elim (Bool-cases (n.le (n.lit 40 2) avg)) [
      | inl middle ↦ rw (less, middle) (refl, refl)
      | inr low ↦ rw (less, low) (refl, refl)
    ]
  ]

  -- From the same answers of the API the overview of the teams and the dashboard compute the same:
  -- both fail, or both list the same teams with the same numbers of engineers and averages; the
  -- engineers add up to the same total, and an average is shown with the same colour and label.
  pub pages_agree :
      (scores : String → Outcome (Response (List (CentralityScore F)))) (ts : List String)
      (hs : List (TeamHealth F)) (avg : F)
      → (summaries scores ts ≡ outcome_map (map without_hub) (all_health scores ts))
        × (total_engineers 0 (map without_hub hs) ≡ engineers_total hs)
        × ((health_badge avg).fill ≡ (health_color avg).fill)
        × ((health_badge avg).label ≡ (health_color avg).label)
  unfolding engineers_total
  pages_agree scores ts hs avg =
      let (fill, label) = badges_agree avg in
      (summaries_agree scores ts, totals_agree 0 hs, fill, label)
