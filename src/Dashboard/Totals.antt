-- ===== src/Dashboard/Totals.antt =====
-- apps/web/app/dashboard/page.tsx: what is left of the page when requests fail, and its totals.
use socio_technical_alignmen.Prelude.{
  ℕ, ◌+◌, ◌≡◌, refl, ap, ◌∙◌, String, Bool, true, false, List, [], ◌∷◌, map, length, if◌then◌else◌,
}
use socio_technical_alignmen.Number.{Number}
use socio_technical_alignmen.Api.{CentralityScore, CandidateProfile}
use socio_technical_alignmen.Api.Client.{Outcome, value, rejected, Response}
use socio_technical_alignmen.Loading.{TeamHealth, compute_health, fetch_list}
use socio_technical_alignmen.Dashboard.{
  all_health, engineers_total, sum_engineers, load_dashboard, more_health, assemble,
}

abbrev pub body_list : {A : Type 0} → Outcome (List A) → List A
body_list (value xs) = xs
body_list (rejected m) = []

abbrev pub IsRead : {A : Type 0} → Outcome A → Type 0
IsRead (value x) = Unit
IsRead (rejected m) = ⊥

-- What a request for a list comes down to if its body can be read: the list, or the empty one.
abbrev pub list_of : {A : Type 0} → Outcome (Response (List A)) → List A
list_of (rejected m) = []
list_of (value r) = if r.ok then body_list r.json else []

-- The body of an answer can be read.
abbrev pub IsReadable : {A : Type 0} → Outcome (Response A) → Type 0
IsReadable (rejected m) = Unit
IsReadable (value r) = IsRead r.json

readable_body :
    {A : Type 0}
    → (ok : Bool) (body : Outcome (List A)) → IsRead body
    → (if ok then body else value []) ≡ value (if ok then body_list body else [])
readable_body true (value xs) h = refl
readable_body false (value xs) h = refl
readable_body ok (rejected m) h = absurd h

fetch_list-IsReadable :
    {A : Type 0}
    → (o : Outcome (Response (List A))) → IsReadable o
    → fetch_list o ≡ value (list_of o)
unfolding fetch_list
fetch_list-IsReadable (rejected m) h = refl
fetch_list-IsReadable (value r) h = readable_body r.ok r.json h

module _ {F : Type 0} where
  -- The numbers of the scores that are there, added up.
  abbrev pub count_scores :
      (String → Outcome (Response (List (CentralityScore F)))) → ℕ → List String → ℕ
  count_scores scores acc [] = acc
  count_scores scores acc (t ∷ ts) = count_scores scores (acc + length (list_of (scores t))) ts

module _ {F : Type 0} ⦃n : Number F⦄ where
  -- The health of the listed teams, in their order.
  abbrev pub health_of :
      (String → Outcome (Response (List (CentralityScore F)))) → List String → List (TeamHealth F)
  health_of scores ts = map (λ t. compute_health t (list_of (scores t))) ts

  compute_health-count :
      (team : String) (cs : List (CentralityScore F))
      → (compute_health team cs).engineer_count ≡ length cs
  unfolding compute_health
  compute_health-count team [] = refl
  compute_health-count team (c ∷ cs) = refl

  sum_engineers-health_of :
      (scores : String → Outcome (Response (List (CentralityScore F)))) (acc : ℕ) (ts : List String)
      → sum_engineers acc (health_of scores ts) ≡ count_scores scores acc ts
  unfolding sum_engineers
  sum_engineers-health_of scores acc [] = refl
  sum_engineers-health_of scores acc (t ∷ ts) =
      rw (compute_health-count t (list_of (scores t)))
        (sum_engineers-health_of scores (acc + length (list_of (scores t))) ts)

  all_health-IsReadable :
      (scores : String → Outcome (Response (List (CentralityScore F)))) (ts : List String)
      → ((t : String) → IsReadable (scores t))
      → all_health scores ts ≡ value (health_of scores ts)
  unfolding all_health
  all_health-IsReadable scores [] h = refl
  all_health-IsReadable scores (t ∷ ts) h =
      ap (λ (o : Outcome (List (CentralityScore F))). more_health t o (all_health scores ts))
        (fetch_list-IsReadable (scores t) (h t))
      ∙ ap (more_health t (value (list_of (scores t)))) (all_health-IsReadable scores ts h)

  -- If every answer has a body that can be read, then the page is shown whatever requests
  -- fail or end in an error status: a list whose request failed is empty, there is a card for each
  -- listed team in its order, and the number of engineers is that of the scores that arrived.
  pub load_dashboard_lem :
      (teams : Outcome (Response (List String)))
      (candidates : Outcome (Response (List (CandidateProfile F))))
      (scores : String → Outcome (Response (List (CentralityScore F))))
      → IsReadable teams
      → IsReadable candidates
      → ((t : String) → IsReadable (scores t))
      → (load_dashboard teams candidates scores
          ≡ value (record {
            teams = list_of teams;
            candidates = list_of candidates;
            health_data = health_of scores (list_of teams);
          }))
        × (engineers_total (health_of scores (list_of teams))
            ≡ count_scores scores 0 (list_of teams))
  unfolding load_dashboard engineers_total
  load_dashboard_lem teams candidates scores h k l = (
    ap (λ (o : Outcome (List String)). assemble o (fetch_list candidates) (all_health scores))
          (fetch_list-IsReadable teams h)
        ∙ ap
            (λ (o : Outcome (List (CandidateProfile F))).
              assemble (value (list_of teams)) o (all_health scores))
            (fetch_list-IsReadable candidates k)
        ∙ ap
            (λ (o : Outcome (List (TeamHealth F))).
              assemble (value (list_of teams)) (value (list_of candidates)) (λ ts. o))
            (all_health-IsReadable scores (list_of teams) l),
    sum_engineers-health_of scores 0 (list_of teams),
  )
