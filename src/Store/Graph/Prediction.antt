-- ===== src/Store/Graph/Prediction.antt =====
-- The predicted edges of a candidate, and the overlap that they rest on.
use mathlib.Core.List.{Memᴰ}
use mathlib.Core.Path.{subst}
use socio_technical_alignmen.Prelude.{
  ℕ, zero, suc, ◌<◌, ◌≡◌, refl, sym, ap, ◌∙◌, ◌↔◌, inl, inr, String, true, List, [], ◌∷◌, ◌++◌,
  filter, length, includes, arith, Bool-cases,
}
use socio_technical_alignmen.Prelude.Members.{
  mem-append_left, mem-append_right, mem-append_split, includes_sound, includes_complete,
}
use socio_technical_alignmen.Number.{Number}
use socio_technical_alignmen.Api.{ForceGraphNode, shares_domain_with}
use socio_technical_alignmen.Store.Graph.{
  CandidateForceNode, PredictedForceLink, overlap, predicted, predicted_link,
  compute_predicted_edges,
}

module _ (known : List String) where
  -- So many of the texts are among the known ones.
  pub data Counts : List String → ℕ → Type 0 where
    none_left : Counts [] 0
    hit :
        {x : String} {xs : List String} {k : ℕ}
        → Memᴰ x known
        → Counts xs k
        → Counts (x ∷ xs) (suc k)
    miss :
        {x : String} {xs : List String} {k : ℕ} → ¬ Memᴰ x known → Counts xs k → Counts (x ∷ xs) k

  count : (xs : List String) → Counts xs (length (filter (λ s. includes s known) xs))
  count [] = none_left
  count (x ∷ xs) = elim (Bool-cases (includes x known)) [
    | inl shared ↦ rw (shared, length) (hit (includes_sound x known shared) (count xs))
    | inr own ↦
        rw (own, length)
          (miss (λ m. absurd (ground (arith, own, includes_complete x known m))) (count xs))
  ]

  same_count : (xs : List String) (j k : ℕ) → Counts xs j → Counts xs k → j ≡ k
  same_count [] _ _ none_left none_left = refl
  same_count (x ∷ xs) _ _ (hit m c) (hit l d) = ap suc (same_count xs _ _ c d)
  same_count (x ∷ xs) _ _ (hit m c) (miss l d) = absurd (l m)
  same_count (x ∷ xs) _ _ (miss l c) (hit m d) = absurd (l m)
  same_count (x ∷ xs) _ _ (miss m c) (miss l d) = same_count xs _ _ c d

module _ {F : Type 0} ⦃n : Number F⦄ where
  -- The link joins the candidate to an engineer of the list with whom it shares a skill, and is
  -- weighted by the number of the engineer's skills that the candidate has.
  abbrev pub Predicts :
      CandidateForceNode F → List (ForceGraphNode F) → PredictedForceLink F → Type 0
  Predicts c es l =
      (e : ForceGraphNode F) × (k : ℕ) × Memᴰ e es
      × ((s : String) × Memᴰ s e.skills × Memᴰ s c.skills)
      × Counts c.skills e.skills k
      × (l ≡ record {
        link = record {
          source = c.id;
          target = e.id;
          weight = n.lit k 0;
          relationship = shares_domain_with;
        };
        slot = c.slot;
      })

  -- The same through the overlap that the program computes.
  abbrev Overlaps : CandidateForceNode F → List (ForceGraphNode F) → PredictedForceLink F → Type 0
  Overlaps c es l =
      (e : ForceGraphNode F) × Memᴰ e es
      × (0 < overlap c e)
      × (l ≡ predicted_link c e (overlap c e))

  predicted_sound :
      (c : CandidateForceNode F) (e : ForceGraphNode F) (k : ℕ) (l : PredictedForceLink F)
      → Memᴰ l (predicted c e k)
      → (0 < k) × (l ≡ predicted_link c e k)
  predicted_sound c e zero l m = elim m [ ]
  predicted_sound c e (suc k) l (Memᴰ.head p) = (omega arith, p)
  predicted_sound c e (suc k) l (Memᴰ.tail m) = elim m [ ]

  predicted_complete :
      (c : CandidateForceNode F) (e : ForceGraphNode F) (k : ℕ)
      → 0 < k
      → Memᴰ (predicted_link c e k) (predicted c e k)
  predicted_complete c e zero h = elim h [ ]
  predicted_complete c e (suc k) h = Memᴰ.head refl

  sound :
      (c : CandidateForceNode F) (es : List (ForceGraphNode F)) (l : PredictedForceLink F)
      → Memᴰ l (compute_predicted_edges c es)
      → Overlaps c es l
  unfolding compute_predicted_edges
  sound c [] l m = elim m [ ]
  sound c (e ∷ es) l m = elim (mem-append_split (predicted c e (overlap c e)) _ m) [
    | inl here ↦
        let (shared, same) = predicted_sound c e (overlap c e) l here in
        (e, Memᴰ.head refl, shared, same)
    | inr later ↦
        let (d, listed, shared, same) = sound c es l later in (d, Memᴰ.tail listed, shared, same)
  ]

  complete :
      (c : CandidateForceNode F) (es : List (ForceGraphNode F)) (e : ForceGraphNode F)
      → Memᴰ e es
      → 0 < overlap c e
      → Memᴰ (predicted_link c e (overlap c e)) (compute_predicted_edges c es)
  unfolding compute_predicted_edges
  complete c [] e m h = elim m [ ]
  complete c (d ∷ es) e (Memᴰ.head p) h =
      subst
        (λ (b : ForceGraphNode F).
          Memᴰ (predicted_link c e (overlap c e))
            (predicted c b (overlap c b) ++ compute_predicted_edges c es))
        p (mem-append_left (predicted c e (overlap c e)) _ (predicted_complete c e (overlap c e) h))
  complete c (d ∷ es) e (Memᴰ.tail m) h =
      mem-append_right (predicted c d (overlap c d)) _ (complete c es e m h)

module _ (known : List String) where
  shared_sound :
      (xs : List String)
      → 0 < length (filter (λ s. includes s known) xs)
      → (s : String) × Memᴰ s xs × Memᴰ s known
  shared_sound [] h = elim h [ ]
  shared_sound (x ∷ xs) h = elim (Bool-cases (includes x known)) [
    | inl shared ↦ (x, Memᴰ.head refl, includes_sound x known shared)
    | inr own ↦
        let (s, listed, shared) = shared_sound xs (ground (arith, own)) in
        (s, Memᴰ.tail listed, shared)
  ]

  shared_complete :
      (xs : List String) (s : String)
      → Memᴰ s xs
      → includes s known ≡ true
      → 0 < length (filter (λ t. includes t known) xs)
  shared_complete [] s m h = elim m [ ]
  shared_complete (x ∷ xs) s (Memᴰ.head e) h =
      let hit : includes x known ≡ true = subst (λ (t : String). includes t known ≡ true) e h in
      ground (arith, hit)
  shared_complete (x ∷ xs) s (Memᴰ.tail m) h = ground (arith, shared_complete xs s m h)

overlap-Counts :
    {F : Type 0} ⦃n : Number F⦄ (c : CandidateForceNode F) (e : ForceGraphNode F)
    → Counts c.skills e.skills (overlap c e)
unfolding overlap
overlap-Counts c e = count c.skills e.skills

-- The overlap is positive exactly when one of the engineer's skills is among the candidate's.
overlap_pos_iff :
    {F : Type 0} ⦃n : Number F⦄ (c : CandidateForceNode F) (e : ForceGraphNode F)
    → (0 < overlap c e) ↔ ((s : String) × Memᴰ s e.skills × Memᴰ s c.skills)
unfolding overlap
overlap_pos_iff c e = (
  shared_sound c.skills e.skills,
  λ (s, listed, shared).
      shared_complete c.skills e.skills s listed (includes_complete s c.skills shared),
)

module _ {F : Type 0} ⦃n : Number F⦄ where
  -- A link is predicted exactly if it is the link with the slot of the candidate that joins it, as
  -- sharing a domain, to an engineer of the list one of whose skills is among the candidate's,
  -- weighted by how many of that engineer's skills are.
  pub compute_predicted_edges_iff :
      (c : CandidateForceNode F) (es : List (ForceGraphNode F)) (l : PredictedForceLink F)
      → Memᴰ l (compute_predicted_edges c es) ↔ Predicts c es l
  compute_predicted_edges_iff c es l = (
    λ m.
        let (e, listed, shared, same) = sound c es l m in
        (e, overlap c e, listed, (overlap_pos_iff c e).0 shared, overlap-Counts c e, same),
    λ (e, k, listed, shared, counted, same).
        let weighed = same_count c.skills e.skills (overlap c e) k (overlap-Counts c e) counted in
        subst (λ (r : PredictedForceLink F). Memᴰ r (compute_predicted_edges c es))
          (ap (predicted_link c e) weighed ∙ sym same)
          (complete c es e listed ((overlap_pos_iff c e).1 shared)),
  )
