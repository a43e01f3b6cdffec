-- ===== src/Store/Simulation/History.antt =====
-- The history against its specification, the log of all results.
use socio_technical_alignmen.Prelude.{◌≡◌, refl, ap, List, [], ◌∷◌, take, take-take, arith}
use socio_technical_alignmen.Number.{Number}
use socio_technical_alignmen.Value.{Value}
use socio_technical_alignmen.Store.Simulation.{
  SimulationState, slot_a, slot_b, Action, stage, start, advance, finish, fail, clear, reset,
  perform, perform_all,
}

module _ {F : Type 0} where
  -- The results of a sequence of actions on top of earlier ones, the newest first.
  pub logged : List (Action F) → List (Value F) → List (Value F)
  logged [] log = log
  logged (stage slot id name ∷ xs) log = logged xs log
  logged (start slot c ∷ xs) log = logged xs log
  logged (advance slot p k ∷ xs) log = logged xs log
  logged (finish slot r ∷ xs) log = logged xs (r ∷ log)
  logged (fail slot e ∷ xs) log = logged xs log
  logged (clear slot ∷ xs) log = logged xs log
  logged (reset ∷ xs) log = logged xs log

module _ {F : Type 0} ⦃n : Number F⦄ where
  perform-history :
      (x : Action F) (s : SimulationState F) (log : List (Value F))
      → s.history ≡ take 10 log
      → (perform x s).0.history ≡ take 10 (logged (x ∷ []) log)
  unfolding perform logged
  perform-history (stage slot_a id name) s log h = h
  perform-history (stage slot_b id name) s log h = h
  perform-history (start slot_a c) s log h = h
  perform-history (start slot_b c) s log h = h
  perform-history (advance slot_a p k) s log h = h
  perform-history (advance slot_b p k) s log h = h
  perform-history (finish slot_a r) s log h =
      rw h (ap (λ t. r ∷ t) (take-take 9 10 log (omega arith)))
  perform-history (finish slot_b r) s log h =
      rw h (ap (λ t. r ∷ t) (take-take 9 10 log (omega arith)))
  perform-history (fail slot_a e) s log h = h
  perform-history (fail slot_b e) s log h = h
  perform-history (clear slot_a) s log h = h
  perform-history (clear slot_b) s log h = h
  perform-history reset s log h = h

  logged-cons :
      (x : Action F) (xs : List (Action F)) (log : List (Value F))
      → logged (x ∷ xs) log ≡ logged xs (logged (x ∷ []) log)
  unfolding logged
  logged-cons (stage slot id name) xs log = refl
  logged-cons (start slot c) xs log = refl
  logged-cons (advance slot p k) xs log = refl
  logged-cons (finish slot r) xs log = refl
  logged-cons (fail slot e) xs log = refl
  logged-cons (clear slot) xs log = refl
  logged-cons reset xs log = refl

  -- If the history holds the ten newest results of a log, then after every sequence of store
  -- actions it holds the ten newest of the log extended by the results of those actions, the
  -- newest first: clearing, restarting and errors take nothing out of it.
  pub perform_all-history :
      (xs : List (Action F)) (s : SimulationState F) (log : List (Value F))
      → s.history ≡ take 10 log
      → (perform_all xs s).0.history ≡ take 10 (logged xs log)
  unfolding perform_all
  perform_all-history [] s log h = unfold logged in h
  perform_all-history (x ∷ xs) s log h =
      rw (logged-cons x xs log)
        (perform_all-history xs (perform x s).0 (logged (x ∷ []) log) (perform-history x s log h))
