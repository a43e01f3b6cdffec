-- ===== src/Stream/Chunks.antt =====
-- The cuts between the chunks of a stream.
use socio_technical_alignmen.Prelude.{
  ℕ, ◌≡◌, refl, sym, ap, ◌∙◌, Option, false, List, [], ◌∷◌, ◌++◌, map, append-nil, append_assoc,
  arith, Option-cases, Bool-cases, inl, inr, ◌==◌,
}
use socio_technical_alignmen.Prelude.Text.{Text, split}
use socio_technical_alignmen.Number.{Number}
use socio_technical_alignmen.Value.{Value}
use socio_technical_alignmen.Store.Simulation.{Slot, SimulationState, start_slot}
use socio_technical_alignmen.Stream.{
  Failure, Read, chunk, streaming, Run, going, thrown, pop, cut, is_nullish, payload, dispatch,
  process, feed, read_all, run,
}

-- The store after the loop, whether it ended by `done` or by an exception.
abbrev pub store_of : {F : Type 0} → Run F → SimulationState F
store_of (going buffer s) = s
store_of (thrown s) = s

-- The text that the chunks make up.
abbrev pub joined : List Text → Text
joined [] = []
joined (c ∷ cs) = c ++ joined cs

-- The pieces of a text that goes on after the last piece.
glue : ℕ → Text → List Text → Text → Text × List Text
glue sep l [] ys = split sep (l ++ ys)
glue sep l (m ∷ ms) ys = let (first, rest) = glue sep m ms ys in (l, first ∷ rest)

glue-cons :
    (sep c : ℕ) (l : Text) (ls : List Text) (ys : Text)
    → (c == sep) ≡ false
    → glue sep (c ∷ l) ls ys ≡ (c ∷ (glue sep l ls ys).0, (glue sep l ls ys).1)
unfolding glue split
glue-cons sep c l [] ys h = ground (arith, h)
glue-cons sep c l (m ∷ ms) ys h = refl

split-append :
    (sep : ℕ) (xs ys : Text) → split sep (xs ++ ys) ≡ glue sep (split sep xs).0 (split sep xs).1 ys
unfolding split glue
split-append sep [] ys = refl
split-append sep (c ∷ xs) ys = elim (Bool-cases (c == sep)) [
  | inl e ↦ ground (arith, e, split-append sep xs ys)
  | inr e ↦
      rw e
        (rw (split-append sep xs ys) (sym (glue-cons sep c (split sep xs).0 (split sep xs).1 ys e)))
]

-- The complete lines of two texts in a row: those of the first, then those of what it leaves
-- over, continued by the second.
pop-glue :
    (l : Text) (ls : List Text) (ys : Text)
    → let (first, rest) = glue b'\n' l ls ys in
      pop first rest ≡ ((pop l ls).0 ++ (cut ((pop l ls).1 ++ ys)).0, (cut ((pop l ls).1 ++ ys)).1)
unfolding glue pop cut
pop-glue l [] ys = refl
pop-glue l (m ∷ ms) ys = ap (λ (r : List Text × Text). (l ∷ r.0, r.1)) (pop-glue m ms ys)

cut-append :
    (xs ys : Text)
    → cut (xs ++ ys) ≡ ((cut xs).0 ++ (cut ((cut xs).1 ++ ys)).0, (cut ((cut xs).1 ++ ys)).1)
unfolding cut
cut-append xs ys =
    ap (λ (r : Text × List Text). pop r.0 r.1) (split-append b'\n' xs ys)
    ∙ pop-glue (split b'\n' xs).0 (split b'\n' xs).1 ys

module _ {F : Type 0} ⦃n : Number F⦄ (parse : Text → Option (Value F)) (type_error : Failure) where
  -- Feeding after the lines were processed is processing more lines.
  feed-process :
      (slot : Slot) (lines : List Text) (last ys : Text) (s : SimulationState F)
      → feed parse type_error slot (process parse type_error slot last lines s) ys
        ≡ process parse type_error slot (cut (last ++ ys)).1 (lines ++ (cut (last ++ ys)).0) s
  unfolding process feed
  feed-process slot [] last ys s = refl
  feed-process slot (line ∷ lines) last ys s = elim (Option-cases (payload parse type_error line)) [
    | inl skip ↦ ground (arith, skip, feed-process slot lines last ys s)
    | inr (v, event) ↦ elim (Bool-cases (is_nullish v)) [
      | inl bad ↦ ground (arith, event, bad)
      | inr good ↦
          ground (
            arith,
            event,
            good,
            feed-process slot lines last ys (dispatch parse type_error slot v s),
          )
    ]
  ]

  -- Two chunks in a row are as good as one.
  pub feed-feed :
      (slot : Slot) (r : Run F) (xs ys : Text)
      → feed parse type_error slot (feed parse type_error slot r xs) ys
        ≡ feed parse type_error slot r (xs ++ ys)
  unfolding feed
  feed-feed slot (thrown s) xs ys = refl
  feed-feed slot (going buffer s) xs ys =
      feed-process slot (cut (buffer ++ xs)).0 (cut (buffer ++ xs)).1 ys s
      ∙ sym (
          ap (λ (r : List Text × Text). process parse type_error slot r.1 r.0 s)
            (ap cut (sym (append_assoc buffer xs ys)) ∙ cut-append (buffer ++ xs) ys))

  stop : (slot : Slot) (q : Run F) → read_all parse type_error slot q [] ≡ store_of q
  unfolding read_all
  stop slot (going b s) = refl
  stop slot (thrown s) = refl

  step :
      (slot : Slot) (q : Run F) (c : Text) (reads : List Read)
      → read_all parse type_error slot q (chunk c ∷ reads)
        ≡ read_all parse type_error slot (feed parse type_error slot q c) reads
  unfolding read_all feed
  step slot (going b s) c reads = refl
  step slot (thrown s) c [] = refl
  step slot (thrown s) c (x ∷ reads) = refl

  read_chunks :
      (slot : Slot) (r : Run F) (xs : Text) (cs : List Text)
      → read_all parse type_error slot (feed parse type_error slot r xs) (map chunk cs)
        ≡ store_of (feed parse type_error slot r (xs ++ joined cs))
  unfolding read_all
  read_chunks slot r xs [] =
      stop slot (feed parse type_error slot r xs)
      ∙ ap (λ (t : Text). store_of (feed parse type_error slot r t)) (sym (append-nil xs))
  read_chunks slot r xs (c ∷ cs) =
      step slot (feed parse type_error slot r xs) c (map chunk cs)
      ∙ ap (λ (q : Run F). read_all parse type_error slot q (map chunk cs)) (feed-feed slot r xs c)
      ∙ read_chunks slot r (xs ++ c) cs
      ∙ ap (λ (t : Text). store_of (feed parse type_error slot r t)) (append_assoc xs c (joined cs))

  -- The buffer plays no part while lines are processed.
  process_any_buffer :
      (slot : Slot) (b c : Text) (lines : List Text) (s : SimulationState F)
      → store_of (process parse type_error slot b lines s)
        ≡ store_of (process parse type_error slot c lines s)
  unfolding process
  process_any_buffer slot b c [] s = refl
  process_any_buffer slot b c (line ∷ lines) s =
      elim (Option-cases (payload parse type_error line)) [
        | inl skip ↦ ground (arith, skip, process_any_buffer slot b c lines s)
        | inr (v, event) ↦
            ground
              (arith, event, process_any_buffer slot b c lines (dispatch parse type_error slot v s))
      ]

  read_whole :
      (slot : Slot) (cs : List Text) (s : SimulationState F)
      → read_all parse type_error slot (going [] s) (map chunk cs)
        ≡ store_of (process parse type_error slot [] (cut (joined cs)).0 s)
  read_whole slot [] s = unfold read_all process cut pop split in refl
  read_whole slot (c ∷ cs) s =
      step slot (going [] s) c (map chunk cs)
      ∙ read_chunks slot (going [] s) c cs
      ∙ unfold feed in
        process_any_buffer slot (cut (c ++ joined cs)).1 [] (cut (c ++ joined cs)).0 s

  -- What the loop does on a body that arrives in chunks is what one pass over the complete lines
  -- of the whole text does: the cuts between chunks do not matter, also inside a line, and what
  -- follows the last line end is never looked at.
  pub run_streaming :
      (slot : Slot) (controller : ℕ) (cs : List Text) (s : SimulationState F)
      → run parse type_error slot controller (streaming (map chunk cs)) s
        ≡ store_of
            (process parse type_error slot [] (cut (joined cs)).0 (start_slot slot controller s))
  unfolding run
  run_streaming slot controller cs s = read_whole slot cs (start_slot slot controller s)
