-- ===== src/Stream/Yields.antt =====
-- What a fold over a growing stream gets from its cursor.
use aquavm.Prelude.{
  ℕ, zero, suc, ◌≤◌, ◌-◌, arith, ◌≡◌, refl, ap, sym, Bool-cases, inl, inr, true, false, List, [],
  ◌∷◌, ◌++◌, append_assoc, append-nil, length, drop,
}
use aquavm.Stream.{Stream, cursor, stream_slices, stream_iter}
use aquavm.Stream.Matrix.{
  ValuesMatrix, concat, retained, slice_iter, is_empty, last_is_empty, pop,
  last_generation_is_empty, remove_last_generation, add_new_empty_generation,
}
use aquavm.Stream.Recursive.{
  Recursion, RecursiveCursorState, from_iterable_values, cursor_state, met_iteration_end,
  remove_last_generation_if_empty, new_generation,
}

module _ {T : Type 0} where
  abbrev pub IsFull : List (List T) → Type 0
  IsFull gs = retained gs ≡ gs

  retained-append : (xs ys : List (List T)) → retained (xs ++ ys) ≡ retained xs ++ retained ys
  unfolding retained
  retained-append [] ys = refl
  retained-append ([] ∷ xs) ys = retained-append xs ys
  retained-append ((v ∷ vs) ∷ xs) ys = ap (◌∷◌ (v ∷ vs)) (retained-append xs ys)

  drop-length : (xs ys : List (List T)) → drop (length xs) (xs ++ ys) ≡ ys
  drop-length [] ys = refl
  drop-length (x ∷ xs) ys = drop-length xs ys

  slice_iter-added :
      (m : ValuesMatrix T) (old added : List (List T))
      → m.values ≡ old ++ added
      → IsFull old
      → slice_iter (length old) m ≡ retained added
  unfolding slice_iter
  slice_iter-added m old added e full =
      rw (e, retained-append old added, full) (drop-length old (retained added))

  drop-append :
      (n : ℕ) (xs ys : List (List T)) → length xs ≤ n → drop n (xs ++ ys) ≡ drop (n - length xs) ys
  drop-append n [] ys h = let e : n - 0 ≡ n = omega arith in rw e refl
  drop-append zero (x ∷ xs) ys h = absurd (omega arith)
  drop-append (suc n) (x ∷ xs) ys h =
      let e : suc n - suc (length xs) ≡ n - length xs = omega arith in
      rw e (drop-append n xs ys (omega arith))

  length-retained : (gs : List (List T)) → length (retained gs) ≤ length gs
  unfolding retained
  length-retained [] = omega arith
  length-retained ([] ∷ gs) = omega (arith, length-retained gs)
  length-retained ((v ∷ vs) ∷ gs) = omega (arith, length-retained gs)

  -- A slice iterator from a cursor behind the older generations of a matrix gives the later
  -- generations that are not empty, but for the first of them: as many as there are empty older
  -- generations are skipped.
  pub slice_iter-drop :
      (m : ValuesMatrix T) (old added : List (List T))
      → m.values ≡ old ++ added
      → slice_iter (length old) m ≡ drop (length old - length (retained old)) (retained added)
  unfolding slice_iter
  slice_iter-drop m old added e =
      rw (e, retained-append old added)
        (drop-append (length old) (retained old) (retained added) (length-retained old))

  -- No generation of the stream is empty.
  pub record IsFullStream (s : Stream T) : Type 0 where
    pub previous : IsFull s.previous_values.values
    pub current : IsFull s.current_values.values
    pub new : IsFull s.new_values.values

  -- The second stream has more generations than the first.
  pub record Extends (s s' : Stream T) (np nc nn : List (List T)) : Type 0 where
    pub previous : s'.previous_values.values ≡ s.previous_values.values ++ np
    pub current : s'.current_values.values ≡ s.current_values.values ++ nc
    pub new : s'.new_values.values ≡ s.new_values.values ++ nn

  pub slices-Extends :
      (s s' : Stream T) (np nc nn : List (List T))
      → IsFullStream s
      → Extends s s' np nc nn
      → stream_slices (cursor s) s' ≡ retained np ++ (retained nc ++ retained nn)
  unfolding stream_slices cursor
  slices-Extends s s' np nc nn full e =
      rw
        (
          slice_iter-added s'.previous_values s.previous_values.values np e.previous full.previous,
          slice_iter-added s'.current_values s.current_values.values nc e.current full.current,
          slice_iter-added s'.new_values s.new_values.values nn e.new full.new,
        )
        refl

  -- The fold goes on at the cursor of `s`, with new values for the generation `last`.
  pub record Folding (r : Recursion T) (s : Stream T) (np nc : List (List T)) (last : List T)
      : Type 0 where
    pub at_cursor : r.cursor ≡ cursor s
    pub full : IsFullStream s
    pub full_previous : IsFull np
    pub full_current : IsFull nc
    pub extends : Extends s r.stream np nc (last ∷ [])

  full-append : (xs ys : List (List T)) → IsFull xs → IsFull ys → IsFull (xs ++ ys)
  full-append xs ys p q = rw (retained-append xs ys, p, q) refl

  abbrev pub kept : List T → List (List T)
  kept [] = []
  kept (v ∷ vs) = (v ∷ vs) ∷ []

  pop-append : (gs : List (List T)) (g : List T) → pop (gs ++ g ∷ []) ≡ gs
  pop-append [] g = refl
  pop-append (h ∷ []) g = refl
  pop-append (h ∷ i ∷ gs) g = ap (◌∷◌ h) (pop-append (i ∷ gs) g)

  last_is_empty-append :
      (gs : List (List T)) (g : List T) → last_is_empty (gs ++ g ∷ []) ≡ is_empty g
  last_is_empty-append [] g = refl
  last_is_empty-append (h ∷ []) g = refl
  last_is_empty-append (h ∷ i ∷ gs) g = last_is_empty-append (i ∷ gs) g

  concat-append : (xs ys : List (List T)) → concat (xs ++ ys) ≡ concat xs ++ concat ys
  concat-append [] ys = refl
  concat-append (g ∷ xs) ys =
      rw (concat-append xs ys) (sym (append_assoc g (concat xs) (concat ys)))

  module _ (t : Stream T) where
    settled-previous : (remove_last_generation_if_empty t).previous_values ≡ t.previous_values
    unfolding remove_last_generation_if_empty
    settled-previous = elim (Bool-cases (last_generation_is_empty t.new_values)) [
      | inl e ↦ rw e refl
      | inr e ↦ rw e refl
    ]

    settled-current : (remove_last_generation_if_empty t).current_values ≡ t.current_values
    unfolding remove_last_generation_if_empty
    settled-current = elim (Bool-cases (last_generation_is_empty t.new_values)) [
      | inl e ↦ rw e refl
      | inr e ↦ rw e refl
    ]

    settled-new :
        (old : List (List T)) (last : List T)
        → t.new_values.values ≡ old ++ last ∷ []
        → (remove_last_generation_if_empty t).new_values.values ≡ old ++ kept last
    unfolding remove_last_generation_if_empty last_generation_is_empty remove_last_generation
    settled-new old [] e =
        let empty : last_is_empty t.new_values.values ≡ true = rw e (last_is_empty-append old []) in
        rw (empty, e, append-nil old) (pop-append old [])
    settled-new old (v ∷ vs) e =
        let full : last_is_empty t.new_values.values ≡ false =
          rw e (last_is_empty-append old (v ∷ vs)) in
        rw full e

  IsFull-kept : (last : List T) → retained (last ∷ []) ≡ kept last
  unfolding retained
  IsFull-kept [] = refl
  IsFull-kept (v ∷ vs) = refl

  kept-IsFull : (last : List T) → IsFull (kept last)
  unfolding retained
  kept-IsFull [] = refl
  kept-IsFull (v ∷ vs) = refl

  concat-kept : (last : List T) → concat (kept last) ≡ concat (last ∷ [])
  concat-kept [] = refl
  concat-kept (v ∷ vs) = refl

  -- An iteration over the generations, or the end of the fold where there are none.
  abbrev pub Gives : RecursiveCursorState T → List (List T) → Type 0
  Gives state [] = state ≡ RecursiveCursorState.exhausted
  Gives state (g ∷ gs) = state ≡ RecursiveCursorState.continue (g ∷ gs)

  from_iterable_values-Gives : (gs : List (List T)) → Gives (from_iterable_values gs) gs
  from_iterable_values-Gives [] = refl
  from_iterable_values-Gives (g ∷ gs) = refl

  abbrev pub Goes : Recursion T → List (List T) → List (List T) → List T → Type 0
  Goes r np nc last =
      Gives (met_iteration_end r).0 (np ++ (nc ++ kept last))
      × (s : Stream T) × Folding (met_iteration_end r).1 s [] [] []
      × (stream_iter s ≡ stream_iter r.stream)

  module _ (r : Recursion T) (s : Stream T) (np nc : List (List T)) (last : List T)
      (f : Folding r s np nc last) where
    folding_state : cursor_state r ≡ from_iterable_values (np ++ (nc ++ kept last))
    unfolding cursor_state
    folding_state =
        rw
          (
            f.at_cursor,
            slices-Extends s r.stream np nc (last ∷ []) f.full f.extends,
            f.full_previous,
            f.full_current,
            IsFull-kept last,
          )
          refl

    settled-IsFull : IsFullStream (remove_last_generation_if_empty r.stream)
    settled-IsFull = record {
      previous =
          rw (settled-previous r.stream, f.extends.previous)
            (full-append s.previous_values.values np f.full.previous f.full_previous);
      current =
          rw (settled-current r.stream, f.extends.current)
            (full-append s.current_values.values nc f.full.current f.full_current);
      new =
          rw (settled-new r.stream s.new_values.values last f.extends.new)
            (full-append s.new_values.values (kept last) f.full.new (kept-IsFull last));
    }

    settled-iter : stream_iter (remove_last_generation_if_empty r.stream) ≡ stream_iter r.stream
    settled-iter =
        rw
          (
            settled-previous r.stream,
            settled-current r.stream,
            settled-new r.stream s.new_values.values last f.extends.new,
            f.extends.new,
            concat-append s.new_values.values (kept last),
            concat-append s.new_values.values (last ∷ []),
            concat-kept last,
          )
          refl

    -- Take a fold over a stream whose cursor was taken when no matrix had an empty
    -- generation, since when the previous and the current values got more generations, none
    -- empty, and the last generation of the new values is the one that the fold has opened.
    -- Then the end of an iteration gives exactly the generations added since, the opened one
    -- only if it has values; and the fold stands as before the iteration, with a cursor
    -- behind all values of the stream, none of which is lost.
    pub met_iteration_end-Goes : Goes r np nc last
    unfolding met_iteration_end new_generation add_new_empty_generation retained
    met_iteration_end-Goes = (
      rw folding_state (from_iterable_values-Gives (np ++ (nc ++ kept last))),
      remove_last_generation_if_empty r.stream,
      record {
        at_cursor = refl;
        full = settled-IsFull;
        full_previous = refl;
        full_current = refl;
        extends = record {
          previous = sym (append-nil _);
          current = sym (append-nil _);
          new = refl;
        };
      },
      settled-iter,
    )
