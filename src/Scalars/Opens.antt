-- ===== src/Scalars/Opens.antt =====
-- air/src/execution_step/execution_context/scalar_variables.rs: what a method opens in all three
-- matrices, another one closes.
use aquavm.Prelude.{
  ◌+◌, ◌≡◌, ◌⊎◌, inl, inr, refl, arith, Bool-cases, leb, u32_mod, Exec, ok, panic, zoom, ◌>>◌,
}
use aquavm.SparseMatrix.{NameMap, NonEmptyVec, SparseCell, ValuesSparseMatrix, ScalarsError}
use aquavm.SparseMatrix
use aquavm.SparseMatrix.Ends.{fold_scope, next_scope}
use aquavm.SparseMatrix.Scopes.{IsScoped, IsWithin}
use aquavm.Scalars.{Scalars, on_variables, on_canon_streams, on_canon_maps}
use aquavm.Scalars
use aquavm.Scalars.Scopes.{AreScoped, AreWithin, with_matrices}

-- A method that starts a scope panics, or opens one that the other method closes: whatever has
-- happened within, nothing is left of it.
abbrev pub Opens :
    {V : Type 0}
    → Exec (ValuesSparseMatrix V) ScalarsError (Unit {0})
    → Exec (ValuesSparseMatrix V) ScalarsError (Unit {0})
    → ValuesSparseMatrix V
    → Type 0
Opens {V = V} start_of end_of m =
    (start_of m ≡ panic)
    ⊎ ((start : ValuesSparseMatrix V) × (start_of m ≡ ok tt start)
        × IsScoped start
        × ((end : ValuesSparseMatrix V) → IsWithin start end → end_of end ≡ ok tt m))

module _ {V : Type 0} ⦃vec : NonEmptyVec (SparseCell V)⦄ where
  fold-Opens :
      (m : ValuesSparseMatrix V)
      → IsScoped m
      → Opens SparseMatrix.meet_fold_start SparseMatrix.meet_fold_end m
  unfolding SparseMatrix.meet_fold_start
  fold-Opens m h = elim (Bool-cases (leb u32_mod (m.current_depth + 1))) [
    | inl e ↦ inl (rw e refl)
    | inr e ↦ inr (fold_scope m h (ground arith))
  ]

  next-Opens :
      (m : ValuesSparseMatrix V)
      → IsScoped m
      → Opens SparseMatrix.meet_next_before SparseMatrix.meet_next_after m
  unfolding SparseMatrix.meet_next_before
  next-Opens m h = elim (Bool-cases (leb u32_mod (m.current_depth + 1))) [
    | inl e ↦ inl (rw e refl)
    | inr e ↦ inr (next_scope m h (ground arith))
  ]

module _ {V C M F : Type 0} where
  abbrev pub AllOpen :
      Exec (Scalars V C M F) ScalarsError (Unit {0})
      → Exec (Scalars V C M F) ScalarsError (Unit {0})
      → Scalars V C M F
      → Type 0
  AllOpen start_of end_of s =
      (start_of s ≡ panic)
      ⊎ ((start : Scalars V C M F) × (start_of s ≡ ok tt start)
          × AreScoped start
          × (start.iterable_variables ≡ s.iterable_variables)
          × ((end : Scalars V C M F)
              → AreWithin start end
              → end_of end ≡ ok tt (with_matrices s end)))

  all_open :
      (o c : Exec (ValuesSparseMatrix V) ScalarsError (Unit {0}))
      (o' c' : Exec (ValuesSparseMatrix C) ScalarsError (Unit {0}))
      (o'' c'' : Exec (ValuesSparseMatrix M) ScalarsError (Unit {0})) (s : Scalars V C M F)
      → Opens o c s.non_iterable_variables
      → Opens o' c' s.canon_streams
      → Opens o'' c'' s.canon_maps
      → AllOpen
          (on_variables o >> (on_canon_streams o' >> on_canon_maps o''))
          (on_variables c >> (on_canon_streams c' >> on_canon_maps c''))
          s
  all_open o c o' c' o'' c'' s (inl e) h' h'' = inl (rw (zoom, e) refl)
  all_open o c o' c' o'' c'' s (inr h) (inl e) h'' = inl (rw (zoom, h.1, e) refl)
  all_open o c o' c' o'' c'' s (inr h) (inr h') (inl e) = inl (rw (zoom, h.1, h'.1, e) refl)
  all_open o c o' c' o'' c'' s (inr h) (inr h') (inr h'') = inr (
    record {
      non_iterable_variables = h.0;
      canon_streams = h'.0;
      canon_maps = h''.0;
      iterable_variables = s.iterable_variables;
    },
    rw (zoom, h.1, h'.1, h''.1) refl,
    record { variables = h.2; streams = h'.2; maps = h''.2 },
    refl,
    λ end w.
        rw
          (
            zoom,
            h.3 end.non_iterable_variables w.variables,
            h'.3 end.canon_streams w.streams,
            h''.3 end.canon_maps w.maps,
          )
          refl,
  )

module _ {V C M F : Type 0} ⦃values : NonEmptyVec (SparseCell V)⦄
    ⦃streams : NonEmptyVec (SparseCell C)⦄ ⦃maps : NonEmptyVec (SparseCell M)⦄ where
  pub folds_open :
      (s : Scalars V C M F) → AreScoped s → AllOpen Scalars.meet_fold_start Scalars.meet_fold_end s
  unfolding Scalars.meet_fold_start Scalars.meet_fold_end
  folds_open s h =
      all_open SparseMatrix.meet_fold_start SparseMatrix.meet_fold_end SparseMatrix.meet_fold_start
        SparseMatrix.meet_fold_end SparseMatrix.meet_fold_start SparseMatrix.meet_fold_end s
        (fold-Opens _ h.variables) (fold-Opens _ h.streams) (fold-Opens _ h.maps)

  pub nexts_open :
      (s : Scalars V C M F)
      → AreScoped s
      → AllOpen Scalars.meet_next_before Scalars.meet_next_after s
  unfolding Scalars.meet_next_before Scalars.meet_next_after
  nexts_open s h =
      all_open SparseMatrix.meet_next_before SparseMatrix.meet_next_after
        SparseMatrix.meet_next_before SparseMatrix.meet_next_after SparseMatrix.meet_next_before
        SparseMatrix.meet_next_after s (next-Opens _ h.variables) (next-Opens _ h.streams)
        (next-Opens _ h.maps)
