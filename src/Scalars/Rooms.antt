-- ===== src/Scalars/Rooms.antt =====
-- air/src/execution_step/execution_context/scalar_variables.rs: scopes that fit into `usize` are
-- opened and closed.
use aquavm.Prelude.{ℕ, ◌+◌, ◌<◌, ◌≡◌, refl, arith, u32_mod, ok, zoom, ap, ok-state, leb-false, suc}
use aquavm.SparseMatrix.{NameMap, NonEmptyVec, SparseCell, ValuesSparseMatrix, ScalarsError}
use aquavm.SparseMatrix
use aquavm.SparseMatrix.Ends.{fold_scope, next_scope}
use aquavm.Scalars.{Scalars, on_variables, on_canon_streams, on_canon_maps}
use aquavm.Scalars
use aquavm.Scalars.Scopes.{AreScoped, AreWithin, with_matrices, HasRoom}

deeper :
    {V : Type 0} (m start : ValuesSparseMatrix V)
    → SparseMatrix.meet_next_before m ≡ ok tt start
    → (n : ℕ) → m.current_depth + suc n < u32_mod
    → start.current_depth + n < u32_mod
unfolding SparseMatrix.meet_next_before
deeper m start e n lt =
    let d : m.current_depth + 1 ≡ start.current_depth =
      ap (λ s. s.current_depth)
        (ok-state (rw (leb-false u32_mod (m.current_depth + 1) (omega arith)) at e)) in
    omega (arith, d)

deeper_fold :
    {V : Type 0} (m start : ValuesSparseMatrix V)
    → SparseMatrix.meet_fold_start m ≡ ok tt start
    → (n : ℕ) → m.current_depth + suc n < u32_mod
    → start.current_depth + n < u32_mod
unfolding SparseMatrix.meet_fold_start
deeper_fold m start e n lt =
    let d : m.current_depth + 1 ≡ start.current_depth =
      ap (λ s. s.current_depth)
        (ok-state (rw (leb-false u32_mod (m.current_depth + 1) (omega arith)) at e)) in
    omega (arith, d)

module _ {V C M F : Type 0} ⦃values : NonEmptyVec (SparseCell V)⦄
    ⦃streams : NonEmptyVec (SparseCell C)⦄ ⦃maps : NonEmptyVec (SparseCell M)⦄ where
  -- With room in all matrices the scope of `next` opens, one level deeper.
  pub next_opens :
      (s : Scalars V C M F)
      → AreScoped s
      → HasRoom 1 s
      → (start : Scalars V C M F) × (Scalars.meet_next_before s ≡ ok tt start)
        × AreScoped start
        × (start.iterable_variables ≡ s.iterable_variables)
        × ((end : Scalars V C M F)
            → AreWithin start end
            → Scalars.meet_next_after end ≡ ok tt (with_matrices s end))
        × ((n : ℕ) → HasRoom (suc n) s → HasRoom n start)
  unfolding Scalars.meet_next_before Scalars.meet_next_after SparseMatrix.meet_next_before
  next_opens s h r =
      let a = next_scope s.non_iterable_variables h.variables r.0 in
      let b = next_scope s.canon_streams h.streams r.1 in
      let c = next_scope s.canon_maps h.maps r.2 in
      (
        record s { non_iterable_variables = a.0; canon_streams = b.0; canon_maps = c.0 },
        rw (zoom, a.1, b.1, c.1) refl,
        record { variables = a.2; streams = b.2; maps = c.2 },
        refl,
        (λ end w.
            rw
              (
                zoom,
                a.3 end.non_iterable_variables w.variables,
                b.3 end.canon_streams w.streams,
                c.3 end.canon_maps w.maps,
              )
              refl),
        (λ n q. (deeper _ _ a.1 n q.0, deeper _ _ b.1 n q.1, deeper _ _ c.1 n q.2)),
      )

  -- With room in all matrices the scope of a fold opens, one level deeper.
  pub fold_opens :
      (s : Scalars V C M F)
      → AreScoped s
      → HasRoom 1 s
      → (start : Scalars V C M F) × (Scalars.meet_fold_start s ≡ ok tt start)
        × AreScoped start
        × (start.iterable_variables ≡ s.iterable_variables)
        × ((end : Scalars V C M F)
            → AreWithin start end
            → Scalars.meet_fold_end end ≡ ok tt (with_matrices s end))
        × ((n : ℕ) → HasRoom (suc n) s → HasRoom n start)
  unfolding Scalars.meet_fold_start Scalars.meet_fold_end SparseMatrix.meet_fold_start
  fold_opens s h r =
      let a = fold_scope s.non_iterable_variables h.variables r.0 in
      let b = fold_scope s.canon_streams h.streams r.1 in
      let c = fold_scope s.canon_maps h.maps r.2 in
      (
        record s { non_iterable_variables = a.0; canon_streams = b.0; canon_maps = c.0 },
        rw (zoom, a.1, b.1, c.1) refl,
        record { variables = a.2; streams = b.2; maps = c.2 },
        refl,
        (λ end w.
            rw
              (
                zoom,
                a.3 end.non_iterable_variables w.variables,
                b.3 end.canon_streams w.streams,
                c.3 end.canon_maps w.maps,
              )
              refl),
        (λ n q. (deeper_fold _ _ a.1 n q.0, deeper_fold _ _ b.1 n q.1, deeper_fold _ _ c.1 n q.2)),
      )
