-- ===== src/Interpreter/Closed/Fold.antt =====
-- air/src/execution_step/instructions/fold_scalar.rs: a fold leaves no scope behind.
use aquavm.Prelude.{
  String, ◌≡◌, inl, inr, refl, Option-cases, some, ok, ◌>>◌, zoom, map_err, modify,
}
use aquavm.SparseMatrix.{NonEmptyVec, SparseCell, set_key}
use aquavm.Scalars
use aquavm.Scalars.{get_iterable, set_iterable_value, remove_iterable_value}
use aquavm.Scalars.Opens.{folds_open}
use aquavm.Scalars.Scopes.{
  AreScoped, AreWithin, AreWithin-refl, with_matrices-AreWithin, same_matrices, with_matrices,
}
use aquavm.Values.{ValueAggregate, Json, IterableValue}
use aquavm.Errors.{from_scalars_error}
use aquavm.Interpreter.{
  Instruction, LastInstruction, IterableType, FoldState, FoldScalarIterable, FoldIterableScalar,
  ContextScalars, Machine, Execution, Host, on_scalars, set_scalars, from_iterable,
}
use aquavm.Interpreter.Folds.{execute_fold, fold_iterable, from_scalar_ref, execute_fold_scalar}
use aquavm.Interpreter.Scoped.{scalars_of, Keeps, RunKeeps, joinable-Keeps}
use aquavm.Interpreter.Closed.{finally-Keeps}

module _ {J C M H Foreign B : Type 0} ⦃values : NonEmptyVec (SparseCell (ValueAggregate J))⦄
    ⦃streams : NonEmptyVec (SparseCell C)⦄ ⦃maps : NonEmptyVec (SparseCell M)⦄
    (run : Instruction Foreign → Execution J C M H Foreign B (Unit {0}))
    (keeps : RunKeeps run) where
  set_iterable_value-Keeps :
      (name : String) (f : FoldState J Foreign) (m : Machine J C M H Foreign B)
      → Keeps (scalars_of m) (on_scalars (set_iterable_value name f) m)
  unfolding set_iterable_value from_scalars_error
  set_iterable_value-Keeps name f m = elim (Option-cases ((scalars_of m).iterable_variables name)) [
    | inl e ↦ rw (Keeps, zoom, map_err, e) (same_matrices (scalars_of m) _)
    | inr (old, e) ↦ rw (Keeps, zoom, map_err, e) tt
  ]

  -- The end of a fold, over whatever its body has left within the scope.
  fold_closes :
      (s start : ContextScalars J C M Foreign) (iterator : String) (f : FoldState J Foreign)
      → ((end : ContextScalars J C M Foreign)
          → AreWithin start end
          → Scalars.meet_fold_end end ≡ ok tt (with_matrices s end))
      → (n : Machine J C M H Foreign B)
      → AreWithin
          (record start { iterable_variables = set_key iterator (some f) start.iterable_variables })
          (scalars_of n)
      → (p : Machine J C M H Foreign B) × ((modify
                (λ m. set_scalars (remove_iterable_value iterator (scalars_of m)) m)
              >> on_scalars Scalars.meet_fold_end)
            n
          ≡ ok tt p)
        × AreWithin s (scalars_of p)
  unfolding remove_iterable_value
  fold_closes s start iterator f closes n w =
      let end = remove_iterable_value iterator (scalars_of n) in
      (
        set_scalars (with_matrices s end) n,
        rw
            (
              zoom,
              map_err,
              closes end (record { variables = w.variables; streams = w.streams; maps = w.maps }),
            )
            refl,
        with_matrices-AreWithin s end,
      )

  pub fold-Keeps :
      (iterable : IterableValue J) (t : IterableType) (iterator : String) (i : Instruction Foreign)
      (l : LastInstruction Foreign) (m : Machine J C M H Foreign B)
      → AreScoped (scalars_of m)
      → Keeps (scalars_of m) (execute_fold run iterable t iterator i l m)
  unfolding execute_fold remove_iterable_value set_iterable_value from_scalars_error
  fold-Keeps iterable t iterator i l m h = elim (folds_open (scalars_of m) h) [
    | inl e ↦ rw (zoom, map_err, e) tt
    | inr (start, e, scoped, same, closes) ↦
        rw (zoom, map_err, e)
          (elim (Option-cases (start.iterable_variables iterator)) [
            | inr (old, p) ↦ rw (Keeps, zoom, map_err, p) tt
            | inl p ↦
                rw (zoom, map_err, p)
                  (finally-Keeps (scalars_of m)
                    (record start {
                      iterable_variables =
                          set_key iterator (some (from_iterable iterable t i l))
                            start.iterable_variables;
                    })
                    _
                    (fold_closes (scalars_of m) start iterator (from_iterable iterable t i l)
                      closes)
                    (run i (
                      set_scalars
                        (record start {
                          iterable_variables =
                              set_key iterator (some (from_iterable iterable t i l))
                                start.iterable_variables;
                        })
                        m))
                    (keeps i _ (record {
                      variables = scoped.variables;
                      streams = scoped.streams;
                      maps = scoped.maps;
                    })))
          ])
  ]

  fold_iterable-Keeps :
      (iterator : String) (i : Instruction Foreign) (l : LastInstruction Foreign)
      (iterable : FoldIterableScalar J) (m : Machine J C M H Foreign B)
      → AreScoped (scalars_of m)
      → Keeps (scalars_of m) (fold_iterable run iterator i l iterable m)
  unfolding fold_iterable
  fold_iterable-Keeps iterator i l FoldIterableScalar.empty m h = AreWithin-refl (scalars_of m)
  fold_iterable-Keeps iterator i l (FoldIterableScalar.scalar_based iterable) m h =
      fold-Keeps iterable IterableType.scalar iterator i l m h

  pub fold_scalar-Keeps :
      ⦃json : Json J⦄
      → ⦃host : Host J C M H Foreign B⦄
      → (iterable : FoldScalarIterable Foreign) (iterator : String) (i : Instruction Foreign)
        (l : LastInstruction Foreign) (m : Machine J C M H Foreign B)
      → AreScoped (scalars_of m)
      → Keeps (scalars_of m) (execute_fold_scalar run iterable iterator i l m)
  unfolding execute_fold_scalar
  fold_scalar-Keeps (FoldScalarIterable.scalar name) iterator i l m h =
      elim (Option-cases
        (from_scalar_ref (λ f. f.iterable) name (Scalars.get_value name (scalars_of m)))) [
          | inl e ↦ rw (Keeps, e) tt
          | inr (r, e) ↦
              rw (Keeps, e)
                (joinable-Keeps run keeps r (fold_iterable run iterator i l) m
                  (λ a. fold_iterable-Keeps iterator i l a m h))
        ]
  fold_scalar-Keeps FoldScalarIterable.empty_array iterator i l m h = AreWithin-refl (scalars_of m)
  fold_scalar-Keeps ⦃host = host⦄ (FoldScalarIterable.other f) iterator i l m h =
      joinable-Keeps run keeps (host.create_iterable f m.exec_ctx) (fold_iterable run iterator i l)
        m (λ a. fold_iterable-Keeps iterator i l a m h)
