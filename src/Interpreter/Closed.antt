-- ===== src/Interpreter/Closed.antt =====
-- air/src/execution_step/instructions/{fold_scalar, next, new, mod}.rs: the instructions that start a
-- scope end it, and no instruction leaves one behind.
pub mod Fold
pub mod Next
use aquavm.Prelude.{
  String, ◌≡◌, inl, inr, refl, Option-cases, some, Bool, true, false, Bool-cases, not, ◌&&◌, Run,
  ok, err, panic, ◌>>◌, or_panic, zoom, map_err, modify, Run-cases,
}
use aquavm.SparseMatrix.{NonEmptyVec, SparseCell, ScalarsError, set_key}
use aquavm.Keeper.{BiHashMap}
use aquavm.Handler.{meet_iteration_start, meet_iteration_end, meet_back_iterator}
use aquavm.Scalars
use aquavm.Scalars.{get_iterable, set_iterable_value, remove_iterable_value}
use aquavm.Scalars.Opens.{folds_open, nexts_open}
use aquavm.Scalars.Scopes.{
  AreScoped, AreWithin, AreWithin-refl, with_matrices-AreWithin, same_matrices, AreWithin-AreScoped,
  with_matrices,
}
use aquavm.Values.{ValueAggregate, Json, IterableValue, iterable_next, peek}
use aquavm.Errors.{ExecutionError, from_scalars_error}
use aquavm.Interpreter.{
  Instruction, LastInstruction, IterableType, FoldState, FoldScalarIterable, FoldIterableScalar,
  ContextScalars, Machine, Execution, Host, on_scalars, set_scalars, flush_subgraph_completeness,
  set_subgraph_completeness, make_subgraph_incomplete, from_iterable,
}
use aquavm.Interpreter.Folds.{
  finally, put_iterable, get_fold_state, maybe_meet_iteration_end, maybe_meet_back_iterator,
  start_back_iteration, maybe_meet_iteration_start, iteration_start, execute_fold, fold_iterable,
  from_scalar_ref, is_stream, execute_fold_scalar, exhausted, run_next, advance, execute_next,
}
use aquavm.Interpreter.Scoped.{
  scalars_of, Keeps, Keeps-within, Keeps-continue, Keeps-err, Keeps-on_trace, RunKeeps,
  joinable-Keeps,
}

module _ {J C M H Foreign B : Type 0} where
  pub finally-Keeps :
      {A : Type 0} (before start : ContextScalars J C M Foreign)
      (code : Execution J C M H Foreign B (Unit {0}))
      → ((n : Machine J C M H Foreign B)
          → AreWithin start (scalars_of n)
          → (p : Machine J C M H Foreign B) × (code n ≡ ok tt p) × AreWithin before (scalars_of p))
      → (r : Run (Machine J C M H Foreign B) (ExecutionError J) A) → Keeps start r
      → Keeps before (finally r code)
  finally-Keeps before start code closes (ok a m) k = let c = closes m k in rw (Keeps, c.1) c.2
  finally-Keeps before start code closes (err (ExecutionError.catchable e) m) k =
      let c = closes m k in rw (Keeps, c.1) c.2
  finally-Keeps before start code closes (err (ExecutionError.uncatchable e) m) k =
      elim (Run-cases (code m)) [
        | inl p ↦ rw (Keeps, p) tt
        | inr (inl (a, n, p)) ↦ rw (Keeps, p) tt
        | inr (inr (f, n, p)) ↦ rw (Keeps, p) tt
      ]
  finally-Keeps before start code closes panic k = tt

  pub get_fold_state-Keeps :
      (name : String) (m : Machine J C M H Foreign B) → Keeps (scalars_of m) (get_fold_state name m)
  unfolding get_fold_state get_iterable
  get_fold_state-Keeps name m = elim (Option-cases ((scalars_of m).iterable_variables name)) [
    | inl e ↦
        rw (Keeps, e)
          (Keeps-err (FoldState J Foreign) (scalars_of m)
            (from_scalars_error (ScalarsError.fold_state_not_found name)) m
            (AreWithin-refl (scalars_of m)))
    | inr (f, e) ↦ rw (Keeps, e) (AreWithin-refl (scalars_of m))
  ]

  pub end-Keeps :
      (instruction : String) (t : IterableType) (m : Machine J C M H Foreign B)
      → Keeps (scalars_of m) (maybe_meet_iteration_end instruction t m)
  unfolding maybe_meet_iteration_end
  end-Keeps instruction IterableType.scalar m = AreWithin-refl (scalars_of m)
  end-Keeps instruction (IterableType.stream fold_id) m =
      Keeps-on_trace instruction (meet_iteration_end fold_id) m

  pub back-Keeps :
      (instruction : String) (t : IterableType) (m : Machine J C M H Foreign B)
      → Keeps (scalars_of m) (maybe_meet_back_iterator instruction t m)
  unfolding maybe_meet_back_iterator
  back-Keeps instruction IterableType.scalar m = AreWithin-refl (scalars_of m)
  back-Keeps instruction (IterableType.stream fold_id) m =
      Keeps-on_trace instruction (meet_back_iterator fold_id) m

  pub iteration_start-Keeps :
      ⦃bimap : BiHashMap B⦄
      → (instruction : String) (iterable : IterableValue J) (t : IterableType)
        (m : Machine J C M H Foreign B)
      → Keeps (scalars_of m) (iteration_start instruction iterable t m)
  unfolding iteration_start
  iteration_start-Keeps instruction iterable IterableType.scalar m = AreWithin-refl (scalars_of m)
  iteration_start-Keeps instruction iterable (IterableType.stream fold_id) m =
      elim (Option-cases (peek iterable)) [
        | inl e ↦ rw (or_panic, e) tt
        | inr (item, e) ↦
            rw (or_panic, e) (Keeps-on_trace instruction (meet_iteration_start fold_id item.pos) m)
      ]

  pub start-Keeps :
      ⦃bimap : BiHashMap B⦄
      → (instruction : String) (f : FoldState J Foreign) (m : Machine J C M H Foreign B)
      → Keeps (scalars_of m) (maybe_meet_iteration_start instruction f m)
  unfolding maybe_meet_iteration_start
  start-Keeps instruction f m = iteration_start-Keeps instruction f.iterable f.iterable_type m
