-- ===== src/Interpreter/Safe.antt =====
-- air/src/execution_step/instructions/{new, mod}.rs: `new` restores what it restricts, and no
-- instruction leaves a scope behind.
use aquavm.Prelude.{
  ℕ, zero, suc, String, ◌≡◌, inl, inr, refl, Run, Exec, ok, err, panic, zoom, map_err, Run-cases,
}
use aquavm.SparseMatrix.{NonEmptyVec, SparseCell, ScalarsError}
use aquavm.Keeper.{BiHashMap}
use aquavm.Scalars.News.{new_scalar-NewEnds, new_canon_stream-NewEnds, new_canon_map-NewEnds}
use aquavm.Scalars.Scopes.{AreScoped, AreWithin, AreWithin-refl, AreWithin-trans}
use aquavm.Stream.{UncatchableError}
use aquavm.Streams.{StreamsRun, Span}
use aquavm.Streams
use aquavm.StreamMaps.{StreamMapsRun}
use aquavm.StreamMaps
use aquavm.Scalars
use aquavm.Values.{ValueAggregate, value_pos, Json}
use aquavm.Errors.{ExecutionError}
use aquavm.Context.{ErrorObjects}
use aquavm.Interpreter.{
  Instruction, NewArgument, ContextScalars, Machine, Execution, Host, set_scalars, on_scalars,
  set_errors, make_subgraph_incomplete, set_subgraph_completeness,
}
use aquavm.Interpreter.Folds.{finally}
use aquavm.Interpreter.News.{prolog, epilog, on_streams, on_stream_maps, execute_new}
use aquavm.Interpreter.Control.{execute_null, execute_never}
use aquavm.Interpreter.StreamFolds.Quiet.{Settles-Keeps}
use aquavm.Interpreter.StreamFolds.Settles.{execute_fold_stream-Settles}
use aquavm.Interpreter.Execute.{with_errors, execute_kind, step, execute, is_foreign}
use aquavm.Interpreter.Scoped.{
  scalars_of, Keeps, Keeps-if, Keeps-err, RunKeeps, seq-Keeps, par-Keeps, xor-Keeps, match-Keeps,
  mismatch-Keeps,
}
use aquavm.Interpreter.Closed.{finally-Keeps}
use aquavm.Interpreter.Closed.Fold.{fold_scalar-Keeps}
use aquavm.Interpreter.Closed.Next.{next-Keeps}

module _ {J C M H Foreign B : Type 0} where
  -- A run that changes no scalar, whatever comes of it.
  abbrev Preserves :
      ContextScalars J C M Foreign
      → Run (Machine J C M H Foreign B) (ExecutionError J) (Unit {0})
      → Type 0
  Preserves s (ok a m) = AreWithin s (scalars_of m)
  Preserves s (err e m) = AreWithin s (scalars_of m)
  Preserves s panic = Unit

  finally-Preserves :
      (s : ContextScalars J C M Foreign)
      (r : Run (Machine J C M H Foreign B) (ExecutionError J) (Unit {0}))
      (code : Execution J C M H Foreign B (Unit {0}))
      → ((n : Machine J C M H Foreign B) → Preserves (scalars_of n) (code n))
      → Keeps s r
      → Keeps s (finally r code)
  finally-Preserves s (ok a m) code p k = elim (Run-cases (code m)) [
    | inl e ↦ rw (Keeps, e) tt
    | inr (inl (b, n, e)) ↦
        rw (Keeps, e)
          (AreWithin-trans s (scalars_of m) (scalars_of n) k (rw (Preserves, e) at (p m)))
    | inr (inr (f, n, e)) ↦
        rw (finally, e)
          (Keeps-err (Unit {0}) s f n
            (AreWithin-trans s (scalars_of m) (scalars_of n) k (rw (Preserves, e) at (p m))))
  ]
  finally-Preserves s (err (ExecutionError.uncatchable d) m) code p k = elim (Run-cases (code m)) [
    | inl e ↦ rw (Keeps, e) tt
    | inr (inl (b, n, e)) ↦ rw (Keeps, e) tt
    | inr (inr (f, n, e)) ↦ rw (Keeps, e) tt
  ]
  finally-Preserves s (err (ExecutionError.catchable d) m) code p k = elim (Run-cases (code m)) [
    | inl e ↦ rw (Keeps, e) tt
    | inr (inl (b, n, e)) ↦
        rw (Keeps, e)
          (AreWithin-trans s (scalars_of m) (scalars_of n) k (rw (Preserves, e) at (p m)))
    | inr (inr (f, n, e)) ↦
        rw (Keeps, e)
          (AreWithin-trans s (scalars_of m) (scalars_of n) k (rw (Preserves, e) at (p m)))
  ]
  finally-Preserves s panic code p k = tt

  on_streams-Preserves :
      (r : Exec (StreamsRun (ValueAggregate J) B) UncatchableError (Unit {0}))
      (m : Machine J C M H Foreign B)
      → Preserves (scalars_of m) (on_streams r m)
  unfolding on_streams
  on_streams-Preserves r m =
      elim (Run-cases (r (record { streams = (m.exec_ctx).streams; trace = m.trace_ctx }))) [
        | inl p ↦ rw (Preserves, zoom, map_err, p) tt
        | inr (inl (a, t, p)) ↦ rw (Preserves, zoom, map_err, p) (AreWithin-refl (scalars_of m))
        | inr (inr (e, t, p)) ↦ rw (Preserves, zoom, map_err, p) (AreWithin-refl (scalars_of m))
      ]

  on_stream_maps-Preserves :
      (r : Exec (StreamMapsRun J B) UncatchableError (Unit {0})) (m : Machine J C M H Foreign B)
      → Preserves (scalars_of m) (on_stream_maps r m)
  unfolding on_stream_maps
  on_stream_maps-Preserves r m =
      elim (Run-cases
        (r (record { stream_maps = (m.exec_ctx).stream_maps; trace = m.trace_ctx }))) [
          | inl p ↦ rw (Preserves, zoom, map_err, p) tt
          | inr (inl (a, t, p)) ↦ rw (Preserves, zoom, map_err, p) (AreWithin-refl (scalars_of m))
          | inr (inr (e, t, p)) ↦ rw (Preserves, zoom, map_err, p) (AreWithin-refl (scalars_of m))
        ]

  set_errors-Keeps :
      ⦃objects : ErrorObjects J⦄
      → (instruction : String) (s : ContextScalars J C M Foreign)
        (r : Run (Machine J C M H Foreign B) (ExecutionError J) (Unit {0}))
      → Keeps s r
      → Keeps s (with_errors instruction r)
  unfolding with_errors set_errors
  set_errors-Keeps instruction s (ok a m) k = k
  set_errors-Keeps instruction s (err (ExecutionError.catchable e) m) k = k
  set_errors-Keeps instruction s (err (ExecutionError.uncatchable e) m) k = tt
  set_errors-Keeps instruction s panic k = tt

module _ {J C M H Foreign B : Type 0} ⦃values : NonEmptyVec (SparseCell (ValueAggregate J))⦄
    ⦃streams : NonEmptyVec (SparseCell C)⦄ ⦃maps : NonEmptyVec (SparseCell M)⦄ where
  scalar_epilog :
      (s start : ContextScalars J C M Foreign)
      (end_of : Exec (ContextScalars J C M Foreign) ScalarsError (Unit {0}))
      → ((end : ContextScalars J C M Foreign)
          → AreWithin start end
          → (n : ContextScalars J C M Foreign) × (end_of end ≡ ok tt n) × AreWithin s n)
      → (n : Machine J C M H Foreign B) → AreWithin start (scalars_of n)
      → (p : Machine J C M H Foreign B) × (on_scalars end_of n ≡ ok tt p)
        × AreWithin s (scalars_of p)
  scalar_epilog s start end_of closes n w =
      let c = closes (scalars_of n) w in (set_scalars c.0 n, rw (zoom, map_err, c.1) refl, c.2)

  new-Keeps :
      (run : Instruction Foreign → Execution J C M H Foreign B (Unit {0}))
      → RunKeeps run
      → (argument : NewArgument) (i : Instruction Foreign) (span : Span)
        (m : Machine J C M H Foreign B)
      → AreScoped (scalars_of m)
      → Keeps (scalars_of m) (execute_new run argument i span m)
  unfolding execute_new prolog epilog
  new-Keeps run keeps (NewArgument.stream name) i span m h =
      finally-Preserves (scalars_of m) _ _ (on_streams-Preserves (Streams.meet_scope_end name))
        (keeps i (prolog (NewArgument.stream name) span m) h)
  new-Keeps run keeps (NewArgument.stream_map name) i span m h =
      finally-Preserves (scalars_of m) _ _
        (on_stream_maps-Preserves (StreamMaps.meet_scope_end name))
        (keeps i (prolog (NewArgument.stream_map name) span m) h)
  new-Keeps run keeps (NewArgument.scalar name) i span m h =
      let ends = new_scalar-NewEnds name (scalars_of m) h in
      finally-Keeps (scalars_of m) (Scalars.meet_new_start_scalar name (scalars_of m)) _
        (scalar_epilog (scalars_of m) _ (Scalars.meet_new_end_scalar name) ends.1) _
        (keeps i (prolog (NewArgument.scalar name) span m) ends.0)
  new-Keeps run keeps (NewArgument.canon_stream name) i span m h =
      let ends = new_canon_stream-NewEnds name (scalars_of m) h in
      finally-Keeps (scalars_of m) (Scalars.meet_new_start_canon_stream name (scalars_of m)) _
        (scalar_epilog (scalars_of m) _ (Scalars.meet_new_end_canon_stream name) ends.1) _
        (keeps i (prolog (NewArgument.canon_stream name) span m) ends.0)
  new-Keeps run keeps (NewArgument.canon_stream_map name) i span m h =
      let ends = new_canon_map-NewEnds name (scalars_of m) h in
      finally-Keeps (scalars_of m) (Scalars.meet_new_start_canon_stream_map name (scalars_of m)) _
        (scalar_epilog (scalars_of m) _ (Scalars.meet_new_end_canon_stream_map name) ends.1) _
        (keeps i (prolog (NewArgument.canon_stream_map name) span m) ends.0)

module _ {J C M H Foreign B : Type 0} ⦃bimap : BiHashMap B⦄ ⦃json : Json J⦄
    ⦃objects : ErrorObjects J⦄ ⦃values : NonEmptyVec (SparseCell (ValueAggregate J))⦄
    ⦃streams : NonEmptyVec (SparseCell C)⦄ ⦃maps : NonEmptyVec (SparseCell M)⦄
    ⦃host : Host J C M H Foreign B⦄
    (foreign-Keeps : (f : Foreign) (m : Machine J C M H Foreign B)
      → AreScoped (scalars_of m)
      → Keeps (scalars_of m) (host.execute_foreign f m)) where
  kind-Keeps :
      (fuel : ℕ) (run : Instruction Foreign → Execution J C M H Foreign B (Unit {0}))
      → RunKeeps run
      → RunKeeps (execute_kind fuel run)
  unfolding execute_kind execute_null execute_never make_subgraph_incomplete
      set_subgraph_completeness
  kind-Keeps fuel run k (Instruction.foreign f) m h = foreign-Keeps f m h
  kind-Keeps fuel run k (Instruction.seq left right) m h = seq-Keeps run k left right m h
  kind-Keeps fuel run k (Instruction.par left right) m h =
      par-Keeps run k (host.to_string (Instruction.par left right)) left right m h
  kind-Keeps fuel run k (Instruction.xor left right) m h = xor-Keeps run k left right m h
  kind-Keeps fuel run k (Instruction.match_ values i) m h = match-Keeps run k values i m h
  kind-Keeps fuel run k (Instruction.mismatch values i) m h = mismatch-Keeps run k values i m h
  kind-Keeps fuel run k (Instruction.fold_scalar iterable iterator i l) m h =
      fold_scalar-Keeps run k iterable iterator i l m h
  kind-Keeps fuel run k (Instruction.fold_stream name position iterator i l) m h =
      Settles-Keeps (scalars_of m) _ (
        (execute_fold_stream-Settles run k
          (host.to_string (Instruction.fold_stream name position iterator i l)) iterator i l fuel
          name position m h).0)
  kind-Keeps fuel run k (Instruction.fold_stream_map name position iterator i l) m h =
      Settles-Keeps (scalars_of m) _ (
        (execute_fold_stream-Settles run k
          (host.to_string (Instruction.fold_stream_map name position iterator i l)) iterator i l
          fuel name position m h).1)
  kind-Keeps fuel run k Instruction.never m h = AreWithin-refl (scalars_of m)
  kind-Keeps fuel run k (Instruction.new argument i span) m h = new-Keeps run k argument i span m h
  kind-Keeps fuel run k (Instruction.next iterator) m h =
      next-Keeps run k (host.to_string (Instruction.next iterator)) iterator m h
  kind-Keeps fuel run k Instruction.null m h = AreWithin-refl (scalars_of m)

  -- Where the foreign instructions leave no scope behind, no instruction does, with any fuel:
  -- if the scalars are well scoped, a run that succeeds or ends with a catchable error leaves
  -- the depths, the visible depths and the rows of all three matrices as they were, but for
  -- values in cells of the current scope.
  pub execute-Keeps :
      (fuel : ℕ) (i : Instruction Foreign) (m : Machine J C M H Foreign B)
      → AreScoped (scalars_of m)
      → Keeps (scalars_of m) (execute fuel i m)
  unfolding execute step
  execute-Keeps zero i m h = tt
  execute-Keeps (suc fuel) i m h =
      let kind = kind-Keeps fuel (execute fuel) (execute-Keeps fuel) i m h in
      Keeps-if (scalars_of m) (is_foreign i) (execute_kind fuel (execute fuel) i m) _ kind (
        set_errors-Keeps (host.to_string i) (scalars_of m) (execute_kind fuel (execute fuel) i m)
          kind)
