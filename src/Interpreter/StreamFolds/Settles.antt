-- ===== src/Interpreter/StreamFolds/Settles.antt =====
-- air/src/execution_step/instructions/fold_stream/stream_execute_helpers.rs: a fold over a stream
-- keeps catchable errors to itself, and leaves no scope behind.
use aquavm.Prelude.{ℕ, zero, suc, String, Option, none, some, List, [], ◌∷◌}
use aquavm.SparseMatrix.{NonEmptyVec, SparseCell}
use aquavm.Handler.{TraceHandler, TraceHandlerError, meet_iteration_start, meet_generation_end}
use aquavm.Handler
use aquavm.Keeper.{BiHashMap}
use aquavm.Scalars.Scopes.{AreScoped, AreWithin-refl}
use aquavm.Stream.{StreamCursor}
use aquavm.Stream.Recursive.{RecursiveCursorState, met_iteration_end, met_fold_start, empty_cursor}
use aquavm.Streams
use aquavm.Streams.{AirPos}
use aquavm.StreamMaps
use aquavm.Values.{ValueAggregate, IterableValue, IterableItem, Json, peek}
use aquavm.Interpreter.{
  Instruction, LastInstruction, IterableType, Machine, Execution, on_trace,
  make_subgraph_incomplete, set_subgraph_completeness,
}
use aquavm.Interpreter.Scoped.{scalars_of, RunKeeps}
use aquavm.Interpreter.Closed.Fold.{fold-Keeps}
use aquavm.Interpreter.Folds.{execute_fold}
use aquavm.Interpreter.StreamFolds.{
  FoldGenerationObserver, vec_iterable, update_completeness, throw_error_if_not_catchable,
  on_recursion, stream_at, execute_iteration, execute_iterations, recursive_loop,
  execute_with_stream, execute_fold_stream, execute_fold_stream_map, fold_if_met, map_stream_at,
  meet_fold_stream, StreamRef, new_observer,
}
use aquavm.Interpreter.StreamFolds.Quiet.{
  Settles, Settles-continue, on_trace-Settles, thrown-Settles, Lends, stream_at-Lends,
  map_stream_at-Lends, meet_fold_stream-Settles,
}

module _ {J C M H Foreign B : Type 0} ⦃bimap : BiHashMap B⦄ ⦃json : Json J⦄
    ⦃values : NonEmptyVec (SparseCell (ValueAggregate J))⦄ ⦃streams : NonEmptyVec (SparseCell C)⦄
    ⦃maps : NonEmptyVec (SparseCell M)⦄
    (run : Instruction Foreign → Execution J C M H Foreign B (Unit {0})) (keeps : RunKeeps run)
    (fold : String) (iterator : String) (i : Instruction Foreign)
    (l : LastInstruction Foreign) where
  iteration-Settles :
      (fold_id : ℕ) (iterable : IterableValue J) (o : FoldGenerationObserver)
      (item : Option (IterableItem J)) (m : Machine J C M H Foreign B)
      → AreScoped (scalars_of m)
      → Settles (scalars_of m) (execute_iteration run fold fold_id iterator i l iterable o item m)
  unfolding execute_iteration
  iteration-Settles fold_id iterable o none m h = AreWithin-refl (scalars_of m)
  iteration-Settles fold_id iterable o (some item) m h =
      Settles-continue (scalars_of m) h (on_trace fold (meet_iteration_start fold_id item.pos) m)
        (on_trace-Settles fold (meet_iteration_start fold_id item.pos) m) _
        (λ a n hn.
          Settles-continue (scalars_of n) hn
            (throw_error_if_not_catchable
              (execute_fold run iterable (IterableType.stream fold_id) iterator i l n))
            (thrown-Settles (scalars_of n)
              (execute_fold run iterable (IterableType.stream fold_id) iterator i l n)
              (fold-Keeps run keeps iterable (IterableType.stream fold_id) iterator i l n hn))
            _
            (λ a n hn.
              Settles-continue (scalars_of n) hn (on_trace fold (meet_generation_end fold_id) n)
                (on_trace-Settles fold (meet_generation_end fold_id) n) _
                (λ a n hn. AreWithin-refl (scalars_of n))))

  iterations-Settles :
      (fold_id : ℕ) (gs : List (List (ValueAggregate J))) (o : FoldGenerationObserver)
      (m : Machine J C M H Foreign B)
      → AreScoped (scalars_of m)
      → Settles (scalars_of m) (execute_iterations run fold fold_id iterator i l gs o m)
  unfolding execute_iterations
  iterations-Settles fold_id [] o m h = AreWithin-refl (scalars_of m)
  iterations-Settles fold_id (g ∷ gs) o m h =
      Settles-continue (scalars_of m) h
        (execute_iteration run fold fold_id iterator i l (vec_iterable g) o (peek (vec_iterable g))
          m)
        (iteration-Settles fold_id (vec_iterable g) o (peek (vec_iterable g)) m h)
        (execute_iterations run fold fold_id iterator i l gs) (iterations-Settles fold_id gs)

  loop-Settles :
      (fold_id : ℕ) (get : StreamRef J C M H Foreign B) (lends : Lends get) (fuel : ℕ)
      (state : RecursiveCursorState (ValueAggregate J)) (cursor : StreamCursor)
      (o : FoldGenerationObserver) (m : Machine J C M H Foreign B)
      → AreScoped (scalars_of m)
      → Settles
          (scalars_of m)
          (recursive_loop run fuel get fold fold_id iterator i l state cursor o m)
  unfolding recursive_loop
  loop-Settles fold_id get lends fuel RecursiveCursorState.exhausted cursor o m h =
      AreWithin-refl (scalars_of m)
  loop-Settles fold_id get lends zero (RecursiveCursorState.continue gs) cursor o m h = tt
  loop-Settles fold_id get lends (suc fuel) (RecursiveCursorState.continue gs) cursor o m h =
      Settles-continue (scalars_of m) h (execute_iterations run fold fold_id iterator i l gs o m)
        (iterations-Settles fold_id gs o m h) _
        (λ o n hn.
          Settles-continue (scalars_of n) hn (on_recursion get met_iteration_end cursor n)
            (lends met_iteration_end cursor n) _
            (λ state n hn. loop-Settles fold_id get lends fuel state.0 state.1 o n hn))

  stream-Settles :
      (fuel : ℕ) (get : StreamRef J C M H Foreign B) (lends : Lends get)
      (m : Machine J C M H Foreign B)
      → AreScoped (scalars_of m)
      → Settles (scalars_of m) (execute_with_stream run fuel get fold iterator i l m)
  unfolding execute_with_stream update_completeness set_subgraph_completeness
  stream-Settles fuel get lends m h =
      Settles-continue (scalars_of m) h (meet_fold_stream m) (meet_fold_stream-Settles m) _
        (λ fold_id n hn.
          Settles-continue (scalars_of n) hn (on_trace fold (Handler.meet_fold_start fold_id) n)
            (on_trace-Settles fold (Handler.meet_fold_start fold_id) n) _
            (λ a n hn.
              Settles-continue (scalars_of n) hn (on_recursion get met_fold_start empty_cursor n)
                (lends met_fold_start empty_cursor n) _
                (λ state n hn.
                  Settles-continue (scalars_of n) hn
                    (recursive_loop run fuel get fold fold_id iterator i l state.0 state.1
                      new_observer n)
                    (loop-Settles fold_id get lends fuel state.0 state.1 new_observer n hn) _
                    (λ o n hn.
                      on_trace-Settles fold (Handler.meet_fold_end fold_id)
                        (update_completeness o n)))))

  met-Settles :
      {A : Type 0} (fuel : ℕ) (get : StreamRef J C M H Foreign B) (lends : Lends get)
      (met : Option A) (m : Machine J C M H Foreign B)
      → AreScoped (scalars_of m)
      → Settles (scalars_of m) (fold_if_met run fuel get met fold iterator i l m)
  unfolding fold_if_met make_subgraph_incomplete set_subgraph_completeness
  met-Settles fuel get lends none m h = AreWithin-refl (scalars_of m)
  met-Settles fuel get lends (some met) m h = stream-Settles fuel get lends m h

  -- Take well scoped scalars, and a fold over a stream or over a stream map whose instructions
  -- inside leave no scope behind. Then the fold does not end with a catchable error, though its
  -- body may; and if it succeeds, it leaves the depths, the visible depths and the rows of all
  -- three matrices as they were, but for values in cells of the current scope.
  pub execute_fold_stream-Settles :
      (fuel : ℕ) (name : String) (position : AirPos) (m : Machine J C M H Foreign B)
      → AreScoped (scalars_of m)
      → Settles (scalars_of m) (execute_fold_stream run fuel name position fold iterator i l m)
        × Settles
            (scalars_of m)
            (execute_fold_stream_map run fuel name position fold iterator i l m)
  unfolding execute_fold_stream execute_fold_stream_map
  execute_fold_stream-Settles fuel name position m h = (
    met-Settles fuel (stream_at name position) (stream_at-Lends name position)
        (Streams.get name position (m.exec_ctx).streams) m h,
    met-Settles fuel (map_stream_at name position) (map_stream_at-Lends name position)
        (StreamMaps.get name position (m.exec_ctx).stream_maps) m h,
  )
