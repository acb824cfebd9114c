-- ===== src/Interpreter/StreamFolds.antt =====
-- air/src/execution_step/instructions/{fold_stream, fold_stream_map}.rs and the directory
-- fold_stream: a fold over the stream of a name, or of a stream map, which may grow while it is folded. `run` is the execution of an instruction that stands inside.
pub mod Quiet
pub mod Settles
use aquavm.Prelude.{
  ℕ, ◌+◌, leb, u32_mod, if◌then◌else◌, zero, suc, String, Option, none, some, List, [], ◌∷◌, Bool,
  true, false, ◌||◌, Run, Exec, ok, err, panic, ◌>>=◌, ◌>>◌, pure, modify,
}
use aquavm.SparseMatrix.{NonEmptyVec, SparseCell}
use aquavm.Handler.{TraceHandler, meet_iteration_start, meet_generation_end}
use aquavm.Handler
use aquavm.Keeper.{BiHashMap}
use aquavm.Stream.{Stream, StreamCursor}
use aquavm.Stream.Recursive.{
  RecursiveCursorState, Recursion, empty_cursor, met_fold_start, met_iteration_end,
}
use aquavm.Streams
use aquavm.Streams.{AirPos}
use aquavm.StreamMaps
use aquavm.Values.{
  ValueAggregate, IterableValue, IterableItem, Json, get_result, get_tetraplet, get_trace_pos,
  get_provenance, peek,
}
use aquavm.Errors.{ExecutionError}
use aquavm.Interpreter.{
  Instruction, LastInstruction, IterableType, Machine, Execution, set_ctx,
  set_subgraph_completeness, make_subgraph_incomplete, is_subgraph_complete, on_trace,
}
use aquavm.Interpreter.Folds.{execute_fold}

pub record FoldGenerationObserver : Type 0 where
  pub subgraph_complete : Bool

unfoldable pub new_observer : FoldGenerationObserver
new_observer = record { subgraph_complete = false }

unfoldable pub observe : Bool → FoldGenerationObserver → FoldGenerationObserver
observe completeness o = record { subgraph_complete = o.subgraph_complete || completeness }

module _ {J : Type 0} ⦃json : Json J⦄ where
  -- The items that `IterableVecResolvedCall::peek` gives at the cursors.
  unfoldable pub vec_items : List (ValueAggregate J) → List (IterableItem J)
  unfolding get_result get_tetraplet get_trace_pos get_provenance
  vec_items [] = []
  vec_items (v ∷ call_results) =
      record {
        result = get_result v;
        tetraplet = get_tetraplet v;
        pos = get_trace_pos v;
        provenance = get_provenance v;
      }
      ∷ vec_items call_results

  -- `IterableVecResolvedCall::init`
  abbrev pub vec_iterable : List (ValueAggregate J) → IterableValue J
  unfolding vec_items
  vec_iterable call_results = record { items = vec_items call_results; cursor = 0 }

-- `get_mut_stream`, with what is written through the reference; `none` is its `unwrap`.
abbrev pub StreamRef : (J C M H Foreign B : Type 0) → Type 0
StreamRef J C M H Foreign B =
    Machine J C M H Foreign B
    → Option (Stream (ValueAggregate J) × (Stream (ValueAggregate J) → Machine J C M H Foreign B))

module _ {J C M H Foreign B : Type 0} where
  unfoldable pub update_completeness :
      FoldGenerationObserver → Machine J C M H Foreign B → Machine J C M H Foreign B
  unfolding set_subgraph_completeness
  update_completeness o = set_subgraph_completeness o.subgraph_complete

  unfoldable pub throw_error_if_not_catchable :
      Run (Machine J C M H Foreign B) (ExecutionError J) (Unit {0})
      → Run (Machine J C M H Foreign B) (ExecutionError J) (Unit {0})
  throw_error_if_not_catchable (ok a m) = ok tt m
  throw_error_if_not_catchable (err (ExecutionError.catchable e) m) = ok tt m
  throw_error_if_not_catchable (err (ExecutionError.uncatchable e) m) =
      err (ExecutionError.uncatchable e) m
  throw_error_if_not_catchable panic = panic

  -- The recursive cursor at work on the stream that it is lent.
  unfoldable pub on_recursion :
      StreamRef J C M H Foreign B
      → (Recursion (ValueAggregate J)
          → RecursiveCursorState (ValueAggregate J) × Recursion (ValueAggregate J))
      → StreamCursor
      → Execution J C M H Foreign B (RecursiveCursorState (ValueAggregate J) × StreamCursor)
  on_recursion get_mut_stream f cursor m = elim (get_mut_stream m) [
    | none ↦ panic
    | some (stream, put) ↦
        let r = f (record { cursor = cursor; stream = stream }) in
        ok (r.0, (r.1).cursor) (put (r.1).stream)
  ]

  -- `tracker.meet_fold_stream()`
  unfoldable pub meet_fold_stream : Execution J C M H Foreign B ℕ
  meet_fold_stream m =
      let c = m.exec_ctx in
      if leb u32_mod (c.seen_stream_count + 1)
      then panic
      else ok (c.seen_stream_count + 1)
          (set_ctx (record c { seen_stream_count = c.seen_stream_count + 1 }) m)

  unfoldable pub stream_at : String → AirPos → StreamRef J C M H Foreign B
  stream_at name position m = elim (Streams.get_mut name position (m.exec_ctx).streams) [
    | none ↦ none
    | some (stream, put) ↦
        some (stream, λ changed. set_ctx (record m.exec_ctx { streams = put changed }) m)
  ]

  unfoldable pub map_stream_at : String → AirPos → StreamRef J C M H Foreign B
  map_stream_at name position m = elim (StreamMaps.get_mut name position (m.exec_ctx).stream_maps) [
    | none ↦ none
    | some (stream_map, put) ↦ some (
      stream_map.stream,
      λ changed.
          set_ctx (record m.exec_ctx { stream_maps = put (record stream_map { stream = changed }) })
            m,
    )
  ]

module _ {J C M H Foreign B : Type 0} ⦃bimap : BiHashMap B⦄ ⦃json : Json J⦄
    ⦃values : NonEmptyVec (SparseCell (ValueAggregate J))⦄ ⦃streams : NonEmptyVec (SparseCell C)⦄
    ⦃maps : NonEmptyVec (SparseCell M)⦄
    (run : Instruction Foreign → Execution J C M H Foreign B (Unit {0})) where
  -- The body of the loop of `execute_iterations`, by what was peeked.
  unfoldable pub execute_iteration :
      String
      → ℕ
      → String
      → Instruction Foreign
      → LastInstruction Foreign
      → IterableValue J
      → FoldGenerationObserver
      → Option (IterableItem J)
      → Execution J C M H Foreign B FoldGenerationObserver
  unfolding throw_error_if_not_catchable execute_fold observe is_subgraph_complete
  execute_iteration fold fold_id iterable_name instruction last_instruction iterable observer none =
      pure observer
  execute_iteration fold fold_id iterable_name instruction last_instruction iterable observer
        (some value) =
      do
        on_trace fold (meet_iteration_start fold_id value.pos)
        λ m. throw_error_if_not_catchable (
            execute_fold run iterable (IterableType.stream fold_id) iterable_name instruction
              last_instruction m)
        on_trace fold (meet_generation_end fold_id)
        λ m. ok (observe (is_subgraph_complete m) observer) m

  unfoldable pub execute_iterations :
      String
      → ℕ
      → String
      → Instruction Foreign
      → LastInstruction Foreign
      → List (List (ValueAggregate J))
      → FoldGenerationObserver
      → Execution J C M H Foreign B FoldGenerationObserver
  unfolding execute_iteration peek vec_iterable
  execute_iterations fold fold_id iterable_name instruction last_instruction [] observer =
      pure observer
  execute_iterations fold fold_id iterable_name instruction last_instruction (g ∷ iterables)
        observer =
      do
        observer ←
            execute_iteration fold fold_id iterable_name instruction last_instruction
              (vec_iterable g) observer (peek (vec_iterable g))
        execute_iterations fold fold_id iterable_name instruction last_instruction iterables
            observer

  -- The loop over what the stream got meanwhile; it does not end when the fuel is used up.
  unfoldable pub recursive_loop :
      ℕ
      → StreamRef J C M H Foreign B
      → String
      → ℕ
      → String
      → Instruction Foreign
      → LastInstruction Foreign
      → RecursiveCursorState (ValueAggregate J)
      → StreamCursor
      → FoldGenerationObserver
      → Execution J C M H Foreign B FoldGenerationObserver
  unfolding execute_iterations on_recursion met_iteration_end
  recursive_loop fuel get_mut_stream fold fold_id iterable_name instruction last_instruction
        RecursiveCursorState.exhausted cursor observer =
      pure observer
  recursive_loop zero get_mut_stream fold fold_id iterable_name instruction last_instruction
        (RecursiveCursorState.continue iterables) cursor observer =
      λ m. panic
  recursive_loop (suc fuel) get_mut_stream fold fold_id iterable_name instruction last_instruction
        (RecursiveCursorState.continue iterables) cursor observer =
      do
        observer ←
            execute_iterations fold fold_id iterable_name instruction last_instruction iterables
              observer
        cursor_state ← on_recursion get_mut_stream met_iteration_end cursor
        recursive_loop fuel get_mut_stream fold fold_id iterable_name instruction last_instruction
            cursor_state.0 cursor_state.1 observer

  unfoldable pub execute_with_stream :
      ℕ
      → StreamRef J C M H Foreign B
      → String
      → String
      → Instruction Foreign
      → LastInstruction Foreign
      → Execution J C M H Foreign B (Unit {0})
  unfolding meet_fold_stream recursive_loop on_recursion met_fold_start update_completeness
      new_observer
  execute_with_stream fuel get_mut_stream fold iterable_name instruction last_instruction = do
    fold_id ← meet_fold_stream
    on_trace fold (Handler.meet_fold_start fold_id)
    cursor_state ← on_recursion get_mut_stream met_fold_start empty_cursor
    observer ←
        recursive_loop fuel get_mut_stream fold fold_id iterable_name instruction last_instruction
          cursor_state.0 cursor_state.1 new_observer
    modify (update_completeness observer)
    on_trace fold (Handler.meet_fold_end fold_id)

  -- A stream or a stream map that was not met yet is waited for.
  unfoldable pub fold_if_met :
      ℕ
      → StreamRef J C M H Foreign B
      → {A : Type 0} → Option A
      → String
      → String
      → Instruction Foreign
      → LastInstruction Foreign
      → Execution J C M H Foreign B (Unit {0})
  unfolding execute_with_stream make_subgraph_incomplete
  fold_if_met fuel get_mut_stream none fold iterator instruction last_instruction m =
      ok tt (make_subgraph_incomplete m)
  fold_if_met fuel get_mut_stream (some met) fold iterator instruction last_instruction m =
      execute_with_stream fuel get_mut_stream fold iterator instruction last_instruction m

  unfoldable pub execute_fold_stream :
      ℕ
      → String
      → AirPos
      → String
      → String
      → Instruction Foreign
      → LastInstruction Foreign
      → Execution J C M H Foreign B (Unit {0})
  unfolding fold_if_met stream_at
  execute_fold_stream fuel name position fold iterator instruction last_instruction m =
      fold_if_met fuel (stream_at name position) (Streams.get name position (m.exec_ctx).streams)
        fold iterator instruction last_instruction m

  unfoldable pub execute_fold_stream_map :
      ℕ
      → String
      → AirPos
      → String
      → String
      → Instruction Foreign
      → LastInstruction Foreign
      → Execution J C M H Foreign B (Unit {0})
  unfolding fold_if_met map_stream_at
  execute_fold_stream_map fuel name position fold iterator instruction last_instruction m =
      fold_if_met fuel (map_stream_at name position)
        (StreamMaps.get name position (m.exec_ctx).stream_maps) fold iterator instruction
        last_instruction m
