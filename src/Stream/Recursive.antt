-- ===== src/Stream/Recursive.antt =====
-- air/src/execution_step/value_types/stream/recursive_stream.rs: the cursor of a fold over a
-- stream that grows while it is folded. The foldable values are kept as the slices they stand for.
use aquavm.Prelude.{Bool, true, false, List, [], ◌∷◌, if◌then◌else◌}
use aquavm.Stream.{Stream, StreamCursor, cursor, stream_slices}
use aquavm.Stream.Matrix.{
  add_new_empty_generation, remove_last_generation, last_generation_is_empty,
}

pub data RecursiveCursorState (T : Type 0) : Type 0 where
  continue : List (List T) → RecursiveCursorState T
  exhausted : RecursiveCursorState T

-- The cursor beside the stream, which its owner lends it.
pub record Recursion (T : Type 0) : Type 0 where
  pub cursor : StreamCursor
  pub stream : Stream T

abbrev pub empty_cursor : StreamCursor
empty_cursor = record { previous_start_idx = 0; current_start_idx = 0; new_start_idx = 0 }

module _ {T : Type 0} where
  abbrev pub from_iterable_values : List (List T) → RecursiveCursorState T
  from_iterable_values [] = RecursiveCursorState.exhausted
  from_iterable_values (g ∷ gs) = RecursiveCursorState.continue (g ∷ gs)

  unfoldable pub should_continue : RecursiveCursorState T → Bool
  should_continue (RecursiveCursorState.continue gs) = true
  should_continue RecursiveCursorState.exhausted = false

  unfoldable pub cursor_state : Recursion T → RecursiveCursorState T
  unfolding stream_slices
  cursor_state r = from_iterable_values (stream_slices r.cursor r.stream)

  unfoldable pub new_generation : Stream T → Stream T
  unfolding add_new_empty_generation
  new_generation s = record s { new_values = add_new_empty_generation s.new_values }

  unfoldable pub remove_last_generation_if_empty : Stream T → Stream T
  unfolding last_generation_is_empty remove_last_generation
  remove_last_generation_if_empty s =
      if last_generation_is_empty s.new_values
      then record s { new_values = remove_last_generation s.new_values }
      else s

  unfoldable pub met_fold_start : Recursion T → RecursiveCursorState T × Recursion T
  unfolding cursor_state should_continue new_generation cursor
  met_fold_start r =
      let state = cursor_state r in
      (
        state,
        record {
          cursor = cursor r.stream;
          stream = if should_continue state then new_generation r.stream else r.stream;
        },
      )

  unfoldable pub met_iteration_end : Recursion T → RecursiveCursorState T × Recursion T
  unfolding cursor_state remove_last_generation_if_empty new_generation cursor
  met_iteration_end r =
      let stream = remove_last_generation_if_empty r.stream in
      (cursor_state r, record { cursor = cursor stream; stream = new_generation stream })
