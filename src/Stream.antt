-- ===== src/Stream.antt =====
-- air/src/execution_step/value_types/stream/stream_definition.rs: the values of a stream from
-- previous data, from current data, and new ones; and their compaction.
pub mod Matrix
pub mod Recursive
pub mod Pushing
pub mod Adding
pub mod Compact
pub mod Yields
use aquavm.Prelude.{
  ℕ, zero, suc, ◌+◌, ◌-◌, Bool, true, false, Option, none, some, List, [], ◌∷◌, ◌++◌, length, ltb,
  u32_mod, checked_add, if◌then◌else◌, Run, Exec, ok, err, panic, ◌>>=◌, ◌>>◌, or_panic, modify,
  zoom, map_err, pure, throw,
}
use aquavm.Data.{TracePos, GenerationIdx}
use aquavm.Merger.{ValueSource}
use aquavm.Handler.{TraceHandler, GenerationCompactificationError, update_generation}
use Matrix.{
  ValuesMatrix, iter, slice_iter, generations_count, remove_empty_generations,
  add_value_to_generation, add_to_last_generation,
}

abbrev pub stream_max_size : ℕ
stream_max_size = 1024

pub data Generation : Type 0 where
  previous : GenerationIdx → Generation
  current : GenerationIdx → Generation
  fresh : Generation

unfoldable pub from_data : ValueSource → GenerationIdx → Generation
from_data ValueSource.previous_data g = Generation.previous g
from_data ValueSource.current_data g = Generation.current g

-- The two uncatchable errors of a stream.
pub data UncatchableError : Type 0 where
  stream_size_limit_exceeded : UncatchableError
  generation_compactification_error : GenerationCompactificationError → UncatchableError

pub record StreamCursor : Type 0 where
  pub previous_start_idx : GenerationIdx
  pub current_start_idx : GenerationIdx
  pub new_start_idx : GenerationIdx

pub record Stream (T : Type 0) : Type 0 where
  pub previous_values : ValuesMatrix T
  pub current_values : ValuesMatrix T
  pub new_values : ValuesMatrix T

module _ {T : Type 0} where
  abbrev pub empty : Stream T
  empty = record {
    previous_values = Matrix.new;
    current_values = Matrix.new;
    new_values = Matrix.new;
  }

  abbrev pub stream_iter : Stream T → List T
  stream_iter s = iter s.previous_values ++ (iter s.current_values ++ iter s.new_values)

  unfoldable pub stream_slices : StreamCursor → Stream T → List (List T)
  unfolding slice_iter
  stream_slices c s =
      slice_iter c.previous_start_idx s.previous_values
      ++ (slice_iter c.current_start_idx s.current_values
          ++ slice_iter c.new_start_idx s.new_values)

  unfoldable pub cursor : Stream T → StreamCursor
  cursor s = record {
    previous_start_idx = generations_count s.previous_values;
    current_start_idx = generations_count s.current_values;
    new_start_idx = generations_count s.new_values;
  }

  unfoldable pub check_stream_size_limit : Exec (Stream T) UncatchableError (Unit {0})
  check_stream_size_limit = do
    known ← λ s. or_panic (checked_add s.previous_values.size s.current_values.size) s
    cumulative_size ← λ s. or_panic (checked_add known s.new_values.size) s
    λ s.
        if ltb cumulative_size stream_max_size
        then ok tt s
        else err UncatchableError.stream_size_limit_exceeded s

  add_by : {E : Type 0} → T → Generation → Exec (Stream T) E (Unit {0})
  unfolding add_value_to_generation add_to_last_generation
  add_by v (Generation.previous g) =
      zoom (λ s. s.previous_values) (λ m s. record s { previous_values = m })
        (add_value_to_generation v g)
  add_by v (Generation.current g) =
      zoom (λ s. s.current_values) (λ m s. record s { current_values = m })
        (add_value_to_generation v g)
  add_by v Generation.fresh =
      zoom (λ s. s.new_values) (λ m s. record s { new_values = m }) (add_to_last_generation v)

  unfoldable pub add_value : T → Generation → Exec (Stream T) UncatchableError (Unit {0})
  unfolding add_by check_stream_size_limit
  add_value v g = do add_by v g; check_stream_size_limit

abbrev pub compacted : {T : Type 0} → Stream T → Stream T
compacted s = record {
  previous_values = remove_empty_generations s.previous_values;
  current_values = remove_empty_generations s.current_values;
  new_values = remove_empty_generations s.new_values;
}

-- The trait of the values that know their state in the trace.
pub record TracePosOperate (T : Type 0) : Type 0 where
  pub get_trace_pos : T → TracePos

module _ {T B : Type 0} ⦃place : TracePosOperate T⦄ where
  update_slice : List T → GenerationIdx → Exec (TraceHandler B) UncatchableError (Unit {0})
  update_slice [] g = pure tt
  update_slice (v ∷ vs) g = do
    map_err UncatchableError.generation_compactification_error
        (update_generation (place.get_trace_pos v) g)
    update_slice vs g

  -- `values.enumerate()` from a position on.
  unfoldable pub update_from :
      ℕ → List (List T) → GenerationIdx → Exec (TraceHandler B) UncatchableError (Unit {0})
  unfolding update_slice
  update_from position [] start_idx = pure tt
  update_from position (vs ∷ slices) start_idx = do
    generation ← or_panic (checked_add start_idx position)
    update_slice vs generation
    update_from (position + 1) slices start_idx

  unfoldable pub update_generations :
      List (List T) → GenerationIdx → Exec (TraceHandler B) UncatchableError (Unit {0})
  unfolding update_from
  update_generations = update_from 0

  -- The stream is compacted whatever comes of the trace.
  unfoldable pub compactify :
      Stream T → Stream T × Exec (TraceHandler B) UncatchableError (Unit {0})
  unfolding update_generations slice_iter remove_empty_generations
  compactify s =
      let t = compacted s in
      (
        t,
        (do
          update_generations (slice_iter 0 t.previous_values) 0
          let start_idx = generations_count t.previous_values
          update_generations (slice_iter 0 t.current_values) start_idx
          start_idx ← or_panic (checked_add start_idx (generations_count t.current_values))
          update_generations (slice_iter 0 t.new_values) start_idx),
      )
