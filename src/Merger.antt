-- ===== src/Merger.antt =====
-- crates/air-lib/trace-handler/src/merger/{mod, errors, position_mapping}.rs: what the mergers of
-- the kinds of states share. Each merger is a child.
pub mod Call
pub mod Mapping
pub mod Canon
pub mod Ap
pub mod Par
pub mod Lore
pub mod Fold
use aquavm.Prelude.{
  ℕ, suc, zero, String, Option, none, some, ◌-◌, ◌==◌, if◌then◌else◌, Run, Exec, ok, err, panic,
  ◌>>=◌, ◌>>◌,
}
use aquavm.Data.{TracePos, ValueRef, CallResult, ApResult, CanonResult, FoldResult, ExecutedState}
use aquavm.Slider.{KeeperError}
use aquavm.Keeper.{
  BiHashMap, DataKeeper, prev_slider, current_slider, result_trace_next_pos, next_prev_state,
  next_current_state,
}

pub data DataType : Type 0 where
  previous current : DataType

pub data ApResultError : Type 0 where
  invalid_dst_generations : ApResult → ApResultError

pub data CallResultError : Type 0 where
  values_not_equal : ValueRef → ValueRef → CallResultError
  incompatible_call_results : CallResult → CallResult → CallResultError

pub data CanonResultError : Type 0 where
  incompatible_state : CanonResult → CanonResult → CanonResultError

pub data FoldResultError : Type 0 where
  subtrace_len_overflow : FoldResult → ℕ → FoldResultError
  several_records_with_same_pos : FoldResult → TracePos → FoldResultError
  fold_incorrect_subtraces_count : ℕ → FoldResultError

pub data MergeError : Type 0 where
  incompatible_executed_states : ExecutedState → ExecutedState → MergeError
  different_executed_state_expected : ExecutedState → DataType → String → MergeError
  keeper_error : KeeperError → MergeError
  incorrect_ap_result : ApResultError → MergeError
  incorrect_call_result : CallResultError → MergeError
  incorrect_canon_result : CanonResultError → MergeError
  incorrect_fold_result : FoldResultError → MergeError

pub data MergeCtxType : Type 0 where
  current previous : MergeCtxType

pub data ValueSource : Type 0 where
  previous_data current_data : ValueSource

pub data PreparationScheme : Type 0 where
  previous current both : PreparationScheme

unfoldable pub source_of : PreparationScheme → ValueSource
source_of PreparationScheme.previous = ValueSource.previous_data
source_of PreparationScheme.both = ValueSource.previous_data
source_of PreparationScheme.current = ValueSource.current_data

module _ {B : Type 0} where
  -- `Err(MergeError::incompatible_states(prev_state, current_state, expected))`.
  unfoldable pub incompatible_states :
      {A : Type 0}
      → Option ExecutedState
      → Option ExecutedState
      → String
      → Exec (DataKeeper B) MergeError A
  incompatible_states (some p) (some c) expected k =
      err (MergeError.incompatible_executed_states p c) k
  incompatible_states none (some c) expected k =
      err (MergeError.different_executed_state_expected c DataType.current expected) k
  incompatible_states (some p) none expected k =
      err (MergeError.different_executed_state_expected p DataType.previous expected) k
  incompatible_states none none expected k = panic

module _ {B : Type 0} ⦃bimap : BiHashMap B⦄ where
  -- `position() - 1` panics at the start of a trace.
  unfoldable pub map_to_prev : TracePos → TracePos → DataKeeper B → DataKeeper B
  map_to_prev new_pos pos k = record k {
    new_to_prev_pos = bimap.insert new_pos (pos - 1) k.new_to_prev_pos;
  }

  unfoldable pub map_to_current : TracePos → TracePos → DataKeeper B → DataKeeper B
  map_to_current new_pos pos k = record k {
    new_to_current_pos = bimap.insert new_pos (pos - 1) k.new_to_current_pos;
  }

  unfoldable pub prepare_positions_mapping :
      PreparationScheme → Exec (DataKeeper B) MergeError (Unit {0})
  unfolding map_to_prev map_to_current
  prepare_positions_mapping PreparationScheme.previous k =
      if (prev_slider k).position == 0
      then panic
      else ok tt (map_to_prev (result_trace_next_pos k) (prev_slider k).position k)
  prepare_positions_mapping PreparationScheme.current k =
      if (current_slider k).position == 0
      then panic
      else ok tt (map_to_current (result_trace_next_pos k) (current_slider k).position k)
  prepare_positions_mapping PreparationScheme.both k =
      if (prev_slider k).position == 0
      then panic
      else if (current_slider k).position == 0
      then panic
      else ok tt (
          map_to_current (result_trace_next_pos k) (current_slider k).position
            (map_to_prev (result_trace_next_pos k) (prev_slider k).position k))
