-- ===== src/Errors.antt =====
-- air/src/execution_step/errors/{execution_errors, catchable_errors, uncatchable_errors, joinable}.rs:
-- the errors of the instructions that hold other instructions, and what becomes of them.
use aquavm.Prelude.{ℕ, String, Bool, true, false}
use aquavm.ErrorObject.{ErrorObjectError}
use aquavm.SparseMatrix.{ScalarsError}
use aquavm.Handler.{TraceHandlerError}
use aquavm.Stream.{UncatchableError}

-- The errors that only instructions without a body give stand behind `other`, by their text.
pub data CatchableError (J : Type 0) : Type 0 where
  match_values_not_equal : CatchableError J
  mismatch_values_equal : CatchableError J
  variable_not_found : String → CatchableError J
  fold_iterates_over_non_array : J → String → CatchableError J
  user_error : J → CatchableError J
  variable_was_not_initialized_after_new : String → CatchableError J
  invalid_error_object_error : ErrorObjectError J → CatchableError J
  other : String → CatchableError J

pub data Uncatchable : Type 0 where
  trace_error : TraceHandlerError → String → Uncatchable
  stream_error : UncatchableError → Uncatchable
  fold_state_not_found : String → Uncatchable
  multiple_iterable_values : String → Uncatchable
  shadowing_is_not_allowed : String → Uncatchable
  scalars_state_corrupted : String → ℕ → Uncatchable
  other : String → Uncatchable

pub data ExecutionError (J : Type 0) : Type 0 where
  catchable : CatchableError J → ExecutionError J
  uncatchable : Uncatchable → ExecutionError J

module _ {J : Type 0} where
  unfoldable pub is_catchable : ExecutionError J → Bool
  is_catchable (ExecutionError.catchable e) = true
  is_catchable (ExecutionError.uncatchable e) = false

  unfoldable pub catchable_is_joinable : CatchableError J → Bool
  catchable_is_joinable (CatchableError.variable_not_found name) = true
  catchable_is_joinable e = false

  unfoldable pub is_joinable : ExecutionError J → Bool
  unfolding catchable_is_joinable
  is_joinable (ExecutionError.catchable e) = catchable_is_joinable e
  is_joinable (ExecutionError.uncatchable e) = false

  unfoldable pub catchable_affects_last_error : CatchableError J → Bool
  catchable_affects_last_error CatchableError.match_values_not_equal = false
  catchable_affects_last_error CatchableError.mismatch_values_equal = false
  catchable_affects_last_error e = true

  unfoldable pub affects_last_error : ExecutionError J → Bool
  unfolding catchable_affects_last_error
  affects_last_error (ExecutionError.catchable e) = catchable_affects_last_error e
  affects_last_error (ExecutionError.uncatchable e) = false

  unfoldable pub affects_error : ExecutionError J → Bool
  affects_error (ExecutionError.catchable e) = true
  affects_error (ExecutionError.uncatchable e) = false

  -- The errors of the scalars, as `execute` returns them.
  unfoldable pub from_scalars_error : ScalarsError → ExecutionError J
  from_scalars_error (ScalarsError.shadowing_is_not_allowed name) =
      ExecutionError.uncatchable (Uncatchable.shadowing_is_not_allowed name)
  from_scalars_error (ScalarsError.scalars_state_corrupted name depth) =
      ExecutionError.uncatchable (Uncatchable.scalars_state_corrupted name depth)
  from_scalars_error (ScalarsError.multiple_iterable_values name) =
      ExecutionError.uncatchable (Uncatchable.multiple_iterable_values name)
  from_scalars_error (ScalarsError.fold_state_not_found name) =
      ExecutionError.uncatchable (Uncatchable.fold_state_not_found name)
  from_scalars_error (ScalarsError.variable_not_found name) =
      ExecutionError.catchable (CatchableError.variable_not_found name)
  from_scalars_error (ScalarsError.variable_was_not_initialized_after_new name) =
      ExecutionError.catchable (CatchableError.variable_was_not_initialized_after_new name)
