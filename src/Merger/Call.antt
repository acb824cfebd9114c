-- ===== src/Merger/Call.antt =====
-- merger/call_merger.rs and merger/call_merger/utils.rs: the merge of two call states.
pub mod Join
use aquavm.Prelude.{
  ℕ, String, Option, none, some, Bool, if◌then◌else◌, str_eq, Run, Exec, ok, err, panic, ◌>>=◌,
  ◌>>◌, pure, throw, Result, done, fail, and_then, lift,
}
use aquavm.Data.{TracePos, Cid, ValueRef, CallResult, ExecutedState}
use aquavm.Data.Eq.{value_ref_eq, call_result_eq}
use aquavm.Keeper.{
  BiHashMap, DataKeeper, result_trace_next_pos, next_prev_state, next_current_state,
}
use aquavm.Merger.{
  MergeError, CallResultError, PreparationScheme, ValueSource, source_of, incompatible_states,
  prepare_positions_mapping,
}

pub data MergerCallResult : Type 0 where
  not_met : MergerCallResult
  met : CallResult → TracePos → ValueSource → MergerCallResult

abbrev pub MergeResult : Type 0 → Type 0
MergeResult = Result MergeError

not_equal_values : ValueRef → ValueRef → MergeError
not_equal_values p c = MergeError.incorrect_call_result (CallResultError.values_not_equal p c)

incompatible_calls : CallResult → CallResult → MergeError
incompatible_calls p c =
    MergeError.incorrect_call_result (CallResultError.incompatible_call_results p c)

are_scalars_equal : ValueRef → ValueRef → MergeResult (Unit {0})
unfolding not_equal_values
are_scalars_equal p c = if value_ref_eq p c then done tt else fail (not_equal_values p c)

-- Values from streams could have different generations.
are_streams_equal : Cid → Cid → ValueRef → ValueRef → MergeResult (Unit {0})
unfolding not_equal_values
are_streams_equal pr cr p c = if str_eq pr cr then done tt else fail (not_equal_values p c)

check_equal : CallResult → CallResult → MergeResult (Unit {0})
unfolding incompatible_calls
check_equal p c = if call_result_eq p c then done tt else fail (incompatible_calls p c)

unfoldable pub merge_executed : ValueRef → ValueRef → MergeResult CallResult
unfolding are_scalars_equal are_streams_equal not_equal_values value_ref_eq
merge_executed (ValueRef.scalar p) (ValueRef.scalar c) =
    and_then (are_scalars_equal (ValueRef.scalar p) (ValueRef.scalar c))
      λ _. done (CallResult.executed (ValueRef.scalar p))
merge_executed (ValueRef.stream p g) (ValueRef.stream c h) =
    and_then (are_streams_equal p c (ValueRef.stream p g) (ValueRef.stream c h))
      λ _. done (CallResult.executed (ValueRef.stream p g))
merge_executed (ValueRef.unused p) (ValueRef.unused c) =
    and_then (are_scalars_equal (ValueRef.unused p) (ValueRef.unused c))
      λ _. done (CallResult.executed (ValueRef.unused p))
merge_executed p c = fail (not_equal_values p c)

unfoldable pub merge_call_results :
    CallResult → CallResult → MergeResult (CallResult × PreparationScheme)
unfolding merge_executed check_equal incompatible_calls call_result_eq
merge_call_results (CallResult.failed p) (CallResult.failed c) =
    and_then (check_equal (CallResult.failed p) (CallResult.failed c))
      λ _. done (CallResult.failed p, PreparationScheme.previous)
merge_call_results (CallResult.request_sent_by s) (CallResult.failed c) =
    done (CallResult.failed c, PreparationScheme.current)
merge_call_results (CallResult.failed p) (CallResult.request_sent_by s) =
    done (CallResult.failed p, PreparationScheme.previous)
merge_call_results (CallResult.request_sent_by s) (CallResult.request_sent_by t) =
    done (CallResult.request_sent_by s, PreparationScheme.previous)
merge_call_results (CallResult.request_sent_by s) (CallResult.executed c) =
    done (CallResult.executed c, PreparationScheme.current)
merge_call_results (CallResult.executed p) (CallResult.request_sent_by s) =
    done (CallResult.executed p, PreparationScheme.previous)
merge_call_results (CallResult.executed p) (CallResult.executed c) =
    and_then (merge_executed p c) λ merged. done (merged, PreparationScheme.both)
merge_call_results p c = fail (incompatible_calls p c)

module _ {B : Type 0} ⦃bimap : BiHashMap B⦄ where
  unfoldable pub prepare_call_result :
      CallResult → PreparationScheme → Exec (DataKeeper B) MergeError MergerCallResult
  prepare_call_result result scheme = do
    trace_pos ← λ k. ok (result_trace_next_pos k) k
    prepare_positions_mapping scheme
    pure (met result trace_pos (source_of scheme))

  unfoldable pub match_call :
      Option ExecutedState → Option ExecutedState → Exec (DataKeeper B) MergeError MergerCallResult
  unfolding prepare_call_result
  match_call (some (ExecutedState.call p)) (some (ExecutedState.call c)) = do
    (merged, scheme) ← lift (merge_call_results p c)
    prepare_call_result merged scheme
  match_call none (some (ExecutedState.call c)) = prepare_call_result c PreparationScheme.current
  match_call (some (ExecutedState.call p)) none = prepare_call_result p PreparationScheme.previous
  match_call none none = pure not_met
  match_call p c = incompatible_states p c "call"

  unfoldable pub try_merge_next_state_as_call : Exec (DataKeeper B) MergeError MergerCallResult
  unfolding match_call
  try_merge_next_state_as_call = do
    prev_state ← next_prev_state
    current_state ← next_current_state
    match_call prev_state current_state
