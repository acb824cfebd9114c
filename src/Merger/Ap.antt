-- ===== src/Merger/Ap.antt =====
-- merger/ap_merger.rs: the merge of two ap states.
use aquavm.Prelude.{Option, none, some, List, [], ◌∷◌, Exec, ◌>>=◌, ◌>>◌, pure, throw}
use aquavm.Data.{GenerationIdx, ApResult, ExecutedState}
use aquavm.Keeper.{BiHashMap, DataKeeper, next_prev_state, next_current_state}
use aquavm.Merger.{
  MergeError, ApResultError, PreparationScheme, ValueSource, source_of, incompatible_states,
  prepare_positions_mapping,
}

pub data MergerApResult : Type 0 where
  not_met : MergerApResult
  met : GenerationIdx → ValueSource → MergerApResult

-- The macro `to_maybe_generation!`: the only generation, or the error.
to_maybe_generation : {S : Type 0} → ApResult → List GenerationIdx → Exec S MergeError GenerationIdx
to_maybe_generation r (g ∷ []) = pure g
to_maybe_generation r _ =
    throw (MergeError.incorrect_ap_result (ApResultError.invalid_dst_generations r))

module _ {B : Type 0} ⦃bimap : BiHashMap B⦄ where
  unfoldable pub prepare_merge_result :
      ApResult → PreparationScheme → Exec (DataKeeper B) MergeError MergerApResult
  unfolding to_maybe_generation
  prepare_merge_result r scheme = do
    prepare_positions_mapping scheme
    generation ← to_maybe_generation r r.res_generations
    pure (met generation (source_of scheme))

  unfoldable pub match_ap :
      Option ExecutedState → Option ExecutedState → Exec (DataKeeper B) MergeError MergerApResult
  unfolding prepare_merge_result
  match_ap (some (ExecutedState.ap p)) (some (ExecutedState.ap c)) =
      prepare_merge_result p PreparationScheme.both
  match_ap (some (ExecutedState.ap p)) none = prepare_merge_result p PreparationScheme.previous
  match_ap none (some (ExecutedState.ap c)) = prepare_merge_result c PreparationScheme.current
  match_ap none none = pure not_met
  match_ap p c = incompatible_states p c "ap"

  unfoldable pub try_merge_next_state_as_ap : Exec (DataKeeper B) MergeError MergerApResult
  unfolding match_ap
  try_merge_next_state_as_ap = do
    prev_state ← next_prev_state
    current_state ← next_current_state
    match_ap prev_state current_state
