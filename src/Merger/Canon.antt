-- ===== src/Merger/Canon.antt =====
-- merger/canon_merger.rs: the merge of two canon states.
pub mod Join
use aquavm.Prelude.{
  ℕ, String, Option, none, some, Bool, if◌then◌else◌, not, str_eq, Run, Exec, ok, err, panic, ◌>>=◌,
  ◌>>◌, pure, throw, Result, done, fail, lift,
}
use aquavm.Data.{CanonResult, ExecutedState}
use aquavm.Keeper.{DataKeeper, next_prev_state, next_current_state}
use aquavm.Merger.{MergeError, CanonResultError, incompatible_states}

pub data MergerCanonResult : Type 0 where
  empty : MergerCanonResult
  canon_result : CanonResult → MergerCanonResult

unfoldable pub merge_canon_results : CanonResult → CanonResult → Result CanonResultError CanonResult
merge_canon_results (CanonResult.executed prev) (CanonResult.executed cur) =
    if not (str_eq prev cur)
    then fail
        (CanonResultError.incompatible_state (CanonResult.executed prev) (CanonResult.executed cur))
    else done (CanonResult.executed prev)
merge_canon_results (CanonResult.request_sent_by p) (CanonResult.executed cur) =
    done (CanonResult.executed cur)
merge_canon_results p c = done p

-- `map_err(MergeError::IncorrectCanonResult)?`
abbrev canon_error : Result CanonResultError CanonResult → Result MergeError CanonResult
canon_error (done c) = done c
canon_error (fail e) = fail (MergeError.incorrect_canon_result e)

module _ {B : Type 0} where
  unfoldable pub prepare_single_canon_result :
      CanonResult → Exec (DataKeeper B) MergeError MergerCanonResult
  prepare_single_canon_result c = pure (canon_result c)

  unfoldable pub prepare_both_canon_result :
      CanonResult → CanonResult → Exec (DataKeeper B) MergeError MergerCanonResult
  unfolding merge_canon_results prepare_single_canon_result
  prepare_both_canon_result p c = do
    merged ← lift (canon_error (merge_canon_results p c))
    prepare_single_canon_result merged

  unfoldable pub match_canon :
      Option ExecutedState → Option ExecutedState → Exec (DataKeeper B) MergeError MergerCanonResult
  unfolding prepare_both_canon_result prepare_single_canon_result
  match_canon (some (ExecutedState.canon p)) (some (ExecutedState.canon c)) =
      prepare_both_canon_result p c
  match_canon (some (ExecutedState.canon p)) none = prepare_single_canon_result p
  match_canon none (some (ExecutedState.canon c)) = prepare_single_canon_result c
  match_canon none none = pure empty
  match_canon p c = incompatible_states p c "canon"

  unfoldable pub try_merge_next_state_as_canon : Exec (DataKeeper B) MergeError MergerCanonResult
  unfolding match_canon
  try_merge_next_state_as_canon = do
    prev_state ← next_prev_state
    current_state ← next_current_state
    match_canon prev_state current_state
