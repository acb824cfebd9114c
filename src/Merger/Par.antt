-- ===== src/Merger/Par.antt =====
-- merger/par_merger.rs: the next states as pars.
use aquavm.Prelude.{Option, none, some, Exec, ◌>>=◌, pure}
use aquavm.Data.{ParResult, ExecutedState}
use aquavm.Keeper.{DataKeeper, next_prev_state, next_current_state}
use aquavm.Merger.{MergeError, incompatible_states}

pub record MergerParResult : Type 0 where
  pub prev_par : Option ParResult
  pub current_par : Option ParResult

module _ {B : Type 0} where
  unfoldable pub match_par :
      Option ExecutedState → Option ExecutedState → Exec (DataKeeper B) MergeError MergerParResult
  match_par (some (ExecutedState.par p)) (some (ExecutedState.par c)) =
      pure (record { prev_par = some p; current_par = some c })
  match_par none (some (ExecutedState.par c)) =
      pure (record { prev_par = none; current_par = some c })
  match_par (some (ExecutedState.par p)) none =
      pure (record { prev_par = some p; current_par = none })
  match_par none none = pure (record { prev_par = none; current_par = none })
  match_par p c = incompatible_states p c "par"

  unfoldable pub try_merge_next_state_as_par : Exec (DataKeeper B) MergeError MergerParResult
  unfolding match_par
  try_merge_next_state_as_par = do
    prev_state ← next_prev_state
    current_state ← next_current_state
    match_par prev_state current_state
