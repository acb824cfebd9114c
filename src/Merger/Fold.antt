-- ===== src/Merger/Fold.antt =====
-- merger/fold_merger.rs: the next states as folds, with their lore resolved.
use aquavm.Prelude.{Option, none, some, Exec, ok, err, panic, ◌>>=◌, pure}
use aquavm.Data.{FoldResult, ExecutedState}
use aquavm.Keeper.{DataKeeper, next_prev_state, next_current_state}
use aquavm.Merger.{MergeError, MergeCtxType, incompatible_states}
use aquavm.Merger.Lore.{ResolvedFold, resolved_default, resolve_fold_lore}

pub record MergerFoldResult : Type 0 where
  pub prev_fold_lore : ResolvedFold
  pub current_fold_lore : ResolvedFold

-- A function of `&data_keeper.prev_ctx` or `&data_keeper.current_ctx`: it leaves the keeper alone.
abbrev pub reading : {S C E A : Type 0} → (S → C) → Exec C E A → Exec S E A
reading ctx m s = elim (m (ctx s)) [ ok a t ↦ ok a s | err e t ↦ err e s | panic ↦ panic ]

module _ {B : Type 0} where
  unfoldable pub from_fold_result :
      FoldResult → MergeCtxType → Exec (DataKeeper B) MergeError MergerFoldResult
  from_fold_result fold MergeCtxType.previous = do
    lore ← reading (λ k. k.prev_ctx) (resolve_fold_lore fold)
    pure (record { prev_fold_lore = lore; current_fold_lore = resolved_default })
  from_fold_result fold MergeCtxType.current = do
    lore ← reading (λ k. k.current_ctx) (resolve_fold_lore fold)
    pure (record { prev_fold_lore = resolved_default; current_fold_lore = lore })

  unfoldable pub from_fold_results :
      FoldResult → FoldResult → Exec (DataKeeper B) MergeError MergerFoldResult
  from_fold_results prev current = do
    prev_lore ← reading (λ k. k.prev_ctx) (resolve_fold_lore prev)
    current_lore ← reading (λ k. k.current_ctx) (resolve_fold_lore current)
    pure (record { prev_fold_lore = prev_lore; current_fold_lore = current_lore })

  unfoldable pub match_fold :
      Option ExecutedState → Option ExecutedState → Exec (DataKeeper B) MergeError MergerFoldResult
  unfolding from_fold_result from_fold_results
  match_fold (some (ExecutedState.fold p)) (some (ExecutedState.fold c)) = from_fold_results p c
  match_fold none (some (ExecutedState.fold c)) = from_fold_result c MergeCtxType.current
  match_fold (some (ExecutedState.fold p)) none = from_fold_result p MergeCtxType.previous
  match_fold none none =
      pure (record { prev_fold_lore = resolved_default; current_fold_lore = resolved_default })
  match_fold p c = incompatible_states p c "fold"

  unfoldable pub try_merge_next_state_as_fold : Exec (DataKeeper B) MergeError MergerFoldResult
  unfolding match_fold
  try_merge_next_state_as_fold = do
    prev_state ← next_prev_state
    current_state ← next_current_state
    match_fold prev_state current_state
