-- ===== src/Merger/Lore.antt =====
-- merger/fold_merger/fold_lore_resolver.rs: the lens of a fold's subtraces, summed over the
-- iterations that `next` brings, and the map of them that the fold FSM reads.
pub mod Suffix
pub mod Rows
pub mod Back
pub mod Loop
pub mod Resolved
use aquavm.Prelude.{
  ℕ, zero, suc, ◌+◌, ◌-◌, Option, none, some, List, [], ◌∷◌, ◌++◌, Bool, true, false, ◌==◌, leb,
  ltb, if◌then◌else◌, length, get_elem?, set, u32_mod, checked_add, HashMap, lookup, insert, Run,
  Exec, ok, err, panic, ◌>>=◌, ◌>>◌, pure, throw, ok_or, or_panic, map_err,
}
use aquavm.Data.{TracePos, GenerationIdx, SubTraceDesc, FoldSubTraceLore, FoldResult}
use aquavm.Slider.{MergeCtx, try_get_generation}
use aquavm.Merger.{MergeError, FoldResultError}

pub record ResolvedSubTraceDescs : Type 0 where
  pub before_subtrace : SubTraceDesc
  pub after_subtrace : SubTraceDesc

pub record ResolvedFold : Type 0 where
  pub lore : HashMap ResolvedSubTraceDescs
  pub fold_states_count : ℕ

abbrev pub resolved_default : ResolvedFold
resolved_default = record { lore = []; fold_states_count = 0 }

pub record LoresLen : Type 0 where
  pub before_len : ℕ
  pub after_len : ℕ

-- The loop of `compute_before_lens` over `begin .. begin + k`, from the last index down. Of its two
-- additions the second is the larger, so one test serves for the overflow of both; `none` is the
-- panic on overflow or on an index out of bounds.
unfoldable pub before_loop : ℕ → ℕ → ℕ → ℕ → List LoresLen → Option (List LoresLen)
before_loop zero begin cum after lens = some lens
before_loop (suc k) begin cum after lens = elim (get_elem? lens (begin + k)) [
  | none ↦ none
  | some l ↦ elim (leb u32_mod (cum + l.before_len + after)) [
    | true ↦ none
    | false ↦
        before_loop k begin (cum + l.before_len) after
          (set lens (begin + k) (record l { before_len = cum + l.before_len + after }))
  ]
]

unfoldable pub compute_before_lens : List LoresLen → ℕ → ℕ → Option (List LoresLen)
unfolding before_loop
compute_before_lens lens begin end = elim (get_elem? lens end) [
  | none ↦ none
  | some l ↦ before_loop (suc end - begin) begin 0 l.after_len lens
]

fold_error : FoldResultError → MergeError
fold_error e = MergeError.incorrect_fold_result e

-- `check_subtrace_lore`, and the lens of the two descriptors.
unfoldable pub check_subtrace_lore :
    {S : Type 0} → List SubTraceDesc → Exec S MergeError (SubTraceDesc × SubTraceDesc)
unfolding fold_error
check_subtrace_lore (before ∷ after ∷ []) = pure (before, after)
check_subtrace_lore descs =
    throw (fold_error (FoldResultError.fold_incorrect_subtraces_count (length descs)))

-- The local variables of `compute_lens_convolution`.
pub record Convolution : Type 0 where
  pub lens : List LoresLen
  pub fold_states_count : ℕ
  pub last_seen_generation : GenerationIdx
  pub last_seen_generation_pos : ℕ
  pub cum_after_len : ℕ

-- The back traversal of the generation that ends before `subtrace_id`, if there is one.
unfoldable pub back_traversal : ℕ → Convolution → Exec MergeCtx MergeError (List LoresLen)
back_traversal subtrace_id c =
    if ltb 0 subtrace_id
    then or_panic (compute_before_lens c.lens c.last_seen_generation_pos (subtrace_id - 1))
    else pure c.lens

-- The branch on a new generation.
unfoldable pub switch_generation :
    ℕ → GenerationIdx → Convolution → Exec MergeCtx MergeError Convolution
switch_generation subtrace_id generation c =
    if c.last_seen_generation == generation then pure c else do
      lens ← back_traversal subtrace_id c
      pure (record c {
        lens = lens;
        last_seen_generation = generation;
        last_seen_generation_pos = subtrace_id;
        cum_after_len = 0;
      })

-- Both checked additions of the loop.
unfoldable pub add_lens : ℕ → ℕ → ℕ → Option ℕ
add_lens count before after = elim (checked_add count before) [
  | none ↦ none
  | some v ↦ checked_add v after
]

-- `cum_after_len += after_len` panics on overflow.
unfoldable pub push_lens : ℕ → ℕ → ℕ → Convolution → Exec MergeCtx MergeError Convolution
push_lens count before after c =
    if leb u32_mod (c.cum_after_len + after)
    then (λ ctx. panic)
    else pure (record c {
      lens = c.lens ++ record { before_len = before; after_len = c.cum_after_len + after } ∷ [];
      fold_states_count = count;
      cum_after_len = c.cum_after_len + after;
    })

unfoldable pub convolution_step :
    FoldResult → ℕ → FoldSubTraceLore → Convolution → Exec MergeCtx MergeError Convolution
unfolding fold_error
convolution_step fold subtrace_id lore c = do
  (before, after) ← check_subtrace_lore lore.subtraces_desc
  generation ← map_err MergeError.keeper_error (try_get_generation lore.value_pos)
  c ← switch_generation subtrace_id generation c
  count ←
      ok_or (add_lens c.fold_states_count before.subtrace_len after.subtrace_len)
        (fold_error (FoldResultError.subtrace_len_overflow fold subtrace_id))
  push_lens count before.subtrace_len after.subtrace_len c

unfoldable pub convolution_loop :
    FoldResult → ℕ → List FoldSubTraceLore → Convolution → Exec MergeCtx MergeError Convolution
convolution_loop fold subtrace_id [] c = pure c
convolution_loop fold subtrace_id (lore ∷ rest) c = do
  c ← convolution_step fold subtrace_id lore c
  convolution_loop fold (suc subtrace_id) rest c

abbrev pub convolution_start : Convolution
convolution_start = record {
  lens = [];
  fold_states_count = 0;
  last_seen_generation = 0;
  last_seen_generation_pos = 0;
  cum_after_len = 0;
}

-- The back traversal of the last generation, after the loop.
unfoldable pub finish_convolution : ℕ → Convolution → Exec MergeCtx MergeError (ℕ × List LoresLen)
finish_convolution subtraces_count c = do
  lens ← back_traversal subtraces_count c
  pure (c.fold_states_count, lens)

unfoldable pub compute_lens_convolution : FoldResult → Exec MergeCtx MergeError (ℕ × List LoresLen)
unfolding convolution_loop convolution_step check_subtrace_lore switch_generation back_traversal
    compute_before_lens add_lens push_lens finish_convolution
compute_lens_convolution fold = do
  c ← convolution_loop fold 0 fold.lore convolution_start
  finish_convolution (length fold.lore) c

-- The fold over the zipped lore and lens; `subtraces_desc[0]` and `[1]` panic out of bounds.
unfoldable pub resolve_entries :
    FoldResult
    → List FoldSubTraceLore
    → List LoresLen
    → HashMap ResolvedSubTraceDescs
    → Exec MergeCtx MergeError (HashMap ResolvedSubTraceDescs)
unfolding fold_error
resolve_entries fold [] lens resolved = pure resolved
resolve_entries fold (lore ∷ rest) [] resolved = pure resolved
resolve_entries fold (lore ∷ rest) (l ∷ lens) resolved = elim (get_elem? lore.subtraces_desc 0) [
  | none ↦ λ ctx. panic
  | some first ↦ elim (get_elem? lore.subtraces_desc 1) [
    | none ↦ λ ctx. panic
    | some second ↦ elim (lookup lore.value_pos resolved) [
      | some old ↦
          throw (fold_error (FoldResultError.several_records_with_same_pos fold lore.value_pos))
      | none ↦ resolve_entries fold rest lens (
          insert lore.value_pos
            (record {
              before_subtrace = record { begin_pos = first.begin_pos; subtrace_len = l.before_len };
              after_subtrace = record { begin_pos = second.begin_pos; subtrace_len = l.after_len };
            })
            resolved)
    ]
  ]
]

unfoldable pub resolve_fold_lore : FoldResult → Exec MergeCtx MergeError ResolvedFold
unfolding compute_lens_convolution resolve_entries
resolve_fold_lore fold = do
  (count, lens) ← compute_lens_convolution fold
  lore ← resolve_entries fold fold.lore lens []
  pure (record { lore = lore; fold_states_count = count })
