-- ===== src/Examples/Replays.antt =====
-- Runs of scripts over data, and a fold whose lore is resolved.
use aquavm.Prelude.{HashMap, ℕ, ◌≡◌, refl, arith, List, [], ◌∷◌, ◌++◌, true, some, ok}
use aquavm.Data.{
  ValueRef, CallResult, Sender, CanonResult, ExecutedState, ExecutionTrace, FoldSubTraceLore,
  FoldResult, generation_stub, par_state,
}
use aquavm.Slider.{from_trace, try_get_generation}
use aquavm.Keeper.Table.{Table, table}
use aquavm.Merger.Lore.Resolved.{AllFound, AreDistinct, resolve_fold_lore-AllFound}
use aquavm.Merger.Lore.{
  ResolvedSubTraceDescs, resolve_fold_lore, LoresLen, compute_lens_convolution, compute_before_lens,
}
use aquavm.Merger.Lore.Rows.{Row, AllResolve, convolved, states}
use aquavm.Merger.Lore.Suffix.{suffixes, compute_before_lens-suffixes}
use aquavm.Merger.Lore.Loop.{compute_lens_convolution-convolved}
use aquavm.Handler.{handler_from_trace}
use aquavm.Handler.Script.{Script, layout, SameShape, Joined, given}
use aquavm.Merger.Call.{merge_call_results}
use aquavm.Merger.Canon.{merge_canon_results}
use aquavm.Handler.Script.Replay.{RunsTo, replay-Joined, run_then_replay}

abbrev scalar_result : CallResult
scalar_result = CallResult.executed (ValueRef.scalar "cid")

abbrev request : CallResult
request = CallResult.request_sent_by (Sender.peer_id "peer")

-- A par of a call and of an ap before a canon, as it was recorded and as it would go now.
abbrev recorded : Script
recorded =
    Script.par (Script.call scalar_result)
      (Script.seq (Script.ap 2) (Script.canon (CanonResult.executed "canon")))

abbrev present : Script
present =
    Script.par (Script.call request)
      (Script.seq (Script.ap 0) (Script.canon (CanonResult.request_sent_by "peer")))

same_shape : SameShape recorded present
same_shape =
    SameShape.pars _ _ _ _ (SameShape.calls _ _)
      (SameShape.seqs _ _ _ _ (SameShape.aps _ _) (SameShape.canons _ _))

-- The previous data has the request of the call, the current data its result; the canon is known
-- to the previous data only.
abbrev previous_record : Script
previous_record =
    Script.par (Script.call request)
      (Script.seq (Script.ap 2) (Script.canon (CanonResult.executed "canon")))

abbrev current_record : Script
current_record =
    Script.par (Script.call scalar_result)
      (Script.seq (Script.ap 5) (Script.canon (CanonResult.request_sent_by "peer")))

abbrev joined_record : Script
joined_record =
    Script.par (Script.call scalar_result)
      (Script.seq (Script.ap generation_stub) (Script.canon (CanonResult.executed "canon")))

all-Joined : Joined true true previous_record current_record present joined_record
unfolding merge_call_results merge_canon_results
all-Joined =
    Joined.pars _ _ _ _ _ _ _ _ (Joined.calls _ _ _ _ (_, refl))
      (Joined.seqs _ _ _ _ _ _ _ _ (Joined.aps _ _ _) (Joined.canons _ _ _ _ refl))

replay-Joined_example :
    RunsTo {B = Table} present
      (handler_from_trace
        (given true (layout previous_record))
        (given true (layout current_record)))
      (layout joined_record)
replay-Joined_example = replay-Joined true true all-Joined (omega arith) (omega arith)

abbrev left_trace : ExecutionTrace
left_trace =
    ExecutedState.par (record { left_size = 1; right_size = 2 })
    ∷ ExecutedState.call scalar_result
    ∷ ExecutedState.ap (record { res_generations = 3405691582 ∷ [] })
    ∷ ExecutedState.canon (CanonResult.executed "canon")
    ∷ []

run_then_replay_example :
    RunsTo {B = Table} recorded (handler_from_trace [] []) left_trace
    × RunsTo {B = Table} present (handler_from_trace left_trace []) left_trace
    × RunsTo {B = Table} present (handler_from_trace [] left_trace) left_trace
    × RunsTo {B = Table} present (handler_from_trace left_trace left_trace) left_trace
unfolding par_state
run_then_replay_example = run_then_replay same_shape (omega arith)

-- Two values, of generations 0 and 1.
abbrev values : ExecutionTrace
values =
    ExecutedState.ap (record { res_generations = 0 ∷ [] })
    ∷ ExecutedState.ap (record { res_generations = 1 ∷ [] })
    ∷ []

abbrev lore_of : ℕ → ℕ → ℕ → FoldSubTraceLore
lore_of pos before after = record {
  value_pos = pos;
  subtraces_desc =
      record { begin_pos = 0; subtrace_len = before }
      ∷ record { begin_pos = 0; subtrace_len = after }
      ∷ [];
}

abbrev fold : FoldResult
fold = record { lore = lore_of 0 3 2 ∷ lore_of 0 1 4 ∷ lore_of 1 5 0 ∷ [] }

abbrev rows : List Row
rows =
    record { generation = 0; before = 3; after = 2 }
    ∷ record { generation = 0; before = 1; after = 4 }
    ∷ record { generation = 1; before = 5; after = 0 }
    ∷ []

rows_resolve : AllResolve (from_trace values) fold.lore rows
unfolding try_get_generation from_trace
rows_resolve = (
  (_, _, refl, refl, refl, refl),
  ((_, _, refl, refl, refl, refl), ((_, _, refl, refl, refl, refl), tt)),
)

compute_lens_convolution-convolved_example :
    compute_lens_convolution fold (from_trace values)
    ≡ ok (states rows, convolved 0 0 rows) (from_trace values)
compute_lens_convolution-convolved_example =
    compute_lens_convolution-convolved (from_trace values) fold rows rows_resolve (omega arith)

-- The third entry of a fold with distinct values is of a later generation.
abbrev three_values : ExecutionTrace
three_values =
    ExecutedState.ap (record { res_generations = 0 ∷ [] })
    ∷ ExecutedState.ap (record { res_generations = 0 ∷ [] })
    ∷ ExecutedState.ap (record { res_generations = 1 ∷ [] })
    ∷ []

abbrev distinct_fold : FoldResult
distinct_fold = record { lore = lore_of 0 3 2 ∷ lore_of 1 1 4 ∷ lore_of 2 5 0 ∷ [] }

distinct-AllResolve : AllResolve (from_trace three_values) distinct_fold.lore rows
unfolding try_get_generation from_trace
distinct-AllResolve = (
  (_, _, refl, refl, refl, refl),
  ((_, _, refl, refl, refl, refl), ((_, _, refl, refl, refl, refl), tt)),
)

distinct_values : AreDistinct distinct_fold.lore
distinct_values =
    (((λ e. ground arith), ((λ e. ground arith), tt)), (((λ e. ground arith), tt), (tt, tt)))

resolve_fold_lore-AllFound_example :
    (m : HashMap ResolvedSubTraceDescs) × (resolve_fold_lore distinct_fold (from_trace three_values)
      ≡ ok (record { lore = m; fold_states_count = states rows }) (from_trace three_values))
    × AllFound distinct_fold.lore (convolved 0 0 rows) m
resolve_fold_lore-AllFound_example =
    resolve_fold_lore-AllFound (from_trace three_values) distinct_fold rows distinct-AllResolve
      (omega arith) distinct_values

abbrev lens : ℕ → ℕ → LoresLen
lens b a = record { before_len = b; after_len = a }

compute_before_lens-suffixes_example :
    compute_before_lens (lens 9 9 ∷ ((lens 3 1 ∷ []) ++ lens 2 4 ∷ [])) 1 2
    ≡ some (lens 9 9 ∷ suffixes 4 ((lens 3 1 ∷ []) ++ lens 2 4 ∷ []))
compute_before_lens-suffixes_example =
    compute_before_lens-suffixes (lens 9 9 ∷ []) (lens 3 1 ∷ []) (lens 2 4) (omega arith)
