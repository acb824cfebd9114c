-- ===== src/Handler.antt =====
-- crates/air-lib/trace-handler/src/{handler, errors}.rs and state_automata/fsm_queue.rs: the
-- methods that the instructions of the interpreter call.
pub mod Script
use aquavm.Prelude.{
  ℕ, ◌-◌, Option, none, some, List, [], ◌∷◌, ltb, if◌then◌else◌, length, get_elem?, set, u32_mod,
  HashMap, lookup, insert, remove, Result, done, fail, Run, Exec, ok, err, panic, ◌>>=◌, ◌>>◌, pure,
  throw, ok_or, or_panic, modify, zoom, map_err, continue,
}
use aquavm.Data.{
  TracePos, GenerationIdx, TraceLen, ValueRef, CallResult, ApResult, CanonResult, ExecutedState,
  ExecutionTrace,
}
use aquavm.Slider.{subtrace_len}
use aquavm.Keeper.{BiHashMap, DataKeeper, keeper_from_trace, prev_slider, current_slider, push}
use aquavm.Merger.{MergeError}
use aquavm.Merger.Call.{MergerCallResult, try_merge_next_state_as_call}
use aquavm.Merger.Ap.{MergerApResult, try_merge_next_state_as_ap}
use aquavm.Merger.Canon.{MergerCanonResult, try_merge_next_state_as_canon}
use aquavm.Merger.Par.{try_merge_next_state_as_par}
use aquavm.Merger.Fold.{try_merge_next_state_as_fold}
use aquavm.Fsm.{StateFsmError}
use aquavm.Fsm.Par.{ParFsm, SubgraphType, from_left_started, left_completed, right_completed}
use aquavm.Fsm.Fold.{FoldFsm, FoldRun, from_fold_start}
use aquavm.Fsm.Fold

pub data TraceHandlerError : Type 0 where
  merge_error : MergeError → TraceHandlerError
  state_fsm_error : StateFsmError → TraceHandlerError

-- The conversion of a length into a position fails only beyond u32.
pub data IntConversionError : Type 0 where
  try_into_trace_pos_error : IntConversionError

pub data GenerationCompactificationError : Type 0 where
  trace_pos_points_to_nowhere : TracePos → GenerationCompactificationError
  trace_pos_points_to_invalid_state : TracePos → ExecutedState → GenerationCompactificationError

-- The head of the list is the last par of the vector.
pub record FsmKeeper : Type 0 where
  pub par_stack : List ParFsm
  pub fold_map : HashMap FoldFsm

pub record TraceHandler (B : Type 0) : Type 0 where
  pub data_keeper : DataKeeper B
  pub fsm_keeper : FsmKeeper

-- The state with a new generation, if it holds one.
unfoldable pub regenerated : GenerationIdx → ExecutedState → Option ExecutedState
regenerated g (ExecutedState.ap r) = some (ExecutedState.ap (record { res_generations = g ∷ [] }))
regenerated g (ExecutedState.call (CallResult.executed (ValueRef.stream cid _))) =
    some (ExecutedState.call (CallResult.executed (ValueRef.stream cid g)))
regenerated g state = none

module _ {B : Type 0} where
  abbrev on_keeper : {E A : Type 0} → Exec (DataKeeper B) E A → Exec (TraceHandler B) E A
  on_keeper = zoom (λ h. h.data_keeper) (λ k h. record h { data_keeper = k })

  abbrev merging :
      {A : Type 0} → Exec (DataKeeper B) MergeError A → Exec (TraceHandler B) TraceHandlerError A
  merging m = map_err TraceHandlerError.merge_error (on_keeper m)

  abbrev stepping :
      {A : Type 0} → Exec (DataKeeper B) StateFsmError A → Exec (TraceHandler B) TraceHandlerError A
  stepping m = map_err TraceHandlerError.state_fsm_error (on_keeper m)

  abbrev fsm_error : {A : Type 0} → StateFsmError → Exec (TraceHandler B) TraceHandlerError A
  fsm_error e = throw (TraceHandlerError.state_fsm_error e)

  abbrev set_stack : List ParFsm → TraceHandler B → TraceHandler B
  set_stack pars h = record h { fsm_keeper = record h.fsm_keeper { par_stack = pars } }

  abbrev set_folds : HashMap FoldFsm → TraceHandler B → TraceHandler B
  set_folds folds h = record h { fsm_keeper = record h.fsm_keeper { fold_map = folds } }

  unfoldable pub trace_pos : TraceHandler B → Result IntConversionError TracePos
  trace_pos h =
      if ltb (length h.data_keeper.result_trace) u32_mod
      then done (length h.data_keeper.result_trace)
      else fail IntConversionError.try_into_trace_pos_error

  unfoldable pub into_result_trace : TraceHandler B → ExecutionTrace
  into_result_trace h = h.data_keeper.result_trace

  unfoldable pub subgraph_sizes : {E : Type 0} → Exec (TraceHandler B) E (TraceLen × TraceLen)
  subgraph_sizes = do
    prev_len ← λ h. or_panic (subtrace_len (prev_slider h.data_keeper)) h
    current_len ← λ h. or_panic (subtrace_len (current_slider h.data_keeper)) h
    pure (prev_len, current_len)

  abbrev set_result : ExecutionTrace → TraceHandler B → TraceHandler B
  set_result t h = record h { data_keeper = record h.data_keeper { result_trace = t } }

  unfoldable pub update_generation :
      TracePos → GenerationIdx → Exec (TraceHandler B) GenerationCompactificationError (Unit {0})
  unfolding regenerated
  update_generation pos generation h = elim (get_elem? h.data_keeper.result_trace pos) [
    | none ↦ err (GenerationCompactificationError.trace_pos_points_to_nowhere pos) h
    | some state ↦ elim (regenerated generation state) [
      | none ↦ err (GenerationCompactificationError.trace_pos_points_to_invalid_state pos state) h
      | some state' ↦ ok tt (set_result (set h.data_keeper.result_trace pos state') h)
    ]
  ]

  -- `meet_call_end`, `meet_ap_end` and `meet_canon_end` push a state.
  unfoldable pub meet_call_end : {E : Type 0} → CallResult → Exec (TraceHandler B) E (Unit {0})
  meet_call_end r = on_keeper (modify (push (ExecutedState.call r)))

  unfoldable pub meet_ap_end : {E : Type 0} → ApResult → Exec (TraceHandler B) E (Unit {0})
  meet_ap_end r = on_keeper (modify (push (ExecutedState.ap r)))

  unfoldable pub meet_canon_end : {E : Type 0} → CanonResult → Exec (TraceHandler B) E (Unit {0})
  meet_canon_end r = on_keeper (modify (push (ExecutedState.canon r)))

  unfoldable pub meet_canon_start : Exec (TraceHandler B) TraceHandlerError MergerCanonResult
  meet_canon_start = merging try_merge_next_state_as_canon

  push_par : ParFsm → Exec (TraceHandler B) TraceHandlerError (Unit {0})
  push_par f = modify (λ h. set_stack (f ∷ h.fsm_keeper.par_stack) h)

  unfoldable pub meet_par_start : Exec (TraceHandler B) TraceHandlerError (Unit {0})
  unfolding push_par
  meet_par_start = do
    ingredients ← merging try_merge_next_state_as_par
    par_fsm ← stepping (from_left_started ingredients)
    push_par par_fsm

  -- `last_par()?`, and the method of the par that it refers to.
  left_end : List ParFsm → Exec (TraceHandler B) TraceHandlerError (Unit {0})
  unfolding push_par
  left_end [] = fsm_error StateFsmError.par_queue_is_empty
  left_end (f ∷ rest) = do f' ← stepping (left_completed f); modify (set_stack (f' ∷ rest))

  -- `pop_par()?`
  right_end : List ParFsm → Exec (TraceHandler B) TraceHandlerError (Unit {0})
  right_end [] = fsm_error StateFsmError.par_queue_is_empty
  right_end (f ∷ rest) = do modify (set_stack rest); stepping (right_completed f)

  unfoldable pub meet_par_subgraph_end :
      SubgraphType → Exec (TraceHandler B) TraceHandlerError (Unit {0})
  unfolding left_end right_end
  meet_par_subgraph_end SubgraphType.left h = left_end h.fsm_keeper.par_stack h
  meet_par_subgraph_end SubgraphType.right h = right_end h.fsm_keeper.par_stack h

  unfoldable pub meet_fold_start : ℕ → Exec (TraceHandler B) TraceHandlerError (Unit {0})
  meet_fold_start fold_id = do
    ingredients ← merging try_merge_next_state_as_fold
    fold_fsm ← stepping (from_fold_start ingredients)
    modify (λ h. set_folds (insert fold_id fold_fsm h.fsm_keeper.fold_map) h)

  abbrev put_run : ℕ → FoldRun B → TraceHandler B → TraceHandler B
  put_run fold_id r h =
      set_folds (insert fold_id r.fsm h.fsm_keeper.fold_map) (record h { data_keeper = r.keeper })

  -- `fold_mut(fold_id)?`, and a method of the fold that it refers to.
  on_fold :
      {A : Type 0}
      → ℕ
      → Exec (FoldRun B) StateFsmError A
      → Exec (TraceHandler B) TraceHandlerError A
  on_fold fold_id m h = elim (lookup fold_id h.fsm_keeper.fold_map) [
    | none ↦ err (TraceHandlerError.state_fsm_error (StateFsmError.fold_fsm_not_found fold_id)) h
    | some f ↦ elim (m (record { fsm = f; keeper = h.data_keeper })) [
      | ok a r ↦ ok a (put_run fold_id r h)
      | err e r ↦ err (TraceHandlerError.state_fsm_error e) (put_run fold_id r h)
      | panic ↦ panic
    ]
  ]

  unfoldable pub meet_iteration_end : ℕ → Exec (TraceHandler B) TraceHandlerError (Unit {0})
  unfolding on_fold
  meet_iteration_end fold_id = on_fold fold_id Fold.meet_iteration_end

  unfoldable pub meet_back_iterator : ℕ → Exec (TraceHandler B) TraceHandlerError (Unit {0})
  unfolding on_fold
  meet_back_iterator fold_id = on_fold fold_id Fold.meet_back_iterator

  unfoldable pub meet_generation_end : ℕ → Exec (TraceHandler B) TraceHandlerError (Unit {0})
  unfolding on_fold
  meet_generation_end fold_id = on_fold fold_id Fold.meet_generation_end

  -- `extract_fold(fold_id)?`
  unfoldable pub meet_fold_end : ℕ → Exec (TraceHandler B) TraceHandlerError (Unit {0})
  meet_fold_end fold_id h = elim (lookup fold_id h.fsm_keeper.fold_map) [
    | none ↦ err (TraceHandlerError.state_fsm_error (StateFsmError.fold_fsm_not_found fold_id)) h
    | some f ↦ stepping (Fold.meet_fold_end f) (set_folds (remove fold_id h.fsm_keeper.fold_map) h)
  ]

module _ {B : Type 0} ⦃bimap : BiHashMap B⦄ where
  unfoldable pub handler_from_trace : ExecutionTrace → ExecutionTrace → TraceHandler B
  unfolding keeper_from_trace
  handler_from_trace prev current = record {
    data_keeper = keeper_from_trace prev current;
    fsm_keeper = record { par_stack = []; fold_map = [] };
  }

  unfoldable pub meet_call_start : Exec (TraceHandler B) TraceHandlerError MergerCallResult
  meet_call_start = merging try_merge_next_state_as_call

  unfoldable pub meet_ap_start : Exec (TraceHandler B) TraceHandlerError MergerApResult
  meet_ap_start = merging try_merge_next_state_as_ap

  unfoldable pub meet_iteration_start :
      ℕ → TracePos → Exec (TraceHandler B) TraceHandlerError (Unit {0})
  unfolding on_fold
  meet_iteration_start fold_id value_pos = on_fold fold_id (Fold.meet_iteration_start value_pos)
