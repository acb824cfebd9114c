-- ===== src/Fsm/Par.antt =====
-- state_automata/par_fsm.rs and the files below par_fsm/: the automaton of a par.
pub mod Moves
pub mod Stages
pub mod Stuck
use aquavm.Prelude.{
  ℕ, ◌+◌, ◌-◌, Option, none, some, ltb, if◌then◌else◌, length, checked_add, checked_sub, Run, Exec,
  ok, err, panic, ◌>>=◌, ◌>>◌, pure, ok_or, or_panic, ignore,
}
use aquavm.Data.{TracePos, ParResult, ExecutedState, par_default, par_state, size}
use aquavm.Slider.{TraceSlider, subtrace_len, set_subtrace_len}
use aquavm.Keeper.{DataKeeper, prev_slider, current_slider}
use aquavm.Merger.{MergeCtxType}
use aquavm.Merger.Par.{MergerParResult}
use aquavm.Fsm.{
  StateFsmError, CtxState, CtxStatesPair, on_prev, on_current, update_ctx_states,
  inserter_from_keeper, insert_state,
}

pub data SubgraphType : Type 0 where
  left right : SubgraphType

-- par_builder.rs
pub record ParBuilder : Type 0 where
  pub saved_states_count : ℕ
  pub left_subgraph_size : ℕ
  pub right_subgraph_size : ℕ

pub record ParFsm : Type 0 where
  pub prev_par : ParResult
  pub current_par : ParResult
  pub state_inserter : TracePos
  pub left_pair : CtxStatesPair
  pub right_pair : CtxStatesPair
  pub par_builder : ParBuilder

-- `Option::unwrap_or_default`.
abbrev pub or_default : Option ParResult → ParResult
or_default none = par_default
or_default (some p) = p

abbrev pub subgraph_len : SubgraphType → ParResult → ℕ
subgraph_len SubgraphType.left p = p.left_size
subgraph_len SubgraphType.right p = p.right_size

-- new_states_calculation.rs; both errors name a fixed context, whichever slider is meant.
new_position : {S : Type 0} → ParResult → ℕ → TraceSlider → Exec S StateFsmError TracePos
new_position p len slider =
    ok_or (checked_add slider.position len)
      (StateFsmError.par_pos_overflow p slider.position MergeCtxType.previous)

unfoldable pub compute_new_state :
    {S : Type 0} → ParResult → SubgraphType → TraceSlider → Exec S StateFsmError CtxState
unfolding new_position
compute_new_state p SubgraphType.left slider = do
  pos ← new_position p p.left_size slider
  pure (record { pos = pos; subtrace_len = p.left_size })
compute_new_state p SubgraphType.right slider = do
  len ← ok_or (size p) (StateFsmError.par_len_overflow p)
  pos ← new_position p len slider
  old_len ← or_panic (subtrace_len slider)
  new_len ←
      ok_or (checked_sub old_len len)
        (StateFsmError.par_len_underflow p old_len MergeCtxType.current)
  pure (record { pos = pos; subtrace_len = new_len })

abbrev pub tracked : SubgraphType → ℕ → ℕ → ParBuilder → ParBuilder
tracked SubgraphType.left n count b = record b {
  left_subgraph_size = n;
  saved_states_count = count;
}
tracked SubgraphType.right n count b = record b {
  right_subgraph_size = n;
  saved_states_count = count;
}

unfoldable pub build : ParBuilder → ExecutedState
unfolding par_state
build b = par_state b.left_subgraph_size b.right_subgraph_size

module _ {B : Type 0} where
  unfoldable pub compute_new_states :
      ParResult → ParResult → SubgraphType → Exec (DataKeeper B) StateFsmError CtxStatesPair
  unfolding compute_new_state
  compute_new_states prev_par current_par type = do
    prev_state ← λ k. compute_new_state prev_par type (prev_slider k) k
    current_state ← λ k. compute_new_state current_par type (current_slider k) k
    pure (record { prev_state = prev_state; current_state = current_state })

  unfoldable pub builder_from_keeper : {E : Type 0} → Exec (DataKeeper B) E ParBuilder
  builder_from_keeper k =
      ok
        (record {
          saved_states_count = length k.result_trace;
          left_subgraph_size = 0;
          right_subgraph_size = 0;
        })
        k

  -- `states_count - prev_states_count` panics if the trace has shrunk.
  unfoldable pub track : {E : Type 0} → SubgraphType → ParBuilder → Exec (DataKeeper B) E ParBuilder
  track type b k =
      if ltb (length k.result_trace) b.saved_states_count
      then panic
      else ok
          (tracked type (length k.result_trace - b.saved_states_count) (length k.result_trace) b) k

  unfoldable pub prepare_sliders :
      SubgraphType → ParFsm → Exec (DataKeeper B) StateFsmError (Unit {0})
  prepare_sliders type f = do
    on_prev (set_subtrace_len (subgraph_len type f.prev_par))
    on_current (set_subtrace_len (subgraph_len type f.current_par))

  unfoldable pub from_left_started : MergerParResult → Exec (DataKeeper B) StateFsmError ParFsm
  from_left_started ingredients = do
    let prev_par = or_default ingredients.prev_par
    let current_par = or_default ingredients.current_par
    position ← inserter_from_keeper
    left_pair ← compute_new_states prev_par current_par SubgraphType.left
    right_pair ← compute_new_states prev_par current_par SubgraphType.right
    builder ← builder_from_keeper
    let fsm : ParFsm = record {
      prev_par = prev_par;
      current_par = current_par;
      state_inserter = position;
      left_pair = left_pair;
      right_pair = right_pair;
      par_builder = builder;
    }
    prepare_sliders SubgraphType.left fsm
    pure fsm

  unfoldable pub handle_subgraph_end :
      {E : Type 0} → SubgraphType → ParFsm → Exec (DataKeeper B) E (Unit {0})
  handle_subgraph_end SubgraphType.left f = update_ctx_states f.left_pair
  handle_subgraph_end SubgraphType.right f = update_ctx_states f.right_pair

  unfoldable pub left_completed : {E : Type 0} → ParFsm → Exec (DataKeeper B) E ParFsm
  unfolding track handle_subgraph_end prepare_sliders
  left_completed f = do
    builder ← track SubgraphType.left f.par_builder
    let fsm : ParFsm = record f { par_builder = builder }
    handle_subgraph_end SubgraphType.left fsm
    ignore (prepare_sliders SubgraphType.right fsm)
    pure fsm

  unfoldable pub right_completed : {E : Type 0} → ParFsm → Exec (DataKeeper B) E (Unit {0})
  unfolding track handle_subgraph_end build
  right_completed f = do
    builder ← track SubgraphType.right f.par_builder
    insert_state f.state_inserter (build builder)
    handle_subgraph_end SubgraphType.right f
