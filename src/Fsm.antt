-- ===== src/Fsm.antt =====
-- crates/air-lib/trace-handler/src/state_automata/{errors, utils, state_inserter}.rs: what the
-- automata of par and fold share.
pub mod Par
pub mod Fold
use aquavm.Prelude.{
  ℕ, ◌+◌, Option, none, some, ◌++◌, ltb, if◌then◌else◌, length, set, Run, Exec, ok, err, panic,
  ◌>>=◌, ◌>>◌, pure, zoom, map_err, ignore,
}
use aquavm.Data.{TracePos, TraceLen, ParResult, ExecutedState, par_state}
use aquavm.Slider.{KeeperError, TraceSlider, set_position_and_len}
use aquavm.Keeper.{
  DataKeeper, prev_slider, current_slider, put_prev, put_current, push, result_trace_next_pos,
}
use aquavm.Merger.{MergeCtxType}
use aquavm.Merger.Lore.{ResolvedFold}

pub data StateFsmError : Type 0 where
  par_queue_is_empty : StateFsmError
  fold_fsm_not_found : ℕ → StateFsmError
  par_len_overflow : ParResult → StateFsmError
  par_pos_overflow : ParResult → TracePos → MergeCtxType → StateFsmError
  par_len_underflow : ParResult → TraceLen → MergeCtxType → StateFsmError
  fold_pos_overflow : ResolvedFold → TracePos → MergeCtxType → StateFsmError
  fold_len_underflow : ResolvedFold → TracePos → MergeCtxType → StateFsmError
  keeper_error : KeeperError → StateFsmError

pub record CtxState : Type 0 where
  pub pos : TracePos
  pub subtrace_len : TraceLen

pub record CtxStatesPair : Type 0 where
  pub prev_state : CtxState
  pub current_state : CtxState

module _ {B : Type 0} where
  -- A method of `prev_slider_mut()` or of `current_slider_mut()`.
  abbrev pub on_prev :
      {A : Type 0} → Exec TraceSlider KeeperError A → Exec (DataKeeper B) StateFsmError A
  on_prev m = map_err StateFsmError.keeper_error (zoom prev_slider put_prev m)

  abbrev pub on_current :
      {A : Type 0} → Exec TraceSlider KeeperError A → Exec (DataKeeper B) StateFsmError A
  on_current m = map_err StateFsmError.keeper_error (zoom current_slider put_current m)

  -- `update_ctx_state` on each context; an error of either is dropped.
  unfoldable pub update_ctx_states : {E : Type 0} → CtxStatesPair → Exec (DataKeeper B) E (Unit {0})
  update_ctx_states pair = do
    ignore (on_prev (set_position_and_len pair.prev_state.pos pair.prev_state.subtrace_len))
    ignore
        (on_current (set_position_and_len pair.current_state.pos pair.current_state.subtrace_len))

  -- `StateInserter` is the position of its temporary par.
  unfoldable pub inserter_from_keeper : {E : Type 0} → Exec (DataKeeper B) E TracePos
  unfolding par_state
  inserter_from_keeper k = ok (result_trace_next_pos k) (push (par_state 0 0) k)

  -- `result_trace[position] = state` panics out of bounds.
  unfoldable pub insert_state :
      {E : Type 0} → TracePos → ExecutedState → Exec (DataKeeper B) E (Unit {0})
  insert_state position state k =
      if ltb position (length k.result_trace)
      then ok tt (record k { result_trace = set k.result_trace position state })
      else panic
