-- ===== src/Slider.antt =====
-- crates/air-lib/trace-handler/src/data_keeper/{trace_slider, merge_ctx, errors}.rs:
-- the slider that walks a subtrace inside a trace, and the merge context that owns it.
pub mod Bounds
pub mod Window
pub mod Reads
use aquavm.Prelude.{
  ℕ, ◌+◌, ◌-◌, ◌<◌, Option, none, some, List, [], ◌∷◌, Bool, ◌&&◌, ◌||◌, not, ◌==◌, ltb, leb,
  if◌then◌else◌, length, get_elem?, u32_mod, Run, ok, err, panic, Exec,
}
use aquavm.Data.{
  TracePos, GenerationIdx, TraceLen, ValueRef, CallResult, ApResult, ExecutedState, ExecutionTrace,
}

pub data KeeperError : Type 0 where
  set_subtrace_len_failed : TraceLen → TracePos → TraceLen → KeeperError
  set_subtrace_len_and_pos_failed : TracePos → TraceLen → TraceLen → KeeperError
  no_element_at_position : TracePos → TraceLen → KeeperError
  no_stream_state : ExecutedState → KeeperError

pub record TraceSlider : Type 0 where
  pub trace : ExecutionTrace
  pub position : TracePos
  pub subtrace_len : TraceLen
  pub seen_elements : ℕ

-- `trace_states_count`, also the slider's `trace_len`: on wasm32 its conversion cannot fail.
abbrev pub trace_len : TraceSlider → TraceLen
trace_len s = length s.trace

unfoldable pub new : ExecutionTrace → TraceSlider
new t = record { trace = t; position = 0; subtrace_len = length t; seen_elements = 0 }

-- `&self.trace[self.position]` after the guard, with both counters moved. The guard keeps the
-- position inside the trace, so that there is a state: `none` is never given here.
unfoldable pub advance : TraceSlider → Option ExecutedState → Option ExecutedState × TraceSlider
advance s none = (none, s)
advance s (some state) =
    (some state, record s { position = s.position + 1; seen_elements = s.seen_elements + 1 })

unfoldable pub next_state : TraceSlider → Option ExecutedState × TraceSlider
unfolding advance
next_state s =
    if leb s.subtrace_len s.seen_elements || leb (length s.trace) s.position
    then (none, s)
    else advance s (get_elem? s.trace s.position)

-- `position + subtrace_len` is computed only if the length is not zero; it panics on overflow.
unfoldable pub set_position_and_len : TracePos → TraceLen → Exec TraceSlider KeeperError (Unit {0})
set_position_and_len pos len s =
    if not (len == 0) && leb u32_mod (pos + len)
    then panic
    else if not (len == 0) && ltb (length s.trace) (pos + len)
    then err (KeeperError.set_subtrace_len_and_pos_failed pos len (length s.trace)) s
    else ok tt (record s { position = pos; subtrace_len = len; seen_elements = 0 })

-- `trace_len - position` panics when the position lies behind the end.
unfoldable pub set_subtrace_len : TraceLen → Exec TraceSlider KeeperError (Unit {0})
set_subtrace_len len s =
    if ltb (length s.trace) s.position
    then panic
    else if ltb (length s.trace - s.position) len
    then err (KeeperError.set_subtrace_len_failed len s.position (length s.trace)) s
    else ok tt (record s { subtrace_len = len; seen_elements = 0 })

-- `subtrace_len - seen_elements`; the debug assertion is off in the release profile, and the
-- subtraction panics: `none` stands for the panic.
unfoldable pub subtrace_len : TraceSlider → Option TraceLen
subtrace_len s =
    if ltb s.subtrace_len s.seen_elements then none else some (s.subtrace_len - s.seen_elements)

unfoldable pub state_at_position : TraceSlider → TracePos → Option ExecutedState
state_at_position s pos = get_elem? s.trace pos

pub record MergeCtx : Type 0 where
  pub slider : TraceSlider

unfoldable pub from_trace : ExecutionTrace → MergeCtx
unfolding new
from_trace t = record { slider = new t }

-- `res_generations[0]`: a panic on an empty vector.
unfoldable pub first_generation : List GenerationIdx → Exec MergeCtx KeeperError GenerationIdx
first_generation [] ctx = panic
first_generation (g ∷ gs) ctx = ok g ctx

unfoldable pub generation_of : ExecutedState → Exec MergeCtx KeeperError GenerationIdx
unfolding first_generation
generation_of (ExecutedState.call (CallResult.executed (ValueRef.stream c g))) ctx = ok g ctx
generation_of (ExecutedState.ap r) ctx = first_generation r.res_generations ctx
generation_of state ctx = err (KeeperError.no_stream_state state) ctx

unfoldable pub try_get_generation : TracePos → Exec MergeCtx KeeperError GenerationIdx
unfolding generation_of state_at_position
try_get_generation pos ctx = elim (state_at_position ctx.slider pos) [
  | none ↦ err (KeeperError.no_element_at_position pos (trace_len ctx.slider)) ctx
  | some state ↦ generation_of state ctx
]
