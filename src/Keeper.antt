-- ===== src/Keeper.antt =====
-- crates/air-lib/trace-handler/src/data_keeper/keeper.rs: the data that merging keeps.
-- `BiHashMap` of the crate `bimap` is a parameter: `B` is its type of maps from positions of the
-- result trace to positions of an old trace.
pub mod Table
use aquavm.Prelude.{
  ℕ, ◌≡◌, Option, none, some, List, [], ◌==◌, ◌++◌, ◌∷◌, if◌then◌else◌, length, set, get_elem?,
  Exec, ok, err, panic,
}
use aquavm.Data.{TracePos, ExecutedState, ExecutionTrace}
use aquavm.Slider.{TraceSlider, MergeCtx, from_trace, next_state}

-- What `insert` leaves of a pair with another left value: it goes if its right value is taken.
abbrev pub unless_right : TracePos → Option TracePos → Option TracePos
unless_right r none = none
unless_right r (some q) = if q == r then none else some q

-- The operations that the handler calls, and their documented behaviour: `insert` replaces every
-- pair that shares the left or the right value.
pub record BiHashMap (B : Type 0) : Type 0 where
  pub empty : B
  pub insert : TracePos → TracePos → B → B
  pub get_by_left : TracePos → B → Option TracePos
  pub get_by_left-empty : (k : TracePos) → get_by_left k empty ≡ none
  pub get_by_left-insert :
      (l r k : TracePos) (m : B)
      → get_by_left k (insert l r m) ≡ (if l == k then some r else unless_right r (get_by_left k m))

pub record DataKeeper (B : Type 0) : Type 0 where
  pub prev_ctx : MergeCtx
  pub current_ctx : MergeCtx
  pub new_to_prev_pos : B
  pub new_to_current_pos : B
  pub result_trace : ExecutionTrace

module _ {B : Type 0} ⦃bimap : BiHashMap B⦄ where
  unfoldable pub keeper_from_trace : ExecutionTrace → ExecutionTrace → DataKeeper B
  unfolding from_trace
  keeper_from_trace prev current = record {
    prev_ctx = from_trace prev;
    current_ctx = from_trace current;
    new_to_prev_pos = bimap.empty;
    new_to_current_pos = bimap.empty;
    result_trace = [];
  }

module _ {B : Type 0} where
  -- `result_states_count` and `result_trace_next_pos`: the two differ in the type of the number.
  abbrev pub result_trace_next_pos : DataKeeper B → TracePos
  result_trace_next_pos k = length k.result_trace

  abbrev pub prev_slider : DataKeeper B → TraceSlider
  prev_slider k = k.prev_ctx.slider

  abbrev pub current_slider : DataKeeper B → TraceSlider
  current_slider k = k.current_ctx.slider

  abbrev pub put_prev : TraceSlider → DataKeeper B → DataKeeper B
  put_prev s k = record k { prev_ctx = record { slider = s } }

  abbrev pub put_current : TraceSlider → DataKeeper B → DataKeeper B
  put_current s k = record k { current_ctx = record { slider = s } }

  abbrev pub push : ExecutedState → DataKeeper B → DataKeeper B
  push state k = record k { result_trace = k.result_trace ++ state ∷ [] }

  -- `prev_slider_mut().next_state()` and `current_slider_mut().next_state()`.
  unfoldable pub next_prev_state : {E : Type 0} → Exec (DataKeeper B) E (Option ExecutedState)
  next_prev_state k = let (state, s) = next_state (prev_slider k) in ok state (put_prev s k)

  unfoldable pub next_current_state : {E : Type 0} → Exec (DataKeeper B) E (Option ExecutedState)
  next_current_state k =
      let (state, s) = next_state (current_slider k) in ok state (put_current s k)
