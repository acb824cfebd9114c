-- ===== src/Fsm/Fold/Ctor.antt =====
-- fold_fsm/lore_ctor.rs: the automaton that builds the lore of one iteration. `now` is the next
-- position of the result trace.
pub mod Reaches
use aquavm.Prelude.{ℕ, ◌-◌, Option, none, some, List, [], ◌∷◌, ltb, if◌then◌else◌}
use aquavm.Data.{TracePos, SubTraceDesc, FoldSubTraceLore}

pub data CtorState : Type 0 where
  before_started before_completed after_started after_completed : CtorState

pub record PositionsTracker : Type 0 where
  pub start_pos : TracePos
  pub end_pos : TracePos

pub record LoreCtor : Type 0 where
  pub value_pos : TracePos
  pub before_tracker : PositionsTracker
  pub after_tracker : PositionsTracker
  pub state : CtorState

unfoldable pub next : CtorState → CtorState
next CtorState.before_started = CtorState.before_completed
next CtorState.before_completed = CtorState.after_started
next CtorState.after_started = CtorState.after_completed
next CtorState.after_completed = CtorState.after_completed

unfoldable pub before_start : TracePos → TracePos → LoreCtor
before_start value_pos now = record {
  value_pos = value_pos;
  before_tracker = record { start_pos = now; end_pos = 0 };
  after_tracker = record { start_pos = 0; end_pos = 0 };
  state = CtorState.before_started;
}

unfoldable pub before_end : TracePos → LoreCtor → LoreCtor
unfolding next
before_end now c = record c {
  before_tracker = record c.before_tracker { end_pos = now };
  state = next c.state;
}

-- The guard of `maybe_before_end` on the state.
maybe_end : CtorState → TracePos → LoreCtor → LoreCtor
maybe_end CtorState.before_started now c = before_end now c
maybe_end _ now c = c

unfoldable pub maybe_before_end : TracePos → LoreCtor → LoreCtor
unfolding maybe_end before_end
maybe_before_end now c = maybe_end c.state now c

unfoldable pub after_start : TracePos → LoreCtor → LoreCtor
unfolding next
after_start now c = record c {
  after_tracker = record c.after_tracker { start_pos = now };
  state = next c.state;
}

unfoldable pub after_end : TracePos → LoreCtor → LoreCtor
unfolding next
after_end now c = record c {
  after_tracker = record c.after_tracker { end_pos = now };
  state = next c.state;
}

-- `end_pos - start_pos`: `none` is the panic on underflow.
unfoldable pub len : PositionsTracker → Option ℕ
len t = if ltb t.end_pos t.start_pos then none else some (t.end_pos - t.start_pos)

lore_of : LoreCtor → Option ℕ → Option ℕ → Option FoldSubTraceLore
lore_of c (some b) (some a) = some (record {
  value_pos = c.value_pos;
  subtraces_desc =
      record { begin_pos = c.before_tracker.start_pos; subtrace_len = b }
      ∷ record { begin_pos = c.after_tracker.start_pos; subtrace_len = a }
      ∷ [];
})
lore_of c _ _ = none

unfoldable pub into_subtrace_lore : LoreCtor → Option FoldSubTraceLore
unfolding len lore_of
into_subtrace_lore c = lore_of c (len c.before_tracker) (len c.after_tracker)

finish_at : CtorState → TracePos → LoreCtor → LoreCtor
finish_at CtorState.before_started now c = after_end now (after_start now (before_end now c))
finish_at CtorState.before_completed now c = after_end now (after_start now c)
finish_at CtorState.after_started now c = after_end now c
finish_at CtorState.after_completed now c = c

unfoldable pub finish_ctor : TracePos → LoreCtor → LoreCtor
unfolding finish_at after_end after_start before_end
finish_ctor now c = finish_at c.state now c
