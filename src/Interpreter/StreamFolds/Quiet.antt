-- ===== src/Interpreter/StreamFolds/Quiet.antt =====
-- air/src/execution_step/instructions/fold_stream/stream_execute_helpers.rs: runs that end without a
-- catchable error, and leave no scope behind.
use aquavm.Prelude.{
  String, inl, inr, Option-cases, Bool-cases, leb, u32_mod, ◌+◌, Run, Exec, ok, err, panic,
  continue, zoom, map_err, Run-cases,
}
use aquavm.Handler.{TraceHandler, TraceHandlerError}
use aquavm.Scalars.Scopes.{
  AreScoped, AreWithin, AreWithin-refl, AreWithin-trans, AreWithin-AreScoped,
}
use aquavm.Stream.{StreamCursor}
use aquavm.Stream.Recursive.{RecursiveCursorState, Recursion}
use aquavm.Streams
use aquavm.Streams.{AirPos}
use aquavm.StreamMaps
use aquavm.Values.{ValueAggregate}
use aquavm.Errors.{ExecutionError}
use aquavm.Interpreter.{ContextScalars, Machine, Execution, on_trace}
use aquavm.Interpreter.Scoped.{scalars_of, Keeps}
use aquavm.Interpreter.StreamFolds.{
  throw_error_if_not_catchable, on_recursion, stream_at, map_stream_at, meet_fold_stream, StreamRef,
}

module _ {J C M H Foreign B : Type 0} where
  -- A run that succeeds leaves the scopes of the scalars as they were, and none ends with a
  -- catchable error.
  abbrev pub Settles :
      {A : Type 0}
      → ContextScalars J C M Foreign
      → Run (Machine J C M H Foreign B) (ExecutionError J) A
      → Type 0
  Settles before (ok a m) = AreWithin before (scalars_of m)
  Settles before (err (ExecutionError.catchable e) m) = ⊥
  Settles before (err (ExecutionError.uncatchable e) m) = Unit
  Settles before panic = Unit

  Settles-within :
      {A : Type 0} (a b : ContextScalars J C M Foreign)
      → AreWithin a b
      → (r : Run (Machine J C M H Foreign B) (ExecutionError J) A) → Settles b r
      → Settles a r
  Settles-within a b w (ok x m) k = AreWithin-trans a b (scalars_of m) w k
  Settles-within a b w (err (ExecutionError.catchable e) m) k = k
  Settles-within a b w (err (ExecutionError.uncatchable e) m) k = tt
  Settles-within a b w panic k = tt

  pub Settles-continue :
      {A D : Type 0} (s : ContextScalars J C M Foreign)
      → AreScoped s
      → (r : Run (Machine J C M H Foreign B) (ExecutionError J) A) → Settles s r
      → (f : A → Execution J C M H Foreign B D)
      → ((a : A)
          → (m : Machine J C M H Foreign B) → AreScoped (scalars_of m)
          → Settles (scalars_of m) (f a m))
      → Settles s (continue r f)
  Settles-continue s h (ok x m) k f next =
      Settles-within s (scalars_of m) k (f x m)
        (next x m (AreWithin-AreScoped s (scalars_of m) k h))
  Settles-continue s h (err (ExecutionError.catchable e) m) k f next = k
  Settles-continue s h (err (ExecutionError.uncatchable e) m) k f next = tt
  Settles-continue s h panic k f next = tt

  pub on_trace-Settles :
      {A : Type 0} (fold : String) (r : Exec (TraceHandler B) TraceHandlerError A)
      (m : Machine J C M H Foreign B)
      → Settles (scalars_of m) (on_trace fold r m)
  on_trace-Settles fold r m = elim (Run-cases (r m.trace_ctx)) [
    | inl p ↦ rw (zoom, map_err, p) tt
    | inr (inl (a, t, p)) ↦ rw (zoom, map_err, p) (AreWithin-refl (scalars_of m))
    | inr (inr (e, t, p)) ↦ rw (zoom, map_err, p) tt
  ]

  pub thrown-Settles :
      (s : ContextScalars J C M Foreign)
      (r : Run (Machine J C M H Foreign B) (ExecutionError J) (Unit {0}))
      → Keeps s r
      → Settles s (throw_error_if_not_catchable r)
  unfolding throw_error_if_not_catchable
  thrown-Settles s (ok a m) k = k
  thrown-Settles s (err (ExecutionError.catchable c) m) k = k
  thrown-Settles s (err (ExecutionError.uncatchable u) m) k = tt
  thrown-Settles s panic k = tt

  pub Settles-Keeps :
      (s : ContextScalars J C M Foreign)
      (r : Run (Machine J C M H Foreign B) (ExecutionError J) (Unit {0}))
      → Settles s r
      → Keeps s r
  Settles-Keeps s (ok a m) k = k
  Settles-Keeps s (err (ExecutionError.catchable c) m) k = absurd k
  Settles-Keeps s (err (ExecutionError.uncatchable u) m) k = tt
  Settles-Keeps s panic k = tt

  -- A reference through which no scalar is written.
  abbrev pub Lends : StreamRef J C M H Foreign B → Type 0
  Lends get_mut_stream =
      (f : Recursion (ValueAggregate J)
        → RecursiveCursorState (ValueAggregate J) × Recursion (ValueAggregate J))
      (cursor : StreamCursor) (m : Machine J C M H Foreign B)
      → Settles (scalars_of m) (on_recursion get_mut_stream f cursor m)

  pub stream_at-Lends : (name : String) (position : AirPos) → Lends (stream_at name position)
  unfolding on_recursion stream_at
  stream_at-Lends name position f cursor m =
      elim (Option-cases (Streams.get_mut name position (m.exec_ctx).streams)) [
        | inl e ↦ rw (Settles, e) tt
        | inr (found, e) ↦ rw (Settles, e) (AreWithin-refl (scalars_of m))
      ]

  pub map_stream_at-Lends :
      (name : String) (position : AirPos) → Lends (map_stream_at name position)
  unfolding on_recursion map_stream_at
  map_stream_at-Lends name position f cursor m =
      elim (Option-cases (StreamMaps.get_mut name position (m.exec_ctx).stream_maps)) [
        | inl e ↦ rw (Settles, e) tt
        | inr (found, e) ↦ rw (Settles, e) (AreWithin-refl (scalars_of m))
      ]

  pub meet_fold_stream-Settles :
      (m : Machine J C M H Foreign B) → Settles (scalars_of m) (meet_fold_stream m)
  unfolding meet_fold_stream
  meet_fold_stream-Settles m =
      elim (Bool-cases (leb u32_mod ((m.exec_ctx).seen_stream_count + 1))) [
        | inl e ↦ rw (Settles, e) tt
        | inr e ↦ rw (Settles, e) (AreWithin-refl (scalars_of m))
      ]
