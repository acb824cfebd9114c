-- ===== src/Interpreter/News.antt =====
-- air/src/execution_step/instructions/new.rs. `run` is the execution of the instruction inside.
use aquavm.Prelude.{Exec, map_err, zoom}
use aquavm.SparseMatrix.{NonEmptyVec, SparseCell}
use aquavm.Scalars
use aquavm.Streams.{StreamsRun, Span}
use aquavm.Streams
use aquavm.StreamMaps.{StreamMapsRun}
use aquavm.StreamMaps
use aquavm.Stream.{UncatchableError}
use aquavm.Values.{ValueAggregate, value_pos}
use aquavm.Errors.{ExecutionError, Uncatchable}
use aquavm.Interpreter.{
  Instruction, NewArgument, Machine, Execution, set_ctx, set_scalars, on_scalars,
}
use aquavm.Interpreter.Folds.{finally}

abbrev stream_error :
    {S J : Type 0} → Exec S UncatchableError (Unit {0}) → Exec S (ExecutionError J) (Unit {0})
stream_error = map_err (λ e. ExecutionError.uncatchable (Uncatchable.stream_error e))

module _ {J C M H Foreign B : Type 0} where
  -- The tracker of met instructions is not modelled.
  unfoldable pub prolog : NewArgument → Span → Machine J C M H Foreign B → Machine J C M H Foreign B
  prolog (NewArgument.stream name) span m =
      let c = m.exec_ctx in
      set_ctx (record c { streams = Streams.meet_scope_start name span c.streams }) m
  prolog (NewArgument.stream_map name) span m =
      let c = m.exec_ctx in
      set_ctx (record c { stream_maps = StreamMaps.meet_scope_start name span c.stream_maps }) m
  prolog (NewArgument.scalar name) span m =
      set_scalars (Scalars.meet_new_start_scalar name (m.exec_ctx).scalars) m
  prolog (NewArgument.canon_stream name) span m =
      set_scalars (Scalars.meet_new_start_canon_stream name (m.exec_ctx).scalars) m
  prolog (NewArgument.canon_stream_map name) span m =
      set_scalars (Scalars.meet_new_start_canon_stream_map name (m.exec_ctx).scalars) m

  -- Methods of the streams and of the stream maps that are lent the trace handler.
  unfoldable pub on_streams :
      Exec (StreamsRun (ValueAggregate J) B) UncatchableError (Unit {0})
      → Execution J C M H Foreign B (Unit {0})
  on_streams r = stream_error (
      zoom (λ m. record { streams = (m.exec_ctx).streams; trace = m.trace_ctx })
        (λ s m. record {
          exec_ctx = record m.exec_ctx { streams = s.streams };
          trace_ctx = s.trace;
        })
        r)

  unfoldable pub on_stream_maps :
      Exec (StreamMapsRun J B) UncatchableError (Unit {0}) → Execution J C M H Foreign B (Unit {0})
  on_stream_maps r = stream_error (
      zoom (λ m. record { stream_maps = (m.exec_ctx).stream_maps; trace = m.trace_ctx })
        (λ s m. record {
          exec_ctx = record m.exec_ctx { stream_maps = s.stream_maps };
          trace_ctx = s.trace;
        })
        r)

module _ {J C M H Foreign B : Type 0} ⦃values : NonEmptyVec (SparseCell (ValueAggregate J))⦄
    ⦃streams : NonEmptyVec (SparseCell C)⦄ ⦃maps : NonEmptyVec (SparseCell M)⦄ where
  unfoldable pub epilog : NewArgument → Execution J C M H Foreign B (Unit {0})
  unfolding on_streams on_stream_maps value_pos
  epilog (NewArgument.stream name) = on_streams (Streams.meet_scope_end name)
  epilog (NewArgument.stream_map name) = on_stream_maps (StreamMaps.meet_scope_end name)
  epilog (NewArgument.scalar name) = on_scalars (Scalars.meet_new_end_scalar name)
  epilog (NewArgument.canon_stream name) = on_scalars (Scalars.meet_new_end_canon_stream name)
  epilog (NewArgument.canon_stream_map name) =
      on_scalars (Scalars.meet_new_end_canon_stream_map name)

  -- The error of the instruction comes before that of the epilog.
  unfoldable pub execute_new :
      (Instruction Foreign → Execution J C M H Foreign B (Unit {0}))
      → NewArgument
      → Instruction Foreign
      → Span
      → Execution J C M H Foreign B (Unit {0})
  unfolding prolog epilog
  execute_new run argument instruction span m =
      finally (run instruction (prolog argument span m)) (epilog argument)
