-- ===== src/Examples/StreamFolds.antt =====
-- A fold over a stream with two values, whose body fails for each of them.
use aquavm.Prelude.{ℕ, String, none, some, List, [], ◌∷◌, Bool, err}
use aquavm.SparseMatrix.{set_key}
use aquavm.Scalars.Scopes.{AreWithin-refl}
use aquavm.Stream.{Stream, empty}
use aquavm.Streams.{global}
use aquavm.Keeper.Table.{Table, table}
use aquavm.Errors.{ExecutionError, CatchableError}
use aquavm.Interpreter.{Instruction, LastInstruction, Machine, Execution}
use aquavm.Values.{ValueAggregate}
use aquavm.Interpreter.Scoped.{scalars_of, RunKeeps}
use aquavm.Interpreter.StreamFolds.{execute_fold_stream, execute_fold_stream_map}
use aquavm.Interpreter.StreamFolds.Quiet.{Settles}
use aquavm.Interpreter.StreamFolds.Settles.{execute_fold_stream-Settles}
use aquavm.Examples.Machine.{json, values, streams, maps, machine, array, scalars-AreScoped}

abbrev fails : Instruction String → Execution ℕ ℕ Bool (List ℕ) String Table (Unit {0})
fails i m = err (ExecutionError.catchable (CatchableError.user_error 1)) m

fails-RunKeeps : RunKeeps fails
fails-RunKeeps i m h = AreWithin-refl (scalars_of m)

abbrev stream : Stream (ValueAggregate ℕ)
stream = record empty { new_values = record { values = (array ∷ array ∷ []) ∷ []; size = 2 } }

abbrev with_stream : Machine ℕ ℕ Bool (List ℕ) String Table
unfolding global
with_stream = record machine {
  exec_ctx = record machine.exec_ctx {
    streams = record { streams = set_key "$s" (some (global stream ∷ [])) (λ name. none) };
  };
}

execute_fold_stream-Settles_example :
    Settles (scalars_of with_stream) (
      execute_fold_stream fails 3 "$s" 7 "fold" "i" Instruction.null LastInstruction.no_last
        with_stream)
    × Settles (scalars_of with_stream) (
        execute_fold_stream_map fails 3 "$s" 7 "fold" "i" Instruction.null LastInstruction.no_last
          with_stream)
unfolding with_stream
execute_fold_stream-Settles_example =
    execute_fold_stream-Settles fails fails-RunKeeps "fold" "i" Instruction.null
      LastInstruction.no_last 3 "$s" 7 with_stream scalars-AreScoped
