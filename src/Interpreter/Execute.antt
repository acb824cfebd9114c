-- ===== src/Interpreter/Execute.antt =====
-- air/src/execution_step/instructions/mod.rs: an instruction is executed by its kind, and its error
-- is set in the context. The fuel bounds the depth of the calls, and the rounds of a fold over a
-- stream: an interpreter that has used up its stack aborts, as it does on a panic.
use aquavm.Prelude.{ℕ, zero, suc, String, Bool, true, false, if◌then◌else◌, Run, ok, err, panic}
use aquavm.SparseMatrix.{NonEmptyVec, SparseCell}
use aquavm.Keeper.{BiHashMap}
use aquavm.Values.{ValueAggregate, Json}
use aquavm.Errors.{ExecutionError}
use aquavm.Context.{ErrorObjects}
use aquavm.Interpreter.{Instruction, Machine, Execution, Host, set_errors}
use aquavm.Interpreter.Control.{
  execute_seq, execute_par, execute_xor, execute_match, execute_mismatch, execute_never,
  execute_null,
}
use aquavm.Interpreter.Folds.{execute_fold_scalar, execute_next}
use aquavm.Interpreter.StreamFolds.{execute_fold_stream, execute_fold_stream_map}
use aquavm.Interpreter.News.{execute_new}

abbrev pub is_foreign : {Foreign : Type 0} → Instruction Foreign → Bool
is_foreign (Instruction.foreign f) = true
is_foreign instruction = false

module _ {J C M H Foreign B : Type 0} ⦃objects : ErrorObjects J⦄ where
  -- The macro `execute!`.
  unfoldable pub with_errors :
      String
      → Run (Machine J C M H Foreign B) (ExecutionError J) (Unit {0})
      → Run (Machine J C M H Foreign B) (ExecutionError J) (Unit {0})
  unfolding set_errors
  with_errors instruction (ok a m) = ok a m
  with_errors instruction (err e m) = err e (set_errors e instruction m)
  with_errors instruction panic = panic

module _ {J C M H Foreign B : Type 0} ⦃bimap : BiHashMap B⦄ ⦃json : Json J⦄
    ⦃objects : ErrorObjects J⦄ ⦃values : NonEmptyVec (SparseCell (ValueAggregate J))⦄
    ⦃streams : NonEmptyVec (SparseCell C)⦄ ⦃maps : NonEmptyVec (SparseCell M)⦄
    ⦃host : Host J C M H Foreign B⦄ where
  unfoldable pub execute_kind :
      ℕ
      → (Instruction Foreign → Execution J C M H Foreign B (Unit {0}))
      → Instruction Foreign
      → Execution J C M H Foreign B (Unit {0})
  unfolding execute_seq execute_par execute_xor execute_match execute_mismatch execute_never
      execute_null execute_fold_scalar execute_fold_stream execute_fold_stream_map execute_next
      execute_new
  execute_kind fuel run (Instruction.foreign f) = host.execute_foreign f
  execute_kind fuel run (Instruction.seq left right) = execute_seq run left right
  execute_kind fuel run (Instruction.par left right) =
      execute_par run (host.to_string (Instruction.par left right)) left right
  execute_kind fuel run (Instruction.xor left right) = execute_xor run left right
  execute_kind fuel run (Instruction.match_ values instruction) =
      execute_match run values instruction
  execute_kind fuel run (Instruction.mismatch values instruction) =
      execute_mismatch run values instruction
  execute_kind fuel run (Instruction.fold_scalar iterable iterator instruction last_instruction) =
      execute_fold_scalar run iterable iterator instruction last_instruction
  execute_kind fuel run (Instruction.fold_stream name position iterator i last_instruction) =
      execute_fold_stream run fuel name position
        (host.to_string (Instruction.fold_stream name position iterator i last_instruction))
        iterator i last_instruction
  execute_kind fuel run (Instruction.fold_stream_map name position iterator i last_instruction) =
      execute_fold_stream_map run fuel name position
        (host.to_string (Instruction.fold_stream_map name position iterator i last_instruction))
        iterator i last_instruction
  execute_kind fuel run Instruction.never = execute_never
  execute_kind fuel run (Instruction.new argument instruction span) =
      execute_new run argument instruction span
  execute_kind fuel run (Instruction.next iterator) =
      execute_next run (host.to_string (Instruction.next iterator)) iterator
  execute_kind fuel run Instruction.null = execute_null

  -- A foreign instruction sets its errors itself.
  unfoldable pub step :
      ℕ
      → (Instruction Foreign → Execution J C M H Foreign B (Unit {0}))
      → Instruction Foreign
      → Execution J C M H Foreign B (Unit {0})
  unfolding execute_kind with_errors
  step fuel run instruction m =
      let result = execute_kind fuel run instruction m in
      if is_foreign instruction then result else with_errors (host.to_string instruction) result

  unfoldable pub execute : ℕ → Instruction Foreign → Execution J C M H Foreign B (Unit {0})
  unfolding step
  execute zero instruction m = panic
  execute (suc fuel) instruction m = step fuel (execute fuel) instruction m
