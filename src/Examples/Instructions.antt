-- ===== src/Examples/Instructions.antt =====
-- A fold over an array whose body notes each item, and branches that fail.
use aquavm.Prelude.{
  ℕ, String, ◌≡◌, refl, arith, none, some, List, [], ◌∷◌, Bool, false, Run, ok, err, panic, ◌↔◌,
  length,
}
use aquavm.SparseMatrix.{NameMap, ScalarsError, set_key, get_value, meet_next_before}
use aquavm.Scalars.{Scalars, ScalarRef}
use aquavm.Scalars
use aquavm.Scalars.Scopes.{AreScoped, AreWithin-refl}
use aquavm.Keeper.Table.{Table, table}
use aquavm.Values.{ValueAggregate, IterableItem, IterableValue, resolved_items, get_result}
use aquavm.Errors.{ExecutionError, CatchableError}
use aquavm.Interpreter.{
  Instruction, LastInstruction, FoldScalarIterable, FoldState, Machine, Execution,
  flush_subgraph_completeness, set_scalars,
}
use aquavm.Interpreter.Cursor.{visit, items_of, body, with_host}
use aquavm.Interpreter.Execute.{execute}
use aquavm.Interpreter.Control.{execute_xor}
use aquavm.Interpreter.Folds.{execute_next}
use aquavm.Interpreter.Scoped.{scalars_of, Keeps}
use aquavm.Interpreter.Safe.{execute-Keeps}
use aquavm.Interpreter.Laws.{
  scalar_fold, cursor_at, execute_xor-ok, execute_xor-err, execute_next-err,
}
use aquavm.Interpreter.Laws.Xor.{branch_start, XorSucceeds, XorFails}
use aquavm.Interpreter.Visits.{execute-Visits}
use aquavm.Examples.Machine.{
  json, objects, values, streams, maps, note, host, array, scalars, machine, scalars-AreScoped,
  host-Visits,
}

abbrev fold : Instruction String
fold =
    Instruction.fold_scalar (FoldScalarIterable.scalar "xs") "i" (body "i" "note")
      LastInstruction.no_last

execute-Visits_example :
    execute 7 fold machine
    ≡ ok tt (
        with_host
          (visit note (items_of array 0 (1 ∷ 2 ∷ 3 ∷ [])) [])
          (flush_subgraph_completeness machine))
unfolding Scalars.get_value Scalars.get_non_iterable_scalar get_result get_value
execute-Visits_example =
    execute-Visits "i" "note" note "xs" array 1 (2 ∷ 3 ∷ []) machine 7 host-Visits refl refl refl
      scalars-AreScoped (omega arith, omega arith, omega arith) (omega arith)

execute-Keeps_example : Keeps (scalars_of machine) (execute 7 fold machine)
unfolding host
execute-Keeps_example =
    execute-Keeps (λ f m h. AreWithin-refl (scalars_of m)) 7 fold machine scalars-AreScoped

-- An instruction that fails for one name, and succeeds for the others.
abbrev run : Instruction String → Execution ℕ ℕ Bool (List ℕ) String Table (Unit {0})
run (Instruction.foreign f) m = ok tt m
run i m = err (ExecutionError.catchable (CatchableError.user_error 1)) m

abbrev state_of :
    Run (Machine ℕ ℕ Bool (List ℕ) String Table) (ExecutionError ℕ) (Unit {0})
    → Machine ℕ ℕ Bool (List ℕ) String Table
state_of (ok a m) = m
state_of (err e m) = m
state_of panic = machine

abbrev caught : Machine ℕ ℕ Bool (List ℕ) String Table
unfolding execute_xor
caught = state_of (execute_xor run Instruction.null (Instruction.foreign "note") machine)

right_succeeds :
    execute_xor run Instruction.null (Instruction.foreign "note") machine ≡ ok tt caught
unfolding execute_xor
right_succeeds = refl

execute_xor-ok_example :
    (execute_xor run Instruction.null (Instruction.foreign "note") machine ≡ ok tt caught)
    ↔ XorSucceeds run
        (Instruction.foreign "note")
        (run Instruction.null (branch_start machine))
        caught
execute_xor-ok_example =
    execute_xor-ok run Instruction.null (Instruction.foreign "note") machine caught

abbrev failed : Machine ℕ ℕ Bool (List ℕ) String Table
unfolding execute_xor
failed = state_of (execute_xor run Instruction.null Instruction.never machine)

right_fails :
    execute_xor run Instruction.null Instruction.never machine
    ≡ err (ExecutionError.catchable (CatchableError.user_error 1)) failed
unfolding execute_xor
right_fails = refl

execute_xor-err_example :
    (execute_xor run Instruction.null Instruction.never machine
      ≡ err (ExecutionError.catchable (CatchableError.user_error 1)) failed)
    ↔ XorFails run Instruction.never
        (run Instruction.null (branch_start machine))
        (ExecutionError.catchable (CatchableError.user_error 1))
        failed
execute_xor-err_example =
    execute_xor-err run Instruction.null Instruction.never machine failed
      (ExecutionError.catchable (CatchableError.user_error 1))

-- The iterator at the first of the items, in a body that fails.
abbrev items : List (IterableItem ℕ)
items = resolved_items array 0 (1 ∷ 2 ∷ [])

abbrev at_cursor : ℕ → IterableValue ℕ
at_cursor cursor = record { items = items; cursor = cursor }

abbrev fold_state : ℕ → FoldState ℕ String
fold_state cursor = scalar_fold (at_cursor cursor) false Instruction.null LastInstruction.no_last

two_items : length items ≡ 2
unfolding resolved_items
two_items = refl

abbrev fold_at_first : NameMap (FoldState ℕ String)
fold_at_first = set_key "i" (some (fold_state 0)) (λ name. none)

abbrev scalars_after :
    Run (Scalars (ValueAggregate ℕ) ℕ Bool (FoldState ℕ String)) ScalarsError (Unit {0})
    → Scalars (ValueAggregate ℕ) ℕ Bool (FoldState ℕ String)
scalars_after (ok a s) = s
scalars_after (err e s) = s
scalars_after panic = scalars

abbrev in_fold : Machine ℕ ℕ Bool (List ℕ) String Table
in_fold = set_scalars (record scalars { iterable_variables = fold_at_first }) machine

abbrev user_error : ExecutionError ℕ
user_error = ExecutionError.catchable (CatchableError.user_error 1)

-- The state in which the body starts, and fails.
abbrev opened : Scalars (ValueAggregate ℕ) ℕ Bool (FoldState ℕ String)
opened = scalars_after (
    Scalars.meet_next_before
      (cursor_at "i" items 1 false Instruction.null LastInstruction.no_last in_fold))

opens :
    Scalars.meet_next_before
      (cursor_at "i" items 1 false Instruction.null LastInstruction.no_last in_fold)
    ≡ ok tt opened
unfolding Scalars.meet_next_before meet_next_before
opens = refl

in_fold-AreScoped : AreScoped (scalars_of in_fold)
in_fold-AreScoped = record {
  variables = scalars-AreScoped.variables;
  streams = scalars-AreScoped.streams;
  maps = scalars-AreScoped.maps;
}

-- The iterator stands at the second item.
execute_next-err_example :
    execute_next run "next" "i" in_fold
    ≡ err user_error (
        set_scalars
          (record scalars { iterable_variables = set_key "i" (some (fold_state 1)) fold_at_first })
          machine)
unfolding Scalars.meet_next_before meet_next_before
execute_next-err_example =
    execute_next-err run "next" "i" items 0 false Instruction.null LastInstruction.no_last in_fold
      (set_scalars opened in_fold) opened user_error refl (omega (arith, two_items))
      in_fold-AreScoped opens refl (AreWithin-refl opened)
