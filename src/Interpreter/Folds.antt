-- ===== src/Interpreter/Folds.antt =====
-- air/src/execution_step/instructions/{fold_scalar, next}.rs and the scalar iterables of
-- fold/utils.rs. `run` is the execution of an instruction that stands inside.
use aquavm.Prelude.{
  String, Option, none, some, List, [], ◌∷◌, Bool, true, false, ◌&&◌, not, if◌then◌else◌, Result,
  done, fail, Run, Exec, ok, err, panic, ◌>>=◌, ◌>>◌, pure, modify, or_panic, continue,
}
use aquavm.SparseMatrix.{NonEmptyVec, SparseCell, ScalarsError, set_key}
use aquavm.Scalars.{ScalarRef, get_iterable, set_iterable_value, remove_iterable_value}
use aquavm.Scalars
use aquavm.Handler.{meet_iteration_start, meet_iteration_end, meet_back_iterator}
use aquavm.Keeper.{BiHashMap}
use aquavm.Values.{
  ValueAggregate, IterableValue, Json, get_result, resolved_items, iterable_next, iterable_prev,
  peek, into_resolved_result,
}
use aquavm.Errors.{ExecutionError, CatchableError, from_scalars_error}
use aquavm.Interpreter.{
  Instruction, LastInstruction, FoldScalarIterable, IterableType, FoldState, FoldIterableScalar,
  from_iterable, Machine, Execution, Host, set_scalars, make_subgraph_incomplete,
  flush_subgraph_completeness, on_scalars, on_trace,
}
use aquavm.Interpreter.Control.{joinable}

module _ {J : Type 0} ⦃json : Json J⦄ where
  -- The arms of `from_value` on the value of an array.
  abbrev pub from_array :
      ValueAggregate J → String → Option (List J) → Result (ExecutionError J) (FoldIterableScalar J)
  unfolding get_result resolved_items
  from_array call_result variable_name none = fail (
      ExecutionError.catchable
        (CatchableError.fold_iterates_over_non_array (get_result call_result) variable_name))
  from_array call_result variable_name (some []) = done FoldIterableScalar.empty
  from_array call_result variable_name (some (jvalue ∷ array)) = done (
      FoldIterableScalar.scalar_based
        (record { items = resolved_items call_result 0 (jvalue ∷ array); cursor = 0 }))

  unfoldable pub from_value :
      ValueAggregate J → String → Result (ExecutionError J) (FoldIterableScalar J)
  unfolding from_array
  from_value call_result variable_name =
      from_array call_result variable_name (json.as_array (get_result call_result))

  -- `none` is a panic: of `get_value`, or of the `expect` on a peeked value.
  abbrev pub from_scalar_ref :
      {F : Type 0}
      → (F → IterableValue J)
      → String
      → Option (Result ScalarsError (ScalarRef (ValueAggregate J) F))
      → Option (Result (ExecutionError J) (FoldIterableScalar J))
  unfolding from_value into_resolved_result peek
  from_scalar_ref iterable_of variable_name none = none
  from_scalar_ref iterable_of variable_name (some (fail e)) = some (fail (from_scalars_error e))
  from_scalar_ref iterable_of variable_name (some (done (ScalarRef.value call_result))) =
      some (from_value call_result variable_name)
  from_scalar_ref iterable_of variable_name (some (done (ScalarRef.iterable_value fold_state))) =
      elim (peek (iterable_of fold_state)) [
        | none ↦ none
        | some item ↦ some (from_value (into_resolved_result item) variable_name)
      ]

-- `let result = …; code; result`, the result of the code being `()` or the lesser error.
abbrev pub finally {ℓ} : {S E A : Type ℓ} → Run S E A → Exec S E (Unit {ℓ}) → Run S E A
finally (ok a m) code = continue (code m) (λ b m. ok a m)
finally (err e m) code = elim (code m) [ ok b n ↦ err e n | err f n ↦ err e n | panic ↦ panic ]
finally panic code = panic

abbrev pub is_stream : IterableType → Bool
is_stream IterableType.scalar = false
is_stream (IterableType.stream fold_id) = true

module _ {J C M H Foreign B : Type 0} where
  -- What is written through the reference that `get_iterable_mut` gives.
  unfoldable pub put_iterable :
      String → FoldState J Foreign → Machine J C M H Foreign B → Machine J C M H Foreign B
  put_iterable name fold_state m =
      let s = (m.exec_ctx).scalars in
      set_scalars
        (record s { iterable_variables = set_key name (some fold_state) s.iterable_variables }) m

  unfoldable pub get_fold_state : String → Execution J C M H Foreign B (FoldState J Foreign)
  unfolding get_iterable from_scalars_error
  get_fold_state name m = elim (get_iterable name (m.exec_ctx).scalars) [
    | done fold_state ↦ ok fold_state m
    | fail e ↦ err (from_scalars_error e) m
  ]

  unfoldable pub maybe_meet_iteration_end :
      String → IterableType → Execution J C M H Foreign B (Unit {0})
  maybe_meet_iteration_end instruction IterableType.scalar = pure tt
  maybe_meet_iteration_end instruction (IterableType.stream fold_id) =
      on_trace instruction (meet_iteration_end fold_id)

  unfoldable pub maybe_meet_back_iterator :
      String → IterableType → Execution J C M H Foreign B (Unit {0})
  maybe_meet_back_iterator instruction IterableType.scalar = pure tt
  maybe_meet_back_iterator instruction (IterableType.stream fold_id) =
      on_trace instruction (meet_back_iterator fold_id)

  -- An exhausted fold without a last instruction.
  unfoldable pub start_back_iteration :
      String → FoldState J Foreign → Machine J C M H Foreign B → Machine J C M H Foreign B
  unfolding put_iterable make_subgraph_incomplete
  start_back_iteration name fold_state m =
      if not fold_state.back_iteration_started && is_stream fold_state.iterable_type
      then make_subgraph_incomplete
          (put_iterable name (record fold_state { back_iteration_started = true }) m)
      else m

module _ {J C M H Foreign B : Type 0} ⦃bimap : BiHashMap B⦄ where
  unfoldable pub iteration_start :
      String → IterableValue J → IterableType → Execution J C M H Foreign B (Unit {0})
  unfolding peek
  iteration_start instruction iterable IterableType.scalar = pure tt
  iteration_start instruction iterable (IterableType.stream fold_id) = do
    item ← λ m. or_panic (peek iterable) m
    on_trace instruction (meet_iteration_start fold_id item.pos)

  unfoldable pub maybe_meet_iteration_start :
      String → FoldState J Foreign → Execution J C M H Foreign B (Unit {0})
  unfolding iteration_start
  maybe_meet_iteration_start instruction fold_state =
      iteration_start instruction fold_state.iterable fold_state.iterable_type

module _ {J C M H Foreign B : Type 0} ⦃values : NonEmptyVec (SparseCell (ValueAggregate J))⦄
    ⦃streams : NonEmptyVec (SparseCell C)⦄ ⦃maps : NonEmptyVec (SparseCell M)⦄
    (run : Instruction Foreign → Execution J C M H Foreign B (Unit {0})) where
  -- `fold`
  unfoldable pub execute_fold :
      IterableValue J
      → IterableType
      → String
      → Instruction Foreign
      → LastInstruction Foreign
      → Execution J C M H Foreign B (Unit {0})
  unfolding from_iterable set_iterable_value remove_iterable_value
  execute_fold iterable iterable_type iterator instruction last_instruction = do
    on_scalars Scalars.meet_fold_start
    on_scalars (
        set_iterable_value iterator
          (from_iterable iterable iterable_type instruction last_instruction))
    λ m. finally (run instruction m) (do
      modify (λ m. set_scalars (remove_iterable_value iterator (m.exec_ctx).scalars) m)
      on_scalars Scalars.meet_fold_end)

  unfoldable pub fold_iterable :
      String
      → Instruction Foreign
      → LastInstruction Foreign
      → FoldIterableScalar J
      → Execution J C M H Foreign B (Unit {0})
  unfolding execute_fold
  fold_iterable iterator instruction last_instruction FoldIterableScalar.empty = pure tt
  fold_iterable iterator instruction last_instruction (FoldIterableScalar.scalar_based iterable) =
      execute_fold iterable IterableType.scalar iterator instruction last_instruction

  unfoldable pub execute_fold_scalar :
      ⦃json : Json J⦄
      → ⦃host : Host J C M H Foreign B⦄ → FoldScalarIterable Foreign
      → String
      → Instruction Foreign
      → LastInstruction Foreign
      → Execution J C M H Foreign B (Unit {0})
  unfolding fold_iterable joinable Scalars.get_value from_scalar_ref
  execute_fold_scalar (FoldScalarIterable.scalar name) iterator instruction last_instruction m =
      elim (from_scalar_ref (λ f. f.iterable) name (Scalars.get_value name (m.exec_ctx).scalars)) [
        | none ↦ panic
        | some iterable ↦ joinable iterable (fold_iterable iterator instruction last_instruction) m
      ]
  execute_fold_scalar FoldScalarIterable.empty_array iterator instruction last_instruction m =
      ok tt m
  execute_fold_scalar ⦃host = host⦄ (FoldScalarIterable.other f) iterator instruction
        last_instruction m =
      joinable (host.create_iterable f m.exec_ctx)
        (fold_iterable iterator instruction last_instruction) m

  -- The last instruction of an exhausted fold.
  unfoldable pub exhausted : String → FoldState J Foreign → Execution J C M H Foreign B (Unit {0})
  unfolding flush_subgraph_completeness start_back_iteration
  exhausted name fold_state m = elim fold_state.last_instr_head [
    | LastInstruction.last instruction ↦ run instruction (flush_subgraph_completeness m)
    | LastInstruction.no_last ↦ ok tt (start_back_iteration name fold_state m)
  ]

  -- The recursion of `next`, between the two scopes.
  unfoldable pub run_next : Instruction Foreign → Execution J C M H Foreign B (Unit {0})
  run_next instruction = do
    on_scalars Scalars.meet_next_before
    λ m. finally (run instruction m) (on_scalars Scalars.meet_next_after)

  -- The two ways of `next`, by what `iterable.next()` returned.
  unfoldable pub advance :
      ⦃bimap : BiHashMap B⦄
      → String
      → String
      → FoldState J Foreign
      → Bool × IterableValue J
      → Execution J C M H Foreign B (Unit {0})
  unfolding exhausted run_next put_iterable get_fold_state maybe_meet_iteration_start
      maybe_meet_back_iterator iterable_prev
  advance instruction name fold_state (false, iterable) = do
    maybe_meet_back_iterator instruction fold_state.iterable_type
    fold_state ← get_fold_state name
    exhausted name fold_state
  advance instruction name fold_state (true, iterable) = do
    modify (put_iterable name (record fold_state { iterable = iterable }))
    maybe_meet_iteration_start instruction (record fold_state { iterable = iterable })
    run_next fold_state.instr_head
    fold_state ← get_fold_state name
    modify
        (put_iterable name (record fold_state { iterable = (iterable_prev fold_state.iterable).1 }))
    maybe_meet_back_iterator instruction fold_state.iterable_type

  unfoldable pub execute_next :
      ⦃bimap : BiHashMap B⦄ → String → String → Execution J C M H Foreign B (Unit {0})
  unfolding advance get_fold_state maybe_meet_iteration_end iterable_next
  execute_next instruction name = do
    fold_state ← get_fold_state name
    maybe_meet_iteration_end instruction fold_state.iterable_type
    advance instruction name fold_state (iterable_next fold_state.iterable)
