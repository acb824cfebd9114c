-- ===== src/Interpreter/Fails.antt =====
-- air/src/execution_step/instructions/fail.rs: the failures that carry an error object over, of
-- `%last_error%` and of `:error:`.
use aquavm.Prelude.{
  Option, none, some, false, ◌≡◌, refl, Result, done, fail, Run, ok, err, panic, String,
}
use aquavm.Values.{SecurityTetraplet, Provenance}
use aquavm.ErrorObject.{ErrorObjectError, ErrorFields, check_error_object}
use aquavm.Errors.{ExecutionError, CatchableError}
use aquavm.Context.{ErrorObjects, set_from_error_object, disable_error_setting}
use aquavm.Interpreter.{
  Instruction, Machine, Execution, set_last_error, set_error, make_subgraph_incomplete,
  flush_subgraph_completeness,
}
use aquavm.Interpreter.Control.{execute_xor}
use aquavm.Interpreter.Execute.{with_errors}

module _ {J C M H Foreign B : Type 0} where
  unfoldable pub fail_with_error_object :
      J → Option SecurityTetraplet → Provenance → Execution J C M H Foreign B (Unit {0})
  unfolding set_from_error_object make_subgraph_incomplete
  fail_with_error_object error tetraplet provenance m =
      err (ExecutionError.catchable (CatchableError.user_error error)) (
        make_subgraph_incomplete (
          set_last_error
            (set_from_error_object error tetraplet provenance (m.exec_ctx).last_error_descriptor)
            m))

  -- `check_error_object(error).map_err(…)?`; `none` is its panic.
  unfoldable pub checked :
      Option (Result (ErrorObjectError J) (Unit {0}))
      → Execution J C M H Foreign B (Unit {0})
      → Execution J C M H Foreign B (Unit {0})
  checked none code m = panic
  checked (some (fail e)) code m =
      err (ExecutionError.catchable (CatchableError.invalid_error_object_error e)) m
  checked (some (done a)) code m = code m

  -- The original error, in place of that of the error object.
  unfoldable pub rethrown :
      Option (CatchableError J)
      → Run (Machine J C M H Foreign B) (ExecutionError J) (Unit {0})
      → Run (Machine J C M H Foreign B) (ExecutionError J) (Unit {0})
  rethrown (some original) (err e m) = err (ExecutionError.catchable original) m
  rethrown (some original) (ok a m) = err (ExecutionError.catchable original) m
  rethrown (some original) panic = panic
  rethrown none result = result

  unfoldable pub with_setting_disabled :
      Run (Machine J C M H Foreign B) (ExecutionError J) (Unit {0})
      → Run (Machine J C M H Foreign B) (ExecutionError J) (Unit {0})
  unfolding disable_error_setting
  with_setting_disabled (ok a m) =
      ok a (set_error (disable_error_setting (m.exec_ctx).error_descriptor) m)
  with_setting_disabled (err e m) =
      err e (set_error (disable_error_setting (m.exec_ctx).error_descriptor) m)
  with_setting_disabled panic = panic

module _ {J C M H Foreign B : Type 0} ⦃fields : ErrorFields J⦄ where
  unfoldable pub fail_with_last_error : Execution J C M H Foreign B (Unit {0})
  unfolding checked check_error_object fail_with_error_object
  fail_with_last_error m =
      let e = ((m.exec_ctx).last_error_descriptor).error in
      checked (check_error_object e.error) (fail_with_error_object e.error e.tetraplet e.provenance)
        m

  unfoldable pub fail_with_error : Execution J C M H Foreign B (Unit {0})
  unfolding checked check_error_object fail_with_error_object rethrown with_setting_disabled
  fail_with_error m =
      let e = ((m.exec_ctx).error_descriptor).error in
      checked (check_error_object e.error)
        (λ m.
          with_setting_disabled
            (rethrown e.orig_catchable (fail_with_error_object e.error e.tetraplet e.provenance m)))
        m

  -- The object of `:error:` becomes that of `%last_error%`, neither can be set before the next `xor`,
  -- and the subgraph counts as incomplete.
  abbrev pub after_rethrow :
      CatchableError J → Machine J C M H Foreign B → Machine J C M H Foreign B
  after_rethrow e p =
      let object = ((p.exec_ctx).error_descriptor).error in
      record p {
        exec_ctx = record p.exec_ctx {
          last_error_descriptor = record {
            error = record object { orig_catchable = none };
            error_can_be_set = false;
          };
          error_descriptor = record {
            error = record object { orig_catchable = some e };
            error_can_be_set = false;
          };
          subgraph_completeness = false;
        };
      }

  -- Where the left branch of `xor` fails with a catchable error and leaves an error object in
  -- `:error:` that passes the check, and the right branch runs as `fail` with `:error:` does
  -- under the macro that sets errors, the `xor` fails with the error that it has caught:
  -- `%last_error%` becomes the object of `:error:`, neither can be set, the subgraph is
  -- incomplete, and nothing else has changed since the left branch.
  pub fail_with_error-rethrows :
      ⦃objects : ErrorObjects J⦄
      → (run : Instruction Foreign → Execution J C M H Foreign B (Unit {0})) (instruction : String)
        (left right : Instruction Foreign) (m p : Machine J C M H Foreign B) (e : CatchableError J)
      → run left (flush_subgraph_completeness m) ≡ err (ExecutionError.catchable e) p
      → ((n : Machine J C M H Foreign B)
          → run right n ≡ with_errors instruction (fail_with_error n))
      → check_error_object (((p.exec_ctx).error_descriptor).error).error ≡ some (done tt)
      → execute_xor run left right m ≡ err (ExecutionError.catchable e) (after_rethrow e p)
  unfolding execute_xor with_errors fail_with_error
  fail_with_error-rethrows run instruction left right m p e l r c = rw (l, r _, c) refl
