-- ===== src/Examples/Fails.antt =====
-- A left branch that fails, and a right branch that fails with `:error:`.
use aquavm.Prelude.{
  ℕ, String, ◌≡◌, refl, none, some, true, false, done, ◌==◌, if◌then◌else◌, str_eq, err, Bool, List,
}
use aquavm.ErrorObject.{ErrorFields, check_error_object}
use aquavm.Values.{Provenance}
use aquavm.Keeper.Table.{Table}
use aquavm.Errors.{ExecutionError, CatchableError}
use aquavm.Interpreter.{Instruction, Machine, Execution}
use aquavm.Interpreter.Control.{execute_xor}
use aquavm.Interpreter.Execute.{with_errors}
use aquavm.Interpreter.Fails.{fail_with_error, after_rethrow, fail_with_error-rethrows}
use aquavm.Examples.Machine.{machine, objects}

-- `9` is an object with a code and a message.
instance abbrev fields : ErrorFields ℕ
fields = record {
  as_object = λ j.
      if j == 9 then some (λ name. if str_eq name "error_code" then some 5 else some 6) else none;
  as_number = λ j. some (record { is_i64 = true; is_u64 = true; as_i64 = some (true, j) });
  as_str = λ j. some "message";
}

abbrev with_error : Machine ℕ ℕ Bool (List ℕ) String Table
with_error = record machine {
  exec_ctx = record machine.exec_ctx {
    error_descriptor = record {
      error = record {
        error = 9;
        tetraplet = none;
        provenance = Provenance.literal;
        orig_catchable = none;
      };
      error_can_be_set = false;
    };
  };
}

abbrev branches : Instruction String → Execution ℕ ℕ Bool (List ℕ) String Table (Unit {0})
branches Instruction.null m =
    err (ExecutionError.catchable CatchableError.match_values_not_equal) with_error
branches i m = with_errors "fail" (fail_with_error m)

is_error_object : check_error_object {J = ℕ} 9 ≡ some (done tt)
unfolding check_error_object
is_error_object = refl

fail_with_error-rethrows_example :
    execute_xor branches Instruction.null (Instruction.foreign "fail") machine
    ≡ err
        (ExecutionError.catchable CatchableError.match_values_not_equal)
        (after_rethrow CatchableError.match_values_not_equal with_error)
fail_with_error-rethrows_example =
    fail_with_error-rethrows branches "fail" Instruction.null (Instruction.foreign "fail") machine
      with_error CatchableError.match_values_not_equal refl (λ n. refl) is_error_object
