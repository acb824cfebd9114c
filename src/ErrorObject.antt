-- ===== src/ErrorObject.antt =====
-- air/src/execution_step/execution_context/instruction_error/{instruction_error_definition, errors}.rs:
-- which JSON values are error objects.
use aquavm.Prelude.{
  ℕ, String, Option, none, some, Bool, ◌||◌, ◌==◌, if◌then◌else◌, Result, done, fail,
}

pub data ErrorObjectError (J : Type 0) : Type 0 where
  scalar_must_be_object : J → ErrorObjectError J
  scalar_must_contain_field : J → String → ErrorObjectError J
  scalar_field_is_wrong_type : J → String → String → ErrorObjectError J
  error_code_must_be_non_zero : ErrorObjectError J

-- `serde_json::Number`, by the methods that are called; an i64 by its sign and size.
pub record Number : Type 0 where
  pub is_i64 : Bool
  pub is_u64 : Bool
  pub as_i64 : Option (Bool × ℕ)

-- The kinds of a `JValue` that an error object is made of.
pub record ErrorFields (J : Type 0) : Type 0 where
  pub as_object : J → Option (String → Option J)
  pub as_number : J → Option Number
  pub as_str : J → Option String

abbrev error_code_field_name : String
error_code_field_name = "error_code"

abbrev message_field_name : String
message_field_name = "message"

abbrev no_error_error_code : ℕ
no_error_error_code = 0

module _ {J : Type 0} ⦃fields : ErrorFields J⦄ where
  unfoldable pub ensure_error_code_is_error : Bool × ℕ → Result (ErrorObjectError J) (Unit {0})
  ensure_error_code_is_error number =
      if number.1 == no_error_error_code
      then fail ErrorObjectError.error_code_must_be_non_zero
      else done tt

  -- `unwrap` of what `as_i64` gives; `none` is its panic.
  unfoldable pub unwrapped_code :
      Option (Bool × ℕ) → Option (Result (ErrorObjectError J) (Unit {0}))
  unfolding ensure_error_code_is_error
  unwrapped_code none = none
  unwrapped_code (some number) = some (ensure_error_code_is_error number)

  unfoldable pub ensure_error_code_correct :
      J → Option Number → String → Option (Result (ErrorObjectError J) (Unit {0}))
  unfolding unwrapped_code
  ensure_error_code_correct scalar none field_name =
      some (fail (ErrorObjectError.scalar_field_is_wrong_type scalar field_name "integer"))
  ensure_error_code_correct scalar (some number) field_name =
      if number.is_i64 || number.is_u64
      then unwrapped_code number.as_i64
      else some (fail (ErrorObjectError.scalar_field_is_wrong_type scalar field_name "integer"))

  unfoldable pub ensure_jvalue_is_string :
      J → Option String → String → Result (ErrorObjectError J) (Unit {0})
  ensure_jvalue_is_string scalar none field_name =
      fail (ErrorObjectError.scalar_field_is_wrong_type scalar field_name "string")
  ensure_jvalue_is_string scalar (some s) field_name = done tt

  -- The check of the message, after that of the code.
  unfoldable pub check_message :
      J
      → Option J
      → Option (Result (ErrorObjectError J) (Unit {0}))
      → Option (Result (ErrorObjectError J) (Unit {0}))
  unfolding ensure_jvalue_is_string
  check_message scalar message none = none
  check_message scalar message (some (fail e)) = some (fail e)
  check_message scalar none (some (done a)) =
      some (fail (ErrorObjectError.scalar_must_contain_field scalar message_field_name))
  check_message scalar (some message) (some (done a)) =
      some (ensure_jvalue_is_string scalar (fields.as_str message) message_field_name)

  unfoldable pub check_fields :
      J → (String → Option J) → Option J → Option (Result (ErrorObjectError J) (Unit {0}))
  unfolding check_message ensure_error_code_correct
  check_fields scalar found none =
      some (fail (ErrorObjectError.scalar_must_contain_field scalar error_code_field_name))
  check_fields scalar found (some error_code) =
      check_message scalar (found message_field_name)
        (ensure_error_code_correct scalar (fields.as_number error_code) error_code_field_name)

  unfoldable pub check_error_object : J → Option (Result (ErrorObjectError J) (Unit {0}))
  unfolding check_fields
  check_error_object scalar = elim (fields.as_object scalar) [
    | none ↦ some (fail (ErrorObjectError.scalar_must_be_object scalar))
    | some found ↦ check_fields scalar found (found error_code_field_name)
  ]
