-- ===== src/Context.antt =====
-- air/src/execution_step/execution_context/context.rs and its instruction_error directory: the
-- state that instructions execute in, and what it remembers of the last error.
use aquavm.Prelude.{String, Bool, true, false, Option, none, some, ◌&&◌, if◌then◌else◌}
use aquavm.Errors.{ExecutionError, CatchableError, affects_last_error, affects_error}
use aquavm.Values.{SecurityTetraplet, Provenance}

pub record InstructionError (J : Type 0) : Type 0 where
  pub error : J
  pub tetraplet : Option SecurityTetraplet
  pub provenance : Provenance
  pub orig_catchable : Option (CatchableError J)

-- The error objects are JSON: `no_error_object`, and the object of an error's code and message,
-- of an instruction and of a peer, if there is one.
pub record ErrorObjects (J : Type 0) : Type 0 where
  pub no_error_object : J
  pub error_object : ExecutionError J → String → Option String → J

pub record LastErrorDescriptor (J : Type 0) : Type 0 where
  pub error : InstructionError J
  pub error_can_be_set : Bool

pub record ErrorDescriptor (J : Type 0) : Type 0 where
  pub error : InstructionError J
  pub error_can_be_set : Bool

module _ {J : Type 0} where
  unfoldable pub get_instruction_error_from_error_object :
      J → Option SecurityTetraplet → Provenance → InstructionError J
  get_instruction_error_from_error_object error tetraplet provenance = record {
    error = error;
    tetraplet = tetraplet;
    provenance = provenance;
    orig_catchable = none;
  }

  unfoldable pub set_from_error_object :
      J → Option SecurityTetraplet → Provenance → LastErrorDescriptor J → LastErrorDescriptor J
  unfolding get_instruction_error_from_error_object
  set_from_error_object error tetraplet provenance d = record {
    error = get_instruction_error_from_error_object error tetraplet provenance;
    error_can_be_set = false;
  }

  -- `meet_xor_right_branch` and `meet_par_successed_end` do the same.
  unfoldable pub meet_xor_right_branch : LastErrorDescriptor J → LastErrorDescriptor J
  meet_xor_right_branch d = record d { error_can_be_set = true }

  unfoldable pub meet_par_successed_end : LastErrorDescriptor J → LastErrorDescriptor J
  meet_par_successed_end d = record d { error_can_be_set = true }

  unfoldable pub set_original_execution_error :
      ExecutionError J → ErrorDescriptor J → ErrorDescriptor J
  set_original_execution_error (ExecutionError.catchable e) d = record d {
    error = record d.error { orig_catchable = some e };
  }
  set_original_execution_error (ExecutionError.uncatchable e) d = record d {
    error = record d.error { orig_catchable = none };
  }

  unfoldable pub enable_error_setting : ErrorDescriptor J → ErrorDescriptor J
  enable_error_setting d = record d { error_can_be_set = true }

  unfoldable pub disable_error_setting : ErrorDescriptor J → ErrorDescriptor J
  disable_error_setting d = record d { error_can_be_set = false }

module _ {J : Type 0} ⦃objects : ErrorObjects J⦄ where
  unfoldable pub no_error : InstructionError J
  no_error = record {
    error = objects.no_error_object;
    tetraplet = none;
    provenance = Provenance.literal;
    orig_catchable = none;
  }

  unfoldable pub last_error_default : LastErrorDescriptor J
  unfolding no_error
  last_error_default = record { error = no_error; error_can_be_set = true }

  unfoldable pub error_default : ErrorDescriptor J
  unfolding no_error
  error_default = record { error = no_error; error_can_be_set = true }

  unfoldable pub get_instruction_error_from_exec_error :
      ExecutionError J → String → Option String → Option SecurityTetraplet → InstructionError J
  unfolding get_instruction_error_from_error_object
  get_instruction_error_from_exec_error error instruction peer_id tetraplet =
      get_instruction_error_from_error_object (objects.error_object error instruction peer_id)
        tetraplet Provenance.literal

  unfoldable pub try_to_set_last_error_from_exec_error :
      ExecutionError J
      → String
      → Option String
      → Option SecurityTetraplet
      → LastErrorDescriptor J
      → LastErrorDescriptor J
  unfolding affects_last_error get_instruction_error_from_exec_error
  try_to_set_last_error_from_exec_error error instruction peer_id tetraplet d =
      if d.error_can_be_set && affects_last_error error
      then record {
        error = get_instruction_error_from_exec_error error instruction peer_id tetraplet;
        error_can_be_set = false;
      }
      else d

  unfoldable pub try_to_set_error_from_exec_error :
      ExecutionError J
      → String
      → Option String
      → Option SecurityTetraplet
      → ErrorDescriptor J
      → ErrorDescriptor J
  unfolding affects_error get_instruction_error_from_exec_error
  try_to_set_error_from_exec_error error instruction peer_id tetraplet d =
      if d.error_can_be_set && affects_error error
      then record d {
        error = get_instruction_error_from_exec_error error instruction peer_id tetraplet;
      }
      else d

  unfoldable pub clear_error_object_if_needed : ErrorDescriptor J → ErrorDescriptor J
  unfolding no_error
  clear_error_object_if_needed d = if d.error_can_be_set then record d { error = no_error } else d
