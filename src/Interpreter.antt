-- ===== src/Interpreter.antt =====
-- air/src/execution_step/instructions/mod.rs, crates/air-lib/air-parser/src/ast/instructions.rs and
-- execution_context/context.rs: the syntax of instructions and the state that they execute in.
pub mod Control
pub mod Folds
pub mod News
pub mod StreamFolds
pub mod Execute
pub mod Fails
pub mod Scoped
pub mod Closed
pub mod Safe
pub mod Laws
pub mod Cursor
pub mod Loops
pub mod Visits
use aquavm.Prelude.{
  ℕ, String, Option, none, some, Bool, true, false, Result, done, fail, Run, Exec, ok, err, panic,
  zoom, map_err, modify,
}
use aquavm.SparseMatrix.{ScalarsError}
use aquavm.Handler.{TraceHandler, TraceHandlerError}
use aquavm.Scalars.{Scalars}
use aquavm.Streams.{Streams, Span, AirPos}
use aquavm.StreamMaps.{StreamMaps}
use aquavm.Values.{ValueAggregate, IterableValue}
use aquavm.Errors.{ExecutionError, Uncatchable, from_scalars_error}
use aquavm.Context.{
  LastErrorDescriptor, ErrorDescriptor, ErrorObjects, try_to_set_last_error_from_exec_error,
  try_to_set_error_from_exec_error, disable_error_setting,
}

-- Names stand for scalars, streams and iterators. `Foreign` holds the syntax of what has no
-- instruction in it: call, ap, canon and fail; pairs of values that are
-- compared; iterables that are neither a scalar nor an empty array.
pub data NewArgument : Type 0 where
  stream : String → NewArgument
  stream_map : String → NewArgument
  scalar : String → NewArgument
  canon_stream : String → NewArgument
  canon_stream_map : String → NewArgument

pub data FoldScalarIterable (Foreign : Type 0) : Type 0 where
  scalar : String → FoldScalarIterable Foreign
  empty_array : FoldScalarIterable Foreign
  other : Foreign → FoldScalarIterable Foreign

mutual
  pub data Instruction (Foreign : Type 0) : Type 0 where
    foreign : Foreign → Instruction Foreign
    seq : Instruction Foreign → Instruction Foreign → Instruction Foreign
    par : Instruction Foreign → Instruction Foreign → Instruction Foreign
    xor : Instruction Foreign → Instruction Foreign → Instruction Foreign
    match_ : Foreign → Instruction Foreign → Instruction Foreign
    mismatch : Foreign → Instruction Foreign → Instruction Foreign
    fold_scalar :
        FoldScalarIterable Foreign
        → String
        → Instruction Foreign
        → LastInstruction Foreign
        → Instruction Foreign
    fold_stream :
        String
        → AirPos
        → String
        → Instruction Foreign
        → LastInstruction Foreign
        → Instruction Foreign
    fold_stream_map :
        String
        → AirPos
        → String
        → Instruction Foreign
        → LastInstruction Foreign
        → Instruction Foreign
    never : Instruction Foreign
    new : NewArgument → Instruction Foreign → Span → Instruction Foreign
    next : String → Instruction Foreign
    null : Instruction Foreign

  -- `Option<Rc<Instruction>>`
  pub data LastInstruction (Foreign : Type 0) : Type 0 where
    no_last : LastInstruction Foreign
    last : Instruction Foreign → LastInstruction Foreign

pub data IterableType : Type 0 where
  scalar : IterableType
  stream : ℕ → IterableType

pub record FoldState (J Foreign : Type 0) : Type 0 where
  pub iterable : IterableValue J
  pub iterable_type : IterableType
  pub back_iteration_started : Bool
  pub instr_head : Instruction Foreign
  pub last_instr_head : LastInstruction Foreign

unfoldable pub from_iterable :
    {J Foreign : Type 0}
    → IterableValue J
    → IterableType
    → Instruction Foreign
    → LastInstruction Foreign
    → FoldState J Foreign
from_iterable iterable iterable_type instr_head last_instr_head = record {
  iterable = iterable;
  iterable_type = iterable_type;
  back_iteration_started = false;
  instr_head = instr_head;
  last_instr_head = last_instr_head;
}

abbrev pub ContextScalars : (J C M Foreign : Type 0) → Type 0
ContextScalars J C M Foreign = Scalars (ValueAggregate J) C M (FoldState J Foreign)

-- `C` and `M` are the canonicalized streams and maps; `H` holds the fields that only instructions
-- without a body read: call requests and results, CIDs, signatures, next peers. Of the tracker of met
-- instructions only the count of the folds over streams is read by the others.
pub record ExecutionCtx (J C M H Foreign : Type 0) : Type 0 where
  pub scalars : ContextScalars J C M Foreign
  pub streams : Streams (ValueAggregate J)
  pub stream_maps : StreamMaps J
  pub current_peer_id : String
  pub last_error_descriptor : LastErrorDescriptor J
  pub error_descriptor : ErrorDescriptor J
  pub subgraph_completeness : Bool
  pub seen_stream_count : ℕ
  pub host : H

-- The two mutable references that every instruction is given.
pub record Machine (J C M H Foreign B : Type 0) : Type 0 where
  pub exec_ctx : ExecutionCtx J C M H Foreign
  pub trace_ctx : TraceHandler B

abbrev pub Execution : (J C M H Foreign B : Type 0) → Type 0 → Type 0
Execution J C M H Foreign B A = Exec (Machine J C M H Foreign B) (ExecutionError J) A

pub data FoldIterableScalar (J : Type 0) : Type 0 where
  empty : FoldIterableScalar J
  scalar_based : IterableValue J → FoldIterableScalar J

-- What stands behind the syntax of `Foreign`, and how an instruction prints.
pub record Host (J C M H Foreign B : Type 0) : Type 0 where
  pub execute_foreign : Foreign → Execution J C M H Foreign B (Unit {0})
  pub are_matchable_eq : Foreign → ExecutionCtx J C M H Foreign → Result (ExecutionError J) Bool
  pub create_iterable :
      Foreign → ExecutionCtx J C M H Foreign → Result (ExecutionError J) (FoldIterableScalar J)
  pub to_string : Instruction Foreign → String

module _ {J C M H Foreign B : Type 0} where
  abbrev pub set_ctx :
      ExecutionCtx J C M H Foreign → Machine J C M H Foreign B → Machine J C M H Foreign B
  set_ctx c m = record m { exec_ctx = c }

  abbrev pub set_scalars :
      ContextScalars J C M Foreign → Machine J C M H Foreign B → Machine J C M H Foreign B
  set_scalars s m = set_ctx (record m.exec_ctx { scalars = s }) m

  unfoldable pub set_subgraph_completeness :
      Bool → Machine J C M H Foreign B → Machine J C M H Foreign B
  set_subgraph_completeness b m = set_ctx (record m.exec_ctx { subgraph_completeness = b }) m

  unfoldable pub make_subgraph_incomplete : Machine J C M H Foreign B → Machine J C M H Foreign B
  unfolding set_subgraph_completeness
  make_subgraph_incomplete = set_subgraph_completeness false

  unfoldable pub flush_subgraph_completeness : Machine J C M H Foreign B → Machine J C M H Foreign B
  unfolding set_subgraph_completeness
  flush_subgraph_completeness = set_subgraph_completeness true

  unfoldable pub is_subgraph_complete : Machine J C M H Foreign B → Bool
  is_subgraph_complete m = (m.exec_ctx).subgraph_completeness

  abbrev pub set_last_error :
      LastErrorDescriptor J → Machine J C M H Foreign B → Machine J C M H Foreign B
  set_last_error d m = set_ctx (record m.exec_ctx { last_error_descriptor = d }) m

  abbrev pub set_error : ErrorDescriptor J → Machine J C M H Foreign B → Machine J C M H Foreign B
  set_error d m = set_ctx (record m.exec_ctx { error_descriptor = d }) m

  -- A method of the scalars, whose errors become those of the instruction.
  abbrev pub on_scalars :
      {A : Type 0}
      → Exec (ContextScalars J C M Foreign) ScalarsError A
      → Execution J C M H Foreign B A
  on_scalars r =
      map_err from_scalars_error (zoom (λ m. (m.exec_ctx).scalars) (λ s m. set_scalars s m) r)

  -- `trace_to_exec_err!(trace_ctx.…, instruction)?`
  abbrev pub on_trace :
      {A : Type 0}
      → String
      → Exec (TraceHandler B) TraceHandlerError A
      → Execution J C M H Foreign B A
  on_trace instruction r =
      map_err (λ e. ExecutionError.uncatchable (Uncatchable.trace_error e instruction))
        (zoom (λ m. m.trace_ctx) (λ t m. record m { trace_ctx = t }) r)

module _ {J C M H Foreign B : Type 0} ⦃objects : ErrorObjects J⦄ where
  -- `set_errors` without a tetraplet, of an instruction that logs no peer.
  unfoldable pub set_errors :
      ExecutionError J → String → Machine J C M H Foreign B → Machine J C M H Foreign B
  unfolding try_to_set_last_error_from_exec_error try_to_set_error_from_exec_error
      disable_error_setting
  set_errors error instruction m =
      let c = m.exec_ctx in
      set_error
        (disable_error_setting
          (try_to_set_error_from_exec_error error instruction none none c.error_descriptor))
        (set_last_error
          (try_to_set_last_error_from_exec_error error instruction (some c.current_peer_id) none
            c.last_error_descriptor)
          m)
