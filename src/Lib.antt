-- ===== src/Lib.antt =====
-- Verification of AquaVM, the interpreter of AIR scripts: its trace handler, its streams, its
-- variables with their scopes, and the instructions that hold other instructions.
--
-- A peer that runs an AIR script gets previous data, from its last run, and current data, from
-- another peer. Both hold a trace: the states of the calls, aps, canons, pars and folds of a run.
-- The trace handler (crates/air-lib/trace-handler) walks both traces while the instructions run,
-- merges the states that they hold for an instruction, and builds the trace of the new run. A
-- stream (air/src/execution_step/value_types/stream) collects values from previous data, from
-- current data, and new ones, and numbers their generations in the trace at the end.
--
-- The interpreter (air/src/execution_step) walks the tree of instructions. The values of its
-- scalars stand in sparse matrices with a row for each name and a cell for each scope; fold, next
-- and new open and close scopes. Streams and stream maps are found by name and by the position in
-- the script. An instruction returns Ok or an error; a catchable error can be caught by xor.
--
-- The files, with the sources under crates/air-lib unless said otherwise:
-- Prelude: tests and lists over native numbers, u32 arithmetic, association lists for `HashMap`,
--   and `Exec`, code that changes a state and returns `Ok`, returns `Err` with what was written
--   before, or panics.
-- Data, Data/Eq: interpreter-data/src/{executed_state, trace, trace_pos, generation_idx}.rs.
-- Slider: trace-handler/src/data_keeper/{trace_slider, merge_ctx, errors}.rs. A slider is a
--   position in a trace, and a window of `subtrace_len` states of which `seen_elements` were read.
--   Slider/Bounds has its invariant, Slider/Window and Slider/Reads what it has yet to yield.
-- Keeper: data_keeper/keeper.rs, both sliders, the maps of positions and the result trace.
-- Merger and its children: trace-handler/src/merger, a merge of the next states for each kind of
--   instruction. Merger/Call/Join and Merger/Canon/Join describe the merges of results,
--   Merger/Mapping the maps of positions, Merger/Lore the resolution of fold lore, with its lens
--   convolution in Merger/Lore/{Suffix, Rows, Back, Loop} and the resulting map in
--   Merger/Lore/Resolved.
-- Fsm and its children: trace-handler/src/state_automata. Fsm/Par is the automaton of a par
--   (Moves, Stages and Stuck show how it moves the sliders), Fsm/Fold that of a fold, with the
--   lore automata of its iterations (Ctor, Ctor/Reaches) and their queue (Queue, Queue/Drained).
-- Handler: trace-handler/src/{handler, errors}.rs and state_automata/fsm_queue.rs, the methods
--   that the instructions call. Handler/Script drives them as instructions do: a script is a tree
--   of calls, aps, canons, pars and sequences, a call or a canon takes the state that it meets,
--   or else its own, and an ap leaves the stub, as `maybe_update_trace` of
--   air/src/execution_step/instructions/ap.rs does; `Joined` relates the records in both data to
--   the record that the run is to leave. Its children follow the sliders through the leaves
--   (Sources, Leaves, Ran) and the pars (Pars, Turns) up to whole scripts (Parts, Replay).
-- Stream and its children: stream_definition.rs, values_matrix.rs (Matrix) and recursive_stream.rs
--   (Recursive) of air/src/execution_step/value_types/stream. Pushing, Adding, Compact and Yields
--   show what adding, compaction and the cursor of a fold do.
-- SparseMatrix, Scalars: scalar_variables/values_sparse_matrix.rs and scalar_variables.rs of
--   air/src/execution_step/execution_context. SparseMatrix/Rows and SparseMatrix/Scopes have the
--   invariant and what may happen within a scope, SparseMatrix/Ends and SparseMatrix/Restores what
--   the end of a scope gives back, SparseMatrix/Access the reads and writes; Scalars/Scopes,
--   Scalars/Opens, Scalars/News and Scalars/Rooms are about the three matrices together.
-- Streams, StreamMaps: streams_variables.rs with its directory and stream_maps_variables.rs of the
--   same place, air/src/execution_step/value_types/stream_map.rs, and the span of
--   air-parser/src/parser/span.rs. Streams/Restricted is about the scope of a `new`.
-- Values: air/src/execution_step/value_types/{scalar, iterable}.rs with their directories.
-- Errors, ErrorObject, Context: air/src/execution_step/errors, and the directory
--   execution_context/instruction_error: what an error object is, and what is remembered of
--   errors.
-- Interpreter: the syntax of air-parser/src/ast/instructions.rs, execution_context/context.rs, and
--   air/src/execution_step/instructions: Interpreter/Control has seq, par, xor, match, mismatch,
--   never and null, Interpreter/Folds fold over scalars and next, Interpreter/News new,
--   Interpreter/StreamFolds folds over streams and stream maps, with what they leave in
--   StreamFolds/Settles, and Interpreter/Execute the choice of the instruction by its kind. Fails
--   has the failures with `:error:` and `%last_error%`, and how a caught error is thrown again.
--   Scoped, Closed and Safe follow the scopes through the instructions, Laws (with Xor) has the
--   outcomes of single ones, and Cursor, Loops and Visits a fold as a loop.
-- Examples: inputs at which the theorems apply.
--
-- The release profile (Cargo.toml) keeps overflow checks on and debug assertions off, and the
-- target is wasm32, on which `usize` has 32 bits. So sums, differences and indices out of range
-- panic, `panic` is a result of its own, and a conversion between `usize` and u32 is an identity.
-- `Reads` asks for traces of fewer than 2^31 states, which is more than the memory of the target
-- holds. The loops are by structural recursion; `collect`, of Slider/Window, counts the calls of
-- `next_state` that it makes.
--
-- A CID and a peer id are strings. The `BiHashMap` of the crate bimap is the parameter `BiHashMap`
-- of Keeper, with the laws of its documentation; Keeper/Table is an instance. The type of a
-- stream's values is a parameter with a trace position, `TracePosOperate`. `NonEmptyVec` of the
-- crate non_empty_vec has `pop` with the two laws of its documentation; SparseMatrix/Popping is an
-- instance. JSON values are a parameter: `Json` is what the code asks of them, `ErrorFields` what
-- an error object is made of, `ErrorObjects` and `KeyValues` build the objects of errors and of
-- the entries of stream maps. `Host` stands for the instructions that hold no other one, for the
-- values that match compares, for the iterables of lambdas and canonicalized streams, and for the
-- printing of instructions, by which errors name them. A `HashMap` with string keys is a function.
--
-- The fuel of `execute` bounds the depth of the calls, and running out of it is a panic, as
-- running out of the stack is; each `next` of a fold goes two calls deeper. It also bounds the
-- rounds of a fold over a stream, which in the source goes on while its body adds values.
--
-- Not modelled: the parser and its validator, the instructions behind `Host` (call, ap, canon, and
-- fail but for `:error:` and `%last_error%`), lambdas, canonicalized streams and maps, the
-- compaction of all streams at the end of a run, CID stores and signatures, serialization and
-- display, and the hosts of the interpreter.
pub mod Prelude
pub mod Data
pub mod Slider
pub mod Keeper
pub mod Merger
pub mod Fsm
pub mod Handler
pub mod Stream
pub mod SparseMatrix
pub mod Scalars
pub mod Streams
pub mod Values
pub mod ErrorObject
pub mod Errors
pub mod Context
pub mod StreamMaps
pub mod Interpreter
pub mod Examples
