-- ===== src/Data.antt =====
-- crates/air-lib/interpreter-data: the states of an execution trace.
-- A `CID` and a peer id are strings; `TracePos`, `GenerationIdx` and lengths are u32 numbers. On
-- the wasm32 target of the interpreter `usize` is a u32 too, so the conversions are identities.
pub mod Eq
use aquavm.Prelude.{ℕ, String, Option, none, some, List, [], ◌∷◌, checked_add}

abbrev pub Cid : Type 0
Cid = String

abbrev pub TracePos : Type 0
TracePos = ℕ

abbrev pub GenerationIdx : Type 0
GenerationIdx = ℕ

abbrev pub TraceLen : Type 0
TraceLen = ℕ

pub record ParResult : Type 0 where
  pub left_size : ℕ
  pub right_size : ℕ

pub data Sender : Type 0 where
  peer_id : String → Sender
  peer_id_with_call_id : String → ℕ → Sender

pub data ValueRef : Type 0 where
  scalar : Cid → ValueRef
  stream : Cid → GenerationIdx → ValueRef
  unused : Cid → ValueRef

pub data CallResult : Type 0 where
  request_sent_by : Sender → CallResult
  executed : ValueRef → CallResult
  failed : Cid → CallResult

pub record SubTraceDesc : Type 0 where
  pub begin_pos : TracePos
  pub subtrace_len : ℕ

pub record FoldSubTraceLore : Type 0 where
  pub value_pos : TracePos
  pub subtraces_desc : List SubTraceDesc

abbrev pub FoldLore : Type 0
FoldLore = List FoldSubTraceLore

pub record FoldResult : Type 0 where
  pub lore : FoldLore

pub record ApResult : Type 0 where
  pub res_generations : List GenerationIdx

-- `GenerationIdx::stub`, 0xCAFEBABE: a generation that the compaction of the streams replaces.
abbrev pub generation_stub : GenerationIdx
generation_stub = 3405691582

abbrev pub ap_stub : ApResult
ap_stub = record { res_generations = generation_stub ∷ [] }

pub data CanonResult : Type 0 where
  request_sent_by : String → CanonResult
  executed : Cid → CanonResult

pub data ExecutedState : Type 0 where
  par : ParResult → ExecutedState
  call : CallResult → ExecutedState
  fold : FoldResult → ExecutedState
  ap : ApResult → ExecutedState
  canon : CanonResult → ExecutedState

abbrev pub ExecutionTrace : Type 0
ExecutionTrace = List ExecutedState

-- The size of the subtrace that a par describes, unless the sum leaves u32.
unfoldable pub size : ParResult → Option ℕ
size p = checked_add p.left_size p.right_size

-- The par with two empty subgraphs, `Default` of the source.
abbrev pub par_default : ParResult
par_default = record { left_size = 0; right_size = 0 }

unfoldable pub par_state : ℕ → ℕ → ExecutedState
par_state l r = ExecutedState.par (record { left_size = l; right_size = r })
