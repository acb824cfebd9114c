-- ===== src/Handler/Script.antt =====
-- Sequences of handler calls in the order that the README of the trace handler requires, as
-- scripts: a call and a canon meet their recorded state, if there is one, and take their own if not;
-- an ap leaves the stub, whatever it meets, as `maybe_update_trace` of
-- air/src/execution_step/instructions/ap.rs does.
pub mod Sources
pub mod Leaves
pub mod Pars
pub mod Ran
pub mod Turns
pub mod Parts
pub mod Replay
use aquavm.Prelude.{
  done, ◌≡◌, ℕ, ◌++◌, List, [], ◌∷◌, Bool, true, false, ◌||◌, length, Run, Exec, ok, err, panic,
  ◌>>=◌, ◌>>◌,
}
use aquavm.Data.{
  CallResult, CanonResult, GenerationIdx, ExecutedState, ExecutionTrace, par_state, generation_stub,
  ap_stub,
}
use aquavm.Keeper.{BiHashMap}
use aquavm.Merger.{PreparationScheme}
use aquavm.Merger.Call.{MergerCallResult, merge_call_results}
use aquavm.Merger.Call
use aquavm.Merger.Canon.{MergerCanonResult, merge_canon_results}
use aquavm.Merger.Canon
use aquavm.Fsm.Par.{SubgraphType}
use aquavm.Handler.{
  TraceHandler, TraceHandlerError, meet_call_start, meet_call_end, meet_ap_start, meet_ap_end,
  meet_canon_start, meet_canon_end, meet_par_start, meet_par_subgraph_end,
}

-- What an execution does with the trace: a call or a canon with the result that it has if none is
-- met, an ap with the generation that its record has.
pub data Script : Type 0 where
  call : CallResult → Script
  ap : GenerationIdx → Script
  canon : CanonResult → Script
  par : Script → Script → Script
  seq : Script → Script → Script

-- The states of an execution, a par with the sizes of its subgraphs before them.
abbrev pub layout : Script → List ExecutedState
layout (Script.call r) = ExecutedState.call r ∷ []
layout (Script.ap g) = ExecutedState.ap (record { res_generations = g ∷ [] }) ∷ []
layout (Script.canon r) = ExecutedState.canon r ∷ []
layout (Script.par p q) = par_state (length (layout p)) (length (layout q)) ∷ (layout p ++ layout q)
layout (Script.seq p q) = layout p ++ layout q

abbrev pub call_outcome : CallResult → MergerCallResult → CallResult
call_outcome fresh Call.not_met = fresh
call_outcome fresh (Call.met r pos source) = r

abbrev pub canon_outcome : CanonResult → MergerCanonResult → CanonResult
canon_outcome fresh Canon.empty = fresh
canon_outcome fresh (Canon.canon_result r) = r

module _ {B : Type 0} ⦃bimap : BiHashMap B⦄ where
  unfoldable pub drive : Script → Exec (TraceHandler B) TraceHandlerError (Unit {0})
  drive (Script.call fresh) = do met ← meet_call_start; meet_call_end (call_outcome fresh met)
  drive (Script.ap g) = do met ← meet_ap_start; meet_ap_end ap_stub
  drive (Script.canon fresh) = do met ← meet_canon_start; meet_canon_end (canon_outcome fresh met)
  drive (Script.par p q) = do
    meet_par_start
    drive p
    meet_par_subgraph_end SubgraphType.left
    drive q
    meet_par_subgraph_end SubgraphType.right
  drive (Script.seq p q) = do drive p; drive q

-- What a leaf of the new run has, if the previous data, if `b`, holds `p`, the current data, if `c`,
-- holds `r`, and the leaf would give itself `fresh`.
abbrev pub CallJoin : Bool → Bool → CallResult → CallResult → CallResult → CallResult → Type 0
CallJoin true true p r fresh o =
    (scheme : PreparationScheme) × (merge_call_results p r ≡ done (o, scheme))
CallJoin true false p r fresh o = o ≡ p
CallJoin false true p r fresh o = o ≡ r
CallJoin false false p r fresh o = o ≡ fresh

abbrev pub CanonJoin : Bool → Bool → CanonResult → CanonResult → CanonResult → CanonResult → Type 0
CanonJoin true true p r fresh o = merge_canon_results p r ≡ done o
CanonJoin true false p r fresh o = o ≡ p
CanonJoin false true p r fresh o = o ≡ r
CanonJoin false false p r fresh o = o ≡ fresh

-- Four executions of one program, which differ only in the results at the leaves: that of the
-- previous data, that of the current data, a fresh one, and what the run is to leave.
pub data Joined (b c : Bool) : Script → Script → Script → Script → Type 0 where
  calls :
      (p r f o : CallResult)
      → CallJoin b c p r f o
      → Joined b c (Script.call p) (Script.call r) (Script.call f) (Script.call o)
  aps :
      (p r f : GenerationIdx)
      → Joined b c (Script.ap p) (Script.ap r) (Script.ap f) (Script.ap generation_stub)
  canons :
      (p r f o : CanonResult)
      → CanonJoin b c p r f o
      → Joined b c (Script.canon p) (Script.canon r) (Script.canon f) (Script.canon o)
  pars :
      (p r f o p' r' f' o' : Script)
      → Joined b c p r f o
      → Joined b c p' r' f' o'
      → Joined b c (Script.par p p') (Script.par r r') (Script.par f f') (Script.par o o')
  seqs :
      (p r f o p' r' f' o' : Script)
      → Joined b c p r f o
      → Joined b c p' r' f' o'
      → Joined b c (Script.seq p p') (Script.seq r r') (Script.seq f f') (Script.seq o o')

-- Two executions of one program: they differ only in the results at the leaves.
pub data SameShape : Script → Script → Type 0 where
  calls : (r f : CallResult) → SameShape (Script.call r) (Script.call f)
  aps : (g f : GenerationIdx) → SameShape (Script.ap g) (Script.ap f)
  canons : (r f : CanonResult) → SameShape (Script.canon r) (Script.canon f)
  pars :
      (p q p' q' : Script)
      → SameShape p p'
      → SameShape q q'
      → SameShape (Script.par p q) (Script.par p' q')
  seqs :
      (p q p' q' : Script)
      → SameShape p p'
      → SameShape q q'
      → SameShape (Script.seq p q) (Script.seq p' q')

-- The script as a run records it: the generations are numbered by the compaction only.
abbrev pub stubbed : Script → Script
stubbed (Script.call r) = Script.call r
stubbed (Script.ap g) = Script.ap generation_stub
stubbed (Script.canon r) = Script.canon r
stubbed (Script.par p q) = Script.par (stubbed p) (stubbed q)
stubbed (Script.seq p q) = Script.seq (stubbed p) (stubbed q)

-- The states of a source that holds the record, or none.
abbrev pub given : Bool → List ExecutedState → List ExecutedState
given true xs = xs
given false xs = []
