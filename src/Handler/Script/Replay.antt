-- ===== src/Handler/Script/Replay.antt =====
-- Runs of scripts over recorded data.
use aquavm.Prelude.{
  ◌||◌, ◌+◌, ◌*◌, ◌<◌, ◌≡◌, refl, arith, List, [], Bool, true, false, length, append-nil,
  length-append, u32_mod, ok,
}
use aquavm.Data.{CallResult, CanonResult, generation_stub, ExecutedState, ExecutionTrace}
use aquavm.Slider.{new}
use aquavm.Slider.Reads.{new-Reads}
use aquavm.Keeper.{BiHashMap, keeper_from_trace}
use aquavm.Handler.{TraceHandler, handler_from_trace}
use aquavm.Handler.Script.{
  Script, Joined, layout, drive, SameShape, given, CallJoin, CanonJoin, stubbed,
}
use aquavm.Merger.Call.Join.{merge_call_results_self}
use aquavm.Handler.Script.Sources.{Source}
use aquavm.Handler.Script.Leaves.{merge_canon_results_self}
use aquavm.Handler.Script.Ran.{with_keeper}
use aquavm.Handler.Script.Parts.{replay}

-- The trace that a source holds is the record of the script, or empty.
given-Source :
    (b : Bool) (xs : List ExecutedState)
    → 2 * length xs < u32_mod
    → Source b (new (given b xs)) 0 xs []
given-Source true xs h =
    let n : length xs + 0 ≡ length xs = omega arith in
    record { reads = rw (n, append-nil xs) (new-Reads xs h); exhausted = λ e. refl }
given-Source false xs h = record { reads = new-Reads [] (omega arith); exhausted = λ e. refl }

module _ {B : Type 0} ⦃bimap : BiHashMap B⦄ where
  -- The script runs to its end, leaves the states `trace`, and no automaton behind.
  abbrev pub RunsTo : Script → TraceHandler B → ExecutionTrace → Type 0
  RunsTo p h trace =
      (h' : TraceHandler B) × (drive p h ≡ ok tt h')
      × (h'.data_keeper.result_trace ≡ trace)
      × (h'.fsm_keeper ≡ h.fsm_keeper)

  -- Take four scripts of one shape, made of calls, aps, canons, pars and sequences, which
  -- differ at the leaves only: a previous one, a current one, a fresh one and a joined one. Let
  -- the previous data be the record of the previous script, or be empty, and let the current
  -- data be the record of the current script, or be empty; both records have fewer than 2^31
  -- states. Let the joined script have at each call and canon the fresh result if both data are
  -- empty, that of the one record if one is, and else what the merge of the two results gives,
  -- which is to succeed; and at each ap the stub generation, whatever the data hold. Then
  -- driving the handler by the fresh script succeeds, without an error or a panic, and leaves
  -- the record of the joined script, and the automata as they were.
  pub replay-Joined :
      (b c : Bool) {p r f o : Script}
      → Joined b c p r f o
      → 2 * length (layout p) < u32_mod
      → 2 * length (layout r) < u32_mod
      → RunsTo f (handler_from_trace (given b (layout p)) (given c (layout r))) (layout o)
  unfolding handler_from_trace keeper_from_trace
  replay-Joined b c {p} {r} joined short_p short_r =
      let h : TraceHandler B = handler_from_trace (given b (layout p)) (given c (layout r)) in
      let (k, e, ran) =
        replay b c joined h 0 0 [] [] (given-Source b (layout p) short_p)
          (given-Source c (layout r) short_r) in
      (with_keeper k h, e, ran.result, refl)

-- A leaf whose record stands in some data.
call-same : (b c : Bool) (r f : CallResult) → (b || c) ≡ true → CallJoin b c r r f r
call-same true true r f e = merge_call_results_self r
call-same true false r f e = refl
call-same false true r f e = refl
call-same false false r f e = ground arith

canon-same : (b c : Bool) (r f : CanonResult) → (b || c) ≡ true → CanonJoin b c r r f r
canon-same true true r f e = merge_canon_results_self r
canon-same true false r f e = refl
canon-same false true r f e = refl
canon-same false false r f e = ground arith

-- Where some data holds the record, the record is what the run is to leave.
recorded-Joined :
    (b c : Bool) {p q : Script}
    → SameShape p q
    → (b || c) ≡ true
    → Joined b c (stubbed p) (stubbed p) q (stubbed p)
recorded-Joined b c (SameShape.calls r f) e = Joined.calls r r f r (call-same b c r f e)
recorded-Joined b c (SameShape.aps r f) e = Joined.aps generation_stub generation_stub f
recorded-Joined b c (SameShape.canons r f) e = Joined.canons r r f r (canon-same b c r f e)
recorded-Joined b c (SameShape.pars p q p' q' s t) e =
    Joined.pars _ _ _ _ _ _ _ _ (recorded-Joined b c s e) (recorded-Joined b c t e)
recorded-Joined b c (SameShape.seqs p q p' q' s t) e =
    Joined.seqs _ _ _ _ _ _ _ _ (recorded-Joined b c s e) (recorded-Joined b c t e)

-- Where no data holds a record, it is what the leaves give themselves.
fresh-Joined : (p : Script) → Joined false false p p p (stubbed p)
fresh-Joined (Script.call r) = Joined.calls r r r r refl
fresh-Joined (Script.ap g) = Joined.aps g g g
fresh-Joined (Script.canon r) = Joined.canons r r r r refl
fresh-Joined (Script.par p q) = Joined.pars _ _ _ _ _ _ _ _ (fresh-Joined p) (fresh-Joined q)
fresh-Joined (Script.seq p q) = Joined.seqs _ _ _ _ _ _ _ _ (fresh-Joined p) (fresh-Joined q)

length-stubbed : (p : Script) → length (layout (stubbed p)) ≡ length (layout p)
length-stubbed (Script.call r) = refl
length-stubbed (Script.ap g) = refl
length-stubbed (Script.canon r) = refl
length-stubbed (Script.par p q) = omega (
  arith,
  length-append (layout (stubbed p)) (layout (stubbed q)),
  length-append (layout p) (layout q),
  length-stubbed p,
  length-stubbed q,
)
length-stubbed (Script.seq p q) = omega (
  arith,
  length-append (layout (stubbed p)) (layout (stubbed q)),
  length-append (layout p) (layout q),
  length-stubbed p,
  length-stubbed q,
)

module _ {B : Type 0} ⦃bimap : BiHashMap B⦄ where
  -- A script with fewer than 2^31 states that runs over no data leaves a trace, its record with
  -- the stub generation at each ap, and a script of the same shape reproduces that trace when
  -- it runs over it as previous data, as current data, and as both, whatever its leaves would
  -- give themselves.
  pub run_then_replay :
      {p q : Script}
      → SameShape p q
      → 2 * length (layout p) < u32_mod
      → RunsTo {B = B} p (handler_from_trace [] []) (layout (stubbed p))
        × RunsTo {B = B} q (handler_from_trace (layout (stubbed p)) []) (layout (stubbed p))
        × RunsTo {B = B} q (handler_from_trace [] (layout (stubbed p))) (layout (stubbed p))
        × RunsTo {B = B} q
            (handler_from_trace (layout (stubbed p)) (layout (stubbed p)))
            (layout (stubbed p))
  run_then_replay {p} same short =
      let kept : 2 * length (layout (stubbed p)) < u32_mod =
        omega (arith, length-stubbed p, short) in
      (
        replay-Joined false false (fresh-Joined p) short short,
        replay-Joined true false (recorded-Joined true false same refl) kept kept,
        replay-Joined false true (recorded-Joined false true same refl) kept kept,
        replay-Joined true true (recorded-Joined true true same refl) kept kept,
      )
