-- ===== src/Handler/Script/Ran.antt =====
-- What a part of an execution does to the keeper, and the leaves.
use aquavm.Prelude.{
  ℕ, ◌+◌, ◌≡◌, refl, ap, sym, subst, ◌∙◌, arith, List, [], ◌∷◌, ◌++◌, Bool, true, false, ok, zoom,
  map_err,
}
use aquavm.Data.{
  CallResult, CanonResult, GenerationIdx, ExecutedState, ExecutionTrace, generation_stub, ap_stub,
}
use aquavm.Slider.{TraceSlider, MergeCtx}
use aquavm.Slider.Reads.{Reads}
use aquavm.Keeper.{BiHashMap, DataKeeper, prev_slider, current_slider, push}
use aquavm.Merger.Mapping.{KeepsTraces}
use aquavm.Fsm.Par.{ParFsm}
use aquavm.Handler.{
  TraceHandler, meet_call_start, meet_call_end, meet_ap_start, meet_ap_end, meet_canon_start,
  meet_canon_end,
}
use aquavm.Handler.Script.{CallJoin, CanonJoin, Script, layout, drive}
use aquavm.Handler.Script.Sources.{Source, stepped, next_state-offered, both_stepped}
use aquavm.Handler.Script.Leaves.{call_leaf, ap_leaf, canon_leaf}

-- The keeper after a part of an execution: the new states are behind the old ones, and each slider
-- has what follows the part in its trace.
pub record Ran {B : Type 0} (k k' : DataKeeper B) (new : List ExecutedState) (mp mc : ℕ)
    (rp rc : List ExecutedState) : Type 0 where
  pub result : k'.result_trace ≡ k.result_trace ++ new
  pub prev_trace : (prev_slider k').trace ≡ (prev_slider k).trace
  pub current_trace : (current_slider k').trace ≡ (current_slider k).trace
  pub prev_reads : Reads (prev_slider k') mp rp
  pub current_reads : Reads (current_slider k') mc rc

abbrev pub with_keeper : {B : Type 0} → DataKeeper B → TraceHandler B → TraceHandler B
with_keeper k h = record h { data_keeper = k }

abbrev pub with_pars : {B : Type 0} → DataKeeper B → List ParFsm → TraceHandler B → TraceHandler B
with_pars k pars h = record h {
  data_keeper = k;
  fsm_keeper = record h.fsm_keeper { par_stack = pars };
}

pub stepped-trace : (b : Bool) (s : TraceSlider) → (stepped b s).trace ≡ s.trace
stepped-trace true s = refl
stepped-trace false s = refl

pub Source-Reads :
    (b : Bool) (s : TraceSlider) (m : ℕ) (rest : List ExecutedState)
    → Source b s m [] rest
    → Reads s m rest
Source-Reads true s m rest v = let e : 0 + m ≡ m = omega arith in rw e at v.reads
Source-Reads false s m rest v = let e : 0 + m ≡ m = omega arith in rw e at v.reads

module _ {B : Type 0} ⦃bimap : BiHashMap B⦄ where
  -- The script `f` runs where the sources offer `p` and `r`, to the end, and leaves `o`.
  abbrev pub Replays :
      Bool
      → Bool
      → Script
      → Script
      → Script
      → Script
      → TraceHandler B
      → ℕ
      → ℕ
      → List ExecutedState
      → List ExecutedState
      → Type 0
  Replays b c p r f o h mp mc rp rc =
      Source b (prev_slider h.data_keeper) mp (layout p) rp
      → Source c (current_slider h.data_keeper) mc (layout r) rc
      → (k' : DataKeeper B) × (drive f h ≡ ok tt (with_keeper k' h))
        × Ran h.data_keeper k' (layout o) mp mc rp rc

  leaf-Ran :
      (b c : Bool) (x y new : ExecutedState) (k k' : DataKeeper B) (mp mc : ℕ)
      (rp rc : List ExecutedState)
      → Source b (prev_slider k) mp (x ∷ []) rp
      → Source c (current_slider k) mc (y ∷ []) rc
      → KeepsTraces (both_stepped b c k) k'
      → Ran k (push new k') (new ∷ []) mp mc rp rc
  leaf-Ran b c x y new k k' mp mc rp rc vp vc keeps = record {
    result = ap (λ (t : ExecutionTrace). t ++ new ∷ []) keeps.result_trace;
    prev_trace =
        ap (λ (x : MergeCtx). x.slider.trace) keeps.prev_ctx ∙ stepped-trace b (prev_slider k);
    current_trace =
        ap (λ (x : MergeCtx). x.slider.trace) keeps.current_ctx
        ∙ stepped-trace c (current_slider k);
    prev_reads =
        subst (λ (x : MergeCtx). Reads x.slider mp rp) (sym keeps.prev_ctx)
          (Source-Reads b (stepped b (prev_slider k)) mp rp
            (next_state-offered b (prev_slider k) mp x [] rp vp).1);
    current_reads =
        subst (λ (x : MergeCtx). Reads x.slider mc rc) (sym keeps.current_ctx)
          (Source-Reads c (stepped c (current_slider k)) mc rc
            (next_state-offered c (current_slider k) mc y [] rc vc).1);
  }

  pub replay_call :
      (b c : Bool) (p r f o : CallResult) (h : TraceHandler B) (mp mc : ℕ)
      (rp rc : List ExecutedState)
      → CallJoin b c p r f o
      → Replays b c (Script.call p) (Script.call r) (Script.call f) (Script.call o) h mp mc rp rc
  unfolding drive meet_call_start meet_call_end
  replay_call b c p r f o h mp mc rp rc j vp vc =
      let (m, k', e, keeps, chosen) = call_leaf b c h.data_keeper mp mc rp rc p r f o j vp vc in
      let new : ExecutedState = ExecutedState.call o in
      (
        push new k',
        rw (e, zoom, map_err) (rw chosen),
        leaf-Ran b c (ExecutedState.call p) (ExecutedState.call r) new h.data_keeper k' mp mc rp rc
            vp vc keeps,
      )

  pub replay_ap :
      (b c : Bool) (p r f : GenerationIdx) (h : TraceHandler B) (mp mc : ℕ)
      (rp rc : List ExecutedState)
      → Replays b c
          (Script.ap p)
          (Script.ap r)
          (Script.ap f)
          (Script.ap generation_stub)
          h
          mp
          mc
          rp
          rc
  unfolding drive meet_ap_start meet_ap_end
  replay_ap b c p r f h mp mc rp rc vp vc =
      let (m, k', e, keeps, chosen) = ap_leaf b c h.data_keeper mp mc rp rc p r vp vc in
      let new : ExecutedState = ExecutedState.ap ap_stub in
      (
        push new k',
        rw (e, zoom, map_err),
        leaf-Ran b c (ExecutedState.ap (record { res_generations = p ∷ [] }))
            (ExecutedState.ap (record { res_generations = r ∷ [] })) new h.data_keeper k' mp mc rp
            rc vp vc keeps,
      )

  pub replay_canon :
      (b c : Bool) (p r f o : CanonResult) (h : TraceHandler B) (mp mc : ℕ)
      (rp rc : List ExecutedState)
      → CanonJoin b c p r f o
      → Replays b c
          (Script.canon p)
          (Script.canon r)
          (Script.canon f)
          (Script.canon o)
          h
          mp
          mc
          rp
          rc
  unfolding drive meet_canon_start meet_canon_end
  replay_canon b c p r f o h mp mc rp rc j vp vc =
      let (m, k', e, keeps, chosen) = canon_leaf b c h.data_keeper mp mc rp rc p r f o j vp vc in
      let new : ExecutedState = ExecutedState.canon o in
      (
        push new k',
        rw (e, zoom, map_err) (rw chosen),
        leaf-Ran b c (ExecutedState.canon p) (ExecutedState.canon r) new h.data_keeper k' mp mc rp
            rc vp vc keeps,
      )
