-- ===== src/Handler/Script/Leaves.antt =====
-- The leaves of a script: how the merges of the next states move the keeper.
use aquavm.Prelude.{
  sym, ℕ, ◌<◌, ◌≡◌, refl, ap, ◌∙◌, arith, List, [], ◌∷◌, Bool, true, false, length, Run, ok, done,
  inl, inr,
}
use aquavm.Data.{CallResult, CanonResult, GenerationIdx, ExecutedState}
use aquavm.Keeper.{BiHashMap, DataKeeper, prev_slider, current_slider}
use aquavm.Merger.{MergeError, PreparationScheme, source_of}
use aquavm.Merger.Mapping.{
  Consumed, KeepsTraces, mapped, prepare_positions_mapping-mapped, mapped-KeepsTraces,
}
use aquavm.Merger.Call.{
  MergerCallResult, try_merge_next_state_as_call, match_call, prepare_call_result,
}
use aquavm.Merger.Ap.{MergerApResult, try_merge_next_state_as_ap, match_ap, prepare_merge_result}
use aquavm.Merger.Canon.{
  MergerCanonResult, try_merge_next_state_as_canon, match_canon, merge_canon_results,
}
use aquavm.Merger.Canon.Join.{merge_canon_results-cases, no-Clash}
use aquavm.Handler.Script.{CallJoin, CanonJoin, call_outcome, canon_outcome}
use aquavm.Handler.Script.Sources.{Source, offered, next_state-offered, both_stepped, next_states}

-- A merge of the next states that succeeds, and moves the sliders by one step each.
abbrev pub Merges :
    {B A : Type 0}
    → Bool
    → Bool
    → DataKeeper B
    → (A → Type 0)
    → Run (DataKeeper B) MergeError A
    → Type 0
Merges {B} {A} b c k P run =
    (m : A) × (k' : DataKeeper B) × (run ≡ ok m k') × KeepsTraces (both_stepped b c k) k' × P m

Consumed-both :
    {B : Type 0} (scheme : PreparationScheme) (k : DataKeeper B)
    → 0 < (prev_slider k).position
    → 0 < (current_slider k).position
    → Consumed scheme k
Consumed-both PreparationScheme.previous k p c = p
Consumed-both PreparationScheme.current k p c = c
Consumed-both PreparationScheme.both k p c = (p, c)

module _ {B : Type 0} ⦃bimap : BiHashMap B⦄ where
  prepare_call_result-met :
      (r : CallResult) (scheme : PreparationScheme) (k : DataKeeper B)
      → Consumed scheme k
      → prepare_call_result r scheme k
        ≡ ok (MergerCallResult.met r (length k.result_trace) (source_of scheme)) (mapped scheme k)
  unfolding prepare_call_result
  prepare_call_result-met r scheme k h = rw (prepare_positions_mapping-mapped scheme k h)

  match_call-Merges :
      (b c : Bool) (p r f o : CallResult) (k : DataKeeper B)
      → CallJoin b c p r f o
      → Merges b c k
          (λ m. call_outcome f m ≡ o)
          (match_call
            (offered b (ExecutedState.call p))
            (offered c (ExecutedState.call r))
            (both_stepped b c k))
  unfolding match_call
  match_call-Merges true true p r f o k (scheme, e) =
      let k' : DataKeeper B = both_stepped true true k in
      (
        MergerCallResult.met o (length k.result_trace) (source_of scheme),
        mapped scheme k',
        rw e (
            prepare_call_result-met o scheme k'
              (Consumed-both scheme k' (omega arith) (omega arith))),
        mapped-KeepsTraces scheme k',
        refl,
      )
  match_call-Merges true false p r f o k j =
      let k' : DataKeeper B = both_stepped true false k in
      (
        _,
        _,
        prepare_call_result-met p PreparationScheme.previous k' (omega arith),
        mapped-KeepsTraces PreparationScheme.previous k',
        sym j,
      )
  match_call-Merges false true p r f o k j =
      let k' : DataKeeper B = both_stepped false true k in
      (
        _,
        _,
        prepare_call_result-met r PreparationScheme.current k' (omega arith),
        mapped-KeepsTraces PreparationScheme.current k',
        sym j,
      )
  match_call-Merges false false p r f o k j =
      (_, _, refl, record { prev_ctx = refl; current_ctx = refl; result_trace = refl }, sym j)

  prepare_merge_result-met :
      (g : GenerationIdx) (scheme : PreparationScheme) (k : DataKeeper B)
      → Consumed scheme k
      → prepare_merge_result (record { res_generations = g ∷ [] }) scheme k
        ≡ ok (MergerApResult.met g (source_of scheme)) (mapped scheme k)
  unfolding prepare_merge_result
  prepare_merge_result-met g scheme k h = rw (prepare_positions_mapping-mapped scheme k h)

  match_ap-Merges :
      (b c : Bool) (p r : GenerationIdx) (k : DataKeeper B)
      → Merges b c k
          (λ m. Unit)
          (match_ap
            (offered b (ExecutedState.ap (record { res_generations = p ∷ [] })))
            (offered c (ExecutedState.ap (record { res_generations = r ∷ [] })))
            (both_stepped b c k))
  unfolding match_ap
  match_ap-Merges true true p r k =
      let k' : DataKeeper B = both_stepped true true k in
      (
        _,
        _,
        prepare_merge_result-met p PreparationScheme.both k' (omega arith, omega arith),
        mapped-KeepsTraces PreparationScheme.both k',
        tt,
      )
  match_ap-Merges true false p r k =
      let k' : DataKeeper B = both_stepped true false k in
      (
        _,
        _,
        prepare_merge_result-met p PreparationScheme.previous k' (omega arith),
        mapped-KeepsTraces PreparationScheme.previous k',
        tt,
      )
  match_ap-Merges false true p r k =
      let k' : DataKeeper B = both_stepped false true k in
      (
        _,
        _,
        prepare_merge_result-met r PreparationScheme.current k' (omega arith),
        mapped-KeepsTraces PreparationScheme.current k',
        tt,
      )
  match_ap-Merges false false p r k =
      (_, _, refl, record { prev_ctx = refl; current_ctx = refl; result_trace = refl }, tt)

pub merge_canon_results_self : (r : CanonResult) → merge_canon_results r r ≡ done r
merge_canon_results_self r = elim (merge_canon_results-cases r r) [
  | inl (clash, _) ↦ absurd (no-Clash r clash)
  | inr (_, c, e, inl p, _, _) ↦ e ∙ ap done p
  | inr (_, c, e, inr p, _, _) ↦ e ∙ ap done p
]

match_canon-Merges :
    {B : Type 0} (b c : Bool) (p r f o : CanonResult) (k : DataKeeper B)
    → CanonJoin b c p r f o
    → Merges b c k
        (λ m. canon_outcome f m ≡ o)
        (match_canon
          (offered b (ExecutedState.canon p))
          (offered c (ExecutedState.canon r))
          (both_stepped b c k))
unfolding match_canon
match_canon-Merges true true p r f o k j = (
  MergerCanonResult.canon_result o,
  both_stepped true true k,
  rw j,
  record { prev_ctx = refl; current_ctx = refl; result_trace = refl },
  refl,
)
match_canon-Merges true false p r f o k j =
    (_, _, refl, record { prev_ctx = refl; current_ctx = refl; result_trace = refl }, sym j)
match_canon-Merges false true p r f o k j =
    (_, _, refl, record { prev_ctx = refl; current_ctx = refl; result_trace = refl }, sym j)
match_canon-Merges false false p r f o k j =
    (_, _, refl, record { prev_ctx = refl; current_ctx = refl; result_trace = refl }, sym j)

-- The three merges of leaves, from the sources of both sliders.
module _ {B : Type 0} ⦃bimap : BiHashMap B⦄ (b c : Bool) (k : DataKeeper B) (mp mc : ℕ)
    (rp rc : List ExecutedState) where
  pub call_leaf :
      (p r f o : CallResult)
      → CallJoin b c p r f o
      → Source b (prev_slider k) mp (ExecutedState.call p ∷ []) rp
      → Source c (current_slider k) mc (ExecutedState.call r ∷ []) rc
      → Merges b c k (λ m. call_outcome f m ≡ o) (try_merge_next_state_as_call k)
  unfolding try_merge_next_state_as_call
  call_leaf p r f o j vp vc =
      rw
        (next_states b c (ExecutedState.call p) (ExecutedState.call r) k match_call
          (next_state-offered b (prev_slider k) mp _ [] rp vp).0
          (next_state-offered c (current_slider k) mc _ [] rc vc).0)
        (match_call-Merges b c p r f o k j)

  pub ap_leaf :
      (p r : GenerationIdx)
      → Source b (prev_slider k) mp (ExecutedState.ap (record { res_generations = p ∷ [] }) ∷ []) rp
      → Source c
          (current_slider k)
          mc
          (ExecutedState.ap (record { res_generations = r ∷ [] }) ∷ [])
          rc
      → Merges b c k (λ m. Unit) (try_merge_next_state_as_ap k)
  unfolding try_merge_next_state_as_ap
  ap_leaf p r vp vc =
      rw
        (next_states b c (ExecutedState.ap (record { res_generations = p ∷ [] }))
          (ExecutedState.ap (record { res_generations = r ∷ [] })) k match_ap
          (next_state-offered b (prev_slider k) mp _ [] rp vp).0
          (next_state-offered c (current_slider k) mc _ [] rc vc).0)
        (match_ap-Merges b c p r k)

  pub canon_leaf :
      (p r f o : CanonResult)
      → CanonJoin b c p r f o
      → Source b (prev_slider k) mp (ExecutedState.canon p ∷ []) rp
      → Source c (current_slider k) mc (ExecutedState.canon r ∷ []) rc
      → Merges b c k (λ m. canon_outcome f m ≡ o) (try_merge_next_state_as_canon k)
  unfolding try_merge_next_state_as_canon
  canon_leaf p r f o j vp vc =
      rw
        (next_states b c (ExecutedState.canon p) (ExecutedState.canon r) k match_canon
          (next_state-offered b (prev_slider k) mp _ [] rp vp).0
          (next_state-offered c (current_slider k) mc _ [] rc vc).0)
        (match_canon-Merges b c p r f o k j)
