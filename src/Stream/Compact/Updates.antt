-- ===== src/Stream/Compact/Updates.antt =====
-- Updates of the generations of many states, one after the other.
use aquavm.Prelude.{
  ℕ, zero, suc, ◌<◌, ◌≡◌, ◌≢◌, refl, ap, sym, ◌∙◌, arith, some, List, [], ◌∷◌, ◌++◌, length,
  length-set, get_elem?, get_elem?-some_bound, set, Run, Exec, ok, err, panic, ◌>>◌, map_err, pure,
  continue,
}
use aquavm.Data.{
  Cid, ApResult, CallResult, ValueRef, TracePos, GenerationIdx, ExecutedState, ExecutionTrace,
}
use aquavm.Handler.{TraceHandler, regenerated, update_generation}
use aquavm.Stream.{UncatchableError, TracePosOperate}

module _ {ℓ} {A : Type ℓ} where
  get_elem?-set_here :
      (xs : List A) (i : ℕ) (v : A) → i < length xs → get_elem? (set xs i v) i ≡ some v
  get_elem?-set_here [] i v h = absurd (omega arith)
  get_elem?-set_here (x ∷ xs) zero v h = refl
  get_elem?-set_here (x ∷ xs) (suc i) v h = get_elem?-set_here xs i v (omega arith)

  get_elem?-set_elsewhere :
      (xs : List A) (i j : ℕ) (v : A) → j ≢ i → get_elem? (set xs i v) j ≡ get_elem? xs j
  get_elem?-set_elsewhere [] i j v d = refl
  get_elem?-set_elsewhere (x ∷ xs) zero zero v d = absurd (d refl)
  get_elem?-set_elsewhere (x ∷ xs) zero (suc j) v d = refl
  get_elem?-set_elsewhere (x ∷ xs) (suc i) zero v d = refl
  get_elem?-set_elsewhere (x ∷ xs) (suc i) (suc j) v d =
      get_elem?-set_elsewhere xs i j v (λ e. d (ap suc e))

-- The second state is the first but for its generation, which is `g`.
pub data Relabels (g : GenerationIdx) : ExecutedState → ExecutedState → Type 0 where
  of_ap :
      (old : List GenerationIdx)
      → Relabels g
          (ExecutedState.ap (record { res_generations = old }))
          (ExecutedState.ap (record { res_generations = g ∷ [] }))
  of_call :
      (cid : Cid) (old : GenerationIdx)
      → Relabels g
          (ExecutedState.call (CallResult.executed (ValueRef.stream cid old)))
          (ExecutedState.call (CallResult.executed (ValueRef.stream cid g)))

-- A state that has a generation.
pub data HasGeneration : ExecutedState → Type 0 where
  of_ap : (r : ApResult) → HasGeneration (ExecutedState.ap r)
  of_call :
      (cid : Cid) (g : GenerationIdx)
      → HasGeneration (ExecutedState.call (CallResult.executed (ValueRef.stream cid g)))

regenerated-Relabels :
    (g : GenerationIdx) (state : ExecutedState)
    → HasGeneration state
    → (state' : ExecutedState) × (regenerated g state ≡ some state') × Relabels g state state'
unfolding regenerated
regenerated-Relabels g _ (HasGeneration.of_ap r) = (_, refl, Relabels.of_ap r.res_generations)
regenerated-Relabels g _ (HasGeneration.of_call cid old) = (_, refl, Relabels.of_call cid old)

abbrev pub PointsToGeneration : ExecutionTrace → TracePos → Type 0
PointsToGeneration t pos =
    (state : ExecutedState) × (get_elem? t pos ≡ some state) × HasGeneration state

-- The state at the position is the old one but for its generation.
abbrev pub Regenerated : ExecutionTrace → ExecutionTrace → TracePos → GenerationIdx → Type 0
Regenerated t t' pos g =
    (state state' : ExecutedState) × (get_elem? t pos ≡ some state)
    × Relabels g state state'
    × (get_elem? t' pos ≡ some state')

abbrev pub with_result : {B : Type 0} → ExecutionTrace → TraceHandler B → TraceHandler B
with_result t h = record h { data_keeper = record h.data_keeper { result_trace = t } }

abbrev pub values_of : {T : Type 0} → List (T × GenerationIdx) → List T
values_of [] = []
values_of ((v, g) ∷ ps) = v ∷ values_of ps

module _ {T : Type 0} ⦃place : TracePosOperate T⦄ where
  abbrev pub AllPoint : ExecutionTrace → List T → Type 0
  AllPoint t [] = Unit {0}
  AllPoint t (v ∷ vs) = PointsToGeneration t (place.get_trace_pos v) × AllPoint t vs

  -- No value of the list stands at the position.
  abbrev pub Apart : TracePos → List T → Type 0
  Apart pos [] = Unit {0}
  Apart pos (v ∷ vs) = (place.get_trace_pos v ≢ pos) × Apart pos vs

  abbrev pub AreDistinct : List T → Type 0
  AreDistinct [] = Unit {0}
  AreDistinct (v ∷ vs) = Apart (place.get_trace_pos v) vs × AreDistinct vs

  abbrev pub AllRegenerated : ExecutionTrace → ExecutionTrace → List (T × GenerationIdx) → Type 0
  AllRegenerated t t' [] = Unit {0}
  AllRegenerated t t' ((v, g) ∷ ps) =
      Regenerated t t' (place.get_trace_pos v) g × AllRegenerated t t' ps

  AllPoint-set :
      (t : ExecutionTrace) (pos : TracePos) (state : ExecutedState) (vs : List T)
      → Apart pos vs
      → AllPoint t vs
      → AllPoint (set t pos state) vs
  AllPoint-set t pos state [] d h = tt
  AllPoint-set t pos state (v ∷ vs) (dv, d) ((st, e, r), h) = (
    (st, get_elem?-set_elsewhere t pos (place.get_trace_pos v) state dv ∙ e, r),
    AllPoint-set t pos state vs d h,
  )

  AllRegenerated-set :
      (t t' : ExecutionTrace) (pos : TracePos) (state : ExecutedState)
      (ps : List (T × GenerationIdx))
      → Apart pos (values_of ps)
      → AllRegenerated (set t pos state) t' ps
      → AllRegenerated t t' ps
  AllRegenerated-set t t' pos state [] d h = tt
  AllRegenerated-set t t' pos state ((v, g) ∷ ps) (dv, d) ((st, st', e, r, e'), h) = (
    (st, st', sym (get_elem?-set_elsewhere t pos (place.get_trace_pos v) state dv) ∙ e, r, e'),
    AllRegenerated-set t t' pos state ps d h,
  )

  -- The trace after the updates: the values' states regenerated, the others as they were.
  pub record Updated (t t' : ExecutionTrace) (ps : List (T × GenerationIdx)) : Type 0 where
    pub all : AllRegenerated t t' ps
    pub others : (pos : TracePos) → Apart pos (values_of ps) → get_elem? t' pos ≡ get_elem? t pos
    pub same_length : length t' ≡ length t

  module _ {B : Type 0} where
    unfoldable pub updates :
        List (T × GenerationIdx) → Exec (TraceHandler B) UncatchableError (Unit {0})
    updates [] = pure tt
    updates ((v, g) ∷ ps) = do
      map_err UncatchableError.generation_compactification_error
          (update_generation (place.get_trace_pos v) g)
      updates ps

    pub updates-append :
        (ps qs : List (T × GenerationIdx)) (h : TraceHandler B)
        → updates (ps ++ qs) h ≡ (updates ps >> updates qs) h
    unfolding updates
    updates-append [] qs h = refl
    updates-append ((v, g) ∷ ps) qs h =
        after (λ h. updates-append ps qs h)
          (map_err UncatchableError.generation_compactification_error
            (update_generation (place.get_trace_pos v) g) h)
      where
        after :
            ((h : TraceHandler B) → updates (ps ++ qs) h ≡ (updates ps >> updates qs) h)
            → (r : Run (TraceHandler B) UncatchableError (Unit {0}))
            → continue r (λ _. updates (ps ++ qs))
              ≡ continue (continue r (λ _. updates ps)) (λ _. updates qs)
        after rest (ok a h') = rest h'
        after rest (err e h') = refl
        after rest panic = refl

    pub updates-Updated :
        (ps : List (T × GenerationIdx)) (h : TraceHandler B)
        → AllPoint h.data_keeper.result_trace (values_of ps)
        → AreDistinct (values_of ps)
        → (t' : ExecutionTrace) × (updates ps h ≡ ok tt (with_result t' h))
          × Updated h.data_keeper.result_trace t' ps
    unfolding updates update_generation
    updates-Updated [] h points distinct = (
      h.data_keeper.result_trace,
      refl,
      record { all = tt; others = λ pos d. refl; same_length = refl },
    )
    updates-Updated ((v, g) ∷ ps) h ((st, e, has), points) (apart, distinct) =
        let t = h.data_keeper.result_trace in
        let pos = place.get_trace_pos v in
        let (st', r, relabels) = regenerated-Relabels g st has in
        let t1 = set t pos st' in
        let (t', run, u) =
          updates-Updated ps (with_result t1 h) (AllPoint-set t pos st' (values_of ps) apart points)
            distinct in
        (
          t',
          rw (e, map_err) (rw (r, map_err) run),
          record {
            all = (
              (
                st,
                st',
                e,
                relabels,
                u.others pos apart ∙ get_elem?-set_here t pos st' (get_elem?-some_bound t pos e),
              ),
              AllRegenerated-set t t' pos st' ps apart u.all,
            );
            others =
                λ p (dp, d). u.others p d ∙ get_elem?-set_elsewhere t pos p st' (λ x. dp (sym x));
            same_length = u.same_length ∙ length-set t pos st';
          },
        )
