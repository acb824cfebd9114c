-- ===== src/Interpreter/Scoped.antt =====
-- air/src/execution_step/instructions: what the execution of an instruction leaves of the scopes.
use aquavm.Prelude.{
  String, inl, inr, Bool, true, false, Result, done, fail, Run, Exec, ok, err, panic, continue,
  zoom, map_err, if◌then◌else◌, Run-cases,
}
use aquavm.Handler.{TraceHandler, TraceHandlerError, meet_par_start, meet_par_subgraph_end}
use aquavm.Keeper.{BiHashMap}
use aquavm.Scalars.Scopes.{
  AreScoped, AreWithin, AreWithin-refl, AreWithin-trans, AreWithin-AreScoped,
}
use aquavm.Errors.{ExecutionError, is_joinable, catchable_is_joinable}
use aquavm.Interpreter.{
  Instruction, ContextScalars, Machine, Execution, Host, on_trace, set_subgraph_completeness,
  make_subgraph_incomplete, flush_subgraph_completeness, is_subgraph_complete,
}
use aquavm.Fsm.Par.{SubgraphType}
use aquavm.Context.{ErrorObjects}
use aquavm.Interpreter.Control.{
  ParCompletenessUpdater, SubgraphResult, new_updater, determine_subgraph_complete, execute_seq,
  execute_par, execute_xor, execute_match, execute_mismatch, joinable, after_right, before_right,
  catch_left, set_completeness, prepare_par_result, subgraph_end, execute_subgraph,
}

module _ {J C M H Foreign B : Type 0} where
  abbrev pub scalars_of : Machine J C M H Foreign B → ContextScalars J C M Foreign
  scalars_of m = (m.exec_ctx).scalars

  -- Unless a run aborts, or stops with an error that nobody catches, it leaves the scopes of the
  -- scalars as they were.
  abbrev pub Keeps :
      {A : Type 0}
      → ContextScalars J C M Foreign
      → Run (Machine J C M H Foreign B) (ExecutionError J) A
      → Type 0
  Keeps before (ok a m) = AreWithin before (scalars_of m)
  Keeps before (err (ExecutionError.catchable e) m) = AreWithin before (scalars_of m)
  Keeps before (err (ExecutionError.uncatchable e) m) = Unit
  Keeps before panic = Unit

  pub Keeps-within :
      {A : Type 0} (a b : ContextScalars J C M Foreign)
      → AreWithin a b
      → (r : Run (Machine J C M H Foreign B) (ExecutionError J) A) → Keeps b r
      → Keeps a r
  Keeps-within a b w (ok x m) k = AreWithin-trans a b (scalars_of m) w k
  Keeps-within a b w (err (ExecutionError.catchable e) m) k = AreWithin-trans a b (scalars_of m) w k
  Keeps-within a b w (err (ExecutionError.uncatchable e) m) k = tt
  Keeps-within a b w panic k = tt

  pub Keeps-continue :
      {A D : Type 0} (s : ContextScalars J C M Foreign)
      → AreScoped s
      → (r : Run (Machine J C M H Foreign B) (ExecutionError J) A) → Keeps s r
      → (f : A → Execution J C M H Foreign B D)
      → ((a : A)
          → (m : Machine J C M H Foreign B) → AreScoped (scalars_of m)
          → Keeps (scalars_of m) (f a m))
      → Keeps s (continue r f)
  Keeps-continue s h (ok x m) k f next =
      Keeps-within s (scalars_of m) k (f x m) (next x m (AreWithin-AreScoped s (scalars_of m) k h))
  Keeps-continue s h (err (ExecutionError.catchable e) m) k f next = k
  Keeps-continue s h (err (ExecutionError.uncatchable e) m) k f next = tt
  Keeps-continue s h panic k f next = tt

  pub Keeps-if :
      {A : Type 0} (s : ContextScalars J C M Foreign) (b : Bool)
      (x y : Run (Machine J C M H Foreign B) (ExecutionError J) A)
      → Keeps s x
      → Keeps s y
      → Keeps s (if b then x else y)
  Keeps-if s true x y kx ky = kx
  Keeps-if s false x y kx ky = ky

  pub Keeps-err :
      (A : Type 0) (s : ContextScalars J C M Foreign) (e : ExecutionError J)
      (m : Machine J C M H Foreign B)
      → AreWithin s (scalars_of m)
      → Keeps {A = A} s (err e m)
  Keeps-err A s (ExecutionError.catchable e) m w = w
  Keeps-err A s (ExecutionError.uncatchable e) m w = tt

  -- Calls of the trace handler touch no scalar.
  pub Keeps-on_trace :
      {A : Type 0} (instruction : String) (r : Exec (TraceHandler B) TraceHandlerError A)
      (m : Machine J C M H Foreign B)
      → Keeps (scalars_of m) (on_trace instruction r m)
  Keeps-on_trace instruction r m = elim (Run-cases (r m.trace_ctx)) [
    | inl p ↦ rw (zoom, map_err, p) tt
    | inr (inl (a, t, p)) ↦ rw (zoom, map_err, p) (AreWithin-refl (scalars_of m))
    | inr (inr (e, t, p)) ↦ rw (zoom, map_err, p) tt
  ]

  -- What `execute` does with the instructions inside.
  abbrev pub RunKeeps : (Instruction Foreign → Execution J C M H Foreign B (Unit {0})) → Type 0
  RunKeeps run =
      (i : Instruction Foreign)
      → (m : Machine J C M H Foreign B) → AreScoped (scalars_of m)
      → Keeps (scalars_of m) (run i m)

module _ {J C M H Foreign B : Type 0}
    (run : Instruction Foreign → Execution J C M H Foreign B (Unit {0}))
    (keeps : RunKeeps run) where
  pub seq-Keeps :
      (left right : Instruction Foreign) (m : Machine J C M H Foreign B)
      → AreScoped (scalars_of m)
      → Keeps (scalars_of m) (execute_seq run left right m)
  unfolding execute_seq flush_subgraph_completeness set_subgraph_completeness
  seq-Keeps left right m h =
      Keeps-continue (scalars_of m) h (run left (flush_subgraph_completeness m))
        (keeps left (flush_subgraph_completeness m) h)
        (λ a n. if is_subgraph_complete n then run right n else ok tt n)
        (λ a n g.
          Keeps-if (scalars_of n) (is_subgraph_complete n) (run right n) (ok tt n) (keeps right n g)
            (AreWithin-refl (scalars_of n)))

  after_right-Keeps :
      ⦃objects : ErrorObjects J⦄
      → (s : ContextScalars J C M Foreign)
        (r : Run (Machine J C M H Foreign B) (ExecutionError J) (Unit {0}))
      → Keeps s r
      → Keeps s (after_right r)
  unfolding after_right
  after_right-Keeps s (ok a m) k = k
  after_right-Keeps s (err (ExecutionError.catchable e) m) k = k
  after_right-Keeps s (err (ExecutionError.uncatchable e) m) k = tt
  after_right-Keeps s panic k = tt

  catch_left-Keeps :
      ⦃objects : ErrorObjects J⦄
      → (right : Instruction Foreign)
      → (s : ContextScalars J C M Foreign)
        (r : Run (Machine J C M H Foreign B) (ExecutionError J) (Unit {0}))
      → AreScoped s
      → Keeps s r
      → Keeps s (catch_left run right r)
  unfolding catch_left before_right flush_subgraph_completeness set_subgraph_completeness
  catch_left-Keeps right s (err (ExecutionError.catchable e) m) h k =
      after_right-Keeps s (run right (before_right e m)) (
        Keeps-within s (scalars_of m) k (run right (before_right e m))
          (keeps right (before_right e m) (AreWithin-AreScoped s (scalars_of m) k h)))
  catch_left-Keeps right s (err (ExecutionError.uncatchable e) m) h k = tt
  catch_left-Keeps right s (ok a m) h k = k
  catch_left-Keeps right s panic h k = tt

  pub xor-Keeps :
      ⦃objects : ErrorObjects J⦄
      → (left right : Instruction Foreign) (m : Machine J C M H Foreign B)
      → AreScoped (scalars_of m)
      → Keeps (scalars_of m) (execute_xor run left right m)
  unfolding execute_xor flush_subgraph_completeness set_subgraph_completeness
  xor-Keeps left right m h =
      catch_left-Keeps right (scalars_of m) (run left (flush_subgraph_completeness m)) h
        (keeps left (flush_subgraph_completeness m) h)

  pub joinable-Keeps :
      {A : Type 0} (r : Result (ExecutionError J) A)
      (f : A → Execution J C M H Foreign B (Unit {0})) (m : Machine J C M H Foreign B)
      → ((a : A) → Keeps (scalars_of m) (f a m))
      → Keeps (scalars_of m) (joinable r f m)
  unfolding joinable make_subgraph_incomplete set_subgraph_completeness is_joinable
  joinable-Keeps (done a) f m k = k a
  joinable-Keeps (fail (ExecutionError.catchable e)) f m k =
      Keeps-if (scalars_of m) (catchable_is_joinable e) _ _ (AreWithin-refl (scalars_of m))
        (AreWithin-refl (scalars_of m))
  joinable-Keeps (fail (ExecutionError.uncatchable e)) f m k = tt

  pub match-Keeps :
      ⦃host : Host J C M H Foreign B⦄
      → (values : Foreign) (i : Instruction Foreign) (m : Machine J C M H Foreign B)
      → AreScoped (scalars_of m)
      → Keeps (scalars_of m) (execute_match run values i m)
  unfolding execute_match
  match-Keeps ⦃host = host⦄ values i m h =
      joinable-Keeps (host.are_matchable_eq values m.exec_ctx) _ m
        (λ equal. Keeps-if (scalars_of m) equal _ _ (keeps i m h) (AreWithin-refl (scalars_of m)))

  pub mismatch-Keeps :
      ⦃host : Host J C M H Foreign B⦄
      → (values : Foreign) (i : Instruction Foreign) (m : Machine J C M H Foreign B)
      → AreScoped (scalars_of m)
      → Keeps (scalars_of m) (execute_mismatch run values i m)
  unfolding execute_mismatch
  mismatch-Keeps ⦃host = host⦄ values i m h =
      joinable-Keeps (host.are_matchable_eq values m.exec_ctx) _ m
        (λ equal. Keeps-if (scalars_of m) equal _ _ (AreWithin-refl (scalars_of m)) (keeps i m h))

  subgraph_end-Keeps :
      (instruction : String) (side : SubgraphType) (u : ParCompletenessUpdater)
      (s : ContextScalars J C M Foreign)
      (r : Run (Machine J C M H Foreign B) (ExecutionError J) (Unit {0}))
      → AreScoped s
      → Keeps s r
      → Keeps s (subgraph_end instruction side u r)
  unfolding subgraph_end make_subgraph_incomplete set_subgraph_completeness
  subgraph_end-Keeps instruction side u s (ok a m) h k =
      Keeps-continue s h _
        (Keeps-within s (scalars_of m) k _
          (Keeps-on_trace instruction (meet_par_subgraph_end side) m))
        _ (λ x n g. AreWithin-refl (scalars_of n))
  subgraph_end-Keeps instruction side u s (err (ExecutionError.catchable e) m) h k =
      Keeps-continue s h _
        (Keeps-within s (scalars_of m) k _
          (Keeps-on_trace instruction (meet_par_subgraph_end side) (make_subgraph_incomplete m)))
        _ (λ x n g. AreWithin-refl (scalars_of n))
  subgraph_end-Keeps instruction side u s (err (ExecutionError.uncatchable e) m) h k = tt
  subgraph_end-Keeps instruction side u s panic h k = tt

  prepare_par_result-Keeps :
      (left right : SubgraphResult J) (m : Machine J C M H Foreign B)
      → Keeps (scalars_of m) (prepare_par_result left right m)
  unfolding prepare_par_result
  prepare_par_result-Keeps SubgraphResult.succeeded right m = AreWithin-refl (scalars_of m)
  prepare_par_result-Keeps (SubgraphResult.failed e) SubgraphResult.succeeded m =
      AreWithin-refl (scalars_of m)
  prepare_par_result-Keeps (SubgraphResult.failed e)
        (SubgraphResult.failed (ExecutionError.catchable f)) m =
      AreWithin-refl (scalars_of m)
  prepare_par_result-Keeps (SubgraphResult.failed e)
        (SubgraphResult.failed (ExecutionError.uncatchable f)) m =
      tt

  subgraph-Keeps :
      ⦃bimap : BiHashMap B⦄
      → (instruction : String) (i : Instruction Foreign) (side : SubgraphType)
        (u : ParCompletenessUpdater) (m : Machine J C M H Foreign B)
      → AreScoped (scalars_of m)
      → Keeps (scalars_of m) (execute_subgraph run instruction i side u m)
  unfolding execute_subgraph set_subgraph_completeness
  subgraph-Keeps instruction i side u m h =
      subgraph_end-Keeps instruction side u (scalars_of m) _ h
        (keeps i (set_subgraph_completeness (determine_subgraph_complete i) m) h)

  pub par-Keeps :
      ⦃bimap : BiHashMap B⦄
      → (instruction : String) (left right : Instruction Foreign) (m : Machine J C M H Foreign B)
      → AreScoped (scalars_of m)
      → Keeps (scalars_of m) (execute_par run instruction left right m)
  unfolding execute_par set_completeness set_subgraph_completeness
  par-Keeps instruction left right m h =
      Keeps-continue (scalars_of m) h _ (Keeps-on_trace instruction meet_par_start m) _ (λ a n g.
        Keeps-continue (scalars_of n) g _
          (subgraph-Keeps instruction left SubgraphType.left new_updater n g) _
          (λ left_end p k.
            Keeps-continue (scalars_of p) k _
              (subgraph-Keeps instruction right SubgraphType.right left_end.1 p k) _
              (λ right_end q l.
                prepare_par_result-Keeps left_end.0 right_end.0 (set_completeness right_end.1 q))))
