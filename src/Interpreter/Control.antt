-- ===== src/Interpreter/Control.antt =====
-- air/src/execution_step/instructions/{seq, par, xor, match_, mismatch, never, null}.rs and
-- par/completeness_updater.rs. `run` is the execution of an instruction that stands inside.
use aquavm.Prelude.{
  String, Bool, true, false, ◌||◌, if◌then◌else◌, Result, done, fail, Run, ok, err, panic, ◌>>=◌,
  ◌>>◌, pure, modify,
}
use aquavm.Fsm.Par.{SubgraphType}
use aquavm.Handler.{meet_par_start, meet_par_subgraph_end}
use aquavm.Keeper.{BiHashMap}
use aquavm.Errors.{ExecutionError, CatchableError, is_joinable}
use aquavm.Context.{
  ErrorObjects, meet_xor_right_branch, meet_par_successed_end, set_original_execution_error,
  enable_error_setting, clear_error_object_if_needed,
}
use aquavm.Interpreter.{
  Instruction, Machine, Execution, Host, set_last_error, set_error, set_subgraph_completeness,
  make_subgraph_incomplete, flush_subgraph_completeness, is_subgraph_complete, on_trace,
}

pub record ParCompletenessUpdater : Type 0 where
  pub left_subgraph_complete : Bool
  pub right_subgraph_complete : Bool

unfoldable pub new_updater : ParCompletenessUpdater
new_updater = record { left_subgraph_complete = false; right_subgraph_complete = false }

unfoldable pub observe_completeness :
    Bool → SubgraphType → ParCompletenessUpdater → ParCompletenessUpdater
observe_completeness complete SubgraphType.left u = record u { left_subgraph_complete = complete }
observe_completeness complete SubgraphType.right u = record u { right_subgraph_complete = complete }

pub data SubgraphResult (J : Type 0) : Type 0 where
  succeeded : SubgraphResult J
  failed : ExecutionError J → SubgraphResult J

unfoldable pub determine_subgraph_complete : {Foreign : Type 0} → Instruction Foreign → Bool
determine_subgraph_complete (Instruction.next iterator) = false
determine_subgraph_complete instruction = true

module _ {J C M H Foreign B : Type 0}
    (run : Instruction Foreign → Execution J C M H Foreign B (Unit {0})) where
  unfoldable pub execute_seq :
      Instruction Foreign → Instruction Foreign → Execution J C M H Foreign B (Unit {0})
  unfolding flush_subgraph_completeness is_subgraph_complete
  execute_seq left right = do
    modify flush_subgraph_completeness
    run left
    λ m. if is_subgraph_complete m then run right m else ok tt m

module _ {J C M H Foreign B : Type 0} where
  unfoldable pub execute_null : Execution J C M H Foreign B (Unit {0})
  execute_null = pure tt

  unfoldable pub execute_never : Execution J C M H Foreign B (Unit {0})
  unfolding make_subgraph_incomplete
  execute_never = modify make_subgraph_incomplete

  -- `joinable!`: a variable that is not there yet makes the subgraph incomplete, and `Ok` is
  -- returned; what follows is the continuation.
  unfoldable pub joinable :
      {A : Type 0}
      → Result (ExecutionError J) A
      → (A → Execution J C M H Foreign B (Unit {0}))
      → Execution J C M H Foreign B (Unit {0})
  unfolding is_joinable make_subgraph_incomplete
  joinable (done a) f m = f a m
  joinable (fail e) f m = if is_joinable e then ok tt (make_subgraph_incomplete m) else err e m

module _ {J C M H Foreign B : Type 0} ⦃host : Host J C M H Foreign B⦄
    (run : Instruction Foreign → Execution J C M H Foreign B (Unit {0})) where
  unfoldable pub execute_match :
      Foreign → Instruction Foreign → Execution J C M H Foreign B (Unit {0})
  unfolding joinable
  execute_match values instruction m =
      joinable (host.are_matchable_eq values m.exec_ctx)
        (λ are_values_equal m.
          if are_values_equal
          then run instruction m
          else err (ExecutionError.catchable CatchableError.match_values_not_equal) m)
        m

  unfoldable pub execute_mismatch :
      Foreign → Instruction Foreign → Execution J C M H Foreign B (Unit {0})
  unfolding joinable
  execute_mismatch values instruction m =
      joinable (host.are_matchable_eq values m.exec_ctx)
        (λ are_values_equal m.
          if are_values_equal
          then err (ExecutionError.catchable CatchableError.mismatch_values_equal) m
          else run instruction m)
        m

module _ {J C M H Foreign B : Type 0} ⦃objects : ErrorObjects J⦄ where
  -- The settings of `:error:` after the right branch.
  unfoldable pub after_right :
      Run (Machine J C M H Foreign B) (ExecutionError J) (Unit {0})
      → Run (Machine J C M H Foreign B) (ExecutionError J) (Unit {0})
  unfolding clear_error_object_if_needed enable_error_setting
  after_right (ok a m) = ok a (
      set_error (enable_error_setting (clear_error_object_if_needed (m.exec_ctx).error_descriptor))
        m)
  after_right (err e m) =
      err e (set_error (clear_error_object_if_needed (m.exec_ctx).error_descriptor) m)
  after_right panic = panic

  -- What is set before the right branch, for a caught error.
  unfoldable pub before_right :
      CatchableError J → Machine J C M H Foreign B → Machine J C M H Foreign B
  unfolding flush_subgraph_completeness meet_xor_right_branch set_original_execution_error
      enable_error_setting
  before_right e m =
      let flushed = flush_subgraph_completeness m in
      let c = flushed.exec_ctx in
      set_error
        (enable_error_setting
          (set_original_execution_error (ExecutionError.catchable e) c.error_descriptor))
        (set_last_error (meet_xor_right_branch c.last_error_descriptor) flushed)

module _ {J C M H Foreign B : Type 0} ⦃objects : ErrorObjects J⦄
    (run : Instruction Foreign → Execution J C M H Foreign B (Unit {0})) where
  unfoldable pub catch_left :
      Instruction Foreign
      → Run (Machine J C M H Foreign B) (ExecutionError J) (Unit {0})
      → Run (Machine J C M H Foreign B) (ExecutionError J) (Unit {0})
  unfolding after_right before_right
  catch_left right (err (ExecutionError.catchable e) m) = after_right (run right (before_right e m))
  catch_left right (err (ExecutionError.uncatchable e) m) = err (ExecutionError.uncatchable e) m
  catch_left right (ok a m) = ok a m
  catch_left right panic = panic

  unfoldable pub execute_xor :
      Instruction Foreign → Instruction Foreign → Execution J C M H Foreign B (Unit {0})
  unfolding catch_left flush_subgraph_completeness
  execute_xor left right m = catch_left right (run left (flush_subgraph_completeness m))

module _ {J C M H Foreign B : Type 0} where
  -- `completeness_updater.set_completeness(exec_ctx)`
  unfoldable pub set_completeness :
      ParCompletenessUpdater → Machine J C M H Foreign B → Machine J C M H Foreign B
  unfolding set_subgraph_completeness
  set_completeness u =
      set_subgraph_completeness (u.left_subgraph_complete || u.right_subgraph_complete)

  abbrev pub par_success : Machine J C M H Foreign B → Machine J C M H Foreign B
  unfolding meet_par_successed_end
  par_success m = set_last_error (meet_par_successed_end (m.exec_ctx).last_error_descriptor) m

  unfoldable pub prepare_par_result :
      SubgraphResult J → SubgraphResult J → Execution J C M H Foreign B (Unit {0})
  unfolding par_success
  prepare_par_result SubgraphResult.succeeded right m = ok tt (par_success m)
  prepare_par_result (SubgraphResult.failed e) SubgraphResult.succeeded m = ok tt (par_success m)
  prepare_par_result (SubgraphResult.failed e) (SubgraphResult.failed error) m = err error m

  -- The arms of the match on what a subgraph returns; `instruction` is the printed par.
  unfoldable pub subgraph_end :
      String
      → SubgraphType
      → ParCompletenessUpdater
      → Run (Machine J C M H Foreign B) (ExecutionError J) (Unit {0})
      → Run
          (Machine J C M H Foreign B)
          (ExecutionError J)
          (SubgraphResult J × ParCompletenessUpdater)
  unfolding make_subgraph_incomplete observe_completeness is_subgraph_complete
  subgraph_end instruction side updater (ok a m) =
      (do
        on_trace instruction (meet_par_subgraph_end side)
        λ m.
            ok
              (SubgraphResult.succeeded, observe_completeness (is_subgraph_complete m) side updater)
              m)
        m
  subgraph_end instruction side updater (err (ExecutionError.catchable e) m) =
      (do
        on_trace instruction (meet_par_subgraph_end side)
        λ m.
            ok
              (
                SubgraphResult.failed (ExecutionError.catchable e),
                observe_completeness (is_subgraph_complete m) side updater,
              )
              m)
        (make_subgraph_incomplete m)
  subgraph_end instruction side updater (err (ExecutionError.uncatchable e) m) =
      err (ExecutionError.uncatchable e) (make_subgraph_incomplete m)
  subgraph_end instruction side updater panic = panic

module _ {J C M H Foreign B : Type 0} ⦃bimap : BiHashMap B⦄
    (run : Instruction Foreign → Execution J C M H Foreign B (Unit {0})) where
  unfoldable pub execute_subgraph :
      String
      → Instruction Foreign
      → SubgraphType
      → ParCompletenessUpdater
      → Execution J C M H Foreign B (SubgraphResult J × ParCompletenessUpdater)
  unfolding subgraph_end set_subgraph_completeness determine_subgraph_complete
  execute_subgraph instruction subgraph side updater m =
      subgraph_end instruction side updater
        (run subgraph (set_subgraph_completeness (determine_subgraph_complete subgraph) m))

  unfoldable pub execute_par :
      String → Instruction Foreign → Instruction Foreign → Execution J C M H Foreign B (Unit {0})
  unfolding execute_subgraph set_completeness prepare_par_result new_updater
  execute_par instruction left right = do
    on_trace instruction meet_par_start
    left_end ← execute_subgraph instruction left SubgraphType.left new_updater
    right_end ← execute_subgraph instruction right SubgraphType.right left_end.1
    modify (set_completeness right_end.1)
    prepare_par_result left_end.0 right_end.0
