-- ===== src/Examples/Pars.antt =====
-- A par over recorded data, a par whose left subgraph was not read, and the lore of an iteration.
use aquavm.Prelude.{ℕ, ◌≡◌, refl, arith, [], ◌∷◌, ◌++◌, none, some, inl, inr, ok, false}
use aquavm.Data.{
  ParResult, CallResult, ValueRef, ExecutedState, ExecutionTrace, FoldLore, par_state,
}
use aquavm.Slider.{TraceSlider}
use aquavm.Slider.Reads.{windowed}
use aquavm.Keeper.{DataKeeper, prev_slider}
use aquavm.Keeper.Table.{Table, table}
use aquavm.Merger.Par.{MergerParResult}
use aquavm.Fsm.{StateFsmError}
use aquavm.Fsm.Par.{SubgraphType, ParFsm, from_left_started, left_completed, right_completed}
use aquavm.Fsm.Par.Moves.{Holds, CanReach}
use aquavm.Fsm.Par.Stages.{
  moved, started, tracked_at, from_left_started-runs, left_completed-runs, right_completed-runs,
}
use aquavm.Fsm.Par.Stuck.{left_completed-stuck}
use aquavm.Fsm.Fold.Ctor.{LoreCtor, before_start, maybe_before_end, into_subtrace_lore, finish_ctor}
use aquavm.Fsm.Fold.Ctor.Reaches.{Reaches, Tiles, Reaches-Tiles}
use aquavm.Fsm.Fold.Queue.{CtorQueue, finish, transform_to_lore}
use aquavm.Fsm.Fold.Queue.Drained.{LoreOf, transform_to_lore-finish}

abbrev call : ExecutedState
call = ExecutedState.call (CallResult.executed (ValueRef.scalar "cid"))

abbrev sizes : ParResult
sizes = record { left_size = 1; right_size = 1 }

abbrev slider : ℕ → ℕ → ℕ → TraceSlider
slider pos len seen = record {
  trace = ExecutedState.par sizes ∷ call ∷ call ∷ call ∷ [];
  position = pos;
  subtrace_len = len;
  seen_elements = seen;
}

abbrev keeper : TraceSlider → TraceSlider → ExecutionTrace → DataKeeper Table
keeper p c t = record {
  prev_ctx = record { slider = p };
  current_ctx = record { slider = c };
  new_to_prev_pos = table.empty;
  new_to_current_pos = table.empty;
  result_trace = t;
}

-- Behind the state of the par: two subgraphs of one state each, and one state after them.
abbrev entered : DataKeeper Table
entered = keeper (slider 1 4 1) (slider 1 4 1) []

entered-Holds : Holds (slider 1 4 1) sizes 1 (call ∷ call ∷ call ∷ [])
entered-Holds = record {
  inside = refl;
  here = refl;
  window = refl;
  fits = omega arith;
  short = omega arith;
}

abbrev ingredients : MergerParResult
ingredients = record { prev_par = some sizes; current_par = some sizes }

from_left_started-runs_example :
    from_left_started ingredients entered
    ≡ ok (started entered sizes sizes 1 1) (
        moved
          (windowed 1 (slider 1 4 1))
          (windowed 1 (slider 1 4 1))
          (entered.result_trace
            ++ ExecutedState.par (record { left_size = 0; right_size = 0 }) ∷ [])
          entered)
unfolding par_state
from_left_started-runs_example =
    from_left_started-runs entered sizes sizes 1 1 (call ∷ call ∷ call ∷ [])
      (call ∷ call ∷ call ∷ []) entered-Holds entered-Holds ingredients refl refl

abbrev fsm : ParFsm
fsm = started entered sizes sizes 1 1

-- The left subgraph has been read in current data, and not in previous data. It has left one state.
abbrev left_read : DataKeeper Table
left_read = keeper (slider 1 1 0) (slider 2 1 1) (call ∷ call ∷ [])

unread-CanReach : CanReach (slider 1 1 0) fsm.left_pair.prev_state 1
unread-CanReach = record {
  fits = omega arith;
  room = omega arith;
  short = omega arith;
  way = inl (omega arith);
}

read-CanReach : CanReach (slider 2 1 1) fsm.left_pair.current_state 1
read-CanReach = record {
  fits = omega arith;
  room = omega arith;
  short = omega arith;
  way = inr refl;
}

left_completed-runs_example :
    left_completed {E = StateFsmError} fsm left_read
    ≡ ok
        (record fsm {
          par_builder = record {
            saved_states_count = 2;
            left_subgraph_size = 1;
            right_subgraph_size = 0;
          };
        })
        (keeper (slider 2 1 0) (slider 2 1 0) (call ∷ call ∷ []))
left_completed-runs_example =
    left_completed-runs left_read fsm (omega arith) unread-CanReach read-CanReach

-- The right subgraph has been read in current data, and has left two states.
abbrev right_read : DataKeeper Table
right_read = keeper (slider 2 1 0) (slider 3 1 1) (call ∷ call ∷ call ∷ call ∷ [])

abbrev half : ParFsm
half = tracked_at SubgraphType.left left_read.result_trace fsm

right_completed-runs_example :
    right_completed {E = StateFsmError} half right_read
    ≡ ok tt (
        keeper
          (slider 3 1 0)
          (slider 3 1 0)
          (ExecutedState.par (record { left_size = 1; right_size = 2 }) ∷ call ∷ call ∷ call ∷ []))
right_completed-runs_example =
    right_completed-runs right_read half (omega arith)
      (record { room = omega arith; short = omega arith })
      (record { room = omega arith; short = omega arith }) (omega arith)

-- A par at the end of its trace, with three states in its left subgraph, none of which was read.
abbrev long_sizes : ParResult
long_sizes = record { left_size = 3; right_size = 0 }

abbrev unread : DataKeeper Table
unread = keeper (slider 1 3 0) (slider 1 3 0) (call ∷ [])

abbrev long_fsm : ParFsm
long_fsm = started (keeper (slider 1 4 1) (slider 1 4 1) []) long_sizes long_sizes 0 0

left_completed-stuck_example :
    (f' : ParFsm) × (k' : DataKeeper Table) × (left_completed {E = StateFsmError} long_fsm unread
      ≡ ok f' k')
    × ((prev_slider k').position ≡ 1)
left_completed-stuck_example =
    left_completed-stuck long_fsm unread (omega arith) (omega arith) (omega arith)
      (λ e. ground arith) (omega arith) (omega arith) (omega arith) (omega arith)

-- An iteration that has begun when the result had 4 states, and whose part before `next` ended when
-- it had 6.
abbrev begun : LoreCtor
begun = maybe_before_end 6 (before_start 2 4)

begun-Reaches : Reaches 2 begun 6
begun-Reaches = Reaches.stays _ 6 (Reaches.waits _ 4 6 (Reaches.starts 4) (omega arith))

begun_later-Reaches : Reaches 2 begun 7
begun_later-Reaches = Reaches.waits _ 6 7 begun-Reaches (omega arith)

Reaches-Tiles_example : Tiles 2 7 (into_subtrace_lore (finish_ctor 7 begun))
Reaches-Tiles_example = Reaches-Tiles 2 begun 7 begun_later-Reaches

abbrev queue : CtorQueue
queue = record {
  queue = record { ctor = begun; prev_lore = none; current_lore = none } ∷ [];
  back_traversal_pos = 1;
  back_traversal_started = false;
}

transform_to_lore-finish_example :
    (lore : FoldLore) × (transform_to_lore (finish 7 queue) ≡ some lore) × LoreOf (2 ∷ []) lore 7
transform_to_lore-finish_example =
    transform_to_lore-finish (2 ∷ []) queue 7 (begun_later-Reaches, tt)
