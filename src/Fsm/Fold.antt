-- ===== src/Fsm/Fold.antt =====
-- state_automata/fold_fsm.rs, with lore_applier.rs and state_handler.rs: the automaton of a fold.
pub mod Ctor
pub mod Queue
use aquavm.Prelude.{
  ℕ, ◌+◌, ◌-◌, Bool, true, false, Option, none, some, List, [], ◌++◌, length, checked_add,
  checked_sub, if◌then◌else◌, lookup, remove, HashMap, Run, Exec, ok, err, panic, ◌>>=◌, ◌>>◌, pure,
  ok_or, or_panic, modify, zoom,
}
use aquavm.Data.{TracePos, FoldLore, FoldResult, SubTraceDesc, ExecutedState}
use aquavm.Slider.{TraceSlider, KeeperError, subtrace_len, set_position_and_len, set_subtrace_len}
use aquavm.Keeper.{BiHashMap, DataKeeper, prev_slider, current_slider, result_trace_next_pos}
use aquavm.Merger.{MergeCtxType}
use aquavm.Merger.Lore.{ResolvedFold, ResolvedSubTraceDescs}
use aquavm.Merger.Fold.{MergerFoldResult}
use aquavm.Fsm.{
  StateFsmError, CtxState, CtxStatesPair, on_prev, on_current, update_ctx_states,
  inserter_from_keeper, insert_state,
}
use Ctor.{LoreCtor, before_start, before_end, maybe_before_end, after_start, after_end}
use Queue.{
  CtorQueue, CtorDesc, empty_queue, current, update_current, add_element, traverse_back, finish,
  transform_to_lore,
}

pub record FoldFsm : Type 0 where
  pub prev_fold : ResolvedFold
  pub current_fold : ResolvedFold
  pub state_inserter : TracePos
  pub ctor_queue : CtorQueue
  pub result_lore : FoldLore
  pub state_pair : CtxStatesPair

-- A method of the automaton that takes the keeper.
pub record FoldRun (B : Type 0) : Type 0 where
  pub fsm : FoldFsm
  pub keeper : DataKeeper B

-- state_handler.rs: where the slider of the fold goes at its end. The underflow error carries the
-- position, as in the source.
unfoldable pub compute_new_state :
    {S : Type 0} → ResolvedFold → TraceSlider → MergeCtxType → Exec S StateFsmError CtxState
compute_new_state fold slider type = do
  pos ←
      ok_or (checked_add slider.position fold.fold_states_count)
        (StateFsmError.fold_pos_overflow fold slider.position type)
  current_len ← or_panic (subtrace_len slider)
  len ←
      ok_or (checked_sub current_len fold.fold_states_count)
        (StateFsmError.fold_len_underflow fold slider.position type)
  pure (record { pos = pos; subtrace_len = len })

pub data ByNextPosition : Type 0 where
  before after : ByNextPosition

abbrev desc_at : ByNextPosition → ResolvedSubTraceDescs → SubTraceDesc
desc_at ByNextPosition.before d = d.before_subtrace
desc_at ByNextPosition.after d = d.after_subtrace

-- lore_applier.rs, on the slider that the context type picks.
unfoldable pub apply_to_slider :
    Option ResolvedSubTraceDescs → ByNextPosition → Exec TraceSlider KeeperError (Unit {0})
apply_to_slider (some d) by =
    set_position_and_len (desc_at by d).begin_pos (desc_at by d).subtrace_len
apply_to_slider none by = set_subtrace_len 0

-- `pos.and_then(|pos| fold.lore.remove(pos))`: the entry, and the lore without it.
abbrev take_lore : Option TracePos → ResolvedFold → Option ResolvedSubTraceDescs × ResolvedFold
take_lore none f = (none, f)
take_lore (some pos) f = (lookup pos f.lore, record f { lore = remove pos f.lore })

module _ {B : Type 0} where
  unfoldable pub apply_fold_lore :
      ByNextPosition
      → Option ResolvedSubTraceDescs
      → Option ResolvedSubTraceDescs
      → Exec (DataKeeper B) StateFsmError (Unit {0})
  unfolding apply_to_slider
  apply_fold_lore by prev_lore current_lore = do
    on_prev (apply_to_slider prev_lore by)
    on_current (apply_to_slider current_lore by)

  unfoldable pub from_fold_start : MergerFoldResult → Exec (DataKeeper B) StateFsmError FoldFsm
  unfolding compute_new_state
  from_fold_start r = do
    position ← inserter_from_keeper
    prev_state ← λ k. compute_new_state r.prev_fold_lore (prev_slider k) MergeCtxType.previous k
    current_state ←
        λ k. compute_new_state r.current_fold_lore (current_slider k) MergeCtxType.current k
    pure (record {
      prev_fold = r.prev_fold_lore;
      current_fold = r.current_fold_lore;
      state_inserter = position;
      ctor_queue = empty_queue;
      result_lore = [];
      state_pair = record { prev_state = prev_state; current_state = current_state };
    })

  on_keeper : {A : Type 0} → Exec (DataKeeper B) StateFsmError A → Exec (FoldRun B) StateFsmError A
  on_keeper = zoom (λ r. r.keeper) (λ k r. record r { keeper = k })

  -- A method of the queue, which may panic, at the next position of the result trace.
  on_queue : (TracePos → CtorQueue → Option CtorQueue) → Exec (FoldRun B) StateFsmError (Unit {0})
  on_queue f r = elim (f (result_trace_next_pos r.keeper) r.fsm.ctor_queue) [
    | none ↦ panic
    | some q ↦ ok tt (record r { fsm = record r.fsm { ctor_queue = q } })
  ]

  -- `self.ctor_queue.current()`
  current_desc : Exec (FoldRun B) StateFsmError CtorDesc
  current_desc r = or_panic (current r.fsm.ctor_queue) r

module _ {B : Type 0} ⦃bimap : BiHashMap B⦄ where
  unfoldable pub prepare :
      Option ResolvedSubTraceDescs
      → Option ResolvedSubTraceDescs
      → TracePos
      → Exec (FoldRun B) StateFsmError (Unit {0})
  unfolding on_keeper on_queue
  prepare prev_lore current_lore value_pos = do
    on_keeper (apply_fold_lore ByNextPosition.before prev_lore current_lore)
    on_queue (λ now q. some (add_element (before_start value_pos now) prev_lore current_lore q))

  unfoldable pub meet_iteration_start : TracePos → Exec (FoldRun B) StateFsmError (Unit {0})
  unfolding prepare
  meet_iteration_start value_pos r =
      let (prev_lore, prev_fold) =
        take_lore (bimap.get_by_left value_pos r.keeper.new_to_prev_pos) r.fsm.prev_fold in
      let (current_lore, current_fold) =
        take_lore (bimap.get_by_left value_pos r.keeper.new_to_current_pos) r.fsm.current_fold in
      prepare prev_lore current_lore value_pos
        (record r { fsm = record r.fsm { prev_fold = prev_fold; current_fold = current_fold } })

module _ {B : Type 0} where
  unfoldable pub meet_iteration_end : Exec (FoldRun B) StateFsmError (Unit {0})
  unfolding on_queue
  meet_iteration_end = on_queue (λ now q. update_current (before_end now) q)

  -- `meet_back_iterator` once the back traversal has started: it goes back by one iteration.
  unfoldable pub go_back : Exec (FoldRun B) StateFsmError (Unit {0})
  unfolding on_queue on_keeper current_desc
  go_back = do
    on_queue (λ now q. update_current (after_end now) q)
    on_queue (λ now q. traverse_back q)
    on_queue (λ now q. update_current (after_start now) q)
    desc ← current_desc
    on_keeper (apply_fold_lore ByNextPosition.after desc.prev_lore desc.current_lore)

  -- `meet_back_iterator` at the turn: the last iteration goes on behind its `next`.
  unfoldable pub turn_back : Exec (FoldRun B) StateFsmError (Unit {0})
  unfolding on_queue on_keeper current_desc
  turn_back = do
    on_queue (λ now q. update_current (λ c. after_start now (maybe_before_end now c)) q)
    desc ← current_desc
    on_keeper (apply_fold_lore ByNextPosition.after desc.prev_lore desc.current_lore)
    on_queue (λ now q. some (record q { back_traversal_started = true }))

  unfoldable pub meet_back_iterator : Exec (FoldRun B) StateFsmError (Unit {0})
  unfolding go_back turn_back
  meet_back_iterator r = if r.fsm.ctor_queue.back_traversal_started then go_back r else turn_back r

  unfoldable pub meet_generation_end : Exec (FoldRun B) StateFsmError (Unit {0})
  unfolding on_queue
  meet_generation_end = do
    on_queue (λ now q. some (record (finish now q) { back_traversal_started = false }))
    lore ← λ r. or_panic (transform_to_lore r.fsm.ctor_queue) r
    on_queue (λ now q. some (record q { queue = [] }))
    modify (λ r. record r { fsm = record r.fsm { result_lore = r.fsm.result_lore ++ lore } })

  unfoldable pub meet_fold_end : {E : Type 0} → FoldFsm → Exec (DataKeeper B) E (Unit {0})
  meet_fold_end f = do
    insert_state f.state_inserter (ExecutedState.fold (record { lore = f.result_lore }))
    update_ctx_states f.state_pair
