-- ===== src/Fsm/Par/Stages.antt =====
-- The three calls of the par automaton as exact changes of the keeper, where the places that it
-- computes for the sliders lie in their traces.
use aquavm.Prelude.{
  ℕ, ◌-◌, ◌≤◌, ◌<◌, ◌≡◌, ap, arith, inl, List, [], ◌∷◌, ◌++◌, length, ok, ignore, ltb-false, lt→ltb,
  set, map_err, zoom,
}
use aquavm.Data.{ParResult, ExecutedState, ExecutionTrace, par_state}
use aquavm.Slider.{TraceSlider}
use aquavm.Slider.Reads.{Reads, windowed, set_subtrace_len-windowed}
use aquavm.Keeper.{DataKeeper, prev_slider, current_slider, push}
use aquavm.Merger.Par.{MergerParResult}
use aquavm.Fsm.{inserter_from_keeper, insert_state}
use aquavm.Fsm.Par.{
  SubgraphType, ParFsm, or_default, subgraph_len, track, build, compute_new_states,
  builder_from_keeper, prepare_sliders, from_left_started, left_completed, right_completed,
}
use aquavm.Fsm.Par.Moves.{
  Holds, left_state, right_state, compute_new_state-left, compute_new_state-right, CanReach,
  IsAhead, stood, set_left-repositions, set_right-repositions, update_ctx_states-Lands,
}

-- The keeper with other sliders and another result trace.
abbrev pub moved :
    {B : Type 0} → TraceSlider → TraceSlider → ExecutionTrace → DataKeeper B → DataKeeper B
moved p c t k = record k {
  prev_ctx = record { slider = p };
  current_ctx = record { slider = c };
  result_trace = t;
}

abbrev pub started : {B : Type 0} → DataKeeper B → ParResult → ParResult → ℕ → ℕ → ParFsm
started k pp pc mp mc = record {
  prev_par = pp;
  current_par = pc;
  state_inserter = length k.result_trace;
  left_pair = record {
    prev_state = left_state (prev_slider k) pp;
    current_state = left_state (current_slider k) pc;
  };
  right_pair = record {
    prev_state = right_state (prev_slider k) pp mp;
    current_state = right_state (current_slider k) pc mc;
  };
  par_builder = record {
    saved_states_count = length (k.result_trace ++ par_state 0 0 ∷ []);
    left_subgraph_size = 0;
    right_subgraph_size = 0;
  };
}

module _ {B : Type 0} (k : DataKeeper B) where
  -- Both sliders get windows that their traces have.
  prepare_sliders-windowed :
      (type : SubgraphType) (f : ParFsm) (np nc : ℕ) (ap ac : List ExecutedState)
      → Reads (prev_slider k) np ap
      → Reads (current_slider k) nc ac
      → subgraph_len type f.prev_par ≤ length ap
      → subgraph_len type f.current_par ≤ length ac
      → prepare_sliders type f k
        ≡ ok tt (
            moved
              (windowed (subgraph_len type f.prev_par) (prev_slider k))
              (windowed (subgraph_len type f.current_par) (current_slider k))
              k.result_trace
              k)
  unfolding prepare_sliders
  prepare_sliders-windowed type f np nc ap ac vp vc hp hc =
      rw
        (
          (set_subtrace_len-windowed (prev_slider k) (subgraph_len type f.prev_par) np ap vp hp).0,
          zoom,
          map_err,
        )
        (rw (
          (set_subtrace_len-windowed (current_slider k) (subgraph_len type f.current_par) nc ac vc
              hc).0,
          zoom,
          map_err,
        ))

  module _ (pp pc : ParResult) (mp mc : ℕ) (ap ac : List ExecutedState)
      (vp : Holds (prev_slider k) pp mp ap) (vc : Holds (current_slider k) pc mc ac) where
    compute_left :
        compute_new_states pp pc SubgraphType.left k
        ≡ ok
            (record {
              prev_state = left_state (prev_slider k) pp;
              current_state = left_state (current_slider k) pc;
            })
            k
    unfolding compute_new_states
    compute_left =
        rw (compute_new_state-left pp (prev_slider k) mp ap vp k)
          (rw (compute_new_state-left pc (current_slider k) mc ac vc k))

    compute_right :
        compute_new_states pp pc SubgraphType.right k
        ≡ ok
            (record {
              prev_state = right_state (prev_slider k) pp mp;
              current_state = right_state (current_slider k) pc mc;
            })
            k
    unfolding compute_new_states
    compute_right =
        rw (compute_new_state-right pp (prev_slider k) mp ap vp k)
          (rw (compute_new_state-right pc (current_slider k) mc ac vc k))

module _ {B : Type 0} (k : DataKeeper B) (pp pc : ParResult) (mp mc : ℕ)
    (ap ac : List ExecutedState) (vp : Holds (prev_slider k) pp mp ap)
    (vc : Holds (current_slider k) pc mc ac) where
  abbrev begun : DataKeeper B
  begun = push (par_state 0 0) k

  -- Where the windows and the traces of both sliders hold the two subgraphs of the met pars,
  -- the start of a par succeeds: it pushes an empty par to the result, gives both sliders the
  -- left subgraph as their window, and computes the states for the ends of the two subgraphs,
  -- with the rest of the outer windows.
  pub from_left_started-runs :
      (ing : MergerParResult)
      → or_default ing.prev_par ≡ pp
      → or_default ing.current_par ≡ pc
      → from_left_started ing k
        ≡ ok (started k pp pc mp mc) (
            moved
              (windowed pp.left_size (prev_slider k))
              (windowed pc.left_size (current_slider k))
              (k.result_trace ++ par_state 0 0 ∷ [])
              k)
  unfolding from_left_started inserter_from_keeper builder_from_keeper
  from_left_started-runs ing e f =
      rw (e, f)
        (rw (compute_left begun pp pc mp mc ap ac vp vc) (
          rw (compute_right begun pp pc mp mc ap ac vp vc) (
            rw (
              prepare_sliders-windowed begun SubgraphType.left (started k pp pc mp mc) _ _ ap ac vp
                vc (omega (arith, vp.fits)) (omega (arith, vc.fits))))))

-- What the builder of the par knows at the end of a subgraph: how long the result trace is, and how
-- many states the subgraph has added to it.
abbrev pub tracked_at : SubgraphType → ExecutionTrace → ParFsm → ParFsm
tracked_at SubgraphType.left t f = record f {
  par_builder = record {
    saved_states_count = length t;
    left_subgraph_size = length t - f.par_builder.saved_states_count;
    right_subgraph_size = f.par_builder.right_subgraph_size;
  };
}
tracked_at SubgraphType.right t f = record f {
  par_builder = record {
    saved_states_count = length t;
    left_subgraph_size = f.par_builder.left_subgraph_size;
    right_subgraph_size = length t - f.par_builder.saved_states_count;
  };
}

-- The state of the par at the end of its right subgraph.
abbrev pub filled : ExecutionTrace → ParFsm → ExecutedState
filled t f = ExecutedState.par (record {
  left_size = f.par_builder.left_subgraph_size;
  right_size = length t - f.par_builder.saved_states_count;
})

module _ {B : Type 0} (k : DataKeeper B) (f : ParFsm)
    (grown : f.par_builder.saved_states_count ≤ length k.result_trace) where
  track-runs :
      {E : Type 0} (type : SubgraphType)
      → track {E = E} type f.par_builder k ≡ ok (tracked_at type k.result_trace f).par_builder k
  unfolding track
  track-runs SubgraphType.left = rw (ltb-false _ _ grown)
  track-runs SubgraphType.right = rw (ltb-false _ _ grown)

  -- At the end of a left subgraph, where the result has not shrunk since the start of the par,
  -- the call succeeds if each trace has fewer than 2^31 states, the right subgraph fits behind
  -- the automaton's place for the end of the left one, the length that the automaton keeps for
  -- this place is at most that of the trace, and the slider stands at the place already or that
  -- length fits behind it. It records the number of states that the result has got as the left
  -- size, keeps the right one, and puts both sliders at those places, wherever they stood, with
  -- the right subgraphs as their windows.
  pub left_completed-runs :
      {E : Type 0}
      → CanReach (prev_slider k) f.left_pair.prev_state f.prev_par.right_size
      → CanReach (current_slider k) f.left_pair.current_state f.current_par.right_size
      → left_completed {E = E} f k
        ≡ ok (tracked_at SubgraphType.left k.result_trace f) (
            moved
              (stood f.left_pair.prev_state.pos f.prev_par.right_size (prev_slider k))
              (stood f.left_pair.current_state.pos f.current_par.right_size (current_slider k))
              k.result_trace
              k)
  unfolding left_completed
  left_completed-runs {E} p c =
      let (tp, hp, np) =
        set_left-repositions (prev_slider k) f.left_pair.prev_state f.prev_par.right_size p in
      let (tc, hc, nc) =
        set_left-repositions (current_slider k) f.left_pair.current_state f.current_par.right_size
          c in
      rw (track-runs {E = E} SubgraphType.left) (
        rw (update_ctx_states-Lands {E = E} k _ tp tc hp hc)
          (rw (np, zoom, map_err, ignore) (rw (nc, zoom, map_err, ignore))))

  -- At the end of a right subgraph, where the result has not shrunk since the end of the left
  -- one, the automaton's windows for the end of the par lie in the traces, which have fewer
  -- than 2^31 states, and the inserter lies inside the result, the call succeeds: the state at
  -- the inserter becomes a par with the recorded left size, and with the number of states that
  -- the result has got since as its right size; and both sliders get those windows, wherever
  -- they stood.
  pub right_completed-runs :
      {E : Type 0}
      → IsAhead (prev_slider k) f.right_pair.prev_state
      → IsAhead (current_slider k) f.right_pair.current_state
      → f.state_inserter < length k.result_trace
      → right_completed {E = E} f k
        ≡ ok tt (
            moved
              (stood f.right_pair.prev_state.pos f.right_pair.prev_state.subtrace_len
                (prev_slider k))
              (stood f.right_pair.current_state.pos f.right_pair.current_state.subtrace_len
                (current_slider k))
              (set k.result_trace f.state_inserter (filled k.result_trace f))
              k)
  unfolding right_completed insert_state build par_state
  right_completed-runs {E} p c inside = rw (track-runs {E = E} SubgraphType.right) (
      rw (lt→ltb _ _ inside) (
        update_ctx_states-Lands {E = E}
          (record k {
            result_trace = set k.result_trace f.state_inserter (filled k.result_trace f);
          })
          _ _ _ (inl (set_right-repositions (prev_slider k) f.right_pair.prev_state p))
          (inl (set_right-repositions (current_slider k) f.right_pair.current_state c))))
