-- ===== src/Handler/Script/Turns.antt =====
-- The three handler calls of a par between the drives of its subgraphs, from any two sources.
use aquavm.Prelude.{
  ℕ, ◌+◌, ◌-◌, ◌≤◌, ◌<◌, ◌≡◌, refl, ap, sym, ◌∙◌, arith, inr, Option, none, some, List, [], ◌∷◌,
  ◌++◌, Bool, true, false, length, length-append, append_assoc, ok, zoom, map_err, set,
  set-append_here,
}
use aquavm.Data.{ParResult, ExecutedState, ExecutionTrace, par_state}
use aquavm.Slider.Reads.{windowed}
use aquavm.Keeper.{DataKeeper, prev_slider, current_slider}
use aquavm.Merger.Par.{try_merge_next_state_as_par, match_par}
use aquavm.Fsm.Par.{ParFsm, SubgraphType, or_default, left_completed, right_completed}
use aquavm.Fsm.Par.Moves.{CanReach, IsAhead}
use aquavm.Fsm.Par.Stages.{
  moved, started, tracked_at, filled, from_left_started-runs, left_completed-runs,
  right_completed-runs,
}
use aquavm.Handler.{TraceHandler, meet_par_start, meet_par_subgraph_end}
use aquavm.Handler.Script.{given}
use aquavm.Handler.Script.Sources.{Source, offered, next_state-offered, both_stepped, next_states}
use aquavm.Handler.Script.Pars.{sizes, par-Holds, right-position, end-position, end-Reads, room}
use aquavm.Handler.Script.Ran.{Ran, with_pars, stepped-trace}

abbrev par_of : Bool → ParResult → Option ParResult
par_of true p = some p
par_of false p = none

abbrev whole : List ExecutedState → List ExecutedState → ParResult
whole l1 l2 = record { left_size = length l1; right_size = length l2 }

or_default-par_of :
    (b : Bool) (l1 l2 : List ExecutedState) → or_default (par_of b (whole l1 l2)) ≡ sizes b l1 l2
or_default-par_of true l1 l2 = refl
or_default-par_of false l1 l2 = refl

match_par-both :
    {B : Type 0} (b c : Bool) (p q : ParResult) (k : DataKeeper B)
    → match_par (offered b (ExecutedState.par p)) (offered c (ExecutedState.par q)) k
      ≡ ok (record { prev_par = par_of b p; current_par = par_of c q }) k
unfolding match_par
match_par-both true true p q k = refl
match_par-both true false p q k = refl
match_par-both false true p q k = refl
match_par-both false false p q k = refl

module _ {B : Type 0} (b c : Bool) (l1 l2 m1 m2 : List ExecutedState) (h : TraceHandler B)
    (mp mc : ℕ) (rp rc : List ExecutedState)
    (vp : Source b
      (prev_slider h.data_keeper)
      mp
      (par_state (length l1) (length l2) ∷ (l1 ++ l2))
      rp)
    (vc : Source c
      (current_slider h.data_keeper)
      mc
      (par_state (length m1) (length m2) ∷ (m1 ++ m2))
      rc) where
  -- Before the par, behind its own states.
  abbrev pub entered : DataKeeper B
  entered = both_stepped b c h.data_keeper

  abbrev pub opened : DataKeeper B
  opened =
      moved (windowed (length (given b l1)) (prev_slider entered))
        (windowed (length (given c m1)) (current_slider entered))
        (h.data_keeper.result_trace ++ par_state 0 0 ∷ []) entered

  abbrev pub fsm : ParFsm
  fsm = started entered (sizes b l1 l2) (sizes c m1 m2) mp mc

  pub prev_entered : Source b (prev_slider entered) mp (l1 ++ l2) rp
  prev_entered = (next_state-offered b _ mp _ _ rp vp).1

  pub current_entered : Source c (current_slider entered) mc (m1 ++ m2) rc
  current_entered = (next_state-offered c _ mc _ _ rc vc).1

  pub par_opens : meet_par_start h ≡ ok tt (with_pars opened (fsm ∷ h.fsm_keeper.par_stack) h)
  unfolding meet_par_start try_merge_next_state_as_par par_state
  par_opens =
      let x : ExecutedState = ExecutedState.par (whole l1 l2) in
      let y : ExecutedState = ExecutedState.par (whole m1 m2) in
      rw
        (
          next_states b c x y h.data_keeper match_par (next_state-offered b _ mp x _ rp vp).0
              (next_state-offered c _ mc y _ rc vc).0,
          zoom,
          map_err,
        )
        (rw (match_par-both b c (whole l1 l2) (whole m1 m2) entered, zoom, map_err)
          (rw (
            from_left_started-runs entered (sizes b l1 l2) (sizes c m1 m2) mp mc _ _
                (par-Holds b l1 l2 rp _ mp prev_entered) (par-Holds c m1 m2 rc _ mc current_entered)
                (record { prev_par = par_of b (whole l1 l2); current_par = par_of c (whole m1 m2) })
                (or_default-par_of b l1 l2) (or_default-par_of c m1 m2),
            zoom,
            map_err,
          )))

  -- Between the subgraphs, when the left one has left `o1`.
  module _ (k : DataKeeper B) (o1 : List ExecutedState)
      (ran : Ran opened k o1 0 0 (given b l2 ++ rp) (given c m2 ++ rc)) where
    abbrev pub between : DataKeeper B
    between =
        moved (windowed (length (given b l2)) (prev_slider k))
          (windowed (length (given c m2)) (current_slider k)) k.result_trace k

    abbrev pub half : ParFsm
    half = tracked_at SubgraphType.left k.result_trace fsm

    prev_place : (prev_slider k).position ≡ (prev_slider entered).position + length (given b l1)
    prev_place =
        right-position b l1 l2 rp _ mp prev_entered (prev_slider k) ran.prev_trace ran.prev_reads

    current_place :
        (current_slider k).position ≡ (current_slider entered).position + length (given c m1)
    current_place =
        right-position c m1 m2 rc _ mc current_entered (current_slider k) ran.current_trace
          ran.current_reads

    grown_left : fsm.par_builder.saved_states_count ≤ length k.result_trace
    grown_left = omega (arith, ap length ran.result, length-append opened.result_trace o1)

    fits_prev : length (given b l1) ≤ length (prev_slider k).trace
    fits_prev = omega (
      arith,
      ap length ran.prev_trace,
      (par-Holds b l1 l2 rp _ mp prev_entered).inside,
      length-append (given b l1) (given b l2 ++ rp),
    )

    fits_current : length (given c m1) ≤ length (current_slider k).trace
    fits_current = omega (
      arith,
      ap length ran.current_trace,
      (par-Holds c m1 m2 rc _ mc current_entered).inside,
      length-append (given c m1) (given c m2 ++ rc),
    )

    prev_CanReach : CanReach (prev_slider k) fsm.left_pair.prev_state fsm.prev_par.right_size
    prev_CanReach = record {
      fits = fits_prev;
      room = omega (arith, prev_place, ran.prev_reads.inside, length-append (given b l2) rp);
      short = ran.prev_reads.short;
      way = inr prev_place;
    }

    current_CanReach :
        CanReach (current_slider k) fsm.left_pair.current_state fsm.current_par.right_size
    current_CanReach = record {
      fits = fits_current;
      room = omega (arith, current_place, ran.current_reads.inside, length-append (given c m2) rc);
      short = ran.current_reads.short;
      way = inr current_place;
    }

    turned : {E : Type 0} → left_completed {E = E} fsm k ≡ ok half between
    turned =
        left_completed-runs k fsm grown_left prev_CanReach current_CanReach
        ∙ rw (sym prev_place, sym current_place) refl

    pub par_turns :
        (pars : List ParFsm)
        → meet_par_subgraph_end SubgraphType.left (with_pars k (fsm ∷ pars) h)
          ≡ ok tt (with_pars between (half ∷ pars) h)
    unfolding meet_par_subgraph_end
    par_turns pars = rw (turned, zoom, map_err)

    -- Behind the right subgraph, when it has left `o2`.
    module _ (k5 : DataKeeper B) (o2 : List ExecutedState)
        (ran5 : Ran between k5 o2 0 0 rp rc) where
      abbrev pub closed : DataKeeper B
      closed =
          moved (windowed mp (prev_slider k5)) (windowed mc (current_slider k5))
            (set k5.result_trace fsm.state_inserter (filled k5.result_trace half)) k5

      prev_end : (prev_slider k5).position ≡ half.right_pair.prev_state.pos
      prev_end =
          end-position b l1 l2 rp _ mp prev_entered (prev_slider k5)
            (ran5.prev_trace ∙ ran.prev_trace) ran5.prev_reads

      current_end : (current_slider k5).position ≡ half.right_pair.current_state.pos
      current_end =
          end-position c m1 m2 rc _ mc current_entered (current_slider k5)
            (ran5.current_trace ∙ ran.current_trace) ran5.current_reads

      prev_IsAhead : IsAhead (prev_slider k5) half.right_pair.prev_state
      prev_IsAhead = record {
        room = omega (arith, prev_end, room b l1 l2 rp _ mp prev_entered, ran5.prev_reads.inside);
        short = ran5.prev_reads.short;
      }

      current_IsAhead : IsAhead (current_slider k5) half.right_pair.current_state
      current_IsAhead = record {
        room =
            omega
              (arith, current_end, room c m1 m2 rc _ mc current_entered, ran5.current_reads.inside);
        short = ran5.current_reads.short;
      }

      grown_right : half.par_builder.saved_states_count ≤ length k5.result_trace
      grown_right = omega (arith, ap length ran5.result, length-append k.result_trace o2)

      grown : fsm.state_inserter < length k5.result_trace
      grown = omega (
        arith,
        grown_right,
        grown_left,
        length-append h.data_keeper.result_trace (par_state 0 0 ∷ []),
      )

      closes : {E : Type 0} → right_completed {E = E} half k5 ≡ ok tt closed
      closes =
          right_completed-runs k5 half grown_right prev_IsAhead current_IsAhead grown
          ∙ rw (sym prev_end, sym current_end) refl

      pub par_closes :
          (pars : List ParFsm)
          → meet_par_subgraph_end SubgraphType.right (with_pars k5 (half ∷ pars) h)
            ≡ ok tt (with_pars closed pars h)
      unfolding meet_par_subgraph_end
      par_closes pars = rw (closes, zoom, map_err)

      closed-result :
          closed.result_trace
          ≡ h.data_keeper.result_trace ++ par_state (length o1) (length o2) ∷ (o1 ++ o2)
      unfolding par_state
      closed-result =
          let t : ExecutionTrace = h.data_keeper.result_trace in
          let l : length k.result_trace - length (t ++ par_state 0 0 ∷ []) ≡ length o1 =
            omega (arith, ap length ran.result, length-append opened.result_trace o1) in
          let r : length k5.result_trace - length k.result_trace ≡ length o2 =
            omega (arith, ap length ran5.result, length-append k.result_trace o2) in
          let laid : k5.result_trace ≡ t ++ par_state 0 0 ∷ (o1 ++ o2) =
            rw
              (
                ran5.result,
                ran.result,
                append_assoc (t ++ par_state 0 0 ∷ []) o1 o2,
                append_assoc t (par_state 0 0 ∷ []) (o1 ++ o2),
              )
              refl in
          rw (l, r, laid) (set-append_here t (par_state 0 0) _ (o1 ++ o2))

      pub par-Ran :
          Ran h.data_keeper closed (par_state (length o1) (length o2) ∷ (o1 ++ o2)) mp mc rp rc
      par-Ran = record {
        result = closed-result;
        prev_trace = ran5.prev_trace ∙ ran.prev_trace ∙ stepped-trace b (prev_slider h.data_keeper);
        current_trace =
            ran5.current_trace ∙ ran.current_trace ∙ stepped-trace c (current_slider h.data_keeper);
        prev_reads =
            end-Reads b l1 l2 rp _ mp prev_entered (prev_slider k5)
              (ran5.prev_trace ∙ ran.prev_trace) ran5.prev_reads;
        current_reads =
            end-Reads c m1 m2 rc _ mc current_entered (current_slider k5)
              (ran5.current_trace ∙ ran.current_trace) ran5.current_reads;
      }
