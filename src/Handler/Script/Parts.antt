-- ===== src/Handler/Script/Parts.antt =====
-- Scripts over any two sources, part by part.
use aquavm.Prelude.{
  ℕ, ◌+◌, ◌≡◌, ap, subst, ◌∙◌, arith, List, ◌∷◌, ◌++◌, Bool, true, false, length, length-append,
  append_assoc,
}
use aquavm.Data.{ExecutedState, ExecutionTrace}
use aquavm.Slider.{TraceSlider}
use aquavm.Slider.Reads.{Reads}
use aquavm.Keeper.{BiHashMap, prev_slider, current_slider}
use aquavm.Handler.{TraceHandler}
use aquavm.Handler.Script.{Script, Joined, layout, drive, given}
use aquavm.Handler.Script.Sources.{Source}
use aquavm.Handler.Script.Pars.{left-Source, right-Source}
use aquavm.Handler.Script.Ran.{
  Replays, with_keeper, with_pars, replay_call, replay_ap, replay_canon,
}
use aquavm.Handler.Script.Turns.{
  opened, fsm, between, half, closed, prev_entered, current_entered, par_opens, par_turns,
  par_closes, par-Ran,
}

first-Source :
    (b : Bool) (s : TraceSlider) (m : ℕ) (xs ys rest : List ExecutedState)
    → Source b s m (xs ++ ys) rest
    → Source b s (length (given b ys) + m) xs (given b ys ++ rest)
first-Source true s m xs ys rest v =
    let n : length (xs ++ ys) + m ≡ length xs + (length ys + m) =
      omega (arith, length-append xs ys) in
    record { reads = rw (n, append_assoc xs ys rest) at v.reads; exhausted = ground arith }
first-Source false s m xs ys rest v =
    let n : 0 + m ≡ 0 + (0 + m) = omega arith in
    record {
      reads = subst (λ (i : ℕ). Reads s i rest) n v.reads;
      exhausted = λ e. omega (arith, v.exhausted e);
    }

module _ {B : Type 0} ⦃bimap : BiHashMap B⦄ (b c : Bool) (p r f o p' r' f' o' : Script)
    (h : TraceHandler B) (mp mc : ℕ) (rp rc : List ExecutedState)
    (left : (h : TraceHandler B) (mp mc : ℕ) (rp rc : List ExecutedState)
      → Replays b c p r f o h mp mc rp rc)
    (right : (h : TraceHandler B) (mp mc : ℕ) (rp rc : List ExecutedState)
      → Replays b c p' r' f' o' h mp mc rp rc) where
  -- The parts of a par, one after the other.
  replay_par :
      Replays b c
        (Script.par p p')
        (Script.par r r')
        (Script.par f f')
        (Script.par o o')
        h
        mp
        mc
        rp
        rc
  unfolding drive
  replay_par vp vc =
      let lp = layout p in
      let lq = layout p' in
      let np = layout r in
      let nq = layout r' in
      let pars = h.fsm_keeper.par_stack in
      let f1 = fsm b c lp lq np nq h mp mc rp rc vp vc in
      let ep = prev_entered b c lp lq np nq h mp mc rp rc vp vc in
      let ec = current_entered b c lp lq np nq h mp mc rp rc vp vc in
      let h1 = with_pars (opened b c lp lq np nq h mp mc rp rc vp vc) (f1 ∷ pars) h in
      let (k, ek, ran) =
        left h1 0 0 (given b lq ++ rp) (given c nq ++ rc) (left-Source b lp lq rp _ mp ep)
          (left-Source c np nq rc _ mc ec) in
      let o1 = layout o in
      let f2 = half b c lp lq np nq h mp mc rp rc vp vc k o1 ran in
      let h2 = with_pars (between b c lp lq np nq h mp mc rp rc vp vc k o1 ran) (f2 ∷ pars) h in
      let (k5, ek5, ran5) =
        right h2 0 0 rp rc
          (right-Source b lp lq rp _ mp ep (prev_slider k) ran.prev_trace ran.prev_reads)
          (right-Source c np nq rc _ mc ec (current_slider k) ran.current_trace
            ran.current_reads) in
      let o2 = layout o' in
      (
        closed b c lp lq np nq h mp mc rp rc vp vc k o1 ran k5 o2 ran5,
        rw (par_opens b c lp lq np nq h mp mc rp rc vp vc) (
            rw ek (
              rw (par_turns b c lp lq np nq h mp mc rp rc vp vc k o1 ran pars) (
                rw ek5 (par_closes b c lp lq np nq h mp mc rp rc vp vc k o1 ran k5 o2 ran5 pars)))),
        par-Ran b c lp lq np nq h mp mc rp rc vp vc k o1 ran k5 o2 ran5,
      )

  replay_seq :
      Replays b c
        (Script.seq p p')
        (Script.seq r r')
        (Script.seq f f')
        (Script.seq o o')
        h
        mp
        mc
        rp
        rc
  unfolding drive
  replay_seq vp vc =
      let lp = layout p in
      let lq = layout p' in
      let np = layout r in
      let nq = layout r' in
      let (k, ek, ran) =
        left h (length (given b lq) + mp) (length (given c nq) + mc) (given b lq ++ rp)
          (given c nq ++ rc) (first-Source b (prev_slider h.data_keeper) mp lp lq rp vp)
          (first-Source c (current_slider h.data_keeper) mc np nq rc vc) in
      let (k5, ek5, ran5) =
        right (with_keeper k h) mp mc rp rc
          (record { reads = ran.prev_reads; exhausted = vp.exhausted })
          (record { reads = ran.current_reads; exhausted = vc.exhausted }) in
      (
        k5,
        rw ek ek5,
        record {
          result =
              ran5.result
              ∙ ap (λ (t : ExecutionTrace). t ++ layout o') ran.result
              ∙ append_assoc h.data_keeper.result_trace (layout o) (layout o');
          prev_trace = ran5.prev_trace ∙ ran.prev_trace;
          current_trace = ran5.current_trace ∙ ran.current_trace;
          prev_reads = ran5.prev_reads;
          current_reads = ran5.current_reads;
        },
      )

module _ {B : Type 0} ⦃bimap : BiHashMap B⦄ (b c : Bool) where
  pub replay :
      {p r f o : Script}
      → Joined b c p r f o
      → (h : TraceHandler B) (mp mc : ℕ) (rp rc : List ExecutedState)
      → Replays b c p r f o h mp mc rp rc
  replay (Joined.calls p r f o j) h mp mc rp rc = replay_call b c p r f o h mp mc rp rc j
  replay (Joined.aps p r f) h mp mc rp rc = replay_ap b c p r f h mp mc rp rc
  replay (Joined.canons p r f o j) h mp mc rp rc = replay_canon b c p r f o h mp mc rp rc j
  replay (Joined.pars p r f o p' r' f' o' s t) h mp mc rp rc =
      replay_par b c p r f o p' r' f' o' h mp mc rp rc (replay s) (replay t)
  replay (Joined.seqs p r f o p' r' f' o' s t) h mp mc rp rc =
      replay_seq b c p r f o p' r' f' o' h mp mc rp rc (replay s) (replay t)
