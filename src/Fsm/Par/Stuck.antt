-- ===== src/Fsm/Par/Stuck.antt =====
-- The end of a left subgraph that was not read to its end.
use aquavm.Prelude.{
  ℕ, ◌+◌, ◌-◌, ◌≤◌, ◌<◌, ◌≡◌, ◌≢◌, refl, arith, inl, inr, length, u32_mod, ok, err, dec_le,
  ℕ_discrete, ltb-false, ◌⊎◌, ignore, map_err, zoom,
}
use aquavm.Slider.{TraceSlider, KeeperError, set_position_and_len, set_subtrace_len}
use aquavm.Slider.Reads.{windowed}
use aquavm.Keeper.{DataKeeper, prev_slider, current_slider, put_prev, put_current}
use aquavm.Fsm.Par.{SubgraphType, ParFsm, subgraph_len, track, prepare_sliders, left_completed}
use aquavm.Fsm.Par.Moves.{Lands, update_ctx_states-Lands}
use aquavm.Fsm.Par.Stages.{tracked_at}

-- A slider inside its trace.
abbrev pub IsInside : TraceSlider → Type 0
IsInside s = s.position ≤ length s.trace

-- The move fails without a trace.
set_position_and_len-stuck :
    (pos len : ℕ) (s : TraceSlider)
    → length s.trace < pos + len
    → len ≢ 0
    → pos + len < u32_mod
    → Lands (set_position_and_len pos len s) s
unfolding set_position_and_len
set_position_and_len-stuck pos len s h d fits =
    inr (KeeperError.set_subtrace_len_and_pos_failed pos len (length s.trace), ground arith)

set_position_and_len-Lands :
    (pos len : ℕ) (s : TraceSlider)
    → IsInside s
    → pos ≤ length s.trace
    → pos + len < u32_mod
    → (t : TraceSlider) × Lands (set_position_and_len pos len s) t × IsInside t
unfolding set_position_and_len
set_position_and_len-Lands pos len s inside h fits = elim (dec_le (pos + len) (length s.trace)) [
  | yes room ↦
      (record s { position = pos; subtrace_len = len; seen_elements = 0 }, inl (ground arith), h)
  | no over ↦ elim (ℕ_discrete len 0) [
    | yes none_asked ↦
        (record s { position = pos; subtrace_len = len; seen_elements = 0 }, inl (ground arith), h)
    | no asked ↦ (s, set_position_and_len-stuck pos len s (omega arith) asked fits, inside)
  ]
]

set_subtrace_len-Lands :
    (len : ℕ) (s : TraceSlider)
    → IsInside s
    → (set_subtrace_len len s ≡ ok tt (windowed len s))
      ⊎ ((e : KeeperError) × (set_subtrace_len len s ≡ err e s))
unfolding set_subtrace_len
set_subtrace_len-Lands len s inside = elim (dec_le len (length s.trace - s.position)) [
  | yes room ↦ inl (ground arith)
  | no over ↦
      inr (KeeperError.set_subtrace_len_failed len s.position (length s.trace), ground arith)
]

-- The windows of the sliders change, their positions do not.
abbrev pub Stays : {B : Type 0} → DataKeeper B → DataKeeper B → Type 0
Stays k k' =
    ((prev_slider k').position ≡ (prev_slider k).position)
    × ((current_slider k').position ≡ (current_slider k).position)

module _ {B E : Type 0} where
  prepare_sliders-Stays :
      (type : SubgraphType) (f : ParFsm) (k : DataKeeper B)
      → IsInside (prev_slider k)
      → IsInside (current_slider k)
      → (k' : DataKeeper B) × (ignore {F = E} (prepare_sliders type f) k ≡ ok tt k') × Stays k k'
  unfolding prepare_sliders
  prepare_sliders-Stays type f k p c =
      elim (set_subtrace_len-Lands (subgraph_len type f.prev_par) (prev_slider k) p) [
        | inr (e, h) ↦ (k, rw (h, zoom, map_err, ignore) refl, (refl, refl))
        | inl h ↦
            let q : TraceSlider = windowed (subgraph_len type f.prev_par) (prev_slider k) in
            elim (set_subtrace_len-Lands (subgraph_len type f.current_par) (current_slider k) c) [
              | inr (e, g) ↦ (put_prev q k, rw (h, g, zoom, map_err, ignore) refl, (refl, refl))
              | inl g ↦
                  let r : TraceSlider =
                    windowed (subgraph_len type f.current_par) (current_slider k) in
                  (
                    put_current r (put_prev q k),
                    rw (h, g, zoom, map_err, ignore) refl,
                    (refl, refl),
                  )
            ]
      ]

  -- At the end of a left subgraph, the previous slider keeps its position if the place behind
  -- the left subgraph and the length of the left subgraph from there, which is not 0, do not
  -- fit into its trace. The call succeeds, where the result has not shrunk, both sliders stand
  -- inside their traces, the current slider's place lies inside its trace, and both sums fit
  -- into u32.
  pub left_completed-stuck :
      (f : ParFsm) (k : DataKeeper B)
      → f.par_builder.saved_states_count ≤ length k.result_trace
      → IsInside (prev_slider k)
      → IsInside (current_slider k)
      → f.left_pair.prev_state.subtrace_len ≢ 0
      → length (prev_slider k).trace
        < f.left_pair.prev_state.pos + f.left_pair.prev_state.subtrace_len
      → f.left_pair.prev_state.pos + f.left_pair.prev_state.subtrace_len < u32_mod
      → f.left_pair.current_state.pos ≤ length (current_slider k).trace
      → f.left_pair.current_state.pos + f.left_pair.current_state.subtrace_len < u32_mod
      → (f' : ParFsm) × (k' : DataKeeper B) × (left_completed {E = E} f k ≡ ok f' k')
        × ((prev_slider k').position ≡ (prev_slider k).position)
  unfolding left_completed track
  left_completed-stuck f k grown p c d over fits pos_c fits_c =
      let sp = f.left_pair.prev_state in
      let sc = f.left_pair.current_state in
      let (tc, hc, ic) =
        set_position_and_len-Lands sc.pos sc.subtrace_len (current_slider k) c pos_c fits_c in
      let f' = tracked_at SubgraphType.left k.result_trace f in
      let (k', e, (same, _)) =
        prepare_sliders-Stays SubgraphType.right f' (put_current tc (put_prev (prev_slider k) k)) p
          ic in
      (
        f',
        k',
        rw (ltb-false _ _ grown) (
            rw
              (update_ctx_states-Lands {E = E} k f.left_pair (prev_slider k) tc
                (set_position_and_len-stuck sp.pos sp.subtrace_len (prev_slider k) over d fits) hc)
              (rw e refl)),
        same,
      )
