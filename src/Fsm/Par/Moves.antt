-- ===== src/Fsm/Par/Moves.antt =====
-- How the automaton of a par moves the sliders.
use aquavm.Prelude.{
  dec_le, ℕ, ◌+◌, ◌*◌, ◌≤◌, ◌<◌, ◌≡◌, ◌⊎◌, sym, arith, inl, inr, List, length, u32_mod, ok, err,
  Run, ignore, map_err, zoom,
}
use aquavm.Data.{TracePos, ParResult, ExecutedState, size}
use aquavm.Slider.{TraceSlider, KeeperError, set_position_and_len, set_subtrace_len}
use aquavm.Slider.Reads.{Reads, subtrace_len-Reads}
use aquavm.Keeper.{DataKeeper, prev_slider, current_slider, put_prev, put_current}
use aquavm.Fsm.{CtxState, CtxStatesPair, on_prev, on_current, update_ctx_states}
use aquavm.Fsm.Par.{SubgraphType, compute_new_state}

-- The states that the sliders are to have after the subgraphs of `xs` and `ys`.
abbrev pub left_state : TraceSlider → ParResult → CtxState
left_state s p = record { pos = s.position + p.left_size; subtrace_len = p.left_size }

abbrev pub right_state : TraceSlider → ParResult → ℕ → CtxState
right_state s p m = record { pos = s.position + (p.left_size + p.right_size); subtrace_len = m }

-- The trace still holds the subgraphs of a par.
abbrev pub Holds : TraceSlider → ParResult → ℕ → List ExecutedState → Type 0
Holds s p m ahead = Reads s (p.left_size + p.right_size + m) ahead

module _ {S : Type 0} (p : ParResult) (s : TraceSlider) (m : ℕ) (ahead : List ExecutedState)
    (v : Holds s p m ahead) (st : S) where
  pub compute_new_state-left : compute_new_state p SubgraphType.left s st ≡ ok (left_state s p) st
  unfolding compute_new_state
  compute_new_state-left = ground (arith, v.inside, v.fits, v.short)

  pub compute_new_state-right :
      compute_new_state p SubgraphType.right s st ≡ ok (right_state s p m) st
  unfolding compute_new_state size
  compute_new_state-right = ground (
    arith,
    v.inside,
    v.fits,
    v.short,
    subtrace_len-Reads s (p.left_size + p.right_size + m) ahead v,
  )

-- A result that is dropped, whether or not the call succeeded.
abbrev pub Lands : Run TraceSlider KeeperError (Unit {0}) → TraceSlider → Type 0
Lands r t = (r ≡ ok tt t) ⊎ ((e : KeeperError) × (r ≡ err e t))

-- The slider at a position, with a fresh window.
abbrev pub stood : TracePos → ℕ → TraceSlider → TraceSlider
stood pos len s = record s { position = pos; subtrace_len = len; seen_elements = 0 }

-- The place behind a left subgraph, before a right one of `r` states. Its length is that of the left
-- subgraph again, which fits behind the place, or the slider stands there already.
pub record CanReach (s : TraceSlider) (st : CtxState) (r : ℕ) : Type 0 where
  pub fits : st.subtrace_len ≤ length s.trace
  pub room : st.pos + r ≤ length s.trace
  pub short : 2 * length s.trace < u32_mod
  pub way : (st.pos + st.subtrace_len ≤ length s.trace) ⊎ (s.position ≡ st.pos)

-- The place behind a par and the rest of its outer window lie in the trace.
pub record IsAhead (s : TraceSlider) (st : CtxState) : Type 0 where
  pub room : st.pos + st.subtrace_len ≤ length s.trace
  pub short : 2 * length s.trace < u32_mod

-- The move at the end of the left subgraph may fail: the length that it asks for is that of the
-- left subgraph again, though the place lies behind it. Where the slider stands there, the position
-- is right without it.
pub set_left-repositions :
    (s : TraceSlider) (st : CtxState) (r : ℕ)
    → CanReach s st r
    → (t : TraceSlider) × Lands (set_position_and_len st.pos st.subtrace_len s) t
      × (set_subtrace_len r t ≡ ok tt (stood st.pos r s))
unfolding set_position_and_len set_subtrace_len
set_left-repositions s st r c = elim (dec_le (st.pos + st.subtrace_len) (length s.trace)) [
  | yes near ↦ (
    stood st.pos st.subtrace_len s,
    inl (ground (arith, c.short, c.room)),
    ground (arith, c.room),
  )
  | no far ↦ elim c.way [
    | inl near ↦ absurd (far near)
    | inr here ↦ (
      s,
      inr (
        KeeperError.set_subtrace_len_and_pos_failed st.pos st.subtrace_len (length s.trace),
        ground (arith, c.short, c.room, c.fits),
      ),
      rw (sym here) (ground (arith, c.room, here)),
    )
  ]
]

-- The move at the end of the right subgraph succeeds where the rest of the window is in the trace.
pub set_right-repositions :
    (s : TraceSlider) (st : CtxState)
    → IsAhead s st
    → set_position_and_len st.pos st.subtrace_len s ≡ ok tt (stood st.pos st.subtrace_len s)
unfolding set_position_and_len
set_right-repositions s st a = ground (arith, a.short, a.room)

module _ {B : Type 0} {E : Type 0} (k : DataKeeper B) (pos len : ℕ) (t : TraceSlider) where
  ignore-on_prev :
      Lands (set_position_and_len pos len (prev_slider k)) t
      → ignore {F = E} (on_prev (set_position_and_len pos len)) k ≡ ok tt (put_prev t k)
  ignore-on_prev (inl h) = rw (h, ignore, zoom, map_err)
  ignore-on_prev (inr (e, h)) = rw (h, ignore, zoom, map_err)

  ignore-on_current :
      Lands (set_position_and_len pos len (current_slider k)) t
      → ignore {F = E} (on_current (set_position_and_len pos len)) k ≡ ok tt (put_current t k)
  ignore-on_current (inl h) = rw (h, ignore, zoom, map_err)
  ignore-on_current (inr (e, h)) = rw (h, ignore, zoom, map_err)

-- Both sliders land where the moves leave them.
pub update_ctx_states-Lands :
    {B E : Type 0} (k : DataKeeper B) (pair : CtxStatesPair) (tp tc : TraceSlider)
    → Lands
        (set_position_and_len pair.prev_state.pos pair.prev_state.subtrace_len (prev_slider k))
        tp
    → Lands
        (set_position_and_len pair.current_state.pos pair.current_state.subtrace_len
          (current_slider k))
        tc
    → update_ctx_states {E = E} pair k ≡ ok tt (put_current tc (put_prev tp k))
unfolding update_ctx_states
update_ctx_states-Lands {E = E} k pair tp tc hp hc =
    rw (ignore-on_prev {E = E} k pair.prev_state.pos pair.prev_state.subtrace_len tp hp) (
      ignore-on_current {E = E} (put_prev tp k) pair.current_state.pos
        pair.current_state.subtrace_len tc hc)
