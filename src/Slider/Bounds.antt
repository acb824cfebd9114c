-- ===== src/Slider/Bounds.antt =====
-- The invariant of a slider.
use aquavm.Prelude.{
  ℕ, ◌+◌, ◌-◌, ◌≤◌, ◌<◌, ◌≡◌, some, arith, length, ok, u32_mod, get_elem?-in_bounds,
}
use aquavm.Data.{ExecutionTrace}
use aquavm.Slider.{
  TraceSlider, new, next_state, set_position_and_len, set_subtrace_len, subtrace_len,
}

-- What the handler may assume of a slider: it has seen no more than its window, the rest of the
-- window lies inside the trace, and the trace is short enough for u32 positions.
pub record IsWithin (s : TraceSlider) : Type 0 where
  pub seen : s.seen_elements ≤ s.subtrace_len
  pub fits :
      s.seen_elements < s.subtrace_len
      → s.position + (s.subtrace_len - s.seen_elements) ≤ length s.trace
  pub short : length s.trace < u32_mod

pub new-IsWithin : (t : ExecutionTrace) → length t < u32_mod → IsWithin (new t)
unfolding new
new-IsWithin t h = ground arith

-- Where a slider has seen no more than its window, the rest of the window lies inside the trace,
-- and the trace has u32 positions, the same holds after `next_state`.
pub next_state-IsWithin : (s : TraceSlider) → IsWithin s → IsWithin (next_state s).1
unfolding next_state
next_state-IsWithin s v = ground (arith, get_elem?-in_bounds s.trace s.position)

pub set_position_and_len-IsWithin :
    (pos len : ℕ) (s : TraceSlider) {t : TraceSlider}
    → IsWithin s
    → set_position_and_len pos len s ≡ ok tt t
    → IsWithin t
unfolding set_position_and_len
set_position_and_len-IsWithin pos len s v h = ground arith

pub set_subtrace_len-IsWithin :
    (len : ℕ) (s : TraceSlider) {t : TraceSlider}
    → IsWithin s
    → set_subtrace_len len s ≡ ok tt t
    → IsWithin t
unfolding set_subtrace_len
set_subtrace_len-IsWithin len s v h = ground arith

pub subtrace_len_total :
    (s : TraceSlider) → IsWithin s → subtrace_len s ≡ some (s.subtrace_len - s.seen_elements)
unfolding subtrace_len
subtrace_len_total s v = ground arith
