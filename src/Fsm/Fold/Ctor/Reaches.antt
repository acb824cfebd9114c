-- ===== src/Fsm/Fold/Ctor/Reaches.antt =====
-- The states that the lore automaton of an iteration can be in, and the lore that it gives.
use aquavm.Prelude.{ℕ, ◌+◌, ◌-◌, ◌≤◌, ◌≡◌, refl, subst, arith, Option, some, [], ◌∷◌, ltb-false}
use aquavm.Data.{TracePos, SubTraceDesc, FoldSubTraceLore}
use aquavm.Fsm.Fold.Ctor.{
  CtorState, LoreCtor, next, before_start, before_end, maybe_before_end, after_start, after_end,
  len, into_subtrace_lore, finish_ctor,
}

-- An automaton started for the value `v`, at the time when the result trace has `now` states.
pub data Reaches (v : TracePos) : LoreCtor → ℕ → Type 0 where
  starts : (now : ℕ) → Reaches v (before_start v now) now
  waits : (c : LoreCtor) (now later : ℕ) → Reaches v c now → now ≤ later → Reaches v c later
  ends_before :
      (c : LoreCtor) (now : ℕ)
      → Reaches v c now
      → c.state ≡ CtorState.before_started
      → Reaches v (before_end now c) now
  stays : (c : LoreCtor) (now : ℕ) → Reaches v c now → Reaches v (maybe_before_end now c) now
  starts_after :
      (c : LoreCtor) (now : ℕ)
      → Reaches v c now
      → c.state ≡ CtorState.before_completed
      → Reaches v (after_start now c) now
  ends_after :
      (c : LoreCtor) (now : ℕ)
      → Reaches v c now
      → c.state ≡ CtorState.after_started
      → Reaches v (after_end now c) now

-- The trackers that a state has set are in order, up to the present length.
abbrev Ordered : CtorState → LoreCtor → ℕ → Type 0
Ordered CtorState.before_started c now = c.before_tracker.start_pos ≤ now
Ordered CtorState.before_completed c now =
    (c.before_tracker.start_pos ≤ c.before_tracker.end_pos) × (c.before_tracker.end_pos ≤ now)
Ordered CtorState.after_started c now =
    (c.before_tracker.start_pos ≤ c.before_tracker.end_pos)
    × (c.before_tracker.end_pos ≤ c.after_tracker.start_pos)
    × (c.after_tracker.start_pos ≤ now)
Ordered CtorState.after_completed c now =
    (c.before_tracker.start_pos ≤ c.before_tracker.end_pos)
    × (c.before_tracker.end_pos ≤ c.after_tracker.start_pos)
    × (c.after_tracker.start_pos ≤ c.after_tracker.end_pos)
    × (c.after_tracker.end_pos ≤ now)

Ordered-later :
    (st : CtorState) (c : LoreCtor) (now later : ℕ)
    → now ≤ later
    → Ordered st c now
    → Ordered st c later
Ordered-later CtorState.before_started c now later h o = omega arith
Ordered-later CtorState.before_completed c now later h (a, b) = (a, omega arith)
Ordered-later CtorState.after_started c now later h (a, b, d) = (a, b, omega arith)
Ordered-later CtorState.after_completed c now later h (a, b, d, e) = (a, b, d, omega arith)

abbrev IsOrdered : TracePos → LoreCtor → ℕ → Type 0
IsOrdered v c now = (c.value_pos ≡ v) × Ordered c.state c now

maybe-IsOrdered :
    (v : TracePos) (c : LoreCtor) (now : ℕ) (st : CtorState)
    → c.state ≡ st
    → c.value_pos ≡ v
    → Ordered st c now
    → IsOrdered v (maybe_before_end now c) now
unfolding maybe_before_end before_end next
maybe-IsOrdered v c now CtorState.before_started e p o = rw e (p, (o, omega arith))
maybe-IsOrdered v c now CtorState.before_completed e p o = rw e (p, o)
maybe-IsOrdered v c now CtorState.after_started e p o = rw e (p, o)
maybe-IsOrdered v c now CtorState.after_completed e p o = rw e (p, o)

Reaches-IsOrdered : (v : TracePos) (c : LoreCtor) (now : ℕ) → Reaches v c now → IsOrdered v c now
unfolding before_start before_end after_start after_end next
Reaches-IsOrdered v c now (Reaches.starts _) = (refl, omega arith)
Reaches-IsOrdered v c now (Reaches.waits _ n _ r h) =
    let (p, o) = Reaches-IsOrdered v c n r in (p, Ordered-later c.state c n now h o)
Reaches-IsOrdered v c now (Reaches.ends_before d _ r e) =
    let (p, o) = Reaches-IsOrdered v d now r in
    let start : Ordered CtorState.before_started d now = subst (λ st. Ordered st d now) e o in
    rw e (p, (start, omega arith))
Reaches-IsOrdered v c now (Reaches.stays d _ r) =
    let (p, o) = Reaches-IsOrdered v d now r in maybe-IsOrdered v d now d.state refl p o
Reaches-IsOrdered v c now (Reaches.starts_after d _ r e) =
    let (p, o) = Reaches-IsOrdered v d now r in
    let (a, b) : Ordered CtorState.before_completed d now = subst (λ st. Ordered st d now) e o in
    rw e (p, (a, b, omega arith))
Reaches-IsOrdered v c now (Reaches.ends_after d _ r e) =
    let (p, o) = Reaches-IsOrdered v d now r in
    let (a, b, f) : Ordered CtorState.after_started d now = subst (λ st. Ordered st d now) e o in
    rw e (p, (a, b, f, omega arith))

-- The lore has the value and two parts of the trace, one behind the other, within `now` states.
abbrev pub Tiles : TracePos → ℕ → Option FoldSubTraceLore → Type 0
Tiles v now o =
    (before after : SubTraceDesc) × (o
      ≡ some (record { value_pos = v; subtraces_desc = before ∷ after ∷ [] }))
    × (before.begin_pos + before.subtrace_len ≤ after.begin_pos)
    × (after.begin_pos + after.subtrace_len ≤ now)

completed-Tiles :
    (v : TracePos) (c : LoreCtor) (now : ℕ)
    → c.value_pos ≡ v
    → Ordered CtorState.after_completed c now
    → Tiles v now (into_subtrace_lore c)
unfolding into_subtrace_lore len
completed-Tiles v c now p (a, b, d, e) = (
  record {
    begin_pos = c.before_tracker.start_pos;
    subtrace_len = c.before_tracker.end_pos - c.before_tracker.start_pos;
  },
  record {
    begin_pos = c.after_tracker.start_pos;
    subtrace_len = c.after_tracker.end_pos - c.after_tracker.start_pos;
  },
  rw (ltb-false _ _ a, ltb-false _ _ d, p) refl,
  omega arith,
  omega arith,
)

finish_ctor-Tiles :
    (v : TracePos) (c : LoreCtor) (now : ℕ) (st : CtorState)
    → c.state ≡ st
    → c.value_pos ≡ v
    → Ordered st c now
    → Tiles v now (into_subtrace_lore (finish_ctor now c))
unfolding finish_ctor after_end after_start before_end
finish_ctor-Tiles v c now CtorState.before_started e p o =
    rw e (completed-Tiles v _ now p (o, omega arith, omega arith, omega arith))
finish_ctor-Tiles v c now CtorState.before_completed e p (a, b) =
    rw e (completed-Tiles v _ now p (a, b, omega arith, omega arith))
finish_ctor-Tiles v c now CtorState.after_started e p (a, b, d) =
    rw e (completed-Tiles v _ now p (a, b, d, omega arith))
finish_ctor-Tiles v c now CtorState.after_completed e p o = rw e (completed-Tiles v _ now p o)

-- A lore automaton that was started for a value and has made legal steps while the result trace
-- grew gives lore without a panic when it is finished, however far it has come: it names the
-- value, and two parts of the trace, the second not before the end of the first, and both within
-- its present length.
pub Reaches-Tiles :
    (v : TracePos) (c : LoreCtor) (now : ℕ)
    → Reaches v c now
    → Tiles v now (into_subtrace_lore (finish_ctor now c))
Reaches-Tiles v c now r =
    let (p, o) = Reaches-IsOrdered v c now r in finish_ctor-Tiles v c now c.state refl p o
