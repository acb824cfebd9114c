-- ===== src/Fsm/Fold/Queue/Drained.antt =====
-- The lore of a queue whose iterations have come as far as they may.
use aquavm.Prelude.{ℕ, ◌+◌, ◌≤◌, ◌≡◌, refl, some, List, [], ◌∷◌, map}
use aquavm.Data.{TracePos, SubTraceDesc, FoldLore}
use aquavm.Fsm.Fold.Ctor.{finish_ctor}
use aquavm.Fsm.Fold.Ctor.Reaches.{Reaches, Reaches-Tiles}
use aquavm.Fsm.Fold.Queue.{CtorDesc, CtorQueue, finish, lores, transform_to_lore}

-- Each automaton of the queue has been started for the value of its iteration.
abbrev pub AllReach : List TracePos → List CtorDesc → ℕ → Type 0
AllReach [] [] now = Unit {0}
AllReach (v ∷ vs) (d ∷ ds) now = Reaches v d.ctor now × AllReach vs ds now
AllReach _ _ now = ⊥

-- The lore of the values: two parts of the trace each, one behind the other.
abbrev pub LoreOf : List TracePos → FoldLore → ℕ → Type 0
LoreOf [] [] now = Unit {0}
LoreOf (v ∷ vs) (l ∷ ls) now =
    (before after : SubTraceDesc) × (l
      ≡ record { value_pos = v; subtraces_desc = before ∷ after ∷ [] })
    × (before.begin_pos + before.subtrace_len ≤ after.begin_pos)
    × (after.begin_pos + after.subtrace_len ≤ now)
    × LoreOf vs ls now
LoreOf _ _ now = ⊥

drained :
    (vs : List TracePos) (ds : List CtorDesc) (now : ℕ)
    → AllReach vs ds now
    → (ls : FoldLore) × (lores
          (map {A = CtorDesc} (λ d. record d { ctor = finish_ctor now d.ctor }) ds)
        ≡ some ls)
      × LoreOf vs ls now
unfolding lores
drained [] [] now h = ([], refl, tt)
drained [] (d ∷ ds) now h = absurd h
drained (v ∷ vs) [] now h = absurd h
drained (v ∷ vs) (d ∷ ds) now (r, h) =
    let (before, after, e, a, b) = Reaches-Tiles v d.ctor now r in
    let (ls, f, t) = drained vs ds now h in
    (
      record { value_pos = v; subtraces_desc = before ∷ after ∷ [] } ∷ ls,
      rw (lores, e) (rw f refl),
      (before, after, refl, a, b, t),
    )

-- Where each automaton of the queue has been started for the value of its iteration and has made
-- legal steps, the finished queue gives lore without a panic: an entry for each value, in order,
-- with two parts of the result trace, the second not before the end of the first, and both within
-- its present length.
pub transform_to_lore-finish :
    (vs : List TracePos) (q : CtorQueue) (now : ℕ)
    → AllReach vs q.queue now
    → (lore : FoldLore) × (transform_to_lore (finish now q) ≡ some lore) × LoreOf vs lore now
unfolding transform_to_lore finish
transform_to_lore-finish vs q now h = drained vs q.queue now h
