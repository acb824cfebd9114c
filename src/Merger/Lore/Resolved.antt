-- ===== src/Merger/Lore/Resolved.antt =====
-- The resolved lore of a fold as a map: the positions and the convolved lens of each iteration.
use aquavm.Prelude.{
  ℕ, ◌<◌, ◌≡◌, ◌≢◌, refl, ◌∙◌, arith, none, some, List, [], ◌∷◌, get_elem?, u32_mod, HashMap,
  lookup, insert, lookup-insert, lookup-nil, ==-refl, ok,
}
use aquavm.Data.{TracePos, SubTraceDesc, FoldSubTraceLore, FoldResult}
use aquavm.Slider.{MergeCtx}
use aquavm.Merger.Lore.{ResolvedSubTraceDescs, LoresLen, resolve_entries, resolve_fold_lore}
use aquavm.Merger.Lore.Rows.{Row, AllResolve, states, convolved}
use aquavm.Merger.Lore.Loop.{compute_lens_convolution-convolved}

-- No entry has the value position.
abbrev pub Apart : TracePos → List FoldSubTraceLore → Type 0
Apart pos [] = Unit {0}
Apart pos (l ∷ ls) = (l.value_pos ≢ pos) × Apart pos ls

abbrev pub AreDistinct : List FoldSubTraceLore → Type 0
AreDistinct [] = Unit {0}
AreDistinct (l ∷ ls) = Apart l.value_pos ls × AreDistinct ls

abbrev Unseen : List FoldSubTraceLore → HashMap ResolvedSubTraceDescs → Type 0
Unseen [] m = Unit {0}
Unseen (l ∷ ls) m = (lookup l.value_pos m ≡ none) × Unseen ls m

-- Each entry is found under its value: its two positions, with the lens beside it.
abbrev pub AllFound : List FoldSubTraceLore → List LoresLen → HashMap ResolvedSubTraceDescs → Type 0
AllFound [] [] m = Unit {0}
AllFound (l ∷ ls) (n ∷ ns) m =
    (first second : SubTraceDesc) × (l.subtraces_desc ≡ first ∷ second ∷ [])
    × (lookup l.value_pos m
        ≡ some (record {
          before_subtrace = record { begin_pos = first.begin_pos; subtrace_len = n.before_len };
          after_subtrace = record { begin_pos = second.begin_pos; subtrace_len = n.after_len };
        }))
    × AllFound ls ns m
AllFound _ _ m = ⊥

Unseen-insert :
    (pos : TracePos) (d : ResolvedSubTraceDescs) (ls : List FoldSubTraceLore)
    (m : HashMap ResolvedSubTraceDescs)
    → Apart pos ls
    → Unseen ls m
    → Unseen ls (insert pos d m)
Unseen-insert pos d [] m a u = tt
Unseen-insert pos d (l ∷ ls) m (ne, a) (e, u) =
    (ground (arith, lookup-insert pos l.value_pos d m, e), Unseen-insert pos d ls m a u)

-- Each entry has two descriptors, and there is a lens for each.
abbrev Paired : List FoldSubTraceLore → List LoresLen → Type 0
Paired [] [] = Unit {0}
Paired (l ∷ ls) (n ∷ ns) =
    (first second : SubTraceDesc) × (l.subtraces_desc ≡ first ∷ second ∷ []) × Paired ls ns
Paired _ _ = ⊥

nothing-Unseen : (ls : List FoldSubTraceLore) → Unseen ls []
nothing-Unseen [] = tt
nothing-Unseen (l ∷ ls) = (lookup-nil l.value_pos, nothing-Unseen ls)

convolved-Paired :
    (ctx : MergeCtx) (ls : List FoldSubTraceLore) (rs : List Row) (g cum : ℕ)
    → AllResolve ctx ls rs
    → Paired ls (convolved g cum rs)
convolved-Paired ctx [] [] g cum all = tt
convolved-Paired ctx [] (r ∷ rs) g cum all = absurd all
convolved-Paired ctx (l ∷ ls) [] g cum all = absurd all
convolved-Paired ctx (l ∷ ls) (r ∷ rs) g cum ((first, second, two, _, _, _), all) =
    (first, second, two, convolved-Paired ctx ls rs _ _ all)

resolve_entries-AllFound :
    (ctx : MergeCtx) (fold : FoldResult) (ls : List FoldSubTraceLore) (ns : List LoresLen)
    (m : HashMap ResolvedSubTraceDescs)
    → Paired ls ns
    → AreDistinct ls
    → Unseen ls m
    → (m' : HashMap ResolvedSubTraceDescs) × (resolve_entries fold ls ns m ctx ≡ ok m' ctx)
      × AllFound ls ns m'
      × ((pos : TracePos) → Apart pos ls → lookup pos m' ≡ lookup pos m)
unfolding resolve_entries
resolve_entries-AllFound ctx fold [] [] m paired distinct unseen = (m, refl, tt, λ pos a. refl)
resolve_entries-AllFound ctx fold [] (n ∷ ns) m paired distinct unseen = absurd paired
resolve_entries-AllFound ctx fold (l ∷ ls) [] m paired distinct unseen = absurd paired
resolve_entries-AllFound ctx fold (l ∷ ls) (n ∷ ns) m (first, second, two, paired) (apart, distinct)
      (new, unseen) =
    let d : ResolvedSubTraceDescs = record {
      before_subtrace = record { begin_pos = first.begin_pos; subtrace_len = n.before_len };
      after_subtrace = record { begin_pos = second.begin_pos; subtrace_len = n.after_len };
    } in
    let pos = l.value_pos in
    let e0 : get_elem? l.subtraces_desc 0 ≡ some first = rw two refl in
    let e1 : get_elem? l.subtraces_desc 1 ≡ some second = rw two refl in
    let (m', run, found, kept) =
      resolve_entries-AllFound ctx fold ls ns (insert pos d m) paired distinct
        (Unseen-insert pos d ls m apart unseen) in
    (
      m',
      rw (resolve_entries, e0) (rw e1 (rw new run)),
      (
        first,
        second,
        two,
        kept pos apart ∙ lookup-insert pos pos d m ∙ rw (==-refl pos) refl,
        found,
      ),
      λ other (ne, a). kept other a ∙ ground (arith, lookup-insert pos other d m),
    )

-- Where each lore entry of a fold has two descriptors and a value whose generation the trace
-- shows, the values are distinct, and the states of the fold fit into u32, the resolution of the
-- lore neither fails nor panics: it counts the states, and its map has under each value the two
-- positions of the entry, with the lens of the description.
pub resolve_fold_lore-AllFound :
    (ctx : MergeCtx) (fold : FoldResult) (rs : List Row)
    → AllResolve ctx fold.lore rs
    → states rs < u32_mod
    → AreDistinct fold.lore
    → (m : HashMap ResolvedSubTraceDescs) × (resolve_fold_lore fold ctx
        ≡ ok (record { lore = m; fold_states_count = states rs }) ctx)
      × AllFound fold.lore (convolved 0 0 rs) m
unfolding resolve_fold_lore
resolve_fold_lore-AllFound ctx fold rs all fits distinct =
    let (m, run, found, _) =
      resolve_entries-AllFound ctx fold fold.lore (convolved 0 0 rs) []
        (convolved-Paired ctx fold.lore rs 0 0 all) distinct (nothing-Unseen fold.lore) in
    (m, rw (compute_lens_convolution-convolved ctx fold rs all fits) (rw run refl), found)
