-- ===== src/Fsm/Fold/Queue.antt =====
-- fold_fsm/lore_ctor_queue.rs: the iterations of a generation, walked forward and then back.
pub mod Drained
use aquavm.Prelude.{
  ℕ, zero, suc, ◌+◌, ◌-◌, Bool, false, Option, none, some, List, [], ◌∷◌, ◌++◌, map, get_elem?, set,
}
use aquavm.Data.{TracePos, FoldLore}
use aquavm.Merger.Lore.{ResolvedSubTraceDescs}
use aquavm.Fsm.Fold.Ctor.{LoreCtor, finish_ctor, into_subtrace_lore}

pub record CtorDesc : Type 0 where
  pub ctor : LoreCtor
  pub prev_lore : Option ResolvedSubTraceDescs
  pub current_lore : Option ResolvedSubTraceDescs

pub record CtorQueue : Type 0 where
  pub queue : List CtorDesc
  pub back_traversal_pos : ℕ
  pub back_traversal_started : Bool

abbrev pub empty_queue : CtorQueue
empty_queue = record { queue = []; back_traversal_pos = 0; back_traversal_started = false }

-- `&mut self.queue[self.back_traversal_pos - 1]`: `none` is the panic, on a position 0 too.
current_at : ℕ → List CtorDesc → Option CtorDesc
current_at zero q = none
current_at (suc i) q = get_elem? q i

unfoldable pub current : CtorQueue → Option CtorDesc
unfolding current_at
current q = current_at q.back_traversal_pos q.queue

-- A method of the ctor that `current()` refers to.
unfoldable pub update_current : (LoreCtor → LoreCtor) → CtorQueue → Option CtorQueue
unfolding current
update_current f q = elim (current q) [
  | none ↦ none
  | some d ↦
      some
        (record q { queue = set q.queue (q.back_traversal_pos - 1) (record d { ctor = f d.ctor }) })
]

unfoldable pub add_element :
    LoreCtor → Option ResolvedSubTraceDescs → Option ResolvedSubTraceDescs → CtorQueue → CtorQueue
add_element ctor prev_lore current_lore q = record q {
  queue =
      q.queue ++ record { ctor = ctor; prev_lore = prev_lore; current_lore = current_lore } ∷ [];
  back_traversal_pos = q.back_traversal_pos + 1;
}

back_from : ℕ → CtorQueue → Option CtorQueue
back_from zero q = none
back_from (suc i) q = some (record q { back_traversal_pos = i })

-- `back_traversal_pos -= 1`, with its panic.
unfoldable pub traverse_back : CtorQueue → Option CtorQueue
unfolding back_from
traverse_back q = back_from q.back_traversal_pos q

unfoldable pub finish : TracePos → CtorQueue → CtorQueue
finish now q = record q {
  queue = map {A = CtorDesc} (λ d. record d { ctor = finish_ctor now d.ctor }) q.queue;
  back_traversal_pos = 0;
}

lores : List CtorDesc → Option FoldLore
lores [] = some []
lores (d ∷ ds) = elim (into_subtrace_lore d.ctor) [
  | none ↦ none
  | some l ↦ elim (lores ds) [ none ↦ none | some ls ↦ some (l ∷ ls) ]
]

-- The lore of the drained queue.
unfoldable pub transform_to_lore : CtorQueue → Option FoldLore
unfolding lores
transform_to_lore q = lores q.queue
