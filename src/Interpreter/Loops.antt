-- ===== src/Interpreter/Loops.antt =====
-- air/src/execution_step/instructions/{fold_scalar, next, seq}.rs: a fold whose body runs an
-- instruction and goes on with `next` is a loop over the items.
use aquavm.Prelude.{
  ℕ, suc, ◌+◌, String, ◌≡◌, ◌∙◌, refl, ap, some, List, [], ◌∷◌, false, ok, zoom, map_err, length,
  drop, str_eq_refl,
}
use aquavm.SparseMatrix.{NonEmptyVec, SparseCell, NameMap, set_key}
use aquavm.Keeper.{BiHashMap}
use aquavm.Scalars.{get_iterable, meet_next_before, meet_next_after}
use aquavm.Scalars.Rooms.{next_opens}
use aquavm.Scalars.Scopes.{AreScoped, AreWithin-refl, HasRoom, HasRoom-suc, with_matrices}
use aquavm.Values.{ValueAggregate, IterableItem, Json, iterable_prev, peek}
use aquavm.Context.{ErrorObjects}
use aquavm.Interpreter.{
  Instruction, LastInstruction, FoldState, ContextScalars, Machine, Execution, Host, set_scalars,
  flush_subgraph_completeness, set_subgraph_completeness, is_subgraph_complete,
}
use aquavm.Interpreter.Control.{execute_seq}
use aquavm.Interpreter.Scoped.{scalars_of}
use aquavm.Interpreter.Folds.{
  execute_next, run_next, advance, exhausted, start_back_iteration, get_fold_state, put_iterable,
  maybe_meet_iteration_end, maybe_meet_back_iterator,
}
use aquavm.Interpreter.Execute.{execute, step, execute_kind, with_errors}
use aquavm.Interpreter.Laws.{scalar_fold, advance-ok}
use aquavm.Interpreter.Cursor.{
  visit, loop_fuel, get_elem?-drop, drop-next, at_end, before_end, back_again, rewound, body,
  fold_at, with_host, Visits,
}

module _ {J C M H Foreign B : Type 0} ⦃bimap : BiHashMap B⦄ ⦃json : Json J⦄
    ⦃objects : ErrorObjects J⦄ ⦃values : NonEmptyVec (SparseCell (ValueAggregate J))⦄
    ⦃streams : NonEmptyVec (SparseCell C)⦄ ⦃maps : NonEmptyVec (SparseCell M)⦄
    ⦃host : Host J C M H Foreign B⦄ (name : String) (f : Foreign) (g : IterableItem J → H → H) where
  -- The body visits the item, and goes on with `next`.
  body_step :
      Visits host name f g
      → (items rest : List (IterableItem J)) (item : IterableItem J) (c : ℕ)
        (m n : Machine J C M H Foreign B) (fuel : ℕ)
      → (scalars_of m).iterable_variables name ≡ some (fold_at name f items c)
      → drop c items ≡ item ∷ rest
      → execute_next
          (execute fuel)
          (host.to_string (Instruction.next name))
          name
          (with_host (g item (m.exec_ctx).host) (flush_subgraph_completeness m))
        ≡ ok tt n
      → execute (suc (suc fuel)) (body name f) m ≡ ok tt n
  unfolding execute step execute_kind execute_seq with_errors is_subgraph_complete
      flush_subgraph_completeness set_subgraph_completeness peek
  body_step v items rest item c m n fuel e d h =
      rw
        (v (flush_subgraph_completeness m) (fold_at name f items c) item e
          (get_elem?-drop items c item rest d))
        (ap
          (λ r.
            with_errors (host.to_string (body name f))
              (with_errors (host.to_string (Instruction.next name)) r))
          h)

  get_at :
      (items : List (IterableItem J)) (c : ℕ) (m : Machine J C M H Foreign B)
      → (scalars_of m).iterable_variables name ≡ some (fold_at name f items c)
      → get_fold_state name m ≡ ok (fold_at name f items c) m
  unfolding get_fold_state get_iterable
  get_at items c m e = rw (get_fold_state, e) refl

  -- `next` at the last item.
  next_last :
      (items : List (IterableItem J)) (item : IterableItem J) (c : ℕ)
      (m : Machine J C M H Foreign B) (fuel : ℕ)
      → (scalars_of m).iterable_variables name ≡ some (fold_at name f items c)
      → drop c items ≡ item ∷ []
      → execute_next (execute fuel) (host.to_string (Instruction.next name)) name m ≡ ok tt m
  unfolding execute_next advance exhausted start_back_iteration maybe_meet_iteration_end
      maybe_meet_back_iterator
  next_last items item c m fuel e d =
      rw (get_at items c m e, at_end items item c d, get_at items c m e) refl

  ran_next :
      (run : Instruction Foreign → Execution J C M H Foreign B (Unit {0})) (i : Instruction Foreign)
      (m start n : Machine J C M H Foreign B) (t s : ContextScalars J C M Foreign)
      → meet_next_before (scalars_of m) ≡ ok tt s
      → run i (set_scalars s m) ≡ ok tt n
      → meet_next_after (scalars_of n) ≡ ok tt t
      → run_next run i m ≡ ok tt (set_scalars t n)
  unfolding run_next
  ran_next run i m start n t s a b c = rw (zoom, map_err, a, b, c) refl

  rewind :
      (items : List (IterableItem J)) (c : ℕ) (m : Machine J C M H Foreign B)
      (s : ContextScalars J C M Foreign) (h : H)
      → s.iterable_variables
        ≡ set_key name (some (fold_at name f items (c + 1))) (scalars_of m).iterable_variables
      → (scalars_of m).iterable_variables name ≡ some (fold_at name f items c)
      → put_iterable name
          (scalar_fold
            ((iterable_prev (record { items = items; cursor = c + 1 })).1)
            false
            (body name f)
            LastInstruction.no_last)
          (set_scalars
            (with_matrices (scalars_of (put_iterable name (fold_at name f items (c + 1)) m)) s)
            (with_host h (
              flush_subgraph_completeness
                (set_scalars s (put_iterable name (fold_at name f items (c + 1)) m)))))
        ≡ with_host h (flush_subgraph_completeness m)
  unfolding put_iterable flush_subgraph_completeness set_subgraph_completeness
  rewind items c m s h same e = rw (back_again items c) (
      ap
        (λ it. with_host h (
          flush_subgraph_completeness
            (set_scalars (record (scalars_of m) { iterable_variables = it }) m)))
        (ap (set_key name (some (fold_at name f items c))) same
          ∙ rewound name (fold_at name f items c) (fold_at name f items (c + 1))
              (scalars_of m).iterable_variables e))

  moved_scoped :
      (m : Machine J C M H Foreign B) (iterators : NameMap (FoldState J Foreign))
      → AreScoped (scalars_of m)
      → AreScoped (record (scalars_of m) { iterable_variables = iterators })
  moved_scoped m iterators h = record {
    variables = h.variables;
    streams = h.streams;
    maps = h.maps;
  }

  -- `next` before it, given what the rest of the loop does one scope deeper.
  next_more :
      (items rest : List (IterableItem J)) (item following : IterableItem J) (c : ℕ)
      (m : Machine J C M H Foreign B) (fuel : ℕ) (h : H)
      → (scalars_of m).iterable_variables name ≡ some (fold_at name f items c)
      → drop c items ≡ item ∷ following ∷ rest
      → AreScoped (scalars_of m)
      → HasRoom 1 (scalars_of m)
      → ((n : Machine J C M H Foreign B)
          → (scalars_of n).iterable_variables name ≡ some (fold_at name f items (c + 1))
          → AreScoped (scalars_of n)
          → ((k : ℕ) → HasRoom (suc k) (scalars_of m) → HasRoom k (scalars_of n))
          → (n.exec_ctx).host ≡ (m.exec_ctx).host
          → execute fuel (body name f) n ≡ ok tt (with_host h (flush_subgraph_completeness n)))
      → execute_next (execute fuel) (host.to_string (Instruction.next name)) name m
        ≡ ok tt (with_host h (flush_subgraph_completeness m))
  unfolding execute_next maybe_meet_iteration_end
  next_more items rest item following c m fuel h e d scoped room inner =
      let moved = put_iterable name (fold_at name f items (c + 1)) m in
      let inside = next_opens (scalars_of moved) (moved_scoped m _ scoped) room in
      let start = set_scalars inside.0 moved in
      let ran =
        inner start (ap (λ it. it name) inside.3 ∙ rw (str_eq_refl name) refl) inside.2 inside.5
          refl in
      let ended =
        set_scalars (with_matrices (scalars_of moved) inside.0)
          (with_host h (flush_subgraph_completeness start)) in
      rw (get_at items c m e, before_end items rest item following c d)
        (advance-ok (execute fuel) (host.to_string (Instruction.next name)) name
            (record { items = items; cursor = c }) (record { items = items; cursor = c + 1 }) false
            (body name f) LastInstruction.no_last m ended (record { items = items; cursor = c + 1 })
            false (body name f) LastInstruction.no_last
            (ran_next (execute fuel) (body name f) moved start
              (with_host h (flush_subgraph_completeness start))
              (with_matrices (scalars_of moved) inside.0) inside.0 inside.1 ran
              (inside.4 inside.0 (AreWithin-refl inside.0)))
            (get_at items (c + 1) ended (ap (λ it. it name) inside.3 ∙ rw (str_eq_refl name) refl))
          ∙ ap (ok tt) (rewind items c m inside.0 h inside.3 e))

  -- The loop from a cursor on.
  pub loop :
      Visits host name f g
      → (items rest : List (IterableItem J)) (item : IterableItem J) (c : ℕ)
        (m : Machine J C M H Foreign B) (fuel : ℕ)
      → (scalars_of m).iterable_variables name ≡ some (fold_at name f items c)
      → drop c items ≡ item ∷ rest
      → AreScoped (scalars_of m)
      → HasRoom (length rest) (scalars_of m)
      → execute (loop_fuel rest fuel) (body name f) m
        ≡ ok tt
            (with_host (visit g (item ∷ rest) (m.exec_ctx).host) (flush_subgraph_completeness m))
  unfolding loop_fuel visit flush_subgraph_completeness set_subgraph_completeness
  loop v items [] item c m fuel e d h room = body_step v items [] item c m _ fuel e d (
      next_last items item c (with_host (g item (m.exec_ctx).host) (flush_subgraph_completeness m))
        fuel e d)
  loop v items (following ∷ rest) item c m fuel e d h room =
      let visited = with_host (g item (m.exec_ctx).host) (flush_subgraph_completeness m) in
      body_step v items (following ∷ rest) item c m _ (loop_fuel rest fuel) e d (
        next_more items rest item following c visited (loop_fuel rest fuel)
          (visit g (following ∷ rest) (g item (m.exec_ctx).host)) e d h
          (HasRoom-suc (length rest) (scalars_of m) room)
          (λ n en hn deeper same.
            loop v items rest following (c + 1) n fuel en
              (drop-next items c item (following ∷ rest) d) hn (deeper (length rest) room)
            ∙ rw same refl))
