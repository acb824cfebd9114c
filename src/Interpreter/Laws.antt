-- ===== src/Interpreter/Laws.antt =====
-- air/src/execution_step/instructions/{xor, next}.rs: which errors `xor` catches, and where `next`
-- leaves the iterator.
pub mod Xor
use aquavm.Prelude.{
  ℕ, ◌+◌, ◌<◌, String, ◌≡◌, ◌∙◌, ◌↔◌, inl, inr, refl, sym, ap, subst, ok-state, panic-ne-ok, some,
  List, length, lt→ltb, Bool, true, Run, ok, err, panic, zoom, map_err,
}
use aquavm.SparseMatrix.{NonEmptyVec, SparseCell, set_key}
use aquavm.Keeper.{BiHashMap}
use aquavm.Scalars.{Scalars, get_iterable}
use aquavm.Scalars
use aquavm.Scalars.Opens.{nexts_open}
use aquavm.Scalars.Scopes.{AreScoped, AreWithin, with_matrices}
use aquavm.Values.{ValueAggregate, IterableItem, IterableValue, iterable_next, iterable_prev}
use aquavm.Errors.{ExecutionError}
use aquavm.Context.{ErrorObjects}
use aquavm.Interpreter.{
  Instruction, LastInstruction, IterableType, FoldState, Machine, Execution, set_scalars,
  on_scalars, flush_subgraph_completeness, set_subgraph_completeness,
}
use aquavm.Interpreter.Scoped.{scalars_of}
use aquavm.Interpreter.Control.{execute_xor}
use aquavm.Interpreter.Folds.{
  execute_next, advance, run_next, put_iterable, get_fold_state, maybe_meet_iteration_end,
  maybe_meet_iteration_start, iteration_start, maybe_meet_back_iterator,
}
use Xor.{
  branch_start, XorSucceeds, XorFails, catch_left-ok, catch_left-err, XorSucceeds-catch_left,
  XorFails-catch_left,
}

module _ {J C M H Foreign B : Type 0} ⦃objects : ErrorObjects J⦄
    (run : Instruction Foreign → Execution J C M H Foreign B (Unit {0})) where
  -- `xor` succeeds just where its left branch, which starts in a complete subgraph, succeeds
  -- with that state; or where it fails with a catchable error, and the right branch, which
  -- starts in a complete subgraph with that error as the original one of `:error:` and both
  -- errors open to be set, succeeds. Then `:error:` becomes no error if it could still be set,
  -- and may be set again.
  pub execute_xor-ok :
      (left right : Instruction Foreign) (m n : Machine J C M H Foreign B)
      → (execute_xor run left right m ≡ ok tt n)
        ↔ XorSucceeds run right (run left (branch_start m)) n
  unfolding execute_xor flush_subgraph_completeness set_subgraph_completeness
  execute_xor-ok left right m n = (
    catch_left-ok run right (run left (branch_start m)) n,
    XorSucceeds-catch_left run right (run left (branch_start m)) n,
  )

  -- `xor` fails just where its left branch, which starts in a complete subgraph, fails with
  -- that error, which is uncatchable, and that state; or where it fails with a catchable error,
  -- and the right branch, which starts as for a success, fails with the error of the `xor`.
  -- Then `:error:` becomes no error if it could still be set, and whether it may be set stays.
  pub execute_xor-err :
      (left right : Instruction Foreign) (m n : Machine J C M H Foreign B) (e : ExecutionError J)
      → (execute_xor run left right m ≡ err e n)
        ↔ XorFails run right (run left (branch_start m)) e n
  unfolding execute_xor flush_subgraph_completeness set_subgraph_completeness
  execute_xor-err left right m n e = (
    catch_left-err run right (run left (branch_start m)) e n,
    XorFails-catch_left run right (run left (branch_start m)) e n,
  )

-- The state of a fold over a scalar.
abbrev pub scalar_fold :
    {J Foreign : Type 0}
    → IterableValue J
    → Bool
    → Instruction Foreign
    → LastInstruction Foreign
    → FoldState J Foreign
scalar_fold iterable back instr_head last_instr = record {
  iterable = iterable;
  iterable_type = IterableType.scalar;
  back_iteration_started = back;
  instr_head = instr_head;
  last_instr_head = last_instr;
}

module _ {J C M H Foreign B : Type 0} where
  -- The scalars with the iterator of the fold at a cursor.
  abbrev pub cursor_at :
      String
      → List (IterableItem J)
      → ℕ
      → Bool
      → Instruction Foreign
      → LastInstruction Foreign
      → Machine J C M H Foreign B
      → Scalars (ValueAggregate J) C M (FoldState J Foreign)
  cursor_at name items cursor back i l m = record (scalars_of m) {
    iterable_variables =
        set_key name (some (scalar_fold (record { items = items; cursor = cursor }) back i l))
          (scalars_of m).iterable_variables;
  }

  -- The state of `p`, with the matrices of the scalars of `m`.
  abbrev pub matrices_of :
      Machine J C M H Foreign B → Machine J C M H Foreign B → Machine J C M H Foreign B
  matrices_of m p =
      set_scalars (record (scalars_of m) { iterable_variables = (scalars_of p).iterable_variables })
        p

  abbrev closing :
      ExecutionError J
      → Run (Machine J C M H Foreign B) (ExecutionError J) (Unit {0})
      → Run (Machine J C M H Foreign B) (ExecutionError J) (Unit {0})
  closing e (ok b n) = err e n
  closing e (err f n) = err e n
  closing e panic = panic

module _ {J C M H Foreign B : Type 0} ⦃bimap : BiHashMap B⦄
    ⦃values : NonEmptyVec (SparseCell (ValueAggregate J))⦄ ⦃streams : NonEmptyVec (SparseCell C)⦄
    ⦃maps : NonEmptyVec (SparseCell M)⦄
    (run : Instruction Foreign → Execution J C M H Foreign B (Unit {0})) where
  pub advance-ok :
      (instruction name : String) (iterable next_iterable : IterableValue J) (back : Bool)
      (i : Instruction Foreign) (l : LastInstruction Foreign) (m n : Machine J C M H Foreign B)
      (later : IterableValue J) (later_back : Bool) (later_i : Instruction Foreign)
      (later_l : LastInstruction Foreign)
      → run_next run i (put_iterable name (scalar_fold next_iterable back i l) m) ≡ ok tt n
      → get_fold_state name n ≡ ok (scalar_fold later later_back later_i later_l) n
      → advance run instruction name (scalar_fold iterable back i l) (true, next_iterable) m
        ≡ ok tt
            (put_iterable name (scalar_fold ((iterable_prev later).1) later_back later_i later_l) n)
  unfolding advance maybe_meet_iteration_start iteration_start maybe_meet_back_iterator
  advance-ok instruction name iterable next_iterable back i l m n later later_back later_i later_l r
        s =
      rw (r, s) refl

  pub advance-err :
      (instruction name : String) (iterable next_iterable : IterableValue J) (back : Bool)
      (i : Instruction Foreign) (l : LastInstruction Foreign) (m n : Machine J C M H Foreign B)
      (e : ExecutionError J)
      → run_next run i (put_iterable name (scalar_fold next_iterable back i l) m) ≡ err e n
      → advance run instruction name (scalar_fold iterable back i l) (true, next_iterable) m
        ≡ err e n
  unfolding advance maybe_meet_iteration_start iteration_start
  advance-err instruction name iterable next_iterable back i l m n e r = rw r refl

  run_next-err :
      (s start : Scalars (ValueAggregate J) C M (FoldState J Foreign)) (i : Instruction Foreign)
      (m p : Machine J C M H Foreign B) (e : ExecutionError J)
      → AreScoped s
      → Scalars.meet_next_before s ≡ ok tt start
      → run i (set_scalars start m) ≡ err e p
      → AreWithin start (scalars_of p)
      → run_next run i (set_scalars s m) ≡ err e (set_scalars (with_matrices s (scalars_of p)) p)
  unfolding run_next
  run_next-err s start i m p e h b r w = elim (nexts_open s h) [
    | inl broken ↦ panic-ne-ok (sym broken ∙ b)
    | inr (opened, o, scoped, same, closes) ↦
        let closed : on_scalars Scalars.meet_next_after p
            ≡ ok tt (set_scalars (with_matrices s (scalars_of p)) p) =
          rw
            (
              zoom,
              map_err,
              closes (scalars_of p)
                  (subst (λ t. AreWithin t (scalars_of p)) (ok-state (sym b ∙ o)) w),
            )
            refl in
        rw (zoom, map_err, b) (rw r (ap (closing e) closed))
  ]

  -- Take a fold over a scalar whose iterator has a further item, in well scoped scalars. Where
  -- the body, run with the iterator at that item and in a new scope, fails and leaves no scope
  -- behind, `next` fails with its error. The matrices of the scalars are then as before, all
  -- else is as the body has left it, the iterator too: `next` does not move it back.
  pub execute_next-err :
      (instruction name : String) (items : List (IterableItem J)) (cursor : ℕ) (back : Bool)
      (i : Instruction Foreign) (l : LastInstruction Foreign) (m p : Machine J C M H Foreign B)
      (start : Scalars (ValueAggregate J) C M (FoldState J Foreign)) (e : ExecutionError J)
      → (scalars_of m).iterable_variables name
        ≡ some (scalar_fold (record { items = items; cursor = cursor }) back i l)
      → cursor + 1 < length items
      → AreScoped (scalars_of m)
      → Scalars.meet_next_before (cursor_at name items (cursor + 1) back i l m) ≡ ok tt start
      → run i (set_scalars start m) ≡ err e p
      → AreWithin start (scalars_of p)
      → execute_next run instruction name m ≡ err e (matrices_of m p)
  unfolding execute_next get_fold_state get_iterable maybe_meet_iteration_end put_iterable
      iterable_next
  execute_next-err instruction name items cursor back i l m p start e at further h b r w =
      let iterable : IterableValue J = record { items = items; cursor = cursor } in
      let next_iterable : IterableValue J = record { items = items; cursor = cursor + 1 } in
      let scoped : AreScoped (cursor_at name items (cursor + 1) back i l m) = record {
        variables = h.variables;
        streams = h.streams;
        maps = h.maps;
      } in
      rw (get_fold_state, at)
        (rw (lt→ltb _ _ further) (
          advance-err instruction name iterable next_iterable back i l m (matrices_of m p) e (
            run_next-err (cursor_at name items (cursor + 1) back i l m) start i m p e scoped b r
              w)))
