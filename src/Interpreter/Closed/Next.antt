-- ===== src/Interpreter/Closed/Next.antt =====
-- air/src/execution_step/instructions/next.rs: `next` leaves no scope behind.
use aquavm.Prelude.{
  String, inl, inr, refl, Bool, true, false, Bool-cases, not, ◌&&◌, ok, zoom, map_err,
}
use aquavm.SparseMatrix.{NonEmptyVec, SparseCell}
use aquavm.Keeper.{BiHashMap}
use aquavm.Scalars.Opens.{nexts_open}
use aquavm.Scalars.Scopes.{
  AreScoped, AreWithin, AreWithin-refl, with_matrices-AreWithin, same_matrices, AreWithin-AreScoped,
  with_matrices,
}
use aquavm.Values.{ValueAggregate, IterableValue, iterable_next}
use aquavm.Interpreter.{
  Instruction, LastInstruction, FoldState, Machine, Execution, set_scalars,
  flush_subgraph_completeness, set_subgraph_completeness, make_subgraph_incomplete,
}
use aquavm.Interpreter.Folds.{
  put_iterable, get_fold_state, maybe_meet_iteration_end, maybe_meet_back_iterator,
  start_back_iteration, maybe_meet_iteration_start, is_stream, exhausted, run_next, advance,
  execute_next,
}
use aquavm.Interpreter.Scoped.{scalars_of, Keeps, Keeps-within, Keeps-continue, RunKeeps}
use aquavm.Interpreter.Closed.{
  finally-Keeps, get_fold_state-Keeps, end-Keeps, back-Keeps, start-Keeps,
}

module _ {J C M H Foreign B : Type 0} ⦃values : NonEmptyVec (SparseCell (ValueAggregate J))⦄
    ⦃streams : NonEmptyVec (SparseCell C)⦄ ⦃maps : NonEmptyVec (SparseCell M)⦄
    (run : Instruction Foreign → Execution J C M H Foreign B (Unit {0}))
    (keeps : RunKeeps run) where
  run_next-Keeps :
      (i : Instruction Foreign) (m : Machine J C M H Foreign B)
      → AreScoped (scalars_of m)
      → Keeps (scalars_of m) (run_next run i m)
  unfolding run_next
  run_next-Keeps i m h = elim (nexts_open (scalars_of m) h) [
    | inl e ↦ rw (zoom, map_err, e) tt
    | inr (start, e, scoped, same, closes) ↦
        rw (zoom, map_err, e)
          (finally-Keeps (scalars_of m) start _
            (λ n w. (
              set_scalars (with_matrices (scalars_of m) (scalars_of n)) n,
              rw (zoom, map_err, closes (scalars_of n) w) refl,
              with_matrices-AreWithin (scalars_of m) (scalars_of n),
            ))
            (run i (set_scalars start m)) (keeps i (set_scalars start m) scoped))
  ]

  start_back-Keeps :
      (name : String) (f : FoldState J Foreign) (m : Machine J C M H Foreign B)
      → AreWithin (scalars_of m) (scalars_of (start_back_iteration name f m))
  unfolding start_back_iteration put_iterable make_subgraph_incomplete set_subgraph_completeness
  start_back-Keeps name f m =
      elim (Bool-cases (not f.back_iteration_started && is_stream f.iterable_type)) [
        | inl e ↦ rw e (same_matrices (scalars_of m) _)
        | inr e ↦ rw e (AreWithin-refl (scalars_of m))
      ]

  exhausted-Keeps :
      (name : String) (f : FoldState J Foreign) (m : Machine J C M H Foreign B)
      → AreScoped (scalars_of m)
      → Keeps (scalars_of m) (exhausted run name f m)
  unfolding exhausted start_back_iteration flush_subgraph_completeness set_subgraph_completeness
      put_iterable make_subgraph_incomplete
  exhausted-Keeps name f m h =
      elim f.last_instr_head
        as (λ l. Keeps (scalars_of m) (elim l [
          | LastInstruction.last instruction ↦ run instruction (flush_subgraph_completeness m)
          | LastInstruction.no_last ↦ ok tt (start_back_iteration name f m)
        ])) [
          | LastInstruction.last i ↦ keeps i (flush_subgraph_completeness m) h
          | LastInstruction.no_last ↦ start_back-Keeps name f m
        ]

  advance-Keeps :
      ⦃bimap : BiHashMap B⦄
      → (instruction name : String) (f : FoldState J Foreign) (r : Bool × IterableValue J)
        (m : Machine J C M H Foreign B)
      → AreScoped (scalars_of m)
      → Keeps (scalars_of m) (advance run instruction name f r m)
  unfolding advance put_iterable
  advance-Keeps instruction name f (false, iterable) m h =
      Keeps-continue (scalars_of m) h (maybe_meet_back_iterator instruction f.iterable_type m)
        (back-Keeps instruction f.iterable_type m) _
        (λ a n g.
          Keeps-continue (scalars_of n) g (get_fold_state name n) (get_fold_state-Keeps name n) _
            (λ f' p k. exhausted-Keeps name f' p k))
  advance-Keeps instruction name f (true, iterable) m h =
      let moved = put_iterable name (record f { iterable = iterable }) m in
      let scoped =
        AreWithin-AreScoped (scalars_of m) (scalars_of moved) (same_matrices (scalars_of m) _) h in
      Keeps-within (scalars_of m) (scalars_of moved) (same_matrices (scalars_of m) _) _ (
        Keeps-continue (scalars_of moved) scoped
          (maybe_meet_iteration_start instruction (record f { iterable = iterable }) moved)
          (start-Keeps instruction (record f { iterable = iterable }) moved) _
          (λ a n g.
            Keeps-continue (scalars_of n) g (run_next run f.instr_head n)
              (run_next-Keeps f.instr_head n g) _
              (λ b p k.
                Keeps-continue (scalars_of p) k (get_fold_state name p)
                  (get_fold_state-Keeps name p) _
                  (λ f' q l.
                    Keeps-within (scalars_of q) _ (same_matrices (scalars_of q) _) _
                      (back-Keeps instruction f'.iterable_type _)))))

  pub next-Keeps :
      ⦃bimap : BiHashMap B⦄
      → (instruction name : String) (m : Machine J C M H Foreign B) → AreScoped (scalars_of m)
      → Keeps (scalars_of m) (execute_next run instruction name m)
  unfolding execute_next
  next-Keeps instruction name m h =
      Keeps-continue (scalars_of m) h (get_fold_state name m) (get_fold_state-Keeps name m) _
        (λ f n g.
          Keeps-continue (scalars_of n) g (maybe_meet_iteration_end instruction f.iterable_type n)
            (end-Keeps instruction f.iterable_type n) _
            (λ a p k. advance-Keeps instruction name f (iterable_next f.iterable) p k))
