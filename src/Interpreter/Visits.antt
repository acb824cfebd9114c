-- ===== src/Interpreter/Visits.antt =====
-- air/src/execution_step/instructions/{fold_scalar, next, seq}.rs: a fold whose body runs an
-- instruction and goes on with `next` is a loop over the items: the fold as a whole.
use aquavm.Prelude.{
  ℕ, zero, suc, ◌+◌, ◌-◌, ◌*◌, ◌≤◌, String, ◌≡◌, ◌∙◌, refl, ap, sym, arith, none, some, List, ◌∷◌,
  done, ok, zoom, map_err, length, str_eq_refl,
}
use aquavm.SparseMatrix.{NonEmptyVec, SparseCell, set_key}
use aquavm.Keeper.{BiHashMap}
use aquavm.Scalars
use aquavm.Scalars.{
  ScalarRef, get_iterable, set_iterable_value, remove_iterable_value, meet_next_before,
  meet_next_after,
}
use aquavm.Scalars.Rooms.{fold_opens}
use aquavm.Scalars.Scopes.{AreScoped, same_matrices, HasRoom, HasRoom-suc}
use aquavm.Values.{ValueAggregate, IterableItem, Json, get_result, resolved_items}
use aquavm.Context.{ErrorObjects}
use aquavm.Interpreter.{
  Instruction, LastInstruction, FoldScalarIterable, IterableType, Machine, Execution, Host,
  from_iterable, set_scalars, flush_subgraph_completeness, set_subgraph_completeness,
}
use aquavm.Interpreter.Control.{joinable}
use aquavm.Interpreter.Scoped.{scalars_of}
use aquavm.Interpreter.Folds.{execute_fold, execute_fold_scalar, fold_iterable, from_value}
use aquavm.Interpreter.Execute.{execute, step, execute_kind, with_errors}
use aquavm.Interpreter.Cursor.{
  loop_fuel-eq, length-resolved_items, items_of, resolved_items-items_of, visit, loop_fuel, unset,
  body, fold_at, with_host, Visits,
}
use aquavm.Interpreter.Loops.{loop}

module _ {J C M H Foreign B : Type 0} ⦃bimap : BiHashMap B⦄ ⦃json : Json J⦄
    ⦃objects : ErrorObjects J⦄ ⦃values : NonEmptyVec (SparseCell (ValueAggregate J))⦄
    ⦃streams : NonEmptyVec (SparseCell C)⦄ ⦃maps : NonEmptyVec (SparseCell M)⦄
    ⦃host : Host J C M H Foreign B⦄ (name : String) (f : Foreign) (g : IterableItem J → H → H) where
  fold-Visits :
      Visits host name f g
      → (rest : List (IterableItem J)) (item : IterableItem J) (m : Machine J C M H Foreign B)
        (fuel : ℕ)
      → (scalars_of m).iterable_variables name ≡ none
      → AreScoped (scalars_of m)
      → HasRoom (suc (length rest)) (scalars_of m)
      → execute_fold
          (execute (loop_fuel rest fuel))
          (record { items = item ∷ rest; cursor = 0 })
          IterableType.scalar
          name
          (body name f)
          LastInstruction.no_last
          m
        ≡ ok tt
            (with_host (visit g (item ∷ rest) (m.exec_ctx).host) (flush_subgraph_completeness m))
  unfolding execute_fold set_iterable_value remove_iterable_value from_iterable
      flush_subgraph_completeness set_subgraph_completeness
  fold-Visits v rest item m fuel e h room =
      let opened = fold_opens (scalars_of m) h (HasRoom-suc (length rest) (scalars_of m) room) in
      let s = record opened.0 {
        iterable_variables =
            set_key name (some (fold_at name f (item ∷ rest) 0)) (opened.0).iterable_variables;
      } in
      let ran =
        loop name f g v (item ∷ rest) rest item 0 (set_scalars s m) fuel
          (rw (str_eq_refl name) refl) refl
          (record {
            variables = (opened.2).variables;
            streams = (opened.2).streams;
            maps = (opened.2).maps;
          })
          (opened.5 (length rest) room) in
      let t = record s { iterable_variables = set_key name none s.iterable_variables } in
      rw
        (
          zoom,
          map_err,
          opened.1,
          ap (λ it. it name) opened.3 ∙ e,
          ran,
          opened.4 t (same_matrices opened.0 t.iterable_variables),
        )
        (ap
          (λ it. ok tt (
            with_host (visit g (item ∷ rest) (m.exec_ctx).host) (
              flush_subgraph_completeness
                (set_scalars (record (scalars_of m) { iterable_variables = it }) m))))
          (ap (λ it. set_key name none (set_key name (some (fold_at name f (item ∷ rest) 0)) it))
              opened.3
            ∙ unset name (fold_at name f (item ∷ rest) 0) (scalars_of m).iterable_variables e))

  -- A fold over a scalar that is an array.
  over_array :
      (run : Instruction Foreign → Execution J C M H Foreign B (Unit {0})) (variable : String)
      (value : ValueAggregate J) (j : J) (js : List J) (m : Machine J C M H Foreign B)
      → Scalars.get_value variable (scalars_of m) ≡ some (done (ScalarRef.value value))
      → json.as_array (get_result value) ≡ some (j ∷ js)
      → execute_fold_scalar run
          (FoldScalarIterable.scalar variable)
          name
          (body name f)
          LastInstruction.no_last
          m
        ≡ execute_fold run
            (record { items = resolved_items value 0 (j ∷ js); cursor = 0 })
            IterableType.scalar
            name
            (body name f)
            LastInstruction.no_last
            m
  unfolding execute_fold_scalar fold_iterable joinable from_value
  over_array run variable value j js m r a = rw (execute_fold_scalar, r, from_value, a) refl

  -- Take a fold over a scalar that holds an array with at least one element, without a last
  -- instruction, whose body runs a foreign instruction that only changes the host's state by
  -- the item of the iterator, and then `next`. Where the iterator's name is free, the scalars
  -- are well scoped, each of their three matrices has room for as many more scopes as there are
  -- elements, and the fuel is at least 3 for the first element and 2 for each other one, the
  -- fold succeeds: the host's state has been changed by an item for each element in order,
  -- which has the element, the tetraplet of the scalar with the lens of the element's index,
  -- and the position and the provenance of the scalar; the subgraph counts as complete; and
  -- nothing else has changed, neither the scalars nor the trace.
  pub execute-Visits :
      (variable : String) (value : ValueAggregate J) (j : J) (js : List J)
      (m : Machine J C M H Foreign B) (fuel : ℕ)
      → Visits host name f g
      → Scalars.get_value variable (scalars_of m) ≡ some (done (ScalarRef.value value))
      → json.as_array (get_result value) ≡ some (j ∷ js)
      → (scalars_of m).iterable_variables name ≡ none
      → AreScoped (scalars_of m)
      → HasRoom (suc (length js)) (scalars_of m)
      → 3 + 2 * length js ≤ fuel
      → execute fuel
          (Instruction.fold_scalar
            (FoldScalarIterable.scalar variable)
            name
            (body name f)
            LastInstruction.no_last)
          m
        ≡ ok tt (
            with_host
              (visit g (items_of value 0 (j ∷ js)) (m.exec_ctx).host)
              (flush_subgraph_completeness m))
  unfolding execute step execute_kind resolved_items
  execute-Visits variable value j js m zero v r a e h room enough = absurd (omega arith)
  execute-Visits variable value j js m (suc fuel) v r a e h room enough =
      let rest = resolved_items value 1 js in
      let long = length-resolved_items value 1 js in
      let extra = fuel - (2 + 2 * length rest) in
      let same : fuel ≡ loop_fuel rest extra = omega (arith, long, loop_fuel-eq rest extra) in
      let roomy : HasRoom (suc (length rest)) (scalars_of m) = rw long room in
      rw (same, sym (resolved_items-items_of value 0 (j ∷ js)))
        (ap
          (with_errors (
            host.to_string (
              Instruction.fold_scalar (FoldScalarIterable.scalar variable) name (body name f)
                LastInstruction.no_last)))
          (over_array (execute (loop_fuel rest extra)) variable value j js m r a
            ∙ fold-Visits v rest _ m extra e h roomy))
