-- ===== src/SparseMatrix/Restores.antt =====
-- air/src/execution_step/execution_context/scalar_variables/values_sparse_matrix.rs: the end of a
-- scope gives back what there was at its start.
use aquavm.Prelude.{
  String, ◌+◌, ◌<◌, ◌≡◌, inl, inr, sym, subst, Bool-cases, arith, leb, u32_mod, ◌∙◌, panic-ne-ok,
  ok-state, ok,
}
use aquavm.SparseMatrix
use aquavm.SparseMatrix.{NonEmptyVec, SparseCell, ValuesSparseMatrix}
use aquavm.SparseMatrix.Ends.{fold_scope, next_scope, new_scope}
use aquavm.SparseMatrix.Scopes.{IsScoped, IsWithin}

module _ {V : Type 0} ⦃vec : NonEmptyVec (SparseCell V)⦄ where
  has_room-fold :
      (m start : ValuesSparseMatrix V)
      → SparseMatrix.meet_fold_start m ≡ ok tt start
      → m.current_depth + 1 < u32_mod
  unfolding SparseMatrix.meet_fold_start
  has_room-fold m start s = elim (Bool-cases (leb u32_mod (m.current_depth + 1))) [
    | inl p ↦ panic-ne-ok (rw p at s)
    | inr p ↦ ground (arith, p)
  ]

  has_room-next :
      (m start : ValuesSparseMatrix V)
      → SparseMatrix.meet_next_before m ≡ ok tt start
      → m.current_depth + 1 < u32_mod
  unfolding SparseMatrix.meet_next_before
  has_room-next m start s = elim (Bool-cases (leb u32_mod (m.current_depth + 1))) [
    | inl p ↦ panic-ne-ok (rw p at s)
    | inr p ↦ ground (arith, p)
  ]

  -- Where the start of a fold succeeds on a well scoped matrix, the matrix stays well scoped;
  -- and whatever then differs in the cells of the new scope only, the end of the fold succeeds,
  -- and gives the matrix of the start back: its rows, its visible depths and its depth.
  pub meet_fold_end-restores :
      (m start end : ValuesSparseMatrix V)
      → IsScoped m
      → SparseMatrix.meet_fold_start m ≡ ok tt start
      → IsWithin start end
      → IsScoped start × (SparseMatrix.meet_fold_end end ≡ ok tt m)
  meet_fold_end-restores m start end h s w =
      let scope = fold_scope m h (has_room-fold m start s) in
      let same = ok-state (sym scope.1 ∙ s) in
      (subst IsScoped same scope.2, scope.3 end (subst (λ x. IsWithin x end) (sym same) w))

  -- Where the start of a `next` succeeds on a well scoped matrix, the matrix stays well scoped;
  -- and whatever then differs in the cells of the new scope only, the end of the `next`
  -- succeeds, and gives the matrix of the start back, with the scope that the `next` hid.
  pub meet_next_after-restores :
      (m start end : ValuesSparseMatrix V)
      → IsScoped m
      → SparseMatrix.meet_next_before m ≡ ok tt start
      → IsWithin start end
      → IsScoped start × (SparseMatrix.meet_next_after end ≡ ok tt m)
  meet_next_after-restores m start end h s w =
      let scope = next_scope m h (has_room-next m start s) in
      let same = ok-state (sym scope.1 ∙ s) in
      (subst IsScoped same scope.2, scope.3 end (subst (λ x. IsWithin x end) (sym same) w))

  -- The start of a `new` keeps a matrix well scoped; and whatever then differs in the cells of
  -- the current scope only, the end of the `new` succeeds: the row of its name is the one of
  -- the start, and the matrix differs from that of the start in cells of the current scope
  -- only.
  pub meet_new_end-restores :
      (name : String) (m end : ValuesSparseMatrix V)
      → IsScoped m
      → IsWithin (SparseMatrix.meet_new_start name m) end
      → IsScoped (SparseMatrix.meet_new_start name m)
        × ((n : ValuesSparseMatrix V) × (SparseMatrix.meet_new_end name end ≡ ok tt n)
            × IsWithin m n
            × (n.cells name ≡ m.cells name))
  meet_new_end-restores name m end h w = let scope = new_scope name m h in (scope.0, scope.1 end w)
