-- ===== src/SparseMatrix/Rows.antt =====
-- air/src/execution_step/execution_context/scalar_variables/values_sparse_matrix.rs: what happens
-- to the row of one name between the start of a scope and its end.
use aquavm.Prelude.{
  ℕ, ◌+◌, ◌≤◌, ◌≡◌, refl, arith, ◌==◌, Bool, true, false, Bool-cases, inl, inr, not, Option, none,
  some, List, [], ◌∷◌, if◌then◌else◌,
}
use aquavm.SparseMatrix.{
  NonEmptyVec, SparseCell, Row, from_met_new, cleanup_row, popped_new, is_global_value,
  is_value_obsolete, cells_of,
}

module _ {V : Type 0} where
  -- The newest cell of the row is not deeper than the scope.
  abbrev pub IsHeadWithin : ℕ → Option (Row V) → Type 0
  IsHeadWithin depth none = Unit
  IsHeadWithin depth (some values) = (values.0).depth ≤ depth

  abbrev pub is_of_depth : ℕ → Option (Row V) → Bool
  is_of_depth depth none = false
  is_of_depth depth (some values) = (values.0).depth == depth

  -- The row without the cell of the depth, if that is the newest one.
  abbrev pub older : ℕ → Option (Row V) → List (SparseCell V)
  older depth none = []
  older depth (some (last_cell, earlier)) =
      if last_cell.depth == depth then earlier else last_cell ∷ earlier

  -- A row before and after code that ran in the scope of a depth: the cell of that depth may be
  -- new or have another value, and nothing else has changed.
  abbrev pub Grown : ℕ → Option (Row V) → Option (Row V) → Type 0
  Grown depth before after =
      (older depth before ≡ older depth after)
      × (is_of_depth depth before ≡ true → is_of_depth depth after ≡ true)

  pub Grown-refl : (depth : ℕ) (row : Option (Row V)) → Grown depth row row
  Grown-refl depth row = (refl, λ h. h)

  pub Grown-trans :
      (depth : ℕ) (a b c : Option (Row V)) → Grown depth a b → Grown depth b c → Grown depth a c
  Grown-trans depth a b c g h = (cc, λ e. h.1 (g.1 e))

  pub Grown-IsHeadWithin :
      (depth : ℕ) (before after : Option (Row V))
      → Grown depth before after
      → IsHeadWithin depth before
      → IsHeadWithin depth after
  Grown-IsHeadWithin depth before none g h = tt
  Grown-IsHeadWithin depth none (some (y, ys)) g h = ground arith
  Grown-IsHeadWithin depth (some (x, xs)) (some (y, ys)) g h = ground arith

module _ {V : Type 0} ⦃vec : NonEmptyVec (SparseCell V)⦄ where
  pub cleanup_row-id :
      (depth : ℕ) (row : Option (Row V)) → IsHeadWithin depth row → cleanup_row depth row ≡ row
  unfolding cleanup_row is_global_value is_value_obsolete
  cleanup_row-id depth none h = refl
  cleanup_row-id depth (some (x, xs)) h = ground arith

  pub cleanup_row-Grown :
      (depth : ℕ) (before after : Option (Row V))
      → IsHeadWithin depth before
      → Grown (depth + 1) before after
      → cleanup_row depth after ≡ before
  unfolding cleanup_row is_global_value is_value_obsolete
  cleanup_row-Grown depth none none h g = refl
  cleanup_row-Grown depth (some (x, xs)) none h g = ground arith
  cleanup_row-Grown depth none (some (y, ys)) h g = ground (arith, vec.pop-alone y)
  cleanup_row-Grown depth (some (x, xs)) (some (y, ys)) h g = ground (arith, vec.pop-pushed y x xs)

  -- A row that `new` has pushed its cell on still has it on the top when `new` ends.
  pub Grown-from_met_new :
      (depth : ℕ) (row after : Option (Row V))
      → Grown depth (some (from_met_new depth, cells_of row)) after
      → (y : SparseCell V) × (after ≡ some (y, cells_of row)) × (y.depth ≡ depth)
  unfolding from_met_new
  Grown-from_met_new depth row none g = ground arith
  Grown-from_met_new depth row (some (y, ys)) g = elim (Bool-cases (y.depth == depth)) [
    | inl e ↦ (y, ground arith, ground arith)
    | inr e ↦ ground arith
  ]

  abbrev pub is_row : Option (Row V) → Bool
  is_row none = false
  is_row (some values) = true

  -- What `pop` makes of such a row.
  pub popped_new-cells_of :
      (depth : ℕ) (row : Option (Row V)) (y : SparseCell V)
      → y.depth ≡ depth
      → (popped_new depth (vec.pop (y, cells_of row)) ≡ some (not (is_row row)))
        × ((if not (is_row row) then none else some ((vec.pop (y, cells_of row)).1)) ≡ row)
  unfolding popped_new
  popped_new-cells_of depth none y h = rw (vec.pop-alone y) (ground arith, refl)
  popped_new-cells_of depth (some (x, xs)) y h = rw (vec.pop-pushed y x xs) (ground arith, refl)
