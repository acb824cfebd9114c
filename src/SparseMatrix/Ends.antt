-- ===== src/SparseMatrix/Ends.antt =====
-- air/src/execution_step/execution_context/scalar_variables/values_sparse_matrix.rs: the scopes of
-- `fold`, `next` and `new`, from the method that starts one to the method that ends it.
use aquavm.Prelude.{
  ℕ, String, ◌+◌, ◌<◌, ◌≡◌, inl, inr, refl, arith, ◌==◌, false, Bool-cases, Option, none, some,
  str_eq, eq_iff, u32_mod, str_eq_refl, pred_suc, leb-false, ok,
}
use aquavm.SparseMatrix
use aquavm.SparseMatrix.{
  NonEmptyVec, SparseCell, Row, ValuesSparseMatrix, ScalarsError, cells_of, insert_depth,
  remove_depth, set_key,
}
use aquavm.SparseMatrix.Rows.{
  IsHeadWithin, Grown, Grown-refl, cleanup_row-Grown, Grown-from_met_new, popped_new-cells_of,
}
use aquavm.SparseMatrix.Scopes.{IsScoped, IsWithin}

not_zero : (n : ℕ) → (n + 1 == 0) ≡ false
not_zero n = ground arith

module _ {V : Type 0} ⦃vec : NonEmptyVec (SparseCell V)⦄ where
  closed_fold :
      (m end : ValuesSparseMatrix V)
      → end.current_depth ≡ m.current_depth + 1
      → ((name : String) → SparseMatrix.cleanup_row m.current_depth (end.cells name) ≡ m.cells name)
      → ((depth : ℕ)
          → remove_depth (m.current_depth + 1) end.allowed_depths depth ≡ m.allowed_depths depth)
      → SparseMatrix.meet_fold_end end ≡ ok tt m
  unfolding SparseMatrix.meet_fold_end
  closed_fold m end d rows allowed =
      rw (d, not_zero m.current_depth, pred_suc m.current_depth)
        (λ i. ok tt (record {
          cells = λ name. rows name i;
          allowed_depths = λ depth. allowed depth i;
          current_depth = m.current_depth;
        }))

  IsHeadWithin-mono :
      (depth : ℕ) (row : Option (Row V)) → IsHeadWithin depth row → IsHeadWithin (depth + 1) row
  IsHeadWithin-mono depth none h = tt
  IsHeadWithin-mono depth (some values) h = omega arith

  pub fold_scope :
      (m : ValuesSparseMatrix V)
      → IsScoped m
      → m.current_depth + 1 < u32_mod
      → (start : ValuesSparseMatrix V) × (SparseMatrix.meet_fold_start m ≡ ok tt start)
        × IsScoped start
        × ((end : ValuesSparseMatrix V)
            → IsWithin start end
            → SparseMatrix.meet_fold_end end ≡ ok tt m)
  unfolding SparseMatrix.meet_fold_start
  fold_scope m h lt = (
    record m {
      current_depth = m.current_depth + 1;
      allowed_depths = insert_depth (m.current_depth + 1) m.allowed_depths;
    },
    rw (leb-false u32_mod (m.current_depth + 1) lt) refl,
    record {
      heads = λ name. IsHeadWithin-mono m.current_depth (m.cells name) (h.heads name);
      here = ground arith;
      above = λ depth lt. ground (arith, h.above depth (omega arith));
    },
    λ end w.
        closed_fold m end w.same_depth
          (λ name.
            cleanup_row-Grown m.current_depth (m.cells name) (end.cells name) (h.heads name)
              (w.rows name))
          (λ depth.
            ground (arith, w.same_allowed depth, h.above (m.current_depth + 1) (omega arith))),
  )

  closed_next :
      (m end : ValuesSparseMatrix V)
      → end.current_depth ≡ m.current_depth + 1
      → ((name : String) → SparseMatrix.cleanup_row m.current_depth (end.cells name) ≡ m.cells name)
      → ((depth : ℕ)
          → insert_depth m.current_depth
              (remove_depth (m.current_depth + 1) end.allowed_depths)
              depth
            ≡ m.allowed_depths depth)
      → SparseMatrix.meet_next_after end ≡ ok tt m
  unfolding SparseMatrix.meet_next_after
  closed_next m end d rows allowed =
      rw (d, not_zero m.current_depth, pred_suc m.current_depth)
        (λ i. ok tt (record {
          cells = λ name. rows name i;
          allowed_depths = λ depth. allowed depth i;
          current_depth = m.current_depth;
        }))

  pub next_scope :
      (m : ValuesSparseMatrix V)
      → IsScoped m
      → m.current_depth + 1 < u32_mod
      → (start : ValuesSparseMatrix V) × (SparseMatrix.meet_next_before m ≡ ok tt start)
        × IsScoped start
        × ((end : ValuesSparseMatrix V)
            → IsWithin start end
            → SparseMatrix.meet_next_after end ≡ ok tt m)
  unfolding SparseMatrix.meet_next_before
  next_scope m h lt = (
    record m {
      current_depth = m.current_depth + 1;
      allowed_depths =
          insert_depth (m.current_depth + 1) (remove_depth m.current_depth m.allowed_depths);
    },
    rw (leb-false u32_mod (m.current_depth + 1) lt) refl,
    record {
      heads = λ name. IsHeadWithin-mono m.current_depth (m.cells name) (h.heads name);
      here = ground arith;
      above = λ depth lt. ground (arith, h.above depth (omega arith));
    },
    λ end w.
        closed_next m end w.same_depth
          (λ name.
            cleanup_row-Grown m.current_depth (m.cells name) (end.cells name) (h.heads name)
              (w.rows name))
          (λ depth. elim (Bool-cases (m.current_depth == depth)) [
            | inl e ↦ ground (arith, h.here)
            | inr e ↦
                ground (arith, w.same_allowed depth, h.above (m.current_depth + 1) (omega arith))
          ]),
  )

  pub set_key-IsScoped :
      (name : String) (row : Option (Row V)) (m : ValuesSparseMatrix V)
      → IsHeadWithin m.current_depth row
      → IsScoped m
      → IsScoped (record m { cells = set_key name row m.cells })
  set_key-IsScoped name row m r h = record {
    heads = λ other. elim (Bool-cases (str_eq name other)) [
      | inl e ↦ rw e r
      | inr e ↦ rw e (h.heads other)
    ];
    here = h.here;
    above = h.above;
  }

  ended_new :
      (name : String) (m end : ValuesSparseMatrix V)
      → end.current_depth ≡ m.current_depth
      → (y : SparseCell V) → end.cells name ≡ some (y, cells_of (m.cells name))
      → y.depth ≡ m.current_depth
      → SparseMatrix.meet_new_end name end
        ≡ ok tt (record end { cells = set_key name (m.cells name) end.cells })
  unfolding SparseMatrix.meet_new_end SparseMatrix.meet_new_end_row SparseMatrix.end_new
  ended_new name m end d y e hy =
      let p = popped_new-cells_of m.current_depth (m.cells name) y hy in rw (e, d, p.0, p.1) refl

  pub new_scope :
      (name : String) (m : ValuesSparseMatrix V)
      → IsScoped m
      → IsScoped (SparseMatrix.meet_new_start name m)
        × ((end : ValuesSparseMatrix V)
            → IsWithin (SparseMatrix.meet_new_start name m) end
            → (n : ValuesSparseMatrix V) × (SparseMatrix.meet_new_end name end ≡ ok tt n)
              × IsWithin m n
              × (n.cells name ≡ m.cells name))
  unfolding SparseMatrix.meet_new_start SparseMatrix.from_met_new
  new_scope name m h = (
    set_key-IsScoped name
        (some (SparseMatrix.from_met_new m.current_depth, cells_of (m.cells name))) m (omega arith)
        h,
    λ end w.
        let row : Grown m.current_depth
            (some (SparseMatrix.from_met_new m.current_depth, cells_of (m.cells name)))
            (end.cells name) =
          rw (str_eq_refl name) at (w.rows name) in
        let top = Grown-from_met_new m.current_depth (m.cells name) (end.cells name) row in
        (
          record end { cells = set_key name (m.cells name) end.cells },
          ended_new name m end w.same_depth top.0 top.1 top.2,
          record {
            same_depth = w.same_depth;
            same_allowed = w.same_allowed;
            rows = λ other. elim (Bool-cases (str_eq name other)) [
              | inl e ↦ rw (e, (eq_iff name other).0 e) (Grown-refl m.current_depth (m.cells other))
              | inr e ↦ rw e (rw e at (w.rows other))
            ];
          },
          rw (str_eq_refl name) refl,
        ),
  )
