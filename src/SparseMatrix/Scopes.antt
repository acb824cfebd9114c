-- ===== src/SparseMatrix/Scopes.antt =====
-- air/src/execution_step/execution_context/scalar_variables/values_sparse_matrix.rs: when scopes are
-- well formed, and what may happen within one.
use aquavm.Prelude.{
  ℕ, String, ◌<◌, ◌≡◌, inl, inr, refl, subst, ◌∙◌, arith, ◌==◌, Bool, true, false, Bool-cases,
  Option, none, some, [], ◌∷◌, str_eq, eq_iff, ok-state, ok,
}
use aquavm.SparseMatrix
use aquavm.SparseMatrix.{
  NonEmptyVec, SparseCell, Row, ValuesSparseMatrix, ScalarsError, cells_of, insert_depth,
  remove_depth, set_key,
}
use aquavm.SparseMatrix.Rows.{IsHeadWithin, Grown, Grown-refl, Grown-trans, Grown-IsHeadWithin}

module _ {V : Type 0} where
  -- The scope at work is visible, and none is deeper.
  pub record IsScoped (m : ValuesSparseMatrix V) : Type 0 where
    pub heads : (name : String) → IsHeadWithin m.current_depth (m.cells name)
    pub here : m.allowed_depths m.current_depth ≡ true
    pub above : (depth : ℕ) → m.current_depth < depth → m.allowed_depths depth ≡ false

  -- `after` may differ from `before` in the cells of its own scope, and in nothing else.
  pub record IsWithin (before after : ValuesSparseMatrix V) : Type 0 where
    pub same_depth : after.current_depth ≡ before.current_depth
    pub same_allowed : (depth : ℕ) → after.allowed_depths depth ≡ before.allowed_depths depth
    pub rows : (name : String) → Grown before.current_depth (before.cells name) (after.cells name)

  pub IsWithin-refl : (m : ValuesSparseMatrix V) → IsWithin m m
  IsWithin-refl m = record {
    same_depth = refl;
    same_allowed = λ depth. refl;
    rows = λ name. Grown-refl m.current_depth (m.cells name);
  }

  pub IsWithin-trans : (a b c : ValuesSparseMatrix V) → IsWithin a b → IsWithin b c → IsWithin a c
  IsWithin-trans a b c g h = record {
    same_depth = cc (g.same_depth, h.same_depth);
    same_allowed = λ depth. cc (g.same_allowed depth, h.same_allowed depth);
    rows = λ name.
        Grown-trans a.current_depth (a.cells name) (b.cells name) (c.cells name) (g.rows name)
          (subst (λ depth. Grown depth (b.cells name) (c.cells name)) g.same_depth (h.rows name));
  }

  pub IsWithin-IsScoped :
      (before after : ValuesSparseMatrix V)
      → IsWithin before after
      → IsScoped before
      → IsScoped after
  IsWithin-IsScoped before after w h = record {
    heads = λ name. rw w.same_depth (
        Grown-IsHeadWithin before.current_depth (before.cells name) (after.cells name) (w.rows name)
          (h.heads name));
    here = rw w.same_depth (w.same_allowed before.current_depth ∙ h.here);
    above = λ depth lt. w.same_allowed depth ∙ h.above depth (omega (arith, w.same_depth));
  }

  pub new-IsScoped : IsScoped (SparseMatrix.new {V = V})
  unfolding SparseMatrix.new
  new-IsScoped = record { heads = λ name. tt; here = refl; above = λ depth lt. ground arith }

  -- Only the row of the name is another one.
  set_key-IsWithin :
      (name : String) (row : Option (Row V)) (m : ValuesSparseMatrix V)
      → Grown m.current_depth (m.cells name) row
      → IsWithin m (record m { cells = set_key name row m.cells })
  set_key-IsWithin name row m g = record {
    same_depth = refl;
    same_allowed = λ depth. refl;
    rows = λ other. elim (Bool-cases (str_eq name other)) [
      | inl e ↦
          rw e (subst (λ key. Grown m.current_depth (m.cells key) row) ((eq_iff name other).0 e) g)
      | inr e ↦ rw e (Grown-refl m.current_depth (m.cells other))
    ];
  }

  set_entry-IsWithin :
      (name : String) (value : V) (could : Bool) (m : ValuesSparseMatrix V) (entry : Option (Row V))
      → m.cells name ≡ entry
      → IsHeadWithin m.current_depth entry
      → (b : Bool) (n : ValuesSparseMatrix V)
      → SparseMatrix.set_entry name value could entry m ≡ ok b n
      → IsWithin m n
  unfolding SparseMatrix.set_entry SparseMatrix.from_value
  set_entry-IsWithin name value could m none c h b n e = subst (IsWithin m) (ok-state e) (
      set_key-IsWithin name (some (SparseMatrix.from_value m.current_depth value, [])) m
        (rw c (ground arith)))
  set_entry-IsWithin name value false m (some (x, xs)) c h b n e = cc
  set_entry-IsWithin name value true m (some (x, xs)) c h b n e =
      elim (Bool-cases (x.depth == m.current_depth)) [
        | inl d ↦ subst (IsWithin m) (ok-state (rw d at e)) (
            set_key-IsWithin name (some (record x { value = some value }, xs)) m
              (rw c (ground arith)))
        | inr d ↦ subst (IsWithin m) (ok-state (rw d at e)) (
            set_key-IsWithin name (some (SparseMatrix.from_value m.current_depth value, x ∷ xs)) m
              (rw c (ground arith)))
      ]

  pub set_value-IsWithin :
      (name : String) (value : V) (m : ValuesSparseMatrix V)
      → IsScoped m
      → (b : Bool) (n : ValuesSparseMatrix V) → SparseMatrix.set_value name value m ≡ ok b n
      → IsWithin m n
  unfolding SparseMatrix.set_value
  set_value-IsWithin name value m h b n e =
      set_entry-IsWithin name value (SparseMatrix.variable_could_be_set name m) m (m.cells name)
        refl (h.heads name) b n e
