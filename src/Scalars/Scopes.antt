-- ===== src/Scalars/Scopes.antt =====
-- air/src/execution_step/execution_context/scalar_variables.rs: the scopes of all three matrices.
use aquavm.Prelude.{
  ℕ, String, ◌+◌, ◌<◌, ◌≡◌, inl, inr, arith, Bool, u32_mod, ok, zoom, subst, Run-cases, panic-ne-ok,
  err-ne-ok, ok-state, suc,
}
use aquavm.SparseMatrix.{NameMap, NonEmptyVec, SparseCell, ValuesSparseMatrix, ScalarsError}
use aquavm.SparseMatrix
use aquavm.SparseMatrix.Scopes.{
  IsScoped, IsWithin, IsWithin-refl, IsWithin-trans, IsWithin-IsScoped, set_value-IsWithin,
}
use aquavm.Scalars.{Scalars, on_variables, on_canon_streams, on_canon_maps}
use aquavm.Scalars

module _ {V C M F : Type 0} where
  pub record AreScoped (s : Scalars V C M F) : Type 0 where
    pub variables : IsScoped s.non_iterable_variables
    pub streams : IsScoped s.canon_streams
    pub maps : IsScoped s.canon_maps

  pub record AreWithin (before after : Scalars V C M F) : Type 0 where
    pub variables : IsWithin before.non_iterable_variables after.non_iterable_variables
    pub streams : IsWithin before.canon_streams after.canon_streams
    pub maps : IsWithin before.canon_maps after.canon_maps

  pub AreWithin-refl : (s : Scalars V C M F) → AreWithin s s
  AreWithin-refl s = record {
    variables = IsWithin-refl s.non_iterable_variables;
    streams = IsWithin-refl s.canon_streams;
    maps = IsWithin-refl s.canon_maps;
  }

  pub AreWithin-trans : (a b c : Scalars V C M F) → AreWithin a b → AreWithin b c → AreWithin a c
  AreWithin-trans a b c g h = record {
    variables = IsWithin-trans _ _ _ g.variables h.variables;
    streams = IsWithin-trans _ _ _ g.streams h.streams;
    maps = IsWithin-trans _ _ _ g.maps h.maps;
  }

  pub AreWithin-AreScoped : (a b : Scalars V C M F) → AreWithin a b → AreScoped a → AreScoped b
  AreWithin-AreScoped a b w h = record {
    variables = IsWithin-IsScoped _ _ w.variables h.variables;
    streams = IsWithin-IsScoped _ _ w.streams h.streams;
    maps = IsWithin-IsScoped _ _ w.maps h.maps;
  }

  -- The matrices of `before`, and the iterators of `end`.
  abbrev pub with_matrices : Scalars V C M F → Scalars V C M F → Scalars V C M F
  with_matrices before end = record before { iterable_variables = end.iterable_variables }

  -- Some more scopes fit into `usize`.
  abbrev pub HasRoom : ℕ → Scalars V C M F → Type 0
  HasRoom n s =
      (s.non_iterable_variables.current_depth + n < u32_mod)
      × (s.canon_streams.current_depth + n < u32_mod)
      × (s.canon_maps.current_depth + n < u32_mod)

  pub HasRoom-suc : (n : ℕ) (s : Scalars V C M F) → HasRoom (suc n) s → HasRoom 1 s
  HasRoom-suc n s r = (omega (arith, r.0), omega (arith, r.1), omega (arith, r.2))

  -- Iterators stand outside the scopes.
  pub same_matrices :
      (s : Scalars V C M F) (iterators : NameMap F)
      → AreWithin s (record s { iterable_variables = iterators })
  same_matrices s iterators = record {
    variables = IsWithin-refl s.non_iterable_variables;
    streams = IsWithin-refl s.canon_streams;
    maps = IsWithin-refl s.canon_maps;
  }

  pub with_matrices-AreWithin : (s end : Scalars V C M F) → AreWithin s (with_matrices s end)
  with_matrices-AreWithin s end = record {
    variables = IsWithin-refl s.non_iterable_variables;
    streams = IsWithin-refl s.canon_streams;
    maps = IsWithin-refl s.canon_maps;
  }

-- A scalar, a canonicalized stream or a map that is set belongs to the scope at work.
module _ {V C M F : Type 0} where
  pub set_scalar_value-AreWithin :
      (name : String) (v : V) (s t : Scalars V C M F) (b : Bool)
      → AreScoped s
      → Scalars.set_scalar_value name v s ≡ ok b t
      → AreWithin s t
  unfolding Scalars.set_scalar_value
  set_scalar_value-AreWithin name v s t b h e =
      elim (Run-cases (SparseMatrix.set_value name v s.non_iterable_variables)) [
        | inl p ↦ panic-ne-ok (rw (zoom, p) at e)
        | inr (inr (d, m, p)) ↦ err-ne-ok (rw (zoom, p) at e)
        | inr (inl (c, m, p)) ↦ subst (AreWithin s) (ok-state (rw (zoom, p) at e)) (record {
          variables = set_value-IsWithin name v s.non_iterable_variables h.variables c m p;
          streams = IsWithin-refl s.canon_streams;
          maps = IsWithin-refl s.canon_maps;
        })
      ]
