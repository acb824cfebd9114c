-- ===== src/SparseMatrix/Access.antt =====
-- air/src/execution_step/execution_context/scalar_variables/values_sparse_matrix.rs: what is read
-- after a value was set, and what an iteration sees of the ones before it.
use aquavm.Prelude.{
  ◌≤◌, String, ◌+◌, ◌<◌, ◌≡◌, ◌⊎◌, inl, inr, refl, subst, sym, not, leb, ok-state, panic-ne-ok,
  arith, ◌==◌, Bool, true, false, Bool-cases, Option, Option-cases, none, some, [], ◌∷◌,
  if◌then◌else◌, str_eq, str_eq_refl, u32_mod, ok, err, done, fail,
}
use aquavm.SparseMatrix.{
  Row, ValuesSparseMatrix, ScalarsError, set_value, set_entry, get_value, from_value,
  variable_could_be_set, shadowing_allowed, last_is_none, insert_depth, remove_depth, set_key,
  meet_next_before,
}
use aquavm.SparseMatrix.Scopes.{IsScoped}

module _ {V : Type 0} where
  -- The value is set, it is what is read next, and no other name is touched.
  abbrev pub IsTaken : String → V → ValuesSparseMatrix V → Type 0
  IsTaken name v m =
      (b : Bool) × (n : ValuesSparseMatrix V) × (set_value name v m ≡ ok b n)
      × (get_value name n ≡ done (some v))
      × ((other : String)
          → str_eq name other ≡ false
          → (n.cells other ≡ m.cells other) × (get_value other n ≡ get_value other m))

  -- The value is refused, since there is one in the global scope already.
  abbrev pub IsRefused : String → V → ValuesSparseMatrix V → Type 0
  IsRefused name v m =
      (set_value name v m ≡ err (ScalarsError.shadowing_is_not_allowed name) m)
      × (m.current_depth ≡ 0)
      × ((row : Row V) × (w : V) × (m.cells name ≡ some row) × ((row.0).value ≡ some w))

  abbrev put_row : String → Row V → ValuesSparseMatrix V → ValuesSparseMatrix V
  put_row name row m = record m { cells = set_key name (some row) m.cells }

  get_put_row :
      (name : String) (row : Row V) (m : ValuesSparseMatrix V)
      → m.allowed_depths ((row.0).depth) ≡ true
      → get_value name (put_row name row m) ≡ done (row.0).value
  unfolding get_value
  get_put_row name row m h = rw (str_eq_refl name, h) refl

  others :
      (name : String) (row : Row V) (m : ValuesSparseMatrix V) (other : String)
      → str_eq name other ≡ false
      → ((put_row name row m).cells other ≡ m.cells other)
        × (get_value other (put_row name row m) ≡ get_value other m)
  unfolding get_value
  others name row m other p = (rw p refl, rw p refl)

  -- The entry is written, with whether there was a value in the scope.
  abbrev IsWritten : String → V → Bool → Option (Row V) → ValuesSparseMatrix V → Type 0
  IsWritten name v could entry m =
      (b : Bool) × (n : ValuesSparseMatrix V) × (set_entry name v could entry m ≡ ok b n)
      × (get_value name n ≡ done (some v))
      × ((other : String)
          → str_eq name other ≡ false
          → (n.cells other ≡ m.cells other) × (get_value other n ≡ get_value other m))

  vacant-IsWritten :
      (name : String) (v : V) (could : Bool) (m : ValuesSparseMatrix V)
      → m.allowed_depths m.current_depth ≡ true
      → IsWritten name v could none m
  unfolding set_entry from_value
  vacant-IsWritten name v could m h =
      let row : Row V = (from_value m.current_depth v, []) in
      (false, put_row name row m, refl, get_put_row name row m h, others name row m)

  occupied-IsWritten :
      (name : String) (v : V) (m : ValuesSparseMatrix V) (row : Row V)
      → m.allowed_depths m.current_depth ≡ true
      → IsWritten name v true (some row) m
  unfolding set_entry from_value
  occupied-IsWritten name v m (x, xs) h = elim (Bool-cases (x.depth == m.current_depth)) [
    | inl e ↦
        let row : Row V = (record x { value = some v }, xs) in
        let same : x.depth ≡ m.current_depth = ground arith in
        (true, put_row name row m, rw e refl, get_put_row name row m (rw same h), others name row m)
    | inr e ↦
        let row : Row V = (from_value m.current_depth v, x ∷ xs) in
        (false, put_row name row m, rw e refl, get_put_row name row m h, others name row m)
  ]

  abbrev could_set : ValuesSparseMatrix V → Option (Row V) → Bool
  could_set m entry = if not (m.current_depth == 0) then true else last_is_none entry

  could_true :
      (m : ValuesSparseMatrix V) (row : Row V)
      → (row.0).value ≡ none
      → true ≡ could_set m (some row)
  could_true m row n = elim (Bool-cases (m.current_depth == 0)) [
    | inl z ↦ rw (z, n) refl
    | inr z ↦ rw z refl
  ]

  could_local :
      (m : ValuesSparseMatrix V) (entry : Option (Row V))
      → (m.current_depth == 0) ≡ false
      → true ≡ could_set m entry
  could_local m entry z = rw z refl

  outcome :
      (name : String) (v : V) (m : ValuesSparseMatrix V) (entry : Option (Row V))
      → m.allowed_depths m.current_depth ≡ true
      → IsWritten name v (could_set m entry) entry m
        ⊎ ((set_entry name v (could_set m entry) entry m
              ≡ err (ScalarsError.shadowing_is_not_allowed name) m)
            × (m.current_depth ≡ 0)
            × ((row : Row V) × (w : V) × (entry ≡ some row) × ((row.0).value ≡ some w)))
  unfolding set_entry
  outcome name v m none h = inl (vacant-IsWritten name v (could_set m none) m h)
  outcome name v m (some (x, xs)) h = elim (Option-cases x.value) [
    | inl n ↦ inl (
        subst (λ b. IsWritten name v b (some (x, xs)) m) (could_true m (x, xs) n)
          (occupied-IsWritten name v m (x, xs) h))
    | inr (w, n) ↦ elim (Bool-cases (m.current_depth == 0)) [
      | inl z ↦ inr (rw (z, n) refl, ground arith, ((x, xs), w, refl, n))
      | inr z ↦ inl (
          subst (λ b. IsWritten name v b (some (x, xs)) m) (could_local m (some (x, xs)) z)
            (occupied-IsWritten name v m (x, xs) h))
    ]
  ]

  -- Setting a value in a well scoped matrix has two outcomes. The value is the one that is read
  -- next, all other names read as before, and their cells are the same. Or it is refused with
  -- an error of shadowing, the matrix stays as it is, and this only at the global depth, for a
  -- name that has a value.
  pub set_value-outcomes :
      (name : String) (v : V) (m : ValuesSparseMatrix V)
      → IsScoped m
      → IsTaken name v m ⊎ IsRefused name v m
  unfolding set_value variable_could_be_set shadowing_allowed
  set_value-outcomes name v m h = elim (outcome name v m (m.cells name) h.here) [
    | inl w ↦ inl w
    | inr r ↦ inr r
  ]

  abbrev next_matrix : ValuesSparseMatrix V → ValuesSparseMatrix V
  next_matrix m = record m {
    current_depth = m.current_depth + 1;
    allowed_depths =
        insert_depth (m.current_depth + 1) (remove_depth m.current_depth m.allowed_depths);
  }

  next_started : (m n : ValuesSparseMatrix V) → meet_next_before m ≡ ok tt n → next_matrix m ≡ n
  unfolding meet_next_before
  next_started m n b = elim (Bool-cases (leb u32_mod (m.current_depth + 1))) [
    | inl p ↦ panic-ne-ok (rw p at b)
    | inr p ↦ ok-state (rw p at b)
  ]

  hidden :
      (m : ValuesSparseMatrix V) (row : Row V)
      → (row.0).depth ≡ m.current_depth
      → (next_matrix m).allowed_depths ((row.0).depth) ≡ false
  hidden m row d = ground arith

  shown :
      (m : ValuesSparseMatrix V) (row : Row V)
      → (row.0).depth < m.current_depth
      → (next_matrix m).allowed_depths ((row.0).depth) ≡ m.allowed_depths ((row.0).depth)
  shown m row d = ground arith

  -- After the start of a `next`, a name whose newest cell was set at the depth before is not
  -- found, and one whose newest cell is of a lower depth reads as before.
  pub next-visibility :
      (name : String) (m n : ValuesSparseMatrix V) (row : Row V)
      → m.cells name ≡ some row
      → (row.0).depth ≤ m.current_depth
      → meet_next_before m ≡ ok tt n
      → get_value name n ≡ (
          if (row.0).depth == m.current_depth
          then fail (ScalarsError.variable_not_found name)
          else get_value name m)
  unfolding get_value
  next-visibility name m n row e le b = elim (Bool-cases ((row.0).depth == m.current_depth)) [
    | inl d ↦ rw (sym (next_started m n b), e, d, hidden m row (ground (arith, d))) refl
    | inr d ↦ rw (sym (next_started m n b), e, d, shown m row (ground (arith, d, le))) refl
  ]
