-- ===== src/SparseMatrix.antt =====
-- air/src/execution_step/execution_context/scalar_variables/values_sparse_matrix.rs: the values of
-- the scalars, a row of cells for each name and a cell for each scope the name was set in.
pub mod Rows
pub mod Scopes
pub mod Ends
pub mod Access
pub mod Restores
pub mod Popping
use aquavm.Prelude.{
  ℕ, String, ◌+◌, ◌-◌, ◌<◌, ◌≡◌, Option, none, some, List, [], ◌∷◌, Bool, true, false, ◌||◌, not,
  ◌==◌, ltb, leb, if◌then◌else◌, str_eq, u32_mod, Run, Exec, ok, err, panic, Result, done, fail,
}

-- `HashMap<String, _>`, as the function that looks a name up.
abbrev pub NameMap {ℓ} : Type ℓ → Type ℓ
NameMap V = String → Option V

module _ {ℓ} {V : Type ℓ} where
  abbrev pub set_key : String → Option V → NameMap V → NameMap V
  set_key name entry names other = if str_eq name other then entry else names other

-- `HashSet<usize>`, as the test whether a depth is in it.
abbrev pub DepthSet : Type 0
DepthSet = ℕ → Bool

abbrev pub insert_depth : ℕ → DepthSet → DepthSet
insert_depth depth set other = depth == other || set other

abbrev pub remove_depth : ℕ → DepthSet → DepthSet
remove_depth depth set other = if depth == other then false else set other

-- `non_empty_vec::NonEmpty`: the last element, and the elements before it from the newest on.
abbrev pub NonEmpty : Type 0 → Type 0
NonEmpty A = A × List A

-- The one method of that crate that is not plain from the data: an element that is alone stays.
pub record NonEmptyVec (A : Type 0) : Type 0 where
  pub pop : NonEmpty A → Option A × NonEmpty A
  pub pop-alone : (a : A) → pop (a, []) ≡ (none, (a, []))
  pub pop-pushed : (a b : A) (rest : List A) → pop (a, b ∷ rest) ≡ (some a, (b, rest))

pub record SparseCell (V : Type 0) : Type 0 where
  pub depth : ℕ
  pub value : Option V

pub data ScalarsError : Type 0 where
  shadowing_is_not_allowed : String → ScalarsError
  scalars_state_corrupted : String → ℕ → ScalarsError
  multiple_iterable_values : String → ScalarsError
  fold_state_not_found : String → ScalarsError
  variable_not_found : String → ScalarsError
  variable_was_not_initialized_after_new : String → ScalarsError

abbrev pub Row : Type 0 → Type 0
Row V = NonEmpty (SparseCell V)

pub record ValuesSparseMatrix (V : Type 0) : Type 0 where
  pub cells : NameMap (Row V)
  pub allowed_depths : DepthSet
  pub current_depth : ℕ

abbrev pub global_depth : ℕ
global_depth = 0

module _ {V : Type 0} where
  unfoldable pub new : ValuesSparseMatrix V
  new = record {
    cells = λ name. none;
    allowed_depths = insert_depth global_depth (λ depth. false);
    current_depth = global_depth;
  }

  unfoldable pub from_value : ℕ → V → SparseCell V
  from_value depth value = record { depth = depth; value = some value }

  unfoldable pub from_met_new : ℕ → SparseCell V
  from_met_new depth = record { depth = depth; value = none }

  unfoldable pub shadowing_allowed : ValuesSparseMatrix V → Bool
  shadowing_allowed m = not (m.current_depth == 0)

  abbrev pub is_none : Option V → Bool
  is_none none = true
  is_none (some value) = false

  abbrev pub last_is_none : Option (Row V) → Bool
  last_is_none none = false
  last_is_none (some values) = is_none (values.0).value

  unfoldable pub variable_could_be_set : String → ValuesSparseMatrix V → Bool
  unfolding shadowing_allowed
  variable_could_be_set name m = if shadowing_allowed m then true else last_is_none (m.cells name)

  -- The arms of `self.cells.entry(name)` in `set_value`, the guard's value passed on.
  unfoldable pub set_entry :
      String → V → Bool → Option (Row V) → Exec (ValuesSparseMatrix V) ScalarsError Bool
  unfolding from_value
  set_entry name value could none m =
      ok false
        (record m { cells = set_key name (some (from_value m.current_depth value, [])) m.cells })
  set_entry name value could (some (last_cell, earlier)) m =
      if not could
      then err (ScalarsError.shadowing_is_not_allowed name) m
      else if last_cell.depth == m.current_depth
      then ok true (record m {
        cells = set_key name (some (record last_cell { value = some value }, earlier)) m.cells;
      })
      else ok false (record m {
        cells = set_key name (some (from_value m.current_depth value, last_cell ∷ earlier)) m.cells;
      })

  unfoldable pub set_value : String → V → Exec (ValuesSparseMatrix V) ScalarsError Bool
  unfolding set_entry variable_could_be_set
  set_value name value m = set_entry name value (variable_could_be_set name m) (m.cells name) m

  abbrev pub visible :
      String → ValuesSparseMatrix V → Option (Row V) → Result ScalarsError (Option V)
  visible name m none = fail (ScalarsError.variable_not_found name)
  visible name m (some values) =
      if m.allowed_depths ((values.0).depth)
      then done (values.0).value
      else fail (ScalarsError.variable_not_found name)

  unfoldable pub get_value : String → ValuesSparseMatrix V → Result ScalarsError (Option V)
  get_value name m = visible name m (m.cells name)

  -- The sum panics when it does not fit into `usize`.
  unfoldable pub meet_fold_start : Exec (ValuesSparseMatrix V) ScalarsError (Unit {0})
  meet_fold_start m =
      if leb u32_mod (m.current_depth + 1)
      then panic
      else ok tt (record m {
        current_depth = m.current_depth + 1;
        allowed_depths = insert_depth (m.current_depth + 1) m.allowed_depths;
      })

  unfoldable pub meet_next_before : Exec (ValuesSparseMatrix V) ScalarsError (Unit {0})
  meet_next_before m =
      if leb u32_mod (m.current_depth + 1)
      then panic
      else ok tt (record m {
        current_depth = m.current_depth + 1;
        allowed_depths =
            insert_depth (m.current_depth + 1) (remove_depth m.current_depth m.allowed_depths);
      })

  abbrev pub cells_of : Option (Row V) → List (SparseCell V)
  cells_of none = []
  cells_of (some (last_cell, earlier)) = last_cell ∷ earlier

  -- A vacant entry gets the new cell alone, an occupied one has it pushed.
  unfoldable pub meet_new_start : String → ValuesSparseMatrix V → ValuesSparseMatrix V
  unfolding from_met_new
  meet_new_start name m = record m {
    cells = set_key name (some (from_met_new m.current_depth, cells_of (m.cells name))) m.cells;
  }

unfoldable pub is_global_value : ℕ → Bool
is_global_value value_depth = value_depth == global_depth

unfoldable pub is_value_obsolete : ℕ → ℕ → Bool
is_value_obsolete value_depth current_scope_depth = ltb current_scope_depth value_depth

module _ {V : Type 0} ⦃vec : NonEmptyVec (SparseCell V)⦄ where
  abbrev pub kept_row : Option (SparseCell V) × Row V → Option (Row V)
  kept_row (none, values) = none
  kept_row (some popped, values) = some values

  -- What the two loops of `cleanup_obsolete_values` do to the row of one name.
  unfoldable pub cleanup_row : ℕ → Option (Row V) → Option (Row V)
  unfolding is_global_value is_value_obsolete
  cleanup_row current_depth none = none
  cleanup_row current_depth (some values) =
      if is_global_value ((values.0).depth)
        || not (is_value_obsolete ((values.0).depth) current_depth)
      then some values
      else kept_row (vec.pop values)

  unfoldable pub cleanup_obsolete_values : ValuesSparseMatrix V → ValuesSparseMatrix V
  unfolding cleanup_row
  cleanup_obsolete_values m = record m {
    cells = λ name. cleanup_row m.current_depth (m.cells name);
  }

  -- The difference panics at the global depth.
  unfoldable pub meet_next_after : Exec (ValuesSparseMatrix V) ScalarsError (Unit {0})
  unfolding cleanup_obsolete_values
  meet_next_after m =
      if m.current_depth == 0
      then panic
      else ok tt (
          cleanup_obsolete_values (record m {
            current_depth = m.current_depth - 1;
            allowed_depths =
                insert_depth (m.current_depth - 1) (remove_depth m.current_depth m.allowed_depths);
          }))

  unfoldable pub meet_fold_end : Exec (ValuesSparseMatrix V) ScalarsError (Unit {0})
  unfolding cleanup_obsolete_values
  meet_fold_end m =
      if m.current_depth == 0
      then panic
      else ok tt (
          cleanup_obsolete_values (record m {
            current_depth = m.current_depth - 1;
            allowed_depths = remove_depth m.current_depth m.allowed_depths;
          }))

  -- The arms of the match on `values.pop()`: whether the row goes, or `None` for an error.
  unfoldable pub popped_new : ℕ → Option (SparseCell V) × Row V → Option Bool
  popped_new current_depth (some value, values) =
      if value.depth == current_depth then some false else none
  popped_new current_depth (none, values) =
      if (values.0).depth == current_depth then some true else none

  -- On an error the row stays as `pop` left it.
  unfoldable pub end_new :
      String → Option Bool → Row V → Exec (ValuesSparseMatrix V) ScalarsError (Unit {0})
  end_new name none values m =
      err (ScalarsError.scalars_state_corrupted name m.current_depth)
        (record m { cells = set_key name (some values) m.cells })
  end_new name (some should_remove_values) values m = ok tt (record m {
    cells = set_key name (if should_remove_values then none else some values) m.cells;
  })

  unfoldable pub meet_new_end_row :
      String → Option (Row V) → Exec (ValuesSparseMatrix V) ScalarsError (Unit {0})
  unfolding end_new popped_new
  meet_new_end_row name none m = err (ScalarsError.scalars_state_corrupted name m.current_depth) m
  meet_new_end_row name (some values) m =
      end_new name (popped_new m.current_depth (vec.pop values)) ((vec.pop values).1) m

  unfoldable pub meet_new_end : String → Exec (ValuesSparseMatrix V) ScalarsError (Unit {0})
  unfolding meet_new_end_row
  meet_new_end name m = meet_new_end_row name (m.cells name) m
