-- ===== src/Scalars.antt =====
-- air/src/execution_step/execution_context/scalar_variables.rs: the scalars, the canonicalized
-- streams and maps, and the iterators of folds.
pub mod Scopes
pub mod Opens
pub mod News
pub mod Rooms
use aquavm.Prelude.{
  String, ◌≡◌, Option, none, some, Bool, ◌||◌, if◌then◌else◌, Result, done, fail, Run, Exec, ok,
  err, panic, ◌>>=◌, ◌>>◌, zoom, and_then,
}
use aquavm.SparseMatrix
use aquavm.SparseMatrix.{
  NameMap, set_key, NonEmptyVec, SparseCell, ScalarsError, ValuesSparseMatrix,
}

pub record Scalars (V C M F : Type 0) : Type 0 where
  pub non_iterable_variables : ValuesSparseMatrix V
  pub canon_streams : ValuesSparseMatrix C
  pub canon_maps : ValuesSparseMatrix M
  pub iterable_variables : NameMap F

pub data ScalarRef (V F : Type 0) : Type 0 where
  value : V → ScalarRef V F
  iterable_value : F → ScalarRef V F

initialized : {A : Type 0} → String → Option A → Result ScalarsError A
initialized name none = fail (ScalarsError.variable_was_not_initialized_after_new name)
initialized name (some v) = done v

-- The arms of `get_value`; the last one is `unreachable!`, a panic: `none`.
unfoldable pub scalar_ref :
    {V F : Type 0}
    → String
    → Result ScalarsError (Option V)
    → Option F
    → Option (Result ScalarsError (ScalarRef V F))
scalar_ref name (fail e) none = some (fail (ScalarsError.variable_not_found name))
scalar_ref name (done none) iterable =
    some (fail (ScalarsError.variable_was_not_initialized_after_new name))
scalar_ref name (done (some v)) none = some (done (ScalarRef.value v))
scalar_ref name (fail e) (some iterable) = some (done (ScalarRef.iterable_value iterable))
scalar_ref name (done (some v)) (some iterable) = none

module _ {V C M F : Type 0} where
  unfoldable pub new : Scalars V C M F
  unfolding SparseMatrix.new
  new = record {
    non_iterable_variables = SparseMatrix.new;
    canon_streams = SparseMatrix.new;
    canon_maps = SparseMatrix.new;
    iterable_variables = λ name. none;
  }

  abbrev pub on_variables :
      {A : Type 0}
      → Exec (ValuesSparseMatrix V) ScalarsError A
      → Exec (Scalars V C M F) ScalarsError A
  on_variables =
      zoom (λ s. s.non_iterable_variables) (λ m s. record s { non_iterable_variables = m })

  abbrev pub on_canon_streams :
      {A : Type 0}
      → Exec (ValuesSparseMatrix C) ScalarsError A
      → Exec (Scalars V C M F) ScalarsError A
  on_canon_streams = zoom (λ s. s.canon_streams) (λ m s. record s { canon_streams = m })

  abbrev pub on_canon_maps :
      {A : Type 0}
      → Exec (ValuesSparseMatrix M) ScalarsError A
      → Exec (Scalars V C M F) ScalarsError A
  on_canon_maps = zoom (λ s. s.canon_maps) (λ m s. record s { canon_maps = m })

  unfoldable pub set_scalar_value : String → V → Exec (Scalars V C M F) ScalarsError Bool
  set_scalar_value name v = on_variables (SparseMatrix.set_value name v)

  unfoldable pub set_canon_value : String → C → Exec (Scalars V C M F) ScalarsError Bool
  set_canon_value name v = on_canon_streams (SparseMatrix.set_value name v)

  unfoldable pub set_canon_map_value : String → M → Exec (Scalars V C M F) ScalarsError Bool
  set_canon_map_value name v = on_canon_maps (SparseMatrix.set_value name v)

  unfoldable pub set_iterable_value : String → F → Exec (Scalars V C M F) ScalarsError (Unit {0})
  set_iterable_value name fold_state s = elim (s.iterable_variables name) [
    | none ↦
        ok tt
          (record s { iterable_variables = set_key name (some fold_state) s.iterable_variables })
    | some old ↦ err (ScalarsError.multiple_iterable_values name) s
  ]

  unfoldable pub remove_iterable_value : String → Scalars V C M F → Scalars V C M F
  remove_iterable_value name s = record s {
    iterable_variables = set_key name none s.iterable_variables;
  }

  unfoldable pub get_non_iterable_scalar : String → Scalars V C M F → Result ScalarsError (Option V)
  get_non_iterable_scalar name s = SparseMatrix.get_value name s.non_iterable_variables

  -- `get_iterable_mut` finds the same fold state, to be changed by its caller.
  unfoldable pub get_iterable : String → Scalars V C M F → Result ScalarsError F
  get_iterable name s = elim (s.iterable_variables name) [
    | none ↦ fail (ScalarsError.fold_state_not_found name)
    | some fold_state ↦ done fold_state
  ]

  unfoldable pub get_canon_stream : String → Scalars V C M F → Result ScalarsError C
  unfolding initialized
  get_canon_stream name s =
      and_then (SparseMatrix.get_value name s.canon_streams) (initialized name)

  unfoldable pub get_canon_map : String → Scalars V C M F → Result ScalarsError M
  unfolding initialized
  get_canon_map name s = and_then (SparseMatrix.get_value name s.canon_maps) (initialized name)

  unfoldable pub get_value : String → Scalars V C M F → Option (Result ScalarsError (ScalarRef V F))
  unfolding scalar_ref get_non_iterable_scalar
  get_value name s = scalar_ref name (get_non_iterable_scalar name s) (s.iterable_variables name)

  unfoldable pub variable_could_be_set : String → Scalars V C M F → Bool
  variable_could_be_set name s =
      SparseMatrix.variable_could_be_set name s.non_iterable_variables
      || SparseMatrix.variable_could_be_set name s.canon_streams

  unfoldable pub meet_fold_start : Exec (Scalars V C M F) ScalarsError (Unit {0})
  meet_fold_start = do
    on_variables SparseMatrix.meet_fold_start
    on_canon_streams SparseMatrix.meet_fold_start
    on_canon_maps SparseMatrix.meet_fold_start

  unfoldable pub meet_next_before : Exec (Scalars V C M F) ScalarsError (Unit {0})
  meet_next_before = do
    on_variables SparseMatrix.meet_next_before
    on_canon_streams SparseMatrix.meet_next_before
    on_canon_maps SparseMatrix.meet_next_before

  unfoldable pub meet_new_start_scalar : String → Scalars V C M F → Scalars V C M F
  meet_new_start_scalar name s = record s {
    non_iterable_variables = SparseMatrix.meet_new_start name s.non_iterable_variables;
  }

  unfoldable pub meet_new_start_canon_stream : String → Scalars V C M F → Scalars V C M F
  meet_new_start_canon_stream name s = record s {
    canon_streams = SparseMatrix.meet_new_start name s.canon_streams;
  }

  unfoldable pub meet_new_start_canon_stream_map : String → Scalars V C M F → Scalars V C M F
  meet_new_start_canon_stream_map name s = record s {
    canon_maps = SparseMatrix.meet_new_start name s.canon_maps;
  }

module _ {V C M F : Type 0} ⦃values : NonEmptyVec (SparseCell V)⦄
    ⦃streams : NonEmptyVec (SparseCell C)⦄ ⦃maps : NonEmptyVec (SparseCell M)⦄ where
  unfoldable pub meet_next_after : Exec (Scalars V C M F) ScalarsError (Unit {0})
  meet_next_after = do
    on_variables SparseMatrix.meet_next_after
    on_canon_streams SparseMatrix.meet_next_after
    on_canon_maps SparseMatrix.meet_next_after

  unfoldable pub meet_fold_end : Exec (Scalars V C M F) ScalarsError (Unit {0})
  meet_fold_end = do
    on_variables SparseMatrix.meet_fold_end
    on_canon_streams SparseMatrix.meet_fold_end
    on_canon_maps SparseMatrix.meet_fold_end

  unfoldable pub meet_new_end_scalar : String → Exec (Scalars V C M F) ScalarsError (Unit {0})
  meet_new_end_scalar name = on_variables (SparseMatrix.meet_new_end name)

  unfoldable pub meet_new_end_canon_stream : String → Exec (Scalars V C M F) ScalarsError (Unit {0})
  meet_new_end_canon_stream name = on_canon_streams (SparseMatrix.meet_new_end name)

  unfoldable pub meet_new_end_canon_stream_map :
      String → Exec (Scalars V C M F) ScalarsError (Unit {0})
  meet_new_end_canon_stream_map name = on_canon_maps (SparseMatrix.meet_new_end name)
