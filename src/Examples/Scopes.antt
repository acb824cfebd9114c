-- ===== src/Examples/Scopes.antt =====
-- A matrix with a global value, and scopes around it.
use aquavm.Prelude.{ℕ, ◌≡◌, ◌⊎◌, refl, arith, [], ◌∷◌, none, some, ok, false, leb, fail}
use aquavm.SparseMatrix.{
  NonEmptyVec, SparseCell, ValuesSparseMatrix, ScalarsError, meet_next_before, meet_fold_start,
  meet_new_start, meet_new_end, meet_fold_end, meet_next_after, get_value, set_value, set_key,
  insert_depth, remove_depth,
}
use aquavm.SparseMatrix.Popping.{popping}
use aquavm.SparseMatrix.Ends.{set_key-IsScoped}
use aquavm.SparseMatrix.Scopes.{IsScoped, IsWithin, IsWithin-refl, set_value-IsWithin}
use aquavm.SparseMatrix.Restores.{
  meet_fold_end-restores, meet_next_after-restores, meet_new_end-restores,
}
use aquavm.SparseMatrix.Access.{IsTaken, IsRefused, set_value-outcomes, next-visibility}
use aquavm.Keeper.Table.{Table, table}
use aquavm.Stream.{Stream, Generation, empty, TracePosOperate, add_value}
use aquavm.Streams.{
  Streams, Span, StreamValueDescriptor, meet_scope_start, meet_scope_end, get, contains_position,
}
use aquavm.Streams.Restricted.{add_all, add_all_values, compacted_away, restricted_scope}
use aquavm.Handler.{TraceHandler}

instance abbrev vec : NonEmptyVec (SparseCell ℕ)
vec = popping

abbrev global_cell : SparseCell ℕ
global_cell = record { depth = 0; value = some 5 }

abbrev local_cell : SparseCell ℕ
local_cell = record { depth = 1; value = some 7 }

-- Inside a fold, with a global variable and a local one.
abbrev blank : ValuesSparseMatrix ℕ
blank = record { cells = λ name. none; allowed_depths = λ depth. leb depth 1; current_depth = 1 }

abbrev with_global : ValuesSparseMatrix ℕ
with_global = record blank { cells = set_key "x" (some (global_cell, [])) blank.cells }

abbrev matrix : ValuesSparseMatrix ℕ
matrix = record with_global { cells = set_key "y" (some (local_cell, [])) with_global.cells }

blank-IsScoped : IsScoped blank
blank-IsScoped = record { heads = λ name. tt; here = refl; above = λ depth lt. ground arith }

matrix-IsScoped : IsScoped matrix
matrix-IsScoped =
    set_key-IsScoped "y" (some (local_cell, [])) with_global (omega arith)
      (set_key-IsScoped "x" (some (global_cell, [])) blank (omega arith) blank-IsScoped)

abbrev in_fold : ValuesSparseMatrix ℕ
in_fold = record matrix { current_depth = 2; allowed_depths = insert_depth 2 matrix.allowed_depths }

started_fold : meet_fold_start matrix ≡ ok tt in_fold
unfolding meet_fold_start
started_fold = refl

-- What stands in a scope after a variable was set in it.
abbrev written : ValuesSparseMatrix ℕ → ValuesSparseMatrix ℕ
written m = record m {
  cells = set_key "z" (some (record { depth = m.current_depth; value = some 8 }, [])) m.cells;
}

set_in_fold : set_value "z" 8 in_fold ≡ ok false (written in_fold)
unfolding set_value
set_in_fold = refl

in_fold-IsScoped : IsScoped in_fold
in_fold-IsScoped =
    (meet_fold_end-restores matrix in_fold in_fold matrix-IsScoped started_fold
      (IsWithin-refl in_fold)).0

meet_fold_end-restores_example : IsScoped in_fold × (meet_fold_end (written in_fold) ≡ ok tt matrix)
meet_fold_end-restores_example =
    meet_fold_end-restores matrix in_fold (written in_fold) matrix-IsScoped started_fold
      (set_value-IsWithin "z" 8 in_fold in_fold-IsScoped false (written in_fold) set_in_fold)

abbrev next_matrix : ValuesSparseMatrix ℕ
next_matrix = record matrix {
  current_depth = 2;
  allowed_depths = insert_depth 2 (remove_depth 1 matrix.allowed_depths);
}

started : meet_next_before matrix ≡ ok tt next_matrix
unfolding meet_next_before
started = refl

next_matrix-IsScoped : IsScoped next_matrix
next_matrix-IsScoped =
    (meet_next_after-restores matrix next_matrix next_matrix matrix-IsScoped started
      (IsWithin-refl next_matrix)).0

set_in_next : set_value "z" 8 next_matrix ≡ ok false (written next_matrix)
unfolding set_value
set_in_next = refl

meet_next_after-restores_example :
    IsScoped next_matrix × (meet_next_after (written next_matrix) ≡ ok tt matrix)
meet_next_after-restores_example =
    meet_next_after-restores matrix next_matrix (written next_matrix) matrix-IsScoped started (
      set_value-IsWithin "z" 8 next_matrix next_matrix-IsScoped false (written next_matrix)
        set_in_next)

abbrev in_new : ValuesSparseMatrix ℕ
in_new = meet_new_start "y" matrix

in_new-IsScoped : IsScoped in_new
in_new-IsScoped = (meet_new_end-restores "y" matrix in_new matrix-IsScoped (IsWithin-refl in_new)).0

set_in_new : set_value "z" 8 in_new ≡ ok false (written in_new)
unfolding set_value meet_new_start
set_in_new = refl

meet_new_end-restores_example :
    IsScoped (meet_new_start "y" matrix)
    × ((n : ValuesSparseMatrix ℕ) × (meet_new_end "y" (written in_new) ≡ ok tt n)
        × IsWithin matrix n
        × (n.cells "y" ≡ matrix.cells "y"))
meet_new_end-restores_example =
    meet_new_end-restores "y" matrix (written in_new) matrix-IsScoped
      (set_value-IsWithin "z" 8 in_new in_new-IsScoped false (written in_new) set_in_new)

set_value-outcomes_example : IsTaken "x" 9 matrix ⊎ IsRefused "x" 9 matrix
set_value-outcomes_example = set_value-outcomes "x" 9 matrix matrix-IsScoped

next-visibility_example : get_value "y" next_matrix ≡ fail (ScalarsError.variable_not_found "y")
next-visibility_example =
    next-visibility "y" matrix next_matrix (local_cell, []) refl (omega arith) started

-- A stream of positions that is restricted to a span, with one value.
instance abbrev place : TracePosOperate ℕ
place = record { get_trace_pos = λ v. v }

abbrev span : Span
span = record { left = 10; right = 20 }

abbrev value : StreamValueDescriptor ℕ
value = record { value = 3; name = "$s"; generation = Generation.fresh; position = 15 }

abbrev no_streams : Streams ℕ
no_streams = record { streams = λ name. none }

abbrev stream : Stream ℕ
stream = record empty { new_values = record { values = (3 ∷ []) ∷ []; size = 1 } }

abbrev trace : TraceHandler Table
trace = record {
  data_keeper = record {
    prev_ctx = record {
      slider = record { trace = []; position = 0; subtrace_len = 0; seen_elements = 0 };
    };
    current_ctx = record {
      slider = record { trace = []; position = 0; subtrace_len = 0; seen_elements = 0 };
    };
    new_to_prev_pos = table.empty;
    new_to_current_pos = table.empty;
    result_trace = [];
  };
  fsm_keeper = record { par_stack = []; fold_map = [] };
}

added : add_all_values (value ∷ []) empty ≡ ok tt stream
unfolding add_all_values add_value
added = refl

restricted_scope_example :
    (inside : Streams ℕ) × (add_all (value ∷ []) (meet_scope_start "$s" span no_streams)
      ≡ ok tt inside)
    × (get "$s" 12 inside ≡ some stream)
    × (meet_scope_end "$s" (record { streams = inside; trace = trace })
        ≡ compacted_away no_streams stream trace)
unfolding contains_position
restricted_scope_example =
    restricted_scope "$s" span no_streams (value ∷ []) stream trace 12 refl (refl, refl, tt) added
      refl
