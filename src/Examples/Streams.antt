-- ===== src/Examples/Streams.antt =====
-- Streams of positions, as values that know their states.
use aquavm.Prelude.{ℕ, ◌≡◌, refl, arith, [], ◌∷◌}
use aquavm.Data.{ExecutedState, CallResult, ValueRef}
use aquavm.Keeper.Table.{Table, table}
use aquavm.Handler.{TraceHandler}
use aquavm.Stream.{Stream, Generation, TracePosOperate, cursor}
use aquavm.Stream.Matrix.{ValuesMatrix, retained, slice_iter}
use aquavm.Stream.Adding.{AddsValue, add_value-Pushed}
use aquavm.Stream.Recursive.{Recursion}
use aquavm.Stream.Yields.{Folding, Goes, met_iteration_end-Goes, slice_iter-drop}

-- A value in the trace stands for itself.
instance abbrev place : TracePosOperate ℕ
place = record { get_trace_pos = λ v. v }

abbrev stream : Stream ℕ
stream = record {
  previous_values = record { values = [] ∷ (0 ∷ []) ∷ []; size = 1 };
  current_values = record { values = (2 ∷ []) ∷ []; size = 1 };
  new_values = record { values = []; size = 0 };
}

add_value-Pushed_example : AddsValue 5 (Generation.current 3) stream
add_value-Pushed_example =
    add_value-Pushed 5 (Generation.current 3) stream
      (record { previous = refl; current = refl; new = refl }) (omega arith) (omega arith)

abbrev ap_state : ExecutedState
ap_state = ExecutedState.ap (record { res_generations = 7 ∷ [] })

abbrev call_state : ExecutedState
call_state = ExecutedState.call (CallResult.executed (ValueRef.stream "cid" 9))

abbrev handler : TraceHandler Table
handler = record {
  data_keeper = record {
    prev_ctx = record {
      slider = record { trace = []; position = 0; subtrace_len = 0; seen_elements = 0 };
    };
    current_ctx = record {
      slider = record { trace = []; position = 0; subtrace_len = 0; seen_elements = 0 };
    };
    new_to_prev_pos = table.empty;
    new_to_current_pos = table.empty;
    result_trace = ap_state ∷ ap_state ∷ call_state ∷ [];
  };
  fsm_keeper = record { par_stack = []; fold_map = [] };
}

-- A fold that has opened a generation, in which the value 4 came in.
abbrev folded : Stream ℕ
folded = record {
  previous_values = record { values = (0 ∷ []) ∷ []; size = 1 };
  current_values = record { values = []; size = 0 };
  new_values = record { values = []; size = 0 };
}

abbrev grown : Stream ℕ
grown = record folded { new_values = record { values = (4 ∷ []) ∷ []; size = 1 } }

abbrev recursion : Recursion ℕ
recursion = record { cursor = cursor folded; stream = grown }

folding : Folding recursion folded [] [] (4 ∷ [])
unfolding retained
folding = record {
  at_cursor = refl;
  full = record { previous = refl; current = refl; new = refl };
  full_previous = refl;
  full_current = refl;
  extends = record { previous = refl; current = refl; new = refl };
}

met_iteration_end-Goes_example : Goes recursion [] [] (4 ∷ [])
met_iteration_end-Goes_example = met_iteration_end-Goes recursion folded [] [] (4 ∷ []) folding

-- One of three generations below the cursor is empty, so the first that was added is skipped.
abbrev gapped : ValuesMatrix ℕ
gapped = record { values = (0 ∷ []) ∷ [] ∷ (1 ∷ []) ∷ (2 ∷ []) ∷ (3 ∷ []) ∷ []; size = 4 }

slice_iter-drop_example : slice_iter 3 gapped ≡ (3 ∷ []) ∷ []
unfolding retained
slice_iter-drop_example =
    slice_iter-drop gapped ((0 ∷ []) ∷ [] ∷ (1 ∷ []) ∷ []) ((2 ∷ []) ∷ (3 ∷ []) ∷ []) refl
