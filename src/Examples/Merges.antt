-- ===== src/Examples/Merges.antt =====
-- Merges of call and canon results, and moves of a slider.
use aquavm.Prelude.{◌≡◌, ◌⊎◌, ◌↔◌, refl, arith, [], ◌∷◌, done, fail, ok, length, take, drop}
use aquavm.Data.{ValueRef, CallResult, Sender, CanonResult, ExecutedState, ExecutionTrace}
use aquavm.Slider.{TraceSlider, next_state, set_position_and_len}
use aquavm.Slider.Bounds.{IsWithin, next_state-IsWithin}
use aquavm.Slider.Window.{
  Yields, collect, positioned, next_state-Yields, set_position_and_len-collect,
}
use aquavm.Keeper.{DataKeeper}
use aquavm.Keeper.Table.{Table, table}
use aquavm.Merger.{PreparationScheme, CanonResultError, prepare_positions_mapping}
use aquavm.Merger.Mapping.{Sourced, KeepsTraces, prepare_positions_mapping-Sourced}
use aquavm.Merger.Call.{merge_call_results}
use aquavm.Merger.Call.Join.{
  Below, Same, merge_call_results-done_iff, merge_call_results-least, merge_call_results_comm,
  merge_call_results_assoc,
}
use aquavm.Merger.Canon.{merge_canon_results}
use aquavm.Merger.Canon.Join.{Clash, IsExecuted, merge_canon_results-cases}

abbrev request : CallResult
request = CallResult.request_sent_by (Sender.peer_id "peer")

abbrev answer : CallResult
answer = CallResult.executed (ValueRef.stream "cid" 3)

abbrev late_answer : CallResult
late_answer = CallResult.executed (ValueRef.stream "cid" 5)

merge_request-answer : merge_call_results request answer ≡ done (answer, PreparationScheme.current)
unfolding merge_call_results
merge_request-answer = refl

answer_late : merge_call_results answer late_answer ≡ done (answer, PreparationScheme.both)
unfolding merge_call_results
answer_late = refl

merge_call_results-done_iff_example :
    ((r : CallResult × PreparationScheme) × (merge_call_results request answer ≡ done r))
    ↔ ((c : CallResult) × Below request c × Below answer c)
merge_call_results-done_iff_example = merge_call_results-done_iff request answer

merge_call_results-least_example :
    Below answer answer
    × Below late_answer answer
    × ((answer ≡ answer) ⊎ (answer ≡ late_answer))
    × ((d : CallResult) → Below answer d → Below late_answer d → Below answer d)
merge_call_results-least_example =
    merge_call_results-least answer late_answer answer PreparationScheme.both answer_late

merge_call_results_comm_example :
    (d : CallResult) × (t : PreparationScheme) × (merge_call_results late_answer answer
      ≡ done (d, t))
    × Same answer d
merge_call_results_comm_example =
    merge_call_results_comm answer late_answer answer PreparationScheme.both answer_late

merge_call_results_assoc_example :
    (bc r : CallResult) × (u v : PreparationScheme) × (merge_call_results answer late_answer
      ≡ done (bc, u))
    × (merge_call_results request bc ≡ done (r, v))
    × Same answer r
merge_call_results_assoc_example =
    merge_call_results_assoc request answer late_answer answer answer PreparationScheme.current
      PreparationScheme.both merge_request-answer answer_late

abbrev first_canon : CanonResult
first_canon = CanonResult.executed "one"

abbrev other_canon : CanonResult
other_canon = CanonResult.executed "two"

merge_canon_results-cases_example :
    (Clash first_canon other_canon
      × (merge_canon_results first_canon other_canon
          ≡ fail (CanonResultError.incompatible_state first_canon other_canon)))
    ⊎ ((¬ Clash first_canon other_canon)
        × (r : CanonResult) × (merge_canon_results first_canon other_canon ≡ done r)
        × ((r ≡ first_canon) ⊎ (r ≡ other_canon))
        × (IsExecuted first_canon → IsExecuted r)
        × (IsExecuted other_canon → IsExecuted r))
merge_canon_results-cases_example = merge_canon_results-cases first_canon other_canon

abbrev trace : ExecutionTrace
trace =
    ExecutedState.call request ∷ ExecutedState.call answer ∷ ExecutedState.canon first_canon ∷ []

abbrev slider : TraceSlider
slider = record { trace = trace; position = 0; subtrace_len = 3; seen_elements = 0 }

next_state-Yields_example : Yields slider (next_state slider)
next_state-Yields_example = next_state-Yields slider

next_state-IsWithin_example : IsWithin (next_state slider).1
next_state-IsWithin_example =
    next_state-IsWithin slider
      (record { seen = omega arith; fits = λ h. omega arith; short = omega arith })

moved_to : set_position_and_len 1 2 slider ≡ ok tt (positioned 1 2 slider)
unfolding set_position_and_len
moved_to = refl

set_position_and_len-collect_example :
    (collect 2 (positioned 1 2 slider) ≡ take 2 (drop 1 trace))
    × (length (collect 2 (positioned 1 2 slider)) ≡ 2)
    × (collect 3 (positioned 1 2 slider) ≡ collect 2 (positioned 1 2 slider))
set_position_and_len-collect_example = set_position_and_len-collect 1 2 slider moved_to

-- A keeper both of whose sliders have yielded two states.
abbrev keeper : DataKeeper Table
keeper = record {
  prev_ctx = record { slider = record slider { position = 2; seen_elements = 2 } };
  current_ctx = record { slider = record slider { position = 1; seen_elements = 1 } };
  new_to_prev_pos = table.empty;
  new_to_current_pos = table.empty;
  result_trace = ExecutedState.call request ∷ [];
}

prepare_positions_mapping-Sourced_example :
    (k' : DataKeeper Table) × (prepare_positions_mapping PreparationScheme.both keeper ≡ ok tt k')
    × Sourced PreparationScheme.both keeper k'
    × KeepsTraces keeper k'
prepare_positions_mapping-Sourced_example =
    prepare_positions_mapping-Sourced PreparationScheme.both keeper (omega arith, omega arith)
