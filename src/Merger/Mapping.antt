-- ===== src/Merger/Mapping.antt =====
-- `prepare_positions_mapping`, by the scheme.
use aquavm.Prelude.{◌-◌, ◌<◌, ◌≡◌, refl, ◌∙◌, arith, some, ==-refl, ok, length}
use aquavm.Data.{TracePos}
use aquavm.Keeper.{BiHashMap, DataKeeper, prev_slider, current_slider, result_trace_next_pos}
use aquavm.Merger.{PreparationScheme, prepare_positions_mapping, map_to_prev, map_to_current}

-- The sliders that the scheme names have left the start of their traces.
abbrev pub Consumed : {B : Type 0} → PreparationScheme → DataKeeper B → Type 0
Consumed PreparationScheme.previous k = 0 < (prev_slider k).position
Consumed PreparationScheme.current k = 0 < (current_slider k).position
Consumed PreparationScheme.both k =
    (0 < (prev_slider k).position) × (0 < (current_slider k).position)

-- All but the two maps of positions.
pub record KeepsTraces {B : Type 0} (k k' : DataKeeper B) : Type 0 where
  pub prev_ctx : k'.prev_ctx ≡ k.prev_ctx
  pub current_ctx : k'.current_ctx ≡ k.current_ctx
  pub result_trace : k'.result_trace ≡ k.result_trace

module _ {B : Type 0} ⦃bimap : BiHashMap B⦄ where
  -- The map of the scheme's sliders, as an exact change of the keeper.
  pub mapped : PreparationScheme → DataKeeper B → DataKeeper B
  mapped PreparationScheme.previous k =
      map_to_prev (result_trace_next_pos k) (prev_slider k).position k
  mapped PreparationScheme.current k =
      map_to_current (result_trace_next_pos k) (current_slider k).position k
  mapped PreparationScheme.both k =
      map_to_current (result_trace_next_pos k) (current_slider k).position
        (map_to_prev (result_trace_next_pos k) (prev_slider k).position k)

  pub prepare_positions_mapping-mapped :
      (scheme : PreparationScheme) (k : DataKeeper B)
      → Consumed scheme k
      → prepare_positions_mapping scheme k ≡ ok tt (mapped scheme k)
  unfolding prepare_positions_mapping mapped
  prepare_positions_mapping-mapped PreparationScheme.previous k h = ground arith
  prepare_positions_mapping-mapped PreparationScheme.current k h = ground arith
  prepare_positions_mapping-mapped PreparationScheme.both k h = ground arith

  pub mapped-KeepsTraces :
      (scheme : PreparationScheme) (k : DataKeeper B) → KeepsTraces k (mapped scheme k)
  unfolding mapped map_to_prev map_to_current
  mapped-KeepsTraces PreparationScheme.previous k = record {
    prev_ctx = refl;
    current_ctx = refl;
    result_trace = refl;
  }
  mapped-KeepsTraces PreparationScheme.current k = record {
    prev_ctx = refl;
    current_ctx = refl;
    result_trace = refl;
  }
  mapped-KeepsTraces PreparationScheme.both k = record {
    prev_ctx = refl;
    current_ctx = refl;
    result_trace = refl;
  }

  -- What the maps say of the next position of the result trace.
  abbrev pub Sourced : PreparationScheme → DataKeeper B → DataKeeper B → Type 0
  Sourced PreparationScheme.previous k k' =
      (bimap.get_by_left (length k.result_trace) k'.new_to_prev_pos
        ≡ some ((prev_slider k).position - 1))
      × (k'.new_to_current_pos ≡ k.new_to_current_pos)
  Sourced PreparationScheme.current k k' =
      (bimap.get_by_left (length k.result_trace) k'.new_to_current_pos
        ≡ some ((current_slider k).position - 1))
      × (k'.new_to_prev_pos ≡ k.new_to_prev_pos)
  Sourced PreparationScheme.both k k' =
      (bimap.get_by_left (length k.result_trace) k'.new_to_prev_pos
        ≡ some ((prev_slider k).position - 1))
      × (bimap.get_by_left (length k.result_trace) k'.new_to_current_pos
          ≡ some ((current_slider k).position - 1))

  get-insert_self : (l r : TracePos) (m : B) → bimap.get_by_left l (bimap.insert l r m) ≡ some r
  get-insert_self l r m = bimap.get_by_left-insert l r l m ∙ rw (==-refl l)

  pub mapped-Sourced :
      (scheme : PreparationScheme) (k : DataKeeper B) → Sourced scheme k (mapped scheme k)
  unfolding mapped map_to_prev map_to_current
  mapped-Sourced PreparationScheme.previous k = (get-insert_self _ _ _, refl)
  mapped-Sourced PreparationScheme.current k = (get-insert_self _ _ _, refl)
  mapped-Sourced PreparationScheme.both k = (get-insert_self _ _ _, get-insert_self _ _ _)

  -- The mapping of the next position succeeds where the sliders of the scheme have left the
  -- start of their traces. It then points to the states that they have passed last, and changes
  -- nothing but the maps.
  pub prepare_positions_mapping-Sourced :
      (scheme : PreparationScheme) (k : DataKeeper B)
      → Consumed scheme k
      → (k' : DataKeeper B) × (prepare_positions_mapping scheme k ≡ ok tt k')
        × Sourced scheme k k'
        × KeepsTraces k k'
  prepare_positions_mapping-Sourced scheme k h = (
    mapped scheme k,
    prepare_positions_mapping-mapped scheme k h,
    mapped-Sourced scheme k,
    mapped-KeepsTraces scheme k,
  )
