-- ===== src/Stream/Matrix.antt =====
-- air/src/execution_step/value_types/stream/values_matrix.rs: the values of a stream by
-- generations. `NewValuesMatrix` is a matrix to whose last generation new values go.
use aquavm.Prelude.{
  ℕ, zero, suc, ◌-◌, Bool, true, false, Option, none, some, List, [], ◌∷◌, ◌++◌, length, drop, ltb,
  checked_add, if◌then◌else◌, Exec, ok, ◌>>=◌, ◌>>◌, or_panic, modify,
}
use aquavm.Data.{GenerationIdx}

pub record ValuesMatrix (T : Type 0) : Type 0 where
  pub values : List (List T)
  pub size : ℕ

module _ {T : Type 0} where
  abbrev pub new : ValuesMatrix T
  new = record { values = []; size = 0 }

  -- The generations that are not empty, in their order.
  unfoldable pub retained : List (List T) → List (List T)
  retained [] = []
  retained ([] ∷ gs) = retained gs
  retained ((x ∷ xs) ∷ gs) = (x ∷ xs) ∷ retained gs

  unfoldable pub remove_empty_generations : ValuesMatrix T → ValuesMatrix T
  unfolding retained
  remove_empty_generations m = record m { values = retained m.values }

  abbrev pub generations_count : ValuesMatrix T → GenerationIdx
  generations_count m = length m.values

  abbrev pub concat : List (List T) → List T
  concat [] = []
  concat (g ∷ gs) = g ++ concat gs

  -- The values in the order of the iterator.
  abbrev pub iter : ValuesMatrix T → List T
  iter m = concat m.values

  unfoldable pub slice_iter : GenerationIdx → ValuesMatrix T → List (List T)
  unfolding retained
  slice_iter skip m = drop skip (retained m.values)

  -- `Vec::resize` with empty generations.
  abbrev pub resize : ℕ → List (List T) → List (List T)
  resize zero gs = []
  resize (suc n) [] = [] ∷ resize n []
  resize (suc n) (g ∷ gs) = g ∷ resize n gs

  -- `values[i].push(value)`: `none` is the panic out of bounds.
  abbrev pub push_at : List (List T) → ℕ → T → Option (List (List T))
  push_at [] i v = none
  push_at (g ∷ gs) zero v = some ((g ++ v ∷ []) ∷ gs)
  push_at (g ∷ gs) (suc i) v = elim (push_at gs i v) [ none ↦ none | some gs' ↦ some (g ∷ gs') ]

  -- The resize under the guard `generation_idx >= self.values.len()`.
  make_room : {E : Type 0} → GenerationIdx → Exec (ValuesMatrix T) E (Unit {0})
  make_room g m =
      if ltb g (length m.values)
      then ok tt m
      else (do
        n ← or_panic (checked_add g 1)
        modify (λ m. record m { values = resize n m.values }))
          m

  unfoldable pub add_value_to_generation :
      {E : Type 0} → T → GenerationIdx → Exec (ValuesMatrix T) E (Unit {0})
  unfolding make_room
  add_value_to_generation v g = do
    make_room g
    gs ← λ m. or_panic (push_at m.values g v) m
    modify (λ m. record m { values = gs })
    n ← λ m. or_panic (checked_add m.size 1) m
    modify (λ m. record m { size = n })

  unfoldable pub add_new_empty_generation : ValuesMatrix T → ValuesMatrix T
  add_new_empty_generation m = record m { values = m.values ++ [] ∷ [] }

  abbrev pub pop : List (List T) → List (List T)
  pop [] = []
  pop (g ∷ []) = []
  pop (g ∷ h ∷ gs) = g ∷ pop (h ∷ gs)

  unfoldable pub remove_last_generation : ValuesMatrix T → ValuesMatrix T
  remove_last_generation m = record m { values = pop m.values }

  abbrev pub is_empty : List T → Bool
  is_empty [] = true
  is_empty (x ∷ xs) = false

  abbrev pub last_is_empty : List (List T) → Bool
  last_is_empty [] = true
  last_is_empty (g ∷ []) = is_empty g
  last_is_empty (g ∷ h ∷ gs) = last_is_empty (h ∷ gs)

  unfoldable pub last_generation_is_empty : ValuesMatrix T → Bool
  last_generation_is_empty m = last_is_empty m.values

  -- The index of the last generation, or 0.
  unfoldable pub last_non_empty_generation_idx : ValuesMatrix T → GenerationIdx
  last_non_empty_generation_idx m = length m.values - 1

  unfoldable pub add_to_last_generation : {E : Type 0} → T → Exec (ValuesMatrix T) E (Unit {0})
  unfolding last_non_empty_generation_idx add_value_to_generation
  add_to_last_generation v m = add_value_to_generation v (last_non_empty_generation_idx m) m
