-- ===== src/Stream/Compact.antt =====
-- The compaction of a stream: which generation each state of the trace gets.
pub mod Updates
use aquavm.Prelude.{
  zero, ◌+◌, ◌≡◌, refl, ap, List, [], ◌∷◌, ◌++◌, map, append-nil, length, get_elem?, checked_add,
  Run, Exec, err, panic, continue, ◌>>=◌, ◌>>◌, pure, or_panic,
}
use aquavm.Data.{TracePos, GenerationIdx, ExecutionTrace}
use aquavm.Stream.{Stream, TracePosOperate, compacted, stream_iter, stream_slices}
use aquavm.Stream.Recursive.{empty_cursor}
use aquavm.Stream.Matrix.{ValuesMatrix, retained, concat, remove_empty_generations}
use Updates.{AllRegenerated, Apart, Updated}

module _ {T : Type 0} where
  abbrev labelled : GenerationIdx → List T → List (T × GenerationIdx)
  labelled g [] = []
  labelled g (v ∷ vs) = (v, g) ∷ labelled g vs

  -- Each value with the number of its slice, from `n` on.
  abbrev pub numbered : GenerationIdx → List (List T) → List (T × GenerationIdx)
  numbered n [] = []
  numbered n (vs ∷ slices) = labelled n vs ++ numbered (n + 1) slices

  concat-retained : (gs : List (List T)) → concat (retained gs) ≡ concat gs
  unfolding retained
  concat-retained [] = refl
  concat-retained ([] ∷ gs) = concat-retained gs
  concat-retained ((x ∷ xs) ∷ gs) = ap (λ (t : List T). x ∷ (xs ++ t)) (concat-retained gs)

  -- The generations that have values: those of the previous data, of the current data, the new ones.
  abbrev pub generations : Stream T → List (List T)
  generations s =
      retained s.previous_values.values
      ++ (retained s.current_values.values ++ retained s.new_values.values)

  pub compacted-iter : (s : Stream T) → stream_iter (compacted s) ≡ stream_iter s
  unfolding remove_empty_generations
  compacted-iter s =
      rw
        (
          concat-retained s.previous_values.values,
          concat-retained s.current_values.values,
          concat-retained s.new_values.values,
        )
        refl

module _ {T : Type 0} ⦃place : TracePosOperate T⦄ where
  -- What compaction makes of the stream and of the trace.
  pub record Compacted (s s' : Stream T) (t t' : ExecutionTrace) : Type 0 where
    pub slices : stream_slices empty_cursor s' ≡ generations s
    pub values : stream_iter s' ≡ stream_iter s
    pub states : AllRegenerated t t' (numbered 0 (generations s))
    pub others : (pos : TracePos) → Apart pos (stream_iter s) → get_elem? t' pos ≡ get_elem? t pos
    pub same_length : length t' ≡ length t
