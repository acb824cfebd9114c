-- ===== src/Stream/Adding.antt =====
-- What adding a value does to a stream, and the limit on the values of a stream.
use aquavm.Prelude.{
  ℕ, suc, ◌+◌, ◌-◌, ◌<◌, ◌≡◌, refl, arith, length, ltb, lt→ltb, u32_mod, if◌then◌else◌, ok, err,
  zoom,
}
use aquavm.Data.{GenerationIdx}
use aquavm.Stream.{
  Stream, Generation, UncatchableError, stream_max_size, add_value, check_stream_size_limit,
}
use aquavm.Stream.Matrix.{ValuesMatrix, add_to_last_generation, last_non_empty_generation_idx}
use aquavm.Stream.Pushing.{Pushed, IsCounted, add_value_to_generation-Pushed}

module _ {T : Type 0} where
  -- The values of a stream, all counters right.
  pub record IsCountedStream (s : Stream T) : Type 0 where
    pub previous : IsCounted s.previous_values
    pub current : IsCounted s.current_values
    pub new : IsCounted s.new_values

  abbrev pub total : Stream T → ℕ
  total s = s.previous_values.size + s.current_values.size + s.new_values.size

  -- The matrix of a generation and the index in it.
  abbrev pub matrix_of : Generation → Stream T → ValuesMatrix T
  matrix_of (Generation.previous g) s = s.previous_values
  matrix_of (Generation.current g) s = s.current_values
  matrix_of Generation.fresh s = s.new_values

  abbrev pub index_in : Generation → Stream T → GenerationIdx
  index_in (Generation.previous g) s = g
  index_in (Generation.current g) s = g
  index_in Generation.fresh s = length s.new_values.values - 1

  limit :
      (s : Stream T) (n : ℕ)
      → total s ≡ n
      → n < u32_mod
      → check_stream_size_limit s ≡ (
          if ltb n stream_max_size
          then ok tt s
          else err UncatchableError.stream_size_limit_exceeded s)
  unfolding check_stream_size_limit
  limit s n e h =
      rw (lt→ltb (s.previous_values.size + s.current_values.size) u32_mod (omega arith))
        (rw e (rw (lt→ltb n u32_mod h) refl))

  abbrev pub AddsValue : T → Generation → Stream T → Type 0
  AddsValue v g s =
      (s' : Stream T) × (add_value v g s ≡ (
        if ltb (suc (total s)) stream_max_size
        then ok tt s'
        else err UncatchableError.stream_size_limit_exceeded s'))
      × IsCountedStream s'
      × (total s' ≡ suc (total s))
      × Pushed v (index_in g s) (matrix_of g s).values (matrix_of g s').values

  -- Where the counters of a stream are right, and its size and the index of the generation are
  -- not at the end of u32, adding a value puts it behind the values of its generation in one
  -- matrix, and changes no other generation there. The counters stay right, and the call fails,
  -- with the value added, exactly if the stream then has 1024 values or more.
  pub add_value-Pushed :
      (v : T) (g : Generation) (s : Stream T)
      → IsCountedStream s
      → suc (index_in g s) < u32_mod
      → suc (total s) < u32_mod
      → AddsValue v g s
  unfolding add_value add_to_last_generation last_non_empty_generation_idx
  add_value-Pushed v (Generation.previous g) s c hg hs =
      let (m, e, k, n, p) =
        add_value_to_generation-Pushed {E = UncatchableError} v g s.previous_values c.previous hg
          (omega arith) in
      let s' : Stream T = record s { previous_values = m } in
      (
        s',
        rw (e, zoom) (limit s' (suc (total s)) (omega arith) hs),
        record { previous = k; current = c.current; new = c.new },
        omega arith,
        p,
      )
  add_value-Pushed v (Generation.current g) s c hg hs =
      let (m, e, k, n, p) =
        add_value_to_generation-Pushed {E = UncatchableError} v g s.current_values c.current hg
          (omega arith) in
      let s' : Stream T = record s { current_values = m } in
      (
        s',
        rw (e, zoom) (limit s' (suc (total s)) (omega arith) hs),
        record { previous = c.previous; current = k; new = c.new },
        omega arith,
        p,
      )
  add_value-Pushed v Generation.fresh s c hg hs =
      let (m, e, k, n, p) =
        add_value_to_generation-Pushed {E = UncatchableError} v (length s.new_values.values - 1)
          s.new_values c.new hg (omega arith) in
      let s' : Stream T = record s { new_values = m } in
      (
        s',
        rw (e, zoom) (limit s' (suc (total s)) (omega arith) hs),
        record { previous = c.previous; current = c.current; new = k },
        omega arith,
        p,
      )
