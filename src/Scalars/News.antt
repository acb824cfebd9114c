-- ===== src/Scalars/News.antt =====
-- air/src/execution_step/execution_context/scalar_variables.rs: `new` in one of the three matrices.
use aquavm.Prelude.{String, ◌≡◌, refl, Exec, ok, zoom}
use aquavm.SparseMatrix.{NonEmptyVec, SparseCell, ScalarsError}
use aquavm.SparseMatrix.Ends.{new_scope}
use aquavm.Scalars.{Scalars, on_variables, on_canon_streams, on_canon_maps}
use aquavm.Scalars
use aquavm.Scalars.Scopes.{AreScoped, AreWithin}

module _ {V C M F : Type 0} ⦃values : NonEmptyVec (SparseCell V)⦄
    ⦃streams : NonEmptyVec (SparseCell C)⦄ ⦃maps : NonEmptyVec (SparseCell M)⦄ where
  -- `new` over the scalars of one kind: what it restricts is as before when it ends.
  abbrev pub NewEnds :
      (Scalars V C M F → Scalars V C M F)
      → Exec (Scalars V C M F) ScalarsError (Unit {0})
      → Scalars V C M F
      → Type 0
  NewEnds start_of end_of s =
      AreScoped (start_of s)
      × ((end : Scalars V C M F)
          → AreWithin (start_of s) end
          → (n : Scalars V C M F) × (end_of end ≡ ok tt n) × AreWithin s n)

  pub new_scalar-NewEnds :
      (name : String) (s : Scalars V C M F)
      → AreScoped s
      → NewEnds (Scalars.meet_new_start_scalar name) (Scalars.meet_new_end_scalar name) s
  unfolding Scalars.meet_new_start_scalar Scalars.meet_new_end_scalar
  new_scalar-NewEnds name s h =
      let scope = new_scope name s.non_iterable_variables h.variables in
      (
        record { variables = scope.0; streams = h.streams; maps = h.maps },
        λ end w.
            let ended = scope.1 end.non_iterable_variables w.variables in
            (
              record end { non_iterable_variables = ended.0 },
              rw (zoom, ended.1) refl,
              record { variables = ended.2; streams = w.streams; maps = w.maps },
            ),
      )

  pub new_canon_stream-NewEnds :
      (name : String) (s : Scalars V C M F)
      → AreScoped s
      → NewEnds
          (Scalars.meet_new_start_canon_stream name)
          (Scalars.meet_new_end_canon_stream name)
          s
  unfolding Scalars.meet_new_start_canon_stream Scalars.meet_new_end_canon_stream
  new_canon_stream-NewEnds name s h =
      let scope = new_scope name s.canon_streams h.streams in
      (
        record { variables = h.variables; streams = scope.0; maps = h.maps },
        λ end w.
            let ended = scope.1 end.canon_streams w.streams in
            (
              record end { canon_streams = ended.0 },
              rw (zoom, ended.1) refl,
              record { variables = w.variables; streams = ended.2; maps = w.maps },
            ),
      )

  pub new_canon_map-NewEnds :
      (name : String) (s : Scalars V C M F)
      → AreScoped s
      → NewEnds
          (Scalars.meet_new_start_canon_stream_map name)
          (Scalars.meet_new_end_canon_stream_map name)
          s
  unfolding Scalars.meet_new_start_canon_stream_map Scalars.meet_new_end_canon_stream_map
  new_canon_map-NewEnds name s h =
      let scope = new_scope name s.canon_maps h.maps in
      (
        record { variables = h.variables; streams = h.streams; maps = scope.0 },
        λ end w.
            let ended = scope.1 end.canon_maps w.maps in
            (
              record end { canon_maps = ended.0 },
              rw (zoom, ended.1) refl,
              record { variables = w.variables; streams = w.streams; maps = ended.2 },
            ),
      )
