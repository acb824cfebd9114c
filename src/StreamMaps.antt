-- ===== src/StreamMaps.antt =====
-- air/src/execution_step/execution_context/stream_maps_variables.rs, and the map of
-- air/src/execution_step/value_types/stream_map.rs: the stream maps by name, with the scopes that
-- `new` restricts them to.
use aquavm.Prelude.{
  ℕ, ◌-◌, String, Option, none, some, List, [], ◌∷◌, Bool, if◌then◌else◌, u32_mod, Exec, ok, err,
  panic, zoom,
}
use aquavm.SparseMatrix.{NameMap, set_key}
use aquavm.Handler.{TraceHandler}
use aquavm.Stream.{Stream, Generation, UncatchableError, empty, add_value, compactify}
use aquavm.Streams.{AirPos, Span, contains_position}
use aquavm.Values.{
  ValueAggregate, value_pos, get_result, get_tetraplet, get_trace_pos, get_provenance, Json,
}
use aquavm.Values

-- Signed keys by their sign and size.
pub data StreamMapKey : Type 0 where
  str : String → StreamMapKey
  u64 : ℕ → StreamMapKey
  i64 : Bool → ℕ → StreamMapKey

-- `from_key_value`: the JSON object of a key and a value.
pub record KeyValues (J : Type 0) : Type 0 where
  pub from_key_value : StreamMapKey → J → J

pub record StreamMap (J : Type 0) : Type 0 where
  pub stream : Stream (ValueAggregate J)

abbrev pub empty_map : {J : Type 0} → StreamMap J
empty_map = record { stream = empty }

module _ {J : Type 0} ⦃json : Json J⦄ ⦃pairs : KeyValues J⦄ where
  -- `StreamMap::insert`
  unfoldable pub insert_value :
      StreamMapKey → ValueAggregate J → Generation → Exec (StreamMap J) UncatchableError (Unit {0})
  unfolding add_value get_result get_tetraplet get_trace_pos get_provenance Values.new
  insert_value key value generation =
      zoom (λ m. m.stream) (λ s m. record { stream = s })
        (add_value
          (Values.new (pairs.from_key_value key (get_result value)) (get_tetraplet value)
            (get_trace_pos value) (get_provenance value))
          generation)

pub record StreamMapDescriptor (J : Type 0) : Type 0 where
  pub span : Span
  pub stream_map : StreamMap J

-- `usize::MAX` of wasm32 is the right end.
unfoldable pub global : {J : Type 0} → StreamMap J → StreamMapDescriptor J
global stream_map = record {
  span = record { left = 0; right = u32_mod - 1 };
  stream_map = stream_map;
}

unfoldable pub restricted : {J : Type 0} → StreamMap J → Span → StreamMapDescriptor J
restricted stream_map span = record { span = span; stream_map = stream_map }

-- The head of a list is the last descriptor of the vector.
abbrev pub StreamMapDescriptors : Type 0 → Type 0
StreamMapDescriptors J = List (StreamMapDescriptor J)

pub record StreamMapValueDescriptor (J : Type 0) : Type 0 where
  pub value : ValueAggregate J
  pub name : String
  pub generation : Generation
  pub position : AirPos

pub record StreamMaps (J : Type 0) : Type 0 where
  pub stream_maps : NameMap (StreamMapDescriptors J)

module _ {J : Type 0} where
  unfoldable pub new : StreamMaps J
  new = record { stream_maps = λ name. none }

  unfoldable pub find_closest : StreamMapDescriptors J → AirPos → Option (StreamMap J)
  unfolding contains_position
  find_closest [] position = none
  find_closest (d ∷ ds) position =
      if contains_position d.span position then some d.stream_map else find_closest ds position

  -- The same search, for a reference that the caller writes through.
  unfoldable pub find_closest_mut :
      StreamMapDescriptors J
      → AirPos
      → Option (StreamMap J × (StreamMap J → StreamMapDescriptors J))
  unfolding contains_position
  find_closest_mut [] position = none
  find_closest_mut (d ∷ ds) position =
      let rest = find_closest_mut ds position in
      if contains_position d.span position
      then some (d.stream_map, λ changed. record d { stream_map = changed } ∷ ds)
      else elim rest [
        | none ↦ none
        | some (stream_map, put) ↦ some (stream_map, λ changed. d ∷ put changed)
      ]

  abbrev found :
      {A : Type 0}
      → Option (StreamMapDescriptors J)
      → (StreamMapDescriptors J → Option A)
      → Option A
  found none f = none
  found (some ds) f = f ds

  unfoldable pub get : String → AirPos → StreamMaps J → Option (StreamMap J)
  unfolding find_closest
  get name position s = found (s.stream_maps name) (λ ds. find_closest ds position)

  unfoldable pub get_mut :
      String → AirPos → StreamMaps J → Option (StreamMap J × (StreamMap J → StreamMaps J))
  unfolding find_closest_mut
  get_mut name position s = elim (found (s.stream_maps name) (λ ds. find_closest_mut ds position)) [
    | none ↦ none
    | some (stream_map, put) ↦ some (
      stream_map,
      λ changed. record { stream_maps = set_key name (some (put changed)) s.stream_maps },
    )
  ]

  abbrev pub descriptors_of : Option (StreamMapDescriptors J) → StreamMapDescriptors J
  descriptors_of none = []
  descriptors_of (some ds) = ds

  unfoldable pub meet_scope_start : String → Span → StreamMaps J → StreamMaps J
  unfolding restricted
  meet_scope_start name span s = record {
    stream_maps =
        set_key name (some (restricted empty_map span ∷ descriptors_of (s.stream_maps name)))
          s.stream_maps;
  }

  abbrev pub non_empty : StreamMapDescriptors J → Option (StreamMapDescriptors J)
  non_empty [] = none
  non_empty (d ∷ ds) = some (d ∷ ds)

module _ {J : Type 0} ⦃json : Json J⦄ ⦃pairs : KeyValues J⦄ where
  -- The arms of `add_stream_map_value`. A new map that takes no value is dropped.
  unfoldable pub add_to_found :
      StreamMapKey
      → ValueAggregate J
      → String
      → Generation
      → Option (StreamMap J × (StreamMap J → StreamMaps J))
      → Exec (StreamMaps J) UncatchableError (Unit {0})
  unfolding insert_value global
  add_to_found key value name generation (some (closest, put)) s =
      elim (insert_value key value generation closest) [
        | ok a changed ↦ ok a (put changed)
        | err e changed ↦ err e (put changed)
        | panic ↦ panic
      ]
  add_to_found key value name generation none s =
      elim (insert_value key value generation empty_map) [
        | ok a changed ↦
            ok a (record { stream_maps = set_key name (some (global changed ∷ [])) s.stream_maps })
        | err e changed ↦ err e s
        | panic ↦ panic
      ]

  unfoldable pub add_stream_map_value :
      StreamMapKey → StreamMapValueDescriptor J → Exec (StreamMaps J) UncatchableError (Unit {0})
  unfolding add_to_found get_mut
  add_stream_map_value key d s =
      add_to_found key d.value d.name d.generation (get_mut d.name d.position s) s

-- The stream maps, beside the trace that compaction updates.
pub record StreamMapsRun (J B : Type 0) : Type 0 where
  pub stream_maps : StreamMaps J
  pub trace : TraceHandler B

module _ {J B : Type 0} where
  -- `descriptor.stream_map.compactify(trace_ctx)` of a descriptor that is dropped afterwards.
  unfoldable pub compactify_dropped :
      StreamMaps J → StreamMap J → Exec (StreamMapsRun J B) UncatchableError (Unit {0})
  unfolding compactify
  compactify_dropped stream_maps dropped r = elim ((compactify dropped.stream).1 r.trace) [
    | ok a t ↦ ok a (record { stream_maps = stream_maps; trace = t })
    | err e t ↦ err e (record { stream_maps = stream_maps; trace = t })
    | panic ↦ panic
  ]

  -- Both `unwrap`s panic.
  unfoldable pub scope_end :
      String
      → Option (StreamMapDescriptors J)
      → Exec (StreamMapsRun J B) UncatchableError (Unit {0})
  unfolding compactify_dropped
  scope_end name none r = panic
  scope_end name (some []) r = panic
  scope_end name (some (d ∷ ds)) r =
      compactify_dropped
        (record { stream_maps = set_key name (non_empty ds) (r.stream_maps).stream_maps })
        d.stream_map r

  unfoldable pub meet_scope_end : String → Exec (StreamMapsRun J B) UncatchableError (Unit {0})
  unfolding scope_end
  meet_scope_end name r = scope_end name ((r.stream_maps).stream_maps name) r
