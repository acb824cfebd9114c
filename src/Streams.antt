-- ===== src/Streams.antt =====
-- air/src/execution_step/execution_context/streams_variables.rs, its stream_descriptor.rs and
-- stream_value_descriptor.rs, and the span of crates/air-lib/air-parser/src/parser/span.rs: the
-- streams by name, with the scopes that `new` restricts them to.
pub mod Restricted
use aquavm.Prelude.{
  ℕ, ◌-◌, String, Option, none, some, List, [], ◌∷◌, Bool, ◌&&◌, ltb, if◌then◌else◌, u32_mod, Run,
  Exec, ok, err, panic, map_err, str_eq,
}
use aquavm.SparseMatrix.{NameMap, set_key}
use aquavm.Handler.{TraceHandler}
use aquavm.Stream.{
  Stream, Generation, TracePosOperate, UncatchableError, empty, add_value, compactify,
}

abbrev pub AirPos : Type 0
AirPos = ℕ

pub record Span : Type 0 where
  pub left : AirPos
  pub right : AirPos

unfoldable pub contains_position : Span → AirPos → Bool
contains_position span position = ltb span.left position && ltb position span.right

pub record StreamDescriptor (T : Type 0) : Type 0 where
  pub span : Span
  pub stream : Stream T

-- `usize::MAX` of wasm32 is the right end.
unfoldable pub global : {T : Type 0} → Stream T → StreamDescriptor T
global stream = record { span = record { left = 0; right = u32_mod - 1 }; stream = stream }

unfoldable pub restricted : {T : Type 0} → Stream T → Span → StreamDescriptor T
restricted stream span = record { span = span; stream = stream }

-- The head of a list is the last descriptor of the vector.
abbrev pub StreamDescriptors : Type 0 → Type 0
StreamDescriptors T = List (StreamDescriptor T)

pub record StreamValueDescriptor (T : Type 0) : Type 0 where
  pub value : T
  pub name : String
  pub generation : Generation
  pub position : AirPos

pub record Streams (T : Type 0) : Type 0 where
  pub streams : NameMap (StreamDescriptors T)

module _ {T : Type 0} where
  unfoldable pub new : Streams T
  new = record { streams = λ name. none }

  unfoldable pub find_closest : StreamDescriptors T → AirPos → Option (Stream T)
  unfolding contains_position
  find_closest [] position = none
  find_closest (d ∷ ds) position =
      if contains_position d.span position then some d.stream else find_closest ds position

  -- The same search, for a reference that the caller writes through.
  unfoldable pub find_closest_mut :
      StreamDescriptors T → AirPos → Option (Stream T × (Stream T → StreamDescriptors T))
  unfolding contains_position
  find_closest_mut [] position = none
  find_closest_mut (d ∷ ds) position =
      let rest = find_closest_mut ds position in
      if contains_position d.span position
      then some (d.stream, λ stream. record d { stream = stream } ∷ ds)
      else elim rest [
        | none ↦ none
        | some (stream, put) ↦ some (stream, λ changed. d ∷ put changed)
      ]

  abbrev found :
      {A : Type 0} → Option (StreamDescriptors T) → (StreamDescriptors T → Option A) → Option A
  found none f = none
  found (some ds) f = f ds

  unfoldable pub get : String → AirPos → Streams T → Option (Stream T)
  unfolding find_closest
  get name position s = found (s.streams name) (λ ds. find_closest ds position)

  unfoldable pub get_mut : String → AirPos → Streams T → Option (Stream T × (Stream T → Streams T))
  unfolding find_closest_mut
  get_mut name position s = elim (found (s.streams name) (λ ds. find_closest_mut ds position)) [
    | none ↦ none
    | some (stream, put) ↦
        some (stream, λ changed. record { streams = set_key name (some (put changed)) s.streams })
  ]

  -- The arms of `add_stream_value`. A new stream that takes no value is dropped.
  unfoldable pub add_to_found :
      T
      → String
      → Generation
      → Option (Stream T × (Stream T → Streams T))
      → Exec (Streams T) UncatchableError (Unit {0})
  unfolding add_value global
  add_to_found value name generation (some (closest, put)) s =
      elim (add_value value generation closest) [
        | ok a stream ↦ ok a (put stream)
        | err e stream ↦ err e (put stream)
        | panic ↦ panic
      ]
  add_to_found value name generation none s = elim (add_value value generation empty) [
    | ok a stream ↦ ok a (record { streams = set_key name (some (global stream ∷ [])) s.streams })
    | err e stream ↦ err e s
    | panic ↦ panic
  ]

  unfoldable pub add_stream_value :
      StreamValueDescriptor T → Exec (Streams T) UncatchableError (Unit {0})
  unfolding add_to_found get_mut
  add_stream_value d s = add_to_found d.value d.name d.generation (get_mut d.name d.position s) s

  abbrev pub descriptors_of : Option (StreamDescriptors T) → StreamDescriptors T
  descriptors_of none = []
  descriptors_of (some ds) = ds

  unfoldable pub meet_scope_start : String → Span → Streams T → Streams T
  unfolding restricted
  meet_scope_start name span s = record {
    streams =
        set_key name (some (restricted empty span ∷ descriptors_of (s.streams name))) s.streams;
  }

  abbrev pub non_empty : StreamDescriptors T → Option (StreamDescriptors T)
  non_empty [] = none
  non_empty (d ∷ ds) = some (d ∷ ds)

-- The streams, beside the trace that compaction updates.
pub record StreamsRun (T B : Type 0) : Type 0 where
  pub streams : Streams T
  pub trace : TraceHandler B

module _ {T B : Type 0} ⦃place : TracePosOperate T⦄ where
  -- `descriptor.stream.compactify(trace_ctx)` of a descriptor that is dropped afterwards.
  unfoldable pub compactify_dropped :
      Streams T → Stream T → Exec (StreamsRun T B) UncatchableError (Unit {0})
  unfolding compactify
  compactify_dropped streams dropped r = elim ((compactify dropped).1 r.trace) [
    | ok a t ↦ ok a (record { streams = streams; trace = t })
    | err e t ↦ err e (record { streams = streams; trace = t })
    | panic ↦ panic
  ]

  -- Both `unwrap`s panic.
  unfoldable pub scope_end :
      String → Option (StreamDescriptors T) → Exec (StreamsRun T B) UncatchableError (Unit {0})
  unfolding compactify_dropped
  scope_end name none r = panic
  scope_end name (some []) r = panic
  scope_end name (some (d ∷ ds)) r =
      compactify_dropped (record { streams = set_key name (non_empty ds) (r.streams).streams })
        d.stream r

  unfoldable pub meet_scope_end : String → Exec (StreamsRun T B) UncatchableError (Unit {0})
  unfolding scope_end
  meet_scope_end name r = scope_end name ((r.streams).streams name) r
