-- ===== src/Streams/Restricted.antt =====
-- air/src/execution_step/execution_context/streams_variables.rs: the streams that `new` restricts to
-- its span, and the values that are added there.
use aquavm.Prelude.{
  String, ◌≡◌, ◌∙◌, refl, sym, ap, true, Bool-cases, inl, inr, Option, some, List, [], ◌∷◌, str_eq,
  str_eq_refl, eq_iff, Run, ok, err, panic, ok-state, continue, continue-eq-ok,
}
use std.Path.{fun_ext}
use aquavm.SparseMatrix.{NameMap, set_key}
use aquavm.Handler.{TraceHandler}
use aquavm.Stream.{Stream, TracePosOperate, UncatchableError, empty, add_value, compactify}
use aquavm.Streams.{
  AirPos, Span, contains_position, StreamValueDescriptor, Streams, StreamsRun, restricted,
  find_closest, find_closest_mut, get, get_mut, add_to_found, add_stream_value, descriptors_of,
  meet_scope_start, scope_end, meet_scope_end, non_empty, compactify_dropped,
}

set_key-set_key :
    {X : Type 0} (name : String) (x y : Option X) (m : NameMap X)
    → set_key name x (set_key name y m) ≡ set_key name x m
set_key-set_key name x y m =
    fun_ext
      (λ other. elim (Bool-cases (str_eq name other)) [ inl p ↦ rw p refl | inr p ↦ rw p refl ])

set_key-id :
    {X : Type 0} (name : String) (x : Option X) (m : NameMap X) → m name ≡ x → set_key name x m ≡ m
set_key-id name x m e = fun_ext (λ other. elim (Bool-cases (str_eq name other)) [
  | inl p ↦ rw p (sym e ∙ ap m ((eq_iff name other).0 p))
  | inr p ↦ rw p refl
])

module _ {T : Type 0} where
  -- Values that are added one after another, each to the stream of its name and position.
  unfoldable pub add_all :
      List (StreamValueDescriptor T) → Streams T → Run (Streams T) UncatchableError (Unit {0})
  unfolding add_stream_value
  add_all [] s = ok tt s
  add_all (d ∷ ds) s = continue (add_stream_value d s) (λ a. add_all ds)

  -- The same for one stream.
  unfoldable pub add_all_values :
      List (StreamValueDescriptor T) → Stream T → Run (Stream T) UncatchableError (Unit {0})
  add_all_values [] s = ok tt s
  add_all_values (d ∷ ds) s = continue (add_value d.value d.generation s) (λ a. add_all_values ds)

  -- The values are of a stream, and in a span.
  abbrev pub AllIn : String → Span → List (StreamValueDescriptor T) → Type 0
  AllIn name span [] = Unit
  AllIn name span (d ∷ ds) =
      (d.name ≡ name) × (contains_position span d.position ≡ true) × AllIn name span ds

  -- The streams in the scope of a `new`, with what its stream has become.
  abbrev pub within : String → Span → Stream T → Streams T → Streams T
  within name span stream s = record {
    streams =
        set_key name (some (restricted stream span ∷ descriptors_of (s.streams name))) s.streams;
  }

  add_within :
      (name : String) (span : Span) (stream : Stream T) (s : Streams T)
      (d : StreamValueDescriptor T)
      → d.name ≡ name
      → contains_position span d.position ≡ true
      → (t : Stream T) → add_value d.value d.generation stream ≡ ok tt t
      → add_stream_value d (within name span stream s) ≡ ok tt (within name span t s)
  unfolding add_stream_value add_to_found get_mut find_closest_mut restricted
  add_within name span stream s d n p t e =
      rw (n, str_eq_refl name, p, add_to_found, e, n)
        (ap (λ m. ok tt (record { streams = m }))
          (set_key-set_key name (some (restricted t span ∷ descriptors_of (s.streams name)))
            (some (restricted stream span ∷ descriptors_of (s.streams name))) s.streams))

  pub add_all-within :
      (name : String) (span : Span) (s : Streams T) (ds : List (StreamValueDescriptor T))
      → AllIn name span ds
      → (stream t : Stream T) → add_all_values ds stream ≡ ok tt t
      → add_all ds (within name span stream s) ≡ ok tt (within name span t s)
  unfolding add_all add_all_values
  add_all-within name span s [] a stream t e = ap (λ u. ok tt (within name span u s)) (ok-state e)
  add_all-within name span s (d ∷ ds) (n, p, a) stream t e =
      let first =
        continue-eq-ok (add_value d.value d.generation stream) (λ x. add_all_values ds) e in
      rw (add_within name span stream s d n p first.1 first.2)
        (add_all-within name span s ds a first.1 t first.3)

  get-within :
      (name : String) (span : Span) (s : Streams T) (t : Stream T) (position : AirPos)
      → contains_position span position ≡ true
      → get name position (within name span t s) ≡ some t
  unfolding get find_closest restricted
  get-within name span s t position p = rw (str_eq_refl name, p) refl

module _ {T B : Type 0} ⦃place : TracePosOperate T⦄ where
  -- The end of the scope: the streams are those of its start, and the trace is what the compaction
  -- of the stream makes of it.
  abbrev pub compacted_away :
      Streams T → Stream T → TraceHandler B → Run (StreamsRun T B) UncatchableError (Unit {0})
  unfolding compactify
  compacted_away s t h = elim ((compactify t).1 h) [
    | ok a u ↦ ok a (record { streams = s; trace = u })
    | err e u ↦ err e (record { streams = s; trace = u })
    | panic ↦ panic
  ]

  scope_end-within :
      (name : String) (span : Span) (s : Streams T) (t : Stream T) (h : TraceHandler B)
      → non_empty (descriptors_of (s.streams name)) ≡ s.streams name
      → meet_scope_end name (record { streams = within name span t s; trace = h })
        ≡ compacted_away s t h
  unfolding meet_scope_end scope_end restricted compactify_dropped compacted_away
  scope_end-within name span s t h e = rw (str_eq_refl name) (
      ap
        (λ m.
          compactify_dropped (record { streams = m }) t
            (record { streams = within name span t s; trace = h }))
        (set_key-set_key name (non_empty (descriptors_of (s.streams name)))
            (some (restricted t span ∷ descriptors_of (s.streams name))) s.streams
          ∙ set_key-id name (non_empty (descriptors_of (s.streams name))) s.streams (sym e)))

  -- Take streams that hold no empty list of descriptors under a name, a `new` of a stream of
  -- this name with a span, and values that are added to the stream at positions inside of the
  -- span, and which an empty stream takes. Then they are added, a position inside of the span
  -- sees the stream that an empty one becomes by them, and the end of the scope gives the
  -- streams of its start back, and compacts the stream that is dropped, whatever comes of it.
  pub restricted_scope :
      (name : String) (span : Span) (s : Streams T) (ds : List (StreamValueDescriptor T))
      (t : Stream T) (h : TraceHandler B) (position : AirPos)
      → non_empty (descriptors_of (s.streams name)) ≡ s.streams name
      → AllIn name span ds
      → add_all_values ds empty ≡ ok tt t
      → contains_position span position ≡ true
      → (inside : Streams T) × (add_all ds (meet_scope_start name span s) ≡ ok tt inside)
        × (get name position inside ≡ some t)
        × (meet_scope_end name (record { streams = inside; trace = h }) ≡ compacted_away s t h)
  unfolding meet_scope_start
  restricted_scope name span s ds t h position e a v p = (
    within name span t s,
    add_all-within name span s ds a empty t v,
    get-within name span s t position p,
    scope_end-within name span s t h e,
  )
