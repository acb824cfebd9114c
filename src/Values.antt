-- ===== src/Values.antt =====
-- air/src/execution_step/value_types/scalar.rs, its values.rs, and iterable.rs with its directory:
-- the values of scalars, and the iterables of folds. JSON values are a parameter.
use aquavm.Prelude.{
  ℕ, ◌+◌, ◌-◌, String, Option, List, [], ◌∷◌, Bool, true, false, ltb, leb, length, get_elem?,
  if◌then◌else◌,
}
use aquavm.Data.{TracePos, Cid}
use aquavm.Stream.{TracePosOperate}

-- `SecurityTetraplet` of the crate polyplets, by its fields.
pub record SecurityTetraplet : Type 0 where
  pub peer_pk : String
  pub service_id : String
  pub function_name : String
  pub lens : String

-- What the code asks of `JValue`, a copy of `serde_json::Value`, of a tetraplet, and of the
-- formatting of numbers.
pub record Json (J : Type 0) : Type 0 where
  -- The elements, if the value is `JValue::Array`.
  pub as_array : J → Option (List J)
  pub literal_tetraplet : String → SecurityTetraplet
  pub add_lens : SecurityTetraplet → String → SecurityTetraplet
  -- `format!(".$.[{}]", index)`
  pub format_lens : ℕ → String

pub data Provenance : Type 0 where
  literal : Provenance
  service_result : Cid → Provenance
  canon : Cid → Provenance

pub record LiteralAggregate (J : Type 0) : Type 0 where
  pub result : J
  pub init_peer_id : String
  pub trace_pos : TracePos

pub record ServiceResultAggregate (J : Type 0) : Type 0 where
  pub result : J
  pub tetraplet : SecurityTetraplet
  pub trace_pos : TracePos

pub record CanonResultAggregate (J : Type 0) : Type 0 where
  pub result : J
  pub peer_id : String
  pub lambda : String
  pub trace_pos : TracePos

pub data ValueAggregate (J : Type 0) : Type 0 where
  literal : LiteralAggregate J → ValueAggregate J
  service_result : ServiceResultAggregate J → Cid → ValueAggregate J
  canon : CanonResultAggregate J → Cid → ValueAggregate J

-- The two variants, borrowed and owned, hold the same.
pub record IterableItem (J : Type 0) : Type 0 where
  pub result : J
  pub tetraplet : SecurityTetraplet
  pub pos : TracePos
  pub provenance : Provenance

module _ {J : Type 0} where
  unfoldable pub new : J → SecurityTetraplet → TracePos → Provenance → ValueAggregate J
  new result tetraplet trace_pos Provenance.literal =
      ValueAggregate.literal
        (record { result = result; init_peer_id = tetraplet.peer_pk; trace_pos = trace_pos })
  new result tetraplet trace_pos (Provenance.service_result cid) =
      ValueAggregate.service_result
        (record { result = result; tetraplet = tetraplet; trace_pos = trace_pos }) cid
  new result tetraplet trace_pos (Provenance.canon cid) =
      ValueAggregate.canon
        (record {
          result = result;
          peer_id = tetraplet.peer_pk;
          lambda = tetraplet.lens;
          trace_pos = trace_pos;
        })
        cid

  unfoldable pub get_result : ValueAggregate J → J
  get_result (ValueAggregate.literal l) = l.result
  get_result (ValueAggregate.service_result r cid) = r.result
  get_result (ValueAggregate.canon c cid) = c.result

  unfoldable pub get_trace_pos : ValueAggregate J → TracePos
  get_trace_pos (ValueAggregate.literal l) = l.trace_pos
  get_trace_pos (ValueAggregate.service_result r cid) = r.trace_pos
  get_trace_pos (ValueAggregate.canon c cid) = c.trace_pos

  unfoldable pub get_provenance : ValueAggregate J → Provenance
  get_provenance (ValueAggregate.literal l) = Provenance.literal
  get_provenance (ValueAggregate.service_result r cid) = Provenance.service_result cid
  get_provenance (ValueAggregate.canon c cid) = Provenance.canon cid

  instance unfoldable pub value_pos : TracePosOperate (ValueAggregate J)
  unfolding get_trace_pos
  value_pos = record { get_trace_pos = get_trace_pos }

  unfoldable pub into_resolved_result : IterableItem J → ValueAggregate J
  unfolding new
  into_resolved_result i = new i.result i.tetraplet i.pos i.provenance

-- The implementations of `Iterable` share two macros, and differ in what is peeked at a cursor:
-- here the items at all cursors.
pub record IterableValue (J : Type 0) : Type 0 where
  pub items : List (IterableItem J)
  pub cursor : ℕ

module _ {J : Type 0} where
  unfoldable pub iterable_next : IterableValue J → Bool × IterableValue J
  iterable_next v =
      if ltb (v.cursor + 1) (length v.items)
      then (true, record v { cursor = v.cursor + 1 })
      else (false, v)

  unfoldable pub iterable_prev : IterableValue J → Bool × IterableValue J
  iterable_prev v =
      if leb 1 v.cursor then (true, record v { cursor = v.cursor - 1 }) else (false, v)

  -- A cursor outside a value that is not empty would panic.
  unfoldable pub peek : IterableValue J → Option (IterableItem J)
  peek v = get_elem? v.items v.cursor

  unfoldable pub iterable_len : IterableValue J → ℕ
  iterable_len v = length v.items

module _ {J : Type 0} ⦃json : Json J⦄ where
  unfoldable pub get_tetraplet : ValueAggregate J → SecurityTetraplet
  get_tetraplet (ValueAggregate.literal l) = json.literal_tetraplet l.init_peer_id
  get_tetraplet (ValueAggregate.service_result r cid) = r.tetraplet
  get_tetraplet (ValueAggregate.canon c cid) = record {
    peer_pk = c.peer_id;
    service_id = "";
    function_name = "";
    lens = c.lambda;
  }

  -- The items that `IterableResolvedCall::peek` gives for an array, from an index on.
  unfoldable pub resolved_items : ValueAggregate J → ℕ → List J → List (IterableItem J)
  unfolding get_tetraplet get_trace_pos get_provenance
  resolved_items call_result index [] = []
  resolved_items call_result index (jvalue ∷ array) =
      record {
        result = jvalue;
        tetraplet = json.add_lens (get_tetraplet call_result) (json.format_lens index);
        pos = get_trace_pos call_result;
        provenance = get_provenance call_result;
      }
      ∷ resolved_items call_result (index + 1) array
