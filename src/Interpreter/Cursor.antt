-- ===== src/Interpreter/Cursor.antt =====
-- air/src/execution_step/value_types/iterable.rs: an iterator as it moves forth and back, and what a
-- loop over its items does.
use aquavm.Prelude.{
  ℕ, zero, suc, ◌+◌, ◌*◌, String, ◌≡◌, ◌∙◌, refl, sym, ap, arith, none, some, List, [], ◌∷◌, true,
  false, Bool-cases, inl, inr, ok, length, get_elem?, drop, ltb-false, lt→ltb, le→leb, pred_suc,
  str_eq, eq_iff,
}
use std.Path.{fun_ext}
use aquavm.Data.{TracePos}
use aquavm.SparseMatrix.{NameMap, set_key}
use aquavm.Values.{
  ValueAggregate, IterableItem, Json, Provenance, SecurityTetraplet, get_tetraplet, get_trace_pos,
  get_provenance, iterable_next, iterable_prev, peek, resolved_items,
}
use aquavm.Interpreter.{Instruction, LastInstruction, FoldState, Machine, Host}
use aquavm.Interpreter.Scoped.{scalars_of}
use aquavm.Interpreter.Laws.{scalar_fold}

-- The reference: the host's state after a visit of each item in turn.
unfoldable pub visit : {J H : Type 0} → (IterableItem J → H → H) → List (IterableItem J) → H → H
visit g [] h = h
visit g (item ∷ items) h = visit g items (g item h)

-- The depth of calls of the loop over some items.
unfoldable pub loop_fuel : {J : Type 0} → List (IterableItem J) → ℕ → ℕ
loop_fuel [] fuel = suc (suc fuel)
loop_fuel (item ∷ items) fuel = suc (suc (loop_fuel items fuel))

pub loop_fuel-eq :
    {J : Type 0} (items : List (IterableItem J)) (fuel : ℕ)
    → loop_fuel items fuel ≡ 2 + 2 * length items + fuel
unfolding loop_fuel
loop_fuel-eq [] fuel = omega arith
loop_fuel-eq (item ∷ items) fuel = omega (arith, loop_fuel-eq items fuel)

-- What a loop is to see of an element of an array: the element, and where it comes from.
module _ {J : Type 0} ⦃json : Json J⦄ where
  abbrev pub origin_of : ValueAggregate J → SecurityTetraplet
  origin_of (ValueAggregate.literal l) = json.literal_tetraplet l.init_peer_id
  origin_of (ValueAggregate.service_result r cid) = r.tetraplet
  origin_of (ValueAggregate.canon c cid) = record {
    peer_pk = c.peer_id;
    service_id = "";
    function_name = "";
    lens = c.lambda;
  }

  abbrev pub place_of : ValueAggregate J → TracePos
  place_of (ValueAggregate.literal l) = l.trace_pos
  place_of (ValueAggregate.service_result r cid) = r.trace_pos
  place_of (ValueAggregate.canon c cid) = c.trace_pos

  abbrev pub provenance_of : ValueAggregate J → Provenance
  provenance_of (ValueAggregate.literal l) = Provenance.literal
  provenance_of (ValueAggregate.service_result r cid) = Provenance.service_result cid
  provenance_of (ValueAggregate.canon c cid) = Provenance.canon cid

  abbrev pub item_of : ValueAggregate J → ℕ → J → IterableItem J
  item_of value index j = record {
    result = j;
    tetraplet = json.add_lens (origin_of value) (json.format_lens index);
    pos = place_of value;
    provenance = provenance_of value;
  }

  abbrev pub items_of : ValueAggregate J → ℕ → List J → List (IterableItem J)
  items_of value index [] = []
  items_of value index (j ∷ js) = item_of value index j ∷ items_of value (index + 1) js

  pub resolved_items-items_of :
      (value : ValueAggregate J) (index : ℕ) (js : List J)
      → resolved_items value index js ≡ items_of value index js
  unfolding resolved_items get_tetraplet get_trace_pos get_provenance
  resolved_items-items_of value index [] = refl
  resolved_items-items_of (ValueAggregate.literal l) index (j ∷ js) =
      let value = ValueAggregate.literal l in
      ap (◌∷◌ (item_of value index j)) (resolved_items-items_of value (index + 1) js)
  resolved_items-items_of (ValueAggregate.service_result r cid) index (j ∷ js) =
      let value = ValueAggregate.service_result r cid in
      ap (◌∷◌ (item_of value index j)) (resolved_items-items_of value (index + 1) js)
  resolved_items-items_of (ValueAggregate.canon c cid) index (j ∷ js) =
      let value = ValueAggregate.canon c cid in
      ap (◌∷◌ (item_of value index j)) (resolved_items-items_of value (index + 1) js)

pub length-resolved_items :
    {J : Type 0} ⦃json : Json J⦄ (value : ValueAggregate J) (index : ℕ) (js : List J)
    → length (resolved_items value index js) ≡ length js
unfolding resolved_items
length-resolved_items value index [] = refl
length-resolved_items value index (j ∷ js) = ap suc (length-resolved_items value (index + 1) js)

-- What is left from a cursor on, and the steps of the iterator.
pub suc_add : (c : ℕ) → suc c + 1 ≡ suc (c + 1)
suc_add c = omega arith

module _ {A : Type 0} where
  pub get_elem?-drop :
      (xs : List A) (c : ℕ) (y : A) (ys : List A) → drop c xs ≡ y ∷ ys → get_elem? xs c ≡ some y
  get_elem?-drop [] zero y ys h = cc
  get_elem?-drop [] (suc c) y ys h = cc
  get_elem?-drop (x ∷ xs) zero y ys h = cc
  get_elem?-drop (x ∷ xs) (suc c) y ys h = get_elem?-drop xs c y ys h

  pub drop-next :
      (xs : List A) (c : ℕ) (y : A) (ys : List A) → drop c xs ≡ y ∷ ys → drop (c + 1) xs ≡ ys
  drop-next [] zero y ys h = cc
  drop-next [] (suc c) y ys h = cc
  drop-next (x ∷ xs) zero y ys h = ap (drop 1) h
  drop-next (x ∷ xs) (suc c) y ys h = rw (suc_add c) (drop-next xs c y ys h)

  pub length-drop :
      (xs : List A) (c : ℕ) (y : A) (ys : List A)
      → drop c xs ≡ y ∷ ys
      → length xs ≡ c + suc (length ys)
  length-drop [] zero y ys h = cc
  length-drop [] (suc c) y ys h = cc
  length-drop (x ∷ xs) zero y ys h = omega (arith, ap length h)
  length-drop (x ∷ xs) (suc c) y ys h = omega (arith, length-drop xs c y ys h)

abbrev pub body : {Foreign : Type 0} → String → Foreign → Instruction Foreign
body name f = Instruction.seq (Instruction.foreign f) (Instruction.next name)

-- The fold at a cursor.
abbrev pub fold_at :
    {J Foreign : Type 0} → String → Foreign → List (IterableItem J) → ℕ → FoldState J Foreign
fold_at name f items cursor =
    scalar_fold (record { items = items; cursor = cursor }) false (body name f)
      LastInstruction.no_last

pub at_end :
    {J : Type 0} (items : List (IterableItem J)) (item : IterableItem J) (c : ℕ)
    → drop c items ≡ item ∷ []
    → iterable_next (record { items = items; cursor = c })
      ≡ (false, record { items = items; cursor = c })
unfolding iterable_next
at_end items item c d =
    rw (ltb-false (c + 1) (length items) (omega (arith, length-drop items c item [] d))) refl

pub before_end :
    {J : Type 0} (items rest : List (IterableItem J)) (item following : IterableItem J) (c : ℕ)
    → drop c items ≡ item ∷ following ∷ rest
    → iterable_next (record { items = items; cursor = c })
      ≡ (true, record { items = items; cursor = c + 1 })
unfolding iterable_next
before_end items rest item following c d =
    rw
      (lt→ltb (c + 1) (length items) (omega (arith, length-drop items c item (following ∷ rest) d)))
      refl

pub back_again :
    {J : Type 0} (items : List (IterableItem J)) (c : ℕ)
    → (iterable_prev (record { items = items; cursor = c + 1 })).1
      ≡ record { items = items; cursor = c }
unfolding iterable_prev
back_again items c = rw (le→leb 1 (c + 1) (omega arith), pred_suc c) refl

pub rewound :
    {F : Type 0} (name : String) (x y : F) (iterators : NameMap F)
    → iterators name ≡ some x
    → set_key name (some x) (set_key name (some y) iterators) ≡ iterators
rewound name x y iterators e = fun_ext (λ other. elim (Bool-cases (str_eq name other)) [
  | inl p ↦ rw p (sym e ∙ ap iterators ((eq_iff name other).0 p))
  | inr p ↦ rw p refl
])

pub unset :
    {F : Type 0} (name : String) (x : F) (iterators : NameMap F)
    → iterators name ≡ none
    → set_key name none (set_key name (some x) iterators) ≡ iterators
unset name x iterators e = fun_ext (λ other. elim (Bool-cases (str_eq name other)) [
  | inl p ↦ rw p (sym e ∙ ap iterators ((eq_iff name other).0 p))
  | inr p ↦ rw p refl
])

module _ {J C M H Foreign B : Type 0} where
  abbrev pub with_host : H → Machine J C M H Foreign B → Machine J C M H Foreign B
  with_host h m = record m { exec_ctx = record m.exec_ctx { host = h } }

  -- The instruction changes the host's state by the item that the iterator stands at.
  abbrev pub Visits : Host J C M H Foreign B → String → Foreign → (IterableItem J → H → H) → Type 0
  Visits host name f g =
      (m : Machine J C M H Foreign B) (fold_state : FoldState J Foreign) (item : IterableItem J)
      → (scalars_of m).iterable_variables name ≡ some fold_state
      → peek fold_state.iterable ≡ some item
      → host.execute_foreign f m ≡ ok tt (with_host (g item (m.exec_ctx).host) m)
