-- ===== src/Keeper/Table.antt =====
-- A `BiHashMap` as a function: the interface can be met, and the examples can run.
use aquavm.Prelude.{refl, Option, none, some, ◌==◌, if◌then◌else◌}
use aquavm.Data.{TracePos}
use aquavm.Keeper.{BiHashMap, unless_right}

abbrev pub Table : Type 0
Table = TracePos → Option TracePos

instance abbrev pub table : BiHashMap Table
table = record {
  empty = λ k. none;
  insert = λ l r m k. if l == k then some r else unless_right r (m k);
  get_by_left = λ k m. m k;
  get_by_left-empty = λ k. refl;
  get_by_left-insert = λ l r k m. refl;
}
