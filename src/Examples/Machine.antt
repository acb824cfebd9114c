-- ===== src/Examples/Machine.antt =====
-- A machine over numbers, with an array in a global variable, whose host notes items.
use aquavm.Prelude.{
  ℕ, String, refl, arith, Option, none, some, List, [], ◌∷◌, Bool, true, false, done, ok, ◌==◌,
  if◌then◌else◌,
}
use aquavm.SparseMatrix.{NonEmptyVec, SparseCell, ValuesSparseMatrix, set_key}
use aquavm.SparseMatrix.Popping.{popping}
use aquavm.SparseMatrix.Ends.{set_key-IsScoped}
use aquavm.SparseMatrix.Scopes.{IsScoped}
use aquavm.Scalars.{Scalars}
use aquavm.Scalars.Scopes.{AreScoped}
use aquavm.Keeper.Table.{Table, table}
use aquavm.Values.{Json, ValueAggregate, IterableItem, Provenance, peek}
use aquavm.Context.{ErrorObjects, InstructionError}
use aquavm.Interpreter.{FoldState, Machine, Host, FoldIterableScalar}
use aquavm.Interpreter.Cursor.{with_host, Visits}
use aquavm.Interpreter.Scoped.{scalars_of}

-- Numbers as values: `7` is an array, the others are not.
instance abbrev pub json : Json ℕ
json = record {
  as_array = λ j. if j == 7 then some (1 ∷ 2 ∷ 3 ∷ []) else none;
  literal_tetraplet =
      λ peer. record { peer_pk = peer; service_id = ""; function_name = ""; lens = "" };
  add_lens = λ t lens. record t { lens = lens };
  format_lens = λ index. ".$.[i]";
}

instance abbrev pub objects : ErrorObjects ℕ
objects = record { no_error_object = 0; error_object = λ e instruction peer. 1 }

instance abbrev pub values : NonEmptyVec (SparseCell (ValueAggregate ℕ))
values = popping

instance abbrev pub streams : NonEmptyVec (SparseCell ℕ)
streams = popping

instance abbrev pub maps : NonEmptyVec (SparseCell Bool)
maps = popping

-- The instruction in the body notes the item of the iterator.
abbrev pub note : IterableItem ℕ → List ℕ → List ℕ
note item noted = item.result ∷ noted

abbrev pub note_peeked : Option (IterableItem ℕ) → List ℕ → List ℕ
note_peeked none noted = noted
note_peeked (some item) noted = note item noted

unfoldable pub note_fold : Option (FoldState ℕ String) → List ℕ → List ℕ
unfolding peek
note_fold none noted = noted
note_fold (some f) noted = note_peeked (peek f.iterable) noted

instance unfoldable pub host : Host ℕ ℕ Bool (List ℕ) String Table
unfolding note_fold
host = record {
  execute_foreign = λ f m.
      ok tt (with_host (note_fold ((scalars_of m).iterable_variables "i") (m.exec_ctx).host) m);
  are_matchable_eq = λ f c. done true;
  create_iterable = λ f c. done FoldIterableScalar.empty;
  to_string = λ i. "";
}

abbrev pub array : ValueAggregate ℕ
array = ValueAggregate.literal (record { result = 7; init_peer_id = "peer"; trace_pos = 0 })

abbrev pub blank : {V : Type 0} → ValuesSparseMatrix V
blank = record { cells = λ name. none; allowed_depths = λ depth. depth == 0; current_depth = 0 }

abbrev pub scalars : Scalars (ValueAggregate ℕ) ℕ Bool (FoldState ℕ String)
scalars = record {
  non_iterable_variables = record blank {
    cells = set_key "xs" (some (record { depth = 0; value = some array }, [])) (λ name. none);
  };
  canon_streams = blank;
  canon_maps = blank;
  iterable_variables = λ name. none;
}

abbrev pub no_error : InstructionError ℕ
no_error = record {
  error = 0;
  tetraplet = none;
  provenance = Provenance.literal;
  orig_catchable = none;
}

abbrev pub machine : Machine ℕ ℕ Bool (List ℕ) String Table
machine = record {
  exec_ctx = record {
    scalars = scalars;
    streams = record { streams = λ name. none };
    stream_maps = record { stream_maps = λ name. none };
    current_peer_id = "peer";
    last_error_descriptor = record { error = no_error; error_can_be_set = true };
    error_descriptor = record { error = no_error; error_can_be_set = true };
    subgraph_completeness = false;
    seen_stream_count = 0;
    host = [];
  };
  trace_ctx = record {
    data_keeper = record {
      prev_ctx = record {
        slider = record { trace = []; position = 0; subtrace_len = 0; seen_elements = 0 };
      };
      current_ctx = record {
        slider = record { trace = []; position = 0; subtrace_len = 0; seen_elements = 0 };
      };
      new_to_prev_pos = table.empty;
      new_to_current_pos = table.empty;
      result_trace = [];
    };
    fsm_keeper = record { par_stack = []; fold_map = [] };
  };
}

pub blank-IsScoped : (V : Type 0) → IsScoped (blank {V = V})
blank-IsScoped V = record { heads = λ name. tt; here = refl; above = λ depth lt. ground arith }

pub scalars-AreScoped : AreScoped scalars
scalars-AreScoped = record {
  variables =
      set_key-IsScoped "xs" (some (record { depth = 0; value = some array }, [])) blank
        (omega arith) (blank-IsScoped (ValueAggregate ℕ));
  streams = blank-IsScoped ℕ;
  maps = blank-IsScoped Bool;
}

pub host-Visits : Visits host "i" "note" note
unfolding host note_fold peek
host-Visits m f item e p = rw (e, p) refl
