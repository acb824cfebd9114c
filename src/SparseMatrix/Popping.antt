-- ===== src/SparseMatrix/Popping.antt =====
-- A `NonEmptyVec` by its laws: the interface can be met, and the examples can run.
use aquavm.Prelude.{refl, Option, none, some, [], ◌∷◌}
use aquavm.SparseMatrix.{NonEmpty, NonEmptyVec}

abbrev pop_last : {A : Type 0} → NonEmpty A → Option A × NonEmpty A
pop_last (a, []) = (none, (a, []))
pop_last (a, b ∷ rest) = (some a, (b, rest))

abbrev pub popping : {A : Type 0} → NonEmptyVec A
popping = record { pop = pop_last; pop-alone = λ a. refl; pop-pushed = λ a b rest. refl }
