-- ===== src/Stream/Pushing.antt =====
-- What adding a value does to a matrix.
use aquavm.Prelude.{
  ℕ, zero, suc, ◌+◌, ◌≤◌, ◌<◌, ◌≡◌, ◌≢◌, refl, ap, ◌∙◌, arith, some, List, [], ◌∷◌, ◌++◌, length,
  length-append, lt→ltb, ltb-false, u32_mod, dec_lt, ok,
}
use aquavm.Data.{GenerationIdx}
use aquavm.Stream.Matrix.{ValuesMatrix, concat, iter, resize, push_at, add_value_to_generation}

module _ {T : Type 0} where
  -- The values of a generation, none if the matrix does not have it.
  abbrev pub generation_at : List (List T) → ℕ → List T
  generation_at [] j = []
  generation_at (g ∷ gs) zero = g
  generation_at (g ∷ gs) (suc j) = generation_at gs j

  length-resize : (n : ℕ) (gs : List (List T)) → length (resize n gs) ≡ n
  length-resize zero gs = refl
  length-resize (suc n) [] = ap suc (length-resize n [])
  length-resize (suc n) (g ∷ gs) = ap suc (length-resize n gs)

  resize-nil_at : (n j : ℕ) → generation_at (resize n []) j ≡ []
  resize-nil_at zero j = refl
  resize-nil_at (suc n) zero = refl
  resize-nil_at (suc n) (suc j) = resize-nil_at n j

  resize_at :
      (n : ℕ) (gs : List (List T)) (j : ℕ)
      → length gs ≤ n
      → generation_at (resize n gs) j ≡ generation_at gs j
  resize_at n [] j h = resize-nil_at n j
  resize_at zero (g ∷ gs) j h = absurd (omega arith)
  resize_at (suc n) (g ∷ gs) zero h = refl
  resize_at (suc n) (g ∷ gs) (suc j) h = resize_at n gs j (omega arith)

  concat-resize_nil : (n : ℕ) → concat {T = T} (resize n []) ≡ []
  concat-resize_nil zero = refl
  concat-resize_nil (suc n) = concat-resize_nil n

  concat-resize : (n : ℕ) (gs : List (List T)) → length gs ≤ n → concat (resize n gs) ≡ concat gs
  concat-resize n [] h = concat-resize_nil n
  concat-resize zero (g ∷ gs) h = absurd (omega arith)
  concat-resize (suc n) (g ∷ gs) h = ap (λ (t : List T). g ++ t) (concat-resize n gs (omega arith))

  -- `gs'` is `gs` with `v` behind the values of generation `i`.
  pub record Pushed (v : T) (i : ℕ) (gs gs' : List (List T)) : Type 0 where
    pub here : generation_at gs' i ≡ generation_at gs i ++ v ∷ []
    pub elsewhere : (j : ℕ) → j ≢ i → generation_at gs' j ≡ generation_at gs j
    pub count : length (concat gs') ≡ suc (length (concat gs))

  push_at-Pushed :
      (gs : List (List T)) (i : ℕ) (v : T)
      → i < length gs
      → (gs' : List (List T)) × (push_at gs i v ≡ some gs')
        × (length gs' ≡ length gs)
        × Pushed v i gs gs'
  push_at-Pushed [] i v h = absurd (omega arith)
  push_at-Pushed (g ∷ gs) zero v h = (
    (g ++ v ∷ []) ∷ gs,
    refl,
    refl,
    record {
      here = refl;
      elsewhere = λ j d. other j d;
      count = omega (
        arith,
        length-append (g ++ v ∷ []) (concat gs),
        length-append g (v ∷ []),
        length-append g (concat gs),
      );
    },
  )
    where
      other : (j : ℕ) → j ≢ 0 → generation_at ((g ++ v ∷ []) ∷ gs) j ≡ generation_at (g ∷ gs) j
      other zero d = absurd (d refl)
      other (suc j) d = refl
  push_at-Pushed (g ∷ gs) (suc i) v h =
      let (gs', e, n, p) = push_at-Pushed gs i v (omega arith) in
      (
        g ∷ gs',
        rw e refl,
        ap suc n,
        record {
          here = p.here;
          elsewhere = other gs' p;
          count = omega (arith, p.count, length-append g (concat gs), length-append g (concat gs'));
        },
      )
    where
      other :
          (gs' : List (List T))
          → Pushed v i gs gs'
          → (j : ℕ) → j ≢ suc i
          → generation_at (g ∷ gs') j ≡ generation_at (g ∷ gs) j
      other gs' p zero d = refl
      other gs' p (suc j) d = p.elsewhere j (λ e. d (ap suc e))

  -- The counter of a matrix tells how many values it holds.
  abbrev pub IsCounted : ValuesMatrix T → Type 0
  IsCounted m = m.size ≡ length (iter m)

  pub add_value_to_generation-Pushed :
      {E : Type 0} (v : T) (g : GenerationIdx) (m : ValuesMatrix T)
      → IsCounted m
      → suc g < u32_mod
      → suc m.size < u32_mod
      → (m' : ValuesMatrix T) × (add_value_to_generation {E = E} v g m ≡ ok tt m')
        × IsCounted m'
        × (m'.size ≡ suc m.size)
        × Pushed v g m.values m'.values
  unfolding add_value_to_generation
  add_value_to_generation-Pushed {E} v g m counted hg hs = elim (dec_lt g (length m.values)) [
    | yes lt ↦
        let (gs', e, n, p) = push_at-Pushed m.values g v lt in
        (
          record { values = gs'; size = m.size + 1 },
          rw (lt→ltb g (length m.values) lt)
              (rw e (rw (lt→ltb (m.size + 1) u32_mod (omega arith)) refl)),
          omega (arith, p.count),
          omega arith,
          p,
        )
    | no ge ↦
        let gs : List (List T) = resize (g + 1) m.values in
        let room : length m.values ≤ g + 1 = omega arith in
        let (gs', e, n, p) =
          push_at-Pushed gs g v (omega (arith, length-resize (g + 1) m.values)) in
        (
          record { values = gs'; size = m.size + 1 },
          rw (ltb-false g (length m.values) (omega arith)) (
              rw (lt→ltb (g + 1) u32_mod (omega arith))
                (rw e (rw (lt→ltb (m.size + 1) u32_mod (omega arith)) refl))),
          omega (arith, p.count, ap length (concat-resize (g + 1) m.values room)),
          omega arith,
          record {
            here = p.here ∙ ap (λ (t : List T). t ++ v ∷ []) (resize_at (g + 1) m.values g room);
            elsewhere = λ j d. p.elsewhere j d ∙ resize_at (g + 1) m.values j room;
            count = omega (arith, p.count, ap length (concat-resize (g + 1) m.values room));
          },
        )
  ]
