-- ===== src/Merger/Lore/Back.antt =====
-- One step of the convolution on a lens vector that is split at the current generation.
use aquavm.Prelude.{
  ℕ, suc, ◌+◌, ◌-◌, ◌≤◌, ◌<◌, ◌≡◌, ◌≢◌, ◌⊎◌, inl, inr, refl, ap, ◌∙◌, arith, some, List, [], ◌∷◌,
  ◌++◌, length, u32_mod, ltb, append_assoc, append-nil, length-append, true, false, ◌==◌, ok,
  ==-refl, lt→ltb, leb-false, map_err,
}
use aquavm.Data.{FoldSubTraceLore, FoldResult}
use aquavm.Slider.{MergeCtx}
use aquavm.Merger.Lore.{
  LoresLen, Convolution, back_traversal, check_subtrace_lore, switch_generation, add_lens,
  push_lens, convolution_step,
}
use aquavm.Merger.Lore.Suffix.{total_before, suffixes, compute_before_lens-suffixes}
use aquavm.Merger.Lore.Rows.{Row, Resolves}

-- The local variables, where the lens of the current generation are `group`.
abbrev pub convolution : List LoresLen → List LoresLen → ℕ → ℕ → ℕ → Convolution
convolution finished group count g cum = record {
  lens = finished ++ group;
  fold_states_count = count;
  last_seen_generation = g;
  last_seen_generation_pos = length finished;
  cum_after_len = cum;
}

abbrev pub len : ℕ → ℕ → LoresLen
len before after = record { before_len = before; after_len = after }

-- The last lens of the generation holds all that its iterations bring after `next`. There is none
-- only before the first iteration.
abbrev pub Ends : List LoresLen → List LoresLen → ℕ → Type 0
Ends finished group cum =
    ((finished ≡ []) × (group ≡ []) × (cum ≡ 0))
    ⊎ ((ys : List LoresLen) × (b : ℕ) × (group ≡ ys ++ len b cum ∷ []))

pub length-suffixes : (base : ℕ) (xs : List LoresLen) → length (suffixes base xs) ≡ length xs
length-suffixes base [] = refl
length-suffixes base (x ∷ xs) = ap suc (length-suffixes base xs)

pub back_traversal-suffixes :
    (finished group : List LoresLen) (count g cum id : ℕ) (ctx : MergeCtx)
    → Ends finished group cum
    → id ≡ length finished + length group
    → total_before group + cum < u32_mod
    → back_traversal id (convolution finished group count g cum) ctx
      ≡ ok (finished ++ suffixes cum group) ctx
unfolding back_traversal
back_traversal-suffixes finished group count g cum id ctx (inl (f, n, z)) i h = rw (i, f, n)
back_traversal-suffixes finished group count g cum id ctx (inr (ys, b, e)) i h =
    let last : id - 1 ≡ length finished + length ys =
      omega (arith, ap length e, length-append ys (len b cum ∷ [])) in
    let some_done : ltb 0 id ≡ true =
      lt→ltb 0 id (omega (arith, ap length e, length-append ys (len b cum ∷ []))) in
    rw (some_done, last, e)
      (rw (compute_before_lens-suffixes finished ys (len b cum) (omega (arith, ap total_before e))))

add_lens_fits :
    (count b a : ℕ) → count + b + a < u32_mod → add_lens count b a ≡ some (count + b + a)
unfolding add_lens
add_lens_fits count b a h = ground arith

push_lens_fits :
    (n b a : ℕ) (c : Convolution) (ctx : MergeCtx)
    → c.cum_after_len + a < u32_mod
    → push_lens n b a c ctx
      ≡ ok
          (record c {
            lens = c.lens ++ len b (c.cum_after_len + a) ∷ [];
            fold_states_count = n;
            cum_after_len = c.cum_after_len + a;
          })
          ctx
unfolding push_lens
push_lens_fits n b a c ctx h = rw (leb-false u32_mod (c.cum_after_len + a) h)

module _ (fold : FoldResult) (ctx : MergeCtx) (l : FoldSubTraceLore) (r : Row)
    (res : Resolves ctx l r) where
  -- With the entry read, a step is the switch of generation and the push of the lens.
  convolution_step_by :
      (id : ℕ) (c c' : Convolution)
      → switch_generation id r.generation c ctx ≡ ok c' ctx
      → c'.fold_states_count + r.before + r.after < u32_mod
      → c'.cum_after_len + r.after < u32_mod
      → convolution_step fold id l c ctx
        ≡ ok
            (record c' {
              lens = c'.lens ++ len r.before (c'.cum_after_len + r.after) ∷ [];
              fold_states_count = c'.fold_states_count + r.before + r.after;
              cum_after_len = c'.cum_after_len + r.after;
            })
            ctx
  unfolding convolution_step check_subtrace_lore
  convolution_step_by id c c' s h k =
      let (first, second, two, b, a, g) = res in
      rw two
        (rw (g, map_err) (rw s (rw (b, a, add_lens_fits _ _ _ h) (push_lens_fits _ _ _ c' ctx k))))

  pub convolution_step-same :
      (finished group : List LoresLen) (count cum id : ℕ)
      → count + r.before + r.after < u32_mod
      → cum ≤ count
      → convolution_step fold id l (convolution finished group count r.generation cum) ctx
        ≡ ok
            (convolution finished
              (group ++ len r.before (cum + r.after) ∷ [])
              (count + r.before + r.after)
              r.generation
              (cum + r.after))
            ctx
  unfolding switch_generation
  convolution_step-same finished group count cum id h k =
      let c : Convolution = convolution finished group count r.generation cum in
      convolution_step_by id c c (rw (==-refl r.generation)) h (omega arith) ∙ rw append_assoc

  pub convolution_step-new :
      (finished group : List LoresLen) (count g cum id : ℕ)
      → g ≢ r.generation
      → Ends finished group cum
      → id ≡ length finished + length group
      → total_before group + cum < u32_mod
      → count + r.before + r.after < u32_mod
      → convolution_step fold id l (convolution finished group count g cum) ctx
        ≡ ok
            (convolution
              (finished ++ suffixes cum group)
              (len r.before (0 + r.after) ∷ [])
              (count + r.before + r.after)
              r.generation
              (0 + r.after))
            ctx
  unfolding switch_generation
  convolution_step-new finished group count g cum id ne ends i t h =
      let c : Convolution = convolution finished group count g cum in
      let back = back_traversal-suffixes finished group count g cum id ctx ends i t in
      let place : id ≡ length (finished ++ suffixes cum group) =
        omega (arith, length-append finished (suffixes cum group), length-suffixes cum group) in
      let test : (g == r.generation) ≡ false = ground arith in
      convolution_step_by id c
        (convolution (finished ++ suffixes cum group) [] count r.generation 0)
        (rw (test, back, append-nil, place)) h (omega arith)
      ∙ rw append-nil
