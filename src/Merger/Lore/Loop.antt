-- ===== src/Merger/Lore/Loop.antt =====
-- The convolution loop as a whole.
use aquavm.Prelude.{
  ℕ, suc, ◌+◌, ◌≤◌, ◌<◌, ◌≡◌, inl, inr, refl, ap, sym, ◌∙◌, arith, List, [], ◌∷◌, ◌++◌, length,
  u32_mod, append_assoc, append-nil, length-append, false, ◌==◌, ok, Run, ◌>>=◌, ==-refl,
  ℕ_discrete,
}
use native.Mathlib.Nat.{zero-add}
use aquavm.Data.{FoldSubTraceLore, FoldResult}
use aquavm.Slider.{MergeCtx}
use aquavm.Merger.{MergeError}
use aquavm.Merger.Lore.{LoresLen, convolution_loop, finish_convolution, compute_lens_convolution}
use aquavm.Merger.Lore.Suffix.{total_before, suffixes, suffixes-snoc, total_before-append}
use aquavm.Merger.Lore.Rows.{Row, AllResolve, states, lead_before, lead_after, convolved}
use aquavm.Merger.Lore.Back.{
  convolution, len, Ends, length-suffixes, back_traversal-suffixes, convolution_step-same,
  convolution_step-new,
}

abbrev described : List LoresLen → List LoresLen → ℕ → ℕ → List Row → List LoresLen
described finished group g cum rs =
    finished ++ (suffixes (lead_before g rs + cum + lead_after g rs) group ++ convolved g cum rs)

described_at :
    (f p : List LoresLen) (cum : ℕ) (r : Row) (rs : List Row)
    → described f (p ++ len r.before (cum + r.after) ∷ []) r.generation (cum + r.after) rs
      ≡ described f p r.generation cum (r ∷ rs)
described_at f p cum r rs =
    let lb : ℕ = lead_before r.generation rs in
    let la : ℕ = lead_after r.generation rs in
    let base : r.before + lb + cum + (r.after + la) ≡ r.before + (lb + (cum + r.after) + la) =
      omega arith in
    let here : r.before + lb + (cum + r.after) + la ≡ r.before + (lb + (cum + r.after) + la) =
      omega arith in
    rw (
      ==-refl r.generation,
      suffixes-snoc (lb + (cum + r.after) + la) p (len r.before (cum + r.after)),
      base,
      here,
      append_assoc,
    )

described-same :
    (f p : List LoresLen) (g cum : ℕ) (r : Row) (rs : List Row)
    → g ≡ r.generation
    → described f (p ++ len r.before (cum + r.after) ∷ []) r.generation (cum + r.after) rs
      ≡ described f p g cum (r ∷ rs)
described-same f p g cum r rs same =
    described_at f p cum r rs ∙ ap (λ (k : ℕ). described f p k cum (r ∷ rs)) (sym same)

described-new :
    (f p : List LoresLen) (g cum : ℕ) (r : Row) (rs : List Row)
    → (g == r.generation) ≡ false
    → described
        (f ++ suffixes cum p)
        (len r.before (0 + r.after) ∷ [])
        r.generation
        (0 + r.after)
        rs
      ≡ described f p g cum (r ∷ rs)
described-new f p g cum r rs t =
    let lb : ℕ = lead_before r.generation rs in
    let la : ℕ = lead_after r.generation rs in
    let base : 0 + cum + 0 ≡ cum = omega arith in
    let here : r.before + 0 + (lb + (0 + r.after) + la) ≡ r.before + lb + (0 + r.after) + la =
      omega arith in
    rw (t, base, here, append_assoc)

module _ (fold : FoldResult) (ctx : MergeCtx) where
  abbrev answer : ℕ → List LoresLen → Run MergeCtx MergeError (ℕ × List LoresLen)
  answer n lens = ok (n, lens) ctx

  loop-described :
      (ls : List FoldSubTraceLore) (rs : List Row) (f p : List LoresLen) (count g cum id : ℕ)
      → AllResolve ctx ls rs
      → Ends f p cum
      → id ≡ length f + length p
      → total_before p + cum ≤ count
      → count + states rs < u32_mod
      → (convolution_loop fold id ls (convolution f p count g cum)
            >>= finish_convolution (id + length ls))
          ctx
        ≡ ok (count + states rs, described f p g cum rs) ctx
  unfolding convolution_loop finish_convolution
  loop-described [] [] f p count g cum id all ends i t h =
      let last : id + 0 ≡ id = omega arith in
      let none_left : 0 + cum + 0 ≡ cum = omega arith in
      let total : count + 0 ≡ count = omega arith in
      rw (last, none_left, total, append-nil)
        (rw (back_traversal-suffixes f p count g cum id ctx ends i (omega arith)))
  loop-described [] (r ∷ rs) f p count g cum id all ends i t h = absurd all
  loop-described (l ∷ ls) [] f p count g cum id all ends i t h = absurd all
  loop-described (l ∷ ls) (r ∷ rs) f p count g cum id all ends i t h =
      elim (ℕ_discrete g r.generation) [
        | yes same ↦
            let l' : LoresLen = len r.before (cum + r.after) in
            let step =
              convolution_step-same fold ctx l r all.0 f p count cum id (omega arith)
                (omega arith) in
            let rest =
              loop-described ls rs f (p ++ l' ∷ []) (count + r.before + r.after) r.generation
                (cum + r.after) (suc id) all.1 (inr (p, r.before, refl))
                (omega (arith, length-append p (l' ∷ [])))
                (omega (arith, total_before-append p (l' ∷ []))) (omega arith) in
            let next : id + suc (length ls) ≡ suc id + length ls = omega arith in
            let total : count + (r.before + r.after + states rs)
                ≡ count + r.before + r.after + states rs =
              omega arith in
            rw (next, total)
              (rw same (rw step rest) ∙ ap (answer _) (described-same f p g cum r rs same))
        | no new ↦
            let l' : LoresLen = len r.before (0 + r.after) in
            let step =
              convolution_step-new fold ctx l r all.0 f p count g cum id new ends i (omega arith)
                (omega arith) in
            let rest =
              loop-described ls rs (f ++ suffixes cum p) (l' ∷ []) (count + r.before + r.after)
                r.generation (0 + r.after) (suc id) all.1 (inr ([], r.before, refl))
                (omega (arith, length-append f (suffixes cum p), length-suffixes cum p))
                (omega arith) (omega arith) in
            let next : id + suc (length ls) ≡ suc id + length ls = omega arith in
            let total : count + (r.before + r.after + states rs)
                ≡ count + r.before + r.after + states rs =
              omega arith in
            rw (next, total)
              (rw step rest ∙ ap (answer _) (described-new f p g cum r rs (ground arith)))
      ]

-- Where each lore entry of a fold has two descriptors and a value whose generation the trace
-- shows, and the states of the fold fit into u32, the convolution neither fails nor panics: it
-- counts the states and gives each iteration the lens of the description.
pub compute_lens_convolution-convolved :
    (ctx : MergeCtx) (fold : FoldResult) (rs : List Row)
    → AllResolve ctx fold.lore rs
    → states rs < u32_mod
    → compute_lens_convolution fold ctx ≡ ok (states rs, convolved 0 0 rs) ctx
unfolding compute_lens_convolution
compute_lens_convolution-convolved ctx fold rs all h = simp zero-add at (
    loop-described fold ctx fold.lore rs [] [] 0 0 0 0 all (inl (refl, refl, refl)) refl
      (omega arith) (omega arith))
