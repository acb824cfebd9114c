-- ===== src/Merger/Lore/Rows.antt =====
-- The description of the lens convolution: each iteration's length before `next` covers what the
-- later iterations of its generation add, and its length after `next` what the earlier ones add.
use aquavm.Prelude.{ℕ, ◌+◌, ◌≡◌, List, [], ◌∷◌, ◌==◌, if◌then◌else◌, ok}
use aquavm.Data.{SubTraceDesc, FoldSubTraceLore}
use aquavm.Slider.{MergeCtx, try_get_generation}
use aquavm.Merger.Lore.{LoresLen}

-- One iteration of a fold: the generation of its value, and the states before and after `next`.
pub record Row : Type 0 where
  pub generation : ℕ
  pub before : ℕ
  pub after : ℕ

-- The lore entry has two descriptors, and the trace shows the generation of its value.
abbrev pub Resolves : MergeCtx → FoldSubTraceLore → Row → Type 0
Resolves ctx l r =
    (first second : SubTraceDesc) × (l.subtraces_desc ≡ first ∷ second ∷ [])
    × (first.subtrace_len ≡ r.before)
    × (second.subtrace_len ≡ r.after)
    × (try_get_generation l.value_pos ctx ≡ ok r.generation ctx)

abbrev pub AllResolve : MergeCtx → List FoldSubTraceLore → List Row → Type 0
AllResolve ctx [] [] = Unit {0}
AllResolve ctx (l ∷ ls) (r ∷ rs) = Resolves ctx l r × AllResolve ctx ls rs
AllResolve ctx _ _ = ⊥

-- All states of the fold.
abbrev pub states : List Row → ℕ
states [] = 0
states (r ∷ rs) = r.before + r.after + states rs

-- What the leading rows of generation `g` bring before and after `next`.
abbrev pub lead_before : ℕ → List Row → ℕ
lead_before g [] = 0
lead_before g (r ∷ rs) = if g == r.generation then r.before + lead_before g rs else 0

abbrev pub lead_after : ℕ → List Row → ℕ
lead_after g [] = 0
lead_after g (r ∷ rs) = if g == r.generation then r.after + lead_after g rs else 0

-- The lens after `g`, whose iterations so far bring `cum` states after `next`.
abbrev pub convolved : ℕ → ℕ → List Row → List LoresLen
convolved g cum [] = []
convolved g cum (r ∷ rs) =
    let cum' = (if g == r.generation then cum else 0) + r.after in
    record {
      before_len = r.before + lead_before r.generation rs + cum' + lead_after r.generation rs;
      after_len = cum';
    }
    ∷ convolved r.generation cum' rs
