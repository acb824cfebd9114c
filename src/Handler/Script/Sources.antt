-- ===== src/Handler/Script/Sources.antt =====
-- What a slider may yield, with a record before it or none, and the two reads before each merge.
use aquavm.Prelude.{
  ℕ, suc, ◌+◌, ◌≡◌, refl, arith, Option, none, some, List, ◌∷◌, ◌++◌, Bool, true, false, length,
  Exec, ◌>>=◌,
}
use aquavm.Data.{ExecutedState}
use aquavm.Slider.{TraceSlider, next_state}
use aquavm.Slider.Window.{advanced}
use aquavm.Slider.Reads.{Reads, next_state-none, next_state-some, advanced-Reads}
use aquavm.Keeper.{
  DataKeeper, prev_slider, current_slider, put_prev, put_current, next_prev_state,
  next_current_state,
}
use aquavm.Merger.{MergeError}
use aquavm.Handler.Script.{given}

-- A source with the record of the part `xs`, and `m` more states after it; or an exhausted one.
pub record Source (b : Bool) (s : TraceSlider) (m : ℕ) (xs rest : List ExecutedState) : Type 0 where
  pub reads : Reads s (length (given b xs) + m) (given b xs ++ rest)
  pub exhausted : b ≡ false → m ≡ 0

abbrev pub offered : Bool → ExecutedState → Option ExecutedState
offered true x = some x
offered false x = none

abbrev pub stepped : Bool → TraceSlider → TraceSlider
stepped true s = advanced s
stepped false s = s

pub next_state-offered :
    (b : Bool) (s : TraceSlider) (m : ℕ) (x : ExecutedState) (xs rest : List ExecutedState)
    → Source b s m (x ∷ xs) rest
    → (next_state s ≡ (offered b x, stepped b s)) × Source b (stepped b s) m xs rest
next_state-offered true s m x xs rest v =
    let more : suc (length xs) + m ≡ suc (length xs + m) = omega arith in
    let reads : Reads s (suc (length xs + m)) (x ∷ (xs ++ rest)) = rw more at v.reads in
    (
      next_state-some s (length xs + m) x (xs ++ rest) reads,
      record {
        reads = advanced-Reads s (length xs + m) x (xs ++ rest) reads;
        exhausted = v.exhausted;
      },
    )
next_state-offered false s m x xs rest v =
    let over : 0 + m ≡ 0 = omega (arith, v.exhausted refl) in
    (next_state-none s (rw over at v.reads), record { reads = v.reads; exhausted = v.exhausted })

-- Both sliders have taken their next step.
abbrev pub both_stepped : {B : Type 0} → Bool → Bool → DataKeeper B → DataKeeper B
both_stepped b c k =
    put_current (stepped c (current_slider k)) (put_prev (stepped b (prev_slider k)) k)

module _ {B : Type 0} where
  -- The two reads before each merge.
  pub next_states :
      {A : Type 0} (b c : Bool) (x y : ExecutedState) (k : DataKeeper B)
      (match : Option ExecutedState → Option ExecutedState → Exec (DataKeeper B) MergeError A)
      → next_state (prev_slider k) ≡ (offered b x, stepped b (prev_slider k))
      → next_state (current_slider k) ≡ (offered c y, stepped c (current_slider k))
      → (do p ← next_prev_state; q ← next_current_state; match p q) k
        ≡ match (offered b x) (offered c y) (both_stepped b c k)
  unfolding next_prev_state next_current_state
  next_states b c x y k match p q = rw p (rw q)
