-- ===== src/Slider/Reads.antt =====
-- What a slider has ahead of it, and how its methods move it along.
use aquavm.Prelude.{
  ℕ, zero, suc, ◌+◌, ◌*◌, ◌≤◌, ◌<◌, ◌≡◌, refl, arith, inl, none, some, List, [], ◌∷◌, ◌++◌, length,
  length-append, get_elem?, drop, u32_mod, ok,
}
use aquavm.Data.{ExecutedState, ExecutionTrace}
use aquavm.Slider.{TraceSlider, new, next_state, set_subtrace_len, subtrace_len}
use aquavm.Slider.Window.{advanced, positioned, next_state_idle, next_state_step}

-- The slider may yield `n` more states; `ahead` is what its trace holds from its position on.
-- A trace has fewer than 2^31 states: on wasm32 the states of a longer one would fill the memory.
pub record Reads (s : TraceSlider) (n : ℕ) (ahead : List ExecutedState) : Type 0 where
  pub inside : s.position + length ahead ≡ length s.trace
  pub here : drop s.position s.trace ≡ ahead
  pub window : s.seen_elements + n ≡ s.subtrace_len
  pub fits : n ≤ length ahead
  pub short : 2 * length s.trace < u32_mod

abbrev pub windowed : ℕ → TraceSlider → TraceSlider
windowed len s = record s { subtrace_len = len; seen_elements = 0 }

get_elem?-drop :
    (i : ℕ) (xs : List ExecutedState) (y : ExecutedState) (ys : List ExecutedState)
    → drop i xs ≡ y ∷ ys
    → get_elem? xs i ≡ some y
get_elem?-drop zero [] y ys h = ground arith
get_elem?-drop zero (x ∷ xs) y ys h = ground arith
get_elem?-drop (suc i) [] y ys h = ground arith
get_elem?-drop (suc i) (x ∷ xs) y ys h = get_elem?-drop i xs y ys h

drop-suc :
    (i : ℕ) (xs : List ExecutedState) (y : ExecutedState) (ys : List ExecutedState)
    → drop i xs ≡ y ∷ ys
    → drop (suc i) xs ≡ ys
drop-suc zero [] y ys h = ground arith
drop-suc zero (x ∷ xs) y ys h = ground arith
drop-suc (suc i) [] y ys h = ground arith
drop-suc (suc i) (x ∷ xs) y ys h = drop-suc i xs y ys h

drop-add :
    (i : ℕ) (xs ys zs : List ExecutedState) → drop i xs ≡ ys ++ zs → drop (i + length ys) xs ≡ zs
drop-add i xs [] zs h = let e : i + 0 ≡ i = omega arith in rw e h
drop-add i xs (y ∷ ys) zs h =
    let e : i + suc (length ys) ≡ suc i + length ys = omega arith in
    rw e (drop-add (suc i) xs ys zs (drop-suc i xs y (ys ++ zs) h))

pub new-Reads : (t : ExecutionTrace) → 2 * length t < u32_mod → Reads (new t) (length t) t
unfolding new
new-Reads t h = record {
  inside = omega arith;
  here = refl;
  window = omega arith;
  fits = omega arith;
  short = h;
}

module _ (s : TraceSlider) where
  pub next_state-none : {ahead : List ExecutedState} → Reads s 0 ahead → next_state s ≡ (none, s)
  next_state-none v = next_state_idle s (inl (omega arith))

  pub next_state-some :
      (n : ℕ) (x : ExecutedState) (xs : List ExecutedState)
      → Reads s (suc n) (x ∷ xs)
      → next_state s ≡ (some x, advanced s)
  next_state-some n x xs v =
      next_state_step s x (omega arith) (get_elem?-drop s.position s.trace x xs v.here)

  pub advanced-Reads :
      (n : ℕ) (x : ExecutedState) (xs : List ExecutedState)
      → Reads s (suc n) (x ∷ xs)
      → Reads (advanced s) n xs
  advanced-Reads n x xs v =
      let e : s.position + 1 ≡ suc s.position = omega arith in
      record {
        inside = omega arith;
        here = rw e (drop-suc s.position s.trace x xs v.here);
        window = omega arith;
        fits = omega arith;
        short = v.short;
      }

  -- A window of a length that the trace has.
  pub set_subtrace_len-windowed :
      (len n : ℕ) (ahead : List ExecutedState)
      → Reads s n ahead
      → len ≤ length ahead
      → (set_subtrace_len len s ≡ ok tt (windowed len s)) × Reads (windowed len s) len ahead
  unfolding set_subtrace_len
  set_subtrace_len-windowed len n ahead v h = (
    ground arith,
    record { inside = v.inside; here = v.here; window = omega arith; fits = h; short = v.short },
  )

  pub subtrace_len-Reads :
      (n : ℕ) (ahead : List ExecutedState) → Reads s n ahead → subtrace_len s ≡ some n
  unfolding subtrace_len
  subtrace_len-Reads n ahead v = ground arith

  -- A jump over `xs`.
  pub positioned-Reads :
      (n m : ℕ) (xs rest : List ExecutedState)
      → Reads s n (xs ++ rest)
      → m ≤ length rest
      → Reads (positioned (s.position + length xs) m s) m rest
  positioned-Reads n m xs rest v h = record {
    inside = omega (arith, v.inside, length-append xs rest);
    here = drop-add s.position s.trace xs rest v.here;
    window = omega arith;
    fits = h;
    short = v.short;
  }
