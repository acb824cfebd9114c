-- ===== src/Slider/Window.antt =====
-- The slider against the list of the states that are left to read.
use aquavm.Prelude.{
  ◌∙◌, ℕ, zero, suc, ◌+◌, ◌-◌, ◌≤◌, ◌<◌, ◌≡◌, ◌⊎◌, inl, inr, Option, none, some, List, [], ◌∷◌,
  refl, arith, length, get_elem?, ok, ap, take, drop, get_elem?-in_bounds, drop-get_elem?,
  get_elem?-some_bound, dec_lt, sym,
}
use aquavm.Data.{TracePos, ExecutedState}
use aquavm.Slider.{TraceSlider, next_state, set_position_and_len}
use native.Mathlib.Nat.{sub-zero}

-- The states that the slider has yet to yield.
abbrev pub remaining : TraceSlider → List ExecutedState
remaining s = take (s.subtrace_len - s.seen_elements) (drop s.position s.trace)

abbrev head? : List ExecutedState → Option ExecutedState
head? [] = none
head? (x ∷ xs) = some x

abbrev tail : List ExecutedState → List ExecutedState
tail [] = []
tail (x ∷ xs) = xs

take-nil : (n : ℕ) → take {A = ExecutedState} n [] ≡ []
take-nil zero = refl
take-nil (suc n) = refl

drop_all : (n : ℕ) (xs : List ExecutedState) → length xs ≤ n → drop n xs ≡ []
drop_all zero [] h = refl
drop_all zero (x ∷ xs) h = absurd (omega arith)
drop_all (suc n) [] h = refl
drop_all (suc n) (x ∷ xs) h = drop_all n xs (omega arith)

abbrev pub advanced : TraceSlider → TraceSlider
advanced s = record s { position = s.position + 1; seen_elements = s.seen_elements + 1 }

pub next_state_idle :
    (s : TraceSlider)
    → (s.subtrace_len ≤ s.seen_elements) ⊎ (length s.trace ≤ s.position)
    → next_state s ≡ (none, s)
unfolding next_state
next_state_idle s h = ground arith

pub next_state_step :
    (s : TraceSlider) (a : ExecutedState)
    → s.seen_elements < s.subtrace_len
    → get_elem? s.trace s.position ≡ some a
    → next_state s ≡ (some a, advanced s)
unfolding next_state
next_state_step s a h g = ground (arith, get_elem?-some_bound s.trace s.position g)

remaining_idle :
    (s : TraceSlider)
    → (s.subtrace_len ≤ s.seen_elements) ⊎ (length s.trace ≤ s.position)
    → remaining s ≡ []
remaining_idle s (inl h) = let e : s.subtrace_len - s.seen_elements ≡ 0 = omega arith in rw e
remaining_idle s (inr h) = rw (drop_all s.position s.trace h) (take-nil _)

pub remaining_step :
    (s : TraceSlider) (a : ExecutedState)
    → s.seen_elements < s.subtrace_len
    → get_elem? s.trace s.position ≡ some a
    → remaining s ≡ a ∷ remaining (advanced s)
remaining_step s a h g =
    let n : s.subtrace_len - s.seen_elements ≡ suc (s.subtrace_len - (s.seen_elements + 1)) =
      omega arith in
    let p : s.position + 1 ≡ suc s.position = omega arith in
    rw (n, p, drop-get_elem? s.trace s.position a g)

abbrev pub Yields : TraceSlider → Option ExecutedState × TraceSlider → Type 0
Yields s r = (r.0 ≡ head? (remaining s)) × (remaining r.1 ≡ tail (remaining s))

-- `next_state` yields the head of what is left to read, and leaves its tail to be read.
pub next_state-Yields : (s : TraceSlider) → Yields s (next_state s)
next_state-Yields s = elim (dec_lt s.seen_elements s.subtrace_len) [
  | no full ↦ idle (inl (omega arith))
  | yes room ↦ elim (dec_lt s.position (length s.trace)) [
    | no out ↦ idle (inr (omega arith))
    | yes inside ↦ step room (get_elem?-in_bounds s.trace s.position inside)
  ]
]
  where
    idle :
        (s.subtrace_len ≤ s.seen_elements) ⊎ (length s.trace ≤ s.position) → Yields s (next_state s)
    idle h = rw (next_state_idle s h, remaining_idle s h) (refl, refl)

    step :
        s.seen_elements < s.subtrace_len
        → (a : ExecutedState) × (get_elem? s.trace s.position ≡ some a)
        → Yields s (next_state s)
    step h (a, g) = rw (next_state_step s a h g, remaining_step s a h g) (refl, refl)

-- The states that repeated calls of `next_state` yield, up to the first `None`.
unfoldable pub collect : ℕ → TraceSlider → List ExecutedState
collect zero s = []
collect (suc n) s = elim (next_state s).0 [ none ↦ [] | some a ↦ a ∷ collect n (next_state s).1 ]

collect-take_by :
    (n : ℕ) (s : TraceSlider) (r : List ExecutedState)
    → remaining s ≡ r
    → collect n (next_state s).1 ≡ take n (remaining (next_state s).1)
    → collect (suc n) s ≡ take (suc n) r
unfolding collect
collect-take_by n s [] e ih = rw ((next_state-Yields s).0, e, collect)
collect-take_by n s (a ∷ r) e ih =
    rw ((next_state-Yields s).0, e, collect)
      (ap (◌∷◌ a) (ih ∙ ap (take n) ((next_state-Yields s).1 ∙ ap tail e)))

collect-take : (n : ℕ) (s : TraceSlider) → collect n s ≡ take n (remaining s)
unfolding collect
collect-take zero s = refl
collect-take (suc n) s = collect-take_by n s (remaining s) refl (collect-take n (next_state s).1)

take-take : (n : ℕ) (xs : List ExecutedState) → take n (take n xs) ≡ take n xs
take-take zero xs = refl
take-take (suc n) [] = refl
take-take (suc n) (x ∷ xs) = ap (◌∷◌ x) (take-take n xs)

length-take-drop :
    (n i : ℕ) (xs : List ExecutedState) → i + n ≤ length xs → length (take n (drop i xs)) ≡ n
length-take-drop zero i xs h = refl
length-take-drop (suc n) zero [] h = absurd (omega arith)
length-take-drop (suc n) zero (x ∷ xs) h = ap suc (length-take-drop n zero xs (omega arith))
length-take-drop (suc n) (suc i) [] h = absurd (omega arith)
length-take-drop (suc n) (suc i) (x ∷ xs) h = length-take-drop (suc n) i xs (omega arith)

abbrev pub positioned : TracePos → ℕ → TraceSlider → TraceSlider
positioned pos len s = record s { position = pos; subtrace_len = len; seen_elements = 0 }

-- What a successful `set_position_and_len` did, and what it had checked.
pub set_position_and_len_ok :
    (pos len : ℕ) (s : TraceSlider) {t : TraceSlider}
    → set_position_and_len pos len s ≡ ok tt t
    → (t ≡ positioned pos len s) × ((len ≡ 0) ⊎ (pos + len ≤ length s.trace))
unfolding set_position_and_len
set_position_and_len_ok pos len s h = (ground arith, ground arith)

window-length :
    (pos len : ℕ) (xs : List ExecutedState)
    → (len ≡ 0) ⊎ (pos + len ≤ length xs)
    → length (take len (drop pos xs)) ≡ len
window-length pos len xs (inl e) = rw e
window-length pos len xs (inr h) = length-take-drop len pos xs h

remaining-positioned :
    (pos len : ℕ) (s : TraceSlider) → remaining (positioned pos len s) ≡ take len (drop pos s.trace)
remaining-positioned pos len s = rw sub-zero

take_more : (n : ℕ) (xs : List ExecutedState) → take (suc n) (take n xs) ≡ take n xs
take_more zero xs = refl
take_more (suc n) [] = refl
take_more (suc n) (x ∷ xs) = ap (◌∷◌ x) (take_more n xs)

-- A slider that was set to a window yields the states of the window in order, all of them, and
-- only those: as many calls of `next_state` as the window is long give the slice, and a further
-- call gives nothing.
pub set_position_and_len-collect :
    (pos len : ℕ) (s : TraceSlider) {t : TraceSlider}
    → set_position_and_len pos len s ≡ ok tt t
    → (collect len t ≡ take len (drop pos s.trace))
      × (length (collect len t) ≡ len)
      × (collect (suc len) t ≡ collect len t)
set_position_and_len-collect pos len s {t} h =
    let (e, room) = set_position_and_len_ok pos len s h in
    let all : remaining t ≡ take len (drop pos s.trace) = rw e (remaining-positioned pos len s) in
    let got : collect len t ≡ take len (drop pos s.trace) =
      collect-take len t ∙ ap (take len) all ∙ take-take len (drop pos s.trace) in
    (
      got,
      ap length got ∙ window-length pos len s.trace room,
      collect-take (suc len) t
          ∙ ap (take (suc len)) all
          ∙ take_more len (drop pos s.trace)
          ∙ sym got,
    )
