-- ===== src/Prelude/Effects.antt =====
-- Code that mutates a state, and returns `Ok`, returns `Err`, or panics. What was written before
-- an `Err` stays written, so the state comes back beside the error; a panic aborts the run.
use mathlib.Core.Path.{◌≡◌, refl}
use mathlib.Core.Logic.{◌⊎◌, inl, inr}
use mathlib.Core.Option.{Option, none, some}

pub data Run {ℓ} (S E A : Type ℓ) : Type ℓ where
  ok : A → S → Run S E A
  err : E → S → Run S E A
  panic : Run S E A

-- The `Result` of a function with no state that cannot panic.
pub data Result {ℓ} (E A : Type ℓ) : Type ℓ where
  done : A → Result E A
  fail : E → Result E A

-- `r?` inside such a function.
abbrev pub and_then {ℓ} : {E A B : Type ℓ} → Result E A → (A → Result E B) → Result E B
and_then (done a) f = f a
and_then (fail e) f = fail e

abbrev pub Exec {ℓ} : Type ℓ → Type ℓ → Type ℓ → Type ℓ
Exec S E A = S → Run S E A

module _ {ℓ} {S E : Type ℓ} where
  abbrev pub continue : {A B : Type ℓ} → Run S E A → (A → Exec S E B) → Run S E B
  continue (ok a s) f = f a s
  continue (err e s) f = err e s
  continue panic f = panic

  infixl 5 ◌>>=◌ ◌>>◌
  abbrev pub ◌>>=◌ : {A B : Type ℓ} → Exec S E A → (A → Exec S E B) → Exec S E B
  ◌>>=◌ m f s = continue (m s) f

  abbrev pub ◌>>◌ : {A B : Type ℓ} → Exec S E A → Exec S E B → Exec S E B
  m >> k = m >>= λ _. k

  abbrev pub pure : {A : Type ℓ} → A → Exec S E A
  pure a s = ok a s

  abbrev pub throw : {A : Type ℓ} → E → Exec S E A
  throw e s = err e s

  abbrev pub abort : {A : Type ℓ} → Exec S E A
  abort s = panic

  abbrev pub modify : (S → S) → Exec S E (Unit {ℓ})
  modify f s = ok tt (f s)

  -- `r?` for a call that reads no state.
  abbrev pub lift : {A : Type ℓ} → Result E A → Exec S E A
  lift (done a) s = ok a s
  lift (fail e) s = err e s

  -- `o` by a method that panics on `None`.
  abbrev pub or_panic : {A : Type ℓ} → Option A → Exec S E A
  or_panic (some a) s = ok a s
  or_panic none s = panic

  -- `o.ok_or(e)?`
  abbrev pub ok_or : {A : Type ℓ} → Option A → E → Exec S E A
  ok_or (some a) e s = ok a s
  ok_or none e s = err e s

-- `e.map_err(f)?`
abbrev pub map_err {ℓ} : {S E F A : Type ℓ} → (E → F) → Exec S E A → Exec S F A
map_err f m s = elim (m s) [ ok a t ↦ ok a t | err e t ↦ err (f e) t | panic ↦ panic ]

-- `let _ = e;`: a result that nobody reads, the error with it.
abbrev pub ignore {ℓ} : {S E F A : Type ℓ} → Exec S E A → Exec S F (Unit {ℓ})
ignore m s = elim (m s) [ ok a t ↦ ok tt t | err e t ↦ ok tt t | panic ↦ panic ]

-- A method of a field of the state.
abbrev pub zoom {ℓ} : {S T E A : Type ℓ} → (S → T) → (T → S → S) → Exec T E A → Exec S E A
zoom get put m s = elim (m (get s)) [
  | ok a t ↦ ok a (put t s)
  | err e t ↦ err e (put t s)
  | panic ↦ panic
]

-- Inversion of a successful bind.
pub continue-eq-ok {ℓ} :
    {S E A B : Type ℓ} (r : Run S E A) (f : A → Exec S E B) {b : B} {s : S}
    → continue r f ≡ ok b s
    → (a : A) × (t : S) × (r ≡ ok a t) × (f a t ≡ ok b s)
continue-eq-ok (ok a t) f h = (a, t, refl, h)
continue-eq-ok (err e t) f h = cc
continue-eq-ok panic f h = cc

pub continue-ext {ℓ} :
    {S E A B : Type ℓ} (r : Run S E A) (f g : A → Exec S E B)
    → ((a : A) → (s : S) → f a s ≡ g a s)
    → continue r f ≡ continue r g
continue-ext (ok a s) f g h = h a s
continue-ext (err e s) f g h = refl
continue-ext panic f g h = refl

pub ok-state {ℓ} :
    {S E A : Type ℓ} {a b : A} {s t : S} → ◌≡◌ {A = Run S E A} (ok a s) (ok b t) → s ≡ t
ok-state e = cc

pub Run-cases {ℓ} :
    {S E A : Type ℓ} (r : Run S E A)
    → (r ≡ panic) ⊎ (((a : A) × (s : S) × (r ≡ ok a s)) ⊎ ((e : E) × (s : S) × (r ≡ err e s)))
Run-cases (ok a s) = inr (inl (a, s, refl))
Run-cases (err e s) = inr (inr (e, s, refl))
Run-cases panic = inl refl

module _ {ℓ κ} {S E A : Type ℓ} {X : Type κ} where
  pub err-ne-ok : {a : A} {e : E} {s t : S} → ◌≡◌ {A = Run S E A} (err e t) (ok a s) → X
  err-ne-ok h = cc

  pub ok-ne-err : {a : A} {e : E} {s t : S} → ◌≡◌ {A = Run S E A} (ok a s) (err e t) → X
  ok-ne-err h = cc

  pub panic-ne-ok : {a : A} {s : S} → ◌≡◌ {A = Run S E A} panic (ok a s) → X
  panic-ne-ok h = cc

  pub panic-ne-err : {e : E} {s : S} → ◌≡◌ {A = Run S E A} panic (err e s) → X
  panic-ne-err h = cc

module _ {ℓ} {S E A : Type ℓ} where
  pub err-error : {d e : E} {s t : S} → ◌≡◌ {A = Run S E A} (err d s) (err e t) → d ≡ e
  err-error h = cc

  pub err-state : {d e : E} {s t : S} → ◌≡◌ {A = Run S E A} (err d s) (err e t) → s ≡ t
  err-state h = cc
