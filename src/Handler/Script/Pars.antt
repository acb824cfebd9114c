-- ===== src/Handler/Script/Pars.antt =====
-- One slider across a par: before it, in its subgraphs, between them and behind them.
use aquavm.Prelude.{
  ℕ, ◌+◌, ◌≤◌, ◌≡◌, refl, ap, arith, List, ◌++◌, Bool, true, false, length, length-append,
  append_assoc,
}
use aquavm.Data.{ParResult, ExecutedState}
use aquavm.Slider.{TraceSlider}
use aquavm.Slider.Reads.{Reads, windowed, set_subtrace_len-windowed}
use aquavm.Fsm.Par.Moves.{Holds}
use aquavm.Handler.Script.{given}
use aquavm.Handler.Script.Sources.{Source}

-- The par that the source offers, `Default` if none.
abbrev pub sizes : Bool → List ExecutedState → List ExecutedState → ParResult
sizes b l1 l2 = record { left_size = length (given b l1); right_size = length (given b l2) }

given-append :
    (b : Bool) (xs ys : List ExecutedState) → given b (xs ++ ys) ≡ given b xs ++ given b ys
given-append true xs ys = refl
given-append false xs ys = refl

module _ (b : Bool) (l1 l2 rest : List ExecutedState) (s : TraceSlider) (m : ℕ)
    (v : Source b s m (l1 ++ l2) rest) where
  pub par-Holds : Holds s (sizes b l1 l2) m (given b l1 ++ (given b l2 ++ rest))
  par-Holds =
      let split : given b (l1 ++ l2) ++ rest ≡ given b l1 ++ (given b l2 ++ rest) =
        rw (given-append b l1 l2) (append_assoc (given b l1) (given b l2) rest) in
      let count : length (given b (l1 ++ l2)) + m ≡ length (given b l1) + length (given b l2) + m =
        omega (arith, ap length (given-append b l1 l2), length-append (given b l1) (given b l2)) in
      rw (split, count) at v.reads

  pub left-Source : Source b (windowed (length (given b l1)) s) 0 l1 (given b l2 ++ rest)
  left-Source = record {
    reads =
        let n : length (given b l1) + 0 ≡ length (given b l1) = omega arith in
        rw n
          (set_subtrace_len-windowed s (length (given b l1)) _ _ par-Holds
            (omega (arith, length-append (given b l1) (given b l2 ++ rest)))).1;
    exhausted = λ _. refl;
  }

  pub room : m ≤ length rest
  room = omega (
    arith,
    par-Holds.fits,
    length-append (given b l1) (given b l2 ++ rest),
    length-append (given b l2) rest,
  )

  module _ (t : TraceSlider) (same : t.trace ≡ s.trace) where
    pub right-position :
        Reads t 0 (given b l2 ++ rest) → t.position ≡ s.position + length (given b l1)
    right-position r = omega (
      arith,
      r.inside,
      par-Holds.inside,
      ap length same,
      length-append (given b l1) (given b l2 ++ rest),
    )

    pub right-Source :
        Reads t 0 (given b l2 ++ rest) → Source b (windowed (length (given b l2)) t) 0 l2 rest
    right-Source r = record {
      reads =
          let n : length (given b l2) + 0 ≡ length (given b l2) = omega arith in
          rw n
            (set_subtrace_len-windowed t (length (given b l2)) _ _ r
              (omega (arith, length-append (given b l2) rest))).1;
      exhausted = λ _. refl;
    }

    pub end-position :
        Reads t 0 rest → t.position ≡ s.position + (length (given b l1) + length (given b l2))
    end-position r = omega (
      arith,
      r.inside,
      par-Holds.inside,
      ap length same,
      length-append (given b l1) (given b l2 ++ rest),
      length-append (given b l2) rest,
    )

    pub end-Reads : Reads t 0 rest → Reads (windowed m t) m rest
    end-Reads r = (set_subtrace_len-windowed t m _ _ r room).1
