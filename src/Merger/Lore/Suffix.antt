-- ===== src/Merger/Lore/Suffix.antt =====
-- `compute_before_lens` against sums of suffixes.
use aquavm.Prelude.{
  ℕ, zero, suc, ◌+◌, ◌-◌, ◌<◌, ◌≡◌, ◌⊎◌, inl, inr, refl, ap, sym, ◌∙◌, arith, some, List, [], ◌∷◌,
  ◌++◌, length, get_elem?, u32_mod, append_assoc, append-nil, length-append, set-append_here,
  get_elem?-append_here, leb-false,
}
use native.Mathlib.Nat.{zero-add}
use aquavm.Merger.Lore.{LoresLen, before_loop, compute_before_lens}

-- The sum of the lens before `next`.
abbrev pub total_before : List LoresLen → ℕ
total_before [] = 0
total_before (l ∷ ls) = l.before_len + total_before ls

-- Each length before `next` becomes the sum of the lengths from it to the end, and the base.
abbrev pub suffixes : ℕ → List LoresLen → List LoresLen
suffixes base [] = []
suffixes base (l ∷ ls) =
    record l { before_len = l.before_len + total_before ls + base } ∷ suffixes base ls

abbrev Snoc : List LoresLen → Type 0
Snoc xs = (xs ≡ []) ⊎ ((ys : List LoresLen) × (y : LoresLen) × (xs ≡ ys ++ y ∷ []))

snoc : (xs : List LoresLen) → Snoc xs
snoc [] = inl refl
snoc (x ∷ xs) = elim (snoc xs) [
  | inl e ↦ inr ([], x, ap (◌∷◌ x) e)
  | inr (ys, y, e) ↦ inr (x ∷ ys, y, ap (◌∷◌ x) e)
]

pub total_before-append :
    (xs ys : List LoresLen) → total_before (xs ++ ys) ≡ total_before xs + total_before ys
total_before-append [] ys = omega arith
total_before-append (x ∷ xs) ys = omega (arith, total_before-append xs ys)

-- A last element moves its length into the base.
pub suffixes-snoc :
    (base : ℕ) (ys : List LoresLen) (y : LoresLen)
    → suffixes base (ys ++ y ∷ [])
      ≡ suffixes (y.before_len + base) ys ++ record y { before_len = y.before_len + base } ∷ []
suffixes-snoc base [] y = ground (arith)
suffixes-snoc base (x ∷ ys) y =
    ground (arith, suffixes-snoc base ys y, total_before-append ys (y ∷ []))

abbrev summed : LoresLen → ℕ → LoresLen
summed y n = record y { before_len = n }

before_loop_step :
    (cum after : ℕ) (pre ys : List LoresLen) (y : LoresLen) (post : List LoresLen)
    → cum + y.before_len + after < u32_mod
    → before_loop (suc (length ys)) (length pre) cum after (pre ++ ((ys ++ y ∷ []) ++ post))
      ≡ before_loop
          (length ys)
          (length pre)
          (cum + y.before_len)
          after
          (pre ++ (ys ++ summed y (cum + y.before_len + after) ∷ post))
unfolding before_loop
before_loop_step cum after pre ys y post h =
    let shape : pre ++ ((ys ++ y ∷ []) ++ post) ≡ (pre ++ ys) ++ y ∷ post = simp append_assoc in
    let place : length pre + length ys ≡ length (pre ++ ys) = sym (length-append pre ys) in
    rw (shape, place, before_loop)
      (rw (get_elem?-append_here (pre ++ ys) y post, before_loop)
        (rw (leb-false _ _ h, before_loop)
          (rw (shape, place)
            (rw (set-append_here (pre ++ ys) y (summed y (cum + y.before_len + after)) post)
              (rw append_assoc)))))

before_loop-suffixes :
    (k cum after : ℕ) (pre group post : List LoresLen)
    → length group ≡ k
    → total_before group + cum + after < u32_mod
    → before_loop k (length pre) cum after (pre ++ (group ++ post))
      ≡ some (pre ++ (suffixes (cum + after) group ++ post))
unfolding before_loop
before_loop-suffixes zero cum after pre [] post n h = refl
before_loop-suffixes zero cum after pre (x ∷ group) post n h = absurd (omega arith)
before_loop-suffixes (suc k) cum after pre group post n h = elim (snoc group) [
  | inl e ↦ absurd (omega (arith, ap length e))
  | inr (ys, y, e) ↦
      let many : k ≡ length ys = omega (arith, ap length e, length-append ys (y ∷ [])) in
      let room : total_before ys + (cum + y.before_len) + after < u32_mod =
        omega (arith, ap total_before e, total_before-append ys (y ∷ [])) in
      let next : LoresLen = summed y (cum + y.before_len + after) in
      let step : before_loop (suc k) (length pre) cum after (pre ++ (group ++ post))
          ≡ before_loop k (length pre) (cum + y.before_len) after (pre ++ (ys ++ next ∷ post)) =
        rw (e, many) (before_loop_step cum after pre ys y post (omega arith)) in
      let sums : cum + y.before_len + after ≡ y.before_len + (cum + after) = omega arith in
      step
      ∙ before_loop-suffixes k (cum + y.before_len) after pre ys (next ∷ post) (sym many) room
      ∙ rw (e, suffixes-snoc (cum + after) ys y, sums, append_assoc)
]

-- Where the lens of a generation that is not empty fit into u32 together, the back traversal of
-- it does not panic: each length before `next` becomes its sum with those of the later iterations
-- and with the last length after `next`; the lens of earlier generations stay the same.
pub compute_before_lens-suffixes :
    (pre group : List LoresLen) (last : LoresLen)
    → total_before (group ++ last ∷ []) + last.after_len < u32_mod
    → compute_before_lens (pre ++ (group ++ last ∷ [])) (length pre) (length pre + length group)
      ≡ some (pre ++ suffixes last.after_len (group ++ last ∷ []))
unfolding compute_before_lens
compute_before_lens-suffixes pre group last h =
    let all : List LoresLen = group ++ last ∷ [] in
    let found : get_elem? (pre ++ all) (length pre + length group) ≡ some last =
      rw (← append_assoc, ← length-append pre group)
        (get_elem?-append_here (pre ++ group) last []) in
    let rounds : suc (length pre + length group) - length pre ≡ suc (length group) = omega arith in
    let count : length all ≡ suc (length group) = omega (arith, length-append group (last ∷ [])) in
    let room : total_before all + 0 + last.after_len < u32_mod = omega arith in
    rw (found, compute_before_lens)
      (rw (rounds, compute_before_lens)
        (simp (append-nil, zero-add) at
          (before_loop-suffixes (suc (length group)) 0 last.after_len pre all [] count room)))
