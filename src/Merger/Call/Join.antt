-- ===== src/Merger/Call/Join.antt =====
-- The merge of call results as a join: a result knows more than a request, two results must agree.
use aquavm.Prelude.{
  ◌≡◌, ◌≢◌, ◌⊎◌, ◌↔◌, ◌∙◌, sym, ap, Bool-cases, inl, inr, refl, arith, str_eq, eq_iff, done, fail,
}
use aquavm.Data.{Cid, ValueRef, CallResult}
use aquavm.Merger.{PreparationScheme, MergeError, CallResultError}
use aquavm.Merger.Call.{MergeResult, merge_executed, merge_call_results}

-- The reference without the generation that it was read in.
abbrev pub forget : ValueRef → ValueRef
forget (ValueRef.stream c g) = ValueRef.stream c 0
forget v = v

-- The values agree: they are of one kind and point to one result. Generations may differ.
abbrev pub SameValue : ValueRef → ValueRef → Type 0
SameValue v w = forget v ≡ forget w

-- `a` tells no more than `b`, and does not contradict it. Who sent a request is not compared.
abbrev pub Below : CallResult → CallResult → Type 0
Below (CallResult.request_sent_by s) b = Unit {0}
Below (CallResult.executed v) (CallResult.executed w) = SameValue v w
Below (CallResult.failed c) (CallResult.failed d) = c ≡ d
Below _ _ = ⊥

-- Some result is above both.
abbrev pub Compatible : CallResult → CallResult → Type 0
Compatible a b = (c : CallResult) × Below a c × Below b c

abbrev differ : ValueRef → ValueRef → MergeError
differ v w = MergeError.incorrect_call_result (CallResultError.values_not_equal v w)

abbrev clash : CallResult → CallResult → MergeError
clash a b = MergeError.incorrect_call_result (CallResultError.incompatible_call_results a b)

-- Two executed values merge to the previous one, if they agree, and are refused if not.
pub merge_executed-cases :
    (v w : ValueRef)
    → (SameValue v w × (merge_executed v w ≡ done (CallResult.executed v)))
      ⊎ ((¬ SameValue v w) × (e : MergeError) × (merge_executed v w ≡ fail e))
unfolding merge_executed
merge_executed-cases (ValueRef.scalar c) (ValueRef.scalar d) = elim (Bool-cases (str_eq c d)) [
  | inl e ↦ inl (cc ((eq_iff c d).0 e), rw e)
  | inr e ↦ inr (ground (arith, eq_iff c d), differ (ValueRef.scalar c) (ValueRef.scalar d), rw e)
]
merge_executed-cases (ValueRef.stream c g) (ValueRef.stream d h) = elim (Bool-cases (str_eq c d)) [
  | inl e ↦ inl (cc ((eq_iff c d).0 e), rw e)
  | inr e ↦
      inr (ground (arith, eq_iff c d), differ (ValueRef.stream c g) (ValueRef.stream d h), rw e)
]
merge_executed-cases (ValueRef.unused c) (ValueRef.unused d) = elim (Bool-cases (str_eq c d)) [
  | inl e ↦ inl (cc ((eq_iff c d).0 e), rw e)
  | inr e ↦ inr (ground (arith, eq_iff c d), differ (ValueRef.unused c) (ValueRef.unused d), rw e)
]
merge_executed-cases v w = inr (ground arith, differ v w, refl)

failed_apart :
    (c d : Cid)
    → c ≢ d
    → (x : CallResult) → Below (CallResult.failed c) x
    → Below (CallResult.failed d) x
    → ⊥
failed_apart c d ne (CallResult.failed x) h k = ne (h ∙ sym k)
failed_apart c d ne (CallResult.executed v) h k = h
failed_apart c d ne (CallResult.request_sent_by s) h k = h

executed_apart :
    (v w : ValueRef)
    → ¬ SameValue v w
    → (x : CallResult) → Below (CallResult.executed v) x
    → Below (CallResult.executed w) x
    → ⊥
executed_apart v w ne (CallResult.executed x) h k = ne (h ∙ sym k)
executed_apart v w ne (CallResult.failed c) h k = h
executed_apart v w ne (CallResult.request_sent_by s) h k = h

kinds_apart :
    (v : ValueRef) (c : Cid) (x : CallResult)
    → Below (CallResult.executed v) x
    → Below (CallResult.failed c) x
    → ⊥
kinds_apart v c (CallResult.executed x) h k = k
kinds_apart v c (CallResult.failed d) h k = h
kinds_apart v c (CallResult.request_sent_by s) h k = h

-- The merge on each pair of kinds, with its two failures.
abbrev Merged : CallResult → CallResult → MergeResult (CallResult × PreparationScheme) → Type 0
Merged a b r =
    ((c : CallResult) × (s : PreparationScheme) × (r ≡ done (c, s))
      × Below a c
      × Below b c
      × ((c ≡ a) ⊎ (c ≡ b)))
    ⊎ ((e : MergeError) × (r ≡ fail e) × ((c : CallResult) → Below a c → Below b c → ⊥))

merge_call_results-Merged : (a b : CallResult) → Merged a b (merge_call_results a b)
unfolding merge_call_results
merge_call_results-Merged (CallResult.failed c) (CallResult.failed d) =
    elim (Bool-cases (str_eq c d)) [
      | inl e ↦ inl (
        CallResult.failed c,
        PreparationScheme.previous,
        rw e,
        refl,
        sym ((eq_iff c d).0 e),
        inl refl,
      )
      | inr e ↦ inr (
        clash (CallResult.failed c) (CallResult.failed d),
        rw e,
        failed_apart c d (ground (arith, eq_iff c d)),
      )
    ]
merge_call_results-Merged (CallResult.request_sent_by s) (CallResult.failed c) =
    inl (_, _, refl, tt, refl, inr refl)
merge_call_results-Merged (CallResult.failed c) (CallResult.request_sent_by s) =
    inl (_, _, refl, refl, tt, inl refl)
merge_call_results-Merged (CallResult.request_sent_by s) (CallResult.request_sent_by t) =
    inl (_, _, refl, tt, tt, inl refl)
merge_call_results-Merged (CallResult.request_sent_by s) (CallResult.executed v) =
    inl (_, _, refl, tt, refl, inr refl)
merge_call_results-Merged (CallResult.executed v) (CallResult.request_sent_by s) =
    inl (_, _, refl, refl, tt, inl refl)
merge_call_results-Merged (CallResult.executed v) (CallResult.executed w) =
    elim (merge_executed-cases v w) [
      | inl (same, e) ↦
          inl (CallResult.executed v, PreparationScheme.both, rw e, refl, sym same, inl refl)
      | inr (ne, x, e) ↦ inr (x, rw e, executed_apart v w ne)
    ]
merge_call_results-Merged (CallResult.executed v) (CallResult.failed c) =
    inr (_, refl, kinds_apart v c)
merge_call_results-Merged (CallResult.failed c) (CallResult.executed v) =
    inr (_, refl, λ x h k. kinds_apart v c x k h)

Below-refl : (a : CallResult) → Below a a
Below-refl (CallResult.request_sent_by s) = tt
Below-refl (CallResult.executed v) = refl
Below-refl (CallResult.failed c) = refl

-- The merge of two call results succeeds exactly when some result is above both of them.
pub merge_call_results-done_iff :
    (a b : CallResult)
    → ((r : CallResult × PreparationScheme) × (merge_call_results a b ≡ done r))
      ↔ ((c : CallResult) × Below a c × Below b c)
merge_call_results-done_iff a b = elim (merge_call_results-Merged a b) [
  | inl (c, s, e, h, k, _) ↦ (λ _. (c, h, k), λ _. ((c, s), e))
  | inr (x, e, none_above) ↦ (λ r. cc (r.1), λ u. absurd (none_above u.0 u.1 u.2))
]

-- What a successful merge of two call results returns is one of the two, is above both, and is
-- below every result that is above both: it is their least upper bound.
pub merge_call_results-least :
    (a b c : CallResult) (s : PreparationScheme)
    → merge_call_results a b ≡ done (c, s)
    → Below a c
      × Below b c
      × ((c ≡ a) ⊎ (c ≡ b))
      × ((d : CallResult) → Below a d → Below b d → Below c d)
merge_call_results-least a b c s h = elim (merge_call_results-Merged a b) [
  | inl (c', s', e, ha, hb, pick) ↦
      let same : c' ≡ c = cc in
      rw (← same) (ha, hb, pick, elim pick [ inl p ↦ λ d h k. rw p h | inr p ↦ λ d h k. rw p k ])
  | inr (x, e, _) ↦ cc
]

-- Merging a result with itself succeeds and changes nothing.
pub merge_call_results_self :
    (a : CallResult) → (s : PreparationScheme) × (merge_call_results a a ≡ done (a, s))
merge_call_results_self a =
    let ((c, s), e) = (merge_call_results-done_iff a a).1 (a, Below-refl a, Below-refl a) in
    let same : c ≡ a = elim (merge_call_results-least a a c s e).2 [ inl p ↦ p | inr p ↦ p ] in
    (s, e ∙ ap (λ (x : CallResult). done (x, s)) same)

Below-trans : (a b c : CallResult) → Below a b → Below b c → Below a c
Below-trans (CallResult.request_sent_by s) b c h k = tt
Below-trans (CallResult.executed u) (CallResult.executed v) (CallResult.executed w) h k = h ∙ k
Below-trans (CallResult.executed u) (CallResult.executed v) (CallResult.failed w) h k = k
Below-trans (CallResult.executed u) (CallResult.executed v) (CallResult.request_sent_by w) h k = k
Below-trans (CallResult.executed u) (CallResult.failed v) c h k = absurd h
Below-trans (CallResult.executed u) (CallResult.request_sent_by v) c h k = absurd h
Below-trans (CallResult.failed u) (CallResult.failed v) (CallResult.failed w) h k = h ∙ k
Below-trans (CallResult.failed u) (CallResult.failed v) (CallResult.executed w) h k = k
Below-trans (CallResult.failed u) (CallResult.failed v) (CallResult.request_sent_by w) h k = k
Below-trans (CallResult.failed u) (CallResult.executed v) c h k = absurd h
Below-trans (CallResult.failed u) (CallResult.request_sent_by v) c h k = absurd h

-- The same knowledge: they differ at most in a sender, or in the generation of a stream value.
abbrev pub Same : CallResult → CallResult → Type 0
Same a b = Below a b × Below b a

-- Merging does not depend on which data is the previous: where two call results merge, they merge
-- the other way round too, with the same knowledge.
pub merge_call_results_comm :
    (a b c : CallResult) (s : PreparationScheme)
    → merge_call_results a b ≡ done (c, s)
    → (d : CallResult) × (t : PreparationScheme) × (merge_call_results b a ≡ done (d, t)) × Same c d
merge_call_results_comm a b c s h =
    let (ac, bc, _, least) = merge_call_results-least a b c s h in
    let ((d, t), e) = (merge_call_results-done_iff b a).1 (c, bc, ac) in
    let (bd, ad, _, least') = merge_call_results-least b a d t e in
    (d, t, e, (least d ad bd, least' c bc ac))

-- Merging does not depend on the grouping of three call results: where the merge from the left
-- succeeds, so does the one from the right, with the same knowledge.
pub merge_call_results_assoc :
    (a b c ab abc : CallResult) (s t : PreparationScheme)
    → merge_call_results a b ≡ done (ab, s)
    → merge_call_results ab c ≡ done (abc, t)
    → (bc r : CallResult) × (u v : PreparationScheme) × (merge_call_results b c ≡ done (bc, u))
      × (merge_call_results a bc ≡ done (r, v))
      × Same abc r
merge_call_results_assoc a b c ab abc s t h k =
    let (a_ab, b_ab, _, least_ab) = merge_call_results-least a b ab s h in
    let (ab_abc, c_abc, _, least_abc) = merge_call_results-least ab c abc t k in
    let a_abc : Below a abc = Below-trans a ab abc a_ab ab_abc in
    let b_abc : Below b abc = Below-trans b ab abc b_ab ab_abc in
    let ((bc, u), e) = (merge_call_results-done_iff b c).1 (abc, b_abc, c_abc) in
    let (b_bc, c_bc, _, least_bc) = merge_call_results-least b c bc u e in
    let ((r, v), f) = (merge_call_results-done_iff a bc).1 (abc, a_abc, least_bc abc b_abc c_abc) in
    let (a_r, bc_r, _, least_r) = merge_call_results-least a bc r v f in
    let ab_r : Below ab r = least_ab r a_r (Below-trans b bc r b_bc bc_r) in
    (
      bc,
      r,
      u,
      v,
      e,
      f,
      (
        least_abc r ab_r (Below-trans c bc r c_bc bc_r),
        least_r abc a_abc (least_bc abc b_abc c_abc),
      ),
    )
