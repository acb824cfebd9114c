-- ===== src/Merger/Canon/Join.antt =====
-- The merge of canon results: which pairs are refused, and what the others give.
use aquavm.Prelude.{◌≡◌, ◌≢◌, ◌⊎◌, inl, inr, refl, arith, str_eq, eq_iff, done, fail, Bool-cases}
use aquavm.Data.{CanonResult}
use aquavm.Merger.{CanonResultError}
use aquavm.Merger.Canon.{merge_canon_results}

-- Two canon results clash if both are executed, with different content.
abbrev pub Clash : CanonResult → CanonResult → Type 0
Clash (CanonResult.executed p) (CanonResult.executed c) = p ≢ c
Clash _ _ = ⊥

abbrev pub IsExecuted : CanonResult → Type 0
IsExecuted (CanonResult.executed c) = Unit {0}
IsExecuted (CanonResult.request_sent_by p) = ⊥

-- The merge of canon results is refused exactly when they clash. Otherwise it is one of the two,
-- and it is executed as soon as one of them is.
pub merge_canon_results-cases :
    (p c : CanonResult)
    → (Clash p c × (merge_canon_results p c ≡ fail (CanonResultError.incompatible_state p c)))
      ⊎ ((¬ Clash p c)
          × (r : CanonResult) × (merge_canon_results p c ≡ done r)
          × ((r ≡ p) ⊎ (r ≡ c))
          × (IsExecuted p → IsExecuted r)
          × (IsExecuted c → IsExecuted r))
unfolding merge_canon_results
merge_canon_results-cases (CanonResult.executed p) (CanonResult.executed c) =
    elim (Bool-cases (str_eq p c)) [
      | inl e ↦
          inr (λ ne. ne ((eq_iff p c).0 e), CanonResult.executed p, rw e, inl refl, λ h. h, λ h. h)
      | inr e ↦ inl (ground (arith, eq_iff p c), rw e)
    ]
merge_canon_results-cases (CanonResult.request_sent_by p) (CanonResult.executed c) =
    inr (λ h. h, CanonResult.executed c, refl, inr refl, λ h. tt, λ h. h)
merge_canon_results-cases (CanonResult.executed p) (CanonResult.request_sent_by c) =
    inr (λ h. h, CanonResult.executed p, refl, inl refl, λ h. h, λ h. tt)
merge_canon_results-cases (CanonResult.request_sent_by p) (CanonResult.request_sent_by c) =
    inr (λ h. h, CanonResult.request_sent_by p, refl, inl refl, λ h. h, λ h. h)

pub no-Clash : (r : CanonResult) → ¬ Clash r r
no-Clash (CanonResult.executed c) h = h refl
no-Clash (CanonResult.request_sent_by p) h = h
