-- ===== src/Data/Eq.antt =====
-- `PartialEq` of the values in call and canon results, as the source derives it.
use aquavm.Prelude.{String, Bool, true, false, ◌&&◌, ◌≡◌, ◌↔◌, refl, arith, ◌==◌, str_eq, eq_iff}
use aquavm.Data.{Sender, ValueRef, CallResult}

unfoldable pub sender_eq : Sender → Sender → Bool
sender_eq (Sender.peer_id p) (Sender.peer_id q) = str_eq p q
sender_eq (Sender.peer_id_with_call_id p i) (Sender.peer_id_with_call_id q j) =
    str_eq p q && (i == j)
sender_eq _ _ = false

unfoldable pub value_ref_eq : ValueRef → ValueRef → Bool
value_ref_eq (ValueRef.scalar c) (ValueRef.scalar d) = str_eq c d
value_ref_eq (ValueRef.stream c g) (ValueRef.stream d h) = str_eq c d && (g == h)
value_ref_eq (ValueRef.unused c) (ValueRef.unused d) = str_eq c d
value_ref_eq _ _ = false

unfoldable pub call_result_eq : CallResult → CallResult → Bool
unfolding sender_eq value_ref_eq
call_result_eq (CallResult.request_sent_by s) (CallResult.request_sent_by t) = sender_eq s t
call_result_eq (CallResult.executed v) (CallResult.executed w) = value_ref_eq v w
call_result_eq (CallResult.failed c) (CallResult.failed d) = str_eq c d
call_result_eq _ _ = false

pub str_eq_refl : (s : String) → str_eq s s ≡ true
str_eq_refl s = (eq_iff s s).1 refl

-- The derived test decides equality of value references.
pub value_ref_eq_iff : (v w : ValueRef) → (value_ref_eq v w ≡ true) ↔ (v ≡ w)
unfolding value_ref_eq
value_ref_eq_iff (ValueRef.scalar c) (ValueRef.scalar d) =
    (ground (arith, eq_iff c d), ground (arith, eq_iff c d))
value_ref_eq_iff (ValueRef.stream c g) (ValueRef.stream d h) =
    (ground (arith, eq_iff c d), ground (arith, eq_iff c d))
value_ref_eq_iff (ValueRef.unused c) (ValueRef.unused d) =
    (ground (arith, eq_iff c d), ground (arith, eq_iff c d))
value_ref_eq_iff _ _ = (ground arith, ground arith)

pub sender_eq_iff : (s t : Sender) → (sender_eq s t ≡ true) ↔ (s ≡ t)
unfolding sender_eq
sender_eq_iff (Sender.peer_id p) (Sender.peer_id q) =
    (ground (arith, eq_iff p q), ground (arith, eq_iff p q))
sender_eq_iff (Sender.peer_id_with_call_id p i) (Sender.peer_id_with_call_id q j) =
    (ground (arith, eq_iff p q), ground (arith, eq_iff p q))
sender_eq_iff _ _ = (ground arith, ground arith)

pub call_result_eq_iff : (a b : CallResult) → (call_result_eq a b ≡ true) ↔ (a ≡ b)
unfolding call_result_eq
call_result_eq_iff (CallResult.request_sent_by s) (CallResult.request_sent_by t) =
    (ground (arith, sender_eq_iff s t), ground (arith, sender_eq_iff s t))
call_result_eq_iff (CallResult.executed v) (CallResult.executed w) =
    (ground (arith, value_ref_eq_iff v w), ground (arith, value_ref_eq_iff v w))
call_result_eq_iff (CallResult.failed c) (CallResult.failed d) =
    (ground (arith, eq_iff c d), ground (arith, eq_iff c d))
call_result_eq_iff _ _ = (ground arith, ground arith)
