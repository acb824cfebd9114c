-- ===== src/Interpreter/Laws/Xor.antt =====
-- air/src/execution_step/instructions/xor.rs: what the right branch of an `xor` starts from, and
-- what is left after it.
use aquavm.Prelude.{
  ◌≡◌, ◌⊎◌, inl, inr, refl, sym, ap, ok-state, err-error, err-state, err-ne-ok, ok-ne-err,
  panic-ne-ok, panic-ne-err, none, some, Bool, Bool-cases, true, if◌then◌else◌, Run, ok, err, panic,
}
use aquavm.Values.{Provenance}
use aquavm.Errors.{ExecutionError, CatchableError, Uncatchable}
use aquavm.Context.{
  ErrorObjects, InstructionError, ErrorDescriptor, no_error, clear_error_object_if_needed,
  enable_error_setting, meet_xor_right_branch, set_original_execution_error,
}
use aquavm.Interpreter.{
  Instruction, Machine, Execution, flush_subgraph_completeness, set_subgraph_completeness,
}
use aquavm.Interpreter.Control.{catch_left, after_right, before_right}

module _ {J C M H Foreign B : Type 0} where
  -- A branch starts in a subgraph that counts as complete.
  abbrev pub branch_start : Machine J C M H Foreign B → Machine J C M H Foreign B
  branch_start m = record m { exec_ctx = record m.exec_ctx { subgraph_completeness = true } }

  -- For a caught error the right branch has it in `:error:`, and both descriptors are open.
  abbrev pub right_start : CatchableError J → Machine J C M H Foreign B → Machine J C M H Foreign B
  right_start e m = record m {
    exec_ctx = record m.exec_ctx {
      subgraph_completeness = true;
      last_error_descriptor = record {
        error = (m.exec_ctx).last_error_descriptor.error;
        error_can_be_set = true;
      };
      error_descriptor = record {
        error = record (m.exec_ctx).error_descriptor.error { orig_catchable = some e };
        error_can_be_set = true;
      };
    };
  }

module _ {J : Type 0} ⦃objects : ErrorObjects J⦄ where
  -- `:error:` after a right branch: no error where it still could be set, and else what it was.
  abbrev pub error_left : ErrorDescriptor J → InstructionError J
  error_left d =
      if d.error_can_be_set
      then record {
        error = objects.no_error_object;
        tetraplet = none;
        provenance = Provenance.literal;
        orig_catchable = none;
      }
      else d.error

  cleared :
      (d : ErrorDescriptor J)
      → clear_error_object_if_needed d
        ≡ record { error = error_left d; error_can_be_set = d.error_can_be_set }
  unfolding clear_error_object_if_needed no_error
  cleared d = elim (Bool-cases d.error_can_be_set) [ inl e ↦ rw e refl | inr e ↦ rw e refl ]

module _ {J C M H Foreign B : Type 0} ⦃objects : ErrorObjects J⦄ where
  right_start-before_right :
      (e : CatchableError J) (m : Machine J C M H Foreign B) → before_right e m ≡ right_start e m
  unfolding before_right flush_subgraph_completeness set_subgraph_completeness meet_xor_right_branch
      set_original_execution_error enable_error_setting
  right_start-before_right e m = refl

  -- A machine whose `:error:` is left like that.
  abbrev pub right_end : Bool → Machine J C M H Foreign B → Machine J C M H Foreign B
  right_end can_be_set m = record m {
    exec_ctx = record m.exec_ctx {
      error_descriptor = record {
        error = error_left (m.exec_ctx).error_descriptor;
        error_can_be_set = can_be_set;
      };
    };
  }

  after_right-ok :
      (r : Run (Machine J C M H Foreign B) (ExecutionError J) (Unit {0}))
      (n : Machine J C M H Foreign B)
      → after_right r ≡ ok tt n
      → (q : Machine J C M H Foreign B) × (r ≡ ok tt q) × (n ≡ right_end true q)
  unfolding after_right enable_error_setting
  after_right-ok (ok a q) n h =
      (q, refl, rw (cleared (q.exec_ctx).error_descriptor) at (sym (ok-state h)))
  after_right-ok (err e q) n h = err-ne-ok h
  after_right-ok panic n h = panic-ne-ok h

  after_right-err :
      (r : Run (Machine J C M H Foreign B) (ExecutionError J) (Unit {0}))
      (n : Machine J C M H Foreign B) (e : ExecutionError J)
      → after_right r ≡ err e n
      → (q : Machine J C M H Foreign B) × (r ≡ err e q)
        × (n ≡ right_end ((q.exec_ctx).error_descriptor).error_can_be_set q)
  unfolding after_right
  after_right-err (ok a q) n e h = ok-ne-err h
  after_right-err (err d q) n e h = (
    q,
    ap (λ x. err x q) (err-error h),
    rw (cleared (q.exec_ctx).error_descriptor) at (sym (err-state h)),
  )
  after_right-err panic n e h = panic-ne-err h

  ok-after_right :
      (q : Machine J C M H Foreign B) → after_right (ok tt q) ≡ ok tt (right_end true q)
  unfolding after_right enable_error_setting
  ok-after_right q = rw (cleared (q.exec_ctx).error_descriptor) refl

  err-after_right :
      (q : Machine J C M H Foreign B) (e : ExecutionError J)
      → after_right (err e q) ≡ err e (right_end ((q.exec_ctx).error_descriptor).error_can_be_set q)
  unfolding after_right
  err-after_right q e = rw (cleared (q.exec_ctx).error_descriptor) refl

module _ {J C M H Foreign B : Type 0} ⦃objects : ErrorObjects J⦄
    (run : Instruction Foreign → Execution J C M H Foreign B (Unit {0})) where
  -- How a run of `xor` succeeds: the left branch does, or the right one after a catchable error.
  abbrev pub XorSucceeds :
      Instruction Foreign
      → Run (Machine J C M H Foreign B) (ExecutionError J) (Unit {0})
      → Machine J C M H Foreign B
      → Type 0
  XorSucceeds right r n =
      (r ≡ ok tt n)
      ⊎ ((e : CatchableError J) × (p q : Machine J C M H Foreign B) × (r
            ≡ err (ExecutionError.catchable e) p)
          × (run right (right_start e p) ≡ ok tt q)
          × (n ≡ right_end true q))

  -- How it fails: with an uncatchable error of the left branch, or with an error of the right one.
  abbrev pub XorFails :
      Instruction Foreign
      → Run (Machine J C M H Foreign B) (ExecutionError J) (Unit {0})
      → ExecutionError J
      → Machine J C M H Foreign B
      → Type 0
  XorFails right r e n =
      ((d : Uncatchable) × (e ≡ ExecutionError.uncatchable d) × (r ≡ err e n))
      ⊎ ((d : CatchableError J) × (p q : Machine J C M H Foreign B) × (r
            ≡ err (ExecutionError.catchable d) p)
          × (run right (right_start d p) ≡ err e q)
          × (n ≡ right_end ((q.exec_ctx).error_descriptor).error_can_be_set q))

  pub catch_left-ok :
      (right : Instruction Foreign)
      (r : Run (Machine J C M H Foreign B) (ExecutionError J) (Unit {0}))
      (n : Machine J C M H Foreign B)
      → catch_left run right r ≡ ok tt n
      → XorSucceeds right r n
  unfolding catch_left
  catch_left-ok right (ok a m) n h = inl h
  catch_left-ok right (err (ExecutionError.catchable e) m) n h =
      let c =
        after_right-ok (run right (right_start e m)) n (rw (right_start-before_right e m) at h) in
      inr (e, m, c.0, refl, c.1, c.2)
  catch_left-ok right (err (ExecutionError.uncatchable e) m) n h = err-ne-ok h
  catch_left-ok right panic n h = panic-ne-ok h

  pub catch_left-err :
      (right : Instruction Foreign)
      (r : Run (Machine J C M H Foreign B) (ExecutionError J) (Unit {0})) (e : ExecutionError J)
      (n : Machine J C M H Foreign B)
      → catch_left run right r ≡ err e n
      → XorFails right r e n
  unfolding catch_left
  catch_left-err right (ok a m) e n h = ok-ne-err h
  catch_left-err right (err (ExecutionError.catchable d) m) e n h =
      let c =
        after_right-err (run right (right_start d m)) n e
          (rw (right_start-before_right d m) at h) in
      inr (d, m, c.0, refl, c.1, c.2)
  catch_left-err right (err (ExecutionError.uncatchable d) m) e n h = inl (d, sym (err-error h), h)
  catch_left-err right panic e n h = panic-ne-err h

  pub XorSucceeds-catch_left :
      (right : Instruction Foreign)
      (r : Run (Machine J C M H Foreign B) (ExecutionError J) (Unit {0}))
      (n : Machine J C M H Foreign B)
      → XorSucceeds right r n
      → catch_left run right r ≡ ok tt n
  unfolding catch_left
  XorSucceeds-catch_left right r n (inl h) = rw h refl
  XorSucceeds-catch_left right r n (inr (e, p, q, h, g, end)) =
      rw (h, right_start-before_right e p, g, end) (ok-after_right q)

  pub XorFails-catch_left :
      (right : Instruction Foreign)
      (r : Run (Machine J C M H Foreign B) (ExecutionError J) (Unit {0})) (e : ExecutionError J)
      (n : Machine J C M H Foreign B)
      → XorFails right r e n
      → catch_left run right r ≡ err e n
  unfolding catch_left
  XorFails-catch_left right r e n (inl (d, is, h)) = rw (h, is) refl
  XorFails-catch_left right r e n (inr (d, p, q, h, g, end)) =
      rw (h, right_start-before_right d p, g, end) (err-after_right q e)
