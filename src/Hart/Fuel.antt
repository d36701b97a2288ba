-- ===== src/Hart/Fuel.antt =====
-- The run on fuel: more fuel goes on where less was cut off.
use besm.Prelude.{ℕ, zero, suc, ◌+◌, ◌≡◌, refl, sym, ap, arith}
use besm.Csr.Registers.{Encoding}
use besm.Hart.{Hart, Step, Platform, next, dispatch, returned, terminated, raised}
use besm.Hart.Run.{run_from}

module _ {M : Type 0} (platform : Platform M) (enc : Encoding) where
  still_returned : (n : ℕ) (hart : Hart M) → run_from platform enc n (returned hart) ≡ returned hart
  unfolding run_from
  still_returned zero hart = refl
  still_returned (suc n) hart = refl

  still_terminated : (n : ℕ) → run_from platform enc n terminated ≡ terminated
  unfolding run_from
  still_terminated zero = refl
  still_terminated (suc n) = refl

  still_raised : (n : ℕ) → run_from platform enc n raised ≡ raised
  unfolding run_from
  still_raised zero = refl
  still_raised (suc n) = refl

  suc_sum : (m n : ℕ) → suc m + n ≡ suc (m + n)
  suc_sum m n = omega arith

  zero_sum : (n : ℕ) → 0 + n ≡ n
  zero_sum n = omega arith

  -- Fuel in two portions is fuel in one: the loop of handlers does not depend on where it is cut.
  pub run_from-add :
      (m n : ℕ) (step : Step M)
      → run_from platform enc (m + n) step ≡ run_from platform enc n (run_from platform enc m step)
  unfolding run_from
  run_from-add zero n step = ap (λ k. run_from platform enc k step) (zero_sum n)
  run_from-add (suc m) n (next hart) = rw (suc_sum m n) (run_from-add m n _)
  run_from-add (suc m) n (dispatch hart) = rw (suc_sum m n) (run_from-add m n _)
  run_from-add (suc m) n (returned hart) = rw (suc_sum m n) (sym (still_returned n hart))
  run_from-add (suc m) n terminated = rw (suc_sum m n) (sym (still_terminated n))
  run_from-add (suc m) n raised = rw (suc_sum m n) (sym (still_raised n))
