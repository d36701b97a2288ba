-- ===== src/Hart/Start.antt =====
-- A hart as its constructor makes it, and the start of its run.
use besm.Prelude.{ℕ, ◌<◌, ◌≡◌, refl, subst, arith}
use besm.Instruction.{Instruction}
use besm.Gprf
use besm.Csr.Registers.{Encoding, IsStandard, RegisterName}
use besm.Csr.File
use besm.Csr.Ready.{new-IsReady}
use besm.Hart.{
  Hart, Step, Platform, new, next, dispatch, returned, terminated, raised, load_instr,
  read_register,
}
use besm.Block.Assembly.{IsFinished, Throws}
use besm.Hart.Fetch.{IsSteady, Entered, new-IsSteady}
use besm.Hart.BlockEnd.{Starts, exec_bb_end-Starts}
use besm.Hart.Run.{run, run_from}
use besm.Hart.Return.{IsSound}

module _ {M : Type 0} (platform : Platform M) where
  -- A step that executes the first instruction of a whole block of address 0 next, or where a load
  -- of that block throws.
  unfoldable pub Boots : Step M → Type 0
  Boots (dispatch after) =
      (after.current.1 ≡ 0)
      × IsFinished (load_instr platform) 0 (after.bb_cache.bbs after.current.0)
      × IsSteady platform after.bb_cache
  Boots raised = Throws (load_instr platform) 0
  Boots (next after) = ⊥
  Boots (returned after) = ⊥
  Boots terminated = ⊥

  booted :
      (hart : Hart M) (step : Step M)
      → read_register Gprf.pc hart ≡ 0
      → Starts platform hart step
      → Boots step
  unfolding Starts Entered Boots
  booted hart (dispatch after) e (at, whole, steady, gprf, csrf) = (
    at,
    subst (λ pc. IsFinished (load_instr platform) pc (after.bb_cache.bbs after.current.0)) e whole,
    steady,
  )
  booted hart raised e throws = subst (λ pc. Throws (load_instr platform) pc) e throws
  booted hart (next after) e is = absurd is
  booted hart (returned after) e is = absurd is
  booted hart terminated e is = absurd is

module _ {M : Type 0} (platform : Platform M) (enc : Encoding) (standard : IsStandard enc)
    (cells : ℕ → ℕ) (words : RegisterName → ℕ) (instrs : ℕ → ℕ → Instruction) (memory : M) where
  at_zero : read_register Gprf.pc (new enc cells words instrs memory) ≡ 0
  unfolding new Gprf.new Gprf.read
  at_zero = refl

  at_level : (new enc cells words instrs memory).csrf.privillege < 4
  unfolding new File.new
  at_level = omega arith

  -- A new hart, whatever its memory held before it was made: its cache is steady, its registers
  -- are sound, and its run begins with the handler of BB_END, behind which the instruction executed
  -- next is the first one of a whole block of address 0, over a steady cache again, or the load of
  -- one of the seven words from address 0 on throws.
  pub new-Boots :
      IsSteady platform (new enc cells words instrs memory).bb_cache
      × IsSound enc standard (new enc cells words instrs memory)
      × Boots platform (run platform enc 0 (new enc cells words instrs memory))
  unfolding new run run_from
  new-Boots =
      let ready = new-IsReady enc standard words in
      let steady = new-IsSteady platform instrs in
      (
        steady,
        record { words = ready.0.words; level = at_level; counter = rw at_zero (omega arith) },
        booted platform (new enc cells words instrs memory) _ at_zero (
            exec_bb_end-Starts platform enc (new enc cells words instrs memory) steady
              (rw at_zero (omega arith)) (λ e. omega (arith, at_zero, e))),
      )
