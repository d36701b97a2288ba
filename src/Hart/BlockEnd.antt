-- ===== src/Hart/BlockEnd.antt =====
-- `Hart::exec_BB_END`: the end of a block leads to the first instruction of one.
use besm.Prelude.{◌^◌, ◌<◌, Option, none, some, ◌≡◌, ◌≢◌}
use besm.Gprf
use besm.Instruction.{InstructionOp}
use besm.Csr.Registers.{Encoding}
use besm.Hart.{
  Hart, Step, Platform, next, dispatch, returned, terminated, raised, current_instr, read_register,
  fetch_bb,
}
use besm.Hart.Run.{handler, call_handler}
use besm.Hart.Dispatch.{handler_arr_lem}
use besm.Hart.Fetch.{IsSteady, Entered, fetch_bb_lem}
use besm.Hart.System.{exec_bb_end, or_raised}

module _ {M : Type 0} (platform : Platform M) where
  -- A step that executes the first instruction of a whole block of the program counter next, or
  -- where a load of that block throws.
  unfoldable pub Starts : Hart M → Step M → Type 0
  Starts hart (dispatch after) = Entered platform hart (some after)
  Starts hart raised = Entered platform hart none
  Starts hart (next after) = ⊥
  Starts hart (returned after) = ⊥
  Starts hart terminated = ⊥

  started :
      (hart : Hart M) (o : Option (Hart M))
      → Entered platform hart o
      → Starts hart (or_raised dispatch o)
  unfolding Starts or_raised
  started hart none e = e
  started hart (some after) e = e

module _ {M : Type 0} (platform : Platform M) (enc : Encoding) where
  -- The handler of BB_END.
  pub exec_bb_end-Starts :
      (hart : Hart M)
      → IsSteady platform hart.bb_cache
      → read_register Gprf.pc hart < 2 ^ 64
      → read_register Gprf.pc hart ≢ 1
      → Starts platform hart (exec_bb_end platform enc hart)
  unfolding exec_bb_end
  exec_bb_end-Starts hart steady h n =
      started platform hart (fetch_bb platform hart) (fetch_bb_lem platform hart steady h n)

  -- The handler called where the current instruction is BB_END, over a steady cache and at a
  -- program counter other than 1: the instruction executed next is the first one of a whole block
  -- of the program counter, the cache is steady again and the registers are as they were, or the
  -- load of one of the seven words from the program counter on throws.
  pub bb_end-Starts :
      (hart : Hart M)
      → (current_instr hart).operation ≡ InstructionOp.bb_end
      → IsSteady platform hart.bb_cache
      → read_register Gprf.pc hart < 2 ^ 64
      → read_register Gprf.pc hart ≢ 1
      → Starts platform hart (call_handler platform enc hart)
  unfolding call_handler handler
  bb_end-Starts hart e steady h n =
      rw (handler_arr_lem (current_instr hart).operation, e) (exec_bb_end-Starts hart steady h n)
