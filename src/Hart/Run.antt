-- ===== src/Hart/Run.antt =====
-- src/sim/hart.cpp and the table in include/besm-666/sim/hart.hpp: how a handler is found, and the
-- run. Handlers call each other last, so the run is a loop over their steps, on fuel.
use besm.Prelude.{ℕ, zero, suc, ◌+◌, ◌%◌, ◌^◌, List, [], ◌∷◌, get_or}
use besm.Instruction.{InstructionOp, ordinal}
use besm.Csr.Registers.{Encoding}
use besm.Hart.{
  Hart, Step, Platform, next, dispatch, returned, terminated, raised, current_instr, instr_executed,
}
use besm.Hart.Arithmetic
use besm.Hart.Control
use besm.Hart.Transfer
use besm.Hart.System

-- `HANDLER_ARR`: a handler goes by the operation in its name.
abbrev pub handler_arr : List InstructionOp
handler_arr =
    InstructionOp.inv_op ∷ InstructionOp.lui ∷ InstructionOp.auipc ∷ InstructionOp.jal
    ∷ InstructionOp.jalr ∷ InstructionOp.beq ∷ InstructionOp.bne ∷ InstructionOp.blt
    ∷ InstructionOp.bge ∷ InstructionOp.bltu ∷ InstructionOp.bgeu ∷ InstructionOp.lb
    ∷ InstructionOp.lh ∷ InstructionOp.lw ∷ InstructionOp.lbu ∷ InstructionOp.lhu ∷ InstructionOp.sb
    ∷ InstructionOp.sh ∷ InstructionOp.sw ∷ InstructionOp.addi ∷ InstructionOp.slti
    ∷ InstructionOp.sltiu ∷ InstructionOp.xori ∷ InstructionOp.ori ∷ InstructionOp.andi
    ∷ InstructionOp.add ∷ InstructionOp.sub ∷ InstructionOp.sll ∷ InstructionOp.slt
    ∷ InstructionOp.sltu ∷ InstructionOp.xor ∷ InstructionOp.srl ∷ InstructionOp.sra
    ∷ InstructionOp.or ∷ InstructionOp.and ∷ InstructionOp.fence ∷ InstructionOp.fence_tso
    ∷ InstructionOp.pause ∷ InstructionOp.ecall ∷ InstructionOp.ebreak ∷ InstructionOp.lwu
    ∷ InstructionOp.ld ∷ InstructionOp.sd ∷ InstructionOp.slli ∷ InstructionOp.srli
    ∷ InstructionOp.srai ∷ InstructionOp.addiw ∷ InstructionOp.slliw ∷ InstructionOp.srliw
    ∷ InstructionOp.sraiw ∷ InstructionOp.addw ∷ InstructionOp.subw ∷ InstructionOp.sllw
    ∷ InstructionOp.srlw ∷ InstructionOp.sraw ∷ InstructionOp.csrrw ∷ InstructionOp.csrrs
    ∷ InstructionOp.csrrc ∷ InstructionOp.csrrwi ∷ InstructionOp.csrrsi ∷ InstructionOp.csrrci
    ∷ InstructionOp.sret ∷ InstructionOp.mret ∷ InstructionOp.bb_end ∷ []

module _ {M : Type 0} where
  -- `Hart::execNextInstr` up to its call of the handler.
  unfoldable pub advance : Hart M → Hart M
  advance hart = record hart {
    instrs_executed = (hart.instrs_executed + 1) % 2 ^ 64;
    events = instr_executed (current_instr hart) ∷ hart.events;
    current = (hart.current.0, suc hart.current.1);
  }

module _ {M : Type 0} (platform : Platform M) (enc : Encoding) where
  unfoldable pub handler : InstructionOp → Hart M → Step M
  unfolding System.exec_inv_op Arithmetic.exec_lui Arithmetic.exec_auipc Control.exec_jal
      Control.exec_jalr Control.exec_beq Control.exec_bne Control.exec_blt Control.exec_bge
      Control.exec_bltu Control.exec_bgeu Transfer.exec_lb Transfer.exec_lh Transfer.exec_lw
      Transfer.exec_lbu Transfer.exec_lhu Transfer.exec_sb Transfer.exec_sh Transfer.exec_sw
      Arithmetic.exec_addi Arithmetic.exec_slti Arithmetic.exec_sltiu Arithmetic.exec_xori
      Arithmetic.exec_ori Arithmetic.exec_andi Arithmetic.exec_add Arithmetic.exec_sub
      Arithmetic.exec_sll Arithmetic.exec_slt Arithmetic.exec_sltu Arithmetic.exec_xor
      Arithmetic.exec_srl Arithmetic.exec_sra Arithmetic.exec_or Arithmetic.exec_and
      System.exec_fence System.exec_fence_tso System.exec_pause System.exec_ecall System.exec_ebreak
      Transfer.exec_lwu Transfer.exec_ld Transfer.exec_sd Arithmetic.exec_slli Arithmetic.exec_srli
      Arithmetic.exec_srai Arithmetic.exec_addiw Arithmetic.exec_slliw Arithmetic.exec_srliw
      Arithmetic.exec_sraiw Arithmetic.exec_addw Arithmetic.exec_subw Arithmetic.exec_sllw
      Arithmetic.exec_srlw Arithmetic.exec_sraw System.exec_csrrw System.exec_csrrs
      System.exec_csrrc System.exec_csrrwi System.exec_csrrsi System.exec_csrrci System.exec_sret
      System.exec_mret System.exec_bb_end
  handler InstructionOp.inv_op hart = System.exec_inv_op platform enc hart
  handler InstructionOp.lui hart = Arithmetic.exec_lui hart
  handler InstructionOp.auipc hart = Arithmetic.exec_auipc hart
  handler InstructionOp.jal hart = Control.exec_jal hart
  handler InstructionOp.jalr hart = Control.exec_jalr hart
  handler InstructionOp.beq hart = Control.exec_beq hart
  handler InstructionOp.bne hart = Control.exec_bne hart
  handler InstructionOp.blt hart = Control.exec_blt hart
  handler InstructionOp.bge hart = Control.exec_bge hart
  handler InstructionOp.bltu hart = Control.exec_bltu hart
  handler InstructionOp.bgeu hart = Control.exec_bgeu hart
  handler InstructionOp.lb hart = Transfer.exec_lb platform hart
  handler InstructionOp.lh hart = Transfer.exec_lh platform hart
  handler InstructionOp.lw hart = Transfer.exec_lw platform hart
  handler InstructionOp.lbu hart = Transfer.exec_lbu platform hart
  handler InstructionOp.lhu hart = Transfer.exec_lhu platform hart
  handler InstructionOp.sb hart = Transfer.exec_sb platform hart
  handler InstructionOp.sh hart = Transfer.exec_sh platform hart
  handler InstructionOp.sw hart = Transfer.exec_sw platform hart
  handler InstructionOp.addi hart = Arithmetic.exec_addi hart
  handler InstructionOp.slti hart = Arithmetic.exec_slti hart
  handler InstructionOp.sltiu hart = Arithmetic.exec_sltiu hart
  handler InstructionOp.xori hart = Arithmetic.exec_xori hart
  handler InstructionOp.ori hart = Arithmetic.exec_ori hart
  handler InstructionOp.andi hart = Arithmetic.exec_andi hart
  handler InstructionOp.add hart = Arithmetic.exec_add hart
  handler InstructionOp.sub hart = Arithmetic.exec_sub hart
  handler InstructionOp.sll hart = Arithmetic.exec_sll platform hart
  handler InstructionOp.slt hart = Arithmetic.exec_slt hart
  handler InstructionOp.sltu hart = Arithmetic.exec_sltu hart
  handler InstructionOp.xor hart = Arithmetic.exec_xor hart
  handler InstructionOp.srl hart = Arithmetic.exec_srl platform hart
  handler InstructionOp.sra hart = Arithmetic.exec_sra platform hart
  handler InstructionOp.or hart = Arithmetic.exec_or hart
  handler InstructionOp.and hart = Arithmetic.exec_and hart
  handler InstructionOp.fence hart = System.exec_fence hart
  handler InstructionOp.fence_tso hart = System.exec_fence_tso hart
  handler InstructionOp.pause hart = System.exec_pause platform enc hart
  handler InstructionOp.ecall hart = System.exec_ecall platform enc hart
  handler InstructionOp.ebreak hart = System.exec_ebreak hart
  handler InstructionOp.lwu hart = Transfer.exec_lwu platform hart
  handler InstructionOp.ld hart = Transfer.exec_ld platform hart
  handler InstructionOp.sd hart = Transfer.exec_sd platform hart
  handler InstructionOp.slli hart = Arithmetic.exec_slli hart
  handler InstructionOp.srli hart = Arithmetic.exec_srli hart
  handler InstructionOp.srai hart = Arithmetic.exec_srai hart
  handler InstructionOp.addiw hart = Arithmetic.exec_addiw hart
  handler InstructionOp.slliw hart = Arithmetic.exec_slliw platform hart
  handler InstructionOp.srliw hart = Arithmetic.exec_srliw platform hart
  handler InstructionOp.sraiw hart = Arithmetic.exec_sraiw platform hart
  handler InstructionOp.addw hart = Arithmetic.exec_addw hart
  handler InstructionOp.subw hart = Arithmetic.exec_subw hart
  handler InstructionOp.sllw hart = Arithmetic.exec_sllw platform hart
  handler InstructionOp.srlw hart = Arithmetic.exec_srlw platform hart
  handler InstructionOp.sraw hart = Arithmetic.exec_sraw platform hart
  handler InstructionOp.csrrw hart = System.exec_csrrw platform enc hart
  handler InstructionOp.csrrs hart = System.exec_csrrs platform enc hart
  handler InstructionOp.csrrc hart = System.exec_csrrc platform enc hart
  handler InstructionOp.csrrwi hart = System.exec_csrrwi platform enc hart
  handler InstructionOp.csrrsi hart = System.exec_csrrsi platform enc hart
  handler InstructionOp.csrrci hart = System.exec_csrrci platform enc hart
  handler InstructionOp.sret hart = System.exec_sret hart
  handler InstructionOp.mret hart = System.exec_mret platform enc hart
  handler InstructionOp.bb_end hart = System.exec_bb_end platform enc hart

  -- `(*HANDLER_ARR[currentInstr_->operation])(hart)`
  unfoldable pub call_handler : Hart M → Step M
  unfolding ordinal handler
  call_handler hart =
      handler (get_or handler_arr (ordinal (current_instr hart).operation) InstructionOp.inv_op)
        hart

  -- The chain of calls that a step begins, cut off after `fuel` handlers.
  unfoldable pub run_from : ℕ → Step M → Step M
  unfolding call_handler advance
  run_from zero step = step
  run_from (suc fuel) (next hart) = run_from fuel (call_handler (advance hart))
  run_from (suc fuel) (dispatch hart) = run_from fuel (call_handler hart)
  run_from (suc fuel) (returned hart) = returned hart
  run_from (suc fuel) terminated = terminated
  run_from (suc fuel) raised = raised

  -- `Hart::run`
  unfoldable pub run : ℕ → Hart M → Step M
  unfolding run_from System.exec_bb_end
  run fuel hart = run_from fuel (System.exec_bb_end platform enc hart)
