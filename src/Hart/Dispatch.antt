-- ===== src/Hart/Dispatch.antt =====
-- The table of the handlers is in the order of the operations' numbers.
use besm.Prelude.{get_or, ◌≡◌, refl}
use besm.Instruction.{InstructionOp, ordinal}
use besm.Hart.Run.{handler_arr}

-- Every operation is executed by its own handler.
pub handler_arr_lem :
    (op : InstructionOp) → get_or handler_arr (ordinal op) InstructionOp.inv_op ≡ op
unfolding ordinal
handler_arr_lem InstructionOp.inv_op = refl
handler_arr_lem InstructionOp.lui = refl
handler_arr_lem InstructionOp.auipc = refl
handler_arr_lem InstructionOp.jal = refl
handler_arr_lem InstructionOp.jalr = refl
handler_arr_lem InstructionOp.beq = refl
handler_arr_lem InstructionOp.bne = refl
handler_arr_lem InstructionOp.blt = refl
handler_arr_lem InstructionOp.bge = refl
handler_arr_lem InstructionOp.bltu = refl
handler_arr_lem InstructionOp.bgeu = refl
handler_arr_lem InstructionOp.lb = refl
handler_arr_lem InstructionOp.lh = refl
handler_arr_lem InstructionOp.lw = refl
handler_arr_lem InstructionOp.lbu = refl
handler_arr_lem InstructionOp.lhu = refl
handler_arr_lem InstructionOp.sb = refl
handler_arr_lem InstructionOp.sh = refl
handler_arr_lem InstructionOp.sw = refl
handler_arr_lem InstructionOp.addi = refl
handler_arr_lem InstructionOp.slti = refl
handler_arr_lem InstructionOp.sltiu = refl
handler_arr_lem InstructionOp.xori = refl
handler_arr_lem InstructionOp.ori = refl
handler_arr_lem InstructionOp.andi = refl
handler_arr_lem InstructionOp.add = refl
handler_arr_lem InstructionOp.sub = refl
handler_arr_lem InstructionOp.sll = refl
handler_arr_lem InstructionOp.slt = refl
handler_arr_lem InstructionOp.sltu = refl
handler_arr_lem InstructionOp.xor = refl
handler_arr_lem InstructionOp.srl = refl
handler_arr_lem InstructionOp.sra = refl
handler_arr_lem InstructionOp.or = refl
handler_arr_lem InstructionOp.and = refl
handler_arr_lem InstructionOp.fence = refl
handler_arr_lem InstructionOp.fence_tso = refl
handler_arr_lem InstructionOp.pause = refl
handler_arr_lem InstructionOp.ecall = refl
handler_arr_lem InstructionOp.ebreak = refl
handler_arr_lem InstructionOp.lwu = refl
handler_arr_lem InstructionOp.ld = refl
handler_arr_lem InstructionOp.sd = refl
handler_arr_lem InstructionOp.slli = refl
handler_arr_lem InstructionOp.srli = refl
handler_arr_lem InstructionOp.srai = refl
handler_arr_lem InstructionOp.addiw = refl
handler_arr_lem InstructionOp.slliw = refl
handler_arr_lem InstructionOp.srliw = refl
handler_arr_lem InstructionOp.sraiw = refl
handler_arr_lem InstructionOp.addw = refl
handler_arr_lem InstructionOp.subw = refl
handler_arr_lem InstructionOp.sllw = refl
handler_arr_lem InstructionOp.srlw = refl
handler_arr_lem InstructionOp.sraw = refl
handler_arr_lem InstructionOp.csrrw = refl
handler_arr_lem InstructionOp.csrrs = refl
handler_arr_lem InstructionOp.csrrc = refl
handler_arr_lem InstructionOp.csrrwi = refl
handler_arr_lem InstructionOp.csrrsi = refl
handler_arr_lem InstructionOp.csrrci = refl
handler_arr_lem InstructionOp.sret = refl
handler_arr_lem InstructionOp.mret = refl
handler_arr_lem InstructionOp.bb_end = refl
