-- ===== src/Decoder/Encoding.antt =====
-- The instruction formats and opcodes of the RISC-V unprivileged and privileged manuals, written
-- down apart from the decoder.
use besm.Prelude.{ℕ, ◌+◌, ◌*◌, ◌/◌, ◌%◌, ◌^◌}
use besm.Instruction.{InstructionOp}

-- Register with register.
pub data RegisterOp : Type 0 where
  add sub sll slt sltu xor srl sra or and addw subw sllw srlw : RegisterOp
  sraw : RegisterOp

unfoldable pub register_op : RegisterOp → InstructionOp
register_op RegisterOp.add = InstructionOp.add
register_op RegisterOp.sub = InstructionOp.sub
register_op RegisterOp.sll = InstructionOp.sll
register_op RegisterOp.slt = InstructionOp.slt
register_op RegisterOp.sltu = InstructionOp.sltu
register_op RegisterOp.xor = InstructionOp.xor
register_op RegisterOp.srl = InstructionOp.srl
register_op RegisterOp.sra = InstructionOp.sra
register_op RegisterOp.or = InstructionOp.or
register_op RegisterOp.and = InstructionOp.and
register_op RegisterOp.addw = InstructionOp.addw
register_op RegisterOp.subw = InstructionOp.subw
register_op RegisterOp.sllw = InstructionOp.sllw
register_op RegisterOp.srlw = InstructionOp.srlw
register_op RegisterOp.sraw = InstructionOp.sraw

unfoldable pub register_funct7 : RegisterOp → ℕ
register_funct7 RegisterOp.add = 0
register_funct7 RegisterOp.sub = 32
register_funct7 RegisterOp.sll = 0
register_funct7 RegisterOp.slt = 0
register_funct7 RegisterOp.sltu = 0
register_funct7 RegisterOp.xor = 0
register_funct7 RegisterOp.srl = 0
register_funct7 RegisterOp.sra = 32
register_funct7 RegisterOp.or = 0
register_funct7 RegisterOp.and = 0
register_funct7 RegisterOp.addw = 0
register_funct7 RegisterOp.subw = 32
register_funct7 RegisterOp.sllw = 0
register_funct7 RegisterOp.srlw = 0
register_funct7 RegisterOp.sraw = 32

unfoldable pub register_funct3 : RegisterOp → ℕ
register_funct3 RegisterOp.add = 0
register_funct3 RegisterOp.sub = 0
register_funct3 RegisterOp.sll = 1
register_funct3 RegisterOp.slt = 2
register_funct3 RegisterOp.sltu = 3
register_funct3 RegisterOp.xor = 4
register_funct3 RegisterOp.srl = 5
register_funct3 RegisterOp.sra = 5
register_funct3 RegisterOp.or = 6
register_funct3 RegisterOp.and = 7
register_funct3 RegisterOp.addw = 0
register_funct3 RegisterOp.subw = 0
register_funct3 RegisterOp.sllw = 1
register_funct3 RegisterOp.srlw = 5
register_funct3 RegisterOp.sraw = 5

unfoldable pub register_opcode : RegisterOp → ℕ
register_opcode RegisterOp.add = 0b0110011
register_opcode RegisterOp.sub = 0b0110011
register_opcode RegisterOp.sll = 0b0110011
register_opcode RegisterOp.slt = 0b0110011
register_opcode RegisterOp.sltu = 0b0110011
register_opcode RegisterOp.xor = 0b0110011
register_opcode RegisterOp.srl = 0b0110011
register_opcode RegisterOp.sra = 0b0110011
register_opcode RegisterOp.or = 0b0110011
register_opcode RegisterOp.and = 0b0110011
register_opcode RegisterOp.addw = 0b0111011
register_opcode RegisterOp.subw = 0b0111011
register_opcode RegisterOp.sllw = 0b0111011
register_opcode RegisterOp.srlw = 0b0111011
register_opcode RegisterOp.sraw = 0b0111011

-- Register with a 12-bit immediate: loads, arithmetic, JALR and the CSR instructions.
pub data ImmediateOp : Type 0 where
  lb lh lw ld lbu lhu lwu addi slti sltiu xori ori andi addiw : ImmediateOp
  jalr csrrw csrrs csrrc csrrwi csrrsi csrrci : ImmediateOp

unfoldable pub immediate_op : ImmediateOp → InstructionOp
immediate_op ImmediateOp.lb = InstructionOp.lb
immediate_op ImmediateOp.lh = InstructionOp.lh
immediate_op ImmediateOp.lw = InstructionOp.lw
immediate_op ImmediateOp.ld = InstructionOp.ld
immediate_op ImmediateOp.lbu = InstructionOp.lbu
immediate_op ImmediateOp.lhu = InstructionOp.lhu
immediate_op ImmediateOp.lwu = InstructionOp.lwu
immediate_op ImmediateOp.addi = InstructionOp.addi
immediate_op ImmediateOp.slti = InstructionOp.slti
immediate_op ImmediateOp.sltiu = InstructionOp.sltiu
immediate_op ImmediateOp.xori = InstructionOp.xori
immediate_op ImmediateOp.ori = InstructionOp.ori
immediate_op ImmediateOp.andi = InstructionOp.andi
immediate_op ImmediateOp.addiw = InstructionOp.addiw
immediate_op ImmediateOp.jalr = InstructionOp.jalr
immediate_op ImmediateOp.csrrw = InstructionOp.csrrw
immediate_op ImmediateOp.csrrs = InstructionOp.csrrs
immediate_op ImmediateOp.csrrc = InstructionOp.csrrc
immediate_op ImmediateOp.csrrwi = InstructionOp.csrrwi
immediate_op ImmediateOp.csrrsi = InstructionOp.csrrsi
immediate_op ImmediateOp.csrrci = InstructionOp.csrrci

unfoldable pub immediate_funct3 : ImmediateOp → ℕ
immediate_funct3 ImmediateOp.lb = 0
immediate_funct3 ImmediateOp.lh = 1
immediate_funct3 ImmediateOp.lw = 2
immediate_funct3 ImmediateOp.ld = 3
immediate_funct3 ImmediateOp.lbu = 4
immediate_funct3 ImmediateOp.lhu = 5
immediate_funct3 ImmediateOp.lwu = 6
immediate_funct3 ImmediateOp.addi = 0
immediate_funct3 ImmediateOp.slti = 2
immediate_funct3 ImmediateOp.sltiu = 3
immediate_funct3 ImmediateOp.xori = 4
immediate_funct3 ImmediateOp.ori = 6
immediate_funct3 ImmediateOp.andi = 7
immediate_funct3 ImmediateOp.addiw = 0
immediate_funct3 ImmediateOp.jalr = 0
immediate_funct3 ImmediateOp.csrrw = 1
immediate_funct3 ImmediateOp.csrrs = 2
immediate_funct3 ImmediateOp.csrrc = 3
immediate_funct3 ImmediateOp.csrrwi = 5
immediate_funct3 ImmediateOp.csrrsi = 6
immediate_funct3 ImmediateOp.csrrci = 7

unfoldable pub immediate_opcode : ImmediateOp → ℕ
immediate_opcode ImmediateOp.lb = 0b0000011
immediate_opcode ImmediateOp.lh = 0b0000011
immediate_opcode ImmediateOp.lw = 0b0000011
immediate_opcode ImmediateOp.ld = 0b0000011
immediate_opcode ImmediateOp.lbu = 0b0000011
immediate_opcode ImmediateOp.lhu = 0b0000011
immediate_opcode ImmediateOp.lwu = 0b0000011
immediate_opcode ImmediateOp.addi = 0b0010011
immediate_opcode ImmediateOp.slti = 0b0010011
immediate_opcode ImmediateOp.sltiu = 0b0010011
immediate_opcode ImmediateOp.xori = 0b0010011
immediate_opcode ImmediateOp.ori = 0b0010011
immediate_opcode ImmediateOp.andi = 0b0010011
immediate_opcode ImmediateOp.addiw = 0b0011011
immediate_opcode ImmediateOp.jalr = 0b1100111
immediate_opcode ImmediateOp.csrrw = 0b1110011
immediate_opcode ImmediateOp.csrrs = 0b1110011
immediate_opcode ImmediateOp.csrrc = 0b1110011
immediate_opcode ImmediateOp.csrrwi = 0b1110011
immediate_opcode ImmediateOp.csrrsi = 0b1110011
immediate_opcode ImmediateOp.csrrci = 0b1110011

pub data StoreOp : Type 0 where
  sb sh sw sd : StoreOp

unfoldable pub store_op : StoreOp → InstructionOp
store_op StoreOp.sb = InstructionOp.sb
store_op StoreOp.sh = InstructionOp.sh
store_op StoreOp.sw = InstructionOp.sw
store_op StoreOp.sd = InstructionOp.sd

unfoldable pub store_funct3 : StoreOp → ℕ
store_funct3 StoreOp.sb = 0
store_funct3 StoreOp.sh = 1
store_funct3 StoreOp.sw = 2
store_funct3 StoreOp.sd = 3

pub data BranchOp : Type 0 where
  beq bne blt bge bltu bgeu : BranchOp

unfoldable pub branch_op : BranchOp → InstructionOp
branch_op BranchOp.beq = InstructionOp.beq
branch_op BranchOp.bne = InstructionOp.bne
branch_op BranchOp.blt = InstructionOp.blt
branch_op BranchOp.bge = InstructionOp.bge
branch_op BranchOp.bltu = InstructionOp.bltu
branch_op BranchOp.bgeu = InstructionOp.bgeu

unfoldable pub branch_funct3 : BranchOp → ℕ
branch_funct3 BranchOp.beq = 0
branch_funct3 BranchOp.bne = 1
branch_funct3 BranchOp.blt = 4
branch_funct3 BranchOp.bge = 5
branch_funct3 BranchOp.bltu = 6
branch_funct3 BranchOp.bgeu = 7

-- The six formats.
abbrev pub word_R : ℕ → ℕ → ℕ → ℕ → ℕ → ℕ → ℕ
word_R funct7 rs2 rs1 funct3 rd opcode =
    funct7 * 2 ^ 25 + rs2 * 2 ^ 20 + rs1 * 2 ^ 15 + funct3 * 2 ^ 12 + rd * 2 ^ 7 + opcode

abbrev pub word_I : ℕ → ℕ → ℕ → ℕ → ℕ → ℕ
word_I imm rs1 funct3 rd opcode =
    imm * 2 ^ 20 + rs1 * 2 ^ 15 + funct3 * 2 ^ 12 + rd * 2 ^ 7 + opcode

abbrev pub word_S : ℕ → ℕ → ℕ → ℕ → ℕ → ℕ
word_S imm rs2 rs1 funct3 opcode = word_R (imm / 32) rs2 rs1 funct3 (imm % 32) opcode

-- imm[12|10:5] and imm[4:1|11] of an even offset below `2 ^ 13`.
abbrev pub word_B : ℕ → ℕ → ℕ → ℕ → ℕ → ℕ
word_B offset rs2 rs1 funct3 opcode =
    word_R (offset / 2 ^ 12 * 2 ^ 6 + offset / 2 ^ 5 % 2 ^ 6) rs2 rs1 funct3
      (offset / 2 % 2 ^ 4 * 2 + offset / 2 ^ 11 % 2) opcode

abbrev pub word_U : ℕ → ℕ → ℕ → ℕ
word_U imm rd opcode = imm * 2 ^ 12 + rd * 2 ^ 7 + opcode

-- imm[20|10:1|11|19:12] of an even offset below `2 ^ 21`.
abbrev pub word_J : ℕ → ℕ → ℕ → ℕ
word_J offset rd opcode =
    (offset / 2 ^ 20 * 2 ^ 19
        + offset / 2 % 2 ^ 10 * 2 ^ 9
        + offset / 2 ^ 11 % 2 * 2 ^ 8
        + offset / 2 ^ 12 % 2 ^ 8)
      * 2 ^ 12
    + rd * 2 ^ 7
    + opcode

-- The words of an instruction with its operands.
unfoldable pub encode_register : RegisterOp → ℕ → ℕ → ℕ → ℕ
unfolding register_funct7 register_funct3 register_opcode
encode_register op rd rs1 rs2 =
    word_R (register_funct7 op) rs2 rs1 (register_funct3 op) rd (register_opcode op)

unfoldable pub encode_immediate : ImmediateOp → ℕ → ℕ → ℕ → ℕ
unfolding immediate_funct3 immediate_opcode
encode_immediate op rd rs1 imm = word_I imm rs1 (immediate_funct3 op) rd (immediate_opcode op)

unfoldable pub encode_store : StoreOp → ℕ → ℕ → ℕ → ℕ
unfolding store_funct3
encode_store op rs1 rs2 imm = word_S imm rs2 rs1 (store_funct3 op) 0b0100011

unfoldable pub encode_branch : BranchOp → ℕ → ℕ → ℕ → ℕ
unfolding branch_funct3
encode_branch op rs1 rs2 offset = word_B offset rs2 rs1 (branch_funct3 op) 0b1100011

unfoldable pub encode_lui : ℕ → ℕ → ℕ
encode_lui rd imm = word_U imm rd 0b0110111

unfoldable pub encode_auipc : ℕ → ℕ → ℕ
encode_auipc rd imm = word_U imm rd 0b0010111

unfoldable pub encode_jal : ℕ → ℕ → ℕ
encode_jal rd offset = word_J offset rd 0b1101111
