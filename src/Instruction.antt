-- ===== src/Instruction.antt =====
-- include/besm-666/instruction.hpp, rv-instruction-op.hpp and riscv-types.hpp: what the decoder
-- makes of a word and what the hart executes.
use besm.Prelude.{ℕ, ◌^◌, ◌-◌, Bool, true, false}

pub data InstructionOp : Type 0 where
  inv_op lui auipc jal jalr beq bne blt bge bltu bgeu lb lh lw lbu lhu sb : InstructionOp
  sh sw addi slti sltiu xori ori andi add sub sll slt sltu xor srl sra or : InstructionOp
  and fence fence_tso pause ecall ebreak lwu ld sd slli srli srai addiw : InstructionOp
  slliw srliw sraiw addw subw sllw srlw sraw csrrw csrrs csrrc csrrwi : InstructionOp
  csrrsi csrrci sret mret bb_end : InstructionOp

-- The enumerator's value, by which the handlers are found.
unfoldable pub ordinal : InstructionOp → ℕ
ordinal inv_op = 0
ordinal lui = 1
ordinal auipc = 2
ordinal jal = 3
ordinal jalr = 4
ordinal beq = 5
ordinal bne = 6
ordinal blt = 7
ordinal bge = 8
ordinal bltu = 9
ordinal bgeu = 10
ordinal lb = 11
ordinal lh = 12
ordinal lw = 13
ordinal lbu = 14
ordinal lhu = 15
ordinal sb = 16
ordinal sh = 17
ordinal sw = 18
ordinal addi = 19
ordinal slti = 20
ordinal sltiu = 21
ordinal xori = 22
ordinal ori = 23
ordinal andi = 24
ordinal add = 25
ordinal sub = 26
ordinal sll = 27
ordinal slt = 28
ordinal sltu = 29
ordinal xor = 30
ordinal srl = 31
ordinal sra = 32
ordinal or = 33
ordinal and = 34
ordinal fence = 35
ordinal fence_tso = 36
ordinal pause = 37
ordinal ecall = 38
ordinal ebreak = 39
ordinal lwu = 40
ordinal ld = 41
ordinal sd = 42
ordinal slli = 43
ordinal srli = 44
ordinal srai = 45
ordinal addiw = 46
ordinal slliw = 47
ordinal srliw = 48
ordinal sraiw = 49
ordinal addw = 50
ordinal subw = 51
ordinal sllw = 52
ordinal srlw = 53
ordinal sraw = 54
ordinal csrrw = 55
ordinal csrrs = 56
ordinal csrrc = 57
ordinal csrrwi = 58
ordinal csrrsi = 59
ordinal csrrci = 60
ordinal sret = 61
ordinal mret = 62
ordinal bb_end = 63

pub record Instruction : Type 0 where
  pub rd : ℕ
  pub rs1 : ℕ
  pub rs2 : ℕ
  pub immidiate : ℕ
  pub operation : InstructionOp

-- `UINT32_MAX`
abbrev pub immidiate_poison : ℕ
immidiate_poison = 2 ^ 32 - 1

-- A member that an initialiser leaves out is zero.
abbrev pub only_operation : InstructionOp → Instruction
only_operation op = record { rd = 0; rs1 = 0; rs2 = 0; immidiate = 0; operation = op }

unfoldable pub is_jump : InstructionOp → Bool
is_jump jal = true
is_jump jalr = true
is_jump beq = true
is_jump bne = true
is_jump blt = true
is_jump bge = true
is_jump bltu = true
is_jump bgeu = true
is_jump mret = true
is_jump sret = true
is_jump ecall = true
is_jump _ = false

unfoldable pub is_load : InstructionOp → Bool
is_load lb = true
is_load lh = true
is_load lw = true
is_load lbu = true
is_load lhu = true
is_load _ = false

unfoldable pub is_store : InstructionOp → Bool
is_store sb = true
is_store sh = true
is_store sw = true
is_store sd = true
is_store _ = false
