-- ===== src/Decoder/RoundTrip.antt =====
-- Register and immediate instructions: the decoder gives back the operation and the operands.
use besm.Prelude.{ℕ, ◌+◌, ◌*◌, ◌/◌, ◌%◌, ◌^◌, ◌<◌, ◌≡◌, refl, ◌∙◌, arith}
use besm.Instruction.{InstructionOp, immidiate_poison}
use besm.Decoder.{operation_R, or_else, parse_cell, parse}
use besm.Decoder.Matrix.{Format, instr_who}
use besm.Decoder.Fields.{parse_R_lem, parse_I_lem}
use besm.Decoder.Words.{HasFields, word_R-HasFields, parse_of_cell}
use besm.Decoder.Encoding.{
  RegisterOp, register_op, register_funct7, register_funct3, register_opcode, encode_register,
  ImmediateOp, immediate_op, immediate_funct3, immediate_opcode, word_I, encode_immediate,
}

record IsRegisterRow (op : RegisterOp) : Type 0 where
  cell :
      instr_who (register_opcode op) (register_funct3 op)
      ≡ record { format = Format.r; operation = InstructionOp.inv_op }
  name :
      operation_R (register_opcode op) (register_funct7 op * 8 + register_funct3 op)
      ≡ register_op op
  opcode_fits : register_opcode op < 2 ^ 7
  funct3_fits : register_funct3 op < 2 ^ 3
  funct7_fits : register_funct7 op < 2 ^ 7

register_row : (op : RegisterOp) → IsRegisterRow op
unfolding instr_who operation_R register_op register_opcode register_funct3 register_funct7
register_row RegisterOp.add = record {
  cell = refl;
  name = refl;
  opcode_fits = omega arith;
  funct3_fits = omega arith;
  funct7_fits = omega arith;
}
register_row _ = record {
  cell = refl;
  name = refl;
  opcode_fits = omega arith;
  funct3_fits = omega arith;
  funct7_fits = omega arith;
}

-- A register-register instruction decodes to its operation and its three registers.
pub parse-encode_register :
    (op : RegisterOp) (rd rs1 rs2 : ℕ)
    → rd < 32
    → rs1 < 32
    → rs2 < 32
    → parse (encode_register op rd rs1 rs2) ≡ record {
      rd = rd;
      rs1 = rs1;
      rs2 = rs2;
      immidiate = immidiate_poison;
      operation = register_op op;
    }
unfolding encode_register parse_cell
parse-encode_register op rd rs1 rs2 a b c =
    let row = register_row op in
    let f =
      word_R-HasFields (register_funct7 op) rs2 rs1 (register_funct3 op) rd (register_opcode op)
        row.funct7_fits c b row.funct3_fits a row.opcode_fits in
    parse_of_cell _ _ _ _ _ f.opcode_read f.funct3_read row.cell
    ∙ parse_R_lem _ (register_opcode op) (register_funct3 op) f.fits row.funct3_fits
    ∙ (rw (f.rd_read, f.rs1_read, f.rs2_read, f.funct7_read, row.name))

record IsImmediateRow (op : ImmediateOp) : Type 0 where
  cell :
      instr_who (immediate_opcode op) (immediate_funct3 op)
      ≡ record { format = Format.i; operation = immediate_op op }
  named : (other : InstructionOp) → or_else (immediate_op op) other ≡ immediate_op op
  opcode_fits : immediate_opcode op < 2 ^ 7
  funct3_fits : immediate_funct3 op < 2 ^ 3

immediate_row : (op : ImmediateOp) → IsImmediateRow op
unfolding instr_who or_else immediate_op immediate_opcode immediate_funct3
immediate_row ImmediateOp.lb = record {
  cell = refl;
  named = λ other. refl;
  opcode_fits = omega arith;
  funct3_fits = omega arith;
}
immediate_row _ = record {
  cell = refl;
  named = λ other. refl;
  opcode_fits = omega arith;
  funct3_fits = omega arith;
}

pub word_I-HasFields :
    (imm rs1 funct3 rd opcode : ℕ)
    → imm < 2 ^ 12
    → rs1 < 32
    → funct3 < 2 ^ 3
    → rd < 32
    → opcode < 2 ^ 7
    → HasFields (word_I imm rs1 funct3 rd opcode) (imm / 32) (imm % 32) rs1 funct3 rd opcode
      × (word_I imm rs1 funct3 rd opcode / 2 ^ 20 ≡ imm)
word_I-HasFields imm rs1 funct3 rd opcode a b c d e = (
  record {
    fits = omega arith;
    opcode_read = omega arith;
    rd_read = omega arith;
    funct3_read = omega arith;
    rs1_read = omega arith;
    rs2_read = omega arith;
    funct7_read = omega arith;
  },
  omega arith,
)

-- An instruction with a 12-bit immediate decodes to its operation, two registers and immediate.
pub parse-encode_immediate :
    (op : ImmediateOp) (rd rs1 imm : ℕ)
    → rd < 32
    → rs1 < 32
    → imm < 2 ^ 12
    → parse (encode_immediate op rd rs1 imm)
      ≡ record { rd = rd; rs1 = rs1; rs2 = 0; immidiate = imm; operation = immediate_op op }
unfolding encode_immediate parse_cell
parse-encode_immediate op rd rs1 imm a b c =
    let row = immediate_row op in
    let (f, imm_read) =
      word_I-HasFields imm rs1 (immediate_funct3 op) rd (immediate_opcode op) c b row.funct3_fits a
        row.opcode_fits in
    parse_of_cell _ _ _ _ _ f.opcode_read f.funct3_read row.cell
    ∙ parse_I_lem _ (immediate_op op) (immediate_opcode op) f.fits
    ∙ (rw (f.rd_read, f.rs1_read, imm_read, row.named))
