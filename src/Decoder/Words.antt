-- ===== src/Decoder/Words.antt =====
-- The fields of the manuals' formats, and the step from a word's cell to its parser.
use besm.Prelude.{ℕ, ◌/◌, ◌%◌, ◌^◌, ◌<◌, ◌≡◌, ap, ◌∙◌, arith}
use besm.Instruction.{InstructionOp}
use besm.Decoder.{parse_cell, parse}
use besm.Decoder.Matrix.{Cell, Format, instr_who}
use besm.Decoder.Fields.{parse_lem}
use besm.Decoder.Encoding.{word_R}

-- The fields of a word, read back.
pub record HasFields (word funct7 rs2 rs1 funct3 rd opcode : ℕ) : Type 0 where
  pub fits : word < 2 ^ 32
  pub opcode_read : word % 2 ^ 7 ≡ opcode
  pub rd_read : word / 2 ^ 7 % 32 ≡ rd
  pub funct3_read : word / 2 ^ 12 % 2 ^ 3 ≡ funct3
  pub rs1_read : word / 2 ^ 15 % 32 ≡ rs1
  pub rs2_read : word / 2 ^ 20 % 32 ≡ rs2
  pub funct7_read : word / 2 ^ 25 ≡ funct7

pub word_R-HasFields :
    (funct7 rs2 rs1 funct3 rd opcode : ℕ)
    → funct7 < 2 ^ 7
    → rs2 < 32
    → rs1 < 32
    → funct3 < 2 ^ 3
    → rd < 32
    → opcode < 2 ^ 7
    → HasFields (word_R funct7 rs2 rs1 funct3 rd opcode) funct7 rs2 rs1 funct3 rd opcode
word_R-HasFields funct7 rs2 rs1 funct3 rd opcode a b c d e f = record {
  fits = omega arith;
  opcode_read = omega arith;
  rd_read = omega arith;
  funct3_read = omega arith;
  rs1_read = omega arith;
  rs2_read = omega arith;
  funct7_read = omega arith;
}

-- What `parse` does once the cell of the word is known.
pub parse_of_cell :
    (word opcode funct3 : ℕ) (format : Format) (op : InstructionOp)
    → word % 2 ^ 7 ≡ opcode
    → word / 2 ^ 12 % 2 ^ 3 ≡ funct3
    → instr_who opcode funct3 ≡ record { format = format; operation = op }
    → parse word ≡ parse_cell word opcode funct3 format op
parse_of_cell word opcode funct3 format op e₁ e₂ e₃ =
    parse_lem word
    ∙ (rw (e₁, e₂) (ap (λ (c : Cell). parse_cell word opcode funct3 c.format c.operation) e₃))
