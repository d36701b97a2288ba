-- ===== src/Decoder/Illegal.antt =====
-- What the decoder refuses, and where it departs from the manuals.
use besm.Prelude.{
  ℕ, zero, suc, ◌==◌, if◌then◌else◌, ◌/◌, ◌%◌, ◌^◌, ◌<◌, ◌≡◌, ◌≢◌, refl, ap, ◌∙◌, arith,
  get_or-replicate,
}
use besm.Instruction.{Instruction, InstructionOp, only_operation}
use besm.Decoder.{parse_cell, parse, operation_I, or_else}
use besm.Decoder.Matrix.{Format, instr_who, row, row_illegal}
use besm.Decoder.Fields.{parse_I_lem}
use besm.Decoder.Words.{parse_of_cell}
use besm.Decoder.RoundTrip.{word_I-HasFields}
use besm.Decoder.Encoding.{word_I}

row-compressed : (opcode : ℕ) → opcode % 4 ≢ 3 → row opcode ≡ row_illegal
unfolding row
row-compressed opcode h = ground arith

illegal_cell :
    (opcode func3 : ℕ)
    → opcode % 4 ≢ 3
    → func3 < 8
    → instr_who opcode func3 ≡ record { format = Format.illegal; operation = InstructionOp.inv_op }
unfolding instr_who
illegal_cell opcode func3 h f = rw (row-compressed opcode h) (get_or-replicate 8 func3 _ _ f)

-- A word whose two low bits are not both set, the space of the compressed instructions, is
-- decoded to the invalid operation.
parse-compressed : (word : ℕ) → word % 4 ≢ 3 → parse word ≡ only_operation InstructionOp.inv_op
unfolding parse_cell
parse-compressed word h =
    parse_of_cell word (word % 2 ^ 7) (word / 2 ^ 12 % 2 ^ 3) Format.illegal InstructionOp.inv_op
      refl refl (illegal_cell (word % 2 ^ 7) (word / 2 ^ 12 % 2 ^ 3) (omega arith) (omega arith))

i_operation :
    (imm rs1 func3 rd opcode : ℕ) (op : InstructionOp)
    → imm < 2 ^ 12
    → rs1 < 32
    → func3 < 2 ^ 3
    → rd < 32
    → opcode < 2 ^ 7
    → instr_who opcode func3 ≡ record { format = Format.i; operation = op }
    → (parse (word_I imm rs1 func3 rd opcode)).operation
      ≡ or_else op (operation_I (word_I imm rs1 func3 rd opcode) opcode func3 rd rs1 imm)
unfolding parse_cell
i_operation imm rs1 func3 rd opcode op a b c d e cell =
    let (f, imm_read) = word_I-HasFields imm rs1 func3 rd opcode a b c d e in
    let parsed =
      parse_of_cell _ opcode func3 Format.i op f.opcode_read f.funct3_read cell
      ∙ parse_I_lem _ op opcode f.fits in
    ap (λ (i : Instruction). i.operation) parsed
    ∙ (rw (f.rd_read, f.funct3_read, f.rs1_read, imm_read))

-- Every word of the right-shift immediate encoding, SRLI or SRAI, is decoded to SRAI.
pub parse-shift_right :
    (imm rs1 rd : ℕ)
    → imm < 2 ^ 12
    → rs1 < 32
    → rd < 32
    → (parse (word_I imm rs1 0b101 rd 0b0010011)).operation ≡ InstructionOp.srai
parse-shift_right imm rs1 rd a b c =
    i_operation imm rs1 0b101 rd 0b0010011 InstructionOp.srai a b (omega arith) c (omega arith)
      (unfold instr_who in refl)
    ∙ unfold or_else in refl

-- A word of opcode MISC-MEM is decoded to PAUSE if its func3 is zero, which is where FENCE is,
-- and to FENCE for every other func3.
pub parse-misc_mem :
    (imm rs1 func3 rd : ℕ)
    → imm < 2 ^ 12
    → rs1 < 32
    → func3 < 8
    → rd < 32
    → (parse (word_I imm rs1 func3 rd 0b0001111)).operation
      ≡ (if func3 == 0 then InstructionOp.pause else InstructionOp.fence)
unfolding instr_who operation_I or_else
parse-misc_mem imm rs1 zero rd a b c d =
    i_operation imm rs1 0 rd 0b0001111 InstructionOp.pause a b (omega arith) d (omega arith) refl
parse-misc_mem imm rs1 (suc func3) rd a b c d =
    i_operation imm rs1 (suc func3) rd 0b0001111 InstructionOp.inv_op a b c d (omega arith)
      (get_or-replicate 7 func3 _ _ (omega arith))
    ∙ (ground arith)
