-- ===== src/Decoder/Offsets.antt =====
-- Stores, branches and the upper-immediate and jump formats: the scattered immediates come back
-- whole.
use besm.Prelude.{ℕ, ◌+◌, ◌*◌, ◌/◌, ◌%◌, ◌^◌, ◌<◌, ◌≡◌, refl, ◌∙◌, arith, get_or-replicate}
use besm.Instruction.{InstructionOp}
use besm.Decoder.{parse_cell, parse}
use besm.Decoder.Matrix.{Format, instr_who}
use besm.Decoder.Fields.{parse_S_lem, parse_B_lem, parse_U_lem, parse_J_lem}
use besm.Decoder.Words.{word_R-HasFields, parse_of_cell}
use besm.Decoder.Encoding.{
  StoreOp, store_op, store_funct3, encode_store, BranchOp, branch_op, branch_funct3, word_R,
  encode_branch, word_U, encode_lui, encode_auipc, encode_jal,
}

store_row :
    (op : StoreOp)
    → (instr_who 0b0100011 (store_funct3 op)
        ≡ record { format = Format.s; operation = store_op op })
      × (store_funct3 op < 2 ^ 3)
unfolding instr_who store_op store_funct3
store_row StoreOp.sb = (refl, omega arith)
store_row _ = (refl, omega arith)

-- A store decodes to its operation, its two registers and the joined immediate.
pub parse-encode_store :
    (op : StoreOp) (rs1 rs2 imm : ℕ)
    → rs1 < 32
    → rs2 < 32
    → imm < 2 ^ 12
    → parse (encode_store op rs1 rs2 imm)
      ≡ record { rd = 0; rs1 = rs1; rs2 = rs2; immidiate = imm; operation = store_op op }
unfolding encode_store parse_cell
parse-encode_store op rs1 rs2 imm a b c =
    let (cell, low) = store_row op in
    let f =
      word_R-HasFields (imm / 32) rs2 rs1 (store_funct3 op) (imm % 32) 0b0100011 (omega arith) b a
        low (omega arith) (omega arith) in
    parse_of_cell _ _ _ _ _ f.opcode_read f.funct3_read cell
    ∙ parse_S_lem _ (store_op op) f.fits
    ∙ (rw (f.rd_read, f.rs1_read, f.rs2_read, f.funct7_read) (rw (rejoined imm)))
  where
    rejoined : (n : ℕ) → n / 32 * 32 + n % 32 ≡ n
    rejoined n = omega arith

branch_row :
    (op : BranchOp)
    → (instr_who 0b1100011 (branch_funct3 op)
        ≡ record { format = Format.b; operation = branch_op op })
      × (branch_funct3 op < 2 ^ 3)
unfolding instr_who branch_op branch_funct3
branch_row BranchOp.beq = (refl, omega arith)
branch_row _ = (refl, omega arith)

-- The offset of a branch, put together again from the two ends of the word.
branch_offset :
    (word offset : ℕ)
    → offset < 2 ^ 13
    → offset % 2 ≡ 0
    → word / 2 ^ 25 ≡ offset / 2 ^ 12 * 2 ^ 6 + offset / 2 ^ 5 % 2 ^ 6
    → word / 2 ^ 7 % 32 ≡ offset / 2 % 2 ^ 4 * 2 + offset / 2 ^ 11 % 2
    → word / 2 ^ 31 * 2 ^ 12
        + word / 2 ^ 7 % 2 * 2 ^ 11
        + word / 2 ^ 25 % 2 ^ 6 * 2 ^ 5
        + word / 2 ^ 8 % 2 ^ 4 * 2
      ≡ offset
branch_offset word offset h even high below =
    let top : word / 2 ^ 31 ≡ offset / 2 ^ 12 = omega arith in
    let middle : word / 2 ^ 25 % 2 ^ 6 ≡ offset / 2 ^ 5 % 2 ^ 6 = omega arith in
    let eleventh : word / 2 ^ 7 % 2 ≡ offset / 2 ^ 11 % 2 = omega arith in
    let low : word / 2 ^ 8 % 2 ^ 4 ≡ offset / 2 % 2 ^ 4 = omega arith in
    rw (top, middle, eleventh, low) (regrouped offset h even)
  where
    regrouped :
        (n : ℕ)
        → n < 2 ^ 13
        → n % 2 ≡ 0
        → n / 2 ^ 12 * 2 ^ 12
            + n / 2 ^ 11 % 2 * 2 ^ 11
            + n / 2 ^ 5 % 2 ^ 6 * 2 ^ 5
            + n / 2 % 2 ^ 4 * 2
          ≡ n
    regrouped n h even = omega arith

-- A branch decodes to its operation, its two registers and its 13-bit even offset.
pub parse-encode_branch :
    (op : BranchOp) (rs1 rs2 offset : ℕ)
    → rs1 < 32
    → rs2 < 32
    → offset < 2 ^ 13
    → offset % 2 ≡ 0
    → parse (encode_branch op rs1 rs2 offset)
      ≡ record { rd = 0; rs1 = rs1; rs2 = rs2; immidiate = offset; operation = branch_op op }
unfolding encode_branch parse_cell
parse-encode_branch op rs1 rs2 offset a b c even =
    let (cell, low) = branch_row op in
    let high = offset / 2 ^ 12 * 2 ^ 6 + offset / 2 ^ 5 % 2 ^ 6 in
    let below = offset / 2 % 2 ^ 4 * 2 + offset / 2 ^ 11 % 2 in
    let word = word_R high rs2 rs1 (branch_funct3 op) below 0b1100011 in
    let f =
      word_R-HasFields high rs2 rs1 (branch_funct3 op) below 0b1100011 (omega arith) b a low
        (omega arith) (omega arith) in
    let joined : word / 2 ^ 31 * 2 ^ 12
          + word / 2 ^ 7 % 2 * 2 ^ 11
          + word / 2 ^ 25 % 2 ^ 6 * 2 ^ 5
          + word / 2 ^ 8 % 2 ^ 4 * 2
        ≡ offset =
      branch_offset word offset c even f.funct7_read f.rd_read in
    parse_of_cell _ _ _ _ _ f.opcode_read f.funct3_read cell
    ∙ parse_B_lem _ (branch_op op) f.fits
    ∙ (rw (f.rs1_read, f.rs2_read, joined))

-- The rows of LUI, AUIPC and JAL do not look at func3.
upper_cell :
    (f : ℕ)
    → f < 8
    → (instr_who 0b0110111 f ≡ record { format = Format.u; operation = InstructionOp.lui })
      × (instr_who 0b0010111 f ≡ record { format = Format.u; operation = InstructionOp.auipc })
      × (instr_who 0b1101111 f ≡ record { format = Format.j; operation = InstructionOp.jal })
unfolding instr_who
upper_cell f h =
    (get_or-replicate 8 f _ _ h, get_or-replicate 8 f _ _ h, get_or-replicate 8 f _ _ h)

parse-word_U :
    (imm rd opcode : ℕ) (op : InstructionOp)
    → imm < 2 ^ 20
    → rd < 32
    → opcode < 2 ^ 7
    → ((f : ℕ) → f < 8 → instr_who opcode f ≡ record { format = Format.u; operation = op })
    → parse (word_U imm rd opcode)
      ≡ record { rd = rd; rs1 = 0; rs2 = 0; immidiate = imm * 2 ^ 12; operation = op }
unfolding parse_cell
parse-word_U imm rd opcode op a b c cell =
    let word = word_U imm rd opcode in
    let rd_read : word / 2 ^ 7 % 32 ≡ rd = omega arith in
    let imm_read : word / 2 ^ 12 ≡ imm = omega arith in
    parse_of_cell word opcode (word / 2 ^ 12 % 2 ^ 3) Format.u op (omega arith) refl
      (cell (word / 2 ^ 12 % 2 ^ 3) (omega arith))
    ∙ parse_U_lem word op (omega arith)
    ∙ (rw (rd_read, imm_read))

-- LUI and AUIPC decode to the upper immediate with twelve zeros below.
pub parse-encode_upper :
    (rd imm : ℕ)
    → rd < 32
    → imm < 2 ^ 20
    → (parse (encode_lui rd imm) ≡ record {
      rd = rd;
      rs1 = 0;
      rs2 = 0;
      immidiate = imm * 2 ^ 12;
      operation = InstructionOp.lui;
    })
      × (parse (encode_auipc rd imm) ≡ record {
        rd = rd;
        rs1 = 0;
        rs2 = 0;
        immidiate = imm * 2 ^ 12;
        operation = InstructionOp.auipc;
      })
unfolding encode_lui encode_auipc
parse-encode_upper rd imm a b = (
  parse-word_U imm rd 0b0110111 InstructionOp.lui b a (omega arith) (λ f h. (upper_cell f h).0),
  parse-word_U imm rd 0b0010111 InstructionOp.auipc b a (omega arith) (λ f h. (upper_cell f h).1),
)

-- The offset of a jump, put together again from the upper twenty bits of the word.
jump_offset :
    (high offset : ℕ)
    → offset < 2 ^ 21
    → offset % 2 ≡ 0
    → high
      ≡ offset / 2 ^ 20 * 2 ^ 19
        + offset / 2 % 2 ^ 10 * 2 ^ 9
        + offset / 2 ^ 11 % 2 * 2 ^ 8
        + offset / 2 ^ 12 % 2 ^ 8
    → high / 2 ^ 19 * 2 ^ 20
        + high % 2 ^ 8 * 2 ^ 12
        + high / 2 ^ 8 % 2 * 2 ^ 11
        + high / 2 ^ 9 % 2 ^ 10 * 2
      ≡ offset
jump_offset high offset h even e =
    let top : high / 2 ^ 19 ≡ offset / 2 ^ 20 = omega arith in
    let low : high % 2 ^ 8 ≡ offset / 2 ^ 12 % 2 ^ 8 = omega arith in
    let eleventh : high / 2 ^ 8 % 2 ≡ offset / 2 ^ 11 % 2 = omega arith in
    let middle : high / 2 ^ 9 % 2 ^ 10 ≡ offset / 2 % 2 ^ 10 = omega arith in
    rw (top, low, eleventh, middle) (regrouped offset h even)
  where
    regrouped :
        (n : ℕ)
        → n < 2 ^ 21
        → n % 2 ≡ 0
        → n / 2 ^ 20 * 2 ^ 20
            + n / 2 ^ 12 % 2 ^ 8 * 2 ^ 12
            + n / 2 ^ 11 % 2 * 2 ^ 11
            + n / 2 % 2 ^ 10 * 2
          ≡ n
    regrouped n h even = omega arith

jal_of_high :
    (rd high offset : ℕ)
    → rd < 32
    → high < 2 ^ 20
    → high / 2 ^ 19 * 2 ^ 20
        + high % 2 ^ 8 * 2 ^ 12
        + high / 2 ^ 8 % 2 * 2 ^ 11
        + high / 2 ^ 9 % 2 ^ 10 * 2
      ≡ offset
    → parse (high * 2 ^ 12 + rd * 2 ^ 7 + 0b1101111)
      ≡ record { rd = rd; rs1 = 0; rs2 = 0; immidiate = offset; operation = InstructionOp.jal }
unfolding parse_cell
jal_of_high rd high offset a b joined =
    let word = high * 2 ^ 12 + rd * 2 ^ 7 + 0b1101111 in
    let rd_read : word / 2 ^ 7 % 32 ≡ rd = omega arith in
    let e₁ : word / 2 ^ 31 ≡ high / 2 ^ 19 = omega arith in
    let e₂ : word / 2 ^ 12 % 2 ^ 8 ≡ high % 2 ^ 8 = omega arith in
    let e₃ : word / 2 ^ 20 % 2 ≡ high / 2 ^ 8 % 2 = omega arith in
    let e₄ : word / 2 ^ 21 % 2 ^ 10 ≡ high / 2 ^ 9 % 2 ^ 10 = omega arith in
    parse_of_cell word 0b1101111 (word / 2 ^ 12 % 2 ^ 3) Format.j InstructionOp.jal (omega arith)
      refl (upper_cell (word / 2 ^ 12 % 2 ^ 3) (omega arith)).2
    ∙ parse_J_lem word InstructionOp.jal (omega arith)
    ∙ (rw (rd_read, e₁, e₂, e₃, e₄, joined))

-- JAL decodes to its register and its 21-bit even offset.
pub parse-encode_jal :
    (rd offset : ℕ)
    → rd < 32
    → offset < 2 ^ 21
    → offset % 2 ≡ 0
    → parse (encode_jal rd offset)
      ≡ record { rd = rd; rs1 = 0; rs2 = 0; immidiate = offset; operation = InstructionOp.jal }
unfolding encode_jal parse_cell
parse-encode_jal rd offset a b even =
    let high =
      offset / 2 ^ 20 * 2 ^ 19
      + offset / 2 % 2 ^ 10 * 2 ^ 9
      + offset / 2 ^ 11 % 2 * 2 ^ 8
      + offset / 2 ^ 12 % 2 ^ 8 in
    jal_of_high rd high offset a (omega arith) (jump_offset high offset b even refl)
