-- ===== src/Decoder.antt =====
-- src/decoder/decoder.cpp. A word is a number below `2 ^ 32`; an immediate has 64 bits.
pub mod Matrix
pub mod Fields
pub mod Encoding
pub mod Words
pub mod RoundTrip
pub mod Offsets
pub mod Illegal
use besm.Prelude.{ℕ, ◌+◌, ◌-◌, ◌*◌, ◌/◌, ◌%◌, ◌^◌, ◌==◌, bit_and, bit_or, ◌&&◌, if◌then◌else◌}
use besm.BitMagic.{shl, extract_bits}
use besm.Instruction.{
  Instruction, InstructionOp, inv_op, add, sub, sll, slt, sltu, xor, srl, sra, or, and, addw, subw,
  sllw, srlw, sraw, fence, ecall, ebreak, sret, mret, srliw, sraiw, immidiate_poison,
  only_operation,
}
use Matrix.{Cell, Format, instr_who}

-- `ExtractRegister<From>`
unfoldable pub extract_register : ℕ → ℕ → ℕ
unfolding extract_bits
extract_register from bytecode = extract_bits 32 5 from bytecode % 2 ^ 8

-- The two `switch` statements of `parse_R`, on the opcode and on func10.
unfoldable pub operation_R : ℕ → ℕ → InstructionOp
operation_R opcode func10 =
    if opcode == 0b0110011
    then (if func10 == 0b0000000000
        then add
        else if func10 == 0b0100000000
        then sub
        else if func10 == 0b0000000001
        then sll
        else if func10 == 0b0000000010
        then slt
        else if func10 == 0b0000000011
        then sltu
        else if func10 == 0b0000000100
        then xor
        else if func10 == 0b0000000101
        then srl
        else if func10 == 0b0100000101
        then sra
        else if func10 == 0b0000000110
        then or
        else if func10 == 0b0000000111
        then and
        else inv_op)
    else if opcode == 0b0111011
    then (if func10 == 0b0000000000
        then addw
        else if func10 == 0b0100000000
        then subw
        else if func10 == 0b0000000001
        then sllw
        else if func10 == 0b0000000101
        then srlw
        else if func10 == 0b0100000101
        then sraw
        else inv_op)
    else inv_op

unfoldable pub parse_R : ℕ → ℕ → ℕ → Instruction
unfolding extract_register operation_R
parse_R bytecode opcode func3 =
    let func7 = bit_and bytecode (0b1111111 * 2 ^ 25) / 2 ^ (25 - 3) % 2 ^ 16 in
    let func10 = bit_or func7 func3 in
    record {
      rd = extract_register 7 bytecode;
      rs1 = extract_register 15 bytecode;
      rs2 = extract_register 20 bytecode;
      immidiate = immidiate_poison;
      operation = operation_R opcode func10;
    }

unfoldable pub parse_U : ℕ → InstructionOp → Instruction
unfolding extract_register
parse_U bytecode op = record {
  rd = extract_register 7 bytecode;
  rs1 = 0;
  rs2 = 0;
  immidiate = bit_and bytecode (0b11111111111111111111 * 2 ^ 12);
  operation = op;
}

-- The `switch` statements of `parse_I` for a cell with no operation of its own.
unfoldable pub operation_I : ℕ → ℕ → ℕ → ℕ → ℕ → ℕ → InstructionOp
operation_I bytecode opcode func3 rd rs1 imm =
    if opcode == 0b0001111
    then fence
    else if opcode == 0b1110011
    then (if rd == 0 && rs1 == 0 && func3 == 0
        then (if imm == 0b0
            then ecall
            else if imm == 0b1
            then ebreak
            else if imm == 0b000100000010
            then sret
            else if imm == 0b001100000010
            then mret
            else inv_op)
        else inv_op)
    else if opcode == 0b0011011
    then (if bytecode / 2 ^ 25 == 0b0
        then srliw
        else if bytecode / 2 ^ 25 == 0b0100000
        then sraiw
        else inv_op)
    else inv_op

-- `operation != INV_OP`
unfoldable pub or_else : InstructionOp → InstructionOp → InstructionOp
or_else inv_op other = other
or_else op other = op

unfoldable pub parse_I : ℕ → InstructionOp → ℕ → Instruction
unfolding extract_register extract_bits operation_I or_else
parse_I bytecode op opcode =
    let imm = extract_bits 64 12 20 bytecode in
    let rd = bit_and bytecode (0b11111 * 2 ^ 7) / 2 ^ 7 % 2 ^ 8 in
    let rs1 = extract_register 15 bytecode in
    let func3 = extract_bits 32 3 12 bytecode % 2 ^ 8 in
    record {
      rd = rd;
      rs1 = rs1;
      rs2 = 0;
      immidiate = imm;
      operation = or_else op (operation_I bytecode opcode func3 rd rs1 imm);
    }

unfoldable pub parse_S : ℕ → InstructionOp → Instruction
unfolding extract_register extract_bits shl
parse_S bytecode op =
    let imm11_5 = shl 64 (extract_bits 64 7 25 bytecode) 5 in
    let imm4_0 = shl 64 (extract_bits 64 5 7 bytecode) 0 in
    record {
      rd = 0;
      rs1 = extract_register 15 bytecode;
      rs2 = extract_register 20 bytecode;
      immidiate = bit_or imm4_0 imm11_5;
      operation = op;
    }

unfoldable pub parse_B : ℕ → InstructionOp → Instruction
unfolding extract_register extract_bits shl
parse_B bytecode op =
    let imm12 = shl 64 (extract_bits 64 1 31 bytecode) 12 in
    let imm5_10 = shl 64 (extract_bits 64 6 25 bytecode) 5 in
    let imm1_4 = shl 64 (extract_bits 64 4 8 bytecode) 1 in
    let imm11 = shl 64 (extract_bits 64 1 7 bytecode) 11 in
    record {
      rd = 0;
      rs1 = extract_register 15 bytecode;
      rs2 = extract_register 20 bytecode;
      immidiate = bit_or (bit_or (bit_or imm1_4 imm5_10) imm11) imm12;
      operation = op;
    }

unfoldable pub parse_J : ℕ → InstructionOp → Instruction
unfolding extract_register extract_bits shl
parse_J bytecode op =
    let bit20 = shl 32 (extract_bits 32 1 (12 + 19) bytecode) 20 in
    let bit1_10 = shl 32 (extract_bits 32 10 (12 + 9) bytecode) 1 in
    let bit11 = shl 32 (extract_bits 32 1 (12 + 8) bytecode) 11 in
    let bit12_19 = shl 32 (extract_bits 32 8 (12 + 0) bytecode) 12 in
    record {
      rd = extract_register 7 bytecode;
      rs1 = 0;
      rs2 = 0;
      immidiate = bit_or (bit_or (bit_or bit20 bit1_10) bit11) bit12_19;
      operation = op;
    }

-- The `switch` on the format of the cell.
unfoldable pub parse_cell : ℕ → ℕ → ℕ → Format → InstructionOp → Instruction
parse_cell bytecode opcode func3 Format.illegal op = only_operation inv_op
parse_cell bytecode opcode func3 Format.r op = parse_R bytecode opcode func3
parse_cell bytecode opcode func3 Format.i op = parse_I bytecode op opcode
parse_cell bytecode opcode func3 Format.s op = parse_S bytecode op
parse_cell bytecode opcode func3 Format.b op = parse_B bytecode op
parse_cell bytecode opcode func3 Format.u op = parse_U bytecode op
parse_cell bytecode opcode func3 Format.j op = parse_J bytecode op

-- `Decoder::parse`
unfoldable pub parse : ℕ → Instruction
unfolding extract_bits instr_who parse_cell parse_R parse_I parse_S parse_B parse_U parse_J
parse bytecode =
    let opcode = extract_bits 32 7 0 bytecode in
    let func3 = extract_bits 32 3 12 bytecode % 2 ^ 8 in
    let cell = instr_who opcode func3 in parse_cell bytecode opcode func3 cell.format cell.operation
