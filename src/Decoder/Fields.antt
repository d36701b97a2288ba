-- ===== src/Decoder/Fields.antt =====
-- The fields that the parsers cut out of a word, as arithmetic.
use besm.Prelude.{ℕ, ◌+◌, ◌*◌, ◌/◌, ◌%◌, ◌^◌, ◌<◌, ◌≤◌, bit_and, bit_or, ◌≡◌, ◌∙◌, arith}
use besm.Prelude.Bits.{
  bit_and-field, bit_or-disjoint_low, bit_or-disjoint, bit_or_insert, two-pow-pos,
}
use native.Mathlib.Nat.{mod-lt}
use besm.BitMagic.{shl, extract_bits}
use besm.BitMagic.Fields.{extract_bits_lem, shl-fits, field-lt}
use besm.Instruction.{InstructionOp, immidiate_poison}
use besm.Decoder.Matrix.{instr_who}
use besm.Decoder.{
  extract_register, operation_R, operation_I, or_else, parse_R, parse_I, parse_S, parse_B, parse_U,
  parse_J, parse_cell, parse,
}

pub extract_register_lem :
    (from word : ℕ) → 5 + from ≤ 32 → extract_register from word ≡ word / 2 ^ from % 32
unfolding extract_register
extract_register_lem from word h = rw (extract_bits_lem 32 5 from word h) (omega arith)

-- `ExtractBits<T, Bits, From>(word) << k`
field_moved :
    (w bits from k word : ℕ)
    → bits + from ≤ w
    → bits + k ≤ w
    → shl w (extract_bits w bits from word) k ≡ word / 2 ^ from % 2 ^ bits * 2 ^ k
field_moved w bits from k word h fits = rw (extract_bits_lem w bits from word h) (
    shl-fits w (word / 2 ^ from % 2 ^ bits) k (
      field-lt w bits k (word / 2 ^ from % 2 ^ bits) fits
        (mod-lt (word / 2 ^ from) (two-pow-pos bits))))

-- The four parts of a B immediate, none over another.
gathered_B :
    (a b c d : ℕ)
    → a < 2
    → b < 2 ^ 6
    → c < 2 ^ 4
    → d < 2
    → bit_or (bit_or (bit_or (c * 2 ^ 1) (b * 2 ^ 5)) (d * 2 ^ 11)) (a * 2 ^ 12)
      ≡ a * 2 ^ 12 + d * 2 ^ 11 + b * 2 ^ 5 + c * 2
gathered_B a b c d ha hb hc hd =
    rw
      (
        bit_or-disjoint_low 5 b (c * 2 ^ 1) (omega arith),
        bit_or-disjoint_low 11 d (b * 2 ^ 5 + c * 2 ^ 1) (omega arith),
        bit_or-disjoint_low 12 a (d * 2 ^ 11 + (b * 2 ^ 5 + c * 2 ^ 1)) (omega arith),
      )
      (omega arith)

-- The four parts of a J immediate.
gathered_J :
    (a b c d : ℕ)
    → a < 2
    → b < 2 ^ 10
    → c < 2
    → d < 2 ^ 8
    → bit_or (bit_or (bit_or (a * 2 ^ 20) (b * 2 ^ 1)) (c * 2 ^ 11)) (d * 2 ^ 12)
      ≡ a * 2 ^ 20 + d * 2 ^ 12 + c * 2 ^ 11 + b * 2
gathered_J a b c d ha hb hc hd =
    let first : bit_or (a * 2 ^ 20) (b * 2 ^ 1) ≡ a * 2 ^ 8 * 2 ^ 1 * 2 ^ 11 + b * 2 =
      omega (arith, bit_or-disjoint 20 a (b * 2 ^ 1) (omega arith)) in
    let second : bit_or (a * 2 ^ 8 * 2 ^ 1 * 2 ^ 11 + b * 2) (c * 2 ^ 11)
        ≡ a * 2 ^ 8 * 2 ^ 12 + (c * 2 ^ 11 + b * 2) =
      omega (arith, bit_or_insert 11 1 (a * 2 ^ 8) c (b * 2) hc (omega arith)) in
    rw (first, second, bit_or_insert 12 8 a d (c * 2 ^ 11 + b * 2) hd (omega arith)) (omega arith)

-- `parse` looks the cell up by the low seven bits and the three bits from the twelfth on.
pub parse_lem :
    (word : ℕ)
    → let opcode = word % 2 ^ 7 in
      let func3 = word / 2 ^ 12 % 2 ^ 3 in
      let cell = instr_who opcode func3 in
      parse word ≡ parse_cell word opcode func3 cell.format cell.operation
parse_lem word =
    let low : extract_bits 32 7 0 word ≡ word % 2 ^ 7 =
      extract_bits_lem 32 7 0 word (omega arith) ∙ omega arith in
    let middle : extract_bits 32 3 12 word % 2 ^ 8 ≡ word / 2 ^ 12 % 2 ^ 3 =
      omega (arith, extract_bits_lem 32 3 12 word (omega arith)) in
    unfold parse in rw (low, middle)

pub parse_R_lem :
    (word opcode func3 : ℕ)
    → word < 2 ^ 32
    → func3 < 8
    → parse_R word opcode func3 ≡ record {
      rd = word / 2 ^ 7 % 32;
      rs1 = word / 2 ^ 15 % 32;
      rs2 = word / 2 ^ 20 % 32;
      immidiate = immidiate_poison;
      operation = operation_R opcode (word / 2 ^ 25 * 8 + func3);
    }
parse_R_lem word opcode func3 h f =
    let func7 : bit_and word (0b1111111 * 2 ^ 25) / 2 ^ 22 % 2 ^ 16 ≡ word / 2 ^ 25 * 2 ^ 3 =
      omega (arith, bit_and-field 7 25 word) in
    unfold parse_R in
    rw (
      func7,
      bit_or-disjoint 3 (word / 2 ^ 25) func3 f,
      extract_register_lem 7 word (omega arith),
      extract_register_lem 15 word (omega arith),
      extract_register_lem 20 word (omega arith),
    )

pub parse_U_lem :
    (word : ℕ) (op : InstructionOp)
    → word < 2 ^ 32
    → parse_U word op ≡ record {
      rd = word / 2 ^ 7 % 32;
      rs1 = 0;
      rs2 = 0;
      immidiate = word / 2 ^ 12 * 2 ^ 12;
      operation = op;
    }
parse_U_lem word op h =
    let imm : bit_and word (0b11111111111111111111 * 2 ^ 12) ≡ word / 2 ^ 12 * 2 ^ 12 =
      omega (arith, bit_and-field 20 12 word) in
    unfold parse_U in rw (imm, extract_register_lem 7 word (omega arith))

pub parse_I_lem :
    (word : ℕ) (op : InstructionOp) (opcode : ℕ)
    → word < 2 ^ 32
    → parse_I word op opcode ≡ record {
      rd = word / 2 ^ 7 % 32;
      rs1 = word / 2 ^ 15 % 32;
      rs2 = 0;
      immidiate = word / 2 ^ 20;
      operation = or_else op (
          operation_I word opcode
            (word / 2 ^ 12 % 2 ^ 3)
            (word / 2 ^ 7 % 32)
            (word / 2 ^ 15 % 32)
            (word / 2 ^ 20));
    }
parse_I_lem word op opcode h =
    let imm : extract_bits 64 12 20 word ≡ word / 2 ^ 20 =
      omega (arith, extract_bits_lem 64 12 20 word (omega arith)) in
    let rd : bit_and word (0b11111 * 2 ^ 7) / 2 ^ 7 % 2 ^ 8 ≡ word / 2 ^ 7 % 32 =
      omega (arith, bit_and-field 5 7 word) in
    let func3 : extract_bits 32 3 12 word % 2 ^ 8 ≡ word / 2 ^ 12 % 2 ^ 3 =
      omega (arith, extract_bits_lem 32 3 12 word (omega arith)) in
    unfold parse_I in rw (imm, rd, func3, extract_register_lem 15 word (omega arith))

pub parse_S_lem :
    (word : ℕ) (op : InstructionOp)
    → word < 2 ^ 32
    → parse_S word op ≡ record {
      rd = 0;
      rs1 = word / 2 ^ 15 % 32;
      rs2 = word / 2 ^ 20 % 32;
      immidiate = word / 2 ^ 25 * 32 + word / 2 ^ 7 % 32;
      operation = op;
    }
parse_S_lem word op h =
    let high : shl 64 (extract_bits 64 7 25 word) 5 ≡ word / 2 ^ 25 * 2 ^ 5 =
      field_moved 64 7 25 5 word (omega arith) (omega arith) ∙ omega arith in
    let low : shl 64 (extract_bits 64 5 7 word) 0 ≡ word / 2 ^ 7 % 32 =
      field_moved 64 5 7 0 word (omega arith) (omega arith) ∙ omega arith in
    unfold parse_S in
    rw (
      high,
      low,
      bit_or-disjoint_low 5 (word / 2 ^ 25) (word / 2 ^ 7 % 32) (omega arith),
      extract_register_lem 15 word (omega arith),
      extract_register_lem 20 word (omega arith),
    )

pub parse_B_lem :
    (word : ℕ) (op : InstructionOp)
    → word < 2 ^ 32
    → parse_B word op ≡ record {
      rd = 0;
      rs1 = word / 2 ^ 15 % 32;
      rs2 = word / 2 ^ 20 % 32;
      immidiate =
          word / 2 ^ 31 * 2 ^ 12
          + word / 2 ^ 7 % 2 * 2 ^ 11
          + word / 2 ^ 25 % 2 ^ 6 * 2 ^ 5
          + word / 2 ^ 8 % 2 ^ 4 * 2;
      operation = op;
    }
parse_B_lem word op h =
    let imm12 = field_moved 64 1 31 12 word (omega arith) (omega arith) in
    let imm5_10 = field_moved 64 6 25 5 word (omega arith) (omega arith) in
    let imm1_4 = field_moved 64 4 8 1 word (omega arith) (omega arith) in
    let imm11 = field_moved 64 1 7 11 word (omega arith) (omega arith) in
    let joined =
      gathered_B (word / 2 ^ 31 % 2) (word / 2 ^ 25 % 2 ^ 6) (word / 2 ^ 8 % 2 ^ 4)
        (word / 2 ^ 7 % 2) (omega arith) (omega arith) (omega arith) (omega arith) in
    let top : word / 2 ^ 31 % 2 ≡ word / 2 ^ 31 = omega arith in
    unfold parse_B in
    rw (
      imm12,
      imm5_10,
      imm1_4,
      imm11,
      joined,
      top,
      extract_register_lem 15 word (omega arith),
      extract_register_lem 20 word (omega arith),
    )

pub parse_J_lem :
    (word : ℕ) (op : InstructionOp)
    → word < 2 ^ 32
    → parse_J word op ≡ record {
      rd = word / 2 ^ 7 % 32;
      rs1 = 0;
      rs2 = 0;
      immidiate =
          word / 2 ^ 31 * 2 ^ 20
          + word / 2 ^ 12 % 2 ^ 8 * 2 ^ 12
          + word / 2 ^ 20 % 2 * 2 ^ 11
          + word / 2 ^ 21 % 2 ^ 10 * 2;
      operation = op;
    }
parse_J_lem word op h =
    let bit20 = field_moved 32 1 31 20 word (omega arith) (omega arith) in
    let bit1_10 = field_moved 32 10 21 1 word (omega arith) (omega arith) in
    let bit11 = field_moved 32 1 20 11 word (omega arith) (omega arith) in
    let bit12_19 = field_moved 32 8 12 12 word (omega arith) (omega arith) in
    let joined =
      gathered_J (word / 2 ^ 31 % 2) (word / 2 ^ 21 % 2 ^ 10) (word / 2 ^ 20 % 2)
        (word / 2 ^ 12 % 2 ^ 8) (omega arith) (omega arith) (omega arith) (omega arith) in
    let top : word / 2 ^ 31 % 2 ≡ word / 2 ^ 31 = omega arith in
    unfold parse_J in
    rw (bit20, bit1_10, bit11, bit12_19, joined, top, extract_register_lem 7 word (omega arith))
