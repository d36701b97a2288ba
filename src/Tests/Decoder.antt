-- ===== src/Tests/Decoder.antt =====
-- src/decoder/decoder.cpp at concrete words.
use besm.Prelude.{◌≡◌, refl, arith}
use besm.Instruction.{InstructionOp, immidiate_poison}
use besm.Decoder.{parse}
use besm.Decoder.Encoding.{
  RegisterOp, ImmediateOp, StoreOp, BranchOp, register_op, immediate_op, store_op, branch_op,
  word_I, encode_register, encode_immediate, encode_store, encode_branch, encode_jal,
}
use besm.Decoder.RoundTrip.{parse-encode_register, parse-encode_immediate}
use besm.Decoder.Offsets.{parse-encode_store, parse-encode_branch, parse-encode_jal}
use besm.Decoder.Illegal.{parse-shift_right}

parse-encode_register_example : parse (encode_register RegisterOp.sub 5 6 7) ≡ record {
  rd = 5;
  rs1 = 6;
  rs2 = 7;
  immidiate = immidiate_poison;
  operation = register_op RegisterOp.sub;
}
parse-encode_register_example =
    parse-encode_register RegisterOp.sub 5 6 7 (omega arith) (omega arith) (omega arith)

parse-encode_immediate_example : parse (encode_immediate ImmediateOp.addi 5 6 0xFFF) ≡ record {
  rd = 5;
  rs1 = 6;
  rs2 = 0;
  immidiate = 0xFFF;
  operation = immediate_op ImmediateOp.addi;
}
parse-encode_immediate_example =
    parse-encode_immediate ImmediateOp.addi 5 6 0xFFF (omega arith) (omega arith) (omega arith)

parse-encode_store_example :
    parse (encode_store StoreOp.sd 5 6 0x7F8)
    ≡ record { rd = 0; rs1 = 5; rs2 = 6; immidiate = 0x7F8; operation = store_op StoreOp.sd }
parse-encode_store_example =
    parse-encode_store StoreOp.sd 5 6 0x7F8 (omega arith) (omega arith) (omega arith)

parse-encode_branch_example :
    parse (encode_branch BranchOp.bge 5 6 0x1FF0)
    ≡ record { rd = 0; rs1 = 5; rs2 = 6; immidiate = 0x1FF0; operation = branch_op BranchOp.bge }
parse-encode_branch_example =
    parse-encode_branch BranchOp.bge 5 6 0x1FF0 (omega arith) (omega arith) (omega arith) refl

parse-encode_jal_example :
    parse (encode_jal 1 0x1FF000)
    ≡ record { rd = 1; rs1 = 0; rs2 = 0; immidiate = 0x1FF000; operation = InstructionOp.jal }
parse-encode_jal_example = parse-encode_jal 1 0x1FF000 (omega arith) (omega arith) refl

parse-shift_right_example : (parse (word_I 3 6 0b101 5 0b0010011)).operation ≡ InstructionOp.srai
parse-shift_right_example = parse-shift_right 3 6 5 (omega arith) (omega arith) (omega arith)
