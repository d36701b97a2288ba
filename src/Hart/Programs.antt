-- ===== src/Hart/Programs.antt =====
-- Encoded instructions, decoded and executed.
use besm.Prelude.{ℕ, ◌+◌, ◌-◌, ◌*◌, ◌/◌, ◌%◌, ◌^◌, ◌<◌, ltb, if◌then◌else◌, ◌≡◌, ap, ◌∙◌, arith}
use besm.BitMagic.{sign_extend, extract_bits}
use besm.BitMagic.Fields.{sign_extend_lem, extract_bits_lem}
use besm.Instruction.{Instruction}
use besm.Decoder.{parse}
use besm.Decoder.Encoding.{ImmediateOp, encode_immediate, encode_lui}
use besm.Decoder.RoundTrip.{parse-encode_immediate}
use besm.Decoder.Offsets.{parse-encode_upper}
use besm.Gprf
use besm.Hart.{Hart, current_instr, read_register, write_back, rs1}
use besm.Hart.Arithmetic.{add, exec_lui, exec_addiw}

low_part : (imm : ℕ) → imm < 2 ^ 20 → imm * 2 ^ 12 / 2 ^ 0 % 2 ^ 20 ≡ imm % 2 ^ 8 * 2 ^ 12
low_part imm h = omega arith

in_range :
    (imm : ℕ)
    → imm < 2 ^ 12
    → (if ltb (imm % 2 ^ 12) (2 ^ 11) then imm % 2 ^ 12 else imm % 2 ^ 12 + 2 ^ 64 - 2 ^ 12)
      ≡ (if ltb imm (2 ^ 11) then imm else imm + 2 ^ 64 - 2 ^ 12)
in_range imm h = ground arith

low_sum : (a b : ℕ) → add a b / 2 ^ 0 % 2 ^ 32 ≡ (a + b) % 2 ^ 32
low_sum a b = omega arith

-- Where a near jump goes, forwards or backwards.
abbrev pub jump_target : ℕ → ℕ → ℕ
jump_target pc offset =
    if ltb offset (2 ^ 20)
    then (pc + offset) % 2 ^ 64
    else (pc + 2 ^ 64 - (2 ^ 21 - offset)) % 2 ^ 64

module _ {M : Type 0} where
  -- LUI writes the low 8 of its 20 bits, moved up by 12.
  pub lui_lem :
      (rd imm : ℕ) (hart : Hart M)
      → rd < 32
      → imm < 2 ^ 20
      → current_instr hart ≡ parse (encode_lui rd imm)
      → exec_lui hart ≡ write_back (imm % 2 ^ 8 * 2 ^ 12) hart
  unfolding exec_lui
  lui_lem rd imm hart r i e =
      let value : (current_instr hart).immidiate ≡ imm * 2 ^ 12 =
        ap (λ (x : Instruction). x.immidiate) (e ∙ (parse-encode_upper rd imm r i).0) in
      ap (λ (v : ℕ). write_back v hart)
        (ap (extract_bits 64 20 0) value
          ∙ extract_bits_lem 64 20 0 (imm * 2 ^ 12) (omega arith)
          ∙ low_part imm i)

  -- ADDIW writes the low 32 bits of the sum of its register and its signed immediate, with zeros
  -- above them, not copies of bit 31.
  pub addiw_lem :
      (rd source imm : ℕ) (hart : Hart M)
      → rd < 32
      → source < 32
      → imm < 2 ^ 12
      → current_instr hart ≡ parse (encode_immediate ImmediateOp.addiw rd source imm)
      → exec_addiw hart
        ≡ write_back
            ((read_register source hart + (if ltb imm (2 ^ 11) then imm else imm + 2 ^ 64 - 2 ^ 12))
              % 2 ^ 32)
            hart
  unfolding exec_addiw
  addiw_lem rd source imm hart r s i e =
      let instr = e ∙ parse-encode_immediate ImmediateOp.addiw rd source imm r s i in
      let value : (current_instr hart).immidiate ≡ imm =
        ap (λ (x : Instruction). x.immidiate) instr in
      let from : (current_instr hart).rs1 ≡ source = ap (λ (x : Instruction). x.rs1) instr in
      let extended : sign_extend 64 12 imm
          ≡ (if ltb imm (2 ^ 11) then imm else imm + 2 ^ 64 - 2 ^ 12) =
        sign_extend_lem 64 11 imm (omega arith) ∙ in_range imm i in
      ap (λ (v : ℕ). write_back v hart)
        (ap (λ (v : ℕ). extract_bits 64 32 0 (add (rs1 hart) (sign_extend 64 12 v))) value
          ∙ ap
              (λ (q : ℕ). extract_bits 64 32 0 (add (read_register q hart) (sign_extend 64 12 imm)))
              from
          ∙ extract_bits_lem 64 32 0 (add (read_register source hart) (sign_extend 64 12 imm))
              (omega arith)
          ∙ low_sum (read_register source hart) (sign_extend 64 12 imm)
          ∙ ap (λ (v : ℕ). (read_register source hart + v) % 2 ^ 32) extended)
