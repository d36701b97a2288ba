-- ===== src/Hart/Arithmetic.antt =====
-- src/sim/hart.cpp: the handlers that compute a value and write it to a register.
use besm.Prelude.{ℕ, ◌+◌, ◌/◌, ◌%◌, ◌^◌, ltb, bit_and, bit_or, bit_xor, Bool, if◌then◌else◌}
use besm.BitMagic.{shl, sub, sign_extend, extract_bits}
use besm.Gprf
use besm.Hart.{Hart, Step, Platform, current_instr, read_register, rs1, rs2, immidiate, write_back}
use besm.Hart.Signed.{signify, unsignify, less, shift_right}

-- The operators of the 64-bit types.
abbrev pub add : ℕ → ℕ → ℕ
add a b = (a + b) % 2 ^ 64

abbrev pub signed_less : ℕ → ℕ → Bool
signed_less a b = less (signify 64 a) (signify 64 b)

module _ {M : Type 0} where
  unfoldable pub exec_addi : Hart M → Step M
  unfolding write_back sign_extend
  exec_addi hart = write_back (add (rs1 hart) (immidiate hart)) hart

  unfoldable pub exec_slti : Hart M → Step M
  unfolding write_back sign_extend less signify
  exec_slti hart = write_back (if signed_less (rs1 hart) (immidiate hart) then 1 else 0) hart

  unfoldable pub exec_sltiu : Hart M → Step M
  unfolding write_back sign_extend
  exec_sltiu hart = write_back (if ltb (rs1 hart) (immidiate hart) then 1 else 0) hart

  unfoldable pub exec_ori : Hart M → Step M
  unfolding write_back sign_extend
  exec_ori hart = write_back (bit_or (rs1 hart) (immidiate hart)) hart

  unfoldable pub exec_andi : Hart M → Step M
  unfolding write_back sign_extend
  exec_andi hart = write_back (bit_and (rs1 hart) (immidiate hart)) hart

  unfoldable pub exec_xori : Hart M → Step M
  unfolding write_back sign_extend
  exec_xori hart = write_back (bit_xor (rs1 hart) (immidiate hart)) hart

  unfoldable pub exec_slli : Hart M → Step M
  unfolding write_back shl extract_bits
  exec_slli hart =
      write_back (shl 64 (rs1 hart) (extract_bits 64 5 0 (current_instr hart).immidiate)) hart

  unfoldable pub exec_srli : Hart M → Step M
  unfolding write_back extract_bits
  exec_srli hart =
      write_back (rs1 hart / 2 ^ extract_bits 64 5 0 (current_instr hart).immidiate) hart

  unfoldable pub exec_srai : Hart M → Step M
  unfolding write_back extract_bits signify shift_right unsignify
  exec_srai hart =
      write_back
        (unsignify 64 (
          shift_right (signify 64 (rs1 hart)) (extract_bits 64 5 0 (current_instr hart).immidiate)))
        hart

  unfoldable pub exec_lui : Hart M → Step M
  unfolding write_back extract_bits
  exec_lui hart = write_back (extract_bits 64 20 0 (current_instr hart).immidiate) hart

  unfoldable pub exec_auipc : Hart M → Step M
  unfolding write_back extract_bits
  exec_auipc hart =
      write_back
        (add (read_register Gprf.pc hart) (extract_bits 64 20 0 (current_instr hart).immidiate))
        hart

  unfoldable pub exec_add : Hart M → Step M
  unfolding write_back
  exec_add hart = write_back (add (rs1 hart) (rs2 hart)) hart

  unfoldable pub exec_slt : Hart M → Step M
  unfolding write_back less signify
  exec_slt hart = write_back (if signed_less (rs1 hart) (rs2 hart) then 1 else 0) hart

  unfoldable pub exec_sltu : Hart M → Step M
  unfolding write_back
  exec_sltu hart = write_back (if ltb (rs1 hart) (rs2 hart) then 1 else 0) hart

  unfoldable pub exec_and : Hart M → Step M
  unfolding write_back
  exec_and hart = write_back (bit_and (rs1 hart) (rs2 hart)) hart

  unfoldable pub exec_or : Hart M → Step M
  unfolding write_back
  exec_or hart = write_back (bit_or (rs1 hart) (rs2 hart)) hart

  unfoldable pub exec_xor : Hart M → Step M
  unfolding write_back
  exec_xor hart = write_back (bit_xor (rs1 hart) (rs2 hart)) hart

  unfoldable pub exec_sub : Hart M → Step M
  unfolding write_back sub
  exec_sub hart = write_back (sub 64 (rs1 hart) (rs2 hart)) hart

  unfoldable pub exec_addiw : Hart M → Step M
  unfolding write_back sign_extend extract_bits
  exec_addiw hart = write_back (extract_bits 64 32 0 (add (rs1 hart) (immidiate hart))) hart

  unfoldable pub exec_addw : Hart M → Step M
  unfolding write_back extract_bits
  exec_addw hart = write_back (extract_bits 64 32 0 (add (rs1 hart) (rs2 hart))) hart

  unfoldable pub exec_subw : Hart M → Step M
  unfolding write_back extract_bits sub
  exec_subw hart = write_back (extract_bits 64 32 0 (sub 64 (rs1 hart) (rs2 hart))) hart

-- A shift by an amount that is not known: 64 and more are the compiler's.
module _ {M : Type 0} (platform : Platform M) where
  unfoldable pub shift_left_by : ℕ → ℕ → ℕ
  unfolding shl
  shift_left_by a k = if ltb k 64 then shl 64 a k else platform.wide_shift_left a k

  unfoldable pub shift_right_by : ℕ → ℕ → ℕ
  shift_right_by a k = if ltb k 64 then a / 2 ^ k else platform.wide_shift_right a k

  unfoldable pub shift_signed_by : ℕ → ℕ → ℕ
  unfolding signify unsignify shift_right
  shift_signed_by a k =
      if ltb k 64
      then unsignify 64 (shift_right (signify 64 a) k)
      else platform.wide_shift_signed a k

  unfoldable pub exec_sll : Hart M → Step M
  unfolding write_back shift_left_by
  exec_sll hart = write_back (shift_left_by (rs1 hart) (rs2 hart)) hart

  unfoldable pub exec_srl : Hart M → Step M
  unfolding write_back shift_right_by
  exec_srl hart = write_back (shift_right_by (rs1 hart) (rs2 hart)) hart

  unfoldable pub exec_sra : Hart M → Step M
  unfolding write_back shift_signed_by
  exec_sra hart = write_back (shift_signed_by (rs1 hart) (rs2 hart)) hart

  unfoldable pub exec_slliw : Hart M → Step M
  unfolding write_back extract_bits sign_extend shift_left_by
  exec_slliw hart =
      write_back (extract_bits 64 32 0 (shift_left_by (rs1 hart) (immidiate hart))) hart

  unfoldable pub exec_sllw : Hart M → Step M
  unfolding write_back extract_bits shift_left_by
  exec_sllw hart = write_back (extract_bits 64 32 0 (shift_left_by (rs1 hart) (rs2 hart))) hart

  unfoldable pub exec_srliw : Hart M → Step M
  unfolding write_back extract_bits sign_extend shift_right_by
  exec_srliw hart =
      write_back (extract_bits 64 32 0 (shift_right_by (rs1 hart) (immidiate hart))) hart

  unfoldable pub exec_srlw : Hart M → Step M
  unfolding write_back extract_bits shift_right_by
  exec_srlw hart = write_back (extract_bits 64 32 0 (shift_right_by (rs1 hart) (rs2 hart))) hart

  unfoldable pub exec_sraiw : Hart M → Step M
  unfolding write_back extract_bits sign_extend shift_signed_by
  exec_sraiw hart =
      write_back (extract_bits 64 32 0 (shift_signed_by (rs1 hart) (immidiate hart))) hart

  unfoldable pub exec_sraw : Hart M → Step M
  unfolding write_back extract_bits shift_signed_by
  exec_sraw hart = write_back (extract_bits 64 32 0 (shift_signed_by (rs1 hart) (rs2 hart))) hart
