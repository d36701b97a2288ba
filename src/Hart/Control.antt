-- ===== src/Hart/Control.antt =====
-- src/sim/hart.cpp: the jumps and the branches.
use besm.Prelude.{◌==◌, ltb, bit_and, Bool, not, if◌then◌else◌}
use besm.BitMagic.{sign_extend, complement}
use besm.Gprf
use besm.Hart.{
  Hart, Step, next, current_instr, read_register, write_register, rs1, rs2, immidiate, next_pc,
}
use besm.Hart.Signed.{signify, less}
use besm.Hart.Arithmetic.{add, signed_less}

module _ {M : Type 0} where
  unfoldable pub exec_jal : Hart M → Step M
  unfolding sign_extend
  exec_jal hart =
      let pc = read_register Gprf.pc hart in
      let offset = sign_extend 64 20 (current_instr hart).immidiate in
      let target = add pc offset in
      let ret = add pc 4 in
      let linked = write_register (current_instr hart).rd ret hart in
      next (write_register Gprf.pc target linked)

  unfoldable pub exec_jalr : Hart M → Step M
  unfolding sign_extend complement
  exec_jalr hart =
      let pc = read_register Gprf.pc hart in
      let target = bit_and (add (rs1 hart) (immidiate hart)) (complement 64 1) in
      let ret = add pc 4 in
      let linked = write_register (current_instr hart).rd ret hart in
      next (write_register Gprf.pc target linked)

  -- What the branches share once the condition is known.
  unfoldable pub branch : Bool → Hart M → Step M
  unfolding sign_extend next_pc
  branch taken hart =
      let target = add (read_register Gprf.pc hart) (immidiate hart) in
      next (if taken then write_register Gprf.pc target hart else next_pc hart)

  unfoldable pub exec_beq : Hart M → Step M
  unfolding branch
  exec_beq hart = branch (rs1 hart == rs2 hart) hart

  unfoldable pub exec_bne : Hart M → Step M
  unfolding branch
  exec_bne hart = branch (not (rs1 hart == rs2 hart)) hart

  unfoldable pub exec_blt : Hart M → Step M
  unfolding branch less signify
  exec_blt hart = branch (signed_less (rs1 hart) (rs2 hart)) hart

  unfoldable pub exec_bltu : Hart M → Step M
  unfolding branch
  exec_bltu hart = branch (ltb (rs1 hart) (rs2 hart)) hart

  unfoldable pub exec_bge : Hart M → Step M
  unfolding branch less signify
  exec_bge hart = branch (not (signed_less (rs1 hart) (rs2 hart))) hart

  unfoldable pub exec_bgeu : Hart M → Step M
  unfolding branch
  exec_bgeu hart = branch (not (ltb (rs1 hart) (rs2 hart))) hart
