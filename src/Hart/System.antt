-- ===== src/Hart/System.antt =====
-- src/sim/hart.cpp: exceptions, the return from them, the accesses to control registers, and the
-- handlers that do little or nothing.
use besm.Prelude.{ℕ, ◌+◌, ◌*◌, ◌%◌, ◌^◌, ◌==◌, not, Option, none, some, if◌then◌else◌}
use besm.Gprf
use besm.Csr.File
use besm.Csr.File.{Csrf, privillege_machine, privillege_supervisor, privillege_user}
use besm.Csr.Registers.{
  Encoding, RegisterName, mie_field, mpie_field, mpp_field, mepc_field, mode_field, base_field,
  interrupt_field, exception_code_field,
}
use besm.Hart.{
  Hart, Step, Platform, next, dispatch, returned, terminated, raised, current_instr, read_register,
  write_register, rs1, next_pc, set_field, get_field, set_privillege, fetch_bb,
}

-- `ExceptionId`
abbrev pub exception_illegal_instr : ℕ
exception_illegal_instr = 2

abbrev pub exception_ecall_umode : ℕ
exception_ecall_umode = 8

abbrev pub exception_ecall_smode : ℕ
exception_ecall_smode = 9

abbrev pub exception_ecall_mmode : ℕ
exception_ecall_mmode = 11

-- `MTVec::VectoredMode`
abbrev pub vectored_mode : ℕ
vectored_mode = 1

module _ {M : Type 0} where
  -- `execNextInstr`, and an exception, after a part that may throw.
  unfoldable pub or_raised : (Hart M → Step M) → Option (Hart M) → Step M
  or_raised rest none = raised
  or_raised rest (some hart) = rest hart

module _ {M : Type 0} (enc : Encoding) where
  -- The first part of `Hart::raiseException`: mstatus, the privilege and mcause.
  unfoldable pub save_status : ℕ → Hart M → Hart M
  unfolding set_field get_field
  save_status id hart =
      let mpie =
        set_field RegisterName.mstatus (mpie_field enc)
          (get_field RegisterName.mstatus (mie_field enc) hart) hart in
      let mie = set_field RegisterName.mstatus (mie_field enc) 0 mpie in
      let mpp = set_field RegisterName.mstatus (mpp_field enc) mie.csrf.privillege mie in
      let machine = set_privillege privillege_machine mpp in
      let interrupt = set_field RegisterName.mcause interrupt_field 0 machine in
      set_field RegisterName.mcause exception_code_field id interrupt

  -- Where the exception goes.
  unfoldable pub trap_target : ℕ → Hart M → ℕ
  unfolding get_field
  trap_target id hart =
      let base = get_field RegisterName.mtvec base_field hart in
      if get_field RegisterName.mtvec mode_field hart == vectored_mode
      then (base + id) % 2 ^ 64 * 4 % 2 ^ 64
      else base * 4 % 2 ^ 64

  -- `raiseException` up to its `fetchBB`.
  unfoldable pub trap : ℕ → Hart M → Hart M
  unfolding set_field
  trap id hart =
      let saved = save_status id hart in
      let new_pc = trap_target id saved in
      let epc = set_field RegisterName.mepc mepc_field (read_register Gprf.pc saved) saved in
      write_register Gprf.pc new_pc epc

  -- The machine-mode branch of `exec_MRET`.
  unfoldable pub restore_status : Hart M → Hart M
  unfolding set_field get_field
  restore_status hart =
      let lowered = set_privillege (get_field RegisterName.mstatus (mpp_field enc) hart) hart in
      let mie =
        set_field RegisterName.mstatus (mie_field enc)
          (get_field RegisterName.mstatus (mpie_field enc) lowered) lowered in
      let mpie = set_field RegisterName.mstatus (mpie_field enc) 1 mie in
      set_field RegisterName.mstatus (mpp_field enc) privillege_user mpie

  unfoldable pub return_to_mepc : Hart M → Hart M
  unfolding get_field
  return_to_mepc hart = write_register Gprf.pc (get_field RegisterName.mepc mepc_field hart) hart

module _ {M : Type 0} (platform : Platform M) (enc : Encoding) where
  -- `Hart::raiseException`
  unfoldable pub raise_exception : ℕ → Hart M → Option (Hart M)
  raise_exception id hart = fetch_bb platform (trap enc id hart)

  -- `Hart::raiseIllegalInstruction`
  unfoldable pub raise_illegal_instruction : Hart M → Option (Hart M)
  raise_illegal_instruction hart = raise_exception exception_illegal_instr hart

  unfoldable pub exec_bb_end : Hart M → Step M
  unfolding or_raised
  exec_bb_end hart = or_raised dispatch (fetch_bb platform hart)

  unfoldable pub exec_inv_op : Hart M → Step M
  unfolding or_raised
  exec_inv_op hart = or_raised returned (raise_illegal_instruction hart)

  unfoldable pub exec_pause : Hart M → Step M
  unfolding or_raised
  exec_pause hart = or_raised next (raise_illegal_instruction hart)

  -- The `switch` of `exec_ECALL`.
  unfoldable pub ecall_at : ℕ → Hart M → Step M
  unfolding or_raised
  ecall_at level hart =
      if level == privillege_user
      then or_raised next (raise_exception exception_ecall_umode hart)
      else if level == privillege_supervisor
      then or_raised next (raise_exception exception_ecall_smode hart)
      else if level == privillege_machine
      then or_raised next (raise_exception exception_ecall_mmode hart)
      else terminated

  unfoldable pub exec_ecall : Hart M → Step M
  unfolding ecall_at
  exec_ecall hart = ecall_at hart.csrf.privillege hart

  unfoldable pub exec_mret : Hart M → Step M
  unfolding or_raised
  exec_mret hart =
      if not (hart.csrf.privillege == privillege_machine)
      then or_raised (λ trapped. next (return_to_mepc enc trapped)) (raise_illegal_instruction hart)
      else next (return_to_mepc enc (restore_status enc hart))

  -- The end of the handlers of control registers, on what the file answered.
  unfoldable pub access_by : Option ℕ × Csrf → Hart M → Step M
  unfolding or_raised next_pc
  access_by (none, csrf) hart =
      or_raised next (raise_illegal_instruction (record hart { csrf = csrf }))
  access_by (some value, csrf) hart =
      next (next_pc (write_register (current_instr hart).rd value (record hart { csrf = csrf })))

  unfoldable pub exec_csrrw : Hart M → Step M
  unfolding File.write
  exec_csrrw hart =
      access_by (File.write enc (current_instr hart).immidiate (rs1 hart) hart.csrf) hart

  unfoldable pub exec_csrrs : Hart M → Step M
  unfolding File.read File.set_bits
  exec_csrrs hart =
      access_by
        (if (current_instr hart).rs1 == Gprf.x0
          then (File.read (current_instr hart).immidiate hart.csrf, hart.csrf)
          else File.set_bits enc (current_instr hart).immidiate (rs1 hart) hart.csrf)
        hart

  unfoldable pub exec_csrrc : Hart M → Step M
  unfolding File.clear_bits
  exec_csrrc hart =
      access_by (File.clear_bits enc (current_instr hart).immidiate (rs1 hart) hart.csrf) hart

  unfoldable pub exec_csrrwi : Hart M → Step M
  unfolding File.write
  exec_csrrwi hart =
      access_by (File.write enc (current_instr hart).immidiate (current_instr hart).rs1 hart.csrf)
        hart

  unfoldable pub exec_csrrsi : Hart M → Step M
  unfolding File.set_bits
  exec_csrrsi hart =
      access_by
        (File.set_bits enc (current_instr hart).immidiate (current_instr hart).rs1 hart.csrf) hart

  unfoldable pub exec_csrrci : Hart M → Step M
  unfolding File.clear_bits
  exec_csrrci hart =
      access_by
        (File.clear_bits enc (current_instr hart).immidiate (current_instr hart).rs1 hart.csrf) hart

module _ {M : Type 0} where
  unfoldable pub exec_fence : Hart M → Step M
  unfolding next_pc
  exec_fence hart = next (next_pc hart)

  unfoldable pub exec_fence_tso : Hart M → Step M
  unfolding next_pc
  exec_fence_tso hart = next (next_pc hart)

  -- It returns before it raises anything.
  unfoldable pub exec_ebreak : Hart M → Step M
  exec_ebreak hart = returned hart

  unfoldable pub exec_sret : Hart M → Step M
  exec_sret hart = terminated
